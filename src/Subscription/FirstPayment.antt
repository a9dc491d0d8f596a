-- ===== src/Subscription/FirstPayment.antt =====
-- instructions/subscription: from a sign-up to its first payment.
use eventop.Base.{
  sym, ◌∙◌, ◌++◌, [], ◌∷◌, ℤ, ◌+◌, ◌≤◌, ◌<◌, ◌≡◌, arith, true, ◌≤ℤ◌, none, some, Text,
}
use eventop.Runtime.Result.{ok, >>=-eq-ok}
use eventop.Runtime.Word.{u64_mod, sub_i64}
use eventop.Runtime.Token.{Ledger}
use eventop.Runtime.Anchor.{bump_byte, Solana}
use eventop.Runtime.Laws.{IsSolana}
use eventop.State.ProtocolConfig.{config_seeds}
use eventop.State.SubscriptionWallet.{wallet_seeds}
use eventop.Outcome.{Outcome}
use eventop.Subscription.Subscribe
use eventop.Subscription.Subscribe.{SubscribeWithWallet, Bumps, subscribe_with_wallet}
use eventop.Subscription.Signup.{opened, subscribe-IsSubscribed}
use eventop.Subscription.ExecutePayment
use eventop.Subscription.ExecutePayment.{ExecutePaymentFromWallet, execute_payment_from_wallet}
use eventop.Subscription.PaymentFees.{AreApart}
use eventop.Subscription.PaymentLiveness.{payment_succeeds}
use eventop.Addresses.{subscribe_accepted}

-- What a sign-up has checked of the wallet, and what it leaves of the wallet and the plan.
record Leaves (solana : Solana) (ctx : SubscribeWithWallet) (o : Outcome SubscribeWithWallet)
    : Type 0 where
  wallet_address :
      solana.create_program_address (
        wallet_seeds ctx.subscription_wallet.state.owner ctx.subscription_wallet.state.mint
        ++ (bump_byte ctx.subscription_wallet.state.bump ∷ []))
      ≡ some ctx.subscription_wallet.key
  tokens_mint : ctx.wallet_token_account.state.mint ≡ ctx.subscription_wallet.state.mint
  tokens_owner : ctx.wallet_token_account.state.owner ≡ ctx.subscription_wallet.key
  wallet_key : o.accounts.subscription_wallet.key ≡ ctx.subscription_wallet.key
  wallet_owner : o.accounts.subscription_wallet.state.owner ≡ ctx.subscription_wallet.state.owner
  wallet_mint : o.accounts.subscription_wallet.state.mint ≡ ctx.subscription_wallet.state.mint
  wallet_bump : o.accounts.subscription_wallet.state.bump ≡ ctx.subscription_wallet.state.bump
  wallet_spent :
      o.accounts.subscription_wallet.state.total_spent ≡ ctx.subscription_wallet.state.total_spent
  plan_key : o.accounts.merchant_plan.key ≡ ctx.merchant_plan.key
  plan_merchant : o.accounts.merchant_plan.state.merchant ≡ ctx.merchant_plan.state.merchant
  plan_active : o.accounts.merchant_plan.state.is_active ≡ true
  same_key : o.accounts.subscription_state.key ≡ ctx.subscription_state.key

wallet_checked :
    (solana : Solana) (ctx : SubscribeWithWallet) (token : Text) (b : Bumps)
    → Subscribe.try_accounts solana ctx token ≡ ok b
    → (solana.create_program_address (
          wallet_seeds ctx.subscription_wallet.state.owner ctx.subscription_wallet.state.mint
          ++ (bump_byte ctx.subscription_wallet.state.bump ∷ []))
        ≡ some ctx.subscription_wallet.key)
      × (ctx.wallet_token_account.state.mint ≡ ctx.subscription_wallet.state.mint)
      × (ctx.wallet_token_account.state.owner ≡ ctx.subscription_wallet.key)
unfolding Subscribe.try_accounts
wallet_checked solana ctx token b h = ground arith

signup-Leaves :
    (solana : Solana) (ctx : SubscribeWithWallet) (token : Text) (now : ℤ) (l : Ledger)
    {o : Outcome SubscribeWithWallet}
    → subscribe_with_wallet solana ctx token now l ≡ ok o
    → Leaves solana ctx o
unfolding subscribe_with_wallet Subscribe.handler
signup-Leaves solana ctx token now l h =
    let (b, checked, done) = >>=-eq-ok (Subscribe.try_accounts solana ctx token) _ h in
    let (address, mint, owner) = wallet_checked solana ctx token b checked in
    record {
      wallet_address = address;
      tokens_mint = mint;
      tokens_owner = owner;
      wallet_key = ground arith;
      wallet_owner = ground arith;
      wallet_mint = ground arith;
      wallet_bump = ground arith;
      wallet_spent = ground arith;
      plan_key = ground arith;
      plan_merchant = ground arith;
      plan_active = ground arith;
      same_key = ground arith;
    }

-- The accounts of a payment after the sign-up `o` of `ctx` at the time `since`: the subscription,
-- the wallet and the plan as it left them, the wallet's tokens as they were, and receiving accounts
-- of the merchant and of the treasury.
pub record IsReady (solana : Solana) (ctx : SubscribeWithWallet) (since : ℤ)
    (o : Outcome SubscribeWithWallet) (p : ExecutePaymentFromWallet) (now waited : ℤ) (l : Ledger)
    : Type 0 where
  pub same_subscription : p.subscription_state.key ≡ o.accounts.subscription_state.key
  pub subscription : o.accounts.subscription_state.state ≡ some p.subscription_state.state
  pub wallet : p.subscription_wallet ≡ o.accounts.subscription_wallet
  pub plan : p.merchant_plan ≡ o.accounts.merchant_plan
  pub tokens : p.wallet_token_account ≡ ctx.wallet_token_account
  pub no_vault : p.yield_vault ≡ none
  pub same_mint : ctx.subscription_wallet.state.mint ≡ ctx.merchant_plan.state.mint
  pub config_address :
      solana.create_program_address (config_seeds ++ (bump_byte p.protocol_config.state.bump ∷ []))
      ≡ some p.protocol_config.key
  pub fee_bps : p.protocol_config.state.protocol_fee_bps ≤ 1000
  pub merchant_owner : p.merchant_token_account.state.owner ≡ ctx.merchant_plan.state.merchant
  pub merchant_mint : p.merchant_token_account.state.mint ≡ ctx.merchant_plan.state.mint
  pub treasury_owner : p.protocol_treasury.state.owner ≡ p.protocol_config.state.treasury
  pub treasury_mint : p.protocol_treasury.state.mint ≡ ctx.merchant_plan.state.mint
  pub apart : AreApart p
  pub elapsed : sub_i64 now since ≡ ok waited
  pub due : ctx.merchant_plan.state.payment_interval ≤ℤ waited
  pub wallet_loaded : l p.wallet_token_account.key ≡ p.wallet_token_account.state
  pub merchant_loaded : l p.merchant_token_account.key ≡ p.merchant_token_account.state
  pub treasury_loaded : l p.protocol_treasury.key ≡ p.protocol_treasury.state
  pub wallet_fits : p.wallet_token_account.state.amount < u64_mod
  pub merchant_fits :
      p.merchant_token_account.state.amount + ctx.merchant_plan.state.fee_amount < u64_mod
  pub treasury_fits :
      p.protocol_treasury.state.amount + ctx.merchant_plan.state.fee_amount < u64_mod
  pub spent_fits :
      ctx.subscription_wallet.state.total_spent + ctx.merchant_plan.state.fee_amount < u64_mod

module _ {solana : Solana} (laws : IsSolana solana) (ctx : SubscribeWithWallet) (token : Text)
    (since : ℤ) (l₀ : Ledger) {o : Outcome SubscribeWithWallet}
    (subscribed : subscribe_with_wallet solana ctx token since l₀ ≡ ok o)
    (p : ExecutePaymentFromWallet) (now waited : ℤ) (l : Ledger)
    (ready : IsReady solana ctx since o p now waited l) where
  -- The payment passes the checks of its accounts.
  first_payment_checked : ExecutePayment.try_accounts solana p ≡ ok tt
  unfolding ExecutePayment.try_accounts
  first_payment_checked =
      let leaves = signup-Leaves solana ctx token since l₀ subscribed in
      let (facts, (bump, state)) = subscribe-IsSubscribed solana ctx token since l₀ subscribed in
      let (_, accepted) =
        subscribe_accepted laws ctx token since l₀ subscribed ready.subscription in
      ground (arith, leaves, facts, ready)

  -- After a sign-up on a wallet of the plan's mint, the first payment goes through once the plan's
  -- interval has passed: on the accounts as the sign-up left them and with no vault given, as long as
  -- the wallet's tokens are still there, the accounts that receive are the merchant's and the
  -- treasury's, the three token accounts are distinct, the fee is in its range, and no total
  -- overflows.
  pub first_payment_succeeds :
      (o' : Outcome ExecutePaymentFromWallet) × (execute_payment_from_wallet solana p now l ≡ ok o')
  first_payment_succeeds =
      let (facts, (bump, state)) = subscribe-IsSubscribed solana ctx token since l₀ subscribed in
      let leaves = signup-Leaves solana ctx token since l₀ subscribed in
      let known : some p.subscription_state.state ≡ some (opened ctx bump token since) =
        sym ready.subscription ∙ state in
      payment_succeeds laws p now waited l
        (record {
          checked = first_payment_checked;
          apart = ready.apart;
          elapsed = ground (arith, ready.elapsed);
          fee_bps = omega (arith, ready.fee_bps);
          mints = ground (arith, leaves, ready.same_mint, ready.wallet);
          wallet_loaded = ready.wallet_loaded;
          merchant_loaded = ready.merchant_loaded;
          treasury_loaded = ready.treasury_loaded;
          wallet_fits = ready.wallet_fits;
          merchant_fits = ground (arith, ready);
          treasury_fits = ground (arith, ready);
          paid_fits = ground (arith, ready);
          count_fits = ground (arith, ready);
          spent_fits = ground (arith, ready, leaves);
        })
        (ground (arith, ready.due)) (ground (arith, facts, ready))
