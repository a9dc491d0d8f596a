-- ===== src/World/Payments.antt =====
-- Payments of the subscriptions that transactions have opened.
use mathlib.Core.Path.{subst}
use eventop.Base.{
  ℤ, ◌+◌, ◌≤◌, ◌<◌, ◌≡◌, ◌≢◌, refl, ◌∙◌, arith, true, ◌≤ℤ◌, ◌↔◌, none, some, List, Text,
}
use eventop.Base.Assoc.{find}
use eventop.Runtime.Result.{ok, >>=-ok, >>=-eq-ok}
use eventop.Runtime.Word.{u32_mod, u64_mod, sub_i64}
use eventop.Runtime.Token.{Ledger}
use eventop.Runtime.Anchor.{Pubkey, Solana}
use eventop.Runtime.Laws.{IsSolana}
use eventop.Outcome.{Outcome}
use eventop.State.ProtocolConfig.{ProtocolConfig, config_seeds}
use eventop.State.SubscriptionWallet.{SubscriptionWallet, wallet_seeds}
use eventop.State.SubscriptionState.{SubscriptionState, subscription_seeds}
use eventop.State.MerchantPlan.{MerchantPlan}
use eventop.Subscription.ExecutePayment
use eventop.Subscription.ExecutePayment.{ExecutePaymentFromWallet, execute_payment_from_wallet}
use eventop.Subscription.PaymentLiveness.{IsChargeable, payment_iff}
use eventop.World.{World, Transaction, Message, pay, new_world}
use eventop.World.Load.{load, load_optional, save_optional, tokens_at}
use eventop.World.Accounts.{load_payment}
use eventop.World.Exec.{exec, registry_paid, serve}
use eventop.World.Links.{IsLinked}
use eventop.World.Linked.{serve-IsLinked}

-- The token accounts of a payment, by key.
pub record PaymentKeys : Type 0 where
  pub config : Pubkey
  pub wallet_tokens : Pubkey
  pub merchant_tokens : Pubkey
  pub treasury : Pubkey

-- The payment of the subscription `s` at `k`, with no vault.
abbrev pub payment_of : Pubkey → SubscriptionState → PaymentKeys → Message
payment_of k s keys =
    pay k s.subscription_wallet s.merchant_plan keys.config keys.wallet_tokens keys.merchant_tokens
      keys.treasury none none none

-- The wallet has the subscription's mint; the token accounts are the wallet's, the merchant's and the
-- treasury's, three accounts of that mint; the time since the last payment is in range; and no total
-- overflows.
pub record IsPayable (w : World) (s : SubscriptionState) (v : SubscriptionWallet)
    (c : ProtocolConfig) (keys : PaymentKeys) (now waited : ℤ) : Type 0 where
  pub wallet : find s.subscription_wallet w.registry.wallets ≡ some v
  pub config : find keys.config w.configs ≡ some c
  pub mints : v.mint ≡ s.mint
  pub wallet_owner : (w.ledger keys.wallet_tokens).owner ≡ s.subscription_wallet
  pub wallet_mint : (w.ledger keys.wallet_tokens).mint ≡ s.mint
  pub merchant_owner : (w.ledger keys.merchant_tokens).owner ≡ s.merchant
  pub merchant_mint : (w.ledger keys.merchant_tokens).mint ≡ s.mint
  pub treasury_owner : (w.ledger keys.treasury).owner ≡ c.treasury
  pub treasury_mint : (w.ledger keys.treasury).mint ≡ s.mint
  pub wallet_merchant_apart : keys.wallet_tokens ≢ keys.merchant_tokens
  pub wallet_treasury_apart : keys.wallet_tokens ≢ keys.treasury
  pub merchant_treasury_apart : keys.merchant_tokens ≢ keys.treasury
  pub elapsed : sub_i64 now s.last_payment_timestamp ≡ ok waited
  pub wallet_fits : (w.ledger keys.wallet_tokens).amount < u64_mod
  pub merchant_fits : (w.ledger keys.merchant_tokens).amount + s.fee_amount < u64_mod
  pub treasury_fits : (w.ledger keys.treasury).amount + s.fee_amount < u64_mod
  pub paid_fits : s.total_paid + s.fee_amount < u64_mod
  pub count_fits : s.payment_count + 1 < u32_mod
  pub spent_fits : v.total_spent + s.fee_amount < u64_mod

abbrev charge_of :
    World
    → Pubkey
    → SubscriptionState
    → SubscriptionWallet
    → MerchantPlan
    → ProtocolConfig
    → PaymentKeys
    → ExecutePaymentFromWallet
charge_of w k s v p c keys = record {
  subscription_state = record { key = k; state = s };
  subscription_wallet = record { key = s.subscription_wallet; state = v };
  merchant_plan = record { key = s.merchant_plan; state = p };
  protocol_config = record { key = keys.config; state = c };
  wallet_token_account = tokens_at w keys.wallet_tokens;
  merchant_token_account = tokens_at w keys.merchant_tokens;
  protocol_treasury = tokens_at w keys.treasury;
  yield_vault = none;
  vault_buffer = none;
  jupiter_lending = none;
}

module _ {solana : Solana} (laws : IsSolana solana) (w : World) (linked : IsLinked solana w)
    (k : Pubkey) (s : SubscriptionState) (v : SubscriptionWallet) (p : MerchantPlan)
    (c : ProtocolConfig) (keys : PaymentKeys) (now waited : ℤ)
    (there : find k w.registry.subscriptions ≡ some s)
    (posted : find s.merchant_plan w.plans ≡ some p)
    (payable : IsPayable w s v c keys now waited) where
  open laws use {create_found}

  loaded :
      load_payment w k s.subscription_wallet s.merchant_plan keys.config keys.wallet_tokens
        keys.merchant_tokens keys.treasury none none none
      ≡ ok (charge_of w k s v p c keys)
  unfolding load_payment load load_optional
  loaded = ground (arith, payable.wallet, payable.config)

  charge_checked :
      p.merchant ≡ s.merchant
      → p.is_active ≡ true
      → ExecutePayment.try_accounts solana (charge_of w k s v p c keys) ≡ ok tt
  unfolding ExecutePayment.try_accounts
  charge_checked merchant active =
      let fits = linked.subscriptions k s there in
      let here = create_found (subscription_seeds s.user s.merchant s.mint) k s.bump fits.address in
      let wallet =
        create_found (wallet_seeds v.owner v.mint) s.subscription_wallet v.bump
          (linked.wallets s.subscription_wallet v payable.wallet).address in
      let config =
        create_found config_seeds keys.config c.bump
          (linked.configs keys.config c payable.config).address in
      ground (arith, fits.active, payable)

  charge-IsChargeable :
      p.merchant ≡ s.merchant
      → p.is_active ≡ true
      → IsChargeable solana (charge_of w k s v p c keys) now waited w.ledger
  charge-IsChargeable merchant active = record {
    checked = charge_checked merchant active;
    apart = (
      payable.wallet_merchant_apart, payable.wallet_treasury_apart, payable.merchant_treasury_apart,
    );
    elapsed = payable.elapsed;
    fee_bps = omega (arith, (linked.configs keys.config c payable.config).fee);
    mints = payable.mints;
    wallet_loaded = refl;
    merchant_loaded = refl;
    treasury_loaded = refl;
    wallet_fits = payable.wallet_fits;
    merchant_fits = payable.merchant_fits;
    treasury_fits = payable.treasury_fits;
    paid_fits = payable.paid_fits;
    count_fits = payable.count_fits;
    spent_fits = payable.spent_fits;
  }

  exec-ok :
      (signers : List Pubkey) {o : Outcome ExecutePaymentFromWallet}
      → execute_payment_from_wallet solana (charge_of w k s v p c keys) now w.ledger ≡ ok o
      → (w' : World) × (exec solana signers now w (payment_of k s keys) ≡ ok w')
  unfolding exec
  exec-ok signers {o} done = (
    record w {
      vaults = save_optional o.accounts.yield_vault w.vaults;
      registry = registry_paid o w.registry;
      ledger = o.ledger;
    },
    >>=-ok _ loaded ∙ >>=-ok _ done,
  )

  ok-exec :
      (signers : List Pubkey) {w' : World}
      → exec solana signers now w (payment_of k s keys) ≡ ok w'
      → (o : Outcome ExecutePaymentFromWallet) × (execute_payment_from_wallet solana
            (charge_of w k s v p c keys)
            now
            w.ledger
          ≡ ok o)
  unfolding exec
  ok-exec signers h =
      let (ctx, found, rest) =
        >>=-eq-ok
          (load_payment w k s.subscription_wallet s.merchant_plan keys.config keys.wallet_tokens
            keys.merchant_tokens keys.treasury none none none)
          _ h in
      let (o, done, _) = >>=-eq-ok (execute_payment_from_wallet solana ctx now w.ledger) _ rest in
      let agreed = loaded in
      let same : ctx ≡ charge_of w k s v p c keys = cc in
      (
        o,
        subst
            (λ (ctx : ExecutePaymentFromWallet).
              execute_payment_from_wallet solana ctx now w.ledger ≡ ok o)
            same done,
      )

module _ {solana : Solana} (laws : IsSolana solana) where
  -- In every world that transactions reach from nothing, and for every subscription in it: the
  -- payment of the subscription, signed by anybody and given no vault, goes through exactly if the
  -- plan's interval has passed since the last one and the wallet's token account covers the fee amount.
  -- That is so where the wallet has the subscription's mint; the token accounts are the wallet's, the
  -- merchant's and the treasury's, three accounts of that mint; the time since the last payment is in
  -- range; and no total overflows.
  pub served_payment_iff :
      (l : Ledger) (bytes : Pubkey → Text) (ts : List Transaction) (signers : List Pubkey)
      (k : Pubkey) (s : SubscriptionState) (v : SubscriptionWallet) (c : ProtocolConfig)
      (keys : PaymentKeys) (now waited : ℤ)
      → find k (serve solana (new_world l bytes) ts).registry.subscriptions ≡ some s
      → IsPayable (serve solana (new_world l bytes) ts) s v c keys now waited
      → ((w : World) × (exec solana signers now
              (serve solana (new_world l bytes) ts)
              (payment_of k s keys)
            ≡ ok w))
        ↔ ((s.payment_interval ≤ℤ waited)
            × (s.fee_amount
                ≤ ((serve solana (new_world l bytes) ts).ledger keys.wallet_tokens).amount))
  served_payment_iff l bytes ts signers k s v c keys now waited there payable =
      let w = serve solana (new_world l bytes) ts in
      let linked = serve-IsLinked solana l bytes ts in
      let (p, posted, (merchant, _, _, _, active)) = (linked.subscriptions k s there).plan in
      let chargeable =
        charge-IsChargeable laws w linked k s v p c keys now waited there posted payable merchant
          active in
      let (to, from) =
        payment_iff laws (charge_of w k s v p c keys) now waited w.ledger chargeable in
      (
        λ h. to (ok-exec laws w linked k s v p c keys now waited there posted payable signers h.1),
        λ h.
            exec-ok laws w linked k s v p c keys now waited there posted payable signers (from h).1,
      )
