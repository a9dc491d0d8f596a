-- ===== src/Subscription/ExecutePayment.antt =====
-- instructions/subscription/execute_payment.rs of the program: one recurring payment, with a
-- redemption of vault shares where the wallet's token account is short.
use eventop.Base.{
  ℕ, ℤ, Bool, ◌&&◌, Option, none, some, [], ◌∷◌, ltb, leb, leb_ℤ, ◌==◌, if◌then◌else◌,
}
use eventop.Errors.{
  subscription_inactive, plan_inactive, payment_too_early, math_overflow, insufficient_shares,
  insufficient_funds,
}
use eventop.Runtime.Result.{Result, ok, ◌>>=◌, ◌>>◌, require, check, constraint_raw, ok_or, unwrap}
use eventop.Runtime.Word.{
  u32_mod, u64_mod, u128_mod, checked_add, checked_sub, checked_mul, checked_div, as_u64, sub_i64,
}
use eventop.Runtime.Token.{TokenAccount, Ledger}
use eventop.Runtime.Anchor.{
  Pubkey, Account, AccountInfo, Solana, check_seeds, check_canonical, check_token_mint,
  check_token_authority,
}
use eventop.State.ProtocolConfig.{ProtocolConfig, config_seeds}
use eventop.State.YieldVault.{YieldVault, vault_seeds}
use eventop.State.SubscriptionWallet.{SubscriptionWallet, check_wallet_seeds, wallet_transfer}
use eventop.State.MerchantPlan.{MerchantPlan}
use eventop.State.SubscriptionState.{SubscriptionState, subscription_seeds}
use eventop.Events.{payment_executed}
use eventop.Outcome.{Outcome, with_state}
use eventop.Utils.Calculations.{calculate_shares_for_withdrawal}
use eventop.Utils.VaultOperations.{get_vault_total_value, withdraw_from_vault_internal}

-- No account of this instruction is a signer.
pub record ExecutePaymentFromWallet : Type 0 where
  pub subscription_state : Account SubscriptionState
  pub subscription_wallet : Account SubscriptionWallet
  pub merchant_plan : Account MerchantPlan
  pub protocol_config : Account ProtocolConfig
  pub wallet_token_account : Account TokenAccount
  pub merchant_token_account : Account TokenAccount
  pub protocol_treasury : Account TokenAccount
  pub yield_vault : Option (Account YieldVault)
  pub vault_buffer : Option (Account TokenAccount)
  pub jupiter_lending : Option AccountInfo

-- The attribute of the optional vault.
abbrev pub check_vault :
    Solana → Account SubscriptionWallet → Option (Account YieldVault) → Result (Unit {0})
check_vault solana wallet none = ok tt
check_vault solana wallet (some vault) =
    check_canonical solana (vault_seeds wallet.state.mint) vault.key >>= λ _. ok tt

unfoldable pub try_accounts : Solana → ExecutePaymentFromWallet → Result (Unit {0})
try_accounts solana ctx =
    let subscription = ctx.subscription_state.state in
    let plan = ctx.merchant_plan in
    let config = ctx.protocol_config.state in
    do
      check_seeds solana
          (subscription_seeds subscription.user subscription.merchant subscription.mint)
          subscription.bump ctx.subscription_state.key
      require subscription.is_active subscription_inactive
      check_wallet_seeds solana ctx.subscription_wallet
      check (ctx.subscription_wallet.key == subscription.subscription_wallet) constraint_raw
      check (plan.key == subscription.merchant_plan) constraint_raw
      require plan.state.is_active plan_inactive
      check_seeds solana config_seeds config.bump ctx.protocol_config.key
      check_token_authority ctx.wallet_token_account ctx.subscription_wallet.key
      check_token_mint ctx.wallet_token_account ctx.subscription_wallet.state.mint
      check (ctx.merchant_token_account.state.owner == plan.state.merchant) constraint_raw
      check_token_mint ctx.merchant_token_account subscription.mint
      check (ctx.protocol_treasury.state.owner == config.treasury) constraint_raw
      check_token_mint ctx.protocol_treasury subscription.mint
      check_vault solana ctx.subscription_wallet ctx.yield_vault

-- The protocol's part of an amount.
unfoldable pub protocol_fee_of : ℕ → ℕ → Result ℕ
protocol_fee_of base_amount fee_bps = do
  product ← unwrap (checked_mul u128_mod base_amount fee_bps)
  quotient ← unwrap (checked_div product 10_000)
  ok (as_u64 quotient)

-- What the redemption changes.
pub record Redeemed : Type 0 where
  pub wallet : SubscriptionWallet
  pub vault : Option (Account YieldVault)
  pub ledger : Ledger

abbrev pub unchanged : ExecutePaymentFromWallet → Ledger → Redeemed
unchanged ctx ledger = record {
  wallet = ctx.subscription_wallet.state;
  vault = ctx.yield_vault;
  ledger = ledger;
}

-- The test before the redemption.
unfoldable pub is_redemption_due : ExecutePaymentFromWallet → ℕ → Bool
is_redemption_due ctx total_charge =
    let wallet = ctx.subscription_wallet.state in
    ltb ctx.wallet_token_account.state.amount total_charge
    && wallet.is_yield_enabled
    && ltb 0 wallet.yield_shares

module _ (solana : Solana) where
  unfoldable pub redeem : ExecutePaymentFromWallet → ℕ → Ledger → Result Redeemed
  unfolding withdraw_from_vault_internal
  redeem ctx total_charge ledger =
      let wallet = ctx.subscription_wallet.state in
      do
        shortfall ←
            ok_or (checked_sub total_charge ctx.wallet_token_account.state.amount) math_overflow
        vault_account ← unwrap ctx.yield_vault
        let vault = vault_account.state
        jupiter_lending ← unwrap ctx.jupiter_lending
        total_value ← get_vault_total_value jupiter_lending vault ctx.vault_buffer none
        shares_needed ←
            calculate_shares_for_withdrawal shortfall vault.total_shares_issued total_value
        require (leb shares_needed wallet.yield_shares) insufficient_shares
        buffer ← unwrap ctx.vault_buffer
        ledger' ←
            withdraw_from_vault_internal solana vault_account.key vault buffer.key
              ctx.wallet_token_account.key shortfall ledger
        yield_shares ← ok_or (checked_sub wallet.yield_shares shares_needed) math_overflow
        total_shares ← ok_or (checked_sub vault.total_shares_issued shares_needed) math_overflow
        ok (record {
          wallet = record wallet { yield_shares = yield_shares };
          vault =
              some (with_state vault_account (record vault { total_shares_issued = total_shares }));
          ledger = ledger';
        })

  unfoldable pub redeem_if_short : ExecutePaymentFromWallet → ℕ → Ledger → Result Redeemed
  unfolding is_redemption_due redeem
  redeem_if_short ctx total_charge ledger =
      if is_redemption_due ctx total_charge
      then redeem ctx total_charge ledger
      else ok (unchanged ctx ledger)

  -- A transfer out of the wallet, which the code leaves out for an amount of zero.
  unfoldable pub pay : ExecutePaymentFromWallet → Pubkey → ℕ → Ledger → Result Ledger
  pay ctx to amount ledger =
      if ltb 0 amount
      then solana.transfer (wallet_transfer ctx.subscription_wallet ctx.wallet_token_account.key to)
          amount ledger
      else ok ledger

  -- The two transfers of a payment.
  unfoldable pub settle :
      ExecutePaymentFromWallet → (merchant_receives protocol_fee : ℕ) → Ledger → Result Ledger
  settle ctx merchant_receives protocol_fee ledger =
      pay ctx ctx.merchant_token_account.key merchant_receives ledger
      >>= pay ctx ctx.protocol_treasury.key protocol_fee

  unfoldable pub handler :
      ExecutePaymentFromWallet
      → (current_time : ℤ) → Ledger
      → Result (Outcome ExecutePaymentFromWallet)
  unfolding redeem_if_short
  handler ctx current_time ledger =
      let subscription = ctx.subscription_state.state in
      let total_charge = subscription.fee_amount in
      do
        require subscription.is_active subscription_inactive
        time_since_last ← sub_i64 current_time subscription.last_payment_timestamp
        require (leb_ℤ subscription.payment_interval time_since_last) payment_too_early
        protocol_fee ← protocol_fee_of total_charge ctx.protocol_config.state.protocol_fee_bps
        merchant_receives ← ok_or (checked_sub total_charge protocol_fee) math_overflow
        redeemed ← redeem_if_short ctx total_charge ledger
        -- The balance read when the instruction began: the code does not load the account again.
        require (leb total_charge ctx.wallet_token_account.state.amount) insufficient_funds
        ledger' ← settle ctx merchant_receives protocol_fee redeemed.ledger
        total_paid ← ok_or (checked_add u64_mod subscription.total_paid total_charge) math_overflow
        payment_count ← ok_or (checked_add u32_mod subscription.payment_count 1) math_overflow
        total_spent ←
            ok_or (checked_add u64_mod redeemed.wallet.total_spent total_charge) math_overflow
        ok (record {
          accounts = record ctx {
            subscription_state = with_state ctx.subscription_state (record subscription {
              last_payment_timestamp = current_time;
              total_paid = total_paid;
              payment_count = payment_count;
            });
            subscription_wallet =
                with_state ctx.subscription_wallet
                  (record (redeemed.wallet) { total_spent = total_spent });
            yield_vault = redeemed.vault;
          };
          ledger = ledger';
          events =
              payment_executed (record {
                subscription_pda = ctx.subscription_state.key;
                wallet_pda = ctx.subscription_wallet.key;
                user = subscription.user;
                merchant = subscription.merchant;
                amount = total_charge;
                protocol_fee = protocol_fee;
                merchant_received = merchant_receives;
                payment_number = payment_count;
              })
              ∷ [];
        })

  -- The entry point in lib.rs.
  unfoldable pub execute_payment_from_wallet :
      ExecutePaymentFromWallet → ℤ → Ledger → Result (Outcome ExecutePaymentFromWallet)
  execute_payment_from_wallet ctx current_time ledger =
      try_accounts solana ctx >> handler ctx current_time ledger
