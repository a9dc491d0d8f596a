-- ===== src/Funds/Moves.antt =====
-- Each call is a chain of transfers out of one account.
use mathlib.Core.Path.{subst}
use eventop.Base.{ℕ, ℤ, ◌-◌, ◌≡◌, refl, arith, true, inl, inr, Bool-cases, ltb, List, [], ◌∷◌}
use eventop.Runtime.Result.{Result, ok, err, >>-eq-ok, >>=-eq-ok}
use eventop.Runtime.Token.{Ledger}
use eventop.Runtime.Anchor.{Pubkey, Solana, TransferContext}
use eventop.Outcome.{Outcome}
use eventop.State.SubscriptionWallet.{wallet_transfer}
use eventop.Utils.VaultOperations.{withdraw_from_vault_internal}
use eventop.Wallet.Deposit
use eventop.Wallet.Deposit.{DepositToWallet, deposit_to_wallet}
use eventop.Wallet.Withdraw
use eventop.Wallet.Withdraw.{WithdrawFromWallet, withdraw_from_wallet}
use eventop.YieldOps.Accounts.{YieldAccounts, try_accounts}
use eventop.YieldOps.Request.{Request, run}
use eventop.YieldOps.EnableYield
use eventop.YieldOps.DepositToYield
use eventop.YieldOps.WithdrawFromYield
use eventop.YieldOps.DisableYield
use eventop.YieldOps.Trades.{enable-IsBought, deposit-IsBought, withdraw-IsSold, disable-IsSold}
use eventop.Subscription.ExecutePayment
use eventop.Subscription.ExecutePayment.{
  ExecutePaymentFromWallet, execute_payment_from_wallet, settle,
}
use eventop.Subscription.PaymentFees.{handler_of_payment}
use eventop.Subscription.PaymentEffect.{handler-settle, fee_computed, payment-IsCharged}
use eventop.Funds.{
  trade_target, ledger_of, trade_source, Call, deposit, withdraw, trade, pay, exec, source_of,
  targets_of, IsAuthorised,
}

-- Transfers out of `source`, one to each target at most, in order.
pub data Paid (solana : Solana) (source : Pubkey) : List Pubkey → Ledger → Ledger → Type 0 where
  done : {l : Ledger} → Paid solana source [] l l
  skip :
      {to : Pubkey} {targets : List Pubkey} {l l' : Ledger}
      → Paid solana source targets l l'
      → Paid solana source (to ∷ targets) l l'
  send :
      {to : Pubkey} {targets : List Pubkey} {l l' l'' : Ledger} (c : TransferContext) (n : ℕ)
      → c.from ≡ source
      → c.to ≡ to
      → solana.transfer c n l ≡ ok l'
      → Paid solana source targets l' l''
      → Paid solana source (to ∷ targets) l l''

module _ (solana : Solana) (l : Ledger) where
  deposit-Paid :
      (ctx : DepositToWallet) (n : ℕ) {o : Outcome DepositToWallet}
      → deposit_to_wallet solana ctx n l ≡ ok o
      → Paid solana ctx.user_token_account.key (ctx.wallet_token_account.key ∷ []) l o.ledger
  unfolding deposit_to_wallet Deposit.handler
  deposit-Paid ctx n h =
      let c : TransferContext = record {
        from = ctx.user_token_account.key;
        to = ctx.wallet_token_account.key;
        authority = ctx.user;
        signer_seeds = [];
      } in
      send c n refl refl (ground arith) done

  withdraw-Paid :
      (ctx : WithdrawFromWallet) (n : ℕ) {o : Outcome WithdrawFromWallet}
      → withdraw_from_wallet solana ctx n l ≡ ok o
      → Paid solana ctx.wallet_token_account.key (ctx.user_token_account.key ∷ []) l o.ledger
  unfolding withdraw_from_wallet Withdraw.handler
  withdraw-Paid ctx n h =
      let c =
        wallet_transfer ctx.subscription_wallet ctx.wallet_token_account.key
          ctx.user_token_account.key in
      send c n refl refl (ground arith) done

  trade-Paid :
      (ctx : YieldAccounts) (r : Request) {o : Outcome YieldAccounts}
      → run solana ctx r l ≡ ok o
      → Paid solana (trade_source ctx r) (trade_target ctx r ∷ []) l o.ledger
  unfolding run EnableYield.enable_yield DepositToYield.deposit_to_yield
      WithdrawFromYield.withdraw_from_yield DisableYield.disable_yield withdraw_from_vault_internal
  trade-Paid ctx (Request.enable n) h =
      let b = enable-IsBought solana ctx l n (>>-eq-ok (try_accounts solana ctx) _ h) in
      send _ _ refl refl b.paid done
  trade-Paid ctx (Request.deposit n) h =
      let b = deposit-IsBought solana ctx l n (>>-eq-ok (try_accounts solana ctx) _ h) in
      send _ _ refl refl b.paid done
  trade-Paid ctx (Request.withdraw n) h =
      let b = withdraw-IsSold solana ctx l n (>>-eq-ok (try_accounts solana ctx) _ h) in
      send _ _ refl refl b.paid done
  trade-Paid ctx Request.disable h =
      let b = disable-IsSold solana ctx l (>>-eq-ok (try_accounts solana ctx) _ h) in
      send _ _ refl refl b.paid done

  pay-Paid :
      (ctx : ExecutePaymentFromWallet) (to n : ℕ) (l' : Ledger) {targets : List Pubkey}
      {before : Ledger}
      → ExecutePayment.pay solana ctx to n before ≡ ok l'
      → Paid solana ctx.wallet_token_account.key targets l' l
      → Paid solana ctx.wallet_token_account.key (to ∷ targets) before l
  unfolding ExecutePayment.pay
  pay-Paid ctx to n l' {targets} {before} h rest = elim (Bool-cases (ltb 0 n)) [
    | inl positive ↦
        send (wallet_transfer ctx.subscription_wallet ctx.wallet_token_account.key to) n refl refl
          (rw positive at h) rest
    | inr nothing ↦
        let same : l' ≡ before = cc (rw nothing at h) in
        skip (subst (λ m. Paid solana ctx.wallet_token_account.key targets m l) same rest)
  ]

pay_call-Paid :
    (solana : Solana) (ctx : ExecutePaymentFromWallet) (now : ℤ) (l : Ledger)
    {o : Outcome ExecutePaymentFromWallet}
    → execute_payment_from_wallet solana ctx now l ≡ ok o
    → Paid solana ctx.wallet_token_account.key
        (ctx.merchant_token_account.key ∷ ctx.protocol_treasury.key ∷ [])
        l
        o.ledger
unfolding settle
pay_call-Paid solana ctx now l {o} h =
    let amount = ctx.subscription_state.state.fee_amount in
    let handled = handler_of_payment solana ctx now l h in
    let (fee, e) = fee_computed solana ctx now l handled in
    let (le, settled) = handler-settle solana ctx now l fee e handled in
    let merchant = ctx.merchant_token_account.key in
    let (l', first, second) =
      >>=-eq-ok (ExecutePayment.pay solana ctx merchant (amount - fee) l) _ settled in
    pay-Paid solana o.ledger ctx merchant (amount - fee) l' first
      (pay-Paid solana o.ledger ctx ctx.protocol_treasury.key fee o.ledger second done)

-- What `exec` returns is the ledger of the instruction's outcome.
ledger_of-eq-ok {ℓ} :
    {A : Type ℓ} (m : Result (Outcome A)) {l' : Ledger}
    → ledger_of m ≡ ok l'
    → (o : Outcome A) × (m ≡ ok o) × (o.ledger ≡ l')
ledger_of-eq-ok (ok o) h = (o, refl, cc)
ledger_of-eq-ok (err e) h = cc

pub exec-Paid :
    (solana : Solana) (c : Call) (l : Ledger) {l' : Ledger}
    → exec solana c l ≡ ok l'
    → Paid solana (source_of c) (targets_of c) l l'
unfolding exec
exec-Paid solana (deposit ctx n) l h =
    let (o, e, same) = ledger_of-eq-ok (deposit_to_wallet solana ctx n l) h in
    subst (Paid solana _ _ l) same (deposit-Paid solana l ctx n e)
exec-Paid solana (withdraw ctx n) l h =
    let (o, e, same) = ledger_of-eq-ok (withdraw_from_wallet solana ctx n l) h in
    subst (Paid solana _ _ l) same (withdraw-Paid solana l ctx n e)
exec-Paid solana (trade ctx r) l h =
    let (o, e, same) = ledger_of-eq-ok (run solana ctx r l) h in
    subst (Paid solana _ _ l) same (trade-Paid solana l ctx r e)
exec-Paid solana (pay ctx now) l h =
    let (o, e, same) = ledger_of-eq-ok (execute_payment_from_wallet solana ctx now l) h in
    subst (Paid solana _ _ l) same (pay_call-Paid solana ctx now l e)

deposit-IsAuthorised :
    (solana : Solana) (ctx : DepositToWallet) (n : ℕ) (l : Ledger) {o : Outcome DepositToWallet}
    → deposit_to_wallet solana ctx n l ≡ ok o
    → IsAuthorised (deposit ctx n)
unfolding deposit_to_wallet Deposit.try_accounts
deposit-IsAuthorised solana ctx n l h = ground arith

withdraw-IsAuthorised :
    (solana : Solana) (ctx : WithdrawFromWallet) (n : ℕ) (l : Ledger)
    {o : Outcome WithdrawFromWallet}
    → withdraw_from_wallet solana ctx n l ≡ ok o
    → IsAuthorised (withdraw ctx n)
unfolding withdraw_from_wallet Withdraw.try_accounts
withdraw-IsAuthorised solana ctx n l h = ground arith

pub trade-IsAuthorised :
    (solana : Solana) (ctx : YieldAccounts) (r : Request) (l : Ledger) {o : Outcome YieldAccounts}
    → run solana ctx r l ≡ ok o
    → IsAuthorised (trade ctx r)
unfolding run EnableYield.enable_yield DepositToYield.deposit_to_yield
    WithdrawFromYield.withdraw_from_yield DisableYield.disable_yield try_accounts
trade-IsAuthorised solana ctx (Request.enable n) l h = ground arith
trade-IsAuthorised solana ctx (Request.deposit n) l h = ground arith
trade-IsAuthorised solana ctx (Request.withdraw n) l h = ground arith
trade-IsAuthorised solana ctx Request.disable l h = ground arith

payment_checked :
    (solana : Solana) (ctx : ExecutePaymentFromWallet) (now : ℤ) (l : Ledger)
    {o : Outcome ExecutePaymentFromWallet}
    → execute_payment_from_wallet solana ctx now l ≡ ok o
    → (ctx.subscription_state.state.is_active ≡ true)
      × (ctx.subscription_wallet.key ≡ ctx.subscription_state.state.subscription_wallet)
unfolding execute_payment_from_wallet ExecutePayment.try_accounts
payment_checked solana ctx now l h = ground arith

pub exec-IsAuthorised :
    (solana : Solana) (c : Call) (l : Ledger) {l' : Ledger}
    → exec solana c l ≡ ok l'
    → IsAuthorised c
unfolding exec
exec-IsAuthorised solana (deposit ctx n) l h =
    deposit-IsAuthorised solana ctx n l (ledger_of-eq-ok (deposit_to_wallet solana ctx n l) h).1
exec-IsAuthorised solana (withdraw ctx n) l h =
    withdraw-IsAuthorised solana ctx n l (ledger_of-eq-ok (withdraw_from_wallet solana ctx n l) h).1
exec-IsAuthorised solana (trade ctx r) l h =
    trade-IsAuthorised solana ctx r l (ledger_of-eq-ok (run solana ctx r l) h).1
exec-IsAuthorised solana (pay ctx now) l h =
    let (o, e, _) = ledger_of-eq-ok (execute_payment_from_wallet solana ctx now l) h in
    let (active, own) = payment_checked solana ctx now l e in
    (active, own, (payment-IsCharged solana ctx now l e).waited)
