-- ===== src/Subscription/PaymentEffect.antt =====
-- instructions/subscription/execute_payment.rs: the accounts and balances after a payment.
use eventop.Base.{sym, ℕ, ℤ, ◌+◌, ◌-◌, ◌≤◌, ◌≡◌, arith, ◌≤ℤ◌, ◌-ℤ◌}
use eventop.Runtime.Result.{ok_of_ne_err, ok, >>=-eq-ok}
use eventop.Runtime.Word.{sub_i64}
use eventop.Runtime.Token.{Ledger}
use eventop.Runtime.Anchor.{Solana}
use eventop.Runtime.Laws.{IsSolana}
use eventop.Outcome.{Outcome}
use eventop.Subscription.ExecutePayment.{
  settle, ExecutePaymentFromWallet, protocol_fee_of, pay, handler, execute_payment_from_wallet,
}
use eventop.Subscription.PaymentFees.{
  AreApart, handler_of_payment, payment-no-redemption, pay_moves, pay_others,
}

-- What a payment at the time `now` has changed.
pub record IsCharged (ctx : ExecutePaymentFromWallet) (now : ℤ)
    (o : Outcome ExecutePaymentFromWallet) : Type 0 where
  pub funded : ctx.subscription_state.state.fee_amount ≤ ctx.wallet_token_account.state.amount
  pub waited :
      ctx.subscription_state.state.payment_interval
      ≤ℤ now -ℤ ctx.subscription_state.state.last_payment_timestamp
  pub stamped : o.accounts.subscription_state.state.last_payment_timestamp ≡ now
  pub paid :
      o.accounts.subscription_state.state.total_paid
      ≡ ctx.subscription_state.state.total_paid + ctx.subscription_state.state.fee_amount
  pub counted :
      o.accounts.subscription_state.state.payment_count
      ≡ ctx.subscription_state.state.payment_count + 1
  pub same_fee :
      o.accounts.subscription_state.state.fee_amount ≡ ctx.subscription_state.state.fee_amount
  pub same_interval :
      o.accounts.subscription_state.state.payment_interval
      ≡ ctx.subscription_state.state.payment_interval
  pub spent :
      o.accounts.subscription_wallet.state.total_spent
      ≡ ctx.subscription_wallet.state.total_spent + ctx.subscription_state.state.fee_amount
  pub same_shares :
      o.accounts.subscription_wallet.state.yield_shares ≡ ctx.subscription_wallet.state.yield_shares
  pub same_vault : o.accounts.yield_vault ≡ ctx.yield_vault

pub handler-IsCharged :
    (solana : Solana) (ctx : ExecutePaymentFromWallet) (now : ℤ) (l : Ledger)
    {o : Outcome ExecutePaymentFromWallet}
    → handler solana ctx now l ≡ ok o
    → IsCharged ctx now o
unfolding handler sub_i64
handler-IsCharged solana ctx now l h = ground (arith, payment-no-redemption solana ctx now l h)

-- A payment that goes through was covered and due, raises the subscription's and the wallet's
-- totals by the fee amount and the count by one, and changes neither the terms nor shares nor vault.
pub payment-IsCharged :
    (solana : Solana) (ctx : ExecutePaymentFromWallet) (now : ℤ) (l : Ledger)
    {o : Outcome ExecutePaymentFromWallet}
    → execute_payment_from_wallet solana ctx now l ≡ ok o
    → IsCharged ctx now o
payment-IsCharged solana ctx now l h =
    handler-IsCharged solana ctx now l (handler_of_payment solana ctx now l h)

pub record IsSplit (ctx : ExecutePaymentFromWallet) (l : Ledger) (fee : ℕ) (l' : Ledger)
    : Type 0 where
  pub fee-le : fee ≤ ctx.subscription_state.state.fee_amount
  pub charged :
      (l' ctx.wallet_token_account.key).amount + ctx.subscription_state.state.fee_amount
      ≡ (l ctx.wallet_token_account.key).amount
  pub to_merchant :
      (l' ctx.merchant_token_account.key).amount
      ≡ (l ctx.merchant_token_account.key).amount + (ctx.subscription_state.state.fee_amount - fee)
  pub to_treasury :
      (l' ctx.protocol_treasury.key).amount ≡ (l ctx.protocol_treasury.key).amount + fee

pub handler-settle :
    (solana : Solana) (ctx : ExecutePaymentFromWallet) (now : ℤ) (l : Ledger) (fee : ℕ)
    {o : Outcome ExecutePaymentFromWallet}
    → protocol_fee_of ctx.subscription_state.state.fee_amount
        ctx.protocol_config.state.protocol_fee_bps
      ≡ ok fee
    → handler solana ctx now l ≡ ok o
    → (fee ≤ ctx.subscription_state.state.fee_amount)
      × (settle solana ctx (ctx.subscription_state.state.fee_amount - fee) fee l ≡ ok o.ledger)
unfolding handler
handler-settle solana ctx now l fee e h = ground (arith, payment-no-redemption solana ctx now l h)

-- If the three token accounts are distinct and the computed protocol fee is `fee`, a payment takes
-- the fee amount from the wallet, gives the protocol `fee` and the merchant the rest.
pub payment-IsSplit :
    {solana : Solana} (laws : IsSolana solana) (ctx : ExecutePaymentFromWallet) (now : ℤ)
    (l : Ledger) (fee : ℕ) {o : Outcome ExecutePaymentFromWallet}
    → AreApart ctx
    → protocol_fee_of ctx.subscription_state.state.fee_amount
        ctx.protocol_config.state.protocol_fee_bps
      ≡ ok fee
    → execute_payment_from_wallet solana ctx now l ≡ ok o
    → IsSplit ctx l fee o.ledger
unfolding settle
payment-IsSplit {solana} laws ctx now l fee {o} (wm, wt, mt) e h =
    let (le, settled) =
      handler-settle solana ctx now l fee e (handler_of_payment solana ctx now l h) in
    let amount = ctx.subscription_state.state.fee_amount - fee in
    let merchant = ctx.merchant_token_account.key in
    let treasury = ctx.protocol_treasury.key in
    let (l₁, first, second) = >>=-eq-ok (pay solana ctx merchant amount l) _ settled in
    ground (
      arith,
      pay_moves laws ctx merchant amount l l₁ wm first,
      pay_moves laws ctx treasury fee l₁ o.ledger wt second,
      pay_others laws ctx merchant amount treasury l l₁ (λ q. wt (sym q)) (λ q. mt (sym q)) first,
      pay_others laws ctx treasury fee merchant l₁ o.ledger (λ q. wm (sym q)) mt second,
    )

pub fee_computed :
    (solana : Solana) (ctx : ExecutePaymentFromWallet) (now : ℤ) (l : Ledger)
    {o : Outcome ExecutePaymentFromWallet}
    → handler solana ctx now l ≡ ok o
    → (fee : ℕ) × (protocol_fee_of ctx.subscription_state.state.fee_amount
          ctx.protocol_config.state.protocol_fee_bps
        ≡ ok fee)
unfolding handler
fee_computed solana ctx now l h =
    ok_of_ne_err
      (protocol_fee_of ctx.subscription_state.state.fee_amount
        ctx.protocol_config.state.protocol_fee_bps)
      λ e bad. ground arith
