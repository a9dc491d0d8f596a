-- ===== src/Subscription/PaymentFees.antt =====
-- instructions/subscription/execute_payment.rs: what a payment that goes through has done.
use native.Mathlib.Nat.{mod-le, mul-le-mul, le_refl}
use eventop.Base.{
  ℕ, ℤ, ◌+◌, ◌*◌, ◌/◌, ◌^◌, ◌≤◌, ◌<◌, ◌≡◌, ◌≢◌, inl, inr, arith, true, false, Bool-cases,
}
use eventop.Runtime.Result.{ok, err, Error, err_of_ne_ok}
use eventop.Runtime.Word.{u64_mod}
use eventop.Runtime.Token.{Ledger}
use eventop.Runtime.Anchor.{Solana}
use eventop.Runtime.Laws.{IsSolana}
use eventop.State.SubscriptionWallet.{wallet_transfer}
use eventop.Outcome.{Outcome}
use eventop.Subscription.ExecutePayment.{
  ExecutePaymentFromWallet, protocol_fee_of, is_redemption_due, pay, handler,
  execute_payment_from_wallet,
}

scaled-le : (amount bps : ℕ) → bps ≤ 10_000 → amount * bps ≤ amount * 10_000
scaled-le amount bps h = mul-le-mul (le_refl amount) h

pub fee-le-amount :
    (amount bps : ℕ) {fee : ℕ} → bps ≤ 10_000 → protocol_fee_of amount bps ≡ ok fee → fee ≤ amount
unfolding protocol_fee_of
fee-le-amount amount bps h e =
    ground (arith, scaled-le amount bps h, mod-le (amount * bps / 10_000) (2 ^ 64))

pub fee-eq :
    (amount bps : ℕ)
    → amount < u64_mod
    → bps ≤ 10_000
    → protocol_fee_of amount bps ≡ ok (amount * bps / 10_000)
unfolding protocol_fee_of
fee-eq amount bps ha h = ground (arith, scaled-le amount bps h)

module _ (solana : Solana) (ctx : ExecutePaymentFromWallet) (now : ℤ) (l : Ledger) where
  pub handler_of_payment :
      {o : Outcome ExecutePaymentFromWallet}
      → execute_payment_from_wallet solana ctx now l ≡ ok o
      → handler solana ctx now l ≡ ok o
  unfolding execute_payment_from_wallet
  handler_of_payment h = ground arith

  handler-funds :
      {o : Outcome ExecutePaymentFromWallet}
      → handler solana ctx now l ≡ ok o
      → ctx.subscription_state.state.fee_amount ≤ ctx.wallet_token_account.state.amount
  unfolding handler
  handler-funds h = ground arith

  redemption_short :
      is_redemption_due ctx ctx.subscription_state.state.fee_amount ≡ true
      → ctx.wallet_token_account.state.amount < ctx.subscription_state.state.fee_amount
  unfolding is_redemption_due
  redemption_short due = ground arith

  -- A payment that would redeem vault shares for the shortfall fails.
  pub redemption_fails :
      is_redemption_due ctx ctx.subscription_state.state.fee_amount ≡ true
      → (e : Error) × (execute_payment_from_wallet solana ctx now l ≡ err e)
  redemption_fails due =
      err_of_ne_ok (execute_payment_from_wallet solana ctx now l)
        (λ o h. omega (arith, redemption_short due, handler-funds (handler_of_payment h)))

  pub payment-no-redemption :
      {o : Outcome ExecutePaymentFromWallet}
      → handler solana ctx now l ≡ ok o
      → is_redemption_due ctx ctx.subscription_state.state.fee_amount ≡ false
  payment-no-redemption h =
      elim (Bool-cases (is_redemption_due ctx ctx.subscription_state.state.fee_amount)) [
        | inl due ↦ absurd (omega (arith, redemption_short due, handler-funds h))
        | inr idle ↦ idle
      ]

-- The wallet's token account and the two receiving ones are three accounts.
abbrev pub AreApart : ExecutePaymentFromWallet → Type 0
AreApart ctx =
    (ctx.wallet_token_account.key ≢ ctx.merchant_token_account.key)
    × (ctx.wallet_token_account.key ≢ ctx.protocol_treasury.key)
    × (ctx.merchant_token_account.key ≢ ctx.protocol_treasury.key)

module _ {solana : Solana} (laws : IsSolana solana) (ctx : ExecutePaymentFromWallet) where
  open laws use {transfer_debits, transfer_credits, transfer_others}

  -- A transfer of `pay`, also of nothing.
  pub pay_moves :
      (to n : ℕ) (l l' : Ledger)
      → ctx.wallet_token_account.key ≢ to
      → pay solana ctx to n l ≡ ok l'
      → ((l' ctx.wallet_token_account.key).amount + n ≡ (l ctx.wallet_token_account.key).amount)
        × ((l' to).amount ≡ (l to).amount + n)
  unfolding pay
  pay_moves to n l l' ne h = ground (
    arith,
    transfer_debits (wallet_transfer ctx.subscription_wallet ctx.wallet_token_account.key to) n l
        l',
    transfer_credits (wallet_transfer ctx.subscription_wallet ctx.wallet_token_account.key to) n l
        l',
  )

  pub pay_others :
      (to n k : ℕ) (l l' : Ledger)
      → k ≢ ctx.wallet_token_account.key
      → k ≢ to
      → pay solana ctx to n l ≡ ok l'
      → l' k ≡ l k
  unfolding pay
  pay_others to n k l l' nf nt h = ground (
    arith,
    transfer_others (wallet_transfer ctx.subscription_wallet ctx.wallet_token_account.key to) n l l'
        k,
  )
