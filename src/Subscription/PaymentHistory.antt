-- ===== src/Subscription/PaymentHistory.antt =====
-- instructions/subscription/execute_payment.rs: any sequence of payments of one subscription. Anyone
-- may call the instruction, at any time, with any other accounts that pass its checks.
use eventop.Base.{ℕ, zero, suc, ℤ, pos, ◌+◌, ◌*◌, ◌≡◌, refl, ◌+ℤ◌, ◌≤ℤ◌, int_laws, arith, sym, ◌∙◌}
use mathlib.Core.Path.{subst}
use eventop.Runtime.Result.{ok}
use eventop.Runtime.Token.{Ledger}
use eventop.Runtime.Anchor.{Solana}
use eventop.State.SubscriptionState.{SubscriptionState}
use eventop.Outcome.{Outcome}
use eventop.Subscription.ExecutePayment.{ExecutePaymentFromWallet, execute_payment_from_wallet}
use eventop.Subscription.PaymentEffect.{IsCharged, payment-IsCharged}

-- `Payments solana s n t`: n payments have taken the subscription from s to t.
pub data Payments (solana : Solana) (s : SubscriptionState) : ℕ → SubscriptionState → Type 0 where
  start : Payments solana s zero s
  next :
      {n : ℕ} {t u : SubscriptionState}
      → Payments solana s n t
      → (ctx : ExecutePaymentFromWallet) (now : ℤ) (l : Ledger)
        (o : Outcome ExecutePaymentFromWallet)
      → ctx.subscription_state.state ≡ t
      → execute_payment_from_wallet solana ctx now l ≡ ok o
      → o.accounts.subscription_state.state ≡ u
      → Payments solana s (suc n) u

-- The terms are those of the start, and the totals have grown by n payments.
pub record IsAccounted (s : SubscriptionState) (k n : ℕ) (t : SubscriptionState) : Type 0 where
  pub fee : t.fee_amount ≡ s.fee_amount
  pub interval : t.payment_interval ≡ pos k
  pub paid : t.total_paid ≡ s.total_paid + n * s.fee_amount
  pub counted : t.payment_count ≡ s.payment_count + n
  pub spaced : s.last_payment_timestamp +ℤ pos (n * k) ≤ℤ t.last_payment_timestamp

charged_next :
    (s : SubscriptionState) (k n : ℕ) (ctx : ExecutePaymentFromWallet) (now : ℤ)
    (o : Outcome ExecutePaymentFromWallet)
    → IsAccounted s k n ctx.subscription_state.state
    → IsCharged ctx now o
    → IsAccounted s k (suc n) o.accounts.subscription_state.state
charged_next s k n ctx now o h c = record {
  fee = c.same_fee ∙ h.fee;
  interval = c.same_interval ∙ h.interval;
  paid = rw (c.paid, h.fee) (omega (arith, h.paid));
  counted = omega arith;
  spaced = rw c.stamped (omega (int_laws, rw h.interval at c.waited));
}

-- After n payments of a subscription whose interval is k seconds its terms are unchanged, the total
-- paid has grown by n fee amounts, the count by n, and the last time stamp by at least n intervals.
pub Payments-IsAccounted :
    {solana : Solana} {s t : SubscriptionState} (k : ℕ) {n : ℕ}
    → s.payment_interval ≡ pos k
    → Payments solana s n t
    → IsAccounted s k n t
Payments-IsAccounted k e start = record {
  fee = refl;
  interval = e;
  paid = omega arith;
  counted = omega arith;
  spaced = omega int_laws;
}
Payments-IsAccounted {solana} {s} k e (next before ctx now l o et done eu) =
    let so_far = subst (IsAccounted s k _) (sym et) (Payments-IsAccounted k e before) in
    subst (IsAccounted s k _) eu
      (charged_next s k _ ctx now o so_far (payment-IsCharged solana ctx now l done))
