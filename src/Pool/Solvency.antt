-- ===== src/Pool/Solvency.antt =====
-- What the wallets of a pool could take out of the vault together, at one value of the vault.
use eventop.Base.{ℕ, zero, suc, ◌*◌, ◌≤◌, ◌≡◌, refl, arith, List, [], ◌∷◌}
use native.Mathlib.Nat.{le_of_mul-le-mul_right}
use eventop.Base.Assoc.{sum_of}
use eventop.Runtime.Result.{Result, ok, err}
use eventop.Runtime.Anchor.{Pubkey, Solana}
use eventop.State.SubscriptionWallet.{SubscriptionWallet}
use eventop.Utils.Calculations.{calculate_usdc_value_of_shares}
use eventop.Utils.Calculations.Rounding.{redeem-le}
use eventop.Pool.{Pool, Reachable}
use eventop.Pool.Balance.{shares_of, Reachable-IsBalanced}

abbrev pub paid_out : Result ℕ → ℕ
paid_out (ok v) = v
paid_out (err e) = 0

-- What the program pays for all shares of a wallet, at a number of shares issued and a value.
abbrev pub payout : (issued value : ℕ) → SubscriptionWallet → ℕ
payout issued value w = paid_out (calculate_usdc_value_of_shares w.yield_shares issued value)

payout-le :
    (issued value : ℕ) (w : SubscriptionWallet)
    → payout issued value w * issued ≤ w.yield_shares * value
payout-le issued value w = go (calculate_usdc_value_of_shares w.yield_shares issued value) refl
  where
    go :
        (r : Result ℕ)
        → calculate_usdc_value_of_shares w.yield_shares issued value ≡ r
        → paid_out r * issued ≤ w.yield_shares * value
    go (ok v) e = redeem-le w.yield_shares issued value e
    go (err x) e = omega arith

payouts-le :
    (issued value : ℕ) (m : List (Pubkey × SubscriptionWallet))
    → sum_of (payout issued value) m * issued ≤ sum_of shares_of m * value
payouts-le issued value [] = omega arith
payouts-le issued value (e ∷ m) =
    grind (arith, payout-le issued value e.1, payouts-le issued value m)

payout_nothing :
    (value : ℕ) (m : List (Pubkey × SubscriptionWallet)) → sum_of (payout 0 value) m ≡ 0
unfolding calculate_usdc_value_of_shares
payout_nothing value [] = refl
payout_nothing value (e ∷ m) = omega (arith, payout_nothing value m)

payouts_covered :
    (issued value : ℕ) (m : List (Pubkey × SubscriptionWallet))
    → issued ≡ sum_of shares_of m
    → sum_of (payout issued value) m ≤ value
payouts_covered zero value m same = omega (arith, payout_nothing value m)
payouts_covered (suc n) value m same =
    le_of_mul-le-mul_right {k = suc n} (grind (arith, same, payouts-le (suc n) value m))
      (omega arith)

-- In a pool that the program can reach, the wallets' shares are never worth more together than the
-- vault: at any value, the payouts for all shares of all wallets sum up to that value at most.
pub Reachable-payout-le :
    {solana : Solana} {p : Pool}
    → Reachable solana p
    → (value : ℕ) → sum_of (payout p.vault.state.total_shares_issued value) p.wallets ≤ value
Reachable-payout-le {p} reached value =
    payouts_covered p.vault.state.total_shares_issued value p.wallets
      (Reachable-IsBalanced reached).issued
