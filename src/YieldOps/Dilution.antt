-- ===== src/YieldOps/Dilution.antt =====
-- instructions/yield_ops: the instructions value the vault by its buffer alone, and a rebalancing
-- by the buffer and the lent funds. What that means for a deposit while funds are lent.
use native.Mathlib.Nat.{div-add-mod'}
use eventop.Utils.Calculations.Ranges.{mul_div_exact}
use eventop.Base.{ℕ, ◌+◌, ◌*◌, ◌/◌, ◌≤◌, ◌<◌, ◌≡◌, arith, some}
use eventop.Runtime.Result.{ok, >>-eq-ok}
use eventop.Runtime.Word.{u64_mod}
use eventop.Runtime.Token.{TokenAccount, Ledger}
use eventop.Runtime.Anchor.{Account, Solana}
use eventop.Outcome.{Outcome}
use eventop.Utils.Calculations.{calculate_shares_for_deposit}
use eventop.Utils.VaultOperations.{get_vault_total_value}
use eventop.YieldOps.Accounts.{YieldAccounts, try_accounts}
use eventop.YieldOps.DepositToYield.{deposit_to_yield}
use eventop.YieldOps.Trades.{deposit-IsBought}

-- With a remainder below the divisor.
underpriced :
    (d s shares buffer lent : ℕ)
    → d * shares < s * buffer + buffer
    → buffer ≤ s * lent
    → d * (shares + s) < s * (buffer + lent + d)
underpriced d s shares buffer lent floor gain = grind arith

issued_floor :
    (d shares buffer : ℕ) {s : ℕ}
    → 0 < shares
    → 0 < buffer
    → d < u64_mod
    → shares < u64_mod
    → d * shares / buffer < u64_mod
    → calculate_shares_for_deposit d shares buffer ≡ ok s
    → d * shares < s * buffer + buffer
unfolding calculate_shares_for_deposit
issued_floor d shares buffer {s} hs hb fd fs fits h =
    let quotient : s ≡ d * shares / buffer = ground (arith, mul_div_exact d shares buffer) in
    grind (arith, quotient, div-add-mod' (d * shares) buffer)

module _ (solana : Solana) (ctx : YieldAccounts) (l : Ledger) where
  -- While some funds are lent, a deposit into a vault with shares and a filled buffer issues shares
  -- that are worth more than the deposit, by the value that a rebalancing computes: if the
  -- depositor's part of the lent funds makes up for the rounding, and the number of shares fits.
  pub deposit_dilutes :
      (f_tokens : Account TokenAccount) (amount s lent : ℕ) {o : Outcome YieldAccounts}
      → deposit_to_yield solana ctx amount l ≡ ok o
      → o.accounts.yield_vault.state.total_shares_issued
        ≡ ctx.yield_vault.state.total_shares_issued + s
      → get_vault_total_value ctx.jupiter_lending ctx.yield_vault.state
          (some ctx.vault_buffer)
          (some f_tokens)
        ≡ ok (ctx.vault_buffer.state.amount + lent)
      → 0 < ctx.yield_vault.state.total_shares_issued
      → 0 < ctx.vault_buffer.state.amount
      → amount < u64_mod
      → ctx.yield_vault.state.total_shares_issued < u64_mod
      → amount * ctx.yield_vault.state.total_shares_issued / ctx.vault_buffer.state.amount < u64_mod
      → ctx.vault_buffer.state.amount ≤ s * lent
      → amount * o.accounts.yield_vault.state.total_shares_issued
        < s * (ctx.vault_buffer.state.amount + lent + amount)
  unfolding deposit_to_yield
  deposit_dilutes f_tokens amount s lent {o} h count value hs hb fd fs fits gain =
      let shares = ctx.yield_vault.state.total_shares_issued in
      let buffer = ctx.vault_buffer.state.amount in
      let b = deposit-IsBought solana ctx l amount (>>-eq-ok (try_accounts solana ctx) _ h) in
      let priced : calculate_shares_for_deposit amount shares buffer ≡ ok s =
        ground (arith, b.priced hs, count) in
      let floor = issued_floor amount shares buffer hs hb fd fs fits priced in
      rw count (underpriced amount s shares buffer lent floor gain)
