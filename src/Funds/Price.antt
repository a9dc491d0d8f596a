-- ===== src/Funds/Price.antt =====
-- The price of a share over a sequence of calls that move tokens: as the yield instructions see it,
-- the balance of the vault's buffer over the shares that the vault has issued, and as the exchange
-- rate, which counts the lent funds too.
use eventop.Base.{ℕ, some, ◌*◌, ◌/◌, ◌≤◌, ◌<◌, ◌≡◌, ◌≢◌, ◌∙◌, refl, sym, ap, arith}
use native.Mathlib.Nat.{le_of_mul-le-mul_right, mul-le-mul_right, le_trans, le_refl}
use eventop.Runtime.Result.{ok}
use eventop.Runtime.Token.{Ledger, TokenAccount}
use eventop.Runtime.Anchor.{Account, AccountInfo, Solana}
use eventop.Runtime.Laws.{IsSolana}
use eventop.State.YieldVault.{YieldVault}
use eventop.Runtime.Word.{u64_mod}
use eventop.Utils.VaultOperations.{get_vault_total_value}
use eventop.Utils.Valuation.{total-le, total-alone}
use eventop.Utils.Calculations.{calculate_current_exchange_rate}
use eventop.Utils.Calculations.Rounding.{rate_mono}
use eventop.Outcome.{Outcome}
use eventop.YieldOps.Accounts.{YieldAccounts, try_accounts}
use eventop.YieldOps.Request.{Request, enable, deposit, withdraw, disable, run}
use eventop.YieldOps.EnableYield
use eventop.YieldOps.DepositToYield
use eventop.YieldOps.WithdrawFromYield
use eventop.YieldOps.DisableYield
use eventop.YieldOps.Price.{run-PriceKept}
use eventop.Funds.{Call, exec, source_of}
use eventop.Funds.Moves.{exec-Paid}
use eventop.Funds.Conservation.{Paid-le}

-- `Market solana v l v' l'`: yield instructions on one vault, each on its accounts as they are then
-- and from a wallet's account that is not the buffer, with other calls between them that do not take
-- from the buffer. The vault never runs out of shares.
pub data Market (solana : Solana) (v : Account YieldVault) (l : Ledger)
    : Account YieldVault → Ledger → Type 0 where
  open_market : Market solana v l v l
  dealing :
      {v' : Account YieldVault} {l' : Ledger}
      → Market solana v l v' l'
      → (ctx : YieldAccounts) (r : Request) (o : Outcome YieldAccounts) → ctx.yield_vault ≡ v'
      → l' ctx.vault_buffer.key ≡ ctx.vault_buffer.state
      → ctx.wallet_token_account.key ≢ ctx.vault_buffer.key
      → run solana ctx r l' ≡ ok o
      → 0 < o.accounts.yield_vault.state.total_shares_issued
      → Market solana v l o.accounts.yield_vault o.ledger
  other :
      {v' : Account YieldVault} {l' l'' : Ledger}
      → Market solana v l v' l'
      → (c : Call) → source_of c ≢ v'.state.usdc_buffer
      → exec solana c l' ≡ ok l''
      → Market solana v l v' l''

-- A price that is at most another, which is at most a third.
price_trans : (a b c s t u : ℕ) → 0 < t → a * t ≤ b * s → b * u ≤ c * t → a * u ≤ c * s
price_trans a b c s t u positive first second =
    let p : a * t * u ≤ b * s * u = mul-le-mul_right u first in
    let q : b * u * s ≤ c * t * s = mul-le-mul_right s second in
    le_of_mul-le-mul_right {k = t} (grind (arith, p, q)) positive

pub run_buffer :
    (solana : Solana) (ctx : YieldAccounts) (r : Request) (l : Ledger) {o : Outcome YieldAccounts}
    → run solana ctx r l ≡ ok o
    → (ctx.vault_buffer.key ≡ ctx.yield_vault.state.usdc_buffer)
      × (o.accounts.yield_vault.state.usdc_buffer ≡ ctx.yield_vault.state.usdc_buffer)
unfolding run EnableYield.enable_yield DepositToYield.deposit_to_yield
    WithdrawFromYield.withdraw_from_yield DisableYield.disable_yield EnableYield.handler
    DepositToYield.handler WithdrawFromYield.handler DisableYield.handler try_accounts
run_buffer solana ctx (enable n) l h = ground arith
run_buffer solana ctx (deposit n) l h = ground arith
run_buffer solana ctx (withdraw n) l h = ground arith
run_buffer solana ctx disable l h = ground arith

-- What holds of a market.
record Priced (v : Account YieldVault) (l : Ledger) (v' : Account YieldVault) (l' : Ledger)
    : Type 0 where
  same_buffer : v'.state.usdc_buffer ≡ v.state.usdc_buffer
  issued : 0 < v'.state.total_shares_issued
  price :
      (l v.state.usdc_buffer).amount * v'.state.total_shares_issued
      ≤ (l' v.state.usdc_buffer).amount * v.state.total_shares_issued

module _ {solana : Solana} (laws : IsSolana solana) where
  Market-Priced :
      {v : Account YieldVault} {l : Ledger} {v' : Account YieldVault} {l' : Ledger}
      → 0 < v.state.total_shares_issued
      → Market solana v l v' l'
      → Priced v l v' l'
  Market-Priced issued open_market = record {
    same_buffer = refl;
    issued = issued;
    price = le_refl _;
  }
  Market-Priced {v} {l} issued (dealing {v'} {l'} before ctx r o here loaded apart done left) =
      let b = Market-Priced issued before in
      let (key, same) = run_buffer solana ctx r l' done in
      let shares = ap (λ (a : Account YieldVault). a.state.total_shares_issued) here in
      let at_buffer = ap (λ (a : Account YieldVault). a.state.usdc_buffer) here in
      let now : ctx.vault_buffer.key ≡ v.state.usdc_buffer = key ∙ at_buffer ∙ b.same_buffer in
      let kept = run-PriceKept laws ctx l' apart loaded (omega (arith, b.issued, shares)) r done in
      let value = ap (λ (a : TokenAccount). a.amount) (sym loaded) in
      record {
        same_buffer = same ∙ at_buffer ∙ b.same_buffer;
        issued = left;
        price = price_trans _ _ _ _ _ _ b.issued b.price (rw (value, now, shares) at kept);
      }
  Market-Priced {v} {l} issued (other {v'} {l'} {l''} before c away done) =
      let b = Market-Priced issued before in
      let u = v.state.usdc_buffer in
      let more : (l' u).amount ≤ (l'' u).amount =
        Paid-le laws u (λ q. away (sym q ∙ sym b.same_buffer)) (exec-Paid solana c l' done) in
      record {
        same_buffer = b.same_buffer;
        issued = b.issued;
        price = le_trans b.price (mul-le-mul_right v.state.total_shares_issued more);
      }

  pub price-kept :
      {v : Account YieldVault} {l : Ledger} {v' : Account YieldVault} {l' : Ledger}
      → 0 < v.state.total_shares_issued
      → Market solana v l v' l'
      → (l v.state.usdc_buffer).amount * v'.state.total_shares_issued
        ≤ (l' v'.state.usdc_buffer).amount * v.state.total_shares_issued
  price-kept issued m = let b = Market-Priced issued m in rw b.same_buffer b.price

  -- Over any sequence of yield instructions on one vault, and of other calls that do not take from
  -- its buffer, the exchange rate of the vault, computed from its total value, does not fall: if it
  -- holds no fTokens at the start, has shares throughout, each yield instruction runs on the accounts
  -- as they are then, from a wallet's account that is not the buffer, the two total values are
  -- computed from the buffer as it is then, and the last rate fits 64 bits.
  pub rate-kept :
      {v : Account YieldVault} {l : Ledger} {v' : Account YieldVault} {l' : Ledger}
      → (lending lending' : AccountInfo) (buffer buffer' f_tokens f_tokens' : Account TokenAccount)
      → {total total' rate rate' : ℕ} → 0 < v.state.total_shares_issued
      → Market solana v l v' l'
      → l v.state.usdc_buffer ≡ buffer.state
      → f_tokens.state.amount ≡ 0
      → get_vault_total_value lending v.state (some buffer) (some f_tokens) ≡ ok total
      → calculate_current_exchange_rate v.state.total_shares_issued total ≡ ok rate
      → l' v'.state.usdc_buffer ≡ buffer'.state
      → get_vault_total_value lending' v'.state (some buffer') (some f_tokens') ≡ ok total'
      → calculate_current_exchange_rate v'.state.total_shares_issued total' ≡ ok rate'
      → total' * 1_000_000 / v'.state.total_shares_issued < u64_mod
      → rate ≤ rate'
  rate-kept {v} {l} {v'} {l'} lending lending' buffer buffer' f_tokens f_tokens' {total} {total'}
        issued m read none_lent value at_rate read' value' at_rate' fits =
      let start = ap (λ (a : TokenAccount). a.amount) read in
      let end = ap (λ (a : TokenAccount). a.amount) read' in
      let alone = total-alone lending v.state buffer f_tokens none_lent value in
      let whole = total-le lending' v'.state buffer' f_tokens' value' in
      let shares = v.state.total_shares_issued in
      let kept : total * v'.state.total_shares_issued ≤ buffer'.state.amount * shares =
        rw (alone, ← start, ← end) (price-kept issued m) in
      rate_mono shares total v'.state.total_shares_issued total' issued
        (Market-Priced issued m).issued (le_trans kept (mul-le-mul_right shares whole)) fits at_rate
        at_rate'
