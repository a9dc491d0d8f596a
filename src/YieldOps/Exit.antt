-- ===== src/YieldOps/Exit.antt =====
-- instructions/yield_ops, withdraw_from_yield.rs and disable_yield.rs: when shares can be sold.
use eventop.Base.{ℕ, ◌+◌, ◌*◌, ◌/◌, ◌≤◌, ◌<◌, ◌≡◌, ◌≢◌, ◌↔◌, arith, true, some, [], ◌∷◌, ◌++◌}
use native.Mathlib.Nat.{div-le_of_le-mul, mul-le-mul_right}
use eventop.Runtime.Result.{ok, ok_of_ne_err, >>-eq-ok}
use eventop.Runtime.Word.{u64_mod}
use eventop.Runtime.Token.{Ledger}
use eventop.Runtime.Anchor.{bump_byte, Solana, TransferContext, unsigned}
use eventop.Runtime.Laws.{IsSolana}
use eventop.Outcome.{Outcome}
use eventop.State.YieldVault.{vault_seeds}
use eventop.Utils.Calculations.{calculate_usdc_value_of_shares}
use eventop.Utils.Calculations.Ranges.{mul_div_exact}
use eventop.Utils.VaultOperations.{
  get_vault_total_value, withdraw_from_vault_internal, vault_signer,
}
use eventop.YieldOps.Accounts.{YieldAccounts, try_accounts}
use eventop.YieldOps.Request.{Request, enable, deposit, withdraw, disable, run}
use eventop.YieldOps.WithdrawFromYield
use eventop.YieldOps.DisableYield
use eventop.YieldOps.Limits.{withdraw_within, disable_within}
use eventop.YieldOps.RoundTrip.{Sells}

-- The wallet earns yield and holds the shares to be sold, the vault has issued them and has the
-- wallet's mint, the accounts are distinct and as the ledger has them, the buffer is the vault's, and
-- no balance overflows.
pub record IsSellable (solana : Solana) (ctx : YieldAccounts) (n : ℕ) (l : Ledger) : Type 0 where
  pub checked : try_accounts solana ctx ≡ ok tt
  pub enabled : ctx.subscription_wallet.state.is_yield_enabled ≡ true
  pub asked : 0 < n
  pub held : n ≤ ctx.subscription_wallet.state.yield_shares
  pub issued :
      ctx.subscription_wallet.state.yield_shares ≤ ctx.yield_vault.state.total_shares_issued
  pub vault_mint : ctx.yield_vault.state.mint ≡ ctx.subscription_wallet.state.mint
  pub apart : ctx.vault_buffer.key ≢ ctx.wallet_token_account.key
  pub buffer_loaded : l ctx.vault_buffer.key ≡ ctx.vault_buffer.state
  pub tokens_loaded : l ctx.wallet_token_account.key ≡ ctx.wallet_token_account.state
  pub buffer_owner : ctx.vault_buffer.state.owner ≡ ctx.yield_vault.key
  pub shares_fit : ctx.yield_vault.state.total_shares_issued < u64_mod
  pub buffer_fits : ctx.vault_buffer.state.amount < u64_mod
  pub tokens_fit : ctx.wallet_token_account.state.amount + ctx.vault_buffer.state.amount < u64_mod

-- What a number of shares is worth: their part of the buffer, rounded down.
abbrev pub worth : YieldAccounts → ℕ → ℕ
worth ctx n = n * ctx.vault_buffer.state.amount / ctx.yield_vault.state.total_shares_issued

-- A part of the shares is worth at most the buffer.
part_le : (n shares value : ℕ) → n ≤ shares → n * value / shares ≤ value
part_le n shares value le = div-le_of_le-mul shares (grind (arith, mul-le-mul_right value le))

module _ {solana : Solana} (laws : IsSolana solana) (ctx : YieldAccounts) (n : ℕ) (l : Ledger)
    (s : IsSellable solana ctx n l) where
  worth_le : worth ctx n ≤ ctx.vault_buffer.state.amount
  worth_le =
      part_le n ctx.yield_vault.state.total_shares_issued ctx.vault_buffer.state.amount
        (omega (arith, s.held, s.issued))

  vault_signs :
      (solana.create_program_address
          (vault_seeds ctx.yield_vault.state.mint ++ (bump_byte ctx.yield_vault.state.bump ∷ []))
        ≡ some ctx.yield_vault.key)
      × (ctx.vault_buffer.state.mint ≡ ctx.wallet_token_account.state.mint)
  unfolding try_accounts
  vault_signs = ground (arith, s.checked, s.vault_mint)

  worth-priced :
      calculate_usdc_value_of_shares n ctx.yield_vault.state.total_shares_issued
        ctx.vault_buffer.state.amount
      ≡ ok (worth ctx n)
  unfolding calculate_usdc_value_of_shares
  worth-priced =
      let shares = ctx.yield_vault.state.total_shares_issued in
      let buffer = ctx.vault_buffer.state.amount in
      let issued : 0 < shares = omega (arith, s.asked, s.held, s.issued) in
      let exact =
        mul_div_exact n buffer shares (omega (arith, s.held, s.issued, s.shares_fit)) s.buffer_fits
          issued (omega (arith, worth_le, s.buffer_fits)) in
      ground (arith, exact)

  worth_paid :
      (l' : Ledger) × (withdraw_from_vault_internal solana ctx.yield_vault.key ctx.yield_vault.state
          ctx.vault_buffer.key ctx.wallet_token_account.key
          (worth ctx n)
          l
        ≡ ok l')
  unfolding withdraw_from_vault_internal
  worth_paid =
      let c : TransferContext = record {
        from = ctx.vault_buffer.key;
        to = ctx.wallet_token_account.key;
        authority = unsigned ctx.yield_vault.key;
        signer_seeds = vault_signer ctx.yield_vault.state;
      } in
      let (signs, mints) = vault_signs in
      let b = s.buffer_loaded in
      let t = s.tokens_loaded in
      laws.transfer_succeeds c (worth ctx n) l s.apart signs (ground (arith, s.buffer_owner))
        (ground arith) (ground (arith, worth_le)) (ground (arith, worth_le, s.tokens_fit))

withdraw_succeeds :
    {solana : Solana} (laws : IsSolana solana) (ctx : YieldAccounts) (n : ℕ) (l : Ledger)
    → IsSellable solana ctx n l
    → worth ctx n ≤ ctx.yield_vault.state.total_usdc_deposited
    → (o : Outcome YieldAccounts) × (WithdrawFromYield.withdraw_from_yield solana ctx n l ≡ ok o)
unfolding WithdrawFromYield.withdraw_from_yield WithdrawFromYield.handler get_vault_total_value
withdraw_succeeds {solana} laws ctx n l s covered =
    let priced = worth-priced laws ctx n l s in
    let (l', paid) = worth_paid laws ctx n l s in
    ok_of_ne_err (WithdrawFromYield.withdraw_from_yield solana ctx n l)
      λ e bad. ground (arith, s, priced, paid)

disable_succeeds :
    {solana : Solana} (laws : IsSolana solana) (ctx : YieldAccounts) (l : Ledger)
    → IsSellable solana ctx ctx.subscription_wallet.state.yield_shares l
    → worth ctx ctx.subscription_wallet.state.yield_shares
      ≤ ctx.yield_vault.state.total_usdc_deposited
    → (o : Outcome YieldAccounts) × (DisableYield.disable_yield solana ctx l ≡ ok o)
unfolding DisableYield.disable_yield DisableYield.handler get_vault_total_value
disable_succeeds {solana} laws ctx l s covered =
    let n = ctx.subscription_wallet.state.yield_shares in
    let priced = worth-priced laws ctx n l s in
    let (l', paid) = worth_paid laws ctx n l s in
    ok_of_ne_err (DisableYield.disable_yield solana ctx l) λ e bad. ground (arith, s, priced, paid)

-- The number of shares that a sale is about.
abbrev pub shares_sold : YieldAccounts → Request → ℕ
shares_sold ctx (withdraw n) = n
shares_sold ctx _ = ctx.subscription_wallet.state.yield_shares

-- A withdrawal of shares, or disabling yield, goes through exactly if the shares' part of the buffer
-- is at most the deposits on record: where the account checks pass, the wallet earns yield and holds
-- the shares, the vault has issued them and has the wallet's mint, the accounts are distinct and as
-- the ledger has them, the buffer is the vault's, and no balance overflows.
pub sale_iff :
    {solana : Solana} (laws : IsSolana solana) (ctx : YieldAccounts) (r : Request) (l : Ledger)
    → Sells r
    → IsSellable solana ctx (shares_sold ctx r) l
    → ((o : Outcome YieldAccounts) × (run solana ctx r l ≡ ok o))
      ↔ (worth ctx (shares_sold ctx r) ≤ ctx.yield_vault.state.total_usdc_deposited)
unfolding run WithdrawFromYield.withdraw_from_yield DisableYield.disable_yield
sale_iff laws ctx (enable n) l sells s = absurd sells
sale_iff laws ctx (deposit n) l sells s = absurd sells
sale_iff {solana} laws ctx (withdraw n) l sells s = (
  λ h.
      withdraw_within solana ctx l n _ (worth-priced laws ctx n l s)
        (>>-eq-ok (try_accounts solana ctx) _ h.1),
  withdraw_succeeds laws ctx n l s,
)
sale_iff {solana} laws ctx disable l sells s = (
  λ h.
      disable_within solana ctx l _ (worth-priced laws ctx _ l s)
        (>>-eq-ok (try_accounts solana ctx) _ h.1),
  disable_succeeds laws ctx l s,
)
