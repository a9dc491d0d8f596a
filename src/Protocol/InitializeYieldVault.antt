-- ===== src/Protocol/InitializeYieldVault.antt =====
-- instructions/protocol/initialize_yield_vault.rs of the program.
use eventop.Base.{ℕ, false, Option, some, [], ◌∷◌, leb}
use eventop.Errors.{invalid_buffer_ratio}
use eventop.Runtime.Result.{Result, ok, ◌>>=◌, ◌>>◌, require}
use eventop.Runtime.Token.{TokenAccount, Ledger}
use eventop.Runtime.Anchor.{
  Pubkey, Account, AccountInfo, Signer, Solana, check_signer, check_init, check_canonical,
}
use eventop.State.YieldVault.{YieldVault, vault_seeds}
use eventop.Events.{yield_vault_initialized}
use eventop.Outcome.{Outcome, with_state}

-- Of the mint only the key is read.
pub record InitializeYieldVault : Type 0 where
  pub yield_vault : Account (Option YieldVault)
  pub authority : Signer
  pub mint : Pubkey
  pub usdc_buffer : Account TokenAccount
  pub jupiter_ftoken_account : Account TokenAccount
  pub jupiter_lending : AccountInfo

unfoldable pub try_accounts : Solana → InitializeYieldVault → Result ℕ
try_accounts solana ctx = do
  check_signer ctx.authority
  bump ← check_canonical solana (vault_seeds ctx.mint) ctx.yield_vault.key
  check_init ctx.yield_vault
  ok bump

unfoldable pub handler :
    InitializeYieldVault
    → (bump target_buffer_bps : ℕ) → Ledger
    → Result (Outcome InitializeYieldVault)
handler ctx bump target_buffer_bps ledger = do
  require (leb target_buffer_bps 5000) invalid_buffer_ratio
  ok (record {
    accounts = record ctx {
      yield_vault = with_state ctx.yield_vault (
          some (record {
            authority = ctx.authority.key;
            mint = ctx.mint;
            usdc_buffer = ctx.usdc_buffer.key;
            jupiter_ftoken_account = ctx.jupiter_ftoken_account.key;
            jupiter_lending = ctx.jupiter_lending.key;
            total_shares_issued = 0;
            total_usdc_deposited = 0;
            target_buffer_bps = target_buffer_bps;
            emergency_mode = false;
            emergency_exchange_rate = 1_000_000;
            bump = bump;
          }));
    };
    ledger = ledger;
    events =
        yield_vault_initialized (record {
          vault = ctx.yield_vault.key;
          authority = ctx.authority.key;
          target_buffer_bps = target_buffer_bps;
        })
        ∷ [];
  })

-- The entry point in lib.rs.
unfoldable pub initialize_yield_vault :
    Solana → InitializeYieldVault → ℕ → Ledger → Result (Outcome InitializeYieldVault)
initialize_yield_vault solana ctx target_buffer_bps ledger =
    try_accounts solana ctx >>= λ bump. handler ctx bump target_buffer_bps ledger
