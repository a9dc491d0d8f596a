-- ===== src/Protocol/InitializeProtocol.antt =====
-- instructions/protocol/initialize_protocol.rs of the program.
use eventop.Base.{ℕ, Option, some, [], ◌∷◌, leb}
use eventop.Errors.{fee_too_high}
use eventop.Runtime.Result.{Result, ok, ◌>>=◌, ◌>>◌, require}
use eventop.Runtime.Token.{Ledger}
use eventop.Runtime.Anchor.{
  Pubkey, Account, Signer, Solana, check_signer, check_init, check_canonical,
}
use eventop.State.ProtocolConfig.{ProtocolConfig, config_seeds}
use eventop.Events.{protocol_initialized}
use eventop.Outcome.{Outcome, with_state}

-- A new account has no contents yet.
pub record InitializeProtocol : Type 0 where
  pub protocol_config : Account (Option ProtocolConfig)
  pub authority : Signer
  pub treasury : Pubkey

-- The attributes; the result is the bump that the handler reads in `ctx.bumps`.
unfoldable pub try_accounts : Solana → InitializeProtocol → Result ℕ
try_accounts solana ctx = do
  check_signer ctx.authority
  bump ← check_canonical solana config_seeds ctx.protocol_config.key
  check_init ctx.protocol_config
  ok bump

unfoldable pub handler :
    InitializeProtocol → (bump protocol_fee_bps : ℕ) → Ledger → Result (Outcome InitializeProtocol)
handler ctx bump protocol_fee_bps ledger = do
  require (leb protocol_fee_bps 1000) fee_too_high
  ok (record {
    accounts = record ctx {
      protocol_config = with_state ctx.protocol_config (
          some (record {
            authority = ctx.authority.key;
            treasury = ctx.treasury;
            protocol_fee_bps = protocol_fee_bps;
            bump = bump;
          }));
    };
    ledger = ledger;
    events =
        protocol_initialized (record {
          authority = ctx.authority.key;
          fee_bps = protocol_fee_bps;
          treasury = ctx.treasury;
        })
        ∷ [];
  })

-- The entry point in lib.rs.
unfoldable pub initialize_protocol :
    Solana → InitializeProtocol → ℕ → Ledger → Result (Outcome InitializeProtocol)
initialize_protocol solana ctx protocol_fee_bps ledger =
    try_accounts solana ctx >>= λ bump. handler ctx bump protocol_fee_bps ledger
