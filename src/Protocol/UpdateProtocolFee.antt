-- ===== src/Protocol/UpdateProtocolFee.antt =====
-- instructions/protocol/update_protocol_fee.rs of the program.
use eventop.Base.{ℕ, [], ◌∷◌, leb, ◌==◌}
use eventop.Errors.{fee_too_high, unauthorized_protocol_update}
use eventop.Runtime.Result.{Result, ok, ◌>>◌, require}
use eventop.Runtime.Token.{Ledger}
use eventop.Runtime.Anchor.{Account, Signer, Solana, check_signer, check_seeds}
use eventop.State.ProtocolConfig.{ProtocolConfig, config_seeds}
use eventop.Events.{protocol_fee_updated}
use eventop.Outcome.{Outcome, with_state}

pub record UpdateProtocolFee : Type 0 where
  pub protocol_config : Account ProtocolConfig
  pub authority : Signer

unfoldable pub try_accounts : Solana → UpdateProtocolFee → Result (Unit {0})
try_accounts solana ctx = do
  check_signer ctx.authority
  check_seeds solana config_seeds ctx.protocol_config.state.bump ctx.protocol_config.key
  require (ctx.protocol_config.state.authority == ctx.authority.key) unauthorized_protocol_update

unfoldable pub handler : UpdateProtocolFee → ℕ → Ledger → Result (Outcome UpdateProtocolFee)
handler ctx new_fee_bps ledger =
    let config = ctx.protocol_config.state in
    do
      require (leb new_fee_bps 1000) fee_too_high
      ok (record {
        accounts = record ctx {
          protocol_config =
              with_state ctx.protocol_config (record config { protocol_fee_bps = new_fee_bps });
        };
        ledger = ledger;
        events =
            protocol_fee_updated
              (record { old_fee_bps = config.protocol_fee_bps; new_fee_bps = new_fee_bps })
            ∷ [];
      })

-- The entry point in lib.rs.
unfoldable pub update_protocol_fee :
    Solana → UpdateProtocolFee → ℕ → Ledger → Result (Outcome UpdateProtocolFee)
update_protocol_fee solana ctx new_fee_bps ledger =
    try_accounts solana ctx >> handler ctx new_fee_bps ledger
