-- ===== src/Protocol/Fees.antt =====
-- instructions/protocol: the fee of the protocol under any sequence of its instructions.
use eventop.Base.{ℕ, ◌≤◌, ◌≡◌, arith, true, some}
use eventop.Runtime.Result.{ok}
use eventop.Runtime.Token.{Ledger}
use eventop.Runtime.Anchor.{Solana}
use eventop.State.ProtocolConfig.{ProtocolConfig}
use eventop.Outcome.{Outcome}
use eventop.Protocol.InitializeProtocol
use eventop.Protocol.InitializeProtocol.{InitializeProtocol, initialize_protocol}
use eventop.Protocol.UpdateProtocolFee
use eventop.Protocol.UpdateProtocolFee.{UpdateProtocolFee, update_protocol_fee}

-- The configurations that the instructions can make.
pub data Reachable (solana : Solana) : ProtocolConfig → Type 0 where
  initialized :
      (ctx : InitializeProtocol) (bps : ℕ) (l : Ledger) (o : Outcome InitializeProtocol)
      → initialize_protocol solana ctx bps l ≡ ok o
      → {config : ProtocolConfig} → o.accounts.protocol_config.state ≡ some config
      → Reachable solana config
  updated :
      {before : ProtocolConfig}
      → Reachable solana before
      → (ctx : UpdateProtocolFee) (bps : ℕ) (l : Ledger) (o : Outcome UpdateProtocolFee)
      → ctx.protocol_config.state ≡ before
      → update_protocol_fee solana ctx bps l ≡ ok o
      → {after : ProtocolConfig} → o.accounts.protocol_config.state ≡ after
      → Reachable solana after

initialize_bound :
    (solana : Solana) (ctx : InitializeProtocol) (bps : ℕ) (l : Ledger)
    {o : Outcome InitializeProtocol} {config : ProtocolConfig}
    → initialize_protocol solana ctx bps l ≡ ok o
    → o.accounts.protocol_config.state ≡ some config
    → config.protocol_fee_bps ≤ 1000
unfolding initialize_protocol InitializeProtocol.handler
initialize_bound solana ctx bps l h e = ground arith

-- An update of the fee is signed by the authority, sets at most 1000 basis points, and changes
-- nothing else.
pub update_protocol_fee_lem :
    (solana : Solana) (ctx : UpdateProtocolFee) (bps : ℕ) (l : Ledger)
    {o : Outcome UpdateProtocolFee}
    → update_protocol_fee solana ctx bps l ≡ ok o
    → (bps ≤ 1000)
      × (o.accounts.protocol_config.state
          ≡ record (ctx.protocol_config.state) { protocol_fee_bps = bps })
      × (ctx.authority.is_signer ≡ true)
      × (ctx.protocol_config.state.authority ≡ ctx.authority.key)
unfolding update_protocol_fee UpdateProtocolFee.handler UpdateProtocolFee.try_accounts
update_protocol_fee_lem solana ctx bps l h = ground arith

-- The fee of a configuration that the instructions can make is at most 1000 basis points.
pub Reachable-fee_bound :
    {solana : Solana} {config : ProtocolConfig}
    → Reachable solana config
    → config.protocol_fee_bps ≤ 1000
Reachable-fee_bound {solana} (initialized ctx bps l o h e) = initialize_bound solana ctx bps l h e
Reachable-fee_bound {solana} (updated r ctx bps l o _ h e) =
    ground (arith, update_protocol_fee_lem solana ctx bps l h)
