-- ===== src/World.antt =====
-- The program as a whole (lib.rs): every account that it keeps, with the token accounts and the
-- other accounts that it reads, and the transactions that run its instructions on them. An
-- instruction names accounts by key; they are loaded, the entry point runs, and what it leaves is
-- stored. A transaction is atomic.
pub mod Load
pub mod Accounts
pub mod Exec
pub mod Kept
pub mod Made
pub mod Opened
pub mod Loaded
pub mod Steps
pub mod Runs
pub mod Identity
pub mod Grown
pub mod Persistence
pub mod Links
pub mod Fits
pub mod Linked
pub mod Shares
pub mod Balance
pub mod Payments
pub mod Leaving
pub mod Joining
pub mod Consent
pub mod Ledgers
pub mod Parties
pub mod Debits
pub mod Written
pub mod Allowed
pub mod AllowedSubscriptions
pub mod Changes
pub mod Keeps
pub mod Refinement
use eventop.Base.{ℕ, ℤ, Bool, Option, List, [], Text}
use eventop.Runtime.Token.{Ledger}
use eventop.Runtime.Anchor.{Pubkey}
use eventop.State.ProtocolConfig.{ProtocolConfig}
use eventop.State.YieldVault.{YieldVault}
use eventop.State.MerchantPlan.{MerchantPlan}
use eventop.Subscription.RegisterMerchant.{PlanTerms}
use eventop.YieldOps.Request.{Request}
use eventop.Registry
use eventop.Registry.{Registry}

-- The accounts of one type by key, and what other programs keep: the token accounts, and the bytes
-- of the accounts that this program does not interpret.
pub record World : Type 0 where
  pub configs : List (Pubkey × ProtocolConfig)
  pub vaults : List (Pubkey × YieldVault)
  pub plans : List (Pubkey × MerchantPlan)
  pub registry : Registry
  pub ledger : Ledger
  pub contents : Pubkey → Text

-- No account of the program yet.
abbrev pub new_world : Ledger → (Pubkey → Text) → World
new_world l bytes = record {
  configs = [];
  vaults = [];
  plans = [];
  registry = Registry.empty;
  ledger = l;
  contents = bytes;
}

-- An instruction of lib.rs: its accounts by key, and its arguments. `trade` is the four instructions
-- of the yield operations, which have the same accounts.
pub data Message : Type 0 where
  initialize_protocol : (config authority treasury : Pubkey) (protocol_fee_bps : ℕ) → Message
  initialize_vault :
      (vault authority mint usdc_buffer f_tokens lending : Pubkey) (target_buffer_bps : ℕ) → Message
  update_fee : (config authority : Pubkey) (new_fee_bps : ℕ) → Message
  create_wallet : (wallet main_token_account user mint : Pubkey) → Message
  deposit : (wallet user user_tokens wallet_tokens : Pubkey) (amount : ℕ) → Message
  withdraw : (wallet owner user_tokens wallet_tokens : Pubkey) (amount : ℕ) → Message
  trade : (wallet vault owner wallet_tokens buffer lending : Pubkey) (request : Request) → Message
  rebalance :
      (vault authority buffer f_tokens mint f_token_mint lending_admin lending
        supply_token_reserves_liquidity lending_supply_position_on_liquidity rate_model
        jupiter_vault claim_account liquidity liquidity_program rewards_rate_model lending_program
        token_program associated_token_program system_program : Pubkey)
      → Message
  set_emergency :
      (vault authority buffer f_tokens f_token_mint lending : Pubkey) (enabled : Bool) → Message
  register : (plan merchant mint : Pubkey) (terms : PlanTerms) → Message
  subscribe :
      (subscription tracker wallet plan user wallet_tokens : Pubkey) (session_token : Text)
      → Message
  pay :
      (subscription wallet plan config wallet_tokens merchant_tokens treasury : Pubkey)
      (vault buffer lending : Option Pubkey)
      → Message
  cancel : (subscription wallet plan user : Pubkey) → Message

-- A part of a transaction: an instruction of this program, or one of another program, which can
-- change what that program keeps.
pub data Command : Type 0 where
  call : Message → Command
  outside : Ledger → (Pubkey → Text) → Command

pub record Transaction : Type 0 where
  pub signers : List Pubkey
  -- `Clock::get()?.unix_timestamp`
  pub unix_timestamp : ℤ
  pub commands : List Command
