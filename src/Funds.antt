-- ===== src/Funds.antt =====
-- The instructions of lib.rs that move tokens by transfers, as one operation on the ledger: deposits
-- into wallets and withdrawals from them, the yield instructions, and payments. A rebalancing moves
-- tokens only through the lending program.
pub mod Moves
pub mod Conservation
pub mod Price
pub mod Deposits
use eventop.Base.{ℕ, ℤ, ◌≡◌, ◌≤ℤ◌, ◌-ℤ◌, true, List, [], ◌∷◌}
use eventop.Runtime.Result.{Result, ok, err}
use eventop.Runtime.Token.{Ledger}
use eventop.Runtime.Anchor.{Pubkey, Solana}
use eventop.Outcome.{Outcome}
use eventop.Wallet.Deposit.{DepositToWallet, deposit_to_wallet}
use eventop.Wallet.Withdraw.{WithdrawFromWallet, withdraw_from_wallet}
use eventop.YieldOps.Accounts.{YieldAccounts}
use eventop.YieldOps.Request.{Request, run}
use eventop.YieldOps.Request
use eventop.Subscription.ExecutePayment.{ExecutePaymentFromWallet, execute_payment_from_wallet}

pub data Call : Type 0 where
  deposit : DepositToWallet → ℕ → Call
  withdraw : WithdrawFromWallet → ℕ → Call
  trade : YieldAccounts → Request → Call
  pay : ExecutePaymentFromWallet → (now : ℤ) → Call

abbrev pub ledger_of {ℓ} : {A : Type ℓ} → Result (Outcome A) → Result Ledger
ledger_of (ok o) = ok o.ledger
ledger_of (err e) = err e

unfoldable pub exec : Solana → Call → Ledger → Result Ledger
exec solana (deposit ctx n) l = ledger_of (deposit_to_wallet solana ctx n l)
exec solana (withdraw ctx n) l = ledger_of (withdraw_from_wallet solana ctx n l)
exec solana (trade ctx r) l = ledger_of (run solana ctx r l)
exec solana (pay ctx now) l = ledger_of (execute_payment_from_wallet solana ctx now l)

abbrev pub trade_source : YieldAccounts → Request → Pubkey
trade_source ctx (Request.enable n) = ctx.wallet_token_account.key
trade_source ctx (Request.deposit n) = ctx.wallet_token_account.key
trade_source ctx (Request.withdraw n) = ctx.vault_buffer.key
trade_source ctx Request.disable = ctx.vault_buffer.key

abbrev pub trade_target : YieldAccounts → Request → Pubkey
trade_target ctx (Request.enable n) = ctx.vault_buffer.key
trade_target ctx (Request.deposit n) = ctx.vault_buffer.key
trade_target ctx (Request.withdraw n) = ctx.wallet_token_account.key
trade_target ctx Request.disable = ctx.wallet_token_account.key

-- The account that a call takes from.
abbrev pub source_of : Call → Pubkey
source_of (deposit ctx n) = ctx.user_token_account.key
source_of (withdraw ctx n) = ctx.wallet_token_account.key
source_of (trade ctx r) = trade_source ctx r
source_of (pay ctx now) = ctx.wallet_token_account.key

-- The accounts that it gives to, in order.
abbrev pub targets_of : Call → List Pubkey
targets_of (deposit ctx n) = ctx.wallet_token_account.key ∷ []
targets_of (withdraw ctx n) = ctx.user_token_account.key ∷ []
targets_of (trade ctx r) = trade_target ctx r ∷ []
targets_of (pay ctx now) = ctx.merchant_token_account.key ∷ ctx.protocol_treasury.key ∷ []

-- Why the account may be debited: its owner signs, or the wallet's owner does, or a payment is due.
abbrev pub IsAuthorised : Call → Type 0
IsAuthorised (deposit ctx n) =
    (ctx.user.is_signer ≡ true) × (ctx.user_token_account.state.owner ≡ ctx.user.key)
IsAuthorised (withdraw ctx n) =
    (ctx.owner.is_signer ≡ true) × (ctx.subscription_wallet.state.owner ≡ ctx.owner.key)
IsAuthorised (trade ctx r) =
    (ctx.owner.is_signer ≡ true) × (ctx.subscription_wallet.state.owner ≡ ctx.owner.key)
IsAuthorised (pay ctx now) =
    (ctx.subscription_state.state.is_active ≡ true)
    × (ctx.subscription_wallet.key ≡ ctx.subscription_state.state.subscription_wallet)
    × (ctx.subscription_state.state.payment_interval
        ≤ℤ now -ℤ ctx.subscription_state.state.last_payment_timestamp)
