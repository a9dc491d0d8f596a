-- ===== src/YieldOps/Request.antt =====
-- The yield instructions of lib.rs as one type of requests.
use eventop.Base.{ℕ}
use eventop.Runtime.Result.{Result}
use eventop.Runtime.Token.{Ledger}
use eventop.Runtime.Anchor.{Solana}
use eventop.Outcome.{Outcome}
use eventop.YieldOps.Accounts.{YieldAccounts}
use eventop.YieldOps.EnableYield.{enable_yield}
use eventop.YieldOps.DepositToYield.{deposit_to_yield}
use eventop.YieldOps.WithdrawFromYield.{withdraw_from_yield}
use eventop.YieldOps.DisableYield.{disable_yield}

pub data Request : Type 0 where
  enable : ℕ → Request
  deposit : ℕ → Request
  withdraw : ℕ → Request
  disable : Request

unfoldable pub run : Solana → YieldAccounts → Request → Ledger → Result (Outcome YieldAccounts)
run solana ctx (enable amount) ledger = enable_yield solana ctx amount ledger
run solana ctx (deposit amount) ledger = deposit_to_yield solana ctx amount ledger
run solana ctx (withdraw shares) ledger = withdraw_from_yield solana ctx shares ledger
run solana ctx disable ledger = disable_yield solana ctx ledger
