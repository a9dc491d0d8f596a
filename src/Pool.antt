-- ===== src/Pool.antt =====
-- One vault with the wallets of its mint, under any sequence of the program's instructions
-- (lib.rs). An instruction runs on the accounts as they are stored, and what it leaves is stored.
pub mod Kept
pub mod Balance
pub mod Book
pub mod Solvency
use eventop.Base.{ℕ, ℤ, ◌≡◌, ◌⊎◌, Bool, Option, none, some, List, [], Text}
use eventop.Base.Assoc.{find, put, All}
use eventop.Runtime.Result.{ok}
use eventop.Runtime.Token.{Ledger}
use eventop.Runtime.Anchor.{Pubkey, Account, Solana}
use eventop.State.SubscriptionWallet.{SubscriptionWallet}
use eventop.State.YieldVault.{YieldVault}
use eventop.Outcome.{Outcome, with_state}
use eventop.YieldOps.Accounts.{YieldAccounts}
use eventop.YieldOps.Request.{Request, run}
use eventop.Protocol.InitializeYieldVault.{InitializeYieldVault, initialize_yield_vault}
use eventop.Wallet.CreateWallet.{CreateSubscriptionWallet, create_subscription_wallet}
use eventop.VaultManagement.SetEmergencyMode.{SetEmergencyMode, set_emergency_mode}
use eventop.VaultManagement.RebalanceVault.{RebalanceVault, rebalance_vault}
use eventop.Subscription.Subscribe.{SubscribeWithWallet, subscribe_with_wallet}
use eventop.Subscription.ExecutePayment.{ExecutePaymentFromWallet, execute_payment_from_wallet}
use eventop.Subscription.CancelSubscription.{
  CancelSubscriptionWallet, CancelledAccounts, cancel_subscription_wallet,
}

pub record Pool : Type 0 where
  pub vault : Account YieldVault
  pub wallets : List (Pubkey × SubscriptionWallet)

-- A wallet's account as it is stored.
abbrev pub IsStored : Pool → Account SubscriptionWallet → Type 0
IsStored p w = find w.key p.wallets ≡ some w.state

abbrev pub store : Account SubscriptionWallet → Pool → Pool
store w p = record p { wallets = put w.key w.state p.wallets }

abbrev pub store_vault : Account YieldVault → Pool → Pool
store_vault v p = record p { vault = v }

-- A payment may leave the vault out.
abbrev pub store_optional : Option (Account YieldVault) → Pool → Pool
store_optional none p = p
store_optional (some v) p = store_vault v p

pub data Step (solana : Solana) (p q : Pool) : Type 0 where
  trade :
      (ctx : YieldAccounts) (r : Request) (l : Ledger) (o : Outcome YieldAccounts)
      → ctx.yield_vault ≡ p.vault
      → IsStored p ctx.subscription_wallet
      → run solana ctx r l ≡ ok o
      → q ≡ store o.accounts.subscription_wallet (store_vault o.accounts.yield_vault p)
      → Step solana p q
  pay :
      (ctx : ExecutePaymentFromWallet) (now : ℤ) (l : Ledger) (o : Outcome ExecutePaymentFromWallet)
      → (ctx.yield_vault ≡ none) ⊎ (ctx.yield_vault ≡ some p.vault)
      → IsStored p ctx.subscription_wallet
      → execute_payment_from_wallet solana ctx now l ≡ ok o
      → q ≡ store o.accounts.subscription_wallet (store_optional o.accounts.yield_vault p)
      → Step solana p q
  create :
      (ctx : CreateSubscriptionWallet) (l : Ledger) (o : Outcome CreateSubscriptionWallet)
      (w : SubscriptionWallet)
      → find ctx.subscription_wallet.key p.wallets ≡ none
      → create_subscription_wallet solana ctx l ≡ ok o
      → o.accounts.subscription_wallet.state ≡ some w
      → q ≡ store (record { key = ctx.subscription_wallet.key; state = w }) p
      → Step solana p q
  subscribe :
      (ctx : SubscribeWithWallet) (token : Text) (now : ℤ) (l : Ledger)
      (o : Outcome SubscribeWithWallet)
      → IsStored p ctx.subscription_wallet
      → subscribe_with_wallet solana ctx token now l ≡ ok o
      → q ≡ store o.accounts.subscription_wallet p
      → Step solana p q
  cancel :
      (ctx : CancelSubscriptionWallet) (l : Ledger) (o : Outcome CancelledAccounts)
      → IsStored p ctx.subscription_wallet
      → cancel_subscription_wallet solana ctx l ≡ ok o
      → q ≡ store o.accounts.subscription_wallet p
      → Step solana p q
  switch :
      (ctx : SetEmergencyMode) (enabled : Bool) (l : Ledger) (o : Outcome SetEmergencyMode)
      → ctx.yield_vault ≡ p.vault
      → set_emergency_mode solana ctx enabled l ≡ ok o
      → q ≡ store_vault o.accounts.yield_vault p
      → Step solana p q
  rebalance :
      (ctx : RebalanceVault) (l : Ledger) (o : Outcome RebalanceVault)
      → ctx.yield_vault ≡ p.vault
      → rebalance_vault solana ctx l ≡ ok o
      → q ≡ store_vault o.accounts.yield_vault p
      → Step solana p q

-- A wallet as `create_subscription_wallet` leaves it, perhaps with subscriptions since.
abbrev pub HoldsNothing : SubscriptionWallet → Type 0
HoldsNothing w = w.yield_shares ≡ 0

-- The pools that the program can reach from the initialisation of the vault.
pub data Reachable (solana : Solana) : Pool → Type 0 where
  start :
      (ctx : InitializeYieldVault) (bps : ℕ) (l : Ledger) (o : Outcome InitializeYieldVault)
      (v : YieldVault) (wallets : List (Pubkey × SubscriptionWallet)) {p : Pool}
      → initialize_yield_vault solana ctx bps l ≡ ok o
      → o.accounts.yield_vault.state ≡ some v
      → All HoldsNothing wallets
      → p ≡ record { vault = record { key = ctx.yield_vault.key; state = v }; wallets = wallets }
      → Reachable solana p
  next : {p q : Pool} → Reachable solana p → Step solana p q → Reachable solana q
