-- ===== src/Registry.antt =====
-- The wallets, open subscriptions and session tokens of the program, under any sequence of the
-- instructions of lib.rs that change one of them. An instruction runs on the accounts as they are
-- stored, and what it leaves is stored; the accounts that are only read are any that pass its checks.
pub mod Effects
pub mod Counts
pub mod Tokens
pub mod Consent
pub mod Spending
pub mod Lifecycle
pub mod Release
use eventop.Base.{◌++◌, ℕ, ℤ, ◌≡◌, Option, none, some, List, [], ◌∷◌, Text}
use eventop.Base.Assoc.{find, put, remove}
use eventop.Runtime.Result.{ok}
use eventop.Runtime.Token.{Ledger}
use eventop.Runtime.Anchor.{Pubkey, Account, Solana}
use eventop.State.SubscriptionWallet.{SubscriptionWallet}
use eventop.State.SubscriptionState.{SubscriptionState}
use eventop.State.SessionToken.{SessionTokenTracker}
use eventop.Outcome.{Outcome}
use eventop.YieldOps.Accounts.{YieldAccounts}
use eventop.YieldOps.Request.{Request, run}
use eventop.Wallet.CreateWallet.{CreateSubscriptionWallet, create_subscription_wallet}
use eventop.Subscription.Subscribe.{SubscribeWithWallet, subscribe_with_wallet}
use eventop.Subscription.ExecutePayment.{ExecutePaymentFromWallet, execute_payment_from_wallet}
use eventop.Subscription.CancelSubscription.{
  CancelSubscriptionWallet, CancelledAccounts, cancel_subscription_wallet,
}

pub record Registry : Type 0 where
  pub wallets : List (Pubkey × SubscriptionWallet)
  pub subscriptions : List (Pubkey × SubscriptionState)
  pub trackers : List (Pubkey × SessionTokenTracker)

abbrev pub empty : Registry
empty = record { wallets = []; subscriptions = []; trackers = [] }

abbrev pub store_wallet : Account SubscriptionWallet → Registry → Registry
store_wallet w r = record r { wallets = put w.key w.state r.wallets }

abbrev pub store_subscription : Pubkey → SubscriptionState → Registry → Registry
store_subscription k s r = record r { subscriptions = put k s r.subscriptions }

abbrev pub close_subscription : Pubkey → Registry → Registry
close_subscription k r = record r { subscriptions = remove k r.subscriptions }

abbrev pub store_tracker : Pubkey → SessionTokenTracker → Registry → Registry
store_tracker k t r = record r { trackers = put k t r.trackers }

-- `Step solana r r' used`: an instruction takes r to r', and uses the session tokens `used`.
pub data Step (solana : Solana) (r r' : Registry) (used : List Text) : Type 0 where
  create :
      (ctx : CreateSubscriptionWallet) (l : Ledger) (o : Outcome CreateSubscriptionWallet)
      (w : SubscriptionWallet)
      → ctx.subscription_wallet.state ≡ find ctx.subscription_wallet.key r.wallets
      → create_subscription_wallet solana ctx l ≡ ok o
      → o.accounts.subscription_wallet.state ≡ some w
      → r' ≡ store_wallet (record { key = ctx.subscription_wallet.key; state = w }) r
      → used ≡ []
      → Step solana r r' used
  trade :
      (ctx : YieldAccounts) (q : Request) (l : Ledger) (o : Outcome YieldAccounts)
      → find ctx.subscription_wallet.key r.wallets ≡ some ctx.subscription_wallet.state
      → run solana ctx q l ≡ ok o
      → r' ≡ store_wallet o.accounts.subscription_wallet r
      → used ≡ []
      → Step solana r r' used
  subscribe :
      (ctx : SubscribeWithWallet) (token : Text) (now : ℤ) (l : Ledger)
      (o : Outcome SubscribeWithWallet) (s : SubscriptionState) (t : SessionTokenTracker)
      → ctx.subscription_state.state ≡ find ctx.subscription_state.key r.subscriptions
      → ctx.session_token_tracker.state ≡ find ctx.session_token_tracker.key r.trackers
      → find ctx.subscription_wallet.key r.wallets ≡ some ctx.subscription_wallet.state
      → subscribe_with_wallet solana ctx token now l ≡ ok o
      → o.accounts.subscription_state.state ≡ some s
      → o.accounts.session_token_tracker.state ≡ some t
      → r'
        ≡ store_wallet o.accounts.subscription_wallet (
            store_subscription o.accounts.subscription_state.key s
              (store_tracker o.accounts.session_token_tracker.key t r))
      → used ≡ token ∷ []
      → Step solana r r' used
  pay :
      (ctx : ExecutePaymentFromWallet) (now : ℤ) (l : Ledger) (o : Outcome ExecutePaymentFromWallet)
      → find ctx.subscription_state.key r.subscriptions ≡ some ctx.subscription_state.state
      → find ctx.subscription_wallet.key r.wallets ≡ some ctx.subscription_wallet.state
      → execute_payment_from_wallet solana ctx now l ≡ ok o
      → r'
        ≡ store_wallet o.accounts.subscription_wallet (
            store_subscription o.accounts.subscription_state.key o.accounts.subscription_state.state
              r)
      → used ≡ []
      → Step solana r r' used
  cancel :
      (ctx : CancelSubscriptionWallet) (l : Ledger) (o : Outcome CancelledAccounts)
      → find ctx.subscription_state.key r.subscriptions ≡ some ctx.subscription_state.state
      → find ctx.subscription_wallet.key r.wallets ≡ some ctx.subscription_wallet.state
      → cancel_subscription_wallet solana ctx l ≡ ok o
      → r'
        ≡ store_wallet o.accounts.subscription_wallet
            (close_subscription ctx.subscription_state.key r)
      → used ≡ []
      → Step solana r r' used

-- `Reachable solana r used`: a history from nothing that ends in r and has used the session tokens
-- `used`, the last one first.
pub data Reachable (solana : Solana) : Registry → List Text → Type 0 where
  start : Reachable solana empty []
  next :
      {r r' : Registry} {before used all : List Text}
      → Reachable solana r before
      → Step solana r r' used
      → all ≡ used ++ before
      → Reachable solana r' all
