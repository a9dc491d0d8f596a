-- ===== src/Registry/Counts.antt =====
-- `total_subscriptions` of a wallet is the number of the open subscriptions that are charged to it.
use eventop.Base.{
  ℕ, ◌+◌, ◌-◌, ◌≡◌, ◌∙◌, refl, sym, ap, arith, Option, none, some, List, Text, ◌==◌, if◌then◌else◌,
}
use mathlib.Core.Path.{subst}
use eventop.Base.Assoc.{
  find, put, remove, sum_of, find-put, sum_of-put, sum_of-put_new, sum_of-remove,
}
use eventop.Runtime.Anchor.{Pubkey, Account, Solana}
use eventop.State.SubscriptionWallet.{SubscriptionWallet}
use eventop.State.SubscriptionState.{SubscriptionState}
use eventop.Subscription.Cancellation.{cancel-IsCancelled}
use eventop.Subscription.PaymentFees.{handler_of_payment}
use eventop.Registry.{Registry, Step, create, trade, subscribe, pay, cancel, Reachable, start, next}
use eventop.Registry.Effects.{
  CountKept, run-CountKept, create-CreatesWallet, subscribe-Opens, payment-PaysOn, cancel_key,
}

abbrev pub charged_to : Pubkey → SubscriptionState → ℕ
charged_to k s = if s.subscription_wallet == k then 1 else 0

-- How many subscriptions are open that are charged to the wallet at a key.
abbrev pub open_subscriptions : Pubkey → Registry → ℕ
open_subscriptions k r = sum_of (charged_to k) r.subscriptions

abbrev counted : Option SubscriptionWallet → ℕ
counted none = 0
counted (some w) = w.total_subscriptions

-- No wallet, no subscriptions.
abbrev IsCounted : Pubkey → Registry → Type 0
IsCounted k r = open_subscriptions k r ≡ counted (find k r.wallets)

module _ (k : Pubkey) (r : Registry) (b : IsCounted k r) where
  -- The wallet at a key and the subscriptions that are charged to it change together.
  moved-IsCounted :
      (w w' : Account SubscriptionWallet) (n : ℕ)
      → find w.key r.wallets ≡ some w.state
      → w'.key ≡ w.key
      → n + (if k == w.key then w.state.total_subscriptions else 0)
        ≡ open_subscriptions k r + (if k == w.key then w'.state.total_subscriptions else 0)
      → n ≡ counted (find k (put w'.key w'.state r.wallets))
  moved-IsCounted w w' n stored key same = ground (arith, find-put k w'.key w'.state r.wallets, b)

  create-IsCounted :
      (j : Pubkey) (w : SubscriptionWallet)
      → find j r.wallets ≡ none
      → w.total_subscriptions ≡ 0
      → open_subscriptions k r ≡ counted (find k (put j w r.wallets))
  create-IsCounted j w fresh zero_count = ground (arith, find-put k j w r.wallets, b)

  Kept-IsCounted :
      (w w' : Account SubscriptionWallet)
      → find w.key r.wallets ≡ some w.state
      → CountKept w w'
      → open_subscriptions k r ≡ counted (find k (put w'.key w'.state r.wallets))
  Kept-IsCounted w w' stored (key, same) =
      moved-IsCounted w w' (open_subscriptions k r) stored key (ground arith)

  subscribe-IsCounted :
      (w w' : Account SubscriptionWallet) (j : Pubkey) (s : SubscriptionState)
      → find w.key r.wallets ≡ some w.state
      → w'.key ≡ w.key
      → w'.state.total_subscriptions ≡ w.state.total_subscriptions + 1
      → find j r.subscriptions ≡ none
      → s.subscription_wallet ≡ w.key
      → sum_of (charged_to k) (put j s r.subscriptions)
        ≡ counted (find k (put w'.key w'.state r.wallets))
  subscribe-IsCounted w w' j s stored key more fresh charged =
      moved-IsCounted w w' (sum_of (charged_to k) (put j s r.subscriptions)) stored key
        (ground (arith, sum_of-put_new (charged_to k) j s r.subscriptions fresh))

  pay-IsCounted :
      (w w' : Account SubscriptionWallet) (j : Pubkey) (s s' : SubscriptionState)
      → find w.key r.wallets ≡ some w.state
      → CountKept w w'
      → find j r.subscriptions ≡ some s
      → s'.subscription_wallet ≡ s.subscription_wallet
      → sum_of (charged_to k) (put j s' r.subscriptions)
        ≡ counted (find k (put w'.key w'.state r.wallets))
  pay-IsCounted w w' j s s' stored (key, same) found charged =
      moved-IsCounted w w' (sum_of (charged_to k) (put j s' r.subscriptions)) stored key
        (ground (arith, sum_of-put (charged_to k) j s' s r.subscriptions found))

  cancel-IsCounted :
      (w w' : Account SubscriptionWallet) (j : Pubkey) (s : SubscriptionState)
      → find w.key r.wallets ≡ some w.state
      → w'.key ≡ w.key
      → w'.state.total_subscriptions ≡ w.state.total_subscriptions - 1
      → find j r.subscriptions ≡ some s
      → w.key ≡ s.subscription_wallet
      → sum_of (charged_to k) (remove j r.subscriptions)
        ≡ counted (find k (put w'.key w'.state r.wallets))
  cancel-IsCounted w w' j s stored key less found charged =
      moved-IsCounted w w' (sum_of (charged_to k) (remove j r.subscriptions)) stored key
        (ground (arith, sum_of-remove (charged_to k) j s r.subscriptions found, b))

Step-IsCounted :
    {solana : Solana} (k : Pubkey) {r r' : Registry} {used : List Text}
    → Step solana r r' used
    → IsCounted k r
    → IsCounted k r'
Step-IsCounted {solana} k {r} (create ctx l o w stored done made e _) b =
    let c = create-CreatesWallet solana ctx l done made in
    subst (IsCounted k) (sym e) (
      create-IsCounted k r b ctx.subscription_wallet.key w (sym stored ∙ c.fresh)
        c.no_subscriptions)
Step-IsCounted {solana} k {r} (trade ctx q l o stored done e _) b = subst (IsCounted k) (sym e) (
    Kept-IsCounted k r b ctx.subscription_wallet o.accounts.subscription_wallet stored
      (run-CountKept solana ctx q l done))
Step-IsCounted {solana} k {r} (subscribe ctx token now l o s t at_key _ stored done es et e _) b =
    let c = subscribe-Opens solana ctx token now l done es et in
    subst (IsCounted k) (sym e) (
      subscribe-IsCounted k r b ctx.subscription_wallet o.accounts.subscription_wallet
        o.accounts.subscription_state.key s stored c.wallet_key c.one_more
        (ap (λ (j : Pubkey). find j r.subscriptions) c.same_key ∙ sym at_key ∙ c.fresh)
        c.charged_to)
Step-IsCounted {solana} k {r} (pay ctx now l o found stored done e _) b =
    let (key, charged, kept) =
      payment-PaysOn solana ctx now l (handler_of_payment solana ctx now l done) in
    subst (IsCounted k) (sym e) (
      pay-IsCounted k r b ctx.subscription_wallet o.accounts.subscription_wallet
        o.accounts.subscription_state.key ctx.subscription_state.state
        o.accounts.subscription_state.state stored kept
        (ap (λ (j : Pubkey). find j r.subscriptions) key ∙ found) charged)
Step-IsCounted {solana} k {r} (cancel ctx l o found stored done e _) b =
    let c = cancel-IsCancelled solana ctx l done in
    subst (IsCounted k) (sym e) (
      cancel-IsCounted k r b ctx.subscription_wallet o.accounts.subscription_wallet
        ctx.subscription_state.key ctx.subscription_state.state stored
        (cancel_key solana ctx l done) c.wallet_count found c.own_wallet)

Reachable-IsCounted :
    {solana : Solana} (k : Pubkey) {r : Registry} {used : List Text}
    → Reachable solana r used
    → IsCounted k r
Reachable-IsCounted k start = refl
Reachable-IsCounted k (next before step _) = Step-IsCounted k step (Reachable-IsCounted k before)

-- After any history of the instructions, the `total_subscriptions` of a wallet that exists is the
-- number of open subscriptions that are charged to it.
pub total_subscriptions-eq :
    {solana : Solana} {r : Registry} {used : List Text} (k : Pubkey) (w : SubscriptionWallet)
    → Reachable solana r used
    → find k r.wallets ≡ some w
    → w.total_subscriptions ≡ open_subscriptions k r
total_subscriptions-eq k w reached found = ground (arith, Reachable-IsCounted k reached)
