-- ===== src/World/Refinement.antt =====
-- The transactions of the program as steps of the registry.
use mathlib.Core.Path.{subst}
use eventop.Base.{
  ℤ, ◌≡◌, ◌⊎◌, refl, sym, ◌∙◌, ap, inl, inr, arith, ◌++◌, Option, none, some, List, [], ◌∷◌, Text,
}
use eventop.Runtime.Result.{ok}
use eventop.Runtime.Token.{Ledger}
use eventop.Runtime.Anchor.{Solana, Pubkey}
use eventop.Outcome.{Outcome}
use eventop.State.SubscriptionWallet.{SubscriptionWallet}
use eventop.State.SubscriptionState.{SubscriptionState}
use eventop.State.SessionToken.{SessionTokenTracker}
use eventop.Wallet.CreateWallet
use eventop.Wallet.CreateWallet.{CreateSubscriptionWallet, create_subscription_wallet}
use eventop.Subscription.Subscribe
use eventop.Subscription.Subscribe.{SubscribeWithWallet, subscribe_with_wallet}
use eventop.Subscription.CancelSubscription
use eventop.Subscription.CancelSubscription.{
  CancelSubscriptionWallet, CancelledAccounts, cancel_subscription_wallet,
}
use eventop.Registry
use eventop.Registry.{Registry, Reachable, Step}
use eventop.World.{World, Transaction, new_world}
use eventop.World.Exec.{serve}
use eventop.World.Steps.{
  Ran, moved, configured, fee_updated, vault_created, rebalanced, switched, registered,
  wallet_created, traded, subscribed, paid, cancelled,
}
use eventop.World.Keeps.{serve-keeps}

made {ℓ} : {V : Type ℓ} (a : Option V) → (a ≡ none → ⊥) → (v : V) × (a ≡ some v)
made none h = absurd (h refl)
made (some v) h = (v, refl)

wallet_made :
    (solana : Solana) (ctx : CreateSubscriptionWallet) (l : Ledger)
    {o : Outcome CreateSubscriptionWallet}
    → create_subscription_wallet solana ctx l ≡ ok o
    → (w : SubscriptionWallet) × (o.accounts.subscription_wallet.state ≡ some w)
      × (o.accounts.subscription_wallet.key ≡ ctx.subscription_wallet.key)
unfolding create_subscription_wallet CreateWallet.handler
wallet_made solana ctx l {o} h =
    let (w, e) = made o.accounts.subscription_wallet.state (λ q. ground arith) in
    (w, e, ground arith)

subscription_made :
    (solana : Solana) (ctx : SubscribeWithWallet) (token : Text) (now : ℤ) (l : Ledger)
    {o : Outcome SubscribeWithWallet}
    → subscribe_with_wallet solana ctx token now l ≡ ok o
    → (s : SubscriptionState) × (t : SessionTokenTracker) × (o.accounts.subscription_state.state
        ≡ some s)
      × (o.accounts.session_token_tracker.state ≡ some t)
unfolding subscribe_with_wallet Subscribe.handler
subscription_made solana ctx token now l {o} h =
    let (s, e) = made o.accounts.subscription_state.state (λ q. ground arith) in
    let (t, d) = made o.accounts.session_token_tracker.state (λ q. ground arith) in (s, t, e, d)

subscription_closed :
    (solana : Solana) (ctx : CancelSubscriptionWallet) (l : Ledger) {o : Outcome CancelledAccounts}
    → cancel_subscription_wallet solana ctx l ≡ ok o
    → (o.accounts.subscription_state.state ≡ none)
      × (o.accounts.subscription_state.key ≡ ctx.subscription_state.key)
unfolding cancel_subscription_wallet CancelSubscription.handler
subscription_closed solana ctx l h = ground arith

-- The session tokens that a step uses.
pub registry_step :
    {solana : Solana} {now : ℤ} {w w' : World}
    → Ran solana now w w'
    → (w'.registry ≡ w.registry) ⊎ ((used : List Text) × Step solana w.registry w'.registry used)
registry_step (moved e) = inl (ap (λ (w : World). w.registry) e)
registry_step (configured ctx bps o _ _ e) = inl (ap (λ (w : World). w.registry) e)
registry_step (fee_updated ctx bps o _ _ e) = inl (ap (λ (w : World). w.registry) e)
registry_step (vault_created ctx bps o _ _ e) = inl (ap (λ (w : World). w.registry) e)
registry_step (rebalanced ctx o _ _ e) = inl (ap (λ (w : World). w.registry) e)
registry_step (switched ctx b o _ _ e) = inl (ap (λ (w : World). w.registry) e)
registry_step (registered ctx terms o _ _ e) = inl (ap (λ (w : World). w.registry) e)
registry_step {solana} {w} (wallet_created ctx o free done e) =
    let (v, state, key) = wallet_made solana ctx w.ledger done in
    inr (
      [],
      Registry.create ctx w.ledger o v free done state (ap (λ (w : World). w.registry) e ∙ cc) refl,
    )
registry_step {w} (traded ctx q o stored _ done e) =
    inr ([], Registry.trade ctx q w.ledger o stored done (ap (λ (w : World). w.registry) e) refl)
registry_step {solana} {now} {w} (subscribed ctx token o new seen stored _ done e) =
    let (s, t, opened, used) = subscription_made solana ctx token now w.ledger done in
    inr (
      token ∷ [],
      Registry.subscribe ctx token now w.ledger o s t new seen stored done opened used
          (ap (λ (w : World). w.registry) e ∙ cc) refl,
    )
registry_step {now} {w} (paid ctx o sub_stored stored _ done e) = inr (
  [],
  Registry.pay ctx now w.ledger o sub_stored stored done (ap (λ (w : World). w.registry) e) refl,
)
registry_step {solana} {w} (cancelled ctx o sub_stored stored _ done e) =
    let (gone, key) = subscription_closed solana ctx w.ledger done in
    inr (
      [],
      Registry.cancel ctx w.ledger o sub_stored stored done (ap (λ (w : World). w.registry) e ∙ cc)
          refl,
    )

-- The wallets, subscriptions and trackers of any world that transactions reach from nothing are a registry that
-- its steps reach.
pub serve-Reachable :
    (solana : Solana) (l : Ledger) (bytes : Pubkey → Text) (ts : List Transaction)
    → (used : List Text) × Reachable solana (serve solana (new_world l bytes) ts).registry used
serve-Reachable solana l bytes ts =
    serve-keeps (λ w. (used : List Text) × Reachable solana w.registry used)
      (λ now w w' step before. elim (registry_step step) [
        | inl same ↦ (before.0, subst (λ r. Reachable solana r before.0) (sym same) before.1)
        | inr (used, taken) ↦ (used ++ before.0, Registry.next before.1 taken refl)
      ])
      (λ w l bytes p. p) (new_world l bytes) ts ([], Registry.start)
