-- ===== src/World/Leaving.antt =====
-- Cancelling the subscriptions that transactions have opened.
use mathlib.Core.Path.{subst}
use eventop.Base.{ℤ, ◌≡◌, refl, sym, ◌∙◌, arith, true, none, some, List, Text, ==_iff}
use eventop.Base.Assoc.{find, find-remove}
use eventop.Runtime.Result.{ok, >>=-ok, ok_of_ne_err}
use eventop.Runtime.Token.{Ledger}
use eventop.Runtime.Anchor.{Pubkey, Solana}
use eventop.Runtime.Laws.{IsSolana}
use eventop.Outcome.{Outcome}
use eventop.State.SubscriptionWallet.{SubscriptionWallet}
use eventop.State.SubscriptionState.{SubscriptionState, subscription_seeds}
use eventop.State.MerchantPlan.{MerchantPlan}
use eventop.Subscription.CancelSubscription
use eventop.Subscription.CancelSubscription.{
  CancelSubscriptionWallet, CancelledAccounts, cancel_subscription_wallet,
}
use eventop.World.{World, Transaction, Message, cancel, new_world}
use eventop.World.Load.{is_in, signer_at, load, save, save_new}
use eventop.World.Accounts.{load_cancel}
use eventop.World.Exec.{exec, registry_cancelled, serve}
use eventop.World.Opened.{cancel_closes}
use eventop.World.Links.{IsLinked}
use eventop.World.Linked.{serve-IsLinked}

-- The cancellation by the user of the subscription `s` at `k`.
abbrev pub cancellation_of : Pubkey → SubscriptionState → Message
cancellation_of k s = cancel k s.subscription_wallet s.merchant_plan s.user

module _ {solana : Solana} (laws : IsSolana solana) (signers : List Pubkey) (now : ℤ) (w : World)
    (linked : IsLinked solana w) (k : Pubkey) (s : SubscriptionState)
    (there : find k w.registry.subscriptions ≡ some s) (signed : is_in s.user signers ≡ true) where
  open laws use {create_found}

  abbrev leaving : SubscriptionWallet → MerchantPlan → CancelSubscriptionWallet
  leaving v p = record {
    subscription_state = record { key = k; state = s };
    subscription_wallet = record { key = s.subscription_wallet; state = v };
    merchant_plan = record { key = s.merchant_plan; state = p };
    user = signer_at signers s.user;
  }

  leaving_loaded :
      (v : SubscriptionWallet) (p : MerchantPlan)
      → find s.subscription_wallet w.registry.wallets ≡ some v
      → find s.merchant_plan w.plans ≡ some p
      → load_cancel signers w k s.subscription_wallet s.merchant_plan s.user ≡ ok (leaving v p)
  unfolding load_cancel load
  leaving_loaded v p wallet plan = ground arith

  leaving_done :
      (v : SubscriptionWallet) (p : MerchantPlan)
      → (o : Outcome CancelledAccounts) × (cancel_subscription_wallet solana (leaving v p) w.ledger
          ≡ ok o)
  unfolding cancel_subscription_wallet CancelSubscription.try_accounts CancelSubscription.handler
  leaving_done v p =
      let fits = linked.subscriptions k s there in
      let here = create_found (subscription_seeds s.user s.merchant s.mint) k s.bump fits.address in
      ok_of_ne_err (cancel_subscription_wallet solana (leaving v p) w.ledger)
        λ e bad. ground (arith, fits.active)

  cancel_removes :
      (w' : World) × (exec solana signers now w (cancellation_of k s) ≡ ok w')
      × (find k w'.registry.subscriptions ≡ none)
  unfolding exec
  cancel_removes =
      let fits = linked.subscriptions k s there in
      let (v, wallet, _) = fits.wallet in
      let (p, plan, _) = fits.plan in
      let (o, done) = leaving_done v p in
      let gone = cancel_closes solana (leaving v p) w.ledger done in
      (
        record w {
          plans = save o.accounts.merchant_plan w.plans;
          registry = registry_cancelled o w.registry;
          ledger = o.ledger;
        },
        >>=-ok _ (leaving_loaded v p wallet plan) ∙ >>=-ok _ done,
        subst (λ a. find k (save_new a w.registry.subscriptions) ≡ none) (sym gone)
            (find-remove k k w.registry.subscriptions linked.unique
              ∙ (rw ((==_iff k k).1 refl) refl)),
      )

-- In every world that transactions reach from nothing, and for every subscription in it: the cancellation of the
-- subscription that its user has signed goes through, whatever the balances, the time and the state of
-- the plan are, and the subscription is gone.
pub served_cancel_succeeds :
    {solana : Solana} (laws : IsSolana solana) (l : Ledger) (bytes : Pubkey → Text)
    (ts : List Transaction) (signers : List Pubkey) (now : ℤ) (k : Pubkey) (s : SubscriptionState)
    → find k (serve solana (new_world l bytes) ts).registry.subscriptions ≡ some s
    → is_in s.user signers ≡ true
    → (w : World) × (exec solana signers now
          (serve solana (new_world l bytes) ts)
          (cancellation_of k s)
        ≡ ok w)
      × (find k w.registry.subscriptions ≡ none)
served_cancel_succeeds {solana} laws l bytes ts signers now k s there signed =
    cancel_removes laws signers now (serve solana (new_world l bytes) ts)
      (serve-IsLinked solana l bytes ts) k s there signed
