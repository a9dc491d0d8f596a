-- ===== src/World/Joining.antt =====
-- Signing up for the plans that merchants have registered.
use mathlib.Core.Path.{subst}
use eventop.Base.{
  ℕ, ℤ, ◌+◌, ◌*◌, ◌≤◌, ◌<◌, ◌≡◌, ◌≢◌, refl, ◌∙◌, arith, true, false, ◌↔◌, Option, none, some, List,
  [], ◌∷◌, Text, length, is_empty, inl, inr, Bool-cases, ltb, ltb→lt,
}
use eventop.Base.Assoc.{find}
use eventop.Runtime.Result.{ok, >>=-ok, >>=-eq-ok, ok_of_ne_err}
use eventop.Runtime.Word.{u32_mod, u64_mod}
use eventop.Runtime.Token.{Ledger}
use eventop.Runtime.Anchor.{Pubkey, Solana}
use eventop.Runtime.Laws.{IsSolana}
use eventop.Outcome.{Outcome}
use eventop.State.SubscriptionWallet.{SubscriptionWallet, wallet_seeds}
use eventop.State.SubscriptionState.{subscription_seeds}
use eventop.State.SessionToken.{SessionTokenTracker, session_seeds}
use eventop.State.MerchantPlan.{MerchantPlan}
use eventop.Subscription.Subscribe
use eventop.Subscription.Subscribe.{SubscribeWithWallet, tracker_or_new, subscribe_with_wallet}
use eventop.Subscription.Signup.{subscribe-IsSubscribed}
use eventop.World.{World, Transaction, Message, subscribe, new_world}
use eventop.World.Load.{is_in, signer_at, load, load_new, save, tokens_at}
use eventop.World.Accounts.{load_signup}
use eventop.World.Exec.{exec, registry_subscribed, serve}
use eventop.World.Links.{IsLinked}
use eventop.World.Linked.{serve-IsLinked}

-- The accounts of a sign-up, by key.
pub record SignupKeys : Type 0 where
  pub subscription : Pubkey
  pub tracker : Pubkey
  pub wallet : Pubkey
  pub plan : Pubkey
  pub wallet_tokens : Pubkey

-- The sign-up of the owner of the wallet `v`.
abbrev pub signup_of : SubscriptionWallet → SignupKeys → Text → Message
signup_of v keys token =
    subscribe keys.subscription keys.tracker keys.wallet keys.plan v.owner keys.wallet_tokens token

-- The wallet and the plan are stored, the subscription and the tracker stand at their addresses, the
-- wallet's owner signs, the token account is the wallet's, and no number overflows.
pub record IsJoinable (solana : Solana) (w : World) (signers : List Pubkey) (v : SubscriptionWallet)
    (p : MerchantPlan) (keys : SignupKeys) (token : Text) (bump tracker_bump : ℕ) : Type 0 where
  pub wallet : find keys.wallet w.registry.wallets ≡ some v
  pub plan : find keys.plan w.plans ≡ some p
  pub subscription_address :
      solana.find_program_address (subscription_seeds v.owner p.merchant p.mint)
      ≡ some (keys.subscription, bump)
  pub tracker_address :
      solana.find_program_address (session_seeds token) ≡ some (keys.tracker, tracker_bump)
  pub signed : is_in v.owner signers ≡ true
  pub tokens_owner : (w.ledger keys.wallet_tokens).owner ≡ keys.wallet
  pub tokens_mint : (w.ledger keys.wallet_tokens).mint ≡ v.mint
  pub reserve_fits : p.fee_amount * 3 < u64_mod
  pub wallet_count_fits : v.total_subscriptions + 1 < u32_mod
  pub plan_count_fits : p.total_subscribers + 1 < u32_mod

-- Nothing is stored for the subscription or the token yet, the token is not empty, and the wallet's
-- token account holds three fees.
abbrev pub MayJoin : World → MerchantPlan → SignupKeys → Text → Type 0
MayJoin w p keys token =
    (find keys.subscription w.registry.subscriptions ≡ none)
    × (find keys.tracker w.registry.trackers ≡ none)
    × (token ≢ [])
    × (p.fee_amount * 3 ≤ (w.ledger keys.wallet_tokens).amount)

is_empty-eq : (t : Text) → t ≢ [] → is_empty t ≡ false
is_empty-eq [] h = absurd (h refl)
is_empty-eq (x ∷ t) h = refl

-- A stored tracker is used.
unused_none :
    (t : Option SessionTokenTracker)
    → ((s : SessionTokenTracker) → t ≡ some s → s.is_used ≡ true)
    → (tracker_or_new t).is_used ≡ false
    → t ≡ none
unused_none none all h = refl
unused_none (some s) all h = absurd (cc (all s refl, h))

module _ {solana : Solana} (laws : IsSolana solana) (w : World) (linked : IsLinked solana w)
    (signers : List Pubkey) (now : ℤ) (v : SubscriptionWallet) (p : MerchantPlan)
    (keys : SignupKeys) (token : Text) (bump tracker_bump : ℕ)
    (joinable : IsJoinable solana w signers v p keys token bump tracker_bump) where
  open laws use {create_found, find_too_long}

  abbrev joining : SubscribeWithWallet
  joining = record {
    subscription_state = load_new keys.subscription w.registry.subscriptions;
    session_token_tracker = load_new keys.tracker w.registry.trackers;
    subscription_wallet = record { key = keys.wallet; state = v };
    merchant_plan = record { key = keys.plan; state = p };
    user = signer_at signers v.owner;
    wallet_token_account = tokens_at w keys.wallet_tokens;
  }

  joining_loaded :
      load_signup signers w keys.subscription keys.tracker keys.wallet keys.plan v.owner
        keys.wallet_tokens
      ≡ ok joining
  unfolding load_signup load
  joining_loaded = ground (arith, joinable.wallet, joinable.plan)

  short_token : length token ≤ 32
  short_token = elim (Bool-cases (ltb 32 (length token))) [
    | inl long ↦
        absurd (
          cc
            (joinable.tracker_address, find_too_long (session_seeds token) (inl (ltb→lt _ _ long))))
    | inr short ↦ ground arith
  ]

  joining_checked :
      MayJoin w p keys token
      → Subscribe.try_accounts solana joining token
        ≡ ok (record { subscription_state = bump; session_token_tracker = tracker_bump })
  unfolding Subscribe.try_accounts
  joining_checked may =
      let wallet =
        create_found (wallet_seeds v.owner v.mint) keys.wallet v.bump
          (linked.wallets keys.wallet v joinable.wallet).address in
      let open_plan = (linked.plans keys.plan p joinable.plan).active in
      ground (arith, joinable, may)

  joining_handled :
      (b : Subscribe.Bumps)
      → MayJoin w p keys token
      → (o : Outcome SubscribeWithWallet) × (Subscribe.handler joining b token now w.ledger ≡ ok o)
  unfolding Subscribe.handler
  joining_handled b (fresh, unused, named, reserve) =
      let open_plan = (linked.plans keys.plan p joinable.plan).active in
      let some_token = is_empty-eq token named in
      let short = short_token in
      ok_of_ne_err (Subscribe.handler joining b token now w.ledger)
        λ e bad. ground (arith, joinable)

  join-ok :
      MayJoin w p keys token
      → (w' : World) × (exec solana signers now w (signup_of v keys token) ≡ ok w')
  unfolding exec subscribe_with_wallet
  join-ok may =
      let b : Subscribe.Bumps = record {
        subscription_state = bump;
        session_token_tracker = tracker_bump;
      } in
      let (o, done) = joining_handled b may in
      (
        record w {
          plans = save o.accounts.merchant_plan w.plans;
          registry = registry_subscribed o w.registry;
          ledger = o.ledger;
        },
        >>=-ok _ joining_loaded ∙ >>=-ok _ (>>=-ok _ (joining_checked may) ∙ done),
      )

  ok-join :
      {w' : World}
      → exec solana signers now w (signup_of v keys token) ≡ ok w'
      → MayJoin w p keys token
  unfolding exec
  ok-join h =
      let (ctx, found, rest) =
        >>=-eq-ok
          (load_signup signers w keys.subscription keys.tracker keys.wallet keys.plan v.owner
            keys.wallet_tokens)
          _ h in
      let (o, done, _) = >>=-eq-ok (subscribe_with_wallet solana ctx token now w.ledger) _ rest in
      let agreed = joining_loaded in
      let same : ctx ≡ joining = cc in
      let (facts, _) = subscribe-IsSubscribed solana joining token now w.ledger (
        subst
          (λ (ctx : SubscribeWithWallet).
            subscribe_with_wallet solana ctx token now w.ledger ≡ ok o)
          same done) in
      (
        facts.fresh,
        unused_none (find keys.tracker w.registry.trackers)
            (λ s there. (linked.trackers keys.tracker s there).used) facts.unused,
        facts.named,
        facts.reserve,
      )

-- In every world that transactions reach from nothing, for every stored wallet and plan: the sign-up of
-- the wallet's owner for the plan, with any session token that has an address, goes through exactly if
-- no subscription of that user to that merchant in that mint is stored, the token has never been
-- tracked, it is not empty, and the wallet's token account holds three fees. That is so where the
-- owner signs, the accounts are the derived ones, the token account is the wallet's and has its mint,
-- and three fees and both counts fit their types.
pub served_signup_iff :
    {solana : Solana} (laws : IsSolana solana) (l : Ledger) (bytes : Pubkey → Text)
    (ts : List Transaction) (signers : List Pubkey) (now : ℤ) (v : SubscriptionWallet)
    (p : MerchantPlan) (keys : SignupKeys) (token : Text) (bump tracker_bump : ℕ)
    → IsJoinable solana
        (serve solana (new_world l bytes) ts)
        signers
        v
        p
        keys
        token
        bump
        tracker_bump
    → ((w : World) × (exec solana signers now
            (serve solana (new_world l bytes) ts)
            (signup_of v keys token)
          ≡ ok w))
      ↔ MayJoin (serve solana (new_world l bytes) ts) p keys token
served_signup_iff {solana} laws l bytes ts signers now v p keys token bump tracker_bump joinable =
    let w = serve solana (new_world l bytes) ts in
    let linked = serve-IsLinked solana l bytes ts in
    (
      λ h. ok-join laws w linked signers now v p keys token bump tracker_bump joinable h.1,
      join-ok laws w linked signers now v p keys token bump tracker_bump joinable,
    )
