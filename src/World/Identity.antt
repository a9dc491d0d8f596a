-- ===== src/World/Identity.antt =====
-- What of the accounts no transaction changes.
use mathlib.Core.Path.{subst}
use mathlib.Core.Option.{some-injective}
use eventop.Base.{◌≡◌, refl, sym, ◌∙◌, arith, true, Option, none, some, List}
use eventop.Base.Assoc.{find}
use eventop.Base.Each.{Grows, put-Grows, Grows-refl, Grows-trans}
use eventop.Runtime.Anchor.{Account, Pubkey}
use eventop.State.ProtocolConfig.{ProtocolConfig}
use eventop.State.YieldVault.{YieldVault}
use eventop.State.MerchantPlan.{MerchantPlan}
use eventop.State.SubscriptionWallet.{SubscriptionWallet}
use eventop.State.SessionToken.{SessionTokenTracker}
use eventop.World.{World}
use eventop.World.Load.{save, save_new}
use eventop.World.Kept.{SameConfig, SameVault, SameWallet, SamePlan, SameTracker, Rewrites}
use eventop.World.Loaded.{IsStored}

-- Every account of `w` is still there in `w'`, and is the account that it was. Subscriptions, which
-- can be cancelled, are left out.
pub record IsKept (w w' : World) : Type 0 where
  pub configs : Grows SameConfig w.configs w'.configs
  pub vaults : Grows SameVault w.vaults w'.vaults
  pub plans : Grows SamePlan w.plans w'.plans
  pub wallets : Grows SameWallet w.registry.wallets w'.registry.wallets
  pub trackers : Grows SameTracker w.registry.trackers w'.registry.trackers

module _ {ℓ κ} {V : Type ℓ} (R : V → V → Type κ) (same : (v : V) → R v v)
    (m : List (Pubkey × V)) where
  pub save-Grows : (a a' : Account V) → IsStored a m → Rewrites R a a' → Grows R m (save a' m)
  save-Grows a a' stored (key, related) = put-Grows R a'.key a'.state m same λ v h.
      let here : v ≡ a.state =
        some-injective _ _ (sym h ∙ subst (λ k. find k m ≡ some a.state) (sym key) stored) in
      subst (λ u. R u a'.state) (sym here) related

  pub save_new-Grows :
      (a a' : Account (Option V))
      → a.state ≡ find a.key m
      → a.state ≡ none
      → {v : V} → a' ≡ record { key = a.key; state = some v }
      → Grows R m (save_new a' m)
  save_new-Grows a a' stored fresh {v} made =
      subst (λ b. Grows R m (save_new b m)) (sym made)
        (put-Grows R a.key v m same λ u h. absurd (cc (sym h ∙ sym stored ∙ fresh)))

pub config_same : (c : ProtocolConfig) → SameConfig c c
config_same c = (refl, refl, refl)

pub vault_same : (v : YieldVault) → SameVault v v
vault_same v = (refl, refl, refl, refl, refl, refl, refl)

pub wallet_same : (w : SubscriptionWallet) → SameWallet w w
wallet_same w = (refl, refl, refl, refl, omega arith)

pub plan_same : (p : MerchantPlan) → SamePlan p p
plan_same p = (refl, refl, refl, refl, refl, refl, refl, refl)

tracker_same : (t : SessionTokenTracker) → SameTracker t t
tracker_same t used = refl

pub IsKept-refl : (w : World) → IsKept w w
IsKept-refl w = record {
  configs = Grows-refl SameConfig w.configs config_same;
  vaults = Grows-refl SameVault w.vaults vault_same;
  plans = Grows-refl SamePlan w.plans plan_same;
  wallets = Grows-refl SameWallet w.registry.wallets wallet_same;
  trackers = Grows-refl SameTracker w.registry.trackers tracker_same;
}

pub IsKept-trans : (u v w : World) → IsKept u v → IsKept v w → IsKept u w
IsKept-trans u v w p q = record {
  configs =
      Grows-trans SameConfig u.configs v.configs w.configs (λ a b c h k. ground arith) p.configs
        q.configs;
  vaults =
      Grows-trans SameVault u.vaults v.vaults w.vaults (λ a b c h k. ground arith) p.vaults
        q.vaults;
  plans = Grows-trans SamePlan u.plans v.plans w.plans (λ a b c h k. ground arith) p.plans q.plans;
  wallets =
      Grows-trans SameWallet u.registry.wallets v.registry.wallets w.registry.wallets
        (λ a b c h k. ground arith) p.wallets q.wallets;
  trackers =
      Grows-trans SameTracker u.registry.trackers v.registry.trackers w.registry.trackers
        (λ a b c h k used.
          k (subst (λ (t : SessionTokenTracker). t.is_used ≡ true) (sym (h used)) used) ∙ h used)
        p.trackers q.trackers;
}
