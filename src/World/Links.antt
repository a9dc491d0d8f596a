-- ===== src/World/Links.antt =====
-- How the stored accounts refer to each other.
use mathlib.Core.Path.{subst}
use eventop.Base.{◌≡◌, sym, arith, true, Option, some, List}
use eventop.Base.Assoc.{find, Unique}
use eventop.Base.Each.{Each, Grows, put-Each}
use eventop.Runtime.Anchor.{Account, Pubkey, Solana}
use eventop.State.YieldVault.{YieldVault}
use eventop.State.MerchantPlan.{MerchantPlan}
use eventop.State.SubscriptionWallet.{SubscriptionWallet}
use eventop.State.SubscriptionState.{SubscriptionState, subscription_seeds}
use eventop.World.{World}
use eventop.World.Load.{save, save_new}
use eventop.World.Kept.{SameVault, SameWallet, SamePlan, SameSubscription, Rewrites}
use eventop.World.Made.{ConfigFits, VaultFits, WalletFits, PlanFits}
use eventop.World.Opened.{TrackerFits}
use eventop.World.Loaded.{IsStored}

-- The wallet that a subscription is charged to is there, and is its user's.
abbrev pub HasWallet : List (Pubkey × SubscriptionWallet) → SubscriptionState → Type 0
HasWallet wallets s =
    (v : SubscriptionWallet) × (find s.subscription_wallet wallets ≡ some v) × (v.owner ≡ s.user)

-- The terms of a subscription are its plan's, which is open for payments.
abbrev pub HasTerms : MerchantPlan → SubscriptionState → Type 0
HasTerms p s =
    (p.merchant ≡ s.merchant)
    × (p.mint ≡ s.mint)
    × (p.fee_amount ≡ s.fee_amount)
    × (p.payment_interval ≡ s.payment_interval)
    × (p.is_active ≡ true)

abbrev pub HasPlan : List (Pubkey × MerchantPlan) → SubscriptionState → Type 0
HasPlan plans s = (p : MerchantPlan) × (find s.merchant_plan plans ≡ some p) × (HasTerms p s)

module _ (solana : Solana) where
  pub record SubscriptionFits (w : World) (k : Pubkey) (s : SubscriptionState) : Type 0 where
    pub address :
        solana.find_program_address (subscription_seeds s.user s.merchant s.mint) ≡ some (k, s.bump)
    pub active : s.is_active ≡ true
    pub wallet : HasWallet w.registry.wallets s
    pub plan : HasPlan w.plans s

  -- Every account stands at the address that its fields derive and is within its ranges, and every
  -- subscription has its wallet and its plan.
  pub record IsLinked (w : World) : Type 0 where
    pub configs : Each (ConfigFits solana) w.configs
    pub vaults : Each (VaultFits solana) w.vaults
    pub plans : Each (PlanFits solana) w.plans
    pub wallets : Each (WalletFits solana) w.registry.wallets
    pub subscriptions : Each (SubscriptionFits w) w.registry.subscriptions
    pub trackers : Each (TrackerFits solana) w.registry.trackers
    pub unique : Unique w.registry.subscriptions

  pub vault-fits :
      (k : Pubkey) (v v' : YieldVault)
      → SameVault v v'
      → VaultFits solana k v
      → VaultFits solana k v'
  vault-fits k v v' same fits = record {
    address = ground (arith, fits);
    target = ground (arith, fits);
  }

  pub wallet-fits :
      (k : Pubkey) (v v' : SubscriptionWallet)
      → SameWallet v v'
      → WalletFits solana k v
      → WalletFits solana k v'
  wallet-fits k v v' same fits = record { address = ground (arith, fits) }

  pub plan-fits :
      (k : Pubkey) (p p' : MerchantPlan)
      → SamePlan p p'
      → PlanFits solana k p
      → PlanFits solana k p'
  plan-fits k p p' same fits = record {
    address = ground (arith, fits);
    id_length = ground (arith, fits);
    name_length = ground (arith, fits);
    fee = ground (arith, fits);
    interval = ground (arith, fits);
    active = ground (arith, fits);
  }

  -- Wallets and plans that stay keep the subscriptions linked.
  pub subscription-stays :
      (w w' : World) (k : Pubkey) (s : SubscriptionState)
      → Grows SameWallet w.registry.wallets w'.registry.wallets
      → Grows SamePlan w.plans w'.plans
      → SubscriptionFits w k s
      → SubscriptionFits w' k s
  subscription-stays w w' k s wallets plans fits =
      let (v, there, owner) = fits.wallet in
      let (v', there', same) = wallets s.subscription_wallet v there in
      let (p, posted, terms) = fits.plan in
      let (p', posted', as_before) = plans s.merchant_plan p posted in
      record {
        address = fits.address;
        active = fits.active;
        wallet = (v', there', ground arith);
        plan = (p', posted', ground arith);
      }

  pub subscription-fits :
      (w : World) (k : Pubkey) (s s' : SubscriptionState)
      → SameSubscription s s'
      → SubscriptionFits w k s
      → SubscriptionFits w k s'
  subscription-fits w k s s' same fits =
      let (v, there, owner) = fits.wallet in
      let (p, posted, terms) = fits.plan in
      record {
        address = ground (arith, fits);
        active = ground (arith, fits);
        wallet = (v, ground arith, ground arith);
        plan = (p, ground arith, ground arith);
      }

module _ {ℓ κ} {V : Type ℓ} (P : Pubkey → V → Type κ) (m : List (Pubkey × V)) where
  pub save-Each {μ} :
      (R : V → V → Type μ) (a a' : Account V)
      → ((k : Pubkey) (v v' : V) → R v v' → P k v → P k v')
      → IsStored a m
      → Rewrites R a a'
      → Each P m
      → Each P (save a' m)
  save-Each R a a' keeps stored (key, related) each =
      put-Each P a'.key a'.state m
        (subst (λ k. P k a'.state) (sym key)
          (keeps a.key a.state a'.state related (each a.key a.state stored)))
        each

  pub save_new-Each :
      (k : Pubkey) (a' : Account (Option V))
      → {v : V} → a' ≡ record { key = k; state = some v }
      → P k v
      → Each P m
      → Each P (save_new a' m)
  save_new-Each k a' {v} made p each =
      subst (λ b. Each P (save_new b m)) (sym made) (put-Each P k v m p each)
