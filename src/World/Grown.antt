-- ===== src/World/Grown.antt =====
-- What an instruction writes back is the account that it has read, in its list.
use mathlib.Core.Path.{subst}
use eventop.Base.{◌≡◌, refl, sym, ◌∙◌, false, Option, none, some, List}
use eventop.Base.Assoc.{find}
use eventop.Base.Each.{Grows, put-Grows, Grows-refl}
use eventop.Runtime.Token.{Ledger}
use eventop.Runtime.Anchor.{Account, Pubkey, Solana}
use eventop.State.YieldVault.{YieldVault}
use eventop.State.SessionToken.{SessionTokenTracker}
use eventop.Subscription.Subscribe.{tracker_or_new}
use eventop.Pool.Kept.{rebalance_shares}
use eventop.VaultManagement.RebalanceVault.{RebalanceVault, rebalance_vault}
use eventop.Runtime.Result.{ok}
use eventop.Outcome.{Outcome}
use eventop.World.Load.{save_new, save_optional}
use eventop.World.Kept.{SameVault, SameWallet, SamePlan, SameTracker, Rewrites}
use eventop.World.Opened.{Marks}
use eventop.World.Identity.{save-Grows, vault_same, wallet_same, plan_same}
use eventop.World.Loaded.{AreStored}
use eventop.World.Loaded.{IsStored}
use eventop.State.SubscriptionWallet.{SubscriptionWallet}
use eventop.State.MerchantPlan.{MerchantPlan}
use eventop.World.Load.{save}

pub save_tracker-Grows :
    (m : List (Pubkey × SessionTokenTracker)) (a a' : Account (Option SessionTokenTracker))
    → a.state ≡ find a.key m
    → Marks a a'
    → Grows SameTracker m (save_new a' m)
save_tracker-Grows m a a' stored (unused, v, made, _) =
    subst (λ b. Grows SameTracker m (save_new b m)) (sym made)
      (put-Grows SameTracker a.key v m (λ u used. refl)
        λ u h used.
          let unmarked : (tracker_or_new (some u)).is_used ≡ false =
            subst (λ s. (tracker_or_new s).is_used ≡ false) (stored ∙ h) unused in
          absurd (cc (used, unmarked)))

pub optional-Grows :
    (m : List (Pubkey × YieldVault)) (a : Option (Account YieldVault))
    → AreStored a m
    → Grows SameVault m (save_optional a m)
optional-Grows m none stored = Grows-refl SameVault m vault_same
optional-Grows m (some a) stored =
    save-Grows SameVault vault_same m a a stored (refl, vault_same a.state)

pub rebalanced-Rewrites :
    (solana : Solana) (ctx : RebalanceVault) (l : Ledger) {o : Outcome RebalanceVault}
    → rebalance_vault solana ctx l ≡ ok o
    → Rewrites SameVault ctx.yield_vault o.accounts.yield_vault
rebalanced-Rewrites solana ctx l h =
    subst (λ (c : RebalanceVault). Rewrites SameVault ctx.yield_vault c.yield_vault)
      (sym (rebalance_shares solana ctx l h)) (refl, vault_same ctx.yield_vault.state)

pub vault_saved-Grows :
    (m : List (Pubkey × YieldVault)) (a a' : Account YieldVault)
    → IsStored a m
    → Rewrites SameVault a a'
    → Grows SameVault m (save a' m)
vault_saved-Grows m = save-Grows SameVault vault_same m

pub wallet_saved-Grows :
    (m : List (Pubkey × SubscriptionWallet)) (a a' : Account SubscriptionWallet)
    → IsStored a m
    → Rewrites SameWallet a a'
    → Grows SameWallet m (save a' m)
wallet_saved-Grows m = save-Grows SameWallet wallet_same m

pub plan_saved-Grows :
    (m : List (Pubkey × MerchantPlan)) (a a' : Account MerchantPlan)
    → IsStored a m
    → Rewrites SamePlan a a'
    → Grows SamePlan m (save a' m)
plan_saved-Grows m = save-Grows SamePlan plan_same m
