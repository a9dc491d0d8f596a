-- ===== src/World/Persistence.antt =====
-- That every instruction keeps the accounts, and so every transaction.
use mathlib.Core.Path.{subst}
use eventop.Base.{ℤ, sym, List, Text}
use eventop.Base.Each.{Grows}
use eventop.Runtime.Token.{Ledger}
use eventop.Runtime.Anchor.{Pubkey, Solana}
use eventop.Subscription.PaymentEffect.{payment-IsCharged}
use eventop.World.{World, Transaction}
use eventop.World.Load.{save_optional}
use eventop.World.Exec.{serve}
use eventop.World.Kept.{
  SameConfig, SameVault, SameWallet, SamePlan, fee-Rewrites, run-Rewrites, switch-Rewrites,
  subscribe-Rewrites, cancel-Rewrites, payment-Rewrites,
}
use eventop.World.Made.{
  initialize-Makes, initialize_vault-Makes, create_wallet-Makes, register-Makes,
}
use eventop.World.Opened.{subscribe-Marks}
use eventop.World.Identity.{
  IsKept, IsKept-refl, IsKept-trans, save-Grows, save_new-Grows, config_same, vault_same,
  wallet_same, plan_same,
}
use eventop.World.Steps.{
  Ran, moved, configured, fee_updated, vault_created, rebalanced, switched, registered,
  wallet_created, traded, subscribed, paid, cancelled,
}
use eventop.World.Keeps.{serve-keeps}
use eventop.World.Grown.{
  save_tracker-Grows, optional-Grows, rebalanced-Rewrites, vault_saved-Grows, wallet_saved-Grows,
  plan_saved-Grows,
}

-- The token accounts and the bytes of other programs do not matter.
pub IsKept-elsewhere :
    {w u : World} {l : Ledger} {bytes : Pubkey → Text}
    → IsKept w u
    → IsKept w (record u { ledger = l; contents = bytes })
IsKept-elsewhere p = record {
  configs = p.configs;
  vaults = p.vaults;
  plans = p.plans;
  wallets = p.wallets;
  trackers = p.trackers;
}

-- An instruction that goes through keeps the accounts.
pub Ran-IsKept : {solana : Solana} {now : ℤ} {w w' : World} → Ran solana now w w' → IsKept w w'
Ran-IsKept {w} (moved e) = subst (IsKept w) (sym e) (IsKept-elsewhere (IsKept-refl w))
Ran-IsKept {solana} {w} (configured ctx bps o new done e) =
    let (fresh, _, made, _) = initialize-Makes solana ctx bps w.ledger done in
    let same = IsKept-refl w in
    subst (IsKept w) (sym e) (record {
      configs =
          save_new-Grows SameConfig config_same w.configs ctx.protocol_config
            o.accounts.protocol_config new fresh made;
      vaults = same.vaults;
      plans = same.plans;
      wallets = same.wallets;
      trackers = same.trackers;
    })
Ran-IsKept {solana} {now} {w} (fee_updated ctx bps o stored done e) =
    let same = IsKept-refl w in
    subst (IsKept w) (sym e) (record {
      configs =
          save-Grows SameConfig config_same w.configs ctx.protocol_config o.accounts.protocol_config
            stored (fee-Rewrites solana ctx bps w.ledger done);
      vaults = same.vaults;
      plans = same.plans;
      wallets = same.wallets;
      trackers = same.trackers;
    })
Ran-IsKept {solana} {now} {w} (vault_created ctx bps o new done e) =
    let (fresh, _, made, _) = initialize_vault-Makes solana ctx bps w.ledger done in
    let same = IsKept-refl w in
    subst (IsKept w) (sym e) (record {
      configs = same.configs;
      vaults =
          save_new-Grows SameVault vault_same w.vaults ctx.yield_vault o.accounts.yield_vault new
            fresh made;
      plans = same.plans;
      wallets = same.wallets;
      trackers = same.trackers;
    })
Ran-IsKept {solana} {now} {w} (rebalanced ctx o stored done e) =
    let same = IsKept-refl w in
    subst (IsKept w) (sym e) (record {
      configs = same.configs;
      vaults =
          vault_saved-Grows w.vaults ctx.yield_vault o.accounts.yield_vault stored
            (rebalanced-Rewrites solana ctx w.ledger done);
      plans = same.plans;
      wallets = same.wallets;
      trackers = same.trackers;
    })
Ran-IsKept {solana} {now} {w} (switched ctx enabled o stored done e) =
    let same = IsKept-refl w in
    subst (IsKept w) (sym e) (record {
      configs = same.configs;
      vaults =
          vault_saved-Grows w.vaults ctx.yield_vault o.accounts.yield_vault stored
            (switch-Rewrites solana ctx enabled w.ledger done);
      plans = same.plans;
      wallets = same.wallets;
      trackers = same.trackers;
    })
Ran-IsKept {solana} {now} {w} (registered ctx terms o new done e) =
    let (fresh, _, made, _) = register-Makes solana ctx terms w.ledger done in
    let same = IsKept-refl w in
    subst (IsKept w) (sym e) (record {
      configs = same.configs;
      vaults = same.vaults;
      plans =
          save_new-Grows SamePlan plan_same w.plans ctx.merchant_plan o.accounts.merchant_plan new
            fresh made;
      wallets = same.wallets;
      trackers = same.trackers;
    })
Ran-IsKept {solana} {now} {w} (wallet_created ctx o new done e) =
    let (fresh, _, made, _) = create_wallet-Makes solana ctx w.ledger done in
    let same = IsKept-refl w in
    subst (IsKept w) (sym e) (record {
      configs = same.configs;
      vaults = same.vaults;
      plans = same.plans;
      wallets =
          save_new-Grows SameWallet wallet_same w.registry.wallets ctx.subscription_wallet
            o.accounts.subscription_wallet new fresh made;
      trackers = same.trackers;
    })
Ran-IsKept {solana} {now} {w} (traded ctx q o stored vault_stored done e) =
    let (vault, wallet) = run-Rewrites solana ctx q w.ledger done in
    let same = IsKept-refl w in
    subst (IsKept w) (sym e) (record {
      configs = same.configs;
      vaults = vault_saved-Grows w.vaults ctx.yield_vault o.accounts.yield_vault vault_stored vault;
      plans = same.plans;
      wallets =
          wallet_saved-Grows w.registry.wallets ctx.subscription_wallet
            o.accounts.subscription_wallet stored wallet;
      trackers = same.trackers;
    })
Ran-IsKept {solana} {now} {w} (subscribed ctx token o new seen stored plan_stored done e) =
    let (wallet, plan) = subscribe-Rewrites solana ctx token now w.ledger done in
    let marks = subscribe-Marks solana ctx token now w.ledger done in
    let same = IsKept-refl w in
    subst (IsKept w) (sym e) (record {
      configs = same.configs;
      vaults = same.vaults;
      plans = plan_saved-Grows w.plans ctx.merchant_plan o.accounts.merchant_plan plan_stored plan;
      wallets =
          wallet_saved-Grows w.registry.wallets ctx.subscription_wallet
            o.accounts.subscription_wallet stored wallet;
      trackers =
          save_tracker-Grows w.registry.trackers ctx.session_token_tracker
            o.accounts.session_token_tracker seen marks;
    })
Ran-IsKept {solana} {now} {w} (paid ctx o sub_stored stored vault_stored done e) =
    let (wallet, subscription) = payment-Rewrites solana ctx now w.ledger done in
    let vault = (payment-IsCharged solana ctx now w.ledger done).same_vault in
    let same = IsKept-refl w in
    subst (IsKept w) (sym e) (record {
      configs = same.configs;
      vaults =
          subst (λ v. Grows SameVault w.vaults (save_optional v w.vaults)) (sym vault)
            (optional-Grows w.vaults ctx.yield_vault vault_stored);
      plans = same.plans;
      wallets =
          wallet_saved-Grows w.registry.wallets ctx.subscription_wallet
            o.accounts.subscription_wallet stored wallet;
      trackers = same.trackers;
    })
Ran-IsKept {solana} {now} {w} (cancelled ctx o sub_stored stored plan_stored done e) =
    let (wallet, plan) = cancel-Rewrites solana ctx w.ledger done in
    let same = IsKept-refl w in
    subst (IsKept w) (sym e) (record {
      configs = same.configs;
      vaults = same.vaults;
      plans = plan_saved-Grows w.plans ctx.merchant_plan o.accounts.merchant_plan plan_stored plan;
      wallets =
          wallet_saved-Grows w.registry.wallets ctx.subscription_wallet
            o.accounts.subscription_wallet stored wallet;
      trackers = same.trackers;
    })

-- No transaction removes a configuration, a vault, a plan, a wallet or the tracker of a session token,
-- or makes it anew: each is still there with its authority or owner, its mint, its token accounts and
-- its terms, what a wallet has spent has only grown, and a used session token stays used.
pub serve-IsKept :
    (solana : Solana) (w : World) (ts : List Transaction) → IsKept w (serve solana w ts)
serve-IsKept solana w ts =
    serve-keeps (λ v. IsKept w v) (λ now u v step p. IsKept-trans w u v p (Ran-IsKept step))
      (λ u l bytes p. IsKept-elsewhere p) w ts (IsKept-refl w)
