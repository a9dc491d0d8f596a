-- ===== src/World/Linked.antt =====
-- That every instruction keeps the stored accounts linked, and so every transaction.
use mathlib.Core.Path.{subst}
use eventop.Base.{ℤ, sym, List, Text}
use eventop.Base.Assoc.{Unique, put-Unique, remove-Unique}
use eventop.Base.Each.{Each, put-Each, remove-Each}
use eventop.Runtime.Token.{Ledger}
use eventop.Runtime.Anchor.{Pubkey, Solana}
use eventop.Subscription.PaymentEffect.{payment-IsCharged}
use eventop.World.{World, Transaction, new_world}
use eventop.World.Exec.{serve, registry_cancelled}
use eventop.World.Load.{save, save_new, save_optional}
use eventop.World.Kept.{
  SameSubscription, run-Rewrites, switch-Rewrites, subscribe-Rewrites, cancel-Rewrites,
  payment-Rewrites,
}
use eventop.World.Made.{
  ConfigFits, VaultFits, WalletFits, PlanFits, initialize-Makes, initialize_vault-Makes,
  create_wallet-Makes, register-Makes,
}
use eventop.World.Opened.{TrackerFits, subscribe-Makes, subscribe-Tracks, cancel_closes}
use eventop.World.Identity.{IsKept, IsKept-refl}
use eventop.World.Persistence.{Ran-IsKept, IsKept-elsewhere}
use eventop.World.Grown.{rebalanced-Rewrites}
use eventop.World.Steps.{
  Ran, moved, configured, fee_updated, vault_created, rebalanced, switched, registered,
  wallet_created, traded, subscribed, paid, cancelled,
}
use eventop.World.Keeps.{serve-keeps}
use eventop.World.Links.{IsLinked, SubscriptionFits, subscription-fits, save-Each, save_new-Each}
use eventop.World.Fits.{
  stay, fee-fits, optional-fits, opened-fits, vault_saved-Each, wallet_saved-Each, plan_saved-Each,
}

module _ (solana : Solana) where
  pub Ran-IsLinked :
      {now : ℤ} {w w' : World}
      → Ran solana now w w'
      → IsKept w w'
      → IsLinked solana w
      → IsLinked solana w'
  Ran-IsLinked {now} {w} (moved e) kept p = subst (IsLinked solana) (sym e) (record {
    configs = p.configs;
    vaults = p.vaults;
    plans = p.plans;
    wallets = p.wallets;
    subscriptions = stay solana w.registry.subscriptions (subst (IsKept w) e kept) p.subscriptions;
    trackers = p.trackers;
    unique = p.unique;
  })
  Ran-IsLinked {now} {w} (configured ctx bps o new done e) kept p =
      let (_, _, made, fits) = initialize-Makes solana ctx bps w.ledger done in
      subst (IsLinked solana) (sym e) (record {
        configs =
            save_new-Each (ConfigFits solana) w.configs ctx.protocol_config.key
              o.accounts.protocol_config made fits p.configs;
        vaults = p.vaults;
        plans = p.plans;
        wallets = p.wallets;
        subscriptions =
            stay solana w.registry.subscriptions (subst (IsKept w) e kept) p.subscriptions;
        trackers = p.trackers;
        unique = p.unique;
      })
  Ran-IsLinked {now} {w} (fee_updated ctx bps o stored done e) kept p =
      let fits =
        fee-fits solana ctx bps w.ledger done
          (p.configs ctx.protocol_config.key ctx.protocol_config.state stored) in
      subst (IsLinked solana) (sym e) (record {
        configs =
            put-Each (ConfigFits solana) o.accounts.protocol_config.key
              o.accounts.protocol_config.state w.configs fits p.configs;
        vaults = p.vaults;
        plans = p.plans;
        wallets = p.wallets;
        subscriptions =
            stay solana w.registry.subscriptions (subst (IsKept w) e kept) p.subscriptions;
        trackers = p.trackers;
        unique = p.unique;
      })
  Ran-IsLinked {now} {w} (vault_created ctx bps o new done e) kept p =
      let (_, _, made, (fits, _)) = initialize_vault-Makes solana ctx bps w.ledger done in
      subst (IsLinked solana) (sym e) (record {
        configs = p.configs;
        vaults =
            save_new-Each (VaultFits solana) w.vaults ctx.yield_vault.key o.accounts.yield_vault
              made fits p.vaults;
        plans = p.plans;
        wallets = p.wallets;
        subscriptions =
            stay solana w.registry.subscriptions (subst (IsKept w) e kept) p.subscriptions;
        trackers = p.trackers;
        unique = p.unique;
      })
  Ran-IsLinked {now} {w} (rebalanced ctx o stored done e) kept p =
      subst (IsLinked solana) (sym e) (record {
        configs = p.configs;
        vaults =
            vault_saved-Each solana w.vaults ctx.yield_vault o.accounts.yield_vault stored
              (rebalanced-Rewrites solana ctx w.ledger done) p.vaults;
        plans = p.plans;
        wallets = p.wallets;
        subscriptions =
            stay solana w.registry.subscriptions (subst (IsKept w) e kept) p.subscriptions;
        trackers = p.trackers;
        unique = p.unique;
      })
  Ran-IsLinked {now} {w} (switched ctx enabled o stored done e) kept p =
      subst (IsLinked solana) (sym e) (record {
        configs = p.configs;
        vaults =
            vault_saved-Each solana w.vaults ctx.yield_vault o.accounts.yield_vault stored
              (switch-Rewrites solana ctx enabled w.ledger done) p.vaults;
        plans = p.plans;
        wallets = p.wallets;
        subscriptions =
            stay solana w.registry.subscriptions (subst (IsKept w) e kept) p.subscriptions;
        trackers = p.trackers;
        unique = p.unique;
      })
  Ran-IsLinked {now} {w} (registered ctx terms o new done e) kept p =
      let (_, _, made, fits) = register-Makes solana ctx terms w.ledger done in
      subst (IsLinked solana) (sym e) (record {
        configs = p.configs;
        vaults = p.vaults;
        plans =
            save_new-Each (PlanFits solana) w.plans ctx.merchant_plan.key o.accounts.merchant_plan
              made fits p.plans;
        wallets = p.wallets;
        subscriptions =
            stay solana w.registry.subscriptions (subst (IsKept w) e kept) p.subscriptions;
        trackers = p.trackers;
        unique = p.unique;
      })
  Ran-IsLinked {now} {w} (wallet_created ctx o new done e) kept p =
      let (_, _, made, (fits, _)) = create_wallet-Makes solana ctx w.ledger done in
      subst (IsLinked solana) (sym e) (record {
        configs = p.configs;
        vaults = p.vaults;
        plans = p.plans;
        wallets =
            save_new-Each (WalletFits solana) w.registry.wallets ctx.subscription_wallet.key
              o.accounts.subscription_wallet made fits p.wallets;
        subscriptions =
            stay solana w.registry.subscriptions (subst (IsKept w) e kept) p.subscriptions;
        trackers = p.trackers;
        unique = p.unique;
      })
  Ran-IsLinked {now} {w} (traded ctx q o stored vault_stored done e) kept p =
      let (vault, wallet) = run-Rewrites solana ctx q w.ledger done in
      subst (IsLinked solana) (sym e) (record {
        configs = p.configs;
        vaults =
            vault_saved-Each solana w.vaults ctx.yield_vault o.accounts.yield_vault vault_stored
              vault p.vaults;
        plans = p.plans;
        wallets =
            wallet_saved-Each solana w.registry.wallets ctx.subscription_wallet
              o.accounts.subscription_wallet stored wallet p.wallets;
        subscriptions =
            stay solana w.registry.subscriptions (subst (IsKept w) e kept) p.subscriptions;
        trackers = p.trackers;
        unique = p.unique;
      })
  Ran-IsLinked {now} {w} (subscribed ctx token o new seen stored plan_stored done e) kept p =
      let (wallet, plan) = subscribe-Rewrites solana ctx token now w.ledger done in
      let (_, s, made, on) = subscribe-Makes solana ctx token now w.ledger done in
      let (_, tracked, tracks) = subscribe-Tracks solana ctx token now w.ledger done in
      let after = subst (IsKept w) e kept in
      subst (IsLinked solana) (sym e) (record {
        configs = p.configs;
        vaults = p.vaults;
        plans =
            plan_saved-Each solana w.plans ctx.merchant_plan o.accounts.merchant_plan plan_stored
              plan p.plans;
        wallets =
            wallet_saved-Each solana w.registry.wallets ctx.subscription_wallet
              o.accounts.subscription_wallet stored wallet p.wallets;
        subscriptions =
            save_new-Each (SubscriptionFits solana _) w.registry.subscriptions
              ctx.subscription_state.key o.accounts.subscription_state made
              (opened-fits solana w _ ctx ctx.subscription_state.key s stored plan_stored p.plans
                after on)
              (stay solana w.registry.subscriptions after p.subscriptions);
        trackers =
            save_new-Each (TrackerFits solana) w.registry.trackers ctx.session_token_tracker.key
              o.accounts.session_token_tracker tracked tracks p.trackers;
        unique =
            subst (λ a. Unique (save_new a w.registry.subscriptions)) (sym made)
              (put-Unique ctx.subscription_state.key s w.registry.subscriptions p.unique);
      })
  Ran-IsLinked {now} {w} (paid ctx o sub_stored stored vault_stored done e) kept p =
      let (wallet, subscription) = payment-Rewrites solana ctx now w.ledger done in
      let same = (payment-IsCharged solana ctx now w.ledger done).same_vault in
      let after = subst (IsKept w) e kept in
      subst (IsLinked solana) (sym e) (record {
        configs = p.configs;
        vaults =
            subst (λ v. Each (VaultFits solana) (save_optional v w.vaults)) (sym same)
              (optional-fits solana w.vaults ctx.yield_vault vault_stored p.vaults);
        plans = p.plans;
        wallets =
            wallet_saved-Each solana w.registry.wallets ctx.subscription_wallet
              o.accounts.subscription_wallet stored wallet p.wallets;
        subscriptions =
            save-Each (SubscriptionFits solana _) w.registry.subscriptions SameSubscription
              ctx.subscription_state o.accounts.subscription_state (subscription-fits solana _)
              sub_stored subscription (stay solana w.registry.subscriptions after p.subscriptions);
        trackers = p.trackers;
        unique =
            put-Unique o.accounts.subscription_state.key o.accounts.subscription_state.state
              w.registry.subscriptions p.unique;
      })
  Ran-IsLinked {now} {w} (cancelled ctx o sub_stored stored plan_stored done e) kept p =
      let (wallet, plan) = cancel-Rewrites solana ctx w.ledger done in
      let closed : World = record w {
        plans = save o.accounts.merchant_plan w.plans;
        registry = registry_cancelled o w.registry;
        ledger = o.ledger;
      } in
      let gone = cancel_closes solana ctx w.ledger done in
      let after = subst (IsKept w) e kept in
      subst (IsLinked solana) (sym e) (record {
        configs = p.configs;
        vaults = p.vaults;
        plans =
            plan_saved-Each solana w.plans ctx.merchant_plan o.accounts.merchant_plan plan_stored
              plan p.plans;
        wallets =
            wallet_saved-Each solana w.registry.wallets ctx.subscription_wallet
              o.accounts.subscription_wallet stored wallet p.wallets;
        subscriptions =
            subst (λ a. Each (SubscriptionFits solana closed) (save_new a w.registry.subscriptions))
              (sym gone)
              (remove-Each (SubscriptionFits solana _) ctx.subscription_state.key
                w.registry.subscriptions p.unique
                (stay solana w.registry.subscriptions after p.subscriptions));
        trackers = p.trackers;
        unique =
            subst (λ a. Unique (save_new a w.registry.subscriptions)) (sym gone)
              (remove-Unique ctx.subscription_state.key w.registry.subscriptions p.unique);
      })

  pub IsLinked-elsewhere :
      {w : World} {l : Ledger} {bytes : Pubkey → Text}
      → IsLinked solana w
      → IsLinked solana (record w { ledger = l; contents = bytes })
  IsLinked-elsewhere {w} p = record {
    configs = p.configs;
    vaults = p.vaults;
    plans = p.plans;
    wallets = p.wallets;
    subscriptions =
        stay solana w.registry.subscriptions (IsKept-elsewhere (IsKept-refl w)) p.subscriptions;
    trackers = p.trackers;
    unique = p.unique;
  }

pub new_world-IsLinked :
    (solana : Solana) (l : Ledger) (bytes : Pubkey → Text) → IsLinked solana (new_world l bytes)
new_world-IsLinked solana l bytes = record {
  configs = λ k c found. cc;
  vaults = λ k v found. cc;
  plans = λ k p found. cc;
  wallets = λ k v found. cc;
  subscriptions = λ k s found. cc;
  trackers = λ k t found. cc;
  unique = tt;
}

-- In every world that transactions reach from nothing, each stored configuration, vault, plan, wallet,
-- subscription and session-token tracker stands at the address that its own fields derive, with the
-- bump that it records; fees and buffer targets are in their ranges; each tracker is used; and each
-- subscription is active, is charged to a stored wallet of its user, and has the merchant, the mint,
-- the fee and the interval of a stored, active plan.
pub serve-IsLinked :
    (solana : Solana) (l : Ledger) (bytes : Pubkey → Text) (ts : List Transaction)
    → IsLinked solana (serve solana (new_world l bytes) ts)
serve-IsLinked solana l bytes ts =
    serve-keeps (IsLinked solana) (λ now w w' step p. Ran-IsLinked solana step (Ran-IsKept step) p)
      (λ w l bytes p. IsLinked-elsewhere solana p) (new_world l bytes) ts
      (new_world-IsLinked solana l bytes)
