-- ===== src/World/Fits.antt =====
-- What an instruction writes back is linked as what it has read.
use eventop.Base.{ℕ, ◌≡◌, sym, arith, Option, none, some, List}
use eventop.Base.Each.{Each, put-Each, Each-map}
use eventop.Runtime.Result.{ok}
use eventop.Runtime.Token.{Ledger}
use eventop.Runtime.Anchor.{Account, Pubkey, Solana}
use eventop.Outcome.{Outcome}
use eventop.State.YieldVault.{YieldVault}
use eventop.State.SubscriptionState.{SubscriptionState}
use eventop.Protocol.Fees.{update_protocol_fee_lem}
use eventop.Protocol.UpdateProtocolFee.{UpdateProtocolFee, update_protocol_fee}
use eventop.Subscription.Subscribe.{SubscribeWithWallet}
use eventop.World.{World}
use eventop.World.Load.{save, save_optional}
use eventop.World.Kept.{Rewrites, SameVault, SameWallet, SamePlan, fee-Rewrites}
use eventop.World.Made.{ConfigFits, VaultFits, WalletFits, PlanFits}
use eventop.World.Opened.{OpenedOn}
use eventop.World.Loaded.{IsStored, AreStored}
use eventop.World.Identity.{IsKept}
use eventop.State.SubscriptionWallet.{SubscriptionWallet}
use eventop.State.MerchantPlan.{MerchantPlan}
use eventop.World.Links.{
  SubscriptionFits, vault-fits, wallet-fits, plan-fits, subscription-stays, save-Each,
}

module _ (solana : Solana) where
  pub stay :
      {w w' : World} (m : List (Pubkey × SubscriptionState))
      → IsKept w w'
      → Each (SubscriptionFits solana w) m
      → Each (SubscriptionFits solana w') m
  stay {w} {w'} m kept each =
      Each-map (SubscriptionFits solana w) (SubscriptionFits solana w') m
        (λ k s. subscription-stays solana w w' k s kept.wallets kept.plans) each

  pub fee-fits :
      (ctx : UpdateProtocolFee) (bps : ℕ) (l : Ledger) {o : Outcome UpdateProtocolFee}
      → update_protocol_fee solana ctx bps l ≡ ok o
      → ConfigFits solana ctx.protocol_config.key ctx.protocol_config.state
      → ConfigFits solana o.accounts.protocol_config.key o.accounts.protocol_config.state
  fee-fits ctx bps l h fits =
      let (key, same) = fee-Rewrites solana ctx bps l h in
      let facts = update_protocol_fee_lem solana ctx bps l h in
      record { address = ground (arith, fits); fee = ground arith }

  pub optional-fits :
      (m : List (Pubkey × YieldVault)) (a : Option (Account YieldVault))
      → AreStored a m
      → Each (VaultFits solana) m
      → Each (VaultFits solana) (save_optional a m)
  optional-fits m none stored each = each
  optional-fits m (some a) stored each =
      put-Each (VaultFits solana) a.key a.state m (each a.key a.state stored) each

  -- A new subscription is linked to the accounts that it was opened on.
  pub opened-fits :
      (w w' : World) (ctx : SubscribeWithWallet) (k : Pubkey) (s : SubscriptionState)
      → IsStored ctx.subscription_wallet w.registry.wallets
      → IsStored ctx.merchant_plan w.plans
      → Each (PlanFits solana) w.plans
      → IsKept w w'
      → OpenedOn solana ctx k s
      → SubscriptionFits solana w' k s
  opened-fits w w' ctx k s stored plan_stored plans kept on =
      let fits = plans ctx.merchant_plan.key ctx.merchant_plan.state plan_stored in
      let before : SubscriptionFits solana w k s = record {
        address = on.address;
        active = on.active;
        wallet = (ctx.subscription_wallet.state, rw (on.wallet) stored, sym on.user);
        plan = (
          ctx.merchant_plan.state,
          rw (on.plan) plan_stored,
          (sym on.merchant, sym on.mint, sym on.fee, sym on.interval, fits.active),
        );
      } in
      subscription-stays solana w w' k s kept.wallets kept.plans before

  pub vault_saved-Each :
      (m : List (Pubkey × YieldVault)) (a a' : Account YieldVault)
      → IsStored a m
      → Rewrites SameVault a a'
      → Each (VaultFits solana) m
      → Each (VaultFits solana) (save a' m)
  vault_saved-Each m a a' = save-Each (VaultFits solana) m SameVault a a' (vault-fits solana)

  pub wallet_saved-Each :
      (m : List (Pubkey × SubscriptionWallet)) (a a' : Account SubscriptionWallet)
      → IsStored a m
      → Rewrites SameWallet a a'
      → Each (WalletFits solana) m
      → Each (WalletFits solana) (save a' m)
  wallet_saved-Each m a a' = save-Each (WalletFits solana) m SameWallet a a' (wallet-fits solana)

  pub plan_saved-Each :
      (m : List (Pubkey × MerchantPlan)) (a a' : Account MerchantPlan)
      → IsStored a m
      → Rewrites SamePlan a a'
      → Each (PlanFits solana) m
      → Each (PlanFits solana) (save a' m)
  plan_saved-Each m a a' = save-Each (PlanFits solana) m SamePlan a a' (plan-fits solana)
