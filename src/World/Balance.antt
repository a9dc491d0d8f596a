-- ===== src/World/Balance.antt =====
-- That every instruction keeps the shares balanced in each mint, and so every transaction.
use mathlib.Core.Path.{subst}
use eventop.Base.{
  ℤ, ◌≡◌, refl, sym, ◌∙◌, ap, arith, inr, Option, none, some, List, [], ◌∷◌, ◌++◌, Text,
}
use eventop.Base.Assoc.{sum_of, All, put-All, find-All}
use eventop.Runtime.Result.{ok}
use eventop.Runtime.Token.{Ledger}
use eventop.Runtime.Anchor.{Account, Pubkey, Solana, bump_byte}
use eventop.Runtime.Laws.{IsSolana}
use eventop.Outcome.{Outcome}
use eventop.State.YieldVault.{YieldVault, vault_seeds}
use eventop.YieldOps.Accounts
use eventop.YieldOps.Accounts.{YieldAccounts}
use eventop.YieldOps.Request.{Request, enable, deposit, withdraw, disable, run}
use eventop.YieldOps.EnableYield
use eventop.YieldOps.DepositToYield
use eventop.YieldOps.WithdrawFromYield
use eventop.YieldOps.DisableYield
use eventop.YieldOps.Shares.{IsSettled, run-SharesMoved}
use eventop.Subscription.PaymentEffect.{payment-IsCharged}
use eventop.Subscription.PaymentFees.{handler_of_payment}
use eventop.VaultManagement.RebalanceVault.{RebalanceVault}
use eventop.Pool.Kept.{payment-Kept, subscribe-Kept, cancel-Kept, switch_shares, rebalance_shares}
use eventop.World.{World, Transaction, new_world}
use eventop.World.Exec.{serve}
use eventop.World.Load.{save, save_new, save_optional}
use eventop.World.Kept.{
  Rewrites, SameVault, run-Rewrites, switch-Rewrites, subscribe-Rewrites, cancel-Rewrites,
  payment-Rewrites,
}
use eventop.World.Made.{initialize_vault-Makes, create_wallet-Makes}
use eventop.World.Loaded.{IsStored, AreStored}
use eventop.World.Persistence.{Ran-IsKept}
use eventop.World.Grown.{rebalanced-Rewrites}
use eventop.World.Links.{IsLinked}
use eventop.World.Linked.{Ran-IsLinked, IsLinked-elsewhere, new_world-IsLinked}
use eventop.World.Steps.{
  Ran, moved, configured, fee_updated, vault_created, rebalanced, switched, registered,
  wallet_created, traded, subscribed, paid, cancelled,
}
use eventop.World.Keeps.{serve-keeps}
use eventop.World.Shares.{
  AreBalanced, VaultsApart, holding, issue, held, issued, sum_of-save, sum_of-save_new, weights,
  issue_same, issue_none, holding_none, wallet-AreBalanced,
}

run_accounts :
    (solana : Solana) (ctx : YieldAccounts) (q : Request) (l : Ledger) {o : Outcome YieldAccounts}
    → run solana ctx q l ≡ ok o
    → Accounts.try_accounts solana ctx ≡ ok tt
unfolding run EnableYield.enable_yield DepositToYield.deposit_to_yield
    WithdrawFromYield.withdraw_from_yield DisableYield.disable_yield
run_accounts solana ctx (enable n) l h = ground arith
run_accounts solana ctx (deposit n) l h = ground arith
run_accounts solana ctx (withdraw n) l h = ground arith
run_accounts solana ctx disable l h = ground arith

vault_address :
    (solana : Solana) (ctx : YieldAccounts)
    → Accounts.try_accounts solana ctx ≡ ok tt
    → solana.create_program_address (
        vault_seeds ctx.subscription_wallet.state.mint
        ++ (bump_byte ctx.yield_vault.state.bump ∷ []))
      ≡ some ctx.yield_vault.key
unfolding Accounts.try_accounts
vault_address solana ctx h = ground arith

module _ {solana : Solana} (laws : IsSolana solana) (apart : VaultsApart solana) where
  open laws use {create_found}

  -- A wallet trades with the vault of its own mint.
  pub same_mint :
      (w : World) (ctx : YieldAccounts) (q : Request) (l : Ledger) {o : Outcome YieldAccounts}
      → IsLinked solana w
      → IsStored ctx.yield_vault w.vaults
      → run solana ctx q l ≡ ok o
      → ctx.yield_vault.state.mint ≡ ctx.subscription_wallet.state.mint
  same_mint w ctx q l linked stored h =
      let v = ctx.yield_vault in
      let made =
        create_found (vault_seeds v.state.mint) v.key v.state.bump
          (linked.vaults v.key v.state stored).address in
      apart v.state.mint ctx.subscription_wallet.state.mint v.state.bump v.key made
        (vault_address solana ctx (run_accounts solana ctx q l h))

  traded-AreBalanced :
      (w : World) (ctx : YieldAccounts) (q : Request) (o : Outcome YieldAccounts)
      → IsLinked solana w
      → AreBalanced w
      → IsStored ctx.subscription_wallet w.registry.wallets
      → IsStored ctx.yield_vault w.vaults
      → run solana ctx q w.ledger ≡ ok o
      → ((mint : Pubkey)
          → sum_of (holding mint) (save o.accounts.subscription_wallet w.registry.wallets)
            ≡ sum_of (issue mint) (save o.accounts.yield_vault w.vaults))
        × All IsSettled (save o.accounts.subscription_wallet w.registry.wallets)
  traded-AreBalanced w ctx q o linked b stored vault_stored h =
      let a = ctx.subscription_wallet in
      let a' = o.accounts.subscription_wallet in
      let before = find-All IsSettled a.key a.state w.registry.wallets b.settled stored in
      let (shares, settled) = run-SharesMoved solana ctx q w.ledger before h in
      let ((vault_key, vault), (wallet_key, wallet)) = run-Rewrites solana ctx q w.ledger h in
      (
        λ mint. omega (
          arith,
          sum_of-save (holding mint) a a' w.registry.wallets stored wallet_key,
          sum_of-save (issue mint) ctx.yield_vault o.accounts.yield_vault w.vaults vault_stored
              vault_key,
          weights mint a.state a'.state ctx.yield_vault.state o.accounts.yield_vault.state wallet.2
              vault.1 (same_mint w ctx q w.ledger linked vault_stored h) shares,
          b.balanced mint,
        ),
        put-All IsSettled a'.key a'.state w.registry.wallets settled b.settled,
      )

-- A vault that is written back with its total and its mint.
vault-AreBalanced :
    (w : World) (a a' : Account YieldVault)
    → IsStored a w.vaults
    → Rewrites SameVault a a'
    → a'.state.total_shares_issued ≡ a.state.total_shares_issued
    → AreBalanced w
    → (mint : Pubkey) → held mint w ≡ sum_of (issue mint) (save a' w.vaults)
vault-AreBalanced w a a' stored (key, same) shares b mint = omega (
  arith,
  sum_of-save (issue mint) a a' w.vaults stored key,
  issue_same mint a.state a'.state same.1 shares,
  b.balanced mint,
)

-- A payment leaves the vault as it is.
optional-AreBalanced :
    (w : World) (a : Option (Account YieldVault))
    → AreStored a w.vaults
    → (mint : Pubkey) → sum_of (issue mint) (save_optional a w.vaults) ≡ issued mint w
optional-AreBalanced w none stored mint = refl
optional-AreBalanced w (some a) stored mint =
    omega (arith, sum_of-save (issue mint) a a w.vaults stored refl)

module _ {solana : Solana} (laws : IsSolana solana) (apart : VaultsApart solana) where
  Ran-AreBalanced :
      {now : ℤ} {w w' : World}
      → Ran solana now w w'
      → IsLinked solana w
      → AreBalanced w
      → AreBalanced w'
  Ran-AreBalanced {now} {w} (moved e) linked b =
      subst AreBalanced (sym e) (record { balanced = b.balanced; settled = b.settled })
  Ran-AreBalanced {now} {w} (configured ctx bps o new done e) linked b =
      subst AreBalanced (sym e) (record { balanced = b.balanced; settled = b.settled })
  Ran-AreBalanced {now} {w} (fee_updated ctx bps o stored done e) linked b =
      subst AreBalanced (sym e) (record { balanced = b.balanced; settled = b.settled })
  Ran-AreBalanced {now} {w} (vault_created ctx bps o new done e) linked b =
      let (fresh, v, made, (_, none_issued)) =
        initialize_vault-Makes solana ctx bps w.ledger done in
      subst AreBalanced (sym e) (record {
        balanced = λ mint. omega (
          arith,
          sum_of-save_new (issue mint) ctx.yield_vault o.accounts.yield_vault w.vaults new fresh
              made,
          issue_none mint v none_issued,
          b.balanced mint,
        );
        settled = b.settled;
      })
  Ran-AreBalanced {now} {w} (rebalanced ctx o stored done e) linked b =
      let same =
        ap (λ (c : RebalanceVault). c.yield_vault.state.total_shares_issued)
          (rebalance_shares solana ctx w.ledger done) in
      subst AreBalanced (sym e) (record {
        balanced =
            vault-AreBalanced w ctx.yield_vault o.accounts.yield_vault stored
              (rebalanced-Rewrites solana ctx w.ledger done) same b;
        settled = b.settled;
      })
  Ran-AreBalanced {now} {w} (switched ctx enabled o stored done e) linked b =
      subst AreBalanced (sym e) (record {
        balanced =
            vault-AreBalanced w ctx.yield_vault o.accounts.yield_vault stored
              (switch-Rewrites solana ctx enabled w.ledger done)
              (switch_shares solana ctx enabled w.ledger done) b;
        settled = b.settled;
      })
  Ran-AreBalanced {now} {w} (registered ctx terms o new done e) linked b =
      subst AreBalanced (sym e) (record { balanced = b.balanced; settled = b.settled })
  Ran-AreBalanced {now} {w} (wallet_created ctx o new done e) linked b =
      let (fresh, v, made, (_, none_held)) = create_wallet-Makes solana ctx w.ledger done in
      subst AreBalanced (sym e) (record {
        balanced = λ mint. omega (
          arith,
          sum_of-save_new (holding mint) ctx.subscription_wallet o.accounts.subscription_wallet
              w.registry.wallets new fresh made,
          holding_none mint v none_held,
          b.balanced mint,
        );
        settled =
            subst (λ a. All IsSettled (save_new a w.registry.wallets)) (sym made)
              (put-All IsSettled ctx.subscription_wallet.key v w.registry.wallets (inr none_held)
                b.settled);
      })
  Ran-AreBalanced {now} {w} (traded ctx q o stored vault_stored done e) linked b =
      let (balanced, settled) =
        traded-AreBalanced laws apart w ctx q o linked b stored vault_stored done in
      subst AreBalanced (sym e) (record { balanced = balanced; settled = settled })
  Ran-AreBalanced {now} {w} (subscribed ctx token o new seen stored plan_stored done e) linked b =
      let (key, shares, enabled) = subscribe-Kept solana ctx token now w.ledger done in
      let ((_, wallet), _) = subscribe-Rewrites solana ctx token now w.ledger done in
      let (balanced, settled) =
        wallet-AreBalanced w ctx.subscription_wallet o.accounts.subscription_wallet stored key
          wallet.2 shares enabled b in
      subst AreBalanced (sym e) (record { balanced = balanced; settled = settled })
  Ran-AreBalanced {now} {w} (paid ctx o sub_stored stored vault_stored done e) linked b =
      let (key, shares, enabled) =
        payment-Kept solana ctx now w.ledger (handler_of_payment solana ctx now w.ledger done) in
      let ((_, wallet), _) = payment-Rewrites solana ctx now w.ledger done in
      let same = (payment-IsCharged solana ctx now w.ledger done).same_vault in
      let (balanced, settled) =
        wallet-AreBalanced w ctx.subscription_wallet o.accounts.subscription_wallet stored key
          wallet.2 shares enabled b in
      subst AreBalanced (sym e) (record {
        balanced = λ mint.
            balanced mint
            ∙ sym (optional-AreBalanced w ctx.yield_vault vault_stored mint)
            ∙ ap (λ v. sum_of (issue mint) (save_optional v w.vaults)) (sym same);
        settled = settled;
      })
  Ran-AreBalanced {now} {w} (cancelled ctx o sub_stored stored plan_stored done e) linked b =
      let (key, shares, enabled) = cancel-Kept solana ctx w.ledger done in
      let ((_, wallet), _) = cancel-Rewrites solana ctx w.ledger done in
      let (balanced, settled) =
        wallet-AreBalanced w ctx.subscription_wallet o.accounts.subscription_wallet stored key
          wallet.2 shares enabled b in
      subst AreBalanced (sym e) (record { balanced = balanced; settled = settled })

  -- Where no two mints have a vault at one address: in every world that transactions reach from nothing, the shares
  -- that the wallets of a mint hold are the shares that the vaults of that mint have issued, for every
  -- mint, and a wallet that does not earn yield holds none.
  pub serve-AreBalanced :
      (l : Ledger) (bytes : Pubkey → Text) (ts : List Transaction)
      → AreBalanced (serve solana (new_world l bytes) ts)
  serve-AreBalanced l bytes ts =
      (serve-keeps (λ w. IsLinked solana w × AreBalanced w)
        (λ now w w' step p.
          (Ran-IsLinked solana step (Ran-IsKept step) p.0, Ran-AreBalanced step p.0 p.1))
        (λ w l bytes p. (
          IsLinked-elsewhere solana p.0,
          record { balanced = p.1.balanced; settled = p.1.settled },
        ))
        (new_world l bytes) ts
        (new_world-IsLinked solana l bytes, record { balanced = λ mint. refl; settled = tt })).1
