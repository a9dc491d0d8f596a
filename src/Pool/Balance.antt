-- ===== src/Pool/Balance.antt =====
-- The shares that a vault has issued are the shares that its wallets hold.
use mathlib.Core.Path.{subst}
use eventop.Base.{◌⊎◌, ℤ, ℕ, ◌+◌, ◌≡◌, ◌∙◌, sym, ap, inl, inr, arith, some, List, [], ◌∷◌, none}
use eventop.Base.Assoc.{find, sum_of, All, sum_of-put, sum_of-put_new, put-All, find-All}
use eventop.Runtime.Result.{ok}
use eventop.Runtime.Token.{Ledger}
use eventop.Runtime.Anchor.{Account, Pubkey, Solana}
use eventop.State.SubscriptionWallet.{SubscriptionWallet}
use eventop.State.YieldVault.{YieldVault}
use eventop.Outcome.{Outcome}
use eventop.Protocol.InitializeYieldVault
use eventop.Protocol.InitializeYieldVault.{InitializeYieldVault, initialize_yield_vault}
use eventop.Wallet.CreateWallet
use eventop.Wallet.CreateWallet.{CreateSubscriptionWallet, create_subscription_wallet}
use eventop.YieldOps.Accounts.{YieldAccounts}
use eventop.YieldOps.Request.{Request, run}
use eventop.YieldOps.Shares.{IsSettled, run-SharesMoved}
use eventop.Subscription.ExecutePayment.{ExecutePaymentFromWallet, execute_payment_from_wallet}
use eventop.Subscription.PaymentEffect.{payment-IsCharged}
use eventop.Subscription.PaymentFees.{handler_of_payment}
use eventop.VaultManagement.RebalanceVault.{RebalanceVault}
use eventop.Pool.{
  Pool, store, store_vault, store_optional, IsStored, HoldsNothing, Step, trade, pay, create,
  subscribe, cancel, switch, rebalance, Reachable, start, next,
}
use eventop.Pool.Kept.{
  Kept, run_key, payment-Kept, subscribe-Kept, cancel-Kept, switch_shares, rebalance_shares,
}

abbrev pub shares_of : SubscriptionWallet → ℕ
shares_of w = w.yield_shares

pub record IsBalanced (p : Pool) : Type 0 where
  pub issued : p.vault.state.total_shares_issued ≡ sum_of shares_of p.wallets
  pub settled : All IsSettled p.wallets

-- A wallet's shares and the vault's total change by the same number.
store-IsBalanced :
    (p : Pool) (v : Account YieldVault) (w : Account SubscriptionWallet) (old : SubscriptionWallet)
    → IsBalanced p
    → find w.key p.wallets ≡ some old
    → v.state.total_shares_issued + old.yield_shares
      ≡ p.vault.state.total_shares_issued + w.state.yield_shares
    → IsSettled w.state
    → IsBalanced (store w (store_vault v p))
store-IsBalanced p v w old b found moved s = record {
  issued = omega (arith, sum_of-put shares_of w.key w.state old p.wallets found, b.issued);
  settled = put-All IsSettled w.key w.state p.wallets s b.settled;
}

-- A wallet whose shares are as they were.
Kept-IsBalanced :
    (p : Pool) (w w' : Account SubscriptionWallet)
    → IsBalanced p
    → IsStored p w
    → Kept w w'
    → IsBalanced (store w' p)
Kept-IsBalanced p w w' b stored (key, shares, enabled) =
    let before = find-All IsSettled w.key w.state p.wallets b.settled stored in
    let settled : IsSettled w'.state = elim before [
      | inl e ↦ inl (enabled ∙ e)
      | inr z ↦ inr (shares ∙ z)
    ] in
    store-IsBalanced p p.vault w' w.state b (rw key stored) (omega (arith, shares)) settled

vault-IsBalanced :
    (p : Pool) (v : Account YieldVault)
    → IsBalanced p
    → v.state.total_shares_issued ≡ p.vault.state.total_shares_issued
    → IsBalanced (store_vault v p)
vault-IsBalanced p v b same = record { issued = same ∙ b.issued; settled = b.settled }

pub created_empty :
    (solana : Solana) (ctx : CreateSubscriptionWallet) (l : Ledger)
    (o : Outcome CreateSubscriptionWallet) (w : SubscriptionWallet)
    → create_subscription_wallet solana ctx l ≡ ok o
    → o.accounts.subscription_wallet.state ≡ some w
    → w.yield_shares ≡ 0
unfolding create_subscription_wallet CreateWallet.handler
created_empty solana ctx l o w done made = ground arith

issued_none :
    (solana : Solana) (ctx : InitializeYieldVault) (bps : ℕ) (l : Ledger)
    (o : Outcome InitializeYieldVault) (v : YieldVault)
    → initialize_yield_vault solana ctx bps l ≡ ok o
    → o.accounts.yield_vault.state ≡ some v
    → v.total_shares_issued ≡ 0
unfolding initialize_yield_vault InitializeYieldVault.handler
issued_none solana ctx bps l o v done made = ground arith

sum_of-nothing :
    (wallets : List (Pubkey × SubscriptionWallet))
    → All HoldsNothing wallets
    → sum_of shares_of wallets ≡ 0
sum_of-nothing [] h = omega arith
sum_of-nothing (w ∷ wallets) (empty, h) = omega (arith, empty, sum_of-nothing wallets h)

none_held :
    (wallets : List (Pubkey × SubscriptionWallet))
    → All HoldsNothing wallets
    → All IsSettled wallets
none_held [] h = tt
none_held (w ∷ wallets) (empty, h) = (inr empty, none_held wallets h)

module _ (solana : Solana) (p : Pool) (b : IsBalanced p) where
  trade-IsBalanced :
      (ctx : YieldAccounts) (r : Request) (l : Ledger) (o : Outcome YieldAccounts)
      → ctx.yield_vault ≡ p.vault
      → IsStored p ctx.subscription_wallet
      → run solana ctx r l ≡ ok o
      → IsBalanced (store o.accounts.subscription_wallet (store_vault o.accounts.yield_vault p))
  trade-IsBalanced ctx r l o loaded stored done =
      let w = ctx.subscription_wallet in
      let before = find-All IsSettled w.key w.state p.wallets b.settled stored in
      let (moved, settled) = run-SharesMoved solana ctx r l before done in
      let found =
        subst (λ k. find k p.wallets ≡ some w.state) (sym (run_key solana ctx r l done)) stored in
      let shares = ap (λ (v : Account YieldVault). v.state.total_shares_issued) loaded in
      store-IsBalanced p o.accounts.yield_vault o.accounts.subscription_wallet w.state b found
        (omega (arith, moved, shares)) settled

  pay-IsBalanced :
      (ctx : ExecutePaymentFromWallet) (now : ℤ) (l : Ledger) (o : Outcome ExecutePaymentFromWallet)
      → (ctx.yield_vault ≡ none) ⊎ (ctx.yield_vault ≡ some p.vault)
      → IsStored p ctx.subscription_wallet
      → execute_payment_from_wallet solana ctx now l ≡ ok o
      → IsBalanced (store o.accounts.subscription_wallet (store_optional o.accounts.yield_vault p))
  pay-IsBalanced ctx now l o given stored done =
      let kept = payment-Kept solana ctx now l (handler_of_payment solana ctx now l done) in
      let vault = (payment-IsCharged solana ctx now l done).same_vault in
      let balanced =
        Kept-IsBalanced p ctx.subscription_wallet o.accounts.subscription_wallet b stored kept in
      elim given [
        | inl absent ↦ rw (vault, absent) balanced
        | inr present ↦ rw (vault, present) balanced
      ]

  create-IsBalanced :
      (ctx : CreateSubscriptionWallet) (l : Ledger) (o : Outcome CreateSubscriptionWallet)
      (w : SubscriptionWallet)
      → find ctx.subscription_wallet.key p.wallets ≡ none
      → create_subscription_wallet solana ctx l ≡ ok o
      → o.accounts.subscription_wallet.state ≡ some w
      → IsBalanced (store (record { key = ctx.subscription_wallet.key; state = w }) p)
  create-IsBalanced ctx l o w fresh done made =
      let empty = created_empty solana ctx l o w done made in
      let k = ctx.subscription_wallet.key in
      record {
        issued = omega (arith, sum_of-put_new shares_of k w p.wallets fresh, b.issued, empty);
        settled = put-All IsSettled k w p.wallets (inr empty) b.settled;
      }

-- What the program does to the pool keeps the balance.
Step-IsBalanced : {solana : Solana} {p q : Pool} → Step solana p q → IsBalanced p → IsBalanced q
Step-IsBalanced {solana} {p} (trade ctx r l o loaded stored done e) b =
    subst IsBalanced (sym e) (trade-IsBalanced solana p b ctx r l o loaded stored done)
Step-IsBalanced {solana} {p} (pay ctx now l o given stored done e) b =
    subst IsBalanced (sym e) (pay-IsBalanced solana p b ctx now l o given stored done)
Step-IsBalanced {solana} {p} (create ctx l o w fresh done made e) b =
    subst IsBalanced (sym e) (create-IsBalanced solana p b ctx l o w fresh done made)
Step-IsBalanced {solana} {p} (subscribe ctx token now l o stored done e) b =
    let kept = subscribe-Kept solana ctx token now l done in
    subst IsBalanced (sym e)
      (Kept-IsBalanced p ctx.subscription_wallet o.accounts.subscription_wallet b stored kept)
Step-IsBalanced {solana} {p} (cancel ctx l o stored done e) b =
    let kept = cancel-Kept solana ctx l done in
    subst IsBalanced (sym e)
      (Kept-IsBalanced p ctx.subscription_wallet o.accounts.subscription_wallet b stored kept)
Step-IsBalanced {solana} {p} (switch ctx enabled l o loaded done e) b =
    let same = switch_shares solana ctx enabled l done in
    let shares = ap (λ (v : Account YieldVault). v.state.total_shares_issued) loaded in
    subst IsBalanced (sym e) (vault-IsBalanced p o.accounts.yield_vault b (same ∙ shares))
Step-IsBalanced {solana} {p} (rebalance ctx l o loaded done e) b =
    let same =
      ap (λ (c : RebalanceVault). c.yield_vault.state.total_shares_issued)
        (rebalance_shares solana ctx l done) in
    let shares = ap (λ (v : Account YieldVault). v.state.total_shares_issued) loaded in
    subst IsBalanced (sym e) (vault-IsBalanced p o.accounts.yield_vault b (same ∙ shares))

-- In every pool that the program can reach from a new vault and wallets without shares, the shares
-- that the vault has issued are the sum of the wallets' shares, and a wallet that does not earn
-- yield holds none.
pub Reachable-IsBalanced : {solana : Solana} {p : Pool} → Reachable solana p → IsBalanced p
Reachable-IsBalanced {solana} (start ctx bps l o v wallets done made empty e) =
    subst IsBalanced (sym e) (record {
      issued = issued_none solana ctx bps l o v done made ∙ sym (sum_of-nothing wallets empty);
      settled = none_held wallets empty;
    })
Reachable-IsBalanced (next before step) = Step-IsBalanced step (Reachable-IsBalanced before)
