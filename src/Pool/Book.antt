-- ===== src/Pool/Book.antt =====
-- The pool seen as a book of shares: how many are issued, and who holds how many. The book forgets
-- how wallets and vault are stored, and everything in them but the shares.
use mathlib.Core.Path.{subst}
use eventop.Base.{
  ℕ, ◌+◌, ◌-◌, ◌≡◌, ◌≢◌, ◌⊎◌, ◌∙◌, refl, sym, ap, inl, inr, arith, true, Option, none, some,
  Bool-cases, leb, leb→le, ==_iff,
}
use eventop.Base.Assoc.{find, put, find-put, find-All}
use eventop.Runtime.Anchor.{Pubkey, Account, Solana}
use eventop.State.SubscriptionWallet.{SubscriptionWallet}
use eventop.State.YieldVault.{YieldVault}
use eventop.YieldOps.Shares.{IsSettled, run-SharesMoved}
use eventop.Subscription.PaymentFees.{handler_of_payment}
use eventop.Subscription.PaymentEffect.{payment-IsCharged}
use eventop.VaultManagement.RebalanceVault.{RebalanceVault}
use eventop.Funds.Moves.{trade-IsAuthorised}
use eventop.Pool.{
  Pool, store, store_vault, store_optional, IsStored, Step, trade, pay, create, subscribe, cancel,
  switch, rebalance, Reachable,
}
use eventop.Pool.Kept.{
  Kept, run_key, payment-Kept, subscribe-Kept, cancel-Kept, switch_shares, rebalance_shares,
}
use eventop.Pool.Balance.{IsBalanced, Reachable-IsBalanced, created_empty}

pub record Book : Type 0 where
  pub issued : ℕ
  pub held : Pubkey → ℕ

abbrev pub holding : Option SubscriptionWallet → ℕ
holding none = 0
holding (some w) = w.yield_shares

-- A wallet that does not exist holds nothing.
abbrev pub book : Pool → Book
book p = record {
  issued = p.vault.state.total_shares_issued;
  held = λ k. holding (find k p.wallets);
}

-- What may happen to a book in a step of the wallet `trader`, or in a step of none.
pub data BookStep (trader : Option Pubkey) (b b' : Book) : Type 0 where
  keep : b'.issued ≡ b.issued → ((k : Pubkey) → b'.held k ≡ b.held k) → BookStep trader b b'
  issue :
      (w : Pubkey) (n : ℕ)
      → trader ≡ some w
      → b'.issued ≡ b.issued + n
      → b'.held w ≡ b.held w + n
      → ((k : Pubkey) → k ≢ w → b'.held k ≡ b.held k)
      → BookStep trader b b'
  retire :
      (w : Pubkey) (n : ℕ)
      → trader ≡ some w
      → b'.issued + n ≡ b.issued
      → b'.held w + n ≡ b.held w
      → ((k : Pubkey) → k ≢ w → b'.held k ≡ b.held k)
      → BookStep trader b b'

-- The wallet of a yield instruction.
abbrev pub trader_of : {solana : Solana} {p q : Pool} → Step solana p q → Option Pubkey
trader_of (trade ctx r l o _ _ _ _) = some ctx.subscription_wallet.key
trader_of _ = none

-- The wallet's owner has signed a yield instruction.
abbrev pub OwnerSigns : {solana : Solana} {p q : Pool} → Step solana p q → Type 0
OwnerSigns (trade ctx r l o _ _ _ _) =
    (ctx.owner.is_signer ≡ true) × (ctx.subscription_wallet.state.owner ≡ ctx.owner.key)
OwnerSigns _ = Unit

-- The wallet at a key is stored with other shares.
others_keep :
    (p : Pool) (w' : Account SubscriptionWallet) (k : Pubkey)
    → k ≢ w'.key
    → holding (find k (put w'.key w'.state p.wallets)) ≡ holding (find k p.wallets)
others_keep p w' k other = ground (arith, find-put k w'.key w'.state p.wallets, ==_iff k w'.key)

now_holds :
    (p : Pool) (w' : Account SubscriptionWallet)
    → holding (find w'.key (put w'.key w'.state p.wallets)) ≡ w'.state.yield_shares
now_holds p w' = ground (arith, find-put w'.key w'.key w'.state p.wallets)

stored-BookStep :
    (trader : Option Pubkey) (p : Pool) (w w' : Account SubscriptionWallet)
    → IsStored p w
    → Kept w w'
    → BookStep trader (book p) (book (store w' p))
stored-BookStep trader p w w' stored (key, shares, _) =
    keep refl λ k. ground (arith, find-put k w'.key w'.state p.wallets, stored)

traded-BookStep :
    (p : Pool) (v : Account YieldVault) (w w' : Account SubscriptionWallet)
    → IsStored p w
    → w'.key ≡ w.key
    → v.state.total_shares_issued + w.state.yield_shares
      ≡ p.vault.state.total_shares_issued + w'.state.yield_shares
    → BookStep (some w.key) (book p) (book (store w' (store_vault v p)))
traded-BookStep p v w w' stored key moved =
    let before : holding (find w'.key p.wallets) ≡ w.state.yield_shares =
      ap holding (ap (λ (k : Pubkey). find k p.wallets) key ∙ stored) in
    let after = now_holds p w' in
    elim (Bool-cases (leb w.state.yield_shares w'.state.yield_shares)) [
      | inl more ↦
          let le = leb→le w.state.yield_shares w'.state.yield_shares more in
          issue w'.key (w'.state.yield_shares - w.state.yield_shares) (ap some (sym key))
            (omega arith) (omega (arith, before, after)) (others_keep p w')
      | inr less ↦
          retire w'.key (w.state.yield_shares - w'.state.yield_shares) (ap some (sym key))
            (ground arith) (ground (arith, before, after)) (others_keep p w')
    ]

created-BookStep :
    (p : Pool) (k : Pubkey) (w : SubscriptionWallet)
    → find k p.wallets ≡ none
    → w.yield_shares ≡ 0
    → BookStep none (book p) (book (store (record { key = k; state = w }) p))
created-BookStep p k w fresh empty = keep refl λ j. ground (arith, find-put j k w p.wallets)

paid-BookStep :
    (p : Pool) (v v' : Option (Account YieldVault)) (w w' : Account SubscriptionWallet)
    → (v ≡ none) ⊎ (v ≡ some p.vault)
    → v' ≡ v
    → IsStored p w
    → Kept w w'
    → BookStep none (book p) (book (store w' (store_optional v' p)))
paid-BookStep p v v' w w' (inl absent) same stored kept =
    rw (same, absent) (stored-BookStep none p w w' stored kept)
paid-BookStep p v v' w w' (inr present) same stored kept =
    rw (same, present) (stored-BookStep none p w w' stored kept)

Step-BookStep :
    {solana : Solana} {p q : Pool} (st : Step solana p q)
    → IsBalanced p
    → BookStep (trader_of st) (book p) (book q)
Step-BookStep {solana} {p} (trade ctx r l o loaded stored done e) b =
    let w = ctx.subscription_wallet in
    let settled = find-All IsSettled w.key w.state p.wallets b.settled stored in
    let (moved, _) = run-SharesMoved solana ctx r l settled done in
    let shares = ap (λ (v : Account YieldVault). v.state.total_shares_issued) loaded in
    subst (λ q. BookStep (some w.key) (book p) (book q)) (sym e)
      (traded-BookStep p o.accounts.yield_vault w o.accounts.subscription_wallet stored
        (run_key solana ctx r l done) (omega (arith, moved, shares)))
Step-BookStep {solana} {p} (pay ctx now l o given stored done e) b =
    let kept = payment-Kept solana ctx now l (handler_of_payment solana ctx now l done) in
    subst (λ q. BookStep none (book p) (book q)) (sym e)
      (paid-BookStep p ctx.yield_vault o.accounts.yield_vault ctx.subscription_wallet
        o.accounts.subscription_wallet given (payment-IsCharged solana ctx now l done).same_vault
        stored kept)
Step-BookStep {solana} {p} (create ctx l o w fresh done made e) b =
    subst (λ q. BookStep none (book p) (book q)) (sym e)
      (created-BookStep p ctx.subscription_wallet.key w fresh
        (created_empty solana ctx l o w done made))
Step-BookStep {solana} {p} (subscribe ctx token now l o stored done e) b =
    subst (λ q. BookStep none (book p) (book q)) (sym e)
      (stored-BookStep none p ctx.subscription_wallet o.accounts.subscription_wallet stored
        (subscribe-Kept solana ctx token now l done))
Step-BookStep {solana} {p} (cancel ctx l o stored done e) b =
    subst (λ q. BookStep none (book p) (book q)) (sym e)
      (stored-BookStep none p ctx.subscription_wallet o.accounts.subscription_wallet stored
        (cancel-Kept solana ctx l done))
Step-BookStep {solana} {p} (switch ctx enabled l o loaded done e) b =
    let same = switch_shares solana ctx enabled l done in
    let shares = ap (λ (v : Account YieldVault). v.state.total_shares_issued) loaded in
    subst (λ q. BookStep none (book p) (book q)) (sym e) (keep (same ∙ shares) (λ k. refl))
Step-BookStep {solana} {p} (rebalance ctx l o loaded done e) b =
    let same =
      ap (λ (c : RebalanceVault). c.yield_vault.state.total_shares_issued)
        (rebalance_shares solana ctx l done) in
    let shares = ap (λ (v : Account YieldVault). v.state.total_shares_issued) loaded in
    subst (λ q. BookStep none (book p) (book q)) (sym e) (keep (same ∙ shares) (λ k. refl))

Step-OwnerSigns : {solana : Solana} {p q : Pool} (st : Step solana p q) → OwnerSigns st
Step-OwnerSigns {solana} (trade ctx r l o _ _ done _) = trade-IsAuthorised solana ctx r l done
Step-OwnerSigns (pay ctx now l o given stored done e) = tt
Step-OwnerSigns (create ctx l o w fresh done made e) = tt
Step-OwnerSigns (subscribe ctx token now l o stored done e) = tt
Step-OwnerSigns (cancel ctx l o stored done e) = tt
Step-OwnerSigns (switch ctx enabled l o loaded done e) = tt
Step-OwnerSigns (rebalance ctx l o loaded done e) = tt

-- In a pool that the program can reach, every step is a step of the book of shares: it leaves the
-- book as it is, or issues shares to one wallet or retires shares of one wallet. The latter two
-- happen only in a yield instruction of that wallet, which its owner has signed.
pub Reachable-BookStep :
    {solana : Solana} {p q : Pool}
    → Reachable solana p
    → (st : Step solana p q) → BookStep (trader_of st) (book p) (book q) × OwnerSigns st
Reachable-BookStep reached st =
    (Step-BookStep st (Reachable-IsBalanced reached), Step-OwnerSigns st)
