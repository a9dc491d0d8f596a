-- ===== src/Registry/Spending.antt =====
-- `total_spent` of a wallet is what the payments of the history have charged it.
use eventop.Base.{
  ℕ, ℤ, ◌+◌, ◌≡◌, ◌∙◌, refl, sym, ap, arith, Option, none, some, List, Text, ◌==◌, if◌then◌else◌,
}
use mathlib.Core.Path.{subst}
use eventop.Base.Assoc.{find, put, find-put}
use eventop.Runtime.Result.{ok}
use eventop.Runtime.Token.{Ledger}
use eventop.Runtime.Anchor.{Pubkey, Account, Solana}
use eventop.State.SubscriptionWallet.{SubscriptionWallet}
use eventop.Outcome.{Outcome}
use eventop.YieldOps.Accounts.{YieldAccounts}
use eventop.YieldOps.Request.{Request, enable, deposit, withdraw, disable, run}
use eventop.YieldOps.EnableYield
use eventop.YieldOps.DepositToYield
use eventop.YieldOps.WithdrawFromYield
use eventop.YieldOps.DisableYield
use eventop.Wallet.CreateWallet
use eventop.Wallet.CreateWallet.{CreateSubscriptionWallet, create_subscription_wallet}
use eventop.Subscription.Subscribe
use eventop.Subscription.Subscribe.{SubscribeWithWallet, subscribe_with_wallet}
use eventop.Subscription.CancelSubscription
use eventop.Subscription.CancelSubscription.{
  CancelSubscriptionWallet, CancelledAccounts, cancel_subscription_wallet,
}
use eventop.Subscription.PaymentFees.{handler_of_payment}
use eventop.Subscription.PaymentEffect.{payment-IsCharged}
use eventop.Registry.{Registry, create, trade, subscribe, pay, cancel, Reachable, start, next}
use eventop.Registry.Effects.{create-CreatesWallet, payment-PaysOn}

-- The fees of the payments in a history that charge the wallet at a key.
abbrev pub charges :
    {solana : Solana} {r : Registry} {used : List Text} → Pubkey → Reachable solana r used → ℕ
charges k start = 0
charges k (next before (pay ctx _ _ _ _ _ _ _ _) _) =
    charges k before
    + (if k == ctx.subscription_wallet.key then ctx.subscription_state.state.fee_amount else 0)
charges k (next before _ _) = charges k before

abbrev spent : Option SubscriptionWallet → ℕ
spent none = 0
spent (some w) = w.total_spent

-- The wallet's account is written back under its key, with `n` more spent.
abbrev Spends : Account SubscriptionWallet → Account SubscriptionWallet → ℕ → Type 0
Spends w w' n = (w'.key ≡ w.key) × (w'.state.total_spent ≡ w.state.total_spent + n)

run-Spends :
    (solana : Solana) (ctx : YieldAccounts) (q : Request) (l : Ledger) {o : Outcome YieldAccounts}
    → run solana ctx q l ≡ ok o
    → Spends ctx.subscription_wallet o.accounts.subscription_wallet 0
unfolding run EnableYield.enable_yield DepositToYield.deposit_to_yield
    WithdrawFromYield.withdraw_from_yield DisableYield.disable_yield EnableYield.handler
    DepositToYield.handler WithdrawFromYield.handler DisableYield.handler
run-Spends solana ctx (enable n) l h = ground arith
run-Spends solana ctx (deposit n) l h = ground arith
run-Spends solana ctx (withdraw n) l h = ground arith
run-Spends solana ctx disable l h = ground arith

subscribe-Spends :
    (solana : Solana) (ctx : SubscribeWithWallet) (token : Text) (now : ℤ) (l : Ledger)
    {o : Outcome SubscribeWithWallet}
    → subscribe_with_wallet solana ctx token now l ≡ ok o
    → Spends ctx.subscription_wallet o.accounts.subscription_wallet 0
unfolding subscribe_with_wallet Subscribe.handler
subscribe-Spends solana ctx token now l h = ground arith

cancel-Spends :
    (solana : Solana) (ctx : CancelSubscriptionWallet) (l : Ledger) {o : Outcome CancelledAccounts}
    → cancel_subscription_wallet solana ctx l ≡ ok o
    → Spends ctx.subscription_wallet o.accounts.subscription_wallet 0
unfolding cancel_subscription_wallet CancelSubscription.handler
cancel-Spends solana ctx l h = ground arith

created_unspent :
    (solana : Solana) (ctx : CreateSubscriptionWallet) (l : Ledger)
    {o : Outcome CreateSubscriptionWallet} {w : SubscriptionWallet}
    → create_subscription_wallet solana ctx l ≡ ok o
    → o.accounts.subscription_wallet.state ≡ some w
    → w.total_spent ≡ 0
unfolding create_subscription_wallet CreateWallet.handler
created_unspent solana ctx l h e = ground arith

module _ (k : Pubkey) (m : List (Pubkey × SubscriptionWallet)) where
  spent-put :
      (w w' : Account SubscriptionWallet) (n : ℕ)
      → find w.key m ≡ some w.state
      → Spends w w' n
      → spent (find k (put w'.key w'.state m)) ≡ spent (find k m) + (if k == w.key then n else 0)
  spent-put w w' n stored (key, more) = ground (arith, find-put k w'.key w'.state m)

  spent-put_new :
      (j : Pubkey) (w : SubscriptionWallet)
      → find j m ≡ none
      → w.total_spent ≡ 0
      → spent (find k (put j w m)) ≡ spent (find k m)
  spent-put_new j w fresh zero = ground (arith, find-put k j w m)

  -- What is spent of the wallet that a step stores.
  spent-store :
      {m' : List (Pubkey × SubscriptionWallet)} (w w' : Account SubscriptionWallet) (n c : ℕ)
      → m' ≡ put w'.key w'.state m
      → find w.key m ≡ some w.state
      → Spends w w' n
      → spent (find k m) ≡ c
      → spent (find k m') ≡ c + (if k == w.key then n else 0)
  spent-store w w' n c e stored spends before = rw e (rw before at (spent-put w w' n stored spends))

  spent-keep :
      {m' : List (Pubkey × SubscriptionWallet)} (w w' : Account SubscriptionWallet) (c : ℕ)
      → m' ≡ put w'.key w'.state m
      → find w.key m ≡ some w.state
      → Spends w w' 0
      → spent (find k m) ≡ c
      → spent (find k m') ≡ c
  spent-keep w w' c e stored spends before =
      ground (arith, spent-store w w' 0 c e stored spends before)

Reachable-spent :
    {solana : Solana} {r : Registry} {used : List Text} (k : Pubkey) (h : Reachable solana r used)
    → spent (find k r.wallets) ≡ charges k h
Reachable-spent k start = refl
Reachable-spent {solana} k (next {r} before (create ctx l o w stored done made e _) _) =
    let fresh = (create-CreatesWallet solana ctx l done made).fresh in
    let zero_spent = created_unspent solana ctx l done made in
    subst (λ q. spent (find k q.wallets) ≡ charges k before) (sym e)
      (spent-put_new k r.wallets ctx.subscription_wallet.key w (sym stored ∙ fresh) zero_spent
        ∙ Reachable-spent k before)
Reachable-spent {solana} k (next {r} before (trade ctx q l o stored done e _) _) =
    spent-keep k r.wallets ctx.subscription_wallet o.accounts.subscription_wallet (charges k before)
      (ap (λ (q : Registry). q.wallets) e) stored (run-Spends solana ctx q l done)
      (Reachable-spent k before)
Reachable-spent {solana} k
      (next {r} before (subscribe ctx token now l o s t _ _ stored done _ _ e _) _) =
    spent-keep k r.wallets ctx.subscription_wallet o.accounts.subscription_wallet (charges k before)
      (ap (λ (q : Registry). q.wallets) e) stored (subscribe-Spends solana ctx token now l done)
      (Reachable-spent k before)
Reachable-spent {solana} k (next {r} before (pay ctx now l o found stored done e _) _) =
    let (_, _, (key, _)) =
      payment-PaysOn solana ctx now l (handler_of_payment solana ctx now l done) in
    spent-store k r.wallets ctx.subscription_wallet o.accounts.subscription_wallet
      ctx.subscription_state.state.fee_amount (charges k before)
      (ap (λ (q : Registry). q.wallets) e) stored
      (key, (payment-IsCharged solana ctx now l done).spent) (Reachable-spent k before)
Reachable-spent {solana} k (next {r} before (cancel ctx l o found stored done e _) _) =
    spent-keep k r.wallets ctx.subscription_wallet o.accounts.subscription_wallet (charges k before)
      (ap (λ (q : Registry). q.wallets) e) stored (cancel-Spends solana ctx l done)
      (Reachable-spent k before)

-- After any history of the instructions, the `total_spent` of a wallet that exists is the sum of the
-- fees of the payments in the history that charge it.
pub total_spent-eq :
    {solana : Solana} {r : Registry} {used : List Text} (k : Pubkey) (w : SubscriptionWallet)
    (h : Reachable solana r used)
    → find k r.wallets ≡ some w
    → w.total_spent ≡ charges k h
total_spent-eq k w h found = ground (arith, Reachable-spent k h)
