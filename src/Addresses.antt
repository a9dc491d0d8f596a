-- ===== src/Addresses.antt =====
-- The accounts that the instructions create at derived addresses (wallets, vaults, subscriptions) are accepted at
-- their addresses by the instructions that come later.
use eventop.Base.{[], ◌∷◌, ◌++◌, ℕ, ℤ, ◌≡◌, List, arith, some, Text}
use eventop.Runtime.Result.{>>=-eq-ok, ok}
use eventop.Runtime.Token.{Ledger}
use eventop.Runtime.Anchor.{bump_byte, Pubkey, Seed, Solana, check_seeds, check_canonical}
use eventop.Runtime.Laws.{IsSolana}
use eventop.State.SubscriptionWallet
use eventop.State.SubscriptionWallet.{SubscriptionWallet, wallet_seeds, check_wallet_seeds}
use eventop.State.SubscriptionState
use eventop.State.SubscriptionState.{SubscriptionState, subscription_seeds}
use eventop.State.YieldVault
use eventop.State.YieldVault.{YieldVault, vault_seeds, check_vault_seeds}
use eventop.Outcome.{Outcome}
use eventop.Wallet.CreateWallet
use eventop.Wallet.CreateWallet.{CreateSubscriptionWallet, create_subscription_wallet}
use eventop.Protocol.InitializeYieldVault
use eventop.Protocol.InitializeYieldVault.{InitializeYieldVault, initialize_yield_vault}
use eventop.Subscription.Subscribe
use eventop.Subscription.Subscribe.{SubscribeWithWallet, subscribe_with_wallet, Bumps}

module _ {solana : Solana} (laws : IsSolana solana) where
  -- The canonical bump of an address is one with which its seeds are accepted there.
  canonical_accepted :
      (seeds : List Seed) (k : Pubkey) {bump : ℕ}
      → check_canonical solana seeds k ≡ ok bump
      → (solana.find_program_address seeds ≡ some (k, bump))
        × (solana.create_program_address (seeds ++ (bump_byte bump ∷ [])) ≡ some k)
  canonical_accepted seeds k {bump} h = ground (arith, laws.create_found seeds k bump)

  -- A wallet that is created stands at the address of its owner and mint, and the seeds check of
  -- every later instruction accepts it there.
  pub create_wallet_accepted :
      (ctx : CreateSubscriptionWallet) (l : Ledger) {o : Outcome CreateSubscriptionWallet}
      {w : SubscriptionWallet}
      → create_subscription_wallet solana ctx l ≡ ok o
      → o.accounts.subscription_wallet.state ≡ some w
      → (SubscriptionWallet.get_pda solana ctx.user.key ctx.mint
          ≡ ok (ctx.subscription_wallet.key, w.bump))
        × (check_wallet_seeds solana (record { key = ctx.subscription_wallet.key; state = w })
            ≡ ok tt)
  unfolding create_subscription_wallet CreateWallet.try_accounts CreateWallet.handler
      SubscriptionWallet.get_pda
  create_wallet_accepted ctx l {o} {w} h e =
      let seeds = wallet_seeds ctx.user.key ctx.mint in
      let (bump, checked, made) = >>=-eq-ok (CreateWallet.try_accounts solana ctx) _ h in
      let found : check_canonical solana seeds ctx.subscription_wallet.key ≡ ok bump =
        ground arith in
      let (there, accepted) = canonical_accepted seeds ctx.subscription_wallet.key found in
      ground arith

  -- A vault that is initialised stands at the address of its mint, and the seeds check of every
  -- later instruction accepts it there.
  pub initialize_vault_accepted :
      (ctx : InitializeYieldVault) (bps : ℕ) (l : Ledger) {o : Outcome InitializeYieldVault}
      {v : YieldVault}
      → initialize_yield_vault solana ctx bps l ≡ ok o
      → o.accounts.yield_vault.state ≡ some v
      → (YieldVault.get_pda solana ctx.mint ≡ ok (ctx.yield_vault.key, v.bump))
        × (check_vault_seeds solana ctx.mint (record { key = ctx.yield_vault.key; state = v })
            ≡ ok tt)
  unfolding initialize_yield_vault InitializeYieldVault.try_accounts InitializeYieldVault.handler
      YieldVault.get_pda
  initialize_vault_accepted ctx bps l {o} {v} h e =
      let seeds = vault_seeds ctx.mint in
      let (bump, checked, made) = >>=-eq-ok (InitializeYieldVault.try_accounts solana ctx) _ h in
      let found : check_canonical solana seeds ctx.yield_vault.key ≡ ok bump = ground arith in
      let (there, accepted) = canonical_accepted seeds ctx.yield_vault.key found in ground arith

  -- A subscription that is opened stands at the address of its user, merchant and mint, and the
  -- seeds check of a payment or a cancellation accepts it there.
  pub subscribe_accepted :
      (ctx : SubscribeWithWallet) (token : Text) (now : ℤ) (l : Ledger)
      {o : Outcome SubscribeWithWallet} {s : SubscriptionState}
      → subscribe_with_wallet solana ctx token now l ≡ ok o
      → o.accounts.subscription_state.state ≡ some s
      → (SubscriptionState.get_pda solana s.user s.merchant s.mint
          ≡ ok (ctx.subscription_state.key, s.bump))
        × (check_seeds solana
              (subscription_seeds s.user s.merchant s.mint)
              s.bump
              ctx.subscription_state.key
            ≡ ok tt)
  unfolding subscribe_with_wallet Subscribe.try_accounts Subscribe.handler SubscriptionState.get_pda
  subscribe_accepted ctx token now l {o} {s} h e =
      let seeds =
        subscription_seeds ctx.user.key ctx.merchant_plan.state.merchant
          ctx.merchant_plan.state.mint in
      let (b, checked, made) = >>=-eq-ok (Subscribe.try_accounts solana ctx token) _ h in
      let found : check_canonical solana seeds ctx.subscription_state.key
          ≡ ok b.subscription_state =
        ground arith in
      let (there, accepted) = canonical_accepted seeds ctx.subscription_state.key found in
      ground arith
