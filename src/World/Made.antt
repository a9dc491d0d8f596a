-- ===== src/World/Made.antt =====
-- What the instructions that make an account leave in it: it was not there, it stands at the address
-- that its own fields derive, and its terms are in their ranges.
use eventop.Base.{ℕ, pos, ◌≡◌, ◌≤◌, ◌<◌, ◌<ℤ◌, refl, arith, true, Option, none, some, Text, length}
use eventop.Runtime.Result.{ok, >>=-eq-ok}
use eventop.Runtime.Token.{Ledger}
use eventop.Runtime.Anchor.{Pubkey, Account, Solana}
use eventop.Outcome.{Outcome}
use eventop.State.ProtocolConfig.{ProtocolConfig, config_seeds}
use eventop.State.YieldVault.{YieldVault, vault_seeds}
use eventop.State.SubscriptionWallet.{SubscriptionWallet, wallet_seeds}
use eventop.State.MerchantPlan.{MerchantPlan, plan_seeds}
use eventop.Protocol.InitializeProtocol
use eventop.Protocol.InitializeProtocol.{InitializeProtocol, initialize_protocol}
use eventop.Protocol.InitializeYieldVault
use eventop.Protocol.InitializeYieldVault.{InitializeYieldVault, initialize_yield_vault}
use eventop.Wallet.CreateWallet
use eventop.Wallet.CreateWallet.{CreateSubscriptionWallet, create_subscription_wallet}
use eventop.Subscription.RegisterMerchant
use eventop.Subscription.RegisterMerchant.{RegisterMerchant, PlanTerms, register_merchant}

-- A new account and what is in it.
abbrev pub Makes {ℓ κ} :
    {V : Type ℓ} → (Pubkey → V → Type κ) → (a a' : Account (Option V)) → Type (ℓ ⊔ κ)
Makes {V} P a a' =
    (a.state ≡ none) × (v : V) × (a' ≡ record { key = a.key; state = some v }) × P a.key v

value_made {ℓ} : {V : Type ℓ} (a : Option V) → (a ≡ none → ⊥) → (v : V) × (a ≡ some v)
value_made none h = absurd (h refl)
value_made (some v) h = (v, refl)

module _ (solana : Solana) where
  pub record ConfigFits (k : Pubkey) (c : ProtocolConfig) : Type 0 where
    pub address : solana.find_program_address config_seeds ≡ some (k, c.bump)
    pub fee : c.protocol_fee_bps ≤ 1000

  pub record VaultFits (k : Pubkey) (v : YieldVault) : Type 0 where
    pub address : solana.find_program_address (vault_seeds v.mint) ≡ some (k, v.bump)
    pub target : v.target_buffer_bps ≤ 5000

  pub record WalletFits (k : Pubkey) (w : SubscriptionWallet) : Type 0 where
    pub address : solana.find_program_address (wallet_seeds w.owner w.mint) ≡ some (k, w.bump)

  pub record PlanFits (k : Pubkey) (p : MerchantPlan) : Type 0 where
    pub address :
        solana.find_program_address (plan_seeds p.merchant p.mint p.plan_id) ≡ some (k, p.bump)
    pub id_length : length p.plan_id ≤ 32
    pub name_length : length p.plan_name ≤ 64
    pub fee : 0 < p.fee_amount
    pub interval : pos 0 <ℤ p.payment_interval
    pub active : p.is_active ≡ true

  config_checked :
      (ctx : InitializeProtocol) {bump : ℕ}
      → InitializeProtocol.try_accounts solana ctx ≡ ok bump
      → (ctx.protocol_config.state ≡ none)
        × (solana.find_program_address config_seeds ≡ some (ctx.protocol_config.key, bump))
  unfolding InitializeProtocol.try_accounts
  config_checked ctx h = ground arith

  pub initialize-Makes :
      (ctx : InitializeProtocol) (bps : ℕ) (l : Ledger) {o : Outcome InitializeProtocol}
      → initialize_protocol solana ctx bps l ≡ ok o
      → Makes ConfigFits ctx.protocol_config o.accounts.protocol_config
  unfolding initialize_protocol InitializeProtocol.handler
  initialize-Makes ctx bps l {o} h =
      let (bump, checked, done) = >>=-eq-ok (InitializeProtocol.try_accounts solana ctx) _ h in
      let (fresh, address) = config_checked ctx checked in
      let (v, e) = value_made o.accounts.protocol_config.state (λ q. ground arith) in
      (fresh, v, ground arith, record { address = ground arith; fee = ground arith })

  vault_checked :
      (ctx : InitializeYieldVault) {bump : ℕ}
      → InitializeYieldVault.try_accounts solana ctx ≡ ok bump
      → (ctx.yield_vault.state ≡ none)
        × (solana.find_program_address (vault_seeds ctx.mint) ≡ some (ctx.yield_vault.key, bump))
  unfolding InitializeYieldVault.try_accounts
  vault_checked ctx h = ground arith

  -- A new vault has issued no shares.
  pub initialize_vault-Makes :
      (ctx : InitializeYieldVault) (bps : ℕ) (l : Ledger) {o : Outcome InitializeYieldVault}
      → initialize_yield_vault solana ctx bps l ≡ ok o
      → Makes
          (λ k v. VaultFits k v × (v.total_shares_issued ≡ 0))
          ctx.yield_vault
          o.accounts.yield_vault
  unfolding initialize_yield_vault InitializeYieldVault.handler
  initialize_vault-Makes ctx bps l {o} h =
      let (bump, checked, done) = >>=-eq-ok (InitializeYieldVault.try_accounts solana ctx) _ h in
      let (fresh, address) = vault_checked ctx checked in
      let (v, e) = value_made o.accounts.yield_vault.state (λ q. ground arith) in
      (
        fresh,
        v,
        ground arith,
        (record { address = ground arith; target = ground arith }, ground arith),
      )

  wallet_checked :
      (ctx : CreateSubscriptionWallet) {bump : ℕ}
      → CreateWallet.try_accounts solana ctx ≡ ok bump
      → (ctx.subscription_wallet.state ≡ none)
        × (solana.find_program_address (wallet_seeds ctx.user.key ctx.mint)
            ≡ some (ctx.subscription_wallet.key, bump))
  unfolding CreateWallet.try_accounts
  wallet_checked ctx h = ground arith

  -- A new wallet holds no shares.
  pub create_wallet-Makes :
      (ctx : CreateSubscriptionWallet) (l : Ledger) {o : Outcome CreateSubscriptionWallet}
      → create_subscription_wallet solana ctx l ≡ ok o
      → Makes
          (λ k w. WalletFits k w × (w.yield_shares ≡ 0))
          ctx.subscription_wallet
          o.accounts.subscription_wallet
  unfolding create_subscription_wallet CreateWallet.handler
  create_wallet-Makes ctx l {o} h =
      let (bump, checked, done) = >>=-eq-ok (CreateWallet.try_accounts solana ctx) _ h in
      let (fresh, address) = wallet_checked ctx checked in
      let (w, e) = value_made o.accounts.subscription_wallet.state (λ q. ground arith) in
      (fresh, w, ground arith, (record { address = ground arith }, ground arith))

  plan_checked :
      (ctx : RegisterMerchant) (plan_id : Text) {bump : ℕ}
      → RegisterMerchant.try_accounts solana ctx plan_id ≡ ok bump
      → (ctx.merchant_plan.state ≡ none)
        × (solana.find_program_address (plan_seeds ctx.merchant.key ctx.mint plan_id)
            ≡ some (ctx.merchant_plan.key, bump))
  unfolding RegisterMerchant.try_accounts
  plan_checked ctx plan_id h = ground arith

  pub register-Makes :
      (ctx : RegisterMerchant) (terms : PlanTerms) (l : Ledger) {o : Outcome RegisterMerchant}
      → register_merchant solana ctx terms l ≡ ok o
      → Makes PlanFits ctx.merchant_plan o.accounts.merchant_plan
  unfolding register_merchant RegisterMerchant.handler
  register-Makes ctx terms l {o} h =
      let (bump, checked, done) =
        >>=-eq-ok (RegisterMerchant.try_accounts solana ctx terms.plan_id) _ h in
      let (fresh, address) = plan_checked ctx terms.plan_id checked in
      let (p, e) = value_made o.accounts.merchant_plan.state (λ q. ground arith) in
      (
        fresh,
        p,
        ground arith,
        record {
          address = ground arith;
          id_length = ground arith;
          name_length = ground arith;
          fee = ground arith;
          interval = ground arith;
          active = ground arith;
        },
      )
