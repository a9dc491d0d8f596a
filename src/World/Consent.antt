-- ===== src/World/Consent.antt =====
-- Whose consent an instruction needs to take tokens from an account.
use eventop.Base.{◌⊎◌, none, ℤ, ◌≡◌, ◌≤ℤ◌, ◌-ℤ◌, true, some, List}
use eventop.Base.Assoc.{find}
use eventop.Runtime.Anchor.{Pubkey}
use eventop.State.YieldVault.{YieldVault}
use eventop.State.SubscriptionWallet.{SubscriptionWallet}
use eventop.State.SubscriptionState.{SubscriptionState}
use eventop.YieldOps.Request.{Request}
use eventop.World.{
  World, Message, initialize_protocol, initialize_vault, update_fee, create_wallet, deposit,
  withdraw, trade, rebalance, set_emergency, register, subscribe, pay, cancel,
}
use eventop.World.Load.{is_in}

-- The owner of a stored wallet has signed.
abbrev pub OwnerSigned : World → List Pubkey → Pubkey → Type 0
OwnerSigned w signers wallet =
    (v : SubscriptionWallet) × (find wallet w.registry.wallets ≡ some v)
    × (is_in v.owner signers ≡ true)

-- The authority of a stored vault has signed.
abbrev pub AuthoritySigned : World → List Pubkey → Pubkey → Type 0
AuthoritySigned w signers vault =
    (v : YieldVault) × (find vault w.vaults ≡ some v) × (is_in v.authority signers ≡ true)

-- An active subscription of the wallet is due.
abbrev pub IsDue : World → (now : ℤ) → (subscription wallet : Pubkey) → Type 0
IsDue w now subscription wallet =
    (s : SubscriptionState) × (find subscription w.registry.subscriptions ≡ some s)
    × (s.is_active ≡ true)
    × (s.subscription_wallet ≡ wallet)
    × (s.payment_interval ≤ℤ now -ℤ s.last_payment_timestamp)

-- What a yield instruction takes from: the wallet's token account, or the vault's buffer.
abbrev pub source : Request → (wallet_tokens buffer : Pubkey) → Pubkey
source (Request.enable n) wallet_tokens buffer = wallet_tokens
source (Request.deposit n) wallet_tokens buffer = wallet_tokens
source (Request.withdraw n) wallet_tokens buffer = buffer
source Request.disable wallet_tokens buffer = buffer

-- Why the message may take from the account `k`.
abbrev pub MayTake : World → List Pubkey → (now : ℤ) → Message → Pubkey → Type 0
MayTake w signers now (deposit wallet user user_tokens wallet_tokens amount) k =
    (k ≡ user_tokens) × (is_in (w.ledger k).owner signers ≡ true)
MayTake w signers now (withdraw wallet owner user_tokens wallet_tokens amount) k =
    (k ≡ wallet_tokens) × ((w.ledger k).owner ≡ wallet) × OwnerSigned w signers wallet
MayTake w signers now (trade wallet vault owner wallet_tokens buffer lending q) k =
    (k ≡ source q wallet_tokens buffer) × OwnerSigned w signers wallet
MayTake w signers now
      (pay subscription wallet plan config wallet_tokens merchant_tokens treasury vault buffer
        lending)
      k =
    (k ≡ wallet_tokens) × ((w.ledger k).owner ≡ wallet) × IsDue w now subscription wallet
MayTake w signers now
      (rebalance vault authority buffer f_tokens mint f_token_mint lending_admin lending
        supply_token_reserves_liquidity lending_supply_position_on_liquidity rate_model
        jupiter_vault claim_account liquidity liquidity_program rewards_rate_model lending_program
        token_program associated_token_program system_program)
      k =
    AuthoritySigned w signers vault
MayTake w signers now (initialize_protocol config authority treasury bps) k = ⊥
MayTake w signers now (initialize_vault vault authority mint usdc_buffer f_tokens lending bps) k = ⊥
MayTake w signers now (update_fee config authority bps) k = ⊥
MayTake w signers now (create_wallet wallet main user mint) k = ⊥
MayTake w signers now (set_emergency vault authority buffer f_tokens f_token_mint lending enabled)
      k =
    ⊥
MayTake w signers now (register plan merchant mint terms) k = ⊥
MayTake w signers now (subscribe subscription tracker wallet plan user wallet_tokens token) k = ⊥
MayTake w signers now (cancel subscription wallet plan user) k = ⊥

-- The user of a stored subscription has signed.
abbrev pub UserSigned : World → List Pubkey → (subscription wallet : Pubkey) → Type 0
UserSigned w signers subscription wallet =
    (s : SubscriptionState) × (find subscription w.registry.subscriptions ≡ some s)
    × (s.subscription_wallet ≡ wallet)
    × (is_in s.user signers ≡ true)

-- Why the message may change the wallet at `k`.
abbrev pub MayChange : World → List Pubkey → (now : ℤ) → Message → Pubkey → Type 0
MayChange w signers now (initialize_protocol config authority treasury bps) k = ⊥
MayChange w signers now (initialize_vault vault authority mint usdc_buffer f_tokens lending bps) k =
    ⊥
MayChange w signers now (update_fee config authority bps) k = ⊥
MayChange w signers now (create_wallet wallet main user mint) k =
    (k ≡ wallet) × (find k w.registry.wallets ≡ none) × (is_in user signers ≡ true)
MayChange w signers now (deposit wallet user user_tokens wallet_tokens amount) k = ⊥
MayChange w signers now (withdraw wallet owner user_tokens wallet_tokens amount) k = ⊥
MayChange w signers now (trade wallet vault owner wallet_tokens buffer lending q) k =
    (k ≡ wallet) × OwnerSigned w signers k
MayChange w signers now
      (rebalance vault authority buffer f_tokens mint f_token_mint lending_admin lending
        supply_token_reserves_liquidity lending_supply_position_on_liquidity rate_model
        jupiter_vault claim_account liquidity liquidity_program rewards_rate_model lending_program
        token_program associated_token_program system_program)
      k =
    ⊥
MayChange w signers now (set_emergency vault authority buffer f_tokens f_token_mint lending enabled)
      k =
    ⊥
MayChange w signers now (register plan merchant mint terms) k = ⊥
MayChange w signers now (subscribe subscription tracker wallet plan user wallet_tokens token) k =
    (k ≡ wallet) × OwnerSigned w signers k
MayChange w signers now
      (pay subscription wallet plan config wallet_tokens merchant_tokens treasury vault buffer
        lending)
      k =
    (k ≡ wallet) × IsDue w now subscription k
MayChange w signers now (cancel subscription wallet plan user) k =
    (k ≡ wallet) × UserSigned w signers subscription k

-- Why the message may change the vault at `k`.
abbrev pub MayChangeVault : World → List Pubkey → Message → Pubkey → Type 0
MayChangeVault w signers (initialize_protocol config authority treasury bps) k = ⊥
MayChangeVault w signers (initialize_vault vault authority mint usdc_buffer f_tokens lending bps)
      k =
    (k ≡ vault) × (find k w.vaults ≡ none) × (is_in authority signers ≡ true)
MayChangeVault w signers (update_fee config authority bps) k = ⊥
MayChangeVault w signers (create_wallet wallet main user mint) k = ⊥
MayChangeVault w signers (deposit wallet user user_tokens wallet_tokens amount) k = ⊥
MayChangeVault w signers (withdraw wallet owner user_tokens wallet_tokens amount) k = ⊥
MayChangeVault w signers (trade wallet vault owner wallet_tokens buffer lending q) k =
    (k ≡ vault) × OwnerSigned w signers wallet
MayChangeVault w signers
      (rebalance vault authority buffer f_tokens mint f_token_mint lending_admin lending
        supply_token_reserves_liquidity lending_supply_position_on_liquidity rate_model
        jupiter_vault claim_account liquidity liquidity_program rewards_rate_model lending_program
        token_program associated_token_program system_program)
      k =
    ⊥
MayChangeVault w signers
      (set_emergency vault authority buffer f_tokens f_token_mint lending enabled) k =
    (k ≡ vault) × AuthoritySigned w signers k
MayChangeVault w signers (register plan merchant mint terms) k = ⊥
MayChangeVault w signers (subscribe subscription tracker wallet plan user wallet_tokens token) k = ⊥
MayChangeVault w signers
      (pay subscription wallet plan config wallet_tokens merchant_tokens treasury vault buffer
        lending)
      k =
    ⊥
MayChangeVault w signers (cancel subscription wallet plan user) k = ⊥

-- Between two worlds: the wallet and the vault at `k` are as they were, or the message may change them.
abbrev pub IsAllowed : (w w' : World) → List Pubkey → (now : ℤ) → Message → Pubkey → Type 0
IsAllowed w w' signers now message k =
    ((find k w'.registry.wallets ≡ find k w.registry.wallets) ⊎ MayChange w signers now message k)
    × ((find k w'.vaults ≡ find k w.vaults) ⊎ MayChangeVault w signers message k)
