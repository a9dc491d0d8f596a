-- ===== src/State/SubscriptionWallet.antt =====
-- state/subscription_wallet.rs of the program: one user's wallet for one mint.
use eventop.Base.{ℕ, Bool, not, ◌||◌, List, [], ◌∷◌, ltb, ◌==◌, if◌then◌else◌}
use eventop.Runtime.Word.{u128_mod, saturating_mul, checked_div, as_u64}
use eventop.Runtime.Anchor.{
  Pubkey, Seed, tag, key_bytes, bump_byte, Solana, Account, TransferContext, unsigned, check_seeds,
}
use eventop.Runtime.Result.{unwrap, Result}
use eventop.State.ProtocolConfig.{or_zero}

pub record SubscriptionWallet : Type 0 where
  pub owner : Pubkey
  pub main_token_account : Pubkey
  pub mint : Pubkey
  pub total_subscriptions : ℕ
  pub total_spent : ℕ
  pub yield_shares : ℕ
  pub is_yield_enabled : Bool
  pub bump : ℕ

abbrev pub wallet_seeds : Pubkey → Pubkey → List Seed
wallet_seeds owner mint = tag "subscription_wallet" ∷ key_bytes owner ∷ key_bytes mint ∷ []

-- The seeds with which a wallet's account signs.
abbrev pub wallet_signer : SubscriptionWallet → List (List Seed)
wallet_signer w =
    (tag "subscription_wallet" ∷ key_bytes w.owner ∷ key_bytes w.mint ∷ bump_byte w.bump ∷ []) ∷ []

unfoldable pub get_pda : Solana → Pubkey → Pubkey → Result (Pubkey × ℕ)
get_pda solana owner mint = unwrap (solana.find_program_address (wallet_seeds owner mint))

unfoldable pub has_active_subscriptions : SubscriptionWallet → Bool
has_active_subscriptions wallet = ltb 0 wallet.total_subscriptions

unfoldable pub calculate_yield_value : SubscriptionWallet → ℕ → ℕ → ℕ
calculate_yield_value wallet vault_total_value vault_total_shares =
    if vault_total_shares == 0 || not wallet.is_yield_enabled
    then 0
    else as_u64 (
        or_zero (
          checked_div (saturating_mul u128_mod wallet.yield_shares vault_total_value)
            vault_total_shares))

-- A transfer signed by the wallet's own account.
abbrev pub wallet_transfer : Account SubscriptionWallet → Pubkey → Pubkey → TransferContext
wallet_transfer wallet from to = record {
  from = from;
  to = to;
  authority = unsigned wallet.key;
  signer_seeds = wallet_signer wallet.state;
}

-- `seeds = [b"subscription_wallet", owner, mint], bump = subscription_wallet.bump`
abbrev pub check_wallet_seeds : Solana → Account SubscriptionWallet → Result (Unit {0})
check_wallet_seeds solana wallet =
    check_seeds solana (wallet_seeds wallet.state.owner wallet.state.mint) wallet.state.bump
      wallet.key
