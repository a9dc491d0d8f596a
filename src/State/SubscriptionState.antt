-- ===== src/State/SubscriptionState.antt =====
-- state/subscription_state.rs of the program: one user's subscription to one merchant.
use eventop.Base.{ℕ, ℤ, Bool, List, [], ◌∷◌, Text, leb_ℤ}
use eventop.Runtime.Result.{unwrap, Result, ok, ◌>>=◌}
use eventop.Runtime.Word.{add_i64, sub_i64}
use eventop.Runtime.Anchor.{Pubkey, Seed, tag, key_bytes, Solana}

pub record SubscriptionState : Type 0 where
  pub user : Pubkey
  pub subscription_wallet : Pubkey
  pub merchant : Pubkey
  pub mint : Pubkey
  pub merchant_plan : Pubkey
  pub fee_amount : ℕ
  pub payment_interval : ℤ
  pub last_payment_timestamp : ℤ
  pub total_paid : ℕ
  pub payment_count : ℕ
  pub is_active : Bool
  pub session_token : Text
  pub bump : ℕ

abbrev pub subscription_seeds : Pubkey → Pubkey → Pubkey → List Seed
subscription_seeds user merchant mint =
    tag "subscription" ∷ key_bytes user ∷ key_bytes merchant ∷ key_bytes mint ∷ []

unfoldable pub get_pda : Solana → Pubkey → Pubkey → Pubkey → Result (Pubkey × ℕ)
get_pda solana user merchant mint =
    unwrap (solana.find_program_address (subscription_seeds user merchant mint))

unfoldable pub is_payment_due : SubscriptionState → ℤ → Result Bool
unfolding add_i64
is_payment_due subscription current_time = do
  due ← add_i64 subscription.last_payment_timestamp subscription.payment_interval
  ok (leb_ℤ due current_time)

unfoldable pub time_until_next_payment : SubscriptionState → ℤ → Result ℤ
unfolding add_i64 sub_i64
time_until_next_payment subscription current_time = do
  due ← add_i64 subscription.last_payment_timestamp subscription.payment_interval
  sub_i64 due current_time
