-- ===== src/State/MerchantPlan.antt =====
-- state/merchant_plan.rs of the program: a merchant's plan.
use eventop.Base.{ℕ, ℤ, Bool, List, [], ◌∷◌, Text, leb_ℤ}
use eventop.Runtime.Result.{unwrap, Result, ok, ◌>>=◌}
use eventop.Runtime.Word.{add_i64}
use eventop.Runtime.Anchor.{Pubkey, Seed, tag, key_bytes, text_bytes, Solana}

pub record MerchantPlan : Type 0 where
  pub merchant : Pubkey
  pub mint : Pubkey
  pub plan_id : Text
  pub plan_name : Text
  pub fee_amount : ℕ
  pub payment_interval : ℤ
  pub is_active : Bool
  pub total_subscribers : ℕ
  pub bump : ℕ

abbrev pub plan_seeds : Pubkey → Pubkey → Text → List Seed
plan_seeds merchant mint plan_id =
    tag "merchant_plan" ∷ key_bytes merchant ∷ key_bytes mint ∷ text_bytes plan_id ∷ []

unfoldable pub get_pda : Solana → Pubkey → Pubkey → Text → Result (Pubkey × ℕ)
get_pda solana merchant mint plan_id =
    unwrap (solana.find_program_address (plan_seeds merchant mint plan_id))

unfoldable pub is_payment_due : MerchantPlan → ℤ → ℤ → Result Bool
unfolding add_i64
is_payment_due plan last_payment_timestamp current_time = do
  due ← add_i64 last_payment_timestamp plan.payment_interval
  ok (leb_ℤ due current_time)
