-- ===== src/Subscription/RegisterMerchant.antt =====
-- instructions/subscription/register_merchant.rs of the program.
use eventop.Base.{ℕ, ℤ, pos, true, Option, some, [], ◌∷◌, Text, length, ltb, leb, ltb_ℤ}
use eventop.Errors.{plan_id_too_long, plan_name_too_long, invalid_fee_amount, invalid_interval}
use eventop.Runtime.Result.{Result, ok, ◌>>=◌, ◌>>◌, require}
use eventop.Runtime.Token.{Ledger}
use eventop.Runtime.Anchor.{
  Pubkey, Account, Signer, Solana, check_signer, check_init, check_canonical,
}
use eventop.State.MerchantPlan.{MerchantPlan, plan_seeds}
use eventop.Events.{merchant_plan_registered}
use eventop.Outcome.{Outcome, with_state}

-- Of the mint only the key is read.
pub record RegisterMerchant : Type 0 where
  pub merchant_plan : Account (Option MerchantPlan)
  pub merchant : Signer
  pub mint : Pubkey

-- The arguments of the instruction.
pub record PlanTerms : Type 0 where
  pub plan_id : Text
  pub plan_name : Text
  pub fee_amount : ℕ
  pub payment_interval_seconds : ℤ

unfoldable pub try_accounts : Solana → RegisterMerchant → Text → Result ℕ
try_accounts solana ctx plan_id = do
  check_signer ctx.merchant
  bump ← check_canonical solana (plan_seeds ctx.merchant.key ctx.mint plan_id) ctx.merchant_plan.key
  check_init ctx.merchant_plan
  ok bump

unfoldable pub handler :
    RegisterMerchant → ℕ → PlanTerms → Ledger → Result (Outcome RegisterMerchant)
handler ctx bump terms ledger = do
  require (leb (length terms.plan_id) 32) plan_id_too_long
  require (leb (length terms.plan_name) 64) plan_name_too_long
  require (ltb 0 terms.fee_amount) invalid_fee_amount
  require (ltb_ℤ (pos 0) terms.payment_interval_seconds) invalid_interval
  ok (record {
    accounts = record ctx {
      merchant_plan = with_state ctx.merchant_plan (
          some (record {
            merchant = ctx.merchant.key;
            mint = ctx.mint;
            plan_id = terms.plan_id;
            plan_name = terms.plan_name;
            fee_amount = terms.fee_amount;
            payment_interval = terms.payment_interval_seconds;
            is_active = true;
            total_subscribers = 0;
            bump = bump;
          }));
    };
    ledger = ledger;
    events = merchant_plan_registered (record { plan_pda = ctx.merchant_plan.key }) ∷ [];
  })

-- The entry point in lib.rs.
unfoldable pub register_merchant :
    Solana → RegisterMerchant → PlanTerms → Ledger → Result (Outcome RegisterMerchant)
register_merchant solana ctx terms ledger =
    try_accounts solana ctx terms.plan_id >>= λ bump. handler ctx bump terms ledger
