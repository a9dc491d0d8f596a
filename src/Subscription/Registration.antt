-- ===== src/Subscription/Registration.antt =====
-- instructions/subscription/register_merchant.rs: which plans are accepted.
use eventop.Base.{ℕ, pos, ◌≤◌, ◌<◌, ◌≡◌, ◌≢◌, inl, arith, true, some, Text, length, ◌<ℤ◌}
use eventop.Errors.{plan_id_too_long}
use eventop.Runtime.Result.{ok, err, code, >>=-eq-ok}
use eventop.Runtime.Token.{Ledger}
use eventop.Runtime.Anchor.{Solana}
use eventop.Runtime.Laws.{IsSolana, max_seed_len}
use eventop.State.MerchantPlan.{MerchantPlan, plan_seeds}
use eventop.Outcome.{Outcome}
use eventop.Subscription.RegisterMerchant.{
  RegisterMerchant, PlanTerms, try_accounts, handler, register_merchant,
}

-- A plan that payments can be made under, and that fits its account.
pub record IsUsable (plan : MerchantPlan) : Type 0 where
  pub id_fits : length plan.plan_id ≤ 32
  pub name_fits : length plan.plan_name ≤ 64
  pub fee_positive : 0 < plan.fee_amount
  pub interval_positive : pos 0 <ℤ plan.payment_interval
  pub active : plan.is_active ≡ true

-- The plan that the arguments determine.
abbrev pub registered : RegisterMerchant → ℕ → PlanTerms → MerchantPlan
registered ctx bump terms = record {
  merchant = ctx.merchant.key;
  mint = ctx.mint;
  plan_id = terms.plan_id;
  plan_name = terms.plan_name;
  fee_amount = terms.fee_amount;
  payment_interval = terms.payment_interval_seconds;
  is_active = true;
  total_subscribers = 0;
  bump = bump;
}

handler_plan :
    (ctx : RegisterMerchant) (bump : ℕ) (terms : PlanTerms) (l : Ledger)
    {o : Outcome RegisterMerchant}
    → handler ctx bump terms l ≡ ok o
    → (o.accounts.merchant_plan.state ≡ some (registered ctx bump terms))
      × IsUsable (registered ctx bump terms)
unfolding handler
handler_plan ctx bump terms l h = ground arith

merchant_signed :
    (solana : Solana) (ctx : RegisterMerchant) (plan_id : Text) {bump : ℕ}
    → try_accounts solana ctx plan_id ≡ ok bump
    → ctx.merchant.is_signer ≡ true
unfolding try_accounts
merchant_signed solana ctx plan_id h = ground arith

-- A registered plan is the signer's, has the terms given, and is usable.
pub register-IsUsable :
    (solana : Solana) (ctx : RegisterMerchant) (terms : PlanTerms) (l : Ledger)
    {o : Outcome RegisterMerchant}
    → register_merchant solana ctx terms l ≡ ok o
    → (bump : ℕ) × (o.accounts.merchant_plan.state ≡ some (registered ctx bump terms))
      × IsUsable (registered ctx bump terms)
      × (ctx.merchant.is_signer ≡ true)
unfolding register_merchant
register-IsUsable solana ctx terms l h =
    let (bump, checked, done) = >>=-eq-ok (try_accounts solana ctx terms.plan_id) _ h in
    let (state, usable) = handler_plan ctx bump terms l done in
    (bump, state, usable, merchant_signed solana ctx terms.plan_id checked)

-- A plan id of more than 32 bytes is never reported as `PlanIdTooLong`.
pub long_id_unreported :
    {solana : Solana} (laws : IsSolana solana) (ctx : RegisterMerchant) (terms : PlanTerms)
    (l : Ledger)
    → max_seed_len < length terms.plan_id
    → register_merchant solana ctx terms l ≢ err (code plan_id_too_long)
unfolding register_merchant try_accounts
long_id_unreported laws ctx terms l long h =
    let lost = laws.find_too_long (plan_seeds ctx.merchant.key ctx.mint terms.plan_id) (inl long) in
    ground arith
