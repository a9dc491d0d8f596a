-- ===== src/Errors.antt =====
-- programs/subscription-protocol/src/errors.rs: the error codes of the program.
pub data ErrorCodes : Type 0 where
  subscription_inactive : ErrorCodes
  payment_too_early : ErrorCodes
  plan_id_too_long : ErrorCodes
  plan_name_too_long : ErrorCodes
  invalid_fee_amount : ErrorCodes
  invalid_amount : ErrorCodes
  invalid_interval : ErrorCodes
  plan_inactive : ErrorCodes
  invalid_merchant_plan : ErrorCodes
  unauthorized_cancellation : ErrorCodes
  unauthorized_wallet_access : ErrorCodes
  invalid_deposit_amount : ErrorCodes
  invalid_withdraw_amount : ErrorCodes
  invalid_collateral_account : ErrorCodes
  invalid_jupiter_lend_account : ErrorCodes
  insufficient_wallet_balance : ErrorCodes
  insufficient_collateral : ErrorCodes
  insufficient_funds : ErrorCodes
  invalid_merchant_account : ErrorCodes
  math_overflow : ErrorCodes
  fee_too_high : ErrorCodes
  unauthorized_protocol_update : ErrorCodes
  invalid_treasury_account : ErrorCodes
  invalid_share_amount : ErrorCodes
  session_token_too_long : ErrorCodes
  session_token_required : ErrorCodes
  session_token_already_used : ErrorCodes
  yield_already_enabled : ErrorCodes
  yield_not_enabled : ErrorCodes
  invalid_buffer_ratio : ErrorCodes
  yield_amount_too_small : ErrorCodes
  no_shares_to_redeem : ErrorCodes
  insufficient_shares : ErrorCodes
  emergency_mode_enabled : ErrorCodes
  insufficient_available_balance : ErrorCodes
  jupiter_lend_deposit_failed : ErrorCodes
  jupiter_lend_withdraw_failed : ErrorCodes
