-- ===== src/Events.antt =====
-- programs/subscription-protocol/src/events.rs: the events that instructions emit, a record for
-- each, and the type of all of them.
use eventop.Base.{ℕ, Bool, Text}
use eventop.Runtime.Anchor.{Pubkey}

pub record ProtocolInitialized : Type 0 where
  pub authority : Pubkey
  pub fee_bps : ℕ
  pub treasury : Pubkey

pub record YieldVaultInitialized : Type 0 where
  pub vault : Pubkey
  pub authority : Pubkey
  pub target_buffer_bps : ℕ

pub record ProtocolFeeUpdated : Type 0 where
  pub old_fee_bps : ℕ
  pub new_fee_bps : ℕ

pub record SubscriptionWalletCreated : Type 0 where
  pub wallet_pda : Pubkey
  pub owner : Pubkey
  pub mint : Pubkey

pub record YieldEnabled : Type 0 where
  pub wallet_pda : Pubkey
  pub shares_issued : ℕ
  pub usdc_amount : ℕ
  pub buffer_amount : ℕ

pub record YieldDisabled : Type 0 where
  pub wallet_pda : Pubkey
  pub shares_redeemed : ℕ
  pub usdc_received : ℕ

pub record YieldDeposit : Type 0 where
  pub wallet_pda : Pubkey
  pub shares_issued : ℕ
  pub usdc_amount : ℕ

pub record YieldWithdrawal : Type 0 where
  pub wallet_pda : Pubkey
  pub shares_redeemed : ℕ
  pub usdc_received : ℕ

pub record WalletDeposit : Type 0 where
  pub wallet_pda : Pubkey
  pub user : Pubkey
  pub amount : ℕ

pub record WalletWithdrawal : Type 0 where
  pub wallet_pda : Pubkey
  pub user : Pubkey
  pub amount : ℕ

-- The two actions that the code spells as strings.
pub data Action : Type 0 where
  withdraw_from_jupiter_lend deposit_to_jupiter_lend : Action

pub record VaultRebalanced : Type 0 where
  pub action : Action
  pub amount : ℕ

pub record EmergencyModeChanged : Type 0 where
  pub enabled : Bool
  pub frozen_rate : ℕ

pub record MerchantPlanRegistered : Type 0 where
  pub plan_pda : Pubkey

pub record SubscriptionCreated : Type 0 where
  pub subscription_pda : Pubkey
  pub user : Pubkey
  pub wallet : Pubkey
  pub merchant : Pubkey
  pub plan_id : Text
  pub session_token : Text

pub record PaymentExecuted : Type 0 where
  pub subscription_pda : Pubkey
  pub wallet_pda : Pubkey
  pub user : Pubkey
  pub merchant : Pubkey
  pub amount : ℕ
  pub protocol_fee : ℕ
  pub merchant_received : ℕ
  pub payment_number : ℕ

pub record SubscriptionCancelled : Type 0 where
  pub subscription_pda : Pubkey
  pub wallet_pda : Pubkey
  pub user : Pubkey
  pub merchant : Pubkey
  pub payments_made : ℕ

pub data Event : Type 0 where
  protocol_initialized : ProtocolInitialized → Event
  yield_vault_initialized : YieldVaultInitialized → Event
  protocol_fee_updated : ProtocolFeeUpdated → Event
  subscription_wallet_created : SubscriptionWalletCreated → Event
  yield_enabled : YieldEnabled → Event
  yield_disabled : YieldDisabled → Event
  yield_deposit : YieldDeposit → Event
  yield_withdrawal : YieldWithdrawal → Event
  wallet_deposit : WalletDeposit → Event
  wallet_withdrawal : WalletWithdrawal → Event
  vault_rebalanced : VaultRebalanced → Event
  emergency_mode_changed : EmergencyModeChanged → Event
  merchant_plan_registered : MerchantPlanRegistered → Event
  subscription_created : SubscriptionCreated → Event
  payment_executed : PaymentExecuted → Event
  subscription_cancelled : SubscriptionCancelled → Event
