-- ===== src/State/Agreement.antt =====
-- state: the accounts' own methods against the functions that the instructions use instead.
use eventop.Base.{ℕ, ℤ, ◌<◌, ◌≡◌, arith, true, leb_ℤ}
use eventop.Base.Int.{+ℤ_parts, -ℤ_parts}
use eventop.Runtime.Result.{ok}
use eventop.Runtime.Word.{u16_mod, u64_mod, add_i64, sub_i64}
use eventop.State.ProtocolConfig.{ProtocolConfig, calculate_fee}
use eventop.State.YieldVault.{YieldVault, calculate_target_buffer}
use eventop.State.SubscriptionWallet.{SubscriptionWallet, calculate_yield_value}
use eventop.State.SubscriptionState.{SubscriptionState, is_payment_due}
use eventop.Utils.Calculations.{calculate_buffer_amount, calculate_usdc_value_of_shares}
use eventop.Utils.Calculations.Ranges.{product_fits}
use eventop.Subscription.ExecutePayment.{protocol_fee_of}

-- For 64-bit amounts and 16-bit fees, the fee method of the configuration gives the fee that a
-- payment takes.
pub calculate_fee-agrees :
    (config : ProtocolConfig) (amount : ℕ)
    → amount < u64_mod
    → config.protocol_fee_bps < u16_mod
    → protocol_fee_of amount config.protocol_fee_bps ≡ ok (calculate_fee config amount)
unfolding protocol_fee_of calculate_fee
calculate_fee-agrees config amount ha hb =
    ground (arith, product_fits amount config.protocol_fee_bps ha (omega arith))

-- For 64-bit values and 16-bit targets, the vault's method gives the target that a rebalancing
-- computes.
pub target_buffer-agrees :
    (vault : YieldVault) (value : ℕ)
    → value < u64_mod
    → vault.target_buffer_bps < u16_mod
    → calculate_buffer_amount value vault.target_buffer_bps
      ≡ ok (calculate_target_buffer vault value)
unfolding calculate_buffer_amount calculate_target_buffer
target_buffer-agrees vault value hv hb =
    ground (arith, product_fits value vault.target_buffer_bps hv (omega arith))

-- For 64-bit shares and values, the method of a wallet with yield enabled gives what its shares
-- would be redeemed for.
pub yield_value-agrees :
    (wallet : SubscriptionWallet) (value shares : ℕ)
    → wallet.yield_shares < u64_mod
    → value < u64_mod
    → wallet.is_yield_enabled ≡ true
    → calculate_usdc_value_of_shares wallet.yield_shares shares value
      ≡ ok (calculate_yield_value wallet value shares)
unfolding calculate_usdc_value_of_shares calculate_yield_value
yield_value-agrees wallet value shares hs hv enabled =
    ground (arith, product_fits wallet.yield_shares value hs hv)

-- Where neither overflows, the method that asks whether a payment is due and the test that a payment
-- makes agree.
pub is_payment_due-agrees :
    (s : SubscriptionState) (now : ℤ) {waited due : ℤ}
    → sub_i64 now s.last_payment_timestamp ≡ ok waited
    → add_i64 s.last_payment_timestamp s.payment_interval ≡ ok due
    → is_payment_due s now ≡ ok (leb_ℤ s.payment_interval waited)
unfolding is_payment_due add_i64 sub_i64
is_payment_due-agrees s now {waited} {due} e f = ground (
  arith,
  +ℤ_parts s.last_payment_timestamp s.payment_interval,
  -ℤ_parts now s.last_payment_timestamp,
)
