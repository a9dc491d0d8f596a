-- ===== src/Subscription/PaymentLiveness.antt =====
-- instructions/subscription/execute_payment.rs: a due payment with enough funds goes through.
use eventop.Base.{
  ◌/◌, sym, ◌*◌, [], ◌∷◌, ◌++◌, ℕ, ℤ, ◌+◌, ◌-◌, ◌≤◌, ◌<◌, ◌≡◌, ◌≢◌, arith, true, ◌≤ℤ◌, ◌-ℤ◌, ◌↔◌,
  some,
}
use eventop.Runtime.Result.{ok, ok_of_ne_err}
use eventop.Runtime.Word.{u32_mod, u64_mod, sub_i64}
use eventop.Runtime.Token.{Ledger}
use eventop.Runtime.Anchor.{bump_byte, Solana}
use eventop.Runtime.Laws.{IsSolana}
use eventop.State.SubscriptionWallet.{wallet_seeds, wallet_transfer}
use eventop.Outcome.{Outcome}
use eventop.Subscription.ExecutePayment.{
  ExecutePaymentFromWallet, is_redemption_due, pay, settle, handler, try_accounts,
  execute_payment_from_wallet,
}
use eventop.Subscription.PaymentEffect.{payment-IsCharged}
use eventop.Subscription.PaymentFees.{AreApart, pay_moves, pay_others, fee-eq, fee-le-amount}

-- The account checks pass on accounts as the ledger has them, the elapsed time is in range, and no
-- counter or balance overflows.
pub record IsChargeable (solana : Solana) (ctx : ExecutePaymentFromWallet) (now waited : ℤ)
    (l : Ledger) : Type 0 where
  pub checked : try_accounts solana ctx ≡ ok tt
  pub apart : AreApart ctx
  pub elapsed : sub_i64 now ctx.subscription_state.state.last_payment_timestamp ≡ ok waited
  pub fee_bps : ctx.protocol_config.state.protocol_fee_bps ≤ 10_000
  pub mints : ctx.subscription_wallet.state.mint ≡ ctx.subscription_state.state.mint
  pub wallet_loaded : l ctx.wallet_token_account.key ≡ ctx.wallet_token_account.state
  pub merchant_loaded : l ctx.merchant_token_account.key ≡ ctx.merchant_token_account.state
  pub treasury_loaded : l ctx.protocol_treasury.key ≡ ctx.protocol_treasury.state
  pub wallet_fits : ctx.wallet_token_account.state.amount < u64_mod
  pub merchant_fits :
      ctx.merchant_token_account.state.amount + ctx.subscription_state.state.fee_amount < u64_mod
  pub treasury_fits :
      ctx.protocol_treasury.state.amount + ctx.subscription_state.state.fee_amount < u64_mod
  pub paid_fits :
      ctx.subscription_state.state.total_paid + ctx.subscription_state.state.fee_amount < u64_mod
  pub count_fits : ctx.subscription_state.state.payment_count + 1 < u32_mod
  pub spent_fits :
      ctx.subscription_wallet.state.total_spent + ctx.subscription_state.state.fee_amount < u64_mod

sub_i64-eq : (a b : ℤ) {d : ℤ} → sub_i64 a b ≡ ok d → a -ℤ b ≡ d
unfolding sub_i64
sub_i64-eq a b h = ground arith

module _ {solana : Solana} (laws : IsSolana solana) (ctx : ExecutePaymentFromWallet) where
  open laws use {transfer_succeeds, transfer_keeps}

  wallet_signs :
      try_accounts solana ctx ≡ ok tt
      → solana.create_program_address (
          wallet_seeds ctx.subscription_wallet.state.owner ctx.subscription_wallet.state.mint
          ++ (bump_byte ctx.subscription_wallet.state.bump ∷ []))
        ≡ some ctx.subscription_wallet.key
  unfolding try_accounts
  wallet_signs h = ground arith

  wallet_owns :
      try_accounts solana ctx ≡ ok tt
      → (ctx.wallet_token_account.state.owner ≡ ctx.subscription_wallet.key)
        × (ctx.wallet_token_account.state.mint ≡ ctx.subscription_wallet.state.mint)
        × (ctx.merchant_token_account.state.mint ≡ ctx.subscription_state.state.mint)
        × (ctx.protocol_treasury.state.mint ≡ ctx.subscription_state.state.mint)
        × (ctx.subscription_state.state.is_active ≡ true)
  unfolding try_accounts
  wallet_owns h = ground arith

  pay_succeeds :
      (to n : ℕ) (l : Ledger)
      → try_accounts solana ctx ≡ ok tt
      → ctx.wallet_token_account.key ≢ to
      → (l ctx.wallet_token_account.key).owner ≡ ctx.subscription_wallet.key
      → (l ctx.wallet_token_account.key).mint ≡ (l to).mint
      → n ≤ (l ctx.wallet_token_account.key).amount
      → (l to).amount + n < u64_mod
      → (l' : Ledger) × (pay solana ctx to n l ≡ ok l')
  unfolding pay
  pay_succeeds to n l h ne owns mints funds fits = ok_of_ne_err (pay solana ctx to n l) λ e bad.
      let c = wallet_transfer ctx.subscription_wallet ctx.wallet_token_account.key to in
      let (l', good) = transfer_succeeds c n l ne (wallet_signs h) owns mints funds fits in
      ground arith

  pay_keeps :
      (to n k : ℕ) (l l' : Ledger)
      → pay solana ctx to n l ≡ ok l'
      → ((l' k).mint ≡ (l k).mint) × ((l' k).owner ≡ (l k).owner)
  unfolding pay
  pay_keeps to n k l l' h =
      let c = wallet_transfer ctx.subscription_wallet ctx.wallet_token_account.key to in
      ground (arith, transfer_keeps c n l l' k)

  settle_succeeds :
      (now waited : ℤ) (l : Ledger) (fee : ℕ)
      → IsChargeable solana ctx now waited l
      → ctx.subscription_state.state.fee_amount ≤ ctx.wallet_token_account.state.amount
      → fee ≤ ctx.subscription_state.state.fee_amount
      → (l' : Ledger) × (settle solana ctx (ctx.subscription_state.state.fee_amount - fee) fee l
          ≡ ok l')
  unfolding settle
  settle_succeeds now waited l fee p funded le =
      let wallet = ctx.wallet_token_account.key in
      let merchant = ctx.merchant_token_account.key in
      let treasury = ctx.protocol_treasury.key in
      let amount = ctx.subscription_state.state.fee_amount - fee in
      let (wm, wt, mt) = p.apart in
      let known = wallet_owns p.checked in
      let w = p.wallet_loaded in
      let m = p.merchant_loaded in
      let t = p.treasury_loaded in
      let (l₁, first) =
        pay_succeeds merchant amount l p.checked wm (ground arith) (ground arith) (ground arith)
          (ground arith) in
      let moved = pay_moves laws ctx merchant amount l l₁ wm first in
      let kept = pay_keeps merchant amount wallet l l₁ first in
      let same =
        pay_others laws ctx merchant amount treasury l l₁ (λ q. wt (sym q)) (λ q. mt (sym q))
          first in
      let (l₂, second) =
        pay_succeeds treasury fee l₁ p.checked wt (ground arith) (ground arith) (ground arith)
          (ground arith) in
      (l₂, rw first second)

  -- A payment goes through if it is due and the wallet's token account covers the amount: where the
  -- account checks pass, the three token accounts are distinct and as the ledger has them, the
  -- elapsed time is in range, the fee is at most 100%, the wallet has the subscription's mint, and no
  -- total overflows.
  pub payment_succeeds :
      (now waited : ℤ) (l : Ledger)
      → IsChargeable solana ctx now waited l
      → ctx.subscription_state.state.payment_interval ≤ℤ waited
      → ctx.subscription_state.state.fee_amount ≤ ctx.wallet_token_account.state.amount
      → (o : Outcome ExecutePaymentFromWallet) × (execute_payment_from_wallet solana ctx now l
          ≡ ok o)
  unfolding execute_payment_from_wallet handler is_redemption_due
  payment_succeeds now waited l p due funded =
      let amount = ctx.subscription_state.state.fee_amount in
      let bps = ctx.protocol_config.state.protocol_fee_bps in
      let fee = amount * bps / 10_000 in
      let known = wallet_owns p.checked in
      let charged = fee-eq amount bps (omega (arith, p.treasury_fits)) p.fee_bps in
      let le = fee-le-amount amount bps p.fee_bps charged in
      let (l', settled) = settle_succeeds now waited l fee p funded le in
      ok_of_ne_err (execute_payment_from_wallet solana ctx now l)
        λ e bad. ground (arith, p.checked, p.elapsed)

  -- A payment goes through exactly if it is due and the wallet's token account covers the amount,
  -- whatever shares the wallet holds: where the account checks pass, the three token accounts are
  -- distinct and as the ledger has them, the elapsed time is in range, the fee is at most 100%, the
  -- wallet has the subscription's mint, and no total overflows.
  pub payment_iff :
      (now waited : ℤ) (l : Ledger)
      → IsChargeable solana ctx now waited l
      → ((o : Outcome ExecutePaymentFromWallet) × (execute_payment_from_wallet solana ctx now l
            ≡ ok o))
        ↔ ((ctx.subscription_state.state.payment_interval ≤ℤ waited)
            × (ctx.subscription_state.state.fee_amount ≤ ctx.wallet_token_account.state.amount))
  payment_iff now waited l p = (
    λ h.
        let c = payment-IsCharged solana ctx now l h.1 in
        (
          rw (← sub_i64-eq now ctx.subscription_state.state.last_payment_timestamp p.elapsed)
              c.waited,
          c.funded,
        ),
    λ h. payment_succeeds now waited l p h.0 h.1,
  )
