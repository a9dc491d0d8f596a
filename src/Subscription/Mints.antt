-- ===== src/Subscription/Mints.antt =====
-- instructions/subscription: `subscribe` does not compare the wallet's mint with the plan's, and a
-- subscription of another mint than its wallet's can never be paid.
use eventop.Subscription.PaymentEffect.{handler-settle, fee_computed}
use eventop.Base.{◌⊎◌, zero, suc, ◌+◌, refl, ℕ, ℤ, ◌-◌, ◌≤◌, ◌<◌, ◌≡◌, ◌≢◌, arith, inl, inr}
use eventop.Runtime.Result.{ok, err, Error, err_of_ne_ok, >>=-eq-ok}
use eventop.Runtime.Token.{Ledger}
use eventop.Runtime.Anchor.{Solana}
use eventop.Runtime.Laws.{IsSolana}
use eventop.State.SubscriptionWallet.{wallet_transfer}
use eventop.Outcome.{Outcome}
use eventop.Subscription.ExecutePayment.{
  ExecutePaymentFromWallet, pay, settle, handler, try_accounts, execute_payment_from_wallet,
}

module _ {solana : Solana} (laws : IsSolana solana) (ctx : ExecutePaymentFromWallet) (now : ℤ)
    (l : Ledger) where
  open laws use {transfer_mints}

  pay_mints :
      (to n : ℕ) (l' l'' : Ledger)
      → 0 < n
      → pay solana ctx to n l' ≡ ok l''
      → (l' ctx.wallet_token_account.key).mint ≡ (l' to).mint
  unfolding pay
  pay_mints to n l' l'' some_amount h = ground (
    arith,
    transfer_mints (wallet_transfer ctx.subscription_wallet ctx.wallet_token_account.key to) n l'
        l'',
  )

  pay_nothing : (to : ℕ) (l' : Ledger) → pay solana ctx to 0 l' ≡ ok l'
  unfolding pay
  pay_nothing to l' = refl

  -- If anything is paid, the wallet's token account has the mint of a receiving one.
  settle_mints :
      (receives fee : ℕ) (l' : Ledger)
      → 0 < receives + fee
      → settle solana ctx receives fee l ≡ ok l'
      → ((l ctx.wallet_token_account.key).mint ≡ (l ctx.merchant_token_account.key).mint)
        ⊎ ((l ctx.wallet_token_account.key).mint ≡ (l ctx.protocol_treasury.key).mint)
  unfolding settle
  settle_mints zero fee l' h done = inr (
      pay_mints ctx.protocol_treasury.key fee l l' (omega arith)
        (rw (pay_nothing ctx.merchant_token_account.key l) at done))
  settle_mints (suc n) fee l' h done =
      let (l₁, first, _) =
        >>=-eq-ok (pay solana ctx ctx.merchant_token_account.key (suc n) l) _ done in
      inl (pay_mints ctx.merchant_token_account.key (suc n) l l₁ (omega arith) first)

  settled :
      {o : Outcome ExecutePaymentFromWallet}
      → handler solana ctx now l ≡ ok o
      → (fee : ℕ) × (fee ≤ ctx.subscription_state.state.fee_amount)
        × (settle solana ctx (ctx.subscription_state.state.fee_amount - fee) fee l ≡ ok o.ledger)
  settled h =
      let (fee, e) = fee_computed solana ctx now l h in
      let (le, paid) = handler-settle solana ctx now l fee e h in (fee, le, paid)

  mints_checked :
      try_accounts solana ctx ≡ ok tt
      → (ctx.wallet_token_account.state.mint ≡ ctx.subscription_wallet.state.mint)
        × (ctx.merchant_token_account.state.mint ≡ ctx.subscription_state.state.mint)
        × (ctx.protocol_treasury.state.mint ≡ ctx.subscription_state.state.mint)
  unfolding try_accounts
  mints_checked h = ground arith

  -- If the wallet's mint is not the subscription's, every payment of more than nothing fails, on a
  -- ledger that agrees with the token accounts that were read.
  pub mint_mismatch_unpayable :
      ctx.subscription_wallet.state.mint ≢ ctx.subscription_state.state.mint
      → 0 < ctx.subscription_state.state.fee_amount
      → l ctx.wallet_token_account.key ≡ ctx.wallet_token_account.state
      → l ctx.merchant_token_account.key ≡ ctx.merchant_token_account.state
      → l ctx.protocol_treasury.key ≡ ctx.protocol_treasury.state
      → (e : Error) × (execute_payment_from_wallet solana ctx now l ≡ err e)
  unfolding execute_payment_from_wallet
  mint_mismatch_unpayable differ charged wallet merchant treasury =
      err_of_ne_ok (execute_payment_from_wallet solana ctx now l) λ o h.
        let (_, checked, done) = >>=-eq-ok (try_accounts solana ctx) _ h in
        let same = mints_checked checked in
        let (fee, le, paid) = settled done in
        let moved =
          settle_mints (ctx.subscription_state.state.fee_amount - fee) fee o.ledger (omega arith)
            paid in
        ground arith
