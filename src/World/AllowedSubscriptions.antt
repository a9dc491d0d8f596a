-- ===== src/World/AllowedSubscriptions.antt =====
-- The instructions of subscriptions, with the consent that they have checked.
use eventop.Base.{Text, Option, ◌≡◌, sym, ◌∙◌, ap, arith, List}
use eventop.Runtime.Result.{ok}
use eventop.Runtime.Anchor.{Pubkey, Solana}
use eventop.Subscription.Subscribe.{subscribe_with_wallet}
use eventop.Subscription.ExecutePayment.{execute_payment_from_wallet}
use eventop.Subscription.CancelSubscription.{cancel_subscription_wallet}
use eventop.Funds
use eventop.World.{World, subscribe, pay, cancel}
use eventop.World.Accounts.{load_signup, load_payment, load_cancel}
use eventop.World.Exec.{exec}
use eventop.World.Steps.{stages}
use eventop.World.Consent.{IsAllowed, MayChange, OwnerSigned, UserSigned, IsDue}
use eventop.World.Parties.{load_payment_parties}
use eventop.Base.{ℤ, inl}
use eventop.Base.Assoc.{find}
use eventop.Funds.Moves.{exec-IsAuthorised}
use eventop.Subscription.PaymentEffect.{payment-IsCharged}
use eventop.Subscription.Signup.{subscribe-IsSubscribed}
use eventop.Subscription.Cancellation.{cancel-IsCancelled}
use eventop.World.Written.{written, optional_rewritten}
use eventop.World.Load.{save_optional}
use eventop.World.Loaded.{load_payment-IsStored}
use eventop.World.Kept.{subscribe-Rewrites, cancel-Rewrites, payment-Rewrites}
use eventop.World.Parties.{load_signup_parties, load_cancel_parties}

module _ (solana : Solana) (signers : List Pubkey) (now : ℤ) (w : World) where
  pub subscribe-IsAllowed :
      (subscription tracker wallet plan user wallet_tokens : Pubkey) (token : Text) (k : Pubkey)
      {w' : World}
      → exec solana signers now w
          (subscribe subscription tracker wallet plan user wallet_tokens token)
        ≡ ok w'
      → IsAllowed w w' signers now
          (subscribe subscription tracker wallet plan user wallet_tokens token)
          k
  unfolding exec Funds.exec
  subscribe-IsAllowed subscription tracker wallet plan user wallet_tokens token k {w'} h =
      let (ctx, o, loaded, done, e) =
        stages (load_signup signers w subscription tracker wallet plan user wallet_tokens)
          (λ ctx. subscribe_with_wallet solana ctx token now w.ledger) _ h in
      let (user_is, wallet_is, there) =
        load_signup_parties signers w subscription tracker wallet plan user wallet_tokens loaded in
      let (subscribed, _) = subscribe-IsSubscribed solana ctx token now w.ledger done in
      let ((wallet_key, _), _) = subscribe-Rewrites solana ctx token now w.ledger done in
      let consent : OwnerSigned w signers wallet = (
        ctx.subscription_wallet.state,
        there,
        ground (arith, subscribed.signed, subscribed.owner),
      ) in
      (
        written
            (MayChange w signers now
              (subscribe subscription tracker wallet plan user wallet_tokens token) k)
            k o.accounts.subscription_wallet.key o.accounts.subscription_wallet.state
            w.registry.wallets (ap (λ (w : World). w.registry.wallets) e)
            λ here. (here ∙ wallet_key ∙ wallet_is, rw (here ∙ wallet_key ∙ wallet_is) consent),
        inl (ap (λ (w : World). find k w.vaults) e),
      )

  pub pay-IsAllowed :
      (subscription wallet plan config wallet_tokens merchant_tokens treasury : Pubkey)
      (vault buffer lending : Option Pubkey) (k : Pubkey) {w' : World}
      → exec solana signers now w (
          pay subscription wallet plan config wallet_tokens merchant_tokens treasury vault buffer
            lending)
        ≡ ok w'
      → IsAllowed w w' signers now
          (pay subscription wallet plan config wallet_tokens merchant_tokens treasury vault buffer
            lending)
          k
  unfolding exec Funds.exec
  pay-IsAllowed subscription wallet plan config wallet_tokens merchant_tokens treasury vault buffer
        lending k {w'} h =
      let (ctx, o, loaded, done, e) =
        stages
          (load_payment w subscription wallet plan config wallet_tokens merchant_tokens treasury
            vault buffer lending)
          (λ ctx. execute_payment_from_wallet solana ctx now w.ledger) _ h in
      let (_, wallet_is, there) =
        load_payment_parties w subscription wallet plan config wallet_tokens merchant_tokens
          treasury vault buffer lending loaded in
      let (_, _, vault_stored) =
        load_payment-IsStored w subscription wallet plan config wallet_tokens merchant_tokens
          treasury vault buffer lending loaded in
      let (active, own, due) =
        exec-IsAuthorised solana (Funds.pay ctx now) w.ledger (ap Funds.ledger_of done) in
      let ((wallet_key, _), _) = payment-Rewrites solana ctx now w.ledger done in
      let same = (payment-IsCharged solana ctx now w.ledger done).same_vault in
      let consent : IsDue w now subscription wallet =
        (ctx.subscription_state.state, there, active, sym own ∙ wallet_is, due) in
      (
        written
            (MayChange w signers now
              (pay subscription wallet plan config wallet_tokens merchant_tokens treasury vault
                buffer lending)
              k)
            k o.accounts.subscription_wallet.key o.accounts.subscription_wallet.state
            w.registry.wallets (ap (λ (w : World). w.registry.wallets) e)
            λ here. (here ∙ wallet_key ∙ wallet_is, rw (here ∙ wallet_key ∙ wallet_is) consent),
        inl (
            (ap (λ (w : World). find k w.vaults) e)
            ∙ ap (λ v. find k (save_optional v w.vaults)) same
            ∙ optional_rewritten k ctx.yield_vault w.vaults vault_stored),
      )

  pub cancel-IsAllowed :
      (subscription wallet plan user : Pubkey) (k : Pubkey) {w' : World}
      → exec solana signers now w (cancel subscription wallet plan user) ≡ ok w'
      → IsAllowed w w' signers now (cancel subscription wallet plan user) k
  unfolding exec Funds.exec
  cancel-IsAllowed subscription wallet plan user k {w'} h =
      let (ctx, o, loaded, done, e) =
        stages (load_cancel signers w subscription wallet plan user)
          (λ ctx. cancel_subscription_wallet solana ctx w.ledger) _ h in
      let (user_is, wallet_is, there) =
        load_cancel_parties signers w subscription wallet plan user loaded in
      let gone = cancel-IsCancelled solana ctx w.ledger done in
      let ((wallet_key, _), _) = cancel-Rewrites solana ctx w.ledger done in
      let consent : UserSigned w signers subscription wallet = (
        ctx.subscription_state.state,
        there,
        sym gone.own_wallet ∙ wallet_is,
        ground (arith, gone.signed, gone.by_user),
      ) in
      (
        written (MayChange w signers now (cancel subscription wallet plan user) k) k
            o.accounts.subscription_wallet.key o.accounts.subscription_wallet.state
            w.registry.wallets (ap (λ (w : World). w.registry.wallets) e)
            λ here. (here ∙ wallet_key ∙ wallet_is, rw (here ∙ wallet_key ∙ wallet_is) consent),
        inl (ap (λ (w : World). find k w.vaults) e),
      )
