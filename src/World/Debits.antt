-- ===== src/World/Debits.antt =====
-- The balances that an instruction of the world lowers.
use mathlib.Core.Path.{subst}
use eventop.Base.{ℤ, ◌≡◌, ◌<◌, ◌∙◌, ap, arith, List}
use eventop.Runtime.Result.{ok, >>=-eq-ok}
use eventop.Runtime.Token.{Ledger}
use eventop.Runtime.Anchor.{Pubkey, Solana}
use eventop.Runtime.Laws.{IsSolana}
use eventop.Protocol.InitializeProtocol
use eventop.Protocol.InitializeYieldVault.{initialize_yield_vault}
use eventop.Protocol.UpdateProtocolFee.{update_protocol_fee}
use eventop.Wallet.CreateWallet.{create_subscription_wallet}
use eventop.Wallet.Deposit.{deposit_to_wallet}
use eventop.Wallet.Withdraw.{withdraw_from_wallet}
use eventop.YieldOps.Accounts.{YieldAccounts}
use eventop.YieldOps.Request.{Request, run}
use eventop.VaultManagement.RebalanceVault.{rebalance_vault}
use eventop.VaultManagement.SetEmergencyMode.{set_emergency_mode}
use eventop.Subscription.RegisterMerchant.{register_merchant}
use eventop.Subscription.Subscribe.{subscribe_with_wallet}
use eventop.Subscription.ExecutePayment.{execute_payment_from_wallet}
use eventop.Subscription.CancelSubscription.{cancel_subscription_wallet}
use eventop.Funds
use eventop.Funds.Conservation.{exec-spends}
use eventop.World.{
  World, Message, initialize_protocol, initialize_vault, update_fee, create_wallet, deposit,
  withdraw, trade, rebalance, set_emergency, register, subscribe, pay, cancel,
}
use eventop.World.Accounts.{
  initialization_at, vault_creation_at, registration_at, creation_at, load_fee, load_deposit,
  load_withdrawal, load_trade, load_rebalancing, load_emergency, load_signup, load_payment,
  load_cancel,
}
use eventop.World.Exec.{exec}
use eventop.World.Steps.{stages}
use eventop.World.Consent.{MayTake, source}
use eventop.World.Ledgers.{
  initialize_ledger, initialize_vault_ledger, update_fee_ledger, create_wallet_ledger,
  set_emergency_ledger, register_ledger, subscribe_ledger, cancel_ledger, withdraw_owner,
  payment_owner, rebalance_signed,
}
use eventop.World.Parties.{
  load_deposit_parties, load_withdrawal_parties, load_trade_parties, load_rebalancing_parties,
  load_payment_parties,
}

-- The token accounts stay as they are.
unmoved :
    (w w' : World) (k : Pubkey) (l : Ledger)
    → w'.ledger ≡ l
    → l ≡ w.ledger
    → (w'.ledger k).amount < (w.ledger k).amount
    → ⊥
unmoved w w' k l stored same fell =
    let kept : (w'.ledger k).amount ≡ (w.ledger k).amount =
      ap (λ (l : Ledger). (l k).amount) (stored ∙ same) in
    omega (arith, kept)

trade_source-eq :
    (ctx : YieldAccounts) (q : Request) (wallet_tokens buffer : Pubkey)
    → ctx.wallet_token_account.key ≡ wallet_tokens
    → ctx.vault_buffer.key ≡ buffer
    → Funds.trade_source ctx q ≡ source q wallet_tokens buffer
trade_source-eq ctx (Request.enable n) wallet_tokens buffer wallet vault = wallet
trade_source-eq ctx (Request.deposit n) wallet_tokens buffer wallet vault = wallet
trade_source-eq ctx (Request.withdraw n) wallet_tokens buffer wallet vault = vault
trade_source-eq ctx Request.disable wallet_tokens buffer wallet vault = vault

module _ {solana : Solana} (laws : IsSolana solana) (signers : List Pubkey) (now : ℤ)
    (w : World) where
  -- An instruction lowers the balance of an account only with consent. A deposit takes from the
  -- account that it names, whose owner has signed; a withdrawal from the wallet's own account, whose
  -- wallet's owner has signed; a yield instruction from the account that it names, if the wallet's
  -- owner has signed; a payment from the wallet's own account, for an active subscription of that
  -- wallet whose interval has passed; a rebalancing, if the vault's authority has signed. No other
  -- instruction lowers a balance.
  pub exec-MayTake :
      (message : Message) (k : Pubkey) {w' : World}
      → exec solana signers now w message ≡ ok w'
      → (w'.ledger k).amount < (w.ledger k).amount
      → MayTake w signers now message k
  unfolding exec Funds.exec
  exec-MayTake (initialize_protocol config authority treasury bps) k {w'} h fell =
      let ctx = initialization_at signers w config authority treasury in
      let (o, done, e) =
        >>=-eq-ok (InitializeProtocol.initialize_protocol solana ctx bps w.ledger) _ h in
      let stored : w'.ledger ≡ o.ledger = cc in
      absurd (unmoved w w' k o.ledger stored (initialize_ledger solana ctx bps w.ledger done) fell)
  exec-MayTake (initialize_vault vault authority mint usdc_buffer f_tokens lending bps) k {w'} h
        fell =
      let ctx = vault_creation_at signers w vault authority mint usdc_buffer f_tokens lending in
      let (o, done, e) = >>=-eq-ok (initialize_yield_vault solana ctx bps w.ledger) _ h in
      let stored : w'.ledger ≡ o.ledger = cc in
      absurd
        (unmoved w w' k o.ledger stored (initialize_vault_ledger solana ctx bps w.ledger done) fell)
  exec-MayTake (update_fee config authority bps) k {w'} h fell =
      let (ctx, o, loaded, done, e) =
        stages (load_fee signers w config authority)
          (λ ctx. update_protocol_fee solana ctx bps w.ledger) _ h in
      absurd (
        unmoved w w' k o.ledger (ap (λ (w : World). w.ledger) e)
          (update_fee_ledger solana ctx bps w.ledger done) fell)
  exec-MayTake (create_wallet wallet main user mint) k {w'} h fell =
      let ctx = creation_at signers w wallet main user mint in
      let (o, done, e) = >>=-eq-ok (create_subscription_wallet solana ctx w.ledger) _ h in
      let stored : w'.ledger ≡ o.ledger = cc in
      absurd (unmoved w w' k o.ledger stored (create_wallet_ledger solana ctx w.ledger done) fell)
  exec-MayTake (set_emergency vault authority buffer f_tokens f_token_mint lending enabled) k {w'} h
        fell =
      let (ctx, o, loaded, done, e) =
        stages (load_emergency signers w vault authority buffer f_tokens f_token_mint lending)
          (λ ctx. set_emergency_mode solana ctx enabled w.ledger) _ h in
      absurd (
        unmoved w w' k o.ledger (ap (λ (w : World). w.ledger) e)
          (set_emergency_ledger solana ctx enabled w.ledger done) fell)
  exec-MayTake (register plan merchant mint terms) k {w'} h fell =
      let ctx = registration_at signers w plan merchant mint in
      let (o, done, e) = >>=-eq-ok (register_merchant solana ctx terms w.ledger) _ h in
      let stored : w'.ledger ≡ o.ledger = cc in
      absurd (unmoved w w' k o.ledger stored (register_ledger solana ctx terms w.ledger done) fell)
  exec-MayTake (subscribe subscription tracker wallet plan user wallet_tokens token) k {w'} h fell =
      let (ctx, o, loaded, done, e) =
        stages (load_signup signers w subscription tracker wallet plan user wallet_tokens)
          (λ ctx. subscribe_with_wallet solana ctx token now w.ledger) _ h in
      absurd (
        unmoved w w' k o.ledger (ap (λ (w : World). w.ledger) e)
          (subscribe_ledger solana ctx token now w.ledger done) fell)
  exec-MayTake (cancel subscription wallet plan user) k {w'} h fell =
      let (ctx, o, loaded, done, e) =
        stages (load_cancel signers w subscription wallet plan user)
          (λ ctx. cancel_subscription_wallet solana ctx w.ledger) _ h in
      absurd (
        unmoved w w' k o.ledger (ap (λ (w : World). w.ledger) e)
          (cancel_ledger solana ctx w.ledger done) fell)
  exec-MayTake (deposit wallet user user_tokens wallet_tokens amount) k {w'} h fell =
      let (ctx, o, loaded, done, e) =
        stages (load_deposit signers w wallet user user_tokens wallet_tokens)
          (λ ctx. deposit_to_wallet solana ctx amount w.ledger) _ h in
      let less : (o.ledger k).amount < (w.ledger k).amount =
        subst (λ (v : World). (v.ledger k).amount < (w.ledger k).amount) e fell in
      let (here, allowed) =
        exec-spends laws (Funds.deposit ctx amount) w.ledger k (ap Funds.ledger_of done) less in
      let parties = load_deposit_parties signers w wallet user user_tokens wallet_tokens loaded in
      ground arith
  exec-MayTake (withdraw wallet owner user_tokens wallet_tokens amount) k {w'} h fell =
      let (ctx, o, loaded, done, e) =
        stages (load_withdrawal signers w wallet owner user_tokens wallet_tokens)
          (λ ctx. withdraw_from_wallet solana ctx amount w.ledger) _ h in
      let less : (o.ledger k).amount < (w.ledger k).amount =
        subst (λ (v : World). (v.ledger k).amount < (w.ledger k).amount) e fell in
      let (here, allowed) =
        exec-spends laws (Funds.withdraw ctx amount) w.ledger k (ap Funds.ledger_of done) less in
      let parties =
        load_withdrawal_parties signers w wallet owner user_tokens wallet_tokens loaded in
      let own = withdraw_owner solana ctx amount w.ledger done in
      (ground arith, ground arith, (ctx.subscription_wallet.state, ground arith, ground arith))
  exec-MayTake (trade wallet vault owner wallet_tokens buffer lending q) k {w'} h fell =
      let (ctx, o, loaded, done, e) =
        stages (load_trade signers w wallet vault owner wallet_tokens buffer lending)
          (λ ctx. run solana ctx q w.ledger) _ h in
      let less : (o.ledger k).amount < (w.ledger k).amount =
        subst (λ (v : World). (v.ledger k).amount < (w.ledger k).amount) e fell in
      let (here, allowed) =
        exec-spends laws (Funds.trade ctx q) w.ledger k (ap Funds.ledger_of done) less in
      let parties =
        load_trade_parties signers w wallet vault owner wallet_tokens buffer lending loaded in
      (
        here ∙ trade_source-eq ctx q wallet_tokens buffer parties.1 parties.2,
        (ctx.subscription_wallet.state, parties.3, ground arith),
      )
  exec-MayTake
        (pay subscription wallet plan config wallet_tokens merchant_tokens treasury vault buffer
          lending)
        k {w'} h fell =
      let (ctx, o, loaded, done, e) =
        stages
          (load_payment w subscription wallet plan config wallet_tokens merchant_tokens treasury
            vault buffer lending)
          (λ ctx. execute_payment_from_wallet solana ctx now w.ledger) _ h in
      let less : (o.ledger k).amount < (w.ledger k).amount =
        subst (λ (v : World). (v.ledger k).amount < (w.ledger k).amount) e fell in
      let (here, allowed) =
        exec-spends laws (Funds.pay ctx now) w.ledger k (ap Funds.ledger_of done) less in
      let parties =
        load_payment_parties w subscription wallet plan config wallet_tokens merchant_tokens
          treasury vault buffer lending loaded in
      let own = payment_owner solana ctx now w.ledger done in
      (
        ground arith,
        ground arith,
        (ctx.subscription_state.state, ground arith, ground arith, ground arith, ground arith),
      )
  exec-MayTake
        (rebalance vault authority buffer f_tokens mint f_token_mint lending_admin lending
          supply_token_reserves_liquidity lending_supply_position_on_liquidity rate_model
          jupiter_vault claim_account liquidity liquidity_program rewards_rate_model lending_program
          token_program associated_token_program system_program)
        k {w'} h fell =
      let (ctx, o, loaded, done, e) =
        stages
          (load_rebalancing signers w vault authority buffer f_tokens mint f_token_mint
            lending_admin lending supply_token_reserves_liquidity
            lending_supply_position_on_liquidity rate_model jupiter_vault claim_account liquidity
            liquidity_program rewards_rate_model lending_program token_program
            associated_token_program system_program)
          (λ ctx. rebalance_vault solana ctx w.ledger) _ h in
      let parties =
        load_rebalancing_parties signers w vault authority buffer f_tokens mint f_token_mint
          lending_admin lending supply_token_reserves_liquidity lending_supply_position_on_liquidity
          rate_model jupiter_vault claim_account liquidity liquidity_program rewards_rate_model
          lending_program token_program associated_token_program system_program loaded in
      let signed = rebalance_signed solana ctx w.ledger done in
      (ctx.yield_vault.state, parties.1, ground arith)
