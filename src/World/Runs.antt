-- ===== src/World/Runs.antt =====
-- Every message that goes through is a step.
use eventop.Base.{ℤ, refl, ◌≡◌, List}
use eventop.Runtime.Result.{ok, >>=-eq-ok}
use eventop.Runtime.Anchor.{Pubkey, Solana}
use eventop.Protocol.InitializeProtocol
use eventop.Protocol.InitializeProtocol.{InitializeProtocol}
use eventop.Protocol.InitializeYieldVault.{initialize_yield_vault}
use eventop.Protocol.UpdateProtocolFee.{update_protocol_fee}
use eventop.Wallet.CreateWallet.{create_subscription_wallet}
use eventop.Wallet.Deposit.{deposit_to_wallet}
use eventop.Wallet.Withdraw.{withdraw_from_wallet}
use eventop.YieldOps.Request.{run}
use eventop.VaultManagement.RebalanceVault.{rebalance_vault}
use eventop.VaultManagement.SetEmergencyMode.{set_emergency_mode}
use eventop.Subscription.RegisterMerchant.{register_merchant}
use eventop.Subscription.Subscribe.{subscribe_with_wallet}
use eventop.Subscription.ExecutePayment.{execute_payment_from_wallet}
use eventop.Subscription.CancelSubscription.{cancel_subscription_wallet}
use eventop.World.{
  World, Message, initialize_protocol, initialize_vault, update_fee, create_wallet, deposit,
  withdraw, trade, rebalance, set_emergency, register, subscribe, pay, cancel,
}
use eventop.World.Accounts.{
  creation_at, initialization_at, load_cancel, load_deposit, load_emergency, load_fee, load_payment,
  load_rebalancing, load_signup, load_trade, load_withdrawal, registration_at, vault_creation_at,
}
use eventop.World.Exec.{exec}
use eventop.World.Loaded.{
  load_cancel-IsStored, load_emergency-IsStored, load_fee-IsStored, load_payment-IsStored,
  load_rebalancing-IsStored, load_signup-IsStored, load_trade-IsStored,
}
use eventop.World.Steps.{
  Ran, moved, configured, fee_updated, vault_created, rebalanced, switched, registered,
  wallet_created, traded, subscribed, paid, cancelled, stages,
}

module _ (solana : Solana) (signers : List Pubkey) (now : ℤ) where
  -- An instruction that goes through is one of the steps.
  pub exec-Ran :
      (w : World) (message : Message) {w' : World}
      → exec solana signers now w message ≡ ok w'
      → Ran solana now w w'
  unfolding exec
  exec-Ran w (initialize_protocol config authority treasury bps) h =
      let ctx = initialization_at signers w config authority treasury in
      let (o, done, e) =
        >>=-eq-ok (InitializeProtocol.initialize_protocol solana ctx bps w.ledger) _ h in
      configured ctx bps o refl done cc
  exec-Ran w (initialize_vault vault authority mint usdc_buffer f_tokens lending bps) h =
      let ctx = vault_creation_at signers w vault authority mint usdc_buffer f_tokens lending in
      let (o, done, e) = >>=-eq-ok (initialize_yield_vault solana ctx bps w.ledger) _ h in
      vault_created ctx bps o refl done cc
  exec-Ran w (update_fee config authority bps) h =
      let (ctx, o, loaded, done, e) =
        stages (load_fee signers w config authority)
          (λ ctx. update_protocol_fee solana ctx bps w.ledger) _ h in
      fee_updated ctx bps o (load_fee-IsStored signers w config authority loaded) done e
  exec-Ran w (create_wallet wallet main user mint) h =
      let ctx = creation_at signers w wallet main user mint in
      let (o, done, e) = >>=-eq-ok (create_subscription_wallet solana ctx w.ledger) _ h in
      wallet_created ctx o refl done cc
  exec-Ran w (deposit wallet user user_tokens wallet_tokens amount) h =
      let (ctx, o, loaded, done, e) =
        stages (load_deposit signers w wallet user user_tokens wallet_tokens)
          (λ ctx. deposit_to_wallet solana ctx amount w.ledger) _ h in
      moved cc
  exec-Ran w (withdraw wallet owner user_tokens wallet_tokens amount) h =
      let (ctx, o, loaded, done, e) =
        stages (load_withdrawal signers w wallet owner user_tokens wallet_tokens)
          (λ ctx. withdraw_from_wallet solana ctx amount w.ledger) _ h in
      moved cc
  exec-Ran w (trade wallet vault owner wallet_tokens buffer lending q) h =
      let (ctx, o, loaded, done, e) =
        stages (load_trade signers w wallet vault owner wallet_tokens buffer lending)
          (λ ctx. run solana ctx q w.ledger) _ h in
      let (wallet_stored, vault_stored) =
        load_trade-IsStored signers w wallet vault owner wallet_tokens buffer lending loaded in
      traded ctx q o wallet_stored vault_stored done e
  exec-Ran w
        (rebalance vault authority buffer f_tokens mint f_token_mint lending_admin lending
          supply_token_reserves_liquidity lending_supply_position_on_liquidity rate_model
          jupiter_vault claim_account liquidity liquidity_program rewards_rate_model lending_program
          token_program associated_token_program system_program)
        h =
      let (ctx, o, loaded, done, e) =
        stages
          (load_rebalancing signers w vault authority buffer f_tokens mint f_token_mint
            lending_admin lending supply_token_reserves_liquidity
            lending_supply_position_on_liquidity rate_model jupiter_vault claim_account liquidity
            liquidity_program rewards_rate_model lending_program token_program
            associated_token_program system_program)
          (λ ctx. rebalance_vault solana ctx w.ledger) _ h in
      rebalanced ctx o
        (load_rebalancing-IsStored signers w vault authority buffer f_tokens mint f_token_mint
          lending_admin lending supply_token_reserves_liquidity lending_supply_position_on_liquidity
          rate_model jupiter_vault claim_account liquidity liquidity_program rewards_rate_model
          lending_program token_program associated_token_program system_program loaded)
        done e
  exec-Ran w (set_emergency vault authority buffer f_tokens f_token_mint lending enabled) h =
      let (ctx, o, loaded, done, e) =
        stages (load_emergency signers w vault authority buffer f_tokens f_token_mint lending)
          (λ ctx. set_emergency_mode solana ctx enabled w.ledger) _ h in
      switched ctx enabled o
        (load_emergency-IsStored signers w vault authority buffer f_tokens f_token_mint lending
          loaded)
        done e
  exec-Ran w (register plan merchant mint terms) h =
      let ctx = registration_at signers w plan merchant mint in
      let (o, done, e) = >>=-eq-ok (register_merchant solana ctx terms w.ledger) _ h in
      registered ctx terms o refl done cc
  exec-Ran w (subscribe subscription tracker wallet plan user wallet_tokens token) h =
      let (ctx, o, loaded, done, e) =
        stages (load_signup signers w subscription tracker wallet plan user wallet_tokens)
          (λ ctx. subscribe_with_wallet solana ctx token now w.ledger) _ h in
      let (new, seen, wallet_stored, plan_stored) =
        load_signup-IsStored signers w subscription tracker wallet plan user wallet_tokens loaded in
      subscribed ctx token o new seen wallet_stored plan_stored done e
  exec-Ran w
        (pay subscription wallet plan config wallet_tokens merchant_tokens treasury vault buffer
          lending)
        h =
      let (ctx, o, loaded, done, e) =
        stages
          (load_payment w subscription wallet plan config wallet_tokens merchant_tokens treasury
            vault buffer lending)
          (λ ctx. execute_payment_from_wallet solana ctx now w.ledger) _ h in
      let (sub_stored, wallet_stored, vault_stored) =
        load_payment-IsStored w subscription wallet plan config wallet_tokens merchant_tokens
          treasury vault buffer lending loaded in
      paid ctx o sub_stored wallet_stored vault_stored done e
  exec-Ran w (cancel subscription wallet plan user) h =
      let (ctx, o, loaded, done, e) =
        stages (load_cancel signers w subscription wallet plan user)
          (λ ctx. cancel_subscription_wallet solana ctx w.ledger) _ h in
      let (sub_stored, wallet_stored, plan_stored) =
        load_cancel-IsStored signers w subscription wallet plan user loaded in
      cancelled ctx o sub_stored wallet_stored plan_stored done e
