-- ===== src/World/Changes.antt =====
-- Whose consent an instruction of the world needs to change a wallet or a vault.
use eventop.Base.{◌≡◌, ap, List}
use eventop.Runtime.Result.{ok, >>=-eq-ok}
use eventop.Runtime.Anchor.{Pubkey, Solana}
use eventop.Protocol.InitializeProtocol
use eventop.Protocol.UpdateProtocolFee.{update_protocol_fee}
use eventop.Wallet.Deposit.{deposit_to_wallet}
use eventop.Wallet.Withdraw.{withdraw_from_wallet}
use eventop.Subscription.RegisterMerchant.{register_merchant}
use eventop.World.{
  World, Message, initialize_protocol, initialize_vault, update_fee, create_wallet, deposit,
  withdraw, trade, rebalance, set_emergency, register, subscribe, pay, cancel,
}
use eventop.World.Accounts.{
  initialization_at, registration_at, load_fee, load_deposit, load_withdrawal,
}
use eventop.World.Exec.{exec}
use eventop.World.Steps.{stages}
use eventop.World.Consent.{IsAllowed}
use eventop.Base.{ℤ, inl}
use eventop.Base.Assoc.{find}
use eventop.World.Allowed.{
  create_wallet-IsAllowed, initialize_vault-IsAllowed, trade-IsAllowed, rebalance-IsAllowed,
  set_emergency-IsAllowed,
}
use eventop.World.AllowedSubscriptions.{subscribe-IsAllowed, pay-IsAllowed, cancel-IsAllowed}
use eventop.World.Load.{save_new}

module _ (solana : Solana) (signers : List Pubkey) (now : ℤ) (w : World) where
  -- An instruction changes a wallet or a vault only with consent. A wallet is made where there was
  -- none, for a signer; it is changed by a yield instruction or a new subscription if its owner has
  -- signed, by the cancellation of a subscription of it if the subscription's user has, and by a due
  -- payment of an active subscription of it. A vault is made where there was none, by a signer; it is
  -- changed by a yield instruction, if the owner of the wallet that it names has signed, and by the
  -- emergency switch, if the vault's authority has. Every other instruction leaves all of them as they
  -- are.
  pub exec-MayChange :
      (message : Message) (k : Pubkey) {w' : World}
      → exec solana signers now w message ≡ ok w'
      → IsAllowed w w' signers now message k
  unfolding exec
  exec-MayChange (initialize_protocol config authority treasury bps) k {w'} h =
      let ctx = initialization_at signers w config authority treasury in
      let (o, done, stored) =
        >>=-eq-ok (InitializeProtocol.initialize_protocol solana ctx bps w.ledger) _ h in
      let e : w' ≡ record w {
        configs = save_new o.accounts.protocol_config w.configs;
        ledger = o.ledger;
      } =
        cc in
      (
        inl (ap (λ (w : World). find k w.registry.wallets) e),
        inl (ap (λ (w : World). find k w.vaults) e),
      )
  exec-MayChange (update_fee config authority bps) k {w'} h =
      let (ctx, o, loaded, done, e) =
        stages (load_fee signers w config authority)
          (λ ctx. update_protocol_fee solana ctx bps w.ledger) _ h in
      (
        inl (ap (λ (w : World). find k w.registry.wallets) e),
        inl (ap (λ (w : World). find k w.vaults) e),
      )
  exec-MayChange (register plan merchant mint terms) k {w'} h =
      let ctx = registration_at signers w plan merchant mint in
      let (o, done, stored) = >>=-eq-ok (register_merchant solana ctx terms w.ledger) _ h in
      let e : w'
          ≡ record w { plans = save_new o.accounts.merchant_plan w.plans; ledger = o.ledger } =
        cc in
      (
        inl (ap (λ (w : World). find k w.registry.wallets) e),
        inl (ap (λ (w : World). find k w.vaults) e),
      )
  exec-MayChange (deposit wallet user user_tokens wallet_tokens amount) k {w'} h =
      let (ctx, o, loaded, done, e) =
        stages (load_deposit signers w wallet user user_tokens wallet_tokens)
          (λ ctx. deposit_to_wallet solana ctx amount w.ledger) _ h in
      (
        inl (ap (λ (w : World). find k w.registry.wallets) e),
        inl (ap (λ (w : World). find k w.vaults) e),
      )
  exec-MayChange (withdraw wallet owner user_tokens wallet_tokens amount) k {w'} h =
      let (ctx, o, loaded, done, e) =
        stages (load_withdrawal signers w wallet owner user_tokens wallet_tokens)
          (λ ctx. withdraw_from_wallet solana ctx amount w.ledger) _ h in
      (
        inl (ap (λ (w : World). find k w.registry.wallets) e),
        inl (ap (λ (w : World). find k w.vaults) e),
      )
  exec-MayChange (create_wallet wallet main user mint) k h =
      create_wallet-IsAllowed solana signers now w wallet main user mint k h
  exec-MayChange (initialize_vault vault authority mint usdc_buffer f_tokens lending bps) k h =
      initialize_vault-IsAllowed solana signers now w vault authority mint usdc_buffer f_tokens
        lending bps k h
  exec-MayChange (trade wallet vault owner wallet_tokens buffer lending q) k h =
      trade-IsAllowed solana signers now w wallet vault owner wallet_tokens buffer lending q k h
  exec-MayChange
        (rebalance vault authority buffer f_tokens mint f_token_mint lending_admin lending
          supply_token_reserves_liquidity lending_supply_position_on_liquidity rate_model
          jupiter_vault claim_account liquidity liquidity_program rewards_rate_model lending_program
          token_program associated_token_program system_program)
        k h =
      rebalance-IsAllowed solana signers now w vault authority buffer f_tokens mint f_token_mint
        lending_admin lending supply_token_reserves_liquidity lending_supply_position_on_liquidity
        rate_model jupiter_vault claim_account liquidity liquidity_program rewards_rate_model
        lending_program token_program associated_token_program system_program k h
  exec-MayChange (set_emergency vault authority buffer f_tokens f_token_mint lending enabled) k h =
      set_emergency-IsAllowed solana signers now w vault authority buffer f_tokens f_token_mint
        lending enabled k h
  exec-MayChange (subscribe subscription tracker wallet plan user wallet_tokens token) k h =
      subscribe-IsAllowed solana signers now w subscription tracker wallet plan user wallet_tokens
        token k h
  exec-MayChange
        (pay subscription wallet plan config wallet_tokens merchant_tokens treasury vault buffer
          lending)
        k h =
      pay-IsAllowed solana signers now w subscription wallet plan config wallet_tokens
        merchant_tokens treasury vault buffer lending k h
  exec-MayChange (cancel subscription wallet plan user) k h =
      cancel-IsAllowed solana signers now w subscription wallet plan user k h
