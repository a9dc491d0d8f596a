-- ===== src/World/Allowed.antt =====
-- Each instruction that writes a wallet or a vault, with the consent that it has checked.
use eventop.Base.{ℕ, Bool, ◌≡◌, ◌∙◌, ap, arith, List}
use eventop.Runtime.Result.{ok, >>=-eq-ok}
use eventop.Runtime.Anchor.{Pubkey, Solana}
use eventop.Protocol.InitializeYieldVault.{initialize_yield_vault}
use eventop.Wallet.CreateWallet.{create_subscription_wallet}
use eventop.YieldOps.Request.{run}
use eventop.VaultManagement.RebalanceVault.{rebalance_vault}
use eventop.VaultManagement.SetEmergencyMode.{set_emergency_mode}
use eventop.Funds
use eventop.World.{World, initialize_vault, create_wallet, trade, rebalance, set_emergency}
use eventop.World.Accounts.{
  vault_creation_at, creation_at, load_trade, load_rebalancing, load_emergency,
}
use eventop.State.YieldVault.{YieldVault}
use eventop.State.SubscriptionWallet.{SubscriptionWallet}
use eventop.YieldOps.Request.{Request}
use eventop.World.Exec.{exec}
use eventop.World.Steps.{stages}
use eventop.World.Consent.{IsAllowed, MayChange, MayChangeVault, OwnerSigned, AuthoritySigned}
use eventop.World.Parties.{load_trade_parties}
use eventop.Base.{ℤ, inl}
use eventop.Base.Assoc.{find, put}
use eventop.Funds.Moves.{exec-IsAuthorised}
use eventop.VaultManagement.Emergency.{set_emergency-IsSwitched}
use eventop.VaultManagement.RebalanceVault.{RebalanceVault}
use eventop.Pool.Kept.{rebalance_shares}
use eventop.World.Written.{written, rewritten, created_signed, vault_created_signed}
use eventop.World.Load.{save}
use eventop.World.Loaded.{load_rebalancing-IsStored}
use eventop.World.Kept.{run-Rewrites, switch-Rewrites}
use eventop.World.Made.{create_wallet-Makes, initialize_vault-Makes}
use eventop.World.Parties.{load_trade_keys, load_emergency_parties}

module _ (solana : Solana) (signers : List Pubkey) (now : ℤ) (w : World) where
  pub create_wallet-IsAllowed :
      (wallet main user mint : Pubkey) (k : Pubkey) {w' : World}
      → exec solana signers now w (create_wallet wallet main user mint) ≡ ok w'
      → IsAllowed w w' signers now (create_wallet wallet main user mint) k
  unfolding exec Funds.exec
  create_wallet-IsAllowed wallet main user mint k {w'} h =
      let ctx = creation_at signers w wallet main user mint in
      let (o, done, stored) = >>=-eq-ok (create_subscription_wallet solana ctx w.ledger) _ h in
      let (fresh, v, made, _) = create_wallet-Makes solana ctx w.ledger done in
      let after : w'.registry.wallets ≡ put wallet v w.registry.wallets = cc in
      let vaults : w'.vaults ≡ w.vaults = cc in
      (
        written (MayChange w signers now (create_wallet wallet main user mint) k) k wallet v
            w.registry.wallets after
            λ here. (here, rw here fresh, created_signed solana ctx w.ledger done),
        inl (ap (λ (m : List (Pubkey × YieldVault)). find k m) vaults),
      )

  pub initialize_vault-IsAllowed :
      (vault authority mint usdc_buffer f_tokens lending : Pubkey) (bps : ℕ) (k : Pubkey)
      {w' : World}
      → exec solana signers now w
          (initialize_vault vault authority mint usdc_buffer f_tokens lending bps)
        ≡ ok w'
      → IsAllowed w w' signers now
          (initialize_vault vault authority mint usdc_buffer f_tokens lending bps)
          k
  unfolding exec Funds.exec
  initialize_vault-IsAllowed vault authority mint usdc_buffer f_tokens lending bps k {w'} h =
      let ctx = vault_creation_at signers w vault authority mint usdc_buffer f_tokens lending in
      let (o, done, stored) = >>=-eq-ok (initialize_yield_vault solana ctx bps w.ledger) _ h in
      let (fresh, v, made, _) = initialize_vault-Makes solana ctx bps w.ledger done in
      let after : w'.vaults ≡ put vault v w.vaults = cc in
      let wallets : w'.registry.wallets ≡ w.registry.wallets = cc in
      (
        inl (ap (λ (m : List (Pubkey × SubscriptionWallet)). find k m) wallets),
        written
            (MayChangeVault w signers
              (initialize_vault vault authority mint usdc_buffer f_tokens lending bps) k)
            k vault v w.vaults after
            λ here. (here, rw here fresh, vault_created_signed solana ctx bps w.ledger done),
      )

  pub trade-IsAllowed :
      (wallet vault owner wallet_tokens buffer lending : Pubkey) (q : Request) (k : Pubkey)
      {w' : World}
      → exec solana signers now w (trade wallet vault owner wallet_tokens buffer lending q) ≡ ok w'
      → IsAllowed w w' signers now (trade wallet vault owner wallet_tokens buffer lending q) k
  unfolding exec Funds.exec
  trade-IsAllowed wallet vault owner wallet_tokens buffer lending q k {w'} h =
      let (ctx, o, loaded, done, e) =
        stages (load_trade signers w wallet vault owner wallet_tokens buffer lending)
          (λ ctx. run solana ctx q w.ledger) _ h in
      let (owner_is, _, _, there) =
        load_trade_parties signers w wallet vault owner wallet_tokens buffer lending loaded in
      let (wallet_is, vault_is) =
        load_trade_keys signers w wallet vault owner wallet_tokens buffer lending loaded in
      let (signed, owns) =
        exec-IsAuthorised solana (Funds.trade ctx q) w.ledger (ap Funds.ledger_of done) in
      let ((vault_key, _), (wallet_key, _)) = run-Rewrites solana ctx q w.ledger done in
      let consent : OwnerSigned w signers wallet =
        (ctx.subscription_wallet.state, there, ground arith) in
      (
        written
            (MayChange w signers now (trade wallet vault owner wallet_tokens buffer lending q) k) k
            o.accounts.subscription_wallet.key o.accounts.subscription_wallet.state
            w.registry.wallets (ap (λ (w : World). w.registry.wallets) e)
            λ here. (here ∙ wallet_key ∙ wallet_is, rw (here ∙ wallet_key ∙ wallet_is) consent),
        written
            (MayChangeVault w signers (trade wallet vault owner wallet_tokens buffer lending q) k) k
            o.accounts.yield_vault.key o.accounts.yield_vault.state w.vaults
            (ap (λ (w : World). w.vaults) e) λ here. (here ∙ vault_key ∙ vault_is, consent),
      )

  pub rebalance-IsAllowed :
      (vault authority buffer f_tokens mint f_token_mint lending_admin lending
        supply_token_reserves_liquidity lending_supply_position_on_liquidity rate_model
        jupiter_vault claim_account liquidity liquidity_program rewards_rate_model lending_program
        token_program associated_token_program system_program : Pubkey)
      (k : Pubkey) {w' : World}
      → exec solana signers now w (
          rebalance vault authority buffer f_tokens mint f_token_mint lending_admin lending
            supply_token_reserves_liquidity lending_supply_position_on_liquidity rate_model
            jupiter_vault claim_account liquidity liquidity_program rewards_rate_model
            lending_program token_program associated_token_program system_program)
        ≡ ok w'
      → IsAllowed w w' signers now
          (rebalance vault authority buffer f_tokens mint f_token_mint lending_admin lending
            supply_token_reserves_liquidity lending_supply_position_on_liquidity rate_model
            jupiter_vault claim_account liquidity liquidity_program rewards_rate_model
            lending_program token_program associated_token_program system_program)
          k
  unfolding exec Funds.exec
  rebalance-IsAllowed vault authority buffer f_tokens mint f_token_mint lending_admin lending
        supply_token_reserves_liquidity lending_supply_position_on_liquidity rate_model
        jupiter_vault claim_account liquidity liquidity_program rewards_rate_model lending_program
        token_program associated_token_program system_program k {w'} h =
      let (ctx, o, loaded, done, e) =
        stages
          (load_rebalancing signers w vault authority buffer f_tokens mint f_token_mint
            lending_admin lending supply_token_reserves_liquidity
            lending_supply_position_on_liquidity rate_model jupiter_vault claim_account liquidity
            liquidity_program rewards_rate_model lending_program token_program
            associated_token_program system_program)
          (λ ctx. rebalance_vault solana ctx w.ledger) _ h in
      let stored =
        load_rebalancing-IsStored signers w vault authority buffer f_tokens mint f_token_mint
          lending_admin lending supply_token_reserves_liquidity lending_supply_position_on_liquidity
          rate_model jupiter_vault claim_account liquidity liquidity_program rewards_rate_model
          lending_program token_program associated_token_program system_program loaded in
      let same = rebalance_shares solana ctx w.ledger done in
      (
        inl (ap (λ (w : World). find k w.registry.wallets) e),
        inl (
            (ap (λ (w : World). find k w.vaults) e)
            ∙ ap (λ (c : RebalanceVault). find k (save c.yield_vault w.vaults)) same
            ∙ rewritten k ctx.yield_vault w.vaults stored),
      )

  pub set_emergency-IsAllowed :
      (vault authority buffer f_tokens f_token_mint lending : Pubkey) (enabled : Bool) (k : Pubkey)
      {w' : World}
      → exec solana signers now w
          (set_emergency vault authority buffer f_tokens f_token_mint lending enabled)
        ≡ ok w'
      → IsAllowed w w' signers now
          (set_emergency vault authority buffer f_tokens f_token_mint lending enabled)
          k
  unfolding exec Funds.exec
  set_emergency-IsAllowed vault authority buffer f_tokens f_token_mint lending enabled k {w'} h =
      let (ctx, o, loaded, done, e) =
        stages (load_emergency signers w vault authority buffer f_tokens f_token_mint lending)
          (λ ctx. set_emergency_mode solana ctx enabled w.ledger) _ h in
      let (authority_is, vault_is, there) =
        load_emergency_parties signers w vault authority buffer f_tokens f_token_mint lending
          loaded in
      let switched = set_emergency-IsSwitched solana ctx w.ledger enabled done in
      let (vault_key, _) = switch-Rewrites solana ctx enabled w.ledger done in
      let consent : AuthoritySigned w signers vault =
        (ctx.yield_vault.state, there, ground (arith, switched.signed, switched.by_authority)) in
      (
        inl (ap (λ (w : World). find k w.registry.wallets) e),
        written
            (MayChangeVault w signers
              (set_emergency vault authority buffer f_tokens f_token_mint lending enabled) k)
            k o.accounts.yield_vault.key o.accounts.yield_vault.state w.vaults
            (ap (λ (w : World). w.vaults) e)
            λ here. (here ∙ vault_key ∙ vault_is, rw (here ∙ vault_key ∙ vault_is) consent),
      )
