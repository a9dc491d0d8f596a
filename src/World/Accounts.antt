-- ===== src/World/Accounts.antt =====
-- The accounts of each instruction as they are loaded from the world.
use eventop.Base.{Option, List}
use eventop.Runtime.Result.{Result, ok, ◌>>=◌}
use eventop.Runtime.Anchor.{Pubkey}
use eventop.Protocol.UpdateProtocolFee.{UpdateProtocolFee}
use eventop.Protocol.InitializeProtocol.{InitializeProtocol}
use eventop.Protocol.InitializeYieldVault.{InitializeYieldVault}
use eventop.Wallet.CreateWallet.{CreateSubscriptionWallet}
use eventop.Wallet.Deposit.{DepositToWallet}
use eventop.Wallet.Withdraw.{WithdrawFromWallet}
use eventop.YieldOps.Accounts.{YieldAccounts}
use eventop.VaultManagement.RebalanceVault.{RebalanceVault}
use eventop.VaultManagement.SetEmergencyMode.{SetEmergencyMode}
use eventop.Subscription.RegisterMerchant.{RegisterMerchant}
use eventop.Subscription.Subscribe.{SubscribeWithWallet}
use eventop.Subscription.ExecutePayment.{ExecutePaymentFromWallet}
use eventop.Subscription.CancelSubscription.{CancelSubscriptionWallet}
use eventop.World.{World}
use eventop.World.Load.{
  signer_at, load, load_new, load_optional, tokens_at, optional_tokens_at, info_at,
  optional_info_at,
}

-- No account of a payment is a signer.
unfoldable pub load_payment :
    World
    → (subscription wallet plan config wallet_tokens merchant_tokens treasury : Pubkey)
    → (vault buffer lending : Option Pubkey) → Result ExecutePaymentFromWallet
load_payment w subscription wallet plan config wallet_tokens merchant_tokens treasury vault buffer
      lending =
    do
      subscription_state ← load subscription w.registry.subscriptions
      subscription_wallet ← load wallet w.registry.wallets
      merchant_plan ← load plan w.plans
      protocol_config ← load config w.configs
      yield_vault ← load_optional vault w.vaults
      ok (record {
        subscription_state = subscription_state;
        subscription_wallet = subscription_wallet;
        merchant_plan = merchant_plan;
        protocol_config = protocol_config;
        wallet_token_account = tokens_at w wallet_tokens;
        merchant_token_account = tokens_at w merchant_tokens;
        protocol_treasury = tokens_at w treasury;
        yield_vault = yield_vault;
        vault_buffer = optional_tokens_at w buffer;
        jupiter_lending = optional_info_at w lending;
      })

module _ (signers : List Pubkey) where
  -- The accounts of the instructions that change the registry.
  abbrev pub creation_at : World → (wallet main user mint : Pubkey) → CreateSubscriptionWallet
  creation_at w wallet main user mint = record {
    subscription_wallet = load_new wallet w.registry.wallets;
    main_token_account = tokens_at w main;
    user = signer_at signers user;
    mint = mint;
  }

  unfoldable pub load_trade :
      World → (wallet vault owner wallet_tokens buffer lending : Pubkey) → Result YieldAccounts
  load_trade w wallet vault owner wallet_tokens buffer lending = do
    subscription_wallet ← load wallet w.registry.wallets
    yield_vault ← load vault w.vaults
    ok (record {
      subscription_wallet = subscription_wallet;
      yield_vault = yield_vault;
      owner = signer_at signers owner;
      wallet_token_account = tokens_at w wallet_tokens;
      vault_buffer = tokens_at w buffer;
      jupiter_lending = info_at w lending;
    })

  unfoldable pub load_signup :
      World
      → (subscription tracker wallet plan user wallet_tokens : Pubkey) → Result SubscribeWithWallet
  load_signup w subscription tracker wallet plan user wallet_tokens = do
    subscription_wallet ← load wallet w.registry.wallets
    merchant_plan ← load plan w.plans
    ok (record {
      subscription_state = load_new subscription w.registry.subscriptions;
      session_token_tracker = load_new tracker w.registry.trackers;
      subscription_wallet = subscription_wallet;
      merchant_plan = merchant_plan;
      user = signer_at signers user;
      wallet_token_account = tokens_at w wallet_tokens;
    })

  unfoldable pub load_cancel :
      World → (subscription wallet plan user : Pubkey) → Result CancelSubscriptionWallet
  load_cancel w subscription wallet plan user = do
    subscription_state ← load subscription w.registry.subscriptions
    subscription_wallet ← load wallet w.registry.wallets
    merchant_plan ← load plan w.plans
    ok (record {
      subscription_state = subscription_state;
      subscription_wallet = subscription_wallet;
      merchant_plan = merchant_plan;
      user = signer_at signers user;
    })

  unfoldable pub load_deposit :
      World → (wallet user user_tokens wallet_tokens : Pubkey) → Result DepositToWallet
  load_deposit w wallet user user_tokens wallet_tokens = do
    subscription_wallet ← load wallet w.registry.wallets
    ok (record {
      subscription_wallet = subscription_wallet;
      user = signer_at signers user;
      user_token_account = tokens_at w user_tokens;
      wallet_token_account = tokens_at w wallet_tokens;
    })

  unfoldable pub load_withdrawal :
      World → (wallet owner user_tokens wallet_tokens : Pubkey) → Result WithdrawFromWallet
  load_withdrawal w wallet owner user_tokens wallet_tokens = do
    subscription_wallet ← load wallet w.registry.wallets
    ok (record {
      subscription_wallet = subscription_wallet;
      owner = signer_at signers owner;
      user_token_account = tokens_at w user_tokens;
      wallet_token_account = tokens_at w wallet_tokens;
    })

  unfoldable pub load_emergency :
      World
      → (vault authority buffer f_tokens f_token_mint lending : Pubkey) → Result SetEmergencyMode
  load_emergency w vault authority buffer f_tokens f_token_mint lending = do
    yield_vault ← load vault w.vaults
    ok (record {
      yield_vault = yield_vault;
      authority = signer_at signers authority;
      vault_buffer = tokens_at w buffer;
      jupiter_ftoken_account = tokens_at w f_tokens;
      f_token_mint = info_at w f_token_mint;
      jupiter_lending = info_at w lending;
    })

  unfoldable pub load_fee : World → (config authority : Pubkey) → Result UpdateProtocolFee
  load_fee w config authority = do
    protocol_config ← load config w.configs
    ok (record { protocol_config = protocol_config; authority = signer_at signers authority })

  abbrev pub initialization_at : World → (config authority treasury : Pubkey) → InitializeProtocol
  initialization_at w config authority treasury = record {
    protocol_config = load_new config w.configs;
    authority = signer_at signers authority;
    treasury = treasury;
  }

  abbrev pub vault_creation_at :
      World → (vault authority mint usdc_buffer f_tokens lending : Pubkey) → InitializeYieldVault
  vault_creation_at w vault authority mint usdc_buffer f_tokens lending = record {
    yield_vault = load_new vault w.vaults;
    authority = signer_at signers authority;
    mint = mint;
    usdc_buffer = tokens_at w usdc_buffer;
    jupiter_ftoken_account = tokens_at w f_tokens;
    jupiter_lending = info_at w lending;
  }

  abbrev pub registration_at : World → (plan merchant mint : Pubkey) → RegisterMerchant
  registration_at w plan merchant mint = record {
    merchant_plan = load_new plan w.plans;
    merchant = signer_at signers merchant;
    mint = mint;
  }

  -- `RebalanceVault`, in the order of its accounts.
  unfoldable pub load_rebalancing :
      World
      → (vault authority buffer f_tokens mint f_token_mint lending_admin lending
          supply_token_reserves_liquidity lending_supply_position_on_liquidity rate_model
          jupiter_vault claim_account liquidity liquidity_program rewards_rate_model lending_program
          token_program associated_token_program system_program : Pubkey)
      → Result RebalanceVault
  load_rebalancing w vault authority buffer f_tokens mint f_token_mint lending_admin lending
        supply_token_reserves_liquidity lending_supply_position_on_liquidity rate_model
        jupiter_vault claim_account liquidity liquidity_program rewards_rate_model lending_program
        token_program associated_token_program system_program =
      do
        yield_vault ← load vault w.vaults
        ok (record {
          yield_vault = yield_vault;
          authority = signer_at signers authority;
          vault_buffer = tokens_at w buffer;
          jupiter_ftoken_account = tokens_at w f_tokens;
          mint = info_at w mint;
          f_token_mint = info_at w f_token_mint;
          lending_admin = info_at w lending_admin;
          lending = info_at w lending;
          supply_token_reserves_liquidity = info_at w supply_token_reserves_liquidity;
          lending_supply_position_on_liquidity = info_at w lending_supply_position_on_liquidity;
          rate_model = info_at w rate_model;
          jupiter_vault = info_at w jupiter_vault;
          claim_account = info_at w claim_account;
          liquidity = info_at w liquidity;
          liquidity_program = info_at w liquidity_program;
          rewards_rate_model = info_at w rewards_rate_model;
          lending_program = info_at w lending_program;
          token_program = token_program;
          associated_token_program = info_at w associated_token_program;
          system_program = info_at w system_program;
        })
