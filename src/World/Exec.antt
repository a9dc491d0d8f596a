-- ===== src/World/Exec.antt =====
-- lib.rs, `mod subscription_protocol`: loading an instruction's accounts, running its entry point and
-- storing what it leaves; then transactions, and any sequence of them.
use eventop.Base.{ℤ, List, [], ◌∷◌}
use eventop.Runtime.Result.{Result, ok, err, ◌>>=◌}
use eventop.Runtime.Anchor.{Pubkey, Solana}
use eventop.Outcome.{Outcome}
use eventop.Protocol.InitializeProtocol
use eventop.Protocol.InitializeYieldVault.{initialize_yield_vault}
use eventop.Protocol.UpdateProtocolFee.{update_protocol_fee}
use eventop.Wallet.CreateWallet.{create_subscription_wallet}
use eventop.Wallet.Deposit.{deposit_to_wallet}
use eventop.Wallet.Withdraw.{withdraw_from_wallet}
use eventop.YieldOps.Accounts.{YieldAccounts}
use eventop.YieldOps.Request.{run}
use eventop.VaultManagement.RebalanceVault.{rebalance_vault}
use eventop.VaultManagement.SetEmergencyMode.{set_emergency_mode}
use eventop.Subscription.RegisterMerchant.{register_merchant}
use eventop.Subscription.Subscribe.{SubscribeWithWallet, subscribe_with_wallet}
use eventop.Subscription.ExecutePayment.{ExecutePaymentFromWallet, execute_payment_from_wallet}
use eventop.Subscription.CancelSubscription.{CancelledAccounts, cancel_subscription_wallet}
use eventop.Wallet.CreateWallet.{CreateSubscriptionWallet}
use eventop.Registry.{Registry}
use eventop.World.{
  World, Message, initialize_protocol, initialize_vault, update_fee, create_wallet, deposit,
  withdraw, trade, rebalance, set_emergency, register, subscribe, pay, cancel, Command, call,
  outside, Transaction,
}
use eventop.World.Accounts.{
  initialization_at, vault_creation_at, registration_at, creation_at, load_fee, load_deposit,
  load_withdrawal, load_trade, load_rebalancing, load_emergency, load_signup, load_payment,
  load_cancel,
}
use eventop.World.Load.{save, save_new, save_optional}

-- What the instructions leave of the wallets, subscriptions and trackers.
abbrev pub registry_created : Outcome CreateSubscriptionWallet → Registry → Registry
registry_created o r = record r { wallets = save_new o.accounts.subscription_wallet r.wallets }

abbrev pub registry_traded : Outcome YieldAccounts → Registry → Registry
registry_traded o r = record r { wallets = save o.accounts.subscription_wallet r.wallets }

abbrev pub registry_subscribed : Outcome SubscribeWithWallet → Registry → Registry
registry_subscribed o r = record {
  wallets = save o.accounts.subscription_wallet r.wallets;
  subscriptions = save_new o.accounts.subscription_state r.subscriptions;
  trackers = save_new o.accounts.session_token_tracker r.trackers;
}

abbrev pub registry_paid : Outcome ExecutePaymentFromWallet → Registry → Registry
registry_paid o r = record r {
  wallets = save o.accounts.subscription_wallet r.wallets;
  subscriptions = save o.accounts.subscription_state r.subscriptions;
}

abbrev pub registry_cancelled : Outcome CancelledAccounts → Registry → Registry
registry_cancelled o r = record r {
  wallets = save o.accounts.subscription_wallet r.wallets;
  subscriptions = save_new o.accounts.subscription_state r.subscriptions;
}

module _ (solana : Solana) (signers : List Pubkey) (now : ℤ) where
  -- One instruction.
  unfoldable pub exec : World → Message → Result World
  exec w (initialize_protocol config authority treasury fee_bps) = do
    o ←
        InitializeProtocol.initialize_protocol solana
          (initialization_at signers w config authority treasury) fee_bps w.ledger
    ok (record w { configs = save_new o.accounts.protocol_config w.configs; ledger = o.ledger })
  exec w (initialize_vault vault authority mint usdc_buffer f_tokens lending bps) = do
    o ←
        initialize_yield_vault solana
          (vault_creation_at signers w vault authority mint usdc_buffer f_tokens lending) bps
          w.ledger
    ok (record w { vaults = save_new o.accounts.yield_vault w.vaults; ledger = o.ledger })
  exec w (update_fee config authority fee_bps) = do
    ctx ← load_fee signers w config authority
    o ← update_protocol_fee solana ctx fee_bps w.ledger
    ok (record w { configs = save o.accounts.protocol_config w.configs; ledger = o.ledger })
  exec w (create_wallet wallet main user mint) = do
    o ← create_subscription_wallet solana (creation_at signers w wallet main user mint) w.ledger
    ok (record w { registry = registry_created o w.registry; ledger = o.ledger })
  exec w (deposit wallet user user_tokens wallet_tokens amount) = do
    ctx ← load_deposit signers w wallet user user_tokens wallet_tokens
    o ← deposit_to_wallet solana ctx amount w.ledger
    ok (record w { ledger = o.ledger })
  exec w (withdraw wallet owner user_tokens wallet_tokens amount) = do
    ctx ← load_withdrawal signers w wallet owner user_tokens wallet_tokens
    o ← withdraw_from_wallet solana ctx amount w.ledger
    ok (record w { ledger = o.ledger })
  exec w (trade wallet vault owner wallet_tokens buffer lending request) = do
    ctx ← load_trade signers w wallet vault owner wallet_tokens buffer lending
    o ← run solana ctx request w.ledger
    ok (record w {
      vaults = save o.accounts.yield_vault w.vaults;
      registry = registry_traded o w.registry;
      ledger = o.ledger;
    })
  exec w
        (rebalance vault authority buffer f_tokens mint f_token_mint lending_admin lending
          supply_token_reserves_liquidity lending_supply_position_on_liquidity rate_model
          jupiter_vault claim_account liquidity liquidity_program rewards_rate_model lending_program
          token_program associated_token_program system_program) =
      do
        ctx ←
            load_rebalancing signers w vault authority buffer f_tokens mint f_token_mint
              lending_admin lending supply_token_reserves_liquidity
              lending_supply_position_on_liquidity rate_model jupiter_vault claim_account liquidity
              liquidity_program rewards_rate_model lending_program token_program
              associated_token_program system_program
        o ← rebalance_vault solana ctx w.ledger
        ok (record w { vaults = save o.accounts.yield_vault w.vaults; ledger = o.ledger })
  exec w (set_emergency vault authority buffer f_tokens f_token_mint lending enabled) = do
    ctx ← load_emergency signers w vault authority buffer f_tokens f_token_mint lending
    o ← set_emergency_mode solana ctx enabled w.ledger
    ok (record w { vaults = save o.accounts.yield_vault w.vaults; ledger = o.ledger })
  exec w (register plan merchant mint terms) = do
    o ← register_merchant solana (registration_at signers w plan merchant mint) terms w.ledger
    ok (record w { plans = save_new o.accounts.merchant_plan w.plans; ledger = o.ledger })
  exec w (subscribe subscription tracker wallet plan user wallet_tokens token) = do
    ctx ← load_signup signers w subscription tracker wallet plan user wallet_tokens
    o ← subscribe_with_wallet solana ctx token now w.ledger
    ok (record w {
      plans = save o.accounts.merchant_plan w.plans;
      registry = registry_subscribed o w.registry;
      ledger = o.ledger;
    })
  exec w
        (pay subscription wallet plan config wallet_tokens merchant_tokens treasury vault buffer
          lending) =
      do
        ctx ←
            load_payment w subscription wallet plan config wallet_tokens merchant_tokens treasury
              vault buffer lending
        o ← execute_payment_from_wallet solana ctx now w.ledger
        ok (record w {
          vaults = save_optional o.accounts.yield_vault w.vaults;
          registry = registry_paid o w.registry;
          ledger = o.ledger;
        })
  exec w (cancel subscription wallet plan user) = do
    ctx ← load_cancel signers w subscription wallet plan user
    o ← cancel_subscription_wallet solana ctx w.ledger
    ok (record w {
      plans = save o.accounts.merchant_plan w.plans;
      registry = registry_cancelled o w.registry;
      ledger = o.ledger;
    })

  unfoldable pub exec_all : World → List Command → Result World
  unfolding exec
  exec_all w [] = ok w
  exec_all w (call message ∷ commands) = do w' ← exec w message; exec_all w' commands
  exec_all w (outside l bytes ∷ commands) =
      exec_all (record w { ledger = l; contents = bytes }) commands

-- A transaction that fails is rolled back.
abbrev pub committed : World → Result World → World
committed before (ok after) = after
committed before (err e) = before

unfoldable pub process : Solana → World → Transaction → World
unfolding exec_all
process solana w t = committed w (exec_all solana t.signers t.unix_timestamp w t.commands)

unfoldable pub serve : Solana → World → List Transaction → World
unfolding process
serve solana w [] = w
serve solana w (t ∷ transactions) = serve solana (process solana w t) transactions
