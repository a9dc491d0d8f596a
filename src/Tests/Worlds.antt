-- ===== src/Tests/Worlds.antt =====
-- The program from its first transaction on: the protocol, a vault, a wallet and a plan are set up;
-- the wallet is filled, subscribed and charged; a second charge comes too early; some of the wallet's
-- funds go to the vault.
use eventop.Base.{ℕ, pos, ◌≡◌, ◌↔◌, ◌⊎◌, ◌≤◌, ◌≤ℤ◌, arith, Text, refl, none, List, [], ◌∷◌, map}
use eventop.Runtime.Result.{ok}
use eventop.Runtime.Anchor.{Pubkey}
use eventop.Subscription.RegisterMerchant.{PlanTerms}
use eventop.YieldOps.Request.{enable}
use eventop.World.{
  World, new_world, Command, Transaction, Message, initialize_protocol, initialize_vault,
  create_wallet, register, deposit, subscribe, pay, trade, call,
}
use eventop.World.Exec.{serve, exec}
use eventop.World.Consent.{MayTake, MayChange, MayChangeVault}
use eventop.World.Changes.{exec-MayChange}
use eventop.Base.Assoc.{find}
use eventop.World.Debits.{exec-MayTake}
use eventop.World.Shares.{AreBalanced, VaultsApart}
use eventop.World.Balance.{serve-AreBalanced}
use eventop.World.Links.{IsLinked}
use eventop.World.Linked.{serve-IsLinked}
use eventop.World.Identity.{IsKept}
use eventop.World.Persistence.{serve-IsKept}
use eventop.World.Joining.{SignupKeys, MayJoin, signup_of, served_signup_iff}
use eventop.State.MerchantPlan.{MerchantPlan}
use eventop.State.SubscriptionWallet.{SubscriptionWallet}
use eventop.World.Leaving.{cancellation_of, served_cancel_succeeds}
use eventop.World.Payments.{PaymentKeys, payment_of, served_payment_iff}
use eventop.State.SubscriptionState.{SubscriptionState}
use eventop.Tests.Accounts.{plan, ledger, token, value_or, subscription, wallet, config}
use eventop.Tests.Chain.{chain, chain-IsSolana}

abbrev terms : PlanTerms
terms = record {
  plan_id = 112 ∷ 49 ∷ [];
  plan_name = 80 ∷ [];
  fee_amount = 1_000;
  payment_interval_seconds = pos 60;
}

abbrev transaction : List Pubkey → ℕ → List Command → Transaction
transaction signers t commands = record {
  signers = signers;
  unix_timestamp = pos t;
  commands = commands;
}

abbrev set_up : Transaction
set_up = transaction (8 ∷ 9 ∷ 1000 ∷ 5000 ∷ []) 400 (
    call (initialize_protocol 15 8 7 150)
    ∷ call (initialize_vault 111 9 100 3 6 60 1_500)
    ∷ call (create_wallet 1119 1 1000 100)
    ∷ call (register 5115 5000 100 terms)
    ∷ [])

abbrev sign_up : Transaction
sign_up =
    transaction (1000 ∷ []) 500
      (call (deposit 1119 1000 2 1 5_000) ∷ call (subscribe 6112 16 1119 5115 1000 1 token) ∷ [])

abbrev charge_message : Message
charge_message = pay 6112 1119 5115 15 1 4 5 none none none

abbrev charge_at : ℕ → Transaction
charge_at t = transaction [] t (call charge_message ∷ [])

abbrev invest : Transaction
invest = transaction (1000 ∷ []) 620 (call (trade 1119 111 1000 1 3 60 (enable 10_000)) ∷ [])

abbrev history : List Transaction
history = set_up ∷ sign_up ∷ charge_at 600 ∷ charge_at 610 ∷ invest ∷ []

abbrev initial : World
initial = new_world ledger (λ _. [])

abbrev final : World
final = serve chain initial history

served_counts :
    (map (λ e. e.1.total_subscriptions) final.registry.wallets ≡ 1 ∷ [])
    × (map (λ e. e.1.total_spent) final.registry.wallets ≡ 1_000 ∷ [])
    × (map (λ e. e.1.yield_shares) final.registry.wallets ≡ 8_500 ∷ [])
    × (map (λ e. e.1.total_shares_issued) final.vaults ≡ 8_500 ∷ [])
    × (map (λ e. e.1.payment_count) final.registry.subscriptions ≡ 1 ∷ [])
unfolding serve eventop.World.Accounts.load_trade eventop.World.Load.load
    eventop.World.Load.load_optional eventop.World.Accounts.load_payment
    eventop.World.Accounts.load_signup eventop.World.Accounts.load_deposit
    eventop.Protocol.InitializeProtocol.initialize_protocol
    eventop.Protocol.InitializeProtocol.try_accounts eventop.Protocol.InitializeProtocol.handler
    eventop.Protocol.InitializeYieldVault.initialize_yield_vault
    eventop.Protocol.InitializeYieldVault.try_accounts eventop.Protocol.InitializeYieldVault.handler
    eventop.Wallet.CreateWallet.create_subscription_wallet eventop.Wallet.CreateWallet.try_accounts
    eventop.Wallet.CreateWallet.handler eventop.Subscription.RegisterMerchant.register_merchant
    eventop.Subscription.RegisterMerchant.try_accounts eventop.Subscription.RegisterMerchant.handler
    eventop.Wallet.Deposit.deposit_to_wallet eventop.Wallet.Deposit.try_accounts
    eventop.Wallet.Deposit.handler eventop.Subscription.Subscribe.subscribe_with_wallet
    eventop.Subscription.Subscribe.try_accounts eventop.Subscription.Subscribe.handler
    eventop.Subscription.ExecutePayment.execute_payment_from_wallet
    eventop.Subscription.ExecutePayment.try_accounts eventop.Subscription.ExecutePayment.handler
    eventop.Subscription.ExecutePayment.protocol_fee_of eventop.Subscription.ExecutePayment.settle
    eventop.Subscription.ExecutePayment.pay eventop.Runtime.Word.sub_i64 eventop.Base.◌-ℤ◌
    eventop.YieldOps.Request.run eventop.YieldOps.EnableYield.enable_yield
    eventop.YieldOps.EnableYield.handler eventop.YieldOps.Accounts.try_accounts
    eventop.Utils.Calculations.calculate_buffer_amount
served_counts = (refl, refl, refl, refl, refl)

-- 50,000 and the deposit, less the charge and what is invested.
served_tokens :
    ((final.ledger 1).amount ≡ 45_500)
    × ((final.ledger 3).amount ≡ 12_500)
    × ((final.ledger 4).amount ≡ 995)
    × ((final.ledger 5).amount ≡ 35)
unfolding serve eventop.World.Accounts.load_trade eventop.World.Load.load
    eventop.World.Load.load_optional eventop.World.Accounts.load_payment
    eventop.World.Accounts.load_signup eventop.World.Accounts.load_deposit
    eventop.Protocol.InitializeProtocol.initialize_protocol
    eventop.Protocol.InitializeProtocol.try_accounts eventop.Protocol.InitializeProtocol.handler
    eventop.Protocol.InitializeYieldVault.initialize_yield_vault
    eventop.Protocol.InitializeYieldVault.try_accounts eventop.Protocol.InitializeYieldVault.handler
    eventop.Wallet.CreateWallet.create_subscription_wallet eventop.Wallet.CreateWallet.try_accounts
    eventop.Wallet.CreateWallet.handler eventop.Subscription.RegisterMerchant.register_merchant
    eventop.Subscription.RegisterMerchant.try_accounts eventop.Subscription.RegisterMerchant.handler
    eventop.Wallet.Deposit.deposit_to_wallet eventop.Wallet.Deposit.try_accounts
    eventop.Wallet.Deposit.handler eventop.Subscription.Subscribe.subscribe_with_wallet
    eventop.Subscription.Subscribe.try_accounts eventop.Subscription.Subscribe.handler
    eventop.Subscription.ExecutePayment.execute_payment_from_wallet
    eventop.Subscription.ExecutePayment.try_accounts eventop.Subscription.ExecutePayment.handler
    eventop.Subscription.ExecutePayment.protocol_fee_of eventop.Subscription.ExecutePayment.settle
    eventop.Subscription.ExecutePayment.pay eventop.Runtime.Word.sub_i64 eventop.Base.◌-ℤ◌
    eventop.YieldOps.Request.run eventop.YieldOps.EnableYield.enable_yield
    eventop.YieldOps.EnableYield.handler eventop.YieldOps.Accounts.try_accounts
    eventop.Utils.Calculations.calculate_buffer_amount
served_tokens = (refl, refl, refl, refl)

abbrev open_world : World
open_world = serve chain initial (set_up ∷ sign_up ∷ [])

abbrev charged_world : World
charged_world = value_or open_world (exec chain [] (pos 600) open_world charge_message)

exec-MayTake_example : MayTake open_world [] (pos 600) charge_message 1
unfolding exec serve eventop.World.Accounts.load_trade eventop.World.Load.load
    eventop.World.Load.load_optional eventop.World.Accounts.load_payment
    eventop.World.Accounts.load_signup eventop.World.Accounts.load_deposit
    eventop.Protocol.InitializeProtocol.initialize_protocol
    eventop.Protocol.InitializeProtocol.try_accounts eventop.Protocol.InitializeProtocol.handler
    eventop.Protocol.InitializeYieldVault.initialize_yield_vault
    eventop.Protocol.InitializeYieldVault.try_accounts eventop.Protocol.InitializeYieldVault.handler
    eventop.Wallet.CreateWallet.create_subscription_wallet eventop.Wallet.CreateWallet.try_accounts
    eventop.Wallet.CreateWallet.handler eventop.Subscription.RegisterMerchant.register_merchant
    eventop.Subscription.RegisterMerchant.try_accounts eventop.Subscription.RegisterMerchant.handler
    eventop.Wallet.Deposit.deposit_to_wallet eventop.Wallet.Deposit.try_accounts
    eventop.Wallet.Deposit.handler eventop.Subscription.Subscribe.subscribe_with_wallet
    eventop.Subscription.Subscribe.try_accounts eventop.Subscription.Subscribe.handler
    eventop.Subscription.ExecutePayment.execute_payment_from_wallet
    eventop.Subscription.ExecutePayment.try_accounts eventop.Subscription.ExecutePayment.handler
    eventop.Subscription.ExecutePayment.protocol_fee_of eventop.Subscription.ExecutePayment.settle
    eventop.Subscription.ExecutePayment.pay eventop.Runtime.Word.sub_i64 eventop.Base.◌-ℤ◌
    eventop.YieldOps.Request.run eventop.YieldOps.EnableYield.enable_yield
    eventop.YieldOps.EnableYield.handler eventop.YieldOps.Accounts.try_accounts
    eventop.Utils.Calculations.calculate_buffer_amount
exec-MayTake_example =
    exec-MayTake chain-IsSolana [] (pos 600) open_world charge_message 1 {w' = charged_world} refl
      (omega arith)

chain-VaultsApart : VaultsApart chain
chain-VaultsApart m n bump k first second = ground arith

serve-AreBalanced_example : AreBalanced final
serve-AreBalanced_example =
    serve-AreBalanced chain-IsSolana chain-VaultsApart ledger (λ _. []) history

serve-IsLinked_example : IsLinked chain final
serve-IsLinked_example = serve-IsLinked chain ledger (λ _. []) history

serve-IsKept_example : IsKept open_world (serve chain open_world (charge_at 600 ∷ invest ∷ []))
serve-IsKept_example = serve-IsKept chain open_world (charge_at 600 ∷ invest ∷ [])

abbrev keys : PaymentKeys
keys = record { config = 15; wallet_tokens = 1; merchant_tokens = 4; treasury = 5 }

abbrev subscribed : SubscriptionState
subscribed = record (subscription.state) { total_paid = 0; payment_count = 0 }

served_payment_iff_example :
    ((w : World) × (exec chain [] (pos 600) open_world (payment_of 6112 subscribed keys) ≡ ok w))
    ↔ ((pos 60 ≤ℤ pos 100) × (1_000 ≤ (open_world.ledger 1).amount))
unfolding serve eventop.World.Accounts.load_trade eventop.World.Load.load
    eventop.World.Load.load_optional eventop.World.Accounts.load_payment
    eventop.World.Accounts.load_signup eventop.World.Accounts.load_deposit
    eventop.Protocol.InitializeProtocol.initialize_protocol
    eventop.Protocol.InitializeProtocol.try_accounts eventop.Protocol.InitializeProtocol.handler
    eventop.Protocol.InitializeYieldVault.initialize_yield_vault
    eventop.Protocol.InitializeYieldVault.try_accounts eventop.Protocol.InitializeYieldVault.handler
    eventop.Wallet.CreateWallet.create_subscription_wallet eventop.Wallet.CreateWallet.try_accounts
    eventop.Wallet.CreateWallet.handler eventop.Subscription.RegisterMerchant.register_merchant
    eventop.Subscription.RegisterMerchant.try_accounts eventop.Subscription.RegisterMerchant.handler
    eventop.Wallet.Deposit.deposit_to_wallet eventop.Wallet.Deposit.try_accounts
    eventop.Wallet.Deposit.handler eventop.Subscription.Subscribe.subscribe_with_wallet
    eventop.Subscription.Subscribe.try_accounts eventop.Subscription.Subscribe.handler
    eventop.Subscription.ExecutePayment.execute_payment_from_wallet
    eventop.Subscription.ExecutePayment.try_accounts eventop.Subscription.ExecutePayment.handler
    eventop.Subscription.ExecutePayment.protocol_fee_of eventop.Subscription.ExecutePayment.settle
    eventop.Subscription.ExecutePayment.pay eventop.Runtime.Word.sub_i64 eventop.Base.◌-ℤ◌
    eventop.YieldOps.Request.run eventop.YieldOps.EnableYield.enable_yield
    eventop.YieldOps.EnableYield.handler eventop.YieldOps.Accounts.try_accounts
    eventop.Utils.Calculations.calculate_buffer_amount
served_payment_iff_example =
    served_payment_iff chain-IsSolana ledger (λ _. []) (set_up ∷ sign_up ∷ []) [] 6112 subscribed
      (record (wallet.state) { total_spent = 0 }) (record (config.state) { bump = 255 }) keys
      (pos 600) (pos 100) refl
      (record {
        wallet = refl;
        config = refl;
        mints = refl;
        wallet_owner = refl;
        wallet_mint = refl;
        merchant_owner = refl;
        merchant_mint = refl;
        treasury_owner = refl;
        treasury_mint = refl;
        wallet_merchant_apart = omega arith;
        wallet_treasury_apart = omega arith;
        merchant_treasury_apart = omega arith;
        elapsed = refl;
        wallet_fits = omega arith;
        merchant_fits = omega arith;
        treasury_fits = omega arith;
        paid_fits = omega arith;
        count_fits = omega arith;
        spent_fits = omega arith;
      })

exec-MayChange_example :
    ((find 1119 charged_world.registry.wallets ≡ find 1119 open_world.registry.wallets)
      ⊎ MayChange open_world [] (pos 600) charge_message 1119)
    × ((find 1119 charged_world.vaults ≡ find 1119 open_world.vaults)
        ⊎ MayChangeVault open_world [] charge_message 1119)
unfolding exec serve eventop.World.Accounts.load_trade eventop.World.Load.load
    eventop.World.Load.load_optional eventop.World.Accounts.load_payment
    eventop.World.Accounts.load_signup eventop.World.Accounts.load_deposit
    eventop.Protocol.InitializeProtocol.initialize_protocol
    eventop.Protocol.InitializeProtocol.try_accounts eventop.Protocol.InitializeProtocol.handler
    eventop.Protocol.InitializeYieldVault.initialize_yield_vault
    eventop.Protocol.InitializeYieldVault.try_accounts eventop.Protocol.InitializeYieldVault.handler
    eventop.Wallet.CreateWallet.create_subscription_wallet eventop.Wallet.CreateWallet.try_accounts
    eventop.Wallet.CreateWallet.handler eventop.Subscription.RegisterMerchant.register_merchant
    eventop.Subscription.RegisterMerchant.try_accounts eventop.Subscription.RegisterMerchant.handler
    eventop.Wallet.Deposit.deposit_to_wallet eventop.Wallet.Deposit.try_accounts
    eventop.Wallet.Deposit.handler eventop.Subscription.Subscribe.subscribe_with_wallet
    eventop.Subscription.Subscribe.try_accounts eventop.Subscription.Subscribe.handler
    eventop.Subscription.ExecutePayment.execute_payment_from_wallet
    eventop.Subscription.ExecutePayment.try_accounts eventop.Subscription.ExecutePayment.handler
    eventop.Subscription.ExecutePayment.protocol_fee_of eventop.Subscription.ExecutePayment.settle
    eventop.Subscription.ExecutePayment.pay eventop.Runtime.Word.sub_i64 eventop.Base.◌-ℤ◌
    eventop.YieldOps.Request.run eventop.YieldOps.EnableYield.enable_yield
    eventop.YieldOps.EnableYield.handler eventop.YieldOps.Accounts.try_accounts
    eventop.Utils.Calculations.calculate_buffer_amount
exec-MayChange_example =
    exec-MayChange chain [] (pos 600) open_world charge_message 1119 {w' = charged_world} refl

served_cancel_succeeds_example :
    (w : World) × (exec chain (1000 ∷ []) (pos 900) open_world (cancellation_of 6112 subscribed)
      ≡ ok w)
    × (find 6112 w.registry.subscriptions ≡ none)
unfolding serve eventop.World.Accounts.load_trade eventop.World.Load.load
    eventop.World.Load.load_optional eventop.World.Accounts.load_payment
    eventop.World.Accounts.load_signup eventop.World.Accounts.load_deposit
    eventop.Protocol.InitializeProtocol.initialize_protocol
    eventop.Protocol.InitializeProtocol.try_accounts eventop.Protocol.InitializeProtocol.handler
    eventop.Protocol.InitializeYieldVault.initialize_yield_vault
    eventop.Protocol.InitializeYieldVault.try_accounts eventop.Protocol.InitializeYieldVault.handler
    eventop.Wallet.CreateWallet.create_subscription_wallet eventop.Wallet.CreateWallet.try_accounts
    eventop.Wallet.CreateWallet.handler eventop.Subscription.RegisterMerchant.register_merchant
    eventop.Subscription.RegisterMerchant.try_accounts eventop.Subscription.RegisterMerchant.handler
    eventop.Wallet.Deposit.deposit_to_wallet eventop.Wallet.Deposit.try_accounts
    eventop.Wallet.Deposit.handler eventop.Subscription.Subscribe.subscribe_with_wallet
    eventop.Subscription.Subscribe.try_accounts eventop.Subscription.Subscribe.handler
    eventop.Subscription.ExecutePayment.execute_payment_from_wallet
    eventop.Subscription.ExecutePayment.try_accounts eventop.Subscription.ExecutePayment.handler
    eventop.Subscription.ExecutePayment.protocol_fee_of eventop.Subscription.ExecutePayment.settle
    eventop.Subscription.ExecutePayment.pay eventop.Runtime.Word.sub_i64 eventop.Base.◌-ℤ◌
    eventop.YieldOps.Request.run eventop.YieldOps.EnableYield.enable_yield
    eventop.YieldOps.EnableYield.handler eventop.YieldOps.Accounts.try_accounts
    eventop.Utils.Calculations.calculate_buffer_amount
served_cancel_succeeds_example =
    served_cancel_succeeds chain-IsSolana ledger (λ _. []) (set_up ∷ sign_up ∷ []) (1000 ∷ [])
      (pos 900) 6112 subscribed refl refl

abbrev ready_world : World
ready_world = serve chain initial (set_up ∷ [])

abbrev signup_keys : SignupKeys
signup_keys = record {
  subscription = 6112;
  tracker = 16;
  wallet = 1119;
  plan = 5115;
  wallet_tokens = 1;
}

-- The plan of `set_up`, with no subscriber yet.
abbrev offered : MerchantPlan
offered = record (plan.state) { total_subscribers = 0 }

abbrev unspent : SubscriptionWallet
unspent = record (wallet.state) { total_subscriptions = 0; total_spent = 0 }

served_signup_iff_example :
    ((w : World) × (exec chain
          (1000 ∷ [])
          (pos 500)
          ready_world
          (signup_of unspent signup_keys token)
        ≡ ok w))
    ↔ MayJoin ready_world offered signup_keys token
unfolding serve eventop.World.Load.load eventop.Protocol.InitializeProtocol.initialize_protocol
    eventop.Protocol.InitializeProtocol.try_accounts eventop.Protocol.InitializeProtocol.handler
    eventop.Protocol.InitializeYieldVault.initialize_yield_vault
    eventop.Protocol.InitializeYieldVault.try_accounts eventop.Protocol.InitializeYieldVault.handler
    eventop.Wallet.CreateWallet.create_subscription_wallet eventop.Wallet.CreateWallet.try_accounts
    eventop.Wallet.CreateWallet.handler eventop.Subscription.RegisterMerchant.register_merchant
    eventop.Subscription.RegisterMerchant.try_accounts eventop.Subscription.RegisterMerchant.handler
served_signup_iff_example =
    served_signup_iff chain-IsSolana ledger (λ _. []) (set_up ∷ []) (1000 ∷ []) (pos 500) unspent
      offered signup_keys token 255 255
      (record {
        wallet = refl;
        plan = refl;
        subscription_address = refl;
        tracker_address = refl;
        signed = refl;
        tokens_owner = refl;
        tokens_mint = refl;
        reserve_fits = omega arith;
        wallet_count_fits = omega arith;
        plan_count_fits = omega arith;
      })
