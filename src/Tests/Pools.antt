-- ===== src/Tests/Pools.antt =====
-- A pool: a new vault, and a wallet that buys its first shares.
use eventop.Base.{◌≤◌, true, ◌≡◌, false, refl, none, some, [], ◌∷◌}
use eventop.Base.Assoc.{sum_of}
use eventop.State.YieldVault.{YieldVault}
use eventop.Outcome.{Outcome}
use eventop.Protocol.InitializeYieldVault.{InitializeYieldVault, initialize_yield_vault}
use eventop.YieldOps.Accounts.{YieldAccounts}
use eventop.YieldOps.Request.{enable, run}
use eventop.Pool.{Pool, Step, Reachable, store, store_vault, start, next, trade}
use eventop.Pool.Book.{BookStep, book, Reachable-BookStep}
use eventop.Pool.Solvency.{payout, Reachable-payout-le}
use eventop.Tests.Accounts.{value_or, done, ledger, account, signer, info, wallet, yield_of}
use eventop.Tests.Chain.{chain}

abbrev pub setup : InitializeYieldVault
setup = record {
  yield_vault = account 111 none;
  mint = 100;
  authority = signer 9;
  usdc_buffer = account 3 (ledger 3);
  jupiter_ftoken_account = account 6 (ledger 6);
  jupiter_lending = info 60;
}

abbrev pub new_vault : YieldVault
new_vault = record {
  authority = 9;
  mint = 100;
  usdc_buffer = 3;
  jupiter_ftoken_account = 6;
  jupiter_lending = 60;
  total_shares_issued = 0;
  total_usdc_deposited = 0;
  target_buffer_bps = 1_500;
  emergency_mode = false;
  emergency_exchange_rate = 1_000_000;
  bump = 255;
}

abbrev pub set_up : Outcome InitializeYieldVault
set_up = value_or (done setup ledger) (initialize_yield_vault chain setup 1_500 ledger)

abbrev pub first_pool : Pool
first_pool = record { vault = account 111 new_vault; wallets = (1119, wallet.state) ∷ [] }

abbrev pub first_trade : YieldAccounts
first_trade = record (yield_of wallet) { yield_vault = first_pool.vault }

abbrev pub traded : Outcome YieldAccounts
traded = value_or (done first_trade ledger) (run chain first_trade (enable 10_000) ledger)

abbrev earning_pool : Pool
earning_pool =
    store traded.accounts.subscription_wallet (store_vault traded.accounts.yield_vault first_pool)

first_pool_reached : Reachable chain first_pool
unfolding initialize_yield_vault eventop.Protocol.InitializeYieldVault.try_accounts
    eventop.Protocol.InitializeYieldVault.handler
first_pool_reached =
    start setup 1_500 ledger set_up new_vault ((1119, wallet.state) ∷ []) refl refl (refl, tt) refl

first_step : Step chain first_pool earning_pool
unfolding run eventop.YieldOps.EnableYield.enable_yield eventop.YieldOps.Accounts.try_accounts
    eventop.YieldOps.EnableYield.handler eventop.Utils.Calculations.calculate_buffer_amount
first_step = trade first_trade (enable 10_000) ledger traded refl refl refl refl

-- The shares of the first deposit are issued to the wallet.
Reachable-BookStep_example :
    BookStep (some 1119) (book first_pool) (book earning_pool)
    × ((first_trade.owner.is_signer ≡ true) × (wallet.state.owner ≡ 1000))
unfolding run eventop.YieldOps.EnableYield.enable_yield eventop.YieldOps.Accounts.try_accounts
    eventop.YieldOps.EnableYield.handler eventop.Utils.Calculations.calculate_buffer_amount
Reachable-BookStep_example =
    Reachable-BookStep first_pool_reached
      (trade first_trade (enable 10_000) ledger traded refl refl refl refl)

-- At a value of 12,500 of the vault.
Reachable-payout-le_example :
    sum_of (payout earning_pool.vault.state.total_shares_issued 12_500) earning_pool.wallets
    ≤ 12_500
Reachable-payout-le_example = Reachable-payout-le (next first_pool_reached first_step) 12_500
