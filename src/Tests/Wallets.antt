-- ===== src/Tests/Wallets.antt =====
-- Deposits into a wallet and withdrawals from it, and the protocol's fee.
use eventop.Base.{◌≡◌, ◌≤◌, refl, arith, none}
use eventop.Errors.{fee_too_high, insufficient_available_balance}
use eventop.Runtime.Result.{ok, err, code}
use eventop.State.ProtocolConfig.{ProtocolConfig}
use eventop.Outcome.{Outcome}
use eventop.Wallet.Deposit.{DepositToWallet, deposit_to_wallet}
use eventop.Wallet.Withdraw.{WithdrawFromWallet, withdraw_from_wallet}
use eventop.Wallet.Transfers.{IsWithdrawn, withdraw-IsWithdrawn, withdraw_all_succeeds}
use eventop.Protocol.InitializeProtocol.{InitializeProtocol, initialize_protocol}
use eventop.Protocol.UpdateProtocolFee.{UpdateProtocolFee, update_protocol_fee}
use eventop.Protocol.Fees.{initialized, updated, Reachable-fee_bound}
use eventop.Tests.Accounts.{
  value_or, done, ledger, account, signer, wallet, wallet_tokens, user_tokens,
}
use eventop.Tests.Chain.{chain, chain-IsSolana}

abbrev withdrawal : WithdrawFromWallet
withdrawal = record {
  subscription_wallet = wallet;
  owner = signer 1000;
  user_token_account = user_tokens;
  wallet_token_account = wallet_tokens;
}

abbrev withdrawn : Outcome WithdrawFromWallet
withdrawn = value_or (done withdrawal ledger) (withdraw_from_wallet chain withdrawal 20_000 ledger)

withdraw-IsWithdrawn_example : IsWithdrawn withdrawal 20_000 ledger withdrawn.ledger
unfolding withdraw_from_wallet eventop.Wallet.Withdraw.try_accounts eventop.Wallet.Withdraw.handler
    eventop.Utils.Calculations.calculate_committed_balance
withdraw-IsWithdrawn_example =
    withdraw-IsWithdrawn chain-IsSolana withdrawal 20_000 ledger {o = withdrawn} (omega arith) refl

withdraw_too_much :
    withdraw_from_wallet chain withdrawal 50_001 ledger ≡ err (code insufficient_available_balance)
unfolding withdraw_from_wallet eventop.Wallet.Withdraw.try_accounts eventop.Wallet.Withdraw.handler
    eventop.Utils.Calculations.calculate_committed_balance
withdraw_too_much = refl

-- The whole balance, with one active subscription.
withdraw_all_succeeds_example :
    (o : Outcome WithdrawFromWallet) × (withdraw_from_wallet chain withdrawal 50_000 ledger ≡ ok o)
unfolding eventop.Wallet.Withdraw.try_accounts
withdraw_all_succeeds_example =
    withdraw_all_succeeds chain-IsSolana withdrawal 50_000 ledger refl (omega arith) refl refl
      (omega arith) (omega arith) (omega arith)

abbrev payment_in : DepositToWallet
payment_in = record {
  subscription_wallet = wallet;
  user = signer 1000;
  user_token_account = user_tokens;
  wallet_token_account = wallet_tokens;
}

abbrev deposited : Outcome DepositToWallet
deposited = value_or (done payment_in ledger) (deposit_to_wallet chain payment_in 5_000 ledger)

deposited_balance : (deposited.ledger 1).amount ≡ 55_000
unfolding deposit_to_wallet eventop.Wallet.Deposit.try_accounts eventop.Wallet.Deposit.handler
deposited_balance = refl

abbrev setup : InitializeProtocol
setup = record { protocol_config = account 15 none; authority = signer 8; treasury = 7 }

abbrev set_up : Outcome InitializeProtocol
set_up = value_or (done setup ledger) (initialize_protocol chain setup 100 ledger)

abbrev first_config : ProtocolConfig
first_config = record { authority = 8; treasury = 7; protocol_fee_bps = 100; bump = 255 }

abbrev update : UpdateProtocolFee
update = record { protocol_config = account 15 first_config; authority = signer 8 }

abbrev raised : Outcome UpdateProtocolFee
raised = value_or (done update ledger) (update_protocol_fee chain update 1_000 ledger)

raised_done : update_protocol_fee chain update 1_000 ledger ≡ ok raised
unfolding update_protocol_fee eventop.Protocol.UpdateProtocolFee.try_accounts
    eventop.Protocol.UpdateProtocolFee.handler
raised_done = refl

update_refused : update_protocol_fee chain update 1_001 ledger ≡ err (code fee_too_high)
unfolding update_protocol_fee eventop.Protocol.UpdateProtocolFee.try_accounts
    eventop.Protocol.UpdateProtocolFee.handler
update_refused = refl

Reachable-fee_bound_example : raised.accounts.protocol_config.state.protocol_fee_bps ≤ 1000
unfolding initialize_protocol eventop.Protocol.InitializeProtocol.try_accounts
    eventop.Protocol.InitializeProtocol.handler
Reachable-fee_bound_example = Reachable-fee_bound {solana = chain} (
    updated (initialized setup 100 ledger set_up refl {config = first_config} refl) update 1_000
      ledger raised refl raised_done refl)
