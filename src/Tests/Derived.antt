-- ===== src/Tests/Derived.antt =====
-- Accounts at derived addresses.
use eventop.Base.{none}
use eventop.State.SubscriptionWallet
use eventop.State.SubscriptionWallet.{check_wallet_seeds}
use eventop.Outcome.{Outcome}
use eventop.Wallet.CreateWallet.{CreateSubscriptionWallet, create_subscription_wallet}
use eventop.Tests.Accounts.{value_or, done, ledger, account, signer, wallet, wallet_tokens}
use eventop.Tests.Chain.{chain}

abbrev pub creation : CreateSubscriptionWallet
creation = record {
  subscription_wallet = account 1119 none;
  user = signer 1000;
  mint = 100;
  main_token_account = wallet_tokens;
}

abbrev pub created : Outcome CreateSubscriptionWallet
created = value_or (done creation ledger) (create_subscription_wallet chain creation ledger)

abbrev pub new_wallet : SubscriptionWallet.SubscriptionWallet
new_wallet = record (wallet.state) { total_subscriptions = 0; total_spent = 0 }
