-- ===== src/Tests/Accounts.antt =====
-- Accounts of the program on the small chain: one mint, one wallet, its vault, and a merchant.
use eventop.Base.{ℕ, pos, true, false, [], ◌∷◌, Text, ◌==◌, if◌then◌else◌}
use eventop.Runtime.Result.{Result, ok, err}
use eventop.Runtime.Token.{TokenAccount, Ledger}
use eventop.Runtime.Anchor.{Account, AccountInfo, Signer}
use eventop.State.ProtocolConfig.{ProtocolConfig}
use eventop.State.YieldVault.{YieldVault}
use eventop.State.SubscriptionWallet.{SubscriptionWallet}
use eventop.State.MerchantPlan.{MerchantPlan}
use eventop.State.SubscriptionState.{SubscriptionState}
use eventop.Outcome.{Outcome}
use eventop.YieldOps.Accounts.{YieldAccounts}

abbrev pub tokens : ℕ → ℕ → ℕ → TokenAccount
tokens mint owner amount = record { mint = mint; owner = owner; amount = amount }

abbrev pub account {ℓ} : {A : Type ℓ} → ℕ → A → Account A
account k a = record { key = k; state = a }

abbrev pub signer : ℕ → Signer
signer k = record { key = k; is_signer = true }

abbrev pub info : ℕ → AccountInfo
info k = record { key = k; contents = [] }

-- What a result holds, for one that is known to be `ok`.
abbrev pub value_or {ℓ} : {A : Type ℓ} → A → Result A → A
value_or a (ok b) = b
value_or a (err e) = a

abbrev pub done {ℓ} : {A : Type ℓ} → A → Ledger → Outcome A
done a l = record { accounts = a; ledger = l; events = [] }

-- Token accounts: 1 the wallet's, 2 its owner's, 3 the buffer, 4 the merchant's, 5 the treasury's,
-- 6 the fTokens.
abbrev pub wallet_tokens : Account TokenAccount
wallet_tokens = account 1 (tokens 100 1119 50_000)

abbrev pub user_tokens : Account TokenAccount
user_tokens = account 2 (tokens 100 1000 70_000)

abbrev pub buffer_tokens : Account TokenAccount
buffer_tokens = account 3 (tokens 100 111 4_000)

abbrev pub merchant_tokens : Account TokenAccount
merchant_tokens = account 4 (tokens 100 5000 10)

abbrev pub treasury_tokens : Account TokenAccount
treasury_tokens = account 5 (tokens 100 7 20)

abbrev pub f_tokens : Account TokenAccount
f_tokens = account 6 (tokens 200 111 0)

abbrev pub ledger : Ledger
ledger k =
    if k == 1
    then wallet_tokens.state
    else if k == 2
    then user_tokens.state
    else if k == 3
    then buffer_tokens.state
    else if k == 4
    then merchant_tokens.state
    else if k == 5
    then treasury_tokens.state
    else f_tokens.state

abbrev pub config : Account ProtocolConfig
config = account 15 (record { authority = 8; treasury = 7; protocol_fee_bps = 150; bump = 0 })

abbrev pub vault : Account YieldVault
vault = account 111 (record {
  authority = 9;
  mint = 100;
  usdc_buffer = 3;
  jupiter_ftoken_account = 6;
  jupiter_lending = 60;
  total_shares_issued = 3_000;
  total_usdc_deposited = 3_500;
  target_buffer_bps = 1_500;
  emergency_mode = false;
  emergency_exchange_rate = 0;
  bump = 255;
})

-- The wallet of the owner 1000 for the mint 100.
abbrev pub wallet : Account SubscriptionWallet
wallet = account 1119 (record {
  owner = 1000;
  main_token_account = 1;
  mint = 100;
  total_subscriptions = 1;
  total_spent = 600;
  yield_shares = 0;
  is_yield_enabled = false;
  bump = 255;
})

abbrev pub earning : Account SubscriptionWallet
earning = account 1119 (record (wallet.state) { yield_shares = 3_000; is_yield_enabled = true })

abbrev pub plan : Account MerchantPlan
plan = account 5115 (record {
  merchant = 5000;
  mint = 100;
  plan_id = 112 ∷ 49 ∷ [];
  plan_name = 80 ∷ [];
  fee_amount = 1_000;
  payment_interval = pos 60;
  is_active = true;
  total_subscribers = 1;
  bump = 255;
})

abbrev pub token : Text
token = 97 ∷ 98 ∷ 99 ∷ []

abbrev pub subscription : Account SubscriptionState
subscription = account 6112 (record {
  user = 1000;
  subscription_wallet = 1119;
  merchant = 5000;
  mint = 100;
  merchant_plan = 5115;
  fee_amount = 1_000;
  payment_interval = pos 60;
  last_payment_timestamp = pos 500;
  total_paid = 600;
  payment_count = 1;
  is_active = true;
  session_token = token;
  bump = 255;
})

abbrev pub yield_of : Account SubscriptionWallet → YieldAccounts
yield_of w = record {
  subscription_wallet = w;
  yield_vault = vault;
  owner = signer 1000;
  wallet_token_account = wallet_tokens;
  vault_buffer = buffer_tokens;
  jupiter_lending = info 60;
}
