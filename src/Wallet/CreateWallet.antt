-- ===== src/Wallet/CreateWallet.antt =====
-- instructions/wallet/create_wallet.rs of the program.
use eventop.Base.{ℕ, false, Option, some, [], ◌∷◌, ◌==◌}
use eventop.Runtime.Result.{Result, ok, ◌>>=◌, ◌>>◌, check, constraint_raw}
use eventop.Runtime.Token.{TokenAccount, Ledger}
use eventop.Runtime.Anchor.{
  Pubkey, Account, Signer, Solana, check_signer, check_init, check_canonical,
}
use eventop.State.SubscriptionWallet.{SubscriptionWallet, wallet_seeds}
use eventop.Events.{subscription_wallet_created}
use eventop.Outcome.{Outcome, with_state}

-- Of the mint only the key is read.
pub record CreateSubscriptionWallet : Type 0 where
  pub subscription_wallet : Account (Option SubscriptionWallet)
  pub main_token_account : Account TokenAccount
  pub user : Signer
  pub mint : Pubkey

unfoldable pub try_accounts : Solana → CreateSubscriptionWallet → Result ℕ
try_accounts solana ctx = do
  check_signer ctx.user
  bump ← check_canonical solana (wallet_seeds ctx.user.key ctx.mint) ctx.subscription_wallet.key
  check_init ctx.subscription_wallet
  check (ctx.main_token_account.state.owner == ctx.subscription_wallet.key) constraint_raw
  check (ctx.main_token_account.state.mint == ctx.mint) constraint_raw
  ok bump

unfoldable pub handler :
    CreateSubscriptionWallet → ℕ → Ledger → Result (Outcome CreateSubscriptionWallet)
handler ctx bump ledger = ok (record {
  accounts = record ctx {
    subscription_wallet = with_state ctx.subscription_wallet (
        some (record {
          owner = ctx.user.key;
          main_token_account = ctx.main_token_account.key;
          mint = ctx.mint;
          total_subscriptions = 0;
          total_spent = 0;
          yield_shares = 0;
          is_yield_enabled = false;
          bump = bump;
        }));
  };
  ledger = ledger;
  events =
      subscription_wallet_created
        (record { wallet_pda = ctx.subscription_wallet.key; owner = ctx.user.key; mint = ctx.mint })
      ∷ [];
})

-- The entry point in lib.rs.
unfoldable pub create_subscription_wallet :
    Solana → CreateSubscriptionWallet → Ledger → Result (Outcome CreateSubscriptionWallet)
create_subscription_wallet solana ctx ledger =
    try_accounts solana ctx >>= λ bump. handler ctx bump ledger
