-- ===== src/Wallet/Deposit.antt =====
-- instructions/wallet/deposit.rs of the program.
use eventop.Base.{ℕ, [], ◌∷◌, ltb}
use eventop.Errors.{invalid_deposit_amount}
use eventop.Runtime.Result.{Result, ok, ◌>>=◌, ◌>>◌, require}
use eventop.Runtime.Token.{TokenAccount, Ledger}
use eventop.Runtime.Anchor.{
  Account, Signer, Solana, check_signer, check_token_mint, check_token_authority,
}
use eventop.State.SubscriptionWallet.{SubscriptionWallet, check_wallet_seeds}
use eventop.Events.{wallet_deposit}
use eventop.Outcome.{Outcome}

pub record DepositToWallet : Type 0 where
  pub subscription_wallet : Account SubscriptionWallet
  pub user : Signer
  pub user_token_account : Account TokenAccount
  pub wallet_token_account : Account TokenAccount

module _ (solana : Solana) where
  unfoldable pub try_accounts : DepositToWallet → Result (Unit {0})
  try_accounts ctx = do
    check_signer ctx.user
    check_wallet_seeds solana ctx.subscription_wallet
    check_token_mint ctx.user_token_account ctx.subscription_wallet.state.mint
    check_token_authority ctx.user_token_account ctx.user.key
    check_token_authority ctx.wallet_token_account ctx.subscription_wallet.key
    check_token_mint ctx.wallet_token_account ctx.subscription_wallet.state.mint

  unfoldable pub handler : DepositToWallet → ℕ → Ledger → Result (Outcome DepositToWallet)
  handler ctx amount ledger = do
    require (ltb 0 amount) invalid_deposit_amount
    ledger' ←
        solana.transfer
          (record {
            from = ctx.user_token_account.key;
            to = ctx.wallet_token_account.key;
            authority = ctx.user;
            signer_seeds = [];
          })
          amount ledger
    ok (record {
      accounts = ctx;
      ledger = ledger';
      events =
          wallet_deposit (record {
            wallet_pda = ctx.subscription_wallet.key;
            user = ctx.subscription_wallet.state.owner;
            amount = amount;
          })
          ∷ [];
    })

  -- The entry point in lib.rs.
  unfoldable pub deposit_to_wallet : DepositToWallet → ℕ → Ledger → Result (Outcome DepositToWallet)
  deposit_to_wallet ctx amount ledger = try_accounts ctx >> handler ctx amount ledger
