-- ===== src/Wallet/Withdraw.antt =====
-- instructions/wallet/withdraw.rs of the program.
use eventop.Base.{ℕ, [], ◌∷◌, ltb, leb, ◌==◌}
use eventop.Errors.{
  invalid_withdraw_amount, insufficient_available_balance, unauthorized_wallet_access,
}
use eventop.Runtime.Result.{Result, ok, ◌>>=◌, ◌>>◌, require}
use eventop.Runtime.Word.{saturating_sub}
use eventop.Runtime.Token.{TokenAccount, Ledger}
use eventop.Runtime.Anchor.{
  Account, Signer, Solana, check_signer, check_token_mint, check_token_authority,
}
use eventop.State.SubscriptionWallet.{SubscriptionWallet, check_wallet_seeds, wallet_transfer}
use eventop.Events.{wallet_withdrawal}
use eventop.Outcome.{Outcome}
use eventop.Utils.Calculations.{calculate_committed_balance}

pub record WithdrawFromWallet : Type 0 where
  pub subscription_wallet : Account SubscriptionWallet
  pub owner : Signer
  pub user_token_account : Account TokenAccount
  pub wallet_token_account : Account TokenAccount

module _ (solana : Solana) where
  unfoldable pub try_accounts : WithdrawFromWallet → Result (Unit {0})
  try_accounts ctx = do
    check_signer ctx.owner
    check_wallet_seeds solana ctx.subscription_wallet
    require (ctx.subscription_wallet.state.owner == ctx.owner.key) unauthorized_wallet_access
    check_token_mint ctx.user_token_account ctx.subscription_wallet.state.mint
    check_token_authority ctx.user_token_account ctx.owner.key
    check_token_authority ctx.wallet_token_account ctx.subscription_wallet.key
    check_token_mint ctx.wallet_token_account ctx.subscription_wallet.state.mint

  unfoldable pub handler : WithdrawFromWallet → ℕ → Ledger → Result (Outcome WithdrawFromWallet)
  handler ctx amount ledger = do
    require (ltb 0 amount) invalid_withdraw_amount
    committed_amount ← calculate_committed_balance ctx.subscription_wallet.state
    let withdrawable = saturating_sub ctx.wallet_token_account.state.amount committed_amount
    require (leb amount withdrawable) insufficient_available_balance
    ledger' ←
        solana.transfer
          (wallet_transfer ctx.subscription_wallet ctx.wallet_token_account.key
            ctx.user_token_account.key)
          amount ledger
    ok (record {
      accounts = ctx;
      ledger = ledger';
      events =
          wallet_withdrawal (record {
            wallet_pda = ctx.subscription_wallet.key;
            user = ctx.subscription_wallet.state.owner;
            amount = amount;
          })
          ∷ [];
    })

  -- The entry point in lib.rs.
  unfoldable pub withdraw_from_wallet :
      WithdrawFromWallet → ℕ → Ledger → Result (Outcome WithdrawFromWallet)
  withdraw_from_wallet ctx amount ledger = try_accounts ctx >> handler ctx amount ledger
