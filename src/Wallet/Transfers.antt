-- ===== src/Wallet/Transfers.antt =====
-- instructions/wallet: what a deposit and a withdrawal move, and who may withdraw how much.
use eventop.Base.{◌++◌, ℕ, ◌+◌, ◌≤◌, ◌<◌, ◌≡◌, ◌≢◌, arith, true, some, [], ◌∷◌}
use eventop.Runtime.Result.{ok, ok_of_ne_err}
use eventop.Runtime.Word.{u64_mod}
use eventop.Runtime.Token.{Ledger}
use eventop.Runtime.Anchor.{bump_byte, Solana, TransferContext}
use eventop.Runtime.Laws.{IsSolana}
use eventop.State.SubscriptionWallet.{wallet_seeds, wallet_transfer}
use eventop.Outcome.{Outcome}
use eventop.Utils.Calculations.{calculate_committed_balance}
use eventop.Wallet.Deposit
use eventop.Wallet.Deposit.{DepositToWallet, deposit_to_wallet}
use eventop.Wallet.Withdraw
use eventop.Wallet.Withdraw.{WithdrawFromWallet, withdraw_from_wallet}

-- What a withdrawal that succeeds has checked and moved.
pub record IsWithdrawn (ctx : WithdrawFromWallet) (amount : ℕ) (l l' : Ledger) : Type 0 where
  pub signed : ctx.owner.is_signer ≡ true
  pub by_owner : ctx.subscription_wallet.state.owner ≡ ctx.owner.key
  pub own_account : ctx.user_token_account.state.owner ≡ ctx.owner.key
  pub positive : 0 < amount
  pub covered : amount ≤ ctx.wallet_token_account.state.amount
  pub taken :
      (l' ctx.wallet_token_account.key).amount + amount ≡ (l ctx.wallet_token_account.key).amount
  pub given :
      (l' ctx.user_token_account.key).amount ≡ (l ctx.user_token_account.key).amount + amount

module _ {solana : Solana} (laws : IsSolana solana) (ctx : WithdrawFromWallet) (amount : ℕ)
    (l : Ledger) where
  open laws use {transfer_debits, transfer_credits, transfer_succeeds}

  abbrev out : TransferContext
  out =
      wallet_transfer ctx.subscription_wallet ctx.wallet_token_account.key
        ctx.user_token_account.key

  -- Between distinct accounts, only the owner withdraws, only what the account held, and only to an
  -- own account, and the amount moves.
  pub withdraw-IsWithdrawn :
      {o : Outcome WithdrawFromWallet}
      → ctx.wallet_token_account.key ≢ ctx.user_token_account.key
      → withdraw_from_wallet solana ctx amount l ≡ ok o
      → IsWithdrawn ctx amount l o.ledger
  unfolding withdraw_from_wallet Withdraw.handler Withdraw.try_accounts calculate_committed_balance
  withdraw-IsWithdrawn {o} apart h =
      ground (arith, transfer_debits out amount l o.ledger, transfer_credits out amount l o.ledger)

  wallet_signs :
      Withdraw.try_accounts solana ctx ≡ ok tt
      → (solana.create_program_address (
            wallet_seeds ctx.subscription_wallet.state.owner ctx.subscription_wallet.state.mint
            ++ (bump_byte ctx.subscription_wallet.state.bump ∷ []))
          ≡ some ctx.subscription_wallet.key)
        × (ctx.wallet_token_account.state.owner ≡ ctx.subscription_wallet.key)
        × (ctx.wallet_token_account.state.mint ≡ ctx.subscription_wallet.state.mint)
        × (ctx.user_token_account.state.mint ≡ ctx.subscription_wallet.state.mint)
  unfolding Withdraw.try_accounts
  wallet_signs h = ground arith

  -- If the account checks pass and the ledger agrees with the accounts that were read, the owner can
  -- take out any part of the balance, up to all of it, however many subscriptions are active.
  pub withdraw_all_succeeds :
      Withdraw.try_accounts solana ctx ≡ ok tt
      → ctx.wallet_token_account.key ≢ ctx.user_token_account.key
      → l ctx.wallet_token_account.key ≡ ctx.wallet_token_account.state
      → l ctx.user_token_account.key ≡ ctx.user_token_account.state
      → 0 < amount
      → amount ≤ ctx.wallet_token_account.state.amount
      → ctx.user_token_account.state.amount + amount < u64_mod
      → (o : Outcome WithdrawFromWallet) × (withdraw_from_wallet solana ctx amount l ≡ ok o)
  unfolding withdraw_from_wallet Withdraw.handler calculate_committed_balance
  withdraw_all_succeeds checked apart wallet user positive covered fits =
      let (signs, owns, m, m') = wallet_signs checked in
      let (l', moved) =
        transfer_succeeds out amount l apart signs (ground arith) (ground arith) (ground arith)
          (ground arith) in
      ok_of_ne_err (withdraw_from_wallet solana ctx amount l) λ e bad. ground arith

-- What a deposit that succeeds has checked and moved: the payer signs, and any payer will do.
module _ {solana : Solana} (laws : IsSolana solana) (ctx : DepositToWallet) (amount : ℕ)
    (l : Ledger) where
  open laws use {transfer_debits, transfer_credits}

  abbrev into : TransferContext
  into = record {
    from = ctx.user_token_account.key;
    to = ctx.wallet_token_account.key;
    authority = ctx.user;
    signer_seeds = [];
  }

  -- Between distinct accounts, a deposit moves a positive amount from the signer's account into the
  -- wallet's, and leaves the program's accounts as they are.
  pub deposit_moves :
      {o : Outcome DepositToWallet}
      → ctx.user_token_account.key ≢ ctx.wallet_token_account.key
      → deposit_to_wallet solana ctx amount l ≡ ok o
      → (ctx.user.is_signer ≡ true)
        × (ctx.user_token_account.state.owner ≡ ctx.user.key)
        × (ctx.wallet_token_account.state.owner ≡ ctx.subscription_wallet.key)
        × (0 < amount)
        × ((o.ledger ctx.user_token_account.key).amount + amount
            ≡ (l ctx.user_token_account.key).amount)
        × ((o.ledger ctx.wallet_token_account.key).amount
            ≡ (l ctx.wallet_token_account.key).amount + amount)
        × (o.accounts ≡ ctx)
  unfolding deposit_to_wallet Deposit.handler Deposit.try_accounts
  deposit_moves {o} apart h =
      ground
        (arith, transfer_debits into amount l o.ledger, transfer_credits into amount l o.ledger)
