-- ===== src/World/Written.antt =====
-- What is written back to the stored accounts, and who has signed for a new one.
use mathlib.Core.Path.{subst}
use eventop.Base.{ℕ, ◌≡◌, refl, sym, arith, true, List}
use eventop.Runtime.Result.{ok, >>=-eq-ok}
use eventop.Runtime.Token.{Ledger}
use eventop.Runtime.Anchor.{Account, Pubkey, Solana}
use eventop.Protocol.InitializeYieldVault.{initialize_yield_vault}
use eventop.Wallet.CreateWallet.{create_subscription_wallet}
use eventop.Base.{◌⊎◌, inl, inr, Bool-cases, ==_iff, Option, none, some, ◌==◌}
use eventop.Base.Assoc.{find, put, find-put}
use eventop.Outcome.{Outcome}
use eventop.State.YieldVault.{YieldVault}
use eventop.Wallet.CreateWallet
use eventop.Wallet.CreateWallet.{CreateSubscriptionWallet}
use eventop.Protocol.InitializeYieldVault
use eventop.Protocol.InitializeYieldVault.{InitializeYieldVault}
use eventop.World.Load.{save, save_optional}
use eventop.World.Loaded.{IsStored, AreStored}

-- An entry is as it was, or it is the one that is written, for which there is a reason.
pub written {ℓ κ} :
    {V : Type ℓ} (R : Type κ) (k j : Pubkey) (v : V) (m : List (Pubkey × V))
    {m' : List (Pubkey × V)}
    → m' ≡ put j v m
    → (k ≡ j → R)
    → (find k m' ≡ find k m) ⊎ R
written R k j v m after reason = elim (Bool-cases (k == j)) [
  | inl hit ↦ inr (reason ((==_iff k j).0 hit))
  | inr miss ↦ inl (rw (after, find-put k j v m, miss))
]

-- Writing back what is stored changes nothing.
pub rewritten {ℓ} :
    {V : Type ℓ} (k : Pubkey) (a : Account V) (m : List (Pubkey × V))
    → IsStored a m
    → find k (save a m) ≡ find k m
rewritten k a m stored = elim (Bool-cases (k == a.key)) [
  | inl hit ↦
      rw (find-put k a.key a.state m, hit)
        (sym (subst (λ j. find j m ≡ some a.state) (sym ((==_iff k a.key).0 hit)) stored))
  | inr miss ↦ rw (find-put k a.key a.state m, miss)
]

pub optional_rewritten :
    (k : Pubkey) (a : Option (Account YieldVault)) (m : List (Pubkey × YieldVault))
    → AreStored a m
    → find k (save_optional a m) ≡ find k m
optional_rewritten k none m stored = refl
optional_rewritten k (some a) m stored = rewritten k a m stored

wallet_signed :
    (solana : Solana) (ctx : CreateSubscriptionWallet) {bump : ℕ}
    → CreateWallet.try_accounts solana ctx ≡ ok bump
    → ctx.user.is_signer ≡ true
unfolding CreateWallet.try_accounts
wallet_signed solana ctx h = ground arith

vault_signed :
    (solana : Solana) (ctx : InitializeYieldVault) {bump : ℕ}
    → InitializeYieldVault.try_accounts solana ctx ≡ ok bump
    → ctx.authority.is_signer ≡ true
unfolding InitializeYieldVault.try_accounts
vault_signed solana ctx h = ground arith

pub created_signed :
    (solana : Solana) (ctx : CreateSubscriptionWallet) (l : Ledger)
    {o : Outcome CreateSubscriptionWallet}
    → create_subscription_wallet solana ctx l ≡ ok o
    → ctx.user.is_signer ≡ true
unfolding create_subscription_wallet
created_signed solana ctx l h =
    wallet_signed solana ctx (>>=-eq-ok (CreateWallet.try_accounts solana ctx) _ h).1

pub vault_created_signed :
    (solana : Solana) (ctx : InitializeYieldVault) (bps : ℕ) (l : Ledger)
    {o : Outcome InitializeYieldVault}
    → initialize_yield_vault solana ctx bps l ≡ ok o
    → ctx.authority.is_signer ≡ true
unfolding initialize_yield_vault
vault_created_signed solana ctx bps l h =
    vault_signed solana ctx (>>=-eq-ok (InitializeYieldVault.try_accounts solana ctx) _ h).1
