-- ===== src/World/Shares.antt =====
-- The shares of the vaults and of the wallets, mint by mint.
use mathlib.Core.Path.{subst}
use eventop.Base.{
  ℕ, ◌+◌, ◌≡◌, sym, ◌∙◌, arith, inl, inr, Option, none, some, List, [], ◌∷◌, ◌++◌, ◌==◌,
  if◌then◌else◌,
}
use eventop.Base.Assoc.{find, sum_of, All, sum_of-put, sum_of-put_new, put-All, find-All}
use eventop.Runtime.Anchor.{Account, Pubkey, Solana, bump_byte}
use eventop.State.YieldVault.{YieldVault, vault_seeds}
use eventop.State.SubscriptionWallet.{SubscriptionWallet}
use eventop.YieldOps.Shares.{IsSettled}
use eventop.World.{World}
use eventop.World.Load.{save, save_new}
use eventop.World.Loaded.{IsStored}

-- What a wallet holds, and what a vault has issued, of one mint.
abbrev pub holding : Pubkey → SubscriptionWallet → ℕ
holding mint w = if w.mint == mint then w.yield_shares else 0

abbrev pub issue : Pubkey → YieldVault → ℕ
issue mint v = if v.mint == mint then v.total_shares_issued else 0

abbrev pub held : Pubkey → World → ℕ
held mint w = sum_of (holding mint) w.registry.wallets

abbrev pub issued : Pubkey → World → ℕ
issued mint w = sum_of (issue mint) w.vaults

pub record AreBalanced (w : World) : Type 0 where
  pub balanced : (mint : Pubkey) → held mint w ≡ issued mint w
  pub settled : All IsSettled w.registry.wallets

-- An address is of one seed array: no two mints have a vault at the same one.
abbrev pub VaultsApart : Solana → Type 0
VaultsApart solana =
    (m n : Pubkey) (bump : ℕ) (k : Pubkey)
    → solana.create_program_address (vault_seeds m ++ (bump_byte bump ∷ [])) ≡ some k
    → solana.create_program_address (vault_seeds n ++ (bump_byte bump ∷ [])) ≡ some k
    → m ≡ n

pub sum_of-save {ℓ} :
    {V : Type ℓ} (f : V → ℕ) (a a' : Account V) (m : List (Pubkey × V))
    → IsStored a m
    → a'.key ≡ a.key
    → sum_of f (save a' m) + f a.state ≡ sum_of f m + f a'.state
sum_of-save f a a' m stored key =
    sum_of-put f a'.key a'.state a.state m (subst (λ k. find k m ≡ some a.state) (sym key) stored)

pub sum_of-save_new {ℓ} :
    {V : Type ℓ} (f : V → ℕ) (a a' : Account (Option V)) (m : List (Pubkey × V))
    → a.state ≡ find a.key m
    → a.state ≡ none
    → {v : V} → a' ≡ record { key = a.key; state = some v }
    → sum_of f (save_new a' m) ≡ sum_of f m + f v
sum_of-save_new f a a' m new fresh {v} made =
    subst (λ b. sum_of f (save_new b m) ≡ sum_of f m + f v) (sym made)
      (sum_of-put_new f a.key v m (sym new ∙ fresh))

-- A wallet and a vault of one mint whose numbers change by the same.
pub weights :
    (mint : Pubkey) (w w' : SubscriptionWallet) (v v' : YieldVault)
    → w'.mint ≡ w.mint
    → v'.mint ≡ v.mint
    → v.mint ≡ w.mint
    → v'.total_shares_issued + w.yield_shares ≡ v.total_shares_issued + w'.yield_shares
    → holding mint w' + issue mint v ≡ holding mint w + issue mint v'
weights mint w w' v v' wallets vaults same moved = ground arith

pub holding_same :
    (mint : Pubkey) (w w' : SubscriptionWallet)
    → w'.mint ≡ w.mint
    → w'.yield_shares ≡ w.yield_shares
    → holding mint w' ≡ holding mint w
holding_same mint w w' mints shares = cc

pub issue_same :
    (mint : Pubkey) (v v' : YieldVault)
    → v'.mint ≡ v.mint
    → v'.total_shares_issued ≡ v.total_shares_issued
    → issue mint v' ≡ issue mint v
issue_same mint v v' mints shares = cc

pub holding_none :
    (mint : Pubkey) (w : SubscriptionWallet) → w.yield_shares ≡ 0 → holding mint w ≡ 0
holding_none mint w none_held = ground arith

pub issue_none : (mint : Pubkey) (v : YieldVault) → v.total_shares_issued ≡ 0 → issue mint v ≡ 0
issue_none mint v none_issued = ground arith

IsSettled-same :
    (w w' : SubscriptionWallet)
    → w'.yield_shares ≡ w.yield_shares
    → w'.is_yield_enabled ≡ w.is_yield_enabled
    → IsSettled w
    → IsSettled w'
IsSettled-same w w' shares enabled (inl e) = inl (enabled ∙ e)
IsSettled-same w w' shares enabled (inr z) = inr (shares ∙ z)

-- A wallet's rewritten account with the same shares.
pub wallet-AreBalanced :
    (w : World) (a a' : Account SubscriptionWallet)
    → IsStored a w.registry.wallets
    → a'.key ≡ a.key
    → a'.state.mint ≡ a.state.mint
    → a'.state.yield_shares ≡ a.state.yield_shares
    → a'.state.is_yield_enabled ≡ a.state.is_yield_enabled
    → AreBalanced w
    → ((mint : Pubkey) → sum_of (holding mint) (save a' w.registry.wallets) ≡ issued mint w)
      × All IsSettled (save a' w.registry.wallets)
wallet-AreBalanced w a a' stored key mints shares enabled b = (
  λ mint. omega (
    arith,
    sum_of-save (holding mint) a a' w.registry.wallets stored key,
    holding_same mint a.state a'.state mints shares,
    b.balanced mint,
  ),
  put-All IsSettled a'.key a'.state w.registry.wallets
      (IsSettled-same a.state a'.state shares enabled
        (find-All IsSettled a.key a.state w.registry.wallets b.settled stored))
      b.settled,
)
