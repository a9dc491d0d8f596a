-- ===== src/Tests/Targets.antt =====
-- A chain with a lending program, and a rebalancing there: 10,000 fTokens at the rate 1.2 are lent.
use eventop.Base.{
  ℕ, ◌+◌, ◌-◌, ◌≤◌, ◌≡◌, refl, arith, Option, none, some, List, ◌∷◌, Text, drop, leb, ◌==◌,
  if◌then◌else◌,
}
use eventop.Runtime.Token.{Ledger}
use eventop.Runtime.Anchor.{Pubkey, Solana}
use eventop.Outcome.{Outcome}
use eventop.Utils.VaultOperations.{from_le_bytes}
use eventop.Utils.Encoding.{instruction_amount}
use eventop.Utils.Lending.{IsLending}
use eventop.VaultManagement.RebalanceVault.{RebalanceVault, rebalance_vault}
use eventop.VaultManagement.Target.{rebalance-IsOnTarget}
use eventop.Tests.Accounts.{value_or, done, ledger}
use eventop.Tests.Chain.{chain}
use eventop.Tests.Vaults.{rebalance}

abbrev take_from : Pubkey → ℕ → Ledger → Option Ledger
take_from k n l =
    if leb n (l k).amount
    then some (λ j. if j == k then record (l j) { amount = (l j).amount - n } else l j)
    else none

abbrev pay_to : Pubkey → ℕ → Ledger → Option Ledger
pay_to k n l = some (λ j. if j == k then record (l j) { amount = (l j).amount + n } else l j)

-- The two instructions differ in their first byte.
abbrev test_lending : Text → List Pubkey → Ledger → Option Ledger
test_lending (code ∷ rest) (vault ∷ source ∷ target ∷ _) l =
    if code == 242
    then take_from source (from_le_bytes (drop 7 rest)) l
    else pay_to target (from_le_bytes (drop 7 rest)) l
test_lending _ _ l = none

abbrev lending_chain : Solana
lending_chain = record chain {
  invoke_signed = λ instruction keys seeds l. test_lending instruction.instruction_data keys l;
}

taken : (k n : ℕ) (l l' : Ledger) → take_from k n l ≡ some l' → (l' k).amount + n ≡ (l k).amount
taken k n l l' h = ground arith

paid : (k n : ℕ) (l l' : Ledger) → pay_to k n l ≡ some l' → (l' k).amount ≡ (l k).amount + n
paid k n l l' h = ground arith

lending_chain-IsLending : IsLending lending_chain
lending_chain-IsLending = record {
  deposit_takes = λ vault from recipient program j amount seeds l l' apart fits h.
      let same = (instruction_amount vault from recipient program j amount fits).0 in
      taken from amount l l' (rw same at h);
  withdrawal_pays = λ vault owner recipient program j amount seeds l l' apart fits h.
      let same = (instruction_amount vault owner recipient program j amount fits).1 in
      paid recipient amount l l' (rw same at h);
}

abbrev after : Outcome RebalanceVault
after = value_or (done rebalance ledger) (rebalance_vault lending_chain rebalance ledger)

-- 15% of 16,000 stay.
rebalance-IsOnTarget_example : (2_400 ≤ (after.ledger 3).amount) × ((after.ledger 3).amount ≤ 2_560)
unfolding eventop.Utils.VaultOperations.get_vault_total_value
    eventop.Utils.VaultOperations.ftoken_value eventop.Utils.Calculations.calculate_buffer_amount
    rebalance_vault eventop.VaultManagement.RebalanceVault.try_accounts
    eventop.VaultManagement.RebalanceVault.handler
    eventop.Utils.JupiterLend.deposit_to_jupiter_lend_internal
    eventop.Utils.VaultOperations.to_le_bytes
rebalance-IsOnTarget_example =
    rebalance-IsOnTarget lending_chain-IsLending rebalance ledger (omega arith) refl (omega arith)
      16_000 2_400 {o = after} refl refl refl
