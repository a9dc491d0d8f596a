-- ===== src/Outcome.antt =====
-- What a successful instruction leaves: its accounts as they are written back, the token accounts,
-- and the events. A failed one leaves nothing, since its transaction is rolled back.
use eventop.Base.{List}
use eventop.Runtime.Token.{Ledger}
use eventop.Runtime.Anchor.{Account}
use eventop.Events.{Event}

pub record Outcome {ℓ} (A : Type ℓ) : Type ℓ where
  pub accounts : A
  pub ledger : Ledger
  pub events : List Event

-- The account with its contents replaced.
abbrev pub with_state {ℓ} : {A : Type ℓ} → Account A → A → Account A
with_state a x = record { key = a.key; state = x }
