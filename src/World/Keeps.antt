-- ===== src/World/Keeps.antt =====
-- What every instruction and every change by other programs keeps is kept by transactions, which are
-- all of a run or nothing of it.
use mathlib.Core.Path.{subst}
use eventop.Base.{refl, ℤ, ◌≡◌, List, [], ◌∷◌, Text}
use eventop.Runtime.Result.{Result, ok, err, >>=-eq-ok}
use eventop.Runtime.Token.{Ledger}
use eventop.Runtime.Anchor.{Pubkey, Solana}
use eventop.World.{World, Command, call, outside, Transaction}
use eventop.World.Exec.{exec, exec_all, committed, process, serve}
use eventop.World.Steps.{Ran}
use eventop.World.Runs.{exec-Ran}

module _ {κ} {solana : Solana} (P : World → Type κ)
    (ran : (now : ℤ) (w w' : World) → Ran solana now w w' → P w → P w')
    (elsewhere : (w : World) (l : Ledger) (bytes : Pubkey → Text)
      → P w
      → P (record w { ledger = l; contents = bytes })) where
  commands-keep :
      (signers : List Pubkey) (now : ℤ) (w : World) (commands : List Command) {w' : World}
      → exec_all solana signers now w commands ≡ ok w'
      → P w
      → P w'
  unfolding exec_all
  commands-keep signers now w [] {w'} h p = let same : w ≡ w' = cc in subst P same p
  commands-keep signers now w (call message ∷ commands) h p =
      let (m, done, rest) = >>=-eq-ok (exec solana signers now w message) _ h in
      commands-keep signers now m commands rest
        (ran now w m (exec-Ran solana signers now w message done) p)
  commands-keep signers now w (outside l bytes ∷ commands) h p =
      commands-keep signers now (record w { ledger = l; contents = bytes }) commands h
        (elsewhere w l bytes p)

  kept_or_rolled_back :
      (w : World) (r : Result World) → P w → ((w' : World) → r ≡ ok w' → P w') → P (committed w r)
  kept_or_rolled_back w (ok w') p kept = kept w' refl
  kept_or_rolled_back w (err e) p kept = p

  process-keeps : (w : World) (t : Transaction) → P w → P (process solana w t)
  unfolding process
  process-keeps w t p =
      kept_or_rolled_back w (exec_all solana t.signers t.unix_timestamp w t.commands) p
        λ w' h. commands-keep t.signers t.unix_timestamp w t.commands h p

  pub serve-keeps : (w : World) (ts : List Transaction) → P w → P (serve solana w ts)
  unfolding serve
  serve-keeps w [] p = p
  serve-keeps w (t ∷ ts) p = serve-keeps (process solana w t) ts (process-keeps w t p)
