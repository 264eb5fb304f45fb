-- ===== src/Server/Renudge.antt =====
-- packages/server/src/renudge-cadence.ts: when an event that is still unread is nudged again.
pub mod Deadlines
use ccctl.Base.{ℕ, ◌+◌, Bool, true, false, List, [], ◌∷◌, ltb, leb, if◌then◌else◌, length, take}
use ccctl.Server.Unread.{UnreadEntry}

abbrev pub RenudgeCadence : Type 0
RenudgeCadence = List ℕ

abbrev pub default_renudge_backoff_ms : RenudgeCadence
default_renudge_backoff_ms = 30000 ∷ 120000 ∷ 300000 ∷ 900000 ∷ []

pub data RenudgeDecision : Type 0 where
  due pending : (renudge_index renudge_at : ℕ) → RenudgeDecision
  exhausted : RenudgeDecision

-- `reduce((deadline, gap) => deadline + gap, firedAt)`
unfoldable pub add_gaps : ℕ → List ℕ → ℕ
add_gaps deadline [] = deadline
add_gaps deadline (gap ∷ gaps) = add_gaps (deadline + gap) gaps

unfoldable pub renudge_deadline : ℕ → ℕ → RenudgeCadence → ℕ
unfolding add_gaps
renudge_deadline fired_at renudge_index cadence =
    add_gaps fired_at (take (renudge_index + 1) cadence)

unfoldable pub renudge_decision : ℕ → ℕ → ℕ → RenudgeCadence → RenudgeDecision
renudge_decision fired_at renudges_fired now cadence =
    if leb (length cadence) renudges_fired
    then exhausted
    else let renudge_at = renudge_deadline fired_at renudges_fired cadence in
      if leb renudge_at now
      then due renudges_fired renudge_at
      else pending renudges_fired renudge_at

pub record RenudgeCandidate : Type 0 where
  pub entry : UnreadEntry
  pub renudges_fired : ℕ

pub record DueRenudge : Type 0 where
  pub entry : UnreadEntry
  pub renudge_index : ℕ
  pub renudge_at : ℕ

unfoldable pub due_renudges : List RenudgeCandidate → ℕ → RenudgeCadence → List DueRenudge
due_renudges [] now cadence = []
due_renudges (c ∷ cs) now cadence =
    let rest = due_renudges cs now cadence in
    elim (renudge_decision c.entry.at c.renudges_fired now cadence) [
      | due index at ↦ record { entry = c.entry; renudge_index = index; renudge_at = at } ∷ rest
      | pending index at ↦ rest
      | exhausted ↦ rest
    ]
