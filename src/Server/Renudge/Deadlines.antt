-- ===== src/Server/Renudge/Deadlines.antt =====
-- The deadlines of packages/server/src/renudge-cadence.ts.
use native.Mathlib.Omega.{arith}
use ccctl.Base.{
  ℕ, zero, suc, ◌+◌, ◌<◌, ◌≡◌, refl, Bool, List, [], ◌∷◌, ltb, leb, length, take, map, keep, ◌&&◌,
}
use ccctl.Server.Renudge.{
  RenudgeCadence, add_gaps, renudge_deadline, renudge_decision, due_renudges, RenudgeCandidate,
  DueRenudge,
}

-- Each nudge comes its gap after the one before it, the first its gap after the event.
abbrev pub gap_at : List ℕ → ℕ → ℕ
gap_at [] i = 0
gap_at (g ∷ gs) zero = g
gap_at (g ∷ gs) (suc i) = gap_at gs i

add_gaps-next :
    (start n : ℕ) (gaps : List ℕ)
    → n < length gaps
    → add_gaps start (take (suc n) gaps) ≡ add_gaps start (take n gaps) + gap_at gaps n
unfolding add_gaps
add_gaps-next start n [] h = absurd (omega arith)
add_gaps-next start zero (g ∷ gs) h = refl
add_gaps-next start (suc n) (g ∷ gs) h = add_gaps-next (start + g) n gs (omega arith)

take_more : (n : ℕ) → n + 1 ≡ suc n
take_more n = omega arith

-- The first re-nudge falls due one gap after the event, and each later one its own gap after the one
-- before it, as long as the cadence has gaps.
pub renudge_deadline-next :
    (fired_at n : ℕ) (cadence : RenudgeCadence)
    → n + 1 < length cadence
    → (renudge_deadline fired_at 0 cadence ≡ fired_at + gap_at cadence 0)
      × (renudge_deadline fired_at (n + 1) cadence
          ≡ renudge_deadline fired_at n cadence + gap_at cadence (n + 1))
unfolding renudge_deadline
renudge_deadline-next fired_at n cadence h = (
  add_gaps-next fired_at 0 cadence (omega arith),
  rw (take_more (n + 1), take_more n) (add_gaps-next fired_at (suc n) cadence (omega arith)),
)

abbrev pub due_of : RenudgeCadence → RenudgeCandidate → DueRenudge
due_of cadence c = record {
  entry = c.entry;
  renudge_index = c.renudges_fired;
  renudge_at = renudge_deadline c.entry.at c.renudges_fired cadence;
}

-- A candidate has a nudge left in the cadence, and the time of that nudge has come.
abbrev pub is_owed : ℕ → RenudgeCadence → RenudgeCandidate → Bool
is_owed now cadence c =
    ltb c.renudges_fired (length cadence)
    && leb (renudge_deadline c.entry.at c.renudges_fired cadence) now

-- A pass reports, in the candidates' order, one nudge for each candidate that has a nudge left in the
-- cadence and whose deadline has come, and no other. The nudge carries the candidate's entry, the number of
-- its nudges so far and that deadline.
pub due_renudges-owed :
    (cs : List RenudgeCandidate) (now : ℕ) (cadence : RenudgeCadence)
    → due_renudges cs now cadence ≡ map (due_of cadence) (keep (is_owed now cadence) cs)
unfolding due_renudges renudge_decision
due_renudges-owed [] now cadence = refl
due_renudges-owed (c ∷ cs) now cadence = ground (arith, due_renudges-owed cs now cadence)
