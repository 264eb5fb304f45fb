-- ===== src/Core/Answer/Accepted.antt =====
-- When an answer is accepted (packages/core/src/index.ts, `validateAnswerAgainstEnrichment`).
use native.Mathlib.Omega.{arith}
use text.Mathlib.TextEquality.{IsScalar-prop}
use mathlib.Core.List.{
  not-mem-nil, Mem, Nodup, Nodup-nil, Nodup-cons, mem-cons, mem-cons_self, mem-cons_of_mem,
}
use mathlib.Core.Logic.Or
use mathlib.Core.HLevel.{¬_prop, ⊥_prop}
use ccctl.Base.{
  ℕ, String, true, ◌&&◌, not, List, [], ◌∷◌, map, Option, none, some, ◌==◌, ==_iff, ◌⊎◌, inl, inr,
  ◌≡◌, ◌↔◌, refl, str_eq, length, any, All, Bool-cases, Option-cases, str_eq-cases, str_eq_ne, ap,
  ◌∙◌,
}
use ccctl.Base.Dict.{Dict, get, set, get-nil, get-set, get-set_self}
use ccctl.Base.Members.{any-mem, not-any-mem, All-mem, All-of_mem, All-map}
use ccctl.Core.Enrichment.{EnrichmentQuestion, RequiresActionEnrichment}
use ccctl.Core.Answer.{
  AnswerEnvelope, AnswerRejection, AnswerValidation, accepted, rejected, check_labels,
  check_question, check_answers, labels, by_id, validate_answer_against_enrichment,
}

-- Labels that may be chosen: offered, not chosen before, and each once.
abbrev Choosable : List String → List String → List String → Type 0
Choosable offered chosen ls = All (λ l. Mem l offered) ls × All (λ l. ¬ Mem l chosen) ls × Nodup ls

check_labels-choose :
    (offered chosen ls : List String)
    → check_labels offered chosen ls ≡ accepted
    → Choosable offered chosen ls
unfolding check_labels
check_labels-choose offered chosen [] e = (tt, tt, Nodup-nil)
check_labels-choose offered chosen (l ∷ ls) e =
    let (is_offered, is_fresh, rest) = split in
    let (all, fresh, once) = check_labels-choose offered (l ∷ chosen) ls rest in
    (
      (is_offered, all),
      (
        is_fresh,
        All-of_mem _ ls (λ a m k. All-mem _ ls (λ b. ¬_prop) fresh m (mem-cons_of_mem l k)),
      ),
      Nodup-cons.1 (λ m. All-mem _ ls (λ b. ¬_prop) fresh m mem-cons_self, once),
    )
  where
    split : Mem l offered × (¬ Mem l chosen) × (check_labels offered (l ∷ chosen) ls ≡ accepted)
    split = elim (Bool-cases (any (str_eq l) offered)) [
      | inr n ↦ absurd (cc (rw n at e))
      | inl o ↦ elim (Bool-cases (any (str_eq l) chosen)) [
        | inl c ↦ absurd (cc (rw c at (rw o at e)))
        | inr c ↦ ((any-mem l offered).0 o, (not-any-mem l chosen).0 c, rw c at (rw o at e))
      ]
    ]

check_labels-accepts :
    (offered chosen ls : List String)
    → Choosable offered chosen ls
    → check_labels offered chosen ls ≡ accepted
unfolding check_labels
check_labels-accepts offered chosen [] h = refl
check_labels-accepts offered chosen (l ∷ ls) (all, fresh, once) =
    rw ((any-mem l offered).1 all.0, (not-any-mem l chosen).1 fresh.0)
      (check_labels-accepts offered (l ∷ chosen) ls (
        all.1,
        All-of_mem _ ls (λ a m k.
            Or.elim ⊥_prop (mem-cons.0 k) (λ p. (Nodup-cons.0 once).0 (rw (← p) m))
              (All-mem _ ls (λ b. ¬_prop) fresh.1 m)),
        (Nodup-cons.0 once).1,
      ))

-- A selection that fits a question: labels that it offers, each once, and one only unless the question
-- allows several.
abbrev pub Fits : EnrichmentQuestion → List String → Type 0
Fits q selection =
    All (λ l. Mem l (labels q)) selection
    × Nodup selection
    × ((q.multi_select ≡ true) ⊎ (length selection ≡ 1))

pub check_question_iff :
    (q : EnrichmentQuestion) (selection : List String)
    → (check_question q selection ≡ accepted) ↔ Fits q selection
unfolding check_question
check_question_iff q selection =
    elim (Bool-cases (not q.multi_select && not (length selection == 1))) [
      | inl bad ↦ (λ e. absurd (cc (rw bad at e)), λ h. absurd (ground (arith, h.2)))
      | inr good ↦ (
        λ e.
            let (all, _, once) = check_labels-choose (labels q) [] selection (rw good at e) in
            (all, once, ground arith),
        λ h. rw good (
            check_labels-accepts (labels q) [] selection
              (h.0, All-of_mem _ selection (λ a m. not-mem-nil), h.1)),
      )
    ]

Validation-cases :
    (v : AnswerValidation) → (v ≡ accepted) ⊎ ((r : AnswerRejection) × (v ≡ rejected r))
Validation-cases accepted = inl refl
Validation-cases (rejected r) = inr (r, refl)

abbrev Answered : Dict EnrichmentQuestion → String × List String → Type 0
Answered asked a = (q : EnrichmentQuestion) × (get a.0 asked ≡ some q) × Fits q a.1

check_answers_iff :
    (asked : Dict EnrichmentQuestion) (answers : Dict (List String))
    → (check_answers asked answers ≡ accepted) ↔ All (Answered asked) answers
unfolding check_answers
check_answers_iff asked [] = (λ e. tt, λ h. refl)
check_answers_iff asked ((id, selection) ∷ more) = (
  λ e. elim (Option-cases (get id asked)) [
    | inl z ↦ absurd (cc (rw (z, check_answers) at e))
    | inr (q, z) ↦ elim (Validation-cases (check_question q selection)) [
      | inr (r, k) ↦ absurd (cc (rw k at (rw (z, check_answers) at e)))
      | inl k ↦ (
        (q, z, (check_question_iff q selection).0 k),
        (check_answers_iff asked more).0 (rw k at (rw (z, check_answers) at e)),
      )
    ]
  ],
  λ h.
      rw (h.0.1, check_answers)
        (rw ((check_question_iff h.0.0 selection).1 h.0.2) ((check_answers_iff asked more).1 h.1)),
)

module _ (k : String) where
  -- What the index finds is among the questions, or was in the map before.
  by_id_sound :
      (qs : List EnrichmentQuestion) (m : Dict EnrichmentQuestion) (q : EnrichmentQuestion)
      → get k (by_id qs m) ≡ some q
      → (Mem q qs × (q.question_id ≡ k)) ⊎ (get k m ≡ some q)
  unfolding by_id
  by_id_sound [] m q e = inr e
  by_id_sound (p ∷ qs) m q e = elim (by_id_sound qs (set p.question_id p m) q e) [
    | inl (m, i) ↦ inl (mem-cons_of_mem p m, i)
    | inr h ↦ elim (str_eq-cases p.question_id k) [
      | inl (i, t) ↦
          let same : p ≡ q = cc (rw t at (rw get-set at h)) in
          inl (rw same mem-cons_self, rw (← same) i)
      | inr (_, t) ↦ inr (rw t at (rw get-set at h))
    ]
  ]

  by_id-other :
      (qs : List EnrichmentQuestion) (m : Dict EnrichmentQuestion)
      → ¬ Mem k (map (λ q. q.question_id) qs)
      → get k (by_id qs m) ≡ get k m
  unfolding by_id
  by_id-other [] m h = refl
  by_id-other (p ∷ qs) m h =
      by_id-other qs (set p.question_id p m) (λ i. h (mem-cons_of_mem p.question_id i))
      ∙ rw get-set (rw (str_eq_ne p.question_id k (λ e. h (rw e mem-cons_self))) refl)

Option-is_set : IsSet (Option EnrichmentQuestion)
Option-is_set = hlevel IsScalar-prop

by_id_complete :
    (qs : List EnrichmentQuestion) (m : Dict EnrichmentQuestion) (q : EnrichmentQuestion)
    → Nodup (map (λ q. q.question_id) qs)
    → Mem q qs
    → get q.question_id (by_id qs m) ≡ some q
unfolding by_id
by_id_complete [] m q n i = absurd (not-mem-nil i)
by_id_complete (p ∷ qs) m q n i =
    Or.elim (Option-is_set _ _) (mem-cons.0 i)
      (λ e. rw e (
        by_id-other p.question_id qs (set p.question_id p m) (Nodup-cons.0 n).0
        ∙ get-set_self p.question_id p m))
      (by_id_complete qs (set p.question_id p m) q (Nodup-cons.0 n).1)

-- An answer is accepted exactly if it carries the sequence number of the outstanding decision and each
-- question that it answers is one of the outstanding ones, with labels which that question offers, none
-- of them twice, and one label only unless the question allows several. The questions' ids differ.
pub validate_answer_iff :
    (enrichment : RequiresActionEnrichment) (envelope : AnswerEnvelope) (submitted : Option ℕ)
    → Nodup (map (λ q. q.question_id) enrichment.questions)
    → (validate_answer_against_enrichment enrichment envelope submitted ≡ accepted) ↔ (
        (submitted ≡ some enrichment.sequence_num)
        × All
            (λ a.
              (q : EnrichmentQuestion) × Mem q enrichment.questions
              × (q.question_id ≡ a.0)
              × Fits q a.1)
            envelope.answers)
unfolding validate_answer_against_enrichment
validate_answer_iff enrichment envelope none n = (λ e. cc, λ h. cc)
validate_answer_iff enrichment envelope (some m) n =
    elim (Bool-cases (m == enrichment.sequence_num)) [
      | inr e ↦ (λ h. cc (rw e at h), λ h. absurd (ground arith))
      | inl e ↦ (
        λ h. (
          ap some ((==_iff _ _).0 e),
          All-map _ _ envelope.answers (λ a. found a)
              ((check_answers_iff _ envelope.answers).0 (rw e at h)),
        ),
        λ h. rw e (
            (check_answers_iff _ envelope.answers).1
              (All-map _ _ envelope.answers (λ a. indexed a) h.1)),
      )
    ]
  where
    asked : Dict EnrichmentQuestion
    asked = by_id enrichment.questions []

    found :
        (a : String × List String)
        → Answered asked a
        → (q : EnrichmentQuestion) × Mem q enrichment.questions × (q.question_id ≡ a.0) × Fits q a.1
    found a (q, e, f) = elim (by_id_sound a.0 enrichment.questions [] q e) [
      | inl (i, k) ↦ (q, i, k, f)
      | inr z ↦ absurd (get-nil a.0 z)
    ]

    indexed :
        (a : String × List String)
        → (q : EnrichmentQuestion) × Mem q enrichment.questions × (q.question_id ≡ a.0) × Fits q a.1
        → Answered asked a
    indexed a (q, i, k, f) = (q, rw (← k) (by_id_complete enrichment.questions [] q n i), f)
