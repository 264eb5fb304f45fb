-- ===== src/Core/Enrichment/Ids.antt =====
-- The question ids `q0` to `q15` of packages/core/src/index.ts: well formed and different.
use native.Mathlib.Omega.{arith}
use mathlib.Core.HLevel.{⊥_prop}
use mathlib.Core.Logic.Or
use mathlib.Core.List.{Mem, Memᴰ, Nodup, Nodup-nil, Nodup-cons, mem-cons, not-mem-nil}
use ccctl.Base.{
  ℕ, ◌+◌, ◌≤◌, ◌<◌, ◌≡◌, refl, String, Bool, true, List, [], ◌∷◌, map, str_eq, eq_iff, length, ◌==◌,
  holds_below, holds_at, ◌∙◌, not, ◌||◌,
}
use ccctl.Core.Enrichment.{EnrichmentQuestion, enrichment_question_id, is_enrichment_question_id}
use ccctl.Core.Enrichment.Shape.{Numbered}

pub question_id-valid :
    (i : ℕ) → i < 16 → is_enrichment_question_id (enrichment_question_id i) ≡ true
question_id-valid i h =
    holds_at 16 (λ k. is_enrichment_question_id (enrichment_question_id k)) i table h
  where
    table : holds_below 16 (λ k. is_enrichment_question_id (enrichment_question_id k)) ≡ true
    table = unfold holds_below is_enrichment_question_id enrichment_question_id in refl

abbrev differ : ℕ → ℕ → Bool
differ i j = i == j || not (str_eq (enrichment_question_id i) (enrichment_question_id j))

differ-table : holds_below 16 (λ i. holds_below 16 (differ i)) ≡ true
unfolding holds_below enrichment_question_id
differ-table = refl

question_id-injective :
    (i j : ℕ) → i < 16 → j < 16 → enrichment_question_id i ≡ enrichment_question_id j → i ≡ j
question_id-injective i j hi hj e = ground (
  arith,
  holds_at 16 (differ i) j (holds_at 16 (λ i. holds_below 16 (differ i)) i differ-table hi) hj,
  eq_iff (enrichment_question_id i) (enrichment_question_id j),
)

abbrev ids : List EnrichmentQuestion → List String
ids qs = map (λ q. q.question_id) qs

earlier_id :
    (j i : ℕ) (qs : List EnrichmentQuestion)
    → j < i
    → i + length qs ≤ 16
    → Numbered i qs
    → ¬ Mem (enrichment_question_id j) (ids qs)
earlier_id j i [] h b n m = not-mem-nil m
earlier_id j i (q ∷ qs) h b (e, n) m =
    Or.elim ⊥_prop (mem-cons.0 m)
      (λ same.
        let k = question_id-injective j i (omega arith) (omega arith) (same ∙ e) in omega arith)
      (earlier_id j (i + 1) qs (omega arith) (omega arith) n)

pub ids-Nodup :
    (i : ℕ) (qs : List EnrichmentQuestion) → i + length qs ≤ 16 → Numbered i qs → Nodup (ids qs)
ids-Nodup i [] b n = Nodup-nil
ids-Nodup i (q ∷ qs) b (e, n) = Nodup-cons.1 (
  rw e (earlier_id i (i + 1) qs (omega arith) (omega arith) n),
  ids-Nodup (i + 1) qs (omega arith) n,
)

-- The id of a question that is listed.
pub id_of_listed :
    (i : ℕ) (qs : List EnrichmentQuestion) {q : EnrichmentQuestion}
    → i + length qs ≤ 16
    → Numbered i qs
    → Memᴰ q qs
    → is_enrichment_question_id q.question_id ≡ true
id_of_listed i [] b n m = elim m [ ]
id_of_listed i (p ∷ qs) b (e, n) (Memᴰ.head same) = rw (same, e) (question_id-valid i (omega arith))
id_of_listed i (p ∷ qs) b (e, n) (Memᴰ.tail m) = id_of_listed (i + 1) qs (omega arith) n m
