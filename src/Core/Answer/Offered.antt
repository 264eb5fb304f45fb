-- ===== src/Core/Answer/Offered.antt =====
-- Every answer that a client is offered can be given (packages/core/src/index.ts).
use native.Mathlib.Omega.{arith}
use mathlib.Core.List.{Memᴰ, Nodup-nil, Nodup-cons, mem-map_of_mem, not-mem-nil}
use ccctl.Base.{◌≡◌, refl, String, [], ◌∷◌, some, inr}
use ccctl.Base.Dict.{get}
use ccctl.Base.Members.{All-listed}
use ccctl.Core.Detail.{displayable_detail}
use ccctl.Core.Json.{Json, str, arr, obj, nil, cons, end, field}
use ccctl.Core.Enrichment.{
  EnrichmentOption, EnrichmentQuestion, RequiresActionEnrichment, enrichment_text,
}
use ccctl.Core.Enrichment.Shape.{IsWellFormed, IsGoodQuestion, IsGoodOption}
use ccctl.Core.Enrichment.Ids.{ids-Nodup, id_of_listed}
use ccctl.Core.Answer.{
  answer_envelope_from_value, selections_from, labels_from, accepted,
  validate_answer_against_enrichment,
}
use ccctl.Core.Answer.Accepted.{validate_answer_iff}

-- The JSON of an answer that chooses one label of one question.
abbrev pub choice : String → String → Json
choice question_id label =
    obj (field "answers" (obj (field question_id (arr (cons (str label) nil)) end)) end)

module _ (e : RequiresActionEnrichment) (q : EnrichmentQuestion) (o : EnrichmentOption) where
  listed_label :
      Memᴰ q e.questions
      → IsWellFormed e
      → Memᴰ o q.options
      → enrichment_text (some (str o.label)) ≡ some o.label
  listed_label m w k =
      let good = All-listed IsGoodQuestion e.questions w.questions m in
      let label = (All-listed IsGoodOption q.options good.options k).label in
      unfold enrichment_text displayable_detail in label

  -- An enrichment that came from a worker's JSON offers nothing that cannot be chosen: for each of its
  -- questions and each label of that question, the JSON of the answer with that one label is read back as
  -- that answer, and the answer is accepted under the enrichment's sequence number.
  pub choice-accepted :
      IsWellFormed e
      → Memᴰ q e.questions
      → Memᴰ o q.options
      → (answer_envelope_from_value (choice q.question_id o.label)
          ≡ some (record { answers = (q.question_id, o.label ∷ []) ∷ [] }))
        × (validate_answer_against_enrichment e
              (record { answers = (q.question_id, o.label ∷ []) ∷ [] })
              (some e.sequence_num)
            ≡ accepted)
  unfolding answer_envelope_from_value selections_from labels_from get
  choice-accepted w m k = (
    rw (id_of_listed 0 e.questions (omega arith) w.numbered m) (rw (listed_label m w k) refl),
    (validate_answer_iff e _ (some e.sequence_num)
          (ids-Nodup 0 e.questions (omega arith) w.numbered)).1
        (
          refl,
          (
            (
              q,
              ∣ m ∣₁,
              refl,
              (
                (mem-map_of_mem (λ (x : EnrichmentOption). x.label) {a = o} ∣ k ∣₁, tt),
                Nodup-cons.1 (not-mem-nil, Nodup-nil),
                inr refl,
              ),
            ),
            tt,
          ),
        ),
  )
