-- ===== src/Web/Answer/Sent.antt =====
-- The server of packages/server/src/ui-command.ts takes the answers that packages/web-ui/src makes.
use native.Mathlib.Omega.{arith}
use text.Mathlib.TextEquality.{IsScalar-prop}
use ccctl.Base.{
  ℕ, ◌≤◌, ◌≡◌, refl, String, true, not, List, [], ◌∷◌, map, none, some, length, every, leb, All,
  ◌==◌,
}
use ccctl.Base.Dict.{Dict, get}
use ccctl.Base.Members.{All-map, All-listed, All-mem}
use ccctl.Core.Detail.{displayable_detail}
use ccctl.Core.Json.{Json, Fields, str, items, entries, guard-eq-some, unsome, max_safe_integer}
use ccctl.Core.Session.{as_worker_status_sequence}
use ccctl.Core.Enrichment.{
  EnrichmentOption, RequiresActionEnrichment, enrichment_text, is_enrichment_question_id, is_count,
  max_enrichment_questions, max_enrichment_options,
}
use ccctl.Core.Enrichment.Shape.{IsGoodOption, IsGoodQuestion, IsWellFormed}
use ccctl.Core.Enrichment.Ids.{ids-Nodup, id_of_listed}
use ccctl.Core.Answer.{
  accepted, labels, labels_from, selections_from, answer_envelope_from_value,
  validate_answer_against_enrichment,
}
use ccctl.Core.Answer.Accepted.{validate_answer_iff}
use ccctl.Server.Commands.{
  parse_ui_command, label_items, answer_fields, answer_rejection, envelope_of, sequence_of,
}
use ccctl.Server.Worker.{WorkerChannelState}
use ccctl.Web.Answer.{
  answer_from_selections, answer_payload, answer_body, is_selection, answer_command,
}
use ccctl.Web.Answer.Selected.{Good, selections-Good}

abbrev IsRead : String → Type 0
IsRead l = enrichment_text (some (str l)) ≡ some l

IsRead-prop : (l : String) → IsProp (IsRead l)
IsRead-prop l = hlevel IsScalar-prop

good_labels :
    (os : List EnrichmentOption)
    → All IsGoodOption os
    → All IsRead (map (λ (o : EnrichmentOption). o.label) os)
unfolding enrichment_text displayable_detail
good_labels [] h = tt
good_labels (o ∷ os) h = (h.0.label, good_labels os h.1)

-- What the server needs of an answer to read it back.
abbrev IsReadable : String × List String → Type 0
IsReadable a =
    (is_enrichment_question_id a.0 ≡ true)
    × (1 ≤ length a.1)
    × (length a.1 ≤ max_enrichment_options)
    × All IsRead a.1

Good-IsReadable :
    (e : RequiresActionEnrichment) (a : String × List String)
    → IsWellFormed e
    → Good e.questions a
    → IsReadable a
Good-IsReadable e a w (q, m, same, fits, some_labels, few) =
    let good = All-listed IsGoodQuestion e.questions w.questions m in
    (
      rw same at (id_of_listed 0 e.questions (let n = w.few_questions in omega arith) w.numbered m),
      some_labels,
      (let n = good.few_options in omega arith),
      All-map _ _ a.1
          (λ l k. All-mem IsRead (labels q) IsRead-prop (good_labels q.options good.options) k)
          fits.0,
    )

labels-read : (ls : List String) → All IsRead ls → labels_from (items (label_items ls)) ≡ some ls
unfolding labels_from
labels-read [] h = refl
labels-read (l ∷ ls) h = rw (h.0, labels-read ls h.1) refl

length-items : (ls : List String) → length (items (label_items ls)) ≡ length ls
length-items [] = refl
length-items (l ∷ ls) = omega (arith, length-items ls)

counted : (n bound : ℕ) → 1 ≤ n → n ≤ bound → is_count n bound ≡ true
counted n bound h k = ground arith

selections-read :
    (answers : Dict (List String))
    → All IsReadable answers
    → selections_from (entries (answer_fields answers)) ≡ some answers
unfolding selections_from
selections-read [] h = refl
selections-read ((id, ls) ∷ more) ((valid, many, few, read), rest) =
    let n = length-items ls in
    rw
      (
        valid,
        n,
        counted (length ls) max_enrichment_options many few,
        labels-read ls read,
        selections-read more rest,
      )
      refl

length-fields :
    (answers : Dict (List String)) → length (entries (answer_fields answers)) ≡ length answers
length-fields [] = refl
length-fields (a ∷ answers) = omega (arith, length-fields answers)

envelope-read :
    (sequence_num : ℕ) (answers : Dict (List String))
    → All IsReadable answers
    → 1 ≤ length answers
    → length answers ≤ max_enrichment_questions
    → envelope_of (some (answer_payload sequence_num answers)) ≡ some (record { answers = answers })
unfolding answer_envelope_from_value get
envelope-read sequence_num answers h many few =
    rw
      (
        length-fields answers,
        counted (length answers) max_enrichment_questions many few,
        selections-read answers h,
      )
      refl

parsed :
    (sequence_num : ℕ) (answers : Dict (List String))
    → parse_ui_command (answer_body sequence_num answers)
      ≡ some (record { subtype = "answer"; payload = some (answer_payload sequence_num answers) })
unfolding parse_ui_command get
parsed sequence_num answers = refl

sequence-read :
    (n : ℕ) (answers : Dict (List String))
    → n ≤ max_safe_integer
    → sequence_of (some (answer_payload n answers)) ≡ some n
unfolding as_worker_status_sequence get
sequence-read n answers h = ground arith

validated :
    (e : RequiresActionEnrichment) (answers : Dict (List String))
    → IsWellFormed e
    → All (Good e.questions) answers
    → validate_answer_against_enrichment e
        (record { answers = answers })
        (sequence_of (some (answer_payload e.sequence_num answers)))
      ≡ accepted
validated e answers w good =
    (validate_answer_iff e _ _
        (ids-Nodup 0 e.questions (let n = w.few_questions in omega arith) w.numbered)).1
      (
        sequence-read e.sequence_num answers w.sequence,
        All-map _ _ answers (λ a (q, m, same, fits, _, _). (q, ∣ m ∣₁, same, fits)) good,
      )

-- An answer that the client makes of the operator's selections, and of which it makes a command under the number
-- of the outstanding decision, is read by the server as an answer command and is not rejected, while the decision
-- is outstanding. The decision is one that the server has let through, and its questions are those shown.
pub answer_command-accepted :
    (s : WorkerChannelState) (id : String) (e : RequiresActionEnrichment) (selections : Json)
    (answers : Dict (List String)) (body : Json)
    → IsWellFormed e
    → get id s.hub.requires_action_enrichments ≡ some e
    → answer_from_selections e selections ≡ some answers
    → answer_command e.sequence_num answers ≡ some body
    → (payload : Fields) × (parse_ui_command body
        ≡ some (record { subtype = "answer"; payload = some payload }))
      × (answer_rejection s id (some payload) ≡ none)
unfolding answer_command answer_rejection
answer_command-accepted s id e selections answers body w outstanding made sent =
    let (good, many) = selections-Good e selections answers made in
    let (safe, e₁) = guard-eq-some (leb e.sequence_num max_safe_integer) _ sent in
    let (some_answers, e₂) = guard-eq-some (not (length answers == 0)) _ e₁ in
    let (all, e₃) = guard-eq-some (every is_selection answers) _ e₂ in
    let few = w.few_questions in
    let read =
      envelope-read e.sequence_num answers
        (All-map _ _ answers (λ a g. Good-IsReadable e a w g) good) (ground arith) (omega arith) in
    (
      answer_payload e.sequence_num answers,
      rw (← unsome e₃) (parsed e.sequence_num answers),
      rw (read, outstanding, answer_rejection, validated e answers w good) refl,
    )
