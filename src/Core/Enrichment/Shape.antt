-- ===== src/Core/Enrichment/Shape.antt =====
-- What `requiresActionEnrichmentFromValue` of packages/core/src/index.ts lets through.
use native.Mathlib.Omega.{arith}
use mathlib.Core.List.{Mem, Nodup, Nodup-nil, Nodup-cons, mem-cons_self, mem-cons_of_mem}
use mathlib.Core.HLevel.{¬_prop}
use ccctl.Base.{
  ℕ, suc, ◌+◌, ◌≤◌, ◌≡◌, refl, ap, subst, String, true, false, List, [], ◌∷◌, map, Option, none,
  some, str_eq, if◌then◌else◌, length, any, All,
}
use ccctl.Base.Dict.{get}
use ccctl.Base.Members.{not-any-mem, All-mem, All-of_mem}
use ccctl.Core.Json.{
  Json, str, null, obj, num, bool, arr, nonneg, negative, other, as_object, as_array, bind-eq-some,
  guard-eq-some, unsome, max_safe_integer,
}
use ccctl.Core.Detail.{displayable_text, displayable_detail}
use ccctl.Core.Detail.Stable.{displayable_text-Tidy}
use ccctl.Core.Session.{as_worker_status_sequence}
use ccctl.Core.Enrichment.{
  EnrichmentOption, EnrichmentQuestion, RequiresActionEnrichment, enrichment_text,
  enrichment_option_from_value, options_from, enrichment_question_from_value, questions_from,
  requires_action_enrichment_from_value, enrichment_question_id, max_enrichment_questions,
  max_enrichment_options, max_enrichment_text_length, is_count, select_mode,
}

-- Text that is shown as it is.
abbrev pub IsSettled : String → Type 0
IsSettled t = displayable_text t max_enrichment_text_length ≡ some t

abbrev pub IsSettledOption : Option String → Type 0
IsSettledOption none = Unit {0}
IsSettledOption (some t) = IsSettled t

pub record IsGoodOption (o : EnrichmentOption) : Type 0 where
  pub label : IsSettled o.label
  pub description : IsSettledOption o.description

pub record IsGoodQuestion (q : EnrichmentQuestion) : Type 0 where
  pub prompt : IsSettled q.prompt
  pub header : IsSettledOption q.header
  pub some_options : 1 ≤ length q.options
  pub few_options : length q.options ≤ max_enrichment_options
  pub options : All IsGoodOption q.options
  pub distinct : Nodup (map (λ o. o.label) q.options)

-- The ids are those of the positions, from `index` on.
abbrev pub Numbered : ℕ → List EnrichmentQuestion → Type 0
Numbered index [] = Unit
Numbered index (q ∷ qs) = (q.question_id ≡ enrichment_question_id index) × Numbered (index + 1) qs

pub record IsWellFormed (e : RequiresActionEnrichment) : Type 0 where
  pub sequence : e.sequence_num ≤ max_safe_integer
  pub some_questions : 1 ≤ length e.questions
  pub few_questions : length e.questions ≤ max_enrichment_questions
  pub questions : All IsGoodQuestion e.questions
  pub numbered : Numbered 0 e.questions

enrichment_text-IsSettled :
    (v : Option Json) (t : String) → enrichment_text v ≡ some t → IsSettled t
unfolding enrichment_text displayable_detail
enrichment_text-IsSettled (some (str s)) t e = (displayable_text-Tidy s _ t (omega arith) e).2
enrichment_text-IsSettled (some null) t e = cc
enrichment_text-IsSettled (some _) t e = cc
enrichment_text-IsSettled none t e = cc

optional-IsSettled :
    (v : Option Json) (o : Option String) → enrichment_text v ≡ o → IsSettledOption o
optional-IsSettled v none e = tt
optional-IsSettled v (some t) e = enrichment_text-IsSettled v t e

option-IsGood :
    (v : Json) (o : EnrichmentOption) → enrichment_option_from_value v ≡ some o → IsGoodOption o
unfolding enrichment_option_from_value
option-IsGood v o e =
    let (fields, _, e₁) = bind-eq-some (as_object v) _ e in
    let (label, shown, e₂) = bind-eq-some (enrichment_text (get "label" fields)) _ e₁ in
    subst IsGoodOption (unsome e₂) (record {
      label = enrichment_text-IsSettled _ label shown;
      description = optional-IsSettled (get "description" fields) _ refl;
    })

abbrev OptionsGood : List String → List Json → List EnrichmentOption → Type 0
OptionsGood seen vs os =
    (length os ≡ length vs)
    × All IsGoodOption os
    × Nodup (map (λ o. o.label) os)
    × All (λ l. ¬ Mem l seen) (map (λ o. o.label) os)

-- The options of a list of values: as many, each good, with labels that differ and were not seen.
options-IsGood :
    (seen : List String) (vs : List Json) (os : List EnrichmentOption)
    → options_from seen vs ≡ some os
    → OptionsGood seen vs os
unfolding options_from
options-IsGood seen [] os e = subst (OptionsGood seen []) (unsome e) (refl, tt, Nodup-nil, tt)
options-IsGood seen (v ∷ vs) os e =
    let (next, parsed, e₁) = bind-eq-some (enrichment_option_from_value v) _ e in
    let (fresh, e₂) = guard-eq-some (if any (str_eq next.label) seen then false else true) _ e₁ in
    let (rest, later, e₃) = bind-eq-some (options_from (next.label ∷ seen) vs) _ e₂ in
    let (n, good, distinct, unseen) = options-IsGood (next.label ∷ seen) vs rest later in
    subst (OptionsGood seen (v ∷ vs)) {x = next ∷ rest} (unsome e₃) (
      ap suc n,
      (option-IsGood v next parsed, good),
      Nodup-cons.1 (λ m. All-mem _ _ (λ _. ¬_prop) unseen m mem-cons_self, distinct),
      (
        (not-any-mem next.label seen).0 (ground arith),
        All-of_mem _ _ (λ a m k. All-mem _ _ (λ _. ¬_prop) unseen m (mem-cons_of_mem next.label k)),
      ),
    )

question-IsGood :
    (v : Json) (index : ℕ) (q : EnrichmentQuestion)
    → enrichment_question_from_value v index ≡ some q
    → IsGoodQuestion q × (q.question_id ≡ enrichment_question_id index)
unfolding enrichment_question_from_value
question-IsGood v index q e =
    let (o, _, e₁) = bind-eq-some (as_object v) _ e in
    let (prompt, shown, e₂) = bind-eq-some (enrichment_text (get "question" o)) _ e₁ in
    let (multi, _, e₃) = bind-eq-some (select_mode (get "multiSelect" o)) _ e₂ in
    let (offered, _, e₄) = bind-eq-some (as_array (get "options" o)) _ e₃ in
    let (counted, e₅) = guard-eq-some (is_count (length offered) max_enrichment_options) _ e₄ in
    let (parsed, made, e₆) = bind-eq-some (options_from [] offered) _ e₅ in
    let (n, good, distinct, _) = options-IsGood [] offered parsed made in
    subst (λ q. IsGoodQuestion q × (q.question_id ≡ enrichment_question_id index)) (unsome e₆)
      (
        record {
          prompt = enrichment_text-IsSettled _ prompt shown;
          header = optional-IsSettled (get "header" o) _ refl;
          some_options = rw n (ground arith);
          few_options = rw n (ground arith);
          options = good;
          distinct = distinct;
        },
        refl,
      )

abbrev QuestionsGood : ℕ → List Json → List EnrichmentQuestion → Type 0
QuestionsGood index vs qs = (length qs ≡ length vs) × All IsGoodQuestion qs × Numbered index qs

questions-IsGood :
    (index : ℕ) (vs : List Json) (qs : List EnrichmentQuestion)
    → questions_from index vs ≡ some qs
    → QuestionsGood index vs qs
unfolding questions_from
questions-IsGood index [] qs e = subst (QuestionsGood index []) (unsome e) (refl, tt, tt)
questions-IsGood index (v ∷ vs) qs e =
    let (next, parsed, e₁) = bind-eq-some (enrichment_question_from_value v index) _ e in
    let (rest, later, e₂) = bind-eq-some (questions_from (index + 1) vs) _ e₁ in
    let (n, good, numbered) = questions-IsGood (index + 1) vs rest later in
    let (here, id) = question-IsGood v index next parsed in
    subst (QuestionsGood index (v ∷ vs)) {x = next ∷ rest} (unsome e₂)
      (ap suc n, (here, good), (id, numbered))

sequence-safe :
    (v : Option Json) (n : ℕ) → as_worker_status_sequence v ≡ some n → n ≤ max_safe_integer
unfolding as_worker_status_sequence
sequence-safe (some (num (nonneg k))) n e = ground arith
sequence-safe (some (num (negative k))) n e = cc
sequence-safe (some (num (other k))) n e = cc
sequence-safe (some null) n e = cc
sequence-safe (some (bool b)) n e = cc
sequence-safe (some (str s)) n e = cc
sequence-safe (some (arr vs)) n e = cc
sequence-safe (some (obj fs)) n e = cc
sequence-safe none n e = cc

-- Whatever JSON a worker sends: an enrichment that is read from it has a safe sequence number, 1 to 16
-- questions with the ids `q0`, `q1`, … in order, each with 1 to 32 options whose labels differ, and all
-- its texts would be displayed unchanged.
pub enrichment_from_value-IsWellFormed :
    (v : Json) (e : RequiresActionEnrichment)
    → requires_action_enrichment_from_value v ≡ some e
    → IsWellFormed e
unfolding requires_action_enrichment_from_value
enrichment_from_value-IsWellFormed v e h =
    let (o, _, e₁) = bind-eq-some (as_object v) _ h in
    let (n, safe, e₂) = bind-eq-some (as_worker_status_sequence (get "sequence_num" o)) _ e₁ in
    let (asked, _, e₃) = bind-eq-some (as_array (get "questions" o)) _ e₂ in
    let (counted, e₄) = guard-eq-some (is_count (length asked) max_enrichment_questions) _ e₃ in
    let (parsed, made, e₅) = bind-eq-some (questions_from 0 asked) _ e₄ in
    let (many, good, numbered) = questions-IsGood 0 asked parsed made in
    subst IsWellFormed (unsome e₅) (record {
      sequence = sequence-safe _ n safe;
      some_questions = rw many (ground arith);
      few_questions = rw many (ground arith);
      questions = good;
      numbered = numbered;
    })
