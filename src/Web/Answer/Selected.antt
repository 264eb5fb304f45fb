-- ===== src/Web/Answer/Selected.antt =====
-- An answer that packages/web-ui/src/enrichment.js makes of the operator's selections fits the questions.
use native.Mathlib.Omega.{arith}
use mathlib.Core.List.{Memᴰ}
use ccctl.Base.{
  ◌+◌, ◌≤◌, ◌≡◌, refl, sym, String, true, false, not, ◌||◌, ◌&&◌, List, [], ◌∷◌, some, keep,
  length-keep-le, map, str_eq-cases, length, any, All, str_eq, eq_iff, ◌==◌, Bool-cases, inl, inr,
}
use ccctl.Base.Dict.{Dict, get, set}
use ccctl.Core.Json.{Json, as_string, as_array, as_object, bind-eq-some, guard-eq-some, unsome}
use ccctl.Core.Enrichment.{EnrichmentOption, EnrichmentQuestion, RequiresActionEnrichment}
use ccctl.Core.Answer.{accepted, check_labels, check_question, labels}
use ccctl.Core.Answer.Accepted.{Fits, check_question_iff}
use ccctl.Web.Answer.{pick, select_question, select_all, answer_from_selections}

-- What is picked passes the server's check, and is as many as were given.
pick-accepted :
    (offered seen : List String) (vs : List Json) (ls : List String)
    → pick offered seen vs ≡ some ls
    → (check_labels offered seen ls ≡ accepted) × (length ls ≡ length vs)
unfolding pick check_labels
pick-accepted offered seen [] ls e = rw (← unsome e) (refl, refl)
pick-accepted offered seen (v ∷ vs) ls e =
    let (label, _, e₁) = bind-eq-some (as_string (some v)) _ e in
    let (known, e₂) = guard-eq-some (any (str_eq label) offered) _ e₁ in
    let (new, e₃) = guard-eq-some (not (any (str_eq label) seen)) _ e₂ in
    let (rest, picked, e₄) = bind-eq-some (pick offered (label ∷ seen) vs) _ e₃ in
    let (ok, many) = pick-accepted offered (label ∷ seen) vs rest picked in
    let fresh : any (str_eq label) seen ≡ false = ground arith in
    rw (← unsome e₄) (rw (known, fresh, check_labels) ok, omega arith)

-- The offered labels that are not chosen yet.
abbrev left : List String → List String → List String
left offered chosen = keep (λ o. not (any (str_eq o) chosen)) offered

left-le :
    (l : String) (offered chosen : List String)
    → length (left offered (l ∷ chosen)) ≤ length (left offered chosen)
left-le l [] chosen = omega arith
left-le l (o ∷ offered) chosen = ground (arith, left-le l offered chosen)

left-lt :
    (l : String) (offered chosen : List String)
    → any (str_eq l) offered ≡ true
    → any (str_eq l) chosen ≡ false
    → length (left offered (l ∷ chosen)) + 1 ≤ length (left offered chosen)
left-lt l [] chosen known fresh = cc
left-lt l (o ∷ offered) chosen known fresh = elim (Bool-cases (str_eq l o)) [
  | inl e ↦
      let same = (eq_iff l o).0 e in
      let fresh' : any (str_eq o) chosen ≡ false = rw same at fresh in
      let self : str_eq o l ≡ true = (eq_iff o l).1 (sym same) in
      rw (fresh', self) (omega (arith, left-le l offered chosen))
  | inr e ↦
      let rest = left-lt l offered chosen (ground arith) fresh in
      let other : str_eq o l ≡ false = ground (arith, eq_iff l o, eq_iff o l) in
      elim (Bool-cases (any (str_eq o) chosen)) [
        | inl c ↦ rw (other, c) rest
        | inr c ↦ rw (other, c) (omega (arith, rest))
      ]
]

check_labels-length :
    (offered chosen ls : List String)
    → check_labels offered chosen ls ≡ accepted
    → length ls ≤ length (left offered chosen)
unfolding check_labels
check_labels-length offered chosen [] e = omega arith
check_labels-length offered chosen (l ∷ ls) e = elim (Bool-cases (any (str_eq l) offered)) [
  | inr k ↦ absurd (let no = rw (k, check_labels) at e in cc no)
  | inl k ↦ elim (Bool-cases (any (str_eq l) chosen)) [
    | inl c ↦ absurd (let no = rw (k, c, check_labels) at e in cc no)
    | inr c ↦
        let rest = check_labels-length offered (l ∷ chosen) ls (rw (k, c, check_labels) at e) in
        omega (arith, rest, left-lt l offered chosen k c)
  ]
]

length-map_label :
    (os : List EnrichmentOption) → length (map (λ (o : EnrichmentOption). o.label) os) ≡ length os
length-map_label [] = refl
length-map_label (o ∷ os) = omega (arith, length-map_label os)

-- A selection that fits one of the questions, of a size that the server reads.
abbrev pub Good : List EnrichmentQuestion → String × List String → Type 0
Good asked a =
    (q : EnrichmentQuestion) × Memᴰ q asked
    × (q.question_id ≡ a.0)
    × Fits q a.1
    × (1 ≤ length a.1)
    × (length a.1 ≤ length q.options)

question-accepted :
    (q : EnrichmentQuestion) (ls : List String)
    → (q.multi_select || length ls == 1) ≡ true
    → check_labels (labels q) [] ls ≡ accepted
    → check_question q ls ≡ accepted
unfolding check_question
question-accepted q ls fits ok =
    let pass : (not q.multi_select && not (length ls == 1)) ≡ false = ground arith in rw pass ok

select_question-Good :
    (q : EnrichmentQuestion) (selections : Dict Json) (ls : List String)
    → select_question q selections ≡ some ls
    → Fits q ls × (1 ≤ length ls) × (length ls ≤ length q.options)
unfolding select_question
select_question-Good q selections ls e =
    let (chosen, _, e₁) = bind-eq-some (as_array (get q.question_id selections)) _ e in
    let (filled, e₂) = guard-eq-some (not (length chosen == 0)) _ e₁ in
    let (fits, picked) = guard-eq-some (q.multi_select || length chosen == 1) _ e₂ in
    let (ok, many) = pick-accepted (labels q) [] chosen ls picked in
    let few = check_labels-length (labels q) [] ls ok in
    (
      (check_question_iff q ls).0 (question-accepted q ls (rw many fits) ok),
      ground arith,
      omega (
        arith,
        length-keep-le (λ o. not (any (str_eq o) [])) (labels q),
        length-map_label q.options,
      ),
    )

All-set :
    (asked : List EnrichmentQuestion) (k : String) (ls : List String) (answers : Dict (List String))
    → All (Good asked) answers
    → Good asked (k, ls)
    → All (Good asked) (set k ls answers)
unfolding set
All-set asked k ls [] all good = (good, tt)
All-set asked k ls ((j, old) ∷ more) all good = elim (str_eq-cases j k) [
  | inl (same, e) ↦ rw (e, same) (good, all.1)
  | inr (_, e) ↦ rw e (all.0, All-set asked k ls more all.1 good)
]

length-set :
    (k : String) (ls : List String) (m : Dict (List String)) → length (set k ls m) ≤ length m + 1
unfolding set
length-set k ls [] = omega arith
length-set k ls (e ∷ m) = ground (arith, length-set k ls m)

select_all-Good :
    (asked qs : List EnrichmentQuestion) (selections : Dict Json)
    (answers done : Dict (List String))
    → ((q : EnrichmentQuestion) → Memᴰ q qs → Memᴰ q asked)
    → All (Good asked) answers
    → select_all qs selections answers ≡ some done
    → All (Good asked) done × (length done ≤ length answers + length qs)
unfolding select_all
select_all-Good asked [] selections answers done sub all e = rw (← unsome e) (all, omega arith)
select_all-Good asked (q ∷ qs) selections answers done sub all e =
    let (ls, picked, rest) = bind-eq-some (select_question q selections) _ e in
    let (fits, some_labels, few) = select_question-Good q selections ls picked in
    let (good, many) =
      select_all-Good asked qs selections (set q.question_id ls answers) done
        (λ r m. sub r (Memᴰ.tail m))
        (All-set asked q.question_id ls answers all
          (q, sub q (Memᴰ.head refl), refl, fits, some_labels, few))
        rest in
    (good, omega (arith, many, length-set q.question_id ls answers))

-- Each answer that is made of selections is one question's, with labels that it offers, each once, and one only
-- unless the question allows several; there are no more answers than questions.
pub selections-Good :
    (enrichment : RequiresActionEnrichment) (selections : Json) (answers : Dict (List String))
    → answer_from_selections enrichment selections ≡ some answers
    → All (Good enrichment.questions) answers × (length answers ≤ length enrichment.questions)
unfolding answer_from_selections
selections-Good enrichment selections answers e =
    let (o, _, made) = bind-eq-some (as_object selections) _ e in
    let (good, many) =
      select_all-Good enrichment.questions enrichment.questions o [] answers (λ q m. m) tt made in
    (good, omega (arith, many))
