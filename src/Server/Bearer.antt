-- ===== src/Server/Bearer.antt =====
-- packages/server/src/bearer.ts: the token of an `Authorization` header.
use native.Mathlib.Omega.{arith}
use Prim.Native.String.{◌++◌ as ◌+++◌}
use Prim.Native.Char.{Char}
use text.Mathlib.TextLemmas.{nil-append, cons-append}
use ccctl.Base.{
  ◌+◌, ◌≡◌, ◌≢◌, ◌↔◌, refl, sym, ap, ◌∙◌, inl, inr, String, Bool, true, false, not, ◌&&◌, ◌||◌,
  Option, none, some, ◌==◌, code, str_eq, if◌then◌else◌, Bool-cases, Option-cases, eq_iff,
}
use ccctl.Base.Texts.{trim, within}
use ccctl.Core.Json.{unsome}

-- The text before the first space and the text after it.
unfoldable pub split_space : String → Option (String × String)
split_space String.[] = none
split_space (String.◌∷◌ c s) =
    let rest = split_space s in
    if code c == 32
    then some ("", s)
    else elim rest [ none ↦ none | some (before, after) ↦ some (String.◌∷◌ c before, after) ]

-- `s.toLowerCase() === t` for a `t` of small ASCII letters other than `k`, the only one that another
-- script's letter is lowered to.
unfoldable pub lowers_to : String → String → Bool
lowers_to String.[] String.[] = true
lowers_to String.[] (String.◌∷◌ d t) = false
lowers_to (String.◌∷◌ c s) String.[] = false
lowers_to (String.◌∷◌ c s) (String.◌∷◌ d t) =
    (code c == code d || code c + 32 == code d) && lowers_to s t

unfoldable pub parse_bearer : Option String → Option String
unfolding split_space lowers_to
parse_bearer none = none
parse_bearer (some header) = elim (split_space header) [
  | none ↦ none
  | some (scheme, rest) ↦
      let token = trim rest in
      if not (lowers_to scheme "bearer") || str_eq token "" then none else some token
]

-- The text is cut at a space.
abbrev pub IsCut : String → String → String → Type 0
IsCut h scheme rest = (c : Char) × (code c ≡ 32) × (h ≡ scheme +++ String.◌∷◌ c rest)

split_space-IsCut :
    (h scheme rest : String) → split_space h ≡ some (scheme, rest) → IsCut h scheme rest
unfolding split_space
split_space-IsCut String.[] scheme rest e = cc
split_space-IsCut (String.◌∷◌ c s) scheme rest e = elim (Bool-cases (code c == 32)) [
  | inl k ↦
      let p : (◌≡◌ {A = String × String} ("", s) (scheme, rest)) = unsome (rw k at e) in
      let e0 : "" ≡ scheme = ap (λ (q : String × String). q.0) p in
      let e1 : s ≡ rest = ap (λ (q : String × String). q.1) p in
      (c, ground arith, rw (← e0, ← e1, nil-append) refl)
  | inr k ↦ elim (Option-cases (split_space s)) [
    | inl z ↦ absurd (let no = rw (z, split_space) at (rw k at e) in cc no)
    | inr (p, z) ↦
        let (d, sp, eq) = split_space-IsCut s p.0 p.1 z in
        let q : (◌≡◌ {A = String × String} (String.◌∷◌ c p.0, p.1) (scheme, rest)) =
          unsome (rw z at (rw k at e)) in
        let e0 : String.◌∷◌ c p.0 ≡ scheme = ap (λ (q : String × String). q.0) q in
        let e1 : p.1 ≡ rest = ap (λ (q : String × String). q.1) q in
        (d, sp, rw (← e0, ← e1, cons-append) (ap (λ x. String.◌∷◌ c x) eq))
  ]
]

-- Small letters only.
letters : String → Bool
letters String.[] = true
letters (String.◌∷◌ d t) = within 97 122 (code d) && letters t

split_space-scheme :
    (s t rest : String) (sp : Char)
    → code sp ≡ 32
    → lowers_to s t ≡ true
    → letters t ≡ true
    → split_space (s +++ String.◌∷◌ sp rest) ≡ some (s, rest)
unfolding split_space lowers_to letters
split_space-scheme String.[] String.[] rest sp h e l =
    let k : (code sp == 32) ≡ true = ground arith in rw (nil-append, split_space) (rw k refl)
split_space-scheme String.[] (String.◌∷◌ d t) rest sp h e l = cc
split_space-scheme (String.◌∷◌ c s) String.[] rest sp h e l = cc
split_space-scheme (String.◌∷◌ c s) (String.◌∷◌ d t) rest sp h e l =
    let ih = split_space-scheme s t rest sp h (ground arith) (ground arith) in
    let k : (code c == 32) ≡ false = ground arith in rw (cons-append, split_space) (rw (k, ih) refl)

parse-cut :
    (h scheme rest : String)
    → split_space h ≡ some (scheme, rest)
    → parse_bearer (some h) ≡ (
        if not (lowers_to scheme "bearer") || str_eq (trim rest) "" then none else some (trim rest))
unfolding parse_bearer
parse-cut h scheme rest e = rw (e, parse_bearer) refl

parse-uncut : (h : String) → split_space h ≡ none → parse_bearer (some h) ≡ none
unfolding parse_bearer
parse-uncut h e = rw (e, parse_bearer) refl

token-taken :
    (fits : Bool) (trimmed token : String)
    → ((if not fits || str_eq trimmed "" then none else some trimmed) ≡ some token)
      ↔ ((fits ≡ true) × (trimmed ≡ token) × (token ≢ ""))
token-taken false trimmed token = ((λ e. cc), (λ w. cc w.0))
token-taken true trimmed token = elim (Bool-cases (str_eq trimmed "")) [
  | inl e ↦ rw e ((λ h. cc), (λ w. absurd (w.2 (sym w.1 ∙ (eq_iff trimmed "").0 e))))
  | inr e ↦ rw e (
    (λ h. (refl, unsome h, λ z. ground (arith, (eq_iff trimmed "").1 (unsome h ∙ z)))),
    λ w. ap (λ x. some x) w.1,
  )
]

letters_bearer : letters "bearer" ≡ true
unfolding letters
letters_bearer = refl

-- A header gives a token exactly if it is a scheme that is `bearer` but for case, a space, and a text that
-- is not blank; the token is that text trimmed.
pub parse_bearer_iff :
    (h token : String)
    → (parse_bearer (some h) ≡ some token) ↔ (
        (scheme : String) × (rest : String) × IsCut h scheme rest
        × (lowers_to scheme "bearer" ≡ true)
        × (trim rest ≡ token)
        × (token ≢ ""))
parse_bearer_iff h token = (
  λ e. elim (Option-cases (split_space h)) [
    | inl z ↦ absurd (let no = sym (parse-uncut h z) ∙ e in cc no)
    | inr (p, z) ↦
        let joined : parse_bearer (some h) ≡ _ = parse-cut h p.0 p.1 z in
        let (low, same, filled) =
          (token-taken (lowers_to p.0 "bearer") (trim p.1) token).0 (sym joined ∙ e) in
        (p.0, p.1, split_space-IsCut h p.0 p.1 z, low, same, filled)
  ],
  λ (scheme, rest, (sp, code_sp, eq), low, same, filled).
      let z = split_space-scheme scheme "bearer" rest sp code_sp low letters_bearer in
      parse-cut h scheme rest (rw eq z)
      ∙ (token-taken (lowers_to scheme "bearer") (trim rest) token).1 (low, same, filled),
)
