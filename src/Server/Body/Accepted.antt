-- ===== src/Server/Body/Accepted.antt =====
-- Which bodies packages/server/src/http-response.ts reads.
use native.Mathlib.Omega.{arith}
use mathlib.Core.List.{append-nil, append_assoc}
use ccctl.Base.{
  ℕ, ◌≤◌, ◌≡◌, ◌↔◌, refl, ap, ◌∙◌, false, List, [], ◌∷◌, ◌++◌, map, Option, some, length,
  length-append, ltb, Bool-cases, Option-cases, inl, inr,
}
use ccctl.Core.Json.{Json, unsome}
use ccctl.Server.Body.{Incoming, chunk, finish, fault, ok, parsed_body, read_from, read_json_body}

abbrev pub joined : List (List ℕ) → List ℕ
joined [] = []
joined (bytes ∷ more) = bytes ++ joined more

module _ (parse : List ℕ → Option Json) (max_bytes : ℕ) where
  -- The events start with these chunks and the end of the body, and what was read before them and they
  -- together are within the limit and a JSON value.
  abbrev Reads : List ℕ → List Incoming → Json → Type 0
  Reads read events v =
      (chunks : List (List ℕ)) × (rest : List Incoming) × (events
        ≡ map chunk chunks ++ finish ∷ rest)
      × (length (read ++ joined chunks) ≤ max_bytes)
      × (parse (read ++ joined chunks) ≡ some v)

  parsed-ok : (bytes : List ℕ) (v : Json) → parsed_body parse bytes ≡ ok v → parse bytes ≡ some v
  parsed-ok bytes v e = elim (Option-cases (parse bytes)) [
    | inl p ↦ absurd (let no = rw (p, parsed_body) at e in cc no)
    | inr (w, p) ↦
        let same = rw (p, parsed_body) at e in let q : w ≡ v = cc in p ∙ ap (λ x. some x) q
  ]

  read_from-Reads :
      (read : List ℕ) (events : List Incoming) (v : Json)
      → length read ≤ max_bytes
      → read_from parse max_bytes read events ≡ some (ok v)
      → Reads read events v
  unfolding read_from
  read_from-Reads read [] v fits e = absurd (cc e)
  read_from-Reads read (finish ∷ rest) v fits e = (
    [],
    rest,
    refl,
    rw (append-nil read) fits,
    rw (append-nil read) (parsed-ok read v (unsome e)),
  )
  read_from-Reads read (fault ∷ rest) v fits e = absurd (cc e)
  read_from-Reads read (chunk bytes ∷ more) v fits e =
      elim (Bool-cases (ltb max_bytes (length (read ++ bytes)))) [
        | inl over ↦ absurd (let no = rw (over, read_from) at e in cc no)
        | inr within ↦
            let (chunks, rest, split, small, p) =
              read_from-Reads (read ++ bytes) more v (ground arith) (rw (within, read_from) at e) in
            (
              bytes ∷ chunks,
              rest,
              ap (λ es. chunk bytes ∷ es) split,
              rw (append_assoc read bytes (joined chunks)) at small,
              rw (append_assoc read bytes (joined chunks)) at p,
            )
      ]

  Reads-read_from :
      (read : List ℕ) (chunks : List (List ℕ)) (rest : List Incoming) (v : Json)
      → length (read ++ joined chunks) ≤ max_bytes
      → parse (read ++ joined chunks) ≡ some v
      → read_from parse max_bytes read (map chunk chunks ++ finish ∷ rest) ≡ some (ok v)
  unfolding read_from
  Reads-read_from read [] rest v small p = rw ((rw (append-nil read) at p), parsed_body) refl
  Reads-read_from read (bytes ∷ chunks) rest v small p =
      let small' = rw (← append_assoc read bytes (joined chunks)) at small in
      let p' = rw (← append_assoc read bytes (joined chunks)) at p in
      let ih = Reads-read_from (read ++ bytes) chunks rest v small' p' in
      let sum = length-append (read ++ bytes) (joined chunks) in
      let within : ltb max_bytes (length (read ++ bytes)) ≡ false = ground arith in
      rw (within, read_from) ih

  -- A body is read exactly if its stream ends without an error, after chunks that are together within the limit,
  -- the limit itself included, and a JSON value; what the stream says after its end is of no matter.
  pub read_json_body_iff :
      (events : List Incoming) (v : Json)
      → (read_json_body parse max_bytes events ≡ some (ok v)) ↔ (
          (chunks : List (List ℕ)) × (rest : List Incoming) × (events
            ≡ map chunk chunks ++ finish ∷ rest)
          × (length (joined chunks) ≤ max_bytes)
          × (parse (joined chunks) ≡ some v))
  unfolding read_json_body
  read_json_body_iff events v = (
    λ e. read_from-Reads [] events v (omega arith) e,
    λ h. rw h.2 (Reads-read_from [] h.0 h.1 v h.3 h.4),
  )
