-- ===== src/Core/Frame/Stream.antt =====
-- The decoder of packages/core/src/index.ts does not see where one chunk ends and the next begins.
use Prim.Native.String.{◌++◌ as ◌+++◌}
use native.Mathlib.Omega.{arith}
use native.Mathlib.Nat.{le_refl}
use text.Mathlib.TextLemmas.{nil-append, cons-append, append-nil, append_assoc}
use ccctl.Base.{
  ℕ, zero, suc, ◌+◌, ◌≤◌, ◌<◌, ◌≡◌, refl, sym, ◌∙◌, ap, inl, inr, String, List, [], ◌∷◌, ◌++◌,
  Option, none, some, str_eq, if◌then◌else◌, Option-cases,
}
use ccctl.Base.Texts.{size, trim}
use ccctl.Core.Json.{Json}
use ccctl.Core.Frame.{
  DecodeResult, split_line, drain, push, push_all, Decoder, new_decoder, decode_control_frame,
}

pub size-append : (s t : String) → size (s +++ t) ≡ size s + size t
size-append String.[] t = rw nil-append (omega arith)
size-append (String.◌∷◌ c s) t = rw cons-append (omega (arith, size-append s t))

-- A newline stays the first one when more text follows.
split_line-append :
    (s t : String) (line after : String)
    → split_line s ≡ some (line, after)
    → split_line (s +++ t) ≡ some (line, after +++ t)
unfolding split_line
split_line-append String.[] t line after e = cc
split_line-append (String.◌∷◌ c s) t line after e =
    rw cons-append (elim (Option-cases (split_line s)) [
      | inl z ↦ ground arith
      | inr (p, z) ↦ ground (arith, split_line-append s t p.0 p.1 z)
    ])

split_line-size :
    (s : String) (line after : String) → split_line s ≡ some (line, after) → size after < size s
unfolding split_line
split_line-size String.[] line after e = cc
split_line-size (String.◌∷◌ c s) line after e = elim (Option-cases (split_line s)) [
  | inl z ↦ ground arith
  | inr (p, z) ↦ ground (arith, split_line-size s p.0 p.1 z)
]

-- The text that a list of chunks makes up.
abbrev pub concat : List String → String
concat [] = ""
concat (c ∷ cs) = c +++ concat cs

split_line_empty : (s : String) → size s ≤ 0 → split_line s ≡ none
unfolding split_line
split_line_empty String.[] h = refl
split_line_empty (String.◌∷◌ c s) h = absurd (omega arith)

module _ (parse : String → Option Json) where
  -- A blank line gives no result.
  abbrev pub of_line : String → List DecodeResult → List DecodeResult
  of_line line results =
      if str_eq (trim line) "" then results else decode_control_frame parse line ∷ results

  pub drain_last : (f : ℕ) (s : String) → split_line s ≡ none → drain parse f s ≡ ([], s)
  unfolding drain
  drain_last zero s e = refl
  drain_last (suc f) s e = rw (e, drain) refl

  pub drain_next :
      (f : ℕ) (s line after : String)
      → split_line s ≡ some (line, after)
      → drain parse (suc f) s ≡ (of_line line (drain parse f after).0, (drain parse f after).1)
  unfolding drain
  drain_next f s line after e = rw (e, drain) refl

  -- The fuel of the buffer's length is enough: more gives the same.
  pub drain_fuel :
      (f g : ℕ) (s : String) → size s ≤ f → size s ≤ g → drain parse f s ≡ drain parse g s
  drain_fuel zero g s hf hg =
      let e = split_line_empty s hf in drain_last zero s e ∙ sym (drain_last g s e)
  drain_fuel (suc f) zero s hf hg =
      let e = split_line_empty s hg in drain_last (suc f) s e ∙ sym (drain_last zero s e)
  drain_fuel (suc f) (suc g) s hf hg = elim (Option-cases (split_line s)) [
    | inl e ↦ drain_last (suc f) s e ∙ sym (drain_last (suc g) s e)
    | inr (p, e) ↦
        let less = split_line-size s p.0 p.1 e in
        let same = drain_fuel f g p.1 (omega arith) (omega arith) in
        drain_next f s p.0 p.1 e
        ∙ ap {B = List DecodeResult × String} (λ r. (of_line p.0 r.0, r.1)) same
        ∙ sym (drain_next g s p.0 p.1 e)
  ]

  drain_rest : (f : ℕ) (s : String) → size s ≤ f → split_line (drain parse f s).1 ≡ none
  drain_rest zero s h = let e = split_line_empty s h in rw (drain_last zero s e) e
  drain_rest (suc f) s h = elim (Option-cases (split_line s)) [
    | inl e ↦ rw (drain_last (suc f) s e) e
    | inr (p, e) ↦
        let less = split_line-size s p.0 p.1 e in
        rw (drain_next f s p.0 p.1 e) (drain_rest f p.1 (omega arith))
  ]

  -- The loop of `push` ends with no complete line left in the buffer, within as many rounds as the text has
  -- characters: with any more rounds it gives the same results and the same buffer.
  pub push-drain :
      (d : Decoder) (chunk : String) (rounds : ℕ)
      → size (d.buffer +++ chunk) ≤ rounds
      → let (results, after) = push parse d chunk in
        (split_line after.buffer ≡ none)
        × (◌≡◌ {A = List DecodeResult × String}
            (drain parse rounds (d.buffer +++ chunk))
            (results, after.buffer))
  unfolding push
  push-drain d chunk rounds h =
      let whole = d.buffer +++ chunk in
      (
        drain_rest (size whole) whole (omega arith),
        drain_fuel rounds (size whole) whole h (omega arith),
      )

  of_line-append :
      (line : String) (xs ys : List DecodeResult) → of_line line xs ++ ys ≡ of_line line (xs ++ ys)
  of_line-append line xs ys = ground arith

  abbrev Appends : ℕ → ℕ → ℕ → String → String → Type 0
  Appends f g h s t = drain parse g (s +++ t) ≡ (
    (drain parse f s).0 ++ (drain parse h ((drain parse f s).1 +++ t)).0,
    (drain parse h ((drain parse f s).1 +++ t)).1,
  )

  drain-append_next :
      (f g h : ℕ) (s t line after : String)
      → split_line s ≡ some (line, after)
      → size s ≤ suc f
      → size (s +++ t) ≤ g
      → size ((drain parse (suc f) s).1 +++ t) ≤ h
      → ((k : ℕ)
          → size (after +++ t) ≤ k
          → size ((drain parse f after).1 +++ t) ≤ h
          → Appends f k h after t)
      → Appends (suc f) g h s t
  drain-append_next f zero h s t line after e hf hg hh ih =
      absurd (omega (arith, split_line-size s line after e, size-append s t))
  drain-append_next f (suc g) h s t line after e hf hg hh ih =
      let next = drain_next f s line after e in
      let later = split_line-append s t line after e in
      let less = split_line-size (s +++ t) line (after +++ t) later in
      rw next (
        drain_next g (s +++ t) line (after +++ t) later
        ∙ ap {B = List DecodeResult × String} (λ r. (of_line line r.0, r.1))
            (ih g (omega arith) (rw next at hh))
        ∙ ap {B = List DecodeResult × String}
            (λ x. (x, (drain parse h ((drain parse f after).1 +++ t)).1))
            (sym (of_line-append line _ _)))

  -- Text that arrives later is decoded from where the earlier text left the buffer.
  drain-append :
      (f g h : ℕ) (s t : String)
      → size s ≤ f
      → size (s +++ t) ≤ g
      → size ((drain parse f s).1 +++ t) ≤ h
      → Appends f g h s t
  drain-append zero g h s t hf hg hh =
      let last = drain_last zero s (split_line_empty s hf) in
      rw last (drain_fuel g h (s +++ t) hg (rw last at hh))
  drain-append (suc f) g h s t hf hg hh = elim (Option-cases (split_line s)) [
    | inl e ↦
        let last = drain_last (suc f) s e in rw last (drain_fuel g h (s +++ t) hg (rw last at hh))
    | inr (p, e) ↦
        drain-append_next f g h s t p.0 p.1 e hf hg hh
          (λ (k : ℕ) (a : size (p.1 +++ t) ≤ k) (b : size ((drain parse f p.1).1 +++ t) ≤ h).
            drain-append f k h p.1 t ((let less = split_line-size s p.0 p.1 e in omega arith)) a b)
  ]

  -- The buffer that `push` leaves, and the results of the chunk.
  push_lem :
      (b c : String)
      → push parse (record { buffer = b }) c ≡ (
        (drain parse (size (b +++ c)) (b +++ c)).0,
        record { buffer = (drain parse (size (b +++ c)) (b +++ c)).1 },
      )
  unfolding push
  push_lem b c = refl

  -- The decoder is fed the whole text at once.
  abbrev pub feed : String → List DecodeResult × Decoder
  feed s = ((drain parse (size s) s).0, record { buffer = (drain parse (size s) s).1 })

  drain_settled : (f : ℕ) (s : String) → size s ≤ f → split_line (drain parse f s).1 ≡ none
  drain_settled zero s h = let e = split_line_empty s h in rw (drain_last zero s e) e
  drain_settled (suc f) s h = elim (Option-cases (split_line s)) [
    | inl e ↦ rw (drain_last (suc f) s e) e
    | inr (p, e) ↦
        let less = split_line-size s p.0 p.1 e in
        rw (drain_next f s p.0 p.1 e) (drain_settled f p.1 (omega arith))
  ]

  pub push_all-feed :
      (b : String) (cs : List String)
      → split_line b ≡ none
      → push_all parse (record { buffer = b }) cs ≡ feed (b +++ concat cs)
  unfolding push_all
  push_all-feed b [] e = rw (append-nil, drain_last _ b e)
  push_all-feed b (c ∷ cs) e =
      let s = b +++ c in
      let t = concat cs in
      let r = drain parse (size s) s in
      ap {B = List DecodeResult × Decoder} (λ m. (r.0 ++ m.0, m.1))
        (push_all-feed r.1 cs (drain_settled (size s) s (le_refl (size s))))
      ∙ ap {B = List DecodeResult × Decoder} (λ m. (m.0, record { buffer = m.1 }))
          (sym (
            drain-append (size s) (size (s +++ t)) (size (r.1 +++ t)) s t (le_refl (size s))
              (le_refl (size (s +++ t))) (le_refl (size (r.1 +++ t)))))
      ∙ ap feed (append_assoc b c t)

  -- How a stream is cut into chunks changes neither what is decoded nor what is left in the buffer.
  pub push_all-concat :
      (cs ds : List String)
      → concat cs ≡ concat ds
      → push_all parse new_decoder cs ≡ push_all parse new_decoder ds
  push_all-concat cs ds e =
      push_all-feed "" cs (split_line_empty "" (omega arith))
      ∙ ap (λ s. feed ("" +++ s)) e
      ∙ sym (push_all-feed "" ds (split_line_empty "" (omega arith)))
