-- ===== src/Core/Frame/RoundTrip.antt =====
-- `encodeControlFrame` against the decoder of packages/core/src/index.ts.
use Prim.Native.String.{◌++◌ as ◌+++◌}
use native.Mathlib.Omega.{arith}
use native.Mathlib.Nat.{le_refl}
use text.Mathlib.TextLemmas.{nil-append, cons-append, append_assoc}
use ccctl.Base.{
  ℕ, zero, suc, ◌≤◌, ◌≡◌, ◌≢◌, ◌↔◌, refl, ◌∙◌, ap, inl, inr, String, true, List, [], ◌∷◌, map,
  Option, none, some, str_eq_ne, Bool-cases, Option-cases, All,
}
use ccctl.Base.Dict.{get}
use ccctl.Base.Texts.{size, trim}
use ccctl.Core.Json.{Json, as_object}
use ccctl.Core.Frame.{
  ControlFrame, DecodeResult, ok, split_line, drain, push_all, new_decoder, Decoder,
  decode_control_frame, is_control_frame_type, encode_control_frame, decode_value,
}
use ccctl.Core.Frame.Stream.{
  drain_next, drain_last, size-append, feed, concat, push_all-feed, of_line,
}

nothing : split_line "" ≡ none
unfolding split_line
nothing = refl

newline_append : (rest : String) → "\n" +++ rest ≡ String.◌∷◌ "\n" rest
newline_append rest = cons-append "\n" "" rest ∙ ap (String.◌∷◌ "\n") (nil-append rest)

split_line_at :
    (s rest : String) → split_line s ≡ none → split_line (s +++ ("\n" +++ rest)) ≡ some (s, rest)
unfolding split_line
split_line_at String.[] rest e = rw (nil-append ("\n" +++ rest)) (rw (newline_append rest) refl)
split_line_at (String.◌∷◌ c s) rest e =
    rw (cons-append c s ("\n" +++ rest)) (ground (arith, split_line_at s rest))

-- What a value that decodes to a frame is.
decode_value_ok :
    (line : String) (v : Json) (o : ControlFrame)
    → decode_value line v ≡ ok o
    → (t : Json) × (as_object v ≡ some o)
      × (get "type" o ≡ some t)
      × (is_control_frame_type t ≡ true)
unfolding decode_value
decode_value_ok line v o e = elim (Option-cases (as_object v)) [
  | inl y ↦ absurd (cc (rw (y, decode_value) at e))
  | inr (u, y) ↦ elim (Option-cases (get "type" u)) [
    | inl w ↦ absurd (cc (rw w at (rw (y, decode_value) at e)))
    | inr (t, w) ↦ elim (Bool-cases (is_control_frame_type t)) [
      | inl k ↦
          let same : u ≡ o = cc (rw k at (rw w at (rw (y, decode_value) at e))) in
          (t, rw (← same) y, rw (← same) w, k)
      | inr k ↦ absurd (cc (rw k at (rw w at (rw (y, decode_value) at e))))
    ]
  ]
]

module _ (parse : String → Option Json) where
  -- A line decodes to a frame exactly if it is the JSON text of an object whose `type` is one of the
  -- three that are known, and the frame is that object.
  pub decode_control_frame_iff :
      (line : String) (o : ControlFrame)
      → (decode_control_frame parse line ≡ ok o) ↔ (
          (v : Json) × (t : Json) × (parse line ≡ some v)
          × (as_object v ≡ some o)
          × (get "type" o ≡ some t)
          × (is_control_frame_type t ≡ true))
  unfolding decode_control_frame
  decode_control_frame_iff line o = (
    λ e. elim (Option-cases (parse line)) [
      | inl z ↦ absurd (cc (rw (z, decode_control_frame) at e))
      | inr (v, z) ↦
          let (t, object, has, known) =
            decode_value_ok line v o (rw (z, decode_control_frame) at e) in
          (v, t, z, object, has, known)
    ],
    λ h. rw (h.2, decode_control_frame) (rw (h.3, decode_value) (rw (h.4) (rw h.5 refl))),
  )

  -- What a frame's JSON text is like: it is one line, not blank, and parses to the frame.
  pub record Prints (stringify : ControlFrame → String) (frame : ControlFrame) : Type 0 where
    pub value : Json
    pub kind : Json
    pub parses : parse (stringify frame) ≡ some value
    pub is_object : as_object value ≡ some frame
    pub has_type : get "type" frame ≡ some kind
    pub known_type : is_control_frame_type kind ≡ true
    pub one_line : split_line (stringify frame) ≡ none
    pub not_blank : trim (stringify frame) ≢ ""

  module _ (stringify : ControlFrame → String) where
    abbrev pub encode_all : List ControlFrame → String
    encode_all [] = ""
    encode_all (f ∷ fs) = encode_control_frame stringify f +++ encode_all fs

    Prints-of_line :
        (f : ControlFrame) (results : List DecodeResult)
        → Prints stringify f
        → of_line parse (stringify f) results ≡ ok f ∷ results
    Prints-of_line f results h = rw (str_eq_ne _ _ h.not_blank) (
        rw
          ((decode_control_frame_iff (stringify f) f).1
            (h.value, h.kind, h.parses, h.is_object, h.has_type, h.known_type))
          refl)

    drain-encode_all :
        (fs : List ControlFrame) (rest : String) (n : ℕ)
        → All (Prints stringify) fs
        → split_line rest ≡ none
        → size (encode_all fs +++ rest) ≤ n
        → drain parse n (encode_all fs +++ rest) ≡ (map ok fs, rest)
    unfolding encode_control_frame
    drain-encode_all [] rest n h e b = rw nil-append (drain_last parse n rest e)
    drain-encode_all (f ∷ fs) rest n h e b =
        let s = stringify f in
        let tail = encode_all fs +++ rest in
        let text : (encode_control_frame stringify f +++ encode_all fs) +++ rest
            ≡ s +++ ("\n" +++ tail) =
          rw (append_assoc (s +++ "\n"), append_assoc s) refl in
        rw text (
          drain_line n s tail (map ok fs) h.0.one_line (rw text at b)
            (λ (k : ℕ) (c : size tail ≤ k). drain-encode_all fs rest k h.1 e c)
          ∙ ap {B = List DecodeResult × String} (λ r. (r, rest)) (Prints-of_line f (map ok fs) h.0))
      where
        drain_line :
            (n : ℕ) (s tail : String) (results : List DecodeResult)
            → split_line s ≡ none
            → size (s +++ ("\n" +++ tail)) ≤ n
            → ((k : ℕ) → size tail ≤ k → drain parse k tail ≡ (results, rest))
            → drain parse n (s +++ ("\n" +++ tail)) ≡ (of_line parse s results, rest)
        drain_line zero s tail results e b ih =
            absurd (omega (arith, size-append s ("\n" +++ tail), size-append "\n" tail))
        drain_line (suc n) s tail results e b ih =
            drain_next parse n _ s tail (split_line_at s tail e)
            ∙ ap {B = List DecodeResult × String} (λ r. (of_line parse s r.0, r.1))
                (ih n (omega (arith, size-append s ("\n" +++ tail), size-append "\n" tail)))

    -- However the encoded frames are cut into chunks, decoding them gives the frames back in order, and
    -- what follows the last newline stays in the buffer.
    pub push_all-encode_all :
        (fs : List ControlFrame) (rest : String) (chunks : List String)
        → All (Prints stringify) fs
        → split_line rest ≡ none
        → concat chunks ≡ encode_all fs +++ rest
        → push_all parse new_decoder chunks ≡ (map ok fs, record { buffer = rest })
    push_all-encode_all fs rest chunks h e c =
        push_all-feed parse "" chunks empty
        ∙ ap (λ s. feed parse s) (nil-append (concat chunks) ∙ c)
        ∙ ap {B = List DecodeResult × Decoder} (λ r. (r.0, record { buffer = r.1 }))
            (drain-encode_all fs rest _ h e (le_refl (size (encode_all fs +++ rest))))
      where
        empty : split_line "" ≡ none
        empty = nothing
