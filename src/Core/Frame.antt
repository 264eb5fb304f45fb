-- ===== src/Core/Frame.antt =====
-- Control frames of packages/core/src/index.ts: newline-delimited JSON, and the decoder of a chunked
-- stream. `JSON.parse` and `JSON.stringify` are parameters: `parse` is `none` where `JSON.parse`
-- throws. The English messages of the parse errors are left out; their reasons are kept.
pub mod Stream
pub mod RoundTrip
use Prim.Native.String.{◌++◌}
use ccctl.Base.{
  ℕ, zero, suc, String, code, Bool, true, false, ◌||◌, List, [], ◌∷◌, Option, none, some, ◌==◌,
  str_eq, if◌then◌else◌,
}
use ccctl.Base.Dict.{Dict, get}
use ccctl.Base.Texts.{size, trim}
use ccctl.Core.Json.{Json, str, obj, Fields, as_object}

-- The cast `value as ControlFrame` checks no more than the type: a frame is the object's properties.
abbrev pub ControlFrame : Type 0
ControlFrame = Dict Json

unfoldable pub encode_control_frame : (ControlFrame → String) → ControlFrame → String
encode_control_frame stringify frame = stringify frame ++ "\n"

pub data ParseErrorReason : Type 0 where
  invalid_json not_an_object missing_type unknown_type : ParseErrorReason

pub data DecodeResult : Type 0 where
  ok : ControlFrame → DecodeResult
  err : ParseErrorReason → (line : String) → DecodeResult

unfoldable pub is_control_frame_type : Json → Bool
is_control_frame_type (str t) =
    str_eq t "control_request" || str_eq t "control_response" || str_eq t "control_event"
is_control_frame_type (obj _) = false
is_control_frame_type _ = false

decode_value : String → Json → DecodeResult
unfolding is_control_frame_type
decode_value line value = elim (as_object value) [
  | none ↦ err not_an_object line
  | some o ↦ elim (get "type" o) [
    | none ↦ err missing_type line
    | some t ↦ if is_control_frame_type t then ok o else err unknown_type line
  ]
]

module _ (parse : String → Option Json) where
  unfoldable pub decode_control_frame : String → DecodeResult
  unfolding decode_value
  decode_control_frame line = elim (parse line) [
    | none ↦ err invalid_json line
    | some value ↦ decode_value line value
  ]

-- `indexOf("\n")`, `slice(0, i)` and `slice(i + 1)`.
unfoldable pub split_line : String → Option (String × String)
split_line String.[] = none
split_line (String.◌∷◌ c s) =
    let rest = split_line s in
    if code c == 10
    then some ("", s)
    else elim rest [ none ↦ none | some (line, after) ↦ some (String.◌∷◌ c line, after) ]

pub record Decoder : Type 0 where
  pub buffer : String

abbrev pub new_decoder : Decoder
new_decoder = record { buffer = "" }

module _ (parse : String → Option Json) where
  -- The loop of `push` on the buffer, with the fuel of its length; a blank line gives no result.
  unfoldable pub drain : ℕ → String → List DecodeResult × String
  unfolding split_line
  drain zero buffer = ([], buffer)
  drain (suc fuel) buffer = elim (split_line buffer) [
    | none ↦ ([], buffer)
    | some (line, after) ↦
        let (results, rest) = drain fuel after in
        (if str_eq (trim line) "" then results else decode_control_frame parse line ∷ results, rest)
  ]

  unfoldable pub push : Decoder → String → List DecodeResult × Decoder
  unfolding drain
  push d chunk =
      let whole = d.buffer ++ chunk in
      let (results, rest) = drain (size whole) whole in (results, record { buffer = rest })

  unfoldable pub flush : Decoder → Option DecodeResult × Decoder
  flush d = (
    if str_eq (trim d.buffer) "" then none else some (decode_control_frame parse d.buffer),
    new_decoder,
  )

  -- A stream that arrives in chunks.
  unfoldable pub push_all : Decoder → List String → List DecodeResult × Decoder
  unfolding push
  push_all d [] = ([], d)
  push_all d (chunk ∷ chunks) =
      let (results, d') = push d chunk in
      let (more, d'') = push_all d' chunks in (mathlib.Core.List.◌++◌ results more, d'')
