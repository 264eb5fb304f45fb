-- ===== src/Core/Detail.antt =====
-- `displayableDetail` of packages/core/src/index.ts: worker text made safe to show.

pub mod Tidy
pub mod Stable
use Prim.Native.String.{◌++◌}
use ccctl.Base.{
  ℕ, zero, suc, ◌-◌, String, Char, code, Bool, true, false, ◌||◌, ◌==◌, Option, none, some, ltb,
  if◌then◌else◌, str_eq,
}
use ccctl.Base.Texts.{size, within, is_space, trim}
use ccctl.Core.Json.{Json, as_string}

abbrev pub max_requires_action_detail_length : ℕ
max_requires_action_detail_length = 200

-- `\p{Cf}`: the format characters of Unicode 15.
unfoldable pub is_format : ℕ → Bool
is_format c =
    c == 0xad
    || within 0x600 0x605 c
    || c == 0x61c
    || c == 0x6dd
    || c == 0x70f
    || within 0x890 0x891 c
    || c == 0x8e2
    || c == 0x180e
    || within 0x200b 0x200f c
    || within 0x202a 0x202e c
    || within 0x2060 0x2064 c
    || within 0x2066 0x206f c
    || c == 0xfeff
    || within 0xfff9 0xfffb c
    || c == 0x110bd
    || c == 0x110cd
    || within 0x13430 0x1343f c
    || within 0x1bca0 0x1bca3 c
    || within 0x1d173 0x1d17a c
    || c == 0xe0001
    || within 0xe0020 0xe007f c

-- `\p{Cc}`: the control characters.
unfoldable pub is_control : ℕ → Bool
is_control c = within 0 31 c || within 127 159 c

-- `.replace(FORMAT_CHARACTERS, "")`
unfoldable pub drop_format : String → String
drop_format String.[] = ""
drop_format (String.◌∷◌ c s) =
    let rest = drop_format s in if is_format (code c) then rest else String.◌∷◌ c rest

-- `.replace(CONTROL_CHARACTERS, " ")`
unfoldable pub blank_control : String → String
blank_control String.[] = ""
blank_control (String.◌∷◌ c s) =
    String.◌∷◌ (if is_control (code c) then " " else c) (blank_control s)

-- `.replace(/\s+/g, " ")`; the flag says that the character before was white space.
unfoldable pub collapse : Bool → String → String
collapse run String.[] = ""
collapse run (String.◌∷◌ c s) =
    let more = collapse true s in
    let word = collapse false s in
    if is_space (code c) then (if run then more else String.◌∷◌ " " more) else String.◌∷◌ c word

unfoldable pub flatten : String → String
unfolding drop_format blank_control collapse trim is_space is_format is_control
flatten s = trim (collapse false (blank_control (drop_format s)))

-- The first `n` characters.
unfoldable pub prefix : ℕ → String → String
prefix zero s = ""
prefix (suc n) String.[] = ""
prefix (suc n) (String.◌∷◌ c s) = String.◌∷◌ c (prefix n s)

-- `points.slice(0, maxLength - 1)`, which drops the last one if `maxLength` is 0, and the ellipsis.
unfoldable pub truncate : ℕ → String → String
unfolding prefix
truncate max_length s =
    if ltb max_length (size s)
    then prefix (if max_length == 0 then size s - 1 else max_length - 1) s ++ "…"
    else s

unfoldable pub displayable_text : String → ℕ → Option String
displayable_text s max_length =
    if str_eq (flatten s) "" then none else some (truncate max_length (flatten s))

-- The parameter is whatever the frame carries: what is no string counts as absent.
unfoldable pub displayable_detail : Option Json → ℕ → Option String
displayable_detail detail max_length = elim (as_string detail) [
  | none ↦ none
  | some s ↦ displayable_text s max_length
]
