-- ===== src/Server/Worker/Handoff.antt =====
-- The hook's handoff file in packages/server/src/worker-channel.ts: what is read of it, and whether it is
-- deleted. What the file system answers is an argument, `JSON.parse` a parameter.
use ccctl.Base.{
  ℕ, ◌*◌, String, Bool, true, false, not, Option, none, some, ltb, ◌==◌, code, str_eq,
  if◌then◌else◌,
}
use ccctl.Base.Dict.{get}
use ccctl.Core.Json.{Json, as_object}

-- The answers for one handoff path: its resolved path's directory, its directory resolved, the size of the
-- file, and its text. `none` is an error.
pub record Disk : Type 0 where
  pub resolved_parent : Option String
  pub resolved_dir : Option String
  pub size : Option ℕ
  pub raw : Option String

abbrev pub max_hook_handoff_bytes : ℕ
max_hook_handoff_bytes = 1024 * 1024

unfoldable pub strip_mark : String → String
strip_mark String.[] = ""
strip_mark (String.◌∷◌ c s) = if code c == 0xfeff then s else String.◌∷◌ c s

unfoldable pub extract_handoff_questions : Json → Option Json
extract_handoff_questions parsed = elim (as_object parsed) [
  | none ↦ none
  | some o ↦ get "questions" o
]

module _ (parse : String → Option Json) where
  -- The file is read, and is deleted whether that works or not.
  unfoldable pub read_handoff : Option String → Option Json
  unfolding strip_mark extract_handoff_questions
  read_handoff none = none
  read_handoff (some raw) = elim (parse (strip_mark raw)) [
    | none ↦ none
    | some parsed ↦ extract_handoff_questions parsed
  ]

  -- The questions, and whether the file is deleted.
  unfoldable pub consume_hook_handoff_questions : Disk → Option Json × Bool
  unfolding read_handoff
  consume_hook_handoff_questions disk = elim disk.resolved_parent [
    | none ↦ (none, false)
    | some parent ↦ elim disk.resolved_dir [
      | none ↦ (none, false)
      | some dir ↦ if not (str_eq parent dir) then (none, true) else elim disk.size [
        | none ↦ (none, false)
        | some size ↦
            if ltb max_hook_handoff_bytes size then (none, true) else (read_handoff disk.raw, true)
      ]
    ]
  ]
