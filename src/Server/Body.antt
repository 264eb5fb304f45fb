-- ===== src/Server/Body.antt =====
-- packages/server/src/http-response.ts: a request's body, read chunk by chunk up to a limit, then parsed.
pub mod Accepted
use Prim.Native.String.{◌++◌ as ◌+++◌}
use ccctl.Base.{
  ℕ, ◌+◌, String, Bool, true, false, List, [], ◌∷◌, ◌++◌, Option, none, some, length, ltb,
  if◌then◌else◌,
}
use ccctl.Core.Json.{Json}
use ccctl.Core.Enrichment.{decimal}

-- The events of a request: a chunk of bytes, its end, or an error of the stream.
pub data Incoming : Type 0 where
  chunk : List ℕ → Incoming
  finish fault : Incoming

pub data ReadJsonBodyResult : Type 0 where
  ok : Json → ReadJsonBodyResult
  failed : (status : ℕ) (message : String) → ReadJsonBodyResult

-- `JSON.parse(Buffer.concat(chunks).toString("utf8"))`
abbrev pub parsed_body : (List ℕ → Option Json) → List ℕ → ReadJsonBodyResult
parsed_body parse bytes = elim (parse bytes) [
  | none ↦ failed 400 "ccctl: request body is not valid JSON"
  | some value ↦ ok value
]

-- The result is that of the first event that settles it; what comes later is not looked at. `none` is a
-- request whose events are not over.
unfoldable pub read_from :
    (List ℕ → Option Json) → ℕ → List ℕ → List Incoming → Option ReadJsonBodyResult
unfolding decimal
read_from parse max_bytes read [] = none
read_from parse max_bytes read (finish ∷ more) = some (parsed_body parse read)
read_from parse max_bytes read (fault ∷ more) =
    some (failed 400 "ccctl: request stream error while reading the body")
read_from parse max_bytes read (chunk bytes ∷ more) =
    let rest = read_from parse max_bytes (read ++ bytes) more in
    if ltb max_bytes (length (read ++ bytes))
    then some
        (failed 413 ("ccctl: request body exceeds the " +++ (decimal max_bytes +++ "-byte cap")))
    else rest

unfoldable pub read_json_body :
    (List ℕ → Option Json) → ℕ → List Incoming → Option ReadJsonBodyResult
unfolding read_from
read_json_body parse max_bytes events = read_from parse max_bytes [] events
