-- ===== src/Web/Fields.antt =====
-- How packages/web-ui/src reads the fields of a payload that it was sent.
use ccctl.Base.{String, Option, none, some}
use ccctl.Base.Dict.{get}
use ccctl.Base.Texts.{trim}
use ccctl.Core.Json.{Json, as_object, as_string}

-- `payload?.key`; only an object has the keys that are read.
unfoldable pub payload_field : String → Json → Option Json
payload_field key payload = elim (as_object payload) [ none ↦ none | some o ↦ get key o ]

-- `typeof value === "string" ? value.trim() : ""`
unfoldable pub trimmed_value : Option Json → String
unfolding trim
trimmed_value value = elim (as_string value) [ none ↦ "" | some s ↦ trim s ]
