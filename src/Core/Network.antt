-- ===== src/Core/Network.antt =====
-- The hosts and authorities of packages/core/src/index.ts: which host is a loopback host, and `host:port`.
use Prim.Native.String.{◌++◌ as ◌+++◌}
use ccctl.Base.{
  ℕ, ◌+◌, ◌*◌, ◌-◌, String, Bool, false, not, ◌&&◌, ◌||◌, List, [], ◌∷◌, any, code, str_eq, ◌==◌,
  leb, ltb, if◌then◌else◌,
}
use ccctl.Base.Texts.{within, size}
use ccctl.Base.Split.{split, free}
use ccctl.Core.Enrichment.{decimal, all_digits}

abbrev pub loopback_hosts : List String
loopback_hosts = "localhost" ∷ "127.0.0.1" ∷ "::1" ∷ []

-- `Number(octet)` of a text of decimal digits.
abbrev pub number_from : ℕ → String → ℕ
number_from n String.[] = n
number_from n (String.◌∷◌ c s) = number_from (n * 10 + (code c - 48)) s

-- `/^(0|[1-9]\d{0,2})$/`
abbrev pub is_octet_text : String → Bool
is_octet_text String.[] = false
is_octet_text (String.◌∷◌ c s) =
    (code c == b'0' && str_eq s "") || (within b'1' b'9' (code c) && all_digits s && leb (size s) 2)

abbrev pub is_octet : String → Bool
is_octet octet = is_octet_text octet && not (ltb 255 (number_from 0 octet))

abbrev pub are_loopback_octets : List String → Bool
are_loopback_octets (a ∷ b ∷ c ∷ d ∷ []) =
    is_octet a && is_octet b && is_octet c && is_octet d && str_eq a "127"
are_loopback_octets _ = false

unfoldable pub is_ipv4_loopback_host : String → Bool
unfolding split
is_ipv4_loopback_host host = are_loopback_octets (split "." host)

unfoldable pub is_loopback_host : String → Bool
unfolding is_ipv4_loopback_host
is_loopback_host host = any (str_eq host) loopback_hosts || is_ipv4_loopback_host host

unfoldable pub format_authority : String → ℕ → String
unfolding decimal
format_authority host port =
    let authority = if not (free ":" host) then "[" +++ (host +++ "]") else host in
    authority +++ (":" +++ decimal port)
