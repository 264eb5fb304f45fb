-- ===== src/Server/Startup/Bind.antt =====
-- Which hosts packages/server/src/startup.ts binds: none but those of the machine itself.
use native.Mathlib.Omega.{arith}
use Prim.Native.String.{◌++◌ as ◌+++◌}
use text.Mathlib.TextLemmas.{nil-append, append-nil}
use ccctl.Base.{
  ℕ, ◌+◌, ◌*◌, ◌^◌, ◌≤◌, ◌<◌, ◌≡◌, ◌⊎◌, refl, ap, ap₂, ◌∙◌, sym, subst, inl, inr, String, Bool,
  true, false, not, ◌≢◌, ◌==◌, code, length, All, ◌&&◌, List, [], ◌∷◌, Option, none, some, any,
  str_eq, eq_iff, if◌then◌else◌, Bool-cases, holds_below, holds_at,
}
use ccctl.Base.Split.{split, split-cons, free, split-append, split-free}
use ccctl.Core.Json.{unsome}
use ccctl.Base.Texts.{size}
use ccctl.Core.Enrichment.{decimal, all_digits}
use ccctl.Core.Network.{
  loopback_hosts, number_from, is_octet, are_loopback_octets, is_ipv4_loopback_host,
  is_loopback_host,
}
use ccctl.Server.Startup.{default_host, resolve_bind_host}

abbrev pub starts_with_zero : String → Bool
starts_with_zero String.[] = false
starts_with_zero (String.◌∷◌ c t) = code c == b'0'

-- The address that four decimal octets denote.
abbrev pub address : List String → ℕ
address (a ∷ b ∷ c ∷ d ∷ []) =
    ((number_from 0 a * 256 + number_from 0 b) * 256 + number_from 0 c) * 256 + number_from 0 d
address _ = 0

octets-in_block :
    (xs : List String)
    → are_loopback_octets xs ≡ true
    → (127 * 2 ^ 24 ≤ address xs) × (address xs < 128 * 2 ^ 24)
octets-in_block [] e = ground arith
octets-in_block (a ∷ []) e = ground arith
octets-in_block (a ∷ b ∷ []) e = ground arith
octets-in_block (a ∷ b ∷ c ∷ []) e = ground arith
octets-in_block (a ∷ b ∷ c ∷ d ∷ []) e =
    let first : number_from 0 a ≡ 127 = ap (number_from 0) ((eq_iff a "127").0 (ground arith)) in
    let second : number_from 0 b ≤ 255 = ground arith in
    let third : number_from 0 c ≤ 255 = ground arith in
    let fourth : number_from 0 d ≤ 255 = ground arith in
    (omega (arith, first, second, third, fourth), omega (arith, first, second, third, fourth))
octets-in_block (a ∷ b ∷ c ∷ d ∷ x ∷ xs) e = ground arith

-- A decimal numeral: digits, of which the first is no zero unless it is the only one.
abbrev pub IsNumeral : String → Type 0
IsNumeral t = (t ≢ "") × (all_digits t ≡ true) × ((starts_with_zero t && not (size t == 1)) ≡ false)

abbrev pub IsOwnHost : String → Type 0
IsOwnHost h =
    (any (str_eq h) loopback_hosts ≡ true)
    ⊎ (All IsNumeral (split "." h)
        × (length (split "." h) ≡ 4)
        × (127 * 2 ^ 24 ≤ address (split "." h))
        × (address (split "." h) < 128 * 2 ^ 24))

numeral : (t : String) → is_octet t ≡ true → IsNumeral t
numeral String.[] e = ground arith
numeral (String.◌∷◌ c t) e = elim (Bool-cases (str_eq t "")) [
  | inl k ↦
      let empty = (eq_iff t "").0 k in
      ((λ h. cc h), rw empty (ground (arith, e)), rw empty (ground arith))
  | inr k ↦ ((λ h. cc h), ground (arith, e, k), ground (arith, e, k))
]

octets-IsNumeral : (xs : List String) → are_loopback_octets xs ≡ true → All IsNumeral xs
octets-IsNumeral (a ∷ b ∷ c ∷ d ∷ []) e = (
  numeral a (ground (arith, e)),
  (
    numeral b (ground (arith, e)),
    (numeral c (ground (arith, e)), (numeral d (ground (arith, e)), tt)),
  ),
)
octets-IsNumeral [] e = tt
octets-IsNumeral (a ∷ []) e = absurd (ground (arith, e))
octets-IsNumeral (a ∷ b ∷ []) e = absurd (ground (arith, e))
octets-IsNumeral (a ∷ b ∷ c ∷ []) e = absurd (ground (arith, e))
octets-IsNumeral (a ∷ b ∷ c ∷ d ∷ x ∷ xs) e = absurd (ground (arith, e))

four_octets : (xs : List String) → are_loopback_octets xs ≡ true → length xs ≡ 4
four_octets (a ∷ b ∷ c ∷ d ∷ []) e = refl
four_octets [] e = absurd (ground (arith, e))
four_octets (a ∷ []) e = absurd (ground (arith, e))
four_octets (a ∷ b ∷ []) e = absurd (ground (arith, e))
four_octets (a ∷ b ∷ c ∷ []) e = absurd (ground (arith, e))
four_octets (a ∷ b ∷ c ∷ d ∷ x ∷ xs) e = absurd (ground (arith, e))

is_loopback_host-IsOwnHost : (h : String) → is_loopback_host h ≡ true → IsOwnHost h
unfolding is_loopback_host is_ipv4_loopback_host
is_loopback_host-IsOwnHost h e = elim (Bool-cases (any (str_eq h) loopback_hosts)) [
  | inl k ↦ inl k
  | inr k ↦
      let octets : are_loopback_octets (split "." h) ≡ true = ground arith in
      inr (
        octets-IsNumeral (split "." h) octets,
        four_octets (split "." h) octets,
        (octets-in_block (split "." h) octets).0,
        (octets-in_block (split "." h) octets).1,
      )
]

by_host :
    (h bound : String)
    → (if not (is_loopback_host h) then none else some h) ≡ some bound
    → (bound ≡ h) × IsOwnHost bound
by_host h bound e = elim (Bool-cases (is_loopback_host h)) [
  | inr k ↦ absurd (let no = rw k at e in cc no)
  | inl k ↦
      let same : h ≡ bound = unsome (rw k at e) in
      (sym same, subst IsOwnHost same (is_loopback_host-IsOwnHost h k))
]

abbrev pub asked : Option String → String
asked none = default_host
asked (some h) = h

-- A host that is bound is the one that was asked for, or the default; and it is one of the three names of the
-- machine itself, or has four parts between its dots, decimal numerals without leading zeros, which denote an
-- address in the block 127.0.0.0/8.
pub resolve_bind_host-IsOwnHost :
    (host : Option String) (bound : String)
    → resolve_bind_host host ≡ some bound
    → (bound ≡ asked host) × IsOwnHost bound
unfolding resolve_bind_host
resolve_bind_host-IsOwnHost none bound e = by_host default_host bound e
resolve_bind_host-IsOwnHost (some h) bound e = by_host h bound e

-- Every decimal octet is one.
octet : (n : ℕ) → n < 256 → is_octet (decimal n) && free "." (decimal n) ≡ true
octet n h = holds_at 256 (λ k. is_octet (decimal k) && free "." (decimal k)) n table h
  where
    table : holds_below 256 (λ k. is_octet (decimal k) && free "." (decimal k)) ≡ true
    table = unfold holds_below decimal in refl

abbrev pub quad : ℕ → ℕ → ℕ → String
quad b c d = "127" +++ ("." +++ (decimal b +++ ("." +++ (decimal c +++ ("." +++ decimal d)))))

-- A first part without a dot, then a dot.
first_part :
    (a rest : String) → free "." a ≡ true → split "." (a +++ ("." +++ rest)) ≡ a ∷ split "." rest
unfolding split
first_part a rest f =
    let (y, ys, e) = split-cons "." rest in
    rw (split-append "." a ("." +++ rest), split-append "." "." rest, split-free "." a f, e)
      (ap₂ (λ u v. u ∷ v ∷ ys) (append-nil a) (nil-append y))

plain : (n : ℕ) → n < 256 → free "." (decimal n) ≡ true
plain n h = ground (arith, octet n h)

split-quad :
    (b c d : ℕ)
    → b < 256
    → c < 256
    → d < 256
    → split "." (quad b c d) ≡ "127" ∷ decimal b ∷ decimal c ∷ decimal d ∷ []
split-quad b c d hb hc hd =
    first_part "127" (decimal b +++ ("." +++ (decimal c +++ ("." +++ decimal d)))) refl
    ∙ ap (λ xs. "127" ∷ xs)
        (first_part (decimal b) (decimal c +++ ("." +++ decimal d)) (plain b hb)
          ∙ ap (λ xs. decimal b ∷ xs)
              (first_part (decimal c) (decimal d) (plain c hc)
                ∙ ap (λ xs. decimal c ∷ xs) (split-free "." (decimal d) (plain d hd))))

-- Every address of the block, written in decimal, is bound as it is asked for.
pub resolve_bind_host-quad :
    (b c d : ℕ)
    → b < 256
    → c < 256
    → d < 256
    → resolve_bind_host (some (quad b c d)) ≡ some (quad b c d)
unfolding resolve_bind_host is_loopback_host is_ipv4_loopback_host
resolve_bind_host-quad b c d hb hc hd =
    let s = split-quad b c d hb hc hd in
    let ipv4 : is_ipv4_loopback_host (quad b c d) ≡ true =
      rw s (ground (arith, octet b hb, octet c hc, octet d hd)) in
    ground (arith, ipv4)
