-- ===== src/Go/Net/Ip.antt =====
-- net.ParseIP (netip.ParseAddr without a zone) and the tests on addresses. An address is its 16
-- bytes; an IPv4 address is mapped to ::ffff:a.b.c.d.
use funcbox.Prelude.{
  ℕ, zero, suc, ◌+◌, ◌-◌, ◌*◌, ◌/◌, ◌%◌, Bool, true, false, not, ◌&&◌, ◌||◌, Option, none, some,
  Bytes, codes, List, [], ◌∷◌, ◌++◌, ◌==◌, leb, ltb, length, take, drop, if◌then◌else◌,
}
use mathlib.Core.Option
use funcbox.Go.Chars.{is_digit}
use funcbox.Go.Strings.{contains_byte, has_prefix}

abbrev pub Ip : Type 0
Ip = List ℕ

-- parseIPv4Fields: `val` and `dig_len` of the current field, and whether a field may start here
-- (`fresh`: at the start or behind a dot).
unfoldable pub v4_fields : ℕ → ℕ → List ℕ → Bytes → Option (List ℕ)
unfolding is_digit
v4_fields val dig_len fields [] =
    if dig_len == 0 || not (length fields == 3) then none else some (fields ++ val ∷ [])
v4_fields val dig_len fields (c ∷ s) =
    let digit = v4_fields (val * 10 + (c - 48)) (dig_len + 1) fields s in
    let next = v4_fields 0 0 (fields ++ val ∷ []) s in
    if is_digit c
    then (if (dig_len == 1 && val == 0) || ltb 255 (val * 10 + (c - 48)) then none else digit)
    else if c == b'.'
    then (if dig_len == 0 || length fields == 3 then none else next)
    else none

unfoldable pub parse_ipv4 : Bytes → Option (List ℕ)
unfolding v4_fields
parse_ipv4 s = v4_fields 0 0 [] s

unfoldable pub hex_value : ℕ → Option ℕ
unfolding is_digit
hex_value c =
    if is_digit c
    then some (c - 48)
    else if leb b'a' c && leb c b'f'
    then some (c - 87)
    else if leb b'A' c && leb c b'F'
    then some (c - 55)
    else none

-- The hex digits at the head: their count, their value and the rest; `none` for more than four.
unfoldable pub hex_group : ℕ → ℕ → Bytes → Option (ℕ × ℕ × Bytes)
unfolding hex_value
hex_group off acc [] = some (off, acc, [])
hex_group off acc (c ∷ s) = elim (hex_value c) [
  | none ↦ some (off, acc, c ∷ s)
  | some d ↦ if ltb 3 off then none else hex_group (off + 1) (acc * 16 + d) s
]

-- What the loop of parseIPv6 leaves: the bytes, the place of the ellipsis and the text that is left.
pub record V6 : Type 0 where
  pub bytes : List ℕ
  pub ellipsis : Option ℕ

abbrev pub has_some : Option ℕ → Bool
has_some none = false
has_some (some n) = true

unfoldable pub add_v4 : V6 → Option (List ℕ) → Option V6
add_v4 st none = none
add_v4 st (some fields) = some (record st { bytes = st.bytes ++ fields })

unfoldable pub add_group : V6 → ℕ → V6
add_group st acc = record st { bytes = st.bytes ++ acc / 256 ∷ acc % 256 ∷ [] }

-- Behind the colon of a group: what is left, and whether it starts with a second colon.
unfoldable pub behind_colon : V6 → Bytes → Option (V6 × Bytes)
behind_colon st [] = none
behind_colon st (c ∷ s) =
    if not (c == b':')
    then some (st, c ∷ s)
    else if has_some st.ellipsis
    then none
    else some (record st { ellipsis = some (length st.bytes) }, s)

-- One round a group; the fuel is the number of groups that still fit.
unfoldable pub v6_loop : ℕ → V6 → Bytes → Option V6
unfolding hex_group parse_ipv4 add_v4 add_group behind_colon
v6_loop zero st s = if length s == 0 then some st else none
v6_loop (suc f) st s = elim (hex_group 0 0 s) [
  | none ↦ none
  | some (zero, acc, rest) ↦ none
  | some (suc off, acc, []) ↦ some (add_group st acc)
  | some (suc off, acc, c ∷ rest) ↦ elim (c == b'.') [
    | true ↦
        if (not (has_some st.ellipsis) && not (length st.bytes == 12)) || ltb 12 (length st.bytes)
        then none
        else add_v4 st (parse_ipv4 s)
    | false ↦ elim (c == b':') [
      | false ↦ none
      | true ↦ elim (behind_colon (add_group st acc) rest) [
        | none ↦ none
        | some (st', []) ↦ some st'
        | some (st', d ∷ t) ↦ v6_loop f st' (d ∷ t)
      ]
    ]
  ]
]

unfoldable pub zeros : ℕ → List ℕ
zeros zero = []
zeros (suc n) = 0 ∷ zeros n

-- The ellipsis expands to at least one group of zeros.
unfoldable pub v6_finish : List ℕ → Option ℕ → Option Ip
unfolding zeros
v6_finish bytes none = if length bytes == 16 then some bytes else none
v6_finish bytes (some at) =
    if ltb (length bytes) 16
    then some (take at bytes ++ zeros (16 - length bytes) ++ drop at bytes)
    else none

unfoldable pub v6_finished : Option V6 → Option Ip
unfolding v6_finish
v6_finished none = none
v6_finished (some st) = v6_finish st.bytes st.ellipsis

unfoldable pub parse_ipv6 : Bytes → Option Ip
unfolding v6_loop v6_finished zeros contains_byte has_prefix
parse_ipv6 s =
    if contains_byte b'%' s
    then none
    else if has_prefix s (codes "::")
    then (if length s == 2
        then some (zeros 16)
        else v6_finished (v6_loop 8 (record { bytes = []; ellipsis = some 0 }) (drop 2 s)))
    else v6_finished (v6_loop 8 (record { bytes = []; ellipsis = none }) s)

abbrev pub v4_mapped : List ℕ → Ip
v4_mapped fields = 0 ∷ 0 ∷ 0 ∷ 0 ∷ 0 ∷ 0 ∷ 0 ∷ 0 ∷ 0 ∷ 0 ∷ 255 ∷ 255 ∷ fields

-- The first `.`, `:` or `%` decides how the text is read; a zone is refused.
unfoldable pub parse_by : Bytes → Bytes → Option Ip
unfolding parse_ipv4 parse_ipv6
parse_by s [] = none
parse_by s (c ∷ rest) =
    if c == b'.'
    then Option.map v4_mapped (parse_ipv4 s)
    else if c == b':'
    then parse_ipv6 s
    else if c == b'%'
    then none
    else parse_by s rest

unfoldable pub parse_ip : Bytes → Option Ip
unfolding parse_by
parse_ip s = parse_by s s
