-- ===== src/Policy/Pattern/RoundTrip.antt =====
-- ParsePattern reads `host:port`, `host`, `*.host:port` and `*.host` back.
use funcbox.Prelude.{
  ℕ, ◌-◌, ◌≤◌, ◌≡◌, refl, ap, inl, inr, Bool, true, false, not, ◌&&◌, ◌||◌, List, [], ◌∷◌, ◌++◌,
  Bytes, codes, str_eq, length, arith, ◌==◌, take, all, All, All-map, all_iff, all-append, ok, err,
  take-append, Bool-cases,
}
use funcbox.Go.Chars.{is_alnum, is_digit, lower}
use funcbox.Go.Strings.{
  contains_byte, has_prefix, has_suffix, trim_prefix, trim_suffix, to_lower, contains, split, join,
}
use mathlib.Core.Path.{subst}
use funcbox.Go.Strings.Laws.{
  join-split, has_suffix→append, last_index-none, last_index_at, drop_past, contains_byte-append,
}
use funcbox.Go.Strconv.{atoi, itoa}
use funcbox.Go.Strconv.RoundTrip.{atoi-itoa, all-itoa}
use funcbox.Go.Net.HostPort.{
  missing_port, split_host_port, split_at_colon, split_checked, addr_error_message,
}
use funcbox.Labels.{label_char}
use funcbox.Labels.Matching.{dns_label_iff, chars-LabelMatch}
use funcbox.Policy.Pattern.{
  host_label, is_valid_hostname, host_and_port, checked_port, bare_host, pattern_of, parse_pattern,
}

-- the bytes of host names, and of patterns without a port
host_char : ℕ → Bool
unfolding label_char is_alnum
host_char c = label_char is_alnum c || c == b'.'

abbrev is_plain : ℕ → Bool
is_plain c = not (c == b':') && not (c == b'[') && not (c == b']')

all-join :
    (p : ℕ → Bool) (c : ℕ) (ws : List Bytes)
    → p c ≡ true
    → All (λ w. all p w ≡ true) ws
    → all p (join c ws) ≡ true
unfolding join
all-join p c [] hc h = refl
all-join p c (w ∷ []) hc h = h.0
all-join p c (w ∷ v ∷ ws) hc h =
    ground (arith, all-append p w (c ∷ join c (v ∷ ws)), all-join p c (v ∷ ws) hc h.1)

all_mono :
    (p q : ℕ → Bool) (s : Bytes)
    → ((c : ℕ) → p c ≡ true → q c ≡ true)
    → all p s ≡ true
    → all q s ≡ true
all_mono p q [] f h = refl
all_mono p q (x ∷ s) f h = ground (arith, f x, all_mono p q s f)

not-contains_byte :
    (p : ℕ → Bool) (c : ℕ) (s : Bytes) → p c ≡ false → all p s ≡ true → contains_byte c s ≡ false
unfolding contains_byte
not-contains_byte p c [] f h = refl
not-contains_byte p c (x ∷ s) f h = elim (Bool-cases (x == c)) [
  | inl e ↦ absurd (bad e)
  | inr e ↦ ground (arith, not-contains_byte p c s f)
]
  where
    bad : (x == c) ≡ true → ⊥
    bad e = let e' : x ≡ c = ground arith in let q : p x ≡ p c = ap p e' in ground arith

-- A valid host name has host bytes only.
all-host_char : (h : Bytes) → is_valid_hostname h ≡ true → all host_char h ≡ true
all-host_char h v = rw (← join-split b'.' h) (
    all-join host_char b'.' (split b'.' h) (unfold host_char in refl) (
      All-map (λ w. host_label w ≡ true) (λ w. all host_char w ≡ true) (split b'.' h) label_chars
        (labels (unfold is_valid_hostname in ground arith))))
  where
    label_chars : (w : Bytes) → host_label w ≡ true → all host_char w ≡ true
    label_chars w e =
        all_mono (label_char is_alnum) host_char w (λ c k. unfold host_char in ground arith)
          (chars-LabelMatch is_alnum ((dns_label_iff is_alnum w).0 (unfold host_label in e)))

    labels : all host_label (split b'.' h) ≡ true → All (λ w. host_label w ≡ true) (split b'.' h)
    labels a =
        (all_iff host_label (λ w. host_label w ≡ true) (split b'.' h) (λ w. (λ k. k, λ k. k))).0 a

host_char-plain : (c : ℕ) → host_char c ≡ true → is_plain c ≡ true
unfolding host_char
host_char-plain c h = ground arith

no_colon : (s : Bytes) → all is_plain s ≡ true → contains_byte b':' s ≡ false
no_colon s h = not-contains_byte is_plain b':' s refl h

no_open : (s : Bytes) → all is_plain s ≡ true → contains_byte b'[' s ≡ false
no_open s h = not-contains_byte is_plain b'[' s refl h

no_close : (s : Bytes) → all is_plain s ≡ true → contains_byte b']' s ≡ false
no_close s h = not-contains_byte is_plain b']' s refl h

-- SplitHostPort divides a plain host and a plain port.
split_host_port-plain :
    (x : ℕ) (w t : Bytes)
    → all is_plain (x ∷ w) ≡ true
    → all is_plain t ≡ true
    → split_host_port ((x ∷ w) ++ b':' ∷ t) ≡ ok (x ∷ w, t)
unfolding split_host_port split_at_colon split_checked
split_host_port-plain x w t hw ht =
    let first : (x == b'[') ≡ false = ground arith in
    let whole : contains_byte b'[' ((x ∷ w) ++ b':' ∷ t) ≡ false =
      rw (contains_byte-append b'[' (x ∷ w) (b':' ∷ t))
        (rw (no_open (x ∷ w) hw) (unfold contains_byte in no_open t ht)) in
    let closed : contains_byte b']' ((x ∷ w) ++ b':' ∷ t) ≡ false =
      rw (contains_byte-append b']' (x ∷ w) (b':' ∷ t))
        (rw (no_close (x ∷ w) hw) (unfold contains_byte in no_close t ht)) in
    ground (
      arith,
      last_index_at b':' (x ∷ w) t (no_colon t ht),
      first,
      take-append (x ∷ w) (b':' ∷ t),
      no_colon (x ∷ w) hw,
      whole,
      closed,
      drop_past (x ∷ w) b':' t,
    )

split_host_port-no_port : (w : Bytes) → all is_plain w ≡ true → split_host_port w ≡ err missing_port
unfolding split_host_port split_at_colon
split_host_port-no_port w h = rw (last_index-none b':' w (no_colon w h))

contains-append : (s t sub : Bytes) → contains t sub ≡ true → contains (s ++ t) sub ≡ true
unfolding contains
contains-append [] t sub h = h
contains-append (x ∷ s) t sub h = ground (arith, contains-append s t sub h)

-- The text of a missing port's error says so, whatever the address.
missing_port_said :
    (w : Bytes) → contains (addr_error_message w missing_port) (codes "missing port") ≡ true
unfolding addr_error_message
missing_port_said w =
    contains-append (codes "address ") (w ++ codes ": missing port in address")
      (codes "missing port")
      (contains-append w (codes ": missing port in address") (codes "missing port")
        (unfold contains in refl))

no_open_prefix : (s : Bytes) → all is_plain s ≡ true → has_prefix s (codes "[") ≡ false
unfolding has_prefix
no_open_prefix [] h = refl
no_open_prefix (x ∷ s) h = ground arith

no_close_suffix : (s : Bytes) → all is_plain s ≡ true → has_suffix s (codes "]") ≡ false
no_close_suffix s h = elim (Bool-cases (has_suffix s (codes "]"))) [
  | inl e ↦ absurd (clash (take (length s - 1) s) (has_suffix→append s (codes "]") e))
  | inr e ↦ e
]
  where
    clash : (r : Bytes) → s ≡ r ++ codes "]" → ⊥
    clash r e =
        let q : all is_plain (r ++ codes "]") ≡ true = subst (λ l. all is_plain l ≡ true) e h in
        ground (arith, all-append is_plain r (codes "]"), q)

-- A host in lower case with no bracket and no colon stays as it is.
bare_host-plain : (s : Bytes) → all is_plain s ≡ true → to_lower s ≡ s → bare_host s ≡ s
unfolding bare_host trim_prefix trim_suffix
bare_host-plain s h e = rw e (ground (arith, no_open_prefix s h, no_close_suffix s h))

-- The texts `h` and `*.h` that a pattern without a port may have, for a host name `h`.
abbrev pub pattern_text : Bool → Bytes → Bytes
pattern_text true h = codes "*." ++ h
pattern_text false h = h

valid_ne_nil : (h : Bytes) → is_valid_hostname h ≡ true → str_eq h (codes "") ≡ false
unfolding is_valid_hostname str_eq
valid_ne_nil [] v = ground arith
valid_ne_nil (x ∷ h) v = refl

no_star : (h : Bytes) → is_valid_hostname h ≡ true → has_prefix h (codes "*.") ≡ false
unfolding has_prefix
no_star [] v = refl
no_star (x ∷ h) v =
    let chars : host_char x && all host_char h ≡ true = all-host_char (x ∷ h) v in
    unfold host_char in ground arith

pattern_of-text :
    (wildcard : Bool) (raw h : Bytes) (port : ℕ)
    → is_valid_hostname h ≡ true
    → pattern_of raw (pattern_text wildcard h) port
      ≡ ok (record { raw = raw; host = h; wildcard = wildcard; port = port })
unfolding pattern_of
pattern_of-text true raw h port v = rw (valid_ne_nil h v) (rw v refl)
pattern_of-text false raw h port v = rw (valid_ne_nil h v) (rw (no_star h v) (rw v refl))

plain_text :
    (wildcard : Bool) (h : Bytes)
    → is_valid_hostname h ≡ true
    → all is_plain (pattern_text wildcard h) ≡ true
plain_text true h v = all_mono host_char is_plain h host_char-plain (all-host_char h v)
plain_text false h v = all_mono host_char is_plain h host_char-plain (all-host_char h v)

lowered_text :
    (wildcard : Bool) (h : Bytes)
    → to_lower h ≡ h
    → to_lower (pattern_text wildcard h) ≡ pattern_text wildcard h
unfolding to_lower lower
lowered_text true h e = ap (λ l. codes "*." ++ l) e
lowered_text false h e = e

digit-plain : (c : ℕ) → is_digit c ≡ true → is_plain c ≡ true
unfolding is_digit
digit-plain c h = ground arith

port_accepted :
    (h : Bytes) (port : ℕ)
    → 1 ≤ port
    → port ≤ 65535
    → checked_port h (atoi (itoa port)) ≡ ok (h, port)
unfolding checked_port
port_accepted h port lo hi = rw (atoi-itoa port (omega arith)) (ground arith)

with_port :
    (s t : Bytes) (port : ℕ)
    → str_eq s (codes "") ≡ false
    → all is_plain s ≡ true
    → all is_plain t ≡ true
    → split_host_port (s ++ b':' ∷ t) ≡ ok (s, t)
with_port [] t port n hs ht = absurd (unfold str_eq in cc)
with_port (x ∷ s) t port n hs ht = split_host_port-plain x s t hs ht

text_ne_nil :
    (wildcard : Bool) (h : Bytes)
    → is_valid_hostname h ≡ true
    → str_eq (pattern_text wildcard h) (codes "") ≡ false
text_ne_nil true h v = unfold str_eq in refl
text_ne_nil false h v = valid_ne_nil h v

append_ne_nil : (s : Bytes) (c : ℕ) (t : Bytes) → str_eq (s ++ c ∷ t) (codes "") ≡ false
unfolding str_eq
append_ne_nil [] c t = refl
append_ne_nil (x ∷ s) c t = refl

-- A valid host name in lower case, with or without `*.`, and a port from 1 to 65535 are read back
-- from `host:port`.
pub parse_pattern-port :
    (wildcard : Bool) (h : Bytes) (port : ℕ)
    → is_valid_hostname h ≡ true
    → to_lower h ≡ h
    → 1 ≤ port
    → port ≤ 65535
    → parse_pattern (pattern_text wildcard h ++ b':' ∷ itoa port)
      ≡ ok (record {
        raw = pattern_text wildcard h ++ b':' ∷ itoa port;
        host = h;
        wildcard = wildcard;
        port = port;
      })
unfolding parse_pattern host_and_port
parse_pattern-port wildcard h port v e lo hi =
    let text = pattern_text wildcard h in
    let digits_plain : all is_plain (itoa port) ≡ true =
      all_mono is_digit is_plain (itoa port) digit-plain (all-itoa port) in
    rw (append_ne_nil text b':' (itoa port)) (
      rw
        (with_port text (itoa port) port (text_ne_nil wildcard h v) (plain_text wildcard h v)
          digits_plain)
        (rw (port_accepted text port lo hi) (
          rw (bare_host-plain text (plain_text wildcard h v) (lowered_text wildcard h e))
            (pattern_of-text wildcard (text ++ b':' ∷ itoa port) h port v))))

-- The same without a port: the pattern's port is 0.
pub parse_pattern-no_port :
    (wildcard : Bool) (h : Bytes)
    → is_valid_hostname h ≡ true
    → to_lower h ≡ h
    → parse_pattern (pattern_text wildcard h)
      ≡ ok (record { raw = pattern_text wildcard h; host = h; wildcard = wildcard; port = 0 })
unfolding parse_pattern host_and_port
parse_pattern-no_port wildcard h v e =
    let text = pattern_text wildcard h in
    rw (text_ne_nil wildcard h v) (
      rw (split_host_port-no_port text (plain_text wildcard h v)) (
        rw (missing_port_said text) (
          rw (bare_host-plain text (plain_text wildcard h v) (lowered_text wildcard h e))
            (pattern_of-text wildcard text h 0 v))))
