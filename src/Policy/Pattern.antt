-- ===== src/Policy/Pattern.antt =====
-- policy/pattern.go: host patterns of fetch allowlists.
pub mod Matching
pub mod Parsing
pub mod RoundTrip
use funcbox.Prelude.{
  ℕ, zero, suc, Bool, true, false, not, ◌&&◌, ◌||◌, Option, none, some, Bytes, codes, str_eq, [],
  ◌∷◌, ◌++◌, ◌==◌, ltb, length, all, drop, if◌then◌else◌, Result, ok, err, ◌>>=◌,
}
use funcbox.Go.Chars.{is_alnum}
use funcbox.Go.Strings.{has_prefix, has_suffix, trim_prefix, trim_suffix, to_lower, contains, split}
use funcbox.Go.Strconv.{ℤ, pos, negsuc, atoi}
use funcbox.Go.Net.HostPort.{AddrError, addr_error_message, split_host_port}
use funcbox.Go.Net.Ip.{Ip, parse_ip}
use funcbox.Labels.{dns_label}

pub record Pattern : Type 0 where
  pub raw : Bytes
  pub host : Bytes
  pub wildcard : Bool
  pub port : ℕ

-- The errors that wrap ErrInvalidPattern, in the order of ParsePattern.
pub data PatternError : Type 0 where
  empty_pattern invalid_port empty_host invalid_wildcard_domain invalid_host : PatternError
  invalid_address : AddrError → PatternError

unfoldable pub host_label : Bytes → Bool
unfolding is_alnum dns_label
host_label = dns_label is_alnum

unfoldable pub is_valid_hostname : Bytes → Bool
unfolding host_label split
is_valid_hostname s =
    if length s == 0 || ltb 253 (length s) then false else all host_label (split b'.' s)

unfoldable pub checked_port : Bytes → Option ℤ → Result PatternError (Bytes × ℕ)
checked_port h none = err invalid_port
checked_port h (some (negsuc n)) = err invalid_port
checked_port h (some (pos n)) = if ltb n 1 || ltb 65535 n then err invalid_port else ok (h, n)

unfoldable pub host_and_port :
    Bytes → Result AddrError (Bytes × Bytes) → Result PatternError (Bytes × ℕ)
unfolding checked_port atoi contains addr_error_message
host_and_port s (ok (h, port_str)) = checked_port h (atoi port_str)
host_and_port s (err e) =
    if contains (addr_error_message s e) (codes "missing port")
    then ok (s, 0)
    else err (invalid_address e)

abbrev pub is_some {ℓ} : {A : Type ℓ} → Option A → Bool
is_some none = false
is_some (some a) = true

-- from the lowered host without brackets on
unfoldable pub pattern_of : Bytes → Bytes → ℕ → Result PatternError Pattern
unfolding is_valid_hostname has_prefix parse_ip str_eq
pattern_of raw host port =
    if str_eq host (codes "")
    then err empty_host
    else if has_prefix host (codes "*.")
    then (if str_eq (drop 2 host) (codes "") || not (is_valid_hostname (drop 2 host))
        then err invalid_wildcard_domain
        else ok (record { raw = raw; host = drop 2 host; wildcard = true; port = port }))
    else if not (is_valid_hostname host) && not (is_some (parse_ip host))
    then err invalid_host
    else ok (record { raw = raw; host = host; wildcard = false; port = port })

unfoldable pub bare_host : Bytes → Bytes
unfolding to_lower trim_prefix trim_suffix
bare_host h = trim_suffix (trim_prefix (to_lower h) (codes "[")) (codes "]")

unfoldable pub parse_pattern : Bytes → Result PatternError Pattern
unfolding host_and_port split_host_port bare_host pattern_of
parse_pattern s =
    if str_eq s (codes "")
    then err empty_pattern
    else host_and_port s (split_host_port s) >>= λ (h, port). pattern_of s (bare_host h) port

unfoldable pub port_matches : Pattern → ℕ → Bool
port_matches p port =
    if port == 0
    then true
    else if not (p.port == 0)
    then port == p.port
    else port == 80 || port == 443

unfoldable pub host_matches : Pattern → Bytes → Bool
unfolding has_suffix str_eq
host_matches p host =
    if p.wildcard
    then has_suffix host (b'.' ∷ p.host) && not (str_eq host p.host)
    else str_eq host p.host

-- the host that a request names, in the form in which patterns store theirs
unfoldable pub request_host : Bytes → Bytes
unfolding to_lower trim_suffix
request_host host = to_lower (trim_suffix host (codes "."))

-- (Pattern).Matches
unfoldable pub matches : Pattern → Bytes → ℕ → Bool
unfolding port_matches host_matches request_host
matches p host port =
    if not (port_matches p port) then false else host_matches p (request_host host)
