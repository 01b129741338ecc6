-- ===== src/Policy/Pattern/Parsing.antt =====
-- What a pattern that ParsePattern returns is like.
use funcbox.Prelude.{
  ℕ, ◌-◌, ◌≤◌, ◌≡◌, refl, ◌⊎◌, inl, inr, Bool, true, false, not, ◌&&◌, ◌||◌, Bytes, length, arith,
  str_eq, codes, drop, if◌then◌else◌, Result, ok, err, ◌>>=◌, >>=-eq-ok,
}
use funcbox.Go.Strings.{has_prefix, trim_prefix, trim_suffix, to_lower}
use funcbox.Go.Strings.Laws.{drop-to_lower, take-to_lower, to_lower_idem}
use funcbox.Go.Net.HostPort.{AddrError, split_host_port}
use funcbox.Go.Net.Ip.{parse_ip}
use funcbox.Policy.Pattern.{
  Pattern, PatternError, is_valid_hostname, is_some, checked_port, host_and_port, bare_host,
  pattern_of, parse_pattern,
}

-- The text is kept, the port is 0 (none given) or a TCP port, and the host is in lower case: a host
-- name, or an IP address where there is no wildcard.
pub record IsWellFormed (s : Bytes) (p : Pattern) : Type 0 where
  pub raw : p.raw ≡ s
  pub port : p.port ≤ 65535
  pub lowered : to_lower p.host ≡ p.host
  pub host :
      (is_valid_hostname p.host ≡ true)
      ⊎ ((p.wildcard ≡ false) × (is_some (parse_ip p.host) ≡ true))

port_bound :
    (s h : Bytes) (r : Result AddrError (Bytes × Bytes)) (port : ℕ)
    → host_and_port s r ≡ ok (h, port)
    → port ≤ 65535
unfolding host_and_port checked_port
port_bound s h (ok (h', text)) port e = ground arith
port_bound s h (err a) port e = ground arith

trim_prefix-lowered : (s p : Bytes) → to_lower s ≡ s → to_lower (trim_prefix s p) ≡ trim_prefix s p
unfolding trim_prefix
trim_prefix-lowered s p e = ground (arith, drop-to_lower (length p) s)

trim_suffix-lowered : (s p : Bytes) → to_lower s ≡ s → to_lower (trim_suffix s p) ≡ trim_suffix s p
unfolding trim_suffix
trim_suffix-lowered s p e = ground (arith, take-to_lower (length s - length p) s)

bare_host-lowered : (h : Bytes) → to_lower (bare_host h) ≡ bare_host h
unfolding bare_host
bare_host-lowered h =
    trim_suffix-lowered (trim_prefix (to_lower h) (codes "[")) (codes "]")
      (trim_prefix-lowered (to_lower h) (codes "[") (to_lower_idem h))

-- The tests of `pattern_of` as Booleans, and its two results as `x` and `y`.
tests_passed :
    (empty wild no_domain domain name ip : Bool) (x y p : Pattern)
    → (if empty
        then err PatternError.empty_host
        else if wild
        then (if no_domain || not domain then err PatternError.invalid_wildcard_domain else ok x)
        else if not name && not ip
        then err PatternError.invalid_host
        else ok y)
      ≡ ok p
    → ((domain ≡ true) × (p ≡ x)) ⊎ (((name ≡ true) ⊎ (ip ≡ true)) × (p ≡ y))
tests_passed true wild no_domain domain name ip x y p e = cc
tests_passed false true true domain name ip x y p e = cc
tests_passed false true false false name ip x y p e = cc
tests_passed false true false true name ip x y p e = inl (refl, cc)
tests_passed false false no_domain domain true ip x y p e = inr (inl refl, cc)
tests_passed false false no_domain domain false true x y p e = inr (inr refl, cc)
tests_passed false false no_domain domain false false x y p e = cc

abbrev wildcard_pattern : Bytes → Bytes → ℕ → Pattern
wildcard_pattern s host port = record { raw = s; host = drop 2 host; wildcard = true; port = port }

abbrev exact_pattern : Bytes → Bytes → ℕ → Pattern
exact_pattern s host port = record { raw = s; host = host; wildcard = false; port = port }

pattern_of-IsWellFormed :
    (s host : Bytes) (port : ℕ) (p : Pattern)
    → port ≤ 65535
    → to_lower host ≡ host
    → pattern_of s host port ≡ ok p
    → IsWellFormed s p
unfolding pattern_of
pattern_of-IsWellFormed s host port p hp hl e = by_result (
    tests_passed (str_eq host (codes "")) (has_prefix host (codes "*."))
      (str_eq (drop 2 host) (codes "")) (is_valid_hostname (drop 2 host)) (is_valid_hostname host)
      (is_some (parse_ip host)) (wildcard_pattern s host port) (exact_pattern s host port) p e)
  where
    by_result :
        ((is_valid_hostname (drop 2 host) ≡ true) × (p ≡ wildcard_pattern s host port))
          ⊎ (((is_valid_hostname host ≡ true) ⊎ (is_some (parse_ip host) ≡ true))
              × (p ≡ exact_pattern s host port))
        → IsWellFormed s p
    by_result (inl (valid, q)) = rw q (record {
      raw = refl;
      port = hp;
      lowered = ground (arith, drop-to_lower 2 host);
      host = inl valid;
    })
    by_result (inr (inl valid, q)) =
        rw q (record { raw = refl; port = hp; lowered = hl; host = inl valid })
    by_result (inr (inr ip, q)) =
        rw q (record { raw = refl; port = hp; lowered = hl; host = inr (refl, ip) })

-- Every pattern that ParsePattern returns is well formed.
pub parse_pattern-IsWellFormed :
    (s : Bytes) (p : Pattern) → parse_pattern s ≡ ok p → IsWellFormed s p
unfolding parse_pattern
parse_pattern-IsWellFormed s p e =
    let ((h, port), e', q) = >>=-eq-ok (host_and_port s (split_host_port s)) _ (passed e) in
    pattern_of-IsWellFormed s (bare_host h) port p (port_bound s h (split_host_port s) port e')
      (bare_host-lowered h) q
  where
    passed :
        (if str_eq s (codes "")
            then err PatternError.empty_pattern
            else (host_and_port s (split_host_port s) >>= λ (h, port).
                pattern_of s (bare_host h) port))
          ≡ ok p
        → (host_and_port s (split_host_port s) >>= λ (h, port). pattern_of s (bare_host h) port)
          ≡ ok p
    passed k = ground arith
