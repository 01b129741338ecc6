-- ===== src/Policy/Tests.antt =====
-- Runs of package policy, and its theorems at concrete inputs.
use funcbox.Prelude.{
  ◌≤◌, ◌≡◌, refl, ◌↔◌, ◌⊎◌, true, false, not, ◌&&◌, Bytes, codes, [], ◌∷◌, ◌++◌, some, none,
  is_empty, all, get_or, ◌<◌, ok, arith,
}
use funcbox.Go.Strings.{to_lower}
use funcbox.Go.Strconv.{itoa}
use funcbox.Go.Net.Ip.{Ip, v4_mapped}
use funcbox.Policy.Pattern.{Pattern, matches, parse_pattern, is_valid_hostname, request_host}
use funcbox.Policy.Pattern.Matching.{AllowsPort, HostMatches, matches_iff}
use funcbox.Policy.Pattern.Parsing.{IsWellFormed, parse_pattern-IsWellFormed}
use funcbox.Policy.Pattern.RoundTrip.{pattern_text, parse_pattern-port}
use funcbox.Policy.Fetch.{FetchPolicy, allowlist, allow_all, effective, decision}
use funcbox.Policy.Fetch.Intersection.{level_allows, decision-effective}
use funcbox.Policy.Ssrf.{blocked_ip, to4, ipv6_loopback, ipv6_unspecified}
use funcbox.Policy.Ssrf.Blocked.{InBlockedRange, blocked_ip_v4_iff, blocked_ip_v6_iff}

abbrev api_host : Bytes
api_host = codes "API.example.com."

abbrev wildcard : Pattern
wildcard = record {
  raw = codes "*.example.com";
  host = codes "example.com";
  wildcard = true;
  port = 0;
}

abbrev port_8443 : Pattern
port_8443 = record { raw = codes "a.b:8443"; host = codes "a.b"; wildcard = false; port = 8443 }

abbrev org_level : FetchPolicy
org_level = record { mode = allow_all; allow = [] }

abbrev manifest_level : FetchPolicy
manifest_level = record { mode = allowlist; allow = wildcard ∷ port_8443 ∷ [] }

matches_run : matches wildcard api_host 443 ≡ true
unfolding matches
matches_run = refl

decision_run : decision (effective (org_level ∷ manifest_level ∷ [])) (codes "a.b") 80 ≡ false
unfolding decision effective
decision_run = refl

matches_iff_example :
    (matches wildcard api_host 443 ≡ true)
    ↔ (AllowsPort wildcard 443 × HostMatches true (codes "example.com") (request_host api_host))
matches_iff_example = matches_iff wildcard api_host 443

decision-effective_example :
    decision (effective (org_level ∷ manifest_level ∷ [])) (codes "x.example.com") 443 ≡ (
      not (is_empty (org_level ∷ manifest_level ∷ []))
      && all (level_allows (codes "x.example.com") 443) (org_level ∷ manifest_level ∷ []))
decision-effective_example =
    decision-effective (org_level ∷ manifest_level ∷ []) (codes "x.example.com") 443

parse_pattern_run : parse_pattern (codes "a.b:8443") ≡ ok port_8443
unfolding parse_pattern
parse_pattern_run = refl

parse_pattern-IsWellFormed_example : IsWellFormed (codes "a.b:8443") port_8443
parse_pattern-IsWellFormed_example =
    parse_pattern-IsWellFormed (codes "a.b:8443") port_8443 parse_pattern_run

is_valid_hostname_run : is_valid_hostname (codes "a.b") ≡ true
unfolding is_valid_hostname
is_valid_hostname_run = refl

to_lower_run : to_lower (codes "a.b") ≡ codes "a.b"
unfolding to_lower
to_lower_run = refl

parse_pattern-port_example :
    parse_pattern (pattern_text true (codes "a.b") ++ 58 ∷ itoa 443)
    ≡ ok (record {
      raw = pattern_text true (codes "a.b") ++ 58 ∷ itoa 443;
      host = codes "a.b";
      wildcard = true;
      port = 443;
    })
parse_pattern-port_example =
    parse_pattern-port true (codes "a.b") 443 is_valid_hostname_run to_lower_run (omega arith)
      (omega arith)

blocked_ip_v4_iff_example :
    (blocked_ip (some (v4_mapped (169 ∷ 254 ∷ 169 ∷ 254 ∷ []))) ≡ true)
    ↔ InBlockedRange 169 254 169 254
blocked_ip_v4_iff_example = blocked_ip_v4_iff 169 254 169 254

abbrev link_local : Ip
link_local = 254 ∷ 128 ∷ 0 ∷ 0 ∷ 0 ∷ 0 ∷ 0 ∷ 0 ∷ 0 ∷ 0 ∷ 0 ∷ 0 ∷ 0 ∷ 0 ∷ 0 ∷ 1 ∷ []

to4_run : to4 link_local ≡ none
unfolding to4
to4_run = refl

blocked_ip_v6_iff_example : (blocked_ip (some link_local) ≡ true) ↔ (
    (link_local ≡ ipv6_loopback)
    ⊎ (link_local ≡ ipv6_unspecified)
    ⊎ ((get_or link_local 0 0 ≡ 254)
        × (128 ≤ get_or link_local 1 0)
        × (get_or link_local 1 0 < 192))
    ⊎ (get_or link_local 0 0 ≡ 255))
blocked_ip_v6_iff_example = blocked_ip_v6_iff link_local (omega arith) to4_run
