-- ===== src/Policy/Pattern/Matching.antt =====
-- What (Pattern).Matches decides.
use funcbox.Prelude.{
  ℕ, ◌-◌, ◌≡◌, ◌≢◌, refl, ◌↔◌, ◌⊎◌, inl, inr, ap, Bool, true, false, not, ◌&&◌, [], ◌∷◌, ◌++◌,
  Bytes, ◌==◌, length, arith, length-append, str_eq, str_eq_iff, codes, take, drop, if◌then◌else◌,
  Bool-cases,
}
use funcbox.Go.Chars.{lower}
use funcbox.Go.Strings.{has_suffix, trim_suffix, to_lower}
use funcbox.Go.Strings.Laws.{
  has_suffix→append, has_suffix-append, length-to_lower, drop-to_lower, take-to_lower,
  to_lower_idem,
}
use funcbox.Policy.Pattern.{Pattern, port_matches, host_matches, request_host, matches}

-- The ports that a pattern allows; 0 asks whether there is such a port.
abbrev pub AllowsPort : Pattern → ℕ → Type 0
AllowsPort p port =
    (port ≡ 0) ⊎ ((p.port ≢ 0) × (port ≡ p.port)) ⊎ ((p.port ≡ 0) × ((port ≡ 80) ⊎ (port ≡ 443)))

-- A wildcard pattern stands for every text that ends in a dot and its domain.
abbrev pub HostMatches : Bool → Bytes → Bytes → Type 0
HostMatches true domain host = (sub : Bytes) × (host ≡ sub ++ b'.' ∷ domain)
HostMatches false domain host = host ≡ domain

port_matches_iff : (p : Pattern) (port : ℕ) → (port_matches p port ≡ true) ↔ AllowsPort p port
unfolding port_matches
port_matches_iff p port = (λ h. ground arith, λ h. ground arith)

not-self_suffix : (sub domain : Bytes) → str_eq (sub ++ b'.' ∷ domain) domain ≡ false
not-self_suffix sub domain = elim (Bool-cases (str_eq (sub ++ b'.' ∷ domain) domain)) [
  | inl e ↦ absurd (
      omega (
        arith,
        length-append sub (b'.' ∷ domain),
        ap (λ (l : Bytes). length l) ((str_eq_iff (sub ++ b'.' ∷ domain) domain).0 e),
      ))
  | inr e ↦ e
]

wildcard_iff :
    (domain host : Bytes)
    → (has_suffix host (b'.' ∷ domain) && not (str_eq host domain) ≡ true)
      ↔ HostMatches true domain host
wildcard_iff domain host = (
  λ h. (
    take (length host - length (b'.' ∷ domain)) host,
    has_suffix→append host (b'.' ∷ domain) (ground arith),
  ),
  λ (sub, e). rw e (rw (has_suffix-append sub (b'.' ∷ domain)) (rw (not-self_suffix sub domain))),
)

host_matches_iff :
    (wildcard : Bool) (p : Pattern) (host : Bytes)
    → p.wildcard ≡ wildcard
    → (host_matches p host ≡ true) ↔ HostMatches wildcard p.host host
unfolding host_matches
host_matches_iff true p host e = rw e (wildcard_iff p.host host)
host_matches_iff false p host e = rw e (str_eq_iff host p.host)

-- A request matches exactly when the pattern allows its port and, case and one final dot apart,
-- its host is the pattern's host or, for a wildcard, ends in a dot and the pattern's domain.
pub matches_iff :
    (p : Pattern) (host : Bytes) (port : ℕ)
    → (matches p host port ≡ true)
      ↔ (AllowsPort p port × HostMatches p.wildcard p.host (request_host host))
unfolding matches
matches_iff p host port =
    let ports = port_matches_iff p port in
    let hosts = host_matches_iff p.wildcard p (request_host host) refl in
    (
      λ h. (ports.0 (ground arith), hosts.0 (ground arith)),
      λ h. ground (arith, ports.1 h.0, hosts.1 h.1),
    )

-- The check at port 0 passes exactly when the check at some real port does.
pub matches_some_port :
    (p : Pattern) (host : Bytes)
    → (matches p host 0 ≡ true) ↔ ((port : ℕ) × (port ≢ 0) × (matches p host port ≡ true))
unfolding matches port_matches
matches_some_port p host = (
  λ h. (if p.port == 0 then 80 else p.port, ground arith, ground arith),
  λ (port, ne, h). ground arith,
)

dot_suffix-lower : (s : Bytes) → str_eq (to_lower s) (codes ".") ≡ str_eq s (codes ".")
unfolding str_eq to_lower lower
dot_suffix-lower [] = refl
dot_suffix-lower (c ∷ []) = ground arith
dot_suffix-lower (c ∷ d ∷ s) = ground arith

request_host-to_lower : (s : Bytes) → request_host (to_lower s) ≡ request_host s
unfolding request_host trim_suffix has_suffix
request_host-to_lower s = rw (length-to_lower s) (
    ground (
      arith,
      drop-to_lower (length s - 1) s,
      take-to_lower (length s - 1) s,
      dot_suffix-lower (drop (length s - 1) s),
      to_lower_idem s,
      to_lower_idem (take (length s - 1) s),
    ))

-- Matching does not see the case of the request's host.
pub matches-to_lower :
    (p : Pattern) (host : Bytes) (port : ℕ) → matches p (to_lower host) port ≡ matches p host port
unfolding matches
matches-to_lower p host port = rw (request_host-to_lower host)
