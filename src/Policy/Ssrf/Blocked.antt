-- ===== src/Policy/Ssrf/Blocked.antt =====
-- Which IPv4 addresses the guard blocks.
use funcbox.Prelude.{
  ℕ, ◌≤◌, ◌<◌, ◌≡◌, ◌↔◌, ◌⊎◌, true, some, [], ◌∷◌, arith, str_eq_iff, length, get_or, none,
}
use funcbox.Go.Net.Ip.{Ip, v4_mapped}
use funcbox.Policy.Ssrf.{blocked_ip, to4, ipv6_loopback, ipv6_unspecified, ipv4_zero}

-- 127.0.0.0/8, 169.254.0.0/16, 224.0.0.0/4, 0.0.0.0 and 100.100.100.200
abbrev pub InBlockedRange : ℕ → ℕ → ℕ → ℕ → Type 0
InBlockedRange a b c d =
    (a ≡ 127)
    ⊎ ((a ≡ 169) × (b ≡ 254))
    ⊎ ((224 ≤ a) × (a ≤ 239))
    ⊎ ((a ≡ 0) × (b ≡ 0) × (c ≡ 0) × (d ≡ 0))
    ⊎ ((a ≡ 100) × (b ≡ 100) × (c ≡ 100) × (d ≡ 200))

-- An IPv4 address is blocked exactly when it lies in one of the five ranges, also when it is written
-- as an IPv4-mapped IPv6 address.
pub blocked_ip_v4_iff :
    (a b c d : ℕ)
    → (blocked_ip (some (v4_mapped (a ∷ b ∷ c ∷ d ∷ []))) ≡ true) ↔ InBlockedRange a b c d
unfolding blocked_ip
blocked_ip_v4_iff a b c d = (λ h. ground arith, λ h. ground arith)

pub blocked_ip_short_form :
    (a b c d : ℕ)
    → blocked_ip (some (a ∷ b ∷ c ∷ d ∷ [])) ≡ blocked_ip (some (v4_mapped (a ∷ b ∷ c ∷ d ∷ [])))
unfolding blocked_ip
blocked_ip_short_form a b c d = ground arith

-- An address of 16 bytes with no IPv4 form is blocked exactly when it is ::1 or ::, or lies in
-- fe80::/10 or ff00::/8.
pub blocked_ip_v6_iff :
    (ip : Ip)
    → length ip ≡ 16
    → to4 ip ≡ none
    → (blocked_ip (some ip) ≡ true) ↔ (
        (ip ≡ ipv6_loopback)
        ⊎ (ip ≡ ipv6_unspecified)
        ⊎ ((get_or ip 0 0 ≡ 254) × (128 ≤ get_or ip 1 0) × (get_or ip 1 0 < 192))
        ⊎ (get_or ip 0 0 ≡ 255))
unfolding blocked_ip to4
blocked_ip_v6_iff ip n none4 = (
  λ h.
      ground (
        arith,
        str_eq_iff ip ipv6_loopback,
        str_eq_iff ip ipv6_unspecified,
        str_eq_iff ip ipv4_zero,
      ),
  λ h.
      ground (
        arith,
        str_eq_iff ip ipv6_loopback,
        str_eq_iff ip ipv6_unspecified,
        str_eq_iff ip ipv4_zero,
      ),
)
