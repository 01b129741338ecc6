-- ===== src/Policy/Ssrf.antt =====
-- policy/ssrf.go: the addresses that are never dialed, with the tests of package net that it calls.
pub mod Blocked
use funcbox.Prelude.{
  ℕ, ◌/◌, ◌%◌, Bool, true, false, ◌&&◌, ◌||◌, Option, none, some, List, [], ◌∷◌, ◌==◌, length, take,
  drop, all, get_or, if◌then◌else◌, str_eq,
}
use funcbox.Go.Net.Ip.{Ip, v4_mapped, zeros}

abbrev byte : Ip → ℕ → ℕ
byte ip i = get_or ip i 0

-- (IP).To4
unfoldable pub to4 : Ip → Option (List ℕ)
to4 ip =
    if length ip == 4
    then some ip
    else if length ip == 16
        && all (λ b. b == 0) (take 10 ip)
        && byte ip 10 == 255
        && byte ip 11 == 255
    then some (drop 12 ip)
    else none

-- (IP).Equal with an address of 16 bytes: an IPv4 address equals its mapped form.
unfoldable pub ip_equal : Ip → Ip → Bool
unfolding str_eq
ip_equal ip x = if length ip == 4 then str_eq (v4_mapped ip) x else str_eq ip x

abbrev pub ipv6_loopback : Ip
ipv6_loopback = 0 ∷ 0 ∷ 0 ∷ 0 ∷ 0 ∷ 0 ∷ 0 ∷ 0 ∷ 0 ∷ 0 ∷ 0 ∷ 0 ∷ 0 ∷ 0 ∷ 0 ∷ 1 ∷ []

abbrev pub ipv6_unspecified : Ip
ipv6_unspecified = 0 ∷ 0 ∷ 0 ∷ 0 ∷ 0 ∷ 0 ∷ 0 ∷ 0 ∷ 0 ∷ 0 ∷ 0 ∷ 0 ∷ 0 ∷ 0 ∷ 0 ∷ 0 ∷ []

abbrev ipv4_zero : Ip
ipv4_zero = v4_mapped (0 ∷ 0 ∷ 0 ∷ 0 ∷ [])

abbrev on_v4 : Option (List ℕ) → (List ℕ → Bool) → Bool → Bool
on_v4 none v4 v6 = v6
on_v4 (some ip4) v4 v6 = v4 ip4

-- IsLoopback
unfoldable pub is_loopback : Ip → Bool
unfolding to4 ip_equal
is_loopback ip = on_v4 (to4 ip) (λ ip4. byte ip4 0 == 127) (ip_equal ip ipv6_loopback)

-- IsLinkLocalUnicast: `ip[1] & 0xc0 == 0x80` of a byte is `ip[1] / 64 == 2`.
unfoldable pub is_link_local_unicast : Ip → Bool
unfolding to4
is_link_local_unicast ip =
    on_v4 (to4 ip) (λ ip4. byte ip4 0 == 169 && byte ip4 1 == 254)
      (length ip == 16 && byte ip 0 == 254 && byte ip 1 / 64 == 2)

-- IsLinkLocalMulticast: `ip[1] & 0x0f` is `ip[1] % 16`.
unfoldable pub is_link_local_multicast : Ip → Bool
unfolding to4
is_link_local_multicast ip =
    on_v4 (to4 ip) (λ ip4. byte ip4 0 == 224 && byte ip4 1 == 0 && byte ip4 2 == 0)
      (length ip == 16 && byte ip 0 == 255 && byte ip 1 % 16 == 2)

-- IsInterfaceLocalMulticast
unfoldable pub is_interface_local_multicast : Ip → Bool
is_interface_local_multicast ip = length ip == 16 && byte ip 0 == 255 && byte ip 1 % 16 == 1

-- IsUnspecified
unfoldable pub is_unspecified : Ip → Bool
unfolding ip_equal
is_unspecified ip = ip_equal ip ipv4_zero || ip_equal ip ipv6_unspecified

-- IsMulticast: `ip4[0] & 0xf0 == 0xe0` of a byte is `ip4[0] / 16 == 14`.
unfoldable pub is_multicast : Ip → Bool
unfolding to4
is_multicast ip =
    on_v4 (to4 ip) (λ ip4. byte ip4 0 / 16 == 14) (length ip == 16 && byte ip 0 == 255)

-- `ip4.Equal(alibabaMetadataIP)` behind the test that `ip` has an IPv4 form
unfoldable pub is_alibaba : Option (List ℕ) → Bool
unfolding ip_equal
is_alibaba none = false
is_alibaba (some ip4) = ip_equal ip4 (v4_mapped (100 ∷ 100 ∷ 100 ∷ 200 ∷ []))

unfoldable pub blocked_ip : Option Ip → Bool
unfolding is_loopback is_link_local_unicast is_link_local_multicast is_interface_local_multicast
    is_unspecified is_multicast is_alibaba
blocked_ip none = true
blocked_ip (some ip) =
    if is_loopback ip
      || is_link_local_unicast ip
      || is_link_local_multicast ip
      || is_interface_local_multicast ip
      || is_unspecified ip
      || is_multicast ip
    then true
    else is_alibaba (to4 ip)
