-- ===== src/Go/Tests.antt =====
-- Runs of the standard library's functions.
use funcbox.Prelude.{◌≡◌, refl, none, some, codes, [], ◌∷◌, ok, err}
use funcbox.Go.Net.HostPort.{split_host_port, missing_port, too_many_colons}
use funcbox.Go.Net.Ip.{parse_ip, v4_mapped}
use funcbox.Go.Strconv.{atoi, itoa, pos, negsuc}
use funcbox.Go.Strings.{trim_space, split, cut}

host_port_runs :
    (split_host_port (codes "a.b:80") ≡ ok (codes "a.b", codes "80"))
    × (split_host_port (codes "[::1]:80") ≡ ok (codes "::1", codes "80"))
    × (split_host_port (codes "[::1]") ≡ err missing_port)
    × (split_host_port (codes "::1") ≡ err too_many_colons)
unfolding split_host_port
host_port_runs = (refl, refl, refl, refl)

ip_runs :
    (parse_ip (codes "10.0.3.7") ≡ some (v4_mapped (10 ∷ 0 ∷ 3 ∷ 7 ∷ [])))
    × (parse_ip (codes "10.0.03.7") ≡ none)
    × (parse_ip (codes "1.2.3") ≡ none)
    × (parse_ip (codes "256.2.3.4") ≡ none)
    × (parse_ip (codes "::1")
        ≡ some (0 ∷ 0 ∷ 0 ∷ 0 ∷ 0 ∷ 0 ∷ 0 ∷ 0 ∷ 0 ∷ 0 ∷ 0 ∷ 0 ∷ 0 ∷ 0 ∷ 0 ∷ 1 ∷ []))
    × (parse_ip (codes "fe80::1:ab")
        ≡ some (254 ∷ 128 ∷ 0 ∷ 0 ∷ 0 ∷ 0 ∷ 0 ∷ 0 ∷ 0 ∷ 0 ∷ 0 ∷ 0 ∷ 0 ∷ 1 ∷ 0 ∷ 171 ∷ []))
    × (parse_ip (codes "::ffff:1.2.3.4") ≡ some (v4_mapped (1 ∷ 2 ∷ 3 ∷ 4 ∷ [])))
    × (parse_ip (codes "1:2:3:4:5:6:7:8::") ≡ none)
    × (parse_ip (codes "1:2:3:4:5:6:7:8")
        ≡ some (0 ∷ 1 ∷ 0 ∷ 2 ∷ 0 ∷ 3 ∷ 0 ∷ 4 ∷ 0 ∷ 5 ∷ 0 ∷ 6 ∷ 0 ∷ 7 ∷ 0 ∷ 8 ∷ []))
    × (parse_ip (codes "fe80::1%eth0") ≡ none)
    × (parse_ip (codes "example.com") ≡ none)
unfolding parse_ip
ip_runs = (refl, refl, refl, refl, refl, refl, refl, refl, refl, refl, refl)

number_runs :
    (atoi (codes "-12") ≡ some (negsuc 11))
    × (atoi (codes "+8") ≡ some (pos 8))
    × (atoi (codes "8x") ≡ none)
    × (atoi (codes "9223372036854775808") ≡ none)
    × (itoa 4096 ≡ codes "4096")
unfolding atoi itoa
number_runs = (refl, refl, refl, refl, refl)

text_runs :
    (trim_space (codes " a b ") ≡ codes "a b")
    × (split b'/' (codes "a//b") ≡ codes "a" ∷ codes "" ∷ codes "b" ∷ [])
    × (cut b'@' (codes "me@x") ≡ some (codes "me", codes "x"))
unfolding trim_space split cut
text_runs = (refl, refl, refl)
