-- ===== src/Manifest/Reserved.antt =====
-- manifest/reserved.go: names that collide with routes.
use funcbox.Prelude.{Bool, true, false, ◌||◌, Bytes, codes, str_eq, List, [], ◌∷◌, if◌then◌else◌}
use funcbox.Go.Strings.{has_prefix}

abbrev pub reserved_names : List Bytes
reserved_names =
    codes "dashboard"
    ∷ codes "api"
    ∷ codes "auth"
    ∷ codes "dev"
    ∷ codes "assets"
    ∷ codes "healthz"
    ∷ codes "metrics"
    ∷ codes "run"
    ∷ codes "www"
    ∷ codes "admin"
    ∷ codes "status"
    ∷ codes "favicon.ico"
    ∷ codes "robots.txt"
    ∷ []

-- a look-up in `reservedNameSet`
unfoldable pub in_set : List Bytes → Bytes → Bool
unfolding str_eq
in_set [] name = false
in_set (n ∷ ns) name = str_eq n name || in_set ns name

unfoldable pub is_reserved : Bytes → Bool
unfolding has_prefix in_set
is_reserved name =
    if has_prefix name (codes "_") || has_prefix name (codes "xn--")
    then true
    else in_set reserved_names name
