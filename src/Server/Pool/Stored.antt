-- ===== src/Server/Pool/Stored.antt =====
-- What buildFetchPolicy makes of the stored form of a fetch permission (manifest/normalized.go).
use funcbox.Prelude.{◌≡◌, refl, Bytes, List, [], ◌∷◌, ok}
use funcbox.Policy.Pattern.{Pattern}
use funcbox.Policy.Fetch.{FetchMode, deny, allowlist, allow_all, to_string, parse_fetch_mode}
use funcbox.Manifest.{FetchPermission, fetch_policy}
use funcbox.Manifest.Parse.{RawFetch, build_fetch_permission}
use funcbox.Manifest.Parse.Sound.{Parses, build_allow-Parses, build_fetch_permission-parts}
use funcbox.Manifest.Normalized.{normalized_fetch}
use funcbox.Manifest.Normalized.RoundTrip.{pattern_strings-Parses}
use funcbox.Server.Pool.{parse_stored, build_fetch_policy, stored_as}

parse_fetch_mode-to_string : (m : FetchMode) → parse_fetch_mode (to_string m) ≡ ok m
unfolding parse_fetch_mode to_string
parse_fetch_mode-to_string deny = refl
parse_fetch_mode-to_string allowlist = refl
parse_fetch_mode-to_string allow_all = refl

parse_stored-Parses : (ss : List Bytes) (ps : List Pattern) → Parses ss ps → parse_stored ss ≡ ok ps
unfolding parse_stored stored_as
parse_stored-Parses [] [] h = refl
parse_stored-Parses [] (p ∷ ps) h = absurd h
parse_stored-Parses (s ∷ ss) [] h = absurd h
parse_stored-Parses (s ∷ ss) (p ∷ ps) h = rw (h.0) (rw (parse_stored-Parses ss ps h.1) refl)

-- The pool of a version reads from the stored form of a fetch permission that was built from a manifest
-- the mode and the patterns of that permission, without an error, and enforces them as the manifest's
-- level.
pub build_fetch_policy-normalized_fetch :
    (raw : RawFetch) (f : FetchPermission)
    → build_fetch_permission raw ≡ ok f
    → build_fetch_policy (normalized_fetch f)
      ≡ ok (record { manifest_level = fetch_policy f; allow = f.allow })
unfolding build_fetch_policy normalized_fetch fetch_policy stored_as
build_fetch_policy-normalized_fetch raw f h =
    let parts = build_fetch_permission-parts raw f h in
    let parsed = build_allow-Parses raw.allow f.allow parts.1 in
    rw (parse_fetch_mode-to_string f.mode) (
      rw (pattern_strings-Parses raw.allow f.allow parsed)
        (rw (parse_stored-Parses raw.allow f.allow parsed) refl))
