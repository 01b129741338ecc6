-- ===== src/Manifest/Normalized/RoundTrip.antt =====
-- The stored form keeps the texts of the patterns.
use funcbox.Prelude.{◌≡◌, refl, Bytes, List, [], ◌∷◌}
use funcbox.Policy.Pattern.{Pattern}
use funcbox.Policy.Pattern.Parsing.{parse_pattern-IsWellFormed}
use funcbox.Manifest.Parse.Sound.{Parses}
use funcbox.Manifest.Normalized.{pattern_strings}

-- The patterns' texts are those that were written.
pub pattern_strings-Parses :
    (ss : List Bytes) (ps : List Pattern) → Parses ss ps → pattern_strings ps ≡ ss
unfolding pattern_strings
pattern_strings-Parses [] [] h = refl
pattern_strings-Parses [] (p ∷ ps) h = absurd h
pattern_strings-Parses (s ∷ ss) [] h = absurd h
pattern_strings-Parses (s ∷ ss) (p ∷ ps) h =
    cc ((parse_pattern-IsWellFormed s p h.0).raw, pattern_strings-Parses ss ps h.1)
