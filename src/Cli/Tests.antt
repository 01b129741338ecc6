-- ===== src/Cli/Tests.antt =====
-- Runs of the ignore rules, and their theorems at concrete inputs.
use funcbox.Prelude.{◌≡◌, refl, ◌↔◌, ◌⊎◌, true, false, Bytes, codes, List, [], ◌∷◌, ◌++◌}
use funcbox.Go.Strings.{split}
use funcbox.Cli.Ignore.{IgnoreRule, new_matcher, ignores, rule_matches}
use funcbox.Cli.Ignore.LastMatch.{ExcludedBy, ignores_iff}
use funcbox.Cli.Ignore.Segments.{SegmentsMatch, rule_matches_iff}

abbrev logs : IgnoreRule
logs = record { negate = false; dir_only = false; anchored = false; segments = codes "*.log" ∷ [] }

abbrev kept_log : IgnoreRule
kept_log = record {
  negate = true;
  dir_only = false;
  anchored = true;
  segments = codes "src" ∷ codes "**" ∷ codes "a.log" ∷ [];
}

new_matcher_run : new_matcher (codes "*.log" ++ 10 ∷ codes "!/src/**/a.log") ≡ logs ∷ kept_log ∷ []
unfolding new_matcher
new_matcher_run = refl

ignores_run :
    (ignores (logs ∷ kept_log ∷ []) (codes "src/x/a.log") false ≡ false)
    × (ignores (logs ∷ kept_log ∷ []) (codes "src/b.log") false ≡ true)
unfolding ignores
ignores_run = (refl, refl)

ignores_iff_example :
    (ignores (logs ∷ kept_log ∷ []) (codes "src/b.log") false ≡ true)
    ↔ ExcludedBy (logs ∷ kept_log ∷ []) (split 47 (codes "src/b.log")) false
ignores_iff_example = ignores_iff (logs ∷ kept_log ∷ []) (codes "src/b.log") false refl

rule_matches_iff_example : (rule_matches logs (codes "src" ∷ codes "b.log" ∷ []) ≡ true) ↔ (
    (skipped : List Bytes) × (rest : List Bytes) × ((codes "src" ∷ codes "b.log" ∷ [])
      ≡ skipped ++ rest)
    × ((false ≡ false) ⊎ (skipped ≡ []))
    × SegmentsMatch (codes "*.log" ∷ []) rest)
rule_matches_iff_example = rule_matches_iff logs (codes "src" ∷ codes "b.log" ∷ [])
