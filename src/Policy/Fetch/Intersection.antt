-- ===== src/Policy/Fetch/Intersection.antt =====
-- Effective and Decision together allow exactly the intersection of the levels.
use funcbox.Prelude.{
  ℕ, ◌≡◌, refl, ◌∙◌, ◌≢◌, ap, Bool, true, false, not, ◌&&◌, Bytes, List, [], ◌∷◌, ltb, all,
  is_empty, if◌then◌else◌, arith,
}
use funcbox.Policy.Pattern.{Pattern}
use funcbox.Policy.Fetch.{
  FetchMode, deny, allowlist, allow_all, rank, FetchPolicy, least_mode, is_allowlist, constrained,
  effective, any_pattern_matches, every_level_matches, decide_by, decision,
}

-- What one level allows by itself.
abbrev permits : FetchMode → Bool → Bool
permits deny matched = false
permits allowlist matched = matched
permits allow_all matched = true

abbrev pub level_allows : Bytes → ℕ → FetchPolicy → Bool
level_allows host port l = permits l.mode (any_pattern_matches l.allow host port)

abbrev lesser : FetchMode → FetchMode → FetchMode
lesser m n = if ltb (rank m) (rank n) then m else n

module _ (host : Bytes) (port : ℕ) where
  -- what is decided for the levels `ls`, where `acc` is the least mode of earlier levels
  from_mode : FetchMode → List FetchPolicy → Bool
  from_mode acc ls = decide_by (least_mode acc ls) (constrained ls) host port

  deny_stays : (ls : List FetchPolicy) → least_mode deny ls ≡ deny
  unfolding least_mode
  deny_stays [] = refl
  deny_stays (l ∷ ls) = by_mode l.mode (deny_stays ls)
    where
      by_mode : (m : FetchMode) → least_mode deny ls ≡ deny → least_mode (lesser m deny) ls ≡ deny
      by_mode deny h = h
      by_mode allowlist h = h
      by_mode allow_all h = h

  -- An allowlist among earlier levels changes nothing in the decision on the later ones.
  allowlist_stays : (ls : List FetchPolicy) → from_mode allowlist ls ≡ from_mode allow_all ls
  unfolding from_mode least_mode constrained decide_by every_level_matches
  allowlist_stays [] = refl
  allowlist_stays (l ∷ ls) = by_mode l l.mode refl (allowlist_stays ls)
    where
      by_mode :
          (l : FetchPolicy) (m : FetchMode)
          → l.mode ≡ m
          → from_mode allowlist ls ≡ from_mode allow_all ls
          → from_mode allowlist (l ∷ ls) ≡ from_mode allow_all (l ∷ ls)
      by_mode l deny e h = rw e refl
      by_mode l allowlist e h = rw e refl
      by_mode l allow_all e h = rw e h

  below_allowlist : (ls : List FetchPolicy) → least_mode allowlist ls ≢ allow_all
  unfolding least_mode
  below_allowlist [] h = cc
  below_allowlist (l ∷ ls) h = by_mode l.mode (below_allowlist ls) (deny_stays ls) h
    where
      by_mode :
          (m : FetchMode)
          → least_mode allowlist ls ≢ allow_all
          → least_mode deny ls ≡ deny
          → least_mode (lesser m allowlist) ls ≢ allow_all
      by_mode deny n d h = cc
      by_mode allowlist n d h = n h
      by_mode allow_all n d h = n h

  one_allowlist :
      (m : FetchMode) (matched : Bool) (l : FetchPolicy) (ls : List FetchPolicy)
      → any_pattern_matches l.allow host port ≡ matched
      → m ≢ allow_all
      → decide_by m (l ∷ ls) host port ≡ (matched && decide_by m ls host port)
  unfolding decide_by every_level_matches
  one_allowlist deny matched l ls e n = ground arith
  one_allowlist allowlist matched l ls e n = ground arith
  one_allowlist allow_all matched l ls e n = absurd (n refl)

  from_mode-cons :
      (m : FetchMode) (allow : List Pattern) (ls : List FetchPolicy)
      → from_mode allow_all (record { mode = m; allow = allow } ∷ ls)
        ≡ (permits m (any_pattern_matches allow host port) && from_mode allow_all ls)
  from_mode-cons deny allow ls =
      unfold from_mode least_mode constrained rank in rw (deny_stays ls) (unfold decide_by in refl)
  from_mode-cons allowlist allow ls =
      unfold from_mode least_mode constrained rank in
      one_allowlist (least_mode allowlist ls) _ (record { mode = allowlist; allow = allow })
        (constrained ls) refl (below_allowlist ls)
      ∙ ap (λ b. any_pattern_matches allow host port && b) (allowlist_stays ls)
  from_mode-cons allow_all allow ls = unfold from_mode least_mode constrained rank in refl

  from_mode-all : (ls : List FetchPolicy) → from_mode allow_all ls ≡ all (level_allows host port) ls
  from_mode-all [] = unfold from_mode least_mode decide_by in refl
  from_mode-all (l ∷ ls) = from_mode-cons l.mode l.allow ls ∙ ground (arith, from_mode-all ls)

only_if_needed :
    (m : FetchMode) (ls : List FetchPolicy) (host : Bytes) (port : ℕ)
    → decide_by m (if is_allowlist m then ls else []) host port ≡ decide_by m ls host port
unfolding decide_by is_allowlist
only_if_needed deny ls host port = refl
only_if_needed allowlist ls host port = refl
only_if_needed allow_all ls host port = refl

-- A request is allowed exactly when there is a level and every level allows it: levels that allow
-- all do not constrain it, and a level that denies, or whose allowlist does not match, refuses it.
pub decision-effective :
    (levels : List FetchPolicy) (host : Bytes) (port : ℕ)
    → decision (effective levels) host port
      ≡ (not (is_empty levels) && all (level_allows host port) levels)
unfolding from_mode
decision-effective [] host port = unfold decision effective in refl
decision-effective (l ∷ ls) host port =
    unfold decision effective in
    only_if_needed (least_mode allow_all (l ∷ ls)) (constrained (l ∷ ls)) host port
    ∙ from_mode-all host port (l ∷ ls)
