-- ===== src/Cli/Ignore/Segments.antt =====
-- Which paths the segments of a pattern match.
use funcbox.Prelude.{
  ◌≡◌, ◌≢◌, ◌∙◌, refl, sym, ap, ◌↔◌, ◌⊎◌, inl, inr, true, false, Bytes, List, [], ◌∷◌, ◌++◌, arith,
  Bool-cases,
}
use funcbox.Go.Match.{glob_match}
use funcbox.Cli.Ignore.{is_any_depth, segments_match, some_suffix_matches, rule_matches, IgnoreRule}

true≢false : true ≢ false
true≢false e = cc

-- `**` stands for any segments, every other segment for one that its shell pattern matches.
abbrev pub SegmentsMatch : List Bytes → List Bytes → Type 0
SegmentsMatch [] segs = segs ≡ []
SegmentsMatch (p ∷ pattern) segs =
    ((is_any_depth p ≡ true)
      × (skipped : List Bytes) × (rest : List Bytes) × (segs ≡ skipped ++ rest)
      × SegmentsMatch pattern rest)
    ⊎ ((is_any_depth p ≡ false)
        × (s : Bytes) × (rest : List Bytes) × (segs ≡ s ∷ rest)
        × (glob_match p s ≡ true)
        × SegmentsMatch pattern rest)

segments_match→ :
    (pattern segs : List Bytes) → segments_match pattern segs ≡ true → SegmentsMatch pattern segs
unfolding segments_match
segments_match→ [] [] h = refl
segments_match→ [] (s ∷ segs) h = cc
segments_match→ (p ∷ pattern) [] h = elim (Bool-cases (is_any_depth p)) [
  | inl e ↦ inl (e, [], [], refl, segments_match→ pattern [] (ground arith))
  | inr e ↦ absurd (ground arith)
]
segments_match→ (p ∷ pattern) (s ∷ segs) h = elim (Bool-cases (is_any_depth p)) [
  | inl e ↦ elim (Bool-cases (segments_match pattern (s ∷ segs))) [
    | inl f ↦ inl (e, [], s ∷ segs, refl, segments_match→ pattern (s ∷ segs) f)
    | inr f ↦ longer e (segments_match→ (p ∷ pattern) segs (ground arith))
  ]
  | inr e ↦ inr (e, s, segs, refl, ground arith, segments_match→ pattern segs (ground arith))
]
  where
    longer :
        is_any_depth p ≡ true
        → SegmentsMatch (p ∷ pattern) segs
        → SegmentsMatch (p ∷ pattern) (s ∷ segs)
    longer e (inl (_, skipped, rest, q, m)) =
        inl (e, s ∷ skipped, rest, ap (λ (l : List Bytes). s ∷ l) q, m)
    longer e (inr m) = absurd (true≢false (sym e ∙ m.0))

any_depth_skips :
    (p : Bytes) (pattern skipped rest : List Bytes)
    → is_any_depth p ≡ true
    → segments_match pattern rest ≡ true
    → segments_match (p ∷ pattern) (skipped ++ rest) ≡ true
unfolding segments_match
any_depth_skips p pattern [] [] e h = ground arith
any_depth_skips p pattern [] (s ∷ rest) e h = ground arith
any_depth_skips p pattern (s ∷ skipped) rest e h =
    ground (arith, any_depth_skips p pattern skipped rest e h)

segments_match← :
    (pattern segs : List Bytes) → SegmentsMatch pattern segs → segments_match pattern segs ≡ true
unfolding segments_match
segments_match← [] segs h = rw h refl
segments_match← (p ∷ pattern) segs (inl (e, skipped, rest, q, m)) =
    rw q (any_depth_skips p pattern skipped rest e (segments_match← pattern rest m))
segments_match← (p ∷ pattern) segs (inr (e, s, rest, q, g, m)) =
    rw q (ground (arith, segments_match← pattern rest m))

segments_match_iff :
    (pattern segs : List Bytes) → (segments_match pattern segs ≡ true) ↔ SegmentsMatch pattern segs
segments_match_iff pattern segs = (segments_match→ pattern segs, segments_match← pattern segs)

-- Segments before the place where an unanchored pattern starts.
some_suffix_matches→ :
    (pattern segs : List Bytes)
    → some_suffix_matches pattern segs ≡ true
    → (skipped : List Bytes) × (rest : List Bytes) × (segs ≡ skipped ++ rest)
      × SegmentsMatch pattern rest
unfolding some_suffix_matches
some_suffix_matches→ pattern [] h = ([], [], refl, segments_match→ pattern [] h)
some_suffix_matches→ pattern (s ∷ segs) h = elim (Bool-cases (segments_match pattern (s ∷ segs))) [
  | inl e ↦ ([], s ∷ segs, refl, segments_match→ pattern (s ∷ segs) e)
  | inr e ↦
      let (skipped, rest, q, m) = some_suffix_matches→ pattern segs (ground arith) in
      (s ∷ skipped, rest, ap (λ (l : List Bytes). s ∷ l) q, m)
]

some_suffix_matches← :
    (pattern skipped rest : List Bytes)
    → segments_match pattern rest ≡ true
    → some_suffix_matches pattern (skipped ++ rest) ≡ true
unfolding some_suffix_matches
some_suffix_matches← pattern [] [] h = ground arith
some_suffix_matches← pattern [] (s ∷ rest) h = ground arith
some_suffix_matches← pattern (s ∷ skipped) rest h =
    ground (arith, some_suffix_matches← pattern skipped rest h)

at_start :
    (pattern skipped rest : List Bytes)
    → (true ≡ false) ⊎ (skipped ≡ [])
    → segments_match pattern rest ≡ true
    → segments_match pattern (skipped ++ rest) ≡ true
at_start pattern skipped rest (inl a) h = absurd (true≢false a)
at_start pattern skipped rest (inr a) h = rw a h

-- A rule matches a path exactly when its segments match the path's or, unless it is anchored, those
-- behind some first segments of the path.
pub rule_matches_iff :
    (rule : IgnoreRule) (segs : List Bytes)
    → (rule_matches rule segs ≡ true) ↔ (
        (skipped : List Bytes) × (rest : List Bytes) × (segs ≡ skipped ++ rest)
        × ((rule.anchored ≡ false) ⊎ (skipped ≡ []))
        × SegmentsMatch rule.segments rest)
unfolding rule_matches
rule_matches_iff rule segs = elim (Bool-cases rule.anchored) [
  | inl e ↦ rw e (
    λ h. ([], segs, refl, inr refl, segments_match→ rule.segments segs h),
    λ (skipped, rest, q, a, m).
        rw q (at_start rule.segments skipped rest a (segments_match← rule.segments rest m)),
  )
  | inr e ↦ rw e (
    λ h.
        let (skipped, rest, q, m) = some_suffix_matches→ rule.segments segs h in
        (skipped, rest, q, inl refl, m),
    λ (skipped, rest, q, a, m).
        rw q
          (some_suffix_matches← rule.segments skipped rest (segments_match← rule.segments rest m)),
  )
]
