-- ===== src/Bundle/Paths/Safe.antt =====
-- A name that normalize_path accepts stays below the directory that it is joined to.
use mathlib.Core.Path.{subst}
use funcbox.Prelude.{
  ℕ, ◌≤◌, ◌≡◌, ◌≢◌, refl, sym, ◌∙◌, ◌⊎◌, inl, inr, Bool, true, false, ◌||◌, Bytes, List, [], ◌∷◌,
  ◌==◌, ltb, length, All, All-map, ok, if_err_iff, ok-injective, if◌then◌else◌, arith, Bool-cases,
  not_ltb→le,
}
use funcbox.Go.Strings.{has_prefix, replace_byte, split, split_head, join, contains_byte}
use funcbox.Go.Strings.Laws.{All-split, split-join}
use funcbox.Go.Path.{
  clean, clean_segments, reverse_onto, slash, dot, dot_dot, is_dot, is_dot_dot, no_bytes,
}
use funcbox.Bundle.Paths.{max_path_length, up, normalize_path, bad_path}
use funcbox.Bundle.Paths.Stacks.{
  IsKept, IsStack, StartsUp, clean_segments-IsStack, clean_segments-IsKept, reverse_onto-All,
  reverse_stack,
}

-- A name of one file or directory.
pub record IsSafeSegment (w : Bytes) : Type 0 where
  pub filled : no_bytes w ≡ false
  pub no_dot : is_dot w ≡ false
  pub no_dot_dot : is_dot_dot w ≡ false
  pub no_slash : contains_byte 47 w ≡ false
  pub no_backslash : contains_byte 92 w ≡ false

-- A relative path without "." and "..", written in one way only.
pub record IsSafePath (p : Bytes) : Type 0 where
  pub segments : All IsSafeSegment (split 47 p)
  pub short : length p ≤ max_path_length

All-split_without :
    (c d : ℕ) (s : Bytes)
    → contains_byte c s ≡ false
    → All (λ w. contains_byte c w ≡ false) (split d s)
unfolding split contains_byte
All-split_without c d [] h = (refl, tt)
All-split_without c d (x ∷ s) h = by_test (split d s) (All-split_without c d s (ground arith))
  where
    by_head :
        (ws : List Bytes)
        → All (λ w. contains_byte c w ≡ false) ws
        → All (λ w. contains_byte c w ≡ false) (split_head x ws)
    by_head [] k = (unfold split_head in ground arith, tt)
    by_head (w ∷ ws) k = unfold split_head in (ground (arith, k.0), k.1)

    by_test :
        (ws : List Bytes)
        → All (λ w. contains_byte c w ≡ false) ws
        → All (λ w. contains_byte c w ≡ false) (if x == d then [] ∷ ws else split_head x ws)
    by_test ws k = elim (Bool-cases (x == d)) [
      | inl e ↦ rw e (refl, k)
      | inr e ↦ rw e (by_head ws k)
    ]

contains_byte-replace : (s : Bytes) → contains_byte 92 (replace_byte 92 47 s) ≡ false
unfolding contains_byte replace_byte
contains_byte-replace [] = refl
contains_byte-replace (x ∷ s) = ground (arith, contains_byte-replace s)

abbrev kept_segments : Bytes → List Bytes
kept_segments norm = clean_segments false (split 47 norm) []

clean_relative :
    (norm : Bytes)
    → has_prefix norm slash ≡ false
    → clean norm ≡ (
        if no_bytes (join 47 (reverse_onto (kept_segments norm) []))
        then dot
        else join 47 (reverse_onto (kept_segments norm) []))
unfolding clean
clean_relative norm h = rw h refl

join-up :
    (rest : List Bytes)
    → (is_dot_dot (join 47 (dot_dot ∷ rest)) || has_prefix (join 47 (dot_dot ∷ rest)) up) ≡ true
unfolding join is_dot_dot has_prefix
join-up [] = refl
join-up (w ∷ ws) = refl

true≢false : true ≢ false
true≢false e = cc

IsKept→safe :
    (ws : List Bytes) → All IsKept ws → All (λ w. is_dot_dot w ≡ false) ws → All IsSafeSegment ws
IsKept→safe [] h k = tt
IsKept→safe (w ∷ ws) h k = (
  record {
    filled = h.0.filled;
    no_dot = h.0.no_dot;
    no_dot_dot = k.0;
    no_slash = h.0.no_slash;
    no_backslash = h.0.no_backslash;
  },
  IsKept→safe ws (h.1) (k.1),
)

no_bytes-join :
    (w : Bytes) (ws : List Bytes) → no_bytes w ≡ false → no_bytes (join 47 (w ∷ ws)) ≡ false
unfolding join no_bytes
no_bytes-join [] ws h = cc
no_bytes-join (x ∷ w) [] h = refl
no_bytes-join (x ∷ w) (v ∷ ws) h = refl

-- `segs` is what Clean keeps, from its first segment.
split_cleaned :
    (segs : List Bytes) (p : Bytes)
    → All IsKept segs
    → StartsUp segs ⊎ All (λ w. is_dot_dot w ≡ false) segs
    → (if no_bytes (join 47 segs) then dot else join 47 segs) ≡ p
    → is_dot p ≡ false
    → is_dot_dot p ≡ false
    → has_prefix p up ≡ false
    → All IsSafeSegment (split 47 p)
split_cleaned [] p k s e d dd u = absurd (true≢false (unfold join no_bytes is_dot in cc))
split_cleaned (w ∷ ws) p k s e d dd u = by_start s
  where
    joined : join 47 (w ∷ ws) ≡ p
    joined = rw (no_bytes-join w ws (k.0.filled)) at e

    by_start :
        StartsUp (w ∷ ws) ⊎ All (λ v. is_dot_dot v ≡ false) (w ∷ ws)
        → All IsSafeSegment (split 47 p)
    by_start (inl (rest, q)) =
        absurd (true≢false (sym (join-up rest) ∙ rw (sym q) (rw joined (rw (dd, u) refl))))
    by_start (inr n) =
        subst (λ q. All IsSafeSegment (split 47 q)) joined
          (subst (All IsSafeSegment)
            (sym (
              split-join 47 w ws
                (All-map IsKept (λ v. contains_byte 47 v ≡ false) (w ∷ ws) (λ v r. r.no_slash) k)))
            (IsKept→safe (w ∷ ws) k n))

-- Every accepted name becomes a path of at most 256 bytes whose segments are names: not empty,
-- neither "." nor "..", with neither slash in them. So it leads below the directory it is joined to.
pub normalize_path-IsSafePath : (name p : Bytes) → normalize_path name ≡ ok p → IsSafePath p
unfolding normalize_path
normalize_path-IsSafePath name p h =
    let norm : Bytes = replace_byte 92 47 name in
    let cleaned : Bytes = clean norm in
    let h1 = (if_err_iff (no_bytes name) bad_path _).0 h in
    let h2 = (if_err_iff (has_prefix norm slash) bad_path _).0 (h1.1) in
    let h3 =
      (if_err_iff (is_dot cleaned || is_dot_dot cleaned || has_prefix cleaned up) bad_path _).0
        (h2.1) in
    let h4 = (if_err_iff (has_prefix cleaned slash) bad_path _).0 (h3.1) in
    let h5 = (if_err_iff (ltb max_path_length (length cleaned)) bad_path _).0 (h4.1) in
    subst IsSafePath (ok-injective (h5.1)) (record {
      segments =
          split_cleaned (reverse_onto (kept_segments norm) []) cleaned
            (reverse_onto-All IsKept (kept_segments norm) [] (kept norm refl) tt)
            (start (kept_segments norm) (clean_segments-IsStack (split 47 norm) [] tt))
            (sym (clean_relative norm (h2.0)))
            (or1 (is_dot cleaned) (is_dot_dot cleaned) (has_prefix cleaned up) (h3.0))
            (or2 (is_dot cleaned) (is_dot_dot cleaned) (has_prefix cleaned up) (h3.0))
            (or3 (is_dot cleaned) (is_dot_dot cleaned) (has_prefix cleaned up) (h3.0));
      short = not_ltb→le max_path_length (length cleaned) (h5.0);
    })
  where
    kept : (norm : Bytes) → norm ≡ replace_byte 92 47 name → All IsKept (kept_segments norm)
    kept norm e =
        clean_segments-IsKept (split 47 norm) [] (All-split 47 norm)
          (All-split_without 92 47 norm (rw e (contains_byte-replace name))) tt

    start :
        (out : List Bytes)
        → IsStack out
        → StartsUp (reverse_onto out []) ⊎ All (λ w. is_dot_dot w ≡ false) (reverse_onto out [])
    start out s = elim (reverse_stack out [] s) [
      | inl u ↦ inl u
      | inr a ↦ inr (reverse_onto-All (λ w. is_dot_dot w ≡ false) out [] a tt)
    ]

    or1 : (a b c : Bool) → (a || b || c) ≡ false → a ≡ false
    or1 a b c h = ground arith

    or2 : (a b c : Bool) → (a || b || c) ≡ false → b ≡ false
    or2 a b c h = ground arith

    or3 : (a b c : Bool) → (a || b || c) ≡ false → c ≡ false
    or3 a b c h = ground arith
