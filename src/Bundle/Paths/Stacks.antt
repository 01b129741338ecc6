-- ===== src/Bundle/Paths/Stacks.antt =====
-- The stack of segments of Clean: what is kept of a path, and where ".." stands in it.
use mathlib.Core.Path.{subst}
use funcbox.Prelude.{
  ◌≡◌, refl, sym, ◌⊎◌, inl, inr, true, false, ◌||◌, Bytes, List, [], ◌∷◌, All, arith, Bool-cases,
  ==_iff,
}
use funcbox.Go.Strings.{contains_byte}
use funcbox.Go.Path.{
  clean_segment, clean_segments, back, reverse_onto, dot_dot, is_dot, is_dot_dot, no_bytes,
}

-- What clean keeps of a segment, ".." included.
pub record IsKept (w : Bytes) : Type 0 where
  pub filled : no_bytes w ≡ false
  pub no_dot : is_dot w ≡ false
  pub no_slash : contains_byte 47 w ≡ false
  pub no_backslash : contains_byte 92 w ≡ false

abbrev pub IsUp : Bytes → Type 0
IsUp w = w ≡ dot_dot

-- ".." only before (here: below) everything else
abbrev pub IsStack : List Bytes → Type 0
IsStack [] = Unit
IsStack (w ∷ out) = (IsUp w × All IsUp out) ⊎ ((is_dot_dot w ≡ false) × IsStack out)

is_dot_dot_iff : (w : Bytes) → (is_dot_dot w ≡ true) → IsUp w
unfolding is_dot_dot
is_dot_dot_iff [] h = cc
is_dot_dot_iff (x ∷ []) h = cc
is_dot_dot_iff (x ∷ y ∷ []) h = ground (arith, ==_iff x 46, ==_iff y 46)
is_dot_dot_iff (x ∷ y ∷ z ∷ s) h = cc

up_not_safe : (w : Bytes) → IsUp w → is_dot_dot w ≡ true
unfolding is_dot_dot
up_not_safe w e = rw e refl

dot_dot-IsKept : IsKept dot_dot
unfolding no_bytes is_dot contains_byte
dot_dot-IsKept = record { filled = refl; no_dot = refl; no_slash = refl; no_backslash = refl }

back-IsStack : (out : List Bytes) → IsStack out → IsStack (back false out)
unfolding back
back-IsStack [] s = inl (refl, tt)
back-IsStack (w ∷ out) (inl (u, us)) = rw (up_not_safe w u) (inl (refl, (u, us)))
back-IsStack (w ∷ out) (inr (n, s)) = rw n s

back-IsKept : (out : List Bytes) → All IsKept out → All IsKept (back false out)
unfolding back
back-IsKept [] h = (dot_dot-IsKept, tt)
back-IsKept (w ∷ out) h = elim (Bool-cases (is_dot_dot w)) [
  | inl e ↦ rw e (dot_dot-IsKept, h)
  | inr e ↦ rw e (h.1)
]

module _ (w : Bytes) (out : List Bytes) where
  clean_segment-IsStack : IsStack out → IsStack (clean_segment false w out)
  unfolding clean_segment
  clean_segment-IsStack s = elim (Bool-cases (no_bytes w || is_dot w)) [
    | inl e ↦ rw e s
    | inr e ↦ elim (Bool-cases (is_dot_dot w)) [
      | inl f ↦ rw (e, f) (back-IsStack out s)
      | inr f ↦ subst IsStack (sym (kept e f)) (inr (f, s))
    ]
  ]
    where
      kept :
          (no_bytes w || is_dot w) ≡ false
          → is_dot_dot w ≡ false
          → clean_segment false w out ≡ w ∷ out
      kept e f = rw (e, f) refl

  clean_segment-IsKept :
      contains_byte 47 w ≡ false
      → contains_byte 92 w ≡ false
      → All IsKept out
      → All IsKept (clean_segment false w out)
  unfolding clean_segment
  clean_segment-IsKept a b h = elim (Bool-cases (no_bytes w || is_dot w)) [
    | inl e ↦ rw e h
    | inr e ↦ elim (Bool-cases (is_dot_dot w)) [
      | inl f ↦ rw (e, f) (back-IsKept out h)
      | inr f ↦
          rw (e, f)
            (
              record {
                filled = ground arith;
                no_dot = ground arith;
                no_slash = a;
                no_backslash = b;
              },
              h,
            )
    ]
  ]

pub clean_segments-IsStack :
    (ws out : List Bytes) → IsStack out → IsStack (clean_segments false ws out)
unfolding clean_segments
clean_segments-IsStack [] out s = s
clean_segments-IsStack (w ∷ ws) out s =
    clean_segments-IsStack ws (clean_segment false w out) (clean_segment-IsStack w out s)

pub clean_segments-IsKept :
    (ws out : List Bytes)
    → All (λ w. contains_byte 47 w ≡ false) ws
    → All (λ w. contains_byte 92 w ≡ false) ws
    → All IsKept out
    → All IsKept (clean_segments false ws out)
unfolding clean_segments
clean_segments-IsKept [] out a b h = h
clean_segments-IsKept (w ∷ ws) out a b h =
    clean_segments-IsKept ws (clean_segment false w out) (a.1) (b.1)
      (clean_segment-IsKept w out (a.0) (b.0) h)

pub reverse_onto-All :
    (P : Bytes → Type 0) (ws acc : List Bytes) → All P ws → All P acc → All P (reverse_onto ws acc)
reverse_onto-All P [] acc h k = k
reverse_onto-All P (w ∷ ws) acc h k = reverse_onto-All P ws (w ∷ acc) (h.1) (h.0, k)

-- A stack of segments, read from its bottom: either no ".." at all, or ".." at the start.
abbrev pub StartsUp : List Bytes → Type 0
StartsUp ws = (rest : List Bytes) × (ws ≡ dot_dot ∷ rest)

reverse_ups : (ws rest : List Bytes) → All IsUp ws → StartsUp (reverse_onto ws (dot_dot ∷ rest))
reverse_ups [] rest h = (rest, refl)
reverse_ups (w ∷ ws) rest h = rw (h.0) (reverse_ups ws (dot_dot ∷ rest) (h.1))

pub reverse_stack :
    (out acc : List Bytes)
    → IsStack out
    → StartsUp (reverse_onto out acc) ⊎ All (λ w. is_dot_dot w ≡ false) out
reverse_stack [] acc s = inr tt
reverse_stack (w ∷ out) acc (inl (u, us)) = rw u (inl (reverse_ups out acc us))
reverse_stack (w ∷ out) acc (inr (n, s)) = elim (reverse_stack out (w ∷ acc) s) [
  | inl u ↦ inl u
  | inr a ↦ inr (n, a)
]
