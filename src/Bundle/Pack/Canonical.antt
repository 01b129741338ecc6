-- ===== src/Bundle/Pack/Canonical.antt =====
-- The packed bundle does not depend on the order in which the map of files is ranged over.
use funcbox.Prelude.{
  true, false, Bytes, List, [], ◌∷◌, map, Option, ◌≡◌, ◌≢◌, refl, sym, ap, ◌∙◌, arith, Bool-cases,
  inl, inr,
}
use funcbox.Prelude.Maps.{Map}
use funcbox.Bundle.Pack.{PackedEntry, str_le, insert_sorted, sorted_files, entry_of, pack}

-- The same files in another order; no name occurs twice in a map.
pub data Reorder : Map Bytes → Map Bytes → Type 0 where
  same : (m : Map Bytes) → Reorder m m
  behind : (f : Bytes × Bytes) {m n : Map Bytes} → Reorder m n → Reorder (f ∷ m) (f ∷ n)
  swapped : (f g : Bytes × Bytes) (m : Map Bytes) → f.0 ≢ g.0 → Reorder (f ∷ g ∷ m) (g ∷ f ∷ m)
  chained : {l m n : Map Bytes} → Reorder l m → Reorder m n → Reorder l n

str_le_total : (s t : Bytes) → str_le s t ≡ false → str_le t s ≡ true
unfolding str_le
str_le_total [] t h = cc
str_le_total (x ∷ s) [] h = refl
str_le_total (x ∷ s) (y ∷ t) h = ground (arith, str_le_total s t)

str_le_antisym : (s t : Bytes) → str_le s t ≡ true → str_le t s ≡ true → s ≡ t
unfolding str_le
str_le_antisym [] [] h k = refl
str_le_antisym [] (y ∷ t) h k = cc
str_le_antisym (x ∷ s) [] h k = cc
str_le_antisym (x ∷ s) (y ∷ t) h k = ground (arith, str_le_antisym s t)

str_le_trans : (s t u : Bytes) → str_le s t ≡ true → str_le t u ≡ true → str_le s u ≡ true
unfolding str_le
str_le_trans [] t u h k = refl
str_le_trans (x ∷ s) [] u h k = cc
str_le_trans (x ∷ s) (y ∷ t) [] h k = cc
str_le_trans (x ∷ s) (y ∷ t) (z ∷ u) h k = ground (arith, str_le_trans s t u)

insert_swap :
    (f g : Bytes × Bytes) (m : Map Bytes)
    → str_le (f.0) (g.0) ≡ true
    → str_le (g.0) (f.0) ≡ false
    → insert_sorted f (insert_sorted g m) ≡ insert_sorted g (insert_sorted f m)
unfolding insert_sorted
insert_swap f g [] a b = ground arith
insert_swap f g (h ∷ m) a b = elim (Bool-cases (str_le (g.0) (h.0))) [
  | inl c ↦ ground (arith, str_le_trans (f.0) (g.0) (h.0) a c)
  | inr c ↦ elim (Bool-cases (str_le (f.0) (h.0))) [
    | inl d ↦ ground arith
    | inr d ↦ ground (arith, insert_swap f g m a b)
  ]
]

sorted_files-Reorder : {m n : Map Bytes} → Reorder m n → sorted_files m ≡ sorted_files n
unfolding sorted_files
sorted_files-Reorder (same m) = refl
sorted_files-Reorder (behind f r) = ap (insert_sorted f) (sorted_files-Reorder r)
sorted_files-Reorder (chained r q) = sorted_files-Reorder r ∙ sorted_files-Reorder q
sorted_files-Reorder (swapped f g m n) = elim (Bool-cases (str_le (f.0) (g.0))) [
  | inr a ↦ sym (insert_swap g f (sorted_files m) (str_le_total (f.0) (g.0) a) a)
  | inl a ↦ elim (Bool-cases (str_le (g.0) (f.0))) [
    | inr b ↦ insert_swap f g (sorted_files m) a b
    | inl b ↦ absurd (n (str_le_antisym (f.0) (g.0) a b))
  ]
]

-- Files that differ in the order of the map only are packed into the same bytes, whatever the writers
-- of the archive make of its entries.
pub pack-Reorder :
    (write_archive : List PackedEntry → Option Bytes) {m n : Map Bytes}
    → Reorder m n
    → pack write_archive m ≡ pack write_archive n
unfolding pack
pack-Reorder write_archive r =
    ap (λ (files : Map Bytes). write_archive (map entry_of files)) (sorted_files-Reorder r)
