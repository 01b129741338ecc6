-- ===== src/Go/Strings/Laws.antt =====
-- Laws of the string functions that the components' proofs use.
use funcbox.Prelude.{
  ℕ, zero, suc, ◌+◌, ◌-◌, ◌≡◌, refl, ap, ◌∙◌, none, some, ◌≢◌, true, false, ◌||◌, List, [], ◌∷◌,
  ◌++◌, Bytes, str_eq_iff, str_eq_refl, ◌==◌, length, take, drop, arith, if◌then◌else◌,
  length-append, take-append-drop, drop-append, All, Bool-cases, inl, inr,
}
use funcbox.Go.Chars.{lower, lower_idem}
use funcbox.Go.Strings.{
  has_prefix, has_suffix, to_lower, split, split_head, join, contains_byte, cut_prefix, cut,
  cut_after, last_index,
}

-- A text has the prefix `p` exactly when it is `p` and a rest.
pub has_prefix→append : (s p : Bytes) → has_prefix s p ≡ true → s ≡ p ++ drop (length p) s
unfolding has_prefix
has_prefix→append s [] h = refl
has_prefix→append [] (y ∷ p) h = cc
has_prefix→append (x ∷ s) (y ∷ p) h = ground (arith, has_prefix→append s p)

pub has_prefix-append : (p r : Bytes) → has_prefix (p ++ r) p ≡ true
unfolding has_prefix
has_prefix-append [] r = refl
has_prefix-append (y ∷ p) r = ground (arith, has_prefix-append p r)

pub has_suffix→append :
    (s p : Bytes) → has_suffix s p ≡ true → s ≡ take (length s - length p) s ++ p
unfolding has_suffix
has_suffix→append s p h =
    ground
      (arith, str_eq_iff (drop (length s - length p) s) p, take-append-drop (length s - length p) s)

pub has_suffix-append : (r p : Bytes) → has_suffix (r ++ p) p ≡ true
unfolding has_suffix
has_suffix-append r p =
    let e : length (r ++ p) - length p ≡ length r = omega (arith, length-append r p) in
    rw e (rw (drop-append r p) (ground (arith, str_eq_refl p, length-append r p)))

pub to_lower_idem : (s : Bytes) → to_lower (to_lower s) ≡ to_lower s
unfolding to_lower
to_lower_idem [] = refl
to_lower_idem (x ∷ s) = cc (lower_idem x, to_lower_idem s)

pub length-to_lower : (s : Bytes) → length (to_lower s) ≡ length s
unfolding to_lower
length-to_lower [] = refl
length-to_lower (x ∷ s) = ap suc (length-to_lower s)

pub to_lower-append : (s t : Bytes) → to_lower (s ++ t) ≡ to_lower s ++ to_lower t
unfolding to_lower
to_lower-append [] t = refl
to_lower-append (x ∷ s) t = ap (λ (l : Bytes). lower x ∷ l) (to_lower-append s t)

join-split_head : (c x : ℕ) (ws : List Bytes) → join c (split_head x ws) ≡ x ∷ join c ws
unfolding join split_head
join-split_head c x [] = refl
join-split_head c x (w ∷ []) = refl
join-split_head c x (w ∷ v ∷ ws) = refl

pub split_ne_nil : (c : ℕ) (s : Bytes) → split c s ≢ []
unfolding split
split_ne_nil c [] h = cc
split_ne_nil c (x ∷ s) h = ground arith

join-nil-cons : (c : ℕ) (ws : List Bytes) → ws ≢ [] → join c ([] ∷ ws) ≡ c ∷ join c ws
unfolding join
join-nil-cons c [] h = absurd (h refl)
join-nil-cons c (w ∷ ws) h = refl

-- Split loses nothing.
pub join-split : (c : ℕ) (s : Bytes) → join c (split c s) ≡ s
unfolding split
join-split c [] = unfold join in refl
join-split c (x ∷ s) = elim (Bool-cases (x == c)) [
  | inl e ↦ rw e (ground (arith, join-nil-cons c (split c s) (split_ne_nil c s), join-split c s))
  | inr e ↦ rw e (ground (arith, join-split_head c x (split c s), join-split c s))
]

-- No part holds the separator.
pub All-split : (c : ℕ) (s : Bytes) → All (λ w. contains_byte c w ≡ false) (split c s)
unfolding split contains_byte
All-split c [] = (refl, tt)
All-split c (x ∷ s) = step (split c s) (split_ne_nil c s) (All-split c s)
  where
    step :
        (ws : List Bytes)
        → ws ≢ []
        → All (λ w. contains_byte c w ≡ false) ws
        → All (λ w. contains_byte c w ≡ false) (if x == c then [] ∷ ws else split_head x ws)
    step [] n h = absurd (n refl)
    step (w ∷ ws) n h = elim (Bool-cases (x == c)) [
      | inl e ↦ rw e (refl, h)
      | inr e ↦ rw e (ground arith, h.1)
    ]

split-append_free :
    (c : ℕ) (w rest : Bytes)
    → contains_byte c w ≡ false
    → split c (w ++ (c ∷ rest)) ≡ w ∷ split c rest
unfolding split contains_byte split_head
split-append_free c [] rest h = ground arith
split-append_free c (x ∷ w) rest h = ground (arith, split-append_free c w rest)

split_free : (c : ℕ) (w : Bytes) → contains_byte c w ≡ false → split c w ≡ w ∷ []
unfolding split contains_byte split_head
split_free c [] h = refl
split_free c (x ∷ w) h = ground (arith, split_free c w)

-- Joining parts without the separator and splitting gives the parts.
pub split-join :
    (c : ℕ) (w : Bytes) (ws : List Bytes)
    → All (λ v. contains_byte c v ≡ false) (w ∷ ws)
    → split c (join c (w ∷ ws)) ≡ w ∷ ws
unfolding join
split-join c w [] h = split_free c w h.0
split-join c w (v ∷ ws) h =
    split-append_free c w (join c (v ∷ ws)) h.0
    ∙ ap (λ (l : List Bytes). w ∷ l) (split-join c v ws h.1)

pub drop-to_lower : (n : ℕ) (s : Bytes) → drop n (to_lower s) ≡ to_lower (drop n s)
unfolding to_lower
drop-to_lower zero s = refl
drop-to_lower (suc n) [] = refl
drop-to_lower (suc n) (x ∷ s) = drop-to_lower n s

pub take-to_lower : (n : ℕ) (s : Bytes) → take n (to_lower s) ≡ to_lower (take n s)
unfolding to_lower
take-to_lower zero s = refl
take-to_lower (suc n) [] = refl
take-to_lower (suc n) (x ∷ s) = ap (λ (l : Bytes). lower x ∷ l) (take-to_lower n s)

module _ (c : ℕ) where
  pub last_index-none : (s : Bytes) → contains_byte c s ≡ false → last_index c s ≡ none
  unfolding last_index contains_byte
  last_index-none [] h = refl
  last_index-none (x ∷ s) h = ground (arith, last_index-none s)

  pub last_index_at :
      (w t : Bytes) → contains_byte c t ≡ false → last_index c (w ++ c ∷ t) ≡ some (length w)
  unfolding last_index
  last_index_at [] t h = ground (arith, last_index-none t h)
  last_index_at (x ∷ w) t h = ground (arith, last_index_at w t h)

pub drop_past : (w : Bytes) (c : ℕ) (t : Bytes) → drop (length w + 1) (w ++ c ∷ t) ≡ t
drop_past [] c t = refl
drop_past (x ∷ w) c t =
    let e : suc (length w) + 1 ≡ suc (length w + 1) = omega arith in rw e (drop_past w c t)

pub contains_byte-append :
    (c : ℕ) (s t : Bytes) → contains_byte c (s ++ t) ≡ (contains_byte c s || contains_byte c t)
unfolding contains_byte
contains_byte-append c [] t = refl
contains_byte-append c (x ∷ s) t = ground (arith, contains_byte-append c s t)

pub cut_prefix-append : (p r : Bytes) → cut_prefix (p ++ r) p ≡ some r
unfolding cut_prefix
cut_prefix-append p r = rw (has_prefix-append p r) (rw (drop-append p r) refl)

pub cut-append :
    (c : ℕ) (s t : Bytes) → contains_byte c s ≡ false → cut c (s ++ c ∷ t) ≡ some (s, t)
unfolding cut contains_byte cut_after
cut-append c [] t h = ground arith
cut-append c (x ∷ s) t h = ground (arith, cut-append c s t)
