-- ===== src/Go/Strings.antt =====
-- Package strings: prefixes, suffixes, trimming, splitting, case. ToLower and TrimSpace are the
-- functions on ASCII texts.
pub mod Laws
use funcbox.Prelude.{
  ℕ, ◌-◌, Bool, true, false, ◌&&◌, ◌||◌, List, [], ◌∷◌, ◌++◌, map, Bytes, str_eq, leb, ◌==◌, length,
  take, drop, if◌then◌else◌, Option, none, some, suc,
}
use mathlib.Core.Option
use funcbox.Go.Chars.{lower}

unfoldable pub has_prefix : Bytes → Bytes → Bool
has_prefix s [] = true
has_prefix [] (y ∷ p) = false
has_prefix (x ∷ s) (y ∷ p) = x == y && has_prefix s p

unfoldable pub has_suffix : Bytes → Bytes → Bool
unfolding str_eq
has_suffix s p = leb (length p) (length s) && str_eq (drop (length s - length p) s) p

unfoldable pub trim_prefix : Bytes → Bytes → Bytes
unfolding has_prefix
trim_prefix s p = if has_prefix s p then drop (length p) s else s

-- strings.CutPrefix: `none` where the prefix is missing
unfoldable pub cut_prefix : Bytes → Bytes → Option Bytes
unfolding has_prefix
cut_prefix s p = if has_prefix s p then some (drop (length p) s) else none

unfoldable pub trim_suffix : Bytes → Bytes → Bytes
unfolding has_suffix
trim_suffix s p = if has_suffix s p then take (length s - length p) s else s

unfoldable pub to_lower : Bytes → Bytes
unfolding lower
to_lower = map lower

-- strings.EqualFold, on ASCII texts
unfoldable pub equal_fold : Bytes → Bytes → Bool
unfolding to_lower str_eq
equal_fold s t = str_eq (to_lower s) (to_lower t)

unfoldable pub contains_byte : ℕ → Bytes → Bool
contains_byte c [] = false
contains_byte c (x ∷ s) = x == c || contains_byte c s

-- TrimLeftFunc, TrimRightFunc
unfoldable pub trim_left_where : (ℕ → Bool) → Bytes → Bytes
trim_left_where p [] = []
trim_left_where p (x ∷ s) = let rest = trim_left_where p s in if p x then rest else x ∷ s

-- what is left of x ∷ s, where `t` is left of `s`
unfoldable pub keep_before : (ℕ → Bool) → ℕ → Bytes → Bytes
keep_before p x [] = if p x then [] else x ∷ []
keep_before p x (y ∷ t) = x ∷ y ∷ t

unfoldable pub trim_right_where : (ℕ → Bool) → Bytes → Bytes
unfolding keep_before
trim_right_where p [] = []
trim_right_where p (x ∷ s) = keep_before p x (trim_right_where p s)

unfoldable pub is_space : ℕ → Bool
is_space c = c == 32 || (leb 9 c && leb c 13)

unfoldable pub trim_space : Bytes → Bytes
unfolding is_space trim_left_where trim_right_where
trim_space s = trim_right_where is_space (trim_left_where is_space s)

-- strings.Split by one byte
unfoldable pub split_head : ℕ → List Bytes → List Bytes
split_head x [] = (x ∷ []) ∷ []
split_head x (w ∷ ws) = (x ∷ w) ∷ ws

unfoldable pub split : ℕ → Bytes → List Bytes
unfolding split_head
split c [] = [] ∷ []
split c (x ∷ s) = let rest = split c s in if x == c then [] ∷ rest else split_head x rest

-- strings.Join by one byte
unfoldable pub join : ℕ → List Bytes → Bytes
join c [] = []
join c (w ∷ []) = w
join c (w ∷ v ∷ ws) = w ++ (c ∷ join c (v ∷ ws))

-- strings.Cut by one byte: before and after, or `none` where the byte is not found
unfoldable pub cut_after : ℕ → Option (Bytes × Bytes) → Option (Bytes × Bytes)
cut_after x none = none
cut_after x (some (a, b)) = some (x ∷ a, b)

unfoldable pub cut : ℕ → Bytes → Option (Bytes × Bytes)
unfolding cut_after
cut c [] = none
cut c (x ∷ s) = let rest = cut c s in if x == c then some ([], s) else cut_after x rest

-- strings.IndexByte, strings.LastIndexByte
unfoldable pub index : ℕ → Bytes → Option ℕ
index c [] = none
index c (x ∷ s) = let rest = index c s in if x == c then some 0 else Option.map suc rest

unfoldable pub last_index : ℕ → Bytes → Option ℕ
last_index c [] = none
last_index c (x ∷ s) = elim (last_index c s) [
  | some i ↦ some (suc i)
  | none ↦ if x == c then some 0 else none
]

-- strings.Contains
unfoldable pub contains : Bytes → Bytes → Bool
unfolding has_prefix
contains [] sub = has_prefix [] sub
contains (x ∷ s) sub = has_prefix (x ∷ s) sub || contains s sub

-- strings.ReplaceAll of one byte by another
unfoldable pub replace_byte : ℕ → ℕ → Bytes → Bytes
replace_byte a b = map (λ x. if x == a then b else x)
