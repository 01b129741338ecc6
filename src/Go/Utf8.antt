-- ===== src/Go/Utf8.antt =====
-- Package unicode/utf8: RuneCountInString. A byte that starts no valid encoding counts as one rune.
use funcbox.Prelude.{
  ℕ, zero, suc, ◌≤◌, Bool, ◌&&◌, ◌||◌, [], ◌∷◌, Bytes, leb, ◌==◌, length, get_or, arith,
  if◌then◌else◌,
}

unfoldable pub between : ℕ → ℕ → ℕ → Bool
between lo hi c = leb lo c && leb c hi

-- How many more bytes the rune has that `c` starts, where `s` follows.
unfoldable pub rune_tail : ℕ → Bytes → ℕ
unfolding between
rune_tail c s =
    let b1 = get_or s 0 0 in
    let b2 = between 0x80 0xBF (get_or s 1 0) in
    let b3 = between 0x80 0xBF (get_or s 2 0) in
    if between 0xC2 0xDF c && between 0x80 0xBF b1
    then 1
    else if ((c == 0xE0 && between 0xA0 0xBF b1)
          || ((between 0xE1 0xEC c || between 0xEE 0xEF c) && between 0x80 0xBF b1)
          || (c == 0xED && between 0x80 0x9F b1))
        && b2
    then 2
    else if ((c == 0xF0 && between 0x90 0xBF b1)
          || (between 0xF1 0xF3 c && between 0x80 0xBF b1)
          || (c == 0xF4 && between 0x80 0x8F b1))
        && b2
        && b3
    then 3
    else 0

-- `skip` bytes still belong to the rune before.
unfoldable pub count_runes : ℕ → Bytes → ℕ
unfolding rune_tail
count_runes skip [] = 0
count_runes zero (c ∷ s) = suc (count_runes (rune_tail c s) s)
count_runes (suc skip) (c ∷ s) = count_runes skip s

unfoldable pub rune_count : Bytes → ℕ
unfolding count_runes
rune_count s = count_runes 0 s

count_runes-le : (skip : ℕ) (s : Bytes) → count_runes skip s ≤ length s
unfolding count_runes
count_runes-le skip [] = omega arith
count_runes-le zero (c ∷ s) = omega (arith, count_runes-le (rune_tail c s) s)
count_runes-le (suc skip) (c ∷ s) = omega (arith, count_runes-le skip s)

-- A text has at most as many runes as bytes.
pub rune_count-le : (s : Bytes) → rune_count s ≤ length s
unfolding rune_count
rune_count-le s = count_runes-le 0 s
