-- ===== src/Go/Chars.antt =====
-- Classes of bytes that the program's regular expressions and Go's parsers test for.
use funcbox.Prelude.{ℕ, ◌+◌, ◌≡◌, Bool, true, ◌&&◌, ◌||◌, arith, leb, if◌then◌else◌}

unfoldable pub is_digit : ℕ → Bool
is_digit c = leb b'0' c && leb c b'9'

unfoldable pub is_lower : ℕ → Bool
is_lower c = leb b'a' c && leb c b'z'

unfoldable pub is_upper : ℕ → Bool
is_upper c = leb b'A' c && leb c b'Z'

-- [a-z0-9]
unfoldable pub is_lower_alnum : ℕ → Bool
unfolding is_digit is_lower
is_lower_alnum c = is_lower c || is_digit c

-- [a-zA-Z0-9]
unfoldable pub is_alnum : ℕ → Bool
unfolding is_upper is_lower_alnum
is_alnum c = is_upper c || is_lower_alnum c

unfoldable pub lower : ℕ → ℕ
unfolding is_upper
lower c = if is_upper c then c + 32 else c

pub lower_idem : (c : ℕ) → lower (lower c) ≡ lower c
unfolding lower
lower_idem c = ground arith

pub is_alnum-lower : (c : ℕ) → is_alnum c ≡ true → is_lower_alnum (lower c) ≡ true
unfolding lower is_alnum
is_alnum-lower c h = ground arith
