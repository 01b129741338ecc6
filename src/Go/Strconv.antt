-- ===== src/Go/Strconv.antt =====
-- Package strconv: Atoi and Itoa on 64-bit integers.
pub mod RoundTrip
use funcbox.Prelude.{
  ℕ, zero, suc, ◌+◌, ◌-◌, ◌*◌, ◌/◌, ◌%◌, ◌^◌, Option, none, some, Bytes, List, [], ◌∷◌, ◌++◌, leb,
  ltb, ◌==◌, if◌then◌else◌,
}
use funcbox.Go.Chars.{is_digit}

-- An `int`: `negsuc n` is -(n + 1).
pub data ℤ : Type 0 where
  pos : ℕ → ℤ
  negsuc : ℕ → ℤ

unfoldable pub digits : ℕ → Bytes → Option ℕ
unfolding is_digit
digits n [] = some n
digits n (c ∷ s) = if is_digit c then digits (n * 10 + (c - 48)) s else none

unfoldable pub in_range : Option ℕ → Option ℤ
in_range none = none
in_range (some n) = if ltb n (2 ^ 63) then some (pos n) else none

unfoldable pub negated : Option ℕ → Option ℤ
negated none = none
negated (some zero) = some (pos 0)
negated (some (suc n)) = if ltb n (2 ^ 63) then some (negsuc n) else none

-- strconv.Atoi on a platform with 64-bit `int`; `none` is its error.
unfoldable pub atoi : Bytes → Option ℤ
unfolding digits in_range negated
atoi [] = none
atoi (c ∷ []) = in_range (digits 0 (c ∷ []))
atoi (c ∷ d ∷ s) =
    if c == b'+'
    then in_range (digits 0 (d ∷ s))
    else if c == b'-'
    then negated (digits 0 (d ∷ s))
    else in_range (digits 0 (c ∷ d ∷ s))

unfoldable pub itoa_loop : ℕ → ℕ → Bytes
itoa_loop zero n = []
itoa_loop (suc f) n =
    let rest = itoa_loop f (n / 10) in
    if ltb n 10 then (48 + n) ∷ [] else rest ++ (48 + n % 10) ∷ []

-- strconv.Itoa of a number that is not negative
unfoldable pub itoa : ℕ → Bytes
unfolding itoa_loop
itoa n = itoa_loop (n + 1) n
