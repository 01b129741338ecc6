-- ===== src/Go/Strconv/RoundTrip.antt =====
-- Atoi reads back what Itoa writes.
use funcbox.Prelude.{
  ℕ, zero, suc, ◌+◌, ◌-◌, ◌*◌, ◌/◌, ◌%◌, ◌^◌, ◌≤◌, ◌<◌, ◌≡◌, ◌≢◌, refl, true, some, Bytes, [], ◌∷◌,
  ◌++◌, ltb, arith, Bool-cases, inl, inr, all, lt→ltb, all-append, length, length-append,
}
use funcbox.Go.Chars.{is_digit}
use funcbox.Go.Strconv.{pos, digits, atoi, itoa_loop, itoa}

digits-snoc :
    (s : Bytes) (a n d : ℕ)
    → digits a s ≡ some n
    → d < 10
    → digits a (s ++ (48 + d) ∷ []) ≡ some (n * 10 + d)
unfolding digits
digits-snoc [] a n d h lt = ground arith
digits-snoc (c ∷ s) a n d h lt = ground (arith, digits-snoc s (a * 10 + (c - 48)) n d)

digits-itoa_loop : (f n : ℕ) → n < f → digits 0 (itoa_loop f n) ≡ some n
unfolding itoa_loop
digits-itoa_loop zero n h = absurd (omega arith)
digits-itoa_loop (suc f) n h = elim (Bool-cases (ltb n 10)) [
  | inl e ↦ rw e (unfold digits is_digit in ground arith)
  | inr e ↦ rw e (
      ground (
        arith,
        digits-snoc (itoa_loop f (n / 10)) 0 (n / 10) (n % 10)
            (digits-itoa_loop f (n / 10) (ground arith)) (omega arith),
      ))
]

-- A numeral has digits only, and at least one.
all-itoa_loop : (f n : ℕ) → n < f → all is_digit (itoa_loop f n) ≡ true
unfolding itoa_loop is_digit
all-itoa_loop zero n h = absurd (omega arith)
all-itoa_loop (suc f) n h = elim (Bool-cases (ltb n 10)) [
  | inl e ↦ rw e (ground arith)
  | inr e ↦ rw e (
      ground (
        arith,
        all-append is_digit (itoa_loop f (n / 10)) ((48 + n % 10) ∷ []),
        all-itoa_loop f (n / 10) (ground arith),
      ))
]

itoa_loop_ne_nil : (f n : ℕ) → n < f → itoa_loop f n ≢ []
unfolding itoa_loop
itoa_loop_ne_nil zero n h = absurd (omega arith)
itoa_loop_ne_nil (suc f) n h = elim (Bool-cases (ltb n 10)) [
  | inl e ↦ rw e (λ q. cc)
  | inr e ↦ rw e (snoc_ne_nil (itoa_loop f (n / 10)))
]
  where
    snoc_ne_nil : (s : Bytes) → s ++ (48 + n % 10) ∷ [] ≢ []
    snoc_ne_nil [] q = cc
    snoc_ne_nil (x ∷ s) q = cc

pub all-itoa : (n : ℕ) → all is_digit (itoa n) ≡ true
unfolding itoa
all-itoa n = all-itoa_loop (n + 1) n (omega arith)

pub itoa_ne_nil : (n : ℕ) → itoa n ≢ []
unfolding itoa
itoa_ne_nil n = itoa_loop_ne_nil (n + 1) n (omega arith)

pub digits-itoa : (n : ℕ) → digits 0 (itoa n) ≡ some n
unfolding itoa
digits-itoa n = digits-itoa_loop (n + 1) n (omega arith)

atoi_of_digits :
    (s : Bytes) (n : ℕ)
    → s ≢ []
    → all is_digit s ≡ true
    → digits 0 s ≡ some n
    → n < 2 ^ 63
    → atoi s ≡ some (pos n)
unfolding atoi is_digit
atoi_of_digits [] n ne h e lt = absurd (ne refl)
atoi_of_digits (c ∷ []) n ne h e lt = rw e (rw (lt→ltb n (2 ^ 63) lt))
atoi_of_digits (c ∷ d ∷ s) n ne h e lt = rw e (rw (lt→ltb n (2 ^ 63) lt) (ground arith))

-- Below 2^63, Atoi gives back the number that Itoa wrote.
pub atoi-itoa : (n : ℕ) → n < 2 ^ 63 → atoi (itoa n) ≡ some (pos n)
atoi-itoa n h = atoi_of_digits (itoa n) n (itoa_ne_nil n) (all-itoa n) (digits-itoa n) h

unfoldable pub pow10 : ℕ → ℕ
pow10 zero = 1
pow10 (suc k) = 10 * pow10 k

length-itoa_loop : (f k n : ℕ) → n < f → n < pow10 (suc k) → length (itoa_loop f n) ≤ suc k
unfolding itoa_loop pow10
length-itoa_loop zero k n h b = absurd (omega arith)
length-itoa_loop (suc f) zero n h b = rw (lt→ltb n 10 (omega arith)) (omega arith)
length-itoa_loop (suc f) (suc k) n h b = elim (Bool-cases (ltb n 10)) [
  | inl e ↦ rw e (omega arith)
  | inr e ↦ rw e (
      omega (
        arith,
        length-append (itoa_loop f (n / 10)) ((48 + n % 10) ∷ []),
        length-itoa_loop f k (n / 10) (ground arith) (omega arith),
      ))
]

-- A number below 10^k has at most k digits.
pub length-itoa : (k n : ℕ) → n < pow10 (suc k) → length (itoa n) ≤ suc k
unfolding itoa
length-itoa k n b = length-itoa_loop (n + 1) k n (omega arith) b
