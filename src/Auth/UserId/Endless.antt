-- ===== src/Auth/UserId/Endless.antt =====
-- Addresses for which the loop of DeriveUserID finds no User ID: a local part that begins with
-- `xn--` is kept by the sanitizer, and every candidate that is made from it is reserved.
use funcbox.Prelude.{
  ℕ, zero, suc, ◌+◌, ◌-◌, ◌^◌, ◌≤◌, ◌<◌, ◌≡◌, refl, ap, ◌∙◌, true, false, Bytes, [], ◌∷◌, ◌++◌,
  str_eq, arith, length, all, length-append, le→not_ltb, some,
}
use funcbox.Go.Chars.{is_lower_alnum, lower}
use funcbox.Go.Strings.{to_lower, cut, trim_left_where, trim_right_where}
use funcbox.Go.Strconv.{itoa}
use funcbox.Go.Strconv.RoundTrip.{pow10, length-itoa}
use funcbox.Auth.UserId.{
  LookUp, out_of_fuel, is_dash, replace_runs, shortened, sanitize_user_id, trimmed_base,
  suffix_user_id, derive_loop, user_id_base, derive_user_id, local_part,
}
use funcbox.Auth.UserId.Sound.{punycode, not-valid_punycode}

suffix-punycode :
    (r : Bytes) (n : ℕ)
    → length r ≤ 30
    → n < pow10 28
    → suffix_user_id (punycode ++ r) n ≡ punycode ++ (r ++ b'-' ∷ itoa n)
unfolding suffix_user_id trimmed_base
suffix-punycode r n short b = rw (
    le→not_ltb 63 (length (punycode ++ r) + length (b'-' ∷ itoa n))
      (omega (arith, length-append punycode r, length-itoa 27 n b)))

-- Every candidate is refused, whatever the store holds.
endless_loop :
    (look_up : Bytes → LookUp) (fuel : ℕ) (r c : Bytes) (n : ℕ)
    → length r ≤ 30
    → n + fuel < pow10 28
    → derive_loop look_up fuel (punycode ++ r) (punycode ++ c) n ≡ out_of_fuel
unfolding derive_loop
endless_loop look_up zero r c n short b = refl
endless_loop look_up (suc fuel) r c n short b = rw (not-valid_punycode c) (
    rw (suffix-punycode r n short (omega arith))
      (endless_loop look_up fuel r (r ++ b'-' ∷ itoa n) (n + 1) short (omega arith)))

to_lower_slug : (s : Bytes) → all is_lower_alnum s ≡ true → to_lower s ≡ s
unfolding to_lower lower is_lower_alnum
to_lower_slug [] h = refl
to_lower_slug (x ∷ s) h = ground (arith, to_lower_slug s)

replace_runs_slug : (s : Bytes) → all is_lower_alnum s ≡ true → replace_runs false s ≡ s
unfolding replace_runs
replace_runs_slug [] h = refl
replace_runs_slug (x ∷ s) h = ground (arith, replace_runs_slug s)

trim_right_slug :
    (x : ℕ) (s : Bytes)
    → all is_lower_alnum (x ∷ s) ≡ true
    → trim_right_where is_dash (x ∷ s) ≡ x ∷ s
unfolding trim_right_where is_lower_alnum
trim_right_slug x [] h = ground arith
trim_right_slug x (y ∷ s) h = rw (trim_right_slug y s (ground arith)) refl

cut_slug :
    (s domain : Bytes)
    → all is_lower_alnum s ≡ true
    → cut b'@' (s ++ b'@' ∷ domain) ≡ some (s, domain)
unfolding cut is_lower_alnum
cut_slug [] domain h = refl
cut_slug (x ∷ s) domain h = ground (arith, cut_slug s domain)

lowered : (r : Bytes) → to_lower r ≡ r → to_lower (punycode ++ r) ≡ punycode ++ r
unfolding to_lower lower
lowered r e = ap (λ l. punycode ++ l) e

without_runs :
    (r : Bytes) → replace_runs false r ≡ r → replace_runs false (punycode ++ r) ≡ punycode ++ r
unfolding replace_runs
without_runs r e = ap (λ l. punycode ++ l) e

trimmed_right :
    (x : ℕ) (s : Bytes)
    → trim_right_where is_dash (x ∷ s) ≡ x ∷ s
    → trim_right_where is_dash (punycode ++ (x ∷ s)) ≡ punycode ++ (x ∷ s)
unfolding trim_right_where
trimmed_right x s e = rw e refl

kept_short : (s : Bytes) → length s ≤ 63 → shortened s ≡ s
unfolding shortened
kept_short s h = rw (le→not_ltb 63 (length s) h)

sanitize_punycode :
    (x : ℕ) (s : Bytes)
    → all is_lower_alnum (x ∷ s) ≡ true
    → length (x ∷ s) ≤ 30
    → sanitize_user_id (punycode ++ (x ∷ s)) ≡ punycode ++ (x ∷ s)
unfolding sanitize_user_id
sanitize_punycode x s h short =
    let r : Bytes = x ∷ s in
    let tail = λ (l : Bytes). shortened (trim_right_where is_dash l) in
    ap (λ l. tail (trim_left_where is_dash (replace_runs false l))) (lowered r (to_lower_slug r h))
    ∙ ap (λ l. tail (trim_left_where is_dash l)) (without_runs r (replace_runs_slug r h))
    ∙ ap shortened (trimmed_right x s (trim_right_slug x s h))
    ∙ kept_short (punycode ++ r) (omega arith)

cut-punycode :
    (r domain : Bytes)
    → all is_lower_alnum r ≡ true
    → cut b'@' (punycode ++ (r ++ b'@' ∷ domain)) ≡ some (punycode ++ r, domain)
unfolding cut
cut-punycode r domain h = rw (cut_slug r domain h) refl

-- The rounds in which the counter, an int of 64 bits that begins with 2, does not overflow.
abbrev pub max_rounds : ℕ
max_rounds = 2 ^ 63 - 2

below : (fuel : ℕ) → fuel < max_rounds → 2 + fuel < pow10 28
unfolding pow10
below fuel b = omega arith

-- For the address `xn--r@domain`, where `r` is 1 to 30 lower-case letters and digits, the loop runs
-- through any number of rounds before its counter overflows, 2^63 - 3 at most, and has found no User
-- ID, whatever the store holds.
pub derive_user_id-endless :
    (look_up : Bytes → LookUp) (fuel x : ℕ) (s domain : Bytes)
    → all is_lower_alnum (x ∷ s) ≡ true
    → length (x ∷ s) ≤ 30
    → fuel < max_rounds
    → derive_user_id look_up fuel (punycode ++ ((x ∷ s) ++ b'@' ∷ domain)) ≡ out_of_fuel
unfolding derive_user_id user_id_base local_part str_eq
derive_user_id-endless look_up fuel x s domain h short b = rw (cut-punycode (x ∷ s) domain h) (
    rw (sanitize_punycode x s h short)
      (endless_loop look_up fuel (x ∷ s) (x ∷ s) 2 short (below fuel b)))
