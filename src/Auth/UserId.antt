-- ===== src/Auth/UserId.antt =====
-- server/internal/auth/user_id.go: a public User ID derived from an email address. The search for a
-- free one is a loop without a bound; it runs on fuel here. The counter of the code is an int of 64
-- bits, and the rounds of the model are its rounds until it overflows, fuel below 2^63 - 2.
pub mod Sound
pub mod Endless
use funcbox.Prelude.{
  ℕ, zero, suc, ◌+◌, ◌-◌, Bool, true, false, not, ◌||◌, Bytes, codes, str_eq, [], ◌∷◌, ◌++◌, ◌==◌,
  ltb, length, take, Option, none, some, Result, ok, err, if◌then◌else◌,
}
use funcbox.Go.Chars.{is_lower_alnum}
use funcbox.Go.Strings.{to_lower, cut, trim_left_where, trim_right_where}
use funcbox.Go.Strconv.{itoa}
use funcbox.Manifest.{ManifestError}
use funcbox.Manifest.Validate.{validate_user_id}

abbrev pub max_user_id_length : ℕ
max_user_id_length = 63

-- [a-z0-9-]
unfoldable pub slug_char : ℕ → Bool
unfolding is_lower_alnum
slug_char c = is_lower_alnum c || c == b'-'

abbrev pub is_dash : ℕ → Bool
is_dash c = c == b'-'

-- userIDSanitizeRE.ReplaceAllString(s, "-"): each run of other bytes becomes one dash.
unfoldable pub replace_runs : Bool → Bytes → Bytes
unfolding slug_char
replace_runs in_run [] = []
replace_runs in_run (c ∷ s) =
    let rest = replace_runs (not (slug_char c)) s in
    if slug_char c then c ∷ rest else if in_run then rest else b'-' ∷ rest

unfoldable pub shortened : Bytes → Bytes
unfolding trim_right_where
shortened s =
    if ltb max_user_id_length (length s)
    then trim_right_where is_dash (take max_user_id_length s)
    else s

unfoldable pub sanitize_user_id : Bytes → Bytes
unfolding to_lower replace_runs trim_left_where trim_right_where shortened
sanitize_user_id local =
    shortened
      (trim_right_where is_dash (trim_left_where is_dash (replace_runs false (to_lower local))))

-- What is left of the base in front of a suffix; a suffix longer than 63 bytes is out of the model.
unfoldable pub trimmed_base : Bytes → Bytes → Bytes
unfolding trim_right_where
trimmed_base base suffix =
    if ltb max_user_id_length (length base + length suffix)
    then trim_right_where is_dash (take (max_user_id_length - length suffix) base)
    else base

unfoldable pub suffix_user_id : Bytes → ℕ → Bytes
unfolding trimmed_base itoa
suffix_user_id base n = trimmed_base base (b'-' ∷ itoa n) ++ b'-' ∷ itoa n

-- What PublicUserIDs().ByUserID answers.
pub data LookUp : Type 0 where
  claimed not_found failed : LookUp

pub data Derived : Type 0 where
  derived : Bytes → Derived
  look_up_failed : Derived
  out_of_fuel : Derived

unfoldable pub is_ok : Result ManifestError (Unit {0}) → Bool
is_ok (ok u) = true
is_ok (err e) = false

-- One round for `candidate`; `next` is the rest of the loop.
unfoldable pub try_candidate : LookUp → Bytes → Derived → Derived
try_candidate not_found candidate next = derived candidate
try_candidate failed candidate next = look_up_failed
try_candidate claimed candidate next = next

unfoldable pub derive_loop : (Bytes → LookUp) → ℕ → Bytes → Bytes → ℕ → Derived
unfolding try_candidate suffix_user_id validate_user_id is_ok
derive_loop look_up zero base candidate n = out_of_fuel
derive_loop look_up (suc fuel) base candidate n =
    let next = derive_loop look_up fuel base (suffix_user_id base n) (n + 1) in
    if is_ok (validate_user_id candidate)
    then try_candidate (look_up candidate) candidate next
    else next

-- strings.Cut(email, "@"): the whole text where there is no @
unfoldable pub local_part : Bytes → Option (Bytes × Bytes) → Bytes
local_part email none = email
local_part email (some (local, domain)) = local

unfoldable pub user_id_base : Bytes → Bytes
unfolding local_part sanitize_user_id cut str_eq
user_id_base email =
    let base = sanitize_user_id (local_part email (cut b'@' email)) in
    if str_eq base (codes "") then codes "user" else base

unfoldable pub derive_user_id : (Bytes → LookUp) → ℕ → Bytes → Derived
unfolding user_id_base derive_loop
derive_user_id look_up fuel email =
    derive_loop look_up fuel (user_id_base email) (user_id_base email) 2
