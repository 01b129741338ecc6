-- ===== src/Auth/UserId/Sound.antt =====
-- What DeriveUserID returns, and the addresses for which its loop finds nothing.
use funcbox.Prelude.{
  ℕ, zero, suc, ◌+◌, ◌≡◌, refl, ◌⊎◌, Bool, true, false, Bytes, ◌++◌, codes, arith, if◌then◌else◌,
  inl, inr, Result, ok, err,
}
use funcbox.Go.Strings.{has_prefix}
use funcbox.Manifest.{ManifestError}
use funcbox.Manifest.Reserved.{is_reserved}
use funcbox.Manifest.Validate.{validate_user_id}
use funcbox.Manifest.Validate.Rules.{IsName, validate_dns_label_iff}
use funcbox.Auth.UserId.{
  LookUp, claimed, not_found, failed, Derived, derived, is_ok, suffix_user_id, try_candidate,
  derive_loop, user_id_base, derive_user_id,
}

is_ok-eq-ok : (r : Result ManifestError (Unit {0})) → is_ok r ≡ true → r ≡ ok tt
unfolding is_ok
is_ok-eq-ok (ok u) h = refl
is_ok-eq-ok (err e) h = cc

-- One round returns its own candidate, free and valid, or what the rest of the loop returns.
round_cases :
    (valid : Bool) (l : LookUp) (candidate : Bytes) (next : Derived) {id : Bytes}
    → (if valid then try_candidate l candidate next else next) ≡ derived id
    → ((valid ≡ true) × (l ≡ not_found) × (candidate ≡ id)) ⊎ (next ≡ derived id)
unfolding try_candidate
round_cases true not_found candidate next h = inl (refl, refl, cc)
round_cases true claimed candidate next h = inr h
round_cases true failed candidate next h = cc
round_cases false l candidate next h = inr h

derive_loop_sound :
    (look_up : Bytes → LookUp) (fuel : ℕ) (base candidate : Bytes) (n : ℕ) {id : Bytes}
    → derive_loop look_up fuel base candidate n ≡ derived id
    → IsName id × (look_up id ≡ not_found)
unfolding derive_loop validate_user_id
derive_loop_sound look_up zero base candidate n h = cc
derive_loop_sound look_up (suc fuel) base candidate n h =
    by_round (derive_loop_sound look_up fuel base (suffix_user_id base n) (n + 1)) (
      round_cases (is_ok (validate_user_id candidate)) (look_up candidate) candidate
        (derive_loop look_up fuel base (suffix_user_id base n) (n + 1)) h)
  where
    by_round :
        {id : Bytes}
        → (derive_loop look_up fuel base (suffix_user_id base n) (n + 1) ≡ derived id
            → IsName id × (look_up id ≡ not_found))
        → ((is_ok (validate_user_id candidate) ≡ true)
            × (look_up candidate ≡ not_found)
            × (candidate ≡ id))
          ⊎ (derive_loop look_up fuel base (suffix_user_id base n) (n + 1) ≡ derived id)
        → IsName id × (look_up id ≡ not_found)
    by_round rest (inl (v, free, e)) =
        rw (← e) (
          (validate_dns_label_iff candidate _).0 (is_ok-eq-ok (validate_user_id candidate) v),
          free,
        )
    by_round rest (inr k) = rest k

-- A User ID that is derived matches nameRE, is not reserved, and was not claimed when it was looked
-- up.
pub derive_user_id_sound :
    (look_up : Bytes → LookUp) (fuel : ℕ) (email : Bytes) {id : Bytes}
    → derive_user_id look_up fuel email ≡ derived id
    → IsName id × (look_up id ≡ not_found)
unfolding derive_user_id
derive_user_id_sound look_up fuel email h =
    derive_loop_sound look_up fuel (user_id_base email) (user_id_base email) 2 h

abbrev pub punycode : Bytes
punycode = codes "xn--"

pub not-valid_punycode : (r : Bytes) → is_ok (validate_user_id (punycode ++ r)) ≡ false
unfolding validate_user_id is_ok
not-valid_punycode r = refuse (is_ok (validate_user_id (punycode ++ r))) refl
  where
    refuse :
        (b : Bool)
        → is_ok (validate_user_id (punycode ++ r)) ≡ b
        → is_ok (validate_user_id (punycode ++ r)) ≡ false
    refuse false e = e
    refuse true e =
        let name = (validate_dns_label_iff (punycode ++ r) _).0 (is_ok-eq-ok _ e) in
        absurd (unfold is_reserved has_prefix in ground (arith, name.1))
