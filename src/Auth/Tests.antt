-- ===== src/Auth/Tests.antt =====
-- Runs of package auth, and its theorems at concrete inputs.
use funcbox.Prelude.{
  ℕ, map, ◌-◌, ◌*◌, ◌≤◌, ap, leb, some, ok, err, all, ◌+◌, ◌≡◌, refl, true, Bytes, codes, ◌∷◌, ◌++◌,
  str_eq, if◌then◌else◌, arith, [], ◌↔◌, false,
}
use funcbox.Go.Chars.{is_lower_alnum}
use funcbox.Go.Strings.{to_lower, trim_space}
use funcbox.Go.Strconv.{pos}
use funcbox.Go.Strings.{contains_byte}
use funcbox.Auth.Accounts.{User, Directory, unauthenticated, user_status_active}
use funcbox.Auth.AccessToken.{
  Codec, Claims, audience_mcp, claims_of, issue_access_token, verify_access_token,
  authenticate_bearer, sign_access_token, unix, second, max_access_token_ttl,
  default_access_token_ttl,
}
use funcbox.Auth.AccessToken.Lifetime.{EncodesBack, verify-issue, authenticate_bearer-issue}
use funcbox.Auth.LoginRules.{LoginRule, evaluate_login_rules}
use funcbox.Auth.LoginRules.FirstMatch.{AllowedBy, evaluate_login_rules_iff}
use funcbox.Auth.UserId.{LookUp, claimed, not_found, derived, out_of_fuel, derive_user_id}
use funcbox.Auth.UserId.Sound.{punycode, derive_user_id_sound}
use funcbox.Auth.UserId.Endless.{derive_user_id-endless}
use funcbox.Manifest.Validate.Rules.{IsName}

abbrev bob_claimed : Bytes → LookUp
bob_claimed s = if str_eq s (codes "bob") then claimed else not_found

derive_user_id_run : derive_user_id bob_claimed 2 (codes "Bob@x") ≡ derived (codes "bob-2")
unfolding derive_user_id str_eq
derive_user_id_run = refl

derive_user_id_sound_example : IsName (codes "bob-2") × (bob_claimed (codes "bob-2") ≡ not_found)
derive_user_id_sound_example = derive_user_id_sound bob_claimed 2 (codes "Bob@x") derive_user_id_run

lower_run : all is_lower_alnum (97 ∷ codes "b") ≡ true
unfolding is_lower_alnum
lower_run = refl

derive_user_id-endless_example :
    derive_user_id bob_claimed 1000 (punycode ++ ((97 ∷ codes "b") ++ 64 ∷ codes "x")) ≡ out_of_fuel
derive_user_id-endless_example =
    derive_user_id-endless bob_claimed 1000 97 (codes "b") (codes "x") lower_run (omega arith)
      (omega arith)

abbrev domain_rule : LoginRule
domain_rule = record {
  rule_type = codes "email_domain";
  value = codes "@Example.com";
  action = codes "allow";
}

abbrev blocked_rule : LoginRule
blocked_rule = record {
  rule_type = codes "email_glob";
  value = codes "tmp-[0-9]*@*";
  action = codes "deny";
}

evaluate_login_rules_run :
    (evaluate_login_rules (blocked_rule ∷ domain_rule ∷ []) (codes " Me@example.com") ≡ true)
    × (evaluate_login_rules (blocked_rule ∷ domain_rule ∷ []) (codes "tmp-7@example.com") ≡ false)
unfolding evaluate_login_rules
evaluate_login_rules_run = (refl, refl)

evaluate_login_rules_iff_example :
    (evaluate_login_rules (blocked_rule ∷ domain_rule ∷ []) (codes " Me@example.com") ≡ true)
    ↔ AllowedBy (blocked_rule ∷ domain_rule ∷ []) (to_lower (trim_space (codes " Me@example.com")))
evaluate_login_rules_iff_example =
    evaluate_login_rules_iff (blocked_rule ∷ domain_rule ∷ []) (codes " Me@example.com")

abbrev alice : User
alice = record { id = codes "u1"; email = codes "a@b.c"; status = user_status_active }

abbrev two_people : Directory
two_people = record {
  user_by_id = λ i. some alice;
  user_by_email = λ e. some alice;
  login_rules = some [];
}

abbrev alices_claims : Claims
alices_claims = claims_of alice (pos 0) audience_mcp 0

-- A code that moves each byte by 100, and knows the claims of one user.
abbrev shifting : Codec
shifting = record {
  marshal = λ c. c.sub;
  unmarshal = λ b. some alices_claims;
  encode = map (λ x. x + 100);
  decode = λ b. some (map (λ x. x - 100) b);
  mac = λ b. b;
}

shift_back :
    (b : Bytes)
    → (map (λ x. x - 100) (map (λ x. x + 100) b) ≡ b)
      × (contains_byte b'.' (map (λ x. x + 100) b) ≡ false)
unfolding contains_byte
shift_back [] = (refl, refl)
shift_back (x ∷ b) = (ground (arith, shift_back b), ground (arith, shift_back b))

shifting-EncodesBack : EncodesBack shifting
shifting-EncodesBack b = (ap (λ (x : Bytes). some x) ((shift_back b).0), (shift_back b).1)

issue_access_token_run :
    issue_access_token shifting two_people (codes "u1") (pos 0) audience_mcp 0
    ≡ ok (sign_access_token shifting alices_claims, default_access_token_ttl)
unfolding issue_access_token
issue_access_token_run = refl

verify-issue_example :
    (token : Bytes) × (exp : ℕ) × (issue_access_token shifting two_people
        (codes "u1")
        (pos 0)
        audience_mcp
        0
      ≡ ok (token, exp))
    × (exp ≤ 0 + max_access_token_ttl)
    × (verify_access_token shifting (1000 * second) token
        ≡ (if leb (unix exp) (unix (1000 * second)) then err unauthenticated else ok alices_claims))
verify-issue_example =
    verify-issue shifting shifting-EncodesBack two_people (codes "u1") alice (pos 0) audience_mcp 0
      (1000 * second) refl refl refl

authenticate_bearer-issue_example :
    authenticate_bearer shifting two_people 0
      (codes "Bearer " ++ sign_access_token shifting alices_claims)
    ≡ err unauthenticated
authenticate_bearer-issue_example =
    authenticate_bearer-issue shifting shifting-EncodesBack two_people two_people (codes "u1") alice
      (pos 0) audience_mcp 0 0 (sign_access_token shifting alices_claims) default_access_token_ttl
      refl refl refl issue_access_token_run
