-- ===== src/Auth/LoginRules.antt =====
-- server/internal/auth/loginrules.go, with the rules of server/internal/store/types.go. Their types
-- and actions are strings.
pub mod FirstMatch
use funcbox.Prelude.{
  Bool, true, false, Bytes, codes, str_eq, List, [], ◌∷◌, Option, none, some, if◌then◌else◌,
}
use funcbox.Go.Strings.{to_lower, trim_space, trim_prefix, equal_fold, cut}
use funcbox.Go.Match.{glob_match}

pub record LoginRule : Type 0 where
  pub rule_type : Bytes
  pub value : Bytes
  pub action : Bytes

-- strings.Cut(email, "@"), and the comparison with what stands behind the first @
unfoldable pub domain_matches : Bytes → Option (Bytes × Bytes) → Bool
unfolding equal_fold trim_prefix trim_space
domain_matches value none = false
domain_matches value (some (local, domain)) =
    equal_fold (trim_prefix (trim_space value) (codes "@")) domain

-- LoginRuleTypeDefault and the other types
unfoldable pub rule_matches : LoginRule → Bytes → Bool
unfolding equal_fold trim_space to_lower domain_matches cut glob_match str_eq
rule_matches r email =
    if str_eq r.rule_type (codes "default")
    then true
    else if str_eq r.rule_type (codes "email_exact")
    then equal_fold (trim_space r.value) email
    else if str_eq r.rule_type (codes "email_domain")
    then domain_matches r.value (cut 64 email)
    else if str_eq r.rule_type (codes "email_glob")
    then glob_match (to_lower (trim_space r.value)) email
    else false

unfoldable pub is_allow : Bytes → Bool
unfolding str_eq
is_allow action = str_eq action (codes "allow")

unfoldable pub evaluate_rules : List LoginRule → Bytes → Bool
unfolding rule_matches is_allow
evaluate_rules [] email = false
evaluate_rules (r ∷ rules) email =
    let rest = evaluate_rules rules email in
    if rule_matches r email then is_allow r.action else rest

unfoldable pub evaluate_login_rules : List LoginRule → Bytes → Bool
unfolding evaluate_rules to_lower trim_space
evaluate_login_rules rules email = evaluate_rules rules (to_lower (trim_space email))
