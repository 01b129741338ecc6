-- ===== src/Auth/LoginRules/FirstMatch.antt =====
-- The first rule that matches decides.
use funcbox.Prelude.{
  ◌≡◌, refl, ap, ◌↔◌, inl, inr, true, false, Bytes, List, [], ◌∷◌, ◌++◌, All, arith, Bool-cases,
}
use funcbox.Go.Strings.{to_lower, trim_space}
use funcbox.Auth.LoginRules.{
  LoginRule, rule_matches, is_allow, evaluate_rules, evaluate_login_rules,
}

-- A rule that allows, behind rules none of which matches.
pub record AllowedBy (rules : List LoginRule) (email : Bytes) : Type 0 where
  pub before : List LoginRule
  pub rule : LoginRule
  pub after : List LoginRule
  pub split : rules ≡ before ++ rule ∷ after
  pub skipped : All (λ r. rule_matches r email ≡ false) before
  pub hit : rule_matches rule email ≡ true
  pub allows : is_allow rule.action ≡ true

evaluate_rules→ :
    (rules : List LoginRule) (email : Bytes)
    → evaluate_rules rules email ≡ true
    → AllowedBy rules email
unfolding evaluate_rules
evaluate_rules→ [] email h = absurd (false≢true h)
  where
    false≢true : false ≡ true → ⊥
    false≢true e = cc
evaluate_rules→ (r ∷ rules) email h = elim (Bool-cases (rule_matches r email)) [
  | inl e ↦ record {
    before = [];
    rule = r;
    after = rules;
    split = refl;
    skipped = tt;
    hit = e;
    allows = ground arith;
  }
  | inr e ↦
      let a = evaluate_rules→ rules email (ground arith) in
      record {
        before = r ∷ a.before;
        rule = a.rule;
        after = a.after;
        split = ap (λ (l : List LoginRule). r ∷ l) a.split;
        skipped = (e, a.skipped);
        hit = a.hit;
        allows = a.allows;
      }
]

evaluate_rules← :
    (before : List LoginRule) (rule : LoginRule) (after : List LoginRule) (email : Bytes)
    → All (λ r. rule_matches r email ≡ false) before
    → rule_matches rule email ≡ true
    → is_allow rule.action ≡ true
    → evaluate_rules (before ++ rule ∷ after) email ≡ true
unfolding evaluate_rules
evaluate_rules← [] rule after email s h a = ground arith
evaluate_rules← (r ∷ before) rule after email s h a =
    ground (arith, s.0, evaluate_rules← before rule after email s.1 h a)

-- An address, trimmed and in lower case, may log in exactly when some rule matches it and allows, and
-- no rule before that one matches. In particular no rules admit nobody.
pub evaluate_login_rules_iff :
    (rules : List LoginRule) (email : Bytes)
    → (evaluate_login_rules rules email ≡ true) ↔ AllowedBy rules (to_lower (trim_space email))
unfolding evaluate_login_rules
evaluate_login_rules_iff rules email = (
  evaluate_rules→ rules (to_lower (trim_space email)),
  λ a. rw a.split (
      evaluate_rules← a.before a.rule a.after (to_lower (trim_space email)) a.skipped a.hit
        a.allows),
)
