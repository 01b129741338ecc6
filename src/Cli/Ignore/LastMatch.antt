-- ===== src/Cli/Ignore/LastMatch.antt =====
-- The last rule that applies decides.
use funcbox.Prelude.{
  ◌≡◌, refl, ap, ◌∙◌, ◌↔◌, ◌⊎◌, inl, inr, Bool, true, false, not, Bytes, List, [], ◌∷◌, ◌++◌, All,
  is_empty, if◌then◌else◌, arith, Bool-cases,
}
use funcbox.Go.Strings.{split}
use funcbox.Cli.Ignore.{IgnoreRule, applies, run_rules, ignores}

-- A rule that excludes, with no rule behind it that applies.
pub record ExcludedBy (rules : List IgnoreRule) (segs : List Bytes) (is_dir : Bool) : Type 0 where
  pub before : List IgnoreRule
  pub rule : IgnoreRule
  pub after : List IgnoreRule
  pub split : rules ≡ before ++ rule ∷ after
  pub hit : applies is_dir segs rule ≡ true
  pub excludes : rule.negate ≡ false
  pub last : All (λ r. applies is_dir segs r ≡ false) after

module _ (is_dir : Bool) (segs : List Bytes) where
  run_rules_untouched :
      (rules : List IgnoreRule) (ignored : Bool)
      → All (λ r. applies is_dir segs r ≡ false) rules
      → run_rules is_dir segs rules ignored ≡ ignored
  unfolding run_rules
  run_rules_untouched [] ignored h = refl
  run_rules_untouched (r ∷ rules) ignored h = rw (h.0) (run_rules_untouched rules ignored (h.1))

  run_rules→ :
      (rules : List IgnoreRule) (ignored : Bool)
      → run_rules is_dir segs rules ignored ≡ true
      → ExcludedBy rules segs is_dir
        ⊎ ((ignored ≡ true) × All (λ r. applies is_dir segs r ≡ false) rules)
  unfolding run_rules
  run_rules→ [] ignored h = inr (h, tt)
  run_rules→ (r ∷ rules) ignored h =
      elim (run_rules→ rules (if applies is_dir segs r then not r.negate else ignored) h) [
        | inl x ↦ inl (record {
          before = r ∷ x.before;
          rule = x.rule;
          after = x.after;
          split = ap (λ (l : List IgnoreRule). r ∷ l) x.split;
          hit = x.hit;
          excludes = x.excludes;
          last = x.last;
        })
        | inr (q, untouched) ↦ elim (Bool-cases (applies is_dir segs r)) [
          | inl e ↦ inl (record {
            before = [];
            rule = r;
            after = rules;
            split = refl;
            hit = e;
            excludes = ground arith;
            last = untouched;
          })
          | inr e ↦ inr (ground arith, (e, untouched))
        ]
      ]

  run_rules← :
      (before : List IgnoreRule) (rule : IgnoreRule) (after : List IgnoreRule) (ignored : Bool)
      → applies is_dir segs rule ≡ true
      → rule.negate ≡ false
      → All (λ r. applies is_dir segs r ≡ false) after
      → run_rules is_dir segs (before ++ rule ∷ after) ignored ≡ true
  unfolding run_rules
  run_rules← [] rule after ignored h n l =
      run_rules_untouched after (if applies is_dir segs rule then not rule.negate else ignored) l
      ∙ ground arith
  run_rules← (r ∷ before) rule after ignored h n l =
      run_rules← before rule after (if applies is_dir segs r then not r.negate else ignored) h n l

-- A path is excluded exactly when some rule applies to it and excludes, and no later rule applies.
pub ignores_iff :
    (rules : List IgnoreRule) (rel_path : Bytes) (is_dir : Bool)
    → is_empty rel_path ≡ false
    → (ignores rules rel_path is_dir ≡ true) ↔ ExcludedBy rules (split 47 rel_path) is_dir
unfolding ignores
ignores_iff rules rel_path is_dir h = rw h (to, from)
  where
    to :
        run_rules is_dir (split 47 rel_path) rules false ≡ true
        → ExcludedBy rules (split 47 rel_path) is_dir
    to k = elim (run_rules→ is_dir (split 47 rel_path) rules false k) [
      | inl x ↦ x
      | inr (q, untouched) ↦ absurd (cc q)
    ]

    from :
        ExcludedBy rules (split 47 rel_path) is_dir
        → run_rules is_dir (split 47 rel_path) rules false ≡ true
    from x = rw x.split (
        run_rules← is_dir (split 47 rel_path) x.before x.rule x.after false x.hit x.excludes x.last)
