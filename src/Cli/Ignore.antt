-- ===== src/Cli/Ignore.antt =====
-- internal/cli/ignore.go: the rules of a .funcboxignore file. TrimSpace is the function on ASCII.
pub mod LastMatch
pub mod Segments
use funcbox.Prelude.{
  ℕ, Bool, true, false, not, ◌&&◌, ◌||◌, Bytes, codes, str_eq, List, [], ◌∷◌, length, drop,
  is_empty, Option, none, some, if◌then◌else◌, ltb, ◌==◌,
}
use funcbox.Go.Strings.{has_prefix, has_suffix, trim_suffix, trim_space, trim_right_where, split}
use funcbox.Go.Match.{glob_match}

pub record IgnoreRule : Type 0 where
  pub negate : Bool
  pub dir_only : Bool
  pub anchored : Bool
  pub segments : List Bytes

-- what is left of the text behind an optional first byte
unfoldable pub without_first : Bool → Bytes → Bytes
without_first cond s = if cond then drop 1 s else s

unfoldable pub rule_of : Bool → Bool → Bool → Bytes → Option IgnoreRule
unfolding split
rule_of negate anchored dir_only pattern =
    let segments = split 47 pattern in
    if is_empty pattern
    then none
    else some (record {
      negate = negate;
      dir_only = dir_only;
      anchored = anchored || ltb 1 (length segments);
      segments = segments;
    })

-- '!' is 33, '/' is 47
unfoldable pub parse_ignore_line : Bytes → Option IgnoreRule
unfolding has_prefix has_suffix trim_suffix without_first rule_of
parse_ignore_line pattern =
    let negate = has_prefix pattern (33 ∷ []) in
    let positive = without_first negate pattern in
    let anchored = has_prefix positive (47 ∷ []) in
    let relative = without_first anchored positive in
    let dir_only = has_suffix relative (47 ∷ []) in
    if is_empty positive
    then none
    else rule_of negate anchored dir_only
        (if dir_only then trim_suffix relative (47 ∷ []) else relative)

unfoldable pub with_rule : Option IgnoreRule → List IgnoreRule → List IgnoreRule
with_rule none rules = rules
with_rule (some r) rules = r ∷ rules

-- A line without its carriage returns and the blanks around it; '#' is 35.
unfoldable pub line_rule : Bytes → Option IgnoreRule
unfolding has_prefix parse_ignore_line
line_rule trimmed =
    if is_empty trimmed || has_prefix trimmed (35 ∷ []) then none else parse_ignore_line trimmed

unfoldable pub parse_lines : List Bytes → List IgnoreRule
unfolding with_rule line_rule trim_space trim_right_where
parse_lines [] = []
parse_lines (line ∷ lines) =
    with_rule (line_rule (trim_space (trim_right_where (λ c. c == 13) line))) (parse_lines lines)

unfoldable pub new_matcher : Bytes → List IgnoreRule
unfolding parse_lines split
new_matcher data_read = parse_lines (split 10 data_read)

unfoldable pub is_any_depth : Bytes → Bool
unfolding str_eq
is_any_depth p = str_eq p (codes "**")

-- segmentsMatch
unfoldable pub segments_match : List Bytes → List Bytes → Bool
unfolding is_any_depth glob_match
segments_match [] [] = true
segments_match [] (s ∷ segs) = false
segments_match (p ∷ pattern) [] =
    let none_left = segments_match pattern [] in if is_any_depth p then none_left else false
segments_match (p ∷ pattern) (s ∷ segs) =
    let skip_pattern = segments_match pattern (s ∷ segs) in
    let skip_segment = segments_match (p ∷ pattern) segs in
    let both = segments_match pattern segs in
    if is_any_depth p then skip_pattern || skip_segment else glob_match p s && both

-- the loop over `start`
unfoldable pub some_suffix_matches : List Bytes → List Bytes → Bool
unfolding segments_match
some_suffix_matches pattern [] = segments_match pattern []
some_suffix_matches pattern (s ∷ segs) =
    let later = some_suffix_matches pattern segs in
    if segments_match pattern (s ∷ segs) then true else later

unfoldable pub rule_matches : IgnoreRule → List Bytes → Bool
unfolding segments_match some_suffix_matches
rule_matches rule path_segments =
    if rule.anchored
    then segments_match rule.segments path_segments
    else some_suffix_matches rule.segments path_segments

-- A rule takes part in the decision on a path.
unfoldable pub applies : Bool → List Bytes → IgnoreRule → Bool
unfolding rule_matches
applies is_dir segs rule = if rule.dir_only && not is_dir then false else rule_matches rule segs

unfoldable pub run_rules : Bool → List Bytes → List IgnoreRule → Bool → Bool
unfolding applies
run_rules is_dir segs [] ignored = ignored
run_rules is_dir segs (rule ∷ rules) ignored =
    run_rules is_dir segs rules (if applies is_dir segs rule then not rule.negate else ignored)

-- (*Matcher).Match, of a matcher that is there
unfoldable pub ignores : List IgnoreRule → Bytes → Bool → Bool
unfolding run_rules split
ignores rules rel_path is_dir =
    if is_empty rel_path then false else run_rules is_dir (split 47 rel_path) rules false
