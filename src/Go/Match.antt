-- ===== src/Go/Match.antt =====
-- path.Match and filepath.Match (on Unix): shell patterns, on ASCII texts. `glob_match` is false also
-- where the pattern is malformed: both callers treat the error so. The search takes the first match
-- of a chunk behind a star, as the library does.
use funcbox.Prelude.{
  ℕ, Bool, true, false, not, ◌&&◌, ◌||◌, Bytes, List, [], ◌∷◌, ◌==◌, leb, any, is_empty, Option,
  none, some, if◌then◌else◌,
}
use funcbox.Go.Strings.{contains_byte}

-- `class negated ranges` is a bracket expression.
pub data GlobItem : Type 0 where
  byte : ℕ → GlobItem
  any_byte : GlobItem
  class : Bool → List (ℕ × ℕ) → GlobItem

-- The items up to the next star, with whether a star stands in front of them.
pub record Chunk : Type 0 where
  pub star : Bool
  pub items : List GlobItem

-- Where the scanner of a pattern stands: outside of brackets, behind a backslash, or in brackets
-- before a range, behind a backslash there, behind its lower bound, or before its upper one.
pub data Scan : Type 0 where
  outside escaped : Scan
  opened : Scan
  in_class escaped_low : Bool → List (ℕ × ℕ) → Scan
  after_low before_high escaped_high : Bool → List (ℕ × ℕ) → ℕ → Scan

-- An item in front of what the rest of the pattern gives.
unfoldable pub with_item : GlobItem → Option (List Chunk) → Option (List Chunk)
with_item i none = none
with_item i (some []) = some (record { star = false; items = i ∷ [] } ∷ [])
with_item i (some (c ∷ cs)) =
    if c.star
    then some (record { star = false; items = i ∷ [] } ∷ c ∷ cs)
    else some (record { star = false; items = i ∷ c.items } ∷ cs)

unfoldable pub with_star : Option (List Chunk) → Option (List Chunk)
with_star none = none
with_star (some []) = some (record { star = true; items = [] } ∷ [])
with_star (some (c ∷ cs)) = some (record { star = true; items = c.items } ∷ cs)

-- '\\' is 92, '[' 91, ']' 93, '^' 94, '-' 45, '*' 42, '?' 63
unfoldable pub scan_glob : Scan → Bytes → Option (List Chunk)
unfolding with_item with_star
scan_glob outside [] = some []
scan_glob escaped [] = none
scan_glob opened [] = none
scan_glob (in_class neg rs) [] = none
scan_glob (escaped_low neg rs) [] = none
scan_glob (after_low neg rs lo) [] = none
scan_glob (before_high neg rs lo) [] = none
scan_glob (escaped_high neg rs lo) [] = none
scan_glob outside (c ∷ s) =
    let plain = scan_glob outside s in
    let escape = scan_glob escaped s in
    let bracket = scan_glob opened s in
    if c == 42
    then with_star plain
    else if c == 63
    then with_item any_byte plain
    else if c == 92
    then escape
    else if c == 91
    then bracket
    else with_item (byte c) plain
scan_glob escaped (c ∷ s) = with_item (byte c) (scan_glob outside s)
scan_glob opened (c ∷ s) =
    let negated = scan_glob (in_class true []) s in
    let escape = scan_glob (escaped_low false []) s in
    let low = scan_glob (after_low false [] c) s in
    if c == 94
    then negated
    else if c == 45 || c == 93
    then none
    else if c == 92
    then escape
    else low
scan_glob (in_class neg rs) (c ∷ s) =
    let closed = with_item (class neg rs) (scan_glob outside s) in
    let escape = scan_glob (escaped_low neg rs) s in
    let low = scan_glob (after_low neg rs c) s in
    if c == 93 && not (is_empty rs)
    then closed
    else if c == 45 || c == 93
    then none
    else if c == 92
    then escape
    else low
scan_glob (escaped_low neg rs) (c ∷ s) = scan_glob (after_low neg rs c) s
scan_glob (after_low neg rs lo) (c ∷ s) =
    let closed = with_item (class neg ((lo, lo) ∷ rs)) (scan_glob outside s) in
    let high = scan_glob (before_high neg rs lo) s in
    let escape = scan_glob (escaped_low neg ((lo, lo) ∷ rs)) s in
    let low = scan_glob (after_low neg ((lo, lo) ∷ rs) c) s in
    if c == 93 then closed else if c == 45 then high else if c == 92 then escape else low
scan_glob (before_high neg rs lo) (c ∷ s) =
    let escape = scan_glob (escaped_high neg rs lo) s in
    let next = scan_glob (in_class neg ((lo, c) ∷ rs)) s in
    if c == 45 || c == 93 then none else if c == 92 then escape else next
scan_glob (escaped_high neg rs lo) (c ∷ s) = scan_glob (in_class neg ((lo, c) ∷ rs)) s

unfoldable pub in_range : ℕ → ℕ × ℕ → Bool
in_range c (lo, hi) = leb lo c && leb c hi

unfoldable pub item_matches : GlobItem → ℕ → Bool
unfolding in_range
item_matches (byte b) c = c == b
item_matches any_byte c = not (c == 47)
item_matches (class negated ranges) c =
    if negated then not (any (in_range c) ranges) else any (in_range c) ranges

-- matchChunk: what is left of the name
unfoldable pub match_chunk : List GlobItem → Bytes → Option Bytes
unfolding item_matches
match_chunk [] s = some s
match_chunk (i ∷ items) [] = none
match_chunk (i ∷ items) (c ∷ s) =
    let rest = match_chunk items s in if item_matches i c then rest else none

-- The last chunk has to use up the name.
unfoldable pub accepted : Bool → Option Bytes → Option Bytes
accepted last none = none
accepted last (some t) = if last && not (is_empty t) then none else some t

unfoldable pub or_else : Option Bytes → Option Bytes → Option Bytes
or_else none o = o
or_else (some t) o = some t

-- The loop behind a star, which does not skip a slash.
unfoldable pub seek : Bool → List GlobItem → Bytes → Option Bytes
unfolding match_chunk accepted or_else
seek last items [] = none
seek last items (c ∷ s) =
    let here = accepted last (match_chunk items s) in
    let later = seek last items s in if c == 47 then none else or_else here later

unfoldable pub match_chunks : List Chunk → Bytes → Bool
unfolding match_chunk accepted or_else seek contains_byte
match_chunks [] s = is_empty s
match_chunks (c ∷ cs) s =
    let last = is_empty cs in
    let found =
      or_else (accepted last (match_chunk c.items s))
        (if c.star then seek last c.items s else none) in
    if c.star && is_empty c.items
    then not (contains_byte 47 s)
    else elim found [ some t ↦ match_chunks cs t | none ↦ false ]

unfoldable pub glob_chunks_match : Option (List Chunk) → Bytes → Bool
unfolding match_chunks
glob_chunks_match none s = false
glob_chunks_match (some cs) s = match_chunks cs s

unfoldable pub glob_match : Bytes → Bytes → Bool
unfolding scan_glob glob_chunks_match
glob_match pattern name = glob_chunks_match (scan_glob outside pattern) name
