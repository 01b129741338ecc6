-- ===== src/Policy/Visibility.antt =====
-- policy/visibility.go: exposure levels and their minimum.
pub mod Minimum
use funcbox.Prelude.{
  ℕ, Bool, Bytes, codes, str_eq, List, [], ◌∷◌, ltb, if◌then◌else◌, Result, ok, err,
}

-- in the order of the constants
pub data Visibility : Type 0 where
  workspace org public : Visibility

-- the constant's number
unfoldable pub rank : Visibility → ℕ
rank workspace = 0
rank org = 1
rank public = 2

unfoldable pub to_string : Visibility → Bytes
to_string workspace = codes "workspace"
to_string org = codes "org"
to_string public = codes "public"

-- ErrInvalidVisibility
pub data VisibilityError : Type 0 where
  invalid_visibility : Bytes → VisibilityError

unfoldable pub parse_visibility : Bytes → Result VisibilityError Visibility
unfolding str_eq
parse_visibility s =
    if str_eq s (codes "public")
    then ok public
    else if str_eq s (codes "org")
    then ok org
    else if str_eq s (codes "workspace")
    then ok workspace
    else err (invalid_visibility s)

-- the loop over the arguments behind the first
unfoldable pub narrow : Visibility → List Visibility → Visibility
unfolding rank
narrow narrowest [] = narrowest
narrow narrowest (v ∷ vs) = narrow (if ltb (rank v) (rank narrowest) then v else narrowest) vs

unfoldable pub min_visibility : List Visibility → Visibility
unfolding narrow
min_visibility [] = workspace
min_visibility (v ∷ vs) = narrow v vs
