-- ===== src/Go/Path.antt =====
-- Package path: Clean, by segments. A rooted path drops the ".." that would leave the root.
use funcbox.Prelude.{Bool, true, false, ◌||◌, ◌&&◌, Bytes, List, [], ◌∷◌, ◌==◌, if◌then◌else◌}
use funcbox.Go.Strings.{split, join, has_prefix}

-- '.' and '/'
abbrev pub dot : Bytes
dot = 46 ∷ []

abbrev pub dot_dot : Bytes
dot_dot = 46 ∷ 46 ∷ []

abbrev pub slash : Bytes
slash = 47 ∷ []

unfoldable pub is_dot : Bytes → Bool
is_dot [] = false
is_dot (x ∷ []) = x == 46
is_dot (x ∷ y ∷ s) = false

unfoldable pub is_dot_dot : Bytes → Bool
is_dot_dot [] = false
is_dot_dot (x ∷ []) = false
is_dot_dot (x ∷ y ∷ []) = x == 46 && y == 46
is_dot_dot (x ∷ y ∷ z ∷ s) = false

unfoldable pub no_bytes : Bytes → Bool
no_bytes [] = true
no_bytes (x ∷ s) = false

-- A ".." after the segments `out`, the last of which stands first.
unfoldable pub back : Bool → List Bytes → List Bytes
unfolding is_dot_dot
back true [] = []
back false [] = dot_dot ∷ []
back rooted (w ∷ out) = if is_dot_dot w then dot_dot ∷ w ∷ out else out

unfoldable pub clean_segment : Bool → Bytes → List Bytes → List Bytes
unfolding is_dot is_dot_dot no_bytes back
clean_segment rooted w out =
    if no_bytes w || is_dot w then out else if is_dot_dot w then back rooted out else w ∷ out

unfoldable pub clean_segments : Bool → List Bytes → List Bytes → List Bytes
unfolding clean_segment
clean_segments rooted [] out = out
clean_segments rooted (w ∷ ws) out = clean_segments rooted ws (clean_segment rooted w out)

abbrev pub reverse_onto : List Bytes → List Bytes → List Bytes
reverse_onto [] acc = acc
reverse_onto (w ∷ ws) acc = reverse_onto ws (w ∷ acc)

unfoldable pub clean : Bytes → Bytes
unfolding clean_segments has_prefix split join no_bytes
clean s =
    let rooted : Bool = has_prefix s slash in
    let out : Bytes = join 47 (reverse_onto (clean_segments rooted (split 47 s) []) []) in
    if rooted then 47 ∷ out else if no_bytes out then dot else out
