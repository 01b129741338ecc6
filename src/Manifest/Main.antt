-- ===== src/Manifest/Main.antt =====
-- manifest/main.go: the entry point of a bundle.
use funcbox.Prelude.{
  ◌≡◌, refl, ◌⊎◌, inl, inr, not, Bytes, codes, str_eq, List, [], ◌∷◌, Option, none, some, Result,
  ok, err, if◌then◌else◌, arith, Option-cases, sym,
}
use funcbox.Prelude.Maps.{Map, get}
use funcbox.Manifest.{ManifestError, main_not_found, no_entry_point}

abbrev pub default_main_candidates : List Bytes
default_main_candidates = codes "index.js" ∷ codes "index.mjs" ∷ []

unfoldable pub first_present : List Bytes → Map Bytes → Result ManifestError Bytes
unfolding get
first_present [] files = err no_entry_point
first_present (candidate ∷ rest) files = elim (get candidate files) [
  | some content ↦ ok candidate
  | none ↦ first_present rest files
]

unfoldable pub main_if_present : Bytes → Option Bytes → Result ManifestError Bytes
main_if_present main none = err main_not_found
main_if_present main (some content) = ok main

unfoldable pub resolve_main : Bytes → Map Bytes → Result ManifestError Bytes
unfolding main_if_present first_present str_eq
resolve_main main files =
    if not (str_eq main (codes ""))
    then main_if_present main (get main files)
    else first_present default_main_candidates files

first_present-present :
    (cs : List Bytes) (files : Map Bytes) {path : Bytes}
    → first_present cs files ≡ ok path
    → (content : Bytes) × (get path files ≡ some content)
unfolding first_present
first_present-present [] files h = absurd (ground arith)
first_present-present (c ∷ cs) files {path} h = elim (Option-cases (get c files)) [
  | inl e ↦ first_present-present cs files (rw (e, first_present) at h)
  | inr (content, e) ↦ (content, let p : c ≡ path = ground arith in rw (← p) e)
]

-- The entry point that is resolved is a file of the bundle; a main that the manifest names is kept.
pub resolve_main-present :
    (main : Bytes) (files : Map Bytes) {path : Bytes}
    → resolve_main main files ≡ ok path
    → ((content : Bytes) × (get path files ≡ some content)) × ((main ≡ []) ⊎ (path ≡ main))
unfolding resolve_main main_if_present str_eq
resolve_main-present [] files h = (first_present-present default_main_candidates files h, inl refl)
resolve_main-present (c ∷ main) files {path} h = elim (Option-cases (get (c ∷ main) files)) [
  | inl e ↦ absurd (ground arith)
  | inr (content, e) ↦
      let p : (c ∷ main) ≡ path = ground arith in ((content, rw (← p) e), inr (sym p))
]
