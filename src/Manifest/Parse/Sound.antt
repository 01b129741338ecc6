-- ===== src/Manifest/Parse/Sound.antt =====
-- What a manifest that Parse returns says, field by field.
use funcbox.Prelude.{
  ℕ, ◌⊎◌, inl, inr, ◌<◌, zero, suc, ◌≡◌, refl, sym, ap, ◌∙◌, ok-injective, Bytes, str_eq, List, [],
  ◌∷◌, Option, none, some, Result, ok, err, >>=-eq-ok, arith,
}
use mathlib.Core.Path.{subst}
use funcbox.Prelude.Maps.{Map}
use funcbox.Go.Strconv.{ℤ, pos, negsuc}
use funcbox.Policy.Pattern.{Pattern, parse_pattern}
use funcbox.Policy.Fetch.{FetchMode, deny, parse_fetch_mode}
use funcbox.Policy.Visibility.{Visibility, parse_visibility}
use funcbox.Manifest.{
  FetchPermission, Manifest, ManifestError, invalid_timeout, invalid_memory, invalid_fetch_policy,
  invalid_visibility,
}
use funcbox.Manifest.Size.{parse_byte_size}
use funcbox.Manifest.Parse.{
  RawFetch, RawManifest, Decoders, as_error, positive, positive_parsed, build_mode, build_allow,
  build_fetch_permission, build_visibility, build_timeout, build_memory, build_manifest,
  build_decoded, parse_found, parse, find_manifest_file, zero_manifest,
}

-- Nothing was given, or what was given is read as a positive number.
abbrev pub PositiveRead : (Bytes → ℤ → Type 0) → Bytes → Option ℤ → Type 0
PositiveRead Reads [] o = o ≡ none
PositiveRead Reads (c ∷ s) none = ⊥
PositiveRead Reads (c ∷ s) (some (pos n)) = (0 < n) × Reads (c ∷ s) (pos n)
PositiveRead Reads (c ∷ s) (some (negsuc n)) = ⊥

-- The patterns are what ParsePattern returns for the texts, in order.
abbrev pub Parses : List Bytes → List Pattern → Type 0
Parses [] [] = Unit
Parses [] (p ∷ ps) = ⊥
Parses (s ∷ ss) [] = ⊥
Parses (s ∷ ss) (p ∷ ps) = (parse_pattern s ≡ ok p) × Parses ss ps

abbrev pub ModeRead : Bytes → FetchMode → Type 0
ModeRead [] m = m ≡ deny
ModeRead (c ∷ s) m = parse_fetch_mode (c ∷ s) ≡ ok m

abbrev pub VisibilityRead : Bytes → Option Visibility → Type 0
VisibilityRead [] v = v ≡ none
VisibilityRead (c ∷ s) none = ⊥
VisibilityRead (c ∷ s) (some v) = parse_visibility (c ∷ s) ≡ ok v

pub record Agrees (d : Decoders) (raw : RawManifest) (m : Manifest) : Type 0 where
  pub texts :
      (m.name ≡ raw.name)
      × (m.owner ≡ raw.owner)
      × (m.main ≡ raw.main)
      × (m.description ≡ raw.description)
  pub timeout : PositiveRead (λ s n. d.parse_duration s ≡ some n) raw.timeout m.timeout
  pub memory : PositiveRead (λ s n. parse_byte_size d.floats s ≡ ok n) raw.memory m.memory
  pub nodejs : m.nodejs ≡ raw.nodejs
  pub mode : ModeRead raw.fetch.mode m.fetch.mode
  pub allow : Parses raw.fetch.allow m.fetch.allow
  pub visibility : VisibilityRead raw.visibility m.visibility
  pub env : m.env ≡ raw.env

as_error-eq-ok {ℓ} :
    {E A : Type ℓ} (e : ManifestError) (r : Result E A) {a : A} → as_error e r ≡ ok a → r ≡ ok a
unfolding as_error
as_error-eq-ok e (ok a) h = cc
as_error-eq-ok e (err x) h = cc

positive-PositiveRead :
    (Reads : Bytes → ℤ → Type 0) (e : ManifestError) (c : ℕ) (s : Bytes) (n : ℤ) (o : Option ℤ)
    → Reads (c ∷ s) n
    → positive e n ≡ ok o
    → PositiveRead Reads (c ∷ s) o
unfolding positive
positive-PositiveRead Reads e c s (pos zero) o r h = cc
positive-PositiveRead Reads e c s (negsuc n) o r h = cc
positive-PositiveRead Reads e c s (pos (suc n)) o r h =
    subst (PositiveRead Reads (c ∷ s)) (ok-injective h) (omega arith, r)

pub build_allow-Parses :
    (ss : List Bytes) (ps : List Pattern) → build_allow ss ≡ ok ps → Parses ss ps
unfolding build_allow
build_allow-Parses [] [] h = tt
build_allow-Parses [] (p ∷ ps) h = cc
build_allow-Parses (s ∷ ss) ps h =
    let (q, eq, h') = >>=-eq-ok (as_error invalid_fetch_policy (parse_pattern s)) _ h in
    let (qs, eqs, h'') = >>=-eq-ok (build_allow ss) _ h' in
    shape ps (as_error-eq-ok invalid_fetch_policy (parse_pattern s) eq)
      (build_allow-Parses ss qs eqs) (ok-injective h'')
  where
    shape :
        (ps : List Pattern) {q : Pattern} {qs : List Pattern}
        → parse_pattern s ≡ ok q
        → Parses ss qs
        → (q ∷ qs) ≡ ps
        → Parses (s ∷ ss) ps
    shape [] a b k = cc
    shape (p ∷ ps) a b k = (cc, subst (Parses ss) (cc) b)

build_mode-ModeRead : (s : Bytes) (m : FetchMode) → build_mode s ≡ ok m → ModeRead s m
unfolding build_mode str_eq
build_mode-ModeRead [] m h = sym (ok-injective h)
build_mode-ModeRead (c ∷ s) m h = as_error-eq-ok invalid_fetch_policy (parse_fetch_mode (c ∷ s)) h

build_visibility-VisibilityRead :
    (s : Bytes) (o : Option Visibility) → build_visibility s ≡ ok o → VisibilityRead s o
unfolding build_visibility str_eq
build_visibility-VisibilityRead [] o h = sym (ok-injective h)
build_visibility-VisibilityRead (c ∷ s) o h =
    let (v, e, h') = >>=-eq-ok (as_error invalid_visibility (parse_visibility (c ∷ s))) _ h in
    subst (VisibilityRead (c ∷ s)) (ok-injective h')
      (as_error-eq-ok invalid_visibility (parse_visibility (c ∷ s)) e)

pub build_fetch_permission-parts :
    (raw : RawFetch) (f : FetchPermission)
    → build_fetch_permission raw ≡ ok f
    → (build_mode raw.mode ≡ ok f.mode) × (build_allow raw.allow ≡ ok f.allow)
unfolding build_fetch_permission
build_fetch_permission-parts raw f h =
    let (m, e, h') = >>=-eq-ok (build_mode raw.mode) _ h in
    let (ps, e', h'') = >>=-eq-ok (build_allow raw.allow) _ h' in
    let q = ok-injective h'' in
    (e ∙ ap (λ (g : FetchPermission). ok g.mode) q, e' ∙ ap (λ (g : FetchPermission). ok g.allow) q)

module _ (d : Decoders) where
  abbrev DurationRead : Bytes → ℤ → Type 0
  DurationRead s n = d.parse_duration s ≡ some n

  abbrev SizeRead : Bytes → ℤ → Type 0
  SizeRead s n = parse_byte_size d.floats s ≡ ok n

  build_timeout-PositiveRead :
      (s : Bytes) (o : Option ℤ) → build_timeout d s ≡ ok o → PositiveRead DurationRead s o
  unfolding build_timeout positive_parsed str_eq
  build_timeout-PositiveRead [] o h = sym (ok-injective h)
  build_timeout-PositiveRead (c ∷ s) o h = by_number (d.parse_duration (c ∷ s)) refl h
    where
      by_number :
          (n : Option ℤ)
          → d.parse_duration (c ∷ s) ≡ n
          → positive_parsed invalid_timeout n ≡ ok o
          → PositiveRead DurationRead (c ∷ s) o
      by_number none e k = cc
      by_number (some n) e k = positive-PositiveRead DurationRead invalid_timeout c s n o e k

  build_memory-PositiveRead :
      (s : Bytes) (o : Option ℤ) → build_memory d s ≡ ok o → PositiveRead SizeRead s o
  unfolding build_memory str_eq
  build_memory-PositiveRead [] o h = sym (ok-injective h)
  build_memory-PositiveRead (c ∷ s) o h =
      let (n, e, h') = >>=-eq-ok (parse_byte_size d.floats (c ∷ s)) _ h in
      positive-PositiveRead SizeRead invalid_memory c s n o e h'

  build_manifest-Agrees :
      (raw : RawManifest) (m : Manifest) → build_manifest d raw ≡ ok m → Agrees d raw m
  unfolding build_manifest
  build_manifest-Agrees raw m h =
      let (t, et, h1) = >>=-eq-ok (build_timeout d raw.timeout) _ h in
      let (n, en, h2) = >>=-eq-ok (build_memory d raw.memory) _ h1 in
      let (f, ef, h3) = >>=-eq-ok (build_fetch_permission raw.fetch) _ h2 in
      let (v, ev, h4) = >>=-eq-ok (build_visibility raw.visibility) _ h3 in
      let fetch = build_fetch_permission-parts raw.fetch f ef in
      subst (Agrees d raw) (ok-injective h4) (record {
        texts = (refl, refl, refl, refl);
        timeout = build_timeout-PositiveRead raw.timeout t et;
        memory = build_memory-PositiveRead raw.memory n en;
        nodejs = refl;
        mode = build_mode-ModeRead raw.fetch.mode f.mode fetch.0;
        allow = build_allow-Parses raw.fetch.allow f.allow fetch.1;
        visibility = build_visibility-VisibilityRead raw.visibility v ev;
        env = refl;
      })

  -- The manifest is the empty one, or read from the file that is found.
  abbrev pub IsReadFrom : Map Bytes → Manifest → Type 0
  IsReadFrom files m =
      ((find_manifest_file files ≡ none) × (m ≡ zero_manifest))
      ⊎ ((name content : Bytes) × (raw : RawManifest) × (find_manifest_file files
            ≡ some (name, content))
          × (d.unmarshal content ≡ some raw)
          × (m.source ≡ name)
          × Agrees d raw m)

  -- A manifest that Parse returns is the empty one, where the bundle has no manifest file, or its
  -- source is the name of the file that is found and it agrees with what the decoder makes of the
  -- content: the texts, the nodejs flag and the env entries are kept; a timeout or a memory size is
  -- what its parser reads, and positive, or missing where none is given; an omitted fetch mode is
  -- deny; and the mode, every allow entry and the visibility are what their parsers return.
  pub parse-Agrees : (files : Map Bytes) (m : Manifest) → parse d files ≡ ok m → IsReadFrom files m
  unfolding parse parse_found build_decoded
  parse-Agrees files m h = by_file (find_manifest_file files) refl h
    where
      sourced :
          (raw : RawManifest) (n : Manifest) (name : Bytes)
          → Agrees d raw n
          → Agrees d raw (record n { source = name })
      sourced raw n name a = record {
        texts = a.texts;
        timeout = a.timeout;
        memory = a.memory;
        nodejs = a.nodejs;
        mode = a.mode;
        allow = a.allow;
        visibility = a.visibility;
        env = a.env;
      }

      by_raw :
          (name content : Bytes) (r : Option RawManifest)
          → find_manifest_file files ≡ some (name, content)
          → d.unmarshal content ≡ r
          → build_decoded d name r ≡ ok m
          → IsReadFrom files m
      by_raw name content none e u k = cc
      by_raw name content (some raw) e u k =
          let (n, built, k') = >>=-eq-ok (build_manifest d raw) _ k in
          let q = ok-injective k' in
          inr (
            name,
            content,
            raw,
            e,
            u,
            sym (ap (λ (x : Manifest). x.source) q),
            subst (Agrees d raw) q (sourced raw n name (build_manifest-Agrees raw n built)),
          )

      by_file :
          (o : Option (Bytes × Bytes))
          → find_manifest_file files ≡ o
          → parse_found d o ≡ ok m
          → IsReadFrom files m
      by_file none e k = inl (e, sym (ok-injective k))
      by_file (some (name, content)) e k = by_raw name content (d.unmarshal content) e refl k
