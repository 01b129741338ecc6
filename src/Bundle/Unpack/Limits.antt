-- ===== src/Bundle/Unpack/Limits.antt =====
-- What Unpack gives for an archive that it accepts.
use mathlib.Core.Path.{subst}
use funcbox.Prelude.{
  ℕ, suc, ◌+◌, ◌-◌, ◌≤◌, ◌≡◌, refl, sym, ◌∙◌, ap, inl, inr, Bool, true, false, Bytes, List, [], ◌∷◌,
  ltb, length, All, All-map, Option, none, some, Result, ok, err, >>=-eq-ok, if_err_iff,
  ok-injective, if◌then◌else◌, arith, not_ltb→le, Bool-cases, str_eq, str_eq_iff, str_eq_refl,
  str_eq_refl,
}
use funcbox.Prelude.Maps.{Map, get, put, remove}
use funcbox.Bundle.Paths.{
  BundleError, too_large, too_many_files, bad_path, read_failed, normalize_path,
}
use funcbox.Bundle.Paths.Safe.{IsSafePath, normalize_path-IsSafePath}
use funcbox.Bundle.Unpack.{
  Typeflag, type_dir, type_reg, type_other, TarEntry, Archive, Progress, read_within_budget,
  add_unless_known, read_file, read_entry, read_entries, unpack, max_files, max_unpacked_bytes,
}

abbrev pub size : Map Bytes → ℕ
size [] = 0
size ((k, v) ∷ m) = length v + size m

abbrev pub is_file : Typeflag → ℕ
is_file type_dir = 0
is_file type_reg = 1
is_file (type_other c) = 0

abbrev pub file_count : List TarEntry → ℕ
file_count [] = 0
file_count (e ∷ entries) = is_file e.typeflag + file_count entries

-- A directory, or a file that is found under its normalized name.
pub data Stored (files : Map Bytes) (e : TarEntry) : Type 0 where
  skipped : e.typeflag ≡ type_dir → Stored files e
  stored :
      (name : Bytes)
      → e.typeflag ≡ type_reg
      → normalize_path e.name ≡ ok name
      → get name files ≡ some e.contents
      → Stored files e

pub record IsUnpacked (entries : List TarEntry) (files : Map Bytes) : Type 0 where
  pub all_stored : All (Stored files) entries
  pub counted : length files ≡ file_count entries
  pub few : length files ≤ max_files
  pub small : size files ≤ max_unpacked_bytes
  pub safe : All (λ f. IsSafePath (f.0)) files

record IsProgress (s : Progress) : Type 0 where
  counted : length s.files ≡ s.count
  few : s.count ≤ max_files
  summed : size s.files ≡ s.total
  small : s.total ≤ max_unpacked_bytes
  safe : All (λ f. IsSafePath (f.0)) s.files

none≢some : {v : Bytes} → ◌≡◌ {A = Option Bytes} none (some v) → ⊥
none≢some h = cc

remove_missing : (k : Bytes) (m : Map Bytes) → get k m ≡ none → remove k m ≡ m
unfolding get remove
remove_missing k [] h = refl
remove_missing k ((j, v) ∷ m) h = ground (arith, remove_missing k m)

read_within_budget-ok :
    (e : TarEntry) (remaining : ℕ) (data_read : Bytes)
    → read_within_budget e remaining ≡ ok data_read
    → (data_read ≡ e.contents) × (length data_read ≤ remaining)
unfolding read_within_budget
read_within_budget-ok e remaining d h =
    let a = (if_err_iff (ltb remaining (length e.contents)) too_large _).0 h in
    elim (Bool-cases e.readable) [
      | inl r ↦ (ground arith, ground arith)
      | inr r ↦ absurd (ground arith)
    ]

-- The one step that adds a file, in terms of what it finds and leaves.
record Adds (e : TarEntry) (s n : Progress) : Type 0 where
  name : Bytes
  normal : normalize_path e.name ≡ ok name
  missing : get name s.files ≡ none
  files : n.files ≡ (name, e.contents) ∷ s.files
  count : n.count ≡ suc s.count
  total : n.total ≡ s.total + length e.contents
  few : suc s.count ≤ max_files
  small : length e.contents ≤ max_unpacked_bytes - s.total

added : Bytes → Bytes → Progress → Progress
added name d s = record {
  files = put name d s.files;
  total = s.total + length d;
  count = suc s.count;
}

add-Adds :
    (e : TarEntry) (s n : Progress) (name : Bytes)
    → normalize_path e.name ≡ ok name
    → (o : Option Bytes) → get name s.files ≡ o
    → add_unless_known name e o s ≡ ok n
    → Adds e s n
unfolding add_unless_known added
add-Adds e s n name normal (some d) q h = absurd (err≢ok h)
  where
    err≢ok : {n : Progress} → ◌≡◌ {A = Result BundleError Progress} (err bad_path) (ok n) → ⊥
    err≢ok h = cc
add-Adds e s n name normal none q h =
    let (few, h1) = (if_err_iff (ltb max_files (suc s.count)) too_many_files _).0 h in
    let (d, hd, hn) =
      >>=-eq-ok (read_within_budget e (max_unpacked_bytes - s.total)) (λ d. ok (added name d s))
        h1 in
    let (same, fits) = read_within_budget-ok e (max_unpacked_bytes - s.total) d hd in
    subst (Adds e s) (ok-injective hn) (record {
      name = name;
      normal = normal;
      missing = q;
      files =
          unfold put in
          rw (remove_missing name s.files q) (ap (λ (c : Bytes). (name, c) ∷ s.files) same);
      count = refl;
      total = ap (λ c. s.total + length c) same;
      few = not_ltb→le max_files (suc s.count) few;
      small = subst (λ c. length c ≤ max_unpacked_bytes - s.total) same fits;
    })

read_file-Adds : (e : TarEntry) (s n : Progress) → read_file e s ≡ ok n → Adds e s n
unfolding read_file
read_file-Adds e s n h =
    let (name, normal, h1) =
      >>=-eq-ok (normalize_path e.name) (λ name. add_unless_known name e (get name s.files) s) h in
    add-Adds e s n name normal (get name s.files) refl h1

Adds-IsProgress : {e : TarEntry} {s n : Progress} → Adds e s n → IsProgress s → IsProgress n
Adds-IsProgress {e} {s} {n} a p = record {
  counted = rw (a.files, a.count) (ap suc p.counted);
  few = rw a.count a.few;
  summed = rw (a.files, a.total) (omega (arith, p.summed));
  small = rw a.total (omega (arith, a.small, p.small));
  safe = rw a.files (normalize_path-IsSafePath e.name a.name a.normal, p.safe);
}

-- What is stored stays, since a name that is known is refused.
Adds-keeps :
    {e : TarEntry} {s n : Progress} (k v : Bytes)
    → Adds e s n
    → get k s.files ≡ some v
    → get k n.files ≡ some v
unfolding get
Adds-keeps {e} {s} {n} k v a h = rw a.files (by_test (str_eq a.name k) refl)
  where
    by_test :
        (b : Bool) → str_eq a.name k ≡ b → (if b then some e.contents else get k s.files) ≡ some v
    by_test true q = absurd (none≢some {v = v} (sym a.missing ∙ rw ((str_eq_iff a.name k).0 q) h))
    by_test false q = h

Stored-later :
    (files later : Map Bytes)
    → ((k v : Bytes) → get k files ≡ some v → get k later ≡ some v)
    → (entries : List TarEntry) → All (Stored files) entries
    → All (Stored later) entries
Stored-later files later h entries = All-map (Stored files) (Stored later) entries one
  where
    one : (e : TarEntry) → Stored files e → Stored later e
    one e (skipped t) = skipped t
    one e (stored name t n g) = stored name t n (h name e.contents g)

get_added : {e : TarEntry} {s n : Progress} (a : Adds e s n) → get a.name n.files ≡ some e.contents
unfolding get
get_added {e} {s} {n} a = rw (a.files, str_eq_refl a.name) refl

-- What the loop makes of the entries that are left.
record Reads (entries : List TarEntry) (s n : Progress) : Type 0 where
  keeps : (k v : Bytes) → get k s.files ≡ some v → get k n.files ≡ some v
  all_stored : All (Stored n.files) entries
  counted : n.count ≡ s.count + file_count entries
  good : IsProgress n

err≢ok : {b : BundleError} {n : Progress} → ◌≡◌ {A = Result BundleError Progress} (err b) (ok n) → ⊥
err≢ok h = cc

-- One turn before the others.
read_entry-Reads :
    (t : Typeflag) (e : TarEntry) (entries : List TarEntry) (s m n : Progress)
    → e.typeflag ≡ t
    → read_entry t e s ≡ ok m
    → IsProgress s
    → (IsProgress m → Reads entries m n)
    → Reads (e ∷ entries) s n
unfolding read_entry
read_entry-Reads type_dir e entries s m n t h p ih =
    let r = ih (subst IsProgress (ok-injective h) p) in
    subst (λ x. Reads (e ∷ entries) x n) (sym (ok-injective h))
      (record {
        keeps = r.keeps;
        all_stored = (skipped t, r.all_stored);
        counted = rw t (omega (arith, r.counted));
        good = r.good;
      })
read_entry-Reads type_reg e entries s m n t h p ih =
    let a = read_file-Adds e s m h in
    let r = ih (Adds-IsProgress a p) in
    record {
      keeps = λ k v g. r.keeps k v (Adds-keeps k v a g);
      all_stored =
          (stored a.name t a.normal (r.keeps a.name e.contents (get_added a)), r.all_stored);
      counted = rw t (omega (arith, r.counted, a.count));
      good = r.good;
    }
read_entry-Reads (type_other c) e entries s m n t h p ih = absurd (err≢ok h)

read_entries-Reads :
    (entries : List TarEntry) (s n : Progress)
    → IsProgress s
    → read_entries entries s ≡ ok n
    → Reads entries s n
unfolding read_entries
read_entries-Reads [] s n p h =
    subst (Reads [] s) (ok-injective h)
      (record { keeps = λ k v g. g; all_stored = tt; counted = omega arith; good = p })
read_entries-Reads (e ∷ entries) s n p h =
    let (m, h1, h2) = >>=-eq-ok (read_entry e.typeflag e s) (read_entries entries) h in
    read_entry-Reads e.typeflag e entries s m n refl h1 p (λ q. read_entries-Reads entries m n q h2)

-- An archive that Unpack accepts has only directories and files. The result holds each of its files
-- under its normalized name with its contents, and has as many entries as the archive has files; all
-- paths are safe, and there are at most 1000 files and 5 MiB in all.
pub unpack-IsUnpacked :
    (a : Archive) (files : Map Bytes) → unpack a ≡ ok files → IsUnpacked a.entries files
unfolding unpack
unpack-IsUnpacked a files h =
    let start : Progress = record { files = []; total = 0; count = 0 } in
    let (s, h1, h2) =
      >>=-eq-ok (read_entries a.entries start)
        (λ s. if a.ends_well then ok s.files else err read_failed) h in
    let r = read_entries-Reads a.entries start s empty h1 in
    elim (Bool-cases a.ends_well) [
      | inl e ↦ subst (IsUnpacked a.entries) (ok-injective (rw e at h2)) (unpacked a.entries s r)
      | inr e ↦ absurd (err≢map (rw e at h2))
    ]
  where
    err≢map : ◌≡◌ {A = Result BundleError (Map Bytes)} (err read_failed) (ok files) → ⊥
    err≢map e = cc

    empty : IsProgress (record { files = []; total = 0; count = 0 })
    empty = record {
      counted = refl;
      few = omega arith;
      summed = refl;
      small = omega arith;
      safe = tt;
    }

    unpacked :
        (entries : List TarEntry) (s : Progress)
        → Reads entries (record { files = []; total = 0; count = 0 }) s
        → IsUnpacked entries s.files
    unpacked entries s r = record {
      all_stored = r.all_stored;
      counted = r.good.counted ∙ r.counted ∙ (omega arith);
      few = omega (arith, r.good.counted, r.good.few);
      small = omega (arith, r.good.summed, r.good.small);
      safe = r.good.safe;
    }
