-- ===== src/Runtime/Manager/Recency.antt =====
-- With a cap, the map holds exactly the entries of the LRU list, at most the cap, and a request moves
-- its key to the front and drops the last key over the cap.
use funcbox.Prelude.{
  suc, ◌≤◌, ◌≡◌, refl, inl, inr, Bytes, str_eq, str_eq_iff, str_eq_refl, List, [], ◌∷◌, map, length,
  take, Option, none, some, if◌then◌else◌, arith, Bool-cases,
}
use funcbox.Prelude.Maps.{get}
use funcbox.Runtime.Manager.{Entry, Manager, same_entry, unlink, split_last}

abbrev pub key_of : Entry → Bytes
key_of e = e.key

-- The entry of a key in the LRU list.
unfoldable pub find : Bytes → List Entry → Option Entry
find key [] = none
find key (e ∷ lru) = if str_eq e.key key then some e else find key lru

abbrev pub Distinct : List Entry → Type 0
Distinct [] = Unit
Distinct (e ∷ lru) = (find e.key lru ≡ none) × Distinct lru

-- a list of keys without `key`
unfoldable pub without : Bytes → List Bytes → List Bytes
without key [] = []
without key (k ∷ ks) = let rest = without key ks in if str_eq k key then rest else k ∷ rest

pub record IsConsistent (m : Manager) : Type 0 where
  pub agrees : (key : Bytes) → get key m.pools ≡ find key m.lru
  pub distinct : Distinct m.lru
  pub bounded : length m.lru ≤ m.max_pools

module _ (e : Entry) where
  pub find-key : (key : Bytes) (lru : List Entry) → find key lru ≡ some e → e.key ≡ key
  unfolding find
  find-key key [] h = cc
  find-key key (x ∷ lru) h = elim (Bool-cases (str_eq x.key key)) [
    | inl q ↦ ground (arith, str_eq_iff x.key key)
    | inr q ↦ find-key key lru (ground arith)
  ]

  find-none-unlink :
      (key : Bytes) (lru : List Entry) → find key lru ≡ none → find key (unlink e lru) ≡ none
  unfolding find unlink
  find-none-unlink key [] h = refl
  find-none-unlink key (x ∷ lru) h = ground (arith, find-none-unlink key lru)

  pub Distinct-unlink : (lru : List Entry) → Distinct lru → Distinct (unlink e lru)
  unfolding unlink
  Distinct-unlink [] h = tt
  Distinct-unlink (x ∷ lru) h = ground (arith, find-none-unlink x.key lru, Distinct-unlink lru h.1)

  pub length-unlink : (lru : List Entry) → length (unlink e lru) ≤ length lru
  unfolding unlink
  length-unlink [] = omega arith
  length-unlink (x ∷ lru) = ground (arith, length-unlink lru)

  -- An entry that is not in the list is not removed.
  pub unlink_absent : (lru : List Entry) → find e.key lru ≡ none → unlink e lru ≡ lru
  unfolding find unlink same_entry
  unlink_absent [] h = refl
  unlink_absent (x ∷ lru) h = ground (arith, unlink_absent lru, str_eq_iff x.key e.key)

pub without_absent :
    (key : Bytes) (lru : List Entry)
    → find key lru ≡ none
    → without key (map key_of lru) ≡ map key_of lru
unfolding find without
without_absent key [] h = refl
without_absent key (x ∷ lru) h = ground (arith, without_absent key lru)

module _ (e : Entry) where
  -- The entry in the list goes, and nothing else.
  pub find-unlink :
      (key : Bytes) (lru : List Entry)
      → Distinct lru
      → find e.key lru ≡ some e
      → find key (unlink e lru) ≡ (if str_eq e.key key then none else find key lru)
  unfolding find unlink same_entry
  find-unlink key [] d h = cc
  find-unlink key (x ∷ lru) d h = elim (Bool-cases (str_eq x.key e.key)) [
    | inl q ↦ ground (
      arith,
      unlink_absent e lru,
      str_eq_iff x.key e.key,
      str_eq_iff x.key key,
      str_eq_iff e.key key,
    )
    | inr q ↦ ground (
      arith,
      find-unlink key lru d.1,
      str_eq_iff x.key key,
      str_eq_iff e.key key,
      str_eq_iff x.key e.key,
    )
  ]

  pub keys-unlink :
      (lru : List Entry)
      → Distinct lru
      → find e.key lru ≡ some e
      → map key_of (unlink e lru) ≡ without e.key (map key_of lru)
  unfolding find unlink same_entry without
  keys-unlink [] d h = cc
  keys-unlink (x ∷ lru) d h = elim (Bool-cases (str_eq x.key e.key)) [
    | inl q ↦ ground (
      arith,
      unlink_absent e lru,
      without_absent e.key lru,
      str_eq_iff x.key e.key,
      str_eq_refl e.key,
    )
    | inr q ↦ ground (arith, keys-unlink lru d.1)
  ]

module _ where
  pub length-split_last : (x : Entry) (xs : List Entry) → length (split_last x xs).0 ≡ length xs
  unfolding split_last
  length-split_last x [] = refl
  length-split_last x (y ∷ ys) = ground (arith, length-split_last y ys)

  pub keys-split_last :
      (x : Entry) (xs : List Entry)
      → map key_of (split_last x xs).0 ≡ take (length xs) (map key_of (x ∷ xs))
  unfolding split_last
  keys-split_last x [] = refl
  keys-split_last x (y ∷ ys) = ground (arith, keys-split_last y ys)

  find_last :
      (x : Entry) (xs : List Entry)
      → Distinct (x ∷ xs)
      → find (split_last x xs).1.key (x ∷ xs) ≡ some (split_last x xs).1
  unfolding find split_last
  find_last x [] d = ground (arith, str_eq_refl x.key)
  find_last x (y ∷ ys) d =
      ground (arith, find_last y ys d.1, d.0, str_eq_iff x.key (split_last y ys).1.key)

  pub find-split_last :
      (key : Bytes) (x : Entry) (xs : List Entry)
      → Distinct (x ∷ xs)
      → find key (split_last x xs).0
        ≡ (if str_eq (split_last x xs).1.key key then none else find key (x ∷ xs))
  unfolding find split_last
  find-split_last key x [] d = ground arith
  find-split_last key x (y ∷ ys) d = ground (
    arith,
    find-split_last key y ys d.1,
    d.0,
    find_last y ys d.1,
    str_eq_iff x.key key,
    str_eq_iff (split_last y ys).1.key key,
  )

  pub Distinct-split_last :
      (x : Entry) (xs : List Entry) → Distinct (x ∷ xs) → Distinct (split_last x xs).0
  unfolding split_last
  Distinct-split_last x [] d = tt
  Distinct-split_last x (y ∷ ys) d =
      (ground (arith, find-split_last x.key y ys d.1, d.0), Distinct-split_last y ys d.1)

pub length-unlink_found :
    (e : Entry) (lru : List Entry)
    → Distinct lru
    → find e.key lru ≡ some e
    → suc (length (unlink e lru)) ≡ length lru
unfolding find unlink same_entry
length-unlink_found e [] d h = cc
length-unlink_found e (x ∷ lru) d h = elim (Bool-cases (str_eq x.key e.key)) [
  | inl q ↦ ground (arith, unlink_absent e lru, str_eq_iff x.key e.key)
  | inr q ↦ ground (arith, length-unlink_found e lru d.1)
]
