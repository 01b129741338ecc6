-- ===== src/Runtime/Manager/Requests.antt =====
-- What a request (HandlerFor under the mutex) does to the map and the LRU list.
use mathlib.Core.Path.{subst}
use funcbox.Prelude.{
  suc, ◌≤◌, ◌<◌, ◌≡◌, refl, sym, ap, ◌∙◌, inl, inr, false, Bytes, str_eq_iff, str_eq_refl, List, [],
  ◌∷◌, map, ◌==◌, leb, length, take, take_all, Option, none, some, arith, Bool-cases, Option-cases,
}
use funcbox.Prelude.Maps.{get, get-remove, get-put}
use funcbox.Runtime.Manager.{
  Entry, Manager, unlink, touch, split_last, evict_last, evict_if_over_cap, close_async, insert_new,
  evicting, acquire, acquire_found,
}
use funcbox.Runtime.Manager.Recency.{
  key_of, find, Distinct, without, IsConsistent, find-key, Distinct-unlink, unlink_absent,
  without_absent, find-unlink, keys-unlink, length-split_last, keys-split_last, find-split_last,
  Distinct-split_last, length-unlink_found,
}

touch-IsConsistent :
    (e : Entry) (m : Manager)
    → 0 < m.max_pools
    → get e.key m.pools ≡ some e
    → IsConsistent m
    → IsConsistent (touch e m)
unfolding touch find
touch-IsConsistent e m cap h c =
    let found : find e.key m.lru ≡ some e = ground (arith, c.agrees e.key) in
    let off : (m.max_pools == 0) ≡ false = ground arith in
    rw off (record {
      agrees = λ k. ground (
        arith,
        c.agrees k,
        c.agrees e.key,
        find-unlink e k m.lru c.distinct found,
        str_eq_iff e.key k,
      );
      distinct = (
        ground (arith, find-unlink e e.key m.lru c.distinct found, str_eq_refl e.key),
        Distinct-unlink e m.lru c.distinct,
      );
      bounded = omega (arith, length-unlink_found e m.lru c.distinct found, c.bounded);
    })

-- The list `x ∷ xs` loses its last entry, and the map loses the same key.
evict_last-IsConsistent :
    (x : Entry) (xs : List Entry) (m : Manager)
    → ((key : Bytes) → get key m.pools ≡ find key (x ∷ xs))
    → Distinct (x ∷ xs)
    → length xs ≤ m.max_pools
    → IsConsistent (evict_last (x ∷ xs) m).0
unfolding evict_last
evict_last-IsConsistent x xs m a d b = record {
  agrees = λ k.
      ground (arith, a k, get-remove (split_last x xs).1.key k m.pools, find-split_last k x xs d);
  distinct = Distinct-split_last x xs d;
  bounded = omega (arith, length-split_last x xs, b);
}

abbrev fresh : Bytes → Manager → Entry
fresh key m = record { key = key; id = m.next }

-- The state between the insertion of a new entry and the eviction.
with_new : Bytes → Manager → Manager
unfolding insert_new
with_new key m = record (insert_new key m) { lru = fresh key m ∷ m.lru }

touch-with_new :
    (key : Bytes) (m : Manager)
    → 0 < m.max_pools
    → find key m.lru ≡ none
    → touch (fresh key m) (insert_new key m) ≡ with_new key m
unfolding touch insert_new with_new
touch-with_new key m cap h =
    let off : (m.max_pools == 0) ≡ false = ground arith in
    rw off (rw (unlink_absent (fresh key m) m.lru h) refl)

evicting-IsConsistent :
    (m : Manager) (o : Option Entry) → IsConsistent m → IsConsistent (evicting (m, o))
unfolding evicting close_async
evicting-IsConsistent m none c = c
evicting-IsConsistent m (some e) c = record {
  agrees = c.agrees;
  distinct = c.distinct;
  bounded = c.bounded;
}

evicting-lru :
    (m : Manager) (o : Option Entry) → map key_of (evicting (m, o)).lru ≡ map key_of m.lru
unfolding evicting close_async
evicting-lru m none = refl
evicting-lru m (some e) = refl

length-keys : (lru : List Entry) → length (map key_of lru) ≡ length lru
length-keys [] = refl
length-keys (e ∷ lru) = ap suc (length-keys lru)

module _ (key : Bytes) (m : Manager) (cap : 0 < m.max_pools) (c : IsConsistent m) where
  with_new-agrees :
      find key m.lru ≡ none
      → (k : Bytes) → get k (with_new key m).pools ≡ find k (fresh key m ∷ m.lru)
  unfolding with_new find
  with_new-agrees h k = ground (arith, get-put key k (fresh key m) m.pools, c.agrees k)

  evicted-IsConsistent : find key m.lru ≡ none → IsConsistent (evict_if_over_cap (with_new key m)).0
  unfolding evict_if_over_cap with_new
  evicted-IsConsistent h =
      let off : (m.max_pools == 0) ≡ false = ground arith in
      rw off (elim (Bool-cases (leb (suc (length m.lru)) m.max_pools)) [
        | inl e ↦ rw e (record {
          agrees = with_new-agrees h;
          distinct = (h, c.distinct);
          bounded = ground arith;
        })
        | inr e ↦ rw e (
            evict_last-IsConsistent (fresh key m) m.lru (with_new key m) (with_new-agrees h)
              (h, c.distinct) c.bounded)
      ])

  evicted_keys :
      find key m.lru ≡ none
      → map key_of (evict_if_over_cap (with_new key m)).0.lru
        ≡ take m.max_pools (key ∷ map key_of m.lru)
  unfolding evict_if_over_cap with_new evict_last
  evicted_keys h =
      let off : (m.max_pools == 0) ≡ false = ground arith in
      rw off (elim (Bool-cases (leb (suc (length m.lru)) m.max_pools)) [
        | inl e ↦ rw e (
            sym (take_all m.max_pools (key ∷ map key_of m.lru) (ground (arith, length-keys m.lru))))
        | inr e ↦ rw e (
            let full : m.max_pools ≡ length m.lru = ground (arith, c.bounded) in
            keys-split_last (fresh key m) m.lru
            ∙ ap (λ n. take n (key ∷ map key_of m.lru)) (sym full))
      ])

  found_key : (e : Entry) → get key m.pools ≡ some e → e.key ≡ key
  found_key e h = find-key e key m.lru (sym (c.agrees key) ∙ h)

  hit_keys :
      (e : Entry)
      → get key m.pools ≡ some e
      → map key_of (touch e m).lru ≡ take m.max_pools (key ∷ without key (map key_of m.lru))
  unfolding touch
  hit_keys e h =
      let q = found_key e h in
      let found : find e.key m.lru ≡ some e = ground (arith, c.agrees key, q) in
      let off : (m.max_pools == 0) ≡ false = ground arith in
      let keys = keys-unlink e m.lru c.distinct found in
      rw off (
        sym (
          take_all m.max_pools (map key_of (e ∷ unlink e m.lru)) (
            omega (
              arith,
              length-keys (unlink e m.lru),
              length-unlink_found e m.lru c.distinct found,
              c.bounded,
            )))
        ∙ ap (take m.max_pools) (ground (arith, keys, q)))

  acquire_hit : (e : Entry) → get key m.pools ≡ some e → (acquire key m).0 ≡ touch e m
  unfolding acquire
  acquire_hit e h = rw (h, acquire_found) refl

  acquire_miss :
      get key m.pools ≡ none → (acquire key m).0 ≡ evicting (evict_if_over_cap (with_new key m))
  unfolding acquire
  acquire_miss h =
      let none_left : find key m.lru ≡ none = sym (c.agrees key) ∙ h in
      rw (h, acquire_found)
        (ap (λ n. evicting (evict_if_over_cap n)) (touch-with_new key m cap none_left))

  -- With a cap, a request keeps the map and the list in step: the same entry for every key, each key
  -- once, and no more entries than the cap.
  pub acquire-IsConsistent : IsConsistent (acquire key m).0
  acquire-IsConsistent = elim (Option-cases (get key m.pools)) [
    | inl e ↦ subst IsConsistent (sym (acquire_miss e)) (
        evicting-IsConsistent (evict_if_over_cap (with_new key m)).0
          (evict_if_over_cap (with_new key m)).1 (evicted-IsConsistent (sym (c.agrees key) ∙ e)))
    | inr (x, e) ↦
        subst IsConsistent (sym (acquire_hit x e))
          (touch-IsConsistent x m cap (ground (arith, found_key x e)) c)
  ]

  -- A request moves its key to the front of the list, or puts it there, and keeps of the list as
  -- many keys as the cap allows: the least recently requested key is the one that goes.
  pub keys-acquire :
      map key_of (acquire key m).0.lru ≡ take m.max_pools (key ∷ without key (map key_of m.lru))
  keys-acquire = elim (Option-cases (get key m.pools)) [
    | inl e ↦
        let h : find key m.lru ≡ none = sym (c.agrees key) ∙ e in
        ap (λ (n : Manager). map key_of n.lru) (acquire_miss e)
        ∙ evicting-lru (evict_if_over_cap (with_new key m)).0 (evict_if_over_cap (with_new key m)).1
        ∙ evicted_keys h
        ∙ ap (λ ks. take m.max_pools (key ∷ ks)) (sym (without_absent key m.lru h))
    | inr (x, e) ↦ ap (λ (n : Manager). map key_of n.lru) (acquire_hit x e) ∙ hit_keys x e
  ]
