-- ===== src/Runtime/Manager/Steps.antt =====
-- The invariant of every interleaving of requests, builds, invalidations, closers and a shutdown.
use funcbox.Prelude.{
  ℕ, ◌<◌, ◌≡◌, refl, sym, ◌∙◌, inl, inr, Bytes, List, [], ◌∷◌, ◌==◌, leb, length, Option, none,
  some, arith, Option-cases, Bool-cases,
}
use funcbox.Prelude.Maps.{get, get-remove}
use funcbox.Runtime.Manager.{
  Entry, Manager, Step, Reach, request, built, invalidated, shut, reaped_one, here, next,
  new_manager, touch, evict_last, evict_if_over_cap, close_async, insert_new, evicting, acquire,
  acquire_found, finish_build, invalidate, invalidate_found, close_manager, reap,
}
use funcbox.Runtime.Manager.Recency.{
  find, IsConsistent, find-key, Distinct-unlink, length-unlink, find-unlink,
}
use funcbox.Runtime.Manager.Requests.{acquire-IsConsistent}

invalidate-IsConsistent :
    (key : Bytes) (m : Manager) → IsConsistent m → IsConsistent (invalidate key m)
unfolding invalidate invalidate_found close_async
invalidate-IsConsistent key m c = elim (Option-cases (get key m.pools)) [
  | inl e ↦ rw (e, invalidate_found) c
  | inr (x, e) ↦
      let q : x.key ≡ key = find-key x key m.lru (sym (c.agrees key) ∙ e) in
      let found : find x.key m.lru ≡ some x = ground (arith, c.agrees key, q) in
      rw (e, invalidate_found)
        (record {
          agrees = λ k. ground (
            arith,
            c.agrees k,
            get-remove key k m.pools,
            find-unlink x k m.lru c.distinct found,
            q,
          );
          distinct = Distinct-unlink x m.lru c.distinct;
          bounded = omega (arith, length-unlink x m.lru, c.bounded);
        })
]

same_tables :
    (m n : Manager)
    → IsConsistent m
    → n.pools ≡ m.pools
    → n.lru ≡ m.lru
    → n.max_pools ≡ m.max_pools
    → IsConsistent n
same_tables m n c p l b = record {
  agrees = λ k. rw (p, l) (c.agrees k);
  distinct = rw l c.distinct;
  bounded = rw (l, b) c.bounded;
}

module _ (m : Manager) where
  max_pools-evict : (n : Manager) → (evicting (evict_if_over_cap n)).max_pools ≡ n.max_pools
  unfolding evicting evict_if_over_cap
  max_pools-evict n = elim (Bool-cases (n.max_pools == 0)) [
    | inl e ↦ ground arith
    | inr e ↦ elim (Bool-cases (leb (length n.lru) n.max_pools)) [
      | inl f ↦ ground arith
      | inr f ↦ rw e (rw f (by_list n.lru))
    ]
  ]
    where
      by_list : (lru : List Entry) → (evicting (evict_last lru n)).max_pools ≡ n.max_pools
      by_list [] = refl
      by_list (x ∷ xs) = refl

  max_pools-acquire : (key : Bytes) → (acquire key m).0.max_pools ≡ m.max_pools
  unfolding acquire
  max_pools-acquire key = by_look_up (get key m.pools)
    where
      by_look_up : (o : Option Entry) → (acquire_found key o m).0.max_pools ≡ m.max_pools
      by_look_up (some e) = unfold touch in ground arith
      by_look_up none =
          max_pools-evict (touch (record { key = key; id = m.next }) (insert_new key m))
          ∙ (unfold touch insert_new in ground arith)

  max_pools-invalidate : (key : Bytes) → (invalidate key m).max_pools ≡ m.max_pools
  unfolding invalidate
  max_pools-invalidate key = by_look_up (get key m.pools)
    where
      by_look_up : (o : Option Entry) → (invalidate_found key o m).max_pools ≡ m.max_pools
      by_look_up (some e) = unfold invalidate_found close_async in refl
      by_look_up none = unfold invalidate_found in refl

close_manager-IsConsistent : (m : Manager) → IsConsistent m → IsConsistent (close_manager m)
unfolding close_manager get find
close_manager-IsConsistent m c = record { agrees = λ k. refl; distinct = tt; bounded = omega arith }

abbrev IsCapped : ℕ → Manager → Type 0
IsCapped limit m = IsConsistent m × (m.max_pools ≡ limit)

Step-IsCapped :
    {m n : Manager} (limit : ℕ) → 0 < limit → Step m n → IsCapped limit m → IsCapped limit n
unfolding finish_build reap close_manager
Step-IsCapped {m} limit pos (request key e) (c, b) =
    rw e (acquire-IsConsistent key m (omega arith) c, max_pools-acquire m key ∙ b)
Step-IsCapped {m} limit pos (built id s h k e) (c, b) =
    rw e (same_tables m (finish_build id s m) c refl refl refl, b)
Step-IsCapped {m} limit pos (invalidated key e) (c, b) =
    rw e (invalidate-IsConsistent key m c, max_pools-invalidate m key ∙ b)
Step-IsCapped {m} limit pos (shut e) (c, b) = rw e (close_manager-IsConsistent m c, b)
Step-IsCapped {m} limit pos (reaped_one before x after h k e) (c, b) =
    rw e (same_tables m (reap before x after m) c refl refl refl, b)

-- However requests, builds, invalidations, closers and shutdowns are interleaved, a manager with a
-- cap keeps its map and its LRU list in step, each key once and no more entries than the cap.
pub Reach-IsConsistent :
    (limit : ℕ) {m : Manager} → 0 < limit → Reach limit m → IsConsistent m × (m.max_pools ≡ limit)
Reach-IsConsistent limit pos here = (
  unfold new_manager get find in
      record { agrees = λ k. refl; distinct = tt; bounded = omega arith },
  unfold new_manager in refl,
)
Reach-IsConsistent limit pos (next r s) = Step-IsCapped limit pos s (Reach-IsConsistent limit pos r)
