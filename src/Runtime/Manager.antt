-- ===== src/Runtime/Manager.antt =====
-- runtime/manager.go: the map of warm pools, its LRU list and the goroutines that close pools. Each
-- function here is what one goroutine does under the mutex; `Step` interleaves them.
pub mod Recency
pub mod Requests
pub mod Steps
use funcbox.Prelude.{
  ℕ, zero, suc, ◌+◌, ◌≡◌, ◌≢◌, Bool, true, false, not, ◌&&◌, ◌||◌, Bytes, str_eq, List, [], ◌∷◌,
  ◌++◌, map, ◌==◌, leb, length, Option, none, some, if◌then◌else◌,
}
use funcbox.Prelude.Maps.{Map, get, put, remove}

-- A *managedPool: `id` is the object's identity. Its `elem` is set while it is in the LRU list.
pub record Entry : Type 0 where
  pub key : Bytes
  pub id : ℕ

-- `building` until `ready` is closed; then `pool` is set, or `err` is.
pub data Status : Type 0 where
  building warm failed : Status

-- A goroutine that waits for `ready` and then closes the pool; `notify` where it calls onEvict.
pub record Closer : Type 0 where
  pub entry : Entry
  pub notify : Bool

-- `max_pools` is 0 for every cap that means unlimited. `closers` are the goroutines that have not run
-- yet, `reaped` the pools of those that have; `closed` and `evicted` are the calls that they made.
pub record Manager : Type 0 where
  pub pools : Map Entry
  pub lru : List Entry
  pub max_pools : ℕ
  pub next : ℕ
  pub status : ℕ → Status
  pub closers : List Closer
  pub reaped : List ℕ
  pub closed : List ℕ
  pub evicted : List Bytes

unfoldable pub new_manager : ℕ → Manager
new_manager max_pools = record {
  pools = [];
  lru = [];
  max_pools = max_pools;
  next = 0;
  status = λ id. building;
  closers = [];
  reaped = [];
  closed = [];
  evicted = [];
}

unfoldable pub same_entry : Entry → Entry → Bool
unfolding str_eq
same_entry a b = a.id == b.id && str_eq a.key b.key

-- (*list.List).Remove of an entry's element
unfoldable pub unlink : Entry → List Entry → List Entry
unfolding same_entry
unlink e [] = []
unlink e (x ∷ lru) = let rest = unlink e lru in if same_entry x e then rest else x ∷ rest

-- touchLocked: MoveToFront, or PushFront for an entry that has no element yet.
unfoldable pub touch : Entry → Manager → Manager
unfolding unlink
touch e m = if m.max_pools == 0 then m else record m { lru = e ∷ unlink e m.lru }

-- The last element and the list without it.
unfoldable pub split_last : Entry → List Entry → List Entry × Entry
split_last x [] = ([], x)
split_last x (y ∷ ys) = let (front, last) = split_last y ys in (x ∷ front, last)

unfoldable pub evict_last : List Entry → Manager → Manager × Option Entry
unfolding split_last remove
evict_last [] m = (m, none)
evict_last (x ∷ xs) m =
    let (front, victim) = split_last x xs in
    (record m { lru = front; pools = remove victim.key m.pools }, some victim)

-- evictIfOverCapLocked
unfoldable pub evict_if_over_cap : Manager → Manager × Option Entry
unfolding evict_last
evict_if_over_cap m =
    if m.max_pools == 0 || leb (length m.lru) m.max_pools then (m, none) else evict_last m.lru m

-- evictAsync, and the goroutine of Invalidate
unfoldable pub close_async : Bool → Option Entry → Manager → Manager
close_async notify none m = m
close_async notify (some victim) m = record m {
  closers = record { entry = victim; notify = notify } ∷ m.closers;
}

unfoldable pub set_status : (ℕ → Status) → ℕ → Status → ℕ → Status
set_status status id s i = if i == id then s else status i

unfoldable pub insert_new : Bytes → Manager → Manager
unfolding set_status put
insert_new key m = record m {
  pools = put key (record { key = key; id = m.next }) m.pools;
  next = suc m.next;
  status = set_status m.status m.next building;
}

unfoldable pub evicting : Manager × Option Entry → Manager
unfolding close_async
evicting (m, victim) = close_async true victim m

-- What HandlerFor does before it builds or waits: the entry, and whether it has to build.
unfoldable pub acquire_found : Bytes → Option Entry → Manager → Manager × Entry × Bool
unfolding touch insert_new evict_if_over_cap evicting
acquire_found key (some e) m = (touch e m, e, false)
acquire_found key none m =
    let e : Entry = record { key = key; id = m.next } in
    (evicting (evict_if_over_cap (touch e (insert_new key m))), e, true)

unfoldable pub acquire : Bytes → Manager → Manager × Entry × Bool
unfolding acquire_found get
acquire key m = acquire_found key (get key m.pools) m

-- The end of a Build: `close(mp.ready)`.
unfoldable pub finish_build : ℕ → Status → Manager → Manager
unfolding set_status
finish_build id s m = record m { status = set_status m.status id s }

unfoldable pub invalidate_found : Bytes → Option Entry → Manager → Manager
unfolding unlink remove close_async
invalidate_found key none m = m
invalidate_found key (some e) m =
    close_async false (some e) (record m { pools = remove key m.pools; lru = unlink e m.lru })

unfoldable pub invalidate : Bytes → Manager → Manager
unfolding invalidate_found get
invalidate key m = invalidate_found key (get key m.pools) m

-- Close hands every pool of the map to the loop that waits for it and closes it.
unfoldable pub all_closers : Map Entry → List Closer
all_closers [] = []
all_closers ((k, e) ∷ pools) = record { entry = e; notify = false } ∷ all_closers pools

unfoldable pub close_manager : Manager → Manager
unfolding all_closers
close_manager m = record m { pools = []; lru = []; closers = all_closers m.pools ++ m.closers }

unfoldable pub if_warm : Status → ℕ → List ℕ → List ℕ
if_warm warm id closed = id ∷ closed
if_warm building id closed = closed
if_warm failed id closed = closed

-- A closer runs: `victim.pool` is nil where the build failed.
unfoldable pub reap : List Closer → Closer → List Closer → Manager → Manager
unfolding if_warm
reap before c after m = record m {
  closers = before ++ after;
  reaped = c.entry.id ∷ m.reaped;
  closed = if_warm (m.status c.entry.id) c.entry.id m.closed;
  evicted = if c.notify then c.entry.key ∷ m.evicted else m.evicted;
}

-- One step of any goroutine.
pub data Step (m n : Manager) : Type 0 where
  request : (key : Bytes) → n ≡ (acquire key m).0 → Step m n
  built :
      (id : ℕ) (s : Status)
      → m.status id ≡ building
      → s ≢ building
      → n ≡ finish_build id s m
      → Step m n
  invalidated : (key : Bytes) → n ≡ invalidate key m → Step m n
  shut : n ≡ close_manager m → Step m n
  reaped_one :
      (before : List Closer) (c : Closer) (after : List Closer)
      → m.closers ≡ before ++ c ∷ after
      → m.status c.entry.id ≢ building
      → n ≡ reap before c after m
      → Step m n

pub data Reach (max_pools : ℕ) : Manager → Type 0 where
  here : Reach max_pools (new_manager max_pools)
  next : {m n : Manager} → Reach max_pools m → Step m n → Reach max_pools n
