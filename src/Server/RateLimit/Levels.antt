-- ===== src/Server/RateLimit/Levels.antt =====
-- What a bucket of ratelimit.go is worth at a time, and the calls that a key gets allowed.
use funcbox.Prelude.{
  ℕ, suc, ◌+◌, ◌-◌, ◌*◌, ◌%◌, ◌≤◌, ◌≡◌, refl, sym, ◌∙◌, ap, ◌⊎◌, inl, inr, Bool, true, false, ◌&&◌,
  Bytes, str_eq, str_eq_iff, List, [], ◌∷◌, ◌==◌, ltb, Option, none, some, if◌then◌else◌, arith,
  Bool-cases,
}
use funcbox.Prelude.Maps.{Map, get, put, remove, keys, get-put, get-remove}
use funcbox.Server.RateLimit.{
  Bucket, IpRateLimiter, full, refill, is_idle, sweep, swept, allow, register_bucket_idle_evict,
}

-- The tokens that a call for the key would find now.
abbrev pub level : Bytes → ℕ → IpRateLimiter → ℕ
level key now l = refill (full l) now (get key l.buckets)

refill-idle :
    (limit now : ℕ) (o : Option Bucket)
    → limit ≤ register_bucket_idle_evict
    → is_idle now o ≡ true
    → refill limit now o ≡ limit
unfolding refill is_idle
refill-idle limit now none h e = refl
refill-idle limit now (some b) h e = ground arith

pub refill-none : (limit now : ℕ) → refill limit now none ≡ limit
unfolding refill
refill-none limit now = refl

pub refill_le : (limit now : ℕ) (o : Option Bucket) → refill limit now o ≤ limit
unfolding refill
refill_le limit now none = omega arith
refill_le limit now (some b) = omega arith

-- A key reads either what it had, or nothing where its bucket was idle.
refill-sweep :
    (limit now : ℕ) (ks : List Bytes) (m : Map Bucket) (j : Bytes)
    → limit ≤ register_bucket_idle_evict
    → refill limit now (get j (sweep now ks m)) ≡ refill limit now (get j m)
unfolding sweep
refill-sweep limit now [] m j h = refl
refill-sweep limit now (k ∷ ks) m j h =
    refill-sweep limit now ks (if is_idle now (get k m) then remove k m else m) j h
    ∙ by_test (Bool-cases (is_idle now (get k m)))
  where
    by_key :
        is_idle now (get k m) ≡ true
        → (b : Bool) → str_eq k j ≡ b
        → refill limit now (if b then none else get j m) ≡ refill limit now (get j m)
    by_key e true f =
        refill-none limit now
        ∙ sym (refill-idle limit now (get j m) h (rw (sym ((str_eq_iff k j).0 f)) e))
    by_key e false f = refl

    by_test :
        (is_idle now (get k m) ≡ true) ⊎ (is_idle now (get k m) ≡ false)
        → refill limit now (get j (if is_idle now (get k m) then remove k m else m))
          ≡ refill limit now (get j m)
    by_test (inl e) = rw e (rw (get-remove k j m) (by_key e (str_eq k j) refl))
    by_test (inr e) = rw e refl

refill-swept :
    (limit calls now : ℕ) (m : Map Bucket) (j : Bytes)
    → limit ≤ register_bucket_idle_evict
    → refill limit now (get j (swept calls now m)) ≡ refill limit now (get j m)
unfolding swept
refill-swept limit calls now m j h = elim (Bool-cases (calls % 1000 == 0)) [
  | inl e ↦ rw e (refill-sweep limit now (keys m) m j h)
  | inr e ↦ rw e refl
]

refill-put :
    (limit tokens now : ℕ) (key j : Bytes) (m : Map Bucket)
    → tokens ≤ limit
    → refill limit now (get j (put key (record { tokens = tokens; last_seen = now }) m))
      ≡ (if str_eq key j then tokens else refill limit now (get j m))
refill-put limit tokens now key j m h =
    rw (get-put key j (record { tokens = tokens; last_seen = now }) m) (by_key (str_eq key j))
  where
    fresh : refill limit now (some (record { tokens = tokens; last_seen = now })) ≡ tokens
    fresh = unfold refill in omega arith

    by_key :
        (b : Bool)
        → refill limit now
            (if b then some (record { tokens = tokens; last_seen = now }) else get j m)
          ≡ (if b then tokens else refill limit now (get j m))
    by_key true = fresh
    by_key false = refl

abbrev pub cost : Bytes → Bytes → Bool → ℕ → ℕ
cost key j allowed interval = if str_eq key j && allowed then interval else 0

pub full-allow : (key : Bytes) (now : ℕ) (l : IpRateLimiter) → full (allow key now l).0 ≡ full l
unfolding allow full
full-allow key now l = ground arith

-- A call takes one token of its own key, exactly if it is allowed, and nothing of any other key:
-- neither the update of the buckets nor the sweep of idle ones shows in what a key may do, where a
-- bucket is full again before it counts as idle.
pub level-allow :
    (key j : Bytes) (now : ℕ) (l : IpRateLimiter)
    → full l ≤ register_bucket_idle_evict
    → level j now (allow key now l).0 + cost key j (allow key now l).1 l.interval ≡ level j now l
unfolding allow full
level-allow key j now l h = elim (Bool-cases (ltb tokens l.interval)) [
  | inl e ↦ rw e (ground (arith, stored, same_key))
  | inr e ↦ rw e (ground (arith, stored, same_key, taken))
]
  where
    limit : ℕ
    limit = l.burst * l.interval

    tokens : ℕ
    tokens = refill limit now (get key l.buckets)

    buckets : Map Bucket
    buckets =
        swept (suc l.calls) now (put key (record { tokens = tokens; last_seen = now }) l.buckets)

    same_key : str_eq key j ≡ true → tokens ≡ refill limit now (get j l.buckets)
    same_key e = ap (λ k. refill limit now (get k l.buckets)) ((str_eq_iff key j).0 e)

    stored :
        refill limit now (get j buckets)
        ≡ (if str_eq key j then tokens else refill limit now (get j l.buckets))
    stored =
        refill-swept limit (suc l.calls) now
          (put key (record { tokens = tokens; last_seen = now }) l.buckets) j h
        ∙ refill-put limit tokens now key j l.buckets (refill_le limit now (get key l.buckets))

    taken :
        refill limit now
          (get j (put key (record { tokens = tokens - l.interval; last_seen = now }) buckets))
        ≡ (if str_eq key j then tokens - l.interval else refill limit now (get j buckets))
    taken =
        refill-put limit (tokens - l.interval) now key j buckets
          (omega (arith, refill_le limit now (get key l.buckets)))

-- The calls that reach the limiter, with the time that each reads.
abbrev pub Calls : Type 0
Calls = List (Bytes × ℕ)

-- The clock does not go back.
abbrev pub Ordered : ℕ → Calls → ℕ → Type 0
Ordered start [] end = start ≤ end
Ordered start ((key, now) ∷ calls) end = start ≤ now × Ordered now calls end

-- The calls for `j` that are allowed.
abbrev pub allowed_count : Bytes → Calls → IpRateLimiter → ℕ
allowed_count j [] l = 0
allowed_count j ((key, now) ∷ calls) l =
    let rest : ℕ = allowed_count j calls (allow key now l).0 in
    if str_eq key j && (allow key now l).1 then suc rest else rest

refill-later :
    (limit now later : ℕ) (o : Option Bucket)
    → refill limit later o ≤ refill limit now o + (later - now)
unfolding refill
refill-later limit now later none = omega arith
refill-later limit now later (some b) = omega arith

pub interval-allow :
    (key : Bytes) (now : ℕ) (l : IpRateLimiter) → (allow key now l).0.interval ≡ l.interval
unfolding allow
interval-allow key now l = ground arith

-- One call before the others: `now` is when it comes, `rest` what the others get.
count_step :
    (j key : Bytes) (start now end rest : ℕ) (l : IpRateLimiter)
    → full l ≤ register_bucket_idle_evict
    → start ≤ now
    → now ≤ end
    → rest * l.interval ≤ level j now (allow key now l).0 + (end - now)
    → (if str_eq key j && (allow key now l).1 then suc rest else rest) * l.interval
      ≤ level j start l + (end - start)
count_step j key start now end rest l h le le' ih =
    by_test (str_eq key j && (allow key now l).1) (level-allow key j now l h)
  where
    later : level j now l ≤ level j start l + (now - start)
    later = refill-later (full l) start now (get j l.buckets)

    by_test :
        (b : Bool)
        → level j now (allow key now l).0 + (if b then l.interval else 0) ≡ level j now l
        → (if b then suc rest else rest) * l.interval ≤ level j start l + (end - start)
    by_test true e = omega (arith, e, later, ih)
    by_test false e = omega (arith, e, later, ih)

Ordered→le : (start : ℕ) (calls : Calls) (end : ℕ) → Ordered start calls end → start ≤ end
Ordered→le start [] end o = o
Ordered→le start ((key, now) ∷ calls) end (le, o) = omega (arith, le, Ordered→le now calls end o)

rescale : (n bound a b : ℕ) → a ≡ b → n * a ≤ bound → n * b ≤ bound
rescale n bound a b e h = rw (sym e) h

-- The calls of one key that are allowed come to no more tokens than it has and the time refills.
allowed_count_within :
    (j : Bytes) (calls : Calls) (start end : ℕ) (l : IpRateLimiter)
    → full l ≤ register_bucket_idle_evict
    → Ordered start calls end
    → allowed_count j calls l * l.interval ≤ level j start l + (end - start)
allowed_count_within j [] start end l h o = omega arith
allowed_count_within j ((key, now) ∷ calls) start end l h (le, o) =
    count_step j key start now end (allowed_count j calls (allow key now l).0) l h le
      (Ordered→le now calls end o)
      (rescale _ _ _ _ (interval-allow key now l)
        (allowed_count_within j calls now end (allow key now l).0 (full_le h) o))
  where
    full_le :
        full l ≤ register_bucket_idle_evict → full (allow key now l).0 ≤ register_bucket_idle_evict
    full_le k = omega (arith, full-allow key now l, k)

-- From any state, whatever its buckets hold, the calls of one key that are allowed in a time come to
-- no more tokens than the burst and what the time refills, however the calls of the keys are mixed and
-- whenever idle buckets are swept; the clock does not go back and a bucket is full before it counts as
-- idle.
pub allowed_count_bound :
    (j : Bytes) (calls : Calls) (start end : ℕ) (l : IpRateLimiter)
    → full l ≤ register_bucket_idle_evict
    → Ordered start calls end
    → allowed_count j calls l * l.interval ≤ l.burst * l.interval + (end - start)
allowed_count_bound j calls start end l h o =
    omega (arith, allowed_count_within j calls start end l h o, at_most)
  where
    at_most : level j start l ≤ l.burst * l.interval
    at_most = unfold full in refill_le (l.burst * l.interval) start (get j l.buckets)
