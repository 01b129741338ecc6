-- ===== src/Server/LogCapture/Isolation.antt =====
-- What goroutines see of the captures of each other, which are shared objects (logcapture.go).
use funcbox.Prelude.{
  ℕ, ◌<◌, ◌≡◌, refl, sym, ap, ◌∙◌, inl, inr, ◌⊎◌, true, false, List, [], ◌∷◌, ◌==◌, Option, none,
  some, if◌then◌else◌, Bool-cases, Option-cases, arith,
}
use funcbox.Server.LogCapture.{
  TrackerAction, Capture, Trace, Tracker, new_capture, begins, ends, writes_stdout, writes_stderr,
  fetches, begin, end, current, change, set_at, to_stdout, to_stderr, record_fetch, act, run,
}

-- The capture that the goroutine's output would reach.
abbrev pub seen_at : (ℕ → Capture) → Option ℕ → Option Capture
seen_at heap none = none
seen_at heap (some p) = some (heap p)

abbrev pub seen : ℕ → Tracker → Option Capture
seen gid t = seen_at t.heap (t.by_gid gid)

-- What an action makes of the capture of a goroutine that runs alone.
abbrev pub on_capture : TrackerAction → Option Capture → Option Capture
on_capture begins c = some new_capture
on_capture ends c = none
on_capture (writes_stdout b) none = none
on_capture (writes_stdout b) (some c) = some (to_stdout b c)
on_capture (writes_stderr b) none = none
on_capture (writes_stderr b) (some c) = some (to_stderr b c)
on_capture (fetches d) none = none
on_capture (fetches d) (some c) = some (record_fetch d c)

-- The actions of one goroutine.
abbrev pub of_goroutine : ℕ → Trace → List TrackerAction
of_goroutine gid [] = []
of_goroutine gid ((i, a) ∷ trace) =
    let rest : List TrackerAction = of_goroutine gid trace in if gid == i then a ∷ rest else rest

abbrev pub alone : List TrackerAction → Option Capture → Option Capture
alone [] c = c
alone (a ∷ actions) c = alone actions (on_capture a c)

-- Every pointer is allocated, and no two goroutines have the same one.
pub record IsSeparate (t : Tracker) : Type 0 where
  pub allocated : (i p : ℕ) → t.by_gid i ≡ some p → p < t.next
  pub apart : (i j p : ℕ) → t.by_gid i ≡ some p → t.by_gid j ≡ some p → i ≡ j

begin-IsSeparate : (gid : ℕ) (t : Tracker) → IsSeparate t → IsSeparate (begin gid t)
unfolding begin set_at
begin-IsSeparate gid t w = record {
  allocated = λ i p e. ground (arith, w.allocated i p);
  apart = λ i j p e f. ground (arith, w.allocated i p, w.allocated j p, w.apart i j p);
}

end-IsSeparate : (gid : ℕ) (t : Tracker) → IsSeparate t → IsSeparate (end gid t)
unfolding end set_at
end-IsSeparate gid t w = record {
  allocated = λ i p e. ground (arith, w.allocated i p);
  apart = λ i j p e f. ground (arith, w.apart i j p);
}

change-IsSeparate :
    (f : Capture → Capture) (o : Option ℕ) (t : Tracker) → IsSeparate t → IsSeparate (change f o t)
unfolding change
change-IsSeparate f none t w = w
change-IsSeparate f (some p) t w = record { allocated = w.allocated; apart = w.apart }

act-IsSeparate : (i : ℕ) (a : TrackerAction) (t : Tracker) → IsSeparate t → IsSeparate (act i a t)
unfolding act
act-IsSeparate i begins t w = begin-IsSeparate i t w
act-IsSeparate i ends t w = end-IsSeparate i t w
act-IsSeparate i (writes_stdout b) t w = change-IsSeparate (to_stdout b) (current i t) t w
act-IsSeparate i (writes_stderr b) t w = change-IsSeparate (to_stderr b) (current i t) t w
act-IsSeparate i (fetches d) t w = change-IsSeparate (record_fetch d) (current i t) t w

eq_refl : (n : ℕ) → n == n ≡ true
eq_refl n = ground arith

seen-begin_own : (gid : ℕ) (t : Tracker) → seen gid (begin gid t) ≡ some new_capture
unfolding begin set_at
seen-begin_own gid t = rw (eq_refl gid, eq_refl t.next) refl

seen-end_own : (gid : ℕ) (t : Tracker) → seen gid (end gid t) ≡ none
unfolding end set_at
seen-end_own gid t = rw (eq_refl gid) refl

abbrev changed : (Capture → Capture) → Option Capture → Option Capture
changed f none = none
changed f (some c) = some (f c)

seen-change_own :
    (f : Capture → Capture) (gid : ℕ) (t : Tracker)
    → seen gid (change f (current gid t) t) ≡ changed f (seen gid t)
unfolding current change set_at
seen-change_own f gid t = by_pointer (t.by_gid gid) refl
  where
    by_pointer :
        (o : Option ℕ)
        → t.by_gid gid ≡ o
        → seen_at (change f o t).heap ((change f o t).by_gid gid) ≡ changed f (seen_at t.heap o)
    by_pointer none e = rw e refl
    by_pointer (some p) e = rw (e, eq_refl p) refl

-- What another goroutine does leaves it.
seen-begin_other :
    (gid i : ℕ) (t : Tracker)
    → IsSeparate t
    → (gid == i) ≡ false
    → seen gid (begin i t) ≡ seen gid t
unfolding begin set_at
seen-begin_other gid i t w d = elim (Option-cases (t.by_gid gid)) [
  | inl e ↦ rw (d, e) refl
  | inr (p, e) ↦
      let old : (p == t.next) ≡ false = ground (arith, w.allocated gid p e) in rw (d, e, old) refl
]

seen-end_other : (gid i : ℕ) (t : Tracker) → (gid == i) ≡ false → seen gid (end i t) ≡ seen gid t
unfolding end set_at
seen-end_other gid i t d = rw d refl

seen-change_other :
    (f : Capture → Capture) (gid i : ℕ) (t : Tracker)
    → IsSeparate t
    → (gid == i) ≡ false
    → seen gid (change f (current i t) t) ≡ seen gid t
unfolding change current set_at
seen-change_other f gid i t w d = elim (Option-cases (t.by_gid i)) [
  | inl e ↦ rw e refl
  | inr (q, e) ↦ elim (Option-cases (t.by_gid gid)) [
    | inl n ↦ rw (e, n) refl
    | inr (p, n) ↦
        let other : (p == q) ≡ false = ground (arith, w.apart gid i p, e, n, d) in
        rw (e, n, other) refl
  ]
]

seen-act_own :
    (gid : ℕ) (a : TrackerAction) (t : Tracker) → seen gid (act gid a t) ≡ on_capture a (seen gid t)
unfolding act
seen-act_own gid begins t = seen-begin_own gid t
seen-act_own gid ends t = seen-end_own gid t
seen-act_own gid (writes_stdout b) t = seen-change_own (to_stdout b) gid t ∙ by_object (seen gid t)
  where
    by_object : (o : Option Capture) → changed (to_stdout b) o ≡ on_capture (writes_stdout b) o
    by_object none = refl
    by_object (some c) = refl
seen-act_own gid (writes_stderr b) t = seen-change_own (to_stderr b) gid t ∙ by_object (seen gid t)
  where
    by_object : (o : Option Capture) → changed (to_stderr b) o ≡ on_capture (writes_stderr b) o
    by_object none = refl
    by_object (some c) = refl
seen-act_own gid (fetches d) t = seen-change_own (record_fetch d) gid t ∙ by_object (seen gid t)
  where
    by_object : (o : Option Capture) → changed (record_fetch d) o ≡ on_capture (fetches d) o
    by_object none = refl
    by_object (some c) = refl

seen-act_other :
    (gid i : ℕ) (a : TrackerAction) (t : Tracker)
    → IsSeparate t
    → (gid == i) ≡ false
    → seen gid (act i a t) ≡ seen gid t
unfolding act
seen-act_other gid i begins t w d = seen-begin_other gid i t w d
seen-act_other gid i ends t w d = seen-end_other gid i t d
seen-act_other gid i (writes_stdout b) t w d = seen-change_other (to_stdout b) gid i t w d
seen-act_other gid i (writes_stderr b) t w d = seen-change_other (to_stderr b) gid i t w d
seen-act_other gid i (fetches f) t w d = seen-change_other (record_fetch f) gid i t w d

same_goroutine : (gid i : ℕ) → (gid == i) ≡ true → gid ≡ i
same_goroutine gid i e = ground arith

-- From a tracker whose pointers are allocated and all different, however the actions of goroutines are
-- mixed, the capture that a goroutine's output would reach is what its own actions alone, in their
-- order, make of it, and the pointers stay allocated and different.
pub run-alone :
    (trace : Trace) (t : Tracker) (gid : ℕ)
    → IsSeparate t
    → (seen gid (run trace t) ≡ alone (of_goroutine gid trace) (seen gid t))
      × IsSeparate (run trace t)
unfolding run
run-alone [] t gid w = (refl, w)
run-alone ((i, a) ∷ trace) t gid w =
    let (rest, kept) = run-alone trace (act i a t) gid (act-IsSeparate i a t w) in
    (rest ∙ by_goroutine (Bool-cases (gid == i)), kept)
  where
    by_goroutine :
        ((gid == i) ≡ true) ⊎ ((gid == i) ≡ false)
        → alone (of_goroutine gid trace) (seen gid (act i a t))
          ≡ alone (of_goroutine gid ((i, a) ∷ trace)) (seen gid t)
    by_goroutine (inl e) =
        ap (alone (of_goroutine gid trace)) (
          ap (λ (k : ℕ). seen gid (act k a t)) (sym (same_goroutine gid i e))
          ∙ seen-act_own gid a t)
        ∙ rw e refl
    by_goroutine (inr e) =
        ap (alone (of_goroutine gid trace)) (seen-act_other gid i a t w e) ∙ rw e refl
