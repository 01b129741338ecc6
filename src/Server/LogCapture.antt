-- ===== src/Server/LogCapture.antt =====
-- server/internal/invoke/logcapture.go: bounded buffers for the output of one invocation, and the
-- tracker that finds the invocation of a goroutine. A goroutine is named by its id, which
-- curGoroutineID reads off the Go runtime. A capture is an object on the heap: the map of the tracker
-- holds pointers, which the invocation keeps as well.
pub mod Bounds
pub mod Isolation
use funcbox.Prelude.{
  ℕ, suc, ◌+◌, ◌-◌, ◌*◌, Bool, true, false, Bytes, List, [], ◌∷◌, ◌++◌, ◌==◌, leb, ltb, length,
  take, Option, none, some, if◌then◌else◌,
}

abbrev pub max_captured_output_bytes : ℕ
max_captured_output_bytes = 32 * 1024

abbrev pub max_captured_fetch_decisions : ℕ
max_captured_fetch_decisions = 200

-- The error that a Write can return; that of a bounded buffer returns none.
pub data WriteError : Type 0 where
  write_failed : WriteError

-- boundedBuffer.Write: the buffer after it, the count that it reports, and its error. `p` is cut
-- before the count is taken.
unfoldable pub write_within : ℕ → Bytes → Bytes → Bytes × ℕ × Option WriteError
write_within limit buf p =
    if leb limit (length buf)
    then (buf, length p, none)
    else let remaining : ℕ = limit - length buf in
      let cut : Bytes = if ltb remaining (length p) then take remaining p else p in
      (buf ++ cut, length cut, none)

unfoldable pub write : Bytes → Bytes → Bytes × ℕ × Option WriteError
unfolding write_within
write = write_within max_captured_output_bytes

-- store.FetchDecision
pub record FetchDecision : Type 0 where
  pub host : Bytes
  pub port : ℕ
  pub allowed : Bool
  pub stage : Bytes

pub record Capture : Type 0 where
  pub stdout : Bytes
  pub stderr : Bytes
  pub fetch_decisions : List FetchDecision

abbrev pub new_capture : Capture
new_capture = record { stdout = []; stderr = []; fetch_decisions = [] }

unfoldable pub record_fetch : FetchDecision → Capture → Capture
record_fetch d c =
    if leb max_captured_fetch_decisions (length c.fetch_decisions)
    then c
    else record c { fetch_decisions = c.fetch_decisions ++ (d ∷ []) }

-- byGID, a pointer for a goroutine, and the captures that the pointers below `next` point at.
pub record Tracker : Type 0 where
  pub by_gid : ℕ → Option ℕ
  pub heap : ℕ → Capture
  pub next : ℕ

unfoldable pub new_invocation_tracker : Tracker
new_invocation_tracker = record { by_gid = λ gid. none; heap = λ p. new_capture; next = 0 }

unfoldable pub set_at {ℓ} : {A : Type ℓ} → ℕ → A → (ℕ → A) → ℕ → A
set_at k x f i = if i == k then x else f i

-- begin: the pointer that it returns is `next` of the tracker before.
unfoldable pub begin : ℕ → Tracker → Tracker
unfolding set_at
begin gid t = record {
  by_gid = set_at gid (some t.next) t.by_gid;
  heap = set_at t.next new_capture t.heap;
  next = suc t.next;
}

unfoldable pub end : ℕ → Tracker → Tracker
unfolding set_at
end gid t = record t { by_gid = set_at gid none t.by_gid }

unfoldable pub current : ℕ → Tracker → Option ℕ
current gid t = t.by_gid gid

-- A change of the object that the pointer points at; there is none where the pointer is nil.
unfoldable pub change : (Capture → Capture) → Option ℕ → Tracker → Tracker
unfolding set_at
change f none t = t
change f (some p) t = record t { heap = set_at p (f (t.heap p)) t.heap }

-- What the writers and recordFetch do with the object
unfoldable pub to_stdout : Bytes → Capture → Capture
unfolding write
to_stdout b c = record c { stdout = (write c.stdout b).0 }

unfoldable pub to_stderr : Bytes → Capture → Capture
unfolding write
to_stderr b c = record c { stderr = (write c.stderr b).0 }

-- What one goroutine does with the tracker. Output and decisions reach the capture that is current
-- on the goroutine, and are dropped where there is none.
pub data TrackerAction : Type 0 where
  begins ends : TrackerAction
  writes_stdout writes_stderr : Bytes → TrackerAction
  fetches : FetchDecision → TrackerAction

-- An action of the goroutine `gid`
unfoldable pub act : ℕ → TrackerAction → Tracker → Tracker
unfolding begin end current change to_stdout to_stderr record_fetch
act gid begins t = begin gid t
act gid ends t = end gid t
act gid (writes_stdout b) t = change (to_stdout b) (current gid t) t
act gid (writes_stderr b) t = change (to_stderr b) (current gid t) t
act gid (fetches d) t = change (record_fetch d) (current gid t) t

-- The actions of all goroutines, in the order in which they happen.
abbrev pub Trace : Type 0
Trace = List (ℕ × TrackerAction)

unfoldable pub run : Trace → Tracker → Tracker
unfolding act
run [] t = t
run ((gid, a) ∷ trace) t = run trace (act gid a t)
