-- ===== src/Transfer.antt =====
-- nanovllm/engine/transfer_coordinator.py: asynchronous KV I/O. The state of one object key, what the
-- backend stores under that key, and the chain of I/O tasks that have not finished. A task waits for
-- the one before it (`io_tail`), so the chain runs first in, first out. Every critical section under
-- the lock is one function; the backend's answer is an argument. `overwrite` chooses between the
-- backend's `upsert`, which replaces what is stored, and its `put`. A backend may keep what is stored
-- on a `put`, so what a `put` that succeeds leaves under the key is a function of the coordinator.
pub mod Invariant
pub mod Drain
use Prim.Native.String.{String}
use nano_vllm_qos.Prelude.{
  ℕ, zero, suc, ◌+◌, ◌-◌, ◌*◌, ◌/◌, ◌%◌, ◌≤◌, ◌<◌, ◌≡◌, ◌≢◌, refl, min, max, Bool, true, false, not,
  ◌||◌, ◌&&◌, Option, none, some, List, [], ◌∷◌, ◌++◌, Result, ok, err, Error, guard, or_raise,
  ◌>>=◌, ◌>>◌, arith, if◌then◌else◌, ◌==◌, ltb, leb, length, get_elem?, elem, erase, reverse, count,
  count-append, count-erase, length-erase, length-append, Option-cases, Bool-cases, ◌⊎◌, inl, inr,
  ◌∙◌, subst, take, drop, >>=-eq-ok, result_total, Result-cases, le→leb, lt→ltb, ap, sym, ==_iff,
  ap₂, count-reverse, length-reverse, append-nil, map,
}
use nano_vllm_qos.Request.{nonempty}

pub data KvTransferState : Type 0 where
  absent fetching resident writing evicting failed : KvTransferState

abbrev pub Bytes : Type 0
Bytes = List ℕ

pub record KvTransferMetrics : Type 0 where
  pub backend_gets : ℕ
  pub backend_get_bytes : ℕ
  pub coalesced_gets : ℕ
  pub backend_puts : ℕ
  pub backend_put_bytes : ℕ
  pub backend_removes : ℕ
  pub cancelled_waiters : ℕ
  pub failures : ℕ

-- `_Entry`. A task is named by the generation that started it.
pub record Entry : Type 0 where
  pub state : KvTransferState
  pub generation : ℕ
  pub payload : Option Bytes
  pub task : Option ℕ
  pub waiters : ℕ
  pub error : Option String

abbrev pub new_entry : Entry
new_entry = record {
  state = KvTransferState.absent;
  generation = 0;
  payload = none;
  task = none;
  waiters = 0;
  error = none;
}

-- The body of a task, with the generation that started it.
pub data Io : Type 0 where
  fetch : ℕ → Io
  write : ℕ → Bytes → Bool → Io
  remove : ℕ → Io

abbrev pub generation_of : Io → ℕ
generation_of (fetch g) = g
generation_of (write g p overwrite) = g
generation_of (remove g) = g

pub record Coordinator : Type 0 where
  pub key : String
  pub entry : Entry
  pub chain : List Io
  pub metrics : KvTransferMetrics
  pub closed : Bool
  pub backend_put : Option Bytes → Bytes → Option Bytes
  pub store : Option Bytes

abbrev pub zero_metrics : KvTransferMetrics
zero_metrics = record {
  backend_gets = 0;
  backend_get_bytes = 0;
  coalesced_gets = 0;
  backend_puts = 0;
  backend_put_bytes = 0;
  backend_removes = 0;
  cancelled_waiters = 0;
  failures = 0;
}

abbrev pub init : (Option Bytes → Bytes → Option Bytes) → String → Option Bytes → Coordinator
init backend_put key store = record {
  key = key;
  entry = new_entry;
  chain = [];
  metrics = zero_metrics;
  closed = false;
  backend_put = backend_put;
  store = store;
}

-- `_ensure_open` and the test of the key
check : Coordinator → Result (Unit {0})
check c = do guard (not c.closed) Error.runtime_error; guard (nonempty c.key) Error.value_error

-- The entry of a new operation, one generation on.
abbrev pub next_entry : Entry → KvTransferState → Entry
next_entry e state = record e {
  state = state;
  generation = suc e.generation;
  payload = none;
  task = some (suc e.generation);
  error = none;
}

-- What `get` does under the lock: return the payload, join a task that runs (and start over if it
-- was an eviction), or start a fetch.
pub data Got : Type 0 where
  cached : Option Bytes → Got
  joined : ℕ → Bool → Got
  started : ℕ → Got

abbrev pub in_flight : KvTransferState → Bool
in_flight KvTransferState.fetching = true
in_flight KvTransferState.writing = true
in_flight KvTransferState.evicting = true
in_flight _ = false

abbrev pub is_evicting : KvTransferState → Bool
is_evicting KvTransferState.evicting = true
is_evicting _ = false

abbrev pub is_resident : KvTransferState → Bool
is_resident KvTransferState.resident = true
is_resident _ = false

start_fetch : Coordinator → Coordinator × Got
start_fetch c = (
  record c {
    entry = next_entry c.entry KvTransferState.fetching;
    chain = c.chain ++ fetch (suc c.entry.generation) ∷ [];
    metrics = record (c.metrics) { backend_gets = c.metrics.backend_gets + 1 };
  },
  started (suc c.entry.generation),
)

join_task : Coordinator → Result (Coordinator × Got)
join_task c = do
  task ← or_raise c.entry.task Error.runtime_error
  ok (
    record c {
      entry = record (c.entry) { waiters = c.entry.waiters + 1 };
      metrics = record (c.metrics) { coalesced_gets = c.metrics.coalesced_gets + 1 };
    },
    joined task (is_evicting c.entry.state),
  )

unfoldable pub get : Coordinator → Result (Coordinator × Got)
unfolding check start_fetch join_task
get c = do
  check c
  if is_resident c.entry.state
      then ok (c, cached c.entry.payload)
      else (if in_flight c.entry.state then join_task c else ok (start_fetch c))

-- The `finally` of a joined `get`; a cancelled one is counted.
unfoldable pub leave : Coordinator → Bool → Coordinator
leave c cancelled = record c {
  entry = record (c.entry) { waiters = c.entry.waiters - 1 };
  metrics = record (c.metrics) {
    cancelled_waiters =
        if cancelled then c.metrics.cancelled_waiters + 1 else c.metrics.cancelled_waiters;
  };
}

unfoldable pub put : Coordinator → Bytes → Bool → Result Coordinator
unfolding check
put c payload overwrite = do
  check c
  ok (record c {
    entry = next_entry c.entry KvTransferState.writing;
    chain = c.chain ++ write (suc c.entry.generation) payload overwrite ∷ [];
    metrics = record (c.metrics) { backend_puts = c.metrics.backend_puts + 1 };
  })

unfoldable pub evict : Coordinator → Result Coordinator
unfolding check
evict c = do
  check c
  ok (record c {
    entry = next_entry c.entry KvTransferState.evicting;
    chain = c.chain ++ remove (suc c.entry.generation) ∷ [];
    metrics = record (c.metrics) { backend_removes = c.metrics.backend_removes + 1 };
  })

pub record KvTransferSnapshot : Type 0 where
  pub key : String
  pub state : KvTransferState
  pub generation : ℕ
  pub has_payload : Bool
  pub waiters : ℕ
  pub error : Option String

unfoldable pub snapshot : Coordinator → KvTransferSnapshot
snapshot c = record {
  key = c.key;
  state = c.entry.state;
  generation = c.entry.generation;
  has_payload = elim c.entry.payload [ none ↦ false | some p ↦ true ];
  waiters = c.entry.waiters;
  error = c.entry.error;
}

-- `_finish_success` and `_finish_failure`: a task that is not the latest leaves the entry alone.
unfoldable pub finish_success : Entry → ℕ → KvTransferState → Option Bytes → Entry
finish_success e generation state payload =
    if e.generation == generation
    then record e { state = state; payload = payload; task = none; error = none }
    else e

unfoldable pub finish_failure : Entry → ℕ → String → Entry
finish_failure e generation error =
    if e.generation == generation
    then record e {
      state = KvTransferState.failed;
      payload = none;
      task = none;
      error = some error;
    }
    else e

-- The backend's answer. A call that raises may have taken effect; `left` is what it leaves.
pub data Answer : Type 0 where
  done : Answer
  raised : String → Option Bytes → Answer

abbrev size : Option Bytes → ℕ
size none = 0
size (some p) = length p

abbrev found_state : Option Bytes → KvTransferState
found_state none = KvTransferState.absent
found_state (some p) = KvTransferState.resident

-- What a successful `operation(key, payload)` leaves under the key, where `operation` is
-- `self.backend.upsert if overwrite else self.backend.put`.
abbrev pub left_by :
    (Option Bytes → Bytes → Option Bytes) → Bool → Option Bytes → Bytes → Option Bytes
left_by backend_put overwrite old p = if overwrite then some p else backend_put old p

-- The bodies of `_fetch`, `_put` and `_evict` after the wait for the previous task.
unfoldable pub run : Coordinator → Io → Answer → Coordinator
unfolding finish_success finish_failure
run c (fetch g) done = record c {
  entry = finish_success c.entry g (found_state c.store) c.store;
  metrics = record (c.metrics) { backend_get_bytes = c.metrics.backend_get_bytes + size c.store };
}
run c (write g p overwrite) done = record c {
  entry = finish_success c.entry g KvTransferState.resident (some p);
  metrics = record (c.metrics) { backend_put_bytes = c.metrics.backend_put_bytes + length p };
  store = left_by c.backend_put overwrite c.store p;
}
run c (remove g) done = record c {
  entry = finish_success c.entry g KvTransferState.absent none;
  store = none;
}
run c io (raised error left) = record c {
  entry = finish_failure c.entry (generation_of io) error;
  metrics = record (c.metrics) { failures = c.metrics.failures + 1 };
  store = left;
}

-- The first task of the chain finishes.
unfoldable pub complete : Coordinator → Answer → Coordinator
complete c answer = elim c.chain [ [] ↦ c | io ∷ rest ↦ run (record c { chain = rest }) io answer ]

-- What the program and the backend may do.
pub data Step : Coordinator → Coordinator → Type 0 where
  gets : {c d : Coordinator} (g : Got) → get c ≡ ok (d, g) → Step c d
  leaves : (c : Coordinator) (cancelled : Bool) → Step c (leave c cancelled)
  puts :
      {c d : Coordinator} (payload : Bytes) (overwrite : Bool)
      → put c payload overwrite ≡ ok d
      → Step c d
  evicts : {c d : Coordinator} → evict c ≡ ok d → Step c d
  completes : (c : Coordinator) (answer : Answer) → Step c (complete c answer)
  closes : (c : Coordinator) → Step c (record c { closed = true })

pub data Reach (c : Coordinator) : Coordinator → Type 0 where
  here : Reach c c
  next : {d e : Coordinator} → Reach c d → Step d e → Reach c e
