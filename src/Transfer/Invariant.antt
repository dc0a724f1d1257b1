-- ===== src/Transfer/Invariant.antt =====
-- The entry of a key agrees with its chain of tasks and with the backend, whatever happens.
use nano_vllm_qos.Prelude.{
  ℕ, suc, ◌+◌, ◌-◌, ◌<◌, ◌≡◌, refl, Bool, true, false, Option, none, some, List, [], ◌∷◌, ◌++◌, ok,
  err, Error, arith, if◌then◌else◌, Bool-cases, ◌⊎◌, inl, inr, ◌∙◌, subst, result_total, ap, sym,
}
use Prim.Native.String.{String}
use nano_vllm_qos.Request.{nonempty}
use nano_vllm_qos.Transfer.{
  cached, Coordinator, KvTransferState, Io, Got, Answer, Step, Reach, Bytes, gets, leaves, puts,
  evicts, completes, closes, here, next, next_entry, KvTransferMetrics, get, leave, put, evict,
  complete, run, left_by, generation_of, in_flight, is_resident, finish_success, finish_failure,
  init, fetch, write, remove, done, raised,
}

chain_cases : (l : List Io) → (l ≡ []) ⊎ ((io : Io) × (rest : List Io) × (l ≡ io ∷ rest))
chain_cases [] = inl refl
chain_cases (io ∷ rest) = inr (io, rest, refl)

-- The last task of the chain is the latest generation, and the others are older.
abbrev pub Chained : List Io → ℕ → Type 0
Chained [] g = Unit {0}
Chained (x ∷ []) g = generation_of x ≡ g
Chained (x ∷ y ∷ xs) g = (generation_of x < g) × Chained (y ∷ xs) g

abbrev pub is_busy : List Io → Bool
is_busy [] = false
is_busy (x ∷ xs) = true

abbrev pub payload_of : KvTransferState → Option Bytes → Option Bytes
payload_of KvTransferState.resident store = store
payload_of _ store = none

-- A write replaces what is stored: it overwrites, or the backend's `put` does so itself.
abbrev pub Replaces : (Option Bytes → Bytes → Option Bytes) → Bytes → Bool → Type 0
Replaces backend_put p overwrite =
    (old : Option Bytes) → left_by backend_put overwrite old p ≡ some p

abbrev pub ReplacesIo : (Option Bytes → Bytes → Option Bytes) → Io → Type 0
ReplacesIo backend_put (write g p overwrite) = Replaces backend_put p overwrite
ReplacesIo backend_put _ = Unit {0}

abbrev pub AllReplace : (Option Bytes → Bytes → Option Bytes) → List Io → Type 0
AllReplace backend_put [] = Unit {0}
AllReplace backend_put (x ∷ xs) = ReplacesIo backend_put x × AllReplace backend_put xs

-- A step that is no write, or a write that replaces what is stored.
abbrev pub ReplacesIn : {c d : Coordinator} → Step c d → Type 0
ReplacesIn (puts {c} p overwrite e) = Replaces c.backend_put p overwrite
ReplacesIn _ = Unit {0}

abbrev pub Replacing : {c d : Coordinator} → Reach c d → Type 0
Replacing here = Unit {0}
Replacing (next r st) = Replacing r × ReplacesIn st

AllReplace-snoc :
    (f : Option Bytes → Bytes → Option Bytes) (xs : List Io) (x : Io)
    → AllReplace f xs
    → ReplacesIo f x
    → AllReplace f (xs ++ x ∷ [])
AllReplace-snoc f [] x h k = (k, tt)
AllReplace-snoc f (y ∷ ys) x h k = (h.0, AllReplace-snoc f ys x h.1 k)

abbrev pub stored : Option Bytes → Bool
stored none = false
stored (some p) = true

pub record Coherent (c : Coordinator) : Type 0 where
  pub chained : Chained c.chain c.entry.generation
  pub flight : in_flight c.entry.state ≡ is_busy c.chain
  pub task : c.entry.task ≡ (if is_busy c.chain then some c.entry.generation else none)
  pub payload : c.entry.payload ≡ payload_of c.entry.state c.store
  pub replace : AllReplace c.backend_put c.chain
  pub stored_there : is_resident c.entry.state ≡ true → stored c.store ≡ true

Chained-snoc :
    (xs : List Io) (x : Io) (g : ℕ)
    → Chained xs g
    → generation_of x ≡ suc g
    → Chained (xs ++ x ∷ []) (suc g)
Chained-snoc [] x g h e = e
Chained-snoc (y ∷ []) x g h e = (omega arith, e)
Chained-snoc (y ∷ z ∷ xs) x g h e = (omega arith, Chained-snoc (z ∷ xs) x g h.1 e)

busy-snoc : (xs : List Io) (x : Io) → is_busy (xs ++ x ∷ []) ≡ true
busy-snoc [] x = refl
busy-snoc (y ∷ xs) x = refl

pub init-Coherent :
    (backend_put : Option Bytes → Bytes → Option Bytes) (key : String) (store : Option Bytes)
    → Coherent (init backend_put key store)
init-Coherent backend_put key store = record {
  replace = tt;
  chained = tt;
  flight = refl;
  task = refl;
  payload = refl;
  stored_there = λ e. absurd (ground arith);
}

-- A new task at the end of the chain, under the next generation.
abbrev issued : Coordinator → KvTransferState → Io → KvTransferMetrics → Coordinator
issued c state io metrics = record c {
  entry = next_entry c.entry state;
  chain = c.chain ++ io ∷ [];
  metrics = metrics;
}

issued-Coherent :
    (c : Coordinator) (state : KvTransferState) (io : Io) (metrics : KvTransferMetrics)
    → Coherent c
    → in_flight state ≡ true
    → generation_of io ≡ suc c.entry.generation
    → ReplacesIo c.backend_put io
    → Coherent (issued c state io metrics)
issued-Coherent c KvTransferState.fetching io metrics w f e g = record {
  replace = AllReplace-snoc c.backend_put c.chain io w.replace g;
  chained = Chained-snoc c.chain io c.entry.generation w.chained e;
  flight = sym (busy-snoc c.chain io);
  task = rw (busy-snoc c.chain io);
  payload = refl;
  stored_there = λ h. absurd (ground arith);
}
issued-Coherent c KvTransferState.writing io metrics w f e g = record {
  replace = AllReplace-snoc c.backend_put c.chain io w.replace g;
  chained = Chained-snoc c.chain io c.entry.generation w.chained e;
  flight = sym (busy-snoc c.chain io);
  task = rw (busy-snoc c.chain io);
  payload = refl;
  stored_there = λ h. absurd (ground arith);
}
issued-Coherent c KvTransferState.evicting io metrics w f e g = record {
  replace = AllReplace-snoc c.backend_put c.chain io w.replace g;
  chained = Chained-snoc c.chain io c.entry.generation w.chained e;
  flight = sym (busy-snoc c.chain io);
  task = rw (busy-snoc c.chain io);
  payload = refl;
  stored_there = λ h. absurd (ground arith);
}
issued-Coherent c KvTransferState.absent io metrics w f e g = absurd (ground arith)
issued-Coherent c KvTransferState.resident io metrics w f e g = absurd (ground arith)
issued-Coherent c KvTransferState.failed io metrics w f e g = absurd (ground arith)

-- The number of waiters and the metrics are not part of the agreement.
waiters-Coherent :
    (c : Coordinator) (n : ℕ) (metrics : KvTransferMetrics)
    → Coherent c
    → Coherent (record c { entry = record (c.entry) { waiters = n }; metrics = metrics })
waiters-Coherent c n metrics w = record {
  chained = w.chained;
  flight = w.flight;
  task = w.task;
  replace = w.replace;
  payload = w.payload;
  stored_there = w.stored_there;
}

put-Coherent :
    (c : Coordinator) {d : Coordinator} (p : Bytes) (overwrite : Bool)
    → Coherent c
    → Replaces c.backend_put p overwrite
    → put c p overwrite ≡ ok d
    → Coherent d
unfolding put
put-Coherent c {d} p overwrite w g e =
    let io = write (suc c.entry.generation) p overwrite in
    let metrics = record (c.metrics) { backend_puts = c.metrics.backend_puts + 1 } in
    let same : issued c KvTransferState.writing io metrics ≡ d = ground arith in
    subst Coherent same (issued-Coherent c KvTransferState.writing io metrics w refl refl g)

evict-Coherent : (c : Coordinator) {d : Coordinator} → Coherent c → evict c ≡ ok d → Coherent d
unfolding evict
evict-Coherent c {d} w e =
    let io = remove (suc c.entry.generation) in
    let metrics = record (c.metrics) { backend_removes = c.metrics.backend_removes + 1 } in
    let same : issued c KvTransferState.evicting io metrics ≡ d = ground arith in
    subst Coherent same (issued-Coherent c KvTransferState.evicting io metrics w refl refl tt)

get-Coherent :
    (c : Coordinator) {d : Coordinator} (g : Got) → Coherent c → get c ≡ ok (d, g) → Coherent d
unfolding get
get-Coherent c {d} g w e = elim (Bool-cases (is_resident c.entry.state)) [
  | inl resident ↦ let same : c ≡ d = ground arith in subst Coherent same w
  | inr other ↦ elim (Bool-cases (in_flight c.entry.state)) [
    | inl flying ↦
        let metrics = record (c.metrics) { coalesced_gets = c.metrics.coalesced_gets + 1 } in
        let joined_one = record c {
          entry = record (c.entry) { waiters = c.entry.waiters + 1 };
          metrics = metrics;
        } in
        let same : joined_one ≡ d = ground (arith, w.task, w.flight) in
        subst Coherent same (waiters-Coherent c (c.entry.waiters + 1) metrics w)
    | inr idle ↦
        let io = fetch (suc c.entry.generation) in
        let metrics = record (c.metrics) { backend_gets = c.metrics.backend_gets + 1 } in
        let same : issued c KvTransferState.fetching io metrics ≡ d = ground arith in
        subst Coherent same (issued-Coherent c KvTransferState.fetching io metrics w refl refl tt)
  ]
]

payload_of_flying :
    (state : KvTransferState) (store : Option Bytes)
    → in_flight state ≡ true
    → (payload_of state store ≡ none) × (is_resident state ≡ false)
payload_of_flying KvTransferState.fetching store e = (refl, refl)
payload_of_flying KvTransferState.writing store e = (refl, refl)
payload_of_flying KvTransferState.evicting store e = (refl, refl)
payload_of_flying KvTransferState.absent store e = absurd (ground arith)
payload_of_flying KvTransferState.resident store e = absurd (ground arith)
payload_of_flying KvTransferState.failed store e = absurd (ground arith)

-- With tasks behind it, the first task leaves the entry as it is, whatever the backend did.
kept-Coherent :
    (c d : Coordinator) (io next_io : Io) (rest : List Io)
    → c.chain ≡ io ∷ next_io ∷ rest
    → d.chain ≡ next_io ∷ rest
    → d.entry ≡ c.entry
    → d.backend_put ≡ c.backend_put
    → Coherent c
    → Coherent d
kept-Coherent c d io next_io rest before after same put_same w =
    let chained : Chained (io ∷ next_io ∷ rest) c.entry.generation =
      subst (λ l. Chained l c.entry.generation) before w.chained in
    let flying : in_flight c.entry.state ≡ true = w.flight ∙ ap is_busy before in
    let old = payload_of_flying c.entry.state c.store flying in
    let new = payload_of_flying c.entry.state d.store flying in
    let writes : AllReplace c.backend_put (io ∷ next_io ∷ rest) =
      subst (AllReplace c.backend_put) before w.replace in
    record {
      replace = rw after (subst (λ f. AllReplace f (next_io ∷ rest)) (sym put_same) writes.1);
      chained = rw (after, same) chained.1;
      flight = rw (after, same) flying;
      task =
          rw (after, same)
            (w.task ∙ ap (λ l. if is_busy l then some c.entry.generation else none) before);
      payload = rw same (w.payload ∙ old.0 ∙ sym new.0);
      stored_there = rw same (λ h. absurd (ground (arith, new.1)));
    }

settled-Coherent :
    (d : Coordinator)
    → d.chain ≡ []
    → in_flight d.entry.state ≡ false
    → d.entry.task ≡ none
    → d.entry.payload ≡ payload_of d.entry.state d.store
    → (is_resident d.entry.state ≡ true → stored d.store ≡ true)
    → Coherent d
settled-Coherent d empty idle no_task payload there = record {
  replace = rw empty tt;
  chained = rw empty tt;
  flight = rw empty idle;
  task = rw empty no_task;
  payload = payload;
  stored_there = there;
}

-- The only task is the latest one, and settles the entry.
run_last-Coherent :
    (c : Coordinator) (io : Io) (answer : Answer)
    → generation_of io ≡ c.entry.generation
    → ReplacesIo c.backend_put io
    → Coherent (run (record c { chain = [] }) io answer)
unfolding run finish_success finish_failure
run_last-Coherent c (fetch n) done e g =
    settled-Coherent _ refl (ground arith) (ground arith) (ground arith) (λ h. ground arith)
run_last-Coherent c (write n p overwrite) done e g =
    let holds = g c.store in
    settled-Coherent _ refl (ground arith) (ground arith) (ground (arith, holds))
      (λ h. ground (arith, holds))
run_last-Coherent c (remove n) done e g =
    settled-Coherent _ refl (ground arith) (ground arith) (ground arith) (λ h. ground arith)
run_last-Coherent c (fetch n) (raised error left) e g =
    settled-Coherent _ refl (ground arith) (ground arith) (ground arith) (λ h. ground arith)
run_last-Coherent c (write n p overwrite) (raised error left) e g =
    settled-Coherent _ refl (ground arith) (ground arith) (ground arith) (λ h. ground arith)
run_last-Coherent c (remove n) (raised error left) e g =
    settled-Coherent _ refl (ground arith) (ground arith) (ground arith) (λ h. ground arith)

run_first-entry :
    (c : Coordinator) (io : Io) (rest : List Io) (answer : Answer)
    → generation_of io < c.entry.generation
    → ((run (record c { chain = rest }) io answer).entry ≡ c.entry)
      × ((run (record c { chain = rest }) io answer).chain ≡ rest)
      × ((run (record c { chain = rest }) io answer).backend_put ≡ c.backend_put)
unfolding run finish_success finish_failure
run_first-entry c (fetch g) rest done h = (ground arith, refl, refl)
run_first-entry c (write g p overwrite) rest done h = (ground arith, refl, refl)
run_first-entry c (remove g) rest done h = (ground arith, refl, refl)
run_first-entry c (fetch g) rest (raised error left) h = (ground arith, refl, refl)
run_first-entry c (write g p overwrite) rest (raised error left) h = (ground arith, refl, refl)
run_first-entry c (remove g) rest (raised error left) h = (ground arith, refl, refl)

run-Coherent :
    (c : Coordinator) (io : Io) (rest : List Io) (answer : Answer)
    → c.chain ≡ io ∷ rest
    → Coherent c
    → Coherent (run (record c { chain = rest }) io answer)
run-Coherent c io [] answer e w =
    run_last-Coherent c io answer (subst (λ l. Chained l c.entry.generation) e w.chained)
      (subst (AllReplace c.backend_put) e w.replace).0
run-Coherent c io (y ∷ ys) answer e w =
    let older = (subst (λ l. Chained l c.entry.generation) e w.chained).0 in
    let (entry, chain, put_same) = run_first-entry c io (y ∷ ys) answer older in
    kept-Coherent c (run (record c { chain = y ∷ ys }) io answer) io y ys e chain entry put_same w

complete-Coherent : (c : Coordinator) (answer : Answer) → Coherent c → Coherent (complete c answer)
unfolding complete
complete-Coherent c answer w = elim (chain_cases c.chain) [
  | inl empty ↦ rw (empty, complete) w
  | inr (io, rest, e) ↦ rw (e, complete) (run-Coherent c io rest answer e w)
]

-- Every step of the program and every answer of the backend keep the entry, the chain of tasks and
-- the backend in agreement, where a write that is issued replaces what is stored (it overwrites, or
-- the backend's `put` does so): only the latest task settles the entry, an entry in flight has a
-- task, and a resident payload is what the backend stores.
pub Step-Coherent : {c d : Coordinator} (st : Step c d) → ReplacesIn st → Coherent c → Coherent d
unfolding leave
Step-Coherent (gets {c} g e) k w = get-Coherent c g w e
Step-Coherent (leaves c cancelled) k w =
    waiters-Coherent c (c.entry.waiters - 1)
      (record (c.metrics) {
        cancelled_waiters =
            if cancelled then c.metrics.cancelled_waiters + 1 else c.metrics.cancelled_waiters;
      })
      w
Step-Coherent (puts {c} p overwrite e) k w = put-Coherent c p overwrite w k e
Step-Coherent (evicts {c} e) k w = evict-Coherent c w e
Step-Coherent (completes c answer) k w = complete-Coherent c answer w
Step-Coherent (closes c) k w = record {
  chained = w.chained;
  flight = w.flight;
  task = w.task;
  replace = w.replace;
  payload = w.payload;
  stored_there = w.stored_there;
}

Reach-Coherent : {c d : Coordinator} → Coherent c → (r : Reach c d) → Replacing r → Coherent d
Reach-Coherent w here k = w
Reach-Coherent w (next r st) k = Step-Coherent st k.1 (Reach-Coherent w r k.0)

payload_of_resident :
    (state : KvTransferState) (store : Option Bytes)
    → is_resident state ≡ true
    → payload_of state store ≡ store
payload_of_resident KvTransferState.resident store e = refl
payload_of_resident KvTransferState.absent store e = absurd (ground arith)
payload_of_resident KvTransferState.fetching store e = absurd (ground arith)
payload_of_resident KvTransferState.writing store e = absurd (ground arith)
payload_of_resident KvTransferState.evicting store e = absurd (ground arith)
payload_of_resident KvTransferState.failed store e = absurd (ground arith)

get-ne-err :
    (c : Coordinator) (e : Error)
    → c.closed ≡ false
    → nonempty c.key ≡ true
    → Coherent c
    → ¬ (get c ≡ err e)
unfolding get
get-ne-err c e live named w bad = ground (arith, w.task, w.flight)

get-cached :
    (c d : Coordinator) (p : Option Bytes)
    → get c ≡ ok (d, cached p)
    → (is_resident c.entry.state ≡ true) × (p ≡ c.entry.payload)
unfolding get
get-cached c d p e = ground arith

Coherent-get :
    (c : Coordinator)
    → c.closed ≡ false
    → nonempty c.key ≡ true
    → Coherent c
    → (d : Coordinator) × (g : Got) × (get c ≡ ok (d, g))
      × ((p : Option Bytes) → g ≡ cached p → (p ≡ c.store) × (stored p ≡ true))
Coherent-get c live named w =
    let ((d, g), e) = result_total (get c) (λ f. get-ne-err c f live named w) in
    (
      d,
      g,
      e,
      λ p q.
          let (resident, paid) = get-cached c d p (e ∙ ap (λ x. ok (d, x)) q) in
          let held = paid ∙ w.payload ∙ payload_of_resident c.entry.state c.store resident in
          (held, rw held (w.stored_there resident)),
    )

-- After any history of a fresh key in which every write replaces what is stored (it overwrites, or
-- the backend's `put` does so), a `get` of an open coordinator with a non-empty key does not raise,
-- and when it answers at once, it answers with a payload, and with the one that the backend stores
-- at that moment.
pub Reach-get :
    (backend_put : Option Bytes → Bytes → Option Bytes) (key : String) (store : Option Bytes)
    (c : Coordinator) (r : Reach (init backend_put key store) c)
    → Replacing r
    → c.closed ≡ false
    → nonempty c.key ≡ true
    → (d : Coordinator) × (g : Got) × (get c ≡ ok (d, g))
      × ((p : Option Bytes) → g ≡ cached p → (p ≡ c.store) × (stored p ≡ true))
Reach-get backend_put key store c r k live named =
    Coherent-get c live named (Reach-Coherent (init-Coherent backend_put key store) r k)
