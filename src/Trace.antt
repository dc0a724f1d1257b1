-- ===== src/Trace.antt =====
-- nanovllm/engine/scheduler_trace.py: the flight recorder of the scheduler. `size` gives the bytes of
-- an event's line, or `none` where JSON cannot hold the event; `write_ok` says whether the write to
-- the file goes through. `written` are the rows that the file holds after the header.
use nano_vllm_qos.Prelude.{
  ℕ, ◌+◌, ◌*◌, ◌-◌, ◌≤◌, subst, ◌≡◌, refl, Bool, true, false, not, ◌&&◌, ◌||◌, Option, none, some,
  List, [], ◌∷◌, ◌++◌, arith, if◌then◌else◌, ltb, leb, ◌==◌, length, drop, length-append,
  length-drop, Option-cases, inl, inr,
}

-- A row: the number of the event, and the event.
pub record SchedulerTrace (E : Type 0) : Type 0 where
  pub history_limit : ℕ
  pub history : List (ℕ × E)
  pub following : ℕ
  pub remaining : ℕ
  pub max_triggers : ℕ
  pub triggers : ℕ
  pub max_bytes : ℕ
  pub bytes_written : ℕ
  pub event_id : ℕ
  pub last_written : Option ℕ
  pub enabled : Bool
  pub written : List (ℕ × E)

module _ {E : Type 0} where
  -- The recorder after the header, of `header_bytes` bytes, is written.
  unfoldable pub start : ℕ → ℕ → ℕ → ℕ → ℕ → SchedulerTrace E
  start header_bytes history following max_triggers max_bytes = record {
    history_limit = history;
    history = [];
    following = following;
    remaining = 0;
    max_triggers = max_triggers;
    triggers = 0;
    max_bytes = max_bytes;
    bytes_written = header_bytes;
    event_id = 0;
    last_written = none;
    enabled = true;
    written = [];
  }

  -- `append` of a deque with `maxlen`
  unfoldable pub push : ℕ → List (ℕ × E) → ℕ × E → List (ℕ × E)
  push limit rows row = drop (length rows + 1 - limit) (rows ++ row ∷ [])

  abbrev pub is_new : Option ℕ → ℕ × E → Bool
  is_new none row = true
  is_new (some n) row = ltb n row.0

  unfoldable pub unwritten : Option ℕ → List (ℕ × E) → List (ℕ × E)
  unwritten last [] = []
  unwritten last (row ∷ rows) =
      let rest = unwritten last rows in if is_new last row then row ∷ rest else rest

  abbrev pub last_id : Option ℕ → List (ℕ × E) → Option ℕ
  last_id before [] = before
  last_id before (row ∷ rows) = last_id (some (row.0)) rows

-- A conditional keeps what both of its branches keep.
if_keeps {ℓ κ} :
    {A : Type ℓ} (P : A → Type κ) (b : Bool) {x y : A}
    → (b ≡ true → P x)
    → (b ≡ false → P y)
    → P (if b then x else y)
if_keeps P true h k = h refl
if_keeps P false h k = k refl

module _ {E : Type 0} (size : E → Option ℕ) where
  abbrev add_size : Option ℕ → Option ℕ → Option ℕ
  add_size (some a) (some b) = some (a + b)
  add_size none b = none
  add_size (some a) none = none

  -- The bytes of some rows.
  unfoldable pub payload_size : List (ℕ × E) → Option ℕ
  payload_size [] = some 0
  payload_size (row ∷ rows) = add_size (size (row.1)) (payload_size rows)

  -- Write rows of the given size, within the byte limit.
  abbrev settle : SchedulerTrace E → List (ℕ × E) → Bool → Option ℕ → SchedulerTrace E
  settle t rows write_ok none = record t { enabled = false }
  settle t rows write_ok (some bytes) =
      if ltb t.max_bytes (t.bytes_written + bytes) || not write_ok
      then record t { enabled = false }
      else record t {
        bytes_written = t.bytes_written + bytes;
        last_written = last_id t.last_written rows;
        remaining = t.remaining - 1;
        enabled = not (leb t.max_triggers t.triggers && (t.remaining - 1) == 0);
        written = t.written ++ rows;
      }

  -- Write the rows that an event selects.
  unfoldable pub write : SchedulerTrace E → List (ℕ × E) → Bool → SchedulerTrace E
  write t rows write_ok = settle t rows write_ok (payload_size rows)

  -- The event enters the window.
  abbrev noted : SchedulerTrace E → E → SchedulerTrace E
  noted t event = record t {
    event_id = t.event_id + 1;
    history = push t.history_limit t.history (t.event_id, event);
  }

  -- The event is a trigger too.
  abbrev triggered_trace : SchedulerTrace E → E → SchedulerTrace E
  triggered_trace t event = record (noted t event) {
    triggers = t.triggers + 1;
    remaining = t.following + 1;
  }

  -- `SchedulerTrace.record`
  unfoldable pub record_event : SchedulerTrace E → E → Bool → Bool → SchedulerTrace E
  record_event t event trigger write_ok =
      let u = noted t event in
      if not t.enabled
      then t
      else (if trigger && ltb t.triggers t.max_triggers
          then write (triggered_trace t event) (unwritten t.last_written u.history) write_ok
          else (if t.remaining == 0 then u else write u ((t.event_id, event) ∷ []) write_ok))

  -- The limits hold, and the bytes are the header's and the rows'.
  pub record IsBounded (header_bytes : ℕ) (t : SchedulerTrace E) : Type 0 where
    pub window : length t.history ≤ t.history_limit
    pub triggered : t.triggers ≤ t.max_triggers
    pub rest : t.remaining ≤ t.following + 1
    pub room : t.bytes_written ≤ t.max_bytes
    pub bytes : ℕ
    pub counted : payload_size t.written ≡ some bytes
    pub total : t.bytes_written ≡ header_bytes + bytes

  payload_size-append :
      (xs ys : List (ℕ × E)) {a b : ℕ}
      → payload_size xs ≡ some a
      → payload_size ys ≡ some b
      → payload_size (xs ++ ys) ≡ some (a + b)
  unfolding payload_size
  payload_size-append [] ys h k = ground arith
  payload_size-append (x ∷ xs) ys {a} {b} h k = elim (Option-cases (payload_size xs)) [
    | inl e ↦ absurd (ground arith)
    | inr (c, e) ↦ let more = payload_size-append xs ys e k in ground arith
  ]

  length-push :
      (limit : ℕ) (rows : List (ℕ × E)) (row : ℕ × E) → length (push limit rows row) ≤ limit
  unfolding push
  length-push limit rows row = omega (
    arith,
    length-drop (length rows + 1 - limit) (rows ++ row ∷ []),
    length-append rows (row ∷ []),
  )

  settle-IsBounded :
      {n : ℕ} (t : SchedulerTrace E) (rows : List (ℕ × E)) (write_ok : Bool) (o : Option ℕ)
      → payload_size rows ≡ o
      → IsBounded n t
      → IsBounded n (settle t rows write_ok o)
  settle-IsBounded t rows write_ok none e w = record {
    window = w.window;
    triggered = w.triggered;
    rest = w.rest;
    room = w.room;
    bytes = w.bytes;
    counted = w.counted;
    total = w.total;
  }
  settle-IsBounded {n} t rows write_ok (some k) e w =
      if_keeps (IsBounded n) (ltb t.max_bytes (t.bytes_written + k) || not write_ok)
        (λ full. record {
          window = w.window;
          triggered = w.triggered;
          rest = w.rest;
          room = w.room;
          bytes = w.bytes;
          counted = w.counted;
          total = w.total;
        })
        (λ fits. record {
          window = w.window;
          triggered = w.triggered;
          rest = omega (arith, w.rest);
          room = ground arith;
          bytes = w.bytes + k;
          counted = payload_size-append t.written rows w.counted e;
          total = omega (arith, w.total);
        })

  pub start-IsBounded :
      (n history following max_triggers max_bytes : ℕ)
      → n ≤ max_bytes
      → IsBounded n (start n history following max_triggers max_bytes)
  unfolding start payload_size
  start-IsBounded n history following max_triggers max_bytes h = record {
    window = omega arith;
    triggered = omega arith;
    rest = omega arith;
    room = h;
    bytes = 0;
    counted = refl;
    total = omega arith;
  }

  noted-IsBounded :
      {n : ℕ} (t : SchedulerTrace E) (event : E) → IsBounded n t → IsBounded n (noted t event)
  noted-IsBounded t event w = record {
    window = length-push t.history_limit t.history (t.event_id, event);
    triggered = w.triggered;
    rest = w.rest;
    room = w.room;
    bytes = w.bytes;
    counted = w.counted;
    total = w.total;
  }

  triggered-IsBounded :
      {n : ℕ} (t : SchedulerTrace E) (event : E)
      → ltb t.triggers t.max_triggers ≡ true
      → IsBounded n t
      → IsBounded n (triggered_trace t event)
  triggered-IsBounded t event h w = record {
    window = length-push t.history_limit t.history (t.event_id, event);
    triggered = ground arith;
    rest = omega arith;
    room = w.room;
    bytes = w.bytes;
    counted = w.counted;
    total = w.total;
  }

  record_event-Keeps :
      {n : ℕ} (t : SchedulerTrace E) (event : E) (trigger write_ok : Bool)
      → IsBounded n t
      → IsBounded n (record_event t event trigger write_ok)
  unfolding record_event write
  record_event-Keeps {n} t event trigger write_ok w =
      if_keeps (IsBounded n) (not t.enabled) (λ off. w)
        (λ on.
          if_keeps (IsBounded n) (trigger && ltb t.triggers t.max_triggers)
            (λ fires.
              settle-IsBounded (triggered_trace t event)
                (unwritten t.last_written ((noted t event).history)) write_ok
                (payload_size (unwritten t.last_written ((noted t event).history))) refl
                (triggered-IsBounded t event (ground arith) w))
            (λ quiet.
              if_keeps (IsBounded n) (t.remaining == 0) (λ idle. noted-IsBounded t event w)
                (λ more.
                  settle-IsBounded (noted t event) ((t.event_id, event) ∷ []) write_ok
                    (payload_size ((t.event_id, event) ∷ [])) refl (noted-IsBounded t event w))))

  -- The rows of the file, and those that may still follow the last trigger, are at most a window and
  -- `following` rows for every trigger.
  abbrev pub HasRoom : SchedulerTrace E → Type 0
  HasRoom t =
      length t.written + (if t.enabled then t.remaining else 0)
      ≤ t.triggers * (t.history_limit + t.following)

  length-unwritten :
      (last : Option ℕ) (rows : List (ℕ × E)) → length (unwritten last rows) ≤ length rows
  unfolding unwritten
  length-unwritten last [] = omega arith
  length-unwritten last (row ∷ rows) = ground (arith, length-unwritten last rows)

  settle-HasRoom :
      (t : SchedulerTrace E) (rows : List (ℕ × E)) (write_ok : Bool) (o : Option ℕ)
      → length t.written + length rows + (t.remaining - 1)
        ≤ t.triggers * (t.history_limit + t.following)
      → HasRoom (settle t rows write_ok o)
  settle-HasRoom t rows write_ok none h = omega (arith, h)
  settle-HasRoom t rows write_ok (some k) h =
      if_keeps HasRoom (ltb t.max_bytes (t.bytes_written + k) || not write_ok)
        (λ full. omega (arith, h))
        (λ fits.
          let n : length (t.written ++ rows) ≡ length t.written + length rows =
            length-append t.written rows in
          enabled_or_not (not (leb t.max_triggers t.triggers && (t.remaining - 1) == 0)) n)
    where
      enabled_or_not :
          (e : Bool)
          → length (t.written ++ rows) ≡ length t.written + length rows
          → length (t.written ++ rows) + (if e then t.remaining - 1 else 0)
            ≤ t.triggers * (t.history_limit + t.following)
      enabled_or_not true n = omega (arith, h, n)
      enabled_or_not false n = omega (arith, h, n)

  record_event-HasRoom :
      (t : SchedulerTrace E) (event : E) (trigger write_ok : Bool)
      → HasRoom t
      → HasRoom (record_event t event trigger write_ok)
  unfolding record_event write
  record_event-HasRoom t event trigger write_ok h =
      if_keeps HasRoom (not t.enabled) (λ off. h)
        (λ on.
          let live : t.enabled ≡ true = ground (arith, on) in
          let before : length t.written + t.remaining
              ≤ t.triggers * (t.history_limit + t.following) =
            subst
              (λ (e : Bool).
                length t.written + (if e then t.remaining else 0)
                ≤ t.triggers * (t.history_limit + t.following))
              live h in
          if_keeps HasRoom (trigger && ltb t.triggers t.max_triggers)
            (λ fires.
              let new = unwritten t.last_written ((noted t event).history) in
              let few : length new ≤ t.history_limit = omega (
                arith,
                length-unwritten t.last_written ((noted t event).history),
                length-push t.history_limit t.history (t.event_id, event),
              ) in
              settle-HasRoom (triggered_trace t event) new write_ok (payload_size new)
                (grind (arith, before, few)))
            (λ quiet.
              if_keeps HasRoom (t.remaining == 0) (λ idle. rw live before)
                (λ more.
                  settle-HasRoom (noted t event) ((t.event_id, event) ∷ []) write_ok
                    (payload_size ((t.event_id, event) ∷ [])) (ground (arith, before, more)))))

  -- Whatever is recorded, and whether the write succeeds or not, the recorder keeps to its limits: the
  -- window, the triggers and the bytes of the file, and its rows: the rows of the file, and those that
  -- may still follow the last trigger, are at most a window and `following` rows for every trigger
  -- counted. The bytes that it has counted are those of the header and of the rows that it has written.
  pub record_event-IsBounded :
      {n : ℕ} (t : SchedulerTrace E) (event : E) (trigger write_ok : Bool)
      → IsBounded n t
      → HasRoom t
      → let t' = record_event t event trigger write_ok in IsBounded n t' × HasRoom t'
  record_event-IsBounded t event trigger write_ok w h = (
    record_event-Keeps t event trigger write_ok w,
    record_event-HasRoom t event trigger write_ok h,
  )
