-- ===== src/Transfer/Drain.antt =====
-- The last operation wins, however many tasks stand before it.
use nano_vllm_qos.Prelude.{
  Bool, if◌then◌else◌, refl, ◌≡◌, some, List, [], ◌∷◌, ◌++◌, ok, arith, length, ◌∙◌, ap, sym,
}
use nano_vllm_qos.Transfer.{
  Coordinator, KvTransferState, Io, Answer, Bytes, put, left_by, complete, run, finish_success,
  finish_failure, write, remove, fetch, done, raised,
}

-- The tasks finish one after the other, with the given answers.
unfoldable pub drain : Coordinator → List Answer → Coordinator
drain c [] = c
drain c (a ∷ answers) = drain (complete c a) answers

-- A task leaves the generation of the entry alone and takes itself off the chain.
complete-frame :
    (c : Coordinator) (io : Io) (rest : List Io) (answer : Answer)
    → c.chain ≡ io ∷ rest
    → ((complete c answer).chain ≡ rest)
      × ((complete c answer).entry.generation ≡ c.entry.generation)
unfolding complete run finish_success finish_failure
complete-frame c (fetch g) rest done e = ground arith
complete-frame c (write g p overwrite) rest done e = ground arith
complete-frame c (remove g) rest done e = ground arith
complete-frame c (fetch g) rest (raised error left) e = ground arith
complete-frame c (write g p overwrite) rest (raised error left) e = ground arith
complete-frame c (remove g) rest (raised error left) e = ground arith

complete_last :
    (c : Coordinator) (p : Bytes) (overwrite : Bool)
    → c.chain ≡ write c.entry.generation p overwrite ∷ []
    → let d = complete c done in
      (d.entry.state ≡ KvTransferState.resident)
      × (d.entry.payload ≡ some p)
      × (d.store ≡ left_by c.backend_put overwrite c.store p)
      × (d.chain ≡ [])
unfolding complete run finish_success
complete_last c p overwrite e = ground arith

-- A task leaves the backend what it is.
complete-backend_put :
    (c : Coordinator) (io : Io) (rest : List Io) (answer : Answer)
    → c.chain ≡ io ∷ rest
    → (complete c answer).backend_put ≡ c.backend_put
unfolding complete run
complete-backend_put c (fetch g) rest done e = rw e refl
complete-backend_put c (write g p overwrite) rest done e = rw e refl
complete-backend_put c (remove g) rest done e = rw e refl
complete-backend_put c (fetch g) rest (raised error left) e = rw e refl
complete-backend_put c (write g p overwrite) rest (raised error left) e = rw e refl
complete-backend_put c (remove g) rest (raised error left) e = rw e refl

-- Whatever the earlier tasks of the chain meet, a last task that succeeds settles the entry.
settles_last :
    (earlier : List Io) (answers : List Answer) (c : Coordinator) (p : Bytes) (overwrite : Bool)
    → c.chain ≡ earlier ++ write c.entry.generation p overwrite ∷ []
    → length answers ≡ length earlier
    → let before = drain c answers in
      let d = drain c (answers ++ done ∷ []) in
      (d.entry.state ≡ KvTransferState.resident)
      × (d.entry.payload ≡ some p)
      × (d.store ≡ left_by c.backend_put overwrite before.store p)
      × (d.chain ≡ [])
unfolding drain
settles_last [] [] c p overwrite e h = complete_last c p overwrite e
settles_last [] (a ∷ answers) c p overwrite e h = absurd (omega arith)
settles_last (io ∷ earlier) [] c p overwrite e h = absurd (omega arith)
settles_last (io ∷ earlier) (a ∷ answers) c p overwrite e h =
    let later = earlier ++ write c.entry.generation p overwrite ∷ [] in
    let (chain, same) = complete-frame c io later a e in
    let r =
      settles_last earlier answers (complete c a) p overwrite
        (chain ∙ ap (λ g. earlier ++ write g p overwrite ∷ []) (sym same)) (omega arith) in
    let kept = complete-backend_put c io later a e in
    let before = drain (complete c a) answers in
    (r.0, r.1, r.2 ∙ ap (λ f. left_by f overwrite before.store p) kept, r.3)

-- After a `put`, whatever answers the tasks before it get, a write that succeeds leaves the payload
-- resident in the entry and no task behind. The backend then holds the payload where `overwrite` is
-- set, and otherwise what its own `put` makes of the payload and of what it held after those tasks.
pub put-drain :
    (c d : Coordinator) (p : Bytes) (overwrite : Bool) (answers : List Answer)
    → put c p overwrite ≡ ok d
    → length answers ≡ length c.chain
    → let before = drain d answers in
      let e = drain d (answers ++ done ∷ []) in
      (e.entry.state ≡ KvTransferState.resident)
      × (e.entry.payload ≡ some p)
      × (e.store ≡ (if overwrite then some p else c.backend_put before.store p))
      × (e.chain ≡ [])
unfolding put
put-drain c d p overwrite answers e h =
    let r = settles_last c.chain answers d p overwrite (ground arith) h in
    let kept : d.backend_put ≡ c.backend_put = ground arith in
    let before = drain d answers in
    (r.0, r.1, r.2 ∙ ap (λ f. left_by f overwrite before.store p) kept, r.3)
