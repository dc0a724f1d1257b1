-- ===== src/Tests/Transfers.antt =====
-- KV transfers of one key at concrete inputs.
use nano_vllm_qos.Prelude.{◌≡◌, refl, true, false, Option, none, some, [], ◌∷◌, ok, err}
use nano_vllm_qos.Transfer.{
  Coordinator, Got, cached, Bytes, KvTransferState, Reach, puts, completes, here, next, init, get,
  put, complete, run, done, raised,
}
use nano_vllm_qos.Transfer.Invariant.{Coherent, init-Coherent, Step-Coherent, Reach-get, stored}
use nano_vllm_qos.Transfer.Drain.{drain, put-drain}

-- A backend whose `put` keeps what is stored.
abbrev insert_only : Option Bytes → Bytes → Option Bytes
insert_only none p = some p
insert_only (some old) p = some old

abbrev fresh : Coordinator
fresh = init insert_only "page-0" none

-- One write has begun, and a second one after it.
writing_one : Coordinator
unfolding put
writing_one = elim (put fresh (1 ∷ 2 ∷ []) true) [ ok c ↦ c | err e ↦ fresh ]

writing_one_lem : put fresh (1 ∷ 2 ∷ []) true ≡ ok writing_one
unfolding put writing_one
writing_one_lem = refl

writing_two : Coordinator
unfolding put writing_one
writing_two = elim (put writing_one (3 ∷ []) true) [ ok c ↦ c | err e ↦ fresh ]

writing_two_lem : put writing_one (3 ∷ []) true ≡ ok writing_two
unfolding put writing_one writing_two
writing_two_lem = refl

Step-Coherent_example : Coherent writing_one
Step-Coherent_example =
    Step-Coherent (puts (1 ∷ 2 ∷ []) true writing_one_lem) (λ old. refl)
      (init-Coherent insert_only "page-0" none)

abbrev written : Coordinator
written = complete writing_one done

written-Reach : Reach fresh written
written-Reach =
    next (next here (puts (1 ∷ 2 ∷ []) true writing_one_lem)) (completes writing_one done)

Reach-get_example :
    (d : Coordinator) × (g : Got) × (get written ≡ ok (d, g))
    × ((p : Option Bytes) → g ≡ cached p → (p ≡ written.store) × (stored p ≡ true))
unfolding complete writing_one run written-Reach
Reach-get_example =
    Reach-get insert_only "page-0" none written written-Reach ((tt, λ old. refl), tt) refl refl

-- The first write fails, the second one counts.
put-drain_example :
    let e = drain writing_two (raised "OSError: full" none ∷ done ∷ []) in
    (e.entry.state ≡ KvTransferState.resident)
    × (e.entry.payload ≡ some (3 ∷ []))
    × (e.store ≡ some (3 ∷ []))
    × (e.chain ≡ [])
unfolding writing_one
put-drain_example =
    put-drain writing_one writing_two (3 ∷ []) true (raised "OSError: full" none ∷ [])
      writing_two_lem refl

-- Without `overwrite`, the first payload stays stored, and the second one is resident.
kept_old : Coordinator
unfolding put
kept_old = elim (put (record fresh { store = some (7 ∷ []) }) (3 ∷ []) false) [
  | ok c ↦ complete c done
  | err e ↦ fresh
]

kept_old_lem : (kept_old.entry.payload ≡ some (3 ∷ [])) × (kept_old.store ≡ some (7 ∷ []))
unfolding kept_old put complete run
kept_old_lem = (refl, refl)
