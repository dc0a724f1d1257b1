-- ===== src/Scheduler/Sound.antt =====
-- The account of the scheduler: every reference to a block of the pool is held by the table of one
-- request, in a queue or in the hands of the operation, and no two requests have the same number.
use nano_vllm_qos.Prelude.{
  ℕ, ◌+◌, ◌≤◌, ◌≡◌, refl, List, [], ◌∷◌, some, arith, if◌then◌else◌, ◌==◌, count, ap, sym, subst,
  ◌∙◌,
}
use nano_vllm_qos.Sequence.{Sequence}
use nano_vllm_qos.BlockManager.{BlockManager}
use nano_vllm_qos.BlockManager.Invariant.{ref_of, Consistent}
use nano_vllm_qos.BlockManager.Correct.{Accounts}
use nano_vllm_qos.Queues.{
  total, find_seq, remove_seq, update_seq, total-remove_seq, total-update_seq,
}
use nano_vllm_qos.Scheduler.{Scheduler, PendingRestore, with_waiting, with_running, with_blocks}
use nano_vllm_qos.Scheduler.Cancel.{find_pending, remove_pending}

module _ {F : Type 0} (w : Sequence F → ℕ) where
  unfoldable pub total_pending : List (PendingRestore F) → ℕ
  total_pending [] = 0
  total_pending (p ∷ ps) = w p.sequence + total_pending ps

  pub total-remove_pending :
      (i : ℕ) (ps : List (PendingRestore F)) (p : PendingRestore F)
      → find_pending i ps ≡ some p
      → total_pending ps ≡ w p.sequence + total_pending (remove_pending i ps)
  unfolding total_pending find_pending remove_pending
  total-remove_pending i [] p e = absurd (ground arith)
  total-remove_pending i (x ∷ xs) p e = ground (arith, total-remove_pending i xs p)

-- The references to `b` in a table, and whether a request has the number `i`.
abbrev pub table_of : {F : Type 0} → ℕ → Sequence F → ℕ
table_of b s = count b s.block_table

abbrev pub is_named : {F : Type 0} → ℕ → Sequence F → ℕ
is_named i s = if s.seq_id == i then 1 else 0

module _ {F I V : Type 0} where
  -- The sum over the queues, and over the requests in hand.
  abbrev pub everyone : (Sequence F → ℕ) → Scheduler F I V → List (Sequence F) → ℕ
  everyone w m held =
      total w m.waiting + total w m.running + total_pending w m.pending_restores + total w held

  pub record IsSound (m : Scheduler F I V) (held : List (Sequence F)) : Type 0 where
    pub consistent : Consistent m.block_manager
    pub refs : (b : ℕ) → ref_of m.block_manager.blocks b ≡ everyone (table_of b) m held
    pub distinct : (i : ℕ) → everyone (is_named i) m held ≤ 1

  -- Requests move between the queues and the hands with all that they have.
  pub IsSound-move :
      (m m' : Scheduler F I V) (held held' : List (Sequence F))
      → IsSound m held
      → m'.block_manager ≡ m.block_manager
      → ((w : Sequence F → ℕ) → everyone w m' held' ≡ everyone w m held)
      → IsSound m' held'
  IsSound-move m m' held held' h same moved = record {
    consistent = rw same h.consistent;
    refs = λ b. rw same (rw (moved (table_of b)) (h.refs b));
    distinct = λ i. rw (moved (is_named i)) (h.distinct i);
  }

  module _ (m : Scheduler F I V) (held : List (Sequence F)) where
    -- The request in hand has an account, against all the others.
    pub hand-Accounts :
        (s : Sequence F)
        → IsSound m (s ∷ held)
        → Accounts m.block_manager s (λ b. everyone (table_of b) m held)
    unfolding total
    hand-Accounts s h = record { consistent = h.consistent; counted = λ b. omega (arith, h.refs b) }

    pub Accounts-hand :
        (blocks : BlockManager I) (s s' : Sequence F)
        → IsSound m (s ∷ held)
        → Accounts blocks s' (λ b. everyone (table_of b) m held)
        → s'.seq_id ≡ s.seq_id
        → IsSound (with_blocks m blocks) (s' ∷ held)
    unfolding total
    Accounts-hand blocks s s' h a same = record {
      consistent = a.consistent;
      refs = λ b. omega (arith, a.counted b);
      distinct = λ i. let k = h.distinct i in rw same k;
    }

    -- A waiting request in hand.
    pub take_waiting :
        (i : ℕ) (s : Sequence F)
        → find_seq i m.waiting ≡ some s
        → IsSound m held
        → IsSound (with_waiting m (remove_seq i m.waiting)) (s ∷ held)
    unfolding total
    take_waiting i s e h =
        IsSound-move m (with_waiting m (remove_seq i m.waiting)) held (s ∷ held) h refl
          (λ w. omega (arith, total-remove_seq w i m.waiting s e))

    pub take_running :
        (i : ℕ) (s : Sequence F)
        → find_seq i m.running ≡ some s
        → IsSound m held
        → IsSound (with_running m (remove_seq i m.running)) (s ∷ held)
    unfolding total
    take_running i s e h =
        IsSound-move m (with_running m (remove_seq i m.running)) held (s ∷ held) h refl
          (λ w. omega (arith, total-remove_seq w i m.running s e))

    -- The request is written back to where it was.
    pub put_back :
        (s s' : Sequence F)
        → find_seq s'.seq_id m.waiting ≡ some s
        → IsSound (with_waiting m (remove_seq s'.seq_id m.waiting)) (s' ∷ held)
        → IsSound (with_waiting m (update_seq s' m.waiting)) held
    unfolding total
    put_back s s' e h =
        IsSound-move (with_waiting m (remove_seq s'.seq_id m.waiting))
          (with_waiting m (update_seq s' m.waiting)) (s' ∷ held) held h refl
          (λ w. omega (
            arith,
            total-update_seq w s' m.waiting s e,
            total-remove_seq w s'.seq_id m.waiting s e,
          ))

-- An operation on the request in hand is done: the queues are as they were, and the account of the
-- request has been kept.
pub hand_done :
    {F I V : Type 0} (m m' : Scheduler F I V) (held : List (Sequence F)) (s s' : Sequence F)
    → IsSound m (s ∷ held)
    → ((w : Sequence F → ℕ) → everyone w m' held ≡ everyone w m held)
    → Accounts m'.block_manager s' (λ b. everyone (table_of b) m held)
    → s'.seq_id ≡ s.seq_id
    → IsSound m' (s' ∷ held)
unfolding total
hand_done m m' held s s' h queues a same = record {
  consistent = a.consistent;
  refs = λ b. omega (arith, a.counted b, queues (table_of b));
  distinct =
      λ i. let k = h.distinct i in let q = queues (is_named i) in rw same (omega (arith, k, q));
}

-- The request in hand was changed into `s'` and put into one of the queues.
pub hand_over :
    {F I V : Type 0} (m m' : Scheduler F I V) (held held' : List (Sequence F)) (s s' : Sequence F)
    → IsSound m (s ∷ held)
    → ((w : Sequence F → ℕ) → everyone w m' held' ≡ w s' + everyone w m held)
    → Accounts m'.block_manager s' (λ b. everyone (table_of b) m held)
    → s'.seq_id ≡ s.seq_id
    → IsSound m' held'
unfolding total
hand_over m m' held held' s s' h queues a same = record {
  consistent = a.consistent;
  refs = λ b. omega (arith, a.counted b, queues (table_of b));
  distinct = λ i.
      let k = h.distinct i in
      let q : everyone (is_named i) m' held' ≡ is_named i s + everyone (is_named i) m held =
        rw (sym same) (queues (is_named i)) in
      omega (arith, k, q);
}

-- A waiting request and the pool have changed: the request takes its place in `waiting`.
module _ {F I V : Type 0} (m : Scheduler F I V) (s : Sequence F)
    (there : find_seq s.seq_id m.waiting ≡ some s) (h : IsSound m []) where
  abbrev pub without : Scheduler F I V
  without = with_waiting m (remove_seq s.seq_id m.waiting)

  pub room : IsSound without (s ∷ [])
  room = take_waiting m [] s.seq_id s there h

  abbrev pub the_others : ℕ → ℕ
  the_others b = everyone (table_of b) without []

  pub waiting_on :
      (blocks : BlockManager I) (m' : Scheduler F I V) (t : Sequence F)
      → t.seq_id ≡ s.seq_id
      → Accounts blocks t the_others
      → m'.block_manager ≡ blocks
      → m'.waiting ≡ update_seq t m.waiting
      → m'.running ≡ m.running
      → m'.pending_restores ≡ m.pending_restores
      → IsSound m' []
  unfolding total
  waiting_on blocks m' t same a at_blocks at_waiting at_running at_pending =
      let here = ap (λ j. find_seq j m.waiting) same ∙ there in
      hand_over without m' [] [] s t room
        (λ w.
          rw (at_waiting, at_running, at_pending)
            (omega (
              arith,
              total-update_seq w t m.waiting s here,
              total-remove_seq w s.seq_id m.waiting s there,
            )))
        (subst (λ x. Accounts x t the_others) (sym at_blocks) a) same

  -- Only the pool has changed.
  pub blocks_on :
      (blocks : BlockManager I) → Accounts blocks s the_others → IsSound (with_blocks m blocks) []
  unfolding total
  blocks_on blocks a =
      hand_over without _ [] [] s s room
        (λ w. omega (arith, total-remove_seq w s.seq_id m.waiting s there)) a refl
