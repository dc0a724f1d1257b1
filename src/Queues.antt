-- ===== src/Queues.antt =====
-- The queues of the scheduler, whose items are shared mutable objects: a queue is a list of requests,
-- and a reference to a request is its number. `deque.remove` compares by identity, which is the
-- number here. A sum over a queue measures what its requests have together.
use nano_vllm_qos.Prelude.{
  ℕ, suc, ◌+◌, ◌≡◌, refl, Bool, true, false, Option, none, some, List, [], ◌∷◌, ◌++◌, arith,
  if◌then◌else◌, ◌==◌, length,
}
use nano_vllm_qos.Sequence.{Sequence}

module _ {F : Type 0} where
  unfoldable pub find_seq : ℕ → List (Sequence F) → Option (Sequence F)
  find_seq i [] = none
  find_seq i (s ∷ ss) = if s.seq_id == i then some s else find_seq i ss

  unfoldable pub remove_seq : ℕ → List (Sequence F) → List (Sequence F)
  remove_seq i [] = []
  remove_seq i (s ∷ ss) = if s.seq_id == i then ss else s ∷ remove_seq i ss

  -- The object behind the reference has changed.
  unfoldable pub update_seq : Sequence F → List (Sequence F) → List (Sequence F)
  update_seq t [] = []
  update_seq t (s ∷ ss) = if s.seq_id == t.seq_id then t ∷ ss else s ∷ update_seq t ss

  unfoldable pub keep_seqs : (Sequence F → Bool) → List (Sequence F) → List (Sequence F)
  keep_seqs test [] = []
  keep_seqs test (s ∷ ss) = if test s then s ∷ keep_seqs test ss else keep_seqs test ss

  abbrev pub has_table : Sequence F → Bool
  has_table s = elim s.block_table [ [] ↦ false | b ∷ bs ↦ true ]

  abbrev pub no_seqs : List (Sequence F) → Bool
  no_seqs [] = true
  no_seqs (s ∷ ss) = false

  unfoldable pub total : (Sequence F → ℕ) → List (Sequence F) → ℕ
  total w [] = 0
  total w (s ∷ ss) = w s + total w ss

module _ {F : Type 0} (w : Sequence F → ℕ) where
  pub total-append : (xs ys : List (Sequence F)) → total w (xs ++ ys) ≡ total w xs + total w ys
  unfolding total
  total-append [] ys = omega arith
  total-append (x ∷ xs) ys = omega (arith, total-append xs ys)

  pub total-remove_seq :
      (i : ℕ) (xs : List (Sequence F)) (s : Sequence F)
      → find_seq i xs ≡ some s
      → total w xs ≡ w s + total w (remove_seq i xs)
  unfolding total find_seq remove_seq
  total-remove_seq i [] s e = absurd (ground arith)
  total-remove_seq i (x ∷ xs) s e = ground (arith, total-remove_seq i xs s)

  pub total-update_seq :
      (t : Sequence F) (xs : List (Sequence F)) (s : Sequence F)
      → find_seq t.seq_id xs ≡ some s
      → total w (update_seq t xs) + w s ≡ total w xs + w t
  unfolding total find_seq update_seq
  total-update_seq t [] s e = absurd (ground arith)
  total-update_seq t (x ∷ xs) s e = ground (arith, total-update_seq t xs s)

module _ {F : Type 0} where
  pub find_seq-id :
      (i : ℕ) (xs : List (Sequence F)) (s : Sequence F) → find_seq i xs ≡ some s → s.seq_id ≡ i
  unfolding find_seq
  find_seq-id i [] s e = absurd (ground arith)
  find_seq-id i (x ∷ xs) s e = ground (arith, find_seq-id i xs s)

  pub length-remove_seq :
      (i : ℕ) (xs : List (Sequence F)) (s : Sequence F)
      → find_seq i xs ≡ some s
      → length xs ≡ suc (length (remove_seq i xs))
  unfolding find_seq remove_seq
  length-remove_seq i [] s e = absurd (ground arith)
  length-remove_seq i (x ∷ xs) s e = ground (arith, length-remove_seq i xs s)

  pub length-update_seq :
      (t : Sequence F) (xs : List (Sequence F)) → length (update_seq t xs) ≡ length xs
  unfolding update_seq
  length-update_seq t [] = refl
  length-update_seq t (x ∷ xs) = ground (arith, length-update_seq t xs)
