-- ===== src/Remote/Inflight.antt =====
-- nanovllm/engine/remote_restore.py: the writes in flight in `pages_requiring_write`.
use Prim.Native.String.{String}
use nano_vllm_qos.Prelude.{
  ℕ, suc, ◌≡◌, refl, Bool, true, false, none, some, List, [], ◌∷◌, arith, if◌then◌else◌, ltb,
  Bool-cases, Option-cases, inl, inr, ap, sym, ◌∙◌, subst,
}
use nano_vllm_qos.Remote.{RemotePageDescriptor}
use nano_vllm_qos.Remote.Pending.{Future}
use nano_vllm_qos.Remote.Writeback.{is_bad, find, forget, settled_for, require}

module _ (same : String → String → Bool) (same_sound : (a b : String) → same a b ≡ true → a ≡ b)
    (state : ℕ → Future (Unit {0})) where
  find-cons :
      (k key : String) (f : ℕ) (d : List (String × ℕ))
      → find same key ((k, f) ∷ d) ≡ (if same k key then some f else find same key d)
  unfolding find
  find-cons k key f d = refl

  find-nil : (key : String) → find same key [] ≡ none
  unfolding find
  find-nil key = refl

  forget_self : (key : String) (d : List (String × ℕ)) → find same key (forget same key d) ≡ none
  unfolding forget
  forget_self key [] = find-nil key
  forget_self key ((k, f) ∷ d) = elim (Bool-cases (same k key)) [
    | inl e ↦ rw e (forget_self key d)
    | inr e ↦ rw e (find-cons k key f (forget same key d) ∙ rw e (forget_self key d))
  ]

  forget_other :
      (key other : String) (d : List (String × ℕ))
      → same key other ≡ false
      → find same other (forget same key d) ≡ find same other d
  unfolding forget
  forget_other key other [] h = refl
  forget_other key other ((k, f) ∷ d) h = elim (Bool-cases (same k key)) [
    | inl e ↦
        let past : same k other ≡ false =
          subst (λ x. same x other ≡ false) (sym (same_sound k key e)) h in
        rw e (forget_other key other d h ∙ sym (find-cons k other f d ∙ rw past refl))
    | inr e ↦ rw e (
        find-cons k other f (forget same key d)
        ∙ ap (λ o. if same k other then some f else o) (forget_other key other d h)
        ∙ sym (find-cons k other f d))
  ]

  -- A write in flight that has not failed stays.
  settled-find :
      (key other : String) (d : List (String × ℕ)) (f : ℕ)
      → is_bad (state f) ≡ false
      → find same other d ≡ some f
      → find same other (settled_for same state key d) ≡ some f
  settled-find key other d f good h = elim (Option-cases (find same key d)) [
    | inl e ↦ rw (settled_for, e) h
    | inr (g, e) ↦ elim (Bool-cases (is_bad (state g))) [
      | inr fine ↦ rw (settled_for, e, fine) h
      | inl bad ↦ elim (Bool-cases (same key other)) [
        | inr differs ↦ rw (settled_for, e, bad) (forget_other key other d differs ∙ h)
        | inl at ↦
            let equal : some g ≡ some f =
              sym (subst (λ x. find same x d ≡ some g) (same_sound key other at) e) ∙ h in
            let number : g ≡ f = ground arith in
            let bad' : is_bad (state f) ≡ true = subst (λ x. is_bad (state x) ≡ true) number bad in
            absurd (ground (arith, bad', good))
      ]
    ]
  ]

  pub require-find :
      (n i : ℕ) (ps : List RemotePageDescriptor) (d : List (String × ℕ)) (other : String) (f : ℕ)
      → is_bad (state f) ≡ false
      → find same other d ≡ some f
      → find same other (require same state n i ps d).0 ≡ some f
  unfolding require
  require-find n i [] d other f good h = h
  require-find n i (p ∷ ps) d other f good h = elim (Bool-cases (ltb i n)) [
    | inl e ↦ rw (e, require) (require-find n (suc i) ps d other f good h)
    | inr e ↦
        let d' = settled_for same state p.object_key d in
        let later =
          require-find n (suc i) ps d' other f good (settled-find p.object_key other d f good h) in
        elim (Option-cases (find same p.object_key d')) [
          | inl missing ↦ rw (e, missing, require) later
          | inr (g, held) ↦ rw (e, held, require) later
        ]
  ]

  -- What is still in flight for a page, once the bad write is forgotten, has not failed.
  pub settled_good :
      (key : String) (d : List (String × ℕ)) (g : ℕ)
      → find same key (settled_for same state key d) ≡ some g
      → is_bad (state g) ≡ false
  settled_good key d g h = elim (Option-cases (find same key d)) [
    | inl e ↦
        let h' : find same key d ≡ some g = rw (settled_for, e) at h in
        absurd (ground (arith, h', e))
    | inr (f, e) ↦ elim (Bool-cases (is_bad (state f))) [
      | inr fine ↦
          let h' : find same key d ≡ some g = rw (settled_for, e, fine) at h in
          let number : f ≡ g = ground (arith, h', e) in
          subst (λ x. is_bad (state x) ≡ false) number fine
      | inl bad ↦
          let h' : find same key (forget same key d) ≡ some g = rw (settled_for, e, bad) at h in
          absurd (ground (arith, h', forget_self key d))
    ]
  ]
