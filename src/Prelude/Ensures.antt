-- ===== src/Prelude/Ensures.antt =====
-- What a call that may raise ensures where it returns, with a rule for each way to build a call.
use nano_vllm_qos.Prelude.{
  ◌≡◌, refl, Bool, true, false, Option, none, some, Result, ok, err, Error, ◌>>=◌, or_raise,
  if◌then◌else◌, subst, arith,
}

pub record Ensures {ℓ} {A : Type ℓ} (P : A → Type 0) (r : Result A) : Type ℓ where
  pub at : (a : A) → r ≡ ok a → P a

module _ {ℓ} {A : Type ℓ} {P : A → Type 0} where
  pub Ensures-pure : {a : A} → P a → Ensures P (ok a)
  Ensures-pure {a} h = record { at = λ b e. let same : a ≡ b = ground arith in subst P same h }

  pub Ensures-raise : {e : Error} → Ensures P (err e)
  Ensures-raise = record { at = λ b e. absurd (ground arith) }

  pub Ensures-if :
      (b : Bool) (x y : Result A)
      → (b ≡ true → Ensures P x)
      → (b ≡ false → Ensures P y)
      → Ensures P (if b then x else y)
  Ensures-if true x y h k = h refl
  Ensures-if false x y h k = k refl

module _ {ℓ κ} {A : Type ℓ} {B : Type κ} {P : B → Type 0} where
  -- The rest of the block may use what the call returned.
  pub Ensures-bind :
      (r : Result A) (f : A → Result B)
      → ((a : A) → r ≡ ok a → Ensures P (f a))
      → Ensures P (r >>= f)
  Ensures-bind (ok a) f h = h a refl
  Ensures-bind (err e) f h = Ensures-raise

  pub Ensures-then :
      (Q : A → Type 0) (r : Result A) (f : A → Result B)
      → Ensures Q r
      → ((a : A) → Q a → Ensures P (f a))
      → Ensures P (r >>= f)
  Ensures-then Q (ok a) f h k = k a (h.at a refl)
  Ensures-then Q (err e) f h k = Ensures-raise

pub or_raise-some {ℓ} :
    {A : Type ℓ} (o : Option A) (e : Error) {a : A} → or_raise o e ≡ ok a → o ≡ some a
or_raise-some none e h = absurd (ground arith)
or_raise-some (some b) e h = ground arith

pub Ensures-pure_if {ℓ} :
    {A : Type ℓ} {P : A → Type 0} (b : Bool) (x y : A)
    → P x
    → P y
    → Ensures P (ok (if b then x else y))
Ensures-pure_if true x y h k = Ensures-pure h
Ensures-pure_if false x y h k = Ensures-pure k

pub Ensures-map {ℓ} :
    {A : Type ℓ} {P Q : A → Type 0} (r : Result A)
    → Ensures P r
    → ((a : A) → P a → Q a)
    → Ensures Q r
Ensures-map r h f = record { at = λ a e. f a (h.at a e) }

pub Ensures-and {ℓ} :
    {A : Type ℓ} {P Q : A → Type 0} (r : Result A)
    → Ensures P r
    → Ensures Q r
    → Ensures (λ a. P a × Q a) r
Ensures-and r h k = record { at = λ a e. (h.at a e, k.at a e) }

pub if_both {ℓ} :
    {A : Type ℓ} (Q : A → Type 0) (b : Bool) (x y : A) → Q x → Q y → Q (if b then x else y)
if_both Q true x y h k = h
if_both Q false x y h k = k
