-- ===== src/Prelude/Counting.antt =====
-- Occurrences in lists of numbers. Multiset facts are stated number by number, as equations that
-- the arithmetic tactics read.
use Prim.Native.Nat.{ℕ, zero, suc, ◌+◌, ◌-◌, ◌<◌}
use mathlib.Core.Path.{◌≡◌, refl, ap}
use mathlib.Core.Bool.{Bool}
use mathlib.Core.List.{List, [], ◌∷◌, ◌++◌, reverse, reverse-cons}
use native.Mathlib.Omega.{arith}
use nano_vllm_qos.Prelude.Tests.{◌==◌, ltb, if◌then◌else◌}
use nano_vllm_qos.Prelude.Lists.{length, take, drop}

unfoldable pub count : ℕ → List ℕ → ℕ
count b [] = 0
count b (x ∷ xs) = (if b == x then 1 else 0) + count b xs

-- `x in xs`
abbrev pub elem : ℕ → List ℕ → Bool
elem b xs = ltb 0 (count b xs)

-- `list.remove(x)`, `set.remove(x)`: the list without the first `x`.
unfoldable pub erase : ℕ → List ℕ → List ℕ
erase b [] = []
erase b (x ∷ xs) = if b == x then xs else x ∷ erase b xs

pub count-append : (b : ℕ) (xs ys : List ℕ) → count b (xs ++ ys) ≡ count b xs + count b ys
unfolding count
count-append b [] ys = omega arith
count-append b (x ∷ xs) ys = omega (arith, count-append b xs ys)

pub count-erase :
    (b c : ℕ) (xs : List ℕ) → count b (erase c xs) ≡ count b xs - (if b == c then 1 else 0)
unfolding count erase
count-erase b c [] = ground arith
count-erase b c (x ∷ xs) = ground (arith, count-erase b c xs)

pub length-erase : (c : ℕ) (xs : List ℕ) → 0 < count c xs → length (erase c xs) + 1 ≡ length xs
unfolding count erase
length-erase c [] h = absurd (omega arith)
length-erase c (x ∷ xs) h = ground (arith, length-erase c xs)

pub count-take-drop :
    (b n : ℕ) (xs : List ℕ) → count b xs ≡ count b (take n xs) + count b (drop n xs)
unfolding count
count-take-drop b zero xs = omega arith
count-take-drop b (suc n) [] = omega arith
count-take-drop b (suc n) (x ∷ xs) = omega (arith, count-take-drop b n xs)

pub count-reverse-cons :
    (b x : ℕ) (xs ys : List ℕ) → count b (xs ++ x ∷ ys) ≡ count b (x ∷ xs ++ ys)
unfolding count
count-reverse-cons b x xs ys = omega (arith, count-append b xs (x ∷ ys), count-append b xs ys)

pub count-reverse : (b : ℕ) (xs : List ℕ) → count b (reverse xs) ≡ count b xs
unfolding count
count-reverse b [] = refl
count-reverse b (x ∷ xs) = omega (
  arith,
  ap (count b) (reverse-cons x xs),
  count-append b (reverse xs) (x ∷ []),
  count-reverse b xs,
)
