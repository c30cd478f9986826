-- ===== src/Book/Taken.antt =====
-- `keys[:depth]` (src/ismet/marketdata/book.py): the keys that are taken, and those that are cut off.

use ismet.Prelude.{
  eqb_ℤ, ◌≤◌, ◌⊎◌, ap, length, Bool-cases, ℕ, suc, zero, true, Option, none, some, List, [], ◌∷◌,
  Decimal, ◌<ℤ◌, ◌≡◌, refl, inl, inr, All, arith,
}
use ismet.Book.Side.{take_keys}
use ismet.Book.Keys.{mem_key, IsSorted}

-- No more rows than were asked for.
abbrev pub IsWithin : Option ℕ → ℕ → Type 0
IsWithin none n = Unit
IsWithin (some d) n = n ≤ d

pub All-take_keys :
    (P : Decimal → Type 0) (depth : Option ℕ) (ks : List Decimal)
    → All P ks
    → All P (take_keys depth ks)
unfolding take_keys
All-take_keys P none ks a = a
All-take_keys P (some d) [] a = tt
All-take_keys P (some zero) (k ∷ ks) a = tt
All-take_keys P (some (suc d)) (k ∷ ks) a = (a.0, All-take_keys P (some d) ks a.1)

pub IsSorted-take_keys :
    (depth : Option ℕ) (ks : List Decimal) → IsSorted ks → IsSorted (take_keys depth ks)
unfolding take_keys
IsSorted-take_keys none ks s = s
IsSorted-take_keys (some d) [] s = tt
IsSorted-take_keys (some zero) (k ∷ ks) s = tt
IsSorted-take_keys (some (suc d)) (k ∷ ks) s =
    (All-take_keys (λ x. k <ℤ x) (some d) ks s.0, IsSorted-take_keys (some d) ks s.1)

-- A key of the list is above what is below all of it.
mem_key-below :
    (x k : Decimal) (ks : List Decimal) → All (λ j. x <ℤ j) ks → mem_key k ks ≡ true → x <ℤ k
unfolding mem_key
mem_key-below x k [] a m = absurd (ground (arith, m))
mem_key-below x k (y ∷ ks) a m = elim (Bool-cases (eqb_ℤ k y)) [
  | inl here ↦ ground (arith, here, a.0)
  | inr not_here ↦ mem_key-below x k ks a.1 (ground (arith, m, not_here))
]

pub IsWithin-take_keys :
    (depth : Option ℕ) (ks : List Decimal) → IsWithin depth (length (take_keys depth ks))
unfolding take_keys
IsWithin-take_keys none ks = tt
IsWithin-take_keys (some d) [] = omega arith
IsWithin-take_keys (some zero) (k ∷ ks) = omega arith
IsWithin-take_keys (some (suc d)) (k ∷ ks) = omega (arith, IsWithin-take_keys (some d) ks)

-- A key that is taken, or cut off behind as many keys as were asked for, all below it.
abbrev pub IsCut : Option ℕ → List Decimal → Decimal → Type 0
IsCut depth taken k = (depth ≡ some (length taken)) × All (λ j. j <ℤ k) taken

pub take_keys-IsCut :
    (depth : Option ℕ) (ks : List Decimal) (k : Decimal)
    → IsSorted ks
    → mem_key k ks ≡ true
    → (mem_key k (take_keys depth ks) ≡ true) ⊎ IsCut depth (take_keys depth ks) k
unfolding take_keys mem_key
take_keys-IsCut none ks k so m = inl m
take_keys-IsCut (some d) [] k so m = inl m
take_keys-IsCut (some zero) (x ∷ ks) k so m = inr (refl, tt)
take_keys-IsCut (some (suc d)) (x ∷ ks) k so m = elim (Bool-cases (eqb_ℤ k x)) [
  | inl here ↦ inl (ground (arith, here))
  | inr not_here ↦
      let later : mem_key k ks ≡ true = ground (arith, m, not_here) in
      elim (take_keys-IsCut (some d) ks k so.1 later) [
        | inl taken ↦ inl (ground (arith, taken))
        | inr (full, below) ↦ inr (ap count_one full, (mem_key-below x k ks so.0 later, below))
      ]
]
  where
    count_one : Option ℕ → Option ℕ
    count_one none = none
    count_one (some n) = some (suc n)
