-- ===== src/Book/Keys.antt =====
-- The sorted keys and the dict of one side (src/ismet/marketdata/book.py), under each update.
use ismet.Prelude.{
  ℕ, suc, zero, Bool, true, false, not, ◌&&◌, ◌||◌, Option, none, some, List, [], ◌∷◌, Decimal,
  eqb_ℤ, eqb_iff, ◌<ℤ◌, ◌≡◌, refl, All, arith, if◌then◌else◌,
}
use ismet.Book.Side.{Levels, size_of, put_level, drop_level, bisect_left, delete_at, insort}

abbrev pub is_some {ℓ} : {A : Type ℓ} → Option A → Bool
is_some none = false
is_some (some a) = true

-- `key in keys`
unfoldable pub mem_key : Decimal → List Decimal → Bool
mem_key j [] = false
mem_key j (k ∷ ks) = eqb_ℤ j k || mem_key j ks

-- Each key is below all that stand after it.
abbrev pub IsSorted : List Decimal → Type 0
IsSorted [] = Unit
IsSorted (k ∷ ks) = All (λ x. k <ℤ x) ks × IsSorted ks

-- No price is listed twice.
abbrev pub AreDistinct : Levels → Type 0
AreDistinct [] = Unit
AreDistinct ((p, z) ∷ ls) = (size_of p ls ≡ none) × AreDistinct ls

pub size_of-put_level :
    (p q z : Decimal) (ls : Levels)
    → size_of q (put_level p z ls) ≡ (if eqb_ℤ p q then some z else size_of q ls)
unfolding size_of put_level
size_of-put_level p q z [] = refl
size_of-put_level p q z ((r, w) ∷ ls) = ground (arith, size_of-put_level p q z ls)

size_of_same : (p q : Decimal) (ls : Levels) → eqb_ℤ p q ≡ true → size_of p ls ≡ size_of q ls
size_of_same p q ls h = rw ((eqb_iff p q).0 h)

pub size_of-drop_level :
    (p q : Decimal) (ls : Levels)
    → AreDistinct ls
    → size_of q (drop_level p ls) ≡ (if eqb_ℤ p q then none else size_of q ls)
unfolding size_of drop_level
size_of-drop_level p q [] d = ground arith
size_of-drop_level p q ((r, w) ∷ ls) d =
    ground (arith, size_of-drop_level p q ls d.1, size_of_same r q ls)

pub AreDistinct-put_level :
    (p z : Decimal) (ls : Levels) → AreDistinct ls → AreDistinct (put_level p z ls)
unfolding size_of put_level
AreDistinct-put_level p z [] d = (refl, tt)
AreDistinct-put_level p z ((r, w) ∷ ls) d =
    ground
      (arith, AreDistinct-put_level p z ls d.1, size_of_same r p ls, size_of-put_level p r z ls)

All-insort :
    (x k : Decimal) (ks : List Decimal)
    → x <ℤ k
    → All (λ y. x <ℤ y) ks
    → All (λ y. x <ℤ y) (insort ks k)
unfolding insort
All-insort x k [] h a = (h, tt)
All-insort x k (y ∷ ks) h a = ground (arith, All-insort x k ks h)

-- A key below another is below all that are above it.
All-trans :
    (x k : Decimal) (ks : List Decimal) → x <ℤ k → All (λ y. k <ℤ y) ks → All (λ y. x <ℤ y) ks
All-trans x k [] h a = tt
All-trans x k (y ∷ ks) h a = (omega arith, All-trans x k ks h a.1)

pub IsSorted-insort :
    (k : Decimal) (ks : List Decimal) → IsSorted ks → mem_key k ks ≡ false → IsSorted (insort ks k)
unfolding insort mem_key
IsSorted-insort k [] s m = (tt, tt)
IsSorted-insort k (x ∷ ks) s m =
    ground (arith, IsSorted-insort k ks s.1, All-insort x k ks, All-trans k x ks)

pub mem_key-insort :
    (j k : Decimal) (ks : List Decimal) → mem_key j (insort ks k) ≡ eqb_ℤ j k || mem_key j ks
unfolding insort mem_key
mem_key-insort j k [] = refl
mem_key-insort j k (x ∷ ks) = ground (arith, mem_key-insort j k ks)

-- A key below all of `ks` is none of them.
mem_key-above : (j : Decimal) (ks : List Decimal) → All (λ y. j <ℤ y) ks → mem_key j ks ≡ false
unfolding mem_key
mem_key-above j [] a = refl
mem_key-above j (x ∷ ks) a = ground (arith, mem_key-above j ks a.1)

mem_key_same : (j k : Decimal) (ks : List Decimal) → eqb_ℤ j k ≡ true → mem_key j ks ≡ mem_key k ks
mem_key_same j k ks h = rw ((eqb_iff j k).0 h)

-- What `del keys[bisect_left(keys, key)]` does to sorted keys that hold `key`.
pub mem_key-delete :
    (j k : Decimal) (ks : List Decimal)
    → IsSorted ks
    → mem_key k ks ≡ true
    → mem_key j (delete_at (bisect_left ks k) ks) ≡ mem_key j ks && not (eqb_ℤ j k)
unfolding delete_at bisect_left mem_key
mem_key-delete j k [] s m = cc
mem_key-delete j k (x ∷ ks) s m = ground (
  arith,
  mem_key-delete j k ks s.1,
  mem_key-above k ks,
  All-trans k x ks,
  mem_key-above x ks s.0,
  mem_key_same j x ks,
)

All-delete :
    (x : Decimal) (i : ℕ) (ks : List Decimal)
    → All (λ y. x <ℤ y) ks
    → All (λ y. x <ℤ y) (delete_at i ks)
unfolding delete_at
All-delete x i [] a = tt
All-delete x zero (y ∷ ks) a = a.1
All-delete x (suc i) (y ∷ ks) a = (a.0, All-delete x i ks a.1)

pub IsSorted-delete : (i : ℕ) (ks : List Decimal) → IsSorted ks → IsSorted (delete_at i ks)
unfolding delete_at
IsSorted-delete i [] s = tt
IsSorted-delete zero (y ∷ ks) s = s.1
IsSorted-delete (suc i) (y ∷ ks) s = (All-delete y i ks s.0, IsSorted-delete i ks s.1)

pub AreDistinct-drop_level :
    (p : Decimal) (ls : Levels) → AreDistinct ls → AreDistinct (drop_level p ls)
unfolding drop_level
AreDistinct-drop_level p [] d = tt
AreDistinct-drop_level p ((r, w) ∷ ls) d =
    ground (arith, AreDistinct-drop_level p ls d.1, size_of-drop_level p r ls d.1)
