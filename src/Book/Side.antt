-- ===== src/Book/Side.antt =====
-- src/ismet/marketdata/book.py: `_Side`, one side of a book. `levels` is the dict from a price to
-- its size, in insertion order; `keys` is the sorted list of keys, negated prices for the bids.
use ismet.Prelude.{
  ℕ, suc, Bool, Option, none, some, List, [], ◌∷◌, Decimal, pos, negate, eqb_ℤ, ltb_ℤ, leb_ℤ, zero,
  length, if◌then◌else◌,
}

abbrev pub Levels : Type 0
Levels = List (Decimal × Decimal)

-- `levels.get(price)`
unfoldable pub size_of : Decimal → Levels → Option Decimal
size_of p [] = none
size_of p ((q, z) ∷ ls) = if eqb_ℤ q p then some z else size_of p ls

-- `levels[price] = size`
unfoldable pub put_level : Decimal → Decimal → Levels → Levels
put_level p z [] = (p, z) ∷ []
put_level p z ((q, w) ∷ ls) = if eqb_ℤ q p then (p, z) ∷ ls else (q, w) ∷ put_level p z ls

-- `del levels[price]`
unfoldable pub drop_level : Decimal → Levels → Levels
drop_level p [] = []
drop_level p ((q, w) ∷ ls) = if eqb_ℤ q p then ls else (q, w) ∷ drop_level p ls

-- `bisect_left(keys, key)`, the number of keys below `key` in a sorted list.
unfoldable pub bisect_left : List Decimal → Decimal → ℕ
bisect_left [] key = 0
bisect_left (k ∷ ks) key = if ltb_ℤ k key then suc (bisect_left ks key) else 0

-- `del keys[i]`
unfoldable pub delete_at : ℕ → List Decimal → List Decimal
delete_at i [] = []
delete_at zero (k ∷ ks) = ks
delete_at (suc i) (k ∷ ks) = k ∷ delete_at i ks

-- `insort(keys, key)`, behind the keys up to `key` in a sorted list.
unfoldable pub insort : List Decimal → Decimal → List Decimal
insort [] key = key ∷ []
insort (k ∷ ks) key = if leb_ℤ k key then k ∷ insort ks key else key ∷ k ∷ ks

pub record BookSide : Type 0 where
  pub descending : Bool
  pub levels : Levels
  pub keys : List Decimal

abbrev pub empty_side : Bool → BookSide
empty_side descending = record { descending = descending; levels = []; keys = [] }

-- `_key`, which is its own inverse.
unfoldable pub key_of : Bool → Decimal → Decimal
key_of descending p = if descending then negate p else p

-- `_Side.set`
unfoldable pub set : BookSide → Decimal → Decimal → BookSide
set s p z =
    let key = key_of s.descending p in
    if eqb_ℤ z (pos 0)
    then elim (size_of p s.levels) [
      | none ↦ s
      | some w ↦ record s {
        levels = drop_level p s.levels;
        keys = delete_at (bisect_left s.keys key) s.keys;
      }
    ]
    else elim (size_of p s.levels) [
      | none ↦ record s { levels = put_level p z s.levels; keys = insort s.keys key }
      | some w ↦ record s { levels = put_level p z s.levels }
    ]

pub record Level : Type 0 where
  pub price : Decimal
  pub size : Decimal

-- `keys[:depth]`
unfoldable pub take_keys : Option ℕ → List Decimal → List Decimal
take_keys none ks = ks
take_keys (some d) [] = []
take_keys (some zero) (k ∷ ks) = []
take_keys (some (suc d)) (k ∷ ks) = k ∷ take_keys (some d) ks

-- `Level(price=p, size=levels[p])` for each key; `none` is a `KeyError`.
unfoldable pub levels_at : Bool → Levels → List Decimal → Option (List Level)
levels_at descending ls [] = some []
levels_at descending ls (k ∷ ks) =
    let p = key_of descending k in
    elim (size_of p ls) [
      | none ↦ none
      | some z ↦ elim (levels_at descending ls ks) [
        | none ↦ none
        | some rest ↦ some (record { price = p; size = z } ∷ rest)
      ]
    ]

-- `_Side.top`
unfoldable pub top : BookSide → Option ℕ → Option (List Level)
top s depth = levels_at s.descending s.levels (take_keys depth s.keys)

-- `__len__`
unfoldable pub side_length : BookSide → ℕ
side_length s = length s.levels
