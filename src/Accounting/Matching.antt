-- ===== src/Accounting/Matching.antt =====
-- The matching loop of the books (src/ismet/accounting/__init__.py) ends, keeps the lots on one
-- side and moves the position by what the fill bought or sold.
use ismet.Prelude.{
  ℕ, suc, zero, ◌<◌, Bool, true, false, not, ◌&&◌, none, some, List, [], ◌∷◌, Decimal, pos, negsuc,
  ◌+ℤ◌, ◌-ℤ◌, ◌*ℤ◌, ◌<ℤ◌, abs, min_ℤ, ltb_ℤ, eqb_ℤ, length, ltb, All, ◌≡◌, refl, sym, ap, ◌⊎◌, inl,
  inr, arith, Bool-cases, Option-cases, +ℤ_parts, -ℤ_parts,
}
use mathlib.Core.Path.{subst}
use ismet.Models.Orders.{Fill, differ}
use ismet.Accounting.Lots.{
  LotMethod, fifo, lifo, average, Lot, quantity_of, set_last, matched, rest_of, remaining_after,
  Matching, next_lot, set_next, match_once, match_lots,
}

-- A matched lot goes, or nothing is left to match.
rest_cases : (r : Decimal) (l : Lot) → (rest_of r l ≡ []) ⊎ (remaining_after r l ≡ pos 0)
unfolding rest_of remaining_after abs min_ℤ
rest_cases r l = ground (
  arith,
  -ℤ_parts (abs l.quantity) (matched r l),
  +ℤ_parts r (matched r l),
  -ℤ_parts r (matched r l),
)

length-set_last : (l : Lot) (ls : List Lot) → length (set_last l ls []) ≡ length ls
unfolding set_last
length-set_last l [] = refl
length-set_last l (m ∷ ls) = ap suc (length-set_last m ls)

pub match_lots-stop :
    (n : ℕ) (method : LotMethod) (k : Decimal) (f : Fill) (m : Matching)
    → next_lot method m.lots m.remaining ≡ none
    → match_lots n method k f m ≡ m
unfolding match_lots
match_lots-stop zero method k f m h = refl
match_lots-stop (suc n) method k f m h = rw (h, match_lots) refl

pub match_lots-go :
    (n : ℕ) (method : LotMethod) (k : Decimal) (f : Fill) (m : Matching) {l : Lot}
    → next_lot method m.lots m.remaining ≡ some l
    → match_lots (suc n) method k f m ≡ match_lots n method k f (match_once method k f m l)
unfolding match_lots
match_lots-go n method k f m h = rw (h, match_lots) refl

next_lot-zero : (method : LotMethod) (ls : List Lot) → next_lot method ls (pos 0) ≡ none
next_lot-zero method [] = refl
next_lot-zero method (l ∷ ls) = refl

set_next-shorter :
    (method : LotMethod) (ls : List Lot) (r : Decimal) (l : Lot) (n : ℕ)
    → next_lot method ls r ≡ some l
    → length ls < suc n
    → length (set_next method ls []) < n
set_next-shorter method [] r l n h s = ground arith
set_next-shorter fifo (m ∷ ls) r l n h s = omega arith
set_next-shorter average (m ∷ ls) r l n h s = omega arith
set_next-shorter lifo (m ∷ ls) r l n h s = omega (arith, length-set_last m ls)

-- The loop's condition fails.
unfoldable pub IsDone : LotMethod → Matching → Type 0
IsDone method m = next_lot method m.lots m.remaining ≡ none

-- The loop ends by its own condition: with one more iteration than there are lots as fuel,
-- nothing is left to match or no lot opposes it.
pub match_lots-IsDone :
    (n : ℕ) (method : LotMethod) (k : Decimal) (f : Fill) (m : Matching)
    → length m.lots < n
    → IsDone method (match_lots n method k f m)
unfolding IsDone
match_lots-IsDone zero method k f m h = ground arith
match_lots-IsDone (suc n) method k f m h =
    elim (Option-cases (next_lot method m.lots m.remaining)) [
      | inl stop ↦ subst (IsDone method) (sym (match_lots-stop (suc n) method k f m stop)) stop
      | inr (l, go) ↦ subst (IsDone method) (sym (match_lots-go n method k f m go)) (
          let m' = match_once method k f m l in
          elim (rest_cases m.remaining l) [
            | inl gone ↦
                match_lots-IsDone n method k f m' (
                  unfold match_once in
                  rw gone (set_next-shorter method m.lots m.remaining l n go h))
            | inr over ↦
                let stop : next_lot method m'.lots m'.remaining ≡ none =
                  unfold match_once in rw over (next_lot-zero method m'.lots) in
                subst (IsDone method) (sym (match_lots-stop n method k f m' stop)) stop
          ])
    ]

-- A lot on the side `long`.
abbrev pub Faces : Bool → Lot → Type 0
Faces true l = pos 0 <ℤ l.quantity
Faces false l = l.quantity <ℤ pos 0

-- The lot `q`, whose price and opener do not matter.
abbrev pub lot : Lot → Decimal → Lot
lot l q = record l { quantity = q }

-- What is left of a lot that opposes the remaining quantity stays on its side, and what leaves it
-- leaves the remaining quantity too.
abbrev pub IsKept : Bool → Decimal → Lot → Type 0
IsKept long r l =
    All (Faces long) (rest_of r l)
    × (quantity_of (rest_of r l) +ℤ remaining_after r l ≡ l.quantity +ℤ r)

abbrev pub Opposed : Bool → Decimal → Type 0
Opposed long r = (not (eqb_ℤ r (pos 0)) && differ long (ltb_ℤ (pos 0) r)) ≡ true

pub rest_of-IsKept :
    (long : Bool) (r : Decimal) (l : Lot) (q : Decimal)
    → Faces long (lot l q)
    → Opposed long r
    → IsKept long r (lot l q)
unfolding rest_of remaining_after abs min_ℤ quantity_of ◌+ℤ◌ ◌-ℤ◌ ◌*ℤ◌
rest_of-IsKept true (negsuc b) l (pos a) face go = elim (Bool-cases (ltb (suc b) a)) [
  | inl partial ↦ ground arith
  | inr whole ↦ ground arith
]
rest_of-IsKept false (pos b) l (negsuc a) face go = elim (Bool-cases (ltb b (suc a))) [
  | inl partial ↦ ground arith
  | inr whole ↦ ground arith
]
rest_of-IsKept true (pos b) l q face go = ground arith
rest_of-IsKept true (negsuc b) l (negsuc a) face go = ground arith
rest_of-IsKept false (negsuc b) l q face go = ground arith
rest_of-IsKept false (pos b) l (pos a) face go = ground arith
