-- ===== src/Accounting/Books.antt =====
-- What the rest of a fill and an averaged lot make of the lots
-- (src/ismet/accounting/__init__.py).
use ismet.Prelude.{
  ℕ, Bool, true, false, none, List, [], ◌∷◌, ◌++◌, Decimal, pos, ltb_ℤ, eqb_ℤ, All, All-append, ◌≡◌,
  refl, inl, inr, arith, Bool-cases, +ℤ_parts, +ℤ_zero,
}
use ismet.Models.Orders.{Fill}
use ismet.Accounting.Lots.{LotMethod, Lot, quantity_of, cost_basis, next_lot, opposes}
use ismet.Accounting.Ledger.{collapse_to_average, open_rest}
use ismet.Accounting.Matching.{Faces}

-- The lots are all long or all short.
unfoldable pub IsOneSided : List Lot → Type 0
IsOneSided ls = (long : Bool) × All (Faces long) ls

quantity_of-Faces :
    (long : Bool) (l : Lot) (ls : List Lot) (p : Decimal) (o : ℕ)
    → All (Faces long) (l ∷ ls)
    → Faces long (record { quantity = quantity_of (l ∷ ls); price = p; opened_by = o })
unfolding quantity_of
quantity_of-Faces true l [] p o fs = omega (arith, +ℤ_parts l.quantity (pos 0), fs.0)
quantity_of-Faces true l (m ∷ ls) p o fs =
    omega (
      arith,
      +ℤ_parts l.quantity (quantity_of (m ∷ ls)),
      quantity_of-Faces true m ls p o fs.1,
      fs.0,
    )
quantity_of-Faces false l [] p o fs = omega (arith, +ℤ_parts l.quantity (pos 0), fs.0)
quantity_of-Faces false l (m ∷ ls) p o fs =
    omega (
      arith,
      +ℤ_parts l.quantity (quantity_of (m ∷ ls)),
      quantity_of-Faces false m ls p o fs.1,
      fs.0,
    )

abbrev rest_lot : Decimal → Fill → Lot
rest_lot r f = record { quantity = r; price = f.price; opened_by = f.fill_id }

rest_lot-Faces :
    (r : Decimal) (f : Fill) → eqb_ℤ r (pos 0) ≡ false → (long : Bool) × Faces long (rest_lot r f)
rest_lot-Faces r f h = elim (Bool-cases (ltb_ℤ (pos 0) r)) [
  | inl bought ↦ (true, ground arith)
  | inr sold ↦ (false, ground arith)
]

-- A remaining quantity that the loop did not match against a lot faces as the lot does.
rest_lot-Faces_along :
    (method : LotMethod) (long : Bool) (l : Lot) (ls : List Lot) (r : Decimal) (f : Fill)
    → Faces long l
    → eqb_ℤ r (pos 0) ≡ false
    → next_lot method (l ∷ ls) r ≡ none
    → Faces long (rest_lot r f)
rest_lot-Faces_along method true l ls r f face h done = elim (Bool-cases (opposes l r)) [
  | inl go ↦ ground arith
  | inr along ↦ ground arith
]
rest_lot-Faces_along method false l ls r f face h done = elim (Bool-cases (opposes l r)) [
  | inl go ↦ ground arith
  | inr along ↦ ground arith
]

-- What a loop that is done leaves over opens a lot on the side of the others.
pub open_rest-IsOneSided :
    (method : LotMethod) (f : Fill) (long : Bool) (ls : List Lot) (r : Decimal)
    → All (Faces long) ls
    → next_lot method ls r ≡ none
    → IsOneSided (ls ++ open_rest r f)
unfolding IsOneSided
open_rest-IsOneSided method f long [] r fs done = elim (Bool-cases (eqb_ℤ r (pos 0))) [
  | inl over ↦ rw over (long, tt)
  | inr left ↦ rw left (let (side, face) = rest_lot-Faces r f left in (side, (face, tt)))
]
open_rest-IsOneSided method f long (l ∷ ls) r fs done = elim (Bool-cases (eqb_ℤ r (pos 0))) [
  | inl over ↦ rw over (long, All-append (Faces long) (l ∷ ls) [] fs tt)
  | inr left ↦
      let face = rest_lot-Faces_along method long l ls r f fs.0 left done in
      rw left (long, All-append (Faces long) (l ∷ ls) (rest_lot r f ∷ []) fs (face, tt))
]

pub quantity_of-open_rest : (r : Decimal) (f : Fill) → quantity_of (open_rest r f) ≡ r
unfolding quantity_of
quantity_of-open_rest r f = elim (Bool-cases (eqb_ℤ r (pos 0))) [
  | inl over ↦ ground arith
  | inr some_left ↦ rw some_left (+ℤ_zero r)
]

pub collapse_to_average-kept :
    (ratio : Decimal → Decimal → Decimal) (long : Bool) (ls : List Lot)
    → All (Faces long) ls
    → All (Faces long) (collapse_to_average ratio ls)
      × (quantity_of (collapse_to_average ratio ls) ≡ quantity_of ls)
unfolding collapse_to_average
collapse_to_average-kept ratio long [] fs = (tt, refl)
collapse_to_average-kept ratio long (l ∷ []) fs = (fs, refl)
collapse_to_average-kept ratio long (l ∷ m ∷ ls) fs =
    let q = quantity_of (l ∷ m ∷ ls) in
    elim (Bool-cases (eqb_ℤ q (pos 0))) [
      | inl flat ↦ rw flat (fs, refl)
      | inr open_ ↦ rw open_ (
        (quantity_of-Faces long l (m ∷ ls) (ratio (cost_basis (l ∷ m ∷ ls)) q) l.opened_by fs, tt),
        unfold quantity_of in +ℤ_zero q,
      )
    ]
