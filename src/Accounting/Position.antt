-- ===== src/Accounting/Position.antt =====
-- The matching loop keeps the lots on one side and the position that they and the fill make
-- (src/ismet/accounting/__init__.py).
use ismet.Prelude.{
  ℕ, suc, zero, Bool, true, false, not, ◌&&◌, some, List, [], ◌∷◌, ◌++◌, Decimal, pos, ◌+ℤ◌, eqb_ℤ,
  All, All-append, ◌≡◌, sym, ◌∙◌, ap, inl, inr, pos_part, neg_part, arith, Bool-cases, Option-cases,
  +ℤ_parts, +ℤ_assoc, +ℤ_comm, +ℤ_zero, eq_of_parts,
}
use mathlib.Core.Path.{subst}
use ismet.Models.Orders.{Fill}
use ismet.Accounting.Lots.{
  LotMethod, fifo, lifo, average, Lot, quantity_of, opposes, last_lot, set_last, lot_at, set_lot,
  rest_of, remaining_after, Matching, next_lot, set_next, match_once, match_lots,
}
use ismet.Accounting.Matching.{
  Faces, Opposed, IsKept, rest_of-IsKept, match_lots-stop, match_lots-go,
}

pub quantity_of-append :
    (ls ms : List Lot) → quantity_of (ls ++ ms) ≡ quantity_of ls +ℤ quantity_of ms
unfolding quantity_of
quantity_of-append [] ms = sym (+ℤ_comm (pos 0) (quantity_of ms) ∙ +ℤ_zero (quantity_of ms))
quantity_of-append (l ∷ ls) ms =
    ap (λ q. l.quantity +ℤ q) (quantity_of-append ls ms)
    ∙ sym (+ℤ_assoc l.quantity (quantity_of ls) (quantity_of ms))

-- Replacing the last lot takes its quantity away and adds the new lots'.
quantity_of-set_last :
    (l : Lot) (ls new : List Lot)
    → quantity_of (set_last l ls new) +ℤ (last_lot l ls).quantity
      ≡ quantity_of (l ∷ ls) +ℤ quantity_of new
unfolding set_last last_lot quantity_of
quantity_of-set_last l [] new =
    +ℤ_comm (quantity_of new) l.quantity ∙ ap (λ q. q +ℤ quantity_of new) (sym (+ℤ_zero l.quantity))
quantity_of-set_last l (m ∷ ls) new =
    +ℤ_assoc l.quantity (quantity_of (set_last m ls new)) (last_lot m ls).quantity
    ∙ ap (λ q. l.quantity +ℤ q) (quantity_of-set_last m ls new)
    ∙ sym (+ℤ_assoc l.quantity (quantity_of (m ∷ ls)) (quantity_of new))

last_lot-All : (P : Lot → Type 0) (l : Lot) (ls : List Lot) → P l → All P ls → P (last_lot l ls)
unfolding last_lot
last_lot-All P l [] p ps = p
last_lot-All P l (m ∷ ls) p ps = last_lot-All P m ls ps.0 ps.1

set_last-All :
    (P : Lot → Type 0) (l : Lot) (ls new : List Lot)
    → All P (l ∷ ls)
    → All P new
    → All P (set_last l ls new)
unfolding set_last
set_last-All P l [] new ps n = n
set_last-All P l (m ∷ ls) new ps n = (ps.0, set_last-All P m ls new ps.1 n)

set_next-All :
    (P : Lot → Type 0) (method : LotMethod) (ls new : List Lot)
    → All P ls
    → All P new
    → All P (set_next method ls new)
set_next-All P method [] new ps n = n
set_next-All P lifo (l ∷ ls) new ps n = set_last-All P l ls new ps n
set_next-All P fifo (l ∷ ls) new ps n = All-append P new ls n ps.1
set_next-All P average (l ∷ ls) new ps n = All-append P new ls n ps.1

-- A lot at the front that is replaced by the lots `new`.
quantity_of-front :
    (m : Lot) (ls new : List Lot)
    → quantity_of (new ++ ls) +ℤ m.quantity ≡ quantity_of (m ∷ ls) +ℤ quantity_of new
unfolding quantity_of
quantity_of-front m ls new =
    ap (λ q. q +ℤ m.quantity) (quantity_of-append new ls)
    ∙ +ℤ_comm (quantity_of new +ℤ quantity_of ls) m.quantity
    ∙ ap (λ q. m.quantity +ℤ q) (+ℤ_comm (quantity_of new) (quantity_of ls))
    ∙ sym (+ℤ_assoc m.quantity (quantity_of ls) (quantity_of new))

quantity_of-set_lot :
    (method : LotMethod) (m : Lot) (ls new : List Lot)
    → quantity_of (set_lot method m ls new) +ℤ (lot_at method m ls).quantity
      ≡ quantity_of (m ∷ ls) +ℤ quantity_of new
quantity_of-set_lot lifo m ls new = quantity_of-set_last m ls new
quantity_of-set_lot fifo m ls new = quantity_of-front m ls new
quantity_of-set_lot average m ls new = quantity_of-front m ls new

lot_at-All :
    (P : Lot → Type 0) (method : LotMethod) (l : Lot) (ls : List Lot)
    → All P (l ∷ ls)
    → P (lot_at method l ls)
lot_at-All P lifo l ls ps = last_lot-All P l ls ps.0 ps.1
lot_at-All P fifo l ls ps = ps.0
lot_at-All P average l ls ps = ps.0

-- The loop goes on only with a first lot that opposes, and at the lot that the method names.
next_lot-some :
    (method : LotMethod) (m : Lot) (ls : List Lot) (r : Decimal) {l : Lot}
    → next_lot method (m ∷ ls) r ≡ some l
    → ((not (eqb_ℤ r (pos 0)) && opposes m r) ≡ true) × (lot_at method m ls ≡ l)
next_lot-some method m ls r e = elim (Bool-cases (not (eqb_ℤ r (pos 0)) && opposes m r)) [
  | inl go ↦ (go, ground arith)
  | inr stop ↦ ground arith
]

Opposed-of_first :
    (long : Bool) (m : Lot) (r : Decimal)
    → Faces long m
    → (not (eqb_ℤ r (pos 0)) && opposes m r) ≡ true
    → Opposed long r
Opposed-of_first true m r face go = ground arith
Opposed-of_first false m r face go = ground arith

-- The state of the loop that began with the lots on the side `long` and the position `q`, the
-- remaining quantity included.
pub record IsBalanced (long : Bool) (q : Decimal) (m : Matching) : Type 0 where
  pub faces : All (Faces long) m.lots
  pub position : quantity_of m.lots +ℤ m.remaining ≡ q

balance : (a b c d e r : Decimal) → a +ℤ b ≡ c +ℤ d → d +ℤ e ≡ b +ℤ r → a +ℤ e ≡ c +ℤ r
balance a b c d e r h k = eq_of_parts (a +ℤ e) (c +ℤ r) (
    omega (
      arith,
      ap pos_part h,
      ap neg_part h,
      ap pos_part k,
      ap neg_part k,
      +ℤ_parts a b,
      +ℤ_parts c d,
      +ℤ_parts d e,
      +ℤ_parts b r,
      +ℤ_parts a e,
      +ℤ_parts c r,
    ))

step_kept :
    (long : Bool) (method : LotMethod) (ls : List Lot) (r : Decimal) (l : Lot)
    → All (Faces long) ls
    → next_lot method ls r ≡ some l
    → let ls' = set_next method ls (rest_of r l) in
      All (Faces long) ls' × (quantity_of ls' +ℤ remaining_after r l ≡ quantity_of ls +ℤ r)
step_kept long method [] r l fs go = ground arith
step_kept long method (first ∷ ls) r l fs go =
    let (opposed, at) = next_lot-some method first ls r go in
    let face : Faces long l = subst (Faces long) at (lot_at-All (Faces long) method first ls fs) in
    let kept : IsKept long r l =
      rest_of-IsKept long r l l.quantity face (Opposed-of_first long first r fs.0 opposed) in
    let new = rest_of r l in
    (
      set_next-All (Faces long) method (first ∷ ls) new fs kept.0,
      balance (quantity_of (set_lot method first ls new)) l.quantity (quantity_of (first ∷ ls))
          (quantity_of new) (remaining_after r l) r
          (subst
            (λ (x : Lot).
              quantity_of (set_lot method first ls new) +ℤ x.quantity
              ≡ quantity_of (first ∷ ls) +ℤ quantity_of new)
            at (quantity_of-set_lot method first ls new))
          kept.1,
    )

pub match_lots-IsBalanced :
    (n : ℕ) (long : Bool) (q : Decimal) (method : LotMethod) (k : Decimal) (f : Fill) (m : Matching)
    → IsBalanced long q m
    → IsBalanced long q (match_lots n method k f m)
match_lots-IsBalanced zero long q method k f m i = unfold match_lots in i
match_lots-IsBalanced (suc n) long q method k f m i =
    elim (Option-cases (next_lot method m.lots m.remaining)) [
      | inl stop ↦ subst (IsBalanced long q) (sym (match_lots-stop (suc n) method k f m stop)) i
      | inr (l, go) ↦
          let (faces', position') = step_kept long method m.lots m.remaining l i.faces go in
          let i' : IsBalanced long q (match_once method k f m l) =
            unfold match_once in record { faces = faces'; position = position' ∙ i.position } in
          subst (IsBalanced long q) (sym (match_lots-go n method k f m go))
            (match_lots-IsBalanced n long q method k f (match_once method k f m l) i')
    ]
