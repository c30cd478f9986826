-- ===== src/Models/Decimals/Multiples.antt =====
-- `round_to_step` (src/ismet/models/decimals.py) chooses between multiples of the step.
use ismet.Prelude.{
  *ℤ_parts, +ℤ_parts, Bool, Decimal, abs, arith, eq_of_parts, false, if◌then◌else◌, ltb_ℤ, neg_part,
  negate, negate_parts, negsuc, pos, pos_part, suc, true, zero, ℕ, ◌*ℤ◌, ◌*◌, ◌+ℤ◌, ◌+◌, ◌≡◌,
}
use ismet.Models.Decimals.{
  Rounding, floor, ceiling, toward_zero, away_from_zero, half_even, quotient, remainder, is_even,
  choose,
}

-- A whole number of steps.
abbrev pub IsMultipleOf : Decimal → Decimal → Type 0
IsMultipleOf step r = (q : Decimal) × (r ≡ q *ℤ step)

-- One step up from a multiple, and one down.
abbrev succ_ℤ : Decimal → Decimal
succ_ℤ (pos n) = pos (suc n)
succ_ℤ (negsuc zero) = pos 0
succ_ℤ (negsuc (suc n)) = negsuc n

abbrev pred_ℤ : Decimal → Decimal
pred_ℤ (pos zero) = negsuc 0
pred_ℤ (pos (suc n)) = pos n
pred_ℤ (negsuc n) = negsuc (suc n)

step_up : (q : Decimal) (k : ℕ) → q *ℤ pos k +ℤ pos k ≡ succ_ℤ q *ℤ pos k
step_up q k =
    let a = *ℤ_parts q (pos k) in
    let b = *ℤ_parts (succ_ℤ q) (pos k) in
    let c = +ℤ_parts (q *ℤ pos k) (pos k) in
    eq_of_parts (q *ℤ pos k +ℤ pos k) (succ_ℤ q *ℤ pos k) (omega (arith, a, b, c, succ_parts q k))
  where
    succ_parts :
        (q : Decimal) (k : ℕ)
        → pos_part (succ_ℤ q) * k + neg_part q * k ≡ pos_part q * k + k + neg_part (succ_ℤ q) * k
    succ_parts (pos n) k = omega arith
    succ_parts (negsuc zero) k = omega arith
    succ_parts (negsuc (suc n)) k = omega arith

step_down : (q : Decimal) (k : ℕ) → q *ℤ pos k +ℤ negate (pos k) ≡ pred_ℤ q *ℤ pos k
step_down q k =
    let a = *ℤ_parts q (pos k) in
    let b = *ℤ_parts (pred_ℤ q) (pos k) in
    let c = +ℤ_parts (q *ℤ pos k) (negate (pos k)) in
    let d = negate_parts (pos k) in
    eq_of_parts (q *ℤ pos k +ℤ negate (pos k)) (pred_ℤ q *ℤ pos k)
      (omega (arith, a, b, c, d, pred_parts q k))
  where
    pred_parts :
        (q : Decimal) (k : ℕ)
        → pos_part (pred_ℤ q) * k + k + neg_part q * k ≡ pos_part q * k + neg_part (pred_ℤ q) * k
    pred_parts (pos zero) k = omega arith
    pred_parts (pos (suc n)) k = omega arith
    pred_parts (negsuc n) k = omega arith

pub next-IsMultipleOf :
    (t : Bool) (q : Decimal) (k : ℕ)
    → IsMultipleOf (pos k) (q *ℤ pos k +ℤ (if t then pos k else negate (pos k)))
next-IsMultipleOf true q k = (succ_ℤ q, step_up q k)
next-IsMultipleOf false q k = (pred_ℤ q, step_down q k)

if_lem : (P : Decimal → Type 0) (t : Bool) (a b : Decimal) → P a → P b → P (if t then a else b)
if_lem P true a b h k = h
if_lem P false a b h k = k

-- What holds of both multiples holds of the one that is chosen.
pub choose_lem :
    (P : Decimal → Type 0) (m : Rounding) (v step toward away : Decimal)
    → P toward
    → P away
    → P (choose m v step toward away)
choose_lem P floor v step toward away t a = if_lem P (ltb_ℤ (pos 0) v) toward away t a
choose_lem P ceiling v step toward away t a = if_lem P (ltb_ℤ (pos 0) v) away toward a t
choose_lem P toward_zero v step toward away t a = t
choose_lem P away_from_zero v step toward away t a = a
choose_lem P half_even v step toward away t a =
    let twice_ = abs (remainder v step) *ℤ pos 2 in
    if_lem P (ltb_ℤ twice_ step) toward _ t
      (if_lem P (ltb_ℤ step twice_) away _ a (if_lem P (is_even (quotient v step)) toward away t a))
