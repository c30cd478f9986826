-- ===== src/Models/Decimals.antt =====
-- src/ismet/models/decimals.py: rounding to a step. A value and a step count in one unit, so
-- `quantize(step)`, which only changes how a number is written, and the sign of zero do nothing here.
use ismet.Prelude.{
  ℕ, suc, ◌+◌, ◌*◌, ◌/◌, ◌%◌, ◌<◌, Bool, true, false, Option, none, some, Decimal, ℤ, pos, negsuc,
  ◌+ℤ◌, ◌-ℤ◌, ◌*ℤ◌, ◌≤ℤ◌, ◌<ℤ◌, negate, abs, ltb_ℤ, leb_ℤ, eqb_ℤ, ◌==◌, pos_part, neg_part,
  if◌then◌else◌,
}
pub mod Rounded
pub mod Multiples
pub mod Chosen

pub data Rounding : Type 0 where
  floor ceiling toward_zero away_from_zero half_even : Rounding

-- `value // step` of decimals, which truncates toward zero, at a positive step.
unfoldable pub quotient : Decimal → Decimal → Decimal
quotient (pos n) step = pos (n / pos_part step)
quotient (negsuc n) step = negate (pos (suc n / pos_part step))

unfoldable pub remainder : Decimal → Decimal → Decimal
remainder value step = value -ℤ quotient value step *ℤ step

-- `is_multiple`; `none` is its `ValueError`.
unfoldable pub is_multiple : Decimal → Decimal → Option Bool
is_multiple value step =
    if leb_ℤ step (pos 0) then none else some (eqb_ℤ (remainder value step) (pos 0))

abbrev pub is_even : Decimal → Bool
is_even q = (pos_part q + neg_part q) % 2 == 0

-- The choice between the multiple toward zero and the one away from it.
abbrev pub choose : Rounding → Decimal → Decimal → Decimal → Decimal → Decimal
choose toward_zero value step toward away = toward
choose away_from_zero value step toward away = away
choose floor value step toward away = if ltb_ℤ (pos 0) value then toward else away
choose ceiling value step toward away = if ltb_ℤ (pos 0) value then away else toward
choose half_even value step toward away =
    let twice = abs (remainder value step) *ℤ pos 2 in
    if ltb_ℤ twice step
    then toward
    else if ltb_ℤ step twice
    then away
    else if is_even (quotient value step)
    then toward
    else away

-- `round_to_step`; `none` is its `ValueError`.
unfoldable pub round_to_step : Decimal → Decimal → Rounding → Option Decimal
round_to_step value step rounding =
    let toward = quotient value step *ℤ step in
    let away = toward +ℤ (if ltb_ℤ (pos 0) value then step else negate step) in
    if leb_ℤ step (pos 0)
    then none
    else if eqb_ℤ (remainder value step) (pos 0)
    then some toward
    else some (choose rounding value step toward away)
