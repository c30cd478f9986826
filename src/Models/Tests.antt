-- ===== src/Models/Tests.antt =====
-- Rounding (src/ismet/models/decimals.py) of concrete values.
use ismet.Prelude.{some, Decimal, pos, negsuc, ◌*ℤ◌, ◌+ℤ◌, ◌-ℤ◌, negate, abs, ◌≡◌, refl, arith}
use ismet.Models.Decimals.{floor, half_even, quotient, remainder, round_to_step}
use ismet.Models.Decimals.Rounded.{IsRounded}
use ismet.Models.Decimals.Multiples.{IsMultipleOf}
use ismet.Models.Decimals.Chosen.{round_to_step-IsRounded}

-- -7 down to a multiple of 5, and 15 to the nearest multiple of 10 that is even times 10.
floor_of_negative : round_to_step (negsuc 6) (pos 5) floor ≡ some (negsuc 9)
unfolding round_to_step quotient remainder negate ◌*ℤ◌ ◌+ℤ◌ ◌-ℤ◌
floor_of_negative = refl

tie_to_even : round_to_step (pos 15) (pos 10) half_even ≡ some (pos 20)
unfolding round_to_step quotient remainder abs ◌*ℤ◌ ◌+ℤ◌ ◌-ℤ◌
tie_to_even = refl

round_to_step-IsRounded_example :
    (r : Decimal) × (round_to_step (negsuc 6) (pos 5) floor ≡ some r)
    × IsMultipleOf (pos 5) r
    × IsRounded floor (negsuc 6) (pos 5) r
round_to_step-IsRounded_example = round_to_step-IsRounded (negsuc 6) 5 floor (omega arith)
