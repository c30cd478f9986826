-- ===== src/Models/Decimals/Rounded.antt =====
-- What rounding to a step (src/ismet/models/decimals.py) promises in each direction.
use ismet.Prelude.{
  ℕ, suc, zero, ◌+◌, ◌*◌, ◌/◌, ◌<◌, Decimal, pos, negsuc, ◌+ℤ◌, ◌*ℤ◌, ◌≤ℤ◌, ◌<ℤ◌, negate, abs,
  pos_part, neg_part, ◌≡◌, refl, arith, +ℤ_parts, *ℤ_parts, negate_parts, eq_of_parts,
}
use native.Mathlib.Nat.{div-add-mod, mod-lt}
use ismet.Models.Decimals.{Rounding, floor, ceiling, toward_zero, away_from_zero, half_even}

-- The multiple toward zero of a positive value, and the next one.
pub record IsBracket (value step toward away : Decimal) : Type 0 where
  pub up : pos 0 <ℤ value
  pub from_zero : pos 0 ≤ℤ toward
  pub below : toward ≤ℤ value
  pub above : value <ℤ away
  pub apart : away ≡ toward +ℤ step

pub positive-IsBracket :
    (n k : ℕ)
    → 0 < n
    → 0 < k
    → let toward = pos (n / k) *ℤ pos k in IsBracket (pos n) (pos k) toward (toward +ℤ pos k)
positive-IsBracket n k h p =
    let toward = pos (n / k) *ℤ pos k in
    let d = div-add-mod n k in
    let l = mod-lt n p in
    let m = *ℤ_parts (pos (n / k)) (pos k) in
    let a = +ℤ_parts toward (pos k) in
    record {
      up = omega (arith, h);
      from_zero = omega (arith, m);
      below = omega (arith, m, d, l);
      above = omega (arith, m, d, l, a);
      apart = refl;
    }

negative-product :
    (q k : ℕ) → pos_part (negate (pos q) *ℤ pos k) + q * k ≡ neg_part (negate (pos q) *ℤ pos k)
unfolding negate ◌*ℤ◌
negative-product zero k = ground arith
negative-product (suc q) k = ground arith

pub record IsNegativeBracket (value step toward away : Decimal) : Type 0 where
  pub down : value <ℤ pos 0
  pub to_zero : toward ≤ℤ pos 0
  pub above : value ≤ℤ toward
  pub below : away <ℤ value
  pub apart : toward ≡ away +ℤ step

pub negative-IsNegativeBracket :
    (n k : ℕ)
    → 0 < k
    → let toward = negate (pos (suc n / k)) *ℤ pos k in
      IsNegativeBracket (negsuc n) (pos k) toward (toward +ℤ negate (pos k))
negative-IsNegativeBracket n k p =
    let toward = negate (pos (suc n / k)) *ℤ pos k in
    let d = div-add-mod (suc n) k in
    let l = mod-lt (suc n) p in
    let m = negative-product (suc n / k) k in
    let a = +ℤ_parts toward (negate (pos k)) in
    let g = negate_parts (pos k) in
    record {
      down = omega arith;
      to_zero = omega (arith, m);
      above = omega (arith, m, d, l);
      below = omega (arith, m, d, l, a, g);
      apart =
          eq_of_parts toward (toward +ℤ negate (pos k) +ℤ pos k)
            (omega (arith, a, g, +ℤ_parts (toward +ℤ negate (pos k)) (pos k)));
    }

-- What a direction promises of the result `r` for the value `v`.
unfoldable pub Directed : Rounding → Decimal → Decimal → Decimal → Type 0
Directed floor v step r = r ≤ℤ v
Directed ceiling v step r = v ≤ℤ r
Directed toward_zero v step r = abs r ≤ℤ abs v
Directed away_from_zero v step r = abs v ≤ℤ abs r
Directed half_even v step r = (r +ℤ r ≤ℤ v +ℤ v +ℤ step) × (v +ℤ v ≤ℤ r +ℤ r +ℤ step)

-- Less than a step from the value, on the side of the direction.
pub record IsRounded (rounding : Rounding) (v step r : Decimal) : Type 0 where
  pub not_below : v <ℤ r +ℤ step
  pub not_above : r <ℤ v +ℤ step
  pub directed : Directed rounding v step r

-- The value itself, where it is a multiple.
pub exact-IsRounded :
    (rounding : Rounding) (v step : Decimal) → pos 0 <ℤ step → IsRounded rounding v step v
unfolding Directed
exact-IsRounded rounding v step p = record {
  not_below = omega (arith, +ℤ_parts v step, p);
  not_above = omega (arith, +ℤ_parts v step, p);
  directed = side rounding;
}
  where
    side : (m : Rounding) → Directed m v step v
    side floor = omega arith
    side ceiling = omega arith
    side toward_zero = omega arith
    side away_from_zero = omega arith
    side half_even = let d = +ℤ_parts (v +ℤ v) step in (omega (arith, d, p), omega (arith, d, p))

-- Both multiples around a value that is none are less than a step away, and each suits the
-- directions on its side of the value; the nearer one suits the nearest, too.
module _ (v step low : Decimal) (below : low <ℤ v) (above : v <ℤ low +ℤ step) where
  abbrev pub high : Decimal
  high = low +ℤ step

  pub low-near : (v <ℤ low +ℤ step) × (low <ℤ v +ℤ step)
  low-near = (above, omega (arith, below, above, +ℤ_parts low step, +ℤ_parts v step))

  pub high-near : (v <ℤ high +ℤ step) × (high <ℤ v +ℤ step)
  high-near = (
    omega (arith, below, above, +ℤ_parts low step, +ℤ_parts high step),
    omega (arith, below, above, +ℤ_parts low step, +ℤ_parts v step),
  )

  -- Whether twice the distance to the lower multiple is at most a step.
  pub low-nearest : v +ℤ v ≤ℤ low +ℤ low +ℤ step → Directed half_even v step low
  unfolding Directed
  low-nearest h = (
    omega (
      arith,
      below,
      above,
      h,
      +ℤ_parts low step,
      +ℤ_parts v v,
      +ℤ_parts low low,
      +ℤ_parts (v +ℤ v) step,
      +ℤ_parts (low +ℤ low) step,
    ),
    h,
  )

  pub high-nearest : low +ℤ low +ℤ step ≤ℤ v +ℤ v → Directed half_even v step high
  unfolding Directed
  high-nearest h = (
    omega (
      arith,
      below,
      above,
      h,
      +ℤ_parts low step,
      +ℤ_parts v v,
      +ℤ_parts low low,
      +ℤ_parts high high,
      +ℤ_parts (v +ℤ v) step,
      +ℤ_parts (low +ℤ low) step,
    ),
    omega (
      arith,
      below,
      above,
      h,
      +ℤ_parts low step,
      +ℤ_parts v v,
      +ℤ_parts low low,
      +ℤ_parts high high,
      +ℤ_parts (high +ℤ high) step,
      +ℤ_parts (low +ℤ low) step,
    ),
  )
