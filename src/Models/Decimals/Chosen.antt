-- ===== src/Models/Decimals/Chosen.antt =====
-- The multiple that `round_to_step` (src/ismet/models/decimals.py) chooses is the one its direction
-- promises.
use ismet.Prelude.{
  ℕ, suc, zero, ◌/◌, ◌<◌, true, false, some, Decimal, pos, negsuc, ◌+ℤ◌, ◌-ℤ◌, ◌*ℤ◌, ◌≤ℤ◌, ◌<ℤ◌,
  negate, abs, ltb_ℤ, leb_ℤ, eqb_ℤ, pos_part, neg_part, if◌then◌else◌, ◌≡◌, refl, sym, ap, ◌⊎◌, inl,
  inr, arith, Bool-cases, +ℤ_parts, -ℤ_parts, *ℤ_parts, negate_parts, eq_of_parts,
}
use mathlib.Core.Path.{subst}
use native.Mathlib.Nat.{div-add-mod}
use ismet.Models.Decimals.{
  Rounding, floor, ceiling, toward_zero, away_from_zero, half_even, quotient, remainder, is_even,
  choose, round_to_step,
}
use ismet.Models.Decimals.Multiples.{IsMultipleOf, next-IsMultipleOf, choose_lem}
use ismet.Models.Decimals.Rounded.{
  positive-IsBracket, negative-IsNegativeBracket, Directed, IsRounded, exact-IsRounded, low-near,
  high-near, low-nearest, high-nearest,
}

nonneg_part : (a : Decimal) → pos 0 ≤ℤ a → neg_part a ≡ 0
nonneg_part (pos n) h = refl
nonneg_part (negsuc n) h = ground arith

nonpos_part : (a : Decimal) → a ≤ℤ pos 0 → pos_part a ≡ 0
nonpos_part (pos n) h = ground arith
nonpos_part (negsuc n) h = refl

-- Twice the distance of two values, as the source takes it.
abbrev twice : Decimal → Decimal → Decimal
twice v toward = abs (v -ℤ toward) *ℤ pos 2

twice-above : (v low : Decimal) → low ≤ℤ v → low +ℤ low +ℤ twice v low ≡ v +ℤ v
unfolding abs
twice-above v low h =
    let d = -ℤ_parts v low in
    let n = nonneg_part (v -ℤ low) (omega (arith, h, d)) in
    eq_of_parts (low +ℤ low +ℤ twice v low) (v +ℤ v) (
      omega (
        arith,
        h,
        n,
        d,
        *ℤ_parts (abs (v -ℤ low)) (pos 2),
        +ℤ_parts low low,
        +ℤ_parts (low +ℤ low) (twice v low),
        +ℤ_parts v v,
      ))

twice-below : (v up : Decimal) → v ≤ℤ up → v +ℤ v +ℤ twice v up ≡ up +ℤ up
unfolding abs
twice-below v up h =
    let d = -ℤ_parts v up in
    let n = nonpos_part (v -ℤ up) (omega (arith, h, d)) in
    eq_of_parts (v +ℤ v +ℤ twice v up) (up +ℤ up) (
      omega (
        arith,
        h,
        n,
        d,
        *ℤ_parts (abs (v -ℤ up)) (pos 2),
        +ℤ_parts up up,
        +ℤ_parts (v +ℤ v) (twice v up),
        +ℤ_parts v v,
      ))

-- The source's choice for a positive value that is no multiple.
choose_positive :
    (m : Rounding) (v step : Decimal)
    → let low = quotient v step *ℤ step in
      pos 0 <ℤ v
      → pos 0 ≤ℤ low
      → low <ℤ v
      → v <ℤ low +ℤ step
      → IsRounded m v step (choose m v step low (low +ℤ step))
unfolding Directed remainder
choose_positive floor v step up least below above =
    let low = quotient v step *ℤ step in
    let n = low-near v step low below above in
    let t : ltb_ℤ (pos 0) v ≡ true = ground arith in
    rw t (record { not_below = n.0; not_above = n.1; directed = omega (arith, below) })
choose_positive ceiling v step up least below above =
    let low = quotient v step *ℤ step in
    let n = high-near v step low below above in
    let t : ltb_ℤ (pos 0) v ≡ true = ground arith in
    rw t (record { not_below = n.0; not_above = n.1; directed = omega (arith, above) })
choose_positive toward_zero v step up least below above =
    let low = quotient v step *ℤ step in
    let n = low-near v step low below above in
    record {
      not_below = n.0;
      not_above = n.1;
      directed =
          unfold abs in
          omega (arith, least, below, nonneg_part low least, nonneg_part v (omega (arith, up)));
    }
choose_positive away_from_zero v step up least below above =
    let low = quotient v step *ℤ step in
    let n = high-near v step low below above in
    let v_part = nonneg_part v (omega (arith, up)) in
    let high_part = nonneg_part (low +ℤ step) (omega (arith, up, above)) in
    record {
      not_below = n.0;
      not_above = n.1;
      directed = unfold abs in omega (arith, above, v_part, high_part);
    }
choose_positive half_even v step up least below above =
    let low = quotient v step *ℤ step in
    let near = low-near v step low below above in
    let far = high-near v step low below above in
    let t = twice-above v low (omega (arith, below)) in
    let p = +ℤ_parts (low +ℤ low) (twice v low) in
    let q = +ℤ_parts (low +ℤ low) step in
    let t₁ = ap pos_part t in
    let t₂ = ap neg_part t in
    let is_low : twice v low ≤ℤ step → IsRounded half_even v step low = λ h. record {
      not_below = near.0;
      not_above = near.1;
      directed = low-nearest v step low below above (omega (arith, h, p, q, t₁, t₂));
    } in
    let is_high : step ≤ℤ twice v low → IsRounded half_even v step (low +ℤ step) = λ h. record {
      not_below = far.0;
      not_above = far.1;
      directed = high-nearest v step low below above (omega (arith, h, p, q, t₁, t₂));
    } in
    elim (Bool-cases (ltb_ℤ (twice v low) step)) [
      | inl nearer ↦ rw nearer (is_low (ground arith))
      | inr not_nearer ↦ elim (Bool-cases (ltb_ℤ step (twice v low))) [
        | inl farther ↦ rw (not_nearer, farther) (is_high (ground arith))
        | inr tie ↦ elim (Bool-cases (is_even (quotient v step))) [
          | inl even ↦ rw (not_nearer, tie, even) (is_low (ground arith))
          | inr odd ↦ rw (not_nearer, tie, odd) (is_high (ground arith))
        ]
      ]
    ]

-- The source's choice for a negative value that is no multiple.
choose_negative :
    (m : Rounding) (v step : Decimal)
    → let up = quotient v step *ℤ step in
      let low = up +ℤ negate step in
      v <ℤ pos 0 → up ≤ℤ pos 0 → low <ℤ v → v <ℤ up → IsRounded m v step (choose m v step up low)
unfolding Directed remainder
choose_negative m v step down most below above = go m
  where
    up : Decimal
    up = quotient v step *ℤ step

    low : Decimal
    low = up +ℤ negate step

    sum : low +ℤ step ≡ up
    sum =
        eq_of_parts (low +ℤ step) up
          (omega (arith, +ℤ_parts low step, +ℤ_parts up (negate step), negate_parts step))

    above' : v <ℤ low +ℤ step
    above' = subst (λ x. v <ℤ x) (sym sum) above

    is_low : (k : Rounding) → Directed k v step low → IsRounded k v step low
    is_low k d =
        let n = low-near v step low below above' in
        record { not_below = n.0; not_above = n.1; directed = d }

    is_up : (k : Rounding) → Directed k v step up → IsRounded k v step up
    is_up k d =
        let n = high-near v step low below above' in
        subst (IsRounded k v step) sum (record {
          not_below = n.0;
          not_above = n.1;
          directed = subst (Directed k v step) (sym sum) d;
        })

    go : (m : Rounding) → IsRounded m v step (choose m v step up low)
    go floor =
        let t : ltb_ℤ (pos 0) v ≡ false = ground arith in rw t (is_low floor (omega (arith, below)))
    go ceiling =
        let t : ltb_ℤ (pos 0) v ≡ false = ground arith in
        rw t (is_up ceiling (omega (arith, above)))
    go toward_zero = is_up toward_zero (
        unfold abs in
        omega (arith, above, nonpos_part up most, nonpos_part v (omega (arith, down))))
    go away_from_zero = is_low away_from_zero (
        unfold abs in
        omega (
          arith,
          below,
          nonpos_part v (omega (arith, down)),
          nonpos_part low (omega (arith, below, down)),
        ))
    go half_even =
        let t = twice-below v up (omega (arith, above)) in
        let t₁ = ap pos_part t in
        let t₂ = ap neg_part t in
        let u₁ = ap pos_part sum in
        let u₂ = ap neg_part sum in
        let p = +ℤ_parts (v +ℤ v) (twice v up) in
        let q = +ℤ_parts low low in
        let q' = +ℤ_parts (low +ℤ low) step in
        let w = +ℤ_parts up up in
        let x = +ℤ_parts low step in
        let near : twice v up ≤ℤ step → IsRounded half_even v step up = λ h. is_up half_even (
          subst (Directed half_even v step) sum (
            high-nearest v step low below above'
              (omega (arith, h, t₁, t₂, u₁, u₂, p, q, q', w, x)))) in
        let far : step ≤ℤ twice v up → IsRounded half_even v step low = λ h. is_low half_even (
          low-nearest v step low below above' (omega (arith, h, t₁, t₂, u₁, u₂, p, q, q', w, x))) in
        elim (Bool-cases (ltb_ℤ (twice v up) step)) [
          | inl nearer ↦ rw nearer (near (ground arith))
          | inr not_nearer ↦ elim (Bool-cases (ltb_ℤ step (twice v up))) [
            | inl farther ↦ rw (not_nearer, farther) (far (ground arith))
            | inr tie ↦ elim (Bool-cases (is_even (quotient v step))) [
              | inl even ↦ rw (not_nearer, tie, even) (near (ground arith))
              | inr odd ↦ rw (not_nearer, tie, odd) (far (ground arith))
            ]
          ]
        ]

-- A value whose remainder is zero is the multiple toward zero, and no other is.
remainder-zero :
    (v step : Decimal) → eqb_ℤ (remainder v step) (pos 0) ≡ true → quotient v step *ℤ step ≡ v
unfolding remainder
remainder-zero v step h =
    let up = quotient v step *ℤ step in eq_of_parts up v (ground (arith, -ℤ_parts v up, h))

remainder-cut :
    (v step : Decimal)
    → eqb_ℤ (remainder v step) (pos 0) ≡ false
    → (quotient v step *ℤ step <ℤ v) ⊎ (v <ℤ quotient v step *ℤ step)
unfolding remainder
remainder-cut v step h = ground (arith, -ℤ_parts v (quotient v step *ℤ step))

chosen-IsRounded :
    (v : Decimal) (k : ℕ) (m : Rounding)
    → 0 < k
    → eqb_ℤ (remainder v (pos k)) (pos 0) ≡ false
    → let toward = quotient v (pos k) *ℤ pos k in
      IsRounded m v
        (pos k)
        (choose m v (pos k) toward (toward +ℤ (if ltb_ℤ (pos 0) v then pos k else negate (pos k))))
unfolding quotient
chosen-IsRounded (pos zero) k m p cut =
    let c = remainder-cut (pos 0) (pos k) cut in
    ground (arith, c, *ℤ_parts (pos (0 / k)) (pos k), div-add-mod 0 k)
chosen-IsRounded (pos (suc n)) k m p cut =
    let b = positive-IsBracket (suc n) k (omega arith) p in
    let c = remainder-cut (pos (suc n)) (pos k) cut in
    let toward = quotient (pos (suc n)) (pos k) *ℤ pos k in
    let is_positive : ltb_ℤ (pos 0) (pos (suc n)) ≡ true = ground arith in
    let chosen : IsRounded m (pos (suc n)) (pos k)
        (choose m (pos (suc n)) (pos k) toward (toward +ℤ pos k)) =
      choose_positive m (pos (suc n)) (pos k) b.up b.from_zero (ground (arith, b.below)) b.above in
    subst
      (λ x.
        IsRounded m (pos (suc n)) (pos k)
          (choose m (pos (suc n)) (pos k) toward (toward +ℤ (if x then pos k else negate (pos k)))))
      (sym is_positive) chosen
chosen-IsRounded (negsuc n) k m p cut =
    let b = negative-IsNegativeBracket n k p in
    let c = remainder-cut (negsuc n) (pos k) cut in
    let toward = quotient (negsuc n) (pos k) *ℤ pos k in
    let is_negative : ltb_ℤ (pos 0) (negsuc n) ≡ false = ground arith in
    let chosen : IsRounded m (negsuc n) (pos k)
        (choose m (negsuc n) (pos k) toward (toward +ℤ negate (pos k))) =
      choose_negative m (negsuc n) (pos k) b.down b.to_zero b.below (ground (arith, b.above)) in
    subst
      (λ x.
        IsRounded m (negsuc n) (pos k)
          (choose m (negsuc n) (pos k) toward (toward +ℤ (if x then pos k else negate (pos k)))))
      (sym is_negative) chosen

-- Rounding to a positive step always has a result; it is a multiple of the step, less than a step
-- from the value, on the side that the direction names, and at most half a step from it for
-- `half_even`.
pub round_to_step-IsRounded :
    (value : Decimal) (k : ℕ) (rounding : Rounding)
    → 0 < k
    → (r : Decimal) × (round_to_step value (pos k) rounding ≡ some r)
      × IsMultipleOf (pos k) r
      × IsRounded rounding value (pos k) r
unfolding round_to_step
round_to_step-IsRounded value k rounding p =
    let step : Decimal = pos k in
    let toward = quotient value step *ℤ step in
    let guard : leb_ℤ step (pos 0) ≡ false = ground arith in
    let whole_steps : IsMultipleOf (pos k) toward = (quotient value step, refl) in
    elim (Bool-cases (eqb_ℤ (remainder value step) (pos 0))) [
      | inl whole ↦
          rw (guard, whole)
            (
              toward,
              refl,
              whole_steps,
              subst (IsRounded rounding value step) (sym (remainder-zero value step whole))
                  (exact-IsRounded rounding value step (omega (arith, p))),
            )
      | inr cut ↦
          rw (guard, cut)
            (
              _,
              refl,
              choose_lem (IsMultipleOf (pos k)) rounding value step toward _ whole_steps
                  (next-IsMultipleOf (ltb_ℤ (pos 0) value) (quotient value step) k),
              chosen-IsRounded value k rounding p cut,
            )
    ]
