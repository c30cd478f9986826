-- ===== src/Risk/Notional.antt =====
-- The bound of the notional check (src/ismet/execution/risk.py) at every price that is known.
use ismet.Prelude.{
  ℕ, suc, ◌+◌, ◌*◌, ◌≤◌, some, Decimal, ℤ, pos, negsuc, ◌*ℤ◌, ◌≤ℤ◌, abs, max_ℤ, ◌≡◌, ◌⊎◌, inl, inr,
  arith, Option-cases, pos_part, neg_part, zero, pos_part, neg_part,
}
use ismet.Risk.Checks.{
  RiskContext, RiskLimits, approved, first_some, reference_price, notional, check_size,
  pricing_for_notional, multiplier_of,
}

-- Magnitudes multiply.
mag : ℤ → ℕ
mag a = pos_part a + neg_part a

mag-*ℤ : (a b : ℤ) → mag (a *ℤ b) ≡ mag a * mag b
unfolding mag ◌*ℤ◌
mag-*ℤ (pos a) (pos b) = ground arith
mag-*ℤ (pos a) (negsuc b) = ground arith
mag-*ℤ (negsuc a) (pos b) = ground arith
mag-*ℤ (negsuc a) (negsuc b) = ground arith

mul_mono : (a b c : ℕ) → a ≤ b → a * c ≤ b * c
mul_mono a b zero h = omega arith
mul_mono a b (suc c) h = omega (arith, mul_mono a b c h)

mag-notional :
    (ctx : RiskContext) (p : Decimal)
    → notional ctx p ≡ pos (mag p * mag ctx.request.quantity * mag (multiplier_of ctx.instrument))
unfolding notional abs mag
mag-notional ctx p = ground (
  arith,
  mag-*ℤ (p *ℤ ctx.request.quantity) (multiplier_of ctx.instrument),
  mag-*ℤ p ctx.request.quantity,
)

notional-mono :
    (ctx : RiskContext) (p q : Decimal) → mag p ≤ mag q → notional ctx p ≤ℤ notional ctx q
notional-mono ctx p q h =
    let m = mag (multiplier_of ctx.instrument) in
    let k = mag ctx.request.quantity in
    rw (mag-notional ctx p) (
      rw (mag-notional ctx q)
        (omega (arith, mul_mono (mag p * k) (mag q * k) m (mul_mono (mag p) (mag q) k h))))

pricing-covers :
    (ctx : RiskContext) (price used : Decimal)
    → pricing_for_notional ctx ≡ some used
    → (first_some ctx.request.limit_price ctx.request.stop_price ≡ some price)
      ⊎ (reference_price ctx ≡ some price)
    → mag price ≤ mag used
unfolding pricing_for_notional mag abs max_ℤ
pricing-covers ctx price used e h = elim (Option-cases (reference_price ctx)) [
  | inl no_ref ↦ ground arith
  | inr (market, ref) ↦
      elim (Option-cases (first_some ctx.request.limit_price ctx.request.stop_price)) [
        | inl no_own ↦ ground arith
        | inr (own, owned) ↦ ground arith
      ]
]

-- Under a notional limit, an approved order is within it at its own price, the limit or else the
-- stop, and at the market's, whichever of them there are.
pub notional_bounded :
    (ctx : RiskContext) (limits : RiskLimits) {limit : Decimal} (price : Decimal)
    → limits.max_order_notional ≡ some limit
    → check_size ctx limits ≡ approved
    → (first_some ctx.request.limit_price ctx.request.stop_price ≡ some price)
      ⊎ (reference_price ctx ≡ some price)
    → notional ctx price ≤ℤ limit
unfolding check_size
notional_bounded ctx limits {limit = limit} price set ok e =
    elim (Option-cases (pricing_for_notional ctx)) [
      | inl unpriced ↦ ground arith
      | inr (used, priced) ↦
          let bound : notional ctx used ≤ℤ limit = ground arith in
          omega (arith, notional-mono ctx price used (pricing-covers ctx price used priced e))
    ]
