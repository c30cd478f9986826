-- ===== src/Risk/Position.antt =====
-- What an approval by the position checks of src/ismet/execution/risk.py rules out.
use ismet.Prelude.{
  ℕ, true, false, some, Decimal, pos, negsuc, ◌+ℤ◌, ◌-ℤ◌, ◌*ℤ◌, ◌≤ℤ◌, abs, ◌≡◌, ◌⊎◌, inl, inr,
  arith, Option-cases, +ℤ_parts, -ℤ_parts, *ℤ_parts,
}
use ismet.Models.Orders.{OrderSide, buy, sell, sign, marked_short}
use ismet.Risk.Checks.{
  RiskContext, RiskConfig, RiskLimits, approved, check_reduce_only, reduce_only_at, pending_with,
  check_position, position_at, check_short_sale, short_sale_at, sum_leaves,
}

-- `p + sign * e`
unfoldable pub moved : Decimal → OrderSide → ℕ → Decimal
moved p side e = p +ℤ sign side *ℤ pos e

-- From `p` towards 0, and not past it.
unfoldable pub Reduces : Decimal → Decimal → Type 0
Reduces p q = ((pos 0 ≤ℤ q) × (q ≤ℤ p)) ⊎ ((p ≤ℤ q) × (q ≤ℤ pos 0))

reduce_only_at-Reduces :
    (side : OrderSide) (p w : Decimal) (e : ℕ)
    → reduce_only_at side p w ≡ approved
    → pos e ≤ℤ w
    → Reduces p (moved p side e)
unfolding reduce_only_at Reduces moved
reduce_only_at-Reduces buy p w e h b = ground (
  arith,
  +ℤ_parts p (pos 1 *ℤ w),
  *ℤ_parts (pos 1) w,
  +ℤ_parts p (pos 1 *ℤ pos e),
  *ℤ_parts (pos 1) (pos e),
)
reduce_only_at-Reduces sell p w e h b = ground (
  arith,
  +ℤ_parts p (negsuc 0 *ℤ w),
  *ℤ_parts (negsuc 0) w,
  +ℤ_parts p (negsuc 0 *ℤ pos e),
  *ℤ_parts (negsuc 0) (pos e),
)

-- A reduce-only order that is approved has a known position, and whatever part of it and of the
-- orders resting on its side executes, the position moves towards zero and not past it.
pub reduce_only-Reduces :
    (ctx : RiskContext) (e : ℕ)
    → ctx.request.reduce_only ≡ true
    → check_reduce_only ctx ≡ approved
    → pos e ≤ℤ pending_with ctx
    → (p : Decimal) × (ctx.position ≡ some p) × Reduces p (moved p ctx.request.side e)
unfolding check_reduce_only
reduce_only-Reduces ctx e flag ok b = elim (Option-cases ctx.position) [
  | inl missing ↦ ground arith
  | inr (p, known) ↦
      let at : reduce_only_at ctx.request.side p (pending_with ctx) ≡ approved = ground arith in
      (p, known, reduce_only_at-Reduces ctx.request.side p (pending_with ctx) e at b)
]

position_at-bounded :
    (side : OrderSide) (limit p w : Decimal) (e : ℕ)
    → position_at limit p (sign side *ℤ w) ≡ approved
    → pos e ≤ℤ w
    → (abs (moved p side e) ≤ℤ limit) ⊎ Reduces p (moved p side e)
unfolding position_at Reduces moved abs
position_at-bounded buy limit p w e h b = ground (
  arith,
  +ℤ_parts p (pos 1 *ℤ w),
  *ℤ_parts (pos 1) w,
  +ℤ_parts p (pos 1 *ℤ pos e),
  *ℤ_parts (pos 1) (pos e),
)
position_at-bounded sell limit p w e h b = ground (
  arith,
  +ℤ_parts p (negsuc 0 *ℤ w),
  *ℤ_parts (negsuc 0) w,
  +ℤ_parts p (negsuc 0 *ℤ pos e),
  *ℤ_parts (negsuc 0) (pos e),
)

-- Under a position limit, an approved order has a known position, and whatever part of it and of
-- the orders resting on its side executes, the position is within the limit or is only reduced.
pub position_bounded :
    (ctx : RiskContext) (limits : RiskLimits) {limit : Decimal} (e : ℕ)
    → limits.max_position ≡ some limit
    → check_position ctx limits ≡ approved
    → pos e ≤ℤ pending_with ctx
    → (p : Decimal) × (ctx.position ≡ some p)
      × ((abs (moved p ctx.request.side e) ≤ℤ limit) ⊎ Reduces p (moved p ctx.request.side e))
unfolding check_position
position_bounded ctx limits {limit = limit} e set ok b = elim (Option-cases ctx.position) [
  | inl missing ↦ ground arith
  | inr (p, known) ↦
      let at : position_at limit p (sign ctx.request.side *ℤ pending_with ctx) ≡ approved =
        ground arith in
      (p, known, position_at-bounded ctx.request.side limit p (pending_with ctx) e at b)
]

-- A sale that is not marked short is approved only at a known position that covers it together
-- with the sales that are open, so no part of them takes the position below zero.
unmarked_sale_covered :
    (ctx : RiskContext) (config : RiskConfig) (e : ℕ)
    → ctx.request.side ≡ sell
    → marked_short ctx.request.short_sale ≡ false
    → check_short_sale ctx config ≡ approved
    → pos e ≤ℤ sum_leaves ctx.open_orders ctx.request.symbol sell +ℤ ctx.request.quantity
    → (p : Decimal) × (ctx.position ≡ some p) × (pos 0 ≤ℤ p -ℤ pos e)
unfolding check_short_sale short_sale_at
unmarked_sale_covered ctx config e sale unmarked ok b = elim (Option-cases ctx.position) [
  | inl missing ↦ ground arith
  | inr (p, known) ↦
      let open_ = sum_leaves ctx.open_orders ctx.request.symbol sell in
      (
        p,
        known,
        ground (
          arith,
          -ℤ_parts p open_,
          -ℤ_parts (p -ℤ open_) ctx.request.quantity,
          +ℤ_parts open_ ctx.request.quantity,
          -ℤ_parts p (pos e),
        ),
      )
]
