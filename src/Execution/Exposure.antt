-- ===== src/Execution/Exposure.antt =====
-- src/ismet/execution/state.py: what may still execute of an order, and when requested terms
-- are dropped.
use ismet.Prelude.{false, ◌≡◌, pos, ◌+ℤ◌, ◌-ℤ◌, -ℤ_parts, ℤ, max_ℤ, ◌≤ℤ◌, arith, int_laws}
use ismet.Models.Orders.{EventBody, is_terminal}
use ismet.Execution.State.{
  OrderState, leaves_quantity, fill_ceiling, max_pending, has_pending_terms,
}
use ismet.Execution.Apply.{clear_pending, apply_body, keeps_pending}

max_ℤ_eq : (a b : ℤ) → b ≤ℤ a → max_ℤ a b ≡ a
unfolding max_ℤ
max_ℤ_eq a b h = ground arith

-- What is filled and what may still execute, of an open order.
pub record IsCovered (s : OrderState) : Type 0 where
  pub leaves_nonneg : pos 0 ≤ℤ leaves_quantity s
  pub quantity_covered : s.quantity ≤ℤ s.filled_quantity +ℤ leaves_quantity s
  pub ceiling_covered : fill_ceiling s ≤ℤ s.filled_quantity +ℤ leaves_quantity s

-- Of an open order that is filled up to its ceiling at most, the leaves are exactly the rest of
-- the ceiling.
pub leaves_exact :
    (s : OrderState)
    → is_terminal s.status ≡ false
    → s.filled_quantity ≤ℤ fill_ceiling s
    → s.filled_quantity +ℤ leaves_quantity s ≡ fill_ceiling s
unfolding leaves_quantity fill_ceiling
leaves_exact s h le =
    let c = max_pending s.quantity s.pending_quantity in
    let d = c -ℤ s.filled_quantity in
    let e = -ℤ_parts c s.filled_quantity in
    let m : max_ℤ d (pos 0) ≡ d = max_ℤ_eq d (pos 0) (omega arith) in rw (h, m) (omega int_laws)

-- Whatever the event, the requested terms of a replace outlive it only in a pending status or in
-- an unknown one.
pub pending_only_open :
    (s : OrderState) (b : EventBody)
    → keeps_pending (apply_body s b).status ≡ false
    → has_pending_terms (apply_body s b) ≡ false
unfolding apply_body clear_pending
pending_only_open s b h = ground arith
