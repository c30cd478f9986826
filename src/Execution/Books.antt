-- ===== src/Execution/Books.antt =====
-- The money of an order (src/ismet/execution/state.py): its filled quantity and notional against
-- its list of fills, under every event.
use ismet.Prelude.{
  true, false, none, some, -ℤ_of_+ℤ, sym, Bool, Option, Decimal, ◌≡◌, refl, inl, inr, elem, arith,
  Bool-cases, Option-cases, Text,
}
use mathlib.Core.Path.{subst}
use ismet.Models.Orders.{OrderRequest, Fill, EventBody}
use ismet.Execution.State.{Kind, OrderState, new_order}
use ismet.Execution.Reports.{find_fill, merged_fill}
use ismet.Execution.Fills.{
  sum_quantity, sum_notional, AreDistinct, AreOutside, sum_quantity-append, sum_notional-append,
  find_fill-id, AreDistinct-append, merged_fill-IsRevision, sum_quantity-set_fill,
  sum_notional-set_fill, AreDistinct-set_fill, AreOutside-set_fill, AreDistinct-drop_fill,
  AreOutside-drop_fill, sum_quantity-drop_fill, sum_notional-drop_fill, AreOutside-append,
  AreOutside-cons,
}
use ismet.Execution.Apply.{
  move, transition, apply_known, apply_new, apply_fill, remove_fill, apply_bust, apply_restated,
  note_exposed_overfill, apply_replaced, take_terms, dispatch, clear_pending, apply_body,
}

-- The totals are the sums over the fills, no fill is listed twice, and none is listed busted.
pub record IsBooked (s : OrderState) : Type 0 where
  pub quantity_counted : s.filled_quantity ≡ sum_quantity s.fills
  pub notional_counted : s.filled_notional ≡ sum_notional s.fills
  pub distinct : AreDistinct s.fills
  pub busted_out : AreOutside s.busted_fill_ids s.fills

-- What an event that moves no money leaves alone.
pub record SameBooks (s t : OrderState) : Type 0 where
  pub same_quantity : t.filled_quantity ≡ s.filled_quantity
  pub same_notional : t.filled_notional ≡ s.filled_notional
  pub same_fills : t.fills ≡ s.fills
  pub same_busted : t.busted_fill_ids ≡ s.busted_fill_ids

abbrev pub moves_money : EventBody → Bool
moves_money (EventBody.fill f) = true
moves_money (EventBody.bust i r) = true
moves_money b = false

pub SameBooks-IsBooked : {s t : OrderState} → SameBooks s t → IsBooked s → IsBooked t
SameBooks-IsBooked same b = record {
  quantity_counted = rw (same.same_quantity, same.same_fills) b.quantity_counted;
  notional_counted = rw (same.same_notional, same.same_fills) b.notional_counted;
  distinct = rw same.same_fills b.distinct;
  busted_out = rw (same.same_busted, same.same_fills) b.busted_out;
}

pub new_order-IsBooked : (r : OrderRequest) → IsBooked (new_order r)
unfolding new_order
new_order-IsBooked r = record {
  quantity_counted = refl;
  notional_counted = refl;
  distinct = tt;
  busted_out = tt;
}

apply_new-IsBooked :
    (s : OrderState) (f : Fill)
    → IsBooked s
    → elem f.fill_id s.busted_fill_ids ≡ false
    → find_fill f.fill_id s.fills ≡ none
    → IsBooked (apply_new s f)
unfolding apply_new
apply_new-IsBooked s f b fresh absent = record {
  quantity_counted = rw (sum_quantity-append s.fills f, b.quantity_counted) refl;
  notional_counted = rw (sum_notional-append s.fills f, b.notional_counted) refl;
  distinct = AreDistinct-append s.fills f absent b.distinct;
  busted_out = AreOutside-append s.busted_fill_ids s.fills f b.busted_out fresh;
}

apply_known-IsBooked :
    (s : OrderState) {known : Fill} (f : Fill)
    → IsBooked s
    → find_fill f.fill_id s.fills ≡ some known
    → IsBooked (apply_known s known f)
unfolding apply_known
apply_known-IsBooked s {known = known} f b h =
    let g = merged_fill known f in
    let r = merged_fill-IsRevision known f in
    let q = sum_quantity-set_fill f.fill_id g r s.fills h in
    let n = sum_notional-set_fill f.fill_id g r s.fills h in
    let d = AreDistinct-set_fill f.fill_id g r s.fills h b.distinct in
    let o = AreOutside-set_fill f.fill_id g r s.busted_fill_ids s.fills h b.busted_out in
    ground arith

remove_fill-IsBooked :
    (s : OrderState) (i : Text) {target : Fill}
    → IsBooked s
    → find_fill i s.fills ≡ some target
    → IsBooked (remove_fill s target)
unfolding remove_fill
remove_fill-IsBooked s i {target = t} b h =
    let h' = subst (λ j. find_fill j s.fills ≡ some t) (sym (find_fill-id i s.fills h)) h in
    record {
      quantity_counted =
          rw b.quantity_counted
            (-ℤ_of_+ℤ _ _ _ (sum_quantity-drop_fill t.fill_id s.fills b.distinct h'));
      notional_counted =
          rw b.notional_counted
            (-ℤ_of_+ℤ _ _ _ (sum_notional-drop_fill t.fill_id s.fills b.distinct h'));
      distinct = AreDistinct-drop_fill t.fill_id s.fills b.distinct;
      busted_out = AreOutside-drop_fill t.fill_id s.busted_fill_ids s.fills b.busted_out;
    }

pub apply_fill-IsBooked : (s : OrderState) (f : Fill) → IsBooked s → IsBooked (apply_fill s f)
unfolding apply_fill
apply_fill-IsBooked s f b = elim (Bool-cases (elem f.fill_id s.busted_fill_ids)) [
  | inl busted ↦ rw busted (
      SameBooks-IsBooked
        (record {
          same_quantity = refl;
          same_notional = refl;
          same_fills = refl;
          same_busted = refl;
        })
        b)
  | inr fresh ↦ rw fresh (elim (Option-cases (find_fill f.fill_id s.fills)) [
    | inl absent ↦ rw absent (apply_new-IsBooked s f b fresh absent)
    | inr (known, e) ↦ rw e (apply_known-IsBooked s f b e)
  ])
]

pub apply_bust-IsBooked : (s : OrderState) (i : Text) → IsBooked s → IsBooked (apply_bust s i)
unfolding apply_bust
apply_bust-IsBooked s i b = elim (Bool-cases (elem i s.busted_fill_ids)) [
  | inl busted ↦ rw busted b
  | inr fresh ↦ rw fresh (elim (Option-cases (find_fill i s.fills)) [
    | inl absent ↦ rw absent (record {
      quantity_counted = b.quantity_counted;
      notional_counted = b.notional_counted;
      distinct = b.distinct;
      busted_out = AreOutside-cons i s.busted_fill_ids s.fills absent b.busted_out;
    })
    | inr (target, e) ↦ rw e (remove_fill-IsBooked s i b e)
  ])
]

transition-SameBooks : (s : OrderState) (k : Kind) → SameBooks s (transition s k)
unfolding transition move
transition-SameBooks s k = ground arith

note_exposed_overfill-SameBooks :
    (s t n : OrderState) → SameBooks s n → SameBooks s (note_exposed_overfill t n)
unfolding note_exposed_overfill
note_exposed_overfill-SameBooks s t n h = ground arith

apply_replaced-SameBooks :
    (s n : OrderState) (q p : Option Decimal) (v : Option Text)
    → SameBooks s n
    → SameBooks s (apply_replaced s n q p v)
unfolding apply_replaced
apply_replaced-SameBooks s n q p v h =
    let t = take_terms s n q p v in
    let same : SameBooks s t = unfold take_terms in ground arith in
    let noted = note_exposed_overfill-SameBooks s s t same in ground arith

clear_pending-SameBooks : (s : OrderState) → SameBooks s (clear_pending s)
unfolding clear_pending
clear_pending-SameBooks s = ground arith

-- Every event that is no fill and no bust leaves the money alone.
dispatch-SameBooks :
    (s : OrderState) (b : EventBody) → moves_money b ≡ false → SameBooks s (dispatch s b)
unfolding dispatch
dispatch-SameBooks s (EventBody.fill f) h = cc
dispatch-SameBooks s (EventBody.bust i _) h = cc
dispatch-SameBooks s (EventBody.intent r) h = ground arith
dispatch-SameBooks s (EventBody.restated x v q r) h = unfold apply_restated in ground arith
dispatch-SameBooks s (EventBody.send_started i) h =
    ground (arith, transition-SameBooks s Kind.send_started)
dispatch-SameBooks s (EventBody.ack v) h = ground (arith, transition-SameBooks s Kind.ack)
dispatch-SameBooks s (EventBody.reject r c) h = ground (arith, transition-SameBooks s Kind.reject)
dispatch-SameBooks s (EventBody.outcome_unknown r) h = transition-SameBooks s Kind.outcome_unknown
dispatch-SameBooks s EventBody.cancel_requested h = transition-SameBooks s Kind.cancel_requested
dispatch-SameBooks s (EventBody.canceled r) h = transition-SameBooks s Kind.canceled
dispatch-SameBooks s (EventBody.cancel_rejected r c) h =
    ground (arith, transition-SameBooks s Kind.cancel_rejected)
dispatch-SameBooks s (EventBody.replace_requested q p) h =
    ground (arith, transition-SameBooks s Kind.replace_requested)
dispatch-SameBooks s (EventBody.replaced q p v) h =
    apply_replaced-SameBooks s _ q p v (transition-SameBooks s Kind.replaced)
dispatch-SameBooks s (EventBody.replace_rejected r c) h =
    note_exposed_overfill-SameBooks s s _
      (ground (arith, transition-SameBooks s Kind.replace_rejected))
dispatch-SameBooks s EventBody.expired h = transition-SameBooks s Kind.expired

dispatch-IsBooked : (s : OrderState) (b : EventBody) → IsBooked s → IsBooked (dispatch s b)
dispatch-IsBooked s (EventBody.fill f) h = unfold dispatch in apply_fill-IsBooked s f h
dispatch-IsBooked s (EventBody.bust i _) h = unfold dispatch in apply_bust-IsBooked s i h
dispatch-IsBooked s b h = SameBooks-IsBooked (dispatch-SameBooks s b refl) h

-- Whatever an order has been told, one more event keeps its totals equal to the sums over its
-- fills, its fills distinct, and its busted fills out of the list.
pub apply_body-IsBooked : (s : OrderState) (b : EventBody) → IsBooked s → IsBooked (apply_body s b)
unfolding apply_body
apply_body-IsBooked s b h =
    SameBooks-IsBooked (clear_pending-SameBooks (dispatch s b)) (dispatch-IsBooked s b h)
