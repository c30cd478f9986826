-- ===== src/Execution/Apply.antt =====
-- src/ismet/execution/state.py: the reducer, from the state of an order and an event to the
-- state after it.
use ismet.Prelude.{
  Bool, true, false, not, ◌&&◌, ◌||◌, Option, none, some, List, [], ◌∷◌, ◌++◌, Text, Decimal, pos,
  ◌+ℤ◌, ◌-ℤ◌, ◌*ℤ◌, ltb_ℤ, leb_ℤ, eqb_ℤ, ◌==◌, elem, if◌then◌else◌,
}
use ismet.Models.Symbol.{symbol_eq}
use ismet.Models.Orders.{
  OrderStatus, Fill, EventBody, OrderEvent, is_terminal, is_some, side_eq, status_eq, fill_eq,
}
use ismet.Execution.State.{
  Kind, Anomaly, OrderState, working_status, note, fill_ceiling, has_pending_terms,
}
use ismet.Execution.Reports.{
  fees_differ, same_execution, merged_fill, find_fill, set_fill, drop_fill, text_or, or_else,
}

-- A value of `TRANSITIONS`: a status, or one that the order's own state decides.
pub data Target : Type 0 where
  to : OrderStatus → Target
  working resumed : Target

-- `_ALL_LIVE`
abbrev pub all_live : OrderStatus → Bool
all_live OrderStatus.submitting = true
all_live OrderStatus.unknown = true
all_live OrderStatus.accepted = true
all_live OrderStatus.partially_filled = true
all_live OrderStatus.pending_cancel = true
all_live OrderStatus.pending_replace = true
all_live _ = false

abbrev pub working_statuses : OrderStatus → Bool
working_statuses OrderStatus.accepted = true
working_statuses OrderStatus.partially_filled = true
working_statuses _ = false

-- `(*PENDING_STATUSES, S.UNKNOWN)`
abbrev pub keeps_pending : OrderStatus → Bool
keeps_pending OrderStatus.pending_cancel = true
keeps_pending OrderStatus.pending_replace = true
keeps_pending OrderStatus.unknown = true
keeps_pending _ = false

-- `TRANSITIONS`; `none` for a pair that the table does not hold.
unfoldable pub transitions : Kind → OrderStatus → Option Target
transitions Kind.send_started OrderStatus.pending_submit = some (to OrderStatus.submitting)
transitions Kind.send_started _ = none
transitions Kind.ack OrderStatus.submitting = some working
transitions Kind.ack OrderStatus.unknown = some working
transitions Kind.ack OrderStatus.accepted = some (to OrderStatus.accepted)
transitions Kind.ack OrderStatus.partially_filled = some (to OrderStatus.partially_filled)
transitions Kind.ack OrderStatus.pending_cancel = some (to OrderStatus.pending_cancel)
transitions Kind.ack OrderStatus.pending_replace = some (to OrderStatus.pending_replace)
transitions Kind.ack OrderStatus.filled = some (to OrderStatus.filled)
transitions Kind.ack OrderStatus.canceled = some (to OrderStatus.canceled)
transitions Kind.ack OrderStatus.expired = some (to OrderStatus.expired)
transitions Kind.ack _ = none
transitions Kind.reject OrderStatus.filled = none
transitions Kind.reject OrderStatus.canceled = none
transitions Kind.reject OrderStatus.expired = none
transitions Kind.reject _ = some (to OrderStatus.rejected)
transitions Kind.outcome_unknown s = if all_live s then some (to OrderStatus.unknown) else none
transitions Kind.cancel_requested OrderStatus.accepted = some (to OrderStatus.pending_cancel)
transitions Kind.cancel_requested OrderStatus.partially_filled =
    some (to OrderStatus.pending_cancel)
transitions Kind.cancel_requested OrderStatus.pending_cancel = some (to OrderStatus.pending_cancel)
transitions Kind.cancel_requested OrderStatus.pending_replace = some (to OrderStatus.pending_cancel)
transitions Kind.cancel_requested OrderStatus.submitting = some (to OrderStatus.submitting)
transitions Kind.cancel_requested OrderStatus.unknown = some (to OrderStatus.unknown)
transitions Kind.cancel_requested _ = none
transitions Kind.canceled OrderStatus.canceled = some (to OrderStatus.canceled)
transitions Kind.canceled s = if all_live s then some (to OrderStatus.canceled) else none
transitions Kind.cancel_rejected OrderStatus.pending_cancel = some resumed
transitions Kind.cancel_rejected OrderStatus.pending_submit = none
transitions Kind.cancel_rejected s = some (to s)
transitions Kind.replace_requested s =
    if working_statuses s then some (to OrderStatus.pending_replace) else none
transitions Kind.replaced OrderStatus.pending_replace = some working
transitions Kind.replaced OrderStatus.pending_cancel = some (to OrderStatus.pending_cancel)
transitions Kind.replaced OrderStatus.unknown = some working
transitions Kind.replaced OrderStatus.accepted = some working
transitions Kind.replaced OrderStatus.partially_filled = some working
transitions Kind.replaced _ = none
transitions Kind.replace_rejected OrderStatus.pending_replace = some working
transitions Kind.replace_rejected OrderStatus.pending_cancel = some (to OrderStatus.pending_cancel)
transitions Kind.replace_rejected OrderStatus.unknown = some (to OrderStatus.unknown)
transitions Kind.replace_rejected OrderStatus.filled = some (to OrderStatus.filled)
transitions Kind.replace_rejected OrderStatus.canceled = some (to OrderStatus.canceled)
transitions Kind.replace_rejected OrderStatus.expired = some (to OrderStatus.expired)
transitions Kind.replace_rejected _ = none
transitions Kind.expired OrderStatus.expired = some (to OrderStatus.expired)
transitions Kind.expired s = if all_live s then some (to OrderStatus.expired) else none

-- `_transition`, by the looked-up target.
unfoldable pub move : OrderState → Kind → Option Target → OrderState
move s k none = note s (Anomaly.illegal_transition k s.status)
move s k (some (to status)) = record s { status = status }
move s k (some working) = record s { status = working_status s }
move s k (some resumed) = record s {
  status = if has_pending_terms s then OrderStatus.pending_replace else working_status s;
}

unfoldable pub transition : OrderState → Kind → OrderState
transition s k = move s k (transitions k s.status)

-- `_apply_fill` on a fill whose id is known.
unfoldable pub apply_known : OrderState → Fill → Fill → OrderState
apply_known s known f =
    let merged = record s { fills = set_fill f.fill_id (merged_fill known f) s.fills } in
    if fill_eq known f
    then s
    else if same_execution known f
    then (if fees_differ known f
        then note merged
            (Anomaly.different_fee f.fill_id known.fee known.fee_currency f.fee f.fee_currency)
        else merged)
    else note s (Anomaly.different_terms f.fill_id)

-- What is noted about a new fill because of the status that it finds.
unfoldable pub status_notes : OrderStatus → Fill → List Anomaly
status_notes OrderStatus.pending_submit f = Anomaly.before_send f.fill_id ∷ []
status_notes OrderStatus.canceled f = Anomaly.after_terminal f.fill_id OrderStatus.canceled ∷ []
status_notes OrderStatus.expired f = Anomaly.after_terminal f.fill_id OrderStatus.expired ∷ []
status_notes OrderStatus.rejected f = Anomaly.after_terminal f.fill_id OrderStatus.rejected ∷ []
status_notes _ f = []

-- The anomalies that `_apply_fill` notes about a new fill, in the source's order; `u` is the
-- state with the fill counted.
unfoldable pub fill_notes : OrderState → OrderState → Fill → List Anomaly
fill_notes s u f =
    (if not (symbol_eq f.symbol s.request.symbol) || not (side_eq f.side s.request.side)
      then Anomaly.wrong_order f.fill_id f.side f.symbol s.request.side s.request.symbol ∷ []
      else [])
    ++ ((if ltb_ℤ (fill_ceiling u) u.filled_quantity
          then Anomaly.overfill u.filled_quantity (fill_ceiling u) ∷ []
          else [])
        ++ status_notes s.status f)

-- The status after a new fill.
unfoldable pub fill_status : OrderState → OrderState → OrderStatus
fill_status s u =
    if leb_ℤ (fill_ceiling u) u.filled_quantity then OrderStatus.filled else elim s.status [
      | OrderStatus.accepted ↦ OrderStatus.partially_filled
      | OrderStatus.submitting ↦ OrderStatus.partially_filled
      | other ↦ other
    ]

unfoldable pub apply_new : OrderState → Fill → OrderState
apply_new s f =
    let u = record s {
      fills = s.fills ++ f ∷ [];
      filled_quantity = s.filled_quantity +ℤ f.quantity;
      filled_notional = s.filled_notional +ℤ f.price *ℤ f.quantity;
    } in
    record u { anomalies = s.anomalies ++ fill_notes s u f; status = fill_status s u }

-- `_apply_fill`
unfoldable pub apply_fill : OrderState → Fill → OrderState
apply_fill s f =
    if elem f.fill_id s.busted_fill_ids
    then note s (Anomaly.reported_after_bust f.fill_id)
    else elim (find_fill f.fill_id s.fills) [
      | none ↦ apply_new s f
      | some known ↦ apply_known s known f
    ]

-- The status after a bust, by the one before it and the quantity that is left.
abbrev pub bust_status : OrderStatus → Decimal → OrderStatus
bust_status OrderStatus.filled left = OrderStatus.unknown
bust_status OrderStatus.partially_filled left =
    if eqb_ℤ left (pos 0) then OrderStatus.accepted else OrderStatus.partially_filled
bust_status other left = other

-- `_apply_bust` on a fill that is known.
unfoldable pub remove_fill : OrderState → Fill → OrderState
remove_fill s target =
    let left = s.filled_quantity -ℤ target.quantity in
    record s {
      busted_fill_ids = target.fill_id ∷ s.busted_fill_ids;
      fills = drop_fill target.fill_id s.fills;
      filled_quantity = left;
      filled_notional = s.filled_notional -ℤ target.price *ℤ target.quantity;
      status = bust_status s.status left;
    }

unfoldable pub apply_bust : OrderState → Text → OrderState
apply_bust s i = if elem i s.busted_fill_ids then s else elim (find_fill i s.fills) [
  | none ↦ note (record s { busted_fill_ids = i ∷ s.busted_fill_ids }) (Anomaly.bust_of_unknown i)
  | some target ↦ remove_fill s target
]

-- `_apply_restated`
unfoldable pub apply_restated : OrderState → OrderStatus → Option Text → OrderState
apply_restated s status venue_order_id =
    let updated =
      if is_terminal s.status && not (status_eq s.status status)
      then note s (Anomaly.restated_terminal s.status status)
      else s in
    record updated { status = status; venue_order_id = text_or venue_order_id s.venue_order_id }

-- `_note_exposed_overfill`
unfoldable pub note_exposed_overfill : OrderState → OrderState → OrderState
note_exposed_overfill before after =
    if ltb_ℤ (fill_ceiling before) before.filled_quantity
    then after
    else if leb_ℤ after.filled_quantity after.quantity
    then after
    else note after (Anomaly.overfill after.filled_quantity after.quantity)

-- `a or b` on optional decimals: zero is false too.
abbrev pub decimal_or : Option Decimal → Decimal → Decimal
decimal_or none b = b
decimal_or (some a) b = if eqb_ℤ a (pos 0) then b else a

-- The terms that a replace leaves in force.
unfoldable pub take_terms :
    OrderState → OrderState → Option Decimal → Option Decimal → Option Text → OrderState
take_terms s next quantity limit_price venue_order_id = record next {
  quantity = decimal_or quantity (decimal_or s.pending_quantity s.quantity);
  limit_price = or_else limit_price (or_else s.pending_limit_price s.limit_price);
  pending_quantity = none;
  pending_limit_price = none;
  venue_order_id = text_or venue_order_id s.venue_order_id;
}

-- `next_state.status in WORKING_STATUSES or next_state.status is S.FILLED`
abbrev pub settles : OrderStatus → Bool
settles OrderStatus.filled = true
settles status = working_statuses status

-- `_apply_replaced`
unfoldable pub apply_replaced :
    OrderState → OrderState → Option Decimal → Option Decimal → Option Text → OrderState
apply_replaced s next quantity limit_price venue_order_id =
    let noted = note_exposed_overfill s (take_terms s next quantity limit_price venue_order_id) in
    if is_some (transitions Kind.replaced s.status)
    then (if settles next.status then record noted { status = working_status noted } else noted)
    else next

-- `_apply`, past the test of the order's id.
unfoldable pub dispatch : OrderState → EventBody → OrderState
dispatch s (EventBody.intent r) = note s Anomaly.duplicate_intent
dispatch s (EventBody.fill f) = apply_fill s f
dispatch s (EventBody.bust i _) = apply_bust s i
dispatch s (EventBody.restated status v _ _) = apply_restated s status v
dispatch s (EventBody.ack v) = record (transition s Kind.ack) { venue_order_id = some v }
dispatch s (EventBody.reject reason code) = record (transition s Kind.reject) {
  reject_reason = some reason;
  reject_code = code;
}
dispatch s (EventBody.send_started i) = record (transition s Kind.send_started) {
  send_record_id = i;
}
dispatch s (EventBody.replace_requested q p) =
    if is_some (transitions Kind.replace_requested s.status)
    then record (transition s Kind.replace_requested) {
      pending_quantity = q;
      pending_limit_price = p;
    }
    else transition s Kind.replace_requested
dispatch s (EventBody.replaced q p v) = apply_replaced s (transition s Kind.replaced) q p v
dispatch s (EventBody.replace_rejected _ _) =
    note_exposed_overfill s (record (transition s Kind.replace_rejected) {
      pending_quantity = none;
      pending_limit_price = none;
    })
dispatch s (EventBody.cancel_rejected reason code) = record (transition s Kind.cancel_rejected) {
  reject_reason = some reason;
  reject_code = code;
}
dispatch s (EventBody.outcome_unknown _) = transition s Kind.outcome_unknown
dispatch s EventBody.cancel_requested = transition s Kind.cancel_requested
dispatch s (EventBody.canceled _) = transition s Kind.canceled
dispatch s EventBody.expired = transition s Kind.expired

-- `OrderStateError`
pub data OrderStateError : Type 0 where
  wrong_client_order_id no_intent : OrderStateError

pub data Result {ℓ} (A : Type ℓ) : Type ℓ where
  ok : A → Result A
  err : OrderStateError → Result A

-- Requested terms last only while the outcome of the request is open.
unfoldable pub clear_pending : OrderState → OrderState
clear_pending s =
    if keeps_pending s.status || not (has_pending_terms s)
    then s
    else record s { pending_quantity = none; pending_limit_price = none }

unfoldable pub apply_body : OrderState → EventBody → OrderState
apply_body s b = clear_pending (dispatch s b)

unfoldable pub apply_event : OrderState → OrderEvent → Result OrderState
apply_event s e =
    if e.client_order_id == s.request.client_order_id
    then ok (apply_body s e.body)
    else err wrong_client_order_id
