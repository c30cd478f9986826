-- ===== src/Execution/Lifecycle.antt =====
-- The status of an order (src/ismet/execution/state.py): what ends it, what is illegal, and what
-- stays on record.
use ismet.Prelude.{true, Option, none, some, Text, ◌≡◌, refl, ◌⊎◌, arith}
use ismet.Models.Orders.{OrderStatus, EventBody, Fill, is_terminal}
use ismet.Execution.State.{Kind, OrderState}
use ismet.Execution.Apply.{
  Target, move, transition, transitions, apply_known, apply_new, apply_fill, fill_status,
  remove_fill, apply_bust, apply_restated, note_exposed_overfill, apply_replaced, dispatch,
  clear_pending, apply_body,
}

-- The key of `TRANSITIONS` that an event is looked up under, if it is.
abbrev pub kind_of : EventBody → Option Kind
kind_of (EventBody.send_started _) = some Kind.send_started
kind_of (EventBody.ack _) = some Kind.ack
kind_of (EventBody.reject _ _) = some Kind.reject
kind_of (EventBody.outcome_unknown _) = some Kind.outcome_unknown
kind_of EventBody.cancel_requested = some Kind.cancel_requested
kind_of (EventBody.canceled _) = some Kind.canceled
kind_of (EventBody.cancel_rejected _ _) = some Kind.cancel_rejected
kind_of (EventBody.replace_requested _ _) = some Kind.replace_requested
kind_of (EventBody.replaced _ _ _) = some Kind.replaced
kind_of (EventBody.replace_rejected _ _) = some Kind.replace_rejected
kind_of EventBody.expired = some Kind.expired
kind_of _ = none

-- What an event may do to the status `x` of an order that has ended, with `y` the status after.
abbrev pub AllowedAfter : EventBody → OrderStatus → OrderStatus → Type 0
AllowedAfter (EventBody.fill _) x y = (y ≡ x) ⊎ (y ≡ OrderStatus.filled)
AllowedAfter (EventBody.bust _ _) x y =
    (y ≡ x) ⊎ ((x ≡ OrderStatus.filled) × (y ≡ OrderStatus.unknown))
AllowedAfter (EventBody.restated status _ _ _) x y = y ≡ status
AllowedAfter _ x y = y ≡ x

-- The target of a lifecycle event in a terminal status is that status, or there is none.
terminal_target :
    (k : Kind) (x : OrderStatus)
    → is_terminal x ≡ true
    → (transitions k x ≡ none) ⊎ (transitions k x ≡ some (Target.to x))
unfolding transitions
terminal_target k x h = ground arith

transition_terminal :
    (s : OrderState) (k : Kind) → is_terminal s.status ≡ true → (transition s k).status ≡ s.status
unfolding transition move
transition_terminal s k h = ground (arith, terminal_target k s.status h)

pub note_exposed_overfill-status :
    (s t : OrderState) → (note_exposed_overfill s t).status ≡ t.status
unfolding note_exposed_overfill
note_exposed_overfill-status s t = ground arith

pub clear_pending-status : (s : OrderState) → (clear_pending s).status ≡ s.status
unfolding clear_pending
clear_pending-status s = ground arith

no_terms_after_end : (x : OrderStatus) → is_terminal x ≡ true → transitions Kind.replaced x ≡ none
unfolding transitions
no_terms_after_end x h = ground arith

apply_fill_terminal :
    (s : OrderState) (f : Fill)
    → is_terminal s.status ≡ true
    → ((apply_fill s f).status ≡ s.status) ⊎ ((apply_fill s f).status ≡ OrderStatus.filled)
unfolding apply_fill apply_known apply_new fill_status
apply_fill_terminal s f h = ground arith

apply_bust_terminal :
    (s : OrderState) (i : Text)
    → is_terminal s.status ≡ true
    → AllowedAfter (EventBody.bust i i) s.status (apply_bust s i).status
unfolding apply_bust remove_fill
apply_bust_terminal s i h = ground arith

dispatch_terminal :
    (s : OrderState) (b : EventBody)
    → is_terminal s.status ≡ true
    → AllowedAfter b s.status (dispatch s b).status
unfolding dispatch
dispatch_terminal s (EventBody.fill f) h = apply_fill_terminal s f h
dispatch_terminal s (EventBody.bust i _) h = apply_bust_terminal s i h
dispatch_terminal s (EventBody.intent r) h = refl
dispatch_terminal s (EventBody.restated x v q r) h = unfold apply_restated in refl
dispatch_terminal s (EventBody.send_started i) h = transition_terminal s _ h
dispatch_terminal s (EventBody.ack v) h = transition_terminal s _ h
dispatch_terminal s (EventBody.reject r c) h = transition_terminal s _ h
dispatch_terminal s (EventBody.outcome_unknown r) h = transition_terminal s _ h
dispatch_terminal s EventBody.cancel_requested h = transition_terminal s _ h
dispatch_terminal s (EventBody.canceled r) h = transition_terminal s _ h
dispatch_terminal s (EventBody.cancel_rejected r c) h = transition_terminal s _ h
dispatch_terminal s (EventBody.replace_requested q p) h =
    ground (arith, transition_terminal s Kind.replace_requested h)
dispatch_terminal s (EventBody.replaced q p v) h =
    unfold apply_replaced in
    rw (no_terms_after_end s.status h) (transition_terminal s Kind.replaced h)
dispatch_terminal s (EventBody.replace_rejected r c) h =
    rw note_exposed_overfill-status (transition_terminal s Kind.replace_rejected h)
dispatch_terminal s EventBody.expired h = transition_terminal s _ h

-- An order that has ended (filled, canceled, rejected or expired) keeps its status under every
-- event, but for three: a fill may make it filled, a bust may make a filled order unknown, and a
-- restatement by the venue sets the status that it states.
pub terminal_kept :
    (s : OrderState) (b : EventBody)
    → is_terminal s.status ≡ true
    → AllowedAfter b s.status (apply_body s b).status
unfolding apply_body
terminal_kept s b h = rw (clear_pending-status (dispatch s b)) (dispatch_terminal s b h)
