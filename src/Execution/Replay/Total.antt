-- ===== src/Execution/Replay/Total.antt =====
-- When `replay` (src/ismet/execution/state.py) raises nothing: every order is opened by its own
-- intent.
use ismet.Prelude.{
  Bool, true, false, Option, none, some, List, [], ◌∷◌, Text, ◌==◌, ◌&&◌, ◌||◌, ==_iff, ◌≡◌, ◌≢◌,
  Decimal, refl, sym, ap, ◌∙◌, inl, inr, arith, elem, Bool-cases, Option-cases,
}
use ismet.Prelude.Dict.{lookup, insert, lookup-insert}
use ismet.Models.Orders.{EventBody, OrderEvent, OrderRequest, Fill}
use ismet.Execution.State.{Kind, OrderState, new_order}
use ismet.Execution.Apply.{
  ok, move, transition, apply_fill, apply_known, apply_new, apply_bust, remove_fill, apply_restated,
  apply_replaced, take_terms, note_exposed_overfill, dispatch, clear_pending, apply_event,
  apply_body,
}
use ismet.Execution.Replay.{Orders, step_held, replay_step, replay_from, replay}

transition-request : (s : OrderState) (k : Kind) → (transition s k).request ≡ s.request
unfolding transition move
transition-request s k = ground arith

apply_fill-request : (s : OrderState) (f : Fill) → (apply_fill s f).request ≡ s.request
unfolding apply_fill apply_known apply_new
apply_fill-request s f = ground arith

apply_bust-request : (s : OrderState) (i : Text) → (apply_bust s i).request ≡ s.request
unfolding apply_bust remove_fill
apply_bust-request s i = ground arith

note_exposed_overfill-request : (s t : OrderState) → (note_exposed_overfill s t).request ≡ t.request
unfolding note_exposed_overfill
note_exposed_overfill-request s t = ground arith

apply_replaced-request :
    (s n : OrderState) (q p : Option Decimal) (v : Option Text)
    → (apply_replaced s n q p v).request ≡ n.request
unfolding apply_replaced take_terms
apply_replaced-request s n q p v =
    ground (arith, note_exposed_overfill-request s (take_terms s n q p v))

dispatch-request : (s : OrderState) (b : EventBody) → (dispatch s b).request ≡ s.request
unfolding dispatch
dispatch-request s (EventBody.fill f) = apply_fill-request s f
dispatch-request s (EventBody.bust i _) = apply_bust-request s i
dispatch-request s (EventBody.intent r) = refl
dispatch-request s (EventBody.restated x v q r) = unfold apply_restated in ground arith
dispatch-request s (EventBody.send_started i) = transition-request s _
dispatch-request s (EventBody.ack v) = transition-request s _
dispatch-request s (EventBody.reject r c) = transition-request s _
dispatch-request s (EventBody.outcome_unknown r) = transition-request s _
dispatch-request s EventBody.cancel_requested = transition-request s _
dispatch-request s (EventBody.canceled r) = transition-request s _
dispatch-request s (EventBody.cancel_rejected r c) = transition-request s _
dispatch-request s (EventBody.replace_requested q p) =
    ground (arith, transition-request s Kind.replace_requested)
dispatch-request s (EventBody.replaced q p v) =
    apply_replaced-request s _ q p v ∙ transition-request s Kind.replaced
dispatch-request s (EventBody.replace_rejected r c) =
    note_exposed_overfill-request s _ ∙ transition-request s Kind.replace_rejected
dispatch-request s EventBody.expired = transition-request s _

pub apply_body-request : (s : OrderState) (b : EventBody) → (apply_body s b).request ≡ s.request
unfolding apply_body clear_pending
apply_body-request s b = ground (arith, dispatch-request s b)

-- An intent whose request has the event's own id.
abbrev pub opens : OrderEvent → EventBody → Bool
opens e (EventBody.intent r) = r.client_order_id == e.client_order_id
opens e b = false

-- Every event is of an order that an intent has opened; the ids `seen` are open.
unfoldable pub opened : List Text → List OrderEvent → Bool
opened seen [] = true
opened seen (e ∷ es) =
    (elem e.client_order_id seen || opens e e.body) && opened (e.client_order_id ∷ seen) es

-- Each order is held under its own id.
abbrev OwnIds : Orders → Type 0
OwnIds orders =
    (c : Text) (s : OrderState) → lookup c orders ≡ some s → s.request.client_order_id ≡ c

-- There is an order under each id of `seen`.
abbrev Present : List Text → Orders → Type 0
Present seen orders = (c : Text) → elem c seen ≡ true → lookup c orders ≢ none

OwnIds-insert :
    (k : Text) (s : OrderState) (orders : Orders)
    → s.request.client_order_id ≡ k
    → OwnIds orders
    → OwnIds (insert k s orders)
OwnIds-insert k s orders own h c t found =
    let e = lookup-insert k c s orders in
    elim (Bool-cases (k == c)) [
      | inl here ↦
          let same : s ≡ t = ground arith in
          ap (λ (x : OrderState). x.request.client_order_id) (sym same) ∙ own ∙ (==_iff k c).0 here
      | inr there ↦ h c t (ground arith)
    ]

Present-insert :
    (seen : List Text) (k : Text) (s : OrderState) (orders : Orders)
    → Present seen orders
    → Present (k ∷ seen) (insert k s orders)
Present-insert seen k s orders h c e gone =
    let l = lookup-insert k c s orders in
    elim (Bool-cases (k == c)) [
      | inl here ↦ ground arith
      | inr there ↦ h c (ground arith) (ground arith)
    ]

opens_intent :
    (e : OrderEvent) (b : EventBody)
    → opens e b ≡ true
    → (r : OrderRequest) × (b ≡ EventBody.intent r) × (r.client_order_id ≡ e.client_order_id)
opens_intent e (EventBody.intent r) h = (r, refl, (==_iff _ _).0 h)
opens_intent e _ h = cc

-- What one step leaves, for the rest of the history.
abbrev Steps : List Text → Orders → OrderEvent → Type 0
Steps seen orders e =
    (after : Orders) × (replay_step orders e ≡ ok after)
    × OwnIds after
    × Present (e.client_order_id ∷ seen) after

step_new :
    (seen : List Text) (orders : Orders) (e : OrderEvent)
    → OwnIds orders
    → Present seen orders
    → (elem e.client_order_id seen || opens e e.body) ≡ true
    → lookup e.client_order_id orders ≡ none
    → Steps seen orders e
unfolding replay_step step_held
step_new seen orders e own present h absent =
    let fresh : elem e.client_order_id seen ≡ true → ⊥ = λ m. present e.client_order_id m absent in
    let (r, body, same) = opens_intent e e.body (ground (arith, fresh)) in
    let s = new_order r in
    let own' : s.request.client_order_id ≡ e.client_order_id = unfold new_order in same in
    (
      insert e.client_order_id s orders,
      rw absent (ap (step_held orders e none) body),
      OwnIds-insert e.client_order_id s orders own' own,
      Present-insert seen e.client_order_id s orders present,
    )

step_more :
    (seen : List Text) (orders : Orders) (e : OrderEvent) (s : OrderState)
    → OwnIds orders
    → Present seen orders
    → lookup e.client_order_id orders ≡ some s
    → Steps seen orders e
unfolding replay_step step_held apply_event
step_more seen orders e s own present found =
    let same = own e.client_order_id s found in
    let s' = apply_body s e.body in
    let own' = ap (λ (r : OrderRequest). r.client_order_id) (apply_body-request s e.body) ∙ same in
    (
      insert e.client_order_id s' orders,
      rw (found, (==_iff e.client_order_id s.request.client_order_id).1 (sym same)) refl,
      OwnIds-insert e.client_order_id s' orders own' own,
      Present-insert seen e.client_order_id s' orders present,
    )

step_total :
    (seen : List Text) (orders : Orders) (e : OrderEvent)
    → OwnIds orders
    → Present seen orders
    → (elem e.client_order_id seen || opens e e.body) ≡ true
    → Steps seen orders e
step_total seen orders e own present h = elim (Option-cases (lookup e.client_order_id orders)) [
  | inl absent ↦ step_new seen orders e own present h absent
  | inr (s, found) ↦ step_more seen orders e s own present found
]

replay_from_total :
    (es : List OrderEvent) (seen : List Text) (orders : Orders)
    → OwnIds orders
    → Present seen orders
    → opened seen es ≡ true
    → (after : Orders) × (replay_from orders es ≡ ok after)
unfolding replay_from opened
replay_from_total [] seen orders own present h = (orders, refl)
replay_from_total (e ∷ es) seen orders own present h =
    let (mid, first, own', present') = step_total seen orders e own present (ground arith) in
    let (after, rest) =
      replay_from_total es (e.client_order_id ∷ seen) mid own' present' (ground arith) in
    (after, rw first rest)

-- A history replays without an error if each order's first event is an intent whose request has
-- the event's own client order id; nothing else about the events can make it raise.
pub replay_total :
    (es : List OrderEvent) → opened [] es ≡ true → (orders : Orders) × (replay es ≡ ok orders)
unfolding replay
replay_total es h = replay_from_total es [] [] (λ c s e. unfold lookup in cc) (λ c e. cc) h
