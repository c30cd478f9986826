-- ===== src/Execution/Replay/Laws.antt =====
-- What `replay` (src/ismet/execution/state.py) makes of a history: each order is the fold of its
-- own events, whatever stands between them.
use ismet.Prelude.{
  Option, none, some, List, [], ◌∷◌, Text, ◌==◌, ◌≡◌, refl, sym, ap, ◌∙◌, inl, inr, arith,
  Bool-cases, if◌then◌else◌,
}
use ismet.Prelude.Dict.{lookup, lookup-insert}
use mathlib.Core.Path.{subst}
use ismet.Models.Orders.{EventBody, OrderEvent}
use ismet.Execution.State.{OrderState, new_order}
use ismet.Execution.Apply.{ok, apply_event, apply_body}
use ismet.Execution.Books.{IsBooked, new_order-IsBooked, apply_body-IsBooked}
use ismet.Execution.Replay.{first_ok, Orders, step_held, replay_step, replay_from, replay}

-- One order's own history: the first event opens it by an intent, each later one is applied.
abbrev pub advance : Option OrderState → EventBody → Option OrderState
advance none (EventBody.intent r) = some (new_order r)
advance none b = none
advance (some s) b = some (apply_body s b)

-- The fold over the events with the id `c`, with the others passed over.
unfoldable pub history : Text → Option OrderState → List OrderEvent → Option OrderState
history c o [] = o
history c o (e ∷ es) = history c (if e.client_order_id == c then advance o e.body else o) es

step_held-lookup :
    (orders after : Orders) (e : OrderEvent) (o : Option OrderState) (b : EventBody) (c : Text)
    → e.body ≡ b
    → lookup e.client_order_id orders ≡ o
    → step_held orders e o b ≡ ok after
    → lookup c after
      ≡ (if e.client_order_id == c then advance (lookup c orders) b else lookup c orders)
unfolding step_held apply_event
step_held-lookup orders after e none (EventBody.intent r) c eb h k =
    ground (arith, lookup-insert e.client_order_id c (new_order r) orders)
step_held-lookup orders after e none b c eb h k = cc
step_held-lookup orders after e (some s) b c eb h k =
    ground (arith, lookup-insert e.client_order_id c (apply_body s e.body) orders)

replay_step-lookup :
    (orders after : Orders) (e : OrderEvent) (c : Text)
    → replay_step orders e ≡ ok after
    → lookup c after
      ≡ (if e.client_order_id == c then advance (lookup c orders) e.body else lookup c orders)
unfolding replay_step
replay_step-lookup orders after e c h = step_held-lookup orders after e _ e.body c refl refl h

replay_from-lookup :
    (es : List OrderEvent) (orders after : Orders) (c : Text)
    → replay_from orders es ≡ ok after
    → lookup c after ≡ history c (lookup c orders) es
unfolding replay_from history
replay_from-lookup [] orders after c h = ground arith
replay_from-lookup (e ∷ es) orders after c h =
    let (mid, rest, first) = first_ok (λ o. replay_from o es) (replay_step orders e) h in
    replay_from-lookup es mid after c rest
    ∙ ap (λ o. history c o es) (replay_step-lookup orders mid e c first)

-- Whatever the interleaving, a replay gives every order the state that its own events give it, one
-- after the other from its intent, and holds no order without one.
pub replay-lookup :
    (es : List OrderEvent) (orders : Orders) (c : Text)
    → replay es ≡ ok orders
    → lookup c orders ≡ history c none es
unfolding replay lookup
replay-lookup es orders c h = replay_from-lookup es [] orders c h

-- An order, where there is one, is booked.
abbrev pub BookedOrNone : Option OrderState → Type 0
BookedOrNone none = Unit
BookedOrNone (some s) = IsBooked s

advance-Booked :
    (o : Option OrderState) (b : EventBody) → BookedOrNone o → BookedOrNone (advance o b)
advance-Booked (some s) b h = apply_body-IsBooked s b h
advance-Booked none (EventBody.intent r) h = new_order-IsBooked r
advance-Booked none b h = tt

history-Booked :
    (es : List OrderEvent) (c : Text) (o : Option OrderState)
    → BookedOrNone o
    → BookedOrNone (history c o es)
unfolding history
history-Booked [] c o h = h
history-Booked (e ∷ es) c o h = elim (Bool-cases (e.client_order_id == c)) [
  | inl own ↦ rw own (history-Booked es c (advance o e.body) (advance-Booked o e.body h))
  | inr other ↦ rw other (history-Booked es c o h)
]

-- After any history that replays, every order's filled quantity and notional are the sums over
-- its fills, its fills have distinct ids, and none of them is busted.
pub replay-IsBooked :
    (es : List OrderEvent) (orders : Orders) (c : Text) (s : OrderState)
    → replay es ≡ ok orders
    → lookup c orders ≡ some s
    → IsBooked s
replay-IsBooked es orders c s h found =
    subst BookedOrNone (sym (replay-lookup es orders c h) ∙ found) (history-Booked es c none tt)
