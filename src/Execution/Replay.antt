-- ===== src/Execution/Replay.antt =====
-- src/ismet/execution/state.py: `replay`, from an event history to every order's state.
use ismet.Prelude.{Option, none, some, List, [], ◌∷◌, Text, ◌≡◌, refl}
use ismet.Prelude.Dict.{Dict, lookup, insert}
use ismet.Models.Orders.{EventBody, OrderEvent}
use ismet.Execution.State.{OrderState, new_order}
use ismet.Execution.Apply.{OrderStateError, no_intent, Result, ok, err, apply_event}
pub mod Laws
pub mod Total

-- An error, which is a Python exception, ends what follows it.
module _ {ℓ κ} {A : Type ℓ} {B : Type κ} where
  infixl 5 ◌>>=◌
  abbrev pub ◌>>=◌ : Result A → (A → Result B) → Result B
  err raised >>= next = err raised
  ok value >>= next = next value

abbrev pub Orders : Type 0
Orders = Dict OrderState

-- The body of the loop, by what `orders` holds under the event's id.
unfoldable pub step_held : Orders → OrderEvent → Option OrderState → EventBody → Result Orders
step_held orders e none (EventBody.intent r) = ok (insert e.client_order_id (new_order r) orders)
step_held orders e none b = err no_intent
step_held orders e (some s) b = do s' ← apply_event s e; ok (insert e.client_order_id s' orders)

unfoldable pub replay_step : Orders → OrderEvent → Result Orders
replay_step orders e = step_held orders e (lookup e.client_order_id orders) e.body

unfoldable pub replay_from : Orders → List OrderEvent → Result Orders
replay_from orders [] = ok orders
replay_from orders (e ∷ es) = do orders' ← replay_step orders e; replay_from orders' es

unfoldable pub replay : List OrderEvent → Result Orders
replay es = replay_from [] es

-- A replay that went on after `first` had a result there.
pub first_ok :
    {done : Orders} (next : Orders → Result Orders) (first : Result Orders)
    → (first >>= next) ≡ ok done
    → (mid : Orders) × (next mid ≡ ok done) × (first ≡ ok mid)
first_ok next (err raised) went_on = cc
first_ok next (ok mid) went_on = (mid, went_on, refl)
