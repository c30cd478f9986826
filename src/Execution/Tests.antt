-- ===== src/Execution/Tests.antt =====
-- Runs of the order state machine, and its theorems at them.
use ismet.Prelude.{false, none, some, List, [], ◌∷◌, pos, ◌≡◌, refl, ◌+ℤ◌, ◌*ℤ◌, arith}
use ismet.Prelude.Dict.{lookup, insert}
use ismet.Models.Symbol.{Symbol}
use ismet.Models.Orders.{
  OrderStatus, OrderRequest, Fill, EventBody, OrderEvent, Liquidity, limit, day, not_short, buy,
  venue,
}
use ismet.Execution.State.{Kind, Anomaly, OrderState, new_order, fill_ceiling}
use ismet.Execution.Reports.{find_fill}
use ismet.Execution.Apply.{
  ok, apply_body, dispatch, clear_pending, transition, move, transitions, apply_fill, apply_new,
  fill_notes, status_notes, fill_status,
}
use ismet.Execution.Books.{IsBooked, apply_body-IsBooked}
use ismet.Execution.Lifecycle.{terminal_kept}
use ismet.Execution.Illegal.{IsNoted, illegal-IsNoted}
use ismet.Execution.Counting.{
  IsNew, IsCounted, IsUndone, Mentions, fill-IsCounted, overfill_noted, bust_undoes,
}
use ismet.Execution.Replay.{Orders, replay, replay_from, replay_step, step_held}
use ismet.Execution.Replay.Laws.{history, replay-lookup}
use ismet.Execution.Replay.Total.{opened, replay_total}

abbrev btc : Symbol
btc = record {
  venue = 5;
  ticker = 6;
  isin = none;
  figi = none;
  cusip = none;
  sedol = none;
  vendor_codes = [];
}

abbrev request : OrderRequest
request = record {
  client_order_id = 1;
  symbol = btc;
  side = buy;
  quantity = pos 10;
  order_type = limit;
  time_in_force = day;
  limit_price = some (pos 100);
  stop_price = none;
  expire_at = none;
  account = none;
  strategy = none;
  short_sale = not_short;
  post_only = false;
  reduce_only = false;
}

abbrev first_fill : Fill
first_fill = record {
  fill_id = 7;
  client_order_id = 1;
  symbol = btc;
  side = buy;
  price = pos 99;
  quantity = pos 4;
  ts = 20;
  venue_order_id = none;
  fee = none;
  fee_currency = none;
  liquidity = Liquidity.unknown;
}

abbrev big_fill : Fill
big_fill = record first_fill { fill_id = 8; quantity = pos 30 }

abbrev working : OrderState
working = record {
  request = request;
  status = OrderStatus.accepted;
  quantity = pos 10;
  limit_price = some (pos 100);
  venue_order_id = none;
  filled_quantity = pos 0;
  filled_notional = pos 0;
  fills = [];
  pending_quantity = none;
  pending_limit_price = none;
  reject_reason = none;
  reject_code = none;
  anomalies = [];
  busted_fill_ids = [];
  send_record_id = none;
}

abbrev ended : OrderState
ended = record working { status = OrderStatus.canceled }

abbrev event : EventBody → OrderEvent
event b = record { client_order_id = 1; ts = 0; origin = venue; body = b }

abbrev life : List OrderEvent
life =
    event (EventBody.intent request)
    ∷ event (EventBody.send_started none)
    ∷ event (EventBody.fill first_fill)
    ∷ event (EventBody.canceled 0)
    ∷ []

working-IsBooked : IsBooked working
working-IsBooked = record {
  quantity_counted = refl;
  notional_counted = refl;
  distinct = tt;
  busted_out = tt;
}

working-IsNew : (f : Fill) → IsNew working f
unfolding find_fill
working-IsNew f = record { not_busted = refl; not_known = refl }

ended-IsNew : IsNew ended first_fill
unfolding find_fill
ended-IsNew = record { not_busted = refl; not_known = refl }

-- The life of the order above: a fill of 4 at 99, then a cancel.
life_filled :
    (apply_body
      (apply_body working (EventBody.fill first_fill))
      (EventBody.canceled 0)).filled_notional
    ≡ pos 396
unfolding apply_body dispatch clear_pending transition move transitions apply_fill apply_new
    fill_notes status_notes fill_status find_fill ◌+ℤ◌ ◌*ℤ◌ fill_ceiling
life_filled = refl

apply_body-IsBooked_example : IsBooked (apply_body working (EventBody.fill first_fill))
apply_body-IsBooked_example =
    apply_body-IsBooked working (EventBody.fill first_fill) working-IsBooked

terminal_kept_example : (apply_body ended (EventBody.ack 3)).status ≡ OrderStatus.canceled
terminal_kept_example = terminal_kept ended (EventBody.ack 3) refl

illegal-IsNoted_example :
    IsNoted ended Kind.cancel_requested (apply_body ended EventBody.cancel_requested)
illegal-IsNoted_example =
    illegal-IsNoted ended EventBody.cancel_requested Kind.cancel_requested refl
      (unfold transitions in refl)

fill-IsCounted_example : IsCounted ended first_fill (apply_body ended (EventBody.fill first_fill))
fill-IsCounted_example = fill-IsCounted ended first_fill ended-IsNew

overfill_noted_example :
    let t = apply_body working (EventBody.fill big_fill) in
    Mentions (Anomaly.overfill (pos 0 +ℤ pos 30) (fill_ceiling working)) t.anomalies
    × (t.status ≡ OrderStatus.filled)
unfolding fill_ceiling ◌+ℤ◌
overfill_noted_example = overfill_noted working big_fill (working-IsNew big_fill) (omega arith)

bust_undoes_example :
    IsUndone working first_fill
      (apply_body (apply_body working (EventBody.fill first_fill)) (EventBody.bust 7 0))
bust_undoes_example = bust_undoes working first_fill 0 (working-IsNew first_fill)

abbrev busted : OrderState
busted = record working { busted_fill_ids = 7 ∷ [] }

abbrev asked : OrderState
asked = record working { status = OrderStatus.pending_replace; pending_quantity = some (pos 20) }

asked_then_expired : (apply_body asked EventBody.expired).status ≡ OrderStatus.expired
unfolding apply_body dispatch clear_pending transition move transitions
asked_then_expired = refl

replay_total_example : (orders : Orders) × (replay life ≡ ok orders)
replay_total_example = replay_total life (unfold opened in refl)

abbrev opening : List OrderEvent
opening = event (EventBody.intent request) ∷ []

opening_replays : replay opening ≡ ok ((1, new_order request) ∷ [])
unfolding replay replay_from replay_step step_held lookup insert
opening_replays = refl

replay-lookup_example : lookup 1 ((1, new_order request) ∷ []) ≡ history 1 none opening
replay-lookup_example = replay-lookup opening ((1, new_order request) ∷ []) 1 opening_replays
