-- ===== src/Risk/Tests.antt =====
-- The checks of src/ismet/execution/risk.py at concrete orders.
use ismet.Prelude.{
  ◌≤◌, true, false, none, some, [], ◌∷◌, Decimal, pos, ◌≡◌, refl, ◌⊎◌, inr, ◌≤ℤ◌, abs, ◌+ℤ◌, ◌*ℤ◌,
  ◌-ℤ◌, max_ℤ, arith,
}
use mathlib.Core.List.{Memᴰ}
use ismet.Models.Symbol.{Symbol}
use ismet.Models.Orders.{buy, sell, OrderRequest, OrderStatus, limit, day, not_short}
use ismet.Execution.State.{OrderState, leaves_quantity, is_open}
use ismet.Risk.Checks.{
  RiskContext, RiskConfig, RiskLimits, rejected, reduce_only_grows, self_match, check_reduce_only,
  reduce_only_at, check_position, position_at, sum_leaves, sum_leaves_from, self_match_in,
  check_self_match, check_size, notional, pricing_for_notional, reference_price,
}
use ismet.Risk.Windows.{
  allowed_otherwise, check_rates, check_rate, count, prune, record_sent, new_order_at,
  check_duplicate, submit_all, submit, forget, seen_in, record_recent, same_fingerprint,
}
use ismet.Prelude.Dict.{lookup}
use ismet.Risk.Scopes.{account_scope, count_open, limits_for, in_scope, check_open_orders}
use ismet.Risk.Held.{held, occurrences, open_orders_bounded}
use ismet.Risk.Rate.{in_second, rate_bounded}
use ismet.Risk.Duplicates.{duplicate_refused}
use ismet.Risk.Position.{moved, Reduces, reduce_only-Reduces, position_bounded}
use ismet.Risk.Resting.{DoNotCross, self_match_prevented}
use ismet.Risk.Notional.{notional_bounded}

abbrev share : Symbol
share = record {
  venue = 5;
  ticker = 6;
  isin = none;
  figi = none;
  cusip = none;
  sedol = none;
  vendor_codes = [];
}

abbrev sale : OrderRequest
sale = record {
  client_order_id = 1;
  symbol = share;
  side = sell;
  quantity = pos 4;
  order_type = limit;
  time_in_force = day;
  limit_price = some (pos 100);
  stop_price = none;
  expire_at = none;
  account = none;
  strategy = none;
  short_sale = not_short;
  post_only = false;
  reduce_only = true;
}

abbrev resting_sale : OrderState
resting_sale = record {
  request = record sale { client_order_id = 2; quantity = pos 3 };
  status = OrderStatus.accepted;
  quantity = pos 3;
  limit_price = some (pos 100);
  venue_order_id = none;
  filled_quantity = pos 0;
  filled_notional = pos 0;
  fills = [];
  pending_quantity = none;
  pending_limit_price = none;
  reject_reason = none;
  reject_code = none;
  anomalies = [];
  busted_fill_ids = [];
  send_record_id = none;
}

abbrev resting_buy : OrderState
resting_buy = record resting_sale {
  request = record sale { client_order_id = 3; side = buy; limit_price = some (pos 90) };
  quantity = pos 4;
  limit_price = some (pos 90);
}

abbrev context : RiskContext
context = record {
  request = sale;
  instrument = none;
  reference = some (record { bid = some (pos 95); ask = some (pos 97); last = none });
  open_orders = resting_sale ∷ resting_buy ∷ [];
  position = some (pos 8);
  supports_short = none;
  locate_available = false;
  gross_notional = none;
}

abbrev limits : RiskLimits
limits = record {
  max_order_quantity = none;
  max_order_notional = some (pos 500);
  max_position = some (pos 5);
  max_gross_notional = none;
  max_open_orders = none;
  max_orders_per_second = none;
  price_collar_bps = none;
}

abbrev config : RiskConfig
config = record {
  limit_currency = none;
  allow_short = false;
  prevent_self_match = true;
  block_while_unknown = true;
}

-- The sale of 4 beside one of 3 may close at most a position of 8.
too_small_position :
    check_reduce_only (record context { position = some (pos 6) }) ≡ rejected reduce_only_grows
unfolding check_reduce_only reduce_only_at sum_leaves sum_leaves_from leaves_quantity is_open max_ℤ
    ◌-ℤ◌ ◌+ℤ◌ ◌*ℤ◌
too_small_position = refl

-- A bid at 100 crosses the sale's price.
crossing_bid :
    check_self_match
      (record context {
        open_orders = record resting_buy { pending_limit_price = some (pos 100) } ∷ [];
      })
      config
    ≡ rejected self_match
unfolding check_self_match self_match_in
crossing_bid = refl

reduce_only-Reduces_example : (p : Decimal) × (some (pos 8) ≡ some p) × Reduces p (moved p sell 5)
unfolding check_reduce_only reduce_only_at sum_leaves sum_leaves_from leaves_quantity is_open max_ℤ
    ◌-ℤ◌ ◌+ℤ◌ ◌*ℤ◌
reduce_only-Reduces_example = reduce_only-Reduces context 5 refl refl (omega arith)

position_bounded_example :
    (p : Decimal) × (some (pos 8) ≡ some p)
    × ((abs (moved p sell 7) ≤ℤ pos 5) ⊎ Reduces p (moved p sell 7))
unfolding check_position position_at sum_leaves sum_leaves_from leaves_quantity is_open max_ℤ ◌-ℤ◌
    ◌+ℤ◌ ◌*ℤ◌ abs
position_bounded_example = position_bounded context limits 7 refl refl (omega arith)

self_match_prevented_example : DoNotCross sale resting_buy
unfolding check_self_match self_match_in
self_match_prevented_example =
    self_match_prevented context config resting_buy refl refl (Memᴰ.tail (Memᴰ.head refl)) refl refl

-- At 100, its limit, and at 95, the bid.
notional_bounded_example : notional context (pos 95) ≤ℤ pos 500
unfolding check_size notional pricing_for_notional reference_price max_ℤ abs ◌*ℤ◌
notional_bounded_example = notional_bounded context limits (pos 95) refl refl (inr refl)

-- Two orders a second: the third within a second is refused.
rate_bounded_example :
    in_second 10 9
      (check_rates 10 2
        ([], [])
        (allowed_otherwise 1 ∷ allowed_otherwise 5 ∷ allowed_otherwise 9 ∷ [])).1
    ≤ 2
rate_bounded_example =
    rate_bounded 10 2 (allowed_otherwise 1 ∷ allowed_otherwise 5 ∷ allowed_otherwise 9 ∷ []) 9
      (omega arith, (omega arith, (omega arith, tt)))

third_refused :
    (check_rates 10 2
      ([], [])
      (allowed_otherwise 1
        ∷ allowed_otherwise 5
        ∷ allowed_otherwise 9
        ∷ allowed_otherwise 11
        ∷ [])).1
    ≡ 1 ∷ 5 ∷ 11 ∷ []
unfolding check_rates check_rate count prune record_sent
third_refused = refl

duplicate_refused_example :
    (check_duplicate 10 8 sale (submit_all 10 ([], []) (new_order_at 2 sale ∷ [])).0).1 ≡ true
unfolding submit_all submit check_duplicate forget seen_in record_recent
duplicate_refused_example =
    duplicate_refused 10 8 2 sale sale (new_order_at 2 sale ∷ []) (omega arith)
      (omega arith, omega arith) (Memᴰ.head refl) (unfold same_fingerprint in refl) (omega arith)

-- Two open orders and a new one of the account 9, under a limit of three for it.
open_orders_bounded_example :
    let own = record resting_sale { request = record sale { account = some 9 } } in
    held (λ symbol. symbol.ticker) (account_scope 9) (own ∷ own ∷ own ∷ []) ≤ 3
unfolding limits_for lookup check_open_orders count_open in_scope occurrences
open_orders_bounded_example =
    let own = record resting_sale { request = record sale { account = some 9 } } in
    let three = record limits { max_open_orders = some 3 } in
    open_orders_bounded (λ symbol. symbol.ticker)
      (record {
        default_limits = limits;
        per_account = (9, three) ∷ [];
        per_strategy = [];
        per_symbol = [];
      })
      (own ∷ own ∷ []) own (account_scope 9) three (refl, (refl, tt)) refl refl (omega arith)
