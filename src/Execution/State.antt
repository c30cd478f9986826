-- ===== src/Execution/State.antt =====
-- src/ismet/execution/state.py: the state of one order and what is read from it. An anomaly is a
-- constructor that holds what the source puts into the message.
use ismet.Prelude.{
  Bool, not, ◌||◌, Option, none, some, List, [], ◌∷◌, ◌++◌, Text, Decimal, pos, ◌-ℤ◌, max_ℤ, ltb_ℤ,
  leb_ℤ, if◌then◌else◌,
}
use ismet.Models.Symbol.{Symbol}
use ismet.Models.Orders.{OrderSide, OrderStatus, OrderRequest, Fill, is_terminal, is_some}

-- The `kind` of a lifecycle event, the key of `TRANSITIONS`.
pub data Kind : Type 0 where
  send_started ack reject outcome_unknown cancel_requested canceled : Kind
  cancel_rejected replace_requested replaced replace_rejected expired : Kind

pub data Anomaly : Type 0 where
  reported_after_bust : (fill_id : Text) → Anomaly
  different_fee :
      (fill_id : Text) (known : Option Decimal) (known_currency : Option Text)
      (reported : Option Decimal) (reported_currency : Option Text)
      → Anomaly
  different_terms : (fill_id : Text) → Anomaly
  wrong_order :
      (fill_id : Text) (side : OrderSide) (symbol : Symbol) (order_side : OrderSide)
      (order_symbol : Symbol)
      → Anomaly
  overfill : (filled : Decimal) (ceiling : Decimal) → Anomaly
  before_send : (fill_id : Text) → Anomaly
  after_terminal : (fill_id : Text) (status : OrderStatus) → Anomaly
  bust_of_unknown : (fill_id : Text) → Anomaly
  restated_terminal : (was : OrderStatus) (now : OrderStatus) → Anomaly
  illegal_transition : (kind : Kind) (status : OrderStatus) → Anomaly
  duplicate_intent : Anomaly

pub record OrderState : Type 0 where
  pub request : OrderRequest
  pub status : OrderStatus
  pub quantity : Decimal
  pub limit_price : Option Decimal
  pub venue_order_id : Option Text
  pub filled_quantity : Decimal
  pub filled_notional : Decimal
  pub fills : List Fill
  pub pending_quantity : Option Decimal
  pub pending_limit_price : Option Decimal
  pub reject_reason : Option Text
  pub reject_code : Option Text
  pub anomalies : List Anomaly
  pub busted_fill_ids : List Text
  pub send_record_id : Option Text

-- `new_order`, with the defaults of the dataclass.
unfoldable pub new_order : OrderRequest → OrderState
new_order r = record {
  request = r;
  status = OrderStatus.pending_submit;
  quantity = r.quantity;
  limit_price = r.limit_price;
  venue_order_id = none;
  filled_quantity = pos 0;
  filled_notional = pos 0;
  fills = [];
  pending_quantity = none;
  pending_limit_price = none;
  reject_reason = none;
  reject_code = none;
  anomalies = [];
  busted_fill_ids = [];
  send_record_id = none;
}

unfoldable pub is_open : OrderState → Bool
is_open s = not (is_terminal s.status)

abbrev pub max_pending : Decimal → Option Decimal → Decimal
max_pending quantity none = quantity
max_pending quantity (some pending) = max_ℤ quantity pending

unfoldable pub leaves_quantity : OrderState → Decimal
leaves_quantity s =
    if is_terminal s.status
    then pos 0
    else max_ℤ (max_pending s.quantity s.pending_quantity -ℤ s.filled_quantity) (pos 0)

unfoldable pub working_status : OrderState → OrderStatus
working_status s =
    if leb_ℤ s.quantity s.filled_quantity
    then OrderStatus.filled
    else if ltb_ℤ (pos 0) s.filled_quantity
    then OrderStatus.partially_filled
    else OrderStatus.accepted

abbrev pub note : OrderState → Anomaly → OrderState
note s message = record s { anomalies = s.anomalies ++ message ∷ [] }

-- `_fill_ceiling`
unfoldable pub fill_ceiling : OrderState → Decimal
fill_ceiling s = max_pending s.quantity s.pending_quantity

abbrev pub has_pending_terms : OrderState → Bool
has_pending_terms s = is_some s.pending_quantity || is_some s.pending_limit_price
