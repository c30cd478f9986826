-- ===== src/Models/Orders.antt =====
-- src/ismet/models/orders.py: the enumerations, the order request and its validation, a fill,
-- and the events of an order's life. A timestamp is a number of ticks.
use ismet.Prelude.{
  ℕ, Bool, true, false, not, ◌&&◌, Option, none, some, Text, Decimal, ℤ, pos, negsuc, ◌==◌, eqb_ℤ,
  eqb_self, ==_self, ◌≡◌, refl, arith, if◌then◌else◌,
}
use ismet.Models.Symbol.{Symbol, symbol_eq, symbol_eq_self}

pub data OrderSide : Type 0 where
  buy sell : OrderSide

abbrev pub sign : OrderSide → ℤ
sign buy = pos 1
sign sell = negsuc 0

abbrev pub side_eq : OrderSide → OrderSide → Bool
side_eq buy buy = true
side_eq sell sell = true
side_eq _ _ = false

pub data OrderType : Type 0 where
  market limit stop stop_limit : OrderType

pub data TimeInForce : Type 0 where
  day gtc ioc fok gtd opg cls : TimeInForce

pub data ShortSaleMark : Type 0 where
  not_short short short_exempt : ShortSaleMark

pub data Liquidity : Type 0 where
  maker taker unknown : Liquidity

abbrev pub liquidity_eq : Liquidity → Liquidity → Bool
liquidity_eq Liquidity.maker Liquidity.maker = true
liquidity_eq Liquidity.taker Liquidity.taker = true
liquidity_eq Liquidity.unknown Liquidity.unknown = true
liquidity_eq _ _ = false

pub data OrderStatus : Type 0 where
  pending_submit submitting unknown accepted partially_filled pending_cancel : OrderStatus
  pending_replace filled canceled rejected expired : OrderStatus

abbrev pub is_terminal : OrderStatus → Bool
is_terminal OrderStatus.filled = true
is_terminal OrderStatus.canceled = true
is_terminal OrderStatus.rejected = true
is_terminal OrderStatus.expired = true
is_terminal _ = false

abbrev pub status_code : OrderStatus → ℕ
status_code OrderStatus.pending_submit = 0
status_code OrderStatus.submitting = 1
status_code OrderStatus.unknown = 2
status_code OrderStatus.accepted = 3
status_code OrderStatus.partially_filled = 4
status_code OrderStatus.pending_cancel = 5
status_code OrderStatus.pending_replace = 6
status_code OrderStatus.filled = 7
status_code OrderStatus.canceled = 8
status_code OrderStatus.rejected = 9
status_code OrderStatus.expired = 10

abbrev pub status_eq : OrderStatus → OrderStatus → Bool
status_eq a b = status_code a == status_code b

pub record OrderRequest : Type 0 where
  pub client_order_id : Text
  pub symbol : Symbol
  pub side : OrderSide
  pub quantity : Decimal
  pub order_type : OrderType
  pub time_in_force : TimeInForce
  pub limit_price : Option Decimal
  pub stop_price : Option Decimal
  pub expire_at : Option ℕ
  pub account : Option Text
  pub strategy : Option Text
  pub short_sale : ShortSaleMark
  pub post_only : Bool
  pub reduce_only : Bool

pub data ShapeError : Type 0 where
  requires_limit cannot_have_limit requires_stop cannot_have_stop : ShapeError
  gtd_expire_at buy_marked_short post_only_not_limit post_only_immediate : ShapeError

abbrev pub needs_limit : OrderType → Bool
needs_limit limit = true
needs_limit stop_limit = true
needs_limit _ = false

abbrev pub needs_stop : OrderType → Bool
needs_stop stop = true
needs_stop stop_limit = true
needs_stop _ = false

abbrev pub is_some {ℓ} : {A : Type ℓ} → Option A → Bool
is_some none = false
is_some (some a) = true

abbrev pub is_gtd : TimeInForce → Bool
is_gtd gtd = true
is_gtd _ = false

abbrev pub is_immediate : TimeInForce → Bool
is_immediate ioc = true
is_immediate fok = true
is_immediate _ = false

abbrev pub is_limit : OrderType → Bool
is_limit limit = true
is_limit _ = false

abbrev pub marked_short : ShortSaleMark → Bool
marked_short not_short = false
marked_short _ = true

-- `(a) != (b)` on tests.
abbrev pub differ : Bool → Bool → Bool
differ true b = not b
differ false b = b

-- `OrderRequest._shape`: the first rule that is broken, if any is.
unfoldable pub shape : OrderRequest → Option ShapeError
shape r =
    if needs_limit r.order_type && not (is_some r.limit_price)
    then some requires_limit
    else if not (needs_limit r.order_type) && is_some r.limit_price
    then some cannot_have_limit
    else if needs_stop r.order_type && not (is_some r.stop_price)
    then some requires_stop
    else if not (needs_stop r.order_type) && is_some r.stop_price
    then some cannot_have_stop
    else if differ (is_gtd r.time_in_force) (is_some r.expire_at)
    then some gtd_expire_at
    else if side_eq r.side buy && marked_short r.short_sale
    then some buy_marked_short
    else if r.post_only && not (is_limit r.order_type)
    then some post_only_not_limit
    else if r.post_only && is_immediate r.time_in_force
    then some post_only_immediate
    else none

pub record Fill : Type 0 where
  pub fill_id : Text
  pub client_order_id : Text
  pub symbol : Symbol
  pub side : OrderSide
  pub price : Decimal
  pub quantity : Decimal
  pub ts : ℕ
  pub venue_order_id : Option Text
  pub fee : Option Decimal
  pub fee_currency : Option Text
  pub liquidity : Liquidity

abbrev pub text_option_eq : Option Text → Option Text → Bool
text_option_eq none none = true
text_option_eq (some a) (some b) = a == b
text_option_eq _ _ = false

abbrev pub decimal_option_eq : Option Decimal → Option Decimal → Bool
decimal_option_eq none none = true
decimal_option_eq (some a) (some b) = eqb_ℤ a b
decimal_option_eq _ _ = false

-- `known == fill`: the model's own equality, field by field.
unfoldable pub fill_eq : Fill → Fill → Bool
fill_eq a b =
    a.fill_id == b.fill_id
    && a.client_order_id == b.client_order_id
    && symbol_eq a.symbol b.symbol
    && side_eq a.side b.side
    && eqb_ℤ a.price b.price
    && eqb_ℤ a.quantity b.quantity
    && a.ts == b.ts
    && text_option_eq a.venue_order_id b.venue_order_id
    && decimal_option_eq a.fee b.fee
    && text_option_eq a.fee_currency b.fee_currency
    && liquidity_eq a.liquidity b.liquidity

pub data EventOrigin : Type 0 where
  oms venue reconcile : EventOrigin

-- What each event class adds to `_Event`; the constructors' order is that of the classes.
pub data EventBody : Type 0 where
  intent : (request : OrderRequest) → EventBody
  send_started : (send_record_id : Option Text) → EventBody
  ack : (venue_order_id : Text) → EventBody
  reject : (reason : Text) (code : Option Text) → EventBody
  outcome_unknown : (reason : Text) → EventBody
  fill : (report : Fill) → EventBody
  bust : (fill_id : Text) (reason : Text) → EventBody
  cancel_requested : EventBody
  canceled : (reason : Text) → EventBody
  cancel_rejected : (reason : Text) (code : Option Text) → EventBody
  replace_requested : (quantity : Option Decimal) (limit_price : Option Decimal) → EventBody
  replaced :
      (quantity : Option Decimal) (limit_price : Option Decimal) (venue_order_id : Option Text)
      → EventBody
  replace_rejected : (reason : Text) (code : Option Text) → EventBody
  expired : EventBody
  restated :
      (status : OrderStatus) (venue_order_id : Option Text) (venue_filled_quantity : Option Decimal)
      (reason : Text)
      → EventBody

pub record OrderEvent : Type 0 where
  pub client_order_id : Text
  pub ts : ℕ
  pub origin : EventOrigin
  pub body : EventBody

text_option_eq_self : (a : Option Text) → text_option_eq a a ≡ true
text_option_eq_self none = refl
text_option_eq_self (some a) = ==_self a

decimal_option_eq_self : (a : Option Decimal) → decimal_option_eq a a ≡ true
decimal_option_eq_self none = refl
decimal_option_eq_self (some a) = eqb_self a

side_eq_self : (a : OrderSide) → side_eq a a ≡ true
side_eq_self a = ground arith

liquidity_eq_self : (a : Liquidity) → liquidity_eq a a ≡ true
liquidity_eq_self a = ground arith

pub fill_eq_self : (f : Fill) → fill_eq f f ≡ true
unfolding fill_eq
fill_eq_self f = rw (
  ==_self f.fill_id,
  ==_self f.client_order_id,
  symbol_eq_self f.symbol,
  side_eq_self f.side,
  eqb_self f.price,
  eqb_self f.quantity,
  ==_self f.ts,
  text_option_eq_self f.venue_order_id,
  decimal_option_eq_self f.fee,
  text_option_eq_self f.fee_currency,
  liquidity_eq_self f.liquidity,
)
