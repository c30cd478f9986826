-- ===== src/Risk/Checks.antt =====
-- src/ismet/execution/risk.py: the checks of an order's exposure. A refusal is a constructor for
-- each place that refuses, in place of the message.
use ismet.Prelude.{
  ℕ, Bool, true, false, not, ◌&&◌, ◌||◌, Option, none, some, List, [], ◌∷◌, Text, Decimal, ℤ, pos,
  negsuc, ◌/◌, suc, ◌+ℤ◌, ◌-ℤ◌, ◌*ℤ◌, negate, abs, max_ℤ, ltb_ℤ, leb_ℤ, eqb_ℤ, ◌==◌, if◌then◌else◌,
}
use ismet.Models.Symbol.{Symbol, symbol_eq}
use ismet.Models.Orders.{
  OrderSide, buy, sell, sign, side_eq, OrderStatus, OrderRequest, ShortSaleMark, marked_short,
  is_some, status_eq, differ,
}
use ismet.Execution.State.{OrderState, leaves_quantity}

pub record RiskLimits : Type 0 where
  pub max_order_quantity : Option Decimal
  pub max_order_notional : Option Decimal
  pub max_position : Option Decimal
  pub max_gross_notional : Option Decimal
  pub max_open_orders : Option ℕ
  pub max_orders_per_second : Option ℕ
  pub price_collar_bps : Option Decimal

-- What the checks below read of `Quote`, `Instrument` and `TradingRules`.
pub record Quote : Type 0 where
  pub bid : Option Decimal
  pub ask : Option Decimal
  pub last : Option Decimal

pub data AssetClass : Type 0 where
  equity etf index future option fx crypto bond fund unknown : AssetClass

pub record Instrument : Type 0 where
  pub multiplier : Decimal
  pub min_notional : Option Decimal
  pub currency : Text
  pub asset_class : AssetClass

pub record RiskConfig : Type 0 where
  pub limit_currency : Option Text
  pub allow_short : Bool
  pub prevent_self_match : Bool
  pub block_while_unknown : Bool

pub record RiskContext : Type 0 where
  pub request : OrderRequest
  pub instrument : Option Instrument
  pub reference : Option Quote
  pub open_orders : List OrderState
  pub position : Option Decimal
  pub supports_short : Option Bool  -- `rules.supports_short`, where there are rules
  pub locate_available : Bool
  pub gross_notional : Option Decimal

pub data Refusal : Type 0 where
  limit_currency reduce_only_unknown reduce_only_grows short_sale_unknown : Refusal
  short_sale_not_marked short_sale_disabled short_sale_unsupported short_sale_no_locate : Refusal
  max_order_quantity no_price_for_notional max_order_notional min_notional : Refusal
  position_unknown max_position gross_unknown gross_no_price max_gross_notional : Refusal
  unknown_order self_match : Refusal

pub data RiskDecision : Type 0 where
  approved : RiskDecision
  rejected : Refusal → RiskDecision

-- `midpoint`, in units that halve exactly.
abbrev pub midpoint : Decimal → Decimal → Decimal
midpoint a b = half (a +ℤ b)
  where
    half : ℤ → ℤ
    half (pos n) = pos (n / 2)
    half (negsuc n) = negate (pos (suc n / 2))

-- `Quote.mid`
abbrev pub mid_of : Option Decimal → Option Decimal → Option Decimal
mid_of (some b) (some a) = some (midpoint b a)
mid_of _ _ = none

abbrev pub first_some : Option Decimal → Option Decimal → Option Decimal
first_some none b = b
first_some (some a) b = some a

abbrev pub touch : OrderSide → Quote → Option Decimal
touch buy q = q.ask
touch sell q = q.bid

-- `_reference_price`
unfoldable pub reference_price : RiskContext → Option Decimal
reference_price ctx = elim ctx.reference [
  | none ↦ none
  | some q ↦ first_some (touch ctx.request.side q) (first_some (mid_of q.bid q.ask) q.last)
]

-- The larger of the prices that are there, by their absolute values.
abbrev pub largest : Option Decimal → Option Decimal → Option Decimal
largest none none = none
largest (some a) none = some (abs a)
largest none (some b) = some (abs b)
largest (some a) (some b) = some (max_ℤ (abs a) (abs b))

abbrev pub nonzero : Option Decimal → Option Decimal
nonzero none = none
nonzero (some p) = if eqb_ℤ p (pos 0) then none else some p

-- `_pricing_for_notional`
unfoldable pub pricing_for_notional : RiskContext → Option Decimal
pricing_for_notional ctx =
    nonzero
      (largest (first_some ctx.request.limit_price ctx.request.stop_price) (reference_price ctx))

unfoldable pub check_limit_currency : RiskContext → RiskConfig → RiskDecision
check_limit_currency ctx config = elim config.limit_currency [
  | none ↦ approved
  | some expected ↦ elim ctx.instrument [
    | none ↦ approved
    | some i ↦ if i.currency == expected then approved else rejected limit_currency
  ]
]

-- `_sum_leaves`, with its running result.
unfoldable pub sum_leaves_from : Decimal → List OrderState → Symbol → OrderSide → Decimal
sum_leaves_from result [] symbol side = result
sum_leaves_from result (o ∷ os) symbol side =
    sum_leaves_from
      (if symbol_eq o.request.symbol symbol && side_eq o.request.side side
        then result +ℤ leaves_quantity o
        else result)
      os symbol side

unfoldable pub sum_leaves : List OrderState → Symbol → OrderSide → Decimal
sum_leaves orders symbol side = sum_leaves_from (pos 0) orders symbol side

-- What the order and those that rest beside it on its side may execute together.
abbrev pub pending_with : RiskContext → Decimal
pending_with ctx =
    sum_leaves ctx.open_orders ctx.request.symbol ctx.request.side +ℤ ctx.request.quantity

-- `check_reduce_only`, at a known position.
unfoldable pub reduce_only_at : OrderSide → Decimal → Decimal → RiskDecision
reduce_only_at side position pending =
    let resulting = position +ℤ sign side *ℤ pending in
    let closes =
      not (eqb_ℤ position (pos 0)) && not (differ (ltb_ℤ (pos 0) position) (side_eq side sell)) in
    let crosses =
      not (eqb_ℤ resulting (pos 0)) && differ (ltb_ℤ (pos 0) resulting) (ltb_ℤ (pos 0) position) in
    if not closes || crosses then rejected reduce_only_grows else approved

unfoldable pub check_reduce_only : RiskContext → RiskDecision
check_reduce_only ctx = if not ctx.request.reduce_only then approved else elim ctx.position [
  | none ↦ rejected reduce_only_unknown
  | some position ↦ reduce_only_at ctx.request.side position (pending_with ctx)
]

-- `ctx.rules is not None and not ctx.rules.supports_short`
abbrev pub denies_short : Option Bool → Bool
denies_short none = false
denies_short (some supported) = not supported

abbrev pub is_short : ShortSaleMark → Bool
is_short ShortSaleMark.short = true
is_short _ = false

abbrev pub equity_like : AssetClass → Bool
equity_like equity = true
equity_like etf = true
equity_like _ = false

abbrev pub needs_locate : Option Instrument → ShortSaleMark → Bool
needs_locate none mark = false
needs_locate (some i) mark = equity_like i.asset_class && is_short mark

-- `check_short_sale`, of a sale at a known position.
unfoldable pub short_sale_at : RiskContext → RiskConfig → Decimal → RiskDecision
short_sale_at ctx config position =
    let pending_sells = sum_leaves ctx.open_orders ctx.request.symbol sell in
    let resulting = position -ℤ pending_sells -ℤ ctx.request.quantity in
    if leb_ℤ (pos 0) resulting
    then approved
    else if not (marked_short ctx.request.short_sale)
    then rejected short_sale_not_marked
    else if not config.allow_short
    then rejected short_sale_disabled
    else if denies_short ctx.supports_short
    then rejected short_sale_unsupported
    else if needs_locate ctx.instrument ctx.request.short_sale && not ctx.locate_available
    then rejected short_sale_no_locate
    else approved

unfoldable pub check_short_sale : RiskContext → RiskConfig → RiskDecision
check_short_sale ctx config =
    if not (side_eq ctx.request.side sell) then approved else elim ctx.position [
      | none ↦ rejected short_sale_unknown
      | some position ↦ short_sale_at ctx config position
    ]

abbrev pub multiplier_of : Option Instrument → Decimal
multiplier_of none = pos 1
multiplier_of (some i) = i.multiplier

-- `_notional`
unfoldable pub notional : RiskContext → Decimal → Decimal
notional ctx price = abs (price *ℤ ctx.request.quantity *ℤ multiplier_of ctx.instrument)

-- `is not None and value > limit`
abbrev pub above : Decimal → Option Decimal → Bool
above value none = false
above value (some limit) = ltb_ℤ limit value

abbrev pub under : Decimal → Option Decimal → Bool
under value none = false
under value (some limit) = ltb_ℤ value limit

abbrev pub min_notional_of : Option Instrument → Option Decimal
min_notional_of none = none
min_notional_of (some i) = i.min_notional

unfoldable pub check_size : RiskContext → RiskLimits → RiskDecision
check_size ctx limits =
    if above ctx.request.quantity limits.max_order_quantity
    then rejected max_order_quantity
    else if not (is_some limits.max_order_notional || is_some (min_notional_of ctx.instrument))
    then approved
    else elim (pricing_for_notional ctx) [
      | none ↦ rejected no_price_for_notional
      | some price ↦
          if above (notional ctx price) limits.max_order_notional
          then rejected max_order_notional
          else if under (notional ctx price) (min_notional_of ctx.instrument)
          then rejected min_notional
          else approved
    ]

-- `check_position`, at a limit and a known position.
unfoldable pub position_at : Decimal → Decimal → Decimal → RiskDecision
position_at limit position change =
    let worst = position +ℤ change in
    let flips =
      differ (ltb_ℤ (pos 0) worst) (ltb_ℤ (pos 0) position)
      && not (eqb_ℤ worst (pos 0))
      && not (eqb_ℤ position (pos 0)) in
    let grows = ltb_ℤ (abs position) (abs worst) in
    if ltb_ℤ limit (abs worst) && (grows || flips) then rejected max_position else approved

unfoldable pub check_position : RiskContext → RiskLimits → RiskDecision
check_position ctx limits = elim limits.max_position [
  | none ↦ approved
  | some limit ↦ elim ctx.position [
    | none ↦ rejected position_unknown
    | some position ↦ position_at limit position (sign ctx.request.side *ℤ pending_with ctx)
  ]
]

-- `_reduces_position`, at a position and the signed change.
unfoldable pub reduces_at : Decimal → Decimal → Bool
reduces_at position signed =
    let resulting = position +ℤ signed in
    not (eqb_ℤ position (pos 0))
    && (eqb_ℤ resulting (pos 0) || not (differ (ltb_ℤ (pos 0) resulting) (ltb_ℤ (pos 0) position)))
    && ltb_ℤ (abs resulting) (abs position)

unfoldable pub reduces_position : RiskContext → Bool
reduces_position ctx = elim ctx.position [
  | none ↦ false
  | some position ↦ reduces_at position (sign ctx.request.side *ℤ pending_with ctx)
]

-- `check_gross`, at a limit.
unfoldable pub gross_at : RiskContext → Decimal → RiskDecision
gross_at ctx limit = elim ctx.gross_notional [
  | none ↦ rejected gross_unknown
  | some gross ↦ elim (pricing_for_notional ctx) [
    | none ↦ rejected gross_no_price
    | some price ↦
        if ltb_ℤ limit (gross +ℤ notional ctx price) then rejected max_gross_notional else approved
  ]
]

unfoldable pub check_gross : RiskContext → RiskLimits → RiskDecision
check_gross ctx limits = elim limits.max_gross_notional [
  | none ↦ approved
  | some limit ↦ if reduces_position ctx then approved else gross_at ctx limit
]

-- The loop of `check_unknown`.
unfoldable pub unknown_in : List OrderState → Symbol → RiskDecision
unknown_in [] symbol = approved
unknown_in (o ∷ os) symbol =
    if symbol_eq o.request.symbol symbol && status_eq o.status OrderStatus.unknown
    then rejected unknown_order
    else unknown_in os symbol

unfoldable pub check_unknown : RiskContext → RiskConfig → RiskDecision
check_unknown ctx config =
    if not config.block_while_unknown
    then approved
    else unknown_in ctx.open_orders ctx.request.symbol

-- Whether a limit at `price` would trade against one resting at `resting`.
abbrev pub meets : OrderSide → Decimal → Option Decimal → Bool
meets side price none = false
meets buy price (some resting) = leb_ℤ resting price
meets sell price (some resting) = leb_ℤ price resting

abbrev pub crosses : OrderRequest → OrderState → Bool
crosses r o = elim o.limit_price [
  | none ↦ true
  | some resting ↦ elim r.limit_price [
    | none ↦ true
    | some price ↦ meets r.side price (some resting) || meets r.side price o.pending_limit_price
  ]
]

-- The loop of `check_self_match`.
unfoldable pub self_match_in : List OrderState → OrderRequest → RiskDecision
self_match_in [] r = approved
self_match_in (o ∷ os) r =
    let rest = self_match_in os r in
    if not (symbol_eq o.request.symbol r.symbol) || side_eq o.request.side r.side
    then rest
    else if crosses r o
    then rejected self_match
    else rest

unfoldable pub check_self_match : RiskContext → RiskConfig → RiskDecision
check_self_match ctx config =
    if not config.prevent_self_match then approved else self_match_in ctx.open_orders ctx.request
