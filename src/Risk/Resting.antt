-- ===== src/Risk/Resting.antt =====
-- What an approval by the checks of the resting orders (src/ismet/execution/risk.py) rules out.
use ismet.Prelude.{
  true, false, ◌||◌, Option, none, some, List, [], ◌∷◌, Decimal, ◌<ℤ◌, ◌≡◌, ◌≢◌, inl, inr, arith,
  Option-cases, ap, ◌∙◌, sym,
}
use mathlib.Core.List.{Memᴰ}
use mathlib.Core.Path.{subst}
use ismet.Models.Symbol.{Symbol, symbol_eq}
use ismet.Models.Orders.{OrderSide, buy, sell, side_eq, OrderStatus, OrderRequest, status_eq}
use ismet.Execution.State.{OrderState}
use ismet.Risk.Checks.{
  RiskContext, RiskConfig, approved, unknown_in, check_unknown, self_match_in, check_self_match,
  crosses, meets,
}

unknown_in-none :
    (os : List OrderState) (symbol : Symbol) (o : OrderState)
    → unknown_in os symbol ≡ approved
    → Memᴰ o os
    → symbol_eq o.request.symbol symbol ≡ true
    → o.status ≢ OrderStatus.unknown
unfolding unknown_in
unknown_in-none [] symbol o ok m same = elim m [ ]
unknown_in-none (b ∷ os) symbol o ok (Memᴰ.head e) same =
    let clear : status_eq b.status OrderStatus.unknown ≡ false =
      let same' : symbol_eq b.request.symbol symbol ≡ true =
        subst (λ x. symbol_eq x.request.symbol symbol ≡ true) e same in
      ground arith in
    λ is_unknown.
      let b_unknown : b.status ≡ OrderStatus.unknown = sym (ap (λ x. x.status) e) ∙ is_unknown in
      let absurd : true ≡ false =
        subst (λ st. status_eq st OrderStatus.unknown ≡ false) b_unknown clear in
      ground arith
unknown_in-none (b ∷ os) symbol o ok (Memᴰ.tail m) same =
    unknown_in-none os symbol o (ground arith) m same

-- While unknown orders block, an approval means that no open order in the symbol is unknown.
pub unknown_blocks :
    (ctx : RiskContext) (config : RiskConfig) (o : OrderState)
    → config.block_while_unknown ≡ true
    → check_unknown ctx config ≡ approved
    → Memᴰ o ctx.open_orders
    → symbol_eq o.request.symbol ctx.request.symbol ≡ true
    → o.status ≢ OrderStatus.unknown
unfolding check_unknown
unknown_blocks ctx config o on ok m same =
    unknown_in-none ctx.open_orders ctx.request.symbol o (ground arith) m same

-- A limit at `price` does not reach one on the other side at `resting`.
unfoldable pub Apart : OrderSide → Decimal → Decimal → Type 0
Apart buy price resting = price <ℤ resting
Apart sell price resting = resting <ℤ price

-- An order without a pending price, or whose pending price is apart too.
unfoldable pub ApartPending : OrderSide → Decimal → Option Decimal → Type 0
ApartPending side price none = Unit
ApartPending side price (some resting) = Apart side price resting

meets-Apart :
    (side : OrderSide) (price resting : Decimal) (pending : Option Decimal)
    → meets side price (some resting) || meets side price pending ≡ false
    → Apart side price resting × ApartPending side price pending
unfolding Apart ApartPending
meets-Apart buy price resting none h = ground arith
meets-Apart buy price resting (some q) h = ground arith
meets-Apart sell price resting none h = ground arith
meets-Apart sell price resting (some q) h = ground arith

-- Both orders are limits, and their prices are apart.
unfoldable pub DoNotCross : OrderRequest → OrderState → Type 0
DoNotCross r o =
    (price : Decimal) × (resting : Decimal) × (r.limit_price ≡ some price)
    × (o.limit_price ≡ some resting)
    × Apart r.side price resting
    × ApartPending r.side price o.pending_limit_price

crosses-DoNotCross : (r : OrderRequest) (o : OrderState) → crosses r o ≡ false → DoNotCross r o
unfolding DoNotCross
crosses-DoNotCross r o h = elim (Option-cases r.limit_price) [
  | inl r_none ↦ elim (Option-cases o.limit_price) [
    | inl o_none ↦ ground arith
    | inr (resting, o_some) ↦ ground arith
  ]
  | inr (price, r_some) ↦ elim (Option-cases o.limit_price) [
    | inl o_none ↦ ground arith
    | inr (resting, o_some) ↦
        let apart = meets-Apart r.side price resting o.pending_limit_price (ground arith) in
        (price, resting, r_some, o_some, apart.0, apart.1)
  ]
]

self_match_in-DoNotCross :
    (os : List OrderState) (r : OrderRequest) (o : OrderState)
    → self_match_in os r ≡ approved
    → Memᴰ o os
    → symbol_eq o.request.symbol r.symbol ≡ true
    → side_eq o.request.side r.side ≡ false
    → DoNotCross r o
unfolding self_match_in
self_match_in-DoNotCross [] r o ok m same other = elim m [ ]
self_match_in-DoNotCross (b ∷ os) r o ok (Memᴰ.head e) same other =
    let same' : symbol_eq b.request.symbol r.symbol ≡ true =
      subst (λ x. symbol_eq x.request.symbol r.symbol ≡ true) e same in
    let other' : side_eq b.request.side r.side ≡ false =
      subst (λ x. side_eq x.request.side r.side ≡ false) e other in
    let b_apart : crosses r b ≡ false = ground arith in
    subst (λ x. DoNotCross r x) (sym e) (crosses-DoNotCross r b b_apart)
self_match_in-DoNotCross (b ∷ os) r o ok (Memᴰ.tail m) same other =
    self_match_in-DoNotCross os r o (ground arith) m same other

-- Where self-match is prevented, an approved order cannot trade against an open order of the other
-- side in its symbol: both are limits, and their prices, a pending replacement's too, do not cross.
pub self_match_prevented :
    (ctx : RiskContext) (config : RiskConfig) (o : OrderState)
    → config.prevent_self_match ≡ true
    → check_self_match ctx config ≡ approved
    → Memᴰ o ctx.open_orders
    → symbol_eq o.request.symbol ctx.request.symbol ≡ true
    → side_eq o.request.side ctx.request.side ≡ false
    → DoNotCross ctx.request o
unfolding check_self_match
self_match_prevented ctx config o on ok m same other =
    self_match_in-DoNotCross ctx.open_orders ctx.request o (ground arith) m same other
