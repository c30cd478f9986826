-- ===== src/Execution/Reports.antt =====
-- src/ismet/execution/state.py: two reports of one execution, compared and merged.
use ismet.Prelude.{
  Bool, false, not, ◌&&◌, ◌||◌, Option, none, some, List, [], ◌∷◌, Text, Decimal, ◌==◌, eqb_ℤ,
  if◌then◌else◌,
}
use ismet.Models.Symbol.{symbol_eq}
use ismet.Models.Orders.{Fill, Liquidity, side_eq, liquidity_eq, fill_eq}
use ismet.Execution.State.{OrderState}

-- `known is not None and report is not None and known != report`
abbrev pub amounts_differ : Option Decimal → Option Decimal → Bool
amounts_differ (some a) (some b) = not (eqb_ℤ a b)
amounts_differ _ _ = false

abbrev pub currencies_differ : Option Text → Option Text → Bool
currencies_differ (some a) (some b) = not (a == b)
currencies_differ _ _ = false

unfoldable pub fees_differ : Fill → Fill → Bool
fees_differ known report =
    amounts_differ known.fee report.fee || currencies_differ known.fee_currency report.fee_currency

unfoldable pub same_execution : Fill → Fill → Bool
same_execution a b =
    symbol_eq a.symbol b.symbol
    && side_eq a.side b.side
    && eqb_ℤ a.price b.price
    && eqb_ℤ a.quantity b.quantity

-- `a or b` on optional texts: the empty text is false too.
abbrev pub text_or : Option Text → Option Text → Option Text
text_or none b = b
text_or (some a) b = if a == 0 then b else some a

-- `a if a is not None else b`
abbrev pub or_else {ℓ} : {A : Type ℓ} → Option A → Option A → Option A
or_else none b = b
or_else (some a) b = some a

-- `merged_fill`
unfoldable pub merged_fill : Fill → Fill → Fill
merged_fill known report =
    let update = record known {
      venue_order_id = text_or known.venue_order_id report.venue_order_id;
      liquidity =
          if liquidity_eq known.liquidity Liquidity.unknown
          then report.liquidity
          else known.liquidity;
    } in
    if fees_differ known report then update else record update {
      fee = or_else known.fee report.fee;
      fee_currency = text_or known.fee_currency report.fee_currency;
    }

-- The first fill with the id, in the order of the reports.
unfoldable pub find_fill : Text → List Fill → Option Fill
find_fill i [] = none
find_fill i (f ∷ fs) = if f.fill_id == i then some f else find_fill i fs

-- `fills[index] = merged`, at the first fill with the id.
unfoldable pub set_fill : Text → Fill → List Fill → List Fill
set_fill i g [] = []
set_fill i g (f ∷ fs) = if f.fill_id == i then g ∷ fs else f ∷ set_fill i g fs

-- `tuple(f for f in fills if f.fill_id != fill_id)`
unfoldable pub drop_fill : Text → List Fill → List Fill
drop_fill i [] = []
drop_fill i (f ∷ fs) = if f.fill_id == i then drop_fill i fs else f ∷ drop_fill i fs

unfoldable pub fill_adds_detail : OrderState → Fill → Bool
fill_adds_detail s f = elim (find_fill f.fill_id s.fills) [
  | none ↦ false
  | some known ↦ same_execution known f && not (fill_eq (merged_fill known f) known)
]

unfoldable pub fill_contradicts : OrderState → Fill → Bool
fill_contradicts s f = elim (find_fill f.fill_id s.fills) [
  | none ↦ false
  | some known ↦ not (same_execution known f)
]

unfoldable pub fill_disputes : OrderState → Fill → Bool
fill_disputes s f = elim (find_fill f.fill_id s.fills) [
  | none ↦ false
  | some known ↦ not (same_execution known f) || fees_differ known f
]
