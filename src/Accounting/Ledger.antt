-- ===== src/Accounting/Ledger.antt =====
-- `PositionLedger` (src/ismet/accounting/__init__.py): fills are booked once, in execution order.
-- `ratio`, which rounds to the precision of a decimal context, is a parameter.
use ismet.Prelude.{
  suc, Bool, false, not, ◌&&◌, Option, none, some, List, [], ◌∷◌, ◌++◌, Text, Decimal, ℤ, pos, ◌+ℤ◌,
  ◌-ℤ◌, ◌*ℤ◌, eqb_ℤ, leb, length, ◌==◌, if◌then◌else◌,
}
use ismet.Prelude.Dict.{Dict, lookup, insert}
use ismet.Models.Symbol.{Symbol, symbol_eq}
use ismet.Models.Orders.{Fill, sign, is_some}
use ismet.Execution.Reports.{fees_differ, same_execution, merged_fill}
use ismet.Accounting.Lots.{
  LotMethod, average, Lot, RealizedTrade, quantity_of, cost_basis, match_lots,
}

pub record PositionLedger : Type 0 where
  pub method : LotMethod
  pub multiplier : Decimal
  pub lots : List Lot
  pub realized_trades : List RealizedTrade
  pub fees : Dict Decimal
  pub fills_with_unknown_fee : ℤ
  pub symbol : Option Symbol
  pub seen : List Fill  -- `_seen`, whose keys are those of its fills

unfoldable pub new_ledger : LotMethod → Decimal → PositionLedger
new_ledger method multiplier = record {
  method = method;
  multiplier = multiplier;
  lots = [];
  realized_trades = [];
  fees = [];
  fills_with_unknown_fee = pos 0;
  symbol = none;
  seen = [];
}

pub data LedgerError : Type 0 where
  other_symbol fee_without_currency different_terms different_fee : LedgerError

-- What `apply` returns or raises. A raise leaves behind the state that it happened in.
pub data Booking : Type 0 where
  booked : List RealizedTrade → Booking
  raised : LedgerError → Booking

abbrev pub same_key : Fill → Fill → Bool
same_key a b = a.client_order_id == b.client_order_id && a.fill_id == b.fill_id

-- `_seen.get(key)`, at the key of `f`.
unfoldable pub find_seen : Fill → List Fill → Option Fill
find_seen f [] = none
find_seen f (g ∷ gs) = if same_key g f then some g else find_seen f gs

-- `_seen[key] = f` where the key is there.
unfoldable pub set_seen : Fill → List Fill → List Fill
set_seen f [] = []
set_seen f (g ∷ gs) = if same_key g f then f ∷ gs else g ∷ set_seen f gs

-- `_check_fee_has_currency` raises.
abbrev pub lacks_currency : Option Decimal → Option Text → Bool
lacks_currency (some fee) none = not (eqb_ℤ fee (pos 0))
lacks_currency _ _ = false

-- `fees.get(currency, 0)`
abbrev pub fee_in : Option Decimal → Decimal
fee_in none = pos 0
fee_in (some total) = total

-- `_book_fee`
abbrev pub book_fee : Option Decimal → Option Text → Dict Decimal → Dict Decimal
book_fee (some fee) (some currency) fees =
    insert currency (fee_in (lookup currency fees) +ℤ fee) fees
book_fee _ _ fees = fees

-- What the first report of a fill does to the fees and their count.
unfoldable pub count_fee : Fill → PositionLedger → PositionLedger
count_fee f l =
    if is_some f.fee
    then record l { fees = book_fee f.fee f.fee_currency l.fees }
    else record l { fills_with_unknown_fee = l.fills_with_unknown_fee +ℤ pos 1 }

-- `_merge_report`
unfoldable pub merge_report : PositionLedger → Fill → Fill → PositionLedger × Booking
merge_report l known report =
    let merged = merged_fill known report in
    let kept = record l { seen = set_seen merged l.seen } in
    if not (same_execution known report)
    then (l, raised different_terms)
    else if fees_differ known report
    then (l, raised different_fee)
    else if lacks_currency merged.fee merged.fee_currency
    then (l, raised fee_without_currency)
    else if not (is_some known.fee) && is_some merged.fee
    then (
      record kept {
        fills_with_unknown_fee = l.fills_with_unknown_fee -ℤ pos 1;
        fees = book_fee merged.fee merged.fee_currency l.fees;
      },
      booked [],
    )
    else (kept, booked [])

-- The lot that what is left of a fill opens.
abbrev pub open_rest : Decimal → Fill → List Lot
open_rest remaining f =
    if eqb_ℤ remaining (pos 0)
    then []
    else record { quantity = remaining; price = f.price; opened_by = f.fill_id } ∷ []

-- `sorted(fills, key=lambda f: f.ts)`, which is stable.
unfoldable pub insert_by_ts : Fill → List Fill → List Fill
insert_by_ts f [] = f ∷ []
insert_by_ts f (g ∷ gs) = if leb f.ts g.ts then f ∷ g ∷ gs else g ∷ insert_by_ts f gs

unfoldable pub sorted_by_ts : List Fill → List Fill
sorted_by_ts [] = []
sorted_by_ts (f ∷ fs) = insert_by_ts f (sorted_by_ts fs)

module _ (ratio : Decimal → Decimal → Decimal) where
  -- `_collapse_to_average`
  unfoldable pub collapse_to_average : List Lot → List Lot
  collapse_to_average [] = []
  collapse_to_average (l ∷ []) = l ∷ []
  collapse_to_average (l ∷ ls) =
      let q = quantity_of (l ∷ ls) in
      if eqb_ℤ q (pos 0)
      then l ∷ ls
      else record { quantity = q; price = ratio (cost_basis (l ∷ ls)) q; opened_by = l.opened_by }
        ∷ []

  abbrev pub lots_before : LotMethod → List Lot → List Lot
  lots_before average ls = collapse_to_average ls
  lots_before _ ls = ls

  -- The matching of a fill, and the lot that its rest opens.
  unfoldable pub book_lots : PositionLedger → Fill → PositionLedger × Booking
  book_lots l f =
      let lots = lots_before l.method l.lots in
      let m =
        match_lots (suc (length lots)) l.method l.multiplier f
          (record { lots = lots; remaining = sign f.side *ℤ f.quantity; closing = [] }) in
      (
        record l {
          lots = m.lots ++ open_rest m.remaining f;
          realized_trades = l.realized_trades ++ m.closing;
        },
        booked m.closing,
      )

  -- `apply` of a fill in the ledger's symbol whose key was not seen.
  unfoldable pub book_new : PositionLedger → Fill → PositionLedger × Booking
  book_new l f =
      if lacks_currency f.fee f.fee_currency
      then (l, raised fee_without_currency)
      else book_lots (count_fee f (record l { seen = l.seen ++ f ∷ [] })) f

  -- `apply`
  unfoldable pub apply : PositionLedger → Fill → PositionLedger × Booking
  apply l f = elim (find_seen f l.seen) [
    | some known ↦ merge_report l known f
    | none ↦ elim l.symbol [
      | none ↦ book_new (record l { symbol = some f.symbol }) f
      | some s ↦ if symbol_eq f.symbol s then book_new l f else (l, raised other_symbol)
    ]
  ]

  -- The loop of `build_ledger`; `none` is a raise of `apply`.
  unfoldable pub apply_all : PositionLedger → List Fill → Option PositionLedger
  apply_all l [] = some l
  apply_all l (f ∷ fs) =
      let (l', outcome) = apply l f in
      elim outcome [ booked closing ↦ apply_all l' fs | raised e ↦ none ]

  unfoldable pub build_ledger : LotMethod → Decimal → List Fill → Option PositionLedger
  unfolding new_ledger
  build_ledger method multiplier fills =
      apply_all (new_ledger method multiplier) (sorted_by_ts fills)
