-- ===== src/Accounting/Recorded.antt =====
-- `apply` (src/ismet/accounting/__init__.py) puts every report that it does not refuse on record.
use ismet.Prelude.{
  Bool, true, false, not, ◌&&◌, some, List, [], Decimal, if◌then◌else◌, refl, inl, inr, Bool-cases,
  Option-cases,
}
use ismet.Models.Symbol.{symbol_eq}
use ismet.Models.Orders.{Fill, is_some}
use ismet.Execution.Reports.{merged_fill, same_execution, fees_differ}
use ismet.Accounting.Lots.{RealizedTrade}
use ismet.Accounting.Ledger.{
  PositionLedger, LedgerError, other_symbol, fee_without_currency, different_terms, different_fee,
  Booking, booked, raised, find_seen, lacks_currency, count_fee, merge_report, book_lots, book_new,
  apply,
}
use ismet.Accounting.Once.{IsOnRecord, append-IsOnRecord, set_seen-IsOnRecord}

-- A report that is not refused is on record.
unfoldable pub IsRecorded : Fill → PositionLedger × Booking → Type 0
IsRecorded f (l, booked closing) = IsOnRecord f l.seen
IsRecorded f (l, raised e) = Unit

refused-IsRecorded : (f : Fill) (l : PositionLedger) (e : LedgerError) → IsRecorded f (l, raised e)
unfolding IsRecorded
refused-IsRecorded f l e = tt

booked-IsRecorded :
    (f : Fill) (l : PositionLedger) (closing : List RealizedTrade)
    → IsOnRecord f l.seen
    → IsRecorded f (l, booked closing)
unfolding IsRecorded
booked-IsRecorded f l closing h = h

-- A test between two outcomes.
IsRecorded-either :
    (t : Bool) (f : Fill) (a b : PositionLedger × Booking)
    → IsRecorded f a
    → IsRecorded f b
    → IsRecorded f (if t then a else b)
IsRecorded-either true f a b h k = h
IsRecorded-either false f a b h k = k

merge_report-IsRecorded :
    (l : PositionLedger) (known f : Fill)
    → IsOnRecord f l.seen
    → IsRecorded f (merge_report l known f)
unfolding merge_report
merge_report-IsRecorded l known f h =
    let g = merged_fill known f in
    let kept = set_seen-IsOnRecord f g l.seen h in
    IsRecorded-either (not (same_execution known f)) f _ _ (refused-IsRecorded f l different_terms)
      (IsRecorded-either (fees_differ known f) f _ _ (refused-IsRecorded f l different_fee) (
        IsRecorded-either (lacks_currency g.fee g.fee_currency) f _ _
          (refused-IsRecorded f l fee_without_currency)
          (IsRecorded-either (not (is_some known.fee) && is_some g.fee) f _ _
            (booked-IsRecorded f _ [] kept) (booked-IsRecorded f _ [] kept))))

module _ (ratio : Decimal → Decimal → Decimal) where
  book_new-IsRecorded : (l : PositionLedger) (f : Fill) → IsRecorded f (book_new ratio l f)
  unfolding book_new book_lots count_fee
  book_new-IsRecorded l f =
      let on_record = append-IsOnRecord f l.seen in
      IsRecorded-either (lacks_currency f.fee f.fee_currency) f _ _
        (refused-IsRecorded f l fee_without_currency)
        (elim (Bool-cases (is_some f.fee)) [
          | inl told ↦ rw (told) (booked-IsRecorded f _ _ on_record)
          | inr untold ↦ rw (untold) (booked-IsRecorded f _ _ on_record)
        ])

  pub apply-IsRecorded : (l : PositionLedger) (f : Fill) → IsRecorded f (apply ratio l f)
  unfolding apply
  apply-IsRecorded l f = elim (Option-cases (find_seen f l.seen)) [
    | inr (known, e) ↦
        let there : IsOnRecord f l.seen = rw (e) refl in
        rw (e, apply) (merge_report-IsRecorded l known f there)
    | inl fresh ↦ elim (Option-cases l.symbol) [
      | inl first ↦
          rw (fresh, first, apply) (book_new-IsRecorded (record l { symbol = some f.symbol }) f)
      | inr (s, e) ↦ elim (Bool-cases (symbol_eq f.symbol s)) [
        | inl same ↦ rw (fresh, e, apply, same) (book_new-IsRecorded l f)
        | inr other ↦ rw (fresh, e, apply, other) (refused-IsRecorded f l other_symbol)
      ]
    ]
  ]
