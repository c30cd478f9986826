-- ===== src/Accounting/Applied.antt =====
-- `apply` and `build_ledger` (src/ismet/accounting/__init__.py) keep books that add up.
use ismet.Prelude.{
  suc, Bool, none, some, List, [], ◌∷◌, ◌++◌, Decimal, pos, ◌+ℤ◌, length, All, if◌then◌else◌, ◌≡◌,
  refl, sym, ◌∙◌, ap, ◌⊎◌, inl, inr, arith, Bool-cases, Option-cases, +ℤ_zero,
}
use mathlib.Core.Path.{subst}
use ismet.Models.Symbol.{symbol_eq}
use ismet.Models.Orders.{Fill, is_some}
use ismet.Execution.Reports.{merged_fill, same_execution, fees_differ}
use ismet.Accounting.Lots.{
  LotMethod, fifo, lifo, average, Lot, quantity_of, Matching, next_lot, match_lots, RealizedTrade,
}
use ismet.Accounting.Ledger.{
  PositionLedger, LedgerError, new_ledger, Booking, booked, raised, find_seen, lacks_currency,
  count_fee, merge_report, lots_before, open_rest, book_lots, book_new, apply, apply_all,
  sorted_by_ts, build_ledger,
}
use ismet.Accounting.Matching.{Faces, IsDone, match_lots-IsDone}
use ismet.Accounting.Position.{quantity_of-append, IsBalanced, match_lots-IsBalanced}
use ismet.Accounting.Books.{
  IsOneSided, open_rest-IsOneSided, quantity_of-open_rest, collapse_to_average-kept,
}
use ismet.Accounting.Once.{AreOnce, AreOnce-append}
use ismet.Accounting.Recorded.{IsRecorded, apply-IsRecorded}
use ismet.Accounting.Invariant.{
  IsLedger, total, signed, unknown_fee, total-append, merge_report-IsLedger, new_ledger-IsLedger,
}

Booking-cases :
    (b : Booking)
    → ((closing : List RealizedTrade) × (b ≡ booked closing)) ⊎ ((e : LedgerError) × (b ≡ raised e))
Booking-cases (booked closing) = inl (closing, refl)
Booking-cases (raised e) = inr (e, refl)

module _ (ratio : Decimal → Decimal → Decimal) where
  lots_before-kept :
      (method : LotMethod) (long : Bool) (ls : List Lot)
      → All (Faces long) ls
      → All (Faces long) (lots_before ratio method ls)
        × (quantity_of (lots_before ratio method ls) ≡ quantity_of ls)
  lots_before-kept fifo long ls fs = (fs, refl)
  lots_before-kept lifo long ls fs = (fs, refl)
  lots_before-kept average long ls fs = collapse_to_average-kept ratio long ls fs

  -- Booking the lots of a fill leaves one-sided lots, and moves the position by the fill.
  book_lots-moves :
      (l : PositionLedger) (f : Fill)
      → IsOneSided l.lots
      → let l' = (book_lots ratio l f).0 in
        IsOneSided l'.lots × (quantity_of l'.lots ≡ quantity_of l.lots +ℤ signed f)
  unfolding book_lots IsOneSided
  book_lots-moves l f (long, fs) =
      let (fs', kept) = lots_before-kept l.method long l.lots fs in
      let lots : List Lot = lots_before ratio l.method l.lots in
      let m : Matching = record { lots = lots; remaining = signed f; closing = [] } in
      let m' = match_lots (suc (length lots)) l.method l.multiplier f m in
      let i : IsBalanced long (quantity_of l.lots +ℤ signed f) m' =
        match_lots-IsBalanced (suc (length lots)) long (quantity_of l.lots +ℤ signed f) l.method
          l.multiplier f m (record { faces = fs'; position = ap (λ q. q +ℤ signed f) kept }) in
      let done : next_lot l.method m'.lots m'.remaining ≡ none =
        unfold IsDone in
        match_lots-IsDone (suc (length lots)) l.method l.multiplier f m (omega arith) in
      (
        open_rest-IsOneSided l.method f long m'.lots m'.remaining i.faces done,
        quantity_of-append m'.lots (open_rest m'.remaining f)
            ∙ ap (λ q. quantity_of m'.lots +ℤ q) (quantity_of-open_rest m'.remaining f)
            ∙ i.position,
      )

  -- Booking the lots of a fill that is on record already but not in the position.
  book_lots-IsLedger :
      (l : PositionLedger) (f : Fill) (fs : List Fill)
      → IsOneSided l.lots
      → quantity_of l.lots ≡ total signed fs
      → l.seen ≡ fs ++ f ∷ []
      → l.fills_with_unknown_fee ≡ total unknown_fee l.seen
      → AreOnce l.seen
      → IsLedger (book_lots ratio l f).0
  book_lots-IsLedger l f fs one_sided position on_record counted once =
      let (one_sided', moved) = book_lots-moves l f one_sided in
      record {
        one_sided = one_sided';
        position =
            moved
            ∙ ap (λ q. q +ℤ signed f) position
            ∙ sym (total-append signed fs f)
            ∙ (unfold book_lots in ap (total signed) (sym on_record));
        counted = unfold book_lots in counted;
        once = unfold book_lots in once;
      }

  book_new-IsLedger :
      (l : PositionLedger) (f : Fill)
      → IsLedger l
      → find_seen f l.seen ≡ none
      → IsLedger (book_new ratio l f).0
  unfolding book_new
  book_new-IsLedger l f i fresh = elim (Bool-cases (lacks_currency f.fee f.fee_currency)) [
    | inl lacking ↦ rw lacking i
    | inr stated ↦ rw stated (
        let l' : PositionLedger = record l { seen = l.seen ++ f ∷ [] } in
        let more : total unknown_fee (l.seen ++ f ∷ [])
            ≡ l.fills_with_unknown_fee +ℤ unknown_fee f =
          total-append unknown_fee l.seen f ∙ ap (λ q. q +ℤ unknown_fee f) (sym i.counted) in
        let once = AreOnce-append f l.seen i.once fresh in
        unfold count_fee in
        elim (Bool-cases (is_some f.fee)) [
          | inl told ↦
              let same : l.fills_with_unknown_fee ≡ total unknown_fee (l.seen ++ f ∷ []) =
                sym (+ℤ_zero l.fills_with_unknown_fee)
                ∙ subst
                    (λ b.
                      l.fills_with_unknown_fee +ℤ (if b then pos 0 else pos 1)
                      ≡ total unknown_fee (l.seen ++ f ∷ []))
                    told (sym more) in
              rw told (book_lots-IsLedger _ f l.seen i.one_sided i.position refl same once)
          | inr untold ↦
              let one : l.fills_with_unknown_fee +ℤ pos 1 ≡ total unknown_fee (l.seen ++ f ∷ []) =
                subst
                  (λ b.
                    l.fills_with_unknown_fee +ℤ (if b then pos 0 else pos 1)
                    ≡ total unknown_fee (l.seen ++ f ∷ []))
                  untold (sym more) in
              rw untold (book_lots-IsLedger _ f l.seen i.one_sided i.position refl one once)
        ])
  ]

  kept-IsLedger : (l : PositionLedger) (f : Fill) → IsLedger l → IsLedger (apply ratio l f).0
  unfolding apply
  kept-IsLedger l f i = elim (Option-cases (find_seen f l.seen)) [
    | inr (known, e) ↦ rw (e, apply) (merge_report-IsLedger l known f i e)
    | inl fresh ↦ elim (Option-cases l.symbol) [
      | inl first ↦
          rw (fresh, first, apply)
            (book_new-IsLedger (record l { symbol = some f.symbol }) f
              (record {
                one_sided = i.one_sided;
                position = i.position;
                counted = i.counted;
                once = i.once;
              })
              fresh)
      | inr (s, e) ↦ elim (Bool-cases (symbol_eq f.symbol s)) [
        | inl same ↦ rw (fresh, e, apply, same) (book_new-IsLedger l f i fresh)
        | inr other ↦ rw (fresh, e, apply, other) i
      ]
    ]
  ]

  -- A report that reaches the books and is not refused is on record after it. And whatever report
  -- reaches books of which this holds, booked or refused, it holds after it: no fill is on record
  -- twice, the lots are on one side and make up the net position of the fills on record, and the
  -- fills whose fee is unknown are counted.
  pub apply-IsLedger :
      (l : PositionLedger) (f : Fill)
      → IsLedger l
      → IsLedger (apply ratio l f).0 × IsRecorded f (apply ratio l f)
  apply-IsLedger l f i = (kept-IsLedger l f i, apply-IsRecorded ratio l f)

  apply_all-IsLedger :
      (l : PositionLedger) (fs : List Fill) {l' : PositionLedger}
      → IsLedger l
      → apply_all ratio l fs ≡ some l'
      → IsLedger l'
  unfolding apply_all
  apply_all-IsLedger l [] {l' = l'} i e = let same : l ≡ l' = ground arith in subst IsLedger same i
  apply_all-IsLedger l (f ∷ fs) i e = elim (Booking-cases (apply ratio l f).1) [
    | inl (closing, went) ↦
        apply_all-IsLedger (apply ratio l f).0 fs (kept-IsLedger l f i) (ground arith)
    | inr (error, stopped) ↦ ground arith
  ]

  -- Books built from any fills, in any order, by any lot method, add up.
  pub build_ledger-IsLedger :
      (method : LotMethod) (k : Decimal) (fills : List Fill) {l : PositionLedger}
      → build_ledger ratio method k fills ≡ some l
      → IsLedger l
  unfolding build_ledger
  build_ledger-IsLedger method k fills e =
      apply_all-IsLedger (new_ledger method k) (sorted_by_ts fills) (new_ledger-IsLedger method k) e

  -- Everything but the symbol, which a refused first fill sets all the same.
  pub record SameBooks (l l' : PositionLedger) : Type 0 where
    pub same_lots : l'.lots ≡ l.lots
    pub same_trades : l'.realized_trades ≡ l.realized_trades
    pub same_fees : l'.fees ≡ l.fees
    pub same_count : l'.fills_with_unknown_fee ≡ l.fills_with_unknown_fee
    pub same_seen : l'.seen ≡ l.seen

  same_books : (l : PositionLedger) → SameBooks l l
  same_books l = record {
    same_lots = refl;
    same_trades = refl;
    same_fees = refl;
    same_count = refl;
    same_seen = refl;
  }

  refused_merge :
      (l : PositionLedger) (known f : Fill) {e : LedgerError}
      → (merge_report l known f).1 ≡ raised e
      → SameBooks l (merge_report l known f).0
  unfolding merge_report
  refused_merge l known f h =
      let g = merged_fill known f in
      elim (Bool-cases (same_execution known f)) [
        | inr other ↦ rw other (same_books l)
        | inl same ↦ elim (Bool-cases (fees_differ known f)) [
          | inl disputed ↦ rw (same, disputed) (same_books l)
          | inr agreed ↦ elim (Bool-cases (lacks_currency g.fee g.fee_currency)) [
            | inl lacking ↦ rw (same, agreed, lacking) (same_books l)
            | inr stated ↦ ground arith
          ]
        ]
      ]

  refused_new :
      (l : PositionLedger) (f : Fill) {e : LedgerError}
      → (book_new ratio l f).1 ≡ raised e
      → (book_new ratio l f).0 ≡ l
  unfolding book_new book_lots
  refused_new l f h = elim (Bool-cases (lacks_currency f.fee f.fee_currency)) [
    | inl lacking ↦ rw lacking refl
    | inr stated ↦ ground arith
  ]

  -- A fill that `apply` refuses, on whichever of its grounds, books nothing: lots, trades, fees,
  -- the count of unknown fees and the fills on record are as before.
  pub refused-SameBooks :
      (l : PositionLedger) (f : Fill) {e : LedgerError}
      → (apply ratio l f).1 ≡ raised e
      → SameBooks l (apply ratio l f).0
  unfolding apply
  refused-SameBooks l f {e = e} h = elim (Option-cases (find_seen f l.seen)) [
    | inr (known, found) ↦
        let h' : (merge_report l known f).1 ≡ raised e = ground arith in
        rw (found, apply) (refused_merge l known f h')
    | inl fresh ↦ elim (Option-cases l.symbol) [
      | inl first ↦
          let l₁ : PositionLedger = record l { symbol = some f.symbol } in
          let h' : (book_new ratio l₁ f).1 ≡ raised e = ground arith in
          rw (fresh, first, apply)
            (subst (SameBooks (record l { symbol = none })) (sym (refused_new l₁ f h')) (record {
              same_lots = refl;
              same_trades = refl;
              same_fees = refl;
              same_count = refl;
              same_seen = refl;
            }))
      | inr (s, at) ↦ elim (Bool-cases (symbol_eq f.symbol s)) [
        | inl same ↦
            let h' : (book_new ratio l f).1 ≡ raised e = ground arith in
            let step : apply ratio l f ≡ book_new ratio l f = ground arith in
            subst (λ x. SameBooks l x.0) (sym step)
              (subst (SameBooks l) (sym (refused_new l f h')) (same_books l))
        | inr other ↦
            let step : (apply ratio l f).0 ≡ l = ground arith in
            subst (SameBooks l) (sym step) (same_books l)
      ]
    ]
  ]
