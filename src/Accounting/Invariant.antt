-- ===== src/Accounting/Invariant.antt =====
-- What it means that the books of a `PositionLedger` (src/ismet/accounting/__init__.py) add up,
-- and that a merged report leaves them so.
use ismet.Prelude.{
  Bool, true, not, ◌&&◌, some, List, [], ◌∷◌, ◌++◌, Decimal, ℤ, pos, ◌+ℤ◌, ◌-ℤ◌, ◌*ℤ◌,
  if◌then◌else◌, ◌≡◌, refl, sym, ◌∙◌, ap, inl, inr, pos_part, neg_part, arith, Bool-cases, +ℤ_parts,
  -ℤ_parts, +ℤ_assoc, +ℤ_comm, eq_of_parts,
}
use mathlib.Core.Path.{subst, subst₂}
use ismet.Models.Orders.{Fill, sign, is_some}
use ismet.Execution.Reports.{merged_fill, same_execution, fees_differ}
use ismet.Accounting.Lots.{LotMethod, quantity_of}
use ismet.Accounting.Ledger.{
  PositionLedger, new_ledger, Booking, booked, find_seen, set_seen, same_key, book_fee,
  lacks_currency, merge_report,
}
use ismet.Accounting.Books.{IsOneSided}
use ismet.Accounting.Once.{AreOnce, AreOnce-set_seen}

unfoldable pub total : (Fill → Decimal) → List Fill → Decimal
total v [] = pos 0
total v (f ∷ fs) = v f +ℤ total v fs

-- What a fill adds to the position.
abbrev pub signed : Fill → Decimal
signed f = sign f.side *ℤ f.quantity

-- 1 for a fill without a fee.
abbrev pub unknown_fee : Fill → Decimal
unknown_fee f = if is_some f.fee then pos 0 else pos 1

-- The lots are on one side and make up the net position of the fills on record, each of them once,
-- and the fees that are not known are counted.
pub record IsLedger (l : PositionLedger) : Type 0 where
  pub once : AreOnce l.seen
  pub one_sided : IsOneSided l.lots
  pub position : quantity_of l.lots ≡ total signed l.seen
  pub counted : l.fills_with_unknown_fee ≡ total unknown_fee l.seen

pub new_ledger-IsLedger : (method : LotMethod) (k : Decimal) → IsLedger (new_ledger method k)
unfolding new_ledger
new_ledger-IsLedger method k = record {
  once = unfold AreOnce in tt;
  one_sided = unfold IsOneSided in (true, tt);
  position = unfold quantity_of total in refl;
  counted = unfold total in refl;
}

pub total-append :
    (v : Fill → Decimal) (fs : List Fill) (f : Fill) → total v (fs ++ f ∷ []) ≡ total v fs +ℤ v f
unfolding total
total-append v [] f = +ℤ_comm (v f) (pos 0)
total-append v (g ∷ fs) f =
    ap (λ q. v g +ℤ q) (total-append v fs f) ∙ sym (+ℤ_assoc (v g) (total v fs) (v f))

swap : (a b c : ℤ) → (a +ℤ b) +ℤ c ≡ (c +ℤ b) +ℤ a
swap a b c =
    eq_of_parts ((a +ℤ b) +ℤ c) ((c +ℤ b) +ℤ a)
      (omega (arith, +ℤ_parts a b, +ℤ_parts c b, +ℤ_parts (a +ℤ b) c, +ℤ_parts (c +ℤ b) a))

-- Replacing a seen fill by another with its key.
total-set_seen :
    (v : Fill → Decimal) (f g known : Fill) (fs : List Fill)
    → find_seen f fs ≡ some known
    → f.client_order_id ≡ g.client_order_id
    → f.fill_id ≡ g.fill_id
    → total v (set_seen g fs) +ℤ v known ≡ total v fs +ℤ v g
unfolding total set_seen find_seen
total-set_seen v f g known [] e c i = ground arith
total-set_seen v f g known (x ∷ fs) e c i =
    let same : same_key x f ≡ same_key x g = ground arith in
    elim (Bool-cases (same_key x g)) [
      | inl found ↦
          let at : x ≡ known = ground arith in
          rw found (
            subst (λ (y : Fill). (v g +ℤ total v fs) +ℤ v y ≡ (v x +ℤ total v fs) +ℤ v g) at
              (swap (v g) (total v fs) (v x)))
      | inr other ↦
          let later : find_seen f fs ≡ some known = ground arith in
          rw other (
            +ℤ_assoc (v x) (total v (set_seen g fs)) (v known)
            ∙ ap (λ q. v x +ℤ q) (total-set_seen v f g known fs later c i)
            ∙ sym (+ℤ_assoc (v x) (total v fs) (v g)))
    ]

find_seen-key :
    (f : Fill) (fs : List Fill) (known : Fill)
    → find_seen f fs ≡ some known
    → (known.client_order_id ≡ f.client_order_id) × (known.fill_id ≡ f.fill_id)
unfolding find_seen
find_seen-key f [] known e = ground arith
find_seen-key f (x ∷ fs) known e = elim (Bool-cases (same_key x f)) [
  | inl found ↦ ground arith
  | inr other ↦ find_seen-key f fs known (ground arith)
]

-- What a merged report keeps of the fill that it is merged into.
record Keeps (known g : Fill) : Type 0 where
  same_order : g.client_order_id ≡ known.client_order_id
  same_fill : g.fill_id ≡ known.fill_id
  same_signed : signed g ≡ signed known
  fee_kept : is_some known.fee ≡ true → is_some g.fee ≡ true

merged_fill-Keeps : (known report : Fill) → Keeps known (merged_fill known report)
unfolding merged_fill
merged_fill-Keeps known report = elim (Bool-cases (fees_differ known report)) [
  | inl differ ↦
      rw differ
        (record { same_order = refl; same_fill = refl; same_signed = refl; fee_kept = λ h. h })
  | inr agree ↦ rw agree (record {
    same_order = refl;
    same_fill = refl;
    same_signed = refl;
    fee_kept = λ h. ground arith;
  })
]

cancel : (a b c : ℤ) → a +ℤ c ≡ b +ℤ c → a ≡ b
cancel a b c h =
    eq_of_parts a b (omega (arith, ap pos_part h, ap neg_part h, +ℤ_parts a c, +ℤ_parts b c))

take_one : (a b : ℤ) → a +ℤ pos 1 ≡ b +ℤ pos 0 → b -ℤ pos 1 ≡ a
take_one a b h = eq_of_parts (b -ℤ pos 1) a (
    omega (
      arith,
      ap pos_part h,
      ap neg_part h,
      +ℤ_parts a (pos 1),
      +ℤ_parts b (pos 0),
      -ℤ_parts b (pos 1),
    ))

-- The state that a merge keeps, by whether the fee was and is known.
abbrev merged_ledger : PositionLedger → Fill → Fill → PositionLedger × Booking
merged_ledger l known g =
    let kept = record l { seen = set_seen g l.seen } in
    if not (is_some known.fee) && is_some g.fee
    then (
      record kept {
        fills_with_unknown_fee = l.fills_with_unknown_fee -ℤ pos 1;
        fees = book_fee g.fee g.fee_currency l.fees;
      },
      booked [],
    )
    else (kept, booked [])

merged_ledger-IsLedger :
    (l : PositionLedger) (known g : Fill)
    → IsLedger l
    → quantity_of l.lots ≡ total signed (set_seen g l.seen)
    → total unknown_fee (set_seen g l.seen) +ℤ unknown_fee known
      ≡ total unknown_fee l.seen +ℤ unknown_fee g
    → (is_some known.fee ≡ true → is_some g.fee ≡ true)
    → IsLedger (merged_ledger l known g).0
merged_ledger-IsLedger l known g i position fees kept =
    let t' = total unknown_fee (set_seen g l.seen) in
    let t = total unknown_fee l.seen in
    let counts : Bool → Bool → Type 0 =
      λ a b. t' +ℤ (if a then pos 0 else pos 1) ≡ t +ℤ (if b then pos 0 else pos 1) in
    elim (Bool-cases (is_some known.fee)) [
      | inl had ↦
          let c : t' +ℤ pos 0 ≡ t +ℤ pos 0 = subst₂ counts had (kept had) fees in
          rw had (record {
            once = AreOnce-set_seen g l.seen i.once;
            one_sided = i.one_sided;
            position = position;
            counted = i.counted ∙ sym (cancel t' t (pos 0) c);
          })
      | inr lacked ↦ elim (Bool-cases (is_some g.fee)) [
        | inl told ↦
            let c : t' +ℤ pos 1 ≡ t +ℤ pos 0 = subst₂ counts lacked told fees in
            rw (lacked, told)
              (record {
                once = AreOnce-set_seen g l.seen i.once;
                one_sided = i.one_sided;
                position = position;
                counted = ap (λ q. q -ℤ pos 1) i.counted ∙ take_one t' t c;
              })
        | inr lacks ↦
            let c : t' +ℤ pos 1 ≡ t +ℤ pos 1 = subst₂ counts lacked lacks fees in
            rw (lacked, lacks)
              (record {
                once = AreOnce-set_seen g l.seen i.once;
                one_sided = i.one_sided;
                position = position;
                counted = i.counted ∙ sym (cancel t' t (pos 1) c);
              })
      ]
    ]

pub merge_report-IsLedger :
    (l : PositionLedger) (known report : Fill)
    → IsLedger l
    → find_seen report l.seen ≡ some known
    → IsLedger (merge_report l known report).0
unfolding merge_report
merge_report-IsLedger l known report i e =
    let g = merged_fill known report in
    let k = merged_fill-Keeps known report in
    let (key_order, key_fill) = find_seen-key report l.seen known e in
    let order : report.client_order_id ≡ g.client_order_id = sym key_order ∙ sym k.same_order in
    let id : report.fill_id ≡ g.fill_id = sym key_fill ∙ sym k.same_fill in
    let moved = total-set_seen signed report g known l.seen e order id in
    let fees = total-set_seen unknown_fee report g known l.seen e order id in
    let position : quantity_of l.lots ≡ total signed (set_seen g l.seen) =
      i.position
      ∙ sym (
          cancel (total signed (set_seen g l.seen)) (total signed l.seen) (signed known)
            (moved ∙ ap (λ q. total signed l.seen +ℤ q) k.same_signed)) in
    elim (Bool-cases (same_execution known report)) [
      | inr other ↦ rw other i
      | inl same ↦ rw same (elim (Bool-cases (fees_differ known report)) [
        | inl disputed ↦ rw disputed i
        | inr agreed ↦ rw agreed (elim (Bool-cases (lacks_currency g.fee g.fee_currency)) [
          | inl lacking ↦ rw lacking i
          | inr stated ↦ rw stated (merged_ledger-IsLedger l known g i position fees k.fee_kept)
        ])
      ])
    ]
