-- ===== src/Accounting/Lots.antt =====
-- The lots of `PositionLedger` (src/ismet/accounting/__init__.py) and the loop that matches a fill
-- against them.
use ismet.Prelude.{
  ℕ, suc, zero, Bool, not, ◌&&◌, Option, none, some, List, [], ◌∷◌, ◌++◌, Text, Decimal, pos,
  negsuc, ◌+ℤ◌, ◌-ℤ◌, ◌*ℤ◌, abs, min_ℤ, ltb_ℤ, eqb_ℤ, if◌then◌else◌,
}
use ismet.Models.Orders.{Fill, differ}

pub data LotMethod : Type 0 where
  fifo lifo average : LotMethod

-- `quantity` is negative for a short lot.
pub record Lot : Type 0 where
  pub quantity : Decimal
  pub price : Decimal
  pub opened_by : Text

pub record RealizedTrade : Type 0 where
  pub quantity : Decimal
  pub open_price : Decimal
  pub close_price : Decimal
  pub pnl : Decimal
  pub opened_by : Text
  pub closed_by : Text

-- The `quantity` property.
unfoldable pub quantity_of : List Lot → Decimal
quantity_of [] = pos 0
quantity_of (l ∷ ls) = l.quantity +ℤ quantity_of ls

-- The `cost_basis` property.
unfoldable pub cost_basis : List Lot → Decimal
cost_basis [] = pos 0
cost_basis (l ∷ ls) = l.quantity *ℤ l.price +ℤ cost_basis ls

-- `_opposes`, with at least one lot.
abbrev pub opposes : Lot → Decimal → Bool
opposes l signed = differ (ltb_ℤ (pos 0) l.quantity) (ltb_ℤ (pos 0) signed)

-- `lots[-1]`, where the first lot is `l`.
unfoldable pub last_lot : Lot → List Lot → Lot
last_lot l [] = l
last_lot l (m ∷ ls) = last_lot m ls

-- `lots[-1]` replaced by the lots `new`, which are one or none.
unfoldable pub set_last : Lot → List Lot → List Lot → List Lot
set_last l [] new = new
set_last l (m ∷ ls) new = l ∷ set_last m ls new

-- `lots[index]`
abbrev pub lot_at : LotMethod → Lot → List Lot → Lot
lot_at lifo l ls = last_lot l ls
lot_at _ l ls = l

-- `lots.pop(index)` or `lots[index] = ...`
abbrev pub set_lot : LotMethod → Lot → List Lot → List Lot → List Lot
set_lot lifo l ls new = set_last l ls new
set_lot _ l ls new = new ++ ls

abbrev pub sign_of : Decimal → Decimal
sign_of q = if ltb_ℤ (pos 0) q then pos 1 else negsuc 0

abbrev pub matched : Decimal → Lot → Decimal
matched remaining l = min_ℤ (abs remaining) (abs l.quantity)

unfoldable pub trade : Decimal → Fill → Decimal → Lot → RealizedTrade
trade multiplier f remaining l =
    let m = matched remaining l in
    record {
      quantity = m;
      open_price = l.price;
      close_price = f.price;
      pnl = sign_of l.quantity *ℤ m *ℤ (f.price -ℤ l.price) *ℤ multiplier;
      opened_by = l.opened_by;
      closed_by = f.fill_id;
    }

-- What is left of the matched lot.
unfoldable pub rest_of : Decimal → Lot → List Lot
rest_of remaining l =
    let left = abs l.quantity -ℤ matched remaining l in
    if eqb_ℤ left (pos 0) then [] else (record l { quantity = sign_of l.quantity *ℤ left }) ∷ []

unfoldable pub remaining_after : Decimal → Lot → Decimal
remaining_after remaining l =
    let m = matched remaining l in
    if ltb_ℤ remaining (pos 0) then remaining +ℤ m else remaining -ℤ m

-- The state of the loop.
pub record Matching : Type 0 where
  pub lots : List Lot
  pub remaining : Decimal
  pub closing : List RealizedTrade

-- The loop's condition, and the lot that it would match.
abbrev pub next_lot : LotMethod → List Lot → Decimal → Option Lot
next_lot method [] remaining = none
next_lot method (l ∷ ls) remaining =
    if not (eqb_ℤ remaining (pos 0)) && opposes l remaining then some (lot_at method l ls) else none

abbrev pub set_next : LotMethod → List Lot → List Lot → List Lot
set_next method [] new = new
set_next method (l ∷ ls) new = set_lot method l ls new

-- The loop's body.
unfoldable pub match_once : LotMethod → Decimal → Fill → Matching → Lot → Matching
match_once method multiplier f m l = record {
  lots = set_next method m.lots (rest_of m.remaining l);
  remaining = remaining_after m.remaining l;
  closing = m.closing ++ trade multiplier f m.remaining l ∷ [];
}

-- The loop, on fuel: an iteration drops a lot or leaves nothing to match.
unfoldable pub match_lots : ℕ → LotMethod → Decimal → Fill → Matching → Matching
match_lots zero method multiplier f m = m
match_lots (suc n) method multiplier f m = elim (next_lot method m.lots m.remaining) [
  | none ↦ m
  | some l ↦ match_lots n method multiplier f (match_once method multiplier f m l)
]
