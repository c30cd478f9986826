-- ===== src/Accounting/Tests.antt =====
-- The books of src/ismet/accounting/__init__.py at concrete fills. The quotient is the natural one,
-- rounded down, with no sign: the fills below need no other.
use ismet.Prelude.{
  true, none, some, [], ◌∷◌, Decimal, pos, negsuc, pos_part, ◌/◌, ◌+ℤ◌, ◌-ℤ◌, ◌*ℤ◌, abs, min_ℤ, ◌≡◌,
  refl, arith,
}
use ismet.Models.Symbol.{Symbol}
use ismet.Models.Orders.{Fill, buy, sell, Liquidity}
use ismet.Accounting.Lots.{
  lifo, quantity_of, match_lots, match_once, last_lot, set_last, trade, rest_of, remaining_after,
}
use ismet.Accounting.Ledger.{
  PositionLedger, other_symbol, find_seen, count_fee, book_lots, book_new, apply,
}
use ismet.Accounting.Matching.{IsDone, match_lots-IsDone}
use ismet.Accounting.Once.{AreOnce}
use ismet.Accounting.Invariant.{IsLedger, total}
use ismet.Accounting.Books.{IsOneSided}
use ismet.Accounting.Recorded.{IsRecorded}
use ismet.Accounting.Applied.{apply-IsLedger, SameBooks, refused-SameBooks}

abbrev quotient : Decimal → Decimal → Decimal
quotient a b = pos (pos_part a / pos_part b)

abbrev share : Symbol
share = record {
  venue = 5;
  ticker = 6;
  isin = none;
  figi = none;
  cusip = none;
  sedol = none;
  vendor_codes = [];
}

abbrev bought : Fill
bought = record {
  fill_id = 1;
  client_order_id = 1;
  symbol = share;
  side = buy;
  price = pos 10;
  quantity = pos 4;
  ts = 1;
  venue_order_id = none;
  fee = none;
  fee_currency = none;
  liquidity = Liquidity.unknown;
}

abbrev bought_more : Fill
bought_more = record bought { fill_id = 2; price = pos 12; ts = 2 }

abbrev sold : Fill
sold = record bought { fill_id = 3; side = sell; price = pos 15; quantity = pos 5; ts = 3 }

abbrev books : PositionLedger
books = record {
  method = lifo;
  multiplier = pos 1;
  lots =
      record { quantity = pos 4; price = pos 10; opened_by = 1 }
      ∷ record { quantity = pos 4; price = pos 12; opened_by = 2 }
      ∷ [];
  realized_trades = [];
  fees = [];
  fills_with_unknown_fee = pos 2;
  symbol = some share;
  seen = bought ∷ bought_more ∷ [];
}

-- The last lot is closed first, then a part of the first.
lifo_sale : quantity_of (apply quotient books sold).0.lots ≡ pos 3
unfolding apply find_seen book_new count_fee book_lots match_lots match_once last_lot set_last trade
    rest_of remaining_after quantity_of abs min_ℤ ◌+ℤ◌ ◌-ℤ◌ ◌*ℤ◌
lifo_sale = refl

books-IsLedger : IsLedger books
books-IsLedger = record {
  once = unfold AreOnce find_seen in (refl, (refl, tt));
  one_sided = unfold IsOneSided in (true, (omega arith, (omega arith, tt)));
  position = unfold quantity_of total ◌+ℤ◌ ◌*ℤ◌ in refl;
  counted = unfold total ◌+ℤ◌ in refl;
}

apply-IsLedger_example :
    IsLedger (apply quotient books sold).0 × IsRecorded sold (apply quotient books sold)
apply-IsLedger_example = apply-IsLedger quotient books sold books-IsLedger

refused-SameBooks_example :
    let stray = record bought { fill_id = 4; symbol = record share { ticker = 9 } } in
    SameBooks quotient books (apply quotient books stray).0
unfolding apply find_seen
refused-SameBooks_example =
    refused-SameBooks quotient books
      (record bought { fill_id = 4; symbol = record share { ticker = 9 } }) {e = other_symbol} refl

match_lots-IsDone_example : IsDone lifo (
    match_lots 3 lifo
      (pos 1)
      sold
      (record { lots = books.lots; remaining = negsuc 4; closing = [] }))
match_lots-IsDone_example =
    match_lots-IsDone 3 lifo (pos 1) sold
      (record { lots = books.lots; remaining = negsuc 4; closing = [] }) (omega arith)
