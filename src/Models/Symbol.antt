-- ===== src/Models/Symbol.antt =====
-- src/ismet/models/symbol.py: the identity of an instrument on one venue. Two symbols are equal
-- when their venue and ticker are, whatever identifiers they carry. A venue code holds no `@`, so
-- `str(symbol)` tells two symbols apart exactly when `==` does.
use ismet.Prelude.{
  Bool, true, false, not, ◌&&◌, Option, some, List, Text, ◌==◌, ◌≡◌, arith, if◌then◌else◌,
}

pub record Symbol : Type 0 where
  pub venue : Text
  pub ticker : Text
  pub isin : Option Text
  pub figi : Option Text
  pub cusip : Option Text
  pub sedol : Option Text
  pub vendor_codes : List (Text × Text)

-- `Symbol.__eq__`, on the key.
abbrev pub symbol_eq : Symbol → Symbol → Bool
symbol_eq a b = a.venue == b.venue && a.ticker == b.ticker

-- `mine is not None and theirs is not None and mine != theirs`
abbrev pub conflicts : Option Text → Option Text → Bool
conflicts (some mine) (some theirs) = not (mine == theirs)
conflicts _ _ = false

-- The loop of `same_identifiers`, over its four names.
unfoldable pub same_identifiers : Symbol → Symbol → Bool
same_identifiers a b =
    if conflicts a.isin b.isin
    then false
    else if conflicts a.figi b.figi
    then false
    else if conflicts a.cusip b.cusip
    then false
    else if conflicts a.sedol b.sedol
    then false
    else true

pub symbol_eq_self : (a : Symbol) → symbol_eq a a ≡ true
symbol_eq_self a = ground arith
