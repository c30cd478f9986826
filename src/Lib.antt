-- ===== src/Lib.antt =====
-- Verification of ismet, a library for market data, reference data and order execution: models of
-- its stateful core, translated from src/ismet, and the theorems that make them correct.
--
-- The parts and how they interact:
-- - Prelude: Boolean tests, lists, signed integers and dicts over native numbers.
-- - Models: what the parts exchange. Models/Symbol.antt and Models/Orders.antt model
--   src/ismet/models/symbol.py and src/ismet/models/orders.py, Models/Decimals.antt the rounding to a
--   step of src/ismet/models/decimals.py.
-- - Execution: the state of one order (src/ismet/execution/state.py). State.antt has the record and
--   what is read from it, Reports.antt the merging of reports of one fill, Apply.antt
--   `apply_event`: `transitions` is the table `TRANSITIONS`, `apply_fill` is `_apply_fill`,
--   `apply_bust`, `apply_restated`, `apply_replaced` and `note_exposed_overfill` are the functions of
--   these names, `dispatch` is `_apply`. Replay.antt has `replay`, from an event log to every order.
-- - Accounting: the books of one instrument (src/ismet/accounting/__init__.py), which reads and
--   merges fills by the functions of Execution/Reports.antt. Lots.antt has the lots and the matching
--   loop, Ledger.antt `PositionLedger.apply` and `build_ledger`.
-- - Book: the order book builder (src/ismet/marketdata/book.py). Side.antt has `_Side`, Builder.antt
--   `BookBuilder`; Feed.antt describes, independently of the code, a venue whose numbered updates,
--   each of one level and of its own number alone, make a true book. Updates of several levels that
--   share a number are modelled, but not in that venue: the builder cannot tell that one of the
--   levels of such an update was lost.
-- - Transport: the circuit breaker (src/ismet/transport/circuit.py). Circuit.antt has its methods.
-- - Risk: the checks of an order's exposure (src/ismet/execution/risk.py) in Checks.antt, which read
--   the order states of Execution; Windows.antt has the throttle and the recent orders of
--   `RiskEngine`, Scopes.antt `limits_for` and the count of open orders, Held.antt counts them
--   independently of the code; the text of a symbol in upper
--   case, made by Python's strings, is a parameter there.
-- - Refdata: the check digits of ISIN, CUSIP, SEDOL, FIGI and LEI (src/ismet/refdata/identifiers.py).
--   Identifiers.antt has the five `validate_` functions; `checked` is the body they share, and a text
--   is a list of ASCII code points there.
-- - Fix: the codec of FIX messages (src/ismet/fix/message.py) and the session that uses it
--   (src/ismet/fix/session.py). Bytes.antt has what the codec uses of Python's bytes, Message.antt the
--   encoding (`encode_fields`, `encode_frame`, `encode`), Parse.antt `parse_fields`, `_scan_frame` in
--   its stages `scan_frame`, `scan_length`, `scan_digits` and `scan_body`, and `decode`, Stream.antt
--   `FixStreamParser`, where `round` is one round of the loop of `feed`. Session.antt has the state of
--   `FixSession` and `_advance`, Session/Resend.antt `_resend`, Session/Inbound.antt and
--   Session/Handle.antt `_handle` and the handlers that it calls. A message of the session is a
--   message of Parse.antt, read by its tags.
--
-- How state and operations correspond to the code: a record has the fields of its class, an
-- operation takes the state and returns the new one, and a raised exception is a constructor of the
-- result, with the state that it leaves behind where that can differ. Outside Fix and Refdata, texts are only compared, so
-- they are numbers, and 0 is the empty text. Decimals are exact in the source: they are integers in
-- units of their field's finest step, and a product counts in the product of the units. Times are
-- numbers of ticks, and a reading of a clock is an argument.
--
-- Bounds and fuel: there is no bound on prices, quantities or lengths. Fuel is used in three
-- places, and is enough in each: the matching loop of Accounting/Lots.antt has one more than the
-- number of lots, the loop of `parse_fields` the number of bytes, of which each round takes one at
-- least, and the loop of `feed` one more than `rounds`, at most two for each byte. All other loops are recursion on a list. The quotient `ratio` of src/ismet/models/decimals.py
-- rounds in a decimal context, a part of Python, and is a parameter of the books, with no hypothesis
-- about it.
--
-- Not modelled: the order manager, its journal and reconciliation, the timer and the connection of the FIX
-- session, its store and provider, timestamps, the rest of the risk engine
-- (session, reference age, collar, instrument and venue rules), the tables of reference data, calendars, and all that is
-- input and output (HTTP, WebSocket, providers, storage, command line).
pub mod Prelude
pub mod Models
pub mod Execution
pub mod Accounting
pub mod Book
pub mod Transport
pub mod Risk
pub mod Refdata
pub mod Fix
