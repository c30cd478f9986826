-- ===== src/Risk/Windows.antt =====
-- src/ismet/execution/risk.py: the sliding window of accepted orders in one scope, and the recent
-- orders that a duplicate is looked for in. Times are ticks, `second` of them to a second.
use ismet.Prelude.{
  ℕ, ◌+◌, Bool, true, false, ◌&&◌, List, [], ◌∷◌, ◌++◌, leb, ltb, ◌==◌, eqb_ℤ, length,
  if◌then◌else◌,
}
use ismet.Models.Symbol.{symbol_eq}
use ismet.Models.Orders.{
  OrderRequest, OrderType, market, limit, stop, stop_limit, side_eq, decimal_option_eq,
  text_option_eq,
}

-- The loop of `_Throttle.count`; what is left is counted.
unfoldable pub prune : ℕ → ℕ → List ℕ → List ℕ
prune second now [] = []
prune second now (x ∷ xs) = if leb (x + second) now then prune second now xs else x ∷ xs

-- `_Throttle.count`, with the window that it leaves.
unfoldable pub count : ℕ → ℕ → List ℕ → List ℕ × ℕ
count second now window = let left = prune second now window in (left, length left)

-- `_Throttle.record`
unfoldable pub record_sent : ℕ → List ℕ → List ℕ
record_sent now window = window ++ now ∷ []

-- `sent >= limits.max_orders_per_second`
abbrev pub too_fast : ℕ → ℕ → Bool
too_fast sent max_orders = leb max_orders sent

-- What `RiskEngine.check` does to the window of a scope with a limit: an earlier check may refuse
-- before the window is read, and a later scope after it.
pub data Check : Type 0 where
  refused_before : (now : ℕ) → Check
  refused_after : (now : ℕ) → Check
  allowed_otherwise : (now : ℕ) → Check

-- The window after a check, and the times of the orders that are accepted.
unfoldable pub check_rate : ℕ → ℕ → List ℕ × List ℕ → Check → List ℕ × List ℕ
check_rate second max_orders (window, accepted) (refused_before now) = (window, accepted)
check_rate second max_orders (window, accepted) (refused_after now) =
    ((count second now window).0, accepted)
check_rate second max_orders (window, accepted) (allowed_otherwise now) =
    let (left, sent) = count second now window in
    if too_fast sent max_orders
    then (left, accepted)
    else (record_sent now left, accepted ++ now ∷ [])

unfoldable pub check_rates : ℕ → ℕ → List ℕ × List ℕ → List Check → List ℕ × List ℕ
check_rates second max_orders s [] = s
check_rates second max_orders s (c ∷ cs) =
    check_rates second max_orders (check_rate second max_orders s c) cs

abbrev pub type_code : OrderType → ℕ
type_code market = 0
type_code limit = 1
type_code stop = 2
type_code stop_limit = 3

-- Whether two requests have the same `_fingerprint`.
unfoldable pub same_fingerprint : OrderRequest → OrderRequest → Bool
same_fingerprint a b =
    symbol_eq a.symbol b.symbol
    && side_eq a.side b.side
    && eqb_ℤ a.quantity b.quantity
    && type_code a.order_type == type_code b.order_type
    && decimal_option_eq a.limit_price b.limit_price
    && decimal_option_eq a.stop_price b.stop_price
    && text_option_eq a.account b.account
    && text_option_eq a.strategy b.strategy

-- `_recent`, oldest first; an entry stands for the fingerprint of its request.
abbrev pub Recent : Type 0
Recent = List (ℕ × OrderRequest)

-- The first loop of `_check_duplicate`.
unfoldable pub forget : ℕ → ℕ → Recent → Recent
forget span now [] = []
forget span now ((t, r) ∷ rs) = if leb (t + span) now then forget span now rs else (t, r) ∷ rs

-- The second loop: whether a request is among the recent ones.
unfoldable pub seen_in : OrderRequest → Recent → Bool
seen_in q [] = false
seen_in q ((t, r) ∷ rs) = let rest = seen_in q rs in if same_fingerprint r q then true else rest

-- `_check_duplicate`, with `true` for a refusal.
unfoldable pub check_duplicate : ℕ → ℕ → OrderRequest → Recent → Recent × Bool
check_duplicate span now q recent = let left = forget span now recent in (left, seen_in q left)

-- `_record`, where the window of duplicates is `span` ticks.
unfoldable pub record_recent : ℕ → ℕ → OrderRequest → Recent → Recent
record_recent span now q recent = if ltb 0 span then recent ++ (now, q) ∷ [] else recent

-- What `RiskEngine.check` does to the recent orders: an earlier check may refuse, a later one, or
-- none of the others; an amend skips the check of duplicates and is recorded all the same.
pub data Submission : Type 0 where
  stopped_before : (now : ℕ) → Submission
  stopped_after : (now : ℕ) (request : OrderRequest) → Submission
  new_order_at : (now : ℕ) (request : OrderRequest) → Submission
  amended_at : (now : ℕ) (request : OrderRequest) → Submission

-- The recent orders after a submission, and all that were approved, with their times.
unfoldable pub submit : ℕ → Recent × Recent → Submission → Recent × Recent
submit span (recent, approved) (stopped_before now) = (recent, approved)
submit span (recent, approved) (stopped_after now q) =
    ((check_duplicate span now q recent).0, approved)
submit span (recent, approved) (new_order_at now q) =
    let (left, refused) = check_duplicate span now q recent in
    if refused then (left, approved) else (record_recent span now q left, approved ++ (now, q) ∷ [])
submit span (recent, approved) (amended_at now q) =
    (record_recent span now q recent, approved ++ (now, q) ∷ [])

unfoldable pub submit_all : ℕ → Recent × Recent → List Submission → Recent × Recent
submit_all span s [] = s
submit_all span s (c ∷ cs) = submit_all span (submit span s c) cs
