-- ===== src/Book/Builder.antt =====
-- src/ismet/marketdata/book.py: `BookDelta` and `BookBuilder`. Sequence numbers are natural
-- numbers. A method that may raise returns, beside the builder, which of its outcomes it had.
use ismet.Prelude.{
  ℕ, ◌+◌, Bool, true, false, not, ◌&&◌, ◌||◌, Option, none, some, List, [], ◌∷◌, ◌++◌, Decimal, pos,
  ltb, leb, ◌==◌, leb_ℤ, length, if◌then◌else◌,
}
use ismet.Models.Orders.{OrderSide, buy, sell}
use ismet.Book.Side.{BookSide, Level, empty_side, set, top, side_length}

pub record BookDelta : Type 0 where
  pub side : OrderSide
  pub price : Decimal
  pub size : Decimal
  pub sequence : ℕ
  pub first_sequence : Option ℕ

-- `BookDelta.start`
abbrev pub start_of : ℕ → Option ℕ → ℕ
start_of sequence none = sequence
start_of sequence (some first) = first

abbrev pub start : BookDelta → ℕ
start d = start_of d.sequence d.first_sequence

abbrev pub first_above : ℕ → Option ℕ → Bool
first_above sequence none = false
first_above sequence (some first) = ltb sequence first

-- `__post_init__`: whether the delta can be built. That its values are decimals and its sequences
-- integers is their types here.
unfoldable pub delta_valid : BookDelta → Bool
delta_valid d = leb_ℤ (pos 0) d.size && not (first_above d.sequence d.first_sequence)

pub record BookBuilder : Type 0 where
  pub bids : BookSide
  pub asks : BookSide
  pub last : Option ℕ
  pub synced : Bool
  pub buffer : List BookDelta
  pub max_buffered : ℕ
  pub gaps : ℕ
  pub stale_deltas : ℕ
  pub stale_snapshots : ℕ
  pub batch : Option (ℕ × ℕ)
  pub dropped_through : Option ℕ

-- The attributes that `__init__` sets.
abbrev pub fresh_builder : ℕ → BookBuilder
fresh_builder max_buffered = record {
  bids = empty_side true;
  asks = empty_side false;
  last = none;
  synced = false;
  buffer = [];
  max_buffered = max_buffered;
  gaps = 0;
  stale_deltas = 0;
  stale_snapshots = 0;
  batch = none;
  dropped_through = none;
}

-- `__init__`; `none` is a `ValidationError`.
unfoldable pub new_builder : ℕ → Option BookBuilder
new_builder max_buffered = if ltb max_buffered 1 then none else some (fresh_builder max_buffered)

abbrev pub max_dropped : Option ℕ → ℕ → ℕ
max_dropped none sequence = sequence
max_dropped (some through) sequence = if ltb through sequence then sequence else through

-- `_buffer_delta`, with the oldest delta dropped from a full buffer.
unfoldable pub push_delta : ℕ → List BookDelta → BookDelta → Option ℕ → List BookDelta × Option ℕ
push_delta bound [] d dropped = (d ∷ [], dropped)
push_delta bound (x ∷ xs) d dropped =
    if leb bound (length (x ∷ xs))
    then (xs ++ d ∷ [], some (max_dropped dropped x.sequence))
    else (x ∷ xs ++ d ∷ [], dropped)

unfoldable pub buffer_delta : BookBuilder → BookDelta → BookBuilder
buffer_delta b d =
    let (kept, dropped) = push_delta b.max_buffered b.buffer d b.dropped_through in
    record b { buffer = kept; dropped_through = dropped }

pub data DeltaOutcome : Type 0 where
  applied not_applied assertion_error : DeltaOutcome

abbrev pub same_batch : ℕ → ℕ → Option (ℕ × ℕ) → Bool
same_batch first sequence none = false
same_batch first sequence (some (a, c)) = first == a && sequence == c

-- `side.set(...)` on the delta's side.
abbrev pub set_sides : BookBuilder → BookDelta → OrderSide → BookBuilder
set_sides b d buy = record b { bids = set b.bids d.price d.size }
set_sides b d sell = record b { asks = set b.asks d.price d.size }

-- `apply_delta` on a book in sync, at its last sequence number.
unfoldable pub apply_synced : BookBuilder → BookDelta → ℕ → BookBuilder × DeltaOutcome
apply_synced b d last =
    if leb d.sequence last && not (same_batch (start d) d.sequence b.batch)
    then (record b { stale_deltas = b.stale_deltas + 1 }, not_applied)
    else if ltb (last + 1) (start d)
    then (buffer_delta (record b { gaps = b.gaps + 1; synced = false }) d, not_applied)
    else (
      record (set_sides b d d.side) { last = some d.sequence; batch = some (start d, d.sequence) },
      applied,
    )

-- `apply_delta`
unfoldable pub apply_delta : BookBuilder → BookDelta → BookBuilder × DeltaOutcome
apply_delta b d =
    if b.synced
    then elim b.last [ none ↦ (b, assertion_error) | some last ↦ apply_synced b d last ]
    else (buffer_delta b d, not_applied)

abbrev pub Rows : Type 0
Rows = List (Decimal × Decimal)

-- `_check_level` on every row.
unfoldable pub rows_valid : Rows → Bool
rows_valid [] = true
rows_valid ((p, z) ∷ rows) = leb_ℤ (pos 0) z && rows_valid rows

-- `_side_from`, on rows that pass: the loop, from the side built so far.
unfoldable pub set_rows : BookSide → Rows → BookSide
set_rows s [] = s
set_rows s ((p, z) ∷ rows) = set_rows (set s p z) rows

pub data SnapshotOutcome : Type 0 where
  taken ignored invalid_row : SnapshotOutcome

-- `is not None and sequence < ...`
abbrev pub below : ℕ → Option ℕ → Bool
below sequence none = false
below sequence (some n) = ltb sequence n

-- The loop over the buffered deltas.
unfoldable pub replay_buffer : BookBuilder → ℕ → List BookDelta → BookBuilder
replay_buffer b sequence [] = b
replay_buffer b sequence (d ∷ ds) =
    replay_buffer (if ltb sequence d.sequence then (apply_delta b d).0 else b) sequence ds

-- The state that `apply_snapshot` puts in place before it goes through the buffer.
unfoldable pub reset : BookBuilder → ℕ → Rows → Rows → BookBuilder
reset b sequence bids asks = record b {
  bids = set_rows (empty_side true) bids;
  asks = set_rows (empty_side false) asks;
  last = some sequence;
  synced = true;
  dropped_through = none;
  batch = none;
  buffer = [];
}

-- `apply_snapshot`
unfoldable pub apply_snapshot : BookBuilder → ℕ → Rows → Rows → BookBuilder × SnapshotOutcome
apply_snapshot b sequence bids asks =
    if b.synced && below sequence b.last || below sequence b.dropped_through
    then (record b { stale_snapshots = b.stale_snapshots + 1 }, ignored)
    else if rows_valid bids && rows_valid asks
    then (replay_buffer (reset b sequence bids asks) sequence b.buffer, taken)
    else (b, invalid_row)

pub record OrderBook : Type 0 where
  pub exchange_ts : ℕ
  pub received_ts : ℕ
  pub sequence : ℕ
  pub bids : List Level
  pub asks : List Level

pub data View : Type 0 where
  book : OrderBook → View
  invalid_depth : View
  sequence_gap : (expected : ℕ) (newest : ℕ) → View
  key_error : View

abbrev pub depth_below_one : Option ℕ → Bool
depth_below_one none = false
depth_below_one (some d) = ltb d 1

-- `self._buffer[-1].sequence if self._buffer else expected`
unfoldable pub newest_of : List BookDelta → ℕ → ℕ
newest_of [] expected = expected
newest_of (d ∷ []) expected = d.sequence
newest_of (d ∷ e ∷ ds) expected = newest_of (e ∷ ds) expected

unfoldable pub gap_at : BookBuilder → ℕ → View
gap_at b expected = sequence_gap expected (newest_of b.buffer expected)

unfoldable pub view_sides : BookBuilder → Option ℕ → ℕ → ℕ → ℕ → View
view_sides b depth exchange_ts received_ts sequence = elim (top b.bids depth) [
  | none ↦ key_error
  | some bids ↦ elim (top b.asks depth) [
    | none ↦ key_error
    | some asks ↦ book (record {
      exchange_ts = exchange_ts;
      received_ts = received_ts;
      sequence = sequence;
      bids = bids;
      asks = asks;
    })
  ]
]

-- `snapshot`
unfoldable pub snapshot : BookBuilder → Option ℕ → ℕ → ℕ → View
snapshot b depth exchange_ts received_ts =
    if depth_below_one depth then invalid_depth else elim b.last [
      | none ↦ gap_at b 0
      | some n ↦ if b.synced then view_sides b depth exchange_ts received_ts n else gap_at b (n + 1)
    ]

-- `depth_counts`
unfoldable pub depth_counts : BookBuilder → ℕ × ℕ
depth_counts b = (side_length b.bids, side_length b.asks)
