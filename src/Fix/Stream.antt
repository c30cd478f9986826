-- ===== src/Fix/Stream.antt =====
-- src/ismet/fix/message.py: `FixStreamParser`. A position in the buffer is what follows it.
use ismet.Prelude.{
  ℕ, zero, suc, ◌+◌, ◌-◌, ◌*◌, ◌≤◌, ◌<◌, Bool, true, false, not, ◌&&◌, ◌||◌, Option, none, some,
  List, [], ◌∷◌, ◌++◌, ltb, leb, ◌==◌, if◌then◌else◌, length,
}
use ismet.Fix.Bytes.{Bytes, soh, take, drop, is_empty, holds_at, digits}
use ismet.Fix.Message.{CodecError, Coded, ok, refused, DataFields, Garbled}
use ismet.Fix.Parse.{
  Scanned, found, need_more, bad, scan_frame, parse_fields, Fields, FieldDefect, FixMessage,
  body_of,
}
pub mod Rounds
pub mod Messages
pub mod Bounds
mod Longer
mod Marker
pub mod Gives
pub mod Chunks
mod Extends
mod Outcomes

-- What `feed` returns: a message, or a `GarbledFrame` with its reason.
pub data Item : Type 0 where
  message : FixMessage → Item
  garbled_frame : CodecError → Item

-- The bytes from the first `8=` that follows a delimiter.
unfoldable pub after_marker : Bytes → Option Bytes
after_marker [] = none
after_marker (a ∷ rest) =
    if a == soh && holds_at 0 b'8' rest && holds_at 1 b'=' rest
    then some rest
    else after_marker rest

-- What could still become the start of a marker.
unfoldable pub kept : Bytes → Bytes
kept rest =
    let n = length rest in
    if holds_at (n - 1) soh rest
    then drop (n - 1) rest
    else if leb 2 n && holds_at (n - 2) soh rest && holds_at (n - 1) b'8' rest
    then drop (n - 2) rest
    else []

-- One round of the loop of `feed`: it ends, with `_synced` and the bytes that stay, or it gives an
-- item and goes on from there.
pub data Round : Type 0 where
  stop : Bool → Bytes → Round
  emit : Item → Bool → Bytes → Round

abbrev pub take_fields : Bytes → Bytes → ℕ → Coded (Fields × Option FieldDefect) → Round
take_fields rest name frame_end (ok (fields, defect)) =
    emit (message (record { begin_string = name; fields = fields; defect = defect })) true
      (drop frame_end rest)
take_fields rest name frame_end (refused e) = emit (garbled_frame e) false rest

abbrev pub take_scanned : DataFields → Bytes → Scanned → Round
take_scanned m rest need_more = stop true rest
take_scanned m rest (bad g) = emit (garbled_frame (CodecError.garbled g)) false rest
take_scanned m rest (found name body_start frame_end) =
    take_fields rest name frame_end (parse_fields m (body_of rest body_start frame_end))

abbrev pub resync : ℕ → DataFields → Bytes → Option Bytes → Round
resync max m rest none = stop false (kept rest)
resync max m rest (some from) = take_scanned m from (scan_frame max from)

unfoldable pub round : ℕ → DataFields → Bool → Bytes → Round
round max m synced [] = stop synced []
round max m true (b ∷ bs) = take_scanned m (b ∷ bs) (scan_frame max (b ∷ bs))
round max m false (b ∷ bs) = resync max m (b ∷ bs) (after_marker (b ∷ bs))

abbrev pub continue_with :
    Round → (Bool → Bytes → List Item × Bool × Bytes) → List Item × Bool × Bytes
continue_with (stop synced rest) go = ([], synced, rest)
continue_with (emit item synced rest) go =
    let (items, s, r) = go synced rest in (item ∷ items, s, r)

-- The loop of `feed`, on fuel: the items, `_synced`, and the bytes that stay.
unfoldable pub feed_loop : ℕ → ℕ → DataFields → Bool → Bytes → List Item × Bool × Bytes
feed_loop zero max m synced rest = ([], synced, rest)
feed_loop (suc fuel) max m synced rest =
    continue_with (round max m synced rest) (feed_loop fuel max m)

pub record FixStreamParser : Type 0 where
  pub max : ℕ
  pub data_fields : DataFields
  pub buffer : Bytes
  pub synced : Bool

abbrev pub fresh : ℕ → DataFields → FixStreamParser
fresh max m = record { max = max; data_fields = m; buffer = []; synced = true }

-- `__init__`; `none` is its `ValueError`.
unfoldable pub new_parser : ℕ → DataFields → Option FixStreamParser
new_parser max m = if leb max 0 then none else some (fresh max m)

-- The rounds that a buffer can need: at most two for each byte that is dropped.
abbrev pub rounds : Bool → Bytes → ℕ
rounds synced rest = length rest + length rest + (if synced then 1 else 0)

unfoldable pub feed : Bytes → FixStreamParser → List Item × FixStreamParser
feed chunk p =
    let buf = p.buffer ++ chunk in
    let (items, synced, rest) =
      feed_loop (suc (rounds p.synced buf)) p.max p.data_fields p.synced buf in
    (items, record p { buffer = rest; synced = synced })

abbrev pub max_buffered : FixStreamParser → ℕ
max_buffered p = 32 + 3 + length (digits p.max) + 2 + p.max + 7
