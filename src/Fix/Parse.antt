-- ===== src/Fix/Parse.antt =====
-- src/ismet/fix/message.py: `parse_fields`, `_scan_frame`, `decode` and the readers of numbers. A
-- position in the buffer is the list of bytes from there on.
use ismet.Prelude.{
  ℕ, zero, suc, ◌+◌, ◌-◌, Bool, true, not, ◌&&◌, ◌||◌, Option, none, some, List, [], ◌∷◌, ltb, leb,
  ◌==◌, if◌then◌else◌, length,
}
use ismet.Prelude.Dict.{lookup}
use ismet.Fix.Bytes.{
  Bytes, soh, equals_sign, take, drop, is_empty, find, holds_at, starts_with, isdigit, read, digits,
}
use ismet.Fix.Message.{
  Garbled, CodecError, Coded, DataFields, and_then, is_begin_string, after_digits, checksum,
  begin_prefix, length_prefix, type_prefix, trailer_prefix, at_end,
}

-- A defect of a message whose frame is right, with the tag of the second.
pub data FieldDefect : Type 0 where
  invalid_tag : FieldDefect
  tag_without_value : ℕ → FieldDefect

abbrev pub defect_tag : FieldDefect → Option ℕ
defect_tag invalid_tag = none
defect_tag (tag_without_value tag) = some tag

-- `_parse_tag`
unfoldable pub parse_tag : Bytes → Option ℕ
parse_tag t =
    if not (isdigit t) || starts_with t (b'0' ∷ []) || ltb 9 (length t) then none else some (read t)

-- The length a data field has to have, and its tag, after its length field.
abbrev pub Pending : Type 0
Pending = Option (ℕ × ℕ)

-- The length of the value when the tag is the one that is awaited.
abbrev pub expected : Pending → Option ℕ → Option ℕ
expected none tag = none
expected (some (n, t)) none = none
expected (some (n, t)) (some tag) = if tag == t then some n else none

-- Where the value ends.
abbrev pub value_length : Option ℕ → Bytes → Coded ℕ
value_length (some n) after =
    if holds_at n soh after
    then Coded.ok n
    else Coded.refused (CodecError.garbled Garbled.data_mismatch)
value_length none after = elim (find soh after) [
  | none ↦ Coded.refused (CodecError.garbled Garbled.no_delimiter)
  | some n ↦ Coded.ok n
]

-- The tag, the value and what follows the field that the bytes start with.
unfoldable pub split_field : Pending → Bytes → Coded (Option ℕ × Bytes × Bytes)
split_field pending raw = elim (find equals_sign raw) [
  | none ↦ Coded.refused (CodecError.garbled Garbled.no_equals)
  | some e ↦
      let tag = parse_tag (take e raw) in
      let after = drop (suc e) raw in
      and_then (value_length (expected pending tag) after)
        λ n. Coded.ok (tag, take n after, drop (suc n) after)
]

abbrev pub if_length_tag : Option ℕ → Bytes → Coded Pending
if_length_tag none value = Coded.ok none
if_length_tag (some data_tag) value =
    if isdigit value
    then Coded.ok (some (read (take 12 value), data_tag))
    else Coded.refused (CodecError.garbled Garbled.length_not_numeric)

-- What a field says of the length of the next.
abbrev pub pending_after : DataFields → ℕ → Bytes → Coded Pending
pending_after m tag value = if_length_tag (lookup tag m) value

-- The first defect is kept.
abbrev pub or_defect : Option FieldDefect → Bool → FieldDefect → Option FieldDefect
or_defect (some d) found new = some d
or_defect none found new = if found then some new else none

abbrev pub Fields : Type 0
Fields = List (ℕ × Bytes)

-- The loop of `parse_fields`. Each round takes a byte at least, so the number of bytes is enough fuel.
unfoldable pub parse_loop :
    ℕ → DataFields → Pending → Option FieldDefect → Bytes → Coded (Fields × Option FieldDefect)
parse_loop fuel m pending defect [] = Coded.ok ([], defect)
parse_loop zero m pending defect (b ∷ bs) = Coded.refused (CodecError.garbled Garbled.no_equals)
parse_loop (suc fuel) m pending defect (b ∷ bs) =
    and_then (split_field pending (b ∷ bs)) λ (tag, value, rest). elim tag [
      | none ↦ parse_loop fuel m none (or_defect defect true FieldDefect.invalid_tag) rest
      | some t ↦ and_then (pending_after m t value) λ next.
          and_then
            (parse_loop fuel m next
              (or_defect defect (is_empty value) (FieldDefect.tag_without_value t)) rest)
            λ (fields, found). Coded.ok ((t, value) ∷ fields, found)
    ]

unfoldable pub parse_fields : DataFields → Bytes → Coded (Fields × Option FieldDefect)
parse_fields m raw = parse_loop (length raw) m none none raw

-- The results of `_scan_frame`; the two positions are from the start of the frame.
pub data Scanned : Type 0 where
  need_more : Scanned
  bad : Garbled → Scanned
  found : (begin_string : Bytes) (body_start frame_end : ℕ) → Scanned

-- `_scan_frame`, from the start of the body
unfoldable pub scan_body : Bytes → Bytes → ℕ → ℕ → Scanned
scan_body buf begin_string body_start body_length =
    let body_end = body_start + body_length in
    let frame_end = body_end + 7 in
    let declared = take 3 (drop (body_end + 3) buf) in
    if not (starts_with type_prefix (take 3 (drop body_start buf)))
    then Scanned.bad Garbled.type_not_third
    else if ltb (length buf) frame_end
    then Scanned.need_more
    else if not (holds_at (body_end - 1) soh buf)
    then Scanned.bad Garbled.length_wrong
    else if not (starts_with (drop body_end buf) trailer_prefix && holds_at (frame_end - 1) soh buf)
    then Scanned.bad Garbled.trailer_wrong
    else if not (isdigit declared)
    then Scanned.bad Garbled.checksum_malformed
    else if not (read declared == checksum (take body_end buf))
    then Scanned.bad Garbled.checksum_wrong
    else Scanned.found begin_string body_start frame_end

-- `_scan_frame`, from the digits of BodyLength, which end after `n` bytes
unfoldable pub scan_digits : ℕ → Bytes → Bytes → ℕ → ℕ → Scanned
scan_digits max buf begin_string digits_start n =
    let ds = take n (drop digits_start buf) in
    if not (isdigit ds)
    then Scanned.bad Garbled.length_malformed
    else if ltb max (read ds)
    then Scanned.bad Garbled.length_over_limit
    else scan_body buf begin_string (digits_start + n + 1) (read ds)

-- `_scan_frame`, past the search for the end of BodyLength, whose digits start at `digits_start`
abbrev pub past_length : ℕ → Bytes → Bytes → ℕ → Option ℕ → Scanned
past_length max buf begin_string digits_start none =
    let rest = drop digits_start buf in
    if leb (length (digits max) + 1) (length rest)
    then Scanned.bad Garbled.length_too_long
    else if not (isdigit rest) && not (is_empty rest)
    then Scanned.bad Garbled.length_malformed
    else Scanned.need_more
past_length max buf begin_string digits_start (some n) =
    scan_digits max buf begin_string digits_start n

-- `_scan_frame`, from the start of BodyLength
unfoldable pub scan_length : ℕ → Bytes → Bytes → ℕ → Scanned
scan_length max buf begin_string length_start =
    let prefix = take 2 (drop length_start buf) in
    let rest = drop (length_start + 2) buf in
    if not (starts_with length_prefix prefix)
    then Scanned.bad Garbled.length_not_second
    else if ltb (length prefix) 2
    then Scanned.need_more
    else past_length max buf begin_string (length_start + 2)
        (find soh (take (length (digits max) + 1) rest))

-- `_scan_frame`, past the search for the end of BeginString
abbrev pub past_begin : ℕ → Bytes → Option ℕ → Scanned
past_begin max buf none =
    if leb 32 (length buf) then Scanned.bad Garbled.begin_too_long else Scanned.need_more
past_begin max buf (some n) =
    let begin_string = take n (drop 2 buf) in
    if not (is_begin_string begin_string)
    then Scanned.bad Garbled.begin_malformed
    else scan_length max buf begin_string (n + 3)

-- `_scan_frame`; the BeginString field has 32 bytes at most.
unfoldable pub scan_frame : ℕ → Bytes → Scanned
scan_frame max buf =
    if not (starts_with begin_prefix (take 2 buf))
    then Scanned.bad Garbled.begin_not_first
    else if ltb (length buf) 2
    then Scanned.need_more
    else past_begin max buf (find soh (take 30 (drop 2 buf)))

pub record FixMessage : Type 0 where
  pub begin_string : Bytes
  pub fields : Fields
  pub defect : Option FieldDefect

-- The body of a frame, between its head and its trailer.
abbrev pub body_of : Bytes → ℕ → ℕ → Bytes
body_of buf body_start frame_end = take (frame_end - 7 - body_start) (drop body_start buf)

abbrev pub without_defect : Bytes → Fields × Option FieldDefect → Coded FixMessage
without_defect begin_string (fields, some d) =
    Coded.refused (CodecError.field_format (defect_tag d))
without_defect begin_string (fields, none) =
    Coded.ok (record { begin_string = begin_string; fields = fields; defect = none })

-- `decode`, past `_scan_frame`
abbrev pub accept : DataFields → Bytes → Scanned → Coded FixMessage
accept m frame (bad g) = Coded.refused (CodecError.garbled g)
accept m frame need_more = Coded.refused (CodecError.garbled Garbled.truncated)
accept m frame (found begin_string body_start frame_end) =
    if not (frame_end == length frame)
    then Coded.refused (CodecError.garbled Garbled.bytes_after)
    else and_then (parse_fields m (body_of frame body_start frame_end))
        (without_defect begin_string)

unfoldable pub decode : ℕ → DataFields → Bytes → Coded FixMessage
decode max m frame = accept m frame (scan_frame max frame)

-- `parse_seq_num`, whose pattern also matches before a newline at the end; `none` is its error.
abbrev pub parse_seq_num : Bytes → Option ℕ
parse_seq_num t =
    let rest = after_digits t in
    let ds = take (length t - length rest) t in
    if not (is_empty ds) && leb (length ds) 18 && at_end rest then some (read ds) else none
