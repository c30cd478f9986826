-- ===== src/Fix/Tests.antt =====
-- The codec of src/ismet/fix/message.py on one small message: a RawData field that holds a delimiter.
use ismet.Prelude.{
  ℕ, true, none, some, List, [], ◌∷◌, ◌++◌, ◌≡◌, ◌≢◌, refl, arith, pos, ◌≤◌, ◌+◌, length, map,
}
use ismet.Prelude.Dict.{lookup}
use ismet.Fix.Bytes.{
  Bytes, soh, digits, digits_on, take, drop, starts_with, sum, read_from, find, holds_at,
}
use ismet.Fix.Message.{
  ok, refused, garbled, length_not_numeric, text, whole, FieldValue, default_data_fields,
  default_max_body_length, encode_fields, encode, encode_after, encode_frame, is_begin_string,
  after_digits,
}
use ismet.Fix.Parse.{
  parse_fields, parse_loop, split_field, parse_tag, decode, scan_frame, scan_length, scan_digits,
  scan_body, FixMessage, parse_seq_num,
}
use ismet.Fix.Stream.{fresh, feed, feed_loop}
use ismet.Fix.Fields.{texts, parse_fields-encode_fields}
use ismet.Fix.Codec.{decode-encode}
use ismet.Fix.Integrity.{decode_one_byte}
use ismet.Fix.Stream.Rounds.{feed_loop_fuel}
use ismet.Fix.Stream.Bounds.{feed-buffer}
use ismet.Fix.Stream.Gives.{outline}
use ismet.Fix.Stream.Chunks.{feed-append}
use ismet.Fix.Stream.Messages.{received, feed-encode_all}

abbrev begin_string : Bytes
begin_string = b'F' ∷ b'I' ∷ b'X' ∷ b'.' ∷ b'4' ∷ b'.' ∷ b'4' ∷ []

abbrev order : List (ℕ × FieldValue)
order = (35, text (b'D' ∷ [])) ∷ (95, whole (pos 3)) ∷ (96, text (b'a' ∷ soh ∷ b'b' ∷ [])) ∷ []

abbrev body : Bytes
body =
    b'3' ∷ b'5' ∷ b'=' ∷ b'D' ∷ soh ∷ b'9' ∷ b'5' ∷ b'=' ∷ b'3' ∷ soh ∷ b'9' ∷ b'6' ∷ b'=' ∷ b'a'
    ∷ soh ∷ b'b' ∷ soh ∷ []

abbrev front : Bytes
front =
    b'8' ∷ b'=' ∷ b'F' ∷ b'I' ∷ b'X' ∷ b'.' ∷ b'4' ∷ b'.' ∷ b'4' ∷ soh ∷ b'9' ∷ b'=' ∷ b'1' ∷ b'7'
    ∷ soh ∷ b'3' ∷ b'5' ∷ b'=' ∷ b'D' ∷ soh ∷ b'9' ∷ b'5' ∷ b'=' ∷ b'3' ∷ soh ∷ b'9' ∷ b'6' ∷ b'='
    ∷ []

abbrev back : Bytes
back = soh ∷ b'b' ∷ soh ∷ b'1' ∷ b'0' ∷ b'=' ∷ b'0' ∷ b'5' ∷ b'8' ∷ soh ∷ []

abbrev frame : Bytes
frame = front ++ b'a' ∷ back

abbrev read_back : FixMessage
read_back = record { begin_string = begin_string; fields = texts order; defect = none }

body_encoded : encode_fields default_data_fields order ≡ ok body
unfolding encode_after lookup digits digits_on encode_frame encode is_begin_string after_digits take
    drop starts_with sum read_from find holds_at parse_fields parse_loop split_field parse_tag
    decode scan_frame scan_length scan_digits scan_body
body_encoded = refl

frame_encoded : encode default_data_fields begin_string order ≡ ok frame
unfolding encode_after lookup digits digits_on encode_frame encode is_begin_string after_digits take
    drop starts_with sum read_from find holds_at parse_fields parse_loop split_field parse_tag
    decode scan_frame scan_length scan_digits scan_body
frame_encoded = refl

-- A length field that is no number is encoded, and then cannot be parsed.
length_unchecked :
    encode_fields default_data_fields ((95, text (b'x' ∷ [])) ∷ [])
    ≡ ok (b'9' ∷ b'5' ∷ b'=' ∷ b'x' ∷ soh ∷ [])
unfolding encode_after lookup digits digits_on encode_frame encode is_begin_string after_digits take
    drop starts_with sum read_from find holds_at parse_fields parse_loop split_field parse_tag
    decode scan_frame scan_length scan_digits scan_body
length_unchecked = refl

length_unread :
    parse_fields default_data_fields (b'9' ∷ b'5' ∷ b'=' ∷ b'x' ∷ soh ∷ [])
    ≡ refused (garbled length_not_numeric)
unfolding encode_after lookup digits digits_on encode_frame encode is_begin_string after_digits take
    drop starts_with sum read_from find holds_at parse_fields parse_loop split_field parse_tag
    decode scan_frame scan_length scan_digits scan_body
length_unread = refl

-- A number is read before a newline too.
newline_read : parse_seq_num (b'7' ∷ 10 ∷ []) ≡ some 7
unfolding encode_after lookup digits digits_on encode_frame encode is_begin_string after_digits take
    drop starts_with sum read_from find holds_at parse_fields parse_loop split_field parse_tag
    decode scan_frame scan_length scan_digits scan_body
newline_read = refl

parse_fields-encode_fields_example : parse_fields default_data_fields body ≡ ok (texts order, none)
unfolding encode_after lookup digits digits_on encode_frame encode is_begin_string after_digits take
    drop starts_with sum read_from find holds_at parse_fields parse_loop split_field parse_tag
    decode scan_frame scan_length scan_digits scan_body
parse_fields-encode_fields_example =
    parse_fields-encode_fields default_data_fields order body refl refl

decode-encode_example : decode default_max_body_length default_data_fields frame ≡ ok read_back
unfolding encode_after lookup digits digits_on encode_frame encode is_begin_string after_digits take
    drop starts_with sum read_from find holds_at parse_fields parse_loop split_field parse_tag
    decode scan_frame scan_length scan_digits scan_body
decode-encode_example =
    decode-encode default_max_body_length default_data_fields begin_string order body frame refl
      refl refl (omega arith) (omega arith)

decode_one_byte_example :
    decode default_max_body_length default_data_fields (front ++ b'c' ∷ back) ≢ ok read_back
unfolding encode_after lookup digits digits_on encode_frame encode is_begin_string after_digits take
    drop starts_with sum read_from find holds_at parse_fields parse_loop split_field parse_tag
    decode scan_frame scan_length scan_digits scan_body
decode_one_byte_example =
    decode_one_byte default_max_body_length default_data_fields front back b'a' b'c' read_back
      read_back (omega arith) (omega arith) (λ h. omega (arith, h)) (omega arith) refl

feed_loop_fuel_example :
    feed_loop 100 50 default_data_fields true frame
    ≡ feed_loop 200 50 default_data_fields true frame
feed_loop_fuel_example =
    feed_loop_fuel 100 200 50 default_data_fields true frame (omega arith) (omega arith)

feed-buffer_example : length (feed front (fresh 50 default_data_fields)).1.buffer + 3 ≤ 96
unfolding encode_after lookup digits digits_on encode_frame encode is_begin_string after_digits take
    drop starts_with sum read_from find holds_at parse_fields parse_loop split_field parse_tag
    decode scan_frame scan_length scan_digits scan_body
feed-buffer_example = feed-buffer front (fresh 50 default_data_fields)

feed-encode_all_example : feed (frame ++ frame) (fresh 50 default_data_fields) ≡ (
  received (begin_string, order) ∷ received (begin_string, order) ∷ [],
  fresh 50 default_data_fields,
)
unfolding encode_after lookup digits digits_on encode_frame encode is_begin_string after_digits take
    drop starts_with sum read_from find holds_at parse_fields parse_loop split_field parse_tag
    decode scan_frame scan_length scan_digits scan_body
feed-encode_all_example =
    feed-encode_all 50 default_data_fields ((begin_string, order) ∷ (begin_string, order) ∷ [])
      (frame ++ frame) refl refl

feed-append_example :
    (map outline (feed frame (fresh 50 default_data_fields)).0
      ≡ map outline (
          (feed front (fresh 50 default_data_fields)).0
          ++ (feed (b'a' ∷ back) (feed front (fresh 50 default_data_fields)).1).0))
    × ((feed frame (fresh 50 default_data_fields)).1
        ≡ (feed (b'a' ∷ back) (feed front (fresh 50 default_data_fields)).1).1)
feed-append_example = feed-append front (b'a' ∷ back) (fresh 50 default_data_fields)
