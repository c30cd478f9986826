-- ===== src/Fix/Message.antt =====
-- src/ismet/fix/message.py: fields, messages and their encoding. A `str` is the list of its code
-- points, so a value decoded as latin-1 is its own list of bytes.
use ismet.Prelude.{
  ℕ, suc, ◌%◌, Bool, true, false, not, ◌&&◌, Option, none, some, List, [], ◌∷◌, ◌++◌, ltb, ◌==◌,
  if◌then◌else◌, ℤ, pos, negsuc, length, elem, map,
}
use ismet.Prelude.Dict.{Dict, lookup}
use ismet.Fix.Bytes.{
  Bytes, soh, equals_sign, drop, is_empty, starts_with, is_digit, digits, three_digits, sum,
}

-- The reasons `GarbledMessageError` is raised with.
pub data Garbled : Type 0 where
  no_equals no_delimiter data_mismatch length_not_numeric : Garbled
  begin_not_first begin_too_long begin_malformed length_not_second length_too_long : Garbled
  length_malformed length_over_limit type_not_third length_wrong trailer_wrong : Garbled
  checksum_malformed checksum_wrong truncated bytes_after : Garbled

-- `FieldFormatError` with its tag, or `GarbledMessageError`.
pub data CodecError : Type 0 where
  field_format : Option ℕ → CodecError
  garbled : Garbled → CodecError

pub data Coded {ℓ} (A : Type ℓ) : Type ℓ where
  ok : A → Coded A
  refused : CodecError → Coded A

-- `bind` of a result that may be an exception
abbrev pub and_then {ℓ κ} : {A : Type ℓ} {B : Type κ} → Coded A → (A → Coded B) → Coded B
and_then (ok a) next = next a
and_then (refused e) next = refused e

-- The values `encode_fields` takes. A decimal is the text of `format(value, "f")`, or `none` when
-- it is not finite; `other` is a value of any other type, such as a float.
pub data FieldValue : Type 0 where
  text secret : Bytes → FieldValue
  flag : Bool → FieldValue
  whole : ℤ → FieldValue
  decimal : Option Bytes → FieldValue
  other : FieldValue

-- `str(value)` of an int
abbrev pub print : ℤ → Bytes
print (pos n) = digits n
print (negsuc n) = b'-' ∷ digits (suc n)

abbrev pub format_value : FieldValue → ℕ → Coded Bytes
format_value (secret t) tag = ok t
format_value (text t) tag = ok t
format_value (flag b) tag = ok (if b then b'Y' ∷ [] else b'N' ∷ [])
format_value (whole n) tag = ok (print n)
format_value (decimal (some t)) tag = ok t
format_value (decimal none) tag = refused (field_format (some tag))
format_value other tag = refused (field_format (some tag))

-- `text.encode("latin-1")`, which exists when every code point is one byte
abbrev pub is_latin1 : Bytes → Bool
is_latin1 [] = true
is_latin1 (c ∷ cs) = ltb c 256 && is_latin1 cs

abbrev pub default_max_body_length : ℕ
default_max_body_length = 1048576

-- The map from length tags to data tags, and its values.
abbrev pub DataFields : Type 0
DataFields = Dict ℕ

abbrev pub default_data_fields : DataFields
default_data_fields =
    (93, 89)
    ∷ (90, 91)
    ∷ (95, 96)
    ∷ (212, 213)
    ∷ (348, 349)
    ∷ (350, 351)
    ∷ (352, 353)
    ∷ (354, 355)
    ∷ (356, 357)
    ∷ (358, 359)
    ∷ (360, 361)
    ∷ (362, 363)
    ∷ (364, 365)
    ∷ (445, 446)
    ∷ (618, 619)
    ∷ (621, 622)
    ∷ (1401, 1402)
    ∷ (1403, 1404)
    ∷ (1664, 1665)
    ∷ []

abbrev pub data_tags : DataFields → List ℕ
data_tags = map (λ e. e.1)

abbrev pub same_bytes : Bytes → Bytes → Bool
same_bytes [] [] = true
same_bytes (x ∷ xs) (y ∷ ys) = x == y && same_bytes xs ys
same_bytes _ _ = false

abbrev pub is_tag : ℕ → Option ℕ → Bool
is_tag tag none = false
is_tag tag (some t) = t == tag

-- Whether the field before declares the data tag and the byte count of its value.
abbrev pub declares : DataFields → Option (ℕ × Bytes) → ℕ → Bytes → Bool
declares m none tag raw = false
declares m (some (t, before)) tag raw =
    is_tag tag (lookup t m) && same_bytes before (digits (length raw))

-- The guards of one round of `encode_fields`.
abbrev pub may_encode : DataFields → Option (ℕ × Bytes) → ℕ → Bytes → Bool
may_encode m previous tag raw =
    not (tag == 0)
    && not (is_empty raw)
    && is_latin1 raw
    && (if elem tag (data_tags m) then declares m previous tag raw else not (elem soh raw))

abbrev pub one_field : ℕ → Bytes → Bytes
one_field tag raw = digits tag ++ (equals_sign ∷ (raw ++ (soh ∷ [])))

-- `encode_fields`, with the field before. A tag is not negative: one below 1 is refused as 0 is.
unfoldable pub encode_after : DataFields → Option (ℕ × Bytes) → List (ℕ × FieldValue) → Coded Bytes
encode_after m previous [] = ok []
encode_after m previous ((tag, value) ∷ fields) = and_then (format_value value tag) λ raw.
    if may_encode m previous tag raw
    then and_then (encode_after m (some (tag, raw)) fields) (λ rest. ok (one_field tag raw ++ rest))
    else refused (field_format (some tag))

abbrev pub encode_fields : DataFields → List (ℕ × FieldValue) → Coded Bytes
encode_fields m = encode_after m none

-- `_BEGIN_STRING`: FIX, an optional T, and two numbers, each after a point. `$` also matches before
-- a newline at the end.
unfoldable pub after_digits : Bytes → Bytes
after_digits [] = []
after_digits (d ∷ ds) = if is_digit d then after_digits ds else d ∷ ds

-- `\.\d+` and what follows it
abbrev pub number_then : (Bytes → Bool) → Bytes → Bool
number_then next [] = false
number_then next (c ∷ []) = false
number_then next (c ∷ d ∷ ds) = c == b'.' && is_digit d && next (after_digits ds)

abbrev pub at_end : Bytes → Bool
at_end [] = true
at_end (c ∷ cs) = c == 10 && is_empty cs

unfoldable pub is_begin_string : Bytes → Bool
is_begin_string xs =
    let rest = drop 3 xs in
    starts_with xs (b'F' ∷ b'I' ∷ b'X' ∷ [])
    && number_then (number_then at_end) (if starts_with rest (b'T' ∷ []) then drop 1 rest else rest)

abbrev pub checksum : Bytes → ℕ
checksum frame = sum frame % 256

abbrev pub begin_prefix : Bytes
begin_prefix = b'8' ∷ equals_sign ∷ []

abbrev pub length_prefix : Bytes
length_prefix = b'9' ∷ equals_sign ∷ []

abbrev pub type_prefix : Bytes
type_prefix = b'3' ∷ b'5' ∷ equals_sign ∷ []

abbrev pub trailer_prefix : Bytes
trailer_prefix = b'1' ∷ b'0' ∷ equals_sign ∷ []

-- `begin_string.encode("ascii", "replace")`
abbrev pub ascii_replace : Bytes → Bytes
ascii_replace = map (λ c. if ltb c 128 then c else b'?')

abbrev pub frame_head : Bytes → Bytes → Bytes
frame_head begin_string body =
    begin_prefix
    ++ (begin_string ++ (soh ∷ (length_prefix ++ (digits (length body) ++ (soh ∷ body)))))

abbrev pub with_trailer : Bytes → Bytes
with_trailer frame = frame ++ (trailer_prefix ++ (three_digits (checksum frame) ++ (soh ∷ [])))

unfoldable pub encode_frame : Bytes → Bytes → Coded Bytes
encode_frame begin_string body =
    if not (starts_with body type_prefix)
    then refused (field_format (some 35))
    else if not (is_begin_string (ascii_replace begin_string))
    then refused (field_format (some 8))
    else ok (with_trailer (frame_head begin_string body))

unfoldable pub encode : DataFields → Bytes → List (ℕ × FieldValue) → Coded Bytes
encode m begin_string fields = and_then (encode_fields m fields) (encode_frame begin_string)
