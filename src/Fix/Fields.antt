-- ===== src/Fix/Fields.antt =====
-- src/ismet/fix/message.py: `encode_fields` and then `parse_fields`, over whole lists of fields.
use ismet.Prelude.{
  ℕ, zero, suc, ◌≤◌, ◌<◌, Bool, true, false, ◌&&◌, Option, none, some, List, [], ◌∷◌, ◌++◌, leb,
  ◌≡◌, refl, sym, ap, ◌∙◌, inl, inr, arith, Option-cases, length, length-append,
}
use ismet.Prelude.Dict.{lookup}
use ismet.Fix.Bytes.{Bytes, soh, equals_sign, is_empty, isdigit, digits}
use ismet.Fix.Message.{
  Coded, ok, FieldValue, format_value, DataFields, may_encode, one_field, encode_after,
  encode_fields, and_then,
}
use ismet.Fix.Parse.{
  Pending, split_field, pending_after, if_length_tag, Fields, parse_loop, parse_fields,
}
use ismet.Fix.Results.{and_then_parts, guard_parts, value_or, ok_injective}
use ismet.Fix.RoundTrip.{split-one_field, value-length_tag, pending_of}

-- A field that a parser can read: its tag has at most nine digits, a length field has a number, and
-- no value is longer than the twelve digits a length is read from can say.
abbrev pub readable : DataFields → ℕ → Bytes → Bool
readable m tag raw =
    leb tag 999999999
    && leb (length raw) 999999999999
    && elim (lookup tag m) [ none ↦ true | some d ↦ isdigit raw ]

-- The text of a value, which `format_value` gives when it gives one.
abbrev pub shown : ℕ → FieldValue → Bytes
shown tag value = value_or [] (format_value value tag)

abbrev pub texts : List (ℕ × FieldValue) → Fields
texts [] = []
texts ((tag, value) ∷ fields) = (tag, shown tag value) ∷ texts fields

abbrev pub all_readable : DataFields → Fields → Bool
all_readable m [] = true
all_readable m ((tag, raw) ∷ fields) = readable m tag raw && all_readable m fields

pub encode_after_parts :
    (m : DataFields) (previous : Option (ℕ × Bytes)) (tag : ℕ) (value : FieldValue)
    (fields : List (ℕ × FieldValue)) (bytes : Bytes)
    → encode_after m previous ((tag, value) ∷ fields) ≡ Coded.ok bytes
    → (rest : Bytes) × (may_encode m previous tag (shown tag value) ≡ true)
      × (encode_after m (some (tag, shown tag value)) fields ≡ Coded.ok rest)
      × (bytes ≡ one_field tag (shown tag value) ++ rest)
unfolding encode_after
encode_after_parts m previous tag value fields bytes h =
    let (raw, shows, chain) = and_then_parts (format_value value tag) _ bytes h in
    let same : shown tag value ≡ raw = ap (value_or []) shows in
    let (allowed, later) = guard_parts (may_encode m previous tag raw) _ _ bytes chain in
    let (rest, tail, glued) =
      and_then_parts (encode_after m (some (tag, raw)) fields) _ bytes later in
    rw (same) (rest, allowed, tail, sym (ok_injective _ _ glued))

pending-after_tag :
    (m : DataFields) (tag : ℕ) (raw : Bytes)
    → readable m tag raw ≡ true
    → pending_after m tag raw ≡ Coded.ok (pending_of m (some (tag, raw)))
pending-after_tag m tag raw h = elim (Option-cases (lookup tag m)) [
  | inl e ↦ rw (e, pending_after, pending_of) refl
  | inr (d, e) ↦ rw (e, pending_after, pending_of, if_length_tag) (ground (arith, h, e))
]

parse_loop_step :
    (fuel : ℕ) (m : DataFields) (pending next : Pending) (bytes : Bytes) (tag : ℕ)
    (raw rest : Bytes) (fields : Fields)
    → 1 ≤ length bytes
    → split_field pending bytes ≡ ok (some tag, raw, rest)
    → is_empty raw ≡ false
    → pending_after m tag raw ≡ ok next
    → parse_loop fuel m next none rest ≡ ok (fields, none)
    → parse_loop (suc fuel) m pending none bytes ≡ ok ((tag, raw) ∷ fields, none)
unfolding parse_loop
parse_loop_step fuel m pending next [] tag raw rest fields some_ splits full awaits later =
    absurd (omega (arith, some_))
parse_loop_step fuel m pending next (b ∷ bs) tag [] rest fields some_ splits full awaits later =
    absurd (ground (arith, full))
parse_loop_step fuel m pending next (b ∷ bs) tag (c ∷ cs) rest fields some_ splits full awaits
      later =
    rw (splits, awaits) (ap (λ r. and_then r λ (fs, d). ok ((tag, c ∷ cs) ∷ fs, d)) later)

length-one_field : (tag : ℕ) (raw rest : Bytes) → length rest < length (one_field tag raw ++ rest)
length-one_field tag raw rest = omega (
  arith,
  length-append (one_field tag raw) rest,
  length-append (digits tag) (equals_sign ∷ (raw ++ (soh ∷ []))),
)

parse_loop-encode_after :
    (fuel : ℕ) (m : DataFields) (previous : Option (ℕ × Bytes)) (fields : List (ℕ × FieldValue))
    (bytes : Bytes)
    → all_readable m (texts fields) ≡ true
    → encode_after m previous fields ≡ ok bytes
    → length bytes ≤ fuel
    → parse_loop fuel m (pending_of m previous) none bytes ≡ ok (texts fields, none)
unfolding encode_after parse_loop
parse_loop-encode_after fuel m previous [] bytes fit h enough = rw (← ok_injective [] bytes h) refl
parse_loop-encode_after zero m previous ((tag, value) ∷ fields) bytes fit h enough =
    let (rest, allowed, tail, glued) = encode_after_parts m previous tag value fields bytes h in
    absurd (omega (arith, enough, ap length glued, length-one_field tag (shown tag value) rest))
parse_loop-encode_after (suc fuel) m previous ((tag, value) ∷ fields) bytes fit h enough =
    let (rest, allowed, tail, glued) = encode_after_parts m previous tag value fields bytes h in
    let raw = shown tag value in
    let longer : length rest < length bytes =
      omega (arith, ap length glued, length-one_field tag raw rest) in
    let fits : readable m tag raw ≡ true = ground (arith, fit) in
    let short : length raw ≤ 999999999999 = ground (arith, fits) in
    let splits : split_field (pending_of m previous) bytes ≡ ok (some tag, raw, rest) =
      ap (split_field (pending_of m previous)) glued
      ∙ split-one_field (pending_of m previous) tag raw rest (ground (arith, allowed))
          (ground (arith, fits)) (value-length_tag m previous tag raw rest allowed short) in
    parse_loop_step fuel m (pending_of m previous) (pending_of m (some (tag, raw))) bytes tag raw
      rest (texts fields) (omega (arith, longer)) splits (ground (arith, allowed))
      (pending-after_tag m tag raw fits)
      (parse_loop-encode_after fuel m (some (tag, raw)) fields rest (ground (arith, fit)) tail
        (omega (arith, longer, enough)))

-- Whatever `encode_fields` prints, `parse_fields` splits into the same tags and texts with no
-- defect, data fields that hold delimiters included, when each field is `readable`: its tag has at
-- most nine digits, its value less than 10 ** 12 bytes, and a length field a number.
pub parse_fields-encode_fields :
    (m : DataFields) (fields : List (ℕ × FieldValue)) (bytes : Bytes)
    → all_readable m (texts fields) ≡ true
    → encode_fields m fields ≡ ok bytes
    → parse_fields m bytes ≡ ok (texts fields, none)
unfolding parse_fields
parse_fields-encode_fields m fields bytes fit h =
    parse_loop-encode_after (length bytes) m none fields bytes fit h (omega arith)
