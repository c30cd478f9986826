-- ===== src/Fix/Codec.antt =====
-- src/ismet/fix/message.py: `decode` after `encode`.
use mathlib.Core.Path.{subst}
use ismet.Prelude.{
  ==_self, ℕ, ◌+◌, ◌-◌, ◌≤◌, true, not, Option, none, some, List, [], ◌∷◌, ◌++◌, ◌≡◌, sym, ap, ◌∙◌,
  arith, append-nil, length, length-append, append_assoc,
}
use ismet.Fix.Bytes.{Bytes, soh, take, drop, starts_with, digits, three_digits}
use ismet.Fix.Bytes.Laws.{take-length}
use ismet.Fix.Message.{
  ok, FieldValue, DataFields, is_begin_string, checksum, frame_head, with_trailer, type_prefix,
  trailer_prefix, and_then, ascii_replace, encode_after, encode_fields, encode_frame, encode,
  one_field,
}
use ismet.Fix.Parse.{found, scan_frame, parse_fields, accept, decode, body_of, without_defect}
use ismet.Fix.Results.{refusal_parts, ok_injective}
use ismet.Fix.BeginString.{begin_string_lem}
use ismet.Fix.Written.{start_of, length-frame_head, drop-start_of, scan_frame-with_trailer}
use ismet.Fix.Fields.{shown, texts, all_readable, encode_after_parts, parse_fields-encode_fields}

-- What `encode_frame` gives, and what it has checked.
encode_frame_parts :
    (begin_string body frame : Bytes)
    → encode_frame begin_string body ≡ ok frame
    → (starts_with body type_prefix ≡ true)
      × (is_begin_string (ascii_replace begin_string) ≡ true)
      × (with_trailer (frame_head begin_string body) ≡ frame)
unfolding encode_frame
encode_frame_parts begin_string body frame h =
    let (typed, later) = refusal_parts (not (starts_with body type_prefix)) _ _ frame h in
    let (named, done) =
      refusal_parts (not (is_begin_string (ascii_replace begin_string))) _ _ frame later in
    (ground (arith, typed), ground (arith, named), ok_injective _ _ done)

type_prefix_lem :
    (front : Bytes)
    → starts_with (front ++ (soh ∷ [])) type_prefix ≡ true
    → (rest : Bytes) × (front ≡ b'3' ∷ b'5' ∷ b'=' ∷ rest)
unfolding starts_with
type_prefix_lem [] h = absurd (ground (arith, h))
type_prefix_lem (a ∷ []) h = absurd (ground (arith, h))
type_prefix_lem (a ∷ b ∷ []) h = absurd (ground (arith, h))
type_prefix_lem (a ∷ b ∷ c ∷ rest) h = (rest, ground (arith, h))

one_field_end :
    (tag : ℕ) (raw : Bytes) → one_field tag raw ≡ (digits tag ++ (b'=' ∷ raw)) ++ (soh ∷ [])
one_field_end tag raw = sym (append_assoc (digits tag) (b'=' ∷ raw) (soh ∷ []))

-- The fields that are encoded, one at least, end in a delimiter.
closing_soh :
    (m : DataFields) (previous : Option (ℕ × Bytes)) (tag : ℕ) (value : FieldValue)
    (fields : List (ℕ × FieldValue)) (bytes : Bytes)
    → encode_after m previous ((tag, value) ∷ fields) ≡ ok bytes
    → (front : Bytes) × (bytes ≡ front ++ (soh ∷ []))
unfolding encode_after
closing_soh m previous tag value [] bytes h =
    let (rest, allowed, tail, glued) = encode_after_parts m previous tag value [] bytes h in
    (
      digits tag ++ (b'=' ∷ shown tag value),
      glued
          ∙ ap (λ t. one_field tag (shown tag value) ++ t) (sym (ok_injective [] rest tail))
          ∙ append-nil (one_field tag (shown tag value))
          ∙ one_field_end tag (shown tag value),
    )
closing_soh m previous tag value ((next, more) ∷ fields) bytes h =
    let (rest, allowed, tail, glued) =
      encode_after_parts m previous tag value ((next, more) ∷ fields) bytes h in
    let (front, ends) = closing_soh m (some (tag, shown tag value)) next more fields rest tail in
    (
      one_field tag (shown tag value) ++ front,
      glued
          ∙ ap (λ t. one_field tag (shown tag value) ++ t) ends
          ∙ sym (append_assoc (one_field tag (shown tag value)) front (soh ∷ [])),
    )

-- The body of a message: MsgType first and a delimiter last.
pub body_parts :
    (m : DataFields) (fields : List (ℕ × FieldValue)) (body : Bytes)
    → encode_fields m fields ≡ ok body
    → starts_with body type_prefix ≡ true
    → (rest : Bytes) × (body ≡ b'3' ∷ b'5' ∷ b'=' ∷ (rest ++ (soh ∷ [])))
unfolding encode_after starts_with
body_parts m [] body h typed =
    absurd (ground (arith, ap (λ b. starts_with b type_prefix) (ok_injective [] body h) ∙ typed))
body_parts m ((tag, value) ∷ fields) body h typed =
    let (front, ends) = closing_soh m none tag value fields body h in
    let (rest, same) =
      type_prefix_lem front (ap (λ b. starts_with b type_prefix) (sym ends) ∙ typed) in
    (rest, ends ∙ ap (λ t. t ++ (soh ∷ [])) same)

-- A frame that `encode` wrote is found at the start of any buffer, and its body with it.
pub found_written :
    (max : ℕ) (m : DataFields) (begin_string : Bytes) (fields : List (ℕ × FieldValue))
    (body frame more : Bytes)
    → encode_fields m fields ≡ ok body
    → encode_frame begin_string body ≡ ok frame
    → length begin_string ≤ 29
    → length body ≤ max
    → (scan_frame max (frame ++ more)
        ≡ found begin_string (start_of begin_string body) (length frame))
      × (body_of (frame ++ more) (start_of begin_string body) (length frame) ≡ body)
found_written max m begin_string fields body frame more coded framed short small =
    let (typed, named, whole) = encode_frame_parts begin_string body frame framed in
    let (fits, beside) = begin_string_lem begin_string named in
    let (rest, same) = body_parts m fields body coded typed in
    let size : length body ≡ length rest + 4 =
      omega (arith, ap length same, length-append rest (soh ∷ [])) in
    let trailer : Bytes =
      trailer_prefix ++ (three_digits (checksum (frame_head begin_string body)) ++ (soh ∷ [])) in
    let long : length frame ≡ start_of begin_string body + (length rest + 4) + 7 = omega (
      arith,
      ap length (sym whole),
      length-append (frame_head begin_string body) trailer,
      length-frame_head begin_string body,
      size,
    ) in
    let scanned : scan_frame max (with_trailer (frame_head begin_string body) ++ more)
        ≡ found begin_string (start_of begin_string body)
            (start_of begin_string body + (length rest + 4) + 7) =
      subst
        (λ b.
          scan_frame max (with_trailer (frame_head begin_string b) ++ more)
          ≡ found begin_string (start_of begin_string b)
              (start_of begin_string b + (length rest + 4) + 7))
        (sym same)
        (scan_frame-with_trailer max begin_string rest more fits beside short
          (omega (arith, small, size))) in
    let placed : drop (start_of begin_string body) (frame ++ more) ≡ body ++ (trailer ++ more) =
      ap (λ f. drop (start_of begin_string body) (f ++ more)) (sym whole)
      ∙ ap (drop (start_of begin_string body))
          (append_assoc (frame_head begin_string body) trailer more)
      ∙ drop-start_of begin_string body (trailer ++ more) in
    let count : length frame - 7 - start_of begin_string body ≡ length body =
      omega (arith, long, size) in
    (
      ap (λ f. scan_frame max (f ++ more)) (sym whole)
          ∙ scanned
          ∙ ap (found begin_string (start_of begin_string body)) (sym long),
      ap (λ k. take k (drop (start_of begin_string body) (frame ++ more))) count
          ∙ ap (take (length body)) placed
          ∙ take-length body (trailer ++ more),
    )

-- A message that `encode` wrote is decoded to its BeginString and the texts of its fields, without a
-- defect, when each field is `readable`, the BeginString has at most 29 bytes and the body fits
-- the limit.
pub decode-encode :
    (max : ℕ) (m : DataFields) (begin_string : Bytes) (fields : List (ℕ × FieldValue))
    (body frame : Bytes)
    → all_readable m (texts fields) ≡ true
    → encode_fields m fields ≡ ok body
    → encode m begin_string fields ≡ ok frame
    → length begin_string ≤ 29
    → length body ≤ max
    → decode max m frame
      ≡ ok (record { begin_string = begin_string; fields = texts fields; defect = none })
unfolding decode encode
decode-encode max m begin_string fields body frame readable coded written short small =
    let framed : encode_frame begin_string body ≡ ok frame =
      ap (λ c. and_then c (encode_frame begin_string)) (sym coded) ∙ written in
    let (scanned, placed) =
      found_written max m begin_string fields body frame [] coded framed short small in
    let here : scan_frame max frame
        ≡ found begin_string (start_of begin_string body) (length frame) =
      ap (scan_frame max) (sym (append-nil frame)) ∙ scanned in
    let inside : body_of frame (start_of begin_string body) (length frame) ≡ body =
      ap (λ f. body_of f (start_of begin_string body) (length frame)) (sym (append-nil frame))
      ∙ placed in
    let parsed = parse_fields-encode_fields m fields body readable coded in
    ap (accept m frame) here
    ∙ rw (==_self (length frame)) (
        ap (λ b. and_then (parse_fields m b) (without_defect begin_string)) inside
        ∙ ap (λ r. and_then r (without_defect begin_string)) parsed)
