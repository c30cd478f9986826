-- ===== src/Fix/RoundTrip.antt =====
-- src/ismet/fix/message.py: what `encode_fields` prints, `parse_fields` reads back.
use ismet.Prelude.{
  ℕ, ◌≤◌, ◌<◌, true, false, Option, none, some, [], ◌∷◌, ◌++◌, ◌≡◌, refl, ap, ◌∙◌, inl, inr, arith,
  Bool-cases, Option-cases, length, append_assoc, elem,
}
use ismet.Prelude.Dict.{lookup}
use ismet.Fix.Bytes.{
  Bytes, soh, equals_sign, take, drop, is_empty, find, holds_at, starts_with, all_digits, isdigit,
  read, digits,
}
use ismet.Fix.Bytes.Laws.{
  take-length, take_all, drop-suc, find-append, holds_at-append, elem-all_digits, read-digits,
  all_digits-digits, length-digits, leading-digits,
}
use ismet.Fix.Message.{Coded, DataFields, data_tags, may_encode, declares, same_bytes, one_field}
use ismet.Fix.Parse.{parse_tag, Pending, expected, value_length, split_field}

nine_digits : length (digits 999999999) ≡ 9
unfolding digits ismet.Fix.Bytes.digits_on
nine_digits = refl

twelve_digits : length (digits 999999999999) ≡ 12
unfolding digits ismet.Fix.Bytes.digits_on
twelve_digits = refl

-- A tag of at most nine digits prints to digits that `_parse_tag` takes.
parse_tag-digits : (tag : ℕ) → 0 < tag → tag ≤ 999999999 → parse_tag (digits tag) ≡ some tag
unfolding parse_tag starts_with
parse_tag-digits tag positive small =
    let (d, ds, same, big) = leading-digits tag in
    let short : length (digits tag) ≤ 9 =
      omega (arith, length-digits tag 999999999 small, nine_digits) in
    let numeric : all_digits (digits tag) ≡ true = all_digits-digits tag in
    let whole : read (digits tag) ≡ tag = read-digits tag in ground (arith, same, ap length same)

one_field-append :
    (tag : ℕ) (raw rest : Bytes)
    → one_field tag raw ++ rest ≡ digits tag ++ (equals_sign ∷ (raw ++ (soh ∷ rest)))
one_field-append tag raw rest =
    append_assoc (digits tag) (equals_sign ∷ (raw ++ (soh ∷ []))) rest
    ∙ ap (λ t. digits tag ++ (equals_sign ∷ t)) (append_assoc raw (soh ∷ []) rest)

equals_sign_beside : (tag : ℕ) → elem equals_sign (digits tag) ≡ false
equals_sign_beside tag = elem-all_digits equals_sign (digits tag) refl (all_digits-digits tag)

-- The pieces of a field whose tag is read from `ds`, whatever follows it.
split-field_of :
    (pending : Pending) (tag : ℕ) (ds raw rest : Bytes)
    → elem equals_sign ds ≡ false
    → parse_tag ds ≡ some tag
    → value_length (expected pending (some tag)) (raw ++ (soh ∷ rest)) ≡ Coded.ok (length raw)
    → split_field pending (ds ++ (equals_sign ∷ (raw ++ (soh ∷ rest))))
      ≡ Coded.ok (some tag, raw, rest)
unfolding split_field
split-field_of pending tag ds raw rest beside reads ends =
    rw
      (
        split_field,
        find-append equals_sign ds (raw ++ (soh ∷ rest)) beside,
        take-length ds (equals_sign ∷ (raw ++ (soh ∷ rest))),
        reads,
        drop-suc equals_sign ds (raw ++ (soh ∷ rest)),
        ends,
        take-length raw (soh ∷ rest),
        drop-suc soh raw rest,
      )
      refl

pub split-one_field :
    (pending : Pending) (tag : ℕ) (raw rest : Bytes)
    → 0 < tag
    → tag ≤ 999999999
    → value_length (expected pending (some tag)) (raw ++ (soh ∷ rest)) ≡ Coded.ok (length raw)
    → split_field pending (one_field tag raw ++ rest) ≡ Coded.ok (some tag, raw, rest)
split-one_field pending tag raw rest positive small ends =
    ap (split_field pending) (one_field-append tag raw rest)
    ∙ split-field_of pending tag (digits tag) raw rest (equals_sign_beside tag)
        (parse_tag-digits tag positive small) ends

-- What a parser awaits after the field `previous`.
abbrev pub pending_of : DataFields → Option (ℕ × Bytes) → Pending
pending_of m none = none
pending_of m (some (t, before)) = elim (lookup t m) [
  | none ↦ none
  | some d ↦ some (read (take 12 before), d)
]

same_bytes_lem : (xs ys : Bytes) → same_bytes xs ys ≡ true → xs ≡ ys
same_bytes_lem [] [] h = refl
same_bytes_lem [] (y ∷ ys) h = absurd (ground (arith, h))
same_bytes_lem (x ∷ xs) [] h = absurd (ground (arith, h))
same_bytes_lem (x ∷ xs) (y ∷ ys) h = ground (arith, same_bytes_lem xs ys)

lookup-data_tags :
    (t tag : ℕ) (m : DataFields) → lookup t m ≡ some tag → elem tag (data_tags m) ≡ true
unfolding lookup
lookup-data_tags t tag [] h = absurd (ground (arith, h))
lookup-data_tags t tag ((j, d) ∷ m) h = ground (arith, lookup-data_tags t tag m)

length_twelve : (n : ℕ) → n ≤ 999999999999 → take 12 (digits n) ≡ digits n
length_twelve n h =
    take_all 12 (digits n) (omega (arith, length-digits n 999999999999 h, twelve_digits))

unpended :
    (m : DataFields) (previous : Option (ℕ × Bytes)) (tag : ℕ)
    → elem tag (data_tags m) ≡ false
    → expected (pending_of m previous) (some tag) ≡ none
unpended m none tag h = refl
unpended m (some (t, before)) tag h = elim (Option-cases (lookup t m)) [
  | inl e ↦ rw (e, expected, pending_of) refl
  | inr (d, e) ↦ rw (e, expected, pending_of) (ground (arith, h, lookup-data_tags t d m e))
]

awaited :
    (m : DataFields) (previous : Option (ℕ × Bytes)) (tag : ℕ) (raw : Bytes)
    → declares m previous tag raw ≡ true
    → length raw ≤ 999999999999
    → expected (pending_of m previous) (some tag) ≡ some (length raw)
awaited m none tag raw h short = absurd (ground (arith, h))
awaited m (some (t, before)) tag raw h short = elim (Option-cases (lookup t m)) [
  | inl e ↦ absurd (ground (arith, h, e))
  | inr (d, e) ↦
      let exact : before ≡ digits (length raw) =
        same_bytes_lem before (digits (length raw)) (ground (arith, h, e)) in
      rw
        (e, expected, pending_of, exact, length_twelve (length raw) short, read-digits (length raw))
        (ground (arith, h, e))
]

pub value-length_tag :
    (m : DataFields) (previous : Option (ℕ × Bytes)) (tag : ℕ) (raw rest : Bytes)
    → may_encode m previous tag raw ≡ true
    → length raw ≤ 999999999999
    → value_length (expected (pending_of m previous) (some tag)) (raw ++ (soh ∷ rest))
      ≡ Coded.ok (length raw)
value-length_tag m previous tag raw rest allowed short =
    elim (Bool-cases (elem tag (data_tags m))) [
      | inl e ↦
          rw
            (
              awaited m previous tag raw (ground (arith, allowed, e)) short,
              holds_at-append soh raw rest,
            )
            refl
      | inr e ↦
          rw
            (
              unpended m previous tag e,
              value_length,
              find-append soh raw rest (ground (arith, allowed, e)),
            )
            refl
    ]
