-- ===== src/Fix/Stream/Extends.antt =====
-- src/ismet/fix/message.py: what `_scan_frame` has decided of a buffer, it decides of a longer one.
use ismet.Prelude.{
  ℕ, ◌+◌, ◌-◌, ◌≤◌, ◌<◌, true, false, not, ◌&&◌, Option, none, some, ◌++◌, ltb, leb, length, ◌≡◌,
  refl, sym, ap, ◌∙◌, inl, inr, arith, Bool-cases, Option-cases, length-append,
}
use ismet.Fix.Bytes.{Bytes, soh, take, drop, find, starts_with, isdigit, digits, is_empty, read}
use ismet.Fix.Bytes.Laws.{length-drop, length-take, take_at_most}
use ismet.Fix.Message.{type_prefix, length_prefix, begin_prefix, trailer_prefix, is_begin_string}
use ismet.Fix.Parse.{scan_frame, past_begin, scan_length, past_length, scan_digits, scan_body}
use ismet.Fix.Stream.Longer.{
  take_within, drop_within, slice_within, holds_within, starts_within, differs_slice, find_within,
  find_late, isdigit_longer, take_past,
}
use ismet.Fix.Stream.Outcomes.{
  Extends, Extends-same, is_bad, past_test, bad_test, either_bad, short_test, turns_true,
}

module _ (buf more : Bytes) where
  scan_body-Extends :
      (name : Bytes) (start n : ℕ)
      → Extends (scan_body buf name start n) (scan_body (buf ++ more) name start n)
  unfolding scan_body
  scan_body-Extends name start n = elim (Bool-cases (ltb (length buf) (start + n + 7))) [
    | inl short ↦ rw (short) (
        short_test (not (starts_with type_prefix (take 3 (drop start buf)))) _ _ _ (
          turns_true (starts_with type_prefix (take 3 (drop start buf))) _
            (differs_slice start 3 type_prefix buf more)))
    | inr long ↦
        let enough : start + n + 7 ≤ length buf = ground (arith, long) in
        let also : ltb (length (buf ++ more)) (start + n + 7) ≡ false =
          ground (arith, enough, length-append buf more) in
        rw
          (
            slice_within start 3 buf more (omega (arith, enough)),
            also,
            long,
            holds_within (start + n - 1) soh buf more (omega (arith, enough)),
            drop_within (start + n) buf more (omega (arith, enough)),
            starts_within (drop (start + n) buf) more trailer_prefix
                (omega (arith, enough, length-drop (start + n) buf)),
            holds_within (start + n + 7 - 1) soh buf more (omega (arith, enough)),
            slice_within (start + n + 3) 3 buf more (omega (arith, enough)),
            take_within (start + n) buf more (omega (arith, enough)),
          )
          (Extends-same _)
  ]

  scan_digits-Extends :
      (max : ℕ) (name : Bytes) (start n : ℕ)
      → start + n ≤ length buf
      → Extends (scan_digits max buf name start n) (scan_digits max (buf ++ more) name start n)
  unfolding scan_digits
  scan_digits-Extends max name start n inside = rw (slice_within start n buf more inside) (
      past_test (not (isdigit (take n (drop start buf)))) _ _ _ λ _.
        past_test (ltb max (read (take n (drop start buf)))) _ _ _
          λ _. scan_body-Extends name (start + n + 1) (read (take n (drop start buf))))

  -- Digits that end later than a buffer without an end are none, when the buffer has another byte.
  late_end :
      (max : ℕ) (name : Bytes) (start : ℕ) (o : Option ℕ)
      → start ≤ length buf
      → not (isdigit (drop start buf)) && not (is_empty (drop start buf)) ≡ true
      → ((n : ℕ) → o ≡ some n → length (drop start buf) ≤ n)
      → is_bad (past_length max (buf ++ more) name start o) ≡ true
  unfolding scan_digits
  late_end max name start (some n) inside wrong later =
      let rest = drop start buf in
      let ds : take n (drop start (buf ++ more)) ≡ rest ++ take (n - length rest) more =
        ap (take n) (drop_within start buf more inside) ∙ take_past n rest more (later n refl) in
      let (no_number, filled) = isdigit_longer rest (take (n - length rest) more) wrong in
      bad_test _ _ _ (ap (λ t. not (isdigit t)) ds ∙ ap not no_number)
  late_end max name start none inside wrong later =
      let rest = drop start buf in
      let (no_number, filled) = isdigit_longer rest more wrong in
      rw (drop_within start buf more inside, no_number, filled)
        (elim (Bool-cases (leb (length (digits max) + 1) (length (rest ++ more)))) [
          | inl e ↦ rw (e) refl
          | inr e ↦ rw (e) refl
        ])

  past_length-Extends :
      (max : ℕ) (name : Bytes) (start : ℕ)
      → start ≤ length buf
      → Extends
          (past_length max buf name start
            (find soh (take (length (digits max) + 1) (drop start buf))))
          (past_length max
            (buf ++ more)
            name
            start
            (find soh (take (length (digits max) + 1) (drop start (buf ++ more)))))
  past_length-Extends max name start inside =
      let limit = length (digits max) + 1 in
      let rest = drop start buf in
      elim (Option-cases (find soh (take limit rest))) [
        | inr (n, e) ↦
            let (same, low) = find_within soh limit n rest more e in
            rw (e, drop_within start buf more inside, same)
              (scan_digits-Extends max name start n (omega (arith, low, length-drop start buf)))
        | inl e ↦ elim (Bool-cases (leb limit (length rest))) [
          | inl long ↦
              let enough : limit ≤ length rest = ground (arith, long) in
              let also : leb limit (length (rest ++ more)) ≡ true =
                ground (arith, enough, length-append rest more) in
              rw
                (
                  e,
                  drop_within start buf more inside,
                  take_within limit rest more enough,
                  e,
                  long,
                  drop_within start buf more inside,
                  also,
                )
                refl
          | inr short ↦
              let all : length rest ≤ limit = ground (arith, short) in
              rw (e, short)
                (either_bad (not (isdigit rest) && not (is_empty rest)) _ _ λ wrong.
                  late_end max name start (find soh (take limit (drop start (buf ++ more)))) inside
                    wrong
                    λ n later. find_late soh limit n rest more all e (
                      ap (λ t. find soh (take limit t)) (sym (drop_within start buf more inside))
                      ∙ later))
        ]
      ]

  scan_length-Extends :
      (max : ℕ) (name : Bytes) (start : ℕ)
      → start ≤ length buf
      → Extends (scan_length max buf name start) (scan_length max (buf ++ more) name start)
  unfolding scan_length
  scan_length-Extends max name start inside =
      elim (Bool-cases (ltb (length (take 2 (drop start buf))) 2)) [
        | inl short ↦ rw (short) (
            short_test (not (starts_with length_prefix (take 2 (drop start buf)))) _ _ _ (
              turns_true (starts_with length_prefix (take 2 (drop start buf))) _
                (differs_slice start 2 length_prefix buf more)))
        | inr long ↦
            let enough : start + 2 ≤ length buf = ground (
              arith,
              long,
              length-take 2 (drop start buf),
              take_at_most 2 (drop start buf),
              length-drop start buf,
            ) in
            rw (slice_within start 2 buf more enough, long)
              (past_test (not (starts_with length_prefix (take 2 (drop start buf)))) _ _ _
                λ _. past_length-Extends max name (start + 2) enough)
      ]

  past_begin-Extends :
      (max : ℕ)
      → 2 ≤ length buf
      → Extends
          (past_begin max buf (find soh (take 30 (drop 2 buf))))
          (past_begin max (buf ++ more) (find soh (take 30 (drop 2 (buf ++ more)))))
  past_begin-Extends max two = elim (Option-cases (find soh (take 30 (drop 2 buf)))) [
    | inr (n, e) ↦
        let (same, low) = find_within soh 30 n (drop 2 buf) more e in
        let inside : 2 + n < length buf = omega (arith, low, length-drop 2 buf) in
        let also : find soh (take 30 (drop 2 (buf ++ more))) ≡ some n =
          ap (λ t. find soh (take 30 t)) (drop_within 2 buf more two) ∙ same in
        rw (e, also, slice_within 2 n buf more (omega (arith, inside)))
          (past_test (not (is_begin_string (take n (drop 2 buf)))) _ _ _
            λ _. scan_length-Extends max (take n (drop 2 buf)) (n + 3) (omega (arith, inside)))
    | inl e ↦ elim (Bool-cases (leb 32 (length buf))) [
      | inl long ↦
          let enough : 32 ≤ length buf = ground (arith, long) in
          let also : leb 32 (length (buf ++ more)) ≡ true =
            ground (arith, enough, length-append buf more) in
          rw (slice_within 2 30 buf more (omega (arith, enough)), e, long, also) refl
      | inr short ↦ rw (e, short) tt
    ]
  ]

  -- `_scan_frame` of a longer buffer.
  pub scan_frame-Extends : (max : ℕ) → Extends (scan_frame max buf) (scan_frame max (buf ++ more))
  unfolding scan_frame drop starts_with
  scan_frame-Extends max = elim (Bool-cases (ltb (length buf) 2)) [
    | inl short ↦ rw (short) (
        short_test (not (starts_with begin_prefix (take 2 buf))) _ _ _ (
          turns_true (starts_with begin_prefix (take 2 buf)) _
            (differs_slice 0 2 begin_prefix buf more)))
    | inr long ↦
        let enough : 2 ≤ length buf = ground (arith, long) in
        let also : ltb (length (buf ++ more)) 2 ≡ false =
          ground (arith, enough, length-append buf more) in
        rw (take_within 2 buf more enough, also, long)
          (past_test (not (starts_with begin_prefix (take 2 buf))) _ _ _
            λ _. past_begin-Extends max enough)
  ]
