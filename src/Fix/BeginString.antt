-- ===== src/Fix/BeginString.antt =====
-- src/ismet/fix/message.py: what `_BEGIN_STRING` matches is plain text without a delimiter.
use ismet.Prelude.{
  ℕ, Bool, true, false, ◌&&◌, ◌||◌, [], ◌∷◌, ltb, ◌==◌, ◌≡◌, refl, sym, ap, ◌∙◌, inl, inr, arith,
  Bool-cases, elem,
}
use ismet.Fix.Bytes.{Bytes, soh, drop, starts_with, is_digit}
use ismet.Fix.Message.{after_digits, number_then, at_end, is_begin_string, ascii_replace}

-- The characters of a BeginString, and the newline that `$` leaves.
abbrev plain : ℕ → Bool
plain c = is_digit c || c == b'.' || c == b'F' || c == b'I' || c == b'X' || c == b'T' || c == 10

abbrev all_plain : Bytes → Bool
all_plain [] = true
all_plain (c ∷ cs) = plain c && all_plain cs

all_plain-after_digits : (ds : Bytes) → all_plain (after_digits ds) ≡ true → all_plain ds ≡ true
unfolding after_digits
all_plain-after_digits [] h = refl
all_plain-after_digits (d ∷ ds) h = elim (Bool-cases (is_digit d)) [
  | inl e ↦ ground (arith, e, h, all_plain-after_digits ds)
  | inr e ↦ ground (arith, e, h)
]

all_plain-at_end : (xs : Bytes) → at_end xs ≡ true → all_plain xs ≡ true
all_plain-at_end [] h = refl
all_plain-at_end (c ∷ []) h = ground (arith, h)
all_plain-at_end (c ∷ d ∷ ds) h = absurd (ground (arith, h))

all_plain-number_then :
    (next : Bytes → Bool) (xs : Bytes)
    → ((ys : Bytes) → next ys ≡ true → all_plain ys ≡ true)
    → number_then next xs ≡ true
    → all_plain xs ≡ true
all_plain-number_then next [] later h = absurd (ground (arith, h))
all_plain-number_then next (c ∷ []) later h = absurd (ground (arith, h))
all_plain-number_then next (c ∷ d ∷ ds) later h =
    ground (arith, h, later (after_digits ds), all_plain-after_digits ds)

all_plain-version : (xs : Bytes) → number_then (number_then at_end) xs ≡ true → all_plain xs ≡ true
all_plain-version xs h =
    all_plain-number_then (number_then at_end) xs
      (λ ys. all_plain-number_then at_end ys all_plain-at_end) h

all_plain-begin_string : (xs : Bytes) → is_begin_string xs ≡ true → all_plain xs ≡ true
unfolding is_begin_string starts_with drop
all_plain-begin_string [] h = refl
all_plain-begin_string (a ∷ []) h = absurd (ground (arith, h))
all_plain-begin_string (a ∷ b ∷ []) h = absurd (ground (arith, h))
all_plain-begin_string (a ∷ b ∷ c ∷ []) h = absurd (ground (arith, h))
all_plain-begin_string (a ∷ b ∷ c ∷ d ∷ ds) h = elim (Bool-cases (d == b'T')) [
  | inl e ↦ ground (arith, e, h, all_plain-version ds)
  | inr e ↦ ground (arith, e, h, all_plain-version (d ∷ ds))
]

beside_soh : (xs : Bytes) → all_plain xs ≡ true → elem soh xs ≡ false
beside_soh [] h = refl
beside_soh (c ∷ cs) h = ground (arith, h, beside_soh cs)

ascii_replace_lem : (xs : Bytes) → all_plain (ascii_replace xs) ≡ true → ascii_replace xs ≡ xs
ascii_replace_lem [] h = refl
ascii_replace_lem (c ∷ cs) h = elim (Bool-cases (ltb c 128)) [
  | inl e ↦ ground (arith, e, h, ascii_replace_lem cs)
  | inr e ↦ absurd (ground (arith, e, h))
]

-- A BeginString that `encode_frame` takes is written as it is, without a delimiter.
pub begin_string_lem :
    (xs : Bytes)
    → is_begin_string (ascii_replace xs) ≡ true
    → (is_begin_string xs ≡ true) × (elem soh xs ≡ false)
begin_string_lem xs h =
    let safe = all_plain-begin_string (ascii_replace xs) h in
    let same = ascii_replace_lem xs safe in
    (ap is_begin_string (sym same) ∙ h, beside_soh xs (ap all_plain (sym same) ∙ safe))
