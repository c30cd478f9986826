-- ===== src/Refdata/Identifiers/Canonical.antt =====
-- src/ismet/refdata/identifiers.py: what a `validate_` function returns, it returns for itself.
use ismet.Prelude.{
  ℕ, zero, suc, Bool, true, false, not, ◌&&◌, [], ◌∷◌, ◌++◌, map, ◌≡◌, refl, ap, ◌∙◌, arith, leb,
  ◌==◌,
}
use ismet.Fix.Bytes.{Bytes, is_digit}
use ismet.Refdata.Identifiers.{
  Validated, Pattern, reverse, lstrip, strip, is_space, upper_char, matches, code_of, checked,
  isin_pattern, cusip_pattern, sedol_pattern, figi_pattern, lei_pattern, figi_matches, isin_sums,
  cusip_sums, sedol_sums, figi_sums, lei_sums, validate_isin, validate_cusip, validate_sedol,
  validate_figi, validate_lei, Scheme, validate, is_letter, is_alnum, is_consonant, is_figi_char,
  is_cusip_char, times,
}
use ismet.Refdata.Identifiers.Lists.{reverse-reverse}
use ismet.Refdata.Identifiers.Digits.{checked-valid}

-- A character that neither `strip` nor `upper` changes.
abbrev is_plain : ℕ → Bool
is_plain c = not (is_space c) && not (leb b'a' c && leb c b'z')

abbrev all_plain : Bytes → Bool
all_plain [] = true
all_plain (c ∷ cs) = is_plain c && all_plain cs

all_plain-append : (xs ys : Bytes) → all_plain (xs ++ ys) ≡ all_plain xs && all_plain ys
all_plain-append [] ys = refl
all_plain-append (x ∷ xs) ys = rw (all_plain-append xs ys) (ground arith)

all_plain-reverse : (xs : Bytes) → all_plain (reverse xs) ≡ all_plain xs
unfolding reverse
all_plain-reverse [] = refl
all_plain-reverse (x ∷ xs) =
    rw (all_plain-append (reverse xs) (x ∷ []), all_plain-reverse xs) (ground arith)

lstrip-plain : (xs : Bytes) → all_plain xs ≡ true → lstrip xs ≡ xs
unfolding lstrip
lstrip-plain [] h = refl
lstrip-plain (x ∷ xs) h = let kept : is_space x ≡ false = ground (arith, h) in rw (kept) refl

upper-plain : (xs : Bytes) → all_plain xs ≡ true → map upper_char xs ≡ xs
upper-plain [] h = refl
upper-plain (x ∷ xs) h =
    let kept : (leb b'a' x && leb x b'z') ≡ false = ground (arith, h) in
    let rest : all_plain xs ≡ true = ground (arith, h) in rw (kept, upper-plain xs rest) refl

code_of-plain : (c : Bytes) → all_plain c ≡ true → code_of c ≡ c
unfolding strip
code_of-plain c h =
    ap (λ t. map upper_char (reverse (lstrip (reverse t)))) (lstrip-plain c h)
    ∙ ap (λ t. map upper_char (reverse t)) (lstrip-plain (reverse c) (all_plain-reverse c ∙ h))
    ∙ ap (map upper_char) (reverse-reverse c)
    ∙ upper-plain c h

-- A pattern whose classes have plain characters only.
abbrev IsPlain : Pattern → Type 0
IsPlain [] = Unit
IsPlain (p ∷ ps) = ((c : ℕ) → p c ≡ true → is_plain c ≡ true) × IsPlain ps

matches-plain :
    (ps : Pattern) (cs : Bytes) → IsPlain ps → matches ps cs ≡ true → all_plain cs ≡ true
unfolding matches
matches-plain [] [] h m = refl
matches-plain [] (c ∷ cs) h m = absurd (ground (arith, m))
matches-plain (p ∷ ps) [] h m = absurd (ground (arith, m))
matches-plain (p ∷ ps) (c ∷ cs) (h, hs) m =
    let now : is_plain c ≡ true = h c (ground (arith, m)) in
    let rest : all_plain cs ≡ true = matches-plain ps cs hs (ground (arith, m)) in
    ground (arith, now, rest)

letter_plain : (c : ℕ) → is_letter c ≡ true → is_plain c ≡ true
letter_plain c h = ground (arith, h)

digit_plain : (c : ℕ) → is_digit c ≡ true → is_plain c ≡ true
digit_plain c h = ground (arith, h)

alnum_plain : (c : ℕ) → is_alnum c ≡ true → is_plain c ≡ true
alnum_plain c h = ground (arith, h)

consonant_plain : (c : ℕ) → is_consonant c ≡ true → is_plain c ≡ true
consonant_plain c h = letter_plain c (ground (arith, h))

figi_char_plain : (c : ℕ) → is_figi_char c ≡ true → is_plain c ≡ true
figi_char_plain c h = ground (arith, h)

cusip_char_plain : (c : ℕ) → is_cusip_char c ≡ true → is_plain c ≡ true
cusip_char_plain c h = ground (arith, h)

times-IsPlain :
    (n : ℕ) (p : ℕ → Bool) (ps : Pattern)
    → ((c : ℕ) → p c ≡ true → is_plain c ≡ true)
    → IsPlain ps
    → IsPlain (times n p ps)
times-IsPlain zero p ps h hs = hs
times-IsPlain (suc n) p ps h hs = (h, times-IsPlain n p ps h hs)

-- A code that is in a format of plain characters and sums is its own result.
kept_code :
    (format sums : Bytes → Bool)
    → ((c : Bytes) → format c ≡ true → all_plain c ≡ true)
    → (v c : Bytes) → checked format sums (code_of v) ≡ Validated.valid c
    → checked format sums (code_of c) ≡ Validated.valid c
unfolding checked
kept_code format sums plain v c e =
    let (same, fits, right) = checked-valid format sums (code_of v) c e in
    ap (checked format sums) (code_of-plain c (plain c fits)) ∙ rw (fits, right) refl

digit_end : IsPlain (is_digit ∷ [])
digit_end = (digit_plain, tt)

figi-IsPlain : IsPlain figi_pattern
figi-IsPlain =
    let ending : IsPlain (times 8 is_figi_char (is_digit ∷ [])) =
      times-IsPlain 8 is_figi_char (is_digit ∷ []) figi_char_plain digit_end in
    let middle : IsPlain ((λ c. c == b'G') ∷ times 8 is_figi_char (is_digit ∷ [])) =
      (λ g h. ground (arith, h), ending) in
    times-IsPlain 2 is_consonant ((λ c. c == b'G') ∷ times 8 is_figi_char (is_digit ∷ []))
      consonant_plain middle

isin-IsPlain : IsPlain isin_pattern
isin-IsPlain =
    times-IsPlain 2 is_letter (times 9 is_alnum (is_digit ∷ [])) letter_plain
      (times-IsPlain 9 is_alnum (is_digit ∷ []) alnum_plain digit_end)

lei-IsPlain : IsPlain lei_pattern
lei-IsPlain =
    times-IsPlain 18 is_alnum (is_digit ∷ is_digit ∷ []) alnum_plain (digit_plain, digit_end)

-- What `validate_isin`, `validate_cusip`, `validate_sedol`, `validate_figi` or `validate_lei`
-- returns, the same function returns unchanged when it is given it.
validate-validate :
    (k : Scheme) (v c : Bytes) → validate k v ≡ Validated.valid c → validate k c ≡ Validated.valid c
unfolding validate validate_isin validate_cusip validate_sedol validate_figi validate_lei
validate-validate Scheme.isin v c e =
    kept_code (matches isin_pattern) isin_sums (λ d. matches-plain isin_pattern d isin-IsPlain) v c
      e
validate-validate Scheme.cusip v c e =
    kept_code (matches cusip_pattern) cusip_sums
      (λ d.
        matches-plain cusip_pattern d
          (times-IsPlain 8 is_cusip_char (is_digit ∷ []) cusip_char_plain digit_end))
      v c e
validate-validate Scheme.sedol v c e =
    kept_code (matches sedol_pattern) sedol_sums
      (λ d.
        matches-plain sedol_pattern d
          (times-IsPlain 6 is_figi_char (is_digit ∷ []) figi_char_plain digit_end))
      v c e
validate-validate Scheme.figi v c e =
    kept_code figi_matches figi_sums
      (λ d m. matches-plain figi_pattern d figi-IsPlain (ground (arith, m))) v c e
validate-validate Scheme.lei v c e =
    kept_code (matches lei_pattern) lei_sums (λ d. matches-plain lei_pattern d lei-IsPlain) v c e
