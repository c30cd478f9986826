-- ===== src/Refdata/Identifiers/Tests.antt =====
-- Identifiers in use, and the witnesses of the theorems about check digits.
use ismet.Prelude.{[], ◌∷◌, ◌≡◌, ◌≢◌, refl, arith}
use ismet.Fix.Bytes.{Bytes, take, drop, read_from, digits, digits_on, starts_with}
use ismet.Refdata.Identifiers.{
  Validated, validate_isin, validate_cusip, validate_sedol, validate_figi, validate_lei, checked,
  matches, strip, lstrip, reverse, isin_sums, cusip_sums, sedol_sums, figi_sums, lei_sums,
  isin_total, cusip_total, figi_total, weighted, doubled, term, expand, char_value, cusip_value,
}
use ismet.Refdata.Identifiers.Weights.{sedol_one_digit}
use ismet.Refdata.Identifiers.Digits.{isin_one_digit}

abbrev apple : Bytes
apple = b'U' ∷ b'S' ∷ b'0' ∷ b'3' ∷ b'7' ∷ b'8' ∷ b'3' ∷ b'3' ∷ b'1' ∷ b'0' ∷ b'0' ∷ b'5' ∷ []

-- ` us0378331005`, then a newline
abbrev apple_typed : Bytes
apple_typed =
    32 ∷ b'u' ∷ b's' ∷ b'0' ∷ b'3' ∷ b'7' ∷ b'8' ∷ b'3' ∷ b'3' ∷ b'1' ∷ b'0' ∷ b'0' ∷ b'5' ∷ 10 ∷ []

abbrev bae : Bytes
bae = b'0' ∷ b'2' ∷ b'6' ∷ b'3' ∷ b'4' ∷ b'9' ∷ b'4' ∷ []

typed_isin : validate_isin apple_typed ≡ Validated.valid apple
unfolding checked matches strip lstrip reverse isin_sums cusip_sums sedol_sums figi_sums lei_sums
    isin_total cusip_total figi_total weighted doubled term expand char_value cusip_value take drop
    read_from digits digits_on starts_with validate_isin
typed_isin = refl

plain_isin : validate_isin apple ≡ Validated.valid apple
unfolding checked matches strip lstrip reverse isin_sums cusip_sums sedol_sums figi_sums lei_sums
    isin_total cusip_total figi_total weighted doubled term expand char_value cusip_value take drop
    read_from digits digits_on starts_with validate_isin
plain_isin = refl

wrong_isin :
    validate_isin
      (b'U' ∷ b'S' ∷ b'0' ∷ b'3' ∷ b'7' ∷ b'8' ∷ b'3' ∷ b'3' ∷ b'1' ∷ b'0' ∷ b'0' ∷ b'6' ∷ [])
    ≡ Validated.invalid_check
unfolding checked matches strip lstrip reverse isin_sums cusip_sums sedol_sums figi_sums lei_sums
    isin_total cusip_total figi_total weighted doubled term expand char_value cusip_value take drop
    read_from digits digits_on starts_with validate_isin
wrong_isin = refl

short_isin :
    validate_isin (b'U' ∷ b'S' ∷ b'0' ∷ b'3' ∷ b'7' ∷ b'8' ∷ b'3' ∷ b'3' ∷ b'1' ∷ b'0' ∷ b'0' ∷ [])
    ≡ Validated.invalid_format
unfolding checked matches strip lstrip reverse isin_sums cusip_sums sedol_sums figi_sums lei_sums
    isin_total cusip_total figi_total weighted doubled term expand char_value cusip_value take drop
    read_from digits digits_on starts_with validate_isin
short_isin = refl

plain_cusip :
    validate_cusip (b'0' ∷ b'3' ∷ b'7' ∷ b'8' ∷ b'3' ∷ b'3' ∷ b'1' ∷ b'0' ∷ b'0' ∷ [])
    ≡ Validated.valid (b'0' ∷ b'3' ∷ b'7' ∷ b'8' ∷ b'3' ∷ b'3' ∷ b'1' ∷ b'0' ∷ b'0' ∷ [])
unfolding checked matches strip lstrip reverse isin_sums cusip_sums sedol_sums figi_sums lei_sums
    isin_total cusip_total figi_total weighted doubled term expand char_value cusip_value take drop
    read_from digits digits_on starts_with validate_cusip
plain_cusip = refl

plain_sedol : validate_sedol bae ≡ Validated.valid bae
unfolding checked matches strip lstrip reverse isin_sums cusip_sums sedol_sums figi_sums lei_sums
    isin_total cusip_total figi_total weighted doubled term expand char_value cusip_value take drop
    read_from digits digits_on starts_with validate_sedol
plain_sedol = refl

wrong_sedol :
    validate_sedol (b'0' ∷ b'2' ∷ b'6' ∷ b'3' ∷ b'4' ∷ b'9' ∷ b'5' ∷ []) ≡ Validated.invalid_check
unfolding checked matches strip lstrip reverse isin_sums cusip_sums sedol_sums figi_sums lei_sums
    isin_total cusip_total figi_total weighted doubled term expand char_value cusip_value take drop
    read_from digits digits_on starts_with validate_sedol
wrong_sedol = refl

plain_figi :
    validate_figi
      (b'B' ∷ b'B' ∷ b'G' ∷ b'0' ∷ b'0' ∷ b'0' ∷ b'B' ∷ b'9' ∷ b'X' ∷ b'R' ∷ b'Y' ∷ b'4' ∷ [])
    ≡ Validated.valid
        (b'B' ∷ b'B' ∷ b'G' ∷ b'0' ∷ b'0' ∷ b'0' ∷ b'B' ∷ b'9' ∷ b'X' ∷ b'R' ∷ b'Y' ∷ b'4' ∷ [])
unfolding checked matches strip lstrip reverse isin_sums cusip_sums sedol_sums figi_sums lei_sums
    isin_total cusip_total figi_total weighted doubled term expand char_value cusip_value take drop
    read_from digits digits_on starts_with validate_figi
plain_figi = refl

banned_figi :
    validate_figi
      (b'B' ∷ b'M' ∷ b'G' ∷ b'0' ∷ b'0' ∷ b'0' ∷ b'B' ∷ b'9' ∷ b'X' ∷ b'R' ∷ b'Y' ∷ b'4' ∷ [])
    ≡ Validated.invalid_format
unfolding checked matches strip lstrip reverse isin_sums cusip_sums sedol_sums figi_sums lei_sums
    isin_total cusip_total figi_total weighted doubled term expand char_value cusip_value take drop
    read_from digits digits_on starts_with validate_figi
banned_figi = refl

plain_lei :
    validate_lei (
      b'H' ∷ b'W' ∷ b'U' ∷ b'P' ∷ b'K' ∷ b'R' ∷ b'0' ∷ b'M' ∷ b'P' ∷ b'O' ∷ b'U' ∷ b'8' ∷ b'F'
      ∷ b'G' ∷ b'X' ∷ b'B' ∷ b'T' ∷ b'3' ∷ b'9' ∷ b'4' ∷ [])
    ≡ Validated.valid (
        b'H' ∷ b'W' ∷ b'U' ∷ b'P' ∷ b'K' ∷ b'R' ∷ b'0' ∷ b'M' ∷ b'P' ∷ b'O' ∷ b'U' ∷ b'8' ∷ b'F'
        ∷ b'G' ∷ b'X' ∷ b'B' ∷ b'T' ∷ b'3' ∷ b'9' ∷ b'4' ∷ [])
unfolding checked matches strip lstrip reverse isin_sums cusip_sums sedol_sums figi_sums lei_sums
    isin_total cusip_total figi_total weighted doubled term expand char_value cusip_value take drop
    read_from digits digits_on starts_with validate_lei
plain_lei = refl

isin_one_digit_example :
    validate_isin
      (b'U' ∷ b'S' ∷ b'0' ∷ b'4' ∷ b'7' ∷ b'8' ∷ b'3' ∷ b'3' ∷ b'1' ∷ b'0' ∷ b'0' ∷ b'5' ∷ [])
    ≢ Validated.valid
        (b'U' ∷ b'S' ∷ b'0' ∷ b'4' ∷ b'7' ∷ b'8' ∷ b'3' ∷ b'3' ∷ b'1' ∷ b'0' ∷ b'0' ∷ b'5' ∷ [])
isin_one_digit_example =
    isin_one_digit apple_typed
      (b'U' ∷ b'S' ∷ b'0' ∷ b'4' ∷ b'7' ∷ b'8' ∷ b'3' ∷ b'3' ∷ b'1' ∷ b'0' ∷ b'0' ∷ b'5' ∷ [])
      (b'U' ∷ b'S' ∷ b'0' ∷ []) b'3' b'4'
      (b'7' ∷ b'8' ∷ b'3' ∷ b'3' ∷ b'1' ∷ b'0' ∷ b'0' ∷ b'5' ∷ []) refl refl
      (λ e. ground (arith, e)) typed_isin

sedol_one_digit_example :
    validate_sedol (b'0' ∷ b'2' ∷ b'7' ∷ b'3' ∷ b'4' ∷ b'9' ∷ b'4' ∷ [])
    ≢ Validated.valid (b'0' ∷ b'2' ∷ b'7' ∷ b'3' ∷ b'4' ∷ b'9' ∷ b'4' ∷ [])
sedol_one_digit_example =
    sedol_one_digit bae (b'0' ∷ b'2' ∷ b'7' ∷ b'3' ∷ b'4' ∷ b'9' ∷ b'4' ∷ []) (b'0' ∷ b'2' ∷ [])
      b'6' b'7' (b'3' ∷ b'4' ∷ b'9' ∷ b'4' ∷ []) refl refl (λ e. ground (arith, e)) plain_sedol
