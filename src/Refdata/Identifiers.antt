-- ===== src/Refdata/Identifiers.antt =====
-- src/ismet/refdata/identifiers.py: the check digits of ISIN, CUSIP, SEDOL, FIGI and LEI.
--
-- A text is the list of its code points, all of them ASCII: `strip` and `upper` are those of ASCII
-- text. A pattern is a list of character classes, one for each position. `\n` before the end, which
-- `$` admits, cannot be there after `strip`.
use ismet.Prelude.{
  ℕ, zero, suc, ◌+◌, ◌-◌, ◌*◌, ◌/◌, ◌%◌, Bool, true, false, not, ◌&&◌, ◌||◌, List, [], ◌∷◌, ◌++◌,
  map, ltb, leb, ◌==◌, if◌then◌else◌,
}
use ismet.Fix.Bytes.{Bytes, take, drop, is_digit, read, digits, starts_with}
pub mod Lists
pub mod Digits
pub mod Weights
pub mod Canonical
mod Tests

-- What a `validate_` function returns, or the `ValueError` that it raises.
pub data Validated : Type 0 where
  valid : Bytes → Validated
  invalid_format : Validated
  invalid_check : Validated

unfoldable pub reverse : List ℕ → List ℕ
reverse [] = []
reverse (x ∷ xs) = reverse xs ++ x ∷ []

-- `str.isspace` of one character
abbrev pub is_space : ℕ → Bool
is_space c = (leb 9 c && leb c 13) || (leb 28 c && leb c 32)

unfoldable pub lstrip : Bytes → Bytes
lstrip [] = []
lstrip (c ∷ cs) = if is_space c then lstrip cs else (c ∷ cs)

-- `value.strip()`
unfoldable pub strip : Bytes → Bytes
strip value = reverse (lstrip (reverse (lstrip value)))

-- `str.upper` of one character
abbrev pub upper_char : ℕ → ℕ
upper_char c = if leb b'a' c && leb c b'z' then c - 32 else c

-- The classes of the patterns: `[A-Z]`, `[A-Z0-9]`, `[B-DF-HJ-NP-TV-Z]` and the last with digits.
abbrev pub is_letter : ℕ → Bool
is_letter c = leb b'A' c && leb c b'Z'

abbrev pub is_alnum : ℕ → Bool
is_alnum c = is_letter c || is_digit c

abbrev pub is_vowel : ℕ → Bool
is_vowel c = c == b'A' || (c == b'E' || (c == b'I' || (c == b'O' || c == b'U')))

abbrev pub is_consonant : ℕ → Bool
is_consonant c = is_letter c && not (is_vowel c)

abbrev pub is_figi_char : ℕ → Bool
is_figi_char c = is_consonant c || is_digit c

-- `[A-Z0-9*@#]`
abbrev pub is_cusip_char : ℕ → Bool
is_cusip_char c = is_alnum c || (c == b'*' || (c == b'@' || c == b'#'))

abbrev pub Pattern : Type 0
Pattern = List (ℕ → Bool)

-- `pattern.match(code)` of a pattern that holds from `^` to `$`
unfoldable pub matches : Pattern → Bytes → Bool
matches [] [] = true
matches (p ∷ ps) (c ∷ cs) = p c && matches ps cs
matches _ _ = false

-- `p{n}` before `ps`
abbrev pub times : ℕ → (ℕ → Bool) → Pattern → Pattern
times zero p ps = ps
times (suc n) p ps = p ∷ times n p ps

abbrev pub isin_pattern : Pattern
isin_pattern = times 2 is_letter (times 9 is_alnum (is_digit ∷ []))

abbrev pub cusip_pattern : Pattern
cusip_pattern = times 8 is_cusip_char (is_digit ∷ [])

abbrev pub sedol_pattern : Pattern
sedol_pattern = times 6 is_figi_char (is_digit ∷ [])

abbrev pub figi_pattern : Pattern
figi_pattern = times 2 is_consonant ((λ c. c == b'G') ∷ times 8 is_figi_char (is_digit ∷ []))

abbrev pub lei_pattern : Pattern
lei_pattern = times 18 is_alnum (times 2 is_digit [])

abbrev pub banned_prefix : Bytes → Bool
banned_prefix code =
    starts_with code (b'B' ∷ b'S' ∷ [])
    || (starts_with code (b'B' ∷ b'M' ∷ [])
        || (starts_with code (b'G' ∷ b'G' ∷ [])
            || (starts_with code (b'G' ∷ b'B' ∷ [])
                || (starts_with code (b'G' ∷ b'H' ∷ [])
                    || (starts_with code (b'K' ∷ b'Y' ∷ [])
                        || starts_with code (b'V' ∷ b'G' ∷ []))))))

-- `_char_value`
unfoldable pub char_value : ℕ → ℕ
char_value c = if is_digit c then c - b'0' else c - b'A' + 10

-- `number // 10 + number % 10`, of the doubled number where the index is odd
unfoldable pub term : Bool → ℕ → ℕ
term odd n = let number = if odd then n * 2 else n in number / 10 + number % 10

-- The loop over `enumerate(...)` that adds to `total`.
unfoldable pub doubled : Bool → List ℕ → ℕ
doubled odd [] = 0
doubled odd (n ∷ ns) = term odd n + doubled (not odd) ns

-- `"".join(str(_char_value(ch)) for ch in code)`
unfoldable pub expand : Bytes → Bytes
expand [] = []
expand (c ∷ cs) = digits (char_value c) ++ expand cs

-- `int(digit)` of one character
abbrev pub int_of : ℕ → ℕ
int_of d = d - b'0'

unfoldable pub isin_total : Bytes → ℕ
isin_total code = doubled false (map int_of (reverse (expand code)))

unfoldable pub cusip_value : ℕ → ℕ
cusip_value c =
    if c == b'*' then 36 else if c == b'@' then 37 else if c == b'#' then 38 else char_value c

unfoldable pub cusip_total : Bytes → ℕ
cusip_total code = doubled false (map cusip_value (take 8 code))

unfoldable pub figi_total : Bytes → ℕ
figi_total code = doubled false (map char_value (take 11 code))

abbrev pub sedol_weights : List ℕ
sedol_weights = 1 ∷ 3 ∷ 1 ∷ 7 ∷ 3 ∷ 9 ∷ 1 ∷ []

-- `sum(_char_value(ch) * weight ...)`; the pattern has fixed the length, so `strict` never raises.
unfoldable pub weighted : Bytes → List ℕ → ℕ
weighted (c ∷ cs) (w ∷ ws) = char_value c * w + weighted cs ws
weighted _ _ = 0

-- `int(code[n])`
abbrev pub digit_at : ℕ → Bytes → ℕ
digit_at n code = read (take 1 (drop n code))

unfoldable pub isin_sums : Bytes → Bool
isin_sums code = isin_total code % 10 == 0

unfoldable pub cusip_sums : Bytes → Bool
cusip_sums code = (10 - cusip_total code % 10) % 10 == digit_at 8 code

unfoldable pub sedol_sums : Bytes → Bool
sedol_sums code = weighted code sedol_weights % 10 == 0

unfoldable pub figi_sums : Bytes → Bool
figi_sums code = (10 - figi_total code % 10) % 10 == digit_at 11 code

unfoldable pub lei_sums : Bytes → Bool
lei_sums code = read (expand code) % 97 == 1

abbrev pub figi_matches : Bytes → Bool
figi_matches code = matches figi_pattern code && not (banned_prefix code)

-- The body that the `validate_` functions share: the format of `code`, then its check digit.
unfoldable pub checked : (Bytes → Bool) → (Bytes → Bool) → Bytes → Validated
checked format sums code =
    if not (format code)
    then Validated.invalid_format
    else if not (sums code)
    then Validated.invalid_check
    else Validated.valid code

-- `value.strip().upper()`
abbrev pub code_of : Bytes → Bytes
code_of value = map upper_char (strip value)

unfoldable pub validate_isin : Bytes → Validated
validate_isin value = checked (matches isin_pattern) isin_sums (code_of value)

unfoldable pub validate_cusip : Bytes → Validated
validate_cusip value = checked (matches cusip_pattern) cusip_sums (code_of value)

unfoldable pub validate_sedol : Bytes → Validated
validate_sedol value = checked (matches sedol_pattern) sedol_sums (code_of value)

unfoldable pub validate_figi : Bytes → Validated
validate_figi value = checked figi_matches figi_sums (code_of value)

unfoldable pub validate_lei : Bytes → Validated
validate_lei value = checked (matches lei_pattern) lei_sums (code_of value)

-- The five functions that the module exports.
pub data Scheme : Type 0 where
  isin : Scheme
  cusip : Scheme
  sedol : Scheme
  figi : Scheme
  lei : Scheme

unfoldable pub validate : Scheme → Bytes → Validated
validate Scheme.isin = validate_isin
validate Scheme.cusip = validate_cusip
validate Scheme.sedol = validate_sedol
validate Scheme.figi = validate_figi
validate Scheme.lei = validate_lei
