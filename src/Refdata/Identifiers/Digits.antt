-- ===== src/Refdata/Identifiers/Digits.antt =====
-- src/ismet/refdata/identifiers.py: what a check digit detects.

use ismet.Prelude.{
  ℕ, zero, suc, ◌+◌, ◌-◌, ◌%◌, ◌≤◌, Bool, true, false, not, [], ◌∷◌, ◌++◌, map, append_assoc, ◌≡◌,
  ◌≢◌, refl, sym, ap, ◌∙◌, arith, ltb, if◌then◌else◌, map-append, ==_iff,
}
use ismet.Fix.Bytes.{Bytes, is_digit, digits, digits_on}
use ismet.Refdata.Identifiers.{
  Validated, reverse, term, doubled, expand, char_value, int_of, isin_total, isin_sums, checked,
  validate_isin, isin_pattern, matches, code_of,
}
use ismet.Refdata.Identifiers.Lists.{reverse-append, doubled-append, around, odd_after}

abbrev pub is_valid : Validated → Bool
is_valid (Validated.valid c) = true
is_valid _ = false

abbrev pub code_or : Bytes → Validated → Bytes
code_or o (Validated.valid c) = c
code_or o _ = o

-- What has held of the two tests of a code that is returned.
tests_valid :
    (t u : Bool) (code c : Bytes)
    → (if not t
        then Validated.invalid_format
        else if not u
        then Validated.invalid_check
        else Validated.valid code)
      ≡ Validated.valid c
    → (code ≡ c) × (t ≡ true) × (u ≡ true)
tests_valid false u code c e = absurd (ground (arith, ap is_valid e))
tests_valid true false code c e = absurd (ground (arith, ap is_valid e))
tests_valid true true code c e = (ap (code_or code) e, refl, refl)

pub checked-valid :
    (format sums : Bytes → Bool) (code c : Bytes)
    → checked format sums code ≡ Validated.valid c
    → (code ≡ c) × (format c ≡ true) × (sums c ≡ true)
unfolding checked
checked-valid format sums code c e =
    let (same, fits, right) = tests_valid (format code) (sums code) code c e in
    (same, ap format (sym same) ∙ fits, ap sums (sym same) ∙ right)

-- The digits of a number are told apart by what they add.
term_distinct :
    (odd : Bool) (rest a b : ℕ)
    → a ≤ 9
    → b ≤ 9
    → (rest + term odd a) % 10 ≡ 0
    → (rest + term odd b) % 10 ≡ 0
    → a ≡ b
unfolding term
term_distinct true rest a b la lb ea eb = ground (arith, la, lb, ea, eb)
term_distinct false rest a b la lb ea eb = omega (arith, la, lb, ea, eb)

expand-append : (xs ys : Bytes) → expand (xs ++ ys) ≡ expand xs ++ expand ys
unfolding expand
expand-append [] ys = refl
expand-append (x ∷ xs) ys =
    ap (λ t. digits (char_value x) ++ t) (expand-append xs ys)
    ∙ sym (append_assoc (digits (char_value x)) (expand xs) (expand ys))

digits_on_small : (fuel n : ℕ) → n ≤ fuel → n ≤ 9 → digits_on fuel n ≡ (b'0' + n) ∷ []
unfolding digits_on
digits_on_small zero n h small = ground (arith, h)
digits_on_small (suc fuel) n h small =
    let below : ltb n 10 ≡ true = ground (arith, small) in rw (below, digits_on) refl

pub char_value_digit : (a : ℕ) → is_digit a ≡ true → char_value a ≡ a - b'0'
unfolding char_value
char_value_digit a h = rw (h) refl

-- A digit stands for itself.
digits-char_value : (a : ℕ) → is_digit a ≡ true → digits (char_value a) ≡ a ∷ []
unfolding digits
digits-char_value a h =
    let small : (b'0' ≤ a) × (a ≤ b'9') = ground (arith, h) in
    rw
      (
        char_value_digit a h,
        digits_on_small (a - b'0') (a - b'0') (omega arith) (omega (arith, small)),
      )
      (ap (λ t. t ∷ []) (omega (arith, small)))

isin_total-digit :
    (pre : Bytes) (a : ℕ) (post : Bytes)
    → is_digit a ≡ true
    → isin_total (pre ++ a ∷ post)
      ≡ around false (map int_of (reverse (expand post))) (map int_of (reverse (expand pre)))
        + term (odd_after false (map int_of (reverse (expand post)))) (int_of a)
unfolding isin_total expand reverse
isin_total-digit pre a post h =
    let spelled : expand (pre ++ a ∷ post) ≡ expand pre ++ a ∷ expand post =
      expand-append pre (a ∷ post)
      ∙ ap (λ t. expand pre ++ t) (ap (λ t. t ++ expand post) (digits-char_value a h)) in
    let turned : reverse (expand pre ++ a ∷ expand post)
        ≡ reverse (expand post) ++ a ∷ reverse (expand pre) =
      reverse-append (expand pre) (a ∷ expand post)
      ∙ append_assoc (reverse (expand post)) (a ∷ []) (reverse (expand pre)) in
    ap (λ t. doubled false (map int_of (reverse t))) spelled
    ∙ ap (λ t. doubled false (map int_of t)) turned
    ∙ ap (doubled false) (map-append int_of (reverse (expand post)) (a ∷ reverse (expand pre)))
    ∙ doubled-append false (map int_of (reverse (expand post))) (int_of a)
        (map int_of (reverse (expand pre)))

-- Of two ISINs that differ in one digit, `validate_isin` takes one at most.
pub isin_one_digit :
    (v w pre : Bytes) (a b : ℕ) (post : Bytes)
    → is_digit a ≡ true
    → is_digit b ≡ true
    → a ≢ b
    → validate_isin v ≡ Validated.valid (pre ++ a ∷ post)
    → validate_isin w ≢ Validated.valid (pre ++ b ∷ post)
unfolding validate_isin isin_sums
isin_one_digit v w pre a b post da db differ va vb =
    let (e, f, sa) =
      checked-valid (matches isin_pattern) isin_sums (code_of v) (pre ++ a ∷ post) va in
    let (e', f', sb) =
      checked-valid (matches isin_pattern) isin_sums (code_of w) (pre ++ b ∷ post) vb in
    let rest =
      around false (map int_of (reverse (expand post))) (map int_of (reverse (expand pre))) in
    let odd = odd_after false (map int_of (reverse (expand post))) in
    let za : (rest + term odd (int_of a)) % 10 ≡ 0 =
      ap (λ t. t % 10) (sym (isin_total-digit pre a post da)) ∙ (==_iff _ 0).0 sa in
    let zb : (rest + term odd (int_of b)) % 10 ≡ 0 =
      ap (λ t. t % 10) (sym (isin_total-digit pre b post db)) ∙ (==_iff _ 0).0 sb in
    let ra : (b'0' ≤ a) × (a ≤ b'9') = ground (arith, da) in
    let rb : (b'0' ≤ b) × (b ≤ b'9') = ground (arith, db) in
    let same =
      term_distinct odd rest (int_of a) (int_of b) (omega (arith, ra)) (omega (arith, rb)) za zb in
    differ (omega (arith, ra, rb, same))
