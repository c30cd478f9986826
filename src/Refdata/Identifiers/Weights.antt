-- ===== src/Refdata/Identifiers/Weights.antt =====
-- src/ismet/refdata/identifiers.py: what the weighted sum of a SEDOL detects.
use ismet.Prelude.{
  ℕ, ◌+◌, ◌-◌, ◌*◌, ◌%◌, ◌≤◌, Bool, true, ◌&&◌, ◌||◌, List, [], ◌∷◌, ◌++◌, ◌⊎◌, inl, inr, ◌≡◌, ◌≢◌,
  refl, sym, ap, ◌∙◌, arith, length, ◌==◌, ==_iff,
}
use ismet.Fix.Bytes.{Bytes, is_digit}
use ismet.Refdata.Identifiers.{
  Validated, Pattern, char_value, matches, code_of, weighted, sedol_weights, sedol_sums,
  sedol_pattern, validate_sedol,
}
use ismet.Refdata.Identifiers.Digits.{checked-valid, char_value_digit}

-- The weight that the character after `pre` has.
abbrev pub weight_at : Bytes → List ℕ → ℕ
weight_at pre [] = 0
weight_at [] (w ∷ ws) = w
weight_at (c ∷ cs) (w ∷ ws) = weight_at cs ws

-- What the other characters add.
abbrev pub beside : Bytes → Bytes → List ℕ → ℕ
beside pre post [] = 0
beside [] post (w ∷ ws) = weighted post ws
beside (c ∷ cs) post (w ∷ ws) = char_value c * w + beside cs post ws

weighted-append :
    (pre : Bytes) (a : ℕ) (post : Bytes) (ws : List ℕ)
    → weighted (pre ++ a ∷ post) ws ≡ beside pre post ws + char_value a * weight_at pre ws
unfolding weighted
weighted-append [] a post [] = omega arith
weighted-append (c ∷ cs) a post [] = omega arith
weighted-append [] a post (w ∷ ws) = omega arith
weighted-append (c ∷ cs) a post (w ∷ ws) = rw (weighted-append cs a post ws) (omega arith)

-- A weight that has an inverse modulo 10.
abbrev is_unit : ℕ → Bool
is_unit w = w == 1 || (w == 3 || (w == 7 || w == 9))

abbrev all_units : List ℕ → Bool
all_units [] = true
all_units (w ∷ ws) = is_unit w && all_units ws

weight_is_unit :
    (ps : Pattern) (ws : List ℕ) (pre : Bytes) (a : ℕ) (post : Bytes)
    → length ps ≡ length ws
    → all_units ws ≡ true
    → matches ps (pre ++ a ∷ post) ≡ true
    → is_unit (weight_at pre ws) ≡ true
unfolding matches
weight_is_unit [] ws [] a post l u m = absurd (ground (arith, m))
weight_is_unit [] ws (c ∷ cs) a post l u m = absurd (ground (arith, m))
weight_is_unit (p ∷ ps) [] pre a post l u m = absurd (omega (arith, l))
weight_is_unit (p ∷ ps) (w ∷ ws) [] a post l u m = ground (arith, u)
weight_is_unit (p ∷ ps) (w ∷ ws) (c ∷ cs) a post l u m =
    weight_is_unit ps ws cs a post (omega (arith, l)) (ground (arith, u)) (ground (arith, m))

unit_cases : (w : ℕ) → is_unit w ≡ true → (w ≡ 1) ⊎ ((w ≡ 3) ⊎ ((w ≡ 7) ⊎ (w ≡ 9)))
unit_cases w h = ground (arith, h)

-- Multiples of a weight with an inverse tell the digits apart.
unit_distinct :
    (w rest a b : ℕ)
    → is_unit w ≡ true
    → a ≤ 9
    → b ≤ 9
    → (rest + a * w) % 10 ≡ 0
    → (rest + b * w) % 10 ≡ 0
    → a ≡ b
unit_distinct w rest a b u la lb ea eb = elim (unit_cases w u) [
  | inl e ↦
      let za : (rest + a * 1) % 10 ≡ 0 = ap (λ t. (rest + a * t) % 10) (sym e) ∙ ea in
      let zb : (rest + b * 1) % 10 ≡ 0 = ap (λ t. (rest + b * t) % 10) (sym e) ∙ eb in
      omega (arith, la, lb, za, zb)
  | inr (inl e) ↦
      let za : (rest + a * 3) % 10 ≡ 0 = ap (λ t. (rest + a * t) % 10) (sym e) ∙ ea in
      let zb : (rest + b * 3) % 10 ≡ 0 = ap (λ t. (rest + b * t) % 10) (sym e) ∙ eb in
      omega (arith, la, lb, za, zb)
  | inr (inr (inl e)) ↦
      let za : (rest + a * 7) % 10 ≡ 0 = ap (λ t. (rest + a * t) % 10) (sym e) ∙ ea in
      let zb : (rest + b * 7) % 10 ≡ 0 = ap (λ t. (rest + b * t) % 10) (sym e) ∙ eb in
      omega (arith, la, lb, za, zb)
  | inr (inr (inr e)) ↦
      let za : (rest + a * 9) % 10 ≡ 0 = ap (λ t. (rest + a * t) % 10) (sym e) ∙ ea in
      let zb : (rest + b * 9) % 10 ≡ 0 = ap (λ t. (rest + b * t) % 10) (sym e) ∙ eb in
      omega (arith, la, lb, za, zb)
]

-- Of two SEDOLs that differ in one digit, `validate_sedol` takes one at most.
pub sedol_one_digit :
    (v w pre : Bytes) (a b : ℕ) (post : Bytes)
    → is_digit a ≡ true
    → is_digit b ≡ true
    → a ≢ b
    → validate_sedol v ≡ Validated.valid (pre ++ a ∷ post)
    → validate_sedol w ≢ Validated.valid (pre ++ b ∷ post)
unfolding validate_sedol sedol_sums
sedol_one_digit v w pre a b post da db differ va vb =
    let (e, f, sa) =
      checked-valid (matches sedol_pattern) sedol_sums (code_of v) (pre ++ a ∷ post) va in
    let (e', f', sb) =
      checked-valid (matches sedol_pattern) sedol_sums (code_of w) (pre ++ b ∷ post) vb in
    let rest = beside pre post sedol_weights in
    let weight = weight_at pre sedol_weights in
    let za : (rest + (a - b'0') * weight) % 10 ≡ 0 =
      ap (λ t. (rest + t * weight) % 10) (sym (char_value_digit a da))
      ∙ ap (λ t. t % 10) (sym (weighted-append pre a post sedol_weights))
      ∙ (==_iff _ 0).0 sa in
    let zb : (rest + (b - b'0') * weight) % 10 ≡ 0 =
      ap (λ t. (rest + t * weight) % 10) (sym (char_value_digit b db))
      ∙ ap (λ t. t % 10) (sym (weighted-append pre b post sedol_weights))
      ∙ (==_iff _ 0).0 sb in
    let ra : (b'0' ≤ a) × (a ≤ b'9') = ground (arith, da) in
    let rb : (b'0' ≤ b) × (b ≤ b'9') = ground (arith, db) in
    let unit = weight_is_unit sedol_pattern sedol_weights pre a post refl refl f in
    let same =
      unit_distinct weight rest (a - b'0') (b - b'0') unit (omega (arith, ra)) (omega (arith, rb))
        za zb in
    differ (omega (arith, ra, rb, same))
