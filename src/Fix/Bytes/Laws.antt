-- ===== src/Fix/Bytes/Laws.antt =====
-- Laws of the byte operations: cutting at a known place, and decimal print and read.
use ismet.Prelude.{
  ℕ, zero, suc, ◌+◌, ◌-◌, ◌*◌, ◌/◌, ◌%◌, ◌≤◌, ◌<◌, true, false, ◌&&◌, some, List, [], ◌∷◌, ◌++◌,
  ltb, ◌≡◌, refl, sym, ap, ◌∙◌, inl, inr, arith, Bool-cases, length, length-append, elem,
}
use ismet.Fix.Bytes.{
  Bytes, take, drop, find, holds_at, starts_with, is_digit, all_digits, read_from, read, digits_on,
  digits, sum,
}

module _ {ℓ} {A : Type ℓ} where
  pub take-length : (xs ys : List A) → take (length xs) (xs ++ ys) ≡ xs
  unfolding take
  take-length [] ys = refl
  take-length (x ∷ xs) ys = ap (λ t. x ∷ t) (take-length xs ys)

  pub drop-length : (xs ys : List A) → drop (length xs) (xs ++ ys) ≡ ys
  unfolding drop
  drop-length [] ys = refl
  drop-length (x ∷ xs) ys = drop-length xs ys

  pub drop-suc : (b : A) (xs ys : List A) → drop (suc (length xs)) (xs ++ b ∷ ys) ≡ ys
  unfolding drop
  drop-suc b [] ys = refl
  drop-suc b (x ∷ xs) ys = drop-suc b xs ys

  pub take-append : (xs ys : List A) (k : ℕ) → take (length xs + k) (xs ++ ys) ≡ xs ++ take k ys
  unfolding take
  take-append [] ys k = ap (λ j. take j ys) (omega arith)
  take-append (x ∷ xs) ys k =
      let shift : suc (length xs) + k ≡ suc (length xs + k) = omega arith in
      rw (shift) (ap (λ t. x ∷ t) (take-append xs ys k))

  drop_nil : (n : ℕ) → drop {A = A} n [] ≡ []
  unfolding drop
  drop_nil zero = refl
  drop_nil (suc n) = refl

  pub drop-drop : (n m : ℕ) (xs : List A) → drop (n + m) xs ≡ drop m (drop n xs)
  unfolding drop
  drop-drop zero m xs = ap (λ k. drop k xs) (omega arith)
  drop-drop (suc n) m [] = drop_nil (suc n + m) ∙ sym (drop_nil m)
  drop-drop (suc n) m (x ∷ xs) =
      let shift : suc n + m ≡ suc (n + m) = omega arith in rw (shift) (drop-drop n m xs)

  pub take_all : (n : ℕ) (xs : List A) → length xs ≤ n → take n xs ≡ xs
  unfolding take
  take_all zero [] h = refl
  take_all (suc n) [] h = refl
  take_all zero (x ∷ xs) h = absurd (omega (arith, h))
  take_all (suc n) (x ∷ xs) h = ap (λ t. x ∷ t) (take_all n xs (omega (arith, h)))

  pub length-take : (n : ℕ) (xs : List A) → length (take n xs) ≤ n
  unfolding take
  length-take zero xs = omega arith
  length-take (suc n) [] = omega arith
  length-take (suc n) (x ∷ xs) = omega (arith, length-take n xs)

  pub take_below : (n : ℕ) (xs : List A) → length (take n xs) < n → length xs < n
  unfolding take
  take_below zero xs h = absurd (omega (arith, h))
  take_below (suc n) [] h = omega arith
  take_below (suc n) (x ∷ xs) h = omega (arith, take_below n xs (omega (arith, h)))

  pub take_at_most : (n : ℕ) (xs : List A) → length (take n xs) ≤ length xs
  unfolding take
  take_at_most zero xs = omega arith
  take_at_most (suc n) [] = omega arith
  take_at_most (suc n) (x ∷ xs) = omega (arith, take_at_most n xs)

  pub length-drop : (n : ℕ) (xs : List A) → length (drop n xs) ≡ length xs - n
  unfolding drop
  length-drop zero xs = omega arith
  length-drop (suc n) [] = omega arith
  length-drop (suc n) (x ∷ xs) = omega (arith, length-drop n xs)

pub find-append :
    (b : ℕ) (xs ys : Bytes) → elem b xs ≡ false → find b (xs ++ b ∷ ys) ≡ some (length xs)
unfolding find
find-append b [] ys h = ground arith
find-append b (x ∷ xs) ys h = ground (arith, find-append b xs ys)

-- The same within the first `n` bytes.
pub find-take :
    (b n : ℕ) (xs ys : Bytes)
    → elem b xs ≡ false
    → length xs < n
    → find b (take n (xs ++ b ∷ ys)) ≡ some (length xs)
unfolding find take
find-take b zero xs ys h l = absurd (omega (arith, l))
find-take b (suc n) [] ys h l = ground arith
find-take b (suc n) (x ∷ xs) ys h l = ground (arith, find-take b n xs ys)

pub holds_at-drop : (n k b : ℕ) (xs : Bytes) → holds_at (n + k) b xs ≡ holds_at k b (drop n xs)
unfolding holds_at drop
holds_at-drop zero k b xs = ap (λ j. holds_at j b xs) (omega arith)
holds_at-drop (suc n) k b [] = refl
holds_at-drop (suc n) k b (x ∷ xs) =
    let shift : suc n + k ≡ suc (n + k) = omega arith in rw (shift) (holds_at-drop n k b xs)

pub holds_at-append : (b : ℕ) (xs ys : Bytes) → holds_at (length xs) b (xs ++ b ∷ ys) ≡ true
unfolding holds_at
holds_at-append b [] ys = ground arith
holds_at-append b (x ∷ xs) ys = holds_at-append b xs ys

pub starts_with-append : (ps ys : Bytes) → starts_with (ps ++ ys) ps ≡ true
unfolding starts_with
starts_with-append [] ys = refl
starts_with-append (p ∷ ps) ys = ground (arith, starts_with-append ps ys)

pub all_digits-append : (xs ys : Bytes) → all_digits (xs ++ ys) ≡ all_digits xs && all_digits ys
all_digits-append [] ys = refl
all_digits-append (x ∷ xs) ys = ground (arith, all_digits-append xs ys)

pub elem-all_digits :
    (b : ℕ) (xs : Bytes) → is_digit b ≡ false → all_digits xs ≡ true → elem b xs ≡ false
elem-all_digits b [] low h = refl
elem-all_digits b (x ∷ xs) low h = ground (arith, elem-all_digits b xs low)

pub read_from-append :
    (acc d : ℕ) (xs : Bytes) → read_from acc (xs ++ d ∷ []) ≡ read_from acc xs * 10 + (d - b'0')
unfolding read_from
read_from-append acc d [] = refl
read_from-append acc d (x ∷ xs) = read_from-append (acc * 10 + (x - b'0')) d xs

pub sum-append : (xs ys : Bytes) → sum (xs ++ ys) ≡ sum xs + sum ys
unfolding sum
sum-append [] ys = omega arith
sum-append (x ∷ xs) ys = omega (arith, sum-append xs ys)

read-digits_on : (fuel n : ℕ) → n ≤ fuel → read (digits_on fuel n) ≡ n
unfolding digits_on read_from
read-digits_on zero n h = omega (arith, h)
read-digits_on (suc fuel) n h = elim (Bool-cases (ltb n 10)) [
  | inl e ↦ rw (e, digits_on) (ground arith)
  | inr e ↦
      rw (e, digits_on, read_from-append 0 (b'0' + n % 10) (digits_on fuel (n / 10)))
        (ground (arith, read-digits_on fuel (n / 10)))
]

-- `int(str(n))` is `n`.
pub read-digits : (n : ℕ) → read (digits n) ≡ n
unfolding digits
read-digits n = read-digits_on n n (omega arith)

all_digits-digits_on : (fuel n : ℕ) → n ≤ fuel → all_digits (digits_on fuel n) ≡ true
unfolding digits_on
all_digits-digits_on zero n h = ground arith
all_digits-digits_on (suc fuel) n h = elim (Bool-cases (ltb n 10)) [
  | inl e ↦ rw (e, digits_on) (ground arith)
  | inr e ↦
      rw (e, digits_on, all_digits-append (digits_on fuel (n / 10)) ((b'0' + n % 10) ∷ []))
        (ground (arith, all_digits-digits_on fuel (n / 10)))
]

pub all_digits-digits : (n : ℕ) → all_digits (digits n) ≡ true
unfolding digits
all_digits-digits n = all_digits-digits_on n n (omega arith)

leading-digits_on :
    (fuel n : ℕ)
    → n ≤ fuel
    → (d : ℕ) × (ds : Bytes) × (digits_on fuel n ≡ d ∷ ds) × (0 < n → b'0' < d)
unfolding digits_on
leading-digits_on zero n h = (b'0' + n % 10, [], refl, λ p. absurd (omega (arith, h, p)))
leading-digits_on (suc fuel) n h = elim (Bool-cases (ltb n 10)) [
  | inl e ↦ rw (e, digits_on) (b'0' + n, [], refl, λ p. omega (arith, p))
  | inr e ↦
      let (d, ds, same, big) = leading-digits_on fuel (n / 10) (ground (arith, e)) in
      rw (e, digits_on, same) (d, ds ++ ((b'0' + n % 10) ∷ []), refl, λ p. big (ground (arith, e)))
]

leading_length : (fuel n : ℕ) → n ≤ fuel → 1 ≤ length (digits_on fuel n)
leading_length fuel n h =
    let (d, ds, same, big) = leading-digits_on fuel n h in rw (same) (omega arith)

not_below : (n m : ℕ) → ltb n 10 ≡ false → n ≤ m → ltb m 10 ≡ false
not_below n m e l = ground arith

length-digits_on :
    (fuel more n m : ℕ)
    → n ≤ fuel
    → m ≤ more
    → n ≤ m
    → length (digits_on fuel n) ≤ length (digits_on more m)
unfolding digits_on
length-digits_on zero zero n m h k l = omega arith
length-digits_on zero (suc more) n m h k l = elim (Bool-cases (ltb m 10)) [
  | inl e ↦ rw (e, digits_on) (omega arith)
  | inr e ↦
      rw (e, digits_on, length-append (digits_on more (m / 10)) ((b'0' + m % 10) ∷ []))
        (omega arith)
]
length-digits_on (suc fuel) zero n m h k l = elim (Bool-cases (ltb n 10)) [
  | inl e ↦ rw (e, digits_on) (omega arith)
  | inr e ↦ ground (arith, e)
]
length-digits_on (suc fuel) (suc more) n m h k l = elim (Bool-cases (ltb n 10)) [
  | inl e ↦ rw (e, digits_on) (ground (arith, leading_length (suc more) m k))
  | inr e ↦
      rw
        (
          e,
          digits_on,
          not_below n m e l,
          length-append (digits_on fuel (n / 10)) ((b'0' + n % 10) ∷ []),
          length-append (digits_on more (m / 10)) ((b'0' + m % 10) ∷ []),
        )
        (ground (arith, length-digits_on fuel more (n / 10) (m / 10)))
]

-- A larger number has at least as many digits.
pub length-digits : (n m : ℕ) → n ≤ m → length (digits n) ≤ length (digits m)
unfolding digits
length-digits n m h = length-digits_on n m n m (omega arith) (omega arith) h

-- A number prints at least one digit, and a positive one no leading zero.
pub leading-digits : (n : ℕ) → (d : ℕ) × (ds : Bytes) × (digits n ≡ d ∷ ds) × (0 < n → b'0' < d)
unfolding digits
leading-digits n = leading-digits_on n n (omega arith)
