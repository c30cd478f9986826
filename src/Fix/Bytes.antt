-- ===== src/Fix/Bytes.antt =====
-- What src/ismet/fix/message.py uses of Python's `bytes`: slices, `find`, `startswith`, `isdigit`,
-- and numbers printed and read in decimal.
use ismet.Prelude.{
  ℕ, zero, suc, ◌+◌, ◌-◌, ◌*◌, ◌/◌, ◌%◌, Bool, true, false, ◌&&◌, Option, none, some, List, [], ◌∷◌,
  ◌++◌, ltb, leb, ◌==◌, if◌then◌else◌,
}
pub mod Laws

abbrev pub Bytes : Type 0
Bytes = List ℕ

abbrev pub soh : ℕ
soh = 1

abbrev pub equals_sign : ℕ
equals_sign = b'='

module _ {ℓ} {A : Type ℓ} where
  -- `xs[:n]`
  unfoldable pub take : ℕ → List A → List A
  take zero xs = []
  take (suc n) [] = []
  take (suc n) (x ∷ xs) = x ∷ take n xs

  -- `xs[n:]`
  unfoldable pub drop : ℕ → List A → List A
  drop zero xs = xs
  drop (suc n) [] = []
  drop (suc n) (x ∷ xs) = drop n xs

  abbrev pub is_empty : List A → Bool
  is_empty [] = true
  is_empty (x ∷ xs) = false

-- `xs.find(b)`; `none` is its -1.
unfoldable pub find : ℕ → Bytes → Option ℕ
find b [] = none
find b (x ∷ xs) =
    if x == b then some 0 else elim (find b xs) [ none ↦ none | some n ↦ some (suc n) ]

-- Whether `xs[n]` exists and is `b`.
unfoldable pub holds_at : ℕ → ℕ → Bytes → Bool
holds_at n b [] = false
holds_at zero b (x ∷ xs) = x == b
holds_at (suc n) b (x ∷ xs) = holds_at n b xs

-- `xs.startswith(prefix)`, also `xs == prefix` where both have one length.
unfoldable pub starts_with : Bytes → Bytes → Bool
starts_with xs [] = true
starts_with [] (p ∷ ps) = false
starts_with (x ∷ xs) (p ∷ ps) = x == p && starts_with xs ps

abbrev pub is_digit : ℕ → Bool
is_digit d = leb b'0' d && leb d b'9'

abbrev pub all_digits : Bytes → Bool
all_digits [] = true
all_digits (d ∷ ds) = is_digit d && all_digits ds

-- `xs.isdigit()` of bytes
abbrev pub isdigit : Bytes → Bool
isdigit [] = false
isdigit (d ∷ ds) = is_digit d && all_digits ds

-- `int(ds)` of decimal digits, the digits before them read as `acc`.
unfoldable pub read_from : ℕ → Bytes → ℕ
read_from acc [] = acc
read_from acc (d ∷ ds) = read_from (acc * 10 + (d - b'0')) ds

abbrev pub read : Bytes → ℕ
read = read_from 0

-- `str(n)`: all its digits when the fuel is at least `n`.
unfoldable pub digits_on : ℕ → ℕ → Bytes
digits_on zero n = (b'0' + n % 10) ∷ []
digits_on (suc fuel) n = elim (ltb n 10) [
  | true ↦ (b'0' + n) ∷ []
  | false ↦ digits_on fuel (n / 10) ++ ((b'0' + n % 10) ∷ [])
]

unfoldable pub digits : ℕ → Bytes
digits n = digits_on n n

-- `f"{n:03d}"` of a number below 1000
abbrev pub three_digits : ℕ → Bytes
three_digits n = (b'0' + n / 100) ∷ (b'0' + n / 10 % 10) ∷ (b'0' + n % 10) ∷ []

-- `sum(frame)`
unfoldable pub sum : Bytes → ℕ
sum [] = 0
sum (x ∷ xs) = x + sum xs
