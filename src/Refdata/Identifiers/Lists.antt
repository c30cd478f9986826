-- ===== src/Refdata/Identifiers/Lists.antt =====
-- src/ismet/refdata/identifiers.py: lists that are reversed, and sums over them.
use ismet.Prelude.{
  ℕ, ◌+◌, Bool, not, List, [], ◌∷◌, ◌++◌, append-nil, append_assoc, ◌≡◌, refl, sym, ap, ◌∙◌, arith,
}
use ismet.Refdata.Identifiers.{reverse, doubled, term}

pub reverse-append : (xs ys : List ℕ) → reverse (xs ++ ys) ≡ reverse ys ++ reverse xs
unfolding reverse
reverse-append [] ys = sym (append-nil (reverse ys))
reverse-append (x ∷ xs) ys =
    ap (λ t. t ++ x ∷ []) (reverse-append xs ys) ∙ append_assoc (reverse ys) (reverse xs) (x ∷ [])

pub reverse-reverse : (xs : List ℕ) → reverse (reverse xs) ≡ xs
unfolding reverse
reverse-reverse [] = refl
reverse-reverse (x ∷ xs) =
    reverse-append (reverse xs) (x ∷ []) ∙ ap (λ t. x ∷ t) (reverse-reverse xs)

-- Whether the index after `xs` is odd.
abbrev pub odd_after : Bool → List ℕ → Bool
odd_after odd [] = odd
odd_after odd (x ∷ xs) = odd_after (not odd) xs

-- What the numbers around one position add to the sum.
abbrev pub around : Bool → List ℕ → List ℕ → ℕ
around odd [] ys = doubled (not odd) ys
around odd (x ∷ xs) ys = term odd x + around (not odd) xs ys

pub doubled-append :
    (odd : Bool) (xs : List ℕ) (y : ℕ) (ys : List ℕ)
    → doubled odd (xs ++ y ∷ ys) ≡ around odd xs ys + term (odd_after odd xs) y
unfolding doubled
doubled-append odd [] y ys = omega arith
doubled-append odd (x ∷ xs) y ys = rw (doubled-append (not odd) xs y ys) (omega arith)
