-- ===== src/Fix/Stream/Longer.antt =====
-- src/ismet/fix/message.py: what `_scan_frame` makes of a buffer to which more bytes come.
use ismet.Prelude.{
  ℕ, zero, suc, ◌+◌, ◌-◌, ◌≤◌, ◌<◌, true, false, not, ◌&&◌, none, some, [], ◌∷◌, ◌++◌, ◌==◌, length,
  ◌≡◌, refl, ap, ◌∙◌, inl, inr, arith, Bool-cases,
}
use ismet.Fix.Bytes.{Bytes, take, drop, holds_at, find, starts_with, isdigit, is_empty}
use ismet.Fix.Bytes.Laws.{length-drop, all_digits-append, take-append}

pub take_within : (n : ℕ) (xs ys : Bytes) → n ≤ length xs → take n (xs ++ ys) ≡ take n xs
unfolding take
take_within zero xs ys h = refl
take_within (suc n) [] ys h = absurd (omega (arith, h))
take_within (suc n) (x ∷ xs) ys h = ap (λ t. x ∷ t) (take_within n xs ys (omega (arith, h)))

pub drop_within : (n : ℕ) (xs ys : Bytes) → n ≤ length xs → drop n (xs ++ ys) ≡ drop n xs ++ ys
unfolding drop
drop_within zero xs ys h = refl
drop_within (suc n) [] ys h = absurd (omega (arith, h))
drop_within (suc n) (x ∷ xs) ys h = drop_within n xs ys (omega (arith, h))

pub slice_within :
    (n k : ℕ) (xs ys : Bytes) → n + k ≤ length xs → take k (drop n (xs ++ ys)) ≡ take k (drop n xs)
slice_within n k xs ys h =
    ap (take k) (drop_within n xs ys (omega (arith, h)))
    ∙ take_within k (drop n xs) ys (omega (arith, h, length-drop n xs))

pub holds_within :
    (n b : ℕ) (xs ys : Bytes) → n < length xs → holds_at n b (xs ++ ys) ≡ holds_at n b xs
unfolding holds_at
holds_within n b [] ys h = absurd (omega (arith, h))
holds_within zero b (x ∷ xs) ys h = refl
holds_within (suc n) b (x ∷ xs) ys h = holds_within n b xs ys (omega (arith, h))

pub starts_within :
    (xs ys p : Bytes) → length p ≤ length xs → starts_with (xs ++ ys) p ≡ starts_with xs p
unfolding starts_with
starts_within xs ys [] h = refl
starts_within [] ys (q ∷ p) h = absurd (omega (arith, h))
starts_within (x ∷ xs) ys (q ∷ p) h =
    ap (λ t. x == q && t) (starts_within xs ys p (omega (arith, h)))

-- A slice that differs from a prefix still does when it gets longer.
differs_take :
    (k : ℕ) (p xs ys : Bytes)
    → starts_with p (take k xs) ≡ false
    → starts_with p (take k (xs ++ ys)) ≡ false
unfolding starts_with take
differs_take zero p xs ys h = h
differs_take (suc k) p [] ys h = absurd (ground (arith, h))
differs_take (suc k) [] (x ∷ xs) ys h = refl
differs_take (suc k) (q ∷ p) (x ∷ xs) ys h = ground (arith, h, differs_take k p xs ys)

take_nil : (k : ℕ) → take {A = ℕ} k [] ≡ []
unfolding take
take_nil zero = refl
take_nil (suc k) = refl

pub differs_slice :
    (n k : ℕ) (p xs ys : Bytes)
    → starts_with p (take k (drop n xs)) ≡ false
    → starts_with p (take k (drop n (xs ++ ys))) ≡ false
unfolding drop starts_with
differs_slice zero k p xs ys h = differs_take k p xs ys h
differs_slice (suc n) k p [] ys h = absurd (ground (arith, h, take_nil k))
differs_slice (suc n) k p (x ∷ xs) ys h = differs_slice n k p xs ys h

pub find_within :
    (b n k : ℕ) (xs ys : Bytes)
    → find b (take n xs) ≡ some k
    → (find b (take n (xs ++ ys)) ≡ some k) × (k < length xs)
unfolding find take
find_within b zero k xs ys h = absurd (ground (arith, h))
find_within b (suc n) k [] ys h = absurd (ground (arith, h))
find_within b (suc n) zero (x ∷ xs) ys h = elim (Bool-cases (x == b)) [
  | inl e ↦ rw (e) (refl, omega arith)
  | inr e ↦ absurd (ground (arith, e, h))
]
find_within b (suc n) (suc k) (x ∷ xs) ys h = ground (arith, h, find_within b n k xs ys)

-- A byte that is not within the first bytes is found after them.
pub find_late :
    (b n k : ℕ) (xs ys : Bytes)
    → length xs ≤ n
    → find b (take n xs) ≡ none
    → find b (take n (xs ++ ys)) ≡ some k
    → length xs ≤ k
unfolding find take
find_late b n k [] ys le h found_ = omega arith
find_late b zero k (x ∷ xs) ys le h found_ = absurd (omega (arith, le))
find_late b (suc n) zero (x ∷ xs) ys le h found_ = elim (Bool-cases (x == b)) [
  | inl e ↦ absurd (ground (arith, e, h))
  | inr e ↦ absurd (ground (arith, e, found_))
]
find_late b (suc n) (suc k) (x ∷ xs) ys le h found_ =
    ground (arith, h, found_, le, find_late b n k xs ys)

pub isdigit_longer :
    (xs ys : Bytes)
    → not (isdigit xs) && not (is_empty xs) ≡ true
    → (isdigit (xs ++ ys) ≡ false) × (is_empty (xs ++ ys) ≡ false)
isdigit_longer [] ys h = absurd (ground (arith, h))
isdigit_longer (d ∷ ds) ys h = (ground (arith, h, all_digits-append ds ys), refl)

pub take_past :
    (n : ℕ) (xs ys : Bytes) → length xs ≤ n → take n (xs ++ ys) ≡ xs ++ take (n - length xs) ys
take_past n xs ys h =
    let all : n ≡ length xs + (n - length xs) = omega (arith, h) in
    ap (λ k. take k (xs ++ ys)) all ∙ take-append xs ys (n - length xs)
