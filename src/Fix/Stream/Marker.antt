-- ===== src/Fix/Stream/Marker.antt =====
-- src/ismet/fix/message.py: the search for a marker, when more bytes come.
use ismet.Prelude.{
  ℕ, suc, ◌-◌, ◌≤◌, Bool, true, false, ◌&&◌, none, some, [], ◌∷◌, ◌++◌, leb, ◌==◌, if◌then◌else◌,
  length, ◌≡◌, refl, sym, ap, ◌∙◌, inl, inr, arith, Bool-cases,
}
use ismet.Fix.Bytes.{Bytes, soh, drop, holds_at}
use ismet.Fix.Stream.{after_marker, kept}

-- `kept`, by the last two bytes.
abbrev last_two : Bytes → Bytes
last_two [] = []
last_two (a ∷ []) = if a == soh then a ∷ [] else []
last_two (a ∷ b ∷ []) =
    if b == soh then b ∷ [] else if a == soh && b == b'8' then a ∷ b ∷ [] else []
last_two (a ∷ b ∷ c ∷ r) = last_two (b ∷ c ∷ r)

kept_lem : (r : Bytes) → kept r ≡ last_two r
unfolding kept holds_at drop
kept_lem [] = refl
kept_lem (a ∷ []) = refl
kept_lem (a ∷ b ∷ []) = refl
kept_lem (a ∷ b ∷ c ∷ r) =
    let n = length r in
    let e1 : suc (suc (suc n)) - 1 ≡ suc (suc n) = omega arith in
    let e2 : suc (suc (suc n)) - 2 ≡ suc n = omega arith in
    let f1 : suc (suc n) - 1 ≡ suc n = omega arith in
    let f2 : suc (suc n) - 2 ≡ n = omega arith in
    let t1 : leb 2 (suc (suc (suc n))) ≡ true = ground arith in
    let t2 : leb 2 (suc (suc n)) ≡ true = ground arith in
    let same : kept (a ∷ b ∷ c ∷ r) ≡ kept (b ∷ c ∷ r) = rw (e1, e2, f1, f2, t1, t2) refl in
    same ∙ kept_lem (b ∷ c ∷ r)

-- Whether a marker starts before `xs`, whose delimiter is `a`.
abbrev marks : ℕ → Bytes → Bool
marks a xs = a == soh && holds_at 0 b'8' xs && holds_at 1 b'=' xs

kept_more : (r more : Bytes) → last_two (r ++ more) ≡ last_two (last_two r ++ more)
kept_more [] more = refl
kept_more (a ∷ []) [] = ground arith
kept_more (a ∷ []) (c ∷ []) = ground arith
kept_more (a ∷ []) (c ∷ d ∷ more) = ground arith
kept_more (a ∷ b ∷ []) [] = ground arith
kept_more (a ∷ b ∷ []) (c ∷ []) = ground arith
kept_more (a ∷ b ∷ []) (c ∷ d ∷ more) = ground arith
kept_more (a ∷ b ∷ c ∷ r) more = kept_more (b ∷ c ∷ r) more

pub kept_again : (r more : Bytes) → kept (r ++ more) ≡ kept (kept r ++ more)
kept_again r more =
    kept_lem (r ++ more)
    ∙ kept_more r more
    ∙ ap (λ k. last_two (k ++ more)) (sym (kept_lem r))
    ∙ sym (kept_lem (kept r ++ more))

marks_more : (a : ℕ) (xs more : Bytes) → 2 ≤ length xs → marks a (xs ++ more) ≡ marks a xs
unfolding holds_at
marks_more a [] more h = absurd (omega (arith, h))
marks_more a (b ∷ []) more h = absurd (omega (arith, h))
marks_more a (b ∷ c ∷ r) more h = refl

marks_size : (a : ℕ) (xs : Bytes) → marks a xs ≡ true → 2 ≤ length xs
unfolding holds_at
marks_size a [] h = absurd (ground (arith, h))
marks_size a (b ∷ []) h = absurd (ground (arith, h))
marks_size a (b ∷ c ∷ r) h = omega arith

after_marked : (a : ℕ) (xs : Bytes) → marks a xs ≡ true → after_marker (a ∷ xs) ≡ some xs
unfolding after_marker
after_marked a xs h = rw (h) refl

after_unmarked : (a : ℕ) (xs : Bytes) → marks a xs ≡ false → after_marker (a ∷ xs) ≡ after_marker xs
unfolding after_marker
after_unmarked a xs h = rw (h) refl

some_injective : (x y : Bytes) → some x ≡ some y → x ≡ y
some_injective x y h = ground (arith, h)

-- Without a marker so far, only what is kept can start one.
after_more :
    (r more : Bytes)
    → after_marker r ≡ none
    → after_marker (r ++ more) ≡ after_marker (last_two r ++ more)
unfolding holds_at
after_more [] more h = refl
after_more (a ∷ []) more h = elim (Bool-cases (a == soh)) [
  | inl e ↦ rw (e) refl
  | inr e ↦ rw (e) (after_unmarked a more (ground (arith, e)))
]
after_more (a ∷ b ∷ []) more h = elim (Bool-cases (b == soh)) [
  | inl e ↦ rw (e) (after_unmarked a (b ∷ more) (ground (arith, e)))
  | inr e ↦ elim (Bool-cases (a == soh && b == b'8')) [
    | inl f ↦ rw (e, f) refl
    | inr f ↦
        rw (e, f)
          (after_unmarked a (b ∷ more) (ground (arith, f))
            ∙ after_unmarked b more (ground (arith, e)))
  ]
]
after_more (a ∷ b ∷ c ∷ r) more h = elim (Bool-cases (marks a (b ∷ c ∷ r))) [
  | inl e ↦ absurd (ground (arith, sym h ∙ after_marked a (b ∷ c ∷ r) e))
  | inr e ↦
      after_unmarked a (b ∷ c ∷ (r ++ more)) e
      ∙ after_more (b ∷ c ∷ r) more (sym (after_unmarked a (b ∷ c ∷ r) e) ∙ h)
]

-- It starts with `8=`, so the bytes are three at least.
pub from_size : (r from : Bytes) → after_marker r ≡ some from → (2 ≤ length from) × (3 ≤ length r)
unfolding after_marker
from_size [] from h = absurd (ground (arith, h))
from_size (a ∷ r) from h = elim (Bool-cases (marks a r)) [
  | inl e ↦
      let size = marks_size a r e in
      let same : r ≡ from = some_injective r from (sym (after_marked a r e) ∙ h) in
      (omega (arith, size, ap length same), omega (arith, size))
  | inr e ↦
      let (front, long) = from_size r from (sym (after_unmarked a r e) ∙ h) in
      (front, omega (arith, long))
]

-- A marker that is found stays the first.
pub after_found :
    (r more from : Bytes)
    → after_marker r ≡ some from
    → after_marker (r ++ more) ≡ some (from ++ more)
unfolding after_marker
after_found [] more from h = absurd (ground (arith, h))
after_found (a ∷ r) more from h = elim (Bool-cases (marks a r)) [
  | inl e ↦
      after_marked a (r ++ more) (marks_more a r more (marks_size a r e) ∙ e)
      ∙ ap (λ t. some (t ++ more)) (some_injective r from (sym (after_marked a r e) ∙ h))
  | inr e ↦
      let later = sym (after_unmarked a r e) ∙ h in
      let (front, long) = from_size r from later in
      after_unmarked a (r ++ more) (marks_more a r more (omega (arith, long)) ∙ e)
      ∙ after_found r more from later
]

-- Without a marker, the search goes on from what is kept.
pub after_kept :
    (r more : Bytes)
    → after_marker r ≡ none
    → after_marker (r ++ more) ≡ after_marker (kept r ++ more)
after_kept r more h = after_more r more h ∙ ap (λ k. after_marker (k ++ more)) (sym (kept_lem r))
