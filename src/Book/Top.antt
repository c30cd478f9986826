-- ===== src/Book/Top.antt =====
-- The rows that one side of a book shows (src/ismet/marketdata/book.py, `_Side.top`).
use mathlib.Core.Path.{subst}
use ismet.Prelude.{
  eqb_ℤ, eqb_iff, eqb_self, ◌||◌, ◌⊎◌, ap, length, Bool-cases, ℕ, Bool, true, false, Option, some,
  List, [], ◌∷◌, Decimal, pos, negate, ◌<ℤ◌, ◌≡◌, ◌∙◌, refl, sym, inl, inr, All, arith,
  Option-cases,
}
use ismet.Book.Side.{Levels, BookSide, Level, size_of, key_of, take_keys, levels_at, top}
use ismet.Book.Keys.{is_some, mem_key, IsSorted}
use ismet.Book.Taken.{
  IsWithin, All-take_keys, IsSorted-take_keys, IsWithin-take_keys, take_keys-IsCut,
}
use ismet.Book.SideLaws.{size_at, AllPositive, IsSide, key_of-key_of}

-- Whether `a` stands before `b`: a higher bid, or a lower ask.
abbrev pub Better : Bool → Decimal → Decimal → Type 0
Better true a b = b <ℤ a
Better false a b = a <ℤ b

abbrev pub BestFirst : Bool → List Level → Type 0
BestFirst d [] = Unit
BestFirst d (l ∷ ls) = All (λ (m : Level). Better d l.price m.price) ls × BestFirst d ls

-- A row shows the size that the side has at its price, and it is positive.
abbrev pub IsShown : BookSide → Level → Type 0
IsShown s l = (l.size ≡ size_at s l.price) × (pos 0 <ℤ l.size)

-- Whether a row has this price.
abbrev pub shows : Decimal → List Level → Bool
shows p [] = false
shows p (l ∷ ls) = eqb_ℤ l.price p || shows p ls

-- A price has no size, or a row shows it, or there are as many rows as were asked for and all
-- of them are better.
abbrev pub IsPlaced : BookSide → Option ℕ → List Level → Decimal → Type 0
IsPlaced s depth rows p =
    (size_at s p ≡ pos 0)
    ⊎ ((shows p rows ≡ true)
        ⊎ ((depth ≡ some (length rows)) × All (λ (m : Level). Better s.descending m.price p) rows))

key_of-Better : (d : Bool) (a b : Decimal) → a <ℤ b → Better d (key_of d a) (key_of d b)
unfolding key_of negate
key_of-Better true a b h = ground arith
key_of-Better false a b h = h

-- A key whose price the dict lists.
abbrev IsListed : Bool → Levels → Decimal → Type 0
IsListed d ls k = is_some (size_of (key_of d k) ls) ≡ true

mem_key-IsListed :
    (d : Bool) (ls : Levels) (ks : List Decimal)
    → ((k : Decimal) → mem_key k ks ≡ true → IsListed d ls k)
    → All (IsListed d ls) ks
unfolding mem_key
mem_key-IsListed d ls [] h = tt
mem_key-IsListed d ls (k ∷ ks) h =
    (h k (ground arith), mem_key-IsListed d ls ks (λ j m. h j (ground arith)))

size_of_positive :
    (p z : Decimal) (ls : Levels) → AllPositive ls → size_of p ls ≡ some z → pos 0 <ℤ z
unfolding size_of
size_of_positive p z [] a h = cc
size_of_positive p z ((q, w) ∷ ls) a h = ground (arith, size_of_positive p z ls a.1)

-- What `levels_at` makes of sorted keys whose prices are listed.
abbrev Shown : BookSide → List Decimal → List Level → Type 0
Shown s ks rows =
    (levels_at s.descending s.levels ks ≡ some rows)
    × BestFirst s.descending rows
    × All (IsShown s) rows
    × ((k : Decimal)
        → All (λ j. k <ℤ j) ks
        → All (λ (m : Level). Better s.descending (key_of s.descending k) m.price) rows)
    × (length rows ≡ length ks)
    × ((k : Decimal) → mem_key k ks ≡ true → shows (key_of s.descending k) rows ≡ true)
    × ((k : Decimal)
        → All (λ j. j <ℤ k) ks
        → All (λ (m : Level). Better s.descending m.price (key_of s.descending k)) rows)

levels_at-cons :
    (d : Bool) (ls : Levels) (k : Decimal) (ks : List Decimal) {z : Decimal} {rows : List Level}
    → size_of (key_of d k) ls ≡ some z
    → levels_at d ls ks ≡ some rows
    → levels_at d ls (k ∷ ks) ≡ some (record { price = key_of d k; size = z } ∷ rows)
unfolding levels_at
levels_at-cons d ls k ks e e' = ground arith

shows_first :
    (d : Bool) (j k : Decimal) (rows : List Level) (ks : List Decimal)
    → eqb_ℤ j k || mem_key j ks ≡ true
    → (mem_key j ks ≡ true → shows (key_of d j) rows ≡ true)
    → eqb_ℤ (key_of d k) (key_of d j) || shows (key_of d j) rows ≡ true
shows_first d j k rows ks m kept = elim (Bool-cases (eqb_ℤ j k)) [
  | inl same ↦ rw ((eqb_iff j k).0 same, eqb_self (key_of d k)) refl
  | inr other ↦
      let later : mem_key j ks ≡ true = ground (arith, m, other) in
      let shown = kept later in ground (arith, shown)
]

module _ (s : BookSide) (i : IsSide s) where
  levels_at-Shown :
      (ks : List Decimal)
      → IsSorted ks
      → All (IsListed s.descending s.levels) ks
      → (rows : List Level) × Shown s ks rows
  unfolding levels_at mem_key
  levels_at-Shown [] so l = ([], (refl, tt, tt, λ k a. tt, refl, λ k m. m, λ k a. tt))
  levels_at-Shown (k ∷ ks) so l =
      let p = key_of s.descending k in
      elim (Option-cases (size_of p s.levels)) [
        | inl absent ↦ absurd (ground arith)
        | inr (z, e) ↦
            let (rows, facts) = levels_at-Shown ks so.1 l.1 in
            let (e', best, shown, above, counted, kept, below) = facts in
            let row : Level = record { price = p; size = z } in
            (
              row ∷ rows,
              (
                levels_at-cons s.descending s.levels k ks e e',
                (above k so.0, best),
                ((unfold size_at in rw e refl, size_of_positive p z s.levels i.positive e), shown),
                λ j a. (key_of-Better s.descending j k a.0, above j a.1),
                omega (arith, counted),
                λ j m. shows_first s.descending j k rows ks m (kept j),
                λ j a. (key_of-Better s.descending k j a.0, below j a.1),
              ),
            )
      ]

  -- Where a price stands, whose key is taken or cut off.
  placed_lem :
      (depth : Option ℕ) (rows : List Level) (p : Decimal)
      → Shown s (take_keys depth s.keys) rows
      → IsPlaced s depth rows p
  unfolding size_at
  placed_lem depth rows p facts = elim (Option-cases (size_of p s.levels)) [
    | inl absent ↦ inl (rw (absent) refl)
    | inr (z, e) ↦
        let k = key_of s.descending p in
        let same : key_of s.descending k ≡ p = key_of-key_of s.descending p in
        let listed : mem_key k s.keys ≡ true = i.keyed k ∙ rw (same, e) refl in
        let (e', best, shown, above, counted, kept, below) = facts in
        elim (take_keys-IsCut depth s.keys k i.sorted listed) [
          | inl taken ↦ inr (inl (ap (λ q. shows q rows) (sym same) ∙ kept k taken))
          | inr (full, under) ↦ inr (
              inr (
                full ∙ ap some (sym counted),
                subst (λ q. All (λ (m : Level). Better s.descending m.price q) rows) same
                    (below k under),
              ))
        ]
  ]

  -- The rows that a side in order shows: it raises no `KeyError`, its best price stands first and
  -- each next one is worse, each row has the size of its price, above zero, there are no more rows
  -- than were asked for, and every price with a size has a row, unless there are as many rows as
  -- were asked for and all of them are better.
  pub top_ordered :
      (depth : Option ℕ)
      → (rows : List Level) × (top s depth ≡ some rows)
        × BestFirst s.descending rows
        × All (IsShown s) rows
        × IsWithin depth (length rows)
        × ((p : Decimal) → IsPlaced s depth rows p)
  unfolding top
  top_ordered depth =
      let listed = mem_key-IsListed s.descending s.levels s.keys (λ k m. sym (i.keyed k) ∙ m) in
      let (rows, facts) =
        levels_at-Shown (take_keys depth s.keys) (IsSorted-take_keys depth s.keys i.sorted)
          (All-take_keys (IsListed s.descending s.levels) depth s.keys listed) in
      let (e, best, shown, above, counted, kept, below) = facts in
      (
        rows,
        e,
        best,
        shown,
        subst (IsWithin depth) (sym counted) (IsWithin-take_keys depth s.keys),
        λ p. placed_lem depth rows p facts,
      )
