-- ===== src/Book/Feed.antt =====
-- A venue's feed of updates of one level each, and what one of them does to a true book
-- (src/ismet/marketdata/book.py).
use ismet.Prelude.{
  ℕ, suc, ◌-◌, ◌+◌, ◌<◌, Bool, true, false, not, ◌&&◌, Option, none, some, List, [], ◌∷◌, Decimal,
  pos, eqb_ℤ, length, ltb, leb, ◌≤ℤ◌, ◌≡◌, ◌∙◌, refl, sym, ap, inl, inr, ◌⊎◌, All, All-append,
  arith, Bool-cases, if◌then◌else◌,
}
use mathlib.Core.Path.{subst}
use ismet.Models.Orders.{OrderSide, buy, sell, side_eq}
use ismet.Book.Side.{BookSide, empty_side}
use ismet.Book.SideLaws.{IsSide, size_at, size_at-set, set-IsSide}
use ismet.Book.Builder.{
  BookDelta, BookBuilder, push_delta, buffer_delta, set_sides, start, same_batch, Rows, set_rows,
}

-- A venue's instrument: its updates, one level each and numbered one by one, and the true size at
-- each price once they are all applied up to a number.
pub record Venue : Type 0 where
  pub update : ℕ → BookDelta
  pub truth : ℕ → OrderSide → Decimal → Decimal

-- The updates carry their numbers, cover only themselves and are not negative, and each takes the
-- true book one step on: its own level gets its size and every other level stays.
pub record IsVenue (v : Venue) : Type 0 where
  pub numbered : (n : ℕ) → (v.update n).sequence ≡ n
  pub single : (n : ℕ) → (v.update n).first_sequence ≡ none
  pub nonneg : (n : ℕ) → pos 0 ≤ℤ (v.update n).size
  pub steps :
      (n : ℕ) (side : OrderSide) (p : Decimal)
      → v.truth (suc n) side p ≡ (
          if side_eq (v.update (suc n)).side side && eqb_ℤ (v.update (suc n)).price p
          then (v.update (suc n)).size
          else v.truth n side p)

abbrev pub side_of : BookSide → BookSide → OrderSide → BookSide
side_of bids asks buy = bids
side_of bids asks sell = asks

module _ (v : Venue) where
  -- A delta that the venue sent.
  abbrev pub IsGenuine : BookDelta → Type 0
  IsGenuine d = d ≡ v.update d.sequence

  -- Both sides hold the true book at `n`.
  abbrev pub IsTrueAt : BookSide → BookSide → ℕ → Type 0
  IsTrueAt bids asks n =
      (side : OrderSide) (p : Decimal) → size_at (side_of bids asks side) p ≡ v.truth n side p

  -- Rows that make up the true book at a number.
  abbrev pub IsTrueSnapshot : ℕ → Rows → Rows → Type 0
  IsTrueSnapshot n bids asks =
      IsTrueAt (set_rows (empty_side true) bids) (set_rows (empty_side false) asks) n

  -- The batch that was applied last ends at the last number.
  abbrev pub BatchAt : Option (ℕ × ℕ) → ℕ → Type 0
  BatchAt none n = Unit
  BatchAt (some (a, c)) n = (a ≡ c) × (c ≡ n) × (0 < n)

  -- A book in sync has a last number, and holds the true book at it.
  abbrev pub InSync : Bool → Option ℕ → Option (ℕ × ℕ) → BookSide → BookSide → Type 0
  InSync false last batch bids asks = Unit
  InSync true none batch bids asks = ⊥
  InSync true (some n) batch bids asks = IsTrueAt bids asks n × BatchAt batch n

  -- The invariant: the sides are in order, the buffer holds what the venue sent, and the book, if
  -- it is in sync, is true.
  pub record IsSound (b : BookBuilder) : Type 0 where
    pub bids_in_order : IsSide b.bids
    pub asks_in_order : IsSide b.asks
    pub buffered : All IsGenuine b.buffer
    pub synced_true : InSync b.synced b.last b.batch b.bids b.asks

push_delta-All :
    (P : BookDelta → Type 0) (bound : ℕ) (xs : List BookDelta) (d : BookDelta) (dropped : Option ℕ)
    → All P xs
    → P d
    → All P (push_delta bound xs d dropped).0
unfolding push_delta
push_delta-All P bound [] d dropped a h = (h, tt)
push_delta-All P bound (x ∷ xs) d dropped a h = elim (Bool-cases (leb bound (length (x ∷ xs)))) [
  | inl full ↦ rw full (All-append P xs (d ∷ []) a.1 (h, tt))
  | inr room ↦ rw room (a.0, All-append P xs (d ∷ []) a.1 (h, tt))
]

module _ (v : Venue) (w : IsVenue v) where
  -- A book out of sync that stores a genuine delta stays sound.
  pub buffer_delta-IsSound :
      (b : BookBuilder) (d : BookDelta)
      → IsSide b.bids
      → IsSide b.asks
      → All (IsGenuine v) b.buffer
      → b.synced ≡ false
      → IsGenuine v d
      → IsSound v (buffer_delta b d)
  unfolding buffer_delta
  buffer_delta-IsSound b d bi ai bu out g = record {
    bids_in_order = bi;
    asks_in_order = ai;
    buffered = push_delta-All (IsGenuine v) b.max_buffered b.buffer d b.dropped_through bu g;
    synced_true = rw out tt;
  }

  -- What the venue's law says of the size at one level, once its update `suc n` is applied.
  truth_own :
      (n : ℕ) (side : OrderSide) (p : Decimal) (d : BookDelta)
      → d ≡ v.update (suc n)
      → v.truth (suc n) side p
        ≡ (if side_eq d.side side && eqb_ℤ d.price p then d.size else v.truth n side p)
  truth_own n side p d g = rw g (w.steps n side p)

  set_sides-size_at :
      (b : BookBuilder) (d : BookDelta) (side : OrderSide) (p : Decimal)
      → IsSide b.bids
      → IsSide b.asks
      → let t = set_sides b d d.side in
        size_at (side_of t.bids t.asks side) p ≡ (
          if side_eq d.side side && eqb_ℤ d.price p
          then d.size
          else size_at (side_of b.bids b.asks side) p)
  set_sides-size_at b d side p bi ai =
      ground (arith, size_at-set b.bids d.price d.size bi p, size_at-set b.asks d.price d.size ai p)

  set_sides-IsTrueAt :
      (b : BookBuilder) (d : BookDelta) (m : ℕ)
      → IsSide b.bids
      → IsSide b.asks
      → d ≡ v.update (suc m)
      → IsTrueAt v b.bids b.asks m ⊎ IsTrueAt v b.bids b.asks (suc m)
      → let t = set_sides b d d.side in IsTrueAt v t.bids t.asks (suc m)
  set_sides-IsTrueAt b d m bi ai g t side p =
      let set_ = set_sides-size_at b d side p bi ai in
      let own = truth_own m side p d g in
      elim t [
        | inl before ↦ let e = before side p in ground arith
        | inr after ↦ let e = after side p in ground arith
      ]

  set_sides-bids :
      (b : BookBuilder) (d : BookDelta) (x : OrderSide)
      → pos 0 ≤ℤ d.size
      → IsSide b.bids
      → IsSide (set_sides b d x).bids
  set_sides-bids b d buy h i = set-IsSide b.bids d.price d.size i h
  set_sides-bids b d sell h i = i

  set_sides-asks :
      (b : BookBuilder) (d : BookDelta) (x : OrderSide)
      → pos 0 ≤ℤ d.size
      → IsSide b.asks
      → IsSide (set_sides b d x).asks
  set_sides-asks b d buy h i = i
  set_sides-asks b d sell h i = set-IsSide b.asks d.price d.size i h

  set_sides-buffer :
      (b : BookBuilder) (d : BookDelta) (x : OrderSide) → (set_sides b d x).buffer ≡ b.buffer
  set_sides-buffer b d buy = refl
  set_sides-buffer b d sell = refl

  pub set_sides-synced :
      (b : BookBuilder) (d : BookDelta) (x : OrderSide) → (set_sides b d x).synced ≡ b.synced
  set_sides-synced b d buy = refl
  set_sides-synced b d sell = refl

  -- A genuine delta that is not stale and leaves no gap is the next update, or the last one again.
  next_or_same :
      (d : BookDelta) (last : ℕ) (batch : Option (ℕ × ℕ))
      → d.first_sequence ≡ none
      → BatchAt v batch last
      → (leb d.sequence last && not (same_batch (start d) d.sequence batch)) ≡ false
      → ltb (last + 1) (start d) ≡ false
      → (d.sequence ≡ suc last) ⊎ ((d.sequence ≡ last) × (0 < last))
  next_or_same d last none f h stale gap = ground arith
  next_or_same d last (some (a, c)) f h stale gap = ground arith

  -- The number of a delta that joins, as a successor, and where the book is true before it.
  number_of :
      (b : BookBuilder) (d : BookDelta) (last : ℕ)
      → d.first_sequence ≡ none
      → InSync v true (some last) b.batch b.bids b.asks
      → (leb d.sequence last && not (same_batch (start d) d.sequence b.batch)) ≡ false
      → ltb (last + 1) (start d) ≡ false
      → (m : ℕ) × (d.sequence ≡ suc m)
        × (IsTrueAt v b.bids b.asks m ⊎ IsTrueAt v b.bids b.asks (suc m))
  number_of b d last single (now, batch) fresh joined =
      elim (next_or_same d last b.batch single batch fresh joined) [
        | inl next ↦ (last, next, inl now)
        | inr (same, positive) ↦
            let e : last ≡ suc (last - 1) = omega arith in
            (last - 1, same ∙ e, inr (subst (λ n. IsTrueAt v b.bids b.asks n) e now))
      ]

  -- The delta joins a true book: the book is true at the delta's number.
  pub joined-IsSound :
      (b : BookBuilder) (d : BookDelta) (last : ℕ)
      → IsSound v b
      → IsGenuine v d
      → b.synced ≡ true
      → b.last ≡ some last
      → (leb d.sequence last && not (same_batch (start d) d.sequence b.batch)) ≡ false
      → ltb (last + 1) (start d) ≡ false
      → IsSound v (record (set_sides b d d.side) {
        last = some d.sequence;
        batch = some (start d, d.sequence);
      })
  joined-IsSound b d last i g on at_last fresh joined =
      let single : d.first_sequence ≡ none =
        ap (λ (x : BookDelta). x.first_sequence) g ∙ w.single d.sequence in
      let nonneg : pos 0 ≤ℤ d.size = rw g (w.nonneg d.sequence) in
      let t = set_sides b d d.side in
      let now : InSync v true (some last) b.batch b.bids b.asks =
        rw (on, at_last) at i.synced_true in
      let (m, number, before) = number_of b d last single now fresh joined in
      record {
        bids_in_order = set_sides-bids b d d.side nonneg i.bids_in_order;
        asks_in_order = set_sides-asks b d d.side nonneg i.asks_in_order;
        buffered = rw (set_sides-buffer b d d.side) i.buffered;
        synced_true =
            subst (λ x. InSync v x (some d.sequence) (some (start d, d.sequence)) t.bids t.asks)
              (sym (set_sides-synced b d d.side ∙ on))
              (
                subst (λ n. IsTrueAt v t.bids t.asks n) (sym number)
                    (set_sides-IsTrueAt b d m i.bids_in_order i.asks_in_order
                      (g ∙ ap v.update number) before),
                (ground arith, refl, omega (arith, number)),
              );
      }
