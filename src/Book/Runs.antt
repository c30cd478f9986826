-- ===== src/Book/Runs.antt =====
-- src/ismet/marketdata/book.py: whole runs of a builder, and how it comes back into sync.
use ismet.Prelude.{
  ℕ, zero, suc, ◌+◌, ◌≤◌, true, false, ◌&&◌, ◌||◌, none, some, List, [], ◌∷◌, ◌++◌, ltb, leb, ◌≡◌,
  ◌∙◌, refl, sym, ap, inl, inr, All, arith, Option-cases,
}
use mathlib.Core.Path.{subst, subst₂}
use ismet.Book.SideLaws.{empty_side-IsSide}
use ismet.Book.Builder.{
  BookDelta, BookBuilder, new_builder, fresh_builder, start, set_sides, apply_synced, apply_delta,
  Rows, rows_valid, below, replay_buffer, reset, apply_snapshot,
}
use ismet.Book.Feed.{
  Venue, IsTrueSnapshot, IsVenue, IsGenuine, IsTrueAt, InSync, IsSound, set_sides-synced,
}
use ismet.Book.Safety.{apply_delta-IsSound, apply_snapshot-IsSound, apply_delta_on}

-- What reaches a builder.
pub data Message : Type 0 where
  delta : BookDelta → Message
  rows : (sequence : ℕ) (bids asks : Rows) → Message

unfoldable pub receive : BookBuilder → Message → BookBuilder
receive b (delta d) = (apply_delta b d).0
receive b (rows n bids asks) = (apply_snapshot b n bids asks).0

unfoldable pub run : BookBuilder → List Message → BookBuilder
run b [] = b
run b (m ∷ ms) = run (receive b m) ms

new_builder_fresh :
    (bound : ℕ) {b : BookBuilder} → new_builder bound ≡ some b → b ≡ fresh_builder bound
unfolding new_builder
new_builder_fresh bound e = ground arith

replay_newer :
    (b : BookBuilder) (q : ℕ) (d : BookDelta) (ds : List BookDelta)
    → ltb q d.sequence ≡ true
    → replay_buffer b q (d ∷ ds) ≡ replay_buffer (apply_delta b d).0 q ds
unfolding replay_buffer
replay_newer b q d ds h = rw (h, replay_buffer)

replay_older :
    (b : BookBuilder) (q : ℕ) (d : BookDelta) (ds : List BookDelta)
    → ltb q d.sequence ≡ false
    → replay_buffer b q (d ∷ ds) ≡ replay_buffer b q ds
unfolding replay_buffer
replay_older b q d ds h = rw (h, replay_buffer)

-- The update behind the last one joins the book.
joins_next :
    (b : BookBuilder) (d : BookDelta) (last : ℕ)
    → d.sequence ≡ suc last
    → d.first_sequence ≡ none
    → (apply_synced b d last).0
      ≡ record (set_sides b d d.side) { last = some d.sequence; batch = some (start d, d.sequence) }
unfolding apply_synced
joins_next b d last h f =
    let not_old : leb d.sequence last ≡ false = ground arith in
    let no_gap : ltb (last + 1) (start d) ≡ false = ground arith in rw (not_old, no_gap) refl

module _ (v : Venue) (w : IsVenue v) where
  -- A message that the venue sent: one of its updates, or the true book at a number.
  abbrev pub IsFromVenue : Message → Type 0
  IsFromVenue (delta d) = IsGenuine v d
  IsFromVenue (rows n bids asks) = IsTrueSnapshot v n bids asks

  new_builder-IsSound : (bound : ℕ) {b : BookBuilder} → new_builder bound ≡ some b → IsSound v b
  new_builder-IsSound bound {b} e = subst (IsSound v) (sym (new_builder_fresh bound e)) (record {
    bids_in_order = empty_side-IsSide true;
    asks_in_order = empty_side-IsSide false;
    buffered = tt;
    synced_true = tt;
  })

  run-IsSound :
      (b : BookBuilder) (ms : List Message)
      → IsSound v b
      → All IsFromVenue ms
      → IsSound v (run b ms)
  unfolding run receive
  run-IsSound b [] i g = i
  run-IsSound b (delta d ∷ ms) i g =
      run-IsSound (apply_delta b d).0 ms (apply_delta-IsSound v w b d i g.0) g.1
  run-IsSound b (rows n bids asks ∷ ms) i g =
      run-IsSound (apply_snapshot b n bids asks).0 ms
        (apply_snapshot-IsSound v w b n bids asks i g.0) g.1

  sound_true :
      (b : BookBuilder)
      → IsSound v b
      → b.synced ≡ true
      → (n : ℕ) × (b.last ≡ some n) × IsTrueAt v b.bids b.asks n
  sound_true b i on = elim (Option-cases b.last) [
    | inl nowhere ↦
        absurd (subst₂ (λ x y. InSync v x y b.batch b.bids b.asks) on nowhere i.synced_true)
    | inr (n, e) ↦ (n, e, (subst₂ (λ x y. InSync v x y b.batch b.bids b.asks) on e i.synced_true).0)
  ]

  -- A venue sends numbered updates of one level each, every number once and covering only itself, and
  -- snapshots of its true book. Whatever messages of it reach a new builder, with any of them lost,
  -- repeated or out of order, and with any bound on its buffer: when it says that it is in sync, it has a last
  -- sequence number, and on both sides the size at every price is the venue's at that number.
  pub synced-IsTrueAt_last :
      (bound : ℕ) {b : BookBuilder} (ms : List Message)
      → new_builder bound ≡ some b
      → All IsFromVenue ms
      → (run b ms).synced ≡ true
      → (n : ℕ) × ((run b ms).last ≡ some n) × IsTrueAt v (run b ms).bids (run b ms).asks n
  synced-IsTrueAt_last bound {b} ms e g on =
      sound_true (run b ms) (run-IsSound b ms (new_builder-IsSound bound e) g) on

  -- The `k` updates behind number `q`.
  abbrev pub updates : ℕ → ℕ → List BookDelta
  updates q zero = []
  updates q (suc k) = v.update (suc q) ∷ updates (suc q) k

  -- In sync, at a number.
  abbrev pub IsAt : BookBuilder → ℕ → Type 0
  IsAt b n = (b.synced ≡ true) × (b.last ≡ some n)

  apply_next :
      (b : BookBuilder) (q : ℕ) → IsAt b q → IsAt (apply_delta b (v.update (suc q))).0 (suc q)
  apply_next b q (on, at_q) =
      let d = v.update (suc q) in
      let number = w.numbered (suc q) in
      rw (apply_delta_on v w b d q on at_q, joins_next b d q number (w.single (suc q)))
        (set_sides-synced v w b d d.side ∙ on, ap some number)

  replay_updates :
      (b : BookBuilder) (from q k : ℕ)
      → from ≤ q
      → IsAt b q
      → IsAt (replay_buffer b from (updates q k)) (q + k)
  unfolding replay_buffer
  replay_updates b from q zero h a = (a.0, a.1 ∙ ap some (omega arith))
  replay_updates b from q (suc k) h a =
      let number = w.numbered (suc q) in
      let newer : ltb from (v.update (suc q)).sequence ≡ true = rw number (ground arith) in
      let sums : suc q + k ≡ q + suc k = omega arith in
      rw (replay_newer b from (v.update (suc q)) (updates (suc q) k) newer) (
        subst
          (λ n.
            IsAt (replay_buffer (apply_delta b (v.update (suc q))).0 from (updates (suc q) k)) n)
          sums
          (replay_updates (apply_delta b (v.update (suc q))).0 from (suc q) k (omega arith)
            (apply_next b q a)))

  replay_old :
      (b : BookBuilder) (q : ℕ) (old ds : List BookDelta)
      → All (λ (d : BookDelta). d.sequence ≤ q) old
      → replay_buffer b q (old ++ ds) ≡ replay_buffer b q ds
  unfolding replay_buffer
  replay_old b q [] ds a = refl
  replay_old b q (d ∷ old) ds a =
      let older : ltb q d.sequence ≡ false = let h = a.0 in ground arith in
      replay_older b q d (old ++ ds) older ∙ replay_old b q old ds a.1

  -- For a venue that sends numbered updates of one level each, covering only their own number: a
  -- snapshot that is not refused, whose rows are valid, brings the book into sync, and the
  -- buffered updates carry it on: if behind the outdated ones the buffer holds the next `k` updates
  -- in order, the book is then in sync at the number of the last of them.
  pub snapshot_catches_up :
      (b : BookBuilder) (q k : ℕ) (bids asks : Rows) (old : List BookDelta)
      → (b.synced && below q b.last || below q b.dropped_through) ≡ false
      → (rows_valid bids && rows_valid asks) ≡ true
      → All (λ (d : BookDelta). d.sequence ≤ q) old
      → b.buffer ≡ old ++ updates q k
      → IsAt (apply_snapshot b q bids asks).0 (q + k)
  unfolding apply_snapshot
  snapshot_catches_up b q k bids asks old accepted valid outdated held =
      rw (accepted, valid)
        (subst (λ (ds : List BookDelta). IsAt (replay_buffer (reset b q bids asks) q ds) (q + k))
          (sym held)
          (rw (replay_old (reset b q bids asks) q old (updates q k) outdated) (
            replay_updates (reset b q bids asks) q q k (omega arith)
              (unfold reset in (refl, refl)))))
