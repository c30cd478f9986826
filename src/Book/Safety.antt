-- ===== src/Book/Safety.antt =====
-- src/ismet/marketdata/book.py: a book that says it is in sync is right, whatever the feed lost,
-- repeated or reordered.
use ismet.Prelude.{
  ℕ, ◌+◌, true, false, not, ◌&&◌, ◌||◌, some, List, [], ◌∷◌, ltb, leb, ◌≡◌, refl, inl, inr, All,
  arith, Bool-cases, Option-cases,
}
use ismet.Book.Side.{BookSide, set, empty_side}
use ismet.Book.SideLaws.{IsSide, set-IsSide, empty_side-IsSide}
use ismet.Book.Builder.{
  BookDelta, BookBuilder, buffer_delta, start, same_batch, not_applied, apply_synced, apply_delta,
  Rows, rows_valid, set_rows, replay_buffer, reset, apply_snapshot, below,
}
use mathlib.Core.Path.{subst₂}
use ismet.Book.Feed.{
  IsTrueSnapshot, Venue, IsVenue, IsGenuine, InSync, IsSound, buffer_delta-IsSound, joined-IsSound,
}

module _ (v : Venue) (w : IsVenue v) where
  apply_synced-IsSound :
      (b : BookBuilder) (d : BookDelta) (last : ℕ)
      → IsSound v b
      → IsGenuine v d
      → b.synced ≡ true
      → b.last ≡ some last
      → IsSound v (apply_synced b d last).0
  unfolding apply_synced
  apply_synced-IsSound b d last i g on at_last =
      elim (Bool-cases (leb d.sequence last && not (same_batch (start d) d.sequence b.batch))) [
        | inl stale ↦ rw stale (record {
          bids_in_order = i.bids_in_order;
          asks_in_order = i.asks_in_order;
          buffered = i.buffered;
          synced_true = i.synced_true;
        })
        | inr fresh ↦ rw fresh (elim (Bool-cases (ltb (last + 1) (start d))) [
          | inl gap ↦ rw gap (
              buffer_delta-IsSound v w (record b { gaps = b.gaps + 1; synced = false }) d
                i.bids_in_order i.asks_in_order i.buffered refl g)
          | inr joined ↦ rw joined (joined-IsSound v w b d last i g on at_last fresh joined)
        ])
      ]

  -- A delta that the venue sent keeps a builder sound, in whatever order it comes.
  pub apply_delta_on :
      (b : BookBuilder) (d : BookDelta) (last : ℕ)
      → b.synced ≡ true
      → b.last ≡ some last
      → apply_delta b d ≡ apply_synced b d last
  unfolding apply_delta
  apply_delta_on b d last on at_last = ground arith

  apply_delta_off :
      (b : BookBuilder) (d : BookDelta)
      → b.synced ≡ false
      → apply_delta b d ≡ (buffer_delta b d, not_applied)
  unfolding apply_delta
  apply_delta_off b d off = ground arith

  pub apply_delta-IsSound :
      (b : BookBuilder) (d : BookDelta)
      → IsSound v b
      → IsGenuine v d
      → IsSound v (apply_delta b d).0
  apply_delta-IsSound b d i g = elim (Bool-cases b.synced) [
    | inl on ↦ elim (Option-cases b.last) [
      | inl nowhere ↦
          absurd (subst₂ (λ x y. InSync v x y b.batch b.bids b.asks) on nowhere i.synced_true)
      | inr (last, at_last) ↦
          rw (apply_delta_on b d last on at_last) (apply_synced-IsSound b d last i g on at_last)
    ]
    | inr off ↦
        rw (apply_delta_off b d off)
          (buffer_delta-IsSound v w b d i.bids_in_order i.asks_in_order i.buffered off g)
  ]

  replay_buffer-IsSound :
      (b : BookBuilder) (sequence : ℕ) (ds : List BookDelta)
      → IsSound v b
      → All (IsGenuine v) ds
      → IsSound v (replay_buffer b sequence ds)
  unfolding replay_buffer
  replay_buffer-IsSound b sequence [] i g = i
  replay_buffer-IsSound b sequence (d ∷ ds) i g = elim (Bool-cases (ltb sequence d.sequence)) [
    | inl newer ↦
        rw newer (
          replay_buffer-IsSound (apply_delta b d).0 sequence ds (apply_delta-IsSound b d i g.0) g.1)
    | inr older ↦ rw older (replay_buffer-IsSound b sequence ds i g.1)
  ]

  set_rows-IsSide :
      (s : BookSide) (rows : Rows) → IsSide s → rows_valid rows ≡ true → IsSide (set_rows s rows)
  unfolding set_rows rows_valid
  set_rows-IsSide s [] i h = i
  set_rows-IsSide s ((p, z) ∷ rows) i h =
      set_rows-IsSide (set s p z) rows (set-IsSide s p z i (ground arith)) (ground arith)

  pub apply_snapshot-IsSound :
      (b : BookBuilder) (sequence : ℕ) (bids asks : Rows)
      → IsSound v b
      → IsTrueSnapshot v sequence bids asks
      → IsSound v (apply_snapshot b sequence bids asks).0
  unfolding apply_snapshot
  apply_snapshot-IsSound b sequence bids asks i t =
      elim (Bool-cases (b.synced && below sequence b.last || below sequence b.dropped_through)) [
        | inl stale ↦ rw stale (record {
          bids_in_order = i.bids_in_order;
          asks_in_order = i.asks_in_order;
          buffered = i.buffered;
          synced_true = i.synced_true;
        })
        | inr newer ↦ rw newer (elim (Bool-cases (rows_valid bids && rows_valid asks)) [
          | inl valid ↦ rw valid (
              replay_buffer-IsSound (reset b sequence bids asks) sequence b.buffer
                (unfold reset in
                  record {
                    bids_in_order =
                        set_rows-IsSide (empty_side true) bids (empty_side-IsSide true)
                          (ground arith);
                    asks_in_order =
                        set_rows-IsSide (empty_side false) asks (empty_side-IsSide false)
                          (ground arith);
                    buffered = tt;
                    synced_true = (t, tt);
                  })
                i.buffered)
          | inr bad ↦ rw bad i
        ])
      ]
