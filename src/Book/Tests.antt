-- ===== src/Book/Tests.antt =====
-- Runs of the book builder, and its theorems at them.
use ismet.Prelude.{
  length, ℕ, true, false, none, some, List, [], ◌∷◌, Decimal, pos, negsuc, negate, ◌≡◌, refl, eqb_ℤ,
  ◌&&◌, All, arith, if◌then◌else◌, ◌+◌,
}
use ismet.Models.Orders.{buy, sell, side_eq}
use ismet.Book.Side.{
  BookSide, Level, empty_side, set, size_of, put_level, insort, key_of, top, take_keys, levels_at,
}
use ismet.Book.SideLaws.{IsSide, size_at, set-IsSide, empty_side-IsSide}
use ismet.Book.Taken.{IsWithin}
use ismet.Book.Top.{BestFirst, IsShown, IsPlaced, top_ordered}
use ismet.Book.Builder.{
  BookBuilder, new_builder, fresh_builder, apply_delta, apply_synced, apply_snapshot, buffer_delta,
  push_delta, reset, replay_buffer, set_rows, rows_valid,
}
use ismet.Book.Feed.{Venue, IsVenue, IsTrueAt}
use ismet.Book.Runs.{
  Message, delta, rows, receive, run, synced-IsTrueAt_last, snapshot_catches_up, IsAt,
}

-- A venue that raises its bid of size `n` at the price 50.
abbrev ramp : Venue
ramp = record {
  update =
      λ n. record { side = buy; price = pos 50; size = pos n; sequence = n; first_sequence = none };
  truth = λ n side p. if side_eq buy side && eqb_ℤ (pos 50) p then pos n else pos 0;
}

ramp-IsVenue : IsVenue ramp
ramp-IsVenue = record {
  numbered = λ n. refl;
  single = λ n. refl;
  nonneg = λ n. omega arith;
  steps = λ n side p. ground arith;
}

abbrev start_builder : BookBuilder
start_builder = fresh_builder 4

start_made : new_builder 4 ≡ some start_builder
unfolding new_builder
start_made = refl

abbrev bids_at_two : List (Decimal × Decimal)
bids_at_two = (pos 50, pos 2) ∷ []

-- An update is lost: 2 is in the snapshot, 3 arrives, 5 leaves a gap.
abbrev messages : List Message
messages = delta (ramp.update 3) ∷ rows 2 bids_at_two [] ∷ delta (ramp.update 2) ∷ []

rows_at_two :
    IsTrueAt ramp (set_rows (empty_side true) bids_at_two) (set_rows (empty_side false) []) 2
unfolding set_rows set size_at size_of put_level
rows_at_two buy p = ground arith
rows_at_two sell p = refl

messages_sync : (run start_builder messages).synced ≡ true
unfolding run receive apply_delta apply_synced apply_snapshot buffer_delta push_delta reset
    replay_buffer set_rows rows_valid set size_of put_level insort key_of
messages_sync = refl

messages_last : (run start_builder messages).last ≡ some 3
unfolding run receive apply_delta apply_synced apply_snapshot buffer_delta push_delta reset
    replay_buffer set_rows rows_valid set size_of put_level insort key_of
messages_last = refl

synced-IsTrueAt_last_example :
    (n : ℕ) × ((run start_builder messages).last ≡ some n)
    × IsTrueAt ramp (run start_builder messages).bids (run start_builder messages).asks n
synced-IsTrueAt_last_example =
    synced-IsTrueAt_last ramp ramp-IsVenue 4 messages start_made (refl, (rows_at_two, (refl, tt)))
      messages_sync

abbrev waiting : BookBuilder
waiting = record start_builder { buffer = ramp.update 2 ∷ ramp.update 3 ∷ ramp.update 4 ∷ [] }

snapshot_catches_up_example :
    IsAt ramp ramp-IsVenue (apply_snapshot waiting 2 bids_at_two []).0 (2 + 2)
snapshot_catches_up_example =
    snapshot_catches_up ramp ramp-IsVenue waiting 2 2 bids_at_two [] (ramp.update 2 ∷ []) refl
      (unfold rows_valid in refl) (omega arith, tt) refl

one_bid-IsSide : IsSide (set (empty_side true) (pos 50) (pos 3))
one_bid-IsSide =
    set-IsSide (empty_side true) (pos 50) (pos 3) (empty_side-IsSide true) (omega arith)

abbrev one_bid : BookSide
one_bid = record { descending = true; levels = (pos 50, pos 3) ∷ []; keys = negsuc 49 ∷ [] }

top_ordered_example :
    let s = set (empty_side true) (pos 50) (pos 3) in
    (shown : List Level) × (top s (some 5) ≡ some shown)
    × BestFirst s.descending shown
    × All (IsShown s) shown
    × IsWithin (some 5) (length shown)
    × ((p : Decimal) → IsPlaced s (some 5) shown p)
top_ordered_example = top_ordered (set (empty_side true) (pos 50) (pos 3)) one_bid-IsSide (some 5)

-- Two bids and a removal: the best price stands first.
abbrev ladder : BookSide
ladder = set (set (set (empty_side true) (pos 50) (pos 3)) (pos 52) (pos 1)) (pos 51) (pos 0)

ladder-top :
    top ladder (some 2)
    ≡ some (record { price = pos 52; size = pos 1 } ∷ record { price = pos 50; size = pos 3 } ∷ [])
unfolding top levels_at take_keys set size_of put_level insort key_of negate
ladder-top = refl
