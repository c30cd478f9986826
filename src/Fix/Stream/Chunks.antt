-- ===== src/Fix/Stream/Chunks.antt =====
-- src/ismet/fix/message.py: `feed` of two chunks, and of both at once.
use ismet.Prelude.{
  ℕ, zero, suc, ◌+◌, ◌≤◌, ◌<◌, Bool, true, false, Option, none, some, List, [], ◌∷◌, ◌++◌, length,
  ◌≡◌, refl, sym, ap, ◌∙◌, arith, map, append_assoc,
}
use mathlib.Core.Path.{subst}
use ismet.Fix.Bytes.{Bytes, holds_at}
use ismet.Fix.Message.{Coded, ok, refused, DataFields}
use ismet.Fix.Parse.{
  Scanned, found, need_more, bad, scan_frame, parse_fields, Fields, FieldDefect, body_of,
}
use ismet.Fix.Stream.{
  Item, after_marker, kept, Round, stop, emit, take_fields, take_scanned, resync, round,
  continue_with, feed_loop, rounds, FixStreamParser, feed,
}
use ismet.Fix.Stream.Rounds.{LeavesBelow, LeavesBelow-more, round-LeavesBelow, feed_loop_fuel}
use ismet.Fix.Stream.Marker.{kept_again, from_size, after_found, after_kept}
use ismet.Fix.Stream.Gives.{outline, GivesAlso, round-GivesAlso}

module _ (max : ℕ) (m : DataFields) (more : Bytes) where
  -- A round that ends leaves bytes from which more bytes are read as from all of them.
  abbrev ResumesAt : Round → Round → Type 0
  ResumesAt (stop s rest) r = r ≡ round max m s (rest ++ more)
  ResumesAt (emit item s rest) r = Unit

  round-synced :
      (b : ℕ) (bs : Bytes)
      → take_scanned m (b ∷ bs) (scan_frame max (b ∷ bs)) ≡ round max m true (b ∷ bs)
  unfolding round
  round-synced b bs = refl

  round-resync : (xs : Bytes) → resync max m xs (after_marker xs) ≡ round max m false xs
  unfolding round after_marker kept holds_at
  round-resync [] = refl
  round-resync (b ∷ bs) = refl

  take_fields-ResumesAt :
      (rest name : Bytes) (e : ℕ) (r : Coded (Fields × Option FieldDefect)) (r' : Round)
      → ResumesAt (take_fields rest name e r) r'
  take_fields-ResumesAt rest name e (ok (fields, defect)) r' = tt
  take_fields-ResumesAt rest name e (refused c) r' = tt

  take_scanned-ResumesAt :
      (b : ℕ) (bs : Bytes) (r : Scanned)
      → ResumesAt
          (take_scanned m (b ∷ bs) r)
          (take_scanned m (b ∷ bs ++ more) (scan_frame max (b ∷ bs ++ more)))
  take_scanned-ResumesAt b bs need_more = round-synced b (bs ++ more)
  take_scanned-ResumesAt b bs (bad g) = tt
  take_scanned-ResumesAt b bs (found name s e) =
      take_fields-ResumesAt (b ∷ bs) name e (parse_fields m (body_of (b ∷ bs) s e)) _

  resync_kept :
      (xs ys : Bytes) (o : Option Bytes) → kept xs ≡ kept ys → resync max m xs o ≡ resync max m ys o
  resync_kept xs ys none h = ap (stop false) h
  resync_kept xs ys (some from) h = refl

  from_here :
      (from : Bytes)
      → 2 ≤ length from
      → ResumesAt
          (take_scanned m from (scan_frame max from))
          (take_scanned m (from ++ more) (scan_frame max (from ++ more)))
  from_here [] h = absurd (omega (arith, h))
  from_here (b ∷ bs) h = take_scanned-ResumesAt b bs (scan_frame max (b ∷ bs))

  resync-ResumesAt :
      (rest : Bytes) (o : Option Bytes)
      → after_marker rest ≡ o
      → ResumesAt (resync max m rest o) (resync max m (rest ++ more) (after_marker (rest ++ more)))
  resync-ResumesAt rest none h =
      ap (resync max m (rest ++ more)) (after_kept rest more h)
      ∙ resync_kept (rest ++ more) (kept rest ++ more) _ (kept_again rest more)
      ∙ round-resync (kept rest ++ more)
  resync-ResumesAt rest (some from) h =
      rw (after_found rest more from h) (from_here from (from_size rest from h).0)

  round-ResumesAt :
      (s : Bool) (rest : Bytes) → ResumesAt (round max m s rest) (round max m s (rest ++ more))
  unfolding round
  round-ResumesAt s [] = refl
  round-ResumesAt true (b ∷ bs) = take_scanned-ResumesAt b bs (scan_frame max (b ∷ bs))
  round-ResumesAt false (b ∷ bs) = resync-ResumesAt (b ∷ bs) (after_marker (b ∷ bs)) refl

  -- The loop, on the fuel of `feed`.
  abbrev run : Bool → Bytes → List Item × Bool × Bytes
  run s rest = feed_loop (suc (rounds s rest)) max m s rest

  run-round :
      (s s' : Bool) (xs ys : Bytes) → round max m s xs ≡ round max m s' ys → run s xs ≡ run s' ys
  unfolding feed_loop
  run-round s s' xs ys h =
      let n = rounds s xs + rounds s' ys in
      feed_loop_fuel (suc (rounds s xs)) (suc n) max m s xs (omega arith) (omega arith)
      ∙ ap (λ r. continue_with r (feed_loop n max m)) h
      ∙ feed_loop_fuel (suc n) (suc (rounds s' ys)) max m s' ys (omega arith) (omega arith)

  -- The same results, but for the reasons of garbled frames.
  abbrev IsLike : List Item × Bool × Bytes → List Item × Bool × Bytes → Type 0
  IsLike (xs, s, r) (ys, s', r') = (map outline xs ≡ map outline ys) × (s ≡ s') × (r ≡ r')

  abbrev then_run : List Item × Bool × Bytes → List Item × Bool × Bytes
  then_run (items, s, rest) =
      let (later, s', rest') = run s (rest ++ more) in (items ++ later, s', rest')

  run-emit :
      (s s' : Bool) (xs ys : Bytes) (item : Item)
      → round max m s xs ≡ emit item s' ys
      → run s xs ≡ (item ∷ (run s' ys).0, (run s' ys).1, (run s' ys).2)
  unfolding feed_loop
  run-emit s s' xs ys item h =
      let fewer : rounds s' ys < rounds s xs =
        subst (LeavesBelow (rounds s xs)) h (round-LeavesBelow max m s xs) in
      ap (λ r. continue_with r (feed_loop (rounds s xs) max m)) h
      ∙ ap (λ q. (item ∷ q.0, q.1, q.2))
          (feed_loop_fuel (rounds s xs) (suc (rounds s' ys)) max m s' ys fewer (omega arith))

  chunk_round :
      (fuel : ℕ) (s : Bool) (rest : Bytes) (r r' : Round)
      → ResumesAt r r'
      → GivesAlso more r r'
      → LeavesBelow fuel r
      → round max m s (rest ++ more) ≡ r'
      → ((s' : Bool) (rest' : Bytes)
          → rounds s' rest' < fuel
          → IsLike (run s' (rest' ++ more)) (then_run (feed_loop fuel max m s' rest')))
      → IsLike (run s (rest ++ more)) (then_run (continue_with r (feed_loop fuel max m)))
  chunk_round fuel s rest (stop s1 r1) r' resumes gives fewer is_round again =
      let same : run s (rest ++ more) ≡ run s1 (r1 ++ more) =
        run-round s s1 (rest ++ more) (r1 ++ more) (is_round ∙ resumes) in
      (ap (λ q. map outline q.0) same, ap (λ q. q.1) same, ap (λ q. q.2) same)
  chunk_round fuel s rest (emit item s1 r1) r' resumes (item', given, alike) fewer is_round again =
      let same = run-emit s s1 (rest ++ more) (r1 ++ more) item' (is_round ∙ given) in
      let (items, synced, left) = again s1 r1 fewer in
      (
        ap (λ q. map outline q.0) same
            ∙ ap (λ o. o ∷ map outline (run s1 (r1 ++ more)).0) alike
            ∙ ap (λ t. outline item ∷ t) items,
        ap (λ q. q.1) same ∙ synced,
        ap (λ q. q.2) same ∙ left,
      )

  chunk_loop :
      (fuel : ℕ) (s : Bool) (rest : Bytes)
      → rounds s rest < fuel
      → IsLike (run s (rest ++ more)) (then_run (feed_loop fuel max m s rest))
  unfolding feed_loop
  chunk_loop zero s rest enough = absurd (omega (arith, enough))
  chunk_loop (suc fuel) s rest enough =
      chunk_round fuel s rest (round max m s rest) (round max m s (rest ++ more))
        (round-ResumesAt s rest) (round-GivesAlso max m s rest more)
        (LeavesBelow-more (rounds s rest) fuel (round max m s rest) (omega (arith, enough))
          (round-LeavesBelow max m s rest))
        refl (chunk_loop fuel)

-- Whether a parser is fed two chunks one after the other or both at once, it gives the same messages
-- and garbled frames in the same order, apart from the reasons of the garbled frames, and is left
-- in the same state.
pub feed-append :
    (first second : Bytes) (p : FixStreamParser)
    → (map outline (feed (first ++ second) p).0
        ≡ map outline ((feed first p).0 ++ (feed second (feed first p).1).0))
      × ((feed (first ++ second) p).1 ≡ (feed second (feed first p).1).1)
unfolding feed
feed-append first second p =
    let buf = p.buffer ++ first in
    let glued : p.buffer ++ (first ++ second) ≡ buf ++ second =
      sym (append_assoc p.buffer first second) in
    let (items, synced, left) =
      chunk_loop p.max p.data_fields second (suc (rounds p.synced buf)) p.synced buf
        (omega arith) in
    let go = run p.max p.data_fields second p.synced in
    (
      ap (λ x. map outline (go x).0) glued ∙ items,
      ap (λ x. record p { buffer = (go x).2; synced = (go x).1 }) glued
          ∙ (λ i. record p { buffer = left i; synced = synced i }),
    )
