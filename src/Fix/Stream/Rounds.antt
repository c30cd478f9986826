-- ===== src/Fix/Stream/Rounds.antt =====
-- src/ismet/fix/message.py: each round of `feed` that goes on has less to read, so that the fuel of
-- the loop is enough.
use ismet.Prelude.{
  ℕ, zero, suc, ◌+◌, ◌≤◌, ◌<◌, Bool, true, false, ◌&&◌, Option, none, some, List, [], ◌∷◌, ◌==◌,
  if◌then◌else◌, length, ◌≡◌, refl, ap, arith,
}
use ismet.Fix.Bytes.{Bytes, soh, holds_at}
use ismet.Fix.Bytes.Laws.{length-drop}
use ismet.Fix.Message.{Coded, ok, refused, DataFields}
use ismet.Fix.Parse.{
  Scanned, found, need_more, bad, scan_frame, parse_fields, Fields, FieldDefect, body_of,
}
use ismet.Fix.Integrity.{SealedWhen, scan_frame-IsSealed}
use ismet.Fix.Stream.{
  Item, after_marker, Round, stop, emit, take_fields, take_scanned, resync, round, continue_with,
  feed_loop, rounds,
}

-- A round that goes on leaves fewer than `n` rounds.
abbrev pub LeavesBelow : ℕ → Round → Type 0
LeavesBelow n (stop synced rest) = Unit
LeavesBelow n (emit item synced rest) = rounds synced rest < n

pick_shorter :
    (t : Bool) (rest from : Bytes)
    → (if t then some rest else after_marker rest) ≡ some from
    → (after_marker rest ≡ some from → length from < length rest)
    → length from < suc (length rest)
pick_shorter true rest from h later = ground (arith, h)
pick_shorter false rest from h later = omega (arith, later h)

after_marker_shorter :
    (rest from : Bytes) → after_marker rest ≡ some from → length from < length rest
unfolding after_marker
after_marker_shorter [] from h = absurd (ground (arith, h))
after_marker_shorter (a ∷ rest) from h =
    pick_shorter (a == soh && holds_at 0 b'8' rest && holds_at 1 b'=' rest) rest from h
      (after_marker_shorter rest from)

take_fields-LeavesBelow :
    (rest name : Bytes) (e : ℕ) (r : Coded (Fields × Option FieldDefect))
    → 7 ≤ e
    → e ≤ length rest
    → LeavesBelow (suc (length rest + length rest)) (take_fields rest name e r)
take_fields-LeavesBelow rest name e (ok (fields, defect)) h k =
    omega (arith, h, k, length-drop e rest)
take_fields-LeavesBelow rest name e (refused c) h k = omega arith

take_scanned-LeavesBelow :
    (m : DataFields) (rest : Bytes) (r : Scanned)
    → SealedWhen rest r
    → LeavesBelow (suc (length rest + length rest)) (take_scanned m rest r)
take_scanned-LeavesBelow m rest need_more seal = tt
take_scanned-LeavesBelow m rest (bad g) seal = omega arith
take_scanned-LeavesBelow m rest (found name s e) seal =
    take_fields-LeavesBelow rest name e (parse_fields m (body_of rest s e)) seal.0.room
      seal.0.inside

pub LeavesBelow-more : (n k : ℕ) (r : Round) → n ≤ k → LeavesBelow n r → LeavesBelow k r
LeavesBelow-more n k (stop synced rest) le h = tt
LeavesBelow-more n k (emit item synced rest) le h = omega (arith, le, h)

resync-LeavesBelow :
    (max : ℕ) (m : DataFields) (rest : Bytes) (o : Option Bytes)
    → ((from : Bytes) → o ≡ some from → length from < length rest)
    → LeavesBelow (length rest + length rest) (resync max m rest o)
resync-LeavesBelow max m rest none shorter = tt
resync-LeavesBelow max m rest (some from) shorter =
    LeavesBelow-more (suc (length from + length from)) _ (take_scanned m from (scan_frame max from))
      (omega (arith, shorter from refl))
      (take_scanned-LeavesBelow m from (scan_frame max from) (scan_frame-IsSealed max from))

-- Each round of `feed` that gives an item leaves fewer rounds.
pub round-LeavesBelow :
    (max : ℕ) (m : DataFields) (synced : Bool) (rest : Bytes)
    → LeavesBelow (rounds synced rest) (round max m synced rest)
unfolding round
round-LeavesBelow max m synced [] = tt
round-LeavesBelow max m true (b ∷ bs) =
    LeavesBelow-more _ _ (take_scanned m (b ∷ bs) (scan_frame max (b ∷ bs))) (omega arith) (
      take_scanned-LeavesBelow m (b ∷ bs) (scan_frame max (b ∷ bs))
        (scan_frame-IsSealed max (b ∷ bs)))
round-LeavesBelow max m false (b ∷ bs) =
    LeavesBelow-more _ _ (resync max m (b ∷ bs) (after_marker (b ∷ bs))) (omega arith)
      (resync-LeavesBelow max m (b ∷ bs) (after_marker (b ∷ bs)) (after_marker_shorter (b ∷ bs)))

same_continue :
    (n : ℕ) (r : Round) (go go' : Bool → Bytes → List Item × Bool × Bytes)
    → LeavesBelow n r
    → ((synced : Bool) (rest : Bytes) → rounds synced rest < n → go synced rest ≡ go' synced rest)
    → continue_with r go ≡ continue_with r go'
same_continue n (stop synced rest) go go' left same = refl
same_continue n (emit item synced rest) go go' left same =
    ap (λ q. let (items, s, r) = q in (item ∷ items, s, r)) (same synced rest left)

-- The loop of `feed` ends by itself: on fuel above `rounds`, more fuel changes nothing.
pub feed_loop_fuel :
    (fuel more max : ℕ) (m : DataFields) (synced : Bool) (rest : Bytes)
    → rounds synced rest < fuel
    → rounds synced rest < more
    → feed_loop fuel max m synced rest ≡ feed_loop more max m synced rest
unfolding feed_loop
feed_loop_fuel zero more max m synced rest h k = absurd (omega (arith, h))
feed_loop_fuel (suc fuel) zero max m synced rest h k = absurd (omega (arith, k))
feed_loop_fuel (suc fuel) (suc more) max m synced rest h k =
    same_continue (rounds synced rest) (round max m synced rest) (feed_loop fuel max m)
      (feed_loop more max m) (round-LeavesBelow max m synced rest)
      λ synced' rest' less.
        feed_loop_fuel fuel more max m synced' rest' (omega (arith, h, less))
          (omega (arith, k, less))
