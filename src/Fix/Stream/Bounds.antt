-- ===== src/Fix/Stream/Bounds.antt =====
-- src/ismet/fix/message.py: how many bytes `feed` leaves in the buffer, against `max_buffered`.
use ismet.Prelude.{
  ℕ, zero, suc, ◌+◌, ◌-◌, ◌≤◌, ◌<◌, Bool, true, false, not, ◌&&◌, Option, none, some, List, [], ◌∷◌,
  ◌++◌, ltb, leb, ◌==◌, if◌then◌else◌, length, ◌≡◌, refl, arith,
}
use ismet.Fix.Bytes.{
  Bytes, soh, take, drop, holds_at, find, starts_with, isdigit, digits, is_empty, read,
}
use ismet.Fix.Bytes.Laws.{length-drop, length-take, take_below}
use ismet.Fix.Message.{
  Garbled, Coded, ok, refused, DataFields, type_prefix, length_prefix, begin_prefix, trailer_prefix,
  checksum, is_begin_string,
}
use ismet.Fix.Parse.{
  Scanned, found, need_more, bad, scan_frame, past_begin, scan_length, past_length, scan_digits,
  scan_body, parse_fields, Fields, FieldDefect, body_of,
}
use ismet.Fix.Stream.{
  Item, after_marker, kept, Round, stop, emit, take_fields, take_scanned, resync, round,
  continue_with, feed_loop, rounds, FixStreamParser, feed, max_buffered,
}
use ismet.Fix.Stream.Rounds.{LeavesBelow, round-LeavesBelow}

find_below : (b k : ℕ) (xs : Bytes) → find b xs ≡ some k → k < length xs
unfolding find
find_below b k [] h = absurd (ground (arith, h))
find_below b zero (x ∷ xs) h = omega arith
find_below b (suc k) (x ∷ xs) h = ground (arith, h, find_below b k xs)

find-take_below : (b n k : ℕ) (xs : Bytes) → find b (take n xs) ≡ some k → k < n
find-take_below b n k xs h = omega (arith, find_below b k (take n xs) h, length-take n xs)

module _ (buf : Bytes) (bound : ℕ) where
  -- More bytes are awaited only while the buffer is within the bound.
  abbrev pub WaitsBelow : Scanned → Type 0
  WaitsBelow need_more = length buf ≤ bound
  WaitsBelow _ = Unit

  past_bad :
      (t : Bool) (g : Garbled) (r : Scanned)
      → (t ≡ false → WaitsBelow r)
      → WaitsBelow (if t then bad g else r)
  past_bad true g r h = tt
  past_bad false g r h = h refl

  past_wait :
      (t : Bool) (r : Scanned)
      → (t ≡ true → length buf ≤ bound)
      → (t ≡ false → WaitsBelow r)
      → WaitsBelow (if t then need_more else r)
  past_wait true r low h = low refl
  past_wait false r low h = h refl

  scan_body-WaitsBelow :
      (name : Bytes) (start n : ℕ) → start + n + 6 ≤ bound → WaitsBelow (scan_body buf name start n)
  unfolding scan_body
  scan_body-WaitsBelow name start n low =
      past_bad (not (starts_with type_prefix (take 3 (drop start buf)))) _ _ λ _.
        past_wait (ltb (length buf) (start + n + 7)) _ (λ short. ground (arith, short, low))
          λ _. past_bad (not (holds_at (start + n - 1) soh buf)) _ _ λ _.
            past_bad
              (not (
                starts_with (drop (start + n) buf) trailer_prefix
                && holds_at (start + n + 7 - 1) soh buf))
              _ _
              λ _. past_bad (not (isdigit (take 3 (drop (start + n + 3) buf)))) _ _ λ _.
                past_bad
                  (not
                    (read (take 3 (drop (start + n + 3) buf)) == checksum (take (start + n) buf)))
                  _ _ λ _. tt

  scan_digits-WaitsBelow :
      (max : ℕ) (name : Bytes) (start n : ℕ)
      → start + n + 1 + max + 6 ≤ bound
      → WaitsBelow (scan_digits max buf name start n)
  unfolding scan_digits
  scan_digits-WaitsBelow max name start n low =
      past_bad (not (isdigit (take n (drop start buf)))) _ _ λ _.
        past_bad (ltb max (read (take n (drop start buf)))) _ _ λ small.
          scan_body-WaitsBelow name (start + n + 1) (read (take n (drop start buf)))
            (ground (arith, small, low))

  past_length-WaitsBelow :
      (max : ℕ) (name : Bytes) (start : ℕ) (o : Option ℕ)
      → start + length (digits max) + 1 + max + 6 ≤ bound
      → ((n : ℕ) → o ≡ some n → n < length (digits max) + 1)
      → WaitsBelow (past_length max buf name start o)
  past_length-WaitsBelow max name start (some n) low small =
      scan_digits-WaitsBelow max name start n (omega (arith, low, small n refl))
  past_length-WaitsBelow max name start none low small =
      let rest = drop start buf in
      past_bad (leb (length (digits max) + 1) (length rest)) _ _ λ short.
        past_bad (not (isdigit rest) && not (is_empty rest)) _ _
          λ _. ground (arith, short, low, length-drop start buf)

  past_begin-WaitsBelow :
      (max : ℕ) (o : Option ℕ)
      → 41 + length (digits max) + max ≤ bound
      → ((n : ℕ) → o ≡ some n → n < 30)
      → WaitsBelow (past_begin max buf o)
  unfolding scan_length
  past_begin-WaitsBelow max none low small =
      past_bad (leb 32 (length buf)) _ _ λ short. ground (arith, short, low)
  past_begin-WaitsBelow max (some n) low small =
      let name = take n (drop 2 buf) in
      let prefix = take 2 (drop (n + 3) buf) in
      past_bad (not (is_begin_string name)) _ _ λ _.
        past_bad (not (starts_with length_prefix prefix)) _ _ λ _.
          past_wait (ltb (length prefix) 2) _
            (λ short. ground (
              arith,
              short,
              low,
              small n refl,
              take_below 2 (drop (n + 3) buf),
              length-drop (n + 3) buf,
            ))
            λ _.
              past_length-WaitsBelow max name (n + 3 + 2) _ (omega (arith, low, small n refl))
                (λ k. find-take_below soh (length (digits max) + 1) k (drop (n + 3 + 2) buf))

-- `scan_frame` asks for more only below the bound.
scan_frame-WaitsBelow :
    (max : ℕ) (buf : Bytes) → WaitsBelow buf (41 + length (digits max) + max) (scan_frame max buf)
unfolding scan_frame
scan_frame-WaitsBelow max buf =
    let bound = 41 + length (digits max) + max in
    past_bad buf bound (not (starts_with begin_prefix (take 2 buf))) _ _ λ _.
      past_wait buf bound (ltb (length buf) 2) _ (λ short. ground (arith, short))
        λ _.
          past_begin-WaitsBelow buf bound max _ (omega arith)
            (λ k. find-take_below soh 30 k (drop 2 buf))

-- A round that ends leaves at most `bound` bytes.
abbrev StopsBelow : ℕ → Round → Type 0
StopsBelow bound (stop synced rest) = length rest ≤ bound
StopsBelow bound (emit item synced rest) = Unit

kept_short : (rest : Bytes) → length (kept rest) ≤ 2
unfolding kept
kept_short rest =
    ground (arith, length-drop (length rest - 1) rest, length-drop (length rest - 2) rest)

take_fields-StopsBelow :
    (bound : ℕ) (rest name : Bytes) (e : ℕ) (r : Coded (Fields × Option FieldDefect))
    → StopsBelow bound (take_fields rest name e r)
take_fields-StopsBelow bound rest name e (ok (fields, defect)) = tt
take_fields-StopsBelow bound rest name e (refused c) = tt

take_scanned-StopsBelow :
    (bound : ℕ) (m : DataFields) (rest : Bytes) (r : Scanned)
    → WaitsBelow rest bound r
    → StopsBelow bound (take_scanned m rest r)
take_scanned-StopsBelow bound m rest need_more waits = waits
take_scanned-StopsBelow bound m rest (bad g) waits = tt
take_scanned-StopsBelow bound m rest (found name s e) waits =
    take_fields-StopsBelow bound rest name e (parse_fields m (body_of rest s e))

resync-StopsBelow :
    (max : ℕ) (m : DataFields) (rest : Bytes) (o : Option Bytes)
    → StopsBelow (41 + length (digits max) + max) (resync max m rest o)
resync-StopsBelow max m rest none = omega (arith, kept_short rest)
resync-StopsBelow max m rest (some from) =
    take_scanned-StopsBelow _ m from (scan_frame max from) (scan_frame-WaitsBelow max from)

round-StopsBelow :
    (max : ℕ) (m : DataFields) (synced : Bool) (rest : Bytes)
    → StopsBelow (41 + length (digits max) + max) (round max m synced rest)
unfolding round
round-StopsBelow max m synced [] = omega arith
round-StopsBelow max m true (b ∷ bs) =
    take_scanned-StopsBelow _ m (b ∷ bs) (scan_frame max (b ∷ bs))
      (scan_frame-WaitsBelow max (b ∷ bs))
round-StopsBelow max m false (b ∷ bs) = resync-StopsBelow max m (b ∷ bs) (after_marker (b ∷ bs))

left_short :
    (n bound : ℕ) (r : Round) (go : Bool → Bytes → List Item × Bool × Bytes)
    → LeavesBelow n r
    → StopsBelow bound r
    → ((synced : Bool) (rest : Bytes) → rounds synced rest < n → length (go synced rest).2 ≤ bound)
    → length (continue_with r go).2 ≤ bound
left_short n bound (stop synced rest) go leaves stops later = stops
left_short n bound (emit item synced rest) go leaves stops later = later synced rest leaves

feed_loop_bound :
    (fuel max : ℕ) (m : DataFields) (synced : Bool) (rest : Bytes)
    → rounds synced rest < fuel
    → length (feed_loop fuel max m synced rest).2 ≤ 41 + length (digits max) + max
unfolding feed_loop
feed_loop_bound zero max m synced rest enough = absurd (omega (arith, enough))
feed_loop_bound (suc fuel) max m synced rest enough =
    left_short (rounds synced rest) _ (round max m synced rest) (feed_loop fuel max m)
      (round-LeavesBelow max m synced rest) (round-StopsBelow max m synced rest)
      λ synced' rest' less. feed_loop_bound fuel max m synced' rest' (omega (arith, enough, less))

-- After `feed`, of any bytes on any parser, the buffer holds at most `max_buffered` bytes; in fact
-- at least three bytes less.
pub feed-buffer :
    (chunk : Bytes) (p : FixStreamParser) → length (feed chunk p).1.buffer + 3 ≤ max_buffered p
unfolding feed
feed-buffer chunk p = omega (
  arith,
  feed_loop_bound (suc (rounds p.synced (p.buffer ++ chunk))) p.max p.data_fields p.synced
      (p.buffer ++ chunk) (omega arith),
)
