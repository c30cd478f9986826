-- ===== src/Fix/Stream/Messages.antt =====
-- src/ismet/fix/message.py: what `feed` makes of the frames that `encode` wrote, one after another.
use mathlib.Core.Path.{subst}
use ismet.Fix.Integrity.{SealedWhen, scan_frame-IsSealed}
use ismet.Prelude.{
  ℕ, zero, suc, ◌≤◌, ◌<◌, Bool, true, ◌&&◌, none, List, [], ◌∷◌, ◌++◌, leb, length, ◌≡◌, refl, sym,
  ap, ◌∙◌, arith, map, length-append,
}
use ismet.Fix.Bytes.{Bytes, take, starts_with}
use ismet.Fix.Bytes.Laws.{drop-length}
use ismet.Fix.Message.{
  Coded, ok, refused, DataFields, FieldValue, and_then, encode, encode_fields, encode_frame,
}
use ismet.Fix.Parse.{found, scan_frame, parse_fields, body_of}
use ismet.Fix.Results.{and_then_parts, ok_injective}
use ismet.Fix.Fields.{texts, all_readable, parse_fields-encode_fields}
use ismet.Fix.Codec.{found_written}
use ismet.Fix.Written.{start_of}
use ismet.Fix.Stream.{
  Item, message, emit, take_fields, take_scanned, round, continue_with, feed_loop, rounds, fresh,
  feed,
}

abbrev pub Outgoing : Type 0
Outgoing = Bytes × List (ℕ × FieldValue)

-- The frames of the messages, one after another.
abbrev pub encode_all : DataFields → List Outgoing → Coded Bytes
encode_all m [] = ok []
encode_all m ((begin_string, fields) ∷ messages) =
    and_then (encode m begin_string fields)
      λ frame. and_then (encode_all m messages) λ frames. ok (frame ++ frames)

abbrev pub within : ℕ → Coded Bytes → Bool
within max (ok body) = leb (length body) max
within max (refused e) = true

-- A message whose fields are readable, whose BeginString has at most 29 bytes, and whose body fits.
abbrev pub all_sendable : ℕ → DataFields → List Outgoing → Bool
all_sendable max m [] = true
all_sendable max m ((begin_string, fields) ∷ messages) =
    all_readable m (texts fields)
    && leb (length begin_string) 29
    && within max (encode_fields m fields)
    && all_sendable max m messages

abbrev pub received : Outgoing → Item
received (begin_string, fields) =
    message (record { begin_string = begin_string; fields = texts fields; defect = none })

round-found :
    (max : ℕ) (m : DataFields) (xs name : Bytes) (s e : ℕ)
    → scan_frame max xs ≡ found name s e
    → round max m true xs ≡ take_fields xs name e (parse_fields m (body_of xs s e))
unfolding round scan_frame starts_with take
round-found max m [] name s e h = absurd (ground (arith, h))
round-found max m (x ∷ xs) name s e h = ap (take_scanned m (x ∷ xs)) h

-- A frame at the start of the buffer is taken in one round.
round_written :
    (max : ℕ) (m : DataFields) (begin_string : Bytes) (fields : List (ℕ × FieldValue))
    (body frame more : Bytes)
    → all_readable m (texts fields) ≡ true
    → encode_fields m fields ≡ ok body
    → encode_frame begin_string body ≡ ok frame
    → length begin_string ≤ 29
    → length body ≤ max
    → (round max m true (frame ++ more) ≡ emit (received (begin_string, fields)) true more)
      × (7 ≤ length frame)
round_written max m begin_string fields body frame more readable coded framed short small =
    let (scanned, placed) =
      found_written max m begin_string fields body frame more coded framed short small in
    let buf = frame ++ more in
    let seal : SealedWhen buf (found begin_string (start_of begin_string body) (length frame)) =
      subst (SealedWhen buf) scanned (scan_frame-IsSealed max buf) in
    (
      round-found max m buf begin_string (start_of begin_string body) (length frame) scanned
          ∙ ap (λ b. take_fields buf begin_string (length frame) (parse_fields m b)) placed
          ∙ ap (take_fields buf begin_string (length frame))
              (parse_fields-encode_fields m fields body readable coded)
          ∙ ap (emit (received (begin_string, fields)) true) (drop-length frame more),
      seal.0.room,
    )

feed_loop-encode_all :
    (max : ℕ) (m : DataFields) (messages : List Outgoing) (bytes : Bytes) (fuel : ℕ)
    → all_sendable max m messages ≡ true
    → encode_all m messages ≡ ok bytes
    → length bytes < fuel
    → feed_loop fuel max m true bytes ≡ (map received messages, true, [])
unfolding feed_loop round encode
feed_loop-encode_all max m messages bytes zero fit h enough = absurd (omega (arith, enough))
feed_loop-encode_all max m [] bytes (suc fuel) fit h enough = rw (← ok_injective [] bytes h) refl
feed_loop-encode_all max m ((begin_string, fields) ∷ messages) bytes (suc fuel) fit h enough =
    let (frame, written, later) = and_then_parts (encode m begin_string fields) _ bytes h in
    let (frames, rest, glued) = and_then_parts (encode_all m messages) _ bytes later in
    let (body, coded, framed) = and_then_parts (encode_fields m fields) _ frame written in
    let whole : frame ++ frames ≡ bytes = ok_injective _ _ glued in
    let small : leb (length body) max ≡ true = ap (within max) (sym coded) ∙ ground (arith, fit) in
    let (taken, long) =
      round_written max m begin_string fields body frame frames (ground (arith, fit)) coded framed
        (ground (arith, fit)) (ground (arith, small)) in
    let less : length frames < fuel =
      omega (arith, enough, ap length (sym whole), length-append frame frames, long) in
    ap (λ r. continue_with r (feed_loop fuel max m)) (ap (round max m true) (sym whole) ∙ taken)
    ∙ ap (λ q. let (items, s, r) = q in (received (begin_string, fields) ∷ items, s, r))
        (feed_loop-encode_all max m messages frames fuel (ground (arith, fit)) rest less)

-- Frames that `encode` wrote, one after another, are fed to a parser as `__init__` makes it: it gives
-- exactly these messages, in their order, and is left as it was. Each message's fields are readable,
-- its BeginString has at most 29 bytes and its body fits the parser's limit.
pub feed-encode_all :
    (max : ℕ) (m : DataFields) (messages : List Outgoing) (bytes : Bytes)
    → all_sendable max m messages ≡ true
    → encode_all m messages ≡ ok bytes
    → feed bytes (fresh max m) ≡ (map received messages, fresh max m)
unfolding feed
feed-encode_all max m messages bytes fit h =
    ap (λ q. (q.0, record (fresh max m) { buffer = q.2; synced = q.1 }))
      (feed_loop-encode_all max m messages bytes (suc (rounds true bytes)) fit h (omega arith))
