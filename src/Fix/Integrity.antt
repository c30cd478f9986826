-- ===== src/Fix/Integrity.antt =====
-- src/ismet/fix/message.py: what `_scan_frame` has checked of a frame that it takes.
use mathlib.Core.Path.{subst}
use ismet.Prelude.{
  ℕ, suc, ◌+◌, ◌-◌, ◌%◌, ◌≤◌, ◌<◌, Bool, true, false, not, ◌&&◌, Option, none, some, ◌∷◌, ◌++◌, ltb,
  leb, ◌==◌, ◌≡◌, ◌≢◌, refl, sym, ap, ◌∙◌, arith, length, length-append, if◌then◌else◌,
}
use ismet.Fix.Bytes.{
  Bytes, soh, take, drop, starts_with, holds_at, isdigit, digits, read, sum, is_empty,
}
use ismet.Fix.Bytes.Laws.{sum-append, take-append, drop-drop, drop-length}
use ismet.Fix.Results.{refusal_parts}
use ismet.Fix.Message.{
  Garbled, ok, DataFields, is_begin_string, checksum, type_prefix, trailer_prefix, begin_prefix,
  length_prefix,
}
use ismet.Fix.Parse.{
  Scanned, found, need_more, bad, scan_frame, past_length, past_begin, scan_length, scan_digits,
  scan_body, FixMessage, accept, decode,
}

abbrev found_or : Scanned → Bool
found_or (found b s e) = true
found_or _ = false

abbrev end_or : Scanned → ℕ
end_or (found b s e) = e
end_or _ = 0

-- What holds of the frame that ends at `e`.
pub record IsSealed (buf : Bytes) (e : ℕ) : Type 0 where
  pub room : 7 ≤ e
  pub inside : e ≤ length buf
  pub sums : read (take 3 (drop (e - 7 + 3) buf)) ≡ checksum (take (e - 7) buf)

abbrev pub SealedWhen : Bytes → Scanned → Type 0
SealedWhen buf (found b s e) = IsSealed buf e × (s + 7 ≤ e)
SealedWhen buf _ = Unit

-- Only what follows a failed test can be a frame.
past_bad :
    (t : Bool) (g : Garbled) (buf : Bytes) (r : Scanned)
    → (t ≡ false → SealedWhen buf r)
    → SealedWhen buf (if t then bad g else r)
past_bad true g buf r h = tt
past_bad false g buf r h = h refl

past_wait :
    (t : Bool) (buf : Bytes) (r : Scanned)
    → (t ≡ false → SealedWhen buf r)
    → SealedWhen buf (if t then need_more else r)
past_wait true buf r h = tt
past_wait false buf r h = h refl

scan_body-IsSealed : (buf name : Bytes) (start n : ℕ) → SealedWhen buf (scan_body buf name start n)
unfolding scan_body
scan_body-IsSealed buf name start n =
    past_bad (not (starts_with type_prefix (take 3 (drop start buf)))) _ buf _ λ _.
      past_wait (ltb (length buf) (start + n + 7)) buf _ λ long.
        past_bad (not (holds_at (start + n - 1) soh buf)) _ buf _ λ _.
          past_bad
            (not (
              starts_with (drop (start + n) buf) trailer_prefix
              && holds_at (start + n + 7 - 1) soh buf))
            _ buf _
            λ _. past_bad (not (isdigit (take 3 (drop (start + n + 3) buf)))) _ buf _ λ _.
              past_bad
                (not (read (take 3 (drop (start + n + 3) buf)) == checksum (take (start + n) buf)))
                _ buf _
                λ sums.
                  let back : start + n + 7 - 7 ≡ start + n = omega arith in
                  (
                    record {
                      room = omega arith;
                      inside = ground (arith, long);
                      sums = rw (back) (ground (arith, sums));
                    },
                    omega arith,
                  )

scan_digits-IsSealed :
    (max : ℕ) (buf name : Bytes) (start n : ℕ) → SealedWhen buf (scan_digits max buf name start n)
unfolding scan_digits
scan_digits-IsSealed max buf name start n =
    past_bad (not (isdigit (take n (drop start buf)))) _ buf _ λ _.
      past_bad (ltb max (read (take n (drop start buf)))) _ buf _
        λ _. scan_body-IsSealed buf name _ _

past_length-IsSealed :
    (max : ℕ) (buf name : Bytes) (start : ℕ) (o : Option ℕ)
    → SealedWhen buf (past_length max buf name start o)
past_length-IsSealed max buf name start (some n) = scan_digits-IsSealed max buf name start n
past_length-IsSealed max buf name start none =
    let rest = drop start buf in
    past_bad (leb (length (digits max) + 1) (length rest)) _ buf _
      λ _. past_bad (not (isdigit rest) && not (is_empty rest)) _ buf _ λ _. tt

past_begin-IsSealed : (max : ℕ) (buf : Bytes) (o : Option ℕ) → SealedWhen buf (past_begin max buf o)
unfolding scan_length
past_begin-IsSealed max buf none = past_bad (leb 32 (length buf)) _ buf _ λ _. tt
past_begin-IsSealed max buf (some n) =
    let name = take n (drop 2 buf) in
    past_bad (not (is_begin_string name)) _ buf _ λ _.
      past_bad (not (starts_with length_prefix (take 2 (drop (n + 3) buf)))) _ buf _ λ _.
        past_wait (ltb (length (take 2 (drop (n + 3) buf))) 2) buf _
          λ _. past_length-IsSealed max buf name (n + 3 + 2) _

-- A frame that is found lies in the buffer and has the checksum that it declares.
pub scan_frame-IsSealed : (max : ℕ) (buf : Bytes) → SealedWhen buf (scan_frame max buf)
unfolding scan_frame
scan_frame-IsSealed max buf =
    past_bad (not (starts_with begin_prefix (take 2 buf))) _ buf _
      λ _. past_wait (ltb (length buf) 2) buf _ λ _. past_begin-IsSealed max buf _

accept-IsSealed :
    (m : DataFields) (frame : Bytes) (r : Scanned) (message : FixMessage)
    → SealedWhen frame r
    → accept m frame r ≡ ok message
    → IsSealed frame (length frame)
accept-IsSealed m frame (bad g) message seal h = absurd (ground (arith, h))
accept-IsSealed m frame need_more message seal h = absurd (ground (arith, h))
accept-IsSealed m frame (found b s e) message seal h =
    let (ends, later) = refusal_parts (not (e == length frame)) _ _ message h in
    subst (IsSealed frame) (ground (arith, ends)) seal.0

-- A frame that `decode` takes ends where its CheckSum does.
decode-IsSealed :
    (max : ℕ) (m : DataFields) (frame : Bytes) (message : FixMessage)
    → decode max m frame ≡ ok message
    → IsSealed frame (length frame)
unfolding decode
decode-IsSealed max m frame message =
    accept-IsSealed m frame (scan_frame max frame) message (scan_frame-IsSealed max frame)

-- What the checksum of a frame sums, around one of its bytes.
sealed_sums :
    (front back : Bytes) (x : ℕ)
    → 7 ≤ length back
    → IsSealed (front ++ x ∷ back) (length (front ++ x ∷ back))
    → read (take 3 (drop (length back - 4) back))
      ≡ (sum front + (x + sum (take (length back - 7) back))) % 256
unfolding take drop sum
sealed_sums front back x before seal =
    let j = length back - 7 in
    let size : length (front ++ x ∷ back) ≡ length front + suc (length back) =
      length-append front (x ∷ back) in
    let covered : length (front ++ x ∷ back) - 7 ≡ length front + suc j =
      omega (arith, size, before) in
    let rest : length (front ++ x ∷ back) - 7 + 3 ≡ length front + suc (length back - 4) =
      omega (arith, size, before) in
    let declared : drop (length (front ++ x ∷ back) - 7 + 3) (front ++ x ∷ back)
        ≡ drop (length back - 4) back =
      ap (λ k. drop k (front ++ x ∷ back)) rest
      ∙ drop-drop (length front) (suc (length back - 4)) (front ++ x ∷ back)
      ∙ ap (drop (suc (length back - 4))) (drop-length front (x ∷ back)) in
    let summed : sum (take (length (front ++ x ∷ back) - 7) (front ++ x ∷ back))
        ≡ sum front + (x + sum (take j back)) =
      ap (λ k. sum (take k (front ++ x ∷ back))) covered
      ∙ ap sum (take-append front (x ∷ back) (suc j))
      ∙ sum-append front (x ∷ take j back) in
    ap (λ t. read (take 3 t)) (sym declared) ∙ seal.sums ∙ ap (λ t. t % 256) summed

-- `decode` refuses a frame that differs from one it takes in one byte before the CheckSum field.
pub decode_one_byte :
    (max : ℕ) (m : DataFields) (front back : Bytes) (x y : ℕ) (message other : FixMessage)
    → x < 256
    → y < 256
    → x ≢ y
    → 7 ≤ length back
    → decode max m (front ++ x ∷ back) ≡ ok message
    → decode max m (front ++ y ∷ back) ≢ ok other
decode_one_byte max m front back x y message other h k differ before takes again =
    let first = sealed_sums front back x before (decode-IsSealed max m _ message takes) in
    let second = sealed_sums front back y before (decode-IsSealed max m _ other again) in
    differ (omega (arith, h, k, first, second))
