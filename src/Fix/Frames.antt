-- ===== src/Fix/Frames.antt =====
-- src/ismet/fix/message.py: what `_scan_frame` makes of a frame that `encode_frame` wrote.
use ismet.Prelude.{
  ℕ, suc, ◌+◌, ◌-◌, ◌≤◌, ◌<◌, true, false, [], ◌∷◌, ◌++◌, ◌≡◌, refl, ap, ◌∙◌, arith, length, elem,
}
use ismet.Fix.Bytes.{
  Bytes, soh, take, drop, holds_at, starts_with, isdigit, read, digits, three_digits, read_from,
}
use ismet.Fix.Bytes.Laws.{
  take-length, length-drop, drop-suc, drop-drop, find-take, holds_at-append, holds_at-drop,
}
use ismet.Fix.Message.{is_begin_string, checksum}
use ismet.Fix.Parse.{found, scan_frame, scan_length, scan_digits, scan_body}

pub scan_frame_head :
    (max : ℕ) (begin_string rest : Bytes)
    → is_begin_string begin_string ≡ true
    → elem soh begin_string ≡ false
    → length begin_string ≤ 29
    → scan_frame max (b'8' ∷ b'=' ∷ (begin_string ++ (soh ∷ rest)))
      ≡ scan_length max
          (b'8' ∷ b'=' ∷ (begin_string ++ (soh ∷ rest)))
          begin_string
          (length begin_string + 3)
unfolding scan_frame take drop starts_with
scan_frame_head max begin_string rest fits beside short =
    rw
      (
        find-take soh 30 begin_string rest beside (omega (arith, short)),
        take-length begin_string (soh ∷ rest),
        fits,
      )
      (ground arith)

pub scan_length-digits :
    (max : ℕ) (buf begin_string ds rest : Bytes) (start : ℕ)
    → drop start buf ≡ b'9' ∷ b'=' ∷ (ds ++ (soh ∷ rest))
    → elem soh ds ≡ false
    → length ds ≤ length (digits max)
    → scan_length max buf begin_string start
      ≡ scan_digits max buf begin_string (start + 2) (length ds)
unfolding scan_length take drop starts_with
scan_length-digits max buf begin_string ds rest start here beside short =
    let after : drop (start + 2) buf ≡ ds ++ (soh ∷ rest) =
      drop-drop start 2 buf ∙ ap (drop 2) here in
    rw (here, after, find-take soh (length (digits max) + 1) ds rest beside (omega (arith, short)))
      refl

pub scan_digits-read :
    (max : ℕ) (buf begin_string ds rest : Bytes) (start : ℕ)
    → drop start buf ≡ ds ++ (soh ∷ rest)
    → isdigit ds ≡ true
    → read ds ≤ max
    → scan_digits max buf begin_string start (length ds)
      ≡ scan_body buf begin_string (start + length ds + 1) (read ds)
unfolding scan_digits
scan_digits-read max buf begin_string ds rest start here numeric small =
    rw (here, take-length ds (soh ∷ rest), numeric) (ground (arith, small))

pub read-three_digits : (n : ℕ) → n < 1000 → read (three_digits n) ≡ n
unfolding read_from
read-three_digits n h = ground (arith, h)

pub isdigit-three_digits : (n : ℕ) → n < 1000 → isdigit (three_digits n) ≡ true
isdigit-three_digits n h = ground (arith, h)

-- The parts of a frame whose body starts at `start`, read from there.
pub scan_body_parts :
    (buf begin_string rest more : Bytes) (start n d e f : ℕ)
    → n ≡ length rest + 4
    → drop start buf
      ≡ b'3' ∷ b'5' ∷ b'=' ∷ (rest ++ (soh ∷ b'1' ∷ b'0' ∷ b'=' ∷ d ∷ e ∷ f ∷ soh ∷ more))
    → isdigit (d ∷ e ∷ f ∷ []) ≡ true
    → read (d ∷ e ∷ f ∷ []) ≡ checksum (take (start + n) buf)
    → scan_body buf begin_string start n ≡ found begin_string start (start + n + 7)
unfolding scan_body take drop starts_with holds_at
scan_body_parts buf begin_string rest more start n d e f size here numeric sums =
    let front : Bytes = b'3' ∷ b'5' ∷ b'=' ∷ rest in
    let tail : Bytes = b'1' ∷ b'0' ∷ b'=' ∷ d ∷ e ∷ f ∷ soh ∷ more in
    let whole : n ≡ suc (length front) = omega (arith, size) in
    let after : drop (start + n) buf ≡ tail =
      drop-drop start n buf
      ∙ ap (drop n) here
      ∙ ap (λ k. drop k (front ++ (soh ∷ tail))) whole
      ∙ drop-suc soh front tail in
    let before : start + n - 1 ≡ start + length front = omega (arith, size) in
    let last : holds_at (start + n - 1) soh buf ≡ true =
      ap (λ k. holds_at k soh buf) before
      ∙ holds_at-drop start (length front) soh buf
      ∙ ap (holds_at (length front) soh) here
      ∙ holds_at-append soh front tail in
    let six : start + n + 7 - 1 ≡ start + n + 6 = omega arith in
    let closed : holds_at (start + n + 7 - 1) soh buf ≡ true =
      ap (λ k. holds_at k soh buf) six
      ∙ holds_at-drop (start + n) 6 soh buf
      ∙ ap (holds_at 6 soh) after in
    let declared : take 3 (drop (start + n + 3) buf) ≡ d ∷ e ∷ f ∷ [] =
      ap (take 3) (drop-drop (start + n) 3 buf ∙ ap (drop 3) after) in
    let long : start + n + 7 ≤ length buf =
      omega (arith, length-drop (start + n) buf, ap length after) in
    rw (here, after, declared, numeric, last, closed) (ground (arith, long, sums))
