-- ===== src/Fix/Written.antt =====
-- src/ismet/fix/message.py: `_scan_frame` takes a whole frame of `encode_frame`, whatever follows it.
use ismet.Prelude.{
  ℕ, suc, ◌+◌, ◌/◌, ◌%◌, ◌≤◌, ◌<◌, true, false, [], ◌∷◌, ◌++◌, ◌≡◌, refl, sym, ap, ◌∙◌, arith,
  length, length-append, append_assoc, elem,
}
use ismet.Fix.Bytes.{Bytes, soh, take, drop, all_digits, isdigit, read, digits, three_digits}
use ismet.Fix.Bytes.Laws.{
  take-length, drop-length, drop-suc, drop-drop, elem-all_digits, read-digits, all_digits-digits,
  length-digits, leading-digits,
}
use ismet.Fix.Message.{is_begin_string, checksum, frame_head, with_trailer, trailer_prefix}
use ismet.Fix.Parse.{found, scan_frame, scan_length}
use ismet.Fix.Frames.{
  scan_frame_head, scan_length-digits, scan_digits-read, scan_body_parts, read-three_digits,
  isdigit-three_digits,
}

-- Where the body of such a frame starts.
abbrev pub start_of : Bytes → Bytes → ℕ
start_of begin_string body = length begin_string + 3 + 2 + length (digits (length body)) + 1

pub length-frame_head :
    (begin_string body : Bytes)
    → length (frame_head begin_string body) ≡ start_of begin_string body + length body
length-frame_head begin_string body = omega (
  arith,
  length-append begin_string (soh ∷ b'9' ∷ b'=' ∷ (digits (length body) ++ (soh ∷ body))),
  length-append (digits (length body)) (soh ∷ body),
)

frame_head-append :
    (begin_string body tail : Bytes)
    → frame_head begin_string body ++ tail
      ≡ b'8'
        ∷ b'='
        ∷ (begin_string ++ (soh ∷ b'9' ∷ b'=' ∷ (digits (length body) ++ (soh ∷ (body ++ tail)))))
frame_head-append begin_string body tail =
    let ds = digits (length body) in
    ap (λ t. b'8' ∷ b'=' ∷ t)
      (append_assoc begin_string (soh ∷ b'9' ∷ b'=' ∷ (ds ++ (soh ∷ body))) tail
        ∙ ap (λ t. begin_string ++ (soh ∷ b'9' ∷ b'=' ∷ t)) (append_assoc ds (soh ∷ body) tail))

isdigit-digits : (n : ℕ) → isdigit (digits n) ≡ true
isdigit-digits n =
    let (d, ds, same, big) = leading-digits n in
    ap isdigit same ∙ (ground (arith, ap all_digits (sym same) ∙ all_digits-digits n))

elem-isdigit : (ds : Bytes) → isdigit ds ≡ true → elem soh ds ≡ false
elem-isdigit [] h = refl
elem-isdigit (d ∷ ds) h = elem-all_digits soh (d ∷ ds) refl h

three_more :
    (begin_string : Bytes) → length begin_string + 3 ≡ suc (length (b'8' ∷ b'=' ∷ begin_string))
three_more begin_string = omega arith

-- The same of a buffer whose parts are in line.
scan_in_line :
    (max : ℕ) (buf begin_string ds rest more : Bytes) (d e f : ℕ)
    → buf
      ≡ b'8'
        ∷ b'='
        ∷ (begin_string
            ++ (soh
                ∷ b'9'
                ∷ b'='
                ∷ (ds
                    ++ (soh
                        ∷ b'3'
                        ∷ b'5'
                        ∷ b'='
                        ∷ (rest ++ (soh ∷ b'1' ∷ b'0' ∷ b'=' ∷ d ∷ e ∷ f ∷ soh ∷ more))))))
    → is_begin_string begin_string ≡ true
    → elem soh begin_string ≡ false
    → length begin_string ≤ 29
    → isdigit ds ≡ true
    → read ds ≡ length rest + 4
    → length rest + 4 ≤ max
    → length ds ≤ length (digits max)
    → isdigit (d ∷ e ∷ f ∷ []) ≡ true
    → read (d ∷ e ∷ f ∷ [])
      ≡ checksum (take (length begin_string + 3 + 2 + length ds + 1 + (length rest + 4)) buf)
    → scan_frame max buf
      ≡ found begin_string
          (length begin_string + 3 + 2 + length ds + 1)
          (length begin_string + 3 + 2 + length ds + 1 + (length rest + 4) + 7)
unfolding drop
scan_in_line max buf begin_string ds rest more d e f lined fits beside short numeric says small
      narrow three sums =
    let body : Bytes =
      b'3' ∷ b'5' ∷ b'=' ∷ (rest ++ (soh ∷ b'1' ∷ b'0' ∷ b'=' ∷ d ∷ e ∷ f ∷ soh ∷ more)) in
    let second : Bytes = b'9' ∷ b'=' ∷ (ds ++ (soh ∷ body)) in
    let start = length begin_string + 3 in
    let at_length : drop start buf ≡ second =
      ap (drop start) lined
      ∙ ap (λ k. drop k (b'8' ∷ b'=' ∷ (begin_string ++ (soh ∷ second)))) (three_more begin_string)
      ∙ drop-suc soh (b'8' ∷ b'=' ∷ begin_string) second in
    let at_digits : drop (start + 2) buf ≡ ds ++ (soh ∷ body) =
      drop-drop start 2 buf ∙ ap (drop 2) at_length in
    let one_more : length ds + 1 ≡ suc (length ds) = omega arith in
    let split : start + 2 + length ds + 1 ≡ start + 2 + (length ds + 1) = omega arith in
    let at_body : drop (start + 2 + length ds + 1) buf ≡ body =
      ap (λ k. drop k buf) split
      ∙ drop-drop (start + 2) (length ds + 1) buf
      ∙ ap (drop (length ds + 1)) at_digits
      ∙ ap (λ k. drop k (ds ++ (soh ∷ body))) one_more
      ∙ drop-suc soh ds body in
    ap (scan_frame max) lined
    ∙ scan_frame_head max begin_string second fits beside short
    ∙ ap (λ b. scan_length max b begin_string start) (sym lined)
    ∙ scan_length-digits max buf begin_string ds body start at_length (elem-isdigit ds numeric)
        narrow
    ∙ scan_digits-read max buf begin_string ds body (start + 2) at_digits numeric
        (omega (arith, says, small))
    ∙ scan_body_parts buf begin_string rest more (start + 2 + length ds + 1) (read ds) d e f says
        at_body three
        (sums ∙ ap (λ k. checksum (take (start + 2 + length ds + 1 + k) buf)) (sym says))
    ∙ ap (λ k. found begin_string (start + 2 + length ds + 1) (start + 2 + length ds + 1 + k + 7))
        says

-- A frame of `encode_frame` is found whole, with its BeginString and the place of its body, when
-- the BeginString has at most 29 bytes and the body fits the limit.
pub scan_frame-with_trailer :
    (max : ℕ) (begin_string rest more : Bytes)
    → is_begin_string begin_string ≡ true
    → elem soh begin_string ≡ false
    → length begin_string ≤ 29
    → length rest + 4 ≤ max
    → scan_frame max
        (with_trailer (frame_head begin_string (b'3' ∷ b'5' ∷ b'=' ∷ (rest ++ (soh ∷ [])))) ++ more)
      ≡ found begin_string (start_of begin_string (b'3' ∷ b'5' ∷ b'=' ∷ (rest ++ (soh ∷ [])))) (
          start_of begin_string (b'3' ∷ b'5' ∷ b'=' ∷ (rest ++ (soh ∷ []))) + (length rest + 4) + 7)
scan_frame-with_trailer max begin_string rest more fits beside short small =
    let body : Bytes = b'3' ∷ b'5' ∷ b'=' ∷ (rest ++ (soh ∷ [])) in
    let ds : Bytes = digits (length body) in
    let head : Bytes = frame_head begin_string body in
    let sums : ℕ = checksum head in
    let tail : Bytes = trailer_prefix ++ (three_digits sums ++ (soh ∷ more)) in
    let size : length body ≡ length rest + 4 = omega (arith, length-append rest (soh ∷ [])) in
    let buf : Bytes = with_trailer head ++ more in
    let glued : buf ≡ head ++ tail =
      append_assoc head (trailer_prefix ++ (three_digits sums ++ (soh ∷ []))) more in
    let after : Bytes = ds ++ (soh ∷ (body ++ tail)) in
    let lined : buf ≡ b'8' ∷ b'=' ∷ (begin_string ++ (soh ∷ b'9' ∷ b'=' ∷ after)) =
      glued ∙ frame_head-append begin_string body tail in
    let room : start_of begin_string body + (length rest + 4) ≡ length head =
      omega (arith, length-frame_head begin_string body, size) in
    let covered : take (start_of begin_string body + (length rest + 4)) buf ≡ head =
      ap (λ k. take k buf) room ∙ ap (take (length head)) glued ∙ take-length head tail in
    let low : sums < 1000 = ground arith in
    scan_in_line max buf begin_string ds rest more (b'0' + sums / 100) (b'0' + sums / 10 % 10)
      (b'0' + sums % 10)
      (lined
        ∙ ap
            (λ t.
              b'8'
              ∷ b'='
              ∷ (begin_string ++ (soh ∷ b'9' ∷ b'=' ∷ (ds ++ (soh ∷ b'3' ∷ b'5' ∷ b'=' ∷ t)))))
            (append_assoc rest (soh ∷ []) tail))
      fits beside short (isdigit-digits (length body)) (read-digits (length body) ∙ size) small
      (length-digits (length body) max (omega (arith, small, size))) (isdigit-three_digits sums low)
      (read-three_digits sums low ∙ ap checksum (sym covered))

lead-append :
    (begin_string ds xs : Bytes)
    → (b'8' ∷ b'=' ∷ (begin_string ++ (soh ∷ b'9' ∷ b'=' ∷ (ds ++ (soh ∷ []))))) ++ xs
      ≡ b'8' ∷ b'=' ∷ (begin_string ++ (soh ∷ b'9' ∷ b'=' ∷ (ds ++ (soh ∷ xs))))
lead-append begin_string ds xs =
    ap (λ t. b'8' ∷ b'=' ∷ t)
      (append_assoc begin_string (soh ∷ b'9' ∷ b'=' ∷ (ds ++ (soh ∷ []))) xs
        ∙ ap (λ t. begin_string ++ (soh ∷ b'9' ∷ b'=' ∷ t)) (append_assoc ds (soh ∷ []) xs))

-- Its body stands at the place that was found.
pub drop-start_of :
    (begin_string body tail : Bytes)
    → drop (start_of begin_string body) (frame_head begin_string body ++ tail) ≡ body ++ tail
drop-start_of begin_string body tail =
    let ds : Bytes = digits (length body) in
    let lead : Bytes = b'8' ∷ b'=' ∷ (begin_string ++ (soh ∷ b'9' ∷ b'=' ∷ (ds ++ (soh ∷ [])))) in
    let lined : frame_head begin_string body ++ tail ≡ lead ++ (body ++ tail) =
      frame_head-append begin_string body tail ∙ sym (lead-append begin_string ds (body ++ tail)) in
    let size : start_of begin_string body ≡ length lead = omega (
      arith,
      length-append begin_string (soh ∷ b'9' ∷ b'=' ∷ (ds ++ (soh ∷ []))),
      length-append ds (soh ∷ []),
    ) in
    ap (drop (start_of begin_string body)) lined
    ∙ ap (λ k. drop k (lead ++ (body ++ tail))) size
    ∙ drop-length lead (body ++ tail)
