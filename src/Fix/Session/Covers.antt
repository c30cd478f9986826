-- ===== src/Fix/Session/Covers.antt =====
-- src/ismet/fix/session.py: the answer to a ResendRequest accounts for every number once.
use ismet.Prelude.{
  ℕ, zero, suc, ◌+◌, ◌-◌, ◌≤◌, Bool, true, false, ◌||◌, Option, none, some, List, [], ◌∷◌, ◌++◌,
  ltb, ◌≡◌, refl, sym, ap, ◌∙◌, inl, inr, arith, Bool-cases, All, All-append, append-nil,
}
use ismet.Fix.Session.{FixSessionConfig, Effect, resent, gap_filled, Session}
use ismet.Fix.Session.Resend.{
  sends_again, close_gap, open_gap, resend_loop, resend_end, resend_effects, numbers_from, covered,
}

numbers_from-append :
    (a n m : ℕ) → numbers_from a (n + m) ≡ numbers_from a n ++ numbers_from (a + n) m
numbers_from-append a zero m =
    let none_left : 0 + m ≡ m = omega arith in
    let here : a + 0 ≡ a = omega arith in rw (none_left, here) refl
numbers_from-append a (suc n) m =
    let shift : suc n + m ≡ suc (n + m) = omega arith in
    let next : a + suc n ≡ suc a + n = omega arith in
    rw (shift, next) (ap (λ t. a ∷ t) (numbers_from-append (suc a) n m))

-- The first number of a gap that is open at `seq`, or `seq`.
abbrev from_gap : Option ℕ → ℕ → ℕ
from_gap none seq = seq
from_gap (some start) seq = start

abbrev IsBefore : Option ℕ → ℕ → Type 0
IsBefore none seq = Unit
IsBefore (some start) seq = start ≤ seq

-- An effect says of its numbers what `again` does.
abbrev pub IsHonest : (ℕ → Bool) → Effect → Type 0
IsHonest again (resent seq) = again seq ≡ true
IsHonest again (gap_filled seq new_seq) =
    All (λ n. again n ≡ false) (numbers_from seq (new_seq - seq))
IsHonest again e = Unit

covered-close_gap :
    (gap : Option ℕ) (seq : ℕ) (es : List Effect)
    → covered (close_gap gap seq es)
      ≡ numbers_from (from_gap gap seq) (seq - from_gap gap seq) ++ covered es
unfolding covered
covered-close_gap none seq es = let empty : seq - seq ≡ 0 = omega arith in rw (empty) refl
covered-close_gap (some start) seq es = refl

from-open_gap :
    (gap : Option ℕ) (seq : ℕ) → from_gap (open_gap gap seq) (suc seq) ≡ from_gap gap seq
from-open_gap none seq = refl
from-open_gap (some start) seq = refl

open_gap-IsBefore :
    (gap : Option ℕ) (seq : ℕ) → IsBefore gap seq → IsBefore (open_gap gap seq) (suc seq)
open_gap-IsBefore none seq h = omega arith
open_gap-IsBefore (some start) seq h = omega (arith, h)

from_below : (gap : Option ℕ) (seq : ℕ) → IsBefore gap seq → from_gap gap seq ≤ seq
from_below none seq h = omega arith
from_below (some start) seq h = h

covered-resend_loop :
    (again : ℕ → Bool) (count seq : ℕ) (gap : Option ℕ)
    → IsBefore gap seq
    → covered (resend_loop again count seq gap)
      ≡ numbers_from (from_gap gap seq) (seq - from_gap gap seq + count)
unfolding resend_loop covered
covered-resend_loop again zero seq gap before =
    let all : seq - from_gap gap seq + 0 ≡ seq - from_gap gap seq = omega arith in
    rw (all) (covered-close_gap gap seq [] ∙ append-nil _)
covered-resend_loop again (suc count) seq gap before = elim (Bool-cases (again seq)) [
  | inl e ↦
      let a = from_gap gap seq in
      let here : a + (seq - a) ≡ seq = omega (arith, from_below gap seq before) in
      let none_open : suc seq - suc seq + count ≡ count = omega arith in
      rw (e) (
        covered-close_gap gap seq (resent seq ∷ resend_loop again count (suc seq) none)
        ∙ ap (λ t. numbers_from a (seq - a) ++ (seq ∷ t))
            (covered-resend_loop again count (suc seq) none tt
              ∙ ap (numbers_from (suc seq)) none_open)
        ∙ ap (λ k. numbers_from a (seq - a) ++ numbers_from k (suc count)) (sym here)
        ∙ sym (numbers_from-append a (seq - a) (suc count)))
  | inr e ↦
      let a = from_gap gap seq in
      let same = from-open_gap gap seq in
      let more : suc seq - a + count ≡ seq - a + suc count =
        omega (arith, from_below gap seq before) in
      rw (e) (
        covered-resend_loop again count (suc seq) (open_gap gap seq)
          (open_gap-IsBefore gap seq before)
        ∙ ap (λ k. numbers_from k (suc seq - k + count)) same
        ∙ ap (numbers_from a) more)
]

-- Every number of a gap that is open at `seq` is not sent again.
IsHonestGap : (again : ℕ → Bool) (gap : Option ℕ) (seq : ℕ) → Type 0
IsHonestGap again gap seq =
    All (λ n. again n ≡ false) (numbers_from (from_gap gap seq) (seq - from_gap gap seq))

IsHonest-close :
    (again : ℕ → Bool) (gap : Option ℕ) (seq : ℕ) (es : List Effect)
    → IsHonestGap again gap seq
    → All (IsHonest again) es
    → All (IsHonest again) (close_gap gap seq es)
unfolding IsHonestGap
IsHonest-close again none seq es open_ rest = rest
IsHonest-close again (some start) seq es open_ rest = (open_, rest)

IsHonest-open :
    (again : ℕ → Bool) (gap : Option ℕ) (seq : ℕ)
    → IsBefore gap seq
    → again seq ≡ false
    → IsHonestGap again gap seq
    → IsHonestGap again (open_gap gap seq) (suc seq)
unfolding IsHonestGap
IsHonest-open again gap seq before e h =
    let a = from_gap gap seq in
    let one : suc seq - a ≡ seq - a + 1 = omega (arith, from_below gap seq before) in
    let here : a + (seq - a) ≡ seq = omega (arith, from_below gap seq before) in
    rw (from-open_gap gap seq, one, numbers_from-append a (seq - a) 1, here)
      (All-append (λ n. again n ≡ false) (numbers_from a (seq - a)) (numbers_from seq 1) h (e, tt))

IsHonest-none : (again : ℕ → Bool) (seq : ℕ) → IsHonestGap again none seq
unfolding IsHonestGap
IsHonest-none again seq = let empty : seq - seq ≡ 0 = omega arith in rw (empty) tt

resend_loop-IsHonest :
    (again : ℕ → Bool) (count seq : ℕ) (gap : Option ℕ)
    → IsBefore gap seq
    → IsHonestGap again gap seq
    → All (IsHonest again) (resend_loop again count seq gap)
unfolding resend_loop
resend_loop-IsHonest again zero seq gap before h = IsHonest-close again gap seq [] h tt
resend_loop-IsHonest again (suc count) seq gap before h = elim (Bool-cases (again seq)) [
  | inl e ↦ rw (e) (
      IsHonest-close again gap seq _ h
        (e, resend_loop-IsHonest again count (suc seq) none tt (IsHonest-none again (suc seq))))
  | inr e ↦ rw (e) (
      resend_loop-IsHonest again count (suc seq) (open_gap gap seq)
        (open_gap-IsBefore gap seq before) (IsHonest-open again gap seq before e h))
]

-- The answer to a ResendRequest for `begin` to `end`, where `begin` is not above the last number of
-- the answer: what it sends covers exactly the numbers from `begin` to that last one, each once
-- and in order; the messages that it sends again are stored and not stale, and every number that it
-- gap-fills is of a message that is not stored or is stale.
pub resend_exact :
    (config : FixSessionConfig) (now begin end : ℕ) (s : Session)
    → 1 ≤ begin
    → begin ≤ resend_end end (s.next_out - 1)
    → (covered (resend_effects config now begin end s)
        ≡ numbers_from begin (suc (resend_end end (s.next_out - 1)) - begin))
      × All (IsHonest (sends_again config now s.stored)) (resend_effects config now begin end s)
resend_exact config now begin end s h k =
    let again = sends_again config now s.stored in
    let last = resend_end end (s.next_out - 1) in
    let asked : (ltb begin 1 || ltb last begin) ≡ false = ground (arith, h, k) in
    let none_open : begin - begin + (suc last - begin) ≡ suc last - begin = omega arith in
    rw (asked) (
      covered-resend_loop again (suc last - begin) begin none tt
          ∙ ap (numbers_from begin) none_open,
      resend_loop-IsHonest again (suc last - begin) begin none tt (IsHonest-none again begin),
    )
