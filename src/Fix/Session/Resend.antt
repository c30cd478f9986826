-- ===== src/Fix/Session/Resend.antt =====
-- src/ismet/fix/session.py: `_resend`, the answer to a ResendRequest.
use ismet.Prelude.{
  ℕ, zero, suc, ◌-◌, Bool, false, not, ◌||◌, Option, none, some, List, [], ◌∷◌, ◌++◌, ltb, ◌==◌,
  if◌then◌else◌,
}
use ismet.Fix.Session.{FixSessionConfig, StoredMessage, Effect, resent, gap_filled, Session}

-- `stored.get(seq)`
unfoldable pub find_stored : ℕ → List StoredMessage → Option StoredMessage
find_stored seq [] = none
find_stored seq (r ∷ records) = if r.seq == seq then some r else find_stored seq records

-- `_is_stale`
abbrev pub is_stale : FixSessionConfig → ℕ → StoredMessage → Bool
is_stale config now r = ltb config.stale_resend_after (now - r.sent_at)

abbrev pub is_fresh : FixSessionConfig → ℕ → Option StoredMessage → Bool
is_fresh config now none = false
is_fresh config now (some r) = not (is_stale config now r)

-- Whether the message of a number is sent again.
abbrev pub sends_again : FixSessionConfig → ℕ → List StoredMessage → ℕ → Bool
sends_again config now records seq = is_fresh config now (find_stored seq records)

abbrev pub close_gap : Option ℕ → ℕ → List Effect → List Effect
close_gap none seq rest = rest
close_gap (some start) seq rest = gap_filled start seq ∷ rest

abbrev pub open_gap : Option ℕ → ℕ → Option ℕ
open_gap none seq = some seq
open_gap (some start) seq = some start

-- The loop of `_resend`, over the `count` numbers from `seq` on: what it writes, the first first.
-- `again` tells which messages are sent again, and `gap` is `gap_start`.
unfoldable pub resend_loop : (ℕ → Bool) → ℕ → ℕ → Option ℕ → List Effect
resend_loop again zero seq gap = close_gap gap seq []
resend_loop again (suc count) seq gap =
    if again seq
    then close_gap gap seq (resent seq ∷ resend_loop again count (suc seq) none)
    else resend_loop again count (suc seq) (open_gap gap seq)

unfoldable pub log_all : List Effect → Session → Session
log_all [] s = s
log_all (e ∷ es) s = log_all es (record s { log = e ∷ s.log })

-- The last number of the answer.
abbrev pub resend_end : ℕ → ℕ → ℕ
resend_end end last = if end == 0 || ltb last end then last else end

abbrev pub resend_effects : FixSessionConfig → ℕ → ℕ → ℕ → Session → List Effect
resend_effects config now begin end s =
    let last = resend_end end (s.next_out - 1) in
    if ltb begin 1 || ltb last begin
    then []
    else resend_loop (sends_again config now s.stored) (suc last - begin) begin none

-- `_resend`
abbrev pub resend : FixSessionConfig → ℕ → ℕ → ℕ → Session → Session
resend config now begin end s = log_all (resend_effects config now begin end s) s

-- The numbers from `seq` on.
abbrev pub numbers_from : ℕ → ℕ → List ℕ
numbers_from seq zero = []
numbers_from seq (suc count) = seq ∷ numbers_from (suc seq) count

-- The numbers that a peer has read after the effects.
unfoldable pub covered : List Effect → List ℕ
covered [] = []
covered (resent seq ∷ es) = seq ∷ covered es
covered (gap_filled seq new_seq ∷ es) = numbers_from seq (new_seq - seq) ++ covered es
covered (e ∷ es) = covered es
