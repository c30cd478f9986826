-- ===== src/Fix/Session/Handled.antt =====
-- src/ismet/fix/session.py: the whole of `_handle`, and runs of it.
use mathlib.Core.Path.{subst}
use ismet.Prelude.{
  ℕ, ◌≤◌, Bool, true, false, not, ◌&&◌, ◌||◌, Option, none, some, List, [], ◌∷◌, ◌==◌, ◌≡◌, ◌≢◌,
  sym, inl, inr, arith, Bool-cases,
}
use ismet.Fix.Bytes.{Bytes}
use ismet.Fix.Message.{same_bytes}
use ismet.Fix.Parse.{FixMessage}
use ismet.Fix.Session.{
  advance_to, logout, Session, is_none, Step, running, ended, session_of, is_logon_sent,
  is_logout_sent,
}
use ismet.Fix.Session.Inbound.{
  Surroundings, get, msg_type, is_text, is_set, read_number, check_time, check_sending_time,
  too_far, on_logon_with_reset, on_logon_confirmed, after_logon,
}
use ismet.Fix.Session.Handle.{
  is_gap_fill, is_logout, is_logon, handle_timed, past_check, or_zero, handle,
}
use ismet.Fix.Session.Quiet.{deliveries, IsQuiet-refl, send_admin-IsQuiet}
use ismet.Fix.Session.Quietly.{refuse-IsQuiet, reset_to-IsQuiet}
use ismet.Fix.Session.Delivery.{
  IsSound, IsFaithful, quiet-IsFaithful, obey_peer_reset-IsFaithful, own_reset-IsFaithful,
}
use ismet.Fix.Session.Numbered.{either, number-IsFaithful, confirmed-IsQuiet, terminate_after}

-- Whether a message is a Logon with ResetSeqNumFlag.
abbrev pub resets : FixMessage → Bool
resets message = is_logon (msg_type message) && is_set message 141

one : {n : ℕ} → not (n == 1) ≡ false → n ≡ 1
one h = ground (arith, h)

logon_with_reset-IsFaithful :
    (e : Surroundings) (seq : ℕ) (s : Session)
    → IsFaithful seq true s (session_of (on_logon_with_reset e seq s))
unfolding on_logon_with_reset
logon_with_reset-IsFaithful e seq s =
    either (not (seq == 1)) seq true s _ _
      (λ _. quiet-IsFaithful seq true s _ (terminate_after s _ (send_admin-IsQuiet _ s)))
      λ first.
        either (not (is_none s.reset_awaiting_confirmation) && is_logon_sent s.state) seq true s _ _
          (λ asked.
            subst (λ n. IsFaithful n true s (after_logon (on_logon_confirmed (advance_to 2 s))))
              (sym (one first))
              (own_reset-IsFaithful s (ground (arith, asked)) (ground (arith, asked))))
          (λ _. obey_peer_reset-IsFaithful e seq s)

timed-IsFaithful :
    (e : Surroundings) (message : FixMessage) (seq time : ℕ) (s : Session)
    → IsFaithful seq (resets message) s (session_of (handle_timed e message seq time s))
unfolding handle_timed
timed-IsFaithful e message seq time s =
    let t = msg_type message in
    let r = resets message in
    either (is_logout_sent s.state && is_logout t) seq r s _ _
      (λ _. quiet-IsFaithful seq r s _ (confirmed-IsQuiet seq s))
      λ _.
        either (is_logon_sent s.state && is_logout t) seq r s _ _
          (λ _. quiet-IsFaithful seq r s s (IsQuiet-refl s))
          λ _.
            either (is_logon_sent s.state && not (is_logon t)) seq r s _ _
              (λ _. quiet-IsFaithful seq r s _ (send_admin-IsQuiet logout s))
              λ joined.
                either (is_logon t && is_set message 141) seq r s _ _
                  (λ flag.
                    subst (λ b. IsFaithful seq b s (session_of (on_logon_with_reset e seq s)))
                      (sym flag) (logon_with_reset-IsFaithful e seq s))
                  λ _.
                    either (is_gap_fill t && not (is_set message 123)) seq r s _ _
                      (λ _.
                        quiet-IsFaithful seq r s _
                          (reset_to-IsQuiet e seq (read_number message 36) s))
                      (λ _. number-IsFaithful e message seq time r s joined)

time-IsFaithful :
    (e : Surroundings) (message : FixMessage) (seq : ℕ) (s : Session) (o : Option ℕ)
    → IsFaithful seq
        (resets message)
        s
        (session_of (past_check e message seq s (check_time e message seq s o)))
time-IsFaithful e message seq s none =
    quiet-IsFaithful seq (resets message) s _
      (terminate_after s _ (refuse-IsQuiet e message seq 10 (some 52) (seq == s.next_in) s))
time-IsFaithful e message seq s (some t) =
    elim (Bool-cases (too_far e.now t e.config.max_sending_time_skew)) [
      | inl k ↦ rw (k) (
          quiet-IsFaithful seq (resets message) s _
            (terminate_after s _ (refuse-IsQuiet e message seq 10 (some 52) (seq == s.next_in) s)))
      | inr k ↦ rw (k) (timed-IsFaithful e message seq t s)
    ]

sending_time-IsFaithful :
    (e : Surroundings) (message : FixMessage) (seq : ℕ) (s : Session) (o : Option Bytes)
    → IsFaithful seq
        (resets message)
        s
        (session_of (past_check e message seq s (check_sending_time e message seq s o)))
sending_time-IsFaithful e message seq s none =
    quiet-IsFaithful seq (resets message) s _
      (refuse-IsQuiet e message seq 1 (some 52) (seq == s.next_in) s)
sending_time-IsFaithful e message seq s (some raw) =
    time-IsFaithful e message seq s (e.read_time raw)

handle-IsFaithful :
    (e : Surroundings) (message : FixMessage) (s : Session)
    → IsFaithful
        (or_zero (read_number message 34))
        (resets message)
        s
        (session_of (handle e message s))
unfolding handle
handle-IsFaithful e message s =
    let seq = or_zero (read_number message 34) in
    let r = resets message in
    let out = quiet-IsFaithful seq r s _ (send_admin-IsQuiet logout s) in
    either (not (same_bytes message.begin_string e.config.begin_string)) seq r s _ _ (λ _. out)
      λ _.
        either (seq == 0) seq r s _ _ (λ _. out)
          λ _.
            either
              (not (is_text (get message 49) e.config.target_comp_id)
                || not (is_text (get message 56) e.config.sender_comp_id))
              seq r s _ _
              (λ _.
                quiet-IsFaithful seq r s _
                  (terminate_after s _ (refuse-IsQuiet e message seq 9 none (seq == s.next_in) s)))
              (λ _. sending_time-IsFaithful e message seq s (get message 52))

-- In any session, a message whose number is not the expected one, whether it is late, a duplicate or
-- ahead of a gap, is not handed to the application: the numbers of the messages that it took or
-- failed on stay as they were.
pub expected_only :
    (e : Surroundings) (message : FixMessage) (s : Session)
    → or_zero (read_number message 34) ≢ s.next_in
    → deliveries (session_of (handle e message s)).log ≡ deliveries s.log
expected_only e message s = (handle-IsFaithful e message s).same

-- In any session, no message lowers the expected number, but a Logon with ResetSeqNumFlag.
pub never_lower :
    (e : Surroundings) (message : FixMessage) (s : Session)
    → resets message ≡ false
    → s.next_in ≤ (session_of (handle e message s)).next_in
never_lower e message s = (handle-IsFaithful e message s).higher

-- The next message, when the connection is still up.
abbrev pub go_on : Step → (Session → Step) → Step
go_on (running s) next = next s
go_on (ended ending s) next = ended ending s

-- The messages of a connection, each with the clock and the listener of its time, until it ends.
unfoldable pub handle_all : List (Surroundings × FixMessage) → Session → Step
handle_all [] s = running s
handle_all ((e, message) ∷ arrivals) s = go_on (handle e message s) (handle_all arrivals)

go_on-IsSound :
    (step : Step) (next : Session → Step)
    → IsSound (session_of step)
    → ((s : Session) → IsSound s → IsSound (session_of (next s)))
    → IsSound (session_of (go_on step next))
go_on-IsSound (running s) next h k = k s h
go_on-IsSound (ended ending s) next h k = h

-- Whatever messages arrive on a connection, in any order, also while the session awaits the answer to
-- a reset of its own, this is kept: the numbers that were handed to the application since the last
-- reset never fall, none comes again after the application took it, those that it took are below
-- the expected one, an open gap ends at a number that is still to come, and nothing was
-- handed over since the last reset while the Logon of an own reset is unanswered.
pub handle_all-IsSound :
    (arrivals : List (Surroundings × FixMessage)) (s : Session)
    → IsSound s
    → IsSound (session_of (handle_all arrivals s))
unfolding handle_all
handle_all-IsSound [] s h = h
handle_all-IsSound ((e, message) ∷ arrivals) s h =
    go_on-IsSound (handle e message s) (handle_all arrivals)
      ((handle-IsFaithful e message s).sound h) (handle_all-IsSound arrivals)
