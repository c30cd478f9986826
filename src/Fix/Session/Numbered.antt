-- ===== src/Fix/Session/Numbered.antt =====
-- src/ismet/fix/session.py: `_handle` by the number of the message.

use ismet.Prelude.{
  ℕ, Bool, true, false, not, ◌&&◌, Option, none, some, ltb, ◌==◌, if◌then◌else◌, ◌≡◌, refl, inl,
  inr, arith, Bool-cases,
}
use ismet.Fix.Bytes.{Bytes}
use ismet.Fix.Parse.{FixMessage, FieldDefect}
use ismet.Fix.Session.{is_logon_sent, logout, Session, Step, running, session_of, terminate}
use ismet.Fix.Session.Inbound.{
  Surroundings, MsgType, application, get, msg_type, is_set, check_orig_time,
  check_orig_sending_time, is_sequence_reset,
}
use ismet.Fix.Session.Handle.{
  send_defect, handle_expected, or_step, is_gap_fill, handle_number, logout_confirmed, is_logon,
}
use ismet.Fix.Session.Quiet.{
  IsQuiet, IsQuiet-trans, IsQuiet-refl, IsQuiet-if, send_admin-IsQuiet, advance-IsQuiet,
}
use ismet.Fix.Session.Quietly.{refuse-IsQuiet}
use ismet.Fix.Session.Admins.{on_gap-IsQuiet, on_admin-IsQuiet}
use ismet.Fix.Session.Delivery.{IsFaithful, quiet-IsFaithful, deliver_to-IsFaithful}

-- A test between two ends of the handling.
pub either :
    (t : Bool) (seq : ℕ) (r : Bool) (s : Session) (a b : Step)
    → (t ≡ true → IsFaithful seq r s (session_of a))
    → (t ≡ false → IsFaithful seq r s (session_of b))
    → IsFaithful seq r s (session_of (if t then a else b))
either true seq r s a b h k = h refl
either false seq r s a b h k = k refl

-- The same where only quiet ends are told apart.
IsQuiet-step :
    (t : Bool) (s : Session) (a b : Step)
    → IsQuiet s (session_of a)
    → IsQuiet s (session_of b)
    → IsQuiet s (session_of (if t then a else b))
IsQuiet-step true s a b h k = h
IsQuiet-step false s a b h k = k

pub terminate_after : (s s' : Session) → IsQuiet s s' → IsQuiet s (session_of (terminate s'))
terminate_after s s' q = IsQuiet-trans s s' _ q (send_admin-IsQuiet logout s')

pub confirmed-IsQuiet : (seq : ℕ) (s : Session) → IsQuiet s (logout_confirmed seq s)
confirmed-IsQuiet seq s =
    let q = advance-IsQuiet s in
    IsQuiet-if (seq == s.next_in) s _ _
      (record {
        higher = q.higher;
        silent = q.silent;
        same = q.same;
        ahead = q.ahead;
        awaits = q.awaits;
        stays = q.stays;
      })
      (IsQuiet-refl s)

-- A test of the times that ends the handling, ends it quietly.
abbrev QuietWhen : Session → Option Step → Type 0
QuietWhen s none = Unit
QuietWhen s (some step) = IsQuiet s (session_of step)

orig_time-IsQuiet :
    (e : Surroundings) (message : FixMessage) (seq time : ℕ) (moves : Bool) (s : Session)
    (o : Option ℕ)
    → QuietWhen s (check_orig_time e message seq time moves s o)
orig_time-IsQuiet e message seq time moves s none =
    refuse-IsQuiet e message seq 6 (some 122) moves s
orig_time-IsQuiet e message seq time moves s (some original) =
    elim (Bool-cases (ltb time original)) [
      | inl h ↦ rw (h) (terminate_after s _ (refuse-IsQuiet e message seq 10 (some 122) moves s))
      | inr h ↦ rw (h) tt
    ]

orig_sending_time-IsQuiet :
    (e : Surroundings) (message : FixMessage) (seq time : ℕ) (moves : Bool) (s : Session)
    (o : Option Bytes)
    → QuietWhen s (check_orig_sending_time e message seq time moves s o)
orig_sending_time-IsQuiet e message seq time moves s none =
    elim (Bool-cases (is_sequence_reset (msg_type message))) [
      | inl h ↦ rw (h) tt
      | inr h ↦ rw (h) (refuse-IsQuiet e message seq 1 (some 122) moves s)
    ]
orig_sending_time-IsQuiet e message seq time moves s (some raw) =
    orig_time-IsQuiet e message seq time moves s (e.read_time raw)

or_step-IsFaithful :
    (seq : ℕ) (r : Bool) (s : Session) (o : Option Step) (next : Step)
    → QuietWhen s o
    → IsFaithful seq r s (session_of next)
    → IsFaithful seq r s (session_of (or_step o next))
or_step-IsFaithful seq r s none next q k = k
or_step-IsFaithful seq r s (some step) next q k = quiet-IsFaithful seq r s (session_of step) q

expected-IsFaithful :
    (e : Surroundings) (message : FixMessage) (seq : ℕ) (r : Bool) (o : Option FieldDefect)
    (t : MsgType) (s : Session)
    → (is_logon_sent s.state && not (is_logon t)) ≡ false
    → seq ≡ s.next_in
    → IsFaithful seq r s (session_of (handle_expected e message seq o t s))
expected-IsFaithful e message seq r o application s kind here =
    deliver_to-IsFaithful e.listener message seq r s (ground (arith, kind)) here
expected-IsFaithful e message seq r (some d) t s kind here = quiet-IsFaithful seq r s _ (
    IsQuiet-trans s (send_defect seq d s) _ (send_admin-IsQuiet _ s)
      (advance-IsQuiet (send_defect seq d s)))
expected-IsFaithful e message seq r none t s kind here =
    quiet-IsFaithful seq r s _ (on_admin-IsQuiet e message seq (is_set message 43) t s here)

pub number-IsFaithful :
    (e : Surroundings) (message : FixMessage) (seq time : ℕ) (r : Bool) (s : Session)
    → (is_logon_sent s.state && not (is_logon (msg_type message))) ≡ false
    → IsFaithful seq r s (session_of (handle_number e message seq time s))
unfolding handle_number
number-IsFaithful e message seq time r s kind =
    let t = msg_type message in
    let dup = is_set message 43 in
    either (ltb seq s.next_in) seq r s _ _
      (λ low.
        either (not dup) seq r s _ _ (λ _. quiet-IsFaithful seq r s _ (send_admin-IsQuiet logout s))
          (λ _.
            or_step-IsFaithful seq r s _ (running s)
              (orig_sending_time-IsQuiet e message seq time false s (get message 122))
              (quiet-IsFaithful seq r s s (IsQuiet-refl s))))
      λ not_low.
        either (ltb s.next_in seq) seq r s _ _
          (λ high.
            quiet-IsFaithful seq r s _ (on_gap-IsQuiet e message seq t s (ground (arith, high))))
          λ not_high.
            let here : seq ≡ s.next_in = ground (arith, not_low, not_high) in
            let plain = expected-IsFaithful e message seq r message.defect t s kind here in
            either (dup && not (is_gap_fill t)) seq r s _ _
              (λ _.
                or_step-IsFaithful seq r s _ _
                  (orig_sending_time-IsQuiet e message seq time true s (get message 122)) plain)
              (λ _. plain)
