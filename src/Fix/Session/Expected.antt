-- ===== src/Fix/Session/Expected.antt =====
-- src/ismet/fix/session.py: what `_handle` does with an application message that it expects, and with
-- one that is ahead.
use ismet.Prelude.{
  ℕ, suc, ◌<◌, Bool, true, false, ◌&&◌, some, ◌∷◌, ltb, ◌==◌, if◌then◌else◌, ◌≡◌, refl, ap, ◌∙◌,
  inl, inr, arith, Bool-cases,
}
use ismet.Fix.Message.{same_bytes}
use ismet.Fix.Parse.{FixMessage}
use ismet.Fix.Session.{
  delivered, Session, note, is_none, advance, running, is_logon_sent, is_logout_sent,
}
use ismet.Fix.Session.Inbound.{
  Answer, takes, Surroundings, application, get, msg_type, is_text, is_set, read_number, at_time,
  check_sending_time,
}
use ismet.Fix.Session.Handle.{
  reject_defect, after_answer, deliver_to, deliver, handle_number, handle_timed, handle, on_gap,
}
use ismet.Fix.Session.{sent, resend_request}
use ismet.Fix.Session.Handle.{mark_gap, higher}
use ismet.Fix.Session.Quiet.{deliveries, advance_to_next, advance-IsQuiet}
use ismet.Fix.Session.Delivery.{reject_defect-IsQuiet}

-- A message of the peer that passes the tests which open `_handle`: its BeginString, its CompIDs, and
-- its SendingTime, with the number `seq`.
pub record IsChecked (e : Surroundings) (message : FixMessage) (seq time : ℕ) (s : Session)
    : Type 0 where
  pub named : same_bytes message.begin_string e.config.begin_string ≡ true
  pub numbered : read_number message 34 ≡ some seq
  pub positive : 0 < seq
  pub sender : is_text (get message 49) e.config.target_comp_id ≡ true
  pub target : is_text (get message 56) e.config.sender_comp_id ≡ true
  pub on_time : check_sending_time e message seq s (get message 52) ≡ at_time time

checked_lem :
    (e : Surroundings) (message : FixMessage) (seq time : ℕ) (s : Session)
    → IsChecked e message seq time s
    → handle e message s ≡ handle_timed e message seq time s
unfolding handle
checked_lem e message seq time s c =
    let some_number : (seq == 0) ≡ false = ground (arith, c.positive) in
    rw (c.named, c.numbered, some_number, c.sender, c.target, c.on_time) refl

and_false : (b : Bool) → b && false ≡ false
and_false true = refl
and_false false = refl

application_lem :
    (e : Surroundings) (message : FixMessage) (seq time : ℕ) (s : Session)
    → msg_type message ≡ application
    → is_logon_sent s.state ≡ false
    → handle_timed e message seq time s ≡ handle_number e message seq time s
unfolding handle_timed
application_lem e message seq time s kind up =
    rw (kind, up, and_false (is_logout_sent s.state)) refl

expected_lem :
    (e : Surroundings) (message : FixMessage) (time : ℕ) (s : Session)
    → msg_type message ≡ application
    → is_set message 43 ≡ false
    → handle_number e message s.next_in time s ≡ deliver e message s.next_in s
unfolding handle_number
expected_lem e message time s kind first =
    let same : ltb s.next_in s.next_in ≡ false = ground arith in rw (same, first, kind) refl

-- An application message that passes the opening tests, is no PossDup, has the expected number and is
-- taken by the application: it is delivered, the connection goes on, and a higher number is
-- expected next.
pub delivers_expected :
    (e : Surroundings) (message : FixMessage) (time : ℕ) (s : Session) (f : FixMessage → Answer)
    → IsChecked e message s.next_in time s
    → msg_type message ≡ application
    → is_set message 43 ≡ false
    → is_logon_sent s.state ≡ false
    → e.listener ≡ some f
    → f message ≡ takes
    → (s' : Session) × (handle e message s ≡ running s')
      × (deliveries s'.log ≡ s.next_in ∷ deliveries s.log)
      × (s.next_in < s'.next_in)
unfolding deliveries
delivers_expected e message time s f c kind first up listens taken =
    let told = reject_defect s.next_in message.defect (note (delivered s.next_in message) s) in
    let (quiet, kept) =
      reject_defect-IsQuiet s.next_in message.defect (note (delivered s.next_in message) s) in
    (
      advance told,
      checked_lem e message s.next_in time s c
          ∙ application_lem e message s.next_in time s kind up
          ∙ expected_lem e message time s kind first
          ∙ ap (λ o. deliver_to o message s.next_in s) listens
          ∙ ap (λ a. after_answer message s.next_in a s) taken,
      (advance-IsQuiet told).same ∙ quiet.same,
      omega (arith, advance_to_next (suc told.next_in) told, kept),
    )

marked_lem :
    (seq : ℕ) (s : Session)
    → ((mark_gap seq s).next_in ≡ s.next_in)
      × (deliveries (mark_gap seq s).log ≡ deliveries s.log)
      × ((mark_gap seq s).resend_target ≡ some (higher s.resend_target seq))
      × ((mark_gap seq s).log ≡ (
          if is_none s.resend_target
          then sent s.next_out (resend_request s.next_in) ∷ s.log
          else s.log))
unfolding deliveries
marked_lem seq s = elim (Bool-cases (is_none s.resend_target)) [
  | inl h ↦ rw (h) (refl, refl, refl, refl)
  | inr h ↦ rw (h) (refl, refl, refl, refl)
]

-- An application message that passes the opening tests and is ahead of the expected number: the
-- connection goes on, nothing is delivered, the expected number stays, the gap is held open at least
-- up to the message, and unless a gap was open already a ResendRequest from the expected
-- number on is sent.
pub gap_requested :
    (e : Surroundings) (message : FixMessage) (seq time : ℕ) (s : Session)
    → IsChecked e message seq time s
    → msg_type message ≡ application
    → is_logon_sent s.state ≡ false
    → s.next_in < seq
    → (s' : Session) × (handle e message s ≡ running s')
      × (s'.next_in ≡ s.next_in)
      × (deliveries s'.log ≡ deliveries s.log)
      × (s'.resend_target ≡ some (higher s.resend_target seq))
      × (s'.log ≡ (
          if is_none s.resend_target
          then sent s.next_out (resend_request s.next_in) ∷ s.log
          else s.log))
unfolding deliveries handle_number on_gap
gap_requested e message seq time s c kind up ahead =
    let not_late : ltb seq s.next_in ≡ false = ground (arith, ahead) in
    let early : ltb s.next_in seq ≡ true = ground (arith, ahead) in
    let handled_so : handle e message s ≡ running (mark_gap seq s) =
      checked_lem e message seq time s c
      ∙ application_lem e message seq time s kind up
      ∙ rw (not_late, early, kind) refl in
    let (next, silent, held, asked) = marked_lem seq s in
    (mark_gap seq s, handled_so, next, silent, held, asked)
