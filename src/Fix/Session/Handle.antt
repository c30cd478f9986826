-- ===== src/Fix/Session/Handle.antt =====
-- src/ismet/fix/session.py: the admin messages, the delivery to the application, and `_handle`.
use ismet.Prelude.{
  ℕ, ◌-◌, Bool, true, false, not, ◌&&◌, ◌||◌, Option, none, some, List, [], ◌∷◌, ltb, leb, ◌==◌,
  if◌then◌else◌,
}
use ismet.Fix.Bytes.{Bytes, digits}
use ismet.Fix.Message.{same_bytes}
use ismet.Fix.Parse.{FixMessage, FieldDefect, defect_tag, invalid_tag, tag_without_value}
use ismet.Fix.Session.{
  is_logon_sent, is_logout_sent, heartbeat, logout, delivered, delivery_failed, session_reject,
  Session, note, send_admin, send_resend_request, is_none, advance_to, advance, begin_logout,
  disconnect, sequence_too_low, logon_rejected, Step, running, ended, terminate,
}
use ismet.Fix.Session.Resend.{resend}
use ismet.Fix.Session.Inbound.{
  Answer, takes, rejects, fails, Surroundings, MsgType, type_heartbeat, type_test_request,
  type_resend_request, type_reject, type_sequence_reset, type_logout, type_logon, application, get,
  msg_type, is_text, is_set, read_number, send_reject, refuse, Checked, at_time, handled,
  check_sending_time, check_orig_sending_time, on_logon_confirmed, after_logon, lose,
  on_logon_with_reset,
}

abbrev pub defect_reason : FieldDefect → ℕ
defect_reason invalid_tag = 0
defect_reason (tag_without_value tag) = 4

abbrev pub send_defect : ℕ → FieldDefect → Session → Session
send_defect seq d s = send_reject seq (defect_reason d) (defect_tag d) s

-- `message.get(112) in self._sync_ids`
unfoldable pub answers_sync : Option Bytes → List ℕ → Bool
answers_sync v [] = false
answers_sync v (n ∷ ids) = is_text v (b'S' ∷ b'Y' ∷ b'N' ∷ b'C' ∷ digits n) || answers_sync v ids

-- `_on_heartbeat`
abbrev pub on_heartbeat : FixMessage → Session → Session
on_heartbeat message s = advance (
    if answers_sync (get message 112) s.sync_ids
    then record s { sync_ids = []; synced = true }
    else s)

abbrev pub answer_test : ℕ → Option Bytes → Session → Session
answer_test seq none s = send_reject seq 1 (some 112) s
answer_test seq (some id) s = send_admin (heartbeat (some id)) s

-- `_on_test_request`
abbrev pub on_test_request : FixMessage → ℕ → Session → Session
on_test_request message seq s = advance (answer_test seq (get message 112) s)

abbrev pub fill_to : ℕ → Option ℕ → Session → Session
fill_to seq none s = advance (send_reject seq 1 (some 36) s)
fill_to seq (some new_seq) s =
    if leb new_seq seq then send_reject seq 5 (some 36) s else advance_to new_seq s

-- `_on_gap_fill`
abbrev pub on_gap_fill : FixMessage → ℕ → Session → Session
on_gap_fill message seq s = fill_to seq (read_number message 36) s

abbrev pub reset_to : Surroundings → ℕ → Option ℕ → Session → Session
reset_to e seq none s = send_reject seq 1 (some 36) s
reset_to e seq (some new_seq) s =
    if ltb new_seq s.next_in
    then send_reject seq 5 (some 36) s
    else if new_seq == s.next_in
    then s
    else advance_to new_seq (lose e s.next_in (some (new_seq - 1)) s)

-- `_on_sequence_reset_reset`
abbrev pub on_sequence_reset_reset : Surroundings → FixMessage → ℕ → Session → Session
on_sequence_reset_reset e message seq s = reset_to e seq (read_number message 36) s

abbrev pub resend_between : Surroundings → ℕ → Option ℕ → Option ℕ → Session → Session
resend_between e seq none end s = send_reject seq 1 (some 7) s
resend_between e seq (some begin) none s = send_reject seq 1 (some 16) s
resend_between e seq (some begin) (some end) s = resend e.config e.now begin end s

-- `_on_resend_request`
abbrev pub on_resend_request : Surroundings → FixMessage → ℕ → Session → Session
on_resend_request e message seq s =
    resend_between e seq (read_number message 7) (read_number message 16) s

abbrev pub higher : Option ℕ → ℕ → ℕ
higher none seq = seq
higher (some target) seq = if leb target seq then seq else target

-- The gap up to `seq`, which is asked for unless one is open.
abbrev pub mark_gap : ℕ → Session → Session
mark_gap seq s =
    let marked = record s { resend_target = some (higher s.resend_target seq) } in
    if is_none s.resend_target then send_resend_request marked else marked

-- `_on_gap`
unfoldable pub on_gap : Surroundings → FixMessage → ℕ → MsgType → Session → Session
on_gap e message seq type_logon s = after_logon (mark_gap seq (on_logon_confirmed s))
on_gap e message seq type_resend_request s =
    mark_gap seq (if is_set message 43 then s else on_resend_request e message seq s)
on_gap e message seq type_logout s = begin_logout (mark_gap seq s)
on_gap e message seq _ s = mark_gap seq s

-- `_on_admin`, for a message that is no duplicate, from the Logon on
abbrev pub on_new_admin : Surroundings → FixMessage → ℕ → MsgType → Session → Session
on_new_admin e message seq type_logon s =
    if is_logon_sent s.state then after_logon (advance (on_logon_confirmed s)) else advance s
on_new_admin e message seq type_heartbeat s = on_heartbeat message s
on_new_admin e message seq type_test_request s = on_test_request message seq s
on_new_admin e message seq type_resend_request s = advance (on_resend_request e message seq s)
on_new_admin e message seq type_logout s =
    begin_logout (record (advance s) { inbound_complete = true })
on_new_admin e message seq _ s = s

-- `_on_admin`
unfoldable pub on_admin : Surroundings → FixMessage → ℕ → Bool → MsgType → Session → Session
on_admin e message seq poss_dup type_sequence_reset s = on_gap_fill message seq s
on_admin e message seq poss_dup type_reject s =
    advance (if is_none e.listener then s else note session_reject s)
on_admin e message seq poss_dup t s = if poss_dup then advance s else on_new_admin e message seq t s

abbrev pub reject_defect : ℕ → Option FieldDefect → Session → Session
reject_defect seq none s = s
reject_defect seq (some d) s = send_defect seq d s

abbrev pub after_answer : FixMessage → ℕ → Answer → Session → Step
after_answer message seq takes s =
    running (advance (reject_defect seq message.defect (note (delivered seq message) s)))
after_answer message seq (rejects reason tag) s =
    running (advance (send_reject seq reason tag (note (delivered seq message) s)))
after_answer message seq fails s = ended disconnect (note (delivery_failed seq message) s)

abbrev pub deliver_to : Option (FixMessage → Answer) → FixMessage → ℕ → Session → Step
deliver_to none message seq s = running (advance s)
deliver_to (some listener) message seq s = after_answer message seq (listener message) s

-- `_deliver`
abbrev pub deliver : Surroundings → FixMessage → ℕ → Session → Step
deliver e message seq s = deliver_to e.listener message seq s

-- `_handle`, at the expected number and past the tests of its times
abbrev pub handle_expected :
    Surroundings → FixMessage → ℕ → Option FieldDefect → MsgType → Session → Step
handle_expected e message seq defect application s = deliver e message seq s
handle_expected e message seq (some d) t s = running (advance (send_defect seq d s))
handle_expected e message seq none t s = running (on_admin e message seq (is_set message 43) t s)

abbrev pub or_step : Option Step → Step → Step
or_step (some step) next = step
or_step none next = next

abbrev pub is_gap_fill : MsgType → Bool
is_gap_fill type_sequence_reset = true
is_gap_fill _ = false

-- `_handle`, by the number of the message
unfoldable pub handle_number : Surroundings → FixMessage → ℕ → ℕ → Session → Step
handle_number e message seq time s =
    let poss_dup = is_set message 43 in
    if ltb seq s.next_in
    then (if not poss_dup
        then ended sequence_too_low (send_admin logout s)
        else or_step (check_orig_sending_time e message seq time false s (get message 122))
            (running s))
    else if ltb s.next_in seq
    then running (on_gap e message seq (msg_type message) s)
    else if poss_dup && not (is_gap_fill (msg_type message))
    then or_step (check_orig_sending_time e message seq time true s (get message 122))
        (handle_expected e message seq message.defect (msg_type message) s)
    else handle_expected e message seq message.defect (msg_type message) s

abbrev pub is_logout : MsgType → Bool
is_logout type_logout = true
is_logout _ = false

abbrev pub is_logon : MsgType → Bool
is_logon type_logon = true
is_logon _ = false

-- The Logout that confirms ours.
abbrev pub logout_confirmed : ℕ → Session → Session
logout_confirmed seq s =
    if seq == s.next_in then record (advance s) { inbound_complete = true } else s

-- `_handle`, past the test of SendingTime
unfoldable pub handle_timed : Surroundings → FixMessage → ℕ → ℕ → Session → Step
handle_timed e message seq time s =
    let t = msg_type message in
    if is_logout_sent s.state && is_logout t
    then ended disconnect (logout_confirmed seq s)
    else if is_logon_sent s.state && is_logout t
    then ended logon_rejected s
    else if is_logon_sent s.state && not (is_logon t)
    then terminate s
    else if is_logon t && is_set message 141
    then on_logon_with_reset e seq s
    else if is_gap_fill t && not (is_set message 123)
    then running (on_sequence_reset_reset e message seq s)
    else handle_number e message seq time s

abbrev pub past_check : Surroundings → FixMessage → ℕ → Session → Checked → Step
past_check e message seq s (handled step) = step
past_check e message seq s (at_time time) = handle_timed e message seq time s

abbrev pub or_zero : Option ℕ → ℕ
or_zero none = 0
or_zero (some n) = n

-- `_handle`
unfoldable pub handle : Surroundings → FixMessage → Session → Step
handle e message s =
    let seq = or_zero (read_number message 34) in
    if not (same_bytes message.begin_string e.config.begin_string)
    then terminate s
    else if seq == 0
    then terminate s
    else if not (is_text (get message 49) e.config.target_comp_id)
        || not (is_text (get message 56) e.config.sender_comp_id)
    then terminate (refuse e message seq 9 none (seq == s.next_in) s)
    else past_check e message seq s (check_sending_time e message seq s (get message 52))
