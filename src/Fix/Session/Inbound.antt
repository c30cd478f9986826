-- ===== src/Fix/Session/Inbound.antt =====
-- src/ismet/fix/session.py: `_handle` and the handlers that it calls, for one message of the peer.
use ismet.Prelude.{
  ℕ, ◌-◌, Bool, true, false, not, ◌&&◌, ◌||◌, Option, none, some, [], ◌∷◌, ltb, ◌==◌, if◌then◌else◌,
}
use ismet.Prelude.Dict.{lookup}
use ismet.Fix.Bytes.{Bytes}
use ismet.Fix.Message.{same_bytes}
use ismet.Fix.Parse.{FixMessage, parse_seq_num}
use ismet.Fix.Session.{
  syncing, is_logon_sent, is_syncing, is_ready, FixSessionConfig, reject, logon, discarded,
  possible_loss, Session, note, send_admin, send_sync_request, is_none, advance_to, advance,
  reset_numbers, Step, running, terminate,
}

-- What the application says to a message: it takes it, it raises `ApplicationRejectError`, or it
-- raises another exception.
pub data Answer : Type 0 where
  takes : Answer
  rejects : (reason : ℕ) (tag : Option ℕ) → Answer
  fails : Answer

-- The listener, the clock, and `parse_utc_timestamp`, whose datetime is Python's.
pub record Surroundings : Type 0 where
  pub config : FixSessionConfig
  pub listener : Option (FixMessage → Answer)
  pub now : ℕ
  pub read_time : Bytes → Option ℕ

-- The types of messages that a session tells apart, with ADMIN_TYPES before `application`.
pub data MsgType : Type 0 where
  type_heartbeat type_test_request type_resend_request type_reject type_sequence_reset : MsgType
  type_logout type_logon application : MsgType

abbrev pub type_of_code : ℕ → MsgType
type_of_code c =
    if c == b'0'
    then type_heartbeat
    else if c == b'1'
    then type_test_request
    else if c == b'2'
    then type_resend_request
    else if c == b'3'
    then type_reject
    else if c == b'4'
    then type_sequence_reset
    else if c == b'5'
    then type_logout
    else if c == b'A'
    then type_logon
    else application

-- `get`
abbrev pub get : FixMessage → ℕ → Option Bytes
get message tag = lookup tag message.fields

abbrev pub type_of_text : Option Bytes → MsgType
type_of_text (some (c ∷ [])) = type_of_code c
type_of_text _ = application

-- `msg_type`
abbrev pub msg_type : FixMessage → MsgType
msg_type message = type_of_text (get message 35)

abbrev pub is_application : MsgType → Bool
is_application application = true
is_application _ = false

abbrev pub is_text : Option Bytes → Bytes → Bool
is_text none t = false
is_text (some v) t = same_bytes v t

-- `message.get(tag) == "Y"`
abbrev pub is_set : FixMessage → ℕ → Bool
is_set message tag = is_text (get message tag) (b'Y' ∷ [])

abbrev pub number_of : Option Bytes → Option ℕ
number_of none = none
number_of (some t) = parse_seq_num t

-- `parse_seq_num(message.require(tag), tag)`; `none` is its `FieldFormatError`.
abbrev pub read_number : FixMessage → ℕ → Option ℕ
read_number message tag = number_of (get message tag)

abbrev pub send_reject : ℕ → ℕ → Option ℕ → Session → Session
send_reject seq reason tag s = send_admin (reject seq reason tag) s

-- `_advance` where the message had the expected number
abbrev pub advance_if : Bool → Session → Session
advance_if true s = advance s
advance_if false s = s

-- `_discard`
abbrev pub discard : Surroundings → FixMessage → ℕ → Session → Session
discard e message seq s =
    if not (is_none e.listener) && seq == s.next_in && is_application (msg_type message)
    then note (discarded seq) s
    else s

-- The reject of a message, after `_discard`, and the move past it.
abbrev pub refuse : Surroundings → FixMessage → ℕ → ℕ → Option ℕ → Bool → Session → Session
refuse e message seq reason tag moves s =
    advance_if moves (send_reject seq reason tag (discard e message seq s))

abbrev pub too_far : ℕ → ℕ → Option ℕ → Bool
too_far now t none = false
too_far now t (some limit) = ltb limit (now - t) || ltb limit (t - now)

-- `_check_sending_time`: the time, or the end of the handling.
pub data Checked : Type 0 where
  at_time : ℕ → Checked
  handled : Step → Checked

abbrev pub check_time : Surroundings → FixMessage → ℕ → Session → Option ℕ → Checked
check_time e message seq s none =
    handled (terminate (refuse e message seq 10 (some 52) (seq == s.next_in) s))
check_time e message seq s (some t) =
    if too_far e.now t e.config.max_sending_time_skew
    then handled (terminate (refuse e message seq 10 (some 52) (seq == s.next_in) s))
    else at_time t

abbrev pub check_sending_time : Surroundings → FixMessage → ℕ → Session → Option Bytes → Checked
check_sending_time e message seq s none =
    handled (running (refuse e message seq 1 (some 52) (seq == s.next_in) s))
check_sending_time e message seq s (some raw) = check_time e message seq s (e.read_time raw)

-- `_check_orig_sending_time`; `none` is True.
abbrev pub check_orig_time :
    Surroundings → FixMessage → ℕ → ℕ → Bool → Session → Option ℕ → Option Step
check_orig_time e message seq time moves s none =
    some (running (refuse e message seq 6 (some 122) moves s))
check_orig_time e message seq time moves s (some original) =
    if ltb time original
    then some (terminate (refuse e message seq 10 (some 122) moves s))
    else none

abbrev pub is_sequence_reset : MsgType → Bool
is_sequence_reset type_sequence_reset = true
is_sequence_reset _ = false

abbrev pub check_orig_sending_time :
    Surroundings → FixMessage → ℕ → ℕ → Bool → Session → Option Bytes → Option Step
check_orig_sending_time e message seq time moves s none =
    if is_sequence_reset (msg_type message)
    then none
    else some (running (refuse e message seq 1 (some 122) moves s))
check_orig_sending_time e message seq time moves s (some raw) =
    check_orig_time e message seq time moves s (e.read_time raw)

-- `_on_logon_confirmed`
abbrev pub on_logon_confirmed : Session → Session
on_logon_confirmed s = record s { state = syncing }

abbrev pub confirm_period : Option ℕ → Session → Session
confirm_period none s = s
confirm_period (some period) s = record s {
  reset_awaiting_confirmation = none;
  reset_period = some period;
}

-- `_after_logon`
abbrev pub after_logon : Session → Session
after_logon s = send_sync_request (confirm_period s.reset_awaiting_confirmation s)

abbrev pub lose : Surroundings → ℕ → Option ℕ → Session → Session
lose e from to s = if is_none e.listener then s else note (possible_loss from to) s

-- `_obey_peer_reset`
abbrev pub obey_peer_reset : Surroundings → Session → Session
obey_peer_reset e s =
    let moved =
      if is_logon_sent s.state || is_ready s.state || is_syncing s.state
      then on_logon_confirmed s
      else s in
    let unsynced = record moved { synced = false; sync_ids = [] } in
    let told = if ltb 1 s.next_in then lose e s.next_in none unsynced else unsynced in
    send_admin (logon true) (advance_to 2 (reset_numbers told))

-- `_on_logon_with_reset`
unfoldable pub on_logon_with_reset : Surroundings → ℕ → Session → Step
on_logon_with_reset e seq s =
    if not (seq == 1)
    then terminate (send_reject seq 5 (some 34) s)
    else if not (is_none s.reset_awaiting_confirmation) && is_logon_sent s.state
    then running (after_logon (on_logon_confirmed (advance_to 2 s)))
    else running (after_logon (obey_peer_reset e s))
