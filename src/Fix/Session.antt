-- ===== src/Fix/Session.antt =====
-- src/ismet/fix/session.py: the state of a session, what it does, and how its inbound number moves.
-- A write and a call of the store succeed; the monotonic deadlines of the timer are left out.
use ismet.Prelude.{
  ℕ, zero, suc, ◌+◌, ◌-◌, ◌≤◌, ◌<◌, Bool, true, false, not, ◌&&◌, ◌||◌, Option, none, some, List,
  [], ◌∷◌, ◌++◌, ltb, leb, ◌==◌, if◌then◌else◌,
}
use ismet.Prelude.Dict.{Dict, lookup}
use ismet.Fix.Bytes.{Bytes}
use ismet.Fix.Parse.{FixMessage}
pub mod Resend
mod Covers
pub mod Inbound
pub mod Handle
mod Quiet
mod Quietly
mod Admins
mod Delivery
mod Numbered
mod Handled
mod Expected
mod Tests

pub data SessionState : Type 0 where
  stopped connecting logon_sent syncing ready logout_sent disconnected failed : SessionState

abbrev pub is_logon_sent : SessionState → Bool
is_logon_sent logon_sent = true
is_logon_sent _ = false

abbrev pub is_syncing : SessionState → Bool
is_syncing syncing = true
is_syncing _ = false

abbrev pub is_ready : SessionState → Bool
is_ready ready = true
is_ready _ = false

abbrev pub is_logout_sent : SessionState → Bool
is_logout_sent logout_sent = true
is_logout_sent _ = false

-- What a session reads of `FixSessionConfig`; the two spans are in the unit of the clock.
pub record FixSessionConfig : Type 0 where
  pub begin_string : Bytes
  pub sender_comp_id : Bytes
  pub target_comp_id : Bytes
  pub max_sending_time_skew : Option ℕ
  pub stale_resend_after : ℕ

-- An application message that the store keeps, with the moment of its `sending_time`.
pub record StoredMessage : Type 0 where
  pub seq : ℕ
  pub sent_at : ℕ

-- The admin messages that a session sends, with what the sequence rules set in them.
pub data Admin : Type 0 where
  heartbeat : Option Bytes → Admin
  test_request : ℕ → Admin
  resend_request : ℕ → Admin
  reject : (ref_seq reason : ℕ) (tag : Option ℕ) → Admin
  logout : Admin
  logon : (reset : Bool) → Admin

-- What a session does: it writes to the peer, or it calls its listener.
pub data Effect : Type 0 where
  sent : ℕ → Admin → Effect
  resent : ℕ → Effect
  gap_filled : (seq new_seq : ℕ) → Effect
  delivered : ℕ → FixMessage → Effect
  delivery_failed : ℕ → FixMessage → Effect
  discarded : ℕ → Effect
  session_reject : Effect
  possible_loss : ℕ → Option ℕ → Effect
  session_ready : Effect
  sequence_reset : Effect

-- The fields of `FixSession` and of its store that the sequence rules use; `log` is what it did,
-- the last first.
pub record Session : Type 0 where
  pub state : SessionState
  pub next_in : ℕ
  pub next_out : ℕ
  pub stored : List StoredMessage
  pub test_counter : ℕ
  pub sync_ids : List ℕ
  pub synced : Bool
  pub resend_target : Option ℕ
  pub resend_requests : ℕ
  pub reset_awaiting_confirmation : Option ℕ
  pub reset_period : Option ℕ
  pub inbound_complete : Bool
  pub log : List Effect

abbrev pub note : Effect → Session → Session
note e s = record s { log = e ∷ s.log }

-- `_send_admin`
abbrev pub send_admin : Admin → Session → Session
send_admin a s = record s { next_out = suc s.next_out; log = sent s.next_out a ∷ s.log }

-- `_send_sync_request`; `SYNC7` is 7 here.
abbrev pub send_sync_request : Session → Session
send_sync_request s =
    let n = suc s.test_counter in
    send_admin (test_request n) (record s { test_counter = n; sync_ids = n ∷ s.sync_ids })

-- `_send_resend_request`
abbrev pub send_resend_request : Session → Session
send_resend_request s =
    send_admin (resend_request s.next_in) (record s { resend_requests = suc s.resend_requests })

abbrev pub is_none {ℓ} : {A : Type ℓ} → Option A → Bool
is_none none = true
is_none (some a) = false

-- `_maybe_ready`
unfoldable pub maybe_ready : Session → Session
maybe_ready s =
    if is_syncing s.state && s.synced && is_none s.resend_target
    then note session_ready (record s { state = ready })
    else s

abbrev pub at_most_one : ℕ → ℕ
at_most_one n = if leb n 1 then n else 1

-- `_advance`, while a gap up to `target` is open, or none.
abbrev pub catch_up : Option ℕ → Session → Session
catch_up none s = s
catch_up (some target) s =
    if ltb target s.next_in
    then (let closed = record s { resend_target = none; resend_requests = 0 } in
        if is_syncing s.state && not s.synced then send_sync_request closed else closed)
    else record s { resend_requests = at_most_one s.resend_requests }

-- `_advance(to)`
unfoldable pub advance_to : ℕ → Session → Session
advance_to value s = maybe_ready (catch_up s.resend_target (record s { next_in = value }))

-- `_advance()`
abbrev pub advance : Session → Session
advance s = advance_to (suc s.next_in) s

-- `_reset_numbers`; the store forgets its messages.
abbrev pub reset_numbers : Session → Session
reset_numbers s = record s {
  next_in = 1;
  next_out = 1;
  stored = [];
  resend_target = none;
  log = sequence_reset ∷ s.log;
}

-- `_begin_logout`
abbrev pub begin_logout : Session → Session
begin_logout s = send_admin logout (record s { state = logout_sent })

-- How a handler ends: the connection goes on, or it ends by an exception of the source.
pub data Ending : Type 0 where
  disconnect sequence_too_low logon_rejected : Ending

pub data Step : Type 0 where
  running : Session → Step
  ended : Ending → Session → Step

abbrev pub session_of : Step → Session
session_of (running s) = s
session_of (ended e s) = s

-- `_terminate`
abbrev pub terminate : Session → Step
terminate s = ended disconnect (send_admin logout s)
