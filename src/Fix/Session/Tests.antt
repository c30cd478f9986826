-- ===== src/Fix/Session/Tests.antt =====
-- The session of src/ismet/fix/session.py at concrete messages.
use ismet.Prelude.{true, false, none, some, [], ◌∷◌, ◌≡◌, refl, arith, All, ◌<◌, ◌≤◌}
use ismet.Prelude.Dict.{lookup}
use ismet.Fix.Bytes.{Bytes, take, drop, read_from}
use ismet.Fix.Message.{after_digits}
use ismet.Fix.Parse.{FixMessage}
use ismet.Fix.Session.{
  ready, logon_sent, sequence_reset, FixSessionConfig, resend_request, sent, resent, gap_filled,
  Session, running, session_of, advance_to, maybe_ready,
}
use ismet.Fix.Session.Resend.{
  find_stored, sends_again, resend_loop, resend_effects, numbers_from, covered,
}
use ismet.Fix.Session.Inbound.{Surroundings, takes, Answer, on_logon_with_reset}
use ismet.Fix.Session.Handle.{handle, handle_timed, handle_number, on_gap, on_admin}
use ismet.Fix.Session.Covers.{IsHonest, resend_exact}
use ismet.Fix.Session.Quiet.{deliveries, IsInOrder}
use ismet.Fix.Session.Delivery.{IsSound}
use ismet.Fix.Session.Handled.{handle_all, handle_all-IsSound, expected_only, never_lower}
use ismet.Fix.Session.Expected.{IsChecked, delivers_expected, gap_requested}

abbrev config : FixSessionConfig
config = record {
  begin_string = b'F' ∷ [];
  sender_comp_id = b'U' ∷ [];
  target_comp_id = b'V' ∷ [];
  max_sending_time_skew = some 120;
  stale_resend_after = 60;
}

abbrev answer : FixMessage → Answer
answer message = takes

-- Every text of a time is read as the moment 1000.
abbrev around : Surroundings
around = record { config = config; listener = some answer; now = 1000; read_time = λ t. some 1000 }

-- An application message of the peer with the number that is written `number`.
abbrev from_peer : Bytes → FixMessage
from_peer number = record {
  begin_string = b'F' ∷ [];
  fields =
      (35, b'8' ∷ []) ∷ (49, b'V' ∷ []) ∷ (56, b'U' ∷ []) ∷ (34, number) ∷ (52, b'T' ∷ []) ∷ [];
  defect = none;
}

abbrev fifth : FixMessage
fifth = from_peer (b'5' ∷ [])

abbrev seventh : FixMessage
seventh = from_peer (b'7' ∷ [])

abbrev up : Session
up = record {
  state = ready;
  next_in = 5;
  next_out = 7;
  stored =
      record { seq = 2; sent_at = 990 }
      ∷ record { seq = 4; sent_at = 900 }
      ∷ record { seq = 5; sent_at = 995 }
      ∷ [];
  test_counter = 0;
  sync_ids = [];
  synced = true;
  resend_target = none;
  resend_requests = 0;
  reset_awaiting_confirmation = none;
  reset_period = none;
  inbound_complete = false;
  log = [];
}

-- Of the numbers 1 to 6, the second and the fifth are sent again, the stale fourth is not.
resends :
    resend_effects config 1000 1 0 up
    ≡ gap_filled 1 2 ∷ resent 2 ∷ gap_filled 3 5 ∷ resent 5 ∷ gap_filled 6 7 ∷ []
unfolding lookup after_digits take drop read_from handle handle_timed handle_number on_gap on_admin
    advance_to maybe_ready IsInOrder handle_all find_stored resend_loop covered deliveries
resends = refl

resend_exact_example :
    (covered (resend_effects config 1000 1 0 up) ≡ numbers_from 1 6)
    × All (IsHonest (sends_again config 1000 up.stored)) (resend_effects config 1000 1 0 up)
unfolding lookup after_digits take drop read_from handle handle_timed handle_number on_gap on_admin
    advance_to maybe_ready IsInOrder handle_all find_stored resend_loop covered deliveries
resend_exact_example = resend_exact config 1000 1 0 up (omega arith) (omega arith)

expected_only_example : deliveries (session_of (handle around seventh up)).log ≡ []
unfolding lookup after_digits take drop read_from handle handle_timed handle_number on_gap on_admin
    advance_to maybe_ready IsInOrder handle_all find_stored resend_loop covered deliveries
expected_only_example = expected_only around seventh up (λ h. omega (arith, h))

never_lower_example : 5 ≤ (session_of (handle around seventh up)).next_in
unfolding lookup after_digits take drop read_from handle handle_timed handle_number on_gap on_admin
    advance_to maybe_ready IsInOrder handle_all find_stored resend_loop covered deliveries
never_lower_example = never_lower around seventh up refl

-- A connection that opened with a reset of our own, and the Logon that answers it.
abbrev joining : Session
joining = record up {
  state = logon_sent;
  next_in = 1;
  next_out = 2;
  reset_awaiting_confirmation = some 3;
  log = sequence_reset ∷ [];
}

abbrev reset_answer : FixMessage
reset_answer = record {
  begin_string = b'F' ∷ [];
  fields =
      (35, b'A' ∷ [])
      ∷ (49, b'V' ∷ [])
      ∷ (56, b'U' ∷ [])
      ∷ (34, b'1' ∷ [])
      ∷ (52, b'T' ∷ [])
      ∷ (141, b'Y' ∷ [])
      ∷ [];
  defect = none;
}

abbrev second : FixMessage
second = from_peer (b'2' ∷ [])

joining-IsSound : IsSound joining
unfolding IsInOrder
joining-IsSound = record { fresh = tt; order = tt; ahead = tt }

-- The answer leaves nothing awaited, and the message behind it is handed over.
own_reset :
    let s = session_of (handle_all ((around, reset_answer) ∷ (around, second) ∷ []) joining) in
    (s.reset_awaiting_confirmation ≡ none) × (s.next_in ≡ 3) × (deliveries s.log ≡ 2 ∷ [])
unfolding lookup after_digits take drop read_from handle handle_timed handle_number on_gap on_admin
    advance_to maybe_ready IsInOrder handle_all on_logon_with_reset deliveries
own_reset = (refl, refl, refl)

handle_all-IsSound_example :
    IsSound (session_of (handle_all ((around, reset_answer) ∷ (around, second) ∷ []) joining))
handle_all-IsSound_example =
    handle_all-IsSound ((around, reset_answer) ∷ (around, second) ∷ []) joining joining-IsSound

fifth-IsChecked : IsChecked around fifth 5 1000 up
unfolding lookup after_digits take drop read_from handle handle_timed handle_number on_gap on_admin
    advance_to maybe_ready IsInOrder handle_all find_stored resend_loop covered deliveries
fifth-IsChecked = record {
  named = refl;
  numbered = refl;
  positive = omega arith;
  sender = refl;
  target = refl;
  on_time = refl;
}

seventh-IsChecked : IsChecked around seventh 7 1000 up
unfolding lookup after_digits take drop read_from handle handle_timed handle_number on_gap on_admin
    advance_to maybe_ready IsInOrder handle_all find_stored resend_loop covered deliveries
seventh-IsChecked = record {
  named = refl;
  numbered = refl;
  positive = omega arith;
  sender = refl;
  target = refl;
  on_time = refl;
}

delivers_expected_example :
    (s' : Session) × (handle around fifth up ≡ running s')
    × (deliveries s'.log ≡ 5 ∷ [])
    × (5 < s'.next_in)
unfolding lookup after_digits take drop read_from handle handle_timed handle_number on_gap on_admin
    advance_to maybe_ready IsInOrder handle_all find_stored resend_loop covered deliveries
delivers_expected_example =
    delivers_expected around fifth 1000 up answer fifth-IsChecked refl refl refl refl refl

gap_requested_example :
    (s' : Session) × (handle around seventh up ≡ running s')
    × (s'.next_in ≡ 5)
    × (deliveries s'.log ≡ [])
    × (s'.resend_target ≡ some 7)
    × (s'.log ≡ sent 7 (resend_request 5) ∷ [])
unfolding lookup after_digits take drop read_from handle handle_timed handle_number on_gap on_admin
    advance_to maybe_ready IsInOrder handle_all find_stored resend_loop covered deliveries
gap_requested_example =
    gap_requested around seventh 7 1000 up seventh-IsChecked refl refl (omega arith)
