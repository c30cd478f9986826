-- ===== src/Fix/Session/Quietly.antt =====
-- src/ismet/fix/session.py: the handlers that deliver nothing and lower no number.
use ismet.Prelude.{
  ℕ, ◌-◌, Bool, true, false, not, ◌&&◌, Option, none, some, [], ltb, leb, ◌==◌, if◌then◌else◌, ◌≡◌,
  refl, inl, inr, arith, Bool-cases,
}
use ismet.Fix.Bytes.{Bytes}
use ismet.Fix.Parse.{FixMessage}
use ismet.Fix.Session.{reject, Session, is_none}
use ismet.Fix.Session.Inbound.{
  Surroundings, get, msg_type, is_application, send_reject, advance_if, discard, refuse,
  on_logon_confirmed, confirm_period, after_logon, lose,
}
use ismet.Fix.Session.Handle.{
  on_heartbeat, answers_sync, answer_test, on_test_request, fill_to, reset_to,
}
use ismet.Fix.Session.Quiet.{
  deliveries, IsInOrder, IsQuiet, IsQuiet-trans, IsQuiet-refl, IsQuiet-if, send_admin-IsQuiet,
  send_sync_request-IsQuiet, advance_to-IsQuiet, advance-IsQuiet,
}

discard-IsQuiet :
    (e : Surroundings) (message : FixMessage) (seq : ℕ) (s : Session)
    → IsQuiet s (discard e message seq s)
unfolding IsInOrder deliveries
discard-IsQuiet e message seq s =
    IsQuiet-if (not (is_none e.listener) && seq == s.next_in && is_application (msg_type message)) s
      _ _
      (record {
        higher = omega arith;
        silent = λ n h. h;
        same = refl;
        ahead = λ h. h;
        awaits = λ h. h;
        stays = λ h. h;
      })
      (IsQuiet-refl s)

advance_if-IsQuiet : (t : Bool) (s : Session) → IsQuiet s (advance_if t s)
advance_if-IsQuiet true s = advance-IsQuiet s
advance_if-IsQuiet false s = IsQuiet-refl s

pub refuse-IsQuiet :
    (e : Surroundings) (message : FixMessage) (seq reason : ℕ) (tag : Option ℕ) (moves : Bool)
    (s : Session)
    → IsQuiet s (refuse e message seq reason tag moves s)
refuse-IsQuiet e message seq reason tag moves s =
    let kept = discard e message seq s in
    let told = send_reject seq reason tag kept in
    IsQuiet-trans s kept _ (discard-IsQuiet e message seq s) (
      IsQuiet-trans kept told _ (send_admin-IsQuiet (reject seq reason tag) kept)
        (advance_if-IsQuiet moves told))

pub on_logon_confirmed-IsQuiet : (s : Session) → IsQuiet s (on_logon_confirmed s)
on_logon_confirmed-IsQuiet s = record {
  higher = omega arith;
  silent = λ n h. h;
  same = refl;
  ahead = λ h. h;
  awaits = λ h. h;
  stays = λ h. refl;
}

confirm_period-IsQuiet : (o : Option ℕ) (s : Session) → IsQuiet s (confirm_period o s)
confirm_period-IsQuiet none s = IsQuiet-refl s
confirm_period-IsQuiet (some period) s = record {
  higher = omega arith;
  silent = λ n h. h;
  same = refl;
  ahead = λ h. h;
  awaits = λ h. refl;
  stays = λ h. h;
}

pub after_logon-IsQuiet : (s : Session) → IsQuiet s (after_logon s)
after_logon-IsQuiet s =
    let confirmed = confirm_period s.reset_awaiting_confirmation s in
    IsQuiet-trans s confirmed _ (confirm_period-IsQuiet s.reset_awaiting_confirmation s)
      (send_sync_request-IsQuiet confirmed)

pub on_heartbeat-IsQuiet : (message : FixMessage) (s : Session) → IsQuiet s (on_heartbeat message s)
on_heartbeat-IsQuiet message s =
    let heard =
      if answers_sync (get message 112) s.sync_ids
      then record s { sync_ids = []; synced = true }
      else s in
    IsQuiet-trans s heard _
      (IsQuiet-if (answers_sync (get message 112) s.sync_ids) s _ _
        (record {
          higher = omega arith;
          silent = λ n h. h;
          same = refl;
          ahead = λ h. h;
          awaits = λ h. h;
          stays = λ h. h;
        })
        (IsQuiet-refl s))
      (advance-IsQuiet heard)

answer_test-IsQuiet : (seq : ℕ) (o : Option Bytes) (s : Session) → IsQuiet s (answer_test seq o s)
answer_test-IsQuiet seq none s = send_admin-IsQuiet _ s
answer_test-IsQuiet seq (some id) s = send_admin-IsQuiet _ s

pub on_test_request-IsQuiet :
    (message : FixMessage) (seq : ℕ) (s : Session) → IsQuiet s (on_test_request message seq s)
on_test_request-IsQuiet message seq s =
    let answered = answer_test seq (get message 112) s in
    IsQuiet-trans s answered _ (answer_test-IsQuiet seq (get message 112) s)
      (advance-IsQuiet answered)

pub fill_to-IsQuiet :
    (seq : ℕ) (o : Option ℕ) (s : Session) → seq ≡ s.next_in → IsQuiet s (fill_to seq o s)
fill_to-IsQuiet seq none s h =
    IsQuiet-trans s (send_reject seq 1 (some 36) s) _ (send_admin-IsQuiet _ s) (advance-IsQuiet _)
fill_to-IsQuiet seq (some new_seq) s h = elim (Bool-cases (leb new_seq seq)) [
  | inl e ↦ rw (e) (send_admin-IsQuiet _ s)
  | inr e ↦ rw (e) (advance_to-IsQuiet new_seq s (ground (arith, e, h)))
]

pub lose-IsQuiet :
    (e : Surroundings) (from : ℕ) (to : Option ℕ) (s : Session) → IsQuiet s (lose e from to s)
unfolding IsInOrder deliveries
lose-IsQuiet e from to s = IsQuiet-if (is_none e.listener) s _ _ (IsQuiet-refl s) (record {
  higher = omega arith;
  silent = λ n h. h;
  same = refl;
  ahead = λ h. h;
  awaits = λ h. h;
  stays = λ h. h;
})

lost_next :
    (e : Surroundings) (from : ℕ) (to : Option ℕ) (s : Session)
    → (lose e from to s).next_in ≡ s.next_in
lost_next e from to s = elim (Bool-cases (is_none e.listener)) [
  | inl h ↦ rw (h) refl
  | inr h ↦ rw (h) refl
]

pub reset_to-IsQuiet :
    (e : Surroundings) (seq : ℕ) (o : Option ℕ) (s : Session) → IsQuiet s (reset_to e seq o s)
reset_to-IsQuiet e seq none s = send_admin-IsQuiet _ s
reset_to-IsQuiet e seq (some new_seq) s = elim (Bool-cases (ltb new_seq s.next_in)) [
  | inl h ↦ rw (h) (send_admin-IsQuiet _ s)
  | inr h ↦
      let told = lose e s.next_in (some (new_seq - 1)) s in
      rw (h) (
        IsQuiet-if (new_seq == s.next_in) s _ _ (IsQuiet-refl s) (
          IsQuiet-trans s told _ (lose-IsQuiet e s.next_in (some (new_seq - 1)) s) (
            advance_to-IsQuiet new_seq told
              (ground (arith, h, lost_next e s.next_in (some (new_seq - 1)) s)))))
]
