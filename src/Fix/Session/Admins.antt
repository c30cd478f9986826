-- ===== src/Fix/Session/Admins.antt =====
-- src/ismet/fix/session.py: `_on_resend_request`, `_on_gap` and `_on_admin` deliver nothing and
-- lower no number.
use ismet.Prelude.{
  ℕ, zero, suc, ◌-◌, ◌≤◌, Bool, true, ◌||◌, Option, none, some, List, [], ◌∷◌, ltb, if◌then◌else◌,
  ◌≡◌, refl, inl, inr, arith, Bool-cases, All,
}
use ismet.Fix.Parse.{FixMessage}
use ismet.Fix.Session.{
  FixSessionConfig, Effect, delivered, sequence_reset, sent, resent, gap_filled, delivery_failed,
  discarded, session_reject, possible_loss, session_ready, Session, note, is_none, advance,
  is_logon_sent,
}
use ismet.Fix.Session.Resend.{
  resend_effects, resend_end, resend_loop, close_gap, open_gap, log_all, sends_again,
}
use ismet.Fix.Session.Inbound.{
  Surroundings, MsgType, type_heartbeat, type_test_request, type_resend_request, type_reject,
  type_sequence_reset, type_logout, type_logon, application, is_set, read_number,
  on_logon_confirmed,
}
use ismet.Fix.Session.Handle.{
  resend_between, on_resend_request, higher, mark_gap, on_gap, on_new_admin, on_admin,
}
use ismet.Fix.Session.Quiet.{
  deliveries, IsInOrder, IsAhead, IsQuiet, IsQuiet-trans, IsQuiet-refl, IsQuiet-if,
  send_admin-IsQuiet, send_resend_request-IsQuiet, begin_logout-IsQuiet, advance-IsQuiet,
}
use ismet.Fix.Session.Quietly.{
  after_logon-IsQuiet, on_logon_confirmed-IsQuiet, on_heartbeat-IsQuiet, on_test_request-IsQuiet,
  fill_to-IsQuiet,
}

-- The effects of an answer to a ResendRequest.
abbrev IsOut : Effect → Type 0
IsOut (resent seq) = Unit
IsOut (gap_filled seq new_seq) = Unit
IsOut e = ⊥

IsOut-close :
    (gap : Option ℕ) (seq : ℕ) (es : List Effect) → All IsOut es → All IsOut (close_gap gap seq es)
IsOut-close none seq es h = h
IsOut-close (some start) seq es h = (tt, h)

resend_loop-IsOut :
    (again : ℕ → Bool) (count seq : ℕ) (gap : Option ℕ)
    → All IsOut (resend_loop again count seq gap)
unfolding resend_loop
resend_loop-IsOut again zero seq gap = IsOut-close gap seq [] tt
resend_loop-IsOut again (suc count) seq gap = elim (Bool-cases (again seq)) [
  | inl e ↦ rw (e) (IsOut-close gap seq _ (tt, resend_loop-IsOut again count (suc seq) none))
  | inr e ↦ rw (e) (resend_loop-IsOut again count (suc seq) (open_gap gap seq))
]

log_one-IsQuiet : (e : Effect) (s : Session) → IsOut e → IsQuiet s (record s { log = e ∷ s.log })
unfolding IsInOrder deliveries
log_one-IsQuiet (resent seq) s h = record {
  higher = omega arith;
  silent = λ n k. k;
  same = refl;
  ahead = λ k. k;
  awaits = λ k. k;
  stays = λ k. k;
}
log_one-IsQuiet (gap_filled seq new_seq) s h = record {
  higher = omega arith;
  silent = λ n k. k;
  same = refl;
  ahead = λ k. k;
  awaits = λ k. k;
  stays = λ k. k;
}
log_one-IsQuiet (sent seq a) s h = elim h [ ]
log_one-IsQuiet (delivered seq m) s h = elim h [ ]
log_one-IsQuiet (delivery_failed seq m) s h = elim h [ ]
log_one-IsQuiet (discarded seq) s h = elim h [ ]
log_one-IsQuiet session_reject s h = elim h [ ]
log_one-IsQuiet (possible_loss a b) s h = elim h [ ]
log_one-IsQuiet session_ready s h = elim h [ ]
log_one-IsQuiet sequence_reset s h = elim h [ ]

log_all-IsQuiet :
    (es : List Effect) (s : Session)
    → All IsOut es
    → IsQuiet s (log_all es s) × ((log_all es s).next_in ≡ s.next_in)
unfolding log_all
log_all-IsQuiet [] s h = (IsQuiet-refl s, refl)
log_all-IsQuiet (e ∷ es) s h =
    let here = record s { log = e ∷ s.log } in
    let (quiet, same) = log_all-IsQuiet es here h.1 in
    (IsQuiet-trans s here _ (log_one-IsQuiet e s h.0) quiet, same)

resend_effects-IsOut :
    (config : FixSessionConfig) (now begin end : ℕ) (s : Session)
    → All IsOut (resend_effects config now begin end s)
resend_effects-IsOut config now begin end s =
    let last = resend_end end (s.next_out - 1) in
    elim (Bool-cases (ltb begin 1 || ltb last begin)) [
      | inl e ↦ rw (e) tt
      | inr e ↦
          rw (e) (resend_loop-IsOut (sends_again config now s.stored) (suc last - begin) begin none)
    ]

resend_between-IsQuiet :
    (e : Surroundings) (seq : ℕ) (begin end : Option ℕ) (s : Session)
    → IsQuiet s (resend_between e seq begin end s)
      × ((resend_between e seq begin end s).next_in ≡ s.next_in)
resend_between-IsQuiet e seq none end s = (send_admin-IsQuiet _ s, refl)
resend_between-IsQuiet e seq (some begin) none s = (send_admin-IsQuiet _ s, refl)
resend_between-IsQuiet e seq (some begin) (some end) s =
    log_all-IsQuiet (resend_effects e.config e.now begin end s) s
      (resend_effects-IsOut e.config e.now begin end s)

higher_lem : (o : Option ℕ) (n seq : ℕ) → n ≤ seq → IsAhead n o → n ≤ higher o seq
higher_lem none n seq h k = h
higher_lem (some target) n seq h k = ground (arith, h, k)

mark_gap-IsQuiet : (seq : ℕ) (s : Session) → s.next_in ≤ seq → IsQuiet s (mark_gap seq s)
mark_gap-IsQuiet seq s le =
    let marked = record s { resend_target = some (higher s.resend_target seq) } in
    let first : IsQuiet s marked = record {
      higher = omega arith;
      silent = λ n h. h;
      same = refl;
      ahead = higher_lem s.resend_target s.next_in seq le;
      awaits = λ h. h;
      stays = λ h. h;
    } in
    IsQuiet-if (is_none s.resend_target) s _ _
      (IsQuiet-trans s marked _ first (send_resend_request-IsQuiet marked)) first

pub on_gap-IsQuiet :
    (e : Surroundings) (message : FixMessage) (seq : ℕ) (t : MsgType) (s : Session)
    → s.next_in ≤ seq
    → IsQuiet s (on_gap e message seq t s)
unfolding on_gap
on_gap-IsQuiet e message seq type_logon s le =
    let confirmed = on_logon_confirmed s in
    IsQuiet-trans s confirmed _ (on_logon_confirmed-IsQuiet s) (
      IsQuiet-trans confirmed (mark_gap seq confirmed) _ (mark_gap-IsQuiet seq confirmed le)
        (after_logon-IsQuiet (mark_gap seq confirmed)))
on_gap-IsQuiet e message seq type_resend_request s le = elim (Bool-cases (is_set message 43)) [
  | inl h ↦ rw (h) (mark_gap-IsQuiet seq s le)
  | inr h ↦
      let (quiet, same) =
        resend_between-IsQuiet e seq (read_number message 7) (read_number message 16) s in
      rw (h) (IsQuiet-trans s _ _ quiet (mark_gap-IsQuiet seq _ (omega (arith, same, le))))
]
on_gap-IsQuiet e message seq type_logout s le =
    IsQuiet-trans s _ _ (mark_gap-IsQuiet seq s le) (begin_logout-IsQuiet (mark_gap seq s))
on_gap-IsQuiet e message seq type_heartbeat s le = mark_gap-IsQuiet seq s le
on_gap-IsQuiet e message seq type_test_request s le = mark_gap-IsQuiet seq s le
on_gap-IsQuiet e message seq type_reject s le = mark_gap-IsQuiet seq s le
on_gap-IsQuiet e message seq type_sequence_reset s le = mark_gap-IsQuiet seq s le
on_gap-IsQuiet e message seq application s le = mark_gap-IsQuiet seq s le

on_new_admin-IsQuiet :
    (e : Surroundings) (message : FixMessage) (seq : ℕ) (t : MsgType) (s : Session)
    → IsQuiet s (on_new_admin e message seq t s)
on_new_admin-IsQuiet e message seq type_logon s =
    let confirmed = on_logon_confirmed s in
    IsQuiet-if (is_logon_sent s.state) s _ _
      (IsQuiet-trans s confirmed _ (on_logon_confirmed-IsQuiet s) (
        IsQuiet-trans confirmed (advance confirmed) _ (advance-IsQuiet confirmed)
          (after_logon-IsQuiet (advance confirmed))))
      (advance-IsQuiet s)
on_new_admin-IsQuiet e message seq type_heartbeat s = on_heartbeat-IsQuiet message s
on_new_admin-IsQuiet e message seq type_test_request s = on_test_request-IsQuiet message seq s
on_new_admin-IsQuiet e message seq type_resend_request s =
    let (quiet, same) =
      resend_between-IsQuiet e seq (read_number message 7) (read_number message 16) s in
    IsQuiet-trans s _ _ quiet (advance-IsQuiet (on_resend_request e message seq s))
on_new_admin-IsQuiet e message seq type_logout s =
    let past = record (advance s) { inbound_complete = true } in
    let q = advance-IsQuiet s in
    IsQuiet-trans s past _
      (record {
        higher = q.higher;
        silent = q.silent;
        same = q.same;
        ahead = q.ahead;
        awaits = q.awaits;
        stays = q.stays;
      })
      (begin_logout-IsQuiet past)
on_new_admin-IsQuiet e message seq type_reject s = IsQuiet-refl s
on_new_admin-IsQuiet e message seq type_sequence_reset s = IsQuiet-refl s
on_new_admin-IsQuiet e message seq application s = IsQuiet-refl s

or_duplicate :
    (e : Surroundings) (message : FixMessage) (seq : ℕ) (poss_dup : Bool) (t : MsgType)
    (s : Session)
    → IsQuiet s (if poss_dup then advance s else on_new_admin e message seq t s)
or_duplicate e message seq poss_dup t s =
    IsQuiet-if poss_dup s _ _ (advance-IsQuiet s) (on_new_admin-IsQuiet e message seq t s)

pub on_admin-IsQuiet :
    (e : Surroundings) (message : FixMessage) (seq : ℕ) (poss_dup : Bool) (t : MsgType)
    (s : Session)
    → seq ≡ s.next_in
    → IsQuiet s (on_admin e message seq poss_dup t s)
unfolding on_admin IsInOrder deliveries
on_admin-IsQuiet e message seq poss_dup type_sequence_reset s h =
    fill_to-IsQuiet seq (read_number message 36) s h
on_admin-IsQuiet e message seq poss_dup type_reject s h =
    let told = if is_none e.listener then s else note session_reject s in
    IsQuiet-trans s told _
      (IsQuiet-if (is_none e.listener) s _ _ (IsQuiet-refl s) (record {
        higher = omega arith;
        silent = λ n k. k;
        same = refl;
        ahead = λ k. k;
        awaits = λ k. k;
        stays = λ k. k;
      }))
      (advance-IsQuiet told)
on_admin-IsQuiet e message seq poss_dup type_heartbeat s h =
    or_duplicate e message seq poss_dup type_heartbeat s
on_admin-IsQuiet e message seq poss_dup type_test_request s h =
    or_duplicate e message seq poss_dup type_test_request s
on_admin-IsQuiet e message seq poss_dup type_resend_request s h =
    or_duplicate e message seq poss_dup type_resend_request s
on_admin-IsQuiet e message seq poss_dup type_logout s h =
    or_duplicate e message seq poss_dup type_logout s
on_admin-IsQuiet e message seq poss_dup type_logon s h =
    or_duplicate e message seq poss_dup type_logon s
on_admin-IsQuiet e message seq poss_dup application s h =
    or_duplicate e message seq poss_dup application s
