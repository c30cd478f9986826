-- ===== src/Fix/Session/Delivery.antt =====
-- src/ismet/fix/session.py: `_handle` keeps the order of what it delivers.
use mathlib.Core.Path.{subst₂}
use ismet.Prelude.{
  ℕ, suc, ◌≤◌, ◌<◌, Bool, true, false, ◌||◌, Option, none, some, List, [], ◌∷◌, ltb, if◌then◌else◌,
  ◌≡◌, ◌≢◌, refl, ◌∙◌, arith,
}
use ismet.Fix.Parse.{FixMessage, FieldDefect}
use ismet.Fix.Session.{
  Effect, delivery_failed, reject, delivered, Session, note, send_admin, is_none, advance_to,
  advance, reset_numbers, session_of, is_logon_sent, is_ready, is_syncing, logon,
}
use ismet.Fix.Session.Inbound.{
  Answer, takes, rejects, fails, Surroundings, on_logon_confirmed, after_logon, lose,
  obey_peer_reset,
}
use ismet.Fix.Session.Handle.{reject_defect, after_answer, deliver_to}
use ismet.Fix.Session.Quiet.{
  deliveries, IsInOrder, IsInOrder_more, IsAhead, FreshWhen, IsQuiet, IsQuiet-trans, IsQuiet-refl,
  IsQuiet-if, send_admin-IsQuiet, advance_to-IsQuiet, advance-IsQuiet, advance_to_next,
  advance_to_silent, advance_to-IsAhead,
}
use ismet.Fix.Session.Quietly.{after_logon-IsQuiet, lose-IsQuiet, on_logon_confirmed-IsQuiet}

-- The numbers that were handed over since the last reset are in order up to the expected one, an open
-- gap is ahead, and none was handed over when an answer to a reset of our own may come.
pub record IsSound (s : Session) : Type 0 where
  pub fresh : FreshWhen (is_none s.reset_awaiting_confirmation) (is_logon_sent s.state) s.log
  pub order : IsInOrder s.next_in s.log
  pub ahead : IsAhead s.next_in s.resend_target

-- What the handling of message `seq` does to a session; `resets` says that it is a Logon with
-- ResetSeqNumFlag.
pub record IsFaithful (seq : ℕ) (resets : Bool) (s s' : Session) : Type 0 where
  pub sound : IsSound s → IsSound s'
  pub same : seq ≢ s.next_in → deliveries s'.log ≡ deliveries s.log
  pub higher : resets ≡ false → s.next_in ≤ s'.next_in

pub FreshWhen_empty : (a j : Bool) (log : List Effect) → IsInOrder 0 log → FreshWhen a j log
FreshWhen_empty true j log h = tt
FreshWhen_empty false false log h = tt
FreshWhen_empty false true log h = h

pub FreshWhen_joined : (a j : Bool) (log : List Effect) → j ≡ false → FreshWhen a j log
FreshWhen_joined true j log h = tt
FreshWhen_joined false false log h = tt
FreshWhen_joined false true log h = absurd (ground (arith, h))

FreshWhen_kept :
    (a j a' j' : Bool) (log log' : List Effect)
    → (a ≡ true → a' ≡ true)
    → (j ≡ false → j' ≡ false)
    → (IsInOrder 0 log → IsInOrder 0 log')
    → FreshWhen a j log
    → FreshWhen a' j' log'
FreshWhen_kept a j true j' log log' p q k h = tt
FreshWhen_kept a j false false log log' p q k h = tt
FreshWhen_kept true j false true log log' p q k h = absurd (ground (arith, p refl))
FreshWhen_kept false false false true log log' p q k h = absurd (ground (arith, q refl))
FreshWhen_kept false true false true log log' p q k h = k h

quiet-IsSound : (s s' : Session) → IsQuiet s s' → IsSound s → IsSound s'
quiet-IsSound s s' q h = record {
  fresh = FreshWhen_kept _ _ _ _ s.log s'.log q.awaits q.stays (q.silent 0) h.fresh;
  order = IsInOrder_more s.next_in s'.next_in s'.log q.higher (q.silent s.next_in h.order);
  ahead = q.ahead h.ahead;
}

pub quiet-IsFaithful :
    (seq : ℕ) (resets : Bool) (s s' : Session) → IsQuiet s s' → IsFaithful seq resets s s'
quiet-IsFaithful seq resets s s' q = record {
  sound = quiet-IsSound s s' q;
  same = λ _. q.same;
  higher = λ _. q.higher;
}

pub reject_defect-IsQuiet :
    (seq : ℕ) (o : Option FieldDefect) (s : Session)
    → IsQuiet s (reject_defect seq o s) × ((reject_defect seq o s).next_in ≡ s.next_in)
reject_defect-IsQuiet seq none s = (IsQuiet-refl s, refl)
reject_defect-IsQuiet seq (some d) s = (send_admin-IsQuiet _ s, refl)

-- A message that is noted as delivered, answered, and passed.
pass_delivered :
    (seq : ℕ) (resets : Bool) (message : FixMessage) (s told : Session)
    → is_logon_sent s.state ≡ false
    → seq ≡ s.next_in
    → IsQuiet (note (delivered seq message) s) told
    → told.next_in ≡ s.next_in
    → IsFaithful seq resets s (advance told)
unfolding IsInOrder
pass_delivered seq resets message s told joined expected quiet kept =
    let noted = note (delivered seq message) s in
    let q : IsQuiet noted (advance told) =
      IsQuiet-trans noted told (advance told) quiet (advance-IsQuiet told) in
    let beyond : seq < (advance told).next_in =
      omega (arith, advance_to_next (suc told.next_in) told, expected, kept) in
    record {
      sound = λ h. record {
        fresh = FreshWhen_joined _ _ (advance told).log (q.stays joined);
        order =
            q.silent (advance told).next_in
              (beyond, IsInOrder_more s.next_in seq s.log (omega (arith, expected)) h.order);
        ahead = q.ahead h.ahead;
      };
      same = λ differ. absurd (differ expected);
      higher = λ _. omega (arith, beyond, expected);
    }

after_answer-IsFaithful :
    (message : FixMessage) (seq : ℕ) (resets : Bool) (a : Answer) (s : Session)
    → is_logon_sent s.state ≡ false
    → seq ≡ s.next_in
    → IsFaithful seq resets s (session_of (after_answer message seq a s))
unfolding IsInOrder deliveries
after_answer-IsFaithful message seq resets takes s joined expected =
    let (quiet, kept) = reject_defect-IsQuiet seq message.defect (note (delivered seq message) s) in
    pass_delivered seq resets message s _ joined expected quiet kept
after_answer-IsFaithful message seq resets (rejects reason tag) s joined expected =
    pass_delivered seq resets message s _ joined expected
      (send_admin-IsQuiet (reject seq reason tag) _) refl
after_answer-IsFaithful message seq resets fails s joined expected = record {
  sound = λ h. record {
    fresh = FreshWhen_joined _ _ (delivery_failed seq message ∷ s.log) joined;
    order = (
      omega (arith, expected),
      IsInOrder_more s.next_in seq s.log (omega (arith, expected)) h.order,
    );
    ahead = h.ahead;
  };
  same = λ differ. absurd (differ expected);
  higher = λ _. omega arith;
}

pub deliver_to-IsFaithful :
    (o : Option (FixMessage → Answer)) (message : FixMessage) (seq : ℕ) (resets : Bool)
    (s : Session)
    → is_logon_sent s.state ≡ false
    → seq ≡ s.next_in
    → IsFaithful seq resets s (session_of (deliver_to o message seq s))
deliver_to-IsFaithful none message seq resets s joined expected =
    quiet-IsFaithful seq resets s _ (advance-IsQuiet s)
deliver_to-IsFaithful (some listener) message seq resets s joined expected =
    after_answer-IsFaithful message seq resets (listener message) s joined expected

pub obey_peer_reset-IsFaithful :
    (e : Surroundings) (seq : ℕ) (s : Session)
    → IsFaithful seq true s (after_logon (obey_peer_reset e s))
unfolding IsInOrder deliveries
obey_peer_reset-IsFaithful e seq s =
    let moved =
      if is_logon_sent s.state || is_ready s.state || is_syncing s.state
      then on_logon_confirmed s
      else s in
    let unsynced = record moved { synced = false; sync_ids = [] } in
    let told = if ltb 1 s.next_in then lose e s.next_in none unsynced else unsynced in
    let q1 : IsQuiet s moved =
      IsQuiet-if (is_logon_sent s.state || is_ready s.state || is_syncing s.state) s _ _
        (on_logon_confirmed-IsQuiet s) (IsQuiet-refl s) in
    let q2 : IsQuiet moved unsynced = record {
      higher = omega arith;
      silent = λ n k. k;
      same = refl;
      ahead = λ k. k;
      awaits = λ k. k;
      stays = λ k. k;
    } in
    let q3 : IsQuiet unsynced told =
      IsQuiet-if (ltb 1 s.next_in) unsynced _ _ (lose-IsQuiet e s.next_in none unsynced)
        (IsQuiet-refl unsynced) in
    let q : IsQuiet s told =
      IsQuiet-trans s moved told q1 (IsQuiet-trans moved unsynced told q2 q3) in
    let base = reset_numbers told in
    let clean : IsSound base = record {
      fresh = FreshWhen_empty _ _ base.log tt;
      order = tt;
      ahead = tt;
    } in
    let at_two = advance_to 2 base in
    let answered = send_admin (logon true) at_two in
    let r : IsQuiet base (after_logon answered) =
      IsQuiet-trans base at_two _ (advance_to-IsQuiet 2 base (omega arith)) (
        IsQuiet-trans at_two answered _ (send_admin-IsQuiet (logon true) at_two)
          (after_logon-IsQuiet answered)) in
    record {
      sound = λ _. quiet-IsSound base _ r clean;
      same = λ _. r.same ∙ q.same;
      higher = λ n. absurd (ground (arith, n));
    }

-- The answer to a reset of our own.
pub own_reset-IsFaithful :
    (s : Session)
    → is_none s.reset_awaiting_confirmation ≡ false
    → is_logon_sent s.state ≡ true
    → IsFaithful 1 true s (after_logon (on_logon_confirmed (advance_to 2 s)))
own_reset-IsFaithful s asked joining =
    let there = advance_to 2 s in
    let confirmed = on_logon_confirmed there in
    let answered = after_logon-IsQuiet confirmed in
    let q : IsQuiet there (after_logon confirmed) =
      IsQuiet-trans there confirmed _ (on_logon_confirmed-IsQuiet there) answered in
    let (silent, same) = advance_to_silent 2 s in
    let last = (after_logon confirmed).next_in in
    record {
      sound = λ h.
          let none_yet : IsInOrder 0 s.log =
            subst₂ (λ a j. FreshWhen a j s.log) asked joining h.fresh in
          record {
            fresh = FreshWhen_joined _ _ (after_logon confirmed).log (answered.stays refl);
            order =
                q.silent last (silent last (IsInOrder_more 0 last s.log (omega arith) none_yet));
            ahead = q.ahead (advance_to-IsAhead 2 s);
          };
      same = λ _. q.same ∙ same;
      higher = λ n. absurd (ground (arith, n));
    }
