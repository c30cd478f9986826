-- ===== src/Fix/Session/Quiet.antt =====
-- src/ismet/fix/session.py: the parts of a handler that deliver nothing and lower no number.
use ismet.Prelude.{
  ℕ, suc, ◌≤◌, ◌<◌, Bool, true, false, not, ◌&&◌, Option, none, some, List, [], ◌∷◌, ltb,
  if◌then◌else◌, ◌≡◌, refl, ap, ◌∙◌, inl, inr, arith, Bool-cases,
}
use ismet.Fix.Session.{
  Admin, Effect, delivered, sequence_reset, sent, resent, gap_filled, delivery_failed, discarded,
  session_reject, possible_loss, session_ready, Session, send_admin, send_sync_request,
  send_resend_request, is_none, maybe_ready, catch_up, advance_to, advance, begin_logout,
  is_syncing, is_logon_sent,
}

-- The numbers of the messages that were handed to the application, whether it took them or failed,
-- the last first.
unfoldable pub deliveries : List Effect → List ℕ
deliveries [] = []
deliveries (delivered seq message ∷ es) = seq ∷ deliveries es
deliveries (delivery_failed seq message ∷ es) = seq ∷ deliveries es
deliveries (e ∷ es) = deliveries es

-- Since the last reset, the numbers that were delivered rise, and the last is below `n`; a number
-- that the application failed on may come again.
unfoldable pub IsInOrder : ℕ → List Effect → Type 0
IsInOrder n [] = Unit
IsInOrder n (delivered seq message ∷ es) = (seq < n) × IsInOrder seq es
IsInOrder n (delivery_failed seq message ∷ es) = (seq ≤ n) × IsInOrder seq es
IsInOrder n (sequence_reset ∷ es) = Unit
IsInOrder n (e ∷ es) = IsInOrder n es

-- An open gap ends at a number that is still to come.
abbrev pub IsAhead : ℕ → Option ℕ → Type 0
IsAhead n none = Unit
IsAhead n (some target) = n ≤ target

-- No number was delivered since the last reset, when an answer to a reset of our own may come: it is
-- awaited, and the Logon is out.
abbrev pub FreshWhen : (answered joining : Bool) → List Effect → Type 0
FreshWhen false true log = IsInOrder 0 log
FreshWhen _ _ log = Unit

pub record IsQuiet (s s' : Session) : Type 0 where
  pub higher : s.next_in ≤ s'.next_in
  pub silent : (n : ℕ) → IsInOrder n s.log → IsInOrder n s'.log
  pub same : deliveries s'.log ≡ deliveries s.log
  pub ahead : IsAhead s.next_in s.resend_target → IsAhead s'.next_in s'.resend_target
  pub awaits :
      is_none s.reset_awaiting_confirmation ≡ true → is_none s'.reset_awaiting_confirmation ≡ true
  pub stays : is_logon_sent s.state ≡ false → is_logon_sent s'.state ≡ false

pub IsQuiet-trans : (a b c : Session) → IsQuiet a b → IsQuiet b c → IsQuiet a c
IsQuiet-trans a b c q r = record {
  higher = omega (arith, q.higher, r.higher);
  silent = λ n h. r.silent n (q.silent n h);
  same = r.same ∙ q.same;
  ahead = λ h. r.ahead (q.ahead h);
  awaits = λ h. r.awaits (q.awaits h);
  stays = λ h. r.stays (q.stays h);
}

pub IsQuiet-refl : (s : Session) → IsQuiet s s
IsQuiet-refl s = record {
  higher = omega arith;
  silent = λ n h. h;
  same = refl;
  ahead = λ h. h;
  awaits = λ h. h;
  stays = λ h. h;
}

pub IsQuiet-if :
    (t : Bool) (s a b : Session) → IsQuiet s a → IsQuiet s b → IsQuiet s (if t then a else b)
IsQuiet-if true s a b q r = q
IsQuiet-if false s a b q r = r

pub IsInOrder_more : (n k : ℕ) (log : List Effect) → n ≤ k → IsInOrder n log → IsInOrder k log
unfolding IsInOrder
IsInOrder_more n k [] le h = tt
IsInOrder_more n k (delivered seq message ∷ es) le h = (omega (arith, le, h.0), h.1)
IsInOrder_more n k (sequence_reset ∷ es) le h = tt
IsInOrder_more n k (sent seq a ∷ es) le h = IsInOrder_more n k es le h
IsInOrder_more n k (resent seq ∷ es) le h = IsInOrder_more n k es le h
IsInOrder_more n k (gap_filled a b ∷ es) le h = IsInOrder_more n k es le h
IsInOrder_more n k (delivery_failed seq message ∷ es) le h = (omega (arith, le, h.0), h.1)
IsInOrder_more n k (discarded seq ∷ es) le h = IsInOrder_more n k es le h
IsInOrder_more n k (session_reject ∷ es) le h = IsInOrder_more n k es le h
IsInOrder_more n k (possible_loss a b ∷ es) le h = IsInOrder_more n k es le h
IsInOrder_more n k (session_ready ∷ es) le h = IsInOrder_more n k es le h

pub send_admin-IsQuiet : (a : Admin) (s : Session) → IsQuiet s (send_admin a s)
unfolding IsInOrder deliveries
send_admin-IsQuiet a s = record {
  higher = omega arith;
  silent = λ n h. h;
  same = refl;
  ahead = λ h. h;
  awaits = λ h. h;
  stays = λ h. h;
}

pub send_sync_request-IsQuiet : (s : Session) → IsQuiet s (send_sync_request s)
unfolding IsInOrder deliveries
send_sync_request-IsQuiet s = record {
  higher = omega arith;
  silent = λ n h. h;
  same = refl;
  ahead = λ h. h;
  awaits = λ h. h;
  stays = λ h. h;
}

pub send_resend_request-IsQuiet : (s : Session) → IsQuiet s (send_resend_request s)
unfolding IsInOrder deliveries
send_resend_request-IsQuiet s = record {
  higher = omega arith;
  silent = λ n h. h;
  same = refl;
  ahead = λ h. h;
  awaits = λ h. h;
  stays = λ h. h;
}

pub begin_logout-IsQuiet : (s : Session) → IsQuiet s (begin_logout s)
unfolding IsInOrder deliveries
begin_logout-IsQuiet s = record {
  higher = omega arith;
  silent = λ n h. h;
  same = refl;
  ahead = λ h. h;
  awaits = λ h. h;
  stays = λ h. refl;
}

maybe_ready-IsQuiet : (s : Session) → IsQuiet s (maybe_ready s)
unfolding maybe_ready IsInOrder deliveries
maybe_ready-IsQuiet s =
    IsQuiet-if (is_syncing s.state && s.synced && is_none s.resend_target) s _ _
      (record {
        higher = omega arith;
        silent = λ n h. h;
        same = refl;
        ahead = λ h. h;
        awaits = λ h. h;
        stays = λ h. refl;
      })
      (IsQuiet-refl s)

-- A move to `value`: what is noted on the way, and a gap that it leaves open.
record IsMoved (s s' : Session) : Type 0 where
  kept : s.next_in ≡ s'.next_in
  silent : (n : ℕ) → IsInOrder n s.log → IsInOrder n s'.log
  same : deliveries s'.log ≡ deliveries s.log
  ahead : IsAhead s'.next_in s'.resend_target
  awaited : s'.reset_awaiting_confirmation ≡ s.reset_awaiting_confirmation
  stayed : is_logon_sent s'.state ≡ is_logon_sent s.state

IsMoved-if :
    (t : Bool) (s a b : Session) → IsMoved s a → IsMoved s b → IsMoved s (if t then a else b)
IsMoved-if true s a b q r = q
IsMoved-if false s a b q r = r

catch_up-IsMoved : (o : Option ℕ) (s : Session) → s.resend_target ≡ o → IsMoved s (catch_up o s)
unfolding IsInOrder deliveries
catch_up-IsMoved none s h = record {
  kept = refl;
  silent = λ n k. k;
  same = refl;
  ahead = rw (h) tt;
  awaited = refl;
  stayed = refl;
}
catch_up-IsMoved (some target) s h = elim (Bool-cases (ltb target s.next_in)) [
  | inl e ↦ rw (e) (
      IsMoved-if (is_syncing s.state && not s.synced) s _ _
        (record {
          kept = refl;
          silent = λ n k. k;
          same = refl;
          ahead = tt;
          awaited = refl;
          stayed = refl;
        })
        (record {
          kept = refl;
          silent = λ n k. k;
          same = refl;
          ahead = tt;
          awaited = refl;
          stayed = refl;
        }))
  | inr e ↦ rw (e) (record {
    kept = refl;
    silent = λ n k. k;
    same = refl;
    ahead = rw (h) (ground (arith, e));
    awaited = refl;
    stayed = refl;
  })
]

-- A move to a number that is not lower delivers nothing, and leaves a gap only ahead of it.
pub advance_to-IsQuiet :
    (value : ℕ) (s : Session) → s.next_in ≤ value → IsQuiet s (advance_to value s)
unfolding advance_to
advance_to-IsQuiet value s le =
    let here = record s { next_in = value } in
    let moved = catch_up-IsMoved s.resend_target here refl in
    let there = catch_up s.resend_target here in
    IsQuiet-trans s there (maybe_ready there)
      (record {
        higher = omega (arith, le, moved.kept);
        silent = moved.silent;
        same = moved.same;
        ahead = λ h. moved.ahead;
        awaits = λ h. ap is_none moved.awaited ∙ h;
        stays = λ h. moved.stayed ∙ h;
      })
      (maybe_ready-IsQuiet there)

-- It moves there at least.
pub advance_to_next : (value : ℕ) (s : Session) → value ≤ (advance_to value s).next_in
unfolding advance_to
advance_to_next value s =
    let here = record s { next_in = value } in
    let moved = catch_up-IsMoved s.resend_target here refl in
    omega (arith, moved.kept, (maybe_ready-IsQuiet (catch_up s.resend_target here)).higher)

pub advance-IsQuiet : (s : Session) → IsQuiet s (advance s)
advance-IsQuiet s = advance_to-IsQuiet (suc s.next_in) s (omega arith)

-- Wherever it moves to, a gap that is still open is ahead.
pub advance_to-IsAhead :
    (value : ℕ) (s : Session)
    → IsAhead (advance_to value s).next_in (advance_to value s).resend_target
unfolding advance_to
advance_to-IsAhead value s =
    let moved = catch_up-IsMoved s.resend_target (record s { next_in = value }) refl in
    (maybe_ready-IsQuiet (catch_up s.resend_target (record s { next_in = value }))).ahead
      moved.ahead

-- It delivers nothing, wherever it moves to.
pub advance_to_silent :
    (value : ℕ) (s : Session)
    → ((n : ℕ) → IsInOrder n s.log → IsInOrder n (advance_to value s).log)
      × (deliveries (advance_to value s).log ≡ deliveries s.log)
unfolding advance_to
advance_to_silent value s =
    let here = record s { next_in = value } in
    let moved = catch_up-IsMoved s.resend_target here refl in
    let settled = maybe_ready-IsQuiet (catch_up s.resend_target here) in
    (λ n h. settled.silent n (moved.silent n h), settled.same ∙ moved.same)
