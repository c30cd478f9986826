-- ===== src/Execution/Illegal.antt =====
-- src/ismet/execution/state.py: illegal transitions are noted, and no anomaly is ever lost.
use ismet.Prelude.{
  Option, none, some, List, [], ◌∷◌, ◌++◌, Text, ◌≡◌, ◌∙◌, refl, inl, inr, arith, append-nil,
  append_assoc, Decimal, Bool-cases, Option-cases, ltb_ℤ, leb_ℤ, elem, not, ◌&&◌,
}
use mathlib.Core.Path.{subst}
use ismet.Models.Orders.{fill_eq, is_some, is_terminal, status_eq, OrderStatus, EventBody, Fill}
use ismet.Execution.State.{Kind, Anomaly, OrderState, note, fill_ceiling}
use ismet.Execution.Reports.{find_fill, same_execution, fees_differ}
use ismet.Execution.Lifecycle.{kind_of, note_exposed_overfill-status, clear_pending-status}
use ismet.Execution.Apply.{
  settles, Target, move, transition, transitions, apply_known, apply_new, apply_fill, remove_fill,
  apply_bust, apply_restated, note_exposed_overfill, apply_replaced, take_terms, dispatch,
  clear_pending, apply_body,
}

-- `ys` begins with `xs`.
abbrev pub Extends : List Anomaly → List Anomaly → Type 0
Extends xs ys = (zs : List Anomaly) × (ys ≡ xs ++ zs)

Extends-refl : (xs : List Anomaly) → Extends xs xs
Extends-refl xs = ([], rw append-nil)

Extends-note :
    (s t : OrderState) (a : Anomaly)
    → Extends s.anomalies t.anomalies
    → Extends s.anomalies (note t a).anomalies
Extends-note s t a (zs, e) = (zs ++ a ∷ [], rw (e, append_assoc))

transition-Extends : (s : OrderState) (k : Kind) → Extends s.anomalies (transition s k).anomalies
unfolding transition
transition-Extends s k = go (transitions k s.status)
  where
    go : (t : Option Target) → Extends s.anomalies (move s k t).anomalies
    go none = unfold move in (Anomaly.illegal_transition k s.status ∷ [], refl)
    go (some (Target.to x)) = unfold move in Extends-refl s.anomalies
    go (some Target.working) = unfold move in Extends-refl s.anomalies
    go (some Target.resumed) = unfold move in Extends-refl s.anomalies

note_exposed_overfill-Extends :
    (xs : List Anomaly) (t n : OrderState)
    → Extends xs n.anomalies
    → Extends xs (note_exposed_overfill t n).anomalies
unfolding note_exposed_overfill
note_exposed_overfill-Extends xs t n (zs, e) =
    elim (Bool-cases (ltb_ℤ (fill_ceiling t) t.filled_quantity)) [
      | inl raised ↦ rw raised (zs, e)
      | inr new ↦ rw new (elim (Bool-cases (leb_ℤ n.filled_quantity n.quantity)) [
        | inl within ↦ rw within (zs, e)
        | inr over ↦
            rw over (zs ++ Anomaly.overfill n.filled_quantity n.quantity ∷ [], rw (e, append_assoc))
      ])
    ]

apply_known-Extends :
    (s : OrderState) (known f : Fill) → Extends s.anomalies (apply_known s known f).anomalies
unfolding apply_known
apply_known-Extends s known f = elim (Bool-cases (fill_eq known f)) [
  | inl e ↦ rw e (Extends-refl s.anomalies)
  | inr e ↦ rw e (elim (Bool-cases (same_execution known f)) [
    | inl e' ↦ rw e' (elim (Bool-cases (fees_differ known f)) [
      | inl e'' ↦ rw e'' (_, refl)
      | inr e'' ↦ rw e'' (Extends-refl s.anomalies)
    ])
    | inr e' ↦ rw e' (_, refl)
  ])
]

apply_fill-Extends : (s : OrderState) (f : Fill) → Extends s.anomalies (apply_fill s f).anomalies
unfolding apply_fill
apply_fill-Extends s f = elim (Bool-cases (elem f.fill_id s.busted_fill_ids)) [
  | inl e ↦ rw e (_, refl)
  | inr e ↦ rw e (elim (Option-cases (find_fill f.fill_id s.fills)) [
    | inl absent ↦ rw absent (unfold apply_new in (_, refl))
    | inr (known, e') ↦ rw e' (apply_known-Extends s known f)
  ])
]

apply_bust-Extends : (s : OrderState) (i : Text) → Extends s.anomalies (apply_bust s i).anomalies
unfolding apply_bust
apply_bust-Extends s i = elim (Bool-cases (elem i s.busted_fill_ids)) [
  | inl e ↦ rw e (Extends-refl s.anomalies)
  | inr e ↦ rw e (elim (Option-cases (find_fill i s.fills)) [
    | inl absent ↦ rw absent (_, refl)
    | inr (t, e') ↦ rw e' (unfold remove_fill in Extends-refl s.anomalies)
  ])
]

apply_restated-Extends :
    (s : OrderState) (x : OrderStatus) (v : Option Text)
    → Extends s.anomalies (apply_restated s x v).anomalies
unfolding apply_restated
apply_restated-Extends s x v =
    elim (Bool-cases (is_terminal s.status && not (status_eq s.status x))) [
      | inl e ↦ rw e (_, refl)
      | inr e ↦ rw e (Extends-refl s.anomalies)
    ]

apply_replaced-Extends :
    (xs : List Anomaly) (s n : OrderState) (q p : Option Decimal) (v : Option Text)
    → Extends xs n.anomalies
    → Extends xs (apply_replaced s n q p v).anomalies
unfolding apply_replaced
apply_replaced-Extends xs s n q p v h =
    let taken : Extends xs (take_terms s n q p v).anomalies = unfold take_terms in h in
    let noted = note_exposed_overfill-Extends xs s (take_terms s n q p v) taken in
    elim (Bool-cases (is_some (transitions Kind.replaced s.status))) [
      | inl e ↦
          rw e
            (elim (Bool-cases (settles n.status)) [ inl e' ↦ rw e' noted | inr e' ↦ rw e' noted ])
      | inr e ↦ rw e h
    ]

dispatch-Extends : (s : OrderState) (b : EventBody) → Extends s.anomalies (dispatch s b).anomalies
unfolding dispatch
dispatch-Extends s (EventBody.fill f) = apply_fill-Extends s f
dispatch-Extends s (EventBody.bust i _) = apply_bust-Extends s i
dispatch-Extends s (EventBody.intent r) = (_, refl)
dispatch-Extends s (EventBody.restated x v q r) = apply_restated-Extends s x v
dispatch-Extends s (EventBody.send_started i) = transition-Extends s _
dispatch-Extends s (EventBody.ack v) = transition-Extends s _
dispatch-Extends s (EventBody.reject r c) = transition-Extends s _
dispatch-Extends s (EventBody.outcome_unknown r) = transition-Extends s _
dispatch-Extends s EventBody.cancel_requested = transition-Extends s _
dispatch-Extends s (EventBody.canceled r) = transition-Extends s _
dispatch-Extends s (EventBody.cancel_rejected r c) = transition-Extends s _
dispatch-Extends s (EventBody.replace_requested q p) =
    elim (Bool-cases (is_some (transitions Kind.replace_requested s.status))) [
      | inl e ↦ rw e (transition-Extends s Kind.replace_requested)
      | inr e ↦ rw e (transition-Extends s Kind.replace_requested)
    ]
dispatch-Extends s (EventBody.replaced q p v) =
    apply_replaced-Extends s.anomalies s _ q p v (transition-Extends s Kind.replaced)
dispatch-Extends s (EventBody.replace_rejected r c) =
    note_exposed_overfill-Extends s.anomalies s _ (transition-Extends s Kind.replace_rejected)
dispatch-Extends s EventBody.expired = transition-Extends s _

clear_pending-anomalies : (s : OrderState) → (clear_pending s).anomalies ≡ s.anomalies
unfolding clear_pending
clear_pending-anomalies s = ground arith

-- No event takes an anomaly off the record: those of the state before an event begin those of
-- the state after it.
pub anomalies_kept :
    (s : OrderState) (b : EventBody) → Extends s.anomalies (apply_body s b).anomalies
unfolding apply_body
anomalies_kept s b = rw (clear_pending-anomalies (dispatch s b)) (dispatch-Extends s b)

-- The status and the terms in force are as before, and an entry for the pair follows the anomalies.
pub record IsNoted (s : OrderState) (k : Kind) (t : OrderState) : Type 0 where
  pub status_kept : t.status ≡ s.status
  pub quantity_kept : t.quantity ≡ s.quantity
  pub limit_price_kept : t.limit_price ≡ s.limit_price
  pub entry : Extends (s.anomalies ++ Anomaly.illegal_transition k s.status ∷ []) t.anomalies

-- An event whose pair with the status is missing from the table.
module _ (s : OrderState) (k : Kind) (missing : transitions k s.status ≡ none) where
  transition-IsNoted : IsNoted s k (transition s k)
  unfolding transition move
  transition-IsNoted = rw missing (record {
    status_kept = refl;
    quantity_kept = refl;
    limit_price_kept = refl;
    entry = Extends-refl (s.anomalies ++ Anomaly.illegal_transition k s.status ∷ []);
  })

clear_pending-terms :
    (s : OrderState)
    → ((clear_pending s).quantity ≡ s.quantity) × ((clear_pending s).limit_price ≡ s.limit_price)
unfolding clear_pending
clear_pending-terms s = ground arith

note_exposed_overfill-terms :
    (s t : OrderState)
    → let u = note_exposed_overfill s t in
      (u.quantity ≡ t.quantity) × (u.limit_price ≡ t.limit_price)
unfolding note_exposed_overfill
note_exposed_overfill-terms s t = ground arith

-- A state with the same status, terms and anomalies.
IsNoted-carry :
    {s : OrderState} {k : Kind} (t u : OrderState)
    → u.status ≡ t.status
    → u.quantity ≡ t.quantity
    → u.limit_price ≡ t.limit_price
    → u.anomalies ≡ t.anomalies
    → IsNoted s k t
    → IsNoted s k u
IsNoted-carry t u a b c d n = record {
  status_kept = a ∙ n.status_kept;
  quantity_kept = b ∙ n.quantity_kept;
  limit_price_kept = c ∙ n.limit_price_kept;
  entry = (n.entry.0, d ∙ n.entry.1);
}

note_exposed_overfill-IsNoted :
    {s : OrderState} {k : Kind} (t : OrderState)
    → IsNoted s k t
    → IsNoted s k (note_exposed_overfill s t)
note_exposed_overfill-IsNoted {s} {k} t n =
    let kept = note_exposed_overfill-terms s t in
    record {
      status_kept = note_exposed_overfill-status s t ∙ n.status_kept;
      quantity_kept = kept.0 ∙ n.quantity_kept;
      limit_price_kept = kept.1 ∙ n.limit_price_kept;
      entry =
          note_exposed_overfill-Extends (s.anomalies ++ Anomaly.illegal_transition k s.status ∷ [])
            s t n.entry;
    }

-- What is claimed of an event that is looked up under a key, or under none.
abbrev NotedUnder : Option Kind → OrderState → OrderState → Type 0
NotedUnder none s t = Unit
NotedUnder (some k) s t = transitions k s.status ≡ none → IsNoted s k t

dispatch-NotedUnder : (s : OrderState) (b : EventBody) → NotedUnder (kind_of b) s (dispatch s b)
unfolding dispatch
dispatch-NotedUnder s (EventBody.fill f) = tt
dispatch-NotedUnder s (EventBody.bust i _) = tt
dispatch-NotedUnder s (EventBody.intent r) = tt
dispatch-NotedUnder s (EventBody.restated x v q r) = tt
dispatch-NotedUnder s (EventBody.send_started i) =
    λ h. IsNoted-carry _ _ refl refl refl refl (transition-IsNoted s Kind.send_started h)
dispatch-NotedUnder s (EventBody.ack v) =
    λ h. IsNoted-carry _ _ refl refl refl refl (transition-IsNoted s Kind.ack h)
dispatch-NotedUnder s (EventBody.reject r c) =
    λ h. IsNoted-carry _ _ refl refl refl refl (transition-IsNoted s Kind.reject h)
dispatch-NotedUnder s (EventBody.outcome_unknown r) = λ h. transition-IsNoted s _ h
dispatch-NotedUnder s EventBody.cancel_requested = λ h. transition-IsNoted s _ h
dispatch-NotedUnder s (EventBody.canceled r) = λ h. transition-IsNoted s _ h
dispatch-NotedUnder s (EventBody.cancel_rejected r c) =
    λ h. IsNoted-carry _ _ refl refl refl refl (transition-IsNoted s Kind.cancel_rejected h)
dispatch-NotedUnder s (EventBody.replace_requested q p) =
    λ h. rw h (transition-IsNoted s Kind.replace_requested h)
dispatch-NotedUnder s (EventBody.replaced q p v) =
    λ h. unfold apply_replaced in rw h (transition-IsNoted s Kind.replaced h)
dispatch-NotedUnder s (EventBody.replace_rejected r c) = λ h.
    note_exposed_overfill-IsNoted _
      (IsNoted-carry _ _ refl refl refl refl (transition-IsNoted s Kind.replace_rejected h))
dispatch-NotedUnder s EventBody.expired = λ h. transition-IsNoted s _ h

-- An event whose key has no transition from the order's status is not dropped: the status, the
-- quantity and the limit price stay, and an anomaly naming the event and the status is recorded.
pub illegal-IsNoted :
    (s : OrderState) (b : EventBody) (k : Kind)
    → kind_of b ≡ some k
    → transitions k s.status ≡ none
    → IsNoted s k (apply_body s b)
unfolding apply_body
illegal-IsNoted s b k e h =
    let t = dispatch s b in
    let noted = subst (λ o. NotedUnder o s (dispatch s b)) e (dispatch-NotedUnder s b) h in
    let kept = clear_pending-terms t in
    IsNoted-carry t _ (clear_pending-status t) kept.0 kept.1 (clear_pending-anomalies t) noted
