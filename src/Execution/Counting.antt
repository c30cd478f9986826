-- ===== src/Execution/Counting.antt =====
-- src/ismet/execution/state.py: a reported fill is counted once, whatever the status, an overfill
-- is noted, and a bust takes a fill back.
use ismet.Prelude.{
  true, false, none, some, List, [], ◌∷◌, ◌++◌, Text, ◌≡◌, ◌∙◌, refl, sym, ap, ◌+ℤ◌, ◌*ℤ◌, -ℤ_of_+ℤ,
  leb_ℤ, ltb_ℤ, elem, ==_self, arith, append_assoc, ◌<ℤ◌, ◌≢◌,
}
use ismet.Models.Orders.{OrderStatus, EventBody, Fill, is_terminal, fill_eq_self}
use ismet.Execution.State.{Anomaly, OrderState, note, fill_ceiling, max_pending}
use ismet.Execution.Reports.{find_fill, drop_fill}
use ismet.Execution.Fills.{find_fill-append}
use ismet.Execution.Apply.{
  apply_known, apply_new, apply_fill, fill_notes, status_notes, fill_status, remove_fill,
  apply_bust, dispatch, clear_pending, apply_body,
}

-- A report that no earlier one settles: its id is not busted, and no fill of the order has it.
pub record IsNew (s : OrderState) (f : Fill) : Type 0 where
  pub not_busted : elem f.fill_id s.busted_fill_ids ≡ false
  pub not_known : find_fill f.fill_id s.fills ≡ none

apply_fill_new : (s : OrderState) (f : Fill) → IsNew s f → apply_fill s f ≡ apply_new s f
unfolding apply_fill
apply_fill_new s f h = rw (h.not_busted, h.not_known)

apply_body_new :
    (s : OrderState) (f : Fill)
    → IsNew s f
    → apply_body s (EventBody.fill f) ≡ clear_pending (apply_new s f)
unfolding apply_body dispatch
apply_body_new s f h = rw (apply_fill_new s f h)

clear_pending-books :
    (t : OrderState)
    → let u = clear_pending t in
      (u.fills ≡ t.fills)
      × (u.filled_quantity ≡ t.filled_quantity)
      × (u.filled_notional ≡ t.filled_notional)
      × (u.anomalies ≡ t.anomalies)
      × (u.status ≡ t.status)
      × (u.busted_fill_ids ≡ t.busted_fill_ids)
unfolding clear_pending
clear_pending-books t = ground arith

-- What a counted fill does to the order `s`, with `t` the order after it.
pub record IsCounted (s : OrderState) (f : Fill) (t : OrderState) : Type 0 where
  pub listed : t.fills ≡ s.fills ++ f ∷ []
  pub quantity_added : t.filled_quantity ≡ s.filled_quantity +ℤ f.quantity
  pub notional_added : t.filled_notional ≡ s.filled_notional +ℤ f.price *ℤ f.quantity

-- A new fill is counted in full whatever the order's status, also after a cancel, a reject or an
-- expiry: it joins the list, and its quantity and notional join the totals.
pub fill-IsCounted :
    (s : OrderState) (f : Fill) → IsNew s f → IsCounted s f (apply_body s (EventBody.fill f))
fill-IsCounted s f h = rw (apply_body_new s f h) (
    let b = clear_pending-books (apply_new s f) in
    unfold apply_new in
    record { listed = b.0 ∙ refl; quantity_added = b.1 ∙ refl; notional_added = b.2 ∙ refl })

-- `a` stands among the anomalies `xs`.
abbrev pub Mentions : Anomaly → List Anomaly → Type 0
Mentions a xs = (before : List Anomaly) × (after : List Anomaly) × (xs ≡ before ++ a ∷ after)

Mentions-append : (a : Anomaly) (xs ys : List Anomaly) → Mentions a ys → Mentions a (xs ++ ys)
Mentions-append a xs ys (b, c, e) = (xs ++ b, c, rw (e, append_assoc))

-- A new fill past what the order may fill is noted as an overfill, with the filled total and the
-- ceiling, and makes the order filled.
pub overfill_noted :
    (s : OrderState) (f : Fill)
    → IsNew s f
    → fill_ceiling s <ℤ s.filled_quantity +ℤ f.quantity
    → let t = apply_body s (EventBody.fill f) in
      Mentions (Anomaly.overfill (s.filled_quantity +ℤ f.quantity) (fill_ceiling s)) t.anomalies
      × (t.status ≡ OrderStatus.filled)
unfolding fill_ceiling
overfill_noted s f h over = rw (apply_body_new s f h) (
    let b = clear_pending-books (apply_new s f) in
    let above : ltb_ℤ (max_pending s.quantity s.pending_quantity) (s.filled_quantity +ℤ f.quantity)
        ≡ true =
      ground arith in
    let reached : leb_ℤ (max_pending s.quantity s.pending_quantity)
          (s.filled_quantity +ℤ f.quantity)
        ≡ true =
      ground arith in
    (
      rw b.3 (
          unfold apply_new fill_notes in
          rw above (Mentions-append _ s.anomalies _ (Mentions-append _ _ _ ([], _, refl)))),
      rw b.4 (unfold apply_new fill_status in rw reached),
    ))

status_notes_late :
    (x : OrderStatus) (f : Fill)
    → is_terminal x ≡ true
    → x ≢ OrderStatus.filled
    → status_notes x f ≡ Anomaly.after_terminal f.fill_id x ∷ []
unfolding status_notes
status_notes_late x f e n = ground arith

-- A new fill of an order that was canceled, expired or rejected is noted under that status.
pub late_fill_noted :
    (s : OrderState) (f : Fill)
    → IsNew s f
    → is_terminal s.status ≡ true
    → s.status ≢ OrderStatus.filled
    → Mentions
        (Anomaly.after_terminal f.fill_id s.status)
        (apply_body s (EventBody.fill f)).anomalies
late_fill_noted s f h ended other = rw (apply_body_new s f h) (
    rw (clear_pending-books (apply_new s f)).3 (
      unfold apply_new fill_notes in
      Mentions-append _ s.anomalies _ (
        Mentions-append _ _ _
          (Mentions-append _ _ _ ([], [], status_notes_late s.status f ended other)))))

clear_pending_again : (s : OrderState) → clear_pending (clear_pending s) ≡ clear_pending s
unfolding clear_pending
clear_pending_again s = ground arith

apply_fill_same :
    (t : OrderState) (f : Fill)
    → elem f.fill_id t.busted_fill_ids ≡ false
    → find_fill f.fill_id t.fills ≡ some f
    → apply_fill t f ≡ t
unfolding apply_fill apply_known
apply_fill_same t f fresh found = rw (fresh, found, fill_eq_self f)

-- The order after a new fill holds that fill under its id, busted ids as before.
module _ (s : OrderState) (f : Fill) (h : IsNew s f) where
  after_new-found : find_fill f.fill_id (apply_body s (EventBody.fill f)).fills ≡ some f
  after_new-found =
      rw (apply_body_new s f h, (clear_pending-books (apply_new s f)).0)
        (unfold apply_new in
          rw (find_fill-append f.fill_id s.fills f h.not_known, ==_self f.fill_id) refl)

  after_new-busted : (apply_body s (EventBody.fill f)).busted_fill_ids ≡ s.busted_fill_ids
  after_new-busted =
      rw (apply_body_new s f h)
        ((clear_pending-books (apply_new s f)).5 ∙ (unfold apply_new in refl))

-- A new fill reported twice is counted once: the second report changes nothing.
pub fill_twice :
    (s : OrderState) (f : Fill)
    → IsNew s f
    → let t = apply_body s (EventBody.fill f) in apply_body t (EventBody.fill f) ≡ t
fill_twice s f h =
    let t = apply_body s (EventBody.fill f) in
    let same =
      apply_fill_same t f (rw (after_new-busted s f h) h.not_busted) (after_new-found s f h) in
    let cleared : clear_pending t ≡ t =
      rw (apply_body_new s f h) (clear_pending_again (apply_new s f)) in
    let again : apply_body t (EventBody.fill f) ≡ clear_pending t =
      unfold apply_body dispatch in ap clear_pending same in
    again ∙ cleared

drop_fill-append :
    (i : Text) (fs : List Fill) (f : Fill)
    → f.fill_id ≡ i
    → find_fill i fs ≡ none
    → drop_fill i (fs ++ f ∷ []) ≡ fs
unfolding drop_fill find_fill
drop_fill-append i [] f e h = ground arith
drop_fill-append i (x ∷ fs) f e h = ground (arith, drop_fill-append i fs f e)

apply_body_bust :
    (t : OrderState) (f : Fill) (r : Text)
    → elem f.fill_id t.busted_fill_ids ≡ false
    → find_fill f.fill_id t.fills ≡ some f
    → apply_body t (EventBody.bust f.fill_id r) ≡ clear_pending (remove_fill t f)
unfolding apply_body dispatch apply_bust
apply_body_bust t f r fresh found = rw (fresh, found)

-- What a fill and its bust leave of the order `s`, with `u` the order after both.
pub record IsUndone (s : OrderState) (f : Fill) (u : OrderState) : Type 0 where
  pub fills_back : u.fills ≡ s.fills
  pub quantity_back : u.filled_quantity ≡ s.filled_quantity
  pub notional_back : u.filled_notional ≡ s.filled_notional
  pub recorded : elem f.fill_id u.busted_fill_ids ≡ true

-- A bust of a counted fill restores the list of fills and both totals to what they were before
-- the fill, and puts its id on record.
pub bust_undoes :
    (s : OrderState) (f : Fill) (r : Text)
    → IsNew s f
    → let t = apply_body s (EventBody.fill f) in
      IsUndone s f (apply_body t (EventBody.bust f.fill_id r))
bust_undoes s f r h =
    let t = apply_body s (EventBody.fill f) in
    let c = fill-IsCounted s f h in
    let b = clear_pending-books (remove_fill t f) in
    rw (apply_body_bust t f r (rw (after_new-busted s f h) h.not_busted) (after_new-found s f h))
      (record {
        fills_back =
            b.0
            ∙ (unfold remove_fill in
                ap (drop_fill f.fill_id) c.listed
                ∙ drop_fill-append f.fill_id s.fills f refl h.not_known);
        quantity_back = b.1 ∙ (unfold remove_fill in -ℤ_of_+ℤ _ _ _ (sym c.quantity_added));
        notional_back = b.2 ∙ (unfold remove_fill in -ℤ_of_+ℤ _ _ _ (sym c.notional_added));
        recorded = rw b.5 (unfold remove_fill in rw (==_self f.fill_id) refl);
      })

-- A report of a fill whose id is busted is noted and counts for nothing: the fills and both totals
-- stay.
pub fill_after_bust :
    (s : OrderState) (f : Fill)
    → elem f.fill_id s.busted_fill_ids ≡ true
    → let t = apply_body s (EventBody.fill f) in
      (t.fills ≡ s.fills)
      × (t.filled_quantity ≡ s.filled_quantity)
      × (t.filled_notional ≡ s.filled_notional)
      × Mentions (Anomaly.reported_after_bust f.fill_id) t.anomalies
unfolding apply_body dispatch apply_fill
fill_after_bust s f h = rw h (
    let b = clear_pending-books (note s (Anomaly.reported_after_bust f.fill_id)) in
    (b.0, b.1, b.2, rw b.3 (s.anomalies, [], refl)))
