-- ===== src/Risk/Duplicates.antt =====
-- The check of duplicates of src/ismet/execution/risk.py sees every order that was approved within
-- its window.
use ismet.Prelude.{
  ℕ, ◌+◌, ◌≤◌, ◌<◌, true, List, [], ◌∷◌, ◌++◌, append_assoc, leb, ltb, All, All-append, ◌≡◌, refl,
  sym, ◌∙◌, ap, inl, inr, arith, Bool-cases,
}
use mathlib.Core.Path.{subst}
use mathlib.Core.List.{Memᴰ}
use mathlib.Core.List.Memᴰ
use ismet.Models.Orders.{OrderRequest}
use ismet.Risk.Windows.{
  Recent, same_fingerprint, forget, seen_in, check_duplicate, record_recent, Submission,
  stopped_before, stopped_after, new_order_at, amended_at, submit, submit_all,
}

-- Entries whose window is over.
abbrev Over : ℕ → ℕ → Recent → Type 0
Over span now rs = All (λ (r : ℕ × OrderRequest). r.0 + span ≤ now) rs

Over-later :
    (span now later : ℕ) (rs : Recent) → now ≤ later → Over span now rs → Over span later rs
Over-later span now later [] h o = tt
Over-later span now later (r ∷ rs) h o = (omega (arith, o.0), Over-later span now later rs h o.1)

-- Forgetting splits off entries whose window is over.
forget-split :
    (span now : ℕ) (rs : Recent)
    → (old : Recent) × (rs ≡ old ++ forget span now rs) × Over span now old
unfolding forget
forget-split span now [] = ([], refl, tt)
forget-split span now ((t, r) ∷ rs) = elim (Bool-cases (leb (t + span) now)) [
  | inl gone ↦
      let (old, split, o) = forget-split span now rs in
      rw gone ((t, r) ∷ old, ap (λ ys. (t, r) ∷ ys) split, (ground arith, o))
  | inr kept ↦ rw kept ([], refl, tt)
]

-- All that was approved is recent, or its window is over.
record IsRemembered (span now : ℕ) (s : Recent × Recent) : Type 0 where
  old : Recent
  split : s.1 ≡ old ++ s.0
  are_over : Over span now old

later-IsRemembered :
    (span now later : ℕ) (s : Recent × Recent)
    → now ≤ later
    → IsRemembered span now s
    → IsRemembered span later s
later-IsRemembered span now later s h m = record {
  old = m.old;
  split = m.split;
  are_over = Over-later span now later m.old h m.are_over;
}

forget-IsRemembered :
    (span now : ℕ) (recent approved : Recent)
    → IsRemembered span now (recent, approved)
    → IsRemembered span now (forget span now recent, approved)
forget-IsRemembered span now recent approved m =
    let (gone, split', o) = forget-split span now recent in
    record {
      old = m.old ++ gone;
      split =
          m.split
          ∙ ap (λ ys. m.old ++ ys) split'
          ∙ sym (append_assoc m.old gone (forget span now recent));
      are_over = All-append (λ (r : ℕ × OrderRequest). r.0 + span ≤ now) m.old gone m.are_over o;
    }

-- An order that is recorded, where a window is set.
record-IsRemembered :
    (span now : ℕ) (q : OrderRequest) (recent approved : Recent)
    → 0 < span
    → IsRemembered span now (recent, approved)
    → IsRemembered span now (record_recent span now q recent, approved ++ (now, q) ∷ [])
unfolding record_recent
record-IsRemembered span now q recent approved on m = elim (Bool-cases (ltb 0 span)) [
  | inl window ↦ rw window (record {
    old = m.old;
    split = ap (λ ys. ys ++ (now, q) ∷ []) m.split ∙ append_assoc m.old recent ((now, q) ∷ []);
    are_over = m.are_over;
  })
  | inr no_window ↦ ground arith
]

abbrev pub time : Submission → ℕ
time (stopped_before now) = now
time (stopped_after now q) = now
time (new_order_at now q) = now
time (amended_at now q) = now

-- Submissions at times from `now` on that never go back and do not pass `last`.
abbrev pub AreUpTo : ℕ → ℕ → List Submission → Type 0
AreUpTo last now [] = now ≤ last
AreUpTo last now (c ∷ cs) = (now ≤ time c) × AreUpTo last (time c) cs

submit-IsRemembered :
    (span now : ℕ) (s : Recent × Recent) (c : Submission)
    → 0 < span
    → now ≤ time c
    → IsRemembered span now s
    → IsRemembered span (time c) (submit span s c)
unfolding submit check_duplicate
submit-IsRemembered span now (recent, approved) (stopped_before t) on h m =
    later-IsRemembered span now t (recent, approved) h m
submit-IsRemembered span now (recent, approved) (stopped_after t q) on h m =
    forget-IsRemembered span t recent approved
      (later-IsRemembered span now t (recent, approved) h m)
submit-IsRemembered span now (recent, approved) (new_order_at t q) on h m =
    let m' =
      forget-IsRemembered span t recent approved
        (later-IsRemembered span now t (recent, approved) h m) in
    elim (Bool-cases (seen_in q (forget span t recent))) [
      | inl refused ↦ rw refused m'
      | inr passed ↦ rw passed (record-IsRemembered span t q (forget span t recent) approved on m')
    ]
submit-IsRemembered span now (recent, approved) (amended_at t q) on h m =
    record-IsRemembered span t q recent approved on
      (later-IsRemembered span now t (recent, approved) h m)

submit_all-IsRemembered :
    (span now last : ℕ) (s : Recent × Recent) (cs : List Submission)
    → 0 < span
    → AreUpTo last now cs
    → IsRemembered span now s
    → IsRemembered span last (submit_all span s cs)
unfolding submit_all
submit_all-IsRemembered span now last s [] on o m = later-IsRemembered span now last s o m
submit_all-IsRemembered span now last s (c ∷ cs) on o m =
    submit_all-IsRemembered span (time c) last (submit span s c) cs on o.1
      (submit-IsRemembered span now s c on o.0 m)

Over-at :
    (span now t : ℕ) (r : OrderRequest) (rs : Recent)
    → Over span now rs
    → Memᴰ (t, r) rs
    → t + span ≤ now
Over-at span now t r [] o m = elim m [ ]
Over-at span now t r ((u, x) ∷ rs) o (Memᴰ.head e) =
    subst (λ (y : ℕ × OrderRequest). y.0 + span ≤ now) (sym e) o.0
Over-at span now t r (x ∷ rs) o (Memᴰ.tail m) = Over-at span now t r rs o.1 m

seen_in-found :
    (q : OrderRequest) (t : ℕ) (r : OrderRequest) (rs : Recent)
    → Memᴰ (t, r) rs
    → same_fingerprint r q ≡ true
    → seen_in q rs ≡ true
unfolding seen_in
seen_in-found q t r [] m same = elim m [ ]
seen_in-found q t r ((u, x) ∷ rs) (Memᴰ.head e) same =
    let found : same_fingerprint x q ≡ true =
      subst (λ (y : ℕ × OrderRequest). same_fingerprint y.1 q ≡ true) e same in
    rw found refl
seen_in-found q t r ((u, x) ∷ rs) (Memᴰ.tail m) same =
    let later = seen_in-found q t r rs m same in ground arith

-- With a window set, after any submissions at times that never go back: a new order that is identical
-- to an approved one whose window is not over is refused, also where that one was an amend.
pub duplicate_refused :
    (span now t : ℕ) (q r : OrderRequest) (cs : List Submission)
    → 0 < span
    → AreUpTo now 0 cs
    → Memᴰ (t, r) (submit_all span ([], []) cs).1
    → same_fingerprint r q ≡ true
    → now < t + span
    → (check_duplicate span now q (submit_all span ([], []) cs).0).1 ≡ true
unfolding check_duplicate
duplicate_refused span now t q r cs on o m same within =
    let s = submit_all span ([], []) cs in
    let start : IsRemembered span 0 ([], []) = record { old = []; split = refl; are_over = tt } in
    let held =
      forget-IsRemembered span now s.0 s.1
        (submit_all-IsRemembered span 0 now ([], []) cs on o start) in
    elim (Memᴰ.append_cases held.old (subst (λ (rs : Recent). Memᴰ (t, r) rs) held.split m)) [
      | inl gone ↦ let over = Over-at span now t r held.old held.are_over gone in ground arith
      | inr here ↦ seen_in-found q t r (forget span now s.0) here same
    ]
