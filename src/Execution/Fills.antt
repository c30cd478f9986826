-- ===== src/Execution/Fills.antt =====
-- The list of an order's fills (src/ismet/execution/state.py): what is found in it, and its sums,
-- under each of the updates that a report makes.
use ismet.Prelude.{
  false, none, some, List, [], ◌∷◌, ◌++◌, Text, Decimal, pos, ◌+ℤ◌, ◌*ℤ◌, ◌==◌, ◌≡◌, refl, elem,
  All, arith, int_laws, Bool-cases, ==_iff, inl, inr, if◌then◌else◌,
}
use ismet.Models.Orders.{Fill}
use ismet.Execution.Reports.{merged_fill, find_fill, set_fill, drop_fill}

abbrev pub sum_quantity : List Fill → Decimal
sum_quantity [] = pos 0
sum_quantity (f ∷ fs) = f.quantity +ℤ sum_quantity fs

abbrev pub sum_notional : List Fill → Decimal
sum_notional [] = pos 0
sum_notional (f ∷ fs) = f.price *ℤ f.quantity +ℤ sum_notional fs

-- No fill id is listed twice.
abbrev pub AreDistinct : List Fill → Type 0
AreDistinct [] = Unit
AreDistinct (f ∷ fs) = (find_fill f.fill_id fs ≡ none) × AreDistinct fs

-- No listed fill has an id of `ids`.
abbrev pub AreOutside : List Text → List Fill → Type 0
AreOutside ids = All (λ (f : Fill). elem f.fill_id ids ≡ false)

pub sum_quantity-append :
    (fs : List Fill) (f : Fill) → sum_quantity (fs ++ f ∷ []) ≡ sum_quantity fs +ℤ f.quantity
sum_quantity-append [] f = omega int_laws
sum_quantity-append (x ∷ fs) f = rw (sum_quantity-append fs f) (omega int_laws)

pub sum_notional-append :
    (fs : List Fill) (f : Fill)
    → sum_notional (fs ++ f ∷ []) ≡ sum_notional fs +ℤ f.price *ℤ f.quantity
sum_notional-append [] f = omega int_laws
sum_notional-append (x ∷ fs) f = rw (sum_notional-append fs f) (omega int_laws)

pub find_fill-append :
    (i : Text) (fs : List Fill) (f : Fill)
    → find_fill i fs ≡ none
    → find_fill i (fs ++ f ∷ []) ≡ (if f.fill_id == i then some f else none)
unfolding find_fill
find_fill-append i [] f h = refl
find_fill-append i (x ∷ fs) f h = ground (arith, find_fill-append i fs f)

pub find_fill-append_ne :
    (i : Text) (fs : List Fill) (f : Fill)
    → (f.fill_id == i) ≡ false
    → find_fill i (fs ++ f ∷ []) ≡ find_fill i fs
unfolding find_fill
find_fill-append_ne i [] f h = ground arith
find_fill-append_ne i (x ∷ fs) f h = ground (arith, find_fill-append_ne i fs f h)

-- What is found has the id that was asked for.
pub find_fill-id : (i : Text) (fs : List Fill) {f : Fill} → find_fill i fs ≡ some f → f.fill_id ≡ i
unfolding find_fill
find_fill-id i [] h = cc
find_fill-id i (x ∷ fs) {f = f} h = ground (arith, find_fill-id i fs {f = f})

pub AreDistinct-append :
    (fs : List Fill) (f : Fill)
    → find_fill f.fill_id fs ≡ none
    → AreDistinct fs
    → AreDistinct (fs ++ f ∷ [])
unfolding find_fill
AreDistinct-append [] f h d = (refl, tt)
AreDistinct-append (x ∷ fs) f h d =
    ground (arith, AreDistinct-append fs f, find_fill-append x.fill_id fs f)

-- A fill that takes the place of another has its id and its money.
pub record IsRevision (known : Fill) (g : Fill) : Type 0 where
  pub same_id : g.fill_id ≡ known.fill_id
  pub same_price : g.price ≡ known.price
  pub same_quantity : g.quantity ≡ known.quantity

pub merged_fill-IsRevision : (known report : Fill) → IsRevision known (merged_fill known report)
unfolding merged_fill
merged_fill-IsRevision known report = ground arith

module _ (i : Text) {known : Fill} (g : Fill) (r : IsRevision known g) where
  pub sum_quantity-set_fill :
      (fs : List Fill)
      → find_fill i fs ≡ some known
      → sum_quantity (set_fill i g fs) ≡ sum_quantity fs
  unfolding find_fill set_fill
  sum_quantity-set_fill [] h = cc
  sum_quantity-set_fill (x ∷ fs) h = ground (arith, r, sum_quantity-set_fill fs)

  pub sum_notional-set_fill :
      (fs : List Fill)
      → find_fill i fs ≡ some known
      → sum_notional (set_fill i g fs) ≡ sum_notional fs
  unfolding find_fill set_fill
  sum_notional-set_fill [] h = cc
  sum_notional-set_fill (x ∷ fs) h = ground (arith, r, sum_notional-set_fill fs)

  find_fill-set_fill-none :
      (j : Text) (fs : List Fill)
      → find_fill i fs ≡ some known
      → find_fill j fs ≡ none
      → find_fill j (set_fill i g fs) ≡ none
  unfolding find_fill set_fill
  find_fill-set_fill-none j [] h k = refl
  find_fill-set_fill-none j (x ∷ fs) h k = ground (arith, r, find_fill-set_fill-none j fs)

  pub AreDistinct-set_fill :
      (fs : List Fill)
      → find_fill i fs ≡ some known
      → AreDistinct fs
      → AreDistinct (set_fill i g fs)
  unfolding find_fill set_fill
  AreDistinct-set_fill [] h d = tt
  AreDistinct-set_fill (x ∷ fs) h d =
      ground (arith, r, AreDistinct-set_fill fs, find_fill-set_fill-none x.fill_id fs)

  pub AreOutside-set_fill :
      (ids : List Text) (fs : List Fill)
      → find_fill i fs ≡ some known
      → AreOutside ids fs
      → AreOutside ids (set_fill i g fs)
  unfolding find_fill set_fill
  AreOutside-set_fill ids [] h d = tt
  AreOutside-set_fill ids (x ∷ fs) h d = ground (arith, r, AreOutside-set_fill ids fs)

pub find_fill-drop_fill-none :
    (i j : Text) (fs : List Fill) → find_fill j fs ≡ none → find_fill j (drop_fill i fs) ≡ none
unfolding find_fill drop_fill
find_fill-drop_fill-none i j [] h = refl
find_fill-drop_fill-none i j (x ∷ fs) h = ground (arith, find_fill-drop_fill-none i j fs)

pub drop_fill_absent : (i : Text) (fs : List Fill) → find_fill i fs ≡ none → drop_fill i fs ≡ fs
unfolding find_fill drop_fill
drop_fill_absent i [] h = refl
drop_fill_absent i (x ∷ fs) h = ground (arith, drop_fill_absent i fs)

pub AreDistinct-drop_fill :
    (i : Text) (fs : List Fill) → AreDistinct fs → AreDistinct (drop_fill i fs)
unfolding drop_fill
AreDistinct-drop_fill i [] d = tt
AreDistinct-drop_fill i (x ∷ fs) d =
    ground (arith, AreDistinct-drop_fill i fs d.1, find_fill-drop_fill-none i x.fill_id fs)

pub AreOutside-drop_fill :
    (i : Text) (ids : List Text) (fs : List Fill)
    → AreOutside ids fs
    → AreOutside (i ∷ ids) (drop_fill i fs)
unfolding drop_fill
AreOutside-drop_fill i ids [] d = tt
AreOutside-drop_fill i ids (x ∷ fs) d = ground (arith, AreOutside-drop_fill i ids fs d.1)

-- Of distinct fills, dropping one takes its quantity and its notional off the sums.
pub sum_quantity-drop_fill :
    (i : Text) (fs : List Fill) {f : Fill}
    → AreDistinct fs
    → find_fill i fs ≡ some f
    → sum_quantity (drop_fill i fs) +ℤ f.quantity ≡ sum_quantity fs
unfolding find_fill drop_fill
sum_quantity-drop_fill i [] d h = cc
sum_quantity-drop_fill i (x ∷ fs) {f = f} d h = elim (Bool-cases (x.fill_id == i)) [
  | inl here ↦
      let here' : x.fill_id ≡ i = (==_iff x.fill_id i).0 here in
      let found : x ≡ f = ground arith in
      rw (here, drop_fill_absent i fs (rw here' at d.0), ← found) (omega int_laws)
  | inr there ↦
      rw (there, ← sum_quantity-drop_fill i fs d.1 (rw (there, find_fill) at h)) (omega int_laws)
]

pub sum_notional-drop_fill :
    (i : Text) (fs : List Fill) {f : Fill}
    → AreDistinct fs
    → find_fill i fs ≡ some f
    → sum_notional (drop_fill i fs) +ℤ f.price *ℤ f.quantity ≡ sum_notional fs
unfolding find_fill drop_fill
sum_notional-drop_fill i [] d h = cc
sum_notional-drop_fill i (x ∷ fs) {f = f} d h = elim (Bool-cases (x.fill_id == i)) [
  | inl here ↦
      let here' : x.fill_id ≡ i = (==_iff x.fill_id i).0 here in
      let found : x ≡ f = ground arith in
      rw (here, drop_fill_absent i fs (rw here' at d.0), ← found) (omega int_laws)
  | inr there ↦
      rw (there, ← sum_notional-drop_fill i fs d.1 (rw (there, find_fill) at h)) (omega int_laws)
]

pub AreOutside-append :
    (ids : List Text) (fs : List Fill) (f : Fill)
    → AreOutside ids fs
    → elem f.fill_id ids ≡ false
    → AreOutside ids (fs ++ f ∷ [])
AreOutside-append ids [] f d h = (h, tt)
AreOutside-append ids (x ∷ fs) f d h = (d.0, AreOutside-append ids fs f d.1 h)

pub AreOutside-cons :
    (i : Text) (ids : List Text) (fs : List Fill)
    → find_fill i fs ≡ none
    → AreOutside ids fs
    → AreOutside (i ∷ ids) fs
unfolding find_fill
AreOutside-cons i ids [] h d = tt
AreOutside-cons i ids (x ∷ fs) h d = ground (arith, AreOutside-cons i ids fs)
