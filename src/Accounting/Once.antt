-- ===== src/Accounting/Once.antt =====
-- `_seen` of a `PositionLedger` (src/ismet/accounting/__init__.py): which fills are on record.
use ismet.Prelude.{
  Bool, true, false, Option, none, some, List, [], ◌∷◌, ◌++◌, ◌≡◌, refl, ◌∙◌, inl, inr, arith,
  Bool-cases,
}
use ismet.Models.Orders.{Fill}
use ismet.Accounting.Ledger.{find_seen, set_seen, same_key}

-- No fill is on record twice: no later one has its key.
unfoldable pub AreOnce : List Fill → Type 0
AreOnce [] = Unit
AreOnce (f ∷ fs) = (find_seen f fs ≡ none) × AreOnce fs

find_seen_same :
    (f g : Fill) (fs : List Fill)
    → f.client_order_id ≡ g.client_order_id
    → f.fill_id ≡ g.fill_id
    → find_seen f fs ≡ find_seen g fs
unfolding find_seen
find_seen_same f g [] c i = refl
find_seen_same f g (x ∷ fs) c i =
    let rest = find_seen_same f g fs c i in
    let same : same_key x f ≡ same_key x g = ground (arith, c, i) in rw (same, rest) refl

same_key_sym : (f g : Fill) → same_key f g ≡ same_key g f
same_key_sym f g = ground arith

find_seen-append :
    (x f : Fill) (fs : List Fill)
    → same_key f x ≡ false
    → find_seen x fs ≡ none
    → find_seen x (fs ++ f ∷ []) ≡ none
unfolding find_seen
find_seen-append x f [] other fresh = rw (other) refl
find_seen-append x f (y ∷ fs) other fresh = elim (Bool-cases (same_key y x)) [
  | inl found ↦ ground (arith, found, fresh)
  | inr not_this ↦
      let later : find_seen x fs ≡ none = ground (arith, not_this, fresh) in
      rw (not_this) (find_seen-append x f fs other later)
]

-- A fill whose key is not on record is put behind the others.
pub AreOnce-append :
    (f : Fill) (fs : List Fill) → AreOnce fs → find_seen f fs ≡ none → AreOnce (fs ++ f ∷ [])
unfolding AreOnce find_seen
AreOnce-append f [] o fresh = (refl, tt)
AreOnce-append f (x ∷ fs) o fresh = elim (Bool-cases (same_key x f)) [
  | inl found ↦ absurd (ground (arith, found, fresh))
  | inr other ↦
      let later : find_seen f fs ≡ none = ground (arith, other, fresh) in
      (find_seen-append x f fs (same_key_sym f x ∙ other) o.0, AreOnce-append f fs o.1 later)
]

find_seen-set_seen :
    (x g : Fill) (fs : List Fill) → find_seen x fs ≡ none → find_seen x (set_seen g fs) ≡ none
unfolding find_seen set_seen
find_seen-set_seen x g [] fresh = refl
find_seen-set_seen x g (y ∷ fs) fresh = ground (arith, find_seen-set_seen x g fs, fresh)

-- Replacing a fill by one with its key.
pub AreOnce-set_seen : (g : Fill) (fs : List Fill) → AreOnce fs → AreOnce (set_seen g fs)
unfolding AreOnce set_seen
AreOnce-set_seen g [] o = tt
AreOnce-set_seen g (x ∷ fs) o = elim (Bool-cases (same_key x g)) [
  | inl found ↦
      let order : g.client_order_id ≡ x.client_order_id = ground (arith, found) in
      let id : g.fill_id ≡ x.fill_id = ground (arith, found) in
      rw (found) (find_seen_same g x fs order id ∙ o.0, o.1)
  | inr other ↦ rw (other) (find_seen-set_seen x g fs o.0, AreOnce-set_seen g fs o.1)
]

abbrev is_some_fill : Option Fill → Bool
is_some_fill none = false
is_some_fill (some f) = true

-- Whether a fill is on record, by its key.
abbrev pub IsOnRecord : Fill → List Fill → Type 0
IsOnRecord f fs = is_some_fill (find_seen f fs) ≡ true

pub append-IsOnRecord : (f : Fill) (fs : List Fill) → IsOnRecord f (fs ++ f ∷ [])
unfolding find_seen
append-IsOnRecord f [] = ground arith
append-IsOnRecord f (x ∷ fs) = elim (Bool-cases (same_key x f)) [
  | inl found ↦ rw (found) refl
  | inr other ↦ rw (other) (append-IsOnRecord f fs)
]

-- A fill that is on record still is, when another takes the place of one with its key.
pub set_seen-IsOnRecord :
    (f g : Fill) (fs : List Fill) → IsOnRecord f fs → IsOnRecord f (set_seen g fs)
unfolding find_seen set_seen
set_seen-IsOnRecord f g [] h = h
set_seen-IsOnRecord f g (x ∷ fs) h = ground (arith, h, set_seen-IsOnRecord f g fs)
