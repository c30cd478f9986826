-- ===== src/Fix/Stream/Gives.antt =====
-- src/ismet/fix/message.py: a round of `feed` that gives an item gives it for more bytes too.
use ismet.Prelude.{
  ℕ, ◌-◌, ◌≤◌, Bool, true, false, Option, none, some, [], ◌∷◌, ◌++◌, length, ◌≡◌, refl, ap, arith,
}
use ismet.Fix.Bytes.{Bytes}
use ismet.Fix.Message.{Coded, ok, refused, DataFields}
use ismet.Fix.Parse.{
  Scanned, found, need_more, bad, scan_frame, parse_fields, Fields, FieldDefect, FixMessage,
  body_of,
}
use ismet.Fix.Integrity.{SealedWhen, scan_frame-IsSealed}
use ismet.Fix.Stream.{
  Item, message, garbled_frame, after_marker, Round, stop, emit, take_fields, take_scanned, resync,
  round,
}
use ismet.Fix.Stream.Longer.{drop_within, slice_within}
use ismet.Fix.Stream.Outcomes.{Extends}
use ismet.Fix.Stream.Extends.{scan_frame-Extends}
use ismet.Fix.Stream.Marker.{after_found}

-- What a listener makes of an item: the message, whatever the reason of a garbled frame is.
abbrev pub outline : Item → Option FixMessage
outline (message m) = some m
outline (garbled_frame e) = none

-- A round that gives an item gives it for more bytes too.
abbrev pub GivesAlso : Bytes → Round → Round → Type 0
GivesAlso more (stop s rest) r = Unit
GivesAlso more (emit item s rest) r =
    (item' : Item) × (r ≡ emit item' s (rest ++ more)) × (outline item' ≡ outline item)

take_fields-GivesAlso :
    (rest more name : Bytes) (e : ℕ) (r : Coded (Fields × Option FieldDefect))
    → e ≤ length rest
    → GivesAlso more (take_fields rest name e r) (take_fields (rest ++ more) name e r)
take_fields-GivesAlso rest more name e (ok (fields, defect)) inside = (
  _,
  ap (emit (message (record { begin_string = name; fields = fields; defect = defect })) true)
      (drop_within e rest more inside),
  refl,
)
take_fields-GivesAlso rest more name e (refused c) inside = (_, refl, refl)

take_scanned-GivesAlso :
    (m : DataFields) (rest more : Bytes) (r r' : Scanned)
    → SealedWhen rest r
    → Extends r r'
    → GivesAlso more (take_scanned m rest r) (take_scanned m (rest ++ more) r')
take_scanned-GivesAlso m rest more need_more r' seal same = tt
take_scanned-GivesAlso m rest more (bad g) (bad g') seal same = (_, refl, refl)
take_scanned-GivesAlso m rest more (bad g) need_more seal same = absurd (ground (arith, same))
take_scanned-GivesAlso m rest more (bad g) (found b s e) seal same = absurd (ground (arith, same))
take_scanned-GivesAlso m rest more (found b s e) r' seal same =
    let body : body_of (rest ++ more) s e ≡ body_of rest s e =
      slice_within s (e - 7 - s) rest more (omega (arith, seal.0.inside, seal.1)) in
    rw (same, body)
      (take_fields-GivesAlso rest more b e (parse_fields m (body_of rest s e)) seal.0.inside)

resync-GivesAlso :
    (max : ℕ) (m : DataFields) (rest more : Bytes) (o : Option Bytes)
    → after_marker rest ≡ o
    → GivesAlso more
        (resync max m rest o)
        (resync max m (rest ++ more) (after_marker (rest ++ more)))
resync-GivesAlso max m rest more none h = tt
resync-GivesAlso max m rest more (some from) h = rw (after_found rest more from h) (
    take_scanned-GivesAlso m from more (scan_frame max from) (scan_frame max (from ++ more))
      (scan_frame-IsSealed max from) (scan_frame-Extends from more max))

pub round-GivesAlso :
    (max : ℕ) (m : DataFields) (s : Bool) (rest more : Bytes)
    → GivesAlso more (round max m s rest) (round max m s (rest ++ more))
unfolding round
round-GivesAlso max m s [] more = tt
round-GivesAlso max m true (b ∷ bs) more =
    take_scanned-GivesAlso m (b ∷ bs) more (scan_frame max (b ∷ bs))
      (scan_frame max (b ∷ bs ++ more)) (scan_frame-IsSealed max (b ∷ bs))
      (scan_frame-Extends (b ∷ bs) more max)
round-GivesAlso max m false (b ∷ bs) more =
    resync-GivesAlso max m (b ∷ bs) more (after_marker (b ∷ bs)) refl
