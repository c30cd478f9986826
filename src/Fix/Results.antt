-- ===== src/Fix/Results.antt =====
-- Results of src/ismet/fix/message.py, which are a value or an exception: what a chain that ends in
-- a value has passed.
use ismet.Prelude.{Bool, true, false, ◌≡◌, refl, ap, arith, if◌then◌else◌}
use ismet.Fix.Message.{CodecError, Coded, ok, refused, and_then}

module _ {ℓ κ} {A : Type ℓ} {B : Type κ} where
  -- A chain that gives a value has one from its first part.
  pub and_then_parts :
      (c : Coded A) (next : A → Coded B) (b : B)
      → and_then c next ≡ ok b
      → (a : A) × (c ≡ ok a) × (next a ≡ ok b)
  and_then_parts (ok a) next b h = (a, refl, h)
  and_then_parts (refused e) next b h = absurd (ground (arith, h))

module _ {ℓ} {A : Type ℓ} where
  -- A guarded part that gives a value has passed its guard.
  pub guard_parts :
      (t : Bool) (c : Coded A) (e : CodecError) (a : A)
      → (if t then c else refused e) ≡ ok a
      → (t ≡ true) × (c ≡ ok a)
  guard_parts true c e a h = (refl, h)
  guard_parts false c e a h = absurd (ground (arith, h))

  -- The same of a guard that refuses.
  pub refusal_parts :
      (t : Bool) (c : Coded A) (e : CodecError) (a : A)
      → (if t then refused e else c) ≡ ok a
      → (t ≡ false) × (c ≡ ok a)
  refusal_parts true c e a h = absurd (ground (arith, h))
  refusal_parts false c e a h = (refl, h)

  abbrev pub value_or : A → Coded A → A
  value_or d (ok a) = a
  value_or d (refused e) = d

  pub ok_injective : (a b : A) → ok a ≡ ok b → a ≡ b
  ok_injective a b h = ap (value_or a) h
