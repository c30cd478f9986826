-- ===== src/Fix/Stream/Outcomes.antt =====
-- src/ismet/fix/message.py: how the outcomes of `_scan_frame` for a buffer and a longer one compare.
use ismet.Prelude.{Bool, true, false, not, if◌then◌else◌, ◌≡◌, refl, arith}
use ismet.Fix.Message.{Garbled}
use ismet.Fix.Parse.{Scanned, found, need_more, bad}

abbrev pub is_bad : Scanned → Bool
is_bad (bad g) = true
is_bad _ = false

-- A result for more bytes: a frame is the same, and a garbled one is garbled, for whatever reason.
abbrev pub Extends : Scanned → Scanned → Type 0
Extends need_more r = Unit
Extends (bad g) r = is_bad r ≡ true
Extends (found b s e) r = r ≡ found b s e

pub Extends-same : (r : Scanned) → Extends r r
Extends-same need_more = tt
Extends-same (bad g) = refl
Extends-same (found b s e) = refl

-- A test that ends both, or only what comes after it matters.
pub past_test :
    (t : Bool) (g : Garbled) (r r' : Scanned)
    → (t ≡ false → Extends r r')
    → Extends (if t then bad g else r) (if t then bad g else r')
past_test true g r r' h = refl
past_test false g r r' h = h refl

pub bad_test :
    (t : Bool) (g : Garbled) (r : Scanned) → t ≡ true → is_bad (if t then bad g else r) ≡ true
bad_test true g r h = refl
bad_test false g r h = absurd (ground (arith, h))

-- A test of a buffer that ends it, and else asks for more.
pub either_bad :
    (t : Bool) (g : Garbled) (r : Scanned)
    → (t ≡ true → is_bad r ≡ true)
    → Extends (if t then bad g else need_more) r
either_bad true g r h = h refl
either_bad false g r h = tt

-- A test of a buffer that ends the longer one too, and else asks for more.
pub short_test :
    (t t' : Bool) (g : Garbled) (r' : Scanned)
    → (t ≡ true → t' ≡ true)
    → Extends (if t then bad g else need_more) (if t' then bad g else r')
short_test true t' g r' h = bad_test t' g r' (h refl)
short_test false t' g r' h = tt

pub turns_true : (t t' : Bool) → (t ≡ false → t' ≡ false) → not t ≡ true → not t' ≡ true
turns_true t t' h k = ground (arith, h, k)
