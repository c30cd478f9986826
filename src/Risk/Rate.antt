-- ===== src/Risk/Rate.antt =====
-- The throttle of src/ismet/execution/risk.py holds the rate at its limit in every second.
use ismet.Prelude.{
  ℕ, ◌+◌, ◌≤◌, ◌<◌, ◌&&◌, List, [], ◌∷◌, ◌++◌, append_assoc, leb, ltb, length, All, All-append,
  if◌then◌else◌, ◌≡◌, refl, sym, ◌∙◌, ap, inl, inr, arith, Bool-cases,
}
use ismet.Risk.Windows.{
  prune, count, record_sent, Check, refused_before, refused_after, allowed_otherwise, check_rate,
  check_rates,
}

-- How many of the times stand in the second that ends at `t`.
unfoldable pub in_second : ℕ → ℕ → List ℕ → ℕ
in_second second t [] = 0
in_second second t (x ∷ xs) =
    (if leb x t && ltb t (x + second) then 1 else 0) + in_second second t xs

in_second-append :
    (second t : ℕ) (xs ys : List ℕ)
    → in_second second t (xs ++ ys) ≡ in_second second t xs + in_second second t ys
unfolding in_second
in_second-append second t [] ys = omega arith
in_second-append second t (x ∷ xs) ys = omega (arith, in_second-append second t xs ys)

in_second-le-length : (second t : ℕ) (xs : List ℕ) → in_second second t xs ≤ length xs
unfolding in_second
in_second-le-length second t [] = omega arith
in_second-le-length second t (x ∷ xs) = ground (arith, in_second-le-length second t xs)

-- Times that are a second old or older.
abbrev Old : ℕ → ℕ → List ℕ → Type 0
Old second now xs = All (λ (x : ℕ). x + second ≤ now) xs

in_second-Old :
    (second now t : ℕ) (xs : List ℕ) → now ≤ t → Old second now xs → in_second second t xs ≡ 0
unfolding in_second
in_second-Old second now t [] h o = refl
in_second-Old second now t (x ∷ xs) h o = ground (arith, in_second-Old second now t xs h o.1, o.0)

Old-later :
    (second now later : ℕ) (xs : List ℕ) → now ≤ later → Old second now xs → Old second later xs
Old-later second now later [] h o = tt
Old-later second now later (x ∷ xs) h o = (omega (arith, o.0), Old-later second now later xs h o.1)

-- Pruning splits off times that are old.
prune-split :
    (second now : ℕ) (xs : List ℕ)
    → (old : List ℕ) × (xs ≡ old ++ prune second now xs) × Old second now old
unfolding prune
prune-split second now [] = ([], refl, tt)
prune-split second now (x ∷ xs) = elim (Bool-cases (leb (x + second) now)) [
  | inl gone ↦
      let (old, split, o) = prune-split second now xs in
      rw gone (x ∷ old, ap (λ ys. x ∷ ys) split, (ground arith, o))
  | inr kept ↦ rw kept ([], refl, tt)
]

-- The window holds the accepted times but for old ones, and no second holds more than the limit.
record IsPaced (second max_orders now : ℕ) (s : List ℕ × List ℕ) : Type 0 where
  old : List ℕ
  split : s.1 ≡ old ++ s.0
  are_old : Old second now old
  paced : (t : ℕ) → in_second second t s.1 ≤ max_orders

-- Pruning the window at a later time.
prune-IsPaced :
    (second max_orders now later : ℕ) (window accepted : List ℕ)
    → now ≤ later
    → IsPaced second max_orders now (window, accepted)
    → IsPaced second max_orders later (prune second later window, accepted)
prune-IsPaced second max_orders now later window accepted h p =
    let (gone, split', o) = prune-split second later window in
    record {
      old = p.old ++ gone;
      split =
          p.split
          ∙ ap (λ ys. p.old ++ ys) split'
          ∙ sym (append_assoc p.old gone (prune second later window));
      are_old =
          All-append (λ (x : ℕ). x + second ≤ later) p.old gone
            (Old-later second now later p.old h p.are_old) o;
      paced = p.paced;
    }

-- Accepting an order when the window holds fewer than the limit.
accept-IsPaced :
    (second max_orders now : ℕ) (window accepted : List ℕ)
    → length window < max_orders
    → IsPaced second max_orders now (window, accepted)
    → IsPaced second max_orders now (record_sent now window, accepted ++ now ∷ [])
unfolding record_sent
accept-IsPaced second max_orders now window accepted room p = record {
  old = p.old;
  split = ap (λ ys. ys ++ now ∷ []) p.split ∙ append_assoc p.old window (now ∷ []);
  are_old = p.are_old;
  paced = paced';
}
  where
    paced' : (t : ℕ) → in_second second t (accepted ++ now ∷ []) ≤ max_orders
    paced' t = elim (Bool-cases (leb now t)) [
      | inl after ↦
          let late : now ≤ t = ground arith in
          let one : in_second second t (now ∷ []) ≤ 1 = unfold in_second in ground arith in
          let held : in_second second t accepted
              ≡ in_second second t p.old + in_second second t window =
            ap (in_second second t) p.split ∙ in_second-append second t p.old window in
          omega (
            arith,
            in_second-append second t accepted (now ∷ []),
            held,
            one,
            in_second-Old second now t p.old late p.are_old,
            in_second-le-length second t window,
            room,
          )
      | inr before ↦
          let none_yet : in_second second t (now ∷ []) ≡ 0 = unfold in_second in ground arith in
          omega (arith, in_second-append second t accepted (now ∷ []), none_yet, p.paced t)
    ]

abbrev pub time : Check → ℕ
time (refused_before now) = now
time (refused_after now) = now
time (allowed_otherwise now) = now

-- Checks at times from `now` on that never go back.
abbrev pub AreInOrder : ℕ → List Check → Type 0
AreInOrder now [] = Unit
AreInOrder now (c ∷ cs) = (now ≤ time c) × AreInOrder (time c) cs

check_rate-IsPaced :
    (second max_orders now : ℕ) (s : List ℕ × List ℕ) (c : Check)
    → now ≤ time c
    → IsPaced second max_orders now s
    → IsPaced second max_orders (time c) (check_rate second max_orders s c)
unfolding check_rate count
check_rate-IsPaced second max_orders now (window, accepted) (refused_before later) h p = record {
  old = p.old;
  split = p.split;
  are_old = Old-later second now later p.old h p.are_old;
  paced = p.paced;
}
check_rate-IsPaced second max_orders now (window, accepted) (refused_after later) h p =
    prune-IsPaced second max_orders now later window accepted h p
check_rate-IsPaced second max_orders now (window, accepted) (allowed_otherwise later) h p =
    let left = prune second later window in
    let p' = prune-IsPaced second max_orders now later window accepted h p in
    elim (Bool-cases (leb max_orders (length left))) [
      | inl full ↦ rw full p'
      | inr room ↦ rw room (accept-IsPaced second max_orders later left accepted (ground arith) p')
    ]

check_rates-IsPaced :
    (second max_orders now : ℕ) (s : List ℕ × List ℕ) (cs : List Check)
    → AreInOrder now cs
    → IsPaced second max_orders now s
    → (t : ℕ) → in_second second t (check_rates second max_orders s cs).1 ≤ max_orders
unfolding check_rates
check_rates-IsPaced second max_orders now s [] o p t = p.paced t
check_rates-IsPaced second max_orders now s (c ∷ cs) o p t =
    check_rates-IsPaced second max_orders (time c) (check_rate second max_orders s c) cs o.1
      (check_rate-IsPaced second max_orders now s c o.0 p) t

-- Whatever orders are checked at times that never go back, and whatever the other checks say, no
-- second, ending at any moment, holds more accepted orders of the scope than its limit.
pub rate_bounded :
    (second max_orders : ℕ) (cs : List Check) (t : ℕ)
    → AreInOrder 0 cs
    → in_second second t (check_rates second max_orders ([], []) cs).1 ≤ max_orders
rate_bounded second max_orders cs t o =
    check_rates-IsPaced second max_orders 0 ([], []) cs o
      (record {
        old = [];
        split = refl;
        are_old = tt;
        paced = λ u. unfold in_second in omega arith;
      })
      t
