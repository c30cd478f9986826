-- ===== src/Book/SideLaws.antt =====
-- One side of a book (src/ismet/marketdata/book.py) against its abstract view: the size at each
-- price, where a price that is not listed has size zero.
use ismet.Prelude.{
  Bool, true, Option, none, some, [], ◌∷◌, Decimal, pos, negate, eqb_ℤ, eqb_iff, ◌<ℤ◌, ◌≤ℤ◌, ◌≡◌,
  ◌∙◌, refl, All, arith, if◌then◌else◌,
}
use ismet.Book.Side.{
  Levels, BookSide, size_of, put_level, drop_level, bisect_left, key_of, set, empty_side,
}
use ismet.Book.Keys.{
  is_some, mem_key, IsSorted, AreDistinct, size_of-put_level, size_of-drop_level,
  AreDistinct-put_level, AreDistinct-drop_level, IsSorted-insort, mem_key-insort, mem_key-delete,
  IsSorted-delete,
}

abbrev pub or_zero : Option Decimal → Decimal
or_zero none = pos 0
or_zero (some z) = z

unfoldable pub size_at : BookSide → Decimal → Decimal
size_at s p = or_zero (size_of p s.levels)

abbrev pub AllPositive : Levels → Type 0
AllPositive = All (λ (e : Decimal × Decimal). pos 0 <ℤ e.1)

-- The dict lists no price twice and no size but a positive one, and the keys are sorted and are
-- exactly those of the prices that the dict lists.
pub record IsSide (s : BookSide) : Type 0 where
  pub distinct : AreDistinct s.levels
  pub positive : AllPositive s.levels
  pub sorted : IsSorted s.keys
  pub keyed : (k : Decimal) → mem_key k s.keys ≡ is_some (size_of (key_of s.descending k) s.levels)

pub key_of-key_of : (d : Bool) (p : Decimal) → key_of d (key_of d p) ≡ p
unfolding key_of negate
key_of-key_of d p = ground arith

key_of-eqb : (d : Bool) (p k : Decimal) → eqb_ℤ k (key_of d p) ≡ eqb_ℤ p (key_of d k)
unfolding key_of negate
key_of-eqb d p k = ground arith

AllPositive-put_level :
    (p z : Decimal) (ls : Levels) → pos 0 <ℤ z → AllPositive ls → AllPositive (put_level p z ls)
unfolding put_level
AllPositive-put_level p z [] h a = (h, tt)
AllPositive-put_level p z ((q, w) ∷ ls) h a = ground (arith, AllPositive-put_level p z ls h a.1)

AllPositive-drop_level :
    (p : Decimal) (ls : Levels) → AllPositive ls → AllPositive (drop_level p ls)
unfolding drop_level
AllPositive-drop_level p [] a = tt
AllPositive-drop_level p ((q, w) ∷ ls) a = ground (arith, AllPositive-drop_level p ls a.1)

pub empty_side-IsSide : (d : Bool) → IsSide (empty_side d)
unfolding mem_key size_of
empty_side-IsSide d = record { distinct = tt; positive = tt; sorted = tt; keyed = λ k. refl }

module _ (s : BookSide) (p z : Decimal) (i : IsSide s) where
  -- The key of a price is listed exactly if the price is.
  mem_key-key_of : mem_key (key_of s.descending p) s.keys ≡ is_some (size_of p s.levels)
  mem_key-key_of = i.keyed (key_of s.descending p) ∙ rw (key_of-key_of s.descending p)

  -- Setting a price changes the size at that price and at no other.
  pub size_at-set : (q : Decimal) → size_at (set s p z) q ≡ (if eqb_ℤ p q then z else size_at s q)
  unfolding size_at set
  size_at-set q =
      let put = size_of-put_level p q z s.levels in
      let drop = size_of-drop_level p q s.levels i.distinct in
      let same : eqb_ℤ p q ≡ true → size_of p s.levels ≡ size_of q s.levels =
        λ h. rw ((eqb_iff p q).0 h) in
      ground (arith, same)

  -- Setting a size that is not negative keeps a side in order.
  pub set-IsSide : pos 0 ≤ℤ z → IsSide (set s p z)
  set-IsSide h = record {
    distinct =
        unfold set in
        ground (
          arith,
          AreDistinct-put_level p z s.levels i.distinct,
          AreDistinct-drop_level p s.levels i.distinct,
        );
    positive =
        unfold set in
        ground
          (arith, AllPositive-put_level p z s.levels, AllPositive-drop_level p s.levels i.positive);
    sorted =
        unfold set in
        ground (
          arith,
          mem_key-key_of,
          IsSorted-insort (key_of s.descending p) s.keys i.sorted,
          IsSorted-delete (bisect_left s.keys (key_of s.descending p)) s.keys i.sorted,
        );
    keyed = λ k.
        unfold set in
        ground (
          arith,
          mem_key-key_of,
          i.keyed k,
          key_of-eqb s.descending p k,
          mem_key-insort k (key_of s.descending p) s.keys,
          mem_key-delete k (key_of s.descending p) s.keys i.sorted,
          size_of-put_level p (key_of s.descending k) z s.levels,
          size_of-drop_level p (key_of s.descending k) s.levels i.distinct,
        );
  }
