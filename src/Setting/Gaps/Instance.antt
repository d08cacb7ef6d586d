-- ===== src/Setting/Gaps/Instance.antt =====
-- Concrete numbers and sets that meet the laws of `Doubles` and `VarSets`, and settings over them.
use ram_ble.Base.{
  ℕ, ◌≡◌, refl, true, false, not, ◌&&◌, ◌||◌, [], arith, ltb, ◌==◌, length, mem, if◌then◌else◌,
}
use ram_ble.Setting.{Doubles, VarSets, Setting}
use ram_ble.Setting.Gaps.{
  Gaps, contains, insert, erase, elems_from, insert_all, erase_all, eq, subsets,
}
use ram_ble.Setting.Gaps.Laws
use ram_ble.Setting.Gaps.Subsets

pub contains-union :
    (s t : Gaps) (x : ℕ)
    → contains (insert_all (elems_from 0 s) t) x ≡ (contains s x || contains t x)
contains-union s t x =
    ground (arith, Laws.contains-insert_all (elems_from 0 s) t x, Laws.mem-elems_from 0 s x)

pub contains-difference :
    (s t : Gaps) (x : ℕ)
    → contains (erase_all (elems_from 0 t) s) x ≡ (contains s x && not (contains t x))
contains-difference s t x =
    ground (arith, Laws.contains-erase_all (elems_from 0 t) s x, Laws.mem-elems_from 0 t x)

pub contains-intersection :
    (s t : Gaps) (x : ℕ)
    → contains (erase_all (elems_from 0 (erase_all (elems_from 0 t) s)) s) x
      ≡ (contains s x && contains t x)
contains-intersection s t x =
    ground
      (arith, contains-difference s (erase_all (elems_from 0 t) s) x, contains-difference s t x)

pub contains-elems : (s : Gaps) (x : ℕ) → mem x (elems_from 0 s) ≡ contains s x
contains-elems s x = ground (arith, Laws.mem-elems_from 0 s x)

pub contains-empty : (n x : ℕ) → contains [] x ≡ false
unfolding contains
contains-empty n x = refl

abbrev pub gap_sets : VarSets
gap_sets = record {
  Set = Gaps;
  set_init = λ _. [];
  contains = contains;
  elems = elems_from 0;
  size = length;
  insert = insert;
  erase = erase;
  set_union = λ s t. insert_all (elems_from 0 s) t;
  set_difference = λ s t. erase_all (elems_from 0 t) s;
  set_intersection = λ s t. erase_all (elems_from 0 (erase_all (elems_from 0 t) s)) s;
  set_eq = eq;
  subsets = subsets;
  contains-set_init = contains-empty;
  contains-insert = Laws.contains-insert;
  contains-erase = Laws.contains-erase;
  contains-union = contains-union;
  contains-difference = contains-difference;
  contains-intersection = contains-intersection;
  contains-elems = contains-elems;
  elems_ascend = Laws.elems_from-ascends 0;
  elems_distinct = Laws.elems_from-distinct 0;
  size-elems = Laws.length-elems_from 0;
  set_eq_iff = Laws.eq_iff;
  set_ext = Laws.ext;
  subsets_within = Subsets.within;
  subsets_complete = Subsets.complete;
}

pub less_irrefl : (a : ℕ) → ltb a a ≡ false
less_irrefl a = ground arith

pub less_trans : (a b c : ℕ) → ltb a b ≡ true → ltb b c ≡ true → ltb a c ≡ true
less_trans a b c h k = ground arith

pub less_compare : (a b c : ℕ) → ltb a c ≡ true → (ltb a b || ltb b c) ≡ true
less_compare a b c h = ground arith

pub less-lowest : (a : ℕ) → ltb a 0 ≡ false
less-lowest a = ground arith

-- Probabilities in percent, 1 for zero and 101 for one.
abbrev pub percents : Doubles
percents = record {
  Double = ℕ;
  is_less = ltb;
  zero_point = 1;
  one = 101;
  lowest = 0;
  highest = 1000;
  is_zero = λ g. g == 0;
  less_irrefl = less_irrefl;
  less_trans = less_trans;
  less_compare = less_compare;
  less-lowest = less-lowest;
  one-less-highest = refl;
}

unfoldable pub percent_cap : ℕ → ℕ
percent_cap g = if ltb 101 g then 101 else g

pub percent_cap_le : (df g : ℕ) → ltb 101 (percent_cap g) ≡ false
unfolding percent_cap
percent_cap_le df g = ground arith

-- The setting with n variables, a threshold, a bound on conditioning, and a table of p-values.
abbrev pub sample : ℕ → ℕ → ℕ → (ℕ → ℕ → Gaps → ℕ) → Setting
sample n threshold bound table = record {
  doubles = percents;
  sets = gap_sets;
  num_vars = n;
  alpha = threshold;
  max_conditioning = bound;
  g_square = λ x y z. (1, table x y z);
  upper_tail = λ _ g. percent_cap g;
  upper_tail_le_one = percent_cap_le;
}
