-- ===== src/Setting/Gaps/Laws.antt =====
-- The laws of `VarSets` for lists of gaps.
use ram_ble.Base.{
  ℕ, suc, ◌+◌, ◌-◌, ◌≤◌, ◌≡◌, ◌↔◌, refl, ap, Bool, true, false, not, ◌&&◌, ◌||◌, List, [], ◌∷◌, map,
  arith, ltb, ◌==◌, if◌then◌else◌, length, any, mem, distinct, above, ascends, ◌<◌, Bool-cases, inl,
  inr, ◌∙◌, sym,
}
use ram_ble.Setting.Gaps.{
  Gaps, contains, shift, insert, erase, elems_from, insert_all, erase_all, eq,
}

pub contains-shift :
    (k : ℕ) (s : Gaps) (x : ℕ)
    → contains (shift k s) x ≡ (if ltb x k then false else contains s (x - k))
unfolding contains shift
contains-shift k [] x = ground arith
contains-shift k (g ∷ gs) x =
    let e : k ≤ x → x - (g + k) - 1 ≡ x - k - g - 1 = λ h. omega arith in
    elim (Bool-cases (ltb x k)) [
      | inl h ↦ ground arith
      | inr h ↦ rw (e (ground arith)) (ground arith)
    ]

pub contains-insert :
    (a : ℕ) (s : Gaps) (x : ℕ) → contains (insert a s) x ≡ (x == a || contains s x)
unfolding contains insert
contains-insert a [] x = ground arith
contains-insert a (g ∷ gs) x = ground (arith, contains-insert (a - g - 1) gs (x - g - 1))

pub contains-erase :
    (a : ℕ) (s : Gaps) (x : ℕ) → contains (erase a s) x ≡ (not (x == a) && contains s x)
unfolding contains erase
contains-erase a [] x = ground arith
contains-erase a (g ∷ gs) x =
    ground (arith, contains-erase (a - g - 1) gs (x - g - 1), contains-shift (g + 1) gs x)

pub mem-elems_from :
    (k : ℕ) (s : Gaps) (x : ℕ)
    → mem x (elems_from k s) ≡ (if ltb x k then false else contains s (x - k))
unfolding contains elems_from
mem-elems_from k [] x = ground arith
mem-elems_from k (g ∷ gs) x =
    let e : k ≤ x → x - (k + g + 1) ≡ x - k - g - 1 = λ h. omega arith in
    elim (Bool-cases (ltb x k)) [
      | inl h ↦ ground (arith, mem-elems_from (k + g + 1) gs x)
      | inr h ↦ ground (arith, mem-elems_from (k + g + 1) gs x, ap (contains gs) (e (ground arith)))
    ]

pub elems_from-distinct : (k : ℕ) (s : Gaps) → distinct (elems_from k s) ≡ true
unfolding elems_from
elems_from-distinct k [] = refl
elems_from-distinct k (g ∷ gs) =
    ground (arith, elems_from-distinct (k + g + 1) gs, mem-elems_from (k + g + 1) gs (k + g))

elems_from-above : (x k : ℕ) (s : Gaps) → x < k → above x (elems_from k s) ≡ true
unfolding elems_from
elems_from-above x k [] h = refl
elems_from-above x k (g ∷ gs) h = ground (arith, elems_from-above x (k + g + 1) gs (omega arith))

pub elems_from-ascends : (k : ℕ) (s : Gaps) → ascends (elems_from k s) ≡ true
unfolding elems_from
elems_from-ascends k [] = refl
elems_from-ascends k (g ∷ gs) = ground (
  arith,
  elems_from-ascends (k + g + 1) gs,
  elems_from-above (k + g) (k + g + 1) gs (omega arith),
)

pub length-elems_from : (k : ℕ) (s : Gaps) → length s ≡ length (elems_from k s)
unfolding elems_from
length-elems_from k [] = refl
length-elems_from k (g ∷ gs) = ap suc (length-elems_from (k + g + 1) gs)

pub contains-insert_all :
    (xs : List ℕ) (s : Gaps) (x : ℕ) → contains (insert_all xs s) x ≡ (mem x xs || contains s x)
unfolding insert_all
contains-insert_all [] s x = refl
contains-insert_all (y ∷ ys) s x =
    ground (arith, contains-insert y (insert_all ys s) x, contains-insert_all ys s x)

pub contains-erase_all :
    (xs : List ℕ) (s : Gaps) (x : ℕ)
    → contains (erase_all xs s) x ≡ (contains s x && not (mem x xs))
unfolding erase_all
contains-erase_all [] s x = ground arith
contains-erase_all (y ∷ ys) s x =
    ground (arith, contains-erase y (erase_all ys s) x, contains-erase_all ys s x)

pub eq_iff : (s t : Gaps) → (eq s t ≡ true) ↔ (s ≡ t)
unfolding eq
eq_iff [] [] = ground arith
eq_iff [] (h ∷ hs) = ground arith
eq_iff (g ∷ gs) [] = ground arith
eq_iff (g ∷ gs) (h ∷ hs) = ground (arith, eq_iff gs hs)

pub contains-cons_above :
    (g : ℕ) (gs : Gaps) (x : ℕ) → contains (g ∷ gs) (x + g + 1) ≡ contains gs x
unfolding contains
contains-cons_above g gs x =
    let e : x + g + 1 - g - 1 ≡ x = omega arith in ground (arith, ap (contains gs) e)

pub contains-cons_head : (g : ℕ) (gs : Gaps) → contains (g ∷ gs) g ≡ true
unfolding contains
contains-cons_head g gs = ground arith

pub le_of_contains : (g : ℕ) (gs : Gaps) (x : ℕ) → contains (g ∷ gs) x ≡ true → g ≤ x
unfolding contains
le_of_contains g gs x h = ground arith

pub ext : (s t : Gaps) → ((x : ℕ) → contains s x ≡ contains t x) → s ≡ t
unfolding contains
ext [] [] f = refl
ext [] (h ∷ hs) f = ground (arith, f h)
ext (g ∷ gs) [] f = ground (arith, f g)
ext (g ∷ gs) (h ∷ hs) f =
    let heads : g ≡ h = ground (arith, f g, f h) in
    let tails : gs ≡ hs = ext gs hs (λ x.
      sym (contains-cons_above g gs x) ∙ f (x + g + 1) ∙ rw heads (contains-cons_above h hs x)) in
    cc

-- Inclusion of lists of gaps.
abbrev pub Within : Gaps → Gaps → Type 0
Within c s = (x : ℕ) → contains c x ≡ true → contains s x ≡ true

pub any-map :
    (p : Gaps → Bool) (f : Gaps → Gaps) (xs : List Gaps) → any p (map f xs) ≡ any (λ c. p (f c)) xs
any-map p f [] = refl
any-map p f (x ∷ xs) = ap (λ b. p (f x) || b) (any-map p f xs)

-- What a subset in the list looks like.
pub any-witness :
    (p : Gaps → Bool) (xs : List Gaps)
    → any p xs ≡ true
    → (c : Gaps) × (p c ≡ true) × (any (eq c) xs ≡ true)
any-witness p [] h = cc
any-witness p (x ∷ xs) h = elim (Bool-cases (p x)) [
  | inl e ↦ (x, e, ground (arith, eq_iff x x))
  | inr e ↦ let (c, pc, m) = any-witness p xs (ground arith) in (c, pc, ground arith)
]
