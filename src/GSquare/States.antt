-- ===== src/GSquare/States.antt =====
-- The states are the digits of a number in a mixed radix, and the iteration counts.
use ram_ble.Base.{
  ℕ, zero, suc, ◌+◌, ◌*◌, ◌<◌, ◌≡◌, ◌⊎◌, inl, inr, refl, ap, ◌∙◌, Bool, true, false, List, [], ◌∷◌,
  some, arith, ◌==◌, ==_eq, Bool-cases, map, ltb, ◌&&◌, ◌-◌, All,
}
use ram_ble.GSquare.{next, first_state, visit}

-- The number of all states, and the number of one.
abbrev pub total : List ℕ → ℕ
total [] = 1
total (b ∷ bs) = b * total bs

abbrev pub value : List ℕ → List ℕ → ℕ
value [] state = 0
value (b ∷ bs) [] = 0
value (b ∷ bs) (s ∷ ss) = s + b * value bs ss

-- A state has one entry below each bound.
abbrev pub is_state : List ℕ → List ℕ → Bool
is_state [] [] = true
is_state [] (s ∷ ss) = false
is_state (b ∷ bs) [] = false
is_state (b ∷ bs) (s ∷ ss) = ltb s b && is_state bs ss

-- One step of the iteration: the number goes up by one, or it was the last one.
abbrev Stepped : List ℕ → List ℕ → Type 0
Stepped bs ss =
    (is_state bs (next bs ss).0 ≡ true)
    × ((((next bs ss).1 ≡ true) × (value bs (next bs ss).0 ≡ value bs ss + 1))
        ⊎ (((next bs ss).1 ≡ false) × (value bs ss + 1 ≡ total bs)))

times_up : (b s v v' : ℕ) → suc s ≡ b → v' ≡ v + 1 → 0 + b * v' ≡ s + b * v + 1
times_up b s v v' p q = rw q (omega (arith, p))

times_last : (b s v t : ℕ) → suc s ≡ b → v + 1 ≡ t → s + b * v + 1 ≡ b * t
times_last b s v t p q = rw (← q) (omega (arith, p))

times_less : (b s v t : ℕ) → s < b → v < t → s + b * v < b * t
times_less b s v t l m =
    let d = t - v - 1 in let q : v + 1 + d ≡ t = omega (arith, m) in rw (← q) (omega (arith, l))

-- The number of a state is less than the number of all states.
pub value_less : (bs ss : List ℕ) → is_state bs ss ≡ true → value bs ss < total bs
value_less [] [] h = omega arith
value_less [] (s ∷ ss) h = absurd (ground arith)
value_less (b ∷ bs) [] h = absurd (ground arith)
value_less (b ∷ bs) (s ∷ ss) h =
    times_less b s (value bs ss) (total bs) (ground arith) (value_less bs ss (ground arith))

next_lem : (bs ss : List ℕ) → is_state bs ss ≡ true → Stepped bs ss
unfolding next
next_lem [] [] h = (refl, inr (refl, refl))
next_lem [] (s ∷ ss) h = absurd (ground arith)
next_lem (b ∷ bs) [] h = absurd (ground arith)
next_lem (b ∷ bs) (s ∷ ss) h =
    let l : ltb s b ≡ true = ground arith in
    let (i, step) = next_lem bs ss (ground arith) in
    elim (Bool-cases (suc s == b)) [
      | inr e ↦ rw e (ground arith, inl (refl, omega arith))
      | inl e ↦
          let p : suc s ≡ b = ==_eq (suc s) b e in
          rw e (
            ground arith,
            elim step [
              | inl (v, n) ↦ inl (v, times_up b s (value bs ss) (value bs (next bs ss).0) p n)
              | inr (v, n) ↦ inr (v, times_last b s (value bs ss) (total bs) p n)
            ],
          )
    ]

-- n, n + 1, ..., of the given length.
abbrev pub count_from : ℕ → ℕ → List ℕ
count_from n zero = []
count_from n (suc k) = n ∷ count_from (n + 1) k

visit_lem :
    (k : ℕ) (bs ss : List ℕ)
    → is_state bs ss ≡ true
    → value bs ss + k ≡ total bs
    → (l : List (List ℕ)) × (visit k bs ss ≡ some l)
      × (map (value bs) l ≡ count_from (value bs ss) k)
      × All (λ state. is_state bs state ≡ true) l
unfolding visit
visit_lem zero bs ss h e = absurd (omega (arith, value_less bs ss h))
visit_lem (suc k) bs ss h e =
    let (i, step) = next_lem bs ss h in
    elim step [
      | inr (v, n) ↦
          let none_left : k ≡ 0 = omega (arith, n, e) in
          (ss ∷ [], rw (v, visit) refl, rw none_left refl, (h, tt))
      | inl (v, n) ↦
          let (l, runs, values, all) = visit_lem k bs (next bs ss).0 i (omega (arith, n, e)) in
          (
            ss ∷ l,
            rw (v, visit) (rw (runs, visit) refl),
            ap (λ r. value bs ss ∷ r) (values ∙ ap (λ m. count_from m k) n),
            (h, all),
          )
    ]

first_state_lem :
    (bs : List ℕ)
    → All (λ b. 0 < b) bs
    → (is_state bs (first_state bs) ≡ true) × (value bs (first_state bs) ≡ 0)
unfolding first_state
first_state_lem [] h = (refl, refl)
first_state_lem (b ∷ bs) (p, h) =
    let (i, v) = first_state_lem bs h in (ground arith, rw v (omega arith))

-- The loop over a StateIterator, for variables with at least one state each: it ends after as many
-- rounds as there are combinations of states, and the k-th state that it visits, counted from 0, is
-- the one whose entries are the digits of k, the first entry the least significant, so that every
-- combination is visited once.
pub visit_counts :
    (bs : List ℕ)
    → All (λ b. 0 < b) bs
    → (states : List (List ℕ)) × (visit (total bs) bs (first_state bs) ≡ some states)
      × (map (value bs) states ≡ count_from 0 (total bs))
      × All (λ state. is_state bs state ≡ true) states
visit_counts bs h =
    let (i, v) = first_state_lem bs h in
    let (l, runs, values, all) = visit_lem (total bs) bs (first_state bs) i (omega (arith, v)) in
    (l, runs, values ∙ ap (λ m. count_from m (total bs)) v, all)
