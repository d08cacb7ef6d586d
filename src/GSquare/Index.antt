-- ===== src/GSquare/Index.antt =====
-- indexGiven: the index of an observation is the number of its state.
use ram_ble.Base.{
  ℕ, ◌+◌, ◌*◌, ◌-◌, ◌<◌, ◌≤◌, ◌≡◌, refl, ap, sym, ◌∙◌, true, List, [], ◌∷◌, arith, ltb→lt,
}
use ram_ble.GSquare.{wrap, index_loop, index_given}
use ram_ble.GSquare.States.{total, value, is_state, value_less}

abbrev pub states_of : List (ℕ × ℕ) → List ℕ
states_of [] = []
states_of ((s, r) ∷ rest) = s ∷ states_of rest

abbrev pub bounds_of : List (ℕ × ℕ) → List ℕ
bounds_of [] = []
bounds_of ((s, r) ∷ rest) = r ∷ bounds_of rest

wrap_less : (n : ℕ) → n < 4294967296 → wrap n ≡ n
wrap_less n h = omega (arith, h)

times_assoc : (c r t : ℕ) → c * (r * t) ≡ c * r * t
times_assoc c r t = omega arith

digit : (i c s r v : ℕ) → i + c * (s + r * v) ≡ (i + s * c) + c * r * v
digit i c s r v = omega arith

-- The next index is less than the next `cumulative`.
next_less : (i c s r : ℕ) → i < c → s < r → i + s * c < c * r
next_less i c s r l m =
    let d = r - s - 1 in let q : s + 1 + d ≡ r = omega (arith, m) in rw (← q) (omega (arith, l))

times_le : (c t : ℕ) → 0 < t → c ≤ c * t
times_le c t h = let d = t - 1 in let q : d + 1 ≡ t = omega (arith, h) in rw (← q) (omega arith)

same_pair : (a b c d : ℕ) → a ≡ b → c ≡ d → ◌≡◌ {A = ℕ × ℕ} (a, c) (b, d)
same_pair a b c d p q = rw (p, q) refl

start_lem : (i c : ℕ) → index_loop [] (i, c) ≡ (i + c * 0, c * 1)
unfolding index_loop
start_lem i c = same_pair i (i + c * 0) c (c * 1) (omega arith) (omega arith)

step_lem :
    (s r i c t : ℕ) (rest : List (ℕ × ℕ))
    → i < c
    → s < r
    → 0 < t
    → c * (r * t) < 4294967296
    → index_loop ((s, r) ∷ rest) (i, c) ≡ index_loop rest (i + s * c, c * r)
unfolding index_loop
step_lem s r i c t rest l m p h =
    let less = next_less i c s r l m in
    let fits : c * r < 4294967296 = omega (arith, times_assoc c r t, times_le (c * r) t p, h) in
    let first : wrap (s * c) ≡ s * c = wrap_less (s * c) (omega (arith, less, fits)) in
    let second : wrap (i + wrap (s * c)) ≡ i + s * c =
      ap (λ n. wrap (i + n)) first ∙ wrap_less (i + s * c) (omega (arith, less, fits)) in
    ap (index_loop rest) (
      same_pair (wrap (i + wrap (s * c))) (i + s * c) (wrap (c * r)) (c * r) second
        (wrap_less (c * r) fits))

index_loop_lem :
    (l : List (ℕ × ℕ)) (i c : ℕ)
    → is_state (bounds_of l) (states_of l) ≡ true
    → i < c
    → c * total (bounds_of l) < 4294967296
    → index_loop l (i, c) ≡ (i + c * value (bounds_of l) (states_of l), c * total (bounds_of l))
index_loop_lem [] i c h l f = start_lem i c
index_loop_lem ((s, r) ∷ rest) i c h l f =
    let m : s < r = ltb→lt s r (ground arith) in
    let t = total (bounds_of rest) in
    let v = value (bounds_of rest) (states_of rest) in
    let inner : is_state (bounds_of rest) (states_of rest) ≡ true = ground arith in
    let p : 0 < t = omega (arith, value_less (bounds_of rest) (states_of rest) inner) in
    step_lem s r i c t rest l m p f
    ∙ index_loop_lem rest (i + s * c) (c * r) inner (next_less i c s r l m)
        (omega (arith, times_assoc c r t, f))
    ∙ same_pair ((i + s * c) + c * r * v) (i + c * (s + r * v)) (c * r * t) (c * (r * t))
        (sym (digit i c s r v)) (sym (times_assoc c r t))

-- indexGiven for one observation of the conditioning variables, with each state below its number of
-- states: when the product of the numbers of states fits in 32 bits, then the index is the number
-- of the state among all states, which is less than the returned product, and nothing has wrapped.
pub index_given_lem :
    (s r : ℕ) (rest : List (ℕ × ℕ))
    → is_state (bounds_of ((s, r) ∷ rest)) (states_of ((s, r) ∷ rest)) ≡ true
    → total (bounds_of ((s, r) ∷ rest)) < 4294967296
    → (index_given ((s, r) ∷ rest) ≡ (
      value (bounds_of ((s, r) ∷ rest)) (states_of ((s, r) ∷ rest)),
      total (bounds_of ((s, r) ∷ rest)),
    ))
      × (value (bounds_of ((s, r) ∷ rest)) (states_of ((s, r) ∷ rest))
          < total (bounds_of ((s, r) ∷ rest)))
unfolding index_given
index_given_lem s r rest h f = (
  index_loop_lem rest s r (ground arith) (ltb→lt s r (ground arith)) f,
  value_less (bounds_of ((s, r) ∷ rest)) (states_of ((s, r) ∷ rest)) h,
)
