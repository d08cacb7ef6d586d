-- ===== src/GlobalLearning/PcStable/Pairs.antt =====
-- initializeLearning: the edges of one processor are a part of the list of all pairs.
use ram_ble.Base.{
  ℕ, zero, suc, ◌+◌, ◌-◌, ◌*◌, ◌/◌, ◌≤◌, ◌<◌, ◌≡◌, refl, ap, sym, ◌∙◌, List, [], ◌∷◌, ◌++◌, map,
  some, arith, leb, length, length-append, Bool-cases, inl, inr,
}
use ram_ble.Setting.{Setting}
use ram_ble.GlobalLearning.Initialize.{drop, find_primary, Edge, fill_edges, first_edges}

-- The first elements of a list.
abbrev pub take {ℓ} : {A : Type ℓ} → ℕ → List A → List A
take zero xs = []
take (suc k) [] = []
take (suc k) (x ∷ xs) = x ∷ take k xs

length-drop {ℓ} :
    {A : Type ℓ} (d : ℕ) (xs : List A) → d ≤ length xs → length (drop d xs) + d ≡ length xs
length-drop zero xs h = omega arith
length-drop (suc d) [] h = absurd (omega arith)
length-drop (suc d) (x ∷ xs) h = omega (arith, length-drop d xs)

-- Every pair of variables once, in the order of the list.
abbrev pub all_pairs : List ℕ → List (ℕ × ℕ)
all_pairs [] = []
all_pairs (x ∷ xs) = map (λ y. (x, y)) xs ++ all_pairs xs

length-pairs_of : (x : ℕ) (ys : List ℕ) → length (map {B = ℕ × ℕ} (λ y. (x, y)) ys) ≡ length ys
length-pairs_of x [] = refl
length-pairs_of x (y ∷ ys) = ap suc (length-pairs_of x ys)

drop-all_pairs :
    (d : ℕ) (x : ℕ) (ys : List ℕ)
    → d ≤ length ys
    → drop d (all_pairs (x ∷ ys)) ≡ map (λ y. (x, y)) (drop d ys) ++ all_pairs ys
drop-all_pairs d x ys h = skip d ys (all_pairs ys) h
  where
    skip :
        (d : ℕ) (zs : List ℕ) (rest : List (ℕ × ℕ))
        → d ≤ length zs
        → drop d (map (λ y. (x, y)) zs ++ rest) ≡ map (λ y. (x, y)) (drop d zs) ++ rest
    skip zero zs rest h = refl
    skip (suc d) [] rest h = absurd (omega arith)
    skip (suc d) (z ∷ zs) rest h = skip d zs rest (omega arith)

-- Skipping a whole row.
drop_row :
    (d : ℕ) (x : ℕ) (ys : List ℕ)
    → drop (length ys + d) (all_pairs (x ∷ ys)) ≡ drop d (all_pairs ys)
drop_row d x ys = skip ys
  where
    skip :
        (zs : List ℕ)
        → drop (length zs + d) (map (λ y. (x, y)) zs ++ all_pairs ys) ≡ drop d (all_pairs ys)
    skip [] = ap (λ k. drop k (all_pairs ys)) (omega arith)
    skip (z ∷ zs) =
        ap (λ k. drop k ((x, z) ∷ (map (λ y. (x, y)) zs ++ all_pairs ys)))
          (let e : suc (length zs) + d ≡ suc (length zs + d) = omega arith in e)
        ∙ skip zs

-- The row x ∷ ys that holds the pair at my_offset, for a search that began with the list vars after
-- k variables and curr pairs.
record Row (k curr my_offset : ℕ) (vars : List ℕ) (k' curr' : ℕ) : Type 0 where
  x : ℕ
  ys : List ℕ
  at : drop (k' - k) vars ≡ x ∷ ys
  after : k ≤ k'
  begun : curr' ≤ my_offset
  inside : my_offset - curr' < length ys
  same : drop (my_offset - curr) (all_pairs vars) ≡ drop (my_offset - curr') (all_pairs (x ∷ ys))

Row-next :
    (k curr my_offset x : ℕ) (ys : List ℕ) (k' curr' : ℕ)
    → curr + length ys ≤ my_offset
    → Row (k + 1) (curr + length ys) my_offset ys k' curr'
    → Row k curr my_offset (x ∷ ys) k' curr'
Row-next k curr my_offset x ys k' curr' l r = record {
  x = r.x;
  ys = r.ys;
  at =
      let a = r.after in
      ap (λ d. drop d (x ∷ ys)) (let e : k' - k ≡ suc (k' - (k + 1)) = omega arith in e) ∙ r.at;
  after = omega (arith, r.after);
  begun = r.begun;
  inside = r.inside;
  same =
      ap (λ d. drop d (all_pairs (x ∷ ys)))
        (let e : my_offset - curr ≡ length ys + (my_offset - (curr + length ys)) = omega arith in e)
      ∙ drop_row (my_offset - (curr + length ys)) x ys
      ∙ r.same;
}

-- The loop that looks for the row, from the row of the list (whose variables follow k others).
find_primary-Row :
    (fuel k curr my_offset : ℕ) (vars : List ℕ) (n : ℕ)
    → n ≡ k + length vars
    → curr ≤ my_offset
    → my_offset < curr + length (all_pairs vars)
    → length vars ≤ fuel
    → (k' : ℕ) × (curr' : ℕ) × (find_primary fuel n my_offset k curr ≡ (k', curr'))
      × Row k curr my_offset vars k' curr'
unfolding find_primary
find_primary-Row fuel k curr my_offset [] n e l h f = absurd (omega arith)
find_primary-Row zero k curr my_offset (x ∷ ys) n e l h f = absurd (omega arith)
find_primary-Row (suc fuel) k curr my_offset (x ∷ ys) n e l h f =
    let pairs = length-append (map {B = ℕ × ℕ} (λ y. (x, y)) ys) (all_pairs ys) in
    let width = length-pairs_of x ys in
    let step : curr + (n - (k + 1)) ≡ curr + length ys = omega arith in
    elim (Bool-cases (leb (curr + length ys) my_offset)) [
      | inl b ↦
          let (k', curr', runs, row) =
            find_primary-Row fuel (k + 1) (curr + length ys) my_offset ys n (omega arith)
              (ground arith) (omega arith) (omega arith) in
          (
            k',
            curr',
            rw (step, find_primary) (rw b runs),
            Row-next k curr my_offset x ys k' curr' (ground arith) row,
          )
      | inr b ↦ (
        k,
        curr,
        rw (step, find_primary) (rw b refl),
        record {
          x = x;
          ys = ys;
          at = ap (λ d. drop d (x ∷ ys)) (let e' : k - k ≡ 0 = omega arith in e');
          after = omega arith;
          begun = l;
          inside = ground arith;
          same = refl;
        },
      )
    ]

-- The number of pairs.
pub length-all_pairs : (xs : List ℕ) → length (all_pairs xs) * 2 ≡ length xs * (length xs - 1)
length-all_pairs [] = refl
length-all_pairs (x ∷ []) = refl
length-all_pairs (x ∷ y ∷ xs) =
    let pairs = length-append (map {B = ℕ × ℕ} (λ z. (x, z)) (y ∷ xs)) (all_pairs (y ∷ xs)) in
    let width = length-pairs_of x (y ∷ xs) in
    let rest = length-all_pairs (y ∷ xs) in
    let n : ℕ = length xs in
    let less : suc n - 1 ≡ n = omega arith in
    let less' : suc (suc n) - 1 ≡ suc n = omega arith in
    let rest' : length (all_pairs (y ∷ xs)) * 2 ≡ suc n * n = rest ∙ rw less refl in
    rw less' (omega arith)

module _ (w : Setting) where
  open w use {zero_point}

  -- The edge of a pair, as it is at first.
  abbrev pub fresh : ℕ × ℕ → Edge w
  fresh e = (e, zero_point)

  fill_edges_lem :
      (i p : ℕ) (primary secondary : List ℕ)
      → i ≤ length secondary + length (all_pairs primary)
      → fill_edges w i (p ∷ primary) secondary
        ≡ some (map fresh (take i (map (λ y. (p, y)) secondary ++ all_pairs primary)))
  unfolding fill_edges
  fill_edges_lem zero p primary secondary h = refl
  fill_edges_lem (suc i) p primary (s ∷ secondary) h =
      rw (fill_edges_lem i p primary secondary (omega arith)) refl
  fill_edges_lem (suc i) p [] [] h = absurd (omega arith)
  fill_edges_lem (suc i) p (q ∷ []) [] h = absurd (omega arith)
  fill_edges_lem (suc i) p (q ∷ s ∷ rest) [] h =
      let pairs = length-append (map {B = ℕ × ℕ} (λ y. (q, y)) (s ∷ rest)) (all_pairs (s ∷ rest)) in
      let width = length-pairs_of q (s ∷ rest) in
      rw (fill_edges_lem i q (s ∷ rest) rest (omega arith)) refl

  drop-suc :
      (k x : ℕ) (vars ys : List ℕ)
      → drop k vars ≡ x ∷ ys
      → (d : ℕ) → drop (1 + d) (drop k vars) ≡ drop d ys
  drop-suc k x vars ys e d =
      ap (drop (1 + d)) e ∙ ap (λ j. drop j (x ∷ ys)) (let e' : 1 + d ≡ suc d = omega arith in e')

  -- The part of the list of all pairs that starts at an offset, of a size.
  abbrev pub slice : ℕ → ℕ → List ℕ → List (ℕ × ℕ)
  slice offset size vars = take size (drop offset (all_pairs vars))

  from_Row :
      (vars : List ℕ) (my_offset my_size k curr : ℕ)
      → my_offset + my_size ≤ length vars * (length vars - 1) / 2
      → Row 0 0 my_offset vars k curr
      → fill_edges w my_size (drop k vars) (drop (1 + (my_offset - curr)) (drop k vars))
        ≡ some (map fresh (slice my_offset my_size vars))
  from_Row vars my_offset my_size k curr h row =
      let d = my_offset - curr in
      let (x, ys) : ℕ × List ℕ = (row.x, row.ys) in
      let inside = row.inside in
      let at : drop k vars ≡ x ∷ ys =
        ap (λ j. drop j vars) (let e : k ≡ k - 0 = omega arith in e) ∙ row.at in
      let same : drop my_offset (all_pairs vars) ≡ map (λ y. (x, y)) (drop d ys) ++ all_pairs ys =
        ap (λ j. drop j (all_pairs vars)) (let e : my_offset ≡ my_offset - 0 = omega arith in e)
        ∙ row.same
        ∙ drop-all_pairs d x ys (omega arith) in
      let count = length-all_pairs vars in
      let whole = length-drop my_offset (all_pairs vars) (omega arith) in
      let parts = length-append (map {B = ℕ × ℕ} (λ y. (x, y)) (drop d ys)) (all_pairs ys) in
      let width = length-pairs_of x (drop d ys) in
      let size : length (drop my_offset (all_pairs vars))
          ≡ length (drop d ys) + length (all_pairs ys) =
        ap length same ∙ omega arith in
      rw (drop-suc k x vars ys at d) (
        rw at (
          fill_edges_lem my_size x ys (drop d ys) (omega arith)
          ∙ ap (λ l. some (map fresh (take my_size l))) (sym same)))

  -- initializeLearning gives a processor whose block of pairs starts at my_offset and has my_size
  -- pairs, one at least and all within the n (n - 1) / 2 pairs, exactly that block of the list of all
  -- pairs, each with the p-value 0; so the blocks of the processors together are all pairs once.
  pub first_edges-slice :
      (vars : List ℕ) (my_offset my_size : ℕ)
      → 0 < my_size
      → my_offset + my_size ≤ length vars * (length vars - 1) / 2
      → first_edges w vars my_offset my_size ≡ some (map fresh (slice my_offset my_size vars))
  unfolding first_edges
  first_edges-slice vars my_offset my_size p h =
      let n = length vars in
      let count = length-all_pairs vars in
      let (k, curr, found, row) =
        find_primary-Row n 0 0 my_offset vars n (omega arith) (omega arith) (omega arith)
          (omega arith) in
      rw (found, first_edges) (from_Row vars my_offset my_size k curr h row)
