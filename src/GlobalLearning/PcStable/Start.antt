-- ===== src/GlobalLearning/PcStable/Start.antt =====
-- The state before the first round: all pairs, all candidates, and no marks.
use ram_ble.Base.{
  All-append, ℕ, zero, suc, ◌-◌, ◌*◌, ◌/◌, ◌<◌, ◌≡◌, refl, ap, sym, ◌∙◌, true, not, ◌&&◌, ◌||◌,
  List, [], ◌∷◌, ◌++◌, map, some, arith, ◌==◌, ==_eq, ==_refl, Bool-cases, inl, inr, mem, length,
  above, ascends, above-mem, All,
}
use ram_ble.Setting.{Setting}
use ram_ble.LocalLearning.{all_vars, get_candidates}
use ram_ble.GlobalLearning.Initialize.{
  Edge, first_edges, fill_edges, first_neighbors, first_removed, initialize_learning,
}
use ram_ble.GlobalLearning.PcStable.{Rounds}
use ram_ble.GlobalLearning.PcStable.Pairs.{
  take, all_pairs, length-all_pairs, fresh, first_edges-slice,
}
use ram_ble.GlobalLearning.PcStable.Checks.{is_var, ArePairs}
use ram_ble.GlobalLearning.PcStable.Round.{IsState}
use ram_ble.GlobalLearning.PcStable.Separation.{has_edge, Inv}

take-length {ℓ} : {A : Type ℓ} (xs : List A) → take (length xs) xs ≡ xs
take-length [] = refl
take-length (x ∷ xs) = ap (◌∷◌ x) (take-length xs)

empty_list {ℓ} : {A : Type ℓ} (xs : List A) → length xs ≡ 0 → xs ≡ []
empty_list [] h = refl
empty_list (x ∷ xs) h = absurd (omega (arith, h))

module _ (w : Setting) where
  open w use {
    Set, set_init, contains, elems, size, num_vars, contains-elems, elems_ascend, size-elems,
    contains-set_init, contains-erase,
  }

  no_edges : (vars : List ℕ) (offset : ℕ) → first_edges w vars offset 0 ≡ some []
  unfolding first_edges fill_edges
  no_edges vars offset = refl

  -- With all pairs in its block, a processor has all of them.
  whole_list :
      (vars : List ℕ)
      → first_edges w vars 0 (length vars * (length vars - 1) / 2)
        ≡ some (map (fresh w) (all_pairs vars))
  whole_list vars = by_count (length vars * (length vars - 1) / 2) refl
    where
      exact : length vars * (length vars - 1) / 2 ≡ length (all_pairs vars)
      exact = omega (arith, length-all_pairs vars)

      by_count :
          (k : ℕ)
          → length vars * (length vars - 1) / 2 ≡ k
          → first_edges w vars 0 k ≡ some (map (fresh w) (all_pairs vars))
      by_count zero e =
          no_edges vars 0
          ∙ ap (λ t. some (map (fresh w) t)) (sym (empty_list (all_pairs vars) (sym exact ∙ e)))
      by_count (suc k) e =
          first_edges-slice w vars 0 (suc k) (omega arith) (omega arith)
          ∙ ap (λ t. some (map (fresh w) t))
              (ap (λ j. take j (all_pairs vars)) (sym e ∙ exact) ∙ take-length (all_pairs vars))

  first_neighbors-mem :
      (vs : List ℕ) (v : ℕ) → mem v vs ≡ true → first_neighbors w vs v ≡ some (get_candidates w v)
  unfolding first_neighbors
  first_neighbors-mem [] v m = absurd (ground arith)
  first_neighbors-mem (u ∷ vs) v m = elim (Bool-cases (v == u)) [
    | inl e ↦ let same = ap (get_candidates w) (==_eq v u e) in ground arith
    | inr e ↦ ground (arith, first_neighbors-mem vs v)
  ]

  first_removed-mem :
      (vs : List ℕ) (v : ℕ) → mem v vs ≡ true → first_removed w vs v ≡ some (set_init num_vars)
  unfolding first_removed
  first_removed-mem [] v m = absurd (ground arith)
  first_removed-mem (u ∷ vs) v m = ground (arith, first_removed-mem vs v)

  ArePairs-row :
      (x : ℕ) (ys : List ℕ)
      → is_var w x ≡ true
      → above x ys ≡ true
      → All (λ v. is_var w v ≡ true) ys
      → ArePairs w (map (fresh w) (map (λ y. (x, y)) ys))
  ArePairs-row x [] h a vs = tt
  ArePairs-row x (y ∷ ys) h a (hy, vs) =
      ((ground arith, h, hy), ArePairs-row x ys h (ground arith) vs)

  pub map-append_fresh :
      (es fs : List (ℕ × ℕ)) → map (fresh w) (es ++ fs) ≡ map (fresh w) es ++ map (fresh w) fs
  map-append_fresh [] fs = refl
  map-append_fresh (e ∷ es) fs = ap (◌∷◌ (fresh w e)) (map-append_fresh es fs)

  ArePairs-all_pairs :
      (xs : List ℕ)
      → ascends xs ≡ true
      → All (λ v. is_var w v ≡ true) xs
      → ArePairs w (map (fresh w) (all_pairs xs))
  ArePairs-all_pairs [] a vs = tt
  ArePairs-all_pairs (x ∷ xs) a (h, vs) =
      rw (map-append_fresh (map (λ y. (x, y)) xs) (all_pairs xs)) (
        All-append _ (map (fresh w) (map (λ y. (x, y)) xs)) (map (fresh w) (all_pairs xs))
          (ArePairs-row x xs h (ground arith) vs) (ArePairs-all_pairs xs (ground arith) vs))

  pub has_edge-append :
      (es fs : List (Edge w)) (x y : ℕ)
      → has_edge w (es ++ fs) x y ≡ (has_edge w es x y || has_edge w fs x y)
  has_edge-append [] fs x y = refl
  has_edge-append (e ∷ es) fs x y = ground (arith, has_edge-append es fs x y)

  has_edge-row :
      (x y : ℕ) (ys : List ℕ)
      → mem y ys ≡ true
      → has_edge w (map (fresh w) (map (λ z. (x, z)) ys)) x y ≡ true
  has_edge-row x y [] m = absurd (ground arith)
  has_edge-row x y (z ∷ ys) m = ground (arith, ==_refl x, has_edge-row x y ys)

  has_edge-all_pairs :
      (xs : List ℕ) (x y : ℕ)
      → ascends xs ≡ true
      → x < y
      → mem x xs ≡ true
      → mem y xs ≡ true
      → has_edge w (map (fresh w) (all_pairs xs)) x y ≡ true
  has_edge-all_pairs [] x y a l mx my = absurd (ground arith)
  has_edge-all_pairs (z ∷ xs) x y a l mx my =
      rw (map-append_fresh (map (λ t. (z, t)) xs) (all_pairs xs)) (
        rw
          (has_edge-append (map (fresh w) (map (λ t. (z, t)) xs)) (map (fresh w) (all_pairs xs)) x
            y)
          (elim (Bool-cases (x == z)) [
            | inl e ↦
                let mem_tail : mem y xs ≡ true = ground arith in
                let row : has_edge w (map (fresh w) (map (λ t. (z, t)) xs)) x y ≡ true =
                  ap (λ k. has_edge w (map (fresh w) (map (λ t. (z, t)) xs)) k y) (==_eq x z e)
                  ∙ has_edge-row z y xs mem_tail in
                ground arith
            | inr e ↦ ground (arith, above-mem z x xs, has_edge-all_pairs xs x y)
          ]))

  abbrev pub vars : List ℕ
  vars = elems (all_vars w)

  -- initializeLearning for the only processor returns.
  pub initialize_runs :
      initialize_learning w 0 (size (all_vars w) * (size (all_vars w) - 1) / 2)
      ≡ some (map (fresh w) (all_pairs vars), first_neighbors w vars, first_removed w vars)
  unfolding initialize_learning
  initialize_runs = rw (size-elems (all_vars w)) (rw (whole_list vars, initialize_learning) refl)

  vars_vars :
      (xs : List ℕ)
      → ((x : ℕ) → mem x xs ≡ true → is_var w x ≡ true)
      → All (λ v. is_var w v ≡ true) xs
  vars_vars [] h = tt
  vars_vars (x ∷ xs) h = (h x (ground (arith, ==_refl x)), vars_vars xs (λ y m. h y (ground arith)))

  abbrev pub start : Rounds w
  start = record {
    edges = map (fresh w) (all_pairs vars);
    all = first_neighbors w vars;
    removed = first_removed w vars;
    stored = [];
  }

  pub start-IsState : IsState w start (get_candidates w)
  start-IsState = record {
    pairs =
        ArePairs-all_pairs vars (elems_ascend (all_vars w))
          (vars_vars vars (λ x m. sym (contains-elems (all_vars w) x) ∙ m));
    stored_pairs = tt;
    holds = λ v h. first_neighbors-mem vars v (contains-elems (all_vars w) v ∙ h);
    R = λ _. set_init num_vars;
    unmarked = λ v h. first_removed-mem vars v (contains-elems (all_vars w) v ∙ h);
    empty = λ v u h. contains-set_init num_vars u;
  }

  pub candidates : (x y : ℕ) → contains (get_candidates w x) y ≡ (not (y == x) && is_var w y)
  unfolding get_candidates
  candidates x y = contains-erase x (all_vars w) y

  pub start-Inv : Inv w 0 (start.edges) (get_candidates w)
  start-Inv = record {
    inside = λ x y hx h. ground (arith, candidates x y);
    no_self = λ x hx. ground (arith, candidates x x, ==_refl x);
    symmetric = λ x y hx hy. ground (arith, candidates x y, candidates y x);
    separated = λ x y p h. let (l, _, hy) = p in absurd (ground (arith, candidates x y));
    unseparated = λ x y c p h a l. absurd (omega arith);
    waiting = λ x y p h. inl (
        has_edge-all_pairs vars x y (elems_ascend (all_vars w)) p.0
          (contains-elems (all_vars w) x ∙ p.1) (contains-elems (all_vars w) y ∙ p.2));
  }
