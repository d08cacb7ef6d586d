-- ===== src/GlobalLearning/PcStable/StoredStart.antt =====
-- What holds of the stored edges before the first round.
use ram_ble.Base.{
  ℕ, ◌≡◌, refl, ap, ◌∙◌, true, false, ◌&&◌, List, [], ◌∷◌, ◌++◌, map, arith, ◌==◌, ==_eq, ==_refl,
  Bool-cases, inl, inr, mem, ascends, above-mem, All,
}
use ram_ble.Setting.{Setting}
use ram_ble.LocalLearning.{all_vars, get_candidates}
use ram_ble.GlobalLearning.Initialize.{Edge}
use ram_ble.GlobalLearning.PcStable.Pairs.{all_pairs, fresh}
use ram_ble.GlobalLearning.PcStable.Checks.{ArePairs}
use ram_ble.GlobalLearning.PcStable.Round.{IsState}
use ram_ble.GlobalLearning.PcStable.Separation.{has_edge}
use ram_ble.GlobalLearning.PcStable.Start.{
  vars, start, start-IsState, candidates, map-append_fresh, has_edge-append,
}
use ram_ble.GlobalLearning.PcStable.Stored.{edges_distinct, Kept}

module _ (w : Setting) where
  open w use {contains, elems, elems_ascend}

  pairs_joined :
      (es : List (Edge w))
      → ArePairs w es
      → All (λ e. contains (get_candidates w e.0.0) e.0.1 ≡ true) es
  pairs_joined [] ps = tt
  pairs_joined (((x, y), _) ∷ es) ((l, _, hy), ps) =
      (ground (arith, candidates w x y), pairs_joined es ps)

  has_edge-row_first :
      (x : ℕ) (ys : List ℕ) (a b : ℕ)
      → has_edge w (map (fresh w) (map (λ y. (x, y)) ys)) a b ≡ true
      → (a ≡ x) × (mem b ys ≡ true)
  has_edge-row_first x [] a b h = absurd (ground arith)
  has_edge-row_first x (y ∷ ys) a b h = elim (Bool-cases (a == x && b == y)) [
    | inl e ↦ (==_eq a x (ground arith), ground arith)
    | inr e ↦ let (p, m) = has_edge-row_first x ys a b (ground arith) in (p, ground arith)
  ]

  has_edge-pairs_first :
      (xs : List ℕ) (a b : ℕ)
      → has_edge w (map (fresh w) (all_pairs xs)) a b ≡ true
      → mem a xs ≡ true
  has_edge-pairs_first [] a b h = absurd (ground arith)
  has_edge-pairs_first (x ∷ xs) a b h =
      let row = map (fresh w) (map (λ y. (x, y)) xs) in
      let rest = map (fresh w) (all_pairs xs) in
      let split =
        ap (λ es. has_edge w es a b) (map-append_fresh w (map (λ y. (x, y)) xs) (all_pairs xs))
        ∙ has_edge-append w row rest a b in
      elim (Bool-cases (has_edge w row a b)) [
        | inl e ↦
            let (p, _) = has_edge-row_first x xs a b e in
            ap (λ k. mem k (x ∷ xs)) p ∙ ground (arith, ==_refl x)
        | inr e ↦ let m = has_edge-pairs_first xs a b (ground arith) in ground arith
      ]

  edges_distinct-append :
      (es fs : List (Edge w))
      → edges_distinct w es ≡ true
      → edges_distinct w fs ≡ true
      → ((x y : ℕ) → has_edge w es x y ≡ true → has_edge w fs x y ≡ false)
      → edges_distinct w (es ++ fs) ≡ true
  edges_distinct-append [] fs h k apart = k
  edges_distinct-append (e ∷ es) fs h k apart = ground (
    arith,
    edges_distinct-append es fs (ground arith) k (λ x y m. apart x y (ground arith)),
    has_edge-append w es fs e.0.0 e.0.1,
    apart e.0.0 e.0.1,
    ==_refl e.0.0,
    ==_refl e.0.1,
  )

  edges_distinct-row :
      (x : ℕ) (ys : List ℕ)
      → ascends ys ≡ true
      → edges_distinct w (map (fresh w) (map (λ y. (x, y)) ys)) ≡ true
  edges_distinct-row x [] a = refl
  edges_distinct-row x (y ∷ ys) a =
      let rest = edges_distinct-row x ys (ground arith) in
      elim (Bool-cases (has_edge w (map (fresh w) (map (λ z. (x, z)) ys)) x y)) [
        | inl e ↦
            let (_, m) = has_edge-row_first x ys x y e in
            absurd (omega (arith, above-mem y y ys (ground arith) m))
        | inr e ↦ ground arith
      ]

  edges_distinct-all_pairs :
      (xs : List ℕ) → ascends xs ≡ true → edges_distinct w (map (fresh w) (all_pairs xs)) ≡ true
  edges_distinct-all_pairs [] a = refl
  edges_distinct-all_pairs (x ∷ xs) a =
      let row = map (fresh w) (map (λ y. (x, y)) xs) in
      let rest = map (fresh w) (all_pairs xs) in
      rw (map-append_fresh w (map (λ y. (x, y)) xs) (all_pairs xs)) (
        edges_distinct-append row rest (edges_distinct-row x xs (ground arith))
          (edges_distinct-all_pairs xs (ground arith))
          (λ a' b m. elim (Bool-cases (has_edge w rest a' b)) [
            | inl e ↦
                let (p, _) = has_edge-row_first x xs a' b m in
                let there = has_edge-pairs_first xs a' b e in
                absurd (omega (arith, above-mem x a' xs (ground arith) there, p))
            | inr e ↦ e
          ]))

  pub start-Kept : Kept w (start w).edges (get_candidates w) (start w).stored
  start-Kept = record {
    joined = pairs_joined (start w).edges (IsState.pairs (start-IsState w));
    distinct = edges_distinct-all_pairs (vars w) (elems_ascend (all_vars w));
    entries = tt;
    once = refl;
    present = λ x y z p h b. let (l, _, hy) = p in absurd (ground (arith, candidates w x y));
  }
