-- ===== src/DirectLearning/Blankets.antt =====
-- The blankets of the direct learners: getMBSuperset, getCandidateMB and checkCollider. `get_pc` is
-- the set that getPC returns, at whatever time it is called.
pub mod Spouses
pub mod Members
use ram_ble.Base.{
  ℕ, Bool, true, false, not, ◌&&◌, List, [], ◌∷◌, Option, none, some, if◌then◌else◌, ltb, ◌==◌,
}
use ram_ble.Setting.{Setting}
use ram_ble.DiscreteData.{
  is_independent, is_independent_given, max_p_value_subset, max_p_value_seeded,
}

module _ (w : Setting) where
  open w use {
    Double, Set, set_init, contains, elems, size, insert, erase, set_union, num_vars, alpha,
    max_conditioning,
  }

  -- The loop of getMBSuperset over the candidates of the target.
  unfoldable pub unite : (ℕ → Option Set) → List ℕ → Set → Option Set
  unite cached [] cmb = some cmb
  unite cached (y ∷ ys) cmb = elim (cached y) [
    | none ↦ none
    | some cpc_y ↦ unite cached ys (set_union cmb cpc_y)
  ]

  -- getMBSuperset, from m_cachedCandidatePC
  unfoldable pub get_mb_superset : ℕ → (ℕ → Option Set) → Option Set
  unfolding unite
  get_mb_superset target cached = elim (cached target) [
    | none ↦ none
    | some cpc ↦ elim (unite cached (elems cpc) cpc) [
      | none ↦ none
      | some cmb ↦ some (erase target cmb)
    ]
  ]

  module _ (get_pc : ℕ → Set) where
    -- The body of the inner loop of getCandidateMB: the candidates and the blanket.
    unfoldable pub try_spouse : ℕ → ℕ → ℕ → Set × Set → Set × Set
    try_spouse target y x (candidates, cmb) =
        let candidates' = erase x candidates in
        let ret = max_p_value_subset w alpha target x candidates' max_conditioning 0 in
        let z = insert y ret.1 in
        let spouse =
          is_independent w alpha ret.0 && not (is_independent_given w alpha target x z) in
        if not (x == target) && not (contains (get_pc target) x)
        then (insert x candidates', if spouse then insert x cmb else cmb)
        else (candidates, cmb)

    unfoldable pub try_spouses : ℕ → ℕ → List ℕ → Set × Set → Set × Set
    unfolding try_spouse
    try_spouses target y [] st = st
    try_spouses target y (x ∷ xs) st = try_spouses target y xs (try_spouse target y x st)

    -- The outer loop, over the set of the target.
    unfoldable pub add_spouses : ℕ → List ℕ → Set × Set → Set × Set
    unfolding try_spouses
    add_spouses target [] st = st
    add_spouses target (y ∷ ys) (candidates, cmb) =
        add_spouses target ys (try_spouses target y (elems (get_pc y)) (candidates, insert y cmb))

    -- getCandidateMB, from m_cachedCandidatePC
    unfoldable pub get_mb_from_pc : ℕ → Set → (ℕ → Option Set) → Option Set
    unfolding add_spouses get_mb_superset
    get_mb_from_pc target candidates cached =
        let from_pc : Set → Set =
          λ start. (add_spouses target (elems (get_pc target)) (start, set_init num_vars)).1 in
        elim (cached target) [
          | none ↦ some (from_pc candidates)
          | some _ ↦ elim (get_mb_superset target cached) [
            | none ↦ none
            | some superset ↦ some (from_pc superset)
          ]
        ]

  -- checkCollider, from the two supersets
  unfoldable pub check_superset_collider : ℕ → ℕ → ℕ → (ℕ → Option Set) → Option (Bool × Double)
  unfolding get_mb_superset
  check_superset_collider y x z cached = elim (get_mb_superset y cached) [
    | none ↦ none
    | some superset_y ↦ elim (get_mb_superset z cached) [
      | none ↦ none
      | some superset_z ↦
          let set_x = insert x (set_init num_vars) in
          let mb_y = erase x (if contains superset_y z then erase z superset_y else superset_y) in
          let mb_z = erase x (if contains superset_z y then erase y superset_z else superset_z) in
          let smaller = if ltb (size mb_y) (size mb_z) then mb_y else mb_z in
          let pv = max_p_value_seeded w alpha y z smaller set_x max_conditioning in
          some (not (is_independent w alpha pv), pv)
    ]
  ]
