-- ===== src/BayesianNetwork/Colliders.antt =====
-- Applied v-structures stay applied, so an earlier one, of smaller p-value, wins a conflict.
use ram_ble.Base.{ℕ, ◌≡◌, ◌≢◌, refl, true, List, [], ◌∷◌, ◌++◌, arith}
use ram_ble.Graphs.{Graphs}
use ram_ble.BayesianNetwork.{directed, apply_v_structure, apply_sorted}
use ram_ble.BayesianNetwork.Skeleton.{AreCentred, Orients-directed, Orients-apply_sorted}

module _ (gs : Graphs) where
  open gs use {Graph, edge_exists, remove_edge, edge_exists-remove}

  apply_v_structure-directed :
      (y x z : ℕ) (g : Graph)
      → x ≢ y
      → x ≢ z
      → edge_exists g y x ≡ true
      → edge_exists g z x ≡ true
      → (directed gs (apply_v_structure gs y x z g) y x ≡ true)
        × (directed gs (apply_v_structure gs y x z g) z x ≡ true)
  unfolding apply_v_structure
  apply_v_structure-directed y x z g ny nz ey ez =
      let g1 = remove_edge x y g in
      ground (
        arith,
        edge_exists-remove x z g1 y x,
        edge_exists-remove x z g1 x y,
        edge_exists-remove x z g1 z x,
        edge_exists-remove x z g1 x z,
        edge_exists-remove x y g y x,
        edge_exists-remove x y g x y,
        edge_exists-remove x y g z x,
      )

  apply_sorted-append :
      (us vs : List (ℕ × ℕ × ℕ)) (g : Graph)
      → apply_sorted gs (us ++ vs) g ≡ apply_sorted gs vs (apply_sorted gs us g)
  unfolding apply_sorted
  apply_sorted-append [] vs g = refl
  apply_sorted-append ((y, x, z) ∷ us) vs g =
      apply_sorted-append us vs (apply_v_structure gs y x z g)

  -- applyVStructures: if both edges y -> x and z -> x are still there when the turn of the
  -- v-structure y -> x <- z comes, then the network at the end has them, and neither of their
  -- reverses, whatever v-structures follow; it and those that follow have a centre that differs
  -- from their ends.
  pub collider_stays :
      (before after : List (ℕ × ℕ × ℕ)) (y x z : ℕ) (g : Graph)
      → AreCentred gs ((y, x, z) ∷ after)
      → edge_exists (apply_sorted gs before g) y x ≡ true
      → edge_exists (apply_sorted gs before g) z x ≡ true
      → (directed gs (apply_sorted gs (before ++ (y, x, z) ∷ after) g) y x ≡ true)
        × (directed gs (apply_sorted gs (before ++ (y, x, z) ∷ after) g) z x ≡ true)
  unfolding apply_sorted
  collider_stays before after y x z g ((ny, nz), c) ey ez =
      let g0 = apply_sorted gs before g in
      let g1 = apply_v_structure gs y x z g0 in
      let later = Orients-apply_sorted gs after g1 c in
      let (dy, dz) = apply_v_structure-directed y x z g0 ny nz ey ez in
      rw (apply_sorted-append before ((y, x, z) ∷ after) g) (
        Orients-directed gs g1 (apply_sorted gs after g1) y x later dy,
        Orients-directed gs g1 (apply_sorted gs after g1) z x later dz,
      )
