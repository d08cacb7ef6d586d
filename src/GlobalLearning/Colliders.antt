-- ===== src/GlobalLearning/Colliders.antt =====
-- checkCollider of GlobalLearning: the look-up of the separating set of a removed edge.
use ram_ble.Base.{
  ℕ, ◌≡◌, refl, ap, ◌∙◌, true, false, not, List, [], ◌∷◌, ◌++◌, All, arith, ltb, ==_refl,
}
use ram_ble.Setting.{Setting}
use ram_ble.GlobalLearning.{
  RemovedEdge, edge_less, lower_bound, check_stored, stored_answer, forward_edge,
}

module _ (w : Setting) where
  open w use {Double, Set, set_init, contains, num_vars}

  -- Sorted by their edges, each of which is there once.
  abbrev pub IsSorted : List (RemovedEdge w) → Type 0
  IsSorted [] = Unit
  IsSorted (t ∷ ts) = All (λ u. edge_less w t.0 u.0 ≡ true) ts × IsSorted ts

  first_of :
      (P : RemovedEdge w → Type 0) (ts us : List (RemovedEdge w)) (t : RemovedEdge w)
      → All P (ts ++ t ∷ us)
      → P t
  first_of P [] us t (p, _) = p
  first_of P (s ∷ ts) us t (_, ps) = first_of P ts us t ps

  lower_bound-found :
      (ts us : List (RemovedEdge w)) (t : RemovedEdge w)
      → IsSorted (ts ++ t ∷ us)
      → lower_bound w t.0 (ts ++ t ∷ us) ≡ t ∷ us
  unfolding lower_bound
  lower_bound-found [] us t s =
      let here : edge_less w t.0 t.0 ≡ false = ground arith in rw here refl
  lower_bound-found (u ∷ ts) us t (l, s) =
      rw (first_of (λ v. edge_less w u.0 v.0 ≡ true) ts us t l, lower_bound)
        (lower_bound-found ts us t s)

  answer :
      (y x z a b : ℕ) (ts us : List (RemovedEdge w)) (pv : Double) (dsep : Set)
      → lower_bound w (a, b) (ts ++ ((a, b), pv, dsep) ∷ us) ≡ ((a, b), pv, dsep) ∷ us
      → forward_edge w y z ≡ (a, b)
      → check_stored w y x z (ts ++ ((a, b), pv, dsep) ∷ us) ≡ (not (contains dsep x), pv)
  unfolding check_stored stored_answer
  answer y x z a b ts us pv dsep found e =
      ap (λ f. stored_answer w y x z f (lower_bound w f (ts ++ ((a, b), pv, dsep) ∷ us))) e
      ∙ ap (stored_answer w y x z (a, b)) found
      ∙ rw (==_refl a, ==_refl b) refl

  -- checkCollider, when the edge of y and z, y < z, is among the removed edges, sorted: y -> x <- z is a
  -- collider exactly when the stored separating set does not have x, and the stored p-value is
  -- returned; y and z may be given in either order.
  pub check_stored-found :
      (y x z : ℕ) (ts us : List (RemovedEdge w)) (pv : Double) (dsep : Set)
      → IsSorted (ts ++ ((y, z), pv, dsep) ∷ us)
      → ltb y z ≡ true
      → (check_stored w y x z (ts ++ ((y, z), pv, dsep) ∷ us) ≡ (not (contains dsep x), pv))
        × (check_stored w z x y (ts ++ ((y, z), pv, dsep) ∷ us) ≡ (not (contains dsep x), pv))
  check_stored-found y x z ts us pv dsep s l =
      let found = lower_bound-found ts us ((y, z), pv, dsep) s in
      (
        answer y x z y z ts us pv dsep found (rw l refl),
        answer z x y y z ts us pv dsep found (rw back refl),
      )
    where
      back : ltb z y ≡ false
      back = ground arith
