-- ===== src/BayesianNetwork/VStructures.antt =====
-- applyVStructures as a whole: the sort by p-values, and the loop.
use ram_ble.Base.{
  ℕ, ◌≡◌, refl, ap, ◌∙◌, Bool, true, false, not, ◌&&◌, ◌||◌, List, [], ◌∷◌, ◌++◌, map, All, ltb,
  ◌==◌, if◌then◌else◌, Bool-cases, inl, inr,
}
use ram_ble.Setting.{Doubles}
use ram_ble.Graphs.{Graphs}
use ram_ble.BayesianNetwork.{apply_sorted, directed}
use ram_ble.BayesianNetwork.Skeleton.{AreCentred}
use ram_ble.BayesianNetwork.Colliders.{collider_stays}

module _ (d : Doubles) where
  open d use {Double, is_less, less_irrefl, less_trans}

  -- (p-value, y, x, z) for y -> x <- z
  abbrev pub VStructure : Type 0
  VStructure = Double × ℕ × ℕ × ℕ

  abbrev pub vars_less : ℕ × ℕ × ℕ → ℕ × ℕ × ℕ → Bool
  vars_less (a, b, c) (a', b', c') = ltb a a' || (a == a' && (ltb b b' || (b == b' && ltb c c')))

  -- operator< of std::tuple<double, Var, Var, Var>
  abbrev pub tuple_less : VStructure → VStructure → Bool
  tuple_less (p, a, b, c) (q, a', b', c') =
      is_less p q || (not (is_less q p) && vars_less (a, b, c) (a', b', c'))

  unfoldable pub insert_tuple : VStructure → List VStructure → List VStructure
  insert_tuple v [] = v ∷ []
  insert_tuple v (u ∷ us) =
      let later = insert_tuple v us in if tuple_less u v then u ∷ later else v ∷ u ∷ us

  unfoldable pub sort_tuples : List VStructure → List VStructure
  unfolding insert_tuple
  sort_tuples [] = []
  sort_tuples (v ∷ vs) = insert_tuple v (sort_tuples vs)

  abbrev pub ends : List VStructure → List (ℕ × ℕ × ℕ)
  ends = map (λ v. (v.1, v.2, v.3))

  module _ (gs : Graphs) where
    open gs use {Graph, edge_exists}

    -- applyVStructures
    unfoldable pub apply_v_structures : List VStructure → Graph → Graph
    unfolding sort_tuples
    apply_v_structures vs g = apply_sorted gs (ends (sort_tuples vs)) g

    -- v is less than all of the list.
    abbrev pub IsLeast : VStructure → List VStructure → Type 0
    IsLeast v = All (λ u. (tuple_less v u ≡ true) × (tuple_less u v ≡ false))

    IsLeast-insert :
        (v u : VStructure) (vs : List VStructure)
        → (tuple_less v u ≡ true) × (tuple_less u v ≡ false)
        → IsLeast v vs
        → IsLeast v (insert_tuple u vs)
    unfolding insert_tuple
    IsLeast-insert v u [] l h = (l, tt)
    IsLeast-insert v u (w ∷ vs) l (k, h) = elim (Bool-cases (tuple_less w u)) [
      | inl e ↦ rw (e, insert_tuple) (k, IsLeast-insert v u vs l h)
      | inr e ↦ rw (e, insert_tuple) (l, (k, h))
    ]

    IsLeast-sort :
        (v : VStructure) (vs : List VStructure) → IsLeast v vs → IsLeast v (sort_tuples vs)
    unfolding sort_tuples
    IsLeast-sort v [] h = tt
    IsLeast-sort v (u ∷ vs) (l, h) = IsLeast-insert v u (sort_tuples vs) l (IsLeast-sort v vs h)

    insert_least :
        (v : VStructure) (vs : List VStructure) → IsLeast v vs → insert_tuple v vs ≡ v ∷ vs
    unfolding insert_tuple
    insert_least v [] h = refl
    insert_least v (u ∷ vs) ((_, l), h) = rw (l, insert_tuple) refl

    insert_after :
        (v u : VStructure) (vs : List VStructure)
        → tuple_less v u ≡ true
        → insert_tuple u (v ∷ vs) ≡ v ∷ insert_tuple u vs
    unfolding insert_tuple
    insert_after v u vs l = rw (l, insert_tuple) refl

    -- The least one comes first, wherever it stood.
    sort_least :
        (v : VStructure) (us vs : List VStructure)
        → IsLeast v us
        → IsLeast v vs
        → sort_tuples (us ++ v ∷ vs) ≡ v ∷ sort_tuples (us ++ vs)
    unfolding sort_tuples
    sort_least v [] vs h k = insert_least v (sort_tuples vs) (IsLeast-sort v vs k)
    sort_least v (u ∷ us) vs ((l, _), h) k =
        ap (insert_tuple u) (sort_least v us vs h k) ∙ insert_after v u (sort_tuples (us ++ vs)) l

    -- applyVStructures: the v-structure y -> x <- z that comes before all others in the order of
    -- the p-values, with both of its edges in the network, is a collider of the network at the end,
    -- wherever it stood in the list; all are centred on a variable other than their ends.
    pub least_collider_stays :
        (us vs : List VStructure) (p : Double) (y x z : ℕ) (g : Graph)
        → IsLeast (p, y, x, z) us
        → IsLeast (p, y, x, z) vs
        → AreCentred gs ((y, x, z) ∷ ends (sort_tuples (us ++ vs)))
        → edge_exists g y x ≡ true
        → edge_exists g z x ≡ true
        → let end = apply_v_structures (us ++ (p, y, x, z) ∷ vs) g in
          (directed gs end y x ≡ true) × (directed gs end z x ≡ true)
    unfolding apply_v_structures apply_sorted
    least_collider_stays us vs p y x z g h k c ey ez =
        rw (sort_least (p, y, x, z) us vs h k)
          (collider_stays gs [] (ends (sort_tuples (us ++ vs))) y x z g c ey ez)
