-- ===== src/BayesianNetwork/Passes.antt =====
-- applyMeekRules as a whole, and the loop of getNetwork that repeats it.
use ram_ble.Base.{
  ℕ, zero, suc, ◌<◌, ◌≡◌, ◌∙◌, inl, inr, refl, sym, Bool, true, false, List, [], ◌∷◌, arith,
  ==_refl, Bool-cases, any, length, keep,
}
use ram_ble.Graphs.{Graphs, Acyclic, same_edge, edges_distinct}
use ram_ble.BayesianNetwork.{directed, apply_meek_rules, anti_parallel_edges, meek_loop}
use ram_ble.BayesianNetwork.Skeleton.{Orients, Orients-trans, Orients-NoLoops, NoLoops}
use ram_ble.BayesianNetwork.Meek.{Turn, AllExist, Turn-meek_edges}

any-keep : (p q : ℕ × ℕ → Bool) (es : List (ℕ × ℕ)) → any p (keep q es) ≡ true → any p es ≡ true
any-keep p q [] h = h
any-keep p q (e ∷ es) h = ground (arith, any-keep p q es)

edges_distinct-keep :
    (q : ℕ × ℕ → Bool) (es : List (ℕ × ℕ))
    → edges_distinct es ≡ true
    → edges_distinct (keep q es) ≡ true
edges_distinct-keep q [] h = refl
edges_distinct-keep q (e ∷ es) h =
    ground (arith, edges_distinct-keep q es, any-keep (same_edge e) q es)

module _ (gs : Graphs) where
  open gs use {Graph, edge_exists, edges, edges_lem, edges_once}

  AllExist-keep :
      (g : Graph) (q : ℕ × ℕ → Bool) (es : List (ℕ × ℕ))
      → ((x y : ℕ) → any (same_edge (x, y)) es ≡ true → edge_exists g x y ≡ true)
      → AllExist gs g (keep q es)
  AllExist-keep g q [] h = tt
  AllExist-keep g q ((x, y) ∷ es) h =
      let tail = AllExist-keep g q es (λ a b m. h a b (ground arith)) in
      elim (Bool-cases (q (x, y))) [
        | inl e ↦ rw e (h x y (ground (arith, ==_refl x, ==_refl y)), tail)
        | inr e ↦ rw e tail
      ]

  Turn-apply_meek_rules :
      (g : Graph)
      → NoLoops gs g
      → Turn gs g (apply_meek_rules gs g).0 false (apply_meek_rules gs g).1
  unfolding apply_meek_rules
  Turn-apply_meek_rules g n =
      Turn-meek_edges gs (anti_parallel_edges gs g) g false
        (AllExist-keep g _ (edges g) (λ x y m. sym (edges_lem g x y) ∙ m))
        (edges_distinct-keep _ (edges g) (edges_once g)) n

  meek_loop_step :
      (fuel : ℕ) (g : Graph)
      → (apply_meek_rules gs g).1 ≡ true
      → meek_loop gs (suc fuel) g ≡ meek_loop gs fuel (apply_meek_rules gs g).0
  unfolding meek_loop
  meek_loop_step fuel g e = rw (e, meek_loop) refl

  meek_loop_stop :
      (fuel : ℕ) (g : Graph)
      → (apply_meek_rules gs g).1 ≡ false
      → meek_loop gs (suc fuel) g ≡ ((apply_meek_rules gs g).0, false)
  unfolding meek_loop
  meek_loop_stop fuel g e = rw (e, meek_loop) refl

  -- On a network without self loops and without directed cycles, and with more rounds than it has
  -- edges, the loop of getNetwork over applyMeekRules ends with a pass that changes nothing; the
  -- network at the end has the same skeleton, no new edge and no directed cycle.
  pub meek_loop_ends :
      (fuel : ℕ) (g : Graph)
      → NoLoops gs g
      → Acyclic (directed gs g)
      → length (edges g) < fuel
      → (h : Graph) × (meek_loop gs fuel g ≡ (h, false)) × Orients gs g h × Acyclic (directed gs h)
  meek_loop_ends zero g n ac l = absurd (omega arith)
  meek_loop_ends (suc fuel) g n ac l =
      let h = (apply_meek_rules gs g).0 in
      let pass = Turn-apply_meek_rules g n in
      elim (Bool-cases (apply_meek_rules gs g).1) [
        | inl e ↦
            let (k, ends, o, ac') =
              meek_loop_ends fuel h (Orients-NoLoops gs g h pass.orients n) (pass.acyclic ac)
                (ground (arith, pass.shrinks)) in
            (k, meek_loop_step fuel g e ∙ ends, Orients-trans gs g h k pass.orients o, ac')
        | inr e ↦ (h, meek_loop_stop fuel g e, pass.orients, pass.acyclic ac)
      ]
