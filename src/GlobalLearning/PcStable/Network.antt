-- ===== src/GlobalLearning/PcStable/Network.antt =====
-- constructSkeleton: the network of the neighbors, and getSkeleton_sequential as a whole.
use ram_ble.Base.{
  All-of_mem, ℕ, ◌≤◌, ◌≡◌, refl, ap, sym, ◌∙◌, Bool, true, false, ◌&&◌, ◌||◌, List, [], ◌∷◌, some,
  arith, ltb, ◌==◌, ==_eq, mem, All,
}
use ram_ble.Setting.{Setting}
use ram_ble.Graphs.{Graphs}
use ram_ble.LocalLearning.{all_vars}
use ram_ble.LocalLearning.Skeleton.{add_neighbors, edge_exists-add_neighbors}
use ram_ble.GlobalLearning.{RemovedEdge}
use ram_ble.GlobalLearning.Initialize.{Neighbors}
use ram_ble.GlobalLearning.PcStable.{add_all, construct_skeleton, get_skeleton, get_neighbors}
use ram_ble.GlobalLearning.PcStable.Checks.{is_var, Holds}
use ram_ble.GlobalLearning.PcStable.Skeleton.{IsLearned, learn_neighbors-IsLearned}

module _ (w : Setting) (gs : Graphs) where
  open w use {
    Set, contains, elems, size, is_less, zero_point, alpha, max_conditioning, contains-elems,
  }
  open gs use {Graph, new_graph, edge_exists, edge_exists-new}

  edge_exists-add_all :
      (xs : List ℕ) (all : Neighbors w) (N : ℕ → Set) (bn : Graph) (a b : ℕ)
      → All (λ v. is_var w v ≡ true) xs
      → Holds w all N
      → edge_exists (add_all w gs xs all bn) a b ≡ (
          edge_exists bn a b
          || ((mem a xs && ltb a b && contains (N a) b)
              || (mem b xs && ltb b a && contains (N b) a)))
  unfolding add_all
  edge_exists-add_all [] all N bn a b vs h = ground arith
  edge_exists-add_all (x ∷ xs) all N bn a b (hx, vs) h =
      let bn' = add_neighbors w gs x (elems (N x)) bn in
      let same_a : (a == x) ≡ true → contains (N a) b ≡ contains (N x) b =
        λ e. ap (λ k. contains (N k) b) (==_eq a x e) in
      let same_b : (b == x) ≡ true → contains (N b) a ≡ contains (N x) a =
        λ e. ap (λ k. contains (N k) a) (==_eq b x e) in
      rw (h x hx, add_all)
        (ground (
          arith,
          edge_exists-add_all xs all N bn' a b vs h,
          edge_exists-add_neighbors w gs x (elems (N x)) bn a b,
          contains-elems (N x) b,
          contains-elems (N x) a,
          same_a,
          same_b,
        ))

  -- The learned network: its edges go both ways, and join just the pairs that m_cachedNeighbors says.
  pub record IsSkeleton (g : Graph) (all : Neighbors w) (N : ℕ → Set) : Type 0 where
    pub cached : (x : ℕ) → is_var w x ≡ true → get_neighbors w all x ≡ some (N x)
    pub joins :
        (x y : ℕ) → is_var w x ≡ true → is_var w y ≡ true → edge_exists g x y ≡ contains (N x) y
    pub learned : IsLearned w N

  construct_skeleton-joins :
      (all : Neighbors w) (N : ℕ → Set) (x y : ℕ)
      → Holds w all N
      → IsLearned w N
      → is_var w x ≡ true
      → is_var w y ≡ true
      → edge_exists (construct_skeleton w gs all).0 x y ≡ contains (N x) y
  unfolding construct_skeleton
  construct_skeleton-joins all N x y h l hx hy =
      let vars = elems (all_vars w) in
      let same : (x == y) ≡ true → contains (N x) y ≡ contains (N x) x =
        λ e. ap (contains (N x)) (sym (==_eq x y e)) in
      ground (
        arith,
        edge_exists-add_all vars all N (new_graph w.num_vars) x y
            (All-of_mem _ vars (λ v m. sym (contains-elems (all_vars w) v) ∙ m)) h,
        edge_exists-new w.num_vars x y,
        contains-elems (all_vars w) x,
        contains-elems (all_vars w) y,
        l.symmetric x y hx hy,
        l.no_self x hx,
        same,
      )

  -- getSkeleton_sequential of PC-stable, for indices that can count the variables and a threshold
  -- that is not negative: it returns, without an access out of range, a network whose edges go both
  -- ways and are those of m_cachedNeighbors, with no loop. Two variables that it does not join are
  -- independent given some set of the others, of no more than maxConditioning members; two that it
  -- joins are dependent given every set of up to so many neighbors of the first without the second,
  -- or of the second without the first.
  pub get_skeleton-IsSkeleton :
      (var_mod : ℕ) (direct_edges : Bool)
      → size (all_vars w) ≤ var_mod
      → is_less alpha zero_point ≡ false
      → (g : Graph) × (all : Neighbors w) × (stored : List (RemovedEdge w)) × (N : ℕ → Set)
        × (get_skeleton w gs var_mod direct_edges ≡ some ((g, all), stored))
        × IsSkeleton g all N
  unfolding get_skeleton get_neighbors
  get_skeleton-IsSkeleton var_mod direct_edges h low =
      let (all, stored, N, runs, holds, learned) =
        learn_neighbors-IsLearned w var_mod direct_edges h low in
      (
        (construct_skeleton w gs all).0,
        all,
        stored,
        N,
        rw (runs, get_skeleton) refl,
        record {
          cached = holds;
          joins = λ x y hx hy. construct_skeleton-joins all N x y holds learned hx hy;
          learned = learned;
        },
      )
