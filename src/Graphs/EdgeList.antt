-- ===== src/Graphs/EdgeList.antt =====
-- Graphs as lists of distinct edges, which show that the laws of `Graphs` can be met.
use ram_ble.Base.{
  ℕ, zero, suc, ◌+◌, ◌≤◌, ◌<◌, ◌≡◌, refl, Bool, true, false, not, ◌&&◌, ◌||◌, List, [], ◌∷◌, arith,
  ltb, ◌==◌, if◌then◌else◌, Bool-cases, inl, inr, any, keep, length, mem,
}
use ram_ble.Graphs.{Graphs, Walk, one, more, Acyclic, same_edge, edges_distinct}

abbrev pub Edges : Type 0
Edges = List (ℕ × ℕ)

abbrev pub without : ℕ × ℕ → Edges → Edges
without e [] = []
without e (f ∷ fs) = if same_edge f e then without e fs else f ∷ without e fs

pub any-without :
    (d e : ℕ × ℕ) (es : Edges)
    → any (same_edge d) (without e es) ≡ (not (same_edge d e) && any (same_edge d) es)
any-without d e [] = ground arith
any-without (x, y) (a, b) ((p, q) ∷ fs) = ground (arith, any-without (x, y) (a, b) fs)

pub distinct-without :
    (e : ℕ × ℕ) (es : Edges) → edges_distinct es ≡ true → edges_distinct (without e es) ≡ true
distinct-without e [] h = refl
distinct-without e (f ∷ fs) h = ground (arith, distinct-without e fs, any-without f e fs)

length-without_le : (e : ℕ × ℕ) (es : Edges) → length (without e es) ≤ length es
length-without_le e [] = omega arith
length-without_le e (f ∷ fs) = ground (arith, length-without_le e fs)

pub length-without :
    (e : ℕ × ℕ) (es : Edges) → any (same_edge e) es ≡ true → length (without e es) < length es
length-without e [] h = absurd (ground arith)
length-without (a, b) ((p, q) ∷ fs) h =
    ground (arith, length-without (a, b) fs, length-without_le (a, b) fs)

unfoldable pub sources : ℕ → Edges → List ℕ
sources y [] = []
sources y ((a, b) ∷ es) = if y == b then a ∷ sources y es else sources y es

pub mem-sources : (x y : ℕ) (es : Edges) → mem x (sources y es) ≡ any (same_edge (x, y)) es
unfolding sources
mem-sources x y [] = refl
mem-sources x y ((a, b) ∷ es) = ground (arith, mem-sources x y es)

unfoldable pub targets : ℕ → Edges → List ℕ
targets x [] = []
targets x ((a, b) ∷ es) = if x == a then b ∷ targets x es else targets x es

pub mem-targets : (x y : ℕ) (es : Edges) → mem y (targets x es) ≡ any (same_edge (x, y)) es
unfolding targets
mem-targets x y [] = refl
mem-targets x y ((a, b) ∷ es) = ground (arith, mem-targets x y es)

-- The kept edges.
abbrev pub kept : (ℕ → ℕ → Bool) → Edges → Edges
kept k es = keep (λ e. k e.0 e.1) es

-- The greatest value of a source of y, plus one.
unfoldable pub deepest : (ℕ → ℕ) → ℕ → Edges → ℕ
deepest d y [] = 0
deepest d y ((a, b) ∷ es) =
    let rest = deepest d y es in
    if y == b then (if ltb rest (d a + 1) then d a + 1 else rest) else rest

-- The length of the longest walk of at most k edges into y.
unfoldable pub depth : Edges → ℕ → ℕ → ℕ
unfolding deepest
depth es zero y = 0
depth es (suc k) y = deepest (depth es k) y es

-- Some edge does not lead to a greater depth.
unfoldable pub flat : (ℕ → ℕ) → Edges → Bool
flat d es = any (λ e. not (ltb (d e.0) (d e.1))) es

unfoldable pub cyclic : Edges → (ℕ → ℕ → Bool) → Bool
unfolding flat depth
cyclic es k = flat (depth (kept k es) (length es)) (kept k es)

flat-step :
    (d : ℕ → ℕ) (k : ℕ → ℕ → Bool) (es : Edges) (x y : ℕ)
    → flat d (kept k es) ≡ false
    → (any (same_edge (x, y)) es && k x y) ≡ true
    → d x < d y
unfolding flat
flat-step d k [] x y f h = absurd (ground arith)
flat-step d k ((a, b) ∷ es) x y f h = elim (Bool-cases (same_edge (x, y) (a, b))) [
  | inl e ↦
      let p : x ≡ a = ground arith in
      let q : y ≡ b = ground arith in
      let here : k a b ≡ true =
        let kept_edge : k x y ≡ true = ground arith in rw (p, q) at kept_edge in
      rw (p, q) (ground arith)
  | inr e ↦ flat-step d k es x y (ground arith) (ground arith)
]

Walk-depth :
    (d : ℕ → ℕ) (e : ℕ → ℕ → Bool)
    → ((x y : ℕ) → e x y ≡ true → d x < d y)
    → {x y : ℕ} → Walk e x y
    → d x < d y
Walk-depth d e up (one {x} {y} h) = up x y h
Walk-depth d e up (more {x} {y} h t) = omega (arith, up x y h, Walk-depth d e up t)

pub cyclic-Acyclic :
    (es : Edges) (k : ℕ → ℕ → Bool)
    → cyclic es k ≡ false
    → Acyclic (λ x y. any (same_edge (x, y)) es && k x y)
unfolding cyclic
cyclic-Acyclic es k h v t =
    let d = depth (kept k es) (length es) in
    let up : d v < d v =
      Walk-depth d (λ x y. any (same_edge (x, y)) es && k x y) (λ x y. flat-step d k es x y h) t in
    omega arith

abbrev pub Simple : Type 0
Simple = (es : Edges) × (edges_distinct es ≡ true)

unfoldable pub put : ℕ × ℕ → Edges → Edges
put e es = if any (same_edge e) es then es else e ∷ es

pub put_distinct :
    (e : ℕ × ℕ) (es : Edges) → edges_distinct es ≡ true → edges_distinct (put e es) ≡ true
unfolding put
put_distinct e es h = ground arith

pub any-put :
    (d e : ℕ × ℕ) (es : Edges)
    → any (same_edge d) (put e es) ≡ (same_edge d e || any (same_edge d) es)
unfolding put
any-put (x, y) (a, b) es = elim (Bool-cases (any (same_edge (a, b)) es)) [
  | inl m ↦ elim (Bool-cases (same_edge (x, y) (a, b))) [
    | inl e ↦
        let p : x ≡ a = ground arith in
        let q : y ≡ b = ground arith in
        let found : any (same_edge (x, y)) es ≡ true = rw (p, q) m in ground arith
    | inr e ↦ ground arith
  ]
  | inr m ↦ ground arith
]

pub length-put : (e : ℕ × ℕ) (es : Edges) → length (put e es) ≤ length es + 1
unfolding put
length-put e es = ground arith

pub cyclic-no-Walk :
    (es : Edges) (k : ℕ → ℕ → Bool) (x : ℕ)
    → cyclic es k ≡ false
    → ¬ Walk (λ a b. any (same_edge (a, b)) es && k a b) x x
cyclic-no-Walk es k x h = cyclic-Acyclic es k h x

pub no_edges : (n x y : ℕ) → any (same_edge (x, y)) [] ≡ false
no_edges n x y = refl

abbrev pub edge_lists : Graphs
edge_lists = record {
  Graph = Simple;
  new_graph = λ _. ([], refl);
  edge_exists = λ g x y. any (same_edge (x, y)) g.0;
  add_edge = λ a b g. (put (a, b) g.0, put_distinct (a, b) g.0 g.1);
  remove_edge = λ a b g. (without (a, b) g.0, distinct-without (a, b) g.0 g.1);
  edges = λ g. g.0;
  in_sources = λ g y. sources y g.0;
  out_targets = λ g x. targets x g.0;
  has_cycles = λ g k. cyclic g.0 k;
  has_cycles_from = λ g k x. cyclic g.0 k;
  edge_exists-new = no_edges;
  edge_exists-add = λ a b g x y. any-put (x, y) (a, b) g.0;
  edge_exists-remove = λ a b g x y. any-without (x, y) (a, b) g.0;
  length-remove = λ a b g h. length-without (a, b) g.0 h;
  length-add = λ a b g. length-put (a, b) g.0;
  edges_lem = λ g x y. refl;
  edges_once = λ g. g.1;
  in_sources_lem = λ g x y. mem-sources x y g.0;
  out_targets_lem = λ g x y. mem-targets x y g.0;
  has_cycles_sound = λ g k h. cyclic-Acyclic g.0 k h;
  has_cycles_from_sound = λ g k x h. cyclic-no-Walk g.0 k x h;
}
