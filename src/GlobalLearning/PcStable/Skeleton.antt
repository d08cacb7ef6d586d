-- ===== src/GlobalLearning/PcStable/Skeleton.antt =====
-- getSkeleton_sequential of PC-stable: the learned skeleton is the one that the separating sets
-- determine.
use ram_ble.Base.{
  ℕ, zero, suc, ◌+◌, ◌-◌, ◌%◌, ◌≤◌, ◌<◌, ◌≡◌, ◌⊎◌, refl, ap, sym, ◌∙◌, Bool, true, false, List, [],
  ◌∷◌, some, arith, if◌then◌else◌, ◌==◌, Bool-cases, inl, inr, length,
}
use native.Mathlib.Nat.{mod-eq_of_lt, add-mod_right}
use ram_ble.Setting.{Setting}
use ram_ble.Setting.Facts.{size_le, size-erase}
use ram_ble.DiscreteData.{is_independent_given}
use ram_ble.LocalLearning.{all_vars, get_candidates}
use ram_ble.GlobalLearning.{RemovedEdge}
use ram_ble.GlobalLearning.Initialize.{Neighbors}
use ram_ble.GlobalLearning.PcStable.{Rounds, rounds, round, max_size, learn_neighbors, sort_stored}
use ram_ble.GlobalLearning.PcStable.Checks.{is_var, Holds, IsPair}
use ram_ble.GlobalLearning.PcStable.Round.{IsState, Passed, round-Passed}
use ram_ble.GlobalLearning.PcStable.Separation.{
  has_edge, Inv, Among, Others, Among-Others, Among-smaller, Inv-round,
}
use ram_ble.GlobalLearning.PcStable.Start.{initialize_runs, start, start-IsState, start-Inv}

module _ (w : Setting) where
  open w use {Set, contains, size, is_less, zero_point, alpha, max_conditioning, contains-erase}

  -- A property of the state that every round keeps.
  abbrev pub IsKept : Bool → (Rounds w → (ℕ → Set) → Type 0) → Type 0
  IsKept direct_edges Q =
      (s : ℕ) (st : Rounds w) (N : ℕ → Set)
      → IsState w st N
      → Inv w s st.edges N
      → (p : Passed w direct_edges s st N) → Q st N
      → Q p.st' p.N'

  -- The end of the rounds: the sizes are exhausted, or no edge is left to test.
  pub record Ended (direct_edges : Bool) (Q : Rounds w → (ℕ → Set) → Type 0) (n s : ℕ)
      (st : Rounds w) : Type 0 where
    pub st' : Rounds w
    pub N' : ℕ → Set
    pub s' : ℕ
    pub runs : rounds w direct_edges n s st ≡ some st'
    pub state : IsState w st' N'
    pub inv : Inv w s' st'.edges N'
    pub extra : Q st' N'
    pub at_most : s' ≤ s + n
    pub why : (s' ≡ s + n) ⊎ (length st'.edges ≡ 0)

  rounds-stop :
      (direct_edges : Bool) (n s : ℕ) (st : Rounds w)
      → (length st.edges == 0) ≡ true
      → rounds w direct_edges (suc n) s st ≡ some st
  unfolding rounds
  rounds-stop direct_edges n s st e = rw (e, rounds) refl

  rounds-step :
      (direct_edges : Bool) (n s : ℕ) (st st' : Rounds w)
      → (length st.edges == 0) ≡ false
      → round w direct_edges s st ≡ some st'
      → rounds w direct_edges (suc n) s st ≡ rounds w direct_edges n (s + 1) st'
  unfolding rounds
  rounds-step direct_edges n s st st' e r = rw (e, rounds) (rw (r, rounds) refl)

  rounds-zero :
      (direct_edges : Bool) (s : ℕ) (st : Rounds w) → rounds w direct_edges zero s st ≡ some st
  unfolding rounds
  rounds-zero direct_edges s st = refl

  rounds-Ended :
      (direct_edges : Bool) (Q : Rounds w → (ℕ → Set) → Type 0)
      → IsKept direct_edges Q
      → is_less alpha zero_point ≡ false
      → (n s : ℕ) (st : Rounds w) (N : ℕ → Set) → IsState w st N
      → Inv w s st.edges N
      → Q st N
      → Ended direct_edges Q n s st
  rounds-Ended direct_edges Q keeps low zero s st N state i q = record {
    st' = st;
    N' = N;
    s' = s;
    runs = rounds-zero direct_edges s st;
    state = state;
    inv = i;
    extra = q;
    at_most = omega arith;
    why = inl (omega arith);
  }
  rounds-Ended direct_edges Q keeps low (suc n) s st N state i q =
      elim (Bool-cases (length st.edges == 0)) [
        | inl e ↦ record {
          st' = st;
          N' = N;
          s' = s;
          runs = rounds-stop direct_edges n s st e;
          state = state;
          inv = i;
          extra = q;
          at_most = omega arith;
          why = inr (ground arith);
        }
        | inr e ↦
            let p = round-Passed w direct_edges s st N state in
            let rest =
              rounds-Ended direct_edges Q keeps low n (s + 1) p.st' p.N' p.state
                (Inv-round w direct_edges s st N state p i low) (keeps s st N state i p q) in
            record {
              st' = rest.st';
              N' = rest.N';
              s' = rest.s';
              runs = rounds-step direct_edges n s st p.st' e p.runs ∙ rest.runs;
              state = rest.state;
              inv = rest.inv;
              extra = rest.extra;
              at_most = omega (arith, rest.at_most);
              why = ground (arith, rest.why);
            }
      ]

  -- The neighbors at the end: a variable that is no neighbor was separated by other variables, and a
  -- neighbor is separated by no set of neighbors of either end, up to the bound on the conditions.
  pub record IsLearned (N : ℕ → Set) : Type 0 where
    pub inside : (x y : ℕ) → is_var w x ≡ true → contains (N x) y ≡ true → is_var w y ≡ true
    pub no_self : (x : ℕ) → is_var w x ≡ true → contains (N x) x ≡ false
    pub symmetric :
        (x y : ℕ) → is_var w x ≡ true → is_var w y ≡ true → contains (N x) y ≡ contains (N y) x
    pub separated :
        (x y : ℕ)
        → IsPair w (x, y)
        → contains (N x) y ≡ false
        → (c : Set) × Others w x y c
          × (size c ≤ max_conditioning)
          × (is_independent_given w alpha x y c ≡ true)
    pub unseparated :
        (x y : ℕ) (c : Set)
        → IsPair w (x, y)
        → contains (N x) y ≡ true
        → Among w N x y c
        → size c ≤ max_conditioning
        → is_independent_given w alpha x y c ≡ false

  size-Others :
      (x y : ℕ) (c : Set) → IsPair w (x, y) → Others w x y c → size c + 2 ≤ size (all_vars w)
  size-Others x y c (l, hx, hy) others = omega (
    arith,
    size_le w c (w.erase y (w.erase x (all_vars w))) others,
    size-erase w x (all_vars w) hx,
    size-erase w y (w.erase x (all_vars w)) (ground (arith, contains-erase x (all_vars w) y)),
  )

  le-max_size :
      (var_mod k : ℕ)
      → size (all_vars w) ≤ var_mod
      → k + 2 ≤ size (all_vars w)
      → k ≤ max_conditioning
      → k ≤ max_size w var_mod
  unfolding max_size
  le-max_size var_mod k h l m =
      let n = size (all_vars w) in
      let exact : (n + var_mod - 2) % var_mod ≡ n - 2 =
        ap (λ t. t % var_mod) (let e : n + var_mod - 2 ≡ n - 2 + var_mod = omega arith in e)
        ∙ add-mod_right (n - 2) var_mod
        ∙ mod-eq_of_lt (let e : n - 2 < var_mod = omega arith in e) in
      rw exact (omega arith)

  max_size-le : (var_mod : ℕ) → max_size w var_mod ≤ max_conditioning
  unfolding max_size
  max_size-le var_mod = omega arith

  no_edges : (es : List (_)) (x y : ℕ) → length es ≡ 0 → has_edge w es x y ≡ false
  no_edges [] x y h = refl
  no_edges (e ∷ es) x y h = absurd (omega (arith, h))

  pub Ended-IsLearned :
      (var_mod : ℕ) (direct_edges : Bool) (Q : Rounds w → (ℕ → Set) → Type 0) (st : Rounds w)
      → size (all_vars w) ≤ var_mod
      → (e : Ended direct_edges Q (max_size w var_mod + 1) 0 st) → IsLearned e.N'
  Ended-IsLearned var_mod direct_edges Q st h e = record {
    inside = e.inv.inside;
    no_self = e.inv.no_self;
    symmetric = e.inv.symmetric;
    separated = λ x y p a.
        let (c, others, m, sep) = e.inv.separated x y p a in
        (c, others, omega (arith, e.at_most, max_size-le var_mod), sep);
    unseparated = λ x y c p a among m. e.inv.unseparated x y c p a among (small x y c p a among m);
  }
    where
      small :
          (x y : ℕ) (c : Set)
          → IsPair w (x, y)
          → contains (e.N' x) y ≡ true
          → Among w e.N' x y c
          → size c ≤ max_conditioning
          → size c < e.s'
      small x y c p a among m = elim e.why [
        | inl last ↦
            let bound =
              size-Others x y c p (Among-Others w e.s' e.st'.edges e.N' x y c e.inv p among) in
            omega (arith, le-max_size var_mod (size c) h bound m)
        | inr done ↦ elim (e.inv.waiting x y p a) [
          | inl there ↦ absurd (ground (arith, no_edges e.st'.edges x y done))
          | inr (sx, sy) ↦
              elim (Among-smaller w e.N' x y c a (sym (e.inv.symmetric x y p.1 p.2) ∙ a) among) [
                | inl l ↦ omega arith
                | inr l ↦ omega arith
              ]
        ]
      ]

  -- The rounds of getSkeleton_sequential, with a property that they keep.
  pub learn_neighbors-Ended :
      (var_mod : ℕ) (direct_edges : Bool) (Q : Rounds w → (ℕ → Set) → Type 0)
      → is_less alpha zero_point ≡ false
      → IsKept direct_edges Q
      → Q (start w) (get_candidates w)
      → (e : Ended direct_edges Q (max_size w var_mod + 1) 0 (start w)) × (learn_neighbors w var_mod
            direct_edges
          ≡ some (e.st'.all, if direct_edges then sort_stored w e.st'.stored else e.st'.stored))
  unfolding learn_neighbors
  learn_neighbors-Ended var_mod direct_edges Q low keeps q =
      let e =
        rounds-Ended direct_edges Q keeps low (max_size w var_mod + 1) 0 (start w)
          (get_candidates w) (start-IsState w) (start-Inv w) q in
      (e, rw (initialize_runs w, learn_neighbors) (rw (e.runs, learn_neighbors) refl))

  pub learn_neighbors-IsLearned :
      (var_mod : ℕ) (direct_edges : Bool)
      → size (all_vars w) ≤ var_mod
      → is_less alpha zero_point ≡ false
      → (all : Neighbors w) × (stored : List (RemovedEdge w)) × (N : ℕ → Set) × (learn_neighbors w
            var_mod direct_edges
          ≡ some (all, stored))
        × Holds w all N
        × IsLearned N
  learn_neighbors-IsLearned var_mod direct_edges h low =
      let (e, runs) =
        learn_neighbors-Ended var_mod direct_edges (λ _ _. Unit {0}) low (λ _ _ _ _ _ _ _. tt) tt in
      (
        e.st'.all,
        (if direct_edges then sort_stored w e.st'.stored else e.st'.stored),
        e.N',
        runs,
        e.state.holds,
        Ended-IsLearned var_mod direct_edges (λ _ _. Unit {0}) (start w) h e,
      )
