-- ===== src/BlanketLearning/Neighbors.antt =====
-- getCandidatePC from the blankets: the parents and children that evaluateCandidatePC accepts.
use ram_ble.Base.{
  ℕ, ◌≡◌, refl, false, ◌&&◌, ◌||◌, List, [], ◌∷◌, Option, some, arith, if◌then◌else◌, ◌==◌, ==_eq,
  Bool-cases, inl, inr, mem, ap, ◌↔◌, ltb,
}
use ram_ble.Setting.{Setting}
use ram_ble.DiscreteData.AnySubset.{Separates, any_subset_iff}
use ram_ble.LocalLearning.{Cache, get_candidates, get_corrected}
use ram_ble.LocalLearning.Invariant.{CandidateSpec, corrected, contains-corrected}
use ram_ble.LocalLearning.Correction.{IsValid, get_corrected_lem}
use ram_ble.BlanketLearning.{candidate_pc_loop, get_candidate_pc, evaluate_candidate_pc}

module _ (w : Setting) where
  open w use {
    Set, set_init, contains, elems, insert, erase, size, contains-insert, contains-erase,
    contains-set_init, contains-elems, num_vars, alpha, max_conditioning,
  }

  -- The set that evaluateCandidatePC conditions on: the smaller blanket without the other variable.
  abbrev pub test_set : ℕ → ℕ → Set → Set → Set
  test_set x y mb_x mb_y = if ltb (size mb_x) (size mb_y) then erase y mb_x else erase x mb_y

  -- evaluateCandidatePC rejects y exactly when some subset, of at most maxConditioning variables,
  -- of the smaller blanket without the other variable separates x from y; of two blankets of the
  -- same size, it is that of y.
  pub evaluate_candidate_pc_iff :
      (x y : ℕ) (mb_x mb_y : Set)
      → (evaluate_candidate_pc w x y mb_x mb_y ≡ false)
        ↔ ((c : Set) × Separates w alpha x y (test_set x y mb_x mb_y) max_conditioning 0 c)
  unfolding evaluate_candidate_pc
  evaluate_candidate_pc_iff x y mb_x mb_y =
      let (to, from) = any_subset_iff w alpha x y (test_set x y mb_x mb_y) max_conditioning 0 in
      (λ h. to (ground arith), λ s. let found = from s in ground arith)

  module _ (R : Type 0) (blanket : ℕ → Set → R → Option (Set × R))
      (spec : CandidateSpec w R blanket) where
    -- The corrected blanket.
    abbrev pub mb_of : ℕ → Set
    mb_of = corrected w R blanket spec

    unfoldable pub accept_all : ℕ → List ℕ → Set → Set
    accept_all t [] cpc = cpc
    accept_all t (y ∷ ys) cpc =
        accept_all t ys
          (if evaluate_candidate_pc w t y (mb_of t) (mb_of y) then insert y cpc else cpc)

    contains-accept_all :
        (t : ℕ) (ys : List ℕ) (cpc : Set) (y : ℕ)
        → contains (accept_all t ys cpc) y
          ≡ (contains cpc y || (mem y ys && evaluate_candidate_pc w t y (mb_of t) (mb_of y)))
    unfolding accept_all
    contains-accept_all t [] cpc y = ground arith
    contains-accept_all t (z ∷ ys) cpc y =
        let accepts = evaluate_candidate_pc w t z (mb_of t) (mb_of z) in
        let tail = contains-accept_all t ys (if accepts then insert z cpc else cpc) y in
        elim (Bool-cases (y == z)) [
          | inl e ↦
              let same : evaluate_candidate_pc w t y (mb_of t) (mb_of y) ≡ accepts =
                ap (λ u. evaluate_candidate_pc w t u (mb_of t) (mb_of u)) (==_eq y z e) in
              ground (arith, contains-insert z cpc y)
          | inr e ↦ ground (arith, contains-insert z cpc y)
        ]

    pc_loop_lem :
        (t : ℕ) (ys : List ℕ) (cpc : Set) (c : Cache w) (r : R)
        → IsValid w R blanket spec c r
        → (c' : Cache w) × (r' : R) × (candidate_pc_loop w R blanket t (mb_of t) ys cpc (c, r)
            ≡ some (accept_all t ys cpc, (c', r')))
          × IsValid w R blanket spec c' r'
    unfolding candidate_pc_loop accept_all
    pc_loop_lem t [] cpc c r v = (c, r, refl, v)
    pc_loop_lem t (y ∷ ys) cpc c r v =
        let (c1, r1, e, v1) = get_corrected_lem w R blanket spec y c r v in
        let (c2, r2, runs, v2) =
          pc_loop_lem t ys
            (if evaluate_candidate_pc w t y (mb_of t) (mb_of y) then insert y cpc else cpc) c1 r1
            v1 in
        (c2, r2, rw (e, candidate_pc_loop) runs, v2)

    abbrev pub pc_of : ℕ → Set
    pc_of t = accept_all t (elems (mb_of t)) (set_init num_vars)

    pub contains-pc_of :
        (t y : ℕ)
        → contains (pc_of t) y
          ≡ (contains (mb_of t) y && evaluate_candidate_pc w t y (mb_of t) (mb_of y))
    contains-pc_of t y = ground (
      arith,
      contains-accept_all t (elems (mb_of t)) (set_init num_vars) y,
      contains-set_init num_vars y,
      contains-elems (mb_of t) y,
    )

    pub candidate_pc_lem :
        (t : ℕ) (s : Set) (c : Cache w) (r : R)
        → IsValid w R blanket spec c r
        → (c' : Cache w) × (r' : R) × (get_candidate_pc w R blanket t s (c, r)
            ≡ some (pc_of t, (c', r')))
          × IsValid w R blanket spec c' r'
    unfolding get_candidate_pc
    candidate_pc_lem t s c r v =
        let (c1, r1, e, v1) = get_corrected_lem w R blanket spec t c r v in
        let (c2, r2, runs, v2) = pc_loop_lem t (elems (mb_of t)) (set_init num_vars) c1 r1 v1 in
        (c2, r2, rw (e, get_candidate_pc) runs, v2)

    pub pc_of-no_self : (t : ℕ) → contains (pc_of t) t ≡ false
    pc_of-no_self t =
        ground (arith, contains-pc_of t t, contains-corrected w R blanket spec t t, spec.no_self t)

    -- The candidate sets of getPC, on the state of the cache of blankets.
    abbrev pub neighbors : CandidateSpec w (Cache w × R) (get_candidate_pc w R blanket)
    neighbors = record {
      cand = pc_of;
      Ok = λ st. IsValid w R blanket spec st.0 st.1;
      computes = λ t st v.
          let (c, r, e, v') = candidate_pc_lem t (get_candidates w t) st.0 st.1 v in
          ((c, r), e, v');
      no_self = pc_of-no_self;
    }

    -- getPC of a blanket learner, from valid caches: it returns, and the returned set has y exactly
    -- when each of the two variables is in the corrected blanket of the other, and
    -- evaluateCandidatePC accepts the pair from both sides.
    pub get_pc_members :
        (t y : ℕ) (pcs : Cache w) (mbs : Cache w × R)
        → IsValid w (Cache w × R) (get_candidate_pc w R blanket) neighbors pcs mbs
        → (s : Set) × (st : Cache w × (Cache w × R)) × (get_corrected w
              (Cache w × R)
              (get_candidate_pc w R blanket)
              t
              (pcs, mbs)
            ≡ some (s, st))
          × (contains s y ≡ (
              (contains (mb_of t) y && evaluate_candidate_pc w t y (mb_of t) (mb_of y))
              && (contains (mb_of y) t && evaluate_candidate_pc w y t (mb_of y) (mb_of t))))
    get_pc_members t y pcs mbs v =
        let (c, r, e, _) =
          get_corrected_lem w (Cache w × R) (get_candidate_pc w R blanket) neighbors t pcs mbs v in
        (
          corrected w (Cache w × R) (get_candidate_pc w R blanket) neighbors t,
          (c, r),
          e,
          ground (
            arith,
            contains-corrected w (Cache w × R) (get_candidate_pc w R blanket) neighbors t y,
            contains-pc_of t y,
            contains-pc_of y t,
          ),
        )
