-- ===== src/LocalLearning/Correction.antt =====
-- The loop of symmetryCorrectPC and symmetryCorrectMB, and getPC and getMB after it.
use ram_ble.Base.{
  ℕ, ◌≡◌, ◌≢◌, inl, inr, refl, ap, sym, ◌∙◌, true, false, List, [], ◌∷◌, Option, some, arith, ◌==◌,
  ==_eq, ==_ne, ==_refl, Bool-cases, mem,
}
use ram_ble.Setting.{Setting}
use ram_ble.LocalLearning.{Cache, update, erase_cached, symmetry_correct, finish, get_corrected}
use ram_ble.LocalLearning.Invariant.{
  CandidateSpec, keeps, corrected, contains-corrected, InvAt, InvAt-same, Lookup, lookup_lem,
  Lookup-InvAt,
}

module _ (w : Setting) (R : Type 0) (candidate : ℕ → w.Set → R → Option (w.Set × R))
    (spec : CandidateSpec w R candidate) where
  open w use {Set, contains, elems, erase, contains-elems}
  open spec use {cand, Ok, no_self}

  -- The state while the entry of the target is corrected: it holds s.
  pub record Partial (t : ℕ) (s : Set) (c : Cache w) (r : R) : Type 0 where
    pub ok : Ok r
    pub held : c.cached t ≡ some s
    pub mark : c.symmetric t ≡ some false
    pub others : (u : ℕ) → u ≢ t → InvAt w R candidate spec c u

  -- Whether x's entry holds the target, for a candidate x of the target.
  holds_target :
      (t x : ℕ) (s : Set) (c c' : Cache w) (r' : R)
      → contains (cand t) x ≡ true
      → Lookup w R candidate spec c x s c' r'
      → contains s t ≡ contains (cand x) t
  holds_target t x s c c' r' m l = elim l.entry [
    | inl (e, _) ↦ ap (λ z. contains z t) e
    | inr (e, _) ↦
        ap (λ z. contains z t) e ∙ ground (arith, contains-corrected w R candidate spec x t)
  ]

  ne_target : (t x : ℕ) → contains (cand t) x ≡ true → x ≢ t
  ne_target t x m e =
      let same : contains (cand t) x ≡ contains (cand t) t = ap (contains (cand t)) e in
      ground (arith, no_self t)

  -- A look-up of another variable keeps the partial state.
  Partial-Lookup :
      (t x : ℕ) (s s' : Set) (c c' : Cache w) (r r' : R)
      → x ≢ t
      → Partial t s c r
      → Lookup w R candidate spec c x s' c' r'
      → Partial t s c' r'
  Partial-Lookup t x s s' c c' r r' n p l =
      let same = l.others t (λ e. n (sym e)) in
      record {
        ok = l.ok;
        held = same.0 ∙ p.held;
        mark = same.1 ∙ p.mark;
        others = λ u m. elim (Bool-cases (u == x)) [
          | inl e ↦ rw (==_eq u x e) (Lookup-InvAt w R candidate spec x s' c c' r' l)
          | inr e ↦
              InvAt-same w R candidate spec c c' u (l.others u (λ f. ground arith)) (p.others u m)
        ];
      }

  Partial-erase :
      (t x : ℕ) (s : Set) (c : Cache w) (r : R)
      → Partial t s c r
      → (c' : Cache w) × (erase_cached w R candidate t x (c, r) ≡ (c', r))
        × Partial t (erase x s) c' r
  unfolding erase_cached
  Partial-erase t x s c r p =
      let c' : Cache w = record c { cached = update c.cached t (erase x s) } in
      (
        c',
        rw p.held refl,
        record {
          ok = p.ok;
          held = ground arith;
          mark = p.mark;
          others = λ u n.
              InvAt-same w R candidate spec c c' u (ground (arith, ==_ne u t n), refl)
                (p.others u n);
        },
      )

  -- All variables of the list are candidates of the target.
  abbrev AreCandidates : ℕ → List ℕ → Type 0
  AreCandidates t xs = (x : ℕ) → mem x xs ≡ true → contains (cand t) x ≡ true

  correct_loop :
      (t : ℕ) (xs : List ℕ) (s : Set) (c : Cache w) (r : R)
      → AreCandidates t xs
      → Partial t s c r
      → (c' : Cache w) × (r' : R) × (symmetry_correct w R candidate t xs (c, r) ≡ some (c', r'))
        × Partial t (keeps w R candidate spec t xs s) c' r'
  unfolding symmetry_correct
  correct_loop t [] s c r a p = (c, r, refl, p)
  correct_loop t (x ∷ xs) s c r a p =
      let is_cand = a x (ground (arith, ==_refl x)) in
      let n = ne_target t x is_cand in
      let (s', c', r', found, l) = lookup_lem w R candidate spec x c r (p.others x n) p.ok in
      let p' = Partial-Lookup t x s s' c c' r r' n p l in
      let tail : AreCandidates t xs = λ y m. a y (ground arith) in
      let says = holds_target t x s' c c' r' is_cand l in
      elim (Bool-cases (contains (cand x) t)) [
        | inl e ↦
            let (d, q, runs, end) = correct_loop t xs s c' r' tail p' in
            (d, q, rw (found, symmetry_correct) (rw (says ∙ e) runs), rw e end)
        | inr e ↦
            let (c'', gone, p'') = Partial-erase t x s c' r' p' in
            let (d, q, runs, end) = correct_loop t xs (erase x s) c'' r' tail p'' in
            (d, q, rw (found, symmetry_correct) (rw (says ∙ e) (rw gone runs)), rw e end)
      ]

  -- Every entry satisfies the invariant, and so does the rest of the state.
  pub record IsValid (c : Cache w) (r : R) : Type 0 where
    pub entries : (u : ℕ) → InvAt w R candidate spec c u
    pub rest : Ok r

  -- A lookup leaves a valid state behind.
  IsValid-lookup :
      (x : ℕ) (s : Set) (c c' : Cache w) (r r' : R)
      → IsValid c r
      → Lookup w R candidate spec c x s c' r'
      → IsValid c' r'
  IsValid-lookup x s c c' r r' v l = record {
    entries = λ u. elim (Bool-cases (u == x)) [
      | inl e ↦ rw (==_eq u x e) (Lookup-InvAt w R candidate spec x s c c' r' l)
      | inr e ↦
          InvAt-same w R candidate spec c c' u (l.others u (λ f. ground (arith, ==_refl u)))
            (v.entries u)
    ];
    rest = l.ok;
  }

  -- Marking the entry that holds the corrected set.
  IsValid-mark :
      (t : ℕ) (c : Cache w) (r : R)
      → Partial t (corrected w R candidate spec t) c r
      → IsValid (record c { symmetric = update c.symmetric t true }) r
  IsValid-mark t c r p =
      let d : Cache w = record c { symmetric = update c.symmetric t true } in
      record {
        entries = λ u. elim (Bool-cases (u == t)) [
          | inl e ↦ rw (==_eq u t e) (inr (inr (p.held, ground (arith, ==_refl t))))
          | inr e ↦
              InvAt-same w R candidate spec c d u (refl, ground arith)
                (p.others u (λ f. ground (arith, ==_refl u)))
        ];
        rest = p.ok;
      }

  -- From a valid state getPC returns the corrected set of its target, and leaves a valid state.
  pub get_corrected_lem :
      (t : ℕ) (c : Cache w) (r : R)
      → IsValid c r
      → (c' : Cache w) × (r' : R) × (get_corrected w R candidate t (c, r)
          ≡ some (corrected w R candidate spec t, (c', r')))
        × IsValid c' r'
  unfolding get_corrected finish corrected
  get_corrected_lem t c r v =
      let (s, c1, r1, found, l) = lookup_lem w R candidate spec t c r (v.entries t) v.rest in
      let v1 = IsValid-lookup t s c c1 r r1 v l in
      elim l.entry [
        | inl (e, m) ↦
            let p : Partial t (cand t) c1 r1 = record {
              ok = l.ok;
              held = l.held ∙ ap some e;
              mark = m;
              others = λ u n. v1.entries u;
            } in
            let (c2, r2, runs, p2) =
              correct_loop t (elems (cand t)) (cand t) c1 r1
                (λ x h. sym (contains-elems (cand t) x) ∙ h) p in
            (
              record c2 { symmetric = update c2.symmetric t true },
              r2,
              rw (found, get_corrected)
                  (rw (m, finish) (rw (e) (rw (runs, finish) (rw (p2.held, finish) refl)))),
              IsValid-mark t c2 r2 p2,
            )
        | inr (e, m) ↦ (c1, r1, rw (found, get_corrected) (rw (m, finish) (rw e refl)), v1)
      ]
