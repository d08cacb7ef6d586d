-- ===== src/LocalLearning/Invariant.antt =====
-- What a cached entry may hold, and the look-up that fills it.
use ram_ble.Base.{
  ℕ, ◌≡◌, ◌≢◌, ◌⊎◌, inl, inr, refl, ap, ◌∙◌, true, false, not, ◌&&◌, ◌||◌, List, [], ◌∷◌, Option,
  none, some, arith, if◌then◌else◌, ◌==◌, ==_eq, ==_ne, Bool-cases, mem,
}
use ram_ble.Setting.{Setting}
use ram_ble.LocalLearning.{Cache, update, get_candidates, get_candidate_cache}

-- What the virtual candidate function promises: its result depends on the target alone, never
-- holds the target, and the state it works on keeps a condition of its own.
pub record CandidateSpec (w : Setting) (R : Type 0) (candidate : ℕ → w.Set → R → Option (w.Set × R))
    : Type 1 where
  pub cand : ℕ → w.Set
  pub Ok : R → Type 0
  pub computes :
      (t : ℕ) (r : R)
      → Ok r
      → (r' : R) × (candidate t (get_candidates w t) r ≡ some (cand t, r')) × Ok r'
  pub no_self : (t : ℕ) → w.contains (cand t) t ≡ false

module _ (w : Setting) (R : Type 0) (candidate : ℕ → w.Set → R → Option (w.Set × R))
    (spec : CandidateSpec w R candidate) where
  open w use {Set, contains, elems, erase, contains-erase, contains-elems}
  open spec use {cand, Ok, computes, no_self}

  abbrev pub keeps : ℕ → List ℕ → Set → Set
  keeps t [] s = s
  keeps t (x ∷ xs) s = keeps t xs (if contains (cand x) t then s else erase x s)

  pub contains-keeps :
      (t : ℕ) (xs : List ℕ) (s : Set) (y : ℕ)
      → contains (keeps t xs s) y ≡ (contains s y && (not (mem y xs) || contains (cand y) t))
  contains-keeps t [] s y = ground arith
  contains-keeps t (x ∷ xs) s y = elim (Bool-cases (y == x)) [
    | inl e ↦
        let same : contains (cand y) t ≡ contains (cand x) t =
          ap (λ u. contains (cand u) t) (==_eq y x e) in
        ground (
          arith,
          contains-keeps t xs (if contains (cand x) t then s else erase x s) y,
          contains-erase x s y,
        )
    | inr e ↦ ground (
      arith,
      contains-keeps t xs (if contains (cand x) t then s else erase x s) y,
      contains-erase x s y,
    )
  ]

  -- The candidate set without the members whose own candidate set lacks the target.
  unfoldable pub corrected : ℕ → Set
  corrected t = keeps t (elems (cand t)) (cand t)

  pub contains-corrected :
      (t y : ℕ) → contains (corrected t) y ≡ (contains (cand t) y && contains (cand y) t)
  unfolding corrected
  contains-corrected t y =
      ground (arith, contains-keeps t (elems (cand t)) (cand t) y, contains-elems (cand t) y)

  -- An entry is absent, holds the candidate set, or holds the corrected set and is marked so.
  abbrev pub InvAt : Cache w → ℕ → Type 0
  InvAt c u =
      ((c.cached u ≡ none) × (c.symmetric u ≡ none))
      ⊎ (((c.cached u ≡ some (cand u)) × (c.symmetric u ≡ some false))
          ⊎ ((c.cached u ≡ some (corrected u)) × (c.symmetric u ≡ some true)))

  -- The two caches agree on the entry of u.
  abbrev pub SameAt : Cache w → Cache w → ℕ → Type 0
  SameAt c d u = (d.cached u ≡ c.cached u) × (d.symmetric u ≡ c.symmetric u)

  pub InvAt-same : (c d : Cache w) (u : ℕ) → SameAt c d u → InvAt c u → InvAt d u
  InvAt-same c d u s h = ground arith

  -- The candidate set or the corrected one, with the mark that goes with it.
  pub record Lookup (c : Cache w) (x : ℕ) (s : Set) (c' : Cache w) (r' : R) : Type 0 where
    pub ok : Ok r'
    pub held : c'.cached x ≡ some s
    pub entry :
        ((s ≡ cand x) × (c'.symmetric x ≡ some false))
        ⊎ ((s ≡ corrected x) × (c'.symmetric x ≡ some true))
    pub others : (u : ℕ) → u ≢ x → SameAt c c' u

  pub lookup_lem :
      (x : ℕ) (c : Cache w) (r : R)
      → InvAt c x
      → Ok r
      → (s : Set) × (c' : Cache w) × (r' : R) × (get_candidate_cache w R candidate x
            (get_candidates w x)
            (c, r)
          ≡ some (s, (c', r')))
        × Lookup c x s c' r'
  unfolding get_candidate_cache
  lookup_lem x c r (inl (no_set, no_mark)) h =
      let (r', e, h') = computes x r h in
      let c' : Cache w = record {
        cached = update c.cached x (cand x);
        symmetric = update c.symmetric x false;
      } in
      (
        cand x,
        c',
        r',
        rw (no_set, get_candidate_cache) (rw (e, get_candidate_cache) refl),
        record {
          ok = h';
          held = ground arith;
          entry = inl (refl, ground arith);
          others = λ u n. ground (arith, ==_ne u x n);
        },
      )
  lookup_lem x c r (inr (inl (e, m))) h = (
    cand x,
    c,
    r,
    rw e refl,
    record { ok = h; held = e; entry = inl (refl, m); others = λ u n. (refl, refl) },
  )
  lookup_lem x c r (inr (inr (e, m))) h = (
    corrected x,
    c,
    r,
    rw e refl,
    record { ok = h; held = e; entry = inr (refl, m); others = λ u n. (refl, refl) },
  )

  pub Lookup-InvAt : (x : ℕ) (s : Set) (c c' : Cache w) (r' : R) → Lookup c x s c' r' → InvAt c' x
  Lookup-InvAt x s c c' r' l = elim l.entry [
    | inl (e, m) ↦ inr (inl (l.held ∙ ap some e, m))
    | inr (e, m) ↦ inr (inr (l.held ∙ ap some e, m))
  ]
