-- ===== src/BlanketLearning/Grow.antt =====
-- getCandidateMB of GS and IAMB: the growing loop ends, and nothing dependent is left out.
use ram_ble.Base.{
  ℕ, zero, suc, ◌<◌, ◌≡◌, refl, ◌∙◌, true, false, ◌||◌, Option, none, some, arith, ◌==◌, ==_eq,
  ==_refl, Bool-cases, inl, inr,
}
use ram_ble.Setting.{Setting}
use ram_ble.Setting.Facts.{Within, size-erase, size_zero, empty_or_member}
use ram_ble.DiscreteData.{is_independent, is_independent_given}
use ram_ble.LocalLearning.{all_vars, get_candidates}
use ram_ble.LocalLearning.Invariant.{CandidateSpec}
use ram_ble.BlanketLearning.{grow_loop, shrink_mb, get_candidate_mb}
use ram_ble.BlanketLearning.Pick.{PickSpec}
use ram_ble.BlanketLearning.Shrink.{shrink_mb-Splits}

module _ (w : Setting) (pick : ℕ → w.Set → w.Set → ℕ × w.Double) where
  open w use {
    Set, set_init, contains, insert, erase, size, contains-insert, contains-erase,
    contains-set_init, num_vars, alpha,
  }

  -- What the growing loop leaves, from the candidates and the blanket that it started with.
  pub record Grown (target : ℕ) (before cmb left cmb' : Set) : Type 0 where
    pub moved :
        (y : ℕ) → (contains left y || contains cmb' y) ≡ (contains before y || contains cmb y)
    pub kept : (y : ℕ) → contains cmb y ≡ true → contains cmb' y ≡ true
    pub independent :
        (y : ℕ) → contains left y ≡ true → is_independent_given w alpha target y cmb' ≡ true

  grow_step_added :
      (fuel target : ℕ) (candidates cmb : Set)
      → size candidates == 0 ≡ false
      → is_independent w alpha (pick target candidates cmb).1 ≡ false
      → grow_loop w pick (suc fuel) target candidates cmb
        ≡ grow_loop w pick fuel target
            (erase (pick target candidates cmb).0 candidates)
            (insert (pick target candidates cmb).0 cmb)
  unfolding grow_loop
  grow_step_added fuel target candidates cmb n e = rw (n, e) refl

  grow_step_stop :
      (fuel target : ℕ) (candidates cmb : Set)
      → is_independent w alpha (pick target candidates cmb).1 ≡ true
      → grow_loop w pick (suc fuel) target candidates cmb ≡ some (candidates, cmb)
  unfolding grow_loop
  grow_step_stop fuel target candidates cmb e = elim (Bool-cases (size candidates == 0)) [
    | inl n ↦ rw (e, n) refl
    | inr n ↦ rw (e, n) refl
  ]

  grow_step_empty :
      (fuel target : ℕ) (candidates cmb : Set)
      → size candidates == 0 ≡ true
      → grow_loop w pick (suc fuel) target candidates cmb ≡ some (candidates, cmb)
  unfolding grow_loop
  grow_step_empty fuel target candidates cmb n = rw n refl

  Grown-added :
      (target : ℕ) (candidates cmb left cmb' : Set) (x : ℕ)
      → contains candidates x ≡ true
      → Grown target (erase x candidates) (insert x cmb) left cmb'
      → Grown target candidates cmb left cmb'
  Grown-added target candidates cmb left cmb' x h g = record {
    moved = λ y. elim (Bool-cases (y == x)) [
      | inl e ↦
          let here : contains candidates y ≡ true = rw (==_eq y x e) h in
          ground (arith, g.moved y, contains-erase x candidates y, contains-insert x cmb y)
      | inr e ↦ ground (arith, g.moved y, contains-erase x candidates y, contains-insert x cmb y)
    ];
    kept = λ y k. ground (arith, g.kept y, contains-insert x cmb y);
    independent = g.independent;
  }

  -- getCandidateMB as the candidate function of LocalLearning.
  abbrev pub blanket : ℕ → Set → Unit {0} → Option (Set × Unit {0})
  blanket target candidates r = elim (get_candidate_mb w pick target candidates) [
    | none ↦ none
    | some mb ↦ some (mb, r)
  ]

  module _ (spec : PickSpec w pick) where
    -- The growing loop of getCandidateMB, for a pickBestCandidate that picks a dependent
    -- candidate where there is one: with more rounds than there are candidates it ends; then every
    -- candidate is left or in the blanket, and those left are independent of the target given the
    -- blanket.
    pub grow_loop_ends :
        (fuel target : ℕ) (candidates cmb : Set)
        → size candidates < fuel
        → (left : Set) × (cmb' : Set) × (grow_loop w pick fuel target candidates cmb
            ≡ some (left, cmb'))
          × Grown target candidates cmb left cmb'
    grow_loop_ends zero target candidates cmb l = absurd (omega arith)
    grow_loop_ends (suc fuel) target candidates cmb l = elim (empty_or_member w candidates) [
      | inl n ↦ (
        candidates,
        cmb,
        grow_step_empty fuel target candidates cmb (ground arith),
        record {
          moved = λ y. refl;
          kept = λ y h. h;
          independent = λ y h. absurd (ground (arith, size_zero w candidates y n));
        },
      )
      | inr (z, m) ↦ elim (Bool-cases (is_independent w alpha (pick target candidates cmb).1)) [
        | inl e ↦ (
          candidates,
          cmb,
          grow_step_stop fuel target candidates cmb e,
          record {
            moved = λ y. refl;
            kept = λ y h. h;
            independent = λ y h. spec.exhausted target candidates cmb y e h;
          },
        )
        | inr e ↦
            let (inside, _) = spec.picked target candidates cmb z m e in
            let x = (pick target candidates cmb).0 in
            let smaller = size-erase w x candidates inside in
            let (left, cmb', runs, g) =
              grow_loop_ends fuel target (erase x candidates) (insert x cmb) (omega arith) in
            (
              left,
              cmb',
              grow_step_added fuel target candidates cmb (ground (arith, size_zero w candidates z))
                    e
                  ∙ runs,
              Grown-added target candidates cmb left cmb' x inside g,
            )
      ]
    ]

    -- getCandidateMB of GS and IAMB returns, and the returned blanket is a subset of the
    -- candidates.
    pub get_candidate_mb-returns :
        (target : ℕ) (candidates : Set)
        → (mb : Set) × (get_candidate_mb w pick target candidates ≡ some mb)
          × Within w mb candidates
    unfolding get_candidate_mb
    get_candidate_mb-returns target candidates =
        let (left, cmb, runs, g) =
          grow_loop_ends (suc (size candidates)) target candidates (set_init num_vars)
            (omega arith) in
        (
          (shrink_mb w target cmb).0,
          rw (runs, get_candidate_mb) refl,
          λ y h.
              ground
                (arith, shrink_mb-Splits w target cmb y, g.moved y, contains-set_init num_vars y),
        )

    abbrev pub blanket_of : ℕ → Set
    blanket_of t = (get_candidate_mb-returns t (get_candidates w t)).0

    pub blanket_of-no_self : (t : ℕ) → contains (blanket_of t) t ≡ false
    unfolding get_candidates
    blanket_of-no_self t =
        let (mb, e, inside) = get_candidate_mb-returns t (get_candidates w t) in
        ground (arith, inside t, contains-erase t (all_vars w) t, ==_refl t)

    -- The blankets as the candidate sets of getMB.
    abbrev pub blankets : CandidateSpec w (Unit {0}) blanket
    blankets = record {
      cand = blanket_of;
      Ok = λ _. Unit {0};
      computes = λ t r _.
          let (mb, e, _) = get_candidate_mb-returns t (get_candidates w t) in
          (r, rw (e, blanket) refl, tt);
      no_self = λ t. blanket_of-no_self t;
    }
