-- ===== src/DirectLearning/Blankets/Members.antt =====
-- The members of the superset of a blanket, and of the blanket.
use ram_ble.Base.{
  ℕ, ◌≡◌, ◌∙◌, refl, ap, sym, Bool, true, not, ◌&&◌, ◌||◌, List, [], ◌∷◌, Option, some, arith, any,
  ◌==◌, ==_eq, Bool-cases, inl, inr, mem, ==_refl, any_of_mem,
}
use ram_ble.Setting.{Setting}
use ram_ble.DiscreteData.{is_independent, is_independent_given, max_p_value_subset}
use ram_ble.DirectLearning.Blankets.{
  unite, get_mb_superset, try_spouse, try_spouses, add_spouses, get_mb_from_pc,
}
use ram_ble.DirectLearning.Blankets.Spouses.{AreNear, AreNear-add_spouses}

module _ (w : Setting) where
  open w use {
    Set, set_init, contains, elems, insert, erase, set_union, contains-insert, contains-erase,
    contains-union, contains-elems, contains-set_init, num_vars, alpha, max_conditioning,
  }

  unite_lem :
      (cached : ℕ → Option Set) (cpc : ℕ → Set) (ys : List ℕ) (cmb : Set)
      → ((y : ℕ) → mem y ys ≡ true → cached y ≡ some (cpc y))
      → (s : Set) × (unite w cached ys cmb ≡ some s)
        × ((x : ℕ) → contains s x ≡ (contains cmb x || any (λ y. contains (cpc y) x) ys))
  unfolding unite
  unite_lem cached cpc [] cmb h = (cmb, refl, λ x. ground arith)
  unite_lem cached cpc (y ∷ ys) cmb h =
      let (s, runs, f) =
        unite_lem cached cpc ys (set_union cmb (cpc y)) (λ z m. h z (ground arith)) in
      (
        s,
        rw (h y (ground (arith, ==_refl y)), unite) runs,
        λ x. ground (arith, f x, contains-union cmb (cpc y) x),
      )

  -- getMBSuperset, where the candidate sets of the target and of all its candidates have been
  -- cached: it returns the set of the variables, the target excepted, that are candidates of the
  -- target or of one of its candidates.
  pub get_mb_superset_members :
      (target x : ℕ) (cached : ℕ → Option Set) (cpc : ℕ → Set)
      → cached target ≡ some (cpc target)
      → ((y : ℕ) → contains (cpc target) y ≡ true → cached y ≡ some (cpc y))
      → (s : Set) × (get_mb_superset w target cached ≡ some s)
        × (contains s x ≡ (
            not (x == target)
            && (contains (cpc target) x || any (λ y. contains (cpc y) x) (elems (cpc target)))))
  unfolding get_mb_superset
  get_mb_superset_members target x cached cpc e h =
      let (s, runs, f) =
        unite_lem cached cpc (elems (cpc target)) (cpc target)
          (λ y m. h y (sym (contains-elems (cpc target) y) ∙ m)) in
      (
        erase target s,
        rw (e, get_mb_superset) (rw (runs, get_mb_superset) refl),
        contains-erase target s x ∙ ap (λ b. not (x == target) && b) (f x),
      )

  module _ (get_pc : ℕ → Set) (target : ℕ) where
    -- Variables of the sets of the variables ys.
    abbrev two_away : List ℕ → ℕ → Bool
    two_away ys x = any (λ y. contains (get_pc y) x) ys

    -- What the blanket may gain: nothing is lost, and a new member is in `others`.
    record Gains (others : ℕ → Bool) (before after : Set) : Type 0 where
      kept : (x : ℕ) → contains before x ≡ true → contains after x ≡ true
      gained : (x : ℕ) → contains after x ≡ true → (contains before x || others x) ≡ true

    Gains-trans :
        (others : ℕ → Bool) (a b c : Set) → Gains others a b → Gains others b c → Gains others a c
    Gains-trans others a b c p q = record {
      kept = λ x m. q.kept x (p.kept x m);
      gained = λ x m. ground (arith, q.gained x, p.gained x);
    }

    Gains-refl : (others : ℕ → Bool) (a : Set) → Gains others a a
    Gains-refl others a = record { kept = λ x m. m; gained = λ x m. ground arith }

    Gains-insert :
        (others : ℕ → Bool) (x : ℕ) (a : Set) → others x ≡ true → Gains others a (insert x a)
    Gains-insert others x a h = record {
      kept = λ z m. ground (arith, contains-insert x a z);
      gained = λ z m. elim (Bool-cases (z == x)) [
        | inl e ↦ let here : others z ≡ true = rw (==_eq z x e) h in ground arith
        | inr e ↦ ground (arith, contains-insert x a z)
      ];
    }

    Gains-try_spouse :
        (others : ℕ → Bool) (y x : ℕ) (candidates cmb : Set)
        → (not (x == target) ≡ true → others x ≡ true)
        → Gains others cmb (try_spouse w get_pc target y x (candidates, cmb)).1
    unfolding try_spouse
    Gains-try_spouse others y x candidates cmb h =
        let ret = max_p_value_subset w alpha target x (erase x candidates) max_conditioning 0 in
        let spouse =
          is_independent w alpha ret.0
          && not (is_independent_given w alpha target x (insert y ret.1)) in
        elim (Bool-cases (not (x == target) && not (contains (get_pc target) x))) [
          | inr e ↦ rw e (Gains-refl others cmb)
          | inl e ↦ rw e (elim (Bool-cases spouse) [
            | inl f ↦ rw f (Gains-insert others x cmb (h (ground arith)))
            | inr f ↦ rw f (Gains-refl others cmb)
          ])
        ]

    Gains-try_spouses :
        (others : ℕ → Bool) (y : ℕ) (xs : List ℕ) (candidates cmb : Set)
        → ((x : ℕ) → mem x xs ≡ true → not (x == target) ≡ true → others x ≡ true)
        → Gains others cmb (try_spouses w get_pc target y xs (candidates, cmb)).1
    unfolding try_spouses
    Gains-try_spouses others y [] candidates cmb h = Gains-refl others cmb
    Gains-try_spouses others y (x ∷ xs) candidates cmb h =
        let st = try_spouse w get_pc target y x (candidates, cmb) in
        Gains-trans others cmb st.1 (try_spouses w get_pc target y xs st).1
          (Gains-try_spouse others y x candidates cmb (h x (ground (arith, ==_refl x))))
          (Gains-try_spouses others y xs st.0 st.1 (λ z m. h z (ground arith)))

    -- A member of the set of the target, or of the set of one of them.
    abbrev near : ℕ → Bool
    near x =
        contains (get_pc target) x
        || (not (x == target) && any (λ y. contains (get_pc y) x) (elems (get_pc target)))

    add_spouses_lem :
        (ys : List ℕ) (candidates cmb : Set)
        → ((y : ℕ) → mem y ys ≡ true → contains (get_pc target) y ≡ true)
        → Gains near cmb (add_spouses w get_pc target ys (candidates, cmb)).1
          × ((x : ℕ)
              → mem x ys ≡ true
              → contains (add_spouses w get_pc target ys (candidates, cmb)).1 x ≡ true)
    unfolding add_spouses
    add_spouses_lem [] candidates cmb h = (Gains-refl near cmb, λ x m. absurd (ground arith))
    add_spouses_lem (y ∷ ys) candidates cmb h =
        let y_in = h y (ground (arith, ==_refl y)) in
        let st = try_spouses w get_pc target y (elems (get_pc y)) (candidates, insert y cmb) in
        let end = (add_spouses w get_pc target ys st).1 in
        let first = Gains-insert near y cmb (ground arith) in
        let second = Gains-try_spouses near y (elems (get_pc y)) candidates (insert y cmb) (λ x m n.
          ground (
            arith,
            any_of_mem (λ u. contains (get_pc u) x) (elems (get_pc target)) y
                (sym (contains-elems (get_pc y) x) ∙ m) (contains-elems (get_pc target) y ∙ y_in),
          )) in
        let (rest, listed) = add_spouses_lem ys st.0 st.1 (λ z m. h z (ground arith)) in
        let both = Gains-trans near (insert y cmb) st.1 end second rest in
        (
          Gains-trans near cmb (insert y cmb) end first both,
          λ x m. elim (Bool-cases (x == y)) [
            | inl e ↦ both.kept x (ground (arith, contains-insert y cmb x))
            | inr e ↦ listed x (ground arith)
          ],
        )

    -- getCandidateMB of the direct learners, where the candidate sets of the target and of all its
    -- candidates have been cached: it returns a blanket that has every member of the set of the
    -- target, and every other member is a variable, not the target, of the set of one of these; it
    -- is independent of the target given some set without it, of no more than maxConditioning
    -- members, and dependent given that set with the member of the target's set.
    pub get_mb_from_pc_members :
        (candidates : Set) (cached : ℕ → Option Set) (cpc : ℕ → Set)
        → cached target ≡ some (cpc target)
        → ((y : ℕ) → contains (cpc target) y ≡ true → cached y ≡ some (cpc y))
        → (s : Set) × (get_mb_from_pc w get_pc target candidates cached ≡ some s)
          × ((x : ℕ) → contains (get_pc target) x ≡ true → contains s x ≡ true)
          × ((x : ℕ)
              → contains s x ≡ true
              → (contains (get_pc target) x
                  || (not (x == target)
                      && any (λ y. contains (get_pc y) x) (elems (get_pc target))))
                ≡ true)
          × AreNear w get_pc target s
    unfolding get_mb_from_pc
    get_mb_from_pc_members candidates cached cpc e h =
        let (superset, found, _) = get_mb_superset_members target target cached cpc e h in
        let pc = get_pc target in
        let (gains, listed) =
          add_spouses_lem (elems pc) superset (set_init num_vars)
            (λ y m. sym (contains-elems pc y) ∙ m) in
        (
          (add_spouses w get_pc target (elems pc) (superset, set_init num_vars)).1,
          rw (e, get_mb_from_pc) (rw (found, get_mb_from_pc) refl),
          λ x m. listed x (contains-elems pc x ∙ m),
          λ x m. ground (arith, gains.gained x m, contains-set_init num_vars x),
          AreNear-add_spouses w get_pc target (elems pc) superset (set_init num_vars)
              (λ y m. sym (contains-elems pc y) ∙ m)
              (λ x m. absurd (ground (arith, contains-set_init num_vars x))),
        )
