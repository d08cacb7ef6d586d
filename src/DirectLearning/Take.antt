-- ===== src/DirectLearning/Take.antt =====
-- The arrays of p-values of MMPC and SemiInterleavedHITON: taking the next variable, sorting,
-- updating.
use ram_ble.Base.{
  ℕ, zero, suc, ◌+◌, ◌-◌, ◌≤◌, ◌≡◌, refl, sym, ◌∙◌, Bool, true, not, List, [], ◌∷◌, Option, none,
  some, arith, if◌then◌else◌, ==_refl, Bool-cases, inl, inr, mem, map, keep, length, All,
}
use ram_ble.Setting.{Setting}
use ram_ble.DiscreteData.{is_independent, max_double, max_p_value_seeded}
use ram_ble.DirectLearning.{
  update_max_p_values, pair_less, min_element, replace, back, pop_back, take_min, take_first,
  insert_sorted, sort, first_p_values,
}

module _ (w : Setting) where
  open w use {
    Double, zero_point, Set, set_init, contains, elems, insert, erase, size, contains-insert,
    contains-set_init, contains-elems, num_vars, alpha, max_conditioning,
  }

  -- All listed variables are in the set.
  abbrev pub AreIn : Set → List (Double × ℕ) → Type 0
  AreIn s = All (λ mpv. contains s mpv.1 ≡ true)

  -- Taking the next variable off the array: nothing new, and one less.
  pub record TakeSpec (take_next : List (Double × ℕ) → Option ((Double × ℕ) × List (Double × ℕ)))
      : Type 0 where
    pub empty : take_next [] ≡ none
    pub next :
        (s : Set) (mpv : Double × ℕ) (rest : List (Double × ℕ))
        → AreIn s (mpv ∷ rest)
        → (x : Double × ℕ) × (rest' : List (Double × ℕ)) × (take_next (mpv ∷ rest)
            ≡ some (x, rest'))
          × (contains s x.1 ≡ true)
          × AreIn s rest'
          × (length rest' ≡ length rest)

  pub take_first-TakeSpec : TakeSpec (take_first w)
  unfolding take_first
  take_first-TakeSpec = record {
    empty = refl;
    next = λ s mpv rest (h, hs). (mpv, rest, refl, h, hs, refl);
  }

  AreIn-min_element :
      (s : Set) (best : Double × ℕ) (at i : ℕ) (rest : List (Double × ℕ))
      → contains s best.1 ≡ true
      → AreIn s rest
      → contains s (min_element w best at i rest).0.1 ≡ true
  unfolding min_element
  AreIn-min_element s best at i [] h hs = h
  AreIn-min_element s best at i (mpv ∷ rest) h (k, hs) =
      AreIn-min_element s (if pair_less w mpv best then mpv else best)
        (if pair_less w mpv best then i else at) (i + 1) rest (ground arith) hs

  AreIn-back :
      (s : Set) (mpv : Double × ℕ) (rest : List (Double × ℕ))
      → contains s mpv.1 ≡ true
      → AreIn s rest
      → contains s (back w mpv rest).1 ≡ true
  unfolding back
  AreIn-back s mpv [] h hs = h
  AreIn-back s mpv (next ∷ rest) h (k, hs) = AreIn-back s next rest k hs

  AreIn-replace :
      (s : Set) (i : ℕ) (v : Double × ℕ) (l : List (Double × ℕ))
      → contains s v.1 ≡ true
      → AreIn s l
      → AreIn s (replace w i v l) × (length (replace w i v l) ≡ length l)
  unfolding replace
  AreIn-replace s i v [] h hs = (tt, refl)
  AreIn-replace s zero v (mpv ∷ rest) h (k, hs) = ((h, hs), refl)
  AreIn-replace s (suc i) v (mpv ∷ rest) h (k, hs) =
      let (all, n) = AreIn-replace s i v rest h hs in ((k, all), omega (arith, n))

  AreIn-pop_back :
      (s : Set) (l : List (Double × ℕ))
      → AreIn s l
      → AreIn s (pop_back w l) × (length (pop_back w l) ≡ length l - 1)
  unfolding pop_back
  AreIn-pop_back s [] hs = (tt, refl)
  AreIn-pop_back s (mpv ∷ []) hs = (tt, refl)
  AreIn-pop_back s (mpv ∷ next ∷ rest) (k, hs) =
      let (all, n) = AreIn-pop_back s (next ∷ rest) hs in ((k, all), omega (arith, n))

  pub take_min-TakeSpec : TakeSpec (take_min w)
  unfolding take_min
  take_min-TakeSpec = record {
    empty = refl;
    next = λ s mpv rest (h, hs).
        let least = (min_element w mpv 0 1 rest).0 in
        let i = (min_element w mpv 0 1 rest).1 in
        let last = back w mpv rest in
        let (all, n) = AreIn-replace s i last (mpv ∷ rest) (AreIn-back s mpv rest h hs) (h, hs) in
        let (all', n') = AreIn-pop_back s (replace w i last (mpv ∷ rest)) all in
        (
          least,
          pop_back w (replace w i last (mpv ∷ rest)),
          refl,
          AreIn-min_element s mpv 0 1 rest h hs,
          all',
          omega (arith, n, n'),
        );
  }

  AreIn-insert_sorted :
      (s : Set) (v : Double × ℕ) (l : List (Double × ℕ))
      → contains s v.1 ≡ true
      → AreIn s l
      → AreIn s (insert_sorted w v l)
  unfolding insert_sorted
  AreIn-insert_sorted s v [] h hs = (h, tt)
  AreIn-insert_sorted s v (next ∷ rest) h (k, hs) = elim (Bool-cases (pair_less w next v)) [
    | inl e ↦ rw (e, insert_sorted) (k, AreIn-insert_sorted s v rest h hs)
    | inr e ↦ rw (e, insert_sorted) (h, (k, hs))
  ]

  pub AreIn-sort : (s : Set) (l : List (Double × ℕ)) → AreIn s l → AreIn s (sort w l)
  unfolding sort
  AreIn-sort s [] hs = tt
  AreIn-sort s (v ∷ l) (h, hs) = AreIn-insert_sorted s v (sort w l) h (AreIn-sort s l hs)

  AreIn-keep :
      (s : Set) (p : Double × ℕ → Bool) (l : List (Double × ℕ))
      → AreIn s l
      → AreIn s (keep p l) × (length (keep p l) ≤ length l)
  AreIn-keep s p [] hs = (tt, omega arith)
  AreIn-keep s p (v ∷ l) (h, hs) =
      let (all, n) = AreIn-keep s p l hs in
      elim (Bool-cases (p v)) [
        | inl e ↦ rw e ((h, all), omega (arith, n))
        | inr e ↦ rw e (all, omega (arith, n))
      ]

  AreIn-map :
      (s : Set) (f : Double × ℕ → Double) (l : List (Double × ℕ))
      → AreIn s l
      → AreIn s (map (λ mpv. (f mpv, mpv.1)) l)
        × (length {A = Double × ℕ} (map (λ mpv. (f mpv, mpv.1)) l) ≡ length l)
  AreIn-map s f [] hs = (tt, refl)
  AreIn-map s f (v ∷ l) (h, hs) = let (all, n) = AreIn-map s f l hs in ((h, all), omega (arith, n))

  pub AreIn-update :
      (s : Set) (target : ℕ) (l : List (Double × ℕ)) (cpc set_next : Set)
      → AreIn s l
      → AreIn s (update_max_p_values w target l cpc set_next)
        × (length (update_max_p_values w target l cpc set_next) ≤ length l)
  unfolding update_max_p_values
  AreIn-update s target l cpc set_next hs =
      let f : Double × ℕ → Double = λ mpv.
        max_double w mpv.0
          (max_p_value_seeded w alpha target mpv.1 cpc set_next max_conditioning) in
      let (all, n) = AreIn-map s f l hs in
      let (all', n') =
        AreIn-keep s (λ mpv. not (is_independent w alpha mpv.0)) (map (λ mpv. (f mpv, mpv.1)) l)
          all in
      (all', omega (arith, n, n'))

  AreIn-start :
      (s : Set) (ys : List ℕ)
      → ((y : ℕ) → mem y ys ≡ true → contains s y ≡ true)
      → AreIn s (map (λ y. (zero_point, y)) ys)
  AreIn-start s [] m = tt
  AreIn-start s (y ∷ ys) m =
      (m y (ground (arith, ==_refl y)), AreIn-start s ys (λ z h. m z (ground arith)))

  pub AreIn-first_p_values :
      (target : ℕ) (candidates : Set) → AreIn candidates (first_p_values w target candidates)
  unfolding first_p_values
  AreIn-first_p_values target candidates =
      (AreIn-update candidates target (map (λ y. (zero_point, y)) (elems candidates))
        (set_init num_vars) (set_init num_vars)
        (AreIn-start candidates (elems candidates)
          (λ y h. sym (contains-elems candidates y) ∙ h))).0
