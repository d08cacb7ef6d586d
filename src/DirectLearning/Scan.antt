-- ===== src/DirectLearning/Scan.antt =====
-- The inner loop of GetPC: which candidates it removes, and that it picks one that stays.
use ram_ble.Base.{
  ℕ, zero, suc, ◌≡◌, refl, ap, sym, subst, ◌∙◌, Bool, true, false, not, ◌&&◌, ◌||◌, List, [], ◌∷◌,
  arith, if◌then◌else◌, ◌==◌, ==_eq, ==_refl, Bool-cases, inl, inr, mem, min, ◌+◌, ◌-◌,
}
use ram_ble.Setting.{Setting}
use ram_ble.DiscreteData.{is_independent, max_p_value, max_over, max_sizes, max_double, p_value}
use ram_ble.DiscreteData.Order.{p_value-less-highest}
use ram_ble.DirectLearning.{get_pc_scan, erase_each}

module _ (w : Setting) where
  open w use {
    Double, is_less, less_irrefl, less_trans, less_compare, Set, set_init, contains, elems, insert,
    erase, size, contains-insert, contains-erase, contains-set_init, contains-elems, num_vars,
    highest, lowest, less-lowest, subsets, alpha, max_conditioning,
  }

  pub contains-erase_each :
      (ys : List ℕ) (s : Set) (y : ℕ)
      → contains (erase_each w ys s) y ≡ (contains s y && not (mem y ys))
  unfolding erase_each
  contains-erase_each [] s y = ground arith
  contains-erase_each (z ∷ ys) s y =
      ground (arith, contains-erase_each ys (erase z s) y, contains-erase z s y)

  max_over-less-highest :
      (x y : ℕ) (cs : List Set) (m : Double)
      → is_less m highest ≡ true
      → is_less (max_over w alpha x y cs m) highest ≡ true
  unfolding max_over max_double
  max_over-less-highest x y [] m h = h
  max_over-less-highest x y (c ∷ cs) m h = ground (
    arith,
    p_value-less-highest w x y c,
    max_over-less-highest x y cs (max_double w (p_value w x y c) m),
  )

  max_sizes-less-highest :
      (x y rounds i : ℕ) (given : Set) (m : Double)
      → is_less m highest ≡ true
      → is_less (max_sizes w alpha x y rounds i given m) highest ≡ true
  unfolding max_sizes
  max_sizes-less-highest x y zero i given m h = h
  max_sizes-less-highest x y (suc rounds) i given m h =
      let m' = max_over w alpha x y (subsets given i) m in
      ground (
        arith,
        max_sizes-less-highest x y rounds (i + 1) given m',
        max_over-less-highest x y (subsets given i) m,
      )

  -- The greatest p-value of a candidate y, given subsets of cpc.
  abbrev pub pv : ℕ → Set → ℕ → Double
  pv target cpc y = max_p_value w alpha target y cpc max_conditioning 0

  pv-less-highest : (target : ℕ) (cpc : Set) (y : ℕ) → is_less (pv target cpc y) highest ≡ true
  unfolding max_p_value
  pv-less-highest target cpc y =
      let p = p_value w target y cpc in
      max_sizes-less-highest target y (min (size cpc) max_conditioning + 1 - 0) 0 cpc lowest (
        ground (
          arith,
          p_value-less-highest w target y cpc,
          less_compare p lowest highest,
          less-lowest p,
        ))

  abbrev pub rejects : ℕ → Set → ℕ → Bool
  rejects target cpc y = is_independent w alpha (pv target cpc y)

  scan_rejected :
      (target : ℕ) (cpc : Set) (y : ℕ) (ys : List ℕ) (best : ℕ × Double) (remove : Set)
      → rejects target cpc y ≡ true
      → get_pc_scan w target cpc (y ∷ ys) (best, remove)
        ≡ get_pc_scan w target cpc ys (best, insert y remove)
  unfolding get_pc_scan
  scan_rejected target cpc y ys best remove e = rw e refl

  scan_kept :
      (target : ℕ) (cpc : Set) (y : ℕ) (ys : List ℕ) (best : ℕ × Double) (remove : Set) (b : Bool)
      → rejects target cpc y ≡ false
      → is_less (pv target cpc y) best.1 ≡ b
      → get_pc_scan w target cpc (y ∷ ys) (best, remove)
        ≡ get_pc_scan w target cpc ys ((if b then (y, pv target cpc y) else best), remove)
  unfolding get_pc_scan
  scan_kept target cpc y ys best remove true e f = rw (e, f) refl
  scan_kept target cpc y ys best remove false e f = rw (e, f) refl

  pub removed_lem :
      (target : ℕ) (cpc : Set) (ys : List ℕ) (best : ℕ × Double) (remove : Set) (z : ℕ)
      → contains (get_pc_scan w target cpc ys (best, remove)).1 z
        ≡ (contains remove z || (mem z ys && rejects target cpc z))
  unfolding get_pc_scan
  removed_lem target cpc [] best remove z = ground arith
  removed_lem target cpc (y ∷ ys) best remove z =
      let same : (z == y) ≡ true → rejects target cpc z ≡ rejects target cpc y =
        λ e. ap (rejects target cpc) (==_eq z y e) in
      elim (Bool-cases (rejects target cpc y)) [
        | inl e ↦
            ap (λ st. contains st.1 z) (scan_rejected target cpc y ys best remove e)
            ∙ ground (
              arith,
              removed_lem target cpc ys best (insert y remove) z,
              contains-insert y remove z,
              same,
            )
        | inr e ↦
            let b = is_less (pv target cpc y) best.1 in
            ap (λ st. contains st.1 z) (scan_kept target cpc y ys best remove b e refl)
            ∙ ground (
              arith,
              removed_lem target cpc ys (if b then (y, pv target cpc y) else best) remove z,
              same,
            )
      ]

  -- A candidate that stays.
  abbrev pub Stays : ℕ → Set → Set → ℕ → Type 0
  Stays target cpc candidates x = (contains candidates x ≡ true) × (rejects target cpc x ≡ false)

  Stays-scan :
      (target : ℕ) (cpc candidates : Set) (ys : List ℕ) (best : ℕ × Double) (remove : Set)
      → ((y : ℕ) → mem y ys ≡ true → contains candidates y ≡ true)
      → Stays target cpc candidates best.0
      → Stays target cpc candidates (get_pc_scan w target cpc ys (best, remove)).0.0
  unfolding get_pc_scan
  Stays-scan target cpc candidates [] best remove m s = s
  Stays-scan target cpc candidates (y ∷ ys) best remove m s =
      let tail : (z : ℕ) → mem z ys ≡ true → contains candidates z ≡ true =
        λ z h. m z (ground arith) in
      elim (Bool-cases (rejects target cpc y)) [
        | inl e ↦
            subst (λ st. Stays target cpc candidates st.0.0)
              (sym (scan_rejected target cpc y ys best remove e))
              (Stays-scan target cpc candidates ys best (insert y remove) tail s)
        | inr e ↦
            let b = is_less (pv target cpc y) best.1 in
            subst (λ st. Stays target cpc candidates st.0.0)
              (sym (scan_kept target cpc y ys best remove b e refl))
              (Stays-scan target cpc candidates ys (if b then (y, pv target cpc y) else best) remove
                tail (either b y best (m y (ground (arith, ==_refl y)), e) s))
      ]
    where
      either :
          (b : Bool) (y : ℕ) (best : ℕ × Double)
          → Stays target cpc candidates y
          → Stays target cpc candidates best.0
          → Stays target cpc candidates ((if b then (y, pv target cpc y) else best)).0
      either true y best s t = s
      either false y best s t = t

  -- If some candidate stays, then one that stays is picked.
  pub Stays-picked :
      (target : ℕ) (cpc candidates : Set) (ys : List ℕ) (remove : Set) (z : ℕ)
      → ((y : ℕ) → mem y ys ≡ true → contains candidates y ≡ true)
      → mem z ys ≡ true
      → rejects target cpc z ≡ false
      → Stays target cpc candidates (get_pc_scan w target cpc ys ((num_vars, highest), remove)).0.0
  Stays-picked target cpc candidates [] remove z m h r = absurd (ground arith)
  Stays-picked target cpc candidates (y ∷ ys) remove z m h r =
      let start : ℕ × Double = (num_vars, highest) in
      let tail : (u : ℕ) → mem u ys ≡ true → contains candidates u ≡ true =
        λ u k. m u (ground arith) in
      elim (Bool-cases (rejects target cpc y)) [
        | inl e ↦
            let same : (z == y) ≡ true → rejects target cpc z ≡ rejects target cpc y =
              λ f. ap (rejects target cpc) (==_eq z y f) in
            subst (λ st. Stays target cpc candidates st.0.0)
              (sym (scan_rejected target cpc y ys start remove e))
              (Stays-picked target cpc candidates ys (insert y remove) z tail (ground (arith, same))
                r)
        | inr e ↦
            subst (λ st. Stays target cpc candidates st.0.0)
              (sym (scan_kept target cpc y ys start remove true e (pv-less-highest target cpc y)))
              (Stays-scan target cpc candidates ys (y, pv target cpc y) remove tail
                (m y (ground (arith, ==_refl y)), e))
      ]
