-- ===== src/LocalLearning/Recall.antt =====
-- What the virtual candidate function records of its calls, and which of the records getPC and
-- getMB rely on: that of the target, and those of the members of its candidate set.
use ram_ble.Base.{
  ℕ, ◌≡◌, inl, inr, refl, ap, ◌∙◌, Bool, true, false, List, [], ◌∷◌, Option, none, some, arith,
  ◌==◌, ==_eq, ==_refl, Bool-cases, Option-cases, mem,
}
use ram_ble.Setting.{Setting}
use ram_ble.LocalLearning.{
  Cache, empty_cache, update, get_candidates, get_candidate_cache, erase_cached, symmetry_correct,
  finish, get_corrected,
}
use ram_ble.LocalLearning.Invariant.{CandidateSpec, lookup_lem}
use ram_ble.LocalLearning.Correction.{IsValid, get_corrected_lem}
use ram_ble.LocalLearning.Symmetric.{calls}

-- A candidate function that always returns, and after which the state has seen the target.
pub record Recorder (w : Setting) (R : Type 0) (candidate : ℕ → w.Set → R → Option (w.Set × R))
    : Type 1 where
  pub Seen : ℕ → R → Type 0
  pub records :
      (t : ℕ) (r : R)
      → (s : w.Set) × (r' : R) × (candidate t (get_candidates w t) r ≡ some (s, r'))
        × Seen t r'
        × ((u : ℕ) → Seen u r → Seen u r')

module _ (w : Setting) (R : Type 0) (candidate : ℕ → w.Set → R → Option (w.Set × R))
    (spec : CandidateSpec w R candidate) (recorder : Recorder w R candidate) where
  open w use {Set, contains, elems, erase, contains-elems}
  open spec use {cand}
  open recorder use {Seen, records}

  -- Every entry is marked one way or the other, and was seen; so were the candidates of a
  -- corrected one.
  pub record Recalls (c : Cache w) (r : R) : Type 0 where
    pub marked : (u : ℕ) (s : Set) → c.cached u ≡ some s → (b : Bool) × (c.symmetric u ≡ some b)
    pub held : (u : ℕ) (s : Set) → c.cached u ≡ some s → Seen u r
    pub partners :
        (u : ℕ) → c.symmetric u ≡ some true → (y : ℕ) → contains (cand u) y ≡ true → Seen y r

  -- There is an entry of t.
  abbrev Present : ℕ → Cache w → Type 0
  Present t c = (s : Set) × (c.cached t ≡ some s)

  -- From c and r to c' and r', nothing seen is forgotten, and no entry changes.
  record Step (c : Cache w) (r : R) (c' : Cache w) (r' : R) : Type 0 where
    recalls : Recalls c' r'
    grows : (u : ℕ) → Seen u r → Seen u r'
    stays : (u : ℕ) (s : Set) → c.cached u ≡ some s → c'.cached u ≡ some s

  -- A new entry.
  Recalls-add :
      (x : ℕ) (s : Set) (c : Cache w) (r r' : R)
      → Recalls c r
      → Seen x r'
      → ((u : ℕ) → Seen u r → Seen u r')
      → Recalls (record { cached = update c.cached x s; symmetric = update c.symmetric x false }) r'
  Recalls-add x s c r r' k seen grows = record {
    marked = λ u s' q. elim (Bool-cases (u == x)) [
      | inl f ↦ (false, ground arith)
      | inr f ↦ let (b, m) = k.marked u s' (ground arith) in (b, ground arith)
    ];
    held = λ u s' q. elim (Bool-cases (u == x)) [
      | inl f ↦ rw (==_eq u x f) seen
      | inr f ↦ grows u (k.held u s' (ground arith))
    ];
    partners = λ u m y h. elim (Bool-cases (u == x)) [
      | inl f ↦ absurd (ground arith)
      | inr f ↦ grows y (k.partners u (ground arith) y h)
    ];
  }

  lookup-Step :
      (x : ℕ) (c : Cache w) (r : R)
      → Recalls c r
      → (s : Set) × (c' : Cache w) × (r' : R) × (get_candidate_cache w R candidate x
            (get_candidates w x)
            (c, r)
          ≡ some (s, (c', r')))
        × (c'.cached x ≡ some s)
        × Step c r c' r'
  unfolding get_candidate_cache
  lookup-Step x c r k = elim (Option-cases (c.cached x)) [
    | inr (s, e) ↦
        (s, c, r, rw e refl, e, record { recalls = k; grows = λ u q. q; stays = λ u s' q. q })
    | inl e ↦
        let (s, r', runs, seen, grows) = records x r in
        let c' : Cache w = record {
          cached = update c.cached x s;
          symmetric = update c.symmetric x false;
        } in
        (
          s,
          c',
          r',
          rw (e, get_candidate_cache) (rw (runs, get_candidate_cache) refl),
          ground (arith, ==_refl x),
          record {
            recalls = Recalls-add x s c r r' k seen grows;
            grows = grows;
            stays = λ u s' q. elim (Bool-cases (u == x)) [
              | inl f ↦ absurd (let gone : c.cached u ≡ none = rw (==_eq u x f) e in ground arith)
              | inr f ↦ ground arith
            ];
          },
        )
  ]

  erase_cached-Recalls :
      (t x : ℕ) (c : Cache w) (r : R)
      → Recalls c r
      → Present t c
      → (c' : Cache w) × (erase_cached w R candidate t x (c, r) ≡ (c', r))
        × Recalls c' r
        × Present t c'
  unfolding erase_cached
  erase_cached-Recalls t x c r k (s, e) =
      let c' : Cache w = record c { cached = update c.cached t (erase x s) } in
      (
        c',
        rw e refl,
        record {
          marked = λ u s' q. elim (Bool-cases (u == t)) [
            | inl f ↦ k.marked u s (rw (==_eq u t f) e)
            | inr f ↦ k.marked u s' (ground arith)
          ];
          held = λ u s' q. elim (Bool-cases (u == t)) [
            | inl f ↦ k.held u s (rw (==_eq u t f) e)
            | inr f ↦ k.held u s' (ground arith)
          ];
          partners = k.partners;
        },
        (erase x s, ground (arith, ==_refl t)),
      )

  -- After the loop, the variables of the list have been seen.
  correct-Recalls :
      (t : ℕ) (xs : List ℕ) (c : Cache w) (r : R)
      → Recalls c r
      → Present t c
      → (c' : Cache w) × (r' : R) × (symmetry_correct w R candidate t xs (c, r) ≡ some (c', r'))
        × Recalls c' r'
        × Present t c'
        × ((u : ℕ) → Seen u r → Seen u r')
        × ((y : ℕ) → mem y xs ≡ true → Seen y r')
  unfolding symmetry_correct
  correct-Recalls t [] c r k a = (c, r, refl, k, a, λ u q. q, λ y m. absurd (ground arith))
  correct-Recalls t (x ∷ xs) c r k (s0, e0) =
      let (sx, c1, r1, found, hx, step) = lookup-Step x c r k in
      let here : Seen x r1 = step.recalls.held x sx hx in
      let a1 : Present t c1 = (s0, step.stays t s0 e0) in
      elim (Bool-cases (contains sx t)) [
        | inl b ↦
            let (d, q, runs, kd, ad, grows, all) = correct-Recalls t xs c1 r1 step.recalls a1 in
            (
              d,
              q,
              rw (found, symmetry_correct) (rw b runs),
              kd,
              ad,
              λ u h. grows u (step.grows u h),
              λ y m. seen_first y x xs q (grows x here) all m,
            )
        | inr b ↦
            let (c2, gone, k2, a2) = erase_cached-Recalls t x c1 r1 step.recalls a1 in
            let (d, q, runs, kd, ad, grows, all) = correct-Recalls t xs c2 r1 k2 a2 in
            (
              d,
              q,
              rw (found, symmetry_correct) (rw b (rw gone runs)),
              kd,
              ad,
              λ u h. grows u (step.grows u h),
              λ y m. seen_first y x xs q (grows x here) all m,
            )
      ]
    where
      seen_first :
          (y x : ℕ) (xs : List ℕ) (q : R)
          → Seen x q
          → ((z : ℕ) → mem z xs ≡ true → Seen z q)
          → mem y (x ∷ xs) ≡ true
          → Seen y q
      seen_first y x xs q h all m = elim (Bool-cases (y == x)) [
        | inl f ↦ rw (==_eq y x f) h
        | inr f ↦ all y (ground arith)
      ]

  -- Marking an entry whose candidates were seen.
  Recalls-mark :
      (t : ℕ) (c : Cache w) (r : R)
      → Recalls c r
      → ((y : ℕ) → contains (cand t) y ≡ true → Seen y r)
      → Recalls (record c { symmetric = update c.symmetric t true }) r
  Recalls-mark t c r k members = record {
    marked = λ u s' q. elim (Bool-cases (u == t)) [
      | inl f ↦ (true, ground arith)
      | inr f ↦ let (b, n) = k.marked u s' q in (b, ground arith)
    ];
    held = k.held;
    partners = λ u n y h. elim (Bool-cases (u == t)) [
      | inl f ↦ let of_t : contains (cand t) y ≡ true = rw (← ==_eq u t f) h in members y of_t
      | inr f ↦ k.partners u (ground arith) y h
    ];
  }

  -- What the look-up of t finds is the candidate set, unless it is marked.
  found-cand :
      (t : ℕ) (c : Cache w) (r : R) (s : Set) (c1 : Cache w) (r1 : R)
      → IsValid w R candidate spec c r
      → get_candidate_cache w R candidate t (get_candidates w t) (c, r) ≡ some (s, (c1, r1))
      → c1.symmetric t ≡ some false
      → s ≡ cand t
  found-cand t c r s c1 r1 v found m =
      let (s', c', r', found', l) = lookup_lem w R candidate spec t c r (v.entries t) v.rest in
      let p : s ≡ s' = cc in
      let q : c1 ≡ c' = cc in
      elim l.entry [
        | inl (e, _) ↦ p ∙ e
        | inr (_, m') ↦ let m1 : c1.symmetric t ≡ some true = rw q m' in absurd (ground arith)
      ]

  -- getPC returns; the target has been seen, and so have the members of its candidate set.
  pub get_corrected-Recalls :
      (t : ℕ) (c : Cache w) (r : R)
      → IsValid w R candidate spec c r
      → Recalls c r
      → (s : Set) × (c' : Cache w) × (r' : R) × (get_corrected w R candidate t (c, r)
          ≡ some (s, (c', r')))
        × Recalls c' r'
        × Seen t r'
        × ((y : ℕ) → contains (cand t) y ≡ true → Seen y r')
  unfolding get_corrected finish
  get_corrected-Recalls t c r v k =
      let (s, c1, r1, found, e, step) = lookup-Step t c r k in
      let k1 = step.recalls in
      let (b, marked) = k1.marked t s e in
      elim (Bool-cases b) [
        | inl f ↦
            let m : c1.symmetric t ≡ some true = marked ∙ ap some f in
            (
              s,
              c1,
              r1,
              rw (found, get_corrected) (rw (m, finish) refl),
              k1,
              k1.held t s e,
              k1.partners t m,
            )
        | inr f ↦
            let m : c1.symmetric t ≡ some false = marked ∙ ap some f in
            let (c2, r2, runs, k2, (s2, e2), grows, all) =
              correct-Recalls t (elems s) c1 r1 k1 (s, e) in
            let same = found-cand t c r s c1 r1 v found m in
            let members : (y : ℕ) → contains (cand t) y ≡ true → Seen y r2 =
              λ y h. all y (contains-elems s y ∙ ap (λ z. contains z y) same ∙ h) in
            (
              s2,
              record c2 { symmetric = update c2.symmetric t true },
              r2,
              rw (found, get_corrected) (rw (m, finish) (rw (runs, finish) (rw (e2, finish) refl))),
              Recalls-mark t c2 r2 k2 members,
              grows t (k1.held t s e),
              members,
            )
      ]

  pub empty_cache-Recalls : (r : R) → Recalls (empty_cache w) r
  empty_cache-Recalls r = record {
    marked = λ u s q. absurd (ground arith);
    held = λ u s q. absurd (ground arith);
    partners = λ u m y h. absurd (ground arith);
  }

  -- getPC keeps both invariants.
  pub get_corrected-both :
      (t : ℕ) (c : Cache w) (r : R)
      → IsValid w R candidate spec c r
      → Recalls c r
      → (s : Set) × (c' : Cache w) × (r' : R) × (get_corrected w R candidate t (c, r)
          ≡ some (s, (c', r')))
        × IsValid w R candidate spec c' r'
        × Recalls c' r'
  get_corrected-both t c r v k =
      let (s, c1, r1, e, k1, _, _) = get_corrected-Recalls t c r v k in
      let (c2, r2, e', v2) = get_corrected_lem w R candidate spec t c r v in
      let p : c1 ≡ c2 = cc in let q : r1 ≡ r2 = cc in (s, c1, r1, e, rw (p, q) v2, k1)

  pub calls-Recalls :
      (ts : List ℕ) (c : Cache w) (r : R)
      → IsValid w R candidate spec c r
      → Recalls c r
      → (c' : Cache w) × (r' : R) × (calls w R candidate ts (c, r) ≡ some (c', r'))
        × IsValid w R candidate spec c' r'
        × Recalls c' r'
  unfolding calls
  calls-Recalls [] c r v k = (c, r, refl, v, k)
  calls-Recalls (t ∷ ts) c r v k =
      let (s, c1, r1, e, v1, k1) = get_corrected-both t c r v k in
      let (c2, r2, runs, v2, k2) = calls-Recalls ts c1 r1 v1 k1 in
      (c2, r2, rw (e, calls) runs, v2, k2)
