-- ===== src/LocalLearning/Symmetric.antt =====
-- What callers of getPC and getMB rely on: the answer is the same after any earlier calls, and the
-- relation that it defines is symmetric.
use ram_ble.Base.{ℕ, ◌≡◌, refl, ◌&&◌, List, [], ◌∷◌, Option, none, some, arith, inl}
use ram_ble.Setting.{Setting}
use ram_ble.LocalLearning.{Cache, empty_cache, get_corrected}
use ram_ble.LocalLearning.Invariant.{CandidateSpec, corrected, contains-corrected}
use ram_ble.LocalLearning.Correction.{IsValid, get_corrected_lem}

module _ (w : Setting) (R : Type 0) (candidate : ℕ → w.Set → R → Option (w.Set × R)) where
  open w use {Set, contains}

  -- A sequence of calls of getPC, whose results are dropped.
  unfoldable pub calls : List ℕ → Cache w × R → Option (Cache w × R)
  calls [] st = some st
  calls (t ∷ ts) st = elim (get_corrected w R candidate t st) [
    | none ↦ none
    | some (_, st') ↦ calls ts st'
  ]

  module _ (spec : CandidateSpec w R candidate) where
    open spec use {cand, Ok}

    pub empty_cache-IsValid : (r : R) → Ok r → IsValid w R candidate spec (empty_cache w) r
    empty_cache-IsValid r h = record { entries = λ u. inl (refl, refl); rest = h }

    pub calls-IsValid :
        (ts : List ℕ) (c : Cache w) (r : R)
        → IsValid w R candidate spec c r
        → (c' : Cache w) × (r' : R) × (calls ts (c, r) ≡ some (c', r'))
          × IsValid w R candidate spec c' r'
    unfolding calls
    calls-IsValid [] c r v = (c, r, refl, v)
    calls-IsValid (t ∷ ts) c r v =
        let (c1, r1, e, v1) = get_corrected_lem w R candidate spec t c r v in
        let (c2, r2, runs, v2) = calls-IsValid ts c1 r1 v1 in (c2, r2, rw (e, calls) runs, v2)

    -- getPC (getMB): started from empty caches and a state that the candidate function accepts,
    -- any sequence of earlier calls goes through, and
    -- the call for a target then returns the set of those members of its candidate set whose own
    -- candidate set has the target.
    pub get_corrected_after :
        (ts : List ℕ) (t : ℕ) (r : R)
        → Ok r
        → (st : Cache w × R) × (s : Set) × (end : Cache w × R) × (calls ts (empty_cache w, r)
            ≡ some st)
          × (get_corrected w R candidate t st ≡ some (s, end))
          × ((y : ℕ) → contains s y ≡ (contains (cand t) y && contains (cand y) t))
    get_corrected_after ts t r h =
        let (c1, r1, runs, v1) = calls-IsValid ts (empty_cache w) r (empty_cache-IsValid r h) in
        let (c2, r2, e, v2) = get_corrected_lem w R candidate spec t c1 r1 v1 in
        (
          (c1, r1),
          corrected w R candidate spec t,
          (c2, r2),
          runs,
          e,
          contains-corrected w R candidate spec t,
        )

    -- Sets that getPC (getMB) returns for x and for y, in whatever valid states of the caches, are
    -- symmetric: the first has y exactly when the second has x.
    pub get_corrected_symmetric :
        (x y : ℕ) (c d : Cache w) (r q : R) (s s' : Set) (st st' : Cache w × R)
        → IsValid w R candidate spec c r
        → IsValid w R candidate spec d q
        → get_corrected w R candidate x (c, r) ≡ some (s, st)
        → get_corrected w R candidate y (d, q) ≡ some (s', st')
        → contains s y ≡ contains s' x
    get_corrected_symmetric x y c d r q s s' st st' v v' e e' =
        let (_, _, f, _) = get_corrected_lem w R candidate spec x c r v in
        let (_, _, f', _) = get_corrected_lem w R candidate spec y d q v' in
        let p : s ≡ corrected w R candidate spec x = cc in
        let p' : s' ≡ corrected w R candidate spec y = cc in
        rw (p, p')
          (ground (
            arith,
            contains-corrected w R candidate spec x y,
            contains-corrected w R candidate spec y x,
          ))
