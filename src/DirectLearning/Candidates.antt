-- ===== src/DirectLearning/Candidates.antt =====
-- getCandidatePC of the direct learners: the candidate function of LocalLearning, which also caches
-- its results before they are corrected.
use ram_ble.Base.{
  true, any, not, ◌||◌, ℕ, ◌≡◌, refl, sym, false, ◌&&◌, List, Option, none, some, arith, ◌==◌,
  ==_eq, ==_refl, Bool-cases, inl, inr,
}
use ram_ble.Setting.{Setting}
use ram_ble.Setting.Facts.{Within}
use ram_ble.LocalLearning.{Cache, empty_cache, update, all_vars, get_candidates, get_corrected}
use ram_ble.LocalLearning.Invariant.{CandidateSpec, corrected, contains-corrected}
use ram_ble.LocalLearning.Correction.{get_corrected_lem}
use ram_ble.LocalLearning.Symmetric.{calls, empty_cache-IsValid}
use ram_ble.LocalLearning.Recall.{
  Recorder, empty_cache-Recalls, calls-Recalls, get_corrected-Recalls,
}
use ram_ble.DirectLearning.Blankets.{get_mb_superset}
use ram_ble.DirectLearning.Blankets.Members.{get_mb_superset_members}

-- `implementation` is the virtual getCandidatePC_impl.
module _ (w : Setting) (implementation : ℕ → w.Set → Option w.Set) where
  open w use {Set, contains, elems, contains-erase}

  -- getCandidatePC, on m_cachedCandidatePC
  unfoldable pub cache_candidate_pc : ℕ → Set → (ℕ → Option Set) → Option (Set × (ℕ → Option Set))
  cache_candidate_pc target candidates cached = elim (implementation target candidates) [
    | none ↦ none
    | some cpc ↦ some (cpc, update cached target cpc)
  ]

  abbrev pub Returns : Type 0
  Returns = (t : ℕ) (s : Set) → (cpc : Set) × (implementation t s ≡ some cpc) × Within w cpc s

  module _ (returns : Returns) where
    abbrev pub cand_of : ℕ → Set
    cand_of t = (returns t (get_candidates w t)).0

    -- What is cached is the set before its correction.
    abbrev pub HoldsCandidates : (ℕ → Option Set) → Type 0
    HoldsCandidates cached = (u : ℕ) (s : Set) → cached u ≡ some s → s ≡ cand_of u

    pub cache_candidate_pc_lem :
        (t : ℕ) (cached : ℕ → Option Set)
        → HoldsCandidates cached
        → (cached' : ℕ → Option Set) × (cache_candidate_pc t (get_candidates w t) cached
            ≡ some (cand_of t, cached'))
          × HoldsCandidates cached'
    unfolding cache_candidate_pc
    cache_candidate_pc_lem t cached h =
        let (cpc, runs, _) = returns t (get_candidates w t) in
        (
          update cached t cpc,
          rw (runs, cache_candidate_pc) refl,
          λ u s e. elim (Bool-cases (u == t)) [
            | inl f ↦ let q : cand_of t ≡ s = ground arith in rw (==_eq u t f) (sym q)
            | inr f ↦ h u s (ground arith)
          ],
        )

    pub cand_of-no_self : (t : ℕ) → contains (cand_of t) t ≡ false
    unfolding get_candidates
    cand_of-no_self t =
        let (cpc, _, inside) = returns t (get_candidates w t) in
        ground (arith, inside t, contains-erase t (all_vars w) t, ==_refl t)

    abbrev pub candidates : CandidateSpec w (ℕ → Option Set) cache_candidate_pc
    candidates = record {
      cand = cand_of;
      Ok = HoldsCandidates;
      computes = cache_candidate_pc_lem;
      no_self = cand_of-no_self;
    }

    -- The call for t leaves its result in the cache, and those of the other calls.
    cache_candidate_pc-holds :
        (t : ℕ) (cached : ℕ → Option Set)
        → (s : Set) × (cached' : ℕ → Option Set) × (cache_candidate_pc t (get_candidates w t) cached
            ≡ some (s, cached'))
          × (cached' t ≡ some (cand_of t))
          × ((u : ℕ) → cached u ≡ some (cand_of u) → cached' u ≡ some (cand_of u))
    unfolding cache_candidate_pc
    cache_candidate_pc-holds t cached =
        let (cpc, runs, _) = returns t (get_candidates w t) in
        (
          cpc,
          update cached t cpc,
          rw (runs, cache_candidate_pc) refl,
          ground (arith, ==_refl t),
          λ u seen. elim (Bool-cases (u == t)) [
            | inl f ↦ rw (==_eq u t f) (ground (arith, ==_refl t))
            | inr f ↦ ground arith
          ],
        )

    abbrev recorder : Recorder w (ℕ → Option Set) cache_candidate_pc
    recorder = record {
      Seen = λ u cached. cached u ≡ some (cand_of u);
      records = cache_candidate_pc-holds;
    }

    -- getPC of a direct learner whose getCandidatePC_impl returns a subset of the candidates: any
    -- sequence of calls from empty caches goes through, and the next call returns the variables
    -- that are in the candidate set of the target and have the target in theirs. After it
    -- m_cachedCandidatePC holds no set but candidate sets before their correction, and it holds
    -- that of the target and those of all candidates of the target; so getMBSuperset of the target
    -- returns the set of the variables, the target excepted, that are in one of these.
    pub candidates_cached :
        (ts : List ℕ) (t : ℕ)
        → (c : Cache w) × (cached : ℕ → Option Set) × (s : Set) × (c' : Cache w) × (cached' : ℕ
            → Option Set)
          × (calls w (ℕ → Option Set) cache_candidate_pc ts (empty_cache w, λ _. none)
              ≡ some (c, cached))
          × (get_corrected w (ℕ → Option Set) cache_candidate_pc t (c, cached)
              ≡ some (s, (c', cached')))
          × ((y : ℕ) → contains s y ≡ (contains (cand_of t) y && contains (cand_of y) t))
          × HoldsCandidates cached'
          × (cached' t ≡ some (cand_of t))
          × ((y : ℕ) → contains (cand_of t) y ≡ true → cached' y ≡ some (cand_of y))
          × ((x : ℕ)
              → (m : Set) × (get_mb_superset w t cached' ≡ some m)
                × (contains m x ≡ (
                    not (x == t)
                    && (contains (cand_of t) x
                        || any (λ y. contains (cand_of y) x) (elems (cand_of t))))))
    candidates_cached ts t =
        let start : ℕ → Option Set = λ _. none in
        let fresh : HoldsCandidates start = λ u s e. absurd (ground arith) in
        let R = ℕ → Option Set in
        let (c, cached, runs, v, k) =
          calls-Recalls w R cache_candidate_pc candidates recorder ts (empty_cache w) start
            (empty_cache-IsValid w R cache_candidate_pc candidates start fresh)
            (empty_cache-Recalls w R cache_candidate_pc candidates recorder start) in
        let (c1, cached1, e, v1) =
          get_corrected_lem w R cache_candidate_pc candidates t c cached v in
        let (s2, c2, cached2, e', _, here, members) =
          get_corrected-Recalls w R cache_candidate_pc candidates recorder t c cached v k in
        let same : cached1 ≡ cached2 = cc in
        (
          c,
          cached,
          corrected w R cache_candidate_pc candidates t,
          c1,
          cached1,
          runs,
          e,
          contains-corrected w R cache_candidate_pc candidates t,
          v1.rest,
          rw same here,
          rw same members,
          λ x. rw same (get_mb_superset_members w t x cached2 cand_of here members),
        )
