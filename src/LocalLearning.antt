-- ===== src/LocalLearning.antt =====
-- LocalLearning.hpp and detail/LocalLearning.hpp: the caches of candidate sets and their symmetry
-- correction, getPC and getMB. `none` is the std::out_of_range that .at() throws.
pub mod Invariant
pub mod Correction
pub mod Symmetric
pub mod Skeleton
pub mod Recall
use ram_ble.Base.{
  ℕ, zero, suc, ◌+◌, Bool, true, false, not, List, [], ◌∷◌, Option, none, some, if◌then◌else◌, ◌==◌,
}
use ram_ble.Setting.{Setting}

-- unordered_map[t] = v
abbrev pub update {ℓ} : {A : Type ℓ} → (ℕ → Option A) → ℕ → A → ℕ → Option A
update f t v u = if u == t then some v else f u

module _ (w : Setting) where
  open w use {Set, set_init, contains, elems, insert, erase, num_vars}

  insert_below : ℕ → Set
  insert_below zero = set_init num_vars
  insert_below (suc i) = insert i (insert_below i)

  -- m_allVars, as the constructor of ConstraintBasedLearning fills it
  unfoldable pub all_vars : Set
  unfolding insert_below
  all_vars = insert_below num_vars

  unfoldable pub get_candidates : ℕ → Set
  get_candidates target = erase target all_vars

  -- m_cachedPC with m_cachedPCSymmetric, or m_cachedMB with m_cachedMBSymmetric
  pub record Cache : Type 0 where
    pub cached : ℕ → Option Set
    pub symmetric : ℕ → Option Bool

  abbrev pub empty_cache : Cache
  empty_cache = record { cached = λ _. none; symmetric = λ _. none }

  -- The state: one cache, and the rest R on which the virtual candidate function works.
  module _ (R : Type 0) (candidate : ℕ → Set → R → Option (Set × R)) where
    abbrev pub State : Type 0
    State = Cache × R

    -- getCandidatePC_cache
    unfoldable pub get_candidate_cache : ℕ → Set → State → Option (Set × State)
    get_candidate_cache target candidates (c, r) = elim (c.cached target) [
      | some s ↦ some (s, (c, r))
      | none ↦ elim (candidate target candidates r) [
        | none ↦ none
        | some (s, r') ↦ some (
          s,
          (
            record {
              cached = update c.cached target s;
              symmetric = update c.symmetric target false;
            },
            r',
          ),
        )
      ]
    ]

    -- cpc.erase(x), where cpc refers to the cached set of the target
    unfoldable pub erase_cached : ℕ → ℕ → State → State
    erase_cached target x (c, r) = elim (c.cached target) [
      | none ↦ (c, r)
      | some s ↦ (record c { cached = update c.cached target (erase x s) }, r)
    ]

    -- The loop of symmetryCorrectPC over the initial set.
    unfoldable pub symmetry_correct : ℕ → List ℕ → State → Option State
    unfolding get_candidate_cache erase_cached
    symmetry_correct target [] st = some st
    symmetry_correct target (x ∷ xs) st = elim (get_candidate_cache x (get_candidates x) st) [
      | none ↦ none
      | some (cpc_x, st') ↦
          symmetry_correct target xs
            (if contains cpc_x target then st' else erase_cached target x st')
    ]

    -- getPC after the look-up of the candidate set s
    unfoldable pub finish : ℕ → Set → State → Option (Set × State)
    unfolding symmetry_correct
    finish target s (c, r) = elim (c.symmetric target) [
      | none ↦ none
      | some true ↦ some (s, (c, r))
      | some false ↦ elim (symmetry_correct target (elems s) (c, r)) [
        | none ↦ none
        | some (c', r') ↦ elim (c'.cached target) [
          | none ↦ none
          | some s' ↦ some (s', (record c' { symmetric = update c'.symmetric target true }, r'))
        ]
      ]
    ]

    -- getPC
    unfoldable pub get_corrected : ℕ → State → Option (Set × State)
    unfolding finish get_candidate_cache
    get_corrected target st = elim (get_candidate_cache target (get_candidates target) st) [
      | none ↦ none
      | some (s, st') ↦ finish target s st'
    ]
