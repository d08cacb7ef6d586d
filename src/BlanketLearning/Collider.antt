-- ===== src/BlanketLearning/Collider.antt =====
-- checkCollider of BlanketLearning: y - x - z is a collider unless a set that has x separates y
-- from z.
use ram_ble.Base.{ℕ, ◌≡◌, ◌↔◌, false, arith, if◌then◌else◌, ltb}
use ram_ble.Setting.{Setting}
use ram_ble.DiscreteData.{is_independent_any_seeded}
use ram_ble.DiscreteData.Seeded.{SeparatesWith, any_seeded_iff}
use ram_ble.BlanketLearning.{check_collider}

module _ (w : Setting) where
  open w use {
    Set, set_init, contains, insert, erase, size, contains-erase, alpha, num_vars, max_conditioning,
  }

  -- A blanket without x and the other end.
  abbrev pub others : ℕ → ℕ → Set → Set
  others x z mb = erase x (if contains mb z then erase z mb else mb)

  -- The smaller of the two blankets, without the three variables.
  abbrev pub smaller : ℕ → ℕ → ℕ → Set → Set → Set
  smaller y x z mb_y mb_z =
      if ltb (size (others x z mb_y)) (size (others x y mb_z))
      then others x z mb_y
      else others x y mb_z

  -- checkCollider denies the collider y -> x <- z exactly when some subset, of at most
  -- maxConditioning variables, of the smaller of the two blankets without the three variables
  -- separates y from z together with x; of two sets of the same size, it is that of z.
  pub check_collider_iff :
      (y x z : ℕ) (mb_y mb_z : Set)
      → ((check_collider w y x z mb_y mb_z).0 ≡ false) ↔ (
          (c : Set) × SeparatesWith w alpha y z
            (insert x (set_init num_vars))
            (smaller y x z mb_y mb_z)
            max_conditioning
            c)
  unfolding check_collider is_independent_any_seeded
  check_collider_iff y x z mb_y mb_z =
      let (to, from) =
        any_seeded_iff w alpha y z (insert x (set_init num_vars)) (smaller y x z mb_y mb_z)
          max_conditioning in
      (λ h. to (ground arith), λ s. let found = from s in ground arith)
