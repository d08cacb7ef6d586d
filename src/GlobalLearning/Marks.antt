-- ===== src/GlobalLearning/Marks.antt =====
-- checkEdge: the marks that it leaves.
use ram_ble.Base.{ℕ, ◌≡◌, ◌≢◌, refl, Bool, true, false, Option, some, arith, if◌then◌else◌, ==_refl}
use ram_ble.Setting.{Setting}
use ram_ble.LocalLearning.{update}
use ram_ble.GlobalLearning.{edge_test, check_edge, finish_edge, mark_both, mark}

module _ (w : Setting) where
  open w use {Double, Set, insert}

  mark_lem :
      (x y : ℕ) (removed : ℕ → Option Set) (rx : Set)
      → removed x ≡ some rx
      → mark w x y removed ≡ some (update removed x (insert y rx))
  unfolding mark
  mark_lem x y removed rx e = rw (e, mark) refl

  pub mark_both_lem :
      (x y : ℕ) (removed : ℕ → Option Set) (rx ry : Set)
      → x ≢ y
      → removed x ≡ some rx
      → removed y ≡ some ry
      → mark_both w x y removed ≡ some (update (update removed x (insert y rx)) y (insert x ry))
  unfolding mark_both
  mark_both_lem x y removed rx ry ne ex ey =
      let removed' = update removed x (insert y rx) in
      let kept : removed' y ≡ some ry = ground arith in
      rw (mark_lem x y removed rx ex, mark_both) (mark_lem y x removed' ry kept)

  finish_edge_lem :
      (x y : ℕ) (best : Double × Set) (b : Bool) (removed : ℕ → Option Set) (rx ry : Set)
      → x ≢ y
      → removed x ≡ some rx
      → removed y ≡ some ry
      → (removed' : ℕ → Option Set) × (finish_edge w x y (best, b) removed ≡ some (best, removed'))
        × (removed' x ≡ some (if b then insert y rx else rx))
        × (removed' y ≡ some (if b then insert x ry else ry))
  unfolding finish_edge
  finish_edge_lem x y best true removed rx ry ne ex ey = (
    update (update removed x (insert y rx)) y (insert x ry),
    rw (mark_both_lem x y removed rx ry ne ex ey, finish_edge) refl,
    ground (arith, ==_refl x),
    ground (arith, ==_refl y),
  )
  finish_edge_lem x y best false removed rx ry ne ex ey = (removed, refl, ex, ey)

  -- checkEdge, where .at() finds all four sets of two variables: it returns the p-value and the
  -- set of its test, and each of the two variables is added to the removed neighbors of the other
  -- when the test says that the edge is to be removed, and is not added otherwise.
  pub check_edge_marks :
      (x y : ℕ) (all removed : ℕ → Option Set) (nx ny rx ry : Set) (n : ℕ) (back : Bool)
      → x ≢ y
      → all x ≡ some nx
      → all y ≡ some ny
      → removed x ≡ some rx
      → removed y ≡ some ry
      → let test = edge_test w x y nx ny n back in
        (removed' : ℕ → Option Set) × (check_edge w x y all removed n back
          ≡ some (test.0, removed'))
        × (removed' x ≡ some (if test.1 then insert y rx else rx))
        × (removed' y ≡ some (if test.1 then insert x ry else ry))
  unfolding check_edge
  check_edge_marks x y all removed nx ny rx ry n back ne hx hy kx ky =
      let test = edge_test w x y nx ny n back in
      let (removed', runs, fx, fy) = finish_edge_lem x y test.0 test.1 removed rx ry ne kx ky in
      (removed', rw (hx, check_edge) (rw (hy, check_edge) runs), fx, fy)
