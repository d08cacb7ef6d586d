-- ===== src/Graphs/Walks.antt =====
-- Walks along the edges that pass a test, and what one new edge adds to them.
use ram_ble.Base.{ℕ, ◌≡◌, ◌⊎◌, inl, inr, sym, subst, Bool, true}
use ram_ble.Graphs.{Walk, one, more}

pub Walk-trans : {e : ℕ → ℕ → Bool} {x y z : ℕ} → Walk e x y → Walk e y z → Walk e x z
Walk-trans (one h) t = more h t
Walk-trans (more h s) t = more h (Walk-trans s t)

pub Walk-map :
    (e f : ℕ → ℕ → Bool)
    → ((x y : ℕ) → e x y ≡ true → f x y ≡ true)
    → {x y : ℕ} → Walk e x y
    → Walk f x y
Walk-map e f k (one {x} {y} h) = one (k x y h)
Walk-map e f k (more {x} {y} h t) = more (k x y h) (Walk-map e f k t)

-- A walk along the edges of a test that differs in one edge stays within the old test, or passes
-- through the source of that edge.
module _ (e f : ℕ → ℕ → Bool) (a b : ℕ)
    (new : (x y : ℕ) → f x y ≡ true → (e x y ≡ true) ⊎ ((x ≡ a) × (y ≡ b))) where
  abbrev Passes : ℕ → ℕ → Type 0
  Passes x y = ((x ≡ a) ⊎ Walk f x a) × ((b ≡ y) ⊎ Walk f b y)

  Walk-split : {x y : ℕ} → Walk f x y → Walk e x y ⊎ Passes x y
  Walk-split (one {x} {y} h) = elim (new x y h) [
    | inl k ↦ inl (one k)
    | inr (p, q) ↦ inr (inl p, inl (sym q))
  ]
  Walk-split (more {x} {y} {z} h t) = elim (new x y h) [
    | inl k ↦ elim (Walk-split t) [
      | inl s ↦ inl (more k s)
      | inr (inl p, q) ↦ inr (inr (subst (λ v. Walk f x v) p (one h)), q)
      | inr (inr p, q) ↦ inr (inr (more h p), q)
    ]
    | inr (p, q) ↦ inr (inl p, inr (subst (λ v. Walk f v z) q t))
  ]

  -- A closed walk is one of the old test, or the new edge closes one at its target.
  pub closed-Walk : f a b ≡ true → {v : ℕ} → Walk f v v → Walk e v v ⊎ Walk f b b
  closed-Walk ab {v} w = elim (Walk-split w) [
    | inl old ↦ inl old
    | inr (to_a, from_b) ↦
        let end : (x : ℕ) → ((x ≡ a) ⊎ Walk f x a) → Walk f x b = λ x c. elim c [
          | inl p ↦ subst (λ u. Walk f u b) (sym p) (one ab)
          | inr t ↦ Walk-trans t (one ab)
        ] in
        inr (elim from_b [
          | inl p ↦ subst (λ u. Walk f u b) (sym p) (end v to_a)
          | inr t ↦ Walk-trans t (end v to_a)
        ])
  ]
