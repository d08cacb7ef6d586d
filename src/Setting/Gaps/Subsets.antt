-- ===== src/Setting/Gaps/Subsets.antt =====
-- `subsets s k` lists the subsets of s with k members, each of them.
use ram_ble.Base.{
  ℕ, zero, suc, ◌+◌, ◌-◌, ◌<◌, ◌≡◌, refl, ap, true, List, [], ◌∷◌, map, arith, length, any,
  any-append, Bool-cases, ◌⊎◌, inl, inr, ◌∙◌, sym,
}
use ram_ble.Setting.Gaps.{Gaps, contains, shift, eq, subsets}
use ram_ble.Setting.Gaps.Laws.{
  Within, any-map, any-witness, eq_iff, contains-shift, contains-cons_above, contains-cons_head,
  le_of_contains,
}

length-shift : (k : ℕ) (s : Gaps) → length (shift k s) ≡ length s
unfolding shift
length-shift k [] = refl
length-shift k (g ∷ gs) = refl

Within-cons : (g : ℕ) (c gs : Gaps) → Within c gs → Within (g ∷ c) (g ∷ gs)
unfolding contains
Within-cons g c gs h x = ground (arith, h (x - g - 1))

Within-shift : (g : ℕ) (c gs : Gaps) → Within c gs → Within (shift (g + 1) c) (g ∷ gs)
unfolding contains
Within-shift g c gs h x m =
    let e : x - (g + 1) ≡ x - g - 1 = omega arith in
    ground (arith, contains-shift (g + 1) c x, h (x - g - 1), ap (contains c) e)

no-contains : (x : ℕ) → ¬ (contains [] x ≡ true)
unfolding contains
no-contains x m = cc

pub within :
    (s : Gaps) (k : ℕ) (c : Gaps) → any (eq c) (subsets s k) ≡ true → Within c s × (length c ≡ k)
unfolding subsets
within s zero c h =
    let e : c ≡ [] = ground (arith, eq_iff c []) in rw e (λ x m. absurd (no-contains x m), refl)
within [] (suc k) c h = cc
within (g ∷ gs) (suc k) c h = elim (Bool-cases (any (eq c) (map (λ d. g ∷ d) (subsets gs k)))) [
  | inl e ↦
      let (d, p, m) =
        any-witness (λ d. eq c (g ∷ d)) (subsets gs k)
          (sym (any-map (eq c) (λ d. g ∷ d) (subsets gs k)) ∙ e) in
      let (w, n) = within gs k d m in rw ((eq_iff c (g ∷ d)).0 p) (Within-cons g d gs w, ap suc n)
  | inr e ↦
      let (d, p, m) =
        any-witness (λ d. eq c (shift (g + 1) d)) (subsets gs (suc k))
          (sym (any-map (eq c) (shift (g + 1)) (subsets gs (suc k)))
            ∙ ground (
              arith,
              any-append (eq c) (map (λ d. g ∷ d) (subsets gs k))
                  (map (shift (g + 1)) (subsets gs (suc k))),
            )) in
      let (w, n) = within gs (suc k) d m in
      rw ((eq_iff c (shift (g + 1) d)).0 p) (Within-shift g d gs w, length-shift (g + 1) d ∙ n)
]

tail-Within : (g : ℕ) (cs gs : Gaps) → Within (g ∷ cs) (g ∷ gs) → Within cs gs
tail-Within g cs gs w x m =
    sym (contains-cons_above g gs x) ∙ w (x + g + 1) (contains-cons_above g cs x ∙ m)

rest-Within :
    (g h : ℕ) (cs gs : Gaps) → g < h → Within (h ∷ cs) (g ∷ gs) → Within ((h - g - 1) ∷ cs) gs
unfolding contains
rest-Within g h cs gs lt w x m =
    let e : x + g + 1 - h - 1 ≡ x - (h - g - 1) - 1 = omega arith in
    sym (contains-cons_above g gs x) ∙ w (x + g + 1) (ground (arith, ap (contains cs) e))

any-map_image :
    (f : Gaps → Gaps) (c : Gaps) (xs : List Gaps)
    → any (eq c) xs ≡ true
    → any (eq (f c)) (map f xs) ≡ true
any-map_image f c [] h = cc
any-map_image f c (x ∷ xs) h =
    let same : eq c x ≡ true → eq (f c) (f x) ≡ true =
      λ e. (eq_iff (f c) (f x)).1 (ap f ((eq_iff c x).0 e)) in
    ground (arith, same, any-map_image f c xs)

any-subsets_cons :
    (g : ℕ) (gs : Gaps) (k : ℕ) (c : Gaps)
    → (any (eq c) (map (λ d. g ∷ d) (subsets gs k)) ≡ true)
      ⊎ (any (eq c) (map (shift (g + 1)) (subsets gs (suc k))) ≡ true)
    → any (eq c) (subsets (g ∷ gs) (suc k)) ≡ true
unfolding subsets
any-subsets_cons g gs k c h = ground (
  arith,
  any-append (eq c) (map (λ d. g ∷ d) (subsets gs k)) (map (shift (g + 1)) (subsets gs (suc k))),
)

shift-cons : (g h : ℕ) (cs : Gaps) → g < h → shift (g + 1) ((h - g - 1) ∷ cs) ≡ h ∷ cs
unfolding shift
shift-cons g h cs lt = let e : h - g - 1 + (g + 1) ≡ h = omega arith in ap (λ n. n ∷ cs) e

order : (g h : ℕ) → (g ≡ h) ⊎ ((g < h) ⊎ (h < g))
order g h = grind arith

pub complete : (s c : Gaps) → Within c s → any (eq c) (subsets s (length c)) ≡ true
complete [] [] w = unfold subsets eq in refl
complete (g ∷ gs) [] w = unfold subsets eq in refl
complete [] (h ∷ cs) w = absurd (no-contains h (w h (contains-cons_head h cs)))
complete (g ∷ gs) (h ∷ cs) w = elim (order g h) [
  | inl e ↦ any-subsets_cons g gs (length cs) (h ∷ cs) (
      inl (
        rw (← e) (
          any-map_image (λ d. g ∷ d) cs (subsets gs (length cs))
            (complete gs cs (tail-Within g cs gs (rw (← e) at w))))))
  | inr (inl lt) ↦ any-subsets_cons g gs (length cs) (h ∷ cs) (
      inr (
        rw (shift-cons g h cs lt) at (
          any-map_image (shift (g + 1)) ((h - g - 1) ∷ cs) (subsets gs (suc (length cs)))
            (complete gs ((h - g - 1) ∷ cs) (rest-Within g h cs gs lt w)))))
  | inr (inr gt) ↦ absurd (omega (arith, le_of_contains g gs h (w h (contains-cons_head h cs))))
]
