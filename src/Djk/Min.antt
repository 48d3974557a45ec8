-- ===== src/Djk/Min.antt =====
-- The search for the node of least cost.
use mpolsr_testbed.Common.{
  ℕ, ◌≤◌, ◌<◌, ◌≡◌, ◌≢◌, ◌⊎◌, inl, inr, true, false, Option, none, some, List, [], ◌∷◌, memb, ltb,
  ltb→lt, ltb→le, ◌==◌, ==_iff, Bool-cases, arith,
}
use mpolsr_testbed.Djk.{find_min}

module _ (cost : ℕ → ℕ) where
  abbrev Bounds : ℕ → List ℕ → Type 0
  Bounds m ns = (n : ℕ) → memb n ns ≡ true → m ≤ cost n

  Bounds-cons : (m x : ℕ) (ns : List ℕ) → m ≤ cost x → Bounds m ns → Bounds m (x ∷ ns)
  Bounds-cons m x ns h b n i = elim (Bool-cases (x == n)) [
    | inl eq ↦ let e : x ≡ n = (==_iff x n).0 eq in ground (arith, e)
    | inr ne ↦ ground (arith, b n, ne)
  ]

  find_min-ne-none : (m x : ℕ) (ns : List ℕ) → find_min cost m (some x) ns ≢ none
  unfolding find_min
  find_min-ne-none m x [] h = cc
  find_min-ne-none m x (n ∷ ns) h = elim (Bool-cases (ltb (cost n) m)) [
    | inl e ↦ find_min-ne-none (cost n) n ns (rw e at h)
    | inr e ↦ find_min-ne-none m x ns (rw e at h)
  ]

  -- If none is found, no node of the list costs less than the start value.
  pub find_min-none :
      (m : ℕ) (ns : List ℕ)
      → find_min cost m none ns ≡ none
      → (n : ℕ) → memb n ns ≡ true
      → m ≤ cost n
  unfolding find_min
  find_min-none m [] h n i = absurd (cc)
  find_min-none m (x ∷ ns) h n i = elim (Bool-cases (ltb (cost x) m)) [
    | inl e ↦ absurd (find_min-ne-none (cost x) x ns (rw e at h))
    | inr e ↦ Bounds-cons m x ns (ltb→le _ _ e) (find_min-none m ns (rw e at h)) n i
  ]

  -- A node that is found is in the list, costs less than the start value, and no node costs less.
  pub record IsLeast (m : ℕ) (ns : List ℕ) (u : ℕ) : Type 0 where
    pub in_list : memb u ns ≡ true
    pub below : cost u < m
    pub least : (n : ℕ) → memb n ns ≡ true → cost u ≤ cost n

  IsLeast-cons : (m x u : ℕ) (ns : List ℕ) → m ≤ cost x → IsLeast m ns u → IsLeast m (x ∷ ns) u
  IsLeast-cons m x u ns h l = record {
    in_list = ground (arith, l.in_list);
    below = l.below;
    least = Bounds-cons (cost u) x ns (omega (arith, l.below)) l.least;
  }

  find_min_from :
      (m : ℕ) (b : Option ℕ) (ns : List ℕ) (u : ℕ)
      → find_min cost m b ns ≡ some u
      → (b ≡ some u) × Bounds m ns ⊎ IsLeast m ns u
  unfolding find_min
  find_min_from m b [] u h = inl (h, λ n i. absurd (cc))
  find_min_from m b (x ∷ ns) u h = elim (Bool-cases (ltb (cost x) m)) [
    | inl e ↦ inr (taken e (find_min_from (cost x) (some x) ns u (rw e at h)))
    | inr e ↦ kept e (find_min_from m b ns u (rw e at h))
  ]
    where
      taken :
          ltb (cost x) m ≡ true
          → (some x ≡ some u) × Bounds (cost x) ns ⊎ IsLeast (cost x) ns u
          → IsLeast m (x ∷ ns) u
      taken e (inl (q, b')) =
          let eq : x ≡ u = ground arith in
          record {
            in_list = ground (arith, eq);
            below = ground (arith, eq, ltb→lt _ _ e);
            least = rw (← eq) (Bounds-cons (cost x) x ns (omega arith) b');
          }
      taken e (inr l) = record {
        in_list = ground (arith, l.in_list);
        below = omega (arith, l.below, ltb→lt _ _ e);
        least = Bounds-cons (cost u) x ns (omega (arith, l.below)) l.least;
      }

      kept :
          ltb (cost x) m ≡ false
          → (b ≡ some u) × Bounds m ns ⊎ IsLeast m ns u
          → (b ≡ some u) × Bounds m (x ∷ ns) ⊎ IsLeast m (x ∷ ns) u
      kept e (inl (q, b')) = inl (q, Bounds-cons m x ns (ltb→le _ _ e) b')
      kept e (inr l) = inr (IsLeast-cons m x u ns (ltb→le _ _ e) l)

  pub find_min-some :
      (m : ℕ) (ns : List ℕ) (u : ℕ) → find_min cost m none ns ≡ some u → IsLeast m ns u
  find_min-some m ns u h = elim (find_min_from m none ns u h) [
    | inl (q, _) ↦ absurd (cc)
    | inr l ↦ l
  ]
