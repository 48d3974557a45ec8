-- ===== src/Plugin/Store/Arcs.antt =====
-- Links that are added and removed, in the store and in the graph.
use mathlib.Core.Option.{some-injective}
use mpolsr_testbed.Common.{
  ℕ, ◌==◌, ◌≡◌, ◌≢◌, ◌∙◌, sym, ap, inl, inr, ==_iff, true, false, ◌&&◌, Option, none, some,
  if◌then◌else◌, Bool-cases, arith,
}
use mpolsr_testbed.Tc.Network.{Network, with_arc, without_arc}
use mpolsr_testbed.Plugin.Links.{Graph}
use mpolsr_testbed.Plugin.Store.{alone, has_node, Matches}

module _ (h : Network) (g : Graph) (m : Matches h g) where
  module _ (l u v c a b : ℕ) (from : h.owner a ≡ some u) (to : h.owner b ≡ some v)
      (fresh : h.arc l ≡ none) (new : g.links a b ≡ false) where
    abbrev grown : Network
    grown = with_arc l u v c h

    new_ends : (k p q d : ℕ) → (l == k) ≡ true → grown.arc k ≡ some (p, q, d) → (u ≡ p) × (v ≡ q)
    new_ends k p q d eq at =
        let same : (u, v, c) ≡ (p, q, d) = some-injective (u, v, c) (p, q, d) (rw eq at at) in
        (ap (λ (t : ℕ × ℕ × ℕ). t.0) same, ap (λ (t : ℕ × ℕ × ℕ). t.1) same)

    old_arc :
        (k p q d : ℕ) → (l == k) ≡ false → grown.arc k ≡ some (p, q, d) → h.arc k ≡ some (p, q, d)
    old_arc k p q d ne at = rw ne at at

    known_ends : g.known a && g.known b ≡ true
    known_ends =
        ground (arith, sym (m.known a) ∙ ap has_node from, sym (m.known b) ∙ ap has_node to)

    first_arc : (k d : ℕ) → ¬ (h.arc k ≡ some (u, v, d))
    first_arc k d at = ground (arith, m.only k u v d a b at from to, new)

    -- No old arc has the ends of the new one.
    apart_from_new :
        (k j p q d f : ℕ)
        → (l == k) ≡ true
        → (l == j) ≡ false
        → grown.arc k ≡ some (p, q, d)
        → ¬ (grown.arc j ≡ some (p, q, f))
    apart_from_new k j p q d f eq ne at too =
        let (x, y) = new_ends k p q d eq at in
        first_arc j f (
          old_arc j p q f ne too
          ∙ ap (λ (t : ℕ × ℕ). some (t.0, t.1, f))
              (ap (λ i. (i, q)) (sym x) ∙ ap (λ i. (u, i)) (sym y)))

    pub arc_added-Matches : Matches (with_arc l u v c h) (record g {
      links = λ x y. if (a == x && b == y) && (g.known a && g.known b) then true else g.links x y;
    })
    arc_added-Matches = record {
      known = m.known;
      named = m.named;
      ends = λ k p q d at. elim (Bool-cases (l == k)) [
        | inl eq ↦ let (x, y) = new_ends k p q d eq at in (a, b, from ∙ ap some x, to ∙ ap some y)
        | inr ne ↦ m.ends k p q d (old_arc k p q d ne at)
      ];
      present = λ x y there. elim (Bool-cases (a == x && b == y)) [
        | inl eq ↦
            let (s, t) = sides x y eq in
            (l, u, v, c, ap h.owner (sym s) ∙ from, ap h.owner (sym t) ∙ to, ground arith)
        | inr ne ↦
            let (k, p, q, d, x_from, y_to, at) = m.present x y (was x y ne there) in
            (k, p, q, d, x_from, y_to, keeps k p q d at)
      ];
      only = λ k p q d x y at x_from y_to. elim (Bool-cases (l == k)) [
        | inl eq ↦
            let (s, t) = new_ends k p q d eq at in
            let x_is = alone h g m a x p (from ∙ ap some s) x_from in
            let y_is = alone h g m b y q (to ∙ ap some t) y_to in here x y x_is y_is
        | inr ne ↦ more x y (m.only k p q d x y (old_arc k p q d ne at) x_from y_to)
      ];
      once = λ k j p q d f at too. elim (Bool-cases (l == k)) [
        | inl eq ↦ elim (Bool-cases (l == j)) [
          | inl eq' ↦ sym ((==_iff l k).0 eq) ∙ (==_iff l j).0 eq'
          | inr ne ↦ absurd (apart_from_new k j p q d f eq ne at too)
        ]
        | inr ne ↦ elim (Bool-cases (l == j)) [
          | inl eq ↦ absurd (apart_from_new j k p q f d eq ne too at)
          | inr ne' ↦ m.once k j p q d f (old_arc k p q d ne at) (old_arc j p q f ne' too)
        ]
      ];
    }
      where
        sides : (x y : ℕ) → a == x && b == y ≡ true → (a ≡ x) × (b ≡ y)
        sides x y e = ground (arith, e)

        was :
            (x y : ℕ)
            → a == x && b == y ≡ false
            → (if (a == x && b == y) && (g.known a && g.known b) then true else g.links x y) ≡ true
            → g.links x y ≡ true
        was x y ne e = ground (arith, ne, e)

        keeps : (k p q d : ℕ) → h.arc k ≡ some (p, q, d) → grown.arc k ≡ some (p, q, d)
        keeps k p q d at = elim (Bool-cases (l == k)) [
          | inl eq ↦ absurd (no_arc (sym (ap h.arc (sym ((==_iff l k).0 eq)) ∙ fresh) ∙ at))
          | inr ne ↦ rw ne at
        ]
          where
            no_arc : ¬ (◌≡◌ {A = Option (ℕ × ℕ × ℕ)} none (some (p, q, d)))
            no_arc e = cc

        here :
            (x y : ℕ)
            → a ≡ x
            → b ≡ y
            → (if (a == x && b == y) && (g.known a && g.known b) then true else g.links x y) ≡ true
        here x y s t = ground (arith, s, t, known_ends)

        more :
            (x y : ℕ)
            → g.links x y ≡ true
            → (if (a == x && b == y) && (g.known a && g.known b) then true else g.links x y) ≡ true
        more x y e = ground (arith, e)

  module _ (l u v c a b : ℕ) (from : h.owner a ≡ some u) (at : h.arc l ≡ some (u, v, c))
      (main : h.main v ≡ some b) where
    to_b : h.owner b ≡ some v
    to_b =
        let (x, y, _, to) = m.ends l u v c at in
        let same : y ≡ b = some-injective y b (sym (m.named y v to) ∙ main) in
        ap h.owner (sym same) ∙ to

    abbrev cut : Network
    cut = without_arc l h

    left :
        (k p q d : ℕ) → cut.arc k ≡ some (p, q, d) → (h.arc k ≡ some (p, q, d)) × ((l == k) ≡ false)
    left k p q d is = elim (Bool-cases (l == k)) [
      | inl eq ↦ absurd (no_arc (rw eq at is))
      | inr ne ↦ (rw ne at is, ne)
    ]
      where
        no_arc : ¬ (◌≡◌ {A = Option (ℕ × ℕ × ℕ)} none (some (p, q, d)))
        no_arc e = cc

    pub arc_removed-Matches :
        Matches
          (without_arc l h)
          (record g { links = λ x y. if a == x && b == y then false else g.links x y })
    arc_removed-Matches = record {
      known = m.known;
      named = m.named;
      ends = λ k p q d is. m.ends k p q d (left k p q d is).0;
      present = λ x y there.
          let (old, other) = was x y there in
          let (k, p, q, d, x_from, y_to, is) = m.present x y old in
          (k, p, q, d, x_from, y_to, keeps k p q d x y other x_from y_to is);
      only = λ k p q d x y is x_from y_to.
          let (old, ne) = left k p q d is in
          both x y (other k p q d x y ne old x_from y_to) (m.only k p q d x y old x_from y_to);
      once = λ k j p q d f is too. m.once k j p q d f (left k p q d is).0 (left j p q f too).0;
    }
      where
        was :
            (x y : ℕ)
            → (if a == x && b == y then false else g.links x y) ≡ true
            → (g.links x y ≡ true) × ((a == x && b == y) ≡ false)
        was x y e = ground (arith, e)

        both :
            (x y : ℕ)
            → (a == x && b == y) ≡ false
            → g.links x y ≡ true
            → (if a == x && b == y then false else g.links x y) ≡ true
        both x y p q = ground (arith, p, q)

        keeps :
            (k p q d x y : ℕ)
            → (a == x && b == y) ≡ false
            → h.owner x ≡ some p
            → h.owner y ≡ some q
            → h.arc k ≡ some (p, q, d)
            → cut.arc k ≡ some (p, q, d)
        keeps k p q d x y ne x_from y_to is = elim (Bool-cases (l == k)) [
          | inl eq ↦
              let same : (u, v, c) ≡ (p, q, d) =
                some-injective (u, v, c) (p, q, d) (sym at ∙ (ap h.arc ((==_iff l k).0 eq) ∙ is)) in
              let x_is =
                alone h g m a x p (from ∙ ap some (ap (λ (t : ℕ × ℕ × ℕ). t.0) same)) x_from in
              let y_is =
                alone h g m b y q (to_b ∙ ap some (ap (λ (t : ℕ × ℕ × ℕ). t.1) same)) y_to in
              absurd (ground (arith, ne, x_is, y_is))
          | inr other ↦ rw other is
        ]

        other :
            (k p q d x y : ℕ)
            → (l == k) ≡ false
            → h.arc k ≡ some (p, q, d)
            → h.owner x ≡ some p
            → h.owner y ≡ some q
            → (a == x && b == y) ≡ false
        other k p q d x y ne is x_from y_to = elim (Bool-cases (a == x && b == y)) [
          | inr differ ↦ differ
          | inl eq ↦
              let x_is : a ≡ x = ground (arith, eq) in
              let y_is : b ≡ y = ground (arith, eq) in
              let p_is : u ≡ p = some-injective u p (sym from ∙ (ap h.owner x_is ∙ x_from)) in
              let q_is : v ≡ q = some-injective v q (sym to_b ∙ (ap h.owner y_is ∙ y_to)) in
              let shifted : h.arc l ≡ some (p, q, c) =
                at ∙ (ap (λ i. some (i, v, c)) p_is ∙ ap (λ i. some (p, i, c)) q_is) in
              absurd (ground (arith, ne, m.once l k p q c d shifted is))
        ]

  module _ (a b : ℕ)
      (none_there : (l u v c : ℕ)
        → h.owner a ≡ some u
        → h.arc l ≡ some (u, v, c)
        → h.main v ≢ some b) where
    pub no_arc-Matches :
        Matches h (record g { links = λ x y. if a == x && b == y then false else g.links x y })
    no_arc-Matches = record {
      known = m.known;
      named = m.named;
      ends = m.ends;
      present = λ x y there. m.present x y (was x y there);
      only = λ l p q c x y is x_from y_to.
          both x y (other l p q c x y is x_from y_to) (m.only l p q c x y is x_from y_to);
      once = m.once;
    }
      where
        was :
            (x y : ℕ)
            → (if a == x && b == y then false else g.links x y) ≡ true
            → g.links x y ≡ true
        was x y e = ground (arith, e)

        both :
            (x y : ℕ)
            → (a == x && b == y) ≡ false
            → g.links x y ≡ true
            → (if a == x && b == y then false else g.links x y) ≡ true
        both x y p q = ground (arith, p, q)

        other :
            (l p q c x y : ℕ)
            → h.arc l ≡ some (p, q, c)
            → h.owner x ≡ some p
            → h.owner y ≡ some q
            → (a == x && b == y) ≡ false
        other l p q c x y is x_from y_to = elim (Bool-cases (a == x && b == y)) [
          | inr differ ↦ differ
          | inl eq ↦
              let x_is : a ≡ x = ground (arith, eq) in
              let y_is : b ≡ y = ground (arith, eq) in
              absurd (
                none_there l p q c (ap h.owner x_is ∙ x_from) is
                  (m.named y q y_to ∙ ap some (sym y_is)))
        ]
