-- ===== src/Plugin/Store/Nodes.antt =====
-- Nodes that are added and removed, in the store and in the graph.
use mathlib.Core.Option.{some-injective}
use mpolsr_testbed.Common.{
  ℕ, ◌==◌, ◌≡◌, ◌∙◌, refl, sym, ap, inl, inr, ==_iff, Bool, true, false, ◌||◌, Option, none, some,
  if◌then◌else◌, Bool-cases, Option-cases, arith,
}
use mpolsr_testbed.Tc.Network.{Network, with_node, without_ends, without_node}
use mpolsr_testbed.Tc.WellFormed.Remove.{forget}
use mpolsr_testbed.Plugin.Links.{Graph}
use mpolsr_testbed.Plugin.Store.{alone, has_node, Matches}

module _ (h : Network) (g : Graph) (m : Matches h g) where
  unowned : (a : ℕ) → g.known a ≡ false → h.owner a ≡ none
  unowned a new = elim (Option-cases (h.owner a)) [
    | inl free ↦ free
    | inr (p, at) ↦ absurd (ground (arith, sym (m.known a) ∙ ap has_node at, new))
  ]

  module _ (p a : ℕ) (fresh : h.main p ≡ none) (new : g.known a ≡ false) where
    still : (b q : ℕ) → h.owner b ≡ some q → (with_node p a h).owner b ≡ some q
    still b q at = ground (arith, at, unowned a new)

    other_node : (b q : ℕ) → h.owner b ≡ some q → (p == q) ≡ false
    other_node b q at = elim (Bool-cases (p == q)) [
      | inl eq ↦ absurd (clash (sym (ap h.main ((==_iff p q).0 eq)) ∙ fresh) (m.named b q at))
      | inr ne ↦ ne
    ]
      where
        clash : h.main q ≡ none → ¬ (h.main q ≡ some b)
        clash x y = ground (arith, x, y)

    -- The end of an arc is an old node.
    back :
        (b q b0 : ℕ) → (with_node p a h).owner b ≡ some q → h.owner b0 ≡ some q → h.owner b ≡ some q
    back b q b0 at old = elim (Bool-cases (a == b)) [
      | inl eq ↦ absurd (ground (arith, other_node b0 q old, some-injective p q (rw eq at at)))
      | inr ne ↦ rw ne at at
    ]

    pub node_added-Matches :
        Matches (with_node p a h) (record g { known = λ b. if a == b then true else g.known b })
    node_added-Matches = record {
      known = λ b. ground (arith, m.known b);
      named = λ b q at. elim (Bool-cases (a == b)) [
        | inl eq ↦
            let same : p ≡ q = some-injective p q (rw eq at at) in
            ground (arith, same, (==_iff a b).0 eq)
        | inr ne ↦
            let old : h.owner b ≡ some q = rw ne at at in rw (other_node b q old) (m.named b q old)
      ];
      ends = λ l q r c at.
          let (x, y, from, to) = m.ends l q r c at in (x, y, still x q from, still y r to);
      present = λ x y there.
          let (l, q, r, c, from, to, at) = m.present x y there in
          (l, q, r, c, still x q from, still y r to, at);
      only = λ l q r c x y at from to.
          let (x0, y0, old_from, old_to) = m.ends l q r c at in
          m.only l q r c x y at (back x q x0 from old_from) (back y r y0 to old_to);
      once = m.once;
    }

  module _ (n a : ℕ) (there : h.owner a ≡ some n) where
    kept : (b q : ℕ) → h.owner b ≡ some q → (a == b) ≡ false → (q == n) ≡ false
    kept b q at other = elim (Bool-cases (q == n)) [
      | inl eq ↦
          absurd (ground (arith, other, alone h g m a b n there (at ∙ ap some ((==_iff q n).0 eq))))
      | inr ne ↦ ne
    ]

    remains :
        (b q : ℕ) → h.owner b ≡ some q → (q == n) ≡ false → (without_node n h).owner b ≡ some q
    remains b q at ne = ground (arith, at, ne)

    was :
        (b q : ℕ) → (without_node n h).owner b ≡ some q → (h.owner b ≡ some q) × ((q == n) ≡ false)
    was b q at = elim (Option-cases (h.owner b)) [
      | inl free ↦ absurd (ground (arith, at, free))
      | inr (r, old) ↦ ground (arith, at, old)
    ]

    apart : (b q : ℕ) → h.owner b ≡ some q → (q == n) ≡ false → (a == b) ≡ false
    apart b q at ne = elim (Bool-cases (a == b)) [
      | inl eq ↦ absurd (
          ground
            (arith, ne, some-injective n q (sym there ∙ (ap h.owner ((==_iff a b).0 eq) ∙ at))))
      | inr other ↦ other
    ]

    arc_was :
        (l p q c : ℕ)
        → (without_node n h).arc l ≡ some (p, q, c)
        → (h.arc l ≡ some (p, q, c)) × ((p == n) ≡ false) × ((q == n) ≡ false)
    arc_was l p q c at = by_arc (h.arc l) at
      where
        no_arc_there : ¬ (◌≡◌ {A = Option (ℕ × ℕ × ℕ)} none (some (p, q, c)))
        no_arc_there e = cc

        by_arc :
            (o : Option (ℕ × ℕ × ℕ))
            → without_ends n o ≡ some (p, q, c)
            → (o ≡ some (p, q, c)) × ((p == n) ≡ false) × ((q == n) ≡ false)
        by_arc none e = absurd (cc)
        by_arc (some (p', q', c')) e = elim (Bool-cases (p' == n)) [
          | inl x ↦ absurd (no_arc_there (rw x at e))
          | inr x ↦ elim (Bool-cases (q' == n)) [
            | inl y ↦ absurd (no_arc_there (rw (x, y) at e))
            | inr y ↦
                let same : (p', q', c') ≡ (p, q, c) =
                  some-injective (p', q', c') (p, q, c) (rw (x, y) at e) in
                (
                  ap some same,
                  ap (λ (t : ℕ × ℕ × ℕ). t.0 == n) (sym same) ∙ x,
                  ap (λ (t : ℕ × ℕ × ℕ). t.1 == n) (sym same) ∙ y,
                )
          ]
        ]

    arc_remains :
        (l p q c : ℕ)
        → h.arc l ≡ some (p, q, c)
        → (p == n) ≡ false
        → (q == n) ≡ false
        → (without_node n h).arc l ≡ some (p, q, c)
    arc_remains l p q c at x y = ap (without_ends n) at ∙ rw (x, y) refl

    pub node_removed-Matches : Matches (without_node n h) (record g {
      known = λ b. if a == b then false else g.known b;
      links = λ u v. if a == u || a == v then false else g.links u v;
    })
    node_removed-Matches = record {
      known = λ b. elim (Bool-cases (a == b)) [
        | inl eq ↦ rw eq (gone_owner b ((==_iff a b).0 eq))
        | inr ne ↦ rw ne (by_owner b ne (h.owner b) refl ∙ m.known b)
      ];
      named = λ b q at. let (old, ne) = was b q at in rw ne (m.named b q old);
      ends = λ l q r c at.
          let (old, x, y) = arc_was l q r c at in
          let (b, d, from, to) = m.ends l q r c old in (b, d, remains b q from x, remains d r to y);
      present = λ x y link.
          let (l, q, r, c, from, to, at) = m.present x y (old_link x y link).0 in
          let p = kept x q from (old_link x y link).1 in
          let s = kept y r to (old_link x y link).2 in
          (l, q, r, c, remains x q from p, remains y r to s, arc_remains l q r c at p s);
      only = λ l q r c x y at from to.
          let (old, p, s) = arc_was l q r c at in
          let (old_from, _) = was x q from in
          let (old_to, _) = was y r to in
          both _ _ _ (apart x q old_from p) (apart y r old_to s)
            (m.only l q r c x y old old_from old_to);
      once =
          λ l k q r c d at too. m.once l k q r c d (arc_was l q r c at).0 (arc_was k q r d too).0;
    }
      where
        gone_owner : (b : ℕ) → a ≡ b → has_node ((without_node n h).owner b) ≡ false
        gone_owner b same = ground (arith, ap h.owner (sym same) ∙ there)

        by_owner :
            (b : ℕ)
            → (a == b) ≡ false
            → (o : Option ℕ) → h.owner b ≡ o
            → has_node (forget n o) ≡ has_node o
        by_owner b ne none e = refl
        by_owner b ne (some q) e = rw (kept b q e ne) refl

        old_link :
            (x y : ℕ)
            → (if a == x || a == y then false else g.links x y) ≡ true
            → (g.links x y ≡ true) × ((a == x) ≡ false) × ((a == y) ≡ false)
        old_link x y e = ground (arith, e)

        both :
            (i j k : Bool) → i ≡ false → j ≡ false → k ≡ true → (if i || j then false else k) ≡ true
        both i j k x y z = ground (arith, x, y, z)
