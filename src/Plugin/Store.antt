-- ===== src/Plugin/Store.antt =====
-- When the store of the module has the graph that the commands make.
pub mod Nodes
pub mod Arcs
use mathlib.Core.Option.{some-injective}
use mpolsr_testbed.Common.{
  ℕ, ◌==◌, ◌≡◌, ◌≢◌, ◌∙◌, refl, sym, ap, subst, inl, inr, ==_iff, Bool, true, false, not, ◌&&◌,
  ◌||◌, Option, none, some, if◌then◌else◌, Bool-cases, Option-cases, arith,
}
use mpolsr_testbed.Tc.Network.{
  Network, Same, with_arc, with_node, without_arc, without_ends, without_node,
}
use mpolsr_testbed.Tc.WellFormed.Remove.{forget}
use mpolsr_testbed.Plugin.Links.{Graph}

abbrev pub has_node : Option ℕ → Bool
has_node none = false
has_node (some n) = true

-- The module has exactly the nodes and links of the graph: a known address is the main address of a node, and a
-- link is one arc between two such nodes.
pub record Matches (h : Network) (g : Graph) : Type 0 where
  pub known : (a : ℕ) → has_node (h.owner a) ≡ g.known a
  pub named : (a p : ℕ) → h.owner a ≡ some p → h.main p ≡ some a
  pub ends :
      (l p q c : ℕ)
      → h.arc l ≡ some (p, q, c)
      → (a : ℕ) × (b : ℕ) × (h.owner a ≡ some p) × (h.owner b ≡ some q)
  pub present :
      (a b : ℕ)
      → g.links a b ≡ true
      → (l : ℕ) × (p : ℕ) × (q : ℕ) × (c : ℕ) × (h.owner a ≡ some p)
        × (h.owner b ≡ some q)
        × (h.arc l ≡ some (p, q, c))
  pub only :
      (l p q c a b : ℕ)
      → h.arc l ≡ some (p, q, c)
      → h.owner a ≡ some p
      → h.owner b ≡ some q
      → g.links a b ≡ true
  pub once : (l k p q c d : ℕ) → h.arc l ≡ some (p, q, c) → h.arc k ≡ some (p, q, d) → l ≡ k

-- Networks that are the same match the same graph.
pub Matches-Same : (h k : Network) (g : Graph) → Same h k → Matches h g → Matches k g
Matches-Same h k g same m = record {
  known = λ a. ap has_node (same.owner a) ∙ m.known a;
  named = λ a p at. same.main p ∙ m.named a p (sym (same.owner a) ∙ at);
  ends = λ l p q c at.
      let (a, b, from, to) = m.ends l p q c (sym (same.arc l) ∙ at) in
      (a, b, same.owner a ∙ from, same.owner b ∙ to);
  present = λ a b there.
      let (l, p, q, c, from, to, at) = m.present a b there in
      (l, p, q, c, same.owner a ∙ from, same.owner b ∙ to, same.arc l ∙ at);
  only = λ l p q c a b at from to.
      m.only l p q c a b (sym (same.arc l) ∙ at) (sym (same.owner a) ∙ from)
        (sym (same.owner b) ∙ to);
  once =
      λ l k' p q c d at too. m.once l k' p q c d (sym (same.arc l) ∙ at) (sym (same.arc k') ∙ too);
}

module _ (h : Network) (g : Graph) (m : Matches h g) where
  -- Two addresses of one node are the same.
  pub alone : (a b p : ℕ) → h.owner a ≡ some p → h.owner b ≡ some p → a ≡ b
  alone a b p from to = some-injective a b (sym (m.named a p from) ∙ m.named b p to)
