-- ===== src/Tc/Network.antt =====
-- What the topology store promises to its users: a graph whose arcs carry costs, with a name for every
-- address. The operations of ser_path_tc.c are steps of it.
pub mod Nodes
pub mod Removal
pub mod Arcs
pub mod Cuts
pub mod Full
pub mod Aliases
use mpolsr_testbed.Common.{
  ℕ, All, IsDistinct, length, List, ◌≡◌, ◌≢◌, ◌∙◌, refl, sym, Option, none, some, ◌&&◌, memb, ◌==◌,
  if◌then◌else◌, arith,
}
use mpolsr_testbed.Tc.{max_ip_alias_by_node, Topology}
use mpolsr_testbed.Tc.Hash.{get_node, main_addr}
use mpolsr_testbed.Tc.WellFormed.Remove.{forget}

-- The node of an address, the main address of a node, and the source, destination and cost of an arc.
pub record Network : Type 0 where
  pub owner : ℕ → Option ℕ
  pub main : ℕ → Option ℕ
  pub arc : ℕ → Option (ℕ × ℕ × ℕ)

-- The arcs are the links that stand in the list of a node of the store.
abbrev pub view : Topology → Network
view s = record {
  owner = get_node s;
  main = λ n. if memb n s.node_lst then main_addr s n else none;
  arc = λ l.
      if memb (s.src_node l) s.node_lst && memb l (s.link_src (s.src_node l))
      then some (s.src_node l, s.dst_node l, s.cost l)
      else none;
}

pub record Same (g h : Network) : Type 0 where
  pub owner : (a : ℕ) → h.owner a ≡ g.owner a
  pub main : (n : ℕ) → h.main n ≡ g.main n
  pub arc : (l : ℕ) → h.arc l ≡ g.arc l

abbrev pub no_network : Network
no_network = record { owner = λ a. none; main = λ n. none; arc = λ l. none }

abbrev pub with_node : ℕ → ℕ → Network → Network
with_node p a g = record {
  owner = λ b. if a == b then some p else g.owner b;
  main = λ n. if p == n then some a else g.main n;
  arc = g.arc;
}

abbrev pub without_ends : ℕ → Option (ℕ × ℕ × ℕ) → Option (ℕ × ℕ × ℕ)
without_ends n none = none
without_ends n (some (u, v, c)) = if u == n then none else if v == n then none else some (u, v, c)

-- The node goes, with its addresses and the arcs at both sides.
abbrev pub without_node : ℕ → Network → Network
without_node n g = record {
  owner = λ b. forget n (g.owner b);
  main = λ m. if m == n then none else g.main m;
  arc = λ l. without_ends n (g.arc l);
}

abbrev pub with_arc : ℕ → ℕ → ℕ → ℕ → Network → Network
with_arc link u v c g = record {
  owner = g.owner;
  main = g.main;
  arc = λ l. if link == l then some (u, v, c) else g.arc l;
}

abbrev pub without_arc : ℕ → Network → Network
without_arc link g = record {
  owner = g.owner;
  main = g.main;
  arc = λ l. if link == l then none else g.arc l;
}

abbrev pub with_alias : ℕ → ℕ → Network → Network
with_alias a n g = record {
  owner = λ b. if a == b then some n else g.owner b;
  main = g.main;
  arc = g.arc;
}

abbrev pub without_alias : ℕ → Network → Network
without_alias a g = record {
  owner = λ b. if a == b then none else g.owner b;
  main = g.main;
  arc = g.arc;
}

-- The node has as many names as there is room for in its table.
abbrev pub IsFull : ℕ → Network → Type 0
IsFull n g =
    (names : List ℕ) × (length names ≡ max_ip_alias_by_node)
    × IsDistinct names
    × All (λ a. g.owner a ≡ some n) names

pub Same-refl : (g : Network) → Same g g
Same-refl g = record { owner = λ a. refl; main = λ n. refl; arc = λ l. refl }

pub Same-trans : (g h k : Network) → Same g h → Same h k → Same g k
Same-trans g h k p q = record {
  owner = λ a. q.owner a ∙ p.owner a;
  main = λ n. q.main n ∙ p.main n;
  arc = λ l. q.arc l ∙ p.arc l;
}
