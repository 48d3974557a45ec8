-- ===== src/Tc/WellFormed.antt =====
-- The invariant of the topology store: its lists and tables agree, every pointer in them leads to a
-- node of the list, and every node has a main address.
pub mod Add
pub mod Shrink
pub mod Remove
pub mod Edges
pub mod Unlink
pub mod Aliases
pub mod Reset
use mpolsr_testbed.Common.{
  ℕ, ◌≡◌, ◌≢◌, ◌∙◌, refl, sym, ap, subst, inl, inr, true, false, Option, none, some, List, [], ◌∷◌,
  memb, ◌==◌, ==_iff, if◌then◌else◌, Bool-cases, Option-cases, IsDistinct, get_or, update, arith,
}
use mpolsr_testbed.Tc.{NodeAddr, Topology}
use mpolsr_testbed.Tc.Hash.{find_addr, get_node}
use mpolsr_testbed.Tc.Lookup.{lookup, slot}
use mpolsr_testbed.Tc.Addresses.{IsIndexed}
use mpolsr_testbed.Tc.Wiring.{IsWired}

pub record IsWellFormed (s : Topology) : Type 0 where
  pub distinct : IsDistinct s.node_lst
  pub indexed : IsIndexed s.node_lst s
  pub wired : IsWired s.node_lst s
  pub mains : (n : ℕ) → memb n s.node_lst ≡ true → (x : ℕ) × (slot s n 0 ≡ some x)

-- `get_node` is the node of the entry that is found.
pub get_node-lookup :
    (s : Topology) (a n : ℕ)
    → get_node s a ≡ some n
    → (e : NodeAddr) × (lookup s a ≡ some e) × (e.node ≡ n)
unfolding get_node
get_node-lookup s a n h = elim (Option-cases (lookup s a)) [
  | inl e ↦ absurd (ground (arith, e))
  | inr (e, found) ↦ (e, found, ground (arith, found))
]

pub get_node-of_lookup :
    (s : Topology) (a : ℕ) (e : NodeAddr) → lookup s a ≡ some e → get_node s a ≡ some e.node
unfolding get_node
get_node-of_lookup s a e h = rw (h, get_node)

pub get_node-none : (s : Topology) (a : ℕ) → lookup s a ≡ none → get_node s a ≡ none
unfolding get_node
get_node-none s a h = rw (h, get_node)

-- The address tables are all that IsIndexed reads.
pub IsIndexed-same :
    (nodes : List ℕ) (s t : Topology)
    → t.addr_tab ≡ s.addr_tab
    → t.node_addr_tab ≡ s.node_addr_tab
    → IsIndexed nodes s
    → IsIndexed nodes t
IsIndexed-same nodes s t p q ix = record {
  chains = rw p ix.chains;
  entries = rw (p, q) ix.entries;
  slots = rw (p, q) ix.slots;
  sizes = rw q ix.sizes;
}

pub IsWired-same :
    (nodes : List ℕ) (s t : Topology)
    → t.link_src ≡ s.link_src
    → t.link_dst ≡ s.link_dst
    → t.src_node ≡ s.src_node
    → t.dst_node ≡ s.dst_node
    → IsWired nodes s
    → IsWired nodes t
IsWired-same nodes s t p q c d w = record {
  src_distinct = rw p w.src_distinct;
  dst_distinct = rw q w.dst_distinct;
  out = rw (p, q, c, d) w.out;
  into = rw (p, q, c, d) w.into;
}
