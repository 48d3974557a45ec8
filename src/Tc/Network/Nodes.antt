-- ===== src/Tc/Network/Nodes.antt =====
-- Adding and removing nodes, as steps of the network.
use mpolsr_testbed.Common.{
  ℕ, ◌≡◌, refl, inl, inr, true, false, some, memb, ◌==◌, ==_iff, Bool-cases, arith,
}
use mpolsr_testbed.Tc.{Topology}
use mpolsr_testbed.Tc.Hash.{add_node_addr}
use mpolsr_testbed.Tc.Nodes.{add_node, clear_node, free_data, init_data}
use mpolsr_testbed.Tc.WellFormed.{IsWellFormed}
use mpolsr_testbed.Tc.WellFormed.Add.{get_node-add_node}
use mpolsr_testbed.Tc.WellFormed.Reset.{free_data-IsWellFormed}
use mpolsr_testbed.Tc.Network.{no_network, Same, view, with_node}

-- Freeing the store leaves the network without nodes.
pub free_data-view : (s : Topology) → IsWellFormed s → Same no_network (view (free_data s))
unfolding free_data init_data
free_data-view s wf = record {
  owner = (free_data-IsWellFormed s wf).1;
  main = λ n. refl;
  arc = λ l. refl;
}

add_node-main :
    (s : Topology) (p a n : ℕ)
    → (view (add_node (some p) true a s)).main n ≡ (with_node p a (view s)).main n
unfolding add_node add_node_addr clear_node
add_node-main s p a n = ground arith

add_node-arc :
    (s : Topology) (p a l : ℕ)
    → memb p s.node_lst ≡ false
    → (view (add_node (some p) true a s)).arc l ≡ (view s).arc l
unfolding add_node add_node_addr clear_node
add_node-arc s p a l fresh = elim (Bool-cases (p == s.src_node l)) [
  | inl eq ↦ let e : p ≡ s.src_node l = (==_iff _ _).0 eq in rw eq (ground (arith, e, fresh))
  | inr ne ↦ rw ne refl
]

pub add_node-view :
    (s : Topology) (p a : ℕ)
    → memb p s.node_lst ≡ false
    → Same (with_node p a (view s)) (view (add_node (some p) true a s))
add_node-view s p a fresh = record {
  owner = get_node-add_node s p a;
  main = add_node-main s p a;
  arc = λ l. add_node-arc s p a l fresh;
}
