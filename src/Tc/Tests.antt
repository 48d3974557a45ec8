-- ===== src/Tc/Tests.antt =====
-- A network of three nodes, built by the operations of the topology store, on which the theorems about
-- the store are tried.
use mpolsr_testbed.Common.{ℕ, ◌≡◌, ◌≢◌, refl, true, false, Option, none, some, [], ◌∷◌, arith}
use mpolsr_testbed.Tc.{NodeAddr, Topology}
use mpolsr_testbed.Tc.Lookup.{lookup}
use mpolsr_testbed.Tc.Hash.{add_node_addr, alias_pos, find_addr, free_pos, get_node}
use mpolsr_testbed.Tc.Local.{find_in_net, find_interface, update_link_to, update_local_link}
use mpolsr_testbed.Tc.Nodes.{add_alias, add_node, clear_node, remove_alias, remove_node}
use mpolsr_testbed.Tc.Links.{add_link, insert_link}
use mpolsr_testbed.Tc.WellFormed.{IsWellFormed}
use mpolsr_testbed.Tc.WellFormed.Add.{add_node-IsWellFormed}
use mpolsr_testbed.Tc.WellFormed.Remove.{forget, remove_node_lem}
use mpolsr_testbed.Tc.WellFormed.Edges.{add_link-IsWellFormed, IsFreshLink}
use mpolsr_testbed.Tc.WellFormed.Aliases.{add_alias-IsWellFormed, remove_alias-IsWellFormed}

-- A store with no node, at the local address 10.
abbrev pub blank : Topology
blank = record {
  addr_tab = λ key. [];
  node_lst = [];
  node_addr_tab = λ node. [];
  link_src = λ node. [];
  link_dst = λ node. [];
  labels = record {
    cost = λ node. 0;
    path = λ node. none;
    hops = λ node. 0;
    processed = λ node. false;
  };
  src_node = λ link. 0;
  dst_node = λ link. 0;
  cost = λ link. 0;
  dijkstra_cost = λ link. 0;
  dijkstra_cost_p1 = λ link. 0;
  path_buffer = [];
  local_addr_tab = 10 ∷ 0 ∷ 0 ∷ 0 ∷ 0 ∷ [];
  local_mask_tab = 255 ∷ 0 ∷ 0 ∷ 0 ∷ 0 ∷ [];
  local_links = [];
}

abbrev pub or_blank : Option Topology → Topology
or_blank none = blank
or_blank (some s) = s

pub blank-IsWellFormed : IsWellFormed blank
unfolding find_addr
blank-IsWellFormed = record {
  distinct = tt;
  indexed = record {
    chains = λ key. tt;
    entries = λ ip e h. absurd (cc);
    slots = λ n i ip m h. absurd (cc);
    sizes = λ n m. absurd (cc);
  };
  wired = record {
    src_distinct = λ u. tt;
    dst_distinct = λ u. tt;
    out = λ u l i m. absurd (cc);
    into = λ u l i m. absurd (cc);
  };
  mains = λ n m. absurd (cc);
}

result-IsWellFormed :
    (r : Option Topology)
    → (s : Topology) × (r ≡ some s) × IsWellFormed s
    → IsWellFormed (or_blank r)
result-IsWellFormed r (s, e, wf) = rw e wf

-- Three nodes with the addresses 10, 20 and 30.
abbrev pub one_node : Topology
one_node = add_node (some 1) true 10 blank

abbrev pub two_nodes : Topology
two_nodes = add_node (some 2) true 20 one_node

abbrev pub three_nodes : Topology
three_nodes = add_node (some 3) true 30 two_nodes

pub one_node-IsWellFormed : IsWellFormed one_node
unfolding find_addr
one_node-IsWellFormed = add_node-IsWellFormed blank 1 10 blank-IsWellFormed refl refl

pub two_nodes-IsWellFormed : IsWellFormed two_nodes
unfolding find_addr add_node clear_node add_node_addr
two_nodes-IsWellFormed = add_node-IsWellFormed one_node 2 20 one_node-IsWellFormed refl refl

pub three_nodes-IsWellFormed : IsWellFormed three_nodes
unfolding find_addr add_node clear_node add_node_addr
three_nodes-IsWellFormed = add_node-IsWellFormed two_nodes 3 30 two_nodes-IsWellFormed refl refl

-- Links from 10 to 20 and from 20 to 30 of cost 1, and from 10 to 30 of cost 5.
abbrev pub one_link : Topology
one_link = or_blank (add_link (some 11) true 10 20 1 three_nodes)

abbrev pub two_links : Topology
two_links = or_blank (add_link (some 12) true 20 30 1 one_link)

abbrev pub network : Topology
network = or_blank (add_link (some 13) true 10 30 5 two_links)

fresh_11 : IsFreshLink three_nodes 11
unfolding find_addr add_node clear_node add_node_addr
fresh_11 u m = ground arith

fresh_12 : IsFreshLink one_link 12
unfolding find_addr add_node clear_node add_node_addr add_link insert_link get_node
    update_local_link find_interface find_in_net
fresh_12 u m = ground arith

fresh_13 : IsFreshLink two_links 13
unfolding find_addr add_node clear_node add_node_addr add_link insert_link get_node
    update_local_link find_interface find_in_net
fresh_13 u m = ground arith

one_link-IsWellFormed : IsWellFormed one_link
one_link-IsWellFormed =
    result-IsWellFormed _
      (add_link-IsWellFormed 11 true 10 20 1 three_nodes three_nodes-IsWellFormed fresh_11)

two_links-IsWellFormed : IsWellFormed two_links
two_links-IsWellFormed =
    result-IsWellFormed _
      (add_link-IsWellFormed 12 true 20 30 1 one_link one_link-IsWellFormed fresh_12)

pub network-IsWellFormed : IsWellFormed network
network-IsWellFormed =
    result-IsWellFormed _
      (add_link-IsWellFormed 13 true 10 30 5 two_links two_links-IsWellFormed fresh_13)

network_out : (network.link_src 1 ≡ 13 ∷ 11 ∷ []) × (network.link_dst 3 ≡ 13 ∷ 12 ∷ [])
unfolding find_addr add_node clear_node add_node_addr add_link insert_link get_node
    update_local_link find_interface find_in_net
network_out = (refl, refl)

add_node-IsWellFormed_example : IsWellFormed (add_node (some 3) true 30 two_nodes)
unfolding find_addr add_node clear_node add_node_addr
add_node-IsWellFormed_example =
    add_node-IsWellFormed two_nodes 3 30 two_nodes-IsWellFormed refl refl

add_link-IsWellFormed_example :
    (s' : Topology) × (add_link (some 11) true 10 20 1 three_nodes ≡ some s') × IsWellFormed s'
add_link-IsWellFormed_example =
    add_link-IsWellFormed 11 true 10 20 1 three_nodes three_nodes-IsWellFormed fresh_11

network_20 : get_node network 20 ≡ some 2
unfolding find_addr add_node clear_node add_node_addr add_link insert_link get_node
    update_local_link find_interface find_in_net
network_20 = refl

remove_node_lem_example :
    (s' : Topology) × (remove_node 20 network ≡ some s')
    × IsWellFormed s'
    × ((b : ℕ) → get_node s' b ≡ forget 2 (get_node network b))
remove_node_lem_example = remove_node_lem network 20 2 network-IsWellFormed network_20

new_alias : lookup network 120 ≡ none
unfolding find_addr add_node clear_node add_node_addr add_link insert_link get_node
    update_local_link find_interface find_in_net
new_alias = refl

add_alias-IsWellFormed_example :
    (s' : Topology) × (add_alias true 20 120 network ≡ some s') × IsWellFormed s'
add_alias-IsWellFormed_example =
    add_alias-IsWellFormed network 20 120 network-IsWellFormed true new_alias

-- The network in which 120 is an alias of 20.
abbrev with_alias : Topology
with_alias = or_blank (add_alias true 20 120 network)

with_alias-IsWellFormed : IsWellFormed with_alias
with_alias-IsWellFormed =
    result-IsWellFormed _
      (add_alias-IsWellFormed network 20 120 network-IsWellFormed true new_alias)

behind_main : (e : NodeAddr) → lookup with_alias 120 ≡ some e → e.addr_pos ≢ 0
unfolding find_addr add_node clear_node add_node_addr add_link insert_link get_node
    update_local_link find_interface find_in_net add_alias alias_pos free_pos update_link_to
behind_main e h = ground arith

remove_alias-IsWellFormed_example :
    (s' : Topology) × (remove_alias 20 120 with_alias ≡ some s') × IsWellFormed s'
remove_alias-IsWellFormed_example =
    remove_alias-IsWellFormed with_alias 20 120 with_alias-IsWellFormed behind_main
