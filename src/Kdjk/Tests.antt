-- ===== src/Kdjk/Tests.antt =====
-- The shortest paths in the network of three nodes.
use mpolsr_testbed.Common.{
  ℕ, ◌≤◌, ◌<◌, ◌≡◌, refl, true, Option, none, some, [], ◌∷◌, arith, remove, length, ◌+◌, ◌*◌,
}
use mpolsr_testbed.Tc.{Labels, OlsrPath, Topology, ulong_max}
use mpolsr_testbed.Tc.Hash.{add_node_addr, find_addr, get_node, main_addr}
use mpolsr_testbed.Tc.Local.{find_in_net, find_interface, update_local_link}
use mpolsr_testbed.Tc.Nodes.{add_node, clear_node}
use mpolsr_testbed.Tc.Links.{add_link, insert_link}
use mpolsr_testbed.Tc.Tests.{blank, network, network-IsWellFormed}
use mpolsr_testbed.Djk.{
  dijkstra, find_min, init_node_list, main_loop, process_node, update_link, update_links,
}
use mpolsr_testbed.Djk.Graph.{Walk}
use mpolsr_testbed.Djk.Correct.{
  dijkstra_least, dijkstra_sound, dijkstra_terminates, IsRoutable, LinkWalk,
}
use mpolsr_testbed.Kdjk.{
  add_buffer, compute_path, Config, copy_links, init_costs, k_dijkstra, Memory, reset_links, Round,
  k_loop, walk_back, copy_addr, push_addr, raise_costs, raise_into, raise_back, find_link_to,
  store_path, insert_path, add_to_buffer, take_costs,
}
use mpolsr_testbed.Kdjk.Path.{compute_path_lem, IsAnswer, IsShortest}
use mpolsr_testbed.Kdjk.Prepare.{IsCheap, prepared, prepared-IsRoutable}
use mpolsr_testbed.Kdjk.First.{k_dijkstra-IsShortest}
use mpolsr_testbed.Kdjk.Raise.{IsFactor}
use mpolsr_testbed.Kdjk.Total.{k_dijkstra_terminates}

abbrev pub conf : Config
conf = record { path = 2; fp = 3; fe = 1 }

abbrev pub memory : Memory
memory = record { path_buffer = true; path = λ index. true; path_data = λ index. true }

network-IsCheap : IsCheap network 5
unfolding find_addr add_node clear_node add_node_addr add_link insert_link get_node
    update_local_link find_interface find_in_net
network-IsCheap = record { links = λ u l m h. ground arith; fits = omega arith }

network_10 : get_node network 10 ≡ some 1
unfolding find_addr add_node clear_node add_node_addr add_link insert_link get_node
    update_local_link find_interface find_in_net
network_10 = refl

network_main : main_addr network 1 ≡ some 10
unfolding find_addr add_node clear_node add_node_addr add_link insert_link get_node
    update_local_link find_interface find_in_net
network_main = refl

abbrev pub ready : Topology
ready = prepared network 10 30

ready-IsRoutable : IsRoutable ready 10 1 5
ready-IsRoutable =
    prepared-IsRoutable network 10 30 1 5 network-IsWellFormed network-IsCheap network_10
      network_main

dijkstra_terminates_example : (t : Labels) × (dijkstra ready 10 ≡ some t)
dijkstra_terminates_example = dijkstra_terminates ready 10 1 5 ready-IsRoutable

abbrev final_labels : Labels
final_labels = elim (dijkstra ready 10) [ none ↦ blank.labels | some t ↦ t ]

ready_runs : dijkstra ready 10 ≡ some final_labels
unfolding find_addr add_node clear_node add_node_addr add_link insert_link get_node
    update_local_link find_interface find_in_net dijkstra init_costs add_buffer copy_links
    reset_links init_node_list find_min update_link update_links process_node main_loop remove
ready_runs = refl

final_cost : final_labels.cost 3 ≡ 2
unfolding find_addr add_node clear_node add_node_addr add_link insert_link get_node
    update_local_link find_interface find_in_net dijkstra init_costs add_buffer copy_links
    reset_links init_node_list find_min update_link update_links process_node main_loop remove
final_cost = refl

dijkstra_sound_example : LinkWalk ready 1 3 2
unfolding find_addr add_node clear_node add_node_addr add_link insert_link get_node
    update_local_link find_interface find_in_net dijkstra init_costs add_buffer copy_links
    reset_links init_node_list find_min update_link update_links process_node main_loop remove
dijkstra_sound_example =
    dijkstra_sound ready 10 1 5 ready-IsRoutable final_labels 3 ready_runs refl (omega arith)

-- The link of cost 5 from 10 to 30 is a walk, too.
direct : LinkWalk ready 1 3 5
unfolding find_addr add_node clear_node add_node_addr add_link insert_link get_node
    update_local_link find_interface find_in_net init_costs add_buffer copy_links reset_links
direct = Walk.step Walk.here 13 3 5 refl refl refl

dijkstra_least_example : (final_labels.cost 3 ≤ 5) × (final_labels.cost 3 < ulong_max)
dijkstra_least_example =
    dijkstra_least ready 10 1 5 ready-IsRoutable final_labels 3 5 ready_runs direct

compute_path_lem_example :
    (r : Round) × (compute_path conf true true 10 3 ready ≡ some r) × IsAnswer ready 1 3 r
unfolding find_addr add_node clear_node add_node_addr add_link insert_link get_node
    update_local_link find_interface find_in_net init_costs add_buffer copy_links reset_links
compute_path_lem_example = compute_path_lem conf ready 10 1 3 5 ready-IsRoutable refl

abbrev pub or_no_path : Option (Option OlsrPath × Topology) → OlsrPath × Topology
or_no_path (some (some p, s)) = (p, s)
or_no_path r = (record { path = []; path_hops = 0 }, blank)

abbrev pub found_path : OlsrPath × Topology
found_path = or_no_path (k_dijkstra conf memory 10 30 network)

network_runs : k_dijkstra conf memory 10 30 network ≡ some (some found_path.0, found_path.1)
unfolding find_addr add_node clear_node add_node_addr add_link insert_link get_node
    update_local_link find_interface find_in_net dijkstra init_costs add_buffer copy_links
    reset_links init_node_list find_min update_link update_links process_node main_loop remove
    k_dijkstra k_loop compute_path walk_back copy_addr push_addr raise_costs raise_into raise_back
    find_link_to store_path insert_path add_to_buffer take_costs
network_runs = refl

-- The first path is the one over 20, and the second one the direct link.
network_paths :
    (found_path.0 ≡ record { path = 20 ∷ 30 ∷ []; path_hops = 2 })
    × (found_path.1.path_buffer
        ≡ record {
          src_addr_ip = 10;
          dst_addr_ip = 30;
          lst_path =
              record { path = 20 ∷ 30 ∷ []; path_hops = 2 }
              ∷ record { path = 30 ∷ []; path_hops = 1 }
              ∷ [];
        }
          ∷ [])
unfolding find_addr add_node clear_node add_node_addr add_link insert_link get_node
    update_local_link find_interface find_in_net dijkstra init_costs add_buffer copy_links
    reset_links init_node_list find_min update_link update_links process_node main_loop remove
    k_dijkstra k_loop compute_path walk_back copy_addr push_addr raise_costs raise_into raise_back
    find_link_to store_path insert_path add_to_buffer take_costs
network_paths = (refl, refl)

k_dijkstra-IsShortest_example :
    (dst : ℕ) × (get_node network 30 ≡ some dst) × IsShortest ready 1 dst found_path.0
k_dijkstra-IsShortest_example =
    k_dijkstra-IsShortest conf memory network found_path.1 10 30 1 5 found_path.0
      network-IsWellFormed network-IsCheap network_10 network_main network_runs

conf-IsFactor : IsFactor conf 3
conf-IsFactor = record { positive = omega arith; fp = omega arith; fe = omega arith }

network_fits : length network.node_lst * 45 + 45 < ulong_max
unfolding find_addr add_node clear_node add_node_addr add_link insert_link get_node
    update_local_link find_interface find_in_net
network_fits = omega arith

k_dijkstra_terminates_example :
    (r : Option OlsrPath × Topology) × (k_dijkstra conf memory 10 30 network ≡ some r)
k_dijkstra_terminates_example =
    k_dijkstra_terminates conf memory network 10 30 1 5 3 network-IsWellFormed network-IsCheap
      conf-IsFactor network_fits network_10 network_main
