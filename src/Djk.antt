-- ===== src/Djk.antt =====
-- `dijkstra` of src_iptables/ser_module/ser_path_djk.c: the costs, predecessors and hop counts of
-- the shortest paths from one node.
pub mod Graph
pub mod Min
pub mod Relax
pub mod Invariant
pub mod Round
pub mod Init
pub mod Shortest
pub mod Correct
use mpolsr_testbed.Common.{
  ℕ, zero, suc, ◌+◌, ◌%◌, ◌^◌, Bool, true, false, not, ◌&&◌, Option, none, some, List, [], ◌∷◌, ltb,
  ◌==◌, if◌then◌else◌, ◌>>=◌, length, remove, update,
}
use mpolsr_testbed.Tc.{Labels, Topology, ulong_max}
use mpolsr_testbed.Tc.Hash.{main_addr}

-- unsigned long addition
abbrev pub add_cost : ℕ → ℕ → ℕ
add_cost a b = (a + b) % 2 ^ 32

-- The loop that resets every node and builds `node_list`, which comes out in reverse order.
unfoldable pub init_node_list :
    (ℕ → Option ℕ) → ℕ → List ℕ → List ℕ → Labels → Option (List ℕ × Labels)
init_node_list main src_addr [] node_list t = some (node_list, t)
init_node_list main src_addr (node ∷ nodes) node_list t = main node >>= λ addr_ip.
    init_node_list main src_addr nodes (node ∷ node_list) (record t {
      cost = update t.cost node (if addr_ip == src_addr then 0 else ulong_max);
      path = update t.path node none;
      processed = update t.processed node false;
    })

-- The search for the least cost; ties go to the first node, and a cost of ulong_max is never taken.
unfoldable pub find_min : (ℕ → ℕ) → ℕ → Option ℕ → List ℕ → Option ℕ
find_min cost min_cost found [] = found
find_min cost min_cost found (node ∷ nodes) =
    let less = ltb (cost node) min_cost in
    find_min cost (if less then cost node else min_cost) (if less then some node else found) nodes

module _ (dst_node link_cost : ℕ → ℕ) where
  -- The body of the loop over the links of `node`.
  unfoldable pub update_link : ℕ → ℕ → Labels → Labels
  update_link node link t =
      let dst = dst_node link in
      let min_cost = add_cost (t.cost node) (link_cost link) in
      if not (t.processed dst) && ltb min_cost (t.cost dst)
      then record t {
        cost = update t.cost dst min_cost;
        path = update t.path dst (some node);
        hops = update t.hops dst (t.hops node + 1);
      }
      else t

  unfoldable pub update_links : ℕ → List ℕ → Labels → Labels
  update_links node [] t = t
  update_links node (link ∷ links) t = update_links node links (update_link node link t)

module _ (link_src : ℕ → List ℕ) (dst_node link_cost : ℕ → ℕ) where
  -- One round of the main loop, for the node of least cost.
  unfoldable pub process_node : ℕ → Labels → Labels
  process_node node t =
      update_links dst_node link_cost node (link_src node)
        (record t { processed = update t.processed node true })

  -- The main loop; each round takes a node off the list, so its length is fuel enough. `none` is
  -- the end of the fuel.
  unfoldable pub main_loop : ℕ → List ℕ → Labels → Option Labels
  main_loop zero [] t = some t
  main_loop zero (_ ∷ _) t = none
  main_loop (suc fuel) node_list t = elim (find_min t.cost ulong_max none node_list) [
    | none ↦ some t
    | some node ↦ main_loop fuel (remove node node_list) (process_node node t)
  ]

unfoldable pub dijkstra : Topology → ℕ → Option Labels
dijkstra s src_addr =
    init_node_list (main_addr s) src_addr s.node_lst [] s.labels >>= λ (node_list, t).
    main_loop s.link_src s.dst_node s.dijkstra_cost (length node_list) node_list t
