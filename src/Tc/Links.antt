-- ===== src/Tc/Links.antt =====
-- The links between nodes in ser_path_tc.c: `tc_add_link` and `tc_remove_link`.
use mpolsr_testbed.Common.{
  ℕ, Bool, Option, none, some, List, [], ◌∷◌, not, ◌&&◌, ◌==◌, if◌then◌else◌, ◌>>=◌, remove, update,
}
use mpolsr_testbed.Tc.{Topology}
use mpolsr_testbed.Tc.Hash.{get_node, main_addr}
use mpolsr_testbed.Tc.Local.{local_addr, remove_link_to, update_local_link}

-- A new link, cleared by memset, enters the lists of its two nodes at their heads.
unfoldable pub insert_link : ℕ → ℕ → ℕ → ℕ → Topology → Topology
insert_link link src dst cost s = record s {
  cost = update s.cost link cost;
  dijkstra_cost = update s.dijkstra_cost link 0;
  dijkstra_cost_p1 = update s.dijkstra_cost_p1 link 0;
  src_node = update s.src_node link src;
  dst_node = update s.dst_node link dst;
  link_src = update s.link_src src (link ∷ s.link_src src);
  link_dst = update s.link_dst dst (link ∷ s.link_dst dst);
}

-- `alloc_link` and `alloc_local` are the results of the allocations; the second one is made only for
-- a link of the local node. `none` is a read of the main address through NULL.
unfoldable pub add_link : Option ℕ → Bool → ℕ → ℕ → ℕ → Topology → Option Topology
add_link none alloc_local addr_src addr_dst cost s = some s
add_link (some link) alloc_local addr_src addr_dst cost s =
    let is_local = addr_src == local_addr s in
    let s1 : Topology = record s { path_buffer = [] } in
    if is_local && not alloc_local then some s else elim (get_node s1 addr_src) [
      | none ↦ some s1
      | some src ↦ elim (get_node s1 addr_dst) [
        | none ↦ some s1
        | some dst ↦
            if is_local
            then (update_local_link s1 dst >>= λ local_link. some (
                insert_link link src dst cost
                  (record s1 { local_links = local_link ∷ s1.local_links })))
            else some (insert_link link src dst cost s1)
      ]
    ]

-- The first link of the list to the node with the main address `addr_dst`; the outer `none` is a read
-- through NULL.
unfoldable pub find_link : Topology → ℕ → List ℕ → Option (Option ℕ)
find_link s addr_dst [] = some none
find_link s addr_dst (link ∷ links) =
    let rest = find_link s addr_dst links in
    main_addr s (s.dst_node link) >>= λ addr_ip.
    if addr_ip == addr_dst then some (some link) else rest

unfoldable pub unlink : ℕ → Topology → Topology
unlink link s = record s {
  link_dst = update s.link_dst (s.dst_node link) (remove link (s.link_dst (s.dst_node link)));
  link_src = update s.link_src (s.src_node link) (remove link (s.link_src (s.src_node link)));
}

unfoldable pub remove_link : ℕ → ℕ → Topology → Option Topology
remove_link addr_src addr_dst s =
    let s1 : Topology = record s { path_buffer = [] } in
    elim (get_node s1 addr_src) [
      | none ↦ some s1
      | some src ↦ find_link s1 addr_dst (s1.link_src src) >>= λ found. elim found [
        | none ↦ some s1
        | some link ↦
            let s2 = unlink link s1 in
            some (
              if addr_src == local_addr s
              then record s2 { local_links = remove_link_to addr_dst s2.local_links }
              else s2)
      ]
    ]
