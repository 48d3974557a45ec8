-- ===== src/Tc/Nodes.antt =====
-- The nodes and their addresses in ser_path_tc.c: `tc_add_node`, `tc_remove_node`, `tc_add_alias`,
-- `tc_remove_alias`, `tc_init_data` and `tc_free_data`. Memory comes from an allocator: an operation
-- takes what it returned. Each operation holds the lock throughout, so it is one step.
use mpolsr_testbed.Common.{
  ℕ, Bool, true, false, Option, none, some, List, [], ◌∷◌, ltb, ◌==◌, if◌then◌else◌, ◌>>=◌, get_or,
  replicate, remove, update,
}
use mpolsr_testbed.Tc.{Topology, max_ip_alias_by_node}
use mpolsr_testbed.Tc.Hash.{add_node_addr, rmv_node_addr, get_node}
use mpolsr_testbed.Tc.Local.{local_addr, remove_link_to, update_link_to}

-- memset of a new node
unfoldable pub clear_node : ℕ → Topology → Topology
clear_node p s = record s {
  node_addr_tab = update s.node_addr_tab p (replicate max_ip_alias_by_node none);
  link_src = update s.link_src p [];
  link_dst = update s.link_dst p [];
  labels = record (s.labels) {
    cost = update s.labels.cost p 0;
    path = update s.labels.path p none;
    hops = update s.labels.hops p 0;
    processed = update s.labels.processed p false;
  };
}

-- `alloc_node` and `alloc_addr` are the results of the two allocations, of which only the first
-- pointer matters.
unfoldable pub add_node : Option ℕ → Bool → ℕ → Topology → Topology
add_node none alloc_addr addr_ip s = s
add_node (some p) false addr_ip s = s
add_node (some p) true addr_ip s =
    let s1 = record (clear_node p s) { path_buffer = [] } in
    elim (add_node_addr p addr_ip true s1) [
      | none ↦ s1
      | some s2 ↦ record s2 { node_lst = p ∷ s2.node_lst }
    ]

-- The loop that unlinks the addresses of a node, over the entries of its table.
unfoldable pub remove_addrs : ℕ → List ℕ → Topology → Topology
remove_addrs node [] s = s
remove_addrs node (index ∷ rest) s =
    remove_addrs node rest (elim (get_or (s.node_addr_tab node) index none) [
      | none ↦ s
      | some addr_ip ↦ rmv_node_addr addr_ip s
    ])

abbrev pub all_pos : List ℕ
all_pos = 0 ∷ 1 ∷ 2 ∷ 3 ∷ 4 ∷ []

-- Each link of the list leaves the list of its node `owner link`.
unfoldable pub unlink_each : (ℕ → ℕ) → List ℕ → (ℕ → List ℕ) → ℕ → List ℕ
unlink_each owner [] m = m
unlink_each owner (link ∷ links) m =
    unlink_each owner links (update m (owner link) (remove link (m (owner link))))

unfoldable pub remove_links : ℕ → Topology → Topology
remove_links node s =
    let link_dst = unlink_each s.dst_node (s.link_src node) s.link_dst in
    record s { link_dst = link_dst; link_src = unlink_each s.src_node (link_dst node) s.link_src }

-- The local links go with the local node, else the one to the node that is removed.
unfoldable pub remove_local_links : ℕ → Topology → Topology
remove_local_links addr_ip s = record s {
  local_links = if addr_ip == local_addr s then [] else remove_link_to addr_ip s.local_links;
}

-- An address that is not found is a fault: the end of the function reads node->link_src through the
-- NULL that the search returned.
unfoldable pub remove_node : ℕ → Topology → Option Topology
remove_node addr_ip s = get_node s addr_ip >>= λ node.
    let s1 = remove_local_links addr_ip s in
    let s2 : Topology = record s1 { path_buffer = []; node_lst = remove node s1.node_lst } in
    some (remove_links node (remove_addrs node all_pos s2))

-- An alias for which the node has no room is dropped; `none` is a read of the main address through
-- NULL.
unfoldable pub add_alias : Bool → ℕ → ℕ → Topology → Option Topology
add_alias false addr_ip addr_alias s = some s
add_alias true addr_ip addr_alias s = elim (get_node s addr_ip) [
  | none ↦ some s
  | some node ↦
      let s1 : Topology = elim (add_node_addr node addr_alias false s) [
        | none ↦ s
        | some s' ↦ s'
      ] in
      update_link_to s1 node addr_ip s1.local_links >>= λ ls. some (record s1 { local_links = ls })
]

unfoldable pub remove_alias : ℕ → ℕ → Topology → Option Topology
remove_alias addr_ip addr_alias s = elim (get_node s addr_ip) [
  | none ↦ some s
  | some node ↦
      let s1 = rmv_node_addr addr_alias s in
      update_link_to s1 node addr_ip s1.local_links >>= λ ls. some (record s1 { local_links = ls })
]

-- The other globals keep the values that they were declared with.
unfoldable pub init_data : Topology → Topology
init_data s = record s {
  addr_tab = λ key. if ltb key 256 then [] else s.addr_tab key;
  local_addr_tab = replicate max_ip_alias_by_node 0;
  local_mask_tab = replicate max_ip_alias_by_node 0;
}

unfoldable pub free_data : Topology → Topology
free_data s = record (init_data s) { node_lst = []; path_buffer = []; local_links = [] }
