-- ===== src/Kdjk.antt =====
-- `tc_k_dijstra` of src_iptables/ser_module/ser_path_djk.c: several paths between two nodes, from as
-- many runs of `dijkstra`, with the costs of the links of each path raised before the next run.
pub mod Route
pub mod Path
pub mod Prepare
pub mod Loop
pub mod First
pub mod Raise
pub mod Keeps
pub mod Total
pub mod Tests
use mpolsr_testbed.Common.{
  ℕ, zero, suc, ◌+◌, ◌*◌, ◌%◌, ◌^◌, Bool, Option, none, some, List, [], ◌∷◌, ◌==◌, if◌then◌else◌,
  ◌>>=◌, replicate, set, update,
}
use mpolsr_testbed.Tc.{OlsrPath, PathBuffer, Topology, ulong_max}
use mpolsr_testbed.Tc.Hash.{get_node, main_addr}
use mpolsr_testbed.Djk.{dijkstra}

-- The module parameters g_conf_path, g_conf_fp and g_conf_fe, none of them negative.
pub record Config : Type 0 where
  pub path : ℕ
  pub fp : ℕ
  pub fe : ℕ

-- Which of the allocations succeed: of the path buffer, and of the path and its array in each round.
pub record Memory : Type 0 where
  pub path_buffer : Bool
  pub path : ℕ → Bool
  pub path_data : ℕ → Bool

-- The macros FP and FE
abbrev pub mul_cost : ℕ → ℕ → ℕ
mul_cost value factor = (value * factor) % 2 ^ 32

-- The first link of the list that ends at `node`.
unfoldable pub find_link_to : (ℕ → ℕ) → ℕ → List ℕ → Option ℕ
find_link_to dst_node node [] = none
find_link_to dst_node node (link ∷ links) =
    if dst_node link == node then some link else find_link_to dst_node node links

-- For every link, dijkstra_cost and dijkstra_cost_p1 back to the cost in the topology.
unfoldable pub reset_links : (ℕ → ℕ) → List ℕ → (ℕ → ℕ) → ℕ → ℕ
reset_links cost [] m = m
reset_links cost (link ∷ links) m = reset_links cost links (update m link (cost link))

-- A loop over the links of all nodes that copies `from` into the field `m`.
unfoldable pub copy_links : (ℕ → List ℕ) → List ℕ → (ℕ → ℕ) → (ℕ → ℕ) → ℕ → ℕ
copy_links link_src [] from m = m
copy_links link_src (node ∷ nodes) from m =
    copy_links link_src nodes from (reset_links from (link_src node) m)

unfoldable pub init_costs : Topology → Topology
init_costs s = record s {
  dijkstra_cost = copy_links s.link_src s.node_lst s.cost s.dijkstra_cost;
  dijkstra_cost_p1 = copy_links s.link_src s.node_lst s.cost s.dijkstra_cost_p1;
}

unfoldable pub take_costs : Topology → Topology
take_costs s = record s {
  dijkstra_cost = copy_links s.link_src s.node_lst s.dijkstra_cost_p1 s.dijkstra_cost;
}

-- The variables of the walk from the destination back to the source: the array, how many entries lie
-- before and at `buff`, and dijkstra_cost_p1.
pub record Walkback : Type 0 where
  pub path : List ℕ
  pub room : ℕ
  pub cost_p1 : ℕ → ℕ

-- `*buff-- = addr`; `none` is a write before the array.
unfoldable pub push_addr : ℕ → Walkback → Option Walkback
push_addr addr b = elim b.room [
  | zero ↦ none
  | suc r ↦ some (record b { path = set b.path r addr; room = r })
]

module _ (conf : Config) (s : Topology) where
  -- The links into `prev`: FP for those that come from `node`, FE for all others.
  unfoldable pub raise_into : ℕ → List ℕ → (ℕ → ℕ) → ℕ → ℕ
  raise_into node [] p1 = p1
  raise_into node (link ∷ links) p1 = raise_into node links (
      update p1 link
        (mul_cost (s.dijkstra_cost link) (if s.src_node link == node then conf.fp else conf.fe)))

  -- The link back from `prev` to `node`, if there is one.
  unfoldable pub raise_back : ℕ → ℕ → (ℕ → ℕ) → ℕ → ℕ
  raise_back prev node p1 = elim (find_link_to s.dst_node node (s.link_src prev)) [
    | none ↦ p1
    | some link ↦ update p1 link (mul_cost (s.dijkstra_cost link) conf.fp)
  ]

  unfoldable pub raise_costs : Option ℕ → ℕ → (ℕ → ℕ) → ℕ → ℕ
  raise_costs none node p1 = p1
  raise_costs (some prev) node p1 = raise_back prev node (raise_into node (s.link_dst prev) p1)

  -- The address of a node is copied, except that of the source, which has no predecessor.
  unfoldable pub copy_addr : ℕ → Walkback → Option Walkback
  copy_addr node b = elim (s.labels.path node) [
    | none ↦ some b
    | some _ ↦ main_addr s node >>= λ addr. push_addr addr b
  ]

  -- The loop back along dijkstra_path. The fuel is for the model; its length is shown to suffice in `Kdjk/Route`.
  unfoldable pub walk_back : ℕ → Option ℕ → ℕ → Walkback → Option Walkback
  walk_back zero prev node b = none
  walk_back (suc fuel) prev node b = copy_addr node b >>= λ b1.
      let b2 : Walkback = record b1 { cost_p1 = raise_costs prev node b1.cost_p1 } in
      elim (s.labels.path node) [
        | none ↦ some b2
        | some before ↦ walk_back fuel (some node) before b2
      ]

-- The path goes first if there is none, else it goes behind the first one.
unfoldable pub insert_path : OlsrPath → List OlsrPath → List OlsrPath
insert_path path [] = path ∷ []
insert_path path (first ∷ paths) = first ∷ path ∷ paths

unfoldable pub add_to_buffer : OlsrPath → List PathBuffer → List PathBuffer
add_to_buffer path [] = []
add_to_buffer path (buffer ∷ buffers) =
    record buffer { lst_path = insert_path path buffer.lst_path } ∷ buffers

-- The end of a round: the raised costs become the costs, and the path enters the buffer.
unfoldable pub store_path : OlsrPath → (ℕ → ℕ) → Topology → Topology
store_path path cost_p1 s =
    let s' = take_costs (record s { dijkstra_cost_p1 = cost_p1 }) in
    record s' { path_buffer = add_to_buffer path s'.path_buffer }

-- The outcome of a round: NULL is returned, with the topology as it is then, or a path is found.
pub data Round : Type 0 where
  stop : Topology → Round
  found : OlsrPath → Topology → Round

-- One round of the loop over `index_path`. A read through NULL, or a write before the array, is
-- `none`.
unfoldable pub compute_path : Config → Bool → Bool → ℕ → ℕ → Topology → Option Round
compute_path conf mem_path mem_data src_addr dst s = dijkstra s src_addr >>= λ t.
    let s1 : Topology = record s { labels = t } in
    let hops = t.hops dst in
    let b : Walkback = record {
      path = replicate hops 0;
      room = hops;
      cost_p1 = s.dijkstra_cost_p1;
    } in
    if t.cost dst == ulong_max
    then some (stop s1)
    else if mem_path
    then if mem_data
      then (walk_back conf s1 (suc hops) none dst b >>= λ b'.
          let path : OlsrPath = record { path = b'.path; path_hops = hops } in
          some (found path (store_path path b'.cost_p1 s1)))
      else some (stop s1)
    else some (stop s1)

-- The loop over `index_path`; `first` is the path that is returned at its end.
unfoldable pub k_loop :
    Config
    → Memory
    → ℕ
    → ℕ
    → ℕ
    → ℕ
    → Option OlsrPath
    → Topology
    → Option (Option OlsrPath × Topology)
k_loop conf mem src_addr dst index zero first s = some (first, s)
k_loop conf mem src_addr dst index (suc rounds) first s =
    compute_path conf (mem.path index) (mem.path_data index) src_addr dst s >>= λ r. elim r [
      | stop s' ↦ some (none, s')
      | found path s' ↦
          k_loop conf mem src_addr dst (index + 1) rounds
            (elim first [ none ↦ some path | some f ↦ some f ]) s'
    ]

-- The new entry of the path cache, in front.
unfoldable pub add_buffer : ℕ → ℕ → Topology → Topology
add_buffer src_addr dst_addr s =
    let buffer : PathBuffer = record {
      src_addr_ip = src_addr;
      dst_addr_ip = dst_addr;
      lst_path = [];
    } in
    record s { path_buffer = buffer ∷ s.path_buffer }

-- The path that is returned, `none` for NULL, and the topology afterwards.
unfoldable pub k_dijkstra : Config → Memory → ℕ → ℕ → Topology → Option (Option OlsrPath × Topology)
k_dijkstra conf mem src_addr dst_addr s =
    let s1 = add_buffer src_addr dst_addr s in
    if mem.path_buffer
    then (elim (get_node s1 dst_addr) [
      | none ↦ some (none, s1)
      | some dst ↦ k_loop conf mem src_addr dst 0 conf.path none (init_costs s1)
    ])
    else some (none, s)
