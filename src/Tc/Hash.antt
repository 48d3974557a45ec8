-- ===== src/Tc/Hash.antt =====
-- The hash table of addresses of ser_path_tc.c: `get_hash_key`, `tc_add_node_addr`,
-- `tc_rmv_node_addr` and `tc_get_node`.
use mpolsr_testbed.Common.{
  ℕ, ◌+◌, ◌%◌, Bool, Option, none, some, List, [], ◌∷◌, ◌==◌, if◌then◌else◌, get_or, set, update,
}
use mpolsr_testbed.Tc.{NodeAddr, Topology}

-- The first byte of the address in memory.
abbrev pub get_hash_key : ℕ → ℕ
get_hash_key addr_ip = addr_ip % 256

unfoldable pub find_addr : ℕ → List NodeAddr → Option NodeAddr
find_addr addr_ip [] = none
find_addr addr_ip (e ∷ chain) = if e.addr_ip == addr_ip then some e else find_addr addr_ip chain

-- node->addr_tab[0]->addr_ip; `none` is a read through NULL.
abbrev pub main_addr : Topology → ℕ → Option ℕ
main_addr s n = get_or (s.node_addr_tab n) 0 none

-- `none` is the NULL that is returned for an unknown address.
unfoldable pub get_node : Topology → ℕ → Option ℕ
get_node s addr_ip = elim (find_addr addr_ip (s.addr_tab (get_hash_key addr_ip))) [
  | none ↦ none
  | some e ↦ some e.node
]

-- The first free entry after the main address, from `index` on.
unfoldable pub free_pos : ℕ → List (Option ℕ) → Option ℕ
free_pos index [] = none
free_pos index (none ∷ tab) = some index
free_pos index (some _ ∷ tab) = free_pos (index + 1) tab

unfoldable pub alias_pos : List (Option ℕ) → Option ℕ
alias_pos [] = none
alias_pos (_ ∷ tab) = free_pos 1 tab

-- `none` is the result -1: the node has no room for another alias.
unfoldable pub add_node_addr : ℕ → ℕ → Bool → Topology → Option Topology
add_node_addr node addr_ip main_addr s =
    elim (if main_addr then some 0 else alias_pos (s.node_addr_tab node)) [
      | none ↦ none
      | some pos ↦
          let key = get_hash_key addr_ip in
          let node_addr : NodeAddr = record { addr_ip = addr_ip; addr_pos = pos; node = node } in
          some (record s {
            node_addr_tab =
                update s.node_addr_tab node (set (s.node_addr_tab node) pos (some addr_ip));
            addr_tab = update s.addr_tab key (node_addr ∷ s.addr_tab key);
          })
    ]

-- The chain without the first entry of the address.
unfoldable pub unlink_addr : ℕ → List NodeAddr → List NodeAddr
unlink_addr addr_ip [] = []
unlink_addr addr_ip (e ∷ chain) =
    if e.addr_ip == addr_ip then chain else e ∷ unlink_addr addr_ip chain

-- An unknown address changes nothing.
unfoldable pub rmv_node_addr : ℕ → Topology → Topology
rmv_node_addr addr_ip s =
    let key = get_hash_key addr_ip in
    elim (find_addr addr_ip (s.addr_tab key)) [
      | none ↦ s
      | some e ↦ record s {
        addr_tab = update s.addr_tab key (unlink_addr addr_ip (s.addr_tab key));
        node_addr_tab =
            update s.node_addr_tab e.node (set (s.node_addr_tab e.node) e.addr_pos none);
      }
    ]
