-- ===== src/Tc.antt =====
-- The topology store of src_iptables/ser_module/ser_path_def.h and ser_path_tc.c.
--
-- A pointer is a number, and the memory of a struct is one function of the pointer for each field
-- (`link_src`, `cost`, ...). A doubly linked list is the list of its elements from the head on; the
-- entries of a hash chain are kept by value, for they are never changed while they are linked.
-- unsigned long has 32 bits and addresses are little endian, as on the 32-bit x86 the module runs on.
pub mod Hash
pub mod Local
pub mod Nodes
pub mod Links
pub mod Lookup
pub mod Addresses
pub mod Wiring
pub mod WellFormed
pub mod Network
pub mod Tests
use mpolsr_testbed.Common.{ℕ, ◌-◌, ◌^◌, Bool, Option, List}

abbrev pub ulong_max : ℕ
ulong_max = 2 ^ 32 - 1

abbrev pub max_ip_alias_by_node : ℕ
max_ip_alias_by_node = 5

-- struct olsr_node_addr, without its place in the chain
pub record NodeAddr : Type 0 where
  pub addr_ip : ℕ
  pub addr_pos : ℕ
  pub node : ℕ

-- The fields of struct olsr_node that `dijkstra` works on. `path` holds pointers, NULL is `none`.
pub record Labels : Type 0 where
  pub cost : ℕ → ℕ
  pub path : ℕ → Option ℕ
  pub hops : ℕ → ℕ
  pub processed : ℕ → Bool

-- struct olsr_path. `path_hops` is the length that the array was allocated with.
pub record OlsrPath : Type 0 where
  pub path : List ℕ
  pub path_hops : ℕ

-- struct olsr_path_buffer. The ring of paths is the list that starts at `lst_path`.
pub record PathBuffer : Type 0 where
  pub src_addr_ip : ℕ
  pub dst_addr_ip : ℕ
  pub lst_path : List OlsrPath

-- struct local_link
pub record LocalLink : Type 0 where
  pub dst_addr_ip : ℕ
  pub dst_alias_ip : ℕ
  pub local_addr_alias : ℕ
  pub local_addr_mask : ℕ

-- The globals, and the fields of struct olsr_node and struct olsr_node_link. An entry of `addr_tab`
-- of a node is the address in the struct olsr_node_addr that it points to, NULL is `none`.
pub record Topology : Type 0 where
  pub addr_tab : ℕ → List NodeAddr
  pub node_lst : List ℕ
  pub node_addr_tab : ℕ → List (Option ℕ)
  pub link_src : ℕ → List ℕ
  pub link_dst : ℕ → List ℕ
  pub labels : Labels
  pub src_node : ℕ → ℕ
  pub dst_node : ℕ → ℕ
  pub cost : ℕ → ℕ
  pub dijkstra_cost : ℕ → ℕ
  pub dijkstra_cost_p1 : ℕ → ℕ
  pub path_buffer : List PathBuffer
  pub local_addr_tab : List ℕ
  pub local_mask_tab : List ℕ
  pub local_links : List LocalLink
