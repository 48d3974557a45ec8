-- ===== src/Tc/Local.antt =====
-- The links of the local node in ser_path_tc.c: `tc_update_local_link`, `tc_set_local_addr` and
-- `tc_set_local_alias`, and the changes of the list of local links.
use Prim.Native.Nat.{bit_and}
use mpolsr_testbed.Common.{
  ℕ, Option, none, some, List, [], ◌∷◌, ◌==◌, if◌then◌else◌, ◌>>=◌, get_or, set,
}
use mpolsr_testbed.Tc.{LocalLink, Topology}
use mpolsr_testbed.Tc.Hash.{main_addr}

-- The first address of the node in the network `net` under `mask`.
unfoldable pub find_in_net : ℕ → ℕ → List (Option ℕ) → Option ℕ
find_in_net mask net [] = none
find_in_net mask net (none ∷ tab) = find_in_net mask net tab
find_in_net mask net (some ip ∷ tab) =
    if bit_and ip mask == net then some ip else find_in_net mask net tab

-- The loop over the local addresses and masks: a local address, its mask, and the address of the node
-- in the same network. A network 0 is skipped.
unfoldable pub find_interface : List ℕ → List ℕ → List (Option ℕ) → Option (ℕ × ℕ × ℕ)
find_interface [] masks tab = none
find_interface (addr ∷ addrs) [] tab = none
find_interface (addr ∷ addrs) (mask ∷ masks) tab =
    let rest = find_interface addrs masks tab in
    let net = bit_and addr mask in
    if net == 0
    then rest
    else elim (find_in_net mask net tab) [ none ↦ rest | some ip ↦ some (addr, mask, ip) ]

unfoldable pub update_local_link : Topology → ℕ → Option LocalLink
update_local_link s node_dst = main_addr s node_dst >>= λ dst_addr_ip.
    some (elim (find_interface s.local_addr_tab s.local_mask_tab (s.node_addr_tab node_dst)) [
      | none ↦ record {
        dst_addr_ip = dst_addr_ip;
        dst_alias_ip = 0;
        local_addr_alias = 0;
        local_addr_mask = 0;
      }
      | some (addr, mask, ip) ↦ record {
        dst_addr_ip = dst_addr_ip;
        dst_alias_ip = ip;
        local_addr_alias = addr;
        local_addr_mask = mask;
      }
    ])

-- The first local link to `addr_ip` is updated; its node is `node`.
unfoldable pub update_link_to : Topology → ℕ → ℕ → List LocalLink → Option (List LocalLink)
update_link_to s node addr_ip [] = some []
update_link_to s node addr_ip (l ∷ ls) =
    let rest = update_link_to s node addr_ip ls in
    if l.dst_addr_ip == addr_ip
    then (update_local_link s node >>= λ l'. some (l' ∷ ls))
    else rest >>= λ ls'. some (l ∷ ls')

-- The list without the first link to `addr_ip`.
unfoldable pub remove_link_to : ℕ → List LocalLink → List LocalLink
remove_link_to addr_ip [] = []
remove_link_to addr_ip (l ∷ ls) =
    if l.dst_addr_ip == addr_ip then ls else l ∷ remove_link_to addr_ip ls

abbrev pub local_addr : Topology → ℕ
local_addr s = get_or s.local_addr_tab 0 0

unfoldable pub set_local_addr : ℕ → ℕ → Topology → Topology
set_local_addr addr_ip mask s = record s {
  local_addr_tab = set s.local_addr_tab 0 addr_ip;
  local_mask_tab = set s.local_mask_tab 0 mask;
}

-- The loop over the entries behind the first: the first free one takes the address and mask.
unfoldable pub fill_free : ℕ → ℕ → List ℕ → List ℕ → List ℕ × List ℕ
fill_free addr_ip mask (a ∷ addrs) (m ∷ masks) =
    let (addrs', masks') = fill_free addr_ip mask addrs masks in
    if a == 0 then (addr_ip ∷ addrs, mask ∷ masks) else (a ∷ addrs', m ∷ masks')
fill_free addr_ip mask addrs masks = (addrs, masks)

unfoldable pub set_local_alias : ℕ → ℕ → Topology → Topology
set_local_alias addr_ip mask s = elim s.local_addr_tab [
  | [] ↦ s
  | a ∷ addrs ↦ elim s.local_mask_tab [
    | [] ↦ s
    | m ∷ masks ↦
        let (addrs', masks') = fill_free addr_ip mask addrs masks in
        record s { local_addr_tab = a ∷ addrs'; local_mask_tab = m ∷ masks' }
  ]
]
