-- ===== src/Plugin/Tables.antt =====
-- The entries of the plugin's tables, and what its loops do to their chains: ser_tc.h and ser_tc.c of
-- src_olsr/olsrd-0.5.6-r2/lib/sereadmo/src.
use mpolsr_testbed.Common.{
  ℕ, zero, suc, ◌==◌, Bool, true, false, ◌&&◌, Option, none, some, List, [], ◌∷◌, ◌++◌,
  if◌then◌else◌,
}
use mpolsr_testbed.Device.{cmd_remove_alias, cmd_remove_link, Token}

-- struct ser_tc_entry_dst
pub record Dst : Type 0 where
  pub dst_addr : ℕ
  pub is_active : Bool

-- struct ser_tc_entry
pub record Entry : Type 0 where
  pub src_addr : ℕ
  pub dst_tab : ℕ → List Dst
  pub is_active : Bool
  pub is_src_local : Bool
  pub freed : Bool

-- struct ser_tc_mid
pub record Mid : Type 0 where
  pub main_addr : ℕ
  pub alias_addr : ℕ
  pub is_active : Bool

abbrev pub command : ℕ → ℕ → ℕ → ℕ → Token
command kind addr_1 addr_2 value = record {
  kind = kind;
  addr_1 = addr_1;
  addr_2 = addr_2;
  value = value;
}

-- The first neighbour with the address decides.
unfoldable pub is_in_neighbourhood : ℕ → List (ℕ × Bool) → Bool
is_in_neighbourhood addr [] = false
is_in_neighbourhood addr ((main, sym) ∷ rest) =
    if addr == main then sym else is_in_neighbourhood addr rest

-- The search in a chain; the inner `none` is NULL.
unfoldable pub find_entry : ℕ → List Entry → Option (Option Entry)
find_entry addr [] = some none
find_entry addr (e ∷ chain) =
    let rest = find_entry addr chain in
    if e.freed then none else if e.src_addr == addr then some (some e) else rest

-- A write to the first entry with the address.
unfoldable pub change_entry : ℕ → (Entry → Entry) → List Entry → List Entry
change_entry addr f [] = []
change_entry addr f (e ∷ chain) =
    if e.src_addr == addr then f e ∷ chain else e ∷ change_entry addr f chain

unfoldable pub find_dst : ℕ → List Dst → Option Dst
find_dst addr [] = none
find_dst addr (d ∷ chain) = if d.dst_addr == addr then some d else find_dst addr chain

unfoldable pub activate_dst : ℕ → List Dst → List Dst
activate_dst addr [] = []
activate_dst addr (d ∷ chain) =
    if d.dst_addr == addr
    then record d { is_active = true } ∷ chain
    else d ∷ activate_dst addr chain

abbrev pub reset_dsts : List Dst → List Dst
reset_dsts [] = []
reset_dsts (d ∷ chain) = record d { is_active = false } ∷ reset_dsts chain

abbrev pub reset_mids : List Mid → List Mid
reset_mids [] = []
reset_mids (x ∷ mids) = record x { is_active = false } ∷ reset_mids mids

-- The destinations of the chain that stay, and the commands for those that go.
abbrev pub active_dsts : List Dst → List Dst
active_dsts [] = []
active_dsts (d ∷ chain) = if d.is_active then d ∷ active_dsts chain else active_dsts chain

abbrev pub rmv_links : ℕ → List Dst → List Token
rmv_links src [] = []
rmv_links src (d ∷ chain) =
    if d.is_active
    then rmv_links src chain
    else command cmd_remove_link src d.dst_addr 0 ∷ rmv_links src chain

-- The commands for the destinations of an entry in the chains with an index below `n`.
unfoldable pub rmv_all_links : ℕ → ℕ → (ℕ → List Dst) → List Token
rmv_all_links src zero tab = []
rmv_all_links src (suc n) tab = rmv_all_links src n tab ++ rmv_links src (tab n)

-- The aliases that stay, and the commands for those that go: those that are not active.
abbrev pub active_mids : List Mid → List Mid
active_mids [] = []
active_mids (x ∷ mids) = if x.is_active then x ∷ active_mids mids else active_mids mids

abbrev pub rmv_mids : List Mid → List Token
rmv_mids [] = []
rmv_mids (x ∷ mids) =
    if x.is_active
    then rmv_mids mids
    else command cmd_remove_alias x.main_addr x.alias_addr 0 ∷ rmv_mids mids

-- The same for the aliases of a node.
abbrev pub other_mids : ℕ → List Mid → List Mid
other_mids addr [] = []
other_mids addr (x ∷ mids) =
    if x.main_addr == addr then other_mids addr mids else x ∷ other_mids addr mids

abbrev pub rmv_mids_of : ℕ → List Mid → List Token
rmv_mids_of addr [] = []
rmv_mids_of addr (x ∷ mids) =
    if x.main_addr == addr
    then command cmd_remove_alias x.main_addr x.alias_addr 0 ∷ rmv_mids_of addr mids
    else rmv_mids_of addr mids

abbrev pub has_mid : ℕ → ℕ → List Mid → Bool
has_mid main alias [] = false
has_mid main alias (x ∷ mids) =
    if x.main_addr == main && x.alias_addr == alias then true else has_mid main alias mids

abbrev pub activate_mid : ℕ → ℕ → List Mid → List Mid
activate_mid main alias [] = []
activate_mid main alias (x ∷ mids) =
    if x.main_addr == main && x.alias_addr == alias
    then record x { is_active = true } ∷ mids
    else x ∷ activate_mid main alias mids
