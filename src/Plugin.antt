-- ===== src/Plugin.antt =====
-- The plugin of olsrd that tells the routing module what changed in the topology:
-- src_olsr/olsrd-0.5.6-r2/lib/sereadmo/src/ser_tc.c.
--
-- What the plugin reads of olsrd is an argument: the addresses of the interfaces, the neighbours, and the
-- topology and the aliases in the order of olsrd's loops; so are its hash function and HASHSIZE. malloc
-- is taken to succeed, as its result is not checked. A chain of entries is a list; an entry that is freed but
-- still linked is marked, and reading or writing it is a fault. hash_prev is NULL exactly for the first
-- entry of a chain. nb_dst only serves a message. A command is recorded as the token with the arguments of
-- dev_add_cmd.
pub mod Tables
pub mod Links
pub mod Entries
pub mod Activate
pub mod Dsts
pub mod Rounds
pub mod Told
pub mod Reset
pub mod Commands
pub mod Removal
pub mod Sweep
pub mod Nodes
pub mod Mirror
pub mod Store
pub mod Carry
pub mod Faults
pub mod Tidy
pub mod Runs
pub mod Delivered
pub mod Tests
use mpolsr_testbed.Common.{
  ℕ, zero, suc, ◌+◌, ◌==◌, ◌≡◌, Bool, true, false, not, ◌&&◌, Option, none, some, List, [], ◌∷◌,
  ◌++◌, ltb, if◌then◌else◌, ◌>>=◌, memb, update,
}
use mpolsr_testbed.Device.{
  cmd_add_alias, cmd_add_link, cmd_add_node, cmd_remove_alias, cmd_remove_link, cmd_remove_node,
  Token,
}
pub use mpolsr_testbed.Plugin.Tables.{
  activate_mid, active_dsts, active_mids, command, Dst, Entry, has_mid, Mid, other_mids, reset_dsts,
  reset_mids, rmv_links, rmv_mids, rmv_mids_of,
}
unfoldable pub use mpolsr_testbed.Plugin.Tables.{
  activate_dst, change_entry, find_dst, find_entry, is_in_neighbourhood, rmv_all_links,
}

-- g_cur_ser_tc_tab, g_cur_mid_tc, and the commands that were given to the device.
pub record Cache : Type 0 where
  pub tc_tab : ℕ → List Entry
  pub mid_tc : List Mid
  pub sent : List Token

-- What olsrd tells: an interface is an address, a neighbour has a main address and is symmetric or not, an
-- entry of the topology has an address and the destinations of its edges, and an entry of the aliases a
-- main address and the others.
pub record Olsr : Type 0 where
  pub interfaces : List ℕ
  pub neighbours : List (ℕ × Bool)
  pub tc : List (ℕ × List ℕ)
  pub mid_set : List (ℕ × List ℕ)

abbrev pub send_cmds : List Token → Cache → Cache
send_cmds cmds c = record c { sent = c.sent ++ cmds }

unfoldable pub remove_useless_mid : Cache → Cache
remove_useless_mid c = record c {
  mid_tc = active_mids c.mid_tc;
  sent = c.sent ++ rmv_mids c.mid_tc;
}

unfoldable pub add_mid : ℕ → ℕ → Cache → Cache
add_mid main alias c =
    if has_mid main alias c.mid_tc
    then record c { mid_tc = activate_mid main alias c.mid_tc }
    else record c {
      mid_tc = record { main_addr = main; alias_addr = alias; is_active = true } ∷ c.mid_tc;
      sent = c.sent ++ (command cmd_add_alias main alias 0 ∷ []);
    }

unfoldable pub add_aliases : ℕ → List ℕ → Cache → Cache
add_aliases main [] c = c
add_aliases main (alias ∷ aliases) c = add_aliases main aliases (add_mid main alias c)

unfoldable pub add_mids : List (ℕ × List ℕ) → Cache → Cache
add_mids [] c = c
add_mids ((main, aliases) ∷ mids) c = add_mids mids (add_aliases main aliases c)

abbrev pub set_entry : (ℕ → ℕ) → ℕ → (Entry → Entry) → Cache → Cache
set_entry hash addr f c = record c {
  tc_tab = update c.tc_tab (hash addr) (change_entry addr f (c.tc_tab (hash addr)));
}

module _ (hash : ℕ → ℕ) (hashsize : ℕ) (olsr : Olsr) where
  -- The new entry becomes the first of its chain; the one before is written to.
  unfoldable pub create_node : ℕ → Cache → Option Cache
  create_node addr c =
      let key = hash addr in
      let node : Entry = record {
        src_addr = addr;
        dst_tab = λ index. [];
        is_active = true;
        is_src_local = memb addr olsr.interfaces;
        freed = false;
      } in
      let c' = record c {
        tc_tab = update c.tc_tab key (node ∷ c.tc_tab key);
        sent = c.sent ++ (command cmd_add_node addr 0 0 ∷ []);
      } in
      elim (c.tc_tab key) [ [] ↦ some c' | pos ∷ chain ↦ if pos.freed then none else some c' ]

  -- A node that is not there is created; it is active then.
  unfoldable pub activate_node : ℕ → Cache → Option Cache
  activate_node addr c = find_entry addr (c.tc_tab (hash addr)) >>= λ found.
      elim found [ none ↦ create_node addr c | some _ ↦ some c ] >>= λ c'.
      some (set_entry hash addr (λ e. record e { is_active = true }) c')

  -- The end of tc_addLink: the link enters the table of its source, if it is not there.
  unfoldable pub add_dst : ℕ → ℕ → Cache → Option Cache
  add_dst src_addr dst_addr c = find_entry src_addr (c.tc_tab (hash src_addr)) >>= λ found.
      elim found [
        | none ↦ none
        | some e ↦
            let key = hash dst_addr in
            elim (find_dst dst_addr (e.dst_tab key)) [
              | none ↦
                  let d : Dst = record { dst_addr = dst_addr; is_active = true } in
                  some (
                    send_cmds (command cmd_add_link src_addr dst_addr 1 ∷ []) (
                      set_entry hash src_addr
                        (λ x. record x { dst_tab = update x.dst_tab key (d ∷ x.dst_tab key) }) c))
              | some _ ↦ some (
                  set_entry hash src_addr
                    (λ x. record x {
                      dst_tab = update x.dst_tab key (activate_dst dst_addr (x.dst_tab key));
                    })
                    c)
            ]
      ]

  -- A link from the local machine to an address that is no symmetric neighbour is skipped.
  unfoldable pub add_tc_link : ℕ → ℕ → Cache → Option Cache
  add_tc_link src_addr dst_addr c = find_entry src_addr (c.tc_tab (hash src_addr)) >>= λ found.
      let is_local : Bool = elim found [
        | none ↦ memb src_addr olsr.interfaces
        | some e ↦ e.is_src_local
      ] in
      if is_local && not (is_in_neighbourhood dst_addr olsr.neighbours)
      then some c
      else (activate_node src_addr c >>= λ c1.
          activate_node dst_addr c1 >>= add_dst src_addr dst_addr)

  unfoldable pub reset_chain : List Entry → Option (List Entry)
  reset_chain [] = some []
  reset_chain (e ∷ chain) =
      let rest = reset_chain chain in
      if e.freed
      then none
      else (rest >>= λ chain'. some (
          record e {
            is_active = false;
            dst_tab = λ index.
                if ltb index hashsize then reset_dsts (e.dst_tab index) else e.dst_tab index;
          }
          ∷ chain'))

  -- The chains with an index below `n`.
  unfoldable pub reset_tab : ℕ → (ℕ → List Entry) → Option (ℕ → List Entry)
  reset_tab zero tab = some tab
  reset_tab (suc n) tab =
      reset_tab n tab >>= λ tab'. reset_chain (tab n) >>= λ chain. some (update tab' n chain)

  unfoldable pub reset_active_flag : Cache → Option Cache
  reset_active_flag c = reset_tab hashsize c.tc_tab >>= λ tab.
      some (record c { tc_tab = tab; mid_tc = reset_mids c.mid_tc })

  -- The loop over a chain, whose entries from here on are returned. `first` tells that hash_prev of the
  -- entry is NULL. An entry behind another one is freed and stays in the chain.
  unfoldable pub remove_entries : Bool → List Entry → Cache → Option (List Entry × Cache)
  remove_entries first [] c = some ([], c)
  remove_entries first (e ∷ chain) c =
      let e' : Entry = record e {
        dst_tab =
            λ index. if ltb index hashsize then active_dsts (e.dst_tab index) else e.dst_tab index;
      } in
      let c1 = send_cmds (rmv_all_links e.src_addr hashsize e.dst_tab) c in
      let c2 = record c1 {
        mid_tc = other_mids e.src_addr c1.mid_tc;
        sent =
            (c1.sent ++ rmv_mids_of e.src_addr c1.mid_tc)
            ++ (command cmd_remove_node e.src_addr 0 0 ∷ []);
      } in
      let rest = λ (at_head : Bool) (c' : Cache). remove_entries at_head chain c' in
      if e.freed
      then none
      else if e.is_active
      then (rest false c1 >>= λ (chain', c'). some (e' ∷ chain', c'))
      else if first
      then rest true c2
      else (rest false c2 >>= λ (chain', c'). some (record e' { freed = true } ∷ chain', c'))

  -- The chains from `index` on, `n` of them.
  unfoldable pub remove_useless_link : ℕ → ℕ → Cache → Option Cache
  remove_useless_link index zero c = some c
  remove_useless_link index (suc n) c = remove_entries true (c.tc_tab index) c >>= λ (chain, c').
      remove_useless_link (index + 1) n (record c' { tc_tab = update c'.tc_tab index chain })

  unfoldable pub add_edges : ℕ → List ℕ → Cache → Option Cache
  add_edges src [] c = some c
  add_edges src (dst ∷ edges) c = add_tc_link src dst c >>= add_edges src edges

  unfoldable pub add_tc : List (ℕ × List ℕ) → Cache → Option Cache
  add_tc [] c = some c
  add_tc ((src, edges) ∷ tc) c = add_edges src edges c >>= add_tc tc

  unfoldable pub check_data : Cache → Option Cache
  check_data c = reset_active_flag c >>= λ c1. add_tc olsr.tc c1 >>= λ c2.
      remove_useless_link 0 hashsize (remove_useless_mid (add_mids olsr.mid_set c2))

unfoldable pub init_cache : ℕ → Cache → Cache
init_cache hashsize c = record c {
  tc_tab = λ index. if ltb index hashsize then [] else c.tc_tab index;
  mid_tc = [];
}
