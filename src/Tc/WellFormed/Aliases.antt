-- ===== src/Tc/WellFormed/Aliases.antt =====
-- Adding and removing an alias keeps the invariant and never faults.
use mpolsr_testbed.Common.{
  ℕ, Bool, ◌≤◌, ◌<◌, ◌≡◌, ◌≢◌, ◌∙◌, refl, sym, ap, subst, inl, inr, true, false, none, some, List,
  [], ◌∷◌, memb, ◌==◌, if◌then◌else◌, ◌>>=◌, Option-cases, arith,
}
use mpolsr_testbed.Tc.{LocalLink, max_ip_alias_by_node, NodeAddr, Topology}
use mpolsr_testbed.Tc.Hash.{add_node_addr, alias_pos, get_node, rmv_node_addr}
use mpolsr_testbed.Tc.Local.{update_link_to}
use mpolsr_testbed.Tc.Nodes.{add_alias, remove_alias}
use mpolsr_testbed.Tc.Lookup.{alias_pos_lem, lookup, slot}
use mpolsr_testbed.Tc.Addresses.{
  cleared, IsIndexed, rmv-cleared, linked, linked-IsIndexed, linked-slot, rmv-slot, rmv-unknown,
  rmv_node_addr-IsIndexed,
}
use mpolsr_testbed.Tc.WellFormed.{IsIndexed-same, IsWellFormed, IsWired-same}
use mpolsr_testbed.Tc.WellFormed.Edges.{get_node-in, update_local_link-some}

with_links-IsWellFormed :
    (s : Topology) (ls : List LocalLink)
    → IsWellFormed s
    → IsWellFormed (record s { local_links = ls })
with_links-IsWellFormed s ls wf = record {
  distinct = wf.distinct;
  indexed = IsIndexed-same s.node_lst s _ refl refl wf.indexed;
  wired = IsWired-same s.node_lst s _ refl refl refl refl wf.wired;
  mains = wf.mains;
}

-- The update of the local link to a node of the list does not fault.
update_link_to-some :
    (s : Topology) (node addr_ip : ℕ) (ls : List LocalLink)
    → IsWellFormed s
    → memb node s.node_lst ≡ true
    → (ls' : List LocalLink) × (update_link_to s node addr_ip ls ≡ some ls')
unfolding update_link_to
update_link_to-some s node addr_ip [] wf m = ([], refl)
update_link_to-some s node addr_ip (l ∷ ls) wf m =
    let (l', filled) = update_local_link-some s node wf m in
    let (ls', rest) = update_link_to-some s node addr_ip ls wf m in
    (if l.dst_addr_ip == addr_ip then l' ∷ ls else l ∷ ls', rw (filled, rest, ◌>>=◌) (ground arith))

module _ (s : Topology) (addr_ip addr_alias : ℕ) (wf : IsWellFormed s) where
  -- The state with the alias at a free position behind the main address.
  module _ (node pos : ℕ) (m : memb node s.node_lst ≡ true) (new : lookup s addr_alias ≡ none)
      (in_tab : pos < max_ip_alias_by_node) (free : slot s node pos ≡ none) (behind : 1 ≤ pos) where
    abbrev entered : Topology
    entered = linked s.node_lst s node addr_alias pos m wf.indexed new in_tab free

    entered-IsWellFormed : IsWellFormed entered
    entered-IsWellFormed = record {
      distinct = wf.distinct;
      indexed = linked-IsIndexed s.node_lst s node addr_alias pos m wf.indexed new in_tab free;
      wired = IsWired-same s.node_lst s entered refl refl refl refl wf.wired;
      mains = λ n n_in.
          let (x, h) = wf.mains n n_in in
          (
            x,
            ground (
              arith,
              linked-slot s.node_lst s node addr_alias pos m wf.indexed new in_tab free n 0,
              h,
            ),
          );
    }

  -- What adding an alias leaves before the local link is updated.
  alias_state :
      (node : ℕ)
      → memb node s.node_lst ≡ true
      → lookup s addr_alias ≡ none
      → (s1 : Topology) × (elim (add_node_addr node addr_alias false s) [ none ↦ s | some s' ↦ s' ]
          ≡ s1)
        × IsWellFormed s1
        × (s1.node_lst ≡ s.node_lst)
  unfolding add_node_addr
  alias_state node m new = elim (Option-cases (alias_pos (s.node_addr_tab node))) [
    | inl full ↦ (s, rw full refl, wf, refl)
    | inr (pos, at) ↦
        let (behind, inside, free) = alias_pos_lem (s.node_addr_tab node) pos at in
        let in_tab : pos < max_ip_alias_by_node = omega (arith, inside, wf.indexed.sizes node m) in
        (
          entered node pos m new in_tab free behind,
          rw at refl,
          entered-IsWellFormed node pos m new in_tab free behind,
          refl,
        )
  ]

  -- Adding an alias that is not known yet succeeds and keeps the invariant, whether the node is known or
  -- not, has room for the alias or not, and whether the allocation succeeds or not.
  pub add_alias-IsWellFormed :
      (allocated : Bool)
      → lookup s addr_alias ≡ none
      → (s' : Topology) × (add_alias allocated addr_ip addr_alias s ≡ some s') × IsWellFormed s'
  unfolding add_alias
  add_alias-IsWellFormed false new = (s, refl, wf)
  add_alias-IsWellFormed true new = elim (Option-cases (get_node s addr_ip)) [
    | inl unknown ↦ (s, rw (add_alias, unknown) refl, wf)
    | inr (node, found) ↦
        let (s1, is, wf1, same) = alias_state node (get_node-in s addr_ip node wf found) new in
        let (ls, updates) =
          update_link_to-some s1 node addr_ip s1.local_links wf1
            (ap (memb node) same ∙ get_node-in s addr_ip node wf found) in
        (
          record s1 { local_links = ls },
          rw (add_alias, found, is, updates) refl,
          with_links-IsWellFormed s1 ls wf1,
        )
  ]

  cleared-IsWellFormed :
      (e : NodeAddr) (found : lookup s addr_alias ≡ some e)
      → e.addr_pos ≢ 0
      → IsWellFormed (cleared s addr_alias e found)
  cleared-IsWellFormed e found behind =
      let is = rmv-cleared s addr_alias e found in
      record {
        distinct = wf.distinct;
        indexed =
            subst (IsIndexed s.node_lst) is
              (rmv_node_addr-IsIndexed s.node_lst s addr_alias wf.indexed);
        wired = IsWired-same s.node_lst s _ refl refl refl refl wf.wired;
        mains = λ n n_in.
            let (x, h) = wf.mains n n_in in
            (
              x,
              ap (λ t. slot t n 0) (sym is)
                  ∙ ground (arith, rmv-slot s addr_alias e found n 0, h, behind),
            );
      }

  -- Removing an address that is not a main address.
  removed_alias :
      ((e : NodeAddr) → lookup s addr_alias ≡ some e → e.addr_pos ≢ 0)
      → IsWellFormed (rmv_node_addr addr_alias s)
        × ((rmv_node_addr addr_alias s).node_lst ≡ s.node_lst)
  removed_alias no_main = elim (Option-cases (lookup s addr_alias)) [
    | inl unknown ↦ rw (rmv-unknown s addr_alias unknown) (wf, refl)
    | inr (e, found) ↦
        let is = rmv-cleared s addr_alias e found in
        (
          subst IsWellFormed (sym is) (cleared-IsWellFormed e found (no_main e found)),
          ap (λ (t : Topology). t.node_lst) is,
        )
  ]

  -- Removing an alias succeeds and keeps the invariant, whether the node and the alias are known or not, if
  -- the alias is not the main address of a node.
  pub remove_alias-IsWellFormed :
      ((e : NodeAddr) → lookup s addr_alias ≡ some e → e.addr_pos ≢ 0)
      → (s' : Topology) × (remove_alias addr_ip addr_alias s ≡ some s') × IsWellFormed s'
  unfolding remove_alias
  remove_alias-IsWellFormed no_main = elim (Option-cases (get_node s addr_ip)) [
    | inl unknown ↦ (s, rw (remove_alias, unknown) refl, wf)
    | inr (node, found) ↦
        let s1 = rmv_node_addr addr_alias s in
        let (wf1, same) = removed_alias no_main in
        let (ls, updates) =
          update_link_to-some s1 node addr_ip s1.local_links wf1
            (ap (memb node) same ∙ get_node-in s addr_ip node wf found) in
        (
          record s1 { local_links = ls },
          rw (remove_alias, found, updates) refl,
          with_links-IsWellFormed s1 ls wf1,
        )
  ]
