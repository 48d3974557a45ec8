-- ===== src/Tc/Network/Aliases.antt =====
-- Adding and removing aliases, as steps of the network.
use mpolsr_testbed.Common.{
  ltb, length, ℕ, ◌≡◌, ◌≢◌, ◌≤◌, ◌<◌, refl, sym, subst, inl, inr, true, false, ◌⊎◌, Bool, none,
  some, List, ◌&&◌, memb, ◌==◌, Option-cases, if◌then◌else◌, >>=-eq-some, arith,
}
use mpolsr_testbed.Tc.{LocalLink, max_ip_alias_by_node, NodeAddr, Topology}
use mpolsr_testbed.Tc.Hash.{add_node_addr, alias_pos, get_node, rmv_node_addr}
use mpolsr_testbed.Tc.Local.{update_link_to}
use mpolsr_testbed.Tc.Nodes.{add_alias, remove_alias}
use mpolsr_testbed.Tc.Lookup.{alias_pos_lem, lookup, slot}
use mpolsr_testbed.Tc.Addresses.{
  linked, linked-lookup, linked-slot, rmv-cleared, rmv-lookup, rmv-slot, rmv-unknown,
}
use mpolsr_testbed.Tc.WellFormed.{IsWellFormed}
use mpolsr_testbed.Tc.WellFormed.Edges.{get_node-in}
use mpolsr_testbed.Tc.Network.Full.{alias_pos-IsFull}
use mpolsr_testbed.Tc.Network.{IsFull, Same, Same-refl, Same-trans, view, with_alias, without_alias}
use mpolsr_testbed.Tc.Network.Arcs.{becomes}

local_links-view :
    (s : Topology) (ls : List LocalLink) → Same (view s) (view (record s { local_links = ls }))
unfolding get_node
local_links-view s ls = record { owner = λ a. refl; main = λ n. refl; arc = λ l. refl }

module _ (s : Topology) (wf : IsWellFormed s) where
  linked-view :
      (node ip pos : ℕ) (m : memb node s.node_lst ≡ true) (new : lookup s ip ≡ none)
      (in_tab : pos < max_ip_alias_by_node) (free : slot s node pos ≡ none)
      → 1 ≤ pos
      → Same
          (with_alias ip node (view s))
          (view (linked s.node_lst s node ip pos m wf.indexed new in_tab free))
  unfolding get_node
  linked-view node ip pos m new in_tab free behind = record {
    owner =
        λ b. ground (arith, linked-lookup s.node_lst s node ip pos m wf.indexed new in_tab free b);
    main =
        λ n. ground (arith, linked-slot s.node_lst s node ip pos m wf.indexed new in_tab free n 0);
    arc = λ l. refl;
  }

  -- What comes of adding an alias: a name of the node, or nothing if there is no memory, the node is
  -- unknown or its table is full.
  abbrev pub AddsAlias : Bool → ℕ → ℕ → Topology → Type 0
  AddsAlias allocated addr_ip addr_alias s' =
      (((allocated ≡ false)
          ⊎ ((get_node s addr_ip ≡ none)
              ⊎ ((n : ℕ) × (get_node s addr_ip ≡ some n) × IsFull n (view s))))
        × Same (view s) (view s'))
      ⊎ ((n : ℕ) × (get_node s addr_ip ≡ some n)
          × Same (with_alias addr_alias n (view s)) (view s'))

  pub add_alias-view :
      (allocated : Bool) (addr_ip addr_alias : ℕ) (s' : Topology)
      → lookup s addr_alias ≡ none
      → add_alias allocated addr_ip addr_alias s ≡ some s'
      → AddsAlias allocated addr_ip addr_alias s'
  unfolding add_alias add_node_addr
  add_alias-view false addr_ip addr_alias s' new runs =
      inl (inl refl, becomes s wf s s' (view s) runs (Same-refl (view s)))
  add_alias-view true addr_ip addr_alias s' new runs = elim (Option-cases (get_node s addr_ip)) [
    | inl unknown ↦ inl (
      inr (inl unknown),
      becomes s wf s s' (view s) (rw (add_alias, unknown) at runs) (Same-refl (view s)),
    )
    | inr (node, found) ↦ elim (Option-cases (alias_pos (s.node_addr_tab node))) [
      | inl full ↦
          let (ls, _, is) =
            >>=-eq-some (update_link_to s node addr_ip s.local_links) _
              (rw (add_alias, found, full) at runs) in
          inl (
            inr (
                inr (
                  node,
                  found,
                  alias_pos-IsFull s node wf (get_node-in s addr_ip node wf found) full,
                )),
            becomes s wf _ s' (view s) is (local_links-view s ls),
          )
      | inr (pos, at) ↦
          let (behind, inside, free) = alias_pos_lem (s.node_addr_tab node) pos at in
          let m = get_node-in s addr_ip node wf found in
          let in_tab : pos < max_ip_alias_by_node =
            omega (arith, inside, wf.indexed.sizes node m) in
          let s1 = linked s.node_lst s node addr_alias pos m wf.indexed new in_tab free in
          let (ls, _, is) =
            >>=-eq-some (update_link_to s1 node addr_ip s.local_links) _
              (rw (add_alias, found, at) at runs) in
          inr (
            node,
            found,
            becomes s wf _ s' (with_alias addr_alias node (view s)) is (
                Same-trans _ _ _ (linked-view node addr_alias pos m new in_tab free behind)
                  (local_links-view s1 ls)),
          )
    ]
  ]

  removed_addr-view :
      (a : ℕ)
      → ((e : NodeAddr) → lookup s a ≡ some e → e.addr_pos ≢ 0)
      → Same (without_alias a (view s)) (view (rmv_node_addr a s))
  unfolding get_node
  removed_addr-view a no_main = elim (Option-cases (lookup s a)) [
    | inl unknown ↦
        rw (rmv-unknown s a unknown)
          (record { owner = λ b. ground (arith, unknown); main = λ n. refl; arc = λ l. refl })
    | inr (e, found) ↦
        subst (λ t. Same (without_alias a (view s)) (view t)) (sym (rmv-cleared s a e found))
          (record {
            owner = λ b. ground (
              arith,
              subst (λ t. lookup t b ≡ (if a == b then none else lookup s b))
                  (rmv-cleared s a e found) (rmv-lookup s a e found b wf.indexed.chains),
            );
            main = λ n. ground (
              arith,
              subst
                  (λ t. slot t n 0 ≡ (
                    if e.node == n && (e.addr_pos == 0 && ltb 0 (length (s.node_addr_tab n)))
                    then none
                    else slot s n 0))
                  (rmv-cleared s a e found) (rmv-slot s a e found n 0),
              no_main e found,
            );
            arc = λ l. refl;
          })
  ]

  -- Removing an alias: the name goes, unless the node is unknown.
  pub remove_alias-view :
      (addr_ip addr_alias : ℕ) (s' : Topology)
      → ((e : NodeAddr) → lookup s addr_alias ≡ some e → e.addr_pos ≢ 0)
      → remove_alias addr_ip addr_alias s ≡ some s'
      → ((get_node s addr_ip ≡ none) × Same (view s) (view s'))
        ⊎ Same (without_alias addr_alias (view s)) (view s')
  unfolding remove_alias
  remove_alias-view addr_ip addr_alias s' no_main runs = elim (Option-cases (get_node s addr_ip)) [
    | inl unknown ↦ inl (
      unknown,
      becomes s wf s s' (view s) (rw (remove_alias, unknown) at runs) (Same-refl (view s)),
    )
    | inr (node, found) ↦
        let s1 = rmv_node_addr addr_alias s in
        let (ls, _, is) =
          >>=-eq-some (update_link_to s1 node addr_ip s1.local_links) _
            (rw (remove_alias, found) at runs) in
        inr (
          becomes s wf _ s' (without_alias addr_alias (view s)) is
            (Same-trans _ _ _ (removed_addr-view addr_alias no_main) (local_links-view s1 ls)))
  ]
