-- ===== src/Device/Step.antt =====
-- A token of the device as a step of a graph with named nodes.
use mpolsr_testbed.Common.{
  ℕ, ◌≡◌, ◌≢◌, ◌∙◌, refl, sym, subst, inl, inr, true, false, ◌⊎◌, Bool, Option, none, some, List,
  ◌==◌, ==_iff, if◌then◌else◌, set, arith,
}
use mpolsr_testbed.Tc.{Topology}
use mpolsr_testbed.Tc.Hash.{get_node}
use mpolsr_testbed.Tc.Local.{set_local_addr, set_local_alias}
use mpolsr_testbed.Tc.Nodes.{add_alias, add_node, remove_alias, remove_node}
use mpolsr_testbed.Tc.Links.{add_link, remove_link}
use mpolsr_testbed.Tc.WellFormed.{IsWellFormed}
use mpolsr_testbed.Tc.Network.{
  IsFull, Network, no_network, Same, Same-refl, view, with_alias, with_arc, with_node,
  without_alias, without_arc, without_node,
}
use mpolsr_testbed.Tc.Network.Nodes.{add_node-view, free_data-view}
use mpolsr_testbed.Tc.Network.Removal.{gone, remove_node-view}
use mpolsr_testbed.Tc.Network.Arcs.{add_link-view, becomes}
use mpolsr_testbed.Tc.Network.Cuts.{remove_link-view}
use mpolsr_testbed.Tc.Network.Aliases.{add_alias-view, remove_alias-view}
use mpolsr_testbed.Device.{
  Alloc, cmd_add_alias, cmd_add_link, cmd_add_node, cmd_remove_alias, cmd_remove_link,
  cmd_remove_node, cmd_reset_tc, cmd_set_alias_addr, cmd_set_local_addr, run_token, Token,
}
use mpolsr_testbed.Device.Accept.{IsAccepted, set_local_alias-tabs}

-- The steps that a token stands for. An operation that finds no memory or an address that is not known
-- changes nothing, and so does an alias of a node that has as many names as there is room for.
pub data Step (alloc : Alloc) (t : Token) (g h : Network) : Type 0 where
  reset : t.kind ≡ cmd_reset_tc → Same no_network h → Step alloc t g h
  node_added :
      (p : ℕ)
      → t.kind ≡ cmd_add_node
      → alloc.node ≡ some p
      → Same (with_node p t.addr_1 g) h
      → Step alloc t g h
  node_dropped :
      t.kind ≡ cmd_add_node
      → (alloc.node ≡ none) ⊎ (alloc.addr ≡ false)
      → Same g h
      → Step alloc t g h
  node_removed :
      (n : ℕ)
      → t.kind ≡ cmd_remove_node
      → g.owner t.addr_1 ≡ some n
      → Same (without_node n g) h
      → Step alloc t g h
  arc_added :
      (l u v : ℕ)
      → t.kind ≡ cmd_add_link
      → alloc.link ≡ some l
      → g.owner t.addr_1 ≡ some u
      → g.owner t.addr_2 ≡ some v
      → Same (with_arc l u v t.value g) h
      → Step alloc t g h
  arc_dropped :
      t.kind ≡ cmd_add_link
      → ((alloc.link ≡ none) ⊎ (alloc.local_link ≡ false))
        ⊎ ((g.owner t.addr_1 ≡ none) ⊎ (g.owner t.addr_2 ≡ none))
      → Same g h
      → Step alloc t g h
  arc_removed :
      (l u v c : ℕ)
      → t.kind ≡ cmd_remove_link
      → g.owner t.addr_1 ≡ some u
      → g.arc l ≡ some (u, v, c)
      → g.main v ≡ some t.addr_2
      → Same (without_arc l g) h
      → Step alloc t g h
  no_arc :
      t.kind ≡ cmd_remove_link
      → ((l u v c : ℕ)
          → g.owner t.addr_1 ≡ some u
          → g.arc l ≡ some (u, v, c)
          → g.main v ≢ some t.addr_2)
      → Same g h
      → Step alloc t g h
  alias_added :
      (n : ℕ)
      → t.kind ≡ cmd_add_alias
      → g.owner t.addr_1 ≡ some n
      → Same (with_alias t.addr_2 n g) h
      → Step alloc t g h
  alias_dropped :
      t.kind ≡ cmd_add_alias
      → (alloc.addr ≡ false)
        ⊎ ((g.owner t.addr_1 ≡ none) ⊎ ((n : ℕ) × (g.owner t.addr_1 ≡ some n) × IsFull n g))
      → Same g h
      → Step alloc t g h
  alias_removed : t.kind ≡ cmd_remove_alias → Same (without_alias t.addr_2 g) h → Step alloc t g h
  alias_unknown : t.kind ≡ cmd_remove_alias → g.owner t.addr_1 ≡ none → Same g h → Step alloc t g h
  other :
      t.kind ≢ cmd_reset_tc
      → t.kind ≢ cmd_add_node
      → t.kind ≢ cmd_remove_node
      → t.kind ≢ cmd_add_link
      → t.kind ≢ cmd_remove_link
      → t.kind ≢ cmd_add_alias
      → t.kind ≢ cmd_remove_alias
      → Same g h
      → Step alloc t g h

-- A branch of the switch that gave the result.
branch :
    (P : Type 0) (test : Bool) (x y : Option Topology) (s' : Topology)
    → (test ≡ true → x ≡ some s' → P)
    → (test ≡ false → y ≡ some s' → P)
    → (if test then x else y) ≡ some s'
    → P
branch P true x y s' h k r = h refl r
branch P false x y s' h k r = k refl r

is : (a b : ℕ) → (a == b) ≡ true → a ≡ b
is a b = (==_iff a b).0

is_not : (a b : ℕ) → (a == b) ≡ false → a ≢ b
is_not a b h = ground arith

-- The local addresses do not show in the network.
local_tabs-view :
    (s : Topology) (addrs masks : List ℕ)
    → Same (view s) (view (record s { local_addr_tab = addrs; local_mask_tab = masks }))
unfolding get_node
local_tabs-view s addrs masks = record { owner = λ a. refl; main = λ n. refl; arc = λ l. refl }

set_local_alias-view :
    (addr_ip mask : ℕ) (s : Topology) → Same (view s) (view (set_local_alias addr_ip mask s))
set_local_alias-view addr_ip mask s =
    let (addrs, masks, same) =
      set_local_alias-tabs addr_ip mask s s.local_addr_tab s.local_mask_tab refl refl in
    subst (λ r. Same (view s) (view r)) (sym same) (local_tabs-view s addrs masks)

module _ (alloc : Alloc) (t : Token) (s : Topology) (wf : IsWellFormed s)
    (ok : IsAccepted alloc t s) where
  node_step :
      (node : Option ℕ) (addr : Bool) (s' : Topology)
      → alloc.node ≡ node
      → alloc.addr ≡ addr
      → t.kind ≡ cmd_add_node
      → some (add_node node addr t.addr_1 s) ≡ some s'
      → Step alloc t (view s) (view s')
  unfolding add_node
  node_step none addr s' en ea k r =
      node_dropped k (inl en) (becomes s wf s s' (view s) r (Same-refl (view s)))
  node_step (some p) false s' en ea k r =
      node_dropped k (inr ea) (becomes s wf s s' (view s) r (Same-refl (view s)))
  node_step (some p) true s' en ea k r = node_added p k en (
      becomes s wf (add_node (some p) true t.addr_1 s) s' (with_node p t.addr_1 (view s)) r
        (add_node-view s p t.addr_1 (ok.fresh_node p en)))

  removal_step :
      (s' : Topology)
      → t.kind ≡ cmd_remove_node
      → remove_node t.addr_1 s ≡ some s'
      → Step alloc t (view s) (view s')
  removal_step s' k r =
      let (n, known) = ok.known_node k in
      let (runs, _, same) = remove_node-view s t.addr_1 n wf known in
      node_removed n k known
        (becomes s wf (gone s t.addr_1 n wf known) s' (without_node n (view s)) (sym runs ∙ r) same)

  link_step :
      (link : Option ℕ) (s' : Topology)
      → alloc.link ≡ link
      → t.kind ≡ cmd_add_link
      → add_link link alloc.local_link t.addr_1 t.addr_2 t.value s ≡ some s'
      → Step alloc t (view s) (view s')
  unfolding add_link
  link_step none s' e k r =
      arc_dropped k (inl (inl e)) (becomes s wf s s' (view s) r (Same-refl (view s)))
  link_step (some l) s' e k r =
      elim (add_link-view s wf l alloc.local_link t.addr_1 t.addr_2 t.value s' r) [
        | inl (why, same) ↦ elim why [
          | inl no_memory ↦ arc_dropped k (inl (inr no_memory)) same
          | inr unknown ↦ arc_dropped k (inr unknown) same
        ]
        | inr (u, v, src, dst, same) ↦ arc_added l u v k e src dst same
      ]

  cut_step :
      (s' : Topology)
      → t.kind ≡ cmd_remove_link
      → remove_link t.addr_1 t.addr_2 s ≡ some s'
      → Step alloc t (view s) (view s')
  cut_step s' k r = elim (remove_link-view s wf t.addr_1 t.addr_2 s' r) [
    | inl (none_there, same) ↦ no_arc k none_there same
    | inr (l, u, v, c, src, arc, main, same) ↦ arc_removed l u v c k src arc main same
  ]

  alias_step :
      (s' : Topology)
      → t.kind ≡ cmd_add_alias
      → add_alias alloc.addr t.addr_1 t.addr_2 s ≡ some s'
      → Step alloc t (view s) (view s')
  alias_step s' k r =
      elim (add_alias-view s wf alloc.addr t.addr_1 t.addr_2 s' (ok.new_alias k) r) [
        | inl (why, same) ↦ alias_dropped k why same
        | inr (n, known, same) ↦ alias_added n k known same
      ]

  unalias_step :
      (s' : Topology)
      → t.kind ≡ cmd_remove_alias
      → remove_alias t.addr_1 t.addr_2 s ≡ some s'
      → Step alloc t (view s) (view s')
  unalias_step s' k r = elim (remove_alias-view s wf t.addr_1 t.addr_2 s' (ok.no_main k) r) [
    | inl (unknown, same) ↦ alias_unknown k unknown same
    | inr same ↦ alias_removed k same
  ]

  -- A token that is accepted and ends is a step of the network.
  pub run_token-Step :
      (s' : Topology) → run_token alloc t s ≡ some s' → Step alloc t (view s) (view s')
  unfolding run_token set_local_addr
  run_token-Step s' =
      let P = Step alloc t (view s) (view s') in
      branch P (t.kind == cmd_reset_tc) _ _ s'
        (λ e r. reset (is _ _ e) (becomes s wf _ s' no_network r (free_data-view s wf)))
        λ n1.
          branch P (t.kind == cmd_add_node) _ _ s'
            (λ e r. node_step alloc.node alloc.addr s' refl refl (is _ _ e) r)
            λ n2.
              branch P (t.kind == cmd_remove_node) _ _ s' (λ e r. removal_step s' (is _ _ e) r)
                λ n3.
                  branch P (t.kind == cmd_add_link) _ _ s'
                    (λ e r. link_step alloc.link s' refl (is _ _ e) r)
                    λ n4.
                      branch P (t.kind == cmd_remove_link) _ _ s' (λ e r. cut_step s' (is _ _ e) r)
                        λ n5.
                          branch P (t.kind == cmd_add_alias) _ _ s'
                            (λ e r. alias_step s' (is _ _ e) r)
                            λ n6.
                              branch P (t.kind == cmd_remove_alias) _ _ s'
                                (λ e r. unalias_step s' (is _ _ e) r)
                                λ n7.
                                  branch P (t.kind == cmd_set_local_addr) _ _ s'
                                    (λ e r.
                                      other (is_not _ _ n1) (is_not _ _ n2) (is_not _ _ n3)
                                        (is_not _ _ n4) (is_not _ _ n5) (is_not _ _ n6)
                                        (is_not _ _ n7)
                                        (becomes s wf _ s' (view s) r (
                                          local_tabs-view s (set s.local_addr_tab 0 t.addr_1)
                                            (set s.local_mask_tab 0 t.addr_2))))
                                    λ _.
                                      branch P (t.kind == cmd_set_alias_addr) _ _ s'
                                        (λ e r.
                                          other (is_not _ _ n1) (is_not _ _ n2) (is_not _ _ n3)
                                            (is_not _ _ n4) (is_not _ _ n5) (is_not _ _ n6)
                                            (is_not _ _ n7)
                                            (becomes s wf _ s' (view s) r
                                              (set_local_alias-view t.addr_1 t.addr_2 s)))
                                        λ _. λ r.
                                          other (is_not _ _ n1) (is_not _ _ n2) (is_not _ _ n3)
                                            (is_not _ _ n4) (is_not _ _ n5) (is_not _ _ n6)
                                            (is_not _ _ n7)
                                            (becomes s wf s s' (view s) r (Same-refl (view s)))
