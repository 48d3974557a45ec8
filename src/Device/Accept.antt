-- ===== src/Device/Accept.antt =====
-- One token of the device: on a well formed store, a token that is accepted ends without a fault and
-- leaves a well formed store.
use mpolsr_testbed.Common.{
  ℕ, ◌≡◌, ◌≢◌, refl, sym, subst, true, false, Bool, Option, none, some, List, [], ◌∷◌, memb, ◌==◌,
  ==_iff, if◌then◌else◌, set, arith,
}
use mpolsr_testbed.Tc.{NodeAddr, Topology}
use mpolsr_testbed.Tc.Hash.{get_node}
use mpolsr_testbed.Tc.Local.{fill_free, set_local_addr, set_local_alias}
use mpolsr_testbed.Tc.Lookup.{lookup}
use mpolsr_testbed.Tc.Nodes.{add_node, free_data}
use mpolsr_testbed.Tc.Links.{add_link}
use mpolsr_testbed.Tc.WellFormed.{IsIndexed-same, IsWellFormed, IsWired-same}
use mpolsr_testbed.Tc.WellFormed.Add.{add_node-IsWellFormed}
use mpolsr_testbed.Tc.WellFormed.Remove.{remove_node_lem}
use mpolsr_testbed.Tc.WellFormed.Edges.{add_link-IsWellFormed, IsFreshLink}
use mpolsr_testbed.Tc.WellFormed.Aliases.{add_alias-IsWellFormed, remove_alias-IsWellFormed}
use mpolsr_testbed.Tc.WellFormed.Reset.{free_data-IsWellFormed}
use mpolsr_testbed.Tc.WellFormed.Unlink.{remove_link-IsWellFormed}
use mpolsr_testbed.Device.{
  Alloc, cmd_add_alias, cmd_add_link, cmd_add_node, cmd_remove_alias, cmd_remove_link,
  cmd_remove_node, cmd_reset_tc, cmd_set_alias_addr, cmd_set_local_addr, run_token, Token,
}

-- The allocator returns memory that is not in use, a node that is added has a new address, a node that
-- is removed a known one, an alias that is added is new, and one that is removed is no main address.
pub record IsAccepted (alloc : Alloc) (t : Token) (s : Topology) : Type 0 where
  pub fresh_node : (p : ℕ) → alloc.node ≡ some p → memb p s.node_lst ≡ false
  pub fresh_link : (l : ℕ) → alloc.link ≡ some l → IsFreshLink s l
  pub new_node : t.kind ≡ cmd_add_node → lookup s t.addr_1 ≡ none
  pub known_node : t.kind ≡ cmd_remove_node → (n : ℕ) × (get_node s t.addr_1 ≡ some n)
  pub new_alias : t.kind ≡ cmd_add_alias → lookup s t.addr_2 ≡ none
  pub no_main :
      t.kind ≡ cmd_remove_alias → (e : NodeAddr) → lookup s t.addr_2 ≡ some e → e.addr_pos ≢ 0

-- A change of the local addresses does not matter to the invariant.
with_local-IsWellFormed :
    (s : Topology) (addrs masks : List ℕ)
    → IsWellFormed s
    → IsWellFormed (record s { local_addr_tab = addrs; local_mask_tab = masks })
with_local-IsWellFormed s addrs masks wf = record {
  distinct = wf.distinct;
  indexed = IsIndexed-same s.node_lst s _ refl refl wf.indexed;
  wired = IsWired-same s.node_lst s _ refl refl refl refl wf.wired;
  mains = wf.mains;
}

set_local_addr-IsWellFormed :
    (addr_ip mask : ℕ) (s : Topology)
    → IsWellFormed s
    → IsWellFormed (set_local_addr addr_ip mask s)
unfolding set_local_addr
set_local_addr-IsWellFormed addr_ip mask s wf =
    with_local-IsWellFormed s (set s.local_addr_tab 0 addr_ip) (set s.local_mask_tab 0 mask) wf

-- Setting a local alias changes at most the local addresses.
pub set_local_alias-tabs :
    (addr_ip mask : ℕ) (s : Topology) (addrs masks : List ℕ)
    → s.local_addr_tab ≡ addrs
    → s.local_mask_tab ≡ masks
    → (addrs1 : List ℕ) × (masks1 : List ℕ) × (set_local_alias addr_ip mask s
        ≡ record s { local_addr_tab = addrs1; local_mask_tab = masks1 })
unfolding set_local_alias
set_local_alias-tabs addr_ip mask s [] masks ea em =
    (s.local_addr_tab, s.local_mask_tab, ground (arith, ea))
set_local_alias-tabs addr_ip mask s (a ∷ addrs) [] ea em =
    (s.local_addr_tab, s.local_mask_tab, ground (arith, ea, em))
set_local_alias-tabs addr_ip mask s (a ∷ addrs) (m ∷ masks) ea em = (
  a ∷ (fill_free addr_ip mask addrs masks).0,
  m ∷ (fill_free addr_ip mask addrs masks).1,
  ground (arith, ea, em),
)

set_local_alias-IsWellFormed :
    (addr_ip mask : ℕ) (s : Topology)
    → IsWellFormed s
    → IsWellFormed (set_local_alias addr_ip mask s)
set_local_alias-IsWellFormed addr_ip mask s wf =
    let (addrs, masks, is) =
      set_local_alias-tabs addr_ip mask s s.local_addr_tab s.local_mask_tab refl refl in
    subst IsWellFormed (sym is) (with_local-IsWellFormed s addrs masks wf)

-- The result of an allocation that may fail.
allocated_node-IsWellFormed :
    (node : Option ℕ) (addr : Bool) (a : ℕ) (s : Topology)
    → IsWellFormed s
    → ((p : ℕ) → node ≡ some p → memb p s.node_lst ≡ false)
    → lookup s a ≡ none
    → IsWellFormed (add_node node addr a s)
unfolding add_node
allocated_node-IsWellFormed none addr a s wf fresh new = wf
allocated_node-IsWellFormed (some p) false a s wf fresh new = wf
allocated_node-IsWellFormed (some p) true a s wf fresh new =
    add_node-IsWellFormed s p a wf (fresh p refl) new

allocated_link-IsWellFormed :
    (link : Option ℕ) (local_link : Bool) (src dst cost : ℕ) (s : Topology)
    → IsWellFormed s
    → ((l : ℕ) → link ≡ some l → IsFreshLink s l)
    → (s' : Topology) × (add_link link local_link src dst cost s ≡ some s') × IsWellFormed s'
unfolding add_link
allocated_link-IsWellFormed none local_link src dst cost s wf fresh = (s, refl, wf)
allocated_link-IsWellFormed (some l) local_link src dst cost s wf fresh =
    add_link-IsWellFormed l local_link src dst cost s wf (fresh l refl)

abbrev Kept : Option Topology → Type 0
Kept r = (s' : Topology) × (r ≡ some s') × IsWellFormed s'

-- A branch of the switch: the case that is taken, or the cases behind it.
branch :
    (test : Bool) (x y : Option Topology)
    → (test ≡ true → Kept x)
    → (test ≡ false → Kept y)
    → Kept (if test then x else y)
branch true x y h k = h refl
branch false x y h k = k refl

-- On a well formed store, a token that is accepted never faults, whatever its type and whether the
-- allocations succeed, and the store is well formed afterwards.
pub run_token-IsWellFormed :
    (alloc : Alloc) (t : Token) (s : Topology)
    → IsWellFormed s
    → IsAccepted alloc t s
    → (s' : Topology) × (run_token alloc t s ≡ some s') × IsWellFormed s'
unfolding run_token
run_token-IsWellFormed alloc t s wf ok =
    branch (t.kind == cmd_reset_tc) _ _ (λ e. (free_data s, refl, (free_data-IsWellFormed s wf).0))
      λ _.
        branch (t.kind == cmd_add_node) _ _
          (λ e. (
            add_node alloc.node alloc.addr t.addr_1 s,
            refl,
            allocated_node-IsWellFormed alloc.node alloc.addr t.addr_1 s wf ok.fresh_node
                (ok.new_node ((==_iff _ _).0 e)),
          ))
          λ _.
            branch (t.kind == cmd_remove_node) _ _
              (λ e.
                let (n, known) = ok.known_node ((==_iff _ _).0 e) in
                let (s', runs, wf', _) = remove_node_lem s t.addr_1 n wf known in (s', runs, wf'))
              λ _.
                branch (t.kind == cmd_add_link) _ _
                  (λ e.
                    allocated_link-IsWellFormed alloc.link alloc.local_link t.addr_1 t.addr_2
                      t.value s wf ok.fresh_link)
                  λ _.
                    branch (t.kind == cmd_remove_link) _ _
                      (λ e. remove_link-IsWellFormed t.addr_1 t.addr_2 s wf)
                      λ _.
                        branch (t.kind == cmd_add_alias) _ _
                          (λ e.
                            add_alias-IsWellFormed s t.addr_1 t.addr_2 wf alloc.addr
                              (ok.new_alias ((==_iff _ _).0 e)))
                          λ _.
                            branch (t.kind == cmd_remove_alias) _ _
                              (λ e.
                                remove_alias-IsWellFormed s t.addr_1 t.addr_2 wf
                                  (ok.no_main ((==_iff _ _).0 e)))
                              λ _.
                                branch (t.kind == cmd_set_local_addr) _ _
                                  (λ e. (
                                    set_local_addr t.addr_1 t.addr_2 s,
                                    refl,
                                    set_local_addr-IsWellFormed t.addr_1 t.addr_2 s wf,
                                  ))
                                  λ _.
                                    branch (t.kind == cmd_set_alias_addr) _ _
                                      (λ e. (
                                        set_local_alias t.addr_1 t.addr_2 s,
                                        refl,
                                        set_local_alias-IsWellFormed t.addr_1 t.addr_2 s wf,
                                      ))
                                      λ _. (s, refl, wf)
