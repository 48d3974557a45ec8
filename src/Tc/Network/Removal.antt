-- ===== src/Tc/Network/Removal.antt =====
-- Removing a node, as a step of the network.
use mpolsr_testbed.Common.{
  ℕ, ◌≡◌, ◌∙◌, refl, sym, ap, inl, inr, true, false, not, some, ◌&&◌, memb, ◌==◌, ==_iff,
  Bool-cases, if◌then◌else◌, remove, memb-remove_self, memb-remove_ne, arith,
}
use mpolsr_testbed.Tc.{Topology}
use mpolsr_testbed.Tc.Hash.{get_node}
use mpolsr_testbed.Tc.Nodes.{remove_links, remove_local_links, remove_node}
use mpolsr_testbed.Tc.Wiring.{memb-remove_links}
use mpolsr_testbed.Tc.WellFormed.{IsWellFormed}
use mpolsr_testbed.Tc.WellFormed.Remove.{
  bare, bare-IsWired, bare-Shrinks, bare-slot, node_in, remove_node-removed, removed,
  removed-get_node, removed-IsWellFormed,
}
use mpolsr_testbed.Tc.Network.{Same, view, without_node}

module _ (s : Topology) (a node : ℕ) (wf : IsWellFormed s) (found : get_node s a ≡ some node) where
  abbrev pub gone : Topology
  gone = removed s a node wf found

  gone-list : gone.node_lst ≡ remove node s.node_lst
  unfolding remove_links remove_local_links
  gone-list = ((bare-Shrinks s a node wf found).0).kept.list

  memb-gone : (n : ℕ) → memb n gone.node_lst ≡ (if n == node then false else memb n s.node_lst)
  memb-gone n = rw gone-list (elim (Bool-cases (n == node)) [
    | inl eq ↦
        let e : n ≡ node = (==_iff n node).0 eq in
        rw eq (
          ap (λ m. memb m (remove node s.node_lst)) e
          ∙ memb-remove_self node s.node_lst wf.distinct)
    | inr ne ↦ rw ne (memb-remove_ne node n s.node_lst (ground arith))
  ])

  gone-main : (n : ℕ) → (view gone).main n ≡ (without_node node (view s)).main n
  unfolding remove_links
  gone-main n = elim (Bool-cases (n == node)) [
    | inl eq ↦ rw (memb-gone n, eq) refl
    | inr ne ↦ elim (Bool-cases (memb n s.node_lst)) [
      | inr out ↦ rw (memb-gone n, ne, out) refl
      | inl is_in ↦
          let (x, before, after) =
            bare-slot s a node wf found n
              (memb-remove_ne node n s.node_lst (ground arith) ∙ is_in) in
          rw (memb-gone n, ne, is_in) (after ∙ sym before)
    ]
  ]

  gone-ends : (gone.src_node ≡ s.src_node) × (gone.dst_node ≡ s.dst_node) × (gone.cost ≡ s.cost)
  unfolding remove_links remove_local_links
  gone-ends = let k = (bare-Shrinks s a node wf found).0.kept in (k.src_node, k.dst_node, k.cost)

  memb-gone_links :
      (u l : ℕ)
      → memb u s.node_lst ≡ true
      → (u == node) ≡ false
      → memb l (gone.link_src u) ≡ memb l (s.link_src u) && not (s.dst_node l == node)
  unfolding remove_local_links
  memb-gone_links u l u_in ne =
      let k = (bare-Shrinks s a node wf found).0.kept in
      memb-remove_links s.node_lst (bare s a node wf found) (bare-IsWired s a node wf found) node u
        l (node_in s a node wf found) u_in ne
      ∙ rw (k.link_src, k.dst_node) refl

  gone-arc : (l : ℕ) → (view gone).arc l ≡ (without_node node (view s)).arc l
  gone-arc l =
      let (src, dst, cost) = gone-ends in
      rw (src, dst, cost, memb-gone (s.src_node l))
        (elim (Bool-cases (memb (s.src_node l) s.node_lst)) [
          | inr out ↦ rw out (ground arith)
          | inl u_in ↦ elim (Bool-cases (s.src_node l == node)) [
            | inl eq ↦ rw eq (ground arith)
            | inr ne ↦ rw (u_in, ne, memb-gone_links (s.src_node l) l u_in ne) (ground (arith, ne))
          ]
        ])

  pub remove_node-view :
      (remove_node a s ≡ some gone)
      × IsWellFormed gone
      × Same (without_node node (view s)) (view gone)
  remove_node-view = (
    remove_node-removed s a node wf found,
    removed-IsWellFormed s a node wf found,
    record { owner = removed-get_node s a node wf found; main = gone-main; arc = gone-arc },
  )
