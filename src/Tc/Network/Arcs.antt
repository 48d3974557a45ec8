-- ===== src/Tc/Network/Arcs.antt =====
-- Adding a link, as steps of the network.
use mathlib.Core.Option.{some-injective}
use mpolsr_testbed.Common.{
  ℕ, ◌≡◌, ◌∙◌, refl, sym, subst, inl, inr, true, false, not, ◌⊎◌, Bool, none, some, List, [], ◌∷◌,
  ◌&&◌, memb, ◌==◌, Bool-cases, Option-cases, >>=-eq-some, arith,
}
use mpolsr_testbed.Tc.{LocalLink, Topology}
use mpolsr_testbed.Tc.Hash.{get_node}
use mpolsr_testbed.Tc.Local.{local_addr, update_local_link}
use mpolsr_testbed.Tc.Links.{add_link, insert_link}
use mpolsr_testbed.Tc.WellFormed.{IsWellFormed}
use mpolsr_testbed.Tc.WellFormed.Edges.{get_node-in}
use mpolsr_testbed.Tc.Network.{Network, Same, Same-refl, Same-trans, view, with_arc}

-- A change of the local links or of the path cache does not show in the network.
with_links-view :
    (s : Topology) (ls : List LocalLink)
    → Same (view s) (view (record s { path_buffer = []; local_links = ls }))
unfolding get_node
with_links-view s ls = record { owner = λ a. refl; main = λ n. refl; arc = λ l. refl }

insert_link-view :
    (s : Topology) (link src dst cost : ℕ)
    → memb src s.node_lst ≡ true
    → Same (with_arc link src dst cost (view s)) (view (insert_link link src dst cost s))
unfolding insert_link get_node
insert_link-view s link src dst cost src_in = record {
  owner = λ a. refl;
  main = λ n. refl;
  arc = λ l. elim (Bool-cases (link == l)) [
    | inl eq ↦ rw eq (ground (arith, src_in))
    | inr ne ↦ rw ne (ground (arith, ne))
  ];
}

module _ (s : Topology) (wf : IsWellFormed s) where
  abbrev pub forgot : Topology
  forgot = record s { path_buffer = [] }

  pub forgot-view : Same (view s) (view forgot)
  forgot-view = with_links-view s s.local_links

  pub forgot-owner : (a : ℕ) → get_node forgot a ≡ get_node s a
  forgot-owner a = forgot-view.owner a

  pub becomes :
      (t s' : Topology) (g : Network) → some t ≡ some s' → Same g (view t) → Same g (view s')
  becomes t s' g is same = subst (λ r. Same g (view r)) (some-injective t s' is) same

  inserted :
      (link src dst cost : ℕ) (ls : List LocalLink)
      → memb src s.node_lst ≡ true
      → Same
          (with_arc link src dst cost (view s))
          (view (insert_link link src dst cost (record s { path_buffer = []; local_links = ls })))
  inserted link src dst cost ls src_in =
      let t : Topology = record s { path_buffer = []; local_links = ls } in
      let same = with_links-view s ls in
      Same-trans _ _ _ (record { owner = same.owner; main = same.main; arc = λ l. refl })
        (insert_link-view t link src dst cost src_in)

  -- What comes of adding a link of known nodes: an arc, or nothing if an address is unknown or there is
  -- no memory for the local link.
  abbrev pub AddsArc : ℕ → Bool → ℕ → ℕ → ℕ → Topology → Type 0
  AddsArc link alloc_local addr_src addr_dst cost s' =
      (((alloc_local ≡ false) ⊎ ((get_node s addr_src ≡ none) ⊎ (get_node s addr_dst ≡ none)))
        × Same (view s) (view s'))
      ⊎ ((u : ℕ) × (v : ℕ) × (get_node s addr_src ≡ some u)
          × (get_node s addr_dst ≡ some v)
          × Same (with_arc link u v cost (view s)) (view s'))

  pub add_link-view :
      (link : ℕ) (alloc_local : Bool) (addr_src addr_dst cost : ℕ) (s' : Topology)
      → add_link (some link) alloc_local addr_src addr_dst cost s ≡ some s'
      → AddsArc link alloc_local addr_src addr_dst cost s'
  unfolding add_link
  add_link-view link alloc_local addr_src addr_dst cost s' runs =
      elim (Bool-cases (addr_src == local_addr s && not alloc_local)) [
        | inl no_memory ↦ inl (
          inl (ground (arith, no_memory)),
          becomes s s' (view s) (rw no_memory at runs) (Same-refl (view s)),
        )
        | inr go ↦ elim (Option-cases (get_node forgot addr_src)) [
          | inl no_src ↦ inl (
            inr (inl (sym (forgot-owner addr_src) ∙ no_src)),
            becomes forgot s' (view s) (rw (go, no_src) at runs) forgot-view,
          )
          | inr (src, has_src) ↦ elim (Option-cases (get_node forgot addr_dst)) [
            | inl no_dst ↦ inl (
              inr (inr (sym (forgot-owner addr_dst) ∙ no_dst)),
              becomes forgot s' (view s) (rw (go, has_src, no_dst) at runs) forgot-view,
            )
            | inr (dst, has_dst) ↦
                let known : get_node s addr_src ≡ some src =
                  sym (forgot-owner addr_src) ∙ has_src in
                let src_in = get_node-in s addr_src src wf known in
                inr (
                  src,
                  dst,
                  known,
                  sym (forgot-owner addr_dst) ∙ has_dst,
                  elim (Bool-cases (addr_src == local_addr s)) [
                    | inr far ↦
                        becomes (insert_link link src dst cost forgot) s'
                          (with_arc link src dst cost (view s))
                          (rw (go, has_src, has_dst, far) at runs)
                          (inserted link src dst cost s.local_links src_in)
                    | inl near ↦
                        let (l, filled, is) =
                          >>=-eq-some (update_local_link forgot dst) _
                            (rw (go, has_src, has_dst, near) at runs) in
                        becomes _ s' (with_arc link src dst cost (view s)) is
                          (inserted link src dst cost (l ∷ s.local_links) src_in)
                  ],
                )
          ]
        ]
      ]
