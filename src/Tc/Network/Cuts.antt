-- ===== src/Tc/Network/Cuts.antt =====
-- Removing a link, as a step of the network.
use mathlib.Core.Option.{some-injective}
use mpolsr_testbed.Common.{
  ℕ, ◌≡◌, ◌≢◌, ◌∙◌, refl, sym, subst, inl, inr, true, ◌⊎◌, Option, none, some, List, [], ◌∷◌, memb,
  ◌==◌, ==_iff, Bool-cases, Option-cases, >>=-eq-some, arith,
}
use mpolsr_testbed.Tc.{LocalLink, Topology}
use mpolsr_testbed.Tc.Hash.{get_node, main_addr}
use mpolsr_testbed.Tc.Local.{local_addr, remove_link_to}
use mpolsr_testbed.Tc.Links.{find_link, remove_link, unlink}
use mpolsr_testbed.Tc.Wiring.{memb-remove}
use mpolsr_testbed.Tc.WellFormed.{IsWellFormed}
use mpolsr_testbed.Tc.WellFormed.Edges.{get_node-in}
use mpolsr_testbed.Tc.Network.{Same, view, without_arc}
use mpolsr_testbed.Tc.Network.Arcs.{becomes, forgot, forgot-owner, forgot-view}

unlink-view :
    (s : Topology) (link : ℕ) (ls : List LocalLink)
    → IsWellFormed s
    → Same
        (without_arc link (view s))
        (view (record (unlink link (record s { path_buffer = [] })) { local_links = ls }))
unfolding unlink get_node
unlink-view s link ls wf = record {
  owner = λ a. refl;
  main = λ n. refl;
  arc = λ l. ground (
    arith,
    memb-remove link l (s.link_src (s.src_node link)) (wf.wired.src_distinct (s.src_node link)),
  );
}

-- The link that the search finds leads to the address, and if it finds none then no link does.
find_link_lem :
    (s : Topology) (a : ℕ) (ls : List ℕ) (r : Option ℕ)
    → find_link s a ls ≡ some r
    → ((link : ℕ)
        → r ≡ some link
        → (memb link ls ≡ true) × (main_addr s (s.dst_node link) ≡ some a))
      × (r ≡ none → (l : ℕ) → memb l ls ≡ true → main_addr s (s.dst_node l) ≢ some a)
unfolding find_link
find_link_lem s a [] r h = (λ link e. absurd (ground arith), λ e l m. absurd (cc))
find_link_lem s a (x ∷ ls) r h =
    let (y, at, rest) = >>=-eq-some (main_addr s (s.dst_node x)) _ h in
    elim (Bool-cases (y == a)) [
      | inl eq ↦
          let is : some x ≡ r = some-injective (some x) r (rw eq at rest) in
          (λ link e. (ground (arith, is), ground (arith, is, at)), λ e. absurd (ground (arith, is)))
      | inr ne ↦
          let (finds, misses) = find_link_lem s a ls r (rw ne at rest) in
          (
            λ link e. let (m, to) = finds link e in (ground arith, to),
            λ e l m. elim (Bool-cases (x == l)) [
              | inl eq ↦ λ to. let same : x ≡ l = (==_iff x l).0 eq in ground (arith, at, to, same)
              | inr other ↦ misses e l (rw other at m)
            ],
          )
    ]

module _ (s : Topology) (wf : IsWellFormed s) where
  -- What comes of removing a link: one arc between the addresses goes, or there is none.
  abbrev pub CutsArc : ℕ → ℕ → Topology → Type 0
  CutsArc addr_src addr_dst s' =
      (((l u v c : ℕ)
          → get_node s addr_src ≡ some u
          → (view s).arc l ≡ some (u, v, c)
          → (view s).main v ≢ some addr_dst)
        × Same (view s) (view s'))
      ⊎ ((l : ℕ) × (u : ℕ) × (v : ℕ) × (c : ℕ) × (get_node s addr_src ≡ some u)
          × ((view s).arc l ≡ some (u, v, c))
          × ((view s).main v ≡ some addr_dst)
          × Same (without_arc l (view s)) (view s'))

  -- The arcs are the links in the lists of the nodes.
  arc_in :
      (u l : ℕ)
      → memb u s.node_lst ≡ true
      → memb l (s.link_src u) ≡ true
      → ((view s).arc l ≡ some (u, s.dst_node l, s.cost l))
        × (memb (s.dst_node l) s.node_lst ≡ true)
  arc_in u l u_in m =
      let (from, to, _) = wf.wired.out u l u_in m in (ground (arith, from, u_in, m), to)

  main_of : (v x : ℕ) → (view s).main v ≡ some x → main_addr s v ≡ some x
  main_of v x h = ground arith

  in_arc :
      (l u v c : ℕ)
      → (view s).arc l ≡ some (u, v, c)
      → (memb l (s.link_src u) ≡ true) × (s.dst_node l ≡ v)
  in_arc l u v c h = ground arith

  pub remove_link-view :
      (addr_src addr_dst : ℕ) (s' : Topology)
      → remove_link addr_src addr_dst s ≡ some s'
      → CutsArc addr_src addr_dst s'
  unfolding remove_link unlink
  remove_link-view addr_src addr_dst s' runs =
      elim (Option-cases (get_node (forgot s wf) addr_src)) [
        | inl no_src ↦ inl (
          λ l u v c known _ _. ground (arith, known, no_src, forgot-owner s wf addr_src),
          becomes s wf (forgot s wf) s' (view s) (rw (remove_link, no_src) at runs)
              (forgot-view s wf),
        )
        | inr (src, has_src) ↦
            let known : get_node s addr_src ≡ some src =
              sym (forgot-owner s wf addr_src) ∙ has_src in
            let (r, found, rest) =
              >>=-eq-some (find_link (forgot s wf) addr_dst (s.link_src src)) _
                (rw (remove_link, has_src) at runs) in
            let (finds, misses) = find_link_lem (forgot s wf) addr_dst (s.link_src src) r found in
            let src_in = get_node-in s addr_src src wf known in
            elim (Option-cases r) [
              | inl nothing ↦ inl (
                λ l u v c owns arc main.
                    let same : src ≡ u = some-injective src u (sym known ∙ owns) in
                    let (m, to) = in_arc l u v c arc in
                    misses nothing l (subst (λ n. memb l (s.link_src n) ≡ true) (sym same) m) (
                      subst (λ n. main_addr s n ≡ some addr_dst) (sym to)
                        (main_of v addr_dst main)),
                becomes s wf (forgot s wf) s' (view s) (rw nothing at rest) (forgot-view s wf),
              )
              | inr (link, is) ↦
                  let (m, to) = finds link is in
                  let (arc, to_in) = arc_in src link src_in m in
                  inr (
                    link,
                    src,
                    s.dst_node link,
                    s.cost link,
                    known,
                    arc,
                    rw to_in to,
                    elim (Bool-cases (addr_src == local_addr s)) [
                      | inl near ↦
                          becomes s wf _ s' (without_arc link (view s)) (rw (is, near) at rest)
                            (unlink-view s link (remove_link_to addr_dst s.local_links) wf)
                      | inr far ↦
                          becomes s wf _ s' (without_arc link (view s)) (rw (is, far) at rest)
                            (unlink-view s link s.local_links wf)
                    ],
                  )
            ]
      ]
