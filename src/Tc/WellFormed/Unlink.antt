-- ===== src/Tc/WellFormed/Unlink.antt =====
-- Removing a link keeps the invariant and never faults.
use mpolsr_testbed.Common.{
  ℕ, ◌≡◌, refl, inl, inr, true, Option, none, some, List, [], ◌∷◌, memb, ◌==◌, if◌then◌else◌, ◌>>=◌,
  Bool-cases, Option-cases, arith,
}
use mpolsr_testbed.Tc.{Topology}
use mpolsr_testbed.Tc.Hash.{get_node}
use mpolsr_testbed.Tc.Local.{local_addr, remove_link_to}
use mpolsr_testbed.Tc.Links.{find_link, remove_link, unlink}
use mpolsr_testbed.Tc.Wiring.{unlink-IsWired}
use mpolsr_testbed.Tc.WellFormed.{IsIndexed-same, IsWellFormed}
use mpolsr_testbed.Tc.WellFormed.Edges.{get_node-in, IsWellFormed-same}

-- The search for a link does not fault if the links lead to nodes of the list, and what it finds is
-- in the list.
find_link-some :
    (s : Topology) (a : ℕ) (ls : List ℕ)
    → IsWellFormed s
    → ((l : ℕ) → memb l ls ≡ true → memb (s.dst_node l) s.node_lst ≡ true)
    → (r : Option ℕ) × (find_link s a ls ≡ some r)
unfolding find_link
find_link-some s a [] wf h = (none, refl)
find_link-some s a (l ∷ ls) wf h =
    let (x, m) = wf.mains (s.dst_node l) (h l (ground arith)) in
    let (r, e) = find_link-some s a ls wf (λ k i. h k (ground arith)) in
    (if x == a then some l else r, rw (m, e, ◌>>=◌) (ground arith))

pub unlink-IsWellFormed : (link : ℕ) (s : Topology) → IsWellFormed s → IsWellFormed (unlink link s)
unfolding unlink
unlink-IsWellFormed link s wf = record {
  distinct = wf.distinct;
  indexed = IsIndexed-same s.node_lst s _ refl refl wf.indexed;
  wired = unlink-IsWired s.node_lst s wf.wired link;
  mains = wf.mains;
}

-- Removing a link succeeds and keeps the invariant, whether the addresses and the link are known or
-- not.
pub remove_link-IsWellFormed :
    (addr_src addr_dst : ℕ) (s : Topology)
    → IsWellFormed s
    → (s' : Topology) × (remove_link addr_src addr_dst s ≡ some s') × IsWellFormed s'
unfolding remove_link unlink
remove_link-IsWellFormed addr_src addr_dst s wf = elim (Option-cases (get_node s1 addr_src)) [
  | inl no_src ↦ (s1, rw (remove_link, no_src) refl, wf1)
  | inr (src, has_src) ↦
      let (r, e) =
        find_link-some s1 addr_dst (s1.link_src src) wf1
          (λ l m. (wf1.wired.out src l (get_node-in s1 addr_src src wf1 has_src) m).1) in
      elim (Option-cases r) [
        | inl nothing ↦ (s1, rw (remove_link, has_src, e, nothing, ◌>>=◌) refl, wf1)
        | inr (link, found) ↦ elim (Bool-cases (addr_src == local_addr s)) [
          | inr far ↦ (
            unlink link s1,
            rw (remove_link, has_src, e, found, ◌>>=◌, far) refl,
            unlink-IsWellFormed link s1 wf1,
          )
          | inl near ↦
              let ls = remove_link_to addr_dst s.local_links in
              let s2 : Topology = record s1 { local_links = ls } in
              (
                unlink link s2,
                rw (remove_link, has_src, e, found, ◌>>=◌, near) refl,
                unlink-IsWellFormed link s2 (IsWellFormed-same s ls wf),
              )
        ]
      ]
]
  where
    s1 : Topology
    s1 = record s { path_buffer = [] }

    wf1 : IsWellFormed s1
    wf1 = IsWellFormed-same s s.local_links wf
