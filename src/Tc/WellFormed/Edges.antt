-- ===== src/Tc/WellFormed/Edges.antt =====
-- Adding a link keeps the invariant and never faults.
use mpolsr_testbed.Common.{
  ℕ, ◌≡◌, refl, inl, inr, true, false, not, ◌&&◌, Bool, Option, some, List, [], ◌∷◌, memb, ◌==◌,
  ◌>>=◌, Bool-cases, Option-cases, arith,
}
use mpolsr_testbed.Tc.{LocalLink, Topology}
use mpolsr_testbed.Tc.Hash.{get_node, main_addr}
use mpolsr_testbed.Tc.Local.{local_addr, update_local_link}
use mpolsr_testbed.Tc.Links.{add_link, insert_link}
use mpolsr_testbed.Tc.Wiring.{insert_link-IsWired}
use mpolsr_testbed.Tc.WellFormed.{get_node-lookup, IsIndexed-same, IsWellFormed, IsWired-same}

pub get_node-in :
    (s : Topology) (a n : ℕ) → IsWellFormed s → get_node s a ≡ some n → memb n s.node_lst ≡ true
get_node-in s a n wf h =
    let (e, there, of_n) = get_node-lookup s a n h in
    ground (arith, wf.indexed.entries a e there, of_n)

-- A chain that starts with a result and ends with `some` has a result.
some_of_bind {ℓ} :
    {A : Type ℓ} (m : Option ℕ) (x : ℕ)
    → m ≡ some x
    → (f : ℕ → A) → (a : A) × ((m >>= λ y. some (f y)) ≡ some a)
some_of_bind m x h f = (f x, rw h refl)

-- A node of the list has a main address, so a local link to it can be filled in.
pub update_local_link-some :
    (s : Topology) (n : ℕ)
    → IsWellFormed s
    → memb n s.node_lst ≡ true
    → (l : LocalLink) × (update_local_link s n ≡ some l)
unfolding update_local_link
update_local_link-some s n wf m = let (x, h) = wf.mains n m in some_of_bind (main_addr s n) x h _

-- A change of the local links or of the path cache does not matter to the invariant.
pub IsWellFormed-same :
    (s : Topology) (ls : List LocalLink)
    → IsWellFormed s
    → IsWellFormed (record s { path_buffer = []; local_links = ls })
IsWellFormed-same s ls wf = record {
  distinct = wf.distinct;
  indexed = IsIndexed-same s.node_lst s _ refl refl wf.indexed;
  wired = IsWired-same s.node_lst s _ refl refl refl refl wf.wired;
  mains = wf.mains;
}

-- The memory of a link is in no list of a node.
abbrev pub IsFreshLink : Topology → ℕ → Type 0
IsFreshLink s link =
    (u : ℕ)
    → memb u s.node_lst ≡ true
    → (memb link (s.link_src u) ≡ false) × (memb link (s.link_dst u) ≡ false)

pub insert_link-IsWellFormed :
    (link src dst cost : ℕ) (s : Topology)
    → IsWellFormed s
    → IsFreshLink s link
    → memb src s.node_lst ≡ true
    → memb dst s.node_lst ≡ true
    → IsWellFormed (insert_link link src dst cost s)
unfolding insert_link
insert_link-IsWellFormed link src dst cost s wf fresh src_in dst_in = record {
  distinct = wf.distinct;
  indexed = IsIndexed-same s.node_lst s _ refl refl wf.indexed;
  wired = insert_link-IsWired s.node_lst s wf.wired link src dst cost src_in dst_in fresh;
  mains = wf.mains;
}

module _ (link : ℕ) (alloc_local : Bool) (addr_src addr_dst cost : ℕ) (s : Topology)
    (wf : IsWellFormed s) (fresh : IsFreshLink s link) where
  -- If the memory for a new link is in no list of a node, adding a link succeeds and keeps the
  -- invariant, whether the addresses are known or not.
  pub add_link-IsWellFormed :
      (s' : Topology) × (add_link (some link) alloc_local addr_src addr_dst cost s ≡ some s')
      × IsWellFormed s'
  unfolding add_link
  add_link-IsWellFormed = elim (Bool-cases (addr_src == local_addr s && not alloc_local)) [
    | inl no_memory ↦ (s, rw no_memory refl, wf)
    | inr go ↦ elim (Option-cases (get_node s1 addr_src)) [
      | inl no_src ↦ (s1, rw (go, no_src) refl, wf1)
      | inr (src, has_src) ↦ elim (Option-cases (get_node s1 addr_dst)) [
        | inl no_dst ↦ (s1, rw (go, has_src, no_dst) refl, wf1)
        | inr (dst, has_dst) ↦
            let src_in = get_node-in s1 addr_src src wf1 has_src in
            let dst_in = get_node-in s1 addr_dst dst wf1 has_dst in
            elim (Bool-cases (addr_src == local_addr s)) [
              | inr far ↦ (
                insert_link link src dst cost s1,
                rw (go, has_src, has_dst, far) refl,
                insert_link-IsWellFormed link src dst cost s1 wf1 fresh src_in dst_in,
              )
              | inl near ↦
                  let (l, h) = update_local_link-some s1 dst wf1 dst_in in
                  let s2 : Topology = record s1 { local_links = l ∷ s1.local_links } in
                  (
                    insert_link link src dst cost s2,
                    rw (go, has_src, has_dst, near, h) refl,
                    insert_link-IsWellFormed link src dst cost s2
                        (IsWellFormed-same s (l ∷ s.local_links) wf) fresh src_in dst_in,
                  )
            ]
      ]
    ]
  ]
    where
      s1 : Topology
      s1 = record s { path_buffer = [] }

      wf1 : IsWellFormed s1
      wf1 = IsWellFormed-same s s.local_links wf
