-- ===== src/Kdjk/Prepare.antt =====
-- The costs are copied to the links, and a well formed topology is then fit for `dijkstra`.
use mpolsr_testbed.Common.{
  ℕ, ◌+◌, ◌*◌, ◌≤◌, ◌<◌, ◌≡◌, inl, inr, true, some, List, [], ◌∷◌, All, memb, length, ◌==◌, ==_iff,
  Bool-cases, update, arith,
}
use mpolsr_testbed.Tc.{Topology, ulong_max}
use mpolsr_testbed.Tc.Hash.{get_node, main_addr}
use mpolsr_testbed.Tc.WellFormed.{get_node-lookup, IsWellFormed}
use mpolsr_testbed.Tc.WellFormed.Edges.{get_node-in}
use mpolsr_testbed.Djk.Init.{HasMain}
use mpolsr_testbed.Djk.Correct.{IsRoutable}
use mpolsr_testbed.Kdjk.{add_buffer, copy_links, init_costs, reset_links}

reset_links-other :
    (cost m : ℕ → ℕ) (ls : List ℕ) (l : ℕ) → (m l ≡ cost l) → reset_links cost ls m l ≡ cost l
unfolding reset_links
reset_links-other cost m [] l h = h
reset_links-other cost m (x ∷ ls) l h =
    reset_links-other cost (update m x (cost x)) ls l (ground arith)

reset_links_lem :
    (cost m : ℕ → ℕ) (ls : List ℕ) (l : ℕ) → memb l ls ≡ true → reset_links cost ls m l ≡ cost l
unfolding reset_links
reset_links_lem cost m [] l h = absurd (cc)
reset_links_lem cost m (x ∷ ls) l h = elim (Bool-cases (x == l)) [
  | inl eq ↦ reset_links-other cost (update m x (cost x)) ls l (ground arith)
  | inr ne ↦ reset_links_lem cost (update m x (cost x)) ls l (rw ne at h)
]

copy_links-other :
    (link_src : ℕ → List ℕ) (cost m : ℕ → ℕ) (nodes : List ℕ) (l : ℕ)
    → m l ≡ cost l
    → copy_links link_src nodes cost m l ≡ cost l
unfolding copy_links
copy_links-other link_src cost m [] l h = h
copy_links-other link_src cost m (n ∷ nodes) l h =
    copy_links-other link_src cost (reset_links cost (link_src n) m) nodes l
      (reset_links-other cost m (link_src n) l h)

-- The loop over all nodes copies the field of every link out of a node.
pub copy_links_lem :
    (link_src : ℕ → List ℕ) (cost m : ℕ → ℕ) (nodes : List ℕ) (u l : ℕ)
    → memb u nodes ≡ true
    → memb l (link_src u) ≡ true
    → copy_links link_src nodes cost m l ≡ cost l
unfolding copy_links
copy_links_lem link_src cost m [] u l i h = absurd (cc)
copy_links_lem link_src cost m (n ∷ nodes) u l i h = elim (Bool-cases (n == u)) [
  | inl eq ↦
      let e : n ≡ u = (==_iff n u).0 eq in
      copy_links-other link_src cost (reset_links cost (link_src n) m) nodes l
        (reset_links_lem cost m (link_src n) l (rw e h))
  | inr ne ↦ copy_links_lem link_src cost (reset_links cost (link_src n) m) nodes u l (rw ne at i) h
]

-- The topology in which the rounds start.
abbrev pub prepared : Topology → ℕ → ℕ → Topology
prepared s src_addr dst_addr = init_costs (add_buffer src_addr dst_addr s)

-- The links of the nodes cost at most `max_cost`, so little that no sum of costs wraps.
pub record IsCheap (s : Topology) (max_cost : ℕ) : Type 0 where
  pub links :
      (u l : ℕ) → memb u s.node_lst ≡ true → memb l (s.link_src u) ≡ true → s.cost l ≤ max_cost
  pub fits : length s.node_lst * max_cost + max_cost < ulong_max

All-of_memb : (P : ℕ → Type 0) (xs : List ℕ) → ((v : ℕ) → memb v xs ≡ true → P v) → All P xs
All-of_memb P [] h = tt
All-of_memb P (x ∷ xs) h = (h x (ground arith), All-of_memb P xs (λ v m. h v (ground arith)))

module _ (s : Topology) (src_addr dst_addr a max_cost : ℕ) (wf : IsWellFormed s)
    (cheap : IsCheap s max_cost) (known : get_node s src_addr ≡ some a)
    (main : main_addr s a ≡ some src_addr) where
  pub prepared-IsRoutable : IsRoutable (prepared s src_addr dst_addr) src_addr a max_cost
  unfolding init_costs add_buffer
  prepared-IsRoutable = record {
    distinct = wf.distinct;
    mains = All-of_memb (HasMain (main_addr s) src_addr) s.node_lst wf.mains;
    source_in = get_node-in s src_addr a wf known;
    source_main = main;
    unique = λ v i h.
        let (e, there, of_a) = get_node-lookup s src_addr a known in
        let (e', there', of_v, _) = wf.indexed.slots v 0 src_addr i h in
        ground (arith, there, there', of_a, of_v);
    network = record {
      closed = λ u l i m. (wf.wired.out u l i m).1;
      cheap = λ u l i m. omega (
        arith,
        cheap.links u l i m,
        copy_links_lem s.link_src s.cost s.dijkstra_cost s.node_lst u l i m,
      );
      fits = cheap.fits;
    };
  }
