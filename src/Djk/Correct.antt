-- ===== src/Djk/Correct.antt =====
-- What `dijkstra` returns for a topology.
use mathlib.Core.Option.{some-injective}
use mpolsr_testbed.Common.{
  ℕ, ◌≤◌, ◌<◌, ◌≡◌, ◌∙◌, sym, subst, true, some, All, memb, IsDistinct, length, arith,
}
use mpolsr_testbed.Tc.{Labels, Topology, ulong_max}
use mpolsr_testbed.Tc.Hash.{main_addr}
use mpolsr_testbed.Djk.{dijkstra}
use mpolsr_testbed.Djk.Graph.{Walk}
use mpolsr_testbed.Djk.Invariant.{IsNetwork}
use mpolsr_testbed.Djk.Init.{HasMain, start-Inv}
use mpolsr_testbed.Djk.Shortest.{IsFinal, main_loop-IsFinal, walk-in}

-- Every node of the list has a main address, `a` alone has the address `src_addr`, and the links
-- keep to the list and have costs whose sums do not wrap.
pub record IsRoutable (s : Topology) (src_addr a max_cost : ℕ) : Type 0 where
  pub distinct : IsDistinct s.node_lst
  pub mains : All (HasMain (main_addr s) src_addr) s.node_lst
  pub source_in : memb a s.node_lst ≡ true
  pub source_main : main_addr s a ≡ some src_addr
  pub unique : (v : ℕ) → memb v s.node_lst ≡ true → main_addr s v ≡ some src_addr → v ≡ a
  pub network : IsNetwork s.node_lst s.link_src s.dst_node s.dijkstra_cost max_cost

-- The walks that the costs are about.
abbrev pub LinkWalk : Topology → ℕ → ℕ → ℕ → Type 0
LinkWalk s = Walk s.link_src s.dst_node s.dijkstra_cost

module _ (s : Topology) (src_addr a max_cost : ℕ) (ok : IsRoutable s src_addr a max_cost) where
  dijkstra_result :
      (t : Labels) × (dijkstra s src_addr ≡ some t)
      × IsFinal s.node_lst s.link_src s.dst_node s.dijkstra_cost max_cost a
          (s.labels.hops a)
          ok.network
          t
  unfolding dijkstra
  dijkstra_result =
      let (node_list, t0, built, inv) =
        start-Inv (main_addr s) src_addr s.node_lst s.link_src s.dst_node s.dijkstra_cost max_cost a
          ok.mains ok.distinct ok.source_in ok.source_main ok.unique s.labels in
      let (t, runs, final) =
        main_loop-IsFinal s.node_lst s.link_src s.dst_node s.dijkstra_cost max_cost a
          (s.labels.hops a) ok.network (length node_list) node_list t0 (omega arith) inv in
      (t, rw built.returns runs, final)

  -- On a routable topology `dijkstra` ends without a fault.
  pub dijkstra_terminates : (t : Labels) × (dijkstra s src_addr ≡ some t)
  dijkstra_terminates = (dijkstra_result.0, dijkstra_result.1)

  pub dijkstra-IsFinal :
      (t : Labels)
      → dijkstra s src_addr ≡ some t
      → IsFinal s.node_lst s.link_src s.dst_node s.dijkstra_cost max_cost a
          (s.labels.hops a)
          ok.network
          t
  dijkstra-IsFinal t runs =
      let (t', runs', final) = dijkstra_result in
      subst
        (IsFinal s.node_lst s.link_src s.dst_node s.dijkstra_cost max_cost a (s.labels.hops a)
          ok.network)
        (some-injective t' t (sym runs' ∙ runs)) final

  -- If `dijkstra` gives a node of a routable topology a cost below ulong_max, then a walk from the
  -- source to the node has exactly that cost.
  pub dijkstra_sound :
      (t : Labels) (v : ℕ)
      → dijkstra s src_addr ≡ some t
      → memb v s.node_lst ≡ true
      → t.cost v < ulong_max
      → LinkWalk s a v (t.cost v)
  dijkstra_sound t v runs i = (dijkstra-IsFinal t runs).inv.walk v i

  -- If a walk leads from the source of a routable topology to a node, then the cost that `dijkstra`
  -- gives the node is below ulong_max and at most the cost of the walk.
  pub dijkstra_least :
      (t : Labels) (v d : ℕ)
      → dijkstra s src_addr ≡ some t
      → LinkWalk s a v d
      → (t.cost v ≤ d) × (t.cost v < ulong_max)
  dijkstra_least t v d runs w =
      let (_, le, lt) =
        walk-in s.node_lst s.link_src s.dst_node s.dijkstra_cost max_cost a (s.labels.hops a)
          ok.network t (dijkstra-IsFinal t runs) v d ok.source_in w in
      (le, lt)
