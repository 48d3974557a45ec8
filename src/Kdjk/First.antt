-- ===== src/Kdjk/First.antt =====
-- The path that `tc_k_dijstra` returns for a well formed topology.
use mathlib.Core.Option.{some-injective}
use mpolsr_testbed.Common.{
  ℕ, ◌≡◌, ◌∙◌, sym, subst, inl, inr, true, some, memb, Bool-cases, Option-cases, arith,
}
use mpolsr_testbed.Tc.{OlsrPath, Topology}
use mpolsr_testbed.Tc.Hash.{get_node, main_addr}
use mpolsr_testbed.Tc.WellFormed.{IsWellFormed}
use mpolsr_testbed.Tc.WellFormed.Edges.{get_node-in}
use mpolsr_testbed.Kdjk.{
  add_buffer, compute_path, Config, found, init_costs, k_dijkstra, Memory, Round,
}
use mpolsr_testbed.Kdjk.Path.{compute_path_lem, IsAnswer, IsShortest}
use mpolsr_testbed.Kdjk.Prepare.{IsCheap, prepared, prepared-IsRoutable}
use mpolsr_testbed.Kdjk.Loop.{k_loop-first}

-- A path returned from `k_dijkstra` comes from a first round to a known destination.
k_dijkstra-first :
    (conf : Config) (mem : Memory) (s s' : Topology) (src_addr dst_addr : ℕ) (p : OlsrPath)
    → k_dijkstra conf mem src_addr dst_addr s ≡ some (some p, s')
    → (dst : ℕ) × (get_node s dst_addr ≡ some dst)
      × (s1 : Topology) × (compute_path conf true true src_addr dst (prepared s src_addr dst_addr)
          ≡ some (found p s1))
unfolding k_dijkstra
k_dijkstra-first conf mem s s' src_addr dst_addr p runs = elim (Bool-cases mem.path_buffer) [
  | inr e ↦ absurd (ground arith)
  | inl e ↦ elim (Option-cases (get_node (add_buffer src_addr dst_addr s) dst_addr)) [
    | inl unknown ↦ absurd (ground (arith, unknown))
    | inr (dst, known) ↦
        let (s1, round) =
          k_loop-first conf mem src_addr dst 0 conf.path p (prepared s src_addr dst_addr) s'
            (rw (e, known) at runs) in
        (dst, same_node known, s1, round)
  ]
]
  where
    same_node :
        {dst : ℕ}
        → get_node (add_buffer src_addr dst_addr s) dst_addr ≡ some dst
        → get_node s dst_addr ≡ some dst
    same_node h = unfold get_node add_buffer in h

found-IsShortest :
    (s s1 : Topology) (a dst : ℕ) (p : OlsrPath) (r : Round)
    → r ≡ found p s1
    → IsAnswer s a dst r
    → IsShortest s a dst p
found-IsShortest s s1 a dst p r e answer = subst (IsAnswer s a dst) e answer

module _ (conf : Config) (mem : Memory) (s s' : Topology) (src_addr dst_addr a max_cost : ℕ)
    (p : OlsrPath) (wf : IsWellFormed s) (cheap : IsCheap s max_cost)
    (known : get_node s src_addr ≡ some a) (main : main_addr s a ≡ some src_addr)
    (runs : k_dijkstra conf mem src_addr dst_addr s ≡ some (some p, s')) where
  -- On a well formed topology whose costs cannot wrap: if a path is returned for the main address of
  -- a known source, then the destination is known and the path is a shortest one to it for the costs
  -- that the rounds start with, behind as many zeros as the source counted hops before.
  pub k_dijkstra-IsShortest :
      (dst : ℕ) × (get_node s dst_addr ≡ some dst)
      × IsShortest (prepared s src_addr dst_addr) a dst p
  k_dijkstra-IsShortest =
      let (dst, has_dst, s1, round) = k_dijkstra-first conf mem s s' src_addr dst_addr p runs in
      let ok = prepared-IsRoutable s src_addr dst_addr a max_cost wf cheap known main in
      let (r, round', answer) =
        compute_path_lem conf (prepared s src_addr dst_addr) src_addr a dst max_cost ok
          (dst_known dst has_dst) in
      (
        dst,
        has_dst,
        found-IsShortest (prepared s src_addr dst_addr) s1 a dst p r
            (some-injective r (found p s1) (sym round' ∙ round)) answer,
      )
    where
      dst_known :
          (dst : ℕ)
          → get_node s dst_addr ≡ some dst
          → memb dst (prepared s src_addr dst_addr).node_lst ≡ true
      dst_known dst h = unfold init_costs add_buffer in get_node-in s dst_addr dst wf h
