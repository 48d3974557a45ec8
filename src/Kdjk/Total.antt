-- ===== src/Kdjk/Total.antt =====
-- `tc_k_dijstra` ends without a fault: the raised costs of all rounds stay small enough.
use native.Mathlib.Nat.{le-mul_of_pos_right, mul-le-mul_left}
use mpolsr_testbed.Common.{
  ℕ, zero, suc, ◌+◌, ◌*◌, ◌≤◌, ◌<◌, ◌≡◌, ◌∙◌, refl, sym, ap, subst, inl, inr, true, Option, none,
  some, List, memb, length, Bool-cases, Option-cases, arith,
}
use mpolsr_testbed.Tc.{OlsrPath, Topology, ulong_max}
use mpolsr_testbed.Tc.Hash.{get_node, main_addr}
use mpolsr_testbed.Tc.WellFormed.{IsWellFormed}
use mpolsr_testbed.Tc.WellFormed.Edges.{get_node-in}
use mpolsr_testbed.Djk.Correct.{IsRoutable}
use mpolsr_testbed.Kdjk.{
  add_buffer, compute_path, Config, found, init_costs, k_dijkstra, k_loop, Memory, Round, stop,
}
use mpolsr_testbed.Kdjk.Prepare.{copy_links_lem, IsCheap, prepared, prepared-IsRoutable}
use mpolsr_testbed.Kdjk.Raise.{Below, compute_path-total, IsFactor, IsRaised}

-- A cost that is raised `n` times by the factor `f`.
abbrev pub raised_cost : ℕ → ℕ → ℕ → ℕ
raised_cost f zero c = c
raised_cost f (suc n) c = raised_cost f n (c * f)

le-raised_cost : (f n c : ℕ) → 0 < f → c ≤ raised_cost f n c
le-raised_cost f zero c h = omega arith
le-raised_cost f (suc n) c h = omega (arith, le-raised_cost f n (c * f) h, le-mul_of_pos_right c h)

module _ (conf : Config) (mem : Memory) (f src_addr a dst : ℕ) (factor : IsFactor conf f) where
  -- A loop is total if it is total behind a first round that ends.
  k_loop-step :
      (n index c : ℕ) (first : Option OlsrPath) (s : Topology) (r : Round)
      → compute_path conf (mem.path index) (mem.path_data index) src_addr dst s ≡ some r
      → IsRaised conf s c f factor src_addr a r
      → memb dst s.node_lst ≡ true
      → length s.node_lst * raised_cost f n (c * f) + raised_cost f n (c * f) < ulong_max
      → ((first' : Option OlsrPath) (s' : Topology)
          → IsRoutable s' src_addr a (c * f)
          → Below conf s' (c * f) f factor (c * f) s'.dijkstra_cost_p1
          → memb dst s'.node_lst ≡ true
          → length s'.node_lst * raised_cost f n (c * f) + raised_cost f n (c * f) < ulong_max
          → (o : Option OlsrPath × Topology) × (k_loop conf mem src_addr dst (index + 1) n first' s'
              ≡ some o))
      → (o : Option OlsrPath × Topology) × (k_loop conf mem src_addr dst index (suc n) first s
          ≡ some o)
  unfolding k_loop
  k_loop-step n index c first s (stop s') runs kept dst_in fits rest =
      ((none, s'), rw (k_loop, runs) refl)
  k_loop-step n index c first s (found p s') runs (ok', kept) dst_in fits rest =
      let (o, ends) =
        rest (elim first [ none ↦ some p | some q ↦ some q ]) s' ok'
          (λ u l m i.
            kept.cost_p1 u l (ap (memb u) (sym kept.node_lst) ∙ m)
              (ap (λ (ls : ℕ → List ℕ). memb l (ls u)) (sym kept.link_src) ∙ i))
          (ap (memb dst) kept.node_lst ∙ dst_in)
          (subst
            (λ (ns : List ℕ).
              length ns * raised_cost f n (c * f) + raised_cost f n (c * f) < ulong_max)
            (sym kept.node_lst) fits) in
      (o, rw (k_loop, runs) ends)

  k_loop-total :
      (n index c : ℕ) (first : Option OlsrPath) (s : Topology)
      → IsRoutable s src_addr a c
      → Below conf s c f factor c s.dijkstra_cost_p1
      → memb dst s.node_lst ≡ true
      → length s.node_lst * raised_cost f n c + raised_cost f n c < ulong_max
      → (o : Option OlsrPath × Topology) × (k_loop conf mem src_addr dst index n first s ≡ some o)
  unfolding k_loop
  k_loop-total zero index c first s ok below dst_in fits = ((first, s), refl)
  k_loop-total (suc n) index c first s ok below dst_in fits =
      let small = le-raised_cost f n (c * f) factor.positive in
      let sum = mul-le-mul_left (length s.node_lst) small in
      let (r, runs, kept) =
        compute_path-total conf s c f src_addr a dst factor ok below dst_in
          (omega (arith, fits, small, sum)) (mem.path index) (mem.path_data index) in
      k_loop-step n index c first s r runs kept dst_in fits
        (λ first' s'. k_loop-total n (index + 1) (c * f) first' s')

module _ (conf : Config) (mem : Memory) (s : Topology) (src_addr dst_addr a max_cost f : ℕ)
    (wf : IsWellFormed s) (cheap : IsCheap s max_cost) (factor : IsFactor conf f)
    (fits : length s.node_lst * raised_cost f conf.path max_cost + raised_cost f conf.path max_cost
      < ulong_max)
    (known : get_node s src_addr ≡ some a) (main : main_addr s a ≡ some src_addr) where
  -- On a well formed topology, for the main address of a known source, and if no sum of costs wraps
  -- even when every link costs `max_cost` times the larger coefficient in each round: `k_dijkstra` ends
  -- without a fault, whichever allocations succeed.
  pub k_dijkstra_terminates :
      (r : Option OlsrPath × Topology) × (k_dijkstra conf mem src_addr dst_addr s ≡ some r)
  unfolding k_dijkstra
  k_dijkstra_terminates = elim (Bool-cases mem.path_buffer) [
    | inr e ↦ ((none, s), rw (k_dijkstra, e) refl)
    | inl e ↦ elim (Option-cases (get_node (add_buffer src_addr dst_addr s) dst_addr)) [
      | inl unknown ↦ ((none, add_buffer src_addr dst_addr s), rw (k_dijkstra, e, unknown) refl)
      | inr (dst, has_dst) ↦
          let (r, runs) =
            k_loop-total conf mem f src_addr a dst factor conf.path 0 max_cost none
              (prepared s src_addr dst_addr)
              (prepared-IsRoutable s src_addr dst_addr a max_cost wf cheap known main) cheap_p1
              (dst_known dst has_dst) same_fits in
          (r, started e dst has_dst r runs)
    ]
  ]
    where
      started :
          mem.path_buffer ≡ true
          → (dst : ℕ) → get_node (add_buffer src_addr dst_addr s) dst_addr ≡ some dst
          → (r : Option OlsrPath × Topology)
          → k_loop conf mem src_addr dst 0 conf.path none (prepared s src_addr dst_addr) ≡ some r
          → k_dijkstra conf mem src_addr dst_addr s ≡ some r
      started e dst has_dst r runs = rw (k_dijkstra, e, has_dst) runs

      dst_known :
          (dst : ℕ)
          → get_node (add_buffer src_addr dst_addr s) dst_addr ≡ some dst
          → memb dst (prepared s src_addr dst_addr).node_lst ≡ true
      dst_known dst h = unfold init_costs add_buffer get_node in get_node-in s dst_addr dst wf h

      cheap_p1 :
          (u l : ℕ)
          → memb u (prepared s src_addr dst_addr).node_lst ≡ true
          → memb l ((prepared s src_addr dst_addr).link_src u) ≡ true
          → (prepared s src_addr dst_addr).dijkstra_cost_p1 l ≤ max_cost
      cheap_p1 u l m i =
          unfold init_costs add_buffer in
          omega (
            arith,
            cheap.links u l m i,
            copy_links_lem s.link_src s.cost s.dijkstra_cost_p1 s.node_lst u l m i,
          )

      same_fits :
          length (prepared s src_addr dst_addr).node_lst * raised_cost f conf.path max_cost
            + raised_cost f conf.path max_cost
          < ulong_max
      same_fits = unfold init_costs add_buffer in fits
