-- ===== src/Kdjk/Path.antt =====
-- What one round of `tc_k_dijstra` computes.
use mathlib.Core.List.{append-nil}
use mpolsr_testbed.Common.{
  ℕ, suc, ◌+◌, ◌≤◌, ◌<◌, ◌≡◌, ◌∙◌, refl, sym, ap, inl, inr, true, none, some, List, [], ◌++◌, memb,
  length, replicate, ◌==◌, ==_iff, Bool-cases, arith,
}
use mpolsr_testbed.Tc.{OlsrPath, Topology, ulong_max}
use mpolsr_testbed.Djk.Correct.{
  IsRoutable, LinkWalk, dijkstra_terminates, dijkstra-IsFinal, dijkstra_least,
}
use mpolsr_testbed.Kdjk.{Config, Round, stop, found, store_path, compute_path}
use mpolsr_testbed.Kdjk.Route.{Hops, walk_back-Copied}

module _ (s : Topology) (a dst : ℕ) where
  -- The array holds one zero for each hop that the source counted before, then the main addresses
  -- of the nodes of a walk from `a` to `dst`, and no walk to `dst` costs less.
  pub record IsShortest (path : OlsrPath) : Type 0 where
    pub hops : List ℕ
    pub cost : ℕ
    pub array : path.path ≡ replicate (s.labels.hops a) 0 ++ hops
    pub size : path.path_hops ≡ s.labels.hops a + length hops
    pub walk : Hops s a dst hops cost
    pub least : (d : ℕ) → LinkWalk s a dst d → cost ≤ d

  -- A round stops if no walk leads to `dst`, else it finds a shortest path.
  abbrev pub IsAnswer : Round → Type 0
  IsAnswer (stop s') = (d : ℕ) → ¬ LinkWalk s a dst d
  IsAnswer (found path s') = IsShortest path

module _ (conf : Config) (s : Topology) (src_addr a dst max_cost : ℕ)
    (ok : IsRoutable s src_addr a max_cost) (dst_in : memb dst s.node_lst ≡ true) where
  -- On a routable topology, and if no allocation fails, a round ends without a fault. It stops only
  -- if no walk leads to the destination; else the path that it finds is a shortest one, behind as
  -- many zeros as the source counted hops before.
  pub compute_path_lem :
      (r : Round) × (compute_path conf true true src_addr dst s ≡ some r) × IsAnswer s a dst r
  unfolding compute_path
  compute_path_lem =
      let (t, runs) = dijkstra_terminates s src_addr a max_cost ok in
      let final = dijkstra-IsFinal s src_addr a max_cost ok t runs in
      elim (Bool-cases (t.cost dst == ulong_max)) [
        | inl none_left ↦ (
          stop (record s { labels = t }),
          rw (runs, none_left) refl,
          λ d w.
              let (_, lt) = dijkstra_least s src_addr a max_cost ok t dst d runs w in
              omega (arith, (==_iff (t.cost dst) ulong_max).0 none_left),
        )
        | inr reached ↦
            let some_cost : t.cost dst < ulong_max =
              ground (arith, final.inv.most dst dst_in, reached) in
            let c =
              walk_back-Copied conf s src_addr a max_cost ok t final (suc (t.hops dst)) none dst
                (record {
                  path = replicate (t.hops dst) 0;
                  room = t.hops dst;
                  cost_p1 = s.dijkstra_cost_p1;
                })
                [] dst_in some_cost (omega arith) (sym (append-nil _)) refl in
            let path : OlsrPath = record { path = c.result.path; path_hops = t.hops dst } in
            (
              found path (store_path path c.result.cost_p1 (record s { labels = t })),
              rw (runs, reached, c.returns) refl,
              record {
                hops = c.hops;
                cost = t.cost dst;
                array =
                    c.array
                    ∙ ap (λ n. replicate n 0 ++ (c.hops ++ [])) final.inv.root_hops
                    ∙ ap (λ l. replicate (s.labels.hops a) 0 ++ l) (append-nil c.hops);
                size = omega (arith, c.count, final.inv.root_hops);
                walk = c.walk;
                least = λ d w. (dijkstra_least s src_addr a max_cost ok t dst d runs w).0;
              },
            )
      ]
