-- ===== src/Kdjk/Keeps.antt =====
-- `tc_k_dijstra` only writes the labels of the nodes, the two costs of its own and the path cache.
use mathlib.Core.Option.{some-injective}
use mpolsr_testbed.Common.{
  ℕ, zero, suc, ◌+◌, ◌≡◌, ◌∙◌, refl, sym, ap, subst, inl, inr, true, false, Bool, Option, none,
  some, List, ◌==◌, >>=-eq-some, Bool-cases, Option-cases,
}
use mpolsr_testbed.Tc.{Labels, OlsrPath, PathBuffer, Topology, ulong_max}
use mpolsr_testbed.Tc.Hash.{get_node}
use mpolsr_testbed.Djk.{dijkstra}
use mpolsr_testbed.Kdjk.{
  add_buffer, compute_path, Config, found, init_costs, k_dijkstra, k_loop, Memory, Round, stop,
  store_path, take_costs, walk_back,
}

abbrev pub with_scratch : Topology → Labels → (ℕ → ℕ) → (ℕ → ℕ) → List PathBuffer → Topology
with_scratch s labels cost cost_p1 buffers = record s {
  labels = labels;
  dijkstra_cost = cost;
  dijkstra_cost_p1 = cost_p1;
  path_buffer = buffers;
}

abbrev pub Keeps : Topology → Topology → Type 0
Keeps s s' =
    (labels : Labels) × (cost : ℕ → ℕ) × (cost_p1 : ℕ → ℕ) × (buffers : List PathBuffer) × (s'
      ≡ with_scratch s labels cost cost_p1 buffers)

Keeps-refl : (s : Topology) → Keeps s s
Keeps-refl s = (s.labels, s.dijkstra_cost, s.dijkstra_cost_p1, s.path_buffer, refl)

Keeps-trans : (s t u : Topology) → Keeps s t → Keeps t u → Keeps s u
Keeps-trans s t u (l, c, p, b, e) (l', c', p', b', e') =
    (l', c', p', b', e' ∙ ap (λ r. with_scratch r l' c' p' b') e)

abbrev after : Round → Topology
after (stop s) = s
after (found p s) = s

stopped-Keeps :
    (s : Topology) (t : Labels) (r : Round)
    → some (stop (record s { labels = t })) ≡ some r
    → Keeps s (after r)
stopped-Keeps s t r h = (
  t,
  s.dijkstra_cost,
  s.dijkstra_cost_p1,
  s.path_buffer,
  ap after (sym (some-injective (stop (record s { labels = t })) r h)),
)

compute_path-Keeps :
    (conf : Config) (mp md : Bool) (src_addr dst : ℕ) (s : Topology) (r : Round)
    → compute_path conf mp md src_addr dst s ≡ some r
    → Keeps s (after r)
unfolding compute_path store_path take_costs
compute_path-Keeps conf true true src_addr dst s r e =
    let (t, runs, e1) = >>=-eq-some (dijkstra s src_addr) _ e in
    elim (Bool-cases (t.cost dst == ulong_max)) [
      | inl unreached ↦ stopped-Keeps s t r (rw unreached at e1)
      | inr reached ↦
          let (b, walks, e2) =
            >>=-eq-some (walk_back conf (record s { labels = t }) (suc (t.hops dst)) none dst _) _
              (rw reached at e1) in
          let path : OlsrPath = record { path = b.path; path_hops = t.hops dst } in
          let s' = store_path path b.cost_p1 (record s { labels = t }) in
          (
            t,
            s'.dijkstra_cost,
            b.cost_p1,
            s'.path_buffer,
            ap after (sym (some-injective (found path s') r e2)),
          )
    ]
compute_path-Keeps conf true false src_addr dst s r e =
    let (t, runs, e1) = >>=-eq-some (dijkstra s src_addr) _ e in
    elim (Bool-cases (t.cost dst == ulong_max)) [
      | inl unreached ↦ stopped-Keeps s t r (rw unreached at e1)
      | inr reached ↦ stopped-Keeps s t r (rw reached at e1)
    ]
compute_path-Keeps conf false md src_addr dst s r e =
    let (t, runs, e1) = >>=-eq-some (dijkstra s src_addr) _ e in
    elim (Bool-cases (t.cost dst == ulong_max)) [
      | inl unreached ↦ stopped-Keeps s t r (rw unreached at e1)
      | inr reached ↦ stopped-Keeps s t r (rw reached at e1)
    ]

k_loop-Keeps :
    (conf : Config) (mem : Memory) (src_addr dst i n : ℕ) (first : Option OlsrPath) (s : Topology)
    (r : Option OlsrPath × Topology)
    → k_loop conf mem src_addr dst i n first s ≡ some r
    → Keeps s r.1
unfolding k_loop
k_loop-Keeps conf mem src_addr dst i zero first s r e =
    subst (Keeps s) (ap (λ (o : Option OlsrPath × Topology). o.1) (some-injective (first, s) r e))
      (Keeps-refl s)
k_loop-Keeps conf mem src_addr dst i (suc n) first s r e =
    let (round, runs, e1) =
      >>=-eq-some (compute_path conf (mem.path i) (mem.path_data i) src_addr dst s) _ e in
    let kept = compute_path-Keeps conf (mem.path i) (mem.path_data i) src_addr dst s round runs in
    by_round round kept e1 (λ first' s'. k_loop-Keeps conf mem src_addr dst (i + 1) n first' s' r)
  where
    by_round :
        (round : Round)
        → Keeps s (after round)
        → ◌≡◌ {A = Option (Option OlsrPath × Topology)}
            (elim round [
              | stop s1 ↦ some (none, s1)
              | found path s1 ↦
                  k_loop conf mem src_addr dst
                    (i + 1)
                    n
                    (elim first [ none ↦ some path | some f ↦ some f ])
                    s1
            ])
            (some r)
        → ((first' : Option OlsrPath) (s' : Topology)
            → k_loop conf mem src_addr dst (i + 1) n first' s' ≡ some r
            → Keeps s' r.1)
        → Keeps s r.1
    by_round (stop s1) kept e1 rest =
        subst (Keeps s)
          (ap (λ (o : Option OlsrPath × Topology). o.1) (some-injective (none, s1) r e1)) kept
    by_round (found path s1) kept e1 rest = Keeps-trans s s1 r.1 kept (rest _ s1 e1)

-- Whatever `k_dijkstra` returns, it only writes the labels of the nodes, its two costs and the path
-- cache.
pub k_dijkstra-Keeps :
    (conf : Config) (mem : Memory) (src_addr dst_addr : ℕ) (s : Topology)
    (r : Option OlsrPath × Topology)
    → k_dijkstra conf mem src_addr dst_addr s ≡ some r
    → Keeps s r.1
unfolding k_dijkstra add_buffer init_costs
k_dijkstra-Keeps conf mem src_addr dst_addr s r e = elim (Bool-cases mem.path_buffer) [
  | inr no_memory ↦ ends (none, s) (Keeps-refl s) (rw (k_dijkstra, no_memory) at e)
  | inl there ↦
      let s1 = add_buffer src_addr dst_addr s in
      let kept : Keeps s s1 =
        (s.labels, s.dijkstra_cost, s.dijkstra_cost_p1, s1.path_buffer, refl) in
      elim (Option-cases (get_node s1 dst_addr)) [
        | inl unknown ↦ ends (none, s1) kept (rw (k_dijkstra, there, unknown) at e)
        | inr (dst, known) ↦
            let s2 = init_costs s1 in
            Keeps-trans s s2 r.1
              (s.labels, s2.dijkstra_cost, s2.dijkstra_cost_p1, s1.path_buffer, refl)
              (k_loop-Keeps conf mem src_addr dst 0 conf.path none s2 r
                (rw (k_dijkstra, there, known) at e))
      ]
]
  where
    ends : (o : Option OlsrPath × Topology) → Keeps s o.1 → some o ≡ some r → Keeps s r.1
    ends o kept h =
        subst (Keeps s) (ap (λ (q : Option OlsrPath × Topology). q.1) (some-injective o r h)) kept
