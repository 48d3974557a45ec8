-- ===== src/Djk/Shortest.antt =====
-- The main loop ends, with the least costs of the walks in the link graph.
use mpolsr_testbed.Common.{
  ℕ, zero, suc, ◌≤◌, ◌<◌, ◌≡◌, refl, ap, subst, inl, inr, true, none, some, List, [], ◌∷◌, memb,
  length, length-remove, remove, Option-cases, Bool-cases, arith,
}
use mpolsr_testbed.Tc.{Labels, ulong_max}
use mpolsr_testbed.Djk.{find_min, main_loop, process_node}
use mpolsr_testbed.Djk.Graph.{Walk}
use mpolsr_testbed.Djk.Min.{find_min-none, find_min-some}
use mpolsr_testbed.Djk.Invariant.{IsNetwork, Inv}
use mpolsr_testbed.Djk.Round.{round-Inv}

module _ (nodes : List ℕ) (link_src : ℕ → List ℕ) (dst_node link_cost : ℕ → ℕ)
    (max_cost a first : ℕ) (net : IsNetwork nodes link_src dst_node link_cost max_cost) where
  -- The labels when the main loop ends: what is left in the list has the cost ulong_max.
  pub record IsFinal (t : Labels) : Type 0 where
    pub queue : List ℕ
    pub inv : Inv nodes link_src dst_node link_cost max_cost a first queue t
    pub left : (v : ℕ) → memb v queue ≡ true → ulong_max ≤ t.cost v

  pub main_loop-IsFinal :
      (fuel : ℕ) (queue : List ℕ) (t : Labels)
      → length queue ≤ fuel
      → Inv nodes link_src dst_node link_cost max_cost a first queue t
      → (t' : Labels) × (main_loop link_src dst_node link_cost fuel queue t ≡ some t') × IsFinal t'
  unfolding main_loop
  main_loop-IsFinal zero [] t h inv =
      (t, refl, record { queue = []; inv = inv; left = λ v m. absurd (cc) })
  main_loop-IsFinal zero (x ∷ queue) t h inv = absurd (omega arith)
  main_loop-IsFinal (suc fuel) queue t h inv =
      elim (Option-cases (find_min t.cost ulong_max none queue)) [
        | inl e ↦ (
          t,
          rw (e, main_loop),
          record { queue = queue; inv = inv; left = find_min-none t.cost ulong_max queue e },
        )
        | inr (u, e) ↦
            let least = find_min-some t.cost ulong_max queue u e in
            let (t', r, f) =
              main_loop-IsFinal fuel (remove u queue) (process_node link_src dst_node link_cost u t)
                (omega (arith, length-remove u queue least.in_list))
                (round-Inv nodes link_src dst_node link_cost max_cost a first net queue t inv u
                  least) in
            (t', rw (e, main_loop) r, f)
      ]

  module _ (t : Labels) (final : IsFinal t) where
    -- A node with a cost has been processed.
    pub reached-processed :
        (v : ℕ) → memb v nodes ≡ true → t.cost v < ulong_max → t.processed v ≡ true
    reached-processed v i c = elim (Bool-cases (memb v final.queue)) [
      | inl m ↦ absurd (omega (arith, final.left v m))
      | inr m ↦ ground (arith, final.inv.flags v i)
    ]

    -- A walk from the source stays in the nodes, and the label of its end is no more than its cost.
    pub walk-in :
        (v d : ℕ)
        → memb a nodes ≡ true
        → Walk link_src dst_node link_cost a v d
        → (memb v nodes ≡ true) × (t.cost v ≤ d) × (t.cost v < ulong_max)
    walk-in v d i Walk.here = (i, omega (arith, final.inv.source), omega (arith, final.inv.source))
    walk-in v d i (Walk.step {u} {c} w l v' d' m e s) =
        let (ui, le, fin) = walk-in u c i w in
        let p = reached-processed u ui fin in
        let step = final.inv.settled u l ui p m in
        let vi : memb v nodes ≡ true = subst (λ x. memb x nodes ≡ true) e (net.closed u l ui m) in
        let bound = final.inv.bound u ui fin in
        let cheap = net.cheap u l ui m in
        let same = ap t.cost e in
        (vi, omega (arith, step, same, s, le), omega (arith, step, same, bound, cheap, net.fits))
