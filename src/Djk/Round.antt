-- ===== src/Djk/Round.antt =====
-- One round of the main loop keeps the invariant.
use mpolsr_testbed.Common.{
  ℕ, ◌+◌, ◌*◌, ◌≤◌, ◌<◌, ◌≡◌, ◌∙◌, sym, ap, subst, ◌⊎◌, inl, inr, true, false, not, List, memb,
  remove, length, length-remove, memb-remove_ne, memb_of_remove, memb-remove_self,
  remove-IsDistinct, ◌==◌, ==_iff, if◌then◌else◌, update, Bool-cases, arith,
}
use mpolsr_testbed.Tc.{Labels, ulong_max}
use mpolsr_testbed.Djk.{add_cost, process_node}
use mpolsr_testbed.Djk.Graph.{Walk}
use mpolsr_testbed.Djk.Min.{IsLeast}
use mpolsr_testbed.Djk.Relax.{Kept, Relaxed, update_links-Relaxed}
use mpolsr_testbed.Djk.Invariant.{IsNetwork, IsChild, IsRoot, Inv}

module _ (nodes : List ℕ) (link_src : ℕ → List ℕ) (dst_node link_cost : ℕ → ℕ)
    (max_cost a first : ℕ) (net : IsNetwork nodes link_src dst_node link_cost max_cost)
    (queue : List ℕ) (t : Labels)
    (inv : Inv nodes link_src dst_node link_cost max_cost a first queue t) (u : ℕ)
    (least : IsLeast t.cost ulong_max queue u) where
  abbrev t1 : Labels
  t1 = record t { processed = update t.processed u true }

  abbrev t' : Labels
  t' = process_node link_src dst_node link_cost u t

  abbrev rest : List ℕ
  rest = remove u queue

  round-Relaxed : Relaxed dst_node link_cost u (link_src u) t1 t'
  unfolding process_node
  round-Relaxed = update_links-Relaxed dst_node link_cost u (link_src u) t1 (ground arith)

  u_in : memb u nodes ≡ true
  u_in = inv.within u least.in_list

  u_open : t.processed u ≡ false
  u_open = ground (arith, inv.flags u u_in, least.in_list)

  t'-flags : (v : ℕ) → t'.processed v ≡ (if u == v then true else t.processed v)
  t'-flags v = round-Relaxed.flags v

  shorter : length queue * max_cost ≡ length rest * max_cost + max_cost
  shorter = omega (arith, ap (λ (n : ℕ). n * max_cost) (length-remove u queue least.in_list))

  -- The sum for a link of `u` does not wrap.
  no_wrap :
      (l : ℕ)
      → memb l (link_src u) ≡ true
      → (add_cost (t.cost u) (link_cost l) ≡ t.cost u + link_cost l)
        × (t.cost u + link_cost l + length rest * max_cost ≤ length nodes * max_cost)
  no_wrap l m = omega (arith, shorter, inv.bound u u_in least.below, net.cheap u l u_in m, net.fits)

  -- A processed node keeps its label.
  fixed : (v : ℕ) → t'.processed v ≡ true → Kept dst_node link_cost u t t' v
  fixed v p = elim (round-Relaxed.change v) [
    | inl k ↦ k
    | inr c ↦ absurd (ground (arith, t'-flags v, c.open_node))
  ]

  fixed_u : Kept dst_node link_cost u t t' u
  fixed_u = fixed u (ground (arith, t'-flags u))

  -- An open node was open before, and costs no less than `u`.
  open_before :
      (v : ℕ)
      → memb v nodes ≡ true
      → t'.processed v ≡ false
      → (t.processed v ≡ false) × (t.cost u ≤ t.cost v)
  open_before v i o =
      let o' : t.processed v ≡ false = ground (arith, t'-flags v) in
      (o', least.least v (ground (arith, inv.flags v i)))

  -- A processed node costs no more than `u`.
  processed_le : (v : ℕ) → memb v nodes ≡ true → t'.processed v ≡ true → t.cost v ≤ t.cost u
  processed_le v i p = elim (Bool-cases (u == v)) [
    | inl eq ↦ let e : u ≡ v = (==_iff u v).0 eq in ground (arith, e)
    | inr ne ↦ inv.order v u i (ground (arith, t'-flags v)) u_in u_open
  ]

  round-flags : (v : ℕ) → memb v nodes ≡ true → t'.processed v ≡ not (memb v rest)
  round-flags v i = elim (Bool-cases (u == v)) [
    | inl eq ↦
        let e : u ≡ v = (==_iff u v).0 eq in
        ground (arith, t'-flags v, memb-remove_self u queue inv.distinct, e)
    | inr ne ↦ ground (arith, t'-flags v, inv.flags v i, memb-remove_ne u v queue)
  ]

  round-walk :
      (v : ℕ)
      → memb v nodes ≡ true
      → t'.cost v < ulong_max
      → Walk link_src dst_node link_cost a v (t'.cost v)
  round-walk v i f = elim (round-Relaxed.change v) [
    | inl k ↦
        subst (Walk link_src dst_node link_cost a v) (sym k.0) (inv.walk v i (omega (arith, k.0)))
    | inr c ↦
        Walk.step (inv.walk u u_in least.below) c.link v (t'.cost v) c.in_list c.ends
          (sym (c.cost ∙ (no_wrap c.link c.in_list).0))
  ]

  round-tree :
      (v : ℕ)
      → memb v nodes ≡ true
      → t'.cost v < ulong_max
      → IsRoot nodes link_src dst_node link_cost a t' v
        ⊎ IsChild nodes link_src dst_node link_cost t' v
  round-tree v i f = elim (round-Relaxed.change v) [
    | inl k ↦ kept k (inv.tree v i (omega (arith, k.0)))
    | inr c ↦ inr (record {
      node = u;
      link = c.link;
      in_nodes = u_in;
      processed = ground (arith, t'-flags u);
      in_links = c.in_list;
      ends = c.ends;
      path = c.path;
      cost = omega (arith, c.cost, (no_wrap c.link c.in_list).0, fixed_u.0);
      hops = omega (arith, c.hops, fixed_u.2);
    })
  ]
    where
      kept :
          Kept dst_node link_cost u t t' v
          → IsRoot nodes link_src dst_node link_cost a t v
            ⊎ IsChild nodes link_src dst_node link_cost t v
          → IsRoot nodes link_src dst_node link_cost a t' v
            ⊎ IsChild nodes link_src dst_node link_cost t' v
      kept k (inl r) = inl (r.0, k.1 ∙ r.1)
      kept k (inr c) =
          let p : t'.processed c.node ≡ true = ground (arith, t'-flags c.node, c.processed) in
          let k' = fixed c.node p in
          inr (record {
            node = c.node;
            link = c.link;
            in_nodes = c.in_nodes;
            processed = p;
            in_links = c.in_links;
            ends = c.ends;
            path = k.1 ∙ c.path;
            cost = omega (arith, k.0, c.cost, k'.0);
            hops = omega (arith, k.2, c.hops, k'.2);
          })

  round-settled :
      (v l : ℕ)
      → memb v nodes ≡ true
      → t'.processed v ≡ true
      → memb l (link_src v) ≡ true
      → t'.cost (dst_node l) ≤ t'.cost v + link_cost l
  round-settled v l i p m = elim (Bool-cases (u == v)) [
    | inl eq ↦ from_u ((==_iff u v).0 eq)
    | inr ne ↦ omega (
      arith,
      inv.settled v l i (ground (arith, t'-flags v)) m,
      round-Relaxed.lower (dst_node l),
      (fixed v p).0,
    )
  ]
    where
      from_u : u ≡ v → t'.cost (dst_node l) ≤ t'.cost v + link_cost l
      from_u e =
          let m' : memb l (link_src u) ≡ true = rw e m in
          elim (Bool-cases (t'.processed (dst_node l))) [
            | inl done ↦
                let k = fixed (dst_node l) done in
                omega (
                  arith,
                  k.0,
                  (fixed v p).0,
                  ap t.cost e,
                  processed_le (dst_node l) (net.closed u l u_in m') done,
                )
            | inr o ↦ omega (
              arith,
              round-Relaxed.reached l m' (sym (round-Relaxed.flags (dst_node l)) ∙ o),
              (no_wrap l m').0,
              (fixed v p).0,
              ap t.cost e,
            )
          ]

  round-order :
      (p v : ℕ)
      → memb p nodes ≡ true
      → t'.processed p ≡ true
      → memb v nodes ≡ true
      → t'.processed v ≡ false
      → t'.cost p ≤ t'.cost v
  round-order p v i d j o = elim (round-Relaxed.change v) [
    | inl k ↦ omega (arith, k.0, (fixed p d).0, processed_le p i d, (open_before v j o).1)
    | inr c ↦ omega (arith, c.cost, (no_wrap c.link c.in_list).0, (fixed p d).0, processed_le p i d)
  ]

  round-bound :
      (v : ℕ)
      → memb v nodes ≡ true
      → t'.cost v < ulong_max
      → t'.cost v + length rest * max_cost ≤ length nodes * max_cost
  round-bound v i f = elim (round-Relaxed.change v) [
    | inl k ↦ omega (arith, k.0, shorter, inv.bound v i (omega (arith, k.0)))
    | inr c ↦ omega (arith, c.cost, no_wrap c.link c.in_list)
  ]

  -- The label of the source never changes.
  round-root_hops : t'.hops a ≡ first
  round-root_hops = elim (round-Relaxed.change a) [
    | inl k ↦ k.2 ∙ inv.root_hops
    | inr c ↦ absurd (omega (arith, c.less, inv.source))
  ]

  pub round-Inv : Inv nodes link_src dst_node link_cost max_cost a first rest t'
  round-Inv = record {
    distinct = remove-IsDistinct u queue inv.distinct;
    within = λ v m. inv.within v (memb_of_remove u v queue m);
    flags = round-flags;
    source = omega (arith, round-Relaxed.lower a, inv.source);
    root_hops = round-root_hops;
    most = λ v i. omega (arith, round-Relaxed.lower v, inv.most v i);
    walk = round-walk;
    tree = round-tree;
    settled = round-settled;
    order = round-order;
    finite = λ p i d. omega (arith, (fixed p d).0, processed_le p i d, least.below);
    bound = round-bound;
  }
