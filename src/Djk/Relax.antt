-- ===== src/Djk/Relax.antt =====
-- What one round of the main loop does to the labels.
use mpolsr_testbed.Common.{
  ℕ, ◌+◌, ◌≤◌, ◌<◌, ◌≡◌, ◌≢◌, ◌∙◌, refl, ◌⊎◌, inl, inr, true, false, not, ◌&&◌, some, List, [], ◌∷◌,
  memb, ltb, ◌==◌, ==_iff, Bool-cases, arith,
}
use mpolsr_testbed.Tc.{Labels}
use mpolsr_testbed.Djk.{add_cost, update_link, update_links}

module _ (dst_node link_cost : ℕ → ℕ) (u : ℕ) where
  -- The label of `v` is as before, or was set from a link of the list that leads from `u` to `v`.
  abbrev pub Kept : Labels → Labels → ℕ → Type 0
  Kept t t' v = (t'.cost v ≡ t.cost v) × (t'.path v ≡ t.path v) × (t'.hops v ≡ t.hops v)

  pub record Changed (ls : List ℕ) (t t' : Labels) (v : ℕ) : Type 0 where
    pub link : ℕ
    pub in_list : memb link ls ≡ true
    pub ends : dst_node link ≡ v
    pub open_node : t.processed v ≡ false
    pub cost : t'.cost v ≡ add_cost (t.cost u) (link_cost link)
    pub less : t'.cost v < t.cost v
    pub path : t'.path v ≡ some u
    pub hops : t'.hops v ≡ t.hops u + 1

  pub record Relaxed (ls : List ℕ) (t t' : Labels) : Type 0 where
    pub flags : (v : ℕ) → t'.processed v ≡ t.processed v
    pub lower : (v : ℕ) → t'.cost v ≤ t.cost v
    pub reached :
        (l : ℕ)
        → memb l ls ≡ true
        → t.processed (dst_node l) ≡ false
        → t'.cost (dst_node l) ≤ add_cost (t.cost u) (link_cost l)
    pub change : (v : ℕ) → Kept t t' v ⊎ Changed ls t t' v

  -- One link, from a node that is already processed (so its own label stays).
  update_link-Kept :
      (l : ℕ) (t : Labels) (v : ℕ)
      → (t.processed v ≡ true) ⊎ (dst_node l ≢ v)
      → Kept t (update_link dst_node link_cost u l t) v
  unfolding update_link
  update_link-Kept l t v h = ground arith

  update_link-flags :
      (l : ℕ) (t : Labels) (v : ℕ)
      → (update_link dst_node link_cost u l t).processed v ≡ t.processed v
  unfolding update_link
  update_link-flags l t v = ground arith

  update_link-lower :
      (l : ℕ) (t : Labels) (v : ℕ) → (update_link dst_node link_cost u l t).cost v ≤ t.cost v
  unfolding update_link
  update_link-lower l t v = ground arith

  update_link-reached :
      (l : ℕ) (t : Labels)
      → t.processed (dst_node l) ≡ false
      → (update_link dst_node link_cost u l t).cost (dst_node l) ≤ add_cost (t.cost u) (link_cost l)
  unfolding update_link
  update_link-reached l t h = ground arith

  update_link-change :
      (l : ℕ) (ls : List ℕ) (t : Labels) (v : ℕ)
      → Kept t (update_link dst_node link_cost u l t) v
        ⊎ Changed (l ∷ ls) t (update_link dst_node link_cost u l t) v
  unfolding update_link
  update_link-change l ls t v =
      elim (Bool-cases (
        not (t.processed (dst_node l))
        && ltb (add_cost (t.cost u) (link_cost l)) (t.cost (dst_node l)))) [
          | inr off ↦ inl (ground arith)
          | inl on ↦ elim (Bool-cases (dst_node l == v)) [
            | inr ne ↦ inl (ground arith)
            | inl eq ↦ inr (record {
              link = l;
              in_list = ground arith;
              ends = (==_iff _ _).0 eq;
              open_node = ground arith;
              cost = ground arith;
              less = ground arith;
              path = ground arith;
              hops = ground arith;
            })
          ]
        ]

  nil-Relaxed : (t : Labels) → Relaxed [] t t
  nil-Relaxed t = record {
    flags = λ v. refl;
    lower = λ v. omega arith;
    reached = λ l m p. absurd (cc);
    change = λ v. inl (refl, refl, refl);
  }

  -- A change by the rest of the list, seen from before its first link.
  Changed-cons :
      (l : ℕ) (ls : List ℕ) (t t' : Labels) (v : ℕ)
      → t.processed u ≡ true
      → Changed ls (update_link dst_node link_cost u l t) t' v
      → Changed (l ∷ ls) t t' v
  Changed-cons l ls t t' v p c = record {
    link = c.link;
    in_list = ground (arith, c.in_list);
    ends = c.ends;
    open_node = cc (update_link-flags l t v, c.open_node);
    cost = ground (arith, update_link-Kept l t u (inl p), c.cost);
    less = omega (arith, update_link-lower l t v, c.less);
    path = c.path;
    hops = ground (arith, update_link-Kept l t u (inl p), c.hops);
  }

  Changed-Kept :
      (ls : List ℕ) (t t' t'' : Labels) (v : ℕ)
      → Changed ls t t' v
      → Kept t' t'' v
      → Changed ls t t'' v
  Changed-Kept ls t t' t'' v c k = record {
    link = c.link;
    in_list = c.in_list;
    ends = c.ends;
    open_node = c.open_node;
    cost = k.0 ∙ c.cost;
    less = omega (arith, c.less);
    path = k.1 ∙ c.path;
    hops = k.2 ∙ c.hops;
  }

  cons-Relaxed :
      (l : ℕ) (ls : List ℕ) (t t' : Labels)
      → t.processed u ≡ true
      → Relaxed ls (update_link dst_node link_cost u l t) t'
      → Relaxed (l ∷ ls) t t'
  cons-Relaxed l ls t t' p r = record {
    flags = λ v. r.flags v ∙ update_link-flags l t v;
    lower = λ v. omega (arith, r.lower v, update_link-lower l t v);
    reached = λ k m o. elim (Bool-cases (l == k)) [
      | inl eq ↦
          let e : l ≡ k = (==_iff l k).0 eq in
          ground (arith, r.lower (dst_node k), update_link-reached l t, e)
      | inr ne ↦ ground (
        arith,
        r.reached k,
        update_link-flags l t (dst_node k),
        update_link-Kept l t u (inl p),
        ne,
      )
    ];
    change = λ v. elim (r.change v) [
      | inr c ↦ inr (Changed-cons l ls t t' v p c)
      | inl kept ↦ elim (update_link-change l ls t v) [
        | inl before ↦ inl (ground arith)
        | inr c ↦ inr (Changed-Kept (l ∷ ls) t _ t' v c kept)
      ]
    ];
  }

  -- The whole list of links, from a processed node.
  pub update_links-Relaxed :
      (ls : List ℕ) (t : Labels)
      → t.processed u ≡ true
      → Relaxed ls t (update_links dst_node link_cost u ls t)
  unfolding update_links
  update_links-Relaxed [] t p = nil-Relaxed t
  update_links-Relaxed (l ∷ ls) t p =
      cons-Relaxed l ls t _ p (
        update_links-Relaxed ls (update_link dst_node link_cost u l t)
          (update_link-flags l t u ∙ p))
