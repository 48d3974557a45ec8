-- ===== src/Djk/Init.antt =====
-- The reset of the nodes, and the invariant at the start of the main loop.
use mpolsr_testbed.Common.{
  ℕ, ◌+◌, ◌*◌, ◌<◌, ◌≡◌, refl, inl, inr, ap, true, false, ◌||◌, Option, none, some, List, [], ◌∷◌,
  All, memb, IsDistinct, length, ◌==◌, ==_iff, if◌then◌else◌, update, Bool-cases, subst, arith,
}
use mpolsr_testbed.Tc.{Labels, ulong_max}
use mpolsr_testbed.Djk.{init_node_list}
use mpolsr_testbed.Djk.Graph.{Walk}
use mpolsr_testbed.Djk.Invariant.{Inv}

module _ (main : ℕ → Option ℕ) (src_addr : ℕ) where
  abbrev pub HasMain : ℕ → Type 0
  HasMain n = (x : ℕ) × (main n ≡ some x)

  -- The label that the reset gives.
  pub record IsFresh (t : Labels) (v : ℕ) : Type 0 where
    pub open_node : t.processed v ≡ false
    pub path : t.path v ≡ none
    pub addr : ℕ
    pub has_addr : main v ≡ some addr
    pub cost : t.cost v ≡ (if addr == src_addr then 0 else ulong_max)

  abbrev reset : ℕ → ℕ → Labels → Labels
  reset node addr t = record t {
    cost = update t.cost node (if addr == src_addr then 0 else ulong_max);
    path = update t.path node none;
    processed = update t.processed node false;
  }

  reset_self : (n x : ℕ) (t : Labels) → main n ≡ some x → IsFresh (reset n x t) n
  reset_self n x t e = record {
    open_node = ground arith;
    path = ground arith;
    addr = x;
    has_addr = e;
    cost = ground arith;
  }

  reset-IsFresh : (n x v : ℕ) (t : Labels) → main n ≡ some x → IsFresh t v → IsFresh (reset n x t) v
  reset-IsFresh n x v t e f = elim (Bool-cases (n == v)) [
    | inl eq ↦ subst (IsFresh (reset n x t)) ((==_iff n v).0 eq) (reset_self n x t e)
    | inr ne ↦ record {
      open_node = ground (arith, f.open_node);
      path = ground (arith, f.path);
      addr = f.addr;
      has_addr = f.has_addr;
      cost = ground (arith, f.cost);
    }
  ]

  pub record Built (nodes acc : List ℕ) (t : Labels) (node_list : List ℕ) (t' : Labels)
      : Type 0 where
    pub returns : init_node_list main src_addr nodes acc t ≡ some (node_list, t')
    pub hops : t'.hops ≡ t.hops
    pub size : length node_list ≡ length nodes + length acc
    pub items : (v : ℕ) → memb v node_list ≡ memb v nodes || memb v acc
    pub fresh : (v : ℕ) → memb v nodes ≡ true → IsFresh t' v
    pub still_fresh : (v : ℕ) → IsFresh t v → IsFresh t' v
    pub distinct :
        IsDistinct nodes
        → IsDistinct acc
        → ((v : ℕ) → memb v nodes ≡ true → memb v acc ≡ false)
        → IsDistinct node_list

  pub init_node_list-Built :
      (nodes acc : List ℕ) (t : Labels)
      → All HasMain nodes
      → (node_list : List ℕ) × (t' : Labels) × Built nodes acc t node_list t'
  unfolding init_node_list
  init_node_list-Built [] acc t h = (
    acc,
    t,
    record {
      returns = refl;
      hops = refl;
      size = omega arith;
      items = λ v. refl;
      fresh = λ v m. absurd (cc);
      still_fresh = λ v f. f;
      distinct = λ d d' x. d';
    },
  )
  init_node_list-Built (n ∷ ns) acc t h =
      let (node_list, t', b) = init_node_list-Built ns (n ∷ acc) (reset n h.0.0 t) h.1 in
      (
        node_list,
        t',
        record {
          returns = rw h.0.1 b.returns;
          hops = b.hops;
          size = omega (arith, b.size);
          items = λ v. ground (arith, b.items v);
          fresh = λ v m. elim (Bool-cases (n == v)) [
            | inl eq ↦
                b.still_fresh v (
                  subst (IsFresh (reset n h.0.0 t)) ((==_iff n v).0 eq)
                    (reset_self n h.0.0 t h.0.1))
            | inr ne ↦ b.fresh v (rw ne at m)
          ];
          still_fresh = λ v f. b.still_fresh v (reset-IsFresh n h.0.0 v t h.0.1 f);
          distinct = λ d d' x.
              b.distinct d.1 (ground (arith, x n), d')
                (λ v m. elim (Bool-cases (n == v)) [
                  | inl eq ↦ let e : n ≡ v = (==_iff n v).0 eq in absurd (ground (arith, e, d.0))
                  | inr ne ↦ ground (arith, x v)
                ]);
        },
      )

  module _ (nodes : List ℕ) (link_src : ℕ → List ℕ) (dst_node link_cost : ℕ → ℕ) (max_cost a : ℕ)
      (mains : All HasMain nodes) (separate : IsDistinct nodes) (a_in : memb a nodes ≡ true)
      (a_main : main a ≡ some src_addr)
      (unique : (v : ℕ) → memb v nodes ≡ true → main v ≡ some src_addr → v ≡ a) where
    -- Only the source has a cost below ulong_max.
    only_source :
        (t' : Labels) (v : ℕ) → memb v nodes ≡ true → IsFresh t' v → t'.cost v < ulong_max → v ≡ a
    only_source t' v i f c = elim (Bool-cases (f.addr == src_addr)) [
      | inl eq ↦ unique v i (ground (arith, f.has_addr))
      | inr ne ↦ absurd (ground (arith, f.cost))
    ]

    pub start-Inv :
        (t : Labels)
        → (node_list : List ℕ) × (t' : Labels) × Built nodes [] t node_list t'
          × Inv nodes link_src dst_node link_cost max_cost a (t.hops a) node_list t'
    start-Inv t =
        let (node_list, t', b) = init_node_list-Built nodes [] t mains in
        let source : t'.cost a ≡ 0 =
          ground (arith, (b.fresh a a_in).cost, (b.fresh a a_in).has_addr) in
        (
          node_list,
          t',
          b,
          record {
            distinct = b.distinct separate tt (λ v m. refl);
            within = λ v m. ground (arith, b.items v);
            flags = λ v i. ground (arith, b.items v, (b.fresh v i).open_node);
            source = source;
            root_hops = ap (λ (f : ℕ → ℕ). f a) b.hops;
            most = λ v i. ground (arith, (b.fresh v i).cost);
            walk = λ v i c. let e = only_source t' v i (b.fresh v i) c in rw (e, source) Walk.here;
            tree = λ v i c. inl (only_source t' v i (b.fresh v i) c, (b.fresh v i).path);
            settled = λ u l i p m. absurd (ground (arith, (b.fresh u i).open_node));
            order = λ u v i p j o. absurd (ground (arith, (b.fresh u i).open_node));
            finite = λ u i p. absurd (ground (arith, (b.fresh u i).open_node));
            bound = λ v i c.
                let e = only_source t' v i (b.fresh v i) c in
                omega (arith, b.size, ap (λ (n : ℕ). n * max_cost) b.size, ap t'.cost e, source);
          },
        )
