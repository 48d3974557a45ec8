-- ===== src/Kdjk/Route.antt =====
-- The loop back from the destination ends, keeps to the array, and copies a shortest path.
use mathlib.Core.List.{append_assoc}
use native.Mathlib.Numerals.{add-one}
use mpolsr_testbed.Common.{
  ℕ, zero, suc, ◌+◌, ◌<◌, ◌≡◌, ◌∙◌, refl, sym, ap, subst, inl, inr, true, Option, none, some, List,
  [], ◌∷◌, ◌++◌, All, memb, length, length-append, replicate, set, ◌==◌, ==_iff, Bool-cases, arith,
}
use mpolsr_testbed.Tc.{Labels, Topology, ulong_max}
use mpolsr_testbed.Tc.Hash.{main_addr}
use mpolsr_testbed.Djk.Init.{HasMain}
use mpolsr_testbed.Djk.Invariant.{IsChild}
use mpolsr_testbed.Djk.Shortest.{IsFinal}
use mpolsr_testbed.Djk.Correct.{IsRoutable}
use mpolsr_testbed.Kdjk.{Config, Walkback, raise_costs, push_addr, copy_addr, walk_back}

-- `Hops s a v r c`: a walk from `a` to `v` whose nodes behind `a` have the main addresses `r`, in
-- order, and whose links cost `c` together.
pub data Hops (s : Topology) (a : ℕ) : ℕ → List ℕ → ℕ → Type 0 where
  here : Hops s a a [] 0
  step :
      {u c : ℕ} {r : List ℕ}
      → Hops s a u r c
      → (l v x : ℕ) (r' : List ℕ) (d : ℕ) → memb l (s.link_src u) ≡ true
      → s.dst_node l ≡ v
      → main_addr s v ≡ some x
      → r ++ x ∷ [] ≡ r'
      → c + s.dijkstra_cost l ≡ d
      → Hops s a v r' d

set-replicate :
    (n x : ℕ) (suf : List ℕ) → set (replicate (suc n) 0 ++ suf) n x ≡ replicate n 0 ++ x ∷ suf
set-replicate zero x suf = refl
set-replicate (suc n) x suf = ap (λ l. 0 ∷ l) (set-replicate n x suf)

All-memb : (P : ℕ → Type 0) (xs : List ℕ) (v : ℕ) → All P xs → memb v xs ≡ true → P v
All-memb P [] v h m = absurd (cc)
All-memb P (x ∷ xs) v h m = elim (Bool-cases (x == v)) [
  | inl eq ↦ subst P ((==_iff x v).0 eq) h.0
  | inr ne ↦ All-memb P xs v h.1 (rw ne at m)
]

module _ (conf : Config) (s : Topology) (src_addr a max_cost : ℕ)
    (ok : IsRoutable s src_addr a max_cost) (t : Labels)
    (final : IsFinal s.node_lst s.link_src s.dst_node s.dijkstra_cost max_cost a
      (s.labels.hops a)
      ok.network
      t) where
  abbrev pub s1 : Topology
  s1 = record s { labels = t }

  -- What the loop leaves when it is started at `v`, with `suf` behind the free entries.
  pub record Copied (fuel : ℕ) (prev : Option ℕ) (v : ℕ) (b : Walkback) (suf : List ℕ)
      : Type 0 where
    pub hops : List ℕ
    pub result : Walkback
    pub returns : walk_back conf s1 fuel prev v b ≡ some result
    pub array : result.path ≡ replicate (t.hops a) 0 ++ (hops ++ suf)
    pub count : t.hops v ≡ t.hops a + length hops
    pub walk : Hops s a v hops (t.cost v)

  -- The variables after the copy at `v`, of `x` to the entry `r`.
  abbrev after_copy : Option ℕ → ℕ → ℕ → ℕ → Walkback → Walkback
  after_copy prev v x r b = record {
    path = set b.path r x;
    room = r;
    cost_p1 = raise_costs conf s1 prev v b.cost_p1;
  }

  walk_back-step :
      (fuel : ℕ) (prev : Option ℕ) (v u x r : ℕ) (b : Walkback)
      → t.path v ≡ some u
      → main_addr s v ≡ some x
      → b.room ≡ suc r
      → walk_back conf s1 (suc fuel) prev v b
        ≡ walk_back conf s1 fuel (some v) u (after_copy prev v x r b)
  unfolding walk_back copy_addr push_addr
  walk_back-step fuel prev v u x r b p m e = rw (p, m, e, push_addr, walk_back)

  walk_back-root :
      (fuel : ℕ) (prev : Option ℕ) (v : ℕ) (b : Walkback)
      → t.path v ≡ none
      → walk_back conf s1 (suc fuel) prev v b
        ≡ some (record b { cost_p1 = raise_costs conf s1 prev v b.cost_p1 })
  unfolding walk_back copy_addr
  walk_back-root fuel prev v b p = rw p

  Copied-child :
      (fuel : ℕ) (prev : Option ℕ) (v : ℕ) (b : Walkback) (suf : List ℕ)
      → memb v s.node_lst ≡ true
      → b.path ≡ replicate (t.hops v) 0 ++ suf
      → b.room ≡ t.hops v
      → (c : IsChild s.node_lst s.link_src s.dst_node s.dijkstra_cost t v)
      → (x : ℕ) (m : main_addr s v ≡ some x)
      → Copied fuel (some v) c.node (after_copy prev v x (t.hops c.node) b) (x ∷ suf)
      → Copied (suc fuel) prev v b suf
  Copied-child fuel prev v b suf i p e c x m ih = record {
    hops = ih.hops ++ x ∷ [];
    result = ih.result;
    returns =
        walk_back-step fuel prev v c.node x (t.hops c.node) b c.path m (omega (arith, e, c.hops))
        ∙ ih.returns;
    array =
        ih.array ∙ ap (λ l. replicate (t.hops a) 0 ++ l) (sym (append_assoc ih.hops (x ∷ []) suf));
    count = omega (arith, ih.count, c.hops, length-append ih.hops (x ∷ []));
    walk = Hops.step ih.walk c.link v x _ _ c.in_links c.ends m refl (sym c.cost);
  }

  pub walk_back-Copied :
      (fuel : ℕ) (prev : Option ℕ) (v : ℕ) (b : Walkback) (suf : List ℕ)
      → memb v s.node_lst ≡ true
      → t.cost v < ulong_max
      → t.hops v < fuel
      → b.path ≡ replicate (t.hops v) 0 ++ suf
      → b.room ≡ t.hops v
      → Copied fuel prev v b suf
  walk_back-Copied zero prev v b suf i lt f p e = absurd (omega arith)
  walk_back-Copied (suc fuel) prev v b suf i lt f p e = elim (final.inv.tree v i lt) [
    | inl root ↦ record {
      hops = [];
      result = record b { cost_p1 = raise_costs conf s1 prev v b.cost_p1 };
      returns = walk_back-root fuel prev v b root.1;
      array = p ∙ ap (λ n. replicate (t.hops n) 0 ++ suf) root.0;
      count = omega (arith, ap t.hops root.0);
      walk = rw (root.0, final.inv.source) Hops.here;
    }
    | inr c ↦
        let (x, m) = All-memb (HasMain (main_addr s) src_addr) s.node_lst v ok.mains i in
        let array : set b.path (t.hops c.node) x ≡ replicate (t.hops c.node) 0 ++ x ∷ suf =
          rw (p, c.hops, add-one) (set-replicate (t.hops c.node) x suf) in
        Copied-child fuel prev v b suf i p e c x m (
          walk_back-Copied fuel (some v) c.node (after_copy prev v x (t.hops c.node) b) (x ∷ suf)
            c.in_nodes (final.inv.finite c.node c.in_nodes c.processed) (omega (arith, c.hops))
            array refl)
  ]
