-- ===== src/Kdjk/Raise.antt =====
-- A round of `tc_k_dijstra` raises no cost by more than the larger coefficient.
use native.Mathlib.Nat.{le-mul_of_pos_right, mul-le-mul}
use mathlib.Core.Option.{some-injective}
use mpolsr_testbed.Common.{
  set, ℕ, zero, suc, ◌+◌, ◌*◌, ◌%◌, ◌^◌, ◌≤◌, ◌<◌, ◌≡◌, refl, sym, ap, subst, inl, inr, true, false,
  Bool, Option, none, some, List, [], ◌∷◌, memb, length, ◌==◌, ==_iff, if◌then◌else◌, >>=-eq-some,
  Bool-cases, Option-cases, update, arith,
}
use mpolsr_testbed.Tc.{Labels, OlsrPath, Topology, ulong_max}
use mpolsr_testbed.Tc.Hash.{main_addr}
use mpolsr_testbed.Djk.{dijkstra}
use mpolsr_testbed.Djk.Correct.{dijkstra_terminates, IsRoutable}
use mpolsr_testbed.Kdjk.{
  compute_path, Config, copy_addr, find_link_to, found, mul_cost, push_addr, raise_back,
  raise_costs, raise_into, Round, stop, store_path, take_costs, Walkback, walk_back,
}
use mpolsr_testbed.Kdjk.Path.{compute_path_lem}
use mpolsr_testbed.Kdjk.Prepare.{copy_links_lem}

-- No coefficient exceeds `f`, which is at least 1.
pub record IsFactor (conf : Config) (f : ℕ) : Type 0 where
  pub positive : 0 < f
  pub fp : conf.fp ≤ f
  pub fe : conf.fe ≤ f

mod-le : (x : ℕ) → x % 2 ^ 32 ≤ x
mod-le x = omega arith

push_addr-cost_p1 :
    (addr : ℕ) (b b' : Walkback) → push_addr addr b ≡ some b' → b'.cost_p1 ≡ b.cost_p1
unfolding push_addr
push_addr-cost_p1 addr b b' e = by_room b.room refl
  where
    by_room : (n : ℕ) → b.room ≡ n → b'.cost_p1 ≡ b.cost_p1
    by_room zero full = absurd (ground (arith, full))
    by_room (suc r) left =
        ap (λ (w : Walkback). w.cost_p1)
          (sym (
            some-injective (record b { path = set b.path r addr; room = r }) b'
              (rw (push_addr, left) at e)))

module _ (conf : Config) (s : Topology) (c f : ℕ) (factor : IsFactor conf f) where
  -- The costs of the links of all nodes are at most `bound`.
  abbrev pub Below : ℕ → (ℕ → ℕ) → Type 0
  Below bound p1 =
      (u l : ℕ) → memb u s.node_lst ≡ true → memb l (s.link_src u) ≡ true → p1 l ≤ bound

  mul_cost-le : (v g : ℕ) → v ≤ c → g ≤ f → mul_cost v g ≤ c * f
  mul_cost-le v g v_le g_le = omega (arith, mod-le (v * g), mul-le-mul v_le g_le)

  module _ (cheap : Below c s.dijkstra_cost) where
    raise_one :
        (p1 : ℕ → ℕ) (link g : ℕ)
        → g ≤ f
        → Below (c * f) p1
        → Below (c * f) (update p1 link (mul_cost (s.dijkstra_cost link) g))
    raise_one p1 link g g_le below u l m i = elim (Bool-cases (link == l)) [
      | inl eq ↦
          let same : link ≡ l = (==_iff link l).0 eq in
          rw eq (mul_cost-le (s.dijkstra_cost link) g (rw same (cheap u l m i)) g_le)
      | inr ne ↦ rw ne (below u l m i)
    ]

    raise_into-Below :
        (node : ℕ) (links : List ℕ) (p1 : ℕ → ℕ)
        → Below (c * f) p1
        → Below (c * f) (raise_into conf s node links p1)
    unfolding raise_into
    raise_into-Below node [] p1 below = below
    raise_into-Below node (link ∷ links) p1 below = raise_into-Below node links _ (
        raise_one p1 link (if s.src_node link == node then conf.fp else conf.fe)
          (ground (arith, factor.fp, factor.fe)) below)

    raise_back-Below :
        (prev node : ℕ) (p1 : ℕ → ℕ)
        → Below (c * f) p1
        → Below (c * f) (raise_back conf s prev node p1)
    unfolding raise_back
    raise_back-Below prev node p1 below =
        elim (Option-cases (find_link_to s.dst_node node (s.link_src prev))) [
          | inl e ↦ rw (raise_back, e) below
          | inr (link, e) ↦ rw (raise_back, e) (raise_one p1 link conf.fp factor.fp below)
        ]

    raise_costs-Below :
        (prev : Option ℕ) (node : ℕ) (p1 : ℕ → ℕ)
        → Below (c * f) p1
        → Below (c * f) (raise_costs conf s prev node p1)
    unfolding raise_costs
    raise_costs-Below none node p1 below = below
    raise_costs-Below (some prev) node p1 below =
        raise_back-Below prev node _ (raise_into-Below node (s.link_dst prev) p1 below)

    copy_addr-cost_p1 :
        (node : ℕ) (b b' : Walkback) → copy_addr conf s node b ≡ some b' → b'.cost_p1 ≡ b.cost_p1
    unfolding copy_addr push_addr
    copy_addr-cost_p1 node b b' e = elim (Option-cases (s.labels.path node)) [
      | inl start ↦
          ap (λ (w : Walkback). w.cost_p1) (sym (some-injective b b' (rw (copy_addr, start) at e)))
      | inr (before, more) ↦
          let (addr, main, pushes) = >>=-eq-some (main_addr s node) _ (rw (copy_addr, more) at e) in
          push_addr-cost_p1 addr b b' pushes
    ]

    walk_back-Below :
        (fuel : ℕ) (prev : Option ℕ) (node : ℕ) (b b' : Walkback)
        → Below (c * f) b.cost_p1
        → walk_back conf s fuel prev node b ≡ some b'
        → Below (c * f) b'.cost_p1
    unfolding walk_back
    walk_back-Below zero prev node b b' below e = absurd (cc)
    walk_back-Below (suc fuel) prev node b b' below e =
        let (b1, copied, goes) = >>=-eq-some (copy_addr conf s node b) _ e in
        let below1 : Below (c * f) b1.cost_p1 =
          subst (Below (c * f)) (sym (copy_addr-cost_p1 node b b1 copied)) below in
        let b2 : Walkback = record b1 { cost_p1 = raise_costs conf s prev node b1.cost_p1 } in
        elim (Option-cases (s.labels.path node)) [
          | inl start ↦
              subst (λ (w : Walkback). Below (c * f) w.cost_p1)
                (some-injective b2 b' (rw start at goes))
                (raise_costs-Below prev node b1.cost_p1 below1)
          | inr (before, more) ↦
              walk_back-Below fuel (some node) before b2 b'
                (raise_costs-Below prev node b1.cost_p1 below1) (rw more at goes)
        ]

  -- What a round leaves if it finds a path: costs that are raised by at most the factor.
  pub record Raised (s' : Topology) : Type 0 where
    pub node_lst : s'.node_lst ≡ s.node_lst
    pub link_src : s'.link_src ≡ s.link_src
    pub cost_p1 : Below (c * f) s'.dijkstra_cost_p1

  abbrev pub IsRaised : ℕ → ℕ → Round → Type 0
  IsRaised src_addr a (stop s') = Unit
  IsRaised src_addr a (found path s') = IsRoutable s' src_addr a (c * f) × Raised s'

module _ (conf : Config) (s : Topology) (c f src_addr a dst : ℕ) (factor : IsFactor conf f)
    (ok : IsRoutable s src_addr a c) (below : Below conf s c f factor c s.dijkstra_cost_p1)
    (dst_in : memb dst s.node_lst ≡ true)
    (fits : length s.node_lst * (c * f) + c * f < ulong_max) where
  grows : c ≤ c * f
  grows = le-mul_of_pos_right c factor.positive

  stored-Raised :
      (t : Labels) (path : OlsrPath) (p1 : ℕ → ℕ)
      → Below conf s c f factor (c * f) p1
      → IsRaised conf s c f factor src_addr a
          (found path (store_path path p1 (record s { labels = t })))
  unfolding store_path take_costs
  stored-Raised t path p1 small = (
    record {
      distinct = ok.distinct;
      mains = ok.mains;
      source_in = ok.source_in;
      source_main = ok.source_main;
      unique = ok.unique;
      network = record {
        closed = ok.network.closed;
        cheap = λ u l m i.
            omega (
              arith,
              small u l m i,
              copy_links_lem s.link_src p1 s.dijkstra_cost s.node_lst u l m i,
            );
        fits = fits;
      };
    },
    record { node_lst = refl; link_src = refl; cost_p1 = small },
  )

  compute_path-Raised :
      (s' : Topology) (p : OlsrPath)
      → compute_path conf true true src_addr dst s ≡ some (found p s')
      → IsRaised conf s c f factor src_addr a (found p s')
  unfolding compute_path store_path take_costs
  compute_path-Raised s' p e =
      let (t, runs, e1) = >>=-eq-some (dijkstra s src_addr) _ e in
      elim (Bool-cases (t.cost dst == ulong_max)) [
        | inl none_left ↦ absurd (ground (arith, none_left, e1))
        | inr reached ↦
            let (b', walks, e2) =
              >>=-eq-some (walk_back conf (record s { labels = t }) (suc (t.hops dst)) none dst _) _
                (rw reached at e1) in
            let path : OlsrPath = record { path = b'.path; path_hops = t.hops dst } in
            let small : Below conf s c f factor (c * f) b'.cost_p1 =
              walk_back-Below conf (record s { labels = t }) c f factor ok.network.cheap
                (suc (t.hops dst)) none dst _ b' (λ u l m i. omega (arith, below u l m i, grows))
                walks in
            subst (IsRaised conf s c f factor src_addr a)
              (some-injective (found path (store_path path b'.cost_p1 (record s { labels = t })))
                (found p s') e2)
              (stored-Raised t path b'.cost_p1 small)
      ]

  -- A round does not fault, whichever allocations succeed.
  pub compute_path-total :
      (mp md : Bool)
      → (r : Round) × (compute_path conf mp md src_addr dst s ≡ some r)
        × IsRaised conf s c f factor src_addr a r
  unfolding compute_path
  compute_path-total true true =
      let (r, runs, _) = compute_path_lem conf s src_addr a dst c ok dst_in in by_round r runs
    where
      by_round :
          (r : Round)
          → compute_path conf true true src_addr dst s ≡ some r
          → (r : Round) × (compute_path conf true true src_addr dst s ≡ some r)
            × IsRaised conf s c f factor src_addr a r
      by_round (stop s') runs = (stop s', runs, tt)
      by_round (found p s') runs = (found p s', runs, compute_path-Raised s' p runs)
  compute_path-total true false =
      let (t, runs) = dijkstra_terminates s src_addr a c ok in
      (stop (record s { labels = t }), rw runs (ground arith), tt)
  compute_path-total false md =
      let (t, runs) = dijkstra_terminates s src_addr a c ok in
      (stop (record s { labels = t }), rw runs (ground arith), tt)
