-- ===== src/Plugin/Rounds.antt =====
-- The links of the topology: each becomes active, unless it leads from here to no neighbour.
use mpolsr_testbed.Common.{
  ℕ, ◌==◌, ◌≡◌, ◌∙◌, refl, sym, ap, inl, inr, Bool, true, false, not, ◌&&◌, Option, none, some,
  if◌then◌else◌, ◌>>=◌, Bool-cases, Option-cases, memb, arith,
}
use mpolsr_testbed.Plugin.{
  activate_node, add_dst, add_tc_link, Cache, Entry, is_in_neighbourhood, Olsr,
}
use mpolsr_testbed.Plugin.Entries.{entry, entry-IsOk, find_entry-entry, IsClean, link, node}
use mpolsr_testbed.Plugin.Links.{Mirrors}
use mpolsr_testbed.Plugin.Activate.{activate_node_lem}
use mpolsr_testbed.Plugin.Dsts.{add_dst_lem}

negated {ℓ} : {A : Type ℓ} (b : Bool) (x y : A) → (if b then x else y) ≡ (if not b then y else x)
negated true x y = refl
negated false x y = refl

module _ (hash : ℕ → ℕ) (hashsize : ℕ) (olsr : Olsr) where
  -- Whether the plugin tells the module about a link.
  abbrev pub wanted : ℕ → ℕ → Bool
  wanted src dst = not (memb src olsr.interfaces && not (is_in_neighbourhood dst olsr.neighbours))

  -- Both ends of an active link are active.
  abbrev pub IsGrounded : Cache → Type 0
  IsGrounded c =
      (u v : ℕ)
      → link hash c u v ≡ some true
      → (node hash c u ≡ some true) × (node hash c v ≡ some true)

  -- The state between the reset and the removal: clean, grounded and mirrored by the module.
  pub record IsReady (c : Cache) : Type 0 where
    pub clean : IsClean hash olsr.interfaces c
    pub ends : IsGrounded c
    pub mirrors : Mirrors hash c

  skips :
      (src : ℕ) (c : Cache)
      → IsClean hash olsr.interfaces c
      → ◌≡◌ {A = Bool}
          (elim (entry hash c src) [ none ↦ memb src olsr.interfaces | some e ↦ e.is_src_local ])
          (memb src olsr.interfaces)
  skips src c clean = elim (Option-cases (entry hash c src)) [
    | inl new ↦ rw new refl
    | inr (e, there) ↦
        let (ok, of_src) = entry-IsOk hash olsr.interfaces c clean src e there in
        rw there (ok.2 ∙ ap (λ a. memb a olsr.interfaces) of_src)
  ]

  chooses :
      (src dst : ℕ) (c : Cache)
      → IsClean hash olsr.interfaces c
      → add_tc_link hash hashsize olsr src dst c ≡ (
          if wanted src dst
          then (activate_node hash hashsize olsr src c >>= λ c1.
              activate_node hash hashsize olsr dst c1 >>= add_dst hash hashsize olsr src dst)
          else some c)
  unfolding add_tc_link
  chooses src dst c clean =
      rw (find_entry-entry hash olsr.interfaces c clean src, ◌>>=◌, skips src c clean)
        (negated (memb src olsr.interfaces && not (is_in_neighbourhood dst olsr.neighbours)) _ _)

  entry_of_node :
      (a : ℕ) (c : Cache) → node hash c a ≡ some true → (e : Entry) × (entry hash c a ≡ some e)
  entry_of_node a c h = elim (Option-cases (entry hash c a)) [
    | inl new ↦ absurd (ground (arith, new))
    | inr found ↦ found
  ]

  self_active :
      (src dst : ℕ) (o : Option Bool)
      → (if dst == src then some true else if src == src then some true else o) ≡ some true
  self_active src dst o = ground arith

  self_there : (a : ℕ) (o : Option Bool) → (if a == a then some true else o) ≡ some true
  self_there a o = ground arith

  grounded :
      (src dst : ℕ) (c c' : Cache)
      → IsGrounded c
      → ((u v : ℕ)
          → link hash c' u v ≡ (if src == u && dst == v then some true else link hash c u v))
      → ((b : ℕ)
          → node hash c' b
            ≡ (if dst == b then some true else if src == b then some true else node hash c b))
      → IsGrounded c'
  grounded src dst c c' ends links nodes u v h =
      ground (arith, sym (links u v) ∙ h, nodes u, nodes v, ends u v)

  -- A wanted link becomes active with its two ends, and another one is skipped.
  pub add_tc_link_lem :
      (src dst : ℕ) (c : Cache)
      → IsReady c
      → (c' : Cache) × (add_tc_link hash hashsize olsr src dst c ≡ some c')
        × IsReady c'
        × ((u v : ℕ)
            → link hash c' u v
              ≡ (if src == u && (dst == v && wanted src dst) then some true else link hash c u v))
  unfolding add_tc_link
  add_tc_link_lem src dst c ready = elim (Bool-cases (wanted src dst)) [
    | inr skipped ↦
        (c, chooses src dst c ready.clean ∙ rw skipped refl, ready, λ u v. ground (arith, skipped))
    | inl go ↦
        let (c1, runs1, act1) = activate_node_lem hash hashsize olsr src c ready.clean in
        let (c2, runs2, act2) = activate_node_lem hash hashsize olsr dst c1 act1.step.clean in
        let nodes2 : (b : ℕ)
            → node hash c2 b
              ≡ (if dst == b then some true else if src == b then some true else node hash c b) =
          λ b. act2.nodes b ∙ ap (λ o. if dst == b then some true else o) (act1.nodes b) in
        let (e, there) =
          entry_of_node src c2 (nodes2 src ∙ self_active src dst (node hash c src)) in
        let (c', runs', linked) =
          add_dst_lem hash hashsize olsr src dst c2 act2.step.clean e there
            (nodes2 dst ∙ self_there dst (if src == dst then some true else node hash c dst)) in
        let links : (u v : ℕ)
            → link hash c' u v ≡ (if src == u && dst == v then some true else link hash c u v) =
          λ u v.
            linked.links u v
            ∙ ap (λ o. if src == u && dst == v then some true else o)
                (act2.step.links u v ∙ act1.step.links u v) in
        let nodes : (b : ℕ)
            → node hash c' b
              ≡ (if dst == b then some true else if src == b then some true else node hash c b) =
          λ b. linked.nodes b ∙ nodes2 b in
        (
          c',
          chooses src dst c ready.clean ∙ rw (go, runs1, ◌>>=◌, runs2) runs',
          record {
            clean = linked.clean;
            ends = grounded src dst c c' ready.ends links nodes;
            mirrors = linked.mirrors (act2.step.mirrors (act1.step.mirrors ready.mirrors));
          },
          λ u v. links u v ∙ rw go (ground arith),
        )
  ]
