-- ===== src/Plugin/Reset.antt =====
-- The loop that makes every node, link and alias inactive.
use mpolsr_testbed.Common.{
  ℕ, zero, suc, ◌<◌, ◌==◌, ◌≡◌, ◌∙◌, refl, sym, ap, inl, inr, ==_iff, lt→ltb, Bool, true, false,
  Option, none, some, List, [], ◌∷◌, if◌then◌else◌, ◌>>=◌, Bool-cases, Option-cases, ltb, update,
  arith,
}
use mpolsr_testbed.Plugin.{
  Cache, Dst, Entry, find_dst, Olsr, reset_active_flag, reset_chain, reset_dsts, reset_mids,
  reset_tab,
}
use mpolsr_testbed.Plugin.Entries.{
  entry_active, node, ChainOk, DstsOk, dst_active, dst_of, entry, IsClean, link, lookup_entry,
  on_entry,
}
use mpolsr_testbed.Plugin.Links.{has, Mirrors, no_graph, run_commands}
use mpolsr_testbed.Plugin.Rounds.{IsReady}

abbrev pub off : Option Bool → Option Bool
off none = none
off (some x) = some false

has-off : (o : Option Bool) → has (off o) ≡ has o
has-off none = refl
has-off (some x) = refl

find-reset_dsts :
    (a : ℕ) (ds : List Dst)
    → find_dst a (reset_dsts ds)
      ≡ elim (find_dst a ds) [ none ↦ none | some d ↦ some (record d { is_active = false }) ]
unfolding find_dst
find-reset_dsts a [] = refl
find-reset_dsts a (d ∷ ds) = ground (arith, find-reset_dsts a ds)

module _ (hash : ℕ → ℕ) (hashsize : ℕ) (olsr : Olsr) where
  reset_dsts-DstsOk : (i : ℕ) (ds : List Dst) → DstsOk hash i ds → DstsOk hash i (reset_dsts ds)
  reset_dsts-DstsOk i [] ok = tt
  reset_dsts-DstsOk i (d ∷ ds) ok =
      (ok.0, find-reset_dsts d.dst_addr ds ∙ rw (ok.1) refl, reset_dsts-DstsOk i ds ok.2)

  abbrev quiet : Entry → Entry
  quiet e = record e {
    is_active = false;
    dst_tab = λ index. if ltb index hashsize then reset_dsts (e.dst_tab index) else e.dst_tab index;
  }

  abbrev quiet_chain : List Entry → List Entry
  quiet_chain [] = []
  quiet_chain (e ∷ chain) = quiet e ∷ quiet_chain chain

  lookup-quiet_chain :
      (a : ℕ) (chain : List Entry)
      → lookup_entry a (quiet_chain chain) ≡ on_entry quiet (lookup_entry a chain)
  lookup-quiet_chain a [] = refl
  lookup-quiet_chain a (e ∷ chain) = elim (Bool-cases (e.src_addr == a)) [
    | inl eq ↦ rw eq refl
    | inr ne ↦ rw ne (lookup-quiet_chain a chain)
  ]

  quiet_chain-ChainOk :
      (k : ℕ) (chain : List Entry)
      → ChainOk hash olsr.interfaces k chain
      → ChainOk hash olsr.interfaces k (quiet_chain chain)
  quiet_chain-ChainOk k [] ok = tt
  quiet_chain-ChainOk k (e ∷ chain) ok = (
    (
      ok.0.0,
      ok.0.1,
      ok.0.2,
      λ i. elim (Bool-cases (ltb i hashsize)) [
        | inl inside ↦ rw inside (reset_dsts-DstsOk i (e.dst_tab i) (ok.0.3 i))
        | inr out ↦ rw out (ok.0.3 i)
      ],
    ),
    lookup-quiet_chain e.src_addr chain ∙ rw (ok.1) refl,
    quiet_chain-ChainOk k chain ok.2,
  )

  reset_chain-quiet :
      (k : ℕ) (chain : List Entry)
      → ChainOk hash olsr.interfaces k chain
      → reset_chain hash hashsize olsr chain ≡ some (quiet_chain chain)
  unfolding reset_chain
  reset_chain-quiet k [] ok = refl
  reset_chain-quiet k (e ∷ chain) ok = rw (ok.0.0, reset_chain-quiet k chain ok.2) refl

  reset_tab-quiet :
      (n : ℕ) (c : Cache)
      → IsClean hash olsr.interfaces c
      → (tab : ℕ → List Entry) × (reset_tab hash hashsize olsr n c.tc_tab ≡ some tab)
        × ((k : ℕ) → tab k ≡ (if ltb k n then quiet_chain (c.tc_tab k) else c.tc_tab k))
  unfolding reset_tab
  reset_tab-quiet zero c clean = (c.tc_tab, refl, λ k. ground arith)
  reset_tab-quiet (suc n) c clean =
      let (tab, runs, is) = reset_tab-quiet n c clean in
      (
        update tab n (quiet_chain (c.tc_tab n)),
        rw (runs, ◌>>=◌, reset_chain-quiet n (c.tc_tab n) (clean n)) refl,
        λ k. elim (Bool-cases (n == k)) [
          | inl eq ↦
              let same : n ≡ k = (==_iff n k).0 eq in
              let below : ltb k (suc n) ≡ true = lt→ltb k (suc n) (omega (arith, same)) in
              rw (eq, below) (ap (λ j. quiet_chain (c.tc_tab j)) same)
          | inr ne ↦
              let below : ltb k (suc n) ≡ ltb k n = ground (arith, ne) in rw (ne, below) (is k)
        ],
      )

  look_quiet :
      (v : ℕ)
      → hash v < hashsize
      → (o : Option Entry)
      → dst_active hash (dst_of hash v (on_entry quiet o)) ≡ off (dst_active hash (dst_of hash v o))
  look_quiet v bound none = refl
  look_quiet v bound (some e) = rw (lt→ltb (hash v) hashsize bound) (
      ap (dst_active hash) (find-reset_dsts v (e.dst_tab (hash v)))
      ∙ elim (Option-cases (find_dst v (e.dst_tab (hash v)))) [
        | inl new ↦ rw new refl
        | inr (d, old) ↦ rw old refl
      ])

  module _ (bound : (a : ℕ) → hash a < hashsize) where
    -- A clean cache stays clean; all links become inactive, and none gets lost.
    has-quiet :
        (o : Option Entry) → has (entry_active hash (on_entry quiet o)) ≡ has (entry_active hash o)
    has-quiet none = refl
    has-quiet (some e) = refl

    reset_active_flag_lem :
        (c : Cache)
        → IsClean hash olsr.interfaces c
        → (c' : Cache) × (reset_active_flag hash hashsize olsr c ≡ some c')
          × IsClean hash olsr.interfaces c'
          × (c'.sent ≡ c.sent)
          × ((a : ℕ) → has (node hash c' a) ≡ has (node hash c a))
          × ((u v : ℕ) → link hash c' u v ≡ off (link hash c u v))
    unfolding reset_active_flag
    reset_active_flag_lem c clean =
        let (tab, runs, is) = reset_tab-quiet hashsize c clean in
        (
          record c { tc_tab = tab; mid_tc = reset_mids c.mid_tc },
          rw runs refl,
          λ k. rw (is k) (elim (Bool-cases (ltb k hashsize)) [
            | inl inside ↦ rw inside (quiet_chain-ChainOk k (c.tc_tab k) (clean k))
            | inr out ↦ rw out (clean k)
          ]),
          refl,
          λ a.
              rw (is (hash a), lt→ltb (hash a) hashsize (bound a))
                (ap (λ o. has (entry_active hash o)) (lookup-quiet_chain a (c.tc_tab (hash a)))
                  ∙ has-quiet (entry hash c a)),
          λ u v.
              rw (is (hash u), lt→ltb (hash u) hashsize (bound u))
                (ap (λ o. dst_active hash (dst_of hash v o))
                    (lookup-quiet_chain u (c.tc_tab (hash u)))
                  ∙ look_quiet v (bound v) (entry hash c u)),
        )

    -- Before a round, the module has the links of the cache; after the reset, so it has.
    pub reset-IsReady :
        (c : Cache)
        → IsClean hash olsr.interfaces c
        → Mirrors hash c
        → (c' : Cache) × (reset_active_flag hash hashsize olsr c ≡ some c')
          × IsReady hash hashsize olsr c'
          × ((u v : ℕ) → link hash c' u v ≡ off (link hash c u v))
    reset-IsReady c clean m =
        let (c', runs, clean', sent, nodes, links) = reset_active_flag_lem c clean in
        (
          c',
          runs,
          record {
            clean = clean';
            ends = λ u v h. absurd (ground (arith, h, links u v));
            mirrors = record {
              known = λ a.
                  ap (λ ts. (run_commands ts no_graph).known a) sent ∙ (m.known a ∙ sym (nodes a));
              links = λ u v.
                  ap (λ ts. (run_commands ts no_graph).links u v) sent
                  ∙ (m.links u v ∙ sym (ap has (links u v) ∙ has-off (link hash c u v)));
              proper = ap (λ ts. (run_commands ts no_graph).proper) sent ∙ m.proper;
            };
          },
          links,
        )
