-- ===== src/Plugin/Mirror.antt =====
-- A whole round: what the module has of links after it.
use mathlib.Core.Option.{some-injective}
use mpolsr_testbed.Common.{
  ℕ, zero, suc, ◌+◌, ◌<◌, ◌==◌, ◌≡◌, ◌∙◌, refl, sym, ap, inl, inr, ==_iff, Bool, true, false, not,
  ◌&&◌, ◌||◌, Option, none, some, List, [], ◌∷◌, if◌then◌else◌, ◌>>=◌, Bool-cases, ltb, subst,
  arith,
}
use mpolsr_testbed.Plugin.{
  add_mids, Cache, check_data, Entry, find_dst, Olsr, remove_useless_link, remove_useless_mid,
}
use mpolsr_testbed.Plugin.Entries.{
  ChainOk, dst_active, dst_of, entry, entry_active, IsClean, link, lookup_entry, lookup-IsOk, node,
}
use mpolsr_testbed.Plugin.Links.{has, Mirrors, told}
use mpolsr_testbed.Plugin.Rounds.{IsReady, wanted}
use mpolsr_testbed.Plugin.Reset.{off, reset-IsReady}
use mpolsr_testbed.Plugin.Told.{add_tc_lem, Aside, aliases-Aside, listed}
use mpolsr_testbed.Plugin.Tidy.{is_on}
use mpolsr_testbed.Plugin.Commands.{idle}
use mpolsr_testbed.Plugin.Removal.{gone, killed, killed_from, killed_nodes}
use mpolsr_testbed.Plugin.Sweep.{remove_useless_link_lem}
use mpolsr_testbed.Plugin.Nodes.{nodes_lem}

module _ (hash : ℕ → ℕ) (hashsize : ℕ) (olsr : Olsr) where
  killed-none :
      (k u v : ℕ) (chain : List Entry)
      → ChainOk hash olsr.interfaces k chain
      → ((a : ℕ) (e : Entry)
          → lookup_entry a chain ≡ some e
          → gone hash hashsize olsr e u v ≡ false)
      → killed hash hashsize olsr chain u v ≡ false
  killed-none k u v [] ok spared = refl
  killed-none k u v (e ∷ chain) ok spared =
      rw (spared e.src_addr e (ground arith))
        (killed-none k u v chain ok.2 (λ a x there. spared a x (deeper a x there)))
    where
      deeper :
          (a : ℕ) (x : Entry) → lookup_entry a chain ≡ some x → lookup_entry a (e ∷ chain) ≡ some x
      deeper a x there = elim (Bool-cases (e.src_addr == a)) [
        | inl eq ↦ absurd (
            clash x (
              sym (subst (λ b. lookup_entry b chain ≡ none) ((==_iff e.src_addr a).0 eq) ok.1)
              ∙ there))
        | inr ne ↦ rw ne there
      ]
        where
          clash : (y : Entry) → ¬ (◌≡◌ {A = Option Entry} none (some y))
          clash y h = cc

  or-true : (b : Bool) → b || true ≡ true
  or-true b = ground arith

  killed-some :
      (u v : ℕ) (chain : List Entry)
      → idle (dst_active hash (dst_of hash v (lookup_entry u chain))) ≡ true
      → killed hash hashsize olsr chain u v ≡ true
  killed-some u v [] stale = absurd (cc)
  killed-some u v (x ∷ chain) stale = elim (Bool-cases (x.src_addr == u)) [
    | inl eq ↦ rw (eq, rw eq at stale) refl
    | inr ne ↦
        ap (λ b. gone hash hashsize olsr x u v || b) (killed-some u v chain (rw ne at stale))
        ∙ or-true _
  ]

  killed_from-none :
      (index n u v : ℕ) (tab : ℕ → List Entry)
      → ((k : ℕ) → killed hash hashsize olsr (tab k) u v ≡ false)
      → killed_from hash hashsize olsr index n tab u v ≡ false
  killed_from-none index zero u v tab none_of = refl
  killed_from-none index (suc n) u v tab none_of =
      rw (none_of index) (killed_from-none (index + 1) n u v tab none_of)

  killed_from-some :
      (index n u v k : ℕ) (tab : ℕ → List Entry)
      → killed hash hashsize olsr (tab k) u v ≡ true
      → ltb k index ≡ false
      → k < index + n
      → killed_from hash hashsize olsr index n tab u v ≡ true
  killed_from-some index zero u v k tab one above below = absurd (ground (arith))
  killed_from-some index (suc n) u v k tab one above below = elim (Bool-cases (index == k)) [
    | inl eq ↦
        rw
          (subst (λ j. killed hash hashsize olsr (tab j) u v ≡ true) (sym ((==_iff index k).0 eq))
            one)
          refl
    | inr ne ↦
        rw (killed_from-some (index + 1) n u v k tab one (ground (arith, ne)) (omega arith))
          (or-true _)
  ]

  module _ (c : Cache) (ready : IsReady hash hashsize olsr c) (u v : ℕ)
      (on : link hash c u v ≡ some true) where
    known :
        (k a : ℕ) (e : Entry)
        → lookup_entry a (c.tc_tab k) ≡ some e
        → entry hash c e.src_addr ≡ some e
    known k a e there =
        let (ok, same) =
          lookup-IsOk hash olsr.interfaces k a (c.tc_tab k) e (ready.clean k) there in
        subst (λ j. lookup_entry e.src_addr (c.tc_tab j) ≡ some e) (sym ok.1)
          (subst (λ b. lookup_entry b (c.tc_tab k) ≡ some e) (sym same) there)

    end_active :
        (e : Entry) (w : ℕ)
        → entry hash c e.src_addr ≡ some e
        → node hash c w ≡ some true
        → (e.src_addr == w) ≡ true
        → e.is_active ≡ true
    end_active e w there active eq = some-injective e.is_active true (
        sym (ap (entry_active hash) (ap (entry hash c) (sym ((==_iff e.src_addr w).0 eq)) ∙ there))
        ∙ active)

    not_idle :
        (e : Entry)
        → entry hash c e.src_addr ≡ some e
        → (e.src_addr == u) ≡ true
        → idle (dst_active hash (find_dst v (e.dst_tab (hash v)))) ≡ false
    not_idle e there eq =
        ap (λ o. idle (dst_active hash (dst_of hash v o)))
          (sym (ap (entry hash c) (sym ((==_iff e.src_addr u).0 eq)) ∙ there))
        ∙ ap idle on

    spared :
        (k a : ℕ) (e : Entry)
        → lookup_entry a (c.tc_tab k) ≡ some e
        → gone hash hashsize olsr e u v ≡ false
    spared k a e there =
        let is = known k a e there in
        by_ends (e.src_addr == u) (e.src_addr == v) _ e.is_active (not_idle e is)
          (end_active e u is (ready.ends u v on).0) (end_active e v is (ready.ends u v on).1)
      where
        by_ends :
            (s t i a : Bool)
            → (s ≡ true → i ≡ false)
            → (s ≡ true → a ≡ true)
            → (t ≡ true → a ≡ true)
            → (s && i) || (not a && (s || t)) ≡ false
        by_ends s t i a p q r = ground (arith, p, q, r)

    on-stays : killed_from hash hashsize olsr 0 hashsize c.tc_tab u v ≡ false
    on-stays =
        killed_from-none 0 hashsize u v c.tc_tab
          (λ k. killed-none k u v (c.tc_tab k) (ready.clean k) (spared k))

  module _ (bound : (a : ℕ) → hash a < hashsize) where
    -- The removal leaves exactly the active links.
    removal_lem :
        (c : Cache)
        → IsReady hash hashsize olsr c
        → (u v : ℕ)
        → has (link hash c u v) && not (killed_from hash hashsize olsr 0 hashsize c.tc_tab u v)
          ≡ is_on (link hash c u v)
    removal_lem c ready u v = by_link (link hash c u v) refl
      where
        by_link :
            (o : Option Bool)
            → link hash c u v ≡ o
            → has o && not (killed_from hash hashsize olsr 0 hashsize c.tc_tab u v) ≡ is_on o
        by_link none h = refl
        by_link (some true) h = rw (on-stays c ready u v h) refl
        by_link (some false) h =
            rw
              (killed_from-some 0 hashsize u v (hash u) c.tc_tab
                (killed-some u v (c.tc_tab (hash u)) (ap idle h)) (ground arith)
                (omega (arith, bound u)))
              refl

    aside-IsReady :
        (c c' : Cache) → Aside c c' → IsReady hash hashsize olsr c → IsReady hash hashsize olsr c'
    aside-IsReady c c' aside ready = record {
      clean = λ k.
          subst (λ tab. ChainOk hash olsr.interfaces k (tab k)) (sym aside.tc_tab) (ready.clean k);
      ends = λ u v. rw (aside.tc_tab) (ready.ends u v);
      mirrors = record {
        known = λ a. rw (aside.tc_tab, aside.told) (ready.mirrors.known a);
        links = λ u v. rw (aside.tc_tab, aside.told) (ready.mirrors.links u v);
        proper = ap (λ g. g.proper) aside.told ∙ ready.mirrors.proper;
      };
    }

    -- A round: `c3` is the state between the additions and the removal of nodes and links.
    pub record RoundEnds (c c3 c' : Cache) : Type 0 where
      pub runs : check_data hash hashsize olsr c ≡ some c'
      pub ready : IsReady hash hashsize olsr c3
      pub removal : remove_useless_link hash hashsize olsr 0 hashsize c3 ≡ some c'
      pub links : (u v : ℕ) → (told c').links u v ≡ is_on (link hash c3 u v)
      pub nodes : (a : ℕ) → (told c').known a ≡ is_on (node hash c3 a)
      pub proper : (told c').proper ≡ true
      pub wanted :
          (u v : ℕ) → is_on (link hash c3 u v) ≡ listed olsr.tc u v && wanted hash hashsize olsr u v

    -- A round from a cache whose chains are in order, and whose links the module has, does not fault.
    pub check_data-RoundEnds :
        (c : Cache)
        → IsClean hash olsr.interfaces c
        → Mirrors hash c
        → (c3 : Cache) × (c' : Cache) × RoundEnds c c3 c'
    unfolding check_data
    check_data-RoundEnds c clean m =
        let (c1, resets, ready1, links1) = reset-IsReady hash hashsize olsr bound c clean m in
        let (c2, adds, ready2, links2) = add_tc_lem hash hashsize olsr olsr.tc c1 ready1 in
        let c3 : Cache = remove_useless_mid (add_mids olsr.mid_set c2) in
        let aside = aliases-Aside olsr.mid_set c2 in
        let ready3 = aside-IsReady c2 c3 aside ready2 in
        let (c', runs, swept) =
          remove_useless_link_lem hash hashsize olsr bound 0 hashsize c3.tc_tab c3 ready3.clean
            (λ k h. refl)
            (λ k _ a x at.
              let (ok, same) =
                lookup-IsOk hash olsr.interfaces k a (c3.tc_tab k) x (ready3.clean k) at in
              ready3.mirrors.known a
              ∙ found c3 a x (
                  subst (λ j. lookup_entry a (c3.tc_tab j) ≡ some x) (sym ok.1 ∙ ap hash same)
                    at)) in
        (
          c3,
          c',
          record {
            runs = rw (resets, ◌>>=◌, adds) runs;
            ready = ready3;
            removal = runs;
            links = λ u v.
                swept.links u v
                ∙ (ap (λ x. x && not (killed_from hash hashsize olsr 0 hashsize c3.tc_tab u v))
                      (ready3.mirrors.links u v)
                    ∙ removal_lem c3 ready3 u v);
            nodes = λ a.
                swept.known a
                ∙ (ap (λ x. x && not (killed_nodes hash hashsize olsr 0 hashsize c3.tc_tab a))
                      (ready3.mirrors.known a)
                    ∙ nodes_lem hash hashsize olsr c3 ready3.clean a (bound a));
            proper = swept.proper ∙ ready3.mirrors.proper;
            wanted = λ u v.
                ap (λ tab. is_on (dst_active hash (dst_of hash v (lookup_entry u (tab (hash u))))))
                  aside.tc_tab
                ∙ on_told (listed olsr.tc u v && wanted hash hashsize olsr u v) (link hash c u v) _
                    _ (links1 u v) (links2 u v);
          },
        )
      where
        found :
            (d : Cache) (a : ℕ) (x : Entry) → entry hash d a ≡ some x → has (node hash d a) ≡ true
        found d a x at = ap (λ o. has (entry_active hash o)) at

        on_told :
            (b : Bool) (o o1 o2 : Option Bool)
            → o1 ≡ off o
            → o2 ≡ (if b then some true else o1)
            → is_on o2 ≡ b
        on_told true o o1 o2 p q = ap is_on q
        on_told false none o1 o2 p q = ap is_on (q ∙ p)
        on_told false (some x) o1 o2 p q = ap is_on (q ∙ p)
