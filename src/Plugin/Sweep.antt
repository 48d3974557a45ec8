-- ===== src/Plugin/Sweep.antt =====
-- The removal over the whole table.
use mpolsr_testbed.Common.{
  ℕ, zero, suc, ◌+◌, ◌<◌, ◌==◌, ◌≡◌, ◌∙◌, refl, sym, ap, inl, inr, ==_iff, Bool, true, false, not,
  ◌&&◌, ◌||◌, some, List, [], ◌∷◌, ◌>>=◌, Bool-cases, ltb, update, arith,
}
use mpolsr_testbed.Plugin.{Cache, Entry, Olsr, remove_useless_link}
use mpolsr_testbed.Plugin.Entries.{ChainOk, lookup-IsOk}
use mpolsr_testbed.Plugin.Links.{told}
use mpolsr_testbed.Plugin.Removal.{
  killed_from, killed_node, killed_nodes, KnowsChain, remove_entries_lem, Removes,
}

module _ (hash : ℕ → ℕ) (hashsize : ℕ) (olsr : Olsr) where
  pub killed_node-other :
      (k a : ℕ) (chain : List Entry)
      → ChainOk hash olsr.interfaces k chain
      → (hash a == k) ≡ false
      → killed_node hash hashsize olsr chain a ≡ false
  killed_node-other k a [] ok ne = refl
  killed_node-other k a (e ∷ chain) ok ne =
      by_head e.is_active _ _ (apart e ok.0.1) (killed_node-other k a chain ok.2 ne)
    where
      apart : (x : Entry) → hash x.src_addr ≡ k → (x.src_addr == a) ≡ false
      apart x at = elim (Bool-cases (x.src_addr == a)) [
        | inl eq ↦ absurd (ground (arith, ne, sym (ap hash ((==_iff x.src_addr a).0 eq)) ∙ at))
        | inr other ↦ other
      ]

      by_head : (l s r : Bool) → s ≡ false → r ≡ false → (not l && s) || r ≡ false
      by_head l s r p q = ground (arith, p, q)

  -- What the removal leaves of the graph, from the chain `index` on.
  pub record Sweeps (index n : ℕ) (tab : ℕ → List Entry) (c c' : Cache) : Type 0 where
    pub links :
        (u v : ℕ)
        → (told c').links u v
          ≡ (told c).links u v && not (killed_from hash hashsize olsr index n tab u v)
    pub known :
        (a : ℕ)
        → (told c').known a
          ≡ (told c).known a && not (killed_nodes hash hashsize olsr index n tab a)
    pub proper : (told c').proper ≡ (told c).proper

  module _ (bound : (a : ℕ) → hash a < hashsize) where
    abbrev KnowsFrom : ℕ → (ℕ → List Entry) → Cache → Type 0
    KnowsFrom index tab c = (k : ℕ) → ltb k index ≡ false → KnowsChain hash hashsize olsr (tab k) c

    knows_next :
        (index : ℕ) (tab : ℕ → List Entry) (c c1 : Cache)
        → ((k : ℕ) → ChainOk hash olsr.interfaces k (tab k))
        → KnowsFrom index tab c
        → Removes hash hashsize olsr bound (tab index) c c1
        → KnowsFrom (index + 1) tab c1
    knows_next index tab c c1 clean knows r k above a x at =
        let (ok, same) = lookup-IsOk hash olsr.interfaces k a (tab k) x (clean k) at in
        let key : hash a ≡ k = ap hash (sym same) ∙ ok.1 in
        r.known a
        ∙ both _ _ (knows k (ground (arith, above)) a x at)
            (killed_node-other index a (tab index) (clean index) (ground (arith, above, key)))
      where
        both : (x y : Bool) → x ≡ true → y ≡ false → x && not y ≡ true
        both x y p q = ground (arith, p, q)

    pub remove_useless_link_lem :
        (index n : ℕ) (tab : ℕ → List Entry) (c : Cache)
        → ((k : ℕ) → ChainOk hash olsr.interfaces k (tab k))
        → ((k : ℕ) → ltb k index ≡ false → c.tc_tab k ≡ tab k)
        → KnowsFrom index tab c
        → (c' : Cache) × (remove_useless_link hash hashsize olsr index n c ≡ some c')
          × Sweeps index n tab c c'
    unfolding remove_useless_link
    remove_useless_link_lem index zero tab c clean same knows =
        (c, refl, record { links = λ u v. ground arith; known = λ a. ground arith; proper = refl })
    remove_useless_link_lem index (suc n) tab c clean same knows =
        let (chain', c1, runs, r) =
          remove_entries_lem hash hashsize olsr bound index true (tab index) c (clean index)
            (knows index (ground arith)) in
        let (c', more, s) =
          remove_useless_link_lem (index + 1) n tab
            (record c1 { tc_tab = update c1.tc_tab index chain' }) clean
            (λ k above.
              ap (λ t. update t index chain' k) r.tc_tab
              ∙ (other k chain' above ∙ same k (ground arith)))
            (knows_next index tab c c1 clean knows r) in
        (
          c',
          rw (same index (ground arith), runs, ◌>>=◌) more,
          record {
            links = λ u v.
                s.links u v
                ∙ (ap (λ x. x && not (killed_from hash hashsize olsr (index + 1) n tab u v))
                      (r.links u v)
                    ∙ joins ((told c).links u v) _ _);
            known = λ a.
                s.known a
                ∙ (ap (λ x. x && not (killed_nodes hash hashsize olsr (index + 1) n tab a))
                      (r.known a)
                    ∙ joins ((told c).known a) _ _);
            proper = s.proper ∙ r.proper;
          },
        )
      where
        other :
            (k : ℕ) (chain' : List Entry)
            → ltb k (index + 1) ≡ false
            → update c.tc_tab index chain' k ≡ c.tc_tab k
        other k chain' above = ground arith

        joins : (x a b : Bool) → (x && not a) && not b ≡ x && not (a || b)
        joins x a b = ground arith
