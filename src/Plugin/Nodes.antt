-- ===== src/Plugin/Nodes.antt =====
-- The nodes that the removal takes from the module.
use mpolsr_testbed.Common.{
  ℕ, zero, suc, ◌+◌, ◌<◌, ◌==◌, ◌≡◌, ◌∙◌, refl, sym, ap, inl, inr, ==_iff, Bool, true, false, not,
  ◌&&◌, ◌||◌, Option, none, some, List, [], ◌∷◌, Bool-cases, if◌then◌else◌, ltb, arith,
}
use mpolsr_testbed.Plugin.{Cache, Entry, Olsr}
use mpolsr_testbed.Plugin.Entries.{ChainOk, entry_active, IsClean, lookup_entry, node}
use mpolsr_testbed.Plugin.Links.{has}
use mpolsr_testbed.Plugin.Commands.{idle}
use mpolsr_testbed.Plugin.Tidy.{is_on}
use mpolsr_testbed.Plugin.Removal.{killed_node, killed_nodes}
use mpolsr_testbed.Plugin.Sweep.{killed_node-other}

module _ (hash : ℕ → ℕ) (hashsize : ℕ) (olsr : Olsr) where
  killed_node_lem :
      (k a : ℕ) (chain : List Entry)
      → ChainOk hash olsr.interfaces k chain
      → killed_node hash hashsize olsr chain a ≡ idle (entry_active hash (lookup_entry a chain))
  killed_node_lem k a [] ok = refl
  killed_node_lem k a (e ∷ chain) ok =
      let rest = killed_node_lem k a chain ok.2 in
      elim (Bool-cases (e.src_addr == a)) [
        | inl eq ↦
            let once = ap (λ b. lookup_entry b chain) (sym ((==_iff e.src_addr a).0 eq)) ∙ ok.1 in
            by_eq e.is_active _ _ _ eq (rest ∙ ap (λ o. idle (entry_active hash o)) once)
              (ap (λ b. idle (entry_active hash (if b then some e else lookup_entry a chain))) eq)
        | inr ne ↦
            by_ne e.is_active _ _ ne
            ∙ (rest
                ∙ sym (
                    ap (λ b. idle (entry_active hash (if b then some e else lookup_entry a chain)))
                      ne))
      ]
    where
      by_eq : (l s r o : Bool) → s ≡ true → r ≡ false → o ≡ not l → (not l && s) || r ≡ o
      by_eq l s r o p q w = ground (arith, p, q, w)

      by_ne : (l s r : Bool) → s ≡ false → (not l && s) || r ≡ r
      by_ne l s r p = ground (arith, p)

  module _ (c : Cache) (clean : IsClean hash olsr.interfaces c) (a : ℕ) where
    above :
        (index n : ℕ) → hash a < index → killed_nodes hash hashsize olsr index n c.tc_tab a ≡ false
    above index zero below = refl
    above index (suc n) below =
        neither _ _
          (killed_node-other hash hashsize olsr index a (c.tc_tab index) (clean index)
            (ground (arith, below)))
          (above (index + 1) n (omega (arith, below)))
      where
        neither : (x y : Bool) → x ≡ false → y ≡ false → x || y ≡ false
        neither x y p q = ground (arith, p, q)

    killed_nodes_lem :
        (index n : ℕ)
        → ltb (hash a) index ≡ false
        → hash a < index + n
        → killed_nodes hash hashsize olsr index n c.tc_tab a ≡ idle (node hash c a)
    killed_nodes_lem index zero low high = absurd (ground (arith, low, high))
    killed_nodes_lem index (suc n) low high = elim (Bool-cases (hash a == index)) [
      | inl eq ↦
          let same : hash a ≡ index = (==_iff (hash a) index).0 eq in
          first _ _ (above (index + 1) n (omega (arith, same)))
          ∙ (killed_node_lem index a (c.tc_tab index) (clean index)
              ∙ ap (λ k. idle (entry_active hash (lookup_entry a (c.tc_tab k)))) (sym same))
      | inr ne ↦
          second _ _
            (killed_node-other hash hashsize olsr index a (c.tc_tab index) (clean index) ne)
          ∙ killed_nodes_lem (index + 1) n (ground (arith, low, ne)) (omega (arith, high))
    ]
      where
        first : (x y : Bool) → y ≡ false → x || y ≡ x
        first x y p = ground (arith, p)

        second : (x y : Bool) → x ≡ false → x || y ≡ y
        second x y p = ground (arith, p)

    -- The removal leaves exactly the active nodes.
    pub nodes_lem :
        hash a < hashsize
        → has (node hash c a) && not (killed_nodes hash hashsize olsr 0 hashsize c.tc_tab a)
          ≡ is_on (node hash c a)
    nodes_lem bound =
        ap (λ x. has (node hash c a) && not x)
          (killed_nodes_lem 0 hashsize (ground arith) (omega (arith, bound)))
        ∙ by_node (node hash c a)
      where
        by_node : (o : Option Bool) → has o && not (idle o) ≡ is_on o
        by_node none = refl
        by_node (some x) = ground arith
