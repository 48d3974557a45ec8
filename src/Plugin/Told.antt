-- ===== src/Plugin/Told.antt =====
-- All that olsrd tells: the links of its topology, and its aliases.
use mpolsr_testbed.Common.{
  ℕ, ◌==◌, ◌≡◌, ◌∙◌, refl, inl, inr, Bool, true, false, ◌&&◌, ◌||◌, Option, some, List, [], ◌∷◌,
  if◌then◌else◌, ◌>>=◌, Bool-cases, memb, arith,
}
use mpolsr_testbed.Device.{cmd_add_alias}
use mpolsr_testbed.Plugin.{
  add_aliases, add_edges, add_mid, add_mids, add_tc, Cache, command, has_mid, Mid, Olsr,
  remove_useless_mid, rmv_mids,
}
use mpolsr_testbed.Plugin.Entries.{link}
use mpolsr_testbed.Plugin.Links.{Graph, no_graph, run_commands, run_commands-append, told}
use mpolsr_testbed.Plugin.Rounds.{add_tc_link_lem, IsReady, wanted}

-- The links of the topology of olsrd.
abbrev pub listed : List (ℕ × List ℕ) → ℕ → ℕ → Bool
listed [] u v = false
listed ((src, edges) ∷ tc) u v = (src == u && memb v edges) || listed tc u v

module _ (hash : ℕ → ℕ) (hashsize : ℕ) (olsr : Olsr) where
  abbrev pub Marks : (ℕ → ℕ → Bool) → Cache → Cache → Type 0
  Marks asked c c' =
      (u v : ℕ)
      → link hash c' u v
        ≡ (if asked u v && wanted hash hashsize olsr u v then some true else link hash c u v)

  add_edges_lem :
      (src : ℕ) (edges : List ℕ) (c : Cache)
      → IsReady hash hashsize olsr c
      → (c' : Cache) × (add_edges hash hashsize olsr src edges c ≡ some c')
        × IsReady hash hashsize olsr c'
        × Marks (λ u v. src == u && memb v edges) c c'
  unfolding add_edges
  add_edges_lem src [] c ready = (c, refl, ready, λ u v. ground arith)
  add_edges_lem src (dst ∷ edges) c ready =
      let (c1, runs, ready1, one) = add_tc_link_lem hash hashsize olsr src dst c ready in
      let (c', rest, ready', more) = add_edges_lem src edges c1 ready1 in
      (
        c',
        rw (runs, ◌>>=◌) rest,
        ready',
        λ u v. more u v ∙ joins u v (link hash c u v) (link hash c1 u v) (one u v),
      )
    where
      joins :
          (u v : ℕ) (o o1 : Option Bool)
          → o1
            ≡ (if src == u && (dst == v && wanted hash hashsize olsr src dst) then some true else o)
          → (if (src == u && memb v edges) && wanted hash hashsize olsr u v then some true else o1)
            ≡ (if (src == u && memb v (dst ∷ edges)) && wanted hash hashsize olsr u v
                then some true
                else o)
      joins u v o o1 e = ground (arith, e)

  pub add_tc_lem :
      (tc : List (ℕ × List ℕ)) (c : Cache)
      → IsReady hash hashsize olsr c
      → (c' : Cache) × (add_tc hash hashsize olsr tc c ≡ some c')
        × IsReady hash hashsize olsr c'
        × Marks (listed tc) c c'
  unfolding add_tc
  add_tc_lem [] c ready = (c, refl, ready, λ u v. refl)
  add_tc_lem ((src, edges) ∷ tc) c ready =
      let (c1, runs, ready1, one) = add_edges_lem src edges c ready in
      let (c', rest, ready', more) = add_tc_lem tc c1 ready1 in
      (c', rw (runs, ◌>>=◌) rest, ready', λ u v. more u v ∙ (rw (one u v) (ground arith)))

-- What only changes aliases: the caches hold the same nodes, and the module the same graph.
pub record Aside (c c' : Cache) : Type 0 where
  pub tc_tab : c'.tc_tab ≡ c.tc_tab
  pub told : told c' ≡ told c

add_mid-Aside : (main alias : ℕ) (c : Cache) → Aside c (add_mid main alias c)
unfolding add_mid
add_mid-Aside main alias c = elim (Bool-cases (has_mid main alias c.mid_tc)) [
  | inl old ↦ rw old (record { tc_tab = refl; told = refl })
  | inr new ↦ rw new (record {
    tc_tab = refl;
    told = run_commands-append c.sent (command cmd_add_alias main alias 0 ∷ []) no_graph;
  })
]

Aside-trans : (c d e : Cache) → Aside c d → Aside d e → Aside c e
Aside-trans c d e p q = record { tc_tab = q.tc_tab ∙ p.tc_tab; told = q.told ∙ p.told }

add_aliases-Aside : (main : ℕ) (aliases : List ℕ) (c : Cache) → Aside c (add_aliases main aliases c)
unfolding add_aliases
add_aliases-Aside main [] c = record { tc_tab = refl; told = refl }
add_aliases-Aside main (alias ∷ aliases) c =
    Aside-trans _ _ _ (add_mid-Aside main alias c)
      (add_aliases-Aside main aliases (add_mid main alias c))

add_mids-Aside : (mids : List (ℕ × List ℕ)) (c : Cache) → Aside c (add_mids mids c)
unfolding add_mids
add_mids-Aside [] c = record { tc_tab = refl; told = refl }
add_mids-Aside ((main, aliases) ∷ mids) c =
    Aside-trans _ _ _ (add_aliases-Aside main aliases c)
      (add_mids-Aside mids (add_aliases main aliases c))

rmv_mids-same : (mids : List Mid) (g : Graph) → run_commands (rmv_mids mids) g ≡ g
rmv_mids-same [] g = refl
rmv_mids-same (x ∷ mids) g = elim (Bool-cases x.is_active) [
  | inl stays ↦ rw stays (rmv_mids-same mids g)
  | inr goes ↦ rw goes (rmv_mids-same mids g)
]

-- The aliases do not matter to the graph.
pub aliases-Aside :
    (mids : List (ℕ × List ℕ)) (c : Cache) → Aside c (remove_useless_mid (add_mids mids c))
unfolding remove_useless_mid
aliases-Aside mids c =
    let before = add_mids-Aside mids c in
    record {
      tc_tab = before.tc_tab;
      told =
          run_commands-append (add_mids mids c).sent (rmv_mids (add_mids mids c).mid_tc) no_graph
          ∙ (rmv_mids-same (add_mids mids c).mid_tc (told (add_mids mids c)) ∙ before.told);
    }
