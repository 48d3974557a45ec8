-- ===== src/Plugin/Delivered.antt =====
-- The links that the module has after the rounds of the plugin, when their commands are written to the device.
pub mod Tests
use mpolsr_testbed.Common.{
  ℕ, inl, inr, ◌<◌, ◌*◌, ◌≡◌, ◌∙◌, refl, sym, ap, subst, ◌&&◌, true, false, Option, none, some,
  List, [], ◌∷◌, ◌++◌, All, memb, length, Option-cases, arith,
}
use mpolsr_testbed.Tc.{Topology}
use mpolsr_testbed.Tc.Hash.{get_node}
use mpolsr_testbed.Tc.Network.{Network, view}
use mpolsr_testbed.Tc.WellFormed.{IsWellFormed}
use mpolsr_testbed.Tc.WellFormed.Edges.{get_node-in}
use mpolsr_testbed.Device.{Alloc, device_write, token_size}
use mpolsr_testbed.Device.Write.{encode_tokens, IsToken}
use mpolsr_testbed.Plugin.{Cache, Olsr}
use mpolsr_testbed.Plugin.Entries.{IsClean}
use mpolsr_testbed.Plugin.Links.{has, Mirrors, no_graph, told}
use mpolsr_testbed.Plugin.Rounds.{wanted}
use mpolsr_testbed.Plugin.Told.{listed}
use mpolsr_testbed.Plugin.Store.{Matches}
use mpolsr_testbed.Plugin.Carry.{device_write-run_commands, IsPlain, Serves}
use mpolsr_testbed.Plugin.Runs.{check_all, check_all_lem, Shares, Tells}

-- A link from the node of u to the node of v.
abbrev pub IsLinked : Network → ℕ → ℕ → Type 0
IsLinked h u v =
    (l : ℕ) × (p : ℕ) × (q : ℕ) × (c : ℕ) × (h.owner u ≡ some p)
    × (h.owner v ≡ some q)
    × (h.arc l ≡ some (p, q, c))

no_node-arc : (s : Topology) → s.node_lst ≡ [] → (l p q c : ℕ) → ¬ ((view s).arc l ≡ some (p, q, c))
no_node-arc s empty l p q c at =
    nothing (sym (rw (ap (λ ns. memb (s.src_node l) ns) empty) refl) ∙ at)
  where
    nothing : ¬ (◌≡◌ {A = Option (ℕ × ℕ × ℕ)} none (some (p, q, c)))
    nothing e = cc

-- A store without nodes has the empty graph.
empty-Matches : (s : Topology) → IsWellFormed s → s.node_lst ≡ [] → Matches (view s) no_graph
empty-Matches s wf empty = record {
  known = λ a. elim (Option-cases (get_node s a)) [
    | inl free ↦ rw free refl
    | inr (p, at) ↦ absurd (no_owner a p at)
  ];
  named = λ a p at. absurd (no_owner a p at);
  ends = λ l p q c at. absurd (no_node-arc s empty l p q c at);
  present = λ a b there. absurd (ground (arith, there));
  only = λ l p q c a b at from to. absurd (no_node-arc s empty l p q c at);
  once = λ l k p q c d at too. absurd (no_node-arc s empty l p q c at);
}
  where
    no_owner : (a p : ℕ) → ¬ (get_node s a ≡ some p)
    no_owner a p at = ground (arith, get_node-in s a p wf at, ap (λ ns. memb p ns) empty)

module _ (hash : ℕ → ℕ) (hashsize : ℕ) (bound : (a : ℕ) → hash a < hashsize) where
  -- There is a link from u to v exactly when the topology lists it and it is wanted, and no second one.
  pub record Carries (olsr : Olsr) (h : Network) : Type 0 where
    pub present :
        (u v : ℕ) → listed olsr.tc u v && wanted hash hashsize olsr u v ≡ true → IsLinked h u v
    pub only :
        (u v : ℕ) → IsLinked h u v → listed olsr.tc u v && wanted hash hashsize olsr u v ≡ true
    pub ends :
        (l p q c : ℕ)
        → h.arc l ≡ some (p, q, c)
        → (u : ℕ) × (v : ℕ) × (h.owner u ≡ some p) × (h.owner v ≡ some q)
    pub once : (l k p q c d : ℕ) → h.arc l ≡ some (p, q, c) → h.arc k ≡ some (p, q, d) → l ≡ k

  Matches-Carries :
      (olsr : Olsr) (c : Cache) (h : Network)
      → Tells hash hashsize bound olsr c
      → Matches h (told c)
      → Carries olsr h
  Matches-Carries olsr c h tells m = record {
    present = λ u v there. m.present u v (tells.links u v ∙ there);
    only = λ u v (l, p, q, w, from, to, at). sym (tells.links u v) ∙ m.only l p q w u v at from to;
    ends = m.ends;
    once = m.once;
  }

  -- Let hash stay below hashsize, the addresses of the local machine be the same in all rounds, the chains of the
  -- cache be in order, the commands sent so far be proper and make exactly the nodes and links of the cache, and no
  -- round fault. Let the commands sent after all rounds be for nodes and links, none for an alias, with fields of 32
  -- bits. If all of them are written to a module with a well formed store without nodes, and every allocation
  -- there gives memory that is not in use, then the write does not fault and takes all of them. Afterwards the store
  -- has a link from the node of one address to the node of another exactly when the last topology lists it, except
  -- those that lead from an address of the local machine to one that is no symmetric neighbour of the last round. No
  -- link is there twice, and each leads from a node to a node that an address names.
  pub check_all-device_write :
      (interfaces : List ℕ) (rounds : List Olsr) (last : Olsr) (c c' : Cache) (alloc : ℕ → Alloc)
      (s : Topology)
      → Shares interfaces (rounds ++ (last ∷ []))
      → IsClean hash interfaces c
      → Mirrors hash c
      → check_all hash hashsize (rounds ++ (last ∷ [])) c ≡ some c'
      → All IsToken c'.sent
      → All IsPlain c'.sent
      → IsWellFormed s
      → s.node_lst ≡ []
      → Serves alloc 0 c'.sent s
      → (s' : Topology) × (device_write alloc (λ i. true) (encode_tokens c'.sent) s
          ≡ some (token_size * length c'.sent, s'))
        × Carries last (view s')
  check_all-device_write interfaces rounds last c c' alloc s shares clean m runs words plain wf
        empty served =
      let tells =
        check_all_lem hash hashsize bound interfaces rounds last c c' shares clean m runs in
      let (s', writes, is) =
        device_write-run_commands alloc c'.sent s no_graph words plain wf served
          (empty-Matches s wf empty) tells.proper in
      (s', writes, Matches-Carries last c' (view s') tells is)
