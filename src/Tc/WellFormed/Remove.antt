-- ===== src/Tc/WellFormed/Remove.antt =====
-- Removing a known node keeps the invariant and makes exactly its addresses unknown; removing an
-- unknown one is a fault.
use mpolsr_testbed.Common.{
  ℕ, ◌≡◌, ◌≢◌, ◌∙◌, refl, sym, ap, subst, inl, inr, true, Option, none, some, [], memb, ◌==◌,
  ==_iff, if◌then◌else◌, Bool-cases, Option-cases, IsDistinct, remove, remove-IsDistinct,
  memb_of_remove, memb-remove_self, memb-remove_ne, arith,
}
use mpolsr_testbed.Tc.{NodeAddr, Topology}
use mpolsr_testbed.Tc.Hash.{get_node}
use mpolsr_testbed.Tc.Lookup.{lookup, slot, lt-length_of_get_or}
use mpolsr_testbed.Tc.Addresses.{IsIndexed}
use mpolsr_testbed.Tc.Wiring.{IsWired, remove_links-IsWired}
use mpolsr_testbed.Tc.Nodes.{all_pos, remove_addrs, remove_links, remove_local_links, remove_node}
use mpolsr_testbed.Tc.WellFormed.Shrink.{remove_addrs-Shrinks, Shrinks}
use mpolsr_testbed.Tc.WellFormed.{
  get_node-lookup, get_node-none, get_node-of_lookup, IsIndexed-same, IsWellFormed, IsWired-same,
}

-- The owner of an address, unless it is the node that goes.
abbrev pub forget : ℕ → Option ℕ → Option ℕ
forget node none = none
forget node (some n) = if n == node then none else some n

module _ (s : Topology) (a node : ℕ) (wf : IsWellFormed s) (found : get_node s a ≡ some node) where
  pub node_in : memb node s.node_lst ≡ true
  node_in =
      let (e, there, of_n) = get_node-lookup s a node found in
      ground (arith, wf.indexed.entries a e there, of_n)

  abbrev pub start : Topology
  start = record (remove_local_links a s) { path_buffer = []; node_lst = remove node s.node_lst }

  abbrev pub bare : Topology
  bare = remove_addrs node all_pos start

  pub bare-Shrinks :
      Shrinks s.node_lst node start bare
      × ((i : ℕ) → memb i all_pos ≡ true → slot bare node i ≡ none)
  unfolding remove_local_links
  bare-Shrinks =
      remove_addrs-Shrinks s.node_lst node all_pos start node_in
        (IsIndexed-same s.node_lst s start refl refl wf.indexed)

  no_slot : (i ip : ℕ) → slot bare node i ≢ some ip
  no_slot i ip h =
      let lt = lt-length_of_get_or (bare.node_addr_tab node) i ip h in
      let size = (bare-Shrinks.0).indexed.sizes node node_in in
      ground (arith, (bare-Shrinks.1) i, lt, size)

  bare-IsIndexed : IsIndexed (remove node s.node_lst) bare
  bare-IsIndexed = record {
    chains = (bare-Shrinks.0).indexed.chains;
    entries = λ ip e h.
        let (m, at) = (bare-Shrinks.0).indexed.entries ip e h in
        (
          elim (Bool-cases (node == e.node)) [
            | inl eq ↦
                let same : node ≡ e.node = (==_iff node e.node).0 eq in
                absurd (
                  no_slot e.addr_pos ip
                    (subst (λ n. slot bare n e.addr_pos ≡ some ip) (sym same) at))
            | inr ne ↦ memb-remove_ne node e.node s.node_lst (ground arith) ∙ m
          ],
          at,
        );
    slots =
        λ n i ip m h. (bare-Shrinks.0).indexed.slots n i ip (memb_of_remove node n s.node_lst m) h;
    sizes = λ n m. (bare-Shrinks.0).indexed.sizes n (memb_of_remove node n s.node_lst m);
  }

  pub bare-IsWired : IsWired s.node_lst bare
  unfolding remove_local_links
  bare-IsWired =
      let k = (bare-Shrinks.0).kept in
      IsWired-same s.node_lst s bare k.link_src k.link_dst k.src_node k.dst_node wf.wired

  -- The entry of an address of another node is still found.
  still_there :
      (ip : ℕ) (e : NodeAddr) → lookup s ip ≡ some e → e.node ≢ node → lookup bare ip ≡ some e
  unfolding remove_local_links
  still_there ip e h ne = (bare-Shrinks.0).others ip e h ne

  -- The main address of another node stays.
  pub bare-slot :
      (n : ℕ)
      → memb n (remove node s.node_lst) ≡ true
      → (x : ℕ) × (slot s n 0 ≡ some x) × (slot bare n 0 ≡ some x)
  bare-slot n m =
      let n_in = memb_of_remove node n s.node_lst m in
      let (x, h) = wf.mains n n_in in
      let (e, there, of_n, at_0) = wf.indexed.slots n 0 x n_in h in
      let other : n ≢ node =
        λ q. ground (arith, memb-remove_self node s.node_lst wf.distinct, q, m) in
      let (_, at) =
        (bare-Shrinks.0).indexed.entries x e (still_there x e there (λ q. other (sym of_n ∙ q))) in
      (x, h, ground (arith, at, of_n, at_0))

  abbrev pub removed : Topology
  removed = remove_links node bare

  pub removed-IsWellFormed : IsWellFormed removed
  unfolding remove_links remove_local_links
  removed-IsWellFormed =
      let list = (bare-Shrinks.0).kept.list in
      record {
        distinct = subst IsDistinct (sym list) (remove-IsDistinct node s.node_lst wf.distinct);
        indexed =
            subst (λ ns. IsIndexed ns removed) (sym list)
              (IsIndexed-same (remove node s.node_lst) bare removed refl refl bare-IsIndexed);
        wired =
            subst (λ ns. IsWired ns removed) (sym list)
              (remove_links-IsWired s.node_lst bare bare-IsWired node node_in wf.distinct);
        mains =
            λ n m. let (x, _, h) = bare-slot n (subst (λ ns. memb n ns ≡ true) list m) in (x, h);
      }

  pub removed-get_node : (b : ℕ) → get_node removed b ≡ forget node (get_node s b)
  unfolding remove_links remove_local_links
  removed-get_node b = elim (Option-cases (lookup s b)) [
    | inl e ↦ elim (Option-cases (lookup bare b)) [
      | inl e' ↦ get_node-none removed b e' ∙ rw (get_node-none s b e) refl
      | inr (x, e') ↦ absurd (ground (arith, (bare-Shrinks.0).lookups b x e', e))
    ]
    | inr (x, e) ↦ elim (Bool-cases (x.node == node)) [
      | inr ne ↦
          get_node-of_lookup removed b x (still_there b x e (ground arith))
          ∙ rw (get_node-of_lookup s b x e, ne) refl
      | inl eq ↦ elim (Option-cases (lookup bare b)) [
        | inl e' ↦ get_node-none removed b e' ∙ rw (get_node-of_lookup s b x e, eq) refl
        | inr (y, e') ↦
            let same : y ≡ x = ground (arith, (bare-Shrinks.0).lookups b y e', e) in
            let of_node : y.node ≡ node = ap (λ (n : NodeAddr). n.node) same ∙ (==_iff _ _).0 eq in
            let (_, at) = (bare-Shrinks.0).indexed.entries b y e' in
            absurd (no_slot y.addr_pos b (subst (λ n. slot bare n y.addr_pos ≡ some b) of_node at))
      ]
    ]
  ]

  pub remove_node-removed : remove_node a s ≡ some removed
  unfolding remove_node remove_local_links
  remove_node-removed = rw (found, remove_node) refl

  -- Removing the node of a known address succeeds and keeps the invariant. Afterwards the addresses of
  -- the node are unknown, and every other address is looked up as before.
  pub remove_node_lem :
      (s' : Topology) × (remove_node a s ≡ some s')
      × IsWellFormed s'
      × ((b : ℕ) → get_node s' b ≡ forget node (get_node s b))
  remove_node_lem = (removed, remove_node-removed, removed-IsWellFormed, removed-get_node)
