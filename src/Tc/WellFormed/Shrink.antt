-- ===== src/Tc/WellFormed/Shrink.antt =====
-- The loop of `tc_remove_node` that unlinks the addresses of the node.
use mpolsr_testbed.Common.{
  ℕ, ◌≡◌, ◌≢◌, ◌∙◌, inl, inr, true, none, some, List, [], ◌∷◌, memb, ◌==◌, ==_iff, Bool-cases,
  Option-cases, arith,
}
use mpolsr_testbed.Tc.{NodeAddr, Topology}
use mpolsr_testbed.Tc.Hash.{rmv_node_addr}
use mpolsr_testbed.Tc.Lookup.{lookup, slot, lt-length_of_get_or}
use mpolsr_testbed.Tc.Addresses.{IsIndexed, rmv_node_addr-IsIndexed, rmv-lookup, rmv-slot}
use mpolsr_testbed.Tc.Nodes.{remove_addrs}

-- What the unlinking of one address leaves alone.
pub record KeepsLinks (s t : Topology) : Type 0 where
  pub list : t.node_lst ≡ s.node_lst
  pub link_src : t.link_src ≡ s.link_src
  pub link_dst : t.link_dst ≡ s.link_dst
  pub src_node : t.src_node ≡ s.src_node
  pub dst_node : t.dst_node ≡ s.dst_node
  pub cost : t.cost ≡ s.cost

rmv-KeepsLinks : (s : Topology) (a : ℕ) → KeepsLinks s (rmv_node_addr a s)
unfolding rmv_node_addr
rmv-KeepsLinks s a = ground arith

module _ (nodes : List ℕ) (node : ℕ) where
  -- Entries of the address tables only go away, and the addresses of other nodes stay known.
  pub record Shrinks (s t : Topology) : Type 0 where
    pub kept : KeepsLinks s t
    pub indexed : IsIndexed nodes t
    pub slots : (n i ip : ℕ) → slot t n i ≡ some ip → slot s n i ≡ some ip
    pub others :
        (ip : ℕ) (e : NodeAddr) → lookup s ip ≡ some e → e.node ≢ node → lookup t ip ≡ some e
    pub lookups : (ip : ℕ) (e : NodeAddr) → lookup t ip ≡ some e → lookup s ip ≡ some e

  Shrinks-refl : (s : Topology) → IsIndexed nodes s → Shrinks s s
  Shrinks-refl s ix = record {
    kept = ground arith;
    indexed = ix;
    slots = λ n i ip h. h;
    others = λ ip e h ne. h;
    lookups = λ ip e h. h;
  }

  Shrinks-trans : (s t u : Topology) → Shrinks s t → Shrinks t u → Shrinks s u
  Shrinks-trans s t u p q = record {
    kept = record {
      list = q.kept.list ∙ p.kept.list;
      link_src = q.kept.link_src ∙ p.kept.link_src;
      link_dst = q.kept.link_dst ∙ p.kept.link_dst;
      src_node = q.kept.src_node ∙ p.kept.src_node;
      dst_node = q.kept.dst_node ∙ p.kept.dst_node;
      cost = q.kept.cost ∙ p.kept.cost;
    };
    indexed = q.indexed;
    slots = λ n i ip h. p.slots n i ip (q.slots n i ip h);
    others = λ ip e h ne. q.others ip e (p.others ip e h ne) ne;
    lookups = λ ip e h. p.lookups ip e (q.lookups ip e h);
  }

  -- Unlinking the address at an entry of the node empties that entry.
  rmv-Shrinks :
      (s : Topology) (i a : ℕ)
      → memb node nodes ≡ true
      → IsIndexed nodes s
      → slot s node i ≡ some a
      → Shrinks s (rmv_node_addr a s) × (slot (rmv_node_addr a s) node i ≡ none)
  rmv-Shrinks s i a n_in ix h =
      let (e, found, of_n, at_i) = ix.slots node i a n_in h in
      (
        record {
          kept = rmv-KeepsLinks s a;
          indexed = rmv_node_addr-IsIndexed nodes s a ix;
          slots = λ n j ip q. ground (arith, rmv-slot s a e found n j);
          others = λ ip e' q ne. ground (arith, rmv-lookup s a e found ip ix.chains, of_n, found);
          lookups = λ ip e' q. ground (arith, rmv-lookup s a e found ip ix.chains);
        },
        ground (
          arith,
          rmv-slot s a e found node i,
          of_n,
          at_i,
          lt-length_of_get_or (s.node_addr_tab node) i a h,
        ),
      )

  abbrev step : ℕ → Topology → Topology
  step i s = elim (slot s node i) [ none ↦ s | some a ↦ rmv_node_addr a s ]

  step-Shrinks :
      (s : Topology) (i : ℕ)
      → memb node nodes ≡ true
      → IsIndexed nodes s
      → Shrinks s (step i s) × (slot (step i s) node i ≡ none)
  step-Shrinks s i n_in ix = elim (Option-cases (slot s node i)) [
    | inl e ↦ rw (e, step) (Shrinks-refl s ix, e)
    | inr (a, e) ↦ rw (e, step) (rmv-Shrinks s i a n_in ix e)
  ]

  pub remove_addrs-Shrinks :
      (is : List ℕ) (s : Topology)
      → memb node nodes ≡ true
      → IsIndexed nodes s
      → Shrinks s (remove_addrs node is s)
        × ((i : ℕ) → memb i is ≡ true → slot (remove_addrs node is s) node i ≡ none)
  unfolding remove_addrs
  remove_addrs-Shrinks [] s n_in ix = (Shrinks-refl s ix, λ i m. absurd (cc))
  remove_addrs-Shrinks (j ∷ is) s n_in ix =
      let (one, gone) = step-Shrinks s j n_in ix in
      let (rest, all_gone) = remove_addrs-Shrinks is (step j s) n_in one.indexed in
      (
        Shrinks-trans s (step j s) (remove_addrs node is (step j s)) one rest,
        λ i m. elim (Bool-cases (j == i)) [
          | inl eq ↦
              let e : j ≡ i = (==_iff j i).0 eq in
              elim (Option-cases (slot (remove_addrs node is (step j s)) node i)) [
                | inl none_left ↦ none_left
                | inr (ip, h) ↦ absurd (ground (arith, rest.slots node i ip h, gone, e))
              ]
          | inr ne ↦ all_gone i (rw ne at m)
        ],
      )
