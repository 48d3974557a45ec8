-- ===== src/Tc/WellFormed/Add.antt =====
-- Adding a node keeps the invariant, and makes exactly its address known.
use mpolsr_testbed.Common.{
  ℕ, zero, suc, replicate, ◌≡◌, refl, inl, inr, true, false, Option, none, some, List, ◌∷◌, memb,
  ◌==◌, if◌then◌else◌, Bool-cases, get_or, arith,
}
use mpolsr_testbed.Tc.{Topology}
use mpolsr_testbed.Tc.Hash.{add_node_addr, find_addr, get_node}
use mpolsr_testbed.Tc.Lookup.{lookup, slot}
use mpolsr_testbed.Tc.Addresses.{IsIndexed, linked, linked-IsIndexed}
use mpolsr_testbed.Tc.Wiring.{IsWired}
use mpolsr_testbed.Tc.Nodes.{add_node, clear_node}
use mpolsr_testbed.Tc.WellFormed.{IsIndexed-same, IsWellFormed, IsWired-same}

get_or-replicate : (k i : ℕ) → get_or (replicate {A = Option ℕ} k none) i none ≡ none
get_or-replicate zero i = refl
get_or-replicate (suc k) zero = refl
get_or-replicate (suc k) (suc i) = get_or-replicate k i

-- The new node `p` is a pointer that no node of the list has, and the address is not known yet.
module _ (s : Topology) (p a : ℕ) (wf : IsWellFormed s) (fresh : memb p s.node_lst ≡ false)
    (new : lookup s a ≡ none) where
  abbrev nodes : List ℕ
  nodes = p ∷ s.node_lst

  cleared-IsIndexed : IsIndexed nodes (clear_node p s)
  unfolding clear_node
  cleared-IsIndexed = record {
    chains = wf.indexed.chains;
    entries = λ ip e h. ground (arith, wf.indexed.entries ip e, fresh);
    slots = λ n i ip m h. elim (Bool-cases (p == n)) [
      | inl eq ↦ absurd (ground (arith, get_or-replicate 5 i))
      | inr ne ↦ wf.indexed.slots n i ip (rw ne at m) (ground (arith, ne))
    ];
    sizes = λ n m. ground (arith, wf.indexed.sizes n);
  }

  cleared-IsWired : IsWired nodes (clear_node p s)
  unfolding clear_node
  cleared-IsWired = record {
    src_distinct = λ u. elim (Bool-cases (p == u)) [
      | inl eq ↦ rw eq tt
      | inr ne ↦ rw ne (wf.wired.src_distinct u)
    ];
    dst_distinct = λ u. elim (Bool-cases (p == u)) [
      | inl eq ↦ rw eq tt
      | inr ne ↦ rw ne (wf.wired.dst_distinct u)
    ];
    out = λ u l i m. ground (arith, wf.wired.out u l, fresh);
    into = λ u l i m. ground (arith, wf.wired.into u l, fresh);
  }

  abbrev added : Topology
  added = add_node (some p) true a s

  added-IsIndexed : IsIndexed nodes added
  unfolding add_node add_node_addr clear_node
  added-IsIndexed =
      IsIndexed-same nodes
        (linked nodes (clear_node p s) p a 0 (ground arith) cleared-IsIndexed new (omega arith)
          (ground arith))
        added refl refl
        (linked-IsIndexed nodes (clear_node p s) p a 0 (ground arith) cleared-IsIndexed new
          (omega arith) (ground arith))

  added-main : (n : ℕ) → memb n nodes ≡ true → (x : ℕ) × (slot added n 0 ≡ some x)
  unfolding add_node add_node_addr clear_node
  added-main n m = elim (Bool-cases (p == n)) [
    | inl eq ↦ (a, ground (arith, eq))
    | inr ne ↦ let (x, h) = wf.mains n (rw ne at m) in (x, ground (arith, ne, h))
  ]

  -- If the memory for a new node is none of the nodes' and the address is not known, adding the node
  -- keeps the invariant.
  pub add_node-IsWellFormed : IsWellFormed (add_node (some p) true a s)
  unfolding add_node add_node_addr clear_node
  add_node-IsWellFormed = record {
    distinct = (fresh, wf.distinct);
    indexed = added-IsIndexed;
    wired = IsWired-same nodes (clear_node p s) added refl refl refl refl cleared-IsWired;
    mains = added-main;
  }

-- After adding a node, its address is that of the new node, and every other address is looked up as
-- before.
pub get_node-add_node :
    (s : Topology) (p a b : ℕ)
    → get_node (add_node (some p) true a s) b ≡ (if a == b then some p else get_node s b)
unfolding add_node add_node_addr clear_node get_node find_addr
get_node-add_node s p a b = ground arith
