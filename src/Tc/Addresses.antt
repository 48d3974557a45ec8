-- ===== src/Tc/Addresses.antt =====
-- The hash table and the address tables of the nodes agree, and the operations keep it so.
use mpolsr_testbed.Common.{
  ℕ, ◌<◌, ◌≡◌, ◌∙◌, sym, subst, inl, inr, true, ◌&&◌, none, some, List, ◌∷◌, memb, ltb, ◌==◌,
  if◌then◌else◌, Bool-cases, Option-cases, length, length-set, set, update, arith,
}
use mpolsr_testbed.Tc.{NodeAddr, Topology, max_ip_alias_by_node}
use mpolsr_testbed.Tc.Hash.{find_addr, get_hash_key, rmv_node_addr, unlink_addr}
use mpolsr_testbed.Tc.Lookup.{
  find_addr-addr, find_addr-unlink, get_or-set, IsUnique, lookup, lt-length_of_get_or, slot,
  unlink_addr-IsUnique,
}

-- Every entry of the hash table belongs to a node of `nodes` that has the address in its table at the
-- entry's position, and every address in the table of such a node has its entry.
pub record IsIndexed (nodes : List ℕ) (s : Topology) : Type 0 where
  pub chains : (key : ℕ) → IsUnique (s.addr_tab key)
  pub entries :
      (ip : ℕ) (e : NodeAddr)
      → lookup s ip ≡ some e
      → (memb e.node nodes ≡ true) × (slot s e.node e.addr_pos ≡ some ip)
  pub slots :
      (n i ip : ℕ)
      → memb n nodes ≡ true
      → slot s n i ≡ some ip
      → (e : NodeAddr) × (lookup s ip ≡ some e) × (e.node ≡ n) × (e.addr_pos ≡ i)
  pub sizes : (n : ℕ) → memb n nodes ≡ true → length (s.node_addr_tab n) ≡ max_ip_alias_by_node

module _ (s : Topology) (a : ℕ) (e : NodeAddr) (found : lookup s a ≡ some e) where
  -- The state without the entry.
  abbrev pub cleared : Topology
  cleared = record s {
    addr_tab = update s.addr_tab (get_hash_key a) (unlink_addr a (s.addr_tab (get_hash_key a)));
    node_addr_tab = update s.node_addr_tab e.node (set (s.node_addr_tab e.node) e.addr_pos none);
  }

  pub rmv-cleared : rmv_node_addr a s ≡ cleared
  unfolding rmv_node_addr
  rmv-cleared = rw (found, rmv_node_addr)

  pub rmv-lookup :
      (b : ℕ)
      → ((key : ℕ) → IsUnique (s.addr_tab key))
      → lookup (rmv_node_addr a s) b ≡ (if a == b then none else lookup s b)
  rmv-lookup b u = rw rmv-cleared (
      ground (
        arith,
        find_addr-unlink a b (s.addr_tab (get_hash_key a)) (u (get_hash_key a)),
        find_addr-addr a (s.addr_tab (get_hash_key a)) e,
      ))

  pub rmv-slot :
      (n i : ℕ)
      → slot (rmv_node_addr a s) n i ≡ (
          if e.node == n && (e.addr_pos == i && ltb i (length (s.node_addr_tab n)))
          then none
          else slot s n i)
  rmv-slot n i =
      rw rmv-cleared (ground (arith, get_or-set (s.node_addr_tab e.node) e.addr_pos i none))

  pub rmv-chains :
      ((k : ℕ) → IsUnique (s.addr_tab k)) → (key : ℕ) → IsUnique ((rmv_node_addr a s).addr_tab key)
  rmv-chains u key = rw rmv-cleared (elim (Bool-cases (get_hash_key a == key)) [
    | inl eq ↦ rw eq (unlink_addr-IsUnique a (s.addr_tab (get_hash_key a)) (u (get_hash_key a)))
    | inr ne ↦ rw ne (u key)
  ])

  pub rmv-sizes :
      (n : ℕ) → length ((rmv_node_addr a s).node_addr_tab n) ≡ length (s.node_addr_tab n)
  rmv-sizes n = rw rmv-cleared (ground (arith, length-set (s.node_addr_tab e.node) e.addr_pos none))

  module _ (nodes : List ℕ) (ix : IsIndexed nodes s) where
    rmv-entries :
        (ip : ℕ) (e' : NodeAddr)
        → lookup (rmv_node_addr a s) ip ≡ some e'
        → (memb e'.node nodes ≡ true) × (slot (rmv_node_addr a s) e'.node e'.addr_pos ≡ some ip)
    rmv-entries ip e' h =
        let there : (if a == ip then none else lookup s ip) ≡ some e' =
          sym (rmv-lookup ip ix.chains) ∙ h in
        ground (arith, there, ix.entries ip e', ix.entries a e found, rmv-slot e'.node e'.addr_pos)

    rmv-slots :
        (n i ip : ℕ)
        → memb n nodes ≡ true
        → slot (rmv_node_addr a s) n i ≡ some ip
        → (e' : NodeAddr) × (lookup (rmv_node_addr a s) ip ≡ some e')
          × (e'.node ≡ n)
          × (e'.addr_pos ≡ i)
    rmv-slots n i ip m h =
        let before : slot s n i ≡ some ip = ground (arith, rmv-slot n i) in
        let (e', there, of_n, at_i) = ix.slots n i ip m before in
        (
          e',
          rmv-lookup ip ix.chains
              ∙ ground (
                arith,
                rmv-slot n i,
                lt-length_of_get_or (s.node_addr_tab n) i ip before,
                there,
                found,
                of_n,
                at_i,
              ),
          of_n,
          at_i,
        )

    rmv-IsIndexed : IsIndexed nodes (rmv_node_addr a s)
    rmv-IsIndexed = record {
      chains = rmv-chains ix.chains;
      entries = rmv-entries;
      slots = rmv-slots;
      sizes = λ n m. rmv-sizes n ∙ ix.sizes n m;
    }

pub rmv-unknown : (s : Topology) (a : ℕ) → lookup s a ≡ none → rmv_node_addr a s ≡ s
unfolding rmv_node_addr
rmv-unknown s a e = rw (e, rmv_node_addr)

-- Unlinking any address keeps the tables in agreement.
pub rmv_node_addr-IsIndexed :
    (nodes : List ℕ) (s : Topology) (a : ℕ)
    → IsIndexed nodes s
    → IsIndexed nodes (rmv_node_addr a s)
rmv_node_addr-IsIndexed nodes s a ix = elim (Option-cases (lookup s a)) [
  | inl e ↦ subst (IsIndexed nodes) (sym (rmv-unknown s a e)) ix
  | inr (e, found) ↦ rmv-IsIndexed s a e found nodes ix
]

-- Linking a new address of a node at a free entry of its table.
module _ (nodes : List ℕ) (s : Topology) (n ip pos : ℕ) (n_in : memb n nodes ≡ true)
    (ix : IsIndexed nodes s) (new : lookup s ip ≡ none) (in_tab : pos < max_ip_alias_by_node)
    (free : slot s n pos ≡ none) where
  abbrev entry : NodeAddr
  entry = record { addr_ip = ip; addr_pos = pos; node = n }

  abbrev pub linked : Topology
  linked = record s {
    node_addr_tab = update s.node_addr_tab n (set (s.node_addr_tab n) pos (some ip));
    addr_tab = update s.addr_tab (get_hash_key ip) (entry ∷ s.addr_tab (get_hash_key ip));
  }

  pub linked-lookup : (b : ℕ) → lookup linked b ≡ (if ip == b then some entry else lookup s b)
  unfolding find_addr
  linked-lookup b = ground arith

  pub linked-slot :
      (m i : ℕ) → slot linked m i ≡ (if n == m && pos == i then some ip else slot s m i)
  linked-slot m i = ground (arith, get_or-set (s.node_addr_tab n) pos i (some ip), ix.sizes n n_in)

  linked-IsUnique : (key : ℕ) → IsUnique (linked.addr_tab key)
  linked-IsUnique key = elim (Bool-cases (get_hash_key ip == key)) [
    | inl eq ↦ rw eq (new, ix.chains (get_hash_key ip))
    | inr ne ↦ rw ne (ix.chains key)
  ]

  pub linked-IsIndexed : IsIndexed nodes linked
  linked-IsIndexed = record {
    chains = linked-IsUnique;
    entries = λ b e h.
        let there : (if ip == b then some entry else lookup s b) ≡ some e =
          sym (linked-lookup b) ∙ h in
        ground (arith, there, ix.entries b e, linked-slot e.node e.addr_pos, n_in, free);
    slots = λ m i b m_in h. elim (Bool-cases (n == m && pos == i)) [
      | inl here ↦
          (entry, linked-lookup b ∙ ground (arith, linked-slot m i), ground arith, ground arith)
      | inr other ↦
          let (e, there, of_m, at_i) = ix.slots m i b m_in (ground (arith, linked-slot m i)) in
          (e, linked-lookup b ∙ ground (arith, there, new), of_m, at_i)
    ];
    sizes = λ m m_in. ground (arith, ix.sizes m m_in, length-set (s.node_addr_tab n) pos (some ip));
  }
