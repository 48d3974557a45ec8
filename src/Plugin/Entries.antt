-- ===== src/Plugin/Entries.antt =====
-- The tables of the plugin as maps from addresses, and what a chain holds.
use mathlib.Core.Option.{some-injective}
use mpolsr_testbed.Common.{
  ℕ, ◌==◌, ◌≡◌, ◌∙◌, refl, ap, inl, inr, ==_iff, Bool, false, Option, none, some, List, [], ◌∷◌,
  if◌then◌else◌, Bool-cases, memb, subst, arith,
}
use mpolsr_testbed.Plugin.{Cache, change_entry, Dst, Entry, find_dst, find_entry, set_entry}

abbrev pub lookup_entry : ℕ → List Entry → Option Entry
lookup_entry a [] = none
lookup_entry a (e ∷ chain) = if e.src_addr == a then some e else lookup_entry a chain

abbrev pub on_entry : (Entry → Entry) → Option Entry → Option Entry
on_entry f none = none
on_entry f (some e) = some (f e)

module _ (hash : ℕ → ℕ) where
  -- A chain of destinations: each has the key of the chain and stands in it once.
  abbrev pub DstsOk : ℕ → List Dst → Type 0
  DstsOk i [] = Unit
  DstsOk i (d ∷ ds) = (hash d.dst_addr ≡ i) × (find_dst d.dst_addr ds ≡ none) × DstsOk i ds

  module _ (interfaces : List ℕ) where
    abbrev pub EntryOk : ℕ → Entry → Type 0
    EntryOk k e =
        (e.freed ≡ false)
        × (hash e.src_addr ≡ k)
        × (e.is_src_local ≡ memb e.src_addr interfaces)
        × ((i : ℕ) → DstsOk i (e.dst_tab i))

    -- A chain of entries: each is in use, has the key of the chain and stands in it once.
    abbrev pub ChainOk : ℕ → List Entry → Type 0
    ChainOk k [] = Unit
    ChainOk k (e ∷ chain) = EntryOk k e × (lookup_entry e.src_addr chain ≡ none) × ChainOk k chain

    abbrev pub IsClean : Cache → Type 0
    IsClean c = (k : ℕ) → ChainOk k (c.tc_tab k)

    find_entry_lem :
        (k a : ℕ) (chain : List Entry)
        → ChainOk k chain
        → find_entry a chain ≡ some (lookup_entry a chain)
    unfolding find_entry
    find_entry_lem k a [] ok = refl
    find_entry_lem k a (e ∷ chain) ok = ground (arith, find_entry_lem k a chain)

    pub lookup-IsOk :
        (k a : ℕ) (chain : List Entry) (e : Entry)
        → ChainOk k chain
        → lookup_entry a chain ≡ some e
        → EntryOk k e × (e.src_addr ≡ a)
    lookup-IsOk k a [] e ok h = absurd (cc)
    lookup-IsOk k a (x ∷ chain) e ok h = elim (Bool-cases (x.src_addr == a)) [
      | inl eq ↦
          let is : x ≡ e = some-injective x e (rw eq at h) in
          subst (λ y. EntryOk k y × (y.src_addr ≡ a)) is (ok.0, (==_iff x.src_addr a).0 eq)
      | inr ne ↦ lookup-IsOk k a chain e ok.2 (rw ne at h)
    ]

    module _ (f : Entry → Entry) (same : (e : Entry) → (f e).src_addr ≡ e.src_addr) where
      lookup-change_entry :
          (a b : ℕ) (chain : List Entry)
          → lookup_entry b (change_entry a f chain)
            ≡ (if a == b then on_entry f (lookup_entry a chain) else lookup_entry b chain)
      unfolding change_entry
      lookup-change_entry a b [] = ground arith
      lookup-change_entry a b (e ∷ chain) = ground (arith, same e, lookup-change_entry a b chain)

      change_entry-ChainOk :
          (k a : ℕ) (chain : List Entry)
          → ((e : Entry) → lookup_entry a chain ≡ some e → EntryOk k e → EntryOk k (f e))
          → ChainOk k chain
          → ChainOk k (change_entry a f chain)
      unfolding change_entry
      change_entry-ChainOk k a [] keeps ok = tt
      change_entry-ChainOk k a (e ∷ chain) keeps ok = elim (Bool-cases (e.src_addr == a)) [
        | inl eq ↦
            rw eq (keeps e (rw eq refl) ok.0, ap (λ x. lookup_entry x chain) (same e) ∙ ok.1, ok.2)
        | inr ne ↦ rw ne (
          ok.0,
          lookup-change_entry a e.src_addr chain ∙ ground (arith, ok.1),
          change_entry-ChainOk k a chain (λ x h. keeps x (rw ne h)) ok.2,
        )
      ]

  abbrev pub entry : Cache → ℕ → Option Entry
  entry c a = lookup_entry a (c.tc_tab (hash a))

  abbrev pub dst_of : ℕ → Option Entry → Option Dst
  dst_of v none = none
  dst_of v (some e) = find_dst v (e.dst_tab (hash v))

  abbrev pub dst_active : Option Dst → Option Bool
  dst_active none = none
  dst_active (some d) = some d.is_active

  abbrev pub entry_active : Option Entry → Option Bool
  entry_active none = none
  entry_active (some e) = some e.is_active

  -- Whether the cache has a link, and then whether it is active; and the same for a node.
  abbrev pub link : Cache → ℕ → ℕ → Option Bool
  link c u v = dst_active (dst_of v (entry c u))

  abbrev pub node : Cache → ℕ → Option Bool
  node c a = entry_active (entry c a)

  module _ (interfaces : List ℕ) (c : Cache) (clean : IsClean interfaces c) where
    pub find_entry-entry : (a : ℕ) → find_entry a (c.tc_tab (hash a)) ≡ some (entry c a)
    find_entry-entry a = find_entry_lem interfaces (hash a) a (c.tc_tab (hash a)) (clean (hash a))

    pub entry-IsOk :
        (a : ℕ) (e : Entry) → entry c a ≡ some e → EntryOk interfaces (hash a) e × (e.src_addr ≡ a)
    entry-IsOk a e = lookup-IsOk interfaces (hash a) a (c.tc_tab (hash a)) e (clean (hash a))

    module _ (a : ℕ) (f : Entry → Entry) (same : (e : Entry) → (f e).src_addr ≡ e.src_addr) where
      pub set_entry-entry :
          (b : ℕ)
          → entry (set_entry hash a f c) b ≡ (if a == b then on_entry f (entry c a) else entry c b)
      set_entry-entry b = elim (Bool-cases (hash a == hash b)) [
        | inl eq ↦ rw eq (
            lookup-change_entry interfaces f same a b (c.tc_tab (hash a))
            ∙ ap (λ k. if a == b then on_entry f (entry c a) else lookup_entry b (c.tc_tab k))
                ((==_iff (hash a) (hash b)).0 eq))
        | inr ne ↦ rw ne (ground (arith, ne))
      ]

      pub set_entry-IsClean :
          ((e : Entry)
            → entry c a ≡ some e
            → EntryOk interfaces (hash a) e
            → EntryOk interfaces (hash a) (f e))
          → IsClean interfaces (set_entry hash a f c)
      set_entry-IsClean keeps k = elim (Bool-cases (hash a == k)) [
        | inl eq ↦
            let e : hash a ≡ k = (==_iff (hash a) k).0 eq in
            rw eq (
              subst (λ j. ChainOk interfaces j (change_entry a f (c.tc_tab (hash a)))) e
                (change_entry-ChainOk interfaces f same (hash a) a (c.tc_tab (hash a)) keeps
                  (clean (hash a))))
        | inr ne ↦ rw ne (clean k)
      ]
