-- ===== src/Plugin/Activate.antt =====
-- A node of the topology: it is created if need be, and becomes active.
use mpolsr_testbed.Common.{
  ℕ, ◌==◌, ◌≡◌, ◌∙◌, refl, sym, ap, inl, inr, ==_iff, Bool, true, false, Option, none, some, List,
  [], ◌∷◌, ◌++◌, if◌then◌else◌, Bool-cases, Option-cases, memb, update, subst, arith,
}
use mpolsr_testbed.Device.{cmd_add_node}
use mpolsr_testbed.Plugin.{
  activate_node, Cache, command, create_node, Entry, find_dst, Olsr, set_entry,
}
use mpolsr_testbed.Plugin.Entries.{
  ChainOk, dst_active, dst_of, entry, entry_active, find_entry-entry, IsClean, link, node, on_entry,
  set_entry-entry, set_entry-IsClean,
}
use mpolsr_testbed.Plugin.Links.{has, has-if, Mirrors, no_graph, run_commands-append, told}

module _ (hash : ℕ → ℕ) (hashsize : ℕ) (olsr : Olsr) where
  -- What a step leaves of the cache, which is clean before and after.
  pub record Step (c c' : Cache) : Type 0 where
    pub clean : IsClean hash olsr.interfaces c'
    pub links : (u v : ℕ) → link hash c' u v ≡ link hash c u v
    pub mirrors : Mirrors hash c → Mirrors hash c'

  abbrev pub look : ℕ → Option Entry → Option Bool
  look v e = dst_active hash (dst_of hash v e)

  same_dsts :
      (v : ℕ) (o : Option Entry)
      → look v (on_entry (λ e. record e { is_active = true }) o) ≡ look v o
  same_dsts v none = refl
  same_dsts v (some e) = refl

  module _ (addr : ℕ) (c : Cache) (clean : IsClean hash olsr.interfaces c) where
    abbrev new_entry : Entry
    new_entry = record {
      src_addr = addr;
      dst_tab = λ index. [];
      is_active = true;
      is_src_local = memb addr olsr.interfaces;
      freed = false;
    }

    abbrev created : Cache
    created = record c {
      tc_tab = update c.tc_tab (hash addr) (new_entry ∷ c.tc_tab (hash addr));
      sent = c.sent ++ (command cmd_add_node addr 0 0 ∷ []);
    }

    create_node-created : create_node hash hashsize olsr addr c ≡ some created
    unfolding create_node
    create_node-created = by_chain (c.tc_tab (hash addr)) (clean (hash addr))
      where
        by_chain :
            (chain : List Entry)
            → ChainOk hash olsr.interfaces (hash addr) chain
            → ◌≡◌ {A = Option Cache}
                (elim chain [
                  | [] ↦ some created
                  | pos ∷ rest ↦ if pos.freed then none else some created
                ])
                (some created)
        by_chain [] ok = refl
        by_chain (e ∷ rest) ok = rw (ok.0.0) refl

    created-entry :
        (b : ℕ) → entry hash created b ≡ (if addr == b then some new_entry else entry hash c b)
    created-entry b = ground arith

    created-IsClean : entry hash c addr ≡ none → IsClean hash olsr.interfaces created
    created-IsClean new k = elim (Bool-cases (hash addr == k)) [
      | inl eq ↦
          let e : hash addr ≡ k = (==_iff (hash addr) k).0 eq in
          rw eq (
            (refl, e, refl, λ i. tt),
            new,
            subst (λ j. ChainOk hash olsr.interfaces j (c.tc_tab (hash addr))) e
                (clean (hash addr)),
          )
      | inr ne ↦ rw ne (clean k)
    ]

    created-links : entry hash c addr ≡ none → (u v : ℕ) → link hash created u v ≡ link hash c u v
    unfolding find_dst
    created-links new u v = ap (look v) (created-entry u) ∙ elim (Bool-cases (addr == u)) [
      | inl eq ↦
          rw eq (sym (ap (look v) (subst (λ x. entry hash c x ≡ none) ((==_iff addr u).0 eq) new)))
      | inr ne ↦ rw ne refl
    ]

    created-nodes : (b : ℕ) → node hash created b ≡ (if addr == b then some true else node hash c b)
    created-nodes b =
        ap (entry_active hash) (created-entry b)
        ∙ elim (Bool-cases (addr == b)) [ inl eq ↦ rw eq refl | inr ne ↦ rw ne refl ]

    known_with :
        (a : ℕ)
        → (told c).known a ≡ has (node hash c a)
        → (if addr == a then true else (told c).known a) ≡ has (node hash created a)
    known_with a h =
        ap (λ x. if addr == a then true else x) h
        ∙ sym (ap has (created-nodes a) ∙ has-if (addr == a) (node hash c a))

    created-Step : entry hash c addr ≡ none → Step c created
    created-Step new = record {
      clean = created-IsClean new;
      links = created-links new;
      mirrors = λ m.
          let grown = run_commands-append c.sent (command cmd_add_node addr 0 0 ∷ []) no_graph in
          record {
            known = λ a. ap (λ g. g.known a) grown ∙ known_with a (m.known a);
            links = λ u v.
                ap (λ g. g.links u v) grown ∙ (m.links u v ∙ ap has (sym (created-links new u v)));
            proper =
                ap (λ g. g.proper) grown
                ∙ ground (arith, m.known addr ∙ ap (λ o. has (entry_active hash o)) new, m.proper);
          };
    }

    abbrev activated : Cache → Cache
    activated d = set_entry hash addr (λ e. record e { is_active = true }) d

    activated-entry :
        (d : Cache)
        → IsClean hash olsr.interfaces d
        → (b : ℕ)
        → entry hash (activated d) b ≡ (
            if addr == b
            then on_entry (λ e. record e { is_active = true }) (entry hash d addr)
            else entry hash d b)
    activated-entry d ok b =
        set_entry-entry hash olsr.interfaces d ok addr (λ e. record e { is_active = true })
          (λ e. refl) b

    activated-Step : (d : Cache) → IsClean hash olsr.interfaces d → Step d (activated d)
    activated-Step d ok =
        let same : (u v : ℕ) → link hash (activated d) u v ≡ link hash d u v = λ u v.
          ap (look v) (activated-entry d ok u) ∙ elim (Bool-cases (addr == u)) [
            | inl eq ↦ rw eq (
                same_dsts v (entry hash d addr)
                ∙ ap (λ x. look v (entry hash d x)) ((==_iff addr u).0 eq))
            | inr ne ↦ rw ne refl
          ] in
        record {
          clean =
              set_entry-IsClean hash olsr.interfaces d ok addr (λ e. record e { is_active = true })
                (λ e. refl) (λ e is h. h);
          links = same;
          mirrors = λ m. record {
            known = λ a.
                m.known a
                ∙ sym (ap (λ o. has (entry_active hash o)) (activated-entry d ok a) ∙ by_key a);
            links = λ u v. m.links u v ∙ ap has (sym (same u v));
            proper = m.proper;
          };
        }
      where
        by_entry :
            (o : Option Entry)
            → has (entry_active hash (on_entry (λ e. record e { is_active = true }) o))
              ≡ has (entry_active hash o)
        by_entry none = refl
        by_entry (some e) = refl

        by_key :
            (a : ℕ)
            → has (
                entry_active hash (
                  if addr == a
                  then on_entry (λ e. record e { is_active = true }) (entry hash d addr)
                  else entry hash d a))
              ≡ has (node hash d a)
        by_key a = elim (Bool-cases (addr == a)) [
          | inl eq ↦
              rw eq (
                by_entry (entry hash d addr) ∙ ap (λ x. has (node hash d x)) ((==_iff addr a).0 eq))
          | inr ne ↦ rw ne refl
        ]

    -- The node is there and active afterwards, and no other node changes.
    pub record Activated (c' : Cache) : Type 0 where
      pub step : Step c c'
      pub nodes : (b : ℕ) → node hash c' b ≡ (if addr == b then some true else node hash c b)

    activated-node :
        (d : Cache) (e : Entry)
        → IsClean hash olsr.interfaces d
        → entry hash d addr ≡ some e
        → (b : ℕ) → node hash (activated d) b ≡ (if addr == b then some true else node hash d b)
    activated-node d e ok there b =
        ap (entry_active hash) (activated-entry d ok b)
        ∙ elim (Bool-cases (addr == b)) [ inl eq ↦ rw (eq, there) refl | inr ne ↦ rw ne refl ]

    pub activate_node_lem :
        (c' : Cache) × (activate_node hash hashsize olsr addr c ≡ some c') × Activated c'
    unfolding activate_node
    activate_node_lem = elim (Option-cases (entry hash c addr)) [
      | inl new ↦
          let s1 = created-Step new in
          let there : entry hash created addr ≡ some new_entry =
            created-entry addr ∙ ground arith in
          let s2 = activated-Step created s1.clean in
          (
            activated created,
            rw (find_entry-entry hash olsr.interfaces c clean addr, new, create_node-created) refl,
            record {
              step = record {
                clean = s2.clean;
                links = λ u v. s2.links u v ∙ s1.links u v;
                mirrors = λ m. s2.mirrors (s1.mirrors m);
              };
              nodes = λ b.
                  activated-node created new_entry s1.clean there b
                  ∙ elim (Bool-cases (addr == b)) [
                    | inl eq ↦ rw eq refl
                    | inr ne ↦ rw ne (ap (entry_active hash) (created-entry b) ∙ rw ne refl)
                  ];
            },
          )
      | inr (e, there) ↦ (
        activated c,
        rw (find_entry-entry hash olsr.interfaces c clean addr, there) refl,
        record { step = activated-Step c clean; nodes = activated-node c e clean there },
      )
    ]
