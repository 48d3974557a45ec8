-- ===== src/Plugin/Removal.antt =====
-- The loop that removes what is not active: which links the module loses by its commands.
use mpolsr_testbed.Common.{
  ℕ, zero, suc, ◌+◌, ◌<◌, ◌==◌, ◌≡◌, ◌∙◌, refl, sym, ap, subst, ==_iff, if_true, inl, inr, lt→ltb,
  Bool, true, false, not, ◌&&◌, ◌||◌, Option, none, some, List, [], ◌∷◌, ◌++◌, if◌then◌else◌, ◌>>=◌,
  Bool-cases, ltb, arith,
}
use mpolsr_testbed.Device.{cmd_remove_node}
use mpolsr_testbed.Plugin.{
  active_dsts, Cache, command, Entry, find_dst, Olsr, other_mids, send_cmds, remove_entries,
  rmv_all_links, rmv_mids_of,
}
use mpolsr_testbed.Plugin.Entries.{lookup_entry, ChainOk, dst_active, EntryOk}
use mpolsr_testbed.Plugin.Links.{no_graph, run_command, run_commands, run_commands-append, told}
use mpolsr_testbed.Plugin.Commands.{
  Apart, idle, rmv_all_links-Apart, rmv_all_links-links, rmv_mids_of-same,
}

module _ (hash : ℕ → ℕ) (hashsize : ℕ) (olsr : Olsr) where
  -- The links that the commands for an entry remove.
  abbrev pub gone : Entry → ℕ → ℕ → Bool
  gone e u v =
      (e.src_addr == u && idle (dst_active hash (find_dst v (e.dst_tab (hash v)))))
      || (not e.is_active && (e.src_addr == u || e.src_addr == v))

  abbrev pub killed : List Entry → ℕ → ℕ → Bool
  killed [] u v = false
  killed (e ∷ chain) u v = gone e u v || killed chain u v

  abbrev pub killed_from : ℕ → ℕ → (ℕ → List Entry) → ℕ → ℕ → Bool
  killed_from index zero tab u v = false
  killed_from index (suc n) tab u v = killed (tab index) u v || killed_from (index + 1) n tab u v

  abbrev pub killed_node : List Entry → ℕ → Bool
  killed_node [] a = false
  killed_node (e ∷ chain) a = (not e.is_active && e.src_addr == a) || killed_node chain a

  abbrev pub killed_nodes : ℕ → ℕ → (ℕ → List Entry) → ℕ → Bool
  killed_nodes index zero tab a = false
  killed_nodes index (suc n) tab a = killed_node (tab index) a || killed_nodes (index + 1) n tab a

  -- The module knows the nodes of a chain.
  abbrev pub KnowsChain : List Entry → Cache → Type 0
  KnowsChain chain c = (a : ℕ) (x : Entry) → lookup_entry a chain ≡ some x → (told c).known a ≡ true

  module _ (bound : (a : ℕ) → hash a < hashsize) where
    elsewhere :
        (e : Entry) (chain : List Entry) (a : ℕ) (x : Entry)
        → lookup_entry e.src_addr chain ≡ none
        → lookup_entry a chain ≡ some x
        → (e.src_addr == a) ≡ false
    elsewhere e chain a x once at = elim (Bool-cases (e.src_addr == a)) [
      | inl eq ↦ absurd (
          clash x
            (sym (ap (λ b. lookup_entry b chain) (sym ((==_iff e.src_addr a).0 eq)) ∙ once) ∙ at))
      | inr ne ↦ ne
    ]
      where
        clash : (y : Entry) → ¬ (◌≡◌ {A = Option Entry} none (some y))
        clash y h = cc

    deeper :
        (e : Entry) (chain : List Entry) (c : Cache)
        → lookup_entry e.src_addr chain ≡ none
        → KnowsChain (e ∷ chain) c
        → KnowsChain chain c
    deeper e chain c once knows a x at =
        knows a x (
          ap (λ b. if b then some e else lookup_entry a chain) (elsewhere e chain a x once at) ∙ at)

    pub record Removes (chain : List Entry) (c c' : Cache) : Type 0 where
      pub tc_tab : c'.tc_tab ≡ c.tc_tab
      pub links : (u v : ℕ) → (told c').links u v ≡ (told c).links u v && not (killed chain u v)
      pub known : (a : ℕ) → (told c').known a ≡ (told c).known a && not (killed_node chain a)
      pub proper : (told c').proper ≡ (told c).proper

    module _ (k : ℕ) (e : Entry) (ok : EntryOk hash olsr.interfaces k e) (c : Cache) where
      abbrev of_links : ℕ → ℕ → Bool
      of_links u v = e.src_addr == u && idle (dst_active hash (find_dst v (e.dst_tab (hash v))))

      abbrev swept : Cache
      swept = send_cmds (rmv_all_links e.src_addr hashsize e.dst_tab) c

      abbrev trimmed : Entry
      trimmed = record e {
        dst_tab =
            λ index. if ltb index hashsize then active_dsts (e.dst_tab index) else e.dst_tab index;
      }

      abbrev erased : Cache
      erased = record swept {
        mid_tc = other_mids e.src_addr swept.mid_tc;
        sent =
            (swept.sent ++ rmv_mids_of e.src_addr swept.mid_tc)
            ++ (command cmd_remove_node e.src_addr 0 0 ∷ []);
      }

      swept-told : told swept ≡ run_commands (rmv_all_links e.src_addr hashsize e.dst_tab) (told c)
      swept-told = run_commands-append c.sent (rmv_all_links e.src_addr hashsize e.dst_tab) no_graph

      swept-links : (u v : ℕ) → (told swept).links u v ≡ (told c).links u v && not (of_links u v)
      swept-links u v =
          ap (λ g. g.links u v) swept-told
          ∙ (rmv_all_links-links hash hashsize e.src_addr e.dst_tab (told c) u v ok.3
              ∙ rw (lt→ltb (hash v) hashsize (bound v)) refl)

      swept-Apart : Apart (told c) (told swept)
      swept-Apart =
          subst (Apart (told c)) (sym swept-told)
            (rmv_all_links-Apart hashsize e.src_addr e.dst_tab (told c))

      erased-told : told erased ≡ run_command (command cmd_remove_node e.src_addr 0 0) (told swept)
      erased-told =
          run_commands-append (swept.sent ++ rmv_mids_of e.src_addr swept.mid_tc)
            (command cmd_remove_node e.src_addr 0 0 ∷ []) no_graph
          ∙ ap (run_command (command cmd_remove_node e.src_addr 0 0)) (
              run_commands-append swept.sent (rmv_mids_of e.src_addr swept.mid_tc) no_graph
              ∙ rmv_mids_of-same e.src_addr swept.mid_tc (told swept))

      erased-links :
          (u v : ℕ)
          → (told erased).links u v
            ≡ ((told c).links u v && not (of_links u v)) && not (e.src_addr == u || e.src_addr == v)
      erased-links u v =
          ap (λ g. g.links u v) erased-told
          ∙ (as_and (e.src_addr == u || e.src_addr == v) ((told swept).links u v)
              ∙ ap (λ x. x && not (e.src_addr == u || e.src_addr == v)) (swept-links u v))
        where
          as_and : (b x : Bool) → (if b then false else x) ≡ x && not b
          as_and b x = ground arith

      erased-known : (a : ℕ) → (told erased).known a ≡ (told c).known a && not (e.src_addr == a)
      erased-known a =
          ap (λ g. g.known a) erased-told
          ∙ (as_and (e.src_addr == a) ((told swept).known a)
              ∙ ap (λ x. x && not (e.src_addr == a)) (swept-Apart.known a))
        where
          as_and : (b x : Bool) → (if b then false else x) ≡ x && not b
          as_and b x = ground arith

      erased-proper : (told c).known e.src_addr ≡ true → (told erased).proper ≡ (told c).proper
      erased-proper there =
          ap (λ g. g.proper) erased-told
          ∙ (if_true ((told swept).known e.src_addr) _ _ (swept-Apart.known e.src_addr ∙ there)
              ∙ swept-Apart.proper)

      -- The rest of the chain has other nodes.
      erased-KnowsChain :
          (chain : List Entry)
          → lookup_entry e.src_addr chain ≡ none
          → KnowsChain (e ∷ chain) c
          → KnowsChain chain erased
      erased-KnowsChain chain once knows a x at =
          erased-known a
          ∙ both _ _ (deeper e chain c once knows a x at) (elsewhere e chain a x once at)
        where
          both : (k s : Bool) → k ≡ true → s ≡ false → k && not s ≡ true
          both k s p q = ground (arith, p, q)

      after_swept :
          (chain : List Entry) (c' : Cache)
          → e.is_active ≡ true
          → Removes chain swept c'
          → Removes (e ∷ chain) c c'
      after_swept chain c' live r = record {
        tc_tab = r.tc_tab;
        links = λ u v.
            r.links u v
            ∙ (ap (λ x. x && not (killed chain u v)) (swept-links u v)
                ∙ joins ((told c).links u v) (of_links u v) e.is_active _ (killed chain u v) live);
        known = λ a.
            r.known a
            ∙ (ap (λ x. x && not (killed_node chain a)) (swept-Apart.known a)
                ∙ stays ((told c).known a) e.is_active (e.src_addr == a) (killed_node chain a)
                    live);
        proper = r.proper ∙ swept-Apart.proper;
      }
        where
          joins :
              (x l a n k : Bool)
              → a ≡ true
              → (x && not l) && not k ≡ x && not ((l || (not a && n)) || k)
          joins x l a n k h = ground arith

          stays : (x a s k : Bool) → a ≡ true → x && not k ≡ x && not ((not a && s) || k)
          stays x a s k h = ground arith

      after_erased :
          (chain : List Entry) (c' : Cache)
          → e.is_active ≡ false
          → (told c).known e.src_addr ≡ true
          → Removes chain erased c'
          → Removes (e ∷ chain) c c'
      after_erased chain c' dead there r = record {
        tc_tab = r.tc_tab;
        links = λ u v.
            r.links u v
            ∙ (ap (λ x. x && not (killed chain u v)) (erased-links u v)
                ∙ joins ((told c).links u v) (of_links u v) e.is_active _ (killed chain u v) dead);
        known = λ a.
            r.known a
            ∙ (ap (λ x. x && not (killed_node chain a)) (erased-known a)
                ∙ goes ((told c).known a) e.is_active (e.src_addr == a) (killed_node chain a) dead);
        proper = r.proper ∙ erased-proper there;
      }
        where
          joins :
              (x l a n k : Bool)
              → a ≡ false
              → ((x && not l) && not n) && not k ≡ x && not ((l || (not a && n)) || k)
          joins x l a n k h = ground arith

          goes : (x a s k : Bool) → a ≡ false → (x && not s) && not k ≡ x && not ((not a && s) || k)
          goes x a s k h = ground arith

    pub remove_entries_lem :
        (k : ℕ) (first : Bool) (chain : List Entry) (c : Cache)
        → ChainOk hash olsr.interfaces k chain
        → KnowsChain chain c
        → (chain' : List Entry) × (c' : Cache) × (remove_entries hash hashsize olsr first chain c
            ≡ some (chain', c'))
          × Removes chain c c'
    unfolding remove_entries
    remove_entries_lem k first [] c ok knows = (
      [],
      c,
      refl,
      record {
        tc_tab = refl;
        links = λ u v. ground arith;
        known = λ a. ground arith;
        proper = refl;
      },
    )
    remove_entries_lem k first (e ∷ chain) c ok knows = elim (Bool-cases e.is_active) [
      | inl live ↦
          let (chain', c', runs, r) =
            remove_entries_lem k false chain (swept k e ok.0 c) ok.2
              (λ a x at. (swept-Apart k e ok.0 c).known a ∙ deeper e chain c ok.1 knows a x at) in
          (
            trimmed k e ok.0 c ∷ chain',
            c',
            takes_live e.freed e.is_active first _ _ _ ok.0.0 live ∙ rw (runs, ◌>>=◌) refl,
            after_swept k e ok.0 c chain c' live r,
          )
      | inr dead ↦ elim (Bool-cases first) [
        | inl head ↦
            let (chain', c', runs, r) =
              remove_entries_lem k true chain (erased k e ok.0 c) ok.2
                (erased-KnowsChain k e ok.0 c chain ok.1 knows) in
            (
              chain',
              c',
              takes_first e.freed e.is_active first _ _ _ ok.0.0 dead head ∙ runs,
              after_erased k e ok.0 c chain c' dead (knows e.src_addr e (ground arith)) r,
            )
        | inr later ↦
            let (chain', c', runs, r) =
              remove_entries_lem k false chain (erased k e ok.0 c) ok.2
                (erased-KnowsChain k e ok.0 c chain ok.1 knows) in
            (
              record (trimmed k e ok.0 c) { freed = true } ∷ chain',
              c',
              takes_later e.freed e.is_active first _ _ _ ok.0.0 dead later ∙ rw (runs, ◌>>=◌) refl,
              after_erased k e ok.0 c chain c' dead (knows e.src_addr e (ground arith)) r,
            )
      ]
    ]
      where
        takes_live :
            (f a h : Bool) (x y z : Option (List Entry × Cache))
            → f ≡ false
            → a ≡ true
            → (if f then none else if a then x else if h then y else z) ≡ x
        takes_live f a h x y z p q = rw (p, q) refl

        takes_first :
            (f a h : Bool) (x y z : Option (List Entry × Cache))
            → f ≡ false
            → a ≡ false
            → h ≡ true
            → (if f then none else if a then x else if h then y else z) ≡ y
        takes_first f a h x y z p q r = rw (p, q, r) refl

        takes_later :
            (f a h : Bool) (x y z : Option (List Entry × Cache))
            → f ≡ false
            → a ≡ false
            → h ≡ false
            → (if f then none else if a then x else if h then y else z) ≡ z
        takes_later f a h x y z p q r = rw (p, q, r) refl
