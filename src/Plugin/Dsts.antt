-- ===== src/Plugin/Dsts.antt =====
-- A link in the table of its source: it is created if need be, and becomes active.
use mathlib.Core.Option.{some-injective}
use mpolsr_testbed.Common.{
  ℕ, Bool, false, ◌==◌, ◌≡◌, ◌∙◌, refl, sym, ap, inl, inr, ==_iff, true, ◌&&◌, Option, none, some,
  List, [], ◌∷◌, if◌then◌else◌, ◌>>=◌, Bool-cases, Option-cases, update, subst, arith,
}
use mpolsr_testbed.Device.{cmd_add_link}
use mpolsr_testbed.Plugin.{
  activate_dst, add_dst, Cache, command, Dst, Entry, find_dst, Olsr, send_cmds, set_entry,
}
use mpolsr_testbed.Plugin.Entries.{
  dst_active, dst_of, DstsOk, entry, entry_active, EntryOk, find_entry-entry, IsClean, link, node,
  set_entry-entry, set_entry-IsClean,
}
use mpolsr_testbed.Plugin.Links.{has, has-if, Mirrors, no_graph, run_commands-append, told}
use mpolsr_testbed.Plugin.Activate.{look}

abbrev on_dst : Option Dst → Option Dst
on_dst none = none
on_dst (some d) = some (record d { is_active = true })

find-activate_dst :
    (a b : ℕ) (ds : List Dst)
    → find_dst b (activate_dst a ds) ≡ (if a == b then on_dst (find_dst a ds) else find_dst b ds)
unfolding find_dst activate_dst
find-activate_dst a b [] = ground arith
find-activate_dst a b (d ∷ ds) = ground (arith, find-activate_dst a b ds)

activate_dst-DstsOk :
    (hash : ℕ → ℕ) (i a : ℕ) (ds : List Dst) → DstsOk hash i ds → DstsOk hash i (activate_dst a ds)
unfolding find_dst activate_dst
activate_dst-DstsOk hash i a [] ok = tt
activate_dst-DstsOk hash i a (d ∷ ds) ok = elim (Bool-cases (d.dst_addr == a)) [
  | inl eq ↦ rw eq ok
  | inr ne ↦ rw ne (
    ok.0,
    find-activate_dst a d.dst_addr ds ∙ ground (arith, ok.1, ne),
    activate_dst-DstsOk hash i a ds ok.2,
  )
]

module _ (hash : ℕ → ℕ) (hashsize : ℕ) (olsr : Olsr) where
  -- The link is there and active afterwards, and nothing else changes.
  pub record Linked (src dst : ℕ) (c c' : Cache) : Type 0 where
    pub clean : IsClean hash olsr.interfaces c'
    pub links :
        (u v : ℕ) → link hash c' u v ≡ (if src == u && dst == v then some true else link hash c u v)
    pub nodes : (b : ℕ) → node hash c' b ≡ node hash c b
    pub mirrors : Mirrors hash c → Mirrors hash c'

  module _ (src dst : ℕ) (c : Cache) (clean : IsClean hash olsr.interfaces c) (e : Entry)
      (there : entry hash c src ≡ some e) where
    abbrev put : Entry → Entry
    put x = record x {
      dst_tab =
          update x.dst_tab (hash dst)
            (record { dst_addr = dst; is_active = true } ∷ x.dst_tab (hash dst));
    }

    abbrev mark : Entry → Entry
    mark x = record x {
      dst_tab = update x.dst_tab (hash dst) (activate_dst dst (x.dst_tab (hash dst)));
    }

    put-dst :
        (v : ℕ)
        → look hash hashsize olsr v (some (put e))
          ≡ (if dst == v then some true else look hash hashsize olsr v (some e))
    unfolding find_dst
    put-dst v = ground arith

    mark-dst :
        (d : Dst)
        → find_dst dst (e.dst_tab (hash dst)) ≡ some d
        → (v : ℕ)
        → look hash hashsize olsr v (some (mark e))
          ≡ (if dst == v then some true else look hash hashsize olsr v (some e))
    mark-dst d old v = ground (arith, find-activate_dst dst v (e.dst_tab (hash dst)), old)

    changed-links :
        (f : Entry → Entry) (same : (x : Entry) → (f x).src_addr ≡ x.src_addr)
        → ((v : ℕ)
            → look hash hashsize olsr v (some (f e))
              ≡ (if dst == v then some true else look hash hashsize olsr v (some e)))
        → (u v : ℕ)
        → link hash (set_entry hash src f c) u v
          ≡ (if src == u && dst == v then some true else link hash c u v)
    changed-links f same does u v =
        ap (look hash hashsize olsr v) (set_entry-entry hash olsr.interfaces c clean src f same u)
        ∙ elim (Bool-cases (src == u)) [
          | inl eq ↦
              let here : entry hash c u ≡ some e =
                subst (λ x. entry hash c x ≡ some e) ((==_iff src u).0 eq) there in
              rw (eq, there, here) (does v)
          | inr ne ↦ rw ne refl
        ]

    changed-nodes :
        (f : Entry → Entry) (same : (x : Entry) → (f x).src_addr ≡ x.src_addr)
        → ((x : Entry) → (f x).is_active ≡ x.is_active)
        → (b : ℕ) → node hash (set_entry hash src f c) b ≡ node hash c b
    changed-nodes f same active b =
        ap (entry_active hash) (set_entry-entry hash olsr.interfaces c clean src f same b)
        ∙ elim (Bool-cases (src == b)) [
          | inl eq ↦
              let here : entry hash c b ≡ some e =
                subst (λ x. entry hash c x ≡ some e) ((==_iff src b).0 eq) there in
              rw (eq, there, here) (ap some (active e))
          | inr ne ↦ rw ne refl
        ]

    put-IsOk :
        find_dst dst (e.dst_tab (hash dst)) ≡ none
        → EntryOk hash olsr.interfaces (hash src) e
        → EntryOk hash olsr.interfaces (hash src) (put e)
    put-IsOk new ok = (
      ok.0,
      ok.1,
      ok.2,
      λ i. elim (Bool-cases (hash dst == i)) [
        | inl eq ↦
            let same : hash dst ≡ i = (==_iff (hash dst) i).0 eq in
            rw eq
              (same, new, subst (λ j. DstsOk hash j (e.dst_tab (hash dst))) same (ok.3 (hash dst)))
        | inr ne ↦ rw ne (ok.3 i)
      ],
    )

    mark-IsOk :
        EntryOk hash olsr.interfaces (hash src) e → EntryOk hash olsr.interfaces (hash src) (mark e)
    mark-IsOk ok = (
      ok.0,
      ok.1,
      ok.2,
      λ i. elim (Bool-cases (hash dst == i)) [
        | inl eq ↦
            let same : hash dst ≡ i = (==_iff (hash dst) i).0 eq in
            rw eq (
              subst (λ j. DstsOk hash j (activate_dst dst (e.dst_tab (hash dst)))) same
                (activate_dst-DstsOk hash (hash dst) dst (e.dst_tab (hash dst)) (ok.3 (hash dst))))
        | inr ne ↦ rw ne (ok.3 i)
      ],
    )

    changed-IsClean :
        (f : Entry → Entry) (same : (x : Entry) → (f x).src_addr ≡ x.src_addr)
        → (EntryOk hash olsr.interfaces (hash src) e
            → EntryOk hash olsr.interfaces (hash src) (f e))
        → IsClean hash olsr.interfaces (set_entry hash src f c)
    changed-IsClean f same keeps =
        set_entry-IsClean hash olsr.interfaces c clean src f same (λ x is ok.
          let eq : e ≡ x = some-injective e x (sym there ∙ is) in
          subst (λ y. EntryOk hash olsr.interfaces (hash src) (f y)) eq
            (keeps (subst (EntryOk hash olsr.interfaces (hash src)) (sym eq) ok)))

    known :
        (d : Dst)
        → find_dst dst (e.dst_tab (hash dst)) ≡ some d
        → (u v : ℕ) → src ≡ u
        → dst ≡ v
        → has (link hash c u v) ≡ true
    known d old u v p q =
        subst (λ x. has (link hash c x v) ≡ true) p
          (subst (λ y. has (link hash c src y) ≡ true) q (rw (there, old) refl))

    linked_graph :
        (dst_there : node hash c dst ≡ some true) (new : find_dst dst (e.dst_tab (hash dst)) ≡ none)
        → Mirrors hash c
        → Mirrors hash (send_cmds (command cmd_add_link src dst 1 ∷ []) (set_entry hash src put c))
    linked_graph dst_there new m =
        let grown = run_commands-append c.sent (command cmd_add_link src dst 1 ∷ []) no_graph in
        let src_known : (told c).known src ≡ true =
          m.known src ∙ ap (λ o. has (entry_active hash o)) there in
        let dst_known : (told c).known dst ≡ true = m.known dst ∙ ap has dst_there in
        let none_yet : (told c).links src dst ≡ false =
          m.links src dst
          ∙ (ap (λ o. has (dst_active hash (dst_of hash dst o))) there
              ∙ ap (λ o. has (dst_active hash o)) new) in
        record {
          known = λ a.
              ap (λ g. g.known a) grown
              ∙ (m.known a ∙ ap has (sym (changed-nodes put (λ x. refl) (λ x. refl) a)));
          links = λ u v.
              ap (λ g. g.links u v) grown
              ∙ (both (src == u && dst == v) _ _ ((told c).links u v) src_known dst_known
                  ∙ (ap (λ x. if src == u && dst == v then true else x) (m.links u v)
                      ∙ sym (
                          ap has (changed-links put (λ x. refl) put-dst u v)
                          ∙ has-if (src == u && dst == v) (link hash c u v))));
          proper = ap (λ g. g.proper) grown ∙ ground (arith, none_yet, m.proper);
        }
      where
        both :
            (b k l x : Bool)
            → k ≡ true
            → l ≡ true
            → (if b && (k && l) then true else x) ≡ (if b then true else x)
        both b k l x p q = ground (arith, p, q)

    pub add_dst_lem :
        node hash c dst ≡ some true
        → (c' : Cache) × (add_dst hash hashsize olsr src dst c ≡ some c') × Linked src dst c c'
    unfolding add_dst
    add_dst_lem dst_there = elim (Option-cases (find_dst dst (e.dst_tab (hash dst)))) [
      | inl new ↦
          let links = changed-links put (λ x. refl) put-dst in
          (
            send_cmds (command cmd_add_link src dst 1 ∷ []) (set_entry hash src put c),
            rw (find_entry-entry hash olsr.interfaces c clean src, there, ◌>>=◌, new) refl,
            record {
              clean = changed-IsClean put (λ x. refl) (put-IsOk new);
              links = links;
              nodes = changed-nodes put (λ x. refl) (λ x. refl);
              mirrors = linked_graph dst_there new;
            },
          )
      | inr (d, old) ↦
          let links = changed-links mark (λ x. refl) (mark-dst d old) in
          (
            set_entry hash src mark c,
            rw (find_entry-entry hash olsr.interfaces c clean src, there, ◌>>=◌, old) refl,
            record {
              clean = changed-IsClean mark (λ x. refl) mark-IsOk;
              links = links;
              nodes = changed-nodes mark (λ x. refl) (λ x. refl);
              mirrors = λ m. record {
                known =
                    λ a. m.known a ∙ ap has (sym (changed-nodes mark (λ x. refl) (λ x. refl) a));
                links = λ u v.
                    m.links u v
                    ∙ rw (links u v) (elim (Bool-cases (src == u && dst == v)) [
                      | inl eq ↦ rw eq (known d old u v (ground (arith, eq)) (ground (arith, eq)))
                      | inr ne ↦ rw ne refl
                    ]);
                proper = m.proper;
              };
            },
          )
    ]
