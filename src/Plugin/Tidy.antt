-- ===== src/Plugin/Tidy.antt =====
-- What the removal leaves of a chain in which nothing is removed behind another entry.
use mathlib.Core.Option.{some-injective}
use mpolsr_testbed.Common.{
  ℕ, zero, suc, ◌+◌, ◌<◌, ◌≤◌, ◌==◌, ◌≡◌, ◌∙◌, refl, sym, ap, inl, inr, ==_iff, Bool, true, false,
  not, ◌||◌, Option, none, some, List, [], ◌∷◌, if◌then◌else◌, if_false, if_true, >>=-eq-some,
  Bool-cases, ltb, update, subst, arith,
}
use mpolsr_testbed.Plugin.{
  active_dsts, Cache, Dst, Entry, find_dst, Olsr, remove_entries, remove_useless_link,
}
use mpolsr_testbed.Plugin.Entries.{ChainOk, DstsOk, EntryOk, lookup_entry}
use mpolsr_testbed.Plugin.Faults.{
  any_idle, remove_entries-tc_tab, remove_useless_link-past, step_cases, tidy,
}

abbrev pub is_on : Option Bool → Bool
is_on none = false
is_on (some x) = x

abbrev pub pick_dst : Option Dst → Option Dst
pick_dst none = none
pick_dst (some d) = if d.is_active then some d else none

module _ (hash : ℕ → ℕ) (hashsize : ℕ) (olsr : Olsr) where
  abbrev pub trim : Entry → Entry
  trim e = record e {
    dst_tab =
        λ index. if ltb index hashsize then active_dsts (e.dst_tab index) else e.dst_tab index;
  }

  abbrev pub left_over : List Entry → List Entry
  left_over [] = []
  left_over (e ∷ chain) = if e.is_active then trim e ∷ left_over chain else left_over chain

  abbrev pub pick_entry : Option Entry → Option Entry
  pick_entry none = none
  pick_entry (some e) = if e.is_active then some (trim e) else none

  pub find-active_dsts :
      (i v : ℕ) (ds : List Dst)
      → DstsOk hash i ds
      → find_dst v (active_dsts ds) ≡ pick_dst (find_dst v ds)
  unfolding find_dst
  find-active_dsts i v [] ok = refl
  find-active_dsts i v (d ∷ ds) ok =
      let found = find-active_dsts i v ds ok.2 in
      elim (Bool-cases d.is_active) [
        | inl live ↦
            ap (find_dst v) (if_true d.is_active (d ∷ active_dsts ds) (active_dsts ds) live)
            ∙ by_live (d.dst_addr == v) _ _ live found
        | inr dead ↦
            ap (find_dst v) (if_false d.is_active (d ∷ active_dsts ds) (active_dsts ds) dead)
            ∙ by_dead (d.dst_addr == v) _ _ dead found
                (λ eq. subst (λ a. find_dst a ds ≡ none) ((==_iff d.dst_addr v).0 eq) ok.1)
      ]
    where
      by_live :
          (t : Bool) (o o' : Option Dst)
          → d.is_active ≡ true
          → o' ≡ pick_dst o
          → (if t then some d else o') ≡ pick_dst (if t then some d else o)
      by_live true o o' live e = sym (if_true d.is_active _ _ live)
      by_live false o o' live e = e

      by_dead :
          (t : Bool) (o o' : Option Dst)
          → d.is_active ≡ false
          → o' ≡ pick_dst o
          → (t ≡ true → o ≡ none)
          → o' ≡ pick_dst (if t then some d else o)
      by_dead true o o' dead e gone =
          e ∙ (ap pick_dst (gone refl) ∙ sym (if_false d.is_active _ _ dead))
      by_dead false o o' dead e gone = e

  active_dsts-DstsOk : (i : ℕ) (ds : List Dst) → DstsOk hash i ds → DstsOk hash i (active_dsts ds)
  active_dsts-DstsOk i [] ok = tt
  active_dsts-DstsOk i (d ∷ ds) ok = elim (Bool-cases d.is_active) [
    | inl live ↦ subst (DstsOk hash i) (sym (if_true d.is_active _ _ live)) (
      ok.0,
      find-active_dsts i d.dst_addr ds ok.2 ∙ ap pick_dst ok.1,
      active_dsts-DstsOk i ds ok.2,
    )
    | inr dead ↦
        subst (DstsOk hash i) (sym (if_false d.is_active _ _ dead)) (active_dsts-DstsOk i ds ok.2)
  ]

  pub lookup-left_over :
      (k a : ℕ) (chain : List Entry)
      → ChainOk hash olsr.interfaces k chain
      → lookup_entry a (left_over chain) ≡ pick_entry (lookup_entry a chain)
  lookup-left_over k a [] ok = refl
  lookup-left_over k a (e ∷ chain) ok =
      let found = lookup-left_over k a chain ok.2 in
      elim (Bool-cases e.is_active) [
        | inl live ↦
            ap (lookup_entry a)
              (if_true e.is_active (trim e ∷ left_over chain) (left_over chain) live)
            ∙ by_live (e.src_addr == a) _ _ live found
        | inr dead ↦
            ap (lookup_entry a)
              (if_false e.is_active (trim e ∷ left_over chain) (left_over chain) dead)
            ∙ by_dead (e.src_addr == a) _ _ dead found
                (λ eq. subst (λ b. lookup_entry b chain ≡ none) ((==_iff e.src_addr a).0 eq) ok.1)
      ]
    where
      by_live :
          (t : Bool) (o o' : Option Entry)
          → e.is_active ≡ true
          → o' ≡ pick_entry o
          → (if t then some (trim e) else o') ≡ pick_entry (if t then some e else o)
      by_live true o o' live h = sym (if_true e.is_active _ _ live)
      by_live false o o' live h = h

      by_dead :
          (t : Bool) (o o' : Option Entry)
          → e.is_active ≡ false
          → o' ≡ pick_entry o
          → (t ≡ true → o ≡ none)
          → o' ≡ pick_entry (if t then some e else o)
      by_dead true o o' dead h gone =
          h ∙ (ap pick_entry (gone refl) ∙ sym (if_false e.is_active _ _ dead))
      by_dead false o o' dead h gone = h

  trim-EntryOk :
      (k : ℕ) (e : Entry)
      → EntryOk hash olsr.interfaces k e
      → EntryOk hash olsr.interfaces k (trim e)
  trim-EntryOk k e ok = (
    ok.0,
    ok.1,
    ok.2,
    λ i. elim (Bool-cases (ltb i hashsize)) [
      | inl inside ↦ rw inside (active_dsts-DstsOk i (e.dst_tab i) (ok.3 i))
      | inr out ↦ rw out (ok.3 i)
    ],
  )

  pub left_over-ChainOk :
      (k : ℕ) (chain : List Entry)
      → ChainOk hash olsr.interfaces k chain
      → ChainOk hash olsr.interfaces k (left_over chain)
  left_over-ChainOk k [] ok = tt
  left_over-ChainOk k (e ∷ chain) ok = elim (Bool-cases e.is_active) [
    | inl live ↦ subst (ChainOk hash olsr.interfaces k) (sym (if_true e.is_active _ _ live)) (
      trim-EntryOk k e ok.0,
      lookup-left_over k e.src_addr chain ok.2 ∙ ap pick_entry ok.1,
      left_over-ChainOk k chain ok.2,
    )
    | inr dead ↦
        subst (ChainOk hash olsr.interfaces k) (sym (if_false e.is_active _ _ dead))
          (left_over-ChainOk k chain ok.2)
  ]

  left_behind :
      (chain : List Entry) (c : Cache) (r : List Entry × Cache)
      → any_idle chain ≡ false
      → remove_entries hash hashsize olsr false chain c ≡ some r
      → r.0 ≡ left_over chain
  unfolding remove_entries
  left_behind [] c r none_idle h = sym (ap (λ p. p.0) (some-injective ([], c) r h))
  left_behind (e ∷ chain) c r none_idle h =
      elim (step_cases e.freed e.is_active false _ none _ r h) [
        | inl (live, x) ↦
            let (q, runs, is) = >>=-eq-some (remove_entries hash hashsize olsr false chain _) _ x in
            sym (ap (λ p. p.0) (some-injective _ r is))
            ∙ (ap (λ l. trim e ∷ l)
                  (left_behind chain _ q (by_rest e.is_active (any_idle chain) none_idle) runs)
                ∙ sym (if_true e.is_active _ _ live))
        | inr (inl (dead, head, y)) ↦ absurd (ground (arith, head))
        | inr (inr (dead, _, z)) ↦ absurd (by_head e.is_active (any_idle chain) dead none_idle)
      ]
    where
      by_rest : (a i : Bool) → not a || i ≡ false → i ≡ false
      by_rest a i h = ground arith

      by_head : (a i : Bool) → a ≡ false → ¬ (not a || i ≡ false)
      by_head a i dead h = ground arith

  remove_entries-left_over :
      (chain : List Entry) (c : Cache) (r : List Entry × Cache)
      → tidy chain ≡ true
      → remove_entries hash hashsize olsr true chain c ≡ some r
      → r.0 ≡ left_over chain
  unfolding remove_entries
  remove_entries-left_over [] c r is_tidy h = sym (ap (λ p. p.0) (some-injective ([], c) r h))
  remove_entries-left_over (e ∷ chain) c r is_tidy h =
      elim (step_cases e.freed e.is_active true _ _ none r h) [
        | inl (live, x) ↦
            let (q, runs, is) = >>=-eq-some (remove_entries hash hashsize olsr false chain _) _ x in
            sym (ap (λ p. p.0) (some-injective _ r is))
            ∙ (ap (λ l. trim e ∷ l)
                  (left_behind chain _ q (by_live e.is_active (any_idle chain) _ live is_tidy) runs)
                ∙ sym (if_true e.is_active _ _ live))
        | inr (inl (dead, _, y)) ↦
            remove_entries-left_over chain _ r (by_dead e.is_active (any_idle chain) _ dead is_tidy)
              y
            ∙ sym (if_false e.is_active _ _ dead)
        | inr (inr (dead, head, z)) ↦ absurd (ground (arith, head))
      ]
    where
      by_live : (a i t : Bool) → a ≡ true → (if a then not i else t) ≡ true → i ≡ false
      by_live a i t live h = ground arith

      by_dead : (a i t : Bool) → a ≡ false → (if a then not i else t) ≡ true → t ≡ true
      by_dead a i t dead h = ground arith

  -- The chains that the loop goes through keep what is left over.
  pub remove_useless_link-left_over :
      (k index n : ℕ) (c c' : Cache)
      → index ≤ k
      → k < index + n
      → tidy (c.tc_tab k) ≡ true
      → remove_useless_link hash hashsize olsr index n c ≡ some c'
      → c'.tc_tab k ≡ left_over (c.tc_tab k)
  unfolding remove_useless_link
  remove_useless_link-left_over k index zero c c' above below is_tidy h =
      absurd (omega (arith, above, below))
  remove_useless_link-left_over k index (suc n) c c' above below is_tidy h =
      let (q, runs, more) =
        >>=-eq-some (remove_entries hash hashsize olsr true (c.tc_tab index) c) _ h in
      elim (Bool-cases (index == k)) [
        | inl eq ↦
            let same : index ≡ k = (==_iff index k).0 eq in
            remove_useless_link-past hash hashsize olsr (index + 1) n k _ c' (omega (arith, same))
              more
            ∙ (put q.0 q.1.tc_tab eq
                ∙ (remove_entries-left_over (c.tc_tab index) c q
                      (ap (λ j. tidy (c.tc_tab j)) same ∙ is_tidy) runs
                    ∙ ap (λ j. left_over (c.tc_tab j)) same))
        | inr ne ↦
            let kept =
              by_key q.0 q.1.tc_tab ne
              ∙ ap (λ t. t k)
                  (remove_entries-tc_tab hash hashsize olsr true (c.tc_tab index) c q runs) in
            remove_useless_link-left_over k (index + 1) n _ c' (ground (arith, ne)) (omega arith)
              (ap tidy kept ∙ is_tidy) more
            ∙ ap left_over kept
      ]
    where
      put : (l : List Entry) (t : ℕ → List Entry) → (index == k) ≡ true → update t index l k ≡ l
      put l t eq = ground (arith, eq)

      by_key :
          (l : List Entry) (t : ℕ → List Entry) → (index == k) ≡ false → update t index l k ≡ t k
      by_key l t ne = ground (arith, ne)

  -- The chains outside of the table do not change.
  pub remove_useless_link-outside :
      (k index n : ℕ) (c c' : Cache)
      → index + n ≤ k
      → remove_useless_link hash hashsize olsr index n c ≡ some c'
      → c'.tc_tab k ≡ c.tc_tab k
  unfolding remove_useless_link
  remove_useless_link-outside k index zero c c' above h =
      sym (ap (λ d. d.tc_tab k) (some-injective c c' h))
  remove_useless_link-outside k index (suc n) c c' above h =
      let (q, runs, more) =
        >>=-eq-some (remove_entries hash hashsize olsr true (c.tc_tab index) c) _ h in
      remove_useless_link-outside k (index + 1) n _ c' (omega (arith, above)) more
      ∙ (by_key q.0 q.1.tc_tab
          ∙ ap (λ t. t k) (remove_entries-tc_tab hash hashsize olsr true (c.tc_tab index) c q runs))
    where
      by_key : (l : List Entry) (t : ℕ → List Entry) → update t index l k ≡ t k
      by_key l t = ground (arith, above)
