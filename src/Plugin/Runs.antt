-- ===== src/Plugin/Runs.antt =====
-- Rounds one after the other, each with what olsrd tells then.
use mathlib.Core.Option.{some-injective}
use mpolsr_testbed.Common.{
  if_false, if_true, ℕ, zero, suc, ◌<◌, ◌==◌, ◌≡◌, ◌∙◌, ◌⊎◌, refl, sym, ap, inl, inr, ==_iff,
  lt→ltb, Bool, true, false, ◌&&◌, Option, none, some, List, [], ◌∷◌, ◌++◌, ◌>>=◌, Bool-cases, ltb,
  subst, arith,
}
use mpolsr_testbed.Plugin.{Cache, check_data, Entry, find_dst, Olsr}
use mpolsr_testbed.Plugin.Entries.{
  node, ChainOk, dst_active, dst_of, entry, entry-IsOk, entry_active, IsClean, link, lookup_entry,
}
use mpolsr_testbed.Plugin.Links.{has, Mirrors, told}
use mpolsr_testbed.Plugin.Rounds.{wanted}
use mpolsr_testbed.Plugin.Told.{listed}
use mpolsr_testbed.Plugin.Faults.{check_data_faults, no_some, tidy}
use mpolsr_testbed.Plugin.Tidy.{
  trim, find-active_dsts, is_on, left_over, left_over-ChainOk, lookup-left_over, pick_dst,
  pick_entry, remove_useless_link-left_over, remove_useless_link-outside,
}
use mpolsr_testbed.Plugin.Mirror.{check_data-RoundEnds, RoundEnds}

-- The rounds, one for each state of olsrd.
unfoldable pub check_all : (ℕ → ℕ) → ℕ → List Olsr → Cache → Option Cache
check_all hash hashsize [] c = some c
check_all hash hashsize (olsr ∷ rounds) c =
    check_data hash hashsize olsr c >>= check_all hash hashsize rounds

-- The addresses of the local machine do not change.
abbrev pub Shares : List ℕ → List Olsr → Type 0
Shares interfaces [] = Unit
Shares interfaces (olsr ∷ rounds) = (olsr.interfaces ≡ interfaces) × Shares interfaces rounds

abbrev pub all_tidy : ℕ → (ℕ → List Entry) → Bool
all_tidy zero tab = true
all_tidy (suc n) tab = tidy (tab n) && all_tidy n tab

tidy_at : (n k : ℕ) (tab : ℕ → List Entry) → all_tidy n tab ≡ true → k < n → tidy (tab k) ≡ true
tidy_at zero k tab h below = absurd (omega arith)
tidy_at (suc n) k tab h below = elim (Bool-cases (n == k)) [
  | inl eq ↦ ap (λ j. tidy (tab j)) (sym ((==_iff n k).0 eq)) ∙ ground (arith, h)
  | inr ne ↦ tidy_at n k tab (ground (arith, h)) (ground (arith, ne))
]

untidy_at :
    (n : ℕ) (tab : ℕ → List Entry)
    → all_tidy n tab ≡ false
    → (k : ℕ) × (k < n) × (tidy (tab k) ≡ false)
untidy_at zero tab h = absurd (ground arith)
untidy_at (suc n) tab h = elim (Bool-cases (tidy (tab n))) [
  | inl fine ↦
      let (k, below, is) = untidy_at n tab (ground (arith, h, fine)) in
      (k, omega (arith, below), is)
  | inr bad ↦ (n, omega arith, bad)
]

has-pick :
    (hash : ℕ → ℕ) (v : ℕ) (ds : _)
    → has (dst_active hash (pick_dst ds)) ≡ is_on (dst_active hash ds)
has-pick hash v none = refl
has-pick hash v (some d) = elim (Bool-cases d.is_active) [
  | inl live ↦ rw live refl
  | inr dead ↦ rw dead refl
]

module _ (hash : ℕ → ℕ) (hashsize : ℕ) (bound : (a : ℕ) → hash a < hashsize) where
  module _ (olsr : Olsr) (c c3 c' : Cache) (round : RoundEnds hash hashsize olsr bound c c3 c')
      (all : all_tidy hashsize c3.tc_tab ≡ true) where
    at_key : (k : ℕ) → k < hashsize → c'.tc_tab k ≡ left_over hash hashsize olsr (c3.tc_tab k)
    at_key k below =
        remove_useless_link-left_over hash hashsize olsr k 0 hashsize c3 c' (omega arith)
          (omega (arith, below)) (tidy_at hashsize k c3.tc_tab all below) round.removal

    settled-IsClean : IsClean hash olsr.interfaces c'
    settled-IsClean k = elim (Bool-cases (ltb k hashsize)) [
      | inl inside ↦
          subst (ChainOk hash olsr.interfaces k) (sym (at_key k (ground (arith, inside))))
            (left_over-ChainOk hash hashsize olsr k (c3.tc_tab k) (round.ready.clean k))
      | inr out ↦
          subst (ChainOk hash olsr.interfaces k)
            (sym (
              remove_useless_link-outside hash hashsize olsr k 0 hashsize c3 c'
                (ground (arith, out)) round.removal))
            (round.ready.clean k)
    ]

    settled-link :
        (u v : ℕ)
        → link hash c' u v
          ≡ dst_active hash (dst_of hash v (pick_entry hash hashsize olsr (entry hash c3 u)))
    settled-link u v =
        ap (λ o. dst_active hash (dst_of hash v o))
          (ap (lookup_entry u) (at_key (hash u) (bound u))
            ∙ lookup-left_over hash hashsize olsr (hash u) u (c3.tc_tab (hash u))
                (round.ready.clean (hash u)))

    picked :
        (u v : ℕ) (o : Option Entry)
        → entry hash c3 u ≡ o
        → is_on (dst_active hash (dst_of hash v o))
          ≡ has (dst_active hash (dst_of hash v (pick_entry hash hashsize olsr o)))
    picked u v none h = refl
    picked u v (some e) h = elim (Bool-cases e.is_active) [
      | inl live ↦ sym (
          ap (λ o. has (dst_active hash (dst_of hash v o)))
            (if_true e.is_active (some (trim hash hashsize olsr e)) none live)
          ∙ (ap (λ ds. has (dst_active hash (find_dst v ds)))
                (if_true (ltb (hash v) hashsize) _ _ (lt→ltb (hash v) hashsize (bound v)))
              ∙ (ap (λ o. has (dst_active hash o))
                    (find-active_dsts hash hashsize olsr (hash v) v (e.dst_tab (hash v))
                      ((entry-IsOk hash olsr.interfaces c3 round.ready.clean u e h).0.3 (hash v)))
                  ∙ has-pick hash v (find_dst v (e.dst_tab (hash v))))))
      | inr dead ↦
          off_link dead (dst_active hash (find_dst v (e.dst_tab (hash v)))) refl
          ∙ sym (
              ap (λ o. has (dst_active hash (dst_of hash v o)))
                (if_false e.is_active (some (trim hash hashsize olsr e)) none dead))
    ]
      where
        off_link :
            e.is_active ≡ false
            → (o : Option Bool) → dst_active hash (find_dst v (e.dst_tab (hash v))) ≡ o
            → is_on o ≡ false
        off_link dead none p = refl
        off_link dead (some false) p = refl
        off_link dead (some true) p =
            let on = round.ready.ends u v (ap (λ x. dst_active hash (dst_of hash v x)) h ∙ p) in
            absurd (
              ground (
                arith,
                dead,
                some-injective e.is_active true (sym (ap (entry_active hash) h) ∙ on.0),
              ))

    settled-node :
        (a : ℕ)
        → node hash c' a ≡ entry_active hash (pick_entry hash hashsize olsr (entry hash c3 a))
    settled-node a = ap (entry_active hash) (
        ap (lookup_entry a) (at_key (hash a) (bound a))
        ∙ lookup-left_over hash hashsize olsr (hash a) a (c3.tc_tab (hash a))
            (round.ready.clean (hash a)))

    picked_node :
        (o : Option Entry)
        → is_on (entry_active hash o) ≡ has (entry_active hash (pick_entry hash hashsize olsr o))
    picked_node none = refl
    picked_node (some e) = elim (Bool-cases e.is_active) [
      | inl live ↦
          live
          ∙ sym (
              ap (λ o. has (entry_active hash o))
                (if_true e.is_active (some (trim hash hashsize olsr e)) none live))
      | inr dead ↦
          dead
          ∙ sym (
              ap (λ o. has (entry_active hash o))
                (if_false e.is_active (some (trim hash hashsize olsr e)) none dead))
    ]

    settled-Mirrors : Mirrors hash c'
    settled-Mirrors = record {
      known = λ a. round.nodes a ∙ (picked_node (entry hash c3 a) ∙ sym (ap has (settled-node a)));
      links = λ u v.
          round.links u v ∙ (picked u v (entry hash c3 u) refl ∙ sym (ap has (settled-link u v)));
      proper = round.proper;
    }

  -- The module has exactly the links of olsrd's topology that are wanted, knows the nodes at both ends of each,
  -- and every command so far was proper.
  pub record Tells (olsr : Olsr) (c' : Cache) : Type 0 where
    pub links :
        (u v : ℕ) → (told c').links u v ≡ listed olsr.tc u v && wanted hash hashsize olsr u v
    pub ends :
        (u v : ℕ)
        → (told c').links u v ≡ true
        → ((told c').known u ≡ true) × ((told c').known v ≡ true)
    pub proper : (told c').proper ≡ true

  RoundEnds-Tells :
      (olsr : Olsr) (c c3 c' : Cache) → RoundEnds hash hashsize olsr bound c c3 c' → Tells olsr c'
  RoundEnds-Tells olsr c c3 c' round = record {
    links = λ u v. round.links u v ∙ round.wanted u v;
    ends = λ u v h. by_link u v (link hash c3 u v) refl (sym (round.links u v) ∙ h);
    proper = round.proper;
  }
    where
      by_link :
          (u v : ℕ) (o : Option Bool)
          → link hash c3 u v ≡ o
          → is_on o ≡ true
          → ((told c').known u ≡ true) × ((told c').known v ≡ true)
      by_link u v none at h = absurd (ground (arith, h))
      by_link u v (some x) at h =
          let both = round.ready.ends u v (at ∙ ap some h) in
          (round.nodes u ∙ ap is_on both.0, round.nodes v ∙ ap is_on both.1)

  abbrev pub InOrder : Olsr → Cache → Type 0
  InOrder olsr c = IsClean hash olsr.interfaces c × Mirrors hash c

  -- Let hash stay below hashsize, the chains of the cache be in order, and the commands sent so far be proper
  -- and make exactly the nodes and links of the cache, where, as in tc_add_link, a link counts only when the nodes at
  -- both ends are known already. Then a round does not fault, and all commands sent with it are proper and make
  -- exactly the links of olsrd's topology, except those that lead from an address of the local machine to one that is
  -- no symmetric neighbour, with the nodes at both ends of each. After it, either the chains are in order and
  -- the commands make the nodes and links of the cache again, or every next round faults.
  pub check_data_outcome :
      (olsr : Olsr) (c : Cache)
      → IsClean hash olsr.interfaces c
      → Mirrors hash c
      → (c' : Cache) × (check_data hash hashsize olsr c ≡ some c')
        × Tells olsr c'
        × (InOrder olsr c' ⊎ ((olsr' : Olsr) → check_data hash hashsize olsr' c' ≡ none))
  check_data_outcome olsr c clean m =
      let (c3, c', round) = check_data-RoundEnds hash hashsize olsr bound c clean m in
      (
        c',
        round.runs,
        RoundEnds-Tells olsr c c3 c' round,
        elim (Bool-cases (all_tidy hashsize c3.tc_tab)) [
          | inl all ↦
              inl (settled-IsClean olsr c c3 c' round all, settled-Mirrors olsr c c3 c' round all)
          | inr some_bad ↦
              let (k, below, bad) = untidy_at hashsize c3.tc_tab some_bad in
              inr (λ olsr'.
                check_data_faults hash hashsize olsr olsr' k c3 c' below bad round.removal)
        ],
      )

  next :
      (olsr : Olsr) (rounds : List Olsr) (c c1 c' : Cache)
      → check_data hash hashsize olsr c ≡ some c1
      → check_all hash hashsize (olsr ∷ rounds) c ≡ some c'
      → check_all hash hashsize rounds c1 ≡ some c'
  unfolding check_all
  next olsr rounds c c1 c' runs h = sym (ap (λ m. m >>= check_all hash hashsize rounds) runs) ∙ h

  -- Let hash stay below hashsize, the addresses of the local machine be the same in all rounds, the chains of the
  -- cache be in order, the commands sent so far be proper and make exactly the nodes and links of the cache, and no
  -- round fault. Then after all rounds the commands sent are proper and make exactly the links of the last topology,
  -- except those that lead from an address of the local machine to one that is no symmetric neighbour of the last
  -- round, with the nodes at both ends of each. A link counts only when both its nodes are known, as in tc_add_link.
  pub check_all_lem :
      (interfaces : List ℕ) (rounds : List Olsr) (last : Olsr) (c c' : Cache)
      → Shares interfaces (rounds ++ (last ∷ []))
      → IsClean hash interfaces c
      → Mirrors hash c
      → check_all hash hashsize (rounds ++ (last ∷ [])) c ≡ some c'
      → Tells last c'
  unfolding check_all
  check_all_lem interfaces [] last c c' shares clean m h =
      let (c1, runs, tells, _) =
        check_data_outcome last c (subst (λ i. IsClean hash i c) (sym shares.0) clean) m in
      subst (Tells last) (some-injective c1 c' (next last [] c c1 c' runs h)) tells
  check_all_lem interfaces (olsr ∷ rounds) last c c' shares clean m h =
      let (c1, runs, tells, after) =
        check_data_outcome olsr c (subst (λ i. IsClean hash i c) (sym shares.0) clean) m in
      elim after [
        | inl ok ↦
            check_all_lem interfaces rounds last c1 c' shares.1
              (subst (λ i. IsClean hash i c1) shares.0 ok.0) ok.1
              (next olsr (rounds ++ (last ∷ [])) c c1 c' runs h)
        | inr faults ↦
            absurd (all_bad rounds c1 c' faults (next olsr (rounds ++ (last ∷ [])) c c1 c' runs h))
      ]
    where
      all_bad :
          (os : List Olsr) (d d' : Cache)
          → ((olsr' : Olsr) → check_data hash hashsize olsr' d ≡ none)
          → ¬ (check_all hash hashsize (os ++ (last ∷ [])) d ≡ some d')
      all_bad [] d d' faults is =
          no_some d' (sym (ap (λ m. m >>= check_all hash hashsize []) (faults last)) ∙ is)
      all_bad (o ∷ os) d d' faults is =
          no_some d'
            (sym (ap (λ m. m >>= check_all hash hashsize (os ++ (last ∷ []))) (faults o)) ∙ is)
