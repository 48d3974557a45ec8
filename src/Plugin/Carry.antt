-- ===== src/Plugin/Carry.antt =====
-- The commands in the module: what a write to the device makes of its store.
use mathlib.Core.Option.{some-injective}
use mpolsr_testbed.Common.{
  ℕ, ◌+◌, ◌*◌, ◌==◌, ◌≡◌, ◌∙◌, refl, sym, subst, ap, inl, inr, Bool, true, false, ◌&&◌, ◌||◌,
  Option, none, some, List, [], ◌∷◌, All, memb, length, Bool-cases, Option-cases, arith,
}
use mpolsr_testbed.Tc.{Topology}
use mpolsr_testbed.Tc.Hash.{get_node}
use mpolsr_testbed.Tc.Lookup.{lookup}
use mpolsr_testbed.Tc.Network.{Network, Same, view, with_arc, with_node, without_arc, without_node}
use mpolsr_testbed.Tc.WellFormed.{get_node-of_lookup, IsWellFormed}
use mpolsr_testbed.Tc.WellFormed.Edges.{IsFreshLink}
use mpolsr_testbed.Device.{
  Alloc, cmd_add_link, cmd_add_node, cmd_remove_link, cmd_remove_node, device_write, run_token,
  Token, token_size,
}
use mpolsr_testbed.Device.Accept.{IsAccepted, run_token-IsWellFormed}
use mpolsr_testbed.Device.Step.{
  alias_added, alias_dropped, alias_removed, alias_unknown, arc_added, arc_dropped, arc_removed,
  no_arc, node_added, node_dropped, node_removed, other, reset, run_token-Step, Step,
}
use mpolsr_testbed.Device.Write.{device_write-encode_tokens, encode_tokens, IsToken, run_tokens}
use mpolsr_testbed.Plugin.Links.{Graph, is_proper, run_command, run_commands}
use mpolsr_testbed.Plugin.Store.{has_node, Matches, Matches-Same}
use mpolsr_testbed.Plugin.Store.Nodes.{node_added-Matches, node_removed-Matches}
use mpolsr_testbed.Plugin.Store.Arcs.{arc_added-Matches, arc_removed-Matches, no_arc-Matches}

-- A command for a node or a link, not for an alias.
abbrev pub is_plain : Token → Bool
is_plain t =
    (t.kind == cmd_add_node || t.kind == cmd_remove_node)
    || (t.kind == cmd_add_link || t.kind == cmd_remove_link)

abbrev pub IsPlain : Token → Type 0
IsPlain t = is_plain t ≡ true

-- All allocations of a round give memory that is not in use.
pub record IsServed (alloc : Alloc) (s : Topology) : Type 0 where
  pub node : (p : ℕ) × (alloc.node ≡ some p) × (memb p s.node_lst ≡ false)
  pub link : (l : ℕ) × (alloc.link ≡ some l) × IsFreshLink s l
  pub addr : alloc.addr ≡ true
  pub local_link : alloc.local_link ≡ true

abbrev pub Serves : (ℕ → Alloc) → ℕ → List Token → Topology → Type 0
Serves alloc round [] s = Unit
Serves alloc round (t ∷ ts) s =
    IsServed (alloc round) s
    × ((s' : Topology) → run_token (alloc round) t s ≡ some s' → Serves alloc (round + 1) ts s')

nothing : (p : ℕ) → ¬ (◌≡◌ {A = Option ℕ} none (some p))
nothing p e = cc

-- Graphs with the same nodes and links.
Matches-graph :
    (h : Network) (g k : Graph)
    → ((a : ℕ) → k.known a ≡ g.known a)
    → ((u v : ℕ) → k.links u v ≡ g.links u v)
    → Matches h g
    → Matches h k
Matches-graph h g k nodes arcs m = record {
  known = λ a. m.known a ∙ sym (nodes a);
  named = m.named;
  ends = m.ends;
  present = λ a b there. m.present a b (sym (arcs a b) ∙ there);
  only = λ l p q c a b at from to. arcs a b ∙ m.only l p q c a b at from to;
  once = m.once;
}

module _ (alloc : Alloc) (t : Token) (s : Topology) (g : Graph) (wf : IsWellFormed s)
    (m : Matches (view s) g) (served : IsServed alloc s) (plain : IsPlain t)
    (proper : is_proper t g ≡ true) where
  unknown-lookup : (a : ℕ) → g.known a ≡ false → lookup s a ≡ none
  unknown-lookup a new = elim (Option-cases (lookup s a)) [
    | inl free ↦ free
    | inr (e, at) ↦
        absurd (ground (arith, sym (m.known a) ∙ ap has_node (get_node-of_lookup s a e at), new))
  ]

  known-node : (a : ℕ) → g.known a ≡ true → (n : ℕ) × (get_node s a ≡ some n)
  known-node a there = elim (Option-cases (get_node s a)) [
    | inl free ↦ absurd (ground (arith, sym (m.known a) ∙ ap has_node free, there))
    | inr (n, at) ↦ (n, at)
  ]

  token-IsAccepted : IsAccepted alloc t s
  token-IsAccepted = record {
    fresh_node = λ p e.
        let (q, gives, fresh) = served.node in
        ap (λ n. memb n s.node_lst) (some-injective p q (sym e ∙ gives)) ∙ fresh;
    fresh_link = λ l e.
        let (k, gives, fresh) = served.link in
        subst (IsFreshLink s) (some-injective k l (sym gives ∙ e)) fresh;
    new_node = λ k. unknown-lookup t.addr_1 (ground (arith, k, proper));
    known_node = λ k. known-node t.addr_1 (ground (arith, k, proper));
    new_alias = λ k. absurd (ground (arith, k, plain));
    no_main = λ k. absurd (ground (arith, k, plain));
  }

  fresh-main : (p : ℕ) → alloc.node ≡ some p → (view s).main p ≡ none
  fresh-main p e = rw (token-IsAccepted.fresh_node p e) refl

  fresh-arc : (l : ℕ) → alloc.link ≡ some l → (view s).arc l ≡ none
  fresh-arc l e = elim (Bool-cases (memb (s.src_node l) s.node_lst)) [
    | inl in_list ↦ rw (in_list, (token-IsAccepted.fresh_link l e (s.src_node l) in_list).0) refl
    | inr out ↦ rw out refl
  ]

  unchanged :
      (h : Network)
      → t.kind ≡ cmd_add_link
      → (g.known t.addr_1 && g.known t.addr_2) ≡ false
      → Same (view s) h
      → Matches h (run_command t g)
  unchanged h k unknown same =
      Matches-graph h g (run_command t g) (λ a. rw k refl) (λ u v. ground (arith, k, unknown))
        (Matches-Same (view s) h g same m)

  -- A step of the network is the command on the graph.
  step-Matches : (h : Network) → Step alloc t (view s) h → Matches h (run_command t g)
  step-Matches h (reset k same) = absurd (ground (arith, k, plain))
  step-Matches h (node_added p k gives same) =
      let new : g.known t.addr_1 ≡ false = ground (arith, k, proper) in
      Matches-graph h _ (run_command t g) (λ a. rw k refl) (λ u v. rw k refl)
        (Matches-Same (with_node p t.addr_1 (view s)) h _ same
          (node_added-Matches (view s) g m p t.addr_1 (fresh-main p gives) new))
  step-Matches h (node_dropped k (inl no_memory) same) =
      let (p, gives, _) = served.node in absurd (nothing p (sym no_memory ∙ gives))
  step-Matches h (node_dropped k (inr no_memory) same) =
      absurd (ground (arith, served.addr, no_memory))
  step-Matches h (node_removed n k there same) =
      Matches-graph h _ (run_command t g) (λ a. rw k refl) (λ u v. rw k refl)
        (Matches-Same (without_node n (view s)) h _ same
          (node_removed-Matches (view s) g m n t.addr_1 there))
  step-Matches h (arc_added l u v k gives from to same) =
      let new : g.links t.addr_1 t.addr_2 ≡ false = ground (arith, k, proper) in
      Matches-graph h _ (run_command t g) (λ a. rw k refl) (λ x y. rw k refl)
        (Matches-Same (with_arc l u v t.value (view s)) h _ same (
          arc_added-Matches (view s) g m l u v t.value t.addr_1 t.addr_2 from to (fresh-arc l gives)
            new))
  step-Matches h (arc_dropped k (inl (inl no_memory)) same) =
      let (l, gives, _) = served.link in absurd (nothing l (sym no_memory ∙ gives))
  step-Matches h (arc_dropped k (inl (inr no_memory)) same) =
      absurd (ground (arith, served.local_link, no_memory))
  step-Matches h (arc_dropped k (inr (inl free)) same) =
      unchanged h k (ground (arith, sym (m.known t.addr_1) ∙ ap has_node free)) same
  step-Matches h (arc_dropped k (inr (inr free)) same) =
      unchanged h k (ground (arith, sym (m.known t.addr_2) ∙ ap has_node free)) same
  step-Matches h (arc_removed l u v c k from at main same) =
      Matches-graph h _ (run_command t g) (λ a. rw k refl) (λ x y. rw k refl)
        (Matches-Same (without_arc l (view s)) h _ same
          (arc_removed-Matches (view s) g m l u v c t.addr_1 t.addr_2 from at main))
  step-Matches h (no_arc k none_there same) =
      Matches-graph h _ (run_command t g) (λ a. rw k refl) (λ x y. rw k refl)
        (Matches-Same (view s) h _ same (no_arc-Matches (view s) g m t.addr_1 t.addr_2 none_there))
  step-Matches h (alias_added n k there same) = absurd (ground (arith, k, plain))
  step-Matches h (alias_dropped k why same) = absurd (ground (arith, k, plain))
  step-Matches h (alias_removed k same) = absurd (ground (arith, k, plain))
  step-Matches h (alias_unknown k free same) = absurd (ground (arith, k, plain))
  step-Matches h (other a b c d e f i same) = absurd (ground (arith, b, c, d, e, plain))

  token-Matches :
      (s' : Topology) × (run_token alloc t s ≡ some s')
      × IsWellFormed s'
      × Matches (view s') (run_command t g)
  token-Matches =
      let (s', runs, wf') = run_token-IsWellFormed alloc t s wf token-IsAccepted in
      (s', runs, wf', step-Matches (view s') (run_token-Step alloc t s wf token-IsAccepted s' runs))

-- A run that is proper began with a proper command.
run_commands-improper :
    (ts : List Token) (g : Graph) → g.proper ≡ false → (run_commands ts g).proper ≡ false
run_commands-improper [] g bad = bad
run_commands-improper (t ∷ ts) g bad =
    run_commands-improper ts (run_command t g) (ground (arith, bad))

first_proper :
    (t : Token) (ts : List Token) (g : Graph)
    → (run_commands (t ∷ ts) g).proper ≡ true
    → is_proper t g ≡ true
first_proper t ts g h = elim (Bool-cases (is_proper t g)) [
  | inl ok ↦ ok
  | inr bad ↦ absurd (ground (arith, h, run_commands-improper ts (run_command t g) (rw bad refl)))
]

run_tokens-Matches :
    (alloc : ℕ → Alloc) (round : ℕ) (ts : List Token) (s : Topology) (g : Graph)
    → All IsPlain ts
    → IsWellFormed s
    → Serves alloc round ts s
    → Matches (view s) g
    → (run_commands ts g).proper ≡ true
    → (s' : Topology) × (run_tokens alloc (λ i. true) round ts s ≡ some s')
      × Matches (view s') (run_commands ts g)
run_tokens-Matches alloc round [] s g plain wf served m proper = (s, refl, m)
run_tokens-Matches alloc round (t ∷ ts) s g plain wf served m proper =
    let (s1, runs, wf1, m1) =
      token-Matches (alloc round) t s g wf m served.0 plain.0 (first_proper t ts g proper) in
    let (s', rest, m') =
      run_tokens-Matches alloc (round + 1) ts s1 (run_command t g) plain.1 wf1 (served.1 s1 runs) m1
        proper in
    (s', rw runs rest, m')

pub device_write-run_commands :
    (alloc : ℕ → Alloc) (ts : List Token) (s : Topology) (g : Graph)
    → All IsToken ts
    → All IsPlain ts
    → IsWellFormed s
    → Serves alloc 0 ts s
    → Matches (view s) g
    → (run_commands ts g).proper ≡ true
    → (s' : Topology) × (device_write alloc (λ i. true) (encode_tokens ts) s
        ≡ some (token_size * length ts, s'))
      × Matches (view s') (run_commands ts g)
device_write-run_commands alloc ts s g words plain wf served m proper =
    let (s', runs, m') = run_tokens-Matches alloc 0 ts s g plain wf served m proper in
    (s', device_write-encode_tokens alloc (λ i. true) ts s words ∙ rw runs refl, m')
