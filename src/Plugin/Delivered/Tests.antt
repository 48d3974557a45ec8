-- ===== src/Plugin/Delivered/Tests.antt =====
-- A round of the plugin whose commands are written to the device.
use mathlib.Core.Option.{some-injective}
use mpolsr_testbed.Common.{
  ℕ, ◌+◌, ◌*◌, ◌%◌, ◌<◌, ◌≡◌, ◌∙◌, ap, sym, subst, refl, inl, inr, true, Option, none, some, List,
  [], ◌∷◌, All, ltb, length, Bool-cases, arith,
}
use mpolsr_testbed.Tc.{Topology}
use mpolsr_testbed.Tc.Hash.{add_node_addr, find_addr}
use mpolsr_testbed.Tc.Nodes.{add_node, clear_node}
use mpolsr_testbed.Tc.Network.{view}
use mpolsr_testbed.Tc.Tests.{blank, blank-IsWellFormed, one_node, two_nodes}
use mpolsr_testbed.Device.{Alloc, device_write, run_token, Token, token_size}
use mpolsr_testbed.Device.Write.{encode_tokens, IsToken}
use mpolsr_testbed.Plugin.{
  activate_dst, activate_node, add_aliases, add_dst, add_edges, add_mid, add_mids, add_tc,
  add_tc_link, Cache, change_entry, check_data, create_node, find_dst, find_entry, init_cache,
  is_in_neighbourhood, remove_useless_mid, reset_active_flag, reset_chain, reset_tab, Olsr,
  remove_entries, remove_useless_link, rmv_all_links,
}
use mpolsr_testbed.Plugin.Entries.{IsClean, link, node}
use mpolsr_testbed.Plugin.Links.{has, Mirrors}
use mpolsr_testbed.Plugin.Runs.{check_all}
use mpolsr_testbed.Plugin.Carry.{IsPlain, IsServed, Serves}
use mpolsr_testbed.Plugin.Delivered.{Carries, check_all-device_write}

abbrev by_four : ℕ → ℕ
by_four a = a % 4

by_four_bound : (a : ℕ) → by_four a < 4
by_four_bound a = omega arith

abbrev start : Cache
start = init_cache 4 (record { tc_tab = λ index. []; mid_tc = []; sent = [] })

start-IsClean : IsClean by_four (10 ∷ []) start
unfolding init_cache
start-IsClean k = elim (Bool-cases (ltb k 4)) [ inl inside ↦ rw inside tt | inr out ↦ rw out tt ]

no_node : (a : ℕ) → node by_four start a ≡ none
unfolding init_cache
no_node a = elim (Bool-cases (ltb (by_four a) 4)) [
  | inl inside ↦ rw inside refl
  | inr out ↦ rw out refl
]

no_link : (u v : ℕ) → link by_four start u v ≡ none
unfolding init_cache
no_link u v = elim (Bool-cases (ltb (by_four u) 4)) [
  | inl inside ↦ rw inside refl
  | inr out ↦ rw out refl
]

start-Mirrors : Mirrors by_four start
unfolding init_cache
start-Mirrors = record {
  known = λ a. sym (ap has (no_node a));
  links = λ u v. sym (ap has (no_link u v));
  proper = refl;
}

-- The local machine 10 has the neighbour 20, and the topology lists the link between them.
abbrev near : Olsr
near = record {
  interfaces = 10 ∷ [];
  neighbours = (20, true) ∷ [];
  tc = (10, 20 ∷ []) ∷ [];
  mid_set = [];
}

abbrev or_start : Option Cache → Cache
or_start none = start
or_start (some c) = c

abbrev after : Cache
after = or_start (check_all by_four 4 (near ∷ []) start)

near_runs : check_all by_four 4 (near ∷ []) start ≡ some after
unfolding check_all check_data reset_active_flag reset_tab reset_chain add_tc add_edges add_tc_link
    find_entry activate_node create_node add_dst find_dst change_entry activate_dst
    is_in_neighbourhood add_mids add_aliases add_mid remove_useless_mid remove_useless_link
    remove_entries rmv_all_links init_cache
near_runs = refl

abbrev command : ℕ → ℕ → ℕ → ℕ → Token
command kind addr_1 addr_2 value = record {
  kind = kind;
  addr_1 = addr_1;
  addr_2 = addr_2;
  value = value;
}

abbrev commands : List Token
commands = command 2 10 0 0 ∷ command 2 20 0 0 ∷ command 4 10 20 1 ∷ []

near_sent : commands ≡ after.sent
unfolding check_all check_data reset_active_flag reset_tab reset_chain add_tc add_edges add_tc_link
    find_entry activate_node create_node add_dst find_dst change_entry activate_dst
    is_in_neighbourhood add_mids add_aliases add_mid remove_useless_mid remove_useless_link
    remove_entries rmv_all_links init_cache
near_sent = refl

abbrev alloc : ℕ → Alloc
alloc i = record { node = some (i + 1); link = some (i + 1); addr = true; local_link = true }

blank-IsServed : IsServed (alloc 0) blank
unfolding find_addr
blank-IsServed = record {
  node = (1, refl, refl);
  link = (1, refl, λ u m. absurd (cc));
  addr = refl;
  local_link = refl;
}

one_node-IsServed : IsServed (alloc 1) one_node
unfolding find_addr add_node clear_node add_node_addr
one_node-IsServed = record {
  node = (2, refl, refl);
  link = (2, refl, λ u m. ground arith);
  addr = refl;
  local_link = refl;
}

two_nodes-IsServed : IsServed (alloc 2) two_nodes
unfolding find_addr add_node clear_node add_node_addr
two_nodes-IsServed = record {
  node = (3, refl, refl);
  link = (3, refl, λ u m. ground arith);
  addr = refl;
  local_link = refl;
}

Serves-cons :
    (round : ℕ) (t : Token) (ts : List Token) (s s1 : Topology)
    → IsServed (alloc round) s
    → run_token (alloc round) t s ≡ some s1
    → Serves alloc (round + 1) ts s1
    → Serves alloc round (t ∷ ts) s
Serves-cons round t ts s s1 ok runs rest =
    (ok, λ s' h. subst (Serves alloc (round + 1) ts) (some-injective s1 s' (sym runs ∙ h)) rest)

commands-Serves : Serves alloc 0 commands blank
unfolding run_token
commands-Serves =
    Serves-cons 0 (command 2 10 0 0) (command 2 20 0 0 ∷ command 4 10 20 1 ∷ []) blank one_node
      blank-IsServed refl
      (Serves-cons 1 (command 2 20 0 0) (command 4 10 20 1 ∷ []) one_node two_nodes
        one_node-IsServed refl (two_nodes-IsServed, λ s' h. tt))

commands-IsToken : All IsToken commands
commands-IsToken = omega arith

commands-IsPlain : All IsPlain commands
commands-IsPlain = (refl, (refl, (refl, tt)))

check_all-device_write_example :
    (s' : Topology) × (device_write alloc (λ i. true) (encode_tokens after.sent) blank
      ≡ some (token_size * length after.sent, s'))
    × Carries by_four 4 by_four_bound near (view s')
check_all-device_write_example =
    check_all-device_write by_four 4 by_four_bound (10 ∷ []) [] near start after alloc blank
      (refl, tt) start-IsClean start-Mirrors near_runs
      (subst (All IsToken) near_sent commands-IsToken)
      (subst (All IsPlain) near_sent commands-IsPlain) blank-IsWellFormed refl
      (subst (λ ts. Serves alloc 0 ts blank) near_sent commands-Serves)
