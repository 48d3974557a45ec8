-- ===== src/Plugin/Tests.antt =====
-- The rounds of the plugin at concrete inputs.
use mpolsr_testbed.Common.{
  ℕ, ◌<◌, ◌%◌, ◌≡◌, ap, sym, ◌⊎◌, refl, inl, inr, true, false, ◌&&◌, if◌then◌else◌, Option, none,
  some, [], ◌∷◌, ltb, Bool-cases, arith,
}
use mpolsr_testbed.Plugin.{
  activate_dst, activate_node, add_aliases, add_dst, add_edges, add_mid, add_mids, add_tc,
  add_tc_link, Cache, change_entry, check_data, create_node, find_dst, find_entry, init_cache,
  is_in_neighbourhood, remove_useless_mid, reset_active_flag, reset_chain, reset_tab, Olsr,
  remove_entries, remove_useless_link, rmv_all_links,
}
use mpolsr_testbed.Plugin.Entries.{link, node, IsClean}
use mpolsr_testbed.Plugin.Links.{has, Mirrors}
use mpolsr_testbed.Plugin.Runs.{check_all, check_all_lem, check_data_outcome, InOrder, Tells}
use mpolsr_testbed.Plugin.Faults.{check_data_faults}

abbrev by_four : ℕ → ℕ
by_four a = a % 4

by_four_bound : (a : ℕ) → by_four a < 4
by_four_bound a = omega arith

abbrev blank : Cache
blank = record { tc_tab = λ index. []; mid_tc = []; sent = [] }

abbrev start : Cache
start = init_cache 4 blank

-- The local machine 1 has the neighbour 2 but not 3, and the topology lists both.
abbrev first_round : Olsr
first_round = record {
  interfaces = 1 ∷ [];
  neighbours = (2, true) ∷ [];
  tc = (1, 2 ∷ 3 ∷ []) ∷ (2, 1 ∷ 6 ∷ []) ∷ [];
  mid_set = (2, 9 ∷ []) ∷ [];
}

-- The node 6 is gone, and 3 became a neighbour.
abbrev second_round : Olsr
second_round = record {
  interfaces = 1 ∷ [];
  neighbours = (2, true) ∷ (3, true) ∷ [];
  tc = (1, 2 ∷ 3 ∷ []) ∷ [];
  mid_set = [];
}

start-IsClean : IsClean by_four (1 ∷ []) start
unfolding init_cache
start-IsClean k = elim (Bool-cases (ltb k 4)) [ inl inside ↦ rw inside tt | inr out ↦ rw out tt ]

no_node : (a : ℕ) → node by_four start a ≡ none
unfolding init_cache
no_node a = elim (Bool-cases (ltb (by_four a) 4)) [
  | inl inside ↦ rw inside refl
  | inr out ↦ rw out refl
]

no_link : (u v : ℕ) → link by_four start u v ≡ none
unfolding init_cache
no_link u v = elim (Bool-cases (ltb (by_four u) 4)) [
  | inl inside ↦ rw inside refl
  | inr out ↦ rw out refl
]

start-Mirrors : Mirrors by_four start
unfolding init_cache
start-Mirrors = record {
  known = λ a. sym (ap has (no_node a));
  links = λ u v. sym (ap has (no_link u v));
  proper = refl;
}

check_data_outcome_example :
    (c' : Cache) × (check_data by_four 4 first_round start ≡ some c')
    × Tells by_four 4 by_four_bound first_round c'
    × (InOrder by_four 4 by_four_bound first_round c'
        ⊎ ((olsr' : Olsr) → check_data by_four 4 olsr' c' ≡ none))
check_data_outcome_example =
    check_data_outcome by_four 4 by_four_bound first_round start start-IsClean start-Mirrors

abbrev or_start : Option Cache → Cache
or_start none = start
or_start (some c) = c

both_run :
    check_all by_four 4 (first_round ∷ second_round ∷ []) start
    ≡ some (or_start (check_all by_four 4 (first_round ∷ second_round ∷ []) start))
unfolding check_all check_data reset_active_flag reset_tab reset_chain add_tc add_edges add_tc_link
    find_entry activate_node create_node add_dst find_dst change_entry activate_dst
    is_in_neighbourhood add_mids add_aliases add_mid remove_useless_mid remove_useless_link
    remove_entries rmv_all_links init_cache
both_run = refl

check_all_lem_example :
    Tells by_four 4 by_four_bound second_round
      (or_start (check_all by_four 4 (first_round ∷ second_round ∷ []) start))
check_all_lem_example =
    check_all_lem by_four 4 by_four_bound (1 ∷ []) (first_round ∷ []) second_round start
      (or_start (check_all by_four 4 (first_round ∷ second_round ∷ []) start)) (refl, (refl, tt))
      start-IsClean start-Mirrors both_run

-- The chain of 6 and 2, in which only 6 is active.
abbrev lost_behind : Cache
lost_behind = record {
  tc_tab = λ index.
      if ltb index 3 && ltb 1 index
      then record {
        src_addr = 6;
        dst_tab = λ i. [];
        is_active = true;
        is_src_local = false;
        freed = false;
      }
        ∷ record {
          src_addr = 2;
          dst_tab = λ i. [];
          is_active = false;
          is_src_local = false;
          freed = false;
        }
        ∷ []
      else [];
  mid_tc = [];
  sent = [];
}

removal_ends :
    remove_useless_link by_four 4 first_round 0 4 lost_behind
    ≡ some (or_start (remove_useless_link by_four 4 first_round 0 4 lost_behind))
unfolding remove_useless_link remove_entries rmv_all_links
removal_ends = refl

check_data_faults_example :
    check_data by_four 4 second_round
      (or_start (remove_useless_link by_four 4 first_round 0 4 lost_behind))
    ≡ none
check_data_faults_example =
    check_data_faults by_four 4 first_round second_round 2 lost_behind
      (or_start (remove_useless_link by_four 4 first_round 0 4 lost_behind)) (omega arith) refl
      removal_ends
