-- ===== src/Module/Tests.antt =====
-- Loading with a hook that fails, and a short history of the store.
use mpolsr_testbed.Common.{ℕ, ◌+◌, ◌≡◌, refl, true, false, none, some, List, [], ◌∷◌, ltb, arith}
use mpolsr_testbed.Bytes.{word}
use mpolsr_testbed.Tc.{Topology}
use mpolsr_testbed.Tc.Hash.{add_node_addr, find_addr, get_node}
use mpolsr_testbed.Tc.Nodes.{add_node, clear_node, free_data, init_data}
use mpolsr_testbed.Tc.WellFormed.{IsWellFormed}
use mpolsr_testbed.Tc.Network.{Same, view}
use mpolsr_testbed.Kdjk.{add_buffer, Config, k_dijkstra, Memory}
use mpolsr_testbed.Device.{
  Alloc, decode_token, device_write, encode_token, run_token, Token, write_loop,
}
use mpolsr_testbed.Device.Accept.{IsAccepted}
use mpolsr_testbed.Device.Write.{encode_tokens}
use mpolsr_testbed.Module.{exit_module, init_module, Answers, Params, register_hooks, start_hooks}
use mpolsr_testbed.Module.Load.{clean, exit_module-init_module, init_module_failure}
use mpolsr_testbed.Module.History.{
  History, History-IsWellFormed, k_dijkstra-view, loaded, routed, written, zeroed,
}

abbrev all_on : Params
all_on = record { act_hook = true; act_device = true }

abbrev all_well : Answers
all_well = record { data_ready = true; device = true; hook = λ i. true }

abbrev last_fails : Answers
last_fails = record { data_ready = true; device = true; hook = λ i. ltb i 2 }

loads : (init_module all_on all_well clean zeroed).2 ≡ true
unfolding init_module start_hooks register_hooks
loads = refl

exit_module-init_module_example :
    ((init_module all_on all_well clean zeroed).0
      ≡ record { hooks = 2 ∷ 1 ∷ 0 ∷ []; device = true })
    × ((init_module all_on all_well clean zeroed).1 ≡ init_data zeroed)
    × (exit_module all_on
          (init_module all_on all_well clean zeroed).0
          (init_module all_on all_well clean zeroed).1
        ≡ (clean, free_data (init_data zeroed)))
exit_module-init_module_example = exit_module-init_module all_on all_well zeroed loads

init_module_failure_example :
    init_module all_on last_fails clean zeroed
    ≡ (record { hooks = 0 ∷ []; device = true }, init_data zeroed, false)
init_module_failure_example =
    init_module_failure all_on last_fails zeroed 2 refl refl refl (omega arith)
      (λ j h. ground arith) refl

abbrev alloc : ℕ → Alloc
alloc i = record { node = some (i + 1); link = some (i + 1); addr = true; local_link = true }

abbrev tokens : List Token
tokens = record { kind = 2; addr_1 = 10; addr_2 = 0; value = 0 } ∷ []

abbrev one_node : Topology
one_node = add_node (some 1) true 10 (init_data zeroed)

token-IsAccepted :
    IsAccepted
      (alloc 0)
      (record { kind = 2; addr_1 = 10; addr_2 = 0; value = 0 })
      (init_data zeroed)
unfolding init_data find_addr
token-IsAccepted = record {
  fresh_node = λ p e. refl;
  fresh_link = λ l e u m. absurd (cc);
  new_node = λ e. refl;
  known_node = λ e. absurd (omega (arith, e));
  new_alias = λ e. absurd (omega (arith, e));
  no_main = λ e. absurd (omega (arith, e));
}

one_token :
    device_write alloc (λ i. true) (encode_tokens tokens) (init_data zeroed) ≡ some (16, one_node)
unfolding device_write write_loop decode_token encode_token word run_token
one_token = refl

abbrev conf : Config
conf = record { path = 2; fp = 3; fe = 1 }

abbrev memory : Memory
memory = record { path_buffer = true; path = λ index. true; path_data = λ index. true }

-- The address 99 is not known.
no_path : k_dijkstra conf memory 10 99 one_node ≡ some (none, add_buffer 10 99 one_node)
unfolding k_dijkstra add_buffer get_node find_addr add_node add_node_addr clear_node init_data
no_path = refl

one_node-History : History one_node
one_node-History =
    written one_node alloc (λ i. true) tokens 16 (omega arith) (token-IsAccepted, λ s' h. tt)
      one_token loaded

History-IsWellFormed_example : IsWellFormed (add_buffer 10 99 one_node)
History-IsWellFormed_example =
    History-IsWellFormed
      (routed conf memory 10 99 (none, add_buffer 10 99 one_node) no_path one_node-History)

k_dijkstra-view_example :
    IsWellFormed (add_buffer 10 99 one_node)
    × Same (view one_node) (view (add_buffer 10 99 one_node))
k_dijkstra-view_example =
    k_dijkstra-view conf memory 10 99 one_node (none, add_buffer 10 99 one_node)
      (History-IsWellFormed one_node-History) no_path
