-- ===== src/Queue/Tests.antt =====
-- Two commands through the queue.
use mpolsr_testbed.Common.{ℕ, ◌+◌, ◌≡◌, refl, true, false, none, some, List, [], ◌∷◌}
use mpolsr_testbed.Device.{Alloc, cmd_add_link, cmd_add_node, Token}
use mpolsr_testbed.Queue.{
  add_cmds, alias_tokens, find_mask, init_tokens, Queue, send_all, send_init,
}
use mpolsr_testbed.Tc.{Topology}
use mpolsr_testbed.Device.Write.{run_tokens}
use mpolsr_testbed.Module.History.{zeroed}
use mpolsr_testbed.Queue.Init.{KnowsOnly, send_init_lem}
use mpolsr_testbed.Queue.Chain.{IsQueue}
use mpolsr_testbed.Queue.Order.{commands, send_all-add_cmds}

abbrev no_token : Token
no_token = record { kind = 0; addr_1 = 0; addr_2 = 0; value = 0 }

abbrev empty_queue : Queue
empty_queue = record {
  token = λ p. no_token;
  next = λ p. none;
  cmd_lst = none;
  cmd_lst_end = none;
  is_open = true;
  written = [];
}

abbrev two_commands : List (ℕ × Token)
two_commands =
    (7, record { kind = cmd_add_node; addr_1 = 1; addr_2 = 0; value = 0 })
    ∷ (5, record { kind = cmd_add_link; addr_1 = 1; addr_2 = 2; value = 1 })
    ∷ []

send_all-add_cmds_example :
    (q' : Queue) × (send_all 3 (add_cmds two_commands empty_queue) ≡ some q')
    × (q'.written ≡ commands two_commands)
    × IsQueue q' []
send_all-add_cmds_example =
    send_all-add_cmds two_commands empty_queue (record { chain = refl; end = refl; distinct = tt })
      refl (refl, (refl, tt))

abbrev malloc_from_40 : ℕ → ℕ
malloc_from_40 i = 40 + i

-- The main address 1 and a second interface with the address 9.
abbrev two_interfaces : List (ℕ × ℕ)
two_interfaces = (1, 255) ∷ (9, 255) ∷ []

abbrev no_memory : ℕ → Alloc
no_memory i = record { node = none; link = none; addr = false; local_link = false }

send_init_lem_example :
    (q' : Queue) × (ts : List Token) × (send_init 4 malloc_from_40 1 0 two_interfaces empty_queue
      ≡ some q')
    × (q'.written ≡ ts)
    × ((s' : Topology) × (run_tokens no_memory (λ round. true) 0 ts zeroed ≡ some s')
        × KnowsOnly 1 s'.local_addr_tab)
unfolding init_tokens alias_tokens find_mask
send_init_lem_example =
    send_init_lem malloc_from_40 1 0 two_interfaces empty_queue no_memory zeroed
      (record { chain = refl; end = refl; distinct = tt }) refl (refl, (refl, (refl, tt)))
