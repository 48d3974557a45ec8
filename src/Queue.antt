-- ===== src/Queue.antt =====
-- The queue of commands between the plugin of olsrd and the device of the module:
-- src_olsr/olsrd-0.5.6-r2/lib/old_sereadmo/src/ser_device.c.
--
-- A struct dev_cmd is an address, with one function for each field. What malloc returns is an argument; it is taken
-- to succeed, as its result is not checked. `written` has the tokens that fwrite is called with, whose result
-- only decides about a message.
pub mod Chain
pub mod Order
pub mod Init
pub mod Tests
use mpolsr_testbed.Common.{
  ℕ, zero, suc, ◌==◌, ◌==◌, Bool, true, false, not, Option, none, some, List, [], ◌∷◌, ◌++◌,
  if◌then◌else◌, update,
}
use mpolsr_testbed.Device.{cmd_reset_tc, cmd_set_alias_addr, cmd_set_local_addr, Token}

pub record Queue : Type 0 where
  pub token : ℕ → Token
  pub next : ℕ → Option ℕ
  pub cmd_lst : Option ℕ
  pub cmd_lst_end : Option ℕ
  pub is_open : Bool
  pub written : List Token

-- dev_add_cmd, with the token of the command and the address that malloc returns.
unfoldable pub add_cmd : ℕ → Token → Queue → Queue
add_cmd cmd t q =
    let q1 = record q { token = update q.token cmd t; next = update q.next cmd none } in
    let q2 = record q1 {
      cmd_lst = elim q1.cmd_lst [ none ↦ some cmd | some first ↦ some first ];
    } in
    elim q2.cmd_lst_end [
      | none ↦ record q2 { cmd_lst_end = some cmd }
      | some last ↦ record q2 { next = update q2.next last (some cmd); cmd_lst_end = some cmd }
    ]

-- The loop of dev_send, from a command on.
unfoldable pub send_loop : ℕ → Option ℕ → Queue → Option Queue
send_loop zero cmd q = none
send_loop (suc fuel) none q = some q
send_loop (suc fuel) (some cmd) q =
    send_loop fuel (q.next cmd) (record q { written = q.written ++ (q.token cmd ∷ []) })

unfoldable pub send_all : ℕ → Queue → Option Queue
send_all fuel q =
    if not q.is_open
    then some q
    else send_loop fuel q.cmd_lst (record q { cmd_lst = none; cmd_lst_end = none })

-- Several commands, each with the address of its struct.
unfoldable pub add_cmds : List (ℕ × Token) → Queue → Queue
add_cmds [] q = q
add_cmds ((cmd, t) ∷ cmds) q = add_cmds cmds (add_cmd cmd t q)

abbrev pub init_token : ℕ → ℕ → ℕ → Token
init_token kind addr mask = record { kind = kind; addr_1 = addr; addr_2 = mask; value = 0 }

-- The mask of the interface with the address; `unset` is what the variable has before.
unfoldable pub find_mask : ℕ → ℕ → List (ℕ × ℕ) → ℕ
find_mask addr unset [] = unset
find_mask addr unset ((ip_addr, netmask) ∷ ifs) =
    if addr == ip_addr then netmask else find_mask addr unset ifs

unfoldable pub alias_tokens : ℕ → List (ℕ × ℕ) → List Token
alias_tokens addr [] = []
alias_tokens addr ((ip_addr, netmask) ∷ ifs) =
    if addr == ip_addr
    then alias_tokens addr ifs
    else init_token cmd_set_alias_addr addr netmask ∷ alias_tokens addr ifs

-- The commands of dev_send_init for the main address and the interfaces with their masks.
unfoldable pub init_tokens : ℕ → ℕ → List (ℕ × ℕ) → List Token
init_tokens addr unset ifs =
    init_token cmd_reset_tc 0 0
    ∷ init_token cmd_set_local_addr addr (find_mask addr unset ifs)
    ∷ alias_tokens addr ifs

-- The commands with what malloc returns for them, by the number of the call.
abbrev pub with_structs : (ℕ → ℕ) → ℕ → List Token → List (ℕ × Token)
with_structs malloc i [] = []
with_structs malloc i (t ∷ ts) = (malloc i, t) ∷ with_structs malloc (suc i) ts

unfoldable pub send_init : ℕ → (ℕ → ℕ) → ℕ → ℕ → List (ℕ × ℕ) → Queue → Option Queue
send_init fuel malloc addr unset ifs q =
    send_all fuel (add_cmds (with_structs malloc 0 (init_tokens addr unset ifs)) q)
