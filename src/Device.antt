-- ===== src/Device.antt =====
-- The character device of src_iptables/ser_module/ser_device.c, through which olsrd changes the
-- topology store, with the tokens of ser_device.h.
--
-- A token has 16 bytes, for int, long and unsigned long have four. The value of a link is an int that
-- becomes an unsigned long, so its four bytes are read as such. The lengths of the buffers are taken to
-- fit into an int. A round of the loop takes what its allocations return.
pub mod Accept
pub mod Write
pub mod Step
pub mod Refine
pub mod Read
pub mod Tests
use mpolsr_testbed.Common.{
  ℕ, zero, suc, ◌+◌, ◌-◌, ◌*◌, ◌/◌, ◌%◌, min, Bool, Option, none, some, List, [], ◌∷◌, ◌++◌, leb,
  ◌==◌, if◌then◌else◌, ◌>>=◌, length, take, drop,
}
use mpolsr_testbed.Bytes.{le32, read_addr}
use mpolsr_testbed.Tc.{Topology}
use mpolsr_testbed.Tc.Local.{set_local_addr, set_local_alias}
use mpolsr_testbed.Tc.Nodes.{add_alias, add_node, free_data, remove_alias, remove_node}
use mpolsr_testbed.Tc.Links.{add_link, remove_link}

abbrev pub cmd_reset_tc : ℕ
cmd_reset_tc = 1

abbrev pub cmd_add_node : ℕ
cmd_add_node = 2

abbrev pub cmd_remove_node : ℕ
cmd_remove_node = 3

abbrev pub cmd_add_link : ℕ
cmd_add_link = 4

abbrev pub cmd_remove_link : ℕ
cmd_remove_link = 5

abbrev pub cmd_add_alias : ℕ
cmd_add_alias = 6

abbrev pub cmd_remove_alias : ℕ
cmd_remove_alias = 7

abbrev pub cmd_set_local_addr : ℕ
cmd_set_local_addr = 8

abbrev pub cmd_set_alias_addr : ℕ
cmd_set_alias_addr = 9

-- struct dev_tc_token
pub record Token : Type 0 where
  pub kind : ℕ
  pub addr_1 : ℕ
  pub addr_2 : ℕ
  pub value : ℕ

abbrev pub token_size : ℕ
token_size = 16

-- copy_from_user to a struct dev_tc_token
unfoldable pub decode_token : List ℕ → Option Token
decode_token buff = read_addr buff 0 >>= λ kind. read_addr buff 4 >>= λ addr_1.
    read_addr buff 8 >>= λ addr_2. read_addr buff 12 >>= λ value.
    some (record { kind = kind; addr_1 = addr_1; addr_2 = addr_2; value = value })

-- A token in memory, as the plugin of olsrd writes it to the file.
unfoldable pub encode_token : Token → List ℕ
encode_token t = le32 t.kind ++ (le32 t.addr_1 ++ (le32 t.addr_2 ++ le32 t.value))

-- What the allocations in a round return: memory for a node, a link and an address, and whether there
-- is memory for a local link.
pub record Alloc : Type 0 where
  pub node : Option ℕ
  pub link : Option ℕ
  pub addr : Bool
  pub local_link : Bool

-- The cases of the switch; a token of another type only leaves a message.
unfoldable pub run_token : Alloc → Token → Topology → Option Topology
run_token alloc t s =
    if t.kind == cmd_reset_tc
    then some (free_data s)
    else if t.kind == cmd_add_node
    then some (add_node alloc.node alloc.addr t.addr_1 s)
    else if t.kind == cmd_remove_node
    then remove_node t.addr_1 s
    else if t.kind == cmd_add_link
    then add_link alloc.link alloc.local_link t.addr_1 t.addr_2 t.value s
    else if t.kind == cmd_remove_link
    then remove_link t.addr_1 t.addr_2 s
    else if t.kind == cmd_add_alias
    then add_alias alloc.addr t.addr_1 t.addr_2 s
    else if t.kind == cmd_remove_alias
    then remove_alias t.addr_1 t.addr_2 s
    else if t.kind == cmd_set_local_addr
    then some (set_local_addr t.addr_1 t.addr_2 s)
    else if t.kind == cmd_set_alias_addr
    then some (set_local_alias t.addr_1 t.addr_2 s)
    else some s

-- The loop over the tokens that are left, `n` of them. A round has a number; `copied` tells whether
-- copy_from_user succeeds in it.
unfoldable pub write_loop : (ℕ → Alloc) → (ℕ → Bool) → ℕ → ℕ → List ℕ → Topology → Option Topology
write_loop alloc copied round zero buff s = some s
write_loop alloc copied round (suc n) buff s =
    let next = λ (s' : Topology). write_loop alloc copied (round + 1) n (drop token_size buff) s' in
    if copied round
    then (decode_token buff >>= λ token. run_token (alloc round) token s >>= next)
    else some s

-- What is returned is the length of the buffer on every branch; `none` is a fault of an operation.
unfoldable pub device_write : (ℕ → Alloc) → (ℕ → Bool) → List ℕ → Topology → Option (ℕ × Topology)
device_write alloc copied buffer s =
    if length buffer % token_size == 0
    then (write_loop alloc copied 0 (length buffer / token_size) buffer s >>= λ s'.
        some (length buffer, s'))
    else some (length buffer, s)

-- The bytes that are copied to the reader, the result, and the offset afterwards. `msg` is what sprintf
-- wrote, and `copied` tells whether copy_to_user succeeds.
unfoldable pub device_read : List ℕ → Bool → ℕ → ℕ → List ℕ × ℕ × ℕ
device_read msg copied len offset =
    if leb (length msg) offset
    then ([], 0, offset)
    else let bytes_read = min (length msg - offset) len in
      if copied
      then (take bytes_read (drop offset msg), bytes_read, offset + bytes_read)
      else ([], 0, offset)
