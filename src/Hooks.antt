-- ===== src/Hooks.antt =====
-- What the netfilter hooks of src_iptables/ser_module share: hook_pre_routing.c, hook_local_in.c and
-- hook_local_out.c.
pub mod PreRouting
pub mod LocalIn
pub mod LocalOut
pub mod Payload
pub mod Receive
pub mod Journey
pub mod Send
pub mod Delivery
pub mod Tests
use Prim.Native.Nat.{bit_and}
use mpolsr_testbed.Common.{
  ℕ, ◌+◌, ◌-◌, ◌*◌, Bool, false, not, ◌||◌, Option, none, some, List, ◌++◌, ◌==◌, if◌then◌else◌,
  ◌>>=◌, get_elem?,
}
use mpolsr_testbed.Bytes.{header_size, htons, SerHeader}
use mpolsr_testbed.Tc.{Topology}
use mpolsr_testbed.Kdjk.{Config, Memory}
use mpolsr_testbed.Pth.{
  check_next_hop, End, find_datagram_path, get_last_node, is_end_of_path, Next, PathCopy,
}
use mpolsr_testbed.Skb.{
  add_path, get_path, ip_size, PathInfo, remove_path, replace_path, SkBuff, update_path,
}

-- What the kernel's functions return: skb_make_writable, skb_linearize, skb_header_pointer for the
-- datagram and for a new one, skb_copy, skb_copy_expand with the bytes that skb_put then adds, and
-- ip_route_me_harder. `stack` is what the buffer for the path holds at first.
pub record Kernel : Type 0 where
  pub writable : Bool
  pub linearized : Bool
  pub pointer : Bool
  pub pointer_new : Bool
  pub copied : Bool
  pub expand : ℕ → Option (List ℕ)
  pub routed : Bool
  pub stack : List ℕ

-- The results -1, 0 with the datagram as it is then, and 1 with the datagram that was sent instead.
pub data Outcome : Type 0 where
  failed : Outcome
  processed : SkBuff → Outcome
  sent : SkBuff → Outcome

-- NF_DROP, NF_ACCEPT and NF_STOLEN
pub data Verdict : Type 0 where
  nf_drop : Verdict
  nf_accept : SkBuff → Verdict
  nf_stolen : SkBuff → Verdict

unfoldable pub verdict : Outcome → Verdict
verdict Outcome.failed = Verdict.nf_drop
verdict (Outcome.processed skb) = Verdict.nf_accept skb
verdict (Outcome.sent skb) = Verdict.nf_stolen skb

abbrev pub ser_protocol : ℕ
ser_protocol = 99

abbrev pub ip_mf : ℕ
ip_mf = 8192

abbrev pub ip_offset : ℕ
ip_offset = 8191

-- A datagram for the local host gets back its protocol and the address of the first node.
unfoldable pub deliver : Bool → ℕ → SerHeader → SkBuff → Option Outcome
deliver pointer size header skb = remove_path pointer size skb >>= λ r. elim r [
  | none ↦ some Outcome.failed
  | some plain ↦ some (
      Outcome.processed (record plain {
        iph = record (plain.iph) { protocol = header.protocol; saddr = header.first_node };
      }))
]

-- A new datagram is sent, if it can be routed.
unfoldable pub send : Kernel → SkBuff → Outcome
send k skb = if k.routed then Outcome.sent skb else Outcome.failed
