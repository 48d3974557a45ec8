-- ===== src/Hooks/LocalOut.antt =====
-- hook_local_out.c of src_iptables/ser_module. The result has the topology afterwards, for the path cache.
use mpolsr_testbed.Common.{
  ℕ, ◌+◌, ◌*◌, Bool, false, not, ◌||◌, Option, none, some, ◌++◌, ◌==◌, if◌then◌else◌, ◌>>=◌,
  get_elem?,
}
use mpolsr_testbed.Bytes.{header_size, SerHeader}
use mpolsr_testbed.Tc.{Topology}
use mpolsr_testbed.Kdjk.{Config, Memory}
use mpolsr_testbed.Pth.{find_datagram_path, PathCopy}
use mpolsr_testbed.Skb.{add_path, ip_size, SkBuff}
use mpolsr_testbed.Hooks.{Kernel, Outcome, send, ser_protocol, Verdict, verdict}

-- The port is compared only for UDP, and not for the loopback device.
unfoldable pub check_if_update : ℕ → Bool → SkBuff → Option Bool
check_if_update udp_port loopback skb =
    let port = get_elem? skb.data_bytes (ip_size skb + 2) >>= λ hi.
    get_elem? skb.data_bytes (ip_size skb + 3) >>= λ lo. some (hi * 256 + lo == udp_port) in
    if not (skb.iph.protocol == 17) || loopback then some false else port

abbrev pub first_header : SkBuff → SerHeader
first_header skb = record {
  version = 0;
  protocol = skb.iph.protocol;
  empty = 0;
  hops = 0;
  cur = 0;
  first_node = skb.iph.saddr;
}

module _ (conf : Config) (mem : Memory) (k : Kernel) where
  unfoldable pub add_and_send : SkBuff → PathCopy → Option Outcome
  add_and_send skb copy = elim copy.next_hop [
    | none ↦ some Outcome.failed
    | some next_hop ↦
        if copy.size == header_size || copy.size == 0
        then some (Outcome.processed skb)
        else elim (k.expand copy.size) [
          | none ↦ some Outcome.failed
          | some room ↦
              add_path k.pointer_new copy.path_data copy.size
                (record skb { data_bytes = skb.data_bytes ++ room })
              >>= λ r. elim r [
                | none ↦ some Outcome.failed
                | some new ↦ some (
                    send k (record new {
                      iph = record (new.iph) { protocol = ser_protocol; daddr = next_hop };
                    }))
              ]
        ]
  ]

  unfoldable pub process_datagram_local_out : SkBuff → Topology → Option (Outcome × Topology)
  process_datagram_local_out skb s =
      find_datagram_path conf mem k.stack (first_header skb) skb.iph.saddr skb.iph.daddr s >>= λ r.
      elim r.0 [
        | none ↦ some (Outcome.failed, r.1)
        | some copy ↦ add_and_send skb copy >>= λ o. some (o, r.1)
      ]

  unfoldable pub local_out_hook : ℕ → Bool → SkBuff → Topology → Option (Verdict × Topology)
  local_out_hook udp_port loopback skb s = check_if_update udp_port loopback skb >>= λ update.
      let work = process_datagram_local_out skb s >>= λ r. some (verdict r.0, r.1) in
      if update then work else some (Verdict.nf_accept skb, s)
