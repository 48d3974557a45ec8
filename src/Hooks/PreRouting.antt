-- ===== src/Hooks/PreRouting.antt =====
-- hook_pre_routing.c of src_iptables/ser_module. The result has the topology afterwards, for the path cache.
use Prim.Native.Nat.{bit_and}
use mpolsr_testbed.Common.{
  ℕ, ◌-◌, not, ◌||◌, Option, none, some, List, ◌++◌, ◌==◌, if◌then◌else◌, ◌>>=◌,
}
use mpolsr_testbed.Bytes.{htons, SerHeader}
use mpolsr_testbed.Tc.{Topology}
use mpolsr_testbed.Kdjk.{Config, Memory}
use mpolsr_testbed.Pth.{
  check_next_hop, End, find_datagram_path, get_last_node, is_end_of_path, Next, PathCopy,
}
use mpolsr_testbed.Skb.{get_path, PathInfo, replace_path, SkBuff, update_path}
use mpolsr_testbed.Hooks.{
  deliver, ip_mf, ip_offset, Kernel, Outcome, send, ser_protocol, Verdict, verdict,
}

module _ (conf : Config) (mem : Memory) (k : Kernel) where
  -- The datagram with the new path, from the local node to the end of the old path. The call of
  -- skb_trim on the datagram that came in does not matter to the one that is sent.
  unfoldable pub replace_and_send : SkBuff → ℕ → PathCopy → Option Outcome
  replace_and_send skb init_size copy = elim copy.next_hop [
    | none ↦ some Outcome.failed
    | some next_hop ↦ elim (k.expand (copy.size - init_size)) [
      | none ↦ some Outcome.failed
      | some room ↦
          replace_path k.pointer_new copy.path_data copy.size init_size
            (record skb { data_bytes = skb.data_bytes ++ room })
          >>= λ r. elim r [
            | none ↦ some Outcome.failed
            | some new ↦ some (
                send k (record new {
                  iph = record (new.iph) {
                    protocol = ser_protocol;
                    daddr = next_hop;
                    saddr = skb.iph.daddr;
                  };
                }))
          ]
    ]
  ]

  unfoldable pub route_recovery_pre_routing :
      SkBuff → SerHeader → List ℕ → ℕ → Topology → Option (Outcome × Topology)
  route_recovery_pre_routing skb header init_path init_size s =
      get_last_node init_path >>= λ dst_addr.
      find_datagram_path conf mem k.stack header skb.iph.daddr dst_addr s >>= λ r. elim r.0 [
        | none ↦ some (Outcome.failed, r.1)
        | some copy ↦
            if copy.size == 0
            then some (Outcome.failed, r.1)
            else (replace_and_send skb init_size copy >>= λ o. some (o, r.1))
      ]

  -- The datagram goes on to the next hop of its path.
  unfoldable pub forward_pre_routing : SkBuff → PathInfo → Topology → Option (Outcome × Topology)
  forward_pre_routing skb info s = check_next_hop info.path s >>= λ r. elim r.0 [
    | Next.invalid ↦ some (Outcome.failed, s)
    | Next.recover ↦ route_recovery_pre_routing skb info.header r.1 info.size s
    | Next.next next_hop ↦
        update_path k.pointer r.1 info.size
          (record skb { iph = record (skb.iph) { daddr = next_hop } })
        >>= λ u. elim u [
          | none ↦ some (Outcome.failed, s)
          | some updated ↦ some (Outcome.processed updated, s)
        ]
  ]

  -- Every result but 0 of pth_isEndOfPath counts as the end of the path.
  unfoldable pub process_datagram_pre_routing : SkBuff → Topology → Option (Outcome × Topology)
  process_datagram_pre_routing skb s =
      if k.writable
      then (get_path k.pointer skb >>= λ g. elim g [
        | none ↦ some (Outcome.failed, s)
        | some info ↦ is_end_of_path info.path s >>= λ end. elim end [
          | End.not_end ↦ forward_pre_routing skb info s
          | End.at_end ↦ deliver k.pointer info.size info.header skb >>= λ o. some (o, s)
          | End.invalid ↦ deliver k.pointer info.size info.header skb >>= λ o. some (o, s)
        ]
      ])
      else some (Outcome.failed, s)

  -- A fragment is left to the local-in hook.
  unfoldable pub pre_routing_hook : SkBuff → Topology → Option (Verdict × Topology)
  pre_routing_hook skb s =
      let work = process_datagram_pre_routing skb s >>= λ r. some (verdict r.0, r.1) in
      if not (skb.iph.protocol == ser_protocol)
        || not (bit_and skb.iph.frag_off (htons ip_mf) == 0)
        || not (bit_and skb.iph.frag_off (htons ip_offset) == 0)
      then some (Verdict.nf_accept skb, s)
      else work
