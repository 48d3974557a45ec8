-- ===== src/Hooks/LocalIn.antt =====
-- hook_local_in.c of src_iptables/ser_module, which leaves the topology as it is.
use mpolsr_testbed.Common.{not, Option, none, some, ◌==◌, if◌then◌else◌, ◌>>=◌}
use mpolsr_testbed.Tc.{Topology}
use mpolsr_testbed.Pth.{check_next_hop, End, is_end_of_path, Next}
use mpolsr_testbed.Skb.{get_path, PathInfo, SkBuff, update_path}
use mpolsr_testbed.Hooks.{deliver, Kernel, Outcome, send, ser_protocol, Verdict, verdict}

module _ (k : Kernel) where
  -- A copy of the datagram goes on to the next hop; a path is not recovered here.
  unfoldable pub forward_local_in : SkBuff → PathInfo → Topology → Option Outcome
  forward_local_in skb info s =
      if k.copied
      then (check_next_hop info.path s >>= λ r. elim r.0 [
        | Next.invalid ↦ some Outcome.failed
        | Next.recover ↦ some Outcome.failed
        | Next.next next_hop ↦
            update_path k.pointer_new r.1 info.size
              (record skb { iph = record (skb.iph) { daddr = next_hop; saddr = skb.iph.daddr } })
            >>= λ u. elim u [ none ↦ some Outcome.failed | some updated ↦ some (send k updated) ]
      ])
      else some Outcome.failed

  unfoldable pub process_datagram_local_in : SkBuff → Topology → Option Outcome
  process_datagram_local_in skb s =
      let ended : PathInfo → Option Outcome = λ info.
        if k.writable then deliver k.pointer info.size info.header skb else some Outcome.failed in
      if k.linearized
      then (get_path k.pointer skb >>= λ g. elim g [
        | none ↦ some Outcome.failed
        | some info ↦ is_end_of_path info.path s >>= λ end. elim end [
          | End.not_end ↦ forward_local_in skb info s
          | End.at_end ↦ ended info
          | End.invalid ↦ ended info
        ]
      ])
      else some Outcome.failed

  unfoldable pub local_in_hook : SkBuff → Topology → Option Verdict
  local_in_hook skb s =
      let work = process_datagram_local_in skb s >>= λ o. some (verdict o) in
      if not (skb.iph.protocol == ser_protocol) then some (Verdict.nf_accept skb) else work
