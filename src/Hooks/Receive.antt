-- ===== src/Hooks/Receive.antt =====
-- What the pre-routing hook does with a datagram that has a path.
use Prim.Native.Nat.{bit_and}
use mpolsr_testbed.Common.{
  ℕ, suc, ◌≤◌, ◌<◌, ◌≡◌, ◌≢◌, ◌∙◌, refl, ap, true, some, List, [], ◌++◌, All, length, get_elem?,
  lt→ltb, arith,
}
use mpolsr_testbed.Bytes.{htons, IsHeader, IsWord, SerHeader}
use mpolsr_testbed.Tc.{Topology}
use mpolsr_testbed.Tc.Local.{local_addr}
use mpolsr_testbed.Kdjk.{Config, Memory}
use mpolsr_testbed.Pth.{check_next_hop, End, find_alias, is_end_of_path, Next, next_of_alias}
use mpolsr_testbed.Pth.Hop.{
  at_hop, check_next_hop-step, datagram, decode-datagram, htons-htons, is_end_of_path-before,
  is_end_of_path-last,
}
use mpolsr_testbed.Pth.Travel.{next_known}
use mpolsr_testbed.Skb.{ip_size, SkBuff, sub_word}
use mpolsr_testbed.Skb.RoundTrip.{remove_path_parts}
use mpolsr_testbed.Hooks.{
  deliver, ip_mf, ip_offset, Kernel, Outcome, ser_protocol, Verdict, verdict,
}
use mpolsr_testbed.Hooks.PreRouting.{
  forward_pre_routing, pre_routing_hook, process_datagram_pre_routing,
}
use mpolsr_testbed.Hooks.Payload.{
  get_path-datagram, length-datagram, path_size, update_path-datagram,
}

-- The datagram has a path and is not a fragment.
pub record IsWhole (skb : SkBuff) : Type 0 where
  pub protocol : skb.iph.protocol ≡ ser_protocol
  pub more : bit_and skb.iph.frag_off (htons ip_mf) ≡ 0
  pub offset : bit_and skb.iph.frag_off (htons ip_offset) ≡ 0

module _ (skb : SkBuff) (hd udp : List ℕ) (h : SerHeader) (xs : List ℕ) (cur : ℕ)
    (at : ip_size skb ≡ length hd) (bytes : skb.data_bytes ≡ hd ++ (datagram h xs [] cur ++ udp))
    (ok : IsHeader h) (fits : path_size xs ≤ 65536) where
  module _ (conf : Config) (mem : Memory) (k : Kernel) (s : Topology) (writable : k.writable ≡ true)
      (pointer : k.pointer ≡ true) (whole : IsWhole skb) (words : All IsWord xs) where
    -- The hook processes the datagram.
    hook-process :
        (o : Outcome)
        → process_datagram_pre_routing conf mem k skb s ≡ some (o, s)
        → pre_routing_hook conf mem k skb s ≡ some (verdict o, s)
    unfolding pre_routing_hook
    hook-process o e = rw (pre_routing_hook, e, whole.protocol, whole.more, whole.offset) refl

    short : length xs < 65536
    short = omega (arith, fits)

    -- A deliverable datagram without its path.
    abbrev pub delivered : SkBuff
    delivered = record {
      data_bytes = hd ++ udp;
      iph = record (skb.iph) {
        tot_len = htons (sub_word (htons skb.iph.tot_len) (path_size xs));
        protocol = h.protocol;
        saddr = h.first_node;
      };
    }

    -- A datagram that is sent on, at another hop and to another address.
    abbrev pub forwarded : ℕ → ℕ → SkBuff
    forwarded cur' daddr = record {
      data_bytes = hd ++ (datagram h xs [] cur' ++ udp);
      iph = record (skb.iph) { daddr = daddr };
    }

    deliver-datagram :
        deliver k.pointer (path_size xs) (at_hop h xs cur) skb ≡ some (Outcome.processed delivered)
    unfolding deliver
    deliver-datagram =
        rw
          (
            pointer,
            remove_path_parts skb hd udp [] (path_size xs) at (datagram h xs [] cur) bytes
                (length-datagram h xs cur),
          )
          refl

    process-ended :
        (e : End)
        → e ≢ End.not_end
        → is_end_of_path (datagram h xs [] cur) s ≡ some e
        → process_datagram_pre_routing conf mem k skb s ≡ some (Outcome.processed delivered, s)
    unfolding process_datagram_pre_routing
    process-ended End.not_end ne e = absurd (ne refl)
    process-ended End.at_end ne e =
        rw
          (
            process_datagram_pre_routing,
            writable,
            pointer,
            get_path-datagram skb hd udp h xs cur at bytes ok fits,
            e,
            deliver-datagram,
          )
          refl
    process-ended End.invalid ne e =
        rw
          (
            process_datagram_pre_routing,
            writable,
            pointer,
            get_path-datagram skb hd udp h xs cur at bytes ok fits,
            e,
            deliver-datagram,
          )
          refl

    -- At the last hop of its path, if that is the local node, the hook accepts a datagram without its path
    -- and with the protocol and first node of its header. This is for a whole datagram with a path of
    -- 32-bit addresses and at most 65536 bytes, in one piece and writable.
    pub pre_routing_hook-last :
        (i : ℕ)
        → cur ≡ suc i
        → length xs ≡ suc i
        → get_elem? xs i ≡ some (local_addr s)
        → pre_routing_hook conf mem k skb s ≡ some (Verdict.nf_accept delivered, s)
    unfolding verdict
    pre_routing_hook-last i last size here = hook-process (Outcome.processed delivered) (
        process-ended End.at_end (λ e. absurd (cc))
          (ap (λ n. is_end_of_path (datagram h xs [] n) s) last
            ∙ is_end_of_path-last h xs [] s ok words short i size here))

    process-forwarded :
        (i x real_addr : ℕ)
        → cur ≡ suc i
        → suc i < length xs
        → get_elem? xs i ≡ some (local_addr s)
        → get_elem? xs (suc i) ≡ some x
        → find_alias x s.local_links ≡ some real_addr
        → real_addr ≢ 0
        → process_datagram_pre_routing conf mem k skb s
          ≡ some (Outcome.processed (forwarded (suc (suc i)) real_addr), s)
    unfolding process_datagram_pre_routing forward_pre_routing
    process-forwarded i x real_addr now before here there linked known =
        let end : is_end_of_path (datagram h xs [] cur) s ≡ some End.not_end =
          ap (λ n. is_end_of_path (datagram h xs [] n) s) now
          ∙ is_end_of_path-before h xs [] s ok words short i before in
        let step : check_next_hop (datagram h xs [] cur) s
            ≡ some (Next.next real_addr, datagram h xs [] (suc (suc i))) =
          ap (λ n. check_next_hop (datagram h xs [] n) s) now
          ∙ check_next_hop-step h xs [] s ok words short i x before here there
          ∙ ap (λ a. some (next_of_alias a, datagram h xs [] (suc (suc i)))) linked
          ∙ ap (λ a. some (a, datagram h xs [] (suc (suc i)))) (next_known real_addr known) in
        rw
          (
            process_datagram_pre_routing,
            writable,
            pointer,
            get_path-datagram skb hd udp h xs cur at bytes ok fits,
            end,
            forward_pre_routing,
            step,
            pointer,
            update_path-datagram (record skb { iph = record (skb.iph) { daddr = real_addr } }) hd
                udp h xs cur at bytes ok fits (suc (suc i)),
          )
          refl

    -- At a hop before the last one of its path, if that is the local node and it has a local link to the
    -- next one with a known address, the hook accepts a datagram with its current hop advanced and sent to
    -- that address. This is for a whole datagram with a path of 32-bit addresses and at most 65536 bytes, in
    -- one piece and writable.
    pub pre_routing_hook-next :
        (i x real_addr : ℕ)
        → cur ≡ suc i
        → suc i < length xs
        → get_elem? xs i ≡ some (local_addr s)
        → get_elem? xs (suc i) ≡ some x
        → find_alias x s.local_links ≡ some real_addr
        → real_addr ≢ 0
        → pre_routing_hook conf mem k skb s
          ≡ some (Verdict.nf_accept (forwarded (suc (suc i)) real_addr), s)
    unfolding verdict
    pre_routing_hook-next i x real_addr now before here there linked known =
        hook-process (Outcome.processed (forwarded (suc (suc i)) real_addr))
          (process-forwarded i x real_addr now before here there linked known)

    -- A datagram whose current hop is beyond the end of its path is accepted as well, without the path.
    -- This is for a whole datagram with a path of 32-bit addresses and at most 65536 bytes, in one piece
    -- and writable.
    pub pre_routing_hook-invalid :
        length xs < cur
        → cur < 65536
        → pre_routing_hook conf mem k skb s ≡ some (Verdict.nf_accept delivered, s)
    unfolding verdict is_end_of_path
    pre_routing_hook-invalid beyond field = hook-process (Outcome.processed delivered) (
        process-ended End.invalid (λ e. absurd (cc))
          (rw
            (
              is_end_of_path,
              decode-datagram h xs [] cur ok,
              htons-htons (length xs) short,
              htons-htons cur field,
              lt→ltb (length xs) cur beyond,
            )
            refl))
