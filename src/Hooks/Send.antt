-- ===== src/Hooks/Send.antt =====
-- A UDP datagram that leaves its node with a path, and its way to the last node of the path.
use mathlib.Core.List.{append_assoc}
use mpolsr_testbed.Common.{
  ℕ, Bool, ◌+◌, ◌*◌, ◌≤◌, ◌≡◌, ◌≢◌, ◌∙◌, refl, sym, ap, true, false, ◌||◌, some, List, [], ◌∷◌,
  ◌++◌, All, length, length-append, length-take, take, drop, take-append-drop, ==_refl, ◌==◌, arith,
}
use mpolsr_testbed.Bytes.{header_size, htons, ip_v4_size, IsWord, SerHeader}
use mpolsr_testbed.Tc.{OlsrPath, PathBuffer, Topology}
use mpolsr_testbed.Tc.Hash.{get_node, main_addr}
use mpolsr_testbed.Tc.Local.{local_addr}
use mpolsr_testbed.Kdjk.{Config, Memory}
use mpolsr_testbed.Pth.{
  copy_new, find_alias, find_buffer, find_datagram_path, find_path, known_alias, PathCopy, use_path,
}
use mpolsr_testbed.Pth.Hop.{datagram}
use mpolsr_testbed.Pth.Copy.{copy_path_lem, known_alias-ne, path_of, rest, with_version}
use mpolsr_testbed.Skb.{add_path, ip_size, skb_len, SkBuff}
use mpolsr_testbed.Skb.RoundTrip.{add_path_parts, IsDatagram, take-append, with_data}
use mpolsr_testbed.Hooks.{Kernel, send, ser_protocol, Verdict, verdict}
use mpolsr_testbed.Hooks.LocalOut.{
  add_and_send, check_if_update, first_header, local_out_hook, process_datagram_local_out,
}
use mpolsr_testbed.Hooks.Payload.{datagram-split, length-datagram, path_size}

-- The cache of the local node has a path for the datagram, to be used next.
pub record IsCached (s : Topology) (src_addr dst_addr : ℕ) (path : OlsrPath) : Type 0 where
  pub src : ℕ
  pub dst : ℕ
  pub dst_main : ℕ
  pub buffer : PathBuffer
  pub paths : List OlsrPath
  pub has_src : get_node s src_addr ≡ some src
  pub src_local : main_addr s src ≡ some (local_addr s)
  pub has_dst : get_node s dst_addr ≡ some dst
  pub has_main : main_addr s dst ≡ some dst_main
  pub found : find_buffer (local_addr s) dst_main s.path_buffer ≡ some buffer
  pub list : buffer.lst_path ≡ path ∷ paths

module _ (conf : Config) (mem : Memory) (k : Kernel) (s : Topology) (skb : SkBuff) (x : ℕ)
    (xs : List ℕ) (words : All IsWord (x ∷ xs))
    (cached : IsCached s skb.iph.saddr skb.iph.daddr (path_of (x ∷ xs)))
    (room : header_size + ip_v4_size * length (x ∷ xs) ≤ length k.stack) where
  abbrev pub h : SerHeader
  h = first_header skb

  -- The copy of the path, and the topology with the next path in its entry of the cache.
  abbrev pub copy : PathCopy
  copy = record {
    path_data = datagram (with_version h) (x ∷ xs) (rest h x xs k.stack words room) 1;
    size = path_size (x ∷ xs);
    next_hop = known_alias (find_alias x s.local_links);
  }

  abbrev pub used : Topology
  used = record s { path_buffer = use_path (local_addr s) cached.dst_main s.path_buffer }

  find_datagram_path-cached :
      find_datagram_path conf mem k.stack h skb.iph.saddr skb.iph.daddr s ≡ some (some copy, used)
  unfolding find_datagram_path find_path copy_new
  find_datagram_path-cached =
      rw
        (
          find_datagram_path,
          cached.has_src,
          cached.src_local,
          cached.has_dst,
          cached.has_main,
          find_path,
          cached.found,
          cached.list,
          ==_refl (local_addr s),
          copy_path_lem h x xs k.stack words room true s.local_links,
        )
        refl

  abbrev pub head_bytes : List ℕ
  head_bytes = take (ip_size skb) skb.data_bytes

  abbrev pub udp_bytes : List ℕ
  udp_bytes = drop (ip_size skb) skb.data_bytes

  module _ (udp_port : ℕ) (loopback : Bool) (real_addr : ℕ) (g : List ℕ)
      (fills : IsDatagram skb (path_size (x ∷ xs)))
      (expands : k.expand (path_size (x ∷ xs)) ≡ some g) (gap : length g ≡ path_size (x ∷ xs))
      (pointer : k.pointer_new ≡ true) (routed : k.routed ≡ true)
      (linked : find_alias x s.local_links ≡ some real_addr) (known : real_addr ≢ 0)
      (chosen : check_if_update udp_port loopback skb ≡ some true) where
    -- The datagram with the path, on its way to the first hop.
    abbrev pub outgoing : SkBuff
    outgoing = record {
      data_bytes = head_bytes ++ (datagram (with_version h) (x ∷ xs) [] 1 ++ udp_bytes);
      iph = record (skb.iph) {
        tot_len = htons (length head_bytes + length udp_bytes + path_size (x ∷ xs));
        protocol = ser_protocol;
        daddr = real_addr;
      };
    }

    only_path : take (path_size (x ∷ xs)) copy.path_data ≡ datagram (with_version h) (x ∷ xs) [] 1
    only_path =
        let dg = datagram (with_version h) (x ∷ xs) [] 1 in
        ap (take (path_size (x ∷ xs)))
          (datagram-split (with_version h) (x ∷ xs) (rest h x xs k.stack words room) 1)
        ∙ take-append dg (rest h x xs k.stack words room) (path_size (x ∷ xs))
            (sym (length-datagram (with_version h) (x ∷ xs) 1))

    added :
        add_path true copy.path_data copy.size (record skb { data_bytes = skb.data_bytes ++ g })
        ≡ some (
            some (
              with_data skb
                (head_bytes ++ (datagram (with_version h) (x ∷ xs) [] 1 ++ udp_bytes))
                (length head_bytes + length udp_bytes + path_size (x ∷ xs))))
    added =
        let whole = take-append-drop (ip_size skb) skb.data_bytes in
        let at : ip_size skb ≡ length head_bytes =
          omega (arith, length-take (ip_size skb) skb.data_bytes, fills.header) in
        let len : skb_len skb ≡ length head_bytes + length udp_bytes =
          omega (arith, ap length whole, length-append head_bytes udp_bytes) in
        add_path_parts (record skb { data_bytes = skb.data_bytes ++ g }) head_bytes udp_bytes
          copy.path_data (path_size (x ∷ xs)) at g
          (ap (λ l. l ++ g) (sym whole) ∙ append_assoc head_bytes udp_bytes g)
          (omega (arith, fills.total, len)) gap
          (omega (
            arith,
            ap length (datagram-split (with_version h) (x ∷ xs) (rest h x xs k.stack words room) 1),
            length-append (datagram (with_version h) (x ∷ xs) [] 1)
                (rest h x xs k.stack words room),
            length-datagram (with_version h) (x ∷ xs) 1,
          ))
        ∙ ap
            (λ l. some (
              some (
                with_data skb (head_bytes ++ (l ++ udp_bytes))
                  (length head_bytes + length udp_bytes + path_size (x ∷ xs)))))
            only_path

    -- If the cache has a path of 32-bit addresses for a UDP datagram that the hook is to update, which fits
    -- into the buffer for paths, and the first hop has a known address, the datagram that fills its buffer
    -- and is shorter than 65536 bytes with the path is replaced by one with the path behind its IP header, sent
    -- to that address. The allocations and the routing are to succeed. The cache then goes on to its next path.
    pub local_out_hook-cached :
        local_out_hook conf mem k udp_port loopback skb s ≡ some (Verdict.nf_stolen outgoing, used)
    unfolding local_out_hook process_datagram_local_out add_and_send send verdict
    local_out_hook-cached =
        let next : copy.next_hop ≡ some real_addr =
          ap known_alias linked ∙ known_alias-ne real_addr known in
        let sized : ((path_size (x ∷ xs) == header_size) || (path_size (x ∷ xs) == 0)) ≡ false =
          ground arith in
        rw
          (
            local_out_hook, chosen, find_datagram_path-cached, next, expands, pointer, sized, added,
            routed,
          )
          refl
