-- ===== src/Hooks/Delivery.antt =====
-- From the application that sends a UDP datagram to the node that receives it.
use mpolsr_testbed.Common.{
  ℕ, ◌+◌, ◌*◌, ◌≤◌, ◌≡◌, ◌∙◌, refl, ap, Bool, true, some, List, ◌∷◌, All, length, length-append,
  length-take, take-append-drop, arith,
}
use Prim.Native.Nat.{bit_and}
use mpolsr_testbed.Bytes.{header_size, htons, ip_v4_size, IsHeader, IsWord}
use mpolsr_testbed.Tc.{Topology}
use mpolsr_testbed.Kdjk.{Config, Memory}
use mpolsr_testbed.Pth.Hop.{htons-htons}
use mpolsr_testbed.Pth.Travel.{IsNeighbour, IsRoute}
use mpolsr_testbed.Pth.Copy.{path_of, with_version}
use mpolsr_testbed.Skb.{ip_size, skb_len, SkBuff, sub_word}
use mpolsr_testbed.Skb.RoundTrip.{IsDatagram, sub_word-add}
use mpolsr_testbed.Hooks.{ip_mf, ip_offset, Kernel, Verdict}
use mpolsr_testbed.Hooks.LocalOut.{check_if_update, first_header, local_out_hook}
use mpolsr_testbed.Hooks.Payload.{path_size}
use mpolsr_testbed.Hooks.Journey.{journey, journey-Arrives}
use mpolsr_testbed.Hooks.Send.{
  head_bytes, IsCached, local_out_hook-cached, outgoing, udp_bytes, used,
}

check_if_update-udp :
    (udp_port : ℕ) (loopback : Bool) (skb : SkBuff)
    → check_if_update udp_port loopback skb ≡ some true
    → skb.iph.protocol ≡ 17
unfolding check_if_update
check_if_update-udp udp_port loopback skb e = ground arith

-- Where the functions of the kernel succeed, with a buffer for the path of 65536 bytes.
pub record IsWorking (k : Kernel) : Type 0 where
  pub writable : k.writable ≡ true
  pub pointer : k.pointer ≡ true
  pub pointer_new : k.pointer_new ≡ true
  pub routed : k.routed ≡ true
  pub stack : length k.stack ≡ 65536
  pub expand : (n : ℕ) → (g : List ℕ) × (k.expand n ≡ some g) × (length g ≡ n)

-- The datagram is not a fragment, and its source is a 32-bit address.
pub record IsPlain (skb : SkBuff) : Type 0 where
  pub more : bit_and skb.iph.frag_off (htons ip_mf) ≡ 0
  pub offset : bit_and skb.iph.frag_off (htons ip_offset) ≡ 0
  pub source : IsWord skb.iph.saddr

module _ (net : ℕ → Topology) (owner : ℕ → ℕ) (conf : Config) (mem : Memory) (k : Kernel)
    (works : IsWorking k) (udp_port : ℕ) (loopback : Bool) (a x : ℕ) (xs : List ℕ) (skb : SkBuff)
    (words : All IsWord (x ∷ xs)) (plain : IsPlain skb)
    (cached : IsCached (net a) skb.iph.saddr skb.iph.daddr (path_of (x ∷ xs)))
    (fills : IsDatagram skb (path_size (x ∷ xs)))
    (chosen : check_if_update udp_port loopback skb ≡ some true) (first : IsNeighbour net owner a x)
    (route : IsRoute net owner (x ∷ xs)) where
  -- In a network of nodes that know themselves and have a local link to the node behind them in the path
  -- that the cache of the local node has next for a UDP datagram, the local node to the first one, and
  -- where the functions of the kernel succeed: if the local-out hook is to update the datagram, which is not
  -- a fragment, fills its buffer and is shorter than 65536 bytes with the path, then it sends another one to
  -- the first node. That one visits the nodes of the path in order, and the last one accepts for itself the
  -- datagram that was sent at first, but for its destination. All addresses have 32 bits.
  pub local_out_hook-journey :
      (new : SkBuff) × (s' : Topology) × (daddr : ℕ) × (local_out_hook conf mem k udp_port loopback
          skb
          (net a)
        ≡ some (Verdict.nf_stolen new, s'))
      × (owner new.iph.daddr ≡ x)
      × (journey net owner conf mem k (length (x ∷ xs)) x new
          ≡ some (x ∷ xs, record skb { iph = record (skb.iph) { daddr = daddr } }))
  local_out_hook-journey =
      let size = path_size (x ∷ xs) in
      let (g, expands, gap) = works.expand size in
      let room : header_size + ip_v4_size * length (x ∷ xs) ≤ length k.stack =
        omega (arith, works.stack, fills.fits) in
      let new =
        outgoing conf mem k (net a) skb x xs words cached room udp_port loopback first.real_addr g
          fills expands gap works.pointer_new works.routed first.linked first.known chosen in
      let hd = head_bytes conf mem k (net a) skb x xs words cached room in
      let udp = udp_bytes conf mem k (net a) skb x xs words cached room in
      let h = with_version (first_header skb) in
      let proto = check_if_update-udp udp_port loopback skb chosen in
      let ok : IsHeader h = record {
        version = omega arith;
        protocol = omega (arith, proto);
        empty = omega arith;
        hops = omega arith;
        cur = omega arith;
        first_node = plain.source;
      } in
      let at : ip_size skb ≡ length hd =
        omega (arith, length-take (ip_size skb) skb.data_bytes, fills.header) in
      let (daddr, goes) =
        journey-Arrives net owner conf mem k hd udp h (x ∷ xs) ok (omega (arith, proto)) words
          (omega (arith, fills.fits)) works.writable works.pointer x xs new refl route at refl
          (record { protocol = refl; more = plain.more; offset = plain.offset }) in
      let whole = take-append-drop (ip_size skb) skb.data_bytes in
      let len : skb_len skb ≡ length hd + length udp =
        omega (arith, ap length whole, length-append hd udp) in
      let total : htons (sub_word (htons (htons (length hd + length udp + size))) size)
          ≡ skb.iph.tot_len =
        sub_word-add (length hd + length udp) size (omega (arith, fills.fits, len))
        ∙ ap htons (omega (arith, fills.total, len))
        ∙ htons-htons skb.iph.tot_len fills.field in
      (
        new,
        used conf mem k (net a) skb x xs words cached room,
        daddr,
        local_out_hook-cached conf mem k (net a) skb x xs words cached room udp_port loopback
            first.real_addr g fills expands gap works.pointer_new works.routed first.linked
            first.known chosen,
        first.owned,
        goes
            ∙ ap
                (λ l. some (
                  x ∷ xs,
                  record {
                    data_bytes = l;
                    iph = record (skb.iph) {
                      tot_len =
                          htons (sub_word (htons (htons (length hd + length udp + size))) size);
                      daddr = daddr;
                    };
                  },
                ))
                whole
            ∙ ap
                (λ n.
                  some
                    (x ∷ xs, record skb { iph = record (skb.iph) { tot_len = n; daddr = daddr } }))
                total,
      )
