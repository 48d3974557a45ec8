-- ===== src/Hooks/Journey.antt =====
-- The way of a datagram through the pre-routing hooks of the nodes of a network.
use mpolsr_testbed.Common.{
  ℕ, zero, suc, ◌≤◌, ◌≡◌, ◌≢◌, ◌∙◌, refl, sym, ap, subst, true, Option, none, some, List, [], ◌∷◌,
  ◌++◌, All, length, drop, ◌==◌, if◌then◌else◌, ◌>>=◌, arith,
}
use mpolsr_testbed.Bytes.{htons, IsHeader, IsWord, SerHeader}
use mpolsr_testbed.Tc.{Topology}
use mpolsr_testbed.Kdjk.{Config, Memory}
use mpolsr_testbed.Pth.Hop.{datagram}
use mpolsr_testbed.Pth.Travel.{drop-cons, IsRoute}
use mpolsr_testbed.Skb.{ip_size, SkBuff, sub_word}
use mpolsr_testbed.Hooks.{Kernel, ser_protocol, Verdict}
use mpolsr_testbed.Hooks.PreRouting.{pre_routing_hook}
use mpolsr_testbed.Hooks.Payload.{path_size}
use mpolsr_testbed.Hooks.Receive.{forwarded, IsWhole, pre_routing_hook-last, pre_routing_hook-next}

module _ (net : ℕ → Topology) (owner : ℕ → ℕ) (conf : Config) (mem : Memory) (k : Kernel) where
  -- The datagram as the hook of a node accepts it: if it still has the protocol for paths, it goes to the
  -- node that owns the address it is sent to. The result has the nodes that it visits and the datagram
  -- that the last one accepts for itself; the fuel bounds the number of nodes.
  unfoldable pub journey : ℕ → ℕ → SkBuff → Option (List ℕ × SkBuff)
  journey zero node skb = none
  journey (suc fuel) node skb = pre_routing_hook conf mem k skb (net node) >>= λ r. elim r.0 [
    | Verdict.nf_drop ↦ none
    | Verdict.nf_stolen new ↦ none
    | Verdict.nf_accept skb' ↦
        let rest = journey fuel (owner skb'.iph.daddr) skb' >>= λ t. some (node ∷ t.0, t.1) in
        if skb'.iph.protocol == ser_protocol then rest else some (node ∷ [], skb')
  ]

  journey-next :
      (fuel x y : ℕ) (skb skb' last : SkBuff) (ns : List ℕ)
      → pre_routing_hook conf mem k skb (net x) ≡ some (Verdict.nf_accept skb', net x)
      → skb'.iph.protocol ≡ ser_protocol
      → owner skb'.iph.daddr ≡ y
      → journey fuel y skb' ≡ some (ns, last)
      → journey (suc fuel) x skb ≡ some (x ∷ ns, last)
  unfolding journey
  journey-next fuel x y skb skb' last ns accepts proto own goes =
      rw (accepts, own, goes, proto) refl

  journey-last :
      (fuel x : ℕ) (skb skb' : SkBuff)
      → pre_routing_hook conf mem k skb (net x) ≡ some (Verdict.nf_accept skb', net x)
      → skb'.iph.protocol ≢ ser_protocol
      → journey (suc fuel) x skb ≡ some (x ∷ [], skb')
  unfolding journey
  journey-last fuel x skb skb' accepts proto = rw accepts (ground (arith, proto))

  module _ (hd udp : List ℕ) (h : SerHeader) (xs : List ℕ) (ok : IsHeader h)
      (other : h.protocol ≢ ser_protocol) (words : All IsWord xs) (fits : path_size xs ≤ 65536)
      (writable : k.writable ≡ true) (pointer : k.pointer ≡ true) where
    -- The datagram at the end of its journey, sent to the address `daddr` of the last node.
    abbrev pub arrived : SkBuff → ℕ → SkBuff
    arrived skb daddr = record {
      data_bytes = hd ++ udp;
      iph = record (skb.iph) {
        tot_len = htons (sub_word (htons skb.iph.tot_len) (path_size xs));
        protocol = h.protocol;
        saddr = h.first_node;
        daddr = daddr;
      };
    }

    abbrev pub Arrives : ℕ → ℕ → SkBuff → List ℕ → Type 0
    Arrives fuel y skb ys = (daddr : ℕ) × (journey fuel y skb ≡ some (ys, arrived skb daddr))

    journey-from :
        (i y : ℕ) (ys : List ℕ) (skb : SkBuff)
        → drop i xs ≡ y ∷ ys
        → IsRoute net owner (y ∷ ys)
        → ip_size skb ≡ length hd
        → skb.data_bytes ≡ hd ++ (datagram h xs [] (suc i) ++ udp)
        → IsWhole skb
        → Arrives (suc (length ys)) y skb (y ∷ ys)
    journey-from i y [] skb e route at bytes whole =
        let (here, _, size) = drop-cons i y xs [] e in
        (
          skb.iph.daddr,
          journey-last 0 y skb _
              (pre_routing_hook-last skb hd udp h xs (suc i) at bytes ok fits conf mem k (net y)
                writable pointer whole words i refl (omega (arith, size))
                (here ∙ ap some (sym route)))
              other,
        )
    journey-from i y (z ∷ ys) skb e route at bytes whole =
        let (here, tail, size) = drop-cons i y xs (z ∷ ys) e in
        let (there, _, _) = drop-cons (suc i) z xs ys tail in
        let addr = route.1.real_addr in
        let skb' =
          forwarded skb hd udp h xs (suc i) at bytes ok fits conf mem k (net y) writable pointer
            whole words (suc (suc i)) addr in
        let (daddr, goes) =
          journey-from (suc i) z ys skb' tail route.2 at refl
            (record { protocol = whole.protocol; more = whole.more; offset = whole.offset }) in
        (
          daddr,
          journey-next (suc (length ys)) y z skb skb' (arrived skb daddr) (z ∷ ys)
              (pre_routing_hook-next skb hd udp h xs (suc i) at bytes ok fits conf mem k (net y)
                writable pointer whole words i z addr refl (omega (arith, size))
                (here ∙ ap some (sym route.0)) there route.1.linked route.1.known)
              whole.protocol route.1.owned goes,
        )

    -- In a network of nodes that know themselves and have a local link to the node behind them in a path
    -- of 32-bit addresses, with at most 65536 bytes: a whole datagram at the first node and the first hop of
    -- the path, with another protocol in its header, in one piece and writable everywhere, visits the nodes
    -- of the path in order, and the last one accepts it for itself without the path, with the protocol and
    -- first node of its header.
    pub journey-Arrives :
        (y : ℕ) (ys : List ℕ) (skb : SkBuff)
        → xs ≡ y ∷ ys
        → IsRoute net owner xs
        → ip_size skb ≡ length hd
        → skb.data_bytes ≡ hd ++ (datagram h xs [] 1 ++ udp)
        → IsWhole skb
        → Arrives (length xs) y skb xs
    journey-Arrives y ys skb e route at bytes whole =
        subst (λ l. Arrives (length l) y skb l) (sym e)
          (journey-from 0 y ys skb e (subst (IsRoute net owner) e route) at bytes whole)
