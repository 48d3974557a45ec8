-- ===== src/Hooks/Tests.antt =====
-- A UDP datagram from 10 over 20 to 30, through the hooks.
use mpolsr_testbed.Common.{
  ℕ, ◌≡◌, refl, true, false, some, List, [], ◌∷◌, ◌++◌, replicate, length-replicate, ◌==◌,
  if◌then◌else◌, take, drop, arith,
}
use mpolsr_testbed.Bytes.{encode_addrs, encode_header, htons, IsHeader, SerHeader}
use mpolsr_testbed.Tc.{Topology}
use mpolsr_testbed.Tc.Hash.{add_node_addr, find_addr, get_node}
use mpolsr_testbed.Tc.Local.{find_in_net, find_interface, update_local_link}
use mpolsr_testbed.Tc.Nodes.{add_node, clear_node}
use mpolsr_testbed.Tc.Links.{add_link, insert_link}
use mpolsr_testbed.Tc.Tests.{network}
use mpolsr_testbed.Kdjk.Tests.{conf, memory}
use mpolsr_testbed.Pth.{find_alias, find_buffer, next_path, use_path}
use mpolsr_testbed.Pth.Hop.{datagram}
use mpolsr_testbed.Pth.Travel.{IsNeighbour}
use mpolsr_testbed.Pth.Copy.{path_of}
use mpolsr_testbed.Pth.Tests.{entry, from_20, nodes, owner}
use mpolsr_testbed.Skb.{add_path, remove_path, replace_path, SkBuff}
use mpolsr_testbed.Skb.RoundTrip.{IsDatagram, remove_path-add_path, with_data}
use mpolsr_testbed.Skb.Replace.{replace_path_lem}
use mpolsr_testbed.Hooks.{Kernel, Verdict}
use mpolsr_testbed.Hooks.PreRouting.{pre_routing_hook}
use mpolsr_testbed.Hooks.LocalOut.{check_if_update, local_out_hook}
use mpolsr_testbed.Hooks.Receive.{
  IsWhole, pre_routing_hook-invalid, pre_routing_hook-last, pre_routing_hook-next,
}
use mpolsr_testbed.Hooks.Journey.{journey, journey-Arrives}
use mpolsr_testbed.Hooks.Send.{IsCached, local_out_hook-cached}
use mpolsr_testbed.Hooks.Delivery.{IsWorking, local_out_hook-journey}

-- A header of 20 bytes, and UDP to the port 1234.
abbrev ip_bytes : List ℕ
ip_bytes = replicate 20 1

abbrev udp : List ℕ
udp = 0 ∷ 1 ∷ 4 ∷ 210 ∷ 0 ∷ 8 ∷ 0 ∷ 0 ∷ []

abbrev first : SkBuff
first = record {
  data_bytes = ip_bytes ++ udp;
  iph = record { ihl = 5; tot_len = htons 28; frag_off = 0; protocol = 17; saddr = 10; daddr = 30 };
}

first-IsDatagram : IsDatagram first 20
first-IsDatagram = record {
  header = omega arith;
  total = refl;
  field = omega arith;
  fits = omega arith;
}

remove_path-add_path_example :
    (skb' : SkBuff) × (add_path true
        (replicate 20 7)
        20
        (record first { data_bytes = first.data_bytes ++ replicate 20 0 })
      ≡ some (some skb'))
    × (remove_path true 20 skb' ≡ some (some first))
remove_path-add_path_example =
    remove_path-add_path first (replicate 20 7) (replicate 20 0) 20 first-IsDatagram refl
      (omega arith)

abbrev header : SerHeader
header = record { version = 1; protocol = 17; empty = 0; hops = 0; cur = 0; first_node = 10 }

header-IsHeader : IsHeader header
header-IsHeader = record {
  version = omega arith;
  protocol = omega arith;
  empty = omega arith;
  hops = omega arith;
  cur = omega arith;
  first_node = omega arith;
}

-- The datagram with its path, at a hop.
abbrev at : ℕ → SkBuff
at cur = record {
  data_bytes = ip_bytes ++ (datagram header (20 ∷ 30 ∷ []) [] cur ++ udp);
  iph = record {
    ihl = 5;
    tot_len = htons 48;
    frag_off = 0;
    protocol = 99;
    saddr = 10;
    daddr = 120;
  };
}

-- One with a longer payload.
abbrev long : SkBuff
long = record {
  data_bytes = ip_bytes ++ (datagram header (20 ∷ 30 ∷ []) [] 1 ++ (udp ++ udp));
  iph = record ((at 1).iph) { tot_len = htons 56 };
}

-- The last four bytes are all that is left of the payload, and the old header is still there.
replace_path_lem_example :
    replace_path true (replicate 20 7) 20 20 long
    ≡ some (
        some
          (with_data long (take 32 long.data_bytes ++ (replicate 20 7 ++ (0 ∷ 8 ∷ 0 ∷ 0 ∷ []))) 56))
unfolding encode_header encode_addrs
replace_path_lem_example =
    replace_path_lem long (take 32 long.data_bytes) (drop 32 long.data_bytes) [] (replicate 20 7) 20
      20 refl refl refl (omega arith) refl (omega arith) (omega arith)

abbrev kernel : Kernel
kernel = record {
  writable = true;
  linearized = true;
  pointer = true;
  pointer_new = true;
  copied = true;
  expand = λ n. some (replicate n 0);
  routed = true;
  stack = replicate 65536 0;
}

at-IsWhole : (cur : ℕ) → IsWhole (at cur)
at-IsWhole cur = record { protocol = refl; more = refl; offset = refl }

pre_routing_hook-last_example :
    pre_routing_hook conf memory kernel (at 2) (nodes 30)
    ≡ some (
      Verdict.nf_accept (record {
        data_bytes = ip_bytes ++ udp;
        iph = record {
          ihl = 5;
          tot_len = htons 28;
          frag_off = 0;
          protocol = 17;
          saddr = 10;
          daddr = 120;
        };
      }),
      nodes 30,
    )
pre_routing_hook-last_example =
    pre_routing_hook-last (at 2) ip_bytes udp header (20 ∷ 30 ∷ []) 2 refl refl header-IsHeader
      (omega arith) conf memory kernel (nodes 30) refl refl (at-IsWhole 2)
      (omega arith, (omega arith, tt)) 1 refl refl refl

pre_routing_hook-next_example :
    pre_routing_hook conf memory kernel (at 1) (nodes 20)
    ≡ some
        (Verdict.nf_accept (record (at 2) { iph = record ((at 2).iph) { daddr = 130 } }), nodes 20)
unfolding find_alias
pre_routing_hook-next_example =
    pre_routing_hook-next (at 1) ip_bytes udp header (20 ∷ 30 ∷ []) 1 refl refl header-IsHeader
      (omega arith) conf memory kernel (nodes 20) refl refl (at-IsWhole 1)
      (omega arith, (omega arith, tt)) 0 30 130 refl (omega arith) refl refl refl (omega arith)

pre_routing_hook-invalid_example :
    pre_routing_hook conf memory kernel (at 3) (nodes 20)
    ≡ some (
      Verdict.nf_accept (record {
        data_bytes = ip_bytes ++ udp;
        iph = record {
          ihl = 5;
          tot_len = htons 28;
          frag_off = 0;
          protocol = 17;
          saddr = 10;
          daddr = 120;
        };
      }),
      nodes 20,
    )
pre_routing_hook-invalid_example =
    pre_routing_hook-invalid (at 3) ip_bytes udp header (20 ∷ 30 ∷ []) 3 refl refl header-IsHeader
      (omega arith) conf memory kernel (nodes 20) refl refl (at-IsWhole 3)
      (omega arith, (omega arith, tt)) (omega arith) (omega arith)

journey-Arrives_example :
    (daddr : ℕ) × (journey nodes owner conf memory kernel 2 20 (at 1)
      ≡ some (20 ∷ 30 ∷ [], record first { iph = record (first.iph) { daddr = daddr } }))
journey-Arrives_example =
    journey-Arrives nodes owner conf memory kernel ip_bytes udp header (20 ∷ 30 ∷ [])
      header-IsHeader (omega arith) (omega arith, (omega arith, tt)) (omega arith) refl refl 20
      (30 ∷ []) (at 1) refl (refl, from_20, refl) refl refl (at-IsWhole 1)

-- The network in which 10 knows the topology, and has two paths to 30.
abbrev source : Topology
source = record network {
  path_buffer = entry ∷ [];
  local_addr_tab = 10 ∷ [];
  local_links = (nodes 10).local_links;
}

abbrev all_nodes : ℕ → Topology
all_nodes node = if node == 10 then source else nodes node

source-IsCached : IsCached source 10 30 (path_of (20 ∷ 30 ∷ []))
unfolding find_addr add_node clear_node add_node_addr add_link insert_link get_node
    update_local_link find_interface find_in_net find_buffer
source-IsCached = record {
  src = 1;
  dst = 3;
  dst_main = 30;
  buffer = entry;
  paths = path_of (30 ∷ []) ∷ [];
  has_src = refl;
  src_local = refl;
  has_dst = refl;
  has_main = refl;
  found = refl;
  list = refl;
}

kernel-IsWorking : IsWorking kernel
kernel-IsWorking = record {
  writable = refl;
  pointer = refl;
  pointer_new = refl;
  routed = refl;
  stack = length-replicate {A = ℕ} 65536 0;
  expand = λ n. (replicate n 0, refl, length-replicate {A = ℕ} n 0);
}

first_chosen : check_if_update 1234 false first ≡ some true
unfolding check_if_update
first_chosen = refl

all_from_10 : IsNeighbour all_nodes owner 10 20
unfolding find_alias
all_from_10 = record { real_addr = 120; linked = refl; known = omega arith; owned = refl }

all_from_20 : IsNeighbour all_nodes owner 20 30
unfolding find_alias
all_from_20 = record { real_addr = 130; linked = refl; known = omega arith; owned = refl }

local_out_hook-journey_example :
    (new : SkBuff) × (s' : Topology) × (daddr : ℕ) × (local_out_hook conf memory kernel 1234 false
        first source
      ≡ some (Verdict.nf_stolen new, s'))
    × (owner new.iph.daddr ≡ 20)
    × (journey all_nodes owner conf memory kernel 2 20 new
        ≡ some (20 ∷ 30 ∷ [], record first { iph = record (first.iph) { daddr = daddr } }))
local_out_hook-journey_example =
    local_out_hook-journey all_nodes owner conf memory kernel kernel-IsWorking 1234 false 10 20
      (30 ∷ []) first (omega arith, (omega arith, tt))
      (record { more = refl; offset = refl; source = omega arith }) source-IsCached first-IsDatagram
      first_chosen all_from_10 (refl, all_from_20, refl)

-- A smaller buffer for the path is enough.
abbrev small : Kernel
small = record kernel { stack = replicate 24 0 }

local_out_hook-cached_example :
    local_out_hook conf memory small 1234 false first source
    ≡ some (
      Verdict.nf_stolen (record (at 1) { iph = record ((at 1).iph) { daddr = 120 } }),
      record source {
        path_buffer =
            record entry { lst_path = path_of (30 ∷ []) ∷ path_of (20 ∷ 30 ∷ []) ∷ [] } ∷ [];
      },
    )
unfolding use_path next_path find_alias source-IsCached
local_out_hook-cached_example =
    local_out_hook-cached conf memory small source first 20 (30 ∷ [])
      (omega arith, (omega arith, tt)) source-IsCached (omega arith) 1234 false 120 (replicate 20 0)
      first-IsDatagram refl refl refl refl refl (omega arith) first_chosen
