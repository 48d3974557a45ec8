-- ===== src/Pth/Tests.antt =====
-- A datagram on its way from 10 over 20 to 30.
use mpolsr_testbed.Common.{
  ℕ, ◌≡◌, refl, true, ◌==◌, if◌then◌else◌, Option, none, some, List, [], ◌∷◌, replicate, map, arith,
}
use mpolsr_testbed.Bytes.{encode_addrs, encode_header, IsHeader, SerHeader, write, word}
use mpolsr_testbed.Tc.{PathBuffer, Topology}
use mpolsr_testbed.Tc.Tests.{blank}
use mpolsr_testbed.Kdjk.Tests.{conf, memory}
use mpolsr_testbed.Pth.{copy_path, find_alias, find_buffer, known_alias, PathCopy}
use mpolsr_testbed.Pth.Hop.{datagram}
use mpolsr_testbed.Pth.Travel.{IsNeighbour, travel, travel-datagram}
use mpolsr_testbed.Pth.Copy.{copied_arrives, path_of}
use mpolsr_testbed.Pth.Cache.{copy_all, serve, serve_round}

abbrev header : SerHeader
header = record { version = 0; protocol = 17; empty = 0; hops = 0; cur = 0; first_node = 10 }

header-IsHeader : IsHeader header
header-IsHeader = record {
  version = omega arith;
  protocol = omega arith;
  empty = omega arith;
  hops = omega arith;
  cur = omega arith;
  first_node = omega arith;
}

-- The addresses of the interfaces are 120 of the node 20, and 130 of 30.
abbrev pub owner : ℕ → ℕ
owner addr = if addr == 120 then 20 else 30

-- 10 has a link to 20, and 20 one to 30.
abbrev pub nodes : ℕ → Topology
nodes node = record blank {
  local_addr_tab = node ∷ [];
  local_links =
      if node == 10
      then record {
        dst_addr_ip = 20;
        dst_alias_ip = 120;
        local_addr_alias = 110;
        local_addr_mask = 255;
      }
        ∷ []
      else record {
        dst_addr_ip = 30;
        dst_alias_ip = 130;
        local_addr_alias = 121;
        local_addr_mask = 255;
      }
        ∷ [];
}

from_10 : IsNeighbour nodes owner 10 20
unfolding find_alias
from_10 = record { real_addr = 120; linked = refl; known = ground arith; owned = refl }

pub from_20 : IsNeighbour nodes owner 20 30
unfolding find_alias
from_20 = record { real_addr = 130; linked = refl; known = ground arith; owned = refl }

travel-datagram_example :
    travel nodes owner 2 20 (datagram header (20 ∷ 30 ∷ []) [] 1) ≡ some (20 ∷ 30 ∷ [])
travel-datagram_example =
    travel-datagram nodes owner header (20 ∷ 30 ∷ []) [] header-IsHeader
      (omega arith, (omega arith, tt)) (omega arith) 20 (30 ∷ []) refl (refl, from_20, refl)

abbrev buffer : List ℕ
buffer = replicate 24 7

copied_arrives_example :
    (c : PathCopy) × (addr : ℕ) × (copy_path
        (path_of (20 ∷ 30 ∷ []))
        buffer
        true
        header
        (nodes 10).local_links
      ≡ some c)
    × (c.next_hop ≡ some addr)
    × (travel nodes owner 2 (owner addr) c.path_data ≡ some (20 ∷ 30 ∷ []))
copied_arrives_example =
    copied_arrives nodes owner header 10 20 (30 ∷ []) buffer header-IsHeader
      (omega arith, (omega arith, tt)) (omega arith) (omega arith) from_10 (refl, from_20, refl)

-- The cache has two paths from 10 to 30.
abbrev pub entry : PathBuffer
entry = record {
  src_addr_ip = 10;
  dst_addr_ip = 30;
  lst_path = path_of (20 ∷ 30 ∷ []) ∷ path_of (30 ∷ []) ∷ [];
}

abbrev cached : Topology
cached = record (nodes 10) { path_buffer = entry ∷ [] }

abbrev or_nothing : Option (List PathCopy) → List PathCopy
or_nothing none = []
or_nothing (some cs) = cs

abbrev copies : List PathCopy
copies = or_nothing (copy_all buffer header true cached.local_links entry.lst_path)

copied : copy_all buffer header true cached.local_links entry.lst_path ≡ some copies
unfolding copy_all copy_path write encode_header encode_addrs word find_alias known_alias
copied = refl

-- The second path has no local link, so it has no next hop.
copies_next : map (λ (c : PathCopy). c.next_hop) copies ≡ some 120 ∷ none ∷ []
unfolding copy_all copy_path write encode_header encode_addrs word find_alias known_alias
copies_next = refl

serve_round_example :
    serve buffer header conf memory 10 30 2 cached ≡ some (map some copies, cached)
unfolding find_buffer
serve_round_example = serve_round buffer header conf memory 10 30 cached entry copies refl copied
