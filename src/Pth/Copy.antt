-- ===== src/Pth/Copy.antt =====
-- The path that pth_copy_path writes in front of a datagram, and the way of that datagram.
use mathlib.Core.List.{append_assoc}
use mpolsr_testbed.Common.{
  ℕ, ◌+◌, ◌*◌, ◌<◌, ◌≤◌, ◌≡◌, ◌≢◌, refl, ap, ◌∙◌, Bool, true, some, List, ◌∷◌, ◌++◌, All,
  take-length, drop, length, length-append, if◌then◌else◌, arith,
}
use mpolsr_testbed.Bytes.{
  encode_addrs, encode_header, header_size, ip_v4_size, IsHeader, IsWord, length-encode_addrs,
  length-encode_header, read_addr-encode, SerHeader, write, write_lem,
}
use mpolsr_testbed.Tc.{LocalLink, OlsrPath, Topology}
use mpolsr_testbed.Pth.{copy_path, find_alias, known_alias, mpolsr_version, PathCopy}
use mpolsr_testbed.Pth.Hop.{at_hop, datagram}
use mpolsr_testbed.Pth.Travel.{IsNeighbour, IsRoute, travel, travel-datagram}

abbrev pub path_of : List ℕ → OlsrPath
path_of xs = record { path = xs; path_hops = length xs }

abbrev pub with_version : SerHeader → SerHeader
with_version h = record h { version = mpolsr_version }

module _ (h : SerHeader) (x : ℕ) (xs path_data : List ℕ) (words : All IsWord (x ∷ xs))
    (fits : header_size + ip_v4_size * length (x ∷ xs) ≤ length path_data) where
  abbrev pub rest : List ℕ
  rest = drop (header_size + ip_v4_size * length (x ∷ xs)) path_data

  write-path :
      write (encode_header (at_hop (with_version h) (x ∷ xs) 1) ++ encode_addrs (x ∷ xs)) path_data
      ≡ some (datagram (with_version h) (x ∷ xs) rest 1)
  write-path =
      let head = encode_header (at_hop (with_version h) (x ∷ xs) 1) in
      let addrs = encode_addrs (x ∷ xs) in
      let size : length (head ++ addrs) ≡ header_size + ip_v4_size * length (x ∷ xs) =
        length-append head addrs
        ∙ ap (λ n. n + length addrs) (length-encode_header (at_hop (with_version h) (x ∷ xs) 1))
        ∙ ap (λ n. header_size + n) (length-encode_addrs (x ∷ xs)) in
      write_lem (head ++ addrs) path_data (omega (arith, size, fits))
      ∙ ap (λ n. some ((head ++ addrs) ++ drop n path_data)) size
      ∙ ap some (append_assoc head addrs rest)

  pub copy_path_lem :
      (src_local : Bool) (links : List LocalLink)
      → copy_path (path_of (x ∷ xs)) path_data src_local h links
        ≡ some (record {
          path_data = datagram (with_version h) (x ∷ xs) rest 1;
          size = length (x ∷ xs) * ip_v4_size + header_size;
          next_hop = if src_local then known_alias (find_alias x links) else some x;
        })
  unfolding copy_path
  copy_path_lem src_local links =
      rw
        (
          take-length (x ∷ xs),
          write-path,
          read_addr-encode (at_hop (with_version h) (x ∷ xs) 1) (x ∷ xs) rest 0 x words refl,
        )
        refl

pub known_alias-ne : (a : ℕ) → a ≢ 0 → known_alias (some a) ≡ some a
unfolding known_alias
known_alias-ne a h = ground arith

-- A path of 32-bit addresses, with at least one hop and fewer than 65536, is copied at the local node to
-- a buffer that it fits into, in a network of nodes that know themselves and have a local link to the
-- node behind them in the path, the local node to the first one: there is a next hop, and the datagram
-- that is sent to its owner visits the nodes of the path in order and is at its end at the last one.
pub copied_arrives :
    (net : ℕ → Topology) (owner : ℕ → ℕ) (h : SerHeader) (a x : ℕ) (xs path_data : List ℕ)
    → IsHeader h
    → All IsWord (x ∷ xs)
    → length (x ∷ xs) < 65536
    → header_size + ip_v4_size * length (x ∷ xs) ≤ length path_data
    → IsNeighbour net owner a x
    → IsRoute net owner (x ∷ xs)
    → (c : PathCopy) × (addr : ℕ) × (copy_path
          (path_of (x ∷ xs))
          path_data
          true
          h
          (net a).local_links
        ≡ some c)
      × (c.next_hop ≡ some addr)
      × (travel net owner (length (x ∷ xs)) (owner addr) c.path_data ≡ some (x ∷ xs))
copied_arrives net owner h a x xs path_data ok words short fits first route =
    let ok' : IsHeader (with_version h) = record {
      version = omega arith;
      protocol = ok.protocol;
      empty = ok.empty;
      hops = ok.hops;
      cur = ok.cur;
      first_node = ok.first_node;
    } in
    (
      _,
      first.real_addr,
      copy_path_lem h x xs path_data words fits true (net a).local_links,
      rw first.linked (known_alias-ne first.real_addr first.known),
      rw first.owned (
          travel-datagram net owner (with_version h) (x ∷ xs) (rest h x xs path_data words fits) ok'
            words short x xs refl route),
    )
