-- ===== src/Pth/Hop.antt =====
-- What pth_isEndOfPath and pth_checkNextHop do with a datagram that is at a hop of its path.
use mpolsr_testbed.Common.{
  ℕ, suc, ◌+◌, ◌*◌, ◌<◌, ◌≡◌, refl, some, List, ◌++◌, All, lt→ltb, ==_refl, length, get_elem?,
  arith,
}
use mpolsr_testbed.Bytes.{
  decode_header, decode_header-encode_header, encode_addrs, encode_header, header_size, htons,
  ip_v4_size, IsHeader, IsWord, read_addr, read_addr-encode, SerHeader, write,
}
use mpolsr_testbed.Tc.{Topology}
use mpolsr_testbed.Tc.Local.{local_addr}
use mpolsr_testbed.Pth.{check_next_hop, End, find_alias, hop_offset, is_end_of_path, next_of_alias}

pub htons-htons : (x : ℕ) → x < 65536 → htons (htons x) ≡ x
htons-htons x h = ground arith

-- The header and the datagram at the hop `cur` of the path `xs`, with the bytes behind it.
abbrev pub at_hop : SerHeader → List ℕ → ℕ → SerHeader
at_hop h xs cur = record h { hops = htons (length xs); cur = htons cur }

abbrev pub datagram : SerHeader → List ℕ → List ℕ → ℕ → List ℕ
datagram h xs rest cur = encode_header (at_hop h xs cur) ++ (encode_addrs xs ++ rest)

pub at_hop-IsHeader :
    (h : SerHeader) (xs : List ℕ) (cur : ℕ) → IsHeader h → IsHeader (at_hop h xs cur)
at_hop-IsHeader h xs cur ok = record {
  version = ok.version;
  protocol = ok.protocol;
  empty = ok.empty;
  hops = ground arith;
  cur = ground arith;
  first_node = ok.first_node;
}

pub decode-datagram :
    (h : SerHeader) (xs rest : List ℕ) (cur : ℕ)
    → IsHeader h
    → decode_header (datagram h xs rest cur) ≡ some (at_hop h xs cur)
decode-datagram h xs rest cur ok =
    decode_header-encode_header (at_hop h xs cur) (encode_addrs xs ++ rest)
      (at_hop-IsHeader h xs cur ok)

read_addr-hop :
    (h : SerHeader) (xs rest : List ℕ) (cur i x : ℕ)
    → All IsWord xs
    → get_elem? xs i ≡ some x
    → read_addr (datagram h xs rest cur) (hop_offset (suc i)) ≡ some x
read_addr-hop h xs rest cur i x ok e =
    let shift : hop_offset (suc i) ≡ header_size + ip_v4_size * i = omega arith in
    rw shift (read_addr-encode (at_hop h xs cur) xs rest i x ok e)

-- A new header replaces the old one.
write-header :
    (h h' : SerHeader) (xs : List ℕ)
    → write (encode_header h') (encode_header h ++ xs) ≡ some (encode_header h' ++ xs)
unfolding write encode_header
write-header h h' xs = refl

module _ (h : SerHeader) (xs rest : List ℕ) (s : Topology) (ok : IsHeader h) (words : All IsWord xs)
    (short : length xs < 65536) where
  -- A datagram at the last hop of its path, which is the local node, is at the end of the path.
  pub is_end_of_path-last :
      (i : ℕ)
      → length xs ≡ suc i
      → get_elem? xs i ≡ some (local_addr s)
      → is_end_of_path (datagram h xs rest (suc i)) s ≡ some End.at_end
  unfolding is_end_of_path
  is_end_of_path-last i last here =
      rw
        (
          decode-datagram h xs rest (suc i) ok,
          htons-htons (length xs) short,
          htons-htons (suc i) (omega arith),
          read_addr-hop h xs rest (suc i) i (local_addr s) words here,
        )
        (ground arith)

  pub is_end_of_path-before :
      (i : ℕ) → suc i < length xs → is_end_of_path (datagram h xs rest (suc i)) s ≡ some End.not_end
  unfolding is_end_of_path
  is_end_of_path-before i before =
      rw
        (
          decode-datagram h xs rest (suc i) ok,
          htons-htons (length xs) short,
          htons-htons (suc i) (omega arith),
        )
        (ground arith)

  pub check_next_hop-step :
      (i x : ℕ)
      → suc i < length xs
      → get_elem? xs i ≡ some (local_addr s)
      → get_elem? xs (suc i) ≡ some x
      → check_next_hop (datagram h xs rest (suc i)) s
        ≡ some (next_of_alias (find_alias x s.local_links), datagram h xs rest (suc (suc i)))
  unfolding check_next_hop
  check_next_hop-step i x before here there =
      rw
        (
          decode-datagram h xs rest (suc i) ok,
          htons-htons (length xs) short,
          htons-htons (suc i) (omega arith),
          read_addr-hop h xs rest (suc i) i (local_addr s) words here,
          lt→ltb (suc i) (length xs) before,
          ==_refl (local_addr s),
          write-header (at_hop h xs (suc i)) (at_hop h xs (suc i + 1)) (encode_addrs xs ++ rest),
          plus,
          next_offset,
          read_addr-hop h xs rest (suc (suc i)) (suc i) x words there,
        )
        refl
    where
      plus : suc i + 1 ≡ suc (suc i)
      plus = omega arith

      next_offset : hop_offset (suc i) + ip_v4_size ≡ hop_offset (suc (suc i))
      next_offset = omega arith
