-- ===== src/Pth.antt =====
-- The paths in datagrams, src_iptables/ser_module/ser_path.c.
--
-- `path_data` is the buffer with the header and the addresses, a list of bytes. A read or write past its
-- end, or a read through NULL, is `none`. The debug messages and locks are left out.
pub mod Hop
pub mod Travel
pub mod Copy
pub mod Cache
pub mod Tests
use mpolsr_testbed.Common.{
  ℕ, zero, suc, ◌+◌, ◌-◌, ◌*◌, Bool, true, false, ◌&&◌, Option, none, some, List, [], ◌∷◌, ◌++◌,
  ltb, ◌==◌, if◌then◌else◌, ◌>>=◌, take, drop,
}
use mpolsr_testbed.Bytes.{
  decode_header, encode_addrs, encode_header, header_size, htons, ip_v4_size, read_addr, SerHeader,
  write,
}
use mpolsr_testbed.Tc.{LocalLink, OlsrPath, PathBuffer, Topology}
use mpolsr_testbed.Tc.Hash.{get_node, main_addr}
use mpolsr_testbed.Tc.Local.{local_addr}
use mpolsr_testbed.Kdjk.{Config, k_dijkstra, Memory}

abbrev pub mpolsr_version : ℕ
mpolsr_version = 1

-- dst_alias_ip of the first local link to `addr`.
unfoldable pub find_alias : ℕ → List LocalLink → Option ℕ
find_alias addr [] = none
find_alias addr (link ∷ links) =
    if link.dst_addr_ip == addr then some link.dst_alias_ip else find_alias addr links

-- What a path is copied to: the buffer, `*pSize`, and `*nextHop`, which is `none` where the result is
-- -1 and the variable is not written.
pub record PathCopy : Type 0 where
  pub path_data : List ℕ
  pub size : ℕ
  pub next_hop : Option ℕ

-- An alias of 0 is incomplete data.
unfoldable pub known_alias : Option ℕ → Option ℕ
known_alias none = none
known_alias (some real_addr) = if real_addr == 0 then none else some real_addr

unfoldable pub copy_path : OlsrPath → List ℕ → Bool → SerHeader → List LocalLink → Option PathCopy
copy_path path path_data src_local pheader links =
    let header : SerHeader = record pheader {
      version = mpolsr_version;
      hops = htons path.path_hops;
      cur = htons 1;
    } in
    write (encode_header header ++ encode_addrs (take path.path_hops path.path)) path_data
    >>= λ buffer. read_addr buffer header_size >>= λ addr. some (record {
      path_data = buffer;
      size = path.path_hops * ip_v4_size + header_size;
      next_hop = if src_local then known_alias (find_alias addr links) else some addr;
    })

unfoldable pub find_buffer : ℕ → ℕ → List PathBuffer → Option PathBuffer
find_buffer src dst [] = none
find_buffer src dst (buffer ∷ buffers) =
    if (buffer.src_addr_ip == src) && (buffer.dst_addr_ip == dst)
    then some buffer
    else find_buffer src dst buffers

-- The ring from its second path on.
unfoldable pub next_path : List OlsrPath → List OlsrPath
next_path [] = []
next_path (path ∷ paths) = paths ++ (path ∷ [])

-- The first buffer of the two addresses is set to its next path.
unfoldable pub use_path : ℕ → ℕ → List PathBuffer → List PathBuffer
use_path src dst [] = []
use_path src dst (buffer ∷ buffers) =
    if (buffer.src_addr_ip == src) && (buffer.dst_addr_ip == dst)
    then record buffer { lst_path = next_path buffer.lst_path } ∷ buffers
    else buffer ∷ use_path src dst buffers

-- `none` inside the pair is the result -1 before a path is copied.
unfoldable pub copy_new :
    List ℕ → Bool → SerHeader → Option OlsrPath → Topology → Option (Option PathCopy × Topology)
copy_new path_data src_local pheader none s = some (none, s)
copy_new path_data src_local pheader (some path) s =
    copy_path path path_data src_local pheader s.local_links >>= λ copy. some (some copy, s)

-- The search in the cache and, without an entry there, the run of `k_dijkstra`.
unfoldable pub find_path :
    Config → Memory → List ℕ → SerHeader → ℕ → ℕ → Topology → Option (Option PathCopy × Topology)
find_path conf mem path_data pheader src dst s =
    let src_local = src == local_addr s in
    elim (find_buffer src dst s.path_buffer) [
      | none ↦ k_dijkstra conf mem src dst s >>= λ r. copy_new path_data src_local pheader r.0 r.1
      | some buffer ↦ elim buffer.lst_path [
        | [] ↦ some (none, s)
        | path ∷ paths ↦
            copy_new path_data src_local pheader (some path)
              (record s { path_buffer = use_path src dst s.path_buffer })
      ]
    ]

unfoldable pub find_datagram_path :
    Config → Memory → List ℕ → SerHeader → ℕ → ℕ → Topology → Option (Option PathCopy × Topology)
find_datagram_path conf mem path_data pheader src_req dst_req s = elim (get_node s src_req) [
  | none ↦ some (none, s)
  | some src_node ↦ main_addr s src_node >>= λ src. elim (get_node s dst_req) [
    | none ↦ some (none, s)
    | some dst_node ↦ main_addr s dst_node >>= λ dst. find_path conf mem path_data pheader src dst s
  ]
]

-- The results -1, 0 and 1 of pth_isEndOfPath
pub data End : Type 0 where
  invalid : End
  not_end : End
  at_end : End

-- An offset from the front of the buffer: (hop - 1) * ip_v4_size + sizeof(struct ser_header), which is
-- the offset of first_node for hop 0.
abbrev pub hop_offset : ℕ → ℕ
hop_offset hop = hop * ip_v4_size + header_size - ip_v4_size

unfoldable pub is_end_of_path : List ℕ → Topology → Option End
is_end_of_path path s = decode_header path >>= λ header.
    let cur = htons header.cur in
    let hops = htons header.hops in
    if ltb hops cur
    then some End.invalid
    else if hops == cur
    then (if ltb cur 1
        then some End.invalid
        else (read_addr path (hop_offset cur) >>= λ addr.
            some (if addr == local_addr s then End.at_end else End.invalid)))
    else some End.not_end

-- The results -1, 1 and 0 of pth_checkNextHop, the last one with `*nextHop`
pub data Next : Type 0 where
  invalid : Next
  recover : Next
  next : ℕ → Next

unfoldable pub next_of_alias : Option ℕ → Next
next_of_alias none = Next.recover
next_of_alias (some real_addr) = if real_addr == 0 then Next.invalid else Next.next real_addr

-- With the buffer afterwards, in which the current hop is one more if the local node is that hop.
unfoldable pub check_next_hop : List ℕ → Topology → Option (Next × List ℕ)
check_next_hop path s = decode_header path >>= λ header.
    let cur = htons header.cur in
    let hops = htons header.hops in
    let step = write (encode_header (record header { cur = htons (cur + 1) })) path >>= λ path'.
    read_addr path' (hop_offset cur + ip_v4_size) >>= λ next_addr.
    some (next_of_alias (find_alias next_addr s.local_links), path') in
    if ltb cur hops
    then (read_addr path (hop_offset cur) >>= λ curr_addr.
        if curr_addr == local_addr s then step else some (Next.invalid, path))
    else some (Next.invalid, path)

unfoldable pub get_last_node : List ℕ → Option ℕ
get_last_node path =
    decode_header path >>= λ header. read_addr path (hop_offset (htons header.hops))
