-- ===== src/Skb.antt =====
-- The path in a socket buffer, src_iptables/ser_module/skb_tools.c.
--
-- `data` is skb->data up to skb->len, and the fields of the IP header in front of it that the code uses are
-- kept beside it, without the checksums: writes behind the IP header do not reach them, as ihl is at least 5. The buffer is not shared. `pointer` tells whether
-- skb_header_pointer, which is given no buffer to copy to, finds the bytes in one piece. A result is
-- `none` for a read or write past an end, and `some none` for -1.
pub mod Moves
pub mod RoundTrip
pub mod Replace
use mpolsr_testbed.Common.{
  ℕ, zero, suc, ◌+◌, ◌-◌, ◌*◌, ◌^◌, ◌%◌, Bool, ◌||◌, Option, none, some, List, [], ◌∷◌, ltb, leb,
  if◌then◌else◌, ◌>>=◌, length, get_elem?, set, take, drop,
}
use mpolsr_testbed.Bytes.{decode_header, header_size, htons, ip_v4_size, SerHeader, write}

-- The fields of struct iphdr, `tot_len` in network byte order, `frag_off` the fragment flag and offset.
pub record IpHeader : Type 0 where
  pub ihl : ℕ
  pub tot_len : ℕ
  pub frag_off : ℕ
  pub protocol : ℕ
  pub saddr : ℕ
  pub daddr : ℕ

pub record SkBuff : Type 0 where
  pub data_bytes : List ℕ
  pub iph : IpHeader

-- iph->ihl<<2
abbrev pub ip_size : SkBuff → ℕ
ip_size skb = skb.iph.ihl * 4

abbrev pub skb_len : SkBuff → ℕ
skb_len skb = length skb.data_bytes

-- `*buffer = *payload`
unfoldable pub copy_byte : ℕ → ℕ → List ℕ → Option (List ℕ)
copy_byte payload buffer bytes = get_elem? bytes payload >>= λ b.
    if ltb buffer (length bytes) then some (set bytes buffer b) else none

-- The loop that copies the bytes from the last one to the first: `payload` and `buffer` are where the
-- regions start.
unfoldable pub move_down : ℕ → ℕ → ℕ → List ℕ → Option (List ℕ)
move_down zero payload buffer bytes = some bytes
move_down (suc n) payload buffer bytes =
    copy_byte (payload + n) (buffer + n) bytes >>= λ bytes'. move_down n payload buffer bytes'

-- The loop that copies the bytes from the first one to the last.
unfoldable pub move_up : ℕ → ℕ → ℕ → List ℕ → Option (List ℕ)
move_up zero payload buffer bytes = some bytes
move_up (suc n) payload buffer bytes =
    copy_byte payload buffer bytes >>= λ bytes'. move_up n (suc payload) (suc buffer) bytes'

-- memcpy to an offset, of the first `size` bytes of `s_data`
unfoldable pub write_at : ℕ → List ℕ → List ℕ → Option (List ℕ)
write_at zero bytes buffer = write bytes buffer
write_at (suc offset) bytes [] = none
write_at (suc offset) bytes (x ∷ buffer) = write_at offset bytes buffer >>= λ rest. some (x ∷ rest)

unfoldable pub first_bytes : ℕ → List ℕ → Option (List ℕ)
first_bytes size s_data = if leb size (length s_data) then some (take size s_data) else none

-- A difference of unsigned long
abbrev pub sub_word : ℕ → ℕ → ℕ
sub_word a b = (a + 2 ^ 32 - b) % 2 ^ 32

unfoldable pub add_path : Bool → List ℕ → ℕ → SkBuff → Option (Option SkBuff)
add_path pointer s_data size skb =
    let offset = ip_size skb in
    let total = htons skb.iph.tot_len in
    let body = move_down (total - offset) offset (offset + size) skb.data_bytes >>= λ moved.
    first_bytes size s_data >>= λ path. write_at offset path moved >>= λ bytes. some (
      some (record {
        data_bytes = bytes;
        iph = record (skb.iph) { tot_len = htons (total + size) };
      })) in
    if ltb (skb_len skb) total || ltb total offset || ltb (skb_len skb) (total + size)
    then some none
    else if pointer
    then body
    else some none

-- Where the difference of the code is negative, the loops do not run.
unfoldable pub replace_path : Bool → List ℕ → ℕ → ℕ → SkBuff → Option (Option SkBuff)
replace_path pointer s_data size init_size skb =
    let old_path = ip_size skb + header_size in
    let total = htons skb.iph.tot_len in
    let request = total - ip_size skb - header_size in
    let grown = move_down request old_path (old_path + (size - init_size)) skb.data_bytes in
    let shrunk =
      move_up (request + size - init_size) (old_path + (init_size - size)) old_path
        skb.data_bytes in
    if pointer
    then ((if ltb init_size size
          then grown
          else if ltb size init_size
          then shrunk
          else some skb.data_bytes)
        >>= λ moved. first_bytes size s_data >>= λ path. write_at old_path path moved >>= λ bytes.
            some (
              some (record {
                data_bytes = bytes;
                iph = record (skb.iph) { tot_len = htons (total + sub_word size init_size) };
              })))
    else some none

-- What skb_getPath writes to its arguments.
pub record PathInfo : Type 0 where
  pub path : List ℕ
  pub size : ℕ
  pub header : SerHeader

-- The buffer for the path has 65536 bytes.
unfoldable pub get_path : Bool → SkBuff → Option (Option PathInfo)
get_path pointer skb =
    let payload = drop (ip_size skb) skb.data_bytes in
    let body = decode_header payload >>= λ header.
    let size = htons header.hops * ip_v4_size + header_size in
    first_bytes size payload >>= λ path.
    if leb size 65536
    then some (some (record { path = path; size = size; header = header }))
    else none in
    if ltb (skb_len skb) (ip_size skb) then some none else if pointer then body else some none

unfoldable pub update_path : Bool → List ℕ → ℕ → SkBuff → Option (Option SkBuff)
update_path pointer s_data size skb =
    let body = first_bytes size s_data >>= λ path.
    write_at (ip_size skb) path skb.data_bytes >>= λ bytes.
    some (some (record skb { data_bytes = bytes })) in
    if ltb (skb_len skb) (ip_size skb) then some none else if pointer then body else some none

unfoldable pub remove_path : Bool → ℕ → SkBuff → Option (Option SkBuff)
remove_path pointer size skb =
    let offset = ip_size skb in
    let total = htons skb.iph.tot_len in
    let len = skb_len skb in
    let body = move_up (len - offset - size) (offset + size) offset skb.data_bytes >>= λ moved.
    some (
      some (record {
        data_bytes = take (len - size) moved;
        iph = record (skb.iph) { tot_len = htons (sub_word total size) };
      })) in
    if ltb len offset || ltb len (offset + size)
    then some none
    else if pointer
    then body
    else some none
