-- ===== src/Bytes.antt =====
-- Memory as bytes, little endian, and struct ser_header of src_iptables/ser_module/ser_path.h.
use mpolsr_testbed.Common.{
  ℕ, zero, suc, ◌+◌, ◌*◌, ◌/◌, ◌%◌, ◌^◌, ◌<◌, ◌≤◌, ◌≡◌, refl, Option, none, some, List, [], ◌∷◌,
  ◌++◌, All, ◌>>=◌, drop, length, get_elem?, arith,
}

abbrev pub ip_v4_size : ℕ
ip_v4_size = 4

-- sizeof(struct ser_header), where unsigned long has four bytes
abbrev pub header_size : ℕ
header_size = 12

-- unsigned short and unsigned long in memory
abbrev pub le16 : ℕ → List ℕ
le16 x = (x % 256) ∷ (x / 256 % 256) ∷ []

abbrev pub le32 : ℕ → List ℕ
le32 x = (x % 256) ∷ (x / 256 % 256) ∷ (x / 65536 % 256) ∷ (x / 16777216 % 256) ∷ []

-- memcpy of bytes to the front of a buffer; `none` is a write past its end.
unfoldable pub write : List ℕ → List ℕ → Option (List ℕ)
write [] buffer = some buffer
write (b ∷ bytes) [] = none
write (b ∷ bytes) (_ ∷ buffer) = write bytes buffer >>= λ rest. some (b ∷ rest)

-- htons and ntohs swap the two bytes of an unsigned short.
abbrev pub htons : ℕ → ℕ
htons x = x % 256 * 256 + x / 256 % 256

pub record SerHeader : Type 0 where
  pub version : ℕ
  pub protocol : ℕ
  pub empty : ℕ
  pub hops : ℕ
  pub cur : ℕ
  pub first_node : ℕ

unfoldable pub encode_header : SerHeader → List ℕ
encode_header h =
    (h.version % 256)
    ∷ (h.protocol % 256)
    ∷ (le16 h.empty ++ (le16 h.hops ++ (le16 h.cur ++ le32 h.first_node)))

-- memcpy to a struct ser_header; `none` is a read past the bytes that are there.
unfoldable pub decode_header : List ℕ → Option SerHeader
decode_header (v ∷ p ∷ e0 ∷ e1 ∷ h0 ∷ h1 ∷ c0 ∷ c1 ∷ f0 ∷ f1 ∷ f2 ∷ f3 ∷ rest) = some (record {
  version = v;
  protocol = p;
  empty = e0 + 256 * e1;
  hops = h0 + 256 * h1;
  cur = c0 + 256 * c1;
  first_node = f0 + 256 * f1 + 65536 * f2 + 16777216 * f3;
})
decode_header _ = none

-- memcpy of four bytes to an unsigned long
unfoldable pub word : List ℕ → Option ℕ
word (a ∷ b ∷ c ∷ d ∷ rest) = some (a + 256 * b + 65536 * c + 16777216 * d)
word _ = none

abbrev pub read_addr : List ℕ → ℕ → Option ℕ
read_addr path offset = word (drop offset path)

unfoldable pub encode_addrs : List ℕ → List ℕ
encode_addrs [] = []
encode_addrs (x ∷ xs) = le32 x ++ encode_addrs xs

abbrev pub IsWord : ℕ → Type 0
IsWord x = x < 2 ^ 32

pub record IsHeader (h : SerHeader) : Type 0 where
  pub version : h.version < 256
  pub protocol : h.protocol < 256
  pub empty : h.empty < 65536
  pub hops : h.hops < 65536
  pub cur : h.cur < 65536
  pub first_node : h.first_node < 2 ^ 32

-- A header whose fields fit into their bytes, written to memory in front of any bytes, is read back
-- from there unchanged.
pub decode_header-encode_header :
    (h : SerHeader) (rest : List ℕ) → IsHeader h → decode_header (encode_header h ++ rest) ≡ some h
unfolding decode_header encode_header
decode_header-encode_header h rest ok = ground arith

pub length-encode_header : (h : SerHeader) → length (encode_header h) ≡ header_size
unfolding encode_header
length-encode_header h = refl

pub length-encode_addrs : (xs : List ℕ) → length (encode_addrs xs) ≡ ip_v4_size * length xs
unfolding encode_addrs
length-encode_addrs [] = refl
length-encode_addrs (x ∷ xs) = omega (arith, length-encode_addrs xs)

word-le32 : (x : ℕ) (rest : List ℕ) → IsWord x → word (le32 x ++ rest) ≡ some x
unfolding word
word-le32 x rest ok = ground arith

-- The address at a position of an encoded path.
read_addr-encode_addrs :
    (xs rest : List ℕ) (i x : ℕ)
    → All IsWord xs
    → get_elem? xs i ≡ some x
    → read_addr (encode_addrs xs ++ rest) (ip_v4_size * i) ≡ some x
unfolding encode_addrs
read_addr-encode_addrs [] rest i x ok e = absurd (cc)
read_addr-encode_addrs (y ∷ xs) rest zero x ok e =
    ground (arith, word-le32 y (encode_addrs xs ++ rest))
read_addr-encode_addrs (y ∷ xs) rest (suc i) x ok e =
    let shift : ip_v4_size * suc i ≡ suc (suc (suc (suc (ip_v4_size * i)))) = omega arith in
    rw (shift) (read_addr-encode_addrs xs rest i x ok.1 e)

-- In a header followed by 32-bit addresses and any bytes, the word at the offset of a position of the
-- path, counted from 0, is the address there.
pub read_addr-encode :
    (h : SerHeader) (xs rest : List ℕ) (i x : ℕ)
    → All IsWord xs
    → get_elem? xs i ≡ some x
    → read_addr (encode_header h ++ (encode_addrs xs ++ rest)) (header_size + ip_v4_size * i)
      ≡ some x
unfolding encode_header
read_addr-encode h xs rest i x ok e =
    let shift : header_size + ip_v4_size * i
        ≡ suc (suc (suc (suc (suc (suc (suc (suc (suc (suc (suc (suc (ip_v4_size * i)))))))))))) =
      omega arith in
    rw shift (read_addr-encode_addrs xs rest i x ok e)

pub write_lem :
    (bytes buffer : List ℕ)
    → length bytes ≤ length buffer
    → write bytes buffer ≡ some (bytes ++ drop (length bytes) buffer)
unfolding write
write_lem [] buffer fits = refl
write_lem (b ∷ bytes) [] fits = absurd (omega arith)
write_lem (b ∷ bytes) (x ∷ buffer) fits = rw (write_lem bytes buffer (omega arith)) refl
