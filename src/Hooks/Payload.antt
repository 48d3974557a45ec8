-- ===== src/Hooks/Payload.antt =====
-- The path of a datagram in a socket buffer, read and written by the hooks.
use mathlib.Core.List.{append_assoc}
use mpolsr_testbed.Common.{
  ℕ, zero, suc, ◌+◌, ◌*◌, ◌≤◌, ◌≡◌, ◌∙◌, refl, sym, ap, true, some, List, [], ◌∷◌, ◌++◌, length,
  length-append, take, take-length, drop, le→leb, le→ltb, arith,
}
use mpolsr_testbed.Bytes.{
  encode_addrs, encode_header, header_size, ip_v4_size, IsHeader, length-encode_addrs,
  length-encode_header, SerHeader, decode_header, decode_header-encode_header,
}
use mpolsr_testbed.Pth.Hop.{at_hop, at_hop-IsHeader, datagram, htons-htons}
use mpolsr_testbed.Skb.{get_path, ip_size, PathInfo, skb_len, SkBuff, update_path}
use mpolsr_testbed.Skb.Moves.{write_at_lem}
use mpolsr_testbed.Skb.RoundTrip.{first_bytes_lem, take-append}

abbrev pub path_size : List ℕ → ℕ
path_size xs = length xs * ip_v4_size + header_size

pub length-datagram :
    (h : SerHeader) (xs : List ℕ) (cur : ℕ) → length (datagram h xs [] cur) ≡ path_size xs
length-datagram h xs cur =
    let head = length-encode_header (at_hop h xs cur) in
    omega (
      arith,
      head,
      length-append (encode_header (at_hop h xs cur)) (encode_addrs xs ++ []),
      length-append (encode_addrs xs) [],
      length-encode_addrs xs,
    )

-- What stands behind a datagram.
pub datagram-split :
    (h : SerHeader) (xs r : List ℕ) (cur : ℕ) → datagram h xs r cur ≡ datagram h xs [] cur ++ r
datagram-split h xs r cur =
    let head = encode_header (at_hop h xs cur) in
    sym (
      append_assoc head (encode_addrs xs ++ []) r
      ∙ ap (λ l. head ++ l) (append_assoc (encode_addrs xs) [] r))

drop-append : (a b : List ℕ) (n : ℕ) → n ≡ length a → drop n (a ++ b) ≡ b
drop-append [] b zero e = refl
drop-append [] b (suc n) e = absurd (omega (arith, e))
drop-append (x ∷ a) b zero e = absurd (omega (arith, e))
drop-append (x ∷ a) b (suc n) e = drop-append a b n (omega (arith, e))

module _ (skb : SkBuff) (hd udp : List ℕ) (h : SerHeader) (xs : List ℕ) (cur : ℕ)
    (at : ip_size skb ≡ length hd) (bytes : skb.data_bytes ≡ hd ++ (datagram h xs [] cur ++ udp))
    (ok : IsHeader h) (fits : path_size xs ≤ 65536) where
  abbrev pub info : PathInfo
  info = record { path = datagram h xs [] cur; size = path_size xs; header = at_hop h xs cur }

  pub get_path-datagram : get_path true skb ≡ some (some info)
  unfolding get_path
  get_path-datagram =
      let len : skb_len skb ≡ length hd + length (datagram h xs [] cur ++ udp) =
        ap length bytes ∙ length-append hd (datagram h xs [] cur ++ udp) in
      let payload : drop (ip_size skb) skb.data_bytes ≡ datagram h xs [] cur ++ udp =
        ap (drop (ip_size skb)) bytes ∙ drop-append hd _ (ip_size skb) at in
      let decoded : decode_header (datagram h xs [] cur ++ udp) ≡ some (at_hop h xs cur) =
        ap decode_header
          (append_assoc (encode_header (at_hop h xs cur)) (encode_addrs xs ++ []) udp)
        ∙ decode_header-encode_header (at_hop h xs cur) ((encode_addrs xs ++ []) ++ udp)
            (at_hop-IsHeader h xs cur ok) in
      let size = length-datagram h xs cur in
      let whole = length-append (datagram h xs [] cur) udp in
      rw
        (
          get_path,
          le→ltb (skb_len skb) (ip_size skb) (omega (arith, len, at)),
          payload,
          decoded,
          htons-htons (length xs) (omega (arith, fits)),
          first_bytes_lem (path_size xs) (datagram h xs [] cur ++ udp) (omega (arith, whole, size)),
          take-append (datagram h xs [] cur) udp (path_size xs) (sym size),
          le→leb (path_size xs) 65536 fits,
        )
        refl

  -- The header in front of the payload is written anew.
  pub update_path-datagram :
      (cur' : ℕ)
      → update_path true (datagram h xs [] cur') (path_size xs) skb
        ≡ some (some (record skb { data_bytes = hd ++ (datagram h xs [] cur' ++ udp) }))
  unfolding update_path
  update_path-datagram cur' =
      let len : skb_len skb ≡ length hd + length (datagram h xs [] cur ++ udp) =
        ap length bytes ∙ length-append hd (datagram h xs [] cur ++ udp) in
      let size = length-datagram h xs cur' in
      let all : take (path_size xs) (datagram h xs [] cur') ≡ datagram h xs [] cur' =
        ap (λ n. take n (datagram h xs [] cur')) (sym size) ∙ take-length (datagram h xs [] cur') in
      rw
        (
          update_path,
          le→ltb (skb_len skb) (ip_size skb) (omega (arith, len, at)),
          first_bytes_lem (path_size xs) (datagram h xs [] cur') (omega (arith, size)),
          all,
          bytes,
          write_at_lem hd (datagram h xs [] cur) (datagram h xs [] cur') udp (ip_size skb) at
              (length-datagram h xs cur ∙ sym size),
        )
        refl
