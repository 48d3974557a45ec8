-- ===== src/Skb/RoundTrip.antt =====
-- A path that is put into a datagram and taken out again.
use mathlib.Core.List.{append-nil, append_assoc}
use mpolsr_testbed.Common.{
  ℕ, zero, suc, ◌+◌, ◌-◌, ◌≤◌, ◌<◌, ◌≡◌, ◌∙◌, refl, sym, ap, true, some, List, [], ◌∷◌, ◌++◌,
  le→ltb, length, length-append, length-take, take, drop, take-append-drop, arith,
}
use mpolsr_testbed.Bytes.{htons}
use mpolsr_testbed.Pth.Hop.{htons-htons}
use mpolsr_testbed.Skb.{add_path, first_bytes, ip_size, remove_path, skb_len, SkBuff, sub_word}
use mpolsr_testbed.Skb.Moves.{move_down_lem, move_up_lem, write_at_lem}

pub take-append : (a b : List ℕ) (n : ℕ) → n ≡ length a → take n (a ++ b) ≡ a
take-append [] b zero e = refl
take-append [] b (suc n) e = absurd (omega (arith, e))
take-append (x ∷ a) b zero e = absurd (omega (arith, e))
take-append (x ∷ a) b (suc n) e = ap (λ l. x ∷ l) (take-append a b n (omega (arith, e)))

-- The datagram with another payload and length.
abbrev pub with_data : SkBuff → List ℕ → ℕ → SkBuff
with_data skb bytes total = record {
  data_bytes = bytes;
  iph = record (skb.iph) { tot_len = htons total };
}

pub first_bytes_lem :
    (size : ℕ) (s_data : List ℕ)
    → size ≤ length s_data
    → first_bytes size s_data ≡ some (take size s_data)
unfolding first_bytes
first_bytes_lem size s_data fits = ground arith

module _ (skb : SkBuff) (hd xs s_data : List ℕ) (size : ℕ) (at : ip_size skb ≡ length hd) where
  pub add_path_parts :
      (g : List ℕ)
      → skb.data_bytes ≡ hd ++ (xs ++ g)
      → htons skb.iph.tot_len ≡ length hd + length xs
      → length g ≡ size
      → size ≤ length s_data
      → add_path true s_data size skb
        ≡ some
            (some (with_data skb (hd ++ (take size s_data ++ xs)) (length hd + length xs + size)))
  unfolding add_path
  add_path_parts g bytes total gap fits =
      let (t, moved, kept) =
        move_down_lem (htons skb.iph.tot_len - ip_size skb) xs hd g [] (ip_size skb)
          (ip_size skb + size) (omega (arith, total, at)) at (omega (arith, at, gap)) in
      let full : skb.data_bytes ≡ hd ++ (xs ++ (g ++ [])) = rw (append-nil g) bytes in
      let len : skb_len skb ≡ length hd + length xs + size =
        omega (arith, ap length bytes, length-append hd (xs ++ g), length-append xs g, gap) in
      let written =
        write_at_lem hd t (take size s_data) (xs ++ []) (ip_size skb) at
          (omega (arith, kept, gap, length-take size s_data)) in
      rw
        (
          add_path,
          le→ltb (skb_len skb) (htons skb.iph.tot_len) (omega (arith, len, total)),
          le→ltb (htons skb.iph.tot_len) (ip_size skb) (omega (arith, at, total)),
          le→ltb (skb_len skb) (htons skb.iph.tot_len + size) (omega (arith, len, total)),
          full,
          moved,
          first_bytes_lem size s_data fits,
          written,
          append-nil xs,
          total,
        )
        refl

  pub remove_path_parts :
      (path : List ℕ)
      → skb.data_bytes ≡ hd ++ (path ++ xs)
      → length path ≡ size
      → remove_path true size skb
        ≡ some (some (with_data skb (hd ++ xs) (sub_word (htons skb.iph.tot_len) size)))
  unfolding remove_path
  remove_path_parts path bytes gap =
      let len : skb_len skb ≡ length hd + length xs + size =
        omega (arith, ap length bytes, length-append hd (path ++ xs), length-append path xs, gap) in
      let (t, moved, kept) =
        move_up_lem xs hd path (ip_size skb + size) (ip_size skb) at (omega (arith, at, gap)) in
      let count : skb_len skb - ip_size skb - size ≡ length xs = omega (arith, len, at) in
      let left : length (hd ++ (path ++ xs)) - size ≡ length (hd ++ xs) =
        omega
          (arith, gap, length-append hd (path ++ xs), length-append path xs, length-append hd xs) in
      let rest : take (length (hd ++ (path ++ xs)) - size) (hd ++ (xs ++ t)) ≡ hd ++ xs =
        ap (take (length (hd ++ (path ++ xs)) - size)) (sym (append_assoc hd xs t))
        ∙ take-append (hd ++ xs) t (length (hd ++ (path ++ xs)) - size) left in
      rw
        (
          remove_path,
          le→ltb (skb_len skb) (ip_size skb) (omega (arith, len, at)),
          le→ltb (skb_len skb) (ip_size skb + size) (omega (arith, len, at)),
          count,
          bytes,
          moved,
          rest,
        )
        refl

-- A datagram that fills its buffer, from its IP header on, and is shorter than 65536 bytes with the path.
pub record IsDatagram (skb : SkBuff) (size : ℕ) : Type 0 where
  pub header : ip_size skb ≤ skb_len skb
  pub total : htons skb.iph.tot_len ≡ skb_len skb
  pub field : skb.iph.tot_len < 65536
  pub fits : skb_len skb + size < 65536

pub sub_word-add : (a b : ℕ) → a + b < 65536 → htons (sub_word (htons (htons (a + b))) b) ≡ htons a
sub_word-add a b fits =
    ap (λ n. htons (sub_word n b)) (htons-htons (a + b) fits) ∙ ap htons (omega arith)

-- A datagram that fills its buffer and is shorter than 65536 bytes with the path: after the buffer is
-- enlarged by the size of the path, adding the path succeeds, and removing it again restores the datagram.
pub remove_path-add_path :
    (skb : SkBuff) (s_data g : List ℕ) (size : ℕ)
    → IsDatagram skb size
    → length g ≡ size
    → size ≤ length s_data
    → (skb' : SkBuff) × (add_path true s_data size (record skb { data_bytes = skb.data_bytes ++ g })
        ≡ some (some skb'))
      × (remove_path true size skb' ≡ some (some skb))
remove_path-add_path skb s_data g size ok gap fits =
    let hd = take (ip_size skb) skb.data_bytes in
    let xs = drop (ip_size skb) skb.data_bytes in
    let whole : hd ++ xs ≡ skb.data_bytes = take-append-drop (ip_size skb) skb.data_bytes in
    let at : ip_size skb ≡ length hd =
      omega (arith, length-take (ip_size skb) skb.data_bytes, ok.header) in
    let len : skb_len skb ≡ length hd + length xs =
      omega (arith, ap length whole, length-append hd xs) in
    let put : SkBuff = record skb { data_bytes = skb.data_bytes ++ g } in
    let total = length hd + length xs in
    let path = take size s_data in
    let added = with_data put (hd ++ (path ++ xs)) (total + size) in
    let back =
      remove_path_parts added hd xs s_data size at path refl
        (omega (arith, length-take size s_data, fits)) in
    let length_back : htons (sub_word (htons (htons (total + size))) size) ≡ skb.iph.tot_len =
      sub_word-add total size (omega (arith, ok.fits, len))
      ∙ ap htons (omega (arith, ok.total, len))
      ∙ htons-htons skb.iph.tot_len ok.field in
    (
      added,
      add_path_parts put hd xs s_data size at g
          (ap (λ l. l ++ g) (sym whole) ∙ append_assoc hd xs g) (omega (arith, ok.total, len)) gap
          fits,
      back
          ∙ ap (λ l. some (some (with_data skb l (sub_word (htons (htons (total + size))) size))))
              whole
          ∙ ap (λ n. some (some (record skb { iph = record (skb.iph) { tot_len = n } })))
              length_back,
    )
