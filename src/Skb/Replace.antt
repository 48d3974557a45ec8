-- ===== src/Skb/Replace.antt =====
-- Where skb_replacePath writes the new path.
use mathlib.Core.List.{append-nil}
use mpolsr_testbed.Common.{
  ℕ, zero, suc, ◌+◌, ◌-◌, ◌≤◌, ◌≡◌, refl, sym, ap, inl, inr, true, Bool-cases, some, List, [], ◌∷◌,
  ◌++◌, ltb, ltb→le, le→ltb, if◌then◌else◌, length, length-append, length-take, take, drop,
  take-append-drop, arith,
}
use mpolsr_testbed.Bytes.{header_size, htons}
use mpolsr_testbed.Skb.{ip_size, move_down, move_up, replace_path, SkBuff, sub_word}
use mpolsr_testbed.Skb.Moves.{move_down_lem, write_at_lem}
use mpolsr_testbed.Skb.RoundTrip.{first_bytes_lem, with_data}

drop-append_more : (t xs : List ℕ) (n m : ℕ) → m ≡ length t + n → drop m (t ++ xs) ≡ drop n xs
drop-append_more [] xs n m e = ap (λ i. drop i xs) (omega (arith, e))
drop-append_more (x ∷ t) xs n zero e = absurd (omega (arith, e))
drop-append_more (x ∷ t) xs n (suc m) e = drop-append_more t xs n m (omega (arith, e))

nil_of_length : (g : List ℕ) → length g ≡ 0 → g ≡ []
nil_of_length [] e = refl
nil_of_length (x ∷ g) e = absurd (omega (arith, e))

module _ (skb : SkBuff) (hd xs g s_data : List ℕ) (size init_size : ℕ)
    (at : ip_size skb + header_size ≡ length hd) (bytes : skb.data_bytes ≡ hd ++ (xs ++ g))
    (total : htons skb.iph.tot_len ≡ length hd + length xs) (grows : init_size ≤ size)
    (gap : length g ≡ size - init_size) (fits : size ≤ length s_data)
    (enough : init_size ≤ length xs) where
  moved_bytes :
      (t : List ℕ) × (length t ≡ size - init_size)
      × ((if ltb init_size size
            then move_down
                (htons skb.iph.tot_len - ip_size skb - header_size)
                (ip_size skb + header_size)
                (ip_size skb + header_size + (size - init_size))
                skb.data_bytes
            else if ltb size init_size
            then move_up
                (htons skb.iph.tot_len - ip_size skb - header_size + size - init_size)
                (ip_size skb + header_size + (init_size - size))
                (ip_size skb + header_size)
                skb.data_bytes
            else some skb.data_bytes)
          ≡ some (hd ++ (t ++ xs)))
  moved_bytes = elim (Bool-cases (ltb init_size size)) [
    | inl more ↦
        let (t, moved, kept) =
          move_down_lem (htons skb.iph.tot_len - ip_size skb - header_size) xs hd g []
            (ip_size skb + header_size) (ip_size skb + header_size + (size - init_size))
            (omega (arith, total, at)) at (omega (arith, at, gap)) in
        let full : skb.data_bytes ≡ hd ++ (xs ++ (g ++ [])) = rw (append-nil g) bytes in
        (t, omega (arith, kept, gap), rw (more, full, moved, append-nil xs) refl)
    | inr same ↦
        let none_left : g ≡ [] = nil_of_length g (omega (arith, gap, ltb→le init_size size same)) in
        (
          [],
          omega (arith, ltb→le init_size size same, gap, grows),
          rw (same, le→ltb size init_size grows, bytes, none_left, append-nil xs) refl,
        )
  ]

  -- In a datagram with `hd` up to the end of the header of its path and with `xs`, at least `init_size`
  -- bytes, behind that, in a buffer with room for the difference: a path of `size` bytes, and not fewer than
  -- `init_size`, is written behind `hd` in place of the first `init_size` bytes of `xs`.
  pub replace_path_lem :
      replace_path true s_data size init_size skb
      ≡ some (
          some (
            with_data skb
              (hd ++ (take size s_data ++ drop init_size xs))
              (length hd + length xs + sub_word size init_size)))
  unfolding replace_path
  replace_path_lem =
      let (t, kept, moved) = moved_bytes in
      let count = length-append t xs in
      let written =
        write_at_lem hd (take size (t ++ xs)) (take size s_data) (drop size (t ++ xs))
          (ip_size skb + header_size) at
          (omega (arith, length-take size (t ++ xs), length-take size s_data, count, kept)) in
      let source : hd ++ (t ++ xs) ≡ hd ++ (take size (t ++ xs) ++ drop size (t ++ xs)) =
        ap (λ l. hd ++ l) (sym (take-append-drop size (t ++ xs))) in
      let tail = drop-append_more t xs init_size size (omega (arith, kept, grows)) in
      rw (replace_path, moved, first_bytes_lem size s_data fits, source, written, tail, total) refl
