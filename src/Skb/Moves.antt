-- ===== src/Skb/Moves.antt =====
-- The loops of skb_tools.c that move the payload, where the two regions overlap.
use mathlib.Core.List.{append-nil, append_assoc}
use mpolsr_testbed.Common.{
  ℕ, zero, suc, ◌+◌, ◌≡◌, ◌∙◌, refl, sym, ap, true, some, List, [], ◌∷◌, ◌++◌, ltb, lt→ltb, length,
  length-append, get_elem?, set, arith,
}
use mpolsr_testbed.Bytes.{write}
use mpolsr_testbed.Skb.{copy_byte, move_down, move_up, write_at}

get_elem?-append : (a r : List ℕ) (x : ℕ) → get_elem? (a ++ (x ∷ r)) (length a) ≡ some x
get_elem?-append [] r x = refl
get_elem?-append (y ∷ a) r x = get_elem?-append a r x

set-append : (a r : List ℕ) (y x : ℕ) → set (a ++ (y ∷ r)) (length a) x ≡ a ++ (x ∷ r)
set-append [] r y x = refl
set-append (z ∷ a) r y x = ap (λ l. z ∷ l) (set-append a r y x)

-- A byte is copied from behind `a` to behind `b`, two splits of the same bytes.
copy_byte_lem :
    (p q : ℕ) (bytes a r b t : List ℕ) (x y : ℕ)
    → bytes ≡ a ++ (x ∷ r)
    → p ≡ length a
    → bytes ≡ b ++ (y ∷ t)
    → q ≡ length b
    → copy_byte p q bytes ≡ some (b ++ (x ∷ t))
unfolding copy_byte
copy_byte_lem p q bytes a r b t x y e1 ep e2 eq =
    let read : get_elem? bytes p ≡ some x = rw (e1, ep) (get_elem?-append a r x) in
    let written : set bytes q x ≡ b ++ (x ∷ t) = rw (e2, eq) (set-append b t y x) in
    let in_range : ltb q (length bytes) ≡ true =
      lt→ltb q (length bytes) (omega (arith, eq, ap length e2, length-append b (y ∷ t))) in
    rw (read, in_range, written) refl

-- Moving the bytes `xs` up over the gap `g` in front of them.
pub move_up_lem :
    (xs a g : List ℕ) (p q : ℕ)
    → q ≡ length a
    → p ≡ length a + length g
    → (t : List ℕ) × (move_up (length xs) p q (a ++ (g ++ xs)) ≡ some (a ++ (xs ++ t)))
      × (length t ≡ length g)
unfolding move_up
move_up_lem [] a g p q eq ep = (g, ap (λ l. some (a ++ l)) (append-nil g), refl)
move_up_lem (x ∷ xs) a [] p q eq ep =
    let grow = length-append a (x ∷ []) in
    let (t, moved, size) =
      move_up_lem xs (a ++ (x ∷ [])) [] (suc p) (suc q) (omega (arith, eq, grow))
        (omega (arith, ep, grow)) in
    let copied = copy_byte_lem p q (a ++ (x ∷ xs)) a xs a xs x x refl (omega (arith, ep)) refl eq in
    (
      t,
      rw (copied, sym (append_assoc a (x ∷ []) xs), sym (append_assoc a (x ∷ []) (xs ++ t))) moved,
      size,
    )
move_up_lem (x ∷ xs) a (y ∷ g) p q eq ep =
    let grow = length-append a (x ∷ []) in
    let (t, moved, size) =
      move_up_lem xs (a ++ (x ∷ [])) (g ++ (x ∷ [])) (suc p) (suc q) (omega (arith, eq, grow))
        (omega (arith, ep, grow, length-append g (x ∷ []))) in
    let copied =
      copy_byte_lem p q (a ++ (y ∷ (g ++ (x ∷ xs)))) (a ++ (y ∷ g)) xs a (g ++ (x ∷ xs)) x y
        (sym (append_assoc a (y ∷ g) (x ∷ xs))) (omega (arith, ep, length-append a (y ∷ g))) refl
        eq in
    (
      t,
      rw copied (
          rw
            (
              append_assoc a (x ∷ []) ((g ++ (x ∷ [])) ++ xs),
              append_assoc g (x ∷ []) xs,
              append_assoc a (x ∷ []) (xs ++ t),
            )
            at moved),
      omega (arith, size, length-append g (x ∷ [])),
    )

snoc :
    (n : ℕ) (xs : List ℕ)
    → length xs ≡ suc n
    → (ys : List ℕ) × (x : ℕ) × (xs ≡ ys ++ (x ∷ [])) × (length ys ≡ n)
snoc n [] e = absurd (omega (arith, e))
snoc zero (x ∷ []) e = ([], x, refl, refl)
snoc zero (x ∷ y ∷ xs) e = absurd (omega (arith, e))
snoc (suc n) (x ∷ xs) e =
    let (ys, z, same, size) = snoc n xs (omega (arith, e)) in
    (x ∷ ys, z, ap (λ l. x ∷ l) same, omega (arith, size))

-- Moving the bytes `xs` down over the gap `g` behind them.
pub move_down_lem :
    (n : ℕ) (xs a g suf : List ℕ) (p q : ℕ)
    → length xs ≡ n
    → p ≡ length a
    → q ≡ length a + length g
    → (t : List ℕ) × (move_down n p q (a ++ (xs ++ (g ++ suf))) ≡ some (a ++ (t ++ (xs ++ suf))))
      × (length t ≡ length g)
unfolding move_down
move_down_lem zero [] a g suf p q e ep eq = (g, refl, refl)
move_down_lem zero (x ∷ xs) a g suf p q e ep eq = absurd (omega (arith, e))
move_down_lem (suc n) xs a g suf p q e ep eq =
    let (ys, x, same, size) = snoc n xs e in
    let (g', z, turned, gap) = snoc (length g) (x ∷ g) refl in
    let (t, moved, kept) = move_down_lem n ys a g' (x ∷ suf) p q size ep (omega (arith, eq, gap)) in
    let source : a ++ (xs ++ (g ++ suf)) ≡ (a ++ ys) ++ (x ∷ (g ++ suf)) =
      rw (same, append_assoc ys (x ∷ []) (g ++ suf)) (sym (append_assoc a ys (x ∷ (g ++ suf)))) in
    let target : (a ++ ys) ++ (x ∷ (g ++ suf)) ≡ (a ++ (ys ++ g')) ++ (z ∷ suf) =
      ap (λ l. (a ++ ys) ++ (l ++ suf)) turned
      ∙ ap (λ l. (a ++ ys) ++ l) (append_assoc g' (z ∷ []) suf)
      ∙ sym (append_assoc (a ++ ys) g' (z ∷ suf))
      ∙ ap (λ l. l ++ (z ∷ suf)) (append_assoc a ys g') in
    let after : (a ++ (ys ++ g')) ++ (x ∷ suf) ≡ a ++ (ys ++ (g' ++ (x ∷ suf))) =
      append_assoc a (ys ++ g') (x ∷ suf) ∙ ap (λ l. a ++ l) (append_assoc ys g' (x ∷ suf)) in
    let copied =
      copy_byte_lem (p + n) (q + n) (a ++ (xs ++ (g ++ suf))) (a ++ ys) (g ++ suf) (a ++ (ys ++ g'))
        suf x z source (omega (arith, ep, size, length-append a ys)) (source ∙ target)
        (omega (arith, eq, size, gap, length-append a (ys ++ g'), length-append ys g')) in
    (
      t,
      rw (copied, after, moved, same, append_assoc ys (x ∷ []) suf) refl,
      omega (arith, kept, gap),
    )

write_over :
    (old bytes r : List ℕ) → length old ≡ length bytes → write bytes (old ++ r) ≡ some (bytes ++ r)
unfolding write
write_over [] [] r size = refl
write_over [] (b ∷ bytes) r size = absurd (omega (arith, size))
write_over (x ∷ old) [] r size = absurd (omega (arith, size))
write_over (x ∷ old) (b ∷ bytes) r size = rw (write_over old bytes r (omega (arith, size))) refl

-- memcpy over as many bytes as are written.
pub write_at_lem :
    (a old bytes r : List ℕ) (offset : ℕ)
    → offset ≡ length a
    → length old ≡ length bytes
    → write_at offset bytes (a ++ (old ++ r)) ≡ some (a ++ (bytes ++ r))
unfolding write_at
write_at_lem [] old bytes r zero e size = write_over old bytes r size
write_at_lem [] old bytes r (suc offset) e size = absurd (omega (arith, e))
write_at_lem (x ∷ a) old bytes r zero e size = absurd (omega (arith, e))
write_at_lem (x ∷ a) old bytes r (suc offset) e size =
    rw (write_at_lem a old bytes r offset (omega (arith, e)) size) refl
