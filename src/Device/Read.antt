-- ===== src/Device/Read.antt =====
-- A reader that reads the message of the device in pieces.
use native.Mathlib.Nat.{suc-add}
use mpolsr_testbed.Common.{
  ℕ, zero, suc, ◌+◌, ◌-◌, ◌≤◌, ◌≡◌, ◌∙◌, refl, ap, min, inl, inr, true, List, [], ◌∷◌, ◌++◌, leb,
  Bool-cases, length, length-drop, sym, take, drop, arith,
}
use mpolsr_testbed.Device.{device_read}

-- Reads of the lengths `lens` from the offset on; each offset is the one that the read before left.
abbrev pub read_all : List ℕ → List ℕ → ℕ → List ℕ
read_all msg [] offset = []
read_all msg (len ∷ lens) offset =
    let (bytes, n, offset') = device_read msg true len offset in bytes ++ read_all msg lens offset'

abbrev pub sum : List ℕ → ℕ
sum [] = 0
sum (x ∷ xs) = x + sum xs

drop-all : (xs : List ℕ) (n : ℕ) → length xs ≤ n → drop n xs ≡ []
drop-all [] zero h = refl
drop-all [] (suc n) h = refl
drop-all (x ∷ xs) zero h = absurd (omega (arith, h))
drop-all (x ∷ xs) (suc n) h = drop-all xs n (omega (arith, h))

take-nil : (n : ℕ) → take {A = ℕ} n [] ≡ []
take-nil zero = refl
take-nil (suc n) = refl

min-zero : (n : ℕ) → min 0 n ≡ 0
min-zero n = omega arith

zero-min : (n : ℕ) → min n 0 ≡ 0
zero-min n = omega arith

min-suc : (a b : ℕ) → min (suc a) (suc b) ≡ suc (min a b)
min-suc a b = omega arith

take-min : (n : ℕ) (xs : List ℕ) → take (min (length xs) n) xs ≡ take n xs
take-min n [] = rw (min-zero n) (sym (take-nil n))
take-min zero (x ∷ xs) = rw (zero-min (suc (length xs))) refl
take-min (suc n) (x ∷ xs) = rw (min-suc (length xs) n) (ap (λ l. x ∷ l) (take-min n xs))

take-add : (a b : ℕ) (xs : List ℕ) → take a xs ++ take b (drop a xs) ≡ take (a + b) xs
take-add zero b xs = ap (λ n. take n xs) (omega arith)
take-add (suc a) b [] = rw (take-nil b, suc-add) refl
take-add (suc a) b (x ∷ xs) = rw suc-add (ap (λ l. x ∷ l) (take-add a b xs))

drop-add : (a b : ℕ) (xs : List ℕ) → drop b (drop a xs) ≡ drop (a + b) xs
drop-add zero b xs = ap (λ n. drop n xs) (omega arith)
drop-add (suc a) zero [] = rw suc-add refl
drop-add (suc a) (suc b) [] = rw suc-add refl
drop-add (suc a) b (x ∷ xs) = rw suc-add (drop-add a b xs)

drop-min : (n : ℕ) (xs : List ℕ) → drop (min (length xs) n) xs ≡ drop n xs
drop-min n [] = rw (min-zero n) (sym (drop-all [] n (omega arith)))
drop-min zero (x ∷ xs) = rw (zero-min (suc (length xs))) refl
drop-min (suc n) (x ∷ xs) = rw (min-suc (length xs) n) (drop-min n xs)

-- Reads of any lengths, each at the offset that the one before left, return consecutive pieces of the
-- message: together they are its bytes from the first offset on, as many as the lengths add up to, and
-- no more bytes once the message ends.
pub read_all_lem :
    (msg lens : List ℕ) (offset : ℕ) → read_all msg lens offset ≡ take (sum lens) (drop offset msg)
unfolding device_read
read_all_lem msg [] offset = refl
read_all_lem msg (len ∷ lens) offset = elim (Bool-cases (leb (length msg) offset)) [
  | inl past ↦
      let over = drop-all msg offset (ground arith) in
      rw past (
        read_all_lem msg lens offset
        ∙ rw over (take-nil (sum lens) ∙ sym (take-nil (len + sum lens))))
  | inr inside ↦ rw inside (
      rw
        (
          read_all_lem msg lens (offset + min (length msg - offset) len),
          ← drop-add offset (min (length msg - offset) len) msg,
          ← length-drop offset msg,
          take-min len (drop offset msg),
          drop-min len (drop offset msg),
        )
        (take-add len (sum lens) (drop offset msg)))
]
