-- ===== src/Pth/Travel.antt =====
-- Datagrams that are forwarded along their path, hop by hop.
use mpolsr_testbed.Common.{
  ℕ, zero, suc, ◌+◌, ◌<◌, ◌≡◌, ◌≢◌, refl, ap, ◌∙◌, subst, sym, Option, none, some, List, [], ◌∷◌,
  All, ◌>>=◌, drop, ap, ◌∙◌, subst, length, get_elem?, arith,
}
use mpolsr_testbed.Bytes.{IsHeader, IsWord, SerHeader}
use mpolsr_testbed.Tc.{Topology}
use mpolsr_testbed.Tc.Local.{local_addr}
use mpolsr_testbed.Pth.{check_next_hop, End, find_alias, is_end_of_path, Next, next_of_alias}
use mpolsr_testbed.Pth.Hop.{
  check_next_hop-step, datagram, is_end_of_path-before, is_end_of_path-last,
}

-- Forwarding by the nodes of a network, each with its own topology. `owner` is the node that an address
-- of an interface belongs to. The result is the list of nodes that the datagram visits up to the one
-- that finds it at the end of its path; the fuel bounds the number of nodes.
unfoldable pub travel : (ℕ → Topology) → (ℕ → ℕ) → ℕ → ℕ → List ℕ → Option (List ℕ)
travel net owner zero node path = none
travel net owner (suc fuel) node path = is_end_of_path path (net node) >>= λ end. elim end [
  | End.invalid ↦ none
  | End.at_end ↦ some (node ∷ [])
  | End.not_end ↦ check_next_hop path (net node) >>= λ r. elim r.0 [
    | Next.invalid ↦ none
    | Next.recover ↦ none
    | Next.next addr ↦ travel net owner fuel (owner addr) r.1 >>= λ nodes. some (node ∷ nodes)
  ]
]

-- The node `x` has a local link to `y`, and sends what is for `y` to an address of `y`.
pub record IsNeighbour (net : ℕ → Topology) (owner : ℕ → ℕ) (x y : ℕ) : Type 0 where
  pub real_addr : ℕ
  pub linked : find_alias y (net x).local_links ≡ some real_addr
  pub known : real_addr ≢ 0
  pub owned : owner real_addr ≡ y

-- Each node knows its own address and has a local link to the one behind it.
abbrev pub IsRoute : (ℕ → Topology) → (ℕ → ℕ) → List ℕ → Type 0
IsRoute net owner [] = Unit
IsRoute net owner (x ∷ []) = local_addr (net x) ≡ x
IsRoute net owner (x ∷ y ∷ ys) =
    (local_addr (net x) ≡ x) × IsNeighbour net owner x y × IsRoute net owner (y ∷ ys)

pub drop-cons :
    (i y : ℕ) (xs ys : List ℕ)
    → drop i xs ≡ y ∷ ys
    → (get_elem? xs i ≡ some y) × (drop (suc i) xs ≡ ys) × (length xs ≡ suc (i + length ys))
drop-cons zero y [] ys e = ground arith
drop-cons (suc i) y [] ys e = ground arith
drop-cons zero y (x ∷ xs) ys e = ground arith
drop-cons (suc i) y (x ∷ xs) ys e = ground (arith, drop-cons i y xs ys e)

pub next_known : (a : ℕ) → a ≢ 0 → next_of_alias (some a) ≡ Next.next a
unfolding next_of_alias
next_known a h = ground arith

-- A node forwards a datagram that is not at its end, and the next node goes on.
travel-next :
    (net : ℕ → Topology) (owner : ℕ → ℕ) (fuel x y addr : ℕ) (path path' ns : List ℕ)
    → is_end_of_path path (net x) ≡ some End.not_end
    → check_next_hop path (net x) ≡ some (Next.next addr, path')
    → owner addr ≡ y
    → travel net owner fuel y path' ≡ some ns
    → travel net owner (suc fuel) x path ≡ some (x ∷ ns)
unfolding travel
travel-next net owner fuel x y addr path path' ns more step own goes =
    rw (more, step, own, goes) refl

module _ (net : ℕ → Topology) (owner : ℕ → ℕ) (h : SerHeader) (xs rest : List ℕ) (ok : IsHeader h)
    (words : All IsWord xs) (short : length xs < 65536) where
  travel-from :
      (i y : ℕ) (ys : List ℕ)
      → drop i xs ≡ y ∷ ys
      → IsRoute net owner (y ∷ ys)
      → travel net owner (suc (length ys)) y (datagram h xs rest (suc i)) ≡ some (y ∷ ys)
  unfolding travel
  travel-from i y [] e route =
      let (here, _, size) = drop-cons i y xs [] e in
      rw
        (is_end_of_path-last h xs rest (net y) ok words short i (omega arith)
          (here ∙ ap some (sym route)))
        refl
  travel-from i y (z ∷ ys) e route =
      let (here, tail, size) = drop-cons i y xs (z ∷ ys) e in
      let (there, _, _) = drop-cons (suc i) z xs ys tail in
      let step =
        check_next_hop-step h xs rest (net y) ok words short i z (omega arith)
          (here ∙ ap some (sym route.0)) there in
      travel-next net owner (suc (length ys)) y z route.1.real_addr (datagram h xs rest (suc i))
        (datagram h xs rest (suc (suc i))) (z ∷ ys)
        (is_end_of_path-before h xs rest (net y) ok words short i (omega arith))
        (rw (route.1.linked, next_known route.1.real_addr route.1.known) at step) route.1.owned
        (travel-from (suc i) z ys tail route.2)

  -- In a network of nodes that know themselves and have a local link to the node behind them in the
  -- path `xs`, with fewer than 65536 nodes: a datagram that starts at the first node, at the first hop
  -- of the path, visits the nodes of the path in order and is at the end of its path at the last.
  pub travel-datagram :
      (y : ℕ) (ys : List ℕ)
      → xs ≡ y ∷ ys
      → IsRoute net owner xs
      → travel net owner (length xs) y (datagram h xs rest 1) ≡ some xs
  travel-datagram y ys e route =
      subst (λ l. travel net owner (length l) y (datagram h xs rest 1) ≡ some l) (sym e)
        (travel-from 0 y ys e (subst (IsRoute net owner) e route))
