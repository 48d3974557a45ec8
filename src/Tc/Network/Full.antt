-- ===== src/Tc/Network/Full.antt =====
-- A node whose table has no free entry.
use mathlib.Core.Option.{some-injective}
use mpolsr_testbed.Common.{
  ℕ, suc, ◌+◌, ◌≡◌, ◌∙◌, refl, sym, ap, inl, inr, true, Option, none, some, List, [], ◌∷◌, All,
  IsDistinct, length, get_or, memb, ◌==◌, ==_iff, Bool-cases, arith,
}
use mpolsr_testbed.Tc.{NodeAddr, Topology}
use mpolsr_testbed.Tc.Hash.{alias_pos, free_pos, get_node}
use mpolsr_testbed.Tc.Lookup.{lookup}
use mpolsr_testbed.Tc.WellFormed.{IsWellFormed}
use mpolsr_testbed.Tc.Network.{IsFull, view}

abbrev filled : List ℕ → List (Option ℕ)
filled [] = []
filled (a ∷ names) = some a ∷ filled names

free_pos-none :
    (k : ℕ) (tab : List (Option ℕ))
    → free_pos k tab ≡ none
    → (names : List ℕ) × (tab ≡ filled names) × (length names ≡ length tab)
unfolding free_pos
free_pos-none k [] h = ([], refl, refl)
free_pos-none k (none ∷ tab) h = absurd (cc)
free_pos-none k (some a ∷ tab) h =
    let (names, is, same) = free_pos-none (k + 1) tab h in
    (a ∷ names, ap (λ t. some a ∷ t) is, ap suc same)

-- All entries of the table, with what stands in the first one.
full_names :
    (tab : List (Option ℕ)) (x : ℕ)
    → get_or tab 0 none ≡ some x
    → alias_pos tab ≡ none
    → (names : List ℕ) × (tab ≡ filled names) × (length names ≡ length tab)
unfolding alias_pos
full_names [] x main full = absurd (cc)
full_names (o ∷ tab) x main full =
    let (names, is, same) = free_pos-none 1 tab full in
    (x ∷ names, ap (λ p. p ∷ tab) main ∙ ap (λ t. some x ∷ t) is, ap suc same)

module _ (s : Topology) (node : ℕ) where
  -- Each name stands for the node, at its position from `off` on.
  abbrev Placed : ℕ → List ℕ → Type 0
  Placed off names =
      (i a : ℕ)
      → get_or (filled names) i none ≡ some a
      → (e : NodeAddr) × (lookup s a ≡ some e) × (e.node ≡ node) × (e.addr_pos ≡ off + i)

  Placed-tail : (off a : ℕ) (names : List ℕ) → Placed off (a ∷ names) → Placed (off + 1) names
  Placed-tail off a names placed i b at =
      let (e, found, is, pos) = placed (suc i) b at in (e, found, is, omega (arith, pos))

  Placed-memb :
      (off a : ℕ) (names : List ℕ)
      → Placed off names
      → memb a names ≡ true
      → (e : NodeAddr) × (i : ℕ) × (lookup s a ≡ some e) × (e.addr_pos ≡ off + i)
  Placed-memb off a [] placed there = absurd (cc)
  Placed-memb off a (b ∷ names) placed there = elim (Bool-cases (b == a)) [
    | inl eq ↦
        let (e, found, is, pos) = placed 0 a (ap some ((==_iff b a).0 eq)) in (e, 0, found, pos)
    | inr ne ↦
        let (e, i, found, pos) =
          Placed-memb (off + 1) a names (Placed-tail off b names placed) (rw ne at there) in
        (e, suc i, found, omega (arith, pos))
  ]

  Placed-IsDistinct : (off : ℕ) (names : List ℕ) → Placed off names → IsDistinct names
  Placed-IsDistinct off [] placed = tt
  Placed-IsDistinct off (a ∷ names) placed = (
    elim (Bool-cases (memb a names)) [
      | inl twice ↦
          let (e, found, is, pos) = placed 0 a refl in
          let (e', i, found', pos') =
            Placed-memb (off + 1) a names (Placed-tail off a names placed) twice in
          let same : e ≡ e' = some-injective e e' (sym found ∙ found') in
          absurd (omega (arith, pos, pos', ap (λ (x : NodeAddr). x.addr_pos) same))
      | inr once ↦ once
    ],
    Placed-IsDistinct (off + 1) names (Placed-tail off a names placed),
  )

  Placed-owner :
      (off : ℕ) (names : List ℕ) → Placed off names → All (λ a. get_node s a ≡ some node) names
  unfolding get_node
  Placed-owner off [] placed = tt
  Placed-owner off (a ∷ names) placed =
      let (e, found, is, pos) = placed 0 a refl in
      (
        rw (get_node, found) (ap some is),
        Placed-owner (off + 1) names (Placed-tail off a names placed),
      )

-- No free entry: the node has as many names as the table has entries.
pub alias_pos-IsFull :
    (s : Topology) (node : ℕ)
    → IsWellFormed s
    → memb node s.node_lst ≡ true
    → alias_pos (s.node_addr_tab node) ≡ none
    → IsFull node (view s)
alias_pos-IsFull s node wf m full =
    let (x, main) = wf.mains node m in
    let (names, is, same) = full_names (s.node_addr_tab node) x main full in
    let placed : Placed s node 0 names = λ i a at.
      let (e, found, of, pos) = wf.indexed.slots node i a m (ap (λ t. get_or t i none) is ∙ at) in
      (e, found, of, omega (arith, pos)) in
    (
      names,
      same ∙ wf.indexed.sizes node m,
      Placed-IsDistinct s node 0 names placed,
      Placed-owner s node 0 names placed,
    )
