-- ===== src/Tc/Lookup.antt =====
-- The hash table as a map from addresses to entries.
use mpolsr_testbed.Common.{
  ℕ, zero, suc, ◌≤◌, ◌<◌, ◌+◌, ◌-◌, ◌≡◌, refl, ◌&&◌, Option, none, some, List, [], ◌∷◌, ltb, ◌==◌,
  if◌then◌else◌, get_or, set, length, arith,
}
use mpolsr_testbed.Tc.{NodeAddr, Topology}
use mpolsr_testbed.Tc.Hash.{alias_pos, find_addr, free_pos, get_hash_key, unlink_addr}

abbrev pub lookup : Topology → ℕ → Option NodeAddr
lookup s ip = find_addr ip (s.addr_tab (get_hash_key ip))

-- node->addr_tab[i]
abbrev pub slot : Topology → ℕ → ℕ → Option ℕ
slot s n i = get_or (s.node_addr_tab n) i none

-- No address stands twice in a chain.
abbrev pub IsUnique : List NodeAddr → Type 0
IsUnique [] = Unit
IsUnique (e ∷ chain) = (find_addr e.addr_ip chain ≡ none) × IsUnique chain

pub find_addr-addr :
    (a : ℕ) (chain : List NodeAddr) (e : NodeAddr) → find_addr a chain ≡ some e → e.addr_ip ≡ a
unfolding find_addr
find_addr-addr a [] e h = absurd (cc)
find_addr-addr a (x ∷ chain) e h = ground (arith, find_addr-addr a chain e)

pub find_addr-unlink :
    (a b : ℕ) (chain : List NodeAddr)
    → IsUnique chain
    → find_addr b (unlink_addr a chain) ≡ (if a == b then none else find_addr b chain)
unfolding find_addr unlink_addr
find_addr-unlink a b [] u = ground arith
find_addr-unlink a b (x ∷ chain) u = ground (arith, find_addr-unlink a b chain)

pub unlink_addr-IsUnique :
    (a : ℕ) (chain : List NodeAddr) → IsUnique chain → IsUnique (unlink_addr a chain)
unfolding find_addr unlink_addr
unlink_addr-IsUnique a [] u = tt
unlink_addr-IsUnique a (x ∷ chain) u =
    ground (arith, unlink_addr-IsUnique a chain, find_addr-unlink a x.addr_ip chain)

pub get_or-set :
    (xs : List (Option ℕ)) (i j : ℕ) (v : Option ℕ)
    → get_or (set xs i v) j none ≡ (if i == j && ltb i (length xs) then v else get_or xs j none)
get_or-set [] i j v = ground arith
get_or-set (x ∷ xs) zero zero v = ground arith
get_or-set (x ∷ xs) zero (suc j) v = ground arith
get_or-set (x ∷ xs) (suc i) zero v = ground arith
get_or-set (x ∷ xs) (suc i) (suc j) v = ground (arith, get_or-set xs i j v)

pub lt-length_of_get_or :
    (xs : List (Option ℕ)) (i ip : ℕ) → get_or xs i none ≡ some ip → i < length xs
lt-length_of_get_or [] i ip h = absurd (cc)
lt-length_of_get_or (x ∷ xs) zero ip h = omega arith
lt-length_of_get_or (x ∷ xs) (suc i) ip h = omega (arith, lt-length_of_get_or xs i ip h)

free_pos_lem :
    (k : ℕ) (tab : List (Option ℕ)) (p : ℕ)
    → free_pos k tab ≡ some p
    → (k ≤ p) × (p < k + length tab) × (get_or tab (p - k) none ≡ none)
unfolding free_pos
free_pos_lem k [] p h = absurd (cc)
free_pos_lem k (none ∷ tab) p h =
    let z : p - k ≡ 0 = ground arith in (ground arith, ground arith, rw z refl)
free_pos_lem k (some x ∷ tab) p h =
    let ih = free_pos_lem (k + 1) tab p h in
    let z : p - k ≡ suc (p - (k + 1)) = omega arith in (omega arith, omega arith, rw z ih.2)

-- The entry for an alias is a free one of the table, behind the main address.
pub alias_pos_lem :
    (tab : List (Option ℕ)) (p : ℕ)
    → alias_pos tab ≡ some p
    → (1 ≤ p) × (p < length tab) × (get_or tab p none ≡ none)
unfolding alias_pos
alias_pos_lem [] p h = absurd (cc)
alias_pos_lem (x ∷ tab) p h =
    let ih = free_pos_lem 1 tab p h in
    let z : p ≡ suc (p - 1) = omega arith in (omega arith, omega arith, rw z ih.2)
