-- ===== src/Queue/Init.antt =====
-- dev_send_init of the plugin, and what the module keeps of it.
use mpolsr_testbed.Common.{
  ℕ, zero, suc, ◌+◌, ◌==◌, ◌≡◌, ◌∙◌, ◌⊎◌, refl, sym, ap, inl, inr, IsDistinct, Bool, true, some,
  List, [], ◌∷◌, ◌++◌, Bool-cases, All, length, replicate, subst,
}
use mpolsr_testbed.Tc.{Topology}
use mpolsr_testbed.Tc.Local.{fill_free, set_local_addr, set_local_alias}
use mpolsr_testbed.Tc.Nodes.{free_data, init_data}
use mpolsr_testbed.Device.{Alloc, run_token, Token}
use mpolsr_testbed.Device.Write.{run_tokens}
use mpolsr_testbed.Queue.{alias_tokens, init_tokens, Queue, send_init, with_structs}
use mpolsr_testbed.Queue.Chain.{IsQueue}
use mpolsr_testbed.Queue.Order.{commands, send_all-add_cmds, structs}

-- The entry is free or has the address.
abbrev pub IsOnly : ℕ → ℕ → Type 0
IsOnly addr a = (a ≡ 0) ⊎ (a ≡ addr)

commands-with_structs :
    (malloc : ℕ → ℕ) (i : ℕ) (ts : List Token) → commands (with_structs malloc i ts) ≡ ts
commands-with_structs malloc i [] = refl
commands-with_structs malloc i (t ∷ ts) = ap (λ l. t ∷ l) (commands-with_structs malloc (suc i) ts)

fill_free-IsOnly :
    (addr mask : ℕ) (addrs masks : List ℕ)
    → All (IsOnly addr) addrs
    → All (IsOnly addr) (fill_free addr mask addrs masks).0
unfolding fill_free
fill_free-IsOnly addr mask [] masks only = only
fill_free-IsOnly addr mask (a ∷ addrs) [] only = only
fill_free-IsOnly addr mask (a ∷ addrs) (m ∷ masks) only = elim (Bool-cases (a == 0)) [
  | inl free ↦ rw free (inr refl, only.1)
  | inr used ↦ rw used (only.0, fill_free-IsOnly addr mask addrs masks only.1)
]

-- The first entry is the address, and no entry has another one.
abbrev pub KnowsOnly : ℕ → List ℕ → Type 0
KnowsOnly addr [] = ⊥
KnowsOnly addr (a ∷ addrs) = (a ≡ addr) × All (IsOnly addr) addrs

set_local_alias-KnowsOnly :
    (addr mask : ℕ) (s : Topology)
    → KnowsOnly addr s.local_addr_tab
    → KnowsOnly addr (set_local_alias addr mask s).local_addr_tab
unfolding set_local_alias
set_local_alias-KnowsOnly addr mask s only = by_tabs s.local_addr_tab s.local_mask_tab refl only
  where
    by_tabs :
        (xs ms : List ℕ)
        → s.local_addr_tab ≡ xs
        → KnowsOnly addr xs
        → (let r : Topology = elim xs [
          | [] ↦ s
          | a ∷ addrs ↦ elim ms [
            | [] ↦ s
            | m ∷ masks ↦
                let (addrs', masks') = fill_free addr mask addrs masks in
                record s { local_addr_tab = a ∷ addrs'; local_mask_tab = m ∷ masks' }
          ]
        ] in
            KnowsOnly addr r.local_addr_tab)
    by_tabs [] ms is only = subst (KnowsOnly addr) (sym is) only
    by_tabs (a ∷ xs) [] is only = subst (KnowsOnly addr) (sym is) only
    by_tabs (a ∷ xs) (m ∷ ms) is only = (only.0, fill_free-IsOnly addr mask xs ms only.1)

abbrev always : ℕ → Bool
always round = true

run_aliases :
    (alloc : ℕ → Alloc) (round addr : ℕ) (ifs : List (ℕ × ℕ)) (s : Topology)
    → KnowsOnly addr s.local_addr_tab
    → (s' : Topology) × (run_tokens alloc always round (alias_tokens addr ifs) s ≡ some s')
      × KnowsOnly addr s'.local_addr_tab
unfolding alias_tokens run_token
run_aliases alloc round addr [] s only = (s, refl, only)
run_aliases alloc round addr ((ip_addr, netmask) ∷ ifs) s only =
    elim (Bool-cases (addr == ip_addr)) [
      | inl main ↦ rw main (run_aliases alloc round addr ifs s only)
      | inr other ↦ rw other (
          run_aliases alloc (round + 1) addr ifs (set_local_alias addr netmask s)
            (set_local_alias-KnowsOnly addr netmask s only))
    ]

zeros-IsOnly : (addr n : ℕ) → All (IsOnly addr) (replicate n 0)
zeros-IsOnly addr zero = tt
zeros-IsOnly addr (suc n) = (inl refl, zeros-IsOnly addr n)

run_init :
    (alloc : ℕ → Alloc) (addr unset : ℕ) (ifs : List (ℕ × ℕ)) (s : Topology)
    → (s' : Topology) × (run_tokens alloc always 0 (init_tokens addr unset ifs) s ≡ some s')
      × KnowsOnly addr s'.local_addr_tab
unfolding init_tokens run_token set_local_addr free_data init_data
run_init alloc addr unset ifs s = run_aliases alloc 2 addr ifs _ (refl, zeros-IsOnly addr 4)

-- If the device is open, the queue is empty, and malloc gives a different struct for each command, then
-- dev_send_init ends and writes tokens such that the module, if it can copy all of them, comes without a fault to a
-- store that has the main address as its first local address, and knows no other local address, whatever interfaces
-- there are.
pub send_init_lem :
    (malloc : ℕ → ℕ) (addr unset : ℕ) (ifs : List (ℕ × ℕ)) (q : Queue) (alloc : ℕ → Alloc)
    (s : Topology)
    → IsQueue q []
    → q.is_open ≡ true
    → IsDistinct (structs (with_structs malloc 0 (init_tokens addr unset ifs)))
    → (q' : Queue) × (ts : List Token) × (send_init
          (suc (length (structs (with_structs malloc 0 (init_tokens addr unset ifs)))))
          malloc
          addr
          unset
          ifs
          q
        ≡ some q')
      × (q'.written ≡ q.written ++ ts)
      × ((s' : Topology) × (run_tokens alloc always 0 ts s ≡ some s')
          × KnowsOnly addr s'.local_addr_tab)
unfolding send_init
send_init_lem malloc addr unset ifs q alloc s is opened d =
    let (q', sends, writes, _) =
      send_all-add_cmds (with_structs malloc 0 (init_tokens addr unset ifs)) q is opened d in
    (
      q',
      init_tokens addr unset ifs,
      sends,
      writes
          ∙ ap (λ l. q.written ++ l) (commands-with_structs malloc 0 (init_tokens addr unset ifs)),
      run_init alloc addr unset ifs s,
    )
