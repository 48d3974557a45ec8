-- ===== src/Plugin/Faults.antt =====
-- An entry that is removed behind another one of its chain: it is freed, but stays linked.
use mathlib.Core.Option.{some-injective}
use mpolsr_testbed.Common.{
  ℕ, zero, suc, ◌+◌, ◌<◌, ◌≤◌, ◌==◌, ◌≡◌, ◌∙◌, ◌⊎◌, refl, sym, ap, inl, inr, ==_iff, Bool, true,
  false, not, ◌||◌, Option, none, some, List, [], ◌∷◌, if◌then◌else◌, if_true, ◌>>=◌, >>=-eq-some,
  Bool-cases, update, subst, arith,
}
use mpolsr_testbed.Plugin.{
  Cache, check_data, Entry, Olsr, remove_entries, remove_useless_link, reset_active_flag,
  reset_chain, reset_tab,
}

-- Whether a chain has an entry that is not active, and one that is freed.
abbrev pub any_idle : List Entry → Bool
any_idle [] = false
any_idle (e ∷ chain) = not e.is_active || any_idle chain

-- Whether no entry that is not active stands behind an active one.
abbrev pub tidy : List Entry → Bool
tidy [] = true
tidy (e ∷ chain) = if e.is_active then not (any_idle chain) else tidy chain

abbrev any_freed : List Entry → Bool
any_freed [] = false
any_freed (e ∷ chain) = e.freed || any_freed chain

>>=-none {ℓ κ} :
    {A : Type ℓ} {B : Type κ} (m : Option A) → ◌≡◌ {A = Option B} (m >>= λ _. none) none
>>=-none none = refl
>>=-none (some a) = refl

pub no_some {ℓ} : {A : Type ℓ} (a : A) → ¬ (◌≡◌ {A = Option A} none (some a))
no_some a h = cc

bind-none {ℓ κ} :
    {A : Type ℓ} {B : Type κ} (m : Option A) (f : A → Option B) → m ≡ none → (m >>= f) ≡ none
bind-none none f e = refl
bind-none (some a) f e = absurd (no_some a (sym e))

-- The three ways a loop step can end well.
pub step_cases {ℓ} :
    {A : Type ℓ} (f a h : Bool) (x y z : Option A) (r : A)
    → (if f then none else if a then x else if h then y else z) ≡ some r
    → ((a ≡ true) × (x ≡ some r))
      ⊎ ((a ≡ false) × (h ≡ true) × (y ≡ some r))
      ⊎ ((a ≡ false) × (h ≡ false) × (z ≡ some r))
step_cases true a h x y z r e = absurd (no_some r e)
step_cases false true h x y z r e = inl (refl, e)
step_cases false false true x y z r e = inr (inl (refl, refl, e))
step_cases false false false x y z r e = inr (inr (refl, refl, e))

module _ (hash : ℕ → ℕ) (hashsize : ℕ) (olsr : Olsr) where
  pub remove_entries-tc_tab :
      (first : Bool) (chain : List Entry) (c : Cache) (r : List Entry × Cache)
      → remove_entries hash hashsize olsr first chain c ≡ some r
      → r.1.tc_tab ≡ c.tc_tab
  unfolding remove_entries
  remove_entries-tc_tab first [] c r h = sym (ap (λ q. q.1.tc_tab) (some-injective ([], c) r h))
  remove_entries-tc_tab first (e ∷ chain) c r h =
      elim (step_cases e.freed e.is_active first _ _ _ r h) [
        | inl (live, x) ↦
            let (q, runs, is) = >>=-eq-some (remove_entries hash hashsize olsr false chain _) _ x in
            sym (ap (λ p. p.1.tc_tab) (some-injective _ r is))
            ∙ remove_entries-tc_tab false chain _ q runs
        | inr (inl (dead, head, y)) ↦ remove_entries-tc_tab true chain _ r y
        | inr (inr (dead, later, z)) ↦
            let (q, runs, is) = >>=-eq-some (remove_entries hash hashsize olsr false chain _) _ z in
            sym (ap (λ p. p.1.tc_tab) (some-injective _ r is))
            ∙ remove_entries-tc_tab false chain _ q runs
      ]

  remove_entries-any_freed :
      (chain : List Entry) (c : Cache) (r : List Entry × Cache)
      → remove_entries hash hashsize olsr false chain c ≡ some r
      → any_idle chain ≡ true
      → any_freed r.0 ≡ true
  unfolding remove_entries
  remove_entries-any_freed [] c r h idle = absurd (ground arith)
  remove_entries-any_freed (e ∷ chain) c r h idle =
      elim (step_cases e.freed e.is_active false _ none _ r h) [
        | inl (live, x) ↦
            let (q, runs, is) = >>=-eq-some (remove_entries hash hashsize olsr false chain _) _ x in
            sym (ap (λ p. any_freed p.0) (some-injective _ r is))
            ∙ either e.freed (any_freed q.0)
                (remove_entries-any_freed chain _ q runs (by_live e.is_active _ live idle))
        | inr (inl (dead, head, y)) ↦ absurd (ground arith)
        | inr (inr (dead, later, z)) ↦
            let (q, runs, is) = >>=-eq-some (remove_entries hash hashsize olsr false chain _) _ z in
            sym (ap (λ p. any_freed p.0) (some-injective _ r is))
      ]
    where
      either : (f g : Bool) → g ≡ true → f || g ≡ true
      either f g e = ground arith

      by_live : (a i : Bool) → a ≡ true → not a || i ≡ true → i ≡ true
      by_live a i live h = ground arith

  reset_chain-faults :
      (chain : List Entry) → any_freed chain ≡ true → reset_chain hash hashsize olsr chain ≡ none
  unfolding reset_chain
  reset_chain-faults [] h = absurd (ground arith)
  reset_chain-faults (e ∷ chain) h = elim (Bool-cases e.freed) [
    | inl gone ↦ if_true e.freed none _ gone
    | inr used ↦
        if_both e.freed _
          (bind-none _ _ (reset_chain-faults chain (by_used e.freed (any_freed chain) used h)))
  ]
    where
      if_both : (b : Bool) (y : Option (List Entry)) → y ≡ none → (if b then none else y) ≡ none
      if_both b y e = ground arith

      by_used : (b i : Bool) → b ≡ false → b || i ≡ true → i ≡ true
      by_used b i used h = ground arith

  reset_tab-faults :
      (n k : ℕ) (tab : ℕ → List Entry)
      → k < n
      → any_freed (tab k) ≡ true
      → reset_tab hash hashsize olsr n tab ≡ none
  unfolding reset_tab
  reset_tab-faults zero k tab below h = absurd (omega arith)
  reset_tab-faults (suc n) k tab below h = elim (Bool-cases (n == k)) [
    | inl eq ↦
        rw
          (
            reset_chain-faults (tab n)
                (subst (λ j. any_freed (tab j) ≡ true) (sym ((==_iff n k).0 eq)) h),
            ◌>>=◌,
          )
          (>>=-none (reset_tab hash hashsize olsr n tab))
    | inr ne ↦ rw (reset_tab-faults n k tab (ground (arith, ne)) h) refl
  ]

  pub remove_useless_link-past :
      (index n k : ℕ) (c c' : Cache)
      → k < index
      → remove_useless_link hash hashsize olsr index n c ≡ some c'
      → c'.tc_tab k ≡ c.tc_tab k
  unfolding remove_useless_link
  remove_useless_link-past index zero k c c' below h =
      sym (ap (λ d. d.tc_tab k) (some-injective c c' h))
  remove_useless_link-past index (suc n) k c c' below h =
      let (q, runs, more) =
        >>=-eq-some (remove_entries hash hashsize olsr true (c.tc_tab index) c) _ h in
      remove_useless_link-past (index + 1) n k _ c' (omega arith) more
      ∙ (by_key q.0 q.1.tc_tab
          ∙ ap (λ t. t k) (remove_entries-tc_tab true (c.tc_tab index) c q runs))
    where
      by_key : (chain : List Entry) (t : ℕ → List Entry) → update t index chain k ≡ t k
      by_key chain t = ground arith

  remove_entries-leaves :
      (chain : List Entry) (c : Cache) (r : List Entry × Cache)
      → tidy chain ≡ false
      → remove_entries hash hashsize olsr true chain c ≡ some r
      → any_freed r.0 ≡ true
  unfolding remove_entries
  remove_entries-leaves [] c r untidy h = absurd (ground arith)
  remove_entries-leaves (e ∷ chain) c r untidy h =
      elim (step_cases e.freed e.is_active true _ _ none r h) [
        | inl (live, x) ↦
            let (q, runs, is) = >>=-eq-some (remove_entries hash hashsize olsr false chain _) _ x in
            sym (ap (λ p. any_freed p.0) (some-injective _ r is))
            ∙ either e.freed (any_freed q.0) (
                remove_entries-any_freed chain _ q runs
                  (by_live e.is_active _ (tidy chain) live untidy))
        | inr (inl (dead, _, y)) ↦
            remove_entries-leaves chain _ r (by_dead e.is_active (any_idle chain) _ dead untidy) y
        | inr (inr (dead, head, z)) ↦ absurd (ground (arith, head))
      ]
    where
      either : (f g : Bool) → g ≡ true → f || g ≡ true
      either f g e = ground arith

      by_live : (a i t : Bool) → a ≡ true → (if a then not i else t) ≡ false → i ≡ true
      by_live a i t live h = ground arith

      by_dead : (a i t : Bool) → a ≡ false → (if a then not i else t) ≡ false → t ≡ false
      by_dead a i t dead h = ground arith

  remove_useless_link-leaves :
      (k index n : ℕ) (c c' : Cache)
      → index ≤ k
      → k < index + n
      → tidy (c.tc_tab k) ≡ false
      → remove_useless_link hash hashsize olsr index n c ≡ some c'
      → any_freed (c'.tc_tab k) ≡ true
  unfolding remove_useless_link
  remove_useless_link-leaves k index zero c c' above below at_k h =
      absurd (omega (arith, above, below))
  remove_useless_link-leaves k index (suc n) c c' above below at_k h =
      let (q, runs, more) =
        >>=-eq-some (remove_entries hash hashsize olsr true (c.tc_tab index) c) _ h in
      elim (Bool-cases (index == k)) [
        | inl eq ↦ here ((==_iff index k).0 eq) q runs more
        | inr ne ↦
            remove_useless_link-leaves k (index + 1) n _ c' (ground (arith, ne)) (omega arith)
              (ap tidy (
                  by_key q.0 q.1.tc_tab ne
                  ∙ ap (λ t. t k) (remove_entries-tc_tab true (c.tc_tab index) c q runs))
                ∙ at_k)
              more
      ]
    where
      here :
          index ≡ k
          → (q : List Entry × Cache)
          → remove_entries hash hashsize olsr true (c.tc_tab index) c ≡ some q
          → remove_useless_link hash hashsize olsr
              (index + 1)
              n
              (record q.1 { tc_tab = update q.1.tc_tab index q.0 })
            ≡ some c'
          → any_freed (c'.tc_tab k) ≡ true
      here same q runs more =
          ap any_freed (
            remove_useless_link-past (index + 1) n k _ c' (omega (arith, same)) more
            ∙ put q.0 q.1.tc_tab)
          ∙ remove_entries-leaves (c.tc_tab index) c q (ap (λ j. tidy (c.tc_tab j)) same ∙ at_k)
              runs
        where
          put : (l : List Entry) (t : ℕ → List Entry) → update t index l k ≡ l
          put l t = ground (arith, same)

      by_key :
          (chain' : List Entry) (t : ℕ → List Entry)
          → (index == k) ≡ false
          → update t index chain' k ≡ t k
      by_key chain' t ne = ground (arith, ne)

-- If a chain of the table has a node that is not active behind an active one when the removal starts, and the
-- removal ends, then the next round reads freed memory, whatever olsrd tells then.
pub check_data_faults :
    (hash : ℕ → ℕ) (hashsize : ℕ) (olsr olsr' : Olsr) (k : ℕ) (c c' : Cache)
    → k < hashsize
    → tidy (c.tc_tab k) ≡ false
    → remove_useless_link hash hashsize olsr 0 hashsize c ≡ some c'
    → check_data hash hashsize olsr' c' ≡ none
unfolding check_data reset_active_flag
check_data_faults hash hashsize olsr olsr' k c c' below untidy h =
    rw
      (reset_tab-faults hash hashsize olsr' hashsize k c'.tc_tab below (
        remove_useless_link-leaves hash hashsize olsr k 0 hashsize c c' (omega arith)
          (omega (arith, below)) untidy h))
      refl
