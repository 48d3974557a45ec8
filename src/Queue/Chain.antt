-- ===== src/Queue/Chain.antt =====
-- The structs of the queue, linked by their field next.
use mathlib.Core.Option.{some-injective}
use mpolsr_testbed.Common.{
  ℕ, ◌==◌, ◌≡◌, ◌∙◌, refl, sym, ap, IsDistinct, inl, inr, ==_iff, Bool, true, false, ◌||◌, Option,
  none, some, List, [], ◌∷◌, ◌++◌, Bool-cases, memb, update, subst, arith,
}
use mpolsr_testbed.Device.{Token}
use mpolsr_testbed.Queue.{Queue}

-- The structs of a queue in their order.
abbrev pub Chain : (ℕ → Option ℕ) → Option ℕ → List ℕ → Type 0
Chain next cmd [] = cmd ≡ none
Chain next cmd (p ∷ ps) = (cmd ≡ some p) × Chain next (next p) ps

abbrev pub last : List ℕ → Option ℕ
last [] = none
last (p ∷ []) = some p
last (p ∷ r ∷ ps) = last (r ∷ ps)

pub record IsQueue (q : Queue) (ps : List ℕ) : Type 0 where
  pub chain : Chain q.next q.cmd_lst ps
  pub end : q.cmd_lst_end ≡ last ps
  pub distinct : IsDistinct ps

abbrev pub tokens : (ℕ → Token) → List ℕ → List Token
tokens token [] = []
tokens token (p ∷ ps) = token p ∷ tokens token ps

memb_of_last : (a : ℕ) (ps : List ℕ) → last ps ≡ some a → memb a ps ≡ true
memb_of_last a [] h = absurd (cc)
memb_of_last a (p ∷ []) h = ground (arith, some-injective p a h)
memb_of_last a (p ∷ r ∷ ps) h = ground (arith, memb_of_last a (r ∷ ps) h)

pub last-some : (p : ℕ) (ps : List ℕ) → (end : ℕ) × (last (p ∷ ps) ≡ some end)
last-some p [] = (p, refl)
last-some p (r ∷ ps) = last-some r ps

module _ (cmd : ℕ) (t : Token) where
  memb-append : (p : ℕ) (ps : List ℕ) → memb p (ps ++ (cmd ∷ [])) ≡ memb p ps || (cmd == p)
  memb-append p [] = ground arith
  memb-append p (r ∷ ps) = ground (arith, memb-append p ps)

  pub append-IsDistinct :
      (ps : List ℕ) → IsDistinct ps → memb cmd ps ≡ false → IsDistinct (ps ++ (cmd ∷ []))
  append-IsDistinct [] d fresh = (refl, tt)
  append-IsDistinct (p ∷ ps) d fresh = (
    memb-append p ps ∙ ground (arith, d.0, fresh),
    append-IsDistinct ps d.1 (ground (arith, fresh)),
  )

  pub last-append : (ps : List ℕ) → last (ps ++ (cmd ∷ [])) ≡ some cmd
  last-append [] = refl
  last-append (p ∷ []) = refl
  last-append (p ∷ r ∷ ps) = last-append (r ∷ ps)

  -- The new struct, with next not set, behind the last one.
  abbrev linked : (ℕ → Option ℕ) → ℕ → ℕ → Option ℕ
  linked next end = update (update next cmd none) end (some cmd)

  pub Chain-linked :
      (next : ℕ → Option ℕ) (end : ℕ) (first : Option ℕ) (p : ℕ) (ps : List ℕ)
      → Chain next first (p ∷ ps)
      → IsDistinct (p ∷ ps)
      → memb cmd (p ∷ ps) ≡ false
      → last (p ∷ ps) ≡ some end
      → Chain (linked next end) first (p ∷ (ps ++ (cmd ∷ [])))
  Chain-linked next end first p [] chain d fresh is = (
    chain.0,
    (
      ground (arith, fresh, some-injective p end is),
      ground (arith, fresh, some-injective p end is),
    ),
  )
  Chain-linked next end first p (r ∷ ps) chain d fresh is = (
    chain.0,
    subst (λ o. Chain (linked next end) o (r ∷ (ps ++ (cmd ∷ []))))
        (apart (memb_of_last end (r ∷ ps) is))
        (Chain-linked next end (next p) r ps chain.1 d.1 (ground (arith, fresh)) is),
  )
    where
      apart : memb end (r ∷ ps) ≡ true → next p ≡ linked next end p
      apart there = elim (Bool-cases (end == p)) [
        | inl eq ↦ absurd (
            clash (memb p (r ∷ ps)) d.0
              (ap (λ x. memb x (r ∷ ps)) (sym ((==_iff end p).0 eq)) ∙ there))
        | inr ne ↦ ground (arith, ne, fresh)
      ]
        where
          clash : (b : Bool) → b ≡ false → ¬ (b ≡ true)
          clash b out there' = ground (arith, out, there')

  pub tokens-update :
      (token : ℕ → Token) (ps : List ℕ)
      → memb cmd ps ≡ false
      → tokens (update token cmd t) (ps ++ (cmd ∷ [])) ≡ tokens token ps ++ (t ∷ [])
  tokens-update token [] fresh = ground arith
  tokens-update token (p ∷ ps) fresh = ground (arith, fresh, tokens-update token ps)
