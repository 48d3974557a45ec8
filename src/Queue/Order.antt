-- ===== src/Queue/Order.antt =====
-- Every command is written once, in the order in which the commands were added.
use mpolsr_testbed.Common.{
  ℕ, suc, ◌==◌, ◌≡◌, ◌∙◌, refl, sym, ap, IsDistinct, length, Bool, true, false, not, ◌||◌, Option,
  none, some, List, [], ◌∷◌, ◌++◌, if◌then◌else◌, memb, subst, arith,
}
use mpolsr_testbed.Device.{Token}
use mpolsr_testbed.Queue.{add_cmd, add_cmds, Queue, send_all, send_loop}
use mpolsr_testbed.Queue.Chain.{
  append-IsDistinct, Chain, Chain-linked, IsQueue, last-append, last-some, tokens, tokens-update,
}

append_assoc {ℓ} : {A : Type ℓ} (xs ys zs : List A) → (xs ++ ys) ++ zs ≡ xs ++ (ys ++ zs)
append_assoc [] ys zs = refl
append_assoc (x ∷ xs) ys zs = ap (λ l. x ∷ l) (append_assoc xs ys zs)

append-nil {ℓ} : {A : Type ℓ} (xs : List A) → xs ++ [] ≡ xs
append-nil [] = refl
append-nil (x ∷ xs) = ap (λ l. x ∷ l) (append-nil xs)

send_loop_lem :
    (ps : List ℕ) (cmd : Option ℕ) (q : Queue)
    → Chain q.next cmd ps
    → send_loop (suc (length ps)) cmd q
      ≡ some (record q { written = q.written ++ tokens q.token ps })
unfolding send_loop
send_loop_lem [] cmd q chain =
    ap (λ c. send_loop (suc 0) c q) chain
    ∙ ap (λ w. some (record q { written = w })) (sym (append-nil q.written))
send_loop_lem (p ∷ ps) cmd q chain =
    ap (λ c. send_loop (suc (suc (length ps))) c q) chain.0
    ∙ (send_loop_lem ps (q.next p) (record q { written = q.written ++ (q.token p ∷ []) }) chain.1
        ∙ ap (λ w. some (record q { written = w }))
            (append_assoc q.written (q.token p ∷ []) (tokens q.token ps)))

pub send_all_lem :
    (q : Queue) (ps : List ℕ)
    → IsQueue q ps
    → q.is_open ≡ true
    → send_all (suc (length ps)) q
      ≡ some (record q {
        cmd_lst = none;
        cmd_lst_end = none;
        written = q.written ++ tokens q.token ps;
      })
unfolding send_all
send_all_lem q ps is opened =
    taken q.is_open _ _ opened
    ∙ send_loop_lem ps q.cmd_lst (record q { cmd_lst = none; cmd_lst_end = none }) is.chain
  where
    taken : (b : Bool) (x y : Option Queue) → b ≡ true → (if not b then x else y) ≡ y
    taken b x y e = rw e refl

module _ (cmd : ℕ) (t : Token) where
  -- What adding a command leaves of a queue.
  record Added (q q' : Queue) (ps : List ℕ) : Type 0 where
    pub queue : IsQueue q' (ps ++ (cmd ∷ []))
    pub tokens : tokens q'.token (ps ++ (cmd ∷ [])) ≡ tokens q.token ps ++ (t ∷ [])
    pub written : q'.written ≡ q.written
    pub is_open : q'.is_open ≡ q.is_open

  add_cmd_lem :
      (q : Queue) (ps : List ℕ) → IsQueue q ps → memb cmd ps ≡ false → Added q (add_cmd cmd t q) ps
  unfolding add_cmd
  add_cmd_lem q [] is fresh =
      rw (is.end, is.chain)
        (record {
          queue = record { chain = (refl, ground arith); end = refl; distinct = (refl, tt) };
          tokens = ap (λ x. x ∷ []) (ground arith);
          written = refl;
          is_open = refl;
        })
  add_cmd_lem q (p ∷ ps) is fresh =
      let (end, ends) = last-some p ps in
      rw (is.end ∙ ends, is.chain.0)
        (record {
          queue = record {
            chain =
                Chain-linked cmd t q.next end (some p) p ps (refl, is.chain.1) is.distinct fresh
                  ends;
            end = sym (last-append cmd t (p ∷ ps));
            distinct = append-IsDistinct cmd t (p ∷ ps) is.distinct fresh;
          };
          tokens = tokens-update cmd t q.token (p ∷ ps) fresh;
          written = refl;
          is_open = refl;
        })

abbrev pub structs : List (ℕ × Token) → List ℕ
structs [] = []
structs ((cmd, t) ∷ cmds) = cmd ∷ structs cmds

abbrev pub commands : List (ℕ × Token) → List Token
commands [] = []
commands ((cmd, t) ∷ cmds) = t ∷ commands cmds

memb-middle :
    (p : ℕ) (ps : List ℕ) (cmd : ℕ) (rest : List ℕ)
    → memb p (ps ++ (cmd ∷ rest)) ≡ memb p ps || ((cmd == p) || memb p rest)
memb-middle p [] cmd rest = ground arith
memb-middle p (r ∷ ps) cmd rest = ground (arith, memb-middle p ps cmd rest)

head_new :
    (ps : List ℕ) (cmd : ℕ) (rest : List ℕ) → IsDistinct (ps ++ (cmd ∷ rest)) → memb cmd ps ≡ false
head_new [] cmd rest d = refl
head_new (p ∷ ps) cmd rest d =
    ground (arith, sym (memb-middle p ps cmd rest) ∙ d.0, head_new ps cmd rest d.1)

shift : (ps : List ℕ) (cmd : ℕ) (rest : List ℕ) → (ps ++ (cmd ∷ [])) ++ rest ≡ ps ++ (cmd ∷ rest)
shift [] cmd rest = refl
shift (p ∷ ps) cmd rest = ap (λ l. p ∷ l) (shift ps cmd rest)

record Filled (q q' : Queue) (ps : List ℕ) (cmds : List (ℕ × Token)) : Type 0 where
  pub queue : IsQueue q' (ps ++ structs cmds)
  pub tokens : tokens q'.token (ps ++ structs cmds) ≡ tokens q.token ps ++ commands cmds
  pub written : q'.written ≡ q.written
  pub is_open : q'.is_open ≡ q.is_open

add_cmds_lem :
    (cmds : List (ℕ × Token)) (q : Queue) (ps : List ℕ)
    → IsQueue q ps
    → IsDistinct (ps ++ structs cmds)
    → Filled q (add_cmds cmds q) ps cmds
unfolding add_cmds
add_cmds_lem [] q ps is d = record {
  queue = subst (IsQueue q) (sym (append-nil ps)) is;
  tokens = ap (tokens q.token) (append-nil ps) ∙ sym (append-nil (tokens q.token ps));
  written = refl;
  is_open = refl;
}
add_cmds_lem ((cmd, t) ∷ cmds) q ps is d =
    let one = add_cmd_lem cmd t q ps is (head_new ps cmd (structs cmds) d) in
    let more =
      add_cmds_lem cmds (add_cmd cmd t q) (ps ++ (cmd ∷ [])) one.queue
        (subst IsDistinct (sym (shift ps cmd (structs cmds))) d) in
    let same = shift ps cmd (structs cmds) in
    record {
      queue = subst (IsQueue _) same more.queue;
      tokens =
          ap (tokens _) (sym same)
          ∙ (more.tokens
              ∙ (ap (λ l. l ++ commands cmds) one.tokens
                  ∙ append_assoc (tokens q.token ps) (t ∷ []) (commands cmds)));
      written = more.written ∙ one.written;
      is_open = more.is_open ∙ one.is_open;
    }

-- If the device is open, the queue is empty, and malloc gives a different struct for each command, then dev_send
-- after any commands ends, writes each command once in the order in which they were added, behind what was
-- written before, and leaves an empty queue.
pub send_all-add_cmds :
    (cmds : List (ℕ × Token)) (q : Queue)
    → IsQueue q []
    → q.is_open ≡ true
    → IsDistinct (structs cmds)
    → (q' : Queue) × (send_all (suc (length (structs cmds))) (add_cmds cmds q) ≡ some q')
      × (q'.written ≡ q.written ++ commands cmds)
      × IsQueue q' []
send_all-add_cmds cmds q is opened d =
    let f = add_cmds_lem cmds q [] is d in
    (
      _,
      send_all_lem (add_cmds cmds q) (structs cmds) f.queue (f.is_open ∙ opened),
      ap (λ w. w ++ tokens (add_cmds cmds q).token (structs cmds)) f.written
          ∙ ap (λ l. q.written ++ l) f.tokens,
      record { chain = refl; end = refl; distinct = tt },
    )
