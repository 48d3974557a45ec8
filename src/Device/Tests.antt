-- ===== src/Device/Tests.antt =====
-- Tokens that build the network of three nodes, written to the device.
use mathlib.Core.Option.{some-injective}
use mpolsr_testbed.Common.{
  sym, subst, ◌∙◌, ℕ, ◌+◌, ◌*◌, ◌≡◌, refl, true, Option, some, List, [], ◌∷◌, length, take, drop,
  ◌>>=◌, arith,
}
use mpolsr_testbed.Bytes.{word}
use mpolsr_testbed.Tc.{Topology}
use mpolsr_testbed.Tc.Hash.{add_node_addr, find_addr, get_node}
use mpolsr_testbed.Tc.Nodes.{add_node, clear_node, free_data, init_data}
use mpolsr_testbed.Tc.Local.{find_in_net, find_interface, update_local_link}
use mpolsr_testbed.Tc.Links.{add_link, insert_link}
use mpolsr_testbed.Tc.WellFormed.{IsWellFormed}
use mpolsr_testbed.Tc.Tests.{blank, blank-IsWellFormed, one_node, two_nodes}
use mpolsr_testbed.Device.{
  Alloc, decode_token, device_write, encode_token, run_token, Token, token_size, write_loop,
}
use mpolsr_testbed.Device.Accept.{IsAccepted}
use mpolsr_testbed.Device.Write.{
  Accepts, device_write-encode_tokens, device_write-IsWellFormed, encode_tokens, run_tokens,
}
use mpolsr_testbed.Tc.Network.{view}
use mpolsr_testbed.Device.Refine.{device_write-Steps, Steps}
use mpolsr_testbed.Device.Read.{read_all, read_all_lem}

abbrev token : ℕ → ℕ → ℕ → ℕ → Token
token kind addr_1 addr_2 value = record {
  kind = kind;
  addr_1 = addr_1;
  addr_2 = addr_2;
  value = value;
}

-- Round `i` allocates at pointer i + 1.
abbrev alloc : ℕ → Alloc
alloc i = record { node = some (i + 1); link = some (i + 1); addr = true; local_link = true }

abbrev tokens : List Token
tokens = token 1 0 0 0 ∷ token 2 10 0 0 ∷ token 2 20 0 0 ∷ token 4 10 20 7 ∷ token 99 0 0 0 ∷ []

written : Option ℕ
written = device_write alloc (λ i. true) (encode_tokens tokens) blank >>= λ r. get_node r.1 20

-- The node of the third token is found by its address.
written_lem : written ≡ some 3
unfolding written device_write write_loop decode_token encode_token word run_token free_data
    init_data add_node add_node_addr clear_node add_link insert_link find_addr get_node
    update_local_link find_interface find_in_net
written_lem = refl

device_write-encode_tokens_example :
    device_write alloc (λ i. true) (encode_tokens tokens) blank
    ≡ (run_tokens alloc (λ i. true) 0 tokens blank >>= λ s'. some (token_size * length tokens, s'))
device_write-encode_tokens_example =
    device_write-encode_tokens alloc (λ i. true) tokens blank (omega arith)

-- The three last tokens of them, in a store without nodes.
abbrev more : List Token
more = token 2 10 0 0 ∷ token 2 20 0 0 ∷ token 4 10 20 7 ∷ []

first-IsAccepted : IsAccepted (alloc 0) (token 2 10 0 0) blank
unfolding find_addr
first-IsAccepted = record {
  fresh_node = λ p e. refl;
  fresh_link = λ l e u m. absurd (cc);
  new_node = λ e. refl;
  known_node = λ e. absurd (omega (arith, e));
  new_alias = λ e. absurd (omega (arith, e));
  no_main = λ e. absurd (omega (arith, e));
}

second-IsAccepted : IsAccepted (alloc 1) (token 2 20 0 0) one_node
unfolding find_addr add_node clear_node add_node_addr
second-IsAccepted = record {
  fresh_node = λ p e. ground (arith, e);
  fresh_link = λ l e u m. ground arith;
  new_node = λ e. refl;
  known_node = λ e. absurd (omega (arith, e));
  new_alias = λ e. absurd (omega (arith, e));
  no_main = λ e. absurd (omega (arith, e));
}

third-IsAccepted : IsAccepted (alloc 2) (token 4 10 20 7) two_nodes
unfolding find_addr add_node clear_node add_node_addr
third-IsAccepted = record {
  fresh_node = λ p e. ground (arith, e);
  fresh_link = λ l e u m. ground arith;
  new_node = λ e. absurd (omega (arith, e));
  known_node = λ e. absurd (omega (arith, e));
  new_alias = λ e. absurd (omega (arith, e));
  no_main = λ e. absurd (omega (arith, e));
}

Accepts-cons :
    (round : ℕ) (t : Token) (ts : List Token) (s s1 : Topology)
    → IsAccepted (alloc round) t s
    → run_token (alloc round) t s ≡ some s1
    → Accepts alloc (round + 1) ts s1
    → Accepts alloc round (t ∷ ts) s
Accepts-cons round t ts s s1 ok runs rest =
    (ok, λ s' h. subst (Accepts alloc (round + 1) ts) (some-injective s1 s' (sym runs ∙ h)) rest)

more-Accepts : Accepts alloc 0 more blank
unfolding run_token
more-Accepts =
    Accepts-cons 0 (token 2 10 0 0) (token 2 20 0 0 ∷ token 4 10 20 7 ∷ []) blank one_node
      first-IsAccepted refl
      (Accepts-cons 1 (token 2 20 0 0) (token 4 10 20 7 ∷ []) one_node two_nodes second-IsAccepted
        refl (third-IsAccepted, λ s' h. tt))

device_write-IsWellFormed_example :
    (s' : Topology) × (device_write alloc (λ i. true) (encode_tokens more) blank
      ≡ some (token_size * length more, s'))
    × IsWellFormed s'
device_write-IsWellFormed_example =
    device_write-IsWellFormed alloc (λ i. true) more blank (omega arith) blank-IsWellFormed
      more-Accepts

read_all_lem_example :
    read_all (1 ∷ 2 ∷ 3 ∷ 4 ∷ 5 ∷ []) (2 ∷ 2 ∷ 2 ∷ 2 ∷ []) 0
    ≡ take 8 (drop 0 (1 ∷ 2 ∷ 3 ∷ 4 ∷ 5 ∷ []))
read_all_lem_example = read_all_lem (1 ∷ 2 ∷ 3 ∷ 4 ∷ 5 ∷ []) (2 ∷ 2 ∷ 2 ∷ 2 ∷ []) 0

device_write-Steps_example :
    (s' : Topology) × (device_write alloc (λ i. true) (encode_tokens more) blank
      ≡ some (token_size * length more, s'))
    × Steps alloc 0 more (view blank) (view s')
device_write-Steps_example =
    device_write-Steps alloc more blank (omega arith) blank-IsWellFormed more-Accepts
