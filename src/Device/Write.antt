-- ===== src/Device/Write.antt =====
-- A buffer of encoded tokens that is written to the device.
use mpolsr_testbed.Common.{
  ℕ, ◌+◌, ◌*◌, ◌/◌, ◌%◌, ◌^◌, ◌<◌, ◌≡◌, ◌∙◌, refl, inl, inr, Bool, Option, some, List, [], ◌∷◌,
  ◌++◌, if◌then◌else◌, ◌>>=◌, Bool-cases, Option-cases, All, length, drop, arith,
}
use mpolsr_testbed.Bytes.{word}
use mpolsr_testbed.Tc.{Topology}
use mpolsr_testbed.Tc.WellFormed.{IsWellFormed}
use mpolsr_testbed.Device.{
  Alloc, decode_token, device_write, encode_token, run_token, Token, token_size, write_loop,
}
use mpolsr_testbed.Device.Accept.{IsAccepted, run_token-IsWellFormed}

-- The fields fit into their bytes.
pub record IsToken (t : Token) : Type 0 where
  pub kind : t.kind < 2 ^ 32
  pub addr_1 : t.addr_1 < 2 ^ 32
  pub addr_2 : t.addr_2 < 2 ^ 32
  pub value : t.value < 2 ^ 32

abbrev pub encode_tokens : List Token → List ℕ
encode_tokens [] = []
encode_tokens (t ∷ ts) = encode_token t ++ encode_tokens ts

-- The operations of the tokens one after the other, as long as the tokens can be read.
abbrev pub run_tokens : (ℕ → Alloc) → (ℕ → Bool) → ℕ → List Token → Topology → Option Topology
run_tokens alloc copied round [] s = some s
run_tokens alloc copied round (t ∷ ts) s =
    let next = λ (s' : Topology). run_tokens alloc copied (round + 1) ts s' in
    if copied round then run_token (alloc round) t s >>= next else some s

length-encode_tokens : (ts : List Token) → length (encode_tokens ts) ≡ token_size * length ts
unfolding encode_token
length-encode_tokens [] = refl
length-encode_tokens (t ∷ ts) = omega (arith, length-encode_tokens ts)

decode_token-encode :
    (t : Token) (rest : List ℕ) → IsToken t → decode_token (encode_token t ++ rest) ≡ some t
unfolding decode_token encode_token word
decode_token-encode t rest ok = ground arith

drop-encode : (t : Token) (rest : List ℕ) → drop token_size (encode_token t ++ rest) ≡ rest
unfolding encode_token
drop-encode t rest = refl

write_loop_lem :
    (alloc : ℕ → Alloc) (copied : ℕ → Bool) (round : ℕ) (ts : List Token) (s : Topology)
    → All IsToken ts
    → write_loop alloc copied round (length ts) (encode_tokens ts) s
      ≡ run_tokens alloc copied round ts s
unfolding write_loop
write_loop_lem alloc copied round [] s ok = refl
write_loop_lem alloc copied round (t ∷ ts) s ok = elim (Bool-cases (copied round)) [
  | inr failed ↦ rw failed refl
  | inl there ↦ elim (Option-cases (run_token (alloc round) t s)) [
    | inl fault ↦ rw (there, decode_token-encode t (encode_tokens ts) ok.0, fault) refl
    | inr (s', runs) ↦
        rw
          (
            there,
            decode_token-encode t (encode_tokens ts) ok.0,
            runs,
            drop-encode t (encode_tokens ts),
          )
          (write_loop_lem alloc copied (round + 1) ts s' ok.1)
  ]
]

-- A buffer of tokens whose fields fit into their bytes is taken apart into the same tokens: writing
-- it returns its length and runs the operations of the tokens in their order, up to the first token
-- that cannot be copied.
pub device_write-encode_tokens :
    (alloc : ℕ → Alloc) (copied : ℕ → Bool) (ts : List Token) (s : Topology)
    → All IsToken ts
    → device_write alloc copied (encode_tokens ts) s
      ≡ (run_tokens alloc copied 0 ts s >>= λ s'. some (token_size * length ts, s'))
unfolding device_write
device_write-encode_tokens alloc copied ts s ok =
    let size = length-encode_tokens ts in
    let whole : length (encode_tokens ts) % token_size ≡ 0 = omega (arith, size) in
    let number : length (encode_tokens ts) / token_size ≡ length ts = omega (arith, size) in
    rw (whole, number, size, write_loop_lem alloc copied 0 ts s ok) refl

-- Each token is accepted in the state that it finds.
abbrev pub Accepts : (ℕ → Alloc) → ℕ → List Token → Topology → Type 0
Accepts alloc round [] s = Unit
Accepts alloc round (t ∷ ts) s =
    IsAccepted (alloc round) t s
    × ((s' : Topology) → run_token (alloc round) t s ≡ some s' → Accepts alloc (round + 1) ts s')

run_tokens-IsWellFormed :
    (alloc : ℕ → Alloc) (copied : ℕ → Bool) (round : ℕ) (ts : List Token) (s : Topology)
    → IsWellFormed s
    → Accepts alloc round ts s
    → (s' : Topology) × (run_tokens alloc copied round ts s ≡ some s') × IsWellFormed s'
run_tokens-IsWellFormed alloc copied round [] s wf ok = (s, refl, wf)
run_tokens-IsWellFormed alloc copied round (t ∷ ts) s wf ok = elim (Bool-cases (copied round)) [
  | inr failed ↦ (s, rw failed refl, wf)
  | inl there ↦
      let (s1, runs, wf1) = run_token-IsWellFormed (alloc round) t s wf ok.0 in
      let (s', rest, wf') =
        run_tokens-IsWellFormed alloc copied (round + 1) ts s1 wf1 (ok.1 s1 runs) in
      (s', rw (there, runs) rest, wf')
]

-- Writing a buffer of tokens, each of which is accepted in the state that it finds, to a well formed
-- store does not fault, returns the length of the buffer and leaves a well formed store, also if only
-- some of the tokens can be copied.
pub device_write-IsWellFormed :
    (alloc : ℕ → Alloc) (copied : ℕ → Bool) (ts : List Token) (s : Topology)
    → All IsToken ts
    → IsWellFormed s
    → Accepts alloc 0 ts s
    → (s' : Topology) × (device_write alloc copied (encode_tokens ts) s
        ≡ some (token_size * length ts, s'))
      × IsWellFormed s'
device_write-IsWellFormed alloc copied ts s words wf ok =
    let (s', runs, wf') = run_tokens-IsWellFormed alloc copied 0 ts s wf ok in
    (s', device_write-encode_tokens alloc copied ts s words ∙ rw runs refl, wf')
