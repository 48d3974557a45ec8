-- ===== src/Device/Refine.antt =====
-- A write to the device as steps of the network.
use mpolsr_testbed.Common.{ℕ, ◌+◌, ◌*◌, ◌≡◌, ◌∙◌, refl, true, some, List, [], ◌∷◌, All, length}
use mpolsr_testbed.Tc.{Topology}
use mpolsr_testbed.Tc.WellFormed.{IsWellFormed}
use mpolsr_testbed.Tc.Network.{Network, view}
use mpolsr_testbed.Device.{Alloc, device_write, Token, token_size}
use mpolsr_testbed.Device.Accept.{run_token-IsWellFormed}
use mpolsr_testbed.Device.Write.{
  Accepts, device_write-encode_tokens, encode_tokens, IsToken, run_tokens,
}
use mpolsr_testbed.Device.Step.{run_token-Step, Step}

-- The steps of several tokens.
pub data Steps (alloc : ℕ → Alloc) : ℕ → List Token → Network → Network → Type 0 where
  done : (round : ℕ) (g : Network) → Steps alloc round [] g g
  next :
      (round : ℕ) (t : Token) (ts : List Token) (g h k : Network)
      → Step (alloc round) t g h
      → Steps alloc (round + 1) ts h k
      → Steps alloc round (t ∷ ts) g k

run_tokens-Steps :
    (alloc : ℕ → Alloc) (round : ℕ) (ts : List Token) (s : Topology)
    → IsWellFormed s
    → Accepts alloc round ts s
    → (s' : Topology) × (run_tokens alloc (λ i. true) round ts s ≡ some s')
      × Steps alloc round ts (view s) (view s')
run_tokens-Steps alloc round [] s wf ok = (s, refl, done round (view s))
run_tokens-Steps alloc round (t ∷ ts) s wf ok =
    let (s1, runs, wf1) = run_token-IsWellFormed (alloc round) t s wf ok.0 in
    let (s', rest, steps) = run_tokens-Steps alloc (round + 1) ts s1 wf1 (ok.1 s1 runs) in
    (
      s',
      rw runs rest,
      next round t ts (view s) (view s1) (view s')
          (run_token-Step (alloc round) t s wf ok.0 s1 runs) steps,
    )

-- Writing tokens that are accepted to a well formed store refines the abstract network, in which an
-- address names a node, a node has a main address and an arc has two ends and a cost: the write takes
-- the network of the store through one step for each token, in their order.
pub device_write-Steps :
    (alloc : ℕ → Alloc) (ts : List Token) (s : Topology)
    → All IsToken ts
    → IsWellFormed s
    → Accepts alloc 0 ts s
    → (s' : Topology) × (device_write alloc (λ i. true) (encode_tokens ts) s
        ≡ some (token_size * length ts, s'))
      × Steps alloc 0 ts (view s) (view s')
device_write-Steps alloc ts s words wf ok =
    let (s', runs, steps) = run_tokens-Steps alloc 0 ts s wf ok in
    (s', device_write-encode_tokens alloc (λ i. true) ts s words ∙ rw runs refl, steps)
