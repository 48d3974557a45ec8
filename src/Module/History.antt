-- ===== src/Module/History.antt =====
-- The store of a loaded module, through writes of accepted tokens and requests for paths in any order.
use mpolsr_testbed.Common.{
  ℕ, ◌*◌, ◌%◌, ◌≡◌, ◌≢◌, ◌∙◌, refl, sym, ap, subst, inl, inr, Bool, false, Option, none, some, List,
  [], All, ltb, length, replicate, ◌==◌, Bool-cases, arith,
}
use mathlib.Core.Option.{some-injective}
use mpolsr_testbed.Tc.{Labels, OlsrPath, PathBuffer, Topology}
use mpolsr_testbed.Tc.Hash.{find_addr, get_node}
use mpolsr_testbed.Tc.Nodes.{init_data}
use mpolsr_testbed.Tc.WellFormed.{IsIndexed-same, IsWellFormed, IsWired-same}
use mpolsr_testbed.Tc.Network.{Same, view}
use mpolsr_testbed.Kdjk.{Config, k_dijkstra, Memory}
use mpolsr_testbed.Kdjk.Keeps.{k_dijkstra-Keeps, Keeps, with_scratch}
use mpolsr_testbed.Device.{Alloc, device_write, Token, token_size}
use mpolsr_testbed.Device.Write.{Accepts, device_write-IsWellFormed, encode_tokens, IsToken}

-- The globals of ser_path_tc.c before the module is loaded.
abbrev pub zeroed : Topology
zeroed = record {
  addr_tab = λ key. [];
  node_lst = [];
  node_addr_tab = λ node. [];
  link_src = λ node. [];
  link_dst = λ node. [];
  labels = record {
    cost = λ node. 0;
    path = λ node. none;
    hops = λ node. 0;
    processed = λ node. false;
  };
  src_node = λ link. 0;
  dst_node = λ link. 0;
  cost = λ link. 0;
  dijkstra_cost = λ link. 0;
  dijkstra_cost_p1 = λ link. 0;
  path_buffer = [];
  local_addr_tab = replicate 5 0;
  local_mask_tab = replicate 5 0;
  local_links = [];
}

init_data-IsWellFormed : IsWellFormed (init_data zeroed)
unfolding init_data find_addr
init_data-IsWellFormed = record {
  distinct = tt;
  indexed = record {
    chains = λ key. elim (Bool-cases (ltb key 256)) [ inl e ↦ rw e tt | inr e ↦ rw e tt ];
    entries = λ ip e h. absurd (ground arith);
    slots = λ n i ip m h. absurd (cc);
    sizes = λ n m. absurd (cc);
  };
  wired = record {
    src_distinct = λ u. tt;
    dst_distinct = λ u. tt;
    out = λ u l i m. absurd (cc);
    into = λ u l i m. absurd (cc);
  };
  mains = λ n m. absurd (cc);
}

scratch-IsWellFormed :
    (s : Topology) (labels : Labels) (cost cost_p1 : ℕ → ℕ) (buffers : List PathBuffer)
    → IsWellFormed s
    → IsWellFormed (with_scratch s labels cost cost_p1 buffers)
scratch-IsWellFormed s labels cost cost_p1 buffers wf = record {
  distinct = wf.distinct;
  indexed = IsIndexed-same s.node_lst s _ refl refl wf.indexed;
  wired = IsWired-same s.node_lst s _ refl refl refl refl wf.wired;
  mains = wf.mains;
}

Keeps-IsWellFormed : (s s' : Topology) → Keeps s s' → IsWellFormed s → IsWellFormed s'
Keeps-IsWellFormed s s' (labels, cost, cost_p1, buffers, e) wf =
    subst IsWellFormed (sym e) (scratch-IsWellFormed s labels cost cost_p1 buffers wf)

scratch-view :
    (s : Topology) (labels : Labels) (cost cost_p1 : ℕ → ℕ) (buffers : List PathBuffer)
    → Same (view s) (view (with_scratch s labels cost cost_p1 buffers))
unfolding get_node
scratch-view s labels cost cost_p1 buffers = record {
  owner = λ a. refl;
  main = λ n. refl;
  arc = λ l. refl;
}

-- A request for a path, whatever comes of it, leaves a well formed store well formed and does not
-- show in the network.
pub k_dijkstra-view :
    (conf : Config) (mem : Memory) (src_addr dst_addr : ℕ) (s : Topology)
    (r : Option OlsrPath × Topology)
    → IsWellFormed s
    → k_dijkstra conf mem src_addr dst_addr s ≡ some r
    → IsWellFormed r.1 × Same (view s) (view r.1)
k_dijkstra-view conf mem src_addr dst_addr s r wf runs =
    let (labels, cost, cost_p1, buffers, e) =
      k_dijkstra-Keeps conf mem src_addr dst_addr s r runs in
    (
      Keeps-IsWellFormed s r.1 (labels, cost, cost_p1, buffers, e) wf,
      subst (λ t. Same (view s) (view t)) (sym e) (scratch-view s labels cost cost_p1 buffers),
    )

-- The stores that the module can come to if it is only told what it can take: after it is loaded, after a write
-- of tokens that are accepted or of a buffer of another length, and after a request for a path. A write of a
-- token that is not accepted, such as one that removes a main address as an alias, is left out.
pub data History : Topology → Type 0 where
  loaded : History (init_data zeroed)
  written :
      {s : Topology} (s' : Topology) (alloc : ℕ → Alloc) (copied : ℕ → Bool) (ts : List Token)
      (n : ℕ)
      → All IsToken ts
      → Accepts alloc 0 ts s
      → device_write alloc copied (encode_tokens ts) s ≡ some (n, s')
      → History s
      → History s'
  misfit :
      {s : Topology} (s' : Topology) (alloc : ℕ → Alloc) (copied : ℕ → Bool) (buffer : List ℕ)
      (n : ℕ)
      → length buffer % token_size ≢ 0
      → device_write alloc copied buffer s ≡ some (n, s')
      → History s
      → History s'
  routed :
      {s : Topology} (conf : Config) (mem : Memory) (src_addr dst_addr : ℕ)
      (r : Option OlsrPath × Topology)
      → k_dijkstra conf mem src_addr dst_addr s ≡ some r
      → History s
      → History r.1

misfit_same :
    (alloc : ℕ → Alloc) (copied : ℕ → Bool) (buffer : List ℕ) (n : ℕ) (s s' : Topology)
    → length buffer % token_size ≢ 0
    → device_write alloc copied buffer s ≡ some (n, s')
    → s ≡ s'
unfolding device_write
misfit_same alloc copied buffer n s s' odd runs =
    let skipped : (length buffer % token_size == 0) ≡ false = ground arith in
    ap (λ (r : ℕ × Topology). r.1) (some-injective (length buffer, s) (n, s') (rw skipped at runs))

-- From the load of the module on, the store stays well formed through events of three kinds in any order: a
-- write of tokens each of which is accepted in the store that it finds, a write of a buffer that is no whole number
-- of tokens, and a request for a path. Writes of tokens that are not accepted are left out.
pub History-IsWellFormed : {s : Topology} → History s → IsWellFormed s
History-IsWellFormed loaded = init_data-IsWellFormed
History-IsWellFormed (written {s} s' alloc copied ts n words ok runs h) =
    let (t, runs', wf) =
      device_write-IsWellFormed alloc copied ts s words (History-IsWellFormed h) ok in
    subst IsWellFormed
      (ap (λ (r : ℕ × Topology). r.1)
        (some-injective (token_size * length ts, t) (n, s') (sym runs' ∙ runs)))
      wf
History-IsWellFormed (misfit {s} s' alloc copied buffer n odd runs h) =
    subst IsWellFormed (misfit_same alloc copied buffer n s s' odd runs) (History-IsWellFormed h)
History-IsWellFormed (routed {s} conf mem src_addr dst_addr r runs h) =
    (k_dijkstra-view conf mem src_addr dst_addr s r (History-IsWellFormed h) runs).0
