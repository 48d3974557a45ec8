-- ===== src/Kdjk/Loop.antt =====
-- What the loop over `index_path` returns.
use mathlib.Core.Option.{get_or}
use mpolsr_testbed.Common.{
  ℕ, zero, suc, ◌+◌, ◌≡◌, sym, subst, true, Bool, Option, none, some, >>=-eq-some, arith,
}
use mpolsr_testbed.Tc.{OlsrPath, Topology}
use mpolsr_testbed.Djk.{dijkstra}
use mpolsr_testbed.Kdjk.{compute_path, Config, found, k_loop, Memory, Round, stop}

-- A path is found only if both allocations succeed.
compute_path-memory :
    (conf : Config) (mp md : Bool) (src_addr dst : ℕ) (s s' : Topology) (p : OlsrPath)
    → compute_path conf mp md src_addr dst s ≡ some (found p s')
    → compute_path conf true true src_addr dst s ≡ some (found p s')
unfolding compute_path
compute_path-memory conf true true src_addr dst s s' p h = h
compute_path-memory conf mp md src_addr dst s s' p h =
    let (t, e, h') = >>=-eq-some (dijkstra s src_addr) _ h in absurd (ground arith)

-- A loop that returns a path found one in its first round.
k_loop-round :
    (conf : Config) (mem : Memory) (src_addr dst i n : ℕ) (first : Option OlsrPath) (p : OlsrPath)
    (s s' : Topology)
    → k_loop conf mem src_addr dst i (suc n) first s ≡ some (some p, s')
    → (path : OlsrPath) × (s1 : Topology) × (compute_path conf
          (mem.path i)
          (mem.path_data i)
          src_addr
          dst
          s
        ≡ some (found path s1))
      × (k_loop conf mem src_addr dst (i + 1) n (some (get_or first path)) s1 ≡ some (some p, s'))
unfolding k_loop
k_loop-round conf mem src_addr dst i n first p s s' h =
    let (r, e, h') =
      >>=-eq-some (compute_path conf (mem.path i) (mem.path_data i) src_addr dst s) _ h in
    by_round r e first h'
  where
    by_round :
        (r : Round)
        → compute_path conf (mem.path i) (mem.path_data i) src_addr dst s ≡ some r
        → (first : Option OlsrPath)
        → ◌≡◌ {A = Option (Option OlsrPath × Topology)}
            (elim r [
              | stop s1 ↦ some (none, s1)
              | found path s1 ↦
                  k_loop conf mem src_addr dst
                    (i + 1)
                    n
                    (elim first [ none ↦ some path | some f ↦ some f ])
                    s1
            ])
            (some (some p, s'))
        → (path : OlsrPath) × (s1 : Topology) × (compute_path conf
              (mem.path i)
              (mem.path_data i)
              src_addr
              dst
              s
            ≡ some (found path s1))
          × (k_loop conf mem src_addr dst (i + 1) n (some (get_or first path)) s1
              ≡ some (some p, s'))
    by_round (stop s1) e first h' = absurd (ground arith)
    by_round (found path s1) e none h' = (path, s1, e, h')
    by_round (found path s1) e (some f) h' = (path, s1, e, h')

k_loop-keeps :
    (conf : Config) (mem : Memory) (src_addr dst i n : ℕ) (f p : OlsrPath) (s s' : Topology)
    → k_loop conf mem src_addr dst i n (some f) s ≡ some (some p, s')
    → p ≡ f
unfolding k_loop
k_loop-keeps conf mem src_addr dst i zero f p s s' h = ground arith
k_loop-keeps conf mem src_addr dst i (suc n) f p s s' h =
    let (path, s1, _, h') = k_loop-round conf mem src_addr dst i n (some f) p s s' h in
    k_loop-keeps conf mem src_addr dst (i + 1) n f p s1 s' h'

-- The path that the loop returns is that of its first round.
pub k_loop-first :
    (conf : Config) (mem : Memory) (src_addr dst i n : ℕ) (p : OlsrPath) (s s' : Topology)
    → k_loop conf mem src_addr dst i n none s ≡ some (some p, s')
    → (s1 : Topology) × (compute_path conf true true src_addr dst s ≡ some (found p s1))
unfolding k_loop
k_loop-first conf mem src_addr dst i zero p s s' h = absurd (ground arith)
k_loop-first conf mem src_addr dst i (suc n) p s s' h =
    let (path, s1, e, h') = k_loop-round conf mem src_addr dst i n none p s s' h in
    let same = k_loop-keeps conf mem src_addr dst (i + 1) n path p s1 s' h' in
    (
      s1,
      compute_path-memory conf (mem.path i) (mem.path_data i) src_addr dst s s1 p (
          subst
            (λ q.
              compute_path conf (mem.path i) (mem.path_data i) src_addr dst s ≡ some (found q s1))
            (sym same) e),
    )
