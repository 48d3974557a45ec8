-- ===== src/Djk/Graph.antt =====
-- What a path is, apart from the algorithm: the walks of the link graph with their total costs.
use mpolsr_testbed.Common.{ℕ, ◌+◌, ◌≡◌, true, List, memb}

module _ (link_src : ℕ → List ℕ) (dst_node link_cost : ℕ → ℕ) where
  -- `Walk a v d`: some walk along the links goes from `a` to `v` and costs `d`.
  pub data Walk (a : ℕ) : ℕ → ℕ → Type 0 where
    here : Walk a a 0
    step :
        {u c : ℕ}
        → Walk a u c
        → (l v d : ℕ) → memb l (link_src u) ≡ true
        → dst_node l ≡ v
        → c + link_cost l ≡ d
        → Walk a v d
