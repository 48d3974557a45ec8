-- ===== src/Djk/Invariant.antt =====
-- The invariant of the main loop.
use mpolsr_testbed.Common.{
  ℕ, ◌+◌, ◌*◌, ◌≤◌, ◌<◌, ◌≡◌, ◌⊎◌, true, false, not, none, some, List, memb, IsDistinct, length,
}
use mpolsr_testbed.Tc.{Labels, ulong_max}
use mpolsr_testbed.Djk.Graph.{Walk}

module _ (nodes : List ℕ) (link_src : ℕ → List ℕ) (dst_node link_cost : ℕ → ℕ) where
  -- No link leaves the nodes, no link costs more than `max_cost`, and no sum of as many costs as
  -- there are nodes, and one more, reaches ulong_max.
  pub record IsNetwork (max_cost : ℕ) : Type 0 where
    pub closed :
        (u l : ℕ)
        → memb u nodes ≡ true
        → memb l (link_src u) ≡ true
        → memb (dst_node l) nodes ≡ true
    pub cheap :
        (u l : ℕ) → memb u nodes ≡ true → memb l (link_src u) ≡ true → link_cost l ≤ max_cost
    pub fits : length nodes * max_cost + max_cost < ulong_max

  -- `v` has its label from the link `link` of the node `node`.
  pub record IsChild (t : Labels) (v : ℕ) : Type 0 where
    pub node : ℕ
    pub link : ℕ
    pub in_nodes : memb node nodes ≡ true
    pub processed : t.processed node ≡ true
    pub in_links : memb link (link_src node) ≡ true
    pub ends : dst_node link ≡ v
    pub path : t.path v ≡ some node
    pub cost : t.cost v ≡ t.cost node + link_cost link
    pub hops : t.hops v ≡ t.hops node + 1

  abbrev pub IsRoot : ℕ → Labels → ℕ → Type 0
  IsRoot a t v = (v ≡ a) × (t.path v ≡ none)

  -- `queue` is what is left of `node_list`, and `first` is the hop count that the source has.
  pub record Inv (max_cost a first : ℕ) (queue : List ℕ) (t : Labels) : Type 0 where
    pub distinct : IsDistinct queue
    pub within : (v : ℕ) → memb v queue ≡ true → memb v nodes ≡ true
    pub flags : (v : ℕ) → memb v nodes ≡ true → t.processed v ≡ not (memb v queue)
    pub source : t.cost a ≡ 0
    pub root_hops : t.hops a ≡ first
    pub most : (v : ℕ) → memb v nodes ≡ true → t.cost v ≤ ulong_max
    pub walk :
        (v : ℕ)
        → memb v nodes ≡ true
        → t.cost v < ulong_max
        → Walk link_src dst_node link_cost a v (t.cost v)
    pub tree : (v : ℕ) → memb v nodes ≡ true → t.cost v < ulong_max → IsRoot a t v ⊎ IsChild t v
    pub settled :
        (u l : ℕ)
        → memb u nodes ≡ true
        → t.processed u ≡ true
        → memb l (link_src u) ≡ true
        → t.cost (dst_node l) ≤ t.cost u + link_cost l
    pub order :
        (u v : ℕ)
        → memb u nodes ≡ true
        → t.processed u ≡ true
        → memb v nodes ≡ true
        → t.processed v ≡ false
        → t.cost u ≤ t.cost v
    pub finite : (u : ℕ) → memb u nodes ≡ true → t.processed u ≡ true → t.cost u < ulong_max
    pub bound :
        (v : ℕ)
        → memb v nodes ≡ true
        → t.cost v < ulong_max
        → t.cost v + length queue * max_cost ≤ length nodes * max_cost
