-- ===== src/Tc/Wiring.antt =====
-- The two lists that each link stands in agree, and the operations keep it so.
use mpolsr_testbed.Common.{
  ℕ, ◌≡◌, ◌∙◌, subst, inl, inr, true, false, not, ◌&&◌, List, [], ◌∷◌, memb, ◌==◌, ==_iff,
  if◌then◌else◌, Bool-cases, IsDistinct, remove, remove-IsDistinct, memb-remove_ne,
  memb-remove_self, update, arith,
}
use mpolsr_testbed.Tc.{Topology}
use mpolsr_testbed.Tc.Nodes.{remove_links, unlink_each}
use mpolsr_testbed.Tc.Links.{insert_link, unlink}

-- The links out of a node of `nodes` start at it, lead to a node of `nodes`, and stand in the list of
-- the links into that node; and the other way round. No link stands twice in a list.
pub record IsWired (nodes : List ℕ) (s : Topology) : Type 0 where
  pub src_distinct : (u : ℕ) → IsDistinct (s.link_src u)
  pub dst_distinct : (u : ℕ) → IsDistinct (s.link_dst u)
  pub out :
      (u l : ℕ)
      → memb u nodes ≡ true
      → memb l (s.link_src u) ≡ true
      → (s.src_node l ≡ u)
        × (memb (s.dst_node l) nodes ≡ true)
        × (memb l (s.link_dst (s.dst_node l)) ≡ true)
  pub into :
      (v l : ℕ)
      → memb v nodes ≡ true
      → memb l (s.link_dst v) ≡ true
      → (s.dst_node l ≡ v)
        × (memb (s.src_node l) nodes ≡ true)
        × (memb l (s.link_src (s.src_node l)) ≡ true)

pub memb-remove :
    (a b : ℕ) (xs : List ℕ)
    → IsDistinct xs
    → memb b (remove a xs) ≡ (if a == b then false else memb b xs)
memb-remove a b xs d = elim (Bool-cases (a == b)) [
  | inl eq ↦
      let e : a ≡ b = (==_iff a b).0 eq in
      rw eq (subst (λ c. memb c (remove a xs) ≡ false) e (memb-remove_self a xs d))
  | inr ne ↦ rw ne (memb-remove_ne a b xs (ground arith))
]

module _ (owner : ℕ → ℕ) where
  pub unlink_each-IsDistinct :
      (ls : List ℕ) (m : ℕ → List ℕ)
      → ((u : ℕ) → IsDistinct (m u))
      → (u : ℕ) → IsDistinct (unlink_each owner ls m u)
  unfolding unlink_each
  unlink_each-IsDistinct [] m d u = d u
  unlink_each-IsDistinct (l ∷ ls) m d u =
      unlink_each-IsDistinct ls (update m (owner l) (remove l (m (owner l))))
        (λ v. elim (Bool-cases (owner l == v)) [
          | inl eq ↦ rw eq (remove-IsDistinct l (m (owner l)) (d (owner l)))
          | inr ne ↦ rw ne (d v)
        ])
        u

  memb-unlink_one :
      (l : ℕ) (m : ℕ → List ℕ) (u x : ℕ)
      → ((v : ℕ) → IsDistinct (m v))
      → memb x (update m (owner l) (remove l (m (owner l))) u)
        ≡ memb x (m u) && not (l == x && owner x == u)
  memb-unlink_one l m u x d = elim (Bool-cases (owner l == u)) [
    | inl eq ↦
        let e : owner l ≡ u = (==_iff (owner l) u).0 eq in
        rw eq (ground (arith, memb-remove l x (m (owner l)) (d (owner l)), e))
    | inr ne ↦ rw ne (ground arith)
  ]

  -- The links of the list leave the lists of their owners, and nothing else changes.
  pub memb-unlink_each :
      (ls : List ℕ) (m : ℕ → List ℕ) (u x : ℕ)
      → ((v : ℕ) → IsDistinct (m v))
      → memb x (unlink_each owner ls m u) ≡ memb x (m u) && not (memb x ls && owner x == u)
  unfolding unlink_each
  memb-unlink_each [] m u x d = ground arith
  memb-unlink_each (l ∷ ls) m u x d =
      memb-unlink_each ls (update m (owner l) (remove l (m (owner l)))) u x (λ v.
        elim (Bool-cases (owner l == v)) [
          | inl eq ↦ rw eq (remove-IsDistinct l (m (owner l)) (d (owner l)))
          | inr ne ↦ rw ne (d v)
        ])
      ∙ ground (arith, memb-unlink_one l m u x d)

module _ (nodes : List ℕ) (s : Topology) (w : IsWired nodes s) where
  -- Unlinking a link from both of its lists.
  pub unlink-IsWired : (link : ℕ) → IsWired nodes (unlink link s)
  unfolding unlink
  unlink-IsWired link = record {
    src_distinct = one_distinct s.src_node s.link_src w.src_distinct;
    dst_distinct = one_distinct s.dst_node s.link_dst w.dst_distinct;
    out = λ u l i m. ground (
      arith,
      memb-unlink_one s.src_node link s.link_src u l w.src_distinct,
      memb-unlink_one s.dst_node link s.link_dst (s.dst_node l) l w.dst_distinct,
      w.out u l i,
    );
    into = λ u l i m. ground (
      arith,
      memb-unlink_one s.dst_node link s.link_dst u l w.dst_distinct,
      memb-unlink_one s.src_node link s.link_src (s.src_node l) l w.src_distinct,
      w.into u l i,
    );
  }
    where
      one_distinct :
          (owner : ℕ → ℕ) (m : ℕ → List ℕ)
          → ((v : ℕ) → IsDistinct (m v))
          → (u : ℕ) → IsDistinct (update m (owner link) (remove link (m (owner link))) u)
      one_distinct owner m d u = elim (Bool-cases (owner link == u)) [
        | inl eq ↦ rw eq (remove-IsDistinct link (m (owner link)) (d (owner link)))
        | inr ne ↦ rw ne (d u)
      ]

  -- A link whose memory stands in no list enters the lists of two nodes.
  pub insert_link-IsWired :
      (link src dst cost : ℕ)
      → memb src nodes ≡ true
      → memb dst nodes ≡ true
      → ((u : ℕ)
          → memb u nodes ≡ true
          → (memb link (s.link_src u) ≡ false) × (memb link (s.link_dst u) ≡ false))
      → IsWired nodes (insert_link link src dst cost s)
  unfolding insert_link
  insert_link-IsWired link src dst cost src_in dst_in fresh = record {
    src_distinct = λ u. elim (Bool-cases (src == u)) [
      | inl eq ↦ rw eq ((fresh src src_in).0, w.src_distinct src)
      | inr ne ↦ rw ne (w.src_distinct u)
    ];
    dst_distinct = λ u. elim (Bool-cases (dst == u)) [
      | inl eq ↦ rw eq ((fresh dst dst_in).1, w.dst_distinct dst)
      | inr ne ↦ rw ne (w.dst_distinct u)
    ];
    out = λ u l i m. ground (arith, w.out u l i, fresh u i, src_in, dst_in);
    into = λ u l i m. ground (arith, w.into u l i, fresh u i, src_in, dst_in);
  }

  -- The links into a node leave the lists of the other nodes.
  pub memb-remove_links :
      (node u l : ℕ)
      → memb node nodes ≡ true
      → memb u nodes ≡ true
      → (u == node) ≡ false
      → memb l ((remove_links node s).link_src u)
        ≡ memb l (s.link_src u) && not (s.dst_node l == node)
  unfolding remove_links
  memb-remove_links node u l node_in u_in ne = ground (
    arith,
    memb-unlink_each s.src_node ls s.link_src u l w.src_distinct,
    memb-unlink_each s.dst_node (s.link_src node) s.link_dst node l w.dst_distinct,
    w.out u l,
    w.out node l,
    w.into node l,
  )
    where
      ls : List ℕ
      ls = unlink_each s.dst_node (s.link_src node) s.link_dst node

  -- A node leaves the list, and its links leave the lists of their other ends.
  pub remove_links-IsWired :
      (node : ℕ)
      → memb node nodes ≡ true
      → IsDistinct nodes
      → IsWired (remove node nodes) (remove_links node s)
  unfolding remove_links
  remove_links-IsWired node node_in d = record {
    src_distinct = unlink_each-IsDistinct s.src_node ls s.link_src w.src_distinct;
    dst_distinct = unlink_each-IsDistinct s.dst_node (s.link_src node) s.link_dst w.dst_distinct;
    out = λ u l i m. ground (
      arith,
      memb-remove node u nodes d,
      memb-remove node (s.dst_node l) nodes d,
      memb-unlink_each s.src_node ls s.link_src u l w.src_distinct,
      memb-unlink_each s.dst_node (s.link_src node) s.link_dst (s.dst_node l) l w.dst_distinct,
      memb-unlink_each s.dst_node (s.link_src node) s.link_dst node l w.dst_distinct,
      w.out u l,
      w.out node l,
    );
    into = λ u l i m. ground (
      arith,
      memb-remove node u nodes d,
      memb-remove node (s.src_node l) nodes d,
      memb-unlink_each s.src_node ls s.link_src (s.src_node l) l w.src_distinct,
      memb-unlink_each s.dst_node (s.link_src node) s.link_dst u l w.dst_distinct,
      memb-unlink_each s.dst_node (s.link_src node) s.link_dst node l w.dst_distinct,
      w.into u l,
      w.out node l,
      w.into node l,
    );
  }
    where
      ls : List ℕ
      ls = unlink_each s.dst_node (s.link_src node) s.link_dst node
