-- ===== src/Tc/WellFormed/Reset.antt =====
-- The store without nodes, after tc_free_data.
use mpolsr_testbed.Common.{ℕ, ◌≡◌, inl, inr, Bool-cases, none, ltb, arith}
use mpolsr_testbed.Tc.{Topology}
use mpolsr_testbed.Tc.Hash.{find_addr, get_node}
use mpolsr_testbed.Tc.Nodes.{free_data, init_data}
use mpolsr_testbed.Tc.Lookup.{lookup}
use mpolsr_testbed.Tc.WellFormed.{get_node-none, IsWellFormed}

free_data-lookup : (s : Topology) (a : ℕ) → lookup (free_data s) a ≡ none
unfolding free_data init_data find_addr
free_data-lookup s a = ground arith

-- Freeing the store keeps the invariant, and no address is known afterwards.
pub free_data-IsWellFormed :
    (s : Topology)
    → IsWellFormed s
    → IsWellFormed (free_data s) × ((a : ℕ) → get_node (free_data s) a ≡ none)
unfolding free_data init_data
free_data-IsWellFormed s wf = (
  record {
    distinct = tt;
    indexed = record {
      chains = λ key. elim (Bool-cases (ltb key 256)) [
        | inl used ↦ rw used tt
        | inr other ↦ rw other (wf.indexed.chains key)
      ];
      entries = λ ip e h. absurd (ground (arith, free_data-lookup s ip));
      slots = λ n i ip m h. absurd (cc);
      sizes = λ n m. absurd (cc);
    };
    wired = record {
      src_distinct = wf.wired.src_distinct;
      dst_distinct = wf.wired.dst_distinct;
      out = λ u l i m. absurd (cc);
      into = λ u l i m. absurd (cc);
    };
    mains = λ n m. absurd (cc);
  },
  λ a. get_node-none (free_data s) a (free_data-lookup s a),
)
