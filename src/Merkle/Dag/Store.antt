-- ===== src/Merkle/Dag/Store.antt =====
-- Nodes in a store, by their hashes, and `effective_timestamp` of merkle-tox-core/src/dag.rs. The
-- recursion of the code is unbounded; here it has `fuel`.
pub mod Ancestors
use rs_toxcore_c.Prelude.{ℕ, zero, suc, max, ◌==◌, if◌then◌else◌, Option, none, some, List, [], ◌∷◌}
use rs_toxcore_c.Merkle.Dag.{MerkleNode, NodeType, node_type, NodeLookup}

-- `NodeStore::get_node`
abbrev pub Store : Type 0
Store = ℕ → Option MerkleNode

-- The loop over the parents.
unfoldable pub latest : Store → (MerkleNode → ℕ) → List ℕ → ℕ → ℕ
latest store timestamp_of [] t_eff = t_eff
latest store timestamp_of (parent_hash ∷ parents) t_eff = elim (store parent_hash) [
  | none ↦ latest store timestamp_of parents t_eff
  | some parent ↦ latest store timestamp_of parents (max t_eff (timestamp_of parent))
]

unfoldable pub effective_timestamp : Store → ℕ → MerkleNode → ℕ
unfolding latest
effective_timestamp store zero node = node.network_timestamp
effective_timestamp store (suc fuel) node =
    latest store (effective_timestamp store fuel) node.parents node.network_timestamp
