-- ===== src/Merkle/Dag/Validation.antt =====
-- merkle-tox-core/src/dag.rs: `MerkleNode::validate` and what it calls. The parameters are the
-- serialisation of contents, actions, nodes and of the fields that are signed, the hash blake3 on
-- bytes, and the check of a signature, which is false for a key that is none.
pub mod Ranks
pub mod Parents
pub mod Rules
use Prim.Native.String.{String}
use rs_toxcore_c.Prelude.{
  ℕ, zero, suc, ◌+◌, ◌-◌, ◌/◌, ◌%◌, ◌^◌, min, max, Bool, true, false, not, ◌&&◌, ◌||◌, Option, none,
  some, List, [], ◌∷◌, ◌++◌, ◌==◌, ltb, leb, if◌then◌else◌, length, contains,
}
use rs_toxcore_c.Merkle.Dag.{
  NodeAuth, ephemeral_signature, signature, ControlAction, genesis, Content, control, NodeType,
  admin_node, content_node, MerkleNode, NodeLookup, node_type, is_admin_type, is_control, is_skd,
  is_genesis, basis_of,
}
use rs_toxcore_c.Merkle.Dag.Padding.{apply_padding}

abbrev pub pow_difficulty : ℕ
pow_difficulty = 20

abbrev pub max_soft_anchor_chain : ℕ
max_soft_anchor_chain = 3

abbrev pub max_parents : ℕ
max_parents = 16

abbrev pub max_ancestry_hops : ℕ
max_ancestry_hops = 500

abbrev pub max_metadata_size : ℕ
max_metadata_size = 32768

-- tox-proto/src/constants.rs
abbrev pub max_message_size : ℕ
max_message_size = 1048576

abbrev pub u64_mod : ℕ
u64_mod = 2 ^ 64

abbrev pub u64_max : ℕ
u64_max = 2 ^ 64 - 1

pub data ValidationError : Type 0 where
  max_parents_exceeded : (actual limit : ℕ) → ValidationError
  max_metadata_exceeded : (actual limit : ℕ) → ValidationError
  too_many_speculative_nodes : ValidationError
  too_many_verified_nodes : ValidationError
  pow_invalid : ValidationError
  empty_dag : ValidationError
  invalid_wire_payload_size : (actual expected_min : ℕ) → ValidationError
  ancestry_cap_exceeded : (actual limit : ℕ) → ValidationError
  topological_rank_violation : (actual expected : ℕ) → ValidationError
  missing_parents : List ℕ → ValidationError
  invalid_admin_signature : ValidationError
  genesis_mac_with_parents : ValidationError
  admin_cannot_have_content_parent : ValidationError
  content_node_should_use_mac : ValidationError
  admin_node_should_use_signature : ValidationError
  duplicate_parent : ℕ → ValidationError
  invalid_sequence_number : (actual last : ℕ) → ValidationError
  invalid_padding : String → ValidationError
  decompression_failed : String → ValidationError
  mac_mismatch : ValidationError
  max_message_size_exceeded : (actual limit : ℕ) → ValidationError
  soft_anchor_invalid_parent : ValidationError
  soft_anchor_chaining_cap_exceeded : (actual limit : ℕ) → ValidationError
  invalid_edit_target : ValidationError
  edit_author_mismatch : ValidationError
  redaction_permission_denied : ValidationError
  invalid_reaction_target : ValidationError
  invalid_legacy_bridge_dedup : ValidationError

pub data Verdict : Type 0 where
  accepted : Verdict
  rejected : ValidationError → Verdict

-- A check after which the code goes on.
abbrev pub and_then : Verdict → Verdict → Verdict
and_then accepted v = v
and_then (rejected e) v = rejected e

-- `if bad { return Err(e); }`
abbrev pub reject_if : Bool → ValidationError → Verdict
reject_if bad e = if bad then rejected e else accepted

-- The bytes of a number, the most significant first, and last.
unfoldable pub to_be_bytes : ℕ → ℕ → List ℕ
to_be_bytes zero n = []
to_be_bytes (suc k) n = to_be_bytes k (n / 256) ++ n % 256 ∷ []

unfoldable pub to_le_bytes : ℕ → ℕ → List ℕ
to_le_bytes zero n = []
to_le_bytes (suc k) n = n % 256 ∷ to_le_bytes k (n / 256)

-- `u8::leading_zeros`, of a byte that is not zero.
unfoldable pub byte_leading_zeros : ℕ → ℕ → ℕ
byte_leading_zeros zero byte = 0
byte_leading_zeros (suc bits) byte =
    let rest = byte_leading_zeros bits byte in if ltb byte (2 ^ bits) then suc rest else 0

unfoldable pub count_leading_zeros : List ℕ → ℕ
unfolding byte_leading_zeros
count_leading_zeros [] = 0
count_leading_zeros (byte ∷ hash) =
    let rest = count_leading_zeros hash in if byte == 0 then 8 + rest else byte_leading_zeros 8 byte

-- The parents that are in the list twice: the first whose insertion fails.
unfoldable pub duplicate_of : List ℕ → List ℕ → Option ℕ
unfolding contains
duplicate_of unique_parents [] = none
duplicate_of unique_parents (p ∷ ps) =
    let rest = duplicate_of (p ∷ unique_parents) ps in
    if contains unique_parents p then some p else rest

unfoldable pub check_duplicates : List ℕ → Verdict
unfolding duplicate_of
check_duplicates parents = elim (duplicate_of [] parents) [
  | none ↦ accepted
  | some p ↦ rejected (duplicate_parent p)
]

unfoldable pub max_parent_rank : (ℕ → Option ℕ) → List ℕ → ℕ → ℕ
max_parent_rank get_rank [] best = best
max_parent_rank get_rank (p ∷ ps) best = elim (get_rank p) [
  | none ↦ max_parent_rank get_rank ps best
  | some rank ↦ max_parent_rank get_rank ps (if leb best rank then rank else best)
]

unfoldable pub missing : (ℕ → Option ℕ) → List ℕ → List ℕ
missing get_rank [] = []
missing get_rank (p ∷ ps) = elim (get_rank p) [
  | none ↦ p ∷ missing get_rank ps
  | some rank ↦ missing get_rank ps
]

-- `max_parent_rank + 1`, as a build without overflow checks adds.
unfoldable pub expected_rank : (ℕ → Option ℕ) → List ℕ → ℕ
unfolding max_parent_rank
expected_rank get_rank [] = 0
expected_rank get_rank (p ∷ ps) = (max_parent_rank get_rank (p ∷ ps) 0 + 1) % u64_mod

unfoldable pub check_rank : NodeLookup → MerkleNode → Verdict
unfolding missing expected_rank
check_rank lookup n = elim (missing lookup.get_rank n.parents) [
  | p ∷ ps ↦ rejected (missing_parents (p ∷ ps))
  | [] ↦
      reject_if (not (n.topological_rank == expected_rank lookup.get_rank n.parents))
        (topological_rank_violation n.topological_rank (expected_rank lookup.get_rank n.parents))
]

unfoldable pub admin_parents : (ℕ → Option NodeType) → List ℕ → Verdict
admin_parents get_node_type [] = accepted
admin_parents get_node_type (p ∷ ps) = elim (get_node_type p) [
  | some admin_node ↦ admin_parents get_node_type ps
  | some content_node ↦ rejected admin_cannot_have_content_parent
  | none ↦ rejected (missing_parents (p ∷ []))
]

-- Chain isolation
unfoldable pub check_isolation : NodeLookup → MerkleNode → Verdict
unfolding node_type basis_of admin_parents
check_isolation lookup n = elim (node_type n.content) [
  | content_node ↦ accepted
  | admin_node ↦ elim (basis_of n.content) [
    | some basis_hash ↦ accepted
    | none ↦ admin_parents lookup.get_node_type n.parents
  ]
]

-- `parents.len() != 1 || parents[0] != basis_hash`
unfoldable pub is_sole : ℕ → List ℕ → Bool
is_sole basis_hash (p ∷ []) = p == basis_hash
is_sole basis_hash other = false

unfoldable pub check_soft_anchor : NodeLookup → MerkleNode → Verdict
unfolding basis_of is_sole
check_soft_anchor lookup n = elim (basis_of n.content) [
  | none ↦ accepted
  | some basis_hash ↦
      and_then (reject_if (not (is_sole basis_hash n.parents)) soft_anchor_invalid_parent)
        (elim (lookup.get_soft_anchor_chain_length basis_hash) [
          | none ↦ accepted
          | some chain_len ↦
              reject_if (ltb max_soft_anchor_chain (chain_len + 1))
                (soft_anchor_chaining_cap_exceeded (chain_len + 1) max_soft_anchor_chain)
        ])
]

-- The loop over the distances of the parents, then the check of the least.
unfoldable pub near_admin : (ℕ → Option ℕ) → List ℕ → ℕ → Verdict
near_admin get_admin_distance [] min_distance =
    reject_if (leb max_ancestry_hops min_distance)
      (ancestry_cap_exceeded (min_distance + 1) max_ancestry_hops)
near_admin get_admin_distance (p ∷ ps) min_distance = elim (get_admin_distance p) [
  | none ↦ rejected (missing_parents (p ∷ []))
  | some dist ↦ near_admin get_admin_distance ps (min min_distance dist)
]

unfoldable pub check_ancestry : NodeLookup → MerkleNode → Verdict
unfolding node_type near_admin
check_ancestry lookup n = elim (node_type n.content) [
  | admin_node ↦ accepted
  | content_node ↦ elim n.parents [
    | [] ↦ accepted
    | p ∷ ps ↦ near_admin lookup.get_admin_distance (p ∷ ps) u64_max
  ]
]

unfoldable pub is_empty : List ℕ → Bool
is_empty [] = true
is_empty (x ∷ xs) = false

unfoldable pub allows_device_sig : MerkleNode → Bool
unfolding is_skd is_control node_type is_admin_type
allows_device_sig n =
    is_skd n.content || (is_control n.content && not (is_admin_type (node_type n.content)))

unfoldable pub is_device_signed : NodeAuth → Bool
is_device_signed (signature _) = true
is_device_signed (ephemeral_signature _) = false

-- The authentication rule
unfoldable pub check_authentication : MerkleNode → Verdict
unfolding node_type allows_device_sig is_genesis is_empty
check_authentication n = elim n.authentication [
  | signature _ ↦ elim (node_type n.content) [
    | admin_node ↦ accepted
    | content_node ↦ reject_if (not (allows_device_sig n)) content_node_should_use_mac
  ]
  | ephemeral_signature _ ↦ elim (node_type n.content) [
    | content_node ↦ accepted
    | admin_node ↦
        if is_genesis n.content
        then reject_if (not (is_empty n.parents)) genesis_mac_with_parents
        else rejected admin_node_should_use_signature
  ]
]

-- `WireAuthData`, with the flags of a node that is not encrypted.
pub record WireAuthData : Type 0 where
  pub parents : List ℕ
  pub sender_hint : List ℕ
  pub encrypted_routing : List ℕ
  pub payload_data : List ℕ
  pub topological_rank : ℕ
  pub flags : ℕ

-- "merkle-tox v1 admin-sig" and "merkle-tox v1 content-sig"
abbrev pub separator_of : NodeType → List ℕ
separator_of admin_node =
    109 ∷ 101 ∷ 114 ∷ 107 ∷ 108 ∷ 101 ∷ 45 ∷ 116 ∷ 111 ∷ 120 ∷ 32 ∷ 118 ∷ 49 ∷ 32 ∷ 97 ∷ 100 ∷ 109
    ∷ 105 ∷ 110 ∷ 45 ∷ 115 ∷ 105 ∷ 103 ∷ []
separator_of content_node =
    109 ∷ 101 ∷ 114 ∷ 107 ∷ 108 ∷ 101 ∷ 45 ∷ 116 ∷ 111 ∷ 120 ∷ 32 ∷ 118 ∷ 49 ∷ 32 ∷ 99 ∷ 111 ∷ 110
    ∷ 116 ∷ 101 ∷ 110 ∷ 116 ∷ 45 ∷ 115 ∷ 105 ∷ 103 ∷ []

module _ (serialize_content : Content → List ℕ) (serialize_wire : WireAuthData → List ℕ) where
  unfoldable pub payload_of : MerkleNode → List ℕ
  unfolding to_be_bytes apply_padding
  payload_of n =
      apply_padding
        ((to_be_bytes 8 n.network_timestamp ++ serialize_content n.content) ++ n.metadata)

  unfoldable pub routing_of : MerkleNode → List ℕ
  unfolding to_be_bytes
  routing_of n = to_be_bytes 32 n.sender_pk ++ to_be_bytes 8 n.sequence_number

  unfoldable pub serialize_for_auth : MerkleNode → List ℕ
  unfolding payload_of routing_of node_type
  serialize_for_auth n =
      separator_of (node_type n.content)
      ++ serialize_wire (record {
        parents = n.parents;
        sender_hint = 0 ∷ 0 ∷ 0 ∷ 0 ∷ [];
        encrypted_routing = routing_of n;
        payload_data = payload_of n;
        topological_rank = n.topological_rank;
        flags = 0;
      })

module _ (serialize_content : Content → List ℕ) (serialize_wire : WireAuthData → List ℕ)
    (serialize_action : ControlAction → List ℕ) (serialize_node : MerkleNode → List ℕ)
    (blake3 : List ℕ → List ℕ) (signed : ℕ → List ℕ → ℕ → Bool) where
  -- The functions `validate_pow` and `validate_pow_v2`, and the method `validate_pow`.
  unfoldable pub validate_pow_v1 : ℕ → List ℕ → ℕ → Bool
  unfolding count_leading_zeros to_be_bytes to_le_bytes
  validate_pow_v1 creator_pk node_hash nonce = leb pow_difficulty (
      count_leading_zeros
        (blake3 ((to_be_bytes 32 creator_pk ++ node_hash) ++ to_le_bytes 8 nonce)))

  unfoldable pub validate_pow_v2 : ℕ → ControlAction → Bool
  unfolding count_leading_zeros to_be_bytes
  validate_pow_v2 creator_pk genesis_action =
      leb pow_difficulty (
        count_leading_zeros (blake3 (to_be_bytes 32 creator_pk ++ serialize_action genesis_action)))

  unfoldable pub validate_pow : MerkleNode → Bool
  unfolding is_device_signed validate_pow_v1 validate_pow_v2
  validate_pow n = elim n.content [
    | control (genesis title creator_pk permissions flags created_at pow_nonce) ↦
        not (is_device_signed n.authentication)
        || (not (pow_nonce == 0)
            && validate_pow_v2 creator_pk
                (genesis title creator_pk permissions flags created_at pow_nonce))
        || validate_pow_v1 creator_pk (blake3 (serialize_node n)) n.pow_nonce
    | other ↦ true
  ]

  unfoldable pub verify_admin_signature : MerkleNode → Bool
  unfolding serialize_for_auth is_genesis is_empty
  verify_admin_signature n = elim n.authentication [
    | signature sig ↦ signed n.sender_pk (serialize_for_auth serialize_content serialize_wire n) sig
    | ephemeral_signature _ ↦ is_genesis n.content && is_empty n.parents
  ]

  -- Admin authenticity
  unfoldable pub check_signature : MerkleNode → Verdict
  unfolding validate_pow verify_admin_signature is_admin_type node_type allows_device_sig
      is_device_signed
  check_signature n =
      if is_admin_type (node_type n.content)
        || (allows_device_sig n && is_device_signed n.authentication)
      then and_then (reject_if (not (validate_pow n)) pow_invalid)
          (reject_if (not (verify_admin_signature n)) invalid_admin_signature)
      else accepted

  unfoldable pub check_sizes : MerkleNode → Verdict
  check_sizes n =
      and_then
        (reject_if (ltb max_metadata_size (length n.metadata))
          (max_metadata_exceeded (length n.metadata) max_metadata_size))
        (reject_if (ltb max_message_size (length n.metadata + length (serialize_content n.content)))
          (max_message_size_exceeded (length n.metadata + length (serialize_content n.content))
            max_message_size))

  unfoldable pub validate : NodeLookup → MerkleNode → Verdict
  unfolding check_duplicates check_sizes check_authentication check_signature check_rank
      check_isolation check_soft_anchor check_ancestry
  validate lookup n =
      and_then
        (reject_if (ltb max_parents (length n.parents))
          (max_parents_exceeded (length n.parents) max_parents))
        (and_then (check_duplicates n.parents) (
          and_then (check_sizes n) (
            and_then (check_authentication n) (
              and_then (check_signature n) (
                and_then (check_rank lookup n) (
                  and_then (check_isolation lookup n)
                    (and_then (check_soft_anchor lookup n) (check_ancestry lookup n))))))))
