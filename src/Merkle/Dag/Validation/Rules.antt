-- ===== src/Merkle/Dag/Validation/Rules.antt =====
-- Which nodes `MerkleNode::validate` of merkle-tox-core/src/dag.rs accepts.
use rs_toxcore_c.Prelude.{
  ℕ, ◌+◌, ◌≤◌, ◌≡◌, refl, arith, Bool, true, ◌&&◌, ◌||◌, List, [], ltb, ◌⊎◌, inl, inr, ◌↔◌,
  Bool-cases, length,
}
use rs_toxcore_c.Merkle.Dag.{
  NodeAuth, ephemeral_signature, signature, ControlAction, Content, admin_node, content_node,
  NodeLookup, MerkleNode, node_type, is_admin_type, is_genesis,
}
use rs_toxcore_c.Merkle.Dag.Validation.{
  ValidationError, accepted, reject_if, is_empty, is_device_signed, allows_device_sig,
  check_authentication, WireAuthData, validate_pow, verify_admin_signature, check_signature,
  check_sizes, validate, max_parents, max_metadata_size, max_message_size,
}
use rs_toxcore_c.Merkle.Dag.Validation.Ranks.{
  and_then_iff, IsDistinct, check_duplicates_iff, HasRank, check_rank_iff, list-cases,
}
use rs_toxcore_c.Merkle.Dag.Validation.Parents.{
  NodeType-cases, IsIsolated, check_isolation_iff, IsTied, check_ancestry_iff, IsAnchored,
  check_soft_anchor_iff,
}

-- A limit that is checked.
limit_iff :
    (x limit : ℕ) (e : ValidationError) → (reject_if (ltb limit x) e ≡ accepted) ↔ (x ≤ limit)
limit_iff x limit e = elim (Bool-cases (ltb limit x)) [
  | inl l ↦ (λ h. cc (rw l at h), λ h. absurd (ground (arith, h, l)))
  | inr l ↦ (λ h. ground (arith, l), λ h. rw l refl)
]

-- A device signs Admin nodes, key distributions and control actions; another node, and the first of a
-- conversation of two, has an ephemeral signature.
abbrev pub IsAuthentic : MerkleNode → Type 0
IsAuthentic n =
    ((s : ℕ)
      → n.authentication ≡ signature s
      → (node_type n.content ≡ admin_node) ⊎ (allows_device_sig n ≡ true))
    × ((s : ℕ)
        → n.authentication ≡ ephemeral_signature s
        → (node_type n.content ≡ content_node) ⊎ ((is_genesis n.content ≡ true) × (n.parents ≡ [])))

NodeAuth-cases :
    (a : NodeAuth) → ((s : ℕ) × (a ≡ signature s)) ⊎ ((s : ℕ) × (a ≡ ephemeral_signature s))
NodeAuth-cases (signature s) = inl (s, refl)
NodeAuth-cases (ephemeral_signature s) = inr (s, refl)

accepted→IsAuthentic : (n : MerkleNode) → check_authentication n ≡ accepted → IsAuthentic n
unfolding check_authentication is_empty
accepted→IsAuthentic n h = (
  λ s a. elim (NodeType-cases (node_type n.content)) [
    | inl t ↦ inl t
    | inr t ↦ elim (Bool-cases (allows_device_sig n)) [
      | inl d ↦ inr d
      | inr d ↦ cc (rw (check_authentication, a, t, d) at h)
    ]
  ],
  λ s a. elim (NodeType-cases (node_type n.content)) [
    | inr t ↦ inl t
    | inl t ↦ elim (Bool-cases (is_genesis n.content)) [
      | inr g ↦ cc (rw (check_authentication, a, t, g) at h)
      | inl g ↦ elim (list-cases n.parents) [
        | inl e ↦ inr (g, e)
        | inr (p, ps, e) ↦ cc (rw (check_authentication, a, t, g, e) at h)
      ]
    ]
  ],
)

IsAuthentic→accepted : (n : MerkleNode) → IsAuthentic n → check_authentication n ≡ accepted
unfolding check_authentication is_empty
IsAuthentic→accepted n (device, ephemeral) = elim (NodeAuth-cases n.authentication) [
  | inl (s, a) ↦ elim (NodeType-cases (node_type n.content)) [
    | inl t ↦ rw (check_authentication, a, t) refl
    | inr t ↦ elim (device s a) [ inl t' ↦ cc | inr d ↦ rw (check_authentication, a, t, d) refl ]
  ]
  | inr (s, a) ↦ elim (NodeType-cases (node_type n.content)) [
    | inr t ↦ rw (check_authentication, a, t) refl
    | inl t ↦ elim (ephemeral s a) [
      | inl t' ↦ cc
      | inr (g, e) ↦ rw (check_authentication, a, t, g, e) refl
    ]
  ]
]

module _ (serialize_content : Content → List ℕ) (serialize_wire : WireAuthData → List ℕ)
    (serialize_action : ControlAction → List ℕ) (serialize_node : MerkleNode → List ℕ)
    (blake3 : List ℕ → List ℕ) (signed : ℕ → List ℕ → ℕ → Bool) (lookup : NodeLookup)
    (n : MerkleNode) where
  abbrev signs_itself : Bool
  signs_itself =
      is_admin_type (node_type n.content)
      || (allows_device_sig n && is_device_signed n.authentication)

  abbrev pow : Bool
  pow =
      validate_pow serialize_content serialize_wire serialize_action serialize_node blake3 signed n

  abbrev sig : Bool
  sig =
      verify_admin_signature serialize_content serialize_wire serialize_action serialize_node blake3
        signed n

  -- A node of a device is signed as it has to be, and shows the work that a first node has to show.
  abbrev pub IsProved : Type 0
  IsProved = signs_itself ≡ true → (pow ≡ true) × (sig ≡ true)

  check_signature_iff :
      (check_signature serialize_content serialize_wire serialize_action serialize_node blake3
          signed n
        ≡ accepted)
      ↔ IsProved
  unfolding check_signature
  check_signature_iff = elim (Bool-cases signs_itself) [
    | inr g ↦ (λ h i. cc, λ h. rw (check_signature, g) refl)
    | inl g ↦ elim (Bool-cases pow) [
      | inr p ↦ (λ h. cc (rw (check_signature, g, p) at h), λ h. cc ((h g).0))
      | inl p ↦ elim (Bool-cases sig) [
        | inr v ↦ (λ h. cc (rw (check_signature, g, p, v) at h), λ h. cc ((h g).1))
        | inl v ↦ (λ h i. (p, v), λ h. rw (check_signature, g, p, v) refl)
      ]
    ]
  ]

  check_sizes_iff :
      (check_sizes serialize_content serialize_wire serialize_action serialize_node blake3 signed n
        ≡ accepted)
      ↔ ((length n.metadata ≤ max_metadata_size)
          × (length n.metadata + length (serialize_content n.content) ≤ max_message_size))
  unfolding check_sizes
  check_sizes_iff =
      let (to, from) = and_then_iff _ _ in
      let (small, fits) = limit_iff (length n.metadata) max_metadata_size _ in
      let (small', fits') =
        limit_iff (length n.metadata + length (serialize_content n.content)) max_message_size _ in
      (λ h. let (a, b) = to h in (small a, small' b), λ (a, b). from (fits a, fits' b))

  -- What the protocol asks of a node.
  pub record IsAllowed : Type 0 where
    pub few_parents : length n.parents ≤ max_parents
    pub distinct_parents : IsDistinct [] n.parents
    pub small_metadata : length n.metadata ≤ max_metadata_size
    pub small_message : length n.metadata + length (serialize_content n.content) ≤ max_message_size
    pub authentic : IsAuthentic n
    pub proved : IsProved
    pub ranked : HasRank lookup.get_rank n.topological_rank n.parents
    pub isolated : IsIsolated lookup n
    pub anchored : IsAnchored lookup n
    pub tied : IsTied lookup n

  -- A node is accepted exactly when it is allowed (`IsAllowed`): it has at most 16 parents, none
  -- twice, and its metadata and message are within the limits; a device signature stands only on an
  -- Admin node, a key distribution or a control action, and an ephemeral one only on a Content node
  -- or a Genesis without parents; an Admin node, and a Content node with a device signature, has
  -- the signature of its sender, or is such a Genesis, and a Genesis with a device signature shows
  -- its proof of work; its parents are all there, and its rank is 0 without parents and otherwise
  -- one more than the highest of theirs, as a `u64`; an Admin node that is no soft anchor has Admin
  -- nodes as parents; a soft anchor has its basis as its only parent and continues a chain of at
  -- most 3 where the length is known; and a Content node with parents knows the distances of all of
  -- them to an Admin node, one of which is below 500. Nothing is asked of the ephemeral signature
  -- itself, which the code checks elsewhere.
  pub validate_iff :
      (validate serialize_content serialize_wire serialize_action serialize_node blake3 signed
          lookup n
        ≡ accepted)
      ↔ IsAllowed
  unfolding validate
  validate_iff = (
    λ h.
        let (parents, h₁) = (and_then_iff _ _).0 h in
        let (distinct, h₂) = (and_then_iff _ _).0 h₁ in
        let (sizes, h₃) = (and_then_iff _ _).0 h₂ in
        let (auth, h₄) = (and_then_iff _ _).0 h₃ in
        let (signs, h₅) = (and_then_iff _ _).0 h₄ in
        let (rank, h₆) = (and_then_iff _ _).0 h₅ in
        let (isolation, h₇) = (and_then_iff _ _).0 h₆ in
        let (anchor, ancestry) = (and_then_iff _ _).0 h₇ in
        let (small, message) = check_sizes_iff.0 sizes in
        record {
          few_parents = (limit_iff _ _ _).0 parents;
          distinct_parents = (check_duplicates_iff n.parents).0 distinct;
          small_metadata = small;
          small_message = message;
          authentic = accepted→IsAuthentic n auth;
          proved = check_signature_iff.0 signs;
          ranked = (check_rank_iff lookup n).0 rank;
          isolated = (check_isolation_iff lookup n).0 isolation;
          anchored = (check_soft_anchor_iff lookup n).0 anchor;
          tied = (check_ancestry_iff lookup n).0 ancestry;
        },
    λ a.
        rw
          (
            validate,
            (limit_iff (length n.parents) max_parents _).1 a.few_parents,
            (check_duplicates_iff n.parents).1 a.distinct_parents,
            check_sizes_iff.1 (a.small_metadata, a.small_message),
            IsAuthentic→accepted n a.authentic,
            check_signature_iff.1 a.proved,
            (check_rank_iff lookup n).1 a.ranked,
            (check_isolation_iff lookup n).1 a.isolated,
            (check_soft_anchor_iff lookup n).1 a.anchored,
            (check_ancestry_iff lookup n).1 a.tied,
          )
          refl,
  )
