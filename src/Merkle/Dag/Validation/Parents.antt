-- ===== src/Merkle/Dag/Validation/Parents.antt =====
-- The types of the parents and their distance to an Admin node in `MerkleNode::validate` of
-- merkle-tox-core/src/dag.rs.
use rs_toxcore_c.Merkle.{IsIn}
use rs_toxcore_c.Prelude.{
  ℕ, ◌+◌, ◌≤◌, ◌<◌, ◌≡◌, refl, ap, ◌∙◌, arith, min, true, false, Option, none, some, List, [], ◌∷◌,
  ltb, leb, ◌⊎◌, inl, inr, ◌↔◌, Bool-cases, Option-cases, All,
}
use rs_toxcore_c.Merkle.Dag.{
  NodeType, admin_node, content_node, NodeLookup, MerkleNode, node_type, basis_of,
}
use rs_toxcore_c.Merkle.Dag.Validation.{
  accepted, admin_parents, check_isolation, near_admin, check_ancestry, is_sole, check_soft_anchor,
  max_ancestry_hops, max_soft_anchor_chain, u64_max,
}
use rs_toxcore_c.Merkle.Dag.Validation.Ranks.{list-cases}

pub NodeType-cases : (t : NodeType) → (t ≡ admin_node) ⊎ (t ≡ content_node)
NodeType-cases admin_node = inl refl
NodeType-cases content_node = inr refl

is_sole-lem : (b : ℕ) (ps : List ℕ) → is_sole b ps ≡ true → ps ≡ b ∷ []
unfolding is_sole
is_sole-lem b [] h = cc
is_sole-lem b (p ∷ []) h = let e : p ≡ b = ground (arith, h) in ap (λ x. x ∷ []) e
is_sole-lem b (p ∷ q ∷ ps) h = cc

sole : (b : ℕ) → is_sole b (b ∷ []) ≡ true
unfolding is_sole
sole b = ground arith

module _ (get_node_type : ℕ → Option NodeType) where
  abbrev pub IsAdmin : ℕ → Type 0
  IsAdmin p = get_node_type p ≡ some admin_node

  accepted→All : (ps : List ℕ) → admin_parents get_node_type ps ≡ accepted → All IsAdmin ps
  unfolding admin_parents
  accepted→All [] h = tt
  accepted→All (p ∷ ps) h = elim (Option-cases (get_node_type p)) [
    | inl e ↦ cc (rw (admin_parents, e) at h)
    | inr (t, e) ↦ elim (NodeType-cases t) [
      | inl f ↦ (e ∙ ap (λ x. some x) f, accepted→All ps (rw (admin_parents, e, f) at h))
      | inr f ↦ cc (rw (admin_parents, e, f) at h)
    ]
  ]

  All→accepted : (ps : List ℕ) → All IsAdmin ps → admin_parents get_node_type ps ≡ accepted
  unfolding admin_parents
  All→accepted [] h = refl
  All→accepted (p ∷ ps) (e, h) = rw (admin_parents, e) (All→accepted ps h)

module _ (get_admin_distance : ℕ → Option ℕ) where
  abbrev HasDistance : ℕ → Type 0
  HasDistance p = (d : ℕ) × (get_admin_distance p ≡ some d)

  abbrev IsNearOne : List ℕ → Type 0
  IsNearOne ps =
      (q : ℕ) × (d : ℕ) × IsIn q ps × (get_admin_distance q ≡ some d) × (d < max_ancestry_hops)

  -- All distances are known and one of them is below the cap.
  abbrev pub IsNear : List ℕ → Type 0
  IsNear [] = Unit
  IsNear (p ∷ ps) = All HasDistance (p ∷ ps) × IsNearOne (p ∷ ps)

  near_admin-IsNearOne :
      (ps : List ℕ) (best : ℕ)
      → near_admin get_admin_distance ps best ≡ accepted
      → All HasDistance ps × ((best < max_ancestry_hops) ⊎ IsNearOne ps)
  unfolding near_admin
  near_admin-IsNearOne [] best h = elim (Bool-cases (leb max_ancestry_hops best)) [
    | inl e ↦ cc (rw e at h)
    | inr e ↦ (tt, inl (ground (arith, e)))
  ]
  near_admin-IsNearOne (p ∷ ps) best h = elim (Option-cases (get_admin_distance p)) [
    | inl e ↦ cc (rw (near_admin, e) at h)
    | inr (d, e) ↦
        let (all, one) = near_admin-IsNearOne ps (min best d) (rw (near_admin, e) at h) in
        (
          ((d, e), all),
          elim one [
            | inr (q, d', i, f, l) ↦ inr (q, d', inr i, f, l)
            | inl l ↦ elim (Bool-cases (ltb best max_ancestry_hops)) [
              | inl g ↦ inl (ground (arith, g))
              | inr g ↦ inr (p, d, inl refl, e, ground (arith, g, l))
            ]
          ],
        )
  ]

  IsNearOne-near_admin :
      (ps : List ℕ) (best : ℕ)
      → All HasDistance ps
      → (best < max_ancestry_hops) ⊎ IsNearOne ps
      → near_admin get_admin_distance ps best ≡ accepted
  unfolding near_admin
  IsNearOne-near_admin [] best h (inl l) =
      let e : leb max_ancestry_hops best ≡ false = ground (arith, l) in rw e refl
  IsNearOne-near_admin [] best h (inr (q, d, i, f, l)) = elim i [ ]
  IsNearOne-near_admin (p ∷ ps) best ((d, e), h) (inl l) =
      rw (near_admin, e) (IsNearOne-near_admin ps (min best d) h (inl (ground (arith, l))))
  IsNearOne-near_admin (p ∷ ps) best ((d, e), h) (inr (q, d', inl own, f, l)) =
      let same : d ≡ d' = cc in
      rw (near_admin, e) (IsNearOne-near_admin ps (min best d) h (inl (ground (arith, l, same))))
  IsNearOne-near_admin (p ∷ ps) best ((d, e), h) (inr (q, d', inr i, f, l)) =
      rw (near_admin, e) (IsNearOne-near_admin ps (min best d) h (inr (q, d', i, f, l)))

  near_admin_iff :
      (p : ℕ) (ps : List ℕ)
      → (near_admin get_admin_distance (p ∷ ps) u64_max ≡ accepted) ↔ IsNear (p ∷ ps)
  near_admin_iff p ps = (
    λ h.
        let (all, one) = near_admin-IsNearOne (p ∷ ps) u64_max h in
        (all, elim one [ inl l ↦ absurd (ground (arith, l)) | inr near ↦ near ]),
    λ (all, near). IsNearOne-near_admin (p ∷ ps) u64_max all (inr near),
  )

module _ (lookup : NodeLookup) (n : MerkleNode) where
  -- Chain isolation: the parents of an Admin node are Admin nodes, unless it is a soft anchor.
  abbrev pub IsIsolated : Type 0
  IsIsolated =
      node_type n.content ≡ admin_node
      → basis_of n.content ≡ none
      → All (IsAdmin lookup.get_node_type) n.parents

  pub check_isolation_iff : (check_isolation lookup n ≡ accepted) ↔ IsIsolated
  unfolding check_isolation
  check_isolation_iff = (
    λ h t b. accepted→All lookup.get_node_type n.parents (rw (check_isolation, t, b) at h),
    λ h. elim (NodeType-cases (node_type n.content)) [
      | inr t ↦ rw (check_isolation, t) refl
      | inl t ↦ elim (Option-cases (basis_of n.content)) [
        | inr (b, e) ↦ rw (check_isolation, t, e) refl
        | inl e ↦ rw (check_isolation, t, e) (All→accepted lookup.get_node_type n.parents (h t e))
      ]
    ],
  )

  -- A Content node has no parents or one that is near an Admin node.
  abbrev pub IsTied : Type 0
  IsTied = node_type n.content ≡ content_node → IsNear lookup.get_admin_distance n.parents

  pub check_ancestry_iff : (check_ancestry lookup n ≡ accepted) ↔ IsTied
  unfolding check_ancestry
  check_ancestry_iff = (
    λ h t. elim (list-cases n.parents) [
      | inl e ↦ rw e tt
      | inr (p, ps, e) ↦
          rw e ((near_admin_iff lookup.get_admin_distance p ps).0 (rw (check_ancestry, t, e) at h))
    ],
    λ h. elim (NodeType-cases (node_type n.content)) [
      | inl t ↦ rw (check_ancestry, t) refl
      | inr t ↦ elim (list-cases n.parents) [
        | inl e ↦ rw (check_ancestry, t, e) refl
        | inr (p, ps, e) ↦
            rw (check_ancestry, t, e)
              ((near_admin_iff lookup.get_admin_distance p ps).1 (rw e at h t))
      ]
    ],
  )

  -- A soft anchor has its basis as its only parent, and continues a short chain.
  abbrev pub IsAnchored : Type 0
  IsAnchored =
      (b : ℕ)
      → basis_of n.content ≡ some b
      → (n.parents ≡ b ∷ [])
        × ((c : ℕ) → lookup.get_soft_anchor_chain_length b ≡ some c → c + 1 ≤ max_soft_anchor_chain)

  pub check_soft_anchor_iff : (check_soft_anchor lookup n ≡ accepted) ↔ IsAnchored
  unfolding check_soft_anchor
  check_soft_anchor_iff = (
    λ h b e. elim (Bool-cases (is_sole b n.parents)) [
      | inr f ↦ cc (rw (check_soft_anchor, e, f) at h)
      | inl f ↦ (
        is_sole-lem b n.parents f,
        λ c g. elim (Bool-cases (ltb max_soft_anchor_chain (c + 1))) [
          | inl l ↦ cc (rw (check_soft_anchor, e, f, g, l) at h)
          | inr l ↦ ground (arith, l)
        ],
      )
    ],
    λ h. elim (Option-cases (basis_of n.content)) [
      | inl e ↦ rw (check_soft_anchor, e) refl
      | inr (b, e) ↦
          let (parents, short) = h b e in
          let f : is_sole b n.parents ≡ true = rw parents (sole b) in
          elim (Option-cases (lookup.get_soft_anchor_chain_length b)) [
            | inl g ↦ rw (check_soft_anchor, e, f, g) refl
            | inr (c, g) ↦
                let l : ltb max_soft_anchor_chain (c + 1) ≡ false = ground (arith, short c g) in
                rw (check_soft_anchor, e, f, g, l) refl
          ]
    ],
  )
