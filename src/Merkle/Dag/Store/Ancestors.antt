-- ===== src/Merkle/Dag/Store/Ancestors.antt =====
-- Ranks make the recursion over the parents of merkle-tox-core/src/dag.rs end.
use rs_toxcore_c.Merkle.{IsIn, put, put-cases, All-map, All-IsIn}
use rs_toxcore_c.Prelude.{
  ℕ, zero, suc, ◌≤◌, ◌<◌, ◌≡◌, refl, sym, ◌∙◌, subst, arith, max, Bool, Option, none, some, List,
  [], ◌∷◌, ◌==◌, leb, if◌then◌else◌, ◌⊎◌, inl, inr, Bool-cases, Option-cases, All,
}
use rs_toxcore_c.Merkle.Dag.{MerkleNode, NodeLookup, Content, ControlAction}
use rs_toxcore_c.Merkle.Dag.Store.{Store, latest, effective_timestamp}
use rs_toxcore_c.Merkle.Dag.Validation.{accepted, u64_max, max_parent_rank, WireAuthData, validate}
use rs_toxcore_c.Merkle.Dag.Validation.Ranks.{
  HasRank, RanksBelow, HasRank-RanksBelow, RanksUpTo, max_parent_rank-IsHighest,
}
use rs_toxcore_c.Merkle.Dag.Validation.Rules.{validate_iff}

module _ (store : Store) where
  -- The rank of a node in the store.
  abbrev pub rank_of : ℕ → Option ℕ
  rank_of h = elim (store h) [ none ↦ none | some n ↦ some n.topological_rank ]

  -- The parents of a node are in the store and rank below it.
  abbrev pub IsAbove : MerkleNode → Type 0
  IsAbove n = All (RanksBelow rank_of n.topological_rank) n.parents

  abbrev pub IsRanked : Type 0
  IsRanked = (h : ℕ) (n : MerkleNode) → store h ≡ some n → IsAbove n

  -- A node, a parent of it, a parent of that, and so on.
  pub data IsAncestor : MerkleNode → MerkleNode → Type 0 where
    itself : {n m : MerkleNode} → n ≡ m → IsAncestor n m
    parent :
        {n m : MerkleNode} (h : ℕ) (p : MerkleNode)
        → IsIn h n.parents
        → store h ≡ some p
        → IsAncestor p m
        → IsAncestor n m

  -- The latest time of a node and all its ancestors.
  abbrev pub IsLatest : MerkleNode → ℕ → Type 0
  IsLatest n t =
      ((m : MerkleNode) → IsAncestor n m → m.network_timestamp ≤ t)
      × ((m : MerkleNode) × IsAncestor n m × (m.network_timestamp ≡ t))

  module _ (timestamp_of : MerkleNode → ℕ) where
    abbrev time_of : ℕ → Option ℕ
    time_of h = elim (store h) [ none ↦ none | some p ↦ some (timestamp_of p) ]

    latest-max_parent_rank :
        (ps : List ℕ) (t : ℕ) → latest store timestamp_of ps t ≡ max_parent_rank time_of ps t
    unfolding latest max_parent_rank
    latest-max_parent_rank [] t = refl
    latest-max_parent_rank (p ∷ ps) t = elim (Option-cases (store p)) [
      | inl e ↦ rw (latest, max_parent_rank, e) (latest-max_parent_rank ps t)
      | inr (n, e) ↦
          let same : max t (timestamp_of n)
              ≡ (if leb t (timestamp_of n) then timestamp_of n else t) =
            ground arith in
          rw (latest, max_parent_rank, e, same) (latest-max_parent_rank ps _)
    ]

    -- What the loop returns: nothing is later, and something is as late.
    latest_lem :
        (ps : List ℕ) (t : ℕ)
        → (t ≤ latest store timestamp_of ps t)
          × ((h : ℕ) (p : MerkleNode)
              → IsIn h ps
              → store h ≡ some p
              → timestamp_of p ≤ latest store timestamp_of ps t)
          × ((latest store timestamp_of ps t ≡ t)
              ⊎ ((h : ℕ) × (p : MerkleNode) × IsIn h ps
                  × (store h ≡ some p)
                  × (timestamp_of p ≡ latest store timestamp_of ps t)))
    latest_lem ps t =
        let same = latest-max_parent_rank ps t in
        let (le, all, last) = max_parent_rank-IsHighest time_of ps t in
        let m = max_parent_rank time_of ps t in
        (
          rw same le,
          λ h p i e.
              let bound : timestamp_of p ≤ m =
                All-IsIn (RanksUpTo time_of m) ps h all i (timestamp_of p) (rw (time_of, e) refl) in
              rw same bound,
          elim last [
            | inl z ↦ inl (same ∙ z)
            | inr (h, i, e) ↦ elim (Option-cases (store h)) [
              | inl f ↦ cc (rw (time_of, f) at e)
              | inr (p, f) ↦
                  let found : ◌≡◌ {A = Option ℕ} (some (timestamp_of p)) (some m) =
                    rw (time_of, f) at e in
                  let time : timestamp_of p ≡ m = cc in inr (h, p, i, f, time ∙ sym same)
            ]
          ],
        )

  abbrev pub PointsDown : MerkleNode → Type 0
  PointsDown n =
      (h : ℕ) (p : MerkleNode)
      → IsIn h n.parents
      → store h ≡ some p
      → p.topological_rank < n.topological_rank

  IsAbove-PointsDown : (n : MerkleNode) → IsAbove n → PointsDown n
  IsAbove-PointsDown n above h p i e =
      let (r, f, lower) = All-IsIn (RanksBelow rank_of n.topological_rank) n.parents h above i in
      let g : ◌≡◌ {A = Option ℕ} (some p.topological_rank) (some r) = rw (rank_of, e) at f in
      let same : p.topological_rank ≡ r = cc in omega (arith, lower, same)

  -- With as much fuel as the rank of the node and one more, what the recursion returns is the latest
  -- time of the node and all its ancestors: ranks fall from a node to its parents, so that it ends.
  pub effective_timestamp-IsLatest :
      IsRanked
      → (fuel : ℕ) (n : MerkleNode) → IsAbove n
      → n.topological_rank < fuel
      → IsLatest n (effective_timestamp store fuel n)
  unfolding effective_timestamp
  effective_timestamp-IsLatest ranked zero n above h = absurd (omega (arith, h))
  effective_timestamp-IsLatest ranked (suc fuel) n above h =
      let (le, all, last) =
        latest_lem (effective_timestamp store fuel) n.parents n.network_timestamp in
      let rest : (g : ℕ) (p : MerkleNode)
          → IsIn g n.parents
          → store g ≡ some p
          → IsLatest p (effective_timestamp store fuel p) =
        λ g p i e.
          effective_timestamp-IsLatest ranked fuel p (ranked g p e)
            (let lower = IsAbove-PointsDown n above g p i e in omega (arith, lower, h)) in
      (
        λ m a. elim a [
          | itself e ↦ rw (sym e) le
          | parent g p i e a' ↦
              let later = (rest g p i e).0 m a' in
              let bound = all g p i e in omega (arith, later, bound)
        ],
        elim last [
          | inl z ↦ (n, itself refl, sym z)
          | inr (g, p, i, e, t) ↦ let (m, a, u) = (rest g p i e).1 in (m, parent g p i e a, u ∙ t)
        ],
      )

module _ (store : Store) (hash : ℕ) (n : MerkleNode) (fresh : store hash ≡ none) where
  rank_of-put : (p r : ℕ) → rank_of store p ≡ some r → rank_of (put store hash n) p ≡ some r
  rank_of-put p r e = elim (Bool-cases (hash == p)) [
    | inl f ↦
        let same : hash ≡ p = ground (arith, f) in
        let absent : store p ≡ none = subst (λ x. store x ≡ none) same fresh in
        cc (rw (rank_of, absent) at e)
    | inr f ↦ rw (rank_of, put, f) e
  ]

  IsAbove-put : (m : MerkleNode) → IsAbove store m → IsAbove (put store hash n) m
  IsAbove-put m above =
      All-map (RanksBelow (rank_of store) m.topological_rank)
        (RanksBelow (rank_of (put store hash n)) m.topological_rank)
        (λ p (r, e, l). (r, rank_of-put p r e, l)) m.parents above

  put-IsRanked : IsRanked store → IsAbove store n → IsRanked (put store hash n)
  put-IsRanked ranked above h m e = elim (put-cases store hash n h m e) [
    | inl (_, same) ↦ subst (IsAbove (put store hash n)) same (IsAbove-put n above)
    | inr old ↦ IsAbove-put m (ranked h m old)
  ]

-- No node in the store has the last rank of a `u64`.
abbrev pub IsBounded : Store → Type 0
IsBounded store = (h : ℕ) (n : MerkleNode) → store h ≡ some n → n.topological_rank < u64_max

rank_of-IsBounded :
    (store : Store) → IsBounded store → (p r : ℕ) → rank_of store p ≡ some r → r < u64_max
rank_of-IsBounded store bounded p r e = elim (Option-cases (store p)) [
  | inl f ↦ cc (rw (rank_of, f) at e)
  | inr (n, f) ↦
      let g : ◌≡◌ {A = Option ℕ} (some n.topological_rank) (some r) = rw (rank_of, f) at e in
      let same : n.topological_rank ≡ r = cc in subst (λ (x : ℕ). x < u64_max) same (bounded p n f)
]

module _ (serialize_content : Content → List ℕ) (serialize_wire : WireAuthData → List ℕ)
    (serialize_action : ControlAction → List ℕ) (serialize_node : MerkleNode → List ℕ)
    (blake3 : List ℕ → List ℕ) (signed : ℕ → List ℕ → ℕ → Bool) (lookup : NodeLookup)
    (store : Store) (answers : lookup.get_rank ≡ rank_of store) where
  -- A store whose nodes were validated against it before they were put into it, each under a hash
  -- that was not there, stays ranked: each node's parents are in the store and rank below it. No
  -- node in the store may have the rank 2 ^ 64 - 1, after which the rank of a child wraps to 0.
  pub put-validate-IsRanked :
      (hash : ℕ) (n : MerkleNode)
      → IsRanked store
      → IsBounded store
      → store hash ≡ none
      → validate serialize_content serialize_wire serialize_action serialize_node blake3 signed
          lookup n
        ≡ accepted
      → IsRanked (put store hash n)
  put-validate-IsRanked hash n ranked bounded fresh h =
      let allowed =
        (validate_iff serialize_content serialize_wire serialize_action serialize_node blake3 signed
            lookup n).0
          h in
      put-IsRanked store hash n fresh ranked (
        HasRank-RanksBelow (rank_of store) n.parents n.topological_rank
          (rank_of-IsBounded store bounded)
          (subst (λ get_rank. HasRank get_rank n.topological_rank n.parents) answers
            allowed.ranked))
