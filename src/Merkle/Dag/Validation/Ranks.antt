-- ===== src/Merkle/Dag/Validation/Ranks.antt =====
-- The ranks and the duplicates of parents in `MerkleNode::validate` of merkle-tox-core/src/dag.rs.
use rs_toxcore_c.Merkle.{IsIn, All-map, All-both, All-IsIn}
use rs_toxcore_c.Prelude.{
  ℕ, ◌+◌, ◌%◌, ◌≤◌, ◌<◌, ◌≡◌, refl, sym, ap, ◌∙◌, subst, arith, true, false, Option, none, some,
  List, [], ◌∷◌, ◌==◌, leb, if◌then◌else◌, ◌⊎◌, inl, inr, ◌↔◌, Bool-cases, Option-cases, contains,
  All,
}
use rs_toxcore_c.Merkle.Dag.{NodeLookup, MerkleNode}
use rs_toxcore_c.Merkle.Dag.Validation.{
  Verdict, accepted, rejected, and_then, duplicate_of, check_duplicates, u64_mod, u64_max,
  max_parent_rank, missing, expected_rank, check_rank,
}

pub and_then_iff : (v w : Verdict) → (and_then v w ≡ accepted) ↔ ((v ≡ accepted) × (w ≡ accepted))
and_then_iff accepted w = (λ h. (refl, h), λ h. h.1)
and_then_iff (rejected e) w = (λ h. cc, λ h. cc)

-- No entry occurs again.
abbrev pub IsDistinct : List ℕ → List ℕ → Type 0
IsDistinct before [] = Unit
IsDistinct before (p ∷ ps) = (contains before p ≡ false) × IsDistinct (p ∷ before) ps

IsDistinct→none : (before ps : List ℕ) → IsDistinct before ps → duplicate_of before ps ≡ none
unfolding duplicate_of
IsDistinct→none before [] h = refl
IsDistinct→none before (p ∷ ps) (h, hs) = rw h (IsDistinct→none (p ∷ before) ps hs)

none→IsDistinct : (before ps : List ℕ) → duplicate_of before ps ≡ none → IsDistinct before ps
unfolding duplicate_of
none→IsDistinct before [] h = tt
none→IsDistinct before (p ∷ ps) h = elim (Bool-cases (contains before p)) [
  | inl e ↦ cc (rw e at h)
  | inr e ↦ (e, none→IsDistinct (p ∷ before) ps (rw e at h))
]

pub check_duplicates_iff : (ps : List ℕ) → (check_duplicates ps ≡ accepted) ↔ IsDistinct [] ps
unfolding check_duplicates
check_duplicates_iff ps = (
  λ h. elim (Option-cases (duplicate_of [] ps)) [
    | inl e ↦ none→IsDistinct [] ps e
    | inr (p, e) ↦ cc (rw (check_duplicates, e) at h)
  ],
  λ d. rw (check_duplicates, IsDistinct→none [] ps d) refl,
)

module _ (get_rank : ℕ → Option ℕ) where
  -- The parent is there and ranks lower.
  abbrev pub RanksBelow : ℕ → ℕ → Type 0
  RanksBelow rank p = (r : ℕ) × (get_rank p ≡ some r) × (r < rank)

  -- The parent is there and ranks no higher.
  abbrev RanksWithin : ℕ → ℕ → Type 0
  RanksWithin m p = (r : ℕ) × (get_rank p ≡ some r) × (r ≤ m)

  -- The rank is one more than that of the parent that ranks highest, as a `u64`.
  abbrev pub HasRank : ℕ → List ℕ → Type 0
  HasRank rank [] = rank ≡ 0
  HasRank rank (p ∷ ps) =
      (m : ℕ) × All (RanksWithin m) (p ∷ ps)
      × ((q : ℕ) × IsIn q (p ∷ ps) × (get_rank q ≡ some m))
      × (rank ≡ (m + 1) % u64_mod)

  abbrev IsThere : ℕ → Type 0
  IsThere p = (r : ℕ) × (get_rank p ≡ some r)

  none-missing : (ps : List ℕ) → All IsThere ps → missing get_rank ps ≡ []
  unfolding missing
  none-missing [] h = refl
  none-missing (p ∷ ps) ((r, e), h) = rw (missing, e) (none-missing ps h)

  missing-none : (ps : List ℕ) → missing get_rank ps ≡ [] → All IsThere ps
  unfolding missing
  missing-none [] h = tt
  missing-none (p ∷ ps) h = elim (Option-cases (get_rank p)) [
    | inl e ↦ cc (rw (missing, e) at h)
    | inr (r, e) ↦ ((r, e), missing-none ps (rw (missing, e) at h))
  ]

  abbrev pub RanksUpTo : ℕ → ℕ → Type 0
  RanksUpTo m p = (r : ℕ) → get_rank p ≡ some r → r ≤ m

  -- The highest rank is that of a parent or the one to begin with, and no parent ranks higher.
  abbrev pub IsHighest : List ℕ → ℕ → ℕ → Type 0
  IsHighest ps best m =
      (best ≤ m)
      × All (RanksUpTo m) ps
      × ((m ≡ best) ⊎ ((q : ℕ) × IsIn q ps × (get_rank q ≡ some m)))

  IsHighest-absent :
      (p : ℕ) (ps : List ℕ) (best m : ℕ)
      → get_rank p ≡ none
      → IsHighest ps best m
      → IsHighest (p ∷ ps) best m
  IsHighest-absent p ps best m e (le, all, inl h) = (le, (λ r g. cc, all), inl h)
  IsHighest-absent p ps best m e (le, all, inr (q, i, h)) =
      (le, (λ r g. cc, all), inr (q, inr i, h))

  IsHighest-present :
      (p rank : ℕ) (ps : List ℕ) (best m : ℕ)
      → get_rank p ≡ some rank
      → IsHighest ps (if leb best rank then rank else best) m
      → IsHighest (p ∷ ps) best m
  IsHighest-present p rank ps best m e (le, all, h) =
      let own : (r : ℕ) → get_rank p ≡ some r → r ≤ m =
        λ r g. let same : r ≡ rank = cc in ground (arith, le, same) in
      (
        ground (arith, le),
        (own, all),
        elim h [
          | inr (q, i, g) ↦ inr (q, inr i, g)
          | inl g ↦ elim (Bool-cases (leb best rank)) [
            | inl b ↦
                inr
                  (p, inl refl, let same : rank ≡ m = sym (rw b at g) in e ∙ ap (λ x. some x) same)
            | inr b ↦ inl (rw b at g)
          ]
        ],
      )

  max_parent_rank_absent :
      (p : ℕ) (ps : List ℕ) (best : ℕ)
      → get_rank p ≡ none
      → max_parent_rank get_rank (p ∷ ps) best ≡ max_parent_rank get_rank ps best
  unfolding max_parent_rank
  max_parent_rank_absent p ps best e = rw (max_parent_rank, e) refl

  max_parent_rank_present :
      (p rank : ℕ) (ps : List ℕ) (best : ℕ)
      → get_rank p ≡ some rank
      → max_parent_rank get_rank (p ∷ ps) best
        ≡ max_parent_rank get_rank ps (if leb best rank then rank else best)
  unfolding max_parent_rank
  max_parent_rank_present p rank ps best e = rw (max_parent_rank, e) refl

  pub max_parent_rank-IsHighest :
      (ps : List ℕ) (best : ℕ) → IsHighest ps best (max_parent_rank get_rank ps best)
  unfolding max_parent_rank
  max_parent_rank-IsHighest [] best = (omega arith, tt, inl refl)
  max_parent_rank-IsHighest (p ∷ ps) best = elim (Option-cases (get_rank p)) [
    | inl e ↦
        subst (IsHighest (p ∷ ps) best) (sym (max_parent_rank_absent p ps best e))
          (IsHighest-absent p ps best _ e (max_parent_rank-IsHighest ps best))
    | inr (rank, e) ↦
        subst (IsHighest (p ∷ ps) best) (sym (max_parent_rank_present p rank ps best e))
          (IsHighest-present p rank ps best _ e (max_parent_rank-IsHighest ps _))
  ]

  HasRank-expected_rank : (ps : List ℕ) → All IsThere ps → HasRank (expected_rank get_rank ps) ps
  unfolding expected_rank
  HasRank-expected_rank [] there = refl
  HasRank-expected_rank (p ∷ ps) ((r, e), there) =
      let m = max_parent_rank get_rank (p ∷ ps) 0 in
      let (le, (own, all), last) = max_parent_rank-IsHighest (p ∷ ps) 0 in
      let bound = own r e in
      (
        m,
        All-map (λ q. IsThere q × RanksUpTo m q) (RanksWithin m) (λ q ((s, f), g). (s, f, g s f))
            (p ∷ ps) (All-both IsThere (RanksUpTo m) (p ∷ ps) ((r, e), there) (own, all)),
        elim last [
          | inr found ↦ found
          | inl z ↦
              let same : r ≡ m = omega (arith, z, bound) in (p, inl refl, e ∙ ap (λ x. some x) same)
        ],
        refl,
      )

  expected_rank_unique :
      (ps : List ℕ) (rank : ℕ) → HasRank rank ps → rank ≡ expected_rank get_rank ps
  unfolding expected_rank
  expected_rank_unique [] rank h = h
  expected_rank_unique (p ∷ ps) rank (n, within, (q, i, e), one) =
      let m = max_parent_rank get_rank (p ∷ ps) 0 in
      let (le, all, last) = max_parent_rank-IsHighest (p ∷ ps) 0 in
      let bound : n ≤ m = All-IsIn (RanksUpTo m) (p ∷ ps) q all i n e in
      let same : n ≡ m = elim last [
        | inl z ↦ omega (arith, z, bound)
        | inr (q', i', f) ↦
            let (s, g, lower) = All-IsIn (RanksWithin n) (p ∷ ps) q' within i' in
            let found : s ≡ m = cc in omega (arith, found, lower, bound)
      ] in
      one ∙ ap (λ (x : ℕ). (x + 1) % u64_mod) same

  HasRank-IsThere : (ps : List ℕ) (rank : ℕ) → HasRank rank ps → All IsThere ps
  HasRank-IsThere [] rank h = tt
  HasRank-IsThere (p ∷ ps) rank (m, within, found, one) =
      All-map (RanksWithin m) IsThere (λ q (r, e, l). (r, e)) (p ∷ ps) within

  -- The parents rank below, if the highest rank is not the last of a `u64`.
  pub HasRank-RanksBelow :
      (ps : List ℕ) (rank : ℕ)
      → ((p r : ℕ) → get_rank p ≡ some r → r < u64_max)
      → HasRank rank ps
      → All (RanksBelow rank) ps
  HasRank-RanksBelow [] rank bounded h = tt
  HasRank-RanksBelow (p ∷ ps) rank bounded (m, within, (q, i, e), one) =
      let small : m < u64_max = bounded q m e in
      let exact : rank ≡ m + 1 = omega (arith, one, small) in
      All-map (RanksWithin m) (RanksBelow rank) (λ q (r, f, l). (r, f, omega (arith, l, exact)))
        (p ∷ ps) within

pub list-cases : (l : List ℕ) → (l ≡ []) ⊎ ((p : ℕ) × (ps : List ℕ) × (l ≡ p ∷ ps))
list-cases [] = inl refl
list-cases (p ∷ ps) = inr (p, ps, refl)

module _ (lookup : NodeLookup) (n : MerkleNode) where
  pub check_rank_iff :
      (check_rank lookup n ≡ accepted) ↔ HasRank lookup.get_rank n.topological_rank n.parents
  unfolding check_rank
  check_rank_iff = (
    λ h. elim (list-cases (missing lookup.get_rank n.parents)) [
      | inr (p, ps, e) ↦ cc (rw (check_rank, e) at h)
      | inl e ↦ elim (Bool-cases (n.topological_rank == expected_rank lookup.get_rank n.parents)) [
        | inr f ↦ cc (rw (check_rank, e, f) at h)
        | inl f ↦
            let same : expected_rank lookup.get_rank n.parents ≡ n.topological_rank =
              ground (arith, f) in
            subst (λ r. HasRank lookup.get_rank r n.parents) same
              (HasRank-expected_rank lookup.get_rank n.parents
                (missing-none lookup.get_rank n.parents e))
      ]
    ],
    λ h.
        let same = expected_rank_unique lookup.get_rank n.parents n.topological_rank h in
        let f : (n.topological_rank == expected_rank lookup.get_rank n.parents) ≡ true =
          ground (arith, same) in
        rw
          (
            check_rank,
            none-missing lookup.get_rank n.parents
                (HasRank-IsThere lookup.get_rank n.parents n.topological_rank h),
            f,
          )
          refl,
  )
