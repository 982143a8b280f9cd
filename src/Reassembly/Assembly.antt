-- ===== src/Reassembly/Assembly.antt =====
-- `is_complete` and `assemble` of tox-sequenced/src/reassembly/buffer.rs, and what a buffer holds
-- after any sequence of fragments has been added to it.
use rs_toxcore_c.Prelude.{
  ℕ, zero, suc, ◌+◌, ◌-◌, ◌*◌, ◌≤◌, ◌<◌, ◌≡◌, ◌≢◌, ◌↔◌, refl, sym, ap, ◌∙◌, Bool, true, false, ◌&&◌,
  ◌||◌, not, Option, none, some, List, [], ◌∷◌, ◌++◌, ◌==◌, ltb, leb, if◌then◌else◌, arith, ◌⊎◌,
  inl, inr, lt-or-le, Bool-cases, length, get_or, length-set, get_or-set_self, get_or-set_ne,
  lt→ltb, le→ltb, lt→leb, le→leb, ==_iff, ==_refl, contains, ap₂,
}
use rs_toxcore_c.Prelude
use rs_toxcore_c.Prelude.Search.{Throughout, count_from_full, count_from_all}
use rs_toxcore_c.Protocol.{bitset_words, max_fragments_per_message, SequencedError, ok, err}
use rs_toxcore_c.BitSet.Access.{get-new}
use rs_toxcore_c.Reassembly.{
  FragmentBuffer, received, new, store, add_fragment, is_complete, join, assemble,
}
use rs_toxcore_c.Reassembly.Invariant.{IsValid, new-IsValid_lem}
use rs_toxcore_c.Reassembly.Adding.{store_fields, received_insert, add_fragment-IsValid}

-- A valid buffer says that it is complete exactly if every fragment has been received.
is_complete_iff :
    {b : FragmentBuffer}
    → IsValid b
    → (is_complete b ≡ true) ↔ Throughout (received b) true 0 b.total_fragments
unfolding is_complete
is_complete_iff {b} v = (
  λ e j a h.
      count_from_full (received b) 0 b.total_fragments (sym v.counted ∙ (==_iff _ _).0 e) j a
        (omega arith),
  λ t.
      (==_iff _ _).1 (
        v.counted ∙ count_from_all (received b) 0 b.total_fragments (λ j a h. t j a (omega arith))),
)

-- `add_fragment` refuses an index out of range, ignores a fragment that it has, and otherwise
-- stores this one and no other; it never touches the number of fragments.
pub add_fragment_lem :
    {b : FragmentBuffer} (index : ℕ) (piece : List ℕ)
    → IsValid b
    → let (c, r) = add_fragment b index piece in
      (c.total_fragments ≡ b.total_fragments)
      × (b.total_fragments ≤ index → (c ≡ b) × (r ≡ err SequencedError.invalid_fragment_index))
      × (index < b.total_fragments
          → (r ≡ ok (is_complete c))
            × (received b index ≡ true → c ≡ b)
            × (received b index ≡ false → c.fragments ≡ Prelude.set b.fragments index (some piece)))
      × ((j : ℕ) → received c j ≡ ((ltb index b.total_fragments && (index == j)) || received b j))
unfolding add_fragment
add_fragment_lem {b} index piece v = elim (lt-or-le index b.total_fragments) [
  | inr beyond ↦
      rw (le→leb _ _ beyond, le→ltb _ _ beyond)
        (refl, λ h. (refl, refl), λ h. absurd (omega arith), λ j. refl)
  | inl inside ↦ elim (Bool-cases (received b index)) [
    | inl seen ↦
        rw (lt→leb _ _ inside, lt→ltb _ _ inside, seen)
          (
            refl,
            λ h. absurd (omega arith),
            λ h. (refl, λ e. refl, λ e. cc),
            λ j. ground (arith, seen),
          )
    | inr missing ↦
        let f = store_fields b index piece in
        rw (lt→leb _ _ inside, lt→ltb _ _ inside, missing)
          (
            f.1,
            λ h. absurd (omega arith),
            λ h. (refl, λ e. cc, λ e. f.0),
            λ j. rw f.2 (received_insert v index piece inside missing j),
          )
  ]
]

assembled : (b : FragmentBuffer) → is_complete b ≡ true → assemble b ≡ some (join b.fragments)
unfolding assemble
assembled b e = ground arith

unassembled : (b : FragmentBuffer) → is_complete b ≢ true → assemble b ≡ none
unfolding assemble
unassembled b e = ground arith

-- `add_fragment` reports an index out of range as an error and otherwise whether the buffer is
-- complete now; it stores a fragment that is in range and new in its slot, and changes no slot
-- else; and it marks that fragment as received and no other. The buffer must be valid.
pub add_fragment_effect :
    {b : FragmentBuffer} (index : ℕ) (piece : List ℕ)
    → IsValid b
    → let (c, r) = add_fragment b index piece in
      (r ≡ (
        if leb b.total_fragments index
        then err SequencedError.invalid_fragment_index
        else ok (is_complete c)))
      × (c.fragments ≡ (
          if ltb index b.total_fragments && not (received b index)
          then Prelude.set b.fragments index (some piece)
          else b.fragments))
      × ((j : ℕ) → received c j ≡ ((ltb index b.total_fragments && (index == j)) || received b j))
unfolding add_fragment
add_fragment_effect {b} index piece v = elim (lt-or-le index b.total_fragments) [
  | inr beyond ↦ rw (le→leb _ _ beyond, le→ltb _ _ beyond) (refl, refl, λ j. refl)
  | inl inside ↦ elim (Bool-cases (received b index)) [
    | inl seen ↦
        rw (lt→leb _ _ inside, lt→ltb _ _ inside, seen) (refl, refl, λ j. ground (arith, seen))
    | inr missing ↦
        let f = store_fields b index piece in
        rw (lt→leb _ _ inside, lt→ltb _ _ inside, missing)
          (refl, f.0, λ j. rw f.2 (received_insert v index piece inside missing j))
  ]
]

-- A message that is cut into `pieces`, whose fragments arrive as `arrivals` says: in any order,
-- with repetitions, and with indices that the message does not have.
module _ (pieces : ℕ → List ℕ) where
  pub deliver : FragmentBuffer → List ℕ → FragmentBuffer
  deliver b [] = b
  deliver b (index ∷ arrivals) = deliver (add_fragment b index (pieces index)).0 arrivals

  -- The pieces from `i` on, joined.
  unfoldable pub joined_from : ℕ → ℕ → List ℕ
  joined_from i zero = []
  joined_from i (suc n) = pieces i ++ joined_from (suc i) n

  -- Each slot is empty or holds the piece of its index.
  abbrev Carries : FragmentBuffer → Type 0
  Carries b =
      (i : ℕ)
      → i < b.total_fragments
      → received b i ≡ true
      → get_or b.fragments i none ≡ some (pieces i)

  store-Carries :
      {b : FragmentBuffer} (index : ℕ)
      → IsValid b
      → index < b.total_fragments
      → received b index ≡ false
      → Carries b
      → Carries (store b index (pieces index))
  store-Carries {b} index v inside missing carries i h e =
      let (f, t, m, _, _, _, _) = store_fields b index (pieces index) in
      let there : ((index == i) || received b i) ≡ true =
        sym (received_insert v index (pieces index) inside missing i) ∙ (rw m at e) in
      rw f (slot (rw t at h) there)
    where
      slot :
          i < b.total_fragments
          → ((index == i) || received b i) ≡ true
          → get_or (Prelude.set b.fragments index (some (pieces index))) i none ≡ some (pieces i)
      slot h e = elim (Bool-cases (index == i)) [
        | inl same ↦
            let same' : index ≡ i = (==_iff index i).0 same in
            rw
              (same', get_or-set_self b.fragments i (some (pieces i)) none (omega (arith, v.slots)))
        | inr other ↦
            rw (get_or-set_ne b.fragments index i (some (pieces index)) none (λ q. ground arith))
              (carries i h (ground arith))
      ]

  add_fragment-Carries :
      {b : FragmentBuffer} (index : ℕ)
      → IsValid b
      → Carries b
      → Carries (add_fragment b index (pieces index)).0
  unfolding add_fragment
  add_fragment-Carries {b} index v carries = elim (lt-or-le index b.total_fragments) [
    | inr beyond ↦ rw (le→leb _ _ beyond) carries
    | inl inside ↦ elim (Bool-cases (received b index)) [
      | inl seen ↦ rw (lt→leb _ _ inside, seen) carries
      | inr missing ↦ rw (lt→leb _ _ inside, missing) (store-Carries index v inside missing carries)
    ]
  ]

  -- What holds of the buffer while fragments arrive.
  deliver_lem :
      (arrivals : List ℕ) {b : FragmentBuffer}
      → IsValid b
      → Carries b
      → let c = deliver b arrivals in
        IsValid c
        × Carries c
        × (c.total_fragments ≡ b.total_fragments)
        × ((j : ℕ) → j < b.total_fragments → received c j ≡ (contains arrivals j || received b j))
  unfolding deliver contains
  deliver_lem [] v carries = (v, carries, refl, λ j h. refl)
  deliver_lem (index ∷ arrivals) {b} v carries =
      let (total, _, _, marks) = add_fragment_lem index (pieces index) v in
      let (v', carries', total', marks') =
        deliver_lem arrivals (add_fragment-IsValid index (pieces index) v)
          (add_fragment-Carries index v carries) in
      (v', carries', total' ∙ total, λ j h. ground (arith, marks j, marks' j, total))

  join_all :
      (fs : List (Option (List ℕ))) (k : ℕ)
      → ((i : ℕ) → i < length fs → get_or fs i none ≡ some (pieces (k + i)))
      → join fs ≡ joined_from k (length fs)
  unfolding join joined_from
  join_all [] k h = refl
  join_all (none ∷ fs) k h = cc (h 0 (omega arith))
  join_all (some piece ∷ fs) k h =
      ap₂ ◌++◌ first (join_all fs (suc k) (λ i l. shift i (h (suc i) (omega arith))))
    where
      first : piece ≡ pieces k
      first = let e : k + 0 ≡ k = omega arith in cc (rw e at (h 0 (omega arith)))

      shift :
          (i : ℕ)
          → get_or fs i none ≡ some (pieces (k + suc i))
          → get_or fs i none ≡ some (pieces (suc k + i))
      shift i q = let e : suc k + i ≡ k + suc i = omega arith in rw e q

  -- A message of at most 1024 fragments is assembled from its pieces in their order, in whatever
  -- order and however often they arrived, once each has arrived, and not before.
  pub assemble-deliver :
      (total : ℕ) (arrivals : List ℕ)
      → total ≤ max_fragments_per_message
      → (Throughout (contains arrivals) true 0 total
          → assemble (deliver (new total) arrivals) ≡ some (joined_from 0 total))
        × ((j : ℕ)
            → j < total
            → contains arrivals j ≡ false
            → assemble (deliver (new total) arrivals) ≡ none)
  unfolding new
  assemble-deliver total arrivals h = (
    λ all.
        rw
          (assembled d (
            (is_complete_iff valid).1
              (λ j a l. mark j (rw same_total at l) ∙ all j a (rw same_total at l))))
          (ap some
            (join_all d.fragments 0 (filled all) ∙ ap (joined_from 0) (valid.slots ∙ same_total))),
    λ j l absent. unassembled d (λ e. absent_in j l absent ((is_complete_iff valid).0 e)),
  )
    where
      d : FragmentBuffer
      d = deliver (new total) arrivals

      state :
          IsValid d
          × Carries d
          × (d.total_fragments ≡ total)
          × ((j : ℕ) → j < total → received d j ≡ (contains arrivals j || received (new total) j))
      state =
          deliver_lem arrivals (new-IsValid_lem total h)
            (λ i l e. absurd (cc (get-new bitset_words i)))

      valid : IsValid d
      valid = state.0

      same_total : d.total_fragments ≡ total
      same_total = state.2

      mark : (j : ℕ) → j < total → received d j ≡ contains arrivals j
      mark j l = state.3 j l ∙ ground (arith, get-new bitset_words j)

      absent_in :
          (j : ℕ)
          → j < total
          → contains arrivals j ≡ false
          → Throughout (received d) true 0 d.total_fragments
          → ⊥
      absent_in j l absent t = cc (mark j l, t j (omega arith) (rw same_total l))

      filled :
          Throughout (contains arrivals) true 0 total
          → (i : ℕ) → i < length d.fragments
          → get_or d.fragments i none ≡ some (pieces (0 + i))
      filled all i l =
          let l' : i < total = omega (arith, valid.slots, same_total) in
          let e : 0 + i ≡ i = omega arith in
          rw e (state.1 i (rw same_total l') (mark i l' ∙ all i (omega arith) l'))
