-- ===== src/Merkle/Cas/Chunks.antt =====
-- The mask of received chunks in merkle-tox-core/src/cas.rs, as a set of chunks.
use rs_toxcore_c.Word.{test_bit}
use rs_toxcore_c.Word.Bits.{test_bit-bit_or, test_bit-pow}
use rs_toxcore_c.Prelude.{
  ℕ, zero, suc, ◌+◌, ◌-◌, ◌/◌, ◌%◌, ◌^◌, ◌≤◌, ◌<◌, ◌≡◌, ◌≢◌, refl, subst, sym, ap, ◌∙◌, arith,
  bit_or, Bool, true, false, ◌&&◌, ◌||◌, Option, none, some, List, ◌==◌, ltb, inl, inr, Bool-cases,
  Option-cases, length, get_or, set, get_or-set_self, get_or-set_ne, length-set, lt-or-le,
}
use rs_toxcore_c.Merkle.Cas.{
  ChunkTracker, mark_received, is_received, missing_from, num_chunks, next_missing,
}

-- A chunk that the mask has a bit for.
abbrev pub fits : ChunkTracker → ℕ → Bool
fits t i = ltb (i / 8) (length t.received_mask)

abbrev bit_of : List ℕ → ℕ → Bool
bit_of mask i = ltb (i / 8) (length mask) && test_bit (get_or mask (i / 8) 0) (i % 8)

is_received-bit_of : (t : ChunkTracker) (i : ℕ) → is_received t i ≡ bit_of t.received_mask i
unfolding is_received
is_received-bit_of t i = elim (Bool-cases (fits t i)) [ inl e ↦ rw e refl | inr e ↦ rw e refl ]

bit_of-set :
    (mask : List ℕ) (i j : ℕ)
    → i / 8 < length mask
    → bit_of (set mask (i / 8) (bit_or (get_or mask (i / 8) 0) (2 ^ (i % 8)))) j
      ≡ (bit_of mask j || (i == j))
bit_of-set mask i j h = elim (Bool-cases (i / 8 == j / 8)) [
  | inl e ↦
      let same : j / 8 ≡ i / 8 = ground (arith, e) in
      let fit : ltb (i / 8) (length mask) ≡ true = ground (arith, h) in
      let low : (i % 8 == j % 8) ≡ (i == j) = ground (arith, same) in
      rw
        (
          same,
          length-set mask (i / 8),
          get_or-set_self mask (i / 8) _ 0 h,
          fit,
          test_bit-bit_or,
          test_bit-pow (i % 8) (j % 8),
          low,
        )
        refl
  | inr e ↦
      let other : i / 8 ≢ j / 8 = λ s. let t : (i / 8 == j / 8) ≡ true = ground (arith, s) in cc in
      let apart : (i == j) ≡ false = ground (arith, other) in
      rw (length-set mask (i / 8), get_or-set_ne mask (i / 8) (j / 8) _ 0 other, apart)
        (ground arith)
]

received_mask-mark_received :
    (t : ChunkTracker) (i : ℕ)
    → fits t i ≡ true
    → (mark_received t i).received_mask
      ≡ set t.received_mask (i / 8) (bit_or (get_or t.received_mask (i / 8) 0) (2 ^ (i % 8)))
unfolding mark_received
received_mask-mark_received t i e = rw e refl

-- Marking a chunk adds it to those received, if the mask has a bit for it, and no other: the chunks
-- that share its byte keep their bits.
pub is_received-mark_received :
    (t : ChunkTracker) (i j : ℕ)
    → is_received (mark_received t i) j ≡ (is_received t j || (fits t i && (i == j)))
unfolding mark_received
is_received-mark_received t i j = elim (Bool-cases (fits t i)) [
  | inr e ↦ rw (mark_received, e) (ground arith)
  | inl e ↦
      let set' = received_mask-mark_received t i e in
      let added = bit_of-set t.received_mask i j (ground (arith, e)) in
      is_received-bit_of (mark_received t i) j
      ∙ ap (λ m. bit_of m j) set'
      ∙ added
      ∙ rw (is_received-bit_of t j, e) refl
]

-- The first missing chunk of a range.
missing_from-IsMissing :
    (t : ChunkTracker) (count i j : ℕ)
    → missing_from t count i ≡ some j
    → (i ≤ j)
      × (j < i + count)
      × (is_received t j ≡ false)
      × ((k : ℕ) → i ≤ k → k < j → is_received t k ≡ true)
unfolding missing_from
missing_from-IsMissing t zero i j h = cc
missing_from-IsMissing t (suc count) i j h = elim (Bool-cases (is_received t i)) [
  | inr e ↦
      let here : ◌≡◌ {A = Option ℕ} (some i) (some j) = rw (missing_from, e) at h in
      let same : i ≡ j = cc in
      (
        omega (arith, same),
        omega (arith, same),
        ap (is_received t) (sym same) ∙ e,
        λ k a b. absurd (omega (arith, a, b, same)),
      )
  | inl e ↦
      let (le, lt, gone, before) =
        missing_from-IsMissing t count (suc i) j (rw (missing_from, e) at h) in
      (
        omega (arith, le),
        omega (arith, lt),
        gone,
        λ k a b. elim (lt-or-le i k) [
          | inl after ↦ before k after b
          | inr own ↦ let same : k ≡ i = omega (arith, a, own) in ap (is_received t) same ∙ e
        ],
      )
]

missing_from-none :
    (t : ChunkTracker) (count i : ℕ)
    → missing_from t count i ≡ none
    → (k : ℕ) → i ≤ k
    → k < i + count
    → is_received t k ≡ true
unfolding missing_from
missing_from-none t zero i h k a b = absurd (omega (arith, a, b))
missing_from-none t (suc count) i h k a b = elim (Bool-cases (is_received t i)) [
  | inr e ↦ cc (rw (missing_from, e) at h)
  | inl e ↦ elim (lt-or-le i k) [
    | inl after ↦
        missing_from-none t count (suc i) (rw (missing_from, e) at h) k after (omega (arith, b))
    | inr own ↦ let same : k ≡ i = omega (arith, a, own) in ap (is_received t) same ∙ e
  ]
]

abbrev pub IsAnswer : ChunkTracker → ℕ → Option ℕ → Type 0
IsAnswer t hint none = (k : ℕ) → k < num_chunks t → is_received t k ≡ true
IsAnswer t hint (some i) = (i < num_chunks t) × (is_received t i ≡ false)

-- From a hint within the object, the search returns a chunk of the object that is missing, and
-- returns none only if every chunk has been received.
pub next_missing-IsAnswer :
    (t : ChunkTracker) (hint : ℕ) → hint ≤ num_chunks t → IsAnswer t hint (next_missing t hint)
unfolding next_missing
next_missing-IsAnswer t hint h = elim (Option-cases (missing_from t (num_chunks t - hint) hint)) [
  | inr (i, e) ↦
      let (le, lt, gone, before) = missing_from-IsMissing t (num_chunks t - hint) hint i e in
      let found : next_missing t hint ≡ some i = rw (next_missing, e) refl in
      subst (IsAnswer t hint) (sym found) (omega (arith, lt, h, le), gone)
  | inl e ↦ elim (Option-cases (missing_from t hint 0)) [
    | inr (i, f) ↦
        let (le, lt, gone, before) = missing_from-IsMissing t hint 0 i f in
        let found : next_missing t hint ≡ some i = rw (next_missing, e) f in
        subst (IsAnswer t hint) (sym found) (omega (arith, lt, h), gone)
    | inl f ↦
        let found : next_missing t hint ≡ none = rw (next_missing, e) f in
        subst (IsAnswer t hint) (sym found) (λ k l. elim (lt-or-le k hint) [
          | inl below ↦ missing_from-none t hint 0 f k (omega arith) (omega (arith, below))
          | inr above ↦
              missing_from-none t (num_chunks t - hint) hint e k above (omega (arith, l, above))
        ])
  ]
]
