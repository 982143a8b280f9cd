-- ===== src/BitSet/First.antt =====
-- `first_zero`, `next_zero` and `next_one` of tox-sequenced/src/bitset.rs, which go word by word,
-- against a search of the indices one by one.
use rs_toxcore_c.Prelude.{
  ℕ, zero, suc, ◌+◌, ◌-◌, ◌*◌, ◌/◌, ◌%◌, ◌≤◌, ◌<◌, ◌≡◌, ap, Bool, true, false, not, ◌&&◌, ◌==◌, ltb,
  leb, if◌then◌else◌, arith, inl, inr, lt-or-le, Bool-cases, bit_and, Option, none, some, ==_iff,
  lt→ltb, le→ltb, le→leb, lt→leb, fun_ext,
}
use rs_toxcore_c.Prelude.Search.{Throughout, IsFirst}
use rs_toxcore_c.Word.{word_mod, complement, test_bit, trailing_zeros}
use rs_toxcore_c.Word.Bits.{
  test_bit-zero, test_bit-bit_and, test_bit-complement, test_bit-from, bit_and-le, complement-lt,
}
use rs_toxcore_c.Word.Scan.{IsLowest, trailing_zeros-IsLowest}
use native.Mathlib.Nat.{lt_of_le_of_lt, le_refl}
use rs_toxcore_c.BitSet.{
  BitSet, IsValid, word, bit, from_bit, get, next_one_loop, next_one, next_zero_loop, next_zero,
}
use rs_toxcore_c.BitSet.Access.{word-lt, get-bit, bit_beyond}

-- The bit at place `i` of word `k` stands at index `64 k + i`.
pub bit_at : (s : BitSet) (k i : ℕ) → i < 64 → bit s (k * 64 + i) ≡ test_bit (word s k) i
bit_at s k i h =
    let e : (k * 64 + i) / 64 ≡ k = omega arith in
    let f : (k * 64 + i) % 64 ≡ i = omega arith in rw (e, f)

-- A search goes on behind a stretch that has nothing.
pub IsFirst-behind :
    (p : ℕ → Bool) (b : Bool) (lo mid hi : ℕ) (o : Option ℕ)
    → lo ≤ mid
    → Throughout p (not b) lo mid
    → IsFirst p b mid hi o
    → IsFirst p b lo hi o
IsFirst-behind p b lo mid hi none h t f =
    λ j a c. elim (lt-or-le j mid) [ inl l ↦ t j a l | inr r ↦ f j r c ]
IsFirst-behind p b lo mid hi (some k) h t f =
    (omega arith, f.1, f.2, λ j a c. elim (lt-or-le j mid) [ inl l ↦ t j a l | inr r ↦ f.3 j r c ])

-- One round of the search, in a word whose bits from place `lo` on are those of `w`: the mask is
-- zero and the places have none, or its lowest one is the first.
module _ (w : ℕ) (w_lt : w < word_mod) (p : ℕ → Bool) (base lo : ℕ) (lo_lt : lo < 64)
    (bits : (i : ℕ) → i < 64 → p (base + i) ≡ test_bit w i) where
  masked_bit : (i : ℕ) → i < 64 → test_bit (bit_and w (from_bit lo)) i ≡ (p (base + i) && leb lo i)
  unfolding from_bit
  masked_bit i h = rw (test_bit-bit_and, test_bit-from lo i lo_lt h, bits i h)

  masked_false :
      (j : ℕ)
      → base + lo ≤ j
      → j < base + 64
      → test_bit (bit_and w (from_bit lo)) (j - base) ≡ false
      → p j ≡ false
  masked_false j a b e =
      let e' : base + (j - base) ≡ j = omega arith in ground (arith, masked_bit (j - base), e')

  pub round_none :
      (bit_and w (from_bit lo) == 0) ≡ true → Throughout p false (base + lo) (base + 64)
  round_none e j a b = masked_false j a b (rw ((==_iff _ 0).0 e) (test_bit-zero (j - base)))

  pub round_some :
      (bit_and w (from_bit lo) == 0) ≡ false
      → let k = trailing_zeros (bit_and w (from_bit lo)) in
        (lo ≤ k) × (k < 64) × (p (base + k) ≡ true) × Throughout p false (base + lo) (base + k)
  round_some e = found (trailing_zeros-IsLowest masked small (λ q. ground arith))
    where
      masked : ℕ
      masked = bit_and w (from_bit lo)

      small : masked < word_mod
      small = lt_of_le_of_lt (bit_and-le _ _ _ (le_refl _)) w_lt

      found :
          IsLowest 64 masked (trailing_zeros masked)
          → let k = trailing_zeros masked in
            (lo ≤ k) × (k < 64) × (p (base + k) ≡ true) × Throughout p false (base + lo) (base + k)
      found (lt, one, below) = (
        ground (arith, masked_bit (trailing_zeros masked) lt),
        lt,
        ground (arith, masked_bit (trailing_zeros masked) lt),
        λ j a b. masked_false j a (omega arith) (below (j - base) (omega arith) (omega arith)),
      )

  -- The round's result, from the result of the rounds that follow.
  pub round-IsFirst :
      (idx limit : ℕ) (rest : Option ℕ)
      → idx ≡ base + lo
      → idx < limit
      → IsFirst p true (base + 64) limit rest
      → let masked = bit_and w (from_bit lo) in
        let found = base + trailing_zeros masked in
        IsFirst p true idx limit
          (if masked == 0 then rest else if ltb found limit then some found else none)
  round-IsFirst idx limit rest e lt f = elim (Bool-cases (bit_and w (from_bit lo) == 0)) [
    | inl gone ↦
        rw (gone, e)
          (IsFirst-behind p true (base + lo) (base + 64) limit rest (omega arith) (round_none gone)
            f)
    | inr there ↦ rw (there, e) (stop (round_some there))
  ]
    where
      stop :
          (let k = trailing_zeros (bit_and w (from_bit lo)) in
            (lo ≤ k) × (k < 64) × (p (base + k) ≡ true) × Throughout p false (base + lo) (base + k))
          → let found = base + trailing_zeros (bit_and w (from_bit lo)) in
            IsFirst p true (base + lo) limit (if ltb found limit then some found else none)
      stop (a, b, one, below) =
          elim (lt-or-le (base + trailing_zeros (bit_and w (from_bit lo))) limit) [
            | inl l ↦ rw (lt→ltb _ _ l) (omega arith, l, one, below)
            | inr r ↦ rw (le→ltb _ _ r) (λ j c d. below j c (omega arith))
          ]

-- Searching for a zero is searching for a one of the negated predicate.
IsFirst-not :
    (p : ℕ → Bool) (lo hi : ℕ) (o : Option ℕ)
    → IsFirst (λ j. not (p j)) true lo hi o
    → IsFirst p false lo hi o
IsFirst-not p lo hi none f = λ j a b. ground (arith, f j a b)
IsFirst-not p lo hi (some k) f = (f.0, f.1, ground (arith, f.2), λ j a b. ground (arith, f.3 j a b))

module _ (n : ℕ) {s : BitSet} (v : IsValid n s) where
  next_one_loop-IsFirst :
      (rounds idx limit : ℕ)
      → 1 ≤ rounds
      → suc n ≤ rounds + idx / 64
      → IsFirst (bit s) true idx limit (next_one_loop n rounds s idx limit)
  unfolding next_one_loop
  next_one_loop-IsFirst zero idx limit h k = absurd (omega arith)
  next_one_loop-IsFirst (suc rounds) idx limit h k = elim (lt-or-le idx limit) [
    | inr over ↦ rw (le→ltb _ _ over) (λ j a b. absurd (omega arith))
    | inl under ↦ elim (lt-or-le (idx / 64) n) [
      | inr beyond ↦
          rw (lt→ltb _ _ under, le→leb _ _ beyond) (λ j a b. bit_beyond n v j (omega arith))
      | inl inside ↦
          rw (lt→ltb _ _ under, lt→leb _ _ inside)
            (round-IsFirst (word s (idx / 64)) (word-lt v (idx / 64)) (bit s) (idx / 64 * 64)
              (idx % 64) (omega arith) (bit_at s (idx / 64)) idx limit _ (omega arith) under
              (rw next_base (
                next_one_loop-IsFirst rounds ((idx / 64 + 1) * 64) limit (omega arith)
                  (omega arith))))
    ]
  ]
    where
      next_base : idx / 64 * 64 + 64 ≡ (idx / 64 + 1) * 64
      next_base = omega arith

  -- `next_one(start, limit)` is the first index of the set in [start, limit), and `None` exactly
  -- if there is none. The words must be well formed.
  pub next_one-IsFirst :
      (start limit : ℕ) → IsFirst (get n s) true start limit (next_one n s start limit)
  unfolding next_one
  next_one-IsFirst start limit =
      rw (fun_ext (get-bit n v))
        (next_one_loop-IsFirst (suc n) start limit (omega arith) (omega arith))

  next_zero_loop-IsFirst :
      (rounds idx limit : ℕ)
      → 1 ≤ rounds
      → suc n ≤ rounds + idx / 64
      → IsFirst (λ j. not (bit s j)) true idx limit (next_zero_loop n rounds s idx limit)
  unfolding next_zero_loop
  next_zero_loop-IsFirst zero idx limit h k = absurd (omega arith)
  next_zero_loop-IsFirst (suc rounds) idx limit h k = elim (lt-or-le idx limit) [
    | inr over ↦ rw (le→ltb _ _ over) (λ j a b. absurd (omega arith))
    | inl under ↦ elim (lt-or-le (idx / 64) n) [
      | inr beyond ↦
          rw (lt→ltb _ _ under, le→leb _ _ beyond)
            (
              omega arith,
              under,
              ap not (bit_beyond n v idx (omega arith)),
              λ j a b. absurd (omega arith),
            )
      | inl inside ↦
          rw (lt→ltb _ _ under, lt→leb _ _ inside)
            (round-IsFirst (complement (word s (idx / 64))) (complement-lt _) (λ j. not (bit s j))
              (idx / 64 * 64) (idx % 64) (omega arith) inverted idx limit _ (omega arith) under
              (rw next_base (
                next_zero_loop-IsFirst rounds ((idx / 64 + 1) * 64) limit (omega arith)
                  (omega arith))))
    ]
  ]
    where
      next_base : idx / 64 * 64 + 64 ≡ (idx / 64 + 1) * 64
      next_base = omega arith

      inverted :
          (i : ℕ)
          → i < 64
          → not (bit s (idx / 64 * 64 + i)) ≡ test_bit (complement (word s (idx / 64))) i
      inverted i h =
          rw (bit_at s (idx / 64) i h, test_bit-complement (word s (idx / 64)) i (word-lt v _) h)

  -- `next_zero(start, limit)` is the first index of [start, limit) that is not in the set, and
  -- `None` exactly if all of them are. The words must be well formed.
  pub next_zero-IsFirst :
      (start limit : ℕ) → IsFirst (get n s) false start limit (next_zero n s start limit)
  unfolding next_zero
  next_zero-IsFirst start limit = rw (fun_ext (get-bit n v)) (
      IsFirst-not (bit s) start limit _
        (next_zero_loop-IsFirst (suc n) start limit (omega arith) (omega arith)))
