-- ===== src/BitSet/Ranges.antt =====
-- `first_zero`, `next_range` and `sack_mask` of tox-sequenced/src/bitset.rs: the cumulative base of
-- an acknowledgement, its mask, and runs of received fragments.
use mathlib.Core.Bool.{false≢true}
use rs_toxcore_c.Prelude.{
  ℕ, suc, ◌+◌, ◌-◌, ◌/◌, ◌%◌, ◌^◌, ◌≤◌, ◌<◌, ◌≡◌, ◌≢◌, ap, ◌∙◌, sym, Bool, true, false, not, ◌==◌,
  arith, inl, inr, lt-or-le, Bool-cases, Option-cases, Option, none, some, min, List, [], ◌∷◌, All,
  get_or, ==_iff, lt→ltb, le→leb, lt→leb, fun_ext, subst,
}
use rs_toxcore_c.Prelude.Search.{Throughout, IsFirst}
use rs_toxcore_c.Word.{word_mod, complement, shl, shr, test_bit, trailing_zeros, trailing_ones}
use rs_toxcore_c.Word.Bits.{
  test_bit-zero, test_bit-bit_or, test_bit-complement, test_bit-shl, test_bit-shr, test_bit_beyond,
  complement-lt,
}
use rs_toxcore_c.Word.Scan.{IsLowest, trailing_zeros-IsLowest}
use rs_toxcore_c.BitSet.{
  BitSet, IsValid, word, bit, get, first_zero_in, first_zero, next_one, next_zero, next_range,
  or_limit, sack_mask,
}
use rs_toxcore_c.BitSet.Access.{word-lt, get-bit, bit_beyond}
use rs_toxcore_c.BitSet.First.{next_one-IsFirst, next_zero-IsFirst}

-- `r` is `limit` or the first place from `base` on where `p` fails.
abbrev pub IsBase : (ℕ → Bool) → ℕ → ℕ → ℕ → Type 0
IsBase p base limit r = (r ≤ limit) × Throughout p true base r × (r < limit → p r ≡ false)

-- The place `base + i` of `p` is bit `i % 64` of word `i / 64` of the list.
abbrev Reads : (ℕ → Bool) → ℕ → List ℕ → Type 0
Reads p base ws = (i : ℕ) → p (base + i) ≡ test_bit (get_or ws (i / 64) 0) (i % 64)

Reads-tail :
    (p : ℕ → Bool) (base w : ℕ) (ws : List ℕ) → Reads p base (w ∷ ws) → Reads p (base + 64) ws
Reads-tail p base w ws h i =
    let e : base + 64 + i ≡ base + (64 + i) = omega arith in
    let f : (64 + i) / 64 ≡ suc (i / 64) = omega arith in
    let g : (64 + i) % 64 ≡ i % 64 = omega arith in rw (e, h (64 + i), f, g)

Reads-head :
    (p : ℕ → Bool) (base w : ℕ) (ws : List ℕ)
    → Reads p base (w ∷ ws)
    → (i : ℕ) → i < 64
    → p (base + i) ≡ test_bit w i
Reads-head p base w ws h i k =
    let f : i / 64 ≡ 0 = omega arith in let g : i % 64 ≡ i = omega arith in rw (h i, f, g)

complement-bit :
    (w i : ℕ)
    → w < word_mod
    → i < 64
    → (b : Bool) → test_bit (complement w) i ≡ not b
    → test_bit w i ≡ b
complement-bit w i h k b e = ground (arith, test_bit-complement w i h k)

first_zero_in-IsBase :
    (p : ℕ → Bool) (base : ℕ) (ws : List ℕ) (limit : ℕ)
    → All (λ w. w < word_mod) ws
    → Reads p base ws
    → IsBase p base limit (first_zero_in base ws limit)
unfolding first_zero_in trailing_ones
first_zero_in-IsBase p base [] limit small reads =
    (omega arith, λ j a b. absurd (omega arith), λ h. past h)
  where
    past : min base limit < limit → p (min base limit) ≡ false
    past h = let e : min base limit ≡ base + 0 = omega arith in rw (e, reads 0) (test_bit-zero 0)
first_zero_in-IsBase p base (w ∷ ws) limit small reads = elim (Bool-cases (w == word_mod - 1)) [
  | inl full ↦ rw full (
      skip full
        (first_zero_in-IsBase p (base + 64) ws limit small.1 (Reads-tail p base w ws reads)))
  | inr part ↦
      rw part (stop (trailing_zeros-IsLowest (complement w) (complement-lt w) (nonzero part)))
]
  where
    at : (j : ℕ) → base ≤ j → j < base + 64 → p j ≡ test_bit w (j - base)
    at j a b =
        let e : base + (j - base) ≡ j = omega arith in
        ground (arith, Reads-head p base w ws reads (j - base) (omega arith), e)

    nonzero : (w == word_mod - 1) ≡ false → complement w ≢ 0
    nonzero part e = unfold complement in ground (arith, small.0)

    one_of : (i : ℕ) → i < 64 → test_bit (complement w) i ≡ false → test_bit w i ≡ true
    one_of i h e = complement-bit w i small.0 h true e

    skip :
        (w == word_mod - 1) ≡ true
        → IsBase p (base + 64) limit (first_zero_in (base + 64) ws limit)
        → IsBase p base limit (first_zero_in (base + 64) ws limit)
    skip full (le, ones, stops) = (le, both, stops)
      where
        zero_complement : complement w ≡ 0
        zero_complement = unfold complement in omega (arith, (==_iff w _).0 full)

        both : Throughout p true base (first_zero_in (base + 64) ws limit)
        both j a b = elim (lt-or-le j (base + 64)) [
          | inl l ↦
              at j a l
              ∙ one_of (j - base) (omega arith) (rw zero_complement (test_bit-zero (j - base)))
          | inr r ↦ ones j r b
        ]

    stop :
        IsLowest 64 (complement w) (trailing_zeros (complement w))
        → IsBase p base limit (min (base + trailing_zeros (complement w)) limit)
    stop (lt, one, below) = (
      omega arith,
      λ j a b.
          at j a (omega arith)
          ∙ one_of (j - base) (omega arith) (below (j - base) (omega arith) (omega arith)),
      λ h. last h,
    )
      where
        last :
            min (base + trailing_zeros (complement w)) limit < limit
            → p (min (base + trailing_zeros (complement w)) limit) ≡ false
        last h =
            let k = trailing_zeros (complement w) in
            let e : min (base + k) limit ≡ base + k = omega arith in
            rw (e, Reads-head p base w ws reads k lt) (complement-bit w k small.0 lt false one)

module _ (n : ℕ) {s : BitSet} (v : IsValid n s) where
  -- `first_zero(limit)` is at most `limit`, every index below it is in the set, and it is not
  -- itself in the set unless it is `limit`. The words must be well formed.
  first_zero-IsBase : (limit : ℕ) → IsBase (get n s) 0 limit (first_zero s limit)
  unfolding first_zero word
  first_zero-IsBase limit =
      rw (fun_ext (get-bit n v))
        (first_zero_in-IsBase (bit s) 0 s.words limit v.small λ i. ap (bit s) (omega arith))

  -- The places of `sack_mask` in the word that holds `base + 1` and in the next one.
  module _ (start i : ℕ) (h : i < 64) where
    same_word :
        start % 64 + i < 64
        → bit s (start + i) ≡ test_bit (shr (word s (start / 64)) (start % 64)) i
    same_word k =
        let e : (start + i) / 64 ≡ start / 64 = omega arith in
        let f : (start + i) % 64 ≡ start % 64 + i = omega arith in rw (e, f, test_bit-shr)

    next_word :
        64 ≤ start % 64 + i
        → bit s (start + i) ≡ test_bit (shl (word s (start / 64 + 1)) (64 - start % 64)) i
    next_word k =
        let e : (start + i) / 64 ≡ start / 64 + 1 = omega arith in
        let f : (start + i) % 64 ≡ i - (64 - start % 64) = omega arith in
        rw (e, f, test_bit-shl, lt→ltb _ _ h, le→leb (64 - start % 64) i (omega arith))

    shifted_out : 64 ≤ start % 64 + i → test_bit (shr (word s (start / 64)) (start % 64)) i ≡ false
    shifted_out k =
        rw test_bit-shr (test_bit_beyond 64 _ (start % 64 + i) (word-lt v (start / 64)) k)

    not_yet :
        start % 64 + i < 64 → test_bit (shl (word s (start / 64 + 1)) (64 - start % 64)) i ≡ false
    not_yet k = rw (test_bit-shl, lt→leb (64 - start % 64) i (omega arith)) (ground arith)

  sack_mask-bit : (base i : ℕ) → i < 64 → test_bit (sack_mask n s base) i ≡ bit s (base + 1 + i)
  unfolding sack_mask
  sack_mask-bit base i h = elim (lt-or-le ((base + 1) % 64 + i) 64) [
    | inl near ↦ ground (
      arith,
      same_word (base + 1) i h near,
      not_yet (base + 1) i h near,
      test_bit-zero i,
      bit_beyond n v (base + 1 + i),
      test_bit-bit_or (shr (word s ((base + 1) / 64)) ((base + 1) % 64))
          (shl (word s ((base + 1) / 64 + 1)) (64 - (base + 1) % 64)) i,
    )
    | inr far ↦ ground (
      arith,
      next_word (base + 1) i h far,
      shifted_out (base + 1) i h far,
      test_bit-zero i,
      bit_beyond n v (base + 1 + i),
      test_bit-bit_or (shr (word s ((base + 1) / 64)) ((base + 1) % 64))
          (shl (word s ((base + 1) / 64 + 1)) (64 - (base + 1) % 64)) i,
    )
  ]

  -- Bit `i` of `sack_mask(base)`, for `i` below 64, tells whether `base + 1 + i` is in the set. The
  -- words must be well formed.
  pub sack_mask-get :
      (base i : ℕ) → i < 64 → test_bit (sack_mask n s base) i ≡ get n s (base + 1 + i)
  sack_mask-get base i h = sack_mask-bit base i h ∙ sym (get-bit n v (base + 1 + i))

-- The next run of places where `p` holds: the first such place from `start` on, and the first
-- after it where `p` fails or `limit`.
abbrev pub IsRun : (ℕ → Bool) → ℕ → ℕ → Option (ℕ × ℕ) → Type 0
IsRun p start limit none = Throughout p false start limit
IsRun p start limit (some (a, b)) =
    (start ≤ a)
    × (a < b)
    × (b ≤ limit)
    × Throughout p false start a
    × Throughout p true a b
    × (b < limit → p b ≡ false)

ends_of_range :
    (p : ℕ → Bool) (start a limit : ℕ) (o : Option ℕ)
    → limit < 2 ^ 16
    → IsFirst p true start limit (some a)
    → IsFirst p false a limit o
    → IsRun p start limit (some (a % 2 ^ 16, or_limit o limit % 2 ^ 16))
ends_of_range p start a limit none small (from, lt, one, before) after =
    let e : a % 2 ^ 16 ≡ a = omega arith in
    let f : limit % 2 ^ 16 ≡ limit = omega arith in
    rw (e, f) (from, lt, omega arith, before, after, λ h. absurd (omega arith))
ends_of_range p start a limit (some b) small (from, lt, one, before) (le, under, zero_at, ones) =
    let e : a % 2 ^ 16 ≡ a = omega arith in
    let f : b % 2 ^ 16 ≡ b = omega arith in
    rw (e, f) (from, longer, omega arith, before, ones, λ h. zero_at)
  where
    longer : a < b
    longer = elim (lt-or-le a b) [
      | inl l ↦ l
      | inr r ↦
          let e : a ≡ b = omega arith in absurd (false≢true (sym zero_at ∙ ap p (sym e) ∙ one))
    ]

-- `next_range(start, limit)` is the next run of indices in the set, if there is one; `limit` must
-- be below 2 ^ 16, since the ends are cast to `u16`, and the words well formed.
next_range-IsRun :
    (n : ℕ) {s : BitSet}
    → IsValid n s
    → (start limit : ℕ) → limit < 2 ^ 16
    → IsRun (get n s) start limit (next_range n s start limit)
unfolding next_range
next_range-IsRun n {s} v start limit small = elim (Option-cases (next_one n s start limit)) [
  | inl e ↦
      rw (e, next_range)
        (subst (IsFirst (get n s) true start limit) e (next_one-IsFirst n v start limit))
  | inr (a, e) ↦
      rw (e, next_range)
        (ends_of_range (get n s) start a limit (next_zero n s a limit) small
          (subst (IsFirst (get n s) true start limit) e (next_one-IsFirst n v start limit))
          (next_zero-IsFirst n v a limit))
]
