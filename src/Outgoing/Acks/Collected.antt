-- ===== src/Outgoing/Acks/Collected.antt =====
-- Which indices `collect_acked_indices` of tox-sequenced/src/outgoing.rs collects.
use rs_toxcore_c.Prelude.{
  ℕ, zero, suc, ◌+◌, ◌-◌, ◌%◌, ◌^◌, ◌≤◌, ◌<◌, ◌≡◌, refl, sym, ◌∙◌, bit_and, Bool, true, false, not,
  ◌&&◌, ◌||◌, some, ◌∷◌, ◌==◌, ltb, leb, if◌then◌else◌, arith, ◌⊎◌, inl, inr, lt-or-le, Bool-cases,
  Option-cases, ==_iff, contains, subst,
}
use mathlib.Core.Bool.{false≢true}
use native.Mathlib.Nat.{lt_of_le_of_lt, le_refl}
use rs_toxcore_c.Prelude.Search.{Throughout, IsFirst}
use rs_toxcore_c.Protocol.{bitset_words, max_fragments_per_message, u16_mod, fragment_index_add}
use rs_toxcore_c.Word.{word_mod, complement, shl, test_bit, trailing_zeros}
use rs_toxcore_c.Word.Bits.{
  test_bit-zero, test_bit-bit_and, test_bit-complement, test_bit-pow, shl-one, pow-lt-word_mod,
  bit_and-le,
}
use rs_toxcore_c.Word.Scan.{IsLowest, trailing_zeros-IsLowest}
use rs_toxcore_c.BitSet
use rs_toxcore_c.BitSet.{BitSet}
use rs_toxcore_c.BitSet.First.{next_zero-IsFirst}
use rs_toxcore_c.Outgoing.Acks.Parts.{unacked_below, acked_in_mask}

-- `unacked_below` lists the unset places of the range from `curr` to `limit`, all of them and
-- nothing else, when it is given at least as many rounds as the range is long. The set must be valid and
-- `limit` below 2 ^ 16.
pub unacked_below-contains :
    (rounds : ℕ) {bits : BitSet} (curr limit j : ℕ)
    → BitSet.IsValid bitset_words bits
    → limit < u16_mod
    → limit ≤ rounds + curr
    → contains (unacked_below rounds bits curr limit) j
      ≡ (leb curr j && ltb j limit && not (BitSet.get bitset_words bits j))
unfolding unacked_below contains
unacked_below-contains zero curr limit j v h r = ground arith
unacked_below-contains (suc rounds) {bits} curr limit j v h r =
    elim (Option-cases (BitSet.next_zero bitset_words bits curr limit)) [
      | inl e ↦ rw (e, unacked_below) (nothing (subst (IsFirst p false curr limit) e first))
      | inr (k, e) ↦
          rw (e, unacked_below)
            (found k (subst (IsFirst p false curr limit) e first)
              (λ l. unacked_below-contains rounds (k + 1) limit j v h l))
    ]
  where
    p : ℕ → Bool
    p = BitSet.get bitset_words bits

    first : IsFirst p false curr limit (BitSet.next_zero bitset_words bits curr limit)
    first = next_zero-IsFirst bitset_words v curr limit

    nothing : Throughout p true curr limit → false ≡ (leb curr j && ltb j limit && not (p j))
    nothing t = ground (arith, t j)

    found :
        (k : ℕ)
        → IsFirst p false curr limit (some k)
        → (limit ≤ rounds + (k + 1)
            → contains (unacked_below rounds bits (k + 1) limit) j
              ≡ (leb (k + 1) j && ltb j limit && not (p j)))
        → contains (k % u16_mod ∷ unacked_below rounds bits (k + 1) limit) j
          ≡ (leb curr j && ltb j limit && not (p j))
    found k (from, under, clear, before) ih =
        let e : k % u16_mod ≡ k = omega arith in
        rw e (elim (Bool-cases (k == j)) [
          | inl here ↦ let same : j ≡ k = sym ((==_iff k j).0 here) in ground (arith, same, clear)
          | inr other ↦ ground (arith, ih (omega arith), before j)
        ])

-- Fragment `j` is named by the mask of an acknowledgement with this base.
abbrev pub in_mask : ℕ → ℕ → ℕ → Bool
in_mask base mask j = ltb base j && ltb (j - base - 1) 64 && test_bit mask (j - base - 1)

named_index :
    (base i : ℕ)
    → base < max_fragments_per_message
    → i < 64
    → fragment_index_add (fragment_index_add base 1) (i % u16_mod) ≡ base + 1 + i
unfolding fragment_index_add
named_index base i h k = omega arith

-- The mask without its lowest bit.
module _ (mask : ℕ) (w : mask < word_mod) (l : IsLowest 64 mask (trailing_zeros mask)) where
  abbrev cleared : ℕ
  cleared = bit_and mask (complement (shl 1 (trailing_zeros mask)))

  cleared-bit :
      (k : ℕ) → k < 64 → test_bit cleared k ≡ (test_bit mask k && not (trailing_zeros mask == k))
  cleared-bit k h =
      rw
        (
          shl-one (trailing_zeros mask) l.0,
          test_bit-bit_and,
          test_bit-complement (2 ^ trailing_zeros mask) k
              (pow-lt-word_mod (trailing_zeros mask) l.0) h,
          test_bit-pow,
        )
        refl

  cleared-lt : cleared < word_mod
  cleared-lt = lt_of_le_of_lt (bit_and-le mask mask _ (le_refl mask)) w

  -- One more low place is clear.
  cleared_low :
      (n : ℕ)
      → Throughout (test_bit mask) false 0 n
      → n < 64
      → Throughout (test_bit cleared) false 0 (n + 1)
  cleared_low n low h k a b = elim (lt-or-le (trailing_zeros mask) n) [
    | inl short ↦ absurd (false≢true (sym (low (trailing_zeros mask) (omega arith) short) ∙ l.1))
    | inr long ↦
        cleared-bit k (omega arith)
        ∙ off (Bool-cases (trailing_zeros mask == k)) (lt-or-le k (trailing_zeros mask)) long
  ]
    where
      off :
          ((trailing_zeros mask == k) ≡ true) ⊎ ((trailing_zeros mask == k) ≡ false)
          → (k < trailing_zeros mask) ⊎ (trailing_zeros mask ≤ k)
          → n ≤ trailing_zeros mask
          → (test_bit mask k && not (trailing_zeros mask == k)) ≡ false
      off (inl e) c l = ground (arith, e)
      off (inr e) (inl below) l' = ground (arith, l.2 k (omega arith) below)
      off (inr e) (inr above) l = absurd (ground arith)

  -- The place that is cleared names one index; the others are named by what is left.
  in_mask-cleared :
      (base j : ℕ)
      → in_mask base mask j ≡ ((base + 1 + trailing_zeros mask == j) || in_mask base cleared j)
  in_mask-cleared base j = elim (lt-or-le base j) [
    | inr le ↦ ground arith
    | inl lt ↦ elim (lt-or-le (j - base - 1) 64) [
      | inr far ↦ ground arith
      | inl near ↦ ground (arith, cleared-bit (j - base - 1) near, l.1)
    ]
  ]

pub acked_in_mask-contains :
    (rounds : ℕ) (bits : BitSet) (num base mask j : ℕ)
    → mask < word_mod
    → base < num
    → num ≤ max_fragments_per_message
    → j < num
    → rounds ≤ 64
    → Throughout (test_bit mask) false 0 (64 - rounds)
    → contains (acked_in_mask rounds bits num base mask) j
      ≡ (in_mask base mask j && not (BitSet.get bitset_words bits j))
unfolding acked_in_mask contains
acked_in_mask-contains zero bits num base mask j w b n h r low = ground (arith, low (j - base - 1))
acked_in_mask-contains (suc rounds) bits num base mask j w b n h r low =
    elim (Bool-cases (mask == 0)) [
      | inl empty ↦ rw (empty, (==_iff mask 0).0 empty, test_bit-zero (j - base - 1)) (ground arith)
      | inr more ↦
          let l : IsLowest 64 mask (trailing_zeros mask) =
            trailing_zeros-IsLowest mask w (λ e. ground arith) in
          rw (more, named_index base (trailing_zeros mask) (omega arith) l.0)
            (step l (
              acked_in_mask-contains rounds bits num base (cleared mask w l) j (cleared-lt mask w l)
                b n h (omega arith)
                (let e : 64 - rounds ≡ 64 - suc rounds + 1 = omega arith in
                  rw e (cleared_low mask w l (64 - suc rounds) low (omega arith)))))
    ]
  where
    step :
        (l : IsLowest 64 mask (trailing_zeros mask))
        → contains (acked_in_mask rounds bits num base (cleared mask w l)) j
          ≡ (in_mask base (cleared mask w l) j && not (BitSet.get bitset_words bits j))
        → contains
            (if ltb (base + 1 + trailing_zeros mask) num
                && not (BitSet.get bitset_words bits (base + 1 + trailing_zeros mask))
              then (base + 1 + trailing_zeros mask)
                ∷ acked_in_mask rounds bits num base (cleared mask w l)
              else acked_in_mask rounds bits num base (cleared mask w l))
            j
          ≡ (in_mask base mask j && not (BitSet.get bitset_words bits j))
    step l ih = elim (Bool-cases (base + 1 + trailing_zeros mask == j)) [
      | inl here ↦
          let same : base + 1 + trailing_zeros mask ≡ j =
            (==_iff (base + 1 + trailing_zeros mask) j).0 here in
          rw (same, in_mask-cleared mask w l base j) (ground (arith, ih, h))
      | inr other ↦ rw (in_mask-cleared mask w l base j, other) (ground (arith, ih, h))
    ]
