-- ===== src/BitSet/Last.antt =====
-- `last_one` of tox-sequenced/src/bitset.rs, which goes down word by word, against a search of the
-- indices one by one.
use rs_toxcore_c.Prelude.{
  ℕ, zero, suc, ◌+◌, ◌-◌, ◌*◌, ◌/◌, ◌%◌, ◌≤◌, ◌<◌, ◌≡◌, ◌∙◌, Bool, true, false, not, ◌&&◌, ◌==◌,
  ltb, if◌then◌else◌, arith, inl, inr, lt-or-le, Bool-cases, bit_and, Option, none, some, min,
  ==_iff, lt→ltb, le→ltb, fun_ext, subst,
}
use rs_toxcore_c.Prelude.Search.{Throughout, IsLast}
use rs_toxcore_c.Word.{word_mod, shl, test_bit, leading_zeros}
use rs_toxcore_c.Word.Bits.{test_bit-zero, test_bit-bit_and, test_bit-low, shl-one, bit_and-le}
use rs_toxcore_c.Word.Scan.{IsHighest, leading_zeros-IsHighest}
use native.Mathlib.Nat.{lt_of_le_of_lt, le_refl}
use rs_toxcore_c.BitSet.{BitSet, IsValid, word, bit, get, last_one_down, last_one}
use rs_toxcore_c.BitSet.Access.{word-lt, get-bit, bit_beyond}
use rs_toxcore_c.BitSet.First.{bit_at}

-- One word: it is zero and has no place, or its highest one is the last place.
module _ (w : ℕ) (w_lt : w < word_mod) (p : ℕ → Bool) (base : ℕ)
    (bits : (i : ℕ) → i < 64 → p (base + i) ≡ test_bit w i) where
  at : (j : ℕ) → base ≤ j → j < base + 64 → p j ≡ test_bit w (j - base)
  at j a b =
      let e : base + (j - base) ≡ j = omega arith in
      ground (arith, bits (j - base) (omega arith), e)

  pub zero_word : (w == 0) ≡ true → Throughout p false base (base + 64)
  zero_word e j a b = rw (at j a b, (==_iff w 0).0 e) (test_bit-zero (j - base))

  pub nonzero_word : (w == 0) ≡ false → IsLast p (base + 64) (some (base + (63 - leading_zeros w)))
  nonzero_word e = last (leading_zeros-IsHighest w w_lt (λ q. ground arith))
    where
      last :
          IsHighest 64 w (63 - leading_zeros w)
          → IsLast p (base + 64) (some (base + (63 - leading_zeros w)))
      last (lt, one, above) = (
        omega arith,
        bits (63 - leading_zeros w) lt ∙ one,
        λ j a b. at j (omega arith) b ∙ above (j - base) (omega arith) (omega arith),
      )

-- A search goes on below a stretch that has nothing.
IsLast-below :
    (p : ℕ → Bool) (mid hi : ℕ) (o : Option ℕ)
    → mid ≤ hi
    → Throughout p false mid hi
    → IsLast p mid o
    → IsLast p hi o
IsLast-below p mid hi none h t f =
    λ j a b. elim (lt-or-le j mid) [ inl l ↦ f j a l | inr r ↦ t j r b ]
IsLast-below p mid hi (some k) h t f =
    (omega arith, f.1, λ j a b. elim (lt-or-le j mid) [ inl l ↦ f.2 j a l | inr r ↦ t j r b ])

module _ (n : ℕ) {s : BitSet} (v : IsValid n s) where
  last_one_down-IsLast : (k : ℕ) → IsLast (bit s) (k * 64 + 64) (last_one_down s k)
  unfolding last_one_down
  last_one_down-IsLast zero = elim (Bool-cases (word s 0 == 0)) [
    | inl e ↦ rw e (zero_word (word s 0) (word-lt v 0) (bit s) (0 * 64) (bit_at s 0) e)
    | inr e ↦ rw e (nonzero_word (word s 0) (word-lt v 0) (bit s) (0 * 64) (bit_at s 0) e)
  ]
  last_one_down-IsLast (suc k) = elim (Bool-cases (word s (suc k) == 0)) [
    | inl e ↦ rw e (
        IsLast-below (bit s) (k * 64 + 64) (suc k * 64 + 64) _ (omega arith)
          (rw next_base (
            zero_word (word s (suc k)) (word-lt v (suc k)) (bit s) (suc k * 64) (bit_at s (suc k))
              e))
          (last_one_down-IsLast k))
    | inr e ↦ rw e (
        nonzero_word (word s (suc k)) (word-lt v (suc k)) (bit s) (suc k * 64) (bit_at s (suc k)) e)
  ]
    where
      next_base : k * 64 + 64 ≡ suc k * 64
      next_base = omega arith

-- A predicate cut off at `limit` has its last place there, in the range of a whole word or below
-- the limit alike.
IsLast-cut :
    (p : ℕ → Bool) (limit hi : ℕ) (o : Option ℕ)
    → limit ≤ hi
    → IsLast (λ j. p j && ltb j limit) hi o
    → IsLast p limit o
IsLast-cut p limit hi none h f = λ j a b. ground (arith, f j a)
IsLast-cut p limit hi (some k) h f =
    (ground (arith, f.1), ground (arith, f.1), λ j a b. ground (arith, f.2 j a))

module _ (n : ℕ) {s : BitSet} (v : IsValid n s) (k count : ℕ) (count_lt : count < 64) where
  abbrev masked : ℕ
  masked = bit_and (word s k) (shl 1 count - 1)

  abbrev cut : ℕ → Bool
  cut j = bit s j && ltb j (k * 64 + count)

  masked-lt : masked < word_mod
  masked-lt = lt_of_le_of_lt (bit_and-le _ _ _ (le_refl _)) (word-lt v k)

  masked-bit : (i : ℕ) → i < 64 → cut (k * 64 + i) ≡ test_bit masked i
  masked-bit i h =
      rw (bit_at s k i h, shl-one count count_lt, test_bit-bit_and, test_bit-low count i)
        (ground arith)

  partial_none : (masked == 0) ≡ true → Throughout (bit s) false (k * 64) (k * 64 + count)
  partial_none e j a b = ground (arith, zero_word masked masked-lt cut (k * 64) masked-bit e j a)

  partial_some :
      (masked == 0) ≡ false
      → IsLast (bit s) (k * 64 + count) (some (k * 64 + (63 - leading_zeros masked)))
  partial_some e =
      IsLast-cut (bit s) (k * 64 + count) (k * 64 + 64)
        (some (k * 64 + (63 - leading_zeros masked))) (omega arith)
        (nonzero_word masked masked-lt cut (k * 64) masked-bit e)

module _ (n : ℕ) {s : BitSet} (v : IsValid n s) where
  -- The search below `limit`, with the word of `limit - 1` and the bits counted in it named.
  words_scan :
      (limit k count : ℕ)
      → limit ≡ k * 64 + count
      → 1 ≤ count
      → count ≤ 64
      → let masked_word = bit_and (word s k) (shl 1 count - 1) in
        IsLast (bit s) limit (
          if ltb count 64
          then (if not (masked_word == 0)
              then some (k * 64 + (63 - leading_zeros masked_word))
              else if k == 0
              then none
              else last_one_down s (k - 1))
          else last_one_down s k)
  words_scan limit k count e pos small = elim (lt-or-le count 64) [
    | inr whole ↦
        let f : limit ≡ k * 64 + 64 = omega arith in
        rw (le→ltb _ _ whole, f) (last_one_down-IsLast n v k)
    | inl part ↦ elim (Bool-cases (bit_and (word s k) (shl 1 count - 1) == 0)) [
      | inr there ↦ rw (lt→ltb _ _ part, there, e) (partial_some n v k count part there)
      | inl gone ↦ rw (lt→ltb _ _ part, gone, e) (down k (partial_none n v k count part gone))
    ]
  ]
    where
      positive : (k : ℕ) → (suc k == 0) ≡ false
      positive k = ground arith

      down :
          (k : ℕ)
          → Throughout (bit s) false (k * 64) (k * 64 + count)
          → IsLast (bit s) (k * 64 + count) (if k == 0 then none else last_one_down s (k - 1))
      down zero t = λ j a b. t j (omega arith) b
      down (suc k) t =
          let f : suc k - 1 ≡ k = omega arith in
          let g : k * 64 + 64 ≡ suc k * 64 = omega arith in
          rw (positive k, f)
            (IsLast-below (bit s) (k * 64 + 64) (suc k * 64 + count) (last_one_down s k)
              (omega arith) (rw g t) (last_one_down-IsLast n v k))

  last_one-bit : (upto : ℕ) → IsLast (bit s) (min upto (n * 64)) (last_one n s upto)
  unfolding last_one
  last_one-bit upto = elim (lt-or-le 0 (min upto (n * 64))) [
    | inr empty ↦
        let e : min upto (n * 64) ≡ 0 = omega arith in rw e (λ j a b. absurd (omega arith))
    | inl some_bits ↦ rw (ne_zero (min upto (n * 64)) some_bits) (
        words_scan (min upto (n * 64)) ((min upto (n * 64) - 1) / 64)
          ((min upto (n * 64) - 1) % 64 + 1) (omega arith) (omega arith) (omega arith))
  ]
    where
      ne_zero : (m : ℕ) → 0 < m → (m == 0) ≡ false
      ne_zero m h = ground arith

  -- `last_one(limit)` is the last index of the set below `limit`, and `None` exactly if there is
  -- none. The words must be well formed.
  last_one-IsLast : (upto : ℕ) → IsLast (get n s) upto (last_one n s upto)
  last_one-IsLast upto = rw (fun_ext (get-bit n v)) (elim (lt-or-le (n * 64) upto) [
    | inl h ↦
        let e : min upto (n * 64) ≡ n * 64 = omega arith in
        IsLast-below (bit s) (n * 64) upto _ (omega arith) (λ j a b. bit_beyond n v j a)
          (subst (λ m. IsLast (bit s) m (last_one n s upto)) e (last_one-bit upto))
    | inr h ↦
        let e : min upto (n * 64) ≡ upto = omega arith in
        subst (λ m. IsLast (bit s) m (last_one n s upto)) e (last_one-bit upto)
  ])
