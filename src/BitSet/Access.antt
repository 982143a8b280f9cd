-- ===== src/BitSet/Access.antt =====
-- `get`, `set`, `unset`, `clear` and `fill` of tox-sequenced/src/bitset.rs as operations on a set
-- of indices.
use rs_toxcore_c.Prelude.{
  ℕ, ◌+◌, ◌*◌, ◌-◌, ◌/◌, ◌%◌, ◌^◌, ◌≤◌, ◌<◌, ◌≡◌, ◌≢◌, refl, ap, ◌∙◌, sym, Bool, true, false, not,
  ◌&&◌, ◌||◌, ◌==◌, ltb, leb, if◌then◌else◌, arith, inl, inr, lt-or-le, ltb→lt, Bool-cases, ==_iff,
  get_or-replicate_in, length-set, length-replicate, All, All-set, All-replicate, All-get_or,
  get_or-set_self, get_or-set_ne, get_or_beyond, get_or-replicate, bit_and, bit_or, length,
}
use rs_toxcore_c.Prelude
use native.Mathlib.Nat.{lt_of_le_of_lt, le_refl}
use rs_toxcore_c.Word.{word_mod, shl, complement, test_bit}
use rs_toxcore_c.Word.Bits.{
  test_bit-zero, test_bit-bit_and, test_bit-bit_or, test_bit-pow, test_bit-complement, shl-one,
  pow-lt-word_mod, bit_and-pow-eq-zero, bit_and-le, bit_or-lt, test_bit-low,
}
use rs_toxcore_c.BitSet.{BitSet, IsValid, word, bit, new, get, set, unset, clear, fill}

pub word-lt : {n : ℕ} {s : BitSet} → IsValid n s → (k : ℕ) → word s k < word_mod
unfolding word
word-lt {n} {s} v k = All-get_or (λ w. w < word_mod) s.words k 0 (omega arith) v.small

pub new-IsValid : (n : ℕ) → IsValid n (new n)
unfolding new
new-IsValid n = record {
  width = length-replicate n 0;
  small = All-replicate (λ w. w < word_mod) n 0 (omega arith);
}

module _ (n : ℕ) {s : BitSet} (v : IsValid n s) where
  -- A set has no bit beyond its words.
  pub bit_beyond : (i : ℕ) → n * 64 ≤ i → bit s i ≡ false
  unfolding word
  bit_beyond i h =
      rw (get_or_beyond s.words (i / 64) 0 (omega (arith, v.width))) (test_bit-zero (i % 64))

  pub get-bit : (i : ℕ) → get n s i ≡ bit s i
  unfolding get
  get-bit i = elim (lt-or-le i (n * 64)) [
    | inl h ↦
        rw (shl-one (i % 64) (omega arith))
          (ground (arith, bit_and-pow-eq-zero (word s (i / 64)) (i % 64)))
    | inr h ↦ rw (bit_beyond i h) (ground arith)
  ]

  -- Replacing one word by a word.
  put-IsValid : (k w : ℕ) → w < word_mod → IsValid n (record s { words = Prelude.set s.words k w })
  put-IsValid k w h = record {
    width = length-set s.words k w ∙ v.width;
    small = All-set (λ w. w < word_mod) s.words k w h v.small;
  }

  pub set-IsValid : (i : ℕ) → IsValid n (set n s i).0
  unfolding set
  set-IsValid i = rw (shl-one (i % 64) (omega arith)) (
      ground (
        arith,
        v,
        put-IsValid (i / 64) (bit_or (word s (i / 64)) (2 ^ (i % 64)))
            (bit_or-lt 64 _ _ (word-lt v (i / 64)) (pow-lt-word_mod (i % 64) (omega arith))),
      ))

  pub unset-IsValid : (i : ℕ) → IsValid n (unset n s i).0
  unfolding unset
  unset-IsValid i = ground (
    arith,
    v,
    put-IsValid (i / 64) (bit_and (word s (i / 64)) (complement (shl 1 (i % 64))))
        (lt_of_le_of_lt (bit_and-le _ _ _ (le_refl _)) (word-lt v (i / 64))),
  )

  -- One word replaced: the bits of the others stay.
  put-bit :
      (k w j : ℕ)
      → k < n
      → bit (record s { words = Prelude.set s.words k w }) j
        ≡ (if k == j / 64 then test_bit w (j % 64) else bit s j)
  unfolding word
  put-bit k w j h = elim (Bool-cases (k == j / 64)) [
    | inl e ↦
        let e' : j / 64 ≡ k = sym ((==_iff k (j / 64)).0 e) in
        rw (e, e', get_or-set_self s.words k w 0 (omega (arith, v.width))) refl
    | inr e ↦ rw (e, get_or-set_ne s.words k (j / 64) w 0 (λ q. ground arith)) refl
  ]

  -- Inserting index `i`.
  pub bit-set : (i j : ℕ) → bit (set n s i).0 j ≡ ((ltb i (n * 64) && (i == j)) || bit s j)
  unfolding set
  bit-set i j = elim (lt-or-le i (n * 64)) [
    | inl h ↦
        rw (shl-one (i % 64) (omega arith), bit_and-pow-eq-zero (word s (i / 64)) (i % 64))
          (ground (
            arith,
            put-bit (i / 64) (bit_or (word s (i / 64)) (2 ^ (i % 64))) j (omega arith),
            test_bit-bit_or (word s (i / 64)) (2 ^ (i % 64)) (j % 64),
            test_bit-pow (i % 64) (j % 64),
          ))
    | inr h ↦ ground arith
  ]

  pub bit-unset : (i j : ℕ) → bit (unset n s i).0 j ≡ (not (i == j) && bit s j)
  unfolding unset
  bit-unset i j = elim (lt-or-le i (n * 64)) [
    | inl h ↦
        rw (shl-one (i % 64) (omega arith), bit_and-pow-eq-zero (word s (i / 64)) (i % 64))
          (ground (
            arith,
            put-bit (i / 64) (bit_and (word s (i / 64)) (complement (2 ^ (i % 64)))) j
                (omega arith),
            test_bit-bit_and (word s (i / 64)) (complement (2 ^ (i % 64))) (j % 64),
            test_bit-complement (2 ^ (i % 64)) (j % 64) (pow-lt-word_mod (i % 64) (omega arith))
                (omega arith),
            test_bit-pow (i % 64) (j % 64),
          ))
    | inr h ↦ ground (arith, bit_beyond i h)
  ]

  set_result : (i : ℕ) → (set n s i).1 ≡ (ltb i (n * 64) && not (bit s i))
  unfolding set
  set_result i =
      rw (shl-one (i % 64) (omega arith), bit_and-pow-eq-zero (word s (i / 64)) (i % 64))
        (ground arith)

  unset_result : (i : ℕ) → (unset n s i).1 ≡ bit s i
  unfolding unset
  unset_result i = elim (lt-or-le i (n * 64)) [
    | inl h ↦
        rw (shl-one (i % 64) (omega arith), bit_and-pow-eq-zero (word s (i / 64)) (i % 64))
          (ground arith)
    | inr h ↦ ground (arith, bit_beyond i h)
  ]

module _ (n : ℕ) {s : BitSet} (v : IsValid n s) (i : ℕ) where
  -- `set` keeps the words well formed, adds the index if it is below `N * 64` and no other, and
  -- returns whether it added it. The words must be well formed before.
  pub set_lem :
      IsValid n (set n s i).0
      × ((set n s i).1 ≡ (ltb i (n * 64) && not (get n s i)))
      × ((j : ℕ) → get n (set n s i).0 j ≡ ((ltb i (n * 64) && (i == j)) || get n s j))
  set_lem =
      let v' = set-IsValid n v i in
      (
        v',
        rw (get-bit n v i) (set_result n v i),
        λ j. rw (get-bit n v' j, get-bit n v j) (bit-set n v i j),
      )

  -- `unset` keeps the words well formed, removes the index and no other, and returns whether it
  -- was there. The words must be well formed before.
  unset_lem :
      IsValid n (unset n s i).0
      × ((unset n s i).1 ≡ get n s i)
      × ((j : ℕ) → get n (unset n s i).0 j ≡ (not (i == j) && get n s j))
  unset_lem =
      let v' = unset-IsValid n v i in
      (
        v',
        rw (get-bit n v i) (unset_result n v i),
        λ j. rw (get-bit n v' j, get-bit n v j) (bit-unset n v i j),
      )

module _ (n : ℕ) where
  bit-new : (j : ℕ) → bit (new n) j ≡ false
  unfolding new word
  bit-new j = rw (get_or-replicate {A = ℕ} n (j / 64) 0) (test_bit-zero (j % 64))

  pub get-new : (j : ℕ) → get n (new n) j ≡ false
  get-new j = get-bit n (new-IsValid n) j ∙ bit-new j

  fill-IsValid : (s : BitSet) → IsValid n (fill n s)
  unfolding fill
  fill-IsValid s = record {
    width = length-replicate n (word_mod - 1);
    small = All-replicate (λ w. w < word_mod) n (word_mod - 1) (omega arith);
  }

  word-fill : (s : BitSet) (k : ℕ) → k < n → word (fill n s) k ≡ 2 ^ 64 - 1
  unfolding fill word
  word-fill s k h = get_or-replicate_in {A = ℕ} n k (word_mod - 1) 0 h

  -- After `clear` no index is in the set; after `fill` exactly those below `N * 64` are.
  clear-fill_lem :
      (s : BitSet) (j : ℕ) → (get n (clear n s) j ≡ false) × (get n (fill n s) j ≡ ltb j (n * 64))
  unfolding clear
  clear-fill_lem s j = (unfold new in get-new j, get-bit n (fill-IsValid s) j ∙ filled)
    where
      filled : bit (fill n s) j ≡ ltb j (n * 64)
      filled = elim (lt-or-le j (n * 64)) [
        | inl h ↦ rw (word-fill s (j / 64) (omega arith), test_bit-low 64 (j % 64)) (ground arith)
        | inr h ↦ rw (bit_beyond n (fill-IsValid s) j h) (ground arith)
      ]
