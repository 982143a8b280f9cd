-- ===== src/BitSet.antt =====
-- tox-sequenced/src/bitset.rs: `BitSet<N>`, a set of indices below `N * 64` in `N` words of 64
-- bits. `n` is the constant `N`; a `&mut self` method returns the new set beside its result.
-- Each index into `words` below is in range by the guards before it, so the default that `word`
-- has out of range is never read; `next_zero` and `next_one` take as many rounds as there are
-- words, and one more.
pub mod Access
pub mod First
pub mod Ranges
pub mod Last
use rs_toxcore_c.Prelude.{
  ℕ, zero, suc, ◌+◌, ◌-◌, ◌*◌, ◌/◌, ◌%◌, ◌^◌, ◌<◌, ◌≡◌, min, bit_and, bit_or, Bool, true, false,
  not, ◌&&◌, Option, none, some, List, [], ◌∷◌, ◌==◌, ltb, leb, if◌then◌else◌, length, get_or,
  replicate, All,
}
use rs_toxcore_c.Prelude
use rs_toxcore_c.Word.{
  word_mod, complement, shl, shr, wrapping_sub, test_bit, trailing_zeros, trailing_ones,
  leading_zeros, count_ones,
}

pub record BitSet : Type 0 where
  pub words : List ℕ

-- `self.words[k]`
unfoldable pub word : BitSet → ℕ → ℕ
word s k = get_or s.words k 0

-- `!((1u64 << b).wrapping_sub(1))`: the bits from `b` on.
unfoldable pub from_bit : ℕ → ℕ
from_bit b = complement (wrapping_sub (shl 1 b) 1)

first_zero_in : ℕ → List ℕ → ℕ → ℕ
first_zero_in base [] limit = min base limit
first_zero_in base (w ∷ ws) limit =
    if w == word_mod - 1
    then first_zero_in (base + 64) ws limit
    else min (base + trailing_ones w) limit

unfoldable pub first_zero : BitSet → ℕ → ℕ
unfolding first_zero_in
first_zero s limit = first_zero_in 0 s.words limit

-- The loop of `last_one` that goes through whole words down to the first.
last_one_down : BitSet → ℕ → Option ℕ
last_one_down s zero =
    if word s 0 == 0 then none else some (0 * 64 + (63 - leading_zeros (word s 0)))
last_one_down s (suc k) =
    let w = word s (suc k) in
    if w == 0 then last_one_down s k else some (suc k * 64 + (63 - leading_zeros w))

-- The loop of `count_ones_between` over the `k` whole words from `i` on.
count_words : BitSet → ℕ → ℕ → ℕ
count_words s i zero = 0
count_words s i (suc k) = count_ones (word s i) + count_words s (suc i) k

-- `unwrap_or(limit)`
abbrev or_limit : Option ℕ → ℕ → ℕ
or_limit none limit = limit
or_limit (some k) limit = k

module _ (n : ℕ) where
  unfoldable pub new : BitSet
  new = record { words = replicate n 0 }

  unfoldable pub get : BitSet → ℕ → Bool
  get s index =
      if leb (n * 64) index
      then false
      else not (bit_and (word s (index / 64)) (shl 1 (index % 64)) == 0)

  unfoldable pub set : BitSet → ℕ → BitSet × Bool
  set s index =
      let mask = shl 1 (index % 64) in
      let w = word s (index / 64) in
      if leb (n * 64) index
      then (s, false)
      else if bit_and w mask == 0
      then (record s { words = Prelude.set s.words (index / 64) (bit_or w mask) }, true)
      else (s, false)

  unfoldable pub unset : BitSet → ℕ → BitSet × Bool
  unset s index =
      let mask = shl 1 (index % 64) in
      let w = word s (index / 64) in
      if leb (n * 64) index
      then (s, false)
      else if not (bit_and w mask == 0)
      then (
        record s { words = Prelude.set s.words (index / 64) (bit_and w (complement mask)) },
        true,
      )
      else (s, false)

  unfoldable pub clear : BitSet → BitSet
  clear s = record s { words = replicate n 0 }

  unfoldable pub fill : BitSet → BitSet
  fill s = record s { words = replicate n (word_mod - 1) }

  next_zero_loop : ℕ → BitSet → ℕ → ℕ → Option ℕ
  next_zero_loop zero s idx limit = none
  next_zero_loop (suc rounds) s idx limit =
      let rest = next_zero_loop rounds s ((idx / 64 + 1) * 64) limit in
      let masked = bit_and (complement (word s (idx / 64))) (from_bit (idx % 64)) in
      let found = idx / 64 * 64 + trailing_zeros masked in
      if ltb idx limit
      then (if leb n (idx / 64)
          then some idx
          else if masked == 0
          then rest
          else if ltb found limit
          then some found
          else none)
      else none

  unfoldable pub next_zero : BitSet → ℕ → ℕ → Option ℕ
  unfolding next_zero_loop
  next_zero s start limit = next_zero_loop (suc n) s start limit

  next_one_loop : ℕ → BitSet → ℕ → ℕ → Option ℕ
  next_one_loop zero s idx limit = none
  next_one_loop (suc rounds) s idx limit =
      let rest = next_one_loop rounds s ((idx / 64 + 1) * 64) limit in
      let masked = bit_and (word s (idx / 64)) (from_bit (idx % 64)) in
      let found = idx / 64 * 64 + trailing_zeros masked in
      if ltb idx limit
      then (if leb n (idx / 64)
          then none
          else if masked == 0
          then rest
          else if ltb found limit
          then some found
          else none)
      else none

  unfoldable pub next_one : BitSet → ℕ → ℕ → Option ℕ
  unfolding next_one_loop
  next_one s start limit = next_one_loop (suc n) s start limit

  -- The casts to `u16` are written out.
  unfoldable pub next_range : BitSet → ℕ → ℕ → Option (ℕ × ℕ)
  unfolding next_one next_zero
  next_range s search_start limit = elim (next_one s search_start limit) [
    | none ↦ none
    | some start ↦ some (start % 2 ^ 16, or_limit (next_zero s start limit) limit % 2 ^ 16)
  ]

  unfoldable pub last_one : BitSet → ℕ → Option ℕ
  unfolding last_one_down
  last_one s upto =
      let limit = min upto (n * 64) in
      let word_idx = (limit - 1) / 64 in
      let bit_limit = (limit - 1) % 64 + 1 in
      let masked_word = bit_and (word s word_idx) (shl 1 bit_limit - 1) in
      if limit == 0
      then none
      else if ltb bit_limit 64
      then (if not (masked_word == 0)
          then some (word_idx * 64 + (63 - leading_zeros masked_word))
          else if word_idx == 0
          then none
          else last_one_down s (word_idx - 1))
      else last_one_down s word_idx

  unfoldable pub sack_mask : BitSet → ℕ → ℕ
  sack_mask s base_index =
      let word_idx = (base_index + 1) / 64 in
      let bit_idx = (base_index + 1) % 64 in
      let mask = shr (word s word_idx) bit_idx in
      if leb n word_idx
      then 0
      else if ltb 0 bit_idx && ltb (word_idx + 1) n
      then bit_or mask (shl (word s (word_idx + 1)) (64 - bit_idx))
      else mask

  unfoldable pub count_ones_between : BitSet → ℕ → ℕ → ℕ
  unfolding count_words
  count_ones_between s start upto =
      let end = min upto (n * 64) in
      let start_word = start / 64 in
      let end_word = (end - 1) / 64 in
      let start_mask = shl (word_mod - 1) (start % 64) in
      let end_mask = shr (word_mod - 1) (63 - (end - 1) % 64) in
      if leb end start
      then 0
      else if start_word == end_word
      then count_ones (bit_and (word s start_word) (bit_and start_mask end_mask))
      else count_ones (bit_and (word s start_word) start_mask)
        + count_words s (start_word + 1) (end_word - (start_word + 1))
        + count_ones (bit_and (word s end_word) end_mask)

-- What the type `[u64; N]` guarantees.
pub record IsValid (n : ℕ) (s : BitSet) : Type 0 where
  pub width : length s.words ≡ n
  pub small : All (λ w. w < word_mod) s.words

-- The bit at index `i`, read off the word that holds it.
abbrev pub bit : BitSet → ℕ → Bool
bit s i = test_bit (word s (i / 64)) (i % 64)
