-- ===== src/Word.antt =====
-- The machine operations on `u64` that tox-sequenced/src/bitset.rs uses, on numbers below
-- 2 ^ 64: the shifts, `!`, `wrapping_sub`, and the counting intrinsics of `core`.
pub mod Step
pub mod Bits
pub mod Scan
use rs_toxcore_c.Prelude.{
  ℕ, zero, suc, ◌+◌, ◌-◌, ◌*◌, ◌/◌, ◌%◌, ◌^◌, Bool, not, ◌==◌, if◌then◌else◌,
}

abbrev pub word_mod : ℕ
word_mod = 2 ^ 64

-- `!w`
unfoldable pub complement : ℕ → ℕ
complement w = word_mod - 1 - w

-- `w << k` drops the bits that leave the word.
unfoldable pub shl : ℕ → ℕ → ℕ
shl w k = w * 2 ^ k % word_mod

-- `w >> k`
unfoldable pub shr : ℕ → ℕ → ℕ
shr w k = w / 2 ^ k

unfoldable pub wrapping_sub : ℕ → ℕ → ℕ
wrapping_sub a b = (a + word_mod - b) % word_mod

-- The bit of `w` at place `i`.
unfoldable pub test_bit : ℕ → ℕ → Bool
test_bit w zero = w % 2 == 1
test_bit w (suc i) = test_bit (w / 2) i

-- The number of zeros below the lowest one, at most the width.
unfoldable pub trailing_zeros_in : ℕ → ℕ → ℕ
trailing_zeros_in zero w = 0
trailing_zeros_in (suc n) w =
    let rest = trailing_zeros_in n (w / 2) in if w % 2 == 1 then 0 else suc rest

unfoldable pub trailing_zeros : ℕ → ℕ
trailing_zeros w = trailing_zeros_in 64 w

unfoldable pub trailing_ones : ℕ → ℕ
unfolding trailing_zeros complement
trailing_ones w = trailing_zeros (complement w)

-- The number of zeros above the highest one, at most the width.
unfoldable pub leading_zeros_in : ℕ → ℕ → ℕ
unfolding test_bit
leading_zeros_in zero w = 0
leading_zeros_in (suc n) w = let rest = leading_zeros_in n w in if test_bit w n then 0 else suc rest

unfoldable pub leading_zeros : ℕ → ℕ
unfolding leading_zeros_in
leading_zeros w = leading_zeros_in 64 w

unfoldable pub count_ones_in : ℕ → ℕ → ℕ
count_ones_in zero w = 0
count_ones_in (suc n) w = w % 2 + count_ones_in n (w / 2)

unfoldable pub count_ones : ℕ → ℕ
unfolding count_ones_in
count_ones w = count_ones_in 64 w
