-- ===== src/Tests/Sets.antt =====
-- Runs of tox-sequenced/src/bitset.rs on a set of one word, with the indices 0 and 2 in it.
use rs_toxcore_c.Prelude.{false}
use rs_toxcore_c.Prelude.Search.{IsFirst}
use rs_toxcore_c.BitSet.{BitSet, IsValid, new, get, set, next_zero}
use rs_toxcore_c.BitSet.Access.{new-IsValid, set_lem}
use rs_toxcore_c.BitSet.First.{next_zero-IsFirst}

abbrev one_bit : BitSet
one_bit = (set 1 (new 1) 0).0

abbrev two_bits : BitSet
two_bits = (set 1 one_bit 2).0

one_bit-IsValid : IsValid 1 one_bit
one_bit-IsValid = (set_lem 1 (new-IsValid 1) 0).0

two_bits-IsValid : IsValid 1 two_bits
two_bits-IsValid = (set_lem 1 one_bit-IsValid 2).0

next_zero-IsFirst_example : IsFirst (get 1 two_bits) false 0 64 (next_zero 1 two_bits 0 64)
next_zero-IsFirst_example = next_zero-IsFirst 1 two_bits-IsValid 0 64
