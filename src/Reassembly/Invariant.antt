-- ===== src/Reassembly/Invariant.antt =====
-- The invariant of `FragmentBuffer` (tox-sequenced/src/reassembly/buffer.rs), and that a new
-- buffer has it.
use rs_toxcore_c.Prelude.{
  ℕ, zero, suc, ◌+◌, ◌≤◌, ◌≡◌, refl, sym, true, Option, none, some, List, [], ◌∷◌, arith, length,
  get_or, replicate, length-replicate, get_or-replicate, is_some,
}
use rs_toxcore_c.Prelude.Search.{count_from, count_from-zero}
use rs_toxcore_c.Protocol.{bitset_words, max_fragments_per_message}
use rs_toxcore_c.BitSet
use rs_toxcore_c.BitSet.Access.{new-IsValid, get-new}
use rs_toxcore_c.BitSet.Ranges.{IsBase}
use rs_toxcore_c.Reassembly.{FragmentBuffer, received, new}

-- The bytes that a list of optional fragments holds.
unfoldable pub total_size : List (Option (List ℕ)) → ℕ
total_size [] = 0
total_size (none ∷ fs) = total_size fs
total_size (some piece ∷ fs) = length piece + total_size fs

-- The bit of a fragment is set exactly if its slot is filled; the counters count the set bits and
-- the stored bytes; the base is the first missing index; no received index is above the highest.
pub record IsValid (b : FragmentBuffer) : Type 0 where
  pub small : b.total_fragments ≤ max_fragments_per_message
  pub slots : length b.fragments ≡ b.total_fragments
  pub mask : BitSet.IsValid bitset_words b.received_mask
  pub agrees : (i : ℕ) → received b i ≡ is_some (get_or b.fragments i none)
  pub counted : b.received_count ≡ count_from (received b) 0 b.total_fragments
  pub sized : b.current_size ≡ total_size b.fragments
  pub based : IsBase (received b) 0 b.total_fragments b.base_index
  pub highest : (i : ℕ) → received b i ≡ true → i ≤ b.highest_index

total_size-replicate : (n : ℕ) → total_size (replicate n none) ≡ 0
unfolding total_size
total_size-replicate zero = refl
total_size-replicate (suc n) = total_size-replicate n

pub new-IsValid_lem : (total : ℕ) → total ≤ max_fragments_per_message → IsValid (new total)
unfolding new
new-IsValid_lem total h = record {
  small = h;
  slots = length-replicate total none;
  mask = new-IsValid bitset_words;
  agrees = λ i. rw (get-new bitset_words i, get_or-replicate {A = Option (List ℕ)} total i none);
  counted = sym (count_from-zero _ 0 total (λ j a b. get-new bitset_words j));
  sized = sym (total_size-replicate total);
  based = (omega arith, λ j a b. absurd (omega arith), λ l. get-new bitset_words 0);
  highest = λ i e. absurd (cc (get-new bitset_words i));
}
