-- ===== src/Reassembly.antt =====
-- tox-sequenced/src/reassembly: `buffer.rs`, the buffer of one message's fragments, here, and
-- `mod.rs`, the reassembler around it, in the child `Message`. A `&mut self` method returns the
-- new buffer beside its result. Bytes are only moved, so a byte is any number; sizes are `usize`
-- numbers far below its limit, and the `u16` counters are written with their wrap-around.
pub mod Invariant
pub mod Adding
pub mod Assembly
pub mod Message
pub mod Sizes
use rs_toxcore_c.Prelude.{
  ℕ, zero, suc, ◌+◌, ◌-◌, ◌*◌, ◌%◌, max, Bool, true, false, ◌&&◌, Option, none, some, List, [], ◌∷◌,
  ◌++◌, ◌==◌, ltb, leb, if◌then◌else◌, length, replicate, get_or,
}
use rs_toxcore_c.Prelude
use rs_toxcore_c.Protocol.{
  bitset_words, u16_mod, estimated_payload_size, SequencedError, Result, ok, err,
}
use rs_toxcore_c.BitSet
use rs_toxcore_c.BitSet.{BitSet}

pub record FragmentBuffer : Type 0 where
  pub fragments : List (Option (List ℕ))
  pub total_fragments : ℕ
  pub received_mask : BitSet
  pub received_count : ℕ
  pub current_size : ℕ
  pub full_fragment_size : Option ℕ
  pub last_fragment_size : Option ℕ
  pub base_index : ℕ
  pub highest_index : ℕ

-- `self.received_mask.get(i)`
abbrev pub received : FragmentBuffer → ℕ → Bool
received b i = BitSet.get bitset_words b.received_mask i

unfoldable pub new : ℕ → FragmentBuffer
new total_fragments = record {
  fragments = replicate total_fragments none;
  total_fragments = total_fragments;
  received_mask = BitSet.new bitset_words;
  received_count = 0;
  current_size = 0;
  full_fragment_size = none;
  last_fragment_size = none;
  base_index = 0;
  highest_index = 0;
}

unfoldable pub is_complete : FragmentBuffer → Bool
is_complete b = b.received_count == b.total_fragments

-- The sizes that the first statement of `add_fragment` after the guards records.
note_size : FragmentBuffer → ℕ → ℕ → FragmentBuffer
note_size b index len =
    if index == b.total_fragments - 1
    then record b { last_fragment_size = some len }
    else (elim b.full_fragment_size [
      | none ↦ record b { full_fragment_size = some len }
      | some current ↦ if ltb current len then record b { full_fragment_size = some len } else b
    ])

-- `while base < total && received_mask.get(base) { base += 1 }`, for the rounds that are left
-- below `total`.
advance : ℕ → BitSet → ℕ → ℕ → ℕ
advance zero mask total base = base
advance (suc rounds) mask total base =
    let rest = advance rounds mask total ((base + 1) % u16_mod) in
    if ltb base total && BitSet.get bitset_words mask base then rest else base

-- The base after fragment `index` has been marked in `mask`.
pub next_base : BitSet → ℕ → ℕ → ℕ → ℕ
unfolding advance
next_base mask total index base =
    if index == base then advance (total - (base + 1)) mask total ((base + 1) % u16_mod) else base

-- Everything that `add_fragment` does with a fragment that is in range and new.
pub store : FragmentBuffer → ℕ → List ℕ → FragmentBuffer
unfolding note_size next_base
store b index data' =
    let c = note_size b index (length data') in
    let mask = (BitSet.set bitset_words c.received_mask index).0 in
    record c {
      current_size = c.current_size + length data';
      fragments = Prelude.set c.fragments index (some data');
      received_mask = mask;
      received_count = (c.received_count + 1) % u16_mod;
      base_index = next_base mask c.total_fragments index c.base_index;
      highest_index = if ltb c.highest_index index then index else c.highest_index;
    }

unfoldable pub add_fragment : FragmentBuffer → ℕ → List ℕ → FragmentBuffer × Result Bool
unfolding store
add_fragment b index data' =
    if leb b.total_fragments index
    then (b, err SequencedError.invalid_fragment_index)
    else if received b index
    then (b, ok (is_complete b))
    else let c = store b index data' in (c, ok (is_complete c))

-- `fragments.into_iter().flatten()`, the pieces joined.
unfoldable pub join : List (Option (List ℕ)) → List ℕ
join [] = []
join (none ∷ fs) = join fs
join (some piece ∷ fs) = piece ++ join fs

unfoldable pub assemble : FragmentBuffer → Option (List ℕ)
unfolding is_complete
assemble b = if is_complete b then some (join b.fragments) else none

-- `unwrap_or`
abbrev or_size : Option ℕ → ℕ → ℕ
or_size none d = d
or_size (some n) d = n

-- `struct_overhead` is `FRAGMENT_STRUCT_OVERHEAD`, the size of an `Option<Vec<u8>>`, which the
-- compiler fixes.
module _ (struct_overhead : ℕ) where
  abbrev pub per_fragment_overhead : ℕ
  per_fragment_overhead = struct_overhead + 32

  unfoldable pub total_allocated_size : FragmentBuffer → ℕ
  total_allocated_size b = b.current_size + b.received_count * per_fragment_overhead

  unfoldable pub planned_total_size : FragmentBuffer → ℕ
  unfolding total_allocated_size
  planned_total_size b =
      let full_size = or_size b.full_fragment_size estimated_payload_size in
      let last_size = or_size b.last_fragment_size full_size in
      let estimated_payload =
        if b.total_fragments == 1
        then last_size
        else (b.total_fragments - 1) * full_size + last_size in
      if b.total_fragments == 0
      then 0
      else max (estimated_payload + b.total_fragments * per_fragment_overhead)
          (total_allocated_size b)
