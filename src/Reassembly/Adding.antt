-- ===== src/Reassembly/Adding.antt =====
-- `add_fragment` of tox-sequenced/src/reassembly/buffer.rs keeps the buffer's invariant.
use rs_toxcore_c.Prelude.{
  is_some, ℕ, zero, suc, ◌+◌, ◌-◌, ◌*◌, ◌%◌, ◌≤◌, ◌<◌, ◌≡◌, ◌≢◌, refl, sym, ap, ◌∙◌, Bool, true,
  false, ◌&&◌, ◌||◌, not, Option, none, some, List, [], ◌∷◌, ◌==◌, ltb, leb, if◌then◌else◌, arith,
  ◌⊎◌, inl, inr, lt-or-le, Bool-cases, length, get_or, length-set, get_or-set_self, get_or-set_ne,
  lt→ltb, le→ltb, lt→leb, le→leb, ==_iff, ==_refl,
}
use rs_toxcore_c.Prelude
use rs_toxcore_c.Prelude.Search.{Throughout, count_from, count_from_ext, count_from-le}
use rs_toxcore_c.Protocol.{bitset_words, max_fragments_per_message, u16_mod}
use rs_toxcore_c.BitSet
use rs_toxcore_c.BitSet.{BitSet}
use rs_toxcore_c.BitSet.Access.{set_lem}
use rs_toxcore_c.BitSet.Ranges.{IsBase}
use rs_toxcore_c.Reassembly.{
  FragmentBuffer, received, advance, next_base, note_size, store, add_fragment,
}
use rs_toxcore_c.Reassembly.Invariant.{IsValid, total_size}

-- One more place in the range: one more is counted.
pub count_from_insert :
    (p q : ℕ → Bool) (i lo n : ℕ)
    → lo ≤ i
    → i < lo + n
    → p i ≡ false
    → ((j : ℕ) → q j ≡ ((i == j) || p j))
    → count_from q lo n ≡ suc (count_from p lo n)
unfolding count_from
count_from_insert p q i lo zero a b e h = absurd (omega arith)
count_from_insert p q i lo (suc n) a b e h = elim (lt-or-le lo i) [
  | inl later ↦
      ground (arith, h lo, count_from_insert p q i (suc lo) n (omega arith) (omega arith) e h)
  | inr here ↦
      let same : i ≡ lo = omega arith in
      ground (arith, h lo, same, count_from_ext q p (suc lo) n (λ j c d. ground (arith, h j)))
]

-- Filling an empty slot adds its bytes.
pub total_size-set :
    (fs : List (Option (List ℕ))) (i : ℕ) (piece : List ℕ)
    → i < length fs
    → get_or fs i none ≡ none
    → total_size (Prelude.set fs i (some piece)) ≡ length piece + total_size fs
unfolding total_size
total_size-set [] i piece h e = absurd (omega arith)
total_size-set (none ∷ fs) zero piece h e = refl
total_size-set (some q ∷ fs) zero piece h e = cc
total_size-set (none ∷ fs) (suc i) piece h e = total_size-set fs i piece (omega arith) e
total_size-set (some q ∷ fs) (suc i) piece h e =
    omega (arith, total_size-set fs i piece (omega arith) e)

-- The loop stops at the first missing index.
advance-IsBase :
    (rounds : ℕ) (mask : BitSet) (total base : ℕ)
    → base + rounds ≡ total
    → total ≤ max_fragments_per_message
    → let p = BitSet.get bitset_words mask in
      Throughout p true 0 base → IsBase p 0 total (advance rounds mask total base)
unfolding advance
advance-IsBase zero mask total base e small ones = (omega arith, ones, λ l. absurd (omega arith))
advance-IsBase (suc rounds) mask total base e small ones =
    elim (Bool-cases (BitSet.get bitset_words mask base)) [
      | inl set' ↦
          let wrap : (base + 1) % u16_mod ≡ base + 1 = omega arith in
          rw (lt→ltb base total (omega arith), set', wrap)
            (advance-IsBase rounds mask total (base + 1) (omega arith) small (more set'))
      | inr clear ↦ rw (lt→ltb base total (omega arith), clear) (omega arith, ones, λ l. clear)
    ]
  where
    more :
        BitSet.get bitset_words mask base ≡ true
        → Throughout (BitSet.get bitset_words mask) true 0 (base + 1)
    more e j a b = elim (lt-or-le j base) [
      | inl l ↦ ones j a l
      | inr r ↦ let same : j ≡ base = omega arith in rw same e
    ]

-- Recording sizes leaves the rest of the buffer alone.
note_size_keeps :
    (b : FragmentBuffer) (index len : ℕ)
    → let c = note_size b index len in
      (c.fragments ≡ b.fragments)
      × (c.total_fragments ≡ b.total_fragments)
      × (c.received_mask ≡ b.received_mask)
      × (c.received_count ≡ b.received_count)
      × (c.current_size ≡ b.current_size)
      × (c.base_index ≡ b.base_index)
      × (c.highest_index ≡ b.highest_index)
unfolding note_size
note_size_keeps b index len = ground arith

-- What `store` leaves in each field that the invariant speaks of.
pub store_fields :
    (b : FragmentBuffer) (index : ℕ) (piece : List ℕ)
    → let c = store b index piece in
      let mask = (BitSet.set bitset_words b.received_mask index).0 in
      (c.fragments ≡ Prelude.set b.fragments index (some piece))
      × (c.total_fragments ≡ b.total_fragments)
      × (c.received_mask ≡ mask)
      × (c.received_count ≡ (b.received_count + 1) % u16_mod)
      × (c.current_size ≡ b.current_size + length piece)
      × (c.base_index ≡ next_base mask b.total_fragments index b.base_index)
      × (c.highest_index ≡ (if ltb b.highest_index index then index else b.highest_index))
unfolding store
store_fields b index piece =
    let (f, t, m, c, s, ba, h) = note_size_keeps b index (length piece) in
    (
      ap (λ x. Prelude.set x index (some piece)) f,
      t,
      ap (λ x. (BitSet.set bitset_words x index).0) m,
      ap (λ x. (x + 1) % u16_mod) c,
      ap (λ x. x + length piece) s,
      rw (m, t, ba),
      rw h,
    )

module _ {b : FragmentBuffer} (v : IsValid b) (index : ℕ) (piece : List ℕ)
    (inside : index < b.total_fragments) (missing : received b index ≡ false) where
  abbrev mask' : BitSet
  mask' = (BitSet.set bitset_words b.received_mask index).0

  pub received_insert : (j : ℕ) → BitSet.get bitset_words mask' j ≡ ((index == j) || received b j)
  received_insert j =
      ground (arith, (set_lem bitset_words v.mask index).2 j, v.small, lt→ltb index 1024)

  empty_slot : get_or b.fragments index none ≡ none
  empty_slot = none_of (get_or b.fragments index none) (sym (v.agrees index) ∙ missing)
    where
      none_of : (o : Option (List ℕ)) → is_some o ≡ false → o ≡ none
      none_of none e = refl
      none_of (some a) e = cc

  next_base-IsBase :
      IsBase
        (BitSet.get bitset_words mask')
        0
        b.total_fragments
        (next_base mask' b.total_fragments index b.base_index)
  unfolding next_base
  next_base-IsBase = elim (Bool-cases (index == b.base_index)) [
    | inl here ↦
        let wrap : (b.base_index + 1) % u16_mod ≡ b.base_index + 1 =
          omega (arith, v.small, v.based.0) in
        let same : index ≡ b.base_index = (==_iff index b.base_index).0 here in
        rw (here, wrap)
          (advance-IsBase (b.total_fragments - (b.base_index + 1)) mask' b.total_fragments
            (b.base_index + 1) (omega arith) v.small (λ j a c. longer same j c))
    | inr elsewhere ↦ rw elsewhere (
      v.based.0,
      λ j a c. ground (arith, received_insert j, v.based.1 j a c),
      λ l. ground (arith, received_insert b.base_index, v.based.2 l),
    )
  ]
    where
      longer :
          index ≡ b.base_index
          → (j : ℕ) → j < b.base_index + 1
          → BitSet.get bitset_words mask' j ≡ true
      longer same j h = ground (arith, received_insert j, v.based.1 j (omega arith))

  slot_filled :
      (i : ℕ)
      → is_some (get_or (Prelude.set b.fragments index (some piece)) i none)
        ≡ ((index == i) || received b i)
  slot_filled i = elim (Bool-cases (index == i)) [
    | inl e ↦
        rw
          (
            e,
            (==_iff index i).0 e,
            get_or-set_self b.fragments i (some piece) none
                (omega (arith, v.slots, (==_iff index i).0 e)),
          )
          refl
    | inr e ↦
        rw (e, get_or-set_ne b.fragments index i (some piece) none (λ q. ground arith))
          (sym (v.agrees i))
  ]

  pub store-IsValid : IsValid (store b index piece)
  store-IsValid =
      let (f, t, m, c, s, ba, h) = store_fields b index piece in
      record {
        small = rw t v.small;
        slots = rw (f, t) (length-set b.fragments index (some piece) ∙ v.slots);
        mask = rw m (set_lem bitset_words v.mask index).0;
        agrees = λ i. rw (m, f) (received_insert i ∙ sym (slot_filled i));
        counted = rw (c, m, t) counting;
        sized =
            rw (s, f)
              (omega (arith, total_size-set b.fragments index piece in_slots empty_slot, v.sized));
        based = rw (m, t, ba) next_base-IsBase;
        highest = λ i e. rw h (above i (rw m at e));
      }
    where
      in_slots : index < length b.fragments
      in_slots = omega (arith, v.slots)

      counting :
          (b.received_count + 1) % u16_mod
          ≡ count_from (BitSet.get bitset_words mask') 0 b.total_fragments
      counting = omega (
        arith,
        v.counted,
        v.small,
        count_from-le (received b) 0 b.total_fragments,
        count_from_insert (received b) (BitSet.get bitset_words mask') index 0 b.total_fragments
            (omega arith) (omega arith) missing received_insert,
      )

      above :
          (i : ℕ)
          → BitSet.get bitset_words mask' i ≡ true
          → i ≤ (if ltb b.highest_index index then index else b.highest_index)
      above i e = ground (arith, received_insert i, v.highest i)

-- `add_fragment` keeps the invariant, on every branch.
pub add_fragment-IsValid :
    {b : FragmentBuffer} (index : ℕ) (piece : List ℕ)
    → IsValid b
    → IsValid (add_fragment b index piece).0
unfolding add_fragment
add_fragment-IsValid {b} index piece v = elim (lt-or-le index b.total_fragments) [
  | inr beyond ↦ rw (le→leb _ _ beyond) v
  | inl inside ↦ elim (Bool-cases (received b index)) [
    | inl seen ↦ rw (lt→leb _ _ inside, seen) v
    | inr missing ↦ rw (lt→leb _ _ inside, missing) (store-IsValid v index piece inside missing)
  ]
]

-- How far `add_fragment` moves the size and the highest index.
pub add_fragment_bounds :
    (b : FragmentBuffer) (index : ℕ) (piece : List ℕ) (bound : ℕ)
    → b.total_fragments ≤ bound
    → b.highest_index ≤ bound
    → let c = (add_fragment b index piece).0 in
      (c.total_fragments ≡ b.total_fragments)
      × (c.current_size ≤ b.current_size + length piece)
      × (c.highest_index ≤ bound)
unfolding add_fragment
add_fragment_bounds b index piece bound h k = ground (arith, store_fields b index piece)
