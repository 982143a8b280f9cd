-- ===== src/Reassembly/Message.antt =====
-- tox-sequenced/src/reassembly/mod.rs: `MessageReassembler`, with the acknowledgements that it
-- sends. A time is any number; `u16` casts are written out.
use rs_toxcore_c.Prelude.{
  ℕ, zero, suc, ◌+◌, ◌-◌, ◌%◌, ◌≤◌, ◌<◌, ◌≡◌, refl, ◌∙◌, Bool, true, false, ◌||◌, Option, none,
  some, List, [], ◌∷◌, ◌==◌, ltb, leb, if◌then◌else◌, arith, ◌⊎◌, inl, inr, lt-or-le, Option-cases,
  length, lt→ltb, le→ltb, subst,
}
use rs_toxcore_c.Prelude.Search.{Throughout, IsFirst}
use rs_toxcore_c.Protocol.{
  Priority, SelectiveAck, Nack, bitset_words, max_fragments_per_message, max_message_size, u16_mod,
  SequencedError, Result, ok, err,
}
use rs_toxcore_c.Word.{test_bit}
use rs_toxcore_c.BitSet
use rs_toxcore_c.BitSet.{BitSet}
use rs_toxcore_c.BitSet.First.{next_zero-IsFirst}
use rs_toxcore_c.BitSet.Ranges.{sack_mask-get}
use rs_toxcore_c.Reassembly
use rs_toxcore_c.Reassembly.{FragmentBuffer, received}
use rs_toxcore_c.Reassembly.Invariant.{IsValid, new-IsValid_lem}
use rs_toxcore_c.Reassembly.Adding.{add_fragment-IsValid, add_fragment_bounds}

pub record MessageReassembler : Type 0 where
  pub message_id : ℕ
  pub total_fragments : ℕ
  pub priority : Priority
  pub buffer : FragmentBuffer
  pub reserved_bytes : ℕ
  pub last_activity : ℕ

unfoldable pub new : ℕ → ℕ → Priority → ℕ → ℕ → Result MessageReassembler
new message_id total_fragments priority reserved_bytes now =
    if total_fragments == 0 || ltb max_fragments_per_message total_fragments
    then err SequencedError.invalid_total_fragments
    else ok (record {
      message_id = message_id;
      total_fragments = total_fragments;
      priority = priority;
      buffer = Reassembly.new total_fragments;
      reserved_bytes = reserved_bytes;
      last_activity = now;
    })

pub is_received : MessageReassembler → ℕ → Bool
is_received m index = if leb m.total_fragments index then false else received m.buffer index

unfoldable pub add_fragment : MessageReassembler → ℕ → List ℕ → ℕ → MessageReassembler × Result Bool
add_fragment m index data' now =
    let touched = record m { last_activity = now } in
    if ltb max_message_size (touched.buffer.current_size + length data')
    then (touched, err SequencedError.message_too_large)
    else let (buffer, result) = Reassembly.add_fragment touched.buffer index data' in
      (record touched { buffer = buffer }, result)

pub create_ack : MessageReassembler → ℕ → SelectiveAck
create_ack m rwnd_fragments = record {
  message_id = m.message_id;
  base_index = m.buffer.base_index;
  bitmask = BitSet.sack_mask bitset_words m.buffer.received_mask m.buffer.base_index;
  rwnd = rwnd_fragments;
}

-- The loop of `create_nack`; at most `rounds` indices are pushed before it breaks.
missing_from : ℕ → BitSet → ℕ → ℕ → List ℕ
missing_from zero mask limit curr = []
missing_from (suc rounds) mask limit curr = elim (BitSet.next_zero bitset_words mask curr limit) [
  | none ↦ []
  | some idx ↦
      let zero_idx = idx % u16_mod in
      zero_idx ∷ missing_from rounds mask limit ((zero_idx + 1) % u16_mod)
]

pub create_nack : MessageReassembler → ℕ → Option Nack
unfolding missing_from
create_nack m base_index =
    elim (missing_from 128 m.buffer.received_mask m.buffer.highest_index base_index) [
      | [] ↦ none
      | first ∷ rest ↦ some (record { message_id = m.message_id; missing_indices = first ∷ rest })
    ]

-- A reassembler as `new` makes it and as the fragments leave it.
pub record IsLive (m : MessageReassembler) : Type 0 where
  pub buffered : IsValid m.buffer
  pub same_total : m.buffer.total_fragments ≡ m.total_fragments
  pub nonempty : 1 ≤ m.total_fragments
  pub within : m.buffer.current_size ≤ max_message_size
  pub reached : m.buffer.highest_index ≤ max_fragments_per_message

-- `new` succeeds exactly for 1 to 1024 fragments, and what it makes is well formed.
pub new-IsLive :
    (id total : ℕ) (p : Priority) (reserved now : ℕ)
    → (1 ≤ total
        → total ≤ max_fragments_per_message
        → (m : MessageReassembler) × (new id total p reserved now ≡ ok m)
          × IsLive m
          × (m.total_fragments ≡ total))
      × ((total ≡ 0) ⊎ (max_fragments_per_message < total)
          → new id total p reserved now ≡ err SequencedError.invalid_total_fragments)
unfolding new
new-IsLive id total p reserved now =
    (λ a b. (made, ground arith, live a b, refl), λ h. ground arith)
  where
    made : MessageReassembler
    made = record {
      message_id = id;
      total_fragments = total;
      priority = p;
      buffer = Reassembly.new total;
      reserved_bytes = reserved;
      last_activity = now;
    }

    live : 1 ≤ total → total ≤ max_fragments_per_message → IsLive made
    live a b = record {
      buffered = new-IsValid_lem total b;
      same_total = unfold Reassembly.new in refl;
      nonempty = a;
      within = unfold Reassembly.new in omega arith;
      reached = unfold Reassembly.new in omega arith;
    }

-- `add_fragment` keeps a well-formed reassembler well formed, and its bytes within `MAX_MESSAGE_SIZE`.
pub add_fragment-IsLive :
    {m : MessageReassembler} (index : ℕ) (data' : List ℕ) (now : ℕ)
    → IsLive m
    → IsLive (add_fragment m index data' now).0
unfolding add_fragment
add_fragment-IsLive {m} index data' now v =
    elim (lt-or-le max_message_size (m.buffer.current_size + length data')) [
      | inl over ↦ rw (lt→ltb _ _ over) (record {
        buffered = v.buffered;
        same_total = v.same_total;
        nonempty = v.nonempty;
        within = v.within;
        reached = v.reached;
      })
      | inr fits ↦
          let (t, s, r) =
            add_fragment_bounds m.buffer index data' max_fragments_per_message v.buffered.small
              v.reached in
          rw (le→ltb _ _ fits) (record {
            buffered = add_fragment-IsValid index data' v.buffered;
            same_total = t ∙ v.same_total;
            nonempty = v.nonempty;
            within = omega arith;
            reached = r;
          })
    ]

-- Bit `i` of an acknowledgement's mask tells whether fragment `base + 1 + i` has been received,
-- for `i` below 64; all fragments below the base have been, and the one at the base has not unless
-- all have. The reassembler must be well formed.
pub create_ack_lem :
    {m : MessageReassembler} (rwnd : ℕ)
    → IsLive m
    → let ack = create_ack m rwnd in
      Throughout (received m.buffer) true 0 ack.base_index
      × (ack.base_index < m.total_fragments → received m.buffer ack.base_index ≡ false)
      × ((i : ℕ) → i < 64 → test_bit ack.bitmask i ≡ received m.buffer (ack.base_index + 1 + i))
unfolding create_ack
create_ack_lem {m} rwnd v = (
  v.buffered.based.1,
  λ h. v.buffered.based.2 (omega (arith, v.same_total)),
  λ i h. sack_mask-get bitset_words v.buffered.mask m.buffer.base_index i h,
)

-- The places from `lo` below `hi` where `p` fails, in order, at most `rounds` of them.
abbrev pub IsGaps : (ℕ → Bool) → ℕ → ℕ → ℕ → List ℕ → Type 0
IsGaps p rounds lo hi [] = (rounds ≡ 0) ⊎ Throughout p true lo hi
IsGaps p rounds lo hi (k ∷ ks) =
    (1 ≤ rounds)
    × (lo ≤ k)
    × (k < hi)
    × (p k ≡ false)
    × Throughout p true lo k
    × IsGaps p (rounds - 1) (k + 1) hi ks

missing_from-IsGaps :
    (rounds : ℕ) {mask : BitSet} (limit curr : ℕ)
    → BitSet.IsValid bitset_words mask
    → limit < u16_mod
    → IsGaps (BitSet.get bitset_words mask) rounds curr limit (missing_from rounds mask limit curr)
unfolding missing_from
missing_from-IsGaps zero limit curr v h = inl refl
missing_from-IsGaps (suc rounds) {mask} limit curr v h =
    elim (Option-cases (BitSet.next_zero bitset_words mask curr limit)) [
      | inl e ↦ rw (e, missing_from) (inr (subst (IsFirst p false curr limit) e first))
      | inr (k, e) ↦
          rw (e, missing_from)
            (found k (subst (IsFirst p false curr limit) e first)
              (missing_from-IsGaps rounds limit (k + 1) v h))
    ]
  where
    p : ℕ → Bool
    p = BitSet.get bitset_words mask

    first : IsFirst p false curr limit (BitSet.next_zero bitset_words mask curr limit)
    first = next_zero-IsFirst bitset_words v curr limit

    found :
        (k : ℕ)
        → IsFirst p false curr limit (some k)
        → IsGaps p rounds (k + 1) limit (missing_from rounds mask limit (k + 1))
        → IsGaps p
            (suc rounds)
            curr
            limit
            (k % u16_mod ∷ missing_from rounds mask limit ((k % u16_mod + 1) % u16_mod))
    found k f g =
        let e : k % u16_mod ≡ k = omega (arith, f.1) in
        let e' : (k + 1) % u16_mod ≡ k + 1 = omega (arith, f.1) in
        let e'' : suc rounds - 1 ≡ rounds = omega arith in
        rw (e, e', e'') (omega arith, f.0, f.1, f.2, f.3, g)

-- The indices that a request names.
abbrev pub requested : Option Nack → List ℕ
requested none = []
requested (some nack) = nack.missing_indices

requested-create_nack :
    (m : MessageReassembler) (base : ℕ)
    → requested (create_nack m base)
      ≡ missing_from 128 m.buffer.received_mask m.buffer.highest_index base
unfolding create_nack
requested-create_nack m base =
    cases (missing_from 128 m.buffer.received_mask m.buffer.highest_index base) refl
  where
    cases :
        (l : List ℕ)
        → missing_from 128 m.buffer.received_mask m.buffer.highest_index base ≡ l
        → requested (create_nack m base)
          ≡ missing_from 128 m.buffer.received_mask m.buffer.highest_index base
    cases [] e = rw (e, create_nack)
    cases (k ∷ ks) e = rw (e, create_nack)

-- A request for retransmission names the fragments that are missing from `base` below the highest
-- one received, in their order: all of them, or the first 128. The reassembler must be well formed.
pub create_nack-IsGaps :
    {m : MessageReassembler} (base : ℕ)
    → IsLive m
    → IsGaps (received m.buffer) 128 base m.buffer.highest_index (requested (create_nack m base))
create_nack-IsGaps {m} base v =
    rw (requested-create_nack m base) (
      missing_from-IsGaps 128 m.buffer.highest_index base v.buffered.mask
        (omega (arith, v.reached)))
