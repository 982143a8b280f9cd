-- ===== src/Outgoing/Acks/Parts.antt =====
-- tox-sequenced/src/outgoing.rs: the parts of `on_ack` that work on one piece of the message:
-- collecting the acknowledged indices, the set of fragments to drop, and the two queues.
use rs_toxcore_c.Prelude.{
  ℕ, zero, suc, ◌+◌, ◌-◌, ◌*◌, ◌%◌, ◌^◌, min, max, bit_and, Bool, true, false, not, ◌&&◌, ◌||◌,
  Option, none, some, List, [], ◌∷◌, ◌++◌, ◌==◌, ltb, leb, if◌then◌else◌, length, is_some,
}
use rs_toxcore_c.Prelude
use rs_toxcore_c.Protocol.{bitset_words, max_fragments_per_message, u16_mod, fragment_index_add}
use rs_toxcore_c.Word.{complement, shl, trailing_zeros}
use rs_toxcore_c.BitSet
use rs_toxcore_c.BitSet.{BitSet}
use rs_toxcore_c.Outgoing.{OutgoingMessage, state_of}

-- `Option::is_none_or` and `Option::is_some_and`
abbrev pub is_none_or : {A : Type 0} → (A → Bool) → Option A → Bool
is_none_or p none = true
is_none_or p (some a) = p a

abbrev pub is_some_and : {A : Type 0} → (A → Bool) → Option A → Bool
is_some_and p none = false
is_some_and p (some a) = p a

-- `while let Some(idx) = acked_bitset.next_zero(curr, limit)`; each round moves `curr` on, so as
-- many rounds as `limit` are enough.
unfoldable pub unacked_below : ℕ → BitSet → ℕ → ℕ → List ℕ
unacked_below zero bits curr limit = []
unacked_below (suc rounds) bits curr limit = elim (BitSet.next_zero bitset_words bits curr limit) [
  | none ↦ []
  | some idx ↦ (idx % u16_mod) ∷ unacked_below rounds bits (idx + 1) limit
]

-- `while temp_mask != 0`; each round clears a bit of the 64.
unfoldable pub acked_in_mask : ℕ → BitSet → ℕ → ℕ → ℕ → List ℕ
acked_in_mask zero bits num base temp_mask = []
acked_in_mask (suc rounds) bits num base temp_mask =
    let i = trailing_zeros temp_mask in
    let rest = acked_in_mask rounds bits num base (bit_and temp_mask (complement (shl 1 i))) in
    let idx = fragment_index_add (fragment_index_add base 1) (i % u16_mod) in
    if temp_mask == 0
    then []
    else if ltb idx num && not (BitSet.get bitset_words bits idx)
    then idx ∷ rest
    else rest

unfoldable pub collect_acked_indices : OutgoingMessage → ℕ → ℕ → OutgoingMessage × List ℕ
collect_acked_indices m base_index bitmask =
    let limit = min base_index m.num_fragments in
    (
      record m { highest_cumulative_ack = max m.highest_cumulative_ack base_index },
      unacked_below limit m.acked_bitset m.highest_cumulative_ack limit
          ++ acked_in_mask 64 m.acked_bitset m.num_fragments base_index bitmask,
    )

-- `to_remove`, `needs_cleanup`
pub record Removals : Type 0 where
  pub to_remove : BitSet
  pub needs_cleanup : Bool

unfoldable pub mark_for_removal : ℕ → Removals → Removals
mark_for_removal idx r =
    if ltb idx max_fragments_per_message
    then record { to_remove = (BitSet.set bitset_words r.to_remove idx).0; needs_cleanup = true }
    else r

-- The part of the state that `trigger_loss` and `handle_fast_retransmit` change for a lost
-- fragment: it is queued for retransmission and is no longer in flight.
unfoldable pub requeue : OutgoingMessage → ℕ → OutgoingMessage
requeue m idx = record m {
  retransmit_queue = m.retransmit_queue ++ idx ∷ [];
  retransmit_bitset = (BitSet.set bitset_words m.retransmit_bitset idx).0;
  fragment_states =
      Prelude.set m.fragment_states idx (record (state_of m idx) { last_sent = none });
}

-- The bytes of the fragments that leave the queue, each fragment counted once, and the queue that
-- is left.
unfoldable pub cleanup : ℕ → ℕ → ℕ → BitSet → BitSet → List (ℕ × ℕ) → ℕ → List (ℕ × ℕ) × ℕ
cleanup num mtu data_len to_remove counted [] removed_bytes = ([], removed_bytes)
cleanup num mtu data_len to_remove counted ((idx, at) ∷ queue) removed_bytes =
    let (counted', fresh) = BitSet.set bitset_words counted idx in
    let counting = ltb idx num && fresh in
    let leaves = BitSet.get bitset_words to_remove idx in
    let size = min (idx * mtu + mtu) data_len - idx * mtu in
    let (kept, bytes) =
      cleanup num mtu data_len to_remove (if leaves && ltb idx num then counted' else counted) queue
        (if leaves && counting then removed_bytes + size else removed_bytes) in
    ((if leaves then kept else (idx, at) ∷ kept), bytes)

unfoldable pub cleanup_in_flight_queue : OutgoingMessage → BitSet → OutgoingMessage × ℕ
unfolding cleanup
cleanup_in_flight_queue m to_remove =
    let (queue, bytes) =
      cleanup m.num_fragments m.payload_mtu (length m.payload) to_remove (BitSet.new bitset_words)
        m.in_flight_queue 0 in
    (record m { in_flight_queue = queue }, bytes)

-- `retransmit_queue.retain(..)` with the bitset rebuilt from what is left.
unfoldable pub retain_unacked : OutgoingMessage → List ℕ → List ℕ
retain_unacked m [] = []
retain_unacked m (idx ∷ queue) =
    let rest = retain_unacked m queue in
    if leb m.num_fragments idx
    then rest
    else if BitSet.get bitset_words m.acked_bitset idx
    then rest
    else idx ∷ rest

unfoldable pub set_all : BitSet → List ℕ → BitSet
set_all bits [] = bits
set_all bits (idx ∷ queue) = set_all (BitSet.set bitset_words bits idx).0 queue

unfoldable pub prune_retransmits : OutgoingMessage → OutgoingMessage
unfolding retain_unacked set_all
prune_retransmits m =
    let queue = retain_unacked m m.retransmit_queue in
    record m {
      retransmit_queue = queue;
      retransmit_bitset = set_all (BitSet.clear bitset_words m.retransmit_bitset) queue;
    }
