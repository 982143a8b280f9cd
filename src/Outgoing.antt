-- ===== src/Outgoing.antt =====
-- tox-sequenced/src/outgoing.rs: a message that is being sent. Here the state and what sends a
-- fragment; the child `Acks` has what an acknowledgement does. A `&mut self` method returns the new
-- message beside its result. An `Instant` and a `Duration` are numbers on one scale, so
-- `saturating_duration_since` is the subtraction that stops at 0.
-- An index into `fragment_states` is in range where the code is called with an index of the
-- message; out of range, where the code panics, a read gives `unsent` and a write does nothing.
pub mod Acks
pub mod Fragments
pub mod Invariant
use rs_toxcore_c.Prelude.{
  ℕ, ◌+◌, ◌-◌, ◌*◌, ◌/◌, ◌%◌, min, Bool, true, false, Option, none, some, List, [], ◌∷◌, ◌++◌, ◌==◌,
  ltb, leb, if◌then◌else◌, length, replicate, get_or, take, drop, is_some,
}
use rs_toxcore_c.Prelude
use rs_toxcore_c.Protocol.{
  MessageType, bitset_words, max_fragments_per_message, u16_mod, u32_mod, SequencedError, Result,
  ok, err,
}
use rs_toxcore_c.BitSet
use rs_toxcore_c.BitSet.{BitSet}

pub record FragmentDeliveryInfo : Type 0 where
  pub delivered_at_send : ℕ
  pub delivery_time_at_send : ℕ
  pub first_sent_time : ℕ
  pub size : ℕ
  pub app_limited : Bool

pub record FragmentState : Type 0 where
  pub last_sent : Option ℕ
  pub delivery_info : Option FragmentDeliveryInfo
  pub retransmit_count : ℕ
  pub rto_backoff : ℕ

abbrev pub unsent : FragmentState
unsent = record { last_sent = none; delivery_info = none; retransmit_count = 0; rto_backoff = 0 }

pub record OutgoingMessage : Type 0 where
  pub message_type : MessageType
  pub payload : List ℕ
  pub payload_mtu : ℕ
  pub num_fragments : ℕ
  pub acked_bitset : BitSet
  pub acked_count : ℕ
  pub highest_cumulative_ack : ℕ
  pub next_fragment : ℕ
  pub retransmit_queue : List ℕ
  pub retransmit_bitset : BitSet
  pub in_flight_queue : List (ℕ × ℕ)
  pub fragment_states : List FragmentState
  pub created_at : ℕ
  pub last_ack_at : ℕ
  pub timeout : ℕ
  pub dup_ack_count : ℕ
  pub last_ack_base : ℕ
  pub highest_sent_time_acked : Option ℕ

-- `div_ceil`; the code panics at a divisor of 0.
abbrev pub div_ceil : ℕ → ℕ → ℕ
div_ceil a b = (a + b - 1) / b

-- The number of fragments, with the cast to `u16` that the code makes before it checks the limit.
unfoldable pub fragment_count : List ℕ → ℕ → ℕ
fragment_count payload payload_mtu =
    (if length payload == 0 then 0 else div_ceil (length payload) payload_mtu) % u16_mod

-- The message that `new` makes, with its number of fragments. `thirty_seconds` is
-- `Duration::from_secs(30)` on the scale of the times.
unfoldable pub fresh : ℕ → MessageType → List ℕ → ℕ → ℕ → ℕ → OutgoingMessage
fresh thirty_seconds message_type payload payload_mtu now num_fragments = record {
  message_type = message_type;
  payload = payload;
  payload_mtu = payload_mtu;
  num_fragments = num_fragments;
  acked_bitset = BitSet.new bitset_words;
  acked_count = 0;
  highest_cumulative_ack = 0;
  next_fragment = 0;
  retransmit_queue = [];
  retransmit_bitset = BitSet.new bitset_words;
  in_flight_queue = [];
  fragment_states = replicate num_fragments unsent;
  created_at = now;
  last_ack_at = now;
  timeout = thirty_seconds;
  dup_ack_count = 0;
  last_ack_base = 0;
  highest_sent_time_acked = none;
}

unfoldable pub new : ℕ → MessageType → List ℕ → ℕ → ℕ → Result OutgoingMessage
new thirty_seconds message_type payload payload_mtu now =
    let num_fragments = fragment_count payload payload_mtu in
    if ltb max_fragments_per_message num_fragments
    then err SequencedError.message_too_large
    else ok (fresh thirty_seconds message_type payload payload_mtu now num_fragments)

unfoldable pub is_acked : OutgoingMessage → ℕ → Bool
is_acked m index =
    if leb m.num_fragments index then true else BitSet.get bitset_words m.acked_bitset index

unfoldable pub set_acked : OutgoingMessage → ℕ → OutgoingMessage × Bool
set_acked m index =
    let (bits, added) = BitSet.set bitset_words m.acked_bitset index in
    if leb m.num_fragments index
    then (m, false)
    else if added
    then (record m { acked_bitset = bits; acked_count = (m.acked_count + 1) % u16_mod }, true)
    else (record m { acked_bitset = bits }, false)

unfoldable pub all_acked : OutgoingMessage → Bool
all_acked m = m.acked_count == m.num_fragments

unfoldable pub fragment_len : OutgoingMessage → ℕ → ℕ
fragment_len m idx =
    let start = idx * m.payload_mtu in
    if leb m.num_fragments idx then 0 else min (start + m.payload_mtu) (length m.payload) - start

unfoldable pub get_fragment : OutgoingMessage → ℕ → List ℕ
get_fragment m idx =
    let start = idx * m.payload_mtu in
    if leb m.num_fragments idx
    then []
    else take (min (start + m.payload_mtu) (length m.payload) - start) (drop start m.payload)

-- `fragment_states[idx]`
unfoldable pub state_of : OutgoingMessage → ℕ → FragmentState
state_of m idx = get_or m.fragment_states idx unsent

-- The state of a fragment after it was sent.
unfoldable pub sent_state : FragmentState → ℕ → ℕ → ℕ → Bool → ℕ → FragmentState
sent_state state now delivered_bytes last_delivery_time app_limited fragment_size =
    elim state.delivery_info [
      | some info ↦ record state {
        last_sent = some now;
        retransmit_count = (state.retransmit_count + 1) % u32_mod;
      }
      | none ↦ record state {
        last_sent = some now;
        delivery_info = some (record {
          delivered_at_send = delivered_bytes;
          delivery_time_at_send = last_delivery_time;
          first_sent_time = now;
          size = fragment_size;
          app_limited = app_limited;
        });
      }
    ]

unfoldable pub mark_fragment_sent :
    OutgoingMessage → ℕ → ℕ → ℕ → ℕ → Bool → ℕ → OutgoingMessage × Bool × Bool
unfolding state_of sent_state
mark_fragment_sent m idx now delivered_bytes last_delivery_time app_limited fragment_size =
    let state = state_of m idx in
    let state' =
      sent_state state now delivered_bytes last_delivery_time app_limited fragment_size in
    (
      record m {
        fragment_states = Prelude.set m.fragment_states idx state';
        in_flight_queue = m.in_flight_queue ++ (idx, now) ∷ [];
      },
      is_some state.delivery_info,
      is_some state.last_sent,
    )

unfoldable pub prepare_fragment_for_send :
    OutgoingMessage → ℕ → ℕ → ℕ → ℕ → Bool → OutgoingMessage × List ℕ × ℕ × Bool × Bool
unfolding get_fragment mark_fragment_sent
prepare_fragment_for_send m idx now delivered_bytes last_delivery_time app_limited =
    let fragment = get_fragment m idx in
    let (m', is_retransmission, was_in_flight) =
      mark_fragment_sent m idx now delivered_bytes last_delivery_time app_limited
        (length fragment) in
    (m', fragment, m.num_fragments, is_retransmission, was_in_flight)
