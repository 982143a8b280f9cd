-- ===== src/Session/Transmit.antt =====
-- tox-sequenced/src/session.rs: what a session hands to the transport. The closure `sender` is a
-- function on the transport's state, which says whether the transport accepts the packet.
pub mod Refusal
use native.Mathlib.Decide.{ℕ_discrete}
use rs_toxcore_c.Prelude.{
  ℕ, suc, ◌+◌, ◌-◌, ◌*◌, ◌/◌, ◌%◌, ◌^◌, max, Bool, true, false, not, ◌&&◌, ◌||◌, Option, none, some,
  List, [], ◌∷◌, ◌++◌, ltb, leb, if◌then◌else◌, length,
}
use rs_toxcore_c.Prelude
use rs_toxcore_c.Protocol.{
  Packet, SelectiveAck, Nack, estimated_payload_size, bitset_words, u32_mod,
}
use rs_toxcore_c.BitSet
use rs_toxcore_c.Rtt
use rs_toxcore_c.Rtt.{millis, seconds, rto_with_backoff}
use rs_toxcore_c.FlatMap
use rs_toxcore_c.Reassembly.Message.{MessageReassembler, create_ack, create_nack}
use rs_toxcore_c.Outgoing.{
  OutgoingMessage, FragmentState, state_of, get_fragment, fragment_len, mark_fragment_sent,
}
use rs_toxcore_c.Session.{CongestionControl, Platform, SequenceSession, current_rwnd}

abbrev pub ping_interval_idle : ℕ
ping_interval_idle = seconds 60

abbrev pub ping_interval_active : ℕ
ping_interval_active = seconds 10

abbrev pub delayed_ack_timeout : ℕ
delayed_ack_timeout = millis 40

-- `is_empty`
unfoldable pub is_empty : {A : Type 0} → List A → Bool
is_empty [] = true
is_empty (x ∷ xs) = false

unfoldable pub ping_interval : {C : Type 0} → SequenceSession C → ℕ
unfolding is_empty
ping_interval s =
    if not (is_empty s.outgoing.entries) || not (is_empty s.incoming.entries)
    then ping_interval_active
    else ping_interval_idle

-- The message as it is after a fragment of it was sent again because of its age.
unfoldable pub timed_out : ℕ → OutgoingMessage → OutgoingMessage
timed_out idx msg =
    let state = state_of msg idx in
    record msg {
      fragment_states =
          Prelude.set msg.fragment_states idx
            (record state { rto_backoff = (state.rto_backoff + 1) % u32_mod });
      in_flight_queue = Prelude.drop 1 msg.in_flight_queue;
    }

-- The message without the front of its queue of retransmissions.
unfoldable pub popped : ℕ → OutgoingMessage → OutgoingMessage
popped idx msg = record msg {
  retransmit_queue = Prelude.drop 1 msg.retransmit_queue;
  retransmit_bitset = (BitSet.unset bitset_words msg.retransmit_bitset idx).0;
}

unfoldable pub advanced : OutgoingMessage → OutgoingMessage
advanced msg = record msg { next_fragment = msg.next_fragment + 1 }

module _ {C Rate T : Type 0} (cc : CongestionControl C Rate) (env : Platform Rate)
    (sender : T → Packet → T × Bool) where
  -- The time until the next packet, after one of so many bytes.
  unfoldable pub gap : Rate → ℕ → ℕ
  gap rate bytes = if env.is_usable rate then env.time_at bytes rate else 0

  unfoldable pub flush_ping : SequenceSession C → T → ℕ → ℕ → SequenceSession C × T
  flush_ping s t now now_ms =
      let (t', accepted) = sender t (Packet.ping now_ms) in
      if leb (ping_interval s) (now - s.last_ping)
      then (
        (if accepted
            then record s { last_ping = now; last_ping_sent = some now; last_activity = now }
            else s),
        t',
      )
      else (s, t)

  unfoldable pub datagram_len : Packet → ℕ
  datagram_len (Packet.datagram message_type bytes) = length bytes + 10
  datagram_len other = 0

  -- `while self.datagram_queue.front().is_some()`; the queue stands beside the session.
  unfoldable pub flush_datagrams : List Packet → SequenceSession C → T → ℕ → SequenceSession C × T
  unfolding gap datagram_len
  flush_datagrams [] s t now = (record s { datagram_queue = [] }, t)
  flush_datagrams (dg ∷ queue) s t now =
      let (t', accepted) = sender t dg in
      let gap_time = gap (cc.pacing_rate s.congestion_control) (datagram_len dg) in
      let rest =
        flush_datagrams queue
          (record s {
            last_activity = now;
            next_pacing_time = max s.next_pacing_time now + gap_time;
          })
          t' now in
      if ltb now s.next_pacing_time
      then (record s { datagram_queue = dg ∷ queue }, t)
      else if accepted
      then rest
      else (record s { datagram_queue = queue }, t')

  -- What a fragment that the transport has accepted changes.
  unfoldable pub note_sent : SequenceSession C → ℕ → ℕ → ℕ → OutgoingMessage → SequenceSession C
  unfolding gap
  note_sent s id idx now msg =
      let len = fragment_len msg idx in
      let rate = cc.pacing_rate s.congestion_control in
      let cwnd = cc.cwnd s.congestion_control in
      let app_limited =
        if leb (cwnd * estimated_payload_size) (s.in_flight + len) then false else s.app_limited in
      let (msg', is_retransmission, was_in_flight) =
        mark_fragment_sent msg idx now s.delivered_bytes s.last_delivery_time app_limited len in
      record s {
        app_limited = app_limited;
        outgoing = FlatMap.update ℕ_discrete s.outgoing id (λ _. msg');
        in_flight = (if was_in_flight then s.in_flight - len else s.in_flight) + len;
        retransmit_count = if was_in_flight then s.retransmit_count + 1 else s.retransmit_count;
        congestion_control = cc.on_fragment_sent s.congestion_control len now;
        last_activity = now;
        next_pacing_time = max s.next_pacing_time now + gap rate len;
      }

  unfoldable pub try_send_fragment :
      SequenceSession C → T → ℕ → ℕ → ℕ → SequenceSession C × T × Bool
  unfolding note_sent
  try_send_fragment s t id idx now = elim (FlatMap.get ℕ_discrete s.outgoing id) [
    | none ↦ (s, t, false)
    | some msg ↦
        let (t', accepted) =
          sender t (Packet.fragment id idx msg.num_fragments (get_fragment msg idx)) in
        if accepted then (note_sent s id idx now msg, t', true) else (s, t', false)
  ]

  -- A change of the message, and of the congestion control, if its fragment was sent.
  unfoldable pub after_send :
      ℕ
      → (OutgoingMessage → OutgoingMessage)
      → (C → C)
      → SequenceSession C × T × Bool
      → SequenceSession C × T × Bool
  after_send id change control (s, t, sent) =
      if sent
      then (
        record s {
          outgoing = FlatMap.update ℕ_discrete s.outgoing id change;
          congestion_control = control s.congestion_control;
        },
        t,
        true,
      )
      else (s, t, false)

  -- New data, if there is any left.
  unfoldable pub send_new :
      SequenceSession C → T → ℕ → ℕ → OutgoingMessage → SequenceSession C × T × Bool
  unfolding after_send try_send_fragment advanced
  send_new s t id now msg =
      if ltb msg.next_fragment msg.num_fragments
      then after_send id advanced (λ c. c) (try_send_fragment s t id msg.next_fragment now)
      else (s, t, false)

  -- The oldest fragment in flight, if its time is over.
  unfoldable pub send_timed_out :
      SequenceSession C → T → ℕ → ℕ → OutgoingMessage → List (ℕ × ℕ) → SequenceSession C × T × Bool
  unfolding after_send send_new try_send_fragment timed_out
  send_timed_out s t id now msg [] = send_new s t id now msg
  send_timed_out s t id now msg ((idx, last_sent) ∷ queue) =
      if leb (rto_with_backoff s.rtt (state_of msg idx).rto_backoff) (now - last_sent)
      then after_send id (timed_out idx) (λ c. cc.on_timeout c now)
          (try_send_fragment s t id idx now)
      else send_new s t id now msg

  unfoldable pub send_retransmission :
      SequenceSession C → T → ℕ → ℕ → OutgoingMessage → List ℕ → SequenceSession C × T × Bool
  unfolding after_send send_timed_out try_send_fragment popped
  send_retransmission s t id now msg [] = send_timed_out s t id now msg msg.in_flight_queue
  send_retransmission s t id now msg (idx ∷ queue) =
      after_send id (popped idx) (λ c. c) (try_send_fragment s t id idx now)

  unfoldable pub send_next_fragment_for_message :
      SequenceSession C → T → ℕ → ℕ → SequenceSession C × T × Bool
  unfolding send_retransmission
  send_next_fragment_for_message s t id now = elim (FlatMap.get ℕ_discrete s.outgoing id) [
    | none ↦ (s, t, false)
    | some msg ↦ send_retransmission s t id now msg msg.retransmit_queue
  ]
