-- ===== src/Session/Send.antt =====
-- tox-sequenced/src/session.rs: the messages that a session sends, and what it does with the
-- acknowledgements and requests that it receives for them.
use native.Mathlib.Decide.{ℕ_discrete}
use rs_toxcore_c.Prelude.{
  ℕ, zero, suc, ◌+◌, ◌-◌, ◌*◌, ◌%◌, ◌^◌, max, Bool, true, false, not, ◌&&◌, ◌||◌, Option, none,
  some, List, [], ◌∷◌, ◌++◌, ◌==◌, ltb, leb, if◌then◌else◌, length, is_some,
}
use rs_toxcore_c.Prelude
use rs_toxcore_c.Protocol.{
  MessageType, Packet, SelectiveAck, Nack, Result, ok, err, SequencedError, priority, level,
  message_id_add, usize_sub, max_message_size, max_concurrent_outgoing, max_tox_packet_size,
  packet_overhead, max_datagram_queue, estimated_payload_size, bitset_words,
}
use rs_toxcore_c.BitSet
use rs_toxcore_c.BitSet.{BitSet}
use rs_toxcore_c.Rtt
use rs_toxcore_c.Rtt.{seconds}
use rs_toxcore_c.FlatMap
use rs_toxcore_c.FlatMap.{FlatMap}
use rs_toxcore_c.Scheduler
use rs_toxcore_c.Outgoing
use rs_toxcore_c.Outgoing.{OutgoingMessage, is_acked, all_acked, fragment_len, state_of}
use rs_toxcore_c.Outgoing.Acks.{AckResult, on_ack}
use rs_toxcore_c.Session.{
  CongestionControl, Platform, DeliverySample, SequenceSession, SessionEvent,
}

-- The first id from `id` on that no message has, looked for `rounds` times.
unfoldable pub free_id : ℕ → FlatMap ℕ OutgoingMessage → ℕ → ℕ
free_id zero m id = id
free_id (suc rounds) m id =
    let next = free_id rounds m (message_id_add id 1) in
    if FlatMap.contains_key ℕ_discrete m id then next else id

abbrev pub payload_mtu : ℕ
payload_mtu = max_tox_packet_size - packet_overhead

-- The serialised envelope of a message, cut into fragments.
unfoldable pub cut_envelope : MessageType → Option (List ℕ) → ℕ → Result OutgoingMessage
cut_envelope type none now = err SequencedError.serialization_error
cut_envelope type (some full_payload) now =
    if ltb max_message_size (length full_payload)
    then err SequencedError.message_too_large
    else if payload_mtu == 0
    then err SequencedError.message_too_large
    else Outgoing.new (seconds 30) type full_payload payload_mtu now

module _ {C : Type 0} where
  -- The message that was made, or the error.
  unfoldable pub enqueue :
      SequenceSession C → ℕ → MessageType → Result OutgoingMessage → SequenceSession C × Result ℕ
  enqueue s id type (err e) = (s, err e)
  enqueue s id type (ok msg) = (
    record s {
      scheduler = Scheduler.update_message s.scheduler id (level (priority type));
      outgoing = (FlatMap.insert ℕ_discrete s.outgoing id msg).0;
    },
    ok id,
  )

  unfoldable pub set_message_timeout : SequenceSession C → ℕ → ℕ → SequenceSession C
  set_message_timeout s message_id timeout = record s {
    outgoing =
        FlatMap.update ℕ_discrete s.outgoing message_id (λ msg. record msg { timeout = timeout });
  }

  unfoldable pub send_datagram :
      SequenceSession C → MessageType → List ℕ → SequenceSession C × Result {0} Unit
  send_datagram s type bytes =
      if leb max_datagram_queue (length s.datagram_queue)
      then (s, err SequencedError.queue_full)
      else if ltb max_tox_packet_size (length bytes + 10)
      then (s, err SequencedError.message_too_large)
      else (
        record s { datagram_queue = s.datagram_queue ++ Packet.datagram type bytes ∷ [] },
        ok tt,
      )

  -- A message all of whose fragments are acknowledged leaves the session.
  unfoldable pub retire : SequenceSession C → ℕ → SequenceSession C
  retire s message_id = record s {
    events = s.events ++ SessionEvent.message_acked message_id ∷ SessionEvent.ready_to_send ∷ [];
    scheduler = Scheduler.remove_message s.scheduler message_id;
    outgoing = (FlatMap.remove ℕ_discrete s.outgoing message_id).0;
  }

  unfoldable pub note_window : SequenceSession C → ℕ → SequenceSession C
  note_window s rwnd =
      let rwnd_bytes = rwnd * estimated_payload_size in
      record s {
        zero_window_probes_sent =
            if leb estimated_payload_size rwnd_bytes then 0 else s.zero_window_probes_sent;
        peer_rwnd = rwnd_bytes;
      }

-- What the loop of `handle_nack_packet` changes.
pub record NackProgress : Type 0 where
  pub msg : OutgoingMessage
  pub in_flight : ℕ
  pub to_remove : BitSet
  pub needs_cleanup : Bool
  pub triggered : Bool

-- A fragment that is reported missing is no longer in flight, and waits to be sent again.
unfoldable pub nack_fragment : ℕ → NackProgress → NackProgress
nack_fragment idx p =
    let state = state_of p.msg idx in
    let flying = is_some state.last_sent in
    let (removals, fresh) = BitSet.set bitset_words p.to_remove idx in
    let queued = BitSet.get bitset_words p.msg.retransmit_bitset idx in
    if is_acked p.msg idx then p else record {
      msg = record p.msg {
        fragment_states = Prelude.set p.msg.fragment_states idx (record state { last_sent = none });
        retransmit_queue =
            if queued then p.msg.retransmit_queue else p.msg.retransmit_queue ++ idx ∷ [];
        retransmit_bitset =
            if queued
            then p.msg.retransmit_bitset
            else (BitSet.set bitset_words p.msg.retransmit_bitset idx).0;
      };
      in_flight = if flying then p.in_flight - fragment_len p.msg idx else p.in_flight;
      to_remove = if flying then removals else p.to_remove;
      needs_cleanup = p.needs_cleanup || (flying && fresh);
      triggered = true;
    }

unfoldable pub nack_fragments : List ℕ → NackProgress → NackProgress
unfolding nack_fragment
nack_fragments [] p = p
nack_fragments (idx ∷ indices) p = nack_fragments indices (nack_fragment idx p)

-- `in_flight_queue.retain(..)`
unfoldable pub retain_flying : BitSet → List (ℕ × ℕ) → List (ℕ × ℕ)
retain_flying to_remove [] = []
retain_flying to_remove ((idx, at) ∷ queue) =
    let rest = retain_flying to_remove queue in
    if BitSet.get bitset_words to_remove idx then rest else (idx, at) ∷ rest

-- The sample as the congestion control wants it.
unfoldable pub delivery_sample :
    {Rate : Type 0} → Option (ℕ × ℕ × Rate × Bool) → ℕ → ℕ → Option DeliverySample
delivery_sample none delivered_bytes now = none
delivery_sample (some (delivered_at_send, delivery_time_at_send, rate, app_limited)) delivered_bytes
      now =
    some (record {
      bytes_delivered = usize_sub delivered_bytes delivered_at_send;
      duration = now - delivery_time_at_send;
      at = now;
      app_limited = app_limited;
    })

module _ {C Rate : Type 0} (cc : CongestionControl C Rate) (env : Platform Rate) where
  unfoldable pub send_message_at :
      SequenceSession C → MessageType → List ℕ → ℕ → SequenceSession C × Result ℕ
  send_message_at s type bytes now =
      let id = free_id max_concurrent_outgoing s.outgoing s.next_message_id in
      if leb max_concurrent_outgoing (FlatMap.len s.outgoing)
      then (s, err SequencedError.queue_full)
      else if FlatMap.contains_key ℕ_discrete s.outgoing id
      then (s, err SequencedError.queue_full)
      else enqueue (record s { next_message_id = message_id_add id 1 }) id type
          (cut_envelope type (env.serialize type bytes) now)

  unfoldable pub check_cwnd_change : SequenceSession C → SequenceSession C
  check_cwnd_change s =
      let cwnd = cc.cwnd s.congestion_control in
      let abs_diff = Rtt.abs_diff cwnd s.last_emitted_cwnd in
      if leb (env.tenth s.last_emitted_cwnd) abs_diff || (s.last_emitted_cwnd == 0)
      then record s {
        events = s.events ++ SessionEvent.congestion_window_changed cwnd ∷ [];
        last_emitted_cwnd = cwnd;
      }
      else s

  -- What the acknowledgement of a message that is known changes, but for the message's end.
  unfoldable pub take_ack :
      SequenceSession C → ℕ → ℕ → OutgoingMessage → AckResult Rate → SequenceSession C
  take_ack s message_id now msg res =
      let delivered = s.delivered_bytes + res.newly_delivered_bytes in
      let in_flight = s.in_flight - res.newly_completed_in_flight_bytes in
      let rtt : Rtt.RttEstimator = elim res.min_rtt [
        | none ↦ s.rtt
        | some sample ↦ Rtt.update env.mul_f32 s.rtt sample
      ] in
      let control =
        if res.loss_detected then cc.on_nack s.congestion_control now else s.congestion_control in
      let reported : ℕ = elim res.first_rtt [ none ↦ rtt.srtt | some first ↦ first ] in
      record s {
        outgoing = FlatMap.update ℕ_discrete s.outgoing message_id (λ _. msg);
        delivered_bytes = delivered;
        last_delivery_time = if ltb 0 res.newly_delivered_bytes then now else s.last_delivery_time;
        in_flight = in_flight;
        rtt = rtt;
        congestion_control =
            cc.on_ack control reported (delivery_sample res.delivery_sample delivered now)
              res.newly_delivered_bytes in_flight now;
      }

  -- The message after its acknowledgement, which may be its last.
  unfoldable pub settle_ack :
      SequenceSession C → ℕ → ℕ → OutgoingMessage × AckResult Rate → SequenceSession C
  unfolding take_ack retire
  settle_ack s message_id now (msg, res) =
      let taken = take_ack s message_id now msg res in
      if all_acked msg then retire taken message_id else taken

  unfoldable pub handle_ack_packet : SequenceSession C → SelectiveAck → ℕ → SequenceSession C
  handle_ack_packet s ack now =
      let s' = note_window s ack.rwnd in
      elim (FlatMap.get ℕ_discrete s'.outgoing ack.message_id) [
        | none ↦ record s' {
          congestion_control = cc.on_ack s'.congestion_control s'.rtt.srtt none 0 s'.in_flight now;
        }
        | some msg ↦
            settle_ack s' ack.message_id now
              (on_ack env.rate_of env.exceeds msg ack.base_index ack.bitmask now s'.delivered_bytes)
      ]

  unfoldable pub handle_nack_packet : SequenceSession C → Nack → ℕ → SequenceSession C
  handle_nack_packet s nack now = elim (FlatMap.get ℕ_discrete s.outgoing nack.message_id) [
    | none ↦ s
    | some msg ↦
        let p = nack_fragments nack.missing_indices (record {
          msg = msg;
          in_flight = s.in_flight;
          to_remove = BitSet.new bitset_words;
          needs_cleanup = false;
          triggered = false;
        }) in
        let queue =
          if p.needs_cleanup
          then retain_flying p.to_remove p.msg.in_flight_queue
          else p.msg.in_flight_queue in
        record s {
          outgoing =
              FlatMap.update ℕ_discrete s.outgoing nack.message_id
                (λ _. record p.msg { in_flight_queue = queue });
          in_flight = p.in_flight;
          congestion_control =
              if p.triggered then cc.on_nack s.congestion_control now else s.congestion_control;
        }
  ]
