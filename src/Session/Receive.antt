-- ===== src/Session/Receive.antt =====
-- tox-sequenced/src/session.rs: what a session does with a fragment that arrives. `responses` are
-- the packets that a function adds to the answer.
use native.Mathlib.Decide.{ℕ_discrete}
use rs_toxcore_c.Prelude.{
  ℕ, ◌+◌, ◌-◌, ◌*◌, max, Bool, true, false, Option, none, some, List, [], ◌∷◌, ◌++◌, ◌==◌, ltb, leb,
  if◌then◌else◌, length,
}
use rs_toxcore_c.Protocol.{
  Result, SelectiveAck, Priority, MessageType, Packet, Priority, ok, err, usize_sub,
  estimated_payload_size, max_concurrent_incoming,
}
use rs_toxcore_c.Quota
use rs_toxcore_c.Quota.{reserve_guaranteed}
use rs_toxcore_c.FlatMap
use rs_toxcore_c.FlatMap.{FlatMap}
use rs_toxcore_c.Reassembly.{planned_total_size, assemble}
use rs_toxcore_c.Reassembly.Message
use rs_toxcore_c.Reassembly.Message.{MessageReassembler, create_ack}
use rs_toxcore_c.Session.{
  Platform, SequenceSession, SessionEvent, current_rwnd, create_rejection_ack,
}
use rs_toxcore_c.Session.Admission.{
  calculate_priority, peek_message_type, newest, learn_type, is_ancient_message, admit,
  drop_incoming, note_gap, complete_with,
}

module _ {C Rate : Type 0} (env : Platform Rate) where
  -- The acknowledgement that repeats what is known of a completed message.
  unfoldable pub check_completed_message : SequenceSession C → ℕ → Option Packet
  check_completed_message s message_id =
      elim (FlatMap.get ℕ_discrete s.completed_incoming message_id) [
        | none ↦ none
        | some (ack, _) ↦ some (Packet.ack (record ack { rwnd = current_rwnd env s }))
      ]

  -- The reassembler that was made, or the error, after `amount` bytes have been reserved for it.
  unfoldable pub enter :
      SequenceSession C → ℕ → ℕ → Result MessageReassembler → SequenceSession C × List Packet × Bool
  enter s message_id amount (ok re) = (
    record s {
      incoming_buffer_size = s.incoming_buffer_size + amount;
      incoming = (FlatMap.insert ℕ_discrete s.incoming message_id re).0;
      highest_received_id = newest s.highest_received_id message_id;
    },
    [],
    true,
  )
  enter s message_id amount (err _) =
      let s' = record s { quota = Quota.release s.quota amount } in
      (s', create_rejection_ack env s' message_id ∷ [], false)

  -- The reassembler of a message that is not known yet.
  unfoldable pub open_reassembler :
      SequenceSession C
      → ℕ
      → Option MessageType
      → ℕ
      → ℕ
      → ℕ
      → SequenceSession C × List Packet × Bool
  open_reassembler s message_id type total_fragments data_len now =
      let initial_reservation =
        if ltb 1 total_fragments
        then max data_len estimated_payload_size * total_fragments
        else data_len in
      let prio = calculate_priority type total_fragments initial_reservation in
      let (s', admitted) = admit s initial_reservation prio in
      if admitted
      then enter s' message_id initial_reservation
          (Message.new message_id total_fragments prio initial_reservation now)
      else (s', create_rejection_ack env s' message_id ∷ [], false)

  unfoldable pub ensure_reassembler :
      SequenceSession C
      → ℕ
      → Option MessageType
      → ℕ
      → ℕ
      → ℕ
      → SequenceSession C × List Packet × Bool
  ensure_reassembler s message_id type total_fragments data_len now =
      elim (FlatMap.get ℕ_discrete s.incoming message_id) [
        | some entry ↦ (
          record s {
            incoming =
                FlatMap.update ℕ_discrete s.incoming message_id (learn_type type total_fragments);
          },
          [],
          entry.total_fragments == total_fragments,
        )
        | none ↦
            if leb max_concurrent_incoming (FlatMap.len s.incoming)
            then (s, create_rejection_ack env s message_id ∷ [], false)
            else open_reassembler s message_id type total_fragments data_len now
      ]

  -- The reservation of a reassembler follows the size that is now planned for it; `false` if it
  -- could not grow.
  unfoldable pub resize :
      SequenceSession C → ℕ → MessageReassembler → Priority → SequenceSession C × Bool
  resize s message_id entry prio =
      let new_planned = planned_total_size env.struct_overhead entry.buffer in
      let incoming =
        FlatMap.update ℕ_discrete s.incoming message_id
          (λ r. record r { reserved_bytes = new_planned }) in
      let addition = new_planned - entry.reserved_bytes in
      let reduction = entry.reserved_bytes - new_planned in
      let (s', admitted) = admit s addition prio in
      if ltb entry.reserved_bytes new_planned
      then (if admitted
          then (
            record s' {
              incoming_buffer_size = s'.incoming_buffer_size + addition;
              incoming = incoming;
            },
            true,
          )
          else (s', false))
      else if ltb new_planned entry.reserved_bytes
      then (
        record s {
          quota = Quota.release s.quota reduction;
          incoming_buffer_size = usize_sub s.incoming_buffer_size reduction;
          incoming = incoming;
        },
        true,
      )
      else (s, true)

  -- The event of a message that could be read, and the record of every completed one.
  unfoldable pub announce :
      SequenceSession C → ℕ → SelectiveAck → ℕ → Option (MessageType × List ℕ) → SequenceSession C
  announce s message_id ack now none = complete_with s message_id ack now
  announce s message_id ack now (some (type, payload)) =
      complete_with
        (record s {
          events = s.events ++ SessionEvent.message_completed message_id type payload ∷ [];
        })
        message_id ack now

  unfoldable pub deliver :
      SequenceSession C → ℕ → SelectiveAck → ℕ → Option (List ℕ) → SequenceSession C
  unfolding announce
  deliver s message_id ack now none = s
  deliver s message_id ack now (some assembled) =
      announce s message_id ack now (env.deserialize assembled)

  unfoldable pub close : SequenceSession C × Option MessageReassembler → ℕ → ℕ → SequenceSession C
  unfolding deliver
  close (s, none) message_id now = s
  close (s, some r) message_id now =
      deliver s message_id (create_ack r (current_rwnd env s)) now (assemble r.buffer)

  -- A message all of whose fragments have arrived leaves its reassembler.
  unfoldable pub complete_message : SequenceSession C → ℕ → ℕ → SequenceSession C
  complete_message s message_id now =
      let unasked = record s {
        pending_nacks = (FlatMap.remove ℕ_discrete s.pending_nacks message_id).0;
      } in
      close (drop_incoming unasked message_id) message_id now

  -- What follows the fragment in the reassembler once its reservation fits.
  unfoldable pub settle_fragment : SequenceSession C → ℕ → Bool → ℕ → SequenceSession C
  settle_fragment s message_id complete now =
      if complete then complete_message s message_id now else record s {
        pending_acks =
            FlatMap.entry_or_insert ℕ_discrete s.pending_acks message_id (0, now)
              (λ p. (p.0 + 1, p.1));
      }

  -- The answer when the reservation of a message could not grow, and the message was dropped.
  unfoldable pub refuse :
      SequenceSession C × Option MessageReassembler → ℕ → SequenceSession C × List Packet
  refuse (s, none) message_id = (s, [])
  refuse (s, some r) message_id = (s, create_rejection_ack env s message_id ∷ [])

  -- What follows when `entry`, whose priority was `prio`, has taken the fragment or not.
  unfoldable pub after_fragment :
      SequenceSession C
      → ℕ
      → ℕ
      → ℕ
      → Priority
      → MessageReassembler
      → Result Bool
      → SequenceSession C × List Packet
  after_fragment s message_id fragment_index now prio entry (err _) =
      ((drop_incoming s message_id).0, [])
  after_fragment s message_id fragment_index now prio entry (ok complete) =
      let noted = note_gap s message_id fragment_index entry.buffer.base_index now in
      let (s', fits) = resize noted message_id entry prio in
      if fits
      then (settle_fragment s' message_id complete now, [])
      else refuse (drop_incoming s' message_id) message_id

  -- The code unwraps the reassembler, which `ensure_reassembler` has left.
  unfoldable pub process_fragment :
      SequenceSession C → ℕ → ℕ → List ℕ → ℕ → SequenceSession C × List Packet
  process_fragment s message_id fragment_index bytes now =
      elim (FlatMap.get ℕ_discrete s.incoming message_id) [
        | none ↦ (s, [])
        | some entry ↦
            let (entry', result) = Message.add_fragment entry fragment_index bytes now in
            let added = record s {
              incoming = FlatMap.update ℕ_discrete s.incoming message_id (λ _. entry');
            } in
            after_fragment added message_id fragment_index now entry.priority entry' result
      ]

  unfoldable pub handle_data_packet :
      SequenceSession C → ℕ → ℕ → ℕ → List ℕ → ℕ → SequenceSession C × List Packet
  handle_data_packet s message_id fragment_index total_fragments bytes now =
      elim (check_completed_message s message_id) [
        | some reply ↦ (s, reply ∷ [])
        | none ↦
            let peeked_type = if fragment_index == 0 then peek_message_type bytes else none in
            let (s', responses, ready) =
              ensure_reassembler s message_id peeked_type total_fragments (length bytes) now in
            let (s'', more) = process_fragment s' message_id fragment_index bytes now in
            if is_ancient_message s message_id
            then (s, [])
            else if ready
            then (s'', responses ++ more)
            else (s', responses)
      ]
