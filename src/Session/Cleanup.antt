-- ===== src/Session/Cleanup.antt =====
-- tox-sequenced/src/session.rs: `cleanup`, which ends what has timed out, and `handle_packet`.
use rs_toxcore_c.Prelude.{
  ℕ, suc, ◌+◌, ◌-◌, ◌/◌, ◌%◌, ◌^◌, ◌||◌, none, some, List, [], ◌∷◌, ◌++◌, ltb, leb, if◌then◌else◌,
  is_some,
}
use rs_toxcore_c.Protocol.{Packet, usize_sub}
use rs_toxcore_c.Rtt
use rs_toxcore_c.Rtt.{seconds}
use rs_toxcore_c.Quota
use rs_toxcore_c.Quota.{ReassemblyQuota}
use rs_toxcore_c.FlatMap
use rs_toxcore_c.FlatMap.{FlatMap}
use rs_toxcore_c.Scheduler
use rs_toxcore_c.Scheduler.{PriorityScheduler}
use rs_toxcore_c.Reassembly.Message.{MessageReassembler}
use rs_toxcore_c.Outgoing.{OutgoingMessage, FragmentState, fragment_len}
use rs_toxcore_c.Session.{
  CongestionControl, Platform, SequenceSession, SessionEvent, connection_timeout,
}
use rs_toxcore_c.Session.Receive.{handle_data_packet}
use rs_toxcore_c.Session.Send.{check_cwnd_change, handle_ack_packet, handle_nack_packet}

-- `incoming.retain(..)`: a reassembler that saw nothing for 30 seconds gives back its bytes.
unfoldable pub expire_incoming :
    ℕ
    → List (ℕ × MessageReassembler)
    → ℕ
    → ReassemblyQuota
    → List (ℕ × MessageReassembler) × ℕ × ReassemblyQuota
expire_incoming now [] size quota = ([], size, quota)
expire_incoming now ((id, r) ∷ es) size quota =
    let old = leb (seconds 30) (now - r.last_activity) in
    let (kept, size', quota') =
      expire_incoming now es (if old then usize_sub size r.reserved_bytes else size)
        (if old then Quota.release quota r.reserved_bytes else quota) in
    ((if old then kept else (id, r) ∷ kept), size', quota')

-- The bytes in flight without those of a message's fragments from `idx` on.
unfoldable pub take_from_flight : OutgoingMessage → ℕ → List FragmentState → ℕ → ℕ
take_from_flight m idx [] in_flight = in_flight
take_from_flight m idx (state ∷ states) in_flight =
    take_from_flight m (suc idx) states
      (if is_some state.last_sent then in_flight - fragment_len m (idx % 2 ^ 16) else in_flight)

module _ {C : Type 0} where
  -- A message that timed out fails.
  unfoldable pub fail_message : SequenceSession C → ℕ → OutgoingMessage → SequenceSession C
  fail_message s id m = record s {
    events = s.events ++ SessionEvent.message_failed id ∷ SessionEvent.ready_to_send ∷ [];
    scheduler = Scheduler.remove_message s.scheduler id;
    in_flight = take_from_flight m 0 m.fragment_states s.in_flight;
  }

  -- `outgoing.retain(..)`; the entries that are kept stand beside the session.
  unfoldable pub expire_outgoing :
      ℕ
      → List (ℕ × OutgoingMessage)
      → SequenceSession C
      → List (ℕ × OutgoingMessage) × SequenceSession C
  unfolding fail_message
  expire_outgoing now [] s = ([], s)
  expire_outgoing now ((id, m) ∷ es) s =
      let silent = now - m.last_ack_at in
      let over = leb m.timeout silent || leb connection_timeout silent in
      let (kept, s') = expire_outgoing now es (if over then fail_message s id m else s) in
      ((if over then kept else (id, m) ∷ kept), s')

  unfoldable pub cleanup : SequenceSession C → ℕ → SequenceSession C
  cleanup s now =
      let (incoming, size, quota) =
        expire_incoming now s.incoming.entries s.incoming_buffer_size s.quota in
      let s' = record s {
        incoming = record { entries = incoming };
        incoming_buffer_size = size;
        quota = quota;
      } in
      let (outgoing, s'') = expire_outgoing now s'.outgoing.entries s' in
      record s'' {
        outgoing = record { entries = outgoing };
        completed_incoming =
            FlatMap.retain (λ _ c. (c, ltb (now - c.1) (seconds 30))) s''.completed_incoming;
      }

-- Sums of timestamps on their residues below 2 ^ 64.
abbrev i64_sub : ℕ → ℕ → ℕ
i64_sub a b = (a + 2 ^ 64 - b) % 2 ^ 64

abbrev i64_half : ℕ → ℕ
i64_half a = if ltb a (2 ^ 63) then a / 2 else (2 ^ 64 - (2 ^ 64 - a) / 2) % 2 ^ 64

module _ {C Rate : Type 0} (cc : CongestionControl C Rate) (env : Platform Rate) where
  -- `now_ms` is the system's time and `jitter` the random offset of an answer to a ping.
  unfoldable pub handle_packet_internal :
      SequenceSession C → Packet → ℕ → ℕ → ℕ → SequenceSession C × List Packet
  handle_packet_internal s (Packet.fragment message_id fragment_index total_fragments bytes) now
        now_ms jitter =
      handle_data_packet env s message_id fragment_index total_fragments bytes now
  handle_packet_internal s (Packet.ack ack) now now_ms jitter =
      (handle_ack_packet cc env s ack now, [])
  handle_packet_internal s (Packet.nack nack) now now_ms jitter =
      (handle_nack_packet cc env s nack now, [])
  handle_packet_internal s (Packet.ping t1) now now_ms jitter =
      let t = (now_ms + jitter) % 2 ^ 64 in (s, Packet.pong t1 t t ∷ [])
  handle_packet_internal s (Packet.pong t1 t2 t3) now now_ms jitter = elim s.last_ping_sent [
    | none ↦ (s, [])
    | some sent_time ↦
        let rtt_sample = now - sent_time in
        (
          record s {
            last_ping_sent = none;
            rtt = Rtt.update env.mul_f32 s.rtt rtt_sample;
            clock_offset = i64_half ((i64_sub t2 t1 + i64_sub t3 now_ms) % 2 ^ 64);
            congestion_control = cc.on_ack s.congestion_control rtt_sample none 0 s.in_flight now;
          },
          [],
        )
  ]
  handle_packet_internal s (Packet.datagram type bytes) now now_ms jitter =
      (record s { events = s.events ++ SessionEvent.message_completed 0 type bytes ∷ [] }, [])

  unfoldable pub handle_packet :
      SequenceSession C → Packet → ℕ → ℕ → ℕ → SequenceSession C × List Packet
  handle_packet s packet now now_ms jitter =
      let (s', replies) =
        handle_packet_internal (record s { last_activity = now }) packet now now_ms jitter in
      (check_cwnd_change cc env s', replies)
