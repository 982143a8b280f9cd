-- ===== src/Session/Flush.antt =====
-- tox-sequenced/src/session.rs: `flush_packets`, which sends what is due: a ping, datagrams, a probe of
-- a closed window, fragments by turns of the scheduler, a tail loss probe, and acknowledgements.
pub mod Keeping
pub mod Rounds
use native.Mathlib.Decide.{ℕ_discrete}
use rs_toxcore_c.Prelude.{
  ℕ, zero, suc, ◌+◌, ◌-◌, ◌*◌, ◌/◌, ◌%◌, ◌^◌, max, Bool, true, false, not, ◌&&◌, ◌||◌, Option, none,
  some, List, [], ◌∷◌, ◌++◌, ◌==◌, ltb, leb, if◌then◌else◌, length, is_some,
}
use rs_toxcore_c.Protocol.{Packet, SelectiveAck, Nack, estimated_payload_size, u32_mod}
use rs_toxcore_c.Rtt
use rs_toxcore_c.Rtt.{millis, rto_with_backoff}
use rs_toxcore_c.FlatMap
use rs_toxcore_c.FlatMap.Sums.{weigh}
use rs_toxcore_c.Scheduler
use rs_toxcore_c.Reassembly.Message.{MessageReassembler, create_ack, create_nack}
use rs_toxcore_c.Outgoing.{OutgoingMessage, FragmentState, state_of, is_acked, fragment_len}
use rs_toxcore_c.Session.{CongestionControl, Platform, SequenceSession, current_rwnd}
use rs_toxcore_c.Session.Transmit.{
  is_empty, delayed_ack_timeout, flush_ping, flush_datagrams, try_send_fragment, after_send,
  advanced, send_next_fragment_for_message,
}

-- The first message with something to probe with: its fragment, and whether that is a new one.
unfoldable pub probe_of : OutgoingMessage → List ℕ → List (ℕ × ℕ) → Option (ℕ × Bool)
probe_of msg (idx ∷ queue) flying = some (idx, false)
probe_of msg [] [] =
    if ltb msg.next_fragment msg.num_fragments then some (msg.next_fragment, true) else none
probe_of msg [] ((idx, at) ∷ flying) =
    if ltb msg.next_fragment msg.num_fragments
    then some (msg.next_fragment, true)
    else some (idx, false)

unfoldable pub probe_target : List (ℕ × OutgoingMessage) → Option (ℕ × ℕ × Bool)
unfolding probe_of
probe_target [] = none
probe_target ((id, msg) ∷ es) =
    let rest = probe_target es in
    elim (probe_of msg msg.retransmit_queue msg.in_flight_queue) [
      | none ↦ rest
      | some (idx, is_new) ↦ some (id, idx, is_new)
    ]

-- The back of a queue.
unfoldable pub back : List (ℕ × ℕ) → Option (ℕ × ℕ)
back [] = none
back (x ∷ []) = some x
back (x ∷ (y ∷ ys)) = back (y ∷ ys)

-- The first message whose latest fragment is older than the threshold.
unfoldable pub tail_target : ℕ → ℕ → List (ℕ × OutgoingMessage) → Option (ℕ × ℕ)
unfolding back
tail_target now threshold [] = none
tail_target now threshold ((id, msg) ∷ es) =
    let rest = tail_target now threshold es in
    elim (back msg.in_flight_queue) [
      | none ↦ rest
      | some (idx, last_sent) ↦ if leb threshold (now - last_sent) then some (id, idx) else rest
    ]

unfoldable pub has_more_data : List (ℕ × OutgoingMessage) → Bool
unfolding is_empty
has_more_data [] = false
has_more_data ((id, m) ∷ es) =
    not (is_empty m.retransmit_queue) || ltb m.next_fragment m.num_fragments || has_more_data es

-- What of a message the loop of `flush_packets` can still send at one moment: retransmissions,
-- fragments sent before, and new ones.
unfoldable pub aged : ℕ → List (ℕ × ℕ) → ℕ
aged now [] = 0
aged now ((idx, last_sent) ∷ queue) = (if ltb last_sent now then 1 else 0) + aged now queue

unfoldable pub work : ℕ → OutgoingMessage → ℕ
unfolding aged
work now m =
    length m.retransmit_queue + aged now m.in_flight_queue + (m.num_fragments - m.next_fragment)

-- The guards of the closure that the scheduler asks, for one message.
module _ (now in_flight cwnd peer_rwnd : ℕ) (rtt : Rtt.RttEstimator) (any_data_sent : Bool) where
  unfoldable pub in_cwnd : Bool
  in_cwnd = ltb (in_flight / estimated_payload_size) cwnd

  unfoldable pub in_rwnd : ℕ → Bool
  in_rwnd len = leb (in_flight + len) peer_rwnd

  unfoldable pub ready_new : OutgoingMessage → Option ℕ
  unfolding in_cwnd in_rwnd
  ready_new msg =
      let idx = msg.next_fragment in
      let state = state_of msg idx in
      let len = fragment_len msg idx in
      if ltb idx msg.num_fragments
        && not (is_acked msg idx)
        && not (is_some state.last_sent)
        && not (is_some state.delivery_info)
        && in_cwnd
        && in_rwnd len
      then some len
      else none

  unfoldable pub not_after : Option ℕ → ℕ → Bool
  not_after none last_sent = true
  not_after (some s) last_sent = leb s last_sent

  unfoldable pub ready_timed_out : OutgoingMessage → List (ℕ × ℕ) → Option ℕ
  unfolding ready_new not_after in_cwnd in_rwnd
  ready_timed_out msg [] = ready_new msg
  ready_timed_out msg ((idx, last_sent) ∷ queue) =
      let state = state_of msg idx in
      let len = fragment_len msg idx in
      if leb (rto_with_backoff rtt state.rto_backoff) (now - last_sent)
        && not (is_acked msg idx)
        && not_after state.last_sent last_sent
        && ((in_cwnd && in_rwnd len) || not any_data_sent)
      then some len
      else ready_new msg

  unfoldable pub ready_retransmission : OutgoingMessage → List ℕ → Option ℕ
  unfolding ready_timed_out in_cwnd in_rwnd
  ready_retransmission msg [] = ready_timed_out msg msg.in_flight_queue
  ready_retransmission msg (idx ∷ queue) =
      let len = fragment_len msg idx in
      let allowed =
        if idx == msg.highest_cumulative_ack
        then in_cwnd || not any_data_sent
        else in_cwnd && in_rwnd len in
      if not (is_acked msg idx) && allowed
      then some len
      else ready_timed_out msg msg.in_flight_queue

module _ {C Rate T : Type 0} (cc : CongestionControl C Rate) (env : Platform Rate)
    (sender : T → Packet → T × Bool) where
  -- The size of the next fragment of a message that may send one now.
  unfoldable pub is_ready : SequenceSession C → ℕ → Bool → ℕ → Option ℕ
  unfolding ready_retransmission
  is_ready s now any_data_sent id = elim (FlatMap.get ℕ_discrete s.outgoing id) [
    | none ↦ none
    | some msg ↦
        if ltb now s.next_pacing_time
        then none
        else ready_retransmission now s.in_flight (cc.cwnd s.congestion_control) s.peer_rwnd s.rtt
            any_data_sent msg msg.retransmit_queue
  ]

  -- The loop over the scheduler's choices; `none` says that the rounds are used up.
  unfoldable pub send_messages :
      ℕ → SequenceSession C → T → Bool → ℕ → Option (SequenceSession C × T × Bool)
  unfolding is_ready
  send_messages zero s t any_data_sent now = none
  send_messages (suc rounds) s t any_data_sent now =
      let (scheduler, next_id) =
        Scheduler.next_message (is_ready s now any_data_sent) s.scheduler in
      let s' = record s { scheduler = scheduler } in
      elim next_id [
        | none ↦ some (s', t, any_data_sent)
        | some id ↦
            let (s'', t', sent) = send_next_fragment_for_message cc env sender s' t id now in
            let rest = send_messages rounds s'' t' true now in
            if sent then rest else some (s'', t', any_data_sent)
      ]

  unfoldable pub flush_probe : SequenceSession C → T → ℕ → SequenceSession C × T
  unfolding probe_target is_empty
  flush_probe s t now =
      let due =
        ltb s.peer_rwnd estimated_payload_size
        && not (is_empty s.outgoing.entries)
        && leb s.next_pacing_time now
        && leb (rto_with_backoff s.rtt s.zero_window_probes_sent) (now - s.last_rwnd_probe) in
      elim (probe_target s.outgoing.entries) [
        | none ↦ (s, t)
        | some (id, idx, is_new) ↦
            let (s', t', sent) =
              after_send cc env sender id (λ m. if is_new then advanced m else m) (λ c. c)
                (try_send_fragment cc env sender s t id idx now) in
            if not due
            then (s, t)
            else if sent
            then (
              record s' {
                last_rwnd_probe = now;
                zero_window_probes_sent = (s'.zero_window_probes_sent + 1) % u32_mod;
              },
              t',
            )
            else (s', t')
      ]

  unfoldable pub flush_tail : SequenceSession C → T → Bool → ℕ → SequenceSession C × T
  unfolding tail_target
  flush_tail s t any_data_sent now =
      let threshold = max (env.mul_f32 s.rtt.srtt 1500) (millis 10) in
      elim (tail_target now threshold s.outgoing.entries) [
        | none ↦ (s, t)
        | some (id, idx) ↦
            let (s', t', sent) = try_send_fragment cc env sender s t id idx now in
            if not any_data_sent && ltb 0 s.in_flight then (s', t') else (s, t)
      ]

  -- The identifiers whose acknowledgement is due.
  unfoldable pub ids_to_ack : ℕ → List (ℕ × (ℕ × ℕ)) → List ℕ
  ids_to_ack now [] = []
  ids_to_ack now ((id, (count, first_pending_at)) ∷ es) =
      let rest = ids_to_ack now es in
      if leb 2 count || leb delayed_ack_timeout (now - first_pending_at) then id ∷ rest else rest

  unfoldable pub ack_for : SequenceSession C → ℕ → ℕ → Option Packet
  ack_for s rwnd id = elim (FlatMap.get ℕ_discrete s.incoming id) [
    | some reassembler ↦ some (Packet.ack (create_ack reassembler rwnd))
    | none ↦ elim (FlatMap.get ℕ_discrete s.completed_incoming id) [
      | some (a, at) ↦ some (Packet.ack (record a { rwnd = rwnd }))
      | none ↦ none
    ]
  ]

  unfoldable pub settled : SequenceSession C → ℕ → SequenceSession C
  settled s id = record s {
    pending_acks = (FlatMap.remove ℕ_discrete s.pending_acks id).0;
    pending_nacks = (FlatMap.remove ℕ_discrete s.pending_nacks id).0;
  }

  unfoldable pub send_acks : List ℕ → ℕ → SequenceSession C → T → SequenceSession C × T
  unfolding ack_for settled
  send_acks [] rwnd s t = (s, t)
  send_acks (id ∷ ids) rwnd s t = elim (ack_for s rwnd id) [
    | none ↦ send_acks ids rwnd (settled s id) t
    | some packet ↦
        let (t', accepted) = sender t packet in
        let rest = send_acks ids rwnd (settled s id) t' in if accepted then rest else (s, t')
  ]

  unfoldable pub flush_pending_acks : SequenceSession C → T → ℕ → SequenceSession C × T
  unfolding send_acks ids_to_ack
  flush_pending_acks s t now =
      send_acks (ids_to_ack now s.pending_acks.entries) (current_rwnd env s) s t

  unfoldable pub ids_to_nack : ℕ → ℕ → List (ℕ × ℕ) → List ℕ
  ids_to_nack now srtt [] = []
  ids_to_nack now srtt ((id, first_pending_at) ∷ es) =
      let rest = ids_to_nack now srtt es in
      if leb (max (srtt / 4) (millis 10)) (now - first_pending_at) then id ∷ rest else rest

  unfoldable pub nack_for : SequenceSession C → ℕ → Option Nack
  nack_for s id = elim (FlatMap.get ℕ_discrete s.incoming id) [
    | some reassembler ↦ create_nack reassembler reassembler.buffer.base_index
    | none ↦ none
  ]

  unfoldable pub asked : SequenceSession C → ℕ → SequenceSession C
  asked s id = record s { pending_nacks = (FlatMap.remove ℕ_discrete s.pending_nacks id).0 }

  unfoldable pub send_nacks : List ℕ → SequenceSession C → T → SequenceSession C × T
  unfolding nack_for asked
  send_nacks [] s t = (s, t)
  send_nacks (id ∷ ids) s t = elim (nack_for s id) [
    | none ↦ send_nacks ids (asked s id) t
    | some nack ↦
        let (t', accepted) = sender t (Packet.nack nack) in
        let rest = send_nacks ids (asked s id) t' in if accepted then rest else (s, t')
  ]

  unfoldable pub flush_pending_nacks : SequenceSession C → T → ℕ → SequenceSession C × T
  unfolding send_nacks ids_to_nack
  flush_pending_nacks s t now = send_nacks (ids_to_nack now s.rtt.srtt s.pending_nacks.entries) s t

  unfoldable pub note_app_limited : SequenceSession C → SequenceSession C
  unfolding has_more_data
  note_app_limited s =
      if ltb s.in_flight (cc.cwnd s.congestion_control * estimated_payload_size)
        && not (has_more_data s.outgoing.entries)
      then record s { app_limited = true }
      else s

  -- What follows the loop over the messages.
  unfoldable pub finish_flush : ℕ → SequenceSession C × T × Bool → SequenceSession C × T
  unfolding flush_tail flush_pending_acks flush_pending_nacks note_app_limited
  finish_flush now (s, t, any_data_sent) =
      let (s1, t1) = flush_tail s t any_data_sent now in
      let (s2, t2) = flush_pending_acks s1 t1 now in
      let (s3, t3) = flush_pending_nacks s2 t2 now in (note_app_limited s3, t3)

  -- The loop has one round more than there is work when it begins.
  unfoldable pub flush_packets : SequenceSession C → T → ℕ → ℕ → Option (SequenceSession C × T)
  unfolding send_messages flush_probe finish_flush
  flush_packets s t now now_ms =
      let (s1, t1) = flush_ping cc env sender s t now now_ms in
      let (s2, t2) = flush_datagrams cc env sender s1.datagram_queue s1 t1 now in
      let (s3, t3) = flush_probe s2 t2 now in
      elim (send_messages (suc (weigh (work now) s3.outgoing.entries)) s3 t3 false now) [
        | none ↦ none
        | some r ↦ some (finish_flush now r)
      ]
