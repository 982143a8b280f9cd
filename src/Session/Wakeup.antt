-- ===== src/Session/Wakeup.antt =====
-- tox-sequenced/src/session.rs: when a session wants to be called again.
use rs_toxcore_c.Prelude.{
  ℕ, ◌+◌, ◌*◌, ◌/◌, ◌≤◌, min, max, Bool, true, false, not, ◌&&◌, ◌||◌, Option, none, some, List, [],
  ◌∷◌, ltb, leb, if◌then◌else◌, arith, inl, inr, Bool-cases,
}
use rs_toxcore_c.Protocol.{estimated_payload_size}
use rs_toxcore_c.Rtt
use rs_toxcore_c.Rtt.{millis, seconds, rto_with_backoff}
use rs_toxcore_c.Outgoing.{OutgoingMessage, state_of, fragment_len}
use rs_toxcore_c.Session.{CongestionControl, Platform, SequenceSession, connection_timeout}
use rs_toxcore_c.Session.Transmit.{
  is_empty, ping_interval, ping_interval_active, delayed_ack_timeout,
}
use rs_toxcore_c.Session.Flush.{back}

-- The entry of a queue of fragments in flight is the latest sending of its fragment.
unfoldable pub is_latest : OutgoingMessage → ℕ → ℕ → Bool
is_latest msg idx last_sent = elim (state_of msg idx).last_sent [
  | none ↦ true
  | some s ↦ leb s last_sent
]

-- `outgoing.values().any(|m| !m.retransmit_queue.is_empty())`
unfoldable pub has_retransmit : List (ℕ × OutgoingMessage) → Bool
unfolding is_empty
has_retransmit [] = false
has_retransmit ((id, m) ∷ es) = not (is_empty m.retransmit_queue) || has_retransmit es

-- A message has a new fragment that the peer's window allows.
unfoldable pub has_new : ℕ → ℕ → List (ℕ × OutgoingMessage) → Bool
has_new in_flight peer_rwnd [] = false
has_new in_flight peer_rwnd ((id, m) ∷ es) =
    (ltb m.next_fragment m.num_fragments
      && leb (in_flight + fragment_len m m.next_fragment) peer_rwnd)
    || has_new in_flight peer_rwnd es

-- The least of `next` and the times when the oldest fragments in flight are sent again.
unfoldable pub rto_times : Rtt.RttEstimator → List (ℕ × OutgoingMessage) → ℕ → ℕ
unfolding is_latest
rto_times rtt [] next = next
rto_times rtt ((id, m) ∷ es) next = rto_times rtt es (first m.in_flight_queue)
  where
    first : List (ℕ × ℕ) → ℕ
    first [] = next
    first ((idx, last_sent) ∷ queue) =
        if is_latest m idx last_sent
        then min next (last_sent + rto_with_backoff rtt (state_of m idx).rto_backoff)
        else next

-- The same for the tail loss probes.
unfoldable pub tail_times : ℕ → List (ℕ × OutgoingMessage) → ℕ → ℕ
unfolding is_latest
tail_times threshold [] next = next
tail_times threshold ((id, m) ∷ es) next = tail_times threshold es (last (back m.in_flight_queue))
  where
    last : Option (ℕ × ℕ) → ℕ
    last none = next
    last (some (idx, last_sent)) =
        if is_latest m idx last_sent then min next (last_sent + threshold) else next

-- The same for delayed acknowledgements; `none` says that one is due at once.
unfoldable pub ack_times : ℕ → List (ℕ × (ℕ × ℕ)) → ℕ → Option ℕ
ack_times now [] next = some next
ack_times now ((id, (count, pending_at)) ∷ es) next =
    let timeout = pending_at + delayed_ack_timeout in
    let rest = ack_times now es (min next timeout) in
    if leb 2 count || leb timeout now then none else rest

unfoldable pub nack_times : ℕ → ℕ → List (ℕ × ℕ) → ℕ → Option ℕ
nack_times now delay [] next = some next
nack_times now delay ((id, pending_at) ∷ es) next =
    let timeout = pending_at + delay in
    let rest = nack_times now delay es (min next timeout) in if leb timeout now then none else rest

-- The delayed acknowledgements of `next_check_time`.
unfoldable pub check_acks : List (ℕ × (ℕ × ℕ)) → ℕ → Option ℕ
check_acks [] min_time = some min_time
check_acks ((id, (count, first_pending_at)) ∷ es) min_time =
    let rest = check_acks es (min min_time (first_pending_at + delayed_ack_timeout)) in
    if ltb count 2 then rest else none

-- The messages of `next_check_time`.
unfoldable pub check_messages : Rtt.RttEstimator → ℕ → List (ℕ × OutgoingMessage) → ℕ → ℕ
unfolding is_empty
check_messages rtt next_pacing_time [] min_time = min_time
check_messages rtt next_pacing_time ((id, m) ∷ es) min_time =
    let timed = first m.in_flight_queue in
    let pending = not (is_empty m.retransmit_queue) || ltb m.next_fragment m.num_fragments in
    check_messages rtt next_pacing_time es (if pending then min timed next_pacing_time else timed)
  where
    first : List (ℕ × ℕ) → ℕ
    first [] = min_time
    first ((idx, last_sent) ∷ queue) =
        min min_time (last_sent + rto_with_backoff rtt (state_of m idx).rto_backoff)

unfoldable pub next_check_time : {C : Type 0} → SequenceSession C → ℕ
unfolding check_acks check_messages
next_check_time s =
    let paced = min s.next_pacing_time (s.last_ping + ping_interval_active) in
    let probe_at = s.last_rwnd_probe + rto_with_backoff s.rtt s.zero_window_probes_sent in
    let probed = if ltb s.peer_rwnd estimated_payload_size then min paced probe_at else paced in
    elim (check_acks s.pending_acks.entries probed) [
      | none ↦ s.last_activity
      | some min_time ↦ check_messages s.rtt s.next_pacing_time s.outgoing.entries min_time
    ]

module _ {C Rate : Type 0} (control_law : CongestionControl C Rate) (env : Platform Rate) where
  -- There is something to send that no timer holds back.
  unfoldable pub can_send_now : SequenceSession C → ℕ → Bool
  unfolding is_empty has_retransmit has_new
  can_send_now s now =
      not (ltb now s.next_pacing_time)
      && (not (is_empty s.datagram_queue)
          || (ltb s.in_flight (control_law.cwnd s.congestion_control * estimated_payload_size)
              && (has_retransmit s.outgoing.entries
                  || has_new s.in_flight s.peer_rwnd s.outgoing.entries)))

  -- The next time of the fragments in flight and of the probes.
  unfoldable pub fragment_times : SequenceSession C → ℕ → ℕ
  unfolding rto_times tail_times is_empty
  fragment_times s now =
      let start = now + seconds 3600 in
      let paced = if ltb now s.next_pacing_time then min start s.next_pacing_time else start in
      let timed = rto_times s.rtt s.outgoing.entries paced in
      let threshold = max (env.mul_f32 s.rtt.srtt 1500) (millis 10) in
      let tail =
        if ltb 0 s.in_flight then tail_times threshold s.outgoing.entries timed else timed in
      let probe_at = s.last_rwnd_probe + rto_with_backoff s.rtt s.zero_window_probes_sent in
      if ltb s.peer_rwnd estimated_payload_size && not (is_empty s.outgoing.entries)
      then min tail (max probe_at s.next_pacing_time)
      else tail

  unfoldable pub last_times : SequenceSession C → ℕ → Option ℕ → ℕ
  last_times s now none = now
  last_times s now (some next) =
      max (min (min next (s.last_ping + ping_interval s)) (s.last_activity + connection_timeout))
        now

  unfoldable pub nacks_next : SequenceSession C → ℕ → Option ℕ → Option ℕ
  unfolding nack_times
  nacks_next s now none = none
  nacks_next s now (some next) =
      nack_times now (max (s.rtt.srtt / 4) (millis 10)) s.pending_nacks.entries next

  unfoldable pub next_wakeup : SequenceSession C → ℕ → ℕ
  unfolding can_send_now fragment_times ack_times nacks_next last_times
  next_wakeup s now =
      let acks = ack_times now s.pending_acks.entries (fragment_times s now) in
      if can_send_now s now then now else last_times s now (nacks_next s now acks)

  last_times-within :
      (s : SequenceSession C) (now : ℕ) (o : Option ℕ)
      → (now ≤ last_times s now o)
        × (last_times s now o ≤ max now (s.last_activity + connection_timeout))
        × (last_times s now o ≤ max now (s.last_ping + ping_interval s))
  unfolding last_times
  last_times-within s now none = (omega arith, omega arith, omega arith)
  last_times-within s now (some next) = (omega arith, omega arith, omega arith)

  -- A session never asks to be woken in the past, nor later than its next ping is due or its
  -- connection counts as dead, unless that time has passed: then it asks for now.
  pub next_wakeup_bounds :
      (s : SequenceSession C) (now : ℕ)
      → (now ≤ next_wakeup s now)
        × (next_wakeup s now ≤ max now (s.last_activity + connection_timeout))
        × (next_wakeup s now ≤ max now (s.last_ping + ping_interval s))
  unfolding next_wakeup
  next_wakeup_bounds s now = elim (Bool-cases (can_send_now s now)) [
    | inl busy ↦ rw (busy, next_wakeup) (omega arith, omega arith, omega arith)
    | inr idle ↦
        rw (idle, next_wakeup)
          (last_times-within s now
            (nacks_next s now (ack_times now s.pending_acks.entries (fragment_times s now))))
  ]
