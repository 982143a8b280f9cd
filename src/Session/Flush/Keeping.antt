-- ===== src/Session/Flush/Keeping.antt =====
-- What `flush_packets` of tox-sequenced/src/session.rs leaves alone: the reassemblers, what is reserved
-- for them, and the estimate of the round trip.
use native.Mathlib.Decide.{ℕ_discrete}
use rs_toxcore_c.Prelude.{
  ℕ, zero, suc, ◌-◌, ◌≡◌, max, refl, ◌∙◌, Bool, true, false, Option, none, some, List, [], ◌∷◌, ltb,
  leb, if◌then◌else◌, arith, inl, inr, Bool-cases, Option-cases, subst,
}
use rs_toxcore_c.Protocol.{Packet}
use rs_toxcore_c.Rtt.{RttEstimator, millis, rto_with_backoff}
use rs_toxcore_c.FlatMap
use rs_toxcore_c.FlatMap.Sums.{weigh}
use rs_toxcore_c.Scheduler
use rs_toxcore_c.Outgoing.{OutgoingMessage, state_of, get_fragment}
use rs_toxcore_c.Session.{CongestionControl, Platform, SequenceSession, current_rwnd}
use rs_toxcore_c.Session.Transmit.{
  ping_interval, flush_ping, flush_datagrams, note_sent, try_send_fragment, after_send, advanced,
  send_new, send_timed_out, send_retransmission, send_next_fragment_for_message, popped, timed_out,
}
use rs_toxcore_c.Session.Flush.{
  work, is_ready, send_messages, probe_target, flush_probe, tail_target, flush_tail, ack_for,
  settled, send_acks, flush_pending_acks, ids_to_ack, nack_for, asked, send_nacks,
  flush_pending_nacks, ids_to_nack, note_app_limited, finish_flush, flush_packets,
}
use rs_toxcore_c.Session.Ledger.{Books, books}

-- The books and the estimate of the round trip are the same in both.
abbrev pub Keeps : {C : Type 0} → SequenceSession C → SequenceSession C → Type 0
Keeps s s' = (books s' ≡ books s) × (s'.rtt ≡ s.rtt)

-- The result, if there is one, keeps them.
abbrev pub KeepsAny : {C T : Type 0} → SequenceSession C → Option (SequenceSession C × T) → Type 0
KeepsAny s none = Unit
KeepsAny s (some r) = Keeps s r.0

abbrev KeepsLoop :
    {C T : Type 0} → SequenceSession C → Option (SequenceSession C × T × Bool) → Type 0
KeepsLoop s none = Unit
KeepsLoop s (some r) = Keeps s r.0

Keeps-trans :
    {x y z : Books} {u v w : RttEstimator}
    → (y ≡ x) × (v ≡ u)
    → (z ≡ y) × (w ≡ v)
    → (z ≡ x) × (w ≡ u)
Keeps-trans (h, k) (h', k') = (h' ∙ h, k' ∙ k)

module _ {C Rate T : Type 0} (control_law : CongestionControl C Rate) (env : Platform Rate)
    (sender : T → Packet → T × Bool) where
  pub flush_ping-Keeps :
      (s : SequenceSession C) (t : T) (now now_ms : ℕ)
      → Keeps s (flush_ping control_law env sender s t now now_ms).0
  unfolding flush_ping
  flush_ping-Keeps s t now now_ms = elim (Bool-cases (leb (ping_interval s) (now - s.last_ping))) [
    | inl due ↦ elim (Bool-cases (sender t (Packet.ping now_ms)).1) [
      | inl ok' ↦ rw (due, ok') (refl, refl)
      | inr refused ↦ rw (due, refused) (refl, refl)
    ]
    | inr early ↦ rw early (refl, refl)
  ]

  pub flush_datagrams-Keeps :
      (queue : List Packet) (s : SequenceSession C) (t : T) (now : ℕ)
      → Keeps s (flush_datagrams control_law env sender queue s t now).0
  unfolding flush_datagrams
  flush_datagrams-Keeps [] s t now = (refl, refl)
  flush_datagrams-Keeps (dg ∷ queue) s t now = elim (Bool-cases (ltb now s.next_pacing_time)) [
    | inl early ↦ rw early (refl, refl)
    | inr due ↦ elim (Bool-cases (sender t dg).1) [
      | inl ok' ↦ rw (due, ok') (flush_datagrams-Keeps queue _ _ now)
      | inr refused ↦ rw (due, refused) (refl, refl)
    ]
  ]

  try_send_fragment-Keeps :
      (s : SequenceSession C) (t : T) (id idx now : ℕ)
      → Keeps s (try_send_fragment control_law env sender s t id idx now).0
  unfolding try_send_fragment note_sent
  try_send_fragment-Keeps s t id idx now =
      elim (Option-cases (FlatMap.get ℕ_discrete s.outgoing id)) [
        | inl e ↦ rw (e, try_send_fragment) (refl, refl)
        | inr (msg, e) ↦
            elim (Bool-cases
              (sender t (Packet.fragment id idx msg.num_fragments (get_fragment msg idx))).1) [
                | inl ok' ↦ rw (e, try_send_fragment, ok') (refl, refl)
                | inr refused ↦ rw (e, try_send_fragment, refused) (refl, refl)
              ]
      ]

  after_send-Keeps :
      (s : SequenceSession C) (id : ℕ) (change : OutgoingMessage → OutgoingMessage)
      (control : C → C) (r : SequenceSession C × T × Bool)
      → Keeps s r.0
      → Keeps s (after_send control_law env sender id change control r).0
  unfolding after_send
  after_send-Keeps s id change control (s', t, true) k = k
  after_send-Keeps s id change control (s', t, false) k = k

  change_sent-Keeps :
      (s : SequenceSession C) (t : T) (id idx now : ℕ) (change : OutgoingMessage → OutgoingMessage)
      (control : C → C)
      → Keeps s
          (after_send control_law env sender id change control
            (try_send_fragment control_law env sender s t id idx now)).0
  change_sent-Keeps s t id idx now change control =
      after_send-Keeps s id change control (try_send_fragment control_law env sender s t id idx now)
        (try_send_fragment-Keeps s t id idx now)

  pub flush_probe-Keeps :
      (s : SequenceSession C) (t : T) (now : ℕ)
      → Keeps s (flush_probe control_law env sender s t now).0
  unfolding flush_probe
  flush_probe-Keeps s t now = elim (Option-cases (probe_target s.outgoing.entries)) [
    | inl e ↦ rw (e, flush_probe) (refl, refl)
    | inr ((id, idx, is_new), e) ↦
        let change = λ (m : OutgoingMessage). if is_new then advanced m else m in
        let k = change_sent-Keeps s t id idx now change (λ c. c) in
        rw (e, flush_probe) (ground (arith, k))
  ]

  send_new-Keeps :
      (s : SequenceSession C) (t : T) (id now : ℕ) (msg : OutgoingMessage)
      → Keeps s (send_new control_law env sender s t id now msg).0
  unfolding send_new
  send_new-Keeps s t id now msg = elim (Bool-cases (ltb msg.next_fragment msg.num_fragments)) [
    | inl more ↦ rw more (change_sent-Keeps s t id msg.next_fragment now advanced (λ c. c))
    | inr done ↦ rw done (refl, refl)
  ]

  send_timed_out-Keeps :
      (s : SequenceSession C) (t : T) (id now : ℕ) (msg : OutgoingMessage) (queue : List (ℕ × ℕ))
      → Keeps s (send_timed_out control_law env sender s t id now msg queue).0
  unfolding send_timed_out
  send_timed_out-Keeps s t id now msg [] = send_new-Keeps s t id now msg
  send_timed_out-Keeps s t id now msg ((idx, last) ∷ queue) =
      elim (Bool-cases (leb (rto_with_backoff s.rtt (state_of msg idx).rto_backoff) (now - last))) [
        | inl due ↦
            rw due
              (change_sent-Keeps s t id idx now (timed_out idx) (λ c. control_law.on_timeout c now))
        | inr early ↦ rw early (send_new-Keeps s t id now msg)
      ]

  send_next_fragment_for_message-Keeps :
      (s : SequenceSession C) (t : T) (id now : ℕ)
      → Keeps s (send_next_fragment_for_message control_law env sender s t id now).0
  unfolding send_next_fragment_for_message send_retransmission
  send_next_fragment_for_message-Keeps s t id now =
      elim (Option-cases (FlatMap.get ℕ_discrete s.outgoing id)) [
        | inl e ↦ rw (e, send_next_fragment_for_message) (refl, refl)
        | inr (msg, e) ↦
            rw (e, send_next_fragment_for_message) (retransmission msg msg.retransmit_queue)
      ]
    where
      retransmission :
          (msg : OutgoingMessage) (queue : List ℕ)
          → Keeps s (send_retransmission control_law env sender s t id now msg queue).0
      retransmission msg [] = send_timed_out-Keeps s t id now msg msg.in_flight_queue
      retransmission msg (idx ∷ queue) = change_sent-Keeps s t id idx now (popped idx) (λ c. c)

  KeepsLoop-trans :
      (s s' : SequenceSession C) (o : Option (SequenceSession C × T × Bool))
      → Keeps s s'
      → KeepsLoop s' o
      → KeepsLoop s o
  KeepsLoop-trans s s' none k h = tt
  KeepsLoop-trans s s' (some r) k h = Keeps-trans k h

  send_messages-Keeps :
      (rounds : ℕ) (s : SequenceSession C) (t : T) (any_data_sent : Bool) (now : ℕ)
      → KeepsLoop s (send_messages control_law env sender rounds s t any_data_sent now)
  unfolding send_messages
  send_messages-Keeps zero s t any_data_sent now = tt
  send_messages-Keeps (suc rounds) s t any_data_sent now = elim (Option-cases step.1) [
    | inl e ↦ rw (e, send_messages) (refl, refl)
    | inr (id, e) ↦
        let next = send_next_fragment_for_message control_law env sender s' t id now in
        let k = send_next_fragment_for_message-Keeps s' t id now in
        elim (Bool-cases next.2) [
          | inl sent ↦
              rw (e, send_messages, sent)
                (KeepsLoop-trans s next.0
                  (send_messages control_law env sender rounds next.0 next.1 true now) k
                  (send_messages-Keeps rounds next.0 next.1 true now))
          | inr refused ↦ rw (e, send_messages, refused) k
        ]
  ]
    where
      step : Scheduler.PriorityScheduler × Option ℕ
      step =
          Scheduler.next_message (is_ready control_law env sender s now any_data_sent) s.scheduler

      s' : SequenceSession C
      s' = record s { scheduler = step.0 }

  flush_tail-Keeps :
      (s : SequenceSession C) (t : T) (any_data_sent : Bool) (now : ℕ)
      → Keeps s (flush_tail control_law env sender s t any_data_sent now).0
  unfolding flush_tail
  flush_tail-Keeps s t any_data_sent now =
      elim (Option-cases
        (tail_target now (max (env.mul_f32 s.rtt.srtt 1500) (millis 10)) s.outgoing.entries)) [
          | inl e ↦ rw (e, flush_tail) (refl, refl)
          | inr ((id, idx), e) ↦
              let k = try_send_fragment-Keeps s t id idx now in
              rw (e, flush_tail) (ground (arith, k))
        ]

  send_acks-Keeps :
      (ids : List ℕ) (rwnd : ℕ) (s : SequenceSession C) (t : T)
      → Keeps s (send_acks control_law env sender ids rwnd s t).0
  unfolding send_acks settled
  send_acks-Keeps [] rwnd s t = (refl, refl)
  send_acks-Keeps (id ∷ ids) rwnd s t =
      elim (Option-cases (ack_for control_law env sender s rwnd id)) [
        | inl e ↦ rw (e, send_acks) (send_acks-Keeps ids rwnd _ t)
        | inr (packet, e) ↦ elim (Bool-cases (sender t packet).1) [
          | inl ok' ↦ rw (e, send_acks, ok') (send_acks-Keeps ids rwnd _ _)
          | inr refused ↦ rw (e, send_acks, refused) (refl, refl)
        ]
      ]

  send_nacks-Keeps :
      (ids : List ℕ) (s : SequenceSession C) (t : T)
      → Keeps s (send_nacks control_law env sender ids s t).0
  unfolding send_nacks asked
  send_nacks-Keeps [] s t = (refl, refl)
  send_nacks-Keeps (id ∷ ids) s t = elim (Option-cases (nack_for control_law env sender s id)) [
    | inl e ↦ rw (e, send_nacks) (send_nacks-Keeps ids _ t)
    | inr (nack, e) ↦ elim (Bool-cases (sender t (Packet.nack nack)).1) [
      | inl ok' ↦ rw (e, send_nacks, ok') (send_nacks-Keeps ids _ _)
      | inr refused ↦ rw (e, send_nacks, refused) (refl, refl)
    ]
  ]

  note_app_limited-Keeps :
      (s : SequenceSession C) → Keeps s (note_app_limited control_law env sender s)
  unfolding note_app_limited
  note_app_limited-Keeps s = ground arith

  finish_flush-Keeps :
      (now : ℕ) (s : SequenceSession C) (t : T) (any_data_sent : Bool)
      → Keeps s (finish_flush control_law env sender now (s, t, any_data_sent)).0
  unfolding finish_flush flush_pending_acks flush_pending_nacks
  finish_flush-Keeps now s t any_data_sent = Keeps-trans (flush_tail-Keeps s t any_data_sent now) (
      Keeps-trans
        (send_acks-Keeps (ids_to_ack control_law env sender now r1.0.pending_acks.entries)
          (current_rwnd env r1.0) r1.0 r1.1)
        (Keeps-trans
          (send_nacks-Keeps
            (ids_to_nack control_law env sender now r2.0.rtt.srtt r2.0.pending_nacks.entries) r2.0
            r2.1)
          (note_app_limited-Keeps (flush_pending_nacks control_law env sender r2.0 r2.1 now).0)))
    where
      r1 : SequenceSession C × T
      r1 = flush_tail control_law env sender s t any_data_sent now

      r2 : SequenceSession C × T
      r2 = flush_pending_acks control_law env sender r1.0 r1.1 now

  -- What stands before the loop over the messages.
  pub prepared-Keeps :
      (s : SequenceSession C) (t : T) (now now_ms : ℕ)
      → let (s1, t1) = flush_ping control_law env sender s t now now_ms in
        let (s2, t2) = flush_datagrams control_law env sender s1.datagram_queue s1 t1 now in
        Keeps s (flush_probe control_law env sender s2 t2 now).0
  prepared-Keeps s t now now_ms = Keeps-trans (flush_ping-Keeps s t now now_ms) (
      Keeps-trans (flush_datagrams-Keeps r1.0.datagram_queue r1.0 r1.1 now)
        (flush_probe-Keeps r2.0 r2.1 now))
    where
      r1 : SequenceSession C × T
      r1 = flush_ping control_law env sender s t now now_ms

      r2 : SequenceSession C × T
      r2 = flush_datagrams control_law env sender r1.0.datagram_queue r1.0 r1.1 now

  pub flush_packets-Keeps :
      (s : SequenceSession C) (t : T) (now now_ms : ℕ)
      → KeepsAny s (flush_packets control_law env sender s t now now_ms)
  unfolding flush_packets
  flush_packets-Keeps s t now now_ms = elim (Option-cases looped) [
    | inl e ↦ rw (e, flush_packets) tt
    | inr ((s4, t4, any_data_sent), e) ↦
        let k : Keeps s3 s4 = subst (KeepsLoop s3) e (send_messages-Keeps rounds s3 t3 false now) in
        rw (e, flush_packets)
          (Keeps-trans (prepared-Keeps s t now now_ms)
            (Keeps-trans k (finish_flush-Keeps now s4 t4 any_data_sent)))
  ]
    where
      pinged : SequenceSession C × T
      pinged = flush_ping control_law env sender s t now now_ms

      told : SequenceSession C × T
      told = flush_datagrams control_law env sender pinged.0.datagram_queue pinged.0 pinged.1 now

      s3 : SequenceSession C
      s3 = (flush_probe control_law env sender told.0 told.1 now).0

      t3 : T
      t3 = (flush_probe control_law env sender told.0 told.1 now).1

      rounds : ℕ
      rounds = suc (weigh (work now) s3.outgoing.entries)

      looped : Option (SequenceSession C × T × Bool)
      looped = send_messages control_law env sender rounds s3 t3 false now
