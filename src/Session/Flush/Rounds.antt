-- ===== src/Session/Flush/Rounds.antt =====
-- The loop of `flush_packets` of tox-sequenced/src/session.rs ends.
use native.Mathlib.Decide.{ℕ_discrete}
use rs_toxcore_c.Prelude.{
  ℕ, zero, suc, ◌+◌, ◌-◌, ◌≤◌, ◌<◌, ◌≡◌, refl, ap, Bool, true, false, Option, some, List, [], ◌∷◌,
  ◌++◌, ltb, leb, if◌then◌else◌, arith, inl, inr, Bool-cases, Option-cases,
}
use rs_toxcore_c.Protocol.{Packet}
use rs_toxcore_c.Rtt.{RttEstimator, rto_with_backoff, rto-le-rto_with_backoff}
use rs_toxcore_c.FlatMap
use rs_toxcore_c.FlatMap.Laws.{find-write}
use rs_toxcore_c.FlatMap.Sums.{weigh, weigh-write}
use rs_toxcore_c.Scheduler
use rs_toxcore_c.Outgoing.{OutgoingMessage, state_of, get_fragment, mark_fragment_sent}
use rs_toxcore_c.Session.{CongestionControl, Platform, SequenceSession}
use rs_toxcore_c.Session.Transmit.{
  flush_ping, flush_datagrams, note_sent, try_send_fragment, after_send, advanced, popped,
  timed_out, send_new, send_timed_out, send_retransmission, send_next_fragment_for_message,
}
use rs_toxcore_c.Session.Flush.Keeping.{prepared-Keeps}
use rs_toxcore_c.Session.Flush.{flush_probe, aged, work, is_ready, send_messages, flush_packets}

aged-append :
    (now idx : ℕ) (queue : List (ℕ × ℕ)) → aged now (queue ++ (idx, now) ∷ []) ≡ aged now queue
unfolding aged
aged-append now idx [] = ground arith
aged-append now idx ((i, at) ∷ queue) =
    ap (λ (n : ℕ). (if ltb at now then 1 else 0) + n) (aged-append now idx queue)

-- The message after its fragment was handed to the transport.
abbrev marked : OutgoingMessage → ℕ → ℕ → ℕ → ℕ → Bool → ℕ → OutgoingMessage
marked msg idx now d l a n = (mark_fragment_sent msg idx now d l a n).0

-- Sending with this change takes one from the work.
abbrev Lessens : ℕ → ℕ → OutgoingMessage → (OutgoingMessage → OutgoingMessage) → Type 0
Lessens now idx msg change =
    (d l : ℕ) (a : Bool) (n : ℕ) → work now (change (marked msg idx now d l a n)) + 1 ≡ work now msg

popped_work :
    (now idx : ℕ) (msg : OutgoingMessage) (queue : List ℕ)
    → msg.retransmit_queue ≡ idx ∷ queue
    → Lessens now idx msg (popped idx)
unfolding work popped mark_fragment_sent
popped_work now idx msg queue e d l a n =
    rw (e, aged-append now idx msg.in_flight_queue) (omega arith)

timed_out_work :
    (now idx last : ℕ) (msg : OutgoingMessage) (queue : List (ℕ × ℕ))
    → msg.in_flight_queue ≡ (idx, last) ∷ queue
    → last < now
    → Lessens now idx msg (timed_out idx)
unfolding work timed_out mark_fragment_sent aged
timed_out_work now idx last msg queue e h d l a n = rw (e, aged-append now idx queue) (ground arith)

advanced_work :
    (now : ℕ) (msg : OutgoingMessage)
    → msg.next_fragment < msg.num_fragments
    → Lessens now msg.next_fragment msg advanced
unfolding work advanced mark_fragment_sent
advanced_work now msg h d l a n =
    rw (aged-append now msg.next_fragment msg.in_flight_queue) (omega arith)

written :
    (now id idx : ℕ) (msg m : OutgoingMessage) (change : OutgoingMessage → OutgoingMessage)
    (es : List (ℕ × OutgoingMessage))
    → FlatMap.find ℕ_discrete id es ≡ some msg
    → work now (change m) + 1 ≡ work now msg
    → weigh
          (work now)
          (FlatMap.write ℕ_discrete id change (FlatMap.write ℕ_discrete id (λ _. m) es))
        + 1
      ≡ weigh (work now) es
written now id idx msg m change es e less =
    let first = weigh-write ℕ_discrete (work now) id (λ _. m) es msg e in
    let found : FlatMap.find ℕ_discrete id (FlatMap.write ℕ_discrete id (λ _. m) es) ≡ some m =
      ground (arith, find-write ℕ_discrete id id (λ _. m) es) in
    let second =
      weigh-write ℕ_discrete (work now) id change (FlatMap.write ℕ_discrete id (λ _. m) es) m
        found in
    omega arith

module _ {C Rate T : Type 0} (control_law : CongestionControl C Rate) (env : Platform Rate)
    (sender : T → Packet → T × Bool) (now : ℕ) where
  -- The work of a session, and that a step takes one from it if it sends.
  abbrev total : SequenceSession C → ℕ
  total s = weigh (work now) s.outgoing.entries

  abbrev Shrinks : SequenceSession C → SequenceSession C × T × Bool → Type 0
  Shrinks s (s', t, sent) = (sent ≡ true → total s' + 1 ≡ total s) × (s'.rtt ≡ s.rtt)

  after_send-Shrinks :
      (s : SequenceSession C) (t : T) (id idx : ℕ) (msg : OutgoingMessage)
      (change : OutgoingMessage → OutgoingMessage) (control : C → C)
      → FlatMap.find ℕ_discrete id s.outgoing.entries ≡ some msg
      → Lessens now idx msg change
      → Shrinks s (
          after_send control_law env sender id change control
            (try_send_fragment control_law env sender s t id idx now))
  unfolding after_send try_send_fragment note_sent FlatMap.get FlatMap.update
  after_send-Shrinks s t id idx msg change control e less =
      elim (Bool-cases
        (sender t (Packet.fragment id idx msg.num_fragments (get_fragment msg idx))).1) [
          | inr refused ↦ rw (e, try_send_fragment, refused) ((λ h. cc), refl)
          | inl accepted ↦
              rw (e, try_send_fragment, accepted)
                ((λ h. written now id idx msg _ change s.outgoing.entries e (less _ _ _ _)), refl)
        ]

  send_new-Shrinks :
      (s : SequenceSession C) (t : T) (id : ℕ) (msg : OutgoingMessage)
      → FlatMap.find ℕ_discrete id s.outgoing.entries ≡ some msg
      → Shrinks s (send_new control_law env sender s t id now msg)
  unfolding send_new
  send_new-Shrinks s t id msg e = elim (Bool-cases (ltb msg.next_fragment msg.num_fragments)) [
    | inl more ↦ rw more (
        after_send-Shrinks s t id msg.next_fragment msg advanced (λ c. c) e
          (advanced_work now msg (ground (arith, more))))
    | inr done ↦ rw done ((λ h. cc), refl)
  ]

  send_timed_out-Shrinks :
      (s : SequenceSession C) (t : T) (id : ℕ) (msg : OutgoingMessage) (queue : List (ℕ × ℕ))
      → 1 ≤ s.rtt.rto
      → FlatMap.find ℕ_discrete id s.outgoing.entries ≡ some msg
      → msg.in_flight_queue ≡ queue
      → Shrinks s (send_timed_out control_law env sender s t id now msg queue)
  unfolding send_timed_out
  send_timed_out-Shrinks s t id msg [] r e f = send_new-Shrinks s t id msg e
  send_timed_out-Shrinks s t id msg ((idx, last) ∷ queue) r e f =
      let wait = rto_with_backoff s.rtt (state_of msg idx).rto_backoff in
      let long : s.rtt.rto ≤ wait = rto-le-rto_with_backoff s.rtt (state_of msg idx).rto_backoff in
      elim (Bool-cases (leb wait (now - last))) [
        | inl due ↦ rw due (
            after_send-Shrinks s t id idx msg (timed_out idx) (λ c. control_law.on_timeout c now) e
              (timed_out_work now idx last msg queue f (ground (arith, due, long, r))))
        | inr early ↦ rw early (send_new-Shrinks s t id msg e)
      ]

  send_retransmission-Shrinks :
      (s : SequenceSession C) (t : T) (id : ℕ) (msg : OutgoingMessage) (queue : List ℕ)
      → 1 ≤ s.rtt.rto
      → FlatMap.find ℕ_discrete id s.outgoing.entries ≡ some msg
      → msg.retransmit_queue ≡ queue
      → Shrinks s (send_retransmission control_law env sender s t id now msg queue)
  unfolding send_retransmission
  send_retransmission-Shrinks s t id msg [] r e f =
      send_timed_out-Shrinks s t id msg msg.in_flight_queue r e refl
  send_retransmission-Shrinks s t id msg (idx ∷ queue) r e f =
      after_send-Shrinks s t id idx msg (popped idx) (λ c. c) e (popped_work now idx msg queue f)

  send_next_fragment_for_message-Shrinks :
      (s : SequenceSession C) (t : T) (id : ℕ)
      → 1 ≤ s.rtt.rto
      → Shrinks s (send_next_fragment_for_message control_law env sender s t id now)
  unfolding send_next_fragment_for_message FlatMap.get
  send_next_fragment_for_message-Shrinks s t id r =
      elim (Option-cases (FlatMap.find ℕ_discrete id s.outgoing.entries)) [
        | inl e ↦ rw (e, send_next_fragment_for_message) ((λ h. cc), refl)
        | inr (msg, e) ↦
            rw (e, send_next_fragment_for_message)
              (send_retransmission-Shrinks s t id msg msg.retransmit_queue r e refl)
      ]

  -- With one round more than there is work, the loop ends.
  send_messages_ends :
      (rounds : ℕ) (s : SequenceSession C) (t : T) (any_data_sent : Bool)
      → 1 ≤ s.rtt.rto
      → total s < rounds
      → (r : SequenceSession C × T × Bool) × (send_messages control_law env sender rounds s t
            any_data_sent now
          ≡ some r)
  unfolding send_messages
  send_messages_ends zero s t any_data_sent r h = absurd (omega arith)
  send_messages_ends (suc rounds) s t any_data_sent r h = elim (Option-cases chosen) [
    | inl e ↦ rw (e, send_messages) (_, refl)
    | inr (id, e) ↦
        let next = send_next_fragment_for_message control_law env sender s' t id now in
        let (less, same) = send_next_fragment_for_message-Shrinks s' t id r in
        elim (Bool-cases next.2) [
          | inl sent ↦
              rw (e, send_messages, sent)
                (send_messages_ends rounds next.0 next.1 true
                  (omega (arith, ap (λ (x : RttEstimator). x.rto) same)) (omega (arith, less sent)))
          | inr refused ↦ rw (e, send_messages, refused) (_, refl)
        ]
  ]
    where
      step : Scheduler.PriorityScheduler × Option ℕ
      step =
          Scheduler.next_message (is_ready control_law env sender s now any_data_sent) s.scheduler

      chosen : Option ℕ
      chosen = step.1

      s' : SequenceSession C
      s' = record s { scheduler = step.0 }

-- `flush_packets` ends, whatever the transport accepts, if the time after which a fragment is sent
-- again is not zero: it has a result, so the rounds of its loop are never used up.
pub flush_packets_ends :
    {C Rate T : Type 0} (control_law : CongestionControl C Rate) (env : Platform Rate)
    (sender : T → Packet → T × Bool) (s : SequenceSession C) (t : T) (now now_ms : ℕ)
    → 1 ≤ s.rtt.rto
    → (r : SequenceSession C × T) × (flush_packets control_law env sender s t now now_ms ≡ some r)
unfolding flush_packets
flush_packets_ends {C} {Rate} {T} control_law env sender s t now now_ms r =
    let (result, e) =
      send_messages_ends control_law env sender now (suc (total control_law env sender now s3)) s3
        t3 false
        (omega (
          arith,
          ap (λ (x : RttEstimator). x.rto) (prepared-Keeps control_law env sender s t now now_ms).1,
        ))
        (omega arith) in
    rw (e, flush_packets) (_, refl)
  where
    pinged : SequenceSession C × T
    pinged = flush_ping control_law env sender s t now now_ms

    told : SequenceSession C × T
    told = flush_datagrams control_law env sender pinged.0.datagram_queue pinged.0 pinged.1 now

    s3 : SequenceSession C
    s3 = (flush_probe control_law env sender told.0 told.1 now).0

    t3 : T
    t3 = (flush_probe control_law env sender told.0 told.1 now).1
