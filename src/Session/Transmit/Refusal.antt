-- ===== src/Session/Transmit/Refusal.antt =====
-- The sending of fragments of tox-sequenced/src/session.rs with a transport that may refuse a packet.
use native.Mathlib.Decide.{ℕ_discrete}
use rs_toxcore_c.Prelude.{
  ℕ, ◌-◌, ◌≡◌, refl, Bool, false, List, [], ◌∷◌, ltb, leb, inl, inr, Bool-cases, Option-cases,
}
use rs_toxcore_c.Protocol.{Packet}
use rs_toxcore_c.Rtt.{rto_with_backoff}
use rs_toxcore_c.FlatMap
use rs_toxcore_c.Outgoing.{OutgoingMessage, state_of, get_fragment}
use rs_toxcore_c.Session.{CongestionControl, Platform, SequenceSession}
use rs_toxcore_c.Session.Transmit.{
  try_send_fragment, after_send, advanced, popped, timed_out, send_new, send_timed_out,
  send_retransmission, send_next_fragment_for_message,
}

module _ {C Rate T : Type 0} (control_law : CongestionControl C Rate) (env : Platform Rate)
    (sender : T → Packet → T × Bool) (s : SequenceSession C) (t : T) (id now : ℕ) where
  -- The session is as it was, unless something was sent.
  abbrev Unless : SequenceSession C × T × Bool → Type 0
  Unless (s', t', sent) = sent ≡ false → s' ≡ s

  change_sent-Unless :
      (idx : ℕ) (change : OutgoingMessage → OutgoingMessage) (control : C → C)
      → Unless (
          after_send control_law env sender id change control
            (try_send_fragment control_law env sender s t id idx now))
  unfolding after_send try_send_fragment
  change_sent-Unless idx change control =
      elim (Option-cases (FlatMap.get ℕ_discrete s.outgoing id)) [
        | inl e ↦ rw (e, try_send_fragment) (λ h. refl)
        | inr (msg, e) ↦
            elim (Bool-cases
              (sender t (Packet.fragment id idx msg.num_fragments (get_fragment msg idx))).1) [
                | inl accepted ↦ rw (e, try_send_fragment, accepted) (λ h. cc)
                | inr refused ↦ rw (e, try_send_fragment, refused) (λ h. refl)
              ]
      ]

  send_new-Unless :
      (msg : OutgoingMessage) → Unless (send_new control_law env sender s t id now msg)
  unfolding send_new
  send_new-Unless msg = elim (Bool-cases (ltb msg.next_fragment msg.num_fragments)) [
    | inl more ↦ rw more (change_sent-Unless msg.next_fragment advanced (λ c. c))
    | inr done ↦ rw done (λ h. refl)
  ]

  send_timed_out-Unless :
      (msg : OutgoingMessage) (queue : List (ℕ × ℕ))
      → Unless (send_timed_out control_law env sender s t id now msg queue)
  unfolding send_timed_out
  send_timed_out-Unless msg [] = send_new-Unless msg
  send_timed_out-Unless msg ((idx, last) ∷ queue) =
      elim (Bool-cases (leb (rto_with_backoff s.rtt (state_of msg idx).rto_backoff) (now - last))) [
        | inl due ↦
            rw due (change_sent-Unless idx (timed_out idx) (λ c. control_law.on_timeout c now))
        | inr early ↦ rw early (send_new-Unless msg)
      ]

  send_retransmission-Unless :
      (msg : OutgoingMessage) (queue : List ℕ)
      → Unless (send_retransmission control_law env sender s t id now msg queue)
  unfolding send_retransmission
  send_retransmission-Unless msg [] = send_timed_out-Unless msg msg.in_flight_queue
  send_retransmission-Unless msg (idx ∷ queue) = change_sent-Unless idx (popped idx) (λ c. c)

  -- If no fragment of a message was sent, since the transport refused it, the message is unknown or
  -- nothing of it is due, the session is exactly as it was: the bytes in flight, the queues, the
  -- pacing and the congestion control.
  pub send_next_fragment_for_message_unsent :
      (send_next_fragment_for_message control_law env sender s t id now).2 ≡ false
      → (send_next_fragment_for_message control_law env sender s t id now).0 ≡ s
  unfolding send_next_fragment_for_message
  send_next_fragment_for_message_unsent =
      elim (Option-cases (FlatMap.get ℕ_discrete s.outgoing id)) [
        | inl e ↦ rw (e, send_next_fragment_for_message) (λ h. refl)
        | inr (msg, e) ↦
            rw (e, send_next_fragment_for_message)
              (send_retransmission-Unless msg msg.retransmit_queue)
      ]
