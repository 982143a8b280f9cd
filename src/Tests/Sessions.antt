-- ===== src/Tests/Sessions.antt =====
-- Runs of tox-sequenced/src/session.rs and tox-sequenced/src/rtt.rs, and of the acknowledgements of
-- tox-sequenced/src/outgoing.rs that a session receives.
use rs_toxcore_c.Prelude.{
  max, ◌+◌, ℕ, refl, ◌*◌, ◌<◌, ◌≤◌, ◌≡◌, Bool, true, false, ◌||◌, some, List, [], ◌∷◌, ◌++◌, ltb,
  arith, length, if◌then◌else◌,
}
use rs_toxcore_c.Protocol.{MessageType, Packet}
use rs_toxcore_c.Rtt
use rs_toxcore_c.Rtt.{min_rto, max_rto, after, rto_with_backoff, rto_with_backoff_bounds}
use rs_toxcore_c.Outgoing.{OutgoingMessage, fresh}
use rs_toxcore_c.Outgoing.Invariant.{IsTracked, acked, fresh-IsTracked}
use rs_toxcore_c.Outgoing.Acks.{on_ack}
use rs_toxcore_c.Outgoing.Acks.Effect.{on_ack_lem}
use rs_toxcore_c.Outgoing.Acks.Collected.{in_mask}
use rs_toxcore_c.Session.{
  CongestionControl, Platform, SequenceSession, with_quota, connection_timeout,
}
use rs_toxcore_c.Session.Receive.{handle_data_packet}
use rs_toxcore_c.Session.Cleanup.{cleanup, handle_packet}
use native.Mathlib.Decide.{ℕ_discrete, dec_lt}
use rs_toxcore_c.Scheduler
use rs_toxcore_c.FlatMap
use rs_toxcore_c.Session.Transmit.{
  ping_interval, send_next_fragment_for_message, send_retransmission, send_timed_out, send_new,
  after_send, try_send_fragment,
}
use rs_toxcore_c.Session.Transmit.Refusal.{send_next_fragment_for_message_unsent}
use rs_toxcore_c.Session.Wakeup.{next_wakeup, next_wakeup_bounds}
use rs_toxcore_c.Session.Flush.{flush_packets}
use rs_toxcore_c.Session.Flush.Rounds.{flush_packets_ends}
use rs_toxcore_c.Session.Ledger.{books, IsRight}
use rs_toxcore_c.Session.Ledger.Fragments.{handle_data_packet-IsRight}
use rs_toxcore_c.Session.Ledger.Expiry.{cleanup-IsRight, handle_packet-IsRight}
use rs_toxcore_c.Session.Ledger.Runs.{Reaches, start, receive, Reaches-IsRight}

-- A window that never changes.
abbrev steady : CongestionControl ℕ ℕ
steady = record {
  on_ack = λ c rtt sample bytes flying now. c;
  on_nack = λ c now. c;
  on_timeout = λ c now. c;
  cwnd = λ c. c;
  pacing_rate = λ c. c;
  on_fragment_sent = λ c bytes flying. c;
}

-- Rates in bytes for each second, and an envelope without a header.
abbrev host : Platform ℕ
host = record {
  mul_f32 = λ d thousandths. d;
  rate_of = λ bytes time. bytes;
  exceeds = λ a b. ltb b a;
  is_usable = λ rate. ltb 0 rate;
  time_at = λ bytes rate. bytes;
  tenth = λ n. 1;
  serialize = λ type bytes. some bytes;
  deserialize = λ bytes. some (MessageType.blob_data, bytes);
  struct_overhead = 24;
}

-- A transport that keeps the packets it is given and has room for three.
abbrev queue : List Packet → Packet → List Packet × Bool
queue kept packet = if ltb (length kept) 3 then (kept ++ packet ∷ [], true) else (kept, false)

-- A quota of a million bytes, of which others have taken 500.
abbrev opened : SequenceSession ℕ
opened = with_quota 10000 (record { max_bytes = 1000000; used_bytes = 500 }) 0 7

opened-Reaches : Reaches steady host queue 500 opened
opened-Reaches =
    start 10000 (record { max_bytes = 1000000; used_bytes = 500 }) 0 7 (omega arith) (omega arith)

abbrev first_half : Packet
first_half = Packet.fragment 3 0 2 (10 ∷ 20 ∷ [])

abbrev half_received : SequenceSession ℕ
half_received = (handle_packet steady host opened first_half 5 0 0).0

half_received-Reaches : Reaches steady host queue 500 half_received
half_received-Reaches = receive first_half 5 0 0 (omega arith, omega arith) opened-Reaches

half_received-IsRight : IsRight 500 (books half_received)
half_received-IsRight = Reaches-IsRight steady host queue (omega arith) half_received-Reaches

handle_data_packet-IsRight_example :
    IsRight 500 (books (handle_data_packet host half_received 3 1 2 (30 ∷ []) 6).0)
handle_data_packet-IsRight_example =
    handle_data_packet-IsRight host half_received 3 1 2 (30 ∷ []) 6 (omega arith) (omega arith)
      (omega arith) half_received-IsRight

handle_packet-IsRight_example :
    IsRight 500
      (books (handle_packet steady host half_received (Packet.fragment 3 1 2 (30 ∷ [])) 6 0 0).0)
handle_packet-IsRight_example =
    handle_packet-IsRight steady host half_received (Packet.fragment 3 1 2 (30 ∷ [])) 6 0 0
      (omega arith) (omega arith, omega arith) half_received-IsRight

cleanup-IsRight_example : IsRight 500 (books (cleanup half_received 40000000000))
cleanup-IsRight_example = cleanup-IsRight half_received 40000000000 half_received-IsRight

rto_with_backoff_bounds_example :
    let e = after host.mul_f32 (1000 ∷ 7000000000 ∷ []) in
    (min_rto ≤ e.rto)
    × (e.rto ≤ max_rto)
    × (e.rto ≤ rto_with_backoff e 2)
    × (rto_with_backoff e 2 ≤ rto_with_backoff e 3)
    × (rto_with_backoff e 8 ≡ e.rto * 64)
    × (rto_with_backoff e 2 ≤ 64 * max_rto)
rto_with_backoff_bounds_example = rto_with_backoff_bounds host.mul_f32 (1000 ∷ 7000000000 ∷ []) 2

abbrev two_fragments : OutgoingMessage
two_fragments = fresh 0 MessageType.blob_data (10 ∷ 20 ∷ 30 ∷ []) 2 0 2

two_fragments-IsTracked : IsTracked two_fragments
two_fragments-IsTracked =
    fresh-IsTracked 0 MessageType.blob_data (10 ∷ 20 ∷ 30 ∷ []) 2 0 2 (omega arith)

on_ack_lem_example :
    let m' = (on_ack host.rate_of host.exceeds two_fragments 1 0 5 0).0 in
    IsTracked m'
    × (m'.num_fragments ≡ 2)
    × ((j : ℕ) → j < 2 → acked m' j ≡ (acked two_fragments j || ltb j 1 || in_mask 1 0 j))
unfolding fresh
on_ack_lem_example =
    on_ack_lem host.rate_of host.exceeds 1 0 5 0 two_fragments-IsTracked (omega arith)

-- The message of two fragments waits to be sent.
abbrev busy : SequenceSession ℕ
busy = record opened {
  outgoing = record { entries = (7, two_fragments) ∷ [] };
  scheduler = Scheduler.update_message Scheduler.new 7 3;
}

flush_packets_ends_example :
    (r : SequenceSession ℕ × List Packet) × (flush_packets steady host queue busy [] 20000000000
        20000
      ≡ some r)
unfolding with_quota Rtt.new
flush_packets_ends_example =
    flush_packets_ends steady host queue busy [] 20000000000 20000 (omega arith)

-- A transport that is full.
abbrev full : List Packet
full = Packet.ping 1 ∷ Packet.ping 2 ∷ Packet.ping 3 ∷ []

refused : (send_next_fragment_for_message steady host queue busy full 7 5).2 ≡ false
unfolding send_next_fragment_for_message send_retransmission send_timed_out send_new after_send
    try_send_fragment FlatMap.get FlatMap.find fresh ℕ_discrete dec_lt
refused = refl

send_next_fragment_for_message_unsent_example :
    (send_next_fragment_for_message steady host queue busy full 7 5).0 ≡ busy
send_next_fragment_for_message_unsent_example =
    send_next_fragment_for_message_unsent steady host queue busy full 7 5 refused

next_wakeup_bounds_example :
    (100 ≤ next_wakeup steady host busy 100)
    × (next_wakeup steady host busy 100 ≤ max 100 (busy.last_activity + connection_timeout))
    × (next_wakeup steady host busy 100 ≤ max 100 (busy.last_ping + ping_interval busy))
next_wakeup_bounds_example = next_wakeup_bounds steady host busy 100
