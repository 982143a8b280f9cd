-- ===== src/Session.antt =====
-- tox-sequenced/src/session.rs: `SequenceSession`, one peer's end of the transport, and the trait
-- of congestion/mod.rs that it calls. Instants and durations are numbers of nanoseconds;
-- `saturating_duration_since` is subtraction, which stops at 0 as it does. The source of time is the
-- argument `now`, and the random generator gives the first message id and the jitter, which are
-- arguments too. `usize` sums are far below 2 ^ 64; a difference is written with its wrap-around.
pub mod Admission
pub mod Receive
pub mod Send
pub mod Transmit
pub mod Flush
pub mod Wakeup
pub mod Cleanup
pub mod Ledger
use native.Mathlib.Decide.{ℕ_discrete}
use rs_toxcore_c.Prelude.{
  ℕ, ◌+◌, ◌-◌, ◌*◌, ◌/◌, ◌%◌, ◌^◌, min, max, Bool, true, false, not, ◌&&◌, ◌||◌, Option, none, some,
  List, [], ◌∷◌, ◌++◌, ◌==◌, ltb, leb, if◌then◌else◌, length,
}
use rs_toxcore_c.Protocol.{
  MessageType, Packet, SelectiveAck, max_total_reassembly_buffer, estimated_payload_size,
}
use rs_toxcore_c.Rtt
use rs_toxcore_c.Rtt.{RttEstimator, seconds}
use rs_toxcore_c.Quota
use rs_toxcore_c.Quota.{ReassemblyQuota, reserve_guaranteed}
use rs_toxcore_c.FlatMap
use rs_toxcore_c.FlatMap.{FlatMap}
use rs_toxcore_c.Reassembly.{planned_total_size}
use rs_toxcore_c.Reassembly.Message.{MessageReassembler}
use rs_toxcore_c.Outgoing.{OutgoingMessage}
use rs_toxcore_c.Scheduler
use rs_toxcore_c.Scheduler.{PriorityScheduler}

pub record DeliverySample : Type 0 where
  pub bytes_delivered : ℕ
  pub duration : ℕ
  pub at : ℕ
  pub app_limited : Bool

-- The trait, as the operations of one of its implementations; a `&mut self` method returns the new
-- state, and a rate is an `f32`.
pub record CongestionControl (C Rate : Type 0) : Type 0 where
  pub on_ack : C → ℕ → Option DeliverySample → ℕ → ℕ → ℕ → C
  pub on_nack : C → ℕ → C
  pub on_timeout : C → ℕ → C
  pub cwnd : C → ℕ
  pub pacing_rate : C → Rate
  pub on_fragment_sent : C → ℕ → ℕ → C

-- What the session takes from the libraries: `f32` arithmetic, the serialisation of the envelope
-- of a message, and the size of an `Option<Vec<u8>>`.
pub record Platform (Rate : Type 0) : Type 0 where
  pub mul_f32 : ℕ → ℕ → ℕ
  pub rate_of : ℕ → ℕ → Rate
  pub exceeds : Rate → Rate → Bool
  -- `rate > 0.0 && rate.is_finite()`
  pub is_usable : Rate → Bool
  -- `Duration::from_secs_f32((bytes as f32 / rate).min(1.0))`
  pub time_at : ℕ → Rate → ℕ
  -- `(n as f32 * 0.1).max(1.0) as usize`
  pub tenth : ℕ → ℕ
  pub serialize : MessageType → List ℕ → Option (List ℕ)
  pub deserialize : List ℕ → Option (MessageType × List ℕ)
  pub struct_overhead : ℕ

pub data SessionEvent : Type 0 where
  message_completed : ℕ → MessageType → List ℕ → SessionEvent
  message_failed : ℕ → SessionEvent
  message_acked : ℕ → SessionEvent
  ready_to_send : SessionEvent
  congestion_window_changed : ℕ → SessionEvent

abbrev pub connection_timeout : ℕ
connection_timeout = seconds 300

abbrev pub fair_share_guarantee : ℕ
fair_share_guarantee = 16 * 1024

pub record SequenceSession (C : Type 0) : Type 0 where
  pub next_message_id : ℕ
  pub outgoing : FlatMap ℕ OutgoingMessage
  pub incoming : FlatMap ℕ MessageReassembler
  pub quota : ReassemblyQuota
  pub max_per_session : ℕ
  pub incoming_buffer_size : ℕ
  pub completed_incoming : FlatMap ℕ (SelectiveAck × ℕ)
  pub pending_acks : FlatMap ℕ (ℕ × ℕ)
  pub pending_nacks : FlatMap ℕ ℕ
  pub datagram_queue : List Packet
  pub scheduler : PriorityScheduler
  pub events : List SessionEvent
  pub rtt : RttEstimator
  pub congestion_control : C
  pub in_flight : ℕ
  pub peer_rwnd : ℕ
  pub delivered_bytes : ℕ
  pub last_delivery_time : ℕ
  pub last_ping : ℕ
  pub last_ping_sent : Option ℕ
  pub last_activity : ℕ
  pub next_pacing_time : ℕ
  pub last_rwnd_probe : ℕ
  pub zero_window_probes_sent : ℕ
  pub last_emitted_cwnd : ℕ
  pub app_limited : Bool
  pub highest_received_id : Option ℕ
  pub retransmit_count : ℕ
  pub clock_offset : ℕ

module _ {C : Type 0} where
  -- `with_congestion_control_and_quota_at`; `first_id` is drawn at random. Instants count from at
  -- least `CONNECTION_TIMEOUT` before `now`.
  unfoldable pub with_quota : C → ReassemblyQuota → ℕ → ℕ → SequenceSession C
  with_quota congestion_control quota now first_id = record {
    next_message_id = first_id;
    outgoing = FlatMap.new;
    incoming = FlatMap.new;
    quota = quota;
    max_per_session = max_total_reassembly_buffer;
    incoming_buffer_size = 0;
    completed_incoming = FlatMap.new;
    pending_acks = FlatMap.new;
    pending_nacks = FlatMap.new;
    datagram_queue = [];
    scheduler = Scheduler.new;
    events = [];
    rtt = Rtt.new;
    congestion_control = congestion_control;
    in_flight = 0;
    peer_rwnd = max_total_reassembly_buffer;
    delivered_bytes = 0;
    last_delivery_time = now;
    last_ping = now - connection_timeout;
    last_ping_sent = none;
    last_activity = now;
    next_pacing_time = now;
    last_rwnd_probe = now;
    zero_window_probes_sent = 0;
    last_emitted_cwnd = 0;
    app_limited = true;
    highest_received_id = none;
    retransmit_count = 0;
    clock_offset = 0;
  }

  -- `self.events.pop_front()`
  unfoldable pub pop_front :
      SequenceSession C → List SessionEvent → SequenceSession C × Option SessionEvent
  pop_front s [] = (s, none)
  pop_front s (event ∷ events) = (record s { events = events }, some event)

  unfoldable pub set_quota : SequenceSession C → ReassemblyQuota → SequenceSession C
  set_quota s quota =
      if ltb 0 s.incoming_buffer_size
      then record s { quota = (reserve_guaranteed quota s.incoming_buffer_size).0 }
      else record s { quota = quota }

  unfoldable pub poll_event : SequenceSession C → SequenceSession C × Option SessionEvent
  poll_event s = pop_front s s.events

  unfoldable pub is_dead : SequenceSession C → ℕ → Bool
  is_dead s now = ltb connection_timeout (now - s.last_activity)

-- `drop`, as what it does to the quota.
unfoldable pub drop_session : {C : Type 0} → SequenceSession C → ReassemblyQuota
drop_session s = Quota.release s.quota s.incoming_buffer_size

-- The bytes that the reassemblers of a session are planned to take.
unfoldable pub planned_sum : ℕ → List (ℕ × MessageReassembler) → ℕ
planned_sum struct_overhead [] = 0
planned_sum struct_overhead ((id, r) ∷ es) =
    planned_total_size struct_overhead r.buffer + planned_sum struct_overhead es

module _ {C Rate : Type 0} (env : Platform Rate) where
  unfoldable pub current_rwnd : SequenceSession C → ℕ
  current_rwnd s =
      let planned_size = planned_sum env.struct_overhead s.incoming.entries in
      let local_avail = s.max_per_session - planned_size in
      min (min local_avail (Quota.available s.quota) / estimated_payload_size) (2 ^ 16 - 1)

  unfoldable pub create_rejection_ack : SequenceSession C → ℕ → Packet
  create_rejection_ack s message_id =
      Packet.ack
        (record { message_id = message_id; base_index = 0; bitmask = 0; rwnd = current_rwnd s })
