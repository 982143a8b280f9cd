-- ===== src/Session/Ledger/Runs.antt =====
-- Runs of a session of tox-sequenced/src/session.rs beside others that share its quota.
use rs_toxcore_c.Prelude.{
  ℕ, ◌+◌, ◌^◌, ◌≤◌, ◌<◌, ◌≡◌, refl, List, [], ◌∷◌, arith, inl, inr, Bool-cases, subst, some, leb,
  ltb, length, Bool, Option,
}
use rs_toxcore_c.Protocol.{
  Packet, MessageType, Result, ok, err, message_id_add, max_concurrent_outgoing, max_datagram_queue,
  max_tox_packet_size,
}
use rs_toxcore_c.Quota.{ReassemblyQuota, reserve_guaranteed, reserve_attempt}
use rs_toxcore_c.Quota.Limits.{fits}
use rs_toxcore_c.FlatMap
use rs_toxcore_c.Outgoing.{OutgoingMessage}
use native.Mathlib.Decide.{ℕ_discrete}
use rs_toxcore_c.FlatMap.Sums.{weigh}
use rs_toxcore_c.Session.{
  CongestionControl, Platform, SequenceSession, with_quota, set_quota, poll_event, pop_front,
  SessionEvent,
}
use rs_toxcore_c.Session.Send.{
  set_message_timeout, send_datagram, enqueue, cut_envelope, free_id, send_message_at,
}
use rs_toxcore_c.Session.Flush.{flush_packets}
use rs_toxcore_c.Session.Flush.Keeping.{KeepsAny, flush_packets-Keeps}
use rs_toxcore_c.Session.Cleanup.{cleanup, handle_packet}
use rs_toxcore_c.Session.Ledger.{books, IsRight}
use rs_toxcore_c.Session.Ledger.Expiry.{IsFramed, cleanup-IsRight, handle_packet-IsRight}

module _ {C Rate T : Type 0} (cc : CongestionControl C Rate) (env : Platform Rate)
    (sender : T → Packet → T × Bool) where
  -- The states that a session can reach while `others` is what the other sessions have reserved of
  -- the quota that it uses. They may reserve and release at any time, within its capacity. The
  -- session moves to another quota (`set_quota`) only if that has room for what it has reserved:
  -- the code ignores the answer of `reserve_guaranteed`, and gives nothing back to the quota before.
  pub data Reaches : ℕ → SequenceSession C → Type 0 where
    start :
        (c : C) (q : ReassemblyQuota) (now first_id : ℕ)
        → q.used_bytes ≤ q.max_bytes
        → q.max_bytes < fits
        → Reaches q.used_bytes (with_quota c q now first_id)
    receive :
        {others : ℕ} {s : SequenceSession C} (packet : Packet) (now now_ms jitter : ℕ)
        → IsFramed packet
        → Reaches others s
        → Reaches others (handle_packet cc env s packet now now_ms jitter).0
    send :
        {others : ℕ} {s : SequenceSession C} (type : MessageType) (bytes : List ℕ) (now : ℕ)
        → Reaches others s
        → Reaches others (send_message_at cc env s type bytes now).0
    clean :
        {others : ℕ} {s : SequenceSession C} (now : ℕ)
        → Reaches others s
        → Reaches others (cleanup s now)
    flush :
        {others : ℕ} {s s' : SequenceSession C} (t t' : T) (now now_ms : ℕ)
        → flush_packets cc env sender s t now now_ms ≡ some (s', t')
        → Reaches others s
        → Reaches others s'
    move :
        {others : ℕ} {s : SequenceSession C} (q : ReassemblyQuota)
        → q.used_bytes + s.incoming_buffer_size ≤ q.max_bytes
        → q.max_bytes < fits
        → Reaches others s
        → Reaches q.used_bytes (set_quota s q)
    timeout :
        {others : ℕ} {s : SequenceSession C} (message_id time : ℕ)
        → Reaches others s
        → Reaches others (set_message_timeout s message_id time)
    datagram :
        {others : ℕ} {s : SequenceSession C} (type : MessageType) (bytes : List ℕ)
        → Reaches others s
        → Reaches others (send_datagram s type bytes).0
    poll : {others : ℕ} {s : SequenceSession C} → Reaches others s → Reaches others (poll_event s).0
    elsewhere :
        {others : ℕ} {s : SequenceSession C} (others' : ℕ)
        → others' + s.incoming_buffer_size ≤ s.quota.max_bytes
        → Reaches others s
        → Reaches others' (record s {
          quota = record {
            max_bytes = s.quota.max_bytes;
            used_bytes = others' + s.incoming_buffer_size;
          };
        })

with_quota-IsRight :
    {C : Type 0} (c : C) (q : ReassemblyQuota) (now first_id : ℕ)
    → q.used_bytes ≤ q.max_bytes
    → q.max_bytes < fits
    → IsRight q.used_bytes (books (with_quota c q now first_id))
unfolding with_quota FlatMap.new weigh
with_quota-IsRight c q now first_id w m = record {
  distinct = tt;
  held = tt;
  charged = refl;
  shared = omega arith;
  capped = omega arith;
  within = w;
  small = m;
  few = omega arith;
}

books-pop_front :
    {C : Type 0} (s : SequenceSession C) (events : List SessionEvent)
    → books (pop_front s events).0 ≡ books s
unfolding pop_front
books-pop_front s [] = refl
books-pop_front s (event ∷ events) = refl

books-poll_event : {C : Type 0} (s : SequenceSession C) → books (poll_event s).0 ≡ books s
unfolding poll_event
books-poll_event s = books-pop_front s s.events

module _ {C Rate : Type 0} (cc : CongestionControl C Rate) (env : Platform Rate) where
  books-send_message_at :
      (s : SequenceSession C) (type : MessageType) (bytes : List ℕ) (now : ℕ)
      → books (send_message_at cc env s type bytes now).0 ≡ books s
  unfolding send_message_at enqueue
  books-send_message_at s type bytes now =
      elim (Bool-cases (leb max_concurrent_outgoing (FlatMap.len s.outgoing))) [
        | inl full ↦ rw full refl
        | inr room ↦ elim (Bool-cases (FlatMap.contains_key ℕ_discrete s.outgoing id)) [
          | inl taken ↦ rw (room, taken) refl
          | inr free ↦ rw (room, free) (made (cut_envelope type (env.serialize type bytes) now))
        ]
      ]
    where
      id : ℕ
      id = free_id max_concurrent_outgoing s.outgoing s.next_message_id

      made :
          (m : Result OutgoingMessage)
          → books (enqueue (record s { next_message_id = message_id_add id 1 }) id type m).0
            ≡ books s
      made (ok m) = refl
      made (err e) = refl

module _ {C : Type 0} where
  books-set_message_timeout :
      (s : SequenceSession C) (message_id time : ℕ)
      → books (set_message_timeout s message_id time) ≡ books s
  unfolding set_message_timeout
  books-set_message_timeout s message_id time = refl

  books-send_datagram :
      (s : SequenceSession C) (type : MessageType) (bytes : List ℕ)
      → books (send_datagram s type bytes).0 ≡ books s
  unfolding send_datagram
  books-send_datagram s type bytes =
      elim (Bool-cases (leb max_datagram_queue (length s.datagram_queue))) [
        | inl full ↦ rw full refl
        | inr room ↦ elim (Bool-cases (ltb max_tox_packet_size (length bytes + 10))) [
          | inl large ↦ rw (room, large) refl
          | inr small ↦ rw (room, small) refl
        ]
      ]

guaranteed_room :
    (q : ReassemblyQuota) (amount : ℕ)
    → q.used_bytes + amount ≤ q.max_bytes
    → q.max_bytes < fits
    → ((reserve_guaranteed q amount).0.max_bytes ≡ q.max_bytes)
      × ((reserve_guaranteed q amount).0.used_bytes ≡ q.used_bytes + amount)
unfolding reserve_guaranteed reserve_attempt
guaranteed_room q amount room small = ground (arith, room, small)

-- A quota with room takes over what the session has reserved.
set_quota-IsRight :
    {C : Type 0} (s : SequenceSession C) (q : ReassemblyQuota) (others : ℕ)
    → q.used_bytes + s.incoming_buffer_size ≤ q.max_bytes
    → q.max_bytes < fits
    → IsRight others (books s)
    → IsRight q.used_bytes (books (set_quota s q))
unfolding set_quota
set_quota-IsRight s q others room small v = elim (Bool-cases (ltb 0 s.incoming_buffer_size)) [
  | inr e ↦
      let empty : s.incoming_buffer_size ≡ 0 = ground (arith, e) in
      rw (set_quota, e)
        (record {
          distinct = v.distinct;
          held = v.held;
          charged = v.charged;
          shared = omega (arith, empty);
          capped = v.capped;
          within = omega (arith, room);
          small = small;
          few = v.few;
        })
  | inl e ↦
      let (same, used) = guaranteed_room q s.incoming_buffer_size room small in
      rw (set_quota, e)
        (record {
          distinct = v.distinct;
          held = v.held;
          charged = v.charged;
          shared = used;
          capped = v.capped;
          within = omega (arith, room, same, used);
          small = omega (arith, small, same);
          few = v.few;
        })
]

pub Reaches-IsRight :
    {C Rate T : Type 0} (cc : CongestionControl C Rate) (env : Platform Rate)
    (sender : T → Packet → T × Bool)
    → env.struct_overhead ≤ 2 ^ 16
    → {others : ℕ} {s : SequenceSession C} → Reaches cc env sender others s
    → IsRight others (books s)
Reaches-IsRight cc env sender o (start c q now first_id w m) =
    with_quota-IsRight c q now first_id w m
Reaches-IsRight cc env sender o (receive {s = s} packet now now_ms jitter f r) =
    handle_packet-IsRight cc env s packet now now_ms jitter o f (Reaches-IsRight cc env sender o r)
Reaches-IsRight cc env sender o (send {s = s} type bytes now r) =
    rw (books-send_message_at cc env s type bytes now) (Reaches-IsRight cc env sender o r)
Reaches-IsRight cc env sender o (clean {s = s} now r) =
    cleanup-IsRight s now (Reaches-IsRight cc env sender o r)
Reaches-IsRight cc env sender o (move {s = s} q room small r) =
    set_quota-IsRight s q _ room small (Reaches-IsRight cc env sender o r)
Reaches-IsRight cc env sender o (timeout {s = s} message_id time r) =
    rw (books-set_message_timeout s message_id time) (Reaches-IsRight cc env sender o r)
Reaches-IsRight cc env sender o (datagram {s = s} type bytes r) =
    rw (books-send_datagram s type bytes) (Reaches-IsRight cc env sender o r)
Reaches-IsRight {C = C} {T = T} cc env sender o (flush {s = s} t t' now now_ms e r) =
    let kept =
      subst (λ (x : Option (SequenceSession C × T)). KeepsAny s x) e
        (flush_packets-Keeps cc env sender s t now now_ms) in
    rw kept.0 (Reaches-IsRight cc env sender o r)
Reaches-IsRight cc env sender o (poll {s = s} r) =
    rw (books-poll_event s) (Reaches-IsRight cc env sender o r)
Reaches-IsRight cc env sender o (elsewhere others' fits' r) =
    let v = Reaches-IsRight cc env sender o r in
    record {
      distinct = v.distinct;
      held = v.held;
      charged = v.charged;
      shared = refl;
      capped = v.capped;
      within = fits';
      small = v.small;
      few = v.few;
    }
