-- ===== src/Session/Admission.antt =====
-- tox-sequenced/src/session.rs: the parts of the handling of fragments that decide whether a message
-- is taken, at which priority, and what is reserved for it.
use native.Mathlib.Decide.{ℕ_discrete}
use rs_toxcore_c.Prelude.{
  ℕ, ◌+◌, ◌-◌, ◌*◌, Bool, true, false, not, ◌&&◌, ◌||◌, Option, none, some, List, [], ◌∷◌, ◌==◌,
  ltb, leb, if◌then◌else◌,
}
use rs_toxcore_c.Protocol.{
  MessageType, SelectiveAck, Priority, priority, message_id_sub, usize_sub, max_completed_incoming,
}
use rs_toxcore_c.Rtt.{seconds}
use rs_toxcore_c.Quota
use rs_toxcore_c.Quota.{ReassemblyQuota, reserve_guaranteed}
use rs_toxcore_c.FlatMap
use rs_toxcore_c.FlatMap.{FlatMap}
use rs_toxcore_c.Reassembly.Message.{MessageReassembler}
use rs_toxcore_c.Session.{SequenceSession, fair_share_guarantee}

-- The priority of a message of which no type is known goes by its size.
unfoldable pub calculate_priority : Option MessageType → ℕ → ℕ → Priority
calculate_priority none total_fragments size_est =
    if total_fragments == 1
    then Priority.standard
    else if ltb size_est (32 * 1024)
    then Priority.standard
    else Priority.bulk
calculate_priority (some type) total_fragments size_est = elim (priority type) [
  | Priority.critical ↦ Priority.critical
  | other ↦ if total_fragments == 1 then Priority.standard else other
]

-- The tag of a message type in an envelope.
unfoldable pub type_of : ℕ → Option MessageType
type_of tag =
    if tag == 0x01
    then some MessageType.caps_announce
    else if tag == 0x02
    then some MessageType.caps_ack
    else if tag == 0x03
    then some MessageType.sync_heads
    else if tag == 0x04
    then some MessageType.fetch_batch_req
    else if tag == 0x05
    then some MessageType.merkle_node
    else if tag == 0x06
    then some MessageType.blob_query
    else if tag == 0x07
    then some MessageType.blob_avail
    else if tag == 0x08
    then some MessageType.blob_req
    else if tag == 0x09
    then some MessageType.blob_data
    else if tag == 0x0A
    then some MessageType.sync_sketch
    else if tag == 0x0B
    then some MessageType.sync_recon_fail
    else if tag == 0x0C
    then some MessageType.sync_shard_checksums
    else if tag == 0x0D
    then some MessageType.handshake_error
    else if tag == 0x0E
    then some MessageType.sync_rate_limited
    else if tag == 0x0F
    then some MessageType.keywrap_ack
    else if tag == 0x10
    then some MessageType.reinclusion_request
    else if tag == 0x11
    then some MessageType.reinclusion_response
    else if tag == 0x12
    then some MessageType.recon_pow_challenge
    else if tag == 0x13
    then some MessageType.recon_pow_solution
    else if tag == 0x14
    then some MessageType.admin_gossip
    else none

unfoldable pub peek_message_type : List ℕ → Option MessageType
peek_message_type [] = none
peek_message_type (head ∷ []) = none
peek_message_type (head ∷ tag ∷ rest) = if head == 0x92 then type_of tag else none

-- `highest_received_id`, moved on by a newer message.
unfoldable pub newest : Option ℕ → ℕ → Option ℕ
newest none message_id = some message_id
newest (some highest) message_id =
    if ltb (message_id_sub message_id highest) 0x80000000 then some message_id else some highest

-- The cache of completed messages, without its oldest entry when it has grown too long.
unfoldable pub trim : FlatMap ℕ (SelectiveAck × ℕ) → FlatMap ℕ (SelectiveAck × ℕ)
trim m = elim m.entries [
  | [] ↦ m
  | (oldest, _) ∷ rest ↦
      if ltb max_completed_incoming (FlatMap.len m)
      then (FlatMap.remove ℕ_discrete m oldest).0
      else m
]

-- The type seen in the first fragment settles the priority of a message that is known.
unfoldable pub learn_type : Option MessageType → ℕ → MessageReassembler → MessageReassembler
learn_type none total_fragments entry = entry
learn_type (some type) total_fragments entry = record entry {
  priority = calculate_priority (some type) total_fragments entry.reserved_bytes;
}

-- The reservation of `amount` more bytes for a session that has `size` of at most `max_bytes`; they
-- are given back if they exceed that.
unfoldable pub admission : ReassemblyQuota → ℕ → ℕ → ℕ → Priority → ReassemblyQuota × Bool
admission quota max_bytes size amount prio =
    let is_fair_share = leb (size + amount) fair_share_guarantee in
    let (taken, reserved) =
      if is_fair_share then reserve_guaranteed quota amount else Quota.reserve quota amount prio in
    if not reserved || ltb max_bytes (size + amount)
    then ((if reserved then Quota.release taken amount else taken), false)
    else (taken, true)

module _ {C : Type 0} where
  unfoldable pub is_ancient_message : SequenceSession C → ℕ → Bool
  is_ancient_message s message_id = elim s.highest_received_id [
    | none ↦ false
    | some highest ↦
        let diff = message_id_sub message_id highest in
        let offset = message_id_sub highest message_id in
        let known =
          FlatMap.contains_key ℕ_discrete s.incoming message_id
          || FlatMap.contains_key ℕ_discrete s.completed_incoming message_id in
        if ltb 0x80000000 diff
        then leb max_completed_incoming offset || (not known && ltb 32 offset)
        else diff == 0 && not known
  ]

  unfoldable pub admit : SequenceSession C → ℕ → Priority → SequenceSession C × Bool
  unfolding admission
  admit s amount prio =
      let (quota, admitted) =
        admission s.quota s.max_per_session s.incoming_buffer_size amount prio in
      (record s { quota = quota }, admitted)

  -- A reassembler that was removed gives back what was reserved for it.
  unfoldable pub give_back :
      SequenceSession C
      → FlatMap ℕ MessageReassembler × Option MessageReassembler
      → SequenceSession C × Option MessageReassembler
  give_back s (incoming, none) = (s, none)
  give_back s (incoming, some r) = (
    record s {
      incoming = incoming;
      incoming_buffer_size = usize_sub s.incoming_buffer_size r.reserved_bytes;
      quota = Quota.release s.quota r.reserved_bytes;
    },
    some r,
  )

  -- `if let Some(r) = self.incoming.remove(..)`
  unfoldable pub drop_incoming :
      SequenceSession C → ℕ → SequenceSession C × Option MessageReassembler
  unfolding give_back
  drop_incoming s message_id = give_back s (FlatMap.remove ℕ_discrete s.incoming message_id)

  -- The gaps that make a request for retransmission pending.
  unfoldable pub note_gap : SequenceSession C → ℕ → ℕ → ℕ → ℕ → SequenceSession C
  note_gap s message_id fragment_index base_idx now =
      if ltb (base_idx + 30) fragment_index
      then record s {
        pending_nacks = (FlatMap.insert ℕ_discrete s.pending_nacks message_id (now - seconds 1)).0;
      }
      else if ltb base_idx fragment_index
      then record s {
        pending_nacks =
            FlatMap.entry_or_insert ℕ_discrete s.pending_nacks message_id now (λ since. since);
      }
      else s

  -- What both outcomes of the deserialisation record.
  unfoldable pub complete_with : SequenceSession C → ℕ → SelectiveAck → ℕ → SequenceSession C
  complete_with s message_id ack now = record s {
    completed_incoming =
        trim (FlatMap.insert ℕ_discrete s.completed_incoming message_id (ack, now)).0;
    pending_acks = (FlatMap.insert ℕ_discrete s.pending_acks message_id (2, now)).0;
  }
