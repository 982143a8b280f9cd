-- ===== src/Outgoing/Acks.antt =====
-- tox-sequenced/src/outgoing.rs: what an acknowledgement does to an `OutgoingMessage`. The
-- references that the code hands on (`to_remove`, `needs_cleanup`, `res`) are fields of a record
-- beside the message. Delivery rates are `f32`: their type, how one is computed from bytes and a
-- time, and their `>` are parameters.
pub mod Parts
pub mod Collected
pub mod Effect
use rs_toxcore_c.Prelude.{
  ℕ, zero, suc, ◌+◌, ◌-◌, ◌*◌, ◌%◌, ◌^◌, min, max, bit_and, Bool, true, false, not, ◌&&◌, ◌||◌,
  Option, none, some, List, [], ◌∷◌, ◌++◌, ◌==◌, ltb, leb, if◌then◌else◌, length, is_some,
}
use rs_toxcore_c.Prelude
use rs_toxcore_c.Protocol.{
  bitset_words, max_fragments_per_message, u16_mod, u32_mod, usize_sub, fragment_index_add,
}
use rs_toxcore_c.Word.{complement, shl, trailing_zeros}
use rs_toxcore_c.BitSet
use rs_toxcore_c.BitSet.{BitSet}
use rs_toxcore_c.Outgoing.{OutgoingMessage, FragmentState, FragmentDeliveryInfo, is_acked, state_of}
use rs_toxcore_c.Outgoing.Acks.Parts.{
  is_none_or, is_some_and, collect_acked_indices, Removals, mark_for_removal, requeue,
  cleanup_in_flight_queue, prune_retransmits,
}

pub record AckResult (Rate : Type 0) : Type 0 where
  pub newly_delivered_bytes : ℕ
  pub newly_completed_in_flight_bytes : ℕ
  pub min_rtt : Option ℕ
  pub first_rtt : Option ℕ
  pub loss_detected : Bool
  pub delivery_sample : Option (ℕ × ℕ × Rate × Bool)

-- What the steps of `on_ack` share: the message, the fragments to drop from the queue, the result.
pub record Progress (Rate : Type 0) : Type 0 where
  pub msg : OutgoingMessage
  pub removals : Removals
  pub res : AckResult Rate

-- The message after fragment `idx` was found newly acknowledged.
pub acknowledge : OutgoingMessage → ℕ → OutgoingMessage
acknowledge m idx =
    let state = state_of m idx in
    record m {
      acked_bitset = (BitSet.set bitset_words m.acked_bitset idx).0;
      acked_count = (m.acked_count + 1) % u16_mod;
      fragment_states = Prelude.set m.fragment_states idx (record state { last_sent = none });
      highest_sent_time_acked = elim state.last_sent [
        | none ↦ m.highest_sent_time_acked
        | some ls ↦
            if is_none_or (λ top. ltb top ls) m.highest_sent_time_acked
            then some ls
            else m.highest_sent_time_acked
      ];
    }

-- One past the highest acknowledged fragment.
pub hole_limit : OutgoingMessage → ℕ
hole_limit m = elim (BitSet.last_one bitset_words m.acked_bitset m.num_fragments) [
  | none ↦ 0
  | some i ↦ i + 1
]

module _ {Rate : Type 0} where
  -- The samples of the round trip, for a fragment that was sent once.
  pub update_rtt : FragmentDeliveryInfo → AckResult Rate → ℕ → AckResult Rate
  update_rtt info res now =
      let rtt = now - info.first_sent_time in
      record res {
        first_rtt = if is_some res.first_rtt then res.first_rtt else some rtt;
        min_rtt = if is_none_or (λ m. ltb rtt m) res.min_rtt then some rtt else res.min_rtt;
      }

  pub trigger_loss : ℕ → Progress Rate → Progress Rate
  unfolding requeue mark_for_removal
  trigger_loss idx q = record {
    msg = requeue q.msg idx;
    removals =
        if is_some (state_of q.msg idx).last_sent
        then mark_for_removal idx q.removals
        else q.removals;
    res = record q.res { loss_detected = true };
  }

  pub handle_fast_retransmit : ℕ → Progress Rate → Progress Rate
  unfolding trigger_loss
  handle_fast_retransmit base_index q =
      let dup = (q.msg.dup_ack_count + 1) % u32_mod in
      let q' = record q { msg = record q.msg { dup_ack_count = dup } } in
      let should_trigger =
        is_some_and
          (λ ls_this. is_none_or (λ ls_acked. leb ls_this ls_acked) q.msg.highest_sent_time_acked)
          (state_of q.msg base_index).last_sent in
      if base_index == q.msg.last_ack_base && ltb base_index q.msg.num_fragments
      then (if (dup == 3)
            && not (is_acked q.msg base_index)
            && not (BitSet.get bitset_words q.msg.retransmit_bitset base_index)
          then (if should_trigger then trigger_loss base_index q' else q')
          else q')
      else q

  -- The loop over the `rounds` indices from `idx` on.
  pub scan_holes : ℕ → ℕ → ℕ → Option ℕ → ℕ → Progress Rate → Progress Rate
  scan_holes zero idx acked_count max_ls acked_so_far q = q
  scan_holes (suc rounds) idx acked_count max_ls acked_so_far q =
      let acked = BitSet.get bitset_words q.msg.acked_bitset idx in
      let should_trigger =
        is_some_and (λ ls_this. is_some_and (λ ls_acked. leb ls_this ls_acked) max_ls)
          (state_of q.msg idx).last_sent in
      let lost =
        not acked
        && not (BitSet.get bitset_words q.msg.retransmit_bitset idx)
        && leb 3 (usize_sub acked_count acked_so_far)
        && should_trigger in
      scan_holes rounds (suc idx) acked_count max_ls
        (if acked then acked_so_far + 1 else acked_so_far) (if lost then trigger_loss idx q else q)

  pub detect_losses_from_holes : Progress Rate → Progress Rate
  unfolding scan_holes hole_limit
  detect_losses_from_holes q =
      let from = q.msg.highest_cumulative_ack in
      let search_limit = hole_limit q.msg in
      scan_holes (search_limit - from) from q.msg.acked_count q.msg.highest_sent_time_acked from q

  -- The new base, or the duplicate of an old one.
  pub note_base : ℕ → ℕ → Bool → Progress Rate → Progress Rate
  unfolding handle_fast_retransmit
  note_base base_index now any_newly_acked q =
      if ltb q.msg.last_ack_base base_index
      then record q {
        msg = record q.msg { last_ack_base = base_index; dup_ack_count = 0; last_ack_at = now };
      }
      else if any_newly_acked
      then (let q' = handle_fast_retransmit base_index q in
          record q' { msg = record q'.msg { last_ack_at = now } })
      else q

  -- The end of `on_ack`: acknowledged fragments leave the queue of retransmissions, and those that
  -- were acknowledged or lost leave the queue in flight.
  pub finish : Bool → Progress Rate → OutgoingMessage × AckResult Rate
  unfolding prune_retransmits cleanup_in_flight_queue
  finish any_newly_acked q =
      let m = if any_newly_acked then prune_retransmits q.msg else q.msg in
      let (m', bytes) = cleanup_in_flight_queue m q.removals.to_remove in
      if q.removals.needs_cleanup
      then (m', record q.res { newly_completed_in_flight_bytes = bytes })
      else (m, q.res)

module _ {Rate : Type 0} (rate_of : ℕ → ℕ → Rate) (exceeds : Rate → Rate → Bool) where
  pub update_delivery_sample : FragmentDeliveryInfo → AckResult Rate → ℕ → ℕ → AckResult Rate
  update_delivery_sample info res total_delivered_bytes now =
      let duration = now - info.delivery_time_at_send in
      let delivered_bytes =
        usize_sub (total_delivered_bytes + res.newly_delivered_bytes) info.delivered_at_send in
      let current_rate = rate_of delivered_bytes duration in
      if duration == 0
      then res
      else if is_none_or (λ sample. exceeds current_rate sample.2) res.delivery_sample
      then record res {
        delivery_sample =
            some
              (info.delivered_at_send, info.delivery_time_at_send, current_rate, info.app_limited);
      }
      else res

  -- What `process_single_ack` records of the fragment's delivery.
  pub record_delivery :
      Option FragmentDeliveryInfo → Bool → Bool → ℕ → ℕ → ℕ → Progress Rate → Progress Rate
  unfolding update_delivery_sample update_rtt mark_for_removal
  record_delivery none is_retransmission last_sent_existed idx now total_delivered_bytes q = q
  record_delivery (some info) is_retransmission last_sent_existed idx now total_delivered_bytes q =
      let res = record q.res { newly_delivered_bytes = q.res.newly_delivered_bytes + info.size } in
      let sampled = update_delivery_sample info res total_delivered_bytes now in
      record q {
        removals = if last_sent_existed then mark_for_removal idx q.removals else q.removals;
        res = if is_retransmission then sampled else update_rtt info sampled now;
      }

  pub process_single_ack : ℕ → ℕ → ℕ → Progress Rate → Progress Rate × Bool
  unfolding acknowledge record_delivery
  process_single_ack idx now total_delivered_bytes q =
      let state = state_of q.msg idx in
      if leb q.msg.num_fragments idx
      then (q, false)
      else if (BitSet.set bitset_words q.msg.acked_bitset idx).1
      then (
        record_delivery state.delivery_info (ltb 0 state.retransmit_count) (is_some state.last_sent)
            idx now total_delivered_bytes (record q { msg = acknowledge q.msg idx }),
        true,
      )
      else (q, false)

  -- The loop of `on_ack` over the acknowledged indices, with `any_newly_acked`.
  pub process_acks : List ℕ → ℕ → ℕ → Progress Rate → Bool → Progress Rate × Bool
  process_acks [] now total_delivered_bytes q any = (q, any)
  process_acks (idx ∷ indices) now total_delivered_bytes q any =
      let (q', newly) = process_single_ack idx now total_delivered_bytes q in
      process_acks indices now total_delivered_bytes q' (any || newly)

  pub on_ack : OutgoingMessage → ℕ → ℕ → ℕ → ℕ → OutgoingMessage × AckResult Rate
  on_ack m base_index bitmask now total_delivered_bytes =
      let (m', acked_indices) =
        collect_acked_indices (record m { last_ack_at = now }) base_index bitmask in
      let start : Progress Rate = record {
        msg = m';
        removals = record { to_remove = BitSet.new bitset_words; needs_cleanup = false };
        res = record {
          newly_delivered_bytes = 0;
          newly_completed_in_flight_bytes = 0;
          min_rtt = none;
          first_rtt = none;
          loss_detected = false;
          delivery_sample = none;
        };
      } in
      let (q, any_newly_acked) = process_acks acked_indices now total_delivered_bytes start false in
      finish any_newly_acked (detect_losses_from_holes (note_base base_index now any_newly_acked q))
