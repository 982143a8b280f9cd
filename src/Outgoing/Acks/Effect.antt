-- ===== src/Outgoing/Acks/Effect.antt =====
-- What `on_ack` of tox-sequenced/src/outgoing.rs does to the acknowledged fragments.
use rs_toxcore_c.Prelude.{
  ℕ, zero, suc, ◌-◌, ◌≤◌, ◌<◌, ◌≡◌, refl, sym, subst, ap, ◌∙◌, min, max, Bool, true, false, not,
  ◌&&◌, ◌||◌, Option, none, some, List, [], ◌∷◌, ◌++◌, ◌==◌, ltb, leb, if◌then◌else◌, arith, inl,
  inr, lt-or-le, Bool-cases, contains, contains-append, lt→leb, le→leb, ==_iff,
}
use rs_toxcore_c.Prelude.Search.{count_from}
use rs_toxcore_c.Protocol.{bitset_words, max_fragments_per_message}
use rs_toxcore_c.Word.{word_mod}
use rs_toxcore_c.BitSet
use rs_toxcore_c.BitSet.{BitSet}
use rs_toxcore_c.BitSet.Access.{set_lem}
use rs_toxcore_c.Outgoing.{OutgoingMessage, FragmentDeliveryInfo}
use rs_toxcore_c.Outgoing.Invariant.{
  acked, IsTracked, marked-IsValid, get-marked, marked_new, counted_marked,
}
use rs_toxcore_c.Outgoing.Acks.{
  Progress, acknowledge, trigger_loss, handle_fast_retransmit, scan_holes, hole_limit,
  detect_losses_from_holes, note_base, finish, record_delivery, process_single_ack, process_acks,
  on_ack,
}
use rs_toxcore_c.Outgoing.Acks.Parts.{
  unacked_below, acked_in_mask, collect_acked_indices, requeue, prune_retransmits,
  cleanup_in_flight_queue,
}
use rs_toxcore_c.Outgoing.Acks.Collected.{in_mask, unacked_below-contains, acked_in_mask-contains}

-- The part of a message that says what is acknowledged.
abbrev pub Core : Type 0
Core = ℕ × BitSet × ℕ × ℕ

abbrev pub core : OutgoingMessage → Core
core m = (m.num_fragments, m.acked_bitset, m.acked_count, m.highest_cumulative_ack)

module _ {Rate : Type 0} where
  trigger_loss-core : (idx : ℕ) (q : Progress Rate) → core (trigger_loss idx q).msg ≡ core q.msg
  unfolding trigger_loss requeue
  trigger_loss-core idx q = refl

  handle_fast_retransmit-core :
      (base : ℕ) (q : Progress Rate) → core (handle_fast_retransmit base q).msg ≡ core q.msg
  unfolding handle_fast_retransmit trigger_loss requeue
  handle_fast_retransmit-core base q = ground arith

  lost-core :
      (lost : Bool) (idx : ℕ) (q : Progress Rate)
      → core (if lost then trigger_loss idx q else q).msg ≡ core q.msg
  lost-core true idx q = trigger_loss-core idx q
  lost-core false idx q = refl

  scan_holes-core :
      (rounds idx count : ℕ) (max_ls : Option ℕ) (so_far : ℕ) (q : Progress Rate)
      → core (scan_holes rounds idx count max_ls so_far q).msg ≡ core q.msg
  unfolding scan_holes
  scan_holes-core zero idx count max_ls so_far q = refl
  scan_holes-core (suc rounds) idx count max_ls so_far q =
      scan_holes-core rounds (suc idx) count max_ls _ _ ∙ lost-core _ idx q

  note_base-core :
      (base now : ℕ) (any : Bool) (q : Progress Rate)
      → core (note_base base now any q).msg ≡ core q.msg
  unfolding note_base
  note_base-core base now any q = ground (arith, handle_fast_retransmit-core base q)

  detect_losses_from_holes-core :
      (q : Progress Rate) → core (detect_losses_from_holes q).msg ≡ core q.msg
  unfolding detect_losses_from_holes
  detect_losses_from_holes-core q =
      let from = q.msg.highest_cumulative_ack in
      scan_holes-core (hole_limit q.msg - from) from q.msg.acked_count q.msg.highest_sent_time_acked
        from q

  finish-core : (any : Bool) (q : Progress Rate) → core (finish any q).0 ≡ core q.msg
  unfolding finish prune_retransmits cleanup_in_flight_queue
  finish-core any q = ground arith

-- What `IsTracked` says, but for the cumulative acknowledgement, which `on_ack` moves first.
abbrev pub IsCounted : OutgoingMessage → Type 0
IsCounted m =
    (m.num_fragments ≤ max_fragments_per_message)
    × BitSet.IsValid bitset_words m.acked_bitset
    × ((i : ℕ) → acked m i ≡ true → i < m.num_fragments)
    × (m.acked_count ≡ count_from (acked m) 0 m.num_fragments)

or_comm : (a b : Bool) → (a || b) ≡ (b || a)
or_comm a b = ground arith

-- One step of the loop over the acknowledged indices.
abbrev Marks : OutgoingMessage → OutgoingMessage → (ℕ → Bool) → Type 0
Marks m m' named =
    IsCounted m'
    × (m'.num_fragments ≡ m.num_fragments)
    × (m'.highest_cumulative_ack ≡ m.highest_cumulative_ack)
    × ((j : ℕ) → j < m.num_fragments → acked m' j ≡ (acked m j || named j))

reset : (m : OutgoingMessage) → IsCounted m → IsTracked (record m { highest_cumulative_ack = 0 })
reset m (few, bits, inside, counted) = record {
  few = few;
  bits = bits;
  inside = inside;
  counted = counted;
  cumulative = λ i h l. absurd (omega arith);
}

acknowledge-Marks :
    (m : OutgoingMessage) (idx : ℕ)
    → IsCounted m
    → idx < m.num_fragments
    → acked m idx ≡ false
    → Marks m (acknowledge m idx) (λ j. idx == j)
unfolding acknowledge
acknowledge-Marks m idx c within missing =
    let v = reset m c in
    (
      (
        c.0,
        marked-IsValid v idx within missing,
        λ i h. ground (arith, get-marked v idx within missing i, c.2 i),
        counted_marked v idx within missing,
      ),
      refl,
      refl,
      λ j h. rw (get-marked v idx within missing j) (or_comm (idx == j) (acked m j)),
    )

Marks-trans :
    (m m1 m2 : OutgoingMessage) (p q : ℕ → Bool)
    → Marks m m1 p
    → Marks m1 m2 q
    → Marks m m2 (λ j. p j || q j)
Marks-trans m m1 m2 p q (c, n, h, e) (c', n', h', e') =
    (c', n' ∙ n, h' ∙ h, λ j l. ground (arith, e j l, e' j (omega arith)))

-- Tracking looks at the core only.
abbrev TracksCore : Core → Type 0
TracksCore (num, bits, count, highest) =
    (num ≤ max_fragments_per_message)
    × BitSet.IsValid bitset_words bits
    × ((i : ℕ) → BitSet.get bitset_words bits i ≡ true → i < num)
    × (count ≡ count_from (BitSet.get bitset_words bits) 0 num)
    × ((i : ℕ) → i < highest → i < num → BitSet.get bitset_words bits i ≡ true)

core-IsTracked : (m m' : OutgoingMessage) → core m' ≡ core m → TracksCore (core m) → IsTracked m'
core-IsTracked m m' e t =
    let (few, bits, inside, counted, cumulative) = subst TracksCore (sym e) t in
    record { few = few; bits = bits; inside = inside; counted = counted; cumulative = cumulative }

module _ {Rate : Type 0} (rate_of : ℕ → ℕ → Rate) (exceeds : Rate → Rate → Bool) where
  record_delivery_msg :
      (info : Option FragmentDeliveryInfo) (again existed : Bool) (idx now total : ℕ)
      (q : Progress Rate)
      → (record_delivery rate_of exceeds info again existed idx now total q).msg ≡ q.msg
  unfolding record_delivery
  record_delivery_msg none again existed idx now total q = refl
  record_delivery_msg (some info) again existed idx now total q = refl

  process_single_ack-Marks :
      (idx now total : ℕ) (q : Progress Rate)
      → IsCounted q.msg
      → Marks q.msg (process_single_ack rate_of exceeds idx now total q).0.msg (λ j. idx == j)
  unfolding process_single_ack
  process_single_ack-Marks idx now total q c = elim (lt-or-le idx q.msg.num_fragments) [
    | inr beyond ↦ rw (le→leb _ _ beyond) (c, refl, refl, λ j h. ground (arith, h))
    | inl within ↦ elim (Bool-cases (acked q.msg idx)) [
      | inl seen ↦
          let same : (BitSet.set bitset_words q.msg.acked_bitset idx).1 ≡ false =
            (set_lem bitset_words c.1 idx).1 ∙ (rw seen (ground arith)) in
          rw (lt→leb _ _ within, same) (c, refl, refl, λ j h. named_again j seen)
      | inr missing ↦
          let added = marked_new (reset q.msg c) idx within missing in
          rw (lt→leb _ _ within, added, record_delivery_msg _ _ _ idx now total _)
            (acknowledge-Marks q.msg idx c within missing)
    ]
  ]
    where
      named_again : (j : ℕ) → acked q.msg idx ≡ true → acked q.msg j ≡ (acked q.msg j || (idx == j))
      named_again j seen = elim (Bool-cases (idx == j)) [
        | inl here ↦ ground (arith, ap (acked q.msg) ((==_iff idx j).0 here))
        | inr other ↦ rw other (ground arith)
      ]

  process_acks-Marks :
      (indices : List ℕ) (now total : ℕ) (q : Progress Rate) (any : Bool)
      → IsCounted q.msg
      → Marks q.msg (process_acks rate_of exceeds indices now total q any).0.msg (contains indices)
  unfolding process_acks contains
  process_acks-Marks [] now total q any c = (c, refl, refl, λ j h. ground arith)
  process_acks-Marks (idx ∷ indices) now total q any c =
      let first = process_single_ack-Marks idx now total q c in
      let r = process_single_ack rate_of exceeds idx now total q in
      Marks-trans q.msg r.0.msg
        (process_acks rate_of exceeds indices now total r.0 (any || r.1)).0.msg (λ j. idx == j)
        (contains indices) first (process_acks-Marks indices now total r.0 (any || r.1) first.0)

-- What `collect_acked_indices` names, together with what was acknowledged before.
collected :
    (m : OutgoingMessage) (base mask j : ℕ)
    → IsTracked m
    → mask < word_mod
    → j < m.num_fragments
    → (acked m j || contains (collect_acked_indices m base mask).1 j)
      ≡ (acked m j || ltb j base || in_mask base mask j)
unfolding collect_acked_indices
collected m base mask j v w h = elim (lt-or-le base m.num_fragments) [
  | inl inside ↦
      rw
        (
          names,
          acked_in_mask-contains 64 m.acked_bitset m.num_fragments base mask j w inside v.few h
              (omega arith) (λ k a b. absurd (omega arith)),
          below,
        )
        (ground (arith, v.cumulative j))
  | inr outside ↦ rw (names, below) (ground (arith, v.cumulative j, h))
]
  where
    limit : ℕ
    limit = min base m.num_fragments

    names :
        contains
          (unacked_below limit m.acked_bitset m.highest_cumulative_ack limit
            ++ acked_in_mask 64 m.acked_bitset m.num_fragments base mask)
          j
        ≡ (contains (unacked_below limit m.acked_bitset m.highest_cumulative_ack limit) j
            || contains (acked_in_mask 64 m.acked_bitset m.num_fragments base mask) j)
    names = contains-append (unacked_below limit m.acked_bitset m.highest_cumulative_ack limit) _ j

    below :
        contains (unacked_below limit m.acked_bitset m.highest_cumulative_ack limit) j
        ≡ (leb m.highest_cumulative_ack j && ltb j limit && not (acked m j))
    below =
        unacked_below-contains limit m.highest_cumulative_ack limit j v.bits (omega (arith, v.few))
          (omega arith)

module _ {Rate : Type 0} (rate_of : ℕ → ℕ → Rate) (exceeds : Rate → Rate → Bool) where
  -- The message as the loop over the acknowledged indices finds it.
  started : OutgoingMessage → ℕ → ℕ → OutgoingMessage
  started m base now = record m {
    last_ack_at = now;
    highest_cumulative_ack = max m.highest_cumulative_ack base;
  }

  start : OutgoingMessage → Progress Rate
  start m = record {
    msg = m;
    removals = record { to_remove = BitSet.new bitset_words; needs_cleanup = false };
    res = record {
      newly_delivered_bytes = 0;
      newly_completed_in_flight_bytes = 0;
      min_rtt = none;
      first_rtt = none;
      loss_detected = false;
      delivery_sample = none;
    };
  }

  -- After an acknowledgement the acknowledged fragments are those that were, those below the base,
  -- and those that the mask names; their counter and their cumulative bound are right again.
  pub on_ack_lem :
      {m : OutgoingMessage} (base mask now total : ℕ)
      → IsTracked m
      → mask < word_mod
      → let m' = (on_ack rate_of exceeds m base mask now total).0 in
        IsTracked m'
        × (m'.num_fragments ≡ m.num_fragments)
        × ((j : ℕ)
            → j < m.num_fragments
            → acked m' j ≡ (acked m j || ltb j base || in_mask base mask j))
  unfolding on_ack collect_acked_indices started start
  on_ack_lem {m} base mask now total v w = (
    core-IsTracked q.msg m' same (
      few,
      bits,
      inside,
      counted,
      λ i h b. now_acked i (rw count at b) ∙ covered i (rw highest at h) (rw count at b),
    ),
    ap (λ (c : Core). c.0) same ∙ count,
    λ j h. ap (λ (c : Core). BitSet.get bitset_words c.1 j) same ∙ now_acked j h,
  )
    where
      indices : List ℕ
      indices = (collect_acked_indices m base mask).1

      r : Progress Rate × Bool
      r = process_acks rate_of exceeds indices now total (start (started m base now)) false

      q : Progress Rate
      q = r.0

      m' : OutgoingMessage
      m' = (on_ack rate_of exceeds m base mask now total).0

      same : core m' ≡ core q.msg
      same =
          let noted = note_base base now r.1 q in
          finish-core r.1 (detect_losses_from_holes noted)
          ∙ detect_losses_from_holes-core noted
          ∙ note_base-core base now r.1 q

      marks : Marks (started m base now) q.msg (contains indices)
      marks =
          process_acks-Marks rate_of exceeds indices now total (start (started m base now)) false
            (v.few, v.bits, v.inside, v.counted)

      few : q.msg.num_fragments ≤ max_fragments_per_message
      few = marks.0.0

      bits : BitSet.IsValid bitset_words q.msg.acked_bitset
      bits = marks.0.1

      inside : (i : ℕ) → acked q.msg i ≡ true → i < q.msg.num_fragments
      inside = marks.0.2

      counted : q.msg.acked_count ≡ count_from (acked q.msg) 0 q.msg.num_fragments
      counted = marks.0.3

      count : q.msg.num_fragments ≡ m.num_fragments
      count = marks.1

      highest : q.msg.highest_cumulative_ack ≡ max m.highest_cumulative_ack base
      highest = marks.2

      now_acked :
          (j : ℕ)
          → j < m.num_fragments
          → acked q.msg j ≡ (acked m j || ltb j base || in_mask base mask j)
      now_acked j h = marks.3 j h ∙ collected m base mask j v w h

      covered :
          (j : ℕ)
          → j < max m.highest_cumulative_ack base
          → j < m.num_fragments
          → (acked m j || ltb j base || in_mask base mask j) ≡ true
      covered j a b = ground (arith, v.cumulative j)
