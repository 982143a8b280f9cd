-- ===== src/Session/Ledger/Expiry.antt =====
-- `cleanup` and `handle_packet` of tox-sequenced/src/session.rs keep the books of a session right.
use native.Mathlib.Decide.{ℕ_discrete}
use mathlib.Core.Logic.{if_pos, if_neg}
use rs_toxcore_c.Prelude.{
  ℕ, ◌+◌, ◌-◌, ◌^◌, ◌≤◌, ◌<◌, ◌≡◌, refl, ◌∙◌, Bool, ◌||◌, none, List, [], ◌∷◌, leb, arith, inl, inr,
  Bool-cases, Option-cases, length,
}
use rs_toxcore_c.Protocol.{Packet, SelectiveAck, Nack, usize_sub}
use rs_toxcore_c.Rtt.{seconds}
use rs_toxcore_c.Word.{word_mod}
use rs_toxcore_c.Quota
use rs_toxcore_c.Quota.{ReassemblyQuota}
use rs_toxcore_c.Quota.Limits.{fits}
use rs_toxcore_c.FlatMap
use rs_toxcore_c.FlatMap.Laws.{Distinct}
use rs_toxcore_c.FlatMap.Sums.{weigh, AllValues}
use rs_toxcore_c.Reassembly.Message.{MessageReassembler}
use rs_toxcore_c.Outgoing.{OutgoingMessage, all_acked}
use rs_toxcore_c.Outgoing.Acks.{AckResult}
use rs_toxcore_c.Session.{CongestionControl, Platform, SequenceSession}
use rs_toxcore_c.Session.Send.{
  retire, settle_ack, note_window, take_ack, check_cwnd_change, handle_ack_packet,
  handle_nack_packet,
}
use rs_toxcore_c.Session.Cleanup.{
  expire_incoming, fail_message, expire_outgoing, cleanup, handle_packet_internal, handle_packet,
}
use rs_toxcore_c.Session.Ledger.{IsHeld, books, IsRight, reserved}
use rs_toxcore_c.Session.Ledger.Moves.{release_lem}
use rs_toxcore_c.Session.Ledger.Fragments.{handle_data_packet-IsRight}

abbrev Entries : Type 0
Entries = List (ℕ × MessageReassembler)

module _ (now : ℕ) where
  expire-find :
      (es : Entries) (size : ℕ) (q : ReassemblyQuota) (j : ℕ)
      → FlatMap.find ℕ_discrete j es ≡ none
      → FlatMap.find ℕ_discrete j (expire_incoming now es size q).0 ≡ none
  unfolding expire_incoming FlatMap.find
  expire-find [] size q j e = refl
  expire-find ((id, r) ∷ es) size q j e = elim (ℕ_discrete id j) [
    | yes p ↦ absurd (cc (rw (if_pos (ℕ_discrete id j) p) at e))
    | no p ↦
        let e' : FlatMap.find ℕ_discrete j es ≡ none = rw (if_neg (ℕ_discrete id j) p) at e in
        elim (Bool-cases (leb (seconds 30) (now - r.last_activity))) [
          | inl old ↦ rw old (expire-find es _ _ j e')
          | inr young ↦ rw (young, if_neg (ℕ_discrete id j) p) (expire-find es size q j e')
        ]
  ]

  expire-Distinct :
      (es : Entries) (size : ℕ) (q : ReassemblyQuota)
      → Distinct ℕ_discrete es
      → Distinct ℕ_discrete (expire_incoming now es size q).0
  unfolding expire_incoming
  expire-Distinct [] size q d = tt
  expire-Distinct ((id, r) ∷ es) size q d =
      elim (Bool-cases (leb (seconds 30) (now - r.last_activity))) [
        | inl old ↦ rw old (expire-Distinct es _ _ d.1)
        | inr young ↦ rw young (expire-find es _ _ id d.0, expire-Distinct es _ _ d.1)
      ]

  expire-IsHeld :
      (es : Entries) (size : ℕ) (q : ReassemblyQuota)
      → AllValues IsHeld es
      → AllValues IsHeld (expire_incoming now es size q).0
  unfolding expire_incoming
  expire-IsHeld [] size q h = tt
  expire-IsHeld ((id, r) ∷ es) size q h =
      elim (Bool-cases (leb (seconds 30) (now - r.last_activity))) [
        | inl old ↦ rw old (expire-IsHeld es _ _ h.1)
        | inr young ↦ rw young (h.0, expire-IsHeld es _ _ h.1)
      ]

  length-expire :
      (es : Entries) (size : ℕ) (q : ReassemblyQuota)
      → length (expire_incoming now es size q).0 ≤ length es
  unfolding expire_incoming
  length-expire [] size q = omega arith
  length-expire ((id, r) ∷ es) size q =
      elim (Bool-cases (leb (seconds 30) (now - r.last_activity))) [
        | inl old ↦ rw old (
            omega (
              arith,
              length-expire es (usize_sub size r.reserved_bytes) (Quota.release q r.reserved_bytes),
            ))
        | inr young ↦ rw young (omega (arith, length-expire es size q))
      ]

  -- `rest` is what the entries before these keep.
  expire-charged :
      (es : Entries) (size : ℕ) (q : ReassemblyQuota) (rest others : ℕ)
      → size ≡ rest + reserved es
      → q.used_bytes ≡ others + size
      → q.used_bytes ≤ q.max_bytes
      → q.max_bytes < fits
      → let (kept, size', q') = expire_incoming now es size q in
        (size' ≡ rest + reserved kept)
        × (q'.used_bytes ≡ others + size')
        × (size' ≤ size)
        × (q'.max_bytes ≡ q.max_bytes)
  unfolding expire_incoming weigh
  expire-charged [] size q rest others c u w m = (c, u, omega arith, refl)
  expire-charged ((id, r) ∷ es) size q rest others c u w m =
      elim (Bool-cases (leb (seconds 30) (now - r.last_activity))) [
        | inl old ↦
            let less : usize_sub size r.reserved_bytes ≡ size - r.reserved_bytes = omega arith in
            let back = release_lem q r.reserved_bytes in
            let (c', u', l', m') =
              expire-charged es (usize_sub size r.reserved_bytes) (Quota.release q r.reserved_bytes)
                rest others (omega (arith, less)) (omega (arith, less, back)) (omega (arith, back))
                (omega (arith, back)) in
            rw old (c', u', omega (arith, l', less), m' ∙ back.0)
        | inr young ↦
            let (c', u', l', m') =
              expire-charged es size q (rest + r.reserved_bytes) others (omega arith) u w m in
            rw young (omega (arith, c'), u', l', m')
      ]

module _ {C : Type 0} where
  books-expire_outgoing :
      (now : ℕ) (es : List (ℕ × OutgoingMessage)) (s : SequenceSession C)
      → books (expire_outgoing now es s).1 ≡ books s
  unfolding expire_outgoing fail_message
  books-expire_outgoing now [] s = refl
  books-expire_outgoing now ((id, m) ∷ es) s = elim (Bool-cases over) [
    | inl e ↦ rw e (books-expire_outgoing now es (fail_message s id m))
    | inr e ↦ rw e (books-expire_outgoing now es s)
  ]
    where
      over : Bool
      over = leb m.timeout (now - m.last_ack_at) || leb (seconds 300) (now - m.last_ack_at)

  -- `cleanup` keeps the books right: what it drops is given back, neither more nor less.
  pub cleanup-IsRight :
      {others : ℕ} (s : SequenceSession C) (now : ℕ)
      → IsRight others (books s)
      → IsRight others (books (cleanup s now))
  unfolding cleanup
  cleanup-IsRight {others} s now v =
      let (c, u, l, m) =
        expire-charged now s.incoming.entries s.incoming_buffer_size s.quota 0 others
          (omega (arith, v.charged)) v.shared v.within v.small in
      rw (books-expire_outgoing now s.outgoing.entries _) (record {
        distinct = expire-Distinct now s.incoming.entries _ _ v.distinct;
        held = expire-IsHeld now s.incoming.entries _ _ v.held;
        charged = omega (arith, c);
        shared = u;
        capped = omega (arith, l, v.capped);
        within = omega (arith, u, l, m, v.within, v.shared);
        small = omega (arith, m, v.small);
        few =
            omega
              (arith, length-expire now s.incoming.entries s.incoming_buffer_size s.quota, v.few);
      })

-- What the types of a packet say of its sizes.
abbrev pub IsFramed : Packet → Type 0
IsFramed (Packet.fragment id index total bytes) = (total < 2 ^ 16) × (length bytes < 2 ^ 32)
IsFramed (Packet.ack ack) = (ack.bitmask < word_mod) × (ack.base_index < 2 ^ 16)
IsFramed other = Unit

module _ {C Rate : Type 0} (cc : CongestionControl C Rate) (env : Platform Rate) where
  books-check_cwnd_change : (s : SequenceSession C) → books (check_cwnd_change cc env s) ≡ books s
  unfolding check_cwnd_change
  books-check_cwnd_change s = ground arith

  books-settle_ack :
      (s : SequenceSession C) (id now : ℕ) (r : OutgoingMessage × AckResult Rate)
      → books (settle_ack cc env s id now r) ≡ books s
  unfolding settle_ack take_ack retire
  books-settle_ack s id now (m, res) = elim (Bool-cases (all_acked m)) [
    | inl e ↦ rw e refl
    | inr e ↦ rw e refl
  ]

  books-handle_ack_packet :
      (s : SequenceSession C) (ack : SelectiveAck) (now : ℕ)
      → books (handle_ack_packet cc env s ack now) ≡ books s
  unfolding handle_ack_packet note_window
  books-handle_ack_packet s ack now =
      elim (Option-cases (FlatMap.get ℕ_discrete s.outgoing ack.message_id)) [
        | inl e ↦ rw (e, handle_ack_packet) refl
        | inr (m, e) ↦ rw (e, handle_ack_packet) (books-settle_ack _ ack.message_id now _)
      ]

  books-handle_nack_packet :
      (s : SequenceSession C) (nack : Nack) (now : ℕ)
      → books (handle_nack_packet cc env s nack now) ≡ books s
  unfolding handle_nack_packet
  books-handle_nack_packet s nack now =
      elim (Option-cases (FlatMap.get ℕ_discrete s.outgoing nack.message_id)) [
        | inl e ↦ rw (e, handle_nack_packet) refl
        | inr (m, e) ↦ rw (e, handle_nack_packet) refl
      ]

  internal-IsRight :
      {others : ℕ} (s : SequenceSession C) (packet : Packet) (now now_ms jitter : ℕ)
      → env.struct_overhead ≤ 2 ^ 16
      → IsFramed packet
      → IsRight others (books s)
      → IsRight others (books (handle_packet_internal cc env s packet now now_ms jitter).0)
  unfolding handle_packet_internal
  internal-IsRight s (Packet.fragment id index total bytes) now now_ms jitter o f v =
      handle_data_packet-IsRight env s id index total bytes now o f.0 f.1 v
  internal-IsRight s (Packet.ack ack) now now_ms jitter o f v =
      rw (books-handle_ack_packet s ack now) v
  internal-IsRight s (Packet.nack nack) now now_ms jitter o f v =
      rw (books-handle_nack_packet s nack now) v
  internal-IsRight s (Packet.ping t1) now now_ms jitter o f v = v
  internal-IsRight s (Packet.pong t1 t2 t3) now now_ms jitter o f v =
      elim (Option-cases s.last_ping_sent) [
        | inl e ↦ rw (e, handle_packet_internal) v
        | inr (t, e) ↦ rw (e, handle_packet_internal) v
      ]
  internal-IsRight s (Packet.datagram type bytes) now now_ms jitter o f v = v

  -- `handle_packet` keeps the books of the session right whatever packet arrives, for counts in 16
  -- bits, fragments shorter than 2 ^ 32 bytes and an `Option<Vec<u8>>` of at most 2 ^ 16.
  pub handle_packet-IsRight :
      {others : ℕ} (s : SequenceSession C) (packet : Packet) (now now_ms jitter : ℕ)
      → env.struct_overhead ≤ 2 ^ 16
      → IsFramed packet
      → IsRight others (books s)
      → IsRight others (books (handle_packet cc env s packet now now_ms jitter).0)
  unfolding handle_packet
  handle_packet-IsRight s packet now now_ms jitter o f v =
      rw
        (books-check_cwnd_change
          (handle_packet_internal cc env (record s { last_activity = now }) packet now now_ms
            jitter).0)
        (internal-IsRight (record s { last_activity = now }) packet now now_ms jitter o f v)
