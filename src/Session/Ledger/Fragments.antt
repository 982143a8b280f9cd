-- ===== src/Session/Ledger/Fragments.antt =====
-- A fragment in the reassembler of its message: the books of a session of
-- tox-sequenced/src/session.rs stay right.
use native.Mathlib.Decide.{ℕ_discrete}
use rs_toxcore_c.Prelude.{
  ℕ, ◌-◌, ◌^◌, ◌≤◌, ◌<◌, ◌≡◌, refl, sym, Bool, true, false, Option, none, some, List, ltb,
  if◌then◌else◌, arith, inl, inr, Bool-cases, Option-cases, length, subst, ◌==◌,
}
use rs_toxcore_c.Protocol.{MessageType, SelectiveAck, Priority, Result, ok, err}
use rs_toxcore_c.FlatMap
use rs_toxcore_c.FlatMap.Laws.{find-write}
use rs_toxcore_c.FlatMap.Sums.{AllValues-find}
use rs_toxcore_c.Reassembly.{planned_total_size}
use rs_toxcore_c.Reassembly.Sizes.{planned_total_size-le}
use rs_toxcore_c.Reassembly.Message
use rs_toxcore_c.Reassembly.Message.{MessageReassembler, IsLive, new-IsLive, add_fragment-IsLive}
use rs_toxcore_c.Session.{Platform, SequenceSession}
use rs_toxcore_c.Session.Admission.{
  admission, admit, drop_incoming, note_gap, peek_message_type, is_ancient_message, complete_with,
}
use rs_toxcore_c.Session.Receive.{
  check_completed_message, ensure_reassembler, resize, complete_message, settle_fragment, deliver,
  announce, close, refuse, after_fragment, process_fragment, handle_data_packet,
}
use rs_toxcore_c.Session.Ledger.{IsHeld, Books, books, IsRight}
use rs_toxcore_c.Session.Ledger.Moves.{denied, changed, grown, shrunk}
use rs_toxcore_c.Session.Ledger.Handling.{
  relabelled, add_fragment-IsHeld, add_fragment_reserved, drop_incoming-IsRight, books-note_gap,
  ensure_reassembler-IsRight,
}

module _ {C Rate : Type 0} (env : Platform Rate) where
  books-deliver :
      (s : SequenceSession C) (id : ℕ) (ack : SelectiveAck) (now : ℕ) (o : Option (List ℕ))
      → books (deliver env s id ack now o) ≡ books s
  unfolding deliver announce complete_with
  books-deliver s id ack now none = refl
  books-deliver s id ack now (some assembled) = elim (Option-cases (env.deserialize assembled)) [
    | inl e ↦ rw e refl
    | inr (m, e) ↦ rw e refl
  ]

  books-close :
      (r : SequenceSession C × Option MessageReassembler) (id now : ℕ)
      → books (close env r id now) ≡ books r.0
  unfolding close
  books-close (s, none) id now = refl
  books-close (s, some r) id now = books-deliver s id _ now _

  books-refuse :
      (r : SequenceSession C × Option MessageReassembler) (id : ℕ)
      → books (refuse env r id).0 ≡ books r.0
  unfolding refuse
  books-refuse (s, none) id = refl
  books-refuse (s, some r) id = refl

module _ {C Rate : Type 0} (env : Platform Rate) {others : ℕ} where
  resize-IsRight :
      (s : SequenceSession C) (id : ℕ) (entry : MessageReassembler) (p : Priority)
      → env.struct_overhead ≤ 2 ^ 16
      → FlatMap.find ℕ_discrete id s.incoming.entries ≡ some entry
      → IsRight others (books s)
      → IsRight others (books (resize env s id entry p).0)
  unfolding resize admit FlatMap.update
  resize-IsRight s id entry p o e v = elim (Bool-cases (ltb entry.reserved_bytes planned)) [
    | inl more ↦
        elim (Bool-cases
          (admission s.quota s.max_per_session s.incoming_buffer_size
            (planned - entry.reserved_bytes) p).1) [
              | inl y ↦
                  rw (more, y)
                    (grown v id to entry e keeps (planned - entry.reserved_bytes) p
                      (omega (arith, bounded)) y (ground (arith, more)))
              | inr n ↦
                  rw (more, n)
                    (denied v (planned - entry.reserved_bytes) p (omega (arith, bounded)) n)
            ]
    | inr same ↦ elim (Bool-cases (ltb planned entry.reserved_bytes)) [
      | inl less ↦
          rw (same, less)
            (shrunk v id to entry e keeps (entry.reserved_bytes - planned) (ground (arith, less)))
      | inr equal ↦ rw (same, equal) v
    ]
  ]
    where
      planned : ℕ
      planned = planned_total_size env.struct_overhead entry.buffer

      to : MessageReassembler → MessageReassembler
      to r = record r { reserved_bytes = planned }

      keeps : IsHeld entry → IsHeld (to entry)
      keeps h = relabelled entry entry.priority planned h

      held : IsHeld entry
      held = AllValues-find ℕ_discrete IsHeld id s.incoming.entries entry e v.held

      bounded : planned ≤ 2 ^ 31
      bounded = planned_total_size-le env.struct_overhead o held.0.buffered held.1 held.0.within

  settle_fragment-IsRight :
      (s : SequenceSession C) (id : ℕ) (complete : Bool) (now : ℕ)
      → IsRight others (books s)
      → IsRight others (books (settle_fragment env s id complete now))
  unfolding settle_fragment complete_message
  settle_fragment-IsRight s id false now v = v
  settle_fragment-IsRight s id true now v =
      let unasked = record s { pending_nacks = (FlatMap.remove ℕ_discrete s.pending_nacks id).0 } in
      rw (books-close env (drop_incoming unasked id) id now) (drop_incoming-IsRight unasked id v)

  after_fragment-IsRight :
      (s : SequenceSession C) (id index now : ℕ) (p : Priority) (entry : MessageReassembler)
      → (result : Result Bool) → env.struct_overhead ≤ 2 ^ 16
      → FlatMap.find ℕ_discrete id s.incoming.entries ≡ some entry
      → IsRight others (books s)
      → IsRight others (books (after_fragment env s id index now p entry result).0)
  unfolding after_fragment
  after_fragment-IsRight s id index now p entry (err _) o e v = drop_incoming-IsRight s id v
  after_fragment-IsRight s id index now p entry (ok complete) o e v =
      elim (Bool-cases (resize env noted id entry p).1) [
        | inl fits' ↦ rw fits' (settle_fragment-IsRight _ id complete now resized)
        | inr full ↦
            rw (full, books-refuse env (drop_incoming (resize env noted id entry p).0 id) id)
              (drop_incoming-IsRight (resize env noted id entry p).0 id resized)
      ]
    where
      noted : SequenceSession C
      noted = note_gap s id index entry.buffer.base_index now

      same : books noted ≡ books s
      same = books-note_gap s id index entry.buffer.base_index now

      resized : IsRight others (books (resize env noted id entry p).0)
      resized =
          resize-IsRight noted id entry p o
            (subst (λ (b : Books). FlatMap.find ℕ_discrete id b.entries ≡ some entry) (sym same) e)
            (subst (IsRight others) (sym same) v)

  process_fragment-IsRight :
      (s : SequenceSession C) (id index : ℕ) (bytes : List ℕ) (now : ℕ)
      → env.struct_overhead ≤ 2 ^ 16
      → IsRight others (books s)
      → IsRight others (books (process_fragment env s id index bytes now).0)
  unfolding process_fragment FlatMap.get FlatMap.update
  process_fragment-IsRight s id index bytes now o v =
      elim (Option-cases (FlatMap.find ℕ_discrete id s.incoming.entries)) [
        | inl e ↦ rw (e, process_fragment) v
        | inr (r, e) ↦
            let r' = (Message.add_fragment r index bytes now).0 in
            rw (e, process_fragment)
              (after_fragment-IsRight _ id index now r.priority r'
                (Message.add_fragment r index bytes now).1 o (found r r' e)
                (changed v id (λ _. r') r e (add_fragment-IsHeld r index bytes now)
                  (add_fragment_reserved r index bytes now)))
      ]
    where
      found :
          (r r' : MessageReassembler)
          → FlatMap.find ℕ_discrete id s.incoming.entries ≡ some r
          → FlatMap.find ℕ_discrete id (FlatMap.write ℕ_discrete id (λ _. r') s.incoming.entries)
            ≡ some r'
      found r r' e = ground (arith, find-write ℕ_discrete id id (λ _. r') s.incoming.entries)

  -- Whatever fragment arrives, `handle_data_packet` keeps the books right: no session frees what
  -- others have reserved, none keeps a reservation that it does not count, and neither its own limit
  -- nor the capacity of the quota is exceeded. The counts of the packet are `u16`, a fragment is
  -- shorter than 2 ^ 32 bytes, and an `Option<Vec<u8>>` takes at most 2 ^ 16.
  pub handle_data_packet-IsRight :
      (s : SequenceSession C) (id index total : ℕ) (bytes : List ℕ) (now : ℕ)
      → env.struct_overhead ≤ 2 ^ 16
      → total < 2 ^ 16
      → length bytes < 2 ^ 32
      → IsRight others (books s)
      → IsRight others (books (handle_data_packet env s id index total bytes now).0)
  unfolding handle_data_packet
  handle_data_packet-IsRight s id index total bytes now o t l v =
      elim (Option-cases (check_completed_message env s id)) [
        | inr (reply, e) ↦ rw (e, handle_data_packet) v
        | inl e ↦ elim (Bool-cases (is_ancient_message s id)) [
          | inl old ↦ rw (e, handle_data_packet, old) v
          | inr young ↦ elim (Bool-cases ready) [
            | inr unready ↦ rw (e, handle_data_packet, young, unready) ensured
            | inl ok' ↦
                rw (e, handle_data_packet, young, ok')
                  (process_fragment-IsRight _ id index bytes now o ensured)
          ]
        ]
      ]
    where
      type : Option MessageType
      type = if index == 0 then peek_message_type bytes else none

      ready : Bool
      ready = (ensure_reassembler env s id type total (length bytes) now).2

      ensured : IsRight others (books (ensure_reassembler env s id type total (length bytes) now).0)
      ensured = ensure_reassembler-IsRight env s id type total (length bytes) now t l v
