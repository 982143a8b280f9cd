-- ===== src/Session/Ledger/Handling.antt =====
-- The handling of a fragment by a session of tox-sequenced/src/session.rs keeps its books right.
use native.Mathlib.Decide.{ℕ_discrete}
use rs_toxcore_c.Prelude.{
  ℕ, ◌+◌, ◌*◌, ◌^◌, ◌<◌, ◌≡◌, refl, sym, ◌∙◌, true, ◌||◌, Option, none, some, List, ltb,
  if◌then◌else◌, arith, inl, inr, Bool-cases, Option-cases, length, subst, max, lt-or-le, le→leb,
  lt→leb, lt→ltb, le→ltb, ◌==◌,
}
use rs_toxcore_c.Protocol.{
  MessageType, Priority, Result, ok, err, max_message_size, max_fragments_per_message,
  max_concurrent_incoming, estimated_payload_size,
}
use rs_toxcore_c.Quota.Limits.{fits}
use rs_toxcore_c.FlatMap
use rs_toxcore_c.FlatMap.Laws.{remove_found, remove_missing, insert_missing}
use rs_toxcore_c.Reassembly.Sizes.{IsSized, new-IsSized, add_fragment-IsSized, product-le}
use rs_toxcore_c.Reassembly.Message
use rs_toxcore_c.Reassembly.Message.{MessageReassembler, IsLive, new-IsLive, add_fragment-IsLive}
use rs_toxcore_c.Session.{Platform, SequenceSession}
use rs_toxcore_c.Session.Admission.{
  admission, admit, give_back, drop_incoming, note_gap, learn_type, calculate_priority,
}
use rs_toxcore_c.Session.Receive.{enter, open_reassembler, ensure_reassembler}
use rs_toxcore_c.Session.Ledger.{IsHeld, books, IsRight}
use rs_toxcore_c.Session.Ledger.Moves.{denied, reverted, opened, dropped, changed}

ok-eq : {x y : MessageReassembler} → ok x ≡ ok y → x ≡ y
ok-eq e = cc

-- What `MessageReassembler::new` makes.
new-IsHeld :
    (id total : ℕ) (p : Priority) (amount now : ℕ) {r : MessageReassembler}
    → Message.new id total p amount now ≡ ok r
    → IsHeld r × (r.reserved_bytes ≡ amount)
unfolding Message.new
new-IsHeld id total p amount now {r} e =
    elim (Bool-cases (total == 0 || ltb max_fragments_per_message total)) [
      | inl bad ↦ absurd (cc (rw bad at e))
      | inr good ↦
          let (m, made, live, _) =
            (new-IsLive id total p amount now).0 (ground arith) (ground arith) in
          let (sized, same) =
            subst (λ (x : MessageReassembler). IsSized x.buffer × (x.reserved_bytes ≡ amount))
              (ok-eq (rw good at e)) (new-IsSized total, refl) in
          ((subst IsLive (ok-eq (sym made ∙ e)) live, sized), same)
    ]

pub add_fragment-IsHeld :
    (r : MessageReassembler) (index : ℕ) (piece : List ℕ) (now : ℕ)
    → IsHeld r
    → IsHeld (Message.add_fragment r index piece now).0
unfolding Message.add_fragment
add_fragment-IsHeld r index piece now (live, sized) =
    (add_fragment-IsLive index piece now live, kept)
  where
    kept : IsSized (Message.add_fragment r index piece now).0.buffer
    kept = elim (lt-or-le max_message_size (r.buffer.current_size + length piece)) [
      | inl over ↦ rw (lt→ltb _ _ over) sized
      | inr fits' ↦
          rw (le→ltb _ _ fits') (add_fragment-IsSized r.buffer index piece (omega arith) sized)
    ]

-- The priority and the reservation are no part of what makes a reassembler sound.
pub relabelled :
    (r : MessageReassembler) (p : Priority) (n : ℕ)
    → IsHeld r
    → IsHeld (record r { priority = p; reserved_bytes = n })
relabelled r p n (live, sized) = (
  record {
    buffered = live.buffered;
    same_total = live.same_total;
    nonempty = live.nonempty;
    within = live.within;
    reached = live.reached;
  },
  sized,
)

learn_type-IsHeld :
    (type : Option MessageType) (total : ℕ) (r : MessageReassembler)
    → IsHeld r
    → IsHeld (learn_type type total r)
unfolding learn_type
learn_type-IsHeld none total r h = h
learn_type-IsHeld (some type) total r h = relabelled r _ r.reserved_bytes h

learn_type_reserved :
    (type : Option MessageType) (total : ℕ) (r : MessageReassembler)
    → (learn_type type total r).reserved_bytes ≡ r.reserved_bytes
unfolding learn_type
learn_type_reserved none total r = refl
learn_type_reserved (some type) total r = refl

pub add_fragment_reserved :
    (r : MessageReassembler) (index : ℕ) (piece : List ℕ) (now : ℕ)
    → (Message.add_fragment r index piece now).0.reserved_bytes ≡ r.reserved_bytes
unfolding Message.add_fragment
add_fragment_reserved r index piece now = ground arith

module _ {C : Type 0} where
  pub books-note_gap :
      (s : SequenceSession C) (id index base now : ℕ)
      → books (note_gap s id index base now) ≡ books s
  unfolding note_gap
  books-note_gap s id index base now = ground arith

module _ {C : Type 0} {others : ℕ} where
  pub drop_incoming-IsRight :
      (s : SequenceSession C) (id : ℕ)
      → IsRight others (books s)
      → IsRight others (books (drop_incoming s id).0)
  unfolding drop_incoming give_back
  drop_incoming-IsRight s id v =
      elim (Option-cases (FlatMap.find ℕ_discrete id s.incoming.entries)) [
        | inl e ↦ rw (remove_missing ℕ_discrete s.incoming id e) v
        | inr (r, e) ↦ rw (remove_found ℕ_discrete s.incoming id r e) (dropped v id r e)
      ]

module _ {C Rate : Type 0} (env : Platform Rate) {others : ℕ} where
  enter-IsRight :
      (s : SequenceSession C) (id total : ℕ) (p : Priority) (amount now : ℕ)
      → amount < fits
      → (admit s amount p).1 ≡ true
      → FlatMap.find ℕ_discrete id s.incoming.entries ≡ none
      → length s.incoming.entries < max_concurrent_incoming
      → IsRight others (books s)
      → (made : Result MessageReassembler) → Message.new id total p amount now ≡ made
      → IsRight others (books (enter env (admit s amount p).0 id amount made).0)
  unfolding enter admit
  enter-IsRight s id total p amount now small done absent room v (ok r) e =
      let (held, same) = new-IsHeld id total p amount now e in
      rw (insert_missing ℕ_discrete s.incoming id r absent)
        (opened v amount id p r small done absent room held same)
  enter-IsRight s id total p amount now small done absent room v (err _) e =
      reverted v amount p small done

  open_reassembler-IsRight :
      (s : SequenceSession C) (id : ℕ) (type : Option MessageType) (total len now : ℕ)
      → total < 2 ^ 16
      → len < 2 ^ 32
      → FlatMap.find ℕ_discrete id s.incoming.entries ≡ none
      → length s.incoming.entries < max_concurrent_incoming
      → IsRight others (books s)
      → IsRight others (books (open_reassembler env s id type total len now).0)
  unfolding open_reassembler admit
  open_reassembler-IsRight s id type total len now t l absent room v =
      elim (Bool-cases (admission s.quota s.max_per_session s.incoming_buffer_size amount prio).1) [
        | inr n ↦ rw n (denied v amount prio small n)
        | inl y ↦ rw y (
            enter-IsRight s id total prio amount now small y absent room v
              (Message.new id total prio amount now) refl)
      ]
    where
      amount : ℕ
      amount = if ltb 1 total then max len estimated_payload_size * total else len

      prio : Priority
      prio = calculate_priority type total amount

      small : amount < fits
      small =
          ground
            (arith, product-le (max len 1300) total (2 ^ 32) (2 ^ 16) (omega arith) (omega arith))

  pub ensure_reassembler-IsRight :
      (s : SequenceSession C) (id : ℕ) (type : Option MessageType) (total len now : ℕ)
      → total < 2 ^ 16
      → len < 2 ^ 32
      → IsRight others (books s)
      → IsRight others (books (ensure_reassembler env s id type total len now).0)
  unfolding ensure_reassembler FlatMap.get FlatMap.update FlatMap.len
  ensure_reassembler-IsRight s id type total len now t l v =
      elim (Option-cases (FlatMap.find ℕ_discrete id s.incoming.entries)) [
        | inr (r, e) ↦
            rw (e, ensure_reassembler)
              (changed v id (learn_type type total) r e (learn_type-IsHeld type total r)
                (learn_type_reserved type total r))
        | inl e ↦ elim (lt-or-le (length s.incoming.entries) max_concurrent_incoming) [
          | inl room ↦
              rw (e, ensure_reassembler, lt→leb _ _ room)
                (open_reassembler-IsRight s id type total len now t l e room v)
          | inr full ↦ rw (e, ensure_reassembler, le→leb _ _ full) v
        ]
      ]
