-- ===== src/Merkle/Conversation/Counted.antt =====
-- The nodes that skip the ratchet, in merkle-tox-core/src/engine/conversation.rs:
-- `track_sender_seq`, and the message keys that `peek_keys` finds after it.
use Prim.Native.String.{String}
use rs_toxcore_c.Prelude.{
  ℕ, ◌+◌, ◌-◌, ◌/◌, ◌≡◌, refl, sym, ◌∙◌, arith, true, false, ◌&&◌, ◌||◌, some, List, ◌==◌, ltb, leb,
}
use rs_toxcore_c.Merkle.Conversation.{
  Ratchet, Established, counter_mod, ratchet_step, skip, keys_at, prune, peek_known, peek_keys,
  advance, track_sender_seq, count_node,
}

module _ (derive_key : String → List ℕ → ℕ) where
  peek_keys_known :
      (s : Established) (pk seq now : ℕ) (r : Ratchet)
      → s.sender_ratchets pk ≡ some r
      → r.epoch_id ≡ seq / counter_mod
      → peek_keys derive_key s pk seq now
        ≡ peek_known derive_key (prune derive_key s now) pk seq now r
  unfolding peek_keys prune
  peek_keys_known s pk seq now r e epoch =
      let same : (r.epoch_id == seq / counter_mod) ≡ true = ground (arith, epoch) in
      rw (e, peek_keys, same) refl

  peek_known_next :
      (s : Established) (pk seq now : ℕ) (r : Ratchet)
      → seq ≡ r.last_seq + 1
      → (peek_known derive_key s pk seq now r).1 ≡ some (keys_at derive_key r.next_chain_key)
  unfolding peek_known
  peek_known_next s pk seq now r e =
      let next : (seq == r.last_seq + 1) ≡ true = ground (arith, e) in rw (peek_known, next) refl

  peek_known_skip :
      (s : Established) (pk seq now : ℕ) (r : Ratchet)
      → seq ≡ r.last_seq + 2
      → (peek_known derive_key s pk seq now r).1
        ≡ some (keys_at derive_key (ratchet_step derive_key r.next_chain_key))
  unfolding peek_known skip
  peek_known_skip s pk seq now r e =
      let other : (seq == r.last_seq + 1) ≡ false = ground (arith, e) in
      let new : leb seq r.last_seq ≡ false = ground (arith, e) in
      let one : seq - (r.last_seq + 1) ≡ 1 = omega (arith, e) in
      rw (peek_known, other, new, one) refl

  track_sender_seq_next :
      (s : Established) (pk epoch : ℕ) (r : Ratchet)
      → s.sender_ratchets pk ≡ some r
      → epoch ≡ r.epoch_id
      → track_sender_seq derive_key s pk (r.last_seq + 1) epoch
        ≡ advance derive_key s pk (record r { last_seq = r.last_seq + 1; epoch_id = epoch })
  unfolding track_sender_seq
  track_sender_seq_next s pk epoch r e same =
      let moves : (ltb r.epoch_id epoch
            || ((epoch == r.epoch_id) && ltb r.last_seq (r.last_seq + 1)))
          ≡ true =
        ground (arith, same) in
      rw (track_sender_seq, e, moves) refl

  -- A node that skips the ratchet makes the keys depend on the order of arrival. After the message
  -- that a sender's ratchet stands at come such a node and a message, numbered in turn in one epoch:
  -- if the node has arrived, `peek_keys` finds for the message the key of the chain where it stands;
  -- if it has not, the key one step further.
  pub peek_keys-count_node :
      (s : Established) (pk node_hash now : ℕ) (r : Ratchet)
      → s.sender_ratchets pk ≡ some r
      → r.epoch_id ≡ (r.last_seq + 1) / counter_mod
      → r.epoch_id ≡ (r.last_seq + 2) / counter_mod
      → ((peek_keys derive_key
            (count_node derive_key s true pk (r.last_seq + 1) node_hash now).0
            pk
            (r.last_seq + 2)
            now).1
          ≡ some (keys_at derive_key r.next_chain_key))
        × ((peek_keys derive_key s pk (r.last_seq + 2) now).1
            ≡ some (keys_at derive_key (ratchet_step derive_key r.next_chain_key)))
  unfolding count_node advance
  peek_keys-count_node s pk node_hash now r e before epoch =
      let epoch' = (r.last_seq + 1) / counter_mod in
      let counted : Ratchet = record r { last_seq = r.last_seq + 1; epoch_id = epoch' } in
      let moved = track_sender_seq_next s pk epoch' r e (sym before) in
      let same : (pk == pk) ≡ true = ground arith in
      let at : (advance derive_key s pk counted).sender_ratchets pk ≡ some counted = rw same refl in
      (
        rw
            (
              moved,
              peek_keys_known (advance derive_key s pk counted) pk (r.last_seq + 2) now counted at
                  (sym before ∙ epoch),
            )
            (peek_known_next _ pk (r.last_seq + 2) now counted (omega arith)),
        rw (peek_keys_known s pk (r.last_seq + 2) now r e epoch)
            (peek_known_skip _ pk (r.last_seq + 2) now r refl),
      )
