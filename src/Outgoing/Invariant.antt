-- ===== src/Outgoing/Invariant.antt =====
-- What tox-sequenced/src/outgoing.rs keeps of the acknowledged fragments of a message.
use rs_toxcore_c.Prelude.{
  ℕ, ◌+◌, ◌%◌, ◌≤◌, ◌<◌, ◌≡◌, ◌↔◌, sym, ◌∙◌, Bool, true, false, ◌||◌, List, ◌==◌, arith, inl, inr,
  lt-or-le, lt→ltb, lt→leb, le→leb, ==_iff,
}
use rs_toxcore_c.Prelude.Search.{
  count_from, count_from-zero, count_from-le, count_from_full, count_from_all,
}
use rs_toxcore_c.Protocol.{MessageType, bitset_words, max_fragments_per_message, u16_mod}
use rs_toxcore_c.BitSet
use rs_toxcore_c.BitSet.{BitSet}
use rs_toxcore_c.BitSet.Access.{new-IsValid, get-new, set_lem}
use rs_toxcore_c.Reassembly.Adding.{count_from_insert}
use rs_toxcore_c.Outgoing.{OutgoingMessage, fresh, is_acked, all_acked}

-- `self.acked_bitset.get(i)`
abbrev pub acked : OutgoingMessage → ℕ → Bool
acked m i = BitSet.get bitset_words m.acked_bitset i

-- The bits are those of acknowledged fragments, the counter counts them, and all fragments below
-- the highest cumulative acknowledgement are among them.
pub record IsTracked (m : OutgoingMessage) : Type 0 where
  pub few : m.num_fragments ≤ max_fragments_per_message
  pub bits : BitSet.IsValid bitset_words m.acked_bitset
  pub inside : (i : ℕ) → acked m i ≡ true → i < m.num_fragments
  pub counted : m.acked_count ≡ count_from (acked m) 0 m.num_fragments
  pub cumulative : (i : ℕ) → i < m.highest_cumulative_ack → i < m.num_fragments → acked m i ≡ true

pub fresh-IsTracked :
    (t : ℕ) (type : MessageType) (payload : List ℕ) (mtu now n : ℕ)
    → n ≤ max_fragments_per_message
    → IsTracked (fresh t type payload mtu now n)
unfolding fresh
fresh-IsTracked t type payload mtu now n h = record {
  few = h;
  bits = new-IsValid bitset_words;
  inside = λ i e. absurd (cc (get-new bitset_words i));
  counted = sym (count_from-zero _ 0 n (λ j a b. get-new bitset_words j));
  cumulative = λ i a b. absurd (omega arith);
}

-- Marking a fragment of the message that was not marked.
module _ {m : OutgoingMessage} (v : IsTracked m) (index : ℕ) (within : index < m.num_fragments)
    (missing : acked m index ≡ false) where
  abbrev marked : BitSet
  marked = (BitSet.set bitset_words m.acked_bitset index).0

  pub marked-IsValid : BitSet.IsValid bitset_words marked
  marked-IsValid = (set_lem bitset_words v.bits index).0

  pub get-marked : (j : ℕ) → BitSet.get bitset_words marked j ≡ ((index == j) || acked m j)
  get-marked j = ground (arith, (set_lem bitset_words v.bits index).2 j, v.few, lt→ltb index 1024)

  pub marked_new : (BitSet.set bitset_words m.acked_bitset index).1 ≡ true
  marked_new = ground (arith, (set_lem bitset_words v.bits index).1, v.few, lt→ltb index 1024)

  pub counted_marked :
      (m.acked_count + 1) % u16_mod ≡ count_from (BitSet.get bitset_words marked) 0 m.num_fragments
  counted_marked = omega (
    arith,
    v.counted,
    v.few,
    count_from-le (acked m) 0 m.num_fragments,
    count_from_insert (acked m) (BitSet.get bitset_words marked) index 0 m.num_fragments
        (omega arith) (omega arith) missing get-marked,
  )

-- A message whose counter and bits agree counts as acknowledged exactly if each of its fragments is.
all_acked_iff :
    {m : OutgoingMessage} → IsTracked m → (all_acked m ≡ true) ↔ ((i : ℕ) → is_acked m i ≡ true)
unfolding all_acked is_acked
all_acked_iff {m} v = (
  λ e i. elim (lt-or-le i m.num_fragments) [
    | inl h ↦ rw (lt→leb _ _ h) (
        count_from_full (acked m) 0 m.num_fragments (sym v.counted ∙ (==_iff _ _).0 e) i
          (omega arith) (omega arith))
    | inr h ↦ rw (le→leb _ _ h)
  ],
  λ t. (==_iff _ _).1 (
      v.counted
      ∙ count_from_all (acked m) 0 m.num_fragments
          (λ j a h. let l : j < m.num_fragments = omega arith in rw (lt→leb _ _ l) at (t j))),
)
