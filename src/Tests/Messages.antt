-- ===== src/Tests/Messages.antt =====
-- Runs of tox-sequenced/src/outgoing.rs and tox-sequenced/src/reassembly on a message of three
-- bytes in two fragments.
use rs_toxcore_c.Prelude.{
  ℕ, ◌+◌, ◌-◌, ◌*◌, ◌<◌, ◌≤◌, ◌≡◌, ◌↔◌, refl, Bool, true, false, not, ◌&&◌, ◌||◌, Option, none,
  some, List, [], ◌∷◌, ◌==◌, ltb, leb, if◌then◌else◌, arith, contains, length, replicate,
  length-replicate,
}
use rs_toxcore_c.Prelude
use rs_toxcore_c.Prelude.Search.{Throughout}
use rs_toxcore_c.Word.{test_bit}
use rs_toxcore_c.Protocol.{
  MessageType, Priority, SequencedError, ok, err, max_fragments_per_message,
}
use rs_toxcore_c.Reassembly
use rs_toxcore_c.Reassembly.{FragmentBuffer, received, add_fragment, is_complete, assemble}
use rs_toxcore_c.Reassembly.Invariant.{IsValid, new-IsValid_lem}
use rs_toxcore_c.Reassembly.Adding.{add_fragment-IsValid}
use rs_toxcore_c.Reassembly.Assembly.{deliver, add_fragment_effect}
use rs_toxcore_c.Reassembly.Message
use rs_toxcore_c.Reassembly.Message.{
  MessageReassembler, IsLive, IsGaps, requested, create_ack, create_nack, new-IsLive,
  add_fragment-IsLive, create_ack_lem, create_nack-IsGaps,
}
use rs_toxcore_c.Outgoing
use rs_toxcore_c.Outgoing.{OutgoingMessage, fresh, is_acked, all_acked, get_fragment, fragment_len}
use rs_toxcore_c.Outgoing.Fragments.{
  IsCut, transfer, transfer_early, new_accepts, new_refuses, new_truncates,
}
use rs_toxcore_c.Outgoing.Invariant.{IsTracked, fresh-IsTracked}

abbrev three_bytes : List ℕ
three_bytes = 10 ∷ 20 ∷ 30 ∷ []

abbrev short : OutgoingMessage
short = fresh 0 MessageType.blob_data three_bytes 2 0 2

short-IsCut : IsCut short
unfolding fresh
short-IsCut = record { few = omega arith; covered = omega arith; needed = λ i h. omega arith }

-- Both fragments, the later one twice.
abbrev both : List ℕ
both = 1 ∷ 0 ∷ 1 ∷ []

both_arrived : Throughout (contains both) true 0 2
unfolding contains
both_arrived j a b = ground arith

transfer_example :
    assemble (deliver (get_fragment short) (Reassembly.new 2) both) ≡ some three_bytes
unfolding fresh
transfer_example = transfer short-IsCut both both_arrived

only_last : contains (1 ∷ []) 0 ≡ false
unfolding contains
only_last = refl

transfer_early_example : assemble (deliver (get_fragment short) (Reassembly.new 2) (1 ∷ [])) ≡ none
unfolding fresh
transfer_early_example = transfer_early short-IsCut (1 ∷ []) 0 (omega arith) only_last

three_bytes_fit : length three_bytes ≤ max_fragments_per_message * 2
three_bytes_fit = omega arith

new_accepts_example :
    (m : OutgoingMessage) × (Outgoing.new 0 MessageType.blob_data three_bytes 2 0 ≡ ok m)
    × IsCut m
    × (m.payload ≡ three_bytes)
    × (m.payload_mtu ≡ 2)
new_accepts_example =
    new_accepts 0 MessageType.blob_data three_bytes 2 0 (omega arith) three_bytes_fit

abbrev many : ℕ → List ℕ
many n = replicate n 0

new_refuses_example :
    Outgoing.new 0 MessageType.blob_data (many 1025) 1 0 ≡ err SequencedError.message_too_large
new_refuses_example =
    let l = length-replicate {A = ℕ} 1025 0 in
    new_refuses 0 MessageType.blob_data (many 1025) 1 0 (omega arith) (omega arith) (omega arith)

new_truncates_example :
    (m : OutgoingMessage) × (Outgoing.new 0 MessageType.blob_data (many 65536) 1 0 ≡ ok m)
    × (m.num_fragments ≡ 0)
    × (all_acked m ≡ true)
new_truncates_example =
    new_truncates 0 MessageType.blob_data (many 65536) 1 0 (omega arith)
      (length-replicate {A = ℕ} 65536 0)

short-IsTracked : IsTracked short
short-IsTracked = fresh-IsTracked 0 MessageType.blob_data three_bytes 2 0 2 (omega arith)

empty-IsValid : IsValid (Reassembly.new 2)
empty-IsValid = new-IsValid_lem 2 (omega arith)

abbrev half : FragmentBuffer
half = (add_fragment (Reassembly.new 2) 1 (30 ∷ [])).0

half-IsValid : IsValid half
half-IsValid = add_fragment-IsValid 1 (30 ∷ []) empty-IsValid

add_fragment_effect_example :
    let c = (add_fragment half 0 (10 ∷ 20 ∷ [])).0 in
    let r = (add_fragment half 0 (10 ∷ 20 ∷ [])).1 in
    (r ≡ (
      if leb half.total_fragments 0
      then err SequencedError.invalid_fragment_index
      else ok (is_complete c)))
    × (c.fragments ≡ (
        if ltb 0 half.total_fragments && not (received half 0)
        then Prelude.set half.fragments 0 (some (10 ∷ 20 ∷ []))
        else half.fragments))
    × ((j : ℕ) → received c j ≡ ((ltb 0 half.total_fragments && (0 == j)) || received half j))
add_fragment_effect_example = add_fragment_effect 0 (10 ∷ 20 ∷ []) half-IsValid

abbrev started : MessageReassembler
started = record {
  message_id = 7;
  total_fragments = 2;
  priority = Priority.bulk;
  buffer = Reassembly.new 2;
  reserved_bytes = 0;
  last_activity = 0;
}

started-IsLive : IsLive started
unfolding Reassembly.new
started-IsLive = record {
  buffered = empty-IsValid;
  same_total = refl;
  nonempty = omega arith;
  within = omega arith;
  reached = omega arith;
}

add_fragment-IsLive_example : IsLive (Message.add_fragment started 1 (30 ∷ []) 5).0
add_fragment-IsLive_example = add_fragment-IsLive 1 (30 ∷ []) 5 started-IsLive

abbrev waiting : MessageReassembler
waiting = (Message.add_fragment started 1 (30 ∷ []) 5).0

create_ack_lem_example :
    let ack = create_ack waiting 9 in
    Throughout (received waiting.buffer) true 0 ack.base_index
    × (ack.base_index < waiting.total_fragments → received waiting.buffer ack.base_index ≡ false)
    × ((i : ℕ) → i < 64 → test_bit ack.bitmask i ≡ received waiting.buffer (ack.base_index + 1 + i))
create_ack_lem_example = create_ack_lem 9 (add_fragment-IsLive 1 (30 ∷ []) 5 started-IsLive)

create_nack-IsGaps_example :
    IsGaps
      (received waiting.buffer)
      128
      0
      waiting.buffer.highest_index
      (requested (create_nack waiting 0))
create_nack-IsGaps_example = create_nack-IsGaps 0 (add_fragment-IsLive 1 (30 ∷ []) 5 started-IsLive)
