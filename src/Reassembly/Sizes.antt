-- ===== src/Reassembly/Sizes.antt =====
-- Bounds on the sizes that tox-sequenced/src/reassembly/buffer.rs plans for a message.
use rs_toxcore_c.Prelude.{
  ℕ, ◌+◌, ◌-◌, ◌*◌, ◌^◌, ◌≤◌, ◌≡◌, ◌==◌, ltb, if◌then◌else◌, refl, Option, none, some, List, arith,
  length, inl, inr, lt-or-le, Bool-cases, lt→leb, le→leb,
}
use rs_toxcore_c.Prelude.Search.{count_from-le}
use rs_toxcore_c.Protocol.{max_message_size}
use rs_toxcore_c.Reassembly.{
  FragmentBuffer, received, new, note_size, store, add_fragment, total_allocated_size,
  planned_total_size, or_size,
}
use rs_toxcore_c.Reassembly.Invariant.{IsValid}

abbrev pub Fits : Option ℕ → Type 0
Fits none = Unit
Fits (some n) = n ≤ max_message_size

-- The recorded sizes of fragments are those of fragments.
abbrev pub IsSized : FragmentBuffer → Type 0
IsSized b = Fits b.full_fragment_size × Fits b.last_fragment_size

pub new-IsSized : (total : ℕ) → IsSized (new total)
unfolding new
new-IsSized total = (tt, tt)

note_size-IsSized :
    (b : FragmentBuffer) (index len : ℕ)
    → len ≤ max_message_size
    → IsSized b
    → IsSized (note_size b index len)
unfolding note_size
note_size-IsSized b index len h v = elim (Bool-cases (index == b.total_fragments - 1)) [
  | inl last ↦ rw last (v.0, h)
  | inr full ↦ rw full (full_size b.full_fragment_size refl)
]
  where
    full_size :
        (o : Option ℕ)
        → b.full_fragment_size ≡ o
        → IsSized (elim b.full_fragment_size [
          | none ↦ record b { full_fragment_size = some len }
          | some current ↦ if ltb current len then record b { full_fragment_size = some len } else b
        ])
    full_size none e = rw e (h, v.1)
    full_size (some n) e =
        rw e (elim (Bool-cases (ltb n len)) [ inl l ↦ rw l (h, v.1) | inr g ↦ rw g v ])

pub add_fragment-IsSized :
    (b : FragmentBuffer) (index : ℕ) (piece : List ℕ)
    → length piece ≤ max_message_size
    → IsSized b
    → IsSized (add_fragment b index piece).0
unfolding add_fragment store
add_fragment-IsSized b index piece h v = elim (lt-or-le index b.total_fragments) [
  | inr beyond ↦ rw (le→leb _ _ beyond) v
  | inl inside ↦ elim (Bool-cases (received b index)) [
    | inl seen ↦ rw (lt→leb _ _ inside, seen) v
    | inr missing ↦ rw (lt→leb _ _ inside, missing) (note_size-IsSized b index (length piece) h v)
  ]
]

pub product-le : (a b c d : ℕ) → a ≤ c → b ≤ d → a * b ≤ c * d
product-le a b c d h k = grind arith

full_size-le :
    (o : Option ℕ) (d : ℕ) → Fits o → d ≤ max_message_size → or_size o d ≤ max_message_size
full_size-le none d f h = h
full_size-le (some n) d f h = f

-- No message is planned to take more than 2 GiB, if a slot takes at most 64 KiB.
pub planned_total_size-le :
    (overhead : ℕ) {b : FragmentBuffer}
    → overhead ≤ 2 ^ 16
    → IsValid b
    → IsSized b
    → b.current_size ≤ max_message_size
    → planned_total_size overhead b ≤ 2 ^ 31
unfolding planned_total_size total_allocated_size
planned_total_size-le overhead {b} o v z c =
    let full = full_size-le b.full_fragment_size 1300 z.0 (omega arith) in
    let last = full_size-le b.last_fragment_size (or_size b.full_fragment_size 1300) z.1 full in
    let bulk =
      product-le (b.total_fragments - 1) (or_size b.full_fragment_size 1300) 1024 (2 ^ 20)
        (omega (arith, v.small)) full in
    let slots =
      product-le b.total_fragments (overhead + 32) 1024 (2 ^ 16 + 32) v.small (omega arith) in
    let used =
      product-le b.received_count (overhead + 32) 1024 (2 ^ 16 + 32)
        (omega (arith, v.small, v.counted, count_from-le (received b) 0 b.total_fragments))
        (omega arith) in
    ground arith
