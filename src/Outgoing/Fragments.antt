-- ===== src/Outgoing/Fragments.antt =====
-- How tox-sequenced/src/outgoing.rs cuts a message into fragments, and that the buffer of
-- tox-sequenced/src/reassembly puts it together again.
use mathlib.Core.List.{append-nil}
use native.Mathlib.Nat.{div-add-mod', mod-lt}
use rs_toxcore_c.Prelude.{
  ℕ, zero, suc, ◌+◌, ◌-◌, ◌*◌, ◌≤◌, ◌<◌, ◌≡◌, refl, sym, ap, ◌∙◌, min, true, false, none, some,
  List, [], ◌++◌, arith, inl, inr, lt-or-le, length, drop, lt→ltb, le→ltb, lt→leb, le→leb, contains,
  take-append-drop, length-take, length-drop, drop-drop, drop_beyond, take_beyond,
}
use rs_toxcore_c.Prelude.Search.{Throughout}
use rs_toxcore_c.Protocol.{MessageType, max_fragments_per_message, SequencedError, ok, err}
use rs_toxcore_c.Reassembly
use rs_toxcore_c.Reassembly.{assemble}
use rs_toxcore_c.Reassembly.Assembly.{deliver, joined_from, assemble-deliver}
use rs_toxcore_c.Outgoing.{
  OutgoingMessage, fragment_count, div_ceil, new, fresh, all_acked, get_fragment, fragment_len,
}

-- The fragments cover the payload, and each starts inside it.
pub record IsCut (m : OutgoingMessage) : Type 0 where
  pub few : m.num_fragments ≤ max_fragments_per_message
  pub covered : length m.payload ≤ m.num_fragments * m.payload_mtu
  pub needed : (i : ℕ) → i < m.num_fragments → i * m.payload_mtu < length m.payload

module _ {m : OutgoingMessage} (c : IsCut m) where
  -- A fragment is the stretch of the payload between two multiples of the payload size.
  fragment_step :
      (i : ℕ)
      → i < m.num_fragments
      → get_fragment m i ++ drop (suc i * m.payload_mtu) m.payload
        ≡ drop (i * m.payload_mtu) m.payload
  unfolding get_fragment
  fragment_step i h = elim (lt-or-le (suc i * m.payload_mtu) (length m.payload)) [
    | inl inside ↦
        rw (lt→leb _ _ h, whole inside, next)
          (take-append-drop m.payload_mtu (drop (i * m.payload_mtu) m.payload))
    | inr last ↦ rw (
      lt→leb _ _ h,
      rest last,
      drop_beyond (suc i * m.payload_mtu) m.payload last,
      take_beyond (length m.payload - i * m.payload_mtu) (drop (i * m.payload_mtu) m.payload)
          (omega (arith, length-drop (i * m.payload_mtu) m.payload)),
      append-nil,
    )
  ]
    where
      next_start : suc i * m.payload_mtu ≡ i * m.payload_mtu + m.payload_mtu
      next_start = omega arith

      next :
          drop (suc i * m.payload_mtu) m.payload
          ≡ drop m.payload_mtu (drop (i * m.payload_mtu) m.payload)
      next = rw next_start (sym (drop-drop m.payload_mtu (i * m.payload_mtu) m.payload))

      whole :
          suc i * m.payload_mtu < length m.payload
          → min (i * m.payload_mtu + m.payload_mtu) (length m.payload) - i * m.payload_mtu
            ≡ m.payload_mtu
      whole inside = omega (arith, next_start)

      rest :
          length m.payload ≤ suc i * m.payload_mtu
          → min (i * m.payload_mtu + m.payload_mtu) (length m.payload) - i * m.payload_mtu
            ≡ length m.payload - i * m.payload_mtu
      rest last = omega (arith, next_start)

  joined_rest :
      (n i : ℕ)
      → i + n ≡ m.num_fragments
      → joined_from (get_fragment m) i n ≡ drop (i * m.payload_mtu) m.payload
  unfolding joined_from
  joined_rest zero i e = sym (
      drop_beyond (i * m.payload_mtu) m.payload
        (omega (arith, c.covered, ap (λ (t : ℕ). t * m.payload_mtu) e)))
  joined_rest (suc n) i e =
      ap (◌++◌ (get_fragment m i)) (joined_rest n (suc i) (omega arith))
      ∙ fragment_step i (omega arith)

  -- The fragments of a message, joined, are its payload.
  pub joined-get_fragment : joined_from (get_fragment m) 0 m.num_fragments ≡ m.payload
  joined-get_fragment =
      let e : 0 * m.payload_mtu ≡ 0 = omega arith in
      rw e at (joined_rest m.num_fragments 0 (omega arith))

  -- A fragment of a message cut as `new` cuts it has at least one byte, if there is room for one, and at most the payload size, and `fragment_len` is its
  -- length; there is nothing beyond the last.
  get_fragment_lem :
      (i : ℕ)
      → (length (get_fragment m i) ≡ fragment_len m i)
        × (fragment_len m i ≤ m.payload_mtu)
        × (i < m.num_fragments → 1 ≤ m.payload_mtu → 1 ≤ fragment_len m i)
        × (m.num_fragments ≤ i → get_fragment m i ≡ [])
  unfolding get_fragment fragment_len
  get_fragment_lem i = elim (lt-or-le i m.num_fragments) [
    | inl h ↦ rw (lt→leb _ _ h) (
      omega (
        arith,
        length-take (min (i * m.payload_mtu + m.payload_mtu) (length m.payload) - i * m.payload_mtu)
            (drop (i * m.payload_mtu) m.payload),
        length-drop (i * m.payload_mtu) m.payload,
      ),
      omega arith,
      λ a b. omega (arith, c.needed i h),
      λ a. absurd (omega arith),
    )
    | inr h ↦ rw (le→leb _ _ h) (refl, omega arith, λ a b. absurd (omega arith), λ a. refl)
  ]

  -- A message arrives as it was sent: when each of its fragments has arrived, in any order, with
  -- repetitions and stray indices between them, the receiver's buffer gives the payload. The message
  -- must be cut as `new` cuts it.
  pub transfer :
      (arrivals : List ℕ)
      → Throughout (contains arrivals) true 0 m.num_fragments
      → assemble (deliver (get_fragment m) (Reassembly.new m.num_fragments) arrivals)
        ≡ some m.payload
  transfer arrivals all =
      (assemble-deliver (get_fragment m) m.num_fragments arrivals c.few).0 all
      ∙ ap some joined-get_fragment

  -- The receiver's buffer gives nothing as long as one fragment of a message cut
  -- as `new` cuts it has not arrived.
  pub transfer_early :
      (arrivals : List ℕ) (j : ℕ)
      → j < m.num_fragments
      → contains arrivals j ≡ false
      → assemble (deliver (get_fragment m) (Reassembly.new m.num_fragments) arrivals) ≡ none
  transfer_early arrivals j = (assemble-deliver (get_fragment m) m.num_fragments arrivals c.few).1 j

div_ceil-covers : (a b : ℕ) → 0 < b → a ≤ div_ceil a b * b
div_ceil-covers a b h = omega (arith, div-add-mod' (a + b - 1) b, mod-lt (a + b - 1) h)

div_ceil-tight : (a b : ℕ) → div_ceil a b * b ≤ a + b - 1
div_ceil-tight a b = omega (arith, div-add-mod' (a + b - 1) b)

-- The last multiple below a ceiling is below the dividend.
below_div_ceil : (a b i : ℕ) → 0 < b → i < div_ceil a b → i * b < a
below_div_ceil a b i h l =
    let next : suc i * b ≤ div_ceil a b * b = grind arith in omega (arith, div_ceil-tight a b)

div_ceil-le : (a b k : ℕ) → 0 < b → a ≤ k * b → div_ceil a b ≤ k
div_ceil-le a b k h l = elim (lt-or-le k (div_ceil a b)) [
  | inl more ↦ absurd (omega (arith, below_div_ceil a b k h more))
  | inr le ↦ le
]

div_ceil-gt : (a b k : ℕ) → 0 < b → k * b < a → k < div_ceil a b
div_ceil-gt a b k h l = elim (lt-or-le k (div_ceil a b)) [
  | inl more ↦ more
  | inr le ↦
      let bound : div_ceil a b * b ≤ k * b = grind arith in
      absurd (omega (arith, div_ceil-covers a b h))
]

fragment_count-eq :
    (payload : List ℕ) (mtu : ℕ)
    → 0 < mtu
    → length payload ≤ 65535 * mtu
    → fragment_count payload mtu ≡ div_ceil (length payload) mtu
unfolding fragment_count
fragment_count-eq payload mtu h l =
    let few : div_ceil (length payload) mtu ≤ 65535 = div_ceil-le (length payload) mtu 65535 h l in
    elim (lt-or-le 0 (length payload)) [
      | inl bytes ↦ ground arith
      | inr none' ↦
          let e : length payload ≡ 0 = omega arith in
          let f : div_ceil (length payload) mtu ≤ 0 =
            div_ceil-le (length payload) mtu 0 h (omega arith) in
          ground arith
    ]

-- The two branches of `new`.
new_lem :
    (t : ℕ) (type : MessageType) (payload : List ℕ) (mtu now : ℕ)
    → 0 < mtu
    → (length payload ≤ max_fragments_per_message * mtu
        → (m : OutgoingMessage) × (new t type payload mtu now ≡ ok m)
          × IsCut m
          × (m.payload ≡ payload)
          × (m.payload_mtu ≡ mtu))
      × (max_fragments_per_message * mtu < length payload
          → length payload ≤ 65535 * mtu
          → new t type payload mtu now ≡ err SequencedError.message_too_large)
unfolding new
new_lem t type payload mtu now h = (accepted, refused)
  where
    n : ℕ
    n = fragment_count payload mtu

    exact : length payload ≤ 65535 * mtu → n ≡ div_ceil (length payload) mtu
    exact = fragment_count-eq payload mtu h

    accepted :
        length payload ≤ max_fragments_per_message * mtu
        → (m : OutgoingMessage) × (new t type payload mtu now ≡ ok m)
          × IsCut m
          × (m.payload ≡ payload)
          × (m.payload_mtu ≡ mtu)
    accepted l =
        let e : n ≡ div_ceil (length payload) mtu = exact (omega arith) in
        let few : n ≤ max_fragments_per_message =
          rw e (div_ceil-le (length payload) mtu max_fragments_per_message h l) in
        (
          fresh t type payload mtu now n,
          rw (le→ltb _ _ few),
          unfold fresh in
              (record {
                few = few;
                covered = rw e (div_ceil-covers (length payload) mtu h);
                needed = λ i l. below_div_ceil (length payload) mtu i h (rw e at l);
              }),
          unfold fresh in refl,
          unfold fresh in refl,
        )

    refused :
        max_fragments_per_message * mtu < length payload
        → length payload ≤ 65535 * mtu
        → new t type payload mtu now ≡ err SequencedError.message_too_large
    refused a b =
        let many : max_fragments_per_message < n =
          rw (exact b) (div_ceil-gt (length payload) mtu max_fragments_per_message h a) in
        rw (lt→ltb _ _ many)

-- `new` cuts a payload that fits 1024 fragments into fragments that cover it, each of which is
-- needed; a fragment must have room for a byte.
pub new_accepts :
    (t : ℕ) (type : MessageType) (payload : List ℕ) (mtu now : ℕ)
    → 0 < mtu
    → length payload ≤ max_fragments_per_message * mtu
    → (m : OutgoingMessage) × (new t type payload mtu now ≡ ok m)
      × IsCut m
      × (m.payload ≡ payload)
      × (m.payload_mtu ≡ mtu)
new_accepts t type payload mtu now h = (new_lem t type payload mtu now h).0

-- `new` refuses a payload that does not fit 1024 fragments, up to the 65535 fragments that the
-- cast to `u16` can tell; a fragment must have room for a byte.
pub new_refuses :
    (t : ℕ) (type : MessageType) (payload : List ℕ) (mtu now : ℕ)
    → 0 < mtu
    → max_fragments_per_message * mtu < length payload
    → length payload ≤ 65535 * mtu
    → new t type payload mtu now ≡ err SequencedError.message_too_large
new_refuses t type payload mtu now h = (new_lem t type payload mtu now h).1

fragment_count-wraps :
    (payload : List ℕ) (mtu : ℕ)
    → 0 < mtu
    → length payload ≡ 65536 * mtu
    → fragment_count payload mtu ≡ 0
unfolding fragment_count
fragment_count-wraps payload mtu h e =
    let low : 65535 < div_ceil (length payload) mtu =
      div_ceil-gt (length payload) mtu 65535 h (omega arith) in
    let high : div_ceil (length payload) mtu ≤ 65536 =
      div_ceil-le (length payload) mtu 65536 h (omega arith) in
    ground arith

-- The cast comes before the check: a payload of 65536 full fragments is taken for one without any,
-- and the message counts as acknowledged at once, if a fragment has room for a byte.
pub new_truncates :
    (t : ℕ) (type : MessageType) (payload : List ℕ) (mtu now : ℕ)
    → 0 < mtu
    → length payload ≡ 65536 * mtu
    → (m : OutgoingMessage) × (new t type payload mtu now ≡ ok m)
      × (m.num_fragments ≡ 0)
      × (all_acked m ≡ true)
unfolding new all_acked fresh
new_truncates t type payload mtu now h e =
    let wrapped : fragment_count payload mtu ≡ 0 = fragment_count-wraps payload mtu h e in
    (
      fresh t type payload mtu now (fragment_count payload mtu),
      rw wrapped refl,
      wrapped,
      rw wrapped refl,
    )
