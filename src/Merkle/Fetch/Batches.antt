-- ===== src/Merkle/Fetch/Batches.antt =====
-- What a batch of merkle-tox-core/src/engine/session/active.rs takes and what it leaves.
use rs_toxcore_c.Prelude.{
  ℕ, zero, suc, ◌+◌, ◌-◌, ◌≤◌, ◌≡◌, refl, sym, ap, ◌∙◌, arith, Bool, true, false, ◌||◌, Option,
  none, some, List, [], ◌∷◌, ◌++◌, ◌==◌, ◌⊎◌, inl, inr, Bool-cases, length, contains,
  contains-append, length-append, All,
}
use rs_toxcore_c.Merkle.{All-map}
use rs_toxcore_c.Merkle.Fetch.{
  SessionCommon, FetchBatchReq, with_hash, take_missing, next_fetch_batch,
}

-- The hashes taken were in the queue, were not under way, and are now; they are no more than the
-- room; the queue is emptied if room is left; and a hash of the queue is still there or under way.
abbrev IsTaken : List ℕ → ℕ → (ℕ → Bool) → List ℕ × List ℕ × (ℕ → Bool) → Type 0
IsTaken queue room fetched (hashes, left, fetched') =
    (length hashes ≤ room)
    × ((left ≡ []) ⊎ (length hashes ≡ room))
    × All (λ h. fetched h ≡ false) hashes
    × ((h : ℕ) → fetched' h ≡ (fetched h || contains hashes h))
    × ((h : ℕ) → contains queue h ≡ true → (contains left h || fetched' h) ≡ true)

take_missing-IsTaken :
    (queue : List ℕ) (room : ℕ) (fetched : ℕ → Bool)
    → IsTaken queue room fetched (take_missing queue room fetched)
unfolding take_missing contains with_hash
take_missing-IsTaken [] room fetched = (omega arith, inl refl, tt, λ h. ground arith, λ h i. cc)
take_missing-IsTaken (hash ∷ queue) zero fetched =
    (omega arith, inr refl, tt, λ h. ground arith, λ h i. ground (arith, i))
take_missing-IsTaken (hash ∷ queue) (suc room) fetched = elim (Bool-cases (fetched hash)) [
  | inl e ↦
      let (few, full, new, now, kept) = take_missing-IsTaken queue (suc room) fetched in
      rw e (
        few,
        full,
        new,
        now,
        λ h i. elim (Bool-cases (hash == h)) [
          | inl f ↦
              let same : hash ≡ h = ground (arith, f) in
              let there : fetched h ≡ true = ap fetched (sym same) ∙ e in
              ground (arith, now h, there)
          | inr f ↦ kept h (rw f at i)
        ],
      )
  | inr e ↦
      let (few, full, new, now, kept) = take_missing-IsTaken queue room (with_hash fetched hash) in
      rw e (
        omega (arith, few),
        elim full [ inl z ↦ inl z | inr z ↦ inr (ap suc z) ],
        (
          e,
          All-map (λ h. with_hash fetched hash h ≡ false) (λ h. fetched h ≡ false)
              (λ h g. ground (arith, g)) _ new,
        ),
        λ h. now h ∙ ground arith,
        λ h i. elim (Bool-cases (hash == h)) [
          | inl f ↦ ground (arith, now h, f)
          | inr f ↦ kept h (rw f at i)
        ],
      )
]

abbrev hashes_of : Option FetchBatchReq → List ℕ
hashes_of none = []
hashes_of (some r) = r.hashes

-- The node is still to be fetched, in one of the queues.
abbrev pub is_queued : SessionCommon → ℕ → Bool
is_queued s h =
    contains s.missing_admin_nodes h
    || contains s.missing_nodes_hot h
    || contains s.missing_nodes_cold h

abbrev pub IsBatch : SessionCommon → ℕ → SessionCommon × Option FetchBatchReq → Type 0
IsBatch s batch_size (s', req) =
    (length (hashes_of req) ≤ batch_size)
    × ((h : ℕ) → s'.in_flight_fetches h ≡ (s.in_flight_fetches h || contains (hashes_of req) h))
    × ((h : ℕ) → is_queued s h ≡ true → (is_queued s' h || s'.in_flight_fetches h) ≡ true)

hashes_of-batch :
    (conversation_id : ℕ) (l : List ℕ)
    → hashes_of (elim l [
      | [] ↦ none
      | hash ∷ hashes ↦ some (record { conversation_id = conversation_id; hashes = hash ∷ hashes })
    ])
      ≡ l
hashes_of-batch conversation_id [] = refl
hashes_of-batch conversation_id (x ∷ l) = refl

-- A batch has no more hashes than allowed; the fetches under way are afterwards those before and the
-- hashes of the batch; and no missing node is lost: one that was queued is still queued or under way.
pub next_fetch_batch-IsBatch :
    (conversation_id : ℕ) (s : SessionCommon) (batch_size : ℕ)
    → IsBatch s batch_size (next_fetch_batch conversation_id s batch_size)
unfolding next_fetch_batch
next_fetch_batch-IsBatch conversation_id s batch_size =
    let (few₁, full₁, new₁, now₁, kept₁) =
      take_missing-IsTaken s.missing_admin_nodes batch_size s.in_flight_fetches in
    let (admin, admin_left, fetched₁) =
      take_missing s.missing_admin_nodes batch_size s.in_flight_fetches in
    let (few₂, full₂, new₂, now₂, kept₂) =
      take_missing-IsTaken s.missing_nodes_hot (batch_size - length admin) fetched₁ in
    let (hot, hot_left, fetched₂) =
      take_missing s.missing_nodes_hot (batch_size - length admin) fetched₁ in
    let (few₃, full₃, new₃, now₃, kept₃) =
      take_missing-IsTaken s.missing_nodes_cold (batch_size - length admin - length hot) fetched₂ in
    let (cold, cold_left, fetched₃) =
      take_missing s.missing_nodes_cold (batch_size - length admin - length hot) fetched₂ in
    let all : length (admin ++ hot ++ cold) ≡ length admin + length hot + length cold =
      length-append (admin ++ hot) cold ∙ ap (λ n. n + length cold) (length-append admin hot) in
    let within : (h : ℕ)
        → contains (admin ++ hot ++ cold) h
          ≡ ((contains admin h || contains hot h) || contains cold h) =
      λ h.
        contains-append (admin ++ hot) cold h
        ∙ ap (λ b. b || contains cold h) (contains-append admin hot h) in
    rw (hashes_of-batch conversation_id (admin ++ hot ++ cold)) (
      omega (arith, all, few₁, few₂, few₃),
      λ h. ground (arith, within h, now₁ h, now₂ h, now₃ h),
      λ h i. elim (Bool-cases (contains s.missing_admin_nodes h)) [
        | inl e ↦ ground (arith, kept₁ h e, now₂ h, now₃ h)
        | inr e ↦ elim (Bool-cases (contains s.missing_nodes_hot h)) [
          | inl f ↦ ground (arith, kept₂ h f, now₃ h)
          | inr f ↦
              let g : contains s.missing_nodes_cold h ≡ true = ground (arith, i, e, f) in
              ground (arith, kept₃ h g)
        ]
      ],
    )
