-- ===== src/Merkle/Cas/Fetches.antt =====
-- What the fetch of chunks in merkle-tox-core/src/cas.rs asks of whom.
use rs_toxcore_c.Prelude.{
  ℕ, zero, suc, ◌+◌, ◌*◌, ◌/◌, ◌≤◌, ◌<◌, ◌≡◌, refl, sym, ap, ◌∙◌, subst, arith, true, false, ◌&&◌,
  ◌||◌, Option, some, List, [], ◌∷◌, ◌==◌, ltb, if◌then◌else◌, inl, inr, Bool-cases, Option-cases,
  length, All, contains,
}
use rs_toxcore_c.Merkle.{All-map}
use rs_toxcore_c.Merkle.Cas.{
  Fetch, SwarmSync, BlobReq, next_missing, in_flight, is_fetched, pick, request_for, request_loop,
  next_requests, max_in_flight, is_received, num_chunks, chunk_size,
}
use rs_toxcore_c.Merkle.Cas.Chunks.{next_missing-IsAnswer}

pick_lem :
    (counts : ℕ → ℕ) (ps : List ℕ) (p : ℕ)
    → pick counts ps ≡ some p
    → (contains ps p ≡ true) × (counts p < max_in_flight)
unfolding pick contains
pick_lem counts [] p h = cc
pick_lem counts (q ∷ ps) p h = elim (Bool-cases (ltb (counts q) max_in_flight)) [
  | inr e ↦ there (pick_lem counts ps p (rw (pick, e) at h))
  | inl e ↦ elim (Option-cases (pick counts ps)) [
    | inl f ↦ own e (rw (pick, e, f) at h)
    | inr (r, f) ↦
        elim (Bool-cases (ltb (counts r) (counts q) || ((counts r == counts q) && ltb r q))) [
          | inl g ↦ there (pick_lem counts ps p (f ∙ (rw (pick, e, f, g) at h)))
          | inr g ↦ own e (rw (pick, e, f, g) at h)
        ]
  ]
]
  where
    there :
        (contains ps p ≡ true) × (counts p < max_in_flight)
        → (contains (q ∷ ps) p ≡ true) × (counts p < max_in_flight)
    there (i, l) = (ground (arith, i), l)

    own :
        ltb (counts q) max_in_flight ≡ true
        → ◌≡◌ {A = Option ℕ} (some q) (some p)
        → (contains (q ∷ ps) p ≡ true) × (counts p < max_in_flight)
    own e f =
        let same : q ≡ p = cc in
        let l : counts q < max_in_flight = ground (arith, e) in
        (ground (arith, same), subst (λ x. counts x < max_in_flight) same l)

-- No peer has more requests under way than the limit.
abbrev pub IsModest : SwarmSync → Type 0
IsModest s = (p : ℕ) → in_flight s.active_fetches p ≤ max_in_flight

-- The map of the loop counts the requests under way.
abbrev Counts : SwarmSync → (ℕ → ℕ) → Type 0
Counts s counts = (p : ℕ) → counts p ≡ in_flight s.active_fetches p

-- A request to a seeder, for a chunk of the object that is missing and not under way.
abbrev pub IsProper : SwarmSync → ℕ × BlobReq → Type 0
IsProper s (p, r) =
    (contains s.seeders p ≡ true)
    × ((c : ℕ) × (r ≡ request_for s c)
        × (c < num_chunks s.tracker)
        × (is_received s.tracker c ≡ false)
        × (is_fetched s.active_fetches c ≡ false))

-- The fetches under way, with those of the requests.
abbrev pub recorded : List (ℕ × BlobReq) → ℕ → List Fetch → List Fetch
recorded [] now fetches = fetches
recorded ((p, r) ∷ reqs) now fetches = recorded reqs now ((r.offset / chunk_size, p, now) ∷ fetches)

-- The requests are proper and few, each is recorded as under way and nothing else changes, and no
-- peer has too many.
abbrev pub IsRight : SwarmSync → ℕ → ℕ → List (ℕ × BlobReq) × SwarmSync → Type 0
IsRight s room now (reqs, s') =
    All (IsProper s) reqs
    × (length reqs ≤ room)
    × (s' ≡ record s { active_fetches = recorded reqs now s.active_fetches })
    × IsModest s'

module _ (s : SwarmSync) (counts : ℕ → ℕ) (modest : IsModest s) (counted : Counts s counts)
    (chunk seeder now : ℕ) where
  abbrev after : SwarmSync
  after = record s { active_fetches = (chunk, seeder, now) ∷ s.active_fetches }

  abbrev counts_after : ℕ → ℕ
  counts_after p = if seeder == p then suc (counts p) else counts p

  Counts-after : Counts after counts_after
  unfolding in_flight
  Counts-after p = rw (in_flight, counted p) refl

  IsModest-after : counts seeder < max_in_flight → IsModest after
  unfolding in_flight
  IsModest-after l p = elim (Bool-cases (seeder == p)) [
    | inr e ↦ rw e (modest p)
    | inl e ↦
        let same : seeder ≡ p = ground (arith, e) in
        let l' : counts p < max_in_flight = subst (λ x. counts x < max_in_flight) same l in
        rw (e, sym (counted p)) (omega (arith, l'))
  ]

  IsProper-after : (r : ℕ × BlobReq) → IsProper after r → IsProper s r
  unfolding is_fetched request_for
  IsProper-after (p, r) (i, (c, e, l, gone, free)) = (i, (c, e, l, gone, ground (arith, free)))

offset_of : (c : ℕ) → c * chunk_size / chunk_size ≡ c
offset_of c = omega arith

request_loop-IsRight :
    (rounds : ℕ) (s : SwarmSync) (counts : ℕ → ℕ) (hint room now : ℕ)
    → IsModest s
    → Counts s counts
    → hint ≤ num_chunks s.tracker
    → IsRight s room now (request_loop rounds s counts hint room now)
unfolding request_loop
request_loop-IsRight zero s counts hint room now modest counted h = (tt, omega arith, refl, modest)
request_loop-IsRight (suc rounds) s counts hint zero now modest counted h =
    (tt, omega arith, refl, modest)
request_loop-IsRight (suc rounds) s counts hint (suc room) now modest counted h =
    elim (Option-cases (next_missing s.tracker hint)) [
      | inl e ↦ rw (request_loop, e) (tt, omega arith, refl, modest)
      | inr (c, e) ↦
          let (lt, gone) = rw e at (next_missing-IsAnswer s.tracker hint h) in
          elim (Bool-cases (is_fetched s.active_fetches c)) [
            | inl f ↦
                rw (request_loop, e, f)
                  (request_loop-IsRight rounds s counts (c + 1) (suc room) now modest counted
                    (omega (arith, lt)))
            | inr f ↦ elim (Option-cases (pick counts s.seeders)) [
              | inl g ↦
                  rw (request_loop, e, f, g)
                    (request_loop-IsRight rounds s counts (c + 1) (suc room) now modest counted
                      (omega (arith, lt)))
              | inr (p, g) ↦
                  let (i, l) = pick_lem counts s.seeders p g in
                  let (reqs, s') =
                    request_loop rounds (after s counts modest counted c p now)
                      (counts_after s counts modest counted c p now) (c + 1) room now in
                  let (proper, few, noted, modest') =
                    request_loop-IsRight rounds (after s counts modest counted c p now)
                      (counts_after s counts modest counted c p now) (c + 1) room now
                      (IsModest-after s counts modest counted c p now l)
                      (Counts-after s counts modest counted c p now) (omega (arith, lt)) in
                  rw (request_loop, e, f, g)
                    (
                      (
                        (i, (c, refl, lt, gone, f)),
                        All-map (IsProper (after s counts modest counted c p now)) (IsProper s)
                            (IsProper-after s counts modest counted c p now) _ proper,
                      ),
                      omega (arith, few),
                      noted
                          ∙ ap
                              (λ (x : ℕ). record s {
                                active_fetches = recorded reqs now ((x, p, now) ∷ s.active_fetches);
                              })
                              (sym (offset_of c)),
                      modest',
                    )
            ]
          ]
    ]

-- Each request goes to a seeder and asks for a chunk of the object that is missing and was not under
-- way; there are at most as many as allowed; each of them is afterwards recorded as under way, with
-- its peer and the time, and nothing else changes; and no peer has more than four requests for the
-- object under way then, if none had before.
pub next_requests-IsRight :
    (s : SwarmSync) (max_total_requests now : ℕ)
    → IsModest s
    → IsRight s max_total_requests now (next_requests s max_total_requests now)
unfolding next_requests
next_requests-IsRight s max_total_requests now modest =
    request_loop-IsRight _ s (in_flight s.active_fetches) 0 max_total_requests now modest
      (λ p. refl) (omega arith)
