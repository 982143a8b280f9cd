-- ===== src/Merkle/Cas.antt =====
-- merkle-tox-core/src/cas.rs: the chunks of a large object, and their fetch from several peers. The
-- check of a chunk against the root of its tree is the parameter `verify`. The fetches under way are
-- the list of the entries of their map, the seeders that of their set; times are in nanoseconds.
pub mod Chunks
pub mod Fetches
use rs_toxcore_c.Word.{test_bit}
use rs_toxcore_c.Prelude.{
  ℕ, zero, suc, ◌+◌, ◌-◌, ◌*◌, ◌/◌, ◌%◌, ◌^◌, min, bit_or, Bool, true, false, not, ◌&&◌, ◌||◌,
  Option, none, some, List, [], ◌∷◌, ◌++◌, ◌==◌, ltb, leb, if◌then◌else◌, length, get_or, set,
  replicate, contains,
}

pub data BlobStatus : Type 0 where
  pending : BlobStatus
  downloading : BlobStatus
  available : BlobStatus
  error : BlobStatus

pub record BlobInfo : Type 0 where
  pub hash : ℕ
  pub size : ℕ
  pub bao_root : Option ℕ
  pub status : BlobStatus
  pub received_mask : Option (List ℕ)
  pub decryption_key : Option ℕ

pub record BlobReq : Type 0 where
  pub hash : ℕ
  pub offset : ℕ
  pub length : ℕ

pub record BlobData : Type 0 where
  pub hash : ℕ
  pub offset : ℕ
  pub bytes : List ℕ
  pub proof : List ℕ

abbrev pub chunk_size : ℕ
chunk_size = 65536

abbrev pub fetch_timeout : ℕ
fetch_timeout = 15 * 10 ^ 9

-- The limit of requests under way to a peer, and an hour, in `next_wakeup`.
abbrev pub max_in_flight : ℕ
max_in_flight = 4

abbrev pub hour : ℕ
hour = 3600 * 10 ^ 9

pub record ChunkTracker : Type 0 where
  pub hash : ℕ
  pub total_size : ℕ
  pub received_mask : List ℕ

-- `div_ceil`
unfoldable pub div_ceil : ℕ → ℕ → ℕ
div_ceil a b = if a % b == 0 then a / b else a / b + 1

unfoldable pub new_tracker : ℕ → ℕ → ChunkTracker
unfolding div_ceil
new_tracker hash total_size = record {
  hash = hash;
  total_size = total_size;
  received_mask = replicate (div_ceil (div_ceil total_size chunk_size) 8) 0;
}

unfoldable pub mark_received : ChunkTracker → ℕ → ChunkTracker
mark_received t chunk_index =
    if ltb (chunk_index / 8) (length t.received_mask)
    then record t {
      received_mask =
          set t.received_mask (chunk_index / 8)
            (bit_or (get_or t.received_mask (chunk_index / 8) 0) (2 ^ (chunk_index % 8)));
    }
    else t

unfoldable pub is_received : ChunkTracker → ℕ → Bool
unfolding test_bit
is_received t chunk_index =
    if ltb (chunk_index / 8) (length t.received_mask)
    then test_bit (get_or t.received_mask (chunk_index / 8) 0) (chunk_index % 8)
    else false

-- The first of so many chunks from one on that is missing.
unfoldable pub missing_from : ChunkTracker → ℕ → ℕ → Option ℕ
unfolding is_received
missing_from t zero i = none
missing_from t (suc count) i =
    let rest = missing_from t count (suc i) in if not (is_received t i) then some i else rest

unfoldable pub num_chunks : ChunkTracker → ℕ
unfolding div_ceil
num_chunks t = div_ceil t.total_size chunk_size

unfoldable pub is_complete : ChunkTracker → Bool
unfolding missing_from num_chunks
is_complete t = elim (missing_from t (num_chunks t) 0) [ none ↦ true | some i ↦ false ]

unfoldable pub next_missing : ChunkTracker → ℕ → Option ℕ
unfolding missing_from num_chunks
next_missing t hint = elim (missing_from t (num_chunks t - hint) hint) [
  | some i ↦ some i
  | none ↦ missing_from t hint 0
]

-- A fetch under way: the chunk, the peer and the time of its start.
abbrev pub Fetch : Type 0
Fetch = ℕ × ℕ × ℕ

pub record SwarmSync : Type 0 where
  pub info : BlobInfo
  pub tracker : ChunkTracker
  pub seeders : List ℕ
  pub active_fetches : List Fetch

unfoldable pub new_swarm : BlobInfo → SwarmSync
unfolding new_tracker
new_swarm info = record {
  info = info;
  tracker = new_tracker info.hash info.size;
  seeders = [];
  active_fetches = [];
}

unfoldable pub add_seeder : SwarmSync → ℕ → SwarmSync
add_seeder s peer =
    if contains s.seeders peer then s else record s { seeders = s.seeders ++ peer ∷ [] }

-- `retain` on a list.
unfoldable pub retain : {A : Type 0} → (A → Bool) → List A → List A
retain p [] = []
retain p (x ∷ xs) = let rest = retain p xs in if p x then x ∷ rest else rest

unfoldable pub remove_seeder : SwarmSync → ℕ → SwarmSync
unfolding retain
remove_seeder s peer = record s {
  seeders = retain (λ p. not (p == peer)) s.seeders;
  active_fetches = retain (λ f. not (f.1 == peer)) s.active_fetches;
}

unfoldable pub clear_stalled_fetches : SwarmSync → ℕ → SwarmSync
unfolding retain
clear_stalled_fetches s now = record s {
  active_fetches = retain (λ f. ltb (now - f.2) fetch_timeout) s.active_fetches;
}

unfoldable pub in_flight : List Fetch → ℕ → ℕ
in_flight [] peer = 0
in_flight ((c, p, t) ∷ fs) peer =
    let rest = in_flight fs peer in if p == peer then suc rest else rest

unfoldable pub is_fetched : List Fetch → ℕ → Bool
is_fetched [] chunk = false
is_fetched ((c, p, t) ∷ fs) chunk = c == chunk || is_fetched fs chunk

-- `filter` and `min_by_key`: the peer with the fewest requests under way, and of those the least.
unfoldable pub pick : (ℕ → ℕ) → List ℕ → Option ℕ
pick in_flight_per_peer [] = none
pick in_flight_per_peer (p ∷ ps) =
    let rest = pick in_flight_per_peer ps in
    if not (ltb (in_flight_per_peer p) max_in_flight) then rest else elim rest [
      | none ↦ some p
      | some q ↦
          if ltb (in_flight_per_peer q) (in_flight_per_peer p)
            || ((in_flight_per_peer q == in_flight_per_peer p) && ltb q p)
          then some q
          else some p
    ]

unfoldable pub request_for : SwarmSync → ℕ → BlobReq
request_for s chunk_idx = record {
  hash = s.info.hash;
  offset = chunk_idx * chunk_size;
  length = chunk_size;
}

-- The rounds of the loop, with the map of the requests under way and the hint.
unfoldable pub request_loop : ℕ → SwarmSync → (ℕ → ℕ) → ℕ → ℕ → ℕ → List (ℕ × BlobReq) × SwarmSync
unfolding next_missing is_fetched pick request_for
request_loop zero s counts hint room now = ([], s)
request_loop (suc rounds) s counts hint zero now = ([], s)
request_loop (suc rounds) s counts hint (suc room) now = elim (next_missing s.tracker hint) [
  | none ↦ ([], s)
  | some chunk_idx ↦
      if is_fetched s.active_fetches chunk_idx
      then request_loop rounds s counts (chunk_idx + 1) (suc room) now
      else elim (pick counts s.seeders) [
        | none ↦ request_loop rounds s counts (chunk_idx + 1) (suc room) now
        | some seeder ↦
            let (reqs, s') =
              request_loop rounds
                (record s { active_fetches = (chunk_idx, seeder, now) ∷ s.active_fetches })
                (λ p. if seeder == p then suc (counts p) else counts p) (chunk_idx + 1) room now in
            ((seeder, request_for s chunk_idx) ∷ reqs, s')
      ]
]

unfoldable pub next_requests : SwarmSync → ℕ → ℕ → List (ℕ × BlobReq) × SwarmSync
unfolding div_ceil in_flight request_loop
next_requests s max_total_requests now =
    request_loop (div_ceil s.info.size chunk_size) s (in_flight s.active_fetches) 0
      max_total_requests now

module _ (verify : BlobData → ℕ → Bool) where
  unfoldable pub on_chunk_received : SwarmSync → BlobData → SwarmSync × Bool
  unfolding retain mark_received
  on_chunk_received s chunk =
      let chunk_idx = chunk.offset / chunk_size in
      let cleared : SwarmSync = record s {
        active_fetches = retain (λ f. not (f.0 == chunk_idx)) s.active_fetches;
      } in
      let bad : Bool = elim s.info.bao_root [
        | none ↦ false
        | some root ↦ not (verify chunk root)
      ] in
      if bad
      then (cleared, false)
      else (record cleared { tracker = mark_received s.tracker chunk_idx }, true)

-- The end of the first fetch to time out.
unfoldable pub first_timeout : List Fetch → ℕ → ℕ
first_timeout [] next = next
first_timeout ((c, p, start) ∷ fs) next = first_timeout fs (min next (start + fetch_timeout))

unfoldable pub has_idle : SwarmSync → List ℕ → Bool
unfolding in_flight
has_idle s [] = false
has_idle s (p ∷ ps) = (in_flight s.active_fetches p == 0) || has_idle s ps

unfoldable pub has_work : SwarmSync → ℕ → ℕ → Bool
unfolding is_received is_fetched
has_work s zero i = false
has_work s (suc count) i =
    (not (is_received s.tracker i) && not (is_fetched s.active_fetches i))
    || has_work s count (suc i)

unfoldable pub next_wakeup : SwarmSync → ℕ → ℕ
unfolding first_timeout has_idle has_work num_chunks
next_wakeup s now =
    if has_idle s s.seeders && has_work s (num_chunks s.tracker) 0
    then now
    else first_timeout s.active_fetches (now + hour)
