-- ===== src/Merkle/Fetch.antt =====
-- merkle-tox-core/src/engine/session/active.rs: the queues of nodes that a session has to fetch from
-- a peer. A `HashSet` is a test; of `SessionCommon` the fields that these operations use are here.
pub mod Batches
use rs_toxcore_c.Prelude.{
  ℕ, zero, suc, ◌-◌, Bool, true, false, ◌||◌, Option, none, some, List, [], ◌∷◌, ◌++◌, ◌==◌,
  if◌then◌else◌, length,
}

-- engine/session/mod.rs
pub record SessionCommon : Type 0 where
  pub missing_admin_nodes : List ℕ
  pub missing_nodes_hot : List ℕ
  pub missing_nodes_cold : List ℕ
  pub in_flight_fetches : ℕ → Bool

pub record FetchBatchReq : Type 0 where
  pub conversation_id : ℕ
  pub hashes : List ℕ

-- `HashSet::insert`
unfoldable pub with_hash : (ℕ → Bool) → ℕ → ℕ → Bool
with_hash fetched hash h = hash == h || fetched h

-- The loop over a queue, with the room that the batch has left: the hashes that it takes, what it
-- leaves of the queue, and the fetches under way.
unfoldable pub take_missing : List ℕ → ℕ → (ℕ → Bool) → List ℕ × List ℕ × (ℕ → Bool)
unfolding with_hash
take_missing [] room fetched = ([], [], fetched)
take_missing (hash ∷ queue) zero fetched = ([], hash ∷ queue, fetched)
take_missing (hash ∷ queue) (suc room) fetched =
    let skipped = take_missing queue (suc room) fetched in
    let (hashes, left, fetched') = take_missing queue room (with_hash fetched hash) in
    if fetched hash then skipped else (hash ∷ hashes, left, fetched')

unfoldable pub next_fetch_batch : ℕ → SessionCommon → ℕ → SessionCommon × Option FetchBatchReq
unfolding take_missing
next_fetch_batch conversation_id s batch_size =
    let (admin, admin_left, fetched₁) =
      take_missing s.missing_admin_nodes batch_size s.in_flight_fetches in
    let (hot, hot_left, fetched₂) =
      take_missing s.missing_nodes_hot (batch_size - length admin) fetched₁ in
    let (cold, cold_left, fetched₃) =
      take_missing s.missing_nodes_cold (batch_size - length admin - length hot) fetched₂ in
    let s' : SessionCommon = record {
      missing_admin_nodes = admin_left;
      missing_nodes_hot = hot_left;
      missing_nodes_cold = cold_left;
      in_flight_fetches = fetched₃;
    } in
    (
      s',
      elim (admin ++ hot ++ cold) [
        | [] ↦ none
        | hash ∷ hashes ↦
            some (record { conversation_id = conversation_id; hashes = hash ∷ hashes })
      ],
    )
