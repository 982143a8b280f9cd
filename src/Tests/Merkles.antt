-- ===== src/Tests/Merkles.antt =====
-- Runs of merkle-tox-core.
use Prim.Native.String.{String}
use rs_toxcore_c.Word.{test_bit}
use rs_toxcore_c.Prelude.{
  Option, false, inr, ap, ℕ, suc, ◌+◌, ◌-◌, ◌^◌, ◌*◌, ◌<◌, ◌≡◌, refl, subst, arith, max, Bool, true,
  ◌&&◌, ◌||◌, none, some, List, [], ◌∷◌, ◌==◌, leb, if◌then◌else◌, Bool-cases, ◌↔◌, inl, inr,
  length,
}
use rs_toxcore_c.Merkle.{put, put-cases}
use rs_toxcore_c.Merkle.Conversation.{
  Established, Ratchet, new_established, peek_keys, keys_at, count_node, ratchet_message_key,
  ratchet_step,
}
use rs_toxcore_c.Merkle.Conversation.Counted.{peek_keys-count_node}
use rs_toxcore_c.Merkle.Conversation.Order.{IsKeyOf, IsOrderly, Arrival, advance_all, peek_keys_lem}
use rs_toxcore_c.Merkle.Identity.{
  AuthRecord, IdentityManager, global, lookup, DelegationCertificate, revoke_device,
}
use rs_toxcore_c.Merkle.Identity.Trust.{
  get_permissions_recursive, is_authorized_recursive, is_usable, max_auth_depth,
}
use rs_toxcore_c.Merkle.Identity.Trust.Chains.{
  Chain, get_permissions_recursive_iff, is_authorized_recursive_iff,
}
use rs_toxcore_c.Merkle.Identity.Trust.Revoked.{revoke_device_lem}
use rs_toxcore_c.Merkle.Identity.Authorize.{
  DelegationSignData, done, is_valid, record_certificate, authorize_device,
}
use rs_toxcore_c.Merkle.Identity.Authorize.Safety.{IsBacked, authorize_device_lem}
use rs_toxcore_c.Merkle.Identity.Authorize.Effect.{authorize_device_effect_lem}
use rs_toxcore_c.Merkle.Dag.{
  ephemeral_signature, control, genesis, text, admin_node, MerkleNode, NodeLookup, Content,
  ControlAction,
}
use rs_toxcore_c.Merkle.Dag.Padding.{apply_padding, remove_padding, unpadded, min_padding_bin}
use rs_toxcore_c.Merkle.Dag.Padding.Laws.{
  IsLeastPower, remove_padding-apply_padding, length-apply_padding,
}
use rs_toxcore_c.Merkle.Dag.Validation.{WireAuthData, accepted, validate}
use rs_toxcore_c.Merkle.Dag.Validation.Rules.{IsAllowed, validate_iff}
use rs_toxcore_c.Merkle.Dag.Store.{Store, effective_timestamp}
use rs_toxcore_c.Merkle.Dag.Store.Ancestors.{
  IsRanked, IsBounded, IsAbove, IsLatest, rank_of, effective_timestamp-IsLatest,
  put-validate-IsRanked,
}
use rs_toxcore_c.Merkle.Fetch.{SessionCommon, next_fetch_batch}
use rs_toxcore_c.Merkle.Fetch.Batches.{IsBatch, next_fetch_batch-IsBatch}
use rs_toxcore_c.Merkle.Cas.{
  ChunkTracker, new_tracker, mark_received, is_received, next_missing, num_chunks, in_flight,
  SwarmSync, downloading, next_requests,
}
use rs_toxcore_c.Merkle.Cas.Chunks.{
  fits, is_received-mark_received, IsAnswer, next_missing-IsAnswer,
}
use rs_toxcore_c.Merkle.Cas.Fetches.{IsRight, next_requests-IsRight}

-- A derivation that tells keys apart.
abbrev plain_key : String → List ℕ → ℕ
plain_key context [] = 1
plain_key context (x ∷ xs) = x * 3 + plain_key context xs

-- A conversation, and the third message of a sender, which arrives first.
abbrev fresh_conversation : Established
fresh_conversation = new_established plain_key 5 0

abbrev arrived : List Arrival
arrived = (false, 7, 3, 11, 0) ∷ (true, 7, 2, 12, 0) ∷ []

-- Where the sender's ratchet stands then.
abbrev last_seq_of : Option Ratchet → ℕ
last_seq_of none = 0
last_seq_of (some r) = r.last_seq

abbrev epoch_of : Option Ratchet → ℕ
epoch_of none = 0
epoch_of (some r) = r.epoch_id

arrived-IsOrderly : IsOrderly plain_key fresh_conversation arrived
unfolding new_established peek_keys advance_all count_node ratchet_message_key ratchet_step
arrived-IsOrderly = (
  omega arith,
  (
    λ r e.
        let last : 3 ≡ r.last_seq = ap last_seq_of e in
        let epoch : 0 ≡ r.epoch_id = ap epoch_of e in inr (epoch, omega (arith, last)),
    tt,
  ),
)

peek_keys_lem_example :
    IsKeyOf plain_key fresh_conversation.epochs fresh_conversation.sender_keys 7 2 337
unfolding new_established peek_keys advance_all count_node ratchet_message_key ratchet_step
peek_keys_lem_example =
    peek_keys_lem plain_key fresh_conversation arrived 7 2 0 337 0 (λ pk. refl, λ pk seq. refl)
      arrived-IsOrderly (omega arith) refl

-- The conversation after the sender's first message.
abbrev first_counted : Established
first_counted = (count_node plain_key fresh_conversation false 7 1 11 0).0

abbrev at_one : Ratchet
at_one = record { last_seq = 1; next_chain_key = 112; last_node_hash = some 11; epoch_id = 0 }

peek_keys-count_node_example :
    ((peek_keys plain_key (count_node plain_key first_counted true 7 2 12 0).0 7 3 0).1
      ≡ some (keys_at plain_key 112))
    × ((peek_keys plain_key first_counted 7 3 0).1
        ≡ some (keys_at plain_key (ratchet_step plain_key 112)))
unfolding new_established count_node ratchet_step
peek_keys-count_node_example =
    peek_keys-count_node plain_key first_counted 7 12 0 at_one refl (omega arith) (omega arith)

-- Device 5 acts for identity 9 in conversation 1, with all permissions.
abbrev of_five : AuthRecord
of_five = record {
  logical_pk = 9;
  issuer_pk = 9;
  permissions = 7;
  expires_at = 100;
  auth_rank = 1;
  auth_hash = 21;
}

abbrev with_five : IdentityManager
with_five = record {
  authorized_devices = (1, 5, of_five ∷ []) ∷ [];
  logical_members = [];
  revoked_devices = [];
}

get_permissions_recursive_iff_example :
    ((p : ℕ) × (get_permissions_recursive with_five global 1 9 0 10 17 5 ≡ some p)
      × (test_bit p 0 ≡ true))
    ↔ Chain with_five global 1 9 0 10 (λ r. test_bit r.permissions 0 ≡ true) 17 5
get_permissions_recursive_iff_example =
    get_permissions_recursive_iff with_five global 1 9 0 10 17 5 0 (omega arith)

is_authorized_recursive_iff_example :
    ((x : ℕ) × (is_authorized_recursive with_five global 1 9 0 10 17 5 ≡ some x)
      × (leb 90 x ≡ true))
    ↔ Chain with_five global 1 9 0 10 (λ r. leb 90 r.expires_at ≡ true) 17 5
is_authorized_recursive_iff_example =
    is_authorized_recursive_iff with_five global 1 9 0 10 17 5 90 (omega arith)

revoke_device_lem_example :
    (get_permissions_recursive (revoke_device with_five 1 9 9 5 3 0 22) global 1 9 0 10 17 5 ≡ none)
    × (is_authorized_recursive (revoke_device with_five 1 9 9 5 3 0 22) global 1 9 0 10 17 5 ≡ none)
unfolding global
revoke_device_lem_example =
    revoke_device_lem with_five global 1 9 5 3 0 22 0 10 (λ e. omega (arith, e)) refl (omega arith)
      17

abbrev by_key : ℕ → DelegationSignData → ℕ → Bool
by_key key fields signature = key == signature

-- Device 5 lets device 6 write.
abbrev for_six : DelegationCertificate
for_six = record {
  version = 1;
  conversation_id = 1;
  device_pk = 6;
  permissions = 2;
  expires_at = 50;
  signature = 5;
}

abbrev with_six : IdentityManager
with_six = record_certificate by_key with_five global 1 9 for_six 0 10 5 23

authorize_device_lem_example :
    (issuer : ℕ) × (with_six
      ≡ record_certificate by_key with_five global 1 9 for_six 0 10 issuer 23)
    × IsBacked by_key with_five global 1 9 for_six 0 10 issuer
unfolding authorize_device global get_permissions_recursive lookup is_usable
authorize_device_lem_example =
    authorize_device_lem by_key with_five global 1 9 for_six 0 10 23 with_six refl

-- The identity lets device 8 write.
abbrev for_eight : DelegationCertificate
for_eight = record for_six { device_pk = 8; signature = 9 }

authorize_device_effect_lem_example :
    (m' : IdentityManager) × (authorize_device by_key with_five global 1 9 for_eight 0 10 24
      ≡ done m')
    × ((p : ℕ) × (get_permissions_recursive m' global 1 9 40 10 (suc max_auth_depth) 8 ≡ some p)
        × (test_bit p 1 ≡ true))
unfolding global test_bit is_valid lookup
authorize_device_effect_lem_example =
    authorize_device_effect_lem by_key with_five global 1 9 for_eight 0 10 24 refl refl 40
      (omega arith) refl refl 1 (omega arith) refl

-- The first node of a conversation of two, and a text that follows it.
abbrev first_node : MerkleNode
first_node = record {
  parents = [];
  author_pk = 9;
  sender_pk = 5;
  sequence_number = 1;
  topological_rank = 0;
  network_timestamp = 1000;
  content = control (genesis "talk" 9 7 0 1000 0);
  metadata = [];
  authentication = ephemeral_signature 77;
  pow_nonce = 0;
}

abbrev second_node : MerkleNode
second_node = record {
  parents = 31 ∷ [];
  author_pk = 9;
  sender_pk = 5;
  sequence_number = 2;
  topological_rank = 1;
  network_timestamp = 900;
  content = text "hello";
  metadata = 1 ∷ [];
  authentication = ephemeral_signature 78;
  pow_nonce = 0;
}

abbrev first_store : Store
first_store = put (λ _. none) 31 first_node

first_store-IsRanked : IsRanked first_store
first_store-IsRanked h n e = elim (put-cases (λ _. none) 31 first_node h n e) [
  | inl (_, same) ↦ subst (IsAbove first_store) same tt
  | inr absent ↦ cc
]

first_store-IsBounded : IsBounded first_store
first_store-IsBounded h n e = elim (put-cases (λ _. none) 31 first_node h n e) [
  | inl (_, same) ↦ subst (λ (m : MerkleNode). m.topological_rank < 2 ^ 64 - 1) same (omega arith)
  | inr absent ↦ cc
]

abbrev of_first_store : NodeLookup
of_first_store = record {
  get_node_type = λ h. if h == 31 then some admin_node else none;
  get_rank = rank_of first_store;
  get_admin_distance = λ h. if h == 31 then some 0 else none;
  get_soft_anchor_chain_length = λ h. none;
}

abbrev bytes_of_content : Content → List ℕ
bytes_of_content content = 5 ∷ 104 ∷ []

abbrev bytes_of_wire : WireAuthData → List ℕ
bytes_of_wire wire = wire.payload_data

abbrev bytes_of_action : ControlAction → List ℕ
bytes_of_action action = 4 ∷ []

abbrev bytes_of_node : MerkleNode → List ℕ
bytes_of_node node = node.parents

abbrev first_byte : List ℕ → List ℕ
first_byte bytes = 0 ∷ 0 ∷ 1 ∷ []

abbrev by_sender : ℕ → List ℕ → ℕ → Bool
by_sender key bytes signature = key == signature

validate_iff_example :
    (validate bytes_of_content bytes_of_wire bytes_of_action bytes_of_node first_byte by_sender
        of_first_store second_node
      ≡ accepted)
    ↔ IsAllowed bytes_of_content bytes_of_wire bytes_of_action bytes_of_node first_byte by_sender
        of_first_store second_node
validate_iff_example =
    validate_iff bytes_of_content bytes_of_wire bytes_of_action bytes_of_node first_byte by_sender
      of_first_store second_node

put-validate-IsRanked_example : IsRanked (put first_store 32 second_node)
unfolding validate
put-validate-IsRanked_example =
    put-validate-IsRanked bytes_of_content bytes_of_wire bytes_of_action bytes_of_node first_byte
      by_sender of_first_store first_store refl 32 second_node first_store-IsRanked
      first_store-IsBounded refl refl

effective_timestamp-IsLatest_example :
    IsLatest first_store second_node (effective_timestamp first_store 2 second_node)
effective_timestamp-IsLatest_example =
    effective_timestamp-IsLatest first_store first_store-IsRanked 2 second_node
      ((0, refl, omega arith), tt) (omega arith)

remove_padding-apply_padding_example :
    remove_padding (apply_padding (5 ∷ 0 ∷ 128 ∷ 0 ∷ [])) ≡ unpadded (5 ∷ 0 ∷ 128 ∷ 0 ∷ [])
remove_padding-apply_padding_example = remove_padding-apply_padding (5 ∷ 0 ∷ 128 ∷ 0 ∷ [])

length-apply_padding_example :
    (p : ℕ) × IsLeastPower (3 + 1) p
    × (length (apply_padding (5 ∷ 0 ∷ 128 ∷ [])) ≡ max p min_padding_bin)
length-apply_padding_example = length-apply_padding (5 ∷ 0 ∷ 128 ∷ [])

-- An object of four chunks, two peers that have it, and one chunk on its way.
abbrev four_chunks : ChunkTracker
four_chunks = new_tracker 61 200000

is_received-mark_received_example :
    is_received (mark_received four_chunks 2) 2
    ≡ (is_received four_chunks 2 || (fits four_chunks 2 && (2 == 2)))
is_received-mark_received_example = is_received-mark_received four_chunks 2 2

next_missing-IsAnswer_example : IsAnswer four_chunks 1 (next_missing four_chunks 1)
unfolding num_chunks new_tracker
next_missing-IsAnswer_example = next_missing-IsAnswer four_chunks 1 (omega arith)

abbrev swarm : SwarmSync
swarm = record {
  info = record {
    hash = 61;
    size = 200000;
    bao_root = none;
    status = downloading;
    received_mask = none;
    decryption_key = none;
  };
  tracker = four_chunks;
  seeders = 3 ∷ 4 ∷ [];
  active_fetches = (0, 3, 0) ∷ [];
}

next_requests-IsRight_example : IsRight swarm 2 5 (next_requests swarm 2 5)
unfolding in_flight
next_requests-IsRight_example =
    next_requests-IsRight swarm 2 5
      (λ p. elim (Bool-cases (3 == p)) [ inl e ↦ rw e (omega arith) | inr e ↦ rw e (omega arith) ])

-- Two missing nodes with room for one.
abbrev two_missing : SessionCommon
two_missing = record {
  missing_admin_nodes = 41 ∷ [];
  missing_nodes_hot = 42 ∷ [];
  missing_nodes_cold = [];
  in_flight_fetches = λ h. h == 43;
}

next_fetch_batch-IsBatch_example : IsBatch two_missing 1 (next_fetch_batch 1 two_missing 1)
next_fetch_batch-IsBatch_example = next_fetch_batch-IsBatch 1 two_missing 1
