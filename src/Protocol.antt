-- ===== src/Protocol.antt =====
-- tox-sequenced/src/protocol.rs and error.rs: the numbers, enumerations and packets of the
-- transport. `MessageId` is a `u32`, `FragmentIndex` and `FragmentCount` are `u16`; each is the
-- number in it. The constructor `Data` of `Packet` is `fragment` here.
use rs_toxcore_c.Prelude.{ℕ, ◌+◌, ◌-◌, ◌*◌, ◌/◌, ◌%◌, ◌^◌, List}

abbrev pub u16_mod : ℕ
u16_mod = 2 ^ 16

abbrev pub u32_mod : ℕ
u32_mod = 2 ^ 32

-- Arithmetic on `usize`, which wraps in a release build.
abbrev pub usize_add : ℕ → ℕ → ℕ
usize_add a b = (a + b) % 2 ^ 64

abbrev pub usize_mul : ℕ → ℕ → ℕ
usize_mul a b = a * b % 2 ^ 64

-- Subtraction on `usize`, which wraps in a release build.
abbrev pub usize_sub : ℕ → ℕ → ℕ
usize_sub a b = (a + 2 ^ 64 - b) % 2 ^ 64

-- `MessageId::wrapping_add`
unfoldable pub message_id_add : ℕ → ℕ → ℕ
message_id_add id val = (id + val) % u32_mod

-- `MessageId::wrapping_sub`
unfoldable pub message_id_sub : ℕ → ℕ → ℕ
message_id_sub id other = (id + u32_mod - other) % u32_mod

-- `FragmentIndex::wrapping_add`
unfoldable pub fragment_index_add : ℕ → ℕ → ℕ
fragment_index_add index val = (index + val) % u16_mod

pub data Priority : Type 0 where
  critical high standard low bulk : Priority

-- The discriminants of `Priority`, which are the levels of the scheduler.
unfoldable pub level : Priority → ℕ
level Priority.critical = 0
level Priority.high = 1
level Priority.standard = 2
level Priority.low = 3
level Priority.bulk = 4

pub data MessageType : Type 0 where
  caps_announce caps_ack sync_heads fetch_batch_req merkle_node blob_query blob_avail : MessageType
  blob_req blob_data sync_sketch sync_recon_fail sync_shard_checksums : MessageType
  handshake_error sync_rate_limited keywrap_ack reinclusion_request : MessageType
  reinclusion_response recon_pow_challenge recon_pow_solution admin_gossip : MessageType

unfoldable pub priority : MessageType → Priority
priority MessageType.caps_announce = Priority.critical
priority MessageType.caps_ack = Priority.critical
priority MessageType.merkle_node = Priority.standard
priority MessageType.blob_query = Priority.low
priority MessageType.blob_avail = Priority.low
priority MessageType.blob_req = Priority.low
priority MessageType.blob_data = Priority.bulk
priority other = Priority.high

pub record SelectiveAck : Type 0 where
  pub message_id : ℕ
  pub base_index : ℕ
  pub bitmask : ℕ
  pub rwnd : ℕ

pub record Nack : Type 0 where
  pub message_id : ℕ
  pub missing_indices : List ℕ

-- A timestamp is an `i64`, as its residue below 2 ^ 64.
pub data Packet : Type 0 where
  fragment : (message_id fragment_index total_fragments : ℕ) (bytes : List ℕ) → Packet
  ack : SelectiveAck → Packet
  nack : Nack → Packet
  ping : (t1 : ℕ) → Packet
  pong : (t1 t2 t3 : ℕ) → Packet
  datagram : (message_type : MessageType) (bytes : List ℕ) → Packet

abbrev pub estimated_payload_size : ℕ
estimated_payload_size = 1300

abbrev pub max_message_size : ℕ
max_message_size = 1024 * 1024

abbrev pub max_fragments_per_message : ℕ
max_fragments_per_message = 1024

-- `MIN_TRANSPORT_SLOTS` of tox-proto, both ways.
abbrev pub max_concurrent_outgoing : ℕ
max_concurrent_outgoing = 32

abbrev pub max_concurrent_incoming : ℕ
max_concurrent_incoming = 32

abbrev pub max_completed_incoming : ℕ
max_completed_incoming = 1024

abbrev pub max_datagram_queue : ℕ
max_datagram_queue = 128

abbrev pub max_tox_packet_size : ℕ
max_tox_packet_size = 1373

abbrev pub packet_overhead : ℕ
packet_overhead = 20

abbrev pub max_total_reassembly_buffer : ℕ
max_total_reassembly_buffer = 8 * 32 * 64 * 1024

-- `MAX_FRAGMENTS_PER_MESSAGE.div_ceil(64)`
abbrev pub bitset_words : ℕ
bitset_words = (max_fragments_per_message + 64 - 1) / 64

-- The text of `SerializationError` is left out.
pub data SequencedError : Type 0 where
  message_too_large serialization_error queue_full : SequencedError
  invalid_fragment_index invalid_mtu invalid_total_fragments : SequencedError

pub data Result {ℓ} (A : Type ℓ) : Type ℓ where
  ok : A → Result A
  err : SequencedError → Result A
