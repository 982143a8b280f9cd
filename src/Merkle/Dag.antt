-- ===== src/Merkle/Dag.antt =====
-- merkle-tox-core/src/dag.rs: nodes, and the rules that a node has to keep. A floating-point number
-- is its bits. The serialisation, the hash of a node, blake3 and the check of a signature of ed25519
-- are parameters.
pub mod Validation
pub mod Padding
pub mod Store
use Prim.Native.String.{String}
use rs_toxcore_c.Prelude.{ℕ, Bool, true, false, ◌||◌, Option, none, some, List, [], ◌∷◌}
use rs_toxcore_c.Merkle.Identity.{DelegationCertificate}

pub data NodeAuth : Type 0 where
  ephemeral_signature : ℕ → NodeAuth
  signature : ℕ → NodeAuth

pub data EmojiSource : Type 0 where
  unicode : String → EmojiSource
  custom_emoji : ℕ → String → EmojiSource

pub record MemberInfo : Type 0 where
  pub public_key : ℕ
  pub role : ℕ
  pub joined_at : ℕ

pub record InviteAction : Type 0 where
  pub invitee_pk : ℕ
  pub role : ℕ

pub record SignedPreKey : Type 0 where
  pub public_key : ℕ
  pub signature : ℕ
  pub expires_at : ℕ

pub record WrappedKey : Type 0 where
  pub recipient_pk : ℕ
  pub opk_id : ℕ
  pub ciphertext : List ℕ

pub record SnapshotData : Type 0 where
  pub basis_hash : ℕ
  pub members : List MemberInfo
  pub last_seq_numbers : List (ℕ × ℕ)

pub data ControlAction : Type 0 where
  genesis : (title : String) (creator_pk permissions flags created_at pow_nonce : ℕ) → ControlAction
  set_title : String → ControlAction
  set_topic : String → ControlAction
  invite : InviteAction → ControlAction
  leave : ℕ → ControlAction
  authorize_device : (cert : DelegationCertificate) → ControlAction
  revoke_device : (target_device_pk : ℕ) (reason : String) → ControlAction
  announcement : (pre_keys : List SignedPreKey) (last_resort_key : SignedPreKey) → ControlAction
  handshake_pulse : ControlAction
  snapshot : SnapshotData → ControlAction
  anchor_snapshot : (data' : SnapshotData) (cert : DelegationCertificate) → ControlAction
  soft_anchor : (basis_hash : ℕ) (cert : DelegationCertificate) → ControlAction

pub data Content : Type 0 where
  custom : (tag_id : ℕ) (bytes : List ℕ) → Content
  key_wrap : (generation anchor_hash ephemeral_pk : ℕ) (wrapped_keys : List WrappedKey) → Content
  sender_key_distribution :
      (ephemeral_pk : ℕ) (wrapped_keys : List WrappedKey) (ephemeral_signing_pk : ℕ)
      (disclosed_keys : List ℕ)
      → Content
  history_export :
      (blob_hash blob_size : ℕ) (bao_root : Option ℕ) (ephemeral_pk : ℕ)
      (wrapped_keys : List WrappedKey)
      → Content
  control : ControlAction → Content
  text : String → Content
  blob : (hash : ℕ) (name mime_type : String) (size : ℕ) (metadata : List ℕ) → Content
  location : (latitude longitude : ℕ) (title : Option String) → Content
  edit : (target_hash : ℕ) (new_text : String) → Content
  reaction : (target_hash : ℕ) (emoji : EmojiSource) → Content
  redaction : (target_hash : ℕ) (reason : String) → Content
  legacy_bridge : (source_pk : ℕ) (message : String) (message_type dedup_id : ℕ) → Content
  unknown : (discriminant : ℕ) (bytes : List ℕ) → Content

pub data NodeType : Type 0 where
  admin_node : NodeType
  content_node : NodeType

pub record MerkleNode : Type 0 where
  pub parents : List ℕ
  pub author_pk : ℕ
  pub sender_pk : ℕ
  pub sequence_number : ℕ
  pub topological_rank : ℕ
  pub network_timestamp : ℕ
  pub content : Content
  pub metadata : List ℕ
  pub authentication : NodeAuth
  pub pow_nonce : ℕ

-- What validation asks about the nodes that are there.
pub record NodeLookup : Type 0 where
  pub get_node_type : ℕ → Option NodeType
  pub get_rank : ℕ → Option ℕ
  pub get_admin_distance : ℕ → Option ℕ
  pub get_soft_anchor_chain_length : ℕ → Option ℕ

unfoldable pub node_type : Content → NodeType
node_type (key_wrap _ _ _ _) = admin_node
node_type (control (genesis _ _ _ _ _ _)) = admin_node
node_type (control (authorize_device _)) = admin_node
node_type (control (revoke_device _ _)) = admin_node
node_type (control (snapshot _)) = admin_node
node_type (control (anchor_snapshot _ _)) = admin_node
node_type (control (soft_anchor _ _)) = admin_node
node_type other = content_node

-- `== NodeType::Admin`
unfoldable pub is_admin_type : NodeType → Bool
is_admin_type admin_node = true
is_admin_type content_node = false

-- `matches!(self.content, Content::Control(_))`
unfoldable pub is_control : Content → Bool
is_control (control _) = true
is_control other = false

unfoldable pub is_skd : Content → Bool
is_skd (sender_key_distribution _ _ _ _) = true
is_skd other = false

unfoldable pub is_genesis : Content → Bool
is_genesis (control (genesis _ _ _ _ _ _)) = true
is_genesis other = false

-- The basis of a soft anchor.
unfoldable pub basis_of : Content → Option ℕ
basis_of (control (soft_anchor basis_hash _)) = some basis_hash
basis_of other = none

unfoldable pub is_history_export : Content → Bool
is_history_export (history_export _ _ _ _ _) = true
is_history_export other = false

unfoldable pub is_exception_node : MerkleNode → Bool
unfolding node_type is_admin_type is_control is_skd
is_exception_node n =
    is_admin_type (node_type n.content) || (is_control n.content || is_skd n.content)

unfoldable pub skips_ratchet : MerkleNode → Bool
unfolding is_exception_node is_history_export
skips_ratchet n = is_exception_node n || is_history_export n.content
