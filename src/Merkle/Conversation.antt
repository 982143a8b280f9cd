-- ===== src/Merkle/Conversation.antt =====
-- merkle-tox-core/src/engine/conversation.rs: the key ratchets of a conversation, with the
-- derivations of merkle-tox-core/src/crypto.rs that they use. `derive_key` is the library blake3's;
-- its material is the list of the 32-byte values that the code copies into it.
pub mod Counted
pub mod Order
use Prim.Native.String.{String}
use rs_toxcore_c.Prelude.{
  ℕ, zero, suc, ◌+◌, ◌-◌, ◌*◌, ◌/◌, ◌%◌, ◌^◌, Bool, true, false, ◌&&◌, ◌||◌, Option, none, some,
  List, [], ◌∷◌, ◌==◌, ltb, leb, if◌then◌else◌,
}
use rs_toxcore_c.Merkle.{put, put_pair, remove_pair, keep_if}

pub record ConversationKeys : Type 0 where
  pub k_conv : ℕ
  pub k_enc : ℕ
  pub k_mac : ℕ

-- What is known of a sender: the last sequence number, the key of the chain after it, the node it
-- came with, and the epoch.
pub record Ratchet : Type 0 where
  pub last_seq : ℕ
  pub next_chain_key : ℕ
  pub last_node_hash : Option ℕ
  pub epoch_id : ℕ

pub record Pending : Type 0 where
  pub speculative_nodes : ℕ → Bool
  pub vouchers : ℕ → ℕ → Option ℕ
  pub genesis_flags : ℕ

pub record Established : Type 0 where
  pub epochs : ℕ → Option ConversationKeys
  pub sender_ratchets : ℕ → Option Ratchet
  pub skipped_keys : ℕ → ℕ → Option (ℕ × ℕ)
  pub current_epoch : ℕ
  pub message_count : ℕ
  pub last_rotation_time_ms : ℕ
  pub vouchers : ℕ → ℕ → Option ℕ
  pub sender_keys : ℕ → ℕ → Option ℕ
  pub shared_keys_sent_to : ℕ → Bool
  pub jit_headers : ℕ → ℕ → Option ℕ
  pub identity_pending : Bool
  pub genesis_flags : ℕ
  pub self_message_count : ℕ
  pub self_last_rekey_time_ms : ℕ

abbrev pub counter_mod : ℕ
counter_mod = 2 ^ 32

abbrev pub max_ratchet_skip : ℕ
max_ratchet_skip = 2000

module _ (derive_key : String → List ℕ → ℕ) where
  unfoldable pub ratchet_init_sender : ℕ → ℕ → ℕ
  ratchet_init_sender k_conv sender_pk =
      derive_key "merkle-tox v1 sender-seed" (k_conv ∷ sender_pk ∷ [])

  unfoldable pub ratchet_step : ℕ → ℕ
  ratchet_step chain_key = derive_key "merkle-tox v1 ratchet-step" (chain_key ∷ [])

  unfoldable pub ratchet_message_key : ℕ → ℕ
  ratchet_message_key chain_key = derive_key "merkle-tox v1 message-key" (chain_key ∷ [])

  unfoldable pub derive : ℕ → ConversationKeys
  derive k_conv = record {
    k_conv = k_conv;
    k_enc = derive_key "merkle-tox v1 enc" (k_conv ∷ []);
    k_mac = derive_key "merkle-tox v1 mac" (k_conv ∷ []);
  }

  unfoldable pub new_pending : Pending
  new_pending = record { speculative_nodes = λ _. false; vouchers = λ _ _. none; genesis_flags = 0 }

  unfoldable pub record_speculative : Pending → ℕ → Pending
  record_speculative s hash = record s {
    speculative_nodes = λ h. (hash == h) || s.speculative_nodes h;
  }

  unfoldable pub establish : Pending → ℕ → ℕ → ℕ → Established
  unfolding derive
  establish s initial_k_conv now_ms epoch = record {
    epochs = put (λ _. none) epoch (derive initial_k_conv);
    sender_ratchets = λ _. none;
    skipped_keys = λ _ _. none;
    current_epoch = epoch;
    message_count = 0;
    last_rotation_time_ms = now_ms;
    vouchers = s.vouchers;
    sender_keys = λ _ _. none;
    shared_keys_sent_to = λ _. false;
    jit_headers = λ _ _. none;
    identity_pending = false;
    genesis_flags = s.genesis_flags;
    self_message_count = 0;
    self_last_rekey_time_ms = now_ms;
  }

  -- `ConversationData::<Established>::new`
  unfoldable pub new_established : ℕ → ℕ → Established
  unfolding derive
  new_established initial_k_conv now_ms = record {
    epochs = put (λ _. none) 0 (derive initial_k_conv);
    sender_ratchets = λ _. none;
    skipped_keys = λ _ _. none;
    current_epoch = 0;
    message_count = 0;
    last_rotation_time_ms = now_ms;
    vouchers = λ _ _. none;
    sender_keys = λ _ _. none;
    shared_keys_sent_to = λ _. false;
    jit_headers = λ _ _. none;
    identity_pending = false;
    genesis_flags = 0;
    self_message_count = 0;
    self_last_rekey_time_ms = now_ms;
  }

  unfoldable pub rotate : Established → ℕ → ℕ → Established × ℕ
  unfolding derive
  rotate s new_k_conv now_ms =
      let epoch = s.current_epoch + 1 in
      (
        record s {
          current_epoch = epoch;
          epochs = put s.epochs epoch (derive new_k_conv);
          sender_ratchets = λ _. none;
          message_count = 0;
          last_rotation_time_ms = now_ms;
          shared_keys_sent_to = λ _. false;
          jit_headers = λ _ _. none;
          self_message_count = 0;
          self_last_rekey_time_ms = now_ms;
        },
        epoch,
      )

  unfoldable pub add_epoch : Established → ℕ → ℕ → Established
  unfolding derive
  add_epoch s epoch k_conv =
      let s' = record s { epochs = put s.epochs epoch (derive k_conv) } in
      if ltb s.current_epoch epoch
      then record s' { current_epoch = epoch; sender_ratchets = λ _. none; message_count = 0 }
      else s'

  -- `for s in (last_seq + 1)..seq`: the keys of the messages that are skipped are kept, and the chain
  -- is stepped past them.
  unfoldable pub skip : ℕ → ℕ → ℕ → ℕ → ℕ → (ℕ → ℕ → Option (ℕ × ℕ)) → (ℕ → ℕ → Option (ℕ × ℕ)) × ℕ
  skip zero pk seq now_ms chain_key skipped = (skipped, chain_key)
  skip (suc n) pk seq now_ms chain_key skipped =
      skip n pk (seq + 1) now_ms (ratchet_step chain_key)
        (put_pair skipped pk seq (ratchet_message_key chain_key, now_ms))

  -- The keys of the message that the chain stands at.
  unfoldable pub keys_at : ℕ → ℕ × ℕ
  keys_at chain_key = (ratchet_message_key chain_key, ratchet_step chain_key)

  -- A sender whose ratchet is in the epoch of the message.
  unfoldable pub peek_known : Established → ℕ → ℕ → ℕ → Ratchet → Established × Option (ℕ × ℕ)
  unfolding skip keys_at
  peek_known s sender_pk seq now_ms r =
      let (skipped, chain_key) =
        skip (seq - (r.last_seq + 1)) sender_pk (r.last_seq + 1) now_ms r.next_chain_key
          s.skipped_keys in
      if seq == r.last_seq + 1
      then (s, some (keys_at r.next_chain_key))
      else if leb seq r.last_seq
      then (
        s,
        elim (s.skipped_keys sender_pk seq) [ none ↦ none | some (k_msg, t) ↦ some (k_msg, 0) ],
      )
      else if ltb max_ratchet_skip (seq - (r.last_seq + 1))
      then (s, none)
      else (record s { skipped_keys = skipped }, some (keys_at chain_key))

  -- The key that a sender's chain of an epoch starts with.
  unfoldable pub start_key : (ℕ → Option ConversationKeys) → (ℕ → ℕ → Option ℕ) → ℕ → ℕ → Option ℕ
  unfolding ratchet_init_sender
  start_key epochs sender_keys sender_pk epoch = elim (epochs epoch) [
    | none ↦ none
    | some keys ↦ elim (sender_keys sender_pk epoch) [
      | some sender_key ↦ some sender_key
      | none ↦ some (ratchet_init_sender keys.k_conv sender_pk)
    ]
  ]

  -- A sender whose chain has not begun in the epoch of the message.
  unfoldable pub peek_fresh : Established → ℕ → ℕ → ℕ → Established × Option (ℕ × ℕ)
  unfolding skip keys_at start_key
  peek_fresh s sender_pk seq now_ms =
      elim (start_key s.epochs s.sender_keys sender_pk (seq / counter_mod)) [
        | none ↦ (s, none)
        | some start ↦
            let epoch = seq / counter_mod in
            let counter = seq % counter_mod in
            let (skipped, chain_key) =
              skip (counter - 1) sender_pk (epoch * counter_mod + 1) now_ms start s.skipped_keys in
            if ltb max_ratchet_skip counter
            then (s, none)
            else (record s { skipped_keys = skipped }, some (keys_at chain_key))
      ]

  -- `skipped_keys.retain(..)`: a key is kept for a day.
  unfoldable pub prune : Established → ℕ → Established
  prune s now_ms = record s {
    skipped_keys = λ i j. keep_if (λ e. leb (now_ms - e.1) 86400000) (s.skipped_keys i j);
  }

  -- The message key, and the key of the chain after it.
  unfoldable pub peek_keys : Established → ℕ → ℕ → ℕ → Established × Option (ℕ × ℕ)
  unfolding prune peek_known peek_fresh
  peek_keys s sender_pk seq now_ms =
      let s' = prune s now_ms in
      elim (s'.sender_ratchets sender_pk) [
        | none ↦ peek_fresh s' sender_pk seq now_ms
        | some r ↦
            if r.epoch_id == seq / counter_mod
            then peek_known s' sender_pk seq now_ms r
            else peek_fresh s' sender_pk seq now_ms
      ]

  unfoldable pub advance : Established → ℕ → Ratchet → Established
  advance s sender_pk r = record s { sender_ratchets = put s.sender_ratchets sender_pk r }

  unfoldable pub commit_node_key : Established → ℕ → ℕ → ℕ → ℕ → ℕ → Established × Option ℕ
  unfolding advance
  commit_node_key s sender_pk seq next_chain_key node_hash epoch_id =
      let s' = record s { skipped_keys = remove_pair s.skipped_keys sender_pk seq } in
      let to : Ratchet = record {
        last_seq = seq;
        next_chain_key = next_chain_key;
        last_node_hash = some node_hash;
        epoch_id = epoch_id;
      } in
      elim (s.sender_ratchets sender_pk) [
        | none ↦ (advance s' sender_pk to, none)
        | some r ↦
            if ltb epoch_id r.epoch_id || ((r.epoch_id == epoch_id) && leb seq r.last_seq)
            then (s', none)
            else (advance s' sender_pk to, r.last_node_hash)
      ]

  unfoldable pub track_sender_seq : Established → ℕ → ℕ → ℕ → Established
  unfolding advance
  track_sender_seq s sender_pk seq epoch_id = elim (s.sender_ratchets sender_pk) [
    | none ↦ s
    | some r ↦
        if ltb r.epoch_id epoch_id || ((epoch_id == r.epoch_id) && ltb r.last_seq seq)
        then advance s sender_pk (record r { last_seq = seq; epoch_id = epoch_id })
        else s
  ]

  unfoldable pub get_sender_last_seq : Established → ℕ → ℕ
  get_sender_last_seq s sender_pk = elim (s.sender_ratchets sender_pk) [
    | none ↦ 0
    | some r ↦ if r.epoch_id == s.current_epoch then r.last_seq else 0
  ]

  pub data Effect : Type 0 where
    write_ratchet_key : ℕ → ℕ → ℕ → Effect
    delete_ratchet_key : ℕ → Effect

  unfoldable pub delete_previous : Option ℕ → List Effect
  delete_previous none = []
  delete_previous (some prev) = delete_ratchet_key prev ∷ []

  -- What a content node that uses the ratchet does to it.
  unfoldable pub advance_ratchet : Established → ℕ → ℕ → ℕ → ℕ → Established × List Effect
  unfolding peek_keys commit_node_key delete_previous
  advance_ratchet s sender_pk seq node_hash now =
      let (peeked, keys) = peek_keys s sender_pk seq now in
      elim keys [
        | none ↦ (peeked, [])
        | some (k_msg, k_next) ↦
            let epoch = seq / counter_mod in
            let (committed, prev_hash) =
              commit_node_key peeked sender_pk seq k_next node_hash epoch in
            (committed, write_ratchet_key node_hash k_next epoch ∷ delete_previous prev_hash)
      ]

  -- What a node does to the ratchet of its sender: one that `skips_ratchet` is only counted.
  unfoldable pub count_node : Established → Bool → ℕ → ℕ → ℕ → ℕ → Established × List Effect
  unfolding track_sender_seq advance_ratchet
  count_node s skips_ratchet sender_pk seq node_hash now =
      if skips_ratchet
      then (track_sender_seq s sender_pk seq (seq / counter_mod), [])
      else advance_ratchet s sender_pk seq node_hash now
