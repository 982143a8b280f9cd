-- ===== src/Merkle/Identity/Authorize.antt =====
-- merkle-tox-core/src/identity.rs: certificates, and `authorize_device`, which records one. The
-- signature check of ed25519 over the serialised fields is the parameter `signed`, of the key, the
-- fields and the signature.
pub mod Safety
pub mod Effect
use rs_toxcore_c.Prelude.{
  ℕ, zero, suc, ◌+◌, Bool, true, false, not, ◌&&◌, ◌||◌, Option, none, some, List, [], ◌∷◌, ◌++◌,
  ◌==◌, ltb, leb, if◌then◌else◌, min,
}
use rs_toxcore_c.Merkle.Identity.{
  admin, contains_all, DelegationCertificate, IdentityError, invalid_signature, expired,
  no_trust_path, chain_too_deep, permission_escalation, too_many_devices, too_many_group_devices,
  conversation_id_mismatch, AuthRecord, CausalContext, Entries, lookup, change_entry, any,
  IdentityManager,
}
use rs_toxcore_c.Merkle.Identity.Trust.{max_auth_depth, get_permissions_recursive}

pub record DelegationSignData : Type 0 where
  pub version : ℕ
  pub conversation_id : ℕ
  pub device_pk : ℕ
  pub permissions : ℕ
  pub expires_at : ℕ

abbrev pub max_devices_per_identity : ℕ
max_devices_per_identity = 32

abbrev pub max_group_devices : ℕ
max_group_devices = 4096

-- What an operation with an error leaves behind.
pub data Outcome (A : Type 0) : Type 0 where
  done : A → Outcome A
  failed : IdentityError → Outcome A

-- A loop that counts.
unfoldable pub count : {A : Type 0} → (A → Bool) → List A → ℕ
count p [] = 0
count p (x ∷ xs) = let rest = count p xs in if p x then suc rest else rest

-- `AuthRecord: PartialEq`
unfoldable pub same_record : AuthRecord → AuthRecord → Bool
same_record r s =
    (r.logical_pk == s.logical_pk)
    && (r.issuer_pk == s.issuer_pk)
    && (r.permissions == s.permissions)
    && (r.expires_at == s.expires_at)
    && (r.auth_rank == s.auth_rank)
    && (r.auth_hash == s.auth_hash)

-- `if !records.contains(&record) { records.push(record) }`
unfoldable pub add_record : AuthRecord → List AuthRecord → List AuthRecord
unfolding any same_record
add_record r records = if any (same_record r) records then records else records ++ r ∷ []

module _ (signed : ℕ → DelegationSignData → ℕ → Bool) where
  unfoldable pub verify_delegation : DelegationCertificate → ℕ → ℕ → Outcome Unit
  verify_delegation cert issuer_pk now_ms =
      if ltb cert.expires_at now_ms
      then failed (expired cert.expires_at now_ms)
      else if signed issuer_pk
          (record {
            version = cert.version;
            conversation_id = cert.conversation_id;
            device_pk = cert.device_pk;
            permissions = cert.permissions;
            expires_at = cert.expires_at;
          })
          cert.signature
      then done tt
      else failed invalid_signature

  -- `.is_ok()`
  unfoldable pub is_valid : DelegationCertificate → ℕ → ℕ → Bool
  unfolding verify_delegation
  is_valid cert issuer_pk now_ms = elim (verify_delegation cert issuer_pk now_ms) [
    | done _ ↦ true
    | failed _ ↦ false
  ]

  module _ (m : IdentityManager) (conversation_id logical_pk rank : ℕ) where
    unfoldable pub shortest : (ℕ → Option ℕ) → List AuthRecord → Option ℕ → Option ℕ
    shortest depth_of [] min_depth = min_depth
    shortest depth_of (r ∷ records) min_depth = shortest depth_of records (
        if (r.logical_pk == logical_pk) && leb r.auth_rank rank
        then elim (depth_of r.issuer_pk) [
          | none ↦ min_depth
          | some d ↦ elim min_depth [ none ↦ some (d + 1) | some best ↦ some (min best (d + 1)) ]
        ]
        else min_depth)

    -- `fuel` is what `depth` has left up to MAX_AUTH_DEPTH.
    unfoldable pub get_auth_depth_recursive : ℕ → ℕ → Option ℕ
    unfolding shortest
    get_auth_depth_recursive zero device_pk = none
    get_auth_depth_recursive (suc fuel) device_pk =
        if device_pk == logical_pk
        then some 0
        else elim (lookup m.authorized_devices conversation_id device_pk) [
          | none ↦ none
          | some records ↦ shortest (get_auth_depth_recursive fuel) records none
        ]

    -- `get_auth_depth(..).unwrap_or(0)`
    unfoldable pub get_auth_depth : ℕ → ℕ
    unfolding get_auth_depth_recursive
    get_auth_depth device_pk = elim (get_auth_depth_recursive (suc max_auth_depth) device_pk) [
      | none ↦ 0
      | some d ↦ d
    ]

    unfoldable pub device_count : ℕ
    unfolding count any
    device_count =
        count (λ e. (e.0 == conversation_id) && any (λ r. r.logical_pk == logical_pk) e.2)
          m.authorized_devices

    unfoldable pub total_devices : ℕ
    unfolding count
    total_devices = count (λ e. e.0 == conversation_id) m.authorized_devices

  module _ (m : IdentityManager) (ctx : CausalContext) (conversation_id logical_pk : ℕ)
      (cert : DelegationCertificate) (now_ms rank : ℕ) where
    -- The search among the records of a device, and what the device may do.
    unfoldable pub issuer_among : ℕ → List AuthRecord → Option (ℕ × ℕ)
    unfolding is_valid
    issuer_among dev_pk [] = none
    issuer_among dev_pk (r ∷ records) =
        let rest = issuer_among dev_pk records in
        if (r.logical_pk == logical_pk)
          && ltb now_ms r.expires_at
          && leb r.auth_rank rank
          && contains_all r.permissions admin
          && is_valid cert dev_pk now_ms
        then elim (get_permissions_recursive m ctx conversation_id logical_pk now_ms rank
            (suc max_auth_depth) dev_pk) [
              | none ↦ rest
              | some effective ↦
                  if contains_all effective admin then some (dev_pk, effective) else rest
            ]
        else rest

    unfoldable pub find_issuer : Entries (List AuthRecord) → Option (ℕ × ℕ)
    unfolding issuer_among
    find_issuer [] = none
    find_issuer ((cid, dev_pk, records) ∷ es) =
        let rest = find_issuer es in
        if cid == conversation_id
        then elim (issuer_among dev_pk records) [ none ↦ rest | some i ↦ some i ]
        else rest

    -- The push of the record.
    unfoldable pub record_certificate : ℕ → ℕ → IdentityManager
    unfolding add_record
    record_certificate issuer_pk auth_hash = record m {
      authorized_devices = change_entry m.authorized_devices conversation_id cert.device_pk (
          add_record (record {
            logical_pk = logical_pk;
            issuer_pk = issuer_pk;
            permissions = cert.permissions;
            expires_at = cert.expires_at;
            auth_rank = rank;
            auth_hash = auth_hash;
          }));
    }

    -- The checks that follow a found issuer, and the record.
    unfoldable pub delegate : ℕ → ℕ → ℕ → Outcome IdentityManager
    unfolding get_auth_depth device_count total_devices record_certificate
    delegate issuer issuer_perms auth_hash =
        if not (contains_all issuer_perms cert.permissions)
        then failed permission_escalation
        else if ltb max_auth_depth (get_auth_depth m conversation_id logical_pk rank issuer + 1)
        then failed chain_too_deep
        else if leb max_devices_per_identity (device_count m conversation_id logical_pk rank)
        then failed (too_many_devices max_devices_per_identity)
        else if leb max_group_devices (total_devices m conversation_id logical_pk rank)
        then failed (too_many_group_devices max_group_devices)
        else done (record_certificate issuer auth_hash)

    unfoldable pub authorize_device : ℕ → Outcome IdentityManager
    unfolding is_valid find_issuer delegate record_certificate
    authorize_device auth_hash =
        if not (cert.conversation_id == conversation_id)
        then failed conversation_id_mismatch
        else if is_valid cert logical_pk now_ms
        then done (record_certificate logical_pk auth_hash)
        else elim (find_issuer m.authorized_devices) [
          | none ↦ failed no_trust_path
          | some (issuer, issuer_perms) ↦ delegate issuer issuer_perms auth_hash
        ]
