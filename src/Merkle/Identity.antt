-- ===== src/Merkle/Identity.antt =====
-- merkle-tox-core/src/identity.rs: `IdentityManager`, which device acts for which identity in a
-- conversation. A `HashMap` that the code iterates is the list of its entries in the order in which
-- it does, which no theorem fixes. Permissions are the bits of a number.
pub mod Trust
pub mod Authorize
use rs_toxcore_c.Prelude.{
  ℕ, ◌+◌, ◌-◌, ◌^◌, Bool, true, false, not, ◌&&◌, ◌||◌, Option, none, some, List, [], ◌∷◌, ◌++◌,
  ◌==◌, ltb, leb, if◌then◌else◌, bit_and, is_some,
}

-- dag.rs
abbrev pub admin : ℕ
admin = 1

abbrev pub all_permissions : ℕ
all_permissions = 7

-- `Permissions::contains`
abbrev pub contains_all : ℕ → ℕ → Bool
contains_all permissions others = bit_and permissions others == others

pub record DelegationCertificate : Type 0 where
  pub version : ℕ
  pub conversation_id : ℕ
  pub device_pk : ℕ
  pub permissions : ℕ
  pub expires_at : ℕ
  pub signature : ℕ

pub data IdentityError : Type 0 where
  invalid_signature : IdentityError
  expired : ℕ → ℕ → IdentityError
  no_trust_path : IdentityError
  chain_too_deep : IdentityError
  permission_escalation : IdentityError
  too_many_devices : ℕ → IdentityError
  too_many_group_devices : ℕ → IdentityError
  conversation_id_mismatch : IdentityError

pub record AuthRecord : Type 0 where
  pub logical_pk : ℕ
  pub issuer_pk : ℕ
  pub permissions : ℕ
  pub expires_at : ℕ
  pub auth_rank : ℕ
  pub auth_hash : ℕ

pub record RevocationRecord : Type 0 where
  pub rank : ℕ
  pub revoker_seniority : ℕ × ℕ
  pub revocation_hash : ℕ

pub record CausalContext : Type 0 where
  pub evaluating_node_hash : ℕ
  pub admin_ancestor_hashes : ℕ → Bool

unfoldable pub global : CausalContext
global = record { evaluating_node_hash = 0; admin_ancestor_hashes = λ h. h == 0 }

-- The entries of a map with the keys (conversation, device).
abbrev pub Entries : Type 0 → Type 0
Entries V = List (ℕ × ℕ × V)

-- `HashMap::get`
unfoldable pub lookup : {V : Type 0} → Entries V → ℕ → ℕ → Option V
lookup [] conversation_id pk = none
lookup ((cid, device, v) ∷ es) conversation_id pk =
    let rest = lookup es conversation_id pk in
    if (cid == conversation_id) && (device == pk) then some v else rest

-- `entry(key).or_default()`, with what the caller does to the list.
unfoldable pub change_entry :
    {V : Type 0} → Entries (List V) → ℕ → ℕ → (List V → List V) → Entries (List V)
change_entry [] conversation_id pk f = (conversation_id, pk, f []) ∷ []
change_entry ((cid, device, v) ∷ es) conversation_id pk f =
    let rest = change_entry es conversation_id pk f in
    if (cid == conversation_id) && (device == pk)
    then (cid, device, f v) ∷ es
    else (cid, device, v) ∷ rest

-- `.iter().any(..)`
unfoldable pub any : {A : Type 0} → (A → Bool) → List A → Bool
any p [] = false
any p (x ∷ xs) = p x || any p xs

pub record IdentityManager : Type 0 where
  pub authorized_devices : Entries (List AuthRecord)
  pub logical_members : Entries (ℕ × ℕ)
  pub revoked_devices : Entries (List RevocationRecord)

unfoldable pub new : IdentityManager
new = record { authorized_devices = []; logical_members = []; revoked_devices = [] }

-- The first device of the conversation with a record of that hash.
unfoldable pub find_owner : Entries (List AuthRecord) → ℕ → ℕ → Option ℕ
unfolding any
find_owner [] conversation_id auth_hash = none
find_owner ((cid, pk, records) ∷ es) conversation_id auth_hash =
    let rest = find_owner es conversation_id auth_hash in
    if (cid == conversation_id) && any (λ r. r.auth_hash == auth_hash) records
    then some pk
    else rest

unfoldable pub revoked_by : Option (List RevocationRecord) → ℕ → Bool
unfolding any
revoked_by none auth_hash = false
revoked_by (some revs) auth_hash = any (λ r. r.revoker_seniority.1 == auth_hash) revs

unfoldable pub is_mutual_revocation : IdentityManager → ℕ → ℕ → ℕ → Bool
unfolding find_owner revoked_by
is_mutual_revocation m conversation_id revoker_auth_hash target_auth_hash =
    if (revoker_auth_hash == 0) || (target_auth_hash == 0)
    then false
    else elim (find_owner m.authorized_devices conversation_id revoker_auth_hash) [
      | none ↦ false
      | some rk ↦ revoked_by (lookup m.revoked_devices conversation_id rk) target_auth_hash
    ]

-- `(u64, NodeHash)` compared.
abbrev pub seniority_lt : ℕ × ℕ → ℕ × ℕ → Bool
seniority_lt (r, h) (r', h') = ltb r r' || ((r == r') && ltb h h')

abbrev pub seniority_le : ℕ × ℕ → ℕ × ℕ → Bool
seniority_le (r, h) (r', h') = ltb r r' || ((r == r') && leb h h')

-- The oldest record that granted ADMIN.
unfoldable pub oldest_admin : ℕ → ℕ → ℕ → List AuthRecord → ℕ × ℕ → ℕ × ℕ
oldest_admin logical_pk now_ms rank [] seniority = seniority
oldest_admin logical_pk now_ms rank (r ∷ records) seniority =
    oldest_admin logical_pk now_ms rank records (
      if (r.logical_pk == logical_pk)
        && ltb now_ms r.expires_at
        && leb r.auth_rank rank
        && contains_all r.permissions admin
        && seniority_lt (r.auth_rank, r.auth_hash) seniority
      then (r.auth_rank, r.auth_hash)
      else seniority)

unfoldable pub revoker_seniority_of : IdentityManager → ℕ → ℕ → ℕ → ℕ → ℕ → ℕ × ℕ
unfolding oldest_admin
revoker_seniority_of m conversation_id revoker_pk revoker_logical_pk rank now_ms =
    if revoker_pk == revoker_logical_pk
    then (0, 0)
    else elim (lookup m.authorized_devices conversation_id revoker_pk) [
      | none ↦ (2 ^ 64 - 1, 2 ^ 256 - 1)
      | some records ↦ oldest_admin revoker_logical_pk now_ms rank records (2 ^ 64 - 1, 2 ^ 256 - 1)
    ]

unfoldable pub revoke_device : IdentityManager → ℕ → ℕ → ℕ → ℕ → ℕ → ℕ → ℕ → IdentityManager
unfolding revoker_seniority_of
revoke_device m conversation_id revoker_pk revoker_logical_pk target_device_pk rank now_ms
      revocation_hash =
    record m {
      revoked_devices = change_entry m.revoked_devices conversation_id target_device_pk (λ revs.
          revs
          ++ record {
            rank = rank;
            revoker_seniority =
                revoker_seniority_of m conversation_id revoker_pk revoker_logical_pk rank now_ms;
            revocation_hash = revocation_hash;
          }
            ∷ []);
    }

unfoldable pub insert_member : Entries (ℕ × ℕ) → ℕ → ℕ → ℕ × ℕ → Entries (ℕ × ℕ)
insert_member [] conversation_id logical_pk v = (conversation_id, logical_pk, v) ∷ []
insert_member ((cid, pk, w) ∷ es) conversation_id logical_pk v =
    let rest = insert_member es conversation_id logical_pk v in
    if (cid == conversation_id) && (pk == logical_pk)
    then (cid, pk, v) ∷ es
    else (cid, pk, w) ∷ rest

unfoldable pub add_member : IdentityManager → ℕ → ℕ → ℕ → ℕ → IdentityManager
unfolding insert_member
add_member m conversation_id logical_pk role joined_at = record m {
  logical_members = insert_member m.logical_members conversation_id logical_pk (role, joined_at);
}

unfoldable pub without_member : Entries (ℕ × ℕ) → ℕ → ℕ → Entries (ℕ × ℕ)
without_member [] conversation_id logical_pk = []
without_member ((cid, pk, w) ∷ es) conversation_id logical_pk =
    let rest = without_member es conversation_id logical_pk in
    if (cid == conversation_id) && (pk == logical_pk) then rest else (cid, pk, w) ∷ rest

-- The devices of the conversation with a record for the identity.
unfoldable pub devices_of : Entries (List AuthRecord) → ℕ → ℕ → List ℕ
unfolding any
devices_of [] conversation_id logical_pk = []
devices_of ((cid, pk, records) ∷ es) conversation_id logical_pk =
    let rest = devices_of es conversation_id logical_pk in
    if (cid == conversation_id) && any (λ r. r.logical_pk == logical_pk) records
    then pk ∷ rest
    else rest

unfoldable pub revoke_all : IdentityManager → ℕ → ℕ → ℕ → List ℕ → ℕ → ℕ → ℕ → IdentityManager
unfolding revoke_device
revoke_all m conversation_id revoker_pk revoker_logical_pk [] rank now_ms revocation_hash = m
revoke_all m conversation_id revoker_pk revoker_logical_pk (d ∷ ds) rank now_ms revocation_hash =
    revoke_all
      (revoke_device m conversation_id revoker_pk revoker_logical_pk d rank now_ms revocation_hash)
      conversation_id revoker_pk revoker_logical_pk ds rank now_ms revocation_hash

unfoldable pub remove_member : IdentityManager → ℕ → ℕ → ℕ → ℕ → ℕ → ℕ → ℕ → IdentityManager
unfolding without_member devices_of revoke_all
remove_member m conversation_id revoker_pk revoker_logical_pk logical_pk rank now_ms
      revocation_hash =
    revoke_all
      (record m { logical_members = without_member m.logical_members conversation_id logical_pk })
      conversation_id revoker_pk revoker_logical_pk
      (devices_of m.authorized_devices conversation_id logical_pk) rank now_ms revocation_hash

unfoldable pub get_founder : Entries (ℕ × ℕ) → ℕ → Option ℕ
get_founder [] conversation_id = none
get_founder ((cid, pk, (role, joined)) ∷ es) conversation_id =
    let rest = get_founder es conversation_id in
    if (cid == conversation_id) && (role == 0) then some pk else rest

unfoldable pub resolve_logical_pk : IdentityManager → ℕ → ℕ → Option ℕ
resolve_logical_pk m conversation_id device_pk =
    elim (lookup m.logical_members conversation_id device_pk) [
      | some v ↦ some device_pk
      | none ↦ elim (lookup m.authorized_devices conversation_id device_pk) [
        | some (r ∷ rs) ↦ some r.logical_pk
        | other ↦ none
      ]
    ]
