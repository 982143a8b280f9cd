-- ===== src/Merkle/Identity/Trust.antt =====
-- merkle-tox-core/src/identity.rs: the search for a path of certificates from a device up to the
-- identity, `is_authorized_recursive` and `get_permissions_recursive`. Both walk the same paths; one
-- takes the earliest expiry of a path and the latest of all paths, the other intersects permissions
-- along a path and unites those of all paths. `fuel` is what `depth` has left up to MAX_AUTH_DEPTH.
pub mod Chains
pub mod Revoked
use rs_toxcore_c.Prelude.{
  ℕ, zero, suc, ◌^◌, ◌-◌, min, max, bit_and, bit_or, Bool, true, false, not, ◌&&◌, ◌||◌, Option,
  none, some, List, [], ◌∷◌, ◌==◌, ltb, leb, if◌then◌else◌,
}
use rs_toxcore_c.Merkle.Identity.{
  AuthRecord, RevocationRecord, CausalContext, IdentityManager, lookup, any, is_mutual_revocation,
  seniority_le, all_permissions, admin, contains_all,
}

abbrev pub max_auth_depth : ℕ
max_auth_depth = 16

abbrev pub i64_max : ℕ
i64_max = 2 ^ 63 - 1

module _ (m : IdentityManager) (ctx : CausalContext)
    (conversation_id logical_pk now_ms rank : ℕ) where
  -- A revocation that counts against a record.
  unfoldable pub revokes : AuthRecord → RevocationRecord → Bool
  unfolding is_mutual_revocation
  revokes r rev =
      let in_history =
        (rev.revocation_hash == 0)
        || (ctx.evaluating_node_hash == 0)
        || ctx.admin_ancestor_hashes rev.revocation_hash in
      let is_mad = is_mutual_revocation m conversation_id rev.revoker_seniority.1 r.auth_hash in
      let can_revoke =
        if is_mad
        then seniority_le rev.revoker_seniority (r.auth_rank, r.auth_hash)
        else leb rev.revoker_seniority.0 r.auth_rank in
      in_history && leb rev.rank rank && can_revoke

  -- A record is for the identity, in force, in the history of the node, and not revoked.
  unfoldable pub is_usable : List RevocationRecord → AuthRecord → Bool
  unfolding revokes
  is_usable revs r =
      (r.logical_pk == logical_pk)
      && ltb now_ms r.expires_at
      && leb r.auth_rank rank
      && ((ctx.evaluating_node_hash == 0)
          || (r.auth_hash == 0)
          || ctx.admin_ancestor_hashes r.auth_hash)
      && not (any (revokes r) revs)

  unfoldable pub revocations : ℕ → List RevocationRecord
  revocations device_pk = elim (lookup m.revoked_devices conversation_id device_pk) [
    | none ↦ []
    | some revs ↦ revs
  ]

  module _ {A : Type 0} (top : A) (of_record : AuthRecord → A) (meet join : A → A → A) where
    -- `map_or`
    unfoldable pub united : Option A → A → A
    united none a = a
    united (some b) a = join b a

    -- What the path over a record is worth, given what its issuer is.
    unfoldable pub along : List RevocationRecord → (ℕ → Option A) → AuthRecord → Option A
    along revs issuer r =
        if not (is_usable revs r)
        then none
        else if r.issuer_pk == logical_pk
        then some (of_record r)
        else elim (issuer r.issuer_pk) [ none ↦ none | some i ↦ some (meet (of_record r) i) ]

    -- The loop over the records of a device.
    unfoldable pub over :
        List RevocationRecord → (ℕ → Option A) → List AuthRecord → Option A → Option A
    unfolding along united
    over revs issuer [] best = best
    over revs issuer (r ∷ records) best =
        over revs issuer records
          (elim (along revs issuer r) [ none ↦ best | some a ↦ some (united best a) ])

    unfoldable pub walk : ℕ → ℕ → Option A
    unfolding over revocations
    walk zero device_pk = none
    walk (suc fuel) device_pk =
        if device_pk == logical_pk
        then some top
        else elim (lookup m.authorized_devices conversation_id device_pk) [
          | none ↦ none
          | some records ↦ over (revocations device_pk) (walk fuel) records none
        ]

  unfoldable pub is_authorized_recursive : ℕ → ℕ → Option ℕ
  unfolding walk
  is_authorized_recursive = walk i64_max (λ r. r.expires_at) min max

  unfoldable pub get_permissions_recursive : ℕ → ℕ → Option ℕ
  unfolding walk
  get_permissions_recursive = walk all_permissions (λ r. r.permissions) bit_and bit_or

  unfoldable pub get_permissions : ℕ → Option ℕ
  unfolding get_permissions_recursive
  get_permissions device_pk = get_permissions_recursive (suc max_auth_depth) device_pk

  unfoldable pub is_admin : ℕ → Bool
  unfolding get_permissions
  is_admin device_pk = elim (get_permissions device_pk) [
    | none ↦ false
    | some p ↦ contains_all p admin
  ]
