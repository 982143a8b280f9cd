-- ===== src/Merkle/Identity/Authorize/Effect.antt =====
-- What a certificate that the identity has signed does, in merkle-tox-core/src/identity.rs.
use rs_toxcore_c.Word.{test_bit}
use rs_toxcore_c.Merkle.{IsIn}
use rs_toxcore_c.Prelude.{
  ℕ, suc, ◌<◌, ◌≡◌, refl, subst, arith, Bool, true, none, some, List, [], ◌∷◌, ◌++◌, ◌==◌, inl, inr,
  Bool-cases,
}
use rs_toxcore_c.Merkle.Identity.{
  AuthRecord, CausalContext, IdentityManager, DelegationCertificate, lookup, any,
}
use rs_toxcore_c.Merkle.Identity.Trust.{
  max_auth_depth, is_usable, revocations, get_permissions_recursive,
}
use rs_toxcore_c.Merkle.Identity.Trust.Chains.{any→IsIn, direct, get_permissions_recursive_iff}
use rs_toxcore_c.Merkle.Identity.Trust.Revoked.{held, lookup-change_entry, in_history}
use rs_toxcore_c.Merkle.Identity.Authorize.{
  DelegationSignData, done, is_valid, same_record, add_record, record_certificate, authorize_device,
}

same_record-IsSame : (r s : AuthRecord) → same_record r s ≡ true → s ≡ r
unfolding same_record
same_record-IsSame r s h =
    let a : r.logical_pk ≡ s.logical_pk = ground (arith, h) in
    let b : r.issuer_pk ≡ s.issuer_pk = ground (arith, h) in
    let c : r.permissions ≡ s.permissions = ground (arith, h) in
    let d : r.expires_at ≡ s.expires_at = ground (arith, h) in
    let e : r.auth_rank ≡ s.auth_rank = ground (arith, h) in
    let f : r.auth_hash ≡ s.auth_hash = ground (arith, h) in cc

IsIn-append : {A : Type 0} (xs : List A) (x : A) → IsIn x (xs ++ x ∷ [])
IsIn-append [] x = inl refl
IsIn-append (y ∷ ys) x = inr (IsIn-append ys x)

IsIn-add_record : (r : AuthRecord) (records : List AuthRecord) → IsIn r (add_record r records)
unfolding add_record
IsIn-add_record r records = elim (Bool-cases (any (same_record r) records)) [
  | inr e ↦ rw e (IsIn-append records r)
  | inl e ↦
      let (s, i, p) = any→IsIn (same_record r) records e in
      rw e (subst (λ x. IsIn x records) (same_record-IsSame r s p) i)
]

module _ (signed : ℕ → DelegationSignData → ℕ → Bool) (m : IdentityManager) (ctx : CausalContext)
    (conversation_id logical_pk : ℕ) (cert : DelegationCertificate)
    (now_ms rank auth_hash : ℕ) where
  abbrev recorded : IdentityManager
  recorded =
      record_certificate signed m ctx conversation_id logical_pk cert now_ms rank logical_pk
        auth_hash

  abbrev of_certificate : AuthRecord
  of_certificate = record {
    logical_pk = logical_pk;
    issuer_pk = logical_pk;
    permissions = cert.permissions;
    expires_at = cert.expires_at;
    auth_rank = rank;
    auth_hash = auth_hash;
  }

  lookup-recorded :
      lookup recorded.authorized_devices conversation_id cert.device_pk
      ≡ some (
          add_record of_certificate
            (held (lookup m.authorized_devices conversation_id cert.device_pk)))
  unfolding record_certificate
  lookup-recorded = lookup-change_entry m.authorized_devices conversation_id cert.device_pk _

  module _ (scoped : cert.conversation_id ≡ conversation_id)
      (valid : is_valid signed cert logical_pk now_ms ≡ true) (later : ℕ)
      (in_force : later < cert.expires_at)
      (seen : in_history m ctx conversation_id logical_pk now_ms rank auth_hash ≡ true)
      (unrevoked : lookup m.revoked_devices conversation_id cert.device_pk ≡ none) where
    no_revocations :
        revocations recorded ctx conversation_id logical_pk later rank cert.device_pk ≡ []
    unfolding revocations record_certificate
    no_revocations = rw (revocations, unrevoked) refl

    usable :
        is_usable recorded ctx conversation_id logical_pk later rank
          (revocations recorded ctx conversation_id logical_pk later rank cert.device_pk)
          of_certificate
        ≡ true
    unfolding is_usable any
    usable = rw no_revocations (ground (arith, in_force, seen))

    -- A certificate for this conversation that is in force and that the identity has signed is
    -- accepted, however many devices are authorized already, and from then on, until the certificate
    -- expires, the device has each permission that it grants, if its node is in the history of the
    -- node that is evaluated and the device has not been revoked.
    pub authorize_device_effect_lem :
        (b : ℕ)
        → b < 3
        → test_bit cert.permissions b ≡ true
        → (m' : IdentityManager) × (authorize_device signed m ctx conversation_id logical_pk cert
              now_ms rank auth_hash
            ≡ done m')
          × ((p : ℕ) × (get_permissions_recursive m' ctx conversation_id logical_pk later rank
                  (suc max_auth_depth)
                  cert.device_pk
                ≡ some p)
              × (test_bit p b ≡ true))
    unfolding authorize_device
    authorize_device_effect_lem b h t =
        let here : (cert.conversation_id == conversation_id) ≡ true = ground (arith, scoped) in
        let chain =
          direct of_certificate lookup-recorded
            (IsIn-add_record of_certificate
              (held (lookup m.authorized_devices conversation_id cert.device_pk)))
            usable t refl in
        (
          recorded,
          rw (here, valid) refl,
          (get_permissions_recursive_iff recorded ctx conversation_id logical_pk later rank
                (suc max_auth_depth) cert.device_pk b h).1
              chain,
        )
