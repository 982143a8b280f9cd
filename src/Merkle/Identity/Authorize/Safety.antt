-- ===== src/Merkle/Identity/Authorize/Safety.antt =====
-- What `authorize_device` of merkle-tox-core/src/identity.rs lets through.
use rs_toxcore_c.Word.{test_bit}
use rs_toxcore_c.Word.Bits.{test_bit-bit_and}
use rs_toxcore_c.Prelude.{
  ℕ, suc, ◌+◌, ◌<◌, ◌≡◌, refl, sym, ap, ◌∙◌, subst, arith, bit_and, Bool, true, ◌&&◌, Option, some,
  List, [], ◌∷◌, ◌==◌, ltb, leb, inl, inr, Bool-cases, Option-cases,
}
use rs_toxcore_c.Merkle.Identity.{
  AuthRecord, CausalContext, IdentityManager, DelegationCertificate, Entries, admin, contains_all,
  all_permissions,
}
use rs_toxcore_c.Merkle.Identity.Trust.{max_auth_depth, get_permissions_recursive}
use rs_toxcore_c.Merkle.Identity.Trust.Chains.{Chain, root, get_permissions_recursive_iff}
use rs_toxcore_c.Merkle.Identity.Authorize.{
  DelegationSignData, max_devices_per_identity, max_group_devices, get_auth_depth, device_count,
  total_devices, done, is_valid, issuer_among, find_issuer, record_certificate, delegate,
  authorize_device,
}

-- A number that contains another has its bits.
contains_all-test_bit :
    (p q b : ℕ) → contains_all p q ≡ true → test_bit q b ≡ true → test_bit p b ≡ true
contains_all-test_bit p q b h e =
    let same : bit_and p q ≡ q = ground (arith, h) in
    let both : (test_bit p b && test_bit q b) ≡ test_bit q b =
      sym (test_bit-bit_and p q b) ∙ ap (λ x. test_bit x b) same in
    ground (arith, both, e)

admin-within : (b : ℕ) → test_bit admin b ≡ true → test_bit all_permissions b ≡ true
admin-within b h = contains_all-test_bit all_permissions admin b refl h

module _ (signed : ℕ → DelegationSignData → ℕ → Bool) (m : IdentityManager) (ctx : CausalContext)
    (conversation_id logical_pk : ℕ) (cert : DelegationCertificate) (now_ms rank : ℕ) where
  abbrev permissions_of : ℕ → Option ℕ
  permissions_of =
      get_permissions_recursive m ctx conversation_id logical_pk now_ms rank (suc max_auth_depth)

  -- A device that may delegate, with its permissions.
  abbrev IsIssuer : ℕ → ℕ → Type 0
  IsIssuer issuer p =
      (is_valid signed cert issuer now_ms ≡ true)
      × (permissions_of issuer ≡ some p)
      × (contains_all p admin ≡ true)

  IsIssuer-pair :
      (d q issuer p : ℕ)
      → ◌≡◌ {A = Option (ℕ × ℕ)} (some (d, q)) (some (issuer, p))
      → IsIssuer d q
      → IsIssuer issuer p
  IsIssuer-pair d q issuer p e i =
      let first : d ≡ issuer = cc in
      let second : q ≡ p = cc in
      subst (λ x. IsIssuer x p) first (subst (λ x. IsIssuer d x) second i)

  issuer_among-IsIssuer :
      (device : ℕ) (records : List AuthRecord) (issuer p : ℕ)
      → issuer_among signed m ctx conversation_id logical_pk cert now_ms rank device records
        ≡ some (issuer, p)
      → IsIssuer issuer p
  unfolding issuer_among
  issuer_among-IsIssuer device [] issuer p h = cc
  issuer_among-IsIssuer device (r ∷ records) issuer p h =
      elim (Bool-cases (
        (r.logical_pk == logical_pk)
        && ltb now_ms r.expires_at
        && leb r.auth_rank rank
        && contains_all r.permissions admin
        && is_valid signed cert device now_ms)) [
          | inr e ↦ issuer_among-IsIssuer device records issuer p (rw e at h)
          | inl e ↦ elim (Option-cases (permissions_of device)) [
            | inl f ↦ issuer_among-IsIssuer device records issuer p (rw (e, f) at h)
            | inr (q, f) ↦ elim (Bool-cases (contains_all q admin)) [
              | inr g ↦ issuer_among-IsIssuer device records issuer p (rw (e, f, g) at h)
              | inl g ↦
                  let valid : is_valid signed cert device now_ms ≡ true = ground (arith, e) in
                  IsIssuer-pair device q issuer p (rw (e, f, g) at h) (valid, f, g)
            ]
          ]
        ]

  find_issuer-IsIssuer :
      (es : Entries (List AuthRecord)) (issuer p : ℕ)
      → find_issuer signed m ctx conversation_id logical_pk cert now_ms rank es ≡ some (issuer, p)
      → IsIssuer issuer p
  unfolding find_issuer
  find_issuer-IsIssuer [] issuer p h = cc
  find_issuer-IsIssuer ((cid, device, records) ∷ es) issuer p h =
      elim (Bool-cases (cid == conversation_id)) [
        | inr e ↦ find_issuer-IsIssuer es issuer p (rw e at h)
        | inl e ↦
            elim (Option-cases (
              issuer_among signed m ctx conversation_id logical_pk cert now_ms rank device
                records)) [
                  | inl f ↦ find_issuer-IsIssuer es issuer p (rw (e, f) at h)
                  | inr (i, f) ↦
                      issuer_among-IsIssuer device records issuer p (f ∙ (rw (e, f) at h))
                ]
      ]

  -- What stands behind a certificate that was let through.
  pub record IsBacked (issuer : ℕ) : Type 0 where
    pub scoped : cert.conversation_id ≡ conversation_id
    pub valid : is_valid signed cert issuer now_ms ≡ true
    -- The issuer may administrate.
    pub administrates :
        (b : ℕ)
        → b < 3
        → test_bit admin b ≡ true
        → Chain m ctx conversation_id logical_pk now_ms rank
            (λ r. test_bit r.permissions b ≡ true)
            (suc max_auth_depth)
            issuer
    -- The issuer has the permissions that the certificate grants.
    pub grants :
        (b : ℕ)
        → b < 3
        → test_bit cert.permissions b ≡ true
        → Chain m ctx conversation_id logical_pk now_ms rank
            (λ r. test_bit r.permissions b ≡ true)
            (suc max_auth_depth)
            issuer

  IsIssuer-Chain :
      (issuer p q : ℕ)
      → permissions_of issuer ≡ some p
      → contains_all p q ≡ true
      → (b : ℕ) → b < 3
      → test_bit q b ≡ true
      → Chain m ctx conversation_id logical_pk now_ms rank
          (λ r. test_bit r.permissions b ≡ true)
          (suc max_auth_depth)
          issuer
  IsIssuer-Chain issuer p q e c b h t =
      (get_permissions_recursive_iff m ctx conversation_id logical_pk now_ms rank
          (suc max_auth_depth) issuer b h).0
        (p, e, contains_all-test_bit p q b c t)

  contains_all-delegate :
      (issuer p auth_hash : ℕ) (m' : IdentityManager)
      → delegate signed m ctx conversation_id logical_pk cert now_ms rank issuer p auth_hash
        ≡ done m'
      → (contains_all p cert.permissions ≡ true)
        × (m'
            ≡ record_certificate signed m ctx conversation_id logical_pk cert now_ms rank issuer
                auth_hash)
  unfolding delegate
  contains_all-delegate issuer p auth_hash m' h =
      elim (Bool-cases (contains_all p cert.permissions)) [
        | inr e ↦ cc (rw e at h)
        | inl e ↦
            elim (Bool-cases (
              ltb max_auth_depth
                (get_auth_depth signed m conversation_id logical_pk rank issuer + 1))) [
                  | inl f ↦ cc (rw (e, f) at h)
                  | inr f ↦
                      elim (Bool-cases (
                        leb max_devices_per_identity
                          (device_count signed m conversation_id logical_pk rank))) [
                            | inl g ↦ cc (rw (e, f, g) at h)
                            | inr g ↦
                                elim (Bool-cases (
                                  leb max_group_devices
                                    (total_devices signed m conversation_id logical_pk rank))) [
                                      | inl k ↦ cc (rw (e, f, g, k) at h)
                                      | inr k ↦ (e, cc (rw (e, f, g, k) at h))
                                    ]
                          ]
                ]
      ]

  identity-IsBacked :
      cert.conversation_id ≡ conversation_id
      → is_valid signed cert logical_pk now_ms ≡ true
      → IsBacked logical_pk
  identity-IsBacked s v = record {
    scoped = s;
    valid = v;
    administrates = λ b h t. root refl;
    grants = λ b h t. root refl;
  }

  -- A certificate is recorded only if it is for this conversation and in force, its signature is that
  -- of the recorded issuer, and the issuer is the identity or a device to which chains of usable
  -- certificates give ADMIN and every permission that the certificate grants: no device gives more
  -- than it has. The state changes by the record of the certificate alone.
  pub authorize_device_lem :
      (auth_hash : ℕ) (m' : IdentityManager)
      → authorize_device signed m ctx conversation_id logical_pk cert now_ms rank auth_hash
        ≡ done m'
      → (issuer : ℕ) × (m'
          ≡ record_certificate signed m ctx conversation_id logical_pk cert now_ms rank issuer
              auth_hash)
        × IsBacked issuer
  unfolding authorize_device
  authorize_device_lem auth_hash m' h =
      elim (Bool-cases (cert.conversation_id == conversation_id)) [
        | inr e ↦ cc (rw e at h)
        | inl e ↦ elim (Bool-cases (is_valid signed cert logical_pk now_ms)) [
          | inl v ↦ (logical_pk, cc (rw (e, v) at h), identity-IsBacked (ground (arith, e)) v)
          | inr v ↦
              elim (Option-cases (
                find_issuer signed m ctx conversation_id logical_pk cert now_ms rank
                  m.authorized_devices)) [
                    | inl f ↦ cc (rw (e, v, f) at h)
                    | inr ((issuer, p), f) ↦
                        let (c, same) =
                          contains_all-delegate issuer p auth_hash m' (rw (e, v, f) at h) in
                        let (signature, found, ad) =
                          find_issuer-IsIssuer m.authorized_devices issuer p f in
                        (
                          issuer,
                          same,
                          record {
                            scoped = ground (arith, e);
                            valid = signature;
                            administrates = IsIssuer-Chain issuer p admin found ad;
                            grants = IsIssuer-Chain issuer p cert.permissions found c;
                          },
                        )
                  ]
        ]
      ]
