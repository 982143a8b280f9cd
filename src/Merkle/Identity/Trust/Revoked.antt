-- ===== src/Merkle/Identity/Trust/Revoked.antt =====
-- A device that the identity itself has revoked, in merkle-tox-core/src/identity.rs.
use rs_toxcore_c.Prelude.{
  ℕ, zero, suc, ◌≤◌, ◌≡◌, ◌≢◌, refl, arith, Bool, true, false, ◌&&◌, ◌||◌, Option, none, some, List,
  [], ◌∷◌, ◌++◌, ◌==◌, le→leb, inl, inr, Bool-cases, Option-cases,
}
use rs_toxcore_c.Merkle.Identity.{
  AuthRecord, RevocationRecord, CausalContext, IdentityManager, Entries, lookup, change_entry, any,
  is_mutual_revocation, revoke_device, revoker_seniority_of,
}
use rs_toxcore_c.Merkle.Identity.Trust.{
  revokes, is_usable, revocations, along, over, walk, is_authorized_recursive,
  get_permissions_recursive,
}

-- What the entry holds after the change.
abbrev pub held : {V : Type 0} → Option (List V) → List V
held none = []
held (some v) = v

pub lookup-change_entry :
    {V : Type 0} (es : Entries (List V)) (cid pk : ℕ) (f : List V → List V)
    → lookup (change_entry es cid pk f) cid pk ≡ some (f (held (lookup es cid pk)))
unfolding lookup change_entry
lookup-change_entry [] cid pk f =
    let e : ((cid == cid) && (pk == pk)) ≡ true = ground arith in rw e refl
lookup-change_entry ((c, d, v) ∷ es) cid pk f = elim (Bool-cases ((c == cid) && (d == pk))) [
  | inl e ↦ rw (e, lookup) (rw e refl)
  | inr e ↦ rw (e, lookup) (rw e (lookup-change_entry es cid pk f))
]

any-append :
    {A : Type 0} (p : A → Bool) (xs : List A) (x : A) → p x ≡ true → any p (xs ++ x ∷ []) ≡ true
unfolding any
any-append p [] x h = rw h refl
any-append p (y ∷ xs) x h = ground (arith, any-append p xs x h)

module _ (m : IdentityManager) (ctx : CausalContext)
    (conversation_id logical_pk now_ms rank : ℕ) where
  revoked-is_usable :
      (revs : List RevocationRecord) (r : AuthRecord)
      → any (revokes m ctx conversation_id logical_pk now_ms rank r) revs ≡ true
      → is_usable m ctx conversation_id logical_pk now_ms rank revs r ≡ false
  unfolding is_usable
  revoked-is_usable revs r h = rw h (ground arith)

  module _ {A : Type 0} (top : A) (of_record : AuthRecord → A) (meet join : A → A → A) where
    -- No path begins at a device all of whose records are revoked.
    over-revoked :
        (revs : List RevocationRecord) (issuer : ℕ → Option A) (records : List AuthRecord)
        → ((r : AuthRecord)
            → any (revokes m ctx conversation_id logical_pk now_ms rank r) revs ≡ true)
        → over m ctx conversation_id logical_pk now_ms rank top of_record meet join revs issuer
            records none
          ≡ none
    unfolding over along
    over-revoked revs issuer [] h = refl
    over-revoked revs issuer (r ∷ records) h =
        rw (revoked-is_usable revs r (h r)) (over-revoked revs issuer records h)

    walk-revoked :
        (n device : ℕ)
        → device ≢ logical_pk
        → ((r : AuthRecord)
            → any
                (revokes m ctx conversation_id logical_pk now_ms rank r)
                (revocations m ctx conversation_id logical_pk now_ms rank device)
              ≡ true)
        → walk m ctx conversation_id logical_pk now_ms rank top of_record meet join n device ≡ none
    unfolding walk
    walk-revoked zero device other h = refl
    walk-revoked (suc n) device other h =
        let e : (device == logical_pk) ≡ false = ground (arith, other) in
        elim (Option-cases (lookup m.authorized_devices conversation_id device)) [
          | inl f ↦ rw (e, f) refl
          | inr (records, f) ↦ rw (e, f) (over-revoked _ _ records h)
        ]

  -- The node is in the history of the node that is evaluated, as the code tells.
  abbrev pub in_history : ℕ → Bool
  in_history hash = (hash == 0) || (ctx.evaluating_node_hash == 0) || ctx.admin_ancestor_hashes hash

  -- A revocation by the identity itself counts against every record.
  revokes-identity :
      (r : AuthRecord) (rank' hash : ℕ)
      → in_history hash ≡ true
      → rank' ≤ rank
      → revokes m ctx conversation_id logical_pk now_ms rank r
          (record { rank = rank'; revoker_seniority = (0, 0); revocation_hash = hash })
        ≡ true
  unfolding revokes is_mutual_revocation
  revokes-identity r rank' hash h le =
      rw (h, le→leb rank' rank le) (le→leb 0 r.auth_rank (omega arith))

-- The record of a revocation by the identity itself.
abbrev by_identity : ℕ → ℕ → RevocationRecord
by_identity rank hash = record { rank = rank; revoker_seniority = (0, 0); revocation_hash = hash }

lookup-revoke_device :
    (m : IdentityManager) (conversation_id logical_pk device rank now hash : ℕ)
    → lookup
        (revoke_device m conversation_id logical_pk logical_pk device rank now hash).revoked_devices
        conversation_id
        device
      ≡ some (held (lookup m.revoked_devices conversation_id device) ++ by_identity rank hash ∷ [])
unfolding revoke_device revoker_seniority_of
lookup-revoke_device m conversation_id logical_pk device rank now hash =
    let own : (logical_pk == logical_pk) ≡ true = ground arith in
    rw own (lookup-change_entry m.revoked_devices conversation_id device _)

module _ (m : IdentityManager) (ctx : CausalContext)
    (conversation_id logical_pk device rank now hash now_ms rank' : ℕ) (other : device ≢ logical_pk)
    (seen : in_history m ctx conversation_id logical_pk now_ms rank' hash ≡ true)
    (le : rank ≤ rank') where
  abbrev revoked : IdentityManager
  revoked = revoke_device m conversation_id logical_pk logical_pk device rank now hash

  revokes-revoke_device :
      (r : AuthRecord)
      → any
          (revokes revoked ctx conversation_id logical_pk now_ms rank' r)
          (revocations revoked ctx conversation_id logical_pk now_ms rank' device)
        ≡ true
  unfolding revocations
  revokes-revoke_device r =
      rw (lookup-revoke_device m conversation_id logical_pk device rank now hash, revocations)
        (any-append _ (held (lookup m.revoked_devices conversation_id device)) _ (
          revokes-identity revoked ctx conversation_id logical_pk now_ms rank' r rank hash seen le))

  -- A device that the identity itself has revoked, at a rank that is not above the one asked for and
  -- by a node in the history of the one that is evaluated, has no permissions and is not authorized,
  -- whatever certificates it has and however deep the search goes, unless it is the identity itself.
  pub revoke_device_lem :
      (n : ℕ)
      → (get_permissions_recursive revoked ctx conversation_id logical_pk now_ms rank' n device
          ≡ none)
        × (is_authorized_recursive revoked ctx conversation_id logical_pk now_ms rank' n device
            ≡ none)
  unfolding get_permissions_recursive is_authorized_recursive
  revoke_device_lem n = (
    walk-revoked revoked ctx conversation_id logical_pk now_ms rank' _ _ _ _ n device other
        revokes-revoke_device,
    walk-revoked revoked ctx conversation_id logical_pk now_ms rank' _ _ _ _ n device other
        revokes-revoke_device,
  )
