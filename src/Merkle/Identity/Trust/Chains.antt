-- ===== src/Merkle/Identity/Trust/Chains.antt =====
-- What the search for paths in merkle-tox-core/src/identity.rs finds: chains of certificates.
use rs_toxcore_c.Word.{test_bit}
use rs_toxcore_c.Word.Bits.{test_bit-bit_and, test_bit-bit_or}
use rs_toxcore_c.Merkle.{IsIn}
use rs_toxcore_c.Prelude.{
  ℕ, zero, suc, ◌≤◌, ◌<◌, ◌≡◌, refl, sym, ◌∙◌, arith, min, max, bit_and, bit_or, Bool, true, false,
  ◌&&◌, ◌||◌, Option, none, some, List, [], ◌∷◌, ◌==◌, leb, inl, inr, ◌↔◌, Bool-cases, Option-cases,
  le→leb,
}
use rs_toxcore_c.Merkle.Identity.{
  AuthRecord, RevocationRecord, CausalContext, IdentityManager, lookup, any, all_permissions,
}
use rs_toxcore_c.Merkle.Identity.Trust.{
  is_usable, revocations, united, along, over, walk, is_authorized_recursive,
  get_permissions_recursive, i64_max,
}

pub any→IsIn :
    {A : Type 0} (p : A → Bool) (xs : List A) → any p xs ≡ true → (x : A) × IsIn x xs × (p x ≡ true)
unfolding any
any→IsIn p [] h = cc
any→IsIn p (x ∷ xs) h = elim (Bool-cases (p x)) [
  | inl e ↦ (x, inl refl, e)
  | inr e ↦ let (y, i, f) = any→IsIn p xs (rw e at h) in (y, inr i, f)
]

IsIn→any :
    {A : Type 0} (p : A → Bool) (xs : List A) (x : A) → IsIn x xs → p x ≡ true → any p xs ≡ true
unfolding any
IsIn→any p [] x i h = elim i [ ]
IsIn→any p (y ∷ ys) x (inl e) h = rw (e, h) refl
IsIn→any p (y ∷ ys) x (inr i) h = ground (arith, IsIn→any p ys x i h)

module _ (m : IdentityManager) (ctx : CausalContext)
    (conversation_id logical_pk now_ms rank : ℕ) where
  -- A chain of at most so many devices, from a device up to the identity: each device but the last
  -- has a certificate with the property that is usable, and that the next device has issued; the
  -- last is the identity itself, or has a certificate that the identity has issued.
  pub data Chain (P : AuthRecord → Type 0) : ℕ → ℕ → Type 0 where
    root : {n device : ℕ} → device ≡ logical_pk → Chain P (suc n) device
    direct :
        {n device : ℕ} {records : List AuthRecord} (r : AuthRecord)
        → lookup m.authorized_devices conversation_id device ≡ some records
        → IsIn r records
        → is_usable m ctx conversation_id logical_pk now_ms rank
            (revocations m ctx conversation_id logical_pk now_ms rank device)
            r
          ≡ true
        → P r
        → r.issuer_pk ≡ logical_pk
        → Chain P (suc n) device
    issued :
        {n device : ℕ} {records : List AuthRecord} (r : AuthRecord)
        → lookup m.authorized_devices conversation_id device ≡ some records
        → IsIn r records
        → is_usable m ctx conversation_id logical_pk now_ms rank
            (revocations m ctx conversation_id logical_pk now_ms rank device)
            r
          ≡ true
        → P r
        → Chain P n r.issuer_pk
        → Chain P (suc n) device

  module _ {A : Type 0} (top : A) (of_record : AuthRecord → A) (meet join : A → A → A)
      (B : A → Bool) (B-top : B top ≡ true) (B-meet : (x y : A) → B (meet x y) ≡ (B x && B y))
      (B-join : (x y : A) → B (join x y) ≡ (B x || B y)) where
    abbrev holds : Option A → Bool
    holds none = false
    holds (some a) = B a

    abbrev Good : AuthRecord → Type 0
    Good r = B (of_record r) ≡ true

    -- The record has the property and so has its issuer, unless that is the identity.
    abbrev passes : List RevocationRecord → (ℕ → Option A) → AuthRecord → Bool
    passes revs issuer r =
        is_usable m ctx conversation_id logical_pk now_ms rank revs r
        && B (of_record r)
        && ((r.issuer_pk == logical_pk) || holds (issuer r.issuer_pk))

    holds-along :
        (revs : List RevocationRecord) (issuer : ℕ → Option A) (r : AuthRecord)
        → holds (
            along m ctx conversation_id logical_pk now_ms rank top of_record meet join revs issuer
              r)
          ≡ passes revs issuer r
    unfolding along
    holds-along revs issuer r =
        elim (Bool-cases (is_usable m ctx conversation_id logical_pk now_ms rank revs r)) [
          | inr e ↦ rw e refl
          | inl e ↦ elim (Bool-cases (r.issuer_pk == logical_pk)) [
            | inl d ↦ rw (e, d) (ground arith)
            | inr d ↦ elim (Option-cases (issuer r.issuer_pk)) [
              | inl f ↦ rw (e, d, f) (ground arith)
              | inr (i, f) ↦ rw (e, d, f) (ground (arith, B-meet (of_record r) i))
            ]
          ]
        ]

    holds-united :
        (best : Option A) (a : A)
        → B (united m ctx conversation_id logical_pk now_ms rank top of_record meet join best a)
          ≡ (holds best || B a)
    unfolding united
    holds-united none a = refl
    holds-united (some b) a = B-join b a

    holds-over :
        (revs : List RevocationRecord) (issuer : ℕ → Option A) (records : List AuthRecord)
        (best : Option A)
        → holds (
            over m ctx conversation_id logical_pk now_ms rank top of_record meet join revs issuer
              records best)
          ≡ (holds best || any (passes revs issuer) records)
    unfolding over united any
    holds-over revs issuer [] best = ground arith
    holds-over revs issuer (r ∷ records) best =
        let here = holds-along revs issuer r in
        elim (Option-cases (
          along m ctx conversation_id logical_pk now_ms rank top of_record meet join revs issuer
            r)) [
              | inl e ↦
                  let none' = rw e at here in
                  rw e (holds-over revs issuer records best ∙ rw (sym none') refl)
              | inr (a, e) ↦
                  let some' : B a ≡ passes revs issuer r = rw e at here in
                  let both = holds-united best a in
                  rw e (holds-over revs issuer records _ ∙ rw (both, sym some') (ground arith))
            ]

    found→Chain :
        (n device : ℕ)
        → holds (walk m ctx conversation_id logical_pk now_ms rank top of_record meet join n device)
          ≡ true
        → Chain Good n device
    unfolding walk
    found→Chain zero device h = cc
    found→Chain (suc n) device h = elim (Bool-cases (device == logical_pk)) [
      | inl own ↦ root (ground (arith, own))
      | inr other ↦ elim (Option-cases (lookup m.authorized_devices conversation_id device)) [
        | inl e ↦ cc (rw (other, e) at h)
        | inr (records, e) ↦
            let revs = revocations m ctx conversation_id logical_pk now_ms rank device in
            let issuer =
              walk m ctx conversation_id logical_pk now_ms rank top of_record meet join n in
            let found = sym (holds-over revs issuer records none) ∙ (rw (other, e) at h) in
            let (r, i, p) = any→IsIn (passes revs issuer) records found in
            let usable : is_usable m ctx conversation_id logical_pk now_ms rank revs r ≡ true =
              ground (arith, p) in
            let good : Good r = ground (arith, p) in
            elim (Bool-cases (r.issuer_pk == logical_pk)) [
              | inl d ↦ direct r e i usable good (ground (arith, d))
              | inr d ↦ issued r e i usable good (found→Chain n r.issuer_pk (ground (arith, p, d)))
            ]
      ]
    ]

    in_records :
        (n device : ℕ) (records : List AuthRecord) (r : AuthRecord)
        → lookup m.authorized_devices conversation_id device ≡ some records
        → IsIn r records
        → passes
            (revocations m ctx conversation_id logical_pk now_ms rank device)
            (walk m ctx conversation_id logical_pk now_ms rank top of_record meet join n)
            r
          ≡ true
        → holds (
            walk m ctx conversation_id logical_pk now_ms rank top of_record meet join
              (suc n)
              device)
          ≡ true
    unfolding walk
    in_records n device records r e i p = elim (Bool-cases (device == logical_pk)) [
      | inl own ↦ rw own B-top
      | inr other ↦
          let revs = revocations m ctx conversation_id logical_pk now_ms rank device in
          let issuer =
            walk m ctx conversation_id logical_pk now_ms rank top of_record meet join n in
          rw (other, e)
            (holds-over revs issuer records none ∙ IsIn→any (passes revs issuer) records r i p)
    ]

    Chain→found :
        (n device : ℕ)
        → Chain Good n device
        → holds (walk m ctx conversation_id logical_pk now_ms rank top of_record meet join n device)
          ≡ true
    unfolding walk
    Chain→found zero device c = elim c [ ]
    Chain→found (suc n) device (root e) =
        let own : (device == logical_pk) ≡ true = ground (arith, e) in rw own B-top
    Chain→found (suc n) device (direct {records = records} r e i u g d) =
        in_records n device records r e i (ground (arith, u, g, d))
    Chain→found (suc n) device (issued {records = records} r e i u g c) =
        in_records n device records r e i (ground (arith, u, g, Chain→found n r.issuer_pk c))

    some→holds : (o : Option A) (a : A) → o ≡ some a → B a ≡ true → holds o ≡ true
    some→holds o a e h = rw e h

    holds→some : (o : Option A) → holds o ≡ true → (a : A) × (o ≡ some a) × (B a ≡ true)
    holds→some none h = cc
    holds→some (some a) h = (a, refl, h)

    walk_iff :
        (n device : ℕ)
        → ((a : A) × (walk m ctx conversation_id logical_pk now_ms rank top of_record meet join n
                device
              ≡ some a)
            × (B a ≡ true))
          ↔ Chain Good n device
    walk_iff n device = (
      λ (a, e, h). found→Chain n device (some→holds _ a e h),
      λ c. holds→some _ (Chain→found n device c),
    )

all_permissions_bit : (b : ℕ) → b < 3 → test_bit all_permissions b ≡ true
unfolding test_bit
all_permissions_bit zero h = refl
all_permissions_bit (suc zero) h = refl
all_permissions_bit (suc (suc zero)) h = refl
all_permissions_bit (suc (suc (suc b))) h = absurd (omega arith)

module _ (m : IdentityManager) (ctx : CausalContext)
    (conversation_id logical_pk now_ms rank : ℕ) where
  -- A device has a permission exactly when a chain of at most that many usable certificates that all
  -- carry it leads up to the identity: no device of a chain can grant what it lacks, and what
  -- several chains grant is united.
  pub get_permissions_recursive_iff :
      (n device b : ℕ)
      → b < 3
      → ((p : ℕ) × (get_permissions_recursive m ctx conversation_id logical_pk now_ms rank n device
            ≡ some p)
          × (test_bit p b ≡ true))
        ↔ Chain m ctx conversation_id logical_pk now_ms rank
            (λ r. test_bit r.permissions b ≡ true)
            n
            device
  unfolding get_permissions_recursive
  get_permissions_recursive_iff n device b h =
      walk_iff m ctx conversation_id logical_pk now_ms rank all_permissions (λ r. r.permissions)
        bit_and bit_or (λ p. test_bit p b) (all_permissions_bit b h) (λ x y. test_bit-bit_and x y b)
        (λ x y. test_bit-bit_or x y b) n device

  -- A device is authorized until `e` or later exactly when a chain of at most that many usable
  -- certificates, all of which last until `e`, leads from it up to the identity.
  pub is_authorized_recursive_iff :
      (n device e : ℕ)
      → e ≤ i64_max
      → ((x : ℕ) × (is_authorized_recursive m ctx conversation_id logical_pk now_ms rank n device
            ≡ some x)
          × (leb e x ≡ true))
        ↔ Chain m ctx conversation_id logical_pk now_ms rank
            (λ r. leb e r.expires_at ≡ true)
            n
            device
  unfolding is_authorized_recursive
  is_authorized_recursive_iff n device e h =
      walk_iff m ctx conversation_id logical_pk now_ms rank i64_max (λ r. r.expires_at) min max
        (λ x. leb e x) (le→leb e i64_max h) (λ x y. ground arith) (λ x y. ground arith) n device
