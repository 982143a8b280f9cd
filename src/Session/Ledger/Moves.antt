-- ===== src/Session/Ledger/Moves.antt =====
-- The moves on the books of a session of tox-sequenced/src/session.rs, each of which keeps them right.
use native.Mathlib.Decide.{ℕ_discrete}
use rs_toxcore_c.Prelude.{
  ℕ, ◌+◌, ◌-◌, ◌≤◌, ◌<◌, ◌≡◌, refl, sym, ◌∙◌, Bool, true, false, none, some, [], ◌∷◌, ◌++◌,
  if◌then◌else◌, arith, length, length-append, subst,
}
use rs_toxcore_c.Protocol.{Priority, usize_sub, max_concurrent_incoming}
use rs_toxcore_c.Quota
use rs_toxcore_c.Quota.{ReassemblyQuota}
use rs_toxcore_c.Quota.Limits.{fits}
use rs_toxcore_c.FlatMap
use rs_toxcore_c.FlatMap.{FlatMap}
use rs_toxcore_c.FlatMap.Laws.{write-Distinct, push-Distinct, cut-Distinct}
use rs_toxcore_c.FlatMap.Sums.{
  AllValues, weigh-push, weigh-cut, weigh-write, AllValues-push, AllValues-find, AllValues-cut,
  AllValues-write, length-cut, length-write,
}
use rs_toxcore_c.Reassembly.Message.{MessageReassembler}
use rs_toxcore_c.Session.Admission.{admission}
use rs_toxcore_c.Session.Ledger.{IsHeld, Books, IsRight, admission_lem}

pub release_lem :
    (q : ReassemblyQuota) (amount : ℕ)
    → ((Quota.release q amount).max_bytes ≡ q.max_bytes)
      × ((Quota.release q amount).used_bytes ≡ q.used_bytes - amount)
unfolding Quota.release Quota.release_attempt
release_lem q amount = ground arith

pub some-eq : {x y : MessageReassembler} → some x ≡ some y → x ≡ y
some-eq e = cc

used_if :
    {a : ℕ} (b c : ℕ) {done : Bool}
    → a ≡ (if done then b else c)
    → (done ≡ false → a ≡ c) × (done ≡ true → a ≡ b)
used_if b c k = (λ e. ground (arith, k), λ e. ground (arith, k))

module _ {others : ℕ} {b : Books} (v : IsRight others b) where
  -- A reservation that is refused.
  pub denied :
      (amount : ℕ) (p : Priority)
      → amount < fits
      → (admission b.quota b.limit b.size amount p).1 ≡ false
      → IsRight others (record b { quota = (admission b.quota b.limit b.size amount p).0 })
  denied amount p a e =
      let r = admission_lem b.quota b.limit b.size amount p v.within v.small a in
      let used = (used_if (b.quota.used_bytes + amount) b.quota.used_bytes r.1).0 e in
      record {
        distinct = v.distinct;
        held = v.held;
        charged = v.charged;
        shared = used ∙ v.shared;
        capped = v.capped;
        within = omega (arith, used, r.0, v.within);
        small = omega (arith, r.0, v.small);
        few = v.few;
      }

  -- A reassembler that is opened with what was reserved for it.
  pub opened :
      (amount id : ℕ) (p : Priority) (r : MessageReassembler)
      → amount < fits
      → (admission b.quota b.limit b.size amount p).1 ≡ true
      → FlatMap.find ℕ_discrete id b.entries ≡ none
      → length b.entries < max_concurrent_incoming
      → IsHeld r
      → r.reserved_bytes ≡ amount
      → IsRight others (record {
        entries = b.entries ++ (id, r) ∷ [];
        size = b.size + amount;
        limit = b.limit;
        quota = (admission b.quota b.limit b.size amount p).0;
      })
  opened amount id p r a e absent room h same =
      let k = admission_lem b.quota b.limit b.size amount p v.within v.small a in
      let used = (used_if (b.quota.used_bytes + amount) b.quota.used_bytes k.1).1 e in
      record {
        distinct = push-Distinct ℕ_discrete id r b.entries absent v.distinct;
        held = AllValues-push IsHeld b.entries id r v.held h;
        charged = omega (arith, v.charged, weigh-push (λ x. x.reserved_bytes) b.entries id r, same);
        shared = omega (arith, used, v.shared);
        capped = (k.2 e).0;
        within = omega (arith, used, k.0, k.2 e);
        small = omega (arith, k.0, v.small);
        few = omega (arith, length-append b.entries ((id, r) ∷ []));
      }

  -- A reservation that is given back at once.
  pub reverted :
      (amount : ℕ) (p : Priority)
      → amount < fits
      → (admission b.quota b.limit b.size amount p).1 ≡ true
      → IsRight others
          (record b { quota = Quota.release (admission b.quota b.limit b.size amount p).0 amount })
  reverted amount p a e =
      let k = admission_lem b.quota b.limit b.size amount p v.within v.small a in
      let used = (used_if (b.quota.used_bytes + amount) b.quota.used_bytes k.1).1 e in
      let back = release_lem (admission b.quota b.limit b.size amount p).0 amount in
      record {
        distinct = v.distinct;
        held = v.held;
        charged = v.charged;
        shared = omega (arith, used, back, v.shared);
        capped = v.capped;
        within = omega (arith, used, back, k.0, v.within);
        small = omega (arith, back, k.0, v.small);
        few = v.few;
      }

  -- A reassembler that leaves.
  pub dropped :
      (id : ℕ) (r : MessageReassembler)
      → FlatMap.find ℕ_discrete id b.entries ≡ some r
      → IsRight others (record {
        entries = FlatMap.cut ℕ_discrete id b.entries;
        size = usize_sub b.size r.reserved_bytes;
        limit = b.limit;
        quota = Quota.release b.quota r.reserved_bytes;
      })
  dropped id r e =
      let sum = weigh-cut ℕ_discrete (λ x. x.reserved_bytes) id b.entries r e in
      let back = release_lem b.quota r.reserved_bytes in
      let less : usize_sub b.size r.reserved_bytes ≡ b.size - r.reserved_bytes =
        omega (arith, v.charged, v.shared, v.within, v.small, sum) in
      record {
        distinct = cut-Distinct ℕ_discrete id b.entries v.distinct;
        held = AllValues-cut ℕ_discrete IsHeld id b.entries v.held;
        charged = omega (arith, v.charged, sum, less);
        shared = omega (arith, v.charged, v.shared, sum, less, back);
        capped = omega (arith, less, v.capped);
        within = omega (arith, back, v.within);
        small = omega (arith, back, v.small);
        few = omega (arith, length-cut ℕ_discrete id b.entries, v.few);
      }

  -- A reassembler that changes, with its reservation, and what it is charged with it.
  module _ (id : ℕ) (g : MessageReassembler → MessageReassembler) (r : MessageReassembler)
      (e : FlatMap.find ℕ_discrete id b.entries ≡ some r) (h : IsHeld r → IsHeld (g r)) where
    rewritten-IsHeld : AllValues IsHeld (FlatMap.write ℕ_discrete id g b.entries)
    rewritten-IsHeld =
        AllValues-write ℕ_discrete IsHeld id g b.entries
          (λ x y z.
            subst (λ t. IsHeld (g t)) (some-eq (sym e ∙ z))
              (h (AllValues-find ℕ_discrete IsHeld id b.entries r e v.held)))
          v.held

    rewritten :
        (size : ℕ) (quota : ReassemblyQuota)
        → size + r.reserved_bytes ≡ b.size + (g r).reserved_bytes
        → quota.used_bytes + b.size ≡ b.quota.used_bytes + size
        → size ≤ b.limit
        → quota.used_bytes ≤ quota.max_bytes
        → quota.max_bytes ≡ b.quota.max_bytes
        → IsRight others (record {
          entries = FlatMap.write ℕ_discrete id g b.entries;
          size = size;
          limit = b.limit;
          quota = quota;
        })
    rewritten size quota s u l w m =
        let sum = weigh-write ℕ_discrete (λ x. x.reserved_bytes) id g b.entries r e in
        record {
          distinct = write-Distinct ℕ_discrete id g b.entries v.distinct;
          held = rewritten-IsHeld;
          charged = omega (arith, v.charged, sum, s);
          shared = omega (arith, v.shared, u);
          capped = l;
          within = w;
          small = omega (arith, m, v.small);
          few = omega (arith, length-write ℕ_discrete id g b.entries, v.few);
        }

    pub changed :
        (g r).reserved_bytes ≡ r.reserved_bytes
        → IsRight others (record b { entries = FlatMap.write ℕ_discrete id g b.entries })
    changed same = rewritten b.size b.quota (omega (arith, same)) refl v.capped v.within refl

    pub grown :
        (amount : ℕ) (p : Priority)
        → amount < fits
        → (admission b.quota b.limit b.size amount p).1 ≡ true
        → (g r).reserved_bytes ≡ r.reserved_bytes + amount
        → IsRight others (record {
          entries = FlatMap.write ℕ_discrete id g b.entries;
          size = b.size + amount;
          limit = b.limit;
          quota = (admission b.quota b.limit b.size amount p).0;
        })
    grown amount p a done same =
        let k = admission_lem b.quota b.limit b.size amount p v.within v.small a in
        let used = (used_if (b.quota.used_bytes + amount) b.quota.used_bytes k.1).1 done in
        rewritten (b.size + amount) (admission b.quota b.limit b.size amount p).0
          (omega (arith, same)) (omega (arith, used)) (k.2 done).0
          (omega (arith, used, k.0, k.2 done)) k.0

    pub shrunk :
        (amount : ℕ)
        → (g r).reserved_bytes + amount ≡ r.reserved_bytes
        → IsRight others (record {
          entries = FlatMap.write ℕ_discrete id g b.entries;
          size = usize_sub b.size amount;
          limit = b.limit;
          quota = Quota.release b.quota amount;
        })
    shrunk amount same =
        let sum = weigh-cut ℕ_discrete (λ x. x.reserved_bytes) id b.entries r e in
        let back = release_lem b.quota amount in
        let less : usize_sub b.size amount ≡ b.size - amount =
          omega (arith, v.charged, v.shared, v.within, v.small, sum, same) in
        let covered : amount ≤ b.size = omega (arith, v.charged, sum, same) in
        rewritten (usize_sub b.size amount) (Quota.release b.quota amount)
          (omega (arith, less, same)) (omega (arith, less, back, v.shared))
          (omega (arith, less, v.capped)) (omega (arith, back, v.within)) back.0
