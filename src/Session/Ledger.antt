-- ===== src/Session/Ledger.antt =====
-- What a session of tox-sequenced/src/session.rs has reserved: the books that `handle_data_packet`
-- and `cleanup` keep with the quota that all sessions share.
pub mod Moves
pub mod Handling
pub mod Fragments
pub mod Expiry
pub mod Runs
use native.Mathlib.Decide.{ℕ_discrete}
use rs_toxcore_c.Prelude.{
  ℕ, suc, ◌+◌, ◌-◌, ◌*◌, ◌^◌, ◌≤◌, ◌<◌, ◌≡◌, refl, sym, ap, ◌∙◌, Bool, true, false, not, ◌||◌,
  Option, none, some, List, [], ◌∷◌, ltb, leb, if◌then◌else◌, arith, inl, inr, Bool-cases,
  Option-cases, length, length-append, subst, max,
}
use rs_toxcore_c.Protocol.{Priority, usize_sub, max_message_size, max_concurrent_incoming}
use rs_toxcore_c.Quota
use rs_toxcore_c.Quota.{ReassemblyQuota, threshold, reserve_guaranteed, reserve_attempt}
use rs_toxcore_c.Quota.Limits.{fits, threshold-le, reserve_lem}
use rs_toxcore_c.FlatMap
use rs_toxcore_c.FlatMap.{FlatMap}
use rs_toxcore_c.FlatMap.Laws.{Distinct}
use rs_toxcore_c.FlatMap.Sums.{
  weigh, AllValues, weigh-push, weigh-cut, weigh-write, AllValues-push, AllValues-find,
  AllValues-cut, AllValues-write, length-cut, length-write,
}
use rs_toxcore_c.Reassembly.Sizes.{IsSized}
use rs_toxcore_c.Reassembly.Message.{MessageReassembler, IsLive}
use rs_toxcore_c.Session.{Platform, SequenceSession}
use rs_toxcore_c.Session.Admission.{admission, admit, drop_incoming}

-- A reassembler that a session holds.
abbrev pub IsHeld : MessageReassembler → Type 0
IsHeld r = IsLive r × IsSized r.buffer

abbrev pub reserved : List (ℕ × MessageReassembler) → ℕ
reserved = weigh (λ r. r.reserved_bytes)

-- The reassemblers of a session, what is reserved for them, its limit, and the shared quota.
pub record Books : Type 0 where
  pub entries : List (ℕ × MessageReassembler)
  pub size : ℕ
  pub limit : ℕ
  pub quota : ReassemblyQuota

abbrev pub books : {C : Type 0} → SequenceSession C → Books
books s = record {
  entries = s.incoming.entries;
  size = s.incoming_buffer_size;
  limit = s.max_per_session;
  quota = s.quota;
}

-- The books are right: the session's size is the sum of its reservations and within its limit, and
-- the quota counts it beside what `others` have reserved, within the capacity.
pub record IsRight (others : ℕ) (b : Books) : Type 0 where
  pub distinct : Distinct ℕ_discrete b.entries
  pub held : AllValues IsHeld b.entries
  pub charged : b.size ≡ reserved b.entries
  pub shared : b.quota.used_bytes ≡ others + b.size
  pub capped : b.size ≤ b.limit
  pub within : b.quota.used_bytes ≤ b.quota.max_bytes
  pub small : b.quota.max_bytes < fits
  pub few : length b.entries ≤ max_concurrent_incoming

guaranteed_lem :
    (q : ReassemblyQuota) (amount : ℕ)
    → q.used_bytes < fits
    → amount < fits
    → let (q', done) = reserve_guaranteed q amount in
      (q'.max_bytes ≡ q.max_bytes)
      × (q'.used_bytes ≡ (if done then q.used_bytes + amount else q.used_bytes))
      × (done ≡ true → q.used_bytes + amount ≤ q.max_bytes)
unfolding reserve_guaranteed reserve_attempt
guaranteed_lem q amount h k = ground arith

admission_lem :
    (q : ReassemblyQuota) (limit size amount : ℕ) (p : Priority)
    → q.used_bytes ≤ q.max_bytes
    → q.max_bytes < fits
    → amount < fits
    → let (q', done) = admission q limit size amount p in
      (q'.max_bytes ≡ q.max_bytes)
      × (q'.used_bytes ≡ (if done then q.used_bytes + amount else q.used_bytes))
      × (done ≡ true → (size + amount ≤ limit) × (q.used_bytes + amount ≤ q.max_bytes))
unfolding admission Quota.release Quota.release_attempt
admission_lem q limit size amount p u m a = ground (
  arith,
  guaranteed_lem q amount (omega arith) a,
  reserve_lem q amount p (omega arith) a,
  threshold-le q.max_bytes p m,
)
