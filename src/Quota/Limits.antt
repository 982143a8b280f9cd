-- ===== src/Quota/Limits.antt =====
-- What the budget of tox-sequenced/src/quota.rs keeps to, alone and under interference.
use rs_toxcore_c.Prelude.{ℕ, ◌+◌, ◌^◌, ◌<◌, ◌≤◌, ◌≡◌, ◌↔◌, true, arith, if◌then◌else◌}
use rs_toxcore_c.Protocol.{Priority, level}
use rs_toxcore_c.Quota.{
  ReassemblyQuota, percent, threshold, reserve_attempt, release_attempt, reserve, release,
  available,
}

-- Capacities and amounts whose products and sums fit 64 bits.
abbrev pub fits : ℕ
fits = 2 ^ 56

pub threshold-le :
    (max_bytes : ℕ) (p : Priority) → max_bytes < fits → threshold max_bytes p ≤ max_bytes
unfolding threshold percent
threshold-le max_bytes p h = ground arith

-- A priority that is at least as urgent has a threshold at least as high, for a capacity below
-- 2 ^ 56.
threshold_mono :
    (max_bytes : ℕ) (p q : Priority)
    → max_bytes < fits
    → level p ≤ level q
    → threshold max_bytes q ≤ threshold max_bytes p
unfolding threshold percent level
threshold_mono max_bytes Priority.critical q h l = ground arith
threshold_mono max_bytes Priority.high q h l = ground arith
threshold_mono max_bytes Priority.standard q h l = ground arith
threshold_mono max_bytes Priority.low q h l = ground arith
threshold_mono max_bytes Priority.bulk q h l = ground arith

-- `reserve` succeeds exactly if the new total is within the threshold of the priority; then it
-- adds the amount, and otherwise it changes nothing. The bytes in use and the amount must be below
-- 2 ^ 56.
pub reserve_lem :
    (q : ReassemblyQuota) (amount : ℕ) (p : Priority)
    → q.used_bytes < fits
    → amount < fits
    → let (q', done) = reserve q amount p in
      ((done ≡ true) ↔ (q.used_bytes + amount ≤ threshold q.max_bytes p))
      × (q'.max_bytes ≡ q.max_bytes)
      × (q'.used_bytes ≡ (if done then q.used_bytes + amount else q.used_bytes))
unfolding reserve
reserve_lem q amount p h k = ground arith

-- What a successful `reserve` took is missing from what is available, byte for byte, and `release`
-- brings the quota back. The capacity, the bytes in use and the amount must be below 2 ^ 56.
release-reserve :
    (q : ReassemblyQuota) (amount : ℕ) (p : Priority)
    → q.max_bytes < fits
    → q.used_bytes < fits
    → amount < fits
    → (reserve q amount p).1 ≡ true
    → (available (reserve q amount p).0 + amount ≡ available q)
      × (release (reserve q amount p).0 amount ≡ q)
unfolding reserve release available
release-reserve q amount p m h k e = ground (arith, threshold-le q.max_bytes p m)

-- A round of one of the loops in some thread, which read the counter at some earlier time.
pub data Attempt (max_bytes : ℕ) : ℕ → ℕ → Type 0 where
  reserving :
      (p : Priority) (amount current used : ℕ)
      → amount < fits
      → current < fits
      → Attempt max_bytes used (reserve_attempt (threshold max_bytes p) amount current used).0
  guaranteeing :
      (amount current used : ℕ)
      → amount < fits
      → current < fits
      → Attempt max_bytes used (reserve_attempt max_bytes amount current used).0
  releasing :
      (amount current used : ℕ) → Attempt max_bytes used (release_attempt amount current used).0

pub data Attempts (max_bytes : ℕ) (start : ℕ) : ℕ → Type 0 where
  here : Attempts max_bytes start start
  next : {u v : ℕ} → Attempts max_bytes start u → Attempt max_bytes u v → Attempts max_bytes start v

reserve_attempt-le :
    (limit max_bytes amount current used : ℕ)
    → limit ≤ max_bytes
    → used ≤ max_bytes
    → amount < fits
    → current < fits
    → (reserve_attempt limit amount current used).0 ≤ max_bytes
unfolding reserve_attempt
reserve_attempt-le limit max_bytes amount current used l u a c = ground arith

Attempt-le :
    (max_bytes : ℕ) {u v : ℕ}
    → max_bytes < fits
    → u ≤ max_bytes
    → Attempt max_bytes u v
    → v ≤ max_bytes
unfolding release_attempt
Attempt-le max_bytes h l (reserving p amount current used a c) =
    reserve_attempt-le (threshold max_bytes p) max_bytes amount current used
      (threshold-le max_bytes p h) l a c
Attempt-le max_bytes h l (guaranteeing amount current used a c) =
    reserve_attempt-le max_bytes max_bytes amount current used (omega arith) l a c
Attempt-le max_bytes h l (releasing amount current used) = ground arith

-- However the threads' rounds interleave, and however old the values are that they read, the bytes
-- in use never exceed the capacity if they do not at the start; the capacity, the amounts reserved
-- and the values read must be below 2 ^ 56.
pub Attempts-le-max :
    (max_bytes : ℕ) {start used : ℕ}
    → max_bytes < fits
    → start ≤ max_bytes
    → Attempts max_bytes start used
    → used ≤ max_bytes
Attempts-le-max max_bytes h l here = l
Attempts-le-max max_bytes h l (next r a) =
    Attempt-le max_bytes h (Attempts-le-max max_bytes h l r) a
