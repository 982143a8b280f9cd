-- ===== src/Quota.antt =====
-- tox-sequenced/src/quota.rs: the memory budget that sessions share. `used_bytes` is an atomic
-- counter: each operation reads it, computes, and writes by `compare_exchange`, again until that
-- succeeds. One round of such a loop, on a counter that may have changed since it was read, is an
-- `attempt`; the operation of a thread that runs alone is the round on the value just read.
-- `usize` arithmetic is written with its wrap-around.
pub mod Limits
use rs_toxcore_c.Prelude.{
  ℕ, ◌+◌, ◌-◌, ◌*◌, ◌/◌, ◌%◌, ◌^◌, ◌<◌, ◌≤◌, Bool, true, false, ◌==◌, ltb, if◌then◌else◌,
}
use rs_toxcore_c.Protocol.{Priority, usize_add, usize_mul}

pub record ReassemblyQuota : Type 0 where
  pub max_bytes : ℕ
  pub used_bytes : ℕ

unfoldable pub new : ℕ → ReassemblyQuota
new max_bytes = record { max_bytes = max_bytes; used_bytes = 0 }

-- The share of the capacity that a priority may fill, in percent.
unfoldable pub percent : Priority → ℕ
percent Priority.bulk = 70
percent Priority.low = 80
percent Priority.standard = 90
percent Priority.high = 95
percent Priority.critical = 99

unfoldable pub threshold : ℕ → Priority → ℕ
unfolding percent
threshold max_bytes priority = usize_mul max_bytes (percent priority) / 100

-- How a round ends: the loop returns `false`, returns `true`, or goes round again.
pub data Outcome : Type 0 where
  refused taken retried : Outcome

-- A round of `reserve` and of `reserve_guaranteed` that read `current`, at a limit.
unfoldable pub reserve_attempt : ℕ → ℕ → ℕ → ℕ → ℕ × Outcome
reserve_attempt limit amount current used =
    if ltb limit (usize_add current amount)
    then (used, Outcome.refused)
    else if used == current
    then (usize_add current amount, Outcome.taken)
    else (used, Outcome.retried)

-- A round of `release` that read `current`; `saturating_sub` stops at 0.
unfoldable pub release_attempt : ℕ → ℕ → ℕ → ℕ × Outcome
release_attempt amount current used =
    if used == current then (current - amount, Outcome.taken) else (used, Outcome.retried)

abbrev pub is_taken : Outcome → Bool
is_taken Outcome.taken = true
is_taken Outcome.refused = false
is_taken Outcome.retried = false

unfoldable pub reserve : ReassemblyQuota → ℕ → Priority → ReassemblyQuota × Bool
unfolding reserve_attempt threshold
reserve q amount priority =
    let (used, outcome) =
      reserve_attempt (threshold q.max_bytes priority) amount q.used_bytes q.used_bytes in
    (record q { used_bytes = used }, is_taken outcome)

unfoldable pub reserve_guaranteed : ReassemblyQuota → ℕ → ReassemblyQuota × Bool
unfolding reserve_attempt
reserve_guaranteed q amount =
    let (used, outcome) = reserve_attempt q.max_bytes amount q.used_bytes q.used_bytes in
    (record q { used_bytes = used }, is_taken outcome)

unfoldable pub release : ReassemblyQuota → ℕ → ReassemblyQuota
unfolding release_attempt
release q amount = record q { used_bytes = (release_attempt amount q.used_bytes q.used_bytes).0 }

unfoldable pub available : ReassemblyQuota → ℕ
available q = q.max_bytes - q.used_bytes
