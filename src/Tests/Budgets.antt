-- ===== src/Tests/Budgets.antt =====
-- Runs of tox-sequenced/src/quota.rs, scheduler.rs and flat_map.rs.
use native.Mathlib.Decide.{ℕ_discrete, dec_lt}
use rs_toxcore_c.Prelude.{
  ℕ, ◌≤◌, ◌≡◌, refl, true, not, ◌&&◌, ◌||◌, [], ◌∷◌, ◌==◌, if◌then◌else◌, arith, contains, length,
  min,
}
use rs_toxcore_c.Protocol.{Priority}
use rs_toxcore_c.Quota.{ReassemblyQuota, threshold, reserve, reserve_attempt, percent}
use rs_toxcore_c.Quota.Limits.{Attempts-le-max, Attempts, reserving, guaranteeing, here, next}
use rs_toxcore_c.Scheduler
use rs_toxcore_c.Scheduler.{PriorityScheduler, queue, update_message, remove_message}
use rs_toxcore_c.Scheduler.Queues.{update_message_lem, remove_message_lem}
use rs_toxcore_c.FlatMap
use rs_toxcore_c.FlatMap.{FlatMap, get, insert, remove}
use rs_toxcore_c.FlatMap.Laws.{Distinct}

abbrev half_used : ReassemblyQuota
half_used = record { max_bytes = 1000; used_bytes = 500 }

reserved_200 : (reserve half_used 200 Priority.bulk).1 ≡ true
unfolding reserve reserve_attempt threshold percent
reserved_200 = refl

-- Two threads that both read 500; the later one has to go round again.
abbrev race : ℕ
race =
    (reserve_attempt 1000 400 500 (reserve_attempt (threshold 1000 Priority.bulk) 200 500 500).0).0

race-Attempts : Attempts 1000 500 race
race-Attempts = next (next here (reserving Priority.bulk 200 500 500 (omega arith) (omega arith))) (
    guaranteeing 400 500 (reserve_attempt (threshold 1000 Priority.bulk) 200 500 500).0
      (omega arith) (omega arith))

Attempts-le-max_example : race ≤ 1000
Attempts-le-max_example = Attempts-le-max 1000 (omega arith) (omega arith) race-Attempts

five_queues : length Scheduler.new.active_queues ≡ 5
unfolding Scheduler.new
five_queues = refl

update_message_lem_example :
    ((i a : ℕ)
      → contains (queue (update_message Scheduler.new 7 3) i) a
        ≡ (if 7 == a then i == min 3 4 else contains (queue Scheduler.new i) a))
    × ((l : ℕ)
        → contains (update_message Scheduler.new 7 3).active_levels l
          ≡ ((min 3 4 == l) || contains Scheduler.new.active_levels l))
update_message_lem_example = update_message_lem Scheduler.new 7 3 five_queues

remove_message_lem_example :
    contains (queue (remove_message (update_message Scheduler.new 7 3) 7) 3) 7
    ≡ (not (7 == 7) && contains (queue (update_message Scheduler.new 7 3) 3) 7)
remove_message_lem_example =
    remove_message_lem (update_message Scheduler.new 7 3) 7 3 7 (omega arith)

abbrev colours : FlatMap ℕ ℕ
colours = record { entries = (1, 10) ∷ (2, 20) ∷ [] }

colours-Distinct : Distinct ℕ_discrete colours.entries
unfolding FlatMap.find ℕ_discrete dec_lt
colours-Distinct = (refl, (refl, tt))
