-- ===== src/Scheduler.antt =====
-- tox-sequenced/src/scheduler.rs: the deficit round robin over five priority levels. The arrays
-- are lists of five; a deque is a list, its front first. The deficits are `i32` in the code: one
-- grows to at most 16384 and only falls by a size that it covers, so it is a number here. A size
-- is below 2 ^ 31, so that its cast to `i32` is itself. `is_ready` is a parameter, the closure of
-- the caller; it has no effects of its own here.
pub mod Queues
use rs_toxcore_c.Prelude.{
  ℕ, zero, suc, ◌+◌, ◌-◌, ◌<◌, ◌≤◌, min, Bool, true, false, not, Option, none, some, List, [], ◌∷◌,
  ◌++◌, ◌==◌, ltb, leb, if◌then◌else◌, length, get_or, set, contains, replicate,
}

abbrev pub num_priorities : ℕ
num_priorities = 5

abbrev pub default_quantums : List ℕ
default_quantums = 4096 ∷ 2048 ∷ 1500 ∷ 1024 ∷ 512 ∷ []

pub record PriorityScheduler : Type 0 where
  pub deficits : List ℕ
  pub quantums : List ℕ
  pub active_queues : List (List ℕ)
  pub active_levels : List ℕ
  pub needs_quantum : List Bool

unfoldable pub new : PriorityScheduler
new = record {
  deficits = replicate num_priorities 0;
  quantums = default_quantums;
  active_queues = replicate num_priorities [];
  active_levels = [];
  needs_quantum = replicate num_priorities true;
}

-- `retain(|&id| id != message_id)`
unfoldable pub without : ℕ → List ℕ → List ℕ
without id [] = []
without id (x ∷ xs) = let rest = without id xs in if x == id then rest else x ∷ rest

-- `active_queues[p]`
abbrev pub queue : PriorityScheduler → ℕ → List ℕ
queue s p = get_or s.active_queues p []

-- The loop of `update_message` over the queues from level `i` on, and the push behind it.
unfoldable pub place : ℕ → ℕ → ℕ → List (List ℕ) → List (List ℕ)
unfolding without contains
place id p i [] = []
place id p i (q ∷ qs) =
    (if i == p then (if contains q id then q else q ++ id ∷ []) else without id q)
    ∷ place id p (suc i) qs

-- A level that gets a message is made active, the two most urgent ones at the front.
unfoldable pub activate : PriorityScheduler → ℕ → PriorityScheduler
unfolding contains
activate s p = if contains s.active_levels p then s else record s {
  active_levels = if leb p 1 then p ∷ s.active_levels else s.active_levels ++ p ∷ [];
  needs_quantum = set s.needs_quantum p true;
}

unfoldable pub update_message : PriorityScheduler → ℕ → ℕ → PriorityScheduler
unfolding activate place
update_message s message_id priority =
    let p = min priority (num_priorities - 1) in
    let s' = activate s p in record s' { active_queues = place message_id p 0 s'.active_queues }

-- One level of `remove_message`, and the levels from `p` on, `rounds` of them.
unfoldable pub remove_at : ℕ → PriorityScheduler → ℕ → PriorityScheduler
unfolding without
remove_at message_id s p =
    let q = without message_id (queue s p) in
    let s' = record s { active_queues = set s.active_queues p q } in
    elim q [
      | [] ↦ record s' {
        deficits = set s.deficits p 0;
        active_levels = without p s.active_levels;
        needs_quantum = set s.needs_quantum p true;
      }
      | _ ∷ _ ↦ s'
    ]

unfoldable pub remove_from : ℕ → ℕ → ℕ → PriorityScheduler → PriorityScheduler
unfolding remove_at
remove_from zero message_id p s = s
remove_from (suc rounds) message_id p s =
    remove_from rounds message_id (suc p) (remove_at message_id s p)

unfoldable pub remove_message : PriorityScheduler → ℕ → PriorityScheduler
unfolding remove_from
remove_message s message_id = remove_from num_priorities message_id 0 s

module _ (is_ready : ℕ → Option ℕ) where
  -- The inner loop: messages that are not ready go to the back, until one is or all were asked.
  unfoldable pub find_ready : ℕ → List ℕ → List ℕ × Option (ℕ × ℕ)
  find_ready zero q = (q, none)
  find_ready (suc rounds) [] = ([], none)
  find_ready (suc rounds) (mid ∷ rest) = elim (is_ready mid) [
    | some size ↦ (mid ∷ rest, some (mid, size))
    | none ↦ find_ready rounds (rest ++ mid ∷ [])
  ]

  -- `rotate_left(1)`
  abbrev pub rotate : List ℕ → List ℕ
  rotate [] = []
  rotate (x ∷ xs) = xs ++ x ∷ []

  -- The deficit of a level for this visit.
  unfoldable pub charge : PriorityScheduler → ℕ → PriorityScheduler
  charge s p =
      if get_or s.needs_quantum p false
      then record s {
        deficits = set s.deficits p (min (get_or s.deficits p 0 + get_or s.quantums p 0) 16384);
        needs_quantum = set s.needs_quantum p false;
      }
      else s

  -- The level goes to the back and gets a quantum on its next visit.
  unfoldable pub postpone : PriorityScheduler → ℕ → PriorityScheduler
  postpone s p = record s {
    active_levels = s.active_levels ++ p ∷ [];
    needs_quantum = set s.needs_quantum p true;
  }

  -- What becomes of the level once the inner loop has ended.
  unfoldable pub settle : PriorityScheduler → ℕ → Option (ℕ × ℕ) → PriorityScheduler × Option ℕ
  unfolding postpone
  settle s p none = (postpone s p, none)
  settle s p (some (mid, size)) =
      let deficit = get_or s.deficits p 0 in
      let paid = record s {
        deficits = set s.deficits p (deficit - size);
        active_queues = set s.active_queues p (rotate (queue s p));
      } in
      if leb size deficit
      then (
        (if ltb 0 (deficit - size)
            then record paid { active_levels = p ∷ paid.active_levels }
            else postpone paid p),
        some mid,
      )
      else (postpone s p, none)

  -- One turn, at the level `p` that was popped from the front.
  unfoldable pub turn : PriorityScheduler → ℕ → PriorityScheduler × Option ℕ
  unfolding charge find_ready settle
  turn s p = elim (queue s p) [
    | [] ↦ (
      record s { deficits = set s.deficits p 0; needs_quantum = set s.needs_quantum p true },
      none,
    )
    | mid ∷ rest ↦
        let s' = charge s p in
        let (q, found) = find_ready (length (mid ∷ rest)) (mid ∷ rest) in
        settle (record s' { active_queues = set s'.active_queues p q }) p found
  ]

  unfoldable pub turns : ℕ → PriorityScheduler → PriorityScheduler × Option ℕ
  unfolding turn
  turns zero s = (s, none)
  turns (suc rounds) s = elim s.active_levels [
    | [] ↦ (s, none)
    | p ∷ levels ↦
        let (s', sent) = turn (record s { active_levels = levels }) p in
        elim sent [ none ↦ turns rounds s' | some mid ↦ (s', some mid) ]
  ]

  unfoldable pub next_message : PriorityScheduler → PriorityScheduler × Option ℕ
  unfolding turns
  next_message s = turns (length s.active_levels) s
