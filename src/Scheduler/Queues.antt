-- ===== src/Scheduler/Queues.antt =====
-- Which messages stand in which queue of tox-sequenced/src/scheduler.rs, after a message is put in
-- and after it is taken out.
use rs_toxcore_c.Prelude.{
  contains-append, ℕ, zero, suc, ◌+◌, ◌<◌, ◌≡◌, refl, ap, min, true, false, not, ◌&&◌, ◌||◌, List,
  [], ◌∷◌, ◌++◌, ◌==◌, ltb, leb, if◌then◌else◌, length, get_or, set, contains, arith, inl, inr,
  lt-or-le, Bool-cases, ==_iff, get_or-set_self, get_or-set_ne, get_or_beyond, length-set,
}
use rs_toxcore_c.Scheduler.{
  PriorityScheduler, num_priorities, queue, without, place, activate, update_message, remove_at,
  remove_from, remove_message,
}

pub contains-without :
    (id : ℕ) (xs : List ℕ) (a : ℕ) → contains (without id xs) a ≡ (not (id == a) && contains xs a)
unfolding contains without
contains-without id [] a = ground arith
contains-without id (x ∷ xs) a = ground (arith, contains-without id xs a)

-- Naming a member again adds nothing.
contains_again :
    (id : ℕ) (q : List ℕ) (a : ℕ)
    → contains q id ≡ true
    → contains q a ≡ ((id == a) || contains q a)
contains_again id q a there = elim (Bool-cases (id == a)) [
  | inl e ↦ ground (arith, ap (contains q) ((==_iff id a).0 e))
  | inr e ↦ rw e
]

pub contains_one : (x a : ℕ) → contains (x ∷ []) a ≡ (x == a)
unfolding contains
contains_one x a = ground arith

contains-push :
    (id : ℕ) (q : List ℕ) (a : ℕ)
    → contains (if contains q id then q else q ++ id ∷ []) a ≡ ((id == a) || contains q a)
contains-push id q a = elim (Bool-cases (contains q id)) [
  | inl there ↦ rw there (contains_again id q a there)
  | inr absent ↦ rw (absent, contains-append q (id ∷ []) a) (ground (arith, contains_one id a))
]

-- The queues from level `k` on: message `id` stands in that of level `p` and in no other.
contains-place :
    (id p k : ℕ) (qs : List (List ℕ)) (i a : ℕ)
    → contains (get_or (place id p k qs) i []) a
      ≡ (if id == a then (k + i == p) && ltb i (length qs) else contains (get_or qs i []) a)
unfolding place contains
contains-place id p k [] i a = ground arith
contains-place id p k (q ∷ qs) zero a =
    ground (arith, contains-push id q a, contains-without id q a)
contains-place id p k (q ∷ qs) (suc i) a = ground (arith, contains-place id p (suc k) qs i a)

activate_queues : (s : PriorityScheduler) (p : ℕ) → (activate s p).active_queues ≡ s.active_queues
unfolding activate
activate_queues s p = ground arith

activate_levels :
    (s : PriorityScheduler) (p l : ℕ)
    → contains (activate s p).active_levels l ≡ ((p == l) || contains s.active_levels l)
unfolding activate
activate_levels s p l = elim (Bool-cases (contains s.active_levels p)) [
  | inl there ↦ rw there (contains_again p s.active_levels l there)
  | inr absent ↦
      rw absent
        (ground (arith, contains-append s.active_levels (p ∷ []) l, contains_one p l, front l))
]
  where
    front : (l : ℕ) → contains (p ∷ s.active_levels) l ≡ ((p == l) || contains s.active_levels l)
    front l = unfold contains in refl

-- After `update_message` the message stands in the queue of its level, at most the lowest, and in
-- no other; that level is active, and the other messages and levels are as before. There
-- must be five queues.
pub update_message_lem :
    (s : PriorityScheduler) (id priority : ℕ)
    → length s.active_queues ≡ num_priorities
    → let s' = update_message s id priority in
      let p = min priority 4 in
      ((i a : ℕ) → contains (queue s' i) a ≡ (if id == a then i == p else contains (queue s i) a))
      × ((l : ℕ) → contains s'.active_levels l ≡ ((p == l) || contains s.active_levels l))
unfolding update_message
update_message_lem s id priority h = (
  λ i a. ground (
    arith,
    activate_queues s (min priority 4),
    contains-place id (min priority 4) 0 (activate s (min priority 4)).active_queues i a,
  ),
  λ l. activate_levels s (min priority 4) l,
)

contains_none : (a : ℕ) → contains [] a ≡ false
unfolding contains
contains_none a = refl

-- One level of `remove_message`.
remove_at-queue :
    (id : ℕ) (s : PriorityScheduler) (p i a : ℕ)
    → contains (queue (remove_at id s p) i) a
      ≡ (if p == i then not (id == a) && contains (queue s i) a else contains (queue s i) a)
unfolding remove_at
remove_at-queue id s p i a = elim (Bool-cases (p == i)) [
  | inl e ↦
      let e' : p ≡ i = (==_iff p i).0 e in
      elim (lt-or-le p (length s.active_queues)) [
        | inl inside ↦ ground (
          arith,
          e',
          contains-without id (queue s p) a,
          get_or-set_self s.active_queues p (without id (queue s p)) [] inside,
        )
        | inr beyond ↦ ground (
          arith,
          e',
          get_or_beyond (set s.active_queues p (without id (queue s p))) p []
              (omega (arith, length-set s.active_queues p (without id (queue s p)))),
          get_or_beyond s.active_queues p [] beyond,
          contains_none a,
        )
      ]
  | inr e ↦
      ground
        (arith, get_or-set_ne s.active_queues p i (without id (queue s p)) [] (λ q. ground arith))
]

remove_from-queue :
    (rounds id p : ℕ) (s : PriorityScheduler) (i a : ℕ)
    → contains (queue (remove_from rounds id p s) i) a ≡ (
        if leb p i && ltb i (p + rounds)
        then not (id == a) && contains (queue s i) a
        else contains (queue s i) a)
unfolding remove_from
remove_from-queue zero id p s i a = ground arith
remove_from-queue (suc rounds) id p s i a =
    ground (
      arith,
      remove_from-queue rounds id (suc p) (remove_at id s p) i a,
      remove_at-queue id s p i a,
    )

-- After `remove_message` the message stands in no queue, and the others stand where they stood,
-- in each of the five queues.
pub remove_message_lem :
    (s : PriorityScheduler) (id i a : ℕ)
    → i < num_priorities
    → contains (queue (remove_message s id) i) a ≡ (not (id == a) && contains (queue s i) a)
unfolding remove_message
remove_message_lem s id i a h = ground (arith, remove_from-queue num_priorities id 0 s i a)
