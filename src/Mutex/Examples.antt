-- ===== src/Mutex/Examples.antt =====
-- Two threads: the first is inside, the second waits, and wakes up when the first leaves.
use utbot_cpp.Base.{ℕ, true, ◌≡◌, ◌≢◌, ◌⊎◌, ◌↔◌, refl, arith, if◌then◌else◌, some}
use utbot_cpp.Mutex.Fair.{
  System, request, may_enter, try_lock, unlock, notify_all, test, outside, waiting, awake, inside,
  update, start_state, lock_call, try_lock_call, unlock_call, Reach, begin, later,
}
use utbot_cpp.Mutex.Safety.{
  ticket_of, IsBehind, mutual_exclusion, first_come_first_served, no_deadlock, try_lock_iff,
}

abbrev first_inside : System
first_inside = record {
  mutex = (request start_state.mutex).0;
  stage =
      update start_state.stage 1 (test (request start_state.mutex).0 (request start_state.mutex).1);
}

abbrev second_drawn : System
second_drawn = record {
  mutex = (request first_inside.mutex).0;
  stage =
      update first_inside.stage 2
        (test (request first_inside.mutex).0 (request first_inside.mutex).1);
}

second_outside : first_inside.stage 2 ≡ outside
second_outside = ground arith

second_drawn-Reach : Reach second_drawn
second_drawn-Reach = later (later begin (lock_call 1 refl)) (lock_call 2 second_outside)

second_waits : second_drawn.stage 2 ≡ waiting 1
unfolding request test may_enter
second_waits = ground arith

first_is_inside : second_drawn.stage 1 ≡ inside
unfolding request test may_enter
first_is_inside = ground arith

third_outside : second_drawn.stage 3 ≡ outside
third_outside = ground arith

third_IsBehind : IsBehind 1 (second_drawn.stage 3)
third_IsBehind = rw third_outside tt

second_ticket : ticket_of (second_drawn.stage 2) ≡ some 1
second_ticket = rw second_waits refl

mutual_exclusion_example : ◌≡◌ {A = ℕ} 1 1
mutual_exclusion_example =
    mutual_exclusion second_drawn second_drawn-Reach 1 1 first_is_inside first_is_inside

abbrev third_tries : System
third_tries = record {
  mutex = (try_lock second_drawn.mutex).0;
  stage = update second_drawn.stage 3 (if (try_lock second_drawn.mutex).1 then inside else outside);
}

first_come_first_served_example : third_tries.stage 3 ≢ inside
first_come_first_served_example =
    first_come_first_served second_drawn third_tries second_drawn-Reach
      (try_lock_call 3 third_outside) 2 1 3 second_ticket third_IsBehind

abbrev first_left : System
first_left = record {
  mutex = unlock second_drawn.mutex;
  stage = notify_all (update second_drawn.stage 1 outside);
}

first_left-Reach : Reach first_left
first_left-Reach = later second_drawn-Reach (unlock_call 1 first_is_inside)

second_wakes : first_left.stage 2 ≡ awake 1
unfolding notify_all
second_wakes = ground (arith, second_waits)

no_deadlock_example :
    (j : ℕ) × ((first_left.stage j ≡ inside)
      ⊎ ((first_left.stage j ≡ awake first_left.mutex.curr)
          × (may_enter first_left.mutex first_left.mutex.curr ≡ true)))
no_deadlock_example = no_deadlock first_left first_left-Reach 2 1 (rw second_wakes refl)

try_lock_iff_example :
    ((try_lock second_drawn.mutex).1 ≡ true) ↔ ((i : ℕ) → second_drawn.stage i ≡ outside)
try_lock_iff_example = try_lock_iff second_drawn second_drawn-Reach
