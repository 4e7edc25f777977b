-- ===== src/Mutex/Safety.antt =====
-- The reachable states of threads that share one `FairMutex` of server/src/utils/FairMutex.cpp.
use utbot_cpp.Base.{
  ℕ, ◌≤◌, ◌<◌, true, ◌≡◌, ◌≢◌, ◌⊎◌, ◌↔◌, inl, inr, refl, if◌then◌else◌, ◌==◌, arith, Option, none,
  some, Bool-cases,
}
use utbot_cpp.Mutex.Fair.{
  Fair, request, may_enter, try_lock, unlock, notify_all, test, Stage, outside, waiting, awake,
  inside, update, System, start_state, Step, lock_call, spurious_wake_up, test_again, try_lock_call,
  unlock_call, Reach, begin, later,
}
use native.Mathlib.Decide.{dec_lt}

-- The request that a thread waits with, blocked or woken up.
abbrev pub ticket_of : Stage → Option ℕ
ticket_of outside = none
ticket_of (waiting ticket) = some ticket
ticket_of (awake ticket) = some ticket
ticket_of inside = none

-- The request that a thread holds: the one it waits with, or the one being served.
abbrev pub holds : Fair → Stage → Option ℕ
holds m outside = none
holds m (waiting ticket) = some ticket
holds m (awake ticket) = some ticket
holds m inside = some m.curr

pub record Inv (s : System) : Type 0 where
  pub ordered : s.mutex.curr ≤ s.mutex.next
  pub range :
      (i k : ℕ) → holds s.mutex (s.stage i) ≡ some k → (s.mutex.curr ≤ k) × (k < s.mutex.next)
  pub unique :
      (i j k : ℕ) → holds s.mutex (s.stage i) ≡ some k → holds s.mutex (s.stage j) ≡ some k → i ≡ j
  pub served :
      (k : ℕ) → s.mutex.curr ≤ k → k < s.mutex.next → (i : ℕ) × (holds s.mutex (s.stage i) ≡ some k)
  -- No thread is blocked with the request that is being served.
  pub notified : (i k : ℕ) → s.stage i ≡ waiting k → k ≢ s.mutex.curr

start_state-Inv : Inv start_state
start_state-Inv = record {
  ordered = omega arith;
  range = λ i k e. cc;
  unique = λ i j k e f. cc;
  served = λ k a b. absurd (omega arith);
  notified = λ i k e. cc;
}

module _ {s : System} (inv : Inv s) where
  open inv use {ordered, range, unique, served, notified}

  lock_call-Inv :
      (i : ℕ)
      → s.stage i ≡ outside
      → Inv (record {
        mutex = (request s.mutex).0;
        stage = update s.stage i (test (request s.mutex).0 (request s.mutex).1);
      })
  unfolding request test may_enter
  lock_call-Inv i e = record {
    ordered = omega arith;
    range = λ j k f. ground (arith, range j k);
    unique = λ a b k f g. ground (arith, range a k, range b k, unique a b k);
    served = λ k lo hi. elim (dec_lt k s.mutex.next) [
      | yes old ↦ let (j, held) = served k lo old in (j, ground arith)
      | no new ↦ (i, ground arith)
    ];
    notified = λ j k f. ground (arith, notified j k);
  }

  spurious_wake_up-Inv :
      (i ticket : ℕ)
      → s.stage i ≡ waiting ticket
      → Inv (record s { stage = update s.stage i (awake ticket) })
  spurious_wake_up-Inv i ticket e = record {
    ordered = ordered;
    range = λ j k f. ground (arith, range j k);
    unique = λ a b k f g. ground (arith, unique a b k);
    served = λ k lo hi. let (j, held) = served k lo hi in (j, ground arith);
    notified = λ j k f. ground (arith, notified j k);
  }

  test_again-Inv :
      (i ticket : ℕ)
      → s.stage i ≡ awake ticket
      → Inv (record s { stage = update s.stage i (test s.mutex ticket) })
  unfolding test may_enter
  test_again-Inv i ticket e = record {
    ordered = ordered;
    range = λ j k f. ground (arith, range j k);
    unique = λ a b k f g. ground (arith, unique a b k);
    served = λ k lo hi. let (j, held) = served k lo hi in (j, ground arith);
    notified = λ j k f. ground (arith, notified j k);
  }

  try_lock_call-Inv :
      (i : ℕ)
      → s.stage i ≡ outside
      → Inv (record {
        mutex = (try_lock s.mutex).0;
        stage = update s.stage i (if (try_lock s.mutex).1 then inside else outside);
      })
  unfolding try_lock
  try_lock_call-Inv i e = elim (Bool-cases (s.mutex.next == s.mutex.curr)) [
    | inl free ↦ record {
      ordered = ground arith;
      range = λ j k f. ground (arith, range j k);
      unique = λ a b k f g. ground (arith, range a k, range b k, unique a b k);
      served = λ k lo hi. (i, ground arith);
      notified = λ j k f. ground (arith, notified j k);
    }
    | inr busy ↦ record {
      ordered = ground arith;
      range = λ j k f. ground (arith, range j k);
      unique = λ a b k f g. ground (arith, unique a b k);
      served =
          λ k lo hi. let (j, held) = served k (ground arith) (ground arith) in (j, ground arith);
      notified = λ j k f. ground (arith, notified j k);
    }
  ]

  unlock_call-Inv :
      (i : ℕ)
      → s.stage i ≡ inside
      → Inv (record { mutex = unlock s.mutex; stage = notify_all (update s.stage i outside) })
  unfolding unlock notify_all
  unlock_call-Inv i e = record {
    ordered = ground (arith, range i s.mutex.curr);
    range = λ j k f. ground (arith, range j k, unique i j s.mutex.curr, range i s.mutex.curr);
    unique = λ a b k f g. ground (
      arith,
      unique a b k,
      unique i a s.mutex.curr,
      unique i b s.mutex.curr,
      unique a b s.mutex.curr,
    );
    served = λ k lo hi.
        let (j, held) = served k (omega arith) (omega arith) in
        (j, ground (arith, unique i j s.mutex.curr));
    notified = λ j k f. ground arith;
  }

-- Every step keeps the invariant.
pub Step-Inv : {s t : System} → Step s t → Inv s → Inv t
Step-Inv (lock_call i e) inv = lock_call-Inv inv i e
Step-Inv (spurious_wake_up i ticket e) inv = spurious_wake_up-Inv inv i ticket e
Step-Inv (test_again i ticket e) inv = test_again-Inv inv i ticket e
Step-Inv (try_lock_call i e) inv = try_lock_call-Inv inv i e
Step-Inv (unlock_call i e) inv = unlock_call-Inv inv i e

pub Reach-Inv : {s : System} → Reach s → Inv s
Reach-Inv begin = start_state-Inv
Reach-Inv (later r st) = Step-Inv st (Reach-Inv r)

-- In every reachable state at most one thread is between `lock` and `unlock`.
pub mutual_exclusion :
    (s : System) → Reach s → (i j : ℕ) → s.stage i ≡ inside → s.stage j ≡ inside → i ≡ j
mutual_exclusion s r i j e f = (Reach-Inv r).unique i j s.mutex.curr (ground arith) (ground arith)

-- A stage from which a thread must not enter while the request `k` waits.
abbrev pub IsBehind : ℕ → Stage → Type 0
IsBehind k outside = Unit
IsBehind k (waiting ticket) = k < ticket
IsBehind k (awake ticket) = k < ticket
IsBehind k inside = ⊥

stays_out :
    {s t : System}
    → Inv s
    → Step s t
    → (i k j : ℕ) (g : Stage) → ticket_of (s.stage i) ≡ some k
    → s.stage j ≡ g
    → IsBehind k g
    → t.stage j ≢ inside
unfolding request may_enter try_lock unlock notify_all test
stays_out inv st i k j inside e f h = absurd h
stays_out inv (lock_call a o) i k j outside e f h = ground (arith, inv.range i k)
stays_out inv (spurious_wake_up a ticket o) i k j outside e f h = ground arith
stays_out inv (test_again a ticket o) i k j outside e f h = ground arith
stays_out inv (try_lock_call a o) i k j outside e f h = ground (arith, inv.range i k)
stays_out inv (unlock_call a o) i k j outside e f h = ground arith
stays_out inv (lock_call a o) i k j (waiting l) e f h = ground arith
stays_out inv (spurious_wake_up a ticket o) i k j (waiting l) e f h = ground arith
stays_out inv (test_again a ticket o) i k j (waiting l) e f h = ground arith
stays_out inv (try_lock_call a o) i k j (waiting l) e f h = ground arith
stays_out inv (unlock_call a o) i k j (waiting l) e f h = ground arith
stays_out inv (lock_call a o) i k j (awake l) e f h = ground arith
stays_out inv (spurious_wake_up a ticket o) i k j (awake l) e f h = ground arith
stays_out inv (test_again a ticket o) i k j (awake l) e f h =
    ground (arith, inv.range i k, inv.range j l)
stays_out inv (try_lock_call a o) i k j (awake l) e f h = ground arith
stays_out inv (unlock_call a o) i k j (awake l) e f h = ground arith

-- The mutex is fair: from a reachable state in which a thread waits, no step lets a thread in that
-- is outside or waits with a later request.
pub first_come_first_served :
    (s t : System)
    → Reach s
    → Step s t
    → (i k j : ℕ) → ticket_of (s.stage i) ≡ some k
    → IsBehind k (s.stage j)
    → t.stage j ≢ inside
first_come_first_served s t r st i k j e h = stays_out (Reach-Inv r) st i k j (s.stage j) e refl h

-- No deadlock, and no wake-up is lost: in a reachable state in which a thread waits, some thread is
-- inside, or a thread that is awake, and so needs no further `notify_all`, passes its test.
pub no_deadlock :
    (s : System)
    → Reach s
    → (i k : ℕ) → ticket_of (s.stage i) ≡ some k
    → (j : ℕ) × ((s.stage j ≡ inside)
        ⊎ ((s.stage j ≡ awake s.mutex.curr) × (may_enter s.mutex s.mutex.curr ≡ true)))
unfolding may_enter
no_deadlock s r i k e =
    let (j, held) = served s.mutex.curr (omega arith) (ground (arith, range i k)) in
    (j, ground (arith, notified j s.mutex.curr))
  where
    open (Reach-Inv r) use {range, served, notified}

all_outside : {s : System} → Inv s → s.mutex.next ≡ s.mutex.curr → (i : ℕ) → s.stage i ≡ outside
all_outside {s} inv e i = ground (arith, holder i (s.stage i) refl)
  where
    holder : (i : ℕ) (g : Stage) → s.stage i ≡ g → g ≡ outside
    holder i outside f = refl
    holder i (waiting k) f = ground (arith, inv.range i k)
    holder i (awake k) f = ground (arith, inv.range i k)
    holder i inside f = ground (arith, inv.range i s.mutex.curr)

-- In a reachable state `try_lock` succeeds exactly when no thread is inside or waits.
pub try_lock_iff :
    (s : System) → Reach s → ((try_lock s.mutex).1 ≡ true) ↔ ((i : ℕ) → s.stage i ≡ outside)
unfolding try_lock
try_lock_iff s r = (
  λ e. all_outside (Reach-Inv r) (ground arith),
  λ out. elim (dec_lt s.mutex.curr s.mutex.next) [
    | yes busy ↦ let (i, held) = served s.mutex.curr (omega arith) busy in ground (arith, out i)
    | no free ↦ ground (arith, ordered)
  ],
)
  where
    open (Reach-Inv r) use {served, ordered}
