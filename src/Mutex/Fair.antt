-- ===== src/Mutex/Fair.antt =====
-- `FairMutex` of server/src/utils/FairMutex.h and FairMutex.cpp. Its inner mutex makes each stretch
-- between two waits one step. `std::size_t` is taken as unbounded: 2 ^ 64 requests are out of reach.
use utbot_cpp.Base.{ℕ, ◌+◌, Bool, true, false, ◌≡◌, if◌then◌else◌, ◌==◌}
use mathlib.Core.Logic.{ite}
use native.Mathlib.Decide.{ℕ_discrete}

pub record Fair : Type 0 where
  pub next : ℕ
  pub curr : ℕ

abbrev pub initial : Fair
initial = record { next = 0; curr = 0 }

-- The start of `lock`, up to the `while`: the request drawn, and the new state.
unfoldable pub request : Fair → Fair × ℕ
request m = (record m { next = m.next + 1 }, m.next)

-- The test of the `while` in `lock`, made at once and again after each wake-up.
unfoldable pub may_enter : Fair → ℕ → Bool
may_enter m ticket = ticket == m.curr

-- `try_lock`.
unfoldable pub try_lock : Fair → Fair × Bool
try_lock m = if m.next == m.curr then (record m { next = m.next + 1 }, true) else (m, false)

-- The change of `curr` in `unlock`.
unfoldable pub unlock : Fair → Fair
unlock m = record m { curr = m.curr + 1 }

-- Where a thread stands: outside, blocked in `cv.wait` with its request, woken up with its test still
-- to be made, or between `lock` and `unlock`.
pub data Stage : Type 0 where
  outside : Stage
  waiting awake : (ticket : ℕ) → Stage
  inside : Stage

abbrev pub wake : Stage → Stage
wake outside = outside
wake (waiting ticket) = awake ticket
wake (awake ticket) = awake ticket
wake inside = inside

-- `cv.notify_all`: every thread that is blocked wakes up.
unfoldable pub notify_all : (ℕ → Stage) → ℕ → Stage
notify_all stage i = wake (stage i)

-- The `while` of `lock`: the thread enters, or blocks in `cv.wait`.
unfoldable pub test : Fair → ℕ → Stage
unfolding may_enter
test m ticket = if may_enter m ticket then inside else waiting ticket

abbrev pub update : (ℕ → Stage) → ℕ → Stage → ℕ → Stage
update f i s j = ite (ℕ_discrete i j) s (f j)

pub record System : Type 0 where
  pub mutex : Fair
  pub stage : ℕ → Stage

abbrev pub start_state : System
start_state = record { mutex = initial; stage = λ _. outside }

-- One step of one thread. A blocked thread may also wake up without a call, as the standard allows. Only
-- a thread inside calls `unlock`, as the standard asks of a lockable type.
pub data Step (s : System) : System → Type 0 where
  lock_call :
      (i : ℕ)
      → s.stage i ≡ outside
      → Step s (record {
        mutex = (request s.mutex).0;
        stage = update s.stage i (test (request s.mutex).0 (request s.mutex).1);
      })
  spurious_wake_up :
      (i ticket : ℕ)
      → s.stage i ≡ waiting ticket
      → Step s (record s { stage = update s.stage i (awake ticket) })
  test_again :
      (i ticket : ℕ)
      → s.stage i ≡ awake ticket
      → Step s (record s { stage = update s.stage i (test s.mutex ticket) })
  try_lock_call :
      (i : ℕ)
      → s.stage i ≡ outside
      → Step s (record {
        mutex = (try_lock s.mutex).0;
        stage = update s.stage i (if (try_lock s.mutex).1 then inside else outside);
      })
  unlock_call :
      (i : ℕ)
      → s.stage i ≡ inside
      → Step s (record { mutex = unlock s.mutex; stage = notify_all (update s.stage i outside) })

pub data Reach : System → Type 0 where
  begin : Reach start_state
  later : {s t : System} → Reach s → Step s t → Reach t
