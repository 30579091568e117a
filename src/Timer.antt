-- ===== src/Timer.antt =====
-- MLCommon/inc/TimerFramework/Timer.h, MLCommon/src/TimerFramework/Timer.cpp, TimerEntry.h and
-- ITimerEntry.h. `callback` names the function that the timer calls, `none` is a null one. Of the thread the model keeps
-- whether it exists, and whether it still waits on `_abortMutex` for the interval to pass.
use new_cpp.Prelude.{ℕ, Option, none, some, List, ◌∷◌, Bool, true, false, if◌then◌else◌}

-- `ITimerEntry`, as `TimerEntry` implements it from its template arguments.
pub record TimerEntry : Type 0 where
  pub duration : ℕ
  pub id : ℕ
  pub is_cyclic : Bool
  pub is_autostart : Bool

pub data Thread : Type 0 where
  no_thread : Thread
  -- In `try_lock_for`.
  sleeping : Thread
  -- `Run` has returned, and the thread waits to be joined.
  finished : Thread

pub record Timer : Type 0 where
  pub timer_id : ℕ
  pub cyclic : Bool
  pub interval : ℕ
  pub callback : Option ℕ
  pub is_running : Bool
  pub thread : Thread
  pub abort_locked : Bool

unfoldable pub new_timer : TimerEntry → Option ℕ → Timer
new_timer e callback = record {
  timer_id = e.id;
  cyclic = e.is_cyclic;
  interval = e.duration;
  callback = callback;
  is_running = false;
  thread = no_thread;
  abort_locked = false;
}

-- `try_lock` leaves the mutex locked, whether it was the timer that had it or not.
abbrev launch : Thread → Timer → Timer
launch no_thread t = record t { abort_locked = true; thread = sleeping }
launch _ t = t

-- `Start`.
unfoldable pub start : Timer → Timer
start t = if t.is_running then t else launch t.thread (record t { is_running = true })

-- `Stop` unlocks the mutex and joins the thread. One that still sleeps takes the mutex, sends
-- nothing, and ends with the mutex locked.
abbrev join : Thread → Timer → Timer
join sleeping t = record t { abort_locked = true; thread = no_thread }
join _ t = record t { thread = no_thread }

unfoldable pub stop : Timer → Timer
stop t = join t.thread (record t { is_running = false; abort_locked = false })

-- `InvokeCallback`, with the functions that were called before it.
unfoldable pub invoke_callback : Timer → List ℕ → List ℕ
invoke_callback t called = elim t.callback [ none ↦ called | some f ↦ f ∷ called ]

-- `Run` after the interval has passed with the mutex locked: it sends the callback event.
unfoldable pub time_out : Timer → Timer
time_out t = record t { thread = finished }
