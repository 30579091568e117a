-- ===== src/Worker/Shutdown.antt =====
-- What a request to stop does to a worker that waits.
use new_cpp.Prelude.{◌≡◌, [], arith}
use new_cpp.Worker.{Worker, waiting, Own, see_stop, go_on, take_event, ask_stop, request_stop}

-- A run with no event sent, by a client or a timer.
pub data Owns : Worker → Worker → Type 0 where
  start_of : {w : Worker} → Owns w w
  then_own : {v w w' : Worker} → Owns v w → Own w w' → Owns v w'

-- The thread sleeps on an empty queue.
pub record IsAsleep (w : Worker) : Type 0 where
  pub in_wait : w.phase ≡ waiting
  pub empty : w.queue ≡ []

Own-IsAsleep : {w w' : Worker} → Own w w' → IsAsleep w → IsAsleep w'
unfolding request_stop
Own-IsAsleep (see_stop w e s) h = ground arith
Own-IsAsleep (go_on w e s) h = ground arith
Own-IsAsleep (take_event w e q p f) h = ground arith
Own-IsAsleep (ask_stop w) h = ground arith

-- A thread that waits on an empty queue never ends unless an event is sent: a request to stop,
-- made before or after, does not wake it. So `StopWithJoin` does not return then.
pub Owns-IsAsleep : {w w' : Worker} → IsAsleep w → Owns w w' → IsAsleep w'
Owns-IsAsleep h start_of = h
Owns-IsAsleep h (then_own run last) = Own-IsAsleep last (Owns-IsAsleep h run)
