-- ===== src/Worker.antt =====
-- MLCommon/inc/TimerFramework/Worker.h and MLCommon/src/TimerFramework/Worker.cpp: a thread with a
-- queue of events and a list of timers. An event is a value: a `Timer` travels in the queue as the
-- event that starts it. `callbacks`, `messages` and `dropped` record, latest first, the callbacks
-- that were invoked, the messages that were handled, and the timers that are no longer held by
-- anything and were not deleted.
use new_cpp.Prelude.{
  ℕ, Bool, true, false, Option, none, some, List, [], ◌∷◌, ◌++◌, ◌==◌, if◌then◌else◌, ◌≡◌,
}
use new_cpp.Timer.{
  Timer, TimerEntry, new_timer, start, stop, time_out, invoke_callback, sleeping, no_thread,
}
mod Table
pub mod Handling
pub mod Shutdown
pub mod Alarms
mod Tests

-- `EventType`, with what the event of each type carries.
pub data Event : Type 0 where
  timer_callback : ℕ → Event
  timer_start : Timer → Event
  timer_stop : ℕ → Event
  message : ℕ → Event

-- Where the thread stands in `DefaultEventDispatcher`.
pub data Phase : Type 0 where
  -- There is no thread.
  off : Phase
  -- At the test of `StopRequested`.
  testing : Phase
  -- Behind it: `_Cv.wait` while the queue is empty.
  waiting : Phase
  ended : Phase

pub record Worker : Type 0 where
  pub stop_requested : Bool
  pub phase : Phase
  pub queue : List Event
  pub timer_list : List Timer
  pub callbacks : List ℕ
  pub messages : List ℕ
  pub dropped : List Timer

abbrev pub has_thread : Phase → Bool
has_thread off = false
has_thread _ = true

unfoldable pub new : Worker
new = record {
  stop_requested = false;
  phase = off;
  queue = [];
  timer_list = [];
  callbacks = [];
  messages = [];
  dropped = [];
}

-- `Worker::Start`.
unfoldable pub start_worker : Worker → Worker × Bool
start_worker w =
    let w' = record w { stop_requested = false } in
    if has_thread w.phase then (w', false) else (record w' { phase = testing }, true)

unfoldable pub request_stop : Worker → Worker
request_stop w = record w { stop_requested = true }

-- `SendEvent`: without a thread the event is lost.
unfoldable pub send_event : Event → Worker → Worker
send_event e w = if has_thread w.phase then record w { queue = w.queue ++ e ∷ [] } else w

-- The public `StartTimer` and `StopTimer`, which send an event.
unfoldable pub post_start_timer : TimerEntry → Option ℕ → Worker → Worker
post_start_timer entry callback w = send_event (timer_start (new_timer entry callback)) w

unfoldable pub post_stop_timer : TimerEntry → Worker → Worker
post_stop_timer entry w = send_event (timer_stop entry.id) w

-- `GetTimer`.
unfoldable pub get_timer : ℕ → List Timer → Option Timer
get_timer id [] = none
get_timer id (t ∷ ts) = if t.timer_id == id then some t else get_timer id ts

-- `AddTimer`, on the list: an identifier that is 0 or taken is refused.
unfoldable pub add_timer : Timer → List Timer → List Timer × Bool
add_timer t ts =
    if t.timer_id == 0
    then (ts, false)
    else elim (get_timer t.timer_id ts) [ none ↦ (ts ++ t ∷ [], true) | some other ↦ (ts, false) ]

-- `RemoveTimer`.
unfoldable pub remove_timer : ℕ → List Timer → List Timer
remove_timer id [] = []
remove_timer id (t ∷ ts) = if t.timer_id == id then ts else t ∷ remove_timer id ts

-- A change made to the timer that `GetTimer` returns.
unfoldable pub update_timer : ℕ → (Timer → Timer) → List Timer → List Timer
update_timer id f [] = []
update_timer id f (t ∷ ts) = if t.timer_id == id then f t ∷ ts else t ∷ update_timer id f ts

-- The private `StopTimer`. Nothing deletes the timer that it takes out of the list.
unfoldable pub stop_timer : ℕ → Worker → Worker
stop_timer id w = elim (get_timer id w.timer_list) [
  | none ↦ w
  | some t ↦ record w { timer_list = remove_timer id w.timer_list; dropped = stop t ∷ w.dropped }
]

-- The private `StartTimer`: a timer of the same identifier is stopped first. The new timer is
-- started also where `AddTimer` refuses it.
unfoldable pub start_timer : Timer → Worker → Worker
start_timer t w =
    let w' = stop_timer t.timer_id w in
    let (ts, added) = add_timer (start t) w'.timer_list in
    if added then record w' { timer_list = ts } else record w' { dropped = start t ∷ w'.dropped }

-- `HandleCallback`.
unfoldable pub handle_callback : ℕ → Worker → Worker
handle_callback id w = elim (get_timer id w.timer_list) [
  | none ↦ w
  | some t ↦
      let w' = record w { callbacks = invoke_callback t w.callbacks } in
      if t.cyclic
      then record w' { timer_list = update_timer id (λ s. start (stop s)) w.timer_list }
      else stop_timer id w'
]

-- The `switch` of `DefaultEventDispatcher`.
unfoldable pub handle : Event → Worker → Worker
handle (timer_start t) w = start_timer t w
handle (timer_stop id) w = stop_timer id w
handle (timer_callback id) w = handle_callback id w
handle (message m) w = record w { messages = m ∷ w.messages }

-- What happens with no event sent: the steps of the worker's thread, and a request to stop.
pub data Own : Worker → Worker → Type 0 where
  see_stop :
      (w : Worker)
      → w.phase ≡ testing
      → w.stop_requested ≡ true
      → Own w (record w { phase = ended })
  go_on :
      (w : Worker)
      → w.phase ≡ testing
      → w.stop_requested ≡ false
      → Own w (record w { phase = waiting })
  take_event :
      (w : Worker) (e : Event) (q : List Event)
      → w.phase ≡ waiting
      → w.queue ≡ e ∷ q
      → Own w (record (handle e (record w { queue = q })) { phase = testing })
  ask_stop : (w : Worker) → Own w (request_stop w)

-- The timer of an event that starts it is new.
abbrev pub IsFresh : Event → Type 0
IsFresh (timer_start t) = (t.is_running ≡ false) × (t.thread ≡ no_thread)
IsFresh _ = Unit {0}

-- What can happen until `Stop` or `StopWithJoin` takes the thread away: clients send events, call
-- `Start` or `RemoveTimer`, or give a timer that is running to `AddTimer`, and the intervals of
-- sleeping timers pass.
pub data Step : Worker → Worker → Type 0 where
  own : {w w' : Worker} → Own w w' → Step w w'
  send : (w : Worker) (e : Event) → IsFresh e → Step w (send_event e w)
  restart : (w : Worker) → Step w (start_worker w).0
  remove : (w : Worker) (id : ℕ) → Step w (record w { timer_list = remove_timer id w.timer_list })
  add :
      (w : Worker) (t : Timer)
      → t.is_running ≡ true
      → t.thread ≡ sleeping
      → Step w (record w { timer_list = (add_timer t w.timer_list).0 })
  expire :
      (w : Worker) (t : Timer)
      → get_timer t.timer_id w.timer_list ≡ some t
      → t.thread ≡ sleeping
      → Step w (
          send_event
            (timer_callback t.timer_id)
            (record w { timer_list = update_timer t.timer_id time_out w.timer_list }))

pub data Steps : Worker → Worker → Type 0 where
  here : {w : Worker} → Steps w w
  next : {v w w' : Worker} → Steps v w → Step w w' → Steps v w'
