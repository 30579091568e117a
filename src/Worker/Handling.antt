-- ===== src/Worker/Handling.antt =====
-- What the handling of one event does to the timers, seen as a map from identifiers.
use new_cpp.Prelude.{
  ℕ, ◌≡◌, ◌≢◌, refl, ◌∙◌, not, ◌&&◌, Option, none, some, List, ◌∷◌, arith, ◌==◌, ==_iff,
  if◌then◌else◌, Bool-cases, Option-cases, inl, inr,
}
use new_cpp.Timer.{Timer, start, stop, invoke_callback}
use new_cpp.Worker.{
  Worker, Event, timer_callback, timer_start, timer_stop, message, get_timer, stop_timer,
  start_timer, handle_callback, handle,
}
use new_cpp.Worker.Table.{
  IsTable, get_timer-remove, get_timer-update, remove_timer-IsTable, update_timer-IsTable,
  get_timer-zero, add_timer-new, add_timer-zero,
}

-- What a timer becomes whose callback has been invoked.
abbrev pub restarted : Option Timer → Option Timer
restarted none = none
restarted (some t) = if t.cyclic then some (start (stop t)) else none

-- The timer of identifier `j` after an event, from the one before it.
abbrev pub after : Event → ℕ → Option Timer → Option Timer
after (timer_start t) j old = if (t.timer_id == j) && not (j == 0) then some (start t) else old
after (timer_stop id) j old = if id == j then none else old
after (timer_callback id) j old = if id == j then restarted old else old
after (message m) j old = old

-- A function that is called, if it is not null, before those called earlier.
abbrev pub called : Option ℕ → List ℕ → List ℕ
called none cs = cs
called (some f) cs = f ∷ cs

-- The callback that an event invokes.
abbrev pub invoked : Option Timer → List ℕ → List ℕ
invoked none cs = cs
invoked (some t) cs = called t.callback cs

abbrev pub callbacks_after : Event → List Timer → List ℕ → List ℕ
callbacks_after (timer_callback id) ts cs = invoked (get_timer id ts) cs
callbacks_after _ ts cs = cs

abbrev pub messages_after : Event → List ℕ → List ℕ
messages_after (message m) ms = m ∷ ms
messages_after _ ms = ms

-- A timer that leaves the list is stopped.
abbrev pub released : Option Timer → List Timer → List Timer
released none ds = ds
released (some t) ds = stop t ∷ ds

abbrev pub not_cyclic : Option Timer → Option Timer
not_cyclic none = none
not_cyclic (some t) = if t.cyclic then none else some t

-- The timers that nothing holds any more: those that left the list, stopped, and a new timer that
-- the list does not take, which runs.
abbrev pub dropped_after : Event → List Timer → List Timer → List Timer
dropped_after (timer_start t) ts ds =
    let gone = released (get_timer t.timer_id ts) ds in
    if t.timer_id == 0 then start t ∷ gone else gone
dropped_after (timer_stop id) ts ds = released (get_timer id ts) ds
dropped_after (timer_callback id) ts ds = released (not_cyclic (get_timer id ts)) ds
dropped_after (message m) ts ds = ds

start-id : (t : Timer) → (start t).timer_id ≡ t.timer_id
unfolding start
start-id t = ground arith

restart-id : (t : Timer) → (start (stop t)).timer_id ≡ t.timer_id
unfolding start stop
restart-id t = ground arith

pub get_timer-stop_timer :
    (i j : ℕ) (w : Worker)
    → IsTable w.timer_list
    → (get_timer j (stop_timer i w).timer_list
        ≡ (if i == j then none else get_timer j w.timer_list))
      × IsTable (stop_timer i w).timer_list
unfolding stop_timer
get_timer-stop_timer i j w h = elim (Option-cases (get_timer i w.timer_list)) [
  | inl e ↦ rw (e, stop_timer) (ground arith, h)
  | inr (t, e) ↦
      rw (e, stop_timer)
        (get_timer-remove i j w.timer_list h, remove_timer-IsTable i w.timer_list h)
]

get_timer-start_timer :
    (t : Timer) (j : ℕ) (w : Worker)
    → IsTable w.timer_list
    → (get_timer j (start_timer t w).timer_list
        ≡ after (timer_start t) j (get_timer j w.timer_list))
      × IsTable (start_timer t w).timer_list
unfolding start_timer
get_timer-start_timer t j w h = elim (Bool-cases (t.timer_id == 0)) [
  | inl e ↦
      let zero_id : t.timer_id ≡ 0 = (==_iff t.timer_id 0).0 e in
      let (stopped, table) = get_timer-stop_timer t.timer_id j w h in
      rw
        (
          add_timer-zero (start t) (stop_timer t.timer_id w).timer_list (start-id t ∙ zero_id),
          start_timer,
        )
        (ground (arith, stopped, get_timer-zero w.timer_list h), table)
  | inr e ↦
      let (stopped, table) = get_timer-stop_timer t.timer_id j w h in
      let free = (get_timer-stop_timer t.timer_id t.timer_id w h).0 in
      let (ts, added, table', look) =
        add_timer-new (start t) (stop_timer t.timer_id w).timer_list table
          (rw (start-id t) (ground (arith, free))) (rw (start-id t) (ground arith)) in
      rw (added, start_timer) (ground (arith, look j, stopped, start-id t), table')
]

get_timer-handle_callback :
    (i j : ℕ) (w : Worker)
    → IsTable w.timer_list
    → (get_timer j (handle_callback i w).timer_list
        ≡ after (timer_callback i) j (get_timer j w.timer_list))
      × IsTable (handle_callback i w).timer_list
unfolding handle_callback invoke_callback
get_timer-handle_callback i j w h = elim (Option-cases (get_timer i w.timer_list)) [
  | inl e ↦ rw (e, handle_callback) (ground arith, h)
  | inr (t, e) ↦ elim (Bool-cases t.cyclic) [
    | inl c ↦
        let f = λ (s : Timer). start (stop s) in
        rw (e, c, handle_callback)
          (
            ground (arith, get_timer-update i j f w.timer_list restart-id),
            update_timer-IsTable i f w.timer_list restart-id h,
          )
    | inr c ↦
        let w' = record w { callbacks = invoke_callback t w.callbacks } in
        let (stopped, table) = get_timer-stop_timer i j w' h in
        rw (e, c, handle_callback) (ground (arith, stopped), table)
  ]
]

start-callback : (t : Timer) → (start t).callback ≡ t.callback
unfolding start
start-callback t = ground arith

invoke_callback-called : (t : Timer) (cs : List ℕ) → invoke_callback t cs ≡ called t.callback cs
unfolding invoke_callback
invoke_callback-called t cs = elim (Option-cases t.callback) [
  | inl e ↦ ground (arith, e)
  | inr (f, e) ↦ ground (arith, e)
]

stop_timer-logs :
    (i : ℕ) (w : Worker)
    → ((stop_timer i w).callbacks ≡ w.callbacks) × ((stop_timer i w).messages ≡ w.messages)
unfolding stop_timer
stop_timer-logs i w = ground arith

handle-logs :
    (e : Event) (w : Worker)
    → ((handle e w).callbacks ≡ callbacks_after e w.timer_list w.callbacks)
      × ((handle e w).messages ≡ messages_after e w.messages)
unfolding handle start_timer handle_callback stop_timer
handle-logs (timer_callback id) w = elim (Option-cases (get_timer id w.timer_list)) [
  | inl e ↦ ground (arith, e)
  | inr (t, e) ↦ ground (arith, e, invoke_callback-called t w.callbacks)
]
handle-logs (timer_start t) w = ground (arith, stop_timer-logs t.timer_id w)
handle-logs (timer_stop id) w = stop_timer-logs id w
handle-logs (message m) w = (refl, refl)

stop_timer-dropped :
    (i : ℕ) (w : Worker) → (stop_timer i w).dropped ≡ released (get_timer i w.timer_list) w.dropped
unfolding stop_timer
stop_timer-dropped i w = elim (Option-cases (get_timer i w.timer_list)) [
  | inl e ↦ rw (e, stop_timer)
  | inr (t, e) ↦ rw (e, stop_timer)
]

start_timer-dropped :
    (t : Timer) (w : Worker)
    → IsTable w.timer_list
    → (start_timer t w).dropped ≡ dropped_after (timer_start t) w.timer_list w.dropped
unfolding start_timer
start_timer-dropped t w h = elim (Bool-cases (t.timer_id == 0)) [
  | inl e ↦
      let zero_id : t.timer_id ≡ 0 = (==_iff t.timer_id 0).0 e in
      rw (
        add_timer-zero (start t) (stop_timer t.timer_id w).timer_list (start-id t ∙ zero_id),
        start_timer,
        stop_timer-dropped t.timer_id w,
        e,
      )
  | inr e ↦
      let (free, table) = get_timer-stop_timer t.timer_id t.timer_id w h in
      let (ts, added, _, _) =
        add_timer-new (start t) (stop_timer t.timer_id w).timer_list table
          (rw (start-id t) (ground (arith, free))) (rw (start-id t) (ground arith)) in
      rw (added, start_timer, stop_timer-dropped t.timer_id w, e)
]

handle_callback-dropped :
    (i : ℕ) (w : Worker)
    → (handle_callback i w).dropped ≡ dropped_after (timer_callback i) w.timer_list w.dropped
unfolding handle_callback
handle_callback-dropped i w = elim (Option-cases (get_timer i w.timer_list)) [
  | inl e ↦ rw (e, handle_callback)
  | inr (t, e) ↦ elim (Bool-cases t.cyclic) [
    | inl c ↦ rw (e, c, handle_callback)
    | inr c ↦
        let w' = record w { callbacks = invoke_callback t w.callbacks } in
        let one = stop_timer-dropped i w' in ground (arith, e, c, one)
  ]
]

handle-dropped :
    (e : Event) (w : Worker)
    → IsTable w.timer_list
    → (handle e w).dropped ≡ dropped_after e w.timer_list w.dropped
unfolding handle
handle-dropped (timer_callback id) w h = handle_callback-dropped id w
handle-dropped (timer_start t) w h = start_timer-dropped t w h
handle-dropped (timer_stop id) w h = stop_timer-dropped id w
handle-dropped (message m) w h = refl

pub handle-queue : (e : Event) (w : Worker) → (handle e w).queue ≡ w.queue
unfolding handle start_timer handle_callback stop_timer
handle-queue (timer_callback id) w = ground arith
handle-queue (timer_start t) w = ground arith
handle-queue (timer_stop id) w = ground arith
handle-queue (message m) w = refl

-- What the worker does with one event, where each identifier stands once in its list: it starts,
-- stops or restarts the timer of the event's identifier and no other; each timer that leaves the list
-- is stopped, and no other timer is let go but a new one of identifier 0, which is started and not
-- taken into the list; it invokes the callback of the timer that a callback event names, if there is
-- one, and no other; it hands a message to `HandleMessage`; and each identifier still stands once.
pub handle-after :
    (e : Event) (j : ℕ) (w : Worker)
    → IsTable w.timer_list
    → (get_timer j (handle e w).timer_list ≡ after e j (get_timer j w.timer_list))
      × IsTable (handle e w).timer_list
      × ((handle e w).callbacks ≡ callbacks_after e w.timer_list w.callbacks)
      × ((handle e w).messages ≡ messages_after e w.messages)
      × ((handle e w).dropped ≡ dropped_after e w.timer_list w.dropped)
unfolding handle
handle-after (timer_callback id) j w h =
    let (look, table) = get_timer-handle_callback id j w h in
    let (calls, handled) = handle-logs (timer_callback id) w in
    (look, table, calls, handled, handle-dropped (timer_callback id) w h)
handle-after (timer_start t) j w h =
    let (look, table) = get_timer-start_timer t j w h in
    let (calls, handled) = handle-logs (timer_start t) w in
    (look, table, calls, handled, handle-dropped (timer_start t) w h)
handle-after (timer_stop id) j w h =
    let (look, table) = get_timer-stop_timer id j w h in
    let (calls, handled) = handle-logs (timer_stop id) w in
    (look, table, calls, handled, handle-dropped (timer_stop id) w h)
handle-after (message m) j w h = (refl, h, refl, refl, refl)

-- A callback event that a timer sent before it was stopped, but that is handled after another
-- timer of the same identifier was started, invokes the callback of the new timer at once, if that
-- is not null, although no interval of it has passed.
pub handle-stale_callback :
    (t : Timer) (w : Worker)
    → IsTable w.timer_list
    → t.timer_id ≢ 0
    → (handle
        (timer_callback t.timer_id)
        (handle (timer_start t) (handle (timer_stop t.timer_id) w))).callbacks
      ≡ called t.callback w.callbacks
handle-stale_callback t w h ne =
    let id = t.timer_id in
    let w₁ = handle (timer_stop id) w in
    let (_, table₁, same₁, _, _) = handle-after (timer_stop id) id w h in
    let (look₂, _, same₂, _, _) = handle-after (timer_start t) id w₁ table₁ in
    let invoke = (handle-logs (timer_callback id) (handle (timer_start t) w₁)).0 in
    invoke ∙ ground (arith, look₂, same₁, same₂, start-callback t)
