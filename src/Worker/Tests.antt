-- ===== src/Worker/Tests.antt =====
-- The worker at concrete events.
use new_cpp.Prelude.{◌≡◌, ◌≢◌, refl, true, false, some, [], ◌∷◌, arith}
use new_cpp.Timer.{Timer, no_thread, new_timer, start, invoke_callback}
use new_cpp.Worker.{
  Worker, timer_callback, timer_start, timer_stop, message, new, start_worker, handle,
  handle_callback, start_timer, stop_timer, get_timer, send_event, send, restart, here, next,
  ask_stop, waiting, request_stop,
}
use new_cpp.Worker.Table.{IsTable}
use new_cpp.Worker.Handling.{
  after, called, callbacks_after, messages_after, dropped_after, handle-after,
  handle-stale_callback,
}
use new_cpp.Worker.Shutdown.{start_of, then_own, IsAsleep, Owns-IsAsleep}
use new_cpp.Worker.Alarms.{Inv, start_worker-Inv, Steps-Inv}

abbrev once : Timer
once =
    new_timer (record { duration = 500; id = 7; is_cyclic = false; is_autostart = false }) (some 40)

abbrev cyclic : Timer
cyclic =
    new_timer (record { duration = 200; id = 8; is_cyclic = true; is_autostart = false }) (some 41)

-- One timer of each kind, both running.
abbrev running : Worker
running = record new { phase = waiting; timer_list = start once ∷ start cyclic ∷ [] }

running-IsTable : IsTable running.timer_list
unfolding new start new_timer get_timer
running-IsTable = (refl, omega arith, (refl, omega arith, tt))

handle-cyclic : (handle (timer_callback 8) running).callbacks ≡ 41 ∷ []
unfolding handle handle_callback invoke_callback start_timer stop_timer get_timer new start
    new_timer
handle-cyclic = refl

handle-after_example :
    (get_timer 7 (handle (timer_callback 7) running).timer_list
      ≡ after (timer_callback 7) 7 (get_timer 7 running.timer_list))
    × IsTable (handle (timer_callback 7) running).timer_list
    × ((handle (timer_callback 7) running).callbacks
        ≡ callbacks_after (timer_callback 7) running.timer_list running.callbacks)
    × ((handle (timer_callback 7) running).messages
        ≡ messages_after (timer_callback 7) running.messages)
    × ((handle (timer_callback 7) running).dropped
        ≡ dropped_after (timer_callback 7) running.timer_list running.dropped)
handle-after_example = handle-after (timer_callback 7) 7 running running-IsTable

abbrev again : Timer
again = record once { callback = some 50 }

again_id : again.timer_id ≢ 0
unfolding new_timer
again_id = omega arith

handle-stale_callback_example :
    (handle
      (timer_callback again.timer_id)
      (handle (timer_start again) (handle (timer_stop again.timer_id) running))).callbacks
    ≡ called again.callback running.callbacks
handle-stale_callback_example = handle-stale_callback again running running-IsTable again_id

abbrev asleep : Worker
asleep = record new { phase = waiting }

asleep-IsAsleep : IsAsleep asleep
unfolding new
asleep-IsAsleep = record { in_wait = refl; empty = refl }

Owns-IsAsleep_example : IsAsleep (request_stop asleep)
Owns-IsAsleep_example = Owns-IsAsleep asleep-IsAsleep (then_own start_of (ask_stop asleep))

abbrev started : Worker
started = (start_worker new).0

once-IsFresh : (once.is_running ≡ false) × (once.thread ≡ no_thread)
unfolding new_timer
once-IsFresh = (refl, refl)

abbrev busy : Worker
busy = send_event (message 3) (send_event (timer_start once) started)

Steps-Inv_example : Inv (start_worker busy).0
Steps-Inv_example = Steps-Inv start_worker-Inv (
    next
      (next (next here (send started (timer_start once) once-IsFresh))
        (send (send_event (timer_start once) started) (message 3) tt))
      (restart busy))
