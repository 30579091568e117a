-- ===== src/Deploy/Watch/Deaf.antt =====
-- What a monitor hears after a move.
use new_cpp.Prelude.{ℕ, ◌≡◌, refl, ◌≤◌, ◌<◌, List, [], ◌∷◌, arith}
use new_cpp.Deploy.Watch.{
  FolderMonitor, InotifyEvent, move_monitor, handle_incoming_events, events_size, parse_events,
  header_size,
}

-- What `read` gives fits into the size that is asked for.
abbrev pub Fits : (ℕ → List (ℕ × InotifyEvent)) → Type 0
Fits read = (n : ℕ) → events_size (read n) ≤ n

no_events : (es : List (ℕ × InotifyEvent)) → events_size es < header_size → es ≡ []
unfolding events_size
no_events [] h = refl
no_events (e ∷ es) h = absurd (omega arith)

-- With any `read` that stays within the buffer: a monitor that was moved, as main.cpp moves it into
-- its observable, learns nothing from any event.
pub handle_incoming_events-move_monitor :
    (read : ℕ → List (ℕ × InotifyEvent)) (m : FolderMonitor)
    → Fits read
    → handle_incoming_events read (move_monitor m) ≡ move_monitor m
unfolding handle_incoming_events move_monitor parse_events
handle_incoming_events-move_monitor read m law =
    let fits = law 0 in rw (no_events (read 0) (omega arith))
