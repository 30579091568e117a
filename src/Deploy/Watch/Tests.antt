-- ===== src/Deploy/Watch/Tests.antt =====
-- A file that is created, written and closed.
use new_cpp.Prelude.{
  ℕ, ◌≡◌, refl, true, false, Bool, some, List, [], ◌∷◌, arith, leb, if◌then◌else◌, Bool-cases, inl,
  inr,
}
use new_cpp.Prelude.Text.{codes}
use new_cpp.Deploy.Watch.{
  FolderMonitor, InotifyEvent, move_monitor, handle_incoming_events, parse_events, parse_event,
  new_file, change_file, handle_state_change, same_path, process_monitor, process_files, is_ready,
  not_touched_in, events_size,
}
use new_cpp.Deploy.Watch.Deaf.{Fits, handle_incoming_events-move_monitor}
use new_cpp.Deploy.Watch.Once.{Handed, process_monitor-Handed}

abbrev event : Bool → Bool → Bool → InotifyEvent
event created opened closed = record {
  ignored = false;
  created = created;
  deleted = false;
  opened = opened;
  closed = closed;
  name = codes "a.zip";
}

abbrev three_events : ℕ → List (ℕ × InotifyEvent)
three_events n =
    (1, event true false false) ∷ (2, event false true false) ∷ (3, event false false true) ∷ []

-- The three events take 63 bytes, and come if there is room for them.
abbrev waiting_events : ℕ → List (ℕ × InotifyEvent)
waiting_events n = if leb 63 n then three_events n else []

waiting_events-Fits : Fits waiting_events
unfolding events_size
waiting_events-Fits n = elim (Bool-cases (leb 63 n)) [
  | inl e ↦ rw e (ground arith)
  | inr e ↦ rw e (omega arith)
]

abbrev monitor : FolderMonitor
monitor = record {
  descriptor = some 3;
  file_ready_timeout = 2000;
  buffer_size = 64;
  watched_files = [];
}

abbrev watching : FolderMonitor
watching = record {
  descriptor = some 3;
  file_ready_timeout = 2000;
  buffer_size = 64;
  watched_files =
      record { consumed = false; last_access_time = 3; in_use = false; path = codes "a.zip" } ∷ [];
}

handle_incoming_events-watching : handle_incoming_events waiting_events monitor ≡ watching
unfolding handle_incoming_events parse_events parse_event new_file change_file handle_state_change
    same_path
handle_incoming_events-watching = refl

process_monitor-early : (process_monitor (λ i. 2000000000) watching).0 ≡ []
unfolding process_monitor process_files is_ready not_touched_in
process_monitor-early = refl

process_monitor-ready : (process_monitor (λ i. 2001000003) watching).0 ≡ codes "a.zip" ∷ []
unfolding process_monitor process_files is_ready not_touched_in
process_monitor-ready = refl

handle_incoming_events-move_monitor_example :
    handle_incoming_events waiting_events (move_monitor monitor) ≡ move_monitor monitor
handle_incoming_events-move_monitor_example =
    handle_incoming_events-move_monitor waiting_events monitor waiting_events-Fits

process_monitor-Handed_example : Handed (λ i. 2000000000) (λ i. 2001000003) watching
process_monitor-Handed_example = process_monitor-Handed (λ i. 2000000000) (λ i. 2001000003) watching
