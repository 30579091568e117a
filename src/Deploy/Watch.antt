-- ===== src/Deploy/Watch.antt =====
-- DeploymentAgent/src/folder_monitor.h: the files of a folder, watched until they are ready.
-- Times are in nanoseconds. An event has, for each bit of the mask that the code tests, if it is
-- set, and its name with the padding; the bytes of the buffer are read as events.
use new_cpp.Prelude.{
  ℕ, suc, ◌+◌, ◌-◌, ◌*◌, ◌/◌, Bool, true, false, not, ◌&&◌, Option, none, some, List, [], ◌∷◌, ◌++◌,
  ltb, length, ◌==◌, if◌then◌else◌,
}
mod Once
mod Deaf
mod Tests

pub record WatchedFile : Type 0 where
  pub consumed : Bool
  pub last_access_time : ℕ
  pub in_use : Bool
  pub path : List ℕ

pub record InotifyEvent : Type 0 where
  pub ignored : Bool
  pub created : Bool
  pub deleted : Bool
  pub opened : Bool
  pub closed : Bool
  pub name : List ℕ

-- `sizeof(inotify_event)`, `EVENT_BUFF_SIZE` and `FILE_READY_TIMEOUT`.
abbrev pub header_size : ℕ
header_size = 16

abbrev pub event_buff_size : ℕ
event_buff_size = header_size * 4

abbrev pub default_ready_timeout : ℕ
default_ready_timeout = 2 * 1000

-- The monitor; of its buffer, the size.
pub record FolderMonitor : Type 0 where
  pub descriptor : Option ℕ
  pub file_ready_timeout : ℕ
  pub buffer_size : ℕ
  pub watched_files : List WatchedFile

-- The constructor, with the results of `inotify_init1` and `inotify_add_watch`; `none` if it throws.
unfoldable pub new_monitor : Option ℕ → Bool → Option FolderMonitor
new_monitor none watched = none
new_monitor (some fd) watched =
    if not watched
    then none
    else some record {
      descriptor = some fd;
      file_ready_timeout = default_ready_timeout;
      buffer_size = event_buff_size;
      watched_files = [];
    }

-- The move constructor: the new monitor. The members that its list does not name begin with their
-- default values, and two of these are then swapped with the other monitor's.
unfoldable pub move_monitor : FolderMonitor → FolderMonitor
move_monitor other = record {
  descriptor = other.descriptor;
  file_ready_timeout = other.file_ready_timeout;
  buffer_size = 0;
  watched_files = other.watched_files;
}

-- `WatchedFile{path}`, at a time.
unfoldable pub new_file : ℕ → List ℕ → WatchedFile
new_file now path = record { consumed = false; last_access_time = now; in_use = false; path = path }

unfoldable pub not_touched_in : ℕ → ℕ → WatchedFile → Bool
not_touched_in now unused_time f = ltb unused_time ((now - f.last_access_time) / 1000000)

-- `WatchedFile::handleStateChange`.
unfoldable pub handle_state_change : ℕ → InotifyEvent → WatchedFile → WatchedFile
handle_state_change now e f =
    if e.opened
    then record f { last_access_time = now; in_use = true }
    else if e.closed
    then record f { last_access_time = now; in_use = false }
    else record f { last_access_time = now }

unfoldable pub same_path : List ℕ → List ℕ → Bool
same_path [] [] = true
same_path [] (y ∷ ys) = false
same_path (x ∷ xs) [] = false
same_path (x ∷ xs) (y ∷ ys) = (x == y) && same_path xs ys

-- `getWatchedFileIterator`, and what is done at the place: an erasure or a change.
unfoldable pub erase_file : List ℕ → List WatchedFile → List WatchedFile
erase_file p [] = []
erase_file p (f ∷ fs) = let rest = erase_file p fs in if same_path f.path p then fs else f ∷ rest

unfoldable pub change_file : ℕ → InotifyEvent → List WatchedFile → List WatchedFile
change_file now e [] = []
change_file now e (f ∷ fs) =
    let rest = change_file now e fs in
    if same_path f.path e.name then handle_state_change now e f ∷ fs else f ∷ rest

-- The body of the loop of `parseEvents`.
unfoldable pub parse_event : ℕ × InotifyEvent → List WatchedFile → List WatchedFile
parse_event (now, e) fs =
    if e.ignored
    then fs
    else if e.created
    then fs ++ new_file now e.name ∷ []
    else if e.deleted
    then erase_file e.name fs
    else change_file now e fs

-- `parseEvents`; with each event, the time at which it is handled.
unfoldable pub parse_events : List (ℕ × InotifyEvent) → List WatchedFile → List WatchedFile
parse_events [] fs = fs
parse_events (e ∷ es) fs = parse_events es (parse_event e fs)

-- The bytes that events take.
unfoldable pub events_size : List (ℕ × InotifyEvent) → ℕ
events_size [] = 0
events_size ((now, e) ∷ es) = header_size + length e.name + events_size es

-- `handleIncommingEvents`, with what `read` gives for a size; an error gives nothing.
unfoldable pub handle_incoming_events :
    (ℕ → List (ℕ × InotifyEvent)) → FolderMonitor → FolderMonitor
handle_incoming_events read m = record m {
  watched_files = parse_events (read m.buffer_size) m.watched_files;
}

-- The test in the loop of `process`.
unfoldable pub is_ready : ℕ → ℕ → WatchedFile → Bool
is_ready now timeout f = not f.consumed && (not f.in_use && not_touched_in now timeout f)

-- The loop of `process`: the paths that the consumer is called with, and the files; `clock` is read
-- once for each file.
unfoldable pub process_files : (ℕ → ℕ) → ℕ → ℕ → List WatchedFile → List (List ℕ) × List WatchedFile
process_files clock timeout i [] = ([], [])
process_files clock timeout i (f ∷ fs) =
    let (paths, rest) = process_files clock timeout (suc i) fs in
    if is_ready (clock i) timeout f
    then (f.path ∷ paths, record f { consumed = true } ∷ rest)
    else (paths, f ∷ rest)

unfoldable pub process_monitor : (ℕ → ℕ) → FolderMonitor → List (List ℕ) × FolderMonitor
process_monitor clock m =
    let (paths, fs) = process_files clock m.file_ready_timeout 0 m.watched_files in
    (paths, record m { watched_files = fs })
