-- ===== src/Window/Tests.antt =====
-- The windows at concrete inputs.
use Prim.Native.String.{String}
use new_cpp.Prelude.{ℕ, ◌≡◌, refl, false, true, List, [], ◌∷◌, ◌++◌, arith, length, drop, min, ◌-◌}
use new_cpp.Window.{
  SlidingWindow, Call, add, get, new, run, step, add_data, get_next_data, cleanup, cleanup_loop,
  added,
}
use new_cpp.Window.Policy.{IsValid, unread}
use new_cpp.Window.History.{run-new-fifo, Reads, get_next_data-Reads}
use new_cpp.Window.Depth.{run-new-history}
use new_cpp.Window.Manager.{AddsWindow, AddsData, add_window-AddsWindow, add_data_to-AddsData}

abbrev calls : List (Call ℕ)
calls = add 1 ∷ add 2 ∷ get ∷ add 3 ∷ get ∷ get ∷ get ∷ add 4 ∷ []

run-calls : run (new 159 2) calls ≡ (
  record { storage = 2 ∷ 3 ∷ 4 ∷ []; next_read = 2; history_depth = 2; room = 155; lost = false },
  1 ∷ 2 ∷ 3 ∷ [],
)
unfolding run step new add_data get_next_data cleanup cleanup_loop
run-calls = refl

run-new-fifo_example :
    ((run (new 159 2) calls).1 ++ unread (run (new 159 2) calls).0 ≡ added calls)
    × IsValid (run (new 159 2) calls).0
    × ((run (new 159 2) calls).0.lost ≡ false)
run-new-fifo_example = run-new-fifo 159 2 calls (omega arith)

abbrev window : SlidingWindow ℕ
window = record {
  storage = 2 ∷ 3 ∷ 4 ∷ [];
  next_read = 2;
  history_depth = 2;
  room = 155;
  lost = false;
}

get_next_data-Reads_example : Reads window
get_next_data-Reads_example = get_next_data-Reads window (omega arith)

run-new-history_example :
    let (w, out) = run (new 159 2) calls in
    (w.storage ≡ drop (length out - 2) (added calls))
    × (w.next_read ≡ min (length out) 2)
    × (w.lost ≡ false)
run-new-history_example = run-new-history 159 2 calls tt (omega arith)

abbrev windows : List (String × SlidingWindow ℕ)
windows = ("gyro", window) ∷ []

laser_then_gyro : AddsWindow 159 "laser" "gyro" 3 windows
laser_then_gyro = add_window-AddsWindow 159 "laser" "gyro" 3 windows

add_data_to-AddsData_example : AddsData "gyro" "gyro" 5 windows
add_data_to-AddsData_example = add_data_to-AddsData "gyro" "gyro" 5 windows

-- With room for three items only, the fourth invalidates the iterator.
run-lost : (run (new 3 2) calls).0.lost ≡ true
unfolding run step new add_data get_next_data cleanup cleanup_loop
run-lost = refl
