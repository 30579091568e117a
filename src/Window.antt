-- ===== src/Window.antt =====
-- MLCommon/inc/Tools/SlidingWindow.h: `SlidingWindow` with `MaxHistoryCleanupPolicy`.
-- `storage` is the deque, and `nextReadElement` is its distance from `begin()`. The code keeps this
-- iterator over `push_back`, which invalidates it. In the GNU library it goes on to denote the same
-- place until a `push_back` has to move the deque's table of blocks: for the pointers of 16 bytes
-- that the window holds, at the 160th. `room` is how many `push_back`s the table still takes, a fact
-- of the library that a window is made with. The mutex makes each operation one step.
use new_cpp.Prelude.{
  ℕ, zero, suc, ◌-◌, false, ◌||◌, Bool, Option, none, some, List, [], ◌∷◌, ◌++◌, not, length,
  get_elem?, ltb, ◌==◌, if◌then◌else◌,
}
mod Policy
pub mod History
pub mod Depth
pub mod Manager
mod Tests

pub record SlidingWindow (A : Type 0) : Type 0 where
  pub storage : List A
  pub next_read : ℕ
  pub history_depth : ℕ
  pub room : ℕ
  -- `nextReadElement` has been invalidated: the behaviour of the window is undefined from here on, and
  -- the other fields say nothing.
  pub lost : Bool

module _ {A : Type 0} where
  -- The constructor: an empty deque, whose `begin()` is its `end()`.
  unfoldable pub new : ℕ → ℕ → SlidingWindow A
  new room depth = record {
    storage = [];
    next_read = 0;
    history_depth = depth;
    room = room;
    lost = false;
  }

  abbrev pub pop_front : List A → List A
  pop_front [] = []
  pop_front (x ∷ xs) = xs

  -- The loop of `cleanup`: each round takes one element off the front, so the distance from
  -- `begin()` to `nextReadElement` falls by one.
  pub cleanup_loop : ℕ → List A → ℕ → List A × ℕ
  cleanup_loop depth storage zero = (storage, zero)
  cleanup_loop depth storage (suc n) =
      let rest = cleanup_loop depth (pop_front storage) n in
      if ltb depth (suc n) then rest else (storage, suc n)

  pub cleanup : SlidingWindow A → SlidingWindow A
  cleanup w =
      let (storage, next) = cleanup_loop w.history_depth w.storage w.next_read in
      record w { storage = storage; next_read = next }

  -- `AddData`, its reset of `nextReadElement` included. If the table of blocks has no room, `push_back`
  -- moves it, and the iterator is lost.
  unfoldable pub add_data : A → SlidingWindow A → SlidingWindow A
  add_data x w =
      let storage = w.storage ++ x ∷ [] in
      let next = if w.next_read == length storage then 0 else w.next_read in
      cleanup (record w {
        storage = storage;
        next_read = next;
        room = w.room - 1;
        lost = w.lost || (w.room == 0);
      })

  unfoldable pub has_next_data : SlidingWindow A → Bool
  has_next_data w = not (w.next_read == length w.storage)

  -- `GetNextData`; `none` is the null `shared_ptr`.
  unfoldable pub get_next_data : SlidingWindow A → SlidingWindow A × Option A
  get_next_data w =
      if not (w.next_read == length w.storage)
      then (cleanup (record w { next_read = suc w.next_read }), get_elem? w.storage w.next_read)
      else (w, none)

  -- `getCleanupPolicy().setHistoryDepth(depth)`: nothing is cleaned up until the next access.
  unfoldable pub set_history_depth : ℕ → SlidingWindow A → SlidingWindow A
  set_history_depth depth w = record w { history_depth = depth }

  -- The move assignment exchanges storage, cursor and policy of the two windows.
  unfoldable pub move_assign : SlidingWindow A → SlidingWindow A → SlidingWindow A × SlidingWindow A
  move_assign this other = (
    record this {
      storage = other.storage;
      next_read = other.next_read;
      history_depth = other.history_depth;
      room = other.room;
      lost = other.lost;
    },
    record other {
      storage = this.storage;
      next_read = this.next_read;
      history_depth = this.history_depth;
      room = this.room;
      lost = this.lost;
    },
  )

  -- The move constructor.
  unfoldable pub move : SlidingWindow A → SlidingWindow A
  move other = record {
    storage = other.storage;
    next_read = other.next_read;
    history_depth = other.history_depth;
    room = other.room;
    lost = other.lost;
  }

-- One call of a client.
pub data Call (A : Type 0) : Type 0 where
  add : A → Call A
  get : Call A
  resize : ℕ → Call A

module _ {A : Type 0} where
  -- What a call hands to its caller.
  abbrev pub delivered : Option A → List A
  delivered none = []
  delivered (some x) = x ∷ []

  pub step : SlidingWindow A → Call A → SlidingWindow A × List A
  step w (add x) = (add_data x w, [])
  step w get = let (w', out) = get_next_data w in (w', delivered out)
  step w (resize depth) = (set_history_depth depth w, [])

  -- A run of calls, with all that was delivered.
  pub run : SlidingWindow A → List (Call A) → SlidingWindow A × List A
  run w [] = (w, [])
  run w (c ∷ cs) = let (w', out) = step w c in let (w'', outs) = run w' cs in (w'', out ++ outs)

  -- What a run of calls adds.
  abbrev pub added : List (Call A) → List A
  added [] = []
  added (add x ∷ cs) = x ∷ added cs
  added (get ∷ cs) = added cs
  added (resize depth ∷ cs) = added cs
