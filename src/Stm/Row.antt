-- ===== src/Stm/Row.antt =====
-- What looking through the rows of the table leaves alone.
use new_cpp.Prelude.{ℕ, suc, ◌≡◌, refl, Bool, true, false, List, [], ◌∷◌, ◌++◌, arith}
use new_cpp.Stm.{
  Trigger, TransitionRow, Fsm, done, attempt, take_row, process_rows, process_event, run_queue,
  push_any_if_guard, has_any_row, fire_event, any_event, event,
}

module _ {D P : Type 0} where
  -- Only the data, the current state and the pending flag may change.
  pub record Frame (m m' : Fsm D P) : Type 0 where
    pub table_eq : m'.table ≡ m.table
    pub event_queue_eq : m'.event_queue ≡ m.event_queue
    pub is_initialized_eq : m'.is_initialized ≡ m.is_initialized
    pub deleted_eq : m'.deleted ≡ m.deleted
    pub pending_off : m.is_pending_event ≡ false → m'.is_pending_event ≡ false

  Frame-refl : (m : Fsm D P) → Frame m m
  Frame-refl m = record {
    table_eq = refl;
    event_queue_eq = refl;
    is_initialized_eq = refl;
    deleted_eq = refl;
    pending_off = λ h. h;
  }

  Frame-trans : {a b c : Fsm D P} → Frame a b → Frame b c → Frame a c
  Frame-trans f g = ground arith

  attempt-Frame :
      (r : TransitionRow D P) (ev : Trigger) (p : P) (m : Fsm D P) → Frame m (attempt r ev p m).1
  unfolding attempt
  attempt-Frame r ev p m = ground arith

  take_row-Frame :
      (r : TransitionRow D P) (p : P) (m m' : Fsm D P) (b : Bool)
      → take_row r p m ≡ done (m', b)
      → Frame m m'
  unfolding take_row
  take_row-Frame r p m m' b e = ground arith

  process_rows-Frame :
      (rows : List (TransitionRow D P)) (ev : Trigger) (p : P) (m m' : Fsm D P) (b : Bool)
      → process_rows rows ev p m ≡ done (m', b)
      → Frame m m'
  unfolding process_rows
  process_rows-Frame [] ev p m m' b e = ground arith
  process_rows-Frame (r ∷ rs) ev p m m' b e = ground (
    arith,
    attempt-Frame r ev p m,
    take_row-Frame r p (attempt r ev p m).1 m' b,
    process_rows-Frame rs ev p (attempt r ev p m).1 m' b,
  )

  pub process_event-Frame :
      (ev : Trigger) (p : P) (m m' : Fsm D P) (b : Bool)
      → process_event ev p m ≡ done (m', b)
      → Frame m m'
  unfolding process_event
  process_event-Frame ev p m m' b e = process_rows-Frame m.table ev p m m' b e

  -- One round of `RunStateMachine`.
  pub run_queue-suc :
      (fuel : ℕ) (ev : Trigger) (p : P) (q : List (Trigger × P)) (m n : Fsm D P) (b : Bool)
      → process_event ev p m ≡ done (n, b)
      → run_queue (suc fuel) ((ev, p) ∷ q) m
        ≡ run_queue fuel (push_any_if_guard p q n).event_queue (push_any_if_guard p q n)
  unfolding run_queue
  run_queue-suc fuel ev p q m n b f = rw (f, run_queue)

  pub push_any_if_guard-any :
      (p : P) (q : List (Trigger × P)) (m : Fsm D P)
      → has_any_row m.current_state m.table ≡ true
      → push_any_if_guard p q m ≡ record m { event_queue = (any_event, p) ∷ q }
  unfolding push_any_if_guard
  push_any_if_guard-any p q m any = rw any

  pub push_any_if_guard-none :
      (p : P) (q : List (Trigger × P)) (m : Fsm D P)
      → has_any_row m.current_state m.table ≡ false
      → push_any_if_guard p q m ≡ record m { event_queue = q; deleted = m.deleted ++ p ∷ [] }
  unfolding push_any_if_guard
  push_any_if_guard-none p q m any = rw any

  pub push_any_if_guard-keeps :
      (p : P) (q : List (Trigger × P)) (m : Fsm D P)
      → ((push_any_if_guard p q m).table ≡ m.table)
        × ((push_any_if_guard p q m).current_state ≡ m.current_state)
        × ((push_any_if_guard p q m).is_initialized ≡ m.is_initialized)
        × ((push_any_if_guard p q m).is_pending_event ≡ m.is_pending_event)
  unfolding push_any_if_guard
  push_any_if_guard-keeps p q m = ground arith

  -- A machine that waits for events.
  pub record IsIdle (m : Fsm D P) : Type 0 where
    pub initialized : m.is_initialized ≡ true
    pub not_pending : m.is_pending_event ≡ false
    pub empty : m.event_queue ≡ []

  pub fire_event-idle :
      (fuel ev : ℕ) (p : P) (m : Fsm D P)
      → IsIdle m
      → fire_event fuel ev p m
        ≡ run_queue fuel ((event ev, p) ∷ []) (record m { event_queue = (event ev, p) ∷ [] })
  unfolding fire_event
  fire_event-idle fuel ev p m h = ground arith
