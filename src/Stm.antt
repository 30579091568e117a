-- ===== src/Stm.antt =====
-- MLCommon/inc/Stm: the table-driven state machine (FsmHandler.h, TransitionRow.h).
-- A state or event is the number of its enumerator, `D` the data behind `_FsmData`, and `P` the
-- pointer to a parameter, which the handler owns once it is queued: `deleted` lists, in order,
-- what it has given to `delete`. A condition may change the data, since it takes it by reference; a
-- condition that fires an event, which the type of the data would allow too, is left out.
-- `fire_event` holds `_FsmMutex`, which no thread can lock twice, while it runs the machine, so an
-- action that itself fires an event on the machine never comes back: `deadlock`. The loop of
-- `RunStateMachine` takes fuel, and `running` says that it has not ended after so many rounds.
use new_cpp.Prelude.{
  ℕ, zero, suc, Bool, true, false, Option, none, some, List, [], ◌∷◌, ◌++◌, ◌==◌, if◌then◌else◌,
  ◌&&◌, ◌≡◌, refl, ◌⊎◌, inl, inr,
}
mod Row
pub mod Transition
pub mod Ownership
pub mod Divergence
mod Ranked
pub mod Termination
mod Tests

-- The `int32_t` of an event: `ANY_EVENT`, which is -1, or an enumerator.
pub data Trigger : Type 0 where
  any_event : Trigger
  event : ℕ → Trigger

abbrev pub same_trigger : Trigger → Trigger → Bool
same_trigger any_event any_event = true
same_trigger (event a) (event b) = a == b
same_trigger _ _ = false

-- What an action does: it changes the data, and may fire events on the machine that runs it.
pub record Effect (D P : Type 0) : Type 0 where
  pub new_data : D
  pub fired : List (ℕ × P)

pub record TransitionRow (D P : Type 0) : Type 0 where
  pub start_state : ℕ
  pub on_event : Trigger
  pub fn : Option (D → P → Effect D P)
  pub next_state : ℕ
  pub conditionfn : Option (D → P → Bool × D)

pub record Fsm (D P : Type 0) : Type 0 where
  pub fsm_data : D
  pub current_state : ℕ
  pub table : List (TransitionRow D P)
  pub event_queue : List (Trigger × P)
  pub is_pending_event : Bool
  pub is_initialized : Bool
  pub deleted : List P

pub data Outcome (A : Type 0) : Type 0 where
  done : A → Outcome A
  deadlock : Outcome A
  running : Outcome A

pub Outcome-cases :
    {A : Type 0} (o : Outcome A) → ((a : A) × (o ≡ done a)) ⊎ (o ≡ deadlock) ⊎ (o ≡ running)
Outcome-cases (done a) = inl (a, refl)
Outcome-cases deadlock = inr (inl refl)
Outcome-cases running = inr (inr refl)

module _ {D P : Type 0} where
  -- The constructor; `_CurrentState()` is the enumerator 0.
  unfoldable pub new : D → List (TransitionRow D P) → Fsm D P
  new d table = record {
    fsm_data = d;
    current_state = 0;
    table = table;
    event_queue = [];
    is_pending_event = false;
    is_initialized = false;
    deleted = [];
  }

  unfoldable pub set_current_state : ℕ → Fsm D P → Fsm D P
  set_current_state state m = record m { current_state = state }

  unfoldable pub initialize : ℕ → Fsm D P → Fsm D P
  unfolding set_current_state
  initialize state m = record (set_current_state state m) { is_initialized = true }

  unfoldable pub get_current_state : Fsm D P → ℕ
  get_current_state m = m.current_state

  -- `PushAnyIfGuard`'s scan of the table. It looks at no condition.
  pub has_any_row : ℕ → List (TransitionRow D P) → Bool
  has_any_row state [] = false
  has_any_row state (r ∷ rs) =
      if (state == r.start_state) && same_trigger r.on_event any_event
      then true
      else has_any_row state rs

  -- The condition of a row: a row with none is always taken.
  abbrev pub check : Option (D → P → Bool × D) → D → P → Bool × D
  check none d p = (true, d)
  check (some condition) d p = condition d p

  abbrev pub act : Option (D → P → Effect D P) → D → P → Effect D P
  act none d p = record { new_data = d; fired = [] }
  act (some action) d p = action d p

  -- The tests that a row must pass to be taken, with what its condition does to the data.
  pub attempt : TransitionRow D P → Trigger → P → Fsm D P → Bool × Fsm D P
  attempt r ev p m =
      if (m.current_state == r.start_state) && same_trigger ev r.on_event
      then (let (holds, d) = check r.conditionfn m.fsm_data p in (holds, record m { fsm_data = d }))
      else (false, m)

  -- The body of the innermost `if`: `_IsPendingEvent` is set for the time of the action, and a
  -- nested `fire_event` waits for ever on the mutex.
  pub take_row : TransitionRow D P → P → Fsm D P → Outcome (Fsm D P × Bool)
  take_row r p m =
      let effect = act r.fn m.fsm_data p in
      elim effect.fired [
        | [] ↦ done (
          record m {
            fsm_data = effect.new_data;
            is_pending_event = false;
            current_state = r.next_state;
          },
          true,
        )
        | e ∷ es ↦ deadlock
      ]

  -- The loop of `ProcessEvent` over the rows.
  pub process_rows : List (TransitionRow D P) → Trigger → P → Fsm D P → Outcome (Fsm D P × Bool)
  process_rows [] ev p m = done (m, false)
  process_rows (r ∷ rs) ev p m =
      let (holds, m') = attempt r ev p m in
      let rest = process_rows rs ev p m' in if holds then take_row r p m' else rest

  unfoldable pub process_event : Trigger → P → Fsm D P → Outcome (Fsm D P × Bool)
  unfolding process_rows
  process_event ev p m = process_rows m.table ev p m

  -- After an event: the parameter goes back to the front of the queue for `ANY_EVENT`, or it is
  -- deleted. `q` is the queue after `pop_front`.
  pub push_any_if_guard : P → List (Trigger × P) → Fsm D P → Fsm D P
  push_any_if_guard rescue q m =
      if has_any_row m.current_state m.table
      then record m { event_queue = (any_event, rescue) ∷ q }
      else record m { event_queue = q; deleted = m.deleted ++ rescue ∷ [] }

  -- `RunStateMachine`, on the queue that it starts with.
  pub run_queue : ℕ → List (Trigger × P) → Fsm D P → Outcome (Fsm D P)
  run_queue fuel [] m = done m
  run_queue zero (x ∷ q) m = running
  run_queue (suc fuel) ((ev, p) ∷ q) m = elim (process_event ev p m) [
    | done (m', moved) ↦ let m'' = push_any_if_guard p q m' in run_queue fuel m''.event_queue m''
    | deadlock ↦ deadlock
    | running ↦ running
  ]

  unfoldable pub run_state_machine : ℕ → Fsm D P → Outcome (Fsm D P)
  unfolding run_queue
  run_state_machine fuel m = run_queue fuel m.event_queue m

  unfoldable pub fire_event : ℕ → ℕ → P → Fsm D P → Outcome (Fsm D P)
  unfolding run_state_machine
  fire_event fuel ev p m =
      if m.is_initialized
      then (let m' = record m { event_queue = m.event_queue ++ (event ev, p) ∷ [] } in
          if m.is_pending_event then done m' else run_state_machine fuel m')
      else done m
