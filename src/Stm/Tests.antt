-- ===== src/Stm/Tests.antt =====
-- The state machine at concrete tables.
use new_cpp.Prelude.{
  ℕ, ◌≤◌, ◌+◌, ◌-◌, ◌≡◌, refl, true, false, none, some, List, [], ◌∷◌, ◌++◌, arith,
}
use new_cpp.Stm.{
  any_event, event, Effect, TransitionRow, Fsm, done, running, new, initialize, process_event,
  run_state_machine, fire_event, run_queue, process_rows, take_row, attempt, push_any_if_guard,
  has_any_row,
}
use new_cpp.Stm.Row.{IsIdle}
use new_cpp.Stm.Transition.{Looks, first_open, take_first, process_event-first_open}
use new_cpp.Stm.Ownership.{params, run_state_machine-deleted}
use new_cpp.Stm.Divergence.{Blocked, fire_event-Blocked}
use new_cpp.Stm.Ranked.{Ranked}
use new_cpp.Stm.Termination.{fire_event-total}

-- Data and parameters are numbers; an action adds its parameter to the data.
abbrev add_up : ℕ → ℕ → Effect ℕ ℕ
add_up d p = record { new_data = d + p; fired = [] }

-- In state 0 the event 7 leads to state 1, from where `ANY_EVENT` goes on to state 2.
abbrev chain : List (TransitionRow ℕ ℕ)
chain =
    record {
      start_state = 0;
      on_event = event 7;
      fn = some add_up;
      next_state = 1;
      conditionfn = none;
    }
    ∷ record {
      start_state = 1;
      on_event = any_event;
      fn = none;
      next_state = 2;
      conditionfn = none;
    }
    ∷ []

abbrev chain_machine : Fsm ℕ ℕ
chain_machine = initialize 0 (new 10 chain)

chain_run :
    fire_event 3 7 5 chain_machine
    ≡ done (record chain_machine { fsm_data = 15; current_state = 2; deleted = 5 ∷ [] })
unfolding fire_event run_queue process_event process_rows take_row attempt push_any_if_guard
    has_any_row initialize new
chain_run = refl

abbrev queued : Fsm ℕ ℕ
queued = record chain_machine { event_queue = (event 7, 5) ∷ (event 8, 6) ∷ [] }

abbrev queued_end : Fsm ℕ ℕ
queued_end = record chain_machine { fsm_data = 15; current_state = 2; deleted = 5 ∷ 6 ∷ [] }

queued_run : run_state_machine 4 queued ≡ done queued_end
unfolding run_state_machine run_queue process_event process_rows take_row attempt push_any_if_guard
    has_any_row initialize new
queued_run = refl

run_state_machine-deleted_example :
    (queued_end.deleted ≡ queued.deleted ++ params queued.event_queue)
    × (queued_end.event_queue ≡ [])
run_state_machine-deleted_example = run_state_machine-deleted 4 queued queued_end queued_run

chain_machine-Looks : Looks chain_machine.table
unfolding initialize new
chain_machine-Looks = ((λ d p. refl), ((λ d p. refl), tt))

process_event-first_open_example :
    process_event (event 7) 5 chain_machine
    ≡ take_first
        (first_open
          (event 7)
          5
          chain_machine.current_state
          chain_machine.fsm_data
          chain_machine.table)
        5
        chain_machine
process_event-first_open_example =
    process_event-first_open (event 7) 5 chain_machine chain_machine-Looks

-- States further along the chain have lower rank.
abbrev chain_rank : ℕ → ℕ
chain_rank s = 2 - s

chain_rank_bound : (s : ℕ) → chain_rank s ≤ 2
chain_rank_bound s = omega arith

chain_machine-IsIdle : IsIdle chain_machine
unfolding initialize new
chain_machine-IsIdle = record { initialized = refl; not_pending = refl; empty = refl }

chain-Ranked : Ranked chain_rank chain_machine.table
unfolding initialize new
chain-Ranked = ((λ d p. refl), (λ e. cc), ((λ d p. refl), (λ e. (refl, omega arith)), tt))

fire_event-total_example :
    (m' : Fsm ℕ ℕ) × (fire_event 3 7 5 chain_machine ≡ done m')
    × IsIdle m'
    × (m'.deleted ≡ chain_machine.deleted ++ 5 ∷ [])
fire_event-total_example =
    fire_event-total chain_rank 2 chain_rank_bound 3 7 5 chain_machine chain_machine-IsIdle
      chain-Ranked (omega arith)

-- The same chain, but the way on from state 1 has a condition that fails.
abbrev blocked : List (TransitionRow ℕ ℕ)
blocked =
    record {
      start_state = 0;
      on_event = event 7;
      fn = some add_up;
      next_state = 1;
      conditionfn = none;
    }
    ∷ record {
      start_state = 1;
      on_event = any_event;
      fn = none;
      next_state = 2;
      conditionfn = some (λ d p. (false, d));
    }
    ∷ []

abbrev stopped : Fsm ℕ ℕ
stopped = record {
  fsm_data = 10;
  current_state = 0;
  table = blocked;
  event_queue = [];
  is_pending_event = false;
  is_initialized = true;
  deleted = [];
}

abbrev hung : Fsm ℕ ℕ
hung = record stopped { fsm_data = 15; current_state = 1; event_queue = (event 7, 5) ∷ [] }

process_event-stopped :
    process_event (event 7) 5 (record stopped { event_queue = (event 7, 5) ∷ [] })
    ≡ done (hung, true)
unfolding process_event process_rows take_row attempt
process_event-stopped = refl

has_any_row-hung : has_any_row hung.current_state hung.table ≡ true
unfolding has_any_row
has_any_row-hung = refl

hung-Blocked : Blocked hung.table hung.current_state hung.fsm_data 5
hung-Blocked = ((λ s e. cc), ((λ s e. refl), tt))

fire_event-Blocked_example : fire_event 100 7 5 stopped ≡ running
fire_event-Blocked_example =
    fire_event-Blocked 100 7 5 stopped hung true
      (record { initialized = refl; not_pending = refl; empty = refl }) process_event-stopped
      has_any_row-hung hung-Blocked
