-- ===== src/Stm/Divergence.antt =====
-- When `RunStateMachine` never ends: `PushAnyIfGuard` looks at no condition.
use new_cpp.Prelude.{ℕ, zero, suc, ◌≡◌, refl, ◌∙◌, Bool, true, false, List, [], ◌∷◌, arith}
use new_cpp.Stm.Row.{IsIdle, fire_event-idle, run_queue-suc, push_any_if_guard-any}
use new_cpp.Stm.{
  Trigger, any_event, event, TransitionRow, Fsm, done, running, check, attempt, process_rows,
  process_event, has_any_row, run_queue, fire_event,
}

module _ {D P : Type 0} where
  -- Every `ANY_EVENT` row of the state has a condition that fails and leaves the data alone.
  abbrev pub Blocked : List (TransitionRow D P) → ℕ → D → P → Type 0
  Blocked [] s d p = Unit {0}
  Blocked (r ∷ rs) s d p =
      (s ≡ r.start_state → r.on_event ≡ any_event → check r.conditionfn d p ≡ (false, d))
      × Blocked rs s d p

  attempt-Blocked :
      (r : TransitionRow D P) (p : P) (m : Fsm D P)
      → (m.current_state ≡ r.start_state
          → r.on_event ≡ any_event
          → check r.conditionfn m.fsm_data p ≡ (false, m.fsm_data))
      → attempt r any_event p m ≡ (false, m)
  unfolding attempt
  attempt-Blocked r p m h = ground arith

  process_rows-Blocked :
      (rows : List (TransitionRow D P)) (p : P) (m : Fsm D P)
      → Blocked rows m.current_state m.fsm_data p
      → process_rows rows any_event p m ≡ done (m, false)
  unfolding process_rows
  process_rows-Blocked [] p m h = refl
  process_rows-Blocked (r ∷ rs) p m h =
      rw (attempt-Blocked r p m h.0) (process_rows-Blocked rs p m h.1)

  process_event-Blocked :
      (p : P) (m : Fsm D P)
      → Blocked m.table m.current_state m.fsm_data p
      → process_event any_event p m ≡ done (m, false)
  unfolding process_event
  process_event-Blocked p m h = process_rows-Blocked m.table p m h

  run_queue-Blocked :
      (fuel : ℕ) (p : P) (q : List (Trigger × P)) (m : Fsm D P)
      → Blocked m.table m.current_state m.fsm_data p
      → has_any_row m.current_state m.table ≡ true
      → run_queue fuel ((any_event, p) ∷ q) m ≡ running
  unfolding run_queue
  run_queue-Blocked zero p q m h any = refl
  run_queue-Blocked (suc fuel) p q m h any =
      run_queue-suc fuel any_event p q m m false (process_event-Blocked p m h)
      ∙ rw (push_any_if_guard-any p q m any) (run_queue-Blocked fuel p q _ h any)

  -- Let an event take an idle machine to a state that has an `ANY_EVENT` row, while the conditions
  -- of all such rows of that state fail for the event's parameter and leave the data as they are.
  -- Then `fire_event` does not return: no number of rounds ends the loop.
  pub fire_event-Blocked :
      (fuel ev : ℕ) (p : P) (m n : Fsm D P) (b : Bool)
      → IsIdle m
      → process_event (event ev) p (record m { event_queue = (event ev, p) ∷ [] }) ≡ done (n, b)
      → has_any_row n.current_state n.table ≡ true
      → Blocked n.table n.current_state n.fsm_data p
      → fire_event fuel ev p m ≡ running
  unfolding run_queue
  fire_event-Blocked zero ev p m n b idle step any h = fire_event-idle zero ev p m idle
  fire_event-Blocked (suc fuel) ev p m n b idle step any h =
      fire_event-idle (suc fuel) ev p m idle
      ∙ run_queue-suc fuel (event ev) p [] _ n b step
      ∙ rw (push_any_if_guard-any p [] n any) (run_queue-Blocked fuel p [] _ h any)
