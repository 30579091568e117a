-- ===== src/Stm/Transition.antt =====
-- Which row an event takes.
use new_cpp.Prelude.{
  ℕ, ◌≡◌, refl, Bool, false, Option, none, some, List, [], ◌∷◌, arith, Bool-cases, inl, inr, ◌==◌,
  ◌&&◌, if◌then◌else◌,
}
use new_cpp.Stm.{
  Trigger, TransitionRow, Fsm, Outcome, done, same_trigger, check, attempt, take_row, process_rows,
  process_event,
}

module _ {D P : Type 0} where
  -- A row is open to an event: right state, right event, and no condition or one that holds.
  abbrev pub is_open : Trigger → P → ℕ → D → TransitionRow D P → Bool
  is_open ev p state d r =
      (state == r.start_state) && (same_trigger ev r.on_event && (check r.conditionfn d p).0)

  abbrev pub first_open :
      Trigger → P → ℕ → D → List (TransitionRow D P) → Option (TransitionRow D P)
  first_open ev p state d [] = none
  first_open ev p state d (r ∷ rs) =
      if is_open ev p state d r then some r else first_open ev p state d rs

  -- No condition of the table changes the data.
  abbrev pub Looks : List (TransitionRow D P) → Type 0
  Looks [] = Unit {0}
  Looks (r ∷ rs) = ((d : D) (p : P) → (check r.conditionfn d p).1 ≡ d) × Looks rs

  abbrev pub take_first : Option (TransitionRow D P) → P → Fsm D P → Outcome (Fsm D P × Bool)
  take_first none p m = done (m, false)
  take_first (some r) p m = take_row r p m

  attempt-is_open :
      (r : TransitionRow D P) (ev : Trigger) (p : P) (m : Fsm D P)
      → (check r.conditionfn m.fsm_data p).1 ≡ m.fsm_data
      → attempt r ev p m ≡ (is_open ev p m.current_state m.fsm_data r, m)
  unfolding attempt
  attempt-is_open r ev p m h = ground arith

  process_rows-first_open :
      (rows : List (TransitionRow D P)) (ev : Trigger) (p : P) (m : Fsm D P)
      → Looks rows
      → process_rows rows ev p m ≡ take_first (first_open ev p m.current_state m.fsm_data rows) p m
  unfolding process_rows
  process_rows-first_open [] ev p m h = refl
  process_rows-first_open (r ∷ rs) ev p m h =
      rw (attempt-is_open r ev p m (h.0 _ p))
        (elim (Bool-cases (is_open ev p m.current_state m.fsm_data r)) [
          | inl e ↦ rw e
          | inr e ↦ rw e (process_rows-first_open rs ev p m h.1)
        ])

  -- Where conditions only look at the data, `ProcessEvent` takes the first row of the table that
  -- is open to the event, and no row, with nothing changed, if none is.
  pub process_event-first_open :
      (ev : Trigger) (p : P) (m : Fsm D P)
      → Looks m.table
      → process_event ev p m ≡ take_first (first_open ev p m.current_state m.fsm_data m.table) p m
  unfolding process_event
  process_event-first_open ev p m h = process_rows-first_open m.table ev p m h
