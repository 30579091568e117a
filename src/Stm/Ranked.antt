-- ===== src/Stm/Ranked.antt =====
-- Tables whose `ANY_EVENT` rows have no condition and lead downwards.
use new_cpp.Prelude.{
  ℕ, ◌<◌, ◌≡◌, refl, Bool, true, false, none, List, [], ◌∷◌, arith, Bool-cases, inl, inr, ◌==◌,
  ◌&&◌,
}
use new_cpp.Stm.{
  Trigger, any_event, TransitionRow, Fsm, done, act, attempt, take_row, process_rows, process_event,
  has_any_row, same_trigger,
}

module _ {D P : Type 0} where
  -- The tests by which `PushAnyIfGuard` and `ProcessEvent` find an `ANY_EVENT` row agree.
  attempt-any :
      (r : TransitionRow D P) (p : P) (m : Fsm D P)
      → ((m.current_state == r.start_state) && same_trigger r.on_event any_event) ≡ true
      → (m.current_state ≡ r.start_state)
        × (r.on_event ≡ any_event)
        × (r.conditionfn ≡ none → attempt r any_event p m ≡ (true, m))
  unfolding attempt
  attempt-any r p m e = ground arith

  attempt-not_any :
      (r : TransitionRow D P) (p : P) (m : Fsm D P)
      → ((m.current_state == r.start_state) && same_trigger r.on_event any_event) ≡ false
      → attempt r any_event p m ≡ (false, m)
  unfolding attempt
  attempt-not_any r p m e = ground arith

module _ {D P : Type 0} (rank : ℕ → ℕ) where
  -- No action fires an event on the machine, and an `ANY_EVENT` row has no condition and leads to
  -- a state of lower rank.
  abbrev pub Ranked : List (TransitionRow D P) → Type 0
  Ranked [] = Unit {0}
  Ranked (r ∷ rs) =
      ((d : D) (p : P) → (act r.fn d p).fired ≡ [])
      × (r.on_event ≡ any_event → (r.conditionfn ≡ none) × (rank r.next_state < rank r.start_state))
      × Ranked rs

  take_row-quiet :
      (r : TransitionRow D P) (p : P) (m : Fsm D P)
      → (act r.fn m.fsm_data p).fired ≡ []
      → (n : Fsm D P) × (take_row r p m ≡ done (n, true)) × (n.current_state ≡ r.next_state)
  unfolding take_row
  take_row-quiet r p m h = (
    record m {
      fsm_data = (act r.fn m.fsm_data p).new_data;
      is_pending_event = false;
      current_state = r.next_state;
    },
    rw (h, take_row),
    refl,
  )

  pub process_rows-quiet :
      (rows : List (TransitionRow D P)) (ev : Trigger) (p : P) (m : Fsm D P)
      → Ranked rows
      → (n : Fsm D P) × (b : Bool) × (process_rows rows ev p m ≡ done (n, b))
  unfolding process_rows
  process_rows-quiet [] ev p m h = (m, false, refl)
  process_rows-quiet (r ∷ rs) ev p m h = elim (Bool-cases (attempt r ev p m).0) [
    | inl e ↦
        let (n, f, g) = take_row-quiet r p (attempt r ev p m).1 (h.0 _ p) in (n, true, rw (e, f))
    | inr e ↦ rw e (process_rows-quiet rs ev p (attempt r ev p m).1 h.2)
  ]

  -- In a state with an `ANY_EVENT` row the event is taken, and the rank falls.
  pub process_rows-any :
      (rows : List (TransitionRow D P)) (p : P) (m : Fsm D P)
      → Ranked rows
      → has_any_row m.current_state rows ≡ true
      → (n : Fsm D P) × (process_rows rows any_event p m ≡ done (n, true))
        × (rank n.current_state < rank m.current_state)
  unfolding process_rows has_any_row
  process_rows-any [] p m h any = cc
  process_rows-any (r ∷ rs) p m h any =
      elim (Bool-cases ((m.current_state == r.start_state) && same_trigger r.on_event any_event)) [
        | inl e ↦
            let (same, trigger, taken) = attempt-any r p m e in
            let (no_condition, falls) = h.1 trigger in
            let (n, f, g) = take_row-quiet r p m (h.0 _ p) in
            (n, rw (taken no_condition, f), rw (g, same) falls)
        | inr e ↦ rw (attempt-not_any r p m e) (process_rows-any rs p m h.2 (rw e at any))
      ]

  pub process_event-quiet :
      (ev : Trigger) (p : P) (m : Fsm D P)
      → Ranked m.table
      → (n : Fsm D P) × (b : Bool) × (process_event ev p m ≡ done (n, b))
  unfolding process_event
  process_event-quiet ev p m h = process_rows-quiet m.table ev p m h

  pub process_event-any :
      (p : P) (m : Fsm D P)
      → Ranked m.table
      → has_any_row m.current_state m.table ≡ true
      → (n : Fsm D P) × (process_event any_event p m ≡ done (n, true))
        × (rank n.current_state < rank m.current_state)
  unfolding process_event
  process_event-any p m h any = process_rows-any m.table p m h any
