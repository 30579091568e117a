-- ===== src/Stm/Termination.antt =====
-- When `RunStateMachine` ends, and after how many rounds at most.
use new_cpp.Prelude.{
  ℕ, zero, suc, ◌+◌, ◌≤◌, ◌<◌, ◌≡◌, refl, ◌∙◌, Bool, true, List, [], ◌∷◌, ◌++◌, arith, Bool-cases,
  inl, inr,
}
use new_cpp.Stm.{
  Trigger, any_event, event, TransitionRow, Fsm, done, process_event, has_any_row,
  push_any_if_guard, run_queue, fire_event,
}
use new_cpp.Stm.Row.{
  process_event-Frame, IsIdle, fire_event-idle, run_queue-suc, push_any_if_guard-any,
  push_any_if_guard-none, push_any_if_guard-keeps,
}
use new_cpp.Stm.Ownership.{run_queue-owned}
use new_cpp.Stm.Ranked.{Ranked, process_event-quiet, process_event-any}

abbrev AllEvents : {P : Type 0} → List (Trigger × P) → Type 0
AllEvents [] = Unit {0}
AllEvents ((any_event, p) ∷ q) = ⊥
AllEvents ((event ev, p) ∷ q) = AllEvents q

-- How many rounds a queue of events takes at most, if no rank is above `bound`.
abbrev pub weight : {P : Type 0} → ℕ → List (Trigger × P) → ℕ
weight bound [] = 0
weight bound (x ∷ q) = suc bound + weight bound q

-- `ANY_EVENT` stands at the front alone, and only in a state that has a row for it.
abbrev Fits : {D P : Type 0} → List (TransitionRow D P) → ℕ → List (Trigger × P) → Type 0
Fits table state [] = Unit {0}
Fits table state ((any_event, p) ∷ q) = (has_any_row state table ≡ true) × AllEvents q
Fits table state ((event ev, p) ∷ q) = AllEvents q

abbrev cost : {P : Type 0} → (ℕ → ℕ) → ℕ → ℕ → List (Trigger × P) → ℕ
cost rank bound state [] = 0
cost rank bound state ((any_event, p) ∷ q) = rank state + weight bound q
cost rank bound state ((event ev, p) ∷ q) = suc bound + weight bound q

cost-events :
    {P : Type 0} (rank : ℕ → ℕ) (bound state : ℕ) (q : List (Trigger × P))
    → AllEvents q
    → cost rank bound state q ≡ weight bound q
cost-events rank bound state [] h = refl
cost-events rank bound state ((any_event, p) ∷ q) h = absurd h
cost-events rank bound state ((event ev, p) ∷ q) h = refl

module _ {D P : Type 0} (rank : ℕ → ℕ) (bound : ℕ) (below : (s : ℕ) → rank s ≤ bound) where
  Fits-events :
      (table : List (TransitionRow D P)) (state : ℕ) (q : List (Trigger × P))
      → AllEvents q
      → Fits table state q
  Fits-events table state [] h = tt
  Fits-events table state ((any_event, p) ∷ q) h = absurd h
  Fits-events table state ((event ev, p) ∷ q) h = h

  Ranked-round :
      (ev : Trigger) (p : P) (q : List (Trigger × P)) (m n : Fsm D P) (b : Bool)
      → process_event ev p m ≡ done (n, b)
      → Ranked rank m.table
      → Ranked rank (push_any_if_guard p q n).table
  Ranked-round ev p q m n b e h =
      rw ((push_any_if_guard-keeps p q n).0, (process_event-Frame ev p m n b e).table_eq) h

  -- After a round, the queue fits the machine, and costs what is left of the fuel.
  push_any_if_guard-cost :
      (p : P) (q : List (Trigger × P)) (n : Fsm D P) (fuel : ℕ)
      → AllEvents q
      → (has_any_row n.current_state n.table ≡ true → rank n.current_state + weight bound q ≤ fuel)
      → weight bound q ≤ fuel
      → let k = push_any_if_guard p q n in
        Fits k.table k.current_state k.event_queue
        × (cost rank bound k.current_state k.event_queue ≤ fuel)
  push_any_if_guard-cost p q n fuel events some_any none_any =
      elim (Bool-cases (has_any_row n.current_state n.table)) [
        | inl e ↦ rw (push_any_if_guard-any p q n e) ((e, events), some_any e)
        | inr e ↦ rw (push_any_if_guard-none p q n e) (
          Fits-events n.table n.current_state q events,
          omega (arith, cost-events rank bound n.current_state q events),
        )
      ]

  run_queue-total :
      (fuel : ℕ) (q : List (Trigger × P)) (m : Fsm D P)
      → Ranked rank m.table
      → Fits m.table m.current_state q
      → cost rank bound m.current_state q ≤ fuel
      → (m' : Fsm D P) × (run_queue fuel q m ≡ done m')
  unfolding run_queue
  run_queue-total zero [] m h fits c = (m, refl)
  run_queue-total (suc fuel) [] m h fits c = (m, refl)
  run_queue-total zero ((any_event, p) ∷ q) m h (any, events) c =
      let (n, e, falls) = process_event-any rank p m h any in absurd (omega arith)
  run_queue-total zero ((event ev, p) ∷ q) m h events c = absurd (omega arith)
  run_queue-total (suc fuel) ((any_event, p) ∷ q) m h (any, events) c =
      let (n, e, falls) = process_event-any rank p m h any in
      let (fits', c') = push_any_if_guard-cost p q n fuel events (λ _. omega arith) (omega arith) in
      let (m', f) =
        run_queue-total fuel (push_any_if_guard p q n).event_queue (push_any_if_guard p q n)
          (Ranked-round any_event p q m n true e h) fits' c' in
      (m', run_queue-suc fuel any_event p q m n true e ∙ f)
  run_queue-total (suc fuel) ((event ev, p) ∷ q) m h events c =
      let (n, b, e) = process_event-quiet rank (event ev) p m h in
      let (fits', c') =
        push_any_if_guard-cost p q n fuel events (λ _. omega (arith, below n.current_state))
          (omega arith) in
      let (m', f) =
        run_queue-total fuel (push_any_if_guard p q n).event_queue (push_any_if_guard p q n)
          (Ranked-round (event ev) p q m n b e h) fits' c' in
      (m', run_queue-suc fuel (event ev) p q m n b e ∙ f)

  -- On a machine that waits for events, whose table has no action that fires an event and only
  -- `ANY_EVENT` rows with no condition that lead to a state of lower rank: `fire_event` returns,
  -- after at most one round more than the highest rank. The machine waits again, and has deleted
  -- the parameter of the event, once.
  pub fire_event-total :
      (fuel ev : ℕ) (p : P) (m : Fsm D P)
      → IsIdle m
      → Ranked rank m.table
      → bound < fuel
      → (m' : Fsm D P) × (fire_event fuel ev p m ≡ done m')
        × IsIdle m'
        × (m'.deleted ≡ m.deleted ++ p ∷ [])
  fire_event-total fuel ev p m idle h enough =
      let m₀ = record m { event_queue = (event ev, p) ∷ [] } in
      let (m', e) = run_queue-total fuel ((event ev, p) ∷ []) m₀ h tt (omega arith) in
      let (deleted, empty, same, off) = run_queue-owned fuel _ m₀ m' refl e in
      let idle' : IsIdle m' = record {
        initialized = same ∙ idle.initialized;
        not_pending = off idle.not_pending;
        empty = empty;
      } in
      (m', fire_event-idle fuel ev p m idle ∙ e, idle', deleted)
