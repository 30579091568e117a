-- ===== src/Stm/Ownership.antt =====
-- Who deletes the parameters of events: the machine, once each, in the order they were queued.
use new_cpp.Prelude.{
  ℕ, zero, suc, ◌≡◌, refl, ap, ◌∙◌, false, List, [], ◌∷◌, ◌++◌, map, arith, append_assoc,
  append-nil, Bool-cases, inl, inr,
}
use new_cpp.Stm.{
  Trigger, Fsm, Outcome-cases, done, process_event, has_any_row, push_any_if_guard, run_queue,
  run_state_machine,
}
use new_cpp.Stm.Row.{process_event-Frame, push_any_if_guard-keeps}

abbrev pub params : {P : Type 0} → List (Trigger × P) → List P
params q = map (λ x. x.1) q

module _ {D P : Type 0} where
  -- What is deleted together with what is still queued.
  push_any_if_guard-owned :
      (p : P) (q : List (Trigger × P)) (m : Fsm D P)
      → (push_any_if_guard p q m).deleted ++ params (push_any_if_guard p q m).event_queue
        ≡ m.deleted ++ p ∷ params q
  unfolding push_any_if_guard
  push_any_if_guard-owned p q m = elim (Bool-cases (has_any_row m.current_state m.table)) [
    | inl e ↦ rw e
    | inr e ↦ rw (e, append_assoc)
  ]

  pub run_queue-owned :
      (fuel : ℕ) (q : List (Trigger × P)) (m m' : Fsm D P)
      → m.event_queue ≡ q
      → run_queue fuel q m ≡ done m'
      → (m'.deleted ≡ m.deleted ++ params q)
        × (m'.event_queue ≡ [])
        × (m'.is_initialized ≡ m.is_initialized)
        × (m.is_pending_event ≡ false → m'.is_pending_event ≡ false)
  unfolding run_queue
  run_queue-owned zero [] m m' h e = ground (arith, append-nil m.deleted)
  run_queue-owned (suc fuel) [] m m' h e = ground (arith, append-nil m.deleted)
  run_queue-owned zero (x ∷ q) m m' h e = cc
  run_queue-owned (suc fuel) ((ev, p) ∷ q) m m' h e = elim (Outcome-cases (process_event ev p m)) [
    | inl ((n, moved), f) ↦
        let rest = push_any_if_guard p q n in
        let (owned, empty, same, off) =
          run_queue-owned fuel rest.event_queue rest m' refl (rw (f, run_queue) at e) in
        let frame = process_event-Frame ev p m n moved f in
        let (_, _, same', off') = push_any_if_guard-keeps p q n in
        (
          owned ∙ push_any_if_guard-owned p q n ∙ ap (λ l. l ++ p ∷ params q) frame.deleted_eq,
          empty,
          same ∙ same' ∙ frame.is_initialized_eq,
          λ h. off (off' ∙ frame.pending_off h),
        )
    | inr (inl f) ↦ let e' = rw (f, run_queue) at e in cc
    | inr (inr f) ↦ let e' = rw (f, run_queue) at e in cc
  ]

  -- If `RunStateMachine` returns, it has deleted the parameters of all events that were queued,
  -- each once and in the order of the queue, however many `ANY_EVENT`s it ran in between, and the
  -- queue is empty.
  pub run_state_machine-deleted :
      (fuel : ℕ) (m m' : Fsm D P)
      → run_state_machine fuel m ≡ done m'
      → (m'.deleted ≡ m.deleted ++ params m.event_queue) × (m'.event_queue ≡ [])
  unfolding run_state_machine
  run_state_machine-deleted fuel m m' e =
      let (owned, empty, _, _) = run_queue-owned fuel m.event_queue m m' refl e in (owned, empty)
