-- ===== src/Window/History.antt =====
-- What a window delivers and keeps, against the list of all that was ever added.
use new_cpp.Prelude.{
  ℕ, suc, ◌-◌, ◌≤◌, ◌<◌, ◌≡◌, refl, sym, ap, ◌+◌, ◌∙◌, none, some, true, false, ◌⊎◌, length-eq-zero,
  List, [], ◌∷◌, ◌++◌, length, drop, arith, append_assoc, append-nil, length-append, length-drop,
  drop-append, drop-get_elem?, Bool-cases, ◌==◌, ◌||◌, inl, inr, ==_iff,
}
use new_cpp.Window.{
  SlidingWindow, has_next_data, add_data, get_next_data, set_history_depth, Call, add, get, resize,
  delivered, step, run, added, new, cleanup,
}
use new_cpp.Window.Policy.{
  IsValid, unread, trimmed, unread-trimmed, add_data-trimmed, get_next_data-end,
  get_next_data-trimmed,
}

module _ {A : Type 0} where
  -- A window right after a call that cleans up.
  abbrev pub IsTrim : SlidingWindow A → Type 0
  IsTrim w = (w.next_read ≤ length w.storage) × (w.next_read ≤ w.history_depth)

  trimmed-IsTrim : (w : SlidingWindow A) → IsValid w → IsTrim (trimmed w)
  trimmed-IsTrim w v = omega (arith, length-drop (w.next_read - w.history_depth) w.storage)

  add_data_lem :
      (x : A) (w : SlidingWindow A)
      → IsValid w
      → IsTrim (add_data x w) × (unread (add_data x w) ≡ unread w ++ x ∷ [])
  add_data_lem x w v =
      let pushed : SlidingWindow A = record w {
        storage = w.storage ++ x ∷ [];
        room = w.room - 1;
        lost = w.lost || (w.room == 0);
      } in
      rw (add_data-trimmed x w v) (
        trimmed-IsTrim pushed (omega (arith, length-append w.storage (x ∷ []))),
        unread-trimmed pushed ∙ drop-append w.next_read w.storage (x ∷ []) v,
      )

  get_next_data_lem :
      (w : SlidingWindow A)
      → IsValid w
      → (delivered (get_next_data w).1 ++ unread (get_next_data w).0 ≡ unread w)
        × IsValid (get_next_data w).0
  get_next_data_lem w v = elim (Bool-cases (w.next_read == length w.storage)) [
    | inl e ↦ rw (get_next_data-end w ((==_iff _ _).0 e)) (refl, v)
    | inr e ↦
        let h : w.next_read < length w.storage = ground arith in
        let (x, got, rest) = drop-get_elem? w.next_read w.storage h in
        rw (get_next_data-trimmed w h) (
          rw (got, unread-trimmed (record w { next_read = suc w.next_read })) (sym rest),
          (trimmed-IsTrim (record w { next_read = suc w.next_read }) h).0,
        )
  ]

  step_lem :
      (w : SlidingWindow A) (c : Call A)
      → IsValid w
      → ((step w c).1 ++ unread (step w c).0 ≡ unread w ++ added (c ∷ [])) × IsValid (step w c).0
  unfolding step
  step_lem w (add x) v = ((add_data_lem x w v).1, (add_data_lem x w v).0.0)
  step_lem w get v = let (e, v') = get_next_data_lem w v in (e ∙ sym (append-nil (unread w)), v')
  step_lem w (resize depth) v = unfold set_history_depth in (sym (append-nil (unread w)), v)

  pub added-cons : (c : Call A) (cs : List (Call A)) → added (c ∷ cs) ≡ added (c ∷ []) ++ added cs
  added-cons (add x) cs = refl
  added-cons get cs = refl
  added-cons (resize depth) cs = refl

  run_from_fifo :
      (w : SlidingWindow A) (cs : List (Call A))
      → IsValid w
      → ((run w cs).1 ++ unread (run w cs).0 ≡ unread w ++ added cs) × IsValid (run w cs).0
  unfolding run
  run_from_fifo w [] v = (sym (append-nil (unread w)), v)
  run_from_fifo w (c ∷ cs) v =
      let (e, v') = step_lem w c v in
      let (f, v'') = run_from_fifo (step w c).0 cs v' in
      (simp append_assoc (rw (f, ← append_assoc, e, append_assoc, added-cons c cs)), v'')

  -- What one read of a window does: with an item left, it hands out the oldest one and removes
  -- just that from what is left; with none left, it hands out nothing and changes nothing.
  abbrev pub Reads : SlidingWindow A → Type 0
  Reads w =
      ((x : A) × (xs : List A) × (unread w ≡ x ∷ xs)
        × (has_next_data w ≡ true)
        × ((get_next_data w).1 ≡ some x)
        × (unread (get_next_data w).0 ≡ xs))
      ⊎ ((unread w ≡ []) × (has_next_data w ≡ false) × (get_next_data w ≡ (w, none)))

  -- At a valid window: with an item left to read, `HasNextData` is true and `GetNextData` hands
  -- out the oldest one and removes just that from what is left; with none left `HasNextData` is
  -- false and `GetNextData` hands out nothing and leaves the window as it is.
  pub get_next_data-Reads : (w : SlidingWindow A) → IsValid w → Reads w
  unfolding has_next_data
  get_next_data-Reads w v = elim (Bool-cases (w.next_read == length w.storage)) [
    | inl e ↦
        let h = (==_iff w.next_read (length w.storage)).0 e in
        inr (
          length-eq-zero _ (omega (arith, length-drop w.next_read w.storage)),
          rw e,
          get_next_data-end w h,
        )
    | inr e ↦
        let h : w.next_read < length w.storage = ground arith in
        let (x, got, rest) = drop-get_elem? w.next_read w.storage h in
        inl (
          x,
          drop (suc w.next_read) w.storage,
          rest,
          rw e,
          rw (get_next_data-trimmed w h) got,
          rw (get_next_data-trimmed w h)
              (unread-trimmed (record w { next_read = suc w.next_read })),
        )
  ]

  -- The iterator of a window survives as many calls of `AddData` as the deque has room for.
  step-lost :
      (w : SlidingWindow A) (c : Call A)
      → w.lost ≡ false
      → length (added (c ∷ [])) ≤ w.room
      → ((step w c).0.lost ≡ false) × (w.room ≤ (step w c).0.room + length (added (c ∷ [])))
  unfolding step add_data get_next_data set_history_depth cleanup
  step-lost w (add x) kept h = (ground (arith, kept, h), omega arith)
  step-lost w get kept h = elim (Bool-cases (w.next_read == length w.storage)) [
    | inl e ↦ rw e (kept, omega arith)
    | inr e ↦ rw e (kept, omega arith)
  ]
  step-lost w (resize depth) kept h = (kept, omega arith)

  pub run-lost :
      (w : SlidingWindow A) (cs : List (Call A))
      → w.lost ≡ false
      → length (added cs) ≤ w.room
      → (run w cs).0.lost ≡ false
  unfolding run
  run-lost w [] kept h = kept
  run-lost w (c ∷ cs) kept h =
      let sum : length (added (c ∷ cs)) ≡ length (added (c ∷ [])) + length (added cs) =
        ap length (added-cons c cs) ∙ length-append (added (c ∷ [])) (added cs) in
      let (kept', left) = step-lost w c kept (omega (arith, sum, h)) in
      run-lost (step w c).0 cs kept' (omega (arith, sum, h, left))

  -- A client makes any calls, a change of the history depth included, that add no more items than
  -- the deque takes before `push_back` moves its table of blocks. Then the iterator that the window
  -- keeps is not invalidated, and what the window has delivered, followed by what it still has to
  -- deliver, is what was added, in that order: no item is lost, repeated or reordered. The cursor
  -- stays within the deque.
  pub run-new-fifo :
      (room depth : ℕ) (cs : List (Call A))
      → length (added cs) ≤ room
      → ((run (new room depth) cs).1 ++ unread (run (new room depth) cs).0 ≡ added cs)
        × IsValid (run (new room depth) cs).0
        × ((run (new room depth) cs).0.lost ≡ false)
  unfolding new
  run-new-fifo room depth cs h =
      let (e, v) = run_from_fifo (new room depth) cs (omega arith) in
      (e, v, run-lost (new room depth) cs refl h)
