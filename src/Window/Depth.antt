-- ===== src/Window/Depth.antt =====
-- How much a window remembers of what was read, when the depth of its history stays the same.
use new_cpp.Prelude.{
  ℕ, suc, Bool, false, ◌||◌, ◌+◌, ◌-◌, ◌≤◌, ◌<◌, ◌≡◌, refl, sym, ap, ap₂, ◌∙◌, some, List, [], ◌∷◌,
  ◌++◌, length, drop, min, arith, append_assoc, append-nil, length-append, length-drop, drop-append,
  drop-drop, drop-get_elem?, Bool-cases, ◌==◌, inl, inr, ==_iff,
}
use Prim.Native.Nat.add
use new_cpp.Window.History.{added-cons, run-lost}
use new_cpp.Window.{
  SlidingWindow, add_data, get_next_data, Call, add, get, resize, step, run, added, new,
}
use new_cpp.Window.Policy.{
  IsValid, zero_sub, zero_min, add_data-trimmed, get_next_data-end, get_next_data-trimmed,
}

-- The calls leave the depth alone.
abbrev pub IsFixed : {A : Type 0} → List (Call A) → Type 0
IsFixed [] = Unit {0}
IsFixed (add x ∷ cs) = IsFixed cs
IsFixed (get ∷ cs) = IsFixed cs
IsFixed (resize depth ∷ cs) = ⊥

module _ {A : Type 0} where
  -- The window after `written` was added and the first `read` items of it were read.
  abbrev at : ℕ → List A → ℕ → ℕ → Bool → SlidingWindow A
  at depth written read room lost = record {
    storage = drop (read - depth) written;
    next_read = min read depth;
    history_depth = depth;
    room = room;
    lost = lost;
  }

  at-length : (d : ℕ) (l : List A) (r k : ℕ) (b : Bool) → r ≤ length l → IsValid (at d l r k b)
  at-length d l r k b h = omega (arith, length-drop (r - d) l)

  add_data-at :
      (x : A) (d : ℕ) (l : List A) (r k : ℕ) (b : Bool)
      → r ≤ length l
      → add_data x (at d l r k b) ≡ at d (l ++ x ∷ []) r (k - 1) (b || (k == 0))
  add_data-at x d l r k b h =
      let e : min r d - d ≡ 0 = omega arith in
      let f : min (min r d) d ≡ min r d = omega arith in
      add_data-trimmed x (at d l r k b) (at-length d l r k b h)
      ∙ rw (e, f, drop-append (r - d) l (x ∷ []) (omega arith))

  get_next_data-at :
      (d : ℕ) (l : List A) (r k : ℕ) (b : Bool)
      → r < length l
      → (get_next_data (at d l r k b)).0 ≡ at d l (suc r) k b
  get_next_data-at d l r k b h =
      let e : r - d + (suc (min r d) - d) ≡ suc r - d = omega arith in
      let f : min (suc (min r d)) d ≡ min (suc r) d = omega arith in
      rw (
        get_next_data-trimmed (at d l r k b) (omega (arith, length-drop (r - d) l)),
        f,
        drop-drop,
        e,
      )

  -- One call at such a window leads to another such window.
  step-at :
      (d : ℕ) (l : List A) (r k : ℕ) (b : Bool) (c : Call A)
      → r ≤ length l
      → IsFixed (c ∷ [])
      → let (w, out) = step (at d l r k b) c in
        (k' : ℕ) × (b' : Bool) × (w ≡ at d (l ++ added (c ∷ [])) (r + length out) k' b')
        × (r + length out ≤ length (l ++ added (c ∷ [])))
  unfolding step
  step-at d l r k b (add x) h fixed =
      let e : r + 0 ≡ r = omega arith in
      (
        k - 1,
        b || (k == 0),
        rw (e, add_data-at x d l r k b h),
        omega (arith, length-append l (x ∷ [])),
      )
  step-at d l r k b get h fixed = elim (Bool-cases (r == length l)) [
    | inl e ↦
        let stay =
          get_next_data-end (at d l r k b)
            (omega (arith, length-drop (r - d) l, (==_iff _ _).0 e)) in
        let f : r + 0 ≡ r = omega arith in
        (k, b, rw (stay, f, append-nil l), rw (stay, f, append-nil l) h)
    | inr e ↦
        let lt : r < length l = ground arith in
        let in_range : min r d < length (drop (r - d) l) = omega (arith, length-drop (r - d) l) in
        let (x, got, rest) = drop-get_elem? (min r d) (drop (r - d) l) in_range in
        let one : (get_next_data (at d l r k b)).1 ≡ some x =
          rw (get_next_data-trimmed (at d l r k b) in_range) got in
        let f : r + 1 ≡ suc r = omega arith in
        (
          k,
          b,
          rw (one, f, append-nil l) (get_next_data-at d l r k b lt),
          rw (one, f, append-nil l) lt,
        )
  ]
  step-at d l r k b (resize depth) h fixed = absurd fixed

  IsFixed-cons :
      (c : Call A) (cs : List (Call A)) → IsFixed (c ∷ cs) → IsFixed (c ∷ []) × IsFixed cs
  IsFixed-cons (add x) cs h = (tt, h)
  IsFixed-cons get cs h = (tt, h)
  IsFixed-cons (resize depth) cs h = absurd h

  total : (xs ys : List A) (r : ℕ) → r + length xs + length ys ≡ r + length (xs ++ ys)
  total xs ys r = omega (arith, length-append xs ys)

  at-new : (room d : ℕ) → at d [] 0 room false ≡ new room d
  unfolding new
  at-new room d = rw (zero_sub d, zero_min d)

  run-at :
      (d : ℕ) (l : List A) (r k : ℕ) (b : Bool) (cs : List (Call A))
      → r ≤ length l
      → IsFixed cs
      → let (w, out) = run (at d l r k b) cs in
        (k' : ℕ) × (b' : Bool) × (w ≡ at d (l ++ added cs) (r + length out) k' b')
  unfolding run
  run-at d l r k b [] h fixed = let e : r + 0 ≡ r = omega arith in (k, b, rw (e, append-nil l))
  run-at d l r k b (c ∷ cs) h fixed =
      let (one, others) = IsFixed-cons c cs fixed in
      let (k_1, b_1, e, h') = step-at d l r k b c h one in
      let (k_2, b_2, ih) =
        run-at d (l ++ added (c ∷ [])) (r + length (step (at d l r k b) c).1) k_1 b_1 cs h'
          others in
      (
        k_2,
        b_2,
        rw e (
            ih
            ∙ ap₂ (λ m n. at d m n k_2 b_2)
                (append_assoc l (added (c ∷ [])) (added cs)
                  ∙ ap (λ m. l ++ m) (sym (added-cons c cs)))
                (total _ _ r)),
      )

  -- With the depth left alone, and no more items added than the deque takes before `push_back` moves
  -- its table of blocks, the iterator is not invalidated, and the deque holds just what the policy
  -- promises: of all that was added, the items not yet read and the last `depth` of those that were;
  -- the cursor stands between the two.
  pub run-new-history :
      (room depth : ℕ) (cs : List (Call A))
      → IsFixed cs
      → length (added cs) ≤ room
      → let (w, out) = run (new room depth) cs in
        (w.storage ≡ drop (length out - depth) (added cs))
        × (w.next_read ≡ min (length out) depth)
        × (w.lost ≡ false)
  run-new-history room depth cs fixed h =
      let (_, _, at_end) = run-at depth [] 0 room false cs (omega arith) fixed in
      let e = rw (at-new room depth) at at_end in
      let n = add.zero (length (run (new room depth) cs).1) in
      (
        ap (λ w. w.storage) e ∙ rw n,
        ap (λ w. w.next_read) e ∙ rw n,
        run-lost (new room depth) cs (unfold new in refl) (unfold new in h),
      )
