-- ===== src/Window/Policy.antt =====
-- What the loop of `MaxHistoryCleanupPolicy::cleanup` leaves.
use new_cpp.Prelude.{
  ℕ, zero, suc, ◌+◌, ◌-◌, ◌≤◌, ◌<◌, ◌≡◌, refl, ap, ◌∙◌, none, List, [], ◌∷◌, ◌++◌, length, drop,
  min, get_elem?, arith, length-append, drop-drop, Bool-cases, ltb, ltb→lt, ltb→le, ◌==◌, ◌||◌, inl,
  inr, ==_iff,
}
use new_cpp.Window.{SlidingWindow, pop_front, cleanup_loop, cleanup, add_data, get_next_data}

pub zero_sub : (n : ℕ) → 0 - n ≡ 0
zero_sub n = omega arith

pub zero_min : (n : ℕ) → min 0 n ≡ 0
zero_min n = omega arith

module _ {A : Type 0} where
  drop-pop_front : (n : ℕ) (xs : List A) → drop n (pop_front xs) ≡ drop (suc n) xs
  drop-pop_front zero [] = refl
  drop-pop_front (suc n) [] = refl
  drop-pop_front n (x ∷ xs) = refl

  -- Everything more than `depth` elements behind the cursor goes, and nothing else.
  pub cleanup_loop-drop :
      (depth : ℕ) (xs : List A) (n : ℕ)
      → cleanup_loop depth xs n ≡ (drop (n - depth) xs, min n depth)
  unfolding cleanup_loop
  cleanup_loop-drop depth xs zero = rw (zero_sub depth, zero_min depth)
  cleanup_loop-drop depth xs (suc n) = elim (Bool-cases (ltb depth (suc n))) [
    | inl more ↦
        let h : depth ≤ n = omega (arith, ltb→lt depth (suc n) more) in
        let e : suc n - depth ≡ suc (n - depth) = omega arith in
        let f : min n depth ≡ min (suc n) depth = omega arith in
        rw (more, cleanup_loop-drop depth (pop_front xs) n, drop-pop_front (n - depth) xs, e, f)
    | inr done ↦
        let h : suc n ≤ depth = ltb→le depth (suc n) done in
        let e : suc n - depth ≡ 0 = omega arith in
        let f : min (suc n) depth ≡ suc n = omega arith in rw (done, e, f)
  ]

  -- The cursor is within the deque.
  abbrev pub IsValid : SlidingWindow A → Type 0
  IsValid w = w.next_read ≤ length w.storage

  abbrev pub unread : SlidingWindow A → List A
  unread w = drop w.next_read w.storage

  -- The window after `cleanup`, in closed form.
  abbrev pub trimmed : SlidingWindow A → SlidingWindow A
  trimmed w = record w {
    storage = drop (w.next_read - w.history_depth) w.storage;
    next_read = min w.next_read w.history_depth;
  }

  pub cleanup-trimmed : (w : SlidingWindow A) → cleanup w ≡ trimmed w
  unfolding cleanup
  cleanup-trimmed w = rw (cleanup_loop-drop w.history_depth w.storage w.next_read)

  pub unread-trimmed : (w : SlidingWindow A) → unread (trimmed w) ≡ unread w
  unread-trimmed w =
      drop-drop _ _ w.storage
      ∙ ap (λ k. drop k w.storage)
          (let e : w.next_read - w.history_depth + min w.next_read w.history_depth ≡ w.next_read =
              omega arith in
            e)

  -- The end test that `AddData` makes after the push never holds: the cursor is left alone.
  pub add_data-trimmed :
      (x : A) (w : SlidingWindow A)
      → IsValid w
      → add_data x w
        ≡ trimmed (record w {
          storage = w.storage ++ x ∷ [];
          room = w.room - 1;
          lost = w.lost || (w.room == 0);
        })
  unfolding add_data
  add_data-trimmed x w v = elim (Bool-cases (w.next_read == length (w.storage ++ x ∷ []))) [
    | inl e ↦ absurd (omega (arith, (==_iff _ _).0 e, length-append w.storage (x ∷ [])))
    | inr e ↦ rw e (cleanup-trimmed _)
  ]

  -- A read at the end delivers nothing, and any other the element under the cursor.
  pub get_next_data-end :
      (w : SlidingWindow A) → w.next_read ≡ length w.storage → get_next_data w ≡ (w, none)
  unfolding get_next_data
  get_next_data-end w e = rw ((==_iff w.next_read (length w.storage)).1 e)

  pub get_next_data-trimmed :
      (w : SlidingWindow A)
      → w.next_read < length w.storage
      → get_next_data w
        ≡ (trimmed (record w { next_read = suc w.next_read }), get_elem? w.storage w.next_read)
  unfolding get_next_data
  get_next_data-trimmed w h = elim (Bool-cases (w.next_read == length w.storage)) [
    | inl e ↦ absurd (omega (arith, (==_iff _ _).0 e))
    | inr e ↦ rw e (rw (cleanup-trimmed (record w { next_read = suc w.next_read })))
  ]
