-- ===== src/Window/Manager.antt =====
-- MLCommon/inc/Tools/SlidingWindowMgr.h: windows by name. The `unordered_map` is an association
-- list that holds a name at most once as far as lookups can tell; a `throw` is `err`.
use text.Mathlib.Text.{◌==◌}
use text.Mathlib.TextEquality.{eq_iff}
use Prim.Native.String.{String}
use new_cpp.Prelude.{
  ℕ, ◌≡◌, refl, ◌⊎◌, inl, inr, Option, none, some, List, [], ◌∷◌, arith, if◌then◌else◌,
  Option-cases, ◌≢◌,
}
use new_cpp.Window.{SlidingWindow, new, add_data}

-- The `runtime_error`s of `getWindow` and `addData`, with the name that they mention.
pub data Error : Type 0 where
  no_window no_window_to_add : String → Error

pub data Result (A : Type 0) : Type 0 where
  ok : A → Result A
  err : Error → Result A

module _ {A : Type 0} where
  unfoldable pub find : String → List (String × SlidingWindow A) → Option (SlidingWindow A)
  find name [] = none
  find name ((k, w) ∷ m) = if k == name then some w else find name m

  -- `addWindow`, with the room of a new deque. `emplace` leaves a window that has the name already as it is.
  unfoldable pub add_window :
      ℕ → String → ℕ → List (String × SlidingWindow A) → List (String × SlidingWindow A)
  add_window room name window_size m = elim (find name m) [
    | none ↦ (name, new room window_size) ∷ m
    | some w ↦ m
  ]

  unfoldable pub get_window : String → List (String × SlidingWindow A) → Result (SlidingWindow A)
  get_window name m = elim (find name m) [ none ↦ err (no_window name) | some w ↦ ok w ]

  -- A change made through the reference that `find` or `getWindow` returns.
  unfoldable pub write :
      String → SlidingWindow A → List (String × SlidingWindow A) → List (String × SlidingWindow A)
  write name v [] = []
  write name v ((k, w) ∷ m) = if k == name then (k, v) ∷ m else (k, w) ∷ write name v m

  unfoldable pub add_data_to :
      String → A → List (String × SlidingWindow A) → Result (List (String × SlidingWindow A))
  add_data_to name x m = elim (find name m) [
    | none ↦ err (no_window_to_add name)
    | some w ↦ ok (write name (add_data x w) m)
  ]

  find-write :
      (k j : String) (v : SlidingWindow A) (m : List (String × SlidingWindow A))
      → find k m ≢ none
      → find j (write k v m) ≡ (if k == j then some v else find j m)
  unfolding find write
  find-write k j v [] h = absurd (h refl)
  find-write k j v ((i, w) ∷ m) h =
      ground (arith, eq_iff k j, eq_iff i k, eq_iff i j, find-write k j v m)

  -- What a lookup of `j` finds after `addWindow` for `k`.
  abbrev pub AddsWindow : ℕ → String → String → ℕ → List (String × SlidingWindow A) → Type 0
  AddsWindow room k j n m =
      ((find k m ≡ none)
        × (find j (add_window room k n m) ≡ (if k == j then some (new room n) else find j m)))
      ⊎ ((find k m ≢ none) × (add_window room k n m ≡ m))

  -- A new name gets an empty window of the given depth and no other name is touched; a name that
  -- is taken keeps its window, and the manager stays as it is.
  pub add_window-AddsWindow :
      (room : ℕ) (k j : String) (n : ℕ) (m : List (String × SlidingWindow A))
      → AddsWindow room k j n m
  unfolding add_window find
  add_window-AddsWindow room k j n m = elim (Option-cases (find k m)) [
    | inl e ↦ inl (e, rw (e, add_window))
    | inr (w, e) ↦ inr ((λ f. cc), rw (e, add_window))
  ]

  -- What `getWindow` for `k` returns, and a lookup of `j` finds after `addData` for `k`.
  abbrev pub AddsData : String → String → A → List (String × SlidingWindow A) → Type 0
  AddsData k j x m =
      ((w : SlidingWindow A) × (m' : List (String × SlidingWindow A)) × (get_window k m ≡ ok w)
        × (add_data_to k x m ≡ ok m')
        × (find j m' ≡ (if k == j then some (add_data x w) else find j m)))
      ⊎ ((get_window k m ≡ err (no_window k)) × (add_data_to k x m ≡ err (no_window_to_add k)))

  -- Data for a name goes into the window that `getWindow` returns for it, as `AddData` puts it
  -- there, and no other name is touched; or both calls throw.
  pub add_data_to-AddsData :
      (k j : String) (x : A) (m : List (String × SlidingWindow A)) → AddsData k j x m
  unfolding add_data_to get_window
  add_data_to-AddsData k j x m = elim (Option-cases (find k m)) [
    | inl e ↦ inr (rw (e, get_window), rw (e, add_data_to))
    | inr (w, e) ↦ inl (
      w,
      write k (add_data x w) m,
      rw (e, get_window),
      rw (e, add_data_to),
      find-write k j (add_data x w) m (λ f. cc),
    )
  ]
