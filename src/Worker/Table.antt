-- ===== src/Worker/Table.antt =====
-- The list of timers as a table by identifier.
use new_cpp.Prelude.{
  true, false, ℕ, ◌≡◌, ◌≢◌, refl, none, some, List, [], ◌∷◌, ◌++◌, arith, ◌==◌, if◌then◌else◌,
}
use new_cpp.Timer.{Timer}
use new_cpp.Worker.{get_timer, add_timer, remove_timer, update_timer}

-- Each identifier stands once and is not 0.
abbrev pub IsTable : List Timer → Type 0
IsTable [] = Unit {0}
IsTable (t ∷ ts) = (get_timer t.timer_id ts ≡ none) × (t.timer_id ≢ 0) × IsTable ts

pub get_timer-id :
    (id : ℕ) (ts : List Timer) (t : Timer) → get_timer id ts ≡ some t → t.timer_id ≡ id
unfolding get_timer
get_timer-id id [] t e = cc
get_timer-id id (x ∷ xs) t e = ground (arith, get_timer-id id xs t)

pub get_timer-remove :
    (i j : ℕ) (ts : List Timer)
    → IsTable ts
    → get_timer j (remove_timer i ts) ≡ (if i == j then none else get_timer j ts)
unfolding get_timer remove_timer
get_timer-remove i j [] h = ground arith
get_timer-remove i j (t ∷ ts) h = ground (arith, get_timer-remove i j ts h.2)

pub get_timer-update :
    (i j : ℕ) (f : Timer → Timer) (ts : List Timer)
    → ((t : Timer) → (f t).timer_id ≡ t.timer_id)
    → get_timer j (update_timer i f ts) ≡ (
        if i == j
        then elim (get_timer j ts) [ none ↦ none | some t ↦ some (f t) ]
        else get_timer j ts)
unfolding get_timer update_timer
get_timer-update i j f [] h = ground arith
get_timer-update i j f (t ∷ ts) h = ground (arith, h t, get_timer-update i j f ts h)

get_timer-snoc :
    (j : ℕ) (t : Timer) (ts : List Timer)
    → get_timer t.timer_id ts ≡ none
    → get_timer j (ts ++ t ∷ []) ≡ (if t.timer_id == j then some t else get_timer j ts)
unfolding get_timer
get_timer-snoc j t [] h = ground arith
get_timer-snoc j t (x ∷ ts) h = ground (arith, get_timer-snoc j t ts)

IsTable-snoc :
    (t : Timer) (ts : List Timer)
    → get_timer t.timer_id ts ≡ none
    → t.timer_id ≢ 0
    → IsTable ts
    → IsTable (ts ++ t ∷ [])
unfolding get_timer
IsTable-snoc t [] h ne tab = (refl, ne, tt)
IsTable-snoc t (x ∷ ts) h ne tab = (
  ground (arith, get_timer-snoc x.timer_id t ts),
  tab.1,
  IsTable-snoc t ts (ground arith) ne tab.2,
)

pub remove_timer-IsTable : (i : ℕ) (ts : List Timer) → IsTable ts → IsTable (remove_timer i ts)
unfolding remove_timer
remove_timer-IsTable i [] h = tt
remove_timer-IsTable i (t ∷ ts) h =
    ground (arith, get_timer-remove i t.timer_id ts h.2, remove_timer-IsTable i ts h.2)

pub update_timer-IsTable :
    (i : ℕ) (f : Timer → Timer) (ts : List Timer)
    → ((t : Timer) → (f t).timer_id ≡ t.timer_id)
    → IsTable ts
    → IsTable (update_timer i f ts)
unfolding update_timer
update_timer-IsTable i f [] k h = tt
update_timer-IsTable i f (t ∷ ts) k h =
    ground (arith, k t, get_timer-update i t.timer_id f ts k, update_timer-IsTable i f ts k h.2)

pub get_timer-zero : (ts : List Timer) → IsTable ts → get_timer 0 ts ≡ none
unfolding get_timer
get_timer-zero [] h = refl
get_timer-zero (t ∷ ts) h = ground (arith, get_timer-zero ts h.2)

pub add_timer-new :
    (t : Timer) (ts : List Timer)
    → IsTable ts
    → get_timer t.timer_id ts ≡ none
    → t.timer_id ≢ 0
    → (ts' : List Timer) × (add_timer t ts ≡ (ts', true))
      × IsTable ts'
      × ((j : ℕ) → get_timer j ts' ≡ (if t.timer_id == j then some t else get_timer j ts))
unfolding add_timer
add_timer-new t ts tab e ne =
    (ts ++ t ∷ [], ground arith, IsTable-snoc t ts e ne tab, λ j. get_timer-snoc j t ts e)

pub add_timer-zero : (t : Timer) (ts : List Timer) → t.timer_id ≡ 0 → add_timer t ts ≡ (ts, false)
unfolding add_timer
add_timer-zero t ts e = ground arith
