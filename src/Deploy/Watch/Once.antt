-- ===== src/Deploy/Watch/Once.antt =====
-- Which files the consumer gets.
use new_cpp.Prelude.{
  ℕ, ◌+◌, ◌*◌, leb, arith, ap₂, ◌∙◌, ◌≡◌, refl, Bool, true, false, not, ◌&&◌, suc, List, [], ◌∷◌,
  if◌then◌else◌, Bool-cases, inl, inr,
}
use new_cpp.Deploy.Watch.{
  FolderMonitor, WatchedFile, is_ready, not_touched_in, process_files, process_monitor,
}

-- The files that pass a test, which sees their place; an independent account of the calls.
abbrev pub passing : (ℕ → WatchedFile → Bool) → ℕ → List WatchedFile → List (List ℕ)
passing test i [] = []
passing test i (f ∷ fs) =
    if test i f then f.path ∷ passing test (suc i) fs else passing test (suc i) fs

-- A file that may be handed out: it was not, nobody has it open, and at least one millisecond more
-- than the timeout has passed since it was touched; times in nanoseconds.
abbrev pub due : ℕ → ℕ → WatchedFile → Bool
due now timeout f =
    if f.consumed
    then false
    else if f.in_use
    then false
    else leb ((timeout + 1) * 1000000 + f.last_access_time) now

process_files-passing :
    (clock : ℕ → ℕ) (timeout i : ℕ) (fs : List WatchedFile)
    → (process_files clock timeout i fs).0 ≡ passing (λ k f. is_ready (clock k) timeout f) i fs
unfolding process_files
process_files-passing clock timeout i [] = refl
process_files-passing clock timeout i (f ∷ fs) =
    let ih = process_files-passing clock timeout (suc i) fs in
    elim (Bool-cases (is_ready (clock i) timeout f)) [ inl e ↦ rw (e, ih) | inr e ↦ rw (e, ih) ]

is_ready-consumed :
    (now timeout : ℕ) (f : WatchedFile)
    → is_ready now timeout (record f { consumed = true }) ≡ false
unfolding is_ready
is_ready-consumed now timeout f = refl

process_files-again :
    (c d : ℕ → ℕ) (t u i : ℕ) (fs : List WatchedFile)
    → (process_files d u i (process_files c t i fs).1).0
      ≡ passing (λ k f. not (is_ready (c k) t f) && is_ready (d k) u f) i fs
unfolding process_files
process_files-again c d t u i [] = refl
process_files-again c d t u i (f ∷ fs) =
    let ih = process_files-again c d t u (suc i) fs in
    elim (Bool-cases (is_ready (c i) t f)) [
      | inl e ↦ rw (e, is_ready-consumed (d i) u f, ih)
      | inr e ↦ elim (Bool-cases (is_ready (d i) u f)) [
        | inl g ↦ rw (e, g, ih)
        | inr g ↦ rw (e, g, ih)
      ]
    ]

-- Two calls of `process`, at any times, with no event between them.
pub record Handed (c d : ℕ → ℕ) (m : FolderMonitor) : Type 0 where
  pub first :
      (process_monitor c m).0 ≡ passing (λ k f. due (c k) m.file_ready_timeout f) 0 m.watched_files
  pub second :
      (process_monitor d (process_monitor c m).1).0
      ≡ passing
          (λ k f. not (due (c k) m.file_ready_timeout f) && due (d k) m.file_ready_timeout f)
          0
          m.watched_files

is_ready-due : (now timeout : ℕ) (f : WatchedFile) → is_ready now timeout f ≡ due now timeout f
unfolding is_ready not_touched_in
is_ready-due now timeout f = ground arith

passing-ext :
    (p q : ℕ → WatchedFile → Bool)
    → ((k : ℕ) (f : WatchedFile) → p k f ≡ q k f)
    → (i : ℕ) (fs : List WatchedFile) → passing p i fs ≡ passing q i fs
passing-ext p q h i [] = refl
passing-ext p q h i (f ∷ fs) = rw (h i f, passing-ext p q h (suc i) fs)

-- The first call hands the consumer exactly the files that are ready, in order: not consumed, not in
-- use, and not touched for more whole milliseconds than the timeout has, each at the time when its
-- turn comes. The second one hands it exactly those that are ready then and were not at the first:
-- no file is handed out twice.
pub process_monitor-Handed : (c d : ℕ → ℕ) (m : FolderMonitor) → Handed c d m
unfolding process_monitor
process_monitor-Handed c d m = record {
  first =
      process_files-passing c m.file_ready_timeout 0 m.watched_files
      ∙ passing-ext _ _ (λ k f. is_ready-due (c k) m.file_ready_timeout f) 0 m.watched_files;
  second =
      process_files-again c d m.file_ready_timeout m.file_ready_timeout 0 m.watched_files
      ∙ passing-ext _ _
          (λ k f.
            ap₂ (λ a b. not a && b) (is_ready-due (c k) m.file_ready_timeout f)
              (is_ready-due (d k) m.file_ready_timeout f))
          0 m.watched_files;
}
