-- ===== src/Deploy/Devices/Waiting.antt =====
-- How often a device is handed on.
use new_cpp.Prelude.{
  ℕ, suc, ◌+◌, ◌≤◌, ◌≡◌, Bool, false, Option, List, [], ◌∷◌, ◌++◌, if◌then◌else◌, Bool-cases, inl,
  inr, arith,
}
use new_cpp.Deploy.Devices.{
  erase_device, handle_device, is_add, is_remove, process_devices, Turn, received, processed, turn,
  turns,
}

-- How many devices of a list pass a test.
abbrev pub count : (Option (List ℕ) → Bool) → List (Option (List ℕ)) → ℕ
count test [] = 0
count test (d ∷ ds) = if test d then suc (count test ds) else count test ds

-- How many devices that pass a test were added.
abbrev pub added : (Option (List ℕ) → Bool) → List Turn → ℕ
added test [] = 0
added test (received action dev ∷ ts) =
    if is_add action
    then (if test dev then suc (added test ts) else added test ts)
    else added test ts
added test (processed mounted ∷ ts) = added test ts

count-append :
    (test : Option (List ℕ) → Bool) (xs ys : List (Option (List ℕ)))
    → count test (xs ++ ys) ≡ count test xs + count test ys
count-append test [] ys = omega arith
count-append test (x ∷ xs) ys =
    let ih = count-append test xs ys in
    elim (Bool-cases (test x)) [ inl e ↦ rw e (omega (arith, ih)) | inr e ↦ rw e ih ]

count-erase_device :
    (test : Option (List ℕ) → Bool) (dev : Option (List ℕ)) (ds : List (Option (List ℕ)))
    → count test (erase_device dev ds) ≤ count test ds
unfolding erase_device
count-erase_device test dev [] = omega arith
count-erase_device test dev (d ∷ ds) = ground (arith, count-erase_device test dev ds)

count-process_devices :
    (test mounted : Option (List ℕ) → Bool) (ds : List (Option (List ℕ)))
    → count test (process_devices mounted ds).0 + count test (process_devices mounted ds).1
      ≡ count test ds
unfolding process_devices
count-process_devices test mounted [] = omega arith
count-process_devices test mounted (d ∷ ds) = ground (arith, count-process_devices test mounted ds)

turn-count :
    (test : Option (List ℕ) → Bool) (t : Turn) (ts : List Turn)
    (handed delayed : List (Option (List ℕ)))
    → count test (turn t (handed, delayed)).0
        + count test (turn t (handed, delayed)).1
        + added test ts
      ≤ count test handed + count test delayed + added test (t ∷ ts)
unfolding turn handle_device
turn-count test (received action dev) ts handed delayed =
    let snoc = count-append test delayed (dev ∷ []) in
    let fewer = count-erase_device test dev delayed in ground (arith, snoc, fewer)
turn-count test (processed mounted) ts handed delayed =
    let (ready, waiting) = process_devices mounted delayed in
    let joined = count-append test handed ready in
    let parts = count-process_devices test mounted delayed in omega (arith, joined, parts)

turns-count :
    (test : Option (List ℕ) → Bool) (ts : List Turn) (handed delayed : List (Option (List ℕ)))
    → count test (turns ts (handed, delayed)).0 + count test (turns ts (handed, delayed)).1
      ≤ count test handed + count test delayed + added test ts
unfolding turns
turns-count test [] handed delayed = omega arith
turns-count test (t ∷ ts) handed delayed =
    let (handed_1, delayed_1) = turn t (handed, delayed) in
    let step = turn-count test t ts handed delayed in
    let rest = turns-count test ts handed_1 delayed_1 in omega (arith, step, rest)

-- In any order of events and of looks at the devices, whatever is mounted at each look: the devices
-- that were handed on and those that still wait are together no more than those that were added,
-- and so it is for the devices of any kind, such as those with a given path. So a device is handed
-- on at most once for each time that it is plugged in.
pub turns-once :
    (test : Option (List ℕ) → Bool) (ts : List Turn)
    → count test (turns ts ([], [])).0 + count test (turns ts ([], [])).1 ≤ added test ts
turns-once test ts = let h = turns-count test ts [] [] in omega (arith, h)

-- No device is unplugged in a run.
abbrev pub IsPlugged : List Turn → Type 0
IsPlugged [] = Unit {0}
IsPlugged (received action dev ∷ ts) = (is_remove action ≡ false) × IsPlugged ts
IsPlugged (processed mounted ∷ ts) = IsPlugged ts

turns-count-IsPlugged :
    (test : Option (List ℕ) → Bool) (ts : List Turn) (handed delayed : List (Option (List ℕ)))
    → IsPlugged ts
    → count test (turns ts (handed, delayed)).0 + count test (turns ts (handed, delayed)).1
      ≡ count test handed + count test delayed + added test ts
unfolding turns turn handle_device
turns-count-IsPlugged test [] handed delayed h = omega arith
turns-count-IsPlugged test (received action dev ∷ ts) handed delayed h =
    let snoc = count-append test delayed (dev ∷ []) in
    let after = turns-count-IsPlugged test ts handed (handle_device action dev delayed) h.1 in
    let step : count test (handle_device action dev delayed) + added test ts
        ≡ count test delayed + added test (received action dev ∷ ts) =
      ground (arith, snoc, h.0) in
    omega (arith, after, step)
turns-count-IsPlugged test (processed mounted ∷ ts) handed delayed h =
    let (ready, waiting) = process_devices mounted delayed in
    let joined = count-append test handed ready in
    let parts = count-process_devices test mounted delayed in
    let after = turns-count-IsPlugged test ts (handed ++ ready) waiting h in
    omega (arith, joined, parts, after)

-- In a run in which no device is unplugged, and for the devices of any kind: those that were handed
-- on and those that still wait are together as many as were added. So no device is forgotten.
pub turns-none_lost :
    (test : Option (List ℕ) → Bool) (ts : List Turn)
    → IsPlugged ts
    → count test (turns ts ([], [])).0 + count test (turns ts ([], [])).1 ≡ added test ts
turns-none_lost test ts h = let all = turns-count-IsPlugged test ts [] [] h in omega (arith, all)
