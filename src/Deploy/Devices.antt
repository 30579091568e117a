-- ===== src/Deploy/Devices.antt =====
-- DeploymentAgent/src/usb_mass_storage_monitor.h: the devices that wait for their mount point.
-- A device is its path in the system's tree of devices, `none` if it has no path. The order in which
-- `std::partition` goes through the devices is not fixed; here it is that of the list.
use new_cpp.Prelude.{
  ℕ, Bool, true, false, ◌&&◌, Option, none, some, List, [], ◌∷◌, ◌++◌, ◌==◌, take, if◌then◌else◌,
}
use new_cpp.Prelude.Text.{codes}
mod Waiting
mod Tests

unfoldable pub same_text : List ℕ → List ℕ → Bool
same_text [] [] = true
same_text [] (y ∷ ys) = false
same_text (x ∷ xs) [] = false
same_text (x ∷ xs) (y ∷ ys) = (x == y) && same_text xs ys

-- `RawDevice::checkIfSameDevice`: `strncmp` over 255 bytes.
unfoldable pub check_if_same_device : Option (List ℕ) → Option (List ℕ) → Bool
check_if_same_device none other = false
check_if_same_device (some this) none = false
check_if_same_device (some this) (some other) = same_text (take 255 this) (take 255 other)

-- `strncmp(name, action, n) == 0` for a name of `n` bytes.
unfoldable pub begins_with : List ℕ → List ℕ → Bool
begins_with [] action = true
begins_with (x ∷ name) [] = false
begins_with (x ∷ name) (y ∷ action) = (x == y) && begins_with name action

unfoldable pub erase_device : Option (List ℕ) → List (Option (List ℕ)) → List (Option (List ℕ))
erase_device dev [] = []
erase_device dev (d ∷ ds) =
    let rest = erase_device dev ds in if check_if_same_device d dev then ds else d ∷ rest

unfoldable pub is_add : List ℕ → Bool
is_add action = begins_with (codes "add") action

unfoldable pub is_remove : List ℕ → Bool
is_remove action = begins_with (codes "remove") action

-- `handleIncommingEvents`, with the action and the device that are received.
unfoldable pub handle_device :
    List ℕ → Option (List ℕ) → List (Option (List ℕ)) → List (Option (List ℕ))
handle_device action dev delayed =
    if is_add action
    then delayed ++ dev ∷ []
    else if is_remove action
    then erase_device dev delayed
    else delayed

-- `process`, with the test if a device is mounted: the devices that the consumer is called for, and
-- those that go on waiting.
unfoldable pub process_devices :
    (Option (List ℕ) → Bool)
    → List (Option (List ℕ))
    → List (Option (List ℕ)) × List (Option (List ℕ))
process_devices mounted [] = ([], [])
process_devices mounted (d ∷ ds) =
    let (ready, waiting) = process_devices mounted ds in
    if mounted d then (d ∷ ready, waiting) else (ready, d ∷ waiting)

-- What the loop of the observer does with the monitor.
pub data Turn : Type 0 where
  received : List ℕ → Option (List ℕ) → Turn
  processed : (Option (List ℕ) → Bool) → Turn

-- The devices handed on so far, and those that wait, after some turns.
unfoldable pub turn :
    Turn
    → List (Option (List ℕ)) × List (Option (List ℕ))
    → List (Option (List ℕ)) × List (Option (List ℕ))
turn (received action dev) (handed, delayed) = (handed, handle_device action dev delayed)
turn (processed mounted) (handed, delayed) =
    let (ready, waiting) = process_devices mounted delayed in (handed ++ ready, waiting)

unfoldable pub turns :
    List Turn
    → List (Option (List ℕ)) × List (Option (List ℕ))
    → List (Option (List ℕ)) × List (Option (List ℕ))
turns [] s = s
turns (t ∷ ts) s = turns ts (turn t s)
