-- ===== src/Deploy/Devices/Tests.antt =====
-- Two storages, one of which is mounted.
use new_cpp.Prelude.{ℕ, ◌≡◌, ◌≤◌, ◌+◌, refl, Bool, true, false, none, some, Option, List, [], ◌∷◌}
use new_cpp.Prelude.Text.{codes}
use new_cpp.Deploy.Devices.{
  Turn, received, processed, turn, turns, handle_device, is_add, is_remove, begins_with,
  erase_device, check_if_same_device, process_devices, same_text,
}
use new_cpp.Deploy.Devices.Waiting.{count, added, turns-once, turns-none_lost}

abbrev is_first : Option (List ℕ) → Bool
is_first none = false
is_first (some p) = same_text p (codes "/usb/1")

abbrev any_device : Option (List ℕ) → Bool
any_device dev = true

abbrev plugged : List Turn
plugged =
    received (codes "add") (some (codes "/usb/1"))
    ∷ received (codes "add") (some (codes "/usb/2"))
    ∷ processed is_first
    ∷ []

turns-plugged : turns plugged ([], []) ≡ (some (codes "/usb/1") ∷ [], some (codes "/usb/2") ∷ [])
unfolding turns turn handle_device is_add is_remove begins_with erase_device check_if_same_device
    process_devices same_text
turns-plugged = refl

turns-unplugged :
    turns (received (codes "remove") (some (codes "/usb/2")) ∷ []) ([], some (codes "/usb/2") ∷ [])
    ≡ ([], [])
unfolding turns turn handle_device is_add is_remove begins_with erase_device check_if_same_device
    same_text
turns-unplugged = refl

turns-once_example :
    count any_device (turns plugged ([], [])).0 + count any_device (turns plugged ([], [])).1
    ≤ added any_device plugged
turns-once_example = turns-once any_device plugged

turns-none_lost_example :
    count any_device (turns plugged ([], [])).0 + count any_device (turns plugged ([], [])).1
    ≡ added any_device plugged
turns-none_lost_example =
    turns-none_lost any_device plugged (unfold is_remove begins_with in (refl, (refl, tt)))
