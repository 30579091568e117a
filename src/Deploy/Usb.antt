-- ===== src/Deploy/Usb.antt =====
-- DeploymentAgent/src/temporary_folder.h and usb_processing_pipeline.h: what is done with a
-- mounted storage.
use new_cpp.Prelude.{ℕ, Bool, true, not, Option, none, some, List, [], ◌∷◌, ◌++◌, if◌then◌else◌}
use new_cpp.Prelude.Text.{codes, back_is, is_empty}
use new_cpp.Deploy.Os.{Os, Machine}
use new_cpp.Deploy.Mover.{move_files}
use new_cpp.Deploy.Package.{InstallPkg, all_files, set_root_path, detect}
use new_cpp.Deploy.Pipeline.{Configuration}
pub mod Leftovers
pub mod Places

-- The calls that `TemporaryFolder` makes: ten random letters, `mkdir`, and `nftw` with a `remove` of
-- everything, the folder last. The Booleans say that a result is not negative.
pub record Folders (os : Os) : Type 0 where
  pub random_name : os.World → List ℕ × os.World
  pub make_folder : List ℕ → os.World → Bool × os.World
  pub remove_tree : List ℕ → os.World → Bool × os.World

-- How a run ends: the constructor of the temporary folder throws, or one of the messages.
pub data Ended : Type 0 where
  thrown no_package no_destination not_moved : Ended
  processed : Bool → Ended

unfoldable pub temp_key : List ℕ
temp_key = codes "usbTempPath"

module _ (os : Os) (folders : Folders os) where
  open os use {World, good}
  open folders use {random_name, make_folder, remove_tree}

  -- `TemporaryFolder::generateFolder`; the empty path if there is no folder.
  unfoldable pub generate_folder : List ℕ → Machine World → List ℕ × Machine World
  generate_folder parent m =
      let (name, w) = random_name m.world in
      let path = parent ++ (if back_is b'/' parent then name else b'/' ∷ name) in
      let (made, w_1) = make_folder path w in
      ((if made then path else []), record m { world = w_1 })

  -- The constructor of `TemporaryFolder`; `none` if it throws.
  unfoldable pub new_folder : List ℕ → Machine World → Option (List ℕ × Machine World)
  new_folder parent m =
      if is_empty parent
      then some (generate_folder (codes "/tmp") m)
      else if not (good parent m.world)
      then none
      else some (generate_folder parent m)

  -- The destructor of `TemporaryFolder`; a failure of `nftw` is only logged.
  unfoldable pub drop_folder : List ℕ → Machine World → Machine World
  drop_folder path m =
      if not (is_empty path) then record m { world = (remove_tree path m.world).1 } else m

  module _ (processor : InstallPkg → Machine World → Bool × Machine World) where
    -- The run while the temporary folder lives.
    unfoldable pub move_and_process : InstallPkg → List ℕ → Machine World → Ended × Machine World
    move_and_process pkg path m =
        let (done, m_1) = move_files os (all_files true pkg) path m in
        let (deployed, m_2) = processor (set_root_path path pkg) m_1 in
        if is_empty path
        then (no_destination, m)
        else if not done
        then (not_moved, m_1)
        else (processed deployed, m_2)

    unfoldable pub in_folder :
        InstallPkg → Option (List ℕ × Machine World) → Machine World → Ended × Machine World
    in_folder pkg none m = (thrown, m)
    in_folder pkg (some (path, m_1)) m =
        let (end, m_2) = move_and_process pkg path m_1 in (end, drop_folder path m_2)

    -- `UsbProcessingPipeline::operator()`.
    unfoldable pub process_storage : Configuration → List ℕ → Machine World → Ended × Machine World
    process_storage conf mount m = elim (detect os mount m.world) [
      | none ↦ (no_package, m)
      | some pkg ↦ in_folder pkg (new_folder (conf temp_key) m) m
    ]
