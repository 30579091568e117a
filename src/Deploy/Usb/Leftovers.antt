-- ===== src/Deploy/Usb/Leftovers.antt =====
-- What a run leaves of its temporary folder.
use new_cpp.Prelude.{ℕ, ◌≡◌, ap, ◌∙◌, Bool, true, false, some, List}
use new_cpp.Prelude.Text.{is_empty}
use new_cpp.Deploy.Os.{Os, Machine}
use new_cpp.Deploy.Package.{InstallPkg, detect}
use new_cpp.Deploy.Pipeline.{Configuration}
use new_cpp.Deploy.Usb.{
  Folders, new_folder, drop_folder, move_and_process, in_folder, process_storage, temp_key,
}

module _ (os : Os) (folders : Folders os) where
  open os use {World}
  open folders use {remove_tree}

  -- The run ended with a removal of the folder, after which it is gone if the removal succeeded.
  pub record Cleans (there : List ℕ → World → Bool) (path : List ℕ) (m_1 : Machine World)
      : Type 0 where
    pub before : Machine World
    pub removed : m_1 ≡ record before { world = (remove_tree path before.world).1 }
    pub gone : (remove_tree path before.world).0 ≡ true → there path m_1.world ≡ false

  module _ (processor : InstallPkg → Machine World → Bool × Machine World)
      (conf : Configuration) where
    -- On a system where a folder whose removal succeeds is not there any more: when a package is
    -- detected and the temporary folder is created, the last thing that a run does to the system is
    -- to remove that folder, whether the files could be moved or not, and whatever the processor of
    -- the package returns and does; so if that removal succeeds, the folder is not there after the
    -- run.
    pub process_storage-Cleans :
        (there : List ℕ → World → Bool)
        → ((path : List ℕ) (w : World)
            → (remove_tree path w).0 ≡ true
            → there path (remove_tree path w).1 ≡ false)
        → (mount path : List ℕ) (pkg : InstallPkg) (m m_1 : Machine World)
        → detect os mount m.world ≡ some pkg
        → new_folder os folders (conf temp_key) m ≡ some (path, m_1)
        → is_empty path ≡ false
        → Cleans there path (process_storage os folders processor conf mount m).1
    unfolding process_storage in_folder drop_folder
    process_storage-Cleans there law mount path pkg m m_1 found made full =
        let run : process_storage os folders processor conf mount m
            ≡ in_folder os folders processor pkg (some (path, m_1)) m =
          rw (process_storage, found, made) in
        let m_2 = (move_and_process os folders processor pkg path m_1).1 in
        let dropped : drop_folder os folders path m_2
            ≡ record m_2 { world = (remove_tree path m_2.world).1 } =
          rw (drop_folder, full) in
        let whole = ap (λ r. r.1) run ∙ dropped in
        record {
          before = m_2;
          removed = whole;
          gone = λ done. ap (λ n. there path n.world) whole ∙ law path m_2.world done;
        }
