-- ===== src/Deploy/Tests.antt =====
-- Runs of the deployment on a small system: its world is the list of the files that exist.
use new_cpp.Prelude.{
  ==_iff, Bool-cases, inl, inr, subst, ℕ, ◌≡◌, refl, Bool, true, false, not, ◌&&◌, ◌||◌, Option,
  none, some, List, [], ◌∷◌, arith, ◌==◌, if◌then◌else◌, map,
}
use new_cpp.Prelude.Text.{codes, find_last_char, find_char}
use new_cpp.Deploy.Os.{Os, Machine, Renamed, moved, failed, execute, remove_file, rename_file}
use new_cpp.Deploy.Matching.{
  equal_prefix, ends_like, module_config, module_impl, weights_ext, zip_ext, tar_ext, select, scan,
  find_named, has_structure, identify, match_archive, find_archives,
}
use new_cpp.Deploy.Matching.Suffix.{ends_like-Decides, Decides, EndsWith}
use new_cpp.Deploy.Mover.{combine, move_file, move_fallback, move_file_over}
use new_cpp.Deploy.Mover.Combine.{AreNames}
use new_cpp.Deploy.Unpacker.{
  unpack, run_builder, is_unknown, character_exist, find_builder, zip_builder, final_dest,
  last_name_component, last_component, cut_extension,
}
use new_cpp.Deploy.Unpacker.Quoting.{unpack-Unpacks, Unpacks}
use new_cpp.Deploy.Package.{
  InstallPkg, add_last_delimiter, new, set_root_path, get_policy_path, prefix_each,
  get_archives_path, all_files, policy_name, package_of, detect,
}
use new_cpp.Deploy.Package.Sound.{detect-Sound, Sound}
use new_cpp.Deploy.Usb.{Folders, generate_folder, new_folder, temp_key, process_storage}
use new_cpp.Deploy.Usb.Leftovers.{process_storage-Cleans, Cleans}
use new_cpp.Deploy.Usb.Places.{detect-places, ListsNames}
use new_cpp.Deploy.Pipeline.{
  Configuration, conf_policy_path, conf_module_deploy_path, conf_start, conf_stop, conf_configure,
  deploy, finish, configure_and_start, deploy_archives, deploy_policy_file, restore_policy,
  backup_policy, old_path, deploy_archive, fallback,
}
use new_cpp.Deploy.Pipeline.Restart.{deploy-Restarts, Restarts}

unfoldable same_text : List ℕ → List ℕ → Bool
same_text [] [] = true
same_text [] (y ∷ ys) = false
same_text (x ∷ xs) [] = false
same_text (x ∷ xs) (y ∷ ys) = (x == y) && same_text xs ys

unfoldable exists_file : List ℕ → List (List ℕ) → Bool
exists_file p [] = false
exists_file p (f ∷ fs) = same_text p f || exists_file p fs

unfoldable without : List ℕ → List (List ℕ) → List (List ℕ)
without p [] = []
without p (f ∷ fs) = let rest = without p fs in if same_text p f then rest else f ∷ rest

unfoldable small_rename : List ℕ → List ℕ → List (List ℕ) → Renamed × List (List ℕ)
small_rename src dest w =
    if exists_file src w then (moved, dest ∷ without dest (without src w)) else (failed, w)

unfoldable small_remove : List ℕ → List (List ℕ) → Bool × List (List ℕ)
small_remove p w = (exists_file p w, without p w)

-- Every command succeeds but `false`.
unfoldable small_system : List ℕ → List (List ℕ) → Bool × List (List ℕ)
small_system cmd w = (not (same_text cmd (codes "false")), w)

unfoldable small_entries : List ℕ → List (List ℕ) → Option (List (List ℕ))
small_entries p w =
    if same_text p (codes "/usb")
    then some (codes "pack.zip" ∷ codes "MyPolicy.json" ∷ [])
    else none

abbrev small : Os
small = record {
  World = List (List ℕ);
  rename = small_rename;
  remove = small_remove;
  system = small_system;
  good = exists_file;
  entries = small_entries;
}

abbrev conf : Configuration
conf key =
    if same_text key (codes "policyPath")
    then codes "/etc/Policy.json"
    else if same_text key (codes "modulesDeployPath")
    then codes "/opt/modules"
    else if same_text key (codes "startMLAppCmd")
    then codes "start"
    else if same_text key (codes "stopMLAppCmd")
    then codes "stop"
    else if same_text key (codes "configureMLAppCmd")
    then codes "configure"
    else []

abbrev stick : Machine (List (List ℕ))
stick = record {
  world = codes "/usb/pack.zip" ∷ codes "/usb/MyPolicy.json" ∷ codes "/etc/Policy.json" ∷ [];
  commands = [];
}

abbrev found_package : InstallPkg
found_package = record {
  root_path = codes "/usb/";
  policy_file = codes "MyPolicy.json";
  archives = codes "pack.zip" ∷ [];
}

-- The policy is found by the end of its name.
detect-found : detect small (codes "/usb") stick.world ≡ some found_package
unfolding detect package_of new add_last_delimiter find_named find_archives scan select
    match_archive has_structure ends_like equal_prefix module_config module_impl weights_ext zip_ext
    tar_ext policy_name same_text small_entries
detect-found = refl

deploy-done :
    deploy small conf found_package stick
    ≡ some (
      true,
      record {
        world =
            codes "/etc/Policy.json" ∷ codes "/etc/Policy.json.old" ∷ codes "/usb/pack.zip" ∷ [];
        commands =
            codes "stop"
            ∷ codes "unzip -qo '/usb/pack.zip' -d '/opt/modules/pack'"
            ∷ codes "configure"
            ∷ codes "start"
            ∷ [];
      },
    )
unfolding deploy finish configure_and_start deploy_archives deploy_policy_file restore_policy
    backup_policy old_path deploy_archive fallback conf_policy_path conf_module_deploy_path
    conf_start conf_stop conf_configure execute remove_file rename_file move_file_over move_file
    move_fallback unpack run_builder is_unknown character_exist find_char find_builder zip_builder
    final_dest last_name_component last_component cut_extension find_last_char get_archives_path
    get_policy_path prefix_each identify ends_like equal_prefix zip_ext same_text exists_file
    without small_rename small_remove small_system
deploy-done = refl

ends_like-Decides_example :
    Decides
      (ends_like policy_name (codes "/usb/MyPolicy.json"))
      (EndsWith (codes "MyPolicy.json") policy_name)
ends_like-Decides_example =
    ends_like-Decides policy_name (codes "/usb") (codes "MyPolicy.json")
      (unfold policy_name in omega arith)

unpack-Unpacks_example : Unpacks small (codes "/usb/pack.zip") (codes "/opt/modules") stick
unpack-Unpacks_example = unpack-Unpacks small (codes "/usb/pack.zip") (codes "/opt/modules") stick

deploy-Restarts_example : Restarts small conf found_package stick
deploy-Restarts_example = deploy-Restarts small conf found_package stick

detect-Sound_example : Sound small stick.world found_package
detect-Sound_example = detect-Sound small (codes "/usb") stick.world found_package refl detect-found

unfoldable small_folders_make : List ℕ → List (List ℕ) → Bool × List (List ℕ)
small_folders_make p w = (true, p ∷ w)

unfoldable small_name : List (List ℕ) → List ℕ × List (List ℕ)
small_name w = (codes "ABCDEFGHIJ", w)

-- The removal of what is not there fails.
unfoldable small_remove_tree : List ℕ → List (List ℕ) → Bool × List (List ℕ)
small_remove_tree p w = (exists_file p w, without p w)

abbrev small_folders : Folders small
small_folders = record {
  random_name = small_name;
  make_folder = small_folders_make;
  remove_tree = small_remove_tree;
}

same_text-same : (p : List ℕ) → same_text p p ≡ true
unfolding same_text
same_text-same [] = refl
same_text-same (x ∷ xs) = rw ((==_iff x x).1 refl, same_text-same xs)

exists_file-without : (p : List ℕ) (w : List (List ℕ)) → exists_file p (without p w) ≡ false
unfolding exists_file without
exists_file-without p [] = refl
exists_file-without p (f ∷ fs) = elim (Bool-cases (same_text p f)) [
  | inl e ↦ rw (e, exists_file-without p fs)
  | inr e ↦ rw (e, exists_file-without p fs, e)
]

abbrev with_folder : Machine (List (List ℕ))
with_folder = record { world = codes "/tmp/ABCDEFGHIJ" ∷ stick.world; commands = [] }

new_folder-small :
    new_folder small small_folders (conf temp_key) stick
    ≡ some (codes "/tmp/ABCDEFGHIJ", with_folder)
unfolding new_folder generate_folder temp_key same_text small_folders_make small_name
new_folder-small = refl

abbrev refuses : InstallPkg → Machine (List (List ℕ)) → Bool × Machine (List (List ℕ))
refuses pkg m = (false, m)

small_remove_tree-gone :
    (p : List ℕ) (w : List (List ℕ))
    → (small_remove_tree p w).0 ≡ true
    → exists_file p (small_remove_tree p w).1 ≡ false
unfolding small_remove_tree
small_remove_tree-gone p w h = exists_file-without p w

process_storage-Cleans_example :
    Cleans small small_folders exists_file
      (codes "/tmp/ABCDEFGHIJ")
      (process_storage small small_folders refuses conf (codes "/usb") stick).1
process_storage-Cleans_example =
    process_storage-Cleans small small_folders refuses conf exists_file small_remove_tree-gone
      (codes "/usb") (codes "/tmp/ABCDEFGHIJ") found_package stick with_folder detect-found
      new_folder-small refl

small_lists_names : ListsNames small
unfolding small_entries
small_lists_names p w fs e = elim (Bool-cases (same_text p (codes "/usb"))) [
  | inl f ↦
      let opened : small_entries p w ≡ some (codes "pack.zip" ∷ codes "MyPolicy.json" ∷ []) =
        rw (small_entries, f) in
      let same : codes "pack.zip" ∷ codes "MyPolicy.json" ∷ [] ≡ fs = cc in
      subst AreNames same (((omega arith), refl), (((omega arith), refl), tt))
  | inr f ↦ let opened : small_entries p w ≡ none = rw (small_entries, f) in absurd cc
]

detect-places_example :
    map (λ f. combine f (codes "/tmp/x")) (all_files true found_package)
    ≡ all_files true (set_root_path (codes "/tmp/x") found_package)
detect-places_example =
    detect-places small (codes "/usb") (codes "/tmp/x") stick.world found_package small_lists_names
      detect-found
