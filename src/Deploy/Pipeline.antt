-- ===== src/Deploy/Pipeline.antt =====
-- DeploymentAgent/src/deploy_pipeline.h and configuration.h: the deployment of a package.
use new_cpp.Prelude.{
  ℕ, Bool, true, false, not, ◌&&◌, Option, none, some, List, [], ◌∷◌, ◌++◌, if◌then◌else◌, map,
}
use mathlib.Core.Option
use new_cpp.Prelude.Text.{codes, is_empty}
use new_cpp.Deploy.Os.{Os, Machine, execute}
use new_cpp.Deploy.Mover.{move_file_over}
use new_cpp.Deploy.Unpacker.{unpack}
use new_cpp.Deploy.Package.{InstallPkg, get_archives_path, get_policy_path}
pub mod Restart

-- `Configuration::value<std::string>`: the empty string for what is missing or not a string.
abbrev pub Configuration : Type 0
Configuration = List ℕ → List ℕ

unfoldable pub conf_policy_path : List ℕ
conf_policy_path = codes "policyPath"

unfoldable pub conf_module_deploy_path : List ℕ
conf_module_deploy_path = codes "modulesDeployPath"

unfoldable pub conf_start : List ℕ
conf_start = codes "startMLAppCmd"

unfoldable pub conf_stop : List ℕ
conf_stop = codes "stopMLAppCmd"

unfoldable pub conf_configure : List ℕ
conf_configure = codes "configureMLAppCmd"

-- The constructor of `DeployPipeline`; false if it throws.
unfoldable pub has_required_keys : Configuration → Bool
has_required_keys conf =
    not (is_empty (conf conf_policy_path))
    && (not (is_empty (conf conf_module_deploy_path))
        && (not (is_empty (conf conf_start))
            && (not (is_empty (conf conf_stop)) && not (is_empty (conf conf_configure)))))

module _ (os : Os) (conf : Configuration) where
  open os use {World, good}

  unfoldable pub fallback : Machine World → Machine World
  fallback m = (execute os (conf conf_start) m).1

  unfoldable pub deploy_archive : List ℕ → Machine World → Option (Bool × Machine World)
  deploy_archive path m = unpack os path (conf conf_module_deploy_path) m

  unfoldable pub old_path : List ℕ
  old_path = conf conf_policy_path ++ codes ".old"

  unfoldable pub backup_policy : Machine World → Bool × Machine World
  backup_policy m =
      if not (good (conf conf_policy_path) m.world)
      then (true, m)
      else move_file_over os (conf conf_policy_path) old_path true m

  unfoldable pub restore_policy : Machine World → Machine World
  restore_policy m = (move_file_over os old_path (conf conf_policy_path) true m).1

  unfoldable pub deploy_policy_file : List ℕ → Machine World → Bool × Machine World
  deploy_policy_file path m =
      let (saved, m_1) = backup_policy m in
      let (success, m_2) = move_file_over os path (conf conf_policy_path) true m_1 in
      if not saved
      then (false, m_1)
      else if not success
      then (false, restore_policy m_2)
      else (true, m_2)

  -- The loop over the archives. `none` is a call of a builder that is not there.
  unfoldable pub deploy_archives : List (List ℕ) → Machine World → Option (Bool × Machine World)
  deploy_archives [] m = some (true, m)
  deploy_archives (path ∷ paths) m = elim (deploy_archive path m) [
    | none ↦ none
    | some (true, m_1) ↦ deploy_archives paths m_1
    | some (false, m_1) ↦ some (false, m_1)
  ]

  -- The configure and start commands at the end.
  unfoldable pub configure_and_start : Machine World → Bool × Machine World
  configure_and_start m = execute os (conf conf_start) (execute os (conf conf_configure) m).1

  -- What follows the loop over the archives.
  unfoldable pub finish : InstallPkg → Bool × Machine World → Bool × Machine World
  finish pkg (false, m) = (false, fallback m)
  finish pkg (true, m) =
      let (deployed, m_1) = deploy_policy_file (get_policy_path true pkg) m in
      if not deployed then (false, fallback m_1) else configure_and_start m_1

  -- `DeployPipeline::operator()`.
  unfoldable pub deploy : InstallPkg → Machine World → Option (Bool × Machine World)
  deploy pkg m =
      let (stopped, m_1) = execute os (conf conf_stop) m in
      if not stopped
      then some (false, m_1)
      else Option.map (finish pkg) (deploy_archives (get_archives_path true pkg) m_1)
