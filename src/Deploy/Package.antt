-- ===== src/Deploy/Package.antt =====
-- DeploymentAgent/src/install_package_detector.h: what is installed, and how it is found.
use new_cpp.Prelude.{ℕ, Bool, not, Option, none, some, List, [], ◌∷◌, ◌++◌, if◌then◌else◌}
use new_cpp.Prelude.Text.{codes, back_is}
use new_cpp.Deploy.Os.{Os}
use new_cpp.Deploy.Matching.{find_named, find_archives}
pub mod Sound

pub record InstallPkg : Type 0 where
  pub root_path : List ℕ
  pub policy_file : List ℕ
  pub archives : List (List ℕ)

-- `InstallPkg::addLastDelimiter`. No caller gives an empty path.
unfoldable pub add_last_delimiter : List ℕ → List ℕ
add_last_delimiter path = if not (back_is b'/' path) then path ++ b'/' ∷ [] else path

unfoldable pub new : List ℕ → List ℕ → List (List ℕ) → InstallPkg
new root policy archs = record {
  root_path = add_last_delimiter root;
  policy_file = policy;
  archives = archs;
}

unfoldable pub set_root_path : List ℕ → InstallPkg → InstallPkg
set_root_path path pkg = record pkg { root_path = add_last_delimiter path }

unfoldable pub get_policy_path : Bool → InstallPkg → List ℕ
get_policy_path fullpath pkg =
    if fullpath then pkg.root_path ++ pkg.policy_file else pkg.policy_file

-- The loop of `InstallPkg::getArchivesPath`.
unfoldable pub prefix_each : List ℕ → List (List ℕ) → List (List ℕ)
prefix_each root [] = []
prefix_each root (arch ∷ archs) = (root ++ arch) ∷ prefix_each root archs

unfoldable pub get_archives_path : Bool → InstallPkg → List (List ℕ)
get_archives_path fullpath pkg =
    if not fullpath then pkg.archives else prefix_each pkg.root_path pkg.archives

unfoldable pub all_files : Bool → InstallPkg → List (List ℕ)
all_files fullpath pkg = get_archives_path fullpath pkg ++ get_policy_path fullpath pkg ∷ []

unfoldable pub policy_name : List ℕ
policy_name = codes "Policy.json"

-- `process`: the package, with the first policy file and the only archive.
unfoldable pub package_of : List ℕ → List (List ℕ) → List (List ℕ) → Option InstallPkg
package_of path [] archs = none
package_of path (policy ∷ more) [] = none
package_of path (policy ∷ more) (arch ∷ []) = some (new path policy (arch ∷ []))
package_of path (policy ∷ more) (arch ∷ arch' ∷ archs) = none

module _ (os : Os) where
  open os use {World}

  -- `InstallPackageDetector::process` and `getPackage`.
  unfoldable pub detect : List ℕ → World → Option InstallPkg
  detect path w = package_of path (find_named os path policy_name w) (find_archives os path w)
