-- ===== src/Deploy/Matching.antt =====
-- DeploymentAgent/src/archive_detector.h: matching of file names, and what an archive is.
-- `std::equal` over three iterators goes on past the beginning of a shorter text: `none` stands for
-- such a read out of bounds.
use new_cpp.Prelude.{
  ℕ, Bool, true, false, ◌&&◌, ◌||◌, Option, none, some, List, [], ◌∷◌, ◌++◌, ◌==◌, if◌then◌else◌,
}
use mathlib.Core.List.{reverse}
use new_cpp.Prelude.Text.{codes}
use new_cpp.Deploy.Os.{Os}
pub mod Suffix

-- `std::equal(p.begin(), p.end(), s.begin())`.
unfoldable pub equal_prefix : List ℕ → List ℕ → Option Bool
equal_prefix [] s = some true
equal_prefix (x ∷ p) [] = none
equal_prefix (x ∷ p) (y ∷ s) = let rest = equal_prefix p s in if x == y then rest else some false

-- The test of `ExtensionMatcher` and of `FileNameDetector`: over the reverse iterators.
unfoldable pub ends_like : List ℕ → List ℕ → Option Bool
unfolding equal_prefix
ends_like pattern path = equal_prefix (reverse pattern) (reverse path)

-- A test that reads out of bounds has no meaning of its own; callers take it for a match or not
-- by what the memory holds. The model follows the calls only where it is defined.
abbrev pub matches : Option Bool → Bool
matches none = false
matches (some b) = b

unfoldable pub module_config : List ℕ
module_config = codes "MLModule.json"

unfoldable pub module_impl : List ℕ
module_impl = codes "concrete_module.py"

unfoldable pub weights_ext : List ℕ
weights_ext = codes ".hdf5"

unfoldable pub zip_ext : List ℕ
zip_ext = codes ".zip"

unfoldable pub tar_ext : List ℕ
tar_ext = codes ".tar"

pub data ArchiveType : Type 0 where
  unknown zip tar folder : ArchiveType

-- The names that a matcher accepts, of those in a folder. The matcher sees the whole path.
unfoldable pub select : (List ℕ → Bool) → List ℕ → List (List ℕ) → List (List ℕ)
select matcher path [] = []
select matcher path (f ∷ fs) =
    let rest = select matcher path fs in if matcher (path ++ b'/' ∷ f) then f ∷ rest else rest

abbrev pub is_one : {A : Type 0} → List A → Bool
is_one [] = false
is_one (x ∷ []) = true
is_one (x ∷ y ∷ xs) = false

abbrev pub is_some_file : {A : Type 0} → List A → Bool
is_some_file [] = false
is_some_file (x ∷ xs) = true

module _ (os : Os) where
  open os use {World, entries}

  -- `FileMatcher::process`.
  unfoldable pub scan : (List ℕ → Bool) → List ℕ → World → List (List ℕ)
  scan matcher path w = elim (entries path w) [ none ↦ [] | some fs ↦ select matcher path fs ]

  -- `FileNameDetector{path, name}.process()`.
  unfoldable pub find_named : List ℕ → List ℕ → World → List (List ℕ)
  find_named path name w = scan (λ f. matches (ends_like name f)) path w

  -- `StructureMatcher`.
  unfoldable pub has_structure : List ℕ → World → Bool
  has_structure path w =
      is_some_file (find_named path module_config w)
      && (is_some_file (find_named path module_impl w)
          && is_one (scan (λ f. matches (ends_like weights_ext f)) path w))

  -- `ArchiveDetector::identify`, over `archTypes` in their order.
  unfoldable pub identify : List ℕ → World → ArchiveType
  identify path w =
      if matches (ends_like zip_ext path)
      then zip
      else if matches (ends_like tar_ext path)
      then tar
      else if has_structure path w
      then folder
      else unknown

  -- `ArchiveDetector::match`.
  unfoldable pub match_archive : List ℕ → World → Bool
  match_archive path w =
      matches (ends_like zip_ext path) || (matches (ends_like tar_ext path) || has_structure path w)

  -- `ArchiveDetector{path}.process()`.
  unfoldable pub find_archives : List ℕ → World → List (List ℕ)
  find_archives path w = scan (λ f. match_archive f w) path w
