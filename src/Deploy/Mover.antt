-- ===== src/Deploy/Mover.antt =====
-- DeploymentAgent/src/file_mover.h and file_remover.h: the moving and removing of files.
use new_cpp.Prelude.{
  ℕ, Bool, true, false, ◌||◌, none, some, List, [], ◌∷◌, ◌++◌, if◌then◌else◌, length, ltb, ◌+◌, ◌-◌,
}
use new_cpp.Prelude.Text.{codes, find_last_char, substr, back_is, is_empty}
use new_cpp.Deploy.Os.{
  Os, Machine, Renamed, moved, cross_device, failed, execute, remove_file, rename_file,
}
pub mod Combine

-- `FileMover::joinComponents`. No caller gives an empty prefix.
unfoldable pub join_components : List ℕ → List ℕ → List ℕ
join_components prefix filename =
    if back_is b'/' prefix then prefix ++ filename else prefix ++ b'/' ∷ filename

-- `FileMover::combine`.
unfoldable pub combine : List ℕ → List ℕ → List ℕ
combine src dest = elim (find_last_char b'/' src) [
  | none ↦ join_components dest src
  | some index ↦
      if ltb index (length src - 1) then join_components dest (substr (index + 1) src) else []
]

-- The quoted command of `copyFile`.
unfoldable pub copy_cmd : List ℕ → List ℕ → List ℕ
copy_cmd src dest = codes "cp -rf '" ++ (src ++ (codes "' '" ++ (dest ++ codes "'")))

module _ (os : Os) where
  open os use {World}

  -- `FileMover::copyFile`.
  unfoldable pub copy_file : List ℕ → List ℕ → Machine World → Bool × Machine World
  copy_file src dest m =
      let (copied, m_1) = execute os (copy_cmd src dest) m in
      if copied then (true, (remove_file os src m_1).1) else (false, m_1)

  -- What follows `rename` in `FileMover::moveFile`.
  unfoldable pub move_fallback : List ℕ → List ℕ → Renamed × Machine World → Bool × Machine World
  move_fallback src dest (moved, m) = (true, m)
  move_fallback src dest (cross_device, m) = copy_file src dest m
  move_fallback src dest (failed, m) = (false, m)

  -- `FileMover::moveFile` with two arguments.
  unfoldable pub move_file : List ℕ → List ℕ → Machine World → Bool × Machine World
  move_file src dest m = move_fallback src dest (rename_file os src dest m)

  -- `FileMover::moveFile` with three arguments; the result of `remove` is not read.
  unfoldable pub move_file_over : List ℕ → List ℕ → Bool → Machine World → Bool × Machine World
  move_file_over src dest overwrite m =
      move_file src dest (if overwrite then (remove_file os dest m).1 else m)

  -- The loop of `FileMover::moveFiles`.
  unfoldable pub move_each : List (List ℕ) → List ℕ → Machine World → Bool × Machine World
  move_each [] dest m = (true, m)
  move_each (src ∷ files) dest m =
      let final = combine src dest in
      let (done, m_1) = move_file src final m in
      let rest = move_each files dest m_1 in
      if is_empty final then (false, m) else if done then rest else (false, m_1)

  -- `FileMover::moveFiles`.
  unfoldable pub move_files : List (List ℕ) → List ℕ → Machine World → Bool × Machine World
  move_files files dest m =
      if is_empty dest || is_empty files then (false, m) else move_each files dest m

  -- `FileRemover::removeFiles`.
  unfoldable pub remove_files : List (List ℕ) → Machine World → Bool × Machine World
  remove_files [] m = (true, m)
  remove_files (src ∷ files) m =
      let (done, m_1) = remove_file os src m in
      let rest = remove_files files m_1 in if done then rest else (false, m_1)
