-- ===== src/Deploy/Os.antt =====
-- The calls of the operating system that DeploymentAgent makes, as an interface, and the record of
-- the shell commands it runs (DeploymentAgent/src/system_cmd_executor.h). Paths are lists of bytes.
use new_cpp.Prelude.{ℕ, Bool, Option, List, [], ◌∷◌, ◌++◌}

-- What `rename` reports: 0, -1 with `errno` EXDEV, or -1 with another error.
pub data Renamed : Type 0 where
  moved cross_device failed : Renamed

pub record Os : Type 1 where
  pub World : Type 0
  pub rename : List ℕ → List ℕ → World → Renamed × World
  -- Is the result 0?
  pub remove : List ℕ → World → Bool × World
  -- Is the exit status 0?
  pub system : List ℕ → World → Bool × World
  -- `std::ifstream{path}.good()`.
  pub good : List ℕ → World → Bool
  -- `opendir` and `readdir` to the end; `none` if the directory cannot be opened.
  pub entries : List ℕ → World → Option (List (List ℕ))

-- The world, and the commands that were run, in order.
pub record Machine (W : Type 0) : Type 0 where
  pub world : W
  pub commands : List (List ℕ)

module _ (os : Os) where
  open os use {World, rename, remove, system}

  -- `SystemCmdExecutor{cmd}`, read as a `bool`.
  unfoldable pub execute : List ℕ → Machine World → Bool × Machine World
  execute cmd m =
      let (done, w) = system cmd m.world in
      (done, record m { world = w; commands = m.commands ++ cmd ∷ [] })

  unfoldable pub remove_file : List ℕ → Machine World → Bool × Machine World
  remove_file path m = let (done, w) = remove path m.world in (done, record m { world = w })

  unfoldable pub rename_file : List ℕ → List ℕ → Machine World → Renamed × Machine World
  rename_file src dest m = let (r, w) = rename src dest m.world in (r, record m { world = w })
