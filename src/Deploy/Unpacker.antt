-- ===== src/Deploy/Unpacker.antt =====
-- DeploymentAgent/src/unpacker.h: the shell command that unpacks an archive.
use new_cpp.Prelude.{
  ℕ, Bool, true, false, ◌&&◌, ◌||◌, Option, none, some, List, [], ◌∷◌, ◌++◌, if◌then◌else◌, length,
  ◌+◌, ◌-◌, take,
}
use new_cpp.Prelude.Text.{codes, find_char, find_last_char, substr, substr_count, back_is}
use new_cpp.Deploy.Os.{Os, Machine, execute}
use new_cpp.Deploy.Matching.{ArchiveType, unknown, zip, tar, folder, identify}
pub mod Quoting
pub mod Words

-- `Unpacker::characterExist`.
abbrev pub is_some : {A : Type 0} → Option A → Bool
is_some none = false
is_some (some x) = true

unfoldable pub character_exist : List ℕ → ℕ → Bool
character_exist str c = is_some (find_char c str)

-- `Unpacker::lastNameComponent`. No caller gives an empty path.
unfoldable pub cut_extension : List ℕ → List ℕ
cut_extension name = elim (find_last_char b'.' name) [
  | none ↦ name
  | some index ↦ substr_count 0 index name
]

unfoldable pub last_component : List ℕ → List ℕ
last_component path = elim (find_last_char b'/' path) [
  | none ↦ path
  | some index ↦ cut_extension (substr (index + 1) path)
]

unfoldable pub last_name_component : List ℕ → List ℕ
last_name_component path =
    last_component (if back_is b'/' path then take (length path - 1) path else path)

unfoldable pub zip_builder : List ℕ → List ℕ → List ℕ
zip_builder archive dest =
    codes "unzip -qo '" ++ (archive ++ (codes "' -d '" ++ (dest ++ codes "'")))

unfoldable pub tar_builder : List ℕ → List ℕ → List ℕ
tar_builder archive dest =
    codes "mkdir -p '"
    ++ (dest ++ (codes "' && tar -C '" ++ (dest ++ (codes "' -xf '" ++ (archive ++ codes "'")))))

unfoldable pub folder_builder : List ℕ → List ℕ → List ℕ
folder_builder archive dest = codes "cp -fr '" ++ (archive ++ (codes "' '" ++ (dest ++ codes "'")))

-- The builder that `find_if` finds in `builders`.
unfoldable pub find_builder : ArchiveType → Option (List ℕ → List ℕ → List ℕ)
find_builder unknown = none
find_builder zip = some zip_builder
find_builder tar = some tar_builder
find_builder folder = some folder_builder

unfoldable pub final_dest : List ℕ → List ℕ → List ℕ
final_dest archive dest =
    dest ++ ((if back_is b'/' dest then [] else b'/' ∷ []) ++ last_name_component archive)

unfoldable pub is_unknown : ArchiveType → Bool
is_unknown unknown = true
is_unknown zip = false
is_unknown tar = false
is_unknown folder = false

module _ (os : Os) where
  open os use {World}

  -- The part of `unpack` behind the test for an unknown type. A missing builder, which `unpack`
  -- does not test for, is `none`.
  unfoldable pub run_builder :
      ArchiveType → List ℕ → List ℕ → Machine World → Option (Bool × Machine World)
  run_builder type archive dest m =
      if character_exist archive b'\'' || character_exist dest b'\''
      then some (false, m)
      else elim (find_builder type) [
        | none ↦ none
        | some builder ↦ some (execute os (builder archive (final_dest archive dest)) m)
      ]

  -- `Unpacker::unpack`.
  unfoldable pub unpack : List ℕ → List ℕ → Machine World → Option (Bool × Machine World)
  unpack archive dest m =
      let type = identify os archive m.world in
      if is_unknown type then some (false, m) else run_builder type archive dest m
