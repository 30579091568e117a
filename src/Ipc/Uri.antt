-- ===== src/Ipc/Uri.antt =====
-- MLCommon/inc/Network/Ipc/NaiveURIParser.h, and the constructor of `IpcSocketUnix` that uses it
-- (MLCommon/src/Network/Unix/IpcSocketUnix.cpp). Texts are lists of bytes.
use new_cpp.Prelude.{
  ℕ, ◌+◌, ◌-◌, Bool, true, false, not, ◌&&◌, ◌||◌, none, some, List, [], ◌∷◌, map, length, ltb,
  ◌==◌, if◌then◌else◌,
}
use new_cpp.Prelude.Text.{
  codes, is_empty, find_char, find_char_from, substr, substr_count, front_is, to_lower,
}
pub mod Parsed
pub mod Hosts
mod Tests

pub record Uri : Type 0 where
  pub protocol : List ℕ
  pub path : List ℕ
  pub host : List ℕ
  pub port : List ℕ
  pub valid : Bool

abbrev pub blank : Uri
blank = record { protocol = []; path = []; host = []; port = []; valid = true }

-- Each `consume…` returns the part of the text that it leaves, with the fields it has set.
pub consume_protocol : List ℕ → Uri → List ℕ × Uri
consume_protocol uri u =
    if is_empty uri then ([], record u { valid = false }) else elim (find_char b':' uri) [
      | none ↦ ([], record u { valid = false })
      | some pos ↦ (
        (if ltb pos (length uri - 1) then substr (pos + 1) uri else []),
        record u { protocol = map to_lower (substr_count 0 pos uri) },
      )
    ]

pub extract_host_and_port : List ℕ → Uri → Uri
extract_host_and_port partial u = elim (find_char b':' partial) [
  | none ↦ record u { host = partial }
  | some pos ↦ record u {
    host = substr_count 0 pos partial;
    port = if ltb pos (length partial - 1) then substr (pos + 1) partial else [];
  }
]

-- `find("//") == 0`.
abbrev pub starts_with_slashes : List ℕ → Bool
starts_with_slashes [] = false
starts_with_slashes (a ∷ []) = false
starts_with_slashes (a ∷ b ∷ s) = (a == b'/') && (b == b'/')

-- The host is cut off by `substr(2, pos2)`, whose second argument is a length.
pub consume_host_and_port : List ℕ → Uri → List ℕ × Uri
consume_host_and_port partial u =
    if is_empty partial
    then ([], u)
    else if not (starts_with_slashes partial)
    then (partial, u)
    else elim (find_char_from b'/' 2 partial) [
      | none ↦ ([], extract_host_and_port (substr 2 partial) u)
      | some pos2 ↦ (
        (if ltb pos2 (length partial - 1) then substr (pos2 + 1) partial else []),
        extract_host_and_port (substr_count 2 pos2 partial) u,
      )
    ]

pub consume_path : List ℕ → Uri → Uri
consume_path partial u =
    if is_empty partial || not (front_is b'/' partial) then u else record u { path = partial }

-- The constructor.
pub parse : List ℕ → Uri
parse uri =
    let (tmp, u) = consume_protocol uri blank in
    let (tmp', u') = consume_host_and_port tmp u in
    let u'' = consume_path tmp' u' in
    record u'' {
      valid =
          u''.valid
          && (not (is_empty u''.path) || (not (is_empty u''.host) || not (is_empty u''.port)));
    }

-- What the constructor of `IpcSocketUnix` throws.
pub data Refusal : Type 0 where
  malformed_uri only_unix_socket empty_path : Refusal

pub data Socket : Type 0 where
  socket : List ℕ → Socket
  refused : Refusal → Socket

abbrev pub same_bytes : List ℕ → List ℕ → Bool
same_bytes [] [] = true
same_bytes (x ∷ xs) (y ∷ ys) = (x == y) && same_bytes xs ys
same_bytes _ _ = false

-- The socket path that the constructor stores.
pub create : List ℕ → Socket
create uri =
    let u = parse uri in
    if not u.valid
    then refused malformed_uri
    else if not (same_bytes u.protocol (codes "unix"))
    then refused only_unix_socket
    else if is_empty u.path
    then refused empty_path
    else socket u.path
