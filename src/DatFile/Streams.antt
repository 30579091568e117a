-- ===== src/DatFile/Streams.antt =====
-- MLCommon/src/SensorData/DatFile/FileReadStream.cpp, and the writer of DatFileWriter.cpp as the
-- stream that a frame is written to.
use new_cpp.Prelude.{
  ℕ, ◌+◌, ◌≡◌, refl, sym, ap, ◌∙◌, inl, inr, Bool, false, Option, some, List, [], ◌++◌, append-nil,
  length, take, drop, drop-drop, take-append-drop, arith, leb, Bool-cases, if◌then◌else◌,
}
use new_cpp.Frame.{Writer}
use new_cpp.Frame.Layout.{length-take_within}
use new_cpp.Frame.Reading.{Reader}
use new_cpp.Frame.Pieces.{Gives}
use new_cpp.DatFile.{DatFileWriter, write_data_file}

-- A file that is read, the place in it, and if all reads had as many bytes as they wanted.
pub record FileState : Type 0 where
  pub file : List ℕ
  pub position : ℕ
  pub good : Bool

-- The constructor: `seekg`, which does nothing after a failure.
unfoldable pub seek : ℕ → FileState → FileState
seek position s = if s.good then record s { position = position } else s

-- `FileReadStream::Read`: `gcount` is the number of bytes that were read.
unfoldable pub read_file : ℕ → FileState → Option (List ℕ) × FileState
read_file n s =
    let left = drop s.position s.file in
    if s.good
    then (if leb n (length left)
        then (some (take n left), record s { position = s.position + n })
        else (some left, record s { position = s.position + length left; good = false }))
    else (some [], s)

abbrev pub file_reader : Reader
file_reader = record { World = FileState; read = read_file }

abbrev pub file_writer : Writer
file_writer = record { World = DatFileWriter; write = write_data_file }

-- What can still be read.
abbrev pub bytes_left : FileState → List ℕ
bytes_left s = if s.good then drop s.position s.file else []

pub read_file-Gives : (n : ℕ) (s : FileState) → Gives file_reader bytes_left n s
unfolding read_file
read_file-Gives n s =
    let left = drop s.position s.file in
    elim (Bool-cases s.good) [
      | inl g ↦ elim (Bool-cases (leb n (length left))) [
        | inl t ↦
            let run : read_file n s ≡ (some (take n left), record s { position = s.position + n }) =
              rw (g, t) refl in
            let after : bytes_left (record s { position = s.position + n }) ≡ drop n left =
              rw g (sym (drop-drop n s.position s.file)) in
            let now : bytes_left s ≡ left = rw g refl in
            let size = length-take_within n left (ground arith) in
            (
              take n left,
              record s { position = s.position + n },
              run,
              now ∙ sym (take-append-drop n left) ∙ ap (λ l. take n left ++ l) (sym after),
              omega (arith, size),
              (λ asked there. omega (arith, size)),
            )
        | inr t ↦
            let s' = record s { position = s.position + length left; good = false } in
            let run : read_file n s ≡ (some left, s') = rw (g, t) refl in
            let now : bytes_left s ≡ left = rw g refl in
            (
              left,
              s',
              run,
              now ∙ sym (append-nil left),
              ground arith,
              (λ asked there. omega (arith, ap length now)),
            )
      ]
      | inr g ↦
          let run : read_file n s ≡ (some [], s) = rw g refl in
          let now : bytes_left s ≡ [] = rw g refl in
          ([], s, run, refl, omega arith, (λ asked there. omega (arith, ap length now)))
    ]
