-- ===== src/DatFile.antt =====
-- MLCommon/src/SensorData/DatFile, DatFileWriter.cpp and the index files of DatFileReader.cpp: frames
-- in a file, and a second file that says where each begins. A stream of a file is what the file has
-- on disk and what is still in the buffer. A file that cannot be opened is left out.
use new_cpp.Prelude.{
  ℕ, zero, suc, ◌+◌, ◌*◌, ◌/◌, ◌%◌, ◌^◌, min, Bool, true, false, Option, none, some, List, [], ◌∷◌,
  ◌++◌, length, take, drop, ◌==◌, leb, ltb, if◌then◌else◌,
}
pub mod Words
pub mod Content
pub mod Index
pub mod Lookup
pub mod Streams
pub mod Playback
mod Tests

pub record OutStream : Type 0 where
  pub disk : List ℕ
  pub pending : List ℕ

unfoldable pub write_out : List ℕ → OutStream → OutStream
write_out bs s = record s { pending = s.pending ++ bs }

unfoldable pub flush : OutStream → OutStream
flush s = record { disk = s.disk ++ s.pending; pending = [] }

pub data WritingStrategy : Type 0 where
  append truncate : WritingStrategy

-- `open` in one of the modes: the file is kept, or emptied.
unfoldable pub open_out : WritingStrategy → OutStream → OutStream
open_out append s = record { disk = s.disk; pending = [] }
open_out truncate s = record { disk = []; pending = [] }

pub record DatFileWriter : Type 0 where
  pub strategy : WritingStrategy
  pub raw_data_stream : OutStream
  pub indicies_stream : OutStream
  pub raw_data_stream_size : ℕ
  pub frames_written : ℕ
  pub files_opened : Bool

abbrev frames_count_to_flush : ℕ
frames_count_to_flush = 10

-- `DatFileWriter::DatFileWriter`, over what the two files have.
unfoldable pub new_writer : WritingStrategy → List ℕ → List ℕ → DatFileWriter
new_writer strategy raw indicies = record {
  strategy = strategy;
  raw_data_stream = record { disk = raw; pending = [] };
  indicies_stream = record { disk = indicies; pending = [] };
  raw_data_stream_size = 0;
  frames_written = 0;
  files_opened = false;
}

-- The destructor: closing flushes.
unfoldable pub close_files : DatFileWriter → DatFileWriter
close_files w = record w {
  raw_data_stream = flush w.raw_data_stream;
  indicies_stream = flush w.indicies_stream;
}

-- `OpenFiles`.
unfoldable pub open_files : DatFileWriter → DatFileWriter
open_files w = if w.files_opened then w else record w {
  raw_data_stream = open_out w.strategy w.raw_data_stream;
  indicies_stream = open_out w.strategy w.indicies_stream;
  files_opened = true;
}

-- The eight bytes of a number in memory, the lowest first.
unfoldable pub word : ℕ → List ℕ
word v =
    v % 2 ^ 8
    ∷ v / 2 ^ 8 % 2 ^ 8
    ∷ v / 2 ^ 16 % 2 ^ 8
    ∷ v / 2 ^ 24 % 2 ^ 8
    ∷ v / 2 ^ 32 % 2 ^ 8
    ∷ v / 2 ^ 40 % 2 ^ 8
    ∷ v / 2 ^ 48 % 2 ^ 8
    ∷ v / 2 ^ 56 % 2 ^ 8
    ∷ []

unfoldable pub of_word : List ℕ → ℕ
of_word [] = 0
of_word (b ∷ bs) = b + 2 ^ 8 * of_word bs

-- `SaveMetaData`.
unfoldable pub save_meta_data : ℕ → ℕ → DatFileWriter → DatFileWriter
save_meta_data timestamp frame_size w =
    if w.files_opened
    then record w {
      indicies_stream =
          write_out (word w.raw_data_stream_size) (write_out (word timestamp) w.indicies_stream);
      raw_data_stream_size = w.raw_data_stream_size + frame_size;
    }
    else w

-- `Write`; `none` is -1.
unfoldable pub write_data_file : List ℕ → DatFileWriter → Option ℕ × DatFileWriter
write_data_file bs w =
    let raw = write_out bs w.raw_data_stream in
    let n = w.frames_written + 1 in
    if w.files_opened
    then (
      some (length bs),
      (if n == frames_count_to_flush
          then record w {
            raw_data_stream = flush raw;
            indicies_stream = flush w.indicies_stream;
            frames_written = 0;
          }
          else record w { raw_data_stream = raw; frames_written = n }),
    )
    else (none, w)

-- A file that is read: the bytes that are left, and if the last read had as many as it wanted.
pub record InStream : Type 0 where
  pub left : List ℕ
  pub good : Bool

-- `read` into a variable of eight bytes. Without enough bytes it fails, over those that there are;
-- after a failure it does nothing.
unfoldable pub read_word : List ℕ → InStream → List ℕ × InStream
read_word old s =
    let enough = leb 8 (length s.left) in
    if s.good
    then (if enough
        then (take 8 s.left, record { left = drop 8 s.left; good = true })
        else (s.left ++ drop (length s.left) old, record { left = []; good = false }))
    else (old, s)

-- `IndiciesMap`, by its entries, and its `insert`.
abbrev pub IndiciesMap : Type 0
IndiciesMap = List (ℕ × ℕ)

unfoldable pub find_index : ℕ → IndiciesMap → Option ℕ
find_index k [] = none
find_index k ((a, v) ∷ m) = let rest = find_index k m in if a == k then some v else rest

unfoldable pub insert_index : ℕ → ℕ → IndiciesMap → IndiciesMap
insert_index k v m = elim (find_index k m) [ none ↦ m ++ (k, v) ∷ [] | some _ ↦ m ]

-- The loop of `ReadIndicies`, on fuel, with the bytes of its two variables.
unfoldable pub read_indicies_loop :
    ℕ → List ℕ → List ℕ → IndiciesMap → InStream → Option IndiciesMap
read_indicies_loop zero timestamp frame_size m s = none
read_indicies_loop (suc n) timestamp frame_size m s =
    let (timestamp_1, s_1) = read_word timestamp s in
    let (frame_size_1, s_2) = read_word frame_size s_1 in
    let m_1 = insert_index (of_word timestamp_1) (of_word frame_size_1) m in
    let rest = read_indicies_loop n timestamp_1 frame_size_1 m_1 s_2 in
    if s.good then rest else some m

-- `ReadIndicies`. The two variables are not initialised: what they have is an argument.
unfoldable pub read_indicies : ℕ → List ℕ → List ℕ → List ℕ → Option IndiciesMap
read_indicies fuel timestamp frame_size file =
    read_indicies_loop fuel timestamp frame_size [] (record { left = file; good = true })

-- The least and the greatest timestamp of a file, with those of the files before it.
unfoldable pub timestamp_peeks : IndiciesMap → ℕ → ℕ → ℕ × ℕ
timestamp_peeks [] start last = (start, last)
timestamp_peeks ((a, v) ∷ m) start last =
    timestamp_peeks m (min a start) (if ltb last a then a else last)

unfoldable pub all_peeks : List IndiciesMap → ℕ → ℕ → ℕ × ℕ
all_peeks [] start last = (start, last)
all_peeks (m ∷ ms) start last =
    let (start_1, last_1) = timestamp_peeks m start last in all_peeks ms start_1 last_1

-- `GetTimestampPeeks`; `none` is false.
unfoldable pub get_timestamp_peeks : List IndiciesMap → ℕ → ℕ → Option (ℕ × ℕ)
get_timestamp_peeks [] start last = none
get_timestamp_peeks (m ∷ ms) start last = some (all_peeks (m ∷ ms) start last)
