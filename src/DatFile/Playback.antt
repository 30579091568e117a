-- ===== src/DatFile/Playback.antt =====
-- DatFileWriter.cpp, DatFileReader.cpp, FileReadStream.cpp and V4LFrame.cpp together: frames that are
-- recorded in files, and one of them that is read again through the index.
use new_cpp.Prelude.{
  ℕ, ◌+◌, ◌^◌, ◌<◌, ◌≡◌, refl, sym, ap, subst, ◌∙◌, Bool, true, false, Option, some, List, [], ◌∷◌,
  ◌++◌, append_assoc, append-nil, length, length-append, take, drop, take-append-drop, arith, ◌==◌,
  ◌>>=◌,
}
use new_cpp.Frame.{V4LFrame, frame_size, serialize_to, sum_is}
use new_cpp.Frame.Layout.{IsPrepared, layout}
use new_cpp.Frame.Header.{update_header-layout, length-layout, length-header}
use new_cpp.Frame.Reading.{done, deserialize_from}
use new_cpp.Frame.Fields.{IsInRange}
use new_cpp.Frame.RoundTrip.{restored, deserialize_from-layout}
use new_cpp.DatFile.{
  DatFileWriter, truncate, new_writer, open_files, close_files, save_meta_data, write_data_file,
  IndiciesMap, find_index, read_indicies,
}
use new_cpp.DatFile.Content.{
  Frame, joined, raw_bytes, write_pieces, save_frames, write_data_file-HasWritten,
  save_meta_data-HasWritten, write_pieces-HasWritten,
}
use new_cpp.DatFile.Index.{has_timestamp, IsStamped}
use new_cpp.DatFile.Lookup.{saved, read_indicies-saved}
use new_cpp.DatFile.Streams.{FileState, seek, file_reader, file_writer, bytes_left, read_file-Gives}

-- How a frame is recorded: its entry in the index, and then the frame.
abbrev pub record_frame : ℕ → V4LFrame → DatFileWriter → Option DatFileWriter
record_frame timestamp f w = do
  result ← serialize_to file_writer f (save_meta_data timestamp (frame_size f) w)
  some result.1.1

abbrev pub record_frames : List (ℕ × V4LFrame) → DatFileWriter → Option DatFileWriter
record_frames [] w = some w
record_frames ((timestamp, f) ∷ fs) w = do w_1 ← record_frame timestamp f w; record_frames fs w_1

abbrev pub pieces_of : List (ℕ × V4LFrame) → List Frame
pieces_of [] = []
pieces_of ((timestamp, f) ∷ fs) = (timestamp, layout f ∷ f.data_container ∷ []) ∷ pieces_of fs

-- The names of all frames were set.
abbrev pub ArePrepared : List (ℕ × V4LFrame) → Type 0
ArePrepared [] = Unit {0}
ArePrepared ((timestamp, f) ∷ fs) = IsPrepared f × ArePrepared fs

write_opened :
    (bs : List ℕ) (w : DatFileWriter)
    → w.files_opened ≡ true
    → (write_data_file bs w).0 ≡ some (length bs)
unfolding write_data_file
write_opened bs w h = rw h refl

serialize_to-file :
    (f : V4LFrame) (w : DatFileWriter)
    → IsPrepared f
    → w.files_opened ≡ true
    → serialize_to file_writer f w
      ≡ some (
        true,
        (record f { header = layout f }, write_pieces (layout f ∷ f.data_container ∷ []) w),
      )
unfolding serialize_to sum_is
serialize_to-file f w h opened =
    let w_1 = (write_data_file (layout f) w).1 in
    let opened_1 = (write_data_file-HasWritten (layout f) w opened).0.still_open in
    let n = length (layout f) in
    let m = length f.data_container in
    let equal : (n + m == m + n) ≡ true = ground arith in
    let sum : sum_is (some n) (some m) (m + n) ≡ true = equal in
    rw
      (
        serialize_to,
        update_header-layout f h,
        write_opened (layout f) w opened,
        write_opened f.data_container w_1 opened_1,
        sum,
      )
      refl

frame_size-joined :
    (f : V4LFrame)
    → IsPrepared f
    → frame_size f ≡ length (joined (layout f ∷ f.data_container ∷ []))
unfolding frame_size
frame_size-joined f h = omega (
  arith,
  length-header f h,
  length-layout f,
  length-append (layout f) (f.data_container ++ []),
  length-append f.data_container [],
)

record_frames-save_frames :
    (fs : List (ℕ × V4LFrame)) (w : DatFileWriter)
    → ArePrepared fs
    → w.files_opened ≡ true
    → record_frames fs w ≡ some (save_frames (pieces_of fs) w)
record_frames-save_frames [] w h opened = refl
record_frames-save_frames ((t, f) ∷ fs) w h opened =
    let ps = layout f ∷ f.data_container ∷ [] in
    let n = length (joined ps) in
    let w_1 = save_meta_data t n w in
    let opened_1 = (save_meta_data-HasWritten t n w opened).0.still_open in
    let opened_2 = (write_pieces-HasWritten ps w_1 opened_1).0.still_open in
    rw
      (
        frame_size-joined f h.0,
        serialize_to-file f w_1 h.0 opened_1,
        record_frames-save_frames fs (write_pieces ps w_1) h.1 opened_2,
      )
      refl

pieces_of-append :
    (fs gs : List (ℕ × V4LFrame)) → pieces_of (fs ++ gs) ≡ pieces_of fs ++ pieces_of gs
pieces_of-append [] gs = refl
pieces_of-append ((t, f) ∷ fs) gs =
    ap (λ l. (t, layout f ∷ f.data_container ∷ []) ∷ l) (pieces_of-append fs gs)

-- What is found behind a place in a file, is what a stream reads from there.
bytes_left-seek :
    (p : ℕ) (file bs : List ℕ)
    → take (length bs) (drop p file) ≡ bs
    → bytes_left (seek p (record { file = file; position = 0; good = true }))
      ≡ bs ++ drop (length bs) (drop p file)
unfolding seek
bytes_left-seek p file bs e =
    sym (take-append-drop (length bs) (drop p file))
    ∙ ap (λ l. l ++ drop (length bs) (drop p file)) e

-- Frames whose names were set are recorded in two files that are emptied, each with its timestamp;
-- all is in the range of its types, and the data of the frame can be allocated. Then the recording
-- succeeds, `ReadIndicies` ends on the closed index and has a place for the timestamp, and
-- `DeserializeFrom`, on a `FileReadStream` at that place, ends with the first frame that was
-- recorded with the timestamp: its fields and its data, its name cut to 63 bytes.
pub record_frames-read_back :
    (fuel fuel' : ℕ) (allocate : ℕ → Bool) (before after : List (ℕ × V4LFrame)) (k : ℕ)
    (f g : V4LFrame) (raw index junk junk' : List ℕ)
    → has_timestamp k (pieces_of before) ≡ false
    → IsStamped (pieces_of (before ++ (k, f) ∷ after))
    → ArePrepared (before ++ (k, f) ∷ after)
    → IsInRange f
    → allocate (length f.data_container) ≡ true
    → length (raw_bytes (pieces_of (before ++ (k, f) ∷ after))) < 2 ^ 63
    → length (pieces_of (before ++ (k, f) ∷ after)) + 1 < fuel
    → length (layout f) + length f.data_container < fuel'
    → (w : DatFileWriter) × (m : IndiciesMap) × (p : ℕ) × (s : FileState) × (record_frames
          (before ++ (k, f) ∷ after)
          (open_files (new_writer truncate raw index))
        ≡ some w)
      × (read_indicies fuel junk junk' (close_files w).indicies_stream.disk ≡ some m)
      × (find_index k m ≡ some p)
      × (deserialize_from file_reader allocate fuel' g (
            seek p
              (record { file = (close_files w).raw_data_stream.disk; position = 0; good = true }))
          ≡ done (restored f g) s)
record_frames-read_back fuel fuel' allocate before after k f g raw index junk junk' new stamped
      prepared bounds there size enough enough' =
    let all = before ++ (k, f) ∷ after in
    let ps = layout f ∷ f.data_container ∷ [] in
    let w = save_frames (pieces_of all) (open_files (new_writer truncate raw index)) in
    let split = pieces_of-append before ((k, f) ∷ after) in
    let (m, p, e_m, e_p, e_bytes) =
      read_indicies-saved fuel (pieces_of before) (pieces_of after) k ps raw index junk junk' new
        (subst IsStamped split stamped) (subst (λ l. length (raw_bytes l) < 2 ^ 63) split size)
        (subst (λ l. length l + 1 < fuel) split enough) in
    let same = ap (saved raw index) split in
    let file = (close_files w).raw_data_stream.disk in
    let bytes : take (length (joined ps)) (drop p file) ≡ joined ps =
      ap (λ v. take (length (joined ps)) (drop p v.raw_data_stream.disk)) same ∙ e_bytes in
    let rest = drop (length (joined ps)) (drop p file) in
    let left = bytes_left-seek p file (joined ps) bytes in
    let message : joined ps ++ rest ≡ layout f ++ (f.data_container ++ rest) =
      ap (λ l. (layout f ++ l) ++ rest) (append-nil f.data_container)
      ∙ append_assoc (layout f) f.data_container rest in
    let (s, e_read, e_rest) =
      deserialize_from-layout file_reader bytes_left read_file-Gives allocate fuel' f g rest
        (seek p (record { file = file; position = 0; good = true })) bounds there (left ∙ message)
        enough' in
    (
      w,
      m,
      p,
      s,
      record_frames-save_frames all (open_files (new_writer truncate raw index)) prepared
          (unfold open_files new_writer in refl),
      ap (λ v. read_indicies fuel junk junk' v.indicies_stream.disk) same ∙ e_m,
      e_p,
      e_read,
    )
