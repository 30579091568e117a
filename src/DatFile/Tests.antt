-- ===== src/DatFile/Tests.antt =====
-- Two frames that are recorded, and the second is read again.
use new_cpp.Prelude.{ℕ, ◌+◌, ◌^◌, ◌<◌, ◌≡◌, refl, Bool, true, some, List, [], ◌∷◌, length, arith}
use new_cpp.Converter.{get_padded_size}
use new_cpp.Converter.Bytes.{u32_bytes, u64_bytes}
use new_cpp.Frame.{V4LFrame, new_frame, video_offset_of}
use new_cpp.Frame.Example.{frame, frame-IsPrepared, frame-IsInRange}
use new_cpp.Frame.Layout.{layout}
use new_cpp.Frame.Reading.{done, deserialize_from}
use new_cpp.Frame.RoundTrip.{restored}
use new_cpp.DatFile.{
  DatFileWriter, IndiciesMap, truncate, new_writer, open_files, close_files, find_index,
  read_indicies,
}
use new_cpp.DatFile.Content.{raw_bytes}
use new_cpp.DatFile.Streams.{FileState, seek, file_reader}
use new_cpp.DatFile.Playback.{pieces_of, record_frames, record_frames-read_back}

abbrev always : ℕ → Bool
always n = true

abbrev recorded : List (ℕ × V4LFrame)
recorded = (100, frame) ∷ (200, frame) ∷ []

recorded_size : length (raw_bytes (pieces_of recorded)) < 2 ^ 63
unfolding video_offset_of get_padded_size new_frame u32_bytes u64_bytes
recorded_size = omega arith

one_frame_size : length (layout frame) + length frame.data_container < 100
unfolding video_offset_of get_padded_size new_frame u32_bytes u64_bytes
one_frame_size = omega arith

record_frames-read_back_example :
    (w : DatFileWriter) × (m : IndiciesMap) × (p : ℕ) × (s : FileState) × (record_frames recorded
        (open_files (new_writer truncate (9 ∷ []) []))
      ≡ some w)
    × (read_indicies 10 [] [] (close_files w).indicies_stream.disk ≡ some m)
    × (find_index 200 m ≡ some p)
    × (deserialize_from file_reader always 100 new_frame (
          seek p
            (record { file = (close_files w).raw_data_stream.disk; position = 0; good = true }))
        ≡ done (restored frame new_frame) s)
record_frames-read_back_example =
    record_frames-read_back 10 100 always ((100, frame) ∷ []) [] 200 frame new_frame (9 ∷ []) [] []
      [] refl (omega arith, (omega arith, tt)) (frame-IsPrepared, (frame-IsPrepared, tt))
      frame-IsInRange refl recorded_size (omega arith) one_frame_size
