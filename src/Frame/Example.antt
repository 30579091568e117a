-- ===== src/Frame/Example.antt =====
-- A frame with a name and two bytes of data, for the tests.
use new_cpp.Prelude.{ℕ, refl, List, [], ◌∷◌, arith}
use new_cpp.Converter.{set_byte, set_u32, get_padded_size}
use new_cpp.Converter.Bytes.{}
use new_cpp.Frame.{V4LFrame, new_frame, prepare_header, copy_bytes, video_offset_of}
use new_cpp.Frame.Layout.{IsPrepared}
use new_cpp.Frame.Reading.{}
use new_cpp.Frame.Pieces.{}
use new_cpp.Frame.Fields.{IsInRange}
use new_cpp.Frame.Writing.{}
use new_cpp.Frame.RoundTrip.{}
use new_cpp.Frame.Truncated.{}
use new_cpp.Frame.Pending.{}
use new_cpp.Frame.Async.{}

abbrev pub cam : List ℕ
cam = 99 ∷ 97 ∷ 109 ∷ []

abbrev pub frame : V4LFrame
frame = record new_frame {
  data_container = 7 ∷ 8 ∷ [];
  timestamp = 300;
  name = cam;
  input_width = 640;
  input_height = 480;
  bytes_per_line = 1280;
  bits_per_pixel = 16;
  color_format = 1;
  video_offset = 32;
  header =
      0 ∷ 0 ∷ 0 ∷ 0 ∷ 0 ∷ 0 ∷ 0 ∷ 28 ∷ 1 ∷ 0 ∷ 3 ∷ 0 ∷ 0 ∷ 0 ∷ 1 ∷ 0 ∷ 0 ∷ 0 ∷ 0 ∷ 0 ∷ 0 ∷ 0 ∷ 0 ∷ 0
      ∷ 0 ∷ 0 ∷ 0 ∷ 0 ∷ 99 ∷ 97 ∷ 109 ∷ 0 ∷ 0 ∷ 0 ∷ 0 ∷ 0 ∷ 0 ∷ 0 ∷ 0 ∷ 0 ∷ 0 ∷ 0 ∷ 0 ∷ 0 ∷ 0 ∷ 0
      ∷ 0 ∷ 0 ∷ [];
}

pub frame-IsPrepared : IsPrepared frame
unfolding prepare_header video_offset_of get_padded_size set_u32 set_byte copy_bytes new_frame
frame-IsPrepared = (refl, refl)

pub frame-IsInRange : IsInRange frame
unfolding video_offset_of get_padded_size new_frame
frame-IsInRange = (omega arith, omega arith, omega arith, omega arith, omega arith)
