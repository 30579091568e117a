-- ===== src/Frame.antt =====
-- MLCommon/src/SensorData/Frame/V4LFrame.cpp: a frame of video data with its header, and how it is
-- written to a stream. Its container is modelled by the bytes that it points to. `none` is an
-- access behind the end of the header, which has no meaning.
use new_cpp.Prelude.{
  ◌>>=◌, ℕ, zero, suc, ◌+◌, ◌-◌, ◌^◌, ◌%◌, min, Bool, false, Option, none, some, List, [], ◌∷◌,
  length, take, ◌==◌,
}
use new_cpp.Converter.{
  set_byte, set_u32, set_u64, get_padded_size, max_name_length, frame_header_length,
  video_header_length, media_type_video, media_subtype_video_uncompressed,
}
pub mod Layout
pub mod Header
pub mod Reading
pub mod Pieces
pub mod Fetching
pub mod Filling
pub mod Fields
pub mod Writing
pub mod RoundTrip
pub mod Example
mod Tests
mod Truncated
pub mod Pending
pub mod Stages
pub mod Async

pub data State : Type 0 where
  if_header v4l_header v4l_body deserialized : State

pub record V4LFrame : Type 0 where
  pub data_container : List ℕ
  pub timestamp : ℕ
  pub name : List ℕ
  pub input_width : ℕ
  pub input_height : ℕ
  pub bytes_per_line : ℕ
  pub bits_per_pixel : ℕ
  pub color_format : ℕ
  pub header : List ℕ
  pub video_offset : ℕ
  pub state : State
  pub accumulated : ℕ

unfoldable pub new_frame : V4LFrame
new_frame = record {
  data_container = [];
  timestamp = 0;
  name = [];
  input_width = 0;
  input_height = 0;
  bytes_per_line = 0;
  bits_per_pixel = 0;
  color_format = 0;
  header = [];
  video_offset = 0;
  state = if_header;
  accumulated = 0;
}

-- `resize` and `std::fill` with 0.
abbrev pub zeros : ℕ → List ℕ
zeros zero = []
zeros (suc n) = 0 ∷ zeros n

-- `mName.copy` into the header.
unfoldable pub copy_bytes : ℕ → List ℕ → List ℕ → Option (List ℕ)
copy_bytes offset [] d = some d
copy_bytes offset (b ∷ bs) d = do d_1 ← set_byte offset b d; copy_bytes (offset + 1) bs d_1

-- `mVideoOffset` for a name.
unfoldable pub video_offset_of : List ℕ → ℕ
video_offset_of name = frame_header_length + get_padded_size (min (length name) max_name_length)

-- `V4LFrame::prepareHeader`: the header for a name.
unfoldable pub prepare_header : List ℕ → Option (List ℕ)
prepare_header name =
    let name_length = min (length name) max_name_length in
    let offset = video_offset_of name in
    do
      h_1 ← set_u32 4 ((offset - 4) % 2 ^ 32) (zeros (offset + video_header_length))
      h_2 ← set_byte 8 1 h_1
      h_3 ← set_byte 9 0 h_2
      h_4 ← set_byte 10 name_length h_3
      h_5 ← set_byte 11 0 h_4
      h_6 ← set_u32 12 media_type_video h_5
      h_7 ← set_u32 16 media_subtype_video_uncompressed h_6
      copy_bytes frame_header_length (take name_length name) h_7

-- `V4LFrame::setName`.
unfoldable pub set_name : List ℕ → V4LFrame → Option V4LFrame
set_name name f = do
  h ← prepare_header name
  some (record f { name = name; header = h; video_offset = video_offset_of name })

-- The other setters.
unfoldable pub set_timestamp : ℕ → V4LFrame → V4LFrame
set_timestamp timestamp f = record f { timestamp = timestamp }

unfoldable pub set_data : List ℕ → V4LFrame → V4LFrame
set_data bytes f = record f { data_container = bytes }

unfoldable pub set_input_width : ℕ → V4LFrame → V4LFrame
set_input_width width f = record f { input_width = width }

unfoldable pub set_input_height : ℕ → V4LFrame → V4LFrame
set_input_height height f = record f { input_height = height }

unfoldable pub set_bytes_per_line : ℕ → V4LFrame → V4LFrame
set_bytes_per_line bytes_per_line f = record f { bytes_per_line = bytes_per_line }

unfoldable pub set_bits_per_pixel : ℕ → V4LFrame → V4LFrame
set_bits_per_pixel bits_per_pixel f = record f { bits_per_pixel = bits_per_pixel }

unfoldable pub set_color_format : ℕ → V4LFrame → V4LFrame
set_color_format color_format f = record f { color_format = color_format }

-- `V4LFrame::frameSize`.
unfoldable pub frame_size : V4LFrame → ℕ
frame_size f = length f.data_container + length f.header

-- `V4LFrame::updateFrame`: the header with the values of the fields.
unfoldable pub update_header : V4LFrame → Option (List ℕ)
update_header f = do
  h_1 ← set_u32 0 ((length f.header + length f.data_container) % 2 ^ 32) f.header
  h_2 ← set_u64 20 f.timestamp h_1
  h_3 ← set_u32 (f.video_offset + 0) f.input_width h_2
  h_4 ← set_u32 (f.video_offset + 4) f.input_height h_3
  h_5 ← set_u32 (f.video_offset + 8) f.bytes_per_line h_4
  h_6 ← set_byte (f.video_offset + 12) f.bits_per_pixel h_5
  set_byte (f.video_offset + 13) f.color_format h_6

-- A stream to write to: the result of `Write`, `none` for -1.
pub record Writer : Type 1 where
  pub World : Type 0
  pub write : List ℕ → World → Option ℕ × World

-- Is the sum of two results of `Write` the number? All of them are in the range of an `int`.
unfoldable pub sum_is : Option ℕ → Option ℕ → ℕ → Bool
sum_is (some a) (some b) n = a + b == n
sum_is (some a) none n = a == n + 1
sum_is none (some b) n = b == n + 1
sum_is none none n = false

module _ (writer : Writer) where
  open writer use {World, write}

  -- `V4LFrame::SerializeTo`.
  unfoldable pub serialize_to : V4LFrame → World → Option (Bool × (V4LFrame × World))
  serialize_to f w = do
    h ← update_header f
    let (first, w_1) = write h w in
        let (second, w_2) = write f.data_container w_1 in
        some
          (sum_is first second (length f.data_container + length h), (record f { header = h }, w_2))
