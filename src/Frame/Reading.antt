-- ===== src/Frame/Reading.antt =====
-- V4LFrame.cpp: how a frame is read from a stream, at once or as its bytes come in.
use new_cpp.Prelude.{
  ℕ, zero, suc, ◌+◌, ◌-◌, ◌^◌, ◌%◌, Bool, ◌&&◌, Option, none, some, List, [], ◌∷◌, ◌++◌, length,
  take, drop, get_elem?, ◌==◌, ◌>>=◌, leb, ltb, if◌then◌else◌,
}
use new_cpp.Converter.{get_u32, get_u64, frame_header_length, video_header_length}
use new_cpp.Frame.{V4LFrame, zeros, if_header, v4l_header, v4l_body, deserialized}

-- A stream to read from: the bytes that `Read` gives, at most as many as it is asked for; `none` for
-- a negative result.
pub record Reader : Type 1 where
  pub World : Type 0
  pub read : ℕ → World → Option (List ℕ) × World

-- How the filling of a buffer ends: with the buffer and the number of its bytes that were read.
pub data Fetched (W : Type 0) : Type 0 where
  full : List ℕ → W → Fetched W
  failed : List ℕ → ℕ → W → Fetched W
  no_fuel : Fetched W

-- How a call ends. `broken` is an access behind the end of the header, a name that is too long for
-- its string, or a size that cannot be allocated.
pub data Outcome (W : Type 0) : Type 0 where
  done : V4LFrame → W → Outcome W
  refused : V4LFrame → W → Outcome W
  broken : Outcome W
  stuck : Outcome W

-- Bytes in a buffer, from a place on.
unfoldable pub write_at : ℕ → List ℕ → List ℕ → List ℕ
write_at offset bs buffer = take offset buffer ++ (bs ++ drop (offset + length bs) buffer)

-- The sizes in the first eight bytes: of the frame, and of the header with its video part.
unfoldable pub header_sizes : List ℕ → Option (ℕ × ℕ)
header_sizes h = do
  total ← get_u32 h 0
  size ← get_u32 h 4
  some (total, (size + 4) % 2 ^ 32 + video_header_length)

-- The difference in 64 bits.
unfoldable pub data_size : ℕ → ℕ → ℕ
data_size total size = (total + 2 ^ 64 - size) % 2 ^ 64

-- `mName.assign`; the length is a `char` with a sign.
unfoldable pub name_at : List ℕ → Option (List ℕ)
name_at h = do
  n ← get_elem? h 10
  if ltb n 128 && leb (frame_header_length + n) (length h)
      then some (take n (drop frame_header_length h))
      else none

-- The fields in a header.
unfoldable pub parse_fields : V4LFrame → Option V4LFrame
parse_fields f = do
  timestamp ← get_u64 f.header 20
  name ← name_at f.header
  width ← get_u32 f.header (f.video_offset + 0)
  height ← get_u32 f.header (f.video_offset + 4)
  bytes_per_line ← get_u32 f.header (f.video_offset + 8)
  bits_per_pixel ← get_elem? f.header (f.video_offset + 12)
  color_format ← get_elem? f.header (f.video_offset + 13)
  some (record f {
    timestamp = timestamp;
    name = name;
    input_width = width;
    input_height = height;
    bytes_per_line = bytes_per_line;
    bits_per_pixel = bits_per_pixel;
    color_format = color_format;
  })

-- `resize`.
unfoldable pub resize_to : ℕ → List ℕ → List ℕ
resize_to n xs = take n xs ++ zeros (n - length xs)

-- What both ways do with the first eight bytes. Bytes that were not read are 0 here.
unfoldable pub set_sizes : ℕ → ℕ → V4LFrame → V4LFrame
set_sizes total size f = record f {
  data_container = zeros (data_size total size);
  video_offset = size - video_header_length;
  header = resize_to size f.header;
}

module _ (reader : Reader) where
  open reader use {World, read}

  -- The `do` loops of `DeserializeFrom`.
  unfoldable pub read_loop : ℕ → List ℕ → ℕ → World → Fetched World
  read_loop zero buffer size w = no_fuel
  read_loop (suc n) buffer size w =
      let (result, w_1) = read (length buffer - size) w in
      elim result [
        | none ↦ failed buffer size w_1
        | some bs ↦
            let size_1 = size + length bs in
            let buffer_1 = write_at size bs buffer in
            let rest = read_loop n buffer_1 size_1 w_1 in
            if size_1 == length buffer then full buffer_1 w_1 else rest
      ]

  -- `fillupBuffer`: `full` if it returns true.
  unfoldable pub fillup_buffer : ℕ → List ℕ → ℕ → World → Fetched World
  fillup_buffer zero buffer size w = no_fuel
  fillup_buffer (suc n) buffer size w =
      if ltb size (length buffer)
      then (let (result, w_1) = read (length buffer - size) w in
          elim result [
            | none ↦ failed buffer size w_1
            | some [] ↦ failed buffer size w_1
            | some (b ∷ bs) ↦
                fillup_buffer n (write_at size (b ∷ bs) buffer) (size + length (b ∷ bs)) w_1
          ])
      else full buffer w

-- The end of both ways.
unfoldable pub read_body : {W : Type 0} → V4LFrame → Fetched W → Outcome W
read_body f (full bytes w) = done (record f { data_container = bytes }) w
read_body f (failed bytes size w) = refused (record f { data_container = bytes }) w
read_body f no_fuel = stuck

-- The `switch` of `AsyncDeserializeFrom`, from the case of the body on.
unfoldable pub continue_body : {W : Type 0} → V4LFrame → Fetched W → Outcome W
continue_body f (full bytes w) =
    done (record f { data_container = bytes; state = deserialized; accumulated = length bytes }) w
continue_body f (failed bytes size w) =
    refused (record f { data_container = bytes; accumulated = size }) w
continue_body f no_fuel = stuck

module _ (reader : Reader) where
  open reader use {World}

  unfoldable pub read_fields : ℕ → V4LFrame → Fetched World → Outcome World
  read_fields fuel f (full h w) = elim (parse_fields (record f { header = h })) [
    | none ↦ broken
    | some g ↦ read_body g (read_loop reader fuel g.data_container 0 w)
  ]
  read_fields fuel f (failed h size w) = refused (record f { header = h }) w
  read_fields fuel f no_fuel = stuck

  -- `parseV4LFrameHeader`, and the next turn.
  unfoldable pub continue_fields : ℕ → V4LFrame → Fetched World → Outcome World
  continue_fields fuel f (full h w) = elim (parse_fields (record f { header = h })) [
    | none ↦ broken
    | some g ↦
        continue_body (record g { state = v4l_body; accumulated = 0 })
          (fillup_buffer reader fuel g.data_container 0 w)
  ]
  continue_fields fuel f (failed h size w) = refused (record f { header = h; accumulated = size }) w
  continue_fields fuel f no_fuel = stuck

-- `allocate`: does `new char[n]` succeed?
module _ (reader : Reader) (allocate : ℕ → Bool) where
  open reader use {World}

  unfoldable pub read_header : ℕ → V4LFrame → Fetched World → Outcome World
  read_header fuel f (full h w) = elim (header_sizes h) [
    | none ↦ broken
    | some (total, size) ↦
        let g = set_sizes total size (record f { header = h }) in
        let rest = read_fields reader fuel g (read_loop reader fuel g.header 8 w) in
        if allocate (data_size total size) then rest else broken
  ]
  read_header fuel f (failed h size w) = refused (record f { header = h }) w
  read_header fuel f no_fuel = stuck

  -- `V4LFrame::DeserializeFrom`, with fuel for each of its loops.
  unfoldable pub deserialize_from : ℕ → V4LFrame → World → Outcome World
  deserialize_from fuel f w = read_header fuel f (read_loop reader fuel (resize_to 8 f.header) 0 w)

  -- `parseIFrameHeader`, and the next turn.
  unfoldable pub continue_header : ℕ → V4LFrame → Fetched World → Outcome World
  continue_header fuel f (full h w) = elim (header_sizes h) [
    | none ↦ broken
    | some (total, size) ↦
        let g = set_sizes total size (record f { header = h }) in
        let next = record g { state = v4l_header; accumulated = length h } in
        let rest =
          continue_fields reader fuel next (fillup_buffer reader fuel g.header (length h) w) in
        if allocate (data_size total size) then rest else broken
  ]
  continue_header fuel f (failed h size w) = refused (record f { header = h; accumulated = size }) w
  continue_header fuel f no_fuel = stuck

  -- `V4LFrame::AsyncDeserializeFrom`; a frame that is complete throws.
  unfoldable pub async_deserialize_from : ℕ → V4LFrame → World → Outcome World
  async_deserialize_from fuel f w = elim f.state [
    | if_header ↦
        continue_header fuel f (fillup_buffer reader fuel (resize_to 8 f.header) f.accumulated w)
    | v4l_header ↦
        continue_fields reader fuel f (fillup_buffer reader fuel f.header f.accumulated w)
    | v4l_body ↦ continue_body f (fillup_buffer reader fuel f.data_container f.accumulated w)
    | deserialized ↦ broken
  ]
