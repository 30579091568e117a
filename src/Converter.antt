-- ===== src/Converter.antt =====
-- MLCommon/src/Converter/converterutils.cpp and MLCommon/inc/Converter: numbers as four or eight
-- bytes, the highest first. A `char` is its byte, below 256. `none` is an access behind the end of
-- the vector, which has no meaning.
use new_cpp.Prelude.{
  ◌>>=◌, ℕ, zero, suc, ◌+◌, ◌-◌, ◌*◌, ◌/◌, ◌%◌, ◌^◌, Option, none, some, List, [], ◌∷◌, get_elem?,
}
use mathlib.Core.Option
pub mod Bytes

-- The constants of converterconstants.h that the frames use.
abbrev pub max_name_length : ℕ
max_name_length = 63

abbrev pub frame_header_length : ℕ
frame_header_length = 28

abbrev pub video_header_length : ℕ
video_header_length = 16

abbrev pub media_type_video : ℕ
media_type_video = 0x0100

abbrev pub media_subtype_video_uncompressed : ℕ
media_subtype_video_uncompressed = 0x0000

-- `vector[i] = v`.
unfoldable pub set_byte : ℕ → ℕ → List ℕ → Option (List ℕ)
set_byte i v [] = none
set_byte zero v (x ∷ xs) = some (v ∷ xs)
set_byte (suc i) v (x ∷ xs) = Option.map (λ ys. x ∷ ys) (set_byte i v xs)

-- `ConverterUtils::setU32`.
unfoldable pub set_u32 : ℕ → ℕ → List ℕ → Option (List ℕ)
set_u32 offset value d_0 = do
  d_1 ← set_byte offset (value / 2 ^ 24 % 256) d_0
  d_2 ← set_byte (offset + 1) (value / 2 ^ 16 % 256) d_1
  d_3 ← set_byte (offset + 2) (value / 2 ^ 8 % 256) d_2
  set_byte (offset + 3) (value % 256) d_3

-- `ConverterUtils::setU64`.
unfoldable pub set_u64 : ℕ → ℕ → List ℕ → Option (List ℕ)
set_u64 offset value d_0 = do
  d_1 ← set_u32 offset (value / 2 ^ 32 % 2 ^ 32) d_0
  set_u32 (offset + 4) (value % 2 ^ 32) d_1

-- `ConverterUtils::getPaddedSize`.
unfoldable pub get_padded_size : ℕ → ℕ
get_padded_size size = size + (4 - size % 4) % 4

-- `ConverterUtils::getU32`: the shifted bytes have no bit in common.
unfoldable pub get_u32 : List ℕ → ℕ → Option ℕ
get_u32 d offset = do
  b_0 ← get_elem? d offset
  b_1 ← get_elem? d (offset + 1)
  b_2 ← get_elem? d (offset + 2)
  b_3 ← get_elem? d (offset + 3)
  some ((b_0 % 256 * 2 ^ 24 + b_1 % 256 * 2 ^ 16 + b_2 % 256 * 2 ^ 8 + b_3 % 256) % 2 ^ 32)

-- `ConverterUtils::getU64`.
unfoldable pub get_u64 : List ℕ → ℕ → Option ℕ
get_u64 d offset = do
  high ← get_u32 d offset
  low ← get_u32 d (offset + 4)
  some (high * 2 ^ 32 + low)
