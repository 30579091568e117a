-- ===== src/Frame/Fields.antt =====
-- V4LFrame.cpp: what is read from the header of a frame that was written.
use new_cpp.Prelude.{
  ℕ, zero, suc, ◌+◌, ◌-◌, ◌%◌, ◌^◌, ◌≤◌, ◌<◌, ◌≡◌, refl, sym, ap, ap₂, ◌∙◌, true, some, List, [],
  ◌∷◌, ◌++◌, append_assoc, append-nil, length, length-append, take, get_elem?, take-length, arith,
  leb, ltb,
}
use new_cpp.Converter.{get_u32, get_u64, get_padded_size}
use new_cpp.Converter.Bytes.{
  u32_bytes, u64_bytes, get_elem?-append, get_u32-append, get_u32-u32_bytes, get_u64-u64_bytes,
}
use new_cpp.Frame.{V4LFrame, zeros, video_offset_of}
use new_cpp.Frame.Layout.{
  length-zeros, short_name, name_length, padding, beginning, video, total_size, layout,
  length-beginning, length-short_name,
}
use new_cpp.Frame.Header.{length-layout}
use new_cpp.Frame.Reading.{header_sizes, data_size, name_at, parse_fields, set_sizes, resize_to}

-- The first eight bytes of a frame, and those behind them.
abbrev pub sizes : V4LFrame → List ℕ
sizes f = u32_bytes (total_size f) ++ u32_bytes ((video_offset_of f.name - 4) % 2 ^ 32)

abbrev pub tail : V4LFrame → List ℕ
tail f =
    (1 ∷ 0 ∷ name_length f.name ∷ 0 ∷ (u32_bytes 0x0100 ++ (u32_bytes 0 ++ u64_bytes f.timestamp)))
    ++ (short_name f.name
        ++ (padding f.name
            ++ video f.input_width f.input_height f.bytes_per_line f.bits_per_pixel f.color_format))

-- The fields and the size of the frame are in the range of their types.
abbrev pub IsInRange : V4LFrame → Type 0
IsInRange f =
    (f.timestamp < 2 ^ 64)
    × (f.input_width < 2 ^ 32)
    × (f.input_height < 2 ^ 32)
    × (f.bytes_per_line < 2 ^ 32)
    × (video_offset_of f.name + 16 + length f.data_container < 2 ^ 31)

pub sizes-tail : (f : V4LFrame) → layout f ≡ sizes f ++ tail f
unfolding u32_bytes
sizes-tail f = refl

offset_bounds : (name : List ℕ) → (28 ≤ video_offset_of name) × (video_offset_of name ≤ 92)
unfolding video_offset_of get_padded_size
offset_bounds name = (omega arith, omega arith)

pub header_sizes-sizes :
    (f : V4LFrame) → header_sizes (sizes f) ≡ some (total_size f, video_offset_of f.name + 16)
unfolding header_sizes u32_bytes get_u32
header_sizes-sizes f =
    let (low, high) = offset_bounds f.name in
    ap₂ (λ a b. some (a, b)) (omega arith) (omega (arith, low, high))

pub data_size-layout :
    (f : V4LFrame)
    → IsInRange f
    → data_size (total_size f) (video_offset_of f.name + 16) ≡ length f.data_container
unfolding data_size
data_size-layout f (b_1, b_2, b_3, b_4, b_5) = omega (arith, b_5)

timestamp_at : (f : V4LFrame) → f.timestamp < 2 ^ 64 → get_u64 (layout f) 20 ≡ some f.timestamp
unfolding get_u64 get_u32 u32_bytes u64_bytes
timestamp_at f h = get_u64-u64_bytes f.timestamp [] h

name_at-layout : (f : V4LFrame) → name_at (layout f) ≡ some (short_name f.name)
unfolding name_at u32_bytes u64_bytes
name_at-layout f =
    let name = short_name f.name in
    let rest =
      padding f.name
      ++ video f.input_width f.input_height f.bytes_per_line f.bits_per_pixel f.color_format in
    let n = length-short_name f.name in
    let small : ltb (name_length f.name) 128 ≡ true = ground arith in
    let enough : leb (28 + name_length f.name) (28 + length (name ++ rest)) ≡ true =
      ground (arith, length-append name rest, n) in
    let taken : take (name_length f.name) (name ++ rest) ≡ name =
      ap (λ k. take k (name ++ rest)) (sym n) ∙ take-length name rest in
    let sum : 28 + length (name ++ rest) ≡ length (layout f) = omega arith in
    rw (small, ap (λ k. leb (28 + name_length f.name) k) (sym sum) ∙ enough, taken) refl

-- The fields in the video's part of a header.
video_fields :
    (a : List ℕ) (width height bytes_per_line bits_per_pixel color_format : ℕ)
    → width < 2 ^ 32
    → height < 2 ^ 32
    → bytes_per_line < 2 ^ 32
    → let h = a ++ video width height bytes_per_line bits_per_pixel color_format in
      (get_u32 h (length a + 0) ≡ some width)
      × (get_u32 h (length a + 4) ≡ some height)
      × (get_u32 h (length a + 8) ≡ some bytes_per_line)
      × (get_elem? h (length a + 12) ≡ some bits_per_pixel)
      × (get_elem? h (length a + 13) ≡ some color_format)
unfolding get_u32 u32_bytes
video_fields a w h b p c l_1 l_2 l_3 =
    let v = video w h b p c in
    (
      get_u32-append a v 0 ∙ get_u32-u32_bytes w [] l_1,
      get_u32-append a v 4 ∙ get_u32-u32_bytes h [] l_2,
      get_u32-append a v 8 ∙ get_u32-u32_bytes b [] l_3,
      get_elem?-append a v 12,
      get_elem?-append a v 13,
    )

-- What a frame is after the fields of another one were read into it.
abbrev pub with_fields : V4LFrame → V4LFrame → V4LFrame
with_fields f g = record g {
  timestamp = f.timestamp;
  name = short_name f.name;
  input_width = f.input_width;
  input_height = f.input_height;
  bytes_per_line = f.bytes_per_line;
  bits_per_pixel = f.bits_per_pixel;
  color_format = f.color_format;
}

pub parse_fields-layout :
    (f g : V4LFrame)
    → IsInRange f
    → g.header ≡ layout f
    → g.video_offset ≡ video_offset_of f.name
    → parse_fields g ≡ some (with_fields f g)
unfolding parse_fields
parse_fields-layout f g (b_1, b_2, b_3, b_4, b_5) e_header e_offset =
    let begin =
      beginning (total_size f) (video_offset_of f.name) (name_length f.name) f.timestamp in
    let middle = short_name f.name ++ padding f.name in
    let v = video f.input_width f.input_height f.bytes_per_line f.bits_per_pixel f.color_format in
    let split : layout f ≡ (begin ++ middle) ++ v =
      ap (λ l. begin ++ l) (sym (append_assoc (short_name f.name) (padding f.name) v))
      ∙ sym (append_assoc begin middle v) in
    let place : g.video_offset ≡ length (begin ++ middle) =
      e_offset ∙ sym (length-beginning (total_size f) (name_length f.name) f.timestamp f.name) in
    let (v_1, v_2, v_3, v_4, v_5) =
      video_fields (begin ++ middle) f.input_width f.input_height f.bytes_per_line f.bits_per_pixel
        f.color_format b_2 b_3 b_4 in
    let t = timestamp_at f b_1 in
    let n = name_at-layout f in
    let h = e_header ∙ split in
    rw
      (
        ap (λ l. get_u64 l 20) e_header ∙ t,
        ap name_at e_header ∙ n,
        ap₂ (λ l k. get_u32 l (k + 0)) h place ∙ v_1,
        ap₂ (λ l k. get_u32 l (k + 4)) h place ∙ v_2,
        ap₂ (λ l k. get_u32 l (k + 8)) h place ∙ v_3,
        ap₂ (λ l k. get_elem? l (k + 12)) h place ∙ v_4,
        ap₂ (λ l k. get_elem? l (k + 13)) h place ∙ v_5,
      )
      refl

take-all : (n : ℕ) (xs : List ℕ) → length xs ≤ n → take n xs ≡ xs
take-all zero [] h = refl
take-all zero (x ∷ xs) h = absurd (omega arith)
take-all (suc n) [] h = refl
take-all (suc n) (x ∷ xs) h = ap (λ l. x ∷ l) (take-all n xs (omega arith))

pub length-resize_to : (n : ℕ) (xs : List ℕ) → length (resize_to n xs) ≡ n
unfolding resize_to
length-resize_to zero xs =
    let none_left : 0 - length xs ≡ 0 = omega arith in ap (λ k. length (zeros k)) none_left
length-resize_to (suc n) [] =
    let all : suc n - 0 ≡ suc n = omega arith in
    ap (λ k. length (zeros k)) all ∙ length-zeros (suc n)
length-resize_to (suc n) (x ∷ xs) =
    let k : suc n - length (x ∷ xs) ≡ n - length xs = omega arith in
    ap suc (ap (λ m. length (take n xs ++ zeros m)) k ∙ length-resize_to n xs)

-- The frame when the first eight bytes are read.
abbrev pub prepared : V4LFrame → V4LFrame → V4LFrame
prepared f g = record g {
  data_container = zeros (length f.data_container);
  video_offset = video_offset_of f.name + 16 - 16;
  header = sizes f ++ zeros (video_offset_of f.name + 16 - 8);
}

pub length-tail : (f : V4LFrame) → length (tail f) ≡ video_offset_of f.name + 16 - 8
unfolding u32_bytes
length-tail f =
    let whole : video_offset_of f.name + 16 ≡ 8 + length (tail f) =
      sym (length-layout f) ∙ ap length (sizes-tail f) ∙ length-append (sizes f) (tail f) in
    omega (arith, whole)

pub set_sizes-prepared :
    (f g : V4LFrame)
    → IsInRange f
    → set_sizes (total_size f) (video_offset_of f.name + 16) (record g { header = sizes f })
      ≡ prepared f g
unfolding set_sizes resize_to u32_bytes
set_sizes-prepared f g bounds =
    let size = video_offset_of f.name + 16 in
    let k = size - 8 in
    let whole : 8 ≤ size = omega arith in
    let e_resize : resize_to size (sizes f) ≡ sizes f ++ zeros k =
      ap (λ l. l ++ zeros k) (take-all size (sizes f) whole) in
    rw (data_size-layout f bounds, e_resize) refl

pub resize_to-same : (n : ℕ) (xs : List ℕ) → length xs ≡ n → resize_to n xs ≡ xs
unfolding resize_to
resize_to-same n xs e =
    let none_left : n - length xs ≡ 0 = omega (arith, e) in
    rw (take-all n xs (omega (arith, e)), none_left, append-nil xs) refl
