-- ===== src/Frame/Header.antt =====
-- V4LFrame.cpp: the bytes that `updateFrame` gives to a header.
use new_cpp.Prelude.{
  ℕ, ◌+◌, ◌-◌, ◌%◌, ◌≡◌, refl, sym, ap, ◌∙◌, Option, some, List, [], ◌∷◌, ◌++◌, append_assoc,
  length, length-append, drop, arith, ◌>>=◌,
}
use new_cpp.Converter.{set_byte, set_u32, set_u64, get_padded_size}
use new_cpp.Converter.Bytes.{u32_bytes, u64_bytes, set_u32-append, set_byte-append}
use new_cpp.Frame.{
  set_name, set_timestamp, set_data, set_input_width, set_input_height, set_bytes_per_line,
  set_bits_per_pixel, set_color_format, V4LFrame, zeros, video_offset_of, update_header,
}
use new_cpp.Frame.Layout.{
  short_name, name_length, padding, front, beginning, video, total_size, layout, IsPrepared,
  length-beginning, length-zeros, length-short_name, prepare_header-front,
}

length-front :
    (name : List ℕ)
    → length (
        front (video_offset_of name) (name_length name)
        ++ (short_name name ++ (padding name ++ zeros 16)))
      ≡ video_offset_of name + 16
unfolding u32_bytes video_offset_of get_padded_size
length-front name = omega (
  arith,
  length-append (short_name name) (padding name ++ zeros 16),
  length-append (padding name) (zeros 16),
  length-short_name name,
  length-zeros ((4 - name_length name % 4) % 4),
)

set_u32-total :
    (total offset n : ℕ) (rest : List ℕ)
    → set_u32 0 total (front offset n ++ rest)
      ≡ some (u32_bytes total ++ drop 4 (front offset n ++ rest))
unfolding set_u32 set_byte u32_bytes
set_u32-total total offset n rest = refl

set_u64-timestamp :
    (total offset n timestamp : ℕ) (rest : List ℕ)
    → set_u64 20 timestamp (u32_bytes total ++ drop 4 (front offset n ++ rest))
      ≡ some (beginning total offset n timestamp ++ rest)
unfolding set_u64 set_u32 set_byte u32_bytes u64_bytes
set_u64-timestamp total offset n timestamp rest = refl

-- The last steps of `updateFrame`, which write behind a beginning.
abbrev update_video : ℕ → ℕ → ℕ → ℕ → ℕ → ℕ → List ℕ → Option (List ℕ)
update_video offset width height bytes_per_line bits_per_pixel color_format h = do
  h_1 ← set_u32 (offset + 0) width h
  h_2 ← set_u32 (offset + 4) height h_1
  h_3 ← set_u32 (offset + 8) bytes_per_line h_2
  h_4 ← set_byte (offset + 12) bits_per_pixel h_3
  set_byte (offset + 13) color_format h_4

update_video-video :
    (a : List ℕ) (offset width height bytes_per_line bits_per_pixel color_format : ℕ)
    → length a ≡ offset
    → update_video offset width height bytes_per_line bits_per_pixel color_format (a ++ zeros 16)
      ≡ some (a ++ video width height bytes_per_line bits_per_pixel color_format)
unfolding u32_bytes
update_video-video a offset w h b p c e =
    let d_1 = u32_bytes w ++ zeros 12 in
    let d_2 = u32_bytes w ++ (u32_bytes h ++ zeros 8) in
    let d_3 = u32_bytes w ++ (u32_bytes h ++ (u32_bytes b ++ zeros 4)) in
    let d_4 = u32_bytes w ++ (u32_bytes h ++ (u32_bytes b ++ p ∷ 0 ∷ 0 ∷ 0 ∷ [])) in
    rw (
      sym e,
      set_u32-append a 0 w (zeros 16) d_1 (unfold set_u32 set_byte in refl),
      set_u32-append a 4 h d_1 d_2 (unfold set_u32 set_byte in refl),
      set_u32-append a 8 b d_2 d_3 (unfold set_u32 set_byte in refl),
      set_byte-append a 12 p d_3 d_4 (unfold set_byte in refl),
      set_byte-append a 13 c d_4 (video w h b p c) (unfold set_byte in refl),
    )

pub some-equal : {A : Type 0} {x y : A} → some x ≡ some y → x ≡ y
some-equal e = cc

-- The header of a prepared frame, before its fields are written.
header-front :
    (f : V4LFrame)
    → IsPrepared f
    → f.header
      ≡ front (video_offset_of f.name) (name_length f.name)
        ++ (short_name f.name ++ (padding f.name ++ zeros 16))
header-front f h = some-equal (sym h.0 ∙ prepare_header-front f.name)

-- For a frame whose name was set: `updateFrame` stays within the header, and gives it the bytes of
-- the format, whatever was written into the fields.
pub update_header-layout : (f : V4LFrame) → IsPrepared f → update_header f ≡ some (layout f)
unfolding update_header
update_header-layout f h =
    let offset = video_offset_of f.name in
    let n = name_length f.name in
    let rest = short_name f.name ++ (padding f.name ++ zeros 16) in
    let begin = beginning (total_size f) offset n f.timestamp in
    let middle = short_name f.name ++ padding f.name in
    let v = video f.input_width f.input_height f.bytes_per_line f.bits_per_pixel f.color_format in
    let split : (z : List ℕ)
        → begin ++ (short_name f.name ++ (padding f.name ++ z)) ≡ (begin ++ middle) ++ z =
      λ z.
        ap (λ l. begin ++ l) (sym (append_assoc (short_name f.name) (padding f.name) z))
        ∙ sym (append_assoc begin middle z) in
    rw
      (
        h.1,
        header-front f h,
        length-front f.name,
        set_u32-total (total_size f) offset n rest,
        set_u64-timestamp (total_size f) offset n f.timestamp rest,
        split (zeros 16),
        split v,
      )
      (update_video-video (begin ++ middle) offset f.input_width f.input_height f.bytes_per_line
        f.bits_per_pixel f.color_format (length-beginning (total_size f) n f.timestamp f.name))

pub length-layout : (f : V4LFrame) → length (layout f) ≡ video_offset_of f.name + 16
unfolding u32_bytes
length-layout f =
    let begin =
      beginning (total_size f) (video_offset_of f.name) (name_length f.name) f.timestamp in
    let middle = short_name f.name ++ padding f.name in
    let v = video f.input_width f.input_height f.bytes_per_line f.bits_per_pixel f.color_format in
    let split : layout f ≡ (begin ++ middle) ++ v =
      ap (λ l. begin ++ l) (sym (append_assoc (short_name f.name) (padding f.name) v))
      ∙ sym (append_assoc begin middle v) in
    ap length split
    ∙ length-append (begin ++ middle) v
    ∙ ap (λ n. n + 16) (length-beginning (total_size f) (name_length f.name) f.timestamp f.name)

pub length-header : (f : V4LFrame) → IsPrepared f → length f.header ≡ video_offset_of f.name + 16
length-header f h = ap length (header-front f h) ∙ length-front f.name

-- `setName` does not fail, whatever the name, and leaves a frame whose name was set; the other
-- setters keep that.
set_name-IsPrepared :
    (name : List ℕ) (f : V4LFrame)
    → (g : V4LFrame) × (set_name name f ≡ some g) × IsPrepared g × (g.name ≡ name)
unfolding set_name
set_name-IsPrepared name f =
    let e = prepare_header-front name in
    let h =
      front (video_offset_of name) (name_length name)
      ++ (short_name name ++ (padding name ++ zeros 16)) in
    (
      record f { name = name; header = h; video_offset = video_offset_of name },
      rw (set_name, e) refl,
      (e, refl),
      refl,
    )

setters-IsPrepared :
    (f : V4LFrame) (timestamp width height bytes_per_line bits_per_pixel color_format : ℕ)
    (bytes : List ℕ)
    → IsPrepared f
    → IsPrepared (set_timestamp timestamp f)
      × IsPrepared (set_data bytes f)
      × IsPrepared (set_input_width width f)
      × IsPrepared (set_input_height height f)
      × IsPrepared (set_bytes_per_line bytes_per_line f)
      × IsPrepared (set_bits_per_pixel bits_per_pixel f)
      × IsPrepared (set_color_format color_format f)
unfolding set_timestamp set_data set_input_width set_input_height set_bytes_per_line
    set_bits_per_pixel set_color_format
setters-IsPrepared f timestamp width height bytes_per_line bits_per_pixel color_format bytes h =
    (h, h, h, h, h, h, h)
