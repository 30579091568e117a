-- ===== src/Frame/Layout.antt =====
-- The bytes of a frame, as a format.
use new_cpp.Prelude.{
  ℕ, zero, suc, ◌+◌, ◌-◌, ◌%◌, ◌^◌, ◌≤◌, min, ◌≡◌, refl, sym, ap, ◌∙◌, some, List, [], ◌∷◌, ◌++◌,
  append_assoc, length, length-append, take, arith,
}
use new_cpp.Converter.{
  set_byte, set_u32, get_padded_size, max_name_length, video_header_length, media_type_video,
  media_subtype_video_uncompressed,
}
use new_cpp.Converter.Bytes.{u32_bytes, u64_bytes, set_byte-append}
use new_cpp.Frame.{V4LFrame, zeros, copy_bytes, video_offset_of, prepare_header}

-- The part of a name that a header has room for.
abbrev pub short_name : List ℕ → List ℕ
short_name name = take (min (length name) max_name_length) name

abbrev pub name_length : List ℕ → ℕ
name_length name = min (length name) max_name_length

abbrev pub padding : List ℕ → List ℕ
padding name = zeros ((4 - name_length name % 4) % 4)

zeros-append : (m n : ℕ) → zeros (m + n) ≡ zeros m ++ zeros n
zeros-append zero n = let z : 0 + n ≡ n = omega arith in ap zeros z
zeros-append (suc m) n =
    let z : suc m + n ≡ suc (m + n) = omega arith in ap zeros z ∙ ap (λ l. 0 ∷ l) (zeros-append m n)

pub length-zeros : (n : ℕ) → length (zeros n) ≡ n
length-zeros zero = refl
length-zeros (suc n) = ap suc (length-zeros n)

pub length-take_within : (n : ℕ) (xs : List ℕ) → n ≤ length xs → length (take n xs) ≡ n
length-take_within zero xs h = refl
length-take_within (suc n) [] h = absurd (omega arith)
length-take_within (suc n) (x ∷ xs) h = ap suc (length-take_within n xs (omega arith))

pub length-short_name : (name : List ℕ) → length (short_name name) ≡ name_length name
length-short_name name = length-take_within (name_length name) name (omega arith)

-- The first 28 bytes, before the fields are written into them.
abbrev pub front : ℕ → ℕ → List ℕ
front offset n =
    0
    ∷ 0
    ∷ 0
    ∷ 0
    ∷ (u32_bytes ((offset - 4) % 2 ^ 32)
        ++ (1
            ∷ 0
            ∷ n
            ∷ 0
            ∷ (u32_bytes media_type_video
                ++ (u32_bytes media_subtype_video_uncompressed ++ zeros 8))))

-- A text that is copied over as many bytes.
copy_bytes-over :
    (a bs old rest : List ℕ) (offset : ℕ)
    → offset ≡ length a
    → length old ≡ length bs
    → copy_bytes offset bs (a ++ (old ++ rest)) ≡ some (a ++ (bs ++ rest))
unfolding copy_bytes
copy_bytes-over a [] [] rest offset e h = refl
copy_bytes-over a [] (x ∷ old) rest offset e h = absurd (omega arith)
copy_bytes-over a (b ∷ bs) [] rest offset e h = absurd (omega arith)
copy_bytes-over a (b ∷ bs) (x ∷ old) rest offset e h =
    let here : offset ≡ length a + 0 = omega (arith, e) in
    let next =
      copy_bytes-over (a ++ b ∷ []) bs old rest (length a + 0 + 1)
        (omega (arith, length-append a (b ∷ []))) (omega (arith, h)) in
    rw (
      here,
      set_byte-append a 0 b (x ∷ (old ++ rest)) (b ∷ (old ++ rest)) (unfold set_byte in refl),
      sym (append_assoc a (b ∷ []) (old ++ rest)),
      next,
      append_assoc a (b ∷ []) (bs ++ rest),
    )

zeros-header :
    (n p : ℕ) → zeros (28 + (n + p) + 16) ≡ zeros 28 ++ (zeros n ++ (zeros p ++ zeros 16))
zeros-header n p =
    zeros-append (28 + (n + p)) 16
    ∙ ap (λ l. l ++ zeros 16) (zeros-append 28 (n + p))
    ∙ ap (λ l. (zeros 28 ++ l) ++ zeros 16) (zeros-append n p)
    ∙ ap (λ l. zeros 28 ++ l) (append_assoc (zeros n) (zeros p) (zeros 16))

pub prepare_header-front :
    (name : List ℕ)
    → prepare_header name
      ≡ some (
          front (video_offset_of name) (name_length name)
          ++ (short_name name ++ (padding name ++ zeros 16)))
unfolding prepare_header video_offset_of get_padded_size set_u32 set_byte u32_bytes
prepare_header-front name =
    let n = name_length name in
    let p = (4 - n % 4) % 4 in
    let copied =
      copy_bytes-over (front (video_offset_of name) n) (short_name name) (zeros n)
        (padding name ++ zeros 16) 28 refl (length-zeros n ∙ sym (length-short_name name)) in
    rw (zeros-header n p) copied

-- The first 28 bytes of a frame, and the last 16 of its header.
abbrev pub beginning : ℕ → ℕ → ℕ → ℕ → List ℕ
beginning total offset n timestamp =
    u32_bytes total
    ++ (u32_bytes ((offset - 4) % 2 ^ 32)
        ++ (1
            ∷ 0
            ∷ n
            ∷ 0
            ∷ (u32_bytes media_type_video
                ++ (u32_bytes media_subtype_video_uncompressed ++ u64_bytes timestamp))))

abbrev pub video : ℕ → ℕ → ℕ → ℕ → ℕ → List ℕ
video width height bytes_per_line bits_per_pixel color_format =
    u32_bytes width
    ++ (u32_bytes height
        ++ (u32_bytes bytes_per_line ++ bits_per_pixel ∷ color_format ∷ 0 ∷ 0 ∷ []))

-- The size of a frame, in its 32 bits.
abbrev pub total_size : V4LFrame → ℕ
total_size f = (video_offset_of f.name + video_header_length + length f.data_container) % 2 ^ 32

-- The header of a frame, by its fields.
abbrev pub layout : V4LFrame → List ℕ
layout f =
    beginning (total_size f) (video_offset_of f.name) (name_length f.name) f.timestamp
    ++ (short_name f.name
        ++ (padding f.name
            ++ video f.input_width f.input_height f.bytes_per_line f.bits_per_pixel f.color_format))

-- A frame whose name was set.
abbrev pub IsPrepared : V4LFrame → Type 0
IsPrepared f = (prepare_header f.name ≡ some f.header) × (f.video_offset ≡ video_offset_of f.name)

-- The place of the video's part.
pub length-beginning :
    (total n timestamp : ℕ) (name : List ℕ)
    → length
        (beginning total (video_offset_of name) n timestamp ++ (short_name name ++ padding name))
      ≡ video_offset_of name
unfolding u32_bytes u64_bytes video_offset_of get_padded_size
length-beginning total n timestamp name = omega (
  arith,
  length-append (short_name name) (padding name),
  length-short_name name,
  length-zeros ((4 - name_length name % 4) % 4),
)
