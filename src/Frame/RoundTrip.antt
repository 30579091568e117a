-- ===== src/Frame/RoundTrip.antt =====
-- V4LFrame.cpp: a frame that was written to a stream is read back from it.
use new_cpp.Prelude.{
  ℕ, ◌+◌, ◌-◌, ◌<◌, ◌≡◌, refl, sym, ap, ◌∙◌, Bool, true, some, List, [], ◌++◌, append_assoc, length,
  length-append, arith,
}
use new_cpp.Converter.Bytes.{u32_bytes}
use new_cpp.Frame.{V4LFrame, zeros, video_offset_of, Writer, serialize_to}
use new_cpp.Frame.Layout.{IsPrepared, layout, length-zeros}
use new_cpp.Frame.Header.{length-layout, some-equal}
use new_cpp.Frame.Reading.{
  Reader, full, Outcome, done, read_loop, read_body, read_fields, read_header, deserialize_from,
  resize_to,
}
use new_cpp.Frame.Pieces.{Gives}
use new_cpp.Frame.Writing.{Takes, serialize_to-layout}
use new_cpp.Frame.Fetching.{read_loop-full}
use new_cpp.Frame.Fields.{
  IsInRange, sizes, tail, sizes-tail, length-resize_to, length-tail, prepared, set_sizes-prepared,
  header_sizes-sizes, data_size-layout, parse_fields-layout, with_fields,
}

-- The frame that was written, as it is read into another.
abbrev pub restored : V4LFrame → V4LFrame → V4LFrame
restored f g =
    let read = with_fields f g in
    record read {
      data_container = f.data_container;
      header = layout f;
      video_offset = video_offset_of f.name;
    }

module _ (reader : Reader) (contents : reader.World → List ℕ)
    (gives : (n : ℕ) (w : reader.World) → Gives reader contents n w) where
  open reader use {World}

  read_fields-layout :
      (fuel : ℕ) (f g : V4LFrame) (rest : List ℕ) (w : World)
      → IsInRange f
      → g.video_offset ≡ video_offset_of f.name
      → length g.data_container ≡ length f.data_container
      → contents w ≡ f.data_container ++ rest
      → length f.data_container < fuel
      → (w' : World) × (read_fields reader fuel g (full (layout f) w)
          ≡ done
              (record (with_fields f g) { data_container = f.data_container; header = layout f })
              w')
        × (contents w' ≡ rest)
  unfolding read_fields
  read_fields-layout fuel f g rest w bounds e_offset same e enough =
      let (w', e', e_rest) =
        read_loop-full reader contents gives fuel [] f.data_container g.data_container rest w e same
          enough in
      let fields = parse_fields-layout f (record g { header = layout f }) bounds refl e_offset in
      (w', rw (read_fields, fields, e') (unfold read_body in refl), e_rest)

  pub read_header-prepared :
      (allocate : ℕ → Bool) (fuel : ℕ) (f g : V4LFrame) (w : World)
      → IsInRange f
      → allocate (length f.data_container) ≡ true
      → let h = prepared f g in
        read_header reader allocate fuel g (full (sizes f) w)
        ≡ read_fields reader fuel h (read_loop reader fuel h.header 8 w)
  unfolding read_header u32_bytes
  read_header-prepared allocate fuel f g w bounds there =
      let e_size = data_size-layout f bounds in
      let e_set = set_sizes-prepared f g bounds in
      rw (read_header, header_sizes-sizes f, e_size, there, e_set) refl

  -- A frame from the bytes behind its first eight.
  read_header-sizes :
      (allocate : ℕ → Bool) (fuel : ℕ) (f g : V4LFrame) (rest : List ℕ) (w : World)
      → IsInRange f
      → allocate (length f.data_container) ≡ true
      → contents w ≡ tail f ++ (f.data_container ++ rest)
      → length (layout f) + length f.data_container < fuel
      → (w' : World) × (read_header reader allocate fuel g (full (sizes f) w)
          ≡ done (restored f g) w')
        × (contents w' ≡ rest)
  unfolding u32_bytes
  read_header-sizes allocate fuel f g rest w bounds there e enough =
      let (w_1, e_1, c_1) =
        read_loop-full reader contents gives fuel (sizes f) (tail f)
          (zeros (video_offset_of f.name + 16 - 8)) (f.data_container ++ rest) w e
          (length-zeros (video_offset_of f.name + 16 - 8) ∙ sym (length-tail f))
          (omega (arith, enough, length-layout f, length-tail f)) in
      let (w_2, e_2, c_2) =
        read_fields-layout fuel f (prepared f g) rest w_1 bounds (omega arith)
          (length-zeros (length f.data_container)) c_1 (omega (arith, enough)) in
      let e_offset : video_offset_of f.name + 16 - 16 ≡ video_offset_of f.name = omega arith in
      let result : ℕ → Outcome World =
        λ o. let r = restored f g in done (record r { video_offset = o }) w_2 in
      (
        w_2,
        read_header-prepared allocate fuel f g w bounds there
            ∙ ap (read_fields reader fuel (prepared f g))
                (e_1 ∙ ap (λ l. full l w_1) (sym (sizes-tail f)))
            ∙ e_2
            ∙ ap result e_offset,
        c_2,
      )

  -- A frame in the range of its types, whose header and data come next in a stream, in pieces of any
  -- size: for a buffer that can be allocated, `DeserializeFrom` ends, returns true, leaves the rest in
  -- the stream, and gives the frame's fields and data, its name cut to the 63 bytes of the format.
  pub deserialize_from-layout :
      (allocate : ℕ → Bool) (fuel : ℕ) (f g : V4LFrame) (rest : List ℕ) (w : World)
      → IsInRange f
      → allocate (length f.data_container) ≡ true
      → contents w ≡ layout f ++ (f.data_container ++ rest)
      → length (layout f) + length f.data_container < fuel
      → (w' : World) × (deserialize_from reader allocate fuel g w ≡ done (restored f g) w')
        × (contents w' ≡ rest)
  unfolding deserialize_from u32_bytes
  deserialize_from-layout allocate fuel f g rest w bounds there e enough =
      let parts : layout f ++ (f.data_container ++ rest)
          ≡ sizes f ++ (tail f ++ (f.data_container ++ rest)) =
        ap (λ l. l ++ (f.data_container ++ rest)) (sizes-tail f)
        ∙ append_assoc (sizes f) (tail f) (f.data_container ++ rest) in
      let (w_1, e_1, c_1) =
        read_loop-full reader contents gives fuel [] (sizes f) (resize_to 8 g.header)
          (tail f ++ (f.data_container ++ rest)) w (e ∙ parts) (length-resize_to 8 g.header)
          (omega (arith, enough, length-layout f)) in
      let (w_2, e_2, c_2) = read_header-sizes allocate fuel f g rest w_1 bounds there c_1 enough in
      (w_2, ap (λ r. read_header reader allocate fuel g r) e_1 ∙ e_2, c_2)

module _ (reader : Reader) (contents : reader.World → List ℕ)
    (gives : (n : ℕ) (w : reader.World) → Gives reader contents n w) (writer : Writer)
    (written : writer.World → List ℕ)
    (takes : (bs : List ℕ) (v : writer.World) → Takes writer written bs v) where
  open reader use {World}

  -- A frame whose name was set, in the range of its types, that `SerializeTo` writes to an empty
  -- stream which takes all bytes: it returns true, and `DeserializeFrom`, on a stream that gives
  -- what was written, in pieces of any size, and then the rest, ends and returns true for a buffer
  -- that can be allocated, gives the frame's fields and data, its name cut to 63 bytes, and leaves
  -- the rest.
  pub deserialize_from-serialize_to :
      (allocate : ℕ → Bool) (fuel : ℕ) (f f' g : V4LFrame) (rest : List ℕ) (w : World)
      (v v' : writer.World) (ok : Bool)
      → IsPrepared f
      → IsInRange f
      → allocate (length f.data_container) ≡ true
      → written v ≡ []
      → serialize_to writer f v ≡ some (ok, (f', v'))
      → contents w ≡ written v' ++ rest
      → length (written v') < fuel
      → (w' : World) × (ok ≡ true)
        × (deserialize_from reader allocate fuel g w ≡ done (restored f g) w')
        × (contents w' ≡ rest)
  deserialize_from-serialize_to allocate fuel f f' g rest w v v' ok h bounds there empty e e_w
        enough =
      let (v'', e', e_written) = serialize_to-layout writer written takes f v h in
      let same = some-equal (sym e' ∙ e) in
      let message : written v' ≡ layout f ++ f.data_container =
        ap (λ r. written r.1.1) (sym same)
        ∙ e_written
        ∙ ap (λ l. l ++ (layout f ++ f.data_container)) empty in
      let (w', e_read, e_rest) =
        deserialize_from-layout reader contents gives allocate fuel f g rest w bounds there
          (e_w ∙ ap (λ l. l ++ rest) message ∙ append_assoc (layout f) f.data_container rest)
          (omega (arith, enough, ap length message, length-append (layout f) f.data_container)) in
      (w', sym (ap (λ r. r.0) same), e_read, e_rest)
