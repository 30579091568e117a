-- ===== src/Frame/Truncated.antt =====
-- V4LFrame.cpp: `DeserializeFrom` on a stream that ends within a frame.
use new_cpp.Prelude.{
  ℕ, ◌+◌, ◌-◌, ◌<◌, ◌≡◌, refl, sym, ap, ◌∙◌, Bool, true, List, [], ◌++◌, append_assoc, length,
  length-append, arith, leb, Bool-cases, inl, inr,
}
use new_cpp.Converter.Bytes.{u32_bytes}
use new_cpp.Frame.{V4LFrame, zeros, video_offset_of}
use new_cpp.Frame.Layout.{layout, length-zeros}
use new_cpp.Frame.Reading.{
  Reader, full, stuck, read_body, read_fields, read_header, deserialize_from, resize_to,
}
use new_cpp.Frame.Pieces.{Gives, split_prefix}
use new_cpp.Frame.Writing.{}
use new_cpp.Frame.Fetching.{read_loop-full, read_loop-starves}
use new_cpp.Frame.Fields.{
  IsInRange, sizes, tail, sizes-tail, length-resize_to, length-tail, prepared, parse_fields-layout,
}
use new_cpp.Frame.RoundTrip.{read_header-prepared}

module _ (reader : Reader) (contents : reader.World → List ℕ)
    (gives : (n : ℕ) (w : reader.World) → Gives reader contents n w) where
  open reader use {World}

  fields_starve :
      (fuel : ℕ) (f g : V4LFrame) (bs later : List ℕ) (w : World)
      → IsInRange f
      → g.video_offset ≡ video_offset_of f.name
      → length g.data_container ≡ length f.data_container
      → contents w ≡ bs
      → bs ++ later ≡ f.data_container
      → 0 < length later
      → read_fields reader fuel g (full (layout f) w) ≡ stuck
  unfolding read_fields
  fields_starve fuel f g bs later w bounds offset size e whole more =
      let fields = parse_fields-layout f (record g { header = layout f }) bounds refl offset in
      let loop =
        read_loop-starves reader contents gives fuel [] g.data_container bs w e
          (omega (arith, ap length whole, length-append bs later, size)) in
      rw (read_fields, fields, loop) (unfold read_body in refl)

  header_starves :
      (allocate : ℕ → Bool) (fuel : ℕ) (f g : V4LFrame) (bs later : List ℕ) (w : World)
      → IsInRange f
      → allocate (length f.data_container) ≡ true
      → contents w ≡ bs
      → bs ++ later ≡ tail f ++ f.data_container
      → 0 < length later
      → length bs < fuel
      → read_header reader allocate fuel g (full (sizes f) w) ≡ stuck
  unfolding u32_bytes
  header_starves allocate fuel f g bs later w bounds there e whole more enough =
      let k = video_offset_of f.name + 16 - 8 in
      let start = read_header-prepared reader contents gives allocate fuel f g w bounds there in
      elim (Bool-cases (leb (length (tail f)) (length bs))) [
        | inl t ↦
            let (bs', e_bs, e_data) =
              split_prefix bs (tail f) later f.data_container (sym whole) (ground arith) in
            let (w_1, e_1, c_1) =
              read_loop-full reader contents gives fuel (sizes f) (tail f) (zeros k) bs' w
                (e ∙ e_bs) (length-zeros k ∙ sym (length-tail f)) (ground arith) in
            start
            ∙ ap (read_fields reader fuel (prepared f g))
                (e_1 ∙ ap (λ l. full l w_1) (sym (sizes-tail f)))
            ∙ fields_starve fuel f (prepared f g) bs' later w_1 bounds (omega arith)
                (length-zeros (length f.data_container)) c_1 (sym e_data) more
        | inr t ↦
            start
            ∙ ap (read_fields reader fuel (prepared f g)) (
                read_loop-starves reader contents gives fuel (sizes f) (zeros k) bs w e
                  (ground (arith, length-zeros k, length-tail f)))
            ∙ (unfold read_fields in refl)
      ]

  -- A frame in the range of its types, whose data can be allocated, and a stream that ends within
  -- it and whose `Read` then gives 0, as that of a file does: `DeserializeFrom` never returns. For
  -- every fuel above the number of bytes in the stream it runs out of it.
  pub deserialize_from-truncated :
      (allocate : ℕ → Bool) (fuel : ℕ) (f g : V4LFrame) (bs later : List ℕ) (w : World)
      → IsInRange f
      → allocate (length f.data_container) ≡ true
      → contents w ≡ bs
      → bs ++ later ≡ layout f ++ f.data_container
      → 0 < length later
      → length bs < fuel
      → deserialize_from reader allocate fuel g w ≡ stuck
  unfolding deserialize_from u32_bytes
  deserialize_from-truncated allocate fuel f g bs later w bounds there e whole more enough =
      let parts : bs ++ later ≡ sizes f ++ (tail f ++ f.data_container) =
        whole
        ∙ ap (λ l. l ++ f.data_container) (sizes-tail f)
        ∙ append_assoc (sizes f) (tail f) f.data_container in
      elim (Bool-cases (leb 8 (length bs))) [
        | inl t ↦
            let (bs', e_bs, e_rest) =
              split_prefix bs (sizes f) later (tail f ++ f.data_container) (sym parts)
                (ground arith) in
            let (w_1, e_1, c_1) =
              read_loop-full reader contents gives fuel [] (sizes f) (resize_to 8 g.header) bs' w
                (e ∙ e_bs) (length-resize_to 8 g.header) (ground arith) in
            ap (read_header reader allocate fuel g) e_1
            ∙ header_starves allocate fuel f g bs' later w_1 bounds there c_1 (sym e_rest) more
                (omega (arith, enough, ap length e_bs, length-append (sizes f) bs'))
        | inr t ↦
            ap (read_header reader allocate fuel g) (
              read_loop-starves reader contents gives fuel [] (resize_to 8 g.header) bs w e
                (ground (arith, length-resize_to 8 g.header)))
            ∙ (unfold read_header in refl)
      ]
