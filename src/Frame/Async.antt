-- ===== src/Frame/Async.antt =====
-- V4LFrame.cpp: a frame that is read as its bytes come in.
use new_cpp.Prelude.{
  ℕ, ◌+◌, ◌-◌, ◌<◌, ◌≡◌, refl, sym, ap, subst, ◌∙◌, ◌⊎◌, inl, inr, Bool, true, List, [], ◌++◌,
  append_assoc, length, length-append, drop, drop-length, arith,
}
use new_cpp.Converter.Bytes.{u32_bytes}
use new_cpp.Frame.{V4LFrame, if_header, v4l_header, zeros, video_offset_of}
use new_cpp.Frame.Layout.{layout, length-zeros}
use new_cpp.Frame.Header.{length-layout}
use new_cpp.Frame.Reading.{
  Reader, full, fillup_buffer, continue_fields, continue_header, async_deserialize_from,
}
use new_cpp.Frame.Pieces.{Gives, split_prefix}
use new_cpp.Frame.Filling.{}
use new_cpp.Frame.Fields.{
  IsInRange, length-resize_to, length-tail, prepared, set_sizes-prepared, resize_to-same, sizes,
  tail, sizes-tail, header_sizes-sizes, data_size-layout,
}
use new_cpp.Frame.Pending.{
  IsReading, in_sizes, in_fields, in_body, Advances, fillup_buffer-Fills, by_run, seen_after,
}
use new_cpp.Frame.Stages.{body-Advances, fields-Advances}

module _ (reader : Reader) (contents : reader.World → List ℕ)
    (gives : (n : ℕ) (w : reader.World) → Gives reader contents n w) where
  open reader use {World}

  continue_header-prepared :
      (allocate : ℕ → Bool) (fuel : ℕ) (f g : V4LFrame) (w : World)
      → IsInRange f
      → allocate (length f.data_container) ≡ true
      → let h = prepared f g in
        let next = record h { state = v4l_header; accumulated = 8 } in
        continue_header reader allocate fuel g (full (sizes f) w)
        ≡ continue_fields reader fuel next (fillup_buffer reader fuel next.header 8 w)
  unfolding continue_header u32_bytes
  continue_header-prepared allocate fuel f g w bounds there =
      rw
        (
          continue_header,
          header_sizes-sizes f,
          data_size-layout f bounds,
          there,
          set_sizes-prepared f g bounds,
        )
        refl

  sizes-Advances :
      (allocate : ℕ → Bool) (fuel : ℕ) (f g : V4LFrame) (got junk need bs later rest : List ℕ)
      (w : World)
      → IsInRange f
      → allocate (length f.data_container) ≡ true
      → g.state ≡ if_header
      → sizes f ≡ got ++ need
      → bs ++ later ≡ need ++ (tail f ++ f.data_container)
      → length junk ≡ length need
      → contents w ≡ bs ++ rest
      → (rest ≡ []) ⊎ (later ≡ [])
      → length bs < fuel
      → Advances reader contents f (got ++ bs) later rest (
          continue_header reader allocate fuel g
            (fillup_buffer reader fuel (got ++ junk) (length got) w))
  unfolding continue_header u32_bytes
  sizes-Advances allocate fuel f g got junk need bs later rest w bounds there here part parts same e
        last enough =
      let fills =
        fillup_buffer-Fills reader contents gives fuel got junk need (tail f ++ f.data_container) bs
          later rest w e last parts same enough in
      elim fills [
        | inl (bs', w', e_bs, e', e_rest, e_after) ↦
            let h = prepared f g in
            let k = video_offset_of f.name + 16 - 8 in
            let whole =
              ap (continue_header reader allocate fuel g) (e' ∙ ap (λ l. full l w') (sym part))
              ∙ continue_header-prepared allocate fuel f g w' bounds there in
            let fields =
              fields-Advances reader contents gives fuel f
                (record h { state = v4l_header; accumulated = 8 }) (sizes f) (zeros k) (tail f) bs'
                later rest w' bounds refl (omega arith) (length-zeros (length f.data_container))
                (sizes-tail f) e_after (length-zeros k ∙ sym (length-tail f)) e_rest last
                (omega (arith, enough, ap length e_bs, length-append need bs')) in
            subst
              (λ s. Advances reader contents f s later rest (
                continue_header reader allocate fuel g
                  (fillup_buffer reader fuel (got ++ junk) (length got) w)))
              (sym (seen_after (sizes f) got need bs bs' part e_bs))
              (by_run reader contents f (sizes f ++ bs') later rest _ _ whole fields)
        | inr (junk', w', e', e_rest, more, l) ↦ (
          w',
          e_rest,
          inr (
            more,
            (
              record g { header = (got ++ bs) ++ junk'; accumulated = length (got ++ bs) },
              ap (continue_header reader allocate fuel g) e',
              in_sizes junk' here
                  (resize_to-same 8 ((got ++ bs) ++ junk') (
                    omega (
                      arith,
                      l,
                      ap length part,
                      length-append got need,
                      length-append got bs,
                      length-append (got ++ bs) junk',
                    )))
                  refl,
            ),
          ),
        )
      ]

  -- A frame that has read the first bytes of another one, in range, whose data can be allocated, and
  -- a stream that gives the next bytes in pieces of any size, and a rest only if they are the last:
  -- `AsyncDeserializeFrom` ends. If no bytes of the frame come later, it returns true with all of
  -- its fields and data, and leaves the rest; if some do, it returns false, and has read all bytes
  -- that were there, so that the next call goes on behind them.
  pub async_deserialize_from-Advances :
      (allocate : ℕ → Bool) (fuel : ℕ) (f g : V4LFrame) (seen bs later rest : List ℕ) (w : World)
      → IsInRange f
      → allocate (length f.data_container) ≡ true
      → IsReading f seen g
      → seen ++ (bs ++ later) ≡ layout f ++ f.data_container
      → contents w ≡ bs ++ rest
      → (rest ≡ []) ⊎ (later ≡ [])
      → length bs < fuel
      → Advances reader contents f
          (seen ++ bs)
          later
          rest
          (async_deserialize_from reader allocate fuel g w)
  unfolding async_deserialize_from u32_bytes
  async_deserialize_from-Advances allocate fuel f g seen bs later rest w bounds there
        (in_sizes junk here buffer place) whole e last enough =
      let parts : seen ++ (bs ++ later) ≡ sizes f ++ (tail f ++ f.data_container) =
        whole
        ∙ ap (λ l. l ++ f.data_container) (sizes-tail f)
        ∙ append_assoc (sizes f) (tail f) f.data_container in
      let eight : 8 ≡ length seen + length junk =
        sym (length-resize_to 8 g.header) ∙ ap length buffer ∙ length-append seen junk in
      let (need, e_need, e_later) =
        split_prefix (sizes f) seen (tail f ++ f.data_container) (bs ++ later) parts
          (omega (arith, eight)) in
      let run : async_deserialize_from reader allocate fuel g w
          ≡ continue_header reader allocate fuel g
              (fillup_buffer reader fuel (seen ++ junk) (length seen) w) =
        rw (here, buffer, place) refl in
      let stage =
        sizes-Advances allocate fuel f g seen junk need bs later rest w bounds there here e_need
          e_later (omega (arith, eight, ap length e_need, length-append seen need)) e last enough in
      by_run reader contents f (seen ++ bs) later rest _ _ run stage
  async_deserialize_from-Advances allocate fuel f g seen bs later rest w bounds there
        (in_fields junk here buffer place size offset n) whole e last enough =
      let (need, e_need, e_later) =
        split_prefix (layout f) seen f.data_container (bs ++ later) whole
          (omega (arith, size, length-layout f)) in
      let run : async_deserialize_from reader allocate fuel g w
          ≡ continue_fields reader fuel g
              (fillup_buffer reader fuel (seen ++ junk) (length seen) w) =
        rw (here, buffer, place) refl in
      let stage =
        fields-Advances reader contents gives fuel f g seen junk need bs later rest w bounds here
          offset n e_need e_later
          (omega (arith, size, ap length e_need, length-append seen need, length-layout f)) e last
          enough in
      by_run reader contents f (seen ++ bs) later rest _ _ run stage
  async_deserialize_from-Advances allocate fuel f g seen bs later rest w bounds there
        (in_body got junk e_seen e_g size) whole e last enough =
      let joined : layout f ++ (got ++ (bs ++ later)) ≡ layout f ++ f.data_container =
        sym (append_assoc (layout f) got (bs ++ later))
        ∙ ap (λ l. l ++ (bs ++ later)) (sym e_seen)
        ∙ whole in
      let left : got ++ (bs ++ later) ≡ f.data_container =
        sym (drop-length (layout f) (got ++ (bs ++ later)))
        ∙ ap (drop (length (layout f))) joined
        ∙ drop-length (layout f) f.data_container in
      let stage =
        body-Advances reader contents gives fuel f got junk (got ++ junk) bs later rest (length got)
          w e last left size enough in
      let run = ap (λ k. async_deserialize_from reader allocate fuel k w) e_g in
      subst
        (λ s.
          Advances reader contents f (s ++ bs) later rest
            (async_deserialize_from reader allocate fuel g w))
        (sym e_seen) (by_run reader contents f ((layout f ++ got) ++ bs) later rest _ _ run stage)
