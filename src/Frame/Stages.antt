-- ===== src/Frame/Stages.antt =====
-- V4LFrame.cpp: the turns of `AsyncDeserializeFrom` behind the first eight bytes.
use new_cpp.Prelude.{
  ℕ, ◌+◌, ◌<◌, ◌≡◌, refl, sym, ap, subst, ◌∙◌, ◌⊎◌, inl, inr, List, [], ◌++◌, append_assoc,
  append-nil, length, length-append, length-eq-zero, arith,
}
use new_cpp.Converter.Bytes.{}
use new_cpp.Frame.{V4LFrame, v4l_header, video_offset_of}
use new_cpp.Frame.Layout.{layout}
use new_cpp.Frame.Header.{length-layout}
use new_cpp.Frame.Reading.{Reader, full, fillup_buffer, continue_body, continue_fields}
use new_cpp.Frame.Pieces.{Gives}
use new_cpp.Frame.Filling.{}
use new_cpp.Frame.Fields.{IsInRange, parse_fields-layout}
use new_cpp.Frame.Pending.{
  in_fields, in_body, Advances, fillup_buffer-Fills, with_part, by_run, seen_after,
}

module _ (reader : Reader) (contents : reader.World → List ℕ)
    (gives : (n : ℕ) (w : reader.World) → Gives reader contents n w) where
  open reader use {World}

  pub body-Advances :
      (fuel : ℕ) (f : V4LFrame) (got junk old bs later rest : List ℕ) (n : ℕ) (w : World)
      → contents w ≡ bs ++ rest
      → (rest ≡ []) ⊎ (later ≡ [])
      → got ++ (bs ++ later) ≡ f.data_container
      → length got + length junk ≡ length f.data_container
      → length bs < fuel
      → Advances reader contents f ((layout f ++ got) ++ bs) later rest (
          continue_body
            (with_part f old n)
            (fillup_buffer reader fuel (got ++ junk) (length got) w))
  unfolding continue_body
  body-Advances fuel f got junk old bs later rest n w e last whole size enough =
      let fills =
        fillup_buffer-Fills reader contents gives fuel got junk (bs ++ later) [] bs later rest w e
          last (sym (append-nil (bs ++ later)))
          (omega (arith, ap length whole, length-append got (bs ++ later), size)) enough in
      elim fills [
        | inl (bs', w', e_bs, e', e_rest, e_after) ↦
            let no_more : length bs' + length later ≡ 0 =
              sym (length-append bs' later) ∙ ap length e_after in
            (
              w',
              e_rest ∙ ap (λ l. l ++ rest) (length-eq-zero bs' (omega (arith, no_more))),
              inl (
                length-eq-zero later (omega (arith, no_more)),
                ap (continue_body (with_part f old n)) (e' ∙ ap (λ l. full l w') whole),
              ),
            )
        | inr (junk', w', e', e_rest, more, l) ↦ (
          w',
          e_rest,
          inr (
            more,
            (
              with_part f ((got ++ bs) ++ junk') (length (got ++ bs)),
              ap (continue_body (with_part f old n)) e',
              in_body (got ++ bs) junk' (append_assoc (layout f) got bs) refl (
                  omega (
                    arith,
                    l,
                    ap length whole,
                    length-append got (bs ++ later),
                    length-append got bs,
                  )),
            ),
          ),
        )
      ]

  pub fields-Advances :
      (fuel : ℕ) (f g : V4LFrame) (got junk need bs later rest : List ℕ) (w : World)
      → IsInRange f
      → g.state ≡ v4l_header
      → g.video_offset ≡ video_offset_of f.name
      → length g.data_container ≡ length f.data_container
      → layout f ≡ got ++ need
      → bs ++ later ≡ need ++ f.data_container
      → length junk ≡ length need
      → contents w ≡ bs ++ rest
      → (rest ≡ []) ⊎ (later ≡ [])
      → length bs < fuel
      → Advances reader contents f
          (got ++ bs)
          later
          rest
          (continue_fields reader fuel g (fillup_buffer reader fuel (got ++ junk) (length got) w))
  unfolding continue_fields
  fields-Advances fuel f g got junk need bs later rest w bounds here offset size part parts same e
        last enough =
      let fills =
        fillup_buffer-Fills reader contents gives fuel got junk need f.data_container bs later rest
          w e last parts same enough in
      elim fills [
        | inl (bs', w', e_bs, e', e_rest, e_after) ↦
            let h = record g { header = layout f } in
            let fields = parse_fields-layout f h bounds refl offset in
            let run : continue_fields reader fuel g (full (layout f) w')
                ≡ continue_body (with_part f g.data_container 0)
                    (fillup_buffer reader fuel g.data_container 0 w') =
              rw (continue_fields, fields, offset) refl in
            let whole =
              ap (continue_fields reader fuel g) (e' ∙ ap (λ l. full l w') (sym part)) ∙ run in
            let body =
              body-Advances fuel f [] g.data_container g.data_container bs' later rest 0 w' e_rest
                last e_after (omega (arith, size))
                (omega (arith, enough, ap length e_bs, length-append need bs')) in
            let seen : (layout f ++ []) ++ bs' ≡ got ++ bs =
              ap (λ l. l ++ bs') (append-nil (layout f))
              ∙ sym (seen_after (layout f) got need bs bs' part e_bs) in
            by_run reader contents f (got ++ bs) later rest _ _ whole (
              subst
                (λ s. Advances reader contents f s later rest (
                  continue_body (with_part f g.data_container 0)
                    (fillup_buffer reader fuel g.data_container 0 w')))
                seen body)
        | inr (junk', w', e', e_rest, more, l) ↦ (
          w',
          e_rest,
          inr (
            more,
            (
              record g { header = (got ++ bs) ++ junk'; accumulated = length (got ++ bs) },
              ap (continue_fields reader fuel g) e',
              in_fields junk' here refl refl
                  (omega (
                    arith,
                    l,
                    ap length part,
                    length-append got need,
                    length-append got bs,
                    length-layout f,
                  ))
                  offset size,
            ),
          ),
        )
      ]
