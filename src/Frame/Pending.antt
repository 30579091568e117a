-- ===== src/Frame/Pending.antt =====
-- V4LFrame.cpp: a frame that has read some bytes, and what a call with more of them may do.
use new_cpp.Prelude.{
  ℕ, ◌+◌, ◌-◌, ◌<◌, ◌≡◌, sym, ap, subst, ◌∙◌, ◌⊎◌, inl, inr, List, [], ◌++◌, append_assoc,
  append-nil, length, length-append, arith, leb, Bool-cases,
}
use new_cpp.Converter.Bytes.{}
use new_cpp.Frame.{V4LFrame, if_header, v4l_header, v4l_body, deserialized, video_offset_of}
use new_cpp.Frame.Layout.{layout, short_name}
use new_cpp.Frame.Reading.{
  Reader, Fetched, full, failed, Outcome, done, refused, fillup_buffer, resize_to,
}
use new_cpp.Frame.Pieces.{Gives, split_prefix, split_length}
use new_cpp.Frame.Filling.{fillup_buffer-full, fillup_buffer-part}
use new_cpp.Frame.Fields.{}

-- A frame while its data come in, and when they are there.
abbrev pub with_part : V4LFrame → List ℕ → ℕ → V4LFrame
with_part f bytes n = record f {
  data_container = bytes;
  name = short_name f.name;
  header = layout f;
  video_offset = video_offset_of f.name;
  state = v4l_body;
  accumulated = n;
}

abbrev pub finished : V4LFrame → V4LFrame
finished f = record f {
  name = short_name f.name;
  header = layout f;
  video_offset = video_offset_of f.name;
  state = deserialized;
  accumulated = length f.data_container;
}

-- The second frame has read these bytes of the first.
pub data IsReading (f : V4LFrame) (seen : List ℕ) (g : V4LFrame) : Type 0 where
  in_sizes :
      (junk : List ℕ)
      → g.state ≡ if_header
      → resize_to 8 g.header ≡ seen ++ junk
      → g.accumulated ≡ length seen
      → IsReading f seen g
  in_fields :
      (junk : List ℕ)
      → g.state ≡ v4l_header
      → g.header ≡ seen ++ junk
      → g.accumulated ≡ length seen
      → length seen + length junk ≡ video_offset_of f.name + 16
      → g.video_offset ≡ video_offset_of f.name
      → length g.data_container ≡ length f.data_container
      → IsReading f seen g
  in_body :
      (got junk : List ℕ)
      → seen ≡ layout f ++ got
      → g ≡ with_part f (got ++ junk) (length got)
      → length got + length junk ≡ length f.data_container
      → IsReading f seen g

module _ (reader : Reader) (contents : reader.World → List ℕ) where
  open reader use {World}

  -- How a call ends when the stream has some bytes of a frame and a rest: if none come later, with
  -- the frame; else it returns false and has taken all bytes.
  abbrev pub Advances : V4LFrame → List ℕ → List ℕ → List ℕ → Outcome World → Type 0
  Advances f seen later rest o =
      (w' : World) × (contents w' ≡ rest)
      × (((later ≡ []) × (o ≡ done (finished f) w'))
          ⊎ ((0 < length later) × ((g' : V4LFrame) × (o ≡ refused g' w') × IsReading f seen g')))

  -- Filling a buffer with the bytes that a part of the frame needs: they are there, or they come later.
  abbrev pub Fills : List ℕ → List ℕ → List ℕ → List ℕ → List ℕ → List ℕ → Fetched World → Type 0
  Fills got need after bs later rest r =
      ((bs' : List ℕ) × (w' : World) × (bs ≡ need ++ bs')
        × (r ≡ full (got ++ need) w')
        × (contents w' ≡ bs' ++ rest)
        × (bs' ++ later ≡ after))
      ⊎ ((junk : List ℕ) × (w' : World) × (r ≡ failed ((got ++ bs) ++ junk) (length (got ++ bs)) w')
          × (contents w' ≡ rest)
          × (0 < length later)
          × (length bs + length junk ≡ length need))

  pub by_run :
      (f : V4LFrame) (seen later rest : List ℕ) (o o' : Outcome World)
      → o ≡ o'
      → Advances f seen later rest o'
      → Advances f seen later rest o
  by_run f seen later rest o o' e a = subst (Advances f seen later rest) (sym e) a

-- The bytes of a frame that were read, when a part of it is complete.
pub seen_after :
    (part got need bs bs' : List ℕ)
    → part ≡ got ++ need
    → bs ≡ need ++ bs'
    → got ++ bs ≡ part ++ bs'
seen_after part got need bs bs' e e_bs =
    ap (λ l. got ++ l) e_bs ∙ sym (append_assoc got need bs') ∙ ap (λ l. l ++ bs') (sym e)

module _ (reader : Reader) (contents : reader.World → List ℕ)
    (gives : (n : ℕ) (w : reader.World) → Gives reader contents n w) where
  open reader use {World}

  pub fillup_buffer-Fills :
      (fuel : ℕ) (got junk need after bs later rest : List ℕ) (w : World)
      → contents w ≡ bs ++ rest
      → (rest ≡ []) ⊎ (later ≡ [])
      → bs ++ later ≡ need ++ after
      → length junk ≡ length need
      → length bs < fuel
      → Fills reader contents got need after bs later rest
          (fillup_buffer reader fuel (got ++ junk) (length got) w)
  fillup_buffer-Fills fuel got junk need after bs later rest w e last parts same enough =
      elim (Bool-cases (leb (length need) (length bs))) [
        | inl t ↦
            let (bs', e_bs, e_after) =
              split_prefix bs need later after (sym parts) (ground arith) in
            let (w', e', e_rest) =
              fillup_buffer-full reader contents gives fuel got need junk (bs' ++ rest) w
                (e ∙ ap (λ l. l ++ rest) e_bs ∙ append_assoc need bs' rest) same (ground arith) in
            inl (bs', w', e_bs, e', e_rest, sym e_after)
        | inr t ↦
            let short : length bs < length need = ground arith in
            let (j_1, j_2, e_junk, l_1, l_2) =
              split_length (length bs) (length need - length bs) junk (omega (arith, same)) in
            let more : 0 < length later =
              omega (arith, ap length parts, length-append bs later, length-append need after) in
            let nothing : rest ≡ [] = elim last [
              | inl n ↦ n
              | inr n ↦ absurd (omega (arith, ap length n))
            ] in
            let (w', e', e_rest) =
              fillup_buffer-part reader contents gives fuel got bs j_1 j_2 w
                (e ∙ ap (λ l. bs ++ l) nothing ∙ append-nil bs) l_1 (omega arith) enough in
            inr (
              j_2,
              w',
              ap (λ l. fillup_buffer reader fuel (got ++ l) (length got) w) e_junk ∙ e',
              e_rest ∙ sym nothing,
              more,
              omega arith,
            )
      ]
