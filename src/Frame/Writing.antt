-- ===== src/Frame/Writing.antt =====
-- V4LFrame.cpp: what is written for a frame.
use new_cpp.Prelude.{
  ℕ, ◌+◌, ◌≡◌, refl, ap, ◌∙◌, true, some, List, ◌++◌, append_assoc, length, arith, ◌==◌,
}
use new_cpp.Converter.Bytes.{}
use new_cpp.Frame.{V4LFrame, Writer, serialize_to, sum_is}
use new_cpp.Frame.Layout.{IsPrepared, layout}
use new_cpp.Frame.Header.{update_header-layout}
use new_cpp.Frame.Reading.{}
use new_cpp.Frame.Pieces.{}
use new_cpp.Frame.Fetching.{}
use new_cpp.Frame.Fields.{}

-- What a stream takes: all bytes that it is given, behind those that it has.
abbrev pub Takes : (writer : Writer) → (writer.World → List ℕ) → List ℕ → writer.World → Type 0
Takes writer written bs v =
    (v_1 : writer.World) × (writer.write bs v ≡ (some (length bs), v_1))
    × (written v_1 ≡ written v ++ bs)

module _ (writer : Writer) (written : writer.World → List ℕ)
    (takes : (bs : List ℕ) (v : writer.World) → Takes writer written bs v) where
  -- A frame whose name was set is written as its header, with the current values of its fields, and
  -- its data, on a stream that takes all bytes; and `SerializeTo` returns true.
  pub serialize_to-layout :
      (f : V4LFrame) (v : writer.World)
      → IsPrepared f
      → (v' : writer.World) × (serialize_to writer f v
          ≡ some (true, (record f { header = layout f }, v')))
        × (written v' ≡ written v ++ (layout f ++ f.data_container))
  unfolding serialize_to sum_is
  serialize_to-layout f v h =
      let (v_1, e_1, w_1) = takes (layout f) v in
      let (v_2, e_2, w_2) = takes f.data_container v_1 in
      let n = length (layout f) in
      let m = length f.data_container in
      let equal : (n + m == m + n) ≡ true = ground arith in
      let sum : sum_is (some n) (some m) (m + n) ≡ true = equal in
      (
        v_2,
        rw (serialize_to, update_header-layout f h, e_1, e_2, sum) refl,
        w_2
            ∙ ap (λ l. l ++ f.data_container) w_1
            ∙ append_assoc (written v) (layout f) f.data_container,
      )
