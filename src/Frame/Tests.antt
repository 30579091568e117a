-- ===== src/Frame/Tests.antt =====
-- The example, and streams that give at most three bytes at once.
use new_cpp.Prelude.{
  ℕ, zero, suc, ◌≤◌, ◌<◌, min, ◌≡◌, refl, sym, ap, ◌∙◌, inl, Bool, true, some, List, [], ◌∷◌, ◌++◌,
  append_assoc, length, take, drop, length-append, take-append-drop, arith,
}
use new_cpp.Converter.{get_padded_size}
use new_cpp.Converter.Bytes.{u32_bytes, u64_bytes}
use new_cpp.Frame.{new_frame, video_offset_of, Writer, serialize_to}
use new_cpp.Frame.Layout.{layout}
use new_cpp.Frame.Reading.{Reader, done, stuck, resize_to, deserialize_from, async_deserialize_from}
use new_cpp.Frame.Example.{frame, frame-IsPrepared, frame-IsInRange}
use new_cpp.Frame.Pieces.{Gives}
use new_cpp.Frame.Fields.{}
use new_cpp.Frame.Writing.{Takes, serialize_to-layout}
use new_cpp.Frame.RoundTrip.{restored, deserialize_from-serialize_to}
use new_cpp.Frame.Truncated.{deserialize_from-truncated}
use new_cpp.Frame.Pending.{IsReading, in_sizes, Advances}
use new_cpp.Frame.Async.{async_deserialize_from-Advances}

abbrev threes : Reader
threes = record { World = List ℕ; read = λ n w. (some (take (min n 3) w), drop (min n 3) w) }

abbrev bytes_of : List ℕ → List ℕ
bytes_of w = w

length-take_le : (n : ℕ) (xs : List ℕ) → length (take n xs) ≤ n
length-take_le zero xs = omega arith
length-take_le (suc n) [] = omega arith
length-take_le (suc n) (x ∷ xs) = omega (arith, length-take_le n xs)

take_some : (n : ℕ) (xs : List ℕ) → 0 < n → 0 < length xs → 0 < length (take n xs)
take_some zero xs h l = absurd (omega arith)
take_some (suc n) [] h l = absurd (omega arith)
take_some (suc n) (x ∷ xs) h l = omega arith

threes-Gives : (n : ℕ) (w : List ℕ) → Gives threes bytes_of n w
threes-Gives n w = (
  take (min n 3) w,
  drop (min n 3) w,
  refl,
  sym (take-append-drop (min n 3) w),
  omega (arith, length-take_le (min n 3) w),
  (λ asked there. take_some (min n 3) w (omega arith) there),
)

abbrev log : Writer
log = record { World = List ℕ; write = λ bs v. (some (length bs), v ++ bs) }

log-Takes : (bs v : List ℕ) → Takes log bytes_of bs v
log-Takes bs v = (v ++ bs, refl, refl)

serialize_to-layout_example :
    (v' : List ℕ) × (serialize_to log frame []
      ≡ some (true, (record frame { header = layout frame }, v')))
    × (v' ≡ layout frame ++ (7 ∷ 8 ∷ []))
unfolding new_frame
serialize_to-layout_example = serialize_to-layout log bytes_of log-Takes frame [] frame-IsPrepared

abbrev always : ℕ → Bool
always n = true

message_size : length (layout frame ++ frame.data_container) < 100
unfolding video_offset_of get_padded_size new_frame u32_bytes u64_bytes
message_size = omega arith

serialize_frame :
    serialize_to log frame []
    ≡ some (true, (record frame { header = layout frame }, layout frame ++ frame.data_container))
serialize_frame =
    let (v', e, e_v) = serialize_to-layout log bytes_of log-Takes frame [] frame-IsPrepared in
    e ∙ ap (λ v. some (true, (record frame { header = layout frame }, v))) e_v

deserialize_from-serialize_to_example :
    (w' : List ℕ) × (true ≡ true)
    × (deserialize_from threes always 100 new_frame
          ((layout frame ++ frame.data_container) ++ (5 ∷ []))
        ≡ done (restored frame new_frame) w')
    × (w' ≡ 5 ∷ [])
deserialize_from-serialize_to_example =
    deserialize_from-serialize_to threes bytes_of threes-Gives log bytes_of log-Takes always 100
      frame (record frame { header = layout frame }) new_frame (5 ∷ [])
      ((layout frame ++ frame.data_container) ++ (5 ∷ [])) [] (layout frame ++ frame.data_container)
      true frame-IsPrepared frame-IsInRange refl refl serialize_frame refl message_size

deserialize_from-truncated_example :
    deserialize_from threes always 100 new_frame (layout frame ++ (7 ∷ [])) ≡ stuck
deserialize_from-truncated_example =
    deserialize_from-truncated threes bytes_of threes-Gives always 100 frame new_frame
      (layout frame ++ (7 ∷ [])) (8 ∷ []) (layout frame ++ (7 ∷ [])) frame-IsInRange refl refl
      (unfold new_frame in append_assoc (layout frame) (7 ∷ []) (8 ∷ [])) (omega arith)
      (omega (
        arith,
        message_size,
        length-append (layout frame) frame.data_container,
        length-append (layout frame) (7 ∷ []),
      ))

new_frame-IsReading : IsReading frame [] new_frame
unfolding new_frame resize_to
new_frame-IsReading = in_sizes (0 ∷ 0 ∷ 0 ∷ 0 ∷ 0 ∷ 0 ∷ 0 ∷ 0 ∷ []) refl refl refl

async_deserialize_from-Advances_example :
    Advances threes bytes_of frame
      ([] ++ layout frame)
      frame.data_container
      []
      (async_deserialize_from threes always 100 new_frame (layout frame ++ []))
async_deserialize_from-Advances_example =
    async_deserialize_from-Advances threes bytes_of threes-Gives always 100 frame new_frame []
      (layout frame) frame.data_container [] (layout frame ++ []) frame-IsInRange refl
      new_frame-IsReading refl refl (inl refl)
      (omega (arith, message_size, length-append (layout frame) frame.data_container))
