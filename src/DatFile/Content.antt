-- ===== src/DatFile/Content.antt =====
-- DatFileWriter.cpp: what the files have after frames were saved.
use new_cpp.Prelude.{
  ℕ, ◌+◌, ◌≡◌, refl, sym, ap, ap₂, subst, ◌∙◌, inl, inr, true, List, [], ◌∷◌, ◌++◌, append_assoc,
  append-nil, length, ◌==◌, Bool-cases, if◌then◌else◌,
}
use new_cpp.DatFile.{
  OutStream, write_out, flush, DatFileWriter, word, save_meta_data, write_data_file,
}

-- All bytes that were written to a stream.
abbrev pub content : OutStream → List ℕ
content s = s.disk ++ s.pending

abbrev pub joined : List (List ℕ) → List ℕ
joined [] = []
joined (p ∷ ps) = p ++ joined ps

-- A frame with its timestamp, in the pieces that are written.
abbrev pub Frame : Type 0
Frame = ℕ × List (List ℕ)

abbrev pub write_pieces : List (List ℕ) → DatFileWriter → DatFileWriter
write_pieces [] w = w
write_pieces (p ∷ ps) w = write_pieces ps (write_data_file p w).1

-- How a frame is saved, and several of them.
abbrev pub save_frames : List Frame → DatFileWriter → DatFileWriter
save_frames [] w = w
save_frames ((timestamp, ps) ∷ fs) w =
    save_frames fs (write_pieces ps (save_meta_data timestamp (length (joined ps)) w))

abbrev pub raw_bytes : List Frame → List ℕ
raw_bytes [] = []
raw_bytes ((timestamp, ps) ∷ fs) = joined ps ++ raw_bytes fs

abbrev pub index_bytes : ℕ → List Frame → List ℕ
index_bytes offset [] = []
index_bytes offset ((timestamp, ps) ∷ fs) =
    word timestamp ++ (word offset ++ index_bytes (offset + length (joined ps)) fs)

-- The second writer has written some bytes more to its two files than the first.
pub record HasWritten (raw index : List ℕ) (w w' : DatFileWriter) : Type 0 where
  pub still_open : w'.files_opened ≡ true
  pub raw_content : content w'.raw_data_stream ≡ content w.raw_data_stream ++ raw
  pub index_content : content w'.indicies_stream ≡ content w.indicies_stream ++ index

content-flush : (s : OutStream) → content (flush s) ≡ content s
unfolding flush
content-flush s = append-nil (s.disk ++ s.pending)

content-write_out : (bs : List ℕ) (s : OutStream) → content (write_out bs s) ≡ content s ++ bs
unfolding write_out
content-write_out bs s = sym (append_assoc s.disk s.pending bs)

pub write_data_file-HasWritten :
    (bs : List ℕ) (w : DatFileWriter)
    → w.files_opened ≡ true
    → HasWritten bs [] w (write_data_file bs w).1
      × ((write_data_file bs w).1.raw_data_stream_size ≡ w.raw_data_stream_size)
unfolding write_data_file
write_data_file-HasWritten bs w h = elim (Bool-cases (w.frames_written + 1 == 10)) [
  | inl t ↦
      rw (h, t)
        (
          record {
            still_open = refl;
            raw_content =
                content-flush (write_out bs w.raw_data_stream)
                ∙ content-write_out bs w.raw_data_stream;
            index_content =
                content-flush w.indicies_stream ∙ sym (append-nil (content w.indicies_stream));
          },
          refl,
        )
  | inr t ↦
      rw (h, t)
        (
          record {
            still_open = refl;
            raw_content = content-write_out bs w.raw_data_stream;
            index_content = sym (append-nil (content w.indicies_stream));
          },
          refl,
        )
]

HasWritten-trans :
    (r r' i i' : List ℕ) (a b c : DatFileWriter)
    → HasWritten r i a b
    → HasWritten r' i' b c
    → HasWritten (r ++ r') (i ++ i') a c
HasWritten-trans r r' i i' a b c h k = record {
  still_open = k.still_open;
  raw_content =
      k.raw_content
      ∙ ap (λ l. l ++ r') h.raw_content
      ∙ append_assoc (content a.raw_data_stream) r r';
  index_content =
      k.index_content
      ∙ ap (λ l. l ++ i') h.index_content
      ∙ append_assoc (content a.indicies_stream) i i';
}

pub write_pieces-HasWritten :
    (ps : List (List ℕ)) (w : DatFileWriter)
    → w.files_opened ≡ true
    → HasWritten (joined ps) [] w (write_pieces ps w)
      × ((write_pieces ps w).raw_data_stream_size ≡ w.raw_data_stream_size)
write_pieces-HasWritten [] w h = (
  record {
    still_open = h;
    raw_content = sym (append-nil (content w.raw_data_stream));
    index_content = sym (append-nil (content w.indicies_stream));
  },
  refl,
)
write_pieces-HasWritten (p ∷ ps) w h =
    let w_1 = (write_data_file p w).1 in
    let (first, e) = write_data_file-HasWritten p w h in
    let (rest, e') = write_pieces-HasWritten ps w_1 first.still_open in
    (HasWritten-trans p (joined ps) [] [] w w_1 (write_pieces ps w_1) first rest, e' ∙ e)

pub save_meta_data-HasWritten :
    (timestamp n : ℕ) (w : DatFileWriter)
    → w.files_opened ≡ true
    → HasWritten [] (word timestamp ++ word w.raw_data_stream_size) w (save_meta_data timestamp n w)
      × ((save_meta_data timestamp n w).raw_data_stream_size ≡ w.raw_data_stream_size + n)
unfolding save_meta_data
save_meta_data-HasWritten timestamp n w h =
    let s = w.indicies_stream in
    let size = w.raw_data_stream_size in
    let step : HasWritten [] (word timestamp ++ word size) w (record w {
      indicies_stream = write_out (word size) (write_out (word timestamp) s);
      raw_data_stream_size = size + n;
    }) =
      record {
        still_open = h;
        raw_content = sym (append-nil (content w.raw_data_stream));
        index_content =
            content-write_out (word size) (write_out (word timestamp) s)
            ∙ ap (λ l. l ++ word size) (content-write_out (word timestamp) s)
            ∙ append_assoc (content s) (word timestamp) (word size);
      } in
    let run : save_meta_data timestamp n w ≡ record w {
      indicies_stream = write_out (word size) (write_out (word timestamp) s);
      raw_data_stream_size = size + n;
    } =
      ap
        (λ b.
          if b
          then record w {
            indicies_stream = write_out (word size) (write_out (word timestamp) s);
            raw_data_stream_size = size + n;
          }
          else w)
        h in
    subst
      (λ v. HasWritten [] (word timestamp ++ word size) w v × (v.raw_data_stream_size ≡ size + n))
      (sym run) (step, refl)

-- Frames that are saved while the files are open: the first file has their bytes in order, and the
-- second their timestamps, each with the sum of the sizes of the frames before it.
pub save_frames-HasWritten :
    (fs : List Frame) (w : DatFileWriter)
    → w.files_opened ≡ true
    → HasWritten (raw_bytes fs) (index_bytes w.raw_data_stream_size fs) w (save_frames fs w)
save_frames-HasWritten [] w h = record {
  still_open = h;
  raw_content = sym (append-nil (content w.raw_data_stream));
  index_content = sym (append-nil (content w.indicies_stream));
}
save_frames-HasWritten ((timestamp, ps) ∷ fs) w h =
    let n = length (joined ps) in
    let size = w.raw_data_stream_size in
    let w_1 = save_meta_data timestamp n w in
    let w_2 = write_pieces ps w_1 in
    let (first, e_1) = save_meta_data-HasWritten timestamp n w h in
    let (second, e_2) = write_pieces-HasWritten ps w_1 first.still_open in
    let rest = save_frames-HasWritten fs w_2 second.still_open in
    let entry = word timestamp ++ word size in
    let one = HasWritten-trans [] (joined ps) entry [] w w_1 w_2 first second in
    let all =
      HasWritten-trans (joined ps) (raw_bytes fs) (entry ++ [])
        (index_bytes w_2.raw_data_stream_size fs) w w_2 (save_frames fs w_2) one rest in
    let index : (entry ++ []) ++ index_bytes w_2.raw_data_stream_size fs
        ≡ word timestamp ++ (word size ++ index_bytes (size + n) fs) =
      ap₂ (λ l k. l ++ index_bytes k fs) (append-nil entry) (e_2 ∙ e_1)
      ∙ append_assoc (word timestamp) (word size) (index_bytes (size + n) fs) in
    subst (λ i. HasWritten (joined ps ++ raw_bytes fs) i w (save_frames fs w_2)) index all
