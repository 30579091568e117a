-- ===== src/DatFile/Lookup.antt =====
-- DatFileWriter.cpp and DatFileReader.cpp: what `ReadIndicies` reads of a file that was saved.
use new_cpp.Prelude.{
  ℕ, zero, suc, ◌+◌, ◌^◌, ◌<◌, ◌≡◌, refl, sym, ap, ◌∙◌, true, false, some, List, [], ◌∷◌, ◌++◌,
  append_assoc, length, length-append, take, drop, take-length, drop-length, arith,
}
use new_cpp.DatFile.{
  DatFileWriter, truncate, new_writer, open_files, close_files, flush, open_out, word, of_word,
  read_word, IndiciesMap, find_index, insert_index, read_indicies_loop, read_indicies,
}
use new_cpp.DatFile.Words.{of_word-word, read_word-word}
use new_cpp.DatFile.Content.{
  Frame, joined, raw_bytes, index_bytes, save_frames, save_frames-HasWritten,
}
use new_cpp.DatFile.Index.{inserted, has_timestamp, IsStamped, inserted-first, insert_index-has}

-- An entry is read and inserted.
loop-entry :
    (n t offset : ℕ) (old old' rest : List ℕ) (m : IndiciesMap)
    → t < 2 ^ 64
    → offset < 2 ^ 64
    → read_indicies_loop
        (suc n)
        old
        old'
        m
        (record { left = word t ++ (word offset ++ rest); good = true })
      ≡ read_indicies_loop n
          (word t)
          (word offset)
          (insert_index t offset m)
          (record { left = rest; good = true })
unfolding read_indicies_loop
loop-entry n t offset old old' rest m h h' =
    let first = read_word-word t old (word offset ++ rest) in
    let second = read_word-word offset old' rest in
    rw (read_indicies_loop, first, second, of_word-word t h, of_word-word offset h') refl

-- At the end the last entry is inserted again.
loop-end :
    (n t offset x : ℕ) (m : IndiciesMap)
    → t < 2 ^ 64
    → find_index t m ≡ some x
    → read_indicies_loop (suc (suc n)) (word t) (word offset) m (record { left = []; good = true })
      ≡ some m
unfolding read_indicies_loop read_word
loop-end n t offset x m h e =
    let again : insert_index t (of_word (word offset)) m ≡ m =
      unfold insert_index in rw (insert_index, e) refl in
    rw (of_word-word t h, again) refl

loop-index :
    (fuel t x old offset : ℕ) (fs : List Frame) (m : IndiciesMap)
    → t < 2 ^ 64
    → find_index t m ≡ some x
    → IsStamped fs
    → offset + length (raw_bytes fs) < 2 ^ 63
    → length fs + 2 < suc fuel
    → read_indicies_loop fuel
        (word t)
        (word old)
        m
        (record { left = index_bytes offset fs; good = true })
      ≡ some (inserted offset fs m)
loop-index zero t x old offset fs m h e stamped size enough = absurd (omega arith)
loop-index (suc zero) t x old offset fs m h e stamped size enough = absurd (omega arith)
loop-index (suc (suc n)) t x old offset [] m h e stamped size enough = loop-end n t old x m h e
loop-index (suc (suc n)) t x old offset ((k, ps) ∷ fs) m h e stamped size enough =
    let (y, found) = insert_index-has k offset m in
    let l = length-append (joined ps) (raw_bytes fs) in
    loop-entry (suc n) k offset (word t) (word old) (index_bytes (offset + length (joined ps)) fs) m
      (omega (arith, stamped.0)) (omega (arith, size))
    ∙ loop-index (suc n) k y offset (offset + length (joined ps)) fs (insert_index k offset m)
        (omega (arith, stamped.0)) found stamped.1 (omega (arith, size, l)) (omega (arith, enough))

-- The index of frames that were saved is read as their entries; there is at least one frame.
read_indicies-index_bytes :
    (fuel : ℕ) (f : Frame) (fs : List Frame) (junk junk' : List ℕ)
    → IsStamped (f ∷ fs)
    → length (raw_bytes (f ∷ fs)) < 2 ^ 63
    → length fs + 3 < suc fuel
    → read_indicies fuel junk junk' (index_bytes 0 (f ∷ fs)) ≡ some (inserted 0 (f ∷ fs) [])
unfolding read_indicies
read_indicies-index_bytes zero f fs junk junk' stamped size enough = absurd (omega arith)
read_indicies-index_bytes (suc fuel) (k, ps) fs junk junk' stamped size enough =
    let (y, found) = insert_index-has k 0 [] in
    loop-entry fuel k 0 junk junk' (index_bytes (0 + length (joined ps)) fs) []
      (omega (arith, stamped.0)) (omega arith)
    ∙ loop-index fuel k y 0 (0 + length (joined ps)) fs (insert_index k 0 [])
        (omega (arith, stamped.0)) found stamped.1
        (omega (arith, size, length-append (joined ps) (raw_bytes fs))) (omega (arith, enough))

-- The two files after frames were saved in files that were emptied.
abbrev pub saved : List ℕ → List ℕ → List Frame → DatFileWriter
saved raw index fs = close_files (save_frames fs (open_files (new_writer truncate raw index)))

saved-content :
    (raw index : List ℕ) (fs : List Frame)
    → ((saved raw index fs).raw_data_stream.disk ≡ raw_bytes fs)
      × ((saved raw index fs).indicies_stream.disk ≡ index_bytes 0 fs)
unfolding close_files flush new_writer open_files open_out
saved-content raw index fs =
    let h = save_frames-HasWritten fs (open_files (new_writer truncate raw index)) refl in
    (h.raw_content, h.index_content)

raw_bytes-append : (fs gs : List Frame) → raw_bytes (fs ++ gs) ≡ raw_bytes fs ++ raw_bytes gs
raw_bytes-append [] gs = refl
raw_bytes-append ((k, ps) ∷ fs) gs =
    ap (λ l. joined ps ++ l) (raw_bytes-append fs gs)
    ∙ sym (append_assoc (joined ps) (raw_bytes fs) (raw_bytes gs))

-- A frame is where the sum of the sizes before it says.
found_at :
    (before after : List Frame) (k : ℕ) (ps : List (List ℕ))
    → take
        (length (joined ps))
        (drop (length (raw_bytes before)) (raw_bytes (before ++ (k, ps) ∷ after)))
      ≡ joined ps
found_at before after k ps =
    ap (λ l. take (length (joined ps)) (drop (length (raw_bytes before)) l))
      (raw_bytes-append before ((k, ps) ∷ after))
    ∙ ap (take (length (joined ps))) (drop-length (raw_bytes before) (joined ps ++ raw_bytes after))
    ∙ take-length (joined ps) (raw_bytes after)

read_saved :
    (fuel : ℕ) (fs : List Frame) (junk junk' : List ℕ)
    → 0 < length fs
    → IsStamped fs
    → length (raw_bytes fs) < 2 ^ 63
    → length fs + 1 < fuel
    → read_indicies fuel junk junk' (index_bytes 0 fs) ≡ some (inserted 0 fs [])
read_saved fuel [] junk junk' h stamped size enough = absurd (omega arith)
read_saved fuel (f ∷ fs) junk junk' h stamped size enough =
    read_indicies-index_bytes fuel f fs junk junk' stamped size (omega (arith, enough))

-- Frames that are saved, each in pieces, to two files that are emptied, with timestamps and an
-- overall size in the range of their types: `ReadIndicies` ends on the second file, whatever its
-- variables have at first, and for the first frame with a timestamp, the map has the place in the
-- first file at which the bytes of that frame stand.
pub read_indicies-saved :
    (fuel : ℕ) (before after : List Frame) (k : ℕ) (ps : List (List ℕ))
    (raw index junk junk' : List ℕ)
    → has_timestamp k before ≡ false
    → IsStamped (before ++ (k, ps) ∷ after)
    → length (raw_bytes (before ++ (k, ps) ∷ after)) < 2 ^ 63
    → length (before ++ (k, ps) ∷ after) + 1 < fuel
    → let w = saved raw index (before ++ (k, ps) ∷ after) in
      (m : IndiciesMap) × (p : ℕ) × (read_indicies fuel junk junk' w.indicies_stream.disk ≡ some m)
      × (find_index k m ≡ some p)
      × (take (length (joined ps)) (drop p w.raw_data_stream.disk) ≡ joined ps)
read_indicies-saved fuel before after k ps raw index junk junk' new stamped size enough =
    let fs = before ++ (k, ps) ∷ after in
    let (e_raw, e_index) = saved-content raw index fs in
    let p = length (raw_bytes before) in
    let first = inserted-first k 0 before after ps [] new (unfold find_index in refl) in
    let start : 0 + p ≡ p = omega arith in
    (
      inserted 0 fs [],
      p,
      ap (read_indicies fuel junk junk') e_index
          ∙ read_saved fuel fs junk junk' (omega (arith, length-append before ((k, ps) ∷ after)))
              stamped size enough,
      first ∙ ap some start,
      ap (λ l. take (length (joined ps)) (drop p l)) e_raw ∙ found_at before after k ps,
    )
