-- ===== src/DatFile/Words.antt =====
-- DatFileWriter.cpp and DatFileReader.cpp: the bytes of a number are read as that number.
use new_cpp.Prelude.{
  ℕ, ◌+◌, ◌^◌, ◌<◌, ◌≡◌, refl, sym, ap, ◌∙◌, List, ◌++◌, length, arith, true, leb,
}
use new_cpp.DatFile.{word, of_word, read_word}

pub of_word-word : (v : ℕ) → v < 2 ^ 64 → of_word (word v) ≡ v
unfolding of_word word
of_word-word v h = omega (arith, h)

-- A whole number is read.
pub read_word-word :
    (v : ℕ) (old rest : List ℕ)
    → read_word old (record { left = word v ++ rest; good = true })
      ≡ (word v, record { left = rest; good = true })
unfolding read_word word
read_word-word v old rest =
    let enough : leb 8 (8 + length rest) ≡ true = ground arith in
    let sum : 8 + length rest ≡ length (word v ++ rest) = omega arith in
    let there = ap (leb 8) (sym sum) ∙ enough in rw there refl
