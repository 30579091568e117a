-- ===== src/Deploy/Unpacker/Words.antt =====
-- The words that a shell reads in the commands of the builders.
use new_cpp.Prelude.{
  ℕ, ◌≡◌, sym, ap, ◌∙◌, Bool, true, false, Option, none, some, List, [], ◌∷◌, ◌++◌, ◌==◌, ==_iff,
  if◌then◌else◌, Bool-cases, inl, inr, append_assoc, append-nil,
}
use new_cpp.Prelude.Text.{codes, Avoids}
use new_cpp.Deploy.Matching.{ArchiveType, unknown, zip, tar, folder}
use new_cpp.Deploy.Unpacker.{zip_builder, tar_builder, folder_builder}

-- The words of a command line with single quotes: `quoted` says if the place is within quotes,
-- `word` is what was read of the current word, `none` between words. No other character has a
-- meaning of its own here, and `&&` is read as a word.
unfoldable pub push_char : Option (List ℕ) → ℕ → Option (List ℕ)
push_char none c = some (c ∷ [])
push_char (some w) c = some (w ++ c ∷ [])

unfoldable pub opened : Option (List ℕ) → Option (List ℕ)
opened none = some []
opened (some w) = some w

unfoldable pub ended : Option (List ℕ) → List (List ℕ) → List (List ℕ)
ended none ws = ws
ended (some w) ws = w ∷ ws

unfoldable pub words : Bool → Option (List ℕ) → List ℕ → List (List ℕ)
words quoted word [] = ended word []
words true word (c ∷ cs) =
    let closed = words false word cs in
    let inside = words true (push_char word c) cs in if c == b'\'' then closed else inside
words false word (c ∷ cs) =
    let opening = words true (opened word) cs in
    let between = words false none cs in
    let outside = words false (push_char word c) cs in
    if c == b'\'' then opening else if c == b' ' then ended word between else outside

-- A quoted text without a quote is read as it is.
words-quoted :
    (w xs rest : List ℕ)
    → Avoids b'\'' xs
    → words true (some w) (xs ++ b'\'' ∷ rest) ≡ words false (some (w ++ xs)) rest
unfolding words push_char
words-quoted w [] rest h = ap (λ v. words false (some v) rest) (sym (append-nil w))
words-quoted w (x ∷ xs) rest h = elim (Bool-cases (x == b'\'')) [
  | inl e ↦ absurd (h.0 ((==_iff x b'\'').0 e))
  | inr e ↦ rw (e, words-quoted (w ++ x ∷ []) xs rest h.1, append_assoc w (x ∷ []) xs)
]

-- What the commands say to a shell, for texts without a quote.
pub zip_builder-words :
    (a d : List ℕ)
    → Avoids b'\'' a
    → Avoids b'\'' d
    → words false none (zip_builder a d) ≡ codes "unzip" ∷ codes "-qo" ∷ a ∷ codes "-d" ∷ d ∷ []
unfolding zip_builder words push_char opened ended
zip_builder-words a d ha hd =
    ap (λ r. codes "unzip" ∷ codes "-qo" ∷ r)
      (words-quoted [] a (codes " -d '" ++ (d ++ codes "'")) ha)
    ∙ ap (λ r. codes "unzip" ∷ codes "-qo" ∷ a ∷ codes "-d" ∷ r) (words-quoted [] d [] hd)

pub tar_builder-words :
    (a d : List ℕ)
    → Avoids b'\'' a
    → Avoids b'\'' d
    → words false none (tar_builder a d)
      ≡ codes "mkdir"
        ∷ codes "-p"
        ∷ d
        ∷ codes "&&"
        ∷ codes "tar"
        ∷ codes "-C"
        ∷ d
        ∷ codes "-xf"
        ∷ a
        ∷ []
unfolding tar_builder words push_char opened ended
tar_builder-words a d ha hd =
    ap (λ r. codes "mkdir" ∷ codes "-p" ∷ r)
      (words-quoted [] d (codes " && tar -C '" ++ (d ++ (codes "' -xf '" ++ (a ++ codes "'")))) hd)
    ∙ ap (λ r. codes "mkdir" ∷ codes "-p" ∷ d ∷ codes "&&" ∷ codes "tar" ∷ codes "-C" ∷ r)
        (words-quoted [] d (codes " -xf '" ++ (a ++ codes "'")) hd)
    ∙ ap
        (λ r.
          codes "mkdir"
          ∷ codes "-p"
          ∷ d
          ∷ codes "&&"
          ∷ codes "tar"
          ∷ codes "-C"
          ∷ d
          ∷ codes "-xf"
          ∷ r)
        (words-quoted [] a [] ha)

pub folder_builder-words :
    (a d : List ℕ)
    → Avoids b'\'' a
    → Avoids b'\'' d
    → words false none (folder_builder a d) ≡ codes "cp" ∷ codes "-fr" ∷ a ∷ d ∷ []
unfolding folder_builder words push_char opened ended
folder_builder-words a d ha hd =
    ap (λ r. codes "cp" ∷ codes "-fr" ∷ r) (words-quoted [] a (codes " '" ++ (d ++ codes "'")) ha)
    ∙ ap (λ r. codes "cp" ∷ codes "-fr" ∷ a ∷ r) (words-quoted [] d [] hd)

-- What is meant to run for an archive of a type.
abbrev pub intended : ArchiveType → List ℕ → List ℕ → List (List ℕ)
intended unknown a d = []
intended zip a d = codes "unzip" ∷ codes "-qo" ∷ a ∷ codes "-d" ∷ d ∷ []
intended tar a d =
    codes "mkdir"
    ∷ codes "-p"
    ∷ d
    ∷ codes "&&"
    ∷ codes "tar"
    ∷ codes "-C"
    ∷ d
    ∷ codes "-xf"
    ∷ a
    ∷ []
intended folder a d = codes "cp" ∷ codes "-fr" ∷ a ∷ d ∷ []
