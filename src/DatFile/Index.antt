-- ===== src/DatFile/Index.antt =====
-- DatFileWriter.cpp and DatFileReader.cpp: the index that is read finds the frames that were saved.
use new_cpp.Prelude.{
  ℕ, ◌+◌, ◌^◌, ◌<◌, ◌≡◌, refl, sym, ap, ◌∙◌, inl, inr, Bool, true, false, ◌||◌, none, some, List,
  [], ◌∷◌, ◌++◌, length, length-append, arith, ◌==◌, ==_iff, Bool-cases, Option-cases,
  if◌then◌else◌,
}
use new_cpp.DatFile.{IndiciesMap, find_index, insert_index}
use new_cpp.DatFile.Words.{}
use new_cpp.DatFile.Content.{Frame, joined, raw_bytes}

-- The entries of frames, inserted in their order.
abbrev pub inserted : ℕ → List Frame → IndiciesMap → IndiciesMap
inserted offset [] m = m
inserted offset ((timestamp, ps) ∷ fs) m =
    inserted (offset + length (joined ps)) fs (insert_index timestamp offset m)

abbrev pub has_timestamp : ℕ → List Frame → Bool
has_timestamp k [] = false
has_timestamp k ((timestamp, ps) ∷ fs) = (timestamp == k) || has_timestamp k fs

-- All timestamps fit a `long`.
abbrev pub IsStamped : List Frame → Type 0
IsStamped [] = Unit {0}
IsStamped ((timestamp, ps) ∷ fs) = (timestamp < 2 ^ 63) × IsStamped fs

find_index-append :
    (k : ℕ) (m m' : IndiciesMap) (v : ℕ) → find_index k m ≡ some v → find_index k (m ++ m') ≡ some v
unfolding find_index
find_index-append k [] m' v e = absurd cc
find_index-append k ((a, x) ∷ m) m' v e = elim (Bool-cases (a == k)) [
  | inl t ↦
      let here : find_index k ((a, x) ∷ m) ≡ some x = rw (find_index, t) refl in
      let there : find_index k ((a, x) ∷ (m ++ m')) ≡ some x = rw (find_index, t) refl in
      there ∙ sym here ∙ e
  | inr t ↦
      let here : find_index k ((a, x) ∷ m) ≡ find_index k m = rw (find_index, t) refl in
      let there : find_index k ((a, x) ∷ (m ++ m')) ≡ find_index k (m ++ m') =
        rw (find_index, t) refl in
      there ∙ find_index-append k m m' v (sym here ∙ e)
]

find_index-snoc :
    (k a v : ℕ) (m : IndiciesMap)
    → find_index k m ≡ none
    → find_index k (m ++ (a, v) ∷ []) ≡ (if a == k then some v else none)
unfolding find_index
find_index-snoc k a v [] e = refl
find_index-snoc k a v ((b, x) ∷ m) e = elim (Bool-cases (b == k)) [
  | inl t ↦
      let here : find_index k ((b, x) ∷ m) ≡ some x = rw (find_index, t) refl in
      absurd (let clash = sym here ∙ e in cc)
  | inr t ↦
      let here : find_index k ((b, x) ∷ m) ≡ find_index k m = rw (find_index, t) refl in
      let there : find_index k ((b, x) ∷ (m ++ (a, v) ∷ [])) ≡ find_index k (m ++ (a, v) ∷ []) =
        rw (find_index, t) refl in
      there ∙ find_index-snoc k a v m (sym here ∙ e)
]

-- What is in the map stays in it.
insert_index-keeps :
    (k a v w : ℕ) (m : IndiciesMap)
    → find_index k m ≡ some w
    → find_index k (insert_index a v m) ≡ some w
insert_index-keeps k a v w m e = elim (Option-cases (find_index a m)) [
  | inl t ↦
      let run : insert_index a v m ≡ m ++ (a, v) ∷ [] =
        unfold insert_index in rw (insert_index, t) refl in
      ap (find_index k) run ∙ find_index-append k m ((a, v) ∷ []) w e
  | inr (x, t) ↦
      let run : insert_index a v m ≡ m = unfold insert_index in rw (insert_index, t) refl in
      ap (find_index k) run ∙ e
]

-- What is new is found, and nothing else is.
insert_index-new :
    (k a v : ℕ) (m : IndiciesMap)
    → find_index k m ≡ none
    → find_index k (insert_index a v m) ≡ (if a == k then some v else none)
insert_index-new k a v m e = elim (Option-cases (find_index a m)) [
  | inl t ↦
      let run : insert_index a v m ≡ m ++ (a, v) ∷ [] =
        unfold insert_index in rw (insert_index, t) refl in
      ap (find_index k) run ∙ find_index-snoc k a v m e
  | inr (x, t) ↦
      let run : insert_index a v m ≡ m = unfold insert_index in rw (insert_index, t) refl in
      elim (Bool-cases (a == k)) [
        | inl q ↦ absurd (let clash = sym t ∙ ap (λ y. find_index y m) ((==_iff a k).0 q) ∙ e in cc)
        | inr q ↦ ap (find_index k) run ∙ e ∙ ap (λ b. if b then some v else none) (sym q)
      ]
]

-- A key is in the map after it was inserted.
pub insert_index-has :
    (a v : ℕ) (m : IndiciesMap) → (x : ℕ) × (find_index a (insert_index a v m) ≡ some x)
insert_index-has a v m = elim (Option-cases (find_index a m)) [
  | inl t ↦
      let same : (a == a) ≡ true = ground arith in
      (v, insert_index-new a a v m t ∙ ap (λ b. if b then some v else none) same)
  | inr (x, t) ↦ (x, insert_index-keeps a a v x m t)
]

-- The first frame with a timestamp is the one that is found.
inserted-keeps :
    (k w offset : ℕ) (fs : List Frame) (m : IndiciesMap)
    → find_index k m ≡ some w
    → find_index k (inserted offset fs m) ≡ some w
inserted-keeps k w offset [] m e = e
inserted-keeps k w offset ((timestamp, ps) ∷ fs) m e =
    inserted-keeps k w (offset + length (joined ps)) fs (insert_index timestamp offset m)
      (insert_index-keeps k timestamp offset w m e)

pub inserted-first :
    (k offset : ℕ) (before after : List Frame) (ps : List (List ℕ)) (m : IndiciesMap)
    → has_timestamp k before ≡ false
    → find_index k m ≡ none
    → find_index k (inserted offset (before ++ (k, ps) ∷ after) m)
      ≡ some (offset + length (raw_bytes before))
inserted-first k offset [] after ps m h e =
    let same : (k == k) ≡ true = ground arith in
    let here = insert_index-new k k offset m e ∙ ap (λ b. if b then some offset else none) same in
    inserted-keeps k offset (offset + length (joined ps)) after (insert_index k offset m) here
    ∙ ap some (omega arith)
inserted-first k offset ((a, qs) ∷ before) after ps m h e =
    let n = length (joined qs) in
    let other : (a == k) ≡ false = ground (arith, h) in
    let next = insert_index-new k a offset m e ∙ ap (λ b. if b then some offset else none) other in
    inserted-first k (offset + n) before after ps (insert_index a offset m) (ground (arith, h)) next
    ∙ ap some (omega (arith, length-append (joined qs) (raw_bytes before)))
