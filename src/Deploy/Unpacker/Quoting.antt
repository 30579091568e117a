-- ===== src/Deploy/Unpacker/Quoting.antt =====
-- What `unpack` runs, and what a shell reads in it.
use new_cpp.Prelude.{
  ℕ, ◌≡◌, refl, sym, ap, subst, ◌∙◌, Bool, true, false, ◌||◌, Option, none, some, List, [], ◌∷◌,
  ◌++◌, arith, ◌==◌, ==_iff, if◌then◌else◌, length, Bool-cases, inl, inr, ◌⊎◌, Option-cases, suc,
  ◌+◌, ◌-◌, take, drop, zero,
}
use mathlib.Core.Option
use new_cpp.Prelude.Text.{Avoids, find_char, find_last_char, back_is}
use new_cpp.Deploy.Os.{Os, Machine, execute}
use new_cpp.Deploy.Matching.{ArchiveType, unknown, zip, tar, folder, identify}
use new_cpp.Deploy.Unpacker.{
  is_some, character_exist, cut_extension, last_component, last_name_component, zip_builder,
  tar_builder, folder_builder, find_builder, final_dest, run_builder, is_unknown, unpack,
}
use new_cpp.Deploy.Unpacker.Words.{
  words, zip_builder-words, tar_builder-words, folder_builder-words, intended,
}

pub Avoids-append : (c : ℕ) (xs ys : List ℕ) → Avoids c xs → Avoids c ys → Avoids c (xs ++ ys)
Avoids-append c [] ys h k = k
Avoids-append c (x ∷ xs) ys h k = (h.0, Avoids-append c xs ys h.1 k)

Avoids-take : (c n : ℕ) (xs : List ℕ) → Avoids c xs → Avoids c (take n xs)
Avoids-take c zero xs h = tt
Avoids-take c (suc n) [] h = tt
Avoids-take c (suc n) (x ∷ xs) h = (h.0, Avoids-take c n xs h.1)

Avoids-drop : (c n : ℕ) (xs : List ℕ) → Avoids c xs → Avoids c (drop n xs)
Avoids-drop c zero xs h = h
Avoids-drop c (suc n) [] h = tt
Avoids-drop c (suc n) (x ∷ xs) h = Avoids-drop c n xs h.1

Avoids-cut_extension : (c : ℕ) (s : List ℕ) → Avoids c s → Avoids c (cut_extension s)
unfolding cut_extension
Avoids-cut_extension c s h = elim (Option-cases (find_last_char b'.' s)) [
  | inl e ↦ let same : cut_extension s ≡ s = rw (cut_extension, e) in subst (Avoids c) (sym same) h
  | inr (i, e) ↦
      let same : cut_extension s ≡ take i s = rw (cut_extension, e) in
      subst (Avoids c) (sym same) (Avoids-take c i s h)
]

Avoids-last_component : (c : ℕ) (s : List ℕ) → Avoids c s → Avoids c (last_component s)
unfolding last_component
Avoids-last_component c s h = elim (Option-cases (find_last_char b'/' s)) [
  | inl e ↦
      let same : last_component s ≡ s = rw (last_component, e) in subst (Avoids c) (sym same) h
  | inr (i, e) ↦
      let same : last_component s ≡ cut_extension (drop (i + 1) s) = rw (last_component, e) in
      subst (Avoids c) (sym same)
        (Avoids-cut_extension c (drop (i + 1) s) (Avoids-drop c (i + 1) s h))
]

Avoids-if :
    (c : ℕ) (b : Bool) (xs ys : List ℕ)
    → Avoids c xs
    → Avoids c ys
    → Avoids c (if b then xs else ys)
Avoids-if c true xs ys h k = h
Avoids-if c false xs ys h k = k

Avoids-final_dest :
    (archive dest : List ℕ)
    → Avoids b'\'' archive
    → Avoids b'\'' dest
    → Avoids b'\'' (final_dest archive dest)
unfolding final_dest last_name_component
Avoids-final_dest archive dest ha hd =
    let q : ℕ = b'\'' in
    let shorter = take (length archive - 1) archive in
    let path = if back_is b'/' archive then shorter else archive in
    let clean = Avoids-last_component q path (
      Avoids-if q (back_is b'/' archive) shorter archive
        (Avoids-take q (length archive - 1) archive ha) ha) in
    let delimiter : List ℕ = if back_is b'/' dest then [] else b'/' ∷ [] in
    let delimited : Avoids q delimiter =
      Avoids-if q (back_is b'/' dest) [] (b'/' ∷ []) tt ((λ e. absurd (omega arith)), tt) in
    Avoids-append q dest (delimiter ++ last_component path) hd
      (Avoids-append q delimiter (last_component path) delimited clean)

is_some-map-suc : (o : Option ℕ) → is_some (Option.map suc o) ≡ is_some o
is_some-map-suc none = refl
is_some-map-suc (some x) = refl

character_exist-Avoids : (c : ℕ) (str : List ℕ) → is_some (find_char c str) ≡ false → Avoids c str
unfolding find_char
character_exist-Avoids c [] e = tt
character_exist-Avoids c (x ∷ xs) e = elim (Bool-cases (x == c)) [
  | inl f ↦ absurd (ground (arith, e, f))
  | inr f ↦ (
    (λ g. cc ((==_iff x c).1 g, f)),
    character_exist-Avoids c xs (ground (arith, e, f, is_some-map-suc (find_char c xs))),
  )
]

builder-words :
    (type : ArchiveType) (archive dest : List ℕ) (builder : List ℕ → List ℕ → List ℕ)
    → find_builder type ≡ some builder
    → Avoids b'\'' archive
    → Avoids b'\'' dest
    → words false none (builder archive dest) ≡ intended type archive dest
unfolding find_builder
builder-words unknown a d b e ha hd = absurd cc
builder-words zip a d b e ha hd =
    let f : zip_builder ≡ b = cc in
    ap (λ g. words false none (g a d)) (sym f) ∙ zip_builder-words a d ha hd
builder-words tar a d b e ha hd =
    let f : tar_builder ≡ b = cc in
    ap (λ g. words false none (g a d)) (sym f) ∙ tar_builder-words a d ha hd
builder-words folder a d b e ha hd =
    let f : folder_builder ≡ b = cc in
    ap (λ g. words false none (g a d)) (sym f) ∙ folder_builder-words a d ha hd

find_builder-known :
    (type : ArchiveType)
    → is_unknown type ≡ false
    → (b : List ℕ → List ℕ → List ℕ) × (find_builder type ≡ some b)
unfolding find_builder is_unknown
find_builder-known unknown e = absurd cc
find_builder-known zip e = (zip_builder, refl)
find_builder-known tar e = (tar_builder, refl)
find_builder-known folder e = (folder_builder, refl)

module _ (os : Os) where
  open os use {World}

  -- What `unpack` does: it refuses and runs nothing, or it runs one command, in which a shell reads
  -- the words that are meant.
  pub record Runs (archive dest : List ℕ) (m : Machine World) : Type 0 where
    pub cmd : List ℕ
    pub run : unpack os archive dest m ≡ some (execute os cmd m)
    pub meant :
        words false none cmd
        ≡ intended (identify os archive m.world) archive (final_dest archive dest)

  abbrev pub Unpacks : List ℕ → List ℕ → Machine World → Type 0
  Unpacks archive dest m = (unpack os archive dest m ≡ some (false, m)) ⊎ Runs archive dest m

  -- Unpacking always returns, the call of a missing builder included: it runs nothing and fails, or
  -- it runs a single command, and the words that a shell reads in that command are those meant for
  -- the type of the archive, with both paths as they are, whatever bytes stand in them.
  pub unpack-Unpacks : (archive dest : List ℕ) (m : Machine World) → Unpacks archive dest m
  unfolding unpack run_builder character_exist
  unpack-Unpacks archive dest m = elim (Bool-cases (is_unknown (identify os archive m.world))) [
    | inl e ↦ inl (rw e)
    | inr e ↦ elim (Bool-cases (character_exist archive b'\'' || character_exist dest b'\'')) [
      | inl f ↦ inl (rw (e, f))
      | inr f ↦
          let (b, g) = find_builder-known (identify os archive m.world) e in
          let ha = character_exist-Avoids b'\'' archive (ground (arith, f)) in
          let hd = character_exist-Avoids b'\'' dest (ground (arith, f)) in
          inr record {
            cmd = b archive (final_dest archive dest);
            run = rw (e, f, g);
            meant =
                builder-words (identify os archive m.world) archive (final_dest archive dest) b g ha
                  (Avoids-final_dest archive dest ha hd);
          }
    ]
  ]
