-- ===== src/Deploy/Mover/Combine.antt =====
-- The places that `moveFiles` gives to the files of a package.
use new_cpp.Prelude.{
  ℕ, ◌≡◌, refl, sym, ap, ◌∙◌, true, false, none, some, List, [], ◌∷◌, ◌++◌, arith, ◌==◌, ==_iff,
  length-append, length, Bool-cases, inl, inr, ltb, ◌+◌, ◌-◌, map, append_assoc, drop, drop-drop,
  drop-length,
}
use new_cpp.Prelude.Text.{Avoids, find_last_char, back_is, is_empty}
use new_cpp.Deploy.Mover.{combine, join_components}
use new_cpp.Deploy.Package.{
  add_last_delimiter, set_root_path, new, all_files, get_archives_path, get_policy_path,
  prefix_each,
}

-- A name of a directory entry.
abbrev pub IsName : List ℕ → Type 0
IsName name = Avoids b'/' name × (is_empty name ≡ false)

abbrev pub AreNames : List (List ℕ) → Type 0
AreNames [] = Unit {0}
AreNames (n ∷ ns) = IsName n × AreNames ns

find_last_char-Avoids : (c : ℕ) (xs : List ℕ) → Avoids c xs → find_last_char c xs ≡ none
unfolding find_last_char
find_last_char-Avoids c [] h = refl
find_last_char-Avoids c (x ∷ xs) h = elim (Bool-cases (x == c)) [
  | inl e ↦ absurd (h.0 ((==_iff x c).0 e))
  | inr e ↦ rw (find_last_char-Avoids c xs h.1, e)
]

pub find_last_char-append :
    (c : ℕ) (xs ys : List ℕ) → Avoids c ys → find_last_char c (xs ++ c ∷ ys) ≡ some (length xs)
unfolding find_last_char
find_last_char-append c [] ys h = rw (find_last_char-Avoids c ys h, (==_iff c c).1 refl)
find_last_char-append c (x ∷ xs) ys h = rw (find_last_char-append c xs ys h)

drop-behind :
    {A : Type 0} (xs : List A) (y : A) (ys : List A) → drop (length xs + 1) (xs ++ y ∷ ys) ≡ ys
drop-behind xs y ys =
    sym (drop-drop 1 (length xs) (xs ++ y ∷ ys)) ∙ ap (drop 1) (drop-length xs (y ∷ ys))

length-behind :
    (xs : List ℕ) (y : ℕ) (ys : List ℕ)
    → is_empty ys ≡ false
    → ltb (length xs) (length (xs ++ y ∷ ys) - 1) ≡ true
length-behind xs y [] h = absurd cc
length-behind xs y (z ∷ ys) h = ground (arith, length-append xs (y ∷ z ∷ ys))

join_components-delimiter :
    (dest name : List ℕ) → join_components dest name ≡ add_last_delimiter dest ++ name
unfolding join_components add_last_delimiter
join_components-delimiter dest name = elim (Bool-cases (back_is b'/' dest)) [
  | inl e ↦ rw e
  | inr e ↦ rw (e, append_assoc dest (b'/' ∷ []) name)
]

-- A file of a folder, moved to `dest`, keeps its name there.
pub combine-folder :
    (dir name dest : List ℕ)
    → IsName name
    → combine (dir ++ b'/' ∷ name) dest ≡ add_last_delimiter dest ++ name
unfolding combine
combine-folder dir name dest h = rw (
  combine,
  find_last_char-append b'/' dir name h.0,
  length-behind dir b'/' name h.1,
  drop-behind dir b'/' name,
  join_components-delimiter dest name,
)

folder_of : (path : List ℕ) → back_is b'/' path ≡ true → (dir : List ℕ) × (path ≡ dir ++ b'/' ∷ [])
folder_of [] e = absurd cc
folder_of (x ∷ []) e = ([], ap (λ z. z ∷ []) ((==_iff x b'/').0 e))
folder_of (x ∷ y ∷ xs) e = let (dir, f) = folder_of (y ∷ xs) e in (x ∷ dir, ap (λ z. x ∷ z) f)

-- A path with its delimiter is that of some folder, and the delimiter.
add_last_delimiter-folder :
    (path : List ℕ) → (dir : List ℕ) × (add_last_delimiter path ≡ dir ++ b'/' ∷ [])
unfolding add_last_delimiter
add_last_delimiter-folder path = elim (Bool-cases (back_is b'/' path)) [
  | inl e ↦ rw e (folder_of path e)
  | inr e ↦ rw e (path, refl)
]

combine-rooted :
    (path name dest : List ℕ)
    → IsName name
    → combine (add_last_delimiter path ++ name) dest ≡ add_last_delimiter dest ++ name
combine-rooted path name dest h =
    let (dir, e) = add_last_delimiter-folder path in
    ap (λ r. combine (r ++ name) dest) e
    ∙ ap (λ r. combine r dest) (append_assoc dir (b'/' ∷ []) name)
    ∙ combine-folder dir name dest h

map-prefix_each :
    (path dest : List ℕ) (names : List (List ℕ))
    → AreNames names
    → map (λ f. combine f dest) (prefix_each (add_last_delimiter path) names)
      ≡ prefix_each (add_last_delimiter dest) names
unfolding prefix_each
map-prefix_each path dest [] h = refl
map-prefix_each path dest (n ∷ ns) h =
    rw (combine-rooted path n dest h.0, map-prefix_each path dest ns h.1)

prefix_each-snoc :
    (root : List ℕ) (names : List (List ℕ)) (n : List ℕ)
    → prefix_each root names ++ (root ++ n) ∷ [] ≡ prefix_each root (names ++ n ∷ [])
unfolding prefix_each
prefix_each-snoc root [] n = refl
prefix_each-snoc root (x ∷ xs) n = ap (λ z. (root ++ x) ∷ z) (prefix_each-snoc root xs n)

all_files-prefix :
    (path policy : List ℕ) (archs : List (List ℕ))
    → all_files true (new path policy archs)
      ≡ prefix_each (add_last_delimiter path) (archs ++ policy ∷ [])
unfolding all_files new get_archives_path get_policy_path
all_files-prefix path policy archs = prefix_each-snoc (add_last_delimiter path) archs policy

-- For names of directory entries: the places where `moveFiles` puts the files of a package are the
-- full paths that the package has after `setRootPath` with the same folder, in order.
pub all_files-set_root_path :
    (path dest policy : List ℕ) (archs : List (List ℕ))
    → AreNames (archs ++ policy ∷ [])
    → map (λ f. combine f dest) (all_files true (new path policy archs))
      ≡ all_files true (set_root_path dest (new path policy archs))
all_files-set_root_path path dest policy archs h =
    ap (map (λ f. combine f dest)) (all_files-prefix path policy archs)
    ∙ map-prefix_each path dest (archs ++ policy ∷ []) h
    ∙ sym (all_files-prefix dest policy archs)
    ∙ (unfold set_root_path new in refl)
