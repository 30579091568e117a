-- ===== src/Prelude/Text.antt =====
-- Byte strings as lists of numbers, with the searches of `std::string` that the code uses.
use Prim.Native.Nat.{ℕ, suc, ◌+◌}
use Prim.Native.Char.{code}
use Prim.Native.String.{String}
use mathlib.Core.Path.{◌≡◌, refl}
use mathlib.Core.Bool.{Bool, true, false, ◌&&◌}
use mathlib.Core.Logic.{◌≢◌, inl, inr}
use mathlib.Core.Option
use mathlib.Core.Option.{Option, none, some}
use mathlib.Core.List.{List, [], ◌∷◌, ◌++◌}
use native.Mathlib.Omega.{}
use new_cpp.Prelude.Tests.{◌==◌, leb, if◌then◌else◌, ==_iff, Bool-cases}
use new_cpp.Prelude.Lists.{length, take, drop}

-- The bytes of an ASCII literal.
abbrev pub codes : String → List ℕ
codes String.[] = []
codes (String.◌∷◌ c s) = code c ∷ codes s

abbrev pub is_empty {ℓ} : {A : Type ℓ} → List A → Bool
is_empty [] = true
is_empty (x ∷ xs) = false

-- `s.find(c)`; `none` is `npos`.
unfoldable pub find_char : ℕ → List ℕ → Option ℕ
find_char c [] = none
find_char c (x ∷ xs) = let rest = find_char c xs in if x == c then some 0 else Option.map suc rest

-- `s.find(c, pos)`.
unfoldable pub find_char_from : ℕ → ℕ → List ℕ → Option ℕ
find_char_from c pos s = Option.map (λ k. k + pos) (find_char c (drop pos s))

-- `s.find_last_of(c)`.
unfoldable pub find_last_char : ℕ → List ℕ → Option ℕ
find_last_char c [] = none
find_last_char c (x ∷ xs) = elim (find_last_char c xs) [
  | none ↦ if x == c then some 0 else none
  | some k ↦ some (suc k)
]

-- `s.substr(pos)` and `s.substr(pos, count)`, for a `pos` within the string.
abbrev pub substr : ℕ → List ℕ → List ℕ
substr pos s = drop pos s

abbrev pub substr_count : ℕ → ℕ → List ℕ → List ℕ
substr_count pos count s = take count (drop pos s)

-- `s.front() == c` and `s.back() == c`, on a string that is not empty.
abbrev pub front_is : ℕ → List ℕ → Bool
front_is c [] = false
front_is c (x ∷ xs) = x == c

abbrev pub back_is : ℕ → List ℕ → Bool
back_is c [] = false
back_is c (x ∷ []) = x == c
back_is c (x ∷ y ∷ xs) = back_is c (y ∷ xs)

-- `tolower` in the "C" locale.
abbrev pub to_lower : ℕ → ℕ
to_lower c = if leb b'A' c && leb c b'Z' then c + 32 else c

-- A byte does not occur.
abbrev pub Avoids : ℕ → List ℕ → Type 0
Avoids c [] = Unit {0}
Avoids c (x ∷ xs) = (x ≢ c) × Avoids c xs

pub find_char-Avoids : (c : ℕ) (xs : List ℕ) → Avoids c xs → find_char c xs ≡ none
unfolding find_char
find_char-Avoids c [] h = refl
find_char-Avoids c (x ∷ xs) h = elim (Bool-cases (x == c)) [
  | inl e ↦ absurd (h.0 ((==_iff x c).0 e))
  | inr e ↦ rw (e, find_char-Avoids c xs h.1)
]

-- The first occurrence is behind a part that avoids the byte.
pub find_char-append :
    (c : ℕ) (xs ys : List ℕ) → Avoids c xs → find_char c (xs ++ c ∷ ys) ≡ some (length xs)
unfolding find_char
find_char-append c [] ys h = rw ((==_iff c c).1 refl)
find_char-append c (x ∷ xs) ys h = elim (Bool-cases (x == c)) [
  | inl e ↦ absurd (h.0 ((==_iff x c).0 e))
  | inr e ↦ rw (e, find_char-append c xs ys h.1)
]
