-- ===== src/Deploy/Matching/Suffix.antt =====
-- What the tests over reverse iterators decide.
use mathlib.Core.List.{reverse, reverse-append, reverse-cons, reverse-reverse}
use new_cpp.Prelude.{
  ℕ, ◌≡◌, refl, sym, ap, subst, ◌∙◌, ◌↔◌, Bool, true, false, Option, some, List, [], ◌∷◌, ◌++◌,
  ◌==◌, ==_iff, Bool-cases, inl, inr, append_assoc,
}
use new_cpp.Prelude.Text.{Avoids}
use new_cpp.Deploy.Matching.{equal_prefix, ends_like}

-- A text that begins with another one.
abbrev pub Extends : List ℕ → List ℕ → Type 0
Extends p s = (q : List ℕ) × (s ≡ p ++ q)

-- A decided test.
abbrev pub Decides : Option Bool → Type 0 → Type 0
Decides o A = (b : Bool) × (o ≡ some b) × ((b ≡ true) ↔ A)

tail-eq : {x y : ℕ} {xs ys : List ℕ} → x ∷ xs ≡ y ∷ ys → (x ≡ y) × (xs ≡ ys)
tail-eq e = (cc, cc)

Extends-cons : (x : ℕ) (p s : List ℕ) → Extends p s ↔ Extends (x ∷ p) (x ∷ s)
Extends-cons x p s = ((λ h. (h.0, ap (λ l. x ∷ l) h.1)), (λ h. (h.0, (tail-eq h.1).1)))

equal_prefix-Decides :
    (p s r : List ℕ) → Avoids b'/' p → Decides (equal_prefix p (s ++ b'/' ∷ r)) (Extends p s)
unfolding equal_prefix
equal_prefix-Decides [] s r a = (true, refl, ((λ _. (s, refl)), (λ _. refl)))
equal_prefix-Decides (x ∷ p) [] r a = elim (Bool-cases (x == b'/')) [
  | inl e ↦ absurd (a.0 ((==_iff x b'/').0 e))
  | inr e ↦ (false, rw e, ((λ f. cc), (λ h. cc (h.1))))
]
equal_prefix-Decides (x ∷ p) (y ∷ s) r a = elim (Bool-cases (x == y)) [
  | inl e ↦
      let (b, f, g) = equal_prefix-Decides p s r a.1 in
      let same = (==_iff x y).0 e in
      (
        b,
        rw (e, f),
        (
          (λ h. subst (λ z. Extends (x ∷ p) (z ∷ s)) same ((Extends-cons x p s).0 (g.0 h))),
          (λ h. g.1 ((Extends-cons x p s).1 (subst (λ z. Extends (x ∷ p) (z ∷ s)) (sym same) h))),
        ),
      )
  | inr e ↦ (false, rw e, ((λ f. cc), (λ h. cc ((==_iff x y).1 (sym (tail-eq h.1).0), e))))
]

Avoids-append : (c : ℕ) (xs ys : List ℕ) → Avoids c xs → Avoids c ys → Avoids c (xs ++ ys)
Avoids-append c [] ys h k = k
Avoids-append c (x ∷ xs) ys h k = (h.0, Avoids-append c xs ys h.1 k)

Avoids-reverse : (c : ℕ) (xs : List ℕ) → Avoids c xs → Avoids c (reverse xs)
Avoids-reverse c [] h = tt
Avoids-reverse c (x ∷ xs) h =
    subst (Avoids c) (sym (reverse-cons x xs))
      (Avoids-append c (reverse xs) (x ∷ []) (Avoids-reverse c xs h.1) (h.0, tt))

-- A text that ends with another one.
abbrev pub EndsWith : List ℕ → List ℕ → Type 0
EndsWith name pattern = (q : List ℕ) × (name ≡ q ++ pattern)

Extends-reverse : (p s : List ℕ) → Extends (reverse p) (reverse s) ↔ EndsWith s p
Extends-reverse p s = (
  (λ h. (
    reverse h.0,
    sym (reverse-reverse s)
        ∙ ap reverse h.1
        ∙ reverse-append (reverse p) h.0
        ∙ ap (λ z. reverse h.0 ++ z) (reverse-reverse p),
  )),
  (λ h. (reverse h.0, ap reverse h.1 ∙ reverse-append h.0 p)),
)

reverse-path :
    (dir name : List ℕ) → reverse (dir ++ b'/' ∷ name) ≡ reverse name ++ b'/' ∷ reverse dir
reverse-path dir name =
    reverse-append dir (b'/' ∷ name)
    ∙ ap (λ z. z ++ reverse dir) (reverse-cons b'/' name)
    ∙ append_assoc (reverse name) (b'/' ∷ []) (reverse dir)

-- A pattern without a delimiter, tested on a path with a folder: the test stays within the path,
-- and accepts exactly the names that end with the pattern.
pub ends_like-Decides :
    (pattern dir name : List ℕ)
    → Avoids b'/' pattern
    → Decides (ends_like pattern (dir ++ b'/' ∷ name)) (EndsWith name pattern)
unfolding ends_like
ends_like-Decides pattern dir name a =
    let (b, e, (to, from)) =
      equal_prefix-Decides (reverse pattern) (reverse name) (reverse dir)
        (Avoids-reverse b'/' pattern a) in
    let (there, back) = Extends-reverse pattern name in
    (
      b,
      ap (equal_prefix (reverse pattern)) (reverse-path dir name) ∙ e,
      ((λ h. there (to h)), (λ h. from (back h))),
    )
