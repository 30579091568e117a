-- ===== src/Ipc/Receiver/Pairs.antt =====
-- IpcReceiverUnix.cpp: the set of descriptors with the names of their sockets.
use new_cpp.Prelude.{
  ℕ, ◌≡◌, refl, sym, ap, ap₂, ◌∙◌, inl, inr, true, false, not, ◌&&◌, List, [], ◌∷◌, ◌++◌, arith,
  ◌==◌, ==_iff, Bool-cases,
}
use new_cpp.Ipc.Sockets.{IpcSocket, contains, IsDistinct}
use new_cpp.Ipc.Transmitter.{same_uri}
use new_cpp.Ipc.Receiver.{Managed, same_pair, has_pair, difference}

abbrev pub fds : List Managed → List ℕ
fds [] = []
fds ((a, n) ∷ ps) = a ∷ fds ps

-- The clients of all sockets.
abbrev pub all_clients : List IpcSocket → List ℕ
all_clients [] = []
all_clients (s ∷ ss) = s.clients ++ all_clients ss

same_uri_refl : (xs : List ℕ) → same_uri xs xs ≡ true
unfolding same_uri
same_uri_refl [] = refl
same_uri_refl (x ∷ xs) = ground (arith, same_uri_refl xs)

same_uri_eq : (xs ys : List ℕ) → same_uri xs ys ≡ true → xs ≡ ys
unfolding same_uri
same_uri_eq [] [] e = refl
same_uri_eq [] (y ∷ ys) e = absurd cc
same_uri_eq (x ∷ xs) [] e = absurd cc
same_uri_eq (x ∷ xs) (y ∷ ys) e = elim (Bool-cases (x == y)) [
  | inl t ↦
      let heads : x ≡ y = (==_iff x y).0 t in
      let tails : same_uri xs ys ≡ true = ground (arith, e, t) in
      ap₂ (λ a b. a ∷ b) heads (same_uri_eq xs ys tails)
  | inr t ↦ absurd (ground (arith, e, t))
]

same_pair_eq : (p q : Managed) → same_pair p q ≡ true → p ≡ q
unfolding same_pair
same_pair_eq (a, n) (b, m) e = elim (Bool-cases (a == b)) [
  | inl t ↦
      let names : same_uri n m ≡ true = ground (arith, e, t) in
      ap₂ (λ x y. (x, y)) ((==_iff a b).0 t) (same_uri_eq n m names)
  | inr t ↦ absurd (ground (arith, e, t))
]

pub has_pair-of_contains :
    (x : ℕ) (ps : List Managed)
    → contains x (fds ps) ≡ true
    → (n : List ℕ) × (has_pair (x, n) ps ≡ true)
unfolding contains has_pair same_pair
has_pair-of_contains x [] e = absurd cc
has_pair-of_contains x ((a, n) ∷ ps) e = elim (Bool-cases (a == x)) [
  | inl t ↦ (n, ground (arith, t, same_uri_refl n))
  | inr t ↦
      let (m, h) = has_pair-of_contains x ps (ground (arith, e, t)) in (m, ground (arith, h, t))
]

pub contains-of_has_pair :
    (x : ℕ) (n : List ℕ) (ps : List Managed)
    → has_pair (x, n) ps ≡ true
    → contains x (fds ps) ≡ true
unfolding contains has_pair same_pair
contains-of_has_pair x n [] e = absurd cc
contains-of_has_pair x n ((a, m) ∷ ps) e = elim (Bool-cases (a == x)) [
  | inl t ↦ ground (arith, t)
  | inr t ↦ let h = contains-of_has_pair x n ps (ground (arith, e, t)) in ground (arith, t, h)
]

-- A pair is in the difference, if it is in the first set and not in the second.
pub has_pair-difference :
    (q : Managed) (ps qs : List Managed)
    → has_pair q (difference ps qs) ≡ (has_pair q ps && not (has_pair q qs))
unfolding has_pair difference
has_pair-difference q [] qs = refl
has_pair-difference q (p ∷ ps) qs =
    let rest = has_pair-difference q ps qs in
    elim (Bool-cases (same_pair p q)) [
      | inl t ↦
          let e = ap (λ r. has_pair r qs) (same_pair_eq p q t) in
          elim (Bool-cases (has_pair q qs)) [
            | inl h ↦ rw (e, h, rest, h, t) ground arith
            | inr h ↦ rw (e, h, t) ground arith
          ]
      | inr t ↦ elim (Bool-cases (has_pair p qs)) [
        | inl h ↦ rw (h, t, rest) ground arith
        | inr h ↦ rw (h, t, rest) ground arith
      ]
    ]

-- A descriptor has one name, if it stands once.
pub same_name :
    (x : ℕ) (n m : List ℕ) (ps : List Managed)
    → IsDistinct (fds ps)
    → has_pair (x, n) ps ≡ true
    → has_pair (x, m) ps ≡ true
    → n ≡ m
unfolding has_pair same_pair
same_name x n m [] d e_1 e_2 = absurd cc
same_name x n m ((a, k) ∷ ps) d e_1 e_2 = elim (Bool-cases (a == x)) [
  | inl t ↦
      let absent : contains x (fds ps) ≡ false =
        ap (λ y. contains y (fds ps)) (sym ((==_iff a x).0 t)) ∙ d.0 in
      let not_there : (l : List ℕ) → has_pair (x, l) ps ≡ false = λ l.
        elim (Bool-cases (has_pair (x, l) ps)) [
          | inl h ↦ absurd (let c = contains-of_has_pair x l ps h in cc)
          | inr h ↦ h
        ] in
      let e_n : same_uri k n ≡ true = ground (arith, e_1, t, not_there n) in
      let e_m : same_uri k m ≡ true = ground (arith, e_2, t, not_there m) in
      sym (same_uri_eq k n e_n) ∙ same_uri_eq k m e_m
  | inr t ↦ same_name x n m ps d.1 (ground (arith, e_1, t)) (ground (arith, e_2, t))
]
