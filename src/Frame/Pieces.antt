-- ===== src/Frame/Pieces.antt =====
-- V4LFrame.cpp: the bytes of a stream, and of a buffer, in pieces.
use new_cpp.Prelude.{
  ℕ, zero, suc, ◌+◌, ◌≤◌, ◌<◌, ◌≡◌, refl, sym, ap, ap₂, some, List, [], ◌∷◌, ◌++◌, append_assoc,
  length, length-append, take-length, drop-length, arith,
}
use new_cpp.Frame.Reading.{Reader, write_at}

-- What a read gives: bytes that come next, at most as many as it is asked for, and some if it is
-- asked for some and there are any.
abbrev pub Gives : (reader : Reader) → (reader.World → List ℕ) → ℕ → reader.World → Type 0
Gives reader contents n w =
    (bs : List ℕ) × (w_1 : reader.World) × (reader.read n w ≡ (some bs, w_1))
    × (contents w ≡ bs ++ contents w_1)
    × (length bs ≤ n)
    × (0 < n → 0 < length (contents w) → 0 < length bs)

-- A part of one list that starts another.
pub split_prefix :
    (xs ys rest rest' : List ℕ)
    → ys ++ rest' ≡ xs ++ rest
    → length ys ≤ length xs
    → (zs : List ℕ) × (xs ≡ ys ++ zs) × (rest' ≡ zs ++ rest)
split_prefix xs [] rest rest' e h = (xs, refl, e)
split_prefix [] (y ∷ ys) rest rest' e h = absurd (omega arith)
split_prefix (x ∷ xs) (y ∷ ys) rest rest' e h =
    let tails : ys ++ rest' ≡ xs ++ rest = cc in
    let heads : y ≡ x = cc in
    let (zs, e_1, e_2) = split_prefix xs ys rest rest' tails (omega (arith, h)) in
    (zs, ap₂ (λ a b. a ∷ b) (sym heads) e_1, e_2)

pub split_length :
    (m n : ℕ) (xs : List ℕ)
    → length xs ≡ m + n
    → (ys zs : List ℕ) × (xs ≡ ys ++ zs) × (length ys ≡ m) × (length zs ≡ n)
split_length zero n xs h = ([], xs, refl, refl, omega (arith, h))
split_length (suc m) n [] h = absurd (omega arith)
split_length (suc m) n (x ∷ xs) h =
    let (ys, zs, e, e_1, e_2) = split_length m n xs (omega (arith, h)) in
    (x ∷ ys, zs, ap (λ l. x ∷ l) e, ap suc e_1, e_2)

pub write_at-append :
    (got old new rest : List ℕ)
    → length old ≡ length new
    → write_at (length got) new (got ++ (old ++ rest)) ≡ (got ++ new) ++ rest
unfolding write_at
write_at-append got old new rest e =
    let place : length got + length new ≡ length (got ++ old) =
      omega (arith, e, length-append got old) in
    rw (
      place,
      take-length got (old ++ rest),
      sym (append_assoc got old rest),
      drop-length (got ++ old) rest,
      append_assoc got new rest,
    )
