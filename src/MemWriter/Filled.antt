-- ===== src/MemWriter/Filled.antt =====
-- MemWritter.cpp: what the buffer has after any writes.
use new_cpp.Prelude.{
  ℕ, suc, ◌+◌, ◌-◌, min, ◌≡◌, refl, sym, ap, ap₂, subst, ◌∙◌, inl, inr, none, some, List, [], ◌∷◌,
  ◌++◌, append_assoc, append-nil, length, length-append, take, take-append-drop, arith, ◌==◌,
  ==_iff, Bool-cases,
}
use new_cpp.Frame.Pieces.{}
use new_cpp.Frame.Layout.{}
use new_cpp.Frame.Reading.{write_at}
use new_cpp.MemWriter.{MemWritter, new_mem_writter, write_memory}

abbrev pub write_pieces : List (List ℕ) → MemWritter → MemWritter
write_pieces [] w = w
write_pieces (p ∷ ps) w = write_pieces ps (write_memory p w).1

abbrev pub joined : List (List ℕ) → List ℕ
joined [] = []
joined (p ∷ ps) = p ++ joined ps

-- What a buffer has after bytes were written to it from its beginning: those that it has room for,
-- and behind them what it had before.
abbrev pub overwritten : List ℕ → List ℕ → List ℕ
overwritten (x ∷ xs) (b ∷ bs) = b ∷ overwritten xs bs
overwritten xs [] = xs
overwritten [] (b ∷ bs) = []

pub record IsFilled (old bytes : List ℕ) (w : MemWritter) : Type 0 where
  pub same_size : w.size ≡ length old
  pub at_end : w.position ≡ min (length bytes) (length old)
  pub filled : w.buffer ≡ overwritten old bytes

write_at-suc : (n y : ℕ) (bs xs : List ℕ) → write_at (suc n) bs (y ∷ xs) ≡ y ∷ write_at n bs xs
unfolding write_at
write_at-suc n y bs xs = let e : suc n + length bs ≡ suc (n + length bs) = omega arith in rw e refl

write_at-nothing : (n : ℕ) (xs : List ℕ) → write_at n [] xs ≡ xs
unfolding write_at
write_at-nothing n xs = let here : n + 0 ≡ n = omega arith in rw here (take-append-drop n xs)

overwritten-nil : (xs : List ℕ) → overwritten xs [] ≡ xs
overwritten-nil [] = refl
overwritten-nil (x ∷ xs) = refl

overwritten-start :
    (old bs : List ℕ) → write_at 0 (take (min (length bs) (length old)) bs) old ≡ overwritten old bs
unfolding write_at
overwritten-start old [] =
    let none_taken : min 0 (length old) ≡ 0 = omega arith in
    rw none_taken (write_at-nothing 0 old ∙ sym (overwritten-nil old))
overwritten-start [] (b ∷ bs) =
    let none_taken : min (suc (length bs)) 0 ≡ 0 = omega arith in
    rw none_taken (write_at-nothing 0 [])
overwritten-start (x ∷ old) (b ∷ bs) =
    let m = min (length bs) (length old) in
    let taken : min (suc (length bs)) (suc (length old)) ≡ suc m = omega arith in
    let k = length (take m bs) in
    let place : 0 + suc k ≡ suc (0 + k) = omega arith in
    rw (taken, place) (ap (λ l. b ∷ l) (overwritten-start old bs))

overwritten-append :
    (old done bs : List ℕ)
    → write_at
        (min (length done) (length old))
        (take (min (length bs) (length old - min (length done) (length old))) bs)
        (overwritten old done)
      ≡ overwritten old (done ++ bs)
overwritten-append old [] bs =
    let start : min 0 (length old) ≡ 0 = omega arith in
    let room : length old - 0 ≡ length old = omega arith in
    rw (overwritten-nil old, start, room) (overwritten-start old bs)
overwritten-append [] (d ∷ done) bs =
    let start : min (suc (length done)) 0 ≡ 0 = omega arith in
    let room : min (length bs) (0 - 0) ≡ 0 = omega arith in rw (start, room) (write_at-nothing 0 [])
overwritten-append (x ∷ old) (d ∷ done) bs =
    let n = min (length done) (length old) in
    let e_n : min (length (d ∷ done)) (length (x ∷ old)) ≡ suc n = omega arith in
    let e_m : length (x ∷ old) - suc n ≡ length old - n = omega arith in
    rw
      (
        e_n,
        e_m,
        write_at-suc n d (take (min (length bs) (length old - n)) bs) (overwritten old done),
        overwritten-append old done bs,
      )
      refl

length-overwritten : (xs bs : List ℕ) → length (overwritten xs bs) ≡ length xs
length-overwritten xs [] = ap length (overwritten-nil xs)
length-overwritten [] (b ∷ bs) = refl
length-overwritten (x ∷ xs) (b ∷ bs) = ap suc (length-overwritten xs bs)

write_memory-IsFilled :
    (old done bs : List ℕ) (w : MemWritter)
    → IsFilled old done w
    → IsFilled old (done ++ bs) (write_memory bs w).1
unfolding write_memory
write_memory-IsFilled old done bs w h =
    let n = min (length done) (length old) in
    let room : w.size - w.position ≡ length old - n = omega (arith, h.same_size, h.at_end) in
    let amount = min (length bs) (length old - n) in
    let sum = length-append done bs in
    let after : write_at n (take amount bs) (overwritten old done) ≡ overwritten old (done ++ bs) =
      overwritten-append old done bs in
    elim (Bool-cases (amount == 0)) [
      | inl t ↦
          let nothing : amount ≡ 0 = (==_iff amount 0).0 t in
          let run : write_memory bs w ≡ (none, w) = rw (write_memory, room, t) refl in
          let same : write_at n [] (overwritten old done) ≡ overwritten old done =
            write_at-nothing n (overwritten old done) in
          subst (λ r. IsFilled old (done ++ bs) r.1) (sym run)
            (record {
              same_size = h.same_size;
              at_end = h.at_end ∙ omega (arith, nothing, sum);
              filled =
                  h.filled
                  ∙ sym same
                  ∙ ap (λ k. write_at n (take k bs) (overwritten old done)) (sym nothing)
                  ∙ after;
            })
      | inr t ↦
          let w' = record w {
            buffer = write_at w.position (take amount bs) w.buffer;
            position = w.position + amount;
          } in
          let run : write_memory bs w ≡ (some amount, w') = rw (write_memory, room, t) refl in
          subst (λ r. IsFilled old (done ++ bs) r.1) (sym run)
            (record {
              same_size = h.same_size;
              at_end = omega (arith, h.at_end, sum);
              filled = ap₂ (λ k l. write_at k (take amount bs) l) h.at_end h.filled ∙ after;
            })
    ]

write_pieces-IsFilled :
    (old done : List ℕ) (ps : List (List ℕ)) (w : MemWritter)
    → IsFilled old done w
    → IsFilled old (done ++ joined ps) (write_pieces ps w)
write_pieces-IsFilled old done [] w h = subst (λ l. IsFilled old l w) (sym (append-nil done)) h
write_pieces-IsFilled old done (p ∷ ps) w h =
    subst (λ l. IsFilled old l (write_pieces (p ∷ ps) w)) (append_assoc done p (joined ps))
      (write_pieces-IsFilled old (done ++ p) ps (write_memory p w).1
        (write_memory-IsFilled old done p w h))

-- Any number of `Write`s into a buffer: it keeps its size, its first bytes are those that were
-- written, in order, as many as there is room for, and all others are unchanged; the position is the
-- number of bytes written, or the size of the buffer.
pub write_memory-overwritten :
    (old : List ℕ) (ps : List (List ℕ))
    → let w = write_pieces ps (new_mem_writter old) in
      (length w.buffer ≡ length old)
      × (w.buffer ≡ overwritten old (joined ps))
      × (w.position ≡ min (length (joined ps)) (length old))
unfolding new_mem_writter
write_memory-overwritten old ps =
    let start : IsFilled old [] (new_mem_writter old) = record {
      same_size = refl;
      at_end = omega arith;
      filled = sym (overwritten-nil old);
    } in
    let h = write_pieces-IsFilled old [] ps (new_mem_writter old) start in
    (ap length h.filled ∙ length-overwritten old (joined ps), h.filled, h.at_end)
