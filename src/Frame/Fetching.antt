-- ===== src/Frame/Fetching.antt =====
-- V4LFrame.cpp: what the loops of `DeserializeFrom` do on a stream that gives its bytes in pieces of
-- any size.
use new_cpp.Prelude.{
  ℕ, zero, suc, ◌+◌, ◌-◌, ◌<◌, ◌≡◌, refl, sym, ap, ◌∙◌, false, some, List, ◌++◌, append_assoc,
  length, length-append, length-eq-zero, arith, ◌==◌, ==_iff, Bool-cases, inl, inr, if◌then◌else◌,
}
use new_cpp.Frame.Reading.{no_fuel, Reader, full, read_loop}
use new_cpp.Frame.Pieces.{Gives, split_prefix, split_length, write_at-append}

module _ (reader : Reader) (contents : reader.World → List ℕ)
    (gives : (n : ℕ) (w : reader.World) → Gives reader contents n w) where
  open reader use {World, read}

  read_loop-turn :
      (fuel : ℕ) (got cs j_1 j_2 : List ℕ) (w w_1 : World)
      → read (length (j_1 ++ j_2)) w ≡ (some cs, w_1)
      → length j_1 ≡ length cs
      → read_loop reader (suc fuel) (got ++ (j_1 ++ j_2)) (length got) w ≡ (
          if length (got ++ cs) == length (got ++ (j_1 ++ j_2))
          then full ((got ++ cs) ++ j_2) w_1
          else read_loop reader fuel ((got ++ cs) ++ j_2) (length (got ++ cs)) w_1)
  unfolding read_loop
  read_loop-turn fuel got cs j_1 j_2 w w_1 e same =
      let left : length (got ++ (j_1 ++ j_2)) - length got ≡ length (j_1 ++ j_2) =
        omega (arith, length-append got (j_1 ++ j_2)) in
      let place : length got + length cs ≡ length (got ++ cs) = sym (length-append got cs) in
      let e' : read (length (got ++ (j_1 ++ j_2)) - length got) w ≡ (some cs, w_1) =
        ap (λ n. read n w) left ∙ e in
      rw (read_loop, e', ap (λ r. r.1) e', write_at-append got j_1 cs j_2 same, place) refl

  -- The loops of `DeserializeFrom` fill what is left of a buffer with the next bytes of the stream,
  -- however these come in.
  pub read_loop-full :
      (fuel : ℕ) (got bs junk rest : List ℕ) (w : World)
      → contents w ≡ bs ++ rest
      → length junk ≡ length bs
      → length bs < fuel
      → (w' : World) × (read_loop reader fuel (got ++ junk) (length got) w ≡ full (got ++ bs) w')
        × (contents w' ≡ rest)
  read_loop-full zero got bs junk rest w e same h = absurd (omega arith)
  read_loop-full (suc fuel) got bs junk rest w e same h =
      let (cs, w_1, e_read, e_contents, short, some_byte) = gives (length bs) w in
      let (zs, e_bs, e_rest) = split_prefix bs cs rest (contents w_1) (sym e_contents ∙ e) short in
      let e_length : length bs ≡ length cs + length zs = ap length e_bs ∙ length-append cs zs in
      let (j_1, j_2, e_junk, l_1, l_2) =
        split_length (length cs) (length zs) junk (same ∙ e_length) in
      let size : length (got ++ (j_1 ++ j_2)) ≡ length (got ++ cs) + length zs = omega (
        arith,
        length-append got cs,
        length-append got (j_1 ++ j_2),
        length-append j_1 j_2,
        l_1,
        l_2,
      ) in
      let start =
        ap (λ l. read_loop reader (suc fuel) (got ++ l) (length got) w) e_junk
        ∙ read_loop-turn fuel got cs j_1 j_2 w w_1
            (ap (λ n. read n w) (ap length (sym e_junk) ∙ same) ∙ e_read) l_1 in
      let all : (got ++ cs) ++ zs ≡ got ++ bs =
        append_assoc got cs zs ∙ ap (λ l. got ++ l) (sym e_bs) in
      elim (Bool-cases (length (got ++ cs) == length (got ++ (j_1 ++ j_2)))) [
        | inl t ↦
            let none_left : length zs ≡ 0 = omega (arith, (==_iff _ _).0 t, size) in
            let e_zs = length-eq-zero zs none_left in
            let e_j : j_2 ≡ zs = length-eq-zero j_2 (l_2 ∙ none_left) ∙ sym e_zs in
            (
              w_1,
              start
                  ∙ ap
                      (λ b.
                        if b
                        then full ((got ++ cs) ++ j_2) w_1
                        else read_loop reader fuel ((got ++ cs) ++ j_2) (length (got ++ cs)) w_1)
                      t
                  ∙ ap (λ l. full l w_1) (ap (λ l. (got ++ cs) ++ l) e_j ∙ all),
              e_rest ∙ ap (λ l. l ++ rest) e_zs,
            )
        | inr t ↦
            let some_left : 0 < length zs = ground (arith, size) in
            let asked : 0 < length bs = omega (arith, e_length) in
            let there : 0 < length (contents w) =
              omega (arith, ap length e, length-append bs rest) in
            let (w', e', e_after) =
              read_loop-full fuel (got ++ cs) zs j_2 rest w_1 e_rest l_2
                (omega (arith, some_byte asked there, e_length)) in
            (
              w',
              start
                  ∙ ap
                      (λ b.
                        if b
                        then full ((got ++ cs) ++ j_2) w_1
                        else read_loop reader fuel ((got ++ cs) ++ j_2) (length (got ++ cs)) w_1)
                      t
                  ∙ e'
                  ∙ ap (λ l. full l w') all,
              e_after,
            )
      ]

  -- If the bytes of the stream do not suffice, and `Read` gives none at its end, the loops never end.
  pub read_loop-starves :
      (fuel : ℕ) (got junk bs : List ℕ) (w : World)
      → contents w ≡ bs
      → length bs < length junk
      → read_loop reader fuel (got ++ junk) (length got) w ≡ no_fuel
  unfolding read_loop
  read_loop-starves zero got junk bs w e h = refl
  read_loop-starves (suc fuel) got junk bs w e h =
      let (cs, w_1, e_read, e_contents, short, some_byte) = gives (length junk) w in
      let lengths : length bs ≡ length cs + length (contents w_1) =
        ap length (sym e ∙ e_contents) ∙ length-append cs (contents w_1) in
      let (j_1, j_2, e_junk, l_1, l_2) =
        split_length (length cs) (length junk - length cs) junk (omega (arith, short)) in
      let start =
        ap (λ l. read_loop reader (suc fuel) (got ++ l) (length got) w) e_junk
        ∙ read_loop-turn fuel got cs j_1 j_2 w w_1
            (ap (λ n. read n w) (ap length (sym e_junk)) ∙ e_read) l_1 in
      let more : (length (got ++ cs) == length (got ++ (j_1 ++ j_2))) ≡ false = ground (
        arith,
        h,
        lengths,
        l_1,
        l_2,
        length-append got cs,
        length-append got (j_1 ++ j_2),
        length-append j_1 j_2,
      ) in
      start
      ∙ ap
          (λ b.
            if b
            then full ((got ++ cs) ++ j_2) w_1
            else read_loop reader fuel ((got ++ cs) ++ j_2) (length (got ++ cs)) w_1)
          more
      ∙ read_loop-starves fuel (got ++ cs) j_2 (contents w_1) w_1 refl
          (omega (arith, h, lengths, l_2))
