-- ===== src/Frame/Filling.antt =====
-- V4LFrame.cpp: what `fillupBuffer` does on a stream that gives its bytes in pieces of any size.
use new_cpp.Prelude.{
  ℕ, zero, suc, ◌+◌, ◌-◌, ◌<◌, ◌≡◌, refl, sym, ap, ◌∙◌, true, false, some, List, [], ◌∷◌, ◌++◌,
  append_assoc, append-nil, length, length-append, length-eq-zero, arith, ltb,
}
use new_cpp.Frame.Reading.{Reader, full, failed, fillup_buffer}
use new_cpp.Frame.Pieces.{Gives, split_prefix, split_length, write_at-append}

module _ (reader : Reader) (contents : reader.World → List ℕ)
    (gives : (n : ℕ) (w : reader.World) → Gives reader contents n w) where
  open reader use {World, read}

  fillup_buffer-turn :
      (fuel : ℕ) (got cs j_1 j_2 : List ℕ) (w w_1 : World)
      → read (length (j_1 ++ j_2)) w ≡ (some cs, w_1)
      → length j_1 ≡ length cs
      → 0 < length cs
      → fillup_buffer reader (suc fuel) (got ++ (j_1 ++ j_2)) (length got) w
        ≡ fillup_buffer reader fuel ((got ++ cs) ++ j_2) (length (got ++ cs)) w_1
  unfolding fillup_buffer
  fillup_buffer-turn fuel got [] j_1 j_2 w w_1 e same h = absurd (omega arith)
  fillup_buffer-turn fuel got (c ∷ cs) j_1 j_2 w w_1 e same h =
      let whole : length (got ++ (j_1 ++ j_2)) ≡ length got + length (j_1 ++ j_2) =
        length-append got (j_1 ++ j_2) in
      let left : length (got ++ (j_1 ++ j_2)) - length got ≡ length (j_1 ++ j_2) =
        omega (arith, whole) in
      let place : length got + length (c ∷ cs) ≡ length (got ++ c ∷ cs) =
        sym (length-append got (c ∷ cs)) in
      let e' : read (length (got ++ (j_1 ++ j_2)) - length got) w ≡ (some (c ∷ cs), w_1) =
        ap (λ n. read n w) left ∙ e in
      let more : ltb (length got) (length (got ++ (j_1 ++ j_2))) ≡ true =
        ground (arith, whole, length-append j_1 j_2, same) in
      rw
        (
          fillup_buffer,
          more,
          e',
          ap (λ r. r.1) e',
          write_at-append got j_1 (c ∷ cs) j_2 same,
          place,
        )
        refl

  -- `fillupBuffer` fills what is left of a buffer, if the stream has as many bytes.
  pub fillup_buffer-full :
      (fuel : ℕ) (got bs junk rest : List ℕ) (w : World)
      → contents w ≡ bs ++ rest
      → length junk ≡ length bs
      → length bs < fuel
      → (w' : World) × (fillup_buffer reader fuel (got ++ junk) (length got) w
          ≡ full (got ++ bs) w')
        × (contents w' ≡ rest)
  unfolding fillup_buffer
  fillup_buffer-full zero got bs junk rest w e same h = absurd (omega arith)
  fillup_buffer-full (suc fuel) got [] junk rest w e same h =
      let less : ltb (length got) (length (got ++ junk)) ≡ false =
        ground (arith, length-append got junk, same) in
      let buffer : got ++ junk ≡ got ++ [] = ap (λ l. got ++ l) (length-eq-zero junk same) in
      (w, rw (fillup_buffer, less, buffer) refl, e)
  fillup_buffer-full (suc fuel) got (b ∷ bs) junk rest w e same h =
      let (cs, w_1, e_read, e_contents, short, some_byte) = gives (length (b ∷ bs)) w in
      let (zs, e_bs, e_rest) =
        split_prefix (b ∷ bs) cs rest (contents w_1) (sym e_contents ∙ e) short in
      let e_length : suc (length bs) ≡ length cs + length zs =
        ap length e_bs ∙ length-append cs zs in
      let (j_1, j_2, e_junk, l_1, l_2) =
        split_length (length cs) (length zs) junk (same ∙ e_length) in
      let there : 0 < length (contents w) = omega (arith, ap length e) in
      let new : 0 < length cs = some_byte (omega arith) there in
      let asked = ap (λ n. read n w) (ap length (sym e_junk) ∙ same) ∙ e_read in
      let (w', e', e_after) =
        fillup_buffer-full fuel (got ++ cs) zs j_2 rest w_1 e_rest l_2
          (omega (arith, new, e_length)) in
      let all : (got ++ cs) ++ zs ≡ got ++ b ∷ bs =
        append_assoc got cs zs ∙ ap (λ l. got ++ l) (sym e_bs) in
      (
        w',
        ap (λ l. fillup_buffer reader (suc fuel) (got ++ l) (length got) w) e_junk
            ∙ fillup_buffer-turn fuel got cs j_1 j_2 w w_1 asked l_1 new
            ∙ e'
            ∙ ap (λ l. full l w') all,
        e_after,
      )

  fillup_buffer-empty :
      (fuel : ℕ) (got junk : List ℕ) (w w_1 : World)
      → read (length junk) w ≡ (some [], w_1)
      → 0 < length junk
      → fillup_buffer reader (suc fuel) (got ++ junk) (length got) w
        ≡ failed (got ++ junk) (length got) w_1
  unfolding fillup_buffer
  fillup_buffer-empty fuel got junk w w_1 e h =
      let whole = length-append got junk in
      let left : length (got ++ junk) - length got ≡ length junk = omega (arith, whole) in
      let e' : read (length (got ++ junk) - length got) w ≡ (some [], w_1) =
        ap (λ n. read n w) left ∙ e in
      let more : ltb (length got) (length (got ++ junk)) ≡ true = ground (arith, whole) in
      rw (fillup_buffer, more, e', ap (λ r. r.1) e') refl

  -- If the bytes of the stream do not suffice, it takes them all, and the next call goes on behind
  -- them.
  pub fillup_buffer-part :
      (fuel : ℕ) (got bs j_1 j_2 : List ℕ) (w : World)
      → contents w ≡ bs
      → length j_1 ≡ length bs
      → 0 < length j_2
      → length bs < fuel
      → (w' : World) × (fillup_buffer reader fuel (got ++ (j_1 ++ j_2)) (length got) w
          ≡ failed ((got ++ bs) ++ j_2) (length (got ++ bs)) w')
        × (contents w' ≡ [])
  fillup_buffer-part zero got bs j_1 j_2 w e same more h = absurd (omega arith)
  fillup_buffer-part (suc fuel) got [] j_1 j_2 w e same more h =
      let (cs, w_1, e_read, e_contents, short, some_byte) = gives (length j_2) w in
      let lengths : 0 ≡ length cs + length (contents w_1) =
        ap length (sym e ∙ e_contents) ∙ length-append cs (contents w_1) in
      let e_cs = length-eq-zero cs (omega (arith, lengths)) in
      let e_junk : got ++ (j_1 ++ j_2) ≡ got ++ j_2 =
        ap (λ l. got ++ (l ++ j_2)) (length-eq-zero j_1 same) in
      let nil = append-nil got in
      (
        w_1,
        ap (λ l. fillup_buffer reader (suc fuel) l (length got) w) e_junk
            ∙ fillup_buffer-empty fuel got j_2 w w_1 (e_read ∙ ap (λ l. (some l, w_1)) e_cs) more
            ∙ ap (λ l. failed (l ++ j_2) (length l) w_1) (sym nil),
        length-eq-zero (contents w_1) (omega (arith, lengths)),
      )
  fillup_buffer-part (suc fuel) got (b ∷ bs) j_1 j_2 w e same more h =
      let (cs, w_1, e_read, e_contents, short, some_byte) = gives (length (j_1 ++ j_2)) w in
      let lengths : suc (length bs) ≡ length cs + length (contents w_1) =
        ap length (sym e ∙ e_contents) ∙ length-append cs (contents w_1) in
      let (zs, e_bs, e_rest) =
        split_prefix (b ∷ bs) cs [] (contents w_1) (sym e_contents ∙ e ∙ sym (append-nil (b ∷ bs)))
          (omega (arith, lengths)) in
      let e_length : suc (length bs) ≡ length cs + length zs =
        ap length e_bs ∙ length-append cs zs in
      let (a, c, e_junk, l_1, l_2) = split_length (length cs) (length zs) j_1 (same ∙ e_length) in
      let there : 0 < length (contents w) = omega (arith, ap length e) in
      let asked : 0 < length (j_1 ++ j_2) = omega (arith, length-append j_1 j_2) in
      let new : 0 < length cs = some_byte asked there in
      let parts : j_1 ++ j_2 ≡ a ++ (c ++ j_2) = ap (λ l. l ++ j_2) e_junk ∙ append_assoc a c j_2 in
      let (w', e', e_after) =
        fillup_buffer-part fuel (got ++ cs) zs c j_2 w_1 (e_rest ∙ append-nil zs) l_2 more
          (omega (arith, new, e_length)) in
      let all : (got ++ cs) ++ zs ≡ got ++ b ∷ bs =
        append_assoc got cs zs ∙ ap (λ l. got ++ l) (sym e_bs) in
      (
        w',
        ap (λ l. fillup_buffer reader (suc fuel) (got ++ l) (length got) w) parts
            ∙ fillup_buffer-turn fuel got cs a (c ++ j_2) w w_1
                (ap (λ l. read (length l) w) (sym parts) ∙ e_read) l_1 new
            ∙ e'
            ∙ ap (λ l. failed (l ++ j_2) (length l) w') all,
        e_after,
      )
