-- ===== src/Ipc/Uri/Parsed.antt =====
-- URIs that the parser takes apart as written: a scheme with an absolute path.
use new_cpp.Prelude.{
  ℕ, suc, ◌+◌, ◌-◌, ◌≡◌, ◌≢◌, refl, true, false, List, [], ◌∷◌, ◌++◌, map, length, drop, arith, ltb,
  ◌==◌, if◌then◌else◌, Bool-cases, inl, inr, length-append, take-length, ==_iff,
}
use new_cpp.Prelude.Text.{is_empty, find_char-append, Avoids, to_lower}
use new_cpp.Ipc.Uri.{Uri, blank, consume_protocol, consume_host_and_port, consume_path, parse}

pub is_empty-append : (xs : List ℕ) (c : ℕ) (ys : List ℕ) → is_empty (xs ++ c ∷ ys) ≡ false
is_empty-append [] c ys = refl
is_empty-append (x ∷ xs) c ys = refl

drop-suc-length : (xs : List ℕ) (c : ℕ) (ys : List ℕ) → drop (length xs + 1) (xs ++ c ∷ ys) ≡ ys
drop-suc-length [] c ys = refl
drop-suc-length (x ∷ xs) c ys =
    let e : suc (length xs) + 1 ≡ suc (length xs + 1) = omega arith in
    rw e (drop-suc-length xs c ys)

-- `(pos < s.length() - 1) ? s.substr(pos + 1) : ""` is what follows the byte found.
pub rest_lem :
    (xs : List ℕ) (c : ℕ) (ys : List ℕ)
    → (if ltb (length xs) (length (xs ++ c ∷ ys) - 1)
        then drop (length xs + 1) (xs ++ c ∷ ys)
        else [])
      ≡ ys
rest_lem xs c [] = rw (drop-suc-length xs c []) (ground arith)
rest_lem xs c (y ∷ ys) =
    rw (drop-suc-length xs c (y ∷ ys)) (ground (arith, length-append xs (c ∷ y ∷ ys)))

pub consume_protocol-colon :
    (proto s : List ℕ) (u : Uri)
    → Avoids b':' proto
    → consume_protocol (proto ++ b':' ∷ s) u ≡ (s, record u { protocol = map to_lower proto })
unfolding consume_protocol
consume_protocol-colon proto s u h = rw (
  is_empty-append proto b':' s,
  find_char-append b':' proto s h,
  consume_protocol,
  rest_lem proto b':' s,
  take-length proto (b':' ∷ s),
)

no_host :
    (c : ℕ) (q : List ℕ) (u : Uri)
    → c ≢ b'/'
    → consume_host_and_port (b'/' ∷ c ∷ q) u ≡ (b'/' ∷ c ∷ q, u)
unfolding consume_host_and_port
no_host c q u ne = elim (Bool-cases (c == b'/')) [
  | inl e ↦ absurd (ne ((==_iff c b'/').0 e))
  | inr e ↦ rw (e, consume_host_and_port)
]

-- A scheme without a colon, then a path that begins with one slash: the parser finds the scheme,
-- in lower case, and the path, and no host or port.
pub parse-path :
    (proto : List ℕ) (c : ℕ) (q : List ℕ)
    → Avoids b':' proto
    → c ≢ b'/'
    → parse (proto ++ b':' ∷ b'/' ∷ c ∷ q) ≡ record {
      protocol = map to_lower proto;
      path = b'/' ∷ c ∷ q;
      host = [];
      port = [];
      valid = true;
    }
unfolding parse
parse-path proto c q h ne =
    rw (consume_protocol-colon proto (b'/' ∷ c ∷ q) blank h)
      (rw (no_host c q _ ne) (unfold consume_path in refl))
