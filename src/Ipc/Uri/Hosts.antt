-- ===== src/Ipc/Uri/Hosts.antt =====
-- URIs with a host: found when nothing follows it, and cut in the wrong place when a path does.
use new_cpp.Prelude.{
  ℕ, suc, ◌+◌, ◌-◌, ◌≡◌, ◌≢◌, refl, ap, true, false, some, none, List, [], ◌∷◌, ◌++◌, map, length,
  drop, take, arith, ltb, if◌then◌else◌, take-length,
}
use new_cpp.Prelude.Text.{
  codes, is_empty, find_char_from, find_char-append, find_char-Avoids, Avoids, to_lower,
}
use new_cpp.Ipc.Uri.{
  Uri, blank, extract_host_and_port, consume_host_and_port, consume_path, parse, create, socket,
  refused, empty_path,
}
use new_cpp.Ipc.Uri.Parsed.{consume_protocol-colon, rest_lem, is_empty-append, parse-path}

Avoids-append : (c : ℕ) (xs ys : List ℕ) → Avoids c xs → Avoids c ys → Avoids c (xs ++ ys)
Avoids-append c [] ys h k = k
Avoids-append c (x ∷ xs) ys h k = (h.0, Avoids-append c xs ys h.1 k)

extract-colon :
    (h p : List ℕ) (u : Uri)
    → Avoids b':' h
    → extract_host_and_port (h ++ b':' ∷ p) u ≡ record u { host = h; port = p }
unfolding extract_host_and_port
extract-colon h p u a = rw (
  find_char-append b':' h p a,
  extract_host_and_port,
  rest_lem h b':' p,
  take-length h (b':' ∷ p),
)

extract-host :
    (h : List ℕ) (u : Uri) → Avoids b':' h → extract_host_and_port h u ≡ record u { host = h }
unfolding extract_host_and_port
extract-host h u a = rw (find_char-Avoids b':' h a, extract_host_and_port)

find-slash-none : (s : List ℕ) → Avoids b'/' s → find_char_from b'/' 2 (b'/' ∷ b'/' ∷ s) ≡ none
unfolding find_char_from
find-slash-none s a = rw (find_char-Avoids b'/' s a)

find-slash :
    (h r : List ℕ)
    → Avoids b'/' h
    → find_char_from b'/' 2 (b'/' ∷ b'/' ∷ (h ++ b'/' ∷ r)) ≡ some (length h + 2)
unfolding find_char_from
find-slash h r a = rw (find_char-append b'/' h r a)

host_to_end :
    (s : List ℕ) (u : Uri)
    → Avoids b'/' s
    → consume_host_and_port (b'/' ∷ b'/' ∷ s) u ≡ ([], extract_host_and_port s u)
unfolding consume_host_and_port
host_to_end s u a = rw (find-slash-none s a, consume_host_and_port)

-- A scheme, a host that is not empty, and a port, with no path, where neither the scheme nor the
-- host has a colon, and neither the host nor the port a slash: the parser finds the host and the
-- port as they are written, and the scheme in lower case; the URI is valid.
pub parse-host-port :
    (proto h p : List ℕ)
    → Avoids b':' proto
    → Avoids b':' h
    → Avoids b'/' h
    → Avoids b'/' p
    → is_empty h ≡ false
    → parse (proto ++ b':' ∷ b'/' ∷ b'/' ∷ (h ++ b':' ∷ p))
      ≡ record { protocol = map to_lower proto; path = []; host = h; port = p; valid = true }
unfolding parse
parse-host-port proto h p a b c d ne =
    let none_left = Avoids-append b'/' h (b':' ∷ p) c ((λ e. cc), d) in
    rw (consume_protocol-colon proto (b'/' ∷ b'/' ∷ (h ++ b':' ∷ p)) blank a) (
      rw (host_to_end (h ++ b':' ∷ p) _ none_left, extract-colon h p _ b)
        (unfold consume_path in rw ne))

-- The count that is taken for an end: the host is cut two bytes too late.
late_cut :
    (h : List ℕ) (c : ℕ) (r : List ℕ) → take (length h + 2) (h ++ b'/' ∷ c ∷ r) ≡ h ++ b'/' ∷ c ∷ []
late_cut [] c r = refl
late_cut (x ∷ h) c r =
    let e : suc (length h) + 2 ≡ suc (length h + 2) = omega arith in
    rw e (ap (λ l. x ∷ l) (late_cut h c r))

rest-slash :
    (h : List ℕ) (c : ℕ) (r : List ℕ)
    → (let s = b'/' ∷ b'/' ∷ (h ++ b'/' ∷ c ∷ r) in
        if ltb (length h + 2) (length s - 1) then drop (length h + 2 + 1) s else [])
      ≡ c ∷ r
rest-slash h c r =
    let e : length h + 2 ≡ suc (suc (length h)) = omega arith in
    rw e (rest_lem (b'/' ∷ b'/' ∷ h) b'/' (c ∷ r))

host_to_slash :
    (h : List ℕ) (c : ℕ) (r : List ℕ) (u : Uri)
    → Avoids b'/' h
    → consume_host_and_port (b'/' ∷ b'/' ∷ (h ++ b'/' ∷ c ∷ r)) u
      ≡ (c ∷ r, extract_host_and_port (h ++ b'/' ∷ c ∷ []) u)
unfolding consume_host_and_port
host_to_slash h c r u a =
    rw (find-slash h (c ∷ r) a, consume_host_and_port, rest-slash h c r, late_cut h c r)

no_path : (c : ℕ) (r : List ℕ) (u : Uri) → c ≢ b'/' → consume_path (c ∷ r) u ≡ u
unfolding consume_path
no_path c r u ne = ground arith

-- A scheme, a host and a path, as in `tcp://localhost/data`, where the path has a byte other than
-- `/` and `:` behind its slash: the host that the parser finds runs two bytes into the path, and
-- the path that it finds is empty.
pub parse-host-path :
    (proto h : List ℕ) (c : ℕ) (r : List ℕ)
    → Avoids b':' proto
    → Avoids b':' h
    → Avoids b'/' h
    → c ≢ b'/'
    → c ≢ b':'
    → parse (proto ++ b':' ∷ b'/' ∷ b'/' ∷ (h ++ b'/' ∷ c ∷ r)) ≡ record {
      protocol = map to_lower proto;
      path = [];
      host = h ++ b'/' ∷ c ∷ [];
      port = [];
      valid = true;
    }
unfolding parse
parse-host-path proto h c r a b d ne nc =
    rw (consume_protocol-colon proto (b'/' ∷ b'/' ∷ (h ++ b'/' ∷ c ∷ r)) blank a) (
      rw
        (
          host_to_slash h c r _ d,
          extract-host (h ++ b'/' ∷ c ∷ []) _ (Avoids-append b':' h _ b ((λ e. cc), (nc, tt))),
        )
        (rw (no_path c r _ ne) (ground (arith, is_empty-append h b'/' (c ∷ [])))))

unix_scheme : Avoids b':' (codes "unix")
unix_scheme = omega arith

-- `unix:` with an absolute path of one leading slash: the socket gets just that path.
pub create-path :
    (c : ℕ) (q : List ℕ)
    → c ≢ b'/'
    → create (codes "unix" ++ b':' ∷ b'/' ∷ c ∷ q) ≡ socket (b'/' ∷ c ∷ q)
unfolding create
create-path c q ne = rw (parse-path (codes "unix") c q unix_scheme ne)

-- The usual form of the same URI, `unix:///path`, is refused: the path is taken for part of the
-- host.
pub create-empty_host :
    (c : ℕ) (r : List ℕ)
    → c ≢ b'/'
    → c ≢ b':'
    → create (codes "unix" ++ b':' ∷ b'/' ∷ b'/' ∷ b'/' ∷ c ∷ r) ≡ refused empty_path
unfolding create
create-empty_host c r ne nc = rw (parse-host-path (codes "unix") [] c r unix_scheme tt tt ne nc)
