-- ===== src/Tcp/Writing.antt =====
-- What `writeData` sends.
use new_cpp.Prelude.{ℕ, ◌+◌, ◌≤◌, ◌<◌, ◌≡◌, ◌⊎◌, none, some, List, [], ◌∷◌, ◌++◌, length, take}
use new_cpp.Tcp.{Net, Written, refused, wrote}

-- What `send` does on a connection: the stream grows by the bytes that it takes from the beginning
-- of the buffer, and it takes one at least if there is one.
pub record StreamLaws (net : Net) (stream : net.World → List ℕ) : Type 0 where
  pub took :
      (fd k : ℕ) (buffer : List ℕ) (w : net.World)
      → (net.send fd buffer w).0 ≡ some k
      → stream (net.send fd buffer w).1 ≡ stream w ++ take k buffer
  pub progress :
      (fd k : ℕ) (buffer : List ℕ) (w : net.World)
      → (net.send fd buffer w).0 ≡ some k
      → 0 < length buffer
      → 0 < k

-- Beginnings of the buffer, one after the other, and the sum of their lengths.
abbrev pub beginnings : List ℕ → List ℕ → List ℕ
beginnings buffer [] = []
beginnings buffer (k ∷ ks) = take k buffer ++ beginnings buffer ks

abbrev pub total : List ℕ → ℕ
total [] = 0
total (k ∷ ks) = k + total ks

module _ (net : Net) (stream : net.World → List ℕ) (laws : StreamLaws net stream) where
  open net use {World, send}

  -- A loop that had written some bytes already, and that ends without an error.
  pub record Sent (buffer : List ℕ) (written : ℕ) (w : World) (r : Written × World) : Type 0 where
    pub chunks : List ℕ
    pub result : r.0 ≡ wrote (written + total chunks)
    pub enough : length buffer ≤ written + total chunks
    pub streamed : stream r.1 ≡ stream w ++ beginnings buffer chunks

  -- A loop that ends with an error: some sends took bytes, not more than there are, and the next one
  -- failed.
  pub record Failed (fd : ℕ) (buffer : List ℕ) (written : ℕ) (w : World) (r : Written × World)
      : Type 0 where
    pub chunks : List ℕ
    pub before : World
    pub streamed : stream before ≡ stream w ++ beginnings buffer chunks
    pub short : written + total chunks ≤ length buffer
    pub fails : (send fd buffer before).0 ≡ none
    pub result : r ≡ (refused, (send fd buffer before).1)

  abbrev pub Ends : ℕ → List ℕ → ℕ → World → Written × World → Type 0
  Ends fd buffer written w r = Failed fd buffer written w r ⊎ Sent buffer written w r
