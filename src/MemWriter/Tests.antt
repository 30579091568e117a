-- ===== src/MemWriter/Tests.antt =====
-- Two writes into a buffer that has room for the first and a part of the second.
use new_cpp.Prelude.{ℕ, ◌≡◌, min, List, [], ◌∷◌, length}
use new_cpp.MemWriter.{new_mem_writter}
use new_cpp.MemWriter.Filled.{joined, overwritten, write_pieces, write_memory-overwritten}

abbrev two_writes : List (List ℕ)
two_writes = (1 ∷ 2 ∷ []) ∷ (3 ∷ 4 ∷ 5 ∷ []) ∷ []

write_memory-overwritten_example :
    let w = write_pieces two_writes (new_mem_writter (0 ∷ 0 ∷ 0 ∷ 0 ∷ [])) in
    (length w.buffer ≡ 4)
    × (w.buffer ≡ overwritten (0 ∷ 0 ∷ 0 ∷ 0 ∷ []) (joined two_writes))
    × (w.position ≡ min (length (joined two_writes)) 4)
write_memory-overwritten_example = write_memory-overwritten (0 ∷ 0 ∷ 0 ∷ 0 ∷ []) two_writes
