-- ===== src/Tcp/Tests.antt =====
-- A connection that takes at most two bytes at a time.
use new_cpp.Prelude.{ℕ, ◌≡◌, refl, min, true, false, none, some, List, [], ◌++◌, take, length}
use new_cpp.Prelude.Text.{codes}
use new_cpp.Tcp.{
  Net, wrote, write_loop, write_data, listen_on, is_valid, close, connect_to_host, connect_created,
}
use new_cpp.Tcp.Lifecycle.{ListenEnds, listen_on-ListenEnds}

abbrev narrow : Net
narrow = record {
  World = List ℕ;
  socket = λ w. (some 3, w);
  bind = λ fd port w. (true, w);
  listen = λ fd count w. (false, w);
  connect = λ fd ip port w. (false, w);
  accept = λ fd w. (some 4, w);
  recv = λ fd count w. (some [], w);
  send = λ fd buffer w. (some (min 2 (length buffer)), w ++ take (min 2 (length buffer)) buffer);
  shutdown = λ fd w. w;
}

abbrev stream : List ℕ → List ℕ
stream w = w

-- Four bytes in two rounds: the peer gets the first two twice.
write_data-twice :
    write_data narrow (codes "abcd") (record { descriptor = some 3 }) [] ≡ (wrote 4, codes "abab")
unfolding write_data write_loop
write_data-twice = refl

-- A socket that could not connect is valid.
connect_to_host-valid :
    is_valid (connect_to_host narrow [] 80 (record { descriptor = none }, [])).1.0 ≡ true
unfolding connect_to_host connect_created close is_valid
connect_to_host-valid = refl

listen_on-ListenEnds_example :
    ListenEnds narrow 80 5 (some 3, []) (listen_on narrow 80 5 (record { descriptor = some 2 }, []))
listen_on-ListenEnds_example = listen_on-ListenEnds narrow 80 5 (record { descriptor = some 2 }) []
