-- ===== src/Ipc/Transmitter/Tests.antt =====
-- Two sockets, one of whose clients is gone.
use new_cpp.Prelude.{ℕ, ◌≡◌, ◌≢◌, refl, arith, not, none, List, [], ◌∷◌, ◌==◌}
use new_cpp.Prelude.Text.{codes}
use new_cpp.Ipc.Sockets.{IpcSocket, contains, erase, remove_client_descriptor}
use new_cpp.Ipc.Transmitter.{
  Wire, Transmitter, find_socket, same_uri, send_data, send_one, send_each, inner_send_to_clients,
  send_loop, send_to_clients,
}
use new_cpp.Ipc.Transmitter.Delivery.{Delivered, send_to_clients-Delivered}

abbrev broken_at_seven : Wire
broken_at_seven = record { World = List ℕ; write = λ fd bytes w. (not (fd == 7), fd ∷ w) }

abbrev socket_at : List ℕ → List ℕ → IpcSocket
socket_at uri fds = record {
  socket_uri = uri;
  socket_name = [];
  socket_path = [];
  socket_descriptor = none;
  clients = fds;
}

abbrev transmitter : Transmitter (List ℕ)
transmitter = record {
  sockets = socket_at (codes "a") (3 ∷ []) ∷ socket_at (codes "b") (4 ∷ 7 ∷ 9 ∷ []) ∷ [];
  list_of_data = [];
  world = [];
  writes = [];
}

send_to_clients-gone :
    (send_to_clients broken_at_seven
      (send_data broken_at_seven (codes "b") (codes "x") transmitter)).sockets
    ≡ socket_at (codes "a") (3 ∷ []) ∷ socket_at (codes "b") (4 ∷ 9 ∷ []) ∷ []
unfolding send_to_clients send_data send_loop inner_send_to_clients send_each send_one find_socket
    same_uri remove_client_descriptor contains erase
send_to_clients-gone = refl

first-equal : {x y : ℕ} {xs ys : List ℕ} → x ∷ xs ≡ y ∷ ys → x ≡ y
first-equal e = cc

a_is_not_b : codes "a" ≢ codes "b"
a_is_not_b e = let same = first-equal e in omega (arith, same)

send_to_clients-Delivered_example :
    Delivered broken_at_seven 1
      (socket_at (codes "b") (4 ∷ 7 ∷ 9 ∷ []))
      (codes "b")
      (codes "x")
      transmitter
send_to_clients-Delivered_example =
    send_to_clients-Delivered broken_at_seven (socket_at (codes "a") (3 ∷ []) ∷ []) []
      (socket_at (codes "b") (4 ∷ 7 ∷ 9 ∷ [])) (codes "b") (codes "x") transmitter refl
      (a_is_not_b, tt) refl refl (unfold contains in (refl, (refl, (refl, tt))))
