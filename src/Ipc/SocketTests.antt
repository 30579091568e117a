-- ===== src/Ipc/SocketTests.antt =====
-- The clients of a socket at concrete descriptors.
use new_cpp.Prelude.{◌≡◌, refl, none, [], ◌∷◌}
use new_cpp.Ipc.Sockets.{
  IpcSocket, ActsAsSet, clients-ActsAsSet, contains, erase, remove_client_descriptor,
}

abbrev two_clients : IpcSocket
two_clients = record {
  socket_uri = [];
  socket_name = [];
  socket_path = [];
  socket_descriptor = none;
  clients = 4 ∷ 7 ∷ [];
}

remove_client_descriptor-first : (remove_client_descriptor 4 two_clients).clients ≡ 7 ∷ []
unfolding remove_client_descriptor contains erase
remove_client_descriptor-first = refl

clients-ActsAsSet_example : ActsAsSet 7 4 two_clients
clients-ActsAsSet_example =
    clients-ActsAsSet 7 4 two_clients (unfold contains in (refl, (refl, tt)))
