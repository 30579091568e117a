-- ===== src/Ipc/Receiver/Tests.antt =====
-- Two sockets with their clients, and an epoll that watches a list of descriptors.
use new_cpp.Prelude.{
  ℕ, ◌≡◌, refl, Bool, true, not, ◌&&◌, none, some, List, [], ◌∷◌, ◌==◌, arith, if◌then◌else◌,
}
use new_cpp.Ipc.Epoll.{Kernel}
use new_cpp.Ipc.Sockets.{IpcSocket, contains}
use new_cpp.Ipc.Receiver.{Receiver, validate_epoll, purge_sockets}
use new_cpp.Ipc.Receiver.Pairs.{all_clients}
use new_cpp.Ipc.Receiver.Purge.{IsPurged, purge_sockets-clients}
use new_cpp.Ipc.Receiver.Sync.{Watches, IsInStep, validate_epoll-IsInStep}

abbrev without : ℕ → List ℕ → List ℕ
without fd [] = []
without fd (x ∷ xs) = let rest = without fd xs in if x == fd then rest else x ∷ rest

contains-without :
    (fd x : ℕ) (w : List ℕ) → contains x (without fd w) ≡ (not (fd == x) && contains x w)
unfolding contains
contains-without fd x [] = ground arith
contains-without fd x (y ∷ ys) = ground (arith, contains-without fd x ys)

abbrev list_kernel : Kernel
list_kernel = record {
  World = List ℕ;
  epoll_create = λ n w. (some 3, w);
  epoll_add = λ p fd events target w. (true, fd ∷ w);
  epoll_delete = λ p fd w. (true, without fd w);
  epoll_wait = λ p max ms w. (some [], w);
  close = λ p w. w;
}

abbrev watches : List ℕ → ℕ → Bool
watches w x = contains x w

list_kernel-Watches : Watches list_kernel 3 watches
list_kernel-Watches = record {
  add_watches = λ fd x w. unfold contains in refl;
  delete_watches = contains-without;
}

abbrev with_clients : List ℕ → List ℕ → IpcSocket
with_clients name fds = record {
  socket_uri = [];
  socket_name = name;
  socket_path = [];
  socket_descriptor = none;
  clients = fds;
}

abbrev two_sockets : List IpcSocket
two_sockets = with_clients (97 ∷ []) (5 ∷ 7 ∷ []) ∷ with_clients (98 ∷ []) (6 ∷ []) ∷ []

-- Descriptor 4 was closed, 6 was a client of the first socket, and 7 is new.
abbrev receiver : Receiver
receiver = record {
  managed_descriptors = (4, 97 ∷ []) ∷ (5, 97 ∷ []) ∷ (6, 97 ∷ []) ∷ [];
  polling = some 3;
}

receiver-IsInStep : IsInStep list_kernel 3 watches receiver (4 ∷ 5 ∷ 6 ∷ [])
unfolding contains
receiver-IsInStep = record {
  has_epoll = refl;
  distinct = (refl, (refl, (refl, tt)));
  in_step = λ x. refl;
}

validate_epoll-IsInStep_example :
    let after = validate_epoll list_kernel two_sockets receiver (4 ∷ 5 ∷ 6 ∷ []) in
    IsInStep list_kernel 3 watches after.0 after.1
    × ((x : ℕ) → watches after.1 x ≡ contains x (all_clients two_sockets))
unfolding contains
validate_epoll-IsInStep_example =
    validate_epoll-IsInStep list_kernel 3 watches list_kernel-Watches two_sockets receiver
      (4 ∷ 5 ∷ 6 ∷ []) receiver-IsInStep (refl, (refl, (refl, tt)))

purge_sockets-clients_example :
    IsPurged (7 ∷ 9 ∷ []) two_sockets (purge_sockets (7 ∷ 9 ∷ []) two_sockets)
unfolding contains
purge_sockets-clients_example =
    purge_sockets-clients (7 ∷ 9 ∷ []) two_sockets (refl, (refl, (refl, tt)))
