-- ===== src/Ipc/Connector/Tests.antt =====
-- A system that is the list of its open descriptors, and a connector of two sockets.
use new_cpp.Prelude.{
  ℕ, ◌≡◌, refl, Bool, true, false, not, ◌&&◌, Option, none, some, List, [], ◌∷◌, ◌++◌, ◌==◌, arith,
  if◌then◌else◌,
}
use new_cpp.Ipc.Epoll.{Kernel, epoll_in, wait_epoll, has_flag}
use new_cpp.Ipc.Sockets.{IpcSocket, contains}
use new_cpp.Ipc.Connector.{
  Calls, Connector, accept_event, accept_events_of, accept_loop, accept_rounds, stop_connector,
}
use new_cpp.Ipc.Connector.Release.{held, held_by, IsReleased, Closes, stop_connector-IsReleased}

abbrev without : ℕ → List ℕ → List ℕ
without fd [] = []
without fd (x ∷ xs) = let rest = without fd xs in if x == fd then rest else x ∷ rest

abbrev close_in : Option ℕ → List ℕ → List ℕ
close_in none w = w
close_in (some fd) w = without fd w

contains-without :
    (fd x : ℕ) (w : List ℕ) → contains x (without fd w) ≡ (contains x w && not (fd == x))
unfolding contains
contains-without fd x [] = ground arith
contains-without fd x (y ∷ ys) = ground (arith, contains-without fd x ys)

contains-close_in :
    (fd : Option ℕ) (x : ℕ) (w : List ℕ)
    → contains x (close_in fd w) ≡ (contains x w && not (contains x (held fd)))
unfolding contains
contains-close_in none x w = ground arith
contains-close_in (some fd) x w = ground (arith, contains-without fd x w)

abbrev open_kernel : Kernel
open_kernel = record {
  World = List ℕ;
  epoll_create = λ n w. (some 3, 3 ∷ w);
  epoll_add = λ p fd events target w. (true, w);
  epoll_delete = λ p fd w. (true, w);
  epoll_wait = λ p max ms w. (some (record { events = epoll_in ∷ []; target = 1 } ∷ []), w);
  close = close_in;
}

abbrev open_calls : Calls (List ℕ)
open_calls = record {
  socket = λ w. (some 4, 4 ∷ w);
  bind = λ fd path w. (true, w);
  listen = λ fd n w. (true, w);
  accept = λ fd w. (some 9, 9 ∷ w);
  shutdown = λ fd w. w;
  unlink = λ path w. w;
  chmod = λ path mode w. (true, w);
  group_id = λ group w. some 100;
  user_id = λ w. 1000;
  chown = λ path uid gid w. (true, w);
  worker_start = λ w. w;
}

abbrev opened : List ℕ → ℕ → Bool
opened w x = contains x w

open_kernel-Closes : Closes open_kernel open_calls opened
open_kernel-Closes = record { close_closes = contains-close_in; shutdown_keeps = λ fd x w. refl }

abbrev a_socket : ℕ → List ℕ → IpcSocket
a_socket fd fds = record {
  socket_uri = [];
  socket_name = [];
  socket_path = 47 ∷ 97 ∷ [];
  socket_descriptor = some fd;
  clients = fds;
}

abbrev running : Connector
running = record {
  sockets = a_socket 4 (6 ∷ 7 ∷ []) ∷ a_socket 5 [] ∷ [];
  is_ready = true;
  user_group = [];
  polling = some 3;
}

abbrev before_stop : List ℕ
before_stop = 3 ∷ 4 ∷ 5 ∷ 6 ∷ 7 ∷ 8 ∷ []

-- While the connector stops, its thread accepts a client with the descriptor 9.
accept_rounds-one : (accept_rounds open_kernel open_calls 1 running before_stop).1 ≡ 9 ∷ before_stop
unfolding accept_rounds accept_loop accept_events_of accept_event wait_epoll has_flag
accept_rounds-one = refl

stop_connector-IsReleased_example :
    let joined = accept_rounds open_kernel open_calls 1 running before_stop in
    let after = stop_connector open_kernel open_calls 1 running before_stop in
    (after.0.is_ready ≡ false)
    × (after.0.polling ≡ none)
    × IsReleased after.0.sockets
    × (opened after.1 9 ≡ (
        opened joined.1 9 && not (contains 9 (held_by joined.0.sockets ++ held running.polling))))
stop_connector-IsReleased_example =
    stop_connector-IsReleased open_kernel open_calls opened open_kernel-Closes 1 running before_stop
      9 refl
