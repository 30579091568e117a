-- ===== src/Ipc/Receiver.antt =====
-- MLCommon/src/Network/Unix/IpcReceiverUnix.cpp and MLCommon/src/Network/Ipc/IpcReceiver.cpp: the
-- data that the clients of the sockets send. The set of descriptors with the names of their sockets
-- is the list of its elements in order.
use new_cpp.Prelude.{
  ℕ, ◌+◌, Bool, true, false, ◌&&◌, ◌||◌, Option, none, some, List, [], ◌∷◌, ◌++◌, ltb, ◌==◌,
  if◌then◌else◌,
}
use new_cpp.Ipc.Epoll.{
  Kernel, Flag, epoll_in, epoll_hup, epoll_rdhup, epoll_et, has_flag, EpollEvent, add_to_epoll,
  remove_from_epoll, wait_epoll,
}
use new_cpp.Ipc.Sockets.{IpcSocket, contains, remove_client_descriptor}
use new_cpp.Ipc.Transmitter.{same_uri, update_socket}
pub mod Pairs
pub mod Collected
pub mod Sync
pub mod Purge
mod Tests

abbrev pub Managed : Type 0
Managed = ℕ × List ℕ

-- `operator<` of std::string.
unfoldable pub text_before : List ℕ → List ℕ → Bool
text_before xs [] = false
text_before [] (y ∷ ys) = true
text_before (x ∷ xs) (y ∷ ys) = ltb x y || ((x == y) && text_before xs ys)

-- `operator<` and `operator==` of std::pair.
unfoldable pub pair_before : Managed → Managed → Bool
pair_before (a, n) (b, m) = ltb a b || ((a == b) && text_before n m)

unfoldable pub same_pair : Managed → Managed → Bool
same_pair (a, n) (b, m) = (a == b) && same_uri n m

unfoldable pub has_pair : Managed → List Managed → Bool
has_pair p [] = false
has_pair p (q ∷ qs) = same_pair q p || has_pair p qs

-- `insert` of std::set.
unfoldable pub insert_pair : Managed → List Managed → List Managed
insert_pair p [] = p ∷ []
insert_pair p (q ∷ qs) =
    let rest = insert_pair p qs in
    if pair_before p q then p ∷ (q ∷ qs) else (if pair_before q p then q ∷ rest else q ∷ qs)

-- `std::set_difference`.
unfoldable pub difference : List Managed → List Managed → List Managed
difference [] qs = []
difference (p ∷ ps) qs = let rest = difference ps qs in if has_pair p qs then rest else p ∷ rest

unfoldable pub insert_clients : List ℕ → List ℕ → List Managed → List Managed
insert_clients name [] ps = ps
insert_clients name (fd ∷ fds) ps = insert_clients name fds (insert_pair (fd, name) ps)

unfoldable pub collect_from : List IpcSocket → List Managed → List Managed
collect_from [] ps = ps
collect_from (s ∷ ss) ps = collect_from ss (insert_clients s.socket_name s.clients ps)

-- `collectDescriptors`.
unfoldable pub collect_descriptors : List IpcSocket → List Managed
collect_descriptors sockets = collect_from sockets []

pub record Receiver : Type 0 where
  pub managed_descriptors : List Managed
  pub polling : Option ℕ

abbrev pub receiver_events : List Flag
receiver_events = epoll_rdhup ∷ epoll_hup ∷ epoll_in ∷ epoll_et ∷ []

abbrev epool_events : ℕ
epool_events = 10

abbrev epool_wait : ℕ
epool_wait = 100

-- `findParent`, as an index.
unfoldable pub find_parent : ℕ → List IpcSocket → Option ℕ
find_parent fd [] = none
find_parent fd (s ∷ ss) =
    let rest = find_parent fd ss in
    if contains fd s.clients then some 0 else elim rest [ none ↦ none | some i ↦ some (i + 1) ]

-- `purgeSockets`.
unfoldable pub purge_sockets : List ℕ → List IpcSocket → List IpcSocket
purge_sockets [] sockets = sockets
purge_sockets (fd ∷ fds) sockets = elim (find_parent fd sockets) [
  | none ↦ purge_sockets fds sockets
  | some i ↦ purge_sockets fds (update_socket i (remove_client_descriptor fd) sockets)
]

-- The socket's name in the first pair of a descriptor.
unfoldable pub find_managed : ℕ → List Managed → Option (List ℕ)
find_managed fd [] = none
find_managed fd ((a, name) ∷ ps) =
    let rest = find_managed fd ps in if a == fd then some name else rest

-- What is seen during the handling of the events. `dispatched` records the calls of `dispatchData`.
pub record LoopTurn (W : Type 0) : Type 0 where
  pub world : W
  pub dispatched : List (List ℕ × (List ℕ × ℕ))
  pub drop_descriptors : List ℕ

module _ (kernel : Kernel) where
  open kernel use {World}

  unfoldable pub remove_all : Option ℕ → List Managed → World → World
  remove_all p [] w = w
  remove_all p ((fd, name) ∷ ps) w = remove_all p ps (remove_from_epoll kernel p fd w).1

  unfoldable pub add_all : Option ℕ → List Managed → World → World
  add_all p [] w = w
  add_all p ((fd, name) ∷ ps) w = add_all p ps (add_to_epoll kernel p fd fd receiver_events w).1

  -- `ValidateEPoll`.
  unfoldable pub validate_epoll : List IpcSocket → Receiver → World → Receiver × World
  validate_epoll sockets r w =
      let all_current = collect_descriptors sockets in
      let w_1 = remove_all r.polling (difference r.managed_descriptors all_current) w in
      let w_2 = add_all r.polling (difference all_current r.managed_descriptors) w_1 in
      (record r { managed_descriptors = all_current }, w_2)

-- `read` into a buffer of some capacity: `none` for -1.
module _ (kernel : Kernel) (read : ℕ → ℕ → kernel.World → Option (List ℕ) × kernel.World) where
  open kernel use {World}

  -- The data of an event, if `EPOLLIN` is set.
  unfoldable pub receive : ℕ → List Managed → ℕ → LoopTurn World → LoopTurn World
  receive capacity managed fd t =
      let (result, w) = read fd capacity t.world in
      let after = record t { world = w } in
      elim result [
        | none ↦ after
        | some [] ↦ after
        | some (b ∷ bs) ↦ elim (find_managed fd managed) [
          | none ↦ after
          | some name ↦ record after { dispatched = t.dispatched ++ (b ∷ bs, (name, fd)) ∷ [] }
        ]
      ]

  -- The handler in `loop`.
  unfoldable pub handle_event : ℕ → List Managed → EpollEvent → LoopTurn World → LoopTurn World
  handle_event capacity managed e t =
      let read_it = receive capacity managed e.target t in
      let t_1 = if has_flag epoll_in e.events then read_it else t in
      if has_flag epoll_hup e.events || has_flag epoll_rdhup e.events
      then record t_1 { drop_descriptors = t_1.drop_descriptors ++ e.target ∷ [] }
      else t_1

  unfoldable pub handle_events :
      ℕ → List Managed → List EpollEvent → LoopTurn World → LoopTurn World
  handle_events capacity managed [] t = t
  handle_events capacity managed (e ∷ es) t =
      handle_events capacity managed es (handle_event capacity managed e t)

  -- `IpcReceiverUnix::loop`: the sockets, the receiver, and what was dispatched.
  unfoldable pub receive_loop :
      ℕ
      → List IpcSocket
      → Receiver
      → World
      → List IpcSocket × (Receiver × (List (List ℕ × (List ℕ × ℕ)) × World))
  receive_loop capacity sockets r w =
      let (r_1, w_1) = validate_epoll kernel sockets r w in
      let (es, w_2) = wait_epoll kernel epool_events epool_wait r_1.polling w_1 in
      let start : LoopTurn World = record { world = w_2; dispatched = []; drop_descriptors = [] } in
      let t = handle_events capacity r_1.managed_descriptors es start in
      (purge_sockets t.drop_descriptors sockets, (r_1, (t.dispatched, t.world)))
