-- ===== src/Ipc/Connector.antt =====
-- MLCommon/src/Network/Ipc/IpcConnector.cpp and MLCommon/src/Network/Unix/IpcConnectorUnix.cpp: the
-- sockets are bound, their clients accepted, and all of them closed. `none` is the descriptor -1.
-- The pointer that epoll keeps for a socket is its index.
use new_cpp.Prelude.{
  ℕ, zero, suc, Bool, true, false, Option, none, some, List, [], ◌∷◌, length, take, min, get_elem?,
  if◌then◌else◌,
}
use new_cpp.Ipc.Epoll.{
  Kernel, epoll_in, epoll_rdhup, epoll_et, has_flag, EpollEvent, EpollItem, prepare_with,
  cleanup_epoll, wait_epoll,
}
use new_cpp.Ipc.Sockets.{
  IpcSocket, add_client_descriptor, clear_clients_descriptor, set_socket_descriptor,
}
use new_cpp.Ipc.Transmitter.{update_socket}
pub mod Release
mod Tests

-- The other calls of the system, and the start of the worker's thread. The Booleans say that a result is
-- not -1.
pub record Calls (W : Type 0) : Type 0 where
  pub socket : W → Option ℕ × W
  pub bind : ℕ → List ℕ → W → Bool × W
  pub listen : ℕ → ℕ → W → Bool × W
  pub accept : Option ℕ → W → Option ℕ × W
  pub shutdown : Option ℕ → W → W
  pub unlink : List ℕ → W → W
  pub chmod : List ℕ → ℕ → W → Bool × W
  pub group_id : List ℕ → W → Option ℕ
  pub user_id : W → ℕ
  pub chown : List ℕ → ℕ → ℕ → W → Bool × W
  pub worker_start : W → W

pub record Connector : Type 0 where
  pub sockets : List IpcSocket
  pub is_ready : Bool
  pub user_group : List ℕ
  pub polling : Option ℕ

-- How `Start` ends; the last two are exceptions.
pub data Started : Type 0 where
  started already_started cannot_bind cannot_create_epoll : Started

abbrev queued_requests : ℕ
queued_requests = 5

abbrev accept_events : ℕ
accept_events = 10

abbrev accept_wait : ℕ
accept_wait = 1000

-- The part of a path that an address of 108 bytes has room for, with the zero at its end.
unfoldable pub short_path : List ℕ → List ℕ
short_path path = take (min (length path) 107) path

unfoldable pub set_user_group : List ℕ → Connector → Connector
set_user_group group c = record c { user_group = group }

-- What `start` gives to epoll for each socket.
unfoldable pub items_from : ℕ → List IpcSocket → List EpollItem
items_from i [] = []
items_from i (s ∷ ss) =
    record {
      item_events = epoll_in ∷ epoll_rdhup ∷ epoll_et ∷ [];
      file_descriptor = s.socket_descriptor;
      pointer = i;
    }
    ∷ items_from (suc i) ss

module _ (kernel : Kernel) (calls : Calls kernel.World) where
  open kernel use {World, close}

  -- `applyPermissions`.
  unfoldable pub apply_permissions : List ℕ → List ℕ → World → World
  apply_permissions group path w =
      let (changed, w_1) = calls.chmod path 0o770 w in
      elim changed [
        | false ↦ w_1
        | true ↦ elim (calls.group_id group w_1) [
          | none ↦ w_1
          | some gid ↦ (calls.chown path (calls.user_id w_1) gid w_1).1
        ]
      ]

  -- `bindSocket`, from `listen` on, and from `bind` on.
  unfoldable pub listen_socket : List ℕ → ℕ → IpcSocket → World → Bool × (IpcSocket × World)
  listen_socket group fd s w =
      let (ok, w_1) = calls.listen fd queued_requests w in
      elim ok [
        | false ↦ (false, (s, w_1))
        | true ↦ (true, (s, apply_permissions group s.socket_path w_1))
      ]

  unfoldable pub bind_at : List ℕ → ℕ → IpcSocket → World → Bool × (IpcSocket × World)
  bind_at group fd s w =
      let (ok, w_1) = calls.bind fd (short_path s.socket_path) (calls.unlink s.socket_path w) in
      elim ok [ false ↦ (false, (s, w_1)) | true ↦ listen_socket group fd s w_1 ]

  -- `bindSocket`.
  unfoldable pub bind_socket : List ℕ → IpcSocket → World → Bool × (IpcSocket × World)
  bind_socket group s w = elim s.socket_path [
    | [] ↦ (false, (s, w))
    | _ ∷ _ ↦
        let (result, w_1) = calls.socket w in
        elim result [
          | none ↦ (false, (s, w_1))
          | some fd ↦ bind_at group fd (set_socket_descriptor (some fd) s) w_1
        ]
  ]

  -- The loop of `Start`, which ends at the first socket that cannot be bound.
  unfoldable pub bind_all : List ℕ → List IpcSocket → World → Bool × (List IpcSocket × World)
  bind_all group [] w = (true, ([], w))
  bind_all group (s ∷ ss) w =
      let (ok, (s_1, w_1)) = bind_socket group s w in
      let (all_ok, (ss_1, w_2)) = bind_all group ss w_1 in
      elim ok [ false ↦ (false, (s_1 ∷ ss, w_1)) | true ↦ (all_ok, (s_1 ∷ ss_1, w_2)) ]

  -- `Start`, when the sockets are bound: the epoll of the sockets, and the thread.
  unfoldable pub start_bound : Connector → World → Started × (Connector × World)
  start_bound c w =
      let (ok, (p, w_1)) =
        prepare_with kernel (length c.sockets) (items_from 0 c.sockets) c.polling w in
      elim ok [
        | false ↦
            let (p_1, w_2) = cleanup_epoll kernel p w_1 in
            (cannot_create_epoll, (record c { polling = p_1 }, w_2))
        | true ↦ (started, (record c { polling = p; is_ready = true }, calls.worker_start w_1))
      ]

  -- `IpcConnector::Start`.
  unfoldable pub start_connector : Connector → World → Started × (Connector × World)
  start_connector c w =
      let (ok, (ss, w_1)) = bind_all c.user_group c.sockets w in
      let bound = record c { sockets = ss } in
      let go_on = start_bound bound w_1 in
      if c.is_ready
      then (already_started, (c, w))
      else (if ok then go_on else (cannot_bind, (bound, w_1)))

  unfoldable pub close_clients : List ℕ → World → World
  close_clients [] w = w
  close_clients (fd ∷ fds) w = close_clients fds (calls.shutdown (some fd) (close (some fd) w))

  -- `closeSocket`.
  unfoldable pub close_socket : IpcSocket → World → IpcSocket × World
  close_socket s w =
      let w_1 = calls.shutdown s.socket_descriptor (close s.socket_descriptor w) in
      (clear_clients_descriptor (set_socket_descriptor none s), close_clients s.clients w_1)

  unfoldable pub close_all : List IpcSocket → World → List IpcSocket × World
  close_all [] w = ([], w)
  close_all (s ∷ ss) w =
      let (s_1, w_1) = close_socket s w in let (ss_1, w_2) = close_all ss w_1 in (s_1 ∷ ss_1, w_2)

  -- The handler in `loop`: at most one client is accepted for an event.
  unfoldable pub accept_event : EpollEvent → List IpcSocket → World → List IpcSocket × World
  accept_event e ss w = elim (get_elem? ss e.target) [
    | none ↦ (ss, w)
    | some s ↦
        let (result, w_1) = calls.accept s.socket_descriptor w in
        let accepted : List IpcSocket = elim result [
          | none ↦ ss
          | some fd ↦ update_socket e.target (add_client_descriptor fd) ss
        ] in
        if has_flag epoll_in e.events then (accepted, w_1) else (ss, w)
  ]

  unfoldable pub accept_events_of :
      List EpollEvent → List IpcSocket → World → List IpcSocket × World
  accept_events_of [] ss w = (ss, w)
  accept_events_of (e ∷ es) ss w =
      let (ss_1, w_1) = accept_event e ss w in accept_events_of es ss_1 w_1

  -- `loop`.
  unfoldable pub accept_loop : Connector → World → Connector × World
  accept_loop c w =
      let (es, w_1) = wait_epoll kernel accept_events accept_wait c.polling w in
      let (ss, w_2) = accept_events_of es c.sockets w_1 in (record c { sockets = ss }, w_2)

  -- The rounds of `Worker::Run` that the thread still makes until it sees the request to stop.
  unfoldable pub accept_rounds : ℕ → Connector → World → Connector × World
  accept_rounds zero c w = (c, w)
  accept_rounds (suc n) c w = let (c_1, w_1) = accept_loop c w in accept_rounds n c_1 w_1

  -- `IpcConnector::Stop`, with the rounds of `loop` that the thread still makes before it is joined.
  unfoldable pub stop_connector : ℕ → Connector → World → Connector × World
  stop_connector rounds c w =
      let (c_1, w_1) = accept_rounds rounds c w in
      let (ss, w_2) = close_all c_1.sockets w_1 in
      let (p, w_3) = cleanup_epoll kernel c_1.polling w_2 in
      if c.is_ready
      then (record c_1 { sockets = ss; polling = p; is_ready = false }, w_3)
      else (c, w)
